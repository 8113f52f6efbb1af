-- ===== src/Metadata/Gas/Flows.antt =====
-- src/metadata/gas.rs: the wallets that are calculated agree along every branch.
use cairo_native.Prelude.{
  ℕ, zero, suc, ◌≡◌, ◌≢◌, refl, sym, ap, ◌∙◌, true, Bool-cases, List, [], ◌∷◌, Option, none, some,
  inl, inr,
}
use cairo_native.Error.{ok, bind-ok, not_ok, ok-injective}
use cairo_native.Metadata.Gas.{GasInfo, GasWallet}
use cairo_native.Metadata.Gas.Wallets.{
  Flow, Wallets, replace, wallet_of, collect, settle, flow_branches, flow_statement,
  flow_statements, enter_functions, calculate_statement_wallets, nothing,
}
use cairo_native.Emu.Vm.{Statement, invocation, return, BranchInfo, nth}

-- The wallets that were known stay.
abbrev Keeps : Wallets → Wallets → Type 0
Keeps old new = (i : ℕ) (w : GasWallet) → nth old i ≡ some (some w) → nth new i ≡ some (some w)

two_states : {w : GasWallet} → some none ≢ some (some w)
two_states h = cc

no_wallet : {w : Option GasWallet} → none ≢ some w
no_wallet h = cc

inner : {v w : GasWallet} → some (some v) ≡ some (some w) → some v ≡ some w
inner h = cc

replace-nth :
    (ws : Wallets) (i : ℕ) (w : GasWallet) (ws' : Wallets)
    → replace ws i w ≡ ok ws'
    → nth ws' i ≡ some (some w)
replace-nth [] i w ws' h = absurd (not_ok h)
replace-nth (v ∷ ws) zero w ws' h = rw (sym (ok-injective h)) refl
replace-nth (v ∷ ws) (suc i) w ws' h =
    let (rest, e, f) = bind-ok (replace ws i w) h in
    rw (sym (ok-injective f)) (replace-nth ws i w rest e)

replace-Keeps :
    (ws : Wallets) (i : ℕ) (w : GasWallet) (ws' : Wallets)
    → nth ws i ≡ some none
    → replace ws i w ≡ ok ws'
    → Keeps ws ws'
replace-Keeps [] i w ws' free h j v at_j = absurd (not_ok h)
replace-Keeps (u ∷ ws) zero w ws' free h zero v at_j = absurd (two_states (sym free ∙ at_j))
replace-Keeps (u ∷ ws) zero w ws' free h (suc j) v at_j = rw (sym (ok-injective h)) at_j
replace-Keeps (u ∷ ws) (suc i) w ws' free h zero v at_j =
    let (rest, e, f) = bind-ok (replace ws i w) h in rw (sym (ok-injective f)) at_j
replace-Keeps (u ∷ ws) (suc i) w ws' free h (suc j) v at_j =
    let (rest, e, f) = bind-ok (replace ws i w) h in
    rw (sym (ok-injective f)) (replace-Keeps ws i w rest free e j v at_j)

-- What a branch, and a statement, brings about: `At i w` says that statement `i` has the wallet `w`.
module _ {Target LibfuncId Libfunc Circuits Change : Type 0}
    (flow : Flow Target LibfuncId Libfunc Circuits Change) (At : ℕ → GasWallet → Type 0) where
  -- The target of a branch has the wallet that the branch's change makes of the source's.
  abbrev pub Arrives : ℕ → GasWallet → List (BranchInfo Target) → List Change → Type 0
  Arrives idx src (branch ∷ branches) (change ∷ changes) =
      ((new : GasWallet) × (flow.update src change ≡ ok new) × At (flow.next idx branch.target) new)
      × Arrives idx src branches changes
  Arrives idx src _ _ = Unit

  abbrev pub Flowing : Circuits → ℕ → Statement Target LibfuncId → Type 0
  Flowing circuits idx (invocation id args branches) =
      (libfunc : Libfunc) × (src : GasWallet) × (flow.get_libfunc id ≡ ok libfunc)
      × At idx src
      × Arrives idx src branches (flow.core_libfunc_cost circuits idx libfunc)
  Flowing circuits idx (return ids) = Unit

  abbrev pub AllFlow : Circuits → ℕ → List (Statement Target LibfuncId) → Type 0
  AllFlow circuits idx [] = Unit
  AllFlow circuits idx (statement ∷ rest) =
      Flowing circuits idx statement × AllFlow circuits (suc idx) rest

-- Known wallets and statements.
abbrev Known : Wallets → ℕ → GasWallet → Type 0
Known ws i w = nth ws i ≡ some (some w)

module _ {Target LibfuncId Libfunc Circuits Change : Type 0}
    (flow : Flow Target LibfuncId Libfunc Circuits Change) {At Later : ℕ → GasWallet → Type 0}
    (more : (i : ℕ) (w : GasWallet) → At i w → Later i w) where
  Arrives-more :
      (idx : ℕ) (src : GasWallet) (branches : List (BranchInfo Target)) (changes : List Change)
      → Arrives flow At idx src branches changes
      → Arrives flow Later idx src branches changes
  Arrives-more idx src [] changes arrives = tt
  Arrives-more idx src (b ∷ branches) [] arrives = tt
  Arrives-more idx src (b ∷ branches) (c ∷ changes) ((new, e, at_new), arrives) =
      ((new, e, more _ new at_new), Arrives-more idx src branches changes arrives)

  Flowing-more :
      (circuits : Circuits) (idx : ℕ) (statement : Statement Target LibfuncId)
      → Flowing flow At circuits idx statement
      → Flowing flow Later circuits idx statement
  Flowing-more circuits idx (invocation id args branches) (libfunc, src, e, at_src, arrives) =
      (libfunc, src, e, more idx src at_src, Arrives-more idx src branches _ arrives)
  Flowing-more circuits idx (return ids) flowing = tt

  AllFlow-more :
      (circuits : Circuits) (idx : ℕ) (statements : List (Statement Target LibfuncId))
      → AllFlow flow At circuits idx statements
      → AllFlow flow Later circuits idx statements
  AllFlow-more circuits idx [] flowing = tt
  AllFlow-more circuits idx (statement ∷ rest) (first, flowing) =
      (Flowing-more circuits idx statement first, AllFlow-more circuits (suc idx) rest flowing)

wallet_of-ok :
    (w : Option (Option GasWallet)) (v : GasWallet) → wallet_of w ≡ ok v → w ≡ some (some v)
wallet_of-ok none v h = absurd (not_ok h)
wallet_of-ok (some none) v h = absurd (not_ok h)
wallet_of-ok (some (some w)) v h = ap (λ w. some (some w)) (ok-injective h)

collect-nth :
    (ws : Wallets) (all : List GasWallet)
    → collect ws ≡ ok all
    → (i : ℕ) (w : GasWallet) → Known ws i w
    → nth all i ≡ some w
collect-nth [] all h i w known = absurd (no_wallet known)
collect-nth (none ∷ ws) all h i w known = absurd (not_ok h)
collect-nth (some v ∷ ws) all h zero w known =
    let (rest, e, f) = bind-ok (collect ws) h in rw (sym (ok-injective f)) (inner known)
collect-nth (some v ∷ ws) all h (suc i) w known =
    let (rest, e, f) = bind-ok (collect ws) h in
    rw (sym (ok-injective f)) (collect-nth ws rest e i w known)

module _ {Target LibfuncId Libfunc Circuits Change : Type 0}
    (flow : Flow Target LibfuncId Libfunc Circuits Change)
    (same_eq : (v w : GasWallet) → flow.same v w ≡ true → v ≡ w) where
  -- A wallet that is settled is there, and no other has changed.
  settle-nth :
      (ws ws' : Wallets) (dst : ℕ) (new : GasWallet)
      → settle flow ws dst new (nth ws dst) ≡ ok ws'
      → (nth ws' dst ≡ some (some new)) × Keeps ws ws'
  unfolding settle
  settle-nth ws ws' dst new = go (nth ws dst) refl
    where
      go :
          (old : Option (Option GasWallet))
          → nth ws dst ≡ old
          → settle flow ws dst new old ≡ ok ws'
          → (nth ws' dst ≡ some (some new)) × Keeps ws ws'
      go none e h = absurd (not_ok h)
      go (some none) e h = (replace-nth ws dst new ws' h, replace-Keeps ws dst new ws' e h)
      go (some (some old)) e h = elim (Bool-cases (flow.same new old)) [
        | inl f ↦
            let kept : ws ≡ ws' = ok-injective (rw (settle, f) at h) in
            (
              rw (sym kept, e) (ap (λ w. some (some w)) (sym (same_eq new old f))),
              (λ i w at_i. rw (sym kept) at_i),
            )
        | inr f ↦ absurd (not_ok (rw (settle, f) at h))
      ]

  flow_branches-Arrives :
      (idx : ℕ) (src : GasWallet) (branches : List (BranchInfo Target)) (changes : List Change)
      (ws ws' : Wallets)
      → flow_branches flow idx src branches changes ws ≡ ok ws'
      → Arrives flow (Known ws') idx src branches changes × Keeps ws ws'
  unfolding flow_branches
  flow_branches-Arrives idx src [] changes ws ws' h =
      (tt, λ i w known. rw (sym (ok-injective h)) known)
  flow_branches-Arrives idx src (b ∷ branches) [] ws ws' h =
      (tt, λ i w known. rw (sym (ok-injective h)) known)
  flow_branches-Arrives idx src (b ∷ branches) (c ∷ changes) ws ws' h =
      let (new, e, f) = bind-ok (flow.update src c) h in
      let (ws1, g, k) = bind-ok (settle flow ws (flow.next idx b.target) new _) f in
      let (known, kept) = settle-nth ws ws1 _ new g in
      let (arrives, kept') = flow_branches-Arrives idx src branches changes ws1 ws' k in
      (((new, e, kept' _ new known), arrives), λ i w at_i. kept' i w (kept i w at_i))

  flow_statement-Flowing :
      (circuits : Circuits) (idx : ℕ) (statement : Statement Target LibfuncId) (ws ws' : Wallets)
      → flow_statement flow circuits idx statement ws ≡ ok ws'
      → Flowing flow (Known ws') circuits idx statement × Keeps ws ws'
  unfolding flow_statement
  flow_statement-Flowing circuits idx (invocation id args branches) ws ws' h =
      let (libfunc, e, f) = bind-ok (flow.get_libfunc id) h in
      let (src, g, k) = bind-ok (wallet_of (nth ws idx)) f in
      let (arrives, kept) = flow_branches-Arrives idx src branches _ ws ws' k in
      ((libfunc, src, e, kept idx src (wallet_of-ok _ src g), arrives), kept)
  flow_statement-Flowing circuits idx (return ids) ws ws' h =
      (tt, λ i w known. rw (sym (ok-injective h)) known)

  flow_statements-AllFlow :
      (circuits : Circuits) (idx : ℕ) (statements : List (Statement Target LibfuncId))
      (ws ws' : Wallets)
      → flow_statements flow circuits idx statements ws ≡ ok ws'
      → AllFlow flow (Known ws') circuits idx statements × Keeps ws ws'
  unfolding flow_statements
  flow_statements-AllFlow circuits idx [] ws ws' h =
      (tt, λ i w known. rw (sym (ok-injective h)) known)
  flow_statements-AllFlow circuits idx (statement ∷ rest) ws ws' h =
      let (ws1, e, f) = bind-ok (flow_statement flow circuits idx statement ws) h in
      let (flowing, kept) = flow_statement-Flowing circuits idx statement ws ws1 e in
      let (later, kept') = flow_statements-AllFlow circuits (suc idx) rest ws1 ws' f in
      (
        (Flowing-more flow kept' circuits idx statement flowing, later),
        λ i w at_i. kept' i w (kept i w at_i),
      )

  -- If the wallets of a program are calculated, then the library function of each statement that
  -- calls one is known, the statement has a wallet, and along each of its branches the target
  -- has the wallet that the branch's change of gas makes of it; where several branches meet, they
  -- agree. The test that compares wallets is assumed to hold of equal wallets only.
  pub calculate_statement_wallets-AllFlow :
      (info : GasInfo) (all : List GasWallet)
      → calculate_statement_wallets flow info ≡ ok all
      → (circuits : Circuits) × (flow.circuits_info ≡ ok circuits)
        × AllFlow flow (λ i w. nth all i ≡ some w) circuits 0 flow.statements
  unfolding calculate_statement_wallets
  calculate_statement_wallets-AllFlow info all h =
      let (ws, e, f) = bind-ok (enter_functions flow info flow.funcs (nothing flow.statements)) h in
      let (circuits, g, k) = bind-ok flow.circuits_info f in
      let (ws', l, n) = bind-ok (flow_statements flow circuits 0 flow.statements ws) k in
      let (flowing, kept) = flow_statements-AllFlow circuits 0 flow.statements ws ws' l in
      (circuits, g, AllFlow-more flow (collect-nth ws' all n) circuits 0 flow.statements flowing)
