-- ===== src/Emu/Vm/Frames.antt =====
-- The frames below the innermost one wait at a call, and a return finds the branch to go on at.
use cairo_native.Prelude.{
  ℕ, ◌≡◌, refl, ap, ◌∙◌, Bool, true, false, ◌==◌, Option, none, some, List, [], ◌∷◌,
}
use mathlib.Core.Path.{subst}
use cairo_native.Emu.Panic.{◌>>=◌, ◌>>◌, assert}
use cairo_native.Emu.Value.{Value, EvalAction, normal_branch, function_call}
use cairo_native.Emu.Vm.{
  Sierra, Machine, Frame, Dump, Statement, invocation, return, BranchInfo, nth, count, all_match,
  advance, step, execute, act, leave, only_branch, push_frame, types,
}

module _ {Target Libfunc Vars Handler : Type 0} (sierra : Sierra Target Libfunc Vars Handler) where
  -- A call of a function has one branch: what Sierra's signature of `function_call` says.
  abbrev pub CallsHaveOneBranch : Type 0
  CallsHaveOneBranch =
      (pc : ℕ) (libfunc : Libfunc) (args : List ℕ) (branches : List (BranchInfo Target))
      (values : List Value) (h h' : Handler) (f : ℕ) (fargs : List Value)
      → nth sierra.statements pc ≡ some (invocation libfunc args branches)
      → sierra.eval libfunc values h pc ≡ some (function_call f fargs, h')
      → (branch : BranchInfo Target) × (branches ≡ branch ∷ [])

  -- A frame that a return can go back to.
  pub record Waiting (frame : Frame Vars) : Type 0 where
    pub statement : Statement Target Libfunc
    pub statement_eq : nth sierra.statements frame.pc ≡ some statement
    pub branch : BranchInfo Target
    pub branch_eq : only_branch sierra statement ≡ some branch

  abbrev pub AllWaiting : List (Frame Vars) → Type 0
  AllWaiting [] = Unit
  AllWaiting (frame ∷ frames) = Waiting frame × AllWaiting frames

  -- All frames but the innermost one wait.
  abbrev pub CallersWait : Machine Vars Handler → Type 0
  CallersWait vm = elim vm.frames [ [] ↦ Unit | frame ∷ callers ↦ AllWaiting callers ]

  -- What holds of the next machine, if the step does not panic.
  abbrev pub Next : (Machine Vars Handler → Type 0) → Option (Machine Vars Handler) → Type 0
  Next P (some vm) = P vm
  Next P none = Unit

  pub assert-Next :
      (P : Machine Vars Handler → Type 0) (b : Bool) (x : Option (Machine Vars Handler))
      → Next P x
      → Next P (assert b >> x)
  assert-Next P true x h = h
  assert-Next P false x h = tt

  pub then-Next {ℓ} :
      {A : Type ℓ} (P : Machine Vars Handler → Type 0) (x : Option A)
      (f : A → Option (Machine Vars Handler))
      → ((a : A) → x ≡ some a → Next P (f a))
      → Next P (x >>= f)
  then-Next P (some a) f h = h a refl
  then-Next P none f h = tt

  act-Next :
      (libfunc : Libfunc) (args : List ℕ) (branches : List (BranchInfo Target)) (state : Vars)
      (frame : Frame Vars) (callers : List (Frame Vars)) (h : Handler) (action : EvalAction)
      → nth sierra.statements frame.pc ≡ some (invocation libfunc args branches)
      → ((f : ℕ) (fargs : List Value)
          → action ≡ function_call f fargs
          → (branch : BranchInfo Target) × (branches ≡ branch ∷ []))
      → AllWaiting callers
      → Next CallersWait (act sierra libfunc branches state frame callers h action)
  unfolding act
  act-Next libfunc args branches state frame callers h (normal_branch i results) at one wait =
      then-Next CallersWait (nth branches i) _ (λ branch _.
        assert-Next CallersWait (count results == count branch.results) _ (
          then-Next CallersWait (sierra.branch_types libfunc i) _ (λ types _.
            assert-Next CallersWait (all_match sierra.is results types) _ (
              then-Next CallersWait (sierra.put_vars state branch.results results) _
                (λ state' _. wait)))))
  act-Next libfunc args branches state frame callers h (function_call f fargs) at one wait =
      then-Next CallersWait (sierra.get_function f) _ (λ function _.
        let (branch, e) = one f fargs refl in
        let caller : Waiting (record frame { state = state }) = record {
          statement = invocation libfunc args branches;
          statement_eq = at;
          branch = branch;
          branch_eq = rw e;
        } in
        (caller, wait))

  leave-Next :
      (ids : List ℕ) (frame : Frame Vars) (callers : List (Frame Vars)) (h : Handler)
      → AllWaiting callers
      → Next CallersWait (leave sierra ids frame callers h)
  unfolding leave
  leave-Next ids frame [] h wait = tt
  leave-Next ids frame (caller ∷ callers) h (first, wait) =
      then-Next CallersWait (sierra.take_vars frame.state ids) _ (λ taken _.
        assert-Next CallersWait (sierra.is_empty taken.0) _ (
          then-Next CallersWait (nth sierra.statements caller.pc) _ (λ statement _.
            then-Next CallersWait (only_branch sierra statement) _ (λ branch _.
              assert-Next CallersWait (count branch.results == count taken.1) _ (
                then-Next CallersWait (sierra.put_vars caller.state branch.results taken.1) _
                  (λ state' _. wait))))))

  -- The machines that a run comes to: a function is entered on a machine without frames, and
  -- then there are steps.
  pub data Reached : Machine Vars Handler → Type 0 where
    entered :
        (f : ℕ) (args : List Value) (h : Handler) (vm : Machine Vars Handler)
        → push_frame sierra f args (record { frames = []; handler = h }) ≡ some vm
        → Reached vm
    stepped :
        (vm vm' : Machine Vars Handler) (dump : Dump Vars)
        → Reached vm
        → step sierra vm ≡ some (some (dump, vm'))
        → Reached vm'

  module _ (one_branch : CallsHaveOneBranch) where
    execute-Next :
        (statement : Statement Target Libfunc) (frame : Frame Vars) (callers : List (Frame Vars))
        (h : Handler)
        → nth sierra.statements frame.pc ≡ some statement
        → AllWaiting callers
        → Next CallersWait (execute sierra statement frame callers h)
    unfolding execute
    execute-Next (invocation libfunc args branches) frame callers h at wait =
        then-Next CallersWait (sierra.take_vars frame.state args) _ (λ taken _.
          then-Next CallersWait (sierra.eval libfunc taken.1 h frame.pc) _ (λ acted e.
            act-Next libfunc args branches taken.0 frame callers acted.1 acted.0 at
              (λ f fargs same.
                one_branch frame.pc libfunc args branches taken.1 h acted.1 f fargs at
                  (e ∙ ap (λ a. some (a, acted.1)) same))
              wait))
    execute-Next (return ids) frame callers h at wait = leave-Next ids frame callers h wait

    -- What holds after a step.
    abbrev After : Option (Option (Dump Vars × Machine Vars Handler)) → Type 0
    After (some (some (dump, vm))) = CallersWait vm
    After _ = Unit

    dumped :
        (dump : Dump Vars) (x : Option (Machine Vars Handler))
        → Next CallersWait x
        → After (x >>= (λ vm. some (some (dump, vm))))
    dumped dump (some vm) h = h
    dumped dump none h = tt

    found :
        {A : Type 0} (x : Option A) (f : A → Option (Option (Dump Vars × Machine Vars Handler)))
        → ((a : A) → x ≡ some a → After (f a))
        → After (x >>= f)
    found (some a) f h = h a refl
    found none f h = tt

    advance-After :
        (frames : List (Frame Vars)) (h : Handler)
        → CallersWait (record { frames = frames; handler = h })
        → After (advance sierra frames h)
    unfolding advance
    advance-After [] h wait = tt
    advance-After (frame ∷ callers) h wait =
        found (nth sierra.statements frame.pc) _ (λ statement at.
          dumped (frame.pc, frame.state) (execute sierra statement frame callers h)
            (execute-Next statement frame callers h at wait))

    entered-CallersWait :
        (f : ℕ) (args : List Value) (h : Handler)
        → Next CallersWait (push_frame sierra f args (record { frames = []; handler = h }))
    unfolding push_frame
    entered-CallersWait f args h = then-Next CallersWait (sierra.get_function f) _ (λ function _.
        assert-Next CallersWait (count args == count function.params) _
          (assert-Next CallersWait (all_match sierra.is args (types function.params)) _ tt))

    -- If every call of a function has one branch, then in every machine that a run comes to, each
    -- frame but the innermost stands at an invocation with exactly one branch: a return never
    -- meets the `unreachable!` nor the assertion on the number of branches.
    pub Reached-CallersWait : (vm : Machine Vars Handler) → Reached vm → CallersWait vm
    unfolding step
    Reached-CallersWait vm (entered f args h _ e) =
        subst (Next CallersWait) e (entered-CallersWait f args h)
    Reached-CallersWait vm (stepped before _ dump reached e) =
        subst After e
          (advance-After before.frames before.handler (Reached-CallersWait before reached))
