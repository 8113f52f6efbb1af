-- ===== src/Emu/Vm/Run.antt =====
-- `run` and `run_with_trace` of debug_utils/sierra-emu/src/vm.rs, a loop of steps until no frame is
-- left, on fuel, and `from_trace` of dump.rs. The values of a dump, in the order of their variables'
-- numbers, are an argument (`StateDump::new` sorts them).
use cairo_native.Prelude.{
  ℕ, zero, suc, ◌≡◌, refl, sym, ap, ◌∙◌, Bool, Option, none, some, List, [], ◌∷◌, ◌++◌,
}
use cairo_native.Emu.Value.{Value}
use cairo_native.Emu.Dump.{ContractExecutionResult, from_state}
use cairo_native.Emu.Vm.{Sierra, Machine, Dump, step}

-- How a loop on fuel ends.
pub data Outcome {ℓ} (A : Type ℓ) : Type ℓ where
  finished : A → Outcome A
  panicked out_of_fuel : Outcome A

-- What may panic, after a loop.
abbrev pub then_outcome {ℓ κ} : {A : Type ℓ} {B : Type κ} → (A → Option B) → Outcome A → Outcome B
then_outcome f (finished a) = elim (f a) [ none ↦ panicked | some b ↦ finished b ]
then_outcome f panicked = panicked
then_outcome f out_of_fuel = out_of_fuel

-- The last item of a list, behind a first one.
abbrev pub last_or {ℓ} : {A : Type ℓ} → Option A → List A → Option A
last_or first [] = first
last_or first (a ∷ xs) = last_or (some a) xs

module _ {Target Libfunc Vars Handler : Type 0} (sierra : Sierra Target Libfunc Vars Handler) where
  -- The trace so far is pushed to.
  unfoldable pub run_with_trace :
      ℕ → List (Dump Vars) → Machine Vars Handler → Outcome (List (Dump Vars))
  run_with_trace zero trace vm = out_of_fuel
  run_with_trace (suc fuel) trace vm = elim (step sierra vm) [
    | none ↦ panicked
    | some none ↦ finished trace
    | some (some (dump, vm')) ↦ run_with_trace fuel (trace ++ dump ∷ []) vm'
  ]

  module _ (is_utf8 : List ℕ → Bool) (values : Vars → List Value) where
    -- `from_state(&last?)`
    abbrev pub from_last : Option (Dump Vars) → Option (Option ContractExecutionResult)
    from_last none = some none
    from_last (some (pc, vars)) = from_state is_utf8 (values vars)

    -- `ContractExecutionResult::from_trace`
    abbrev pub from_trace : List (Dump Vars) → Option (Option ContractExecutionResult)
    from_trace trace = from_last (last_or none trace)

    -- Only the last dump is kept, and gives the result.
    unfoldable pub run :
        ℕ → Option (Dump Vars) → Machine Vars Handler → Outcome (Option ContractExecutionResult)
    run zero last vm = out_of_fuel
    run (suc fuel) last vm = elim (step sierra vm) [
      | none ↦ panicked
      | some none ↦ then_outcome from_last (finished last)
      | some (some (dump, vm')) ↦ run fuel (some dump) vm'
    ]

  pub last_or-push :
      (first : Option (Dump Vars)) (xs : List (Dump Vars)) (a : Dump Vars)
      → last_or first (xs ++ a ∷ []) ≡ some a
  last_or-push first [] a = refl
  last_or-push first (b ∷ xs) a = last_or-push (some b) xs a

  module _ (is_utf8 : List ℕ → Bool) (values : Vars → List Value) where
    -- `run` gives what `from_trace` makes of the trace.
    pub run-from_trace :
        (fuel : ℕ) (trace : List (Dump Vars)) (vm : Machine Vars Handler)
        → run is_utf8 values fuel (last_or none trace) vm
          ≡ then_outcome (from_trace is_utf8 values) (run_with_trace fuel trace vm)
    unfolding run run_with_trace
    run-from_trace zero trace vm = refl
    run-from_trace (suc fuel) trace vm = go (run-from_trace fuel) (step sierra vm)
      where
        go :
            ((trace : List (Dump Vars)) (vm : Machine Vars Handler)
              → run is_utf8 values fuel (last_or none trace) vm
                ≡ then_outcome (from_trace is_utf8 values) (run_with_trace fuel trace vm))
            → (s : Option (Option (Dump Vars × Machine Vars Handler)))
            → elim s [
              | none ↦ panicked
              | some none ↦ then_outcome (from_last is_utf8 values) (finished (last_or none trace))
              | some (some (dump, vm')) ↦ run is_utf8 values fuel (some dump) vm'
            ]
              ≡ then_outcome (from_trace is_utf8 values) (elim s [
                | none ↦ panicked
                | some none ↦ finished trace
                | some (some (dump, vm')) ↦ run_with_trace fuel (trace ++ dump ∷ []) vm'
              ])
        go later none = refl
        go later (some none) = refl
        go later (some (some (dump, vm'))) =
            ap (λ l. run is_utf8 values fuel l vm') (sym (last_or-push none trace dump))
            ∙ later (trace ++ dump ∷ []) vm'
