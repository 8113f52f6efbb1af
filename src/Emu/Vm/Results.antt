-- ===== src/Emu/Vm/Results.antt =====
-- What `run` of the virtual machine gives when it ends.
use cairo_native.Prelude.{ℕ, ◌≡◌, ◌<◌, refl, sym, ap, ◌∙◌, Bool, Option, none, some, List, [], ◌∷◌}
use mathlib.Core.Path.{subst}
use cairo_native.Emu.Value.{Value}
use cairo_native.Emu.Dump.{ContractExecutionResult, from_state}
use cairo_native.Emu.Vm.{Sierra, Machine, Frame, Dump}
use cairo_native.Emu.Vm.Run.{
  Outcome, finished, panicked, out_of_fuel, run, run_with_trace, run-from_trace, last_or-push,
  from_trace, from_last, then_outcome,
}
use cairo_native.Emu.Vm.Ends.{Bounded, potential, Returned, Ends, run_with_trace-Ends}

module _ {Target Libfunc Vars Handler : Type 0} (sierra : Sierra Target Libfunc Vars Handler)
    (cost : ℕ → ℕ) (is_utf8 : List ℕ → Bool) (values : Vars → List Value) where
  -- How `run` ends, by the trace of the same steps.
  pub data RunEnds (traced : Outcome (List (Dump Vars)))
      : Outcome (Option ContractExecutionResult) → Type 0 where
    step_panics : traced ≡ panicked → RunEnds traced panicked
    state_panics :
        (trace : List (Dump Vars)) (end : Returned sierra cost trace)
        → traced ≡ finished trace
        → from_state is_utf8 (values end.last.1) ≡ none
        → RunEnds traced panicked
    gives :
        (result : Option ContractExecutionResult) (trace : List (Dump Vars))
        (end : Returned sierra cost trace)
        → traced ≡ finished trace
        → from_state is_utf8 (values end.last.1) ≡ some result
        → RunEnds traced (finished result)

  last-Returned :
      (trace : List (Dump Vars)) (end : Returned sierra cost trace)
      → from_trace sierra is_utf8 values trace ≡ from_state is_utf8 (values end.last.1)
  last-Returned trace end =
      ap (λ t. from_trace sierra is_utf8 values t) end.trace_eq
      ∙ ap (from_last sierra is_utf8 values) (last_or-push sierra none end.before end.last)

  by_state :
      (traced : Outcome (List (Dump Vars))) (trace : List (Dump Vars))
      (end : Returned sierra cost trace) (x : Option (Option ContractExecutionResult))
      → traced ≡ finished trace
      → from_state is_utf8 (values end.last.1) ≡ x
      → RunEnds traced (elim x [ none ↦ panicked | some r ↦ finished r ])
  by_state traced trace end none e g = state_panics trace end e g
  by_state traced trace end (some r) e g = gives r trace end e g

  by_trace :
      (vm : Machine Vars Handler) (most : ℕ) (traced : Outcome (List (Dump Vars)))
      → Ends sierra cost vm most traced
      → RunEnds traced (then_outcome (from_trace sierra is_utf8 values) traced)
  by_trace vm most (finished trace) (few, end) =
      by_state (finished trace) trace end (from_trace sierra is_utf8 values trace) refl
        (sym (last-Returned trace end))
  by_trace vm most panicked ends = step_panics refl
  by_trace vm most out_of_fuel ends = elim ends [ ]

  -- If the statements have bounds on the steps to the return of their function, then on every
  -- fuel above its own bound the run of a machine with a frame does not run out of fuel. It
  -- gives what `from_state` reads off the variables at the return that ends the trace of the
  -- same steps, and panics only if a step does or if `from_state` does on those variables.
  pub run-RunEnds :
      Bounded sierra cost
      → (fuel : ℕ) (frame : Frame Vars) (callers : List (Frame Vars)) (h : Handler)
      → potential sierra cost (frame ∷ callers) < fuel
      → RunEnds
          (run_with_trace sierra fuel [] (record { frames = frame ∷ callers; handler = h }))
          (run sierra is_utf8 values fuel none (record { frames = frame ∷ callers; handler = h }))
  run-RunEnds bounded fuel frame callers h enough =
      subst (RunEnds _)
        (sym (
          run-from_trace sierra is_utf8 values fuel []
            (record { frames = frame ∷ callers; handler = h })))
        (by_trace _ _ _ (run_with_trace-Ends sierra cost bounded fuel frame callers h enough))
