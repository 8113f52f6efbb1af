-- ===== src/Emu/Vm/Ends.antt =====
-- Programs of which every statement has a bound on the steps from it on: the loops of the virtual
-- machine end on them, at a return that leaves no frame.
use cairo_native.Prelude.{
  ℕ, zero, suc, ◌+◌, ◌≡◌, ◌<◌, ◌≤◌, refl, ap, arith, Option, none, some, List, [], ◌∷◌, ◌++◌, ◌==◌,
}
use cairo_native.Emu.Panic.{◌>>=◌}
use cairo_native.Emu.Value.{Value, EvalAction, normal_branch, function_call}
use cairo_native.Emu.Vm.{
  Sierra, Machine, Frame, Function, Dump, Statement, invocation, return, BranchInfo, nth, count,
  all_match, advance, step, execute, act, leave, only_branch,
}
use cairo_native.Emu.Vm.Frames.{Next, assert-Next, then-Next}
use cairo_native.Emu.Vm.Run.{Outcome, finished, panicked, out_of_fuel, run_with_trace}

-- The bound from where a call at a statement goes on.
abbrev pub after_call :
    {Target Libfunc Vars Handler : Type 0} → Sierra Target Libfunc Vars Handler → (ℕ → ℕ) → ℕ → ℕ
after_call sierra cost pc = elim (nth sierra.statements pc >>= only_branch sierra) [
  | none ↦ 0
  | some branch ↦ cost (sierra.next pc branch.target)
]

-- A bound on the steps from each statement of the program to the return of its function: it goes
-- down along each branch, and a call has the steps of the function besides those that follow.
pub record Bounded {Target Libfunc Vars Handler : Type 0}
    (sierra : Sierra Target Libfunc Vars Handler) (cost : ℕ → ℕ) : Type 0 where
  pub branches :
      (pc : ℕ) (libfunc : Libfunc) (args : List ℕ) (branches : List (BranchInfo Target)) (i : ℕ)
      (branch : BranchInfo Target)
      → nth sierra.statements pc ≡ some (invocation libfunc args branches)
      → nth branches i ≡ some branch
      → cost (sierra.next pc branch.target) < cost pc
  pub calls :
      (pc : ℕ) (libfunc : Libfunc) (args : List ℕ) (branches : List (BranchInfo Target))
      (values : List Value) (h h' : Handler) (f : ℕ) (fargs : List Value) (function : Function)
      → nth sierra.statements pc ≡ some (invocation libfunc args branches)
      → sierra.eval libfunc values h pc ≡ some (function_call f fargs, h')
      → sierra.get_function f ≡ some function
      → suc (cost function.entry_point + after_call sierra cost pc) < cost pc

module _ {Target Libfunc Vars Handler : Type 0} (sierra : Sierra Target Libfunc Vars Handler)
    (cost : ℕ → ℕ) where
  abbrev waiting : List (Frame Vars) → ℕ
  waiting [] = 0
  waiting (frame ∷ frames) = suc (after_call sierra cost frame.pc) + waiting frames

  -- A bound on the steps of a machine.
  abbrev pub potential : List (Frame Vars) → ℕ
  potential [] = 0
  potential (frame ∷ callers) = suc (cost frame.pc) + waiting callers

  -- Without frames, the last statement was a return.
  abbrev Left : ℕ → List (Frame Vars) → Type 0
  Left pc [] = (ids : List ℕ) × (nth sierra.statements pc ≡ some (return ids))
  Left pc (frame ∷ frames) = Unit

  abbrev Down : ℕ → ℕ → Machine Vars Handler → Type 0
  Down pc n vm = (potential vm.frames < n) × Left pc vm.frames

  -- A trace of which the last statement is a return.
  pub record Returned (trace : List (Dump Vars)) : Type 0 where
    pub before : List (Dump Vars)
    pub last : Dump Vars
    pub ids : List ℕ
    pub trace_eq : trace ≡ before ++ last ∷ []
    pub last_eq : nth sierra.statements last.0 ≡ some (return ids)

  abbrev Ready : List (Dump Vars) → List (Frame Vars) → Type 0
  Ready trace [] = Returned trace
  Ready trace (frame ∷ frames) = Unit

  module _ (bounded : Bounded sierra cost) where
    act-Down :
        (libfunc : Libfunc) (args : List ℕ) (branches : List (BranchInfo Target)) (state : Vars)
        (frame : Frame Vars) (callers : List (Frame Vars)) (h h' : Handler) (values : List Value)
        (action : EvalAction)
        → nth sierra.statements frame.pc ≡ some (invocation libfunc args branches)
        → sierra.eval libfunc values h frame.pc ≡ some (action, h')
        → Next sierra
            (Down frame.pc (potential (frame ∷ callers)))
            (act sierra libfunc branches state frame callers h' action)
    unfolding act
    act-Down libfunc args branches state frame callers h h' values (normal_branch i results) at e =
        then-Next sierra (Down frame.pc (potential (frame ∷ callers))) (nth branches i) _
          (λ branch b.
            assert-Next sierra (Down frame.pc (potential (frame ∷ callers)))
              (count results == count branch.results) _
              (then-Next sierra (Down frame.pc (potential (frame ∷ callers)))
                (sierra.branch_types libfunc i) _
                (λ types _.
                  assert-Next sierra (Down frame.pc (potential (frame ∷ callers)))
                    (all_match sierra.is results types) _
                    (then-Next sierra (Down frame.pc (potential (frame ∷ callers)))
                      (sierra.put_vars state branch.results results) _
                      (λ state' _. (
                        omega
                            (arith, bounded.branches frame.pc libfunc args branches i branch at b),
                        tt,
                      ))))))
    act-Down libfunc args branches state frame callers h h' values (function_call f fargs) at e =
        then-Next sierra (Down frame.pc (potential (frame ∷ callers))) (sierra.get_function f) _
          (λ function g. (
            omega (
              arith,
              bounded.calls frame.pc libfunc args branches values h h' f fargs function at e g,
            ),
            tt,
          ))

    leave-Down :
        (ids : List ℕ) (frame : Frame Vars) (callers : List (Frame Vars)) (h : Handler)
        → nth sierra.statements frame.pc ≡ some (return ids)
        → Next sierra
            (Down frame.pc (potential (frame ∷ callers)))
            (leave sierra ids frame callers h)
    unfolding leave
    leave-Down ids frame [] h at = (omega arith, (ids, at))
    leave-Down ids frame (caller ∷ callers) h at =
        let P = Down frame.pc (potential (frame ∷ caller ∷ callers)) in
        then-Next sierra P (sierra.take_vars frame.state ids) _ (λ taken _.
          assert-Next sierra P (sierra.is_empty taken.0) _ (
            then-Next sierra P (nth sierra.statements caller.pc) _ (λ statement s.
              then-Next sierra P (only_branch sierra statement) _ (λ branch b.
                assert-Next sierra P (count branch.results == count taken.1) _ (
                  then-Next sierra P (sierra.put_vars caller.state branch.results taken.1) _
                    (λ state' _.
                      let goes_on : after_call sierra cost caller.pc
                          ≡ cost (sierra.next caller.pc branch.target) =
                        rw (after_call, s, b) in
                      (omega (arith, goes_on), tt)))))))

    execute-Down :
        (statement : Statement Target Libfunc) (frame : Frame Vars) (callers : List (Frame Vars))
        (h : Handler)
        → nth sierra.statements frame.pc ≡ some statement
        → Next sierra
            (Down frame.pc (potential (frame ∷ callers)))
            (execute sierra statement frame callers h)
    unfolding execute
    execute-Down (return ids) frame callers h at = leave-Down ids frame callers h at
    execute-Down (invocation libfunc args branches) frame callers h at =
        let P = Down frame.pc (potential (frame ∷ callers)) in
        then-Next sierra P (sierra.take_vars frame.state args) _ (λ taken _.
          then-Next sierra P (sierra.eval libfunc taken.1 h frame.pc) _ (λ acted e.
            act-Down libfunc args branches taken.0 frame callers h acted.1 taken.1 acted.0 at e))

    -- What a step does to the bound, and what the trace is when there is none.
    abbrev StepDown :
        List (Dump Vars) → ℕ → Option (Option (Dump Vars × Machine Vars Handler)) → Type 0
    StepDown trace n (some (some (dump, vm))) = Down dump.0 n vm
    StepDown trace n (some none) = Returned trace
    StepDown trace n none = Unit

    dumped :
        (trace : List (Dump Vars)) (n : ℕ) (dump : Dump Vars) (x : Option (Machine Vars Handler))
        → Next sierra (Down dump.0 n) x
        → StepDown trace n (x >>= (λ vm. some (some (dump, vm))))
    dumped trace n dump (some vm) h = h
    dumped trace n dump none h = tt

    advance-Down :
        (trace : List (Dump Vars)) (frames : List (Frame Vars)) (h : Handler)
        → Ready trace frames
        → StepDown trace (potential frames) (advance sierra frames h)
    unfolding advance
    advance-Down trace [] h ready = ready
    advance-Down trace (frame ∷ callers) h ready =
        at_statement (nth sierra.statements frame.pc)
          (λ statement at. execute-Down statement frame callers h at)
      where
        at_statement :
            (x : Option (Statement Target Libfunc))
            → ((statement : Statement Target Libfunc)
                → x ≡ some statement
                → Next sierra
                    (Down frame.pc (potential (frame ∷ callers)))
                    (execute sierra statement frame callers h))
            → StepDown trace (potential (frame ∷ callers)) (
                x >>= (λ statement.
                  execute sierra statement frame callers h
                  >>= (λ vm. some (some ((frame.pc, frame.state), vm)))))
        at_statement none down = tt
        at_statement (some statement) down =
            dumped trace (potential (frame ∷ callers)) (frame.pc, frame.state)
              (execute sierra statement frame callers h) (down statement refl)

  -- A machine that steps lead to a panic.
  pub data Panics : Machine Vars Handler → Type 0 where
    at_once : (vm : Machine Vars Handler) → step sierra vm ≡ none → Panics vm
    later :
        (vm vm' : Machine Vars Handler) (dump : Dump Vars)
        → step sierra vm ≡ some (some (dump, vm'))
        → Panics vm'
        → Panics vm

  -- The end of a loop that has not run out of fuel: a panic of a step, or a trace of so many steps
  -- at most.
  abbrev pub Ends : Machine Vars Handler → ℕ → Outcome (List (Dump Vars)) → Type 0
  Ends vm most (finished trace) = (count trace ≤ most) × Returned trace
  Ends vm most panicked = Panics vm
  Ends vm most out_of_fuel = ⊥

  count-push :
      (trace : List (Dump Vars)) (d : Dump Vars) → count (trace ++ d ∷ []) ≡ suc (count trace)
  count-push [] d = refl
  count-push (a ∷ trace) d = ap suc (count-push trace d)

  push-Ready :
      (trace : List (Dump Vars)) (dump : Dump Vars) (frames : List (Frame Vars))
      → Left dump.0 frames
      → Ready (trace ++ dump ∷ []) frames
  push-Ready trace dump [] (ids, at) = record {
    before = trace;
    last = dump;
    ids = ids;
    trace_eq = refl;
    last_eq = at;
  }
  push-Ready trace dump (frame ∷ frames) left = tt

  more :
      (vm : Machine Vars Handler) (most most' : ℕ) (r : Outcome (List (Dump Vars)))
      → most ≤ most'
      → Ends vm most r
      → Ends vm most' r
  more vm most most' (finished trace) h (few, end) = (omega (arith, h, few), end)
  more vm most most' panicked h ends = ends
  more vm most most' out_of_fuel h ends = elim ends [ ]

  step-Ends :
      (vm vm' : Machine Vars Handler) (dump : Dump Vars) (most : ℕ) (r : Outcome (List (Dump Vars)))
      → step sierra vm ≡ some (some (dump, vm'))
      → Ends vm' most r
      → Ends vm most r
  step-Ends vm vm' dump most (finished trace) e ends = ends
  step-Ends vm vm' dump most panicked e ends = later vm vm' dump e ends
  step-Ends vm vm' dump most out_of_fuel e ends = elim ends [ ]

  module _ (bounded : Bounded sierra cost) where
    ends_from :
        (fuel : ℕ) (trace : List (Dump Vars)) (vm : Machine Vars Handler)
        → Ready trace vm.frames
        → potential vm.frames < fuel
        → Ends vm (count trace + potential vm.frames) (run_with_trace sierra fuel trace vm)
    unfolding run_with_trace step
    ends_from zero trace vm ready h = absurd (omega (arith, h))
    ends_from (suc fuel) trace vm ready h =
        stepped (ends_from fuel) (advance sierra vm.frames vm.handler) refl
          (advance-Down bounded trace vm.frames vm.handler ready)
      where
        stepped :
            ((trace : List (Dump Vars)) (vm : Machine Vars Handler)
              → Ready trace vm.frames
              → potential vm.frames < fuel
              → Ends vm (count trace + potential vm.frames) (run_with_trace sierra fuel trace vm))
            → (s : Option (Option (Dump Vars × Machine Vars Handler))) → step sierra vm ≡ s
            → StepDown bounded trace (potential vm.frames) s
            → Ends vm (count trace + potential vm.frames) (elim s [
              | none ↦ panicked
              | some none ↦ finished trace
              | some (some (dump, vm')) ↦ run_with_trace sierra fuel (trace ++ dump ∷ []) vm'
            ])
        stepped rest none e down = at_once vm e
        stepped rest (some none) e end = (omega arith, end)
        stepped rest (some (some (dump, vm'))) e (down, left) =
            let run = run_with_trace sierra fuel (trace ++ dump ∷ []) vm' in
            step-Ends vm vm' dump _ run e (
              more vm' _ _ run (omega (arith, down, count-push trace dump)) (
                rest (trace ++ dump ∷ []) vm' (push-Ready trace dump vm'.frames left)
                  (omega (arith, down, h))))

    -- If the statements have bounds on the steps to the return of their function, a machine with a
    -- frame ends on every fuel above its own bound: with a panic, if the steps of the machine lead to
    -- a step that panics, or with a trace of at most so many steps as the bound says, of which the
    -- last one is a return.
    pub run_with_trace-Ends :
        (fuel : ℕ) (frame : Frame Vars) (callers : List (Frame Vars)) (h : Handler)
        → potential (frame ∷ callers) < fuel
        → Ends
            (record { frames = frame ∷ callers; handler = h })
            (potential (frame ∷ callers))
            (run_with_trace sierra fuel [] (record { frames = frame ∷ callers; handler = h }))
    run_with_trace-Ends fuel frame callers h enough =
        more _ _ _
          (run_with_trace sierra fuel [] (record { frames = frame ∷ callers; handler = h }))
          (omega arith)
          (ends_from fuel [] (record { frames = frame ∷ callers; handler = h }) tt enough)
