-- ===== src/Emu/Vm/Examples.antt =====
-- A program that calls a function which returns its argument, on felts.
use cairo_native.Prelude.{
  ℕ, zero, suc, ◌+◌, ◌≡◌, ◌≢◌, refl, sym, ap, ◌∙◌, arith, Bool, true, false, ◌<◌, ◌==◌,
  if◌then◌else◌, Option, none, some, List, [], ◌∷◌,
}
use cairo_native.Types.{felt252}
use cairo_native.Emu.Panic.{◌>>=◌}
use cairo_native.Emu.Value.{Value, function_call}
use cairo_native.Emu.Is.{is}
use cairo_native.Emu.Vm.{
  Sierra, Machine, Frame, Function, Statement, invocation, return, BranchInfo, advance, step,
  execute, act, push_frame, nth,
}
use cairo_native.Emu.Vm.Frames.{
  CallsHaveOneBranch, CallersWait, Reached, entered, stepped, Reached-CallersWait,
}
use cairo_native.Emu.Vm.Run.{run, run_with_trace}
use cairo_native.Emu.Vm.Ends.{Bounded, after_call, Ends, run_with_trace-Ends}
use cairo_native.Emu.Vm.Results.{RunEnds, run-RunEnds}

-- The variables as a list of entries.
abbrev Vars : Type 0
Vars = List (ℕ × Value)

abbrev take_var : Vars → ℕ → Option (Vars × Value)
take_var [] x = none
take_var ((y, v) ∷ vars) x =
    let rest = take_var vars x in
    if x == y then some (vars, v) else (rest >>= (λ p. some ((y, v) ∷ p.0, p.1)))

abbrev take_vars : Vars → List ℕ → Option (Vars × List Value)
take_vars vars [] = some (vars, [])
take_vars vars (x ∷ xs) = do
  (vars', v) ← take_var vars x
  (vars'', vs) ← take_vars vars' xs
  some (vars'', v ∷ vs)

abbrev collect : List ℕ → List Value → Vars
collect (x ∷ xs) (v ∷ vs) = (x, v) ∷ collect xs vs
collect _ _ = []

abbrev put_vars : Vars → List ℕ → List Value → Option Vars
put_vars vars (x ∷ xs) (v ∷ vs) = do vars' ← put_vars vars xs vs; some ((x, v) ∷ vars')
put_vars vars _ _ = some vars

abbrev is_empty : Vars → Bool
is_empty [] = true
is_empty _ = false

-- The branch falls through: the target is the distance to the next statement.
abbrev next_branch : BranchInfo ℕ
next_branch = record { target = 1; results = 1 ∷ [] }

abbrev program : List (Statement ℕ ℕ)
program = invocation 9 (0 ∷ []) (next_branch ∷ []) ∷ return (1 ∷ []) ∷ return (0 ∷ []) ∷ []

abbrev functions : ℕ → Option Function
functions f = some (record { params = (0, felt252) ∷ []; entry_point = if f == 7 then 0 else 2 })

-- Every library function is a call of function 9.
abbrev sample : Sierra ℕ ℕ Vars ℕ
sample = record {
  statements = program;
  get_function = functions;
  branch_types = λ libfunc i. some (felt252 ∷ []);
  next = λ pc target. pc + target;
  take_vars = take_vars;
  put_vars = put_vars;
  is_empty = is_empty;
  collect = collect;
  is = λ v t. is (λ a b. true) v t;
  eval = λ libfunc values h pc. some (function_call libfunc values, h);
}

abbrev invoke : ℕ → List ℕ → List (BranchInfo ℕ) → Statement ℕ ℕ
invoke = invocation

not_return :
    {ids args : List ℕ} {libfunc : ℕ} {branches : List (BranchInfo ℕ)}
    → some (return ids) ≢ some (invoke libfunc args branches)
not_return h = cc

not_there :
    {libfunc : ℕ} {args : List ℕ} {branches : List (BranchInfo ℕ)}
    → none ≢ some (invoke libfunc args branches)
not_there h = cc

sample-CallsHaveOneBranch : CallsHaveOneBranch sample
sample-CallsHaveOneBranch zero libfunc args branches values h h' f fargs e _ = (next_branch, cc)
sample-CallsHaveOneBranch (suc zero) libfunc args branches values h h' f fargs e _ =
    absurd (not_return e)
sample-CallsHaveOneBranch (suc (suc zero)) libfunc args branches values h h' f fargs e _ =
    absurd (not_return e)
sample-CallsHaveOneBranch (suc (suc (suc pc))) libfunc args branches values h h' f fargs e _ =
    absurd (not_there e)

abbrev frame_at : ℕ → ℕ → Vars → Frame Vars
frame_at f pc vars = record { function_id = f; state = vars; pc = pc }

abbrev machine : List (Frame Vars) → Machine Vars ℕ
machine frames = record { frames = frames; handler = 0 }

abbrev start : Machine Vars ℕ
start = machine (frame_at 7 0 ((0, Value.felt 3) ∷ []) ∷ [])

abbrev inside : Machine Vars ℕ
inside = machine (frame_at 9 2 ((0, Value.felt 3) ∷ []) ∷ frame_at 7 0 [] ∷ [])

abbrev back : Machine Vars ℕ
back = machine (frame_at 7 1 ((1, Value.felt 3) ∷ []) ∷ [])

started : Reached sample start
unfolding push_frame is
started = entered 7 (Value.felt 3 ∷ []) 0 start refl

called : Reached sample inside
unfolding step advance execute act
called = stepped start inside (0, (0, Value.felt 3) ∷ []) started refl

Reached-CallersWait_example : CallersWait sample inside
Reached-CallersWait_example = Reached-CallersWait sample sample-CallsHaveOneBranch inside called

-- The return of the callee, and after the call that of the caller.
abbrev cost : ℕ → ℕ
cost pc = if pc == 0 then 2 else 0

abbrev entry_of : Option Function → ℕ
entry_of none = 0
entry_of (some function) = function.entry_point

abbrev target_of : Option (BranchInfo ℕ) → ℕ
target_of none = 1
target_of (some branch) = branch.target

no_branch : {branch : BranchInfo ℕ} → none ≢ some branch
no_branch h = cc

only_one :
    (i : ℕ) (branch : BranchInfo ℕ) → nth (next_branch ∷ []) i ≡ some branch → branch.target ≡ 1
only_one zero branch h = ap (λ b. target_of b) (sym h)
only_one (suc i) branch h = absurd (no_branch h)

falls_through :
    (pc libfunc : ℕ) (args : List ℕ) (branches : List (BranchInfo ℕ)) (i : ℕ)
    (branch : BranchInfo ℕ)
    → nth program pc ≡ some (invoke libfunc args branches)
    → nth branches i ≡ some branch
    → cost (pc + branch.target) < cost pc
falls_through zero libfunc args branches i branch e at =
    let same : branches ≡ next_branch ∷ [] = cc in
    let target : branch.target ≡ 1 = only_one i branch (rw same at at) in rw target (omega arith)
falls_through (suc zero) libfunc args branches i branch e at = absurd (not_return e)
falls_through (suc (suc zero)) libfunc args branches i branch e at = absurd (not_return e)
falls_through (suc (suc (suc pc))) libfunc args branches i branch e at = absurd (not_there e)

calls_nine :
    (pc libfunc : ℕ) (args : List ℕ) (branches : List (BranchInfo ℕ)) (values : List Value)
    (h h' f : ℕ) (fargs : List Value) (function : Function)
    → nth program pc ≡ some (invoke libfunc args branches)
    → sample.eval libfunc values h pc ≡ some (function_call f fargs, h')
    → functions f ≡ some function
    → suc (cost function.entry_point + after_call sample cost pc) < cost pc
calls_nine zero libfunc args branches values h h' f fargs function e acts at =
    let nine : libfunc ≡ 9 = cc in
    let same : libfunc ≡ f = cc in
    let entry : 2 ≡ function.entry_point = ap entry_of (ap functions (sym nine ∙ same) ∙ at) in
    rw (sym entry) (omega arith)
calls_nine (suc zero) libfunc args branches values h h' f fargs function e acts at =
    absurd (not_return e)
calls_nine (suc (suc zero)) libfunc args branches values h h' f fargs function e acts at =
    absurd (not_return e)
calls_nine (suc (suc (suc pc))) libfunc args branches values h h' f fargs function e acts at =
    absurd (not_there e)

sample-Bounded : Bounded sample cost
sample-Bounded = record { branches = falls_through; calls = calls_nine }

abbrev values : Vars → List Value
values [] = []
values ((x, v) ∷ vars) = v ∷ values vars

run_with_trace-Ends_example : Ends sample cost start 3 (run_with_trace sample 4 [] start)
run_with_trace-Ends_example =
    run_with_trace-Ends sample cost sample-Bounded 4 (frame_at 7 0 ((0, Value.felt 3) ∷ [])) [] 0
      (omega arith)

run-RunEnds_example :
    RunEnds sample cost
      (λ bytes. true)
      values
      (run_with_trace sample 4 [] start)
      (run sample (λ bytes. true) values 4 none start)
run-RunEnds_example =
    run-RunEnds sample cost (λ bytes. true) values sample-Bounded 4
      (frame_at 7 0 ((0, Value.felt 3) ∷ [])) [] 0 (omega arith)
