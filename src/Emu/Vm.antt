-- ===== src/Emu/Vm.antt =====
-- debug_utils/sierra-emu/src/vm.rs: the virtual machine. Frames are a list with the innermost call
-- first; a statement, a variable and a function are named by their numbers.
pub mod Frames
pub mod Run
pub mod Ends
pub mod Results
mod Examples
use cairo_native.Prelude.{
  ℕ, zero, suc, ◌+◌, Bool, ◌==◌, ◌&&◌, true, false, if◌then◌else◌, Option, none, some, List, [],
  ◌∷◌,
}
use cairo_native.Types.{CoreTypeConcrete}
use cairo_native.Emu.Panic.{◌>>=◌, ◌>>◌, assert}
use cairo_native.Emu.Value.{Value, EvalAction, normal_branch, function_call}

-- `BranchInfo` and `GenStatement` of Sierra, over its branch targets and library functions.
pub record BranchInfo (Target : Type 0) : Type 0 where
  pub target : Target
  pub results : List ℕ

pub data Statement (Target Libfunc : Type 0) : Type 0 where
  invocation : Libfunc → List ℕ → List (BranchInfo Target) → Statement Target Libfunc
  return : List ℕ → Statement Target Libfunc

-- `GenFunction`: the parameters with their types, and the first statement.
pub record Function : Type 0 where
  pub params : List (ℕ × CoreTypeConcrete)
  pub entry_point : ℕ

-- What the machine calls: the program, its registry, Sierra's `edit_state`, `StatementIdx::next`
-- and the maps of variables, the test of a value's type, and the handlers of the library functions
-- with the state of the system calls.
pub record Sierra (Target Libfunc Vars Handler : Type 0) : Type 0 where
  pub statements : List (Statement Target Libfunc)
  pub get_function : ℕ → Option Function
  pub branch_types : Libfunc → ℕ → Option (List CoreTypeConcrete)
  pub next : ℕ → Target → ℕ
  pub take_vars : Vars → List ℕ → Option (Vars × List Value)
  pub put_vars : Vars → List ℕ → List Value → Option Vars
  pub is_empty : Vars → Bool
  pub collect : List ℕ → List Value → Vars
  pub is : Value → CoreTypeConcrete → Bool
  pub eval : Libfunc → List Value → Handler → ℕ → Option (EvalAction × Handler)

-- `SierraFrame`
pub record Frame (Vars : Type 0) : Type 0 where
  pub function_id : ℕ
  pub state : Vars
  pub pc : ℕ

-- The parts of `VirtualMachine` and of the system call handler that a step changes.
pub record Machine (Vars Handler : Type 0) : Type 0 where
  pub frames : List (Frame Vars)
  pub handler : Handler

-- The statement and the variables before a step.
abbrev pub Dump : Type 0 → Type 0
Dump Vars = ℕ × Vars

abbrev pub nth {ℓ} : {A : Type ℓ} → List A → ℕ → Option A
nth [] n = none
nth (a ∷ rest) zero = some a
nth (a ∷ rest) (suc n) = nth rest n

abbrev pub count {ℓ} : {A : Type ℓ} → List A → ℕ
count [] = 0
count (a ∷ rest) = suc (count rest)

abbrev pub names : List (ℕ × CoreTypeConcrete) → List ℕ
names [] = []
names ((x, t) ∷ ps) = x ∷ names ps

abbrev pub types : List (ℕ × CoreTypeConcrete) → List CoreTypeConcrete
types [] = []
types ((x, t) ∷ ps) = t ∷ types ps

-- `zip` and `all`: the pairs that both lists have.
abbrev pub all_match : (Value → CoreTypeConcrete → Bool) → List Value → List CoreTypeConcrete → Bool
all_match is (v ∷ vs) (t ∷ ts) = is v t && all_match is vs ts
all_match is _ _ = true

module _ {Target Libfunc Vars Handler : Type 0} (sierra : Sierra Target Libfunc Vars Handler) where
  unfoldable pub push_frame : ℕ → List Value → Machine Vars Handler → Option (Machine Vars Handler)
  push_frame function_id args vm = do
    function ← sierra.get_function function_id
    assert (count args == count function.params)
    assert (all_match sierra.is args (types function.params))
    let frame : Frame Vars = record {
      function_id = function_id;
      state = sierra.collect (names function.params) args;
      pc = function.entry_point;
    }
    some (record vm { frames = frame ∷ vm.frames })

  -- An invocation, in the innermost frame: the handler's action is done.
  unfoldable pub act :
      Libfunc
      → List (BranchInfo Target)
      → Vars
      → Frame Vars
      → List (Frame Vars)
      → Handler
      → EvalAction
      → Option (Machine Vars Handler)
  act libfunc branches state frame callers handler (normal_branch branch_idx results) = do
    branch ← nth branches branch_idx
    assert (count results == count branch.results)
    result_types ← sierra.branch_types libfunc branch_idx
    assert (all_match sierra.is results result_types)
    state' ← sierra.put_vars state branch.results results
    let frame' : Frame Vars = record frame {
      state = state';
      pc = sierra.next frame.pc branch.target;
    }
    some (record { frames = frame' ∷ callers; handler = handler })
  act libfunc branches state frame callers handler (function_call function_id args) = do
    function ← sierra.get_function function_id
    let callee : Frame Vars = record {
      function_id = function_id;
      state = sierra.collect (names function.params) args;
      pc = function.entry_point;
    }
    let caller : Frame Vars = record frame { state = state }
    some (record { frames = callee ∷ caller ∷ callers; handler = handler })

  -- The one branch of the statement that a caller waits at.
  abbrev pub only_branch : Statement Target Libfunc → Option (BranchInfo Target)
  only_branch (invocation libfunc args (branch ∷ [])) = some branch
  only_branch _ = none

  -- A return to the caller, if there is one.
  unfoldable pub leave :
      List ℕ → Frame Vars → List (Frame Vars) → Handler → Option (Machine Vars Handler)
  leave ids frame [] handler = some (record { frames = []; handler = handler })
  leave ids frame (caller ∷ callers) handler = do
    (state, values) ← sierra.take_vars frame.state ids
    assert (sierra.is_empty state)
    statement ← nth sierra.statements caller.pc
    target_branch ← only_branch statement
    assert (count target_branch.results == count values)
    state' ← sierra.put_vars caller.state target_branch.results values
    let caller' : Frame Vars = record caller {
      state = state';
      pc = sierra.next caller.pc target_branch.target;
    }
    some (record { frames = caller' ∷ callers; handler = handler })

  unfoldable pub execute :
      Statement Target Libfunc
      → Frame Vars
      → List (Frame Vars)
      → Handler
      → Option (Machine Vars Handler)
  unfolding act leave
  execute (invocation libfunc args branches) frame callers handler = do
    (state, values) ← sierra.take_vars frame.state args
    (action, handler') ← sierra.eval libfunc values handler frame.pc
    act libfunc branches state frame callers handler' action
  execute (return ids) frame callers handler = leave ids frame callers handler

  -- A machine without frames does not step; a step that panics is `none`.
  unfoldable pub advance :
      List (Frame Vars) → Handler → Option (Option (Dump Vars × Machine Vars Handler))
  unfolding execute
  advance [] handler = some none
  advance (frame ∷ callers) handler = do
    statement ← nth sierra.statements frame.pc
    vm' ← execute statement frame callers handler
    some (some ((frame.pc, frame.state), vm'))

  unfoldable pub step : Machine Vars Handler → Option (Option (Dump Vars × Machine Vars Handler))
  unfolding advance
  step vm = advance vm.frames vm.handler
