-- ===== src/Emu/Value.antt =====
-- debug_utils/sierra-emu/src/value.rs and vm.rs: the values of the interpreter, and what a library
-- function does with them. A machine integer is the number that it holds, a felt is its
-- representative below the prime, and a hash map is a list of entries.
use cairo_native.Prelude.{ℕ, List}
use cairo_native.Prelude.Int.{ℤ}
use cairo_native.Utils.RangeExt.{Range}
use cairo_native.Utils.BuiltinCosts.{BuiltinCosts}
use cairo_native.Types.{CoreTypeConcrete}

mutual
  pub data Value : Type 0 where
    array : CoreTypeConcrete → ValueList → Value
    bounded_int : Range → ℤ → Value
    circuit : List ℕ → Value
    circuit_outputs : List ℕ → ℕ → Value
    circuit_modulus : ℕ → Value
    enum_value : CoreTypeConcrete → ℕ → Value → Value
    felt bytes31 : ℕ → Value
    felt_dict : CoreTypeConcrete → EntryList → ℕ → Value
    felt_dict_entry : CoreTypeConcrete → EntryList → ℕ → ℕ → Value
    ec_point : ℕ → ℕ → Value
    ec_state : ℕ → ℕ → ℕ → Value
    i128 i64 i32 i16 i8 : ℤ → Value
    struct_value : ValueList → Value
    u256 : ℕ → ℕ → Value
    u128 u16 u32 u64 u8 : ℕ → Value
    int_range : Value → Value → Value
    uninitialized : CoreTypeConcrete → Value
    builtin_costs : BuiltinCosts → Value
    null unit : Value

  pub data ValueList : Type 0 where
    nil : ValueList
    cons : Value → ValueList → ValueList

  -- The entries of a dictionary: a felt and its value.
  pub data EntryList : Type 0 where
    no_entry : EntryList
    entry : ℕ → Value → EntryList → EntryList

-- `EvalAction`; a function is named by its number.
pub data EvalAction : Type 0 where
  normal_branch : ℕ → List Value → EvalAction
  function_call : ℕ → List Value → EvalAction
