-- ===== src/Emu/Dump.antt =====
-- debug_utils/sierra-emu/src/dump.rs: what a run of a contract gives, read off the variables before
-- its last statement. A message is its bytes; the test of UTF-8 is Rust's.
mod Examples
use cairo_native.Prelude.{
  ℕ, zero, suc, ◌/◌, ◌%◌, Bool, false, not, ◌==◌, if◌then◌else◌, Option, none, some, List, [], ◌∷◌,
  ◌++◌,
}
use cairo_native.Emu.Panic.{◌>>=◌, ◌>>◌, assert}
use cairo_native.Emu.Value.{Value, ValueList, nil, cons, enum_value, array, struct_value}
use cairo_native.Emu.Items.{get_elem?}

pub record ContractExecutionResult : Type 0 where
  pub remaining_gas : ℕ
  pub failure_flag : Bool
  pub return_values : List ℕ
  pub error_msg : Option (List ℕ)

-- The variables of the loop over the values.
pub record Found : Type 0 where
  pub remaining_gas : Option ℕ
  pub failure_flag : Bool
  pub return_values : List ℕ
  pub error_msg : Option (List ℕ)

-- The felts of an array; values of other kinds are passed over.
abbrev pub felts : ValueList → List ℕ
felts nil = []
felts (cons (Value.felt x) vs) = x ∷ felts vs
felts (cons _ vs) = felts vs

-- `to_bytes_be` of a felt: so many bytes of a number, the high ones first, before others.
abbrev pub bytes_be : ℕ → ℕ → List ℕ → List ℕ
bytes_be zero x bytes = bytes
bytes_be (suc n) x bytes = bytes_be n (x / 256) (x % 256 ∷ bytes)

abbrev pub without_null : List ℕ → List ℕ
without_null [] = []
without_null (b ∷ bs) = if b == 0 then without_null bs else b ∷ without_null bs

-- The characters of the felts, less the null ones.
abbrev pub message : List ℕ → List ℕ
message [] = []
message (x ∷ xs) = without_null (bytes_be 32 x []) ++ message xs

abbrev pub remaining : Option ℕ → ℕ
remaining none = 0
remaining (some gas) = gas

module _ (is_utf8 : List ℕ → Bool) where
  -- The felts of an array, and of no other value, are returned.
  abbrev pub returned : Value → Found → Found
  returned (array ty items) found = record found {
    return_values = found.return_values ++ felts items;
  }
  returned _ found = found

  -- An array of felts is the message of a failure; one that is not UTF-8 panics.
  abbrev pub failed : Value → Found → Option Found
  failed (array ty items) found = do
    let bytes = message (felts items)
    assert (is_utf8 bytes)
    some (record found { error_msg = some bytes })
  failed _ found = some found

  -- The return values are in a struct in a struct, and an index out of range panics.
  abbrev pub success : Value → Found → Option Found
  success (struct_value inner) found = do first ← get_elem? inner 0; some (returned first found)
  success _ found = some found

  abbrev pub read_payload : Value → Found → Option Found
  read_payload (struct_value inner) found =
      if not found.failure_flag
      then (get_elem? inner 0 >>= (λ first. success first found))
      else (get_elem? inner 1 >>= (λ second. failed second found))
  read_payload _ found = some found

  -- A value that is no gas, enumeration or unit ends the loop without a result.
  unfoldable pub read_values : List Value → Found → Option (Option Found)
  unfolding get_elem?
  read_values [] found = some (some found)
  read_values (Value.u64 gas ∷ values) found =
      read_values values (record found { remaining_gas = some gas })
  read_values (enum_value self_ty index payload ∷ values) found = do
    found' ← read_payload payload (record found { failure_flag = not (index == 0) })
    read_values values found'
  read_values (Value.unit ∷ values) found = read_values values found
  read_values (_ ∷ values) found = some none

  -- A panic, no result, or the result that the values give, in the order of their variables.
  unfoldable pub from_state : List Value → Option (Option ContractExecutionResult)
  from_state values = do
    end ← read_values values (record {
      remaining_gas = none;
      failure_flag = false;
      return_values = [];
      error_msg = none;
    })
    some (elim end [
      | none ↦ none
      | some found ↦ some (record {
        remaining_gas = remaining found.remaining_gas;
        failure_flag = found.failure_flag;
        return_values = found.return_values;
        error_msg = found.error_msg;
      })
    ])
