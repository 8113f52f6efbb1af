-- ===== src/Emu/Dump/Examples.antt =====
-- States of a contract that succeeded, of one that failed with the message "No", and of none.
use cairo_native.Prelude.{◌≡◌, refl, Bool, true, false, none, some, [], ◌∷◌, List, ℕ}
use cairo_native.Types.{felt252}
use cairo_native.Emu.Value.{Value, ValueList, nil, cons, enum_value, array, struct_value, unit}
use cairo_native.Emu.Items.{get_elem?}
use cairo_native.Emu.Dump.{from_state, read_values}

abbrev any : List ℕ → Bool
any bytes = true

abbrev two_felts : ValueList
two_felts = cons (Value.felt 5) (cons (Value.felt 8) nil)

succeeded :
    from_state any (
      unit
      ∷ Value.u64 70
      ∷ enum_value felt252 0
          (struct_value (cons (struct_value (cons (array felt252 two_felts) nil)) nil))
      ∷ [])
    ≡ some (
        some (record {
          remaining_gas = 70;
          failure_flag = false;
          return_values = 5 ∷ 8 ∷ [];
          error_msg = none;
        }))
unfolding from_state read_values get_elem?
succeeded = refl

failed_with_message :
    from_state any (
      enum_value felt252 1
        (struct_value (cons unit (cons (array felt252 (cons (Value.felt 20079) nil)) nil)))
      ∷ [])
    ≡ some (
        some (record {
          remaining_gas = 0;
          failure_flag = true;
          return_values = [];
          error_msg = some (78 ∷ 111 ∷ []);
        }))
unfolding from_state read_values get_elem?
failed_with_message = refl

other_value : from_state any (Value.u64 70 ∷ Value.felt 3 ∷ []) ≡ some none
unfolding from_state read_values
other_value = refl
