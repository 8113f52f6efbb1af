-- ===== src/Refine/BoolExamples.antt =====
-- Booleans at concrete arguments: true and false.
use cairo_native.Prelude.{◌≡◌, some, [], ◌∷◌, arith}
use cairo_native.Error.{ok}
use cairo_native.Mlir.Wrapping.{wrapping, wrapping-IsMlir}
use cairo_native.Types.{nil, struct_type}
use cairo_native.Libfuncs.Bool.{xor, build_bool_binary, build_bool_not, build_bool_to_felt252}
use cairo_native.Emu.Value.{normal_branch, enum_value, unit, Value}
use cairo_native.Emu.Bool.{eval_not, eval_bool_to_felt252}
use cairo_native.Refine.Bool.{SameTag, eval_operator, bool_of, bool-SameTag}

bool-SameTag_example :
    SameTag
      (bool_of (struct_type nil) (struct_type nil))
      unit
      (eval_operator xor (
        enum_value (bool_of (struct_type nil) (struct_type nil)) 1 unit
        ∷ enum_value (bool_of (struct_type nil) (struct_type nil)) 0 unit
        ∷ []))
      (build_bool_binary wrapping (bool_of (struct_type nil) (struct_type nil)) xor (1 ∷ 0 ∷ []))
    × SameTag
        (bool_of (struct_type nil) (struct_type nil))
        unit
        (eval_not (enum_value (bool_of (struct_type nil) (struct_type nil)) 1 unit ∷ []))
        (build_bool_not wrapping (bool_of (struct_type nil) (struct_type nil)) (1 ∷ []))
    × (eval_bool_to_felt252 (enum_value (bool_of (struct_type nil) (struct_type nil)) 1 unit ∷ [])
        ≡ some (normal_branch 0 (Value.felt 1 ∷ [])))
    × (build_bool_to_felt252 wrapping (bool_of (struct_type nil) (struct_type nil)) (1 ∷ [])
        ≡ ok (0, 1 ∷ []))
bool-SameTag_example =
    bool-SameTag wrapping-IsMlir (struct_type nil) (struct_type nil) unit unit xor 1 0 (omega arith)
      (omega arith)
