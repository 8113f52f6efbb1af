-- ===== src/Libfuncs/Bool.antt =====
-- src/libfuncs/bool.rs: the builders. A Boolean is an enumeration of two variants without size; its
-- pattern is that of its tag, the only field of the structure that is read or written.
use cairo_native.Prelude.{ℕ, List, [], ◌∷◌}
use cairo_native.Prelude.Int.{pos}
use cairo_native.Error.{Result, ok, err, mlir_error, native_assert, ◌>>=◌}
use cairo_native.Mlir.{Mlir}
use cairo_native.Types.{CoreTypeConcrete, enum_type}
use cairo_native.Types.Layout.Types.{tag_bits, count}
use cairo_native.Libfuncs.Counter.{Jump}

pub data BoolOp : Type 0 where
  and xor or : BoolOp

-- The width of the tag of an enumeration.
unfoldable pub tag_width : CoreTypeConcrete → Result ℕ
tag_width (enum_type variants) = ok (tag_bits (count variants))
tag_width _ = err native_assert

module _ (m : Mlir) where
  -- The match on the operator.
  unfoldable pub new_tag_value : BoolOp → ℕ → ℕ → ℕ → ℕ
  new_tag_value and w lhs_tag rhs_tag = m.andi w lhs_tag rhs_tag
  new_tag_value xor w lhs_tag rhs_tag = m.xori w lhs_tag rhs_tag
  new_tag_value or w lhs_tag rhs_tag = m.ori w lhs_tag rhs_tag

  unfoldable pub build_bool_binary : CoreTypeConcrete → BoolOp → List ℕ → Result Jump
  unfolding new_tag_value tag_width
  build_bool_binary enum_ty bin_op (lhs_tag ∷ rhs_tag ∷ []) = do
    w ← tag_width enum_ty
    ok (0, new_tag_value bin_op w lhs_tag rhs_tag ∷ [])
  build_bool_binary enum_ty bin_op _ = err mlir_error

  unfoldable pub build_bool_not : CoreTypeConcrete → List ℕ → Result Jump
  unfolding tag_width
  build_bool_not enum_ty (tag_value ∷ []) = do
    w ← tag_width enum_ty
    const_1 ← m.const_int w (pos 1)
    ok (0, m.xori w tag_value const_1 ∷ [])
  build_bool_not enum_ty _ = err mlir_error

  unfoldable pub build_bool_to_felt252 : CoreTypeConcrete → List ℕ → Result Jump
  unfolding tag_width
  build_bool_to_felt252 enum_ty (tag_value ∷ []) = do
    w ← tag_width enum_ty
    ok (0, m.extui w 252 tag_value ∷ [])
  build_bool_to_felt252 enum_ty _ = err mlir_error
