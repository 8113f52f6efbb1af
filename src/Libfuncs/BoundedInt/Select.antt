-- ===== src/Libfuncs/BoundedInt/Select.antt =====
-- src/libfuncs/bounded_int.rs: `build` calls the builder of a library function on its arguments.
use cairo_native.Prelude.{ℕ, Option, List, [], ◌∷◌}
use cairo_native.Error.{Result, err, mlir_error}
use cairo_native.Mlir.{Mlir}
use cairo_native.Sierra.{
  BoundedIntConcreteLibfunc, add, sub, mul, div_rem, constrain, trim, is_zero, wrap_non_zero,
  guarantee_verify, u128_to_u32_guarantees,
}
use cairo_native.Utils.RangeExt.{Range}
use cairo_native.Libfuncs.Counter.{Jump}
use cairo_native.Libfuncs.BoundedInt.Arith.{
  DivRemAlgorithm, build_add, build_sub, build_mul, build_div_rem,
}
use cairo_native.Libfuncs.BoundedInt.Cases.{
  build_constrain, build_trim, build_is_zero, build_wrap_non_zero, build_guarantee_verify,
  build_u128_to_u32_guarantees,
}

-- An argument that is missing is an error of `entry.arg`.
unfoldable pub build :
    Mlir
    → (Range → Range → Option DivRemAlgorithm)
    → BoundedIntConcreteLibfunc
    → List ℕ
    → Result Jump
build m try_new (add l r d) (x ∷ y ∷ []) = build_add m l r d x y
build m try_new (sub l r d) (x ∷ y ∷ []) = build_sub m l r d x y
build m try_new (mul l r d) (x ∷ y ∷ []) = build_mul m l r d x y
build m try_new (div_rem l r q e) (c ∷ x ∷ y ∷ []) = build_div_rem m try_new l r q e c x y
build m try_new (constrain s l u k) (c ∷ x ∷ []) = build_constrain m s l u k c x
build m try_new (trim s d k) (x ∷ []) = build_trim m s d k x
build m try_new (is_zero s d) (x ∷ []) = build_is_zero m s x
build m try_new (wrap_non_zero s) (x ∷ []) = build_wrap_non_zero s x
build m try_new guarantee_verify (c ∷ x ∷ []) = build_guarantee_verify m c
build m try_new u128_to_u32_guarantees (x ∷ []) = build_u128_to_u32_guarantees m x
build m try_new _ _ = err mlir_error
