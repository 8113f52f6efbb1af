-- ===== src/Libfuncs/Int/WideMul.antt =====
-- The wide multiplication of integers: no product is cut off.
use cairo_native.Prelude.{ℕ, suc, ◌^◌, ◌≡◌, ◌≤◌, ◌-◌, ap, ◌∙◌, arith, [], ◌∷◌}
use cairo_native.Prelude.Int.{ℤ, ◌*ℤ◌}
use cairo_native.Error.{ok}
use cairo_native.Num.Wrap.{wrap, wrap-lt}
use cairo_native.Mlir.{Mlir, IsMlir}
use cairo_native.Mlir.Laws.{signed-wrap, muli-wrap}
use cairo_native.Utils.RangeExt.Laws.{InRange}
use cairo_native.Types.{CoreTypeConcrete}
use cairo_native.Types.Integer.{integer_range, integer_width}
use cairo_native.Libfuncs.Int.Operation.{build_wide_mul}
use cairo_native.Libfuncs.Int.Overflow.{signed_bounds, negsuc_ne_zero}

module _ {m : Mlir} (laws : IsMlir m) where
  extsi-wrap :
      (v w : ℕ) (a : ℤ)
      → suc v ≤ w
      → InRange a (signed_bounds v)
      → m.extsi (suc v) w (wrap (suc v) a) ≡ wrap w a
  extsi-wrap v w a h k =
      laws.extsi_lem (suc v) w (wrap (suc v) a) (omega arith) h (wrap-lt (suc v) a)
      ∙ ap (wrap w) (signed-wrap v a k.0 k.1)

  -- For a signed type of `v` + 1 bits, a result type of `w` bits, not fewer, and two integers of
  -- the range of the first type, the code for the wide multiplication jumps to branch 0 with the
  -- word of `w` bits of their product.
  pub build_wide_mul-signed :
      (t t' : CoreTypeConcrete) (v w : ℕ)
      → integer_range t ≡ ok (signed_bounds v)
      → integer_width t ≡ ok (suc v)
      → integer_width t' ≡ ok w
      → suc v ≤ w
      → (a b : ℤ) → InRange a (signed_bounds v)
      → InRange b (signed_bounds v)
      → build_wide_mul m t t' (wrap (suc v) a) (wrap (suc v) b) ≡ ok (0, wrap w (a *ℤ b) ∷ [])
  unfolding build_wide_mul
  build_wide_mul-signed t t' v w range_eq width_eq result_eq le a b a_in b_in = rw (
    width_eq,
    result_eq,
    range_eq,
    negsuc_ne_zero (2 ^ v - 1),
    extsi-wrap v w a le a_in,
    extsi-wrap v w b le b_in,
    muli-wrap laws w a b,
  )
