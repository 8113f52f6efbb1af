-- ===== src/Libfuncs/Int/Felt.antt =====
-- src/libfuncs/int.rs: conversions between the integer types and felts, which are words of 252
-- bits.
use cairo_native.Prelude.{ℕ, ◌-◌, ◌^◌, [], ◌∷◌, Bool, not, ◌&&◌, if◌then◌else◌}
use cairo_native.Prelude.Int.{ℤ, pos, negsuc, ltb_ℤ, eqb_ℤ}
use cairo_native.Error.{Result, ok, ◌>>=◌}
use cairo_native.Mlir.{Mlir, ne, slt, sge, ult}
use cairo_native.Utils.RangeExt.{Range, size}
use cairo_native.Types.{CoreTypeConcrete}
use cairo_native.Types.Integer.{integer_range, integer_width, prime}
use cairo_native.Libfuncs.Counter.{Jump, increment_builtin_counter_conditionally_by}

-- A threshold as a felt.
abbrev pub felt_threshold : ℤ → ℕ
felt_threshold (pos n) = n
felt_threshold (negsuc n) = prime - ℕ.suc n

module _ (m : Mlir) where
  -- Whether the felt is a number of the range, and its word.
  unfoldable pub in_threshold : Range → ℕ → Result (Bool × ℕ)
  in_threshold threshold input =
      if eqb_ℤ threshold.lower (pos 0)
      then (do
        upper_threshold ← m.const_int 252 threshold.upper
        ok (m.cmpi ult 252 input upper_threshold, input))
      else (do
        lower_threshold ← m.const_int 252 (pos (felt_threshold threshold.lower))
        upper_threshold ← m.const_int 252 (pos (felt_threshold threshold.upper))
        let lower_check = m.cmpi sge 252 input lower_threshold
        let upper_check = m.cmpi slt 252 input upper_threshold
        k0 ← m.const_int 252 (pos 0)
        let is_negative = m.cmpi slt 252 input k0
        prime_value ← m.const_int 252 (pos prime)
        ok (
          lower_check && upper_check,
          if is_negative then m.subi 252 input prime_value else input,
        ))

  unfoldable pub build_from_felt252 : CoreTypeConcrete → ℕ → ℕ → Result Jump
  unfolding in_threshold
  build_from_felt252 value_ty counter input = do
    threshold ← integer_range value_ty
    w ← integer_width value_ty
    (is_in_range, value) ← in_threshold threshold input
    range_check ←
        increment_builtin_counter_conditionally_by m counter
          (if ltb_ℤ (size threshold) (pos (2 ^ 128)) then 2 else 1) 3 is_in_range
    let value' = m.trunci 252 w value
    ok (if is_in_range then (0, range_check ∷ value' ∷ []) else (1, range_check ∷ []))

  unfoldable pub build_to_felt252 : CoreTypeConcrete → ℕ → Result Jump
  build_to_felt252 value_ty input = do
    range ← integer_range value_ty
    let is_signed = not (eqb_ℤ range.lower (pos 0))
    if is_signed
        then (do
          prime_value ← m.const_int 252 (pos prime)
          w ← integer_width value_ty
          k0 ← m.const_int w (pos 0)
          let is_negative = m.cmpi slt w input k0
          let value = m.extui w 252 input
          let neg_value = m.extui w 252 (m.absi w input)
          let neg_value' = m.subi 252 prime_value neg_value
          ok (0, (if is_negative then neg_value' else value) ∷ []))
        else (do w ← integer_width value_ty; ok (0, m.extui w 252 input ∷ []))

  unfoldable pub build_u128s_from_felt252 : ℕ → ℕ → Result Jump
  build_u128s_from_felt252 counter input = do
    let lo = m.trunci 252 128 input
    k128 ← m.const_int 252 (pos 128)
    let hi = m.trunci 252 128 (m.shrui 252 input k128)
    k0 ← m.const_int 128 (pos 0)
    let is_wide = m.cmpi ne 128 hi k0
    range_check ← increment_builtin_counter_conditionally_by m counter 3 1 is_wide
    ok (if is_wide then (1, range_check ∷ hi ∷ lo ∷ []) else (0, range_check ∷ lo ∷ []))
