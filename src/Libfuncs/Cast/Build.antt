-- ===== src/Libfuncs/Cast/Build.antt =====
-- src/libfuncs/cast.rs: the builders. Whether the two types of the signature have the same id is
-- the argument `same`, whether Sierra takes the source range for that of all felts is `full`.
use cairo_native.Prelude.{
  ℕ, ◌/◌, ◌^◌, max, ltb, ◌==◌, Bool, ◌&&◌, ◌||◌, not, if◌then◌else◌, Option, none, some, [], ◌∷◌,
}
use cairo_native.Prelude.Int.{ℤ, pos, ◌+ℤ◌, ◌-ℤ◌, neg_ℤ, leb_ℤ, ltb_ℤ, eqb_ℤ}
use cairo_native.Error.{Result, ok, err, native_assert, ensure, ◌>>=◌, ◌>>◌}
use cairo_native.Mlir.{Mlir, CmpiPredicate, slt, sge, ult, uge, ugt}
use cairo_native.Utils.RangeExt.{Range, size, repr_bit_width, zero_based_bit_width}
use cairo_native.Types.{CoreTypeConcrete}
use cairo_native.Types.Integer.{integer_range, is_bounded_int, is_felt252, prime}
use cairo_native.Libfuncs.Counter.{
  Jump, increment_builtin_counter, increment_builtin_counter_by,
  increment_builtin_counter_conditionally_by,
}

-- `HALF_PRIME` of src/utils.rs
abbrev pub half_prime : ℕ
half_prime = prime / 2

abbrev pub signed_felt_range : Range
signed_felt_range = record { lower = neg_ℤ (pos half_prime); upper = pos half_prime +ℤ pos 1 }

-- One range inside another.
abbrev pub includes : Range → Range → Bool
includes outer inner = leb_ℤ outer.lower inner.lower && leb_ℤ inner.upper outer.upper

-- The range of the source values, as the target reads them.
unfoldable pub downcast_range : CoreTypeConcrete → Range → Result Range
downcast_range src_ty dst_range =
    if is_felt252 src_ty && ltb_ℤ dst_range.lower (pos 0)
    then ok (
        if leb_ℤ dst_range.upper (pos 0)
        then record { lower = neg_ℤ (pos prime) +ℤ pos 1; upper = pos 1 }
        else signed_felt_range)
    else integer_range src_ty

-- The offset that an upcast adds.
unfoldable pub upcast_offset : CoreTypeConcrete → Range → CoreTypeConcrete → Range → ℤ
upcast_offset src_ty src_range dst_ty dst_range =
    if is_bounded_int src_ty && is_bounded_int dst_ty
    then src_range.lower -ℤ dst_range.lower
    else if is_bounded_int src_ty
    then src_range.lower
    else if is_bounded_int dst_ty
    then neg_ℤ dst_range.lower
    else pos 0

module _ (m : Mlir) where
  unfoldable pub signed_to_felt252_repr : ℕ → ℕ → Result ℕ
  signed_to_felt252_repr w value = do
    k0 ← m.const_int w (pos 0)
    let is_negative = m.cmpi slt w value k0
    k_prime ← m.const_int w (pos prime)
    let adj_value = m.addi w value k_prime
    ok (if is_negative then adj_value else value)

  -- The value in the width of the computation.
  unfoldable pub extend_source : CoreTypeConcrete → Range → ℕ → ℕ → ℕ
  extend_source src_ty src_range compute_width value =
      let src_width = repr_bit_width src_range in
      if ltb src_width compute_width
      then (if ltb_ℤ src_range.lower (pos 0)
            && not (is_bounded_int src_ty)
            && not (is_felt252 src_ty)
          then m.extsi src_width compute_width value
          else m.extui src_width compute_width value)
      else value

  -- From the representation of the source to the integer itself, in words of `w` bits.
  unfoldable pub correct_source : CoreTypeConcrete → Range → ℕ → ℕ → Result ℕ
  correct_source src_ty src_range w value =
      if ltb_ℤ src_range.lower (pos 0) && is_felt252 src_ty
      then (do
        adj_offset ← m.const_int w (if eqb_ℤ src_range.upper (pos 1) then pos 0 else pos half_prime)
        let is_negative = m.cmpi ugt w value adj_offset
        k_prime ← m.const_int w (pos prime)
        let adj_value = m.subi w value k_prime
        ok (if is_negative then adj_value else value))
      else if is_bounded_int src_ty && not (eqb_ℤ src_range.lower (pos 0))
      then (do dst_offset ← m.const_int w src_range.lower; ok (m.addi w value dst_offset))
      else ok value

  -- A comparison with a bound, if it is needed.
  unfoldable pub bound_check : Bool → CmpiPredicate → ℕ → ℕ → ℤ → Result (Option Bool)
  bound_check needed predicate w value bound =
      if needed
      then (do limit ← m.const_int w bound; ok (some (m.cmpi predicate w value limit)))
      else ok none

  -- How the counter moves where the source range is not that of all felts.
  unfoldable pub count_checks : Option Bool → Option Bool → ℕ → Result ℕ
  count_checks (some lower) (some upper) range_check =
      increment_builtin_counter_conditionally_by m range_check 2 1 (lower && upper)
  count_checks (some lower) none range_check = increment_builtin_counter_by m range_check 1
  count_checks none (some upper) range_check = increment_builtin_counter_by m range_check 1
  count_checks none none range_check = ok range_check

  abbrev pub both_checks : Option Bool → Option Bool → Result Bool
  both_checks (some lower) (some upper) = ok (lower && upper)
  both_checks (some lower) none = ok lower
  both_checks none (some upper) = ok upper
  both_checks none none = err native_assert

  -- Whether the value is in the target range, and the counter.
  unfoldable pub check_bounds : Bool → (to_range src_range : Range) → ℕ → ℕ → ℕ → Result (Bool × ℕ)
  check_bounds full to_range src_range w range_check value =
      if includes to_range src_range
      then (do k1 ← m.const_int 1 (pos 1); ok (k1 == 1, range_check))
      else (do
        let is_signed = ltb_ℤ src_range.lower (pos 0)
        lower_check ←
            bound_check (ltb_ℤ src_range.lower to_range.lower) (if is_signed then sge else uge) w
              value to_range.lower
        upper_check ←
            bound_check (ltb_ℤ to_range.upper src_range.upper) (if is_signed then slt else ult) w
              value to_range.upper
        is_in_bounds ← both_checks lower_check upper_check
        range_check' ←
            if full
            then increment_builtin_counter_conditionally_by m range_check
                (if ltb_ℤ (size to_range) (pos (2 ^ 128)) then 2 else 1) 3 is_in_bounds
            else count_checks lower_check upper_check range_check
        ok (is_in_bounds, range_check'))

  -- From the integer to the representation of the target.
  unfoldable pub represent_target : CoreTypeConcrete → Range → Range → ℕ → ℕ → ℕ → Result ℕ
  unfolding signed_to_felt252_repr
  represent_target dst_ty dst_range src_range compute_width w value = do
    biased ←
        if is_bounded_int dst_ty && not (eqb_ℤ dst_range.lower (pos 0))
        then (do dst_offset ← m.const_int w dst_range.lower; ok (m.subi w value dst_offset))
        else ok value
    dst_value ←
        if is_felt252 dst_ty && ltb_ℤ src_range.lower (pos 0)
        then signed_to_felt252_repr w biased
        else ok biased
    let dst_width = repr_bit_width dst_range
    ok (if ltb dst_width compute_width then m.trunci w dst_width dst_value else dst_value)

  unfoldable pub build_downcast :
      (same full : Bool) → Range → (src dst : CoreTypeConcrete) → ℕ → ℕ → Result Jump
  unfolding downcast_range extend_source correct_source check_bounds represent_target
  build_downcast same full to_range src_ty dst_ty range_check src_value = do
    dst_range ← integer_range dst_ty
    src_range ← downcast_range src_ty dst_range
    let compute_width = max (zero_based_bit_width src_range) (zero_based_bit_width dst_range)
    let w = max (repr_bit_width src_range) compute_width
    if same
        then (do
          counter ←
              if eqb_ℤ src_range.lower (pos 0)
              then increment_builtin_counter m range_check
              else ok range_check
          k1 ← m.const_int 1 (pos 1)
          ok (if k1 == 1 then (0, counter ∷ src_value ∷ []) else (1, counter ∷ [])))
        else (do
          value ←
              correct_source src_ty src_range w
                (extend_source src_ty src_range compute_width src_value)
          (is_in_bounds, counter) ← check_bounds full to_range src_range w range_check value
          dst_value ← represent_target dst_ty dst_range src_range compute_width w value
          ok (if is_in_bounds then (0, counter ∷ dst_value ∷ []) else (1, counter ∷ [])))

  unfoldable pub build_upcast : (same : Bool) → (src dst : CoreTypeConcrete) → ℕ → Result Jump
  unfolding upcast_offset signed_to_felt252_repr
  build_upcast same src_ty dst_ty src_value = if same then ok (0, src_value ∷ []) else (do
    src_range ← integer_range src_ty
    dst_range ← integer_range dst_ty
    ensure
        (includes dst_range src_range || is_felt252 dst_ty && includes signed_felt_range src_range)
    let src_width = repr_bit_width src_range
    let dst_width = repr_bit_width dst_range
    let w = max src_width dst_width
    let extended =
        if ltb src_width dst_width
        then (if ltb_ℤ src_range.lower (pos 0) && not (is_bounded_int src_ty)
            then m.extsi src_width dst_width src_value
            else m.extui src_width dst_width src_value)
        else src_value
    offset_value ← m.const_int w (upcast_offset src_ty src_range dst_ty dst_range)
    let dst_value = m.addi w extended offset_value
    result ←
        if is_felt252 dst_ty && ltb_ℤ src_range.lower (pos 0)
        then signed_to_felt252_repr w dst_value
        else ok dst_value
    ok (0, result ∷ []))
