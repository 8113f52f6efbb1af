-- ===== src/Libfuncs/Int/Felts.antt =====
-- What the conversions between integer types and felts do.
use cairo_native.Prelude.{
  ℕ, suc, ◌+◌, ◌-◌, ◌*◌, ◌^◌, ◌%◌, ◌≡◌, ◌<◌, ◌≤◌, ap, arith, Bool, true, false, ◌&&◌, if◌then◌else◌,
  Bool-cases, inl, inr, List, [], ◌∷◌,
}
use cairo_native.Prelude.Int.{ℤ, pos, negsuc, ltb_ℤ, leb_ℤ, nat_abs, one_part}
use cairo_native.Error.{ok, ◌>>=◌}
use cairo_native.Libfuncs.BoundedInt.Branches.{lt→ltb_ℤ, le→leb_ℤ}
use cairo_native.Num.Bits.{two_pow_pos, two_pow_suc, two_pow_mono}
use cairo_native.Num.Wrap.{wrap, wrap-lt, wrap-pos, wrap-mod}
use cairo_native.Mlir.{Mlir, IsMlir, sge, slt, compares}
use cairo_native.Mlir.Laws.{signed-wrap, add-sub-one}
use cairo_native.Utils.RangeExt.{size}
use cairo_native.Utils.RangeExt.Laws.{InRange}
use cairo_native.Types.{CoreTypeConcrete}
use cairo_native.Types.Integer.{integer_range, integer_width, prime}
use cairo_native.Libfuncs.Counter.{increment_builtin_counter_conditionally_by_lem}
use cairo_native.Libfuncs.Int.Felt.{in_threshold, build_from_felt252, build_to_felt252}
use cairo_native.Libfuncs.Int.Overflow.{signed_bounds, negsuc_ne_zero}
use cairo_native.Emu.Numbers.{felt_of}

-- The two signed comparisons of a felt with the thresholds of a signed range.
checks :
    (p : ℕ) (a : ℤ)
    → 0 < p
    → p ≤ 2 ^ 127
    → 2 * nat_abs a < prime
    → (compares sge 252 (felt_of a) (prime - suc (p - 1)) && compares slt 252 (felt_of a) p)
      ≡ (leb_ℤ (negsuc (p - 1)) a && ltb_ℤ a (pos p))
checks p (pos n) h k l = ground arith
checks p (negsuc n) h k l = ground arith

-- A felt without the prime, if it reads as negative.
abbrev word : ℕ → ℕ
word x = if compares slt 252 x 0 then (x + 2 ^ 252 - prime) % 2 ^ 252 else x

-- The felt of a small negative integer, with the prime taken away.
negative_word : (a : ℤ) → nat_abs a ≤ 2 ^ 127 → word (felt_of a) ≡ wrap 252 a
unfolding wrap
negative_word (pos n) h = ground arith
negative_word (negsuc n) h = ground arith

abs-le :
    (v : ℕ) (a : ℤ)
    → (leb_ℤ (signed_bounds v).lower a && ltb_ℤ a (signed_bounds v).upper) ≡ true
    → 2 ^ v ≤ 2 ^ 127
    → nat_abs a ≤ 2 ^ 127
abs-le v a h k = ground (arith, two_pow_pos v)

felt_of-lt : (a : ℤ) → 2 * nat_abs a < prime → felt_of a < 2 ^ 252
felt_of-lt (pos n) h = omega arith
felt_of-lt (negsuc n) h = omega arith

-- The bounds of a signed range of at most 128 bits, as felts.
thresholds-lt :
    (p : ℕ)
    → 0 < p
    → p ≤ 2 ^ 127
    → (prime - suc (p - 1) < 2 ^ 252) × (p < 2 ^ 252) × (prime < 2 ^ 252)
thresholds-lt p h k = (omega arith, omega arith, omega arith)

pub few : (b : Bool) → (if b then 2 else 1) < 2 ^ 64
few true = omega arith
few false = omega arith

two_pow-bounds : (v : ℕ) → v ≤ 127 → (0 < 2 ^ v) × (2 ^ v ≤ 2 ^ 127)
two_pow-bounds v h = (two_pow_pos v, two_pow_mono v 127 h)

module _ {m : Mlir} (laws : IsMlir m) (v : ℕ) (v_le : v ≤ 127) (a : ℤ)
    (small : 2 * nat_abs a < prime) where
  -- The two tests on the felt, and its word.
  in_threshold-signed :
      in_threshold m (signed_bounds v) (felt_of a)
      ≡ ok (leb_ℤ (signed_bounds v).lower a && ltb_ℤ a (signed_bounds v).upper, word (felt_of a))
  unfolding in_threshold
  in_threshold-signed =
      let p = 2 ^ v in
      let (p_pos, p_le) = two_pow-bounds v v_le in
      let (lower_lt, upper_lt, prime_lt) = thresholds-lt p p_pos p_le in
      let x_lt = felt_of-lt a small in
      rw
        (
          laws.const_int_pos 252 (prime - suc (p - 1)) lower_lt,
          laws.const_int_pos 252 p upper_lt,
          laws.const_int_pos 252 0 (omega arith),
          laws.const_int_pos 252 prime prime_lt,
          laws.cmpi_lem sge 252 (felt_of a) (prime - suc (p - 1)) x_lt lower_lt,
          laws.cmpi_lem slt 252 (felt_of a) p x_lt upper_lt,
          laws.cmpi_lem slt 252 (felt_of a) 0 x_lt (omega arith),
          laws.subi_lem 252 (felt_of a) prime x_lt prime_lt,
        )
        (rw (negsuc_ne_zero (p - 1))
          (ap (λ t. ok (t, word (felt_of a))) (checks p a p_pos p_le small)))

-- The first of the values that are handed on.
abbrev pub first_of : List ℕ → ℕ
first_of [] = 0
first_of (x ∷ xs) = x

slt-zero :
    (v : ℕ) (a : ℤ)
    → InRange a (signed_bounds v)
    → compares slt (suc v) (wrap (suc v) a) 0 ≡ ltb_ℤ a (pos 0)
slt-zero v a h = rw (signed-wrap v a h.0 h.1, add-sub-one v) (ground (arith, two_pow_pos v))

felt_of-select :
    (v : ℕ) (a : ℤ)
    → v ≤ 127
    → InRange a (signed_bounds v)
    → (if ltb_ℤ a (pos 0) then (prime + 2 ^ 252 - nat_abs a) % 2 ^ 252 else wrap (suc v) a)
      ≡ felt_of a
felt_of-select v (pos n) v_le h =
    let (_, p_le) = two_pow-bounds v v_le in
    rw (wrap-pos (suc v) n (omega (arith, h, two_pow_suc v))) (ground (arith, h, p_le))
felt_of-select v (negsuc n) v_le h =
    let (p_pos, p_le) = two_pow-bounds v v_le in ground (arith, h, p_le, p_pos)

module _ {m : Mlir} (laws : IsMlir m) (t : CoreTypeConcrete) (v : ℕ) (v_le : v ≤ 127)
    (range_eq : integer_range t ≡ ok (signed_bounds v)) (width_eq : integer_width t ≡ ok (suc v))
    (a : ℤ) where
  -- For a signed type of `v` + 1 bits, 128 at most, and an integer of its range, the code for
  -- the conversion to a felt jumps to branch 0 with the representative of the integer below
  -- the prime.
  build_to_felt252-signed :
      InRange a (signed_bounds v) → build_to_felt252 m t (wrap (suc v) a) ≡ ok (0, felt_of a ∷ [])
  unfolding build_to_felt252
  build_to_felt252-signed a_in =
      let (p_pos, p_le) = two_pow-bounds v v_le in
      let (_, _, prime_lt) = thresholds-lt (2 ^ v) p_pos p_le in
      let abs_le : nat_abs a ≤ 2 ^ v = omega (arith, a_in, p_pos, one_part a) in
      let abs_lt : nat_abs a < 2 ^ suc v = omega (arith, abs_le, two_pow_suc v, p_pos) in
      rw
        (
          range_eq,
          negsuc_ne_zero (2 ^ v - 1),
          laws.const_int_pos 252 prime prime_lt,
          width_eq,
          laws.const_int_pos (suc v) 0 (two_pow_pos (suc v)),
          laws.cmpi_lem slt (suc v) _ 0 (wrap-lt (suc v) a) (two_pow_pos (suc v)),
          slt-zero v a a_in,
          laws.extui_lem (suc v) 252 (wrap (suc v) a) (omega arith) (wrap-lt (suc v) a),
          laws.absi_lem (suc v) (wrap (suc v) a) (omega arith) (wrap-lt (suc v) a),
          signed-wrap v a a_in.0 a_in.1,
          wrap-pos (suc v) (nat_abs a) abs_lt,
          laws.extui_lem (suc v) 252 (nat_abs a) (omega arith) abs_lt,
          laws.subi_lem 252 prime (nat_abs a) prime_lt (omega (arith, abs_le, p_le)),
        )
        (ap (λ x. ok (0, x ∷ [])) (felt_of-select v a v_le a_in))

  -- For a signed type of `v` + 1 bits, 128 at most, an integer whose double is, in absolute
  -- value, below the prime, and a counter below 2 ^ 64, the code for the conversion from the
  -- felt of the integer jumps to branch 0 with the word of the integer if it is in the range of
  -- the type and to branch 1 if not; the counter is moved on by three in branch 1, and in branch
  -- 0 by two if the range has fewer than 2 ^ 128 integers and by one if not, modulo 2 ^ 64.
  build_from_felt252-signed :
      (c : ℕ)
      → c < 2 ^ 64
      → 2 * nat_abs a < prime
      → build_from_felt252 m t c (felt_of a)
        ≡ ok (
            if leb_ℤ (signed_bounds v).lower a && ltb_ℤ a (signed_bounds v).upper
            then (
              0,
              (c + (if ltb_ℤ (size (signed_bounds v)) (pos (2 ^ 128)) then 2 else 1)) % 2 ^ 64
                  ∷ wrap (suc v) a
                  ∷ [],
            )
            else (1, (c + 3) % 2 ^ 64 ∷ []))
  unfolding build_from_felt252
  build_from_felt252-signed c c_lt small =
      let r = signed_bounds v in
      let more : ℕ = if ltb_ℤ (size r) (pos (2 ^ 128)) then 2 else 1 in
      let (p_pos, p_le) = two_pow-bounds v v_le in
      let fewer = few (ltb_ℤ (size r) (pos (2 ^ 128))) in
      rw (range_eq, width_eq, in_threshold-signed laws v v_le a small)
        (elim (Bool-cases (leb_ℤ r.lower a && ltb_ℤ a r.upper)) [
          | inl inside ↦ rw (
            inside,
            increment_builtin_counter_conditionally_by_lem laws c more 3 true c_lt fewer
                (omega arith),
            negative_word a (abs-le v a inside p_le),
            laws.trunci_lem 252 (suc v) (wrap 252 a) (omega arith) (wrap-lt 252 a),
            wrap-mod (suc v) 252 a (omega arith),
          )
          | inr outside ↦ rw (
            outside,
            increment_builtin_counter_conditionally_by_lem laws c more 3 false c_lt fewer
                (omega arith),
          )
        ])

  -- For a signed type of `v` + 1 bits, 128 at most, an integer of its range and a counter below
  -- 2 ^ 64, the conversion of the integer to a felt, followed by the conversion from the felt
  -- that the first hands on, goes to branch 0 with the word of the integer.
  pub felt252-round_trip :
      (c : ℕ)
      → c < 2 ^ 64
      → InRange a (signed_bounds v)
      → (build_to_felt252 m t (wrap (suc v) a) >>= λ (branch, values).
          build_from_felt252 m t c (first_of values))
        ≡ ok (
          0,
          (c + (if ltb_ℤ (size (signed_bounds v)) (pos (2 ^ 128)) then 2 else 1)) % 2 ^ 64
              ∷ wrap (suc v) a
              ∷ [],
        )
  felt252-round_trip c c_lt a_in =
      let (p_pos, p_le) = two_pow-bounds v v_le in
      rw (
        build_to_felt252-signed a_in,
        build_from_felt252-signed c c_lt (omega (arith, a_in, p_pos, p_le, one_part a)),
        le→leb_ℤ (signed_bounds v).lower a a_in.0,
        lt→ltb_ℤ a (signed_bounds v).upper a_in.1,
      )
