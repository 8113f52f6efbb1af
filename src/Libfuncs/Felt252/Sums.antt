-- ===== src/Libfuncs/Felt252/Sums.antt =====
-- Addition and subtraction of felts are those of the field.
use cairo_native.Prelude.{
  ℕ, ◌+◌, ◌-◌, ◌^◌, ◌%◌, ◌≡◌, ◌<◌, ap, arith, ltb, leb, if◌then◌else◌, [], ◌∷◌, some, none,
}
use cairo_native.Prelude.Int.{ℤ, pos, negsuc, nat_abs}
use cairo_native.Error.{ok, ◌>>=◌}
use cairo_native.Libfuncs.Int.Felts.{first_of}
use cairo_native.Mlir.{Mlir, IsMlir, uge, ult}
use cairo_native.Types.Integer.{prime}
use cairo_native.Emu.Numbers.{felt_of}
use cairo_native.Libfuncs.Felt252.Build.{
  Felt252BinaryOperator, add, sub, Felt252Runtime, felt_to_unsigned, build_operator,
  build_binary_operation,
}

sum_below : (x y : ℕ) → x < prime → y < prime → (x + y) % 2 ^ 256 ≡ x + y
sum_below x y h k = omega arith

reduced :
    (x y : ℕ)
    → x < prime
    → y < prime
    → (if leb prime (x + y) then (x + y + 2 ^ 256 - prime) % 2 ^ 256 else x + y) % 2 ^ 252
      ≡ (x + y) % prime
reduced x y h k = ground arith

restored :
    (x y : ℕ)
    → x < prime
    → y < prime
    → (if ltb x y
          then ((x + 2 ^ 256 - y) % 2 ^ 256 + prime) % 2 ^ 256
          else (x + 2 ^ 256 - y) % 2 ^ 256)
        % 2 ^ 252
      ≡ (x + prime - y) % prime
restored x y h k = ground arith

sum-lt :
    (x y : ℕ)
    → x < prime
    → y < prime
    → (if leb prime (x + y) then (x + y + 2 ^ 256 - prime) % 2 ^ 256 else x + y) < 2 ^ 256
sum-lt x y h k = ground arith

difference-lt :
    (x y : ℕ)
    → (if ltb x y
        then ((x + 2 ^ 256 - y) % 2 ^ 256 + prime) % 2 ^ 256
        else (x + 2 ^ 256 - y) % 2 ^ 256)
      < 2 ^ 256
difference-lt x y = ground arith

-- The residue of a constant is its felt.
felt_to_unsigned-felt_of : (c : ℤ) → nat_abs c < prime → felt_to_unsigned c ≡ felt_of c
unfolding felt_to_unsigned
felt_to_unsigned-felt_of (pos n) h = ground arith
felt_to_unsigned-felt_of (negsuc n) h = ground arith

felt_to_unsigned-lt : (c : ℤ) → nat_abs c < prime → felt_to_unsigned c < 2 ^ 252
unfolding felt_to_unsigned
felt_to_unsigned-lt (pos n) h = omega arith
felt_to_unsigned-lt (negsuc n) h = omega arith

taken_away : (x y : ℕ) → x < prime → y < prime → ((x + y) % prime + prime - y) % prime ≡ x
taken_away x y h k = ground arith

module _ {m : Mlir} (laws : IsMlir m) (rt : Felt252Runtime) (x y : ℕ) (x_lt : x < prime)
    (y_lt : y < prime) where
  -- For two felts, the code for their addition jumps to branch 0 with their sum modulo the
  -- prime.
  pub build_binary_operation-add :
      build_binary_operation m rt add none (x ∷ y ∷ []) ≡ ok (0, (x + y) % prime ∷ [])
  unfolding build_binary_operation build_operator
  build_binary_operation-add =
      let sum_lt : x + y < 2 ^ 256 = omega arith in
      rw
        (
          laws.extui_lem 252 256 x (omega arith) (omega arith),
          laws.extui_lem 252 256 y (omega arith) (omega arith),
          laws.addi_lem 256 x y (omega arith) (omega arith),
          sum_below x y x_lt y_lt,
          laws.const_int_pos 256 prime (omega arith),
          laws.subi_lem 256 (x + y) prime sum_lt (omega arith),
          laws.cmpi_lem uge 256 (x + y) prime sum_lt (omega arith),
          laws.trunci_lem 256 252
              (if leb prime (x + y) then (x + y + 2 ^ 256 - prime) % 2 ^ 256 else x + y)
              (omega arith) (sum-lt x y x_lt y_lt),
        )
        (ap (λ z. ok (0, z ∷ [])) (reduced x y x_lt y_lt))

  -- For two felts, the code for their subtraction jumps to branch 0 with their difference modulo
  -- the prime.
  pub build_binary_operation-sub :
      build_binary_operation m rt sub none (x ∷ y ∷ []) ≡ ok (0, (x + prime - y) % prime ∷ [])
  unfolding build_binary_operation build_operator
  build_binary_operation-sub =
      let result = (x + 2 ^ 256 - y) % 2 ^ 256 in
      let result_lt : result < 2 ^ 256 = omega arith in
      rw
        (
          laws.extui_lem 252 256 x (omega arith) (omega arith),
          laws.extui_lem 252 256 y (omega arith) (omega arith),
          laws.subi_lem 256 x y (omega arith) (omega arith),
          laws.const_int_pos 256 prime (omega arith),
          laws.addi_lem 256 result prime result_lt (omega arith),
          laws.cmpi_lem ult 256 x y (omega arith) (omega arith),
          laws.trunci_lem 256 252 (if ltb x y then (result + prime) % 2 ^ 256 else result)
              (omega arith) (difference-lt x y),
        )
        (ap (λ z. ok (0, z ∷ [])) (restored x y x_lt y_lt))

module _ {m : Mlir} (laws : IsMlir m) (rt : Felt252Runtime) where
  -- For a constant whose absolute value is below the prime, an operation with the constant is
  -- the operation with the felt of the constant as its second argument.
  build_binary_operation-constant :
      (op : Felt252BinaryOperator) (c : ℤ) (x : ℕ)
      → nat_abs c < prime
      → build_binary_operation m rt op (some c) (x ∷ [])
        ≡ build_binary_operation m rt op none (x ∷ felt_of c ∷ [])
  unfolding build_binary_operation
  build_binary_operation-constant op c x h = rw (
    laws.const_int_pos 252 (felt_to_unsigned c) (felt_to_unsigned-lt c h),
    felt_to_unsigned-felt_of c h,
  )

  -- For two felts, the sum that the code for the addition hands on, given to the code for the
  -- subtraction of the second felt, gives the first felt back.
  pub add-sub_round_trip :
      (x y : ℕ)
      → x < prime
      → y < prime
      → (build_binary_operation m rt add none (x ∷ y ∷ []) >>= λ (branch, values).
          build_binary_operation m rt sub none (first_of values ∷ y ∷ []))
        ≡ ok (0, x ∷ [])
  add-sub_round_trip x y h k = rw (
    build_binary_operation-add laws rt x y h k,
    build_binary_operation-sub laws rt ((x + y) % prime) y (omega arith) k,
    taken_away x y h k,
  )
