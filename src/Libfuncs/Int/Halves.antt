-- ===== src/Libfuncs/Int/Halves.antt =====
-- The two halves of a felt, as `build_u128s_from_felt252` takes them.
use cairo_native.Prelude.{
  ℕ, ◌+◌, ◌/◌, ◌^◌, ◌%◌, ◌≡◌, ◌<◌, arith, true, false, ltb, ◌==◌, if◌then◌else◌, Bool-cases, inl,
  inr, [], ◌∷◌,
}
use cairo_native.Error.{ok}
use cairo_native.Mlir.{Mlir, IsMlir, ne}
use cairo_native.Libfuncs.Counter.{increment_builtin_counter_conditionally_by_lem}
use cairo_native.Libfuncs.Int.Felt.{build_u128s_from_felt252}

high_half : (x : ℕ) → x < 2 ^ 252 → x / 2 ^ 128 % 2 ^ 128 ≡ x / 2 ^ 128
high_half x h = omega arith

is_low : (x : ℕ) → (x / 2 ^ 128 == 0) ≡ ltb x (2 ^ 128)
is_low x = ground arith

low_half : (x : ℕ) → ltb x (2 ^ 128) ≡ true → x % 2 ^ 128 ≡ x
low_half x h = ground arith

module _ {m : Mlir} (laws : IsMlir m) where
  -- For a word below 2 ^ 252 and a counter below 2 ^ 64, the code for `u128s_from_felt252`
  -- jumps to branch 0 with the number if it is below 2 ^ 128, the counter moved on by one, and
  -- otherwise to branch 1 with the quotient modulo 2 ^ 128 and the rest of the division by
  -- 2 ^ 128, the counter moved on by three.
  build_u128s_from_felt252-halves :
      (x c : ℕ)
      → x < 2 ^ 252
      → c < 2 ^ 64
      → build_u128s_from_felt252 m c x
        ≡ ok (
            if ltb x (2 ^ 128)
            then (0, (c + 1) % 2 ^ 64 ∷ x ∷ [])
            else (1, (c + 3) % 2 ^ 64 ∷ x / 2 ^ 128 ∷ x % 2 ^ 128 ∷ []))
  unfolding build_u128s_from_felt252
  build_u128s_from_felt252-halves x c x_lt c_lt =
      rw
        (
          laws.trunci_lem 252 128 x (omega arith) x_lt,
          laws.const_int_pos 252 128 (omega arith),
          laws.shrui_lem 252 x 128 x_lt (omega arith),
          laws.trunci_lem 252 128 (x / 2 ^ 128) (omega arith) (omega arith),
          laws.const_int_pos 128 0 (omega arith),
          laws.cmpi_lem ne 128 (x / 2 ^ 128 % 2 ^ 128) 0 (omega arith) (omega arith),
        )
        (rw (high_half x x_lt, is_low x)
          (elim (Bool-cases (ltb x (2 ^ 128))) [
            | inl low ↦ rw (
              low,
              increment_builtin_counter_conditionally_by_lem laws c 3 1 false c_lt (omega arith)
                  (omega arith),
              low_half x low,
            )
            | inr high ↦ rw (
              high,
              increment_builtin_counter_conditionally_by_lem laws c 3 1 true c_lt (omega arith)
                  (omega arith),
            )
          ]))
