-- ===== src/Mlir/Wrapping.antt =====
-- Patterns computed with the native numbers: a value of the interface that meets its laws.
use Prim.Native.Nat.{bit_and, bit_or, bit_xor}
use cairo_native.Prelude.{
  ℕ, suc, ◌+◌, ◌-◌, ◌*◌, ◌/◌, ◌%◌, ◌^◌, ◌<◌, ◌≡◌, refl, ltb, if◌then◌else◌, arith, min,
}
use cairo_native.Prelude.Int.{ℤ, pos, negsuc, nat_abs, ◌+ℤ◌, ◌-ℤ◌}
use cairo_native.Error.{Result, ok, err, parse_attribute_error}
use cairo_native.Num.Wrap.{wrap}
use cairo_native.Mlir.Defs.{Mlir, IsMlir, signed, compares, signed_overflow, unsigned_overflow}

abbrev parse : ℕ → ℤ → Result ℕ
parse w (pos n) = if ltb n (2 ^ w) then ok n else err parse_attribute_error
parse w (negsuc n) = if ltb n (2 ^ (w - 1)) then ok (2 ^ w - suc n) else err parse_attribute_error

-- The lowest bytes of a pattern in the reverse order.
abbrev swap_bytes : ℕ → ℕ → ℕ
swap_bytes ℕ.zero x = 0
swap_bytes (ℕ.suc n) x = x % 256 * 2 ^ (8 * n) + swap_bytes n (x / 256)

abbrev pub wrapping : Mlir
wrapping = record {
  const_int = parse;
  addi = λ w x y. (x + y) % 2 ^ w;
  subi = λ w x y. (x + 2 ^ w - y) % 2 ^ w;
  muli = λ w x y. x * y % 2 ^ w;
  divui = λ w x y. x / y;
  remui = λ w x y. x % y;
  shrui = λ w x k. x / 2 ^ k;
  extui = λ v w x. x;
  extsi = λ v w x. wrap w (signed v x);
  trunci = λ v w x. x % 2 ^ w;
  cmpi = compares;
  andi = λ w x y. bit_and x y;
  xori = λ w x y. bit_xor x y;
  ori = λ w x y. bit_or x y;
  absi = λ w x. wrap w (pos (nat_abs (signed w x)));
  bswap = λ w x. swap_bytes (w / 8) x;
  mului_extended = λ w x y. (x * y % 2 ^ w, x * y / 2 ^ w);
  uadd_with_overflow = λ w x y. unsigned_overflow w (pos x +ℤ pos y);
  usub_with_overflow = λ w x y. unsigned_overflow w (pos x -ℤ pos y);
  sadd_with_overflow = λ w x y. signed_overflow w (signed w x +ℤ signed w y);
  ssub_with_overflow = λ w x y. signed_overflow w (signed w x -ℤ signed w y);
  uadd_sat = λ w x y. min (x + y) (2 ^ w - 1);
  usub_sat = λ w x y. x - y;
}

parse-pos : (w n : ℕ) → n < 2 ^ w → parse w (pos n) ≡ ok n
parse-pos w n h = ground arith

parse-negsuc : (w n : ℕ) → n < 2 ^ (w - 1) → parse w (negsuc n) ≡ ok (2 ^ w - suc n)
parse-negsuc w n h = ground arith

pub wrapping-IsMlir : IsMlir wrapping
wrapping-IsMlir = record {
  const_int_pos = parse-pos;
  const_int_negsuc = parse-negsuc;
  addi_lem = λ w x y _ _. refl;
  subi_lem = λ w x y _ _. refl;
  muli_lem = λ w x y _ _. refl;
  divui_lem = λ w x y _ _ _. refl;
  remui_lem = λ w x y _ _ _. refl;
  shrui_lem = λ w x k _ _. refl;
  extui_lem = λ v w x _ _. refl;
  extsi_lem = λ v w x _ _ _. refl;
  trunci_lem = λ v w x _ _. refl;
  cmpi_lem = λ p w x y _ _. refl;
  absi_lem = λ w x _ _. refl;
  mului_extended_lem = λ w x y _ _. refl;
  uadd_with_overflow_lem = λ w x y _ _. refl;
  usub_with_overflow_lem = λ w x y _ _. refl;
  sadd_with_overflow_lem = λ w x y _ _ _. refl;
  ssub_with_overflow_lem = λ w x y _ _ _. refl;
  uadd_sat_lem = λ w x y _ _. refl;
  usub_sat_lem = λ w x y _ _. refl;
  andi_lem = λ w x y _ _. refl;
  xori_lem = λ w x y _ _. refl;
  ori_lem = λ w x y _ _. refl;
}
