-- ===== src/Mlir/Defs.antt =====
-- The interface to MLIR: operations on bit patterns, and their documented behaviour.
use Prim.Native.Nat.{bit_and, bit_or, bit_xor}
use cairo_native.Prelude.{
  ℕ, suc, ◌+◌, ◌-◌, ◌*◌, ◌/◌, ◌%◌, ◌^◌, ◌≤◌, ◌<◌, ◌≡◌, Bool, ltb, leb, ◌==◌, if◌then◌else◌, not,
  ◌&&◌, min,
}
use cairo_native.Prelude.Int.{ℤ, pos, negsuc, ltb_ℤ, leb_ℤ, nat_abs, ◌+ℤ◌, ◌-ℤ◌}
use cairo_native.Error.{Result, ok}
use cairo_native.Num.Wrap.{wrap}

-- `CmpiPredicate`
pub data CmpiPredicate : Type 0 where
  eq ne slt sle sgt sge ult ule ugt uge : CmpiPredicate

-- An operation takes the width of its operands first; a cast takes the old width and the new one.
-- `const_int` parses a constant, which fails where the number does not fit the width.
pub record Mlir : Type 0 where
  pub const_int : ℕ → ℤ → Result ℕ
  pub addi : ℕ → ℕ → ℕ → ℕ
  pub subi : ℕ → ℕ → ℕ → ℕ
  pub muli : ℕ → ℕ → ℕ → ℕ
  pub divui : ℕ → ℕ → ℕ → ℕ
  pub remui : ℕ → ℕ → ℕ → ℕ
  pub shrui : ℕ → ℕ → ℕ → ℕ
  pub extui : ℕ → ℕ → ℕ → ℕ
  pub extsi : ℕ → ℕ → ℕ → ℕ
  pub trunci : ℕ → ℕ → ℕ → ℕ
  pub cmpi : CmpiPredicate → ℕ → ℕ → ℕ → Bool
  pub andi : ℕ → ℕ → ℕ → ℕ
  pub xori : ℕ → ℕ → ℕ → ℕ
  pub ori : ℕ → ℕ → ℕ → ℕ
  pub absi : ℕ → ℕ → ℕ
  pub bswap : ℕ → ℕ → ℕ
  pub mului_extended : ℕ → ℕ → ℕ → ℕ × ℕ
  pub uadd_with_overflow : ℕ → ℕ → ℕ → ℕ × Bool
  pub usub_with_overflow : ℕ → ℕ → ℕ → ℕ × Bool
  pub sadd_with_overflow : ℕ → ℕ → ℕ → ℕ × Bool
  pub ssub_with_overflow : ℕ → ℕ → ℕ → ℕ × Bool
  pub uadd_sat : ℕ → ℕ → ℕ → ℕ
  pub usub_sat : ℕ → ℕ → ℕ → ℕ

-- The integer that a pattern stands for in two's complement.
abbrev pub signed : ℕ → ℕ → ℤ
signed w x = if ltb x (2 ^ (w - 1)) then pos x else negsuc (2 ^ w - x - 1)

-- The test that a predicate makes on two patterns of one width.
abbrev pub compares : CmpiPredicate → ℕ → ℕ → ℕ → Bool
compares eq w x y = x == y
compares ne w x y = if x == y then Bool.false else Bool.true
compares slt w x y = ltb_ℤ (signed w x) (signed w y)
compares sle w x y = leb_ℤ (signed w x) (signed w y)
compares sgt w x y = ltb_ℤ (signed w y) (signed w x)
compares sge w x y = leb_ℤ (signed w y) (signed w x)
compares ult w x y = ltb x y
compares ule w x y = leb x y
compares ugt w x y = ltb y x
compares uge w x y = leb y x

-- A result and whether it lies outside the patterns, read as signed or as unsigned.
abbrev pub unsigned_overflow : ℕ → ℤ → ℕ × Bool
unsigned_overflow w z = (wrap w z, not (leb_ℤ (pos 0) z && ltb_ℤ z (pos (2 ^ w))))

abbrev pub signed_overflow : ℕ → ℤ → ℕ × Bool
signed_overflow w z =
    (wrap w z, not (leb_ℤ (negsuc (2 ^ (w - 1) - 1)) z && ltb_ℤ z (pos (2 ^ (w - 1)))))

-- What the dialect documents. A division by zero and a shift by the width or more are undefined.
-- Of `bswap` no law is used.
pub record IsMlir (m : Mlir) : Type 0 where
  pub const_int_pos : (w n : ℕ) → n < 2 ^ w → m.const_int w (pos n) ≡ ok n
  pub const_int_negsuc : (w n : ℕ) → n < 2 ^ (w - 1) → m.const_int w (negsuc n) ≡ ok (2 ^ w - suc n)
  pub addi_lem : (w x y : ℕ) → x < 2 ^ w → y < 2 ^ w → m.addi w x y ≡ (x + y) % 2 ^ w
  pub subi_lem : (w x y : ℕ) → x < 2 ^ w → y < 2 ^ w → m.subi w x y ≡ (x + 2 ^ w - y) % 2 ^ w
  pub muli_lem : (w x y : ℕ) → x < 2 ^ w → y < 2 ^ w → m.muli w x y ≡ x * y % 2 ^ w
  pub divui_lem : (w x y : ℕ) → x < 2 ^ w → y < 2 ^ w → 0 < y → m.divui w x y ≡ x / y
  pub remui_lem : (w x y : ℕ) → x < 2 ^ w → y < 2 ^ w → 0 < y → m.remui w x y ≡ x % y
  pub shrui_lem : (w x k : ℕ) → x < 2 ^ w → k < w → m.shrui w x k ≡ x / 2 ^ k
  pub extui_lem : (v w x : ℕ) → v ≤ w → x < 2 ^ v → m.extui v w x ≡ x
  pub extsi_lem : (v w x : ℕ) → 0 < v → v ≤ w → x < 2 ^ v → m.extsi v w x ≡ wrap w (signed v x)
  pub trunci_lem : (v w x : ℕ) → w ≤ v → x < 2 ^ v → m.trunci v w x ≡ x % 2 ^ w
  pub cmpi_lem :
      (p : CmpiPredicate) (w x y : ℕ) → x < 2 ^ w → y < 2 ^ w → m.cmpi p w x y ≡ compares p w x y
  pub absi_lem : (w x : ℕ) → 0 < w → x < 2 ^ w → m.absi w x ≡ wrap w (pos (nat_abs (signed w x)))
  pub mului_extended_lem :
      (w x y : ℕ) → x < 2 ^ w → y < 2 ^ w → m.mului_extended w x y ≡ (x * y % 2 ^ w, x * y / 2 ^ w)
  pub uadd_with_overflow_lem :
      (w x y : ℕ)
      → x < 2 ^ w
      → y < 2 ^ w
      → m.uadd_with_overflow w x y ≡ unsigned_overflow w (pos x +ℤ pos y)
  pub usub_with_overflow_lem :
      (w x y : ℕ)
      → x < 2 ^ w
      → y < 2 ^ w
      → m.usub_with_overflow w x y ≡ unsigned_overflow w (pos x -ℤ pos y)
  pub sadd_with_overflow_lem :
      (w x y : ℕ)
      → 0 < w
      → x < 2 ^ w
      → y < 2 ^ w
      → m.sadd_with_overflow w x y ≡ signed_overflow w (signed w x +ℤ signed w y)
  pub ssub_with_overflow_lem :
      (w x y : ℕ)
      → 0 < w
      → x < 2 ^ w
      → y < 2 ^ w
      → m.ssub_with_overflow w x y ≡ signed_overflow w (signed w x -ℤ signed w y)
  pub uadd_sat_lem :
      (w x y : ℕ) → x < 2 ^ w → y < 2 ^ w → m.uadd_sat w x y ≡ min (x + y) (2 ^ w - 1)
  pub usub_sat_lem : (w x y : ℕ) → x < 2 ^ w → y < 2 ^ w → m.usub_sat w x y ≡ x - y
  pub andi_lem : (w x y : ℕ) → x < 2 ^ w → y < 2 ^ w → m.andi w x y ≡ bit_and x y
  pub xori_lem : (w x y : ℕ) → x < 2 ^ w → y < 2 ^ w → m.xori w x y ≡ bit_xor x y
  pub ori_lem : (w x y : ℕ) → x < 2 ^ w → y < 2 ^ w → m.ori w x y ≡ bit_or x y
