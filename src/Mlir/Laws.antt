-- ===== src/Mlir/Laws.antt =====
-- The operations on the patterns of integers: each gives the pattern of the integer result.
use cairo_native.Prelude.{ℕ, suc, ◌-◌, ◌%◌, ◌^◌, ◌≤◌, ◌≡◌, ◌∙◌, arith}
use cairo_native.Prelude.Int.{ℤ, pos, negsuc, ◌+ℤ◌, ◌-ℤ◌, ◌*ℤ◌, ◌≤ℤ◌, ◌<ℤ◌}
use cairo_native.Num.Bits.{two_pow_pos, two_pow_suc}
use cairo_native.Num.Wrap.{wrap, wrap-lt, wrap-+ℤ, wrap--ℤ, wrap-*ℤ, wrap-mod}
use native.Mathlib.Nat.{mod-eq_of_lt}
use cairo_native.Mlir.Defs.{Mlir, IsMlir, signed}

module _ {m : Mlir} (laws : IsMlir m) where
  pub addi-wrap : (w : ℕ) (a b : ℤ) → m.addi w (wrap w a) (wrap w b) ≡ wrap w (a +ℤ b)
  addi-wrap w a b = laws.addi_lem w _ _ (wrap-lt w a) (wrap-lt w b) ∙ wrap-+ℤ w a b

  pub subi-wrap : (w : ℕ) (a b : ℤ) → m.subi w (wrap w a) (wrap w b) ≡ wrap w (a -ℤ b)
  subi-wrap w a b = laws.subi_lem w _ _ (wrap-lt w a) (wrap-lt w b) ∙ wrap--ℤ w a b

  pub muli-wrap : (w : ℕ) (a b : ℤ) → m.muli w (wrap w a) (wrap w b) ≡ wrap w (a *ℤ b)
  muli-wrap w a b = laws.muli_lem w _ _ (wrap-lt w a) (wrap-lt w b) ∙ wrap-*ℤ w a b

  pub trunci-wrap : (v w : ℕ) (a : ℤ) → w ≤ v → m.trunci v w (wrap v a) ≡ wrap w a
  trunci-wrap v w a h = laws.trunci_lem v w _ h (wrap-lt v a) ∙ wrap-mod w v a h

pub add-sub-one : (w : ℕ) → suc w - 1 ≡ w
add-sub-one w = omega arith

-- Reading a pattern as signed gives back an integer of the signed range.
pub signed-wrap :
    (w : ℕ) (a : ℤ)
    → negsuc (2 ^ w - 1) ≤ℤ a
    → a <ℤ pos (2 ^ w)
    → signed (suc w) (wrap (suc w) a) ≡ a
unfolding wrap
signed-wrap w (pos n) lo hi =
    let fits : n % 2 ^ suc w ≡ n = mod-eq_of_lt (omega (arith, two_pow_suc w, two_pow_pos w)) in
    rw (fits, add-sub-one w) (ground arith)
signed-wrap w (negsuc n) lo hi =
    let fits : n % 2 ^ suc w ≡ n = mod-eq_of_lt (omega (arith, two_pow_suc w, two_pow_pos w)) in
    rw (fits, add-sub-one w) (ground (arith, two_pow_suc w, two_pow_pos w))
