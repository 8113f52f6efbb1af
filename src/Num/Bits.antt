-- ===== src/Num/Bits.antt =====
-- The bit length of a number (`BigUint::bits`), and what it says about powers of two.
use cairo_native.Prelude.{ℕ, zero, suc, ◌+◌, ◌-◌, ◌*◌, ◌/◌, ◌^◌, ◌≤◌, ◌<◌, ◌≡◌, arith}
use native.Mathlib.Nat.{pow-suc, pow-zero, pow-le-pow_right, add-zero, add-suc, dvd-mul_right}
use Prim.Native.Nat.{◌∣◌}
use mathlib.Core.Path.{subst}

-- 2 ^ w as a number that is at least one.
pub two_pow_pos : (w : ℕ) → 0 < 2 ^ w
two_pow_pos zero = omega arith
two_pow_pos (suc w) = rw pow-suc (omega (arith, two_pow_pos w))

pub two_pow_suc : (w : ℕ) → 2 ^ suc w ≡ 2 * 2 ^ w
two_pow_suc w = rw pow-suc (omega arith)

pub two_pow_add : (v w : ℕ) → 2 ^ (v + w) ≡ 2 ^ v * 2 ^ w
two_pow_add v zero = rw (add-zero, pow-zero) (omega arith)
two_pow_add v (suc w) =
    rw (add-suc, two_pow_suc (v + w), two_pow_suc w, two_pow_add v w) (omega arith)

pub two_pow_dvd : (v w : ℕ) → v ≤ w → 2 ^ v ∣ 2 ^ w
two_pow_dvd v w h =
    subst (λ t. 2 ^ v ∣ 2 ^ t) sum (rw two_pow_add (dvd-mul_right (2 ^ v) (2 ^ (w - v))))
  where
    sum : v + (w - v) ≡ w
    sum = omega arith

pub two_pow_mono : (v w : ℕ) → v ≤ w → 2 ^ v ≤ 2 ^ w
two_pow_mono v w h = pow-le-pow_right (omega arith) h

-- Halves `n` until nothing is left; the fuel bounds the rounds.
bits_fuel : ℕ → ℕ → ℕ
bits_fuel zero n = 0
bits_fuel (suc f) zero = 0
bits_fuel (suc f) (suc n) = suc (bits_fuel f (suc n / 2))

unfoldable pub bits : ℕ → ℕ
unfolding bits_fuel
bits n = bits_fuel n n

bits_fuel_upper : (f n : ℕ) → n ≤ f → n < 2 ^ bits_fuel f n
unfolding bits_fuel
bits_fuel_upper zero n h = omega arith
bits_fuel_upper (suc f) zero h = omega arith
bits_fuel_upper (suc f) (suc n) h =
    omega
      (arith, two_pow_suc (bits_fuel f (suc n / 2)), bits_fuel_upper f (suc n / 2) (omega arith))

bits_fuel_lower : (f n w : ℕ) → n < 2 ^ w → bits_fuel f n ≤ w
unfolding bits_fuel
bits_fuel_lower zero n w h = omega arith
bits_fuel_lower (suc f) zero w h = omega arith
bits_fuel_lower (suc f) (suc n) zero h = absurd (omega arith)
bits_fuel_lower (suc f) (suc n) (suc w) h =
    omega (arith, bits_fuel_lower f (suc n / 2) w (omega (arith, two_pow_suc w)))

-- A number fits in as many bits as it has.
pub lt-two_pow-bits : (n : ℕ) → n < 2 ^ bits n
unfolding bits
lt-two_pow-bits n = bits_fuel_upper n n (omega arith)

-- It has no more bits than any width in which it fits.
pub bits-le : (n w : ℕ) → n < 2 ^ w → bits n ≤ w
unfolding bits
bits-le n w h = bits_fuel_lower n n w h
