-- ===== src/Num/Wrap.antt =====
-- Residues of integers modulo 2 ^ w: the bit pattern of an integer in a w-bit word.
use cairo_native.Prelude.{
  ℕ, zero, suc, ◌+◌, ◌-◌, ◌*◌, ◌/◌, ◌%◌, ◌^◌, ◌≤◌, ◌<◌, ◌≡◌, refl, sym, ap, ◌∙◌, arith,
}
use cairo_native.Prelude.Int.{
  ℤ, pos, negsuc, pos_part, neg_part, ◌+ℤ◌, ◌-ℤ◌, ◌*ℤ◌, +ℤ_parts, -ℤ_parts, pos_part-*ℤ,
  neg_part-*ℤ,
}
use cairo_native.Num.Bits.{two_pow_pos, two_pow_dvd}
use native.Mathlib.Nat.{
  mul_comm, add-zero, mod-zero, mod-lt, mod-eq_of_lt, mod-add-mod, add-mod, add-mul-mod_self_right,
  mod-add-div', mod-mod, mod-mod_of_dvd, add-mod_right,
}

-- Two numbers that leave the same rest.
abbrev pub Congruent : ℕ → ℕ → ℕ → Type 0
Congruent m a b = a % m ≡ b % m

pub Congruent-add :
    (m a b c d : ℕ) → Congruent m a b → Congruent m c d → Congruent m (a + c) (b + d)
Congruent-add m a b c d h k = rw (add-mod a c m, add-mod b d m, h, k)

mul-mod_left : (m a c : ℕ) → Congruent m (a % m * c) (a * c)
mul-mod_left m a c = sym (ap (λ t. t % m) split ∙ add-mul-mod_self_right (a % m * c) (a / m * c) m)
  where
    split : a * c ≡ a % m * c + a / m * c * m
    split = omega (arith, ap (λ (t : ℕ). t * c) (mod-add-div' a m))

pub Congruent-mul :
    (m a b c d : ℕ) → Congruent m a b → Congruent m c d → Congruent m (a * c) (b * d)
Congruent-mul m a b c d h k =
    sym (mul-mod_left m a c)
    ∙ ap (λ t. t * c % m) h
    ∙ mul-mod_left m b c
    ∙ ap (λ t. t % m) (mul_comm b c)
    ∙ sym (mul-mod_left m c b)
    ∙ ap (λ t. t * b % m) k
    ∙ mul-mod_left m d b
    ∙ ap (λ t. t % m) (mul_comm d b)

-- A summand can be taken away on both sides.
pub Congruent-cancel : (m a b c : ℕ) → Congruent m (a + c) (b + c) → Congruent m a b
Congruent-cancel zero a b c h =
    omega (arith, mod-zero a, mod-zero b, mod-zero (a + c), mod-zero (b + c))
Congruent-cancel (suc k) a b c h =
    sym (fill a) ∙ Congruent-add (suc k) (a + c) (b + c) (c * k) (c * k) h refl ∙ fill b
  where
    fill : (x : ℕ) → Congruent (suc k) (x + c + c * k) x
    fill x = ap (λ t. t % suc k) (omega arith) ∙ add-mul-mod_self_right x c (suc k)

-- The bit pattern of an integer in a word of `w` bits, in two's complement.
unfoldable pub wrap : ℕ → ℤ → ℕ
wrap w (pos n) = n % 2 ^ w
wrap w (negsuc n) = 2 ^ w - 1 - n % 2 ^ w

pub wrap-lt : (w : ℕ) (z : ℤ) → wrap w z < 2 ^ w
unfolding wrap
wrap-lt w (pos n) = mod-lt n (two_pow_pos w)
wrap-lt w (negsuc n) = omega (arith, two_pow_pos w)

pub wrap-Congruent : (w : ℕ) (z : ℤ) → Congruent (2 ^ w) (wrap w z + neg_part z) (pos_part z)
unfolding wrap
wrap-Congruent w (pos n) = rw add-zero (mod-mod n (2 ^ w))
wrap-Congruent w (negsuc n) =
    ap (λ t. t % 2 ^ w) whole ∙ add-mul-mod_self_right 0 (n / 2 ^ w + 1) (2 ^ w)
  where
    whole : 2 ^ w - 1 - n % 2 ^ w + suc n ≡ 0 + (n / 2 ^ w + 1) * 2 ^ w
    whole = omega (arith, mod-add-div' n (2 ^ w), mod-lt n (two_pow_pos w))

pub eq-wrap :
    (w x : ℕ) (z : ℤ) → x < 2 ^ w → Congruent (2 ^ w) (x + neg_part z) (pos_part z) → x ≡ wrap w z
eq-wrap w x z h c =
    sym (mod-eq_of_lt h)
    ∙ Congruent-cancel (2 ^ w) x (wrap w z) (neg_part z) (c ∙ sym (wrap-Congruent w z))
    ∙ mod-eq_of_lt (wrap-lt w z)

-- A number that fits is its own pattern.
pub wrap-pos : (w n : ℕ) → n < 2 ^ w → wrap w (pos n) ≡ n
unfolding wrap
wrap-pos w n h = mod-eq_of_lt h

module _ (w : ℕ) (a b : ℤ) where
  pub wrap-+ℤ : (wrap w a + wrap w b) % 2 ^ w ≡ wrap w (a +ℤ b)
  wrap-+ℤ = eq-wrap w _ _ (mod-lt _ (two_pow_pos w)) (
      mod-add-mod (wrap w a + wrap w b) (2 ^ w) (neg_part (a +ℤ b)) ∙ Congruent-cancel _ _ _ k core)
    where
      k : ℕ
      k = neg_part a + neg_part b

      core : Congruent (2 ^ w) (wrap w a + wrap w b + neg_part (a +ℤ b) + k) (pos_part (a +ℤ b) + k)
      core =
          ap (λ t. t % 2 ^ w) (omega arith)
          ∙ Congruent-add (2 ^ w) (wrap w a + neg_part a) (pos_part a) _ _ (wrap-Congruent w a) (
              Congruent-add (2 ^ w) (wrap w b + neg_part b) (pos_part b) (neg_part (a +ℤ b)) _
                (wrap-Congruent w b) refl)
          ∙ ap (λ t. t % 2 ^ w) (omega (arith, +ℤ_parts a b))

  pub wrap--ℤ : (wrap w a + 2 ^ w - wrap w b) % 2 ^ w ≡ wrap w (a -ℤ b)
  wrap--ℤ =
      eq-wrap w _ _ (mod-lt _ (two_pow_pos w))
        (mod-add-mod v (2 ^ w) n ∙ Congruent-cancel _ _ _ (neg_part a + pos_part b) core)
    where
      v : ℕ
      v = wrap w a + 2 ^ w - wrap w b

      n : ℕ
      n = neg_part (a -ℤ b)

      core :
          Congruent
            (2 ^ w)
            (v + n + (neg_part a + pos_part b))
            (pos_part (a -ℤ b) + (neg_part a + pos_part b))
      core =
          Congruent-add (2 ^ w) (v + n) (v + n) _ _ refl (
            Congruent-add (2 ^ w) (neg_part a) (neg_part a) (pos_part b) (wrap w b + neg_part b)
              refl (sym (wrap-Congruent w b)))
          ∙ ap (λ t. t % 2 ^ w) (omega (arith, wrap-lt w b))
          ∙ Congruent-add (2 ^ w) (wrap w a + neg_part a) (pos_part a) (n + neg_part b + 2 ^ w)
              (n + neg_part b) (wrap-Congruent w a) (add-mod_right (n + neg_part b) (2 ^ w))
          ∙ ap (λ t. t % 2 ^ w) (omega (arith, -ℤ_parts a b))

  pub wrap-*ℤ : wrap w a * wrap w b % 2 ^ w ≡ wrap w (a *ℤ b)
  wrap-*ℤ =
      eq-wrap w _ _ (mod-lt _ (two_pow_pos w))
        (mod-add-mod (x * y) (2 ^ w) (neg_part (a *ℤ b)) ∙ simp (neg_part-*ℤ, pos_part-*ℤ) core)
    where
      x : ℕ
      x = wrap w a

      y : ℕ
      y = wrap w b

      core :
          Congruent
            (2 ^ w)
            (x * y + (pos_part a * neg_part b + neg_part a * pos_part b))
            (pos_part a * pos_part b + neg_part a * neg_part b)
      core =
          Congruent-add (2 ^ w) (x * y) (x * y) _ _ refl (
            Congruent-add (2 ^ w) (pos_part a * neg_part b) ((x + neg_part a) * neg_part b)
              (neg_part a * pos_part b) (neg_part a * (y + neg_part b))
              (Congruent-mul (2 ^ w) (pos_part a) (x + neg_part a) (neg_part b) (neg_part b)
                (sym (wrap-Congruent w a)) refl)
              (Congruent-mul (2 ^ w) (neg_part a) (neg_part a) (pos_part b) (y + neg_part b) refl
                (sym (wrap-Congruent w b))))
          ∙ ap (λ t. t % 2 ^ w) (omega arith)
          ∙ Congruent-add (2 ^ w) ((x + neg_part a) * (y + neg_part b)) (pos_part a * pos_part b)
              (neg_part a * neg_part b) (neg_part a * neg_part b)
              (Congruent-mul (2 ^ w) (x + neg_part a) (pos_part a) (y + neg_part b) (pos_part b)
                (wrap-Congruent w a) (wrap-Congruent w b))
              refl

-- Cutting a pattern down keeps the integer that it stands for.
pub wrap-mod : (v w : ℕ) (z : ℤ) → v ≤ w → wrap w z % 2 ^ v ≡ wrap v z
wrap-mod v w z h = eq-wrap v _ z (mod-lt _ (two_pow_pos v)) (
    mod-add-mod (wrap w z) (2 ^ v) (neg_part z)
    ∙ sym (mod-mod_of_dvd (2 ^ v) (wrap w z + neg_part z) (two_pow_dvd v w h))
    ∙ ap (λ t. t % 2 ^ v) (wrap-Congruent w z)
    ∙ mod-mod_of_dvd (2 ^ v) (pos_part z) (two_pow_dvd v w h))
