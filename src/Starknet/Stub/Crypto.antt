-- ===== src/Starknet/Stub/Crypto.antt =====
-- src/starknet_stub.rs: hashes and points of curves. The permutation of Keccak, the compression
-- functions of SHA-2 and the arithmetic of the curves are those of libraries: arguments.
use cairo_native.Prelude.{
  ℕ, zero, suc, ◌+◌, ◌*◌, ◌/◌, ◌%◌, ◌^◌, leb, ◌==◌, ◌||◌, ◌&&◌, Bool, if◌then◌else◌, List, [], ◌∷◌,
  Option, none, some,
}
use Prim.Native.Nat.{bit_xor, bit_or}
use cairo_native.Starknet.Info.{U256, Secp256Point}
use cairo_native.Starknet.Syscall.{SyscallResult, ok, err, ◌>>=◌, ◌>>◌, done, require, deduct_gas}
use cairo_native.Starknet.Stub.{
  keccak_cost, keccak_round_cost, step_cost, range_check_cost, bitwise_cost,
}
use cairo_native.Starknet.Stub.Storage.{Call}

-- "Invalid input length" and "Invalid argument" as felts.
abbrev pub invalid_input_length : ℕ
invalid_input_length = 419219720643212038378531765397911968408603685992

abbrev pub invalid_argument : ℕ
invalid_argument = 97607197389754475647597731678010044020

abbrev pub keccak_full_rate_in_words : ℕ
keccak_full_rate_in_words = 17

abbrev pub length : List ℕ → ℕ
length [] = 0
length (x ∷ xs) = suc (length xs)

-- `state[i] ^= val` along a chunk of the given length; the rest of the state stays.
abbrev pub absorb : ℕ → List ℕ → List ℕ → List ℕ
absorb (suc n) (s ∷ state) (x ∷ input) = bit_xor s x ∷ absorb n state input
absorb n state input = state

abbrev pub drop : ℕ → List ℕ → List ℕ
drop (suc n) (x ∷ xs) = drop n xs
drop n xs = xs

abbrev pub repeat : ℕ → ℕ → List ℕ
repeat zero x = []
repeat (suc n) x = x ∷ repeat n x

abbrev pub word_at : List ℕ → ℕ → ℕ
word_at [] i = 0
word_at (x ∷ xs) zero = x
word_at (x ∷ xs) (suc i) = word_at xs i

abbrev pub two_words : ℕ → ℕ → ℕ
two_words low high = bit_or low (high * 2 ^ 64)

module _ (f1600 : List ℕ → List ℕ) where
  -- The loop over the chunks of 17 words, of which there are `rounds`.
  unfoldable pub keccak_rounds : ℕ → List ℕ → List ℕ → Call (List ℕ)
  unfolding deduct_gas
  keccak_rounds zero input state = done state
  keccak_rounds (suc rounds) input state = do
    deduct_gas keccak_round_cost
    keccak_rounds rounds (drop keccak_full_rate_in_words input)
        (f1600 (absorb keccak_full_rate_in_words state input))

  unfoldable pub keccak : List ℕ → Call U256
  unfolding deduct_gas keccak_rounds
  keccak input = do
    deduct_gas keccak_cost
    require (length input % keccak_full_rate_in_words == 0) (invalid_input_length ∷ [])
    state ← keccak_rounds (length input / keccak_full_rate_in_words) input (repeat 25 0)
    done (record {
      hi = two_words (word_at state 2) (word_at state 3);
      lo = two_words (word_at state 0) (word_at state 1);
    })

-- The new state takes the place of the old one.
unfoldable pub sha256_process_block : (List ℕ → List ℕ → List ℕ) → List ℕ → List ℕ → Call (List ℕ)
unfolding deduct_gas
sha256_process_block compress256 state block = do
  deduct_gas (1852 * step_cost + 65 * range_check_cost + 1115 * bitwise_cost)
  done (compress256 state block)

unfoldable pub sha512_process_block : (List ℕ → List ℕ → List ℕ) → List ℕ → List ℕ → Call (List ℕ)
unfolding deduct_gas
sha512_process_block compress512 state block = do
  deduct_gas (4733 * step_cost + 65 * range_check_cost + 3320 * bitwise_cost)
  done (compress512 state block)

-- A point of a curve: two coordinates, or the point at infinity.
pub record Affine : Type 0 where
  pub x : ℕ
  pub y : ℕ
  pub infinity : Bool

-- The curve: the modulus of its field, the tests of a point, its group, and the two values of `y`
-- that a value of `x` has, the smaller one first.
pub record Curve : Type 0 where
  pub modulus : ℕ
  pub identity : Affine
  pub is_on_curve : Affine → Bool
  pub is_in_correct_subgroup : Affine → Bool
  pub plus : Affine → Affine → Affine
  pub times : Affine → ℕ → Affine
  pub get_ys_from_x : ℕ → Option (ℕ × ℕ)

unfoldable pub u256_to_biguint : U256 → ℕ
u256_to_biguint u256 = u256.hi * 2 ^ 128 + u256.lo

-- A number of four words of 64 bits.
unfoldable pub big4int_to_u256 : ℕ → U256
big4int_to_u256 n = record {
  lo = bit_or (n % 2 ^ 64) (n / 2 ^ 64 % 2 ^ 64 * 2 ^ 64);
  hi = bit_or (n / 2 ^ 128 % 2 ^ 64) (n / 2 ^ 192 % 2 ^ 64 * 2 ^ 64);
}

unfoldable pub to_point : Affine → Secp256Point
unfolding big4int_to_u256
to_point p = record { x = big4int_to_u256 p.x; y = big4int_to_u256 p.y; is_infinity = p.infinity }

module _ (curve : Curve) where
  -- A coordinate becomes an element of the field.
  unfoldable pub of_point : Secp256Point → Affine
  unfolding u256_to_biguint
  of_point p = record {
    x = u256_to_biguint p.x % curve.modulus;
    y = u256_to_biguint p.y % curve.modulus;
    infinity = p.is_infinity;
  }

  unfoldable pub maybe_affine : ℕ → ℕ → Option Affine
  maybe_affine x y =
      let ec_point =
        if x == 0 && y == 0
        then curve.identity
        else record { x = x; y = y; infinity = Bool.false } in
      if curve.is_on_curve ec_point && curve.is_in_correct_subgroup ec_point
      then some ec_point
      else none

  unfoldable pub new : U256 → U256 → SyscallResult (Option Affine)
  unfolding u256_to_biguint maybe_affine
  new x y =
      if leb curve.modulus (u256_to_biguint x) || leb curve.modulus (u256_to_biguint y)
      then err (invalid_argument ∷ [])
      else ok (maybe_affine (u256_to_biguint x) (u256_to_biguint y))

  abbrev pub of_parity : Bool → ℕ × ℕ → ℕ
  of_parity y_parity (smaller, greater) =
      if (if y_parity then smaller % 2 == 1 else smaller % 2 == 0) then smaller else greater

  abbrev pub point_at : ℕ → Bool → Option (ℕ × ℕ) → Option Affine
  point_at x y_parity none = none
  point_at x y_parity (some ys) =
      let p : Affine = record { x = x; y = of_parity y_parity ys; infinity = Bool.false } in
      if curve.is_in_correct_subgroup p then some p else none

  unfoldable pub get_point_from_x : U256 → Bool → SyscallResult (Option Affine)
  unfolding u256_to_biguint
  get_point_from_x x y_parity =
      if leb curve.modulus (u256_to_biguint x)
      then err (invalid_argument ∷ [])
      else ok (point_at (u256_to_biguint x) y_parity (curve.get_ys_from_x (u256_to_biguint x)))

abbrev map_point : SyscallResult (Option Affine) → Call (Option Secp256Point)
map_point (err e) s gas = some (s, gas, err e)
map_point (ok none) s gas = some (s, gas, ok none)
map_point (ok (some p)) s gas = some (s, gas, ok (some (to_point p)))

-- The system calls on the first curve; those on the other one differ in the curve alone.
module _ (curve : Curve) where
  unfoldable pub secp256k1_new : U256 → U256 → Call (Option Secp256Point)
  unfolding deduct_gas new
  secp256k1_new x y = do
    deduct_gas (340 * step_cost + 36 * range_check_cost)
    map_point (new curve x y)

  unfoldable pub secp256k1_add : Secp256Point → Secp256Point → Call Secp256Point
  unfolding deduct_gas
  secp256k1_add p0 p1 = do
    deduct_gas (254 * step_cost + 29 * range_check_cost)
    done (to_point (curve.plus (of_point curve p0) (of_point curve p1)))

  unfoldable pub secp256k1_mul : Secp256Point → U256 → Call Secp256Point
  unfolding deduct_gas
  secp256k1_mul p m = do
    deduct_gas (121810 * step_cost + 10739 * range_check_cost)
    done (to_point (curve.times (of_point curve p) (u256_to_biguint m)))

  unfoldable pub secp256k1_get_point_from_x : U256 → Bool → Call (Option Secp256Point)
  unfolding deduct_gas get_point_from_x
  secp256k1_get_point_from_x x y_parity = do
    deduct_gas (260 * step_cost + 29 * range_check_cost)
    map_point (get_point_from_x curve x y_parity)

unfoldable pub secp256k1_get_xy : Secp256Point → Call (U256 × U256)
unfolding deduct_gas
secp256k1_get_xy p = do deduct_gas (24 * step_cost + 9 * range_check_cost); done (p.x, p.y)

-- The other curve.
abbrev pub secp256r1_new : Curve → U256 → U256 → Call (Option Secp256Point)
secp256r1_new = secp256k1_new

abbrev pub secp256r1_add : Curve → Secp256Point → Secp256Point → Call Secp256Point
secp256r1_add = secp256k1_add

abbrev pub secp256r1_mul : Curve → Secp256Point → U256 → Call Secp256Point
secp256r1_mul = secp256k1_mul

abbrev pub secp256r1_get_point_from_x : Curve → U256 → Bool → Call (Option Secp256Point)
secp256r1_get_point_from_x = secp256k1_get_point_from_x

abbrev pub secp256r1_get_xy : Secp256Point → Call (U256 × U256)
secp256r1_get_xy = secp256k1_get_xy
