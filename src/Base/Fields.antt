-- ===== src/Base/Fields.antt =====
-- Fields of a word: the bit operations on the digits below a position and on those above it.
use dragon_stub.Base.Bits.{
  bit_and-halves, bit_or-halves, bit_xor-halves, bit_and-zero, bit_or-zero, mod-pow-suc,
  div-div_two, bit_and-low_mask,
}
use Prim.Native.Nat.{
  ℕ, zero, suc, ◌+◌, ◌-◌, ◌*◌, ◌/◌, ◌%◌, ◌^◌, ◌≤◌, ◌<◌, min, max, bit_and, bit_or, bit_xor, differ,
  bit_or-bitwise,
}
use mathlib.Core.Path.{◌≡◌, refl, ap, ◌∙◌}
use native.Mathlib.Nat.{pow-suc, mod-eq-sub-div-mul, div-mul-le_self}
use native.Mathlib.Omega.{arith}

pow-half : (a k : ℕ) → a % 2 ^ suc k / 2 ≡ a / 2 % 2 ^ k
pow-half a k = omega (arith, mod-pow-suc a k)

pow-low : (a k : ℕ) → a % 2 ^ suc k % 2 ≡ a % 2
pow-low a k = omega (arith, mod-pow-suc a k)

over_one : (a : ℕ) → a / 2 ^ 0 ≡ a
over_one a = omega arith

mod_one : (a : ℕ) → a % 2 ^ 0 ≡ 0
mod_one a = omega arith

below_one : (a : ℕ) → a < 2 ^ 0 → a ≡ 0
below_one a h = omega (arith, h)

-- An operation on binary digits works on the low digits and on the high ones apart.
module _ (op bit : ℕ → ℕ → ℕ)
    (halves : (x y : ℕ) → op x y ≡ bit (x % 2) (y % 2) + 2 * op (x / 2) (y / 2))
    (none : op 0 0 ≡ 0) where
  digits-split :
      (k a b : ℕ) → op a b ≡ op (a / 2 ^ k) (b / 2 ^ k) * 2 ^ k + op (a % 2 ^ k) (b % 2 ^ k)
  digits-split zero a b =
      let high : op (a / 2 ^ 0) (b / 2 ^ 0) ≡ op a b = rw (over_one a, over_one b) refl in
      let low : op (a % 2 ^ 0) (b % 2 ^ 0) ≡ 0 = rw (mod_one a, mod_one b) none in
      omega (arith, high, low)
  digits-split (suc k) a b =
      let low : op (a % 2 ^ suc k) (b % 2 ^ suc k)
          ≡ bit (a % 2) (b % 2) + 2 * op (a / 2 % 2 ^ k) (b / 2 % 2 ^ k) =
        halves _ _ ∙ rw (pow-low a k, pow-low b k, pow-half a k, pow-half b k) refl in
      let high : op (a / 2 / 2 ^ k) (b / 2 / 2 ^ k) ≡ op (a / 2 ^ suc k) (b / 2 ^ suc k) =
        rw (div-div_two a k, div-div_two b k) refl in
      omega (
        arith,
        halves a b,
        digits-split k (a / 2) (b / 2),
        low,
        ap (λ (t : ℕ). t * 2 ^ k) high,
        ap (λ (t : ℕ). op (a / 2 ^ suc k) (b / 2 ^ suc k) * t) (pow-suc 2 k),
      )

  -- The result has no more digits than the operands, where two digits give a digit.
  digits-lt :
      (one_digit : (x y : ℕ) → bit (x % 2) (y % 2) < 2) (k a b : ℕ)
      → a < 2 ^ k
      → b < 2 ^ k
      → op a b < 2 ^ k
  digits-lt one_digit zero a b ha hb =
      let nothing : op a b ≡ op 0 0 = rw (below_one a ha, below_one b hb) refl in
      omega (arith, nothing, none)
  digits-lt one_digit (suc k) a b ha hb = omega (
    arith,
    halves a b,
    one_digit a b,
    pow-suc 2 k,
    digits-lt one_digit k (a / 2) (b / 2) (omega (arith, pow-suc 2 k)) (omega (arith, pow-suc 2 k)),
  )

  -- The lowest byte, and the bytes above it.
  digits-byte :
      (one_digit : (x y : ℕ) → bit (x % 2) (y % 2) < 2) (a b : ℕ)
      → (op a b % 256 ≡ op (a % 256) (b % 256)) × (op a b / 256 ≡ op (a / 256) (b / 256))
  digits-byte one_digit a b =
      let low = digits-lt one_digit 8 (a % 256) (b % 256) (omega arith) (omega arith) in
      (omega (arith, digits-split 8 a b, low), omega (arith, digits-split 8 a b, low))

one_digit-min : (x y : ℕ) → min (x % 2) (y % 2) < 2
one_digit-min x y = omega arith

differ-lt : (x y : ℕ) → x < 2 → y < 2 → differ x y < 2
differ-lt zero y hx hy = hy
differ-lt (suc zero) zero hx hy = omega arith
differ-lt (suc zero) (suc zero) hx hy = omega arith
differ-lt (suc zero) (suc (suc y)) hx hy = absurd (omega (arith, hy))
differ-lt (suc (suc x)) y hx hy = absurd (omega (arith, hx))

pub bit_and-byte :
    (a b : ℕ)
    → (bit_and a b % 256 ≡ bit_and (a % 256) (b % 256))
      × (bit_and a b / 256 ≡ bit_and (a / 256) (b / 256))
bit_and-byte = digits-byte bit_and min bit_and-halves refl one_digit-min

pub bit_xor-byte :
    (a b : ℕ)
    → (bit_xor a b % 256 ≡ bit_xor (a % 256) (b % 256))
      × (bit_xor a b / 256 ≡ bit_xor (a / 256) (b / 256))
bit_xor-byte =
    digits-byte bit_xor differ bit_xor-halves refl
      (λ x y. differ-lt (x % 2) (y % 2) (omega arith) (omega arith))

pub bit_xor-lt : (k a b : ℕ) → a < 2 ^ k → b < 2 ^ k → bit_xor a b < 2 ^ k
bit_xor-lt =
    digits-lt bit_xor differ bit_xor-halves refl
      (λ x y. differ-lt (x % 2) (y % 2) (omega arith) (omega arith))

differ-same : (x : ℕ) → differ x x ≡ 0
differ-same zero = refl
differ-same (suc x) = differ-same x

bit_xor-same_below : (bound x : ℕ) → x ≤ bound → bit_xor x x ≡ 0
bit_xor-same_below zero zero le = refl
bit_xor-same_below zero (suc x) le = absurd (omega (arith, le))
bit_xor-same_below (suc bound) zero le = refl
bit_xor-same_below (suc bound) (suc x) le = omega (
  arith,
  bit_xor-halves (suc x) (suc x),
  differ-same (suc x % 2),
  bit_xor-same_below bound (suc x / 2) (omega (arith, le)),
)

pub bit_xor-same : (x : ℕ) → bit_xor x x ≡ 0
bit_xor-same x = bit_xor-same_below x x (omega arith)

pub bit_and-split :
    (k a b : ℕ)
    → bit_and a b ≡ bit_and (a / 2 ^ k) (b / 2 ^ k) * 2 ^ k + bit_and (a % 2 ^ k) (b % 2 ^ k)
bit_and-split = digits-split bit_and min bit_and-halves refl

pub bit_or-split :
    (k a b : ℕ)
    → bit_or a b ≡ bit_or (a / 2 ^ k) (b / 2 ^ k) * 2 ^ k + bit_or (a % 2 ^ k) (b % 2 ^ k)
bit_or-split = digits-split bit_or max bit_or-halves refl

zero-bit_or : (b : ℕ) → bit_or 0 b ≡ b
zero-bit_or b = bit_or-bitwise 0 b

-- `a & ((2 ^ w - 1) << k)` is the field of `w` digits from position `k` on.
pub bit_and-field :
    (k w a m : ℕ) → m / 2 ^ k ≡ 2 ^ w - 1 → m % 2 ^ k ≡ 0 → bit_and a m ≡ a / 2 ^ k % 2 ^ w * 2 ^ k
bit_and-field k w a m high low =
    bit_and-split k a m
    ∙ rw (high, low, bit_and-low_mask w (a / 2 ^ k), bit_and-zero (a % 2 ^ k)) (omega arith)

-- `a | b` is the sum where the digits of `b` end below those of `a`.
pub bit_or-above :
    (k a b : ℕ) → a % 2 ^ k ≡ 0 → b / 2 ^ k ≡ 0 → bit_or a b ≡ a / 2 ^ k * 2 ^ k + b % 2 ^ k
bit_or-above k a b low high =
    bit_or-split k a b ∙ rw (high, low, bit_or-zero (a / 2 ^ k), zero-bit_or (b % 2 ^ k)) refl

pub bit_or-add : (k a b : ℕ) → a % 2 ^ k ≡ 0 → b / 2 ^ k ≡ 0 → bit_or a b ≡ a + b
bit_or-add k a b low high = omega (
  arith,
  bit_or-above k a b low high,
  mod-eq-sub-div-mul a (2 ^ k),
  div-mul-le_self a (2 ^ k),
  mod-eq-sub-div-mul b (2 ^ k),
  div-mul-le_self b (2 ^ k),
  ap (λ (t : ℕ). t * 2 ^ k) high,
  low,
)
