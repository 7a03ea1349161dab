-- ===== src/Base/Bits.antt =====
-- `&` and `|` with the masks of the alignment macros, as arithmetic at every width.
use Prim.Native.Nat.{
  ℕ, zero, suc, ◌+◌, ◌-◌, ◌*◌, ◌/◌, ◌%◌, ◌^◌, ◌≤◌, ◌<◌, min, max, bit_and, bit_or, bit_xor, digits,
  differ, bit_and-bitwise, bit_or-bitwise, bit_xor-bitwise,
}
use mathlib.Core.Path.{◌≡◌, refl, ap, sym, ◌∙◌}
use native.Mathlib.Nat.{
  pow-suc, one-le-pow, mul_comm, div-div-eq-div-mul, mod-eq-sub-div-mul, div-mul-le_self,
  mod-eq_of_lt,
}
use native.Mathlib.Omega.{arith}

-- Fuel beyond the first argument changes nothing in the recursion on binary digits.
module _ (rest : ℕ → ℕ) (bit : ℕ → ℕ → ℕ) where
  enough_digits :
      (x y fuel more : ℕ)
      → (x ≤ fuel) × (x ≤ more)
      → digits rest bit fuel x y ≡ digits rest bit more x y
  enough_digits zero y zero zero le = refl
  enough_digits zero y zero (suc l) le = refl
  enough_digits zero y (suc k) zero le = refl
  enough_digits zero y (suc k) (suc l) le = refl
  enough_digits (suc x) y zero more le = absurd (omega (arith, le.0))
  enough_digits (suc x) y (suc k) zero le = absurd (omega (arith, le.1))
  enough_digits (suc x) y (suc k) (suc l) le =
      let half : (suc x / 2 ≤ k) × (suc x / 2 ≤ l) = (omega (arith, le.0), omega (arith, le.1)) in
      omega (arith, enough_digits (suc x / 2) (y / 2) k l half)

-- The lowest digit, and the digits above it.
pub bit_and-halves : (x y : ℕ) → bit_and x y ≡ min (x % 2) (y % 2) + 2 * bit_and (x / 2) (y / 2)
bit_and-halves zero y =
    let above = bit_and-bitwise 0 (y / 2) in omega (arith, above, bit_and-bitwise 0 y)
bit_and-halves (suc x) y =
    let h = suc x / 2 in
    let fuel = enough_digits (λ _. 0) min h (y / 2) x h (omega arith, omega arith) in
    omega (arith, fuel, bit_and-bitwise h (y / 2), bit_and-bitwise (suc x) y)

pub bit_or-halves : (x y : ℕ) → bit_or x y ≡ max (x % 2) (y % 2) + 2 * bit_or (x / 2) (y / 2)
bit_or-halves zero y =
    let above = bit_or-bitwise 0 (y / 2) in omega (arith, above, bit_or-bitwise 0 y)
bit_or-halves (suc x) y =
    let h = suc x / 2 in
    let fuel = enough_digits (λ y'. y') max h (y / 2) x h (omega arith, omega arith) in
    omega (arith, fuel, bit_or-bitwise h (y / 2), bit_or-bitwise (suc x) y)

pub bit_xor-halves : (x y : ℕ) → bit_xor x y ≡ differ (x % 2) (y % 2) + 2 * bit_xor (x / 2) (y / 2)
bit_xor-halves zero y =
    let above = bit_xor-bitwise 0 (y / 2) in omega (arith, above, bit_xor-bitwise 0 y)
bit_xor-halves (suc x) y =
    let h = suc x / 2 in
    let fuel = enough_digits (λ y'. y') differ h (y / 2) x h (omega arith, omega arith) in
    omega (arith, fuel, bit_xor-bitwise h (y / 2), bit_xor-bitwise (suc x) y)

bit_and-zero_below : (bound x : ℕ) → x ≤ bound → bit_and x 0 ≡ 0
bit_and-zero_below zero zero le = refl
bit_and-zero_below zero (suc x) le = absurd (omega (arith, le))
bit_and-zero_below (suc bound) zero le = refl
bit_and-zero_below (suc bound) (suc x) le =
    let above = bit_and-zero_below bound (suc x / 2) (omega (arith, le)) in
    omega (arith, above, bit_and-halves (suc x) 0)

pub bit_and-zero : (x : ℕ) → bit_and x 0 ≡ 0
bit_and-zero x = bit_and-zero_below x x (omega arith)

bit_or-zero_below : (bound x : ℕ) → x ≤ bound → bit_or x 0 ≡ x
bit_or-zero_below zero zero le = refl
bit_or-zero_below zero (suc x) le = absurd (omega (arith, le))
bit_or-zero_below (suc bound) zero le = refl
bit_or-zero_below (suc bound) (suc x) le =
    let above = bit_or-zero_below bound (suc x / 2) (omega (arith, le)) in
    omega (arith, above, bit_or-halves (suc x) 0)

pub bit_or-zero : (a : ℕ) → bit_or a 0 ≡ a
bit_or-zero a = bit_or-zero_below a a (omega arith)

pub div-div_two : (a k : ℕ) → a / 2 / 2 ^ k ≡ a / 2 ^ suc k
div-div_two a k =
    div-div-eq-div-mul a 2 (2 ^ k) ∙ ap (λ (m : ℕ). a / m) (mul_comm 2 (2 ^ k) ∙ sym (pow-suc 2 k))

-- The low digits of `a` are those of `a / 2`, and the lowest one.
pub mod-pow-suc : (a k : ℕ) → a % 2 ^ suc k ≡ a / 2 % 2 ^ k * 2 + a % 2
mod-pow-suc a k = omega (
  arith,
  mod-eq-sub-div-mul a (2 ^ suc k),
  mod-eq-sub-div-mul (a / 2) (2 ^ k),
  div-mul-le_self a (2 ^ suc k),
  div-mul-le_self (a / 2) (2 ^ k),
  div-div_two a k,
  ap (λ (t : ℕ). a / 2 ^ suc k * t) (pow-suc 2 k),
  ap (λ (t : ℕ). t * 2 ^ k) (div-div_two a k),
)

-- `a & (2 ^ k - 1)` is the remainder.
pub bit_and-low_mask : (k a : ℕ) → bit_and a (2 ^ k - 1) ≡ a % 2 ^ k
bit_and-low_mask zero a = omega (arith, bit_and-zero a)
bit_and-low_mask (suc k) a = ground (
  arith,
  bit_and-halves a (2 ^ suc k - 1),
  pow-suc 2 k,
  one-le-pow k 2,
  mod-pow-suc a k,
  bit_and-low_mask k (a / 2),
)

-- `a | (2 ^ k - 1)` fills the low digits.
pub bit_or-low_mask : (k a : ℕ) → bit_or a (2 ^ k - 1) ≡ a / 2 ^ k * 2 ^ k + (2 ^ k - 1)
bit_or-low_mask zero a = ground (arith, bit_or-zero a)
bit_or-low_mask (suc k) a = ground (
  arith,
  bit_or-halves a (2 ^ suc k - 1),
  pow-suc 2 k,
  one-le-pow k 2,
  ap (λ (t : ℕ). a / 2 ^ suc k * t) (pow-suc 2 k),
  ap (λ (t : ℕ). t * 2 ^ k) (div-div_two a k),
  bit_or-low_mask k (a / 2),
)

-- `a & ((2 ^ w - 1) << k)` clears the low digits of a number of `w + k` digits.
pub bit_and-high_mask :
    (k w a : ℕ) → a < 2 ^ w * 2 ^ k → bit_and a ((2 ^ w - 1) * 2 ^ k) ≡ a / 2 ^ k * 2 ^ k
bit_and-high_mask zero w a h =
    ap (bit_and a) (omega arith)
    ∙ (bit_and-low_mask w a ∙ omega (arith, mod-eq_of_lt {n = a} {m = 2 ^ w} (omega arith)))
bit_and-high_mask (suc k) w a h = ground (
  arith,
  bit_and-halves a ((2 ^ w - 1) * 2 ^ suc k),
  ap (λ (t : ℕ). (2 ^ w - 1) * t) (pow-suc 2 k),
  ap (λ (t : ℕ). a / 2 ^ suc k * t) (pow-suc 2 k),
  ap (λ (t : ℕ). t * 2 ^ k) (div-div_two a k),
  bit_and-high_mask k w (a / 2) (omega (arith, ap (λ (t : ℕ). 2 ^ w * t) (pow-suc 2 k))),
)
