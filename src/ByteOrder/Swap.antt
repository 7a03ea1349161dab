-- ===== src/ByteOrder/Swap.antt =====
-- A byte swap of inc/dragonstub/linux/swab.h reverses the bytes of a word.
use native.Mathlib.Nat.{mod-eq_of_lt}
use dragon_stub.Base.Fields.{bit_and-field}
use dragon_stub.ByteOrder.Bytes.{
  le_bytes, le_value, le_bytes-le_value, fields-below, or_bytes16, or_bytes32, or_bytes64,
  reversed-below,
}
use dragon_stub.ByteOrder.{
  constant_swab16, constant_swab32, constant_swab64, swab16, swab32, swab64,
}
use dragon_stub.Base.{ℕ, ◌/◌, ◌%◌, ◌^◌, ◌<◌, ◌≡◌, refl, ap, sym, ◌∙◌, arith, List, [], ◌∷◌, reverse}

-- constant_swab16 has the bytes of its operand in the other order.
pub swab16-le_value : (x : ℕ) → x < 2 ^ 16 → swab16 x ≡ le_value (reverse (le_bytes 2 x))
unfolding constant_swab16
swab16-le_value x h =
    rw
      (
        mod-eq_of_lt {n = x} {m = 2 ^ 16} h,
        bit_and-field 0 8 x 0xff refl refl,
        bit_and-field 8 8 x 0xff00 refl refl,
        or_bytes16 (x / 2 ^ 0 % 2 ^ 8) (x / 2 ^ 8 % 2 ^ 8) (fields-below x (0 ∷ 8 ∷ [])),
      )
      (omega arith)

-- constant_swab32 has the bytes of its operand in the other order.
pub swab32-le_value : (x : ℕ) → x < 2 ^ 32 → swab32 x ≡ le_value (reverse (le_bytes 4 x))
unfolding constant_swab32
swab32-le_value x h =
    rw
      (
        mod-eq_of_lt {n = x} {m = 2 ^ 32} h,
        bit_and-field 0 8 x 0xff refl refl,
        bit_and-field 8 8 x 0xff00 refl refl,
        bit_and-field 16 8 x 0xff0000 refl refl,
        bit_and-field 24 8 x 0xff000000 refl refl,
        or_bytes32 (x / 2 ^ 0 % 2 ^ 8) (x / 2 ^ 8 % 2 ^ 8) (x / 2 ^ 16 % 2 ^ 8) (x / 2 ^ 24 % 2 ^ 8)
            (fields-below x (0 ∷ 8 ∷ 16 ∷ 24 ∷ [])),
      )
      (omega arith)

-- constant_swab64 has the bytes of its operand in the other order.
pub swab64-le_value : (x : ℕ) → x < 2 ^ 64 → swab64 x ≡ le_value (reverse (le_bytes 8 x))
unfolding constant_swab64
swab64-le_value x h =
    rw
      (
        mod-eq_of_lt {n = x} {m = 2 ^ 64} h,
        bit_and-field 0 8 x 0xff refl refl,
        bit_and-field 8 8 x 0xff00 refl refl,
        bit_and-field 16 8 x 0xff0000 refl refl,
        bit_and-field 24 8 x 0xff000000 refl refl,
        bit_and-field 32 8 x 0xff00000000 refl refl,
        bit_and-field 40 8 x 0xff0000000000 refl refl,
        bit_and-field 48 8 x 0xff000000000000 refl refl,
        bit_and-field 56 8 x 0xff00000000000000 refl refl,
        or_bytes64 (x / 2 ^ 0 % 2 ^ 8) (x / 2 ^ 8 % 2 ^ 8) (x / 2 ^ 16 % 2 ^ 8) (x / 2 ^ 24 % 2 ^ 8)
            (x / 2 ^ 32 % 2 ^ 8) (x / 2 ^ 40 % 2 ^ 8) (x / 2 ^ 48 % 2 ^ 8) (x / 2 ^ 56 % 2 ^ 8)
            (fields-below x (0 ∷ 8 ∷ 16 ∷ 24 ∷ 32 ∷ 40 ∷ 48 ∷ 56 ∷ [])),
      )
      (omega arith)

pub swab16-reverse : (x : ℕ) → x < 2 ^ 16 → le_bytes 2 (swab16 x) ≡ reverse (le_bytes 2 x)
swab16-reverse x h =
    rw (swab16-le_value x h) (le_bytes-le_value (reverse (le_bytes 2 x)) (reversed-below 2 x))

-- The operand is cast.
swab16-cast : (x : ℕ) → swab16 (x % 2 ^ 16) ≡ swab16 x
unfolding constant_swab16
swab16-cast x = rw (mod-eq_of_lt {n = x % 2 ^ 16} {m = 2 ^ 16} (omega arith)) refl

pub swab16-lt : (x : ℕ) → swab16 x < 2 ^ 16
swab16-lt x = rw (← swab16-cast x, swab16-le_value (x % 2 ^ 16) (omega arith)) (omega arith)

swab16-twice : (x : ℕ) → x < 2 ^ 16 → swab16 (swab16 x) ≡ x
swab16-twice x h =
    swab16-le_value (swab16 x) (swab16-lt x)
    ∙ (ap (λ (bs : List ℕ). le_value (reverse bs)) (swab16-reverse x h) ∙ omega arith)

pub swab16-swab16 : (x : ℕ) → swab16 (swab16 x) ≡ x % 2 ^ 16
swab16-swab16 x = ap swab16 (sym (swab16-cast x)) ∙ swab16-twice (x % 2 ^ 16) (omega arith)

pub swab32-reverse : (x : ℕ) → x < 2 ^ 32 → le_bytes 4 (swab32 x) ≡ reverse (le_bytes 4 x)
swab32-reverse x h =
    rw (swab32-le_value x h) (le_bytes-le_value (reverse (le_bytes 4 x)) (reversed-below 4 x))

-- The operand is cast.
swab32-cast : (x : ℕ) → swab32 (x % 2 ^ 32) ≡ swab32 x
unfolding constant_swab32
swab32-cast x = rw (mod-eq_of_lt {n = x % 2 ^ 32} {m = 2 ^ 32} (omega arith)) refl

pub swab32-lt : (x : ℕ) → swab32 x < 2 ^ 32
swab32-lt x = rw (← swab32-cast x, swab32-le_value (x % 2 ^ 32) (omega arith)) (omega arith)

swab32-twice : (x : ℕ) → x < 2 ^ 32 → swab32 (swab32 x) ≡ x
swab32-twice x h =
    swab32-le_value (swab32 x) (swab32-lt x)
    ∙ (ap (λ (bs : List ℕ). le_value (reverse bs)) (swab32-reverse x h) ∙ omega arith)

pub swab32-swab32 : (x : ℕ) → swab32 (swab32 x) ≡ x % 2 ^ 32
swab32-swab32 x = ap swab32 (sym (swab32-cast x)) ∙ swab32-twice (x % 2 ^ 32) (omega arith)

pub swab64-reverse : (x : ℕ) → x < 2 ^ 64 → le_bytes 8 (swab64 x) ≡ reverse (le_bytes 8 x)
swab64-reverse x h =
    rw (swab64-le_value x h) (le_bytes-le_value (reverse (le_bytes 8 x)) (reversed-below 8 x))

-- The operand is cast.
swab64-cast : (x : ℕ) → swab64 (x % 2 ^ 64) ≡ swab64 x
unfolding constant_swab64
swab64-cast x = rw (mod-eq_of_lt {n = x % 2 ^ 64} {m = 2 ^ 64} (omega arith)) refl

pub swab64-lt : (x : ℕ) → swab64 x < 2 ^ 64
swab64-lt x = rw (← swab64-cast x, swab64-le_value (x % 2 ^ 64) (omega arith)) (omega arith)

swab64-twice : (x : ℕ) → x < 2 ^ 64 → swab64 (swab64 x) ≡ x
swab64-twice x h =
    swab64-le_value (swab64 x) (swab64-lt x)
    ∙ (ap (λ (bs : List ℕ). le_value (reverse bs)) (swab64-reverse x h) ∙ omega arith)

pub swab64-swab64 : (x : ℕ) → swab64 (swab64 x) ≡ x % 2 ^ 64
swab64-swab64 x = ap swab64 (sym (swab64-cast x)) ∙ swab64-twice (x % 2 ^ 64) (omega arith)

-- The swaps of 16, 32 and 64 bits have the bytes of their operand, which has that many bits, in the
-- other order.
pub swab-le_bytes :
    (x y z : ℕ)
    → x < 2 ^ 16
    → y < 2 ^ 32
    → z < 2 ^ 64
    → (le_bytes 2 (swab16 x) ≡ reverse (le_bytes 2 x))
      × (le_bytes 4 (swab32 y) ≡ reverse (le_bytes 4 y))
      × (le_bytes 8 (swab64 z) ≡ reverse (le_bytes 8 z))
swab-le_bytes x y z hx hy hz = (swab16-reverse x hx, swab32-reverse y hy, swab64-reverse z hz)
