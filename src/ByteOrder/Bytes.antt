-- ===== src/ByteOrder/Bytes.antt =====
-- The bytes of a word, and the word of its bytes, for inc/dragonstub/linux/swab.h.
use mathlib.Core.List.{reverse_aux}
use dragon_stub.Base.Fields.{bit_or-add}
use dragon_stub.Base.{
  ℕ, zero, suc, ◌+◌, ◌*◌, ◌/◌, ◌%◌, ◌^◌, ◌<◌, ◌≡◌, refl, arith, bit_or, List, [], ◌∷◌, reverse,
  length, All, map,
}

-- The `n` low bytes of a word, the lowest first, and the word that they stand for.
abbrev pub le_bytes : (n : ℕ) → ℕ → List ℕ
le_bytes zero x = []
le_bytes (suc n) x = x % 256 ∷ le_bytes n (x / 256)

abbrev pub le_value : List ℕ → ℕ
le_value [] = 0
le_value (b ∷ bs) = b + 256 * le_value bs

pub le_bytes-le_value :
    (bs : List ℕ) → All (λ b. b < 256) bs → le_bytes (length bs) (le_value bs) ≡ bs
le_bytes-le_value [] h = refl
le_bytes-le_value (b ∷ bs) h =
    let low : (b + 256 * le_value bs) % 256 ≡ b = omega (arith, h.0) in
    let high : (b + 256 * le_value bs) / 256 ≡ le_value bs = omega (arith, h.0) in
    rw (low, high, le_bytes-le_value bs h.1) refl

pub fields-below : (x : ℕ) (ks : List ℕ) → All (λ b. b < 256) (map (λ k. x / 2 ^ k % 2 ^ 8) ks)
fields-below x [] = tt
fields-below x (k ∷ ks) = (omega arith, fields-below x ks)

-- The bytes or-ed together, where swab.h moves them.
pub or_bytes16 :
    (b0 b1 : ℕ)
    → All (λ b. b < 256) (b0 ∷ b1 ∷ [])
    → bit_or (b0 * 2 ^ 0 * 2 ^ 8) (b1 * 2 ^ 8 / 2 ^ 8) % 2 ^ 16 ≡ le_value (b1 ∷ b0 ∷ [])
or_bytes16 b0 b1 below =
    rw
      (bit_or-add 8 (b0 * 2 ^ 0 * 2 ^ 8) (b1 * 2 ^ 8 / 2 ^ 8) (omega (arith, below))
        (omega (arith, below)))
      (omega (arith, below))

pub or_bytes32 :
    (b0 b1 b2 b3 : ℕ)
    → All (λ b. b < 256) (b0 ∷ b1 ∷ b2 ∷ b3 ∷ [])
    → bit_or
        (bit_or
          (bit_or (b0 * 2 ^ 0 * 2 ^ 24 % 2 ^ 32) (b1 * 2 ^ 8 * 2 ^ 8 % 2 ^ 32))
          (b2 * 2 ^ 16 / 2 ^ 8))
        (b3 * 2 ^ 24 / 2 ^ 24)
      ≡ le_value (b3 ∷ b2 ∷ b1 ∷ b0 ∷ [])
or_bytes32 b0 b1 b2 b3 below =
    rw
      (
        bit_or-add 24 (b0 * 2 ^ 0 * 2 ^ 24 % 2 ^ 32) (b1 * 2 ^ 8 * 2 ^ 8 % 2 ^ 32)
            (omega (arith, below)) (omega (arith, below)),
        bit_or-add 16 ((b0 * 2 ^ 0 * 2 ^ 24 % 2 ^ 32) + (b1 * 2 ^ 8 * 2 ^ 8 % 2 ^ 32))
            (b2 * 2 ^ 16 / 2 ^ 8) (omega (arith, below)) (omega (arith, below)),
        bit_or-add 8
            (((b0 * 2 ^ 0 * 2 ^ 24 % 2 ^ 32) + (b1 * 2 ^ 8 * 2 ^ 8 % 2 ^ 32))
              + (b2 * 2 ^ 16 / 2 ^ 8))
            (b3 * 2 ^ 24 / 2 ^ 24) (omega (arith, below)) (omega (arith, below)),
      )
      (omega (arith, below))

pub or_bytes64 :
    (b0 b1 b2 b3 b4 b5 b6 b7 : ℕ)
    → All (λ b. b < 256) (b0 ∷ b1 ∷ b2 ∷ b3 ∷ b4 ∷ b5 ∷ b6 ∷ b7 ∷ [])
    → bit_or
        (bit_or
          (bit_or
            (bit_or
              (bit_or
                (bit_or
                  (bit_or (b0 * 2 ^ 0 * 2 ^ 56 % 2 ^ 64) (b1 * 2 ^ 8 * 2 ^ 40 % 2 ^ 64))
                  (b2 * 2 ^ 16 * 2 ^ 24 % 2 ^ 64))
                (b3 * 2 ^ 24 * 2 ^ 8 % 2 ^ 64))
              (b4 * 2 ^ 32 / 2 ^ 8))
            (b5 * 2 ^ 40 / 2 ^ 24))
          (b6 * 2 ^ 48 / 2 ^ 40))
        (b7 * 2 ^ 56 / 2 ^ 56)
      ≡ le_value (b7 ∷ b6 ∷ b5 ∷ b4 ∷ b3 ∷ b2 ∷ b1 ∷ b0 ∷ [])
or_bytes64 b0 b1 b2 b3 b4 b5 b6 b7 below =
    rw
      (
        bit_or-add 56 (b0 * 2 ^ 0 * 2 ^ 56 % 2 ^ 64) (b1 * 2 ^ 8 * 2 ^ 40 % 2 ^ 64)
            (omega (arith, below)) (omega (arith, below)),
        bit_or-add 48 ((b0 * 2 ^ 0 * 2 ^ 56 % 2 ^ 64) + (b1 * 2 ^ 8 * 2 ^ 40 % 2 ^ 64))
            (b2 * 2 ^ 16 * 2 ^ 24 % 2 ^ 64) (omega (arith, below)) (omega (arith, below)),
        bit_or-add 40
            (((b0 * 2 ^ 0 * 2 ^ 56 % 2 ^ 64) + (b1 * 2 ^ 8 * 2 ^ 40 % 2 ^ 64))
              + (b2 * 2 ^ 16 * 2 ^ 24 % 2 ^ 64))
            (b3 * 2 ^ 24 * 2 ^ 8 % 2 ^ 64) (omega (arith, below)) (omega (arith, below)),
        bit_or-add 32
            ((((b0 * 2 ^ 0 * 2 ^ 56 % 2 ^ 64) + (b1 * 2 ^ 8 * 2 ^ 40 % 2 ^ 64))
                + (b2 * 2 ^ 16 * 2 ^ 24 % 2 ^ 64))
              + (b3 * 2 ^ 24 * 2 ^ 8 % 2 ^ 64))
            (b4 * 2 ^ 32 / 2 ^ 8) (omega (arith, below)) (omega (arith, below)),
        bit_or-add 24
            (((((b0 * 2 ^ 0 * 2 ^ 56 % 2 ^ 64) + (b1 * 2 ^ 8 * 2 ^ 40 % 2 ^ 64))
                  + (b2 * 2 ^ 16 * 2 ^ 24 % 2 ^ 64))
                + (b3 * 2 ^ 24 * 2 ^ 8 % 2 ^ 64))
              + (b4 * 2 ^ 32 / 2 ^ 8))
            (b5 * 2 ^ 40 / 2 ^ 24) (omega (arith, below)) (omega (arith, below)),
        bit_or-add 16
            ((((((b0 * 2 ^ 0 * 2 ^ 56 % 2 ^ 64) + (b1 * 2 ^ 8 * 2 ^ 40 % 2 ^ 64))
                    + (b2 * 2 ^ 16 * 2 ^ 24 % 2 ^ 64))
                  + (b3 * 2 ^ 24 * 2 ^ 8 % 2 ^ 64))
                + (b4 * 2 ^ 32 / 2 ^ 8))
              + (b5 * 2 ^ 40 / 2 ^ 24))
            (b6 * 2 ^ 48 / 2 ^ 40) (omega (arith, below)) (omega (arith, below)),
        bit_or-add 8
            (((((((b0 * 2 ^ 0 * 2 ^ 56 % 2 ^ 64) + (b1 * 2 ^ 8 * 2 ^ 40 % 2 ^ 64))
                      + (b2 * 2 ^ 16 * 2 ^ 24 % 2 ^ 64))
                    + (b3 * 2 ^ 24 * 2 ^ 8 % 2 ^ 64))
                  + (b4 * 2 ^ 32 / 2 ^ 8))
                + (b5 * 2 ^ 40 / 2 ^ 24))
              + (b6 * 2 ^ 48 / 2 ^ 40))
            (b7 * 2 ^ 56 / 2 ^ 56) (omega (arith, below)) (omega (arith, below)),
      )
      (omega (arith, below))

le_bytes-below : (n x : ℕ) → All (λ b. b < 256) (le_bytes n x)
le_bytes-below zero x = tt
le_bytes-below (suc n) x = (omega arith, le_bytes-below n (x / 256))

All-reverse_aux {ℓ κ} :
    {A : Type ℓ} (P : A → Type κ) (xs acc : List A)
    → All P xs
    → All P acc
    → All P (reverse_aux xs acc)
All-reverse_aux P [] acc h k = k
All-reverse_aux P (x ∷ xs) acc h k = All-reverse_aux P xs (x ∷ acc) h.1 (h.0, k)

pub reversed-below : (n x : ℕ) → All (λ b. b < 256) (reverse (le_bytes n x))
reversed-below n x = All-reverse_aux (λ b. b < 256) (le_bytes n x) [] (le_bytes-below n x) tt
