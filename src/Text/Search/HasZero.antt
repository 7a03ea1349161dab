-- ===== src/Text/Search/HasZero.antt =====
-- The word test of apps/lib/string.c: HASZERO sees a zero byte wherever it stands.
use dragon_stub.Base.{
  ℕ, zero, suc, ◌+◌, ◌-◌, ◌*◌, ◌/◌, ◌%◌, ◌^◌, ◌<◌, ◌≡◌, ◌≢◌, refl, ap, ◌∙◌, sym, arith, bit_and,
  All, All-zip, leb, if◌then◌else◌,
}
use Prim.Native.Nat.{bit_xor}
use dragon_stub.Base.Fields.{bit_and-byte, bit_xor-byte, bit_xor-same, bit_xor-lt}
use dragon_stub.ByteOrder.Bytes.{le_bytes}
use dragon_stub.Text.Search.{haszero, ones, highs}
use mathlib.Core.Path.{subst}
use dragon_stub.Align.{sub64}

-- The least number of more than `n` bytes, and `n` bytes of 1.
abbrev full : ℕ → ℕ
full zero = 1
full (suc n) = 256 * full n

abbrev each_one : ℕ → ℕ
each_one zero = 0
each_one (suc n) = 1 + 256 * each_one n

each_one-lt : (n : ℕ) → each_one n < full n
each_one-lt zero = omega arith
each_one-lt (suc n) = omega (arith, each_one-lt n)

-- The test at a width of `n` bytes.
abbrev minus_ones : (n x : ℕ) → ℕ
minus_ones n x = if leb (each_one n) x then x - each_one n else x + full n - each_one n

abbrev test : (n x : ℕ) → ℕ
test n x = bit_and (bit_and (minus_ones n x) (full n - 1 - x)) (128 * each_one n)

module _ (n x : ℕ) (fits : x < full (suc n)) where
  complement_bytes :
      ((full (suc n) - 1 - x) % 256 ≡ 255 - x % 256)
      × ((full (suc n) - 1 - x) / 256 ≡ full n - 1 - x / 256)
  complement_bytes = (omega (arith, fits), omega (arith, fits))

  high_bytes :
      (128 * each_one (suc n) % 256 ≡ 128) × (128 * each_one (suc n) / 256 ≡ 128 * each_one n)
  high_bytes = (omega arith, omega arith)

  minus-zero : x % 256 ≡ 0 → minus_ones (suc n) x % 256 ≡ 255
  minus-zero h = ground (arith, fits, each_one-lt n)

  minus_bytes : x % 256 ≢ 0 → minus_ones (suc n) x / 256 ≡ minus_ones n (x / 256)
  minus_bytes h = ground (arith, fits, each_one-lt n)

  test_low :
      test (suc n) x % 256 ≡ bit_and (bit_and (minus_ones (suc n) x % 256) (255 - x % 256)) 128
  test_low =
      (bit_and-byte (bit_and (minus_ones (suc n) x) (full (suc n) - 1 - x))
        (128 * each_one (suc n))).0
      ∙ rw
          (
            (bit_and-byte (minus_ones (suc n) x) (full (suc n) - 1 - x)).0,
            complement_bytes.0,
            high_bytes.0,
          )
          refl

  test_high : x % 256 ≢ 0 → test (suc n) x / 256 ≡ test n (x / 256)
  test_high h =
      (bit_and-byte (bit_and (minus_ones (suc n) x) (full (suc n) - 1 - x))
        (128 * each_one (suc n))).1
      ∙ rw
          (
            (bit_and-byte (minus_ones (suc n) x) (full (suc n) - 1 - x)).1,
            complement_bytes.1,
            minus_bytes h,
            high_bytes.1,
          )
          refl

  -- The test is zero only if the lowest byte is not zero and the test of the others is zero.
  test_step : test (suc n) x ≡ 0 → (x % 256 ≢ 0) × (test n (x / 256) ≡ 0)
  test_step h = (nonzero, omega (arith, h, test_high nonzero))
    where
      nonzero : x % 256 ≢ 0
      nonzero e =
          let low : test (suc n) x % 256 ≡ 128 = test_low ∙ rw (minus-zero e, e) refl in
          omega (arith, h, low)

-- Where the test is zero, no byte is.
test-nonzero : (n x : ℕ) → x < full n → test n x ≡ 0 → All (λ b. b ≢ 0) (le_bytes n x)
test-nonzero zero x fits h = tt
test-nonzero (suc n) x fits h =
    let step = test_step n x fits h in
    (step.0, test-nonzero n (x / 256) (omega (arith, fits)) step.1)

haszero-test : (x : ℕ) → x < 2 ^ 64 → haszero x ≡ test 8 x
unfolding haszero
haszero-test x h =
    let difference : sub64 x ones ≡ minus_ones 8 x = ground (arith, h) in
    rw (ap (λ (d : ℕ). bit_and (bit_and d (2 ^ 64 - 1 - x)) highs) difference) refl

haszero-nonzero : (x : ℕ) → x < 2 ^ 64 → haszero x ≡ 0 → All (λ b. b ≢ 0) (le_bytes 8 x)
haszero-nonzero x fits h = test-nonzero 8 x fits (sym (haszero-test x fits) ∙ h)

abbrev each : (n c : ℕ) → ℕ
each n c = each_one n * c

each_bytes : (n c : ℕ) → c < 256 → (each (suc n) c % 256 ≡ c) × (each (suc n) c / 256 ≡ each n c)
each_bytes n c h = (omega (arith, h), omega (arith, h))

-- Exclusive or with the same byte in every place turns that byte to zero.
xor-bytes :
    (n c x : ℕ)
    → c < 256
    → All (λ b. b ≢ 0) (le_bytes n (bit_xor x (each n c)))
    → All (λ b. b ≢ c) (le_bytes n x)
xor-bytes zero c x hc h = tt
xor-bytes (suc n) c x hc h =
    let bytes = bit_xor-byte x (each (suc n) c) in
    let rest : bit_xor x (each (suc n) c) / 256 ≡ bit_xor (x / 256) (each n c) =
      bytes.1 ∙ rw (each_bytes n c hc).1 refl in
    (
      λ e. h.0 (bytes.0 ∙ rw (e, (each_bytes n c hc).0) (bit_xor-same c)),
      xor-bytes n c (x / 256) hc (subst (λ y. All (λ b. b ≢ 0) (le_bytes n y)) rest h.1),
    )

-- Where the test of a word with a byte in every place sees no zero byte, no byte is that byte.
pub haszero-differs :
    (x c : ℕ)
    → x < 2 ^ 64
    → c < 256
    → haszero (bit_xor x (ones * c % 2 ^ 64)) ≡ 0
    → All (λ b. b ≢ c) (le_bytes 8 x)
haszero-differs x c fits hc no_c =
    let pattern : ones * c % 2 ^ 64 ≡ each 8 c = omega (arith, hc) in
    let below = bit_xor-lt 64 x (each 8 c) fits (omega (arith, hc)) in
    xor-bytes 8 c x hc (haszero-nonzero (bit_xor x (each 8 c)) below (rw pattern at no_c))

-- Where neither test of a word sees a zero byte, no byte is zero and none is `c`.
pub haszero-passes :
    (x c : ℕ)
    → x < 2 ^ 64
    → c < 256
    → haszero x ≡ 0
    → haszero (bit_xor x (ones * c % 2 ^ 64)) ≡ 0
    → All (λ b. (b ≢ 0) × (b ≢ c)) (le_bytes 8 x)
haszero-passes x c fits hc no_zero no_c =
    All-zip {R = λ b. (b ≢ 0) × (b ≢ c)} (λ b p q. (p, q)) (le_bytes 8 x)
      (haszero-nonzero x fits no_zero) (haszero-differs x c fits hc no_c)
