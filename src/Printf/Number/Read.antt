-- ===== src/Printf/Number/Read.antt =====
-- simple_strtoull reads back what number writes.
use mathlib.Core.List.{append_assoc, reverse-cons}
use native.Mathlib.Nat.{
  div-add-mod', pow-zero, pow-suc, div-lt_iff_lt-mul, div-le_self, div-eq_of_lt, mod-lt,
  mod-eq_of_lt,
}
use dragon_stub.Base.{
  ℕ, zero, suc, ◌+◌, ◌*◌, ◌/◌, ◌%◌, ◌^◌, ◌≤◌, ◌<◌, ◌≡◌, ◌⊎◌, refl, arith, sym, ap, ◌∙◌, Bool, true,
  false, ◌&&◌, not, List, [], ◌∷◌, ◌++◌, ◌==◌, ltb, ==_iff, Bool-cases, inl, inr, replicate,
  reverse, All, holds_below, holds_below-lt,
}
use dragon_stub.Text.CType.{isxdigit, isdigit, to_lower}
use dragon_stub.Text.Str.{digit_value, strtoull_loop}
use dragon_stub.Printf.Decimal.Digits.{decimal, put_dec-decimal}
use dragon_stub.Printf.Number.{digit_char, shift_digits, tmp_digits}

-- A digit of a base up to 16 is read as itself, and is not the 'x' of a prefix.
read_digit : Bool → ℕ → Bool
unfolding digit_char to_lower isdigit isxdigit
read_digit small d =
    isxdigit (digit_char small d)
    && ((digit_value (digit_char small d) == d) && not (to_lower (digit_char small d) == b'x'))

read_digits : (small : Bool) → holds_below (read_digit small) 16 ≡ true
unfolding read_digit holds_below
read_digits true = refl
read_digits false = refl

digit-read :
    (small : Bool) (d : ℕ)
    → d < 16
    → (isxdigit (digit_char small d) ≡ true)
      × ((digit_value (digit_char small d) ≡ d) × ((to_lower (digit_char small d) == b'x') ≡ false))
unfolding read_digit
digit-read small d lt =
    let h = holds_below-lt (read_digit small) 16 d lt (read_digits small) in
    split (isxdigit (digit_char small d)) (digit_value (digit_char small d)) d
      (to_lower (digit_char small d) == b'x') h
  where
    split :
        (a : Bool) (v d : ℕ) (x : Bool)
        → (a && ((v == d) && not x)) ≡ true
        → (a ≡ true) × ((v ≡ d) × (x ≡ false))
    split a v d x h = (ground arith, (ground arith, ground arith))

-- The bases in which number writes.
abbrev pub IsBase : ℕ → Type 0
IsBase base = (base ≡ 8) ⊎ ((base ≡ 10) ⊎ (base ≡ 16))

pub base-bounds : (base : ℕ) → IsBase base → (1 ≤ base) × ((base ≤ 16) × (2 ^ 64 ≤ base ^ 24))
base-bounds base (inl b8) = (omega (arith, b8), (omega (arith, b8), rw b8 (omega arith)))
base-bounds base (inr (inl b10)) = (omega (arith, b10), (omega (arith, b10), rw b10 (omega arith)))
base-bounds base (inr (inr b16)) = (omega (arith, b16), (omega (arith, b16), rw b16 (omega arith)))

-- One round of the loop, at the last digit of `n`.
loop-digit :
    (small : Bool) (base n : ℕ) (rest : List ℕ)
    → 1 ≤ base
    → base ≤ 16
    → n < 2 ^ 64
    → strtoull_loop base (n / base) (digit_char small (n % base) ∷ rest) ≡ strtoull_loop base n rest
unfolding strtoull_loop
loop-digit small base n rest positive small_base fits =
    let lt : n % base < base = mod-lt n (omega arith) in
    let read = digit-read small (n % base) (omega arith) in
    let below : ltb (n % base) base ≡ true = ground arith in
    let value : (n / base * base + n % base) % 2 ^ 64 ≡ n =
      rw (div-add-mod' n base) (omega arith) in
    rw (read.0, read.1.0, below, value) refl

-- The loop over the digits of `n`, after which it has the value `n`.
pub loop-digits :
    (fuel : ℕ) (small : Bool) (base n : ℕ) (rest : List ℕ)
    → 1 ≤ base
    → base ≤ 16
    → n < 2 ^ 64
    → n < base ^ fuel
    → strtoull_loop base 0 (reverse (shift_digits fuel small base n) ++ rest)
      ≡ strtoull_loop base n rest
unfolding shift_digits
loop-digits zero small base n rest positive small_base fits short =
    let none_left : n ≡ 0 = omega (arith, pow-zero base) in rw none_left refl
loop-digits (suc fuel) small base n rest positive small_base fits short =
    let c = digit_char small (n % base) in
    let last = loop-digit small base n rest positive small_base fits in
    elim (Bool-cases (n / base == 0)) [
      | inl ends ↦
          let zero_left : n / base ≡ 0 = ground arith in
          rw ends (ap (λ k. strtoull_loop base k (c ∷ rest)) (sym zero_left) ∙ last)
      | inr more ↦
          let smaller : n / base < 2 ^ 64 = omega (arith, div-le_self n base) in
          let shorter : n / base < base ^ fuel =
            (div-lt_iff_lt-mul (omega arith)).1 (rw (sym (pow-suc base fuel)) short) in
          rw
            (
              more,
              reverse-cons c (shift_digits fuel small base (n / base)),
              append_assoc (reverse (shift_digits fuel small base (n / base))) (c ∷ []) rest,
            )
            (loop-digits fuel small base (n / base) (c ∷ rest) positive small_base smaller shorter
              ∙ last)
    ]

-- What number writes for a digit.
unfoldable pub DigitChar : ℕ → Type 0
DigitChar c = (isxdigit c ≡ true) × ((to_lower c == b'x') ≡ false)

pub All-append : (s t : List ℕ) → All DigitChar s → All DigitChar t → All DigitChar (s ++ t)
All-append [] t first second = second
All-append (c ∷ s) t first second = (first.0, All-append s t first.1 second)

pub All-reverse : (s : List ℕ) → All DigitChar s → All DigitChar (reverse s)
All-reverse [] all = tt
All-reverse (c ∷ s) all =
    rw (reverse-cons c s) (All-append (reverse s) (c ∷ []) (All-reverse s all.1) (all.0, tt))

pub All-zeros : (k : ℕ) → All DigitChar (replicate k b'0')
unfolding DigitChar isxdigit to_lower
All-zeros zero = tt
All-zeros (suc k) = ((refl, refl), All-zeros k)

pub All-shift_digits :
    (fuel : ℕ) (small : Bool) (base n : ℕ)
    → 1 ≤ base
    → base ≤ 16
    → All DigitChar (shift_digits fuel small base n)
unfolding shift_digits DigitChar
All-shift_digits zero small base n positive small_base = tt
All-shift_digits (suc fuel) small base n positive small_base =
    let lt : n % base < base = mod-lt n (omega arith) in
    let read = digit-read small (n % base) (omega arith) in
    elim (Bool-cases (n / base == 0)) [
      | inl ends ↦ rw ends ((read.0, read.1.1), tt)
      | inr more ↦
          rw more
            ((read.0, read.1.1), All-shift_digits fuel small base (n / base) positive small_base)
    ]

digit_char-decimal : (small : Bool) (d : ℕ) → d < 10 → digit_char small d ≡ d + b'0'
unfolding digit_char holds_below
digit_char-decimal small d lt =
    (==_iff _ _).0 (holds_below-lt (λ k. digit_char small k == k + b'0') 10 d lt (table small))
  where
    table : (small : Bool) → holds_below (λ k. digit_char small k == k + b'0') 10 ≡ true
    table true = refl
    table false = refl

decimal-shift_digits :
    (count : ℕ) (small : Bool) (n : ℕ) → decimal count n ≡ shift_digits count small 10 n
unfolding shift_digits
decimal-shift_digits zero small n = refl
decimal-shift_digits (suc count) small n =
    let ends : ltb n 10 ≡ (n / 10 == 0) = ground arith in
    rw
      (
        ends,
        digit_char-decimal small (n % 10) (omega arith),
        decimal-shift_digits count small (n / 10),
      )
      refl

-- The digits, whichever way they are made.
pub tmp_digits-shift_digits :
    (small : Bool) (base n : ℕ)
    → IsBase base
    → n < 2 ^ 64
    → tmp_digits small base n ≡ shift_digits 24 small base n
unfolding tmp_digits shift_digits
tmp_digits-shift_digits small base n is_base fits = elim (Bool-cases (ltb n base)) [
  | inl one ↦ rw one (single 23 small base n (ground arith))
  | inr more ↦ elim (Bool-cases (base == 10)) [
    | inr other ↦ rw (more, other) refl
    | inl ten ↦
        let b10 : base ≡ 10 = ground arith in
        rw (more, ten, b10) (put_dec-decimal n fits ∙ decimal-shift_digits 24 small n)
  ]
]
  where
    single :
        (fuel : ℕ) (small : Bool) (base n : ℕ)
        → n < base
        → digit_char small n ∷ [] ≡ shift_digits (suc fuel) small base n
    single fuel small base n lt =
        let all : n % base ≡ n = mod-eq_of_lt lt in
        let none_left : n / base ≡ 0 = div-eq_of_lt lt in rw (all, none_left) refl
