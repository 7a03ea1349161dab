-- ===== src/Printf/Number/RoundTrip.antt =====
-- What number writes is read back by simple_strtoull.
use mathlib.Core.List.{append_assoc}
use dragon_stub.Base.{
  zero_minus, ℕ, zero, suc, ◌+◌, ◌-◌, ◌*◌, ◌%◌, ◌^◌, ◌≤◌, ◌<◌, ◌≡◌, ◌⊎◌, refl, arith, ◌∙◌, Bool,
  true, false, ◌&&◌, List, [], ◌∷◌, ◌++◌, ◌==◌, ltb, length, length-append, inl, inr, replicate,
  reverse, Bool-cases, All, get_or,
}
use dragon_stub.Base.Int.{to_ℕ}
use dragon_stub.Text.CType.{isxdigit, isdigit, to_lower}
use dragon_stub.Text.Str.{simple_guess_base, strtoull_loop, simple_strtoull}
use dragon_stub.Printf.{PrintfSpec, Out, puts}
use dragon_stub.Printf.Number.{shift_digits, tmp_digits, special_hex_spec, special_hex_number}
use dragon_stub.Printf.Number.Shown.{number_text, number-puts, length-reverse}
use dragon_stub.Printf.Number.Read.{
  IsBase, base-bounds, loop-digits, DigitChar, All-append, All-reverse, All-zeros, All-shift_digits,
  tmp_digits-shift_digits,
}

loop-zeros :
    (k base : ℕ) (s : List ℕ)
    → 1 ≤ base
    → strtoull_loop base 0 (replicate k b'0' ++ s) ≡ strtoull_loop base 0 s
unfolding strtoull_loop isxdigit isdigit
loop-zeros zero base s positive = refl
loop-zeros (suc k) base s positive =
    let below : ltb 0 base ≡ true = ground arith in
    let value : (0 * base + 0) % 2 ^ 64 ≡ 0 = omega arith in
    rw (below, value) (loop-zeros k base s positive)

loop-end : (base n : ℕ) (rest : List ℕ) → strtoull_loop base n (0 ∷ rest) ≡ (n, 0 ∷ rest)
unfolding strtoull_loop isxdigit
loop-end base n rest = refl

length-shift_digits :
    (fuel : ℕ) (small : Bool) (base n : ℕ) → 1 ≤ length (shift_digits (suc fuel) small base n)
unfolding shift_digits
length-shift_digits fuel small base n = omega arith

-- Zeros, and the digits of a number.
abbrev zeros_and_digits : (a b : ℕ) (small : Bool) (base num : ℕ) → List ℕ
zeros_and_digits a b small base num =
    replicate a b'0' ++ (replicate b b'0' ++ reverse (tmp_digits small base num))

module _ (a b : ℕ) (small : Bool) (base num : ℕ) (is_base : IsBase base) (fits : num < 2 ^ 64) where
  loop-zeros_and_digits :
      (rest : List ℕ)
      → strtoull_loop base 0 (zeros_and_digits a b small base num ++ 0 ∷ rest) ≡ (num, 0 ∷ rest)
  loop-zeros_and_digits rest =
      let bounds = base-bounds base is_base in
      rw
        (
          append_assoc (replicate a b'0') (replicate b b'0' ++ reverse (tmp_digits small base num))
              (0 ∷ rest),
          append_assoc (replicate b b'0') (reverse (tmp_digits small base num)) (0 ∷ rest),
          loop-zeros a base (replicate b b'0' ++ (reverse (tmp_digits small base num) ++ 0 ∷ rest))
              bounds.0,
          loop-zeros b base (reverse (tmp_digits small base num) ++ 0 ∷ rest) bounds.0,
          tmp_digits-shift_digits small base num is_base fits,
        )
        (loop-digits 24 small base num (0 ∷ rest) bounds.0 bounds.1.0 fits
            (omega (arith, bounds.1.1))
          ∙ loop-end base num rest)

  All-zeros_and_digits : All DigitChar (zeros_and_digits a b small base num)
  All-zeros_and_digits =
      let bounds = base-bounds base is_base in
      rw (tmp_digits-shift_digits small base num is_base fits) (
        All-append (replicate a b'0') _ (All-zeros a) (
          All-append (replicate b b'0') _ (All-zeros b)
            (All-reverse _ (All-shift_digits 24 small base num bounds.0 bounds.1.0))))

  zeros_and_digits-some : 1 ≤ length (zeros_and_digits a b small base num)
  zeros_and_digits-some = rw (tmp_digits-shift_digits small base num is_base fits) (
      omega (
        arith,
        length-shift_digits 23 small base num,
        length-reverse (shift_digits 24 small base num),
        length-append (replicate b b'0') (reverse (shift_digits 24 small base num)),
        length-append (replicate a b'0')
            (replicate b b'0' ++ reverse (shift_digits 24 small base num)),
      ))

-- A text of digits has no prefix "0x", and begins with a digit.
not_prefixed :
    (text rest : List ℕ)
    → All DigitChar text
    → ((get_or (text ++ 0 ∷ rest) 0 0 == b'0')
        && (to_lower (get_or (text ++ 0 ∷ rest) 1 0) == b'x'))
      ≡ false
unfolding DigitChar to_lower
not_prefixed [] rest all = refl
not_prefixed (c ∷ []) rest all = ground arith
not_prefixed (c ∷ d ∷ text) rest all = ground (arith, all.1.0.1)

first_digit :
    (text rest : List ℕ)
    → All DigitChar text
    → 1 ≤ length text
    → isxdigit (get_or (text ++ rest) 0 0) ≡ true
unfolding DigitChar
first_digit [] rest all some_left = absurd (omega arith)
first_digit (c ∷ text) rest all some_left = all.0.0

simple_strtoull-digits :
    (text rest : List ℕ) (base : ℕ)
    → 1 ≤ base
    → All DigitChar text
    → simple_strtoull (text ++ 0 ∷ rest) base ≡ strtoull_loop base 0 (text ++ 0 ∷ rest)
unfolding simple_strtoull
simple_strtoull-digits text rest base positive all =
    let given : (base == 0) ≡ false = ground arith in
    elim (Bool-cases (base == 16)) [
      | inl hex ↦ rw (given, hex, not_prefixed text rest all) refl
      | inr other ↦ rw (given, other) refl
    ]

read_back :
    (a b : ℕ) (small : Bool) (base num : ℕ) (rest : List ℕ)
    → IsBase base
    → num < 2 ^ 64
    → simple_strtoull (zeros_and_digits a b small base num ++ 0 ∷ rest) base ≡ (num, 0 ∷ rest)
read_back a b small base num rest is_base fits =
    simple_strtoull-digits (zeros_and_digits a b small base num) rest base
      (base-bounds base is_base).0 (All-zeros_and_digits a b small base num is_base fits)
    ∙ loop-zeros_and_digits a b small base num is_base fits rest

-- A number that is written in base 8, 10 or 16 without sign and prefix, not to the left of its field and
-- with a field that zeros fill, or none, is read back by simple_strtoull in the same base, up to the NUL
-- behind it.
pub number_text-simple_strtoull :
    (spec : PrintfSpec) (num : ℕ) (rest : List ℕ)
    → IsBase spec.base
    → num < 2 ^ 64
    → spec.flags.sign ≡ false
    → spec.flags.special ≡ false
    → spec.flags.left ≡ false
    → (spec.flags.zeropad ≡ true) ⊎ (to_ℕ spec.field_width ≡ 0)
    → simple_strtoull (number_text spec num ++ 0 ∷ rest) spec.base ≡ (num, 0 ∷ rest)
number_text-simple_strtoull spec num rest is_base fits unsigned plain right (inl zeros) =
    simp (unsigned, plain, right, zeros)
      (read_back _ _ spec.flags.small spec.base num rest is_base fits)
number_text-simple_strtoull spec num rest is_base fits unsigned plain right (inr narrow) =
    elim (Bool-cases spec.flags.zeropad) [
      | inl zeros ↦
          simp (unsigned, plain, right, zeros)
            (read_back _ _ spec.flags.small spec.base num rest is_base fits)
      | inr spaces ↦
          simp (unsigned, plain, right, spaces, narrow, zero_minus)
            (read_back 0 (to_ℕ spec.precision - length (tmp_digits spec.flags.small spec.base num))
              spec.flags.small spec.base num rest is_base fits)
    ]

-- The base is found by the prefix "0x", which is not read.
prefixed :
    (a b : ℕ) (small : Bool) (num : ℕ) (rest : List ℕ)
    → num < 2 ^ 64
    → simple_strtoull (b'0' ∷ b'x' ∷ (zeros_and_digits a b small 16 num ++ 0 ∷ rest)) 0
      ≡ (num, 0 ∷ rest)
unfolding simple_strtoull simple_guess_base to_lower
prefixed a b small num rest fits =
    let is_base : IsBase 16 = inr (inr refl) in
    let digit =
      first_digit (zeros_and_digits a b small 16 num) (0 ∷ rest)
        (All-zeros_and_digits a b small 16 num is_base fits)
        (zeros_and_digits-some a b small 16 num is_base fits) in
    rw digit (loop-zeros_and_digits a b small 16 num is_base fits rest)

-- What special_hex_number writes is read back by simple_strtoull, which finds the base by the prefix.
special_hex_number-simple_strtoull :
    (size num bytes : ℕ) (o : Out) (rest : List ℕ)
    → num < 2 ^ 64
    → (special_hex_number size num bytes o ≡ puts size (number_text (special_hex_spec bytes) num) o)
      × (simple_strtoull (number_text (special_hex_spec bytes) num ++ 0 ∷ rest) 0 ≡ (num, 0 ∷ rest))
unfolding special_hex_number
special_hex_number-simple_strtoull size num bytes o rest fits =
    (number-puts size num (special_hex_spec bytes) o, prefixed _ _ true num rest fits)
