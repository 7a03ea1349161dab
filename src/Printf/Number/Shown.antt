-- ===== src/Printf/Number/Shown.antt =====
-- What number writes: an independent description of the field.
use dragon_stub.Base.{
  ℕ, ◌+◌, ◌-◌, ◌^◌, ◌≡◌, refl, arith, ap, ◌∙◌, ◌&&◌, ◌||◌, not, List, [], ◌∷◌, ◌++◌, ◌==◌, leb,
  if◌then◌else◌, length, length-append, Bool-cases, inl, inr, replicate, length-replicate, reverse,
}
use mathlib.Core.List.{reverse-cons}
use dragon_stub.Base.Int.{ℤ, pos, negsuc, to_ℕ, less}
use dragon_stub.Printf.{Flags, PrintfSpec, Out, puts}
use dragon_stub.Printf.Puts.{puts-append, fill-puts}
use dragon_stub.Printf.Number.{
  sign_of, tmp_digits, inner_width, rounds, after_rounds, put_sign, put_prefix, digit_columns,
  put_number, number,
}

abbrev pub sign_text : Flags → (num : ℕ) → List ℕ
sign_text flags num =
    if not flags.sign
    then []
    else if leb (2 ^ 63) num
    then b'-' ∷ []
    else if flags.plus
    then b'+' ∷ []
    else if flags.space
    then b' ' ∷ []
    else []

abbrev pub prefix_text : PrintfSpec → (num : ℕ) → List ℕ
prefix_text spec num =
    if not spec.flags.special || (spec.base == 10)
    then []
    else if spec.base == 16
    then b'0' ∷ (if spec.flags.small then b'x' else b'X') ∷ []
    else if num == 0
    then []
    else b'0' ∷ []

-- The absolute value of a signed number.
abbrev pub magnitude : Flags → (num : ℕ) → ℕ
magnitude flags num = if flags.sign && leb (2 ^ 63) num then 2 ^ 64 - num else num

-- The digits with the zeros that the precision asks for.
abbrev pub digits_text : PrintfSpec → (num : ℕ) → List ℕ
digits_text spec num =
    let digits = tmp_digits spec.flags.small spec.base (magnitude spec.flags num) in
    replicate (to_ℕ spec.precision - length digits) b'0' ++ reverse digits

-- Sign, prefix and digits, filled up to the width: by spaces behind, by zeros behind the prefix, or by
-- spaces in front.
abbrev pub number_text : PrintfSpec → (num : ℕ) → List ℕ
number_text spec num =
    let head = sign_text spec.flags num ++ prefix_text spec num in
    let digits = digits_text spec num in
    let missing = to_ℕ spec.field_width - (length head + length digits) in
    if spec.flags.left
    then head ++ (digits ++ replicate missing b' ')
    else if spec.flags.zeropad
    then head ++ (replicate missing b'0' ++ digits)
    else replicate missing b' ' ++ (head ++ digits)

to_ℕ-less : (z : ℤ) (k : ℕ) → to_ℕ (less z k) ≡ to_ℕ z - k
to_ℕ-less (pos n) k = ground arith
to_ℕ-less (negsuc n) k = omega arith

after_rounds-none : (z : ℤ) → rounds (after_rounds z) ≡ 0
after_rounds-none (pos n) = refl
after_rounds-none (negsuc n) = refl

pub length-reverse : (s : List ℕ) → length (reverse s) ≡ length s
length-reverse [] = refl
length-reverse (c ∷ s) =
    ap length (reverse-cons c s)
    ∙ omega (arith, length-append (reverse s) (c ∷ []), length-reverse s)

length-digits_text :
    (spec : PrintfSpec) (num : ℕ)
    → length (digits_text spec num)
      ≡ digit_columns spec
          (length (tmp_digits spec.flags.small spec.base (magnitude spec.flags num)))
length-digits_text spec num =
    let digits = tmp_digits spec.flags.small spec.base (magnitude spec.flags num) in
    let zeros = to_ℕ spec.precision - length digits in
    omega (
      arith,
      length-append (replicate zeros b'0') (reverse digits),
      length-replicate {A = ℕ} zeros b'0',
      length-reverse digits,
    )

-- Sign and prefix, and the columns that they take.
put_head :
    (size : ℕ) (spec : PrintfSpec) (num : ℕ) (o : Out)
    → put_prefix size spec num (put_sign size (sign_of spec.flags num).0 o)
      ≡ puts size (sign_text spec.flags num ++ prefix_text spec num) o
unfolding put_prefix sign_of
put_head size spec num o = ground arith

inner_width-head :
    (spec : PrintfSpec) (num : ℕ)
    → to_ℕ (inner_width spec num)
      ≡ to_ℕ spec.field_width - length (sign_text spec.flags num ++ prefix_text spec num)
unfolding inner_width sign_of
inner_width-head spec num = ground (
  arith,
  to_ℕ-less spec.field_width 1,
  to_ℕ-less spec.field_width 2,
  to_ℕ-less (less spec.field_width 1) 1,
  to_ℕ-less (less spec.field_width 1) 2,
)

sign_of-magnitude : (flags : Flags) (num : ℕ) → (sign_of flags num).1 ≡ magnitude flags num
unfolding sign_of
sign_of-magnitude flags num = ground arith

-- `w` columns that are left, at the side that the flags name.
abbrev pub laid_out : Flags → (head body : List ℕ) (w : ℕ) → List ℕ
laid_out flags head body w =
    if flags.left
    then head ++ (body ++ replicate w b' ')
    else if flags.zeropad
    then head ++ (replicate w b'0' ++ body)
    else replicate w b' ' ++ (head ++ body)

put_number-puts :
    (size : ℕ) (spec : PrintfSpec) (num : ℕ) (digits : List ℕ) (width : ℤ) (o : Out)
    → put_number size spec num digits width o
      ≡ puts size
          (laid_out spec.flags
            (sign_text spec.flags num ++ prefix_text spec num)
            (replicate (digit_columns spec (length digits) - length digits) b'0' ++ reverse digits)
            (rounds width))
          o
unfolding put_number
put_number-puts size spec num digits (pos n) o = elim (Bool-cases spec.flags.left) [
  | inl l ↦ elim (Bool-cases spec.flags.zeropad) [
    | inl z ↦ simp (l, z, fill-puts, puts-append, put_head) refl
    | inr z ↦ simp (l, z, fill-puts, puts-append, put_head) refl
  ]
  | inr l ↦ elim (Bool-cases spec.flags.zeropad) [
    | inl z ↦ simp (l, z, fill-puts, puts-append, put_head) refl
    | inr z ↦ simp (l, z, fill-puts, puts-append, put_head) refl
  ]
]
put_number-puts size spec num digits (negsuc n) o = elim (Bool-cases spec.flags.left) [
  | inl l ↦ elim (Bool-cases spec.flags.zeropad) [
    | inl z ↦ simp (l, z, fill-puts, puts-append, put_head) refl
    | inr z ↦ simp (l, z, fill-puts, puts-append, put_head) refl
  ]
  | inr l ↦ elim (Bool-cases spec.flags.zeropad) [
    | inl z ↦ simp (l, z, fill-puts, puts-append, put_head) refl
    | inr z ↦ simp (l, z, fill-puts, puts-append, put_head) refl
  ]
]

-- The columns and the zeros that number computes are those of the description.
laid_out-number_text :
    (spec : PrintfSpec) (num : ℕ)
    → let head = sign_text spec.flags num ++ prefix_text spec num in
      let digits = tmp_digits spec.flags.small spec.base (magnitude spec.flags num) in
      let columns = digit_columns spec (length digits) in
      laid_out spec.flags head
        (replicate (columns - length digits) b'0' ++ reverse digits)
        (rounds (less (inner_width spec num) columns))
      ≡ number_text spec num
laid_out-number_text spec num =
    let head = sign_text spec.flags num ++ prefix_text spec num in
    let digits = tmp_digits spec.flags.small spec.base (magnitude spec.flags num) in
    let columns = digit_columns spec (length digits) in
    let width = rounds (less (inner_width spec num) columns) in
    let zeros : columns - length digits ≡ to_ℕ spec.precision - length digits = omega arith in
    let missing : width ≡ to_ℕ spec.field_width - (length head + length (digits_text spec num)) =
      omega (
        arith,
        to_ℕ-less (inner_width spec num) columns,
        inner_width-head spec num,
        length-digits_text spec num,
      ) in
    ap (λ (k : ℕ). laid_out spec.flags head (replicate k b'0' ++ reverse digits) width) zeros
    ∙ ap (laid_out spec.flags head (digits_text spec num)) missing

-- number writes the field that number_text describes, whatever the buffer's size.
pub number-puts :
    (size num : ℕ) (spec : PrintfSpec) (o : Out)
    → number size num spec o ≡ puts size (number_text spec num) o
unfolding number
number-puts size num spec o =
    let digits = tmp_digits spec.flags.small spec.base (magnitude spec.flags num) in
    let width = less (inner_width spec num) (digit_columns spec (length digits)) in
    rw (sign_of-magnitude spec.flags num) (
      put_number-puts size spec num digits width o
      ∙ ap (λ (s : List ℕ). puts size s o) (laid_out-number_text spec num))
