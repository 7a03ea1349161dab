-- ===== src/Printf/Format/Progress.antt =====
-- format_decode reads at least one byte of a format, unless the conversion is invalid.
use dragon_stub.Base.{
  ℕ, suc, ◌+◌, ◌-◌, ◌*◌, ◌%◌, ◌^◌, ◌≤◌, ◌<◌, ◌≡◌, refl, arith, Bool, true, false, ◌||◌, not, none,
  some, List, [], ◌∷◌, ◌==◌, if◌then◌else◌, length, Bool-cases, inl, inr,
}
use dragon_stub.Base.Int.{minus_one, signed}
use dragon_stub.Text.CType.{isdigit}
use dragon_stub.Printf.{FormatType, Flags, no_flags, PrintfSpec}
use dragon_stub.Printf.Format.{
  head, tail, skip_atoi, skip_plain, add_flag, read_flags, read_qualifier, decode_conversion,
  decode_qualifier, decode_precision, decode_flags, not_negative, decode_token, decode_as,
  format_decode,
}

abbrev pub is_invalid : FormatType → Bool
is_invalid FormatType.invalid = true
is_invalid type = false

-- Less is left than `s`, unless the conversion is invalid.
Advances : PrintfSpec × List ℕ → List ℕ → Type 0
Advances decoded s = is_invalid decoded.0.type ≡ false → length decoded.1 < length s

length-tail : (s : List ℕ) → length (tail s) ≤ length s
length-tail [] = omega arith
length-tail (c ∷ s) = omega arith

-- Past a byte that is not the NUL.
tail-shorter : (s : List ℕ) (c : ℕ) → 1 ≤ c → (head s == c) ≡ true → length (tail s) < length s
tail-shorter [] c positive at = absurd (ground (arith, positive))
tail-shorter (b ∷ s) c positive at = omega arith

length-skip_atoi : (i : ℕ) (s : List ℕ) → length (skip_atoi i s).1 ≤ length s
unfolding skip_atoi
length-skip_atoi i [] = omega arith
length-skip_atoi i (c ∷ s) = ground (arith, length-skip_atoi ((i * 10 + c - b'0') % 2 ^ 32) s)

length-skip_plain : (s : List ℕ) → length (skip_plain s) ≤ length s
unfolding skip_plain
length-skip_plain [] = omega arith
length-skip_plain (c ∷ s) = ground (arith, length-skip_plain s)

skip_plain-shorter :
    (s : List ℕ)
    → (head s == 0) ≡ false
    → (head s == b'%') ≡ false
    → length (skip_plain s) < length s
unfolding skip_plain
skip_plain-shorter [] text plain = absurd (ground arith)
skip_plain-shorter (c ∷ s) text plain = ground (arith, length-skip_plain s)

length-read_flags : (flags : Flags) (s : List ℕ) → length (read_flags flags s).1 ≤ length s
unfolding read_flags
length-read_flags flags [] = omega arith
length-read_flags flags (c ∷ s) =
    elim (add_flag c flags)
      as (λ more.
        let read : Flags × List ℕ = elim more [
          | none ↦ (flags, c ∷ s)
          | some all ↦ read_flags all s
        ] in
        length read.1 ≤ suc (length s)) [
          | none ↦ omega arith
          | some all ↦ omega (arith, length-read_flags all s)
        ]

length-read_qualifier : (s : List ℕ) → length (read_qualifier s).1 ≤ length s
unfolding read_qualifier
length-read_qualifier s = ground (arith, length-tail s, length-tail (tail s))

if-Advances :
    (b : Bool) (x y : PrintfSpec × List ℕ) (s : List ℕ)
    → (b ≡ true → Advances x s)
    → (b ≡ false → Advances y s)
    → Advances (if b then x else y) s
if-Advances true x y s first second = first refl
if-Advances false x y s first second = second refl

decode_conversion-Advances :
    (q : ℕ) (spec : PrintfSpec) (s : List ℕ) → Advances (decode_conversion q spec s) s
unfolding decode_conversion Advances
decode_conversion-Advances q spec s =
    if-Advances (head s == b'c') _ _ s (λ at _. tail-shorter s b'c' (omega arith) at)
      (λ _.
        if-Advances (head s == b's') _ _ s (λ at _. tail-shorter s b's' (omega arith) at)
          (λ _.
            if-Advances (head s == b'p') _ _ s (λ at _. tail-shorter s b'p' (omega arith) at)
              (λ _.
                if-Advances (head s == b'%') _ _ s (λ at _. tail-shorter s b'%' (omega arith) at)
                  (λ _.
                    if-Advances (head s == b'o') _ _ s
                      (λ at _. tail-shorter s b'o' (omega arith) at)
                      (λ _.
                        if-Advances (head s == b'x') _ _ s
                          (λ at _. tail-shorter s b'x' (omega arith) at)
                          (λ _.
                            if-Advances (head s == b'X') _ _ s
                              (λ at _. tail-shorter s b'X' (omega arith) at)
                              (λ _.
                                if-Advances ((head s == b'd') || (head s == b'i')) _ _ s
                                  (λ at _. number_shorter s at)
                                  (λ _.
                                    if-Advances (head s == b'u') _ _ s
                                      (λ at _. tail-shorter s b'u' (omega arith) at)
                                      (λ _ valid. absurd (ground arith))))))))))
  where
    number_shorter :
        (s : List ℕ) → ((head s == b'd') || (head s == b'i')) ≡ true → length (tail s) < length s
    number_shorter s at = elim (Bool-cases (head s == b'd')) [
      | inl d ↦ tail-shorter s b'd' (omega arith) d
      | inr d ↦ tail-shorter s b'i' (omega arith) (ground arith)
    ]

decode_qualifier-Advances : (spec : PrintfSpec) (s : List ℕ) → Advances (decode_qualifier spec s) s
unfolding decode_qualifier Advances
decode_qualifier-Advances spec s valid = omega (
  arith,
  decode_conversion-Advances (read_qualifier s).0 spec (read_qualifier s).1 valid,
  length-read_qualifier s,
)

-- A token read from what stands behind a part of `s`.
behind :
    (decoded : PrintfSpec × List ℕ) (s t : List ℕ)
    → length t ≤ length s
    → Advances decoded t
    → Advances decoded s
unfolding Advances
behind decoded s t part advances valid = omega (arith, part, advances valid)

star : (spec : PrintfSpec) (s : List ℕ) → (head s == b'*') ≡ true → Advances (spec, tail s) s
unfolding Advances
star spec s at valid = tail-shorter s b'*' (omega arith) at

decode_precision-Advances : (spec : PrintfSpec) (s : List ℕ) → Advances (decode_precision spec s) s
unfolding decode_precision
decode_precision-Advances spec s =
    let s1 = tail s in
    let number = skip_atoi 0 s1 in
    let none_given = record spec { precision = minus_one } in
    let given = record spec { precision = not_negative (signed 16 number.0) } in
    if-Advances (not (head s == b'.')) _ _ s (λ _. decode_qualifier-Advances none_given s)
      (λ _.
        if-Advances (isdigit (head s1)) _ _ s
          (λ _.
            behind _ s number.1 (omega (arith, length-skip_atoi 0 s1, length-tail s))
              (decode_qualifier-Advances given number.1))
          (λ _.
            if-Advances (head s1 == b'*') _ _ s (λ at. behind _ s s1 (length-tail s) (star _ s1 at))
              (λ _. behind _ s s1 (length-tail s) (decode_qualifier-Advances none_given s1))))

decode_flags-Advances : (spec : PrintfSpec) (s : List ℕ) → Advances (decode_flags spec s) s
unfolding decode_flags
decode_flags-Advances spec s =
    let flags = (read_flags no_flags s).0 in
    let s1 = (read_flags no_flags s).1 in
    let number = skip_atoi 0 s1 in
    let read = record spec { flags = flags; field_width = minus_one } in
    let wide = record read { field_width = signed 24 number.0 } in
    let shorter : length s1 ≤ length s = length-read_flags no_flags s in
    if-Advances (isdigit (head s1)) _ _ s
      (λ _.
        behind _ s number.1 (omega (arith, length-skip_atoi 0 s1, shorter))
          (decode_precision-Advances wide number.1))
      (λ _.
        if-Advances (head s1 == b'*') _ _ s (λ at. behind _ s s1 shorter (star _ s1 at))
          (λ _. behind _ s s1 shorter (decode_precision-Advances read s1)))

plain_token :
    (spec : PrintfSpec) (s : List ℕ)
    → (head s == 0) ≡ false
    → (head s == b'%') ≡ false
    → Advances (spec, skip_plain s) s
unfolding Advances
plain_token spec s text plain valid = skip_plain-shorter s text plain

decode_token-Advances :
    (spec : PrintfSpec) (s : List ℕ) → (head s == 0) ≡ false → Advances (decode_token spec s) s
unfolding decode_token
decode_token-Advances spec s text =
    if-Advances (head s == b'%') _ _ s
      (λ at.
        behind _ s (tail s) (length-tail s)
          (decode_flags-Advances (record spec { type = FormatType.plain }) (tail s)))
      (λ plain. plain_token _ s text plain)

decode_as-Advances :
    (type : FormatType) (spec : PrintfSpec) (s : List ℕ)
    → (head s == 0) ≡ false
    → Advances (decode_as type spec s) s
decode_as-Advances FormatType.width spec s text = decode_precision-Advances _ s
decode_as-Advances FormatType.precision spec s text = decode_qualifier-Advances _ s
decode_as-Advances type spec s text = decode_token-Advances spec s text

-- Every call of format_decode at a byte that is not the NUL leaves less of the format, unless it finds
-- a conversion that is invalid.
pub format_decode-Advances :
    (spec : PrintfSpec) (s : List ℕ)
    → (head s == 0) ≡ false
    → is_invalid (format_decode spec s).0.type ≡ false
    → length (format_decode spec s).1 < length s
unfolding format_decode Advances
format_decode-Advances spec s text = decode_as-Advances spec.type spec s text
