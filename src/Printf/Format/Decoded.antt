-- ===== src/Printf/Format/Decoded.antt =====
-- format_decode of apps/lib/vsprintf.c reads a directive as what it asks for.
use dragon_stub.Base.{
  ℕ, ◌+◌, ◌-◌, ◌*◌, ◌%◌, ◌^◌, ◌≤◌, ◌<◌, ◌≡◌, refl, arith, ◌∙◌, Bool, true, false, none, List, [],
  ◌∷◌, All,
}
use dragon_stub.Base.Int.{pos, minus_one, signed}
use dragon_stub.Text.CType.{isdigit}
use dragon_stub.Printf.{FormatType, Flags, no_flags, PrintfSpec}
use dragon_stub.Printf.Format.{
  head, skip_atoi, add_flag, read_flags, decode_precision, decode_flags, decode_token, decode_as,
  format_decode,
}
use dragon_stub.Printf.Format.Directive.{
  Flag, Length, Conversion, Directive, flags_text, digits_text, ending, precision_text,
  directive_text, value, number, set_flag, set_flags, asked,
}
use dragon_stub.Printf.Format.Ending.{
  converted, decode_qualifier-ending, Begins, ending-Begins, precision_text-Begins,
}

-- Digits of a number.
abbrev pub Digits : List ℕ → Type 0
Digits = All (λ d. d < 10)

value-grows : (i : ℕ) (digits : List ℕ) → i ≤ value i digits
value-grows i [] = omega arith
value-grows i (d ∷ digits) = omega (arith, value-grows (i * 10 + d) digits)

digit : (d : ℕ) → d < 10 → isdigit (b'0' + d) ≡ true
unfolding isdigit
digit d below = ground arith

skip_atoi-value :
    (i d : ℕ) (digits rest : List ℕ)
    → Digits (d ∷ digits)
    → value i (d ∷ digits) < 2 ^ 31
    → isdigit (head rest) ≡ false
    → skip_atoi i (digits_text (d ∷ digits) rest) ≡ (value i (d ∷ digits), rest)
unfolding skip_atoi isdigit
skip_atoi-value i d [] rest ok fits ends =
    let next : (i * 10 + (b'0' + d) - b'0') % 2 ^ 32 ≡ i * 10 + d = omega (arith, fits) in
    rw (ends, next) refl
skip_atoi-value i d (e ∷ digits) rest ok fits ends =
    let grows = value-grows ((i * 10 + d) * 10 + e) digits in
    let next : (i * 10 + (b'0' + d) - b'0') % 2 ^ 32 ≡ i * 10 + d = omega (arith, fits, grows) in
    let more = digit e ok.1.0 in
    rw (more, next) (skip_atoi-value (i * 10 + d) e digits rest ok.1 fits ends)

signed_16 : (n : ℕ) → n < 2 ^ 15 → signed 16 n ≡ pos n
signed_16 n below = ground arith

signed_24 : (n : ℕ) → n < 2 ^ 23 → signed 24 n ≡ pos n
signed_24 n below = ground arith

decode_precision-text :
    (p : List ℕ) (l : Length) (c : Conversion) (spec : PrintfSpec) (rest : List ℕ)
    → spec.flags.sign ≡ false
    → Digits p
    → value 0 p < 2 ^ 15
    → decode_precision spec (precision_text p (ending l c rest))
      ≡ (converted l c (record spec { precision = number p }), rest)
unfolding decode_precision
decode_precision-text [] l c spec rest no_sign ok fits =
    rw (ending-Begins l c rest).1
      (decode_qualifier-ending l c (record spec { precision = minus_one }) rest no_sign)
decode_precision-text (d ∷ digits) l c spec rest no_sign ok fits =
    let first : isdigit (b'0' + d) ≡ true = digit d ok.0 in
    let read =
      skip_atoi-value 0 d digits (ending l c rest) ok (omega (arith, fits))
        (ending-Begins l c rest).0.1 in
    let positive : signed 16 (value 0 (d ∷ digits)) ≡ pos (value 0 (d ∷ digits)) =
      signed_16 (value 0 (d ∷ digits)) fits in
    rw (first, read, positive)
      (decode_qualifier-ending l c (record spec { precision = number (d ∷ digits) }) rest no_sign)

read_flags-set :
    (flags : List Flag) (before : Flags) (s : List ℕ)
    → ((more : Flags) → add_flag (head s) more ≡ none)
    → read_flags before (flags_text flags s) ≡ (set_flags flags before, s)
unfolding read_flags add_flag
read_flags-set [] before [] begins = refl
read_flags-set [] before (c ∷ s) begins = rw (read_flags, begins before) refl
read_flags-set (Flag.left ∷ flags) before s begins =
    read_flags-set flags (set_flag Flag.left before) s begins
read_flags-set (Flag.plus ∷ flags) before s begins =
    read_flags-set flags (set_flag Flag.plus before) s begins
read_flags-set (Flag.space ∷ flags) before s begins =
    read_flags-set flags (set_flag Flag.space before) s begins
read_flags-set (Flag.special ∷ flags) before s begins =
    read_flags-set flags (set_flag Flag.special before) s begins
read_flags-set (Flag.zeros ∷ flags) before s begins =
    read_flags-set flags (set_flag Flag.zeros before) s begins

set_flags-sign :
    (flags : List Flag) (before : Flags)
    → before.sign ≡ false
    → (set_flags flags before).sign ≡ false
set_flags-sign [] before no_sign = no_sign
set_flags-sign (Flag.left ∷ flags) before no_sign = set_flags-sign flags _ no_sign
set_flags-sign (Flag.plus ∷ flags) before no_sign = set_flags-sign flags _ no_sign
set_flags-sign (Flag.space ∷ flags) before no_sign = set_flags-sign flags _ no_sign
set_flags-sign (Flag.special ∷ flags) before no_sign = set_flags-sign flags _ no_sign
set_flags-sign (Flag.zeros ∷ flags) before no_sign = set_flags-sign flags _ no_sign

-- The first digit of a width is not 0, which is a flag.
abbrev pub Width : List ℕ → Type 0
Width [] = Unit {0}
Width (d ∷ digits) = 1 ≤ d

width-Begins :
    (d : ℕ) (s : List ℕ)
    → 1 ≤ d
    → d < 10
    → (flags : Flags) → add_flag (head ((b'0' + d) ∷ s)) flags ≡ none
unfolding add_flag
width-Begins d s positive below flags = ground arith

module _ (d : Directive) (rest : List ℕ) where
  abbrev behind_width : List ℕ
  behind_width = precision_text d.precision (ending d.length d.conversion rest)

  behind_width-Begins : Begins behind_width
  behind_width-Begins =
      precision_text-Begins d.precision _ (ending-Begins d.length d.conversion rest).0

  -- The spec once flags and width are read.
  abbrev sized : PrintfSpec → PrintfSpec
  sized spec = record spec { flags = set_flags d.flags no_flags; field_width = number d.width }

  decode_flags-text :
      (w : List ℕ) (spec : PrintfSpec)
      → Digits w
      → Width w
      → value 0 w < 2 ^ 23
      → decode_flags spec (flags_text d.flags (digits_text w behind_width))
        ≡ decode_precision
            (record spec { flags = set_flags d.flags no_flags; field_width = number w })
            behind_width
  unfolding decode_flags
  decode_flags-text [] spec ok first fits =
      let begins = behind_width-Begins in
      rw (read_flags-set d.flags no_flags behind_width begins.0, begins.1, begins.2) refl
  decode_flags-text (e ∷ digits) spec ok first fits =
      let s1 = digits_text (e ∷ digits) behind_width in
      let begins = width-Begins e (digits_text digits behind_width) first ok.0 in
      rw
        (
          read_flags-set d.flags no_flags s1 begins,
          digit e ok.0,
          skip_atoi-value 0 e digits behind_width ok (omega (arith, fits)) behind_width-Begins.1,
          signed_24 (value 0 (e ∷ digits)) fits,
        )
        refl

-- The state of the spec at the start of a directive: the token before it was no '*'.
abbrev pub starts : FormatType → Bool
starts FormatType.width = false
starts FormatType.precision = false
starts type = true

decode_as-starts :
    (type : FormatType) (spec : PrintfSpec) (s : List ℕ)
    → starts type ≡ true
    → decode_as type spec s ≡ decode_token spec s
decode_as-starts FormatType.width spec s start = absurd (ground arith)
decode_as-starts FormatType.precision spec s start = absurd (ground arith)
decode_as-starts type spec s start = refl

-- format_decode reads a directive, of flags, a width, a precision, a length and a conversion, as what
-- the directive asks for, and goes on behind it: each flag sets its bit, and the type and the base are
-- those of the length and the conversion. The width and the precision are digits, the first one of the
-- width not 0, and fit their fields; no '*' came just before.
pub format_decode-directive :
    (spec : PrintfSpec) (d : Directive) (rest : List ℕ)
    → starts spec.type ≡ true
    → Digits d.width
    → Width d.width
    → value 0 d.width < 2 ^ 23
    → Digits d.precision
    → value 0 d.precision < 2 ^ 15
    → format_decode spec (directive_text d rest) ≡ (asked d, rest)
unfolding format_decode decode_token
format_decode-directive spec d rest start width first width_fits precision precision_fits =
    let plain = record spec { type = FormatType.plain } in
    decode_as-starts spec.type spec (directive_text d rest) start
    ∙ decode_flags-text d rest d.width plain width first width_fits
    ∙ decode_precision-text d.precision d.length d.conversion (sized d rest plain) rest
        (set_flags-sign d.flags no_flags refl) precision precision_fits
