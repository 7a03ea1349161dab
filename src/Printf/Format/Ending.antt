-- ===== src/Printf/Format/Ending.antt =====
-- The end of a directive for format_decode of apps/lib/vsprintf.c: its length and its conversion.
use dragon_stub.Base.{ℕ, ◌≡◌, refl, true, false, none, List, [], ◌∷◌, ◌==◌}
use dragon_stub.Text.CType.{isdigit, to_lower}
use dragon_stub.Printf.{Flags, PrintfSpec}
use dragon_stub.Printf.Format.{
  head, add_flag, read_qualifier, integer_type, decode_conversion, decode_qualifier,
}
use dragon_stub.Printf.Format.Directive.{
  Length, Conversion, conversion_char, ending, precision_text, signed_type, unsigned_type, type_of,
  base_of, own_flags,
}

abbrev code : Length → ℕ
code Length.of_int = 0
code Length.of_byte = b'H'
code Length.of_short = b'h'
code Length.of_long = b'l'
code Length.of_long_long = b'L'
code Length.of_size = b'z'
code Length.of_ptrdiff = b't'

abbrev Others : ℕ → Type 0
Others c =
    ((b'h' == c) ≡ false) × ((b'l' == c) ≡ false) × ((b'z' == c) ≡ false) × ((b't' == c) ≡ false)

-- A conversion is no letter of a length.
conversion_char-Others : (c : Conversion) → Others (conversion_char c)
conversion_char-Others Conversion.decimal = (refl, refl, refl, refl)
conversion_char-Others Conversion.integer = (refl, refl, refl, refl)
conversion_char-Others Conversion.unsigned = (refl, refl, refl, refl)
conversion_char-Others Conversion.octal = (refl, refl, refl, refl)
conversion_char-Others Conversion.hex = (refl, refl, refl, refl)
conversion_char-Others Conversion.upper_hex = (refl, refl, refl, refl)
conversion_char-Others Conversion.character = (refl, refl, refl, refl)
conversion_char-Others Conversion.string = (refl, refl, refl, refl)
conversion_char-Others Conversion.pointer = (refl, refl, refl, refl)
conversion_char-Others Conversion.percent = (refl, refl, refl, refl)

no_qualifier :
    (c : Conversion) (rest : List ℕ)
    → read_qualifier (conversion_char c ∷ rest) ≡ (0, conversion_char c ∷ rest)
unfolding read_qualifier to_lower
no_qualifier Conversion.decimal rest = refl
no_qualifier Conversion.integer rest = refl
no_qualifier Conversion.unsigned rest = refl
no_qualifier Conversion.octal rest = refl
no_qualifier Conversion.hex rest = refl
no_qualifier Conversion.upper_hex rest = refl
no_qualifier Conversion.character rest = refl
no_qualifier Conversion.string rest = refl
no_qualifier Conversion.pointer rest = refl
no_qualifier Conversion.percent rest = refl

read_qualifier-ending :
    (l : Length) (c : Conversion) (rest : List ℕ)
    → read_qualifier (ending l c rest) ≡ (code l, conversion_char c ∷ rest)
unfolding read_qualifier to_lower
read_qualifier-ending Length.of_int c rest = no_qualifier c rest
read_qualifier-ending Length.of_byte c rest = refl
read_qualifier-ending Length.of_short c rest = rw (conversion_char-Others c).0 refl
read_qualifier-ending Length.of_long c rest = rw (conversion_char-Others c).1 refl
read_qualifier-ending Length.of_long_long c rest = refl
read_qualifier-ending Length.of_size c rest = rw (conversion_char-Others c).2 refl
read_qualifier-ending Length.of_ptrdiff c rest = rw (conversion_char-Others c).3 refl

integer_type-code :
    (l : Length)
    → (integer_type (code l) true ≡ signed_type l) × (integer_type (code l) false ≡ unsigned_type l)
unfolding integer_type
integer_type-code Length.of_int = (refl, refl)
integer_type-code Length.of_byte = (refl, refl)
integer_type-code Length.of_short = (refl, refl)
integer_type-code Length.of_long = (refl, refl)
integer_type-code Length.of_long_long = (refl, refl)
integer_type-code Length.of_size = (refl, refl)
integer_type-code Length.of_ptrdiff = (refl, refl)

-- What the conversion adds to the spec.
abbrev pub converted : Length → Conversion → PrintfSpec → PrintfSpec
converted l c spec = record spec {
  type = type_of l c;
  flags = own_flags c spec.flags;
  base = base_of c;
}

decode_conversion-converted :
    (l : Length) (c : Conversion) (spec : PrintfSpec) (rest : List ℕ)
    → spec.flags.sign ≡ false
    → decode_conversion (code l) spec (conversion_char c ∷ rest) ≡ (converted l c spec, rest)
unfolding decode_conversion
decode_conversion-converted l Conversion.decimal spec rest no_sign = rw (integer_type-code l).0 refl
decode_conversion-converted l Conversion.integer spec rest no_sign = rw (integer_type-code l).0 refl
decode_conversion-converted l Conversion.unsigned spec rest no_sign =
    rw (no_sign, (integer_type-code l).1) refl
decode_conversion-converted l Conversion.octal spec rest no_sign =
    rw (no_sign, (integer_type-code l).1) refl
decode_conversion-converted l Conversion.hex spec rest no_sign =
    rw (no_sign, (integer_type-code l).1) refl
decode_conversion-converted l Conversion.upper_hex spec rest no_sign =
    rw (no_sign, (integer_type-code l).1) refl
decode_conversion-converted l Conversion.character spec rest no_sign = refl
decode_conversion-converted l Conversion.string spec rest no_sign = refl
decode_conversion-converted l Conversion.pointer spec rest no_sign = refl
decode_conversion-converted l Conversion.percent spec rest no_sign = refl

pub decode_qualifier-ending :
    (l : Length) (c : Conversion) (spec : PrintfSpec) (rest : List ℕ)
    → spec.flags.sign ≡ false
    → decode_qualifier spec (ending l c rest) ≡ (converted l c spec, rest)
unfolding decode_qualifier
decode_qualifier-ending l c spec rest no_sign =
    rw (read_qualifier-ending l c rest) (decode_conversion-converted l c spec rest no_sign)

-- A text that begins with no flag, no digit and no '*'.
abbrev pub Begins : List ℕ → Type 0
Begins s =
    ((flags : Flags) → add_flag (head s) flags ≡ none)
    × (isdigit (head s) ≡ false)
    × ((head s == b'*') ≡ false)

abbrev pub Dotless : List ℕ → Type 0
Dotless s = (head s == b'.') ≡ false

conversion_char-Begins :
    (c : Conversion) (rest : List ℕ)
    → Begins (conversion_char c ∷ rest) × Dotless (conversion_char c ∷ rest)
unfolding add_flag isdigit
conversion_char-Begins Conversion.decimal rest = ((λ flags. refl, refl, refl), refl)
conversion_char-Begins Conversion.integer rest = ((λ flags. refl, refl, refl), refl)
conversion_char-Begins Conversion.unsigned rest = ((λ flags. refl, refl, refl), refl)
conversion_char-Begins Conversion.octal rest = ((λ flags. refl, refl, refl), refl)
conversion_char-Begins Conversion.hex rest = ((λ flags. refl, refl, refl), refl)
conversion_char-Begins Conversion.upper_hex rest = ((λ flags. refl, refl, refl), refl)
conversion_char-Begins Conversion.character rest = ((λ flags. refl, refl, refl), refl)
conversion_char-Begins Conversion.string rest = ((λ flags. refl, refl, refl), refl)
conversion_char-Begins Conversion.pointer rest = ((λ flags. refl, refl, refl), refl)
conversion_char-Begins Conversion.percent rest = ((λ flags. refl, refl, refl), refl)

pub ending-Begins :
    (l : Length) (c : Conversion) (rest : List ℕ)
    → Begins (ending l c rest) × Dotless (ending l c rest)
unfolding add_flag isdigit
ending-Begins Length.of_int c rest = conversion_char-Begins c rest
ending-Begins Length.of_byte c rest = ((λ flags. refl, refl, refl), refl)
ending-Begins Length.of_short c rest = ((λ flags. refl, refl, refl), refl)
ending-Begins Length.of_long c rest = ((λ flags. refl, refl, refl), refl)
ending-Begins Length.of_long_long c rest = ((λ flags. refl, refl, refl), refl)
ending-Begins Length.of_size c rest = ((λ flags. refl, refl, refl), refl)
ending-Begins Length.of_ptrdiff c rest = ((λ flags. refl, refl, refl), refl)

pub precision_text-Begins : (p s : List ℕ) → Begins s → Begins (precision_text p s)
unfolding add_flag isdigit
precision_text-Begins [] s begins = begins
precision_text-Begins (d ∷ digits) s begins = (λ flags. refl, refl, refl)
