-- ===== src/Printf/Format.antt =====
-- skip_atoi and format_decode of apps/lib/vsprintf.c. A format is the list of its bytes; what stands
-- behind the list's end, or behind a 0 in it, is the terminating NUL.
pub mod Progress
pub mod Directive
pub mod Ending
pub mod Decoded
use dragon_stub.Base.{
  ℕ, zero, suc, ◌+◌, ◌-◌, ◌*◌, ◌%◌, ◌^◌, bit_or, Bool, true, false, ◌&&◌, ◌||◌, not, Option, none,
  some, List, [], ◌∷◌, ◌==◌, leb, if◌then◌else◌,
}
use dragon_stub.Base.Int.{ℤ, pos, negsuc, minus_one, signed}
use dragon_stub.Text.CType.{isdigit, to_lower}
use dragon_stub.Printf.{FormatType, Flags, no_flags, PrintfSpec}

-- *fmt
abbrev pub head : List ℕ → ℕ
head [] = 0
head (c ∷ s) = c

abbrev pub tail : List ℕ → List ℕ
tail [] = []
tail (c ∷ s) = s

-- skip_atoi from the value `i` on: the value, an `int`, and the format behind the digits.
unfoldable pub skip_atoi : (i : ℕ) → List ℕ → ℕ × List ℕ
unfolding isdigit
skip_atoi i [] = (i, [])
skip_atoi i (c ∷ s) =
    let next = (i * 10 + c - b'0') % 2 ^ 32 in
    let more = skip_atoi next s in if isdigit (head s) then more else (next, s)

-- The text before the next '%'.
unfoldable pub skip_plain : List ℕ → List ℕ
skip_plain [] = []
skip_plain (c ∷ s) = let rest = skip_plain s in if (c == 0) || (c == b'%') then c ∷ s else rest

unfoldable pub add_flag : ℕ → Flags → Option Flags
add_flag c flags =
    if c == b'-'
    then some (record flags { left = true })
    else if c == b'+'
    then some (record flags { plus = true })
    else if c == b' '
    then some (record flags { space = true })
    else if c == b'#'
    then some (record flags { special = true })
    else if c == b'0'
    then some (record flags { zeropad = true })
    else none

-- The loop over the flags.
unfoldable pub read_flags : Flags → List ℕ → Flags × List ℕ
unfolding add_flag
read_flags flags [] = (flags, [])
read_flags flags (c ∷ s) = elim (add_flag c flags) [
  | none ↦ (flags, c ∷ s)
  | some more ↦ read_flags more s
]

-- The conversion qualifier, "ll" as 'L' and "hh" as 'H'.
unfoldable pub read_qualifier : List ℕ → ℕ × List ℕ
unfolding to_lower
read_qualifier s =
    let c = head s in
    let s1 = tail s in
    if (c == b'h') || ((to_lower c == b'l') || ((c == b'z') || (c == b't')))
    then (if not (c == head s1)
        then (c, s1)
        else if c == b'l'
        then (b'L', tail s1)
        else if c == b'h'
        then (b'H', tail s1)
        else (c, s1))
    else (0, s)

unfoldable pub integer_type : (qualifier : ℕ) (sign : Bool) → FormatType
integer_type qualifier sign =
    if qualifier == b'L'
    then FormatType.long_long
    else if qualifier == b'l'
    then (if sign then FormatType.long else FormatType.ulong)
    else if qualifier == b'z'
    then FormatType.size_t
    else if qualifier == b't'
    then FormatType.ptrdiff
    else if qualifier == b'H'
    then (if sign then FormatType.byte else FormatType.ubyte)
    else if qualifier == b'h'
    then (if sign then FormatType.short else FormatType.ushort)
    else (if sign then FormatType.int else FormatType.uint)

abbrev pub conversion : FormatType → PrintfSpec → PrintfSpec
conversion type spec = record spec { type = type; base = 10 }

abbrev pub integer : (qualifier base : ℕ) → Flags → PrintfSpec → PrintfSpec
integer qualifier base flags spec = record spec {
  type = integer_type qualifier flags.sign;
  flags = flags;
  base = base;
}

-- The switch on the conversion, at the label `qualifier`.
unfoldable pub decode_conversion : (qualifier : ℕ) → PrintfSpec → List ℕ → PrintfSpec × List ℕ
unfolding integer_type
decode_conversion qualifier spec s =
    let c = head s in
    if c == b'c'
    then (conversion FormatType.char spec, tail s)
    else if c == b's'
    then (conversion FormatType.str spec, tail s)
    else if c == b'p'
    then (conversion FormatType.ptr spec, tail s)
    else if c == b'%'
    then (conversion FormatType.percent_char spec, tail s)
    else if c == b'o'
    then (integer qualifier 8 spec.flags spec, tail s)
    else if c == b'x'
    then (integer qualifier 16 (record spec.flags { small = true }) spec, tail s)
    else if c == b'X'
    then (integer qualifier 16 spec.flags spec, tail s)
    else if (c == b'd') || (c == b'i')
    then (integer qualifier 10 (record spec.flags { sign = true }) spec, tail s)
    else if c == b'u'
    then (integer qualifier 10 spec.flags spec, tail s)
    else (conversion FormatType.invalid spec, s)

unfoldable pub decode_qualifier : PrintfSpec → List ℕ → PrintfSpec × List ℕ
unfolding read_qualifier decode_conversion
decode_qualifier spec s = decode_conversion (read_qualifier s).0 spec (read_qualifier s).1

abbrev pub not_negative : ℤ → ℤ
not_negative (pos n) = pos n
not_negative (negsuc n) = pos 0

-- From the label `precision` on.
unfoldable pub decode_precision : PrintfSpec → List ℕ → PrintfSpec × List ℕ
unfolding isdigit skip_atoi decode_qualifier
decode_precision spec s =
    let none_given = record spec { precision = minus_one } in
    let s1 = tail s in
    let number = skip_atoi 0 s1 in
    if not (head s == b'.')
    then decode_qualifier none_given s
    else if isdigit (head s1)
    then decode_qualifier (record spec { precision = not_negative (signed 16 number.0) }) number.1
    else if head s1 == b'*'
    then (record none_given { type = FormatType.precision }, tail s1)
    else decode_qualifier none_given s1

-- From the flags on, behind the '%'.
unfoldable pub decode_flags : PrintfSpec → List ℕ → PrintfSpec × List ℕ
unfolding read_flags isdigit skip_atoi decode_precision
decode_flags spec s =
    let flags = (read_flags no_flags s).0 in
    let s1 = (read_flags no_flags s).1 in
    let read = record spec { flags = flags; field_width = minus_one } in
    let number = skip_atoi 0 s1 in
    if isdigit (head s1)
    then decode_precision (record read { field_width = signed 24 number.0 }) number.1
    else if head s1 == b'*'
    then (record read { type = FormatType.width }, tail s1)
    else decode_precision read s1

-- A negative width that was an argument stands for LEFT; the width has 24 bits.
abbrev pub taken_width : PrintfSpec → PrintfSpec
taken_width spec = elim spec.field_width [
  | pos n ↦ spec
  | negsuc n ↦ record spec {
    field_width = signed 24 (n + 1);
    flags = record spec.flags { left = true };
  }
]

-- format_decode, except in the states that a '*' leaves.
unfoldable pub decode_token : PrintfSpec → List ℕ → PrintfSpec × List ℕ
unfolding skip_plain decode_flags
decode_token spec s =
    let plain = record spec { type = FormatType.plain } in
    if head s == b'%' then decode_flags plain (tail s) else (plain, skip_plain s)

abbrev pub decode_as : FormatType → PrintfSpec → List ℕ → PrintfSpec × List ℕ
decode_as FormatType.width spec s =
    decode_precision (record (taken_width spec) { type = FormatType.plain }) s
decode_as FormatType.precision spec s =
    decode_qualifier
      (record spec { type = FormatType.plain; precision = not_negative spec.precision }) s
decode_as type spec s = decode_token spec s

-- format_decode: what it leaves in `spec`, and the format behind the token.
unfoldable pub format_decode : PrintfSpec → List ℕ → PrintfSpec × List ℕ
unfolding decode_precision decode_qualifier decode_token
format_decode spec s = decode_as spec.type spec s
