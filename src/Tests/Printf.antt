-- ===== src/Tests/Printf.antt =====
-- Formatted output at concrete formats.
use dragon_stub.Base.{
  ℕ, zero, suc, ◌-◌, ◌%◌, ◌^◌, ◌≡◌, refl, arith, true, Option, none, some, List, [], ◌∷◌, ◌++◌,
  get_or, length, inl, ltb, if◌then◌else◌,
}
use dragon_stub.Base.Int.{pos, minus_one}
use dragon_stub.Machine.{Memory}
use dragon_stub.Printf.{FormatType, no_flags, PrintfSpec, Out, puts}
use dragon_stub.Printf.Decimal.{put_dec}
use dragon_stub.Printf.Decimal.Digits.{decimal, put_dec-decimal}
use dragon_stub.Printf.Number.{tmp_digits, number}
use dragon_stub.Printf.Number.Shown.{number_text, number-puts}
use dragon_stub.Printf.Number.RoundTrip.{number_text-simple_strtoull}
use dragon_stub.Text.Str.{simple_strtoull}
use dragon_stub.Printf.Text.{string}
use dragon_stub.Printf.Text.Shown.{string_text, string-puts}
use dragon_stub.Printf.Print.{vsnprintf, snprintf, empty_spec, room}
use dragon_stub.Printf.Format.{format_decode}
use dragon_stub.Printf.Format.Directive.{Flag, Length, Conversion, Directive, directive_text, asked}
use dragon_stub.Printf.Format.Decoded.{format_decode-directive}
use dragon_stub.Printf.Print.Buffer.{
  rendered, with_text, vsnprintf-rendered, vsnprintf-cuts, vsnprintf-inside,
}

abbrev untouched : ℕ → ℕ
untouched i = 0xaa

-- "hi" at address 5000
abbrev greeting : Memory
greeting i = get_or (b'h' ∷ b'i' ∷ []) (i - 5000) 0

-- "%#x %-4d%3c%s"
abbrev mixed_format : List ℕ
mixed_format =
    b'%' ∷ b'#' ∷ b'x' ∷ b' ' ∷ b'%' ∷ b'-' ∷ b'4' ∷ b'd' ∷ b'%' ∷ b'3' ∷ b'c' ∷ b'%' ∷ b's' ∷ []

abbrev mixed_args : List ℕ
mixed_args = 0x1f ∷ (2 ^ 64 - 7) ∷ b'A' ∷ 5000 ∷ []

abbrev shown_bytes : Option (ℕ × (ℕ → ℕ)) → (count : ℕ) → List ℕ
shown_bytes none count = []
shown_bytes (some (n, b)) zero = n ∷ []
shown_bytes (some (n, b)) (suc count) = shown_bytes (some (n, b)) count ++ (b count ∷ [])

-- "0x1f -7    Ahi" and the NUL
mixed_output :
    shown_bytes (snprintf 0x1000 32 mixed_format greeting mixed_args untouched) 17
    ≡ 14 ∷ b'0' ∷ b'x' ∷ b'1' ∷ b'f' ∷ b' ' ∷ b'-' ∷ b'7' ∷ b' ' ∷ b' ' ∷ b' ' ∷ b' ' ∷ b'A' ∷ b'h'
      ∷ b'i' ∷ 0 ∷ 0xaa ∷ 0xaa ∷ []
unfolding snprintf
mixed_output = refl

-- The same in 6 bytes.
truncated_output :
    shown_bytes (snprintf 0x1000 6 mixed_format greeting mixed_args untouched) 7
    ≡ 14 ∷ b'0' ∷ b'x' ∷ b'1' ∷ b'f' ∷ b' ' ∷ 0 ∷ 0xaa ∷ []
unfolding snprintf
truncated_output = refl

abbrev mixed_words : ℕ → ℕ
mixed_words i = get_or mixed_args i 0

vsnprintf-cuts_example :
    (text : List ℕ) × ((buf size : ℕ) (bytes : ℕ → ℕ)
      → vsnprintf buf size mixed_format greeting mixed_words bytes ≡ (
          if ltb (2 ^ 31 - 1) size
          then some (0, bytes)
          else some (length text % 2 ^ 32, with_text (room buf size) text bytes)))
vsnprintf-cuts_example = vsnprintf-cuts mixed_format greeting mixed_words

-- "%-+12.3hhx"
abbrev small_hex : Directive
small_hex = record {
  flags = Flag.left ∷ Flag.plus ∷ [];
  width = 1 ∷ 2 ∷ [];
  precision = 3 ∷ [];
  length = Length.of_byte;
  conversion = Conversion.hex;
}

small_hex_text :
    directive_text small_hex []
    ≡ b'%' ∷ b'-' ∷ b'+' ∷ b'1' ∷ b'2' ∷ b'.' ∷ b'3' ∷ b'h' ∷ b'h' ∷ b'x' ∷ []
small_hex_text = refl

format_decode-directive_example :
    format_decode empty_spec (directive_text small_hex (b'!' ∷ [])) ≡ (asked small_hex, b'!' ∷ [])
format_decode-directive_example =
    format_decode-directive empty_spec small_hex (b'!' ∷ []) refl (omega arith, (omega arith, tt))
      (omega arith) (omega arith) (omega arith, tt) (omega arith)

vsnprintf-inside_example :
    with_text (room 0x1000 6) (rendered greeting mixed_words mixed_format) untouched 6 ≡ untouched 6
vsnprintf-inside_example =
    vsnprintf-inside 0x1000 6 mixed_format greeting mixed_words untouched
      (length (rendered greeting mixed_words mixed_format) % 2 ^ 32)
      (with_text (room 0x1000 6) (rendered greeting mixed_words mixed_format) untouched)
      (omega arith)
      (vsnprintf-rendered 0x1000 6 mixed_format greeting mixed_words untouched (omega arith)) 6
      (omega arith)

abbrev blank_out : Out
blank_out = record { bytes = untouched; at = 0 }

-- "%+06o" of 8
abbrev octal_spec : PrintfSpec
octal_spec = record empty_spec {
  type = FormatType.int;
  field_width = pos 6;
  flags = record no_flags { plus = true; sign = true; zeropad = true };
  base = 8;
  precision = minus_one;
}

number-puts_example :
    number 16 8 octal_spec blank_out ≡ puts 16 (number_text octal_spec 8) blank_out
number-puts_example = number-puts 16 8 octal_spec blank_out

octal_text : number_text octal_spec 8 ≡ b'+' ∷ b'0' ∷ b'0' ∷ b'0' ∷ b'1' ∷ b'0' ∷ []
unfolding tmp_digits
octal_text = refl

put_dec-decimal_example : put_dec 18446744073709551615 ≡ decimal 24 18446744073709551615
put_dec-decimal_example = put_dec-decimal 18446744073709551615 (omega arith)

-- "%06lo"
abbrev zeros_spec : PrintfSpec
zeros_spec = record octal_spec { flags = record no_flags { zeropad = true } }

number_text-simple_strtoull_example :
    simple_strtoull (number_text zeros_spec 4095 ++ 0 ∷ []) 8 ≡ (4095, 0 ∷ [])
number_text-simple_strtoull_example =
    number_text-simple_strtoull zeros_spec 4095 [] (inl refl) (omega arith) refl refl refl
      (inl refl)

-- "%6.1s" of "hi"
abbrev narrow_spec : PrintfSpec
narrow_spec = record empty_spec { type = FormatType.str; field_width = pos 6; precision = pos 1 }

string-puts_example :
    string 4 greeting 5000 narrow_spec blank_out
    ≡ puts 4 (string_text greeting 5000 narrow_spec) blank_out
string-puts_example = string-puts 4 greeting 5000 narrow_spec blank_out
