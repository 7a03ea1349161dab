-- ===== src/Printf/Format/Directive.antt =====
-- What format_decode of apps/lib/vsprintf.c makes of a directive: its text, and what it asks for.
use dragon_stub.Base.{ℕ, ◌+◌, ◌*◌, true, List, [], ◌∷◌}
use dragon_stub.Base.Int.{ℤ, pos, minus_one}
use dragon_stub.Printf.{FormatType, Flags, no_flags, PrintfSpec}

pub data Flag : Type 0 where
  left plus space special zeros : Flag

pub data Length : Type 0 where
  of_int of_byte of_short of_long of_long_long of_size of_ptrdiff : Length

pub data Conversion : Type 0 where
  decimal integer unsigned octal hex upper_hex character string pointer percent : Conversion

-- A number is its decimal digits, the highest first.
pub record Directive : Type 0 where
  pub flags : List Flag
  pub width : List ℕ
  pub precision : List ℕ
  pub length : Length
  pub conversion : Conversion

abbrev pub flag_char : Flag → ℕ
flag_char Flag.left = b'-'
flag_char Flag.plus = b'+'
flag_char Flag.space = b' '
flag_char Flag.special = b'#'
flag_char Flag.zeros = b'0'

abbrev pub flags_text : List Flag → List ℕ → List ℕ
flags_text [] rest = rest
flags_text (flag ∷ flags) rest = flag_char flag ∷ flags_text flags rest

abbrev pub digits_text : List ℕ → List ℕ → List ℕ
digits_text [] rest = rest
digits_text (d ∷ digits) rest = (b'0' + d) ∷ digits_text digits rest

abbrev pub length_text : Length → List ℕ → List ℕ
length_text Length.of_int rest = rest
length_text Length.of_byte rest = b'h' ∷ b'h' ∷ rest
length_text Length.of_short rest = b'h' ∷ rest
length_text Length.of_long rest = b'l' ∷ rest
length_text Length.of_long_long rest = b'l' ∷ b'l' ∷ rest
length_text Length.of_size rest = b'z' ∷ rest
length_text Length.of_ptrdiff rest = b't' ∷ rest

abbrev pub conversion_char : Conversion → ℕ
conversion_char Conversion.decimal = b'd'
conversion_char Conversion.integer = b'i'
conversion_char Conversion.unsigned = b'u'
conversion_char Conversion.octal = b'o'
conversion_char Conversion.hex = b'x'
conversion_char Conversion.upper_hex = b'X'
conversion_char Conversion.character = b'c'
conversion_char Conversion.string = b's'
conversion_char Conversion.pointer = b'p'
conversion_char Conversion.percent = b'%'

abbrev pub ending : Length → Conversion → List ℕ → List ℕ
ending length conversion rest = length_text length (conversion_char conversion ∷ rest)

abbrev pub precision_text : List ℕ → List ℕ → List ℕ
precision_text [] rest = rest
precision_text (d ∷ digits) rest = b'.' ∷ digits_text (d ∷ digits) rest

-- The directive as it stands in a format before `rest`.
abbrev pub directive_text : Directive → (rest : List ℕ) → List ℕ
directive_text d rest =
    b'%'
    ∷ flags_text d.flags
        (digits_text d.width (precision_text d.precision (ending d.length d.conversion rest)))

abbrev pub value : (before : ℕ) → List ℕ → ℕ
value before [] = before
value before (d ∷ digits) = value (before * 10 + d) digits

abbrev pub number : List ℕ → ℤ
number [] = minus_one
number (d ∷ digits) = pos (value 0 (d ∷ digits))

abbrev pub set_flag : Flag → Flags → Flags
set_flag Flag.left flags = record flags { left = true }
set_flag Flag.plus flags = record flags { plus = true }
set_flag Flag.space flags = record flags { space = true }
set_flag Flag.special flags = record flags { special = true }
set_flag Flag.zeros flags = record flags { zeropad = true }

abbrev pub set_flags : List Flag → Flags → Flags
set_flags [] flags = flags
set_flags (flag ∷ more) flags = set_flags more (set_flag flag flags)

abbrev pub signed_type : Length → FormatType
signed_type Length.of_int = FormatType.int
signed_type Length.of_byte = FormatType.byte
signed_type Length.of_short = FormatType.short
signed_type Length.of_long = FormatType.long
signed_type Length.of_long_long = FormatType.long_long
signed_type Length.of_size = FormatType.size_t
signed_type Length.of_ptrdiff = FormatType.ptrdiff

abbrev pub unsigned_type : Length → FormatType
unsigned_type Length.of_int = FormatType.uint
unsigned_type Length.of_byte = FormatType.ubyte
unsigned_type Length.of_short = FormatType.ushort
unsigned_type Length.of_long = FormatType.ulong
unsigned_type Length.of_long_long = FormatType.long_long
unsigned_type Length.of_size = FormatType.size_t
unsigned_type Length.of_ptrdiff = FormatType.ptrdiff

abbrev pub type_of : Length → Conversion → FormatType
type_of length Conversion.decimal = signed_type length
type_of length Conversion.integer = signed_type length
type_of length Conversion.unsigned = unsigned_type length
type_of length Conversion.octal = unsigned_type length
type_of length Conversion.hex = unsigned_type length
type_of length Conversion.upper_hex = unsigned_type length
type_of length Conversion.character = FormatType.char
type_of length Conversion.string = FormatType.str
type_of length Conversion.pointer = FormatType.ptr
type_of length Conversion.percent = FormatType.percent_char

abbrev pub base_of : Conversion → ℕ
base_of Conversion.octal = 8
base_of Conversion.hex = 16
base_of Conversion.upper_hex = 16
base_of conversion = 10

-- The flags that a conversion has by itself.
abbrev pub own_flags : Conversion → Flags → Flags
own_flags Conversion.decimal flags = record flags { sign = true }
own_flags Conversion.integer flags = record flags { sign = true }
own_flags Conversion.hex flags = record flags { small = true }
own_flags conversion flags = flags

-- What the directive asks for; -1 stands for a width or a precision that is not given.
abbrev pub asked : Directive → PrintfSpec
asked d = record {
  type = type_of d.length d.conversion;
  field_width = number d.width;
  flags = own_flags d.conversion (set_flags d.flags no_flags);
  base = base_of d.conversion;
  precision = number d.precision;
}
