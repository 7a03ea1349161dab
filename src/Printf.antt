-- ===== src/Printf.antt =====
-- Formatted output: apps/lib/vsprintf.c. The children follow the file: Decimal and Number print
-- numbers, Text strings, Pointer what follows %p, Format reads a format, and Print puts them
-- together.
pub mod Puts
pub mod Decimal
pub mod Number
pub mod Text
pub mod Pointer
pub mod Format
pub mod Print
use dragon_stub.Base.{
  ℕ, zero, suc, ◌≡◌, refl, Bool, true, false, List, [], ◌∷◌, ◌==◌, ltb, if◌then◌else◌,
}
use dragon_stub.Base.Int.{ℤ}

-- enum format_type
pub data FormatType : Type 0 where
  plain width precision char str ptr percent_char invalid long_long ulong long ubyte byte ushort
        short uint int size_t ptrdiff :
      FormatType

-- The bits SIGN to SPECIAL of the flags.
pub record Flags : Type 0 where
  pub sign : Bool
  pub left : Bool
  pub plus : Bool
  pub space : Bool
  pub zeropad : Bool
  pub small : Bool
  pub special : Bool

abbrev pub no_flags : Flags
no_flags = record {
  sign = false;
  left = false;
  plus = false;
  space = false;
  zeropad = false;
  small = false;
  special = false;
}

-- struct printf_spec: the width has 24 bits and the precision 16, both signed.
pub record PrintfSpec : Type 0 where
  pub type : FormatType
  pub field_width : ℤ
  pub flags : Flags
  pub base : ℕ
  pub precision : ℤ

-- The output: the bytes by their index from `buf`, and the index of `str`.
pub record Out : Type 0 where
  pub bytes : ℕ → ℕ
  pub at : ℕ

-- `if (buf < end) *buf = c; ++buf;` for a buffer of `size` bytes.
abbrev pub put : (size c : ℕ) → Out → Out
put size c o = record {
  bytes = if ltb o.at size then (λ i. if i == o.at then c else o.bytes i) else o.bytes;
  at = suc o.at;
}

-- The same for each byte of a list.
abbrev pub puts : (size : ℕ) → List ℕ → Out → Out
puts size [] o = o
puts size (c ∷ s) o = puts size s (put size c o)

-- A loop that puts one byte `n` times.
unfoldable pub fill : (size n c : ℕ) → Out → Out
fill size zero c o = o
fill size (suc n) c o = fill size n c (put size c o)
