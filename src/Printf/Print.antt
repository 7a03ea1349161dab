-- ===== src/Printf/Print.antt =====
-- vsnprintf and snprintf of apps/lib/vsprintf.c. The variable arguments are 64-bit words, of which a
-- narrower type reads the low bits; `f` is the memory that pointer arguments point into, apart from
-- the output buffer. A byte is below 256.
pub mod Shown
pub mod Buffer
use dragon_stub.Base.{
  ℕ, zero, suc, ◌+◌, ◌-◌, ◌%◌, ◌^◌, ◌≤◌, min, bit_or, Bool, true, false, ◌&&◌, ◌||◌, not, Option,
  none, some, List, [], ◌∷◌, ◌==◌, ltb, leb, if◌then◌else◌, length, take, get_or,
}
use dragon_stub.Base.Int.{ℤ, pos, negsuc, minus_one, to_ℕ, signed}
use dragon_stub.Machine.{Memory}
use dragon_stub.Text.CType.{isalnum}
use dragon_stub.Printf.{FormatType, Flags, no_flags, PrintfSpec, Out, put, fill}
use dragon_stub.Printf.Number.{number}
use dragon_stub.Printf.Text.{string}
use dragon_stub.Printf.Pointer.{sign_extend, pointer}
use dragon_stub.Printf.Format.{head, tail, format_decode}
use dragon_stub.Printf.Format.Progress.{is_invalid}

-- clamp(value, -(2^w - 1), 2^w - 1) of an `int`
abbrev pub clamp : (w : ℕ) → ℤ → ℤ
clamp w (pos n) = pos (min n (2 ^ w - 1))
clamp w (negsuc n) = negsuc (min n (2 ^ w - 2))

-- Whether a field of `w + 1` bits holds the value.
abbrev pub fits : (w : ℕ) → ℤ → Bool
fits w (pos n) = ltb n (2 ^ w)
fits w (negsuc n) = ltb n (2 ^ w)

abbrev pub set_field_width : ℤ → PrintfSpec → PrintfSpec
set_field_width width spec = record spec {
  field_width = if fits 23 width then width else clamp 23 width;
}

-- A precision out of range is clamped to 0 and PRECISION_MAX.
abbrev pub clamp_precision : ℤ → ℤ
clamp_precision (pos n) = pos (min n (2 ^ 15 - 1))
clamp_precision (negsuc n) = pos 0

abbrev pub set_precision : ℤ → PrintfSpec → PrintfSpec
set_precision prec spec = record spec {
  precision = if fits 15 prec then prec else clamp_precision prec;
}

-- `--spec.field_width`, in 24 bits
abbrev pub decrement : ℤ → ℤ
decrement (pos n) = if n == 0 then minus_one else pos (n - 1)
decrement (negsuc n) = if n == 2 ^ 23 - 1 then pos (2 ^ 23 - 1) else negsuc (n + 1)

-- `while (--spec.field_width > 0)`: the count of rounds, and what the field is afterwards.
abbrev pub char_rounds : ℤ → ℕ
char_rounds width = to_ℕ (decrement width)

abbrev pub not_positive : ℤ → ℤ
not_positive (pos n) = pos 0
not_positive (negsuc n) = negsuc n

abbrev pub after_char_rounds : ℤ → ℤ
after_char_rounds width = not_positive (decrement width)

-- The width that the loops of a character leave in the spec.
abbrev pub char_width : PrintfSpec → ℤ
char_width spec =
    after_char_rounds
      (if spec.flags.left then spec.field_width else after_char_rounds spec.field_width)

unfoldable pub print_char : (size arg : ℕ) → PrintfSpec → Out → Out
unfolding fill
print_char size arg spec o =
    let width = spec.field_width in
    let o1 = if spec.flags.left then o else fill size (char_rounds width) b' ' o in
    let width1 = if spec.flags.left then width else after_char_rounds width in
    fill size (char_rounds width1) b' ' (put size (arg % 2 ^ 8) o1)

-- The copy of plain text, `read` bytes of `old_fmt`.
unfoldable pub print_plain : (size read : ℕ) (old_fmt : List ℕ) → Out → Out
print_plain size read old_fmt o =
    let copy = if leb read (size - o.at) then read else size - o.at in
    record {
      bytes =
          if ltb o.at size
          then (λ i.
              if leb o.at i && ltb i (o.at + copy) then get_or old_fmt (i - o.at) 0 else o.bytes i)
          else o.bytes;
      at = o.at + read;
    }

-- `num`, as va_arg reads it for the type.
abbrev pub integer_arg : FormatType → (arg : ℕ) → ℕ
integer_arg FormatType.long_long arg = arg % 2 ^ 64
integer_arg FormatType.ulong arg = arg % 2 ^ 64
integer_arg FormatType.long arg = arg % 2 ^ 64
integer_arg FormatType.size_t arg = arg % 2 ^ 64
integer_arg FormatType.ptrdiff arg = arg % 2 ^ 64
integer_arg FormatType.ubyte arg = arg % 2 ^ 8
integer_arg FormatType.byte arg = sign_extend 8 arg
integer_arg FormatType.ushort arg = arg % 2 ^ 16
integer_arg FormatType.short arg = sign_extend 16 arg
integer_arg FormatType.int arg = sign_extend 32 arg
integer_arg type arg = arg % 2 ^ 32

abbrev pub skip_while : (test : ℕ → Bool) → List ℕ → List ℕ
skip_while test [] = []
skip_while test (c ∷ s) = let rest = skip_while test s in if test c then rest else c ∷ s

-- `while (isalnum(*fmt)) fmt++;`
unfoldable pub skip_alnum : List ℕ → List ℕ
unfolding isalnum
skip_alnum s = skip_while isalnum s

-- What the loop of vsnprintf changes; `next` counts the arguments read.
pub record Run : Type 0 where
  pub fmt : List ℕ
  pub spec : PrintfSpec
  pub next : ℕ
  pub out : Out

-- The output of a token: `fmt` is the format behind it, `old_fmt` the one from it on.
abbrev pub token_out :
    FormatType → (size : ℕ) → Memory → PrintfSpec → (old_fmt fmt : List ℕ) → (arg : ℕ) → Out → Out
token_out FormatType.plain size f spec old_fmt fmt arg o =
    print_plain size (length old_fmt - length fmt) old_fmt o
token_out FormatType.width size f spec old_fmt fmt arg o = o
token_out FormatType.precision size f spec old_fmt fmt arg o = o
token_out FormatType.char size f spec old_fmt fmt arg o = print_char size arg spec o
token_out FormatType.str size f spec old_fmt fmt arg o = string size f (arg % 2 ^ 64) spec o
token_out FormatType.ptr size f spec old_fmt fmt arg o = pointer size f fmt (arg % 2 ^ 64) spec o
token_out FormatType.percent_char size f spec old_fmt fmt arg o = put size b'%' o
token_out FormatType.invalid size f spec old_fmt fmt arg o = o
token_out type size f spec old_fmt fmt arg o = number size (integer_arg type arg) spec o

-- What a '*' reads into the spec, and what a character leaves there.
abbrev pub token_spec : FormatType → (arg : ℕ) → PrintfSpec → PrintfSpec
token_spec FormatType.width arg spec = set_field_width (signed 32 arg) spec
token_spec FormatType.precision arg spec = set_precision (signed 32 arg) spec
token_spec FormatType.char arg spec = record spec { field_width = char_width spec }
token_spec type arg spec = spec

-- Arguments that a token reads.
abbrev pub token_args : FormatType → ℕ
token_args FormatType.plain = 0
token_args FormatType.percent_char = 0
token_args FormatType.invalid = 0
token_args type = 1

unfoldable pub token_fmt : FormatType → List ℕ → List ℕ
unfolding skip_alnum
token_fmt FormatType.ptr fmt = skip_alnum fmt
token_fmt type fmt = fmt

-- A round of the loop; `none` is the jump to `out`.
unfoldable pub print_token : (size : ℕ) → Memory → (args : ℕ → ℕ) → Run → Option Run
unfolding format_decode print_plain print_char number string pointer token_fmt
print_token size f args r =
    let decoded = format_decode r.spec r.fmt in
    let type = decoded.0.type in
    let arg = args r.next in
    if is_invalid type
    then none
    else some (record {
      fmt = token_fmt type decoded.1;
      spec = token_spec type arg decoded.0;
      next = r.next + token_args type;
      out = token_out type size f decoded.0 r.fmt decoded.1 arg r.out;
    })

-- The loop of vsnprintf, `none` for a lack of fuel.
unfoldable pub print_loop : (fuel size : ℕ) → Memory → (args : ℕ → ℕ) → Run → Option Out
unfolding print_token
print_loop zero size f args r = if head r.fmt == 0 then some r.out else none
print_loop (suc fuel) size f args r = elim (head r.fmt == 0) [
  | true ↦ some r.out
  | false ↦ elim (print_token size f args r) [
    | none ↦ some r.out
    | some later ↦ print_loop fuel size f args later
  ]
]

-- struct printf_spec spec = { 0 };
abbrev pub empty_spec : PrintfSpec
empty_spec = record {
  type = FormatType.plain;
  field_width = pos 0;
  flags = no_flags;
  base = 0;
  precision = pos 0;
}

-- The size with `end` no further than the last address.
abbrev pub room : (buf size : ℕ) → ℕ
room buf size = if ltb ((buf + size) % 2 ^ 64) buf then 2 ^ 64 - 1 - buf else size

-- The terminating NUL.
abbrev pub terminate : (size : ℕ) → Out → Out
terminate size o = record o {
  bytes = λ i.
      if not (size == 0) && (i == (if ltb o.at size then o.at else size - 1)) then 0 else o.bytes i;
}

-- The value that is returned, an `int`, and the bytes from `buf` on.
unfoldable pub vsnprintf :
    (buf size : ℕ) (fmt : List ℕ) → Memory → (args : ℕ → ℕ) → (ℕ → ℕ) → Option (ℕ × (ℕ → ℕ))
unfolding print_loop
vsnprintf buf size fmt f args bytes =
    if ltb (2 ^ 31 - 1) size
    then some (0, bytes)
    else (let start : Run = record {
      fmt = fmt;
      spec = empty_spec;
      next = 0;
      out = record { bytes = bytes; at = 0 };
    } in
        elim (print_loop (length fmt) (room buf size) f args start) [
          | none ↦ none
          | some o ↦ some (o.at % 2 ^ 32, (terminate (room buf size) o).bytes)
        ])

-- snprintf, the variable arguments as a list; what is not passed is 0 here.
unfoldable pub snprintf :
    (buf size : ℕ) (fmt : List ℕ) → Memory → (args : List ℕ) → (ℕ → ℕ) → Option (ℕ × (ℕ → ℕ))
unfolding vsnprintf
snprintf buf size fmt f args bytes = vsnprintf buf size fmt f (λ i. get_or args i 0) bytes
