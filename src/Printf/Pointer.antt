-- ===== src/Printf/Pointer.antt =====
-- What follows %p: pointer_string, hex_string, mac_address_string, err_ptr and pointer of
-- apps/lib/vsprintf.c. `fmt` is the format behind the 'p'.
pub mod Shown
pub mod Hex
use dragon_stub.Base.{
  ℕ, zero, suc, ◌+◌, ◌-◌, ◌*◌, ◌/◌, ◌%◌, ◌^◌, min, bit_and, Bool, true, false, ◌&&◌, ◌||◌, not,
  List, [], ◌∷◌, ◌==◌, ltb, leb, if◌then◌else◌,
}
use dragon_stub.Base.Int.{ℤ, pos, negsuc}
use dragon_stub.Machine.{Memory}
use dragon_stub.Printf.{Flags, PrintfSpec, Out, put}
use dragon_stub.Printf.Number.{digit_char, number}
use dragon_stub.Printf.Text.{text_at, string_nocheck, error_string, check_pointer, string, is_err}
use dragon_stub.Printf.Format.{head, tail}

-- The spec with which pointer_string prints.
unfoldable pub pointer_spec : PrintfSpec → PrintfSpec
pointer_spec spec =
    let small = record spec { base = 16; flags = record spec.flags { small = true } } in
    elim spec.field_width [
      | pos n ↦ small
      | negsuc n ↦
          if n == 0
          then record small {
            field_width = pos 16;
            flags = record spec.flags { small = true; zeropad = true };
          }
          else small
    ]

unfoldable pub pointer_string : (size ptr : ℕ) → PrintfSpec → Out → Out
unfolding pointer_spec number
pointer_string size ptr spec o = number size ptr (pointer_spec spec) o

-- hex_asc_hi and hex_asc_lo, in lower case
abbrev pub hex_asc_hi : ℕ → ℕ
hex_asc_hi byte = digit_char true (byte / 16 % 16)

abbrev pub hex_asc_lo : ℕ → ℕ
hex_asc_lo byte = digit_char true (byte % 16)

-- The separator of hex_string, 0 for none.
abbrev pub hex_separator : ℕ → ℕ
hex_separator c =
    if c == b'C' then b':' else if c == b'D' then b'-' else if c == b'N' then 0 else b' '

-- The count of bytes that hex_string shows.
abbrev pub hex_len : ℤ → ℕ
hex_len (pos n) = min n 64
hex_len (negsuc n) = 1

-- The loop of hex_string over the last `n` bytes.
unfoldable pub put_hex : (size : ℕ) → Memory → (addr n separator : ℕ) → Out → Out
put_hex size f addr zero separator o = o
put_hex size f addr (suc n) separator o =
    let o1 = put size (hex_asc_lo (f addr)) (put size (hex_asc_hi (f addr)) o) in
    let o2 = if not (separator == 0) && not (n == 0) then put size separator o1 else o1 in
    put_hex size f (addr + 1) n separator o2

abbrev pub is_zero : ℤ → Bool
is_zero (pos n) = n == 0
is_zero (negsuc n) = false

unfoldable pub hex_string :
    (size : ℕ) → Memory → (addr : ℕ) → PrintfSpec → (fmt : List ℕ) → Out → Out
unfolding put_hex check_pointer
hex_string size f addr spec fmt o =
    if is_zero spec.field_width
    then o
    else check_pointer size addr spec
        (put_hex size f addr (hex_len spec.field_width) (hex_separator (head (tail fmt)))) o

-- The loop of mac_address_string over the last `n` of the six bytes.
unfoldable pub mac_bytes : Memory → (addr n : ℕ) (reversed colons : Bool) (separator : ℕ) → List ℕ
mac_bytes f addr zero reversed colons separator = []
mac_bytes f addr (suc n) reversed colons separator =
    let byte = f (if reversed then addr + n else addr + (5 - n)) in
    let rest = mac_bytes f addr n reversed colons separator in
    hex_asc_hi byte ∷ hex_asc_lo byte ∷ (if colons && not (n == 0) then separator ∷ rest else rest)

-- mac_addr
abbrev pub mac_addr : Memory → (addr : ℕ) (fmt : List ℕ) → List ℕ
mac_addr f addr fmt =
    let kind = head (tail fmt) in
    mac_bytes f addr 6 (kind == b'R') (head fmt == b'M') (if kind == b'F' then b'-' else b':')

unfoldable pub mac_address_string :
    (size : ℕ) → Memory → (addr : ℕ) → PrintfSpec → (fmt : List ℕ) → Out → Out
unfolding check_pointer string_nocheck mac_bytes
mac_address_string size f addr spec fmt o =
    check_pointer size addr spec (string_nocheck size (text_at (mac_addr f addr fmt)) 0 spec) o

-- `int err = PTR_ERR(ptr)`, widened to 64 bits again
abbrev pub sign_extend : (w n : ℕ) → ℕ
sign_extend w n =
    let low = n % 2 ^ w in if ltb low (2 ^ (w - 1)) then low else low + (2 ^ 64 - 2 ^ w)

unfoldable pub err_ptr : (size ptr : ℕ) → PrintfSpec → Out → Out
unfolding number
err_ptr size ptr spec o =
    number size (sign_extend 32 ptr)
      (record spec { base = 10; flags = record spec.flags { sign = true } }) o

abbrev pub einval_text : List ℕ
einval_text = b'(' ∷ b'e' ∷ b'i' ∷ b'n' ∷ b'v' ∷ b'a' ∷ b'l' ∷ b')' ∷ []

-- pointer; default_pointer is pointer_string.
unfoldable pub pointer : (size : ℕ) → Memory → (fmt : List ℕ) → (ptr : ℕ) → PrintfSpec → Out → Out
unfolding hex_string mac_address_string pointer_string err_ptr string error_string
pointer size f fmt ptr spec o =
    let c = head fmt in
    if c == b'h'
    then hex_string size f ptr spec fmt o
    else if (c == b'M') || (c == b'm')
    then mac_address_string size f ptr spec fmt o
    else if c == b'x'
    then pointer_string size ptr spec o
    else if c == b'e'
    then (if not (is_err ptr) then pointer_string size ptr spec o else err_ptr size ptr spec o)
    else if (c == b'u') || (c == b'k')
    then (if head (tail fmt) == b's'
        then string size f ptr spec o
        else error_string size einval_text spec o)
    else pointer_string size ptr spec o
