-- ===== src/Printf/Number.antt =====
-- number and special_hex_number of apps/lib/vsprintf.c.
pub mod Shown
pub mod Read
pub mod RoundTrip
use dragon_stub.Base.{
  ℕ, zero, suc, ◌+◌, ◌-◌, ◌*◌, ◌/◌, ◌%◌, ◌^◌, max, bit_or, Bool, true, false, ◌&&◌, ◌||◌, not, List,
  [], ◌∷◌, ◌++◌, ◌==◌, ltb, leb, if◌then◌else◌, length, reverse,
}
use dragon_stub.Base.Int.{ℤ, pos, negsuc, minus_one, to_ℕ, less}
use dragon_stub.Printf.{FormatType, Flags, no_flags, PrintfSpec, Out, put, puts, fill}
use dragon_stub.Printf.Decimal.{put_dec}

-- hex_asc_upper[d] | locase
unfoldable pub digit_char : (small : Bool) → (d : ℕ) → ℕ
digit_char small d =
    bit_or (if ltb d 10 then b'0' + d else b'A' + (d - 10)) (if small then 0x20 else 0)

-- The loop over the digits of base 8 or 16, the lowest first, with fuel for the size of `tmp`.
unfoldable pub shift_digits : (fuel : ℕ) (small : Bool) (base num : ℕ) → List ℕ
unfolding digit_char
shift_digits zero small base num = []
shift_digits (suc fuel) small base num =
    let rest = shift_digits fuel small base (num / base) in
    digit_char small (num % base) ∷ (if num / base == 0 then [] else rest)

-- `tmp`: the digits in reverse order.
unfoldable pub tmp_digits : (small : Bool) (base num : ℕ) → List ℕ
unfolding shift_digits digit_char
tmp_digits small base num =
    if ltb num base
    then digit_char small num ∷ []
    else if not (base == 10)
    then shift_digits 24 small base num
    else put_dec num

-- The sign, 0 for none, and the number less its sign.
unfoldable pub sign_of : Flags → (num : ℕ) → ℕ × ℕ
sign_of flags num =
    if not flags.sign
    then (0, num)
    else if leb (2 ^ 63) num
    then (b'-', 2 ^ 64 - num)
    else if flags.plus
    then (b'+', num)
    else if flags.space
    then (b' ', num)
    else (0, num)

abbrev pub needs_prefix : PrintfSpec → Bool
needs_prefix spec = spec.flags.special && not (spec.base == 10)

-- The columns that the sign and the prefix take of the field's width.
unfoldable pub inner_width : PrintfSpec → (num : ℕ) → ℤ
unfolding sign_of
inner_width spec num =
    let width =
      if (sign_of spec.flags num).0 == 0 then spec.field_width else less spec.field_width 1 in
    if not (needs_prefix spec)
    then width
    else if spec.base == 16
    then less width 2
    else if num == 0
    then width
    else less width 1

-- `while (--field_width >= 0)`: the count of rounds, and what the counter is afterwards.
abbrev pub rounds : ℤ → ℕ
rounds field_width = to_ℕ field_width

abbrev pub after_rounds : ℤ → ℤ
after_rounds (pos n) = minus_one
after_rounds (negsuc n) = negsuc (suc n)

abbrev pub put_sign : (size sign : ℕ) → Out → Out
put_sign size sign o = if sign == 0 then o else put size sign o

unfoldable pub put_prefix : (size : ℕ) → PrintfSpec → (num : ℕ) → Out → Out
put_prefix size spec num o =
    if not (needs_prefix spec)
    then o
    else if spec.base == 16
    then put size (if spec.flags.small then b'x' else b'X') (put size b'0' o)
    else if num == 0
    then o
    else put size b'0' o

-- `spec.precision` where it is above the count of digits, else that count.
abbrev pub digit_columns : PrintfSpec → (count : ℕ) → ℕ
digit_columns spec count = max (to_ℕ spec.precision) count

-- LEFT clears ZEROPAD.
abbrev pub pads_zeros : Flags → Bool
pads_zeros flags = flags.zeropad && not flags.left

-- number, its digits and the width that is left to pad computed.
unfoldable pub put_number :
    (size : ℕ) → PrintfSpec → (num : ℕ) (digits : List ℕ) (width : ℤ) → Out → Out
unfolding put_prefix
put_number size spec num digits width o =
    let leading = not (pads_zeros spec.flags) && not spec.flags.left in
    let o1 = if leading then fill size (rounds width) b' ' o else o in
    let width1 = if leading then after_rounds width else width in
    let o2 = put_prefix size spec num (put_sign size (sign_of spec.flags num).0 o1) in
    let pad = if pads_zeros spec.flags then b'0' else b' ' in
    let o3 = if spec.flags.left then o2 else fill size (rounds width1) pad o2 in
    let width2 = if spec.flags.left then width1 else after_rounds width1 in
    let o4 = fill size (digit_columns spec (length digits) - length digits) b'0' o3 in
    fill size (rounds width2) b' ' (puts size (reverse digits) o4)

-- number
unfoldable pub number : (size : ℕ) → (num : ℕ) → PrintfSpec → Out → Out
unfolding tmp_digits sign_of inner_width put_number
number size num spec o =
    let digits = tmp_digits spec.flags.small spec.base (sign_of spec.flags num).1 in
    let width = less (inner_width spec num) (digit_columns spec (length digits)) in
    put_number size spec num digits width o

-- The spec of special_hex_number, for a number of `bytes` bytes.
abbrev pub special_hex_spec : (bytes : ℕ) → PrintfSpec
special_hex_spec bytes = record {
  type = FormatType.ptr;
  field_width = pos (2 + 2 * bytes);
  flags = record no_flags { special = true; small = true; zeropad = true };
  base = 16;
  precision = minus_one;
}

unfoldable pub special_hex_number : (size num bytes : ℕ) → Out → Out
unfolding number
special_hex_number size num bytes o = number size num (special_hex_spec bytes) o
