-- ===== src/Printf/Text.antt =====
-- The strings of apps/lib/vsprintf.c: move_right, widen_string, string_nocheck, error_string,
-- check_pointer and string. `f` is the memory that the arguments point into; the output buffer is
-- apart from it.
pub mod Padded
pub mod Shown
use dragon_stub.Base.{
  ℕ, zero, suc, ◌+◌, ◌-◌, ◌*◌, ◌%◌, ◌^◌, min, Bool, true, false, ◌&&◌, ◌||◌, Option, none, some,
  List, [], ◌∷◌, ◌==◌, ltb, leb, if◌then◌else◌, get_or, length,
}
use dragon_stub.Base.Int.{ℤ, pos, negsuc, minus_one, to_ℕ}
use dragon_stub.Machine.{Memory}
use dragon_stub.Printf.{PrintfSpec, Out, put, puts, fill}

-- move_right on the `len` bytes from index `start` on.
unfoldable pub move_right : (size start len spaces : ℕ) → (ℕ → ℕ) → ℕ → ℕ
move_right size start len spaces b i =
    let room = size - start in
    let moved = min len (room - spaces) in
    if leb size start
    then b i
    else if leb room spaces
    then (if leb start i && ltb i size then b' ' else b i)
    else if leb start i && ltb i (start + spaces)
    then b' '
    else if leb (start + spaces) i && ltb i (start + spaces + moved)
    then b (i - spaces)
    else b i

-- widen_string after a string of `n` bytes.
unfoldable pub widen_string : (size n : ℕ) → PrintfSpec → Out → Out
unfolding move_right fill
widen_string size n spec o =
    let spaces = to_ℕ spec.field_width - n in
    if spaces == 0
    then o
    else if spec.flags.left
    then fill size spaces b' ' o
    else record { bytes = move_right size (o.at - n) n spaces o.bytes; at = o.at + spaces }

-- `lim--` counts an `int` down from the precision; -1 goes round through all 32-bit words.
unfoldable pub limit : ℤ → ℕ
limit (pos n) = n
limit (negsuc n) = 2 ^ 32 - 1 - n

-- The loop of string_nocheck: the output, and `len`.
unfoldable pub copy_string : (size lim : ℕ) → Memory → (s len : ℕ) → Out → Out × ℕ
copy_string size zero f s len o = (o, len)
copy_string size (suc lim) f s len o = elim (f s == 0) [
  | true ↦ (o, len)
  | false ↦ copy_string size lim f (s + 1) (suc len) (put size (f s) o)
]

unfoldable pub string_nocheck : (size : ℕ) → Memory → (s : ℕ) → PrintfSpec → Out → Out
unfolding copy_string widen_string limit
string_nocheck size f s spec o =
    let copied = copy_string size (limit spec.precision) f s 0 o in
    widen_string size copied.1 spec copied.0

-- A string of the program's own text, as a memory that holds it from address 0 on.
abbrev pub text_at : List ℕ → Memory
text_at text i = get_or text i 0

abbrev pub hard_limit : ℤ → ℤ
hard_limit (pos n) = pos n
hard_limit (negsuc n) = if n == 0 then pos 16 else negsuc n

-- error_string
unfoldable pub error_string : (size : ℕ) → List ℕ → PrintfSpec → Out → Out
unfolding string_nocheck
error_string size text spec o =
    string_nocheck size (text_at text) 0 (record spec { precision = hard_limit spec.precision }) o

abbrev pub null_text : List ℕ
null_text = b'(' ∷ b'n' ∷ b'u' ∷ b'l' ∷ b'l' ∷ b')' ∷ []

abbrev pub efault_text : List ℕ
efault_text = b'(' ∷ b'e' ∷ b'f' ∷ b'a' ∷ b'u' ∷ b'l' ∷ b't' ∷ b')' ∷ []

-- IS_ERR_VALUE: one of the last 4095 addresses.
abbrev pub is_err : ℕ → Bool
is_err ptr = leb (2 ^ 64 - 4095) ptr

unfoldable pub check_pointer_msg : ℕ → Option (List ℕ)
check_pointer_msg ptr =
    if ptr == 0
    then some null_text
    else if ltb ptr 4096 || is_err ptr
    then some efault_text
    else none

-- check_pointer, with what its caller does with a good pointer.
unfoldable pub check_pointer : (size ptr : ℕ) → PrintfSpec → (Out → Out) → Out → Out
unfolding check_pointer_msg error_string
check_pointer size ptr spec good o = elim (check_pointer_msg ptr) [
  | none ↦ good o
  | some err_msg ↦ error_string size err_msg spec o
]

-- string
unfoldable pub string : (size : ℕ) → Memory → (s : ℕ) → PrintfSpec → Out → Out
unfolding check_pointer string_nocheck
string size f s spec o = check_pointer size s spec (string_nocheck size f s spec) o
