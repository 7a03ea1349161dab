-- ===== src/CmdLine.antt =====
-- The command line: apps/lib/cmdline.c, and the parsing functions of apps/helper.c. A string that
-- is cut in place is a buffer of bytes with indices into it; a read past the buffer gives zero.
pub mod Options
pub mod NextArg
pub mod Words
pub mod Suffix
pub mod Ints
pub mod Fields
pub mod Convert
pub mod Efi
use dragon_stub.Base.{
  ℕ, zero, suc, ◌+◌, ◌-◌, ◌*◌, ◌%◌, ◌^◌, Bool, true, false, ◌&&◌, ◌||◌, not, List, [], ◌∷◌, Option,
  none, some, ◌==◌, ltb, leb, if◌then◌else◌, length, drop, get_or, set,
}
use dragon_stub.Text.CType.{isspace}
use dragon_stub.Text.Str.{strlen, strncmp, skip_spaces, simple_strtoull, simple_strtol, cstr}

-- parse_option_str: the inner loop skips to the next comma, and past it.
unfoldable pub skip_field : List ℕ → List ℕ
skip_field [] = []
skip_field (c ∷ s) = if c == 0 then c ∷ s else if c == b',' then s else skip_field s

-- parse_option_str: the outer loop, with fuel for its rounds.
unfoldable pub parse_option_loop : ℕ → (option str : List ℕ) → Option Bool
unfolding skip_field
parse_option_loop zero option str = none
parse_option_loop (suc fuel) option str =
    let matched = strncmp str option (strlen option) == 0 in
    let str1 = if matched then drop (strlen option) str else str in
    let next = get_or str1 0 0 in
    let rest = parse_option_loop fuel option (skip_field str1) in
    if get_or str 0 0 == 0
    then some false
    else if matched && ((next == 0) || (next == b','))
    then some true
    else rest

-- parse_option_str
unfoldable pub parse_option_str : (str option : List ℕ) → Option Bool
unfolding parse_option_loop
parse_option_str str option = parse_option_loop (suc (length str)) option str

-- get_option: the result code, the 32-bit word stored in `*pint` if any, and `*str`.
unfoldable pub get_option : List ℕ → ℕ × (Option ℕ × List ℕ)
get_option [] = (0, (none, []))
get_option (c ∷ cur) =
    let minus = c == b'-' in
    let start = if minus then cur else c ∷ cur in
    let r = simple_strtoull start 0 in
    let value = some ((if minus then (2 ^ 64 - r.0) % 2 ^ 64 else r.0) % 2 ^ 32) in
    let next = get_or r.1 0 0 in
    if c == 0
    then (0, (none, c ∷ cur))
    else if length r.1 == length start
    then (0, (value, r.1))
    else if next == b','
    then (2, (value, drop 1 r.1))
    else if next == b'-'
    then (3, (value, r.1))
    else (1, (value, r.1))

-- The switch of memparse: its cases fall through, and each shifts `ret` by ten.
unfoldable pub shift_ten : ℕ → ℕ → ℕ
shift_ten zero ret = ret
shift_ten (suc n) ret = shift_ten n (ret * 2 ^ 10 % 2 ^ 64)

unfoldable pub suffix_steps : ℕ → ℕ
suffix_steps c =
    if (c == b'E') || (c == b'e')
    then 6
    else if (c == b'P') || (c == b'p')
    then 5
    else if (c == b'T') || (c == b't')
    then 4
    else if (c == b'G') || (c == b'g')
    then 3
    else if (c == b'M') || (c == b'm')
    then 2
    else if (c == b'K') || (c == b'k')
    then 1
    else 0

-- memparse: the number, and `*retptr`.
unfoldable pub memparse : List ℕ → ℕ × List ℕ
unfolding shift_ten suffix_steps
memparse ptr =
    let r = simple_strtoull ptr 0 in
    let steps = suffix_steps (get_or r.1 0 0) in
    (shift_ten steps r.0, if steps == 0 then r.1 else drop 1 r.1)

-- next_arg: what it leaves in the buffer, and the pointers that it hands out.
pub record Arg : Type 0 where
  pub buffer : List ℕ
  pub param : ℕ
  pub val : Option ℕ
  pub next : ℕ

-- The scan of next_arg from index `i` of the argument: where it stops, and the index of the
-- first `=`, or 0.
unfoldable pub scan_arg : List ℕ → (i equals : ℕ) (in_quote : Bool) → ℕ × ℕ
scan_arg [] i equals in_quote = (i, equals)
scan_arg (c ∷ s) i equals in_quote =
    let rest =
      scan_arg s (i + 1) (if (equals == 0) && (c == b'=') then i else equals)
        (if c == b'"' then not in_quote else in_quote) in
    if (c == 0) || (isspace c && not in_quote) then (i, equals) else rest

unfoldable pub count_spaces : List ℕ → ℕ
count_spaces [] = 0
count_spaces (c ∷ s) = if isspace c then suc (count_spaces s) else 0

-- The cut at `=` and the quotes round the value.
unfoldable pub cut_value : (buffer : List ℕ) (args i equals : ℕ) → List ℕ × Option ℕ
cut_value buffer args i equals =
    let cut = set buffer (args + equals) 0 in
    let val = args + equals + 1 in
    if equals == 0
    then (buffer, none)
    else if get_or cut val 0 == b'"'
    then (
      (if get_or cut (args + i - 1) 0 == b'"' then set cut (args + i - 1) 0 else cut),
      some (val + 1),
    )
    else (cut, some val)

-- next_arg on the argument at index `start`.
unfoldable pub next_arg : (buffer : List ℕ) (start : ℕ) → Arg
unfolding scan_arg cut_value count_spaces
next_arg buffer start =
    let quoted = get_or buffer start 0 == b'"' in
    let args = if quoted then start + 1 else start in
    let found = scan_arg (drop args buffer) 0 0 quoted in
    let i = found.0 in
    let split = cut_value buffer args i found.1 in
    let unquoted =
      if quoted && (ltb 0 i && (get_or split.0 (args + i - 1) 0 == b'"'))
      then set split.0 (args + i - 1) 0
      else split.0 in
    let more = not (get_or unquoted (args + i) 0 == 0) in
    let final = if more then set unquoted (args + i) 0 else unquoted in
    let after = if more then args + i + 1 else args + i in
    record {
      buffer = final;
      param = args;
      val = split.1;
      next = after + count_spaces (drop after final);
    }
