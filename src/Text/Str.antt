-- ===== src/Text/Str.antt =====
-- The functions of apps/lib/string.c that the stub calls, and memcmp of lib/init.c. A result of
-- type `int` is its 32-bit word; a returned pointer into a string is the list from it on.
use dragon_stub.Base.{
  ℕ, zero, suc, ◌+◌, ◌-◌, ◌*◌, ◌%◌, ◌^◌, Bool, ◌&&◌, List, [], ◌∷◌, Option, none, some, ◌==◌, ltb,
  leb, if◌then◌else◌, drop, get_or,
}
use dragon_stub.Text.CType.{isspace, isdigit, isxdigit, to_lower}

abbrev pub int_minus_one : ℕ
int_minus_one = 2 ^ 32 - 1

-- The string up to its terminator.
abbrev pub cstr : List ℕ → List ℕ
cstr [] = []
cstr (c ∷ s) = if c == 0 then [] else c ∷ cstr s

unfoldable pub strlen : List ℕ → ℕ
strlen [] = 0
strlen (c ∷ s) = if c == 0 then 0 else suc (strlen s)

unfoldable pub skip_spaces : List ℕ → List ℕ
skip_spaces [] = []
skip_spaces (c ∷ s) = if isspace c then skip_spaces s else c ∷ s

-- The accumulator is an unsigned int.
unfoldable pub atou_from : ℕ → List ℕ → ℕ
atou_from i [] = i
atou_from i (c ∷ s) =
    let rest = atou_from ((i * 10 + (c - b'0')) % 2 ^ 32) s in if isdigit c then rest else i

unfoldable pub atou : List ℕ → ℕ
unfolding atou_from
atou s = atou_from 0 s

unfoldable pub simple_guess_base : List ℕ → ℕ
simple_guess_base cp =
    if get_or cp 0 0 == b'0'
    then (if (to_lower (get_or cp 1 0) == b'x') && isxdigit (get_or cp 2 0) then 16 else 8)
    else 10

abbrev pub digit_value : ℕ → ℕ
digit_value c = if isdigit c then c - b'0' else to_lower c - b'a' + 10

-- The loop of simple_strtoull: the value modulo 2 ^ 64, and `*endp`.
unfoldable pub strtoull_loop : (base result : ℕ) → List ℕ → ℕ × List ℕ
strtoull_loop base result [] = (result, [])
strtoull_loop base result (c ∷ cp) =
    let rest = strtoull_loop base ((result * base + digit_value c) % 2 ^ 64) cp in
    if isxdigit c && ltb (digit_value c) base then rest else (result, c ∷ cp)

unfoldable pub simple_strtoull : List ℕ → ℕ → ℕ × List ℕ
simple_strtoull cp base0 =
    let base = if base0 == 0 then simple_guess_base cp else base0 in
    let prefixed =
      (base == 16) && ((get_or cp 0 0 == b'0') && (to_lower (get_or cp 1 0) == b'x')) in
    strtoull_loop base 0 (if prefixed then drop 2 cp else cp)

-- A `long` is its 64-bit word.
unfoldable pub simple_strtol : List ℕ → ℕ → ℕ × List ℕ
simple_strtol cp base =
    if get_or cp 0 0 == b'-'
    then (let r = simple_strtoull (drop 1 cp) base in ((2 ^ 64 - r.0) % 2 ^ 64, r.1))
    else simple_strtoull cp base

unfoldable pub strcmp : List ℕ → List ℕ → ℕ
strcmp [] [] = 0
strcmp [] (d ∷ t) = (2 ^ 32 - d) % 2 ^ 32
strcmp (c ∷ s) [] = c
strcmp (c ∷ s) (d ∷ t) =
    let rest = strcmp s t in
    if (c == 0) && (d == 0) then 0 else if c == d then rest else (c + 2 ^ 32 - d) % 2 ^ 32

unfoldable pub strncmp : List ℕ → List ℕ → ℕ → ℕ
strncmp cs ct zero = 0
strncmp cs ct (suc count) =
    let c1 = get_or cs 0 0 in
    let c2 = get_or ct 0 0 in
    let rest = strncmp (drop 1 cs) (drop 1 ct) count in
    if c1 == c2 then (if c1 == 0 then 0 else rest) else (if ltb c1 c2 then int_minus_one else 1)

unfoldable pub strnlen : List ℕ → ℕ → ℕ
strnlen s zero = 0
strnlen [] (suc maxlen) = 0
strnlen (c ∷ s) (suc maxlen) = if c == 0 then 0 else suc (strnlen s maxlen)

-- strstarts of inc/dragonstub/dragonstub.h
unfoldable pub strstarts : List ℕ → List ℕ → Bool
strstarts str prefix = strncmp str prefix (strlen prefix) == 0

unfoldable pub memcmp : List ℕ → List ℕ → ℕ → ℕ
memcmp l r zero = 0
memcmp l r (suc n) =
    let rest = memcmp (drop 1 l) (drop 1 r) n in
    if get_or l 0 0 == get_or r 0 0 then rest else (get_or l 0 0 + 2 ^ 32 - get_or r 0 0) % 2 ^ 32

-- The loop of strstr: `l1` bytes of `s1` are left.
unfoldable pub strstr_loop : (l2 : ℕ) (s2 : List ℕ) (l1 : ℕ) (s1 : List ℕ) → Option (List ℕ)
strstr_loop l2 s2 zero s1 = none
strstr_loop l2 s2 (suc l1) s1 =
    let rest = strstr_loop l2 s2 l1 (drop 1 s1) in
    if leb l2 (suc l1) then (if memcmp s1 s2 l2 == 0 then some s1 else rest) else none

unfoldable pub strstr : List ℕ → List ℕ → Option (List ℕ)
unfolding strstr_loop
strstr s1 s2 = if strlen s2 == 0 then some s1 else strstr_loop (strlen s2) s2 (strlen s1) s1
