-- ===== src/CmdLine/NextArg.antt =====
-- next_arg of apps/lib/cmdline.c: it keeps the buffer's size and always moves on.
use dragon_stub.Base.{
  ℕ, zero, suc, ◌+◌, ◌-◌, ◌≤◌, ◌<◌, ◌≡◌, ◌≢◌, ◌⊎◌, false, refl, arith, Bool, not, ◌&&◌, List, [],
  ◌∷◌, ◌==◌, if◌then◌else◌, length, drop, get_or, set, length-set,
}
use dragon_stub.CmdLine.{scan_arg, cut_value, next_arg}

length-cut_value :
    (buffer : List ℕ) (args i equals : ℕ)
    → length (cut_value buffer args i equals).0 ≡ length buffer
unfolding cut_value
length-cut_value buffer args i equals = ground (
  arith,
  length-set buffer (args + equals) 0,
  length-set (set buffer (args + equals) 0) (args + i - 1) 0,
)

-- next_arg writes inside the buffer only.
pub length-next_arg :
    (buffer : List ℕ) (start : ℕ) → length (next_arg buffer start).buffer ≡ length buffer
unfolding next_arg
length-next_arg buffer start =
    let quoted = get_or buffer start 0 == b'"' in
    let args = if quoted then start + 1 else start in
    let found = scan_arg (drop args buffer) 0 0 quoted in
    let split = (cut_value buffer args found.0 found.1).0 in
    ground (
      arith,
      length-cut_value buffer args found.0 found.1,
      length-set split (args + found.0 - 1) 0,
      length-set split (args + found.0) 0,
      length-set (set split (args + found.0 - 1) 0) (args + found.0) 0,
    )

get_or-drop : (xs : List ℕ) (i : ℕ) → get_or (drop i xs) 0 0 ≡ get_or xs i 0
get_or-drop [] zero = refl
get_or-drop [] (suc i) = refl
get_or-drop (x ∷ xs) zero = refl
get_or-drop (x ∷ xs) (suc i) = get_or-drop xs i

scan_arg-grows :
    (s : List ℕ) (i equals : ℕ) (in_quote : Bool) → i ≤ (scan_arg s i equals in_quote).0
unfolding scan_arg
scan_arg-grows [] i equals q = omega arith
scan_arg-grows (c ∷ s) i equals q = ground (
  arith,
  scan_arg-grows s (i + 1) (if (equals == 0) && (c == b'=') then i else equals)
      (if c == b'"' then not q else q),
)

-- The scan stops at once, with nothing found, or takes a character.
scan_arg-first :
    (s : List ℕ) (in_quote : Bool)
    → get_or s 0 0 ≢ 0
    → (((scan_arg s 0 0 in_quote).0 ≡ 0) × ((scan_arg s 0 0 in_quote).1 ≡ 0))
      ⊎ (1 ≤ (scan_arg s 0 0 in_quote).0)
unfolding scan_arg
scan_arg-first [] q ne = absurd (ne refl)
scan_arg-first (c ∷ s) q ne =
    ground (arith, scan_arg-grows s 1 (if c == b'=' then 0 else 0) (if c == b'"' then not q else q))

cut_value-none : (buffer : List ℕ) (args i : ℕ) → (cut_value buffer args i 0).0 ≡ buffer
unfolding cut_value
cut_value-none buffer args i = refl

-- Where there is a character, next_arg moves on past it.
pub next_arg-advances :
    (buffer : List ℕ) (start : ℕ) → get_or buffer start 0 ≢ 0 → start < (next_arg buffer start).next
unfolding next_arg
next_arg-advances buffer start ne =
    let quoted = get_or buffer start 0 == b'"' in
    let args = if quoted then start + 1 else start in
    let found = scan_arg (drop args buffer) 0 0 quoted in
    ground (
      arith,
      get_or-drop buffer start,
      scan_arg-first (drop start buffer) false,
      cut_value-none buffer start found.0,
    )
