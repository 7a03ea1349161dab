-- ===== src/CmdLine/Ints/Rest.antt =====
-- What get_option of apps/lib/cmdline.c leaves of its string.
use dragon_stub.Base.{
  ℕ, zero, suc, ◌+◌, ◌*◌, ◌%◌, ◌^◌, ◌≤◌, ◌<◌, ◌≡◌, arith, Bool, true, false, ◌||◌, List, [], ◌∷◌,
  ◌==◌, if◌then◌else◌, length, drop, length-drop, get_or, Bool-cases, inl, inr,
}
use dragon_stub.Text.Str.{digit_value, strtoull_loop, simple_strtoull}
use dragon_stub.CmdLine.{get_option}

length-strtoull_loop : (base r : ℕ) (s : List ℕ) → length (strtoull_loop base r s).1 ≤ length s
unfolding strtoull_loop
length-strtoull_loop base r [] = omega arith
length-strtoull_loop base r (c ∷ s) =
    ground (arith, length-strtoull_loop base ((r * base + digit_value c) % 2 ^ 64) s)

length-unprefixed :
    (prefixed : Bool) (s : List ℕ) → length (if prefixed then drop 2 s else s) ≤ length s
length-unprefixed true s = omega (arith, length-drop 2 s)
length-unprefixed false s = omega arith

shorter :
    (base : ℕ) (prefixed : Bool) (s : List ℕ)
    → length (strtoull_loop base 0 (if prefixed then drop 2 s else s)).1 ≤ length s
shorter base prefixed s = omega (
  arith,
  length-strtoull_loop base 0 (if prefixed then drop 2 s else s),
  length-unprefixed prefixed s,
)

length-simple_strtoull : (s : List ℕ) (base : ℕ) → length (simple_strtoull s base).1 ≤ length s
unfolding simple_strtoull
length-simple_strtoull s base = shorter _ _ s

-- A number that was found takes a character.
pub get_option-shorter :
    (str : List ℕ) → ((get_option str).0 == 0) ≡ false → length (get_option str).1.1 < length str
unfolding get_option
get_option-shorter [] found = absurd (ground arith)
get_option-shorter (c ∷ cur) found = ground (
  arith,
  length-simple_strtoull cur 0,
  length-simple_strtoull (c ∷ cur) 0,
  length-drop 1 (simple_strtoull cur 0).1,
  length-drop 1 (simple_strtoull (c ∷ cur) 0).1,
)

-- Whether a '-' stands in the string.
abbrev pub has_dash : List ℕ → Bool
has_dash [] = false
has_dash (c ∷ s) = (c == b'-') || has_dash s

-- A '-' of the one string is one of the other.
abbrev pub DashIn : (s t : List ℕ) → Type 0
DashIn s t = has_dash s ≡ true → has_dash t ≡ true

DashIn-drop : (n : ℕ) (s : List ℕ) → DashIn (drop n s) s
DashIn-drop zero s dash = dash
DashIn-drop (suc n) [] dash = dash
DashIn-drop (suc n) (c ∷ s) dash = ground (arith, DashIn-drop n s dash)

DashIn-strtoull_loop : (base r : ℕ) (s : List ℕ) → DashIn (strtoull_loop base r s).1 s
unfolding strtoull_loop
DashIn-strtoull_loop base r [] dash = dash
DashIn-strtoull_loop base r (c ∷ s) dash =
    ground (arith, DashIn-strtoull_loop base ((r * base + digit_value c) % 2 ^ 64) s)

DashIn-unprefixed : (prefixed : Bool) (s : List ℕ) → DashIn (if prefixed then drop 2 s else s) s
DashIn-unprefixed true s dash = DashIn-drop 2 s dash
DashIn-unprefixed false s dash = dash

DashIn-digits :
    (base : ℕ) (prefixed : Bool) (s : List ℕ)
    → DashIn (strtoull_loop base 0 (if prefixed then drop 2 s else s)).1 s
DashIn-digits base prefixed s dash =
    DashIn-unprefixed prefixed s
      (DashIn-strtoull_loop base 0 (if prefixed then drop 2 s else s) dash)

DashIn-simple_strtoull : (s : List ℕ) (base : ℕ) → DashIn (simple_strtoull s base).1 s
unfolding simple_strtoull
DashIn-simple_strtoull s base dash = DashIn-digits _ _ s dash

has_dash-first : (s : List ℕ) → (get_or s 0 0 == b'-') ≡ true → has_dash s ≡ true
has_dash-first [] first = absurd (ground arith)
has_dash-first (c ∷ s) first = ground arith

pub DashIn-get_option : (str : List ℕ) → DashIn (get_option str).1.1 str
unfolding get_option
DashIn-get_option [] dash = dash
DashIn-get_option (c ∷ cur) dash = elim (Bool-cases (c == b'-')) [
  | inl minus ↦ ground (arith, minus)
  | inr plus ↦ ground (
    arith,
    plus,
    DashIn-simple_strtoull (c ∷ cur) 0,
    DashIn-drop 1 (simple_strtoull (c ∷ cur) 0).1,
  )
]

-- A range has a '-'.
pub get_option-dash : (str : List ℕ) → ((get_option str).0 == 3) ≡ true → has_dash str ≡ true
unfolding get_option
get_option-dash [] range = absurd (ground arith)
get_option-dash (c ∷ cur) range = elim (Bool-cases (c == b'-')) [
  | inl minus ↦ ground (arith, minus)
  | inr plus ↦ ground (
    arith,
    plus,
    has_dash-first (simple_strtoull (c ∷ cur) 0).1,
    DashIn-simple_strtoull (c ∷ cur) 0,
  )
]
