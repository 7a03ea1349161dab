-- ===== src/CmdLine/Ints.antt =====
-- get_range and get_options of apps/lib/cmdline.c. An int is its 32-bit word, and `ints` an array of them.
pub mod Rest
pub mod Laws
use dragon_stub.Base.{
  ℕ, zero, suc, ◌+◌, ◌-◌, ◌%◌, ◌^◌, Bool, true, false, ◌||◌, not, Option, none, some, List, [], ◌∷◌,
  ◌==◌, ltb, leb, if◌then◌else◌, length, drop,
}
use dragon_stub.Text.Str.{simple_strtol}
use dragon_stub.CmdLine.{get_option}

abbrev pub Ints : Type 0
Ints = ℕ → ℕ

abbrev pub store : (at value : ℕ) → Ints → Ints
store at value ints i = if i == at then value else ints i

-- The order of signed ints.
abbrev pub below : ℕ → ℕ → Bool
below x y = ltb ((x + 2 ^ 31) % 2 ^ 32) ((y + 2 ^ 31) % 2 ^ 32)

-- The loop of get_range.
unfoldable pub fill_range : (n x upper_range at : ℕ) → Ints → Ints
fill_range zero x upper_range at ints = ints
fill_range (suc n) x upper_range at ints =
    let rest = fill_range n ((x + 1) % 2 ^ 32) upper_range (at + 1) (store at x ints) in
    if below x upper_range then rest else ints

-- get_range with `pint` at index `at`: `inc_counter`, the array, and `*str`. The upper number is not
-- passed over.
unfoldable pub get_range : List ℕ → Ints → (at n : ℕ) → ℕ × (Ints × List ℕ)
unfolding fill_range
get_range str ints at n =
    let upper_range = (simple_strtol (drop 1 str) 0).0 % 2 ^ 32 in
    (
      (upper_range + 2 ^ 32 - ints at) % 2 ^ 32,
      (fill_range n (ints at) upper_range at ints, drop 1 str),
    )

-- What get_option stores.
abbrev pub store_some : (at : ℕ) → Option ℕ → Ints → Ints
store_some at none ints = ints
store_some at (some value) ints = store at value ints

abbrev pub is_negative : ℕ → Bool
is_negative x = leb (2 ^ 31) x

-- How the reading of get_options goes: the fuel is not enough, the addition to `i` leaves the range
-- of an int, which C does not define, or it ends with `i`, the array and `str`.
pub data Reading : Type 0 where
  unfinished overflow : Reading
  ended : ℕ × (Ints × List ℕ) → Reading

-- `i` after an addition.
abbrev pub counted : (i : ℕ) → Reading → Reading
counted i reading = if leb (2 ^ 31) i then Reading.overflow else reading

-- The loop of get_options, with fuel for its rounds.
unfoldable pub options_loop : (fuel nints i : ℕ) → List ℕ → Ints → Reading
unfolding get_range
options_loop zero nints i str ints = Reading.unfinished
options_loop (suc fuel) nints i str ints =
    let validate = nints == 0 in
    let at = if validate then 0 else i in
    let got = get_option str in
    let ints1 = store_some at got.1.0 ints in
    let range = get_range got.1.1 ints1 at (if validate then 0 else nints - i) in
    let after_range = options_loop fuel nints (i + range.0) range.1.1 range.1.0 in
    let after_comma = options_loop fuel nints (i + 1) got.1.1 ints1 in
    if not (ltb i nints || validate)
    then Reading.ended (i, (ints, str))
    else if got.0 == 0
    then Reading.ended (i, (ints1, got.1.1))
    else if got.0 == 3
    then (if is_negative range.0
        then Reading.ended (i, (range.1.0, range.1.1))
        else counted (i + range.0) after_range)
    else if got.0 == 1
    then counted (i + 1) (Reading.ended (i + 1, (ints1, got.1.1)))
    else counted (i + 1) after_comma

-- get_options: what is returned with the count is the array and the string where the reading ended.
unfoldable pub get_options : List ℕ → (nints : ℕ) → Ints → Reading
unfolding options_loop
get_options str nints ints = elim (options_loop (suc (length str)) nints 1 str ints) [
  | Reading.unfinished ↦ Reading.unfinished
  | Reading.overflow ↦ Reading.overflow
  | Reading.ended r ↦ Reading.ended (r.0, (store 0 (r.0 - 1) r.1.0, r.1.1))
]
