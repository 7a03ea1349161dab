-- ===== src/CmdLine/Options.antt =====
-- The loops of parse_option_str and of efi_parse_options end.
use dragon_stub.Base.{
  ℕ, zero, suc, ◌≤◌, ◌<◌, ◌≢◌, refl, arith, List, [], ◌∷◌, none, length, drop, get_or, length-drop,
}
use dragon_stub.Text.Str.{strlen}
use dragon_stub.CmdLine.{skip_field, parse_option_loop, parse_option_str}

length-skip_field : (s : List ℕ) → length (skip_field s) ≤ length s
unfolding skip_field
length-skip_field [] = omega arith
length-skip_field (c ∷ s) = ground (arith, length-skip_field s)

-- A field that is not empty is left behind.
pub skip_field-advances : (s : List ℕ) → get_or s 0 0 ≢ 0 → length (skip_field s) < length s
unfolding skip_field
skip_field-advances [] ne = absurd (ne refl)
skip_field-advances (c ∷ s) ne = ground (arith, length-skip_field s)

pub parse_option_loop-ends :
    (fuel : ℕ) (option str : List ℕ) → length str < fuel → parse_option_loop fuel option str ≢ none
unfolding parse_option_loop
parse_option_loop-ends zero option str lt = absurd (omega arith)
parse_option_loop-ends (suc fuel) option str lt =
    let n = strlen option in
    ground (
      arith,
      skip_field-advances str,
      skip_field-advances (drop n str),
      length-drop n str,
      parse_option_loop-ends fuel option (skip_field str),
      parse_option_loop-ends fuel option (skip_field (drop n str)),
    )

-- parse_option_str always returns.
parse_option_str-returns : (str option : List ℕ) → parse_option_str str option ≢ none
unfolding parse_option_str
parse_option_str-returns str option =
    parse_option_loop-ends (suc (length str)) option str (omega arith)
