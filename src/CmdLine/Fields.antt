-- ===== src/CmdLine/Fields.antt =====
-- What parse_option_str looks for: one of the fields of its string.
use dragon_stub.Base.{
  ℕ, zero, suc, ◌<◌, ◌≡◌, ◌≢◌, refl, arith, ap, sym, ◌∙◌, Bool, true, false, ◌&&◌, ◌||◌, Option,
  some, List, [], ◌∷◌, ◌==◌, if◌then◌else◌, length, drop, get_or, All, Bool-cases, inl, inr,
}
use dragon_stub.Text.Str.{strlen, strncmp}
use dragon_stub.CmdLine.{skip_field, parse_option_loop, parse_option_str}
use dragon_stub.CmdLine.Options.{skip_field-advances}

-- The first field, up to a comma or the terminator, and the fields behind it.
abbrev pub split : List ℕ → List ℕ × List (List ℕ)
split [] = ([], [])
split (c ∷ s) =
    let r = split s in
    if c == 0 then ([], []) else if c == b',' then ([], r.0 ∷ r.1) else (c ∷ r.0, r.1)

abbrev pub fields : List ℕ → List (List ℕ)
fields s = (split s).0 ∷ (split s).1

abbrev pub same : List ℕ → List ℕ → Bool
same [] [] = true
same [] (d ∷ t) = false
same (c ∷ s) [] = false
same (c ∷ s) (d ∷ t) = (c == d) && same s t

abbrev pub any_same : List ℕ → List (List ℕ) → Bool
any_same option [] = false
any_same option (field ∷ rest) = same option field || any_same option rest

-- No terminator and no comma.
abbrev pub IsWord : List ℕ → Type 0
IsWord = All (λ c. ((c == 0) || (c == b',')) ≡ false)

-- What the code takes for a match at the start of `str`.
abbrev prefixed : (option str : List ℕ) → Bool
prefixed option str = strncmp str option (strlen option) == 0

abbrev ended : (option str : List ℕ) → Bool
ended option str = let next = get_or (drop (strlen option) str) 0 0 in (next == 0) || (next == b',')

matched-same :
    (option str : List ℕ)
    → IsWord option
    → (prefixed option str && ended option str) ≡ same option (split str).0
unfolding strncmp strlen
matched-same [] [] word = refl
matched-same [] (c ∷ s) word = ground arith
matched-same (d ∷ o) [] word = ground (arith, word.0)
matched-same (d ∷ o) (c ∷ s) word = ground (arith, word.0, matched-same o s word.1)

skip_field-drop :
    (option str : List ℕ)
    → IsWord option
    → prefixed option str ≡ true
    → skip_field (drop (strlen option) str) ≡ skip_field str
unfolding strncmp strlen skip_field
skip_field-drop [] str word match = refl
skip_field-drop (d ∷ o) [] word match = ground (arith, word.0)
skip_field-drop (d ∷ o) (c ∷ s) word match = ground (arith, word.0, skip_field-drop o s word.1)

-- The fields behind the first one, but for an empty one.
any_same-skip_field :
    (o : ℕ) (option s : List ℕ)
    → any_same (o ∷ option) (fields (skip_field s)) ≡ any_same (o ∷ option) (split s).1
unfolding skip_field
any_same-skip_field o option [] = refl
any_same-skip_field o option (c ∷ s) = ground (arith, any_same-skip_field o option s)

-- Skipping from behind a match comes to the same place.
skipped :
    (option str : List ℕ)
    → IsWord option
    → skip_field (if prefixed option str then drop (strlen option) str else str) ≡ skip_field str
skipped option str word = elim (Bool-cases (prefixed option str)) [
  | inl match ↦ rw match (skip_field-drop option str word match)
  | inr none_here ↦ rw none_here refl
]

-- The test that parse_option_str makes.
found-same :
    (option str : List ℕ)
    → IsWord option
    → let next = get_or (if prefixed option str then drop (strlen option) str else str) 0 0 in
      (prefixed option str && ((next == 0) || (next == b','))) ≡ same option (split str).0
found-same option str word = elim (Bool-cases (prefixed option str)) [
  | inl match ↦ rw (sym (matched-same option str word), match) refl
  | inr none_here ↦ rw (sym (matched-same option str word), none_here) refl
]

no_fields :
    (o : ℕ) (option str : List ℕ)
    → (get_or str 0 0 == 0) ≡ true
    → any_same (o ∷ option) (fields str) ≡ false
no_fields o option [] ends = refl
no_fields o option (c ∷ s) ends = ground (arith, ends)

if-some :
    (b : Bool) (x y : Option Bool) (r : Bool)
    → (b ≡ true → x ≡ some r)
    → (b ≡ false → y ≡ some r)
    → (if b then x else y) ≡ some r
if-some true x y r first second = first refl
if-some false x y r first second = second refl

parse_option_loop-fields :
    (fuel o : ℕ) (option str : List ℕ)
    → IsWord (o ∷ option)
    → length str < fuel
    → parse_option_loop fuel (o ∷ option) str ≡ some (any_same (o ∷ option) (fields str))
unfolding parse_option_loop
parse_option_loop-fields zero o option str word short = absurd (omega arith)
parse_option_loop-fields (suc fuel) o option str word short =
    let name = o ∷ option in
    let str1 = if prefixed name str then drop (strlen name) str else str in
    if-some (get_or str 0 0 == 0) _ _ _ (λ ends. ap some (sym (no_fields o option str ends)))
      (λ more.
        let text : get_or str 0 0 ≢ 0 = ground arith in
        let behind : length (skip_field str1) < fuel =
          rw (skipped name str word) (omega (arith, skip_field-advances str text, short)) in
        let next = get_or str1 0 0 in
        let here = found-same name str word in
        if-some (prefixed name str && ((next == 0) || (next == b','))) _ _ _
          (λ found. ap (λ (b : Bool). some (b || any_same name (split str).1)) (sym found ∙ here))
          (λ other.
            parse_option_loop-fields fuel o option (skip_field str1) word behind
            ∙ ap some (
                ap (λ (t : List ℕ). any_same name (fields t)) (skipped name str word)
                ∙ any_same-skip_field o option str)
            ∙ ap (λ (b : Bool). some (b || any_same name (split str).1)) (sym other ∙ here)))

-- parse_option_str answers whether the option is one of the fields of the string, which commas separate
-- and the terminator ends: for an option that is not empty and has no comma and no terminator.
pub parse_option_str-fields :
    (str : List ℕ) (o : ℕ) (option : List ℕ)
    → IsWord (o ∷ option)
    → parse_option_str str (o ∷ option) ≡ some (any_same (o ∷ option) (fields str))
unfolding parse_option_str
parse_option_str-fields str o option word =
    parse_option_loop-fields (suc (length str)) o option str word (omega arith)
