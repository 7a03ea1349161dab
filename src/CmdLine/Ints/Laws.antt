-- ===== src/CmdLine/Ints/Laws.antt =====
-- get_options ends, and keeps to its array.
use dragon_stub.Base.{
  ℕ, zero, suc, ◌+◌, ◌-◌, ◌%◌, ◌^◌, ◌≤◌, ◌<◌, ◌≡◌, refl, arith, ap, ◌∙◌, max, Bool, true, false,
  ◌||◌, not, leb, ◌⊎◌, inl, inr, Option, none, some, List, ◌==◌, ltb, if◌then◌else◌, length,
  length-drop,
}
use dragon_stub.CmdLine.{get_option}
use dragon_stub.CmdLine.Ints.Rest.{
  get_option-shorter, has_dash, DashIn, DashIn-get_option, get_option-dash,
}
use dragon_stub.CmdLine.Ints.{
  Ints, store, below, fill_range, get_range, store_some, is_negative, options_loop, get_options,
  Reading, counted,
}

fill_range-outside :
    (n x upper_range at : ℕ) (ints : Ints) (k : ℕ)
    → at + n ≤ k
    → fill_range n x upper_range at ints k ≡ ints k
unfolding fill_range
fill_range-outside zero x upper_range at ints k outside = refl
fill_range-outside (suc n) x upper_range at ints k outside =
    let rest = fill_range n ((x + 1) % 2 ^ 32) upper_range (at + 1) (store at x ints) in
    let other : store at x ints k ≡ ints k = ground arith in
    let kept : rest k ≡ ints k =
      fill_range-outside n ((x + 1) % 2 ^ 32) upper_range (at + 1) (store at x ints) k (omega arith)
      ∙ other in
    choose (below x upper_range) rest ints k kept
  where
    choose : (b : Bool) (f g : Ints) (k : ℕ) → f k ≡ g k → (if b then f else g) k ≡ g k
    choose true f g k same = same
    choose false f g k same = refl

store_some-outside :
    (at : ℕ) (value : Option ℕ) (ints : Ints) (k : ℕ) → at < k → store_some at value ints k ≡ ints k
store_some-outside at none ints k lt = refl
store_some-outside at (some value) ints k lt = ground arith

-- An element of the array that the reading leaves, none where it does not end.
abbrev pub element : Reading → (k : ℕ) → Option ℕ
element Reading.unfinished k = none
element Reading.overflow k = none
element (Reading.ended r) k = some (r.1.0 k)

-- The reading ends with the element `k` as it was, or the count of a string with a '-', or of one too
-- long for an int, overflows.
abbrev Keeps : (i : ℕ) (str : List ℕ) → Reading → (k value : ℕ) → Type 0
Keeps i str reading k value =
    (element reading k ≡ some value)
    ⊎ ((reading ≡ Reading.overflow) × ((has_dash str ≡ true) ⊎ (2 ^ 31 ≤ i + length str)))

if-Keeps :
    (b : Bool) (i : ℕ) (str : List ℕ) (x y : Reading) (k value : ℕ)
    → (b ≡ true → Keeps i str x k value)
    → (b ≡ false → Keeps i str y k value)
    → Keeps i str (if b then x else y) k value
if-Keeps true i str x y k value first second = first refl
if-Keeps false i str x y k value first second = second refl

counted-Keeps :
    (next i : ℕ) (str : List ℕ) (reading : Reading) (k value : ℕ)
    → ((has_dash str ≡ true) ⊎ (next ≤ i + length str))
    → (next < 2 ^ 31 → Keeps i str reading k value)
    → Keeps i str (counted next reading) k value
counted-Keeps next i str reading k value cause rest =
    if-Keeps (leb (2 ^ 31) next) i str Reading.overflow reading k value
      (λ over. inr (
        refl,
        elim cause [
          | inl dash ↦ inl dash
          | inr long ↦ inr (let above : 2 ^ 31 ≤ next = ground arith in omega (arith, long, above))
        ],
      ))
      (λ fits. rest (ground arith))

later-Keeps :
    (i j : ℕ) (str later : List ℕ) (reading : Reading) (k value : ℕ)
    → DashIn later str
    → (has_dash str ≡ true) ⊎ (j + length later ≤ i + length str)
    → Keeps j later reading k value
    → Keeps i str reading k value
later-Keeps i j str later reading k value dashes cause keeps = elim keeps [
  | inl kept ↦ inl kept
  | inr (over, why) ↦ inr (
    over,
    elim why [
      | inl dash ↦ inl (dashes dash)
      | inr long ↦ elim cause [ inl dash ↦ inl dash | inr le ↦ inr (omega (arith, le, long)) ]
    ],
  )
]

abbrev index : (nints i : ℕ) → ℕ
index nints i = if nints == 0 then 0 else i

abbrev room_left : (nints i : ℕ) → ℕ
room_left nints i = if nints == 0 then 0 else nints - i

inside :
    (nints i k : ℕ)
    → 1 ≤ i
    → max nints 1 ≤ k
    → not (ltb i nints || (nints == 0)) ≡ false
    → (index nints i < k) × (index nints i + room_left nints i ≤ k)
inside nints i k positive beyond runs = ground arith

-- With fuel for one round more than the string has characters, the loop ends, and has changed nothing
-- beyond the array, unless the count overflows.
options_loop-Keeps :
    (fuel nints i : ℕ) (str : List ℕ) (ints : Ints) (k value : ℕ)
    → length str < fuel
    → 1 ≤ i
    → max nints 1 ≤ k
    → ints k ≡ value
    → Keeps i str (options_loop fuel nints i str ints) k value
unfolding options_loop get_range
options_loop-Keeps zero nints i str ints k value short positive beyond same = absurd (omega arith)
options_loop-Keeps (suc fuel) nints i str ints k value short positive beyond same =
    let at = index nints i in
    let got = get_option str in
    let ints1 = store_some at got.1.0 ints in
    let range = get_range got.1.1 ints1 at (room_left nints i) in
    if-Keeps (not (ltb i nints || (nints == 0))) i str _ _ k value (λ _. inl (ap some same))
      (λ runs.
        let stored : ints1 k ≡ value =
          store_some-outside at got.1.0 ints k (inside nints i k positive beyond runs).0 ∙ same in
        let ranged : range.1.0 k ≡ value =
          fill_range-outside (room_left nints i) _ _ at ints1 k
            (inside nints i k positive beyond runs).1
          ∙ stored in
        if-Keeps (got.0 == 0) i str _ _ k value (λ _. inl (ap some stored))
          (λ found.
            let less : length got.1.1 < length str = get_option-shorter str found in
            let behind : length range.1.1 < length str =
              omega (arith, less, length-drop 1 got.1.1) in
            if-Keeps (got.0 == 3) i str _ _ k value
              (λ is_range.
                let dash = get_option-dash str is_range in
                if-Keeps (is_negative range.0) i str _ _ k value (λ _. inl (ap some ranged))
                  (λ _. counted-Keeps (i + range.0) i str _ k value (inl dash) (λ fits.
                    later-Keeps i (i + range.0) str range.1.1 _ k value (λ _. dash) (inl dash)
                      (options_loop-Keeps fuel nints (i + range.0) range.1.1 range.1.0 k value
                        (omega (arith, behind, short)) (omega arith) beyond ranged))))
              (λ _.
                if-Keeps (got.0 == 1) i str _ _ k value
                  (λ _.
                    counted-Keeps (i + 1) i str _ k value (inr (omega (arith, less)))
                      (λ fits. inl (ap some stored)))
                  (λ _. counted-Keeps (i + 1) i str _ k value (inr (omega (arith, less))) (λ fits.
                    later-Keeps i (i + 1) str got.1.1 _ k value (DashIn-get_option str)
                      (inr (omega (arith, less)))
                      (options_loop-Keeps fuel nints (i + 1) got.1.1 ints1 k value
                        (omega (arith, less, short)) (omega arith) beyond stored))))))

-- get_options returns and changes no element of the array from the size on, where a size of 0 stands
-- for the one element that the count is stored in; or its int i overflows, and then the string has a
-- '-', as a range has, or is at least 2^31 - 1 bytes long.
pub get_options-element :
    (str : List ℕ) (nints : ℕ) (ints : Ints) (k : ℕ)
    → max nints 1 ≤ k
    → (element (get_options str nints ints) k ≡ some (ints k))
      ⊎ ((get_options str nints ints ≡ Reading.overflow)
          × ((has_dash str ≡ true) ⊎ (2 ^ 31 ≤ 1 + length str)))
unfolding get_options
get_options-element str nints ints k beyond =
    after_store (options_loop (suc (length str)) nints 1 str ints) (
      options_loop-Keeps (suc (length str)) nints 1 str ints k (ints k) (omega arith) (omega arith)
        beyond refl)
  where
    after_store :
        (r : Reading)
        → Keeps 1 str r k (ints k)
        → Keeps 1 str
            (elim r [
              | Reading.unfinished ↦ Reading.unfinished
              | Reading.overflow ↦ Reading.overflow
              | Reading.ended r ↦ Reading.ended (r.0, (store 0 (r.0 - 1) r.1.0, r.1.1))
            ])
            k
            (ints k)
    after_store Reading.unfinished (inl kept) = inl kept
    after_store Reading.unfinished (inr (over, why)) = inr (over, why)
    after_store Reading.overflow keeps = keeps
    after_store (Reading.ended r) (inl kept) =
        let other : store 0 (r.0 - 1) r.1.0 k ≡ r.1.0 k = ground arith in inl (ap some other ∙ kept)
    after_store (Reading.ended r) (inr (over, why)) = absurd (ground (arith, over))
