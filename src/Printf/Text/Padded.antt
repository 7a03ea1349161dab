-- ===== src/Printf/Text/Padded.antt =====
-- A text in its field: the loop of string_nocheck, move_right and widen_string of apps/lib/vsprintf.c.
use dragon_stub.Base.{
  ℕ, zero, suc, ◌+◌, ◌-◌, ◌≤◌, ◌<◌, ◌≡◌, refl, arith, sym, ap, ◌∙◌, true, false, ◌&&◌, List, [],
  ◌∷◌, ◌++◌, ◌==◌, ltb, leb, if◌then◌else◌, length, length-append, replicate, length-replicate,
  get_or, Bool-cases, inl, inr,
}
use mathlib.Core.Path.{fun_ext}
use mathlib.Core.List.{append-nil}
use dragon_stub.Base.Int.{to_ℕ}
use dragon_stub.Machine.{Memory}
use dragon_stub.Printf.{PrintfSpec, Out, put, puts}
use dragon_stub.Printf.Puts.{puts-append, fill-puts, puts-at, puts-bytes}
use dragon_stub.Printf.Text.{move_right, widen_string, copy_string}

-- The string at `s`, of at most `lim` bytes.
unfoldable pub bounded : (lim : ℕ) → Memory → (s : ℕ) → List ℕ
bounded zero f s = []
bounded (suc lim) f s = elim (f s == 0) [ true ↦ [] | false ↦ f s ∷ bounded lim f (s + 1) ]

abbrev pub padded : PrintfSpec → List ℕ → List ℕ
padded spec text =
    let spaces = replicate (to_ℕ spec.field_width - length text) b' ' in
    if spec.flags.left then text ++ spaces else spaces ++ text

pub copy_string-puts :
    (size lim : ℕ) (f : Memory) (s len : ℕ) (o : Out)
    → copy_string size lim f s len o
      ≡ (puts size (bounded lim f s) o, len + length (bounded lim f s))
unfolding copy_string bounded
copy_string-puts size zero f s len o = ground arith
copy_string-puts size (suc lim) f s len o =
    ground (arith, copy_string-puts size lim f (s + 1) (suc len) (put size (f s) o))

get_or-append :
    (s t : List ℕ) (i : ℕ)
    → get_or (s ++ t) i 0 ≡ (if ltb i (length s) then get_or s i 0 else get_or t (i - length s) 0)
get_or-append [] t i = ground arith
get_or-append (c ∷ s) t zero = ground arith
get_or-append (c ∷ s) t (suc i) = ground (arith, get_or-append s t i)

get_or-replicate : (n c i : ℕ) → i < n → get_or (replicate n c) i 0 ≡ c
get_or-replicate zero c i lt = absurd (omega arith)
get_or-replicate (suc n) c zero lt = refl
get_or-replicate (suc n) c (suc i) lt = get_or-replicate n c i (omega arith)

-- move_right on a buffer `w` that has a text `g` of `len` bytes from `start` on, and `b` elsewhere.
moved :
    (size start len spaces i : ℕ) (g b w : ℕ → ℕ)
    → w i ≡ (if leb start i && (ltb i (start + len) && ltb i size) then g (i - start) else b i)
    → (start + spaces ≤ i
        → i < size
        → i < start + (spaces + len)
        → w (i - spaces) ≡ g (i - start - spaces))
    → move_right size start len spaces w i ≡ (
        if leb start i && (ltb i (start + (spaces + len)) && ltb i size)
        then (if ltb (i - start) spaces then b' ' else g (i - start - spaces))
        else b i)
unfolding move_right
moved size start len spaces i g b w here there = elim (Bool-cases (ltb i start)) [
  | inl before ↦ ground (arith, before)
  | inr from ↦ elim (Bool-cases (ltb i size)) [
    | inr beyond ↦ ground (arith, beyond)
    | inl inside ↦ elim (Bool-cases (ltb i (start + spaces))) [
      | inl blank ↦ ground (arith, from, inside, blank)
      | inr behind ↦ ground (arith, from, inside, behind)
    ]
  ]
]

there :
    (size : ℕ) (text : List ℕ) (spaces : ℕ) (o : Out) (i : ℕ)
    → o.at + spaces ≤ i
    → i < size
    → i < o.at + (spaces + length text)
    → (if leb o.at (i - spaces) && (ltb (i - spaces) (o.at + length text) && ltb (i - spaces) size)
        then get_or text (i - spaces - o.at) 0
        else o.bytes (i - spaces))
      ≡ get_or text (i - o.at - spaces) 0
there size text spaces o i above inside below =
    let same : i - spaces - o.at ≡ i - o.at - spaces = omega arith in
    ground (arith, ap (λ (k : ℕ). get_or text k 0) same)

shown :
    (size : ℕ) (text : List ℕ) (spaces : ℕ) (o : Out) (i : ℕ)
    → length (replicate spaces b' ' ++ text) ≡ spaces + length text
    → (if leb o.at i && (ltb i (o.at + length (replicate spaces b' ' ++ text)) && ltb i size)
        then get_or (replicate spaces b' ' ++ text) (i - o.at) 0
        else o.bytes i)
      ≡ (if leb o.at i && (ltb i (o.at + (spaces + length text)) && ltb i size)
          then (if ltb (i - o.at) spaces then b' ' else get_or text (i - o.at - spaces) 0)
          else o.bytes i)
shown size text spaces o i long =
    rw
      (
        long,
        get_or-append (replicate spaces b' ') text (i - o.at),
        length-replicate {A = ℕ} spaces b' ',
      )
      (elim (Bool-cases (ltb (i - o.at) spaces)) [
        | inl blank ↦ ground (arith, blank, get_or-replicate spaces b' ' (i - o.at) (ground arith))
        | inr behind ↦ ground (arith, behind)
      ])

pub same_out : (o p : Out) → ((i : ℕ) → o.bytes i ≡ p.bytes i) → o.at ≡ p.at → o ≡ p
same_out o p bytes at = λ j. record { bytes = fun_ext bytes j; at = at j }

-- What move_right makes of a text is the text behind the spaces.
moved_right :
    (size : ℕ) (text : List ℕ) (spaces : ℕ) (o : Out)
    → let w = puts size text o in
      record {
        bytes = move_right size (w.at - length text) (length text) spaces w.bytes;
        at = w.at + spaces;
      }
      ≡ puts size (replicate spaces b' ' ++ text) o
moved_right size text spaces o =
    let w = puts size text o in
    let all = replicate spaces b' ' ++ text in
    let long : length all ≡ spaces + length text =
      omega
        (arith, length-append (replicate spaces b' ') text, length-replicate {A = ℕ} spaces b' ') in
    let start : w.at - length text ≡ o.at = omega (arith, puts-at size text o) in
    same_out _ _
      (λ i. rw start (
        moved size o.at (length text) spaces i (λ k. get_or text k 0) o.bytes w.bytes
          (puts-bytes size text o i)
          (λ above inside below.
            puts-bytes size text o (i - spaces) ∙ there size text spaces o i above inside below)
        ∙ sym (puts-bytes size all o i ∙ shown size text spaces o i long)))
      (omega (arith, puts-at size text o, puts-at size all o, long))

-- widen_string after a text leaves the text filled up to the width.
pub widen_string-puts :
    (size : ℕ) (text : List ℕ) (spec : PrintfSpec) (o : Out)
    → widen_string size (length text) spec (puts size text o) ≡ puts size (padded spec text) o
unfolding widen_string
widen_string-puts size text spec o =
    let spaces = to_ℕ spec.field_width - length text in
    elim (Bool-cases (spaces == 0)) [
      | inl none_left ↦
          let none_spaces : spaces ≡ 0 = ground arith in
          elim (Bool-cases spec.flags.left) [
            | inl l ↦ simp (none_spaces, l, append-nil) refl
            | inr l ↦ simp (none_spaces, l) refl
          ]
      | inr some_left ↦ elim (Bool-cases spec.flags.left) [
        | inl l ↦ simp (some_left, l, fill-puts, puts-append) refl
        | inr l ↦ simp (some_left, l) (moved_right size text spaces o)
      ]
    ]
