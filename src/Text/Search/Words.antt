-- ===== src/Text/Search/Words.antt =====
-- The loops of __strchrnul in apps/lib/string.c: each passes over no zero byte and no byte that is
-- searched for.
use dragon_stub.Base.{
  ℕ, zero, suc, ◌+◌, ◌*◌, ◌%◌, ◌^◌, ◌≤◌, ◌<◌, ◌≡◌, ◌≢◌, refl, ap, ◌∙◌, sym, arith, Bool-cases, inl,
  inr, ◌⊎◌, ltb, List, [], ◌∷◌, length, All, Bool, true, ◌==◌, ◌||◌, some,
}
use Prim.Native.Nat.{bit_xor}
use mathlib.Core.Path.{subst}
use dragon_stub.Machine.{Memory, IsBytes}
use dragon_stub.Elf.Header.{read_le}
use dragon_stub.ByteOrder.Bytes.{le_bytes, le_value, le_bytes-le_value}
use dragon_stub.Text.Search.{haszero, ones, skip_unaligned, skip_words, find_byte}
use dragon_stub.Text.Search.HasZero.{haszero-passes}

abbrev pub bytes_at : (n : ℕ) → Memory → (p : ℕ) → List ℕ
bytes_at zero f p = []
bytes_at (suc n) f p = f p ∷ bytes_at n f (p + 1)

-- What holds of the bytes from `p` on holds at each of their addresses.
pub All-bytes_at {κ} :
    (P : ℕ → Type κ) (n : ℕ) (f : Memory) (p : ℕ)
    → All P (bytes_at n f p)
    → (a : ℕ) → p ≤ a
    → a < p + n
    → P (f a)
All-bytes_at P zero f p h a lo hi = absurd (omega (arith, lo, hi))
All-bytes_at P (suc n) f p h a lo hi = elim (Bool-cases (a == p)) [
  | inl e ↦ let here : a ≡ p = ground arith in subst (λ x. P (f x)) (sym here) h.0
  | inr e ↦ All-bytes_at P n f (p + 1) h.1 a (ground arith) (ground arith)
]

read_le-bytes : (n : ℕ) (f : Memory) (p : ℕ) → read_le n f p ≡ le_value (bytes_at n f p)
unfolding read_le
read_le-bytes zero f p = refl
read_le-bytes (suc n) f p = ap (λ (v : ℕ). f p + 256 * v) (read_le-bytes n f (p + 1))

-- No byte from `s` to `e` is zero or `c`.
abbrev pub Passed : Memory → (c s e : ℕ) → Type 0
Passed f c s e = (a : ℕ) → s ≤ a → a < e → (f a ≢ 0) × (f a ≢ c)

-- `r` is the first address from `s` on that holds zero or `c`.
abbrev pub FirstOf : Memory → (c s r : ℕ) → Type 0
FirstOf f c s r = (s ≤ r) × Passed f c s r × ((f r ≡ 0) ⊎ (f r ≡ c))

pub Passed-join : {f : Memory} {c s m e : ℕ} → Passed f c s m → Passed f c m e → Passed f c s e
Passed-join {m = m} p q a lo hi = elim (Bool-cases (ltb a m)) [
  | inl e ↦ p a lo (ground arith)
  | inr e ↦ q a (ground arith) hi
]

pub Passed-none : (f : Memory) (c s : ℕ) → Passed f c s s
Passed-none f c s a lo hi = absurd (omega (arith, lo, hi))

pub Passed-one : (f : Memory) (c s : ℕ) → f s ≢ 0 → f s ≢ c → Passed f c s (s + 1)
Passed-one f c s nz nc a lo hi =
    let here : a ≡ s = omega (arith, lo, hi) in
    subst (λ x. (f x ≢ 0) × (f x ≢ c)) (sym here) (nz, nc)

-- With a terminator at `e`, nothing beyond it is passed.
pub Passed-end : (f : Memory) (c e : ℕ) → f e ≡ 0 → (s r : ℕ) → s ≤ e → Passed f c s r → r ≤ e
Passed-end f c e terminated s r le p = elim (Bool-cases (ltb e r)) [
  | inl past ↦ absurd ((p e le (ground arith)).0 terminated)
  | inr h ↦ ground arith
]

module _ (f : Memory) (bytes : IsBytes f) (c : ℕ) where
  bytes_at-below : (n p : ℕ) → All (λ b. b < 256) (bytes_at n f p)
  bytes_at-below zero p = tt
  bytes_at-below (suc n) p = (bytes p, bytes_at-below n (p + 1))

  length-bytes_at : (n p : ℕ) → length (bytes_at n f p) ≡ n
  length-bytes_at zero p = refl
  length-bytes_at (suc n) p = ap suc (length-bytes_at n (p + 1))

  pub word_bytes : (p : ℕ) → le_bytes 8 (read_le 8 f p) ≡ bytes_at 8 f p
  word_bytes p =
      ap (le_bytes 8) (read_le-bytes 8 f p)
      ∙ le_bytes-le_value (bytes_at 8 f p) (bytes_at-below 8 p)

  pub read_le-lt : (p : ℕ) → read_le 8 f p < 2 ^ 64
  read_le-lt p = rw (read_le-bytes 8 f p) (omega (arith, bytes_at-below 8 p))

  -- A word that both tests pass.
  word_passes :
      c < 256
      → (w : ℕ) → haszero (read_le 8 f w) ≡ 0
      → haszero (bit_xor (read_le 8 f w) (ones * c % 2 ^ 64)) ≡ 0
      → Passed f c w (w + 8)
  word_passes hc w no_zero no_c =
      All-bytes_at (λ b. (b ≢ 0) × (b ≢ c)) 8 f w
        (subst (λ bs. All (λ b. (b ≢ 0) × (b ≢ c)) bs) (word_bytes w)
          (haszero-passes (read_le 8 f w) c (read_le-lt w) hc no_zero no_c))

  module _ (e : ℕ) (terminated : f e ≡ 0) where
    pub skip_words-Passed :
        c < 256
        → (fuel w : ℕ) → w ≤ e
        → e < w + fuel
        → (r : ℕ) × (skip_words fuel f w (ones * c % 2 ^ 64) ≡ some r) × (w ≤ r) × Passed f c w r
    unfolding skip_words
    skip_words-Passed hc zero w le enough = absurd (omega (arith, le, enough))
    skip_words-Passed hc (suc fuel) w le enough = elim (Bool-cases (haszero (read_le 8 f w) == 0)) [
      | inr found ↦ (w, rw found refl, omega arith, Passed-none f c w)
      | inl no_zero ↦
          elim (Bool-cases (haszero (bit_xor (read_le 8 f w) (ones * c % 2 ^ 64)) == 0)) [
            | inr found ↦ (w, rw (no_zero, found) refl, omega arith, Passed-none f c w)
            | inl no_c ↦
                let here = word_passes hc w (ground arith) (ground arith) in
                let inside = Passed-end f c e terminated w (w + 8) le here in
                let (r, got, after, passed) =
                  skip_words-Passed hc fuel (w + 8) inside (omega (arith, le, enough)) in
                (r, rw (no_zero, no_c) got, omega (arith, after), Passed-join here passed)
          ]
    ]

    pub find_byte-FirstOf :
        (fuel s : ℕ)
        → s ≤ e
        → e < s + fuel
        → (r : ℕ) × (find_byte fuel f s c ≡ some r) × FirstOf f c s r
    unfolding find_byte
    find_byte-FirstOf zero s le enough = absurd (omega (arith, le, enough))
    find_byte-FirstOf (suc fuel) s le enough = elim (Bool-cases (f s == 0)) [
      | inl is_end ↦ (s, rw is_end refl, (omega arith, Passed-none f c s, inl (ground arith)))
      | inr more ↦ elim (Bool-cases (f s == c)) [
        | inl is_c ↦ (s, rw (more, is_c) refl, (omega arith, Passed-none f c s, inr (ground arith)))
        | inr other ↦
            let here = Passed-one f c s (ground arith) (ground arith) in
            let (r, got, first) =
              find_byte-FirstOf fuel (s + 1) (Passed-end f c e terminated s (s + 1) le here)
                (omega (arith, enough)) in
            (r, rw (more, other) got, (omega (arith, first.0), Passed-join here first.1, first.2))
      ]
    ]

-- What the loop up to the alignment has passed, and where it has stopped.
abbrev pub Reached : Memory → (c s : ℕ) → Bool × ℕ → Type 0
Reached f c s r = (s ≤ r.1) × Passed f c s r.1 × (r.0 ≡ true → (f r.1 ≡ 0) ⊎ (f r.1 ≡ c))

pub skip_unaligned-Reached : (f : Memory) (c n s : ℕ) → Reached f c s (skip_unaligned n f s c)
unfolding skip_unaligned
skip_unaligned-Reached f c zero s = (omega arith, Passed-none f c s, λ t. absurd (cc t))
skip_unaligned-Reached f c (suc n) s = elim (Bool-cases (s % 8 == 0)) [
  | inl aligned ↦ rw aligned (omega arith, Passed-none f c s, λ t. absurd (cc t))
  | inr odd ↦ elim (Bool-cases ((f s == 0) || (f s == c))) [
    | inl stop ↦ rw (odd, stop) (omega arith, Passed-none f c s, λ t. ground arith)
    | inr more ↦
        let rest = skip_unaligned-Reached f c n (s + 1) in
        rw (odd, more)
          (
            omega (arith, rest.0),
            Passed-join (Passed-one f c s (ground arith) (ground arith)) rest.1,
            rest.2,
          )
  ]
]
