-- ===== src/Text/Search/Memchr.antt =====
-- memchr of lib/init.c, which looks at a word at a time.
use dragon_stub.Base.{
  ℕ, zero, suc, ◌+◌, ◌-◌, ◌*◌, ◌%◌, ◌^◌, ◌≤◌, ◌<◌, ◌≡◌, ◌≢◌, refl, sym, arith, ◌&&◌, ◌||◌, not,
  Bool-cases, inl, inr, ◌⊎◌, ◌==◌, leb, ltb, if◌then◌else◌, bit_and, All,
}
use Prim.Native.Nat.{bit_xor}
use mathlib.Core.Path.{subst}
use dragon_stub.Machine.{Memory, IsBytes}
use dragon_stub.Elf.Header.{read_le}
use dragon_stub.Text.Search.{haszero, ones}
use dragon_stub.Text.Search.HasZero.{haszero-differs}
use dragon_stub.Text.Search.Words.{word_bytes, All-bytes_at, read_le-lt}

-- The loop up to the alignment of a word: the address, and the bytes that are left.
unfoldable pub to_alignment : (rounds : ℕ) → Memory → (s c n : ℕ) → ℕ × ℕ
to_alignment zero f s c n = (s, n)
to_alignment (suc rounds) f s c n =
    let rest = to_alignment rounds f (s + 1) c (n - 1) in
    if (bit_and s 7 == 0) || ((n == 0) || (f s == c)) then (s, n) else rest

-- The loop over whole words.
unfoldable pub over_words : (rounds : ℕ) → Memory → (w k n : ℕ) → ℕ × ℕ
over_words zero f w k n = (w, n)
over_words (suc rounds) f w k n =
    let rest = over_words rounds f (w + 8) k (n - 8) in
    if leb 8 n && (haszero (bit_xor (read_le 8 f w) k) == 0) then rest else (w, n)

-- The loop over single bytes, and the result; the pointer 0 is null.
unfoldable pub over_bytes : Memory → (s c n : ℕ) → ℕ
over_bytes f s c zero = 0
over_bytes f s c (suc n) = let rest = over_bytes f (s + 1) c n in if f s == c then s else rest

unfoldable pub memchr : Memory → (src c n : ℕ) → ℕ
memchr f src c n =
    let byte = c % 256 in
    let start = to_alignment 8 f src byte n in
    let words = over_words n f start.0 (ones * byte % 2 ^ 64) start.1 in
    if not (start.1 == 0) && not (f start.0 == byte)
    then over_bytes f words.0 byte words.1
    else over_bytes f start.0 byte start.1

-- No byte from `s` to `e` is `c`.
abbrev Without : Memory → (c s e : ℕ) → Type 0
Without f c s e = (a : ℕ) → s ≤ a → a < e → f a ≢ c

-- `r` is the first address of `c` among `n` bytes from `s` on, or null where there is none.
abbrev pub FirstIn : Memory → (c s n r : ℕ) → Type 0
FirstIn f c s n r =
    ((r ≡ 0) × Without f c s (s + n)) ⊎ ((s ≤ r) × (r < s + n) × (f r ≡ c) × Without f c s r)

Without-join : {f : Memory} {c s m e : ℕ} → Without f c s m → Without f c m e → Without f c s e
Without-join {m = m} p q a lo hi = elim (Bool-cases (ltb a m)) [
  | inl before ↦ p a lo (ground arith)
  | inr after ↦ q a (ground arith) hi
]

Without-one : (f : Memory) (c s : ℕ) → f s ≢ c → Without f c s (s + 1)
Without-one f c s ne a lo hi =
    let here : a ≡ s = omega (arith, lo, hi) in subst (λ x. f x ≢ c) (sym here) ne

-- What a loop has passed, with the bytes that are left behind it.
abbrev Left : Memory → (c s n : ℕ) → ℕ × ℕ → Type 0
Left f c s n r = (r.0 + r.1 ≡ s + n) × (s ≤ r.0) × Without f c s r.0

Left-none : (f : Memory) (c s n : ℕ) → Left f c s n (s, n)
Left-none f c s n = (refl, omega arith, λ a lo hi. absurd (omega (arith, lo, hi)))

over_bytes-FirstIn : (f : Memory) (c n s : ℕ) → FirstIn f c s n (over_bytes f s c n)
unfolding over_bytes
over_bytes-FirstIn f c zero s = inl (refl, λ a lo hi. absurd (omega (arith, lo, hi)))
over_bytes-FirstIn f c (suc n) s = elim (Bool-cases (f s == c)) [
  | inl hit ↦
      rw hit
        (inr (omega arith, omega arith, ground arith, λ a lo hi. absurd (omega (arith, lo, hi))))
  | inr miss ↦
      let here = Without-one f c s (ground arith) in
      rw miss (elim (over_bytes-FirstIn f c n (s + 1)) [
        | inl (null, none) ↦
            inl (null, Without-join here (λ a lo hi. none a lo (omega (arith, hi))))
        | inr (lo, hi, at, none) ↦
            inr (omega (arith, lo), omega (arith, hi), at, Without-join here none)
      ])
]

to_alignment-Left : (f : Memory) (c rounds s n : ℕ) → Left f c s n (to_alignment rounds f s c n)
unfolding to_alignment
to_alignment-Left f c zero s n = Left-none f c s n
to_alignment-Left f c (suc rounds) s n =
    elim (Bool-cases ((bit_and s 7 == 0) || ((n == 0) || (f s == c)))) [
      | inl stop ↦ rw stop (Left-none f c s n)
      | inr more ↦
          let rest = to_alignment-Left f c rounds (s + 1) (n - 1) in
          rw more (
            ground (arith, rest.0, more),
            omega (arith, rest.1),
            Without-join (Without-one f c s (ground (arith, more))) rest.2,
          )
    ]

module _ (f : Memory) (bytes : IsBytes f) (c : ℕ) (hc : c < 256) where
  word-Without :
      (w : ℕ) → haszero (bit_xor (read_le 8 f w) (ones * c % 2 ^ 64)) ≡ 0 → Without f c w (w + 8)
  word-Without w no_c =
      All-bytes_at (λ b. b ≢ c) 8 f w
        (subst (λ bs. All (λ b. b ≢ c) bs) (word_bytes f bytes c w)
          (haszero-differs (read_le 8 f w) c (read_le-lt f bytes c w) hc no_c))

  over_words-Left : (rounds w n : ℕ) → Left f c w n (over_words rounds f w (ones * c % 2 ^ 64) n)
  unfolding over_words
  over_words-Left zero w n = Left-none f c w n
  over_words-Left (suc rounds) w n = elim (Bool-cases (leb 8 n)) [
    | inr short ↦ rw short (Left-none f c w n)
    | inl long ↦ elim (Bool-cases (haszero (bit_xor (read_le 8 f w) (ones * c % 2 ^ 64)) == 0)) [
      | inr found ↦ rw (long, found) (Left-none f c w n)
      | inl no_c ↦
          let rest = over_words-Left rounds (w + 8) (n - 8) in
          rw (long, no_c)
            (
              ground (arith, rest.0, long),
              omega (arith, rest.1),
              Without-join (word-Without w (ground (arith, no_c))) rest.2,
            )
    ]
  ]

-- The bytes that are left decide.
FirstIn-rest :
    (f : Memory) (c s n : ℕ) (l : ℕ × ℕ) (r : ℕ)
    → Left f c s n l
    → FirstIn f c l.0 l.1 r
    → FirstIn f c s n r
FirstIn-rest f c s n l r (total, after, passed) found = elim found [
  | inl (null, none) ↦
      inl (null, Without-join passed (λ a lo hi. none a lo (omega (arith, hi, total))))
  | inr (lo, hi, at, none) ↦
      inr (omega (arith, lo, after), omega (arith, hi, total), at, Without-join passed none)
]

-- In a memory of bytes memchr returns the first address of the byte among `n` bytes, or null where
-- it is none of them.
pub memchr-FirstIn :
    (f : Memory) → IsBytes f → (src c n : ℕ) → FirstIn f (c % 256) src n (memchr f src c n)
unfolding memchr
memchr-FirstIn f bytes src c n =
    let b = c % 256 in
    let start = to_alignment 8 f src b n in
    let left = to_alignment-Left f b 8 src n in
    let words = over_words n f start.0 (ones * b % 2 ^ 64) start.1 in
    let left' = over_words-Left f bytes b (omega arith) n start.0 start.1 in
    elim (Bool-cases (not (start.1 == 0) && not (f start.0 == b))) [
      | inr done ↦
          rw done (FirstIn-rest f b src n start _ left (over_bytes-FirstIn f b start.1 start.0))
      | inl more ↦ rw more (
          FirstIn-rest f b src n start _ left (
            FirstIn-rest f b start.0 start.1 words _ left'
              (over_bytes-FirstIn f b words.1 words.0)))
    ]
