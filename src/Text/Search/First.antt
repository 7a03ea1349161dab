-- ===== src/Text/Search/First.antt =====
-- What __strchrnul, strchr and strrchr of apps/lib/string.c find.
use dragon_stub.Base.{
  ℕ, zero, suc, ◌+◌, ◌%◌, ◌≤◌, ◌<◌, ◌≡◌, ◌≢◌, refl, ap, sym, arith, Bool-cases, inl, inr, ◌⊎◌, Bool,
  ◌==◌, some, ltb, ◌-◌, if◌then◌else◌,
}
use mathlib.Core.Path.{subst}
use dragon_stub.Machine.{Memory, IsBytes}
use dragon_stub.Text.Search.{skip_unaligned, mem_strlen, strchrnul, strchr, memrchr, strrchr}
use dragon_stub.Text.Search.Words.{
  Passed, Passed-none, Passed-one, Passed-join, FirstOf, Passed-end, skip_words-Passed,
  find_byte-FirstOf, skip_unaligned-Reached, Reached,
}

module _ (f : Memory) (e : ℕ) (terminated : f e ≡ 0) where
  mem_strlen-lem :
      (fuel s : ℕ)
      → s ≤ e
      → e < s + fuel
      → (n : ℕ) × (mem_strlen fuel f s ≡ some n)
        × (r : ℕ) × (s + n ≡ r)
        × (f r ≡ 0)
        × Passed f 0 s r
  unfolding mem_strlen
  mem_strlen-lem zero s le enough = absurd (omega (arith, le, enough))
  mem_strlen-lem (suc fuel) s le enough = elim (Bool-cases (f s == 0)) [
    | inl stop ↦ (0, rw stop refl, s, omega arith, ground arith, Passed-none f 0 s)
    | inr more ↦
        let here = Passed-one f 0 s (ground arith) (ground arith) in
        let inside = Passed-end f 0 e terminated s (s + 1) le here in
        let (n, got, r, at, stop, passed) =
          mem_strlen-lem fuel (s + 1) inside (omega (arith, enough)) in
        (suc n, rw (more, got) refl, r, omega (arith, at), stop, Passed-join here passed)
  ]

  module _ (bytes : IsBytes f) (fuel s c : ℕ) (le : s ≤ e) (enough : e < s + fuel) where
    abbrev start : Bool × ℕ
    start = skip_unaligned 8 f s (c % 256)

    here : Reached f (c % 256) s start
    here = skip_unaligned-Reached f (c % 256) 8 s

    -- In a memory of bytes with a terminator at `e`, which the fuel reaches, __strchrnul returns
    -- the address of the first byte from `s` on that is zero or the byte searched for.
    pub strchrnul-FirstOf : (r : ℕ) × (strchrnul fuel f s c ≡ some r) × FirstOf f (c % 256) s r
    unfolding strchrnul
    strchrnul-FirstOf = elim (Bool-cases (c % 256 == 0)) [
      | inl zero_byte ↦
          let (n, got, r, at, stop, passed) = mem_strlen-lem fuel s le enough in
          let is_zero : 0 ≡ c % 256 = ground arith in
          (
            r,
            rw (zero_byte, got) (ap some at),
            (omega (arith, at), subst (λ b. Passed f b s r) is_zero passed, inl stop),
          )
      | inr some_byte ↦ elim (Bool-cases start.0) [
        | inl found ↦ (start.1, rw (some_byte, found) refl, (here.0, here.1, here.2 found))
        | inr not_yet ↦
            let inside = Passed-end f (c % 256) e terminated s start.1 le here.1 in
            let (w, got, after, passed) =
              skip_words-Passed f bytes (c % 256) e terminated (omega arith) fuel start.1 inside
                (omega (arith, enough, here.0)) in
            let all_passed = Passed-join here.1 passed in
            let (r, got', first) =
              find_byte-FirstOf f bytes (c % 256) e terminated fuel w
                (Passed-end f (c % 256) e terminated s w le all_passed)
                (omega (arith, enough, here.0, after)) in
            (
              r,
              rw (some_byte, not_yet, got) got',
              (omega (arith, here.0, after, first.0), Passed-join all_passed first.1, first.2),
            )
      ]
    ]

one_more : (f : Memory) (b e a : ℕ) → f e ≢ b → (a < e → f a ≢ b) → a < e + 1 → f a ≢ b
one_more f b e a here below lt = elim (Bool-cases (a == e)) [
  | inl same ↦ let at : a ≡ e = ground arith in subst (λ x. f x ≢ b) (sym at) here
  | inr other ↦ below (ground arith)
]

-- memrchr finds the last byte that it searches for among `n` bytes, or returns null.
abbrev Last : Memory → (b m n r : ℕ) → Type 0
Last f b m n r =
    ((r ≡ 0) × ((a : ℕ) → m ≤ a → a < m + n → f a ≢ b))
    ⊎ ((m ≤ r) × (r < m + n) × (f r ≡ b) × ((a : ℕ) → r < a → a < m + n → f a ≢ b))

memrchr-Last : (f : Memory) (m c n : ℕ) → Last f (c % 256) m n (memrchr f m c n)
unfolding memrchr
memrchr-Last f m c zero = inl (refl, λ a lo hi. absurd (omega (arith, lo, hi)))
memrchr-Last f m c (suc n) = elim (Bool-cases (f (m + n) == c % 256)) [
  | inl hit ↦
      rw hit
        (inr (omega arith, omega arith, ground arith, λ a lo hi. absurd (omega (arith, lo, hi))))
  | inr miss ↦ rw miss (elim (memrchr-Last f m c n) [
    | inl (null, none) ↦ inl (
      null,
      λ a lo hi. one_more f (c % 256) (m + n) a (ground arith) (none a lo) (omega (arith, hi)),
    )
    | inr (lo, hi, at, none) ↦ inr (
      lo,
      omega (arith, hi),
      at,
      λ a lo hi. one_more f (c % 256) (m + n) a (ground arith) (none a lo) (omega (arith, hi)),
    )
  ])
]

-- Neither search finds the byte up to the terminator at `e`, or `p` is its first address and `q`
-- its last one.
abbrev pub FirstAndLast : Memory → (b s e p q : ℕ) → Type 0
FirstAndLast f b s e p q =
    ((p ≡ 0) × (q ≡ 0) × ((a : ℕ) → s ≤ a → a ≤ e → f a ≢ b))
    ⊎ ((s ≤ p)
        × (p ≤ q)
        × (q ≤ e)
        × (f p ≡ b)
        × (f q ≡ b)
        × ((a : ℕ) → s ≤ a → a < p → f a ≢ b)
        × ((a : ℕ) → q < a → a ≤ e → f a ≢ b))

module _ (f : Memory) (bytes : IsBytes f) (fuel s c e : ℕ) where
  abbrev b : ℕ
  b = c % 256

  module _ (p q : ℕ) (first : FirstOf f b s p) (inside : p ≤ e) (last : Last f b s (e + 1 - s) q)
      (le : s ≤ e) (terminated : f e ≡ 0) (text : (a : ℕ) → s ≤ a → a < e → f a ≢ 0) where
    found_both : f p ≡ b → FirstAndLast f b s e p q
    found_both hit = elim last [
      | inl (null, none) ↦ absurd (none p first.0 (omega (arith, inside, le)) hit)
      | inr (lo, hi, at, none) ↦ elim (Bool-cases (ltb q p)) [
        | inl before ↦ absurd (none p (ground arith) (omega (arith, inside, le)) hit)
        | inr after ↦ inr (
          first.0,
          ground arith,
          omega (arith, hi, le),
          hit,
          at,
          λ a lo' hi'. (first.1 a lo' hi').1,
          λ a lo' hi'. none a lo' (omega (arith, hi', le)),
        )
      ]
    ]

    -- The search that stops at another byte has stopped at the terminator.
    at_end : f p ≢ b → p ≡ e
    at_end miss = elim first.2 [
      | inr hit ↦ absurd (miss hit)
      | inl zero_byte ↦ elim (Bool-cases (ltb p e)) [
        | inl before ↦ absurd (text p first.0 (ground arith) zero_byte)
        | inr after ↦ ground arith
      ]
    ]

    found_none : f p ≢ b → FirstAndLast f b s e 0 q
    found_none miss =
        let nowhere : (a : ℕ) → s ≤ a → a ≤ e → f a ≢ b = λ a lo hi.
          one_more f b p a miss (λ lt. (first.1 a lo lt).1) (omega (arith, hi, at_end miss)) in
        elim last [
          | inl (null, none) ↦ inl (refl, null, nowhere)
          | inr (lo, hi, at, none) ↦ absurd (nowhere q lo (omega (arith, hi, le)) at)
        ]

    ends : FirstAndLast f b s e (if f p == b then p else 0) q
    ends = elim (Bool-cases (f p == b)) [
      | inl hit ↦ rw hit (found_both (ground arith))
      | inr miss ↦ rw miss (found_none (ground arith))
    ]

  -- In a string of bytes from `s` to its terminator at `e`, which the fuel reaches, strchr and
  -- strrchr return; both give null where the byte does not occur, the terminator included, and else
  -- its first and its last address.
  pub strchr-strrchr :
      s ≤ e
      → e < s + fuel
      → f e ≡ 0
      → ((a : ℕ) → s ≤ a → a < e → f a ≢ 0)
      → (p : ℕ) × (q : ℕ) × (strchr fuel f s c ≡ some p)
        × (strrchr fuel f s c ≡ some q)
        × FirstAndLast f b s e p q
  unfolding strchr strrchr
  strchr-strrchr le enough terminated text =
      let (p, got, first) = strchrnul-FirstOf f e terminated bytes fuel s c le enough in
      let (n, long, r, at, stop, passed) = mem_strlen-lem f e terminated fuel s le enough in
      let short = Passed-end f 0 e terminated s r le passed in
      let inside = Passed-end f b e terminated s p le first.1 in
      let length_is : n + 1 ≡ e + 1 - s = elim (Bool-cases (ltb r e)) [
        | inl before ↦ absurd (text r (omega (arith, at)) (ground arith) stop)
        | inr after ↦ ground arith
      ] in
      (
        (if f p == b then p else 0),
        memrchr f s c (n + 1),
        rw got refl,
        rw long refl,
        ends p (memrchr f s c (n + 1)) first inside
            (subst (λ k. Last f b s k (memrchr f s c (n + 1))) length_is
              (memrchr-Last f s c (n + 1)))
            le terminated text,
      )
