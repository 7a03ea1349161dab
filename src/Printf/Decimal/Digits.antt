-- ===== src/Printf/Decimal/Digits.antt =====
-- put_dec gives the decimal digits.
use dragon_stub.Base.{
  ℕ, zero, suc, ◌+◌, ◌/◌, ◌%◌, ◌^◌, ◌≤◌, ◌<◌, ◌≡◌, refl, arith, ap, sym, ◌∙◌, List, [], ◌∷◌, ◌++◌,
  ltb, leb, true, Bool-cases, leb→le, inl, inr, if◌then◌else◌,
}
use native.Mathlib.Nat.{one-le-pow, pow-succ', div-div-eq-div-mul, suc-add, zero-add}
use dragon_stub.Printf.Decimal.{
  decpair, hundredth, hundredth_small, modulo, last_pair, put_dec_trunc8, put_dec_full8, put_dec,
  ten_to_8,
}

-- The digits of `n`, the lowest first, at most `count` of them, and one for 0.
abbrev pub decimal : (count n : ℕ) → List ℕ
decimal zero n = []
decimal (suc count) n =
    let rest = decimal count (n / 10) in (n % 10 + b'0') ∷ (if ltb n 10 then [] else rest)

-- The lowest `count` digits of `n`, with zeros.
abbrev pub low_digits : (count n : ℕ) → List ℕ
low_digits zero n = []
low_digits (suc count) n = (n % 10 + b'0') ∷ low_digits count (n / 10)

hundredth_lem : (r : ℕ) → r < ten_to_8 → hundredth r ≡ r / 100
unfolding hundredth
hundredth_lem r lt = omega arith

hundredth_small_lem : (r : ℕ) → r < 10000 → hundredth_small r ≡ r / 100
unfolding hundredth_small
hundredth_small_lem r lt = omega arith

modulo_lem : (r : ℕ) → r < ten_to_8 → modulo r (r / 100) ≡ r % 100
modulo_lem r lt = omega arith

put_dec_full8-low_digits : (r : ℕ) → r < ten_to_8 → put_dec_full8 r ≡ low_digits 8 r
unfolding put_dec_full8 decpair
put_dec_full8-low_digits r lt =
    rw
      (
        hundredth_lem r lt,
        hundredth_lem (r / 100) (omega arith),
        hundredth_small_lem (r / 100 / 100) (omega arith),
        modulo_lem r lt,
        modulo_lem (r / 100) (omega arith),
        modulo_lem (r / 100 / 100) (omega arith),
      )
      (ground arith)

-- Below 100, 10 ^ 4, 10 ^ 6 and 10 ^ 8.
last_pair-decimal : (count r : ℕ) → r < 100 → last_pair r ≡ decimal (suc (suc count)) r
unfolding last_pair decpair
last_pair-decimal count r lt = ground arith

pair-decimal :
    (count r : ℕ)
    → leb 100 r ≡ true
    → decpair (r % 100) ++ decimal count (r / 100) ≡ decimal (suc (suc count)) r
unfolding decpair
pair-decimal count r ge = ground arith

put_dec_trunc8-decimal : (r : ℕ) → r < ten_to_8 → put_dec_trunc8 r ≡ decimal 8 r
unfolding put_dec_trunc8
put_dec_trunc8-decimal r lt =
    let q = r / 100 in
    let r1 = q / 100 in
    rw
      (
        hundredth_lem r lt,
        hundredth_lem q (omega arith),
        hundredth_small_lem r1 (omega arith),
        modulo_lem r lt,
        modulo_lem q (omega arith),
        modulo_lem r1 (omega arith),
      )
      (ground (
        arith,
        last_pair-decimal 6 r,
        last_pair-decimal 4 q,
        last_pair-decimal 2 r1,
        last_pair-decimal 0 (r1 / 100),
        pair-decimal 6 r,
        pair-decimal 4 q,
        pair-decimal 2 r1,
      ))

-- A number of more than `k` digits is its `k` lowest and the others.
decimal-split :
    (k count n : ℕ)
    → 10 ^ k ≤ n
    → low_digits k n ++ decimal count (n / 10 ^ k) ≡ decimal (k + count) n
decimal-split zero count n le =
    ap (decimal count) {x = n / 10 ^ 0} {y = n} (omega arith)
    ∙ ap (λ (k : ℕ). decimal k n) (sym (zero-add count))
decimal-split (suc k) count n le =
    let higher : n / 10 ^ suc k ≡ n / 10 / 10 ^ k =
      ap (λ (d : ℕ). n / d) (pow-succ' 10 k) ∙ sym (div-div-eq-div-mul n 10 (10 ^ k)) in
    rw (higher, suc-add k count)
      (ground (arith, pow-succ' 10 k, one-le-pow k 10, decimal-split k count (n / 10)))

-- Room for all digits is as good as more room.
decimal-enough :
    (a b n : ℕ) → n < 10 ^ suc a → n < 10 ^ suc b → decimal (suc a) n ≡ decimal (suc b) n
decimal-enough zero zero n p q = refl
decimal-enough zero (suc b) n p q = ground arith
decimal-enough (suc a) zero n p q = ground arith
decimal-enough (suc a) (suc b) n p q =
    ground (arith, pow-succ' 10 (suc a), pow-succ' 10 (suc b), decimal-enough a b (n / 10))

low_digits-mod : (n : ℕ) → low_digits 8 (n % ten_to_8) ≡ low_digits 8 n
low_digits-mod n = ground arith

-- The eight lowest digits, and the others.
full8-decimal :
    (count n : ℕ)
    → ten_to_8 ≤ n
    → put_dec_full8 (n % ten_to_8) ++ decimal count (n / ten_to_8) ≡ decimal (8 + count) n
full8-decimal count n le =
    ap (λ (s : List ℕ). s ++ decimal count (n / ten_to_8))
      (put_dec_full8-low_digits (n % ten_to_8) (omega arith) ∙ low_digits-mod n)
    ∙ decimal-split 8 count n le

-- What put_dec does after its first step.
higher-decimal :
    (m : ℕ)
    → m < 10 ^ 16
    → (if leb ten_to_8 m
        then put_dec_full8 (m % ten_to_8) ++ put_dec_trunc8 (m / ten_to_8)
        else put_dec_trunc8 m)
      ≡ decimal 16 m
higher-decimal m lt = elim (Bool-cases (leb ten_to_8 m)) [
  | inl large ↦
      rw (large, put_dec_trunc8-decimal (m / ten_to_8) (omega arith))
        (full8-decimal 8 m (leb→le ten_to_8 m large))
  | inr small ↦ rw small (
      put_dec_trunc8-decimal m (ground (arith, small))
      ∙ decimal-enough 7 15 m (ground (arith, small)) (omega arith))
]

-- For every 64-bit word, put_dec gives its decimal digits, the lowest first.
pub put_dec-decimal : (n : ℕ) → n < 2 ^ 64 → put_dec n ≡ decimal 24 n
unfolding put_dec
put_dec-decimal n lt = elim (Bool-cases (leb ten_to_8 n)) [
  | inl large ↦
      rw (large, higher-decimal (n / ten_to_8) (omega arith))
        (full8-decimal 16 n (leb→le ten_to_8 n large))
  | inr small ↦ rw small (
      put_dec_trunc8-decimal n (ground (arith, small))
      ∙ decimal-enough 7 23 n (ground (arith, small)) (omega arith))
]
