-- ===== src/CmdLine/Suffix.antt =====
-- The value of memparse of apps/lib/cmdline.c.
use dragon_stub.Base.{
  ℕ, zero, suc, ◌+◌, ◌*◌, ◌%◌, ◌^◌, ◌<◌, ◌≤◌, ◌≡◌, ap, ◌∙◌, arith, get_or, List, [], ◌∷◌, ◌==◌,
  ◌||◌, if◌then◌else◌,
}
use dragon_stub.Text.Str.{digit_value, strtoull_loop, simple_strtoull}
use dragon_stub.CmdLine.{shift_ten, suffix_steps, memparse}

suffix_steps-bound : (c : ℕ) → suffix_steps c ≤ 6
unfolding suffix_steps
suffix_steps-bound c = ground arith

shift_ten-value : (n ret : ℕ) → n ≤ 6 → ret < 2 ^ 64 → shift_ten n ret ≡ ret * 2 ^ (10 * n) % 2 ^ 64
unfolding shift_ten
shift_ten-value zero ret le lt = omega arith
shift_ten-value (suc zero) ret le lt = omega arith
shift_ten-value (suc (suc zero)) ret le lt = omega arith
shift_ten-value (suc (suc (suc zero))) ret le lt = omega arith
shift_ten-value (suc (suc (suc (suc zero)))) ret le lt = omega arith
shift_ten-value (suc (suc (suc (suc (suc zero))))) ret le lt = omega arith
shift_ten-value (suc (suc (suc (suc (suc (suc zero)))))) ret le lt = omega arith
shift_ten-value (suc (suc (suc (suc (suc (suc (suc n))))))) ret le lt = absurd (omega arith)

-- What a suffix multiplies by.
abbrev pub suffix_factor : ℕ → ℕ
suffix_factor c =
    if (c == b'K') || (c == b'k')
    then 2 ^ 10
    else if (c == b'M') || (c == b'm')
    then 2 ^ 20
    else if (c == b'G') || (c == b'g')
    then 2 ^ 30
    else if (c == b'T') || (c == b't')
    then 2 ^ 40
    else if (c == b'P') || (c == b'p')
    then 2 ^ 50
    else if (c == b'E') || (c == b'e')
    then 2 ^ 60
    else 1

suffix_steps-factor : (c : ℕ) → 2 ^ (10 * suffix_steps c) ≡ suffix_factor c
unfolding suffix_steps
suffix_steps-factor c = ground arith

strtoull_loop-bound :
    (base result : ℕ) (cp : List ℕ) → result < 2 ^ 64 → (strtoull_loop base result cp).0 < 2 ^ 64
unfolding strtoull_loop
strtoull_loop-bound base result [] lt = lt
strtoull_loop-bound base result (c ∷ cp) lt =
    let next = (result * base + digit_value c) % 2 ^ 64 in
    let rest = strtoull_loop-bound base next cp (omega arith) in ground (arith, rest)

simple_strtoull-bound : (cp : List ℕ) (base : ℕ) → (simple_strtoull cp base).0 < 2 ^ 64
unfolding simple_strtoull
simple_strtoull-bound cp base = strtoull_loop-bound _ 0 _ (omega arith)

-- memparse gives the number before the suffix times 2 ^ 10 for K, 2 ^ 20 for M and so on up to
-- 2 ^ 60 for E, in either case of letter, modulo 2 ^ 64.
pub memparse-suffix_factor :
    (ptr : List ℕ)
    → (memparse ptr).0
      ≡ (simple_strtoull ptr 0).0 * suffix_factor (get_or (simple_strtoull ptr 0).1 0 0) % 2 ^ 64
unfolding memparse
memparse-suffix_factor ptr =
    let r = simple_strtoull ptr 0 in
    let c = get_or r.1 0 0 in
    shift_ten-value (suffix_steps c) r.0 (suffix_steps-bound c) (simple_strtoull-bound ptr 0)
    ∙ ap (λ (t : ℕ). r.0 * t % 2 ^ 64) (suffix_steps-factor c)
