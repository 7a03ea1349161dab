-- ===== src/Printf/Decimal.antt =====
-- put_dec of apps/lib/vsprintf.c and its two parts, for 64-bit words: decimal digits, the lowest
-- first, two at a time and without division. A result is the list of the bytes up to the returned
-- pointer.
pub mod Digits
use dragon_stub.Base.{ℕ, ◌+◌, ◌-◌, ◌*◌, ◌/◌, ◌%◌, ◌^◌, List, [], ◌∷◌, ◌++◌, ltb, leb, if◌then◌else◌}

-- The two bytes of decpair[x].
unfoldable pub decpair : ℕ → List ℕ
decpair x = (x % 10 + 0x30) ∷ (x / 10 + 0x30) ∷ []

-- The division by 100 in 64 bits, and the one in 32 bits.
unfoldable pub hundredth : ℕ → ℕ
hundredth r = r * 0x28f5c29 % 2 ^ 64 / 2 ^ 32

unfoldable pub hundredth_small : ℕ → ℕ
hundredth_small r = r * 0x147b % 2 ^ 32 / 2 ^ 19

-- `r - 100 * q` on unsigned.
abbrev pub modulo : (r q : ℕ) → ℕ
modulo r q = (r + 2 ^ 32 - 100 * q % 2 ^ 32) % 2 ^ 32

-- The label out_r: one byte of the pair is kept where the number has one digit.
unfoldable pub last_pair : ℕ → List ℕ
last_pair r = if ltb r 10 then (r % 10 + 0x30) ∷ [] else decpair r

unfoldable pub put_dec_trunc8 : ℕ → List ℕ
unfolding hundredth hundredth_small last_pair decpair
put_dec_trunc8 r =
    let q = hundredth r in
    let r1 = hundredth q in
    let q1 = hundredth_small r1 in
    if ltb r 100
    then last_pair r
    else if ltb q 100
    then decpair (modulo r q) ++ last_pair q
    else if ltb r1 100
    then decpair (modulo r q) ++ (decpair (modulo q r1) ++ last_pair r1)
    else decpair (modulo r q) ++ (decpair (modulo q r1) ++ (decpair (modulo r1 q1) ++ last_pair q1))

unfoldable pub put_dec_full8 : ℕ → List ℕ
unfolding hundredth hundredth_small decpair
put_dec_full8 r =
    let q = hundredth r in
    let r1 = hundredth q in
    let q1 = hundredth_small r1 in
    decpair (modulo r q) ++ (decpair (modulo q r1) ++ (decpair (modulo r1 q1) ++ decpair q1))

abbrev pub ten_to_8 : ℕ
ten_to_8 = 100 * 1000 * 1000

-- do_div gives the remainder and leaves the quotient.
unfoldable pub put_dec : ℕ → List ℕ
unfolding put_dec_trunc8 put_dec_full8
put_dec n =
    let m = n / ten_to_8 in
    if leb ten_to_8 n
    then put_dec_full8 (n % ten_to_8)
      ++ (if leb ten_to_8 m
          then put_dec_full8 (m % ten_to_8) ++ put_dec_trunc8 (m / ten_to_8)
          else put_dec_trunc8 m)
    else put_dec_trunc8 n
