-- ===== src/Text/Hex.antt =====
-- hex_to_bin of apps/lib/hexdump.c: no branch and no table, in 32-bit arithmetic.
use dragon_stub.Base.{
  ℕ, ◌+◌, ◌-◌, ◌/◌, ◌%◌, ◌^◌, ◌<◌, ◌≡◌, refl, true, ◌&&◌, bit_and, ◌==◌, leb, if◌then◌else◌,
  holds_below, holds_below-lt, ==_iff,
}

abbrev u32 : ℕ → ℕ
u32 n = n % 2 ^ 32

-- `a - b` on `int`, as a 32-bit word.
abbrev sub32 : ℕ → ℕ → ℕ
sub32 a b = (a + 2 ^ 32 - b) % 2 ^ 32

-- One of the two masked terms: zero outside `lo` to `hi`.
hex_term : (ch lo hi base : ℕ) → ℕ
hex_term ch lo hi base =
    bit_and (u32 (sub32 ch lo + base))
      (bit_and (sub32 (sub32 ch hi) 1) (sub32 (sub32 lo 1) ch) / 2 ^ 8)

unfoldable pub hex_to_bin : ℕ → ℕ
unfolding hex_term
hex_to_bin ch =
    let cu = bit_and ch 0xdf in
    u32 (2 ^ 32 - 1 + hex_term ch b'0' b'9' 1 + hex_term cu b'A' b'F' 11)

-- The value of a hexadecimal digit; -1 as a 32-bit word for any other byte.
abbrev pub hex_value : ℕ → ℕ
hex_value ch =
    if leb b'0' ch && leb ch b'9'
    then ch - b'0'
    else if leb b'A' ch && leb ch b'F'
    then ch - b'A' + 10
    else if leb b'a' ch && leb ch b'f'
    then ch - b'a' + 10
    else 2 ^ 32 - 1

hex_to_bin_table : holds_below (λ ch. hex_to_bin ch == hex_value ch) 256 ≡ true
unfolding hex_to_bin holds_below
hex_to_bin_table = refl

-- For every byte, the branch-free computation gives the value of a hexadecimal digit in either
-- case of letter, and -1 for every other byte.
pub hex_to_bin-hex_value : (ch : ℕ) → ch < 256 → hex_to_bin ch ≡ hex_value ch
hex_to_bin-hex_value ch h =
    (==_iff _ _).0 (holds_below-lt (λ c. hex_to_bin c == hex_value c) 256 ch h hex_to_bin_table)
