-- ===== src/Printf/Pointer/Hex.antt =====
-- hex_to_bin reads back the digits of hex_string and mac_address_string.
use dragon_stub.Base.{
  ℕ, ◌/◌, ◌%◌, ◌<◌, ◌≡◌, refl, arith, Bool, true, ◌&&◌, ◌==◌, holds_below, holds_below-lt,
}
use dragon_stub.Text.Hex.{hex_to_bin}
use dragon_stub.Printf.Number.{digit_char}
use dragon_stub.Printf.Pointer.{hex_asc_hi, hex_asc_lo}

reads_back : ℕ → Bool
unfolding hex_to_bin digit_char
reads_back byte =
    (hex_to_bin (hex_asc_hi byte) == byte / 16) && (hex_to_bin (hex_asc_lo byte) == byte % 16)

all_read_back : holds_below reads_back 256 ≡ true
unfolding reads_back holds_below
all_read_back = refl

both : (a b c d : ℕ) → ((a == b) && (c == d)) ≡ true → (a ≡ b) × (c ≡ d)
both a b c d h = (ground arith, ground arith)

-- For every byte, hex_to_bin gives back its upper half from the first of the two digits that are
-- written for it, and its lower half from the second.
hex_asc-hex_to_bin :
    (byte : ℕ)
    → byte < 256
    → (hex_to_bin (hex_asc_hi byte) ≡ byte / 16) × (hex_to_bin (hex_asc_lo byte) ≡ byte % 16)
unfolding reads_back
hex_asc-hex_to_bin byte lt = both _ _ _ _ (holds_below-lt reads_back 256 byte lt all_read_back)
