-- ===== src/Tests/Text.antt =====
-- The text functions at concrete strings.
use dragon_stub.Base.{ℕ, ◌≡◌, ◌↔◌, arith, List, [], ◌∷◌}
use dragon_stub.Text.Hex.{hex_to_bin, hex_value, hex_to_bin-hex_value}
use dragon_stub.Text.Str.{cstr, strcmp}
use dragon_stub.Text.Compare.{strcmp_iff}

abbrev efi_word : List ℕ
efi_word = b'e' ∷ b'f' ∷ b'i' ∷ 0 ∷ []

abbrev efi_text : List ℕ
efi_text = b'e' ∷ b'f' ∷ b'i' ∷ b'=' ∷ b'x' ∷ 0 ∷ []

abbrev efi_prefix : List ℕ
efi_prefix = b'e' ∷ b'f' ∷ 0 ∷ []

hex_to_bin-hex_value_example : hex_to_bin b'C' ≡ hex_value b'C'
hex_to_bin-hex_value_example = hex_to_bin-hex_value b'C' (omega arith)

strcmp_iff_example : (strcmp efi_word efi_text ≡ 0) ↔ (cstr efi_word ≡ cstr efi_text)
strcmp_iff_example =
    strcmp_iff efi_word efi_text (omega arith, (omega arith, (omega arith, (omega arith, tt))))
      (omega arith, (omega arith, (omega arith, (omega arith, (omega arith, (omega arith, tt))))))
