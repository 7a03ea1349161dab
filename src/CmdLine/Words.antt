-- ===== src/CmdLine/Words.antt =====
-- The words that efi_parse_options of apps/helper.c compares with.
use dragon_stub.Base.{ℕ, List, [], ◌∷◌}

abbrev pub double_dash : List ℕ
double_dash = b'-' ∷ b'-' ∷ 0 ∷ []

abbrev pub nokaslr : List ℕ
nokaslr = b'n' ∷ b'o' ∷ b'k' ∷ b'a' ∷ b's' ∷ b'l' ∷ b'r' ∷ 0 ∷ []

abbrev pub quiet : List ℕ
quiet = b'q' ∷ b'u' ∷ b'i' ∷ b'e' ∷ b't' ∷ 0 ∷ []

abbrev pub noinitrd : List ℕ
noinitrd = b'n' ∷ b'o' ∷ b'i' ∷ b'n' ∷ b'i' ∷ b't' ∷ b'r' ∷ b'd' ∷ 0 ∷ []

abbrev pub efi : List ℕ
efi = b'e' ∷ b'f' ∷ b'i' ∷ 0 ∷ []

abbrev pub nochunk : List ℕ
nochunk = b'n' ∷ b'o' ∷ b'c' ∷ b'h' ∷ b'u' ∷ b'n' ∷ b'k' ∷ 0 ∷ []

abbrev pub novamap : List ℕ
novamap = b'n' ∷ b'o' ∷ b'v' ∷ b'a' ∷ b'm' ∷ b'a' ∷ b'p' ∷ 0 ∷ []

abbrev pub disable_early_pci_dma : List ℕ
disable_early_pci_dma =
    b'd' ∷ b'i' ∷ b's' ∷ b'a' ∷ b'b' ∷ b'l' ∷ b'e' ∷ b'_' ∷ b'e' ∷ b'a' ∷ b'r' ∷ b'l' ∷ b'y' ∷ b'_'
    ∷ b'p' ∷ b'c' ∷ b'i' ∷ b'_' ∷ b'd' ∷ b'm' ∷ b'a' ∷ 0 ∷ []

abbrev pub no_disable_early_pci_dma : List ℕ
no_disable_early_pci_dma = b'n' ∷ b'o' ∷ b'_' ∷ disable_early_pci_dma
