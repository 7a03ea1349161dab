-- ===== src/Pages/Map.antt =====
-- The pool memory of efi_get_memory_map of apps/mem.c.
use dragon_stub.Base.{ℕ, ◌≡◌, ◌≢◌, ◌↔◌, arith, Bool, Option, none, some, List, ◌∷◌}
use dragon_stub.Machine.{Firmware, Machine, efi_success}
use dragon_stub.Pages.{BootMemmap, efi_get_memory_map}
use dragon_stub.Pages.Ownership.{pools}

-- The pool memory that the caller of efi_get_memory_map has to give back.
abbrev pub held : Option BootMemmap → List ℕ → List ℕ
held none before = before
held (some map) before = map.address ∷ before

-- efi_get_memory_map reports EFI_SUCCESS exactly when it hands out a map. Its pool memory is then
-- that of the map, and after any error, of GetMemoryMap, AllocatePool or InstallConfigurationTable,
-- nothing is left allocated. Memory and global variables stay.
pub efi_get_memory_map-pools :
    (fw : Firmware) (install_cfg_tbl : Bool) (m : Machine)
    → let r = efi_get_memory_map fw install_cfg_tbl m in
      ((r.0.0 ≡ efi_success) ↔ (r.0.1 ≢ none))
      × (pools r.1.history ≡ held r.0.1 (pools m.history))
      × (r.1.memory ≡ m.memory)
      × (r.1.globals ≡ m.globals)
unfolding efi_get_memory_map
efi_get_memory_map-pools fw install_cfg_tbl m = ground arith
