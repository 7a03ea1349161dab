-- ===== src/Tests/Platform.antt =====
-- A firmware for the examples: it hands out one block of pages at 16 MB + 4 KB, pool memory from
-- 2 MB on, and has no optional protocol.
use dragon_stub.Base.{
  some, ℕ, ◌+◌, ◌*◌, ◌%◌, ◌^◌, ◌≤◌, ◌≡◌, refl, arith, true, false, List, [], ◌∷◌, leb,
  if◌then◌else◌, length,
}
use dragon_stub.Machine.{
  Desc, MapReply, Firmware, Globals, History, Machine, efi_success, efi_buffer_too_small,
  efi_not_found, efi_page_size,
}
use dragon_stub.Pages.Ownership.{GrantsPages, in_pages, owns}

abbrev pub block : ℕ
block = 0x1001000

abbrev pub grant : History → (kind memory_type pages request : ℕ) → ℕ × ℕ
grant [] kind memory_type n request =
    if leb (block + n * efi_page_size) (request + 1)
    then (efi_success, block)
    else (efi_not_found, 0)
grant (e ∷ h) kind memory_type n request = (efi_not_found, 0)

abbrev pub two_regions : List Desc
two_regions =
    record {
      physical_start = 0x80000000;
      virtual_start = 0;
      number_of_pages = 16;
      attribute = 2 ^ 63;
    }
    ∷ record { physical_start = 0x80020000; virtual_start = 0; number_of_pages = 8; attribute = 15 }
    ∷ []

abbrev pub map_reply : ℕ → MapReply
map_reply room = record {
  status = if leb 96 room then efi_success else efi_buffer_too_small;
  map_size = 96;
  map_key = 77;
  desc_size = 48;
  desc_ver = 1;
  descs = two_regions;
}

abbrev pub platform : Firmware
platform = record {
  allocate_pages = grant;
  allocate_pool = λ h memory_type size. (efi_success, 0x200000 + length h * 0x10000);
  get_memory_map = λ h room. map_reply room;
  install_configuration_table = λ h guid address. efi_success;
  exit_boot_services = λ h handle map_key. efi_success;
  set_virtual_address_map = λ h size desc_size desc_ver descs. efi_success;
  locate_protocol = λ h guid. (efi_not_found, 0);
  get_memory_attributes = λ h base size. (efi_not_found, 0);
  clear_memory_attributes = λ h base size attributes. efi_not_found;
  get_boot_hartid = λ h. (efi_success, some 3);
  get_variable = λ h name. (efi_not_found, 0, 0);
  hash_log_extend_event = λ h load_addr load_size event. efi_success;
  get_rng = λ h protocol size. (efi_success, 17 ∷ 23 ∷ 42 ∷ 99 ∷ []);
  config_tables = λ h. [];
}

pub platform-GrantsPages : GrantsPages platform
platform-GrantsPages = record { page_aligned = page_aligned; below = below; fresh = fresh }
  where
    page_aligned :
        (h : History) (memory_type n request : ℕ)
        → (grant h 1 memory_type n request).0 ≡ efi_success
        → (grant h 1 memory_type n request).1 % efi_page_size ≡ 0
    page_aligned [] memory_type n request e = ground arith
    page_aligned (x ∷ h) memory_type n request e = absurd (ground arith)

    below :
        (h : History) (memory_type n request : ℕ)
        → (grant h 1 memory_type n request).0 ≡ efi_success
        → (grant h 1 memory_type n request).1 + n * efi_page_size ≤ request + 1
    below [] memory_type n request e = ground arith
    below (x ∷ h) memory_type n request e = absurd (ground arith)

    fresh :
        (h : History) (memory_type n request : ℕ)
        → (grant h 1 memory_type n request).0 ≡ efi_success
        → (p : ℕ) → in_pages p (grant h 1 memory_type n request).1 n ≡ true
        → owns h p ≡ false
    fresh [] memory_type n request e p inside = refl
    fresh (x ∷ h) memory_type n request e p inside = absurd (ground arith)

abbrev pub no_options : Globals
no_options = record {
  efi_nochunk = false;
  efi_nokaslr = true;
  efi_novamap = false;
  efi_noinitrd = false;
  efi_nosoftreserve = false;
  efi_disable_pci_dma = false;
  hartid = 0;
}

abbrev pub start_with : (ℕ → ℕ) → Machine
start_with f = record { memory = f; globals = no_options; history = [] }
