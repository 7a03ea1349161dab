-- ===== src/Tests/Handover.antt =====
-- The hand-over on the firmware of the examples.
use dragon_stub.Base.{
  ℕ, bit_and, ◌≡◌, ◌≢◌, ◌≤◌, ◌⊎◌, ◌↔◌, refl, arith, true, false, none, [], ◌==◌, if◌then◌else◌,
}
use dragon_stub.Machine.{Guid, Firmware, Machine, M, efi_success, efi_invalid_parameter}
use dragon_stub.Pages.{BootMemmap, efi_get_memory_map}
use dragon_stub.Pages.Ownership.{pools}
use dragon_stub.Pages.Map.{held, efi_get_memory_map-pools}
use dragon_stub.Elf.Load.{PayloadInfo}
use dragon_stub.Platform.{
  SecurebootMode, ChosenLookup, find_table, check_platform_features, get_boot_hartid_from_efi,
  efi_get_secureboot,
}
use dragon_stub.Platform.Hart.{protocol_hart, tree_hart, chosen_hart, check_platform_features-hart}
use dragon_stub.Platform.Secure.{
  first_answer, second_answer, third_answer, efi_get_secureboot-enabled_iff,
}
use dragon_stub.Boot.{
  efi_get_virtmap, efi_rt_virtual_base, efi_exit_boot_services, retry_exit, exit_with_map,
}
use dragon_stub.Boot.Virtmap.{Chain, Fits, unplaced, runtime_regions, efi_get_virtmap-Chain}
use dragon_stub.Boot.Exit.{exits, is_disciplined}
use dragon_stub.Boot.Leaves.{LetsGo, efi_exit_boot_services-leaves}
use dragon_stub.Boot.Key.{left_with_current_key}
use dragon_stub.Fdt.{Libfdt, update_fdt_memmap, set_all}
use dragon_stub.Handover.{ExitBoot, Outcome, exit_boot_func, efi_boot_kernel}
use dragon_stub.Handover.Main.{LoadedImage, Layout, efi_main}
use dragon_stub.Handover.Main.Ends.{EndedMain, efi_main-EndedMain}
use dragon_stub.Handover.Callback.{exit_boot_func-is_disciplined, exit_boot_func-key}
use dragon_stub.Handover.Errors.{handed_over, efi_boot_kernel-handed_over}
use dragon_stub.Tests.Platform.{platform, start_with, two_regions}

abbrev blank : Machine
blank = start_with (λ _. 0)

-- A libfdt whose tree holds nothing and takes everything.
abbrev tree_library : Libfdt
tree_library = record {
  check_header = λ f fdt. 0;
  totalsize = λ f fdt. 0;
  open_into = λ f fdt buf bufsize. (0, f);
  create_empty_tree = λ f buf bufsize. (0, f);
  num_mem_rsv = λ f fdt. 0;
  del_mem_rsv = λ f fdt n. (0, f);
  root_offset = λ f fdt. 0;
  chosen_offset = λ f fdt. 8;
  add_chosen = λ f fdt. (8, f);
  setprop = λ f fdt node name value. (0, f);
  setprop_inplace = λ f fdt node name value. (0, f);
  pack = λ f fdt. f;
}

abbrev no_chosen : ChosenLookup
no_chosen = record { path_offset = λ f fdt. 0; boot_hartid = λ f fdt node. (0, 0) }

abbrev fresh_exit : ExitBoot
fresh_exit = record { boot_memmap = none; runtime_map = []; new_fdt_addr = 0x400000 }

abbrev no_payload : PayloadInfo
no_payload = record {
  payload_addr = 0x100000;
  payload_size = 0x200;
  loaded_paddr = 0;
  loaded_size = 0;
  kernel_entry = 0;
}

regions_fit : Fits efi_rt_virtual_base two_regions
regions_fit = ground arith

efi_get_virtmap-Chain_example :
    Chain efi_rt_virtual_base (efi_get_virtmap false two_regions efi_rt_virtual_base).1
    × (unplaced (efi_get_virtmap false two_regions efi_rt_virtual_base).1
        ≡ unplaced (runtime_regions two_regions))
efi_get_virtmap-Chain_example =
    efi_get_virtmap-Chain two_regions efi_rt_virtual_base (omega arith) regions_fit

exit_boot_func-is_disciplined_example :
    (is_disciplined
        (efi_exit_boot_services platform (exit_boot_func tree_library) 7 fresh_exit blank).1.history
      ≡ true)
    × (exits
          (efi_exit_boot_services platform
            (exit_boot_func tree_library)
            7
            fresh_exit
            blank).1.history
        ≤ 2)
exit_boot_func-is_disciplined_example =
    exit_boot_func-is_disciplined platform tree_library 7 fresh_exit blank refl

left :
    (efi_exit_boot_services platform (exit_boot_func tree_library) 7 fresh_exit blank).0.0
    ≡ efi_success
unfolding efi_exit_boot_services exit_with_map retry_exit efi_get_memory_map exit_boot_func
    update_fdt_memmap set_all efi_get_virtmap
left = refl

exit_boot_func-key_example :
    left_with_current_key
      (efi_exit_boot_services platform (exit_boot_func tree_library) 7 fresh_exit blank).1.history
    ≡ true
exit_boot_func-key_example = exit_boot_func-key platform tree_library 7 fresh_exit blank left

efi_get_memory_map-pools_example :
    let r = efi_get_memory_map platform true blank in
    ((r.0.0 ≡ efi_success) ↔ (r.0.1 ≢ none))
    × (pools r.1.history ≡ held r.0.1 (pools blank.history))
    × (r.1.memory ≡ blank.memory)
    × (r.1.globals ≡ blank.globals)
efi_get_memory_map-pools_example = efi_get_memory_map-pools platform true blank

check_platform_features-hart_example :
    let n = (get_boot_hartid_from_efi platform blank).1 in
    let tree =
      tree_hart no_chosen blank.memory
        (find_table (platform.config_tables n.history) Guid.device_tree) in
    let chosen = chosen_hart (protocol_hart platform blank blank.globals.hartid) tree in
    ((check_platform_features platform no_chosen blank).0 ≡ chosen.0)
    × ((check_platform_features platform no_chosen blank).1.globals.hartid ≡ chosen.1)
    × ((check_platform_features platform no_chosen blank).1.memory ≡ blank.memory)
check_platform_features-hart_example = check_platform_features-hart platform no_chosen blank

efi_get_secureboot-enabled_iff_example :
    ((efi_get_secureboot platform blank).0 ≡ SecurebootMode.enabled) ↔ (
      ((first_answer platform blank).0 ≡ efi_success)
      × ((first_answer platform blank).2 ≢ 0)
      × ((second_answer platform blank).0 ≡ efi_success → (second_answer platform blank).2 ≢ 1)
      × ((third_answer platform blank).0 ≡ efi_success
          → bit_and (third_answer platform blank).1 1 ≡ 0
          → (third_answer platform blank).2 ≢ 1))
efi_get_secureboot-enabled_iff_example = efi_get_secureboot-enabled_iff platform blank

efi_boot_kernel-handed_over_example :
    let r = efi_boot_kernel platform tree_library 7 0x5000 0x10000 0x20000 no_payload none blank in
    ((r.0 ≡ Outcome.stopped)
      ⊎ ((status : ℕ) × (r.0 ≡ Outcome.returned status) × (status ≢ efi_success)))
    ⊎ ((entry : ℕ) × (fdt : ℕ) × (r.0 ≡ Outcome.entered entry r.1.globals.hartid fdt)
        × (handed_over r.1.history ≡ true))
efi_boot_kernel-handed_over_example =
    efi_boot_kernel-handed_over platform tree_library 7 0x5000 0x10000 0x20000 no_payload none blank

-- A firmware whose memory map changes once.
abbrev changing : Firmware
changing = record platform {
  exit_boot_services =
      λ h handle map_key. if exits h == 0 then efi_invalid_parameter else efi_success;
}

changing-LetsGo : LetsGo changing 96
changing-LetsGo = record {
  leaves_or_stale = λ h handle key. ground arith;
  maps_again = λ h handle key room le. ground arith;
  leaves_then = λ h handle key room reply. ground arith;
}

-- A callback that leaves all as it is.
abbrev idle : BootMemmap → ℕ → M (ℕ × (BootMemmap × ℕ))
idle b p m = ((efi_success, (b, p)), m)

efi_exit_boot_services-leaves_example :
    (efi_exit_boot_services changing idle 7 3 blank).0.0 ≡ efi_success
unfolding efi_get_memory_map
efi_exit_boot_services-leaves_example =
    efi_exit_boot_services-leaves changing idle (λ b p m. refl) (λ b p m. refl) (λ b p m. refl)
      (λ b p m. refl) 96 changing-LetsGo 7 3 blank _ refl refl (omega arith)

abbrev image : LoadedImage
image = record { load_options = 0; load_options_size = 0 }

abbrev symbols : Layout
symbols = record {
  start = 0x10000;
  image_end = 0x20000;
  payload_start = 0x100000;
  payload_end = 0x100200;
  cmdline_ptr = 0x3000;
}

efi_main-EndedMain_example :
    EndedMain (efi_main platform tree_library no_chosen symbols (efi_success, image) 7 0x5000 blank)
efi_main-EndedMain_example =
    efi_main-EndedMain platform tree_library no_chosen symbols (efi_success, image) 7 0x5000 blank
