-- ===== src/Platform/Hart.antt =====
-- The boot hart: check_platform_features of apps/riscv-stub.c, and its two sources.
use dragon_stub.Base.{ℕ, ◌≡◌, arith, not, ◌==◌, ◌||◌, if◌then◌else◌}
use dragon_stub.Machine.{Guid, Event, Machine, Firmware, efi_success, efi_unsupported, emit}
use dragon_stub.Pages.{failed}
use dragon_stub.Platform.{
  ChosenLookup, is_negative, read_be, stored, find_table, get_efi_config_table,
  get_boot_hartid_from_fdt, get_boot_hartid_from_efi, check_platform_features,
}

-- What the boot protocol says: the status of the first of its two calls that fails, and the hart
-- that is known then, which was `before`.
abbrev pub protocol_hart : Firmware → Machine → (before : ℕ) → ℕ × ℕ
protocol_hart fw m before =
    let r = fw.locate_protocol m.history Guid.riscv_boot_protocol in
    let h = Event.locate_protocol Guid.riscv_boot_protocol r.0 r.1 in
    let answer = fw.get_boot_hartid (emit h m).history in
    if failed r.0 then (r.0, before) else (answer.0, stored answer.1 before)

-- What the device tree at `fdt` says, with 0 as the first component for no answer.
abbrev pub tree_hart : ChosenLookup → (ℕ → ℕ) → (fdt : ℕ) → ℕ × ℕ
tree_hart lib f fdt =
    let node = lib.path_offset f fdt in
    let prop = lib.boot_hartid f fdt node in
    if (fdt == 0) || (is_negative node || (prop.0 == 0))
    then (0, 0)
    else if prop.1 == 4
    then (1, read_be 4 f prop.0)
    else if prop.1 == 8
    then (1, read_be 8 f prop.0)
    else (0, 0)

-- The choice between the two: the status, and the hart.
abbrev pub chosen_hart : (protocol tree : ℕ × ℕ) → ℕ × ℕ
chosen_hart protocol tree =
    if not (failed protocol.0)
    then (efi_success, protocol.1)
    else if tree.0 == 1
    then (efi_success, tree.1)
    else (efi_unsupported, protocol.1)

module _ (fw : Firmware) (lib : ChosenLookup) (m : Machine) where
  after_protocol-hart :
      ((get_boot_hartid_from_efi fw m).0 ≡ (protocol_hart fw m m.globals.hartid).0)
      × ((get_boot_hartid_from_efi fw m).1.memory ≡ m.memory)
      × ((get_boot_hartid_from_efi fw m).1.globals.hartid ≡ (protocol_hart fw m m.globals.hartid).1)
  unfolding get_boot_hartid_from_efi
  after_protocol-hart = ground arith

  from_fdt-hart :
      (n : Machine)
      → let tree =
          tree_hart lib n.memory (find_table (fw.config_tables n.history) Guid.device_tree) in
        (failed (get_boot_hartid_from_fdt fw lib n).0 ≡ not (tree.0 == 1))
        × ((get_boot_hartid_from_fdt fw lib n).1.memory ≡ n.memory)
        × ((get_boot_hartid_from_fdt fw lib n).1.globals.hartid
            ≡ (if tree.0 == 1 then tree.1 else n.globals.hartid))
  unfolding get_boot_hartid_from_fdt get_efi_config_table
  from_fdt-hart n = ground arith

  -- check_platform_features answers with the hart of the boot protocol where that protocol
  -- answers, else with the property boot-hartid of /chosen in the firmware's device tree where it
  -- has 4 or 8 bytes, and else reports EFI_UNSUPPORTED, where the hart is as before unless the
  -- protocol has stored another in it when it failed. Memory is not changed.
  pub check_platform_features-hart :
      let n = (get_boot_hartid_from_efi fw m).1 in
      let tree =
        tree_hart lib m.memory (find_table (fw.config_tables n.history) Guid.device_tree) in
      let chosen = chosen_hart (protocol_hart fw m m.globals.hartid) tree in
      ((check_platform_features fw lib m).0 ≡ chosen.0)
      × ((check_platform_features fw lib m).1.globals.hartid ≡ chosen.1)
      × ((check_platform_features fw lib m).1.memory ≡ m.memory)
  unfolding check_platform_features
  check_platform_features-hart =
      let n = (get_boot_hartid_from_efi fw m).1 in
      ground (arith, after_protocol-hart, from_fdt-hart n)
