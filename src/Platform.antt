-- ===== src/Platform.antt =====
-- What the stub finds out of the firmware: get_efi_config_table of apps/helper.c, the boot hart of
-- apps/riscv-stub.c, secure boot in apps/secureboot.c, and from apps/stub.c the services at run
-- time and the table of reserved memory.
pub mod Hart
pub mod Secure
pub mod Random
use dragon_stub.Base.{
  ℕ, zero, suc, ◌+◌, ◌*◌, ◌^◌, bit_and, bit_or, Bool, true, false, ◌&&◌, ◌||◌, not, Option, none,
  some, List, [], ◌∷◌, ◌==◌, ltb, if◌then◌else◌,
}
use dragon_stub.Machine.{
  Guid, Variable, Firmware, Machine, M, pure, ◌>>=◌, ◌>>◌, get_memory, put_memory, get_globals,
  put_globals, get_config_tables, efi_success, efi_invalid_parameter, efi_unsupported,
  efi_not_found, call_locate_protocol, call_get_boot_hartid, call_get_variable, call_allocate_pool,
  call_install_configuration_table,
}
use dragon_stub.Pages.{failed, efi_loader_data}
use dragon_stub.Elf.Header.{read_le}
use dragon_stub.Elf.Load.{write_le}

abbrev pub guid_number : Guid → ℕ
guid_number Guid.boot_memmap = 0
guid_number Guid.memreserve_table = 1
guid_number Guid.rt_properties_table = 2
guid_number Guid.device_tree = 3
guid_number Guid.dragonstub_payload = 4
guid_number Guid.memory_attribute_protocol = 5
guid_number Guid.riscv_boot_protocol = 6
guid_number Guid.tcg2_protocol = 7
guid_number Guid.rng_protocol = 8

-- efi_guidcmp finds no difference.
abbrev pub same_guid : Guid → Guid → Bool
same_guid a b = guid_number a == guid_number b

-- The loop of get_efi_config_table.
unfoldable pub find_table : List (Guid × ℕ) → Guid → ℕ
find_table [] guid = 0
find_table (t ∷ tables) guid = if same_guid t.0 guid then t.1 else find_table tables guid

abbrev pub efi_rt_supported_all : ℕ
efi_rt_supported_all = 0x3fff

abbrev pub efi_rt_supported_set_virtual_address_map : ℕ
efi_rt_supported_set_virtual_address_map = 0x80

-- The number in the `n` bytes from `p` on, the highest first.
unfoldable pub read_be : (n : ℕ) → (ℕ → ℕ) → (p : ℕ) → ℕ
read_be zero f p = 0
read_be (suc n) f p = f p * 256 ^ n + read_be n f (p + 1)

-- What libfdt answers about /chosen in the tree at an address: the `int` of fdt_path_offset as a
-- 32-bit word, and for a node the address of its property boot-hartid, 0 if there is none, and the
-- length.
pub record ChosenLookup : Type 0 where
  pub path_offset : (ℕ → ℕ) → (fdt : ℕ) → ℕ
  pub boot_hartid : (ℕ → ℕ) → (fdt node : ℕ) → ℕ × ℕ

-- A negative `int`, as its 32-bit word.
abbrev pub is_negative : ℕ → Bool
is_negative n = not (ltb n (2 ^ 31))

-- A variable after a call that has its address.
abbrev pub stored : Option ℕ → (before : ℕ) → ℕ
stored none before = before
stored (some value) before = value

-- enum efi_secureboot_mode
pub data SecurebootMode : Type 0 where
  unset unknown disabled enabled : SecurebootMode

module _ (fw : Firmware) where
  -- get_efi_config_table: the address, 0 for NULL.
  unfoldable pub get_efi_config_table : Guid → M ℕ
  unfolding find_table
  get_efi_config_table guid = do tables ← get_config_tables fw; pure (find_table tables guid)

  -- get_boot_hartid_from_fdt
  unfoldable pub get_boot_hartid_from_fdt : ChosenLookup → M ℕ
  get_boot_hartid_from_fdt lib = do
    fdt ← get_efi_config_table Guid.device_tree
    f ← get_memory
    g ← get_globals
    let chosen_node = lib.path_offset f fdt
    let prop = lib.boot_hartid f fdt chosen_node
    if fdt == 0
        then pure efi_invalid_parameter
        else if is_negative chosen_node
        then pure efi_invalid_parameter
        else if prop.0 == 0
        then pure efi_invalid_parameter
        else if prop.1 == 4
        then (do put_globals (record g { hartid = read_be 4 f prop.0 }); pure efi_success)
        else if prop.1 == 8
        then (do put_globals (record g { hartid = read_be 8 f prop.0 }); pure efi_success)
        else pure efi_invalid_parameter

  -- get_boot_hartid_from_efi. What the protocol stores behind the pointer stands in the hart also
  -- where it fails.
  unfoldable pub get_boot_hartid_from_efi : M ℕ
  get_boot_hartid_from_efi = do
    protocol ← call_locate_protocol fw Guid.riscv_boot_protocol
    if failed protocol.0 then pure protocol.0 else do
      r ← call_get_boot_hartid fw
      g ← get_globals
      put_globals (record g { hartid = stored r.1 g.hartid })
      pure r.0

  -- check_platform_features
  unfoldable pub check_platform_features : ChosenLookup → M ℕ
  check_platform_features lib = do
    status ← get_boot_hartid_from_efi
    if failed status
        then (do
          ret ← get_boot_hartid_from_fdt lib
          if failed ret then pure efi_unsupported else pure efi_success)
        else pure efi_success

  -- get_supported_rt_services
  unfoldable pub get_supported_rt_services : M ℕ
  get_supported_rt_services = do
    rt_prop_table ← get_efi_config_table Guid.rt_properties_table
    f ← get_memory
    if rt_prop_table == 0
        then pure efi_rt_supported_all
        else pure (bit_and efi_rt_supported_all (read_le 4 f (rt_prop_table + 4)))

  -- install_memreserve_table: the fields are `size` and `count` of 4 bytes, and `next` of 8.
  unfoldable pub install_memreserve_table : M (Unit {0})
  install_memreserve_table = do
    rsv ← call_allocate_pool fw efi_loader_data 16
    if failed rsv.0 then pure tt else do
      f ← get_memory
      put_memory (write_le 4 (write_le 4 (write_le 8 f (rsv.1 + 8) 0) rsv.1 0) (rsv.1 + 4) 0)
      _ ← call_install_configuration_table fw Guid.memreserve_table rsv.1
      pure tt

  -- efi_get_secureboot_mode of inc/dragonstub/linux-efi.h. A failed GetVariable leaves
  -- `setupmode` at 0.
  unfoldable pub efi_get_secureboot_mode : M SecurebootMode
  efi_get_secureboot_mode = do
    secboot ← call_get_variable fw Variable.secure_boot
    if secboot.0 == efi_not_found
        then pure SecurebootMode.disabled
        else if failed secboot.0
        then pure SecurebootMode.unknown
        else do
          setup ← call_get_variable fw Variable.setup_mode
          let setupmode = if failed setup.0 then 0 else setup.2
          if (secboot.2 == 0) || (setupmode == 1)
              then pure SecurebootMode.disabled
              else pure SecurebootMode.enabled

  -- efi_get_secureboot
  unfoldable pub efi_get_secureboot : M SecurebootMode
  efi_get_secureboot = do
    mode ← efi_get_secureboot_mode
    elim mode [
      | SecurebootMode.enabled ↦ (do
        moksbstate ← call_get_variable fw Variable.mok_sb_state_rt
        if not (failed moksbstate.0) && ((bit_and moksbstate.1 1 == 0) && (moksbstate.2 == 1))
            then pure SecurebootMode.disabled
            else pure SecurebootMode.enabled)
      | SecurebootMode.unset ↦ pure SecurebootMode.unset
      | SecurebootMode.unknown ↦ pure SecurebootMode.unknown
      | SecurebootMode.disabled ↦ pure SecurebootMode.disabled
    ]
