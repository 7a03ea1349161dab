-- ===== src/Handover.antt =====
-- From the command line to the kernel: exit_boot_func, allocate_new_fdt_and_exit_boot,
-- efi_boot_kernel and get_fdt of apps/fdt.c, and efi_handle_cmdline, find_elf, find_payload and
-- efi_stub_common of apps/stub.c. Main has efi_main.
pub mod Callback
pub mod Errors
pub mod Main
use dragon_stub.Base.{
  ℕ, zero, suc, ◌+◌, ◌-◌, ◌*◌, ◌^◌, ◌≤◌, bit_and, Bool, true, false, ◌&&◌, ◌||◌, not, Option, none,
  some, List, [], ◌∷◌, map, ◌==◌, ltb, leb, if◌then◌else◌, length,
}
use dragon_stub.Machine.{
  Guid, Desc, Firmware, Memory, M, pure, ◌>>=◌, ◌>>◌, get_memory, get_globals, put_globals,
  efi_success, standstill, efi_load_error, efi_not_found, efi_out_of_resources, call_free_pool,
  call_set_virtual_address_map,
}
use dragon_stub.Align.{u64, sub64}
use dragon_stub.Pages.{BootMemmap, failed, efi_free, efi_allocate_pages}
use dragon_stub.Platform.{
  ChosenLookup, get_efi_config_table, efi_get_secureboot, check_platform_features,
  get_supported_rt_services, efi_rt_supported_set_virtual_address_map, install_memreserve_table,
}
use dragon_stub.Boot.{
  VirtmapBuffer, efi_alloc_virtmap, efi_get_virtmap, efi_exit_boot_services, is_runtime,
  with_virtual, efi_rt_virtual_base,
}
use dragon_stub.Fdt.{Libfdt, update_fdt, update_fdt_memmap}
use dragon_stub.Elf.Header.{elf_check}
use dragon_stub.Elf.Load.{PayloadInfo, load_elf}
use dragon_stub.CmdLine.Convert.{efi_convert_cmdline}
use dragon_stub.CmdLine.Efi.{efi_parse_options}

abbrev pub max_fdt_size : ℕ
max_fdt_size = 2 ^ 21

-- struct exit_boot_struct, with the descriptors that `runtime_map` points to; their number is
-- `runtime_entry_count`.
pub record ExitBoot : Type 0 where
  pub boot_memmap : Option BootMemmap
  pub runtime_map : List Desc
  pub new_fdt_addr : ℕ

-- exit_boot_func
unfoldable pub exit_boot_func : Libfdt → BootMemmap → ExitBoot → M (ℕ × (BootMemmap × ExitBoot))
exit_boot_func lib map p = do
  g ← get_globals
  let virtmap = efi_get_virtmap g.efi_novamap map.descs efi_rt_virtual_base
  let moved = record map { descs = virtmap.0 }
  status ← update_fdt_memmap lib p.new_fdt_addr moved
  pure (status, (moved, record p { boot_memmap = some moved; runtime_map = virtmap.1 }))

-- The mark of the runtime regions for a map that was not installed.
abbrev pub unmapped : Desc → Desc
unmapped d = if is_runtime d then with_virtual d (2 ^ 64 - 1) else d

abbrev pub all_unmapped : BootMemmap → BootMemmap
all_unmapped b = record b { descs = map unmapped b.descs }

abbrev pub unmapped_behind : Option BootMemmap → Option BootMemmap
unmapped_behind none = none
unmapped_behind (some b) = some (all_unmapped b)

-- What the stub ends with: a status returned to the firmware, or the kernel, entered with the
-- hart and the device tree.
pub data Outcome : Type 0 where
  returned : (status : ℕ) → Outcome
  stopped : Outcome
  entered : (kernel_entry hartid fdt : ℕ) → Outcome

module _ (fw : Firmware) (lib : Libfdt) where
  -- get_fdt: the address, or 0, and the size.
  unfoldable pub get_fdt : M (ℕ × ℕ)
  get_fdt = do
    fdt ← get_efi_config_table fw Guid.device_tree
    f ← get_memory
    (if fdt == 0
        then pure (0, 0)
        else if not (lib.check_header f fdt == 0)
        then pure (0, 0)
        else pure (fdt, lib.totalsize f fdt))

  -- After ExitBootServices: the new virtual address map, and the memory map that the kernel reads.
  unfoldable pub install_virtmap : (desc_size desc_ver : ℕ) → ExitBoot → M (Option BootMemmap)
  install_virtmap desc_size desc_ver p = do
    g ← get_globals
    if g.efi_novamap then pure p.boot_memmap else do
      status ←
          call_set_virtual_address_map fw (length p.runtime_map * desc_size) desc_size desc_ver
            p.runtime_map
      if failed status then pure (unmapped_behind p.boot_memmap) else pure p.boot_memmap

  -- The label `fail`: the old tree and the buffer of the runtime map are given back.
  unfoldable pub fail_exit :
      (fdt_size fdt_addr runtime_map : ℕ) → M (ℕ × Option (ℕ × Option BootMemmap))
  fail_exit fdt_size fdt_addr runtime_map = do
    efi_free fdt_size fdt_addr
    call_free_pool runtime_map
    pure (efi_load_error, none)

  -- allocate_new_fdt_and_exit_boot from its call of efi_exit_boot_services on.
  unfoldable pub leave_boot_services :
      (handle fdt_size fdt_addr runtime_map desc_size desc_ver new_fdt_addr : ℕ)
      → M (ℕ × Option (ℕ × Option BootMemmap))
  unfolding fail_exit
  leave_boot_services handle fdt_size fdt_addr runtime_map desc_size desc_ver new_fdt_addr = do
    done ←
        efi_exit_boot_services fw (exit_boot_func lib) handle
          (record { boot_memmap = none; runtime_map = []; new_fdt_addr = new_fdt_addr })
    if done.0 == standstill
        then pure (standstill, none)
        else if failed done.0
        then (do efi_free max_fdt_size new_fdt_addr; fail_exit fdt_size fdt_addr runtime_map)
        else do
          final ← install_virtmap desc_size desc_ver done.1
          pure (efi_success, some (new_fdt_addr, final))

  -- allocate_new_fdt_and_exit_boot from the search for the device tree on.
  unfoldable pub build_fdt_and_exit :
      (handle system_table runtime_map desc_size desc_ver : ℕ) (cmdline : Option (List ℕ))
      → M (ℕ × Option (ℕ × Option BootMemmap))
  unfolding fail_exit get_fdt
  build_fdt_and_exit handle system_table runtime_map desc_size desc_ver cmdline = do
    _ ← efi_get_secureboot fw
    fdt ← get_fdt
    new ← efi_allocate_pages fw max_fdt_size (2 ^ 64 - 1)
    elim new.1 [
      | none ↦ fail_exit fdt.1 fdt.0 runtime_map
      | some new_fdt_addr ↦ (do
        status ← update_fdt lib system_table fdt.0 fdt.1 new_fdt_addr max_fdt_size cmdline
        if failed status
            then (do efi_free max_fdt_size new_fdt_addr; fail_exit fdt.1 fdt.0 runtime_map)
            else leave_boot_services handle fdt.1 fdt.0 runtime_map desc_size desc_ver new_fdt_addr)
    ]

  -- allocate_new_fdt_and_exit_boot: the status, and on success the new device tree and the memory
  -- map. Without CONFIG_EFI_ARMSTUB_DTB_LOADER the option dtb= is only reported.
  unfoldable pub allocate_new_fdt_and_exit_boot :
      (handle system_table : ℕ) (cmdline : Option (List ℕ)) → M (ℕ × Option (ℕ × Option BootMemmap))
  unfolding build_fdt_and_exit
  allocate_new_fdt_and_exit_boot handle system_table cmdline = do
    g ← get_globals
    if g.efi_novamap then build_fdt_and_exit handle system_table 0 0 0 cmdline else do
      virtmap ← efi_alloc_virtmap fw
      elim virtmap.1 [
        | none ↦ pure (virtmap.0, none)
        | some v ↦ build_fdt_and_exit handle system_table v.address v.desc_size v.desc_ver cmdline
      ]

  -- efi_boot_kernel
  unfoldable pub efi_boot_kernel :
      (handle system_table start image_end : ℕ)
      → PayloadInfo
      → (cmdline : Option (List ℕ)) → M Outcome
  unfolding allocate_new_fdt_and_exit_boot
  efi_boot_kernel handle system_table start image_end info cmdline = do
    loaded ← load_elf fw start image_end info
    if failed loaded.0 then pure (Outcome.returned loaded.0) else do
      r ← allocate_new_fdt_and_exit_boot handle system_table cmdline
      g ← get_globals
      elim r.1 [
        | none ↦ pure (if r.0 == standstill then Outcome.stopped else Outcome.returned r.0)
        | some new ↦ pure (Outcome.entered loaded.1.kernel_entry g.hartid new.0)
      ]

  -- efi_stub_common
  unfoldable pub efi_stub_common :
      ChosenLookup
      → (handle system_table start image_end : ℕ) → PayloadInfo
      → (cmdline : Option (List ℕ)) → M Outcome
  unfolding efi_boot_kernel
  efi_stub_common chosen handle system_table start image_end info cmdline = do
    status ← check_platform_features fw chosen
    if failed status then pure (Outcome.returned status) else do
      supported ← get_supported_rt_services fw
      g ← get_globals
      put_globals (record g {
        efi_novamap =
            g.efi_novamap || (bit_and supported efi_rt_supported_set_virtual_address_map == 0);
      })
      install_memreserve_table fw
      efi_boot_kernel handle system_table start image_end info cmdline

-- find_elf, with the addresses of the linker symbols round the payload: the status, and `*info`.
unfoldable pub find_elf : Memory → (payload_start payload_end : ℕ) → PayloadInfo → ℕ × PayloadInfo
find_elf f payload_start payload_end info =
    let payload_size = sub64 payload_end payload_start in
    if (payload_start == 0) || (leb payload_end (u64 (payload_start + 4)) || (payload_size == 0))
    then (efi_not_found, info)
    else if elf_check f payload_start payload_size
    then (efi_success, record info { payload_addr = payload_start; payload_size = payload_size })
    else (efi_not_found, info)

abbrev pub payload_info_new : (payload_addr payload_size : ℕ) → PayloadInfo
payload_info_new payload_addr payload_size = record {
  payload_addr = payload_addr;
  payload_size = payload_size;
  loaded_paddr = 0;
  loaded_size = 0;
  kernel_entry = 0;
}

-- The string of `count` bytes at `p`.
abbrev pub bytes_at : Memory → (p count : ℕ) → List ℕ
bytes_at f p zero = []
bytes_at f p (suc count) = f p ∷ bytes_at f (p + 1) count

-- find_payload: the status, and the payload on success.
unfoldable pub find_payload : Memory → (payload_start payload_end : ℕ) → ℕ × Option PayloadInfo
unfolding find_elf
find_payload f payload_start payload_end =
    let found = find_elf f payload_start payload_end (payload_info_new 0 0) in
    if failed found.0 then (found.0, none) else (efi_success, some found.1)

module _ (fw : Firmware) where
  -- efi_handle_cmdline for the load options of the image, with the address of the variable behind
  -- `cmdline_ptr`: the status, and the command line on success. The `Option` of the status is that
  -- of efi_parse_options.
  unfoldable pub efi_handle_cmdline :
      (cmdline_ptr options options_size : ℕ) → M (Option ℕ × Option (List ℕ))
  efi_handle_cmdline cmdline_ptr options options_size = do
    converted ← efi_convert_cmdline fw options options_size
    elim converted [
      | none ↦ pure (some efi_out_of_resources, none)
      | some at ↦ (do
        f ← get_memory
        let cmdline = bytes_at f at.0 at.1
        status ← (if ltb 0 at.1 then efi_parse_options fw cmdline else pure (some efi_success))
        if elim status [ none ↦ false | some s ↦ failed s ]
            then (do call_free_pool cmdline_ptr; pure (status, none))
            else pure (status, some cmdline))
    ]
