-- ===== src/Pages.antt =====
-- Page and pool allocation: apps/mem.c and apps/alignedmem.c over the firmware's services.
pub mod Ownership
pub mod Aligned
pub mod Map
use dragon_stub.Base.{
  ℕ, ◌+◌, ◌-◌, ◌*◌, ◌/◌, ◌%◌, ◌^◌, min, bit_and, Bool, not, Option, none, some, List, ◌==◌, ltb,
  ◌&&◌, if◌then◌else◌,
}
use dragon_stub.Machine.{
  Guid, Desc, MapReply, Firmware, M, pure, ◌>>=◌, ◌>>◌, efi_success, efi_load_error,
  efi_buffer_too_small, efi_page_size, call_allocate_pages, call_allocate_pool, call_get_memory_map,
  call_install_configuration_table, call_free_pages, call_free_pool,
}
use dragon_stub.Align.{u32, u64, sub64, align_up, align_down, round_up, div_round_up}

abbrev pub efi_alloc_align : ℕ
efi_alloc_align = efi_page_size

abbrev pub efi_alloc_limit : ℕ
efi_alloc_limit = 2 ^ 64 - 1

abbrev pub efi_loader_data : ℕ
efi_loader_data = 2

abbrev pub efi_acpi_reclaim_memory : ℕ
efi_acpi_reclaim_memory = 9

abbrev pub efi_allocate_max_address : ℕ
efi_allocate_max_address = 1

abbrev pub allocate_address : ℕ
allocate_address = 2

abbrev pub efi_mmap_nr_slack_slots : ℕ
efi_mmap_nr_slack_slots = 8

abbrev pub failed : ℕ → Bool
failed status = not (status == efi_success)

-- struct efi_boot_memmap, with the address of its pool allocation.
pub record BootMemmap : Type 0 where
  pub address : ℕ
  pub map_size : ℕ
  pub desc_size : ℕ
  pub desc_ver : ℕ
  pub map_key : ℕ
  pub buff_size : ℕ
  pub descs : List Desc

-- The header is 40 bytes on a 64-bit machine.
abbrev pub sizeof_boot_memmap : ℕ
sizeof_boot_memmap = 40

abbrev pub filled : ℕ → ℕ → MapReply → BootMemmap
filled address size r = record {
  address = address;
  map_size = r.map_size;
  desc_size = r.desc_size;
  desc_ver = r.desc_ver;
  map_key = r.map_key;
  buff_size = size;
  descs = r.descs;
}

-- An `int` as a 32-bit word: whether it is positive, and its value as an unsigned long.
abbrev pub positive32 : ℕ → Bool
positive32 s = ltb 0 s && ltb s (2 ^ 31)

abbrev pub extend32 : ℕ → ℕ
extend32 s = if ltb s (2 ^ 31) then s else s + (2 ^ 64 - 2 ^ 32)

-- efi_free
unfoldable pub efi_free : (size addr : ℕ) → M (Unit {0})
efi_free size addr =
    if size == 0
    then pure tt
    else call_free_pages addr (round_up size efi_alloc_align / efi_page_size)

-- The frees of efi_allocate_pages_aligned: the pages before the aligned base, and those behind
-- the last page asked for. `slack` and `l` are of type `int`.
unfoldable pub free_slack : (size align slack alloc_addr addr : ℕ) → M (Unit {0})
free_slack size align slack alloc_addr addr =
    if positive32 slack
    then (do
      let l = u32 (bit_and alloc_addr (sub64 align 1) / efi_page_size)
      rest ←
          (if l == 0 then pure slack else do
            call_free_pages alloc_addr (extend32 (u32 (slack + 2 ^ 32 - l + 1)))
            pure (u32 (l + 2 ^ 32 - 1)))
      if rest == 0 then pure tt else call_free_pages (u64 (addr + size)) (extend32 rest))
    else pure tt

module _ (fw : Firmware) where
  -- efi_get_memory_map: the status, and the map on success.
  unfoldable pub efi_get_memory_map : (install_cfg_tbl : Bool) → M (ℕ × Option BootMemmap)
  efi_get_memory_map install_cfg_tbl = do
    tmp ← call_get_memory_map fw 0
    if not (tmp.status == efi_buffer_too_small) then pure (efi_load_error, none) else do
      let size = u64 (tmp.map_size + tmp.desc_size * efi_mmap_nr_slack_slots)
      pool ←
          call_allocate_pool fw
            (if install_cfg_tbl then efi_acpi_reclaim_memory else efi_loader_data)
            (u64 (sizeof_boot_memmap + size))
      if failed pool.0 then pure (pool.0, none) else do
        installed ←
            (if install_cfg_tbl
              then call_install_configuration_table fw Guid.boot_memmap pool.1
              else pure efi_success)
        if failed installed then (do call_free_pool pool.1; pure (installed, none)) else do
          reply ← call_get_memory_map fw size
          if failed reply.status
              then (do
                _ ←
                    (if install_cfg_tbl
                      then call_install_configuration_table fw Guid.boot_memmap 0
                      else pure efi_success)
                call_free_pool pool.1
                pure (reply.status, none))
              else pure (efi_success, some (filled pool.1 size reply))

  -- efi_allocate_pages: the status, and `*addr` on success.
  unfoldable pub efi_allocate_pages : (size max : ℕ) → M (ℕ × Option ℕ)
  efi_allocate_pages size max = do
    let limit = min max efi_alloc_limit
    r ←
        call_allocate_pages fw efi_allocate_max_address efi_loader_data
          (div_round_up size efi_page_size) (sub64 (align_down (u64 (limit + 1)) efi_alloc_align) 1)
    if failed r.0 then pure (r.0, none) else pure (efi_success, some r.1)

  -- efi_allocate_pages_exact: the status.
  unfoldable pub efi_allocate_pages_exact : (size addr : ℕ) → M ℕ
  efi_allocate_pages_exact size addr = do
    let addr_rounded = bit_and addr (2 ^ 64 - 1 - (efi_alloc_align - 1))
    let total = u64 (size + sub64 addr addr_rounded)
    r ←
        call_allocate_pages fw allocate_address efi_loader_data
          (u32 (div_round_up total efi_page_size)) addr
    if failed r.0 then pure r.0 else pure efi_success

  -- The call of efi_allocate_pages_aligned and what follows it, its arguments computed.
  unfoldable pub take_aligned : (memory_type size align slack pages request : ℕ) → M (ℕ × Option ℕ)
  take_aligned memory_type size align slack pages request = do
    r ← call_allocate_pages fw efi_allocate_max_address memory_type pages request
    if failed r.0 then pure (r.0, none) else do
      let addr = align_up r.1 align
      free_slack size align slack r.1 addr
      pure (efi_success, some addr)

  -- efi_allocate_pages_aligned: the status, and `*addr` on success.
  unfoldable pub efi_allocate_pages_aligned : (size max align memory_type : ℕ) → M (ℕ × Option ℕ)
  efi_allocate_pages_aligned size max align memory_type =
      let limit = min max efi_alloc_limit in
      let a = if ltb align efi_alloc_align then efi_alloc_align else align in
      let rounded = round_up size efi_alloc_align in
      let slack = u32 (a / efi_page_size + 2 ^ 32 - 1) in
      take_aligned memory_type rounded a slack (u64 (rounded / efi_page_size + extend32 slack))
        (sub64 (align_down (u64 (limit + 1)) a) 1)
