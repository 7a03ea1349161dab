-- ===== src/Boot.antt =====
-- The hand-over to the kernel: efi_exit_boot_services of apps/helper.c, and efi_alloc_virtmap and
-- efi_get_virtmap of apps/stub.c.
pub mod Virtmap
pub mod Exit
pub mod Key
pub mod Leaves
use dragon_stub.Base.{
  ℕ, ◌+◌, ◌*◌, ◌^◌, bit_and, Bool, true, not, ◌&&◌, Option, none, some, List, [], ◌∷◌, ◌==◌, leb,
  if◌then◌else◌,
}
use dragon_stub.Machine.{
  Desc, MapReply, Firmware, M, pure, ◌>>=◌, ◌>>◌, efi_success, standstill, get_globals,
  efi_load_error, efi_invalid_parameter, efi_buffer_too_small, efi_page_size, call_get_memory_map,
  call_allocate_pool, call_free_pool, call_exit_boot_services,
}
use dragon_stub.Align.{u64, sub64, is_aligned, round_up, round_down}
use dragon_stub.Pages.{BootMemmap, failed, efi_loader_data, efi_get_memory_map}

abbrev pub efi_memory_runtime : ℕ
efi_memory_runtime = 2 ^ 63

-- SZ_64K and SZ_2M
abbrev pub sz_64k : ℕ
sz_64k = 2 ^ 16

abbrev pub sz_2m : ℕ
sz_2m = 2 ^ 21

-- EFI_RT_VIRTUAL_BASE; EFI_RT_VIRTUAL_OFFSET is 0, so flat_va_mapping is false.
abbrev pub efi_rt_virtual_base : ℕ
efi_rt_virtual_base = 2 ^ 29

abbrev pub is_runtime : Desc → Bool
is_runtime d = not (bit_and d.attribute efi_memory_runtime == 0)

-- One runtime region in efi_get_virtmap: its new virtual address, and the base after it.
unfoldable pub place_region : Desc → (base : ℕ) → ℕ × ℕ
place_region d base =
    let paddr = round_down d.physical_start sz_64k in
    let size = u64 (u64 (d.number_of_pages * efi_page_size) + sub64 d.physical_start paddr) in
    let section = is_aligned d.physical_start sz_2m && leb sz_2m size in
    let efi_virt_base = round_up base (if section then sz_2m else sz_64k) in
    (u64 (d.physical_start + sub64 efi_virt_base paddr), u64 (efi_virt_base + size))

abbrev pub with_virtual : Desc → ℕ → Desc
with_virtual d v = record d { virtual_start = v }

-- efi_get_virtmap on the descriptors of the map: the map as it leaves it, and the runtime map.
-- The count that it returns is the length of the latter.
unfoldable pub efi_get_virtmap :
    (efi_novamap : Bool) → List Desc → (base : ℕ) → List Desc × List Desc
efi_get_virtmap efi_novamap [] base = ([], [])
efi_get_virtmap efi_novamap (d ∷ ds) base =
    let placed = place_region d base in
    let passed = efi_get_virtmap efi_novamap ds base in
    let rest = efi_get_virtmap efi_novamap ds placed.1 in
    let moved = with_virtual d placed.0 in
    if not (is_runtime d)
    then (d ∷ passed.0, passed.1)
    else if efi_novamap
    then (with_virtual d d.physical_start ∷ passed.0, passed.1)
    else (moved ∷ rest.0, moved ∷ rest.1)

-- The results of efi_alloc_virtmap behind its pointers.
pub record VirtmapBuffer : Type 0 where
  pub address : ℕ
  pub desc_size : ℕ
  pub desc_ver : ℕ

-- The buffer of a map, filled once more.
abbrev pub refilled : BootMemmap → MapReply → BootMemmap
refilled map reply = record map {
  map_size = reply.map_size;
  desc_size = reply.desc_size;
  desc_ver = reply.desc_ver;
  map_key = reply.map_key;
  descs = reply.descs;
}

module _ (fw : Firmware) where
  unfoldable pub efi_alloc_virtmap : M (ℕ × Option VirtmapBuffer)
  efi_alloc_virtmap = do
    r ← call_get_memory_map fw 0
    if not (r.status == efi_buffer_too_small) then pure (efi_load_error, none) else do
      pool ← call_allocate_pool fw efi_loader_data r.map_size
      if failed pool.0
          then pure (pool.0, none)
          else pure (
            efi_success,
            some (record { address = pool.1; desc_size = r.desc_size; desc_ver = r.desc_ver }),
          )

  -- What `priv_func` is given and leaves behind: the map, and its own state.
  module _ {P : Type 0} (priv_func : BootMemmap → P → M (ℕ × (BootMemmap × P))) where
    -- The second attempt of efi_exit_boot_services, with the buffer that is there.
    unfoldable pub retry_exit : (handle : ℕ) → BootMemmap → P → M (ℕ × P)
    retry_exit handle map priv = do
      reply ← call_get_memory_map fw map.buff_size
      if failed reply.status then pure (reply.status, priv) else do
        done ← priv_func (refilled map reply) priv
        if failed done.0 then pure (done.0, done.1.1) else do
          status ← call_exit_boot_services fw handle done.1.0.map_key
          pure (status, done.1.1)

    -- efi_exit_boot_services, its map obtained.
    unfoldable pub exit_with_map : (handle : ℕ) → BootMemmap → P → M (ℕ × P)
    exit_with_map handle map priv = do
      done ← priv_func map priv
      if failed done.0 then (do call_free_pool map.address; pure (done.0, done.1.1)) else do
        status ← call_exit_boot_services fw handle done.1.0.map_key
        if status == efi_invalid_parameter
            then retry_exit handle done.1.0 done.1.1
            else pure (status, done.1.1)

    -- efi_exit_boot_services: the status, and the state behind `priv`. With efi_disable_pci_dma it stops
    -- in efi_todo.
    unfoldable pub efi_exit_boot_services : (handle : ℕ) → P → M (ℕ × P)
    efi_exit_boot_services handle priv = do
      g ← get_globals
      if g.efi_disable_pci_dma then pure (standstill, priv) else do
        r ← efi_get_memory_map fw true
        elim r.1 [ none ↦ pure (r.0, priv) | some map ↦ exit_with_map handle map priv ]
