-- ===== src/Fdt.antt =====
-- The kernel's device tree: apps/fdt.c. The functions of libfdt are a parameter; a result of type
-- `int` is its 32-bit word.
pub mod Memmap
pub mod Values
pub mod Chosen
pub mod Update
use dragon_stub.Base.{
  ℕ, zero, suc, ◌+◌, ◌-◌, ◌/◌, ◌%◌, ◌^◌, Bool, true, false, ◌&&◌, not, Option, none, some, List, [],
  ◌∷◌, ◌++◌, map, ◌==◌, ltb, if◌then◌else◌,
}
use dragon_stub.Machine.{
  Memory, M, pure, ◌>>=◌, ◌>>◌, get_memory, put_memory, efi_success, efi_load_error,
  efi_buffer_too_small,
}
use dragon_stub.Align.{u32}
use dragon_stub.Pages.{BootMemmap, sizeof_boot_memmap}
use dragon_stub.Text.Str.{cstr, strlen}
use dragon_stub.Platform.{is_negative}

-- The properties that the stub sets.
pub data Property : Type 0 where
  address_cells size_cells bootargs uefi_system_table : Property
  uefi_mmap_start uefi_mmap_size uefi_mmap_desc_size uefi_mmap_desc_ver : Property

-- libfdt on the tree at an address of memory. `chosen` stands for the subnode of that name.
pub record Libfdt : Type 0 where
  pub check_header : Memory → (fdt : ℕ) → ℕ
  pub totalsize : Memory → (fdt : ℕ) → ℕ
  pub open_into : Memory → (fdt buf bufsize : ℕ) → ℕ × Memory
  pub create_empty_tree : Memory → (buf bufsize : ℕ) → ℕ × Memory
  pub num_mem_rsv : Memory → (fdt : ℕ) → ℕ
  pub del_mem_rsv : Memory → (fdt n : ℕ) → ℕ × Memory
  pub root_offset : Memory → (fdt : ℕ) → ℕ
  pub chosen_offset : Memory → (fdt : ℕ) → ℕ
  pub add_chosen : Memory → (fdt : ℕ) → ℕ × Memory
  pub setprop : Memory → (fdt node : ℕ) → Property → List ℕ → ℕ × Memory
  pub setprop_inplace : Memory → (fdt node : ℕ) → Property → List ℕ → ℕ × Memory
  pub pack : Memory → (fdt : ℕ) → Memory

-- cpu_to_fdt32 and cpu_to_fdt64: the bytes of a number, the highest first.
unfoldable pub to_be : (n v : ℕ) → List ℕ
to_be zero v = []
to_be (suc n) v = to_be n (v / 256) ++ (v % 256 ∷ [])

abbrev pub fdt_err_nospace : ℕ
fdt_err_nospace = 3

abbrev pub minus : ℕ → ℕ
minus n = 2 ^ 32 - n

-- A call that answers from memory and changes it.
abbrev pub on_memory : (Memory → ℕ × Memory) → M ℕ
on_memory change = do f ← get_memory; let r = change f; put_memory r.1; pure r.0

-- Properties set one after the other, up to the first error.
unfoldable pub set_all : (Memory → Property → List ℕ → ℕ × Memory) → List (Property × List ℕ) → M ℕ
set_all set [] = pure 0
set_all set (p ∷ ps) = do
  status ← on_memory (λ f. set f p.0 p.1)
  if status == 0 then set_all set ps else pure status

-- The four properties of update_fdt_memmap with their values.
abbrev pub memmap_properties : BootMemmap → List (Property × List ℕ)
memmap_properties map =
    (Property.uefi_mmap_start, to_be 8 (map.address + sizeof_boot_memmap))
    ∷ (Property.uefi_mmap_size, to_be 4 (u32 map.map_size))
    ∷ (Property.uefi_mmap_desc_size, to_be 4 (u32 map.desc_size))
    ∷ (Property.uefi_mmap_desc_ver, to_be 4 (u32 map.desc_ver))
    ∷ []

-- The loop that deletes the entries `num_rsv - 1` down to 0. No status is looked at.
unfoldable pub delete_reservations : Libfdt → (fdt num_rsv : ℕ) → Memory → Memory
delete_reservations lib fdt zero f = f
delete_reservations lib fdt (suc n) f = delete_reservations lib fdt n (lib.del_mem_rsv f fdt n).1

-- The label fdt_set_fail.
abbrev pub fdt_set_fail : ℕ → ℕ
fdt_set_fail status =
    if status == minus fdt_err_nospace then efi_buffer_too_small else efi_load_error

-- The properties of update_fdt for the EFI runtime services, with the address of the system table
-- and the placeholders.
abbrev pub runtime_properties : (system_table : ℕ) → List (Property × List ℕ)
runtime_properties system_table =
    (Property.uefi_system_table, to_be 8 system_table)
    ∷ (Property.uefi_mmap_start, to_be 8 (2 ^ 64 - 1))
    ∷ (Property.uefi_mmap_size, to_be 4 (2 ^ 32 - 1))
    ∷ (Property.uefi_mmap_desc_size, to_be 4 (2 ^ 32 - 1))
    ∷ (Property.uefi_mmap_desc_ver, to_be 4 (2 ^ 32 - 1))
    ∷ []

module _ (lib : Libfdt) where
  -- fdt_update_cell_size
  unfoldable pub fdt_update_cell_size : (fdt : ℕ) → Memory → Memory
  fdt_update_cell_size fdt f =
      let offset = lib.root_offset f fdt in
      let g = (lib.setprop f fdt offset Property.address_cells (to_be 4 2)).1 in
      (lib.setprop g fdt offset Property.size_cells (to_be 4 2)).1

  -- update_fdt_memmap
  unfoldable pub update_fdt_memmap : (fdt : ℕ) → BootMemmap → M ℕ
  unfolding set_all
  update_fdt_memmap fdt map = do
    f ← get_memory
    let node = lib.chosen_offset f fdt
    if is_negative node then pure efi_load_error else do
      err ← set_all (λ g. lib.setprop_inplace g fdt node) (memmap_properties map)
      if err == 0 then pure efi_success else pure efi_load_error

  -- The checks of update_fdt on the tree that was there.
  unfoldable pub usable_fdt : Memory → (orig_fdt orig_fdt_size : ℕ) → Bool
  usable_fdt f orig_fdt orig_fdt_size =
      if orig_fdt == 0
      then true
      else if not (lib.check_header f orig_fdt == 0)
      then false
      else if not (orig_fdt_size == 0) && ltb orig_fdt_size (lib.totalsize f orig_fdt)
      then false
      else true

  -- The new tree of update_fdt: a copy of the old one, or an empty one.
  unfoldable pub create_fdt : (orig_fdt fdt new_fdt_size : ℕ) → M ℕ
  unfolding fdt_update_cell_size
  create_fdt orig_fdt fdt new_fdt_size =
      if orig_fdt == 0
      then (do
        status ← on_memory (λ f. lib.create_empty_tree f fdt new_fdt_size)
        f ← get_memory
        if status == 0
            then (do put_memory (fdt_update_cell_size fdt f); pure status)
            else pure status)
      else on_memory (λ f. lib.open_into f orig_fdt fdt new_fdt_size)

  -- update_fdt from the search for /chosen on: the `int` status. A negative `node` is an error.
  unfoldable pub fill_chosen : (system_table fdt : ℕ) (cmdline : Option (List ℕ)) → M ℕ
  unfolding set_all
  fill_chosen system_table fdt cmdline = do
    f ← get_memory
    let found = lib.chosen_offset f fdt
    node ← (if is_negative found then on_memory (λ g. lib.add_chosen g fdt) else pure found)
    if is_negative node then pure node else do
      status ← elim cmdline [
        | none ↦ pure 0
        | some s ↦
            if ltb 0 (strlen s)
            then on_memory (λ g. lib.setprop g fdt node Property.bootargs (cstr s ++ (0 ∷ [])))
            else pure 0
      ]
      if not (status == 0) then pure status else do
        g ← get_memory
        set_all (λ h. lib.setprop h fdt (lib.chosen_offset g fdt)) (runtime_properties system_table)

  -- update_fdt. CONFIG_RANDOMIZE_BASE is not set, so no seed is written.
  unfoldable pub update_fdt :
      (system_table orig_fdt orig_fdt_size fdt new_fdt_size : ℕ) (cmdline : Option (List ℕ)) → M ℕ
  unfolding delete_reservations
  update_fdt system_table orig_fdt orig_fdt_size fdt new_fdt_size cmdline = do
    f ← get_memory
    if not (usable_fdt f orig_fdt orig_fdt_size) then pure efi_load_error else do
      created ← create_fdt orig_fdt fdt new_fdt_size
      if not (created == 0) then pure (fdt_set_fail created) else do
        g ← get_memory
        let num_rsv = lib.num_mem_rsv g fdt
        put_memory (delete_reservations lib fdt (if is_negative num_rsv then 0 else num_rsv) g)
        status ← fill_chosen system_table fdt cmdline
        if not (status == 0)
            then pure (fdt_set_fail status)
            else do h ← get_memory; put_memory (lib.pack h fdt); pure efi_success
