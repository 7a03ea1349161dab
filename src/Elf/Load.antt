-- ===== src/Elf/Load.antt =====
-- Loading: efi_allocate_kernel_memory, load_program, efi_remap_image_all_rwx and load_elf of
-- apps/elf.c.
pub mod Scan
pub mod Segments
pub mod Claimed
pub mod Kernel
pub mod Table
pub mod Whole
use dragon_stub.Base.{
  ℕ, zero, suc, ◌+◌, ◌-◌, ◌*◌, ◌/◌, ◌%◌, ◌^◌, min, max, bit_and, Bool, true, false, ◌&&◌, ◌||◌, not,
  List, [], ◌∷◌, Option, none, some, ◌==◌, ltb, leb, if◌then◌else◌,
}
use dragon_stub.Machine.{
  Guid, Firmware, Memory, M, pure, ◌>>=◌, ◌>>◌, get_memory, put_memory, efi_success,
  efi_invalid_parameter, efi_page_size, call_locate_protocol, call_get_memory_attributes,
  call_clear_memory_attributes, call_allocate_pool, call_install_configuration_table,
}
use dragon_stub.Bytes.{memset, memcpy}
use dragon_stub.Align.{u64, u32, sub64, align_up}
use dragon_stub.Pages.{failed, efi_loader_data, efi_free, efi_allocate_pages_aligned}
use dragon_stub.Elf.Header.{Phdr, read_phdr, sizeof_phdr, elf_get_header, parse_phdrs, e_entry}

abbrev pub pt_load : ℕ
pt_load = 1

-- 2 MB
abbrev pub kernel_mem_align : ℕ
kernel_mem_align = 2 ^ 21

-- `!EFI_PAGE_SIZE` is the logical negation of 4096, which is 0.
abbrev pub logical_not : ℕ → ℕ
logical_not n = if n == 0 then 1 else 0

abbrev pub misaligned : Phdr → Bool
misaligned ph = not (bit_and ph.p_align (logical_not efi_page_size) == 0)

-- A store of the `n` low bytes of `v`, the lowest first.
unfoldable pub write_le : (n : ℕ) → Memory → (p v : ℕ) → Memory
write_le zero f p v = f
write_le (suc n) f p v = write_le n (λ a. if a == p then v % 256 else f a) (p + 1) (v / 256)

-- The extent of the loadable segments.
pub record Extent : Type 0 where
  pub min_paddr : ℕ
  pub max_paddr : ℕ
  pub min_vaddr : ℕ

abbrev pub no_extent : Extent
no_extent = record { min_paddr = 2 ^ 64 - 1; max_paddr = 0; min_vaddr = 2 ^ 64 - 1 }

abbrev pub extend : Extent → Phdr → Extent
extend e ph = record {
  min_paddr = min e.min_paddr ph.p_paddr;
  max_paddr = max e.max_paddr (u64 (ph.p_paddr + ph.p_memsz));
  min_vaddr = min e.min_vaddr ph.p_vaddr;
}

-- The loop of efi_allocate_kernel_memory over `n` headers from `phdr` on; `none` is its return of
-- EFI_INVALID_PARAMETER.
unfoldable pub scan_phdrs : Memory → (n phdr : ℕ) → Extent → Option Extent
scan_phdrs f zero phdr e = some e
scan_phdrs f (suc n) phdr e =
    let ph = read_phdr f phdr in
    let skipped = scan_phdrs f n (phdr + sizeof_phdr) e in
    let taken = scan_phdrs f n (phdr + sizeof_phdr) (extend e ph) in
    if not (ph.p_type == pt_load) then skipped else if misaligned ph then none else taken

-- The results of efi_allocate_kernel_memory behind its pointers.
pub record KernelMemory : Type 0 where
  pub paddr : ℕ
  pub size : ℕ
  pub min_paddr : ℕ
  pub max_paddr : ℕ
  pub min_vaddr : ℕ

-- What load_program hands back; all zero where it fails.
pub record Program : Type 0 where
  pub mem_paddr : ℕ
  pub mem_size : ℕ
  pub min_paddr : ℕ
  pub min_vaddr : ℕ

abbrev pub no_program : Program
no_program = record { mem_paddr = 0; mem_size = 0; min_paddr = 0; min_vaddr = 0 }

-- One round of load_program's loop at the header `ph`, and `load` for the rounds that follow: the
-- status, and the memory.
unfoldable pub load_step :
    (payload_start payload_size allocated min_paddr : ℕ)
    → Phdr
    → (Memory → ℕ × Memory)
    → Memory
    → ℕ × Memory
load_step payload_start payload_size allocated min_paddr ph load f =
    if not (ph.p_type == pt_load)
    then load f
    else if misaligned ph
    then (efi_invalid_parameter, f)
    else if ltb payload_size (u64 (ph.p_offset + ph.p_filesz))
    then (efi_invalid_parameter, f)
    else if ltb ph.p_memsz ph.p_filesz
    then (efi_invalid_parameter, f)
    else if ph.p_memsz == 0
    then load f
    else load (
        memcpy f (u64 (allocated + sub64 ph.p_paddr min_paddr)) (u64 (payload_start + ph.p_offset))
          ph.p_filesz)

-- The loop of load_program over `n` headers from `phdr` on.
unfoldable pub load_segments :
    (payload_start payload_size allocated min_paddr : ℕ) → (n phdr : ℕ) → Memory → ℕ × Memory
load_segments payload_start payload_size allocated min_paddr zero phdr f = (efi_success, f)
load_segments payload_start payload_size allocated min_paddr (suc n) phdr f =
    load_step payload_start payload_size allocated min_paddr (read_phdr f phdr)
      (load_segments payload_start payload_size allocated min_paddr n (phdr + sizeof_phdr)) f

-- struct payload_info of inc/dragonstub/dragonstub.h
pub record PayloadInfo : Type 0 where
  pub payload_addr : ℕ
  pub payload_size : ℕ
  pub loaded_paddr : ℕ
  pub loaded_size : ℕ
  pub kernel_entry : ℕ

abbrev pub efi_memory_wp : ℕ
efi_memory_wp = 0x1000

abbrev pub efi_memory_rp : ℕ
efi_memory_rp = 0x2000

abbrev pub efi_memory_xp : ℕ
efi_memory_xp = 0x4000

module _ (fw : Firmware) where
  -- One of the three attributes in efi_remap_image_all_rwx.
  unfoldable pub clear_attribute : (image_base alloc_size attr bit : ℕ) → M (Unit {0})
  clear_attribute image_base alloc_size attr bit =
      if bit_and attr bit == 0
      then pure tt
      else (do _ ← call_clear_memory_attributes fw image_base alloc_size bit; pure tt)

  -- `alloc_size` is of type unsigned int.
  unfoldable pub efi_remap_image_all_rwx : (image_base alloc_size : ℕ) → M (Unit {0})
  unfolding clear_attribute
  efi_remap_image_all_rwx image_base size = do
    let alloc_size = u32 size
    memattr ← call_locate_protocol fw Guid.memory_attribute_protocol
    if failed memattr.0 then pure tt else do
      attr ← call_get_memory_attributes fw image_base alloc_size
      if failed attr.0 then pure tt else do
        clear_attribute image_base alloc_size attr.1 efi_memory_xp
        clear_attribute image_base alloc_size attr.1 efi_memory_wp
        clear_attribute image_base alloc_size attr.1 efi_memory_rp

  -- The end of efi_allocate_kernel_memory, once the pages at `paddr` are there.
  unfoldable pub claim_kernel_memory : Extent → (paddr mem_size : ℕ) → M KernelMemory
  claim_kernel_memory e paddr mem_size = do
    f ← get_memory
    put_memory (memset f paddr 0 mem_size)
    efi_remap_image_all_rwx paddr mem_size
    pure (record {
      paddr = paddr;
      size = mem_size;
      min_paddr = e.min_paddr;
      max_paddr = e.max_paddr;
      min_vaddr = e.min_vaddr;
    })

  -- efi_allocate_kernel_memory, its extent found: the status and the results on success.
  unfoldable pub allocate_extent : Extent → M (ℕ × Option KernelMemory)
  allocate_extent e = do
    let mem_size = align_up (sub64 e.max_paddr e.min_paddr) kernel_mem_align
    if not (bit_and e.min_paddr (kernel_mem_align - 1) == 0)
        then pure (efi_invalid_parameter, none)
        else (do
          r ← efi_allocate_pages_aligned fw mem_size (2 ^ 64 - 1) kernel_mem_align efi_loader_data
          elim r.1 [
            | none ↦ pure (r.0, none)
            | some paddr ↦ (do k ← claim_kernel_memory e paddr mem_size; pure (efi_success, some k))
          ])

  unfoldable pub efi_allocate_kernel_memory : (phdr phdrs_nr : ℕ) → M (ℕ × Option KernelMemory)
  efi_allocate_kernel_memory phdr phdrs_nr = do
    f ← get_memory
    elim (scan_phdrs f phdrs_nr phdr no_extent) [
      | none ↦ pure (efi_invalid_parameter, none)
      | some e ↦ allocate_extent e
    ]

  -- load_program: the status, and the values behind its pointers, zero where it fails.
  unfoldable pub load_program : (payload_start payload_size phdr phdrs_nr : ℕ) → M (ℕ × Program)
  load_program payload_start payload_size phdr phdrs_nr = do
    k ← efi_allocate_kernel_memory phdr phdrs_nr
    elim k.1 [
      | none ↦ pure (k.0, no_program)
      | some mem ↦ (do
        f ← get_memory
        let loaded =
            load_segments payload_start payload_size mem.paddr mem.min_paddr phdrs_nr phdr
              (memset f mem.paddr 0 mem.size)
        put_memory loaded.1
        if failed loaded.0
            then (do efi_free mem.size mem.paddr; pure (loaded.0, no_program))
            else pure (
              efi_success,
              record {
                mem_paddr = mem.paddr;
                mem_size = mem.size;
                min_paddr = mem.min_paddr;
                min_vaddr = mem.min_vaddr;
              },
            ))
    ]

  -- The end of load_elf: the configuration table that tells where the kernel is.
  unfoldable pub install_payload_table : PayloadInfo → M (ℕ × PayloadInfo)
  install_payload_table info = do
    tbl ← call_allocate_pool fw efi_loader_data 16
    if failed tbl.0 then pure (tbl.0, info) else do
      f ← get_memory
      put_memory (write_le 8 (write_le 8 f tbl.1 info.loaded_paddr) (tbl.1 + 8) info.loaded_size)
      status ← call_install_configuration_table fw Guid.dragonstub_payload tbl.1
      if failed status then pure (status, info) else pure (efi_success, info)

  -- load_elf, with the addresses of the linker symbols `_start` and `_image_end`: the status, and
  -- the payload's information as it leaves it. The status of load_program is not looked at.
  unfoldable pub load_elf : (start image_end : ℕ) → PayloadInfo → M (ℕ × PayloadInfo)
  load_elf start image_end info = do
    f ← get_memory
    let header = elf_get_header f info.payload_addr info.payload_size
    elim header.1 [
      | none ↦ pure (header.0, info)
      | some ehdr ↦ (do
        let phdrs = parse_phdrs f info.payload_addr info.payload_size ehdr
        elim phdrs.1 [
          | none ↦ pure (phdrs.0, info)
          | some table ↦ (do
            program ← load_program info.payload_addr info.payload_size table.1 table.0
            g ← get_memory
            let loaded = record info {
              loaded_paddr = program.1.mem_paddr;
              loaded_size = program.1.mem_size;
              kernel_entry = u64 (sub64 (e_entry g ehdr) program.1.min_vaddr + program.1.mem_paddr);
            }
            efi_remap_image_all_rwx program.1.mem_paddr program.1.mem_size
            efi_remap_image_all_rwx start
                (bit_and (u64 (sub64 image_end start + 4095)) (2 ^ 64 - 4096))
            install_payload_table loaded)
        ])
    ]
