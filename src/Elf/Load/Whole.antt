-- ===== src/Elf/Load/Whole.antt =====
-- load_elf of apps/elf.c from the payload to the table that tells where the kernel is.
use mathlib.Core.Path.{subst}
use dragon_stub.Base.{
  ℕ, ◌+◌, ◌-◌, ◌*◌, ◌^◌, ◌≤◌, ◌<◌, ◌≡◌, ap, ◌∙◌, sym, arith, bit_and, some, All, ◌⊎◌,
}
use dragon_stub.Machine.{Firmware, Machine, Memory, efi_success}
use dragon_stub.Align.{u64, sub64}
use dragon_stub.Elf.Header.{elf_get_header, parse_phdrs, e_entry, sizeof_phdr}
use dragon_stub.Elf.Load.{
  PayloadInfo, Program, load_program, efi_remap_image_all_rwx, install_payload_table, load_elf,
}
use dragon_stub.Elf.Load.Scan.{lowest_paddr, lowest_vaddr}
use dragon_stub.Elf.Load.Segments.{read_le-same, SameOutside, Apart, phdrs, image_byte}
use dragon_stub.Elf.Load.Kernel.{load_program-image, loaded_at, loaded_end, NoWrap}
use dragon_stub.Elf.Load.Claimed.{efi_remap_image_all_rwx-memory}
use dragon_stub.Elf.Load.Table.{
  Reported, TableAt, table_written, table_written-TableAt, table_written-outside,
  install_payload_table-memory,
}

module _ (fw : Firmware) (start image_end : ℕ) (info : PayloadInfo) (m : Machine)
    (ehdr n phdr : ℕ) where
  abbrev program : (ℕ × Program) × Machine
  program = load_program fw info.payload_addr info.payload_size phdr n m

  abbrev info_with : (entry lowest : ℕ) → PayloadInfo
  info_with entry lowest = record info {
    loaded_paddr = program.0.1.mem_paddr;
    loaded_size = program.0.1.mem_size;
    kernel_entry = u64 (sub64 entry lowest + program.0.1.mem_paddr);
  }

  -- The payload's information, with where the kernel is: the entry is as far from the region's start
  -- as that of the header from the lowest virtual address of the loadable segments.
  abbrev pub info_told : PayloadInfo
  info_told = info_with (e_entry m.memory ehdr) (lowest_vaddr (phdrs m.memory n phdr))

  abbrev pub loaded_info : PayloadInfo
  loaded_info = info_with (e_entry program.1.memory ehdr) program.0.1.min_vaddr

  abbrev pub remapped : Machine
  remapped =
      let kernel =
        (efi_remap_image_all_rwx fw program.0.1.mem_paddr program.0.1.mem_size program.1).1 in
      (efi_remap_image_all_rwx fw start
        (bit_and (u64 (sub64 image_end start + 4095)) (2 ^ 64 - 4096)) kernel).1

  abbrev pub Accepted : Type 0
  Accepted =
      ((elf_get_header m.memory info.payload_addr info.payload_size).1 ≡ some ehdr)
      × ((parse_phdrs m.memory info.payload_addr info.payload_size ehdr).1 ≡ some (n, phdr))

  pub load_elf-steps :
      Accepted → load_elf fw start image_end info m ≡ install_payload_table fw loaded_info remapped
  unfolding load_elf
  load_elf-steps (header, table) = ground (arith, header, table)

  pub remapped-memory : remapped.memory ≡ program.1.memory
  remapped-memory =
      efi_remap_image_all_rwx-memory fw _ _ _ ∙ efi_remap_image_all_rwx-memory fw _ _ _

  abbrev result : (ℕ × PayloadInfo) × Machine
  result = load_elf fw start image_end info m

  abbrev lo : ℕ
  lo = loaded_at fw info.payload_addr info.payload_size n phdr m

  abbrev hi : ℕ
  hi = loaded_end fw info.payload_addr info.payload_size n phdr m

  abbrev LoadedImage : Memory → Type 0
  LoadedImage g =
      SameOutside lo hi m.memory g
      × ((a : ℕ)
          → lo ≤ a
          → a < hi
          → g a
            ≡ image_byte info.payload_addr lo (lowest_paddr (phdrs m.memory n phdr)) m.memory
                (phdrs m.memory n phdr) a 0)

  -- What load_elf leaves: a table that tells the kernel's place, the image there, and the rest.
  abbrev pub Handed : PayloadInfo → (ℕ × PayloadInfo) × Machine → Type 0
  Handed told r =
      (tbl : ℕ) × Reported tbl r.1.history
      × TableAt r.1.memory tbl told
      × (r.0.1 ≡ told)
      × ((a : ℕ)
          → lo ≤ a
          → a < hi
          → r.1.memory a
            ≡ image_byte info.payload_addr lo (lowest_paddr (phdrs m.memory n phdr)) m.memory
                (phdrs m.memory n phdr) a 0)
      × ((a : ℕ) → (a < lo) ⊎ (hi ≤ a) → (a < tbl) ⊎ (tbl + 16 ≤ a) → r.1.memory a ≡ m.memory a)

  module _ (fits : hi < 2 ^ 64) (image : LoadedImage program.1.memory) where
    installed-Handed :
        (r : (ℕ × PayloadInfo) × Machine)
        → r ≡ install_payload_table fw loaded_info remapped
        → r.0.0 ≡ efi_success
        → ((tbl : ℕ) → Reported tbl r.1.history → Apart lo hi tbl (tbl + 16))
        → Handed loaded_info r
    installed-Handed r is ok apart =
        let after =
          install_payload_table-memory fw loaded_info remapped (ap (λ r'. r'.0.0) (sym is) ∙ ok) in
        let tbl = after.0 in
        let told : Reported tbl r.1.history = rw is after.2 in
        let written : r.1.memory ≡ table_written program.1.memory tbl loaded_info =
          rw is after.3 ∙ ap (λ (g : Memory). table_written g tbl loaded_info) remapped-memory in
        let table =
          table_written-TableAt program.1.memory tbl loaded_info (omega (arith, fits))
            (omega (arith, fits)) in
        let around = table_written-outside program.1.memory tbl loaded_info in
        (
          tbl,
          told,
          subst (λ g. TableAt g tbl loaded_info) (sym written) table,
          rw is after.1,
          λ a low high.
              ap (λ (g : Memory). g a) written
              ∙ (around a (omega (arith, apart tbl told, low, high)) ∙ image.1 a low high),
          λ a out out_table.
              ap (λ (g : Memory). g a) written ∙ (around a out_table ∙ image.0 a out),
        )

    -- The header is not written over.
    same_info :
        Apart lo hi info.payload_addr (info.payload_addr + info.payload_size)
        → 32 ≤ info.payload_size
        → ehdr ≡ info.payload_addr
        → program.0.1.min_vaddr ≡ lowest_vaddr (phdrs m.memory n phdr)
        → loaded_info ≡ info_told
    same_info payload header at low =
        let entry : e_entry program.1.memory ehdr ≡ e_entry m.memory ehdr =
          read_le-same lo hi 8 (ehdr + 24) m.memory program.1.memory image.0
            (omega (arith, payload, header, at)) in
        λ i. info_with (entry i) (low i)

  header_at : Accepted → ehdr ≡ info.payload_addr
  unfolding elf_get_header
  header_at accepted = ground (arith, accepted.0)

  -- When load_elf succeeds for a payload whose program load_program could load, the last call has
  -- told the firmware of a table that holds the address and the size of the kernel; the kernel's
  -- region holds the image of the segments, from the lowest physical address on, and zeros; the
  -- entry is as far from the region's start as the header's entry is from the lowest virtual address
  -- of the loadable segments; and nothing else in memory has changed. The payload is long enough for the entry in its
  -- header; it, its headers and the table lie outside the region, and no address wraps.
  pub load_elf-Handed :
      Accepted
      → result.0.0 ≡ efi_success
      → program.0.0 ≡ efi_success
      → 32 ≤ info.payload_size
      → All NoWrap (phdrs m.memory n phdr)
      → hi < 2 ^ 64
      → info.payload_addr + info.payload_size < 2 ^ 64
      → Apart lo hi info.payload_addr (info.payload_addr + info.payload_size)
      → Apart lo hi phdr (phdr + n * sizeof_phdr)
      → ((tbl : ℕ) → Reported tbl result.1.history → Apart lo hi tbl (tbl + 16))
      → Handed info_told result
  load_elf-Handed accepted ok loads header no_wrap fits payload_fits payload table apart =
      let image =
        load_program-image fw info.payload_addr info.payload_size n phdr m loads no_wrap fits
          payload_fits payload table in
      subst (λ told. Handed told result)
        (same_info fits (image.0, image.1) payload header (header_at accepted) image.2)
        (installed-Handed fits (image.0, image.1) result (load_elf-steps accepted) ok apart)
