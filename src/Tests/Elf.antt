-- ===== src/Tests/Elf.antt =====
-- load_elf at a file of one segment.
use dragon_stub.Base.{ℕ, ◌+◌, ◌≡◌, refl, ap, ◌∷◌, List, All, arith, []}
use dragon_stub.Machine.{Memory, Machine, Event, History, efi_success}
use dragon_stub.Pages.{efi_allocate_pages_aligned, take_aligned, free_slack}
use dragon_stub.Align.{align_up, align_down, round_up}
use dragon_stub.Bytes.{memset, memcpy}
use dragon_stub.Elf.Header.{
  elf_get_header, verify_ident, verify_magic, parse_phdrs, program_header_count, locate_phdrs,
  read_phdr, read_le,
}
use dragon_stub.Elf.Load.{
  PayloadInfo, write_le, load_program, load_elf, efi_allocate_kernel_memory, allocate_extent,
  claim_kernel_memory, scan_phdrs, load_segments, load_step, efi_remap_image_all_rwx,
  install_payload_table,
}
use dragon_stub.Elf.Load.Segments.{phdrs, Apart}
use dragon_stub.Elf.Load.Kernel.{loaded_at, loaded_end, NoWrap}
use dragon_stub.Elf.Load.Table.{Reported}
use dragon_stub.Elf.Load.Whole.{load_elf-Handed, Handed, Accepted, info_told}
use dragon_stub.Tests.Platform.{platform, start_with}

-- The header names the entry 0xffffffc000200002 and one program header at offset 64; four bytes of
-- the file at 0x100 go to eight bytes of memory.
abbrev elf_fields : List (ℕ × ℕ × ℕ)
elf_fields =
    (4, 0x100000, 0x464c457f)
    ∷ (4, 0x100004, 0x10102)
    ∷ (8, 0x100018, 0xffffffc000200002)
    ∷ (8, 0x100020, 64)
    ∷ (2, 0x100036, 56)
    ∷ (2, 0x100038, 1)
    ∷ (8, 0x100048, 0x100)
    ∷ (8, 0x100050, 0xffffffc000200000)
    ∷ (8, 0x100058, 0x200000)
    ∷ (8, 0x100060, 4)
    ∷ (8, 0x100068, 8)
    ∷ (4, 0x100040, 1)
    ∷ (4, 0x100100, 0x04030201)
    ∷ []

-- A file from its fields: the size, the address and the value of each.
abbrev file_of : List (ℕ × ℕ × ℕ) → Memory
file_of [] a = 0
file_of (x ∷ xs) a = write_le x.0 (file_of xs) x.1 x.2 a

abbrev elf_file : Memory
elf_file = file_of elf_fields

abbrev file_info : PayloadInfo
file_info = record {
  payload_addr = 0x100000;
  payload_size = 0x200;
  loaded_paddr = 0;
  loaded_size = 0;
  kernel_entry = 0;
}

abbrev before : Machine
before = start_with elf_file

accepted : Accepted platform 0x10000000 0x10010000 file_info before 0x100000 1 0x100040
unfolding elf_get_header verify_ident verify_magic parse_phdrs program_header_count locate_phdrs
    read_le write_le
accepted = (refl, refl)

loads : (load_program platform 0x100000 0x200 0x100040 1 before).0.0 ≡ efi_success
unfolding load_program efi_allocate_kernel_memory allocate_extent claim_kernel_memory scan_phdrs
    read_phdr read_le write_le load_segments load_step efi_remap_image_all_rwx
    efi_allocate_pages_aligned take_aligned free_slack align_up align_down round_up memset memcpy
loads = refl

region :
    (loaded_at platform 0x100000 0x200 1 0x100040 before ≡ 0x1200000)
    × (loaded_end platform 0x100000 0x200 1 0x100040 before ≡ 0x1400000)
unfolding load_program efi_allocate_kernel_memory allocate_extent claim_kernel_memory scan_phdrs
    read_phdr read_le write_le load_segments load_step efi_remap_image_all_rwx
    efi_allocate_pages_aligned take_aligned free_slack align_up align_down round_up memset memcpy
region = (refl, refl)

table-NoWrap : All NoWrap (phdrs elf_file 1 0x100040)
unfolding read_phdr read_le write_le
table-NoWrap = ((λ t. (omega arith, omega arith)), tt)

abbrev result : (ℕ × PayloadInfo) × Machine
result = load_elf platform 0x10000000 0x10010000 file_info before

succeeds : result.0.0 ≡ efi_success
unfolding load_elf install_payload_table elf_get_header verify_ident verify_magic parse_phdrs
    program_header_count locate_phdrs load_program efi_allocate_kernel_memory allocate_extent
    claim_kernel_memory scan_phdrs read_phdr read_le write_le load_segments load_step
    efi_remap_image_all_rwx efi_allocate_pages_aligned take_aligned free_slack align_up align_down
    round_up memset memcpy
succeeds = refl

-- The address in a call of InstallConfigurationTable.
abbrev table_address : History → ℕ
table_address [] = 0
table_address (Event.install_configuration_table guid address status ∷ h) = address
table_address (e ∷ h) = 0

table-Apart :
    (tbl : ℕ)
    → Reported tbl result.1.history
    → Apart
        (loaded_at platform 0x100000 0x200 1 0x100040 before)
        (loaded_end platform 0x100000 0x200 1 0x100040 before)
        tbl
        (tbl + 16)
unfolding load_elf install_payload_table elf_get_header verify_ident verify_magic parse_phdrs
    program_header_count locate_phdrs load_program efi_allocate_kernel_memory allocate_extent
    claim_kernel_memory scan_phdrs read_phdr read_le write_le load_segments load_step
    efi_remap_image_all_rwx efi_allocate_pages_aligned take_aligned free_slack align_up align_down
    round_up memset memcpy
table-Apart tbl told = omega (arith, region, ap table_address told.1)

load_elf-Handed_example :
    Handed platform 0x10000000 0x10010000 file_info before 0x100000 1 0x100040
      (info_told platform 0x10000000 0x10010000 file_info before 0x100000 1 0x100040)
      result
load_elf-Handed_example =
    load_elf-Handed platform 0x10000000 0x10010000 file_info before 0x100000 1 0x100040 accepted
      succeeds loads (omega arith) table-NoWrap (omega (arith, region)) (omega arith)
      (omega (arith, region)) (omega (arith, region)) table-Apart
