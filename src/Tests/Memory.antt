-- ===== src/Tests/Memory.antt =====
-- Page allocation and the loader at a payload of one segment.
use dragon_stub.Base.{
  ◌==◌, if◌then◌else◌, ◌≢◌, none, ℕ, ◌+◌, ◌-◌, ◌*◌, ◌%◌, ◌^◌, ◌≤◌, ◌<◌, ◌≡◌, refl, List, All, arith,
  ◌||◌, some,
}
use dragon_stub.Machine.{Memory, Machine, efi_success}
use dragon_stub.Pages.{efi_allocate_pages_aligned, take_aligned, free_slack}
use dragon_stub.Pages.Ownership.{owns, in_pages}
use dragon_stub.Pages.Aligned.{efi_allocate_pages_aligned-owns}
use dragon_stub.Align.{align_up, align_down, round_up}
use dragon_stub.Align.{u64}
use dragon_stub.Elf.Load.Scan.{scan_phdrs-accepts, lowest_paddr, lowest_vaddr}
use dragon_stub.Elf.Header.Bounds.{parse_phdrs-inside}
use dragon_stub.Elf.Header.{
  e_phoff, e_phentsize, sizeof_phdr, parse_phdrs, program_header_count, locate_phdrs, Phdr,
  read_phdr, read_le,
}
use dragon_stub.Elf.Load.{
  no_extent, write_le, load_program, efi_allocate_kernel_memory, allocate_extent,
  claim_kernel_memory, scan_phdrs, load_segments, load_step, efi_remap_image_all_rwx,
}
use dragon_stub.Bytes.{memset, memcpy}
use dragon_stub.Elf.Load.Segments.{phdrs, SameOutside, image_byte}
use dragon_stub.Elf.Load.Kernel.{load_program-image, loaded_at, loaded_end, NoWrap}
use dragon_stub.Tests.Platform.{platform, platform-GrantsPages, start_with}

abbrev blank : Machine
blank = start_with (λ _. 0)

granted :
    (efi_allocate_pages_aligned platform 0x3000 (2 ^ 64 - 1) (2 ^ 21) 2 blank).0.0 ≡ efi_success
unfolding efi_allocate_pages_aligned take_aligned free_slack align_up align_down round_up
granted = refl

efi_allocate_pages_aligned-owns_example :
    (addr : ℕ) × ((efi_allocate_pages_aligned platform 0x3000 (2 ^ 64 - 1) (2 ^ 21) 2 blank).0.1
      ≡ some addr)
    × (addr % 2 ^ 21 ≡ 0)
    × (addr + 3 * 4096 ≤ 2 ^ 64 - 1 + 1)
    × ((p : ℕ)
        → owns
            (efi_allocate_pages_aligned platform 0x3000 (2 ^ 64 - 1) (2 ^ 21) 2 blank).1.history
            p
          ≡ (in_pages p addr 3 || owns blank.history p))
efi_allocate_pages_aligned-owns_example =
    efi_allocate_pages_aligned-owns 43 21 512 refl refl (omega arith) (omega arith) platform
      platform-GrantsPages 0x3000 (2 ^ 64 - 1) 2 blank (omega arith) (omega arith) (omega arith)
      (omega arith) granted

-- One segment: four bytes of the file at 0x100 go to eight bytes of memory.
abbrev payload : Memory
payload =
    write_le 4
      (write_le 8
        (write_le 8
          (write_le 8
            (write_le 8 (write_le 8 (write_le 4 (λ _. 0) 0x100100 0x04030201) 0x100048 0x100)
              0x100050 0xffffffc000200000)
            0x100058 0x200000)
          0x100060 4)
        0x100068 8)
      0x100040 1

loads : (load_program platform 0x100000 0x200 0x100040 1 (start_with payload)).0.0 ≡ efi_success
unfolding load_program efi_allocate_kernel_memory allocate_extent claim_kernel_memory scan_phdrs
    read_phdr read_le write_le load_segments load_step efi_remap_image_all_rwx
    efi_allocate_pages_aligned take_aligned free_slack align_up align_down round_up memset memcpy
loads = refl

loads_at :
    (load_program platform 0x100000 0x200 0x100040 1 (start_with payload)).0.1.mem_paddr ≡ 0x1200000
unfolding load_program efi_allocate_kernel_memory allocate_extent claim_kernel_memory scan_phdrs
    read_phdr read_le write_le load_segments load_step efi_remap_image_all_rwx
    efi_allocate_pages_aligned take_aligned free_slack align_up align_down round_up memset memcpy
loads_at = refl

loads_size :
    (load_program platform 0x100000 0x200 0x100040 1 (start_with payload)).0.1.mem_size ≡ 0x200000
unfolding load_program efi_allocate_kernel_memory allocate_extent claim_kernel_memory scan_phdrs
    read_phdr read_le write_le load_segments load_step efi_remap_image_all_rwx
    efi_allocate_pages_aligned take_aligned free_slack align_up align_down round_up memset memcpy
loads_size = refl

abbrev table : List Phdr
table = phdrs payload 1 0x100040

table-NoWrap : All NoWrap table
unfolding read_phdr read_le write_le
table-NoWrap = ((λ t. (omega arith, omega arith)), tt)

load_program-image_example :
    SameOutside
      (loaded_at platform 0x100000 0x200 1 0x100040 (start_with payload))
      (loaded_end platform 0x100000 0x200 1 0x100040 (start_with payload))
      payload
      (load_program platform 0x100000 0x200 0x100040 1 (start_with payload)).1.memory
    × ((a : ℕ)
        → loaded_at platform 0x100000 0x200 1 0x100040 (start_with payload) ≤ a
        → a < loaded_end platform 0x100000 0x200 1 0x100040 (start_with payload)
        → (load_program platform 0x100000 0x200 0x100040 1 (start_with payload)).1.memory a
          ≡ image_byte 0x100000
              (loaded_at platform 0x100000 0x200 1 0x100040 (start_with payload))
              (lowest_paddr table)
              payload
              table
              a
              0)
    × ((load_program platform 0x100000 0x200 0x100040 1 (start_with payload)).0.1.min_vaddr
        ≡ lowest_vaddr table)
load_program-image_example =
    load_program-image platform 0x100000 0x200 1 0x100040 (start_with payload) loads table-NoWrap
      (omega (arith, loads_at, loads_size)) (omega arith) (omega (arith, loads_at, loads_size))
      (omega (arith, loads_at, loads_size))

scan_phdrs-accepts_example : scan_phdrs payload 1 0x100040 no_extent ≢ none
scan_phdrs-accepts_example = scan_phdrs-accepts payload 1 0x100040 no_extent

-- A header with one program header at offset 64.
abbrev elf_file : Memory
elf_file a =
    if a == 0x100020 then 64 else if a == 0x100036 then 56 else if a == 0x100038 then 1 else 0

elf_file-bytes : (a : ℕ) → elf_file a < 256
elf_file-bytes a = ground arith

elf_file-parses : (parse_phdrs elf_file 0x100000 0x200 0x100000).1 ≡ some (1, 0x100040)
unfolding parse_phdrs program_header_count locate_phdrs read_le
elf_file-parses = refl

elf_file-small : e_phoff elf_file 0x100000 + 2 ^ 16 * sizeof_phdr < 2 ^ 64
unfolding read_le
elf_file-small = omega arith

parse_phdrs-inside_example :
    (0 < 1)
    × (1 < 2 ^ 16)
    × (e_phentsize elf_file 0x100000 ≡ sizeof_phdr)
    × (0x100040 ≡ u64 (0x100000 + e_phoff elf_file 0x100000))
    × (e_phoff elf_file 0x100000 + 1 * sizeof_phdr ≤ 0x200)
parse_phdrs-inside_example =
    parse_phdrs-inside elf_file 0x100000 0x200 0x100000 1 0x100040 elf_file-bytes elf_file-small
      elf_file-parses
