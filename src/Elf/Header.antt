-- ===== src/Elf/Header.antt =====
-- The headers: verify_ident, elf_check, elf_get_header and parse_phdrs of apps/elf.c, with the
-- layouts of inc/elf.h.
pub mod Bounds
use dragon_stub.Base.{
  ℕ, zero, suc, ◌+◌, ◌*◌, ◌%◌, ◌^◌, Bool, true, false, not, List, [], ◌∷◌, Option, none, some, ◌==◌,
  ltb, if◌then◌else◌,
}
use dragon_stub.Machine.{Memory, efi_success, efi_invalid_parameter}
use dragon_stub.Align.{u64}

-- The number in the `n` bytes from `p` on, the lowest first.
unfoldable pub read_le : (n : ℕ) → Memory → (p : ℕ) → ℕ
read_le zero f p = 0
read_le (suc n) f p = f p + 256 * read_le n f (p + 1)

abbrev pub ei_nident : ℕ
ei_nident = 16

-- e_ident, then the fields of Elf64_Ehdr that are read.
abbrev pub e_machine : Memory → ℕ → ℕ
e_machine f ehdr = read_le 2 f (ehdr + 18)

abbrev pub e_entry : Memory → ℕ → ℕ
e_entry f ehdr = read_le 8 f (ehdr + 24)

abbrev pub e_phoff : Memory → ℕ → ℕ
e_phoff f ehdr = read_le 8 f (ehdr + 32)

abbrev pub e_shoff : Memory → ℕ → ℕ
e_shoff f ehdr = read_le 8 f (ehdr + 40)

abbrev pub e_phentsize : Memory → ℕ → ℕ
e_phentsize f ehdr = read_le 2 f (ehdr + 54)

abbrev pub e_phnum : Memory → ℕ → ℕ
e_phnum f ehdr = read_le 2 f (ehdr + 56)

abbrev pub sizeof_phdr : ℕ
sizeof_phdr = 56

abbrev pub sizeof_shdr : ℕ
sizeof_shdr = 64

abbrev pub pn_xnum : ℕ
pn_xnum = 0xffff

abbrev pub em_riscv : ℕ
em_riscv = 243

-- Elf64_Phdr, less p_flags.
pub record Phdr : Type 0 where
  pub p_type : ℕ
  pub p_offset : ℕ
  pub p_vaddr : ℕ
  pub p_paddr : ℕ
  pub p_filesz : ℕ
  pub p_memsz : ℕ
  pub p_align : ℕ

unfoldable pub read_phdr : Memory → ℕ → Phdr
read_phdr f p = record {
  p_type = read_le 4 f p;
  p_offset = read_le 8 f (p + 8);
  p_vaddr = read_le 8 f (p + 16);
  p_paddr = read_le 8 f (p + 24);
  p_filesz = read_le 8 f (p + 32);
  p_memsz = read_le 8 f (p + 40);
  p_align = read_le 8 f (p + 48);
}

-- The loop over the magic number, against ELFMAG.
unfoldable pub verify_magic : Memory → (buf : ℕ) → List ℕ → Bool
verify_magic f buf [] = true
verify_magic f buf (c ∷ magic) = if f buf == c then verify_magic f (buf + 1) magic else false

unfoldable pub verify_ident : Memory → (buf bufsize : ℕ) → Bool
unfolding verify_magic
verify_ident f buf bufsize =
    if ltb bufsize ei_nident
    then false
    else if not (verify_magic f buf (0x7f ∷ b'E' ∷ b'L' ∷ b'F' ∷ []))
    then false
    else if not (f (buf + 6) == 1)
    then false
    else if not (f (buf + 4) == 2)
    then false
    else true

unfoldable pub elf_check : Memory → (payload_start payload_size : ℕ) → Bool
unfolding verify_ident
elf_check f payload_start payload_size =
    if not (verify_ident f payload_start payload_size)
    then false
    else if not (e_machine f payload_start == em_riscv)
    then false
    else true

-- The status, and `*ehdr` on success.
unfoldable pub elf_get_header : Memory → (payload_start payload_size : ℕ) → ℕ × Option ℕ
unfolding verify_ident
elf_get_header f payload_start payload_size =
    if not (verify_ident f payload_start payload_size)
    then (efi_invalid_parameter, none)
    else (efi_success, some payload_start)

-- The number of program headers, as parse_phdrs finds it in the header or in the first section
-- header: `phnum` is a u16, and `none` stands for its early returns.
unfoldable pub program_header_count : Memory → (payload_start payload_size ehdr : ℕ) → Option ℕ
program_header_count f payload_start payload_size ehdr =
    let phnum = e_phnum f ehdr in
    let shoff = e_shoff f ehdr in
    let extended = read_le 4 f (u64 (payload_start + shoff) + 44) % 2 ^ 16 in
    if not (phnum == pn_xnum)
    then some phnum
    else if shoff == 0
    then none
    else if ltb payload_size (u64 (shoff + sizeof_shdr))
    then none
    else if extended == 0
    then none
    else some extended

-- The checks of parse_phdrs on the table of `phnum` headers.
unfoldable pub locate_phdrs :
    Memory → (payload_start payload_size ehdr phnum : ℕ) → ℕ × Option (ℕ × ℕ)
locate_phdrs f payload_start payload_size ehdr phnum =
    let phoff = e_phoff f ehdr in
    let total_size = u64 (phnum * e_phentsize f ehdr) in
    if ltb payload_size (u64 (phoff + total_size))
    then (efi_invalid_parameter, none)
    else (efi_success, some (phnum, u64 (payload_start + phoff)))

-- parse_phdrs: the status, and the number and the address of the program headers on success.
unfoldable pub parse_phdrs : Memory → (payload_start payload_size ehdr : ℕ) → ℕ × Option (ℕ × ℕ)
unfolding program_header_count locate_phdrs
parse_phdrs f payload_start payload_size ehdr =
    if e_phnum f ehdr == 0
    then (efi_invalid_parameter, none)
    else if not (e_phentsize f ehdr == sizeof_phdr)
    then (efi_invalid_parameter, none)
    else (elim (program_header_count f payload_start payload_size ehdr) [
      | none ↦ (efi_invalid_parameter, none)
      | some phnum ↦ locate_phdrs f payload_start payload_size ehdr phnum
    ])
