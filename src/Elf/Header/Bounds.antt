-- ===== src/Elf/Header/Bounds.antt =====
-- What parse_phdrs of apps/elf.c guarantees of the table of program headers.
use dragon_stub.Base.{
  ℕ, zero, suc, ◌+◌, ◌*◌, ◌^◌, ◌≤◌, ◌<◌, ◌≡◌, ◌≢◌, arith, some, Option-cases, inl, inr,
}
use dragon_stub.Machine.{Memory}
use dragon_stub.Align.{u64}
use dragon_stub.Elf.Header.{
  e_phoff, e_phnum, e_phentsize, sizeof_phdr, program_header_count, locate_phdrs, parse_phdrs,
  read_le,
}

-- The count is not zero and fits 16 bits.
program_header_count-bounds :
    (f : Memory) (start size ehdr n : ℕ)
    → e_phnum f ehdr ≢ 0
    → e_phnum f ehdr < 2 ^ 16
    → program_header_count f start size ehdr ≡ some n
    → (0 < n) × (n < 2 ^ 16)
unfolding program_header_count
program_header_count-bounds f start size ehdr n ne lt e = ground arith

locate_phdrs-inside :
    (f : Memory) (start size ehdr n count table : ℕ)
    → e_phentsize f ehdr ≡ sizeof_phdr
    → n < 2 ^ 16
    → e_phoff f ehdr + n * sizeof_phdr < 2 ^ 64
    → (locate_phdrs f start size ehdr n).1 ≡ some (count, table)
    → (count ≡ n)
      × (table ≡ u64 (start + e_phoff f ehdr))
      × (e_phoff f ehdr + count * sizeof_phdr ≤ size)
unfolding locate_phdrs
locate_phdrs-inside f start size ehdr n count table ent lt nowrap e = ground arith

read_le-bound :
    (n : ℕ) (f : Memory) (p : ℕ) → ((a : ℕ) → f a < 256) → n ≤ 2 → read_le n f p < 256 ^ n
unfolding read_le
read_le-bound zero f p byte le = omega arith
read_le-bound (suc zero) f p byte le = omega (arith, byte p)
read_le-bound (suc (suc zero)) f p byte le = omega (arith, byte p, byte (p + 1))
read_le-bound (suc (suc (suc n))) f p byte le = absurd (omega arith)

-- When parse_phdrs hands out a table over a memory of bytes, and no table of fewer than 2 ^ 16
-- headers at e_phoff wraps, it has at least one header and fewer than 2 ^ 16, each of the size of
-- Elf64_Phdr, begins at e_phoff of the payload and ends inside the payload.
pub parse_phdrs-inside :
    (f : Memory) (start size ehdr count table : ℕ)
    → ((a : ℕ) → f a < 256)
    → e_phoff f ehdr + 2 ^ 16 * sizeof_phdr < 2 ^ 64
    → (parse_phdrs f start size ehdr).1 ≡ some (count, table)
    → (0 < count)
      × (count < 2 ^ 16)
      × (e_phentsize f ehdr ≡ sizeof_phdr)
      × (table ≡ u64 (start + e_phoff f ehdr))
      × (e_phoff f ehdr + count * sizeof_phdr ≤ size)
unfolding parse_phdrs
parse_phdrs-inside f start size ehdr count table byte nowrap e =
    let number = program_header_count f start size ehdr in
    elim (Option-cases number) [
      | inl nothing ↦ absurd (ground (arith, nothing))
      | inr (n, found) ↦ ground (
        arith,
        found,
        program_header_count-bounds f start size ehdr n,
        read_le-bound 2 f (ehdr + 56) byte,
        locate_phdrs-inside f start size ehdr n count table,
      )
    ]
