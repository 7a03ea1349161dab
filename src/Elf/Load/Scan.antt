-- ===== src/Elf/Load/Scan.antt =====
-- The loop of efi_allocate_kernel_memory finds the extent of the loadable segments.
use dragon_stub.Base.{
  ℕ, zero, suc, ◌+◌, ◌≤◌, ◌≡◌, ◌≢◌, none, arith, All, Bool-cases, inl, inr, ◌==◌, some, List, [],
  ◌∷◌, min, ◌-◌, ◌^◌, if◌then◌else◌,
}
use dragon_stub.Base.Bits.{bit_and-zero}
use dragon_stub.Machine.{Memory}
use dragon_stub.Align.{u64}
use dragon_stub.Elf.Header.{Phdr, read_phdr, sizeof_phdr}
use dragon_stub.Elf.Load.{Extent, extend, no_extent, scan_phdrs, pt_load}
use dragon_stub.Elf.Load.Segments.{phdrs}

-- A loadable segment lies in the extent.
abbrev pub Within : Extent → Phdr → Type 0
Within e ph =
    ph.p_type ≡ pt_load
    → (e.min_paddr ≤ ph.p_paddr)
      × (u64 (ph.p_paddr + ph.p_memsz) ≤ e.max_paddr)
      × (e.min_vaddr ≤ ph.p_vaddr)

-- `e` is at least as large as `d`.
pub record Widens (d e : Extent) : Type 0 where
  pub min_paddr_le : e.min_paddr ≤ d.min_paddr
  pub max_paddr_ge : d.max_paddr ≤ e.max_paddr
  pub min_vaddr_le : e.min_vaddr ≤ d.min_vaddr

widen : (ph : Phdr) {d e : Extent} → Widens (extend d ph) e → Widens d e
widen ph w = omega arith

pub scan_phdrs-Widens :
    (f : Memory) (n phdr : ℕ) (d : Extent) {e : Extent}
    → scan_phdrs f n phdr d ≡ some e
    → Widens d e × All (Within e) (phdrs f n phdr)
unfolding scan_phdrs
scan_phdrs-Widens f zero phdr d h = (ground arith, tt)
scan_phdrs-Widens f (suc n) phdr d {e} h =
    elim (Bool-cases ((read_phdr f phdr).p_type == pt_load)) [
      | inr other ↦
          let r = scan_phdrs-Widens f n (phdr + sizeof_phdr) d {e = e} (ground arith) in
          (r.0, ((λ t. absurd (ground arith)), r.1))
      | inl loadable ↦
          let r =
            scan_phdrs-Widens f n (phdr + sizeof_phdr) (extend d (read_phdr f phdr)) {e = e}
              (ground arith) in
          (widen (read_phdr f phdr) r.0, ((λ t. omega (arith, r.0)), r.1))
    ]

-- No loadable segment ends above `bound`.
abbrev pub EndsBelow : ℕ → Phdr → Type 0
EndsBelow bound ph = ph.p_type ≡ pt_load → u64 (ph.p_paddr + ph.p_memsz) ≤ bound

pub scan_phdrs-max_paddr :
    (f : Memory) (n phdr bound : ℕ) (d : Extent) {e : Extent}
    → All (EndsBelow bound) (phdrs f n phdr)
    → d.max_paddr ≤ bound
    → scan_phdrs f n phdr d ≡ some e
    → e.max_paddr ≤ bound
unfolding scan_phdrs
scan_phdrs-max_paddr f zero phdr bound d all below h = ground arith
scan_phdrs-max_paddr f (suc n) phdr bound d {e} all below h =
    elim (Bool-cases ((read_phdr f phdr).p_type == pt_load)) [
      | inr other ↦
          scan_phdrs-max_paddr f n (phdr + sizeof_phdr) bound d {e = e} all.1 below (ground arith)
      | inl loadable ↦
          scan_phdrs-max_paddr f n (phdr + sizeof_phdr) bound (extend d (read_phdr f phdr)) {e = e}
            all.1 (ground (arith, all.0)) (ground arith)
    ]

-- The lowest physical and the lowest virtual address of the loadable segments, and the largest word
-- where there is none.
abbrev pub lowest_paddr : List Phdr → ℕ
lowest_paddr [] = 2 ^ 64 - 1
lowest_paddr (ph ∷ table) =
    if ph.p_type == pt_load then min ph.p_paddr (lowest_paddr table) else lowest_paddr table

abbrev pub lowest_vaddr : List Phdr → ℕ
lowest_vaddr [] = 2 ^ 64 - 1
lowest_vaddr (ph ∷ table) =
    if ph.p_type == pt_load then min ph.p_vaddr (lowest_vaddr table) else lowest_vaddr table

lowest_bound :
    (table : List Phdr) → (lowest_paddr table ≤ 2 ^ 64 - 1) × (lowest_vaddr table ≤ 2 ^ 64 - 1)
lowest_bound [] = (omega arith, omega arith)
lowest_bound (ph ∷ table) = elim (Bool-cases (ph.p_type == pt_load)) [
  | inl loadable ↦
      rw loadable (omega (arith, lowest_bound table), omega (arith, lowest_bound table))
  | inr other ↦ rw other (lowest_bound table)
]

-- The extents from which the scan finds no lower address than in the table.
abbrev Top : Extent → Type 0
Top d = (d.min_paddr ≤ 2 ^ 64 - 1) × (d.min_vaddr ≤ 2 ^ 64 - 1)

scan_phdrs-min :
    (f : Memory) (n phdr : ℕ) (d : Extent) {e : Extent}
    → Top d
    → scan_phdrs f n phdr d ≡ some e
    → (e.min_paddr ≡ min d.min_paddr (lowest_paddr (phdrs f n phdr)))
      × (e.min_vaddr ≡ min d.min_vaddr (lowest_vaddr (phdrs f n phdr)))
unfolding scan_phdrs
scan_phdrs-min f zero phdr d top h = (ground (arith, top), ground (arith, top))
scan_phdrs-min f (suc n) phdr d {e} top h =
    elim (Bool-cases ((read_phdr f phdr).p_type == pt_load)) [
      | inr other ↦ rw other (scan_phdrs-min f n (phdr + sizeof_phdr) d {e = e} top (ground arith))
      | inl loadable ↦
          let r =
            scan_phdrs-min f n (phdr + sizeof_phdr) (extend d (read_phdr f phdr)) {e = e}
              (omega (arith, top), omega (arith, top)) (ground arith) in
          rw loadable (omega (arith, r), omega (arith, r))
    ]

pub scan_phdrs-lowest :
    (f : Memory) (n phdr : ℕ) {e : Extent}
    → scan_phdrs f n phdr no_extent ≡ some e
    → (e.min_paddr ≡ lowest_paddr (phdrs f n phdr)) × (e.min_vaddr ≡ lowest_vaddr (phdrs f n phdr))
scan_phdrs-lowest f n phdr {e} found =
    let r = scan_phdrs-min f n phdr no_extent {e = e} (omega arith, omega arith) found in
    let bound = lowest_bound (phdrs f n phdr) in (omega (arith, r, bound), omega (arith, r, bound))

-- The check of p_align in efi_allocate_kernel_memory rejects no program header, whatever its
-- alignment.
pub scan_phdrs-accepts : (f : Memory) (n phdr : ℕ) (e : Extent) → scan_phdrs f n phdr e ≢ none
unfolding scan_phdrs
scan_phdrs-accepts f zero phdr e = ground arith
scan_phdrs-accepts f (suc n) phdr e =
    let ph = read_phdr f phdr in
    ground (
      arith,
      bit_and-zero ph.p_align,
      scan_phdrs-accepts f n (phdr + sizeof_phdr) e,
      scan_phdrs-accepts f n (phdr + sizeof_phdr) (extend e ph),
    )
