-- ===== src/Elf/Load/Kernel.antt =====
-- load_program of apps/elf.c as a whole: the memory after it.
use dragon_stub.Base.{
  ℕ, ◌+◌, ◌-◌, ◌*◌, ◌^◌, ◌≤◌, ◌<◌, ◌≡◌, refl, ap, ◌∙◌, arith, All, All-zip, Option, some,
  Option-cases, inl, inr, ◌⊎◌,
}
use dragon_stub.Machine.{Firmware, Machine, Memory, efi_success}
use dragon_stub.Bytes.{memset}
use dragon_stub.Align.{sub64, align_up}
use dragon_stub.Align.Laws.{align_up_lem}
use dragon_stub.Elf.Header.{Phdr, sizeof_phdr}
use dragon_stub.Elf.Load.{
  Extent, KernelMemory, no_extent, scan_phdrs, pt_load, kernel_mem_align, load_program,
  load_segments, efi_allocate_kernel_memory, Program,
}
use dragon_stub.Elf.Load.Segments.{
  phdrs, SameOutside, Apart, image_byte, Placed, load_segments-Loaded,
}
use dragon_stub.Elf.Load.Scan.{
  EndsBelow, scan_phdrs-Widens, scan_phdrs-max_paddr, scan_phdrs-lowest, lowest_paddr, lowest_vaddr,
}
use dragon_stub.Elf.Load.Claimed.{
  efi_allocate_kernel_memory-Claimed, efi_allocate_kernel_memory-none,
}

align_up-ge : (x : ℕ) → x + (2 ^ 21 - 1) < 2 ^ 64 → x ≤ align_up x kernel_mem_align
align_up-ge x h = omega (arith, align_up_lem 43 21 refl x h)

-- The addresses and the offsets of a loadable segment do not wrap.
abbrev pub NoWrap : Phdr → Type 0
NoWrap ph =
    ph.p_type ≡ pt_load
    → (ph.p_paddr + ph.p_memsz + 2 ^ 21 ≤ 2 ^ 64) × (ph.p_offset + ph.p_filesz < 2 ^ 64)

module _ (f : Memory) (n phdr : ℕ) (e : Extent) (found : scan_phdrs f n phdr no_extent ≡ some e)
    (no_wrap : All NoWrap (phdrs f n phdr)) where
  extent_bound : e.max_paddr + 2 ^ 21 ≤ 2 ^ 64
  extent_bound =
      let below =
        All-zip {R = EndsBelow (2 ^ 64 - 2 ^ 21)} (λ ph p q t. omega (arith, p t)) (phdrs f n phdr)
          no_wrap no_wrap in
      omega (
        arith,
        scan_phdrs-max_paddr f n phdr (2 ^ 64 - 2 ^ 21) no_extent {e = e} below (omega arith) found,
      )

  segments-Placed :
      (allocated : ℕ)
      → allocated + align_up (sub64 e.max_paddr e.min_paddr) kernel_mem_align < 2 ^ 64
      → All
          (Placed allocated e.min_paddr allocated
            (allocated + align_up (sub64 e.max_paddr e.min_paddr) kernel_mem_align))
          (phdrs f n phdr)
  segments-Placed allocated fits =
      All-zip (λ ph p q t. omega (arith, p t, q t, extent_bound, rounded)) (phdrs f n phdr) no_wrap
        (scan_phdrs-Widens f n phdr no_extent {e = e} found).1
    where
      rounded :
          (e.max_paddr < e.min_paddr)
          ⊎ (e.max_paddr - e.min_paddr ≤ align_up (sub64 e.max_paddr e.min_paddr) kernel_mem_align)
      rounded = grind (arith, align_up-ge (sub64 e.max_paddr e.min_paddr), extent_bound)

module _ (fw : Firmware) (payload_start payload_size n phdr : ℕ) (m : Machine) where
  abbrev run : (ℕ × Program) × Machine
  run = load_program fw payload_start payload_size phdr n m

  abbrev claim : (ℕ × Option KernelMemory) × Machine
  claim = efi_allocate_kernel_memory fw phdr n m

  abbrev segments : KernelMemory → ℕ × Memory
  segments k =
      load_segments payload_start payload_size k.paddr k.min_paddr n phdr
        (memset claim.1.memory k.paddr 0 k.size)

  -- What a successful load_program went through.
  load_program-success :
      run.0.0 ≡ efi_success
      → (k : KernelMemory) × (claim.0.1 ≡ some k)
        × ((segments k).0 ≡ efi_success)
        × (run.0.1.mem_paddr ≡ k.paddr)
        × (run.0.1.mem_size ≡ k.size)
        × (run.0.1.min_paddr ≡ k.min_paddr)
        × (run.0.1.min_vaddr ≡ k.min_vaddr)
        × (run.1.memory ≡ (segments k).1)
  unfolding load_program
  load_program-success h = elim (Option-cases claim.0.1) [
    | inl nothing ↦ absurd (ground (arith, efi_allocate_kernel_memory-none fw n phdr m))
    | inr (k, got) ↦
        (k, got, ground arith, ground arith, ground arith, ground arith, ground arith, ground arith)
  ]

  abbrev pub loaded_at : ℕ
  loaded_at = run.0.1.mem_paddr

  abbrev pub loaded_end : ℕ
  loaded_end = run.0.1.mem_paddr + run.0.1.mem_size

  -- The image of the segments, in terms of the allocation.
  abbrev Image : (paddr size min_paddr : ℕ) → Memory → Type 0
  Image paddr size min_paddr g =
      SameOutside paddr (paddr + size) m.memory g
      × ((a : ℕ)
          → paddr ≤ a
          → a < paddr + size
          → g a ≡ image_byte payload_start paddr min_paddr m.memory (phdrs m.memory n phdr) a 0)

  -- The lowest addresses that load_program hands back are those of the segments.
  load_program-lowest :
      run.0.0 ≡ efi_success
      → (run.0.1.min_paddr ≡ lowest_paddr (phdrs m.memory n phdr))
        × (run.0.1.min_vaddr ≡ lowest_vaddr (phdrs m.memory n phdr))
  load_program-lowest h =
      let (k, got, ok, at_paddr, at_size, at_min, at_vaddr, mem) = load_program-success h in
      let (e, found, claimed) = efi_allocate_kernel_memory-Claimed fw n phdr m {k = k} got in
      let low = scan_phdrs-lowest m.memory n phdr {e = e} found in
      (at_min ∙ (claimed.2 ∙ low.0), at_vaddr ∙ (claimed.3 ∙ low.1))

  memset_zero :
      (f : Memory) (paddr size : ℕ) → SameOutside paddr (paddr + size) f (memset f paddr 0 size)
  unfolding memset
  memset_zero f paddr size a out = ground arith

  memset_inside :
      (f : Memory) (paddr size a : ℕ) → paddr ≤ a → a < paddr + size → memset f paddr 0 size a ≡ 0
  unfolding memset
  memset_inside f paddr size a lo hi = ground arith

  segments-Image :
      (k : KernelMemory)
      → claim.0.1 ≡ some k
      → (segments k).0 ≡ efi_success
      → All NoWrap (phdrs m.memory n phdr)
      → k.paddr + k.size < 2 ^ 64
      → payload_start + payload_size < 2 ^ 64
      → Apart k.paddr (k.paddr + k.size) payload_start (payload_start + payload_size)
      → Apart k.paddr (k.paddr + k.size) phdr (phdr + n * sizeof_phdr)
      → Image k.paddr k.size k.min_paddr (segments k).1
  segments-Image k got ok no_wrap fits payload_fits payload table =
      let (e, found, claimed) = efi_allocate_kernel_memory-Claimed fw n phdr m {k = k} got in
      let start : Memory = memset claim.1.memory k.paddr 0 k.size in
      let same : SameOutside k.paddr (k.paddr + k.size) m.memory start = λ a out.
        memset_zero claim.1.memory k.paddr k.size a out
        ∙ (ap (λ (g : Memory). g a) claimed.0 ∙ memset_zero m.memory k.paddr k.size a out) in
      let placed : All (Placed k.paddr k.min_paddr k.paddr (k.paddr + k.size))
          (phdrs m.memory n phdr) =
        rw (claimed.1, claimed.2)
          (segments-Placed m.memory n phdr e found no_wrap k.paddr (rw claimed.1 at fits)) in
      let loaded =
        load_segments-Loaded payload_start k.paddr k.min_paddr payload_size k.paddr
          (k.paddr + k.size) m.memory payload payload_fits n phdr start same table placed in
      (
        loaded.0,
        λ a lo hi.
            loaded.1 ok a
            ∙ ap
                (λ (d : ℕ).
                  image_byte payload_start k.paddr k.min_paddr m.memory (phdrs m.memory n phdr) a d)
                (memset_inside claim.1.memory k.paddr k.size a lo hi),
      )

  load_program-Image :
      run.0.0 ≡ efi_success
      → All NoWrap (phdrs m.memory n phdr)
      → loaded_end < 2 ^ 64
      → payload_start + payload_size < 2 ^ 64
      → Apart loaded_at loaded_end payload_start (payload_start + payload_size)
      → Apart loaded_at loaded_end phdr (phdr + n * sizeof_phdr)
      → Image loaded_at run.0.1.mem_size run.0.1.min_paddr run.1.memory
  load_program-Image h no_wrap fits payload_fits payload table =
      let (k, got, ok, at_paddr, at_size, at_min, at_vaddr, mem) = load_program-success h in
      rw (at_paddr, at_size, at_min, mem)
        (segments-Image k got ok no_wrap (rw (at_paddr, at_size) at fits) payload_fits
          (rw (at_paddr, at_size) at payload) (rw (at_paddr, at_size) at table))

  -- A successful load_program changes memory only in the region that it reports, and there every
  -- byte is that of the last loadable segment covering it, read from the payload, or zero, where a
  -- segment lies as far from the region's start as its physical address from the lowest one; the
  -- virtual address reported is the lowest of the loadable segments. The segments, the region and
  -- the payload do not wrap, and the region lies apart from the payload and from the program headers.
  pub load_program-image :
      run.0.0 ≡ efi_success
      → All NoWrap (phdrs m.memory n phdr)
      → loaded_end < 2 ^ 64
      → payload_start + payload_size < 2 ^ 64
      → Apart loaded_at loaded_end payload_start (payload_start + payload_size)
      → Apart loaded_at loaded_end phdr (phdr + n * sizeof_phdr)
      → SameOutside loaded_at loaded_end m.memory run.1.memory
        × ((a : ℕ)
            → loaded_at ≤ a
            → a < loaded_end
            → run.1.memory a
              ≡ image_byte payload_start loaded_at
                  (lowest_paddr (phdrs m.memory n phdr))
                  m.memory
                  (phdrs m.memory n phdr)
                  a
                  0)
        × (run.0.1.min_vaddr ≡ lowest_vaddr (phdrs m.memory n phdr))
  load_program-image h no_wrap fits payload_fits payload table =
      let image = load_program-Image h no_wrap fits payload_fits payload table in
      let low = load_program-lowest h in
      (
        image.0,
        λ a lo hi.
            image.1 a lo hi
            ∙ ap
                (λ (p : ℕ).
                  image_byte payload_start loaded_at p m.memory (phdrs m.memory n phdr) a 0)
                low.0,
        low.1,
      )
