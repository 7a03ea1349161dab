-- ===== src/Elf/Load/Claimed.antt =====
-- What efi_allocate_kernel_memory of apps/elf.c hands out, and the memory after it.
use mathlib.Core.Path.{subst}
use dragon_stub.Base.{ℕ, ◌-◌, ◌^◌, ◌≡◌, refl, sym, arith, ◌≢◌, some, none, Option-cases, inl, inr}
use dragon_stub.Machine.{Firmware, Machine, Memory, efi_success}
use dragon_stub.Bytes.{memset}
use dragon_stub.Align.{sub64, align_up}
use dragon_stub.Pages.{efi_allocate_pages_aligned, take_aligned, free_slack, efi_loader_data}
use dragon_stub.Elf.Load.{
  Extent, KernelMemory, no_extent, scan_phdrs, kernel_mem_align, clear_attribute,
  efi_remap_image_all_rwx, efi_allocate_kernel_memory, allocate_extent, claim_kernel_memory,
}

module _ (fw : Firmware) where
  pub efi_allocate_pages_aligned-memory :
      (size max align memory_type : ℕ) (m : Machine)
      → (efi_allocate_pages_aligned fw size max align memory_type m).1.memory ≡ m.memory
  unfolding efi_allocate_pages_aligned take_aligned free_slack
  efi_allocate_pages_aligned-memory size max align memory_type m = ground arith

  pub efi_remap_image_all_rwx-memory :
      (base size : ℕ) (m : Machine) → (efi_remap_image_all_rwx fw base size m).1.memory ≡ m.memory
  unfolding efi_remap_image_all_rwx clear_attribute
  efi_remap_image_all_rwx-memory base size m = ground arith

  abbrev pub size_of : Extent → ℕ
  size_of e = align_up (sub64 e.max_paddr e.min_paddr) kernel_mem_align

  abbrev pub Claimed : Extent → Memory → KernelMemory → Memory → Type 0
  Claimed e f k g =
      (g ≡ memset f k.paddr 0 k.size)
      × (k.size ≡ size_of e)
      × (k.min_paddr ≡ e.min_paddr)
      × (k.min_vaddr ≡ e.min_vaddr)

  claim_kernel_memory-Claimed :
      (e : Extent) (paddr : ℕ) (m : Machine)
      → Claimed e m.memory
          (claim_kernel_memory fw e paddr (size_of e) m).0
          (claim_kernel_memory fw e paddr (size_of e) m).1.memory
  unfolding claim_kernel_memory
  claim_kernel_memory-Claimed e paddr m = (efi_remap_image_all_rwx-memory _ _ _, refl, refl, refl)

  allocate_extent-Claimed :
      (e : Extent) (m : Machine) {k : KernelMemory}
      → (allocate_extent fw e m).0.1 ≡ some k
      → Claimed e m.memory k (allocate_extent fw e m).1.memory
  unfolding allocate_extent
  allocate_extent-Claimed e m h =
      let given =
        efi_allocate_pages_aligned fw (size_of e) (2 ^ 64 - 1) kernel_mem_align efi_loader_data m in
      elim (Option-cases given.0.1) [
        | inl nothing ↦ absurd (ground arith)
        | inr (paddr, got) ↦ ground (
          arith,
          claim_kernel_memory-Claimed e paddr given.1,
          efi_allocate_pages_aligned-memory (size_of e) (2 ^ 64 - 1) kernel_mem_align
              efi_loader_data m,
        )
      ]

  scanned :
      (n phdr : ℕ) (e : Extent) (m : Machine)
      → scan_phdrs m.memory n phdr no_extent ≡ some e
      → efi_allocate_kernel_memory fw phdr n m ≡ allocate_extent fw e m
  unfolding efi_allocate_kernel_memory
  scanned n phdr e m found = ground (arith, found)

  pub efi_allocate_kernel_memory-Claimed :
      (n phdr : ℕ) (m : Machine) {k : KernelMemory}
      → (efi_allocate_kernel_memory fw phdr n m).0.1 ≡ some k
      → (e : Extent) × (scan_phdrs m.memory n phdr no_extent ≡ some e)
        × Claimed e m.memory k (efi_allocate_kernel_memory fw phdr n m).1.memory
  unfolding efi_allocate_kernel_memory
  efi_allocate_kernel_memory-Claimed n phdr m {k} h =
      elim (Option-cases (scan_phdrs m.memory n phdr no_extent)) [
        | inl nothing ↦ absurd (ground arith)
        | inr (e, found) ↦ (
          e,
          found,
          subst (λ r. Claimed e m.memory k r.1.memory) (sym (scanned n phdr e m found))
              (allocate_extent-Claimed e m {k = k}
                (subst (λ r. r.0.1 ≡ some k) (scanned n phdr e m found) h)),
        )
      ]

  pub efi_allocate_kernel_memory-none :
      (n phdr : ℕ) (m : Machine)
      → (efi_allocate_kernel_memory fw phdr n m).0.1 ≡ none
      → (efi_allocate_kernel_memory fw phdr n m).0.0 ≢ efi_success
  unfolding efi_allocate_kernel_memory allocate_extent efi_allocate_pages_aligned take_aligned
  efi_allocate_kernel_memory-none n phdr m h = ground arith
