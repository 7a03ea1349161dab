-- ===== src/Pages/Ownership.antt =====
-- What the stub holds of the firmware's memory, read off the history of calls.
use dragon_stub.Base.{
  ℕ, ◌+◌, ◌*◌, ◌%◌, ◌≤◌, ◌≡◌, Bool, true, false, ◌||◌, ◌&&◌, not, List, [], ◌∷◌, ◌==◌, ltb, leb,
  if◌then◌else◌,
}
use dragon_stub.Machine.{Event, History, Firmware, efi_success, efi_page_size}

-- `p` lies in the `pages` pages from `address` on.
abbrev pub in_pages : (p address pages : ℕ) → Bool
in_pages p address pages = leb address p && ltb p (address + pages * efi_page_size)

-- Whether byte `p` lies in pages that were allocated and not given back since.
abbrev pub owns_step : ℕ → Event → Bool → Bool
owns_step p (Event.allocate_pages kind memory_type pages request status address) before =
    if status == efi_success then in_pages p address pages || before else before
owns_step p (Event.free_pages address pages) before = not (in_pages p address pages) && before
owns_step p _ before = before

abbrev pub owns : History → ℕ → Bool
owns [] p = false
owns (e ∷ h) p = owns_step p e (owns h p)

abbrev pub remove_first : ℕ → List ℕ → List ℕ
remove_first a [] = []
remove_first a (x ∷ xs) = if x == a then xs else x ∷ remove_first a xs

-- The pool allocations that were not freed.
abbrev pub pools_step : Event → List ℕ → List ℕ
pools_step (Event.allocate_pool memory_type size status address) before =
    if status == efi_success then address ∷ before else before
pools_step (Event.free_pool address) before = remove_first address before
pools_step _ before = before

abbrev pub pools : History → List ℕ
pools [] = []
pools (e ∷ h) = pools_step e (pools h)

-- What the UEFI specification says of AllocatePages with a maximum address: it hands out whole
-- pages below that address, none of which is in use.
pub record GrantsPages (fw : Firmware) : Type 0 where
  pub page_aligned :
      (h : History) (memory_type n request : ℕ)
      → (fw.allocate_pages h 1 memory_type n request).0 ≡ efi_success
      → (fw.allocate_pages h 1 memory_type n request).1 % efi_page_size ≡ 0
  pub below :
      (h : History) (memory_type n request : ℕ)
      → (fw.allocate_pages h 1 memory_type n request).0 ≡ efi_success
      → (fw.allocate_pages h 1 memory_type n request).1 + n * efi_page_size ≤ request + 1
  pub fresh :
      (h : History) (memory_type n request : ℕ)
      → (fw.allocate_pages h 1 memory_type n request).0 ≡ efi_success
      → (p : ℕ) → in_pages p (fw.allocate_pages h 1 memory_type n request).1 n ≡ true
      → owns h p ≡ false
