-- ===== src/Fdt/Memmap.antt =====
-- What the kernel reads in its device tree after update_fdt_memmap of apps/fdt.c.
use dragon_stub.Base.{ℕ, ◌+◌, ◌≡◌, ◌≢◌, ◌∙◌, arith, List}
use dragon_stub.Machine.{Machine, Memory, efi_success}
use dragon_stub.Align.{u32}
use dragon_stub.Pages.{BootMemmap, sizeof_boot_memmap}
use dragon_stub.Fdt.{Libfdt, Property, set_all, to_be, update_fdt_memmap}

-- What libfdt documents of fdt_setprop_inplace, with a reader of the properties of /chosen: where it
-- succeeds, the property has the new value, and each other one the value that it had.
pub record ReadsBack (lib : Libfdt) : Type 0 where
  pub getprop : Memory → (fdt node : ℕ) → Property → List ℕ
  pub same :
      (f : Memory) (fdt node : ℕ) (p : Property) (v : List ℕ)
      → (lib.setprop_inplace f fdt node p v).0 ≡ 0
      → getprop (lib.setprop_inplace f fdt node p v).1 fdt node p ≡ v
  pub other :
      (f : Memory) (fdt node : ℕ) (p q : Property) (v : List ℕ)
      → q ≢ p
      → (lib.setprop_inplace f fdt node p v).0 ≡ 0
      → getprop (lib.setprop_inplace f fdt node p v).1 fdt node q ≡ getprop f fdt node q

module _ (lib : Libfdt) (laws : ReadsBack lib) (fdt node : ℕ) where
  abbrev written : Memory → Property → List ℕ → Memory
  written f p v = (lib.setprop_inplace f fdt node p v).1

  abbrev Accepted : Memory → Property → List ℕ → Type 0
  Accepted f p v = (lib.setprop_inplace f fdt node p v).0 ≡ 0

  -- Four different properties set one after the other can all be read afterwards.
  four_set :
      (f : Memory) (p q r s : Property) (a b c d : List ℕ)
      → (p ≢ q) × (p ≢ r) × (p ≢ s) × (q ≢ r) × (q ≢ s) × (r ≢ s)
      → Accepted f p a
      → Accepted (written f p a) q b
      → Accepted (written (written f p a) q b) r c
      → Accepted (written (written (written f p a) q b) r c) s d
      → let h = written (written (written (written f p a) q b) r c) s d in
        (laws.getprop h fdt node p ≡ a)
        × (laws.getprop h fdt node q ≡ b)
        × (laws.getprop h fdt node r ≡ c)
        × (laws.getprop h fdt node s ≡ d)
  four_set f p q r s a b c d (pq, pr, ps, qr, qs, rs) i j k l =
      let f1 = written f p a in
      let f2 = written f1 q b in
      let f3 = written f2 r c in
      (
        laws.other f3 fdt node s p d ps l
            ∙ laws.other f2 fdt node r p c pr k
            ∙ laws.other f1 fdt node q p b pq j
            ∙ laws.same f fdt node p a i,
        laws.other f3 fdt node s q d qs l
            ∙ laws.other f2 fdt node r q c qr k
            ∙ laws.same f1 fdt node q b j,
        laws.other f3 fdt node s r d rs l ∙ laws.same f2 fdt node r c k,
        laws.same f3 fdt node s d l,
      )

distinct :
    (Property.uefi_mmap_start ≢ Property.uefi_mmap_size)
    × (Property.uefi_mmap_start ≢ Property.uefi_mmap_desc_size)
    × (Property.uefi_mmap_start ≢ Property.uefi_mmap_desc_ver)
    × (Property.uefi_mmap_size ≢ Property.uefi_mmap_desc_size)
    × (Property.uefi_mmap_size ≢ Property.uefi_mmap_desc_ver)
    × (Property.uefi_mmap_desc_size ≢ Property.uefi_mmap_desc_ver)
distinct = ground arith

-- When update_fdt_memmap succeeds over a libfdt that keeps to its documentation, /chosen holds the
-- address of the descriptors, and the size of the map, the size of a descriptor and the version of
-- the descriptors in 32 bits, all with the highest byte first.
pub update_fdt_memmap-getprop :
    (lib : Libfdt) (laws : ReadsBack lib) (fdt : ℕ) (map : BootMemmap) (m : Machine)
    → (update_fdt_memmap lib fdt map m).0 ≡ efi_success
    → let node = lib.chosen_offset m.memory fdt in
      let f = (update_fdt_memmap lib fdt map m).1.memory in
      (laws.getprop f fdt node Property.uefi_mmap_start
        ≡ to_be 8 (map.address + sizeof_boot_memmap))
      × (laws.getprop f fdt node Property.uefi_mmap_size ≡ to_be 4 (u32 map.map_size))
      × (laws.getprop f fdt node Property.uefi_mmap_desc_size ≡ to_be 4 (u32 map.desc_size))
      × (laws.getprop f fdt node Property.uefi_mmap_desc_ver ≡ to_be 4 (u32 map.desc_ver))
unfolding update_fdt_memmap set_all
update_fdt_memmap-getprop lib laws fdt map m e = ground (
  arith,
  four_set lib laws fdt (lib.chosen_offset m.memory fdt) m.memory Property.uefi_mmap_start
      Property.uefi_mmap_size Property.uefi_mmap_desc_size Property.uefi_mmap_desc_ver
      (to_be 8 (map.address + sizeof_boot_memmap)) (to_be 4 (u32 map.map_size))
      (to_be 4 (u32 map.desc_size)) (to_be 4 (u32 map.desc_ver)) distinct,
)
