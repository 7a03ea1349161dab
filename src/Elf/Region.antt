-- ===== src/Elf/Region.antt =====
-- check_image_region of apps/elf.c: whether one region of the memory map covers an image.
use dragon_stub.Base.{
  ℕ, ◌+◌, ◌*◌, ◌^◌, ◌≤◌, ◌<◌, ◌≡◌, arith, Bool, true, false, ◌&&◌, Bool-cases, inl, inr, ◌⊎◌, none,
  some, Option-cases, List, [], ◌∷◌, ltb, leb, if◌then◌else◌,
}
use dragon_stub.Machine.{
  Desc, Firmware, Machine, M, pure, ◌>>=◌, ◌>>◌, efi_page_size, call_free_pool,
}
use dragon_stub.Align.{u64}
use dragon_stub.Pages.{BootMemmap, efi_get_memory_map}
use dragon_stub.Pages.Map.{efi_get_memory_map-pools}
use dragon_stub.Pages.Ownership.{pools}

abbrev region_end : Desc → ℕ
region_end md = u64 (md.physical_start + u64 (md.number_of_pages * efi_page_size))

-- The loop over the descriptors: the first region that holds `base` decides.
unfoldable pub region_covers : List Desc → (base size : ℕ) → Bool
region_covers [] base size = false
region_covers (md ∷ map) base size =
    let rest = region_covers map base size in
    if leb md.physical_start base && ltb base (region_end md)
    then leb (u64 (base + size)) (region_end md)
    else rest

unfoldable pub check_image_region : Firmware → (base size : ℕ) → M Bool
check_image_region fw base size = do
  map ← efi_get_memory_map fw false
  elim map.1 [
    | none ↦ pure false
    | some m ↦ (do let ret = region_covers m.descs base size; call_free_pool m.address; pure ret)
  ]

-- A region of the list that holds all bytes from `base` on.
abbrev pub Covered : List Desc → (base size : ℕ) → Type 0
Covered [] base size = ⊥
Covered (md ∷ map) base size =
    ((md.physical_start ≤ base)
      × (base + size ≤ md.physical_start + md.number_of_pages * efi_page_size))
    ⊎ Covered map base size

region_covers-Covered :
    (map : List Desc) (base size : ℕ)
    → base + size < 2 ^ 64
    → region_covers map base size ≡ true
    → Covered map base size
unfolding region_covers
region_covers-Covered [] base size fits h = absurd (cc h)
region_covers-Covered (md ∷ map) base size fits h =
    elim (Bool-cases (leb md.physical_start base && ltb base (region_end md))) [
      | inl inside ↦ inl (ground (arith, inside, rw inside at h))
      | inr outside ↦ inr (region_covers-Covered map base size fits (rw outside at h))
    ]

-- check_image_region gives its copy of the memory map back, and says no, or a region of the map
-- that GetMemoryMap handed out holds the whole image. The end of the image is no address that
-- wraps.
pub check_image_region-Covered :
    (fw : Firmware) (base size : ℕ) (m : Machine)
    → base + size < 2 ^ 64
    → let r = check_image_region fw base size m in
      (pools r.1.history ≡ pools m.history)
      × (r.1.memory ≡ m.memory)
      × ((r.0 ≡ false)
          ⊎ ((map : BootMemmap) × ((efi_get_memory_map fw false m).0.1 ≡ some map)
              × Covered map.descs base size))
unfolding check_image_region
check_image_region-Covered fw base size m fits =
    let got = efi_get_memory_map fw false m in
    let kept = efi_get_memory_map-pools fw false m in
    elim (Option-cases got.0.1) [
      | inl no_map ↦ (
        ground (arith, no_map, rw no_map at kept.1),
        ground (arith, no_map, kept.2),
        inl (ground (arith, no_map)),
      )
      | inr (map, is) ↦ (
        ground (arith, is, rw is at kept.1),
        ground (arith, is, kept.2),
        elim (Bool-cases (region_covers map.descs base size)) [
          | inl covers ↦ inr (map, is, region_covers-Covered map.descs base size fits covers)
          | inr uncovered ↦ inl (ground (arith, is, uncovered))
        ],
      )
    ]
