-- ===== src/Boot/Virtmap.antt =====
-- The virtual addresses that efi_get_virtmap gives to the runtime regions.
use dragon_stub.Base.{
  ℕ, ◌+◌, ◌*◌, ◌/◌, ◌%◌, ◌^◌, ◌≤◌, ◌<◌, ◌≡◌, refl, ap, arith, true, false, List, [], ◌∷◌,
  if◌then◌else◌, Bool-cases, inl, inr, leb, ◌&&◌,
}
use dragon_stub.Machine.{Desc, efi_page_size}
use dragon_stub.Align.{is_aligned, round_up, round_down, u64, sub64}
use dragon_stub.Align.Laws.{round_down_lem, round_up_lem}
use dragon_stub.Boot.{sz_64k, sz_2m, is_runtime, place_region, with_virtual, efi_get_virtmap}

abbrev pub bytes : Desc → ℕ
bytes d = d.number_of_pages * efi_page_size

-- The region's last byte has an address, and so has all that lies below `base`, with room for the
-- region, its offset in 64 KB and the rounding.
abbrev pub HasRoom : (base : ℕ) → Desc → Type 0
HasRoom base d =
    (d.physical_start + bytes d < 2 ^ 64) × (0 < base) × (base + bytes d + 2 ^ 22 < 2 ^ 64)

-- The address given with the rounded base `start`.
place_at :
    (d : Desc) (base start : ℕ)
    → HasRoom base d
    → start % sz_64k ≡ 0
    → base ≤ start
    → start ≤ base + 2 ^ 21
    → (paddr : ℕ) → paddr ≡ d.physical_start / sz_64k * sz_64k
    → (v : ℕ) → v ≡ u64 (d.physical_start + sub64 start paddr)
    → (next : ℕ) → next ≡ u64 (start + u64 (u64 (bytes d) + sub64 d.physical_start paddr))
    → (base ≤ v)
      × (v % sz_64k ≡ d.physical_start % sz_64k)
      × (v + bytes d ≤ next)
      × (next ≤ base + bytes d + 2 ^ 22)
place_at d base start room aligned below above paddr p v e next f =
    let offset : d.physical_start ≡ paddr + d.physical_start % sz_64k = omega arith in
    let v_eq : v ≡ start + d.physical_start % sz_64k = omega arith in
    let next_eq : next ≡ start + bytes d + d.physical_start % sz_64k = omega arith in
    (omega arith, omega arith, omega arith, omega arith)

place_region_lem :
    (d : Desc) (base : ℕ)
    → HasRoom base d
    → (base ≤ (place_region d base).0)
      × ((place_region d base).0 % sz_64k ≡ d.physical_start % sz_64k)
      × ((place_region d base).0 + bytes d ≤ (place_region d base).1)
      × ((place_region d base).1 ≤ base + bytes d + 2 ^ 22)
unfolding place_region
place_region_lem d base room =
    let large = round_up_lem 43 21 refl base room.1 (omega arith) in
    let small = round_up_lem 48 16 refl base room.1 (omega arith) in
    let start = round_up base (
      if is_aligned d.physical_start sz_2m
        && leb sz_2m
            (u64 (u64 (bytes d) + sub64 d.physical_start (round_down d.physical_start sz_64k)))
      then sz_2m
      else sz_64k) in
    place_at d base start room (ground (arith, large, small)) (ground (arith, large, small))
      (ground (arith, large, small)) _ (round_down_lem 48 16 refl d.physical_start (omega arith)) _
      refl _ refl

-- The regions lie one behind the other from `lo` on, each at its physical offset in 64 KB.
abbrev pub Chain : (lo : ℕ) → List Desc → Type 0
Chain lo [] = Unit
Chain lo (d ∷ ds) =
    (lo ≤ d.virtual_start)
    × (d.virtual_start % sz_64k ≡ d.physical_start % sz_64k)
    × Chain (d.virtual_start + bytes d) ds

-- There is room for all runtime regions of the map.
abbrev pub Fits : (base : ℕ) → List Desc → Type 0
Fits base [] = Unit
Fits base (d ∷ ds) =
    (is_runtime d ≡ true → HasRoom base d)
    × Fits (if is_runtime d then base + bytes d + 2 ^ 22 else base) ds

Chain-le : (lo hi : ℕ) (ds : List Desc) → lo ≤ hi → Chain hi ds → Chain lo ds
Chain-le lo hi [] h c = tt
Chain-le lo hi (d ∷ ds) h c = (omega (arith, c.0), c.1, c.2)

Fits-le : (lo hi : ℕ) (ds : List Desc) → 0 < lo → lo ≤ hi → Fits hi ds → Fits lo ds
Fits-le lo hi [] pos h c = tt
Fits-le lo hi (d ∷ ds) pos h c = (
  λ t. omega (arith, c.0 t),
  Fits-le (if is_runtime d then lo + bytes d + 2 ^ 22 else lo)
      (if is_runtime d then hi + bytes d + 2 ^ 22 else hi) ds (ground arith) (ground arith) c.1,
)

runtime-Chain :
    (ds : List Desc) (base : ℕ)
    → 0 < base
    → Fits base ds
    → Chain base (efi_get_virtmap false ds base).1
unfolding efi_get_virtmap
runtime-Chain [] base pos fits = tt
runtime-Chain (d ∷ ds) base pos fits = elim (Bool-cases (is_runtime d)) [
  | inr other ↦ rw other (runtime-Chain ds base pos (rw other at fits.1))
  | inl runtime ↦
      let (above, offset, ends, next) = place_region_lem d base (fits.0 runtime) in
      let after = (place_region d base).1 in
      let rest =
        runtime-Chain ds after (omega arith)
          (Fits-le after (base + bytes d + 2 ^ 22) ds (omega arith) next (rw runtime at fits.1)) in
      rw runtime (
        above,
        offset,
        Chain-le ((place_region d base).0 + bytes d) after (efi_get_virtmap false ds after).1 ends
            rest,
      )
]

-- The descriptors of a list without their virtual addresses, and of these the runtime regions.
abbrev pub unplaced : List Desc → List Desc
unplaced [] = []
unplaced (d ∷ ds) = with_virtual d 0 ∷ unplaced ds

abbrev pub runtime_regions : List Desc → List Desc
runtime_regions [] = []
runtime_regions (d ∷ ds) = if is_runtime d then d ∷ runtime_regions ds else runtime_regions ds

efi_get_virtmap-unplaced :
    (ds : List Desc) (base : ℕ)
    → unplaced (efi_get_virtmap false ds base).1 ≡ unplaced (runtime_regions ds)
unfolding efi_get_virtmap
efi_get_virtmap-unplaced [] base = refl
efi_get_virtmap-unplaced (d ∷ ds) base = elim (Bool-cases (is_runtime d)) [
  | inr other ↦ rw other (efi_get_virtmap-unplaced ds base)
  | inl runtime ↦
      rw runtime
        (ap (λ rest. with_virtual d 0 ∷ rest) (efi_get_virtmap-unplaced ds (place_region d base).1))
]

-- With efi_novamap off, for a base above 0 and with room for the regions below 2^64, the runtime map
-- has just the runtime regions of the map, in their order, with virtual addresses one behind the other
-- from the base on, so that no two overlap, each at the offset in its 64 KB page that it has
-- physically.
pub efi_get_virtmap-Chain :
    (ds : List Desc) (base : ℕ)
    → 0 < base
    → Fits base ds
    → Chain base (efi_get_virtmap false ds base).1
      × (unplaced (efi_get_virtmap false ds base).1 ≡ unplaced (runtime_regions ds))
efi_get_virtmap-Chain ds base pos fits =
    (runtime-Chain ds base pos fits, efi_get_virtmap-unplaced ds base)
