-- ===== src/Fdt/Values.antt =====
-- The properties of /chosen, and what libfdt documents of setting them, for apps/fdt.c.
use dragon_stub.Base.{
  ℕ, suc, ◌≡◌, refl, ◌∙◌, arith, false, Bool-cases, inl, inr, Option, some, List, [], ◌∷◌, ◌==◌,
  if◌then◌else◌,
}
use dragon_stub.Machine.{Machine, Memory}
use dragon_stub.Platform.{is_negative}
use dragon_stub.Fdt.{Libfdt, Property, set_all}

abbrev pub property_number : Property → ℕ
property_number Property.address_cells = 0
property_number Property.size_cells = 1
property_number Property.bootargs = 2
property_number Property.uefi_system_table = 3
property_number Property.uefi_mmap_start = 4
property_number Property.uefi_mmap_size = 5
property_number Property.uefi_mmap_desc_size = 6
property_number Property.uefi_mmap_desc_ver = 7

-- The values of properties, by their names.
abbrev pub Values : Type 0
Values = Property → Option (List ℕ)

abbrev pub with_value : Property → List ℕ → Values → Values
with_value p v values q = if property_number p == property_number q then some v else values q

-- What libfdt documents of the tree at `fdt`: a property that was set can be read, in the node at
-- its offset, and nothing else is; a new node is where fdt_add_subnode says; fdt_del_mem_rsv takes
-- one entry out where it reports success; fdt_pack only moves.
pub record KeepsTree (lib : Libfdt) : Type 0 where
  -- The properties of /chosen.
  pub chosen : Memory → (fdt : ℕ) → Values
  pub set_value :
      (f : Memory) (fdt node : ℕ) (p q : Property) (v : List ℕ)
      → lib.chosen_offset f fdt ≡ node
      → (lib.setprop f fdt node p v).0 ≡ 0
      → chosen (lib.setprop f fdt node p v).1 fdt q ≡ with_value p v (chosen f fdt) q
  pub set_offset :
      (f : Memory) (fdt node : ℕ) (p : Property) (v : List ℕ)
      → lib.chosen_offset f fdt ≡ node
      → (lib.setprop f fdt node p v).0 ≡ 0
      → lib.chosen_offset (lib.setprop f fdt node p v).1 fdt ≡ node
  pub set_reservations :
      (f : Memory) (fdt node : ℕ) (p : Property) (v : List ℕ)
      → (lib.setprop f fdt node p v).0 ≡ 0
      → lib.num_mem_rsv (lib.setprop f fdt node p v).1 fdt ≡ lib.num_mem_rsv f fdt
  pub add_offset :
      (f : Memory) (fdt : ℕ)
      → is_negative (lib.add_chosen f fdt).0 ≡ false
      → lib.chosen_offset (lib.add_chosen f fdt).1 fdt ≡ (lib.add_chosen f fdt).0
  pub add_reservations :
      (f : Memory) (fdt : ℕ)
      → is_negative (lib.add_chosen f fdt).0 ≡ false
      → lib.num_mem_rsv (lib.add_chosen f fdt).1 fdt ≡ lib.num_mem_rsv f fdt
  pub delete_one :
      (f : Memory) (fdt n : ℕ)
      → lib.num_mem_rsv f fdt ≡ suc n
      → is_negative (suc n) ≡ false
      → (lib.del_mem_rsv f fdt n).0 ≡ 0
      → lib.num_mem_rsv (lib.del_mem_rsv f fdt n).1 fdt ≡ n
  pub pack_value :
      (f : Memory) (fdt : ℕ) (q : Property) → chosen (lib.pack f fdt) fdt q ≡ chosen f fdt q
  pub pack_reservations :
      (f : Memory) (fdt : ℕ) → lib.num_mem_rsv (lib.pack f fdt) fdt ≡ lib.num_mem_rsv f fdt

-- The values after properties are set one after the other.
abbrev pub with_all : List (Property × List ℕ) → Values → Values
with_all [] values = values
with_all (p ∷ ps) values = with_all ps (with_value p.0 p.1 values)

with_all-same :
    (ps : List (Property × List ℕ)) (a b : Values)
    → ((q : Property) → a q ≡ b q)
    → (q : Property) → with_all ps a q ≡ with_all ps b q
with_all-same [] a b same q = same q
with_all-same (p ∷ ps) a b same q =
    with_all-same ps (with_value p.0 p.1 a) (with_value p.0 p.1 b) (λ r. ground (arith, same r)) q

module _ (lib : Libfdt) (laws : KeepsTree lib) (fdt : ℕ) where
  -- Setting properties of /chosen leaves their values, and no more.
  abbrev pub Set : List (Property × List ℕ) → (before after : Memory) → Type 0
  Set ps f g =
      ((q : Property) → laws.chosen g fdt q ≡ with_all ps (laws.chosen f fdt) q)
      × (lib.num_mem_rsv g fdt ≡ lib.num_mem_rsv f fdt)

  -- One property, and those that are set after it.
  pub Set-cons :
      (node : ℕ) (p : Property × List ℕ) (ps : List (Property × List ℕ)) (f g : Memory)
      → lib.chosen_offset f fdt ≡ node
      → (lib.setprop f fdt node p.0 p.1).0 ≡ 0
      → Set ps (lib.setprop f fdt node p.0 p.1).1 g
      → Set (p ∷ ps) f g
  Set-cons node p ps f g at e rest = (
    λ q.
        rest.0 q
        ∙ with_all-same ps (laws.chosen (lib.setprop f fdt node p.0 p.1).1 fdt)
            (with_value p.0 p.1 (laws.chosen f fdt)) (λ r. laws.set_value f fdt node p.0 r p.1 at e)
            q,
    rest.1 ∙ laws.set_reservations f fdt node p.0 p.1 e,
  )

  pub set_all-Set :
      (node : ℕ) (ps : List (Property × List ℕ)) (m : Machine)
      → lib.chosen_offset m.memory fdt ≡ node
      → (set_all (λ h. lib.setprop h fdt node) ps m).0 ≡ 0
      → Set ps m.memory (set_all (λ h. lib.setprop h fdt node) ps m).1.memory
  unfolding set_all
  set_all-Set node [] m at e = (λ q. refl, refl)
  set_all-Set node (p ∷ ps) m at e =
      let done = lib.setprop m.memory fdt node p.0 p.1 in
      elim (Bool-cases (done.0 == 0)) [
        | inr bad ↦ absurd (ground (arith, e, bad))
        | inl good ↦
            let next : Machine = record m { memory = done.1 } in
            let set : done.0 ≡ 0 = ground arith in
            let rest =
              set_all-Set node ps next (laws.set_offset m.memory fdt node p.0 p.1 at set)
                (rw good at e) in
            rw good (Set-cons node p ps m.memory _ at set rest)
      ]
