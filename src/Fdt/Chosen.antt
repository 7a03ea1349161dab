-- ===== src/Fdt/Chosen.antt =====
-- What update_fdt of apps/fdt.c sets in /chosen.
use dragon_stub.Base.{
  ℕ, ◌≡◌, refl, ◌∙◌, arith, false, not, Bool-cases, inl, inr, Option, none, some, List, [], ◌∷◌,
  ◌++◌, ◌==◌, ltb, if◌then◌else◌,
}
use dragon_stub.Machine.{Machine, Memory, pure, ◌>>=◌, get_memory}
use dragon_stub.Text.Str.{cstr, strlen}
use dragon_stub.Platform.{is_negative}
use dragon_stub.Fdt.Values.{Values, with_all, KeepsTree, Set, Set-cons, set_all-Set}
use dragon_stub.Fdt.{Libfdt, Property, set_all, runtime_properties, fill_chosen, on_memory}

-- What update_fdt sets in /chosen: a command line that is not empty, and the placeholders.
abbrev pub bootargs_setting : Option (List ℕ) → List (Property × List ℕ)
bootargs_setting none = []
bootargs_setting (some s) =
    if ltb 0 (strlen s) then (Property.bootargs, cstr s ++ (0 ∷ [])) ∷ [] else []

abbrev pub settings : (system_table : ℕ) (cmdline : Option (List ℕ)) → List (Property × List ℕ)
settings system_table cmdline = bootargs_setting cmdline ++ runtime_properties system_table

module _ (lib : Libfdt) (laws : KeepsTree lib) (fdt system_table : ℕ) where
  -- update_fdt once /chosen is found, from the command line on.
  abbrev fill_from : (node : ℕ) (cmdline : Option (List ℕ)) → Machine → ℕ × Machine
  fill_from node cmdline = do
    status ← elim cmdline [
      | none ↦ pure 0
      | some s ↦
          if ltb 0 (strlen s)
          then on_memory (λ g. lib.setprop g fdt node Property.bootargs (cstr s ++ (0 ∷ [])))
          else pure 0
    ]
    if not (status == 0) then pure status else do
      g ← get_memory
      set_all (λ h. lib.setprop h fdt (lib.chosen_offset g fdt)) (runtime_properties system_table)

  fill_from-Set :
      (node : ℕ) (cmdline : Option (List ℕ)) (m : Machine)
      → lib.chosen_offset m.memory fdt ≡ node
      → (fill_from node cmdline m).0 ≡ 0
      → Set lib laws fdt
          (settings system_table cmdline)
          m.memory
          (fill_from node cmdline m).1.memory
  fill_from-Set node none m at e =
      set_all-Set lib laws fdt (lib.chosen_offset m.memory fdt) (runtime_properties system_table) m
        refl e
  fill_from-Set node (some s) m at e = elim (Bool-cases (ltb 0 (strlen s))) [
    | inr empty ↦ rw empty (
        set_all-Set lib laws fdt (lib.chosen_offset m.memory fdt) (runtime_properties system_table)
          m refl (rw empty at e))
    | inl line ↦
        let done = lib.setprop m.memory fdt node Property.bootargs (cstr s ++ (0 ∷ [])) in
        elim (Bool-cases (done.0 == 0)) [
          | inr bad ↦ absurd (ground (arith, e, line, bad))
          | inl good ↦
              let next : Machine = record m { memory = done.1 } in
              let rest =
                set_all-Set lib laws fdt (lib.chosen_offset done.1 fdt)
                  (runtime_properties system_table) next refl (rw (line, good) at e) in
              rw (line, good)
                (Set-cons lib laws fdt node (Property.bootargs, cstr s ++ (0 ∷ []))
                  (runtime_properties system_table) m.memory _ at (ground arith) rest)
        ]
  ]

  -- The new values, over those that /chosen had, and the reservations.
  abbrev pub Filled : (cmdline : Option (List ℕ)) → (before after : Memory) → Type 0
  Filled cmdline f g =
      ((base : Values) × ((q : Property)
          → laws.chosen g fdt q ≡ with_all (settings system_table cmdline) base q))
      × (lib.num_mem_rsv g fdt ≡ lib.num_mem_rsv f fdt)

  -- The search for /chosen, and its addition where it is missing.
  abbrev located : Machine → ℕ × Machine
  located m =
      (if is_negative (lib.chosen_offset m.memory fdt)
          then on_memory (λ g. lib.add_chosen g fdt)
          else pure (lib.chosen_offset m.memory fdt))
        m

  located-offset :
      (m : Machine)
      → is_negative (located m).0 ≡ false
      → (lib.chosen_offset (located m).1.memory fdt ≡ (located m).0)
        × (lib.num_mem_rsv (located m).1.memory fdt ≡ lib.num_mem_rsv m.memory fdt)
  located-offset m good = elim (Bool-cases (is_negative (lib.chosen_offset m.memory fdt))) [
    | inr there ↦ rw there (refl, refl)
    | inl missing ↦
        let fine : is_negative (lib.add_chosen m.memory fdt).0 ≡ false = rw missing at good in
        rw missing (laws.add_offset m.memory fdt fine, laws.add_reservations m.memory fdt fine)
  ]

  pub fill_chosen-Filled :
      (cmdline : Option (List ℕ)) (m : Machine)
      → (fill_chosen lib system_table fdt cmdline m).0 ≡ 0
      → Filled cmdline m.memory (fill_chosen lib system_table fdt cmdline m).1.memory
  unfolding fill_chosen
  fill_chosen-Filled cmdline m e = elim (Bool-cases (is_negative (located m).0)) [
    | inl bad ↦ absurd (ground (arith, rw bad at e, bad))
    | inr good ↦
        let place = located-offset m good in
        let set = fill_from-Set (located m).0 cmdline (located m).1 place.0 (rw good at e) in
        rw good ((laws.chosen (located m).1.memory fdt, set.0), set.1 ∙ place.1)
  ]
