-- ===== src/Fdt/Update.antt =====
-- The device tree that update_fdt of apps/fdt.c makes for the kernel.
use dragon_stub.Base.{
  ℕ, zero, suc, ◌-◌, ◌^◌, ◌≡◌, refl, sym, ◌∙◌, arith, Bool, true, false, Bool-cases, inl, inr, ◌⊎◌,
  Option, none, some, List, [], ◌∷◌, ◌++◌, ◌==◌, ltb, if◌then◌else◌,
}
use mathlib.Core.Path.{subst}
use dragon_stub.Machine.{Machine, Memory, efi_success}
use dragon_stub.Text.Str.{cstr, strlen}
use dragon_stub.Platform.{is_negative}
use dragon_stub.Fdt.Values.{Values, with_value, with_all, KeepsTree}
use dragon_stub.Fdt.Chosen.{bootargs_setting, settings, fill_chosen-Filled}
use dragon_stub.Fdt.{
  Libfdt, Property, to_be, runtime_properties, delete_reservations, fill_chosen, update_fdt,
  usable_fdt, create_fdt,
}

module _ (lib : Libfdt) (laws : KeepsTree lib) (fdt : ℕ) where
  -- One of the calls of fdt_del_mem_rsv in the loop reports an error.
  abbrev pub refused : (n : ℕ) → Memory → Bool
  refused zero f = false
  refused (suc n) f =
      let later = refused n (lib.del_mem_rsv f fdt n).1 in
      if (lib.del_mem_rsv f fdt n).0 == 0 then later else true

  delete_reservations-num_mem_rsv :
      (n : ℕ) (f : Memory)
      → lib.num_mem_rsv f fdt ≡ n
      → is_negative n ≡ false
      → (lib.num_mem_rsv (delete_reservations lib fdt n f) fdt ≡ 0) ⊎ (refused n f ≡ true)
  unfolding delete_reservations
  delete_reservations-num_mem_rsv zero f h counted = inl h
  delete_reservations-num_mem_rsv (suc n) f h counted =
      elim (Bool-cases ((lib.del_mem_rsv f fdt n).0 == 0)) [
        | inr failed ↦ inr (rw failed refl)
        | inl ok ↦ rw ok (
            delete_reservations-num_mem_rsv n (lib.del_mem_rsv f fdt n).1
              (laws.delete_one f fdt n h counted (ground arith)) (ground arith))
      ]

  -- No reservation is left in `g`, unless libfdt could not count those of `f`, or refused to delete
  -- one of them.
  abbrev pub NoneReserved : (f g : Memory) → Type 0
  NoneReserved f g =
      (lib.num_mem_rsv g fdt ≡ 0)
      ⊎ (is_negative (lib.num_mem_rsv f fdt) ≡ true)
      ⊎ (refused (lib.num_mem_rsv f fdt) f ≡ true)

  abbrev deleted : Memory → Memory
  deleted f =
      let n = lib.num_mem_rsv f fdt in
      delete_reservations lib fdt (if is_negative n then 0 else n) f

  deleted-NoneReserved : (f : Memory) → NoneReserved f (deleted f)
  deleted-NoneReserved f = elim (Bool-cases (is_negative (lib.num_mem_rsv f fdt))) [
    | inl uncounted ↦ inr (inl uncounted)
    | inr counted ↦ elim (delete_reservations-num_mem_rsv (lib.num_mem_rsv f fdt) f refl counted) [
      | inl gone ↦ inl (rw counted gone)
      | inr kept ↦ inr (inr kept)
    ]
  ]

  -- The command line is none, or empty, or stands in /chosen with its terminator.
  abbrev pub BootArgs : Option (List ℕ) → Memory → Type 0
  BootArgs cmdline f =
      (bootargs_setting cmdline ≡ [])
      ⊎ ((s : List ℕ) × (cmdline ≡ some s)
          × (laws.chosen f fdt Property.bootargs ≡ some (cstr s ++ (0 ∷ []))))

  -- The properties for the EFI runtime services, with the placeholders for the memory map.
  abbrev pub RuntimeValues : (system_table : ℕ) → Memory → Type 0
  RuntimeValues system_table f =
      (laws.chosen f fdt Property.uefi_system_table ≡ some (to_be 8 system_table))
      × (laws.chosen f fdt Property.uefi_mmap_start ≡ some (to_be 8 (2 ^ 64 - 1)))
      × (laws.chosen f fdt Property.uefi_mmap_size ≡ some (to_be 4 (2 ^ 32 - 1)))
      × (laws.chosen f fdt Property.uefi_mmap_desc_size ≡ some (to_be 4 (2 ^ 32 - 1)))
      × (laws.chosen f fdt Property.uefi_mmap_desc_ver ≡ some (to_be 4 (2 ^ 32 - 1)))

  module _ (system_table : ℕ) (g : Memory) where
    with_all-RuntimeValues :
        (values : Values)
        → ((q : Property)
            → laws.chosen g fdt q ≡ with_all (runtime_properties system_table) values q)
        → RuntimeValues system_table g
    with_all-RuntimeValues values h = (h _, h _, h _, h _, h _)

    settings-Handed :
        (cmdline : Option (List ℕ)) (base : Values)
        → ((q : Property) → laws.chosen g fdt q ≡ with_all (settings system_table cmdline) base q)
        → RuntimeValues system_table g × BootArgs cmdline g
    settings-Handed none base h = (with_all-RuntimeValues base h, inl refl)
    settings-Handed (some s) base h = elim (Bool-cases (ltb 0 (strlen s))) [
      | inr empty ↦ (with_all-RuntimeValues base (rw empty at h), inl (rw empty refl))
      | inl line ↦
          let h' = rw line at h in
          (
            with_all-RuntimeValues (with_value Property.bootargs (cstr s ++ (0 ∷ [])) base) h',
            inr (s, refl, h' Property.bootargs),
          )
    ]

  pack-kept :
      (system_table : ℕ) (cmdline : Option (List ℕ)) (before f : Memory)
      → RuntimeValues system_table f × BootArgs cmdline f × NoneReserved before f
      → RuntimeValues system_table (lib.pack f fdt)
        × BootArgs cmdline (lib.pack f fdt)
        × NoneReserved before (lib.pack f fdt)
  pack-kept system_table cmdline before f (values, args, none_left) = (
    (
      laws.pack_value f fdt _ ∙ values.0,
      laws.pack_value f fdt _ ∙ values.1,
      laws.pack_value f fdt _ ∙ values.2,
      laws.pack_value f fdt _ ∙ values.3,
      laws.pack_value f fdt _ ∙ values.4,
    ),
    elim args [
      | inl no_args ↦ inl no_args
      | inr (s, is, value) ↦ inr (s, is, laws.pack_value f fdt _ ∙ value)
    ],
    elim none_left [ inl gone ↦ inl (laws.pack_reservations f fdt ∙ gone) | inr kept ↦ inr kept ],
  )

  -- When update_fdt succeeds over a libfdt that keeps to its documentation, the new tree has in
  -- /chosen the address of the system table, the placeholders for the memory map and the command
  -- line, if there is one, and it has no memory reservations, unless libfdt could not count those of
  -- the tree it began with or reported an error for the deletion of one.
  pub update_fdt-chosen :
      (system_table orig_fdt orig_fdt_size new_fdt_size : ℕ) (cmdline : Option (List ℕ))
      (m : Machine)
      → (update_fdt lib system_table orig_fdt orig_fdt_size fdt new_fdt_size cmdline m).0
        ≡ efi_success
      → let f =
          (update_fdt lib system_table orig_fdt orig_fdt_size fdt new_fdt_size cmdline
            m).1.memory in
        let copied = (create_fdt lib orig_fdt fdt new_fdt_size m).1.memory in
        RuntimeValues system_table f × BootArgs cmdline f × NoneReserved copied f
  unfolding update_fdt
  update_fdt-chosen system_table orig_fdt orig_fdt_size new_fdt_size cmdline m e =
      let created = create_fdt lib orig_fdt fdt new_fdt_size m in
      let cleared : Machine = record created.1 { memory = deleted created.1.memory } in
      let filled = fill_chosen lib system_table fdt cmdline cleared in
      elim (Bool-cases (usable_fdt lib m.memory orig_fdt orig_fdt_size)) [
        | inr unusable ↦ absurd (ground (arith, e, unusable))
        | inl usable ↦ elim (Bool-cases (created.0 == 0)) [
          | inr uncreated ↦ absurd (ground (arith, e, usable, uncreated))
          | inl made ↦ elim (Bool-cases (filled.0 == 0)) [
            | inr unfilled ↦ absurd (ground (arith, e, usable, made, unfilled))
            | inl done ↦
                let set =
                  fill_chosen-Filled lib laws fdt system_table cmdline cleared
                    (ground (arith, done)) in
                let both = settings-Handed system_table filled.1.memory cmdline set.0.0 set.0.1 in
                let none_left : NoneReserved created.1.memory filled.1.memory =
                  elim (deleted-NoneReserved created.1.memory) [
                    | inl gone ↦ inl (set.1 ∙ gone)
                    | inr kept ↦ inr kept
                  ] in
                let final : (update_fdt lib system_table orig_fdt orig_fdt_size fdt new_fdt_size
                      cmdline m).1.memory
                    ≡ lib.pack filled.1.memory fdt =
                  ground (arith, usable, made, done) in
                subst
                  (λ f.
                    RuntimeValues system_table f
                    × BootArgs cmdline f
                    × NoneReserved created.1.memory f)
                  (sym final)
                  (pack-kept system_table cmdline created.1.memory filled.1.memory
                    (both.0, both.1, none_left))
          ]
        ]
      ]
