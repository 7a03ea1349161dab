-- ===== src/Handover/Callback.antt =====
-- exit_boot_func of apps/fdt.c as the callback of efi_exit_boot_services.
use dragon_stub.Base.{ℕ, ◌≤◌, ◌≡◌, refl, arith, true, List, [], ◌∷◌}
use dragon_stub.Machine.{Firmware, Machine, Memory, efi_success}
use dragon_stub.Pages.{BootMemmap}
use dragon_stub.Boot.{efi_get_virtmap, efi_rt_virtual_base, efi_exit_boot_services}
use dragon_stub.Boot.Exit.{exits, is_disciplined, efi_exit_boot_services-is_disciplined}
use dragon_stub.Boot.Key.{left_with_current_key, efi_exit_boot_services-key}
use dragon_stub.Fdt.{Libfdt, Property, set_all, memmap_properties, update_fdt_memmap}
use dragon_stub.Handover.{ExitBoot, exit_boot_func}

set_all-history :
    (set : Memory → Property → List ℕ → ℕ × Memory) (ps : List (Property × List ℕ)) (m : Machine)
    → ((set_all set ps m).1.history ≡ m.history) × ((set_all set ps m).1.globals ≡ m.globals)
unfolding set_all
set_all-history set [] m = (refl, refl)
set_all-history set (p ∷ ps) m =
    ground (arith, set_all-history set ps (record m { memory = (set m.memory p.0 p.1).1 }))

update_fdt_memmap-history :
    (lib : Libfdt) (fdt : ℕ) (b : BootMemmap) (m : Machine)
    → ((update_fdt_memmap lib fdt b m).1.history ≡ m.history)
      × ((update_fdt_memmap lib fdt b m).1.globals ≡ m.globals)
unfolding update_fdt_memmap
update_fdt_memmap-history lib fdt b m = ground (
  arith,
  set_all-history (λ g. lib.setprop_inplace g fdt (lib.chosen_offset m.memory fdt))
      (memmap_properties b) m,
)

-- The callback changes memory only: no call, and no global variable.
pub exit_boot_func-history :
    (lib : Libfdt) (b : BootMemmap) (p : ExitBoot) (m : Machine)
    → ((exit_boot_func lib b p m).1.history ≡ m.history)
      × ((exit_boot_func lib b p m).1.globals ≡ m.globals)
unfolding exit_boot_func
exit_boot_func-history lib b p m =
    let virtmap = efi_get_virtmap m.globals.efi_novamap b.descs efi_rt_virtual_base in
    update_fdt_memmap-history lib p.new_fdt_addr (record b { descs = virtmap.0 }) m

-- The hand-over calls ExitBootServices at most twice, and after the first time makes no call but
-- GetMemoryMap and ExitBootServices, as UEFI demands.
pub exit_boot_func-is_disciplined :
    (fw : Firmware) (lib : Libfdt) (handle : ℕ) (p : ExitBoot) (m : Machine)
    → exits m.history ≡ 0
    → (is_disciplined (efi_exit_boot_services fw (exit_boot_func lib) handle p m).1.history ≡ true)
      × (exits (efi_exit_boot_services fw (exit_boot_func lib) handle p m).1.history ≤ 2)
exit_boot_func-is_disciplined fw lib handle p m =
    efi_exit_boot_services-is_disciplined fw (exit_boot_func lib)
      (λ b q n. (exit_boot_func-history lib b q n).0) handle p m

exit_boot_func-map_key :
    (lib : Libfdt) (b : BootMemmap) (p : ExitBoot) (m : Machine)
    → (exit_boot_func lib b p m).0.1.0.map_key ≡ b.map_key
unfolding exit_boot_func
exit_boot_func-map_key lib b p m = refl

-- When the hand-over reports success, the last call is ExitBootServices, which succeeded, with the
-- key of a GetMemoryMap that succeeded just before it.
pub exit_boot_func-key :
    (fw : Firmware) (lib : Libfdt) (handle : ℕ) (p : ExitBoot) (m : Machine)
    → (efi_exit_boot_services fw (exit_boot_func lib) handle p m).0.0 ≡ efi_success
    → left_with_current_key (efi_exit_boot_services fw (exit_boot_func lib) handle p m).1.history
      ≡ true
exit_boot_func-key fw lib handle p m =
    efi_exit_boot_services-key fw (exit_boot_func lib)
      (λ b q n. (exit_boot_func-history lib b q n).0) (exit_boot_func-map_key lib) handle p m
