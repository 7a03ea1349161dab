-- ===== src/Handover/Errors.antt =====
-- When efi_boot_kernel of apps/fdt.c enters the kernel, and what it reports otherwise.
use dragon_stub.Base.{
  ℕ, ◌-◌, ◌^◌, ◌≡◌, ◌≢◌, ◌⊎◌, arith, Bool, true, Option, none, List, [], ◌∷◌, Option-cases,
  Bool-cases, inl, inr, ◌==◌,
}
use dragon_stub.Machine.{Event, Firmware, History, Machine, efi_success, standstill}
use dragon_stub.Pages.{failed, efi_allocate_pages}
use dragon_stub.Boot.{efi_exit_boot_services, efi_alloc_virtmap}
use dragon_stub.Boot.Key.{left_with_current_key}
use dragon_stub.Fdt.{Libfdt, update_fdt}
use dragon_stub.Elf.Load.{PayloadInfo, load_elf}
use dragon_stub.Platform.{efi_get_secureboot}
use dragon_stub.Handover.{
  ExitBoot, Outcome, exit_boot_func, get_fdt, fail_exit, install_virtmap, leave_boot_services,
  max_fdt_size, build_fdt_and_exit, allocate_new_fdt_and_exit_boot, efi_boot_kernel,
}
use dragon_stub.Handover.Callback.{exit_boot_func-key}

-- Boot services were left, and no call followed but one of SetVirtualAddressMap.
abbrev pub handed_over : History → Bool
handed_over (Event.set_virtual_address_map size desc_size desc_ver status descs ∷ h) =
    left_with_current_key h
handed_over h = left_with_current_key h

left-handed_over : (h : History) → left_with_current_key h ≡ true → handed_over h ≡ true
left-handed_over (Event.exit_boot_services handle key status ∷ h) e = e
left-handed_over _ e = absurd (ground arith)

install_virtmap-handed_over :
    (fw : Firmware) (lib : Libfdt) (desc_size desc_ver : ℕ) (p : ExitBoot) (m : Machine)
    → left_with_current_key m.history ≡ true
    → handed_over (install_virtmap fw lib desc_size desc_ver p m).1.history ≡ true
unfolding install_virtmap
install_virtmap-handed_over fw lib desc_size desc_ver p m e =
    ground (arith, left-handed_over m.history e)

leave_boot_services-cases :
    (fw : Firmware) (lib : Libfdt) (handle size addr runtime_map desc_size desc_ver new : ℕ)
    (m : Machine)
    → let r = leave_boot_services fw lib handle size addr runtime_map desc_size desc_ver new m in
      ((r.0.0 ≢ efi_success) × (r.0.1 ≡ none))
      ⊎ ((r.0.0 ≡ efi_success) × (r.0.1 ≢ none) × (handed_over r.1.history ≡ true))
unfolding leave_boot_services fail_exit
leave_boot_services-cases fw lib handle size addr runtime_map desc_size desc_ver new m =
    let start : ExitBoot = record { boot_memmap = none; runtime_map = []; new_fdt_addr = new } in
    let done = efi_exit_boot_services fw (exit_boot_func lib) handle start m in
    ground (
      arith,
      exit_boot_func-key fw lib handle start m,
      install_virtmap-handed_over fw lib desc_size desc_ver done.0.1 done.1,
    )

-- The two ways in which the code after the allocation of the runtime map may end.
build_fdt_and_exit-cases :
    (fw : Firmware) (lib : Libfdt) (handle system_table runtime_map desc_size desc_ver : ℕ)
    (cmdline : Option (List ℕ)) (m : Machine)
    → let r =
        build_fdt_and_exit fw lib handle system_table runtime_map desc_size desc_ver cmdline m in
      ((r.0.0 ≢ efi_success) × (r.0.1 ≡ none))
      ⊎ ((r.0.0 ≡ efi_success) × (r.0.1 ≢ none) × (handed_over r.1.history ≡ true))
unfolding build_fdt_and_exit fail_exit
build_fdt_and_exit-cases fw lib handle system_table runtime_map desc_size desc_ver cmdline m =
    let s = (efi_get_secureboot fw m).1 in
    let fdt = get_fdt fw lib s in
    let new = efi_allocate_pages fw max_fdt_size (2 ^ 64 - 1) fdt.1 in
    elim (Option-cases new.0.1) [
      | inl nothing ↦ ground (arith, nothing)
      | inr (addr, e) ↦
          (let updated =
              update_fdt lib system_table fdt.0.0 fdt.0.1 addr max_fdt_size cmdline new.1 in
            ground (
              arith,
              e,
              leave_boot_services-cases fw lib handle fdt.0.1 fdt.0.0 runtime_map desc_size desc_ver
                  addr updated.1,
            ))
    ]

efi_alloc_virtmap-fails :
    (fw : Firmware) (m : Machine)
    → (efi_alloc_virtmap fw m).0.1 ≡ none
    → (efi_alloc_virtmap fw m).0.0 ≢ efi_success
unfolding efi_alloc_virtmap
efi_alloc_virtmap-fails fw m e = ground arith

allocate_new_fdt_and_exit_boot-cases :
    (fw : Firmware) (lib : Libfdt) (handle system_table : ℕ) (cmdline : Option (List ℕ))
    (m : Machine)
    → let r = allocate_new_fdt_and_exit_boot fw lib handle system_table cmdline m in
      ((r.0.0 ≢ efi_success) × (r.0.1 ≡ none))
      ⊎ ((r.0.0 ≡ efi_success) × (r.0.1 ≢ none) × (handed_over r.1.history ≡ true))
unfolding allocate_new_fdt_and_exit_boot
allocate_new_fdt_and_exit_boot-cases fw lib handle system_table cmdline m =
    let got = efi_alloc_virtmap fw m in
    elim (Option-cases got.0.1) [
      | inl nothing ↦ ground (
        arith,
        nothing,
        efi_alloc_virtmap-fails fw m nothing,
        build_fdt_and_exit-cases fw lib handle system_table 0 0 0 cmdline m,
      )
      | inr (v, e) ↦ ground (
        arith,
        e,
        build_fdt_and_exit-cases fw lib handle system_table 0 0 0 cmdline m,
        build_fdt_and_exit-cases fw lib handle system_table v.address v.desc_size v.desc_ver cmdline
            got.1,
      )
    ]

-- efi_boot_kernel enters the kernel only after ExitBootServices succeeded with the key of the
-- GetMemoryMap just before it, and no call followed but one of SetVirtualAddressMap. Otherwise it
-- returns an error, never EFI_SUCCESS, or stops in efi_todo.
pub efi_boot_kernel-handed_over :
    (fw : Firmware) (lib : Libfdt) (handle system_table start image_end : ℕ) (info : PayloadInfo)
    (cmdline : Option (List ℕ)) (m : Machine)
    → let r = efi_boot_kernel fw lib handle system_table start image_end info cmdline m in
      ((r.0 ≡ Outcome.stopped)
        ⊎ ((status : ℕ) × (r.0 ≡ Outcome.returned status) × (status ≢ efi_success)))
      ⊎ ((entry : ℕ) × (fdt : ℕ) × (r.0 ≡ Outcome.entered entry r.1.globals.hartid fdt)
          × (handed_over r.1.history ≡ true))
unfolding efi_boot_kernel
efi_boot_kernel-handed_over fw lib handle system_table start image_end info cmdline m =
    let loaded = load_elf fw start image_end info m in
    let r = allocate_new_fdt_and_exit_boot fw lib handle system_table cmdline loaded.1 in
    elim (Bool-cases (failed loaded.0.0)) [
      | inl bad ↦ inl (inr (loaded.0.0, ground (arith, bad), ground (arith, bad)))
      | inr good ↦
          elim (allocate_new_fdt_and_exit_boot-cases fw lib handle system_table cmdline loaded.1) [
            | inl (error, nothing) ↦ elim (Bool-cases (r.0.0 == standstill)) [
              | inl stops ↦ inl (inl (ground (arith, good, nothing, stops)))
              | inr ends ↦ inl (inr (r.0.0, ground (arith, good, nothing, ends), error))
            ]
            | inr (fine, something, left) ↦ elim (Option-cases r.0.1) [
              | inl nothing ↦ absurd (something nothing)
              | inr (new, e) ↦ inr (
                loaded.0.1.kernel_entry,
                new.0,
                ground (arith, good, e),
                ground (arith, good, e, left),
              )
            ]
          ]
    ]
