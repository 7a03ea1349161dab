-- ===== src/Handover/Main/Ends.antt =====
-- How efi_main ends: with a status, or in the kernel.
use dragon_stub.Base.{
  ℕ, ◌≡◌, ◌≢◌, ◌⊎◌, refl, arith, ap, if◌then◌else◌, Bool, true, false, Option, none, some, List,
  Option-cases, inl, inr,
}
use dragon_stub.Machine.{Firmware, Memory, Machine, M}
use dragon_stub.Pages.{failed}
use dragon_stub.Platform.{ChosenLookup, check_platform_features}
use dragon_stub.Elf.Load.{PayloadInfo}
use dragon_stub.Fdt.{Libfdt}
use dragon_stub.CmdLine.Convert.{efi_convert_cmdline}
use dragon_stub.CmdLine.Efi.Returns.{efi_parse_options-returns}
use dragon_stub.Handover.{
  Outcome, bytes_at, find_elf, find_payload, efi_handle_cmdline, efi_boot_kernel, efi_stub_common,
}
use dragon_stub.Handover.Errors.{handed_over, efi_boot_kernel-handed_over}
use dragon_stub.Handover.Main.{
  is_error, LoadedImage, Layout, after_stub, boot_found, boot_payload, efi_main,
}

-- The stub returned or stopped, or the kernel was entered after boot services were left.
Ended : Outcome × Machine → Type 0
Ended r =
    ((r.0 ≡ Outcome.stopped) ⊎ ((status : ℕ) × (r.0 ≡ Outcome.returned status)))
    ⊎ ((entry : ℕ) × (fdt : ℕ) × (r.0 ≡ Outcome.entered entry r.1.globals.hartid fdt)
        × (handed_over r.1.history ≡ true))

efi_boot_kernel-Ended :
    (fw : Firmware) (lib : Libfdt) (handle system_table start image_end : ℕ) (info : PayloadInfo)
    (cmdline : Option (List ℕ)) (m : Machine)
    → Ended (efi_boot_kernel fw lib handle system_table start image_end info cmdline m)
unfolding Ended
efi_boot_kernel-Ended fw lib handle system_table start image_end info cmdline m =
    elim (efi_boot_kernel-handed_over fw lib handle system_table start image_end info cmdline m) [
      | inl (inl stops) ↦ inl (inl stops)
      | inl (inr (status, returned, error)) ↦ inl (inr (status, returned))
      | inr (entry, fdt, entered, left) ↦ inr (entry, fdt, entered, left)
    ]

returned-Ended : (status : ℕ) (m : Machine) → Ended (Outcome.returned status, m)
unfolding Ended
returned-Ended status m = inl (inr (status, refl))

if-Ended :
    (b : Bool) (x y : M Outcome) (m : Machine)
    → Ended (x m)
    → Ended (y m)
    → Ended ((if b then x else y) m)
if-Ended true x y m first second = first
if-Ended false x y m first second = second

efi_stub_common-Ended :
    (fw : Firmware) (lib : Libfdt) (chosen : ChosenLookup) (handle system_table start image_end : ℕ)
    (info : PayloadInfo) (cmdline : Option (List ℕ)) (m : Machine)
    → Ended (efi_stub_common fw lib chosen handle system_table start image_end info cmdline m)
unfolding efi_stub_common
efi_stub_common-Ended fw lib chosen handle system_table start image_end info cmdline m =
    if-Ended (failed (check_platform_features fw chosen m).0) _ _ _ (returned-Ended _ _)
      (efi_boot_kernel-Ended fw lib handle system_table start image_end info cmdline _)

-- efi_main returned an error or stopped, or it entered the kernel after boot services were left.
unfoldable pub EndedMain : Option Outcome × Machine → Type 0
EndedMain r =
    ((r.0 ≡ some Outcome.stopped)
      ⊎ ((status : ℕ) × (r.0 ≡ some (Outcome.returned status)) × (is_error status ≡ true)))
    ⊎ ((entry : ℕ) × (fdt : ℕ) × (r.0 ≡ some (Outcome.entered entry r.1.globals.hartid fdt))
        × (handed_over r.1.history ≡ true))

after_stub-EndedMain :
    (o : Outcome) (m : Machine) → Ended (o, m) → EndedMain (some (after_stub o), m)
unfolding Ended EndedMain
after_stub-EndedMain o m (inl (inl stops)) =
    inl (inl (ap (λ (p : Outcome). some (after_stub p)) stops))
after_stub-EndedMain o m (inl (inr (status, returned))) =
    inl (inl (ap (λ (p : Outcome). some (after_stub p)) returned))
after_stub-EndedMain o m (inr (entry, fdt, entered, left)) =
    inr (entry, fdt, ap (λ (p : Outcome). some (after_stub p)) entered, left)

returned-EndedMain :
    (status : ℕ) (m : Machine)
    → is_error status ≡ true
    → EndedMain (some (Outcome.returned status), m)
unfolding EndedMain
returned-EndedMain status m error = inl (inr (status, refl, error))

if-EndedMain :
    (b : Bool) (x y : M (Option Outcome)) (m : Machine)
    → (b ≡ true → EndedMain (x m))
    → EndedMain (y m)
    → EndedMain ((if b then x else y) m)
if-EndedMain true x y m first second = first refl
if-EndedMain false x y m first second = second

find_payload-error :
    (f : Memory) (first last : ℕ)
    → (find_payload f first last).1 ≡ none
    → is_error (find_payload f first last).0 ≡ true
unfolding find_payload find_elf
find_payload-error f first last nothing = ground arith

module _ (fw : Firmware) (lib : Libfdt) (chosen : ChosenLookup) (layout : Layout) where
  boot_found-EndedMain :
      (handle system_table : ℕ) (cmdline : Option (List ℕ)) (status : ℕ)
      (found : Option PayloadInfo) (m : Machine)
      → (found ≡ none → is_error status ≡ true)
      → EndedMain (boot_found fw lib chosen layout handle system_table cmdline status found m)
  unfolding boot_found
  boot_found-EndedMain handle system_table cmdline status none m error =
      returned-EndedMain status m (error refl)
  boot_found-EndedMain handle system_table cmdline status (some info) m error =
      after_stub-EndedMain _ _ (
        efi_stub_common-Ended fw lib chosen handle system_table layout.start layout.image_end info
          cmdline m)

  boot_payload-EndedMain :
      (handle system_table : ℕ) (status : Option ℕ) (cmdline : Option (List ℕ)) (m : Machine)
      → status ≢ none
      → EndedMain (boot_payload fw lib chosen layout handle system_table status cmdline m)
  unfolding boot_payload
  boot_payload-EndedMain handle system_table none cmdline m returns = absurd (returns refl)
  boot_payload-EndedMain handle system_table (some status) cmdline m returns =
      if-EndedMain (is_error status) _ _ m (returned-EndedMain status m) (
        boot_found-EndedMain handle system_table cmdline _ _ m
          (find_payload-error m.memory layout.payload_start layout.payload_end))

  efi_handle_cmdline-returns :
      (cmdline_ptr options options_size : ℕ) (m : Machine)
      → (efi_handle_cmdline fw cmdline_ptr options options_size m).0.0 ≢ none
  unfolding efi_handle_cmdline
  efi_handle_cmdline-returns cmdline_ptr options options_size m =
      let converted = efi_convert_cmdline fw options options_size m in
      elim (Option-cases converted.0) [
        | inl nothing ↦ ground (arith, nothing)
        | inr (at, got) ↦
            let cmdline = bytes_at converted.1.memory at.0 at.1 in
            let parsed = (efi_parse_options-returns fw cmdline converted.1).0 in
            ground (arith, got, parsed)
      ]

  -- efi_main never returns EFI_SUCCESS: it returns an error, stops in efi_todo, or enters the kernel, and
  -- the last only after a successful ExitBootServices with the key of the GetMemoryMap just before it,
  -- which no call followed but one of SetVirtualAddressMap.
  pub efi_main-EndedMain :
      (opened : ℕ × LoadedImage) (handle system_table : ℕ) (m : Machine)
      → EndedMain (efi_main fw lib chosen layout opened handle system_table m)
  unfolding efi_main
  efi_main-EndedMain opened handle system_table m =
      if-EndedMain (is_error opened.0) _ _ m (returned-EndedMain opened.0 m) (
        boot_payload-EndedMain handle system_table _ _ _ (
          efi_handle_cmdline-returns layout.cmdline_ptr opened.1.load_options
            opened.1.load_options_size m))
