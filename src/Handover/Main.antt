-- ===== src/Handover/Main.antt =====
-- efi_main of apps/dragon_stub-main.c.
pub mod Ends
use dragon_stub.Base.{ℕ, ◌^◌, Bool, Option, none, some, List, leb, if◌then◌else◌}
use dragon_stub.Machine.{Firmware, M, pure, ◌>>=◌, get_memory}
use dragon_stub.Platform.{ChosenLookup}
use dragon_stub.Elf.Load.{PayloadInfo}
use dragon_stub.Fdt.{Libfdt}
use dragon_stub.Handover.{Outcome, find_payload, efi_handle_cmdline, efi_stub_common}

-- EFI_ERROR
abbrev pub is_error : (status : ℕ) → Bool
is_error status = leb (2 ^ 63) status

-- What EFI_LOADED_IMAGE says of the load options.
pub record LoadedImage : Type 0 where
  pub load_options : ℕ
  pub load_options_size : ℕ

-- When efi_stub_common returns, whatever its status, efi_main stops in efi_todo.
abbrev pub after_stub : Outcome → Outcome
after_stub (Outcome.returned status) = Outcome.stopped
after_stub Outcome.stopped = Outcome.stopped
after_stub (Outcome.entered entry hartid fdt) = Outcome.entered entry hartid fdt

-- The addresses of the linker's symbols, and of the variable `cmdline_ptr`.
pub record Layout : Type 0 where
  pub start : ℕ
  pub image_end : ℕ
  pub payload_start : ℕ
  pub payload_end : ℕ
  pub cmdline_ptr : ℕ

module _ (fw : Firmware) (lib : Libfdt) (chosen : ChosenLookup) (layout : Layout) where
  -- efi_main behind find_payload, which gives a payload exactly when its status is no error.
  unfoldable pub boot_found :
      (handle system_table : ℕ) (cmdline : Option (List ℕ)) (status : ℕ)
      → Option PayloadInfo
      → M (Option Outcome)
  unfolding efi_stub_common
  boot_found handle system_table cmdline status none = pure (some (Outcome.returned status))
  boot_found handle system_table cmdline status (some info) = do
    outcome ←
        efi_stub_common fw lib chosen handle system_table layout.start layout.image_end info cmdline
    pure (some (after_stub outcome))

  -- efi_main behind efi_handle_cmdline.
  unfoldable pub boot_payload :
      (handle system_table : ℕ) → Option ℕ → (cmdline : Option (List ℕ)) → M (Option Outcome)
  unfolding find_payload boot_found
  boot_payload handle system_table none cmdline = pure none
  boot_payload handle system_table (some status) cmdline =
      if is_error status then pure (some (Outcome.returned status)) else do
        f ← get_memory
        let found = find_payload f layout.payload_start layout.payload_end
        boot_found handle system_table cmdline found.0 found.1

  -- efi_main, with what HandleProtocol answers for the loaded image as `opened`. The `Option` is that of
  -- efi_parse_options.
  unfoldable pub efi_main :
      (opened : ℕ × LoadedImage) (handle system_table : ℕ) → M (Option Outcome)
  unfolding efi_handle_cmdline boot_payload
  efi_main opened handle system_table =
      if is_error opened.0 then pure (some (Outcome.returned opened.0)) else do
        handled ←
            efi_handle_cmdline fw layout.cmdline_ptr opened.1.load_options
              opened.1.load_options_size
        boot_payload handle system_table handled.0 handled.1
