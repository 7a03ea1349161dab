-- ===== src/Platform/Secure.antt =====
-- The secure boot mode that apps/secureboot.c reports, against the three variables it reads.
use dragon_stub.Base.{ℕ, ◌≡◌, ◌≢◌, ◌↔◌, arith, bit_and}
use dragon_stub.Machine.{Variable, Event, Machine, Firmware, efi_success, emit}
use dragon_stub.Platform.{SecurebootMode, efi_get_secureboot_mode, efi_get_secureboot}

-- The answer to the read of a variable, with the reads before it.
abbrev pub first_answer : Firmware → Machine → ℕ × ℕ × ℕ
first_answer fw m = fw.get_variable m.history Variable.secure_boot

abbrev pub after : Variable → ℕ × ℕ × ℕ → Machine → Machine
after name r m = emit (Event.get_variable name r.0 r.1 r.2) m

abbrev pub second_answer : Firmware → Machine → ℕ × ℕ × ℕ
second_answer fw m =
    fw.get_variable (after Variable.secure_boot (first_answer fw m) m).history Variable.setup_mode

abbrev pub third_answer : Firmware → Machine → ℕ × ℕ × ℕ
third_answer fw m =
    fw.get_variable
      (after Variable.setup_mode (second_answer fw m)
        (after Variable.secure_boot (first_answer fw m) m)).history
      Variable.mok_sb_state_rt

-- efi_get_secureboot reports that secure boot is enabled exactly when SecureBoot can be read and is
-- not 0, SetupMode cannot be read or is not 1, and MokSBStateRT cannot be read, is not 1 or is
-- non-volatile.
pub efi_get_secureboot-enabled_iff :
    (fw : Firmware) (m : Machine)
    → ((efi_get_secureboot fw m).0 ≡ SecurebootMode.enabled) ↔ (
        ((first_answer fw m).0 ≡ efi_success)
        × ((first_answer fw m).2 ≢ 0)
        × ((second_answer fw m).0 ≡ efi_success → (second_answer fw m).2 ≢ 1)
        × ((third_answer fw m).0 ≡ efi_success
            → bit_and (third_answer fw m).1 1 ≡ 0
            → (third_answer fw m).2 ≢ 1))
unfolding efi_get_secureboot efi_get_secureboot_mode
efi_get_secureboot-enabled_iff fw m = ground arith
