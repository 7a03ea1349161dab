-- ===== src/Boot/Key.antt =====
-- The map key that efi_exit_boot_services of apps/helper.c hands to the firmware.
use dragon_stub.Base.{
  ℕ, ◌≡◌, arith, Bool, true, false, ◌&&◌, some, ◌∷◌, ◌==◌, Option-cases, inl, inr,
}
use dragon_stub.Machine.{Event, Firmware, History, Machine, M, efi_success, emit}
use dragon_stub.Pages.{BootMemmap, efi_get_memory_map}
use dragon_stub.Pages.Map.{efi_get_memory_map-pools}
use dragon_stub.Boot.{refilled, retry_exit, exit_with_map, efi_exit_boot_services}

-- The last call was ExitBootServices, which succeeded, and the one before it GetMemoryMap, which
-- succeeded with the key that was handed over.
abbrev pub left_with_current_key : History → Bool
left_with_current_key
      (Event.exit_boot_services handle key status ∷ Event.get_memory_map room reply ∷ h) =
    (status == efi_success) && ((reply.status == efi_success) && (reply.map_key == key))
left_with_current_key _ = false

-- The last call was GetMemoryMap, which succeeded with this key.
abbrev pub has_current_key : History → ℕ → Bool
has_current_key (Event.get_memory_map room reply ∷ h) key =
    (reply.status == efi_success) && (reply.map_key == key)
has_current_key _ key = false

got_current_key :
    (fw : Firmware) (install : Bool) (m : Machine) (map : BootMemmap)
    → (efi_get_memory_map fw install m).0.1 ≡ some map
    → has_current_key (efi_get_memory_map fw install m).1.history map.map_key ≡ true
unfolding efi_get_memory_map
got_current_key fw install m map e = ground arith

called_with_current_key :
    (h : History) (handle key status : ℕ)
    → has_current_key h key ≡ true
    → status ≡ efi_success
    → left_with_current_key (Event.exit_boot_services handle key status ∷ h) ≡ true
called_with_current_key (Event.get_memory_map room reply ∷ h) handle key status c e = ground arith
called_with_current_key _ handle key status c e = absurd (ground arith)

module _ (fw : Firmware) {P : Type 0} (priv_func : BootMemmap → P → M (ℕ × (BootMemmap × P)))
    (no_calls : (b : BootMemmap) (p : P) (m : Machine) → (priv_func b p m).1.history ≡ m.history)
    (same_key : (b : BootMemmap) (p : P) (m : Machine)
      → (priv_func b p m).0.1.0.map_key ≡ b.map_key) where
  retry_exit-key :
      (handle : ℕ) (b : BootMemmap) (p : P) (m : Machine)
      → (retry_exit fw priv_func handle b p m).0.0 ≡ efi_success
      → left_with_current_key (retry_exit fw priv_func handle b p m).1.history ≡ true
  unfolding retry_exit
  retry_exit-key handle b p m e =
      let reply = fw.get_memory_map m.history b.buff_size in
      let n = emit (Event.get_memory_map b.buff_size reply) m in
      ground (arith, no_calls (refilled b reply) p n, same_key (refilled b reply) p n)

  exit_with_map-key :
      (handle : ℕ) (b : BootMemmap) (p : P) (m : Machine)
      → has_current_key m.history b.map_key ≡ true
      → (exit_with_map fw priv_func handle b p m).0.0 ≡ efi_success
      → left_with_current_key (exit_with_map fw priv_func handle b p m).1.history ≡ true
  unfolding exit_with_map
  exit_with_map-key handle b p m c e =
      let done = priv_func b p m in
      let key = done.0.1.0.map_key in
      let status = fw.exit_boot_services done.1.history handle key in
      let n = emit (Event.exit_boot_services handle key status) done.1 in
      ground (
        arith,
        no_calls b p m,
        same_key b p m,
        called_with_current_key m.history handle b.map_key status c,
        retry_exit-key handle done.0.1.0 done.0.1.1 n,
      )

  pub efi_exit_boot_services-key :
      (handle : ℕ) (p : P) (m : Machine)
      → (efi_exit_boot_services fw priv_func handle p m).0.0 ≡ efi_success
      → left_with_current_key (efi_exit_boot_services fw priv_func handle p m).1.history ≡ true
  unfolding efi_exit_boot_services
  efi_exit_boot_services-key handle p m e =
      let got = efi_get_memory_map fw true m in
      elim (Option-cases got.0.1) [
        | inl nothing ↦ absurd (ground (arith, nothing, (efi_get_memory_map-pools fw true m).0))
        | inr (map, some_map) ↦ ground (
          arith,
          some_map,
          got_current_key fw true m map some_map,
          exit_with_map-key handle map p got.1,
        )
      ]
