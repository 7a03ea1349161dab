-- ===== src/Boot/Leaves.antt =====
-- That efi_exit_boot_services of apps/helper.c gets out of boot services, over a firmware that keeps to
-- its specification.
use dragon_stub.Base.{false, ℕ, ◌≤◌, ◌≡◌, ◌⊎◌, refl, arith, true, some, ◌∷◌, inl, inr}
use dragon_stub.Machine.{
  Event, MapReply, Firmware, History, Machine, M, efi_success, efi_invalid_parameter, emit,
}
use dragon_stub.Pages.{BootMemmap, efi_get_memory_map}
use dragon_stub.Boot.{refilled, retry_exit, exit_with_map, efi_exit_boot_services}

-- The first ExitBootServices may refuse a key as stale. Then a GetMemoryMap with enough room is answered,
-- and the ExitBootServices just after it takes its key.
pub record LetsGo (fw : Firmware) (enough : ℕ) : Type 0 where
  pub leaves_or_stale :
      (h : History) (handle key : ℕ)
      → (fw.exit_boot_services h handle key ≡ efi_success)
        ⊎ (fw.exit_boot_services h handle key ≡ efi_invalid_parameter)
  pub maps_again :
      (h : History) (handle key room : ℕ)
      → enough ≤ room
      → (fw.get_memory_map
          (Event.exit_boot_services handle key efi_invalid_parameter ∷ h)
          room).status
        ≡ efi_success
  pub leaves_then :
      (h : History) (handle key room : ℕ) (reply : MapReply)
      → fw.exit_boot_services
          (Event.get_memory_map room reply
            ∷ Event.exit_boot_services handle key efi_invalid_parameter
            ∷ h)
          handle
          reply.map_key
        ≡ efi_success

module _ (fw : Firmware) {P : Type 0} (priv_func : BootMemmap → P → M (ℕ × (BootMemmap × P)))
    (no_calls : (b : BootMemmap) (p : P) (m : Machine) → (priv_func b p m).1.history ≡ m.history)
    (same_key : (b : BootMemmap) (p : P) (m : Machine)
      → (priv_func b p m).0.1.0.map_key ≡ b.map_key)
    (same_buffer : (b : BootMemmap) (p : P) (m : Machine)
      → (priv_func b p m).0.1.0.buff_size ≡ b.buff_size)
    (succeeds : (b : BootMemmap) (p : P) (m : Machine) → (priv_func b p m).0.0 ≡ efi_success)
    (enough : ℕ) (lets_go : LetsGo fw enough) where
  retry_exit-leaves :
      (handle key : ℕ) (h : History) (b : BootMemmap) (p : P) (m : Machine)
      → m.history ≡ Event.exit_boot_services handle key efi_invalid_parameter ∷ h
      → enough ≤ b.buff_size
      → (retry_exit fw priv_func handle b p m).0.0 ≡ efi_success
  unfolding retry_exit
  retry_exit-leaves handle key h b p m refused room =
      let reply = fw.get_memory_map m.history b.buff_size in
      let n = emit (Event.get_memory_map b.buff_size reply) m in
      let done = priv_func (refilled b reply) p n in
      let mapped : reply.status ≡ efi_success =
        rw refused (lets_go.maps_again h handle key b.buff_size room) in
      let left : fw.exit_boot_services done.1.history handle done.0.1.0.map_key ≡ efi_success =
        rw (no_calls (refilled b reply) p n, same_key (refilled b reply) p n, refused)
          (lets_go.leaves_then h handle key b.buff_size _) in
      ground (arith, mapped, succeeds (refilled b reply) p n, left)

  exit_with_map-leaves :
      (handle : ℕ) (b : BootMemmap) (p : P) (m : Machine)
      → enough ≤ b.buff_size
      → (exit_with_map fw priv_func handle b p m).0.0 ≡ efi_success
  unfolding exit_with_map
  exit_with_map-leaves handle b p m room =
      let done = priv_func b p m in
      let key = done.0.1.0.map_key in
      let status = fw.exit_boot_services done.1.history handle key in
      elim (lets_go.leaves_or_stale done.1.history handle key) [
        | inl left ↦ ground (arith, succeeds b p m, left)
        | inr stale ↦
            let n = emit (Event.exit_boot_services handle key status) done.1 in
            let again =
              retry_exit-leaves handle key done.1.history done.0.1.0 done.0.1.1 n (rw stale refl)
                (omega (arith, room, same_buffer b p m)) in
            ground (arith, succeeds b p m, stale, again)
      ]

  -- efi_exit_boot_services leaves boot services where efi_disable_pci_dma is off, with one more attempt where the first map was stale:
  -- when a map was handed out with a buffer that is large enough for GetMemoryMap after a refusal, the
  -- callback succeeds, makes no call and keeps the key and the buffer, and the firmware refuses a key
  -- only as stale and takes the key of the GetMemoryMap just after a refusal.
  pub efi_exit_boot_services-leaves :
      (handle : ℕ) (p : P) (m : Machine) (map : BootMemmap)
      → m.globals.efi_disable_pci_dma ≡ false
      → (efi_get_memory_map fw true m).0.1 ≡ some map
      → enough ≤ map.buff_size
      → (efi_exit_boot_services fw priv_func handle p m).0.0 ≡ efi_success
  unfolding efi_exit_boot_services
  efi_exit_boot_services-leaves handle p m map in_use got room =
      ground (arith, got, exit_with_map-leaves handle map p (efi_get_memory_map fw true m).1 room)
