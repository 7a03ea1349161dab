-- ===== src/Boot/Exit.antt =====
-- The order of the firmware calls that efi_exit_boot_services makes.
use dragon_stub.Base.{
  ℕ, suc, ◌≤◌, ◌≡◌, refl, ◌∙◌, arith, Bool, true, false, ◌&&◌, ◌||◌, [], ◌∷◌, ◌==◌, if◌then◌else◌,
  Option-cases, inl, inr,
}
use dragon_stub.Machine.{Event, Firmware, History, Machine, M, emit}
use dragon_stub.Pages.{BootMemmap, efi_get_memory_map}
use dragon_stub.Boot.{refilled, retry_exit, exit_with_map, efi_exit_boot_services}

abbrev pub is_exit : Event → Bool
is_exit (Event.exit_boot_services handle map_key status) = true
is_exit _ = false

-- The calls that UEFI allows once ExitBootServices was called.
abbrev pub is_allowed_after_exit : Event → Bool
is_allowed_after_exit (Event.exit_boot_services handle map_key status) = true
is_allowed_after_exit (Event.get_memory_map room reply) = true
is_allowed_after_exit _ = false

abbrev pub exits : History → ℕ
exits [] = 0
exits (e ∷ h) = if is_exit e then suc (exits h) else exits h

-- No other call was made after the first ExitBootServices.
abbrev pub is_disciplined : History → Bool
is_disciplined [] = true
is_disciplined (e ∷ h) = is_disciplined h && ((exits h == 0) || is_allowed_after_exit e)

disciplined_start : (h : History) → exits h ≡ 0 → is_disciplined h ≡ true
disciplined_start [] e = refl
disciplined_start (x ∷ h) e = ground (arith, disciplined_start h)

efi_get_memory_map-exits :
    (fw : Firmware) (install : Bool) (m : Machine)
    → exits (efi_get_memory_map fw install m).1.history ≡ exits m.history
unfolding efi_get_memory_map
efi_get_memory_map-exits fw install m = ground arith

module _ (fw : Firmware) {P : Type 0} (priv_func : BootMemmap → P → M (ℕ × (BootMemmap × P)))
    (no_calls : (b : BootMemmap) (p : P) (m : Machine)
      → (priv_func b p m).1.history ≡ m.history) where
  retry_exit-calls :
      (handle : ℕ) (b : BootMemmap) (p : P) (m : Machine)
      → is_disciplined m.history ≡ true
      → exits m.history ≡ 1
      → (is_disciplined (retry_exit fw priv_func handle b p m).1.history ≡ true)
        × (exits (retry_exit fw priv_func handle b p m).1.history ≤ 2)
  unfolding retry_exit
  retry_exit-calls handle b p m d e =
      let reply = fw.get_memory_map m.history b.buff_size in
      ground
        (arith, no_calls (refilled b reply) p (emit (Event.get_memory_map b.buff_size reply) m))

  exit_with_map-calls :
      (handle : ℕ) (b : BootMemmap) (p : P) (m : Machine)
      → exits m.history ≡ 0
      → (is_disciplined (exit_with_map fw priv_func handle b p m).1.history ≡ true)
        × (exits (exit_with_map fw priv_func handle b p m).1.history ≤ 2)
  unfolding exit_with_map
  exit_with_map-calls handle b p m e =
      let done = priv_func b p m in
      let key = done.0.1.0.map_key in
      let status = fw.exit_boot_services done.1.history handle key in
      ground (
        arith,
        no_calls b p m,
        disciplined_start m.history e,
        retry_exit-calls handle done.0.1.0 done.0.1.1
            (emit (Event.exit_boot_services handle key status) done.1),
      )

  -- When the callback makes no call itself, efi_exit_boot_services calls ExitBootServices at most
  -- twice, and after the first time calls only GetMemoryMap and ExitBootServices.
  pub efi_exit_boot_services-is_disciplined :
      (handle : ℕ) (p : P) (m : Machine)
      → exits m.history ≡ 0
      → (is_disciplined (efi_exit_boot_services fw priv_func handle p m).1.history ≡ true)
        × (exits (efi_exit_boot_services fw priv_func handle p m).1.history ≤ 2)
  unfolding efi_exit_boot_services
  efi_exit_boot_services-is_disciplined handle p m e =
      let got = efi_get_memory_map fw true m in
      let none_yet : exits got.1.history ≡ 0 = efi_get_memory_map-exits fw true m ∙ e in
      elim (Option-cases got.0.1) [
        | inl nothing ↦ ground (
          arith,
          nothing,
          disciplined_start m.history e,
          disciplined_start got.1.history none_yet,
        )
        | inr (map, some_map) ↦ ground (
          arith,
          some_map,
          disciplined_start m.history e,
          exit_with_map-calls handle map p got.1 none_yet,
        )
      ]
