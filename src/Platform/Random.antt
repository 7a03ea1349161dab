-- ===== src/Platform/Random.antt =====
-- efi_get_random_bytes of apps/random.c.
use dragon_stub.Base.{
  ℕ, zero, suc, ◌+◌, ◌≤◌, ◌<◌, ◌≡◌, refl, arith, Bool-cases, inl, inr, ◌⊎◌, ◌==◌, List, [], ◌∷◌,
  if◌then◌else◌,
}
use dragon_stub.Machine.{
  Guid, Event, Firmware, Machine, Memory, M, pure, ◌>>=◌, efi_success, call_locate_protocol, emit,
}
use dragon_stub.Pages.{failed}
use dragon_stub.Pages.Ownership.{pools}

-- The bytes that the firmware stores, at most `size` of them.
abbrev pub write_bytes : Memory → (out size : ℕ) → List ℕ → Memory
write_bytes f out zero bytes = f
write_bytes f out (suc size) [] = f
write_bytes f out (suc size) (b ∷ bytes) =
    write_bytes (λ a. if a == out then b else f a) (out + 1) size bytes

-- GetRNG of the protocol at the address `rng`.
abbrev pub call_get_rng : Firmware → (rng size out : ℕ) → M ℕ
call_get_rng fw rng size out m =
    let r = fw.get_rng m.history rng size in
    (
      r.0,
      emit (Event.get_rng size out r.0) (record m { memory = write_bytes m.memory out size r.1 }),
    )

unfoldable pub efi_get_random_bytes : Firmware → (size out : ℕ) → M ℕ
efi_get_random_bytes fw size out = do
  rng ← call_locate_protocol fw Guid.rng_protocol
  if failed rng.0 then pure rng.0 else call_get_rng fw rng.1 size out

write_bytes-outside :
    (f : Memory) (out size : ℕ) (bytes : List ℕ) (a : ℕ)
    → (a < out) ⊎ (out + size ≤ a)
    → write_bytes f out size bytes a ≡ f a
write_bytes-outside f out zero bytes a outside = refl
write_bytes-outside f out (suc size) [] a outside = refl
write_bytes-outside f out (suc size) (b ∷ bytes) a outside = ground (
  arith,
  write_bytes-outside (λ x. if x == out then b else f x) (out + 1) size bytes a
      (omega (arith, outside)),
)

-- efi_get_random_bytes changes no byte outside the buffer, holds no more pool memory than before,
-- and reports the status of LocateProtocol where the firmware has no generator.
efi_get_random_bytes-outside :
    (fw : Firmware) (size out : ℕ) (m : Machine) (a : ℕ)
    → (a < out) ⊎ (out + size ≤ a)
    → let r = efi_get_random_bytes fw size out m in
      let located = (fw.locate_protocol m.history Guid.rng_protocol).0 in
      (r.1.memory a ≡ m.memory a)
      × (pools r.1.history ≡ pools m.history)
      × ((located ≡ efi_success) ⊎ ((r.0 ≡ located) × (r.1.memory ≡ m.memory)))
unfolding efi_get_random_bytes
efi_get_random_bytes-outside fw size out m a outside =
    let located = call_locate_protocol fw Guid.rng_protocol m in
    elim (Bool-cases (failed (fw.locate_protocol m.history Guid.rng_protocol).0)) [
      | inl missing ↦ (
        ground (arith, missing),
        ground (arith, missing),
        inr (ground (arith, missing), ground (arith, missing)),
      )
      | inr found ↦ (
        ground (
          arith,
          found,
          write_bytes-outside m.memory out size (fw.get_rng located.1.history located.0.1 size).1 a
              outside,
        ),
        ground (arith, found),
        inl (ground (arith, found)),
      )
    ]
