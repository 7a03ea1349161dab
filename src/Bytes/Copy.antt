-- ===== src/Bytes/Copy.antt =====
-- What the loops of lib/init.c leave in memory.
use dragon_stub.Base.{
  ℕ, zero, suc, ◌+◌, ◌-◌, ◌%◌, ◌≤◌, ◌<◌, ◌≡◌, refl, arith, ◌⊎◌, inl, inr, ◌&&◌, ◌==◌, ltb, leb,
  if◌then◌else◌, Bool-cases,
}
use dragon_stub.Machine.{Memory}
use dragon_stub.Bytes.{memset_loop, memset, memcpy, copy_down, memmove}

memset_loop-memset : (f : Memory) (s c n a : ℕ) → memset_loop f s c n a ≡ memset f s c n a
unfolding memset_loop memset
memset_loop-memset f s c zero a = ground arith
memset_loop-memset f s c (suc n) a =
    ground (arith, memset_loop-memset (λ x. if x == s then c % 256 else f x) (s + 1) c n a)

-- The bytes of the source, as they were, stand at the destination, and all else is as it was.
abbrev pub moved : Memory → (dst src n : ℕ) → Memory
moved f dst src n a = if leb dst a && ltb a (dst + n) then f (src + (a - dst)) else f a

-- Upwards, where no byte of the source is written before it is read.
pub memcpy-moved :
    (f : Memory) (dest src n a : ℕ)
    → (dest ≤ src) ⊎ (src + n ≤ dest)
    → memcpy f dest src n a ≡ moved f dest src n a
unfolding memcpy
memcpy-moved f dest src zero a apart = ground arith
memcpy-moved f dest src (suc n) a apart = ground (
  arith,
  memcpy-moved (λ x. if x == dest then f src else f x) (dest + 1) (src + 1) n a
      (omega (arith, apart)),
)

-- Downwards, where the source lies below the destination.
copy_down-moved :
    (f : Memory) (dst src n a : ℕ) → src < dst → copy_down f dst src n a ≡ moved f dst src n a
unfolding copy_down
copy_down-moved f dst src zero a below = ground arith
copy_down-moved f dst src (suc n) a below =
    ground
      (arith, copy_down-moved (λ x. if x == dst + n then f (src + n) else f x) dst src n a below)

-- memmove puts the bytes of the source, as they were, at the destination, and changes no other
-- byte, however the two overlap.
pub memmove-moved :
    (f : Memory) (dst src size a : ℕ) → memmove f dst src size a ≡ moved f dst src size a
unfolding memmove
memmove-moved f dst src size a = elim (Bool-cases (size == 0)) [
  | inl empty ↦ rw empty (ground (arith, empty))
  | inr some_bytes ↦ elim (Bool-cases (leb dst src)) [
    | inl up ↦ rw (some_bytes, up) (memcpy-moved f dst src size a (inl (ground arith)))
    | inr down ↦ rw (some_bytes, down) (copy_down-moved f dst src size a (ground arith))
  ]
]

-- memcpy writes only to its destination, whatever the source is.
pub memcpy-outside :
    (f : Memory) (dest src n a : ℕ) → (a < dest) ⊎ (dest + n ≤ a) → memcpy f dest src n a ≡ f a
unfolding memcpy
memcpy-outside f dest src zero a out = refl
memcpy-outside f dest src (suc n) a out = ground (
  arith,
  memcpy-outside (λ x. if x == dest then f src else f x) (dest + 1) (src + 1) n a
      (omega (arith, out)),
)
