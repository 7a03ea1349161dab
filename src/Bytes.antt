-- ===== src/Bytes.antt =====
-- The memory functions of lib/init.c, byte by byte: memset, memcpy and memmove.
pub mod Copy
use dragon_stub.Base.{ℕ, zero, suc, ◌+◌, ◌-◌, ◌%◌, Bool, ◌&&◌, ◌==◌, ltb, leb, if◌then◌else◌}
use dragon_stub.Machine.{Memory}

-- A store of one byte.
abbrev pub store_byte : Memory → (p v : ℕ) → Memory
store_byte f p v a = if a == p then v else f a

-- A store of `c` and an increment of the pointer, `n` times.
unfoldable pub memset_loop : Memory → (s c n : ℕ) → Memory
memset_loop f s c zero = f
memset_loop f s c (suc n) = memset_loop (store_byte f s (c % 256)) (s + 1) c n

-- memset, in the form that is read at an address at once.
unfoldable pub memset : Memory → (s c n : ℕ) → Memory
memset f s c n a = if leb s a && ltb a (s + n) then c % 256 else f a

unfoldable pub memcpy : Memory → (dest src n : ℕ) → Memory
memcpy f dest src zero = f
memcpy f dest src (suc n) = memcpy (store_byte f dest (f src)) (dest + 1) (src + 1) n

-- The loop of memmove from the last byte to the first.
unfoldable pub copy_down : Memory → (dst src size : ℕ) → Memory
copy_down f dst src zero = f
copy_down f dst src (suc size) = copy_down (store_byte f (dst + size) (f (src + size))) dst src size

unfoldable pub memmove : Memory → (dst src size : ℕ) → Memory
memmove f dst src size =
    if size == 0 then f else if leb dst src then memcpy f dst src size else copy_down f dst src size
