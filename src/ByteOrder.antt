-- ===== src/ByteOrder.antt =====
-- Byte swaps and the conversions between the order of bytes in memory and that of the machine:
-- inc/dragonstub/linux/swab.h, byteorder.h and byteorder_little_endian.h. The machine has the low
-- byte first. An in-place conversion of an array is the list of its words.
pub mod Bytes
pub mod Swap
pub mod Conversions
use dragon_stub.Base.{ℕ, ◌+◌, ◌-◌, ◌*◌, ◌/◌, ◌%◌, ◌^◌, bit_and, bit_or, List, [], ◌∷◌}

-- The casts to the type of the operand and of the result are written out as `%`.
unfoldable pub constant_swab16 : ℕ → ℕ
constant_swab16 x =
    let v = x % 2 ^ 16 in bit_or (bit_and v 0x00ff * 2 ^ 8) (bit_and v 0xff00 / 2 ^ 8) % 2 ^ 16

unfoldable pub constant_swab32 : ℕ → ℕ
constant_swab32 x =
    let v = x % 2 ^ 32 in
    bit_or
      (bit_or
        (bit_or (bit_and v 0x0000_00ff * 2 ^ 24 % 2 ^ 32) (bit_and v 0x0000_ff00 * 2 ^ 8 % 2 ^ 32))
        (bit_and v 0x00ff_0000 / 2 ^ 8))
      (bit_and v 0xff00_0000 / 2 ^ 24)

unfoldable pub constant_swab64 : ℕ → ℕ
constant_swab64 x =
    let v = x % 2 ^ 64 in
    bit_or
      (bit_or
        (bit_or
          (bit_or
            (bit_or
              (bit_or
                (bit_or (bit_and v 0x0000_0000_0000_00ff * 2 ^ 56 % 2 ^ 64)
                  (bit_and v 0x0000_0000_0000_ff00 * 2 ^ 40 % 2 ^ 64))
                (bit_and v 0x0000_0000_00ff_0000 * 2 ^ 24 % 2 ^ 64))
              (bit_and v 0x0000_0000_ff00_0000 * 2 ^ 8 % 2 ^ 64))
            (bit_and v 0x0000_00ff_0000_0000 / 2 ^ 8))
          (bit_and v 0x0000_ff00_0000_0000 / 2 ^ 24))
        (bit_and v 0x00ff_0000_0000_0000 / 2 ^ 40))
      (bit_and v 0xff00_0000_0000_0000 / 2 ^ 56)

unfoldable pub constant_swahw32 : ℕ → ℕ
constant_swahw32 x =
    let v = x % 2 ^ 32 in
    bit_or (bit_and v 0x0000_ffff * 2 ^ 16 % 2 ^ 32) (bit_and v 0xffff_0000 / 2 ^ 16)

unfoldable pub constant_swahb32 : ℕ → ℕ
constant_swahb32 x =
    let v = x % 2 ^ 32 in
    bit_or (bit_and v 0x00ff_00ff * 2 ^ 8 % 2 ^ 32) (bit_and v 0xff00_ff00 / 2 ^ 8)

-- The compiler has no built-in swap, and the architecture defines none.
abbrev pub fswab16 : ℕ → ℕ
fswab16 val = constant_swab16 val

abbrev pub fswab32 : ℕ → ℕ
fswab32 val = constant_swab32 val

abbrev pub fswab64 : ℕ → ℕ
fswab64 val = constant_swab64 val

-- __fswab64 where __SWAB_64_THRU_32__ is defined.
unfoldable pub fswab64_thru_32 : ℕ → ℕ
fswab64_thru_32 val =
    let h = val / 2 ^ 32 % 2 ^ 32 in
    let l = bit_and val (2 ^ 32 - 1) in bit_or (fswab32 l * 2 ^ 32 % 2 ^ 64) (fswab32 h)

abbrev pub swab16 : ℕ → ℕ
swab16 x = fswab16 x

abbrev pub swab32 : ℕ → ℕ
swab32 x = fswab32 x

abbrev pub swab64 : ℕ → ℕ
swab64 x = fswab64 x

abbrev pub swab : ℕ → ℕ
swab y = swab64 y

abbrev pub swahw32 : ℕ → ℕ
swahw32 x = constant_swahw32 x

abbrev pub swahb32 : ℕ → ℕ
swahb32 x = constant_swahb32 x

abbrev pub swab16_array : List ℕ → List ℕ
swab16_array [] = []
swab16_array (x ∷ buf) = swab16 x ∷ swab16_array buf

abbrev pub swab32_array : List ℕ → List ℕ
swab32_array [] = []
swab32_array (x ∷ buf) = swab32 x ∷ swab32_array buf

abbrev pub swab64_array : List ℕ → List ℕ
swab64_array [] = []
swab64_array (x ∷ buf) = swab64 x ∷ swab64_array buf

abbrev pub cpu_to_le64 : ℕ → ℕ
cpu_to_le64 x = x % 2 ^ 64

abbrev pub cpu_to_be16 : ℕ → ℕ
cpu_to_be16 x = swab16 x

abbrev pub be16_to_cpu : ℕ → ℕ
be16_to_cpu x = swab16 x

abbrev pub cpu_to_be32 : ℕ → ℕ
cpu_to_be32 x = swab32 x

abbrev pub be32_to_cpu : ℕ → ℕ
be32_to_cpu x = swab32 x

abbrev pub cpu_to_be64 : ℕ → ℕ
cpu_to_be64 x = swab64 x

abbrev pub be64_to_cpu : ℕ → ℕ
be64_to_cpu x = swab64 x

-- `*var` after be16_add_cpu, be32_add_cpu and be64_add_cpu.
unfoldable pub be16_add_cpu : (var val : ℕ) → ℕ
be16_add_cpu var val = cpu_to_be16 (be16_to_cpu var + val)

unfoldable pub be32_add_cpu : (var val : ℕ) → ℕ
be32_add_cpu var val = cpu_to_be32 (be32_to_cpu var + val)

unfoldable pub be64_add_cpu : (var val : ℕ) → ℕ
be64_add_cpu var val = cpu_to_be64 (be64_to_cpu var + val)

-- The words that cpu_to_be32_array and be32_to_cpu_array write.
abbrev pub cpu_to_be32_array : List ℕ → List ℕ
cpu_to_be32_array [] = []
cpu_to_be32_array (x ∷ src) = cpu_to_be32 x ∷ cpu_to_be32_array src

abbrev pub be32_to_cpu_array : List ℕ → List ℕ
be32_to_cpu_array [] = []
be32_to_cpu_array (x ∷ src) = be32_to_cpu x ∷ be32_to_cpu_array src
