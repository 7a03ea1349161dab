-- ===== src/ByteOrder/Conversions.antt =====
-- Conversions of inc/dragonstub/linux/byteorder.h: additions in the other order, arrays, and the
-- swap of 64 bits by two swaps of 32.
use native.Mathlib.Nat.{mod-eq_of_lt}
use dragon_stub.Base.Fields.{bit_or-add}
use dragon_stub.Base.Bits.{bit_and-low_mask}
use dragon_stub.ByteOrder.Swap.{
  swab16-swab16, swab32-swab32, swab64-swab64, swab32-le_value, swab64-le_value,
}
use dragon_stub.ByteOrder.{
  swab64, fswab64_thru_32, be16_add_cpu, be32_add_cpu, be64_add_cpu, be16_to_cpu, be32_to_cpu,
  be64_to_cpu, cpu_to_be32_array, be32_to_cpu_array,
}
use dragon_stub.Base.{ℕ, ◌+◌, ◌/◌, ◌%◌, ◌^◌, ◌<◌, ◌≡◌, refl, ◌∙◌, arith, List, [], ◌∷◌, All}

-- Adding to a big-endian number of 16, 32 or 64 bits adds to the number that it stands for, modulo
-- the width.
pub be_add_cpu-be_to_cpu :
    (x y z val : ℕ)
    → (be16_to_cpu (be16_add_cpu x val) ≡ (be16_to_cpu x + val) % 2 ^ 16)
      × (be32_to_cpu (be32_add_cpu y val) ≡ (be32_to_cpu y + val) % 2 ^ 32)
      × (be64_to_cpu (be64_add_cpu z val) ≡ (be64_to_cpu z + val) % 2 ^ 64)
unfolding be16_add_cpu be32_add_cpu be64_add_cpu
be_add_cpu-be_to_cpu x y z val = (swab16-swab16 _, swab32-swab32 _, swab64-swab64 _)

-- Converting an array of 32-bit words to big-endian and back gives the array.
be32_to_cpu_array-cpu_to_be32_array :
    (src : List ℕ) → All (λ x. x < 2 ^ 32) src → be32_to_cpu_array (cpu_to_be32_array src) ≡ src
be32_to_cpu_array-cpu_to_be32_array [] h = refl
be32_to_cpu_array-cpu_to_be32_array (x ∷ src) h =
    rw
      (
        swab32-swab32 x,
        mod-eq_of_lt {n = x} {m = 2 ^ 32} h.0,
        be32_to_cpu_array-cpu_to_be32_array src h.1,
      )
      refl

-- The swap of a 64-bit word by way of its halves is the same swap.
fswab64_thru_32-swab64 : (x : ℕ) → x < 2 ^ 64 → fswab64_thru_32 x ≡ swab64 x
unfolding fswab64_thru_32
fswab64_thru_32-swab64 x h =
    rw
      (
        bit_and-low_mask 32 x,
        swab32-le_value (x % 2 ^ 32) (omega arith),
        swab32-le_value (x / 2 ^ 32 % 2 ^ 32) (omega arith),
        swab64-le_value x h,
      )
      (bit_or-add 32 _ _ (omega arith) (omega arith) ∙ omega arith)
