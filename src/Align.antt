-- ===== src/Align.antt =====
-- The rounding macros of inc/dragonstub/linux/math.h, inc/dragonstub/linux/align.h and
-- inc/dragonstub/linux/const.h on 64-bit operands.
pub mod Laws
use dragon_stub.Base.{
  ℕ, ◌+◌, ◌-◌, ◌*◌, ◌/◌, ◌%◌, ◌^◌, bit_and, bit_or, Bool, ◌==◌, ltb, if◌then◌else◌,
}

abbrev pub u64 : ℕ → ℕ
u64 n = n % 2 ^ 64

abbrev pub u32 : ℕ → ℕ
u32 n = n % 2 ^ 32

-- Subtraction of 64-bit words, which wraps.
abbrev pub sub64 : ℕ → ℕ → ℕ
sub64 a b = (a + 2 ^ 64 - b) % 2 ^ 64

abbrev pub not64 : ℕ → ℕ
not64 m = 2 ^ 64 - 1 - m

-- __ALIGN_KERNEL_MASK
unfoldable pub align_kernel_mask : ℕ → ℕ → ℕ
align_kernel_mask x mask = bit_and (u64 (x + mask)) (not64 mask)

-- ALIGN_UP
unfoldable pub align_up : ℕ → ℕ → ℕ
unfolding align_kernel_mask
align_up x a = align_kernel_mask x (sub64 a 1)

-- ALIGN_DOWN
unfoldable pub align_down : ℕ → ℕ → ℕ
unfolding align_kernel_mask
align_down x a = align_kernel_mask (sub64 x (sub64 a 1)) (sub64 a 1)

-- IS_ALIGNED
unfoldable pub is_aligned : ℕ → ℕ → Bool
is_aligned x a = bit_and x (sub64 a 1) == 0

-- round_up
unfoldable pub round_up : ℕ → ℕ → ℕ
round_up x y = u64 (bit_or (sub64 x 1) (sub64 y 1) + 1)

-- round_down
unfoldable pub round_down : ℕ → ℕ → ℕ
round_down x y = bit_and x (not64 (sub64 y 1))

-- DIV_ROUND_UP
unfoldable pub div_round_up : ℕ → ℕ → ℕ
div_round_up n d = u64 (n + d + (2 ^ 64 - 1)) / d
