-- ===== src/Base/Int.antt =====
-- Signed numbers, as far as the widths and precisions of a format need them.
use Prim.Native.Nat.{ℕ, ◌+◌, ◌-◌, ◌%◌, ◌^◌}
use dragon_stub.Base.Tests.{ltb, leb, if◌then◌else◌}

-- `negsuc n` stands for -(n + 1).
pub data ℤ : Type 0 where
  pos negsuc : ℕ → ℤ

abbrev pub minus_one : ℤ
minus_one = negsuc 0

abbrev pub to_ℕ : ℤ → ℕ
to_ℕ (pos n) = n
to_ℕ (negsuc n) = 0

-- `k` less.
abbrev pub less : ℤ → (k : ℕ) → ℤ
less (pos n) k = if leb k n then pos (n - k) else negsuc (k - n - 1)
less (negsuc n) k = negsuc (n + k)

-- The number that the low `w` bits of `n` stand for in two's complement.
abbrev pub signed : (w n : ℕ) → ℤ
signed w n =
    let low = n % 2 ^ w in if ltb low (2 ^ (w - 1)) then pos low else negsuc (2 ^ w - low - 1)
