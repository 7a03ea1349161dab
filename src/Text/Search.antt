-- ===== src/Text/Search.antt =====
-- __strchrnul, strchr and strrchr of apps/lib/string.c, and memrchr of lib/init.c, over memory. A
-- search takes fuel, one for each round, and `none` means that it ran out; the pointer 0 is null.
pub mod HasZero
pub mod Words
pub mod First
pub mod Memchr
use dragon_stub.Base.{
  ℕ, zero, suc, ◌+◌, ◌-◌, ◌*◌, ◌/◌, ◌%◌, ◌^◌, Bool, true, false, ◌&&◌, ◌||◌, not, Option, none,
  some, ◌==◌, if◌then◌else◌, bit_and,
}
use Prim.Native.Nat.{bit_xor}
use mathlib.Core.Option
use dragon_stub.Machine.{Memory}
use dragon_stub.Align.{sub64}
use dragon_stub.Elf.Header.{read_le}

-- Each byte is 1.
abbrev pub ones : ℕ
ones = (2 ^ 64 - 1) / 255

-- Each byte is 0x80.
abbrev pub highs : ℕ
highs = ones * (255 / 2 + 1)

-- Zero where no byte of the word is zero.
unfoldable pub haszero : ℕ → ℕ
haszero x = bit_and (bit_and (sub64 x ones) (2 ^ 64 - 1 - x)) highs

-- The loop up to the alignment of a word: whether it found the byte, and the address.
unfoldable pub skip_unaligned : (rounds : ℕ) → Memory → (s c : ℕ) → Bool × ℕ
skip_unaligned zero f s c = (false, s)
skip_unaligned (suc n) f s c =
    let rest = skip_unaligned n f (s + 1) c in
    if s % 8 == 0 then (false, s) else if (f s == 0) || (f s == c) then (true, s) else rest

-- The loop over whole words.
unfoldable pub skip_words : (fuel : ℕ) → Memory → (w k : ℕ) → Option ℕ
skip_words zero f w k = none
skip_words (suc fuel) f w k =
    let rest = skip_words fuel f (w + 8) k in
    if (haszero (read_le 8 f w) == 0) && (haszero (bit_xor (read_le 8 f w) k) == 0)
    then rest
    else some w

-- The loop over single bytes.
unfoldable pub find_byte : (fuel : ℕ) → Memory → (s c : ℕ) → Option ℕ
find_byte zero f s c = none
find_byte (suc fuel) f s c =
    let rest = find_byte fuel f (s + 1) c in
    if not (f s == 0) && not (f s == c) then rest else some s

-- strlen over memory.
unfoldable pub mem_strlen : (fuel : ℕ) → Memory → (s : ℕ) → Option ℕ
mem_strlen zero f s = none
mem_strlen (suc fuel) f s =
    let rest = mem_strlen fuel f (s + 1) in if f s == 0 then some 0 else Option.map suc rest

unfoldable pub strchrnul : (fuel : ℕ) → Memory → (s c : ℕ) → Option ℕ
strchrnul fuel f s c =
    let byte = c % 256 in
    let start = skip_unaligned 8 f s byte in
    if byte == 0
    then Option.map (λ n. s + n) (mem_strlen fuel f s)
    else if start.0
    then some start.1
    else elim (skip_words fuel f start.1 (ones * byte % 2 ^ 64)) [
      | none ↦ none
      | some w ↦ find_byte fuel f w byte
    ]

unfoldable pub strchr : (fuel : ℕ) → Memory → (s c : ℕ) → Option ℕ
strchr fuel f s c = Option.map (λ r. if f r == c % 256 then r else 0) (strchrnul fuel f s c)

unfoldable pub memrchr : Memory → (m c n : ℕ) → ℕ
memrchr f m c zero = 0
memrchr f m c (suc n) = let rest = memrchr f m c n in if f (m + n) == c % 256 then m + n else rest

unfoldable pub strrchr : (fuel : ℕ) → Memory → (s c : ℕ) → Option ℕ
strrchr fuel f s c = Option.map (λ n. memrchr f s c (n + 1)) (mem_strlen fuel f s)
