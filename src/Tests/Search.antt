-- ===== src/Tests/Search.antt =====
-- Searches, copies and byte swaps at concrete inputs, and an image in a region of the memory map.
use dragon_stub.Base.{
  ℕ, ◌+◌, ◌%◌, ◌^◌, ◌≤◌, ◌<◌, ◌≡◌, ◌≢◌, refl, arith, ◌==◌, if◌then◌else◌, some, reverse, ◌⊎◌, false,
}
use dragon_stub.Machine.{Memory, IsBytes, Machine}
use dragon_stub.Pages.{BootMemmap, efi_get_memory_map}
use dragon_stub.Pages.Ownership.{pools}
use dragon_stub.Text.Search.{
  strchrnul, strchr, strrchr, skip_unaligned, skip_words, haszero, find_byte,
}
use dragon_stub.Elf.Header.{read_le}
use dragon_stub.Text.Search.Words.{FirstOf}
use dragon_stub.Text.Search.First.{strchrnul-FirstOf, strchr-strrchr, FirstAndLast}
use dragon_stub.Text.Search.Memchr.{memchr, memchr-FirstIn, FirstIn}
use dragon_stub.Bytes.{memmove}
use dragon_stub.Bytes.Copy.{moved, memmove-moved}
use dragon_stub.ByteOrder.{
  swab16, swab32, swab64, be16_to_cpu, be32_to_cpu, be64_to_cpu, be16_add_cpu, be32_add_cpu,
  be64_add_cpu,
}
use dragon_stub.ByteOrder.Bytes.{le_bytes}
use dragon_stub.ByteOrder.Swap.{swab-le_bytes}
use dragon_stub.ByteOrder.Conversions.{be_add_cpu-be_to_cpu}
use dragon_stub.Elf.Region.{check_image_region, check_image_region-Covered, Covered}
use dragon_stub.Tests.Platform.{platform, start_with}

-- A string of `a` from 0x1003 on, with `o` at 0x1010 and at 0x1022, that ends at 0x1025.
abbrev text : Memory
text a = if a == 0x1025 then 0 else if a == 0x1010 then b'o' else if a == 0x1022 then b'o' else b'a'

text-IsBytes : IsBytes text
text-IsBytes a = ground arith

strchrnul-FirstOf_example :
    (r : ℕ) × (strchrnul 100 text 0x1003 b'o' ≡ some r) × FirstOf text (b'o' % 256) 0x1003 r
strchrnul-FirstOf_example =
    strchrnul-FirstOf text 0x1025 refl text-IsBytes 100 0x1003 b'o' (omega arith) (omega arith)

found_first : strchrnul 100 text 0x1003 b'o' ≡ some 0x1010
unfolding strchrnul skip_unaligned skip_words haszero read_le find_byte
found_first = refl

in_string : (a : ℕ) → 0x1003 ≤ a → a < 0x1025 → text a ≢ 0
in_string a lo hi = ground arith

strchr-strrchr_example :
    (p : ℕ) × (q : ℕ) × (strchr 100 text 0x1003 b'o' ≡ some p)
    × (strrchr 100 text 0x1003 b'o' ≡ some q)
    × FirstAndLast text (b'o' % 256) 0x1003 0x1025 p q
strchr-strrchr_example =
    strchr-strrchr text text-IsBytes 100 0x1003 b'o' 0x1025 (omega arith) (omega arith) refl
      in_string

memchr-FirstIn_example : FirstIn text (b'o' % 256) 0x1003 0x30 (memchr text 0x1003 b'o' 0x30)
memchr-FirstIn_example = memchr-FirstIn text text-IsBytes 0x1003 b'o' 0x30

memmove-moved_example : memmove text 0x1008 0x1003 20 0x1015 ≡ moved text 0x1008 0x1003 20 0x1015
memmove-moved_example = memmove-moved text 0x1008 0x1003 20 0x1015

swab-le_bytes_example :
    (le_bytes 2 (swab16 0x1234) ≡ reverse (le_bytes 2 0x1234))
    × (le_bytes 4 (swab32 0x12345678) ≡ reverse (le_bytes 4 0x12345678))
    × (le_bytes 8 (swab64 0x123456789abcdef0) ≡ reverse (le_bytes 8 0x123456789abcdef0))
swab-le_bytes_example =
    swab-le_bytes 0x1234 0x12345678 0x123456789abcdef0 (omega arith) (omega arith) (omega arith)

be_add_cpu-be_to_cpu_example :
    (be16_to_cpu (be16_add_cpu 0xff00 3) ≡ (be16_to_cpu 0xff00 + 3) % 2 ^ 16)
    × (be32_to_cpu (be32_add_cpu 0xff000000 3) ≡ (be32_to_cpu 0xff000000 + 3) % 2 ^ 32)
    × (be64_to_cpu (be64_add_cpu 7 3) ≡ (be64_to_cpu 7 + 3) % 2 ^ 64)
be_add_cpu-be_to_cpu_example = be_add_cpu-be_to_cpu 0xff00 0xff000000 7 3

abbrev blank : Machine
blank = start_with (λ _. 0)

check_image_region-Covered_example :
    (pools (check_image_region platform 0x80001000 0x2000 blank).1.history ≡ pools blank.history)
    × ((check_image_region platform 0x80001000 0x2000 blank).1.memory ≡ blank.memory)
    × (((check_image_region platform 0x80001000 0x2000 blank).0 ≡ false)
        ⊎ ((map : BootMemmap) × ((efi_get_memory_map platform false blank).0.1 ≡ some map)
            × Covered map.descs 0x80001000 0x2000))
check_image_region-Covered_example =
    check_image_region-Covered platform 0x80001000 0x2000 blank (omega arith)
