-- ===== src/Printf/Print/Buffer.antt =====
-- What vsnprintf and snprintf leave in the caller's buffer, and what they return.
use dragon_stub.Base.{
  ℕ, ◌+◌, ◌-◌, ◌%◌, ◌^◌, ◌≤◌, ◌<◌, ◌≡◌, refl, arith, sym, ap, ◌∙◌, min, true, false, ◌&&◌, not,
  Option, some, List, ◌==◌, ltb, if◌then◌else◌, length, get_or, Bool-cases, inl, inr,
}
use mathlib.Core.Path.{fun_ext}
use mathlib.Core.Option.{some-injective}
use dragon_stub.Machine.{Memory}
use dragon_stub.Printf.{Out, puts}
use dragon_stub.Printf.Puts.{puts-at, puts-bytes}
use dragon_stub.Printf.Print.{Run, empty_spec, room, terminate, vsnprintf}
use dragon_stub.Printf.Print.Shown.{render, print_loop-render}

-- A buffer of `size` bytes with as much of the text as leaves room for a NUL, and the NUL; the rest is
-- as before.
abbrev pub with_text : (size : ℕ) → List ℕ → (ℕ → ℕ) → ℕ → ℕ
with_text size text bytes i =
    if ltb i (min (length text) (size - 1))
    then get_or text i 0
    else if not (size == 0) && (i == min (length text) (size - 1))
    then 0
    else bytes i

-- The text of a format with its arguments.
abbrev pub rendered : Memory → (args : ℕ → ℕ) → (fmt : List ℕ) → List ℕ
rendered f args fmt = render (length fmt) f args fmt empty_spec 0

terminated :
    (size : ℕ) (text : List ℕ) (bytes : ℕ → ℕ) (i : ℕ)
    → let o : Out = record { bytes = bytes; at = 0 } in
      (terminate size (puts size text o)).bytes i ≡ with_text size text bytes i
terminated size text bytes i =
    let o : Out = record { bytes = bytes; at = 0 } in
    let same : i - 0 ≡ i = omega arith in
    ground
      (arith, puts-at size text o, puts-bytes size text o i, ap (λ (k : ℕ). get_or text k 0) same)

-- For a size that is an int it returns the length of the rendered text, as an
-- int, and leaves in the buffer the text, cut to the size less one, and a NUL behind it. The size is
-- the one up to the last address, and for size 0 nothing is written.
pub vsnprintf-rendered :
    (buf size : ℕ) (fmt : List ℕ) (f : Memory) (args bytes : ℕ → ℕ)
    → size ≤ 2 ^ 31 - 1
    → vsnprintf buf size fmt f args bytes
      ≡ some (
        length (rendered f args fmt) % 2 ^ 32,
        with_text (room buf size) (rendered f args fmt) bytes,
      )
unfolding vsnprintf
vsnprintf-rendered buf size fmt f args bytes small =
    let start : Run = record {
      fmt = fmt;
      spec = empty_spec;
      next = 0;
      out = record { bytes = bytes; at = 0 };
    } in
    let text = rendered f args fmt in
    let fine : ltb (2 ^ 31 - 1) size ≡ false = ground arith in
    let length_of : (puts (room buf size) text start.out).at ≡ length text =
      omega (arith, puts-at (room buf size) text start.out) in
    rw (fine, print_loop-render (length fmt) (room buf size) f args start (omega arith), length_of)
      (ap (λ (b : ℕ → ℕ). some (length text % 2 ^ 32, b))
        (fun_ext (terminated (room buf size) text bytes)))

vsnprintf-too_large :
    (buf size : ℕ) (fmt : List ℕ) (f : Memory) (args bytes : ℕ → ℕ)
    → ltb (2 ^ 31 - 1) size ≡ true
    → vsnprintf buf size fmt f args bytes ≡ some (0, bytes)
unfolding vsnprintf
vsnprintf-too_large buf size fmt f args bytes large = rw large refl

-- A format and its arguments have one text, such that vsnprintf returns for every buffer and size: for
-- a size up to INT_MAX the length of the text, as an int, where it leaves in the buffer the text, cut
-- to the size less one, and a NUL behind it; for a larger size 0, where it leaves the buffer as it was.
-- The size is the one up to the last address, and for size 0 nothing is written.
pub vsnprintf-cuts :
    (fmt : List ℕ) (f : Memory) (args : ℕ → ℕ)
    → (text : List ℕ) × ((buf size : ℕ) (bytes : ℕ → ℕ)
        → vsnprintf buf size fmt f args bytes ≡ (
            if ltb (2 ^ 31 - 1) size
            then some (0, bytes)
            else some (length text % 2 ^ 32, with_text (room buf size) text bytes)))
vsnprintf-cuts fmt f args = (
  rendered f args fmt,
  λ buf size bytes. elim (Bool-cases (ltb (2 ^ 31 - 1) size)) [
    | inl large ↦ rw large (vsnprintf-too_large buf size fmt f args bytes large)
    | inr fine ↦ rw fine (vsnprintf-rendered buf size fmt f args bytes (ground arith))
  ],
)

room-within : (buf size : ℕ) → buf < 2 ^ 64 → size ≤ 2 ^ 31 - 1 → room buf size ≤ size
room-within buf size address small = elim (Bool-cases (ltb ((buf + size) % 2 ^ 64) buf)) [
  | inl wraps ↦ let over : (buf + size) % 2 ^ 64 < buf = ground arith in rw wraps (omega arith)
  | inr fine ↦ rw fine (omega arith)
]

with_text-beyond :
    (size : ℕ) (text : List ℕ) (bytes : ℕ → ℕ) (i : ℕ)
    → size ≤ i
    → with_text size text bytes i ≡ bytes i
with_text-beyond size text bytes i beyond = ground arith

returned :
    (m n : ℕ) (b written : ℕ → ℕ) (r : Option (ℕ × (ℕ → ℕ)))
    → r ≡ some (m, b)
    → r ≡ some (n, written)
    → (m ≡ n) × (b ≡ written)
returned m n b written r computed returns =
    let same : (m, b) ≡ (n, written) =
      some-injective (m, b) (n, written) (sym computed ∙ returns) in
    (ap (λ p. p.0) same, ap (λ p. p.1) same)

-- Whatever the format, the arguments and the size are, vsnprintf changes no byte from the size on.
pub vsnprintf-inside :
    (buf size : ℕ) (fmt : List ℕ) (f : Memory) (args bytes : ℕ → ℕ) (n : ℕ) (written : ℕ → ℕ)
    → buf < 2 ^ 64
    → vsnprintf buf size fmt f args bytes ≡ some (n, written)
    → (i : ℕ) → size ≤ i
    → written i ≡ bytes i
vsnprintf-inside buf size fmt f args bytes n written address returns i beyond =
    elim (Bool-cases (ltb (2 ^ 31 - 1) size)) [
      | inl large ↦
          let same =
            returned 0 n bytes written _ (vsnprintf-too_large buf size fmt f args bytes large)
              returns in
          sym (ap (λ (b : ℕ → ℕ). b i) same.1)
      | inr fine ↦
          let small : size ≤ 2 ^ 31 - 1 = ground arith in
          let text = rendered f args fmt in
          let same =
            returned _ n _ written _ (vsnprintf-rendered buf size fmt f args bytes small) returns in
          let within : room buf size ≤ i = omega (arith, room-within buf size address small) in
          sym (ap (λ (b : ℕ → ℕ). b i) same.1)
          ∙ with_text-beyond (room buf size) text bytes i within
    ]

-- The count that vsnprintf returns for a format and its arguments does not depend on the buffer: a
-- call with size 0 tells the length that any other call has, if both sizes are at most INT_MAX.
vsnprintf-count :
    (buf size buf1 size1 : ℕ) (fmt : List ℕ) (f : Memory) (args bytes bytes1 : ℕ → ℕ) (n n1 : ℕ)
    (written written1 : ℕ → ℕ)
    → size ≤ 2 ^ 31 - 1
    → size1 ≤ 2 ^ 31 - 1
    → vsnprintf buf size fmt f args bytes ≡ some (n, written)
    → vsnprintf buf1 size1 fmt f args bytes1 ≡ some (n1, written1)
    → n ≡ n1
vsnprintf-count buf size buf1 size1 fmt f args bytes bytes1 n n1 written written1 small small1
      returns returns1 =
    let same =
      returned _ n _ written _ (vsnprintf-rendered buf size fmt f args bytes small) returns in
    let same1 =
      returned _ n1 _ written1 _ (vsnprintf-rendered buf1 size1 fmt f args bytes1 small1)
        returns1 in
    sym same.0 ∙ same1.0
