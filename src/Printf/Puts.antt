-- ===== src/Printf/Puts.antt =====
-- Laws of the output: what a sequence of bytes leaves in the buffer.
use dragon_stub.Base.{
  ℕ, zero, suc, ◌+◌, ◌-◌, ◌≡◌, refl, arith, ◌&&◌, List, [], ◌∷◌, ◌++◌, ◌==◌, ltb, leb,
  if◌then◌else◌, length, get_or, replicate,
}
use dragon_stub.Printf.{Out, put, puts, fill}

pub puts-append :
    (size : ℕ) (s t : List ℕ) (o : Out) → puts size (s ++ t) o ≡ puts size t (puts size s o)
puts-append size [] t o = refl
puts-append size (c ∷ s) t o = puts-append size s t (put size c o)

pub fill-puts : (size n c : ℕ) (o : Out) → fill size n c o ≡ puts size (replicate n c) o
unfolding fill
fill-puts size zero c o = refl
fill-puts size (suc n) c o = fill-puts size n c (put size c o)

pub puts-at : (size : ℕ) (s : List ℕ) (o : Out) → (puts size s o).at ≡ o.at + length s
puts-at size [] o = omega arith
puts-at size (c ∷ s) o = omega (arith, puts-at size s (put size c o))

get_or_cons :
    (c : ℕ) (s : List ℕ) (k : ℕ) → get_or (c ∷ s) k 0 ≡ (if k == 0 then c else get_or s (k - 1) 0)
get_or_cons c s zero = refl
get_or_cons c s (suc k) = ground arith

-- Each byte stands at its place, if the buffer goes so far; all others are as they were.
pub puts-bytes :
    (size : ℕ) (s : List ℕ) (o : Out) (i : ℕ)
    → (puts size s o).bytes i ≡ (
        if leb o.at i && (ltb i (o.at + length s) && ltb i size)
        then get_or s (i - o.at) 0
        else o.bytes i)
puts-bytes size [] o i = ground arith
puts-bytes size (c ∷ s) o i =
    ground (arith, puts-bytes size s (put size c o) i, get_or_cons c s (i - o.at))
