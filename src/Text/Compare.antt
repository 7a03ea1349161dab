-- ===== src/Text/Compare.antt =====
-- The comparisons of apps/lib/string.c decide equality of strings.
use dragon_stub.Base.{
  ℕ, zero, suc, ◌≤◌, ◌<◌, ◌≡◌, refl, ap, arith, ◌↔◌, All, List, [], ◌∷◌, take, length, true,
}
use dragon_stub.Text.Str.{cstr, strlen, strcmp, strncmp, strstarts, memcmp}

abbrev pub IsBytes : List ℕ → Type 0
IsBytes = All (λ c. c < 256)

-- strcmp returns zero exactly when the two strings are the same up to their terminators.
pub strcmp_iff : (s t : List ℕ) → IsBytes s → IsBytes t → (strcmp s t ≡ 0) ↔ (cstr s ≡ cstr t)
unfolding strcmp
strcmp_iff [] [] hs ht = ground arith
strcmp_iff [] (d ∷ t) hs ht = ground arith
strcmp_iff (c ∷ s) [] hs ht = ground arith
strcmp_iff (c ∷ s) (d ∷ t) hs ht = ground (arith, strcmp_iff s t hs.1 ht.1)

-- strncmp returns zero exactly when the first `count` bytes of the two strings are the same.
strncmp_iff :
    (s t : List ℕ) (count : ℕ)
    → (strncmp s t count ≡ 0) ↔ (take count (cstr s) ≡ take count (cstr t))
unfolding strncmp
strncmp_iff s t zero = ground arith
strncmp_iff [] [] (suc n) = ground arith
strncmp_iff [] (d ∷ t) (suc n) = ground arith
strncmp_iff (c ∷ s) [] (suc n) = ground arith
strncmp_iff (c ∷ s) (d ∷ t) (suc n) = ground (arith, strncmp_iff s t n)

pub strlen_lem : (s : List ℕ) → strlen s ≡ length (cstr s)
unfolding strlen
strlen_lem [] = refl
strlen_lem (c ∷ s) = ground (arith, strlen_lem s)

take_all : (s : List ℕ) → take (length s) s ≡ s
take_all [] = refl
take_all (c ∷ s) = ap (λ (t : List ℕ). c ∷ t) (take_all s)

pub cstr-cstr : (s : List ℕ) → cstr (cstr s) ≡ cstr s
cstr-cstr [] = refl
cstr-cstr (c ∷ s) = ground (arith, cstr-cstr s)

-- strstarts holds exactly when the string begins with the prefix.
strstarts_iff : (s p : List ℕ) → (strstarts s p ≡ true) ↔ (take (length (cstr p)) (cstr s) ≡ cstr p)
unfolding strstarts
strstarts_iff s p =
    ground (arith, strlen_lem p, strncmp_iff s p (length (cstr p)), take_all (cstr p))

-- memcmp over strings that are long enough decides equality of their first bytes.
memcmp_iff :
    (l r : List ℕ) (n : ℕ)
    → IsBytes l
    → IsBytes r
    → n ≤ length l
    → n ≤ length r
    → (memcmp l r n ≡ 0) ↔ (take n l ≡ take n r)
unfolding memcmp
memcmp_iff l r zero hl hr p q = ground arith
memcmp_iff [] r (suc n) hl hr p q = absurd (omega arith)
memcmp_iff (c ∷ l) [] (suc n) hl hr p q = absurd (omega arith)
memcmp_iff (c ∷ l) (d ∷ r) (suc n) hl hr p q =
    ground (arith, memcmp_iff l r n hl.1 hr.1 (omega arith) (omega arith))
