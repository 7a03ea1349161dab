-- ===== src/Printf/Text/Shown.antt =====
-- What the string functions write: the text, cut by the precision and filled up to the width.
use dragon_stub.Base.{
  ℕ, zero, suc, ◌+◌, ◌-◌, ◌≡◌, refl, arith, sym, ap, ◌∙◌, ◌^◌, ◌||◌, All, take, true, false, Option,
  none, some, List, [], ◌∷◌, ◌==◌, ltb, if◌then◌else◌, length, get_or, Bool-cases, inl, inr,
}
use dragon_stub.Base.Int.{ℤ, pos, negsuc}
use dragon_stub.Machine.{Memory}
use dragon_stub.Printf.{PrintfSpec, Out, puts}
use dragon_stub.Printf.Text.{
  limit, string_nocheck, text_at, hard_limit, error_string, check_pointer_msg, check_pointer,
  string, is_err,
}
use dragon_stub.Printf.Text.Padded.{bounded, padded, copy_string-puts, widen_string-puts}

-- The most bytes that a precision lets through: an int without its sign.
abbrev pub most : ℤ → ℕ
most (pos n) = n
most (negsuc n) = 2 ^ 32 - (n + 1)

limit-most : (precision : ℤ) → limit precision ≡ most precision
unfolding limit
limit-most (pos n) = refl
limit-most (negsuc n) = omega arith

pub string_nocheck-puts :
    (size : ℕ) (f : Memory) (s : ℕ) (spec : PrintfSpec) (o : Out)
    → string_nocheck size f s spec o ≡ puts size (padded spec (bounded (most spec.precision) f s)) o
unfolding string_nocheck
string_nocheck-puts size f s spec o =
    let text = bounded (limit spec.precision) f s in
    let counted : 0 + length text ≡ length text = omega arith in
    rw (copy_string-puts size (limit spec.precision) f s 0 o, counted)
      (widen_string-puts size (bounded (limit spec.precision) f s) spec o)
    ∙ ap (λ (n : ℕ). puts size (padded spec (bounded n f s)) o) (limit-most spec.precision)

-- The most bytes of a message: 16 where no precision was given.
abbrev pub message_most : ℤ → ℕ
message_most (pos n) = n
message_most (negsuc zero) = 16
message_most (negsuc (suc n)) = 2 ^ 32 - (n + 2)

most-hard_limit : (precision : ℤ) → most (hard_limit precision) ≡ message_most precision
most-hard_limit (pos n) = refl
most-hard_limit (negsuc zero) = refl
most-hard_limit (negsuc (suc n)) =
    let given : (suc n == 0) ≡ false = ground arith in rw given (omega arith)

-- A message with no NUL in it.
abbrev pub Printable : List ℕ → Type 0
Printable = All (λ c. (c == 0) ≡ false)

bounded-take :
    (lim : ℕ) (f : Memory) (s : ℕ) (text : List ℕ)
    → ((i : ℕ) → f (s + i) ≡ get_or text i 0)
    → Printable text
    → bounded lim f s ≡ take lim text
unfolding bounded
bounded-take zero f s text holds printable = refl
bounded-take (suc lim) f s [] holds printable =
    let start : s + 0 ≡ s = omega arith in
    let at : f s ≡ 0 = ap f (sym start) ∙ holds 0 in
    let ends : (f s == 0) ≡ true = ground arith in rw (bounded, ends) refl
bounded-take (suc lim) f s (c ∷ text) holds printable =
    let start : s + 0 ≡ s = omega arith in
    let at : f s ≡ c = ap f (sym start) ∙ holds 0 in
    let more : (f s == 0) ≡ false = ap (λ (k : ℕ). k == 0) at ∙ printable.0 in
    let rest =
      bounded-take lim f (s + 1) text
        (λ i. let next : s + 1 + i ≡ s + suc i = omega arith in ap f next ∙ holds (suc i))
        printable.1 in
    rw (bounded, more) (λ j. at j ∷ rest j)

-- The message in its field.
abbrev pub message_text : List ℕ → PrintfSpec → List ℕ
message_text text spec = padded spec (take (message_most spec.precision) text)

pub error_string-puts :
    (size : ℕ) (text : List ℕ) (spec : PrintfSpec) (o : Out)
    → Printable text
    → error_string size text spec o ≡ puts size (message_text text spec) o
unfolding error_string
error_string-puts size text spec o printable =
    string_nocheck-puts size (text_at text) 0
      (record spec { precision = hard_limit spec.precision }) o
    ∙ ap (λ (n : ℕ). puts size (padded spec (bounded n (text_at text) 0)) o)
        (most-hard_limit spec.precision)
    ∙ ap (λ t. puts size (padded spec t) o)
        (bounded-take (message_most spec.precision) (text_at text) 0 text
          (λ i. let same : 0 + i ≡ i = omega arith in ap (text_at text) same) printable)

-- What is shown for a pointer that cannot be one: "(null)" for 0, "(efault)" for any other address in
-- the first page and for the last 4095 addresses.
abbrev pub pointer_message : (ptr : ℕ) → Option (List ℕ)
pointer_message ptr =
    if ptr == 0
    then some (b'(' ∷ b'n' ∷ b'u' ∷ b'l' ∷ b'l' ∷ b')' ∷ [])
    else if ltb ptr 4096
    then some (b'(' ∷ b'e' ∷ b'f' ∷ b'a' ∷ b'u' ∷ b'l' ∷ b't' ∷ b')' ∷ [])
    else if ltb (2 ^ 64 - 4096) ptr
    then some (b'(' ∷ b'e' ∷ b'f' ∷ b'a' ∷ b'u' ∷ b'l' ∷ b't' ∷ b')' ∷ [])
    else none

check_pointer_msg-message : (ptr : ℕ) → check_pointer_msg ptr ≡ pointer_message ptr
unfolding check_pointer_msg
check_pointer_msg-message ptr = ground arith

abbrev MessagePrintable : Option (List ℕ) → Type 0
MessagePrintable none = Unit {0}
MessagePrintable (some text) = Printable text

check_pointer_msg-MessagePrintable : (ptr : ℕ) → MessagePrintable (check_pointer_msg ptr)
unfolding check_pointer_msg
check_pointer_msg-MessagePrintable ptr = elim (Bool-cases (ptr == 0)) [
  | inl null ↦ rw null (refl, (refl, (refl, (refl, (refl, (refl, tt))))))
  | inr address ↦ elim (Bool-cases (ltb ptr 4096 || is_err ptr)) [
    | inl fault ↦
        rw (address, fault) (refl, (refl, (refl, (refl, (refl, (refl, (refl, (refl, tt))))))))
    | inr good ↦ rw (address, good) tt
  ]
]

-- The text of a pointer that check_pointer does not let through, or what is shown for a good one.
abbrev pub message_or : Option (List ℕ) → PrintfSpec → List ℕ → List ℕ
message_or none spec good = good
message_or (some err_msg) spec good = message_text err_msg spec

abbrev pub checked : (ptr : ℕ) → PrintfSpec → List ℕ → List ℕ
checked ptr spec good = message_or (pointer_message ptr) spec good

pub check_pointer-puts :
    (size ptr : ℕ) (spec : PrintfSpec) (good : Out → Out) (text : List ℕ) (o : Out)
    → ((p : Out) → good p ≡ puts size text p)
    → check_pointer size ptr spec good o ≡ puts size (checked ptr spec text) o
unfolding check_pointer
check_pointer-puts size ptr spec good text o shows =
    by_message (check_pointer_msg ptr) (check_pointer_msg-MessagePrintable ptr)
    ∙ ap (λ msg. puts size (message_or msg spec text) o) (check_pointer_msg-message ptr)
  where
    by_message :
        (msg : Option (List ℕ))
        → MessagePrintable msg
        → (elim msg [ none ↦ good o | some err_msg ↦ error_string size err_msg spec o ])
          ≡ puts size (message_or msg spec text) o
    by_message none printable = shows o
    by_message (some err_msg) printable = error_string-puts size err_msg spec o printable

-- The text of a string argument.
abbrev pub string_text : Memory → (s : ℕ) → PrintfSpec → List ℕ
string_text f s spec = checked s spec (padded spec (bounded (most spec.precision) f s))

-- string writes the bytes before the NUL, at most as many as the precision says, filled up to the
-- width by spaces; for a null pointer it writes (null), and for any other address in the first page
-- and for the last 4095 addresses (efault), cut and filled in the same way. A negative precision is
-- its 32-bit word, and -1 is 16 for these two texts.
pub string-puts :
    (size : ℕ) (f : Memory) (s : ℕ) (spec : PrintfSpec) (o : Out)
    → string size f s spec o ≡ puts size (string_text f s spec) o
unfolding string
string-puts size f s spec o =
    check_pointer-puts size s spec (string_nocheck size f s spec)
      (padded spec (bounded (most spec.precision) f s)) o (string_nocheck-puts size f s spec)
