-- ===== src/Printf/Pointer/Shown.antt =====
-- What the functions behind %p write.
use dragon_stub.Base.{
  ℕ, zero, suc, ◌+◌, ◌≡◌, refl, Bool, true, false, ◌&&◌, ◌||◌, not, List, [], ◌∷◌, ◌==◌,
  if◌then◌else◌, Bool-cases, inl, inr,
}
use dragon_stub.Machine.{Memory}
use dragon_stub.Printf.{PrintfSpec, Out, puts}
use dragon_stub.Printf.Number.Shown.{number_text, number-puts}
use dragon_stub.Printf.Text.{text_at, is_err, string_nocheck}
use dragon_stub.Printf.Text.Padded.{bounded, padded}
use dragon_stub.Printf.Text.Shown.{
  most, message_text, checked, check_pointer-puts, string_nocheck-puts, error_string-puts,
  string_text, string-puts, Printable,
}
use dragon_stub.Printf.Format.{head, tail}
use dragon_stub.Printf.Pointer.{
  pointer_spec, pointer_string, hex_asc_hi, hex_asc_lo, hex_separator, hex_len, put_hex, is_zero,
  hex_string, mac_addr, mac_address_string, sign_extend, err_ptr, einval_text, pointer,
}

-- The bytes in hexadecimal, separated.
unfoldable pub hex_text : Memory → (addr n separator : ℕ) → List ℕ
hex_text f addr zero separator = []
hex_text f addr (suc n) separator =
    let rest = hex_text f (addr + 1) n separator in
    hex_asc_hi (f addr)
    ∷ hex_asc_lo (f addr)
    ∷ (if not (separator == 0) && not (n == 0) then separator ∷ rest else rest)

put_hex-puts :
    (size : ℕ) (f : Memory) (addr n separator : ℕ) (o : Out)
    → put_hex size f addr n separator o ≡ puts size (hex_text f addr n separator) o
unfolding put_hex hex_text
put_hex-puts size f addr zero separator o = refl
put_hex-puts size f addr (suc n) separator o =
    elim (Bool-cases (not (separator == 0) && not (n == 0))) [
      | inl more ↦ rw more (put_hex-puts size f (addr + 1) n separator _)
      | inr last ↦ rw last (put_hex-puts size f (addr + 1) n separator _)
    ]

-- The text of a pointer argument, by what follows %p.
abbrev pub pointer_text : Memory → (fmt : List ℕ) → (ptr : ℕ) → PrintfSpec → List ℕ
pointer_text f fmt ptr spec =
    let c = head fmt in
    if c == b'h'
    then (if is_zero spec.field_width
        then []
        else checked ptr spec
            (hex_text f ptr (hex_len spec.field_width) (hex_separator (head (tail fmt)))))
    else if (c == b'M') || (c == b'm')
    then checked ptr spec
        (padded spec (bounded (most spec.precision) (text_at (mac_addr f ptr fmt)) 0))
    else if c == b'x'
    then number_text (pointer_spec spec) ptr
    else if c == b'e'
    then (if not (is_err ptr)
        then number_text (pointer_spec spec) ptr
        else number_text (record spec { base = 10; flags = record spec.flags { sign = true } })
            (sign_extend 32 ptr))
    else if (c == b'u') || (c == b'k')
    then (if head (tail fmt) == b's' then string_text f ptr spec else message_text einval_text spec)
    else number_text (pointer_spec spec) ptr

-- Two branches that each write a text.
if-puts :
    (b : Bool) (size : ℕ) (x y : Out) (s t : List ℕ) (o : Out)
    → x ≡ puts size s o
    → y ≡ puts size t o
    → (if b then x else y) ≡ puts size (if b then s else t) o
if-puts true size x y s t o first second = first
if-puts false size x y s t o first second = second

hex_string-puts :
    (size : ℕ) (f : Memory) (addr : ℕ) (spec : PrintfSpec) (fmt : List ℕ) (o : Out)
    → hex_string size f addr spec fmt o
      ≡ puts size
          (if is_zero spec.field_width
            then []
            else checked addr spec
                (hex_text f addr (hex_len spec.field_width) (hex_separator (head (tail fmt)))))
          o
unfolding hex_string
hex_string-puts size f addr spec fmt o =
    let n = hex_len spec.field_width in
    let separator = hex_separator (head (tail fmt)) in
    elim (Bool-cases (is_zero spec.field_width)) [
      | inl more ↦ rw more refl
      | inr last ↦ rw last (
          check_pointer-puts size addr spec (put_hex size f addr n separator)
            (hex_text f addr n separator) o (put_hex-puts size f addr n separator))
    ]

mac_address_string-puts :
    (size : ℕ) (f : Memory) (addr : ℕ) (spec : PrintfSpec) (fmt : List ℕ) (o : Out)
    → mac_address_string size f addr spec fmt o
      ≡ puts size
          (checked addr spec
            (padded spec (bounded (most spec.precision) (text_at (mac_addr f addr fmt)) 0)))
          o
unfolding mac_address_string
mac_address_string-puts size f addr spec fmt o =
    let text = text_at (mac_addr f addr fmt) in
    check_pointer-puts size addr spec (string_nocheck size text 0 spec)
      (padded spec (bounded (most spec.precision) text 0)) o (string_nocheck-puts size text 0 spec)

einval-Printable : Printable einval_text
einval-Printable = (refl, (refl, (refl, (refl, (refl, (refl, (refl, (refl, tt))))))))

-- pointer writes the text that pointer_text describes.
pub pointer-puts :
    (size : ℕ) (f : Memory) (fmt : List ℕ) (ptr : ℕ) (spec : PrintfSpec) (o : Out)
    → pointer size f fmt ptr spec o ≡ puts size (pointer_text f fmt ptr spec) o
unfolding pointer pointer_string err_ptr
pointer-puts size f fmt ptr spec o =
    let address = number-puts size ptr (pointer_spec spec) o in
    let error =
      number-puts size (sign_extend 32 ptr)
        (record spec { base = 10; flags = record spec.flags { sign = true } }) o in
    if-puts (head fmt == b'h') size _ _ _ _ o (hex_string-puts size f ptr spec fmt o) (
      if-puts ((head fmt == b'M') || (head fmt == b'm')) size _ _ _ _ o
        (mac_address_string-puts size f ptr spec fmt o)
        (if-puts (head fmt == b'x') size _ _ _ _ o address (
          if-puts (head fmt == b'e') size _ _ _ _ o
            (if-puts (not (is_err ptr)) size _ _ _ _ o address error)
            (if-puts ((head fmt == b'u') || (head fmt == b'k')) size _ _ _ _ o
              (if-puts (head (tail fmt) == b's') size _ _ _ _ o (string-puts size f ptr spec o)
                (error_string-puts size einval_text spec o einval-Printable))
              address))))
