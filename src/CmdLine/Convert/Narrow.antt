-- ===== src/CmdLine/Convert/Narrow.antt =====
-- What arrives of the options that efi_convert_cmdline has printed with "%.*ls".
use dragon_stub.Base.{
  zero_minus, ℕ, zero, suc, ◌+◌, ◌-◌, ◌%◌, ◌^◌, ◌≤◌, ◌<◌, ◌≡◌, refl, arith, sym, ap, ◌∙◌, true,
  false, Option, none, some, [], ◌∷◌, ◌++◌, ◌==◌, ltb, leb, length, get_or,
}
use dragon_stub.Base.Int.{pos, minus_one, signed}
use dragon_stub.Machine.{Memory}
use dragon_stub.CmdLine.Convert.{cmdline_format, overlay, print_cmdline}
use mathlib.Core.List.{append-nil}
use dragon_stub.Text.CType.{to_lower}
use dragon_stub.Printf.{FormatType, no_flags, PrintfSpec}
use dragon_stub.Printf.Text.Padded.{bounded}
use dragon_stub.Printf.Text.Shown.{pointer_message, string_text}
use dragon_stub.Printf.Format.{format_decode}
use dragon_stub.Printf.Print.{room, token_fmt}
use dragon_stub.Printf.Print.Shown.{render}
use dragon_stub.Printf.Print.Buffer.{rendered, with_text, vsnprintf-rendered}

signed_small : (n : ℕ) → n < 2 ^ 15 → signed 32 n ≡ pos n
signed_small n lt = ground arith

-- The spec with which the options are printed.
abbrev cmdline_spec : (p : ℕ) → PrintfSpec
cmdline_spec p = record {
  type = FormatType.str;
  field_width = minus_one;
  flags = no_flags;
  base = 10;
  precision = pos p;
}

rendered_cmdline :
    (f : Memory) (p options : ℕ)
    → p < 2 ^ 15
    → rendered f (λ i. get_or (p ∷ options ∷ []) i 0) cmdline_format
      ≡ string_text f (options % 2 ^ 64) (cmdline_spec p) ++ []
unfolding render format_decode token_fmt to_lower
rendered_cmdline f p options small =
    let fit : ltb p (2 ^ 15) ≡ true = ground arith in rw (signed_small p small, fit) refl

good_pointer : (s : ℕ) → 4096 ≤ s → s < 2 ^ 64 - 4095 → pointer_message s ≡ none
good_pointer s above below = ground arith

-- The text up to the first NUL.
cmdline_text :
    (f : Memory) (p options : ℕ)
    → 4096 ≤ options
    → options < 2 ^ 64 - 4095
    → string_text f (options % 2 ^ 64) (cmdline_spec p) ≡ bounded p f options
unfolding bounded
cmdline_text f p options above below =
    let same : options % 2 ^ 64 ≡ options = omega arith in
    rw (same, good_pointer options above below, zero_minus (length (bounded p f options))) refl

-- A word whose high byte is zero ends the text.
bounded-one :
    (f : Memory) (p s : ℕ) → 1 ≤ p → (f s == 0) ≡ false → f (s + 1) ≡ 0 → bounded p f s ≡ f s ∷ []
unfolding bounded
bounded-one f zero s some_left text ends = absurd (omega arith)
bounded-one f (suc zero) s some_left text ends = rw (bounded, text) refl
bounded-one f (suc (suc p)) s some_left text ends =
    let at_end : (f (s + 1) == 0) ≡ true = ground arith in rw (bounded, text, at_end) refl

print_cmdline-text :
    (f : Memory) (cmdline bytes options : ℕ)
    → bytes ≤ 1024
    → let args : ℕ → ℕ = λ i. get_or ((bytes - 1) ∷ options ∷ []) i 0 in
      let text = rendered f args cmdline_format in
      print_cmdline f cmdline bytes options
      ≡ overlay
          (some (length text % 2 ^ 32, with_text (room cmdline bytes) text (λ i. f (cmdline + i))))
          f
          cmdline
unfolding print_cmdline
print_cmdline-text f cmdline bytes options small =
    let args : ℕ → ℕ = λ i. get_or ((bytes - 1) ∷ options ∷ []) i 0 in
    ap (λ (r : Option (ℕ × (ℕ → ℕ))). overlay r f cmdline)
      (vsnprintf-rendered cmdline bytes cmdline_format f args (λ i. f (cmdline + i)) (omega arith))

room-all : (buf size : ℕ) → buf + size < 2 ^ 64 → room buf size ≡ size
room-all buf size fits =
    let low : (buf + size) % 2 ^ 64 ≡ buf + size = omega arith in
    let after : ltb (buf + size) buf ≡ false = ground arith in rw (low, after) refl

with_one :
    (size c : ℕ) (bytes : ℕ → ℕ)
    → 2 ≤ size
    → (with_text size (c ∷ []) bytes 0 ≡ c) × (with_text size (c ∷ []) bytes 1 ≡ 0)
with_one size c bytes some_left = (ground arith, ground arith)

-- Of options that begin with a character of ASCII, efi_convert_cmdline has only this character printed:
-- the second byte of the buffer is the NUL, whatever follows in the options. The buffer has at least two
-- bytes and the options stand at an address that check_pointer lets through.
pub print_cmdline-first :
    (f : Memory) (cmdline bytes options : ℕ)
    → 2 ≤ bytes
    → bytes ≤ 1024
    → cmdline + bytes < 2 ^ 64
    → 4096 ≤ options
    → options < 2 ^ 64 - 4095
    → 1 ≤ f options
    → f (options + 1) ≡ 0
    → (print_cmdline f cmdline bytes options cmdline ≡ f options)
      × (print_cmdline f cmdline bytes options (cmdline + 1) ≡ 0)
print_cmdline-first f cmdline bytes options some_left small in_space above below text ends =
    let args : ℕ → ℕ = λ i. get_or ((bytes - 1) ∷ options ∷ []) i 0 in
    let shown : rendered f args cmdline_format ≡ f options ∷ [] =
      rendered_cmdline f (bytes - 1) options (omega arith)
      ∙ append-nil _
      ∙ cmdline_text f (bytes - 1) options above below
      ∙ bounded-one f (bytes - 1) options (omega arith) (ground arith) ends in
    let one = with_one bytes (f options) (λ i. f (cmdline + i)) some_left in
    let at : (k : ℕ)
        → print_cmdline f cmdline bytes options (cmdline + k)
          ≡ with_text bytes (f options ∷ []) (λ i. f (cmdline + i)) k =
      λ k.
        let inside : leb cmdline (cmdline + k) ≡ true = ground arith in
        let index : cmdline + k - cmdline ≡ k = omega arith in
        rw
          (
            print_cmdline-text f cmdline bytes options small,
            shown,
            room-all cmdline bytes in_space,
            inside,
            index,
          )
          refl in
    let start : cmdline + 0 ≡ cmdline = omega arith in
    (ap (print_cmdline f cmdline bytes options) (sym start) ∙ at 0 ∙ one.0, at 1 ∙ one.1)
