-- ===== src/Printf/Print/Shown.antt =====
-- What vsnprintf writes: the text of a format and its arguments, whatever the size of the buffer.
use dragon_stub.Base.{
  ℕ, zero, suc, ◌+◌, ◌-◌, ◌%◌, ◌^◌, ◌≤◌, ◌<◌, ◌≡◌, refl, arith, sym, ap, ◌∙◌, Bool, true, false,
  ◌||◌, none, some, List, [], ◌∷◌, ◌++◌, ◌==◌, ltb, if◌then◌else◌, length, length-take, take,
  replicate, get_or, Bool-cases, inl, inr,
}
use dragon_stub.Machine.{Memory}
use dragon_stub.Printf.{FormatType, PrintfSpec, Out, puts}
use dragon_stub.Printf.Puts.{puts-append, fill-puts, puts-at, puts-bytes}
use dragon_stub.Printf.Number.Shown.{number_text, number-puts}
use dragon_stub.Printf.Text.Padded.{same_out}
use dragon_stub.Printf.Text.Shown.{string_text, string-puts}
use dragon_stub.Printf.Pointer.Shown.{pointer_text, pointer-puts}
use dragon_stub.Printf.Format.{head, format_decode}
use dragon_stub.Printf.Format.Progress.{is_invalid, format_decode-Advances}
use dragon_stub.Printf.Print.{
  char_rounds, after_char_rounds, print_char, print_plain, integer_arg, skip_while, skip_alnum, Run,
  token_out, token_spec, token_args, token_fmt, print_token, print_loop,
}

-- The character with the spaces of the field.
abbrev pub char_text : (arg : ℕ) → PrintfSpec → List ℕ
char_text arg spec =
    let width = spec.field_width in
    if spec.flags.left
    then (arg % 2 ^ 8) ∷ replicate (char_rounds width) b' '
    else replicate (char_rounds width) b' '
      ++ ((arg % 2 ^ 8) ∷ replicate (char_rounds (after_char_rounds width)) b' ')

print_char-puts :
    (size arg : ℕ) (spec : PrintfSpec) (o : Out)
    → print_char size arg spec o ≡ puts size (char_text arg spec) o
unfolding print_char
print_char-puts size arg spec o = elim (Bool-cases spec.flags.left) [
  | inl l ↦ simp (l, fill-puts) refl
  | inr l ↦ simp (l, fill-puts, puts-append) refl
]

get_or-take : (n : ℕ) (s : List ℕ) (i : ℕ) → i < n → get_or (take n s) i 0 ≡ get_or s i 0
get_or-take zero s i below = absurd (omega arith)
get_or-take (suc n) [] i below = refl
get_or-take (suc n) (c ∷ s) zero below = refl
get_or-take (suc n) (c ∷ s) (suc i) below = get_or-take n s i (omega arith)

print_plain-puts :
    (size read : ℕ) (s : List ℕ) (o : Out)
    → read ≤ length s
    → print_plain size read s o ≡ puts size (take read s) o
unfolding print_plain
print_plain-puts size read s o short =
    let long : length (take read s) ≡ read = omega (arith, length-take read s) in
    same_out _ _
      (λ i. elim (Bool-cases (ltb (i - o.at) read)) [
        | inl inside ↦ ground (
          arith,
          inside,
          long,
          puts-bytes size (take read s) o i,
          get_or-take read s (i - o.at) (ground arith),
        )
        | inr beyond ↦ ground (arith, beyond, long, puts-bytes size (take read s) o i)
      ])
      (omega (arith, puts-at size (take read s) o, long))

-- The text of a token.
abbrev pub token_text :
    FormatType → Memory → PrintfSpec → (old_fmt fmt : List ℕ) → (arg : ℕ) → List ℕ
token_text FormatType.plain f spec old_fmt fmt arg = take (length old_fmt - length fmt) old_fmt
token_text FormatType.width f spec old_fmt fmt arg = []
token_text FormatType.precision f spec old_fmt fmt arg = []
token_text FormatType.char f spec old_fmt fmt arg = char_text arg spec
token_text FormatType.str f spec old_fmt fmt arg = string_text f (arg % 2 ^ 64) spec
token_text FormatType.ptr f spec old_fmt fmt arg = pointer_text f fmt (arg % 2 ^ 64) spec
token_text FormatType.percent_char f spec old_fmt fmt arg = b'%' ∷ []
token_text FormatType.invalid f spec old_fmt fmt arg = []
token_text type f spec old_fmt fmt arg = number_text spec (integer_arg type arg)

token_out-puts :
    (type : FormatType) (size : ℕ) (f : Memory) (spec : PrintfSpec) (old_fmt fmt : List ℕ) (arg : ℕ)
    (o : Out)
    → token_out type size f spec old_fmt fmt arg o
      ≡ puts size (token_text type f spec old_fmt fmt arg) o
token_out-puts FormatType.plain size f spec old_fmt fmt arg o =
    print_plain-puts size (length old_fmt - length fmt) old_fmt o (omega arith)
token_out-puts FormatType.width size f spec old_fmt fmt arg o = refl
token_out-puts FormatType.precision size f spec old_fmt fmt arg o = refl
token_out-puts FormatType.char size f spec old_fmt fmt arg o = print_char-puts size arg spec o
token_out-puts FormatType.str size f spec old_fmt fmt arg o =
    string-puts size f (arg % 2 ^ 64) spec o
token_out-puts FormatType.ptr size f spec old_fmt fmt arg o =
    pointer-puts size f fmt (arg % 2 ^ 64) spec o
token_out-puts FormatType.percent_char size f spec old_fmt fmt arg o = refl
token_out-puts FormatType.invalid size f spec old_fmt fmt arg o = refl
token_out-puts type size f spec old_fmt fmt arg o = number-puts size (integer_arg type arg) spec o

-- The text of the format from `fmt` on; an invalid conversion ends it.
unfoldable pub render :
    (fuel : ℕ) → Memory → (args : ℕ → ℕ) → (fmt : List ℕ) → PrintfSpec → (next : ℕ) → List ℕ
render zero f args fmt spec next = []
render (suc fuel) f args fmt spec next =
    let decoded = format_decode spec fmt in
    let type = decoded.0.type in
    let arg = args next in
    let rest =
      render fuel f args (token_fmt type decoded.1) (token_spec type arg decoded.0)
        (next + token_args type) in
    if (head fmt == 0) || is_invalid type
    then []
    else token_text type f decoded.0 fmt decoded.1 arg ++ rest

length-skip_while : (test : ℕ → Bool) (s : List ℕ) → length (skip_while test s) ≤ length s
length-skip_while test [] = omega arith
length-skip_while test (c ∷ s) = ground (arith, length-skip_while test s)

length-skip_alnum : (s : List ℕ) → length (skip_alnum s) ≤ length s
unfolding skip_alnum
length-skip_alnum s = length-skip_while _ s

length-token_fmt : (type : FormatType) (s : List ℕ) → length (token_fmt type s) ≤ length s
unfolding token_fmt
length-token_fmt FormatType.ptr s = length-skip_alnum s
length-token_fmt type s = omega arith

print_loop-suc :
    (fuel size : ℕ) (f : Memory) (args : ℕ → ℕ) (r : Run)
    → print_loop (suc fuel) size f args r ≡ (elim (head r.fmt == 0) [
      | true ↦ some r.out
      | false ↦ elim (print_token size f args r) [
        | none ↦ some r.out
        | some later ↦ print_loop fuel size f args later
      ]
    ])
unfolding print_loop
print_loop-suc fuel size f args r = refl

-- With fuel for each byte of the format the loop ends, and has written the text.
pub print_loop-render :
    (fuel size : ℕ) (f : Memory) (args : ℕ → ℕ) (r : Run)
    → length r.fmt ≤ fuel
    → print_loop fuel size f args r
      ≡ some (puts size (render fuel f args r.fmt r.spec r.next) r.out)
unfolding print_loop print_token render
print_loop-render zero size f args r short = rw (ended r.fmt short) refl
  where
    ended : (s : List ℕ) → length s ≤ 0 → (head s == 0) ≡ true
    ended [] short = refl
    ended (c ∷ s) short = absurd (omega arith)
print_loop-render (suc fuel) size f args r short = elim (Bool-cases (head r.fmt == 0)) [
  | inl ended ↦ rw (print_loop-suc fuel size f args r, ended) refl
  | inr text ↦ elim (Bool-cases (is_invalid (format_decode r.spec r.fmt).0.type)) [
    | inl invalid ↦ rw (print_loop-suc fuel size f args r, text, invalid) refl
    | inr valid ↦
        let decoded = format_decode r.spec r.fmt in
        let type = decoded.0.type in
        let arg = args r.next in
        let later : Run = record {
          fmt = token_fmt type decoded.1;
          spec = token_spec type arg decoded.0;
          next = r.next + token_args type;
          out = token_out type size f decoded.0 r.fmt decoded.1 arg r.out;
        } in
        let shorter : length later.fmt ≤ fuel = omega (
          arith,
          length-token_fmt type decoded.1,
          format_decode-Advances r.spec r.fmt text valid,
        ) in
        let rest = render fuel f args later.fmt later.spec later.next in
        rw (print_loop-suc fuel size f args r, text, valid)
          (print_loop-render fuel size f args later shorter
            ∙ ap (λ o. some (puts size rest o))
                (token_out-puts type size f decoded.0 r.fmt decoded.1 arg r.out)
            ∙ ap some (
                sym
                  (puts-append size (token_text type f decoded.0 r.fmt decoded.1 arg) rest r.out)))
  ]
]
