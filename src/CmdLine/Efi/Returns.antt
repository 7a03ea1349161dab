-- ===== src/CmdLine/Efi/Returns.antt =====
-- efi_parse_options of apps/helper.c always returns, and gives its buffer back.
use dragon_stub.Base.{
  ℕ, zero, suc, ◌+◌, ◌-◌, ◌≤◌, ◌<◌, ◌≡◌, ◌≢◌, refl, arith, true, List, [], ◌∷◌, none, some,
  if◌then◌else◌, length, drop, get_or, Option-cases, inl, inr,
}
use dragon_stub.Machine.{Firmware, Machine, Globals, efi_success}
use dragon_stub.Pages.{failed, efi_loader_data}
use dragon_stub.Pages.Ownership.{pools}
use dragon_stub.Text.Str.{strnlen}
use dragon_stub.CmdLine.{next_arg, count_spaces}
use dragon_stub.CmdLine.NextArg.{length-next_arg, next_arg-advances}
use dragon_stub.CmdLine.Convert.{command_line_size}
use dragon_stub.CmdLine.Efi.{
  apply_arg, text_at, parse_args, parsed_options, options_buffer, efi_parse_options,
}

get_or-beyond : (xs : List ℕ) (i : ℕ) → length xs ≤ i → get_or xs i 0 ≡ 0
get_or-beyond [] i le = refl
get_or-beyond (x ∷ xs) zero le = absurd (omega arith)
get_or-beyond (x ∷ xs) (suc i) le = get_or-beyond xs i (omega arith)

parse_args-ends :
    (fuel : ℕ) (buffer : List ℕ) (str : ℕ) (g : Globals)
    → length buffer < fuel + str
    → 1 ≤ fuel
    → parse_args fuel buffer str g ≢ none
unfolding parse_args
parse_args-ends zero buffer str g lt le = absurd (omega arith)
parse_args-ends (suc fuel) buffer str g lt le =
    let arg = next_arg buffer str in
    let next = apply_arg (drop arg.param arg.buffer) (text_at arg.buffer arg.val) g in
    ground (
      arith,
      get_or-beyond buffer str,
      length-next_arg buffer str,
      next_arg-advances buffer str,
      parse_args-ends fuel arg.buffer arg.next next,
    )

pub parsed_options-returns : (cmdline : List ℕ) (g : Globals) → parsed_options cmdline g ≢ none
unfolding parsed_options
parsed_options-returns cmdline g =
    let buf = options_buffer cmdline in
    parse_args-ends (suc (length buf)) buf (count_spaces buf) g (omega arith) (omega arith)

-- efi_parse_options always returns. It reports EFI_SUCCESS or the error of AllocatePool, and keeps no
-- pool memory. On an error the global variables stay as they are, else they are the parsed ones.
pub efi_parse_options-returns :
    (fw : Firmware) (cmdline : List ℕ) (m : Machine)
    → let got =
        fw.allocate_pool m.history efi_loader_data (strnlen cmdline (command_line_size - 1) + 1) in
      let r = efi_parse_options fw cmdline m in
      (r.0 ≡ some (if failed got.0 then got.0 else efi_success))
      × (pools r.1.history ≡ pools m.history)
      × (failed got.0 ≡ true → r.1.globals ≡ m.globals)
      × (failed got.0 ≢ true → some r.1.globals ≡ parsed_options cmdline m.globals)
unfolding efi_parse_options
efi_parse_options-returns fw cmdline m = elim (Option-cases (parsed_options cmdline m.globals)) [
  | inl e ↦ absurd (parsed_options-returns cmdline m.globals e)
  | inr (h, e) ↦ ground (arith, e)
]
