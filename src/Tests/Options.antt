-- ===== src/Tests/Options.antt =====
-- The command line at concrete inputs.
use dragon_stub.Base.{
  ◌⊎◌, length, ◌*◌, ◌%◌, ◌^◌, get_or, ℕ, ◌+◌, ◌-◌, ◌≡◌, ◌≢◌, ◌<◌, ◌≤◌, refl, arith, true, some,
  List, [], ◌∷◌, if◌then◌else◌,
}
use dragon_stub.Machine.{Machine, efi_success}
use dragon_stub.Pages.{failed, efi_loader_data}
use dragon_stub.Pages.Ownership.{pools}
use dragon_stub.Machine.{Memory}
use dragon_stub.CmdLine.Convert.{print_cmdline}
use dragon_stub.CmdLine.Convert.Narrow.{print_cmdline-first}
use dragon_stub.CmdLine.Fields.{fields, any_same, parse_option_str-fields}
use dragon_stub.CmdLine.Ints.{Ints, Reading, get_options}
use dragon_stub.CmdLine.Ints.Rest.{has_dash}
use dragon_stub.CmdLine.Ints.Laws.{element, get_options-element}
use dragon_stub.Text.Str.{strnlen, simple_strtoull, simple_strtol, strtoull_loop, simple_guess_base}
use dragon_stub.Text.CType.{isxdigit, isdigit, to_lower}
use dragon_stub.CmdLine.{get_option, next_arg, parse_option_str, memparse}
use dragon_stub.CmdLine.Convert.{cmdline_bytes, command_line_size}
use dragon_stub.CmdLine.Convert.Bounds.{cmdline_bytes-bounds}
use dragon_stub.CmdLine.Efi.{parsed_options, efi_parse_options}
use dragon_stub.CmdLine.Efi.Returns.{efi_parse_options-returns}
use dragon_stub.CmdLine.NextArg.{next_arg-advances}
use dragon_stub.CmdLine.Suffix.{suffix_factor, memparse-suffix_factor}
use dragon_stub.Tests.Platform.{platform, start_with}

-- The line `nokaslr efi=novamap`.
abbrev line : List ℕ
line =
    b'n' ∷ b'o' ∷ b'k' ∷ b'a' ∷ b's' ∷ b'l' ∷ b'r' ∷ b' ' ∷ b'e' ∷ b'f' ∷ b'i' ∷ b'=' ∷ b'n' ∷ b'o'
    ∷ b'v' ∷ b'a' ∷ b'm' ∷ b'a' ∷ b'p' ∷ 0 ∷ []

abbrev blank : Machine
blank = start_with (λ _. 0)

next_arg-advances_example : 0 < (next_arg line 0).next
next_arg-advances_example = next_arg-advances line 0 (omega arith)

cmdline_bytes-bounds_example : (1 ≤ cmdline_bytes line) × (cmdline_bytes line ≤ command_line_size)
cmdline_bytes-bounds_example = cmdline_bytes-bounds line

efi_parse_options-returns_example :
    let got =
      platform.allocate_pool blank.history efi_loader_data
        (strnlen line (command_line_size - 1) + 1) in
    let r = efi_parse_options platform line blank in
    (r.0 ≡ some (if failed got.0 then got.0 else efi_success))
    × (pools r.1.history ≡ pools blank.history)
    × (failed got.0 ≡ true → r.1.globals ≡ blank.globals)
    × (failed got.0 ≢ true → some r.1.globals ≡ parsed_options line blank.globals)
efi_parse_options-returns_example = efi_parse_options-returns platform line blank

memparse-suffix_factor_example :
    (memparse (b'4' ∷ b'M' ∷ 0 ∷ [])).0
    ≡ (simple_strtoull (b'4' ∷ b'M' ∷ 0 ∷ []) 0).0
      * suffix_factor (get_or (simple_strtoull (b'4' ∷ b'M' ∷ 0 ∷ []) 0).1 0 0)
      % 2 ^ 64
memparse-suffix_factor_example = memparse-suffix_factor (b'4' ∷ b'M' ∷ 0 ∷ [])

-- "3,5-7" into an array of six ints.
abbrev some_ints : List ℕ
some_ints = b'3' ∷ b',' ∷ b'5' ∷ b'-' ∷ b'7' ∷ 0 ∷ []

abbrev zeros : Ints
zeros i = 0

abbrev first_five : Reading → List ℕ
first_five Reading.unfinished = []
first_five Reading.overflow = []
first_five (Reading.ended r) = r.1.0 0 ∷ r.1.0 1 ∷ r.1.0 2 ∷ r.1.0 3 ∷ r.1.0 4 ∷ []

some_ints_read : first_five (get_options some_ints 6 zeros) ≡ 4 ∷ 3 ∷ 5 ∷ 6 ∷ 7 ∷ []
unfolding get_options get_option simple_strtoull strtoull_loop simple_guess_base isxdigit isdigit
    simple_strtol
some_ints_read = refl

-- "3,0-2147483647"
abbrev full_range : List ℕ
full_range =
    b'3' ∷ b',' ∷ b'0' ∷ b'-' ∷ b'2' ∷ b'1' ∷ b'4' ∷ b'7' ∷ b'4' ∷ b'8' ∷ b'3' ∷ b'6' ∷ b'4' ∷ b'7'
    ∷ 0 ∷ []

full_range_overflows : get_options full_range 10 zeros ≡ Reading.overflow
unfolding get_options get_option simple_strtoull strtoull_loop simple_guess_base isxdigit isdigit
    simple_strtol to_lower
full_range_overflows = refl

get_options-element_example :
    (element (get_options some_ints 2 zeros) 2 ≡ some (zeros 2))
    ⊎ ((get_options some_ints 2 zeros ≡ Reading.overflow)
        × ((has_dash some_ints ≡ true) ⊎ (2 ^ 31 ≤ 1 + length some_ints)))
get_options-element_example = get_options-element some_ints 2 zeros 2 (omega arith)

-- "ab" in UTF-16 at 5000.
abbrev wide_text : Memory
wide_text i = get_or (b'a' ∷ 0 ∷ b'b' ∷ 0 ∷ 0 ∷ 0 ∷ []) (i - 5000) 0

print_cmdline-first_example :
    (print_cmdline wide_text 0x2000 3 5000 0x2000 ≡ wide_text 5000)
    × (print_cmdline wide_text 0x2000 3 5000 (0x2000 + 1) ≡ 0)
print_cmdline-first_example =
    print_cmdline-first wide_text 0x2000 3 5000 (omega arith) (omega arith) (omega arith)
      (omega arith) (omega arith) (omega arith) refl

parse_option_str-fields_example :
    parse_option_str (b'a' ∷ b'b' ∷ b',' ∷ b'a' ∷ 0 ∷ []) (b'a' ∷ [])
    ≡ some (any_same (b'a' ∷ []) (fields (b'a' ∷ b'b' ∷ b',' ∷ b'a' ∷ 0 ∷ [])))
parse_option_str-fields_example =
    parse_option_str-fields (b'a' ∷ b'b' ∷ b',' ∷ b'a' ∷ 0 ∷ []) b'a' [] (refl, tt)
