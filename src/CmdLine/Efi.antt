-- ===== src/CmdLine/Efi.antt =====
-- efi_parse_options of apps/helper.c.
pub mod Returns
use dragon_stub.Base.{
  ℕ, zero, suc, ◌+◌, ◌-◌, ◌^◌, Bool, true, false, ◌&&◌, ◌||◌, not, List, [], ◌∷◌, ◌++◌, Option,
  none, some, ◌==◌, ltb, if◌then◌else◌, length, drop, take, get_or,
}
use dragon_stub.Machine.{
  Globals, Firmware, M, pure, ◌>>=◌, ◌>>◌, get_globals, put_globals, efi_success,
  efi_out_of_resources, call_allocate_pool, call_free_pool,
}
use dragon_stub.Pages.{failed, efi_loader_data}
use dragon_stub.Text.Str.{strcmp, strnlen, skip_spaces}
use dragon_stub.CmdLine.{next_arg, parse_option_str, count_spaces}
use dragon_stub.CmdLine.Words
use dragon_stub.CmdLine.Convert.{command_line_size, efi_convert_cmdline}

-- parse_option_str, whose loop always ends.
abbrev pub has_option : List ℕ → List ℕ → Bool
has_option val name = elim (parse_option_str val name) [ none ↦ false | some b ↦ b ]

-- The value of an argument efi=.
unfoldable pub apply_efi : List ℕ → Globals → Globals
apply_efi val g =
    let dma = if has_option val Words.disable_early_pci_dma then true else g.efi_disable_pci_dma in
    record g {
      efi_nochunk = has_option val Words.nochunk;
      efi_novamap = g.efi_novamap || has_option val Words.novamap;
      efi_nosoftreserve = false;
      efi_disable_pci_dma = if has_option val Words.no_disable_early_pci_dma then false else dma;
    }

-- One round of the loop of efi_parse_options on the argument that next_arg found. The arguments
-- quiet and video change nothing.
unfoldable pub apply_arg : (param : List ℕ) (val : Option (List ℕ)) → Globals → Globals
unfolding apply_efi
apply_arg param val g =
    if strcmp param Words.nokaslr == 0
    then record g { efi_nokaslr = true }
    else if strcmp param Words.quiet == 0
    then g
    else if strcmp param Words.noinitrd == 0
    then record g { efi_noinitrd = true }
    else if strcmp param Words.efi == 0
    then elim val [ none ↦ g | some v ↦ apply_efi v g ]
    else g

abbrev pub text_at : (buffer : List ℕ) → Option ℕ → Option (List ℕ)
text_at buffer none = none
text_at buffer (some i) = some (drop i buffer)

abbrev pub is_none : Option ℕ → Bool
is_none none = true
is_none (some i) = false

-- The loop of efi_parse_options from index `str` of the buffer, with fuel for its rounds.
unfoldable pub parse_args : (fuel : ℕ) (buffer : List ℕ) (str : ℕ) → Globals → Option Globals
parse_args zero buffer str g = none
parse_args (suc fuel) buffer str g =
    let arg = next_arg buffer str in
    let param = drop arg.param arg.buffer in
    let rest =
      parse_args fuel arg.buffer arg.next (apply_arg param (text_at arg.buffer arg.val) g) in
    if get_or buffer str 0 == 0
    then some g
    else if is_none arg.val && (strcmp param Words.double_dash == 0)
    then some g
    else rest

-- The buffer of efi_parse_options: a copy of the command line, cut and terminated.
unfoldable pub options_buffer : List ℕ → List ℕ
options_buffer cmdline = take (strnlen cmdline (command_line_size - 1)) cmdline ++ (0 ∷ [])

-- The global variables after efi_parse_options.
unfoldable pub parsed_options : List ℕ → Globals → Option Globals
unfolding parse_args options_buffer
parsed_options cmdline g =
    let buf = options_buffer cmdline in parse_args (suc (length buf)) buf (count_spaces buf) g

module _ (fw : Firmware) where
  -- efi_parse_options of a command line that is not NULL; `none` where the loop does not end.
  unfoldable pub efi_parse_options : List ℕ → M (Option ℕ)
  unfolding parsed_options
  efi_parse_options cmdline = do
    buf ← call_allocate_pool fw efi_loader_data (strnlen cmdline (command_line_size - 1) + 1)
    if failed buf.0 then pure (some buf.0) else do
      g ← get_globals
      elim (parsed_options cmdline g) [
        | none ↦ pure none
        | some h ↦ (do put_globals h; call_free_pool buf.1; pure (some efi_success))
      ]
