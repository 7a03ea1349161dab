-- ===== src/CmdLine/Convert.antt =====
-- efi_convert_cmdline of apps/helper.c: the event it measures, the number of bytes of UTF-8 that it
-- counts, and the buffer that it has snprintf write. The options are UTF-16 in memory, apart from the
-- new buffer.
pub mod Narrow
pub mod Bounds
use dragon_stub.Base.{
  ℕ, zero, suc, ◌+◌, ◌-◌, ◌*◌, ◌/◌, ◌%◌, ◌^◌, bit_and, Bool, true, false, ◌&&◌, ◌||◌, not, List, [],
  ◌∷◌, Option, none, some, ◌==◌, ltb, leb, if◌then◌else◌, length,
}
use dragon_stub.Machine.{
  Guid, Firmware, Memory, M, pure, ◌>>=◌, ◌>>◌, get_memory, put_memory, efi_success,
  efi_unsupported, call_locate_protocol, call_allocate_pool, call_free_pool,
  call_hash_log_extend_event,
}
use dragon_stub.Pages.{failed, efi_loader_data}
use dragon_stub.Elf.Load.{write_le}
use dragon_stub.Text.CType.{isspace}
use dragon_stub.Printf.Print.{snprintf}

abbrev pub command_line_size : ℕ
command_line_size = 1024

abbrev pub is_high_surrogate : ℕ → Bool
is_high_surrogate c = bit_and c 0xfc00 == 0xd800

abbrev pub is_low_surrogate : ℕ → Bool
is_low_surrogate c = bit_and c 0xfc00 == 0xdc00

-- The bytes of one character beyond ASCII.
abbrev pub wide_bytes : ℕ → ℕ
wide_bytes c = if leb 0x800 c then 3 else 2

-- The loop over the UTF-16 characters that are left: `options_bytes` and `safe_options_bytes` as it
-- leaves them. A low surrogate that was paired is skipped.
unfoldable pub count_bytes : List ℕ → (options_bytes safe : ℕ) (in_quote : Bool) → ℕ × ℕ
count_bytes [] options_bytes safe in_quote = (options_bytes, safe)
count_bytes (c ∷ []) options_bytes safe in_quote =
    if leb command_line_size options_bytes
    then (options_bytes, safe)
    else if ltb c 0x80
    then (if (c == 0) || (c == 10) then (options_bytes, safe) else (
      suc options_bytes,
      if not (c == b'"') && (not in_quote && isspace c) then options_bytes else safe,
    ))
    else (options_bytes + wide_bytes c - (if is_high_surrogate c then 3 else 0), safe)
count_bytes (c ∷ d ∷ s) options_bytes safe in_quote =
    let quote = c == b'"' in
    let safe1 = if not quote && (not in_quote && isspace c) then options_bytes else safe in
    let plain =
      count_bytes (d ∷ s) (suc options_bytes) safe1 (if quote then not in_quote else in_quote) in
    let paired = count_bytes s (options_bytes + wide_bytes c + 1) safe in_quote in
    let single = count_bytes (d ∷ s) (options_bytes + wide_bytes c) safe in_quote in
    if leb command_line_size options_bytes
    then (options_bytes, safe)
    else if ltb c 0x80
    then (if (c == 0) || (c == 10) then (options_bytes, safe) else plain)
    else if is_high_surrogate c && is_low_surrogate d
    then paired
    else single

-- `options_bytes` after the cut of a command line that is too long, with the terminator.
unfoldable pub cmdline_bytes : List ℕ → ℕ
unfolding count_bytes
cmdline_bytes options =
    let counted = count_bytes options 0 0 false in
    suc (if leb command_line_size counted.0 then counted.1 else counted.0)

-- "LOADED_IMAGE::LoadOptions" with its terminator, in events[].
abbrev pub load_options_event : List ℕ
load_options_event =
    b'L' ∷ b'O' ∷ b'A' ∷ b'D' ∷ b'E' ∷ b'D' ∷ b'_' ∷ b'I' ∷ b'M' ∷ b'A' ∷ b'G' ∷ b'E' ∷ b':' ∷ b':'
    ∷ b'L' ∷ b'o' ∷ b'a' ∷ b'd' ∷ b'O' ∷ b'p' ∷ b't' ∷ b'i' ∷ b'o' ∷ b'n' ∷ b's' ∷ 0 ∷ []

unfoldable pub write_bytes : List ℕ → Memory → (p : ℕ) → Memory
write_bytes [] f p = f
write_bytes (c ∷ s) f p = write_bytes s (λ a. if a == p then c else f a) (p + 1)

-- The event of efi_measure_tagged_event at `evt`: the packed header of 18 bytes with the PCR 9 and
-- EV_EVENT_TAG, the tag and its length, and the data.
unfoldable pub write_event : (event_id : ℕ) (event_data : List ℕ) → Memory → (evt : ℕ) → Memory
unfolding write_bytes
write_event event_id event_data f evt =
    let size = 26 + length event_data in
    let header = write_le 2 (write_le 4 (write_le 4 f evt size) (evt + 4) 14) (evt + 8) 1 in
    let typed = write_le 4 (write_le 4 header (evt + 10) 9) (evt + 14) 6 in
    let tagged = write_le 4 (write_le 4 typed (evt + 18) event_id) (evt + 22) (length event_data) in
    write_bytes event_data tagged (evt + 26)

-- `count` UTF-16 characters from `p` on.
abbrev pub chars_at : Memory → (p count : ℕ) → List ℕ
chars_at f p zero = []
chars_at f p (suc count) = (f p + 2 ^ 8 * f (p + 1)) ∷ chars_at f (p + 2) count

-- "%.*ls"
abbrev pub cmdline_format : List ℕ
cmdline_format = b'%' ∷ b'.' ∷ b'*' ∷ b'l' ∷ b's' ∷ []

-- The memory with the bytes that snprintf has left from `cmdline` on; its loop always ends.
abbrev pub overlay : Option (ℕ × (ℕ → ℕ)) → Memory → (cmdline : ℕ) → Memory
overlay none f cmdline a = f a
overlay (some r) f cmdline a = if leb cmdline a then r.1 (a - cmdline) else f a

-- The memory after the call of snprintf.
unfoldable pub print_cmdline : Memory → (cmdline bytes options : ℕ) → Memory
unfolding snprintf
print_cmdline f cmdline bytes options =
    overlay
      (snprintf cmdline bytes cmdline_format f ((bytes - 1) ∷ options ∷ []) (λ i. f (cmdline + i)))
      f cmdline

module _ (fw : Firmware) where
  -- efi_measure_tagged_event: `tcg2` stays NULL where LocateProtocol fails.
  unfoldable pub efi_measure_tagged_event : (load_addr load_size event_id : ℕ) → List ℕ → M ℕ
  unfolding write_event
  efi_measure_tagged_event load_addr load_size event_id event_data = do
    located ← call_locate_protocol fw Guid.tcg2_protocol
    let tcg2 = if failed located.0 then 0 else located.1
    if tcg2 == 0 then pure efi_unsupported else do
      evt ← call_allocate_pool fw efi_loader_data (26 + length event_data)
      if failed evt.0 then pure evt.0 else do
        f ← get_memory
        put_memory (write_event event_id event_data f evt.1)
        status ← call_hash_log_extend_event fw load_addr load_size evt.1
        call_free_pool evt.1
        if failed status then pure status else pure efi_success

  -- efi_convert_cmdline for the load options of `options_size` bytes at `options`: the address of the
  -- command line and its length, or NULL.
  unfoldable pub efi_convert_cmdline : (options options_size : ℕ) → M (Option (ℕ × ℕ))
  unfolding cmdline_bytes print_cmdline
  efi_convert_cmdline options options_size = do
    _ ←
        (if ltb 0 options_size
          then efi_measure_tagged_event options options_size 0x8f3b22ed load_options_event
          else pure efi_success)
    f ← get_memory
    let chars = if options == 0 then [] else chars_at f options (options_size / 2)
    let bytes = cmdline_bytes chars
    cmdline ← call_allocate_pool fw efi_loader_data bytes
    if failed cmdline.0
        then pure none
        else do put_memory (print_cmdline f cmdline.1 bytes options); pure (some (cmdline.1, bytes))
