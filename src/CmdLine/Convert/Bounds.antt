-- ===== src/CmdLine/Convert/Bounds.antt =====
-- The size of the buffer that efi_convert_cmdline asks for.
use dragon_stub.Base.{
  ℕ, suc, ◌+◌, ◌≤◌, ◌<◌, ◌≡◌, arith, Bool, true, false, not, ◌&&◌, List, [], ◌∷◌, ◌==◌, ltb, leb,
  if◌then◌else◌, length, All,
}
use dragon_stub.CmdLine.Convert.{command_line_size, count_bytes, cmdline_bytes, wide_bytes}
use dragon_stub.Text.CType.{isspace}

count_bytes-safe :
    (options : List ℕ) (n safe : ℕ) (in_quote : Bool)
    → safe < command_line_size
    → (count_bytes options n safe in_quote).1 < command_line_size
unfolding count_bytes
count_bytes-safe [] n safe q lt = lt
count_bytes-safe (c ∷ []) n safe q lt = ground arith
count_bytes-safe (c ∷ d ∷ s) n safe q lt =
    let quote = c == b'"' in
    let safe1 = if not quote && (not q && isspace c) then n else safe in
    ground (
      arith,
      count_bytes-safe (d ∷ s) (suc n) safe1 (if quote then not q else q),
      count_bytes-safe s (n + wide_bytes c + 1) safe q,
      count_bytes-safe (d ∷ s) (n + wide_bytes c) safe q,
    )

-- The buffer has at least one byte and at most COMMAND_LINE_SIZE, however long the options are.
pub cmdline_bytes-bounds :
    (options : List ℕ) → (1 ≤ cmdline_bytes options) × (cmdline_bytes options ≤ command_line_size)
unfolding cmdline_bytes
cmdline_bytes-bounds options = ground (arith, count_bytes-safe options 0 0 false)

-- A printable character of ASCII, or a space.
abbrev pub is_text : ℕ → Bool
is_text c = leb 32 c && ltb c 127

count_bytes-text :
    (options : List ℕ) (n safe : ℕ) (in_quote : Bool)
    → All (λ c. is_text c ≡ true) options
    → n + length options ≤ command_line_size
    → (count_bytes options n safe in_quote).0 ≡ n + length options
unfolding count_bytes
count_bytes-text [] n safe q a le = omega arith
count_bytes-text (c ∷ []) n safe q a le = ground (arith, a.0)
count_bytes-text (c ∷ d ∷ s) n safe q a le =
    let quote = c == b'"' in
    let safe1 = if not quote && (not q && isspace c) then n else safe in
    ground (arith, a.0, count_bytes-text (d ∷ s) (suc n) safe1 (if quote then not q else q) a.1)

-- Options of fewer than COMMAND_LINE_SIZE printable characters take one byte each and the
-- terminator: nothing is cut.
cmdline_bytes-text :
    (options : List ℕ)
    → All (λ c. is_text c ≡ true) options
    → length options < command_line_size
    → cmdline_bytes options ≡ suc (length options)
unfolding cmdline_bytes
cmdline_bytes-text options a lt = ground (arith, count_bytes-text options 0 0 false a)
