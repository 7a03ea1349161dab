-- ===== src/Elf/Load/Table.antt =====
-- The table that the end of load_elf in apps/elf.c leaves for the kernel.
use dragon_stub.Base.{
  ℕ, zero, suc, ◌+◌, ◌/◌, ◌%◌, ◌^◌, ◌<◌, ◌≡◌, refl, ◌∙◌, arith, inl, inr, ◌==◌, if◌then◌else◌,
  Bool-cases, ◌∷◌,
}
use native.Mathlib.Nat.{pow-suc}
use dragon_stub.Machine.{Guid, Event, History, Firmware, Machine, Memory, efi_success}
use dragon_stub.Pages.{failed}
use dragon_stub.Elf.Header.{read_le}
use dragon_stub.Elf.Load.{PayloadInfo, write_le, install_payload_table}
use dragon_stub.Elf.Load.Segments.{SameOutside, read_le-same}

pub write_le-outside : (n : ℕ) (f : Memory) (p v : ℕ) → SameOutside p (p + n) f (write_le n f p v)
unfolding write_le
write_le-outside zero f p v a out = refl
write_le-outside (suc n) f p v a out = ground (
  arith,
  write_le-outside n (λ x. if x == p then v % 256 else f x) (p + 1) (v / 256) a
      (omega (arith, out)),
)

-- A store of `n` bytes is read back.
pub read_le-write_le :
    (n : ℕ) (f : Memory) (p v : ℕ) → v < 256 ^ n → read_le n (write_le n f p v) p ≡ v
unfolding read_le write_le
read_le-write_le zero f p v fits = omega (arith, fits)
read_le-write_le (suc n) f p v fits = ground (
  arith,
  write_le-outside n (λ x. if x == p then v % 256 else f x) (p + 1) (v / 256) p (omega arith),
  read_le-write_le n (λ x. if x == p then v % 256 else f x) (p + 1) (v / 256)
      (omega (arith, fits, pow-suc 256 n)),
)

-- struct dragonstub_payload_efi at `tbl`.
abbrev pub table_written : Memory → (tbl : ℕ) → PayloadInfo → Memory
table_written f tbl info =
    write_le 8 (write_le 8 f tbl info.loaded_paddr) (tbl + 8) info.loaded_size

abbrev pub TableAt : Memory → (tbl : ℕ) → PayloadInfo → Type 0
TableAt f tbl info =
    (read_le 8 f tbl ≡ info.loaded_paddr) × (read_le 8 f (tbl + 8) ≡ info.loaded_size)

pub table_written-TableAt :
    (f : Memory) (tbl : ℕ) (info : PayloadInfo)
    → info.loaded_paddr < 2 ^ 64
    → info.loaded_size < 2 ^ 64
    → TableAt (table_written f tbl info) tbl info
table_written-TableAt f tbl info paddr size =
    let first = write_le 8 f tbl info.loaded_paddr in
    (
      read_le-same (tbl + 8) (tbl + 8 + 8) 8 tbl first (table_written f tbl info)
            (write_le-outside 8 first (tbl + 8) info.loaded_size) (inl (omega arith))
          ∙ read_le-write_le 8 f tbl info.loaded_paddr paddr,
      read_le-write_le 8 first (tbl + 8) info.loaded_size size,
    )

pub table_written-outside :
    (f : Memory) (tbl : ℕ) (info : PayloadInfo)
    → SameOutside tbl (tbl + 16) f (table_written f tbl info)
table_written-outside f tbl info a out =
    write_le-outside 8 (write_le 8 f tbl info.loaded_paddr) (tbl + 8) info.loaded_size a
      (omega (arith, out))
    ∙ write_le-outside 8 f tbl info.loaded_paddr a (omega (arith, out))

-- The last call told the firmware of the table at `tbl`.
abbrev pub Reported : (tbl : ℕ) → History → Type 0
Reported tbl h =
    (earlier : History) × (h
      ≡ Event.install_configuration_table Guid.dragonstub_payload tbl efi_success ∷ earlier)

-- What a successful end of load_elf leaves.
pub install_payload_table-memory :
    (fw : Firmware) (info : PayloadInfo) (m : Machine)
    → (install_payload_table fw info m).0.0 ≡ efi_success
    → (tbl : ℕ) × ((install_payload_table fw info m).0.1 ≡ info)
      × Reported tbl (install_payload_table fw info m).1.history
      × ((install_payload_table fw info m).1.memory ≡ table_written m.memory tbl info)
unfolding install_payload_table
install_payload_table-memory fw info m h =
    let given = fw.allocate_pool m.history 2 16 in
    let history = Event.allocate_pool 2 16 given.0 given.1 ∷ m.history in
    let status = fw.install_configuration_table history Guid.dragonstub_payload given.1 in
    elim (Bool-cases (failed given.0)) [
      | inl none ↦ absurd (ground (arith, none))
      | inr granted ↦ elim (Bool-cases (failed status)) [
        | inl refused ↦ absurd (ground (arith, granted, refused))
        | inr accepted ↦ (
          given.1,
          ground (arith, granted, accepted),
          (history, ground (arith, granted, accepted)),
          ground (arith, granted, accepted),
        )
      ]
    ]
