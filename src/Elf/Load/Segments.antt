-- ===== src/Elf/Load/Segments.antt =====
-- The loop of load_program writes the image of the segments and nothing else.
use dragon_stub.Base.{
  ℕ, zero, suc, ◌+◌, ◌-◌, ◌*◌, ◌^◌, ◌≤◌, ◌<◌, ◌≡◌, refl, ap, ◌∙◌, sym, ◌⊎◌, inl, inr, arith, Bool,
  true, false, ◌&&◌, List, [], ◌∷◌, All, ◌==◌, ltb, leb, if◌then◌else◌, Bool-cases,
}
use mathlib.Core.Path.{subst}
use dragon_stub.Machine.{Memory, efi_success, efi_invalid_parameter}
use dragon_stub.Bytes.{memcpy}
use dragon_stub.Bytes.Copy.{memcpy-moved, memcpy-outside}
use dragon_stub.Align.{u64, sub64}
use dragon_stub.Elf.Header.{Phdr, read_le, read_phdr, sizeof_phdr}
use dragon_stub.Elf.Load.{pt_load, load_step, load_segments, misaligned}

-- The headers of a table.
abbrev pub phdrs : Memory → (n phdr : ℕ) → List Phdr
phdrs f zero phdr = []
phdrs f (suc n) phdr = read_phdr f phdr ∷ phdrs f n (phdr + sizeof_phdr)

-- `g` is `f` outside the addresses from `lo` to `hi`.
abbrev pub SameOutside : (lo hi : ℕ) → Memory → Memory → Type 0
SameOutside lo hi f g = (a : ℕ) → (a < lo) ⊎ (hi ≤ a) → g a ≡ f a

-- The addresses from `p` to `q` are outside those from `lo` to `hi`.
abbrev pub Apart : (lo hi p q : ℕ) → Type 0
Apart lo hi p q = (q ≤ lo) ⊎ (hi ≤ p)

pub read_le-same :
    (lo hi n p : ℕ) (f g : Memory)
    → SameOutside lo hi f g
    → Apart lo hi p (p + n)
    → read_le n g p ≡ read_le n f p
unfolding read_le
read_le-same lo hi zero p f g same apart = refl
read_le-same lo hi (suc n) p f g same apart =
    ground (arith, same p, read_le-same lo hi n (p + 1) f g same (omega arith))

read_phdr-same :
    (lo hi p : ℕ) (f g : Memory)
    → SameOutside lo hi f g
    → Apart lo hi p (p + sizeof_phdr)
    → read_phdr g p ≡ read_phdr f p
unfolding read_phdr
read_phdr-same lo hi p f g same apart = λ i. record {
  p_type = read_le-same lo hi 4 p f g same (omega arith) i;
  p_offset = read_le-same lo hi 8 (p + 8) f g same (omega arith) i;
  p_vaddr = read_le-same lo hi 8 (p + 16) f g same (omega arith) i;
  p_paddr = read_le-same lo hi 8 (p + 24) f g same (omega arith) i;
  p_filesz = read_le-same lo hi 8 (p + 32) f g same (omega arith) i;
  p_memsz = read_le-same lo hi 8 (p + 40) f g same (omega arith) i;
  p_align = read_le-same lo hi 8 (p + 48) f g same (omega arith) i;
}

-- Where a segment is loaded.
abbrev pub load_address : (allocated min_paddr : ℕ) → Phdr → ℕ
load_address allocated min_paddr ph = u64 (allocated + sub64 ph.p_paddr min_paddr)

-- A loadable segment lies in the destination from `lo` to `hi`, and its offsets do not wrap.
abbrev pub Placed : (allocated min_paddr lo hi : ℕ) → Phdr → Type 0
Placed allocated min_paddr lo hi ph =
    ph.p_type ≡ pt_load
    → (lo ≤ load_address allocated min_paddr ph)
      × (load_address allocated min_paddr ph + ph.p_memsz ≤ hi)
      × (ph.p_offset + ph.p_filesz < 2 ^ 64)

module _ (payload_start allocated min_paddr : ℕ) where
  abbrev dest : Phdr → ℕ
  dest = load_address allocated min_paddr

  abbrev covers : Phdr → ℕ → Bool
  covers ph a = (ph.p_type == pt_load) && (leb (dest ph) a && ltb a (dest ph + ph.p_filesz))

  -- The byte that the segments put at `a`: that of the last one that covers it, read from the
  -- payload in `f`, or `d` where none does.
  abbrev pub image_byte : Memory → List Phdr → (a d : ℕ) → ℕ
  image_byte f [] a d = d
  image_byte f (ph ∷ phs) a d =
      image_byte f phs a
        (if covers ph a then f (payload_start + ph.p_offset + (a - dest ph)) else d)

  module _ (payload_size lo hi : ℕ) (f0 : Memory)
      (payload : Apart lo hi payload_start (payload_start + payload_size))
      (payload_fits : payload_start + payload_size < 2 ^ 64) where
    abbrev pub Loaded : List Phdr → Memory → ℕ × Memory → Type 0
    Loaded phs f r =
        SameOutside lo hi f0 r.1 × (r.0 ≡ efi_success → (a : ℕ) → r.1 a ≡ image_byte f0 phs a (f a))

    module _ (ph : Phdr) (phs : List Phdr) (load : Memory → ℕ × Memory) (f : Memory)
        (same : SameOutside lo hi f0 f) (placed : Placed allocated min_paddr lo hi ph)
        (rest : (g : Memory) → SameOutside lo hi f0 g → Loaded phs g (load g)) where
      Loaded-skip : ((a : ℕ) → covers ph a ≡ false) → Loaded (ph ∷ phs) f (load f)
      Loaded-skip misses = ((rest f same).0, λ e a. (rest f same).1 e a ∙ rw (misses a) refl)

      Loaded-fail : Loaded (ph ∷ phs) f (efi_invalid_parameter, f)
      Loaded-fail = (same, λ e. absurd (omega (arith, e)))

      module _ (loadable : (ph.p_type == pt_load) ≡ true)
          (in_payload : ltb payload_size (u64 (ph.p_offset + ph.p_filesz)) ≡ false)
          (fits : ltb ph.p_memsz ph.p_filesz ≡ false) where
        abbrev copied : Memory
        copied = memcpy f (dest ph) (u64 (payload_start + ph.p_offset)) ph.p_filesz

        copied_same : SameOutside lo hi f0 copied
        copied_same a out = ground (
          arith,
          same a out,
          placed,
          memcpy-outside f (dest ph) (u64 (payload_start + ph.p_offset)) ph.p_filesz a,
        )

        -- The segment lies in the payload, so it does not overlap its destination.
        source_apart :
            (dest ph ≤ u64 (payload_start + ph.p_offset))
            ⊎ (u64 (payload_start + ph.p_offset) + ph.p_filesz ≤ dest ph)
        source_apart = ground (arith, placed)

        copied_byte :
            (a : ℕ)
            → copied a
              ≡ (if covers ph a then f0 (payload_start + ph.p_offset + (a - dest ph)) else f a)
        copied_byte a =
            memcpy-moved f (dest ph) (u64 (payload_start + ph.p_offset)) ph.p_filesz a source_apart
            ∙ ground (arith, placed, same (payload_start + ph.p_offset + (a - dest ph)))

        Loaded-copy : Loaded (ph ∷ phs) f (load copied)
        Loaded-copy = (
          (rest copied copied_same).0,
          λ e a.
              (rest copied copied_same).1 e a
              ∙ ap (λ (d : ℕ). image_byte f0 phs a d) (copied_byte a),
        )

      abbrev step : ℕ × Memory
      step = load_step payload_start payload_size allocated min_paddr ph load f

      Loaded-of_eq : {r : ℕ × Memory} → step ≡ r → Loaded (ph ∷ phs) f r → Loaded (ph ∷ phs) f step
      Loaded-of_eq e h = subst (λ r. Loaded (ph ∷ phs) f r) (sym e) h

      load_step-Loaded : Loaded (ph ∷ phs) f step
      unfolding load_step
      load_step-Loaded = elim (Bool-cases (ph.p_type == pt_load)) [
        | inr e ↦ Loaded-of_eq (rw e) (Loaded-skip (λ a. rw e))
        | inl e ↦ elim (Bool-cases (misaligned ph)) [
          | inl bad ↦ Loaded-of_eq (rw (e, bad)) Loaded-fail
          | inr fine ↦ elim (Bool-cases (ltb payload_size (u64 (ph.p_offset + ph.p_filesz)))) [
            | inl bad ↦ Loaded-of_eq (rw (e, fine, bad)) Loaded-fail
            | inr inside ↦ elim (Bool-cases (ltb ph.p_memsz ph.p_filesz)) [
              | inl bad ↦ Loaded-of_eq (rw (e, fine, inside, bad)) Loaded-fail
              | inr fits ↦ elim (Bool-cases (ph.p_memsz == 0)) [
                | inl empty ↦
                    Loaded-of_eq (rw (e, fine, inside, fits, empty))
                      (Loaded-skip (λ a. ground arith))
                | inr some_bytes ↦
                    Loaded-of_eq (rw (e, fine, inside, fits, some_bytes))
                      (Loaded-copy e inside fits)
              ]
            ]
          ]
        ]
      ]

    pub load_segments-Loaded :
        (n phdr : ℕ) (f : Memory)
        → SameOutside lo hi f0 f
        → Apart lo hi phdr (phdr + n * sizeof_phdr)
        → All (Placed allocated min_paddr lo hi) (phdrs f0 n phdr)
        → Loaded
            (phdrs f0 n phdr)
            f
            (load_segments payload_start payload_size allocated min_paddr n phdr f)
    unfolding load_segments
    load_segments-Loaded zero phdr f same apart placed = (same, λ e a. refl)
    load_segments-Loaded (suc n) phdr f same apart placed =
        rw (read_phdr-same lo hi phdr f0 f same (omega arith)) (
          load_step-Loaded (read_phdr f0 phdr) (phdrs f0 n (phdr + sizeof_phdr))
            (load_segments payload_start payload_size allocated min_paddr n (phdr + sizeof_phdr)) f
            same placed.0
            (λ g same'. load_segments-Loaded n (phdr + sizeof_phdr) g same' (omega arith) placed.1))
