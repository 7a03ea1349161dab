-- ===== src/Pages/Aligned.antt =====
-- efi_allocate_pages_aligned of apps/alignedmem.c: what the stub owns after it.
use native.Mathlib.Nat.{
  mod-lt, mod-eq_of_lt, mod-eq-sub-div-mul, mul-div-mul_right, div-mul-le_self, lt-div-mul-add,
  one-le-pow, mod-add-div', mul-mod_right,
}
use dragon_stub.Base.{
  ℕ, ◌+◌, ◌-◌, ◌*◌, ◌/◌, ◌%◌, ◌^◌, ◌≤◌, ◌<◌, bit_and, ◌≡◌, refl, ap, ◌∙◌, arith, false, ◌&&◌, ◌||◌,
  not, ◌==◌, ltb, Bool-cases, inl, inr, if◌then◌else◌, Option, some, min,
}
use dragon_stub.Machine.{Event, Firmware, Machine, efi_success, efi_page_size, emit}
use dragon_stub.Align.{u32, u64, sub64, align_up, align_down, round_up}
use dragon_stub.Align.Laws.{
  bit_and-offset, align_up_lem, align_down_lem, round_up_lem, round_exact, round_past,
}
use dragon_stub.Pages.{
  efi_allocate_pages_aligned, take_aligned, free_slack, efi_alloc_limit, efi_allocate_max_address,
  extend32,
}
use dragon_stub.Base.{Bool-cases, inl, inr}
use native.Mathlib.Decide.{dec_lt}
use dragon_stub.Pages.Ownership.{owns, in_pages, GrantsPages}

-- Pages are counted: `q` is the first page that the firmware gave, `b` the alignment.
abbrev pub aligned_page : (q b : ℕ) → ℕ
aligned_page q b = if q % b == 0 then q else q + b - q % b

page-mod : (q b : ℕ) → q * efi_page_size % (b * efi_page_size) ≡ q % b * efi_page_size
page-mod q b = omega (
  arith,
  mod-eq-sub-div-mul (q * efi_page_size) (b * efi_page_size),
  ap (λ (t : ℕ). t * (b * efi_page_size)) (mul-div-mul_right {m = efi_page_size} q b (omega arith)),
  mod-eq-sub-div-mul q b,
)

-- A granted call, its answer written out.
take_aligned-granted :
    (fw : Firmware) (memory_type size align slack n request address : ℕ) (m : Machine)
    → fw.allocate_pages m.history efi_allocate_max_address memory_type n request
      ≡ (efi_success, address)
    → take_aligned fw memory_type size align slack n request m ≡ (
      (efi_success, some (align_up address align)),
      (free_slack size align slack address (align_up address align) (
          emit
            (Event.allocate_pages efi_allocate_max_address memory_type n request efi_success
              address)
            m)).1,
    )
unfolding take_aligned
take_aligned-granted fw memory_type size align slack n request address m e = rw e

aligned_page-mod : (q b : ℕ) → 0 < b → aligned_page q b % b ≡ 0
aligned_page-mod q b pos = elim (Bool-cases (q % b == 0)) [
  | inl e ↦ rw e (ground arith)
  | inr e ↦ rw e (
      let next : q + b - q % b ≡ b * (q / b + 1) = omega (arith, mod-add-div' q b, mod-lt q pos) in
      rw (next, mul-mod_right))
]

aligned_page_bounds : (q b : ℕ) → 0 < b → (q ≤ aligned_page q b) × (aligned_page q b + 1 ≤ q + b)
aligned_page_bounds q b pos = ground (arith, mod-lt q pos)

module _ (w k b : ℕ) (width : 2 ^ w * 2 ^ k ≡ 2 ^ 64) (pages : 2 ^ k ≡ b * efi_page_size)
    (pos : 0 < b) (small : b < 2 ^ 31) where
  offset : (q : ℕ) → u32 (bit_and (q * efi_page_size) (sub64 (2 ^ k) 1) / efi_page_size) ≡ q % b
  offset q =
      rw (bit_and-offset w k (q * efi_page_size) width, pages, page-mod q b)
        (omega (arith, mod-lt q pos))

  owns-free_slack :
      (q n : ℕ) (m : Machine)
      → (q + n + (b - 1)) * efi_page_size ≤ 2 ^ 64
      → (p : ℕ)
      → owns
          (free_slack
            (n * efi_page_size)
            (2 ^ k)
            (b - 1)
            (q * efi_page_size)
            (aligned_page q b * efi_page_size)
            m).1.history
          p
        ≡ (owns m.history p
            && (in_pages p (aligned_page q b * efi_page_size) n
                || not (in_pages p (q * efi_page_size) (n + (b - 1)))))
  unfolding free_slack
  owns-free_slack q n m fits p = rw (offset q) (ground (arith, mod-lt q pos))

  align_up-page :
      (q : ℕ)
      → (q + b) * efi_page_size ≤ 2 ^ 64
      → align_up (q * efi_page_size) (2 ^ k) ≡ aligned_page q b * efi_page_size
  align_up-page q fits =
      align_up_lem w k width (q * efi_page_size) (omega (arith, pages, one-le-pow k 2))
      ∙ elim (Bool-cases (q % b == 0)) [
        | inl e ↦ rw e (
            round_exact (q * efi_page_size) (2 ^ k) (one-le-pow k 2 (omega arith))
              (rw pages (page-mod q b ∙ ground arith)))
        | inr e ↦ rw e (
            round_past (q * efi_page_size) (2 ^ k) (one-le-pow k 2 (omega arith))
              (rw (pages, page-mod q b) (ground arith))
            ∙ rw (pages, page-mod q b) (omega (arith, mod-lt q pos)))
      ]

  module _ (fw : Firmware) (law : GrantsPages fw) (size max memory_type : ℕ) (m : Machine)
      (some_size : 0 < size) (fits : size + 2 ^ k + 2 * efi_page_size < 2 ^ 64)
      (room : 2 ^ k ≤ max + 1) (max_fits : max < 2 ^ 64) where
    abbrev count : ℕ
    count = (size + (efi_page_size - 1)) / efi_page_size

    abbrev request : ℕ
    request = sub64 (align_down (u64 (max + 1)) (2 ^ k)) 1

    rounded : round_up size efi_page_size ≡ count * efi_page_size
    rounded = round_up_lem 52 12 refl size some_size (omega arith)

    some_multiple : 0 < (max + 1) / 2 ^ k * 2 ^ k
    some_multiple = omega (arith, lt-div-mul-add {a = max + 1} (one-le-pow k 2 (omega arith)))

    request-le : request ≤ max
    request-le = elim (dec_lt (max + 1) (2 ^ 64)) [
      | yes below ↦
          rw (mod-eq_of_lt below, align_down_lem w k width (max + 1) below)
            (omega (arith, div-mul-le_self (max + 1) (2 ^ k), some_multiple))
      | no above ↦ omega arith
    ]

    slack_eq : u32 (2 ^ k / efi_page_size + 2 ^ 32 - 1) ≡ b - 1
    slack_eq = rw pages (omega arith)

    asked : u64 (count * efi_page_size / efi_page_size + extend32 (b - 1)) ≡ count + (b - 1)
    asked = ground arith

    large : ltb (2 ^ k) efi_page_size ≡ false
    large = ground arith

    limit_eq : min max efi_alloc_limit ≡ max
    limit_eq = omega arith

    run :
        efi_allocate_pages_aligned fw size max (2 ^ k) memory_type m
        ≡ take_aligned fw memory_type
            (count * efi_page_size)
            (2 ^ k)
            (b - 1)
            (count + (b - 1))
            request
            m
    unfolding efi_allocate_pages_aligned
    run = rw (limit_eq, large, rounded, slack_eq, asked)

    abbrev reply : ℕ × ℕ
    reply =
        fw.allocate_pages m.history efi_allocate_max_address memory_type (count + (b - 1)) request

    abbrev first : ℕ
    first = reply.1 / efi_page_size

    abbrev base : ℕ
    base = aligned_page first b * efi_page_size

    abbrev granted : Machine
    granted =
        emit
          (Event.allocate_pages efi_allocate_max_address memory_type (count + (b - 1)) request
            efi_success (first * efi_page_size))
          m

    take_aligned-success :
        (take_aligned fw memory_type
            (count * efi_page_size)
            (2 ^ k)
            (b - 1)
            (count + (b - 1))
            request
            m).0.0
          ≡ efi_success
        → reply.0 ≡ efi_success
    unfolding take_aligned
    take_aligned-success h = ground arith

    module _ (success : reply.0 ≡ efi_success) where
      address_eq : reply.1 ≡ first * efi_page_size
      address_eq =
          omega (arith, law.page_aligned m.history memory_type (count + (b - 1)) request success)

      bound : (first + count + (b - 1)) * efi_page_size ≤ max + 1
      bound = omega (
        arith,
        address_eq,
        request-le,
        law.below m.history memory_type (count + (b - 1)) request success,
      )

      answered : reply ≡ (efi_success, first * efi_page_size)
      answered = λ i. (success i, address_eq i)

      base_eq : align_up (first * efi_page_size) (2 ^ k) ≡ base
      base_eq = align_up-page first (omega (arith, bound))

      owns-granted :
          (p : ℕ)
          → owns
              (free_slack
                (count * efi_page_size)
                (2 ^ k)
                (b - 1)
                (first * efi_page_size)
                base
                granted).1.history
              p
            ≡ (in_pages p base count || owns m.history p)
      owns-granted p =
          owns-free_slack first count granted (omega (arith, bound)) p
          ∙ ground (
            arith,
            address_eq,
            aligned_page_bounds first b pos,
            law.fresh m.history memory_type (count + (b - 1)) request success p,
          )

      base-aligned : base % 2 ^ k ≡ 0
      base-aligned = rw (pages, page-mod (aligned_page first b) b, aligned_page-mod first b pos)

    -- On success the base is aligned, the last page is not above the maximum, and what the stub
    -- owns grew by exactly the pages asked for. The firmware grants pages as it is specified; the
    -- alignment is a power of two and a multiple of the page size, of less than 2^31 pages, and is at
    -- most the maximum plus 1; the size is not 0, and with the alignment and two pages stays below
    -- 2^64, as the maximum does.
    pub efi_allocate_pages_aligned-owns :
        (efi_allocate_pages_aligned fw size max (2 ^ k) memory_type m).0.0 ≡ efi_success
        → (addr : ℕ) × ((efi_allocate_pages_aligned fw size max (2 ^ k) memory_type m).0.1
            ≡ some addr)
          × (addr % 2 ^ k ≡ 0)
          × (addr + count * efi_page_size ≤ max + 1)
          × ((p : ℕ)
              → owns (efi_allocate_pages_aligned fw size max (2 ^ k) memory_type m).1.history p
                ≡ (in_pages p addr count || owns m.history p))
    efi_allocate_pages_aligned-owns h = (
      base,
      ap (λ (r : (ℕ × Option ℕ) × Machine). r.0.1) at_end,
      base-aligned success,
      omega (arith, bound success, aligned_page_bounds first b pos),
      λ p.
          ap (λ (r : (ℕ × Option ℕ) × Machine). owns r.1.history p) at_end ∙ owns-granted success p,
    )
      where
        success : reply.0 ≡ efi_success
        success = take_aligned-success (rw run at h)

        at_end : efi_allocate_pages_aligned fw size max (2 ^ k) memory_type m ≡ (
          (efi_success, some base),
          (free_slack
              (count * efi_page_size)
              (2 ^ k)
              (b - 1)
              (first * efi_page_size)
              base
              granted).1,
        )
        at_end =
            run
            ∙ (take_aligned-granted fw memory_type (count * efi_page_size) (2 ^ k) (b - 1)
                  (count + (b - 1)) request (first * efi_page_size) m (answered success)
                ∙ ap
                    (λ (a : ℕ). (
                      (efi_success, some a),
                      (free_slack (count * efi_page_size) (2 ^ k) (b - 1) (first * efi_page_size) a
                          granted).1,
                    ))
                    (base_eq success))
