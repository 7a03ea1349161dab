-- ===== src/Align/Laws.antt =====
-- The rounding macros as arithmetic, at an alignment `2 ^ k` with `w` digits above it.
use native.Mathlib.Nat.{
  mul_comm, mul-sub, mul-le-mul_right, one-le-pow, add-div_right, div-mul-le_self, mod-eq_of_lt,
  div-eq_of_lt-le, mod-add-div', mod-lt,
}
use dragon_stub.Base.{
  ℕ, ◌+◌, ◌-◌, ◌*◌, ◌/◌, ◌%◌, ◌^◌, ◌≤◌, ◌<◌, ◌≡◌, ap, arith, true, ◌↔◌, ◌∙◌, bit_and,
}
use dragon_stub.Base.Bits.{bit_and-low_mask, bit_and-high_mask, bit_or-low_mask}
use dragon_stub.Align.{sub64, not64, align_up, is_aligned, round_up, round_down, align_down, u64}

module _ (w k : ℕ) (width : 2 ^ w * 2 ^ k ≡ 2 ^ 64) where
  pub pow-le : 2 ^ k ≤ 2 ^ 64
  pow-le =
      omega
        (arith, width, mul-le-mul_right {m = 1} {n = 2 ^ w} (2 ^ k) (one-le-pow w 2 (omega arith)))

  sub64-one : sub64 (2 ^ k) 1 ≡ 2 ^ k - 1
  sub64-one = omega (arith, pow-le, one-le-pow k 2)

  not64-low_mask : not64 (2 ^ k - 1) ≡ (2 ^ w - 1) * 2 ^ k
  not64-low_mask = omega (
    arith,
    width,
    mul_comm (2 ^ w - 1) (2 ^ k),
    mul-sub (2 ^ k) (2 ^ w) 1,
    mul_comm (2 ^ k) (2 ^ w),
    one-le-pow k 2,
  )

  pub round_down_lem : (x : ℕ) → x < 2 ^ 64 → round_down x (2 ^ k) ≡ x / 2 ^ k * 2 ^ k
  unfolding round_down
  round_down_lem x h =
      rw (sub64-one, not64-low_mask) (bit_and-high_mask k w x (omega (arith, width)))

  pub is_aligned_iff : (x : ℕ) → (is_aligned x (2 ^ k) ≡ true) ↔ (x % 2 ^ k ≡ 0)
  unfolding is_aligned
  is_aligned_iff x = rw (sub64-one, bit_and-low_mask k x) (ground arith)

  pub align_up_lem :
      (x : ℕ) → x + (2 ^ k - 1) < 2 ^ 64 → align_up x (2 ^ k) ≡ (x + (2 ^ k - 1)) / 2 ^ k * 2 ^ k
  unfolding align_up
  align_up_lem x h =
      rw (sub64-one, not64-low_mask, mod-eq_of_lt h)
        (bit_and-high_mask k w (x + (2 ^ k - 1)) (omega (arith, width)))

  pub round_up_lem :
      (x : ℕ)
      → 0 < x
      → x + (2 ^ k - 1) < 2 ^ 64
      → round_up x (2 ^ k) ≡ (x + (2 ^ k - 1)) / 2 ^ k * 2 ^ k
  unfolding round_up
  round_up_lem x pos h =
      rw (sub64-one, below, bit_or-low_mask k (x - 1))
        (omega (
          arith,
          one-le-pow k 2,
          add-div_right (x - 1) (one-le-pow k 2 (omega arith)),
          ap (λ (t : ℕ). t / 2 ^ k * 2 ^ k) shift,
          ap (λ (t : ℕ). t * 2 ^ k) (add-div_right (x - 1) (one-le-pow k 2 (omega arith))),
          div-mul-le_self (x - 1 + 2 ^ k) (2 ^ k),
        ))
    where
      below : sub64 x 1 ≡ x - 1
      below = omega arith

      shift : x + (2 ^ k - 1) ≡ x - 1 + 2 ^ k
      shift = omega (arith, one-le-pow k 2)

  pub align_down_lem : (x : ℕ) → x < 2 ^ 64 → align_down x (2 ^ k) ≡ x / 2 ^ k * 2 ^ k
  unfolding align_down
  align_down_lem x h =
      rw (sub64-one, not64-low_mask, back) (bit_and-high_mask k w x (omega (arith, width)))
    where
      back : u64 (sub64 x (2 ^ k - 1) + (2 ^ k - 1)) ≡ x
      back = omega (arith, pow-le, one-le-pow k 2)

module _ (a p : ℕ) (pos : 0 < p) where
  pub round_exact : a % p ≡ 0 → (a + (p - 1)) / p * p ≡ a
  round_exact e = ap (λ (t : ℕ). t * p) quotient ∙ omega (arith, mod-add-div' a p)
    where
      quotient : (a + (p - 1)) / p ≡ a / p
      quotient =
          div-eq_of_lt-le p (omega (arith, mod-add-div' a p)) (omega (arith, mod-add-div' a p))

  pub round_past : 0 < a % p → (a + (p - 1)) / p * p ≡ a + p - a % p
  round_past e = ap (λ (t : ℕ). t * p) quotient ∙ omega (arith, mod-add-div' a p)
    where
      quotient : (a + (p - 1)) / p ≡ a / p + 1
      quotient =
          div-eq_of_lt-le p (omega (arith, mod-add-div' a p, mod-lt a pos))
            (omega (arith, mod-add-div' a p, mod-lt a pos))

-- `x & (a - 1)` at an alignment.
pub bit_and-offset : (w k x : ℕ) → 2 ^ w * 2 ^ k ≡ 2 ^ 64 → bit_and x (sub64 (2 ^ k) 1) ≡ x % 2 ^ k
bit_and-offset w k x width = rw (sub64-one w k width) (bit_and-low_mask k x)
