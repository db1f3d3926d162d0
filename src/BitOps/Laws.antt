-- ===== src/BitOps/Laws.antt =====
-- What each operation does to every bit of a byte.
use sr_firmware.Base.{
  ℕ, zero, suc, ◌+◌, ◌-◌, ◌*◌, ◌%◌, ◌^◌, ◌≤◌, ◌<◌, ◌==◌, leb, ◌&&◌, if◌then◌else◌, min, max,
}
use sr_firmware.Base.{
  bit_and, ◌≡◌, refl, sym, ap, ap₂, ◌∙◌, arith, Bool-cases, inl, inr, ◌⊎◌, Bool, true, false, ltb,
  ltb→lt,
}
use native.Mathlib.Nat.{zero-mul, one-mul, one-le-pow}
use sr_firmware.Base.Bits.Word.{bit_and_pow}
use sr_firmware.Base.Bits.Digits.{test_bit, test_bit-lt, test_bit-bit_and, test_bit-bit_or}
use sr_firmware.Base.Bits.Digits.{test_bit-bit_xor, zero-test_bit}
use sr_firmware.Base.Bits.Fields.{
  test_bit-mod_low, test_bit-complement, test_bit-pow_self, test_bit-pow_ne, pow-lt,
}
use sr_firmware.Base.Bits.Fields.{
  test_bit-shift_low, test_bit-shift_high, test_bit-ones, test_bit_high,
}
use sr_firmware.BitOps.{bit_not, truth, bit_assign, bit_set, bit_clear, bit_flip, bit_check}
use sr_firmware.BitOps.{bitmask_from_x_2_y, bitmask_clear, bit_set_range}

-- `1 << i`, bit by bit.
pub test_bit-one : (i j : ℕ) → test_bit (1 * 2 ^ i) j ≡ (if i == j then 1 else 0)
test_bit-one i j = elim (Bool-cases (i == j)) [
  | inl e ↦
      let same : i ≡ j = ground arith in
      rw e (
        ap (λ t. test_bit t j) {x = 1 * 2 ^ i} {y = 2 ^ i} (omega arith)
        ∙ ap (test_bit (2 ^ i)) (sym same)
        ∙ test_bit-pow_self i)
  | inr e ↦ rw e (
      ap (λ t. test_bit t j) {x = 1 * 2 ^ i} {y = 2 ^ i} (omega arith)
      ∙ test_bit-pow_ne i j (ground arith))
]

pub test_bit-bit_not : (m j : ℕ) → m < 2 ^ 32 → j < 32 → test_bit (bit_not m) j ≡ 1 - test_bit m j
test_bit-bit_not m j hm hj =
    ap (λ t. test_bit t j) {x = bit_not m} {y = 2 ^ 32 - 1 - m} (omega arith)
    ∙ test_bit-complement 32 m j hm hj

test_bit-truth : (x i j : ℕ) → test_bit (truth x * 2 ^ i) j ≡ (if i == j then truth x else 0)
test_bit-truth x i j = elim (Bool-cases (x == 0)) [
  | inl e ↦ rw e (ground (arith, zero-test_bit j, ap (λ t. test_bit t j) (zero-mul (2 ^ i))))
  | inr e ↦ rw e (test_bit-one i j)
]

pub pow-fits : (i : ℕ) → i < 8 → 1 * 2 ^ i < 2 ^ 32
pow-fits i h = omega (arith, pow-lt i 32 (omega arith))

-- `bit_assign` makes bit `idx` 1 for a `new_value` other than 0 and 0 for 0, and keeps the
-- other seven bits.
test_bit-bit_assign :
    (v n idx j : ℕ)
    → idx < 8
    → j < 8
    → test_bit (bit_assign v n idx) j ≡ (if idx == j then truth n else test_bit v j)
unfolding bit_assign
test_bit-bit_assign v n idx j hi hj =
    test_bit-mod_low 8 _ j hj
    ∙ test_bit-bit_or (bit_and v (bit_not (1 * 2 ^ idx))) (truth n * 2 ^ idx) j
    ∙ ap₂ max
        (test_bit-bit_and v (bit_not (1 * 2 ^ idx)) j
          ∙ ap (min (test_bit v j)) (
              test_bit-bit_not (1 * 2 ^ idx) j (pow-fits idx hi) (omega arith)
              ∙ ap (λ t. 1 - t) (test_bit-one idx j)))
        (test_bit-truth n idx j)
    ∙ merge (idx == j) (test_bit v j) (truth n) (test_bit-lt v j)
  where
    merge :
        (b : Bool) (w t : ℕ)
        → w < 2
        → max (min w (1 - (if b then 1 else 0))) (if b then t else 0) ≡ (if b then t else w)
    merge true w t h = omega arith
    merge false w t h = omega arith

module _ (v idx j : ℕ) (hi : idx < 8) (hj : j < 8) where
  pub test_bit-bit_set : test_bit (bit_set v idx) j ≡ (if idx == j then 1 else test_bit v j)
  unfolding bit_set
  test_bit-bit_set =
      test_bit-mod_low 8 _ j hj
      ∙ test_bit-bit_or v (1 * 2 ^ idx) j
      ∙ ap (max (test_bit v j)) (test_bit-one idx j)
      ∙ ground (arith, test_bit-lt v j)

  pub test_bit-bit_clear : test_bit (bit_clear v idx) j ≡ (if idx == j then 0 else test_bit v j)
  unfolding bit_clear
  test_bit-bit_clear =
      test_bit-mod_low 8 _ j hj
      ∙ test_bit-bit_and v (bit_not (1 * 2 ^ idx)) j
      ∙ ap (min (test_bit v j)) (
          test_bit-bit_not (1 * 2 ^ idx) j (pow-fits idx hi) (omega arith)
          ∙ ap (λ t. 1 - t) (test_bit-one idx j))
      ∙ ground (arith, test_bit-lt v j)

  pub test_bit-bit_flip :
      test_bit (bit_flip v idx) j ≡ (if idx == j then 1 - test_bit v j else test_bit v j)
  unfolding bit_flip
  test_bit-bit_flip =
      test_bit-mod_low 8 _ j hj
      ∙ test_bit-bit_xor v (1 * 2 ^ idx) j
      ∙ ap (λ t. (test_bit v j + t) % 2) (test_bit-one idx j)
      ∙ ground (arith, test_bit-lt v j)

-- `bit_check` reads one bit, as 0 or 1.
bit_check-test_bit : (v idx : ℕ) → bit_check v idx ≡ test_bit v idx
unfolding bit_check
bit_check-test_bit v idx = ground (
  arith,
  bit_and_pow idx v,
  ap (bit_and v) (one-mul (2 ^ idx)),
  test_bit-lt v idx,
  one-le-pow idx 2,
  zero-mul (2 ^ idx),
  one-mul (2 ^ idx),
  scale (test_bit v idx) (2 ^ idx),
)
  where
    scale : (t p : ℕ) → (t ≡ 0) ⊎ (t ≡ 1) ⊎ (2 ≤ t)
    scale zero p = inl refl
    scale (suc zero) p = inr (inl refl)
    scale (suc (suc t)) p = inr (inr (omega arith))

-- `lsb <= j && j <= msb`
abbrev pub in_range : ℕ → ℕ → ℕ → Bool
in_range lsb msb j = leb lsb j && leb j msb

module _ (lsb msb j : ℕ) (ordered : lsb ≤ msb) (fits : msb < 8) (hj : j < 8) where
  mask_at :
      lsb ≤ j
      → test_bit ((1 * 2 ^ (msb + 1 - lsb) - 1) * 2 ^ lsb) j
        ≡ test_bit (1 * 2 ^ (msb + 1 - lsb) - 1) (j - lsb)
  mask_at h =
      ap (test_bit ((1 * 2 ^ (msb + 1 - lsb) - 1) * 2 ^ lsb)) {x = j} {y = j - lsb + lsb}
        (omega arith)
      ∙ test_bit-shift_high lsb (1 * 2 ^ (msb + 1 - lsb) - 1) (j - lsb)

  ones_at : (w i : ℕ) → test_bit (1 * 2 ^ w - 1) i ≡ (if ltb i w then 1 else 0)
  ones_at w i = elim (Bool-cases (ltb i w)) [
    | inl e ↦ rw e (low ∙ test_bit-ones w i (ltb→lt i w e))
    | inr e ↦
        rw e (low ∙ test_bit_high w (2 ^ w - 1) i (omega (arith, one-le-pow w 2)) (ground arith))
  ]
    where
      low : test_bit (1 * 2 ^ w - 1) i ≡ test_bit (2 ^ w - 1) i
      low = ap (λ t. test_bit t i) {x = 1 * 2 ^ w - 1} {y = 2 ^ w - 1} (omega arith)

  -- The mask of a range has its bits exactly in the range.
  pub test_bit-bitmask_from_x_2_y :
      test_bit (bitmask_from_x_2_y lsb msb) j ≡ (if in_range lsb msb j then 1 else 0)
  unfolding bitmask_from_x_2_y
  test_bit-bitmask_from_x_2_y =
      test_bit-mod_low 8 _ j hj
      ∙ ground (
        arith,
        mask_at,
        ones_at (msb + 1 - lsb) (j - lsb),
        test_bit-shift_low lsb (1 * 2 ^ (msb + 1 - lsb) - 1) j,
      )

  shifted_value : (n : ℕ) → lsb ≤ j → test_bit (n * 2 ^ lsb) j ≡ test_bit n (j - lsb)
  shifted_value n h =
      ap (test_bit (n * 2 ^ lsb)) {x = j} {y = j - lsb + lsb} (omega arith)
      ∙ test_bit-shift_high lsb n (j - lsb)

  mask-lt : bitmask_from_x_2_y lsb msb < 2 ^ 32
  unfolding bitmask_from_x_2_y
  mask-lt = omega arith

  range-merge :
      (n w x : ℕ)
      → w < 2
      → x < 2
      → (lsb ≤ j → x ≡ test_bit n (j - lsb))
      → max
          (min w (1 - (if in_range lsb msb j then 1 else 0)))
          (min x (if in_range lsb msb j then 1 else 0))
        ≡ (if in_range lsb msb j then test_bit n (j - lsb) else w)
  range-merge n w x hw hx e = ground arith

  -- With `lsb <= msb < 8`, `bit_set_range` puts the low bits of `new_val` into the bits from
  -- `lsb` to `msb`, whatever else `new_val` holds, and keeps every other bit of the byte.
  pub test_bit-bit_set_range :
      (v n : ℕ)
      → test_bit (bit_set_range v lsb msb n) j
        ≡ (if in_range lsb msb j then test_bit n (j - lsb) else test_bit v j)
  unfolding bit_set_range
  test_bit-bit_set_range v n =
      test_bit-mod_low 8 _ j hj
      ∙ test_bit-bit_or (bitmask_clear v mask) (bit_and (n * 2 ^ lsb) mask) j
      ∙ ap₂ max
          (test_bit-mod_low 8 _ j hj
            ∙ test_bit-bit_and v (bit_not mask) j
            ∙ ap (min (test_bit v j)) (
                test_bit-bit_not mask j mask-lt (omega arith)
                ∙ ap (λ t. 1 - t) test_bit-bitmask_from_x_2_y))
          (test_bit-bit_and (n * 2 ^ lsb) mask j
            ∙ ap (min (test_bit (n * 2 ^ lsb) j)) test_bit-bitmask_from_x_2_y)
      ∙ range-merge n (test_bit v j) (test_bit (n * 2 ^ lsb) j) (test_bit-lt v j)
          (test_bit-lt (n * 2 ^ lsb) j) (shifted_value n)
    where
      mask : ℕ
      mask = bitmask_from_x_2_y lsb msb
