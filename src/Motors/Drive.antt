-- ===== src/Motors/Drive.antt =====
-- What `set_voltage` asks of the H-bridge.
use sr_firmware.Base.{
  ℕ, ◌+◌, ◌*◌, ◌/◌, ◌%◌, ◌^◌, ◌-◌, ◌<◌, bit_and, bit_or, true, false, ◌≡◌, ap, refl, arith,
  Bool-cases, inl, inr,
}
use sr_firmware.Base.Bits.Digits.{bit_or-halves, bit_and-halves}
use sr_firmware.Base.Bits.Fields.{bit_and_mask, bit_or_fields}
use sr_firmware.Motors.Voltage.{Floats, control_byte, magnitude}

module _ (f : Floats) (voltage : f.Float) where
  -- IN1 and IN2 as the sign of the voltage has them, and the magnitude in the bits above.
  pub data IsDrive (byte : ℕ) : Type 0 where
    reverse :
        f.less_float voltage (f.float_of_int 0) ≡ true
        → byte ≡ magnitude f voltage % 2 ^ 6 * 2 ^ 2 + 1
        → IsDrive byte
    forward :
        f.less_float voltage (f.float_of_int 0) ≡ false
        → f.less_float (f.float_of_int 0) voltage ≡ true
        → byte ≡ magnitude f voltage % 2 ^ 6 * 2 ^ 2 + 2
        → IsDrive byte
    coast :
        f.less_float voltage (f.float_of_int 0) ≡ false
        → f.less_float (f.float_of_int 0) voltage ≡ false
        → byte ≡ 0
        → IsDrive byte

bit_or-zero : (x : ℕ) → x < 2 ^ 16 → bit_or x 0 ≡ x
bit_or-zero x h = omega (arith, bit_or_fields 16 x 0 h)

pub bit_or-one : (u : ℕ) → u < 2 ^ 14 → bit_or (u * 4) 1 ≡ u * 4 + 1
bit_or-one u h =
    let half : u * 4 / 2 ≡ u * 2 = omega arith in
    omega
      (arith, bit_or-halves (u * 4) 1, ap (λ x. bit_or x 0) half, bit_or-zero (u * 2) (omega arith))

pub bit_or-two : (u : ℕ) → u < 2 ^ 14 → bit_or (u * 4) 2 ≡ u * 4 + 2
bit_or-two u h =
    let half : u * 4 / 2 ≡ u * 2 = omega arith in
    let quarter : u * 2 / 2 ≡ u = omega arith in
    omega (
      arith,
      bit_or-halves (u * 4) 2,
      ap (λ x. bit_or x 1) half,
      bit_or-halves (u * 2) 1,
      ap (λ x. bit_or x 0) quarter,
      bit_or-zero u (omega arith),
    )

-- `& ~(1 << 1)` and `& ~(1 << 0)` on 16 bits.
bit_and-not_two : (x : ℕ) → bit_and x 65533 ≡ x / 4 % 2 ^ 14 * 4 + x % 2
bit_and-not_two x =
    omega (arith, bit_and-halves x 65533, bit_and-halves (x / 2) 32766, bit_and_mask 14 (x / 2 / 2))

bit_and-not_one : (x : ℕ) → bit_and x 65534 ≡ x / 2 % 2 ^ 15 * 2
bit_and-not_one x = omega (arith, bit_and-halves x 65534, bit_and_mask 15 (x / 2))

shifted : (v : ℕ) → v * 2 ^ 2 % 2 ^ 16 ≡ v % 2 ^ 14 * 4
shifted v = omega arith

set_one :
    (v : ℕ)
    → bit_and (bit_or (v * 2 ^ 2 % 2 ^ 16) (2 ^ 0)) (2 ^ 16 - 1 - 2 ^ 1) % 2 ^ 8
      ≡ v % 2 ^ 6 * 2 ^ 2 + 1
set_one v =
    rw (shifted v, bit_or-one (v % 2 ^ 14) (omega arith), bit_and-not_two (v % 2 ^ 14 * 4 + 1))
      (omega arith)

set_two :
    (v : ℕ)
    → bit_and (bit_or (v * 2 ^ 2 % 2 ^ 16) (2 ^ 1)) (2 ^ 16 - 1 - 2 ^ 0) % 2 ^ 8
      ≡ v % 2 ^ 6 * 2 ^ 2 + 2
set_two v =
    rw (shifted v, bit_or-two (v % 2 ^ 14) (omega arith), bit_and-not_one (v % 2 ^ 14 * 4 + 2))
      (omega arith)

-- The byte that `set_voltage` sends for a clamped voltage has the low six bits of the magnitude
-- above, and below IN1 alone for a negative voltage, IN2 alone for a positive one; it is zero for
-- any other: IN1 and IN2, which brake together, are never both set.
pub control_byte-IsDrive :
    (f : Floats) (voltage : f.Float) → IsDrive f voltage (control_byte f voltage)
unfolding control_byte
control_byte-IsDrive f voltage = elim (Bool-cases (f.less_float voltage (f.float_of_int 0))) [
  | inl neg ↦ reverse neg (rw neg (set_one (magnitude f voltage)))
  | inr not_neg ↦ elim (Bool-cases (f.less_float (f.float_of_int 0) voltage)) [
    | inl pos ↦ forward not_neg pos (rw (not_neg, pos) (set_two (magnitude f voltage)))
    | inr not_pos ↦ coast not_neg not_pos (rw (not_neg, not_pos) refl)
  ]
]
