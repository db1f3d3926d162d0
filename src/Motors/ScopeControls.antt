-- ===== src/Motors/ScopeControls.antt =====
-- What the oscilloscope test of src/drv8830.c sends to the motors.
use sr_firmware.Base.{ℕ, ◌+◌, ◌*◌, ◌/◌, ◌%◌, ◌^◌, ◌<◌, bit_and, ◌≡◌, refl, ap, ◌∙◌, arith}
use sr_firmware.Base.Bits.Digits.{bit_and-halves}
use sr_firmware.Base.Bits.Fields.{bit_and_mask, bit_or_fields, bit_or_comm}
use sr_firmware.Machine.{◌>>◌}
use sr_firmware.Hardware.{Io, State}
use sr_firmware.Hardware.Sdk.{PicoSdk}
use sr_firmware.Motors.{motor_left, motor_right, set_motor_control}
use sr_firmware.Motors.Drive.{bit_or-one, bit_or-two}
use sr_firmware.Motors.Scope.{forward_control, reverse_control, packed_controls, scope_set_controls}

packed-sum : (left right : ℕ) → right < 2 ^ 8 → packed_controls left right ≡ right + left * 2 ^ 8
unfolding packed_controls
packed-sum left right h = bit_or_comm (left * 2 ^ 8) right ∙ bit_or_fields 8 right left h

-- `& 0xFC`
bit_and-clear_two : (x : ℕ) → bit_and x 0xfc ≡ x / 4 % 2 ^ 6 * 4
bit_and-clear_two x =
    omega (arith, bit_and-halves x 252, bit_and-halves (x / 2) 126, bit_and_mask 6 (x / 2 / 2))

forward-sum : (control : ℕ) → forward_control control ≡ control % 2 ^ 8 / 4 * 4 + 2
unfolding forward_control
forward-sum control =
    rw (bit_and-clear_two (control % 2 ^ 8), bit_or-two (control % 2 ^ 8 / 4 % 2 ^ 6) (omega arith))
      (omega arith)

reverse-sum : (control : ℕ) → reverse_control control ≡ control % 2 ^ 8 / 4 * 4 + 1
unfolding reverse_control
reverse-sum control =
    rw (bit_and-clear_two (control % 2 ^ 8), bit_or-one (control % 2 ^ 8 / 4 % 2 ^ 6) (omega arith))
      (omega arith)

module _ (sdk : PicoSdk) where
  -- Both motors get a byte.
  abbrev pub both_motors : ℕ → Io sdk (Unit {0})
  both_motors byte = set_motor_control sdk motor_left byte >> set_motor_control sdk motor_right byte

  set-packed :
      (control byte : ℕ) (m : State sdk)
      → control ≡ byte
      → byte < 2 ^ 8
      → scope_set_controls sdk (packed_controls control control) m ≡ both_motors byte m
  unfolding scope_set_controls
  set-packed control byte m e h =
      let sum = packed-sum control control (omega (arith, e, h)) in
      let high : bit_and (packed_controls control control / 2 ^ 8) 0xff % 2 ^ 8 ≡ byte =
        ap (λ x. x % 2 ^ 8) (bit_and_mask 8 (packed_controls control control / 2 ^ 8))
        ∙ omega (arith, sum, e, h) in
      let low : bit_and (packed_controls control control) 0xff % 2 ^ 8 ≡ byte =
        ap (λ x. x % 2 ^ 8) (bit_and_mask 8 (packed_controls control control))
        ∙ omega (arith, sum, e, h) in
      rw (high, low) refl

  -- Whatever the macro for the control is, the entry that the oscilloscope test queues for a
  -- direction makes core 1 send both motors its six upper bits with IN2 alone forward and with IN1
  -- alone in reverse; the entry between two directions makes it send 0.
  pub scope_set_controls-drives :
      (control : ℕ) (m : State sdk)
      → (scope_set_controls sdk
            (packed_controls (forward_control control) (forward_control control))
            m
          ≡ both_motors (control % 2 ^ 8 / 4 * 4 + 2) m)
        × (scope_set_controls sdk
              (packed_controls (reverse_control control) (reverse_control control))
              m
            ≡ both_motors (control % 2 ^ 8 / 4 * 4 + 1) m)
        × (scope_set_controls sdk (packed_controls 0 0) m ≡ both_motors 0 m)
  scope_set_controls-drives control m = (
    set-packed (forward_control control) _ m (forward-sum control) (omega arith),
    set-packed (reverse_control control) _ m (reverse-sum control) (omega arith),
    set-packed 0 0 m refl (omega arith),
  )
