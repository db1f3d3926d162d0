-- ===== src/Motors/Scope.antt =====
-- The test of the motors with an oscilloscope in src/drv8830.c, and its fault handler: the code of
-- a build with `DRV8830_SCOPE_TEST`. The fault bits and the times only go into messages below
-- WARNING.
use sr_firmware.Base.{
  ℕ, zero, suc, ◌*◌, ◌/◌, ◌^◌, ◌%◌, bit_and, bit_or, get_or, not, if◌then◌else◌, false, [], ◌∷◌,
}
use sr_firmware.Machine.{pure, ◌>>=◌, ◌>>◌}
use sr_firmware.Hardware.{
  Io, act, flagged, rp2040_log_w, read_register, i2c_write_error_handling, call_queue_try_add,
}
use sr_firmware.Hardware.Sdk.{PicoSdk, drv8830_scope_set_controls}
use sr_firmware.Motors.{
  Motor, motor_left, motor_right, address, reg_fault, Handled, ok, set_motor_control, clear_faults,
}

-- The macros of the build.
pub record ScopeTest : Type 0 where
  pub control : ℕ
  pub dwell_ms : ℕ
  pub off_ms : ℕ
  pub repeat : ℕ

abbrev pub default_test : ScopeTest
default_test = record { control = 0x7a; dwell_ms = 750; off_ms = 250; repeat = 10 }

-- `((uint8_t)DRV8830_SCOPE_TEST_CONTROL & 0xFC) | (1 << DRV8830_IN2_BIT)`
unfoldable pub forward_control : ℕ → ℕ
forward_control control = bit_or (bit_and (control % 2 ^ 8) 0xfc) (2 ^ 1) % 2 ^ 8

unfoldable pub reverse_control : ℕ → ℕ
reverse_control control = bit_or (bit_and (control % 2 ^ 8) 0xfc) (2 ^ 0) % 2 ^ 8

-- `((int32_t)left_control << 8) | right_control`
unfoldable pub packed_controls : ℕ → ℕ → ℕ
packed_controls left_control right_control = bit_or (left_control * 2 ^ 8) right_control

module _ (sdk : PicoSdk) where
  unfoldable pub scope_queue_controls : ℕ → ℕ → Io sdk (Unit {0})
  scope_queue_controls left_control right_control =
      call_queue_try_add sdk drv8830_scope_set_controls (packed_controls left_control right_control)

  unfoldable pub scope_set_controls : ℕ → Io sdk (Unit {0})
  scope_set_controls packed = do
    set_motor_control sdk motor_left (bit_and (packed / 2 ^ 8) 0xff % 2 ^ 8)
    set_motor_control sdk motor_right (bit_and packed 0xff % 2 ^ 8)

  -- The fault handler of this build once `addr` and `motor` are known; the fault is read again after
  -- it has been cleared.
  unfoldable pub scope_handle_fault : Motor → Io sdk Handled
  scope_handle_fault motor = do
    fault_values ← read_register sdk 0 (address motor) reg_fault 1
    let cleared = do
      i2c_write_error_handling sdk 0 (address motor) (reg_fault ∷ 2 ^ 7 ∷ []) false
      read_register sdk 0 (address motor) reg_fault 1 >>= λ _. pure ok
    if not (flagged (get_or fault_values 0 0) (2 ^ 0))
        then cleared
        else do rp2040_log_w sdk "%s motor fault\n" (address motor ∷ []); cleared

  module _ (test : ScopeTest) (meanwhile : Io sdk (Unit {0})) where
    -- Both motors are given a control, which core 1 sends while core 0 sleeps.
    unfoldable pub hold : ℕ → ℕ → Io sdk (Unit {0})
    hold control ms = do scope_queue_controls control control; act sdk (sdk.sleep_ms ms); meanwhile

    -- The rounds that are left of the loop of `drv8830_scope_test_run`.
    unfoldable pub scope_rounds : ℕ → Io sdk (Unit {0})
    scope_rounds zero = pure tt
    scope_rounds (suc left) = do
      hold (forward_control test.control) test.dwell_ms
      hold 0 test.off_ms
      hold (reverse_control test.control) test.dwell_ms
      hold 0 test.off_ms
      scope_rounds left

    unfoldable pub scope_test_run : Io sdk (Unit {0})
    scope_test_run = do clear_faults sdk; hold 0 test.off_ms; scope_rounds test.repeat; hold 0 50
