-- ===== src/Motors.antt =====
-- src/drv8830.c, the motor drivers; `Voltage` has `set_voltage` and `drv8830_init`, and `Scope` the
-- code under `DRV8830_SCOPE_TEST`, which the default build leaves out.
pub mod Voltage
pub mod Drive
pub mod Scope
pub mod ScopeControls
mod Tests
pub mod Holds
use sr_firmware.Base.{ℕ, ◌^◌, ◌==◌, get_or, if◌then◌else◌, true, false, not, [], ◌∷◌}
use sr_firmware.Machine.{pure, ◌>>=◌, ◌>>◌, halt}
use sr_firmware.Hardware.{
  Io, act, get, modify, when, flagged, rp2040_log_w, rp2040_log_e, read_register,
  i2c_write_error_handling, call_queue_try_add, wait, expect_level, gpio_irq_edge_fall,
}
use sr_firmware.Hardware.Sdk.{
  PicoSdk, gpio_pull_up, gpio_set_dir, gpio_acknowledge_irq, drv8830_fault_handler,
  drv8830_test_response,
}

pub data Motor : Type 0 where
  motor_left motor_right : Motor

-- `DRV8830_FAULT1` and `DRV8830_FAULT2`, which `drv8830_init` is called with.
abbrev pub gpio_fault1 : ℕ
gpio_fault1 = 10

abbrev pub gpio_fault2 : ℕ
gpio_fault2 = 11

abbrev i2c0 : ℕ
i2c0 = 0

abbrev pub reg_fault : ℕ
reg_fault = 1

abbrev pub address : Motor → ℕ
address motor_left = 0x60
address motor_right = 0x62

-- The result of `drv8830_fault_handler`.
pub data Handled : Type 0 where
  ok invalid : Handled

module _ (sdk : PicoSdk) where
  unfoldable pub on_interrupt : ℕ → ℕ → Io sdk (Unit {0})
  on_interrupt gpio event_mask = when sdk (flagged event_mask gpio_irq_edge_fall) (do
    act sdk (sdk.gpio (gpio_acknowledge_irq gpio gpio_irq_edge_fall))
    call_queue_try_add sdk drv8830_fault_handler gpio
    testing ← get sdk (λ d. d.test_drv8830_started)
    when sdk testing (call_queue_try_add sdk drv8830_test_response 1))

  -- The handler once `addr` and `motor` are known; the number stands for the `%s` of the motor.
  unfoldable pub handle_fault : Motor → Io sdk Handled
  handle_fault motor = do
    fault_values ← read_register sdk i2c0 (address motor) reg_fault 1
    let faults = get_or fault_values 0 0
    let clear = i2c_write_error_handling sdk i2c0 (address motor) (reg_fault ∷ 2 ^ 7 ∷ []) false
    if not (flagged faults (2 ^ 0)) then (clear >>= λ _. pure ok) else do
      rp2040_log_w sdk "%s motor fault\n" (address motor ∷ [])
      rp2040_log_w sdk "Fault values for Motor %s: 0x%x\n" (address motor ∷ faults ∷ [])
      pure ok

  unfoldable pub fault_handler : ℕ → Io sdk Handled
  fault_handler gpio =
      if gpio == gpio_fault1
      then handle_fault motor_left
      else if gpio == gpio_fault2
      then handle_fault motor_right
      else do rp2040_log_w sdk "Error: invalid motor fault\n" []; pure invalid

  unfoldable pub set_motor_control : Motor → ℕ → Io sdk (Unit {0})
  set_motor_control motor control_value =
      act sdk (sdk.i2c_write_blocking i2c0 (address motor) (0 ∷ control_value ∷ []) false)

  -- A round of the loop of `drv8830_clear_faults`.
  unfoldable pub clear_fault : Motor → ℕ → Io sdk (Unit {0})
  clear_fault motor i = do
    i2c_write_error_handling sdk i2c0 (address motor) (reg_fault ∷ 2 ^ 7 ∷ []) false
    fault_value ← read_register sdk i2c0 (address motor) reg_fault 1
    when sdk (flagged (get_or fault_value 0 0) 1)
        (rp2040_log_e sdk "ERROR: Motor %d cannot clear faults. Exiting.\n" (i ∷ []) >>= λ _. halt)

  unfoldable pub clear_faults : Io sdk (Unit {0})
  clear_faults = clear_fault motor_left 0 >> clear_fault motor_right 1

  unfoldable pub get_faults : Io sdk (ℕ × ℕ)
  get_faults = do
    left ← read_register sdk i2c0 (address motor_left) reg_fault 1
    right ← read_register sdk i2c0 (address motor_right) reg_fault 1
    let faults : ℕ × ℕ = (get_or left 0 0, get_or right 0 0)
    modify sdk (λ d. record d { fault_values = faults })
    clear_faults
    pure faults

  -- `test_drv8830_get_faults`
  unfoldable pub test_get_faults : Io sdk (Unit {0})
  test_get_faults = clear_faults

  unfoldable pub test_response : Io sdk (Unit {0})
  test_response = modify sdk (λ d. record d { test_drv8830_completed = true })

  -- `test_drv8830_interrupt`: the second wait goes on with the `i` of the first. Between the two phases
  -- `started` is cleared and set again.
  unfoldable pub test_interrupt : Io sdk (Unit {0}) → Io sdk (Unit {0})
  test_interrupt meanwhile = do
    modify sdk (λ d. record d { test_drv8830_started = true })
    act sdk (sdk.gpio (gpio_set_dir gpio_fault1 true))
    expect_level sdk gpio_fault1 false
        "ERROR: test_drv8830_interrupt: GPIO%d was not driven low. Current Value:%d\n"
    i ←
        wait sdk (λ d. d.test_drv8830_completed) "ERROR: test_drv8830_interrupt timed out\n"
          meanwhile 0
    act sdk (sdk.gpio (gpio_set_dir gpio_fault1 false))
    act sdk (sdk.gpio (gpio_pull_up gpio_fault1))
    modify sdk (λ d. record d { test_drv8830_started = false; test_drv8830_completed = false })
    modify sdk (λ d. record d { test_drv8830_started = true })
    act sdk (sdk.gpio (gpio_set_dir gpio_fault2 true))
    i' ←
        wait sdk (λ d. d.test_drv8830_completed) "ERROR: test_drv8830_interrupt timed out\n"
          meanwhile i
    act sdk (sdk.gpio (gpio_set_dir gpio_fault2 false))
    act sdk (sdk.gpio (gpio_pull_up gpio_fault2))
    modify sdk (λ d. record d { test_drv8830_started = false })
