-- ===== src/Motors/Voltage.antt =====
-- `set_voltage` of src/drv8830.c, and `drv8830_init`, which calls it. The arithmetic on `float` and
-- `double` is a parameter.
use sr_firmware.Base.{
  ℕ, ◌-◌, ◌*◌, ◌^◌, ◌%◌, ◌&&◌, bit_and, bit_or, Bool, true, false, if◌then◌else◌,
}
use sr_firmware.Machine.{◌>>◌}
use sr_firmware.Hardware.{Io, act, gpio_irq_edge_fall}
use sr_firmware.Hardware.Sdk.{
  PicoSdk, gpio_init, gpio_put, gpio_set_dir, gpio_pull_up, gpio_set_irq_enabled,
}
use sr_firmware.Motors.{Motor, motor_left, motor_right, gpio_fault1, gpio_fault2, set_motor_control}

pub record Floats : Type 1 where
  pub Float : Type 0
  pub Double : Type 0
  pub widen : Float → Double
  pub narrow : Double → Float
  pub float_of_int : ℕ → Float
  pub double_of_int : ℕ → Double
  -- The literal `n` / 10 ^ `digits`.
  pub literal : ℕ → ℕ → Double
  pub negate : Double → Double
  pub fabs : Double → Double
  pub times_float : Float → Float → Float
  pub times : Double → Double → Double
  pub div : Double → Double → Double
  pub minus : Double → Double → Double
  pub less_equal : Double → Double → Bool
  pub less : Double → Double → Bool
  pub less_float : Float → Float → Bool
  -- The bits of the `int16_t`.
  pub to_int16 : Double → ℕ

module _ (f : Floats) where
  -- `voltage` after the dead band.
  unfoldable pub dead_band : f.Float → f.Float
  dead_band voltage =
      if f.less_equal (f.negate (f.literal 48 2)) (f.widen voltage)
        && f.less_equal (f.widen voltage) (f.literal 48 2)
      then f.narrow (f.literal 0 1)
      else voltage

  -- `voltage` after the clamp.
  unfoldable pub clamp : f.Float → f.Float
  clamp voltage =
      if f.less (f.widen voltage) (f.negate (f.literal 506 2))
      then f.narrow (f.negate (f.literal 506 2))
      else if f.less (f.literal 506 2) (f.widen voltage)
      then f.narrow (f.literal 506 2)
      else voltage

  -- The first `control_value`, before the shift.
  unfoldable pub magnitude : f.Float → ℕ
  magnitude voltage =
      let abs_voltage = f.narrow (f.fabs (f.widen voltage)) in
      let scaled = f.widen (f.times_float (f.float_of_int 64) abs_voltage) in
      let step = f.times (f.double_of_int 4) (f.literal 1285 3) in
      f.to_int16 (f.minus (f.div scaled step) (f.double_of_int 1)) % 2 ^ 16

  -- The byte that `set_voltage` sends for the clamped `voltage`: `control_value` is an `int16_t`.
  unfoldable pub control_byte : f.Float → ℕ
  control_byte voltage =
      let control_value = magnitude voltage * 2 ^ 2 % 2 ^ 16 in
      let zero_volt = f.float_of_int 0 in
      if f.less_float voltage zero_volt
      then bit_and (bit_or control_value (2 ^ 0)) (2 ^ 16 - 1 - 2 ^ 1) % 2 ^ 8
      else if f.less_float zero_volt voltage
      then bit_and (bit_or control_value (2 ^ 1)) (2 ^ 16 - 1 - 2 ^ 0) % 2 ^ 8
      else 0

  module _ (sdk : PicoSdk) where
    unfoldable pub set_voltage : Motor → f.Float → Io sdk (Unit {0})
    set_voltage motor voltage =
        set_motor_control sdk motor (control_byte (clamp (dead_band voltage)))

    unfoldable pub drv8830_init : Io sdk (Unit {0})
    drv8830_init = do
      act sdk (sdk.gpio (gpio_init gpio_fault1))
      act sdk (sdk.gpio (gpio_init gpio_fault2))
      act sdk (sdk.gpio (gpio_put gpio_fault1 false))
      act sdk (sdk.gpio (gpio_put gpio_fault2 false))
      act sdk (sdk.gpio (gpio_set_dir gpio_fault1 false))
      act sdk (sdk.gpio (gpio_set_dir gpio_fault2 false))
      act sdk (sdk.gpio (gpio_pull_up gpio_fault1))
      act sdk (sdk.gpio (gpio_pull_up gpio_fault2))
      act sdk (sdk.gpio (gpio_set_irq_enabled gpio_fault1 gpio_irq_edge_fall true))
      act sdk (sdk.gpio (gpio_set_irq_enabled gpio_fault2 gpio_irq_edge_fall true))
      set_voltage motor_left (f.float_of_int 0)
      set_voltage motor_right (f.float_of_int 0)
