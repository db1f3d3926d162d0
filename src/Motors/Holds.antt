-- ===== src/Motors/Holds.antt =====
-- The programs of src/drv8830.c have the properties of programs of `Logic`.
use sr_firmware.Base.{ℕ}
use sr_firmware.Hardware.Logic.{Logic, holds, read_register-Holds}
use sr_firmware.Hardware.Sdk.{PicoSdk}
use sr_firmware.Hardware.{call_queue_try_add}
use sr_firmware.Hardware.Sdk.{Entry}
use sr_firmware.Motors
use sr_firmware.Motors.{Motor}
use sr_firmware.Motors.Scope.{scope_set_controls}
use sr_firmware.Motors.Voltage.{Floats, set_voltage, drv8830_init}

module _ {sdk : PicoSdk} (logic : Logic sdk) where
  pub handle_fault-Holds : (motor : Motor) → logic.Holds (Motors.handle_fault sdk motor)
  unfolding Motors.handle_fault
  handle_fault-Holds motor = search (holds, read_register-Holds) depth 16

  pub fault_handler-Holds : (gpio : ℕ) → logic.Holds (Motors.fault_handler sdk gpio)
  unfolding Motors.fault_handler
  fault_handler-Holds gpio = search (holds, handle_fault-Holds) depth 12

  pub set_motor_control-Holds :
      (motor : Motor) (control_value : ℕ)
      → logic.Holds (Motors.set_motor_control sdk motor control_value)
  unfolding Motors.set_motor_control
  set_motor_control-Holds motor control_value = search (holds)

  pub scope_set_controls-Holds : (packed : ℕ) → logic.Holds (scope_set_controls sdk packed)
  unfolding scope_set_controls
  scope_set_controls-Holds packed = search (holds, set_motor_control-Holds) depth 8

  pub test_response-Holds : logic.Holds (Motors.test_response sdk)
  unfolding Motors.test_response
  test_response-Holds = search (holds)

  pub set_voltage-Holds :
      (f : Floats) (motor : Motor) (voltage : f.Float)
      → logic.Holds (set_voltage f sdk motor voltage)
  unfolding set_voltage
  set_voltage-Holds f motor voltage = search (holds, set_motor_control-Holds)

  pub drv8830_init-Holds : (f : Floats) → logic.Holds (drv8830_init f sdk)
  unfolding drv8830_init
  drv8830_init-Holds f = search (holds, set_voltage-Holds) depth 24

  module _
      (add_call : (func : Entry) (arg : ℕ) → logic.Holds (call_queue_try_add sdk func arg)) where
    pub on_interrupt-Holds :
        (gpio event_mask : ℕ) → logic.Holds (Motors.on_interrupt sdk gpio event_mask)
    unfolding Motors.on_interrupt
    on_interrupt-Holds gpio event_mask = search (holds, add_call) depth 16
