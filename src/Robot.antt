-- ===== src/Robot.antt =====
-- src/robot.c: the state of the robot, the dispatch of interrupts and of the call queue.
pub mod Holds
pub mod TestHolds
pub mod StartHolds
pub mod Returns
pub mod Setup
pub mod Startup
pub mod Scan
pub mod Calls
pub mod Stop
pub mod Arming
mod Configuring
pub mod Edges
pub mod Core1
pub mod Places
mod QueueCalls
mod Spending
pub mod System
pub mod Loop
pub mod Answer
mod Tests
mod BoardTests
pub mod Samples
mod StopTests
mod ArmingTests
use sr_firmware.Base.{ℕ, zero, suc, ◌==◌, if◌then◌else◌, true, false, Bool}
use sr_firmware.Machine.{Machine, pure, ◌>>=◌, ◌>>◌, halt}
use sr_firmware.Hardware.{
  Devices, Io, State, ask, get, modify, rp2040_log_e, call_queue_try_add,
  call_queue_try_add_nonblocking,
}
use sr_firmware.Hardware.Sdk.{
  PicoSdk, Entry, call_queue, drv8830_fault_handler, drv8830_test_response,
  bq27742_g1_parse_interrupt_vals, max77976_parse_interrupt_vals, max77976_test_response,
  max77958_parse_interrupt_vals, max77958_test_response, pd_msg_response, gpio_set,
  customer_config_write, customer_config_read, snk_pdo_request, bc_ctrl1_read, bc_ctrl2_read,
  control1_read, cc_ctrl1_read, cc_ctrl4_read, gpio_control_read, gpio0_gpio1_adc_read,
  ncp3901_attached, ncp3901_detached, ncp3901_test_response, drv8830_scope_set_controls, stop_core1,
}
use sr_firmware.Serial.State.{Rp2040State}
use sr_firmware.Serial.{RobotOps}
use sr_firmware.Charger.Details.{get_chg_details}
use sr_firmware.Battery.Reports.{get_voltage, get_safety_stats, get_temp, get_soh, get_flags}
use sr_firmware.Battery
use sr_firmware.Motors
use sr_firmware.Motors.Scope.{scope_set_controls}
use sr_firmware.Motors.{motor_left, motor_right}
use sr_firmware.Power
use sr_firmware.Charger
use sr_firmware.Encoders.{quad_encoder_get_count}
use sr_firmware.TypeC.Registers
use sr_firmware.TypeC.Registers.{Constants}
use sr_firmware.TypeC.Interrupts
use sr_firmware.TypeC.Opcodes

module _ (sdk : PicoSdk) where
  unfoldable pub get_encoder_counts : Rp2040State → Io sdk Rp2040State
  get_encoder_counts state = do
    left ← quad_encoder_get_count sdk 0
    right ← quad_encoder_get_count sdk 1
    pure (record state { encoder_left = left; encoder_right = right })

  unfoldable pub get_motor_faults : Rp2040State → Io sdk Rp2040State
  get_motor_faults state = do
    motor_faults ← Motors.get_faults sdk
    pure (record state { faults_left = motor_faults.0; faults_right = motor_faults.1 })

  unfoldable pub get_charger_state : Rp2040State → Io sdk Rp2040State
  get_charger_state state = do
    details ← get_chg_details sdk
    attached ← Power.wireless_charger_attached sdk
    usb ← Power.ncp3901_adc0 sdk
    vrect ← Power.stwlc38jrm_adc1 sdk
    pure (record state {
      max77976_chg_details = details;
      wireless_charger_attached = if attached then 1 else 0;
      usb_charger_voltage = usb;
      wireless_charger_vrect = vrect;
    })

  unfoldable pub get_battery_state : Rp2040State → Io sdk Rp2040State
  get_battery_state state = do
    voltage' ← get_voltage sdk
    safety' ← get_safety_stats sdk
    temperature' ← get_temp sdk
    soh' ← get_soh sdk
    flags' ← get_flags sdk
    pure (record state {
      voltage = voltage';
      safety_status = safety';
      temperature = temperature';
      state_of_health = soh';
      flags = flags';
    })

  unfoldable pub get_state : Rp2040State → Io sdk Rp2040State
  get_state state = do
    with_counts ← get_encoder_counts state
    with_faults ← get_motor_faults with_counts
    with_charger ← get_charger_state with_faults
    get_battery_state with_charger

  unfoldable pub set_motor_levels : Rp2040State → Io sdk (Unit {0})
  set_motor_levels state = do
    Motors.set_motor_control sdk motor_left state.control_left
    Motors.set_motor_control sdk motor_right state.control_right

  -- What `handle_packet` calls.
  unfoldable pub robot_ops : RobotOps (Devices sdk.World)
  robot_ops = record { set_motor_levels = set_motor_levels; get_state = get_state }

  unfoldable pub signal_stop_core1 : Io sdk (Unit {0})
  signal_stop_core1 = call_queue_try_add sdk stop_core1 0

  unfoldable pub sample_adc_inputs : Io sdk (Unit {0})
  sample_adc_inputs = do
    Power.ncp3901_adc0 sdk >>= λ _. pure tt
    Power.stwlc38jrm_adc1 sdk >>= λ _. pure tt

module _ (sdk : PicoSdk) (const : Constants) where
  unfoldable pub robot_interrupt_handler : ℕ → ℕ → Io sdk (Unit {0})
  robot_interrupt_handler gpio event_mask =
      if gpio == 4
      then Power.on_wireless_charger_interrupt sdk gpio event_mask
      else if gpio == Charger.gpio_interrupt
      then Charger.on_battery_charger_interrupt sdk gpio event_mask
      else if gpio == Registers.gpio_interrupt
      then Interrupts.on_interrupt sdk const gpio event_mask
      else if gpio == Battery.gpio_interrupt
      then Battery.on_interrupt sdk gpio event_mask
      else if gpio == Motors.gpio_fault1
      then Motors.on_interrupt sdk gpio event_mask
      else if gpio == Motors.gpio_fault2
      then Motors.on_interrupt sdk gpio event_mask
      else pure tt

  -- `entry.func(entry.data)`; the results are not used.
  unfoldable pub run_entry : Entry → ℕ → Io sdk (Unit {0})
  run_entry drv8830_fault_handler arg = Motors.fault_handler sdk arg >>= λ _. pure tt
  run_entry drv8830_test_response arg = Motors.test_response sdk
  run_entry bq27742_g1_parse_interrupt_vals arg = Battery.parse_interrupt_vals sdk >>= λ _. pure tt
  run_entry max77976_parse_interrupt_vals arg = Charger.parse_interrupt_vals sdk >>= λ _. pure tt
  run_entry max77976_test_response arg = Charger.test_response sdk
  run_entry max77958_parse_interrupt_vals arg =
      Interrupts.parse_interrupt_vals sdk const >>= λ _. pure tt
  run_entry max77958_test_response arg = Interrupts.test_response sdk const
  run_entry pd_msg_response arg = Interrupts.pd_message sdk const
  run_entry gpio_set arg = Opcodes.set_gpio sdk const arg
  run_entry customer_config_write arg = Opcodes.customer_config_write sdk const
  run_entry customer_config_read arg = Opcodes.customer_config_read sdk const
  run_entry snk_pdo_request arg = Opcodes.snk_pdo_request sdk const
  run_entry bc_ctrl1_read arg = Opcodes.bc_ctrl1_read sdk const
  run_entry bc_ctrl2_read arg = Opcodes.bc_ctrl2_read sdk const
  run_entry control1_read arg = Opcodes.control1_read sdk const
  run_entry cc_ctrl1_read arg = Opcodes.cc_ctrl1_read sdk const
  run_entry cc_ctrl4_read arg = Opcodes.cc_ctrl4_read sdk const
  run_entry gpio_control_read arg = Opcodes.gpio_control_read sdk const
  run_entry gpio0_gpio1_adc_read arg = Opcodes.gpio0_gpio1_adc_read sdk const
  run_entry ncp3901_attached arg = Power.on_wireless_charger_attached sdk
  run_entry ncp3901_detached arg = Power.on_wireless_charger_detached sdk
  run_entry ncp3901_test_response arg = Power.ncp3901_test_response_handler sdk
  -- In a build with `DRV8830_SCOPE_TEST`; no other adds this entry.
  run_entry drv8830_scope_set_controls arg = scope_set_controls sdk arg
  run_entry stop_core1 arg = modify sdk (λ d. record d { core1_shutdown_requested = true })

  unfoldable pub call_queue_pop : Io sdk (Unit {0})
  call_queue_pop = do
    entry ← ask sdk (sdk.queue_remove_blocking call_queue)
    run_entry entry.0 entry.1

  -- `core1_entry`, with the number of entries that arrive; `none` also stands for core 1 waiting
  -- when they are used up.
  unfoldable pub core1_entry : ℕ → Io sdk (Unit {0})
  core1_entry zero = halt
  core1_entry (suc fuel) = do
    let rest = core1_entry fuel
    stop ← get sdk (λ d. d.core1_shutdown_requested)
    if stop then pure tt else (call_queue_pop >> rest)
