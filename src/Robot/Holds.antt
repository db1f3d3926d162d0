-- ===== src/Robot/Holds.antt =====
-- The programs of src/robot.c have the properties of programs of `Logic`.
use sr_firmware.Base.{ℕ, Bool, true, false, ◌≡◌, refl}
use sr_firmware.Hardware.{call_queue_try_add, ask}
use sr_firmware.Hardware.Logic.{Logic, holds, read_register-Holds}
use sr_firmware.Hardware.Sdk.{
  PicoSdk, Entry, drv8830_fault_handler, drv8830_test_response, bq27742_g1_parse_interrupt_vals,
  max77976_parse_interrupt_vals, max77976_test_response, max77958_parse_interrupt_vals,
  max77958_test_response, pd_msg_response, gpio_set, customer_config_write, customer_config_read,
  snk_pdo_request, bc_ctrl1_read, bc_ctrl2_read, control1_read, cc_ctrl1_read, cc_ctrl4_read,
  gpio_control_read, gpio0_gpio1_adc_read, ncp3901_attached, ncp3901_detached,
  ncp3901_test_response, drv8830_scope_set_controls, stop_core1, call_queue,
}
use sr_firmware.Serial.State.{Rp2040State}
use sr_firmware.Battery.Holds as BatteryHolds
use sr_firmware.Charger.Holds as ChargerHolds
use sr_firmware.Encoders
use sr_firmware.Motors
use sr_firmware.Motors.{Motor}
use sr_firmware.Motors.Holds as MotorsHolds
use sr_firmware.Power.Holds as PowerHolds
use sr_firmware.Robot
use sr_firmware.TypeC.Holds as TypeCHolds
use sr_firmware.TypeC.Opcodes
use sr_firmware.TypeC.Registers.{Constants}

-- The entries whose program adds entries to the queues, with an assertion that there is room.
abbrev pub adds : Entry → Bool
adds max77958_parse_interrupt_vals = true
adds pd_msg_response = true
adds other = false

module _ {sdk : PicoSdk} (logic : Logic sdk) where
  pub get_battery_state-Holds : (s : Rp2040State) → logic.Holds (Robot.get_battery_state sdk s)
  unfolding Robot.get_battery_state
  get_battery_state-Holds s =
      search
        (
          holds, BatteryHolds.get_voltage-Holds, BatteryHolds.get_temp-Holds,
          BatteryHolds.get_soh-Holds, BatteryHolds.get_safety_stats-Holds,
          BatteryHolds.get_flags-Holds,
        )
        depth 12

  pub get_charger_state-Holds : (s : Rp2040State) → logic.Holds (Robot.get_charger_state sdk s)
  unfolding Robot.get_charger_state
  get_charger_state-Holds s =
      search
        (
          holds, ChargerHolds.get_chg_details-Holds, PowerHolds.wireless_charger_attached-Holds,
          PowerHolds.ncp3901_adc0-Holds, PowerHolds.stwlc38jrm_adc1-Holds,
        )
        depth 12

  pub get_encoder_counts-Holds : (s : Rp2040State) → logic.Holds (Robot.get_encoder_counts sdk s)
  unfolding Robot.get_encoder_counts Encoders.quad_encoder_get_count
  get_encoder_counts-Holds s = search (holds) depth 8

  pub set_motor_levels-Holds : (s : Rp2040State) → logic.Holds (Robot.set_motor_levels sdk s)
  unfolding Robot.set_motor_levels
  set_motor_levels-Holds s = search (holds, MotorsHolds.set_motor_control-Holds) depth 8

  module _ (clear : (motor : Motor) (i : ℕ) → logic.Holds (Motors.clear_fault sdk motor i)) where
    pub get_motor_faults-Holds : (s : Rp2040State) → logic.Holds (Robot.get_motor_faults sdk s)
    unfolding Robot.get_motor_faults Motors.get_faults Motors.clear_faults
    get_motor_faults-Holds s = search (holds, read_register-Holds, clear) depth 16

    pub get_state-Holds : (s : Rp2040State) → logic.Holds (Robot.get_state sdk s)
    unfolding Robot.get_state
    get_state-Holds s =
        search
          (
            holds, get_encoder_counts-Holds, get_motor_faults-Holds, get_charger_state-Holds,
            get_battery_state-Holds,
          )
          depth 12

  module _ (const : Constants) where
    -- Every entry that adds none itself.
    pub plain-Holds :
        (func : Entry) (arg : ℕ)
        → adds func ≡ false
        → logic.Holds (Robot.run_entry sdk const func arg)
    unfolding Robot.run_entry
    plain-Holds drv8830_fault_handler arg plain = search (holds, MotorsHolds.fault_handler-Holds)
    plain-Holds drv8830_test_response arg plain = search (holds, MotorsHolds.test_response-Holds)
    plain-Holds bq27742_g1_parse_interrupt_vals arg plain =
        search (holds, BatteryHolds.parse_interrupt_vals-Holds)
    plain-Holds max77976_parse_interrupt_vals arg plain =
        search (holds, ChargerHolds.parse_interrupt_vals-Holds)
    plain-Holds max77976_test_response arg plain = search (holds, ChargerHolds.test_response-Holds)
    plain-Holds max77958_parse_interrupt_vals arg plain = absurd (cc)
    plain-Holds pd_msg_response arg plain = absurd (cc)
    plain-Holds max77958_test_response arg plain = search (holds, TypeCHolds.test_response-Holds)
    plain-Holds gpio_set arg plain = search (holds, TypeCHolds.set_gpio-Holds)
    plain-Holds customer_config_write arg plain =
        search (holds, TypeCHolds.customer_config_write-Holds)
    plain-Holds customer_config_read arg plain =
        search (holds, TypeCHolds.customer_config_read-Holds)
    plain-Holds snk_pdo_request arg plain = search (holds, TypeCHolds.snk_pdo_request-Holds)
    plain-Holds bc_ctrl1_read arg plain = search (holds, TypeCHolds.bc_ctrl1_read-Holds)
    plain-Holds bc_ctrl2_read arg plain = search (holds, TypeCHolds.bc_ctrl2_read-Holds)
    plain-Holds control1_read arg plain = search (holds, TypeCHolds.control1_read-Holds)
    plain-Holds cc_ctrl1_read arg plain = search (holds, TypeCHolds.cc_ctrl1_read-Holds)
    plain-Holds cc_ctrl4_read arg plain = search (holds, TypeCHolds.cc_ctrl4_read-Holds)
    plain-Holds gpio_control_read arg plain = search (holds, TypeCHolds.gpio_control_read-Holds)
    plain-Holds gpio0_gpio1_adc_read arg plain =
        search (holds, TypeCHolds.gpio0_gpio1_adc_read-Holds)
    plain-Holds ncp3901_attached arg plain =
        search (holds, PowerHolds.on_wireless_charger_attached-Holds)
    plain-Holds ncp3901_detached arg plain =
        search (holds, PowerHolds.on_wireless_charger_detached-Holds)
    plain-Holds ncp3901_test_response arg plain =
        search (holds, PowerHolds.ncp3901_test_response_handler-Holds)
    plain-Holds drv8830_scope_set_controls arg plain =
        search (holds, MotorsHolds.scope_set_controls-Holds)
    plain-Holds stop_core1 arg plain = search (holds)

  module _ (const : Constants)
      (add_call : (func : Entry) (arg : ℕ) → logic.Holds (call_queue_try_add sdk func arg)) where
    -- Every interrupt of the board.
    pub robot_interrupt_handler-Holds :
        (gpio event_mask : ℕ)
        → logic.Holds (Robot.robot_interrupt_handler sdk const gpio event_mask)
    unfolding Robot.robot_interrupt_handler
    robot_interrupt_handler-Holds gpio event_mask =
        search
          (
            holds, add_call, PowerHolds.on_wireless_charger_interrupt-Holds,
            ChargerHolds.on_battery_charger_interrupt-Holds, TypeCHolds.on_interrupt-Holds,
            BatteryHolds.on_interrupt-Holds, MotorsHolds.on_interrupt-Holds,
          )
          depth 16

    module _
        (add_opcode : (func : Entry) (arg : ℕ)
          → logic.Holds (Opcodes.opcode_queue_add sdk const func arg)) where
      -- Every entry of the call queue.
      pub run_entry-Holds :
          (func : Entry) (arg : ℕ) → logic.Holds (Robot.run_entry sdk const func arg)
      unfolding Robot.run_entry
      run_entry-Holds max77958_parse_interrupt_vals arg =
          search (holds, TypeCHolds.parse_interrupt_vals-Holds, add_call, add_opcode)
      run_entry-Holds pd_msg_response arg =
          search (holds, TypeCHolds.pd_message-Holds, add_call, add_opcode)
      run_entry-Holds other arg = plain-Holds const other arg refl

      pub call_queue_pop-Holds :
          logic.Holds (ask sdk (sdk.queue_remove_blocking call_queue))
          → logic.Holds (Robot.call_queue_pop sdk const)
      unfolding Robot.call_queue_pop
      call_queue_pop-Holds remove = search (holds, remove, run_entry-Holds)
