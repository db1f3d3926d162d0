-- ===== src/Robot/BoardTests.antt =====
-- A run of the start on a board whose chips answer, and of what can follow it.
use sr_firmware.Base.{
  ℕ, ◌==◌, ◌&&◌, Bool, true, false, if◌then◌else◌, [], ◌∷◌, Option, none, some, get_or, replicate,
  ◌≡◌, refl,
}
use sr_firmware.Log.{init}
use sr_firmware.Hardware.{Devices, Encoder, Io, State, modify}
use sr_firmware.Hardware.Keeps.{Keeps, modify-Keeps}
use sr_firmware.Hardware.Sdk.{pos, Gpio, gpio_set_dir, gpio_pull_up, PicoSdk, stop_core1}
use sr_firmware.Hardware.Samples.{at_rest}
use sr_firmware.TypeC.Samples.{constants}
use sr_firmware.Motors.Voltage.{Floats}
use sr_firmware.Serial.Sound.{IsSound}
use sr_firmware.Serial.State.{zero_state}
use sr_firmware.TypeC.Registers.{Constants}
use sr_firmware.Base.{List, ◌^◌, ◌∷◌, subst, ap, arith}
use sr_firmware.Hardware.{
  i2c_write_error_handling, i2c_read_error_handling, read_register, write_attempts, read_attempts,
  ask, flagged,
}
use sr_firmware.Hardware.Bus.{acked}
use sr_firmware.Motors.{Motor, motor_left, motor_right, address}
use sr_firmware.Serial.{get_state, send_framed_packet}
use sr_firmware.Serial.Fill.{arrive}
use sr_firmware.Serial.Packets.{state}
use sr_firmware.Serial.Receive.{get_block}
use sr_firmware.Robot.{robot_ops}
use sr_firmware.Robot.Answer.{IsReplied, request-IsReplied}
use sr_firmware.Robot.Returns.{Answers}
use sr_firmware.Robot.Startup.{on_start}
use sr_firmware.Hardware
use sr_firmware.Motors
use sr_firmware.Motors.Voltage
use sr_firmware.Battery
use sr_firmware.Battery.Block
use sr_firmware.Charger
use sr_firmware.Power
use sr_firmware.Encoders
use sr_firmware.TypeC.Registers
use sr_firmware.TypeC.Opcodes
use sr_firmware.TypeC.Checks
use sr_firmware.TypeC.Waits
use sr_firmware.TypeC.Interrupts
use sr_firmware.TypeC.Start
use sr_firmware.Robot.Startup
use sr_firmware.Robot.Setup
use sr_firmware.Log.{rp2040_log}
use sr_firmware.Robot.System.{Firmware, Reach, started, Reach-IsSound}

-- The last register written to, and the level of the pins.
record Board : Type 0 where
  reg : ℕ
  level : Bool

driven : Gpio → Board → Board
driven (gpio_set_dir pin true) b = record b { level = false }
driven (gpio_pull_up pin) b = record b { level = true }
driven call b = b

-- The chip at 0x6b answers with its identification at register 0.
abbrev board : PicoSdk
board = record {
  World = Board;
  i2c_write_timeout_us = λ i2c addr src nostop b. (pos 1, record b { reg = get_or src 0 0 });
  i2c_write_blocking = λ i2c addr src nostop b. b;
  i2c_read_timeout_us = λ i2c addr len nostop b.
      ((pos len, (if addr == 0x6b && b.reg == 0 then 0x76 else 0) ∷ []), b);
  i2c_read_blocking = λ i2c addr len nostop b. ((pos 0, []), b);
  queue_init = λ queue size n w. w;
  queue_free = λ queue w. w;
  queue_try_add = λ queue func arg b. (true, b);
  queue_try_remove = λ queue b. (none, b);
  queue_remove_blocking = λ queue b. ((stop_core1, 0), b);
  queue_is_empty = λ queue b. (true, b);
  sleep_ms = λ ms b. b;
  gpio = driven;
  gpio_get = λ pin b. (b.level, b);
  setup = λ call b. b;
  pwm_gpio_to_slice_num = λ pin b. (0, b);
  pio_add_program = λ b. (0, b);
  adc_read = λ input b. (0, b);
  quadrature_encoder_get_count = λ sm b. (0, b);
  behind_send_buf = λ b. [];
  at_null = λ b. 0;
  text = λ format args. [];
  text_no_null = λ format args. tt;
}

-- Arithmetic on numbers that are never negative.
abbrev naturals : Floats
naturals = record {
  Float = ℕ;
  Double = ℕ;
  widen = λ x. x;
  narrow = λ x. x;
  float_of_int = λ n. n;
  double_of_int = λ n. n;
  literal = λ n digits. n;
  negate = λ x. 0;
  fabs = λ x. x;
  times_float = λ x y. x;
  times = λ x y. x;
  div = λ x y. x;
  minus = λ x y. x;
  less_equal = λ x y. false;
  less = λ x y. false;
  less_float = λ x y. false;
  to_int16 = λ x. x;
}

-- During a wait, all that the tests wait for arrives.
abbrev arrives : Io board (Unit {0})
arrives = modify board (λ d. record d {
  type_c = record (d.type_c) { opcodes_finished = true; test_completed = true };
  test_max77976_completed = true;
  test_ncp3901_completed = true;
  test_drv8830_completed = true;
})

abbrev boot : Firmware board constants
boot = record {
  state = zero_state;
  rx_buffer = replicate 1024 0;
  machine = at_rest (record { reg = 0; level = true });
}

has_result : {A : Type 0} → Option A → Bool
has_result none = false
has_result (some a) = true

starts : has_result (on_start board constants arrives 2 naturals zero_state boot) ≡ true
unfolding Hardware.act Hardware.ask Hardware.get Hardware.modify Hardware.log
    Hardware.write_attempts Hardware.i2c_write_error_handling Hardware.read_attempts
    Hardware.i2c_read_error_handling Hardware.read_register Hardware.wait_rounds Hardware.wait
    Hardware.expect_level Motors.set_motor_control Motors.clear_fault Motors.clear_faults
    Motors.test_get_faults Motors.test_interrupt Voltage.set_voltage Voltage.drv8830_init
    Block.data_flash_checksum Battery.write_byte Battery.read_bytes Battery.control
    Battery.get_pack_configuration Battery.select_block Battery.read_data_flash_block
    Battery.configure_host_interrupts Battery.init Battery.fw_version_check
    Charger.get_interrupt_vals Charger.write_register Charger.set_interrupt_masks
    Charger.set_interrupt_masks_all_masked Charger.max77976_init Charger.test_get_id
    Charger.test_get_fsw Charger.test_interrupt Power.ncp3901_init Power.test_ncp3901_interrupt
    Power.stwlc38jrm_init Power.sn74ahc125rgyr_init Power.sn74ahc125rgyr_on_end_of_start
    Encoders.encoder_init Encoders.quad_encoder_get_count Encoders.quad_encoder_update
    Registers.set_state Registers.fetch Registers.get_interrupt_vals
    Registers.set_interrupt_masks_all_masked Registers.set_interrupt_masks Registers.read_reg
    Registers.read_value Opcodes.opcode_queue_add Opcodes.forward Opcodes.opcode_queue_pop
    Opcodes.opcode_queue_start Opcodes.vbus_turn_off Waits.returned Waits.expect Waits.expect_word
    Waits.wait_rounds Waits.wait_opcodes Checks.check_status_regs Checks.test_status_block_read_all
    Checks.test_get_id Checks.run_opcode Checks.test_bc_ctrl1_read Checks.test_bc_ctrl2_read
    Checks.test_control1_read Checks.test_cc_ctrl1_read Checks.test_cc_ctrl4_read
    Checks.test_gpio_control_read Checks.test_gpio0_gpio1_adc_read Checks.test_snk_pdo_request
    Checks.test_get_customer_config Checks.test_interrupt Interrupts.report_cc_status1
    Interrupts.on_ccstat_change Start.max77958_init Setup.init_queues Setup.i2c_start
    Setup.scan_from Setup.i2c_scan Startup.turn_on_leds Startup.count_rounds Startup.start_motors
    Startup.start_board Startup.end_start Startup.robot_unit_tests Startup.on_start rp2040_log
    driven has_result init
starts = refl

after_start : Option (Firmware board constants) → Firmware board constants
after_start none = boot
after_start (some c) = c

some-after_start :
    (out : Option (Firmware board constants)) → has_result out ≡ true → out ≡ some (after_start out)
unfolding after_start has_result
some-after_start none h = absurd cc
some-after_start (some c) h = refl

abbrev running : Firmware board constants
running = after_start (on_start board constants arrives 2 naturals zero_state boot)

running-Reach : Reach board constants arrives 2 naturals running
running-Reach = started zero_state boot running refl (some-after_start _ starts)

arrives-Keeps : Keeps board arrives
arrives-Keeps = modify-Keeps board _

Reach-IsSound_example : IsSound running
Reach-IsSound_example =
    Reach-IsSound board constants arrives 2 naturals arrives-Keeps running running-Reach

-- The bytes that a call has returned.
abbrev bytes_of : Option (List ℕ × State board) → List ℕ
bytes_of none = []
bytes_of (some (v, m)) = v

fault_clear :
    (motor : Motor) (m m' m'' : State board) (v : List ℕ)
    → i2c_write_error_handling board 0 (address motor) (1 ∷ 2 ^ 7 ∷ []) false m ≡ some (tt, m')
    → read_register board 0 (address motor) 1 1 m' ≡ some (v, m'')
    → flagged (get_or v 0 0) 1 ≡ false
unfolding read_register i2c_read_error_handling i2c_write_error_handling write_attempts
    read_attempts ask
fault_clear motor_left m m' m'' v written e =
    subst (λ bytes. flagged (get_or bytes 0 0) 1 ≡ false) (ap bytes_of e) refl
fault_clear motor_right m m' m'' v written e =
    subst (λ bytes. flagged (get_or bytes 0 0) 1 ≡ false) (ap bytes_of e) refl

board-Answers : Answers board
board-Answers = record {
  writes = λ i2c addr src nostop w. (0, omega arith, acked);
  reads = λ i2c addr len nostop w. (0, omega arith, acked);
  clears = fault_clear;
}

request-IsReplied_example :
    IsReplied board board-Answers constants arrives 2 naturals arrives-Keeps get_state []
      (get_block (robot_ops board) (arrive (send_framed_packet get_state []) []) running)
request-IsReplied_example =
    request-IsReplied board board-Answers constants arrives 2 naturals arrives-Keeps get_state [] []
      running running-Reach (omega arith, tt) (state refl refl)
