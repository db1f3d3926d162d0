-- ===== src/Robot/Startup.antt =====
-- The start, the main loop and the shutdown of src/robot.c, in the default build (`LOGGER` is USB, no
-- `BOARD_PICO`). `meanwhile` is what core 1 and the interrupts do during a sleep of a wait.
use sr_firmware.Base.{ℕ, zero, suc, true, false, Option, none, some, List, [], ◌++◌}
use sr_firmware.Log.{init}
use sr_firmware.Machine.{pure, ◌>>=◌, ◌>>◌}
use sr_firmware.Hardware.{Devices, Io, act, ask}
use sr_firmware.Hardware.Sdk.{
  PicoSdk, gpio_func_pwm, stdio_init_all, stdio_set_translate_crlf, gpio_set_irq_callback,
  irq_set_enabled, multicore_launch_core1, gpio_set_function, adc_init, tight_loop_contents,
  pwm_set_wrap, pwm_set_gpio_level, pwm_set_enabled,
}
use sr_firmware.Serial.State.{Rp2040State}
use sr_firmware.Serial.{Comm, serial_comm_manager_init}
use sr_firmware.Serial.Receive.{Input, get_block}
use sr_firmware.Battery
use sr_firmware.Motors
use sr_firmware.Motors.{motor_left, motor_right}
use sr_firmware.Motors.Voltage.{Floats, set_voltage, drv8830_init}
use sr_firmware.Power
use sr_firmware.Charger
use sr_firmware.Encoders.{encoder_init, quad_encoder_update}
use sr_firmware.TypeC.Registers.{Constants, read_reg}
use sr_firmware.TypeC.Checks
use sr_firmware.TypeC.Start.{max77958_init, max77958_shutdown}
use sr_firmware.Robot.{robot_ops, signal_stop_core1}
use sr_firmware.Robot.Setup.{init_queues, free_queues, i2c_start, i2c_scan}

abbrev led_en_pin : ℕ
led_en_pin = 21

module _ (sdk : PicoSdk) where
  unfoldable pub turn_on_leds : Io sdk (Unit {0})
  turn_on_leds = do
    act sdk (sdk.setup (gpio_set_function led_en_pin gpio_func_pwm))
    slice ← ask sdk (sdk.pwm_gpio_to_slice_num led_en_pin)
    act sdk (sdk.setup (pwm_set_wrap slice 255))
    act sdk (sdk.setup (pwm_set_gpio_level led_en_pin 128))
    act sdk (sdk.setup (pwm_set_enabled slice true))

  -- The loop of `on_start` that reads the encoders, with the rounds left.
  unfoldable pub count_rounds : ℕ → Io sdk (Unit {0})
  count_rounds zero = pure tt
  count_rounds (suc left) =
      quad_encoder_update sdk >> act sdk (sdk.setup tight_loop_contents) >> count_rounds left

  unfoldable pub start_motors : Floats → Io sdk (Unit {0})
  start_motors f = do
    Battery.init sdk
    Battery.fw_version_check sdk
    Power.sn74ahc125rgyr_on_end_of_start sdk 8
    Power.sn74ahc125rgyr_on_end_of_start sdk 22
    drv8830_init f sdk
    act sdk (sdk.sleep_ms 1000)
    encoder_init sdk
    act sdk (sdk.sleep_ms 1000)
    set_voltage f sdk motor_left (f.narrow (f.literal 25 1))
    set_voltage f sdk motor_right (f.narrow (f.literal 25 1))
    count_rounds 50
    set_voltage f sdk motor_left (f.float_of_int 0)
    set_voltage f sdk motor_right (f.float_of_int 0)

  module _ (const : Constants) where
    unfoldable pub start_board : Io sdk (Unit {0})
    start_board = do
      act sdk (sdk.setup stdio_init_all)
      act sdk (sdk.setup (stdio_set_translate_crlf false))
      act sdk (sdk.setup gpio_set_irq_callback)
      act sdk (sdk.setup irq_set_enabled)
      init_queues sdk
      act sdk (sdk.setup multicore_launch_core1)
      i2c_start sdk
      act sdk (sdk.setup adc_init)
      turn_on_leds
      Power.stwlc38jrm_init sdk 9 27
      Power.ncp3901_init sdk 4 5
      Charger.max77976_init sdk
      Power.sn74ahc125rgyr_init sdk 8
      Power.sn74ahc125rgyr_init sdk 22
      max77958_init sdk const
      act sdk (sdk.sleep_ms 1000)

    -- What `on_start` does behind `serial_comm_manager_init`.
    unfoldable pub end_start : Io sdk (Unit {0})
    end_start = do
      i2c_scan sdk 0 >>= λ _. pure tt
      i2c_scan sdk 1 >>= λ _. pure tt
      read_reg sdk const 0x9
      read_reg sdk const 0xa
      read_reg sdk const 0xd

  module _ (const : Constants) (meanwhile : Io sdk (Unit {0})) (fuel : ℕ) where
    unfoldable pub robot_unit_tests : Io sdk (Unit {0})
    robot_unit_tests = do
      Checks.test_get_id sdk const
      Checks.test_status_block_read_all sdk const
      Checks.test_bc_ctrl1_read sdk const meanwhile fuel
      Checks.test_bc_ctrl2_read sdk const meanwhile fuel
      Checks.test_control1_read sdk const meanwhile fuel
      Checks.test_cc_ctrl1_read sdk const meanwhile fuel
      Checks.test_cc_ctrl4_read sdk const meanwhile fuel
      Checks.test_gpio_control_read sdk const meanwhile fuel
      Checks.test_gpio0_gpio1_adc_read sdk const meanwhile fuel
      Checks.test_snk_pdo_request sdk const meanwhile fuel
      Checks.test_get_customer_config sdk const meanwhile fuel
      Checks.test_interrupt sdk const meanwhile fuel
      Charger.test_get_id sdk
      Charger.test_get_fsw sdk
      Charger.test_interrupt sdk meanwhile
      Power.test_ncp3901_interrupt sdk meanwhile
      Motors.test_get_faults sdk
      Motors.test_interrupt sdk meanwhile

    -- `on_start`; `rp2040_state` is zero at the start of the program.
    unfoldable pub on_start :
        Floats → Rp2040State → Comm (Devices sdk.World) → Option (Comm (Devices sdk.World))
    on_start f rp2040_state c =
        let first = start_board const >> start_motors f >> robot_unit_tests in
        elim (first (record (c.machine) { log = init })) [
          | none ↦ none
          | some (_, m) ↦
              let c' = serial_comm_manager_init rp2040_state (record c { machine = m }) in
              elim (end_start const c'.machine) [
                | none ↦ none
                | some (_, m') ↦ some (record c' { machine = m' })
              ]
        ]

    unfoldable pub on_shutdown : Io sdk (Unit {0})
    on_shutdown = do
      max77958_shutdown sdk const meanwhile fuel
      Battery.shutdown sdk
      signal_stop_core1 sdk
      free_queues sdk meanwhile fuel

  -- A sleep of the main loop, and `tight_loop_contents`.
  unfoldable pub pause : Io sdk (Unit {0})
  pause = act sdk (sdk.sleep_ms 10) >> act sdk (sdk.setup tight_loop_contents)

  -- Rounds of the loop of `main`, which has no end, as `shutdown` stays false: what has been sent,
  -- the input left, and the variables.
  unfoldable pub main_loop :
      ℕ → Input → Comm (Devices sdk.World) → Option (List ℕ × Input × Comm (Devices sdk.World))
  main_loop zero input c = some ([], input, c)
  main_loop (suc rounds) input c = elim (get_block (robot_ops sdk) input c) [
    | none ↦ none
    | some o ↦ elim (pause o.comm.machine) [
      | none ↦ none
      | some (_, m) ↦ elim (main_loop rounds o.rest (record (o.comm) { machine = m })) [
        | none ↦ none
        | some (sent, rest, c') ↦ some (o.sent ++ sent, rest, c')
      ]
    ]
  ]

  -- `main`, with the rounds of its loop that are run.
  unfoldable pub main :
      Constants
      → Io sdk (Unit {0})
      → ℕ
      → Floats
      → Rp2040State
      → ℕ
      → Input
      → Comm (Devices sdk.World)
      → Option (List ℕ × Input × Comm (Devices sdk.World))
  main const meanwhile fuel f rp2040_state rounds input boot =
      elim (on_start const meanwhile fuel f rp2040_state boot) [
        | none ↦ none
        | some c ↦ elim (act sdk (sdk.sleep_ms 1000) c.machine) [
          | none ↦ none
          | some (_, m) ↦ main_loop rounds input (record c { machine = m })
        ]
      ]
