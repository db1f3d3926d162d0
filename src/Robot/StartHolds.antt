-- ===== src/Robot/StartHolds.antt =====
-- The start and the shutdown of src/robot.c have the properties of programs of `Logic`, when stopping
-- has them.
use sr_firmware.Base.{ℕ, zero, suc, ◌+◌}
use sr_firmware.Machine.{halt}
use sr_firmware.Hardware.{Io, act}
use sr_firmware.Hardware.Logic.{Logic, holds}
use sr_firmware.Hardware.Sdk.{PicoSdk, Entry, call_queue}
use sr_firmware.Battery.Holds as BatteryHolds
use sr_firmware.Charger.Holds as ChargerHolds
use sr_firmware.Encoders
use sr_firmware.Motors.Holds as MotorsHolds
use sr_firmware.Motors.Voltage.{Floats}
use sr_firmware.Power.Holds as PowerHolds
use sr_firmware.TypeC.Holds as TypeCHolds
use sr_firmware.TypeC.Registers.{Constants}
use sr_firmware.Robot
use sr_firmware.Robot.Startup
use sr_firmware.Robot.Setup
use sr_firmware.Robot.TestHolds as TestHolds

module _ {sdk : PicoSdk} (logic : Logic sdk) where
  pub encoder_init-Holds : logic.Holds (Encoders.encoder_init sdk)
  unfolding Encoders.encoder_init
  encoder_init-Holds = search (holds) depth 12

  pub quad_encoder_update-Holds : logic.Holds (Encoders.quad_encoder_update sdk)
  unfolding Encoders.quad_encoder_update Encoders.quad_encoder_get_count
  quad_encoder_update-Holds = search (holds) depth 12

  pub init_queues-Holds :
      ((size n : ℕ) → logic.Holds (act sdk (sdk.queue_init call_queue size n)))
      → logic.Holds (Setup.init_queues sdk)
  unfolding Setup.init_queues
  init_queues-Holds init = search (holds, init) depth 8

  pub results_queue_pop-Holds : logic.Holds (Setup.results_queue_pop sdk)
  unfolding Setup.results_queue_pop
  results_queue_pop-Holds = search (holds) depth 8

  pub i2c_start-Holds : logic.Holds (Setup.i2c_start sdk)
  unfolding Setup.i2c_start
  i2c_start-Holds = search (holds) depth 24

  pub i2c_stop-Holds : logic.Holds (Setup.i2c_stop sdk)
  unfolding Setup.i2c_stop
  i2c_stop-Holds = search (holds) depth 24

  pub scan_from-Holds : (i2c left address : ℕ) → logic.Holds (Setup.scan_from sdk i2c left address)
  unfolding Setup.scan_from
  scan_from-Holds i2c zero address = search (holds)
  scan_from-Holds i2c (suc left) address =
      search (holds, scan_from-Holds i2c left (address + 1)) depth 12

  pub i2c_scan-Holds : (i2c : ℕ) → logic.Holds (Setup.i2c_scan sdk i2c)
  unfolding Setup.i2c_scan
  i2c_scan-Holds i2c = search (holds, scan_from-Holds)

  pub turn_on_leds-Holds : logic.Holds (Startup.turn_on_leds sdk)
  unfolding Startup.turn_on_leds
  turn_on_leds-Holds = search (holds) depth 12

  pub count_rounds-Holds : (left : ℕ) → logic.Holds (Startup.count_rounds sdk left)
  unfolding Startup.count_rounds
  count_rounds-Holds zero = search (holds)
  count_rounds-Holds (suc left) =
      search (holds, quad_encoder_update-Holds, count_rounds-Holds left) depth 8

  pub pause-Holds : logic.Holds (Startup.pause sdk)
  unfolding Startup.pause
  pause-Holds = search (holds) depth 8

  pub end_start-Holds : (const : Constants) → logic.Holds (Startup.end_start sdk const)
  unfolding Startup.end_start
  end_start-Holds const = search (holds, i2c_scan-Holds, TypeCHolds.read_reg-Holds) depth 16

  pub start_motors-Holds : (f : Floats) → logic.Holds (Startup.start_motors sdk f)
  unfolding Startup.start_motors
  start_motors-Holds f =
      search
        (
          holds, BatteryHolds.init-Holds, BatteryHolds.fw_version_check-Holds,
          PowerHolds.sn74ahc125rgyr_on_end_of_start-Holds, MotorsHolds.drv8830_init-Holds,
          encoder_init-Holds, MotorsHolds.set_voltage-Holds, count_rounds-Holds,
        )
        depth 28

  module _ (halts : (A : Type 0) → logic.Holds {A = A} halt) where
    pub drain_results-Holds : (fuel : ℕ) → logic.Holds (Setup.drain_results sdk fuel)
    unfolding Setup.drain_results
    drain_results-Holds zero = halts (Unit {0})
    drain_results-Holds (suc fuel) =
        search (holds, results_queue_pop-Holds, drain_results-Holds fuel) depth 8

    pub results_queue_try_add-Holds :
        (func : Entry) (arg : ℕ) → logic.Holds (Setup.results_queue_try_add sdk func arg)
    unfolding Setup.results_queue_try_add
    results_queue_try_add-Holds func arg = search (holds, halts) depth 12

    pub signal_stop_core1-Holds : logic.Holds (Robot.signal_stop_core1 sdk)
    unfolding Robot.signal_stop_core1
    signal_stop_core1-Holds = search (holds, TestHolds.call_queue_try_add-Holds logic halts) depth 5

    module _ (meanwhile : Io sdk (Unit {0})) (during : logic.Holds meanwhile) where
      pub await_calls-Holds : (fuel : ℕ) → logic.Holds (Setup.await_calls sdk meanwhile fuel)
      unfolding Setup.await_calls
      await_calls-Holds zero = halts (Unit {0})
      await_calls-Holds (suc fuel) = search (holds, during, await_calls-Holds fuel) depth 12

      pub free_queues-Holds :
          logic.Holds (act sdk (sdk.queue_free call_queue))
          → (fuel : ℕ) → logic.Holds (Setup.free_queues sdk meanwhile fuel)
      unfolding Setup.free_queues
      free_queues-Holds free fuel =
          search (holds, free, drain_results-Holds, await_calls-Holds) depth 12

      module _ (const : Constants) where
        pub start_board-Holds :
            ((size n : ℕ) → logic.Holds (act sdk (sdk.queue_init call_queue size n)))
            → logic.Holds (Startup.start_board sdk const)
        unfolding Startup.start_board
        start_board-Holds init =
            search
              (
                holds,
                init_queues-Holds init,
                i2c_start-Holds,
                turn_on_leds-Holds,
                PowerHolds.stwlc38jrm_init-Holds,
                PowerHolds.ncp3901_init-Holds,
                ChargerHolds.max77976_init-Holds,
                PowerHolds.sn74ahc125rgyr_init-Holds,
                TestHolds.max77958_init-Holds logic halts meanwhile during const,
              )
              depth 32

        pub robot_unit_tests-Holds :
            (fuel : ℕ) → logic.Holds (Startup.robot_unit_tests sdk const meanwhile fuel)
        unfolding Startup.robot_unit_tests
        robot_unit_tests-Holds fuel =
            search
              (
                holds,
                TestHolds.test_get_id-Holds logic halts meanwhile during const,
                TestHolds.test_status_block_read_all-Holds logic halts meanwhile during const,
                TestHolds.test_bc_ctrl1_read-Holds logic halts meanwhile during const,
                TestHolds.test_bc_ctrl2_read-Holds logic halts meanwhile during const,
                TestHolds.test_control1_read-Holds logic halts meanwhile during const,
                TestHolds.test_cc_ctrl1_read-Holds logic halts meanwhile during const,
                TestHolds.test_cc_ctrl4_read-Holds logic halts meanwhile during const,
                TestHolds.test_gpio_control_read-Holds logic halts meanwhile during const,
                TestHolds.test_gpio0_gpio1_adc_read-Holds logic halts meanwhile during const,
                TestHolds.test_snk_pdo_request-Holds logic halts meanwhile during const,
                TestHolds.test_get_customer_config-Holds logic halts meanwhile during const,
                TestHolds.test_interrupt-Holds logic halts meanwhile during const,
                TestHolds.charger_id-Holds logic halts,
                TestHolds.test_get_fsw-Holds logic halts,
                TestHolds.test_get_faults-Holds logic halts,
                TestHolds.charger_interrupt-Holds logic halts meanwhile during,
                TestHolds.test_ncp3901_interrupt-Holds logic halts meanwhile during,
                TestHolds.motors_interrupt-Holds logic halts meanwhile during,
              )
              depth 40

        pub on_shutdown-Holds :
            logic.Holds (act sdk (sdk.queue_free call_queue))
            → (fuel : ℕ) → logic.Holds (Startup.on_shutdown sdk const meanwhile fuel)
        unfolding Startup.on_shutdown
        on_shutdown-Holds free fuel =
            search
              (
                holds,
                TestHolds.max77958_shutdown-Holds logic halts meanwhile during const,
                BatteryHolds.shutdown-Holds,
                signal_stop_core1-Holds,
                free_queues-Holds free,
              )
              depth 12
