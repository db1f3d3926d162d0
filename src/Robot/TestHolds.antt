-- ===== src/Robot/TestHolds.antt =====
-- The programs that may stop the core, the unit tests among them, have the properties of programs of
-- `Logic`, when stopping has them.
use Prim.Native.String.{String}
use sr_firmware.Base.{ℕ, zero, suc, ◌+◌, Bool, List, [], ◌∷◌}
use sr_firmware.Machine.{halt}
use sr_firmware.Hardware
use sr_firmware.Hardware.{Devices, Io, call_queue_try_add, call_queue_try_add_nonblocking}
use sr_firmware.Hardware.Logic.{Logic, holds, read_register-Holds}
use sr_firmware.Hardware.Sdk.{PicoSdk, Entry}
use sr_firmware.Charger
use sr_firmware.Charger.Holds as ChargerHolds
use sr_firmware.Motors
use sr_firmware.Motors.{Motor}
use sr_firmware.Power
use sr_firmware.TypeC.Registers
use sr_firmware.TypeC.Registers.{Constants}
use sr_firmware.TypeC.Opcodes
use sr_firmware.TypeC.Checks
use sr_firmware.TypeC.Waits
use sr_firmware.TypeC.Checks.{StatusReg}
use sr_firmware.TypeC.Start
use sr_firmware.TypeC.Holds as TypeCHolds

module _ {sdk : PicoSdk} (logic : Logic sdk) (halts : (A : Type 0) → logic.Holds {A = A} halt) where
  pub call_queue_try_add-Holds :
      (func : Entry) (arg : ℕ) → logic.Holds (call_queue_try_add sdk func arg)
  unfolding call_queue_try_add call_queue_try_add_nonblocking
  call_queue_try_add-Holds func arg = search (holds, halts) depth 12

  pub opcode_queue_add-Holds :
      (const : Constants) (func : Entry) (arg : ℕ)
      → logic.Holds (Opcodes.opcode_queue_add sdk const func arg)
  unfolding Opcodes.opcode_queue_add Registers.set_state
  opcode_queue_add-Holds const func arg = search (holds, halts) depth 12

  pub clear_fault-Holds : (motor : Motor) (i : ℕ) → logic.Holds (Motors.clear_fault sdk motor i)
  unfolding Motors.clear_fault
  clear_fault-Holds motor i = search (holds, halts, read_register-Holds) depth 12

  pub test_get_faults-Holds : logic.Holds (Motors.test_get_faults sdk)
  unfolding Motors.test_get_faults Motors.clear_faults
  test_get_faults-Holds = search (holds, clear_fault-Holds) depth 12

  pub expect_level-Holds :
      (gpio : ℕ) (level : Bool) (message : String)
      → logic.Holds (Hardware.expect_level sdk gpio level message)
  unfolding Hardware.expect_level
  expect_level-Holds gpio level message = search (holds, halts) depth 16

  pub charger_id-Holds : logic.Holds (Charger.test_get_id sdk)
  unfolding Charger.test_get_id
  charger_id-Holds =
      search
        (
          holds, halts, read_register-Holds, ChargerHolds.set_interrupt_masks-Holds,
          ChargerHolds.set_interrupt_masks_all_masked-Holds,
        )
        depth 16

  pub test_get_fsw-Holds : logic.Holds (Charger.test_get_fsw sdk)
  unfolding Charger.test_get_fsw
  test_get_fsw-Holds =
      search
        (
          holds, halts, read_register-Holds, ChargerHolds.set_interrupt_masks-Holds,
          ChargerHolds.set_interrupt_masks_all_masked-Holds,
        )
        depth 16

  pub returned-Holds : (i : ℕ) → logic.Holds (Waits.returned sdk i)
  unfolding Waits.returned
  returned-Holds i = search (holds)

  pub expect-Holds :
      (i value : ℕ) (message : String) (args : ℕ → List ℕ)
      → logic.Holds (Waits.expect sdk i value message args)
  unfolding Waits.expect
  expect-Holds i value message args = search (holds, returned-Holds)

  pub expect_word-Holds :
      (i value : ℕ) (message : String) → logic.Holds (Waits.expect_word sdk i value message)
  unfolding Waits.expect_word
  expect_word-Holds i value message = search (holds, returned-Holds) depth 8

  module _ (meanwhile : Io sdk (Unit {0})) (during : logic.Holds meanwhile) where
    pub wait_rounds-Holds :
        (completed : Devices sdk.World → Bool) (message : String) (left i : ℕ)
        → logic.Holds (Hardware.wait_rounds sdk completed message meanwhile left i)
    unfolding Hardware.wait_rounds
    wait_rounds-Holds completed message zero i = halts ℕ
    wait_rounds-Holds completed message (suc left) i =
        search (holds, halts, during, wait_rounds-Holds completed message left (i + 1)) depth 20

    pub wait-Holds :
        (completed : Devices sdk.World → Bool) (message : String) (i : ℕ)
        → logic.Holds (Hardware.wait sdk completed message meanwhile i)
    unfolding Hardware.wait
    wait-Holds completed message i = wait_rounds-Holds completed message 1001 i

    pub charger_interrupt-Holds : logic.Holds (Charger.test_interrupt sdk meanwhile)
    unfolding Charger.test_interrupt
    charger_interrupt-Holds =
        search
          (
            holds, wait-Holds, expect_level-Holds, ChargerHolds.set_interrupt_masks-Holds,
            ChargerHolds.set_interrupt_masks_all_masked-Holds,
          )
          depth 28

    pub test_ncp3901_interrupt-Holds : logic.Holds (Power.test_ncp3901_interrupt sdk meanwhile)
    unfolding Power.test_ncp3901_interrupt
    test_ncp3901_interrupt-Holds = search (holds, wait-Holds, expect_level-Holds) depth 32

    pub motors_interrupt-Holds : logic.Holds (Motors.test_interrupt sdk meanwhile)
    unfolding Motors.test_interrupt
    motors_interrupt-Holds = search (holds, wait-Holds, expect_level-Holds) depth 36

    pub check_rounds-Holds :
        (done : Devices sdk.World → Bool) (pause : Io sdk (Unit {0})) (limit : ℕ) (message : String)
        → logic.Holds pause
        → (fuel i : ℕ)
        → logic.Holds (Waits.wait_rounds sdk done pause limit message meanwhile fuel i)
    unfolding Waits.wait_rounds
    check_rounds-Holds done pause limit message p zero i = halts (Unit {0})
    check_rounds-Holds done pause limit message p (suc fuel) i =
        search (holds, p, during, check_rounds-Holds done pause limit message p fuel (i + 1)) depth
          20

    pub wait_opcodes-Holds :
        (message : String) (fuel : ℕ) → logic.Holds (Waits.wait_opcodes sdk message meanwhile fuel)
    unfolding Waits.wait_opcodes
    wait_opcodes-Holds message fuel = search (holds, check_rounds-Holds)

    module _ (const : Constants) where
      pub check_status_regs-Holds :
          (regs : List StatusReg) → logic.Holds (Checks.check_status_regs sdk const regs)
      unfolding Checks.check_status_regs
      check_status_regs-Holds [] = search (holds)
      check_status_regs-Holds (r ∷ rest) =
          search (holds, TypeCHolds.read_value-Holds, check_status_regs-Holds rest) depth 8

      pub test_status_block_read_all-Holds :
          logic.Holds (Checks.test_status_block_read_all sdk const)
      unfolding Checks.test_status_block_read_all
      test_status_block_read_all-Holds = search (holds, check_status_regs-Holds) depth 5

      pub test_get_id-Holds : logic.Holds (Checks.test_get_id sdk const)
      unfolding Checks.test_get_id
      test_get_id-Holds = search (holds, TypeCHolds.fetch-Holds) depth 12

      pub run_opcode-Holds :
          (func : Entry) (message : String) (fuel : ℕ)
          → logic.Holds (Checks.run_opcode sdk const func message meanwhile fuel)
      unfolding Checks.run_opcode
      run_opcode-Holds func message fuel =
          search
            (holds, opcode_queue_add-Holds, TypeCHolds.opcode_queue_start-Holds, wait_opcodes-Holds)
            depth 8

      pub test_bc_ctrl1_read-Holds :
          (fuel : ℕ) → logic.Holds (Checks.test_bc_ctrl1_read sdk const meanwhile fuel)
      unfolding Checks.test_bc_ctrl1_read
      test_bc_ctrl1_read-Holds fuel = search (holds, run_opcode-Holds, expect-Holds) depth 12

      pub test_bc_ctrl2_read-Holds :
          (fuel : ℕ) → logic.Holds (Checks.test_bc_ctrl2_read sdk const meanwhile fuel)
      unfolding Checks.test_bc_ctrl2_read
      test_bc_ctrl2_read-Holds fuel = search (holds, run_opcode-Holds, expect-Holds) depth 12

      pub test_control1_read-Holds :
          (fuel : ℕ) → logic.Holds (Checks.test_control1_read sdk const meanwhile fuel)
      unfolding Checks.test_control1_read
      test_control1_read-Holds fuel = search (holds, run_opcode-Holds, expect-Holds) depth 12

      pub test_cc_ctrl1_read-Holds :
          (fuel : ℕ) → logic.Holds (Checks.test_cc_ctrl1_read sdk const meanwhile fuel)
      unfolding Checks.test_cc_ctrl1_read
      test_cc_ctrl1_read-Holds fuel = search (holds, run_opcode-Holds, expect-Holds) depth 12

      pub test_cc_ctrl4_read-Holds :
          (fuel : ℕ) → logic.Holds (Checks.test_cc_ctrl4_read sdk const meanwhile fuel)
      unfolding Checks.test_cc_ctrl4_read
      test_cc_ctrl4_read-Holds fuel = search (holds, run_opcode-Holds, expect-Holds) depth 12

      pub test_gpio_control_read-Holds :
          (fuel : ℕ) → logic.Holds (Checks.test_gpio_control_read sdk const meanwhile fuel)
      unfolding Checks.test_gpio_control_read
      test_gpio_control_read-Holds fuel = search (holds, run_opcode-Holds, expect-Holds) depth 12

      pub test_gpio0_gpio1_adc_read-Holds :
          (fuel : ℕ) → logic.Holds (Checks.test_gpio0_gpio1_adc_read sdk const meanwhile fuel)
      unfolding Checks.test_gpio0_gpio1_adc_read
      test_gpio0_gpio1_adc_read-Holds fuel =
          search (holds, run_opcode-Holds, expect-Holds, returned-Holds) depth 16

      pub test_snk_pdo_request-Holds :
          (fuel : ℕ) → logic.Holds (Checks.test_snk_pdo_request sdk const meanwhile fuel)
      unfolding Checks.test_snk_pdo_request Registers.set_state
      test_snk_pdo_request-Holds fuel = search (holds, run_opcode-Holds, expect-Holds) depth 16

      pub test_get_customer_config-Holds :
          (fuel : ℕ) → logic.Holds (Checks.test_get_customer_config sdk const meanwhile fuel)
      unfolding Checks.test_get_customer_config
      test_get_customer_config-Holds fuel =
          search (holds, run_opcode-Holds, expect-Holds, expect_word-Holds) depth 16

      pub test_interrupt-Holds :
          (fuel : ℕ) → logic.Holds (Checks.test_interrupt sdk const meanwhile fuel)
      unfolding Checks.test_interrupt Registers.set_state
      test_interrupt-Holds fuel =
          search
            (
              holds, TypeCHolds.set_interrupt_masks_all_masked-Holds,
              TypeCHolds.set_interrupt_masks-Holds, check_rounds-Holds,
            )
            depth 28

      pub max77958_shutdown-Holds :
          (fuel : ℕ) → logic.Holds (Start.max77958_shutdown sdk const meanwhile fuel)
      unfolding Start.max77958_shutdown
      max77958_shutdown-Holds fuel =
          search
            (holds, opcode_queue_add-Holds, TypeCHolds.opcode_queue_start-Holds, wait_opcodes-Holds)
            depth 8

      pub max77958_init-Holds : logic.Holds (Start.max77958_init sdk const)
      unfolding Start.max77958_init
      max77958_init-Holds =
          search
            (
              holds,
              test_get_id-Holds,
              TypeCHolds.set_interrupt_masks-Holds,
              TypeCHolds.get_interrupt_vals-Holds,
              opcode_queue_add-Holds,
              TypeCHolds.opcode_queue_start-Holds,
              TypeCHolds.on_ccstat_change-Holds logic const call_queue_try_add-Holds
                  (opcode_queue_add-Holds const),
            )
            depth 32
