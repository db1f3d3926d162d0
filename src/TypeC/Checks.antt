-- ===== src/TypeC/Checks.antt =====
-- The unit tests of src/max77958.c, which run on the board. A wait of the source has no end of its
-- own: it runs on fuel, with `meanwhile` for what core 1 and the interrupts do during a sleep, and
-- `none` is a wait that still runs when the fuel is out.
use Prim.Native.String.{String}
use sr_firmware.Base.{ℕ, ◌!=◌, true, false, List, [], ◌∷◌, ◌++◌, get_or, if◌then◌else◌, ◌||◌}
use sr_firmware.Machine.{pure, ◌>>=◌, ◌>>◌}
use sr_firmware.Hardware.{Io, act, ask, get, when, flagged, rp2040_log_e}
use sr_firmware.Hardware.Sdk.{
  PicoSdk, Entry, gpio_set_dir, gpio_pull_up, tight_loop_contents, bc_ctrl1_read, bc_ctrl2_read,
  control1_read, cc_ctrl1_read, cc_ctrl4_read, gpio_control_read, gpio0_gpio1_adc_read,
  snk_pdo_request, customer_config_read,
}
use sr_firmware.TypeC.Registers.{
  Constants, gpio_interrupt, set_state, fetch, read_value, set_interrupt_masks,
  set_interrupt_masks_all_masked,
}
use sr_firmware.TypeC.Opcodes.{opcode_queue_add, opcode_queue_start}
use sr_firmware.TypeC.Waits.{returned, expect, expect_word, wait_rounds, wait_opcodes}

-- One character of `BYTE_TO_BINARY`.
abbrev bit_char : ℕ → ℕ → ℕ
bit_char byte mask = if flagged byte mask then 49 else 48

-- `BYTE_TO_BINARY`
abbrev pub byte_to_binary : ℕ → List ℕ
byte_to_binary byte =
    bit_char byte 0x80
    ∷ bit_char byte 0x40
    ∷ bit_char byte 0x20
    ∷ bit_char byte 0x10
    ∷ bit_char byte 0x08
    ∷ bit_char byte 0x04
    ∷ bit_char byte 0x02
    ∷ bit_char byte 0x01
    ∷ []

-- `max77958_status_reg_t`, without the name.
pub record StatusReg : Type 0 where
  pub reg : ℕ
  pub expected : ℕ

abbrev status_reg : ℕ → ℕ → StatusReg
status_reg r v = record { reg = r; expected = v }

abbrev pub regs : List StatusReg
regs =
    status_reg 0x08 0x07
    ∷ status_reg 0x09 0x00
    ∷ status_reg 0x0a 0x00
    ∷ status_reg 0x0b 0x00
    ∷ status_reg 0x0c 0x00
    ∷ status_reg 0x0d 0x00
    ∷ status_reg 0x0e 0x00
    ∷ status_reg 0x0f 0x00
    ∷ []

-- A message of `test_max77958_gpio_control_read`.
abbrev unexpected : String
unexpected =
    "test_max77958_gpio_control_read ERROR: OPCODE should be 0b00000000 (got 0b%c%c%c%c%c%c%c%c)\n"

module _ (sdk : PicoSdk) (const : Constants) where
  -- The name of the register, a `%s`, is given by its number.
  unfoldable pub check_status_regs : List StatusReg → Io sdk (Unit {0})
  check_status_regs [] = pure tt
  check_status_regs (r ∷ rest) = do
    val ← read_value sdk const r.reg
    when sdk (val != r.expected) (
        rp2040_log_e sdk
          "test_max77958_status_block_read_all ERROR: %s expected 0b%c%c%c%c%c%c%c%c, got 0b%c%c%c%c%c%c%c%c\n"
          (r.reg ∷ (byte_to_binary r.expected ++ byte_to_binary val)))
    check_status_regs rest

  unfoldable pub test_status_block_read_all : Io sdk (Unit {0})
  test_status_block_read_all = check_status_regs regs

  unfoldable pub test_get_id : Io sdk (Unit {0})
  test_get_id = do
    fetch sdk const 0x00 2
    buf ← get sdk (λ d. d.type_c.return_buf)
    when sdk (get_or buf 0 0 != 0x58)
        (rp2040_log_e sdk "test_max77958_get_id ERROR: DEVICE_ID should be 0x58" [])
    when sdk (get_or buf 1 0 != 0x02)
        (rp2040_log_e sdk "test_max77958_get_id ERROR: DEVICE_REV should be 0x02" [])

  -- The command, on core 1, and the wait for its response.
  unfoldable pub run_opcode : Entry → String → Io sdk (Unit {0}) → ℕ → Io sdk (Unit {0})
  run_opcode opcode_func message meanwhile fuel = do
    opcode_queue_add sdk const opcode_func 0
    opcode_queue_start sdk const
    wait_opcodes sdk message meanwhile fuel

  module _ (meanwhile : Io sdk (Unit {0})) (fuel : ℕ) where
    unfoldable pub test_bc_ctrl1_read : Io sdk (Unit {0})
    test_bc_ctrl1_read = do
      run_opcode bc_ctrl1_read
          "test_max77958_bc_ctrl1_read ERROR: Timed out waiting for GPIO to finish\n" meanwhile fuel
      expect sdk 0 0x01 "test_max77958_bc_ctrl1_read ERROR: OPCODE should be 0x01" (λ b. [])
      expect sdk 1 0x81
          "test_max77958_bc_ctrl1_read ERROR: BC_CTRL1_CONFIG should be 0b10000001 instead it is 0b%c%c%c%c%c%c%c%c\n"
          byte_to_binary

    unfoldable pub test_bc_ctrl2_read : Io sdk (Unit {0})
    test_bc_ctrl2_read = do
      run_opcode bc_ctrl2_read "test_max77958_bc_ctrl2_read ERROR: Timed out waiting for response\n"
          meanwhile fuel
      expect sdk 0 0x03 "test_max77958_bc_ctrl2_read ERROR: OPCODE should be 0x03 (got 0x%02x)\n"
          (λ b. b ∷ [])
      expect sdk 1 0x01
          "test_max77958_bc_ctrl2_read ERROR: OPCODE should be 0b00000001 got 0b%c%c%c%c%c%c%c%c\n"
          byte_to_binary

    unfoldable pub test_control1_read : Io sdk (Unit {0})
    test_control1_read = do
      run_opcode control1_read "test_max77958_control1_read ERROR: Timed out waiting for response\n"
          meanwhile fuel
      expect sdk 0 0x05 "test_max77958_control1_read ERROR: OPCODE should be 0x05 (got 0x%02x)\n"
          (λ b. b ∷ [])
      expect sdk 1 0x00
          "test_max77958_control1_read ERROR: OPCODE should be 0b00000000 (got 0b%c%c%c%c%c%c%c%c)\n"
          byte_to_binary

    unfoldable pub test_cc_ctrl1_read : Io sdk (Unit {0})
    test_cc_ctrl1_read = do
      run_opcode cc_ctrl1_read
          "test_max77958_cc_ctrl1_read ERROR: Timed out waiting for GPIO to finish\n" meanwhile fuel
      expect sdk 0 0x0b "test_max77958_cc_ctrl1_read ERROR: OPCODE should be 0x0B" (λ b. [])
      expect sdk 1 0x81
          "test_max77958_cc_ctrl1_read ERROR: CC_CTRL1_CONFIG should be 0b10000001 instead it is 0b%c%c%c%c%c%c%c%c\n"
          byte_to_binary

    unfoldable pub test_cc_ctrl4_read : Io sdk (Unit {0})
    test_cc_ctrl4_read = do
      run_opcode cc_ctrl4_read "test_max77958_cc_ctrl4_read ERROR: Timed out waiting for response\n"
          meanwhile fuel
      expect sdk 0 0x11 "test_max77958_cc_ctrl4_read ERROR: OPCODE should be 0x11 (got 0x%02x)\n"
          (λ b. b ∷ [])
      expect sdk 1 0x00
          "test_max77958_cc_ctrl4_read ERROR: OPCODE should be 0b00000000 (got 0b%c%c%c%c%c%c%c%c)\n"
          byte_to_binary

    -- `error_count` only guards a message below WARNING.
    unfoldable pub test_gpio_control_read : Io sdk (Unit {0})
    test_gpio_control_read = do
      run_opcode gpio_control_read
          "test_max77958_gpio_control_read ERROR: Timed out waiting for response\n" meanwhile fuel
      expect sdk 0 0x23
          "test_max77958_gpio_control_read ERROR: OPCODE should be 0x23 (got 0x%02x)\n"
          (λ b. b ∷ [])
      expect sdk 1 0x00 unexpected byte_to_binary
      expect sdk 2 0x00 unexpected byte_to_binary
      expect sdk 3 0x00 unexpected byte_to_binary

    unfoldable pub test_gpio0_gpio1_adc_read : Io sdk (Unit {0})
    test_gpio0_gpio1_adc_read = do
      run_opcode gpio0_gpio1_adc_read
          "test_max77958_gpio0_gpio1_adc_read ERROR: Timed out waiting for response\n" meanwhile
          fuel
      expect sdk 0 0x27
          "test_max77958_gpio0_gpio1_adc_read ERROR: OPCODE should be 0x27 (got 0x%02x)\n"
          (λ b. b ∷ [])
      sbu1 ← returned sdk 1
      sbu2 ← returned sdk 2
      when sdk (sbu1 != 0 || sbu2 != 0) (do
        rp2040_log_e sdk
            "test_max77958_gpio0_gpio1_adc_read ERROR: SBU1 should be 0b00000000 (got 0b%c%c%c%c%c%c%c%c)\n"
            (byte_to_binary sbu1)
        rp2040_log_e sdk
            "test_max77958_gpio0_gpio1_adc_read ERROR: SBU2 should be 0b00000000 (got 0b%c%c%c%c%c%c%c%c)\n"
            (byte_to_binary sbu2))

    -- The data objects that the source then puts together only go into messages below WARNING.
    unfoldable pub test_snk_pdo_request : Io sdk (Unit {0})
    test_snk_pdo_request = do
      set_state sdk (λ s. record s { use_mtp_access = false })
      run_opcode snk_pdo_request "test_max77958_snk_pdo_request ERROR: Timed out waiting for MTP\n"
          meanwhile fuel
      expect sdk 0 0x3e
          "test_max77958_snk_pdo_request ERROR: OPCODE echo mismatch for MTP (got 0x%02x)\n"
          (λ b. b ∷ [])
      set_state sdk (λ s. record s { use_mtp_access = true })
      run_opcode snk_pdo_request "test_max77958_snk_pdo_request ERROR: Timed out waiting for RAM\n"
          meanwhile fuel
      expect sdk 0 0x3e
          "test_max77958_snk_pdo_request ERROR: OPCODE echo mismatch for RAM (got 0x%02x)\n"
          (λ b. b ∷ [])

    unfoldable pub test_get_customer_config : Io sdk (Unit {0})
    test_get_customer_config = do
      run_opcode customer_config_read
          "test_max77958_get_customer_config ERROR: Timed out waiting for GPIO to finish\n"
          meanwhile fuel
      expect sdk 0 0x55 "test_max77958_get_customer_config ERROR: OPCODE should be 0x55" (λ b. [])
      expect_word sdk 2 0x0b6a
          "test_max77958_get_customer_config ERROR: CUSTOMER_CONFIG_ID should be 0x0B6A"
      expect_word sdk 4 0x6860
          "test_max77958_get_customer_config ERROR: CUSTOMER_CONFIG_REV should be 0x6860"

    -- A level that stays high is only reported.
    unfoldable pub test_interrupt : Io sdk (Unit {0})
    test_interrupt = do
      set_interrupt_masks_all_masked sdk const
      set_state sdk (λ s. record s { test_started = true })
      act sdk (sdk.gpio (gpio_set_dir gpio_interrupt true))
      high ← ask sdk (sdk.gpio_get gpio_interrupt)
      when sdk high (do
        again ← ask sdk (sdk.gpio_get gpio_interrupt)
        rp2040_log_e sdk
            "ERROR: test_max77958_interrupt: GPIO%d was not driven low. Current Value:%d\n"
            (gpio_interrupt ∷ (if again then 1 else 0) ∷ []))
      wait_rounds sdk (λ d. d.type_c.test_completed)
          (act sdk (sdk.sleep_ms 10) >> act sdk (sdk.setup tight_loop_contents)) 1000
          "ERROR: test_max77958_interrupt timed out\n" meanwhile fuel 0
      act sdk (sdk.gpio (gpio_set_dir gpio_interrupt false))
      act sdk (sdk.gpio (gpio_pull_up gpio_interrupt))
      set_state sdk (λ s. record s { test_started = false; test_completed = false })
      set_interrupt_masks sdk const
      set_state sdk (λ s. record s { interrupt_bool = false })
