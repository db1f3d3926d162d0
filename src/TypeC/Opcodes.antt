-- ===== src/TypeC/Opcodes.antt =====
-- The opcode commands of src/max77958.c and the queue they wait in.
use sr_firmware.Base.{
  ℕ, ◌*◌, ◌^◌, ◌%◌, ◌!=◌, bit_or, Bool, true, false, Option, none, some, List, [], ◌∷◌, ◌++◌, take,
  replicate, get_or, if◌then◌else◌,
}
use sr_firmware.Machine.{pure, ◌>>=◌, ◌>>◌, halt}
use sr_firmware.Hardware.{Io, ask, get, when, rp2040_log_e, read_register, i2c_write_error_handling}
use sr_firmware.Hardware.Sdk.{PicoSdk, Entry, gpio_set, opcode_queue, call_queue}
use sr_firmware.TypeC.Config.{CustomerConfig, build_customer_config_value, typec_mode_drp}
use sr_firmware.TypeC.Registers.{Constants, i2c0, set_state}

-- The configuration that `customer_config_write` sends.
abbrev pub customer_config : CustomerConfig
customer_config = record {
  dbg_src_enable = false;
  dbg_snk_enable = false;
  audio_acc_enable = false;
  trysnk_enable = false;
  typec_mode = typec_mode_drp;
  mem_update_customer = false;
  moisture_enable = false;
}

-- `gpio_bool_to_int32`
unfoldable pub gpio_bool_to_int32 : Bool → Bool → ℕ
gpio_bool_to_int32 gpio4 gpio5 =
    let high = bit_or ((if gpio5 then 1 else 0) * 2 ^ 3) (1 * 2 ^ 2) in
    bit_or (bit_or high ((if gpio4 then 1 else 0) * 2 ^ 1)) (1 * 2 ^ 0)

module _ (sdk : PicoSdk) (const : Constants) where
  unfoldable pub opcode_write : List ℕ → Io sdk (Unit {0})
  opcode_write buf = do
    when sdk (get_or buf 0 0 != 0x21)
        (rp2040_log_e sdk "ERROR: buffer should always start with the 0x21 register" [])
    i2c_write_error_handling sdk i2c0 const.slave_p1 buf false
    i2c_write_error_handling sdk i2c0 const.slave_p1 (0x41 ∷ 0x00 ∷ []) false

  -- `send_buf` cleared, with `OPCODE_WRITE` and `bytes` in front, goes to `opcode_write`.
  unfoldable pub command : List ℕ → Io sdk (Unit {0})
  command bytes = opcode_write (take 33 ((const.write_register ∷ bytes) ++ replicate 32 0))

  unfoldable pub opcode_read : Io sdk (Unit {0})
  opcode_read = do
    bytes ← read_register sdk i2c0 const.slave_p1 const.opcode_read_command 33
    set_state sdk (λ s. record s { op_code_return_buf = take 33 bytes })

  unfoldable pub bc_ctrl1_read : Io sdk (Unit {0})
  bc_ctrl1_read = command (0x01 ∷ [])

  unfoldable pub bc_ctrl2_read : Io sdk (Unit {0})
  bc_ctrl2_read = command (0x03 ∷ [])

  unfoldable pub control1_read : Io sdk (Unit {0})
  control1_read = command (0x05 ∷ [])

  unfoldable pub cc_ctrl1_read : Io sdk (Unit {0})
  cc_ctrl1_read = command (0x0b ∷ [])

  unfoldable pub cc_ctrl4_read : Io sdk (Unit {0})
  cc_ctrl4_read = command (0x11 ∷ [])

  unfoldable pub gpio_control_read : Io sdk (Unit {0})
  gpio_control_read = command (0x23 ∷ [])

  unfoldable pub gpio0_gpio1_adc_read : Io sdk (Unit {0})
  gpio0_gpio1_adc_read = command (0x27 ∷ [])

  unfoldable pub snk_pdo_request : Io sdk (Unit {0})
  snk_pdo_request = do
    use_mtp_access ← get sdk (λ d. d.type_c.use_mtp_access)
    command (0x3e ∷ (if use_mtp_access then 0x80 else 0x00) ∷ [])

  unfoldable pub customer_config_read : Io sdk (Unit {0})
  customer_config_read = command (0x55 ∷ [])

  unfoldable pub customer_config_write : Io sdk (Unit {0})
  customer_config_write = command (
      0x56
      ∷ build_customer_config_value customer_config
      ∷ 0x6a
      ∷ 0x0b
      ∷ 0x60
      ∷ 0x68
      ∷ 0x00
      ∷ 0x64
      ∷ 0x00
      ∷ 0x32
      ∷ 0x00
      ∷ [])

  -- `gpio_set`
  unfoldable pub set_gpio : ℕ → Io sdk (Unit {0})
  set_gpio gpio_val = command (const.opcode_set_gpio ∷ 0x00 ∷ gpio_val % 2 ^ 8 ∷ [])

  unfoldable pub power_swap_request : Io sdk (Unit {0})
  power_swap_request = command (0x37 ∷ 0x02 ∷ [])

  unfoldable pub set_src_pdos : Io sdk (Unit {0})
  set_src_pdos = command (const.opcode_set_source_cap ∷ 1 ∷ 0x2c ∷ 0x90 ∷ 0x01 ∷ 0x26 ∷ [])

  unfoldable pub set_snk_pdos : Io sdk (Unit {0})
  set_snk_pdos = command (const.opcode_snk_pdo_set ∷ 1 ∷ 0x2c ∷ 0x91 ∷ 0x81 ∷ 0x26 ∷ [])

  unfoldable pub opcode_queue_add : Entry → ℕ → Io sdk (Unit {0})
  opcode_queue_add opcode_func opcode_data = do
    set_state sdk (λ s. record s { opcodes_finished = false })
    room ← ask sdk (sdk.queue_try_add opcode_queue opcode_func opcode_data)
    if room then pure tt else (rp2040_log_e sdk "ERROR: opcode_queue is full" [] >> halt)

  -- What `opcode_queue_pop` does with what it has removed.
  unfoldable pub forward : Option (Entry × ℕ) → Io sdk Bool
  forward none = pure false
  forward (some (func, arg)) = do
    room ← ask sdk (sdk.queue_try_add call_queue func arg)
    if room
        then pure true
        else (rp2040_log_e sdk "ERROR: opcode_queue_pop: call_queue full\n" [] >> pure false)

  unfoldable pub opcode_queue_pop : Io sdk Bool
  opcode_queue_pop = ask sdk (sdk.queue_try_remove opcode_queue) >>= forward

  -- `opcode_queue_pop` where the result is not used.
  unfoldable pub opcode_queue_start : Io sdk (Unit {0})
  opcode_queue_start = opcode_queue_pop >>= λ _. pure tt

  unfoldable pub vbus_turn_off : Io sdk (Unit {0})
  vbus_turn_off = opcode_queue_add gpio_set (gpio_bool_to_int32 false true) >> opcode_queue_start

  unfoldable pub vbus_turn_on : Io sdk (Unit {0})
  vbus_turn_on = opcode_queue_add gpio_set (gpio_bool_to_int32 true true) >> opcode_queue_start
