-- ===== src/Battery.antt =====
-- src/bq27742_g1.c, the battery gauge. The buffers `send_buf` and `return_buf` are set by every
-- function before it reads them, and `control` returns what it leaves in `return_buf`.
pub mod Holds
pub mod Masks
pub mod Reports
pub mod Block
pub mod Flash
pub mod Config
pub mod Gauge
mod Accesses
pub mod Configured
pub mod Configure
pub mod Samples
mod Tests
use sr_firmware.Base.{
  ℕ, zero, suc, ◌+◌, ◌-◌, ◌*◌, ◌/◌, ◌%◌, ◌^◌, ◌==◌, ◌!=◌, bit_and, bit_or, get_or, if◌then◌else◌,
  Bool, true, false, not, ◌&&◌, ◌||◌, List, [], ◌∷◌, ◌++◌,
}
use sr_firmware.Battery.Masks.{
  addr, isd_mask, tdd_mask, otc_mask, otd_mask, ovp_mask, uvp_mask, bathi_mask, batlow_mask,
  chg_inh_mask, fc_mask, chg_sus_mask, imax_mask, chg_mask, soc1_mask, socf_mask, dsg_mask,
}
use sr_firmware.BitOps.{bit_not}
use sr_firmware.Machine.{pure, ◌>>=◌, ◌>>◌}
use sr_firmware.Hardware.{
  Io, act, ask, get, modify, when, flagged, word16, rp2040_log_w, rp2040_log_e, read_register,
  i2c_write_error_handling, i2c_read_error_handling, call_queue_try_add_nonblocking, Devices,
  gpio_irq_edge_fall, gpio_irq_edge_rise,
}
use Prim.Native.String.{String}
use sr_firmware.Hardware.Sdk.{
  PicoSdk, gpio_init, gpio_put, gpio_set_dir, gpio_disable_pulls, gpio_acknowledge_irq,
  gpio_set_irq_enabled, bq27742_g1_parse_interrupt_vals,
}
use sr_firmware.Battery.Block.{
  byte_sum, data_flash_checksum, ByteOrder, at, pack_config_at, byte_order, new_pack_config,
  new_pack_config_c, set_at, configured_block,
}

abbrev i2c0 : ℕ
i2c0 = 0

-- `BQ27742_G1_INTERRUPT_PIN`, which `bq27742_g1_init` is called with.
abbrev pub gpio_interrupt : ℕ
gpio_interrupt = 20

abbrev pub reg_flags : ℕ
reg_flags = 0x0a

abbrev pub reg_safety_status : ℕ
reg_safety_status = 0x1a

abbrev pub block_len : ℕ
block_len = 32

module _ (sdk : PicoSdk) where
  unfoldable pub write_byte : ℕ → ℕ → Io sdk (Unit {0})
  write_byte command value = i2c_write_error_handling sdk i2c0 addr (command ∷ value ∷ []) false

  unfoldable pub read_bytes : ℕ → ℕ → Io sdk (List ℕ)
  read_bytes command len = do
    i2c_write_error_handling sdk i2c0 addr (command ∷ []) true
    i2c_read_error_handling sdk i2c0 addr len false

  unfoldable pub control : ℕ → Io sdk (List ℕ)
  control subcommand_code = do
    let send_buf =
        0 ∷ bit_and subcommand_code 0xff ∷ bit_and subcommand_code 0xff00 / 2 ^ 8 ∷ 0 ∷ []
    i2c_write_error_handling sdk i2c0 addr send_buf true
    i2c_write_error_handling sdk i2c0 addr (0 ∷ []) true
    i2c_read_error_handling sdk i2c0 addr 2 false

  -- A message for a status bit.
  unfoldable pub warn : ℕ → ℕ → String → Io sdk (Unit {0})
  warn word mask format = when sdk (flagged word mask) (rp2040_log_w sdk format [])

  unfoldable pub rearm_assert_irq : Io sdk (Unit {0})
  rearm_assert_irq = do
    modify sdk (λ d. record d { bq27742_g1_interrupt_pending = false })
    act sdk (sdk.gpio (gpio_set_irq_enabled gpio_interrupt gpio_irq_edge_rise false))
    act sdk (sdk.gpio (gpio_set_irq_enabled gpio_interrupt gpio_irq_edge_fall true))

  -- `if (gpio_get(_gpio_interrupt)) bq27742_g1_rearm_assert_irq();`
  unfoldable pub rearm_if_released : Io sdk (Unit {0})
  rearm_if_released = do
    released ← ask sdk (sdk.gpio_get gpio_interrupt)
    when sdk released rearm_assert_irq

  unfoldable pub queue_parse_interrupt : Io sdk (Unit {0})
  queue_parse_interrupt = do
    pending ← get sdk (λ d. d.bq27742_g1_interrupt_pending)
    when sdk (not pending) (do
      modify sdk (λ d. record d { bq27742_g1_interrupt_pending = true })
      act sdk (sdk.gpio (gpio_set_irq_enabled gpio_interrupt gpio_irq_edge_fall false))
      act sdk (sdk.gpio (gpio_set_irq_enabled gpio_interrupt gpio_irq_edge_rise true))
      queued ← call_queue_try_add_nonblocking sdk bq27742_g1_parse_interrupt_vals 0
      when sdk (not queued) rearm_if_released)

  unfoldable pub on_interrupt : ℕ → ℕ → Io sdk (Unit {0})
  on_interrupt gpio event_mask = if gpio != gpio_interrupt then pure tt else do
    when sdk (flagged event_mask gpio_irq_edge_fall) (do
      act sdk (sdk.gpio (gpio_acknowledge_irq gpio_interrupt gpio_irq_edge_fall))
      queue_parse_interrupt)
    when sdk (flagged event_mask gpio_irq_edge_rise) (do
      act sdk (sdk.gpio (gpio_acknowledge_irq gpio_interrupt gpio_irq_edge_rise))
      rearm_if_released)

  unfoldable pub parse_interrupt_vals : Io sdk ℕ
  parse_interrupt_vals = do
    flags_buf ← read_bytes reg_flags 2
    safety_buf ← read_bytes reg_safety_status 2
    let flags = word16 flags_buf
    let safety = word16 safety_buf
    warn flags soc1_mask "BQ27742-G1 interrupt: SOC1 set\n"
    warn flags bathi_mask "BQ27742-G1 interrupt: BATHI set\n"
    warn flags batlow_mask "BQ27742-G1 interrupt: BATLOW set\n"
    when sdk (flagged flags imax_mask) (do
      rp2040_log_w sdk "BQ27742-G1 interrupt: IMAX set, clearing latched interrupt\n" []
      control 0x0023 >>= λ _. pure tt)
    warn safety isd_mask "BQ27742-G1 interrupt: ISD set\n"
    warn safety tdd_mask "BQ27742-G1 interrupt: TDD set\n"
    warn safety otc_mask "BQ27742-G1 interrupt: OTC set\n"
    warn safety otd_mask "BQ27742-G1 interrupt: OTD set\n"
    warn safety ovp_mask "BQ27742-G1 interrupt: OVP set\n"
    warn safety uvp_mask "BQ27742-G1 interrupt: UVP set\n"
    rearm_if_released
    pure flags

  unfoldable pub get_pack_configuration : Io sdk ℕ
  get_pack_configuration = do buf ← read_bytes 0x3a 2; pure (word16 buf)

  -- Selects a block of the data flash.
  unfoldable pub select_block : ℕ → ℕ → Io sdk (Unit {0})
  select_block subclass block = do
    write_byte 0x61 0x00
    write_byte 0x3e subclass
    write_byte 0x3f block
    act sdk (sdk.sleep_ms 1)

  -- The block, and whether its checksum is right.
  unfoldable pub read_data_flash_block : ℕ → ℕ → Io sdk (Bool × List ℕ)
  read_data_flash_block subclass block = do
    select_block subclass block
    block_data ← read_bytes 0x40 block_len
    checksum ← read_bytes 0x60 1
    let calculated = data_flash_checksum block_data
    if at checksum 0 == calculated then pure (true, block_data) else do
      rp2040_log_e sdk
          "ERROR: BQ27742-G1 data flash checksum mismatch read=0x%02x calculated=0x%02x\n"
          (at checksum 0 ∷ calculated ∷ [])
      pure (false, block_data)

  unfoldable pub write_data_flash_block : ℕ → ℕ → List ℕ → Io sdk (Unit {0})
  write_data_flash_block subclass block block_data = do
    select_block subclass block
    i2c_write_error_handling sdk i2c0 addr (0x40 ∷ block_data) false
    write_byte 0x60 (data_flash_checksum block_data)

  -- The check of the block read back.
  unfoldable pub verify : ℕ → ℕ → ByteOrder → Bool × List ℕ → Io sdk (Unit {0})
  verify new new_c order (ok, block) =
      let config = pack_config_at block order.high_index order.low_index in
      if not ok
      then rp2040_log_e sdk "ERROR: BQ27742-G1 could not verify RC2 data flash write\n" []
      else when sdk (config != new || at block 3 != new_c) (
          rp2040_log_e sdk
            "ERROR: BQ27742-G1 RC2 data flash write did not verify. PackConfig=0x%04x expected=0x%04x PackConfigC=0x%02x expected=0x%02x\n"
            (config ∷ new ∷ at block 3 ∷ new_c ∷ []))

  -- What follows the first read of the block.
  unfoldable pub configure_block : ℕ → List ℕ → Io sdk (Unit {0})
  configure_block pack_config block = do
    let order = byte_order pack_config block
    let le = pack_config_at block 1 0
    let be = pack_config_at block 0 1
    when sdk (not (le == pack_config && be != pack_config) && be != pack_config) (
        rp2040_log_w sdk
          "BQ27742-G1 PackConfiguration byte order not verified by command read; using TRM order\n"
          [])
    let old = pack_config_at block order.high_index order.low_index
    let new = new_pack_config old
    let new_c = new_pack_config_c (at block 3)
    when sdk (not (old == new && at block 3 == new_c)) (do
      write_data_flash_block 64 0 (configured_block order block)
      act sdk (sdk.sleep_ms 10)
      verified ← read_data_flash_block 64 0
      verify new new_c order verified)

  unfoldable pub configure_host_interrupts : Io sdk (Unit {0})
  configure_host_interrupts = do
    pack_config ← get_pack_configuration
    first ← read_data_flash_block 64 0
    if first.0
        then configure_block pack_config first.1
        else rp2040_log_e sdk "ERROR: BQ27742-G1 could not read data flash for RC2 init\n" []

  unfoldable pub init : Io sdk (Unit {0})
  init = do
    control 0x0014 >>= λ _. pure tt
    configure_host_interrupts
    act sdk (sdk.gpio (gpio_init gpio_interrupt))
    act sdk (sdk.gpio (gpio_put gpio_interrupt false))
    act sdk (sdk.gpio (gpio_set_dir gpio_interrupt false))
    act sdk (sdk.gpio (gpio_disable_pulls gpio_interrupt))
    act sdk (sdk.gpio (gpio_set_irq_enabled gpio_interrupt gpio_irq_edge_fall true))
    released ← ask sdk (sdk.gpio_get gpio_interrupt)
    when sdk (not released) (do
      rp2040_log_w sdk "BQ27742-G1 RC2_3V3 already asserted on GPIO%d\n" (gpio_interrupt ∷ [])
      queue_parse_interrupt)

  unfoldable pub shutdown : Io sdk (Unit {0})
  shutdown = control 0x0013 >>= λ _. pure tt

  -- The version read only goes into a message below WARNING.
  unfoldable pub fw_version_check : Io sdk (Unit {0})
  fw_version_check = control 0x0002 >>= λ _. pure tt
