-- ===== src/Charger.antt =====
-- src/max77976.c, the battery charger. A buffer of the source that only the next call reads is the
-- list of its bytes; the whole of `send_buf` is written out where all of it is sent.
pub mod Registers
pub mod Details
pub mod Holds
pub mod Settings
pub mod Device
mod Tests
use Prim.Native.String.{String}
use sr_firmware.Base.{
  ℕ, ◌/◌, ◌*◌, ◌^◌, ◌%◌, ◌==◌, ◌!=◌, bit_and, bit_or, get_or, if◌then◌else◌, true, false, List, [],
  ◌∷◌, ◌&&◌,
}
use sr_firmware.Charger.Registers.{
  addr, reg_chg_int, reg_chg_int_mask, cnfg_00_addr, mode_charge_buck, cnfg_02_addr, chg_cc_1250,
  cnfg_08_addr, cnfg_08_reset, fsw_lsb, fsw_2p6, cnfg_09_addr, cnfg_09_reset, chgin_ilim_lsb,
  chgin_ilim_msb, chgin_ilim_3000, int_buf_len,
}
use sr_firmware.BitOps.{bit_assign, bit_set_range}
use sr_firmware.Machine.{pure, ◌>>=◌, ◌>>◌, halt}
use sr_firmware.Hardware.{
  Io, act, ask, get, modify, when, flagged, rp2040_log_w, rp2040_log_e, read_register, wait,
  expect_level, i2c_write_error_handling, call_queue_try_add, gpio_irq_edge_fall,
}
use sr_firmware.Hardware.Sdk.{
  PicoSdk, gpio_init, gpio_put, gpio_pull_up, gpio_set_dir, gpio_acknowledge_irq,
  gpio_set_irq_enabled, max77976_parse_interrupt_vals, max77976_test_response,
}

abbrev i2c1 : ℕ
i2c1 = 1

-- `BATTERY_CHARGER_INTERRUPT_PIN`, which `max77976_init` is called with.
abbrev pub gpio_interrupt : ℕ
gpio_interrupt = 6

-- The byte that `max77976_set_interrupt_masks` sends: every mask but CHGIN_M.
unfoldable pub interrupt_masks : ℕ
interrupt_masks =
    let aicl_m = 1 * 2 ^ 7 in
    let chgin_m = 0 * 2 ^ 6 in
    let inlim_m = 1 * 2 ^ 5 in
    let chg_m = 1 * 2 ^ 4 in
    let bat_m = 1 * 2 ^ 3 in
    let spr2 = 1 * 2 ^ 2 in
    let disqbat_m = 1 * 2 ^ 1 in
    let byp_m = 1 * 2 ^ 0 in
    let high = bit_or (bit_or (bit_or aicl_m chgin_m) inlim_m) chg_m in
    bit_or (bit_or (bit_or (bit_or high bat_m) spr2) disqbat_m) byp_m

-- The bytes of CHG_CNFG_08 and CHG_CNFG_09 that `max77976_init` sends.
unfoldable pub cnfg_08 : ℕ
cnfg_08 = bit_assign cnfg_08_reset fsw_2p6 fsw_lsb

unfoldable pub cnfg_09 : ℕ
cnfg_09 = bit_set_range cnfg_09_reset chgin_ilim_lsb chgin_ilim_msb chgin_ilim_3000

module _ (sdk : PicoSdk) where
  unfoldable pub on_battery_charger_interrupt : ℕ → ℕ → Io sdk (Unit {0})
  on_battery_charger_interrupt gpio event_mask =
      when sdk (flagged event_mask gpio_irq_edge_fall) (do
        act sdk (sdk.gpio (gpio_acknowledge_irq gpio_interrupt gpio_irq_edge_fall))
        call_queue_try_add sdk max77976_parse_interrupt_vals 0
        testing ← get sdk (λ d. d.test_max77976_started)
        when sdk testing (call_queue_try_add sdk max77976_test_response 1))

  unfoldable pub get_interrupt_vals : Io sdk (List ℕ)
  get_interrupt_vals = read_register sdk i2c1 addr reg_chg_int int_buf_len

  -- The message of an interrupt whose status bit is set too.
  unfoldable pub report : List ℕ → ℕ → String → Io sdk (Unit {0})
  report buf mask message =
      when sdk (flagged (get_or buf 0 0) mask && flagged (get_or buf 2 0) mask)
        (rp2040_log_w sdk message [])

  unfoldable pub parse_interrupt_vals : Io sdk ℕ
  parse_interrupt_vals = do
    buf ← get_interrupt_vals
    report buf (2 ^ 5)
        "MAX77976: The CHGIN input current has been reaching the current limit for at least 30ms.\n"
    report buf (2 ^ 4) "MAX77976: The charger has suspended charging or TREG = 1.\n"
    report buf (2 ^ 3) "MAX77976: The battery has an issue or the charger has been suspended.\n"
    report buf (2 ^ 1) "MAX77976: DISQBAT is high and QBATT is disabled.\n"
    report buf (2 ^ 0) "MAX77976: Something powered by the bypass node has hit current limit.\n"
    when sdk (get_or buf 0 0 == 0)
        (modify sdk (λ d. record d { test_max77976_interrupt_bool = true }))
    pure (bit_or (get_or buf 1 0 * 2 ^ 8) (get_or buf 0 0))

  unfoldable pub write_register : ℕ → ℕ → Io sdk (Unit {0})
  write_register reg value = i2c_write_error_handling sdk i2c1 addr (reg ∷ value ∷ []) false

  -- All four bytes of `send_buf` are sent.
  unfoldable pub set_interrupt_masks : Io sdk (Unit {0})
  set_interrupt_masks =
      i2c_write_error_handling sdk i2c1 addr (reg_chg_int_mask ∷ interrupt_masks ∷ 0 ∷ 0 ∷ []) false

  unfoldable pub set_interrupt_masks_all_masked : Io sdk (Unit {0})
  set_interrupt_masks_all_masked =
      i2c_write_error_handling sdk i2c1 addr (reg_chg_int_mask ∷ 0xff ∷ 0 ∷ 0 ∷ []) false

  unfoldable pub max77976_init : Io sdk (Unit {0})
  max77976_init = do
    act sdk (sdk.gpio (gpio_init gpio_interrupt))
    act sdk (sdk.gpio (gpio_put gpio_interrupt false))
    act sdk (sdk.gpio (gpio_set_dir gpio_interrupt false))
    act sdk (sdk.gpio (gpio_pull_up gpio_interrupt))
    act sdk (sdk.gpio (gpio_set_irq_enabled gpio_interrupt gpio_irq_edge_fall true))
    set_interrupt_masks
    get_interrupt_vals >>= λ _. pure tt
    write_register 0x1c 0x0c
    write_register cnfg_00_addr mode_charge_buck
    write_register cnfg_02_addr chg_cc_1250
    write_register cnfg_08_addr cnfg_08
    write_register cnfg_09_addr cnfg_09
    write_register 0x1c 0x00

  -- The values read only go into messages below WARNING.
  unfoldable pub log_current_limit : Io sdk (Unit {0})
  log_current_limit = do
    read_register sdk i2c1 addr 0x1f 1 >>= λ _. pure tt
    read_register sdk i2c1 addr 0x18 1 >>= λ _. pure tt

  unfoldable pub toggle_led : Io sdk (Unit {0})
  toggle_led = do
    return_buf ← read_register sdk i2c1 addr 0x24 1
    let stat_en = bit_and (get_or return_buf 0 0) (2 ^ 7) / 2 ^ 7
    if stat_en != 0 then write_register 0x24 0x00 else write_register 0x24 0x80

  -- The byte written is the one at address 0.
  unfoldable pub test_get_id : Io sdk (Unit {0})
  test_get_id = do
    set_interrupt_masks_all_masked
    reg ← ask sdk (λ w. (sdk.at_null w, w))
    rxdata ← read_register sdk i2c1 addr reg 1
    when sdk (get_or rxdata 0 0 != 0x76)
        (rp2040_log_e sdk "MAX77976 not responding. Exiting.\n" [] >>= λ _. halt)
    set_interrupt_masks

  unfoldable pub test_get_fsw : Io sdk (Unit {0})
  test_get_fsw = do
    set_interrupt_masks_all_masked
    rxdata ← read_register sdk i2c1 addr cnfg_08_addr 1
    when sdk (get_or rxdata 0 0 != 0x0)
        (rp2040_log_e sdk "MAX77976 FSW Not 0x0. Exiting.\n" [] >>= λ _. halt)
    set_interrupt_masks

  unfoldable pub test_response : Io sdk (Unit {0})
  test_response = modify sdk (λ d. record d { test_max77976_completed = true })

  unfoldable pub test_interrupt : Io sdk (Unit {0}) → Io sdk (Unit {0})
  test_interrupt meanwhile = do
    set_interrupt_masks_all_masked
    modify sdk (λ d. record d { test_max77976_started = true })
    act sdk (sdk.gpio (gpio_set_dir gpio_interrupt true))
    expect_level sdk gpio_interrupt false
        "test_max77976_interrupt: GPIO%d was not driven low. Current Value:%d\n"
    wait sdk (λ d. d.test_max77976_completed) "test_max77976_interrupt timed out\n" meanwhile 0
        >>= λ _. pure tt
    act sdk (sdk.gpio (gpio_set_dir gpio_interrupt false))
    act sdk (sdk.gpio (gpio_pull_up gpio_interrupt))
    modify sdk (λ d. record d { test_max77976_started = false; test_max77976_completed = false })
    set_interrupt_masks
