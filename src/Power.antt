-- ===== src/Power.antt =====
-- src/ncp3901.c and src/STWLC38JRM.c, the wireless charger and its converters' inputs, and
-- src/max77857.c, src/sn74ahc125rgyr.c, the buck-boost converter and the buffers.
pub mod Holds
pub mod Millivolts
mod Tests
use sr_firmware.Base.{ℕ, ◌+◌, ◌*◌, ◌/◌, ◌%◌, ◌^◌, if◌then◌else◌, Bool, true, false, [], ◌∷◌}
use sr_firmware.BitOps.{bit_set_range}
use sr_firmware.Machine.{pure, ◌>>=◌, ◌>>◌}
use sr_firmware.Hardware.{
  Io, act, ask, get, modify, when, flagged, i2c_write_error_handling, call_queue_try_add,
  i2c_read_error_handling, wait, expect_level, gpio_irq_edge_fall, gpio_irq_edge_rise,
}
use sr_firmware.Hardware.Sdk.{
  PicoSdk, gpio_init, gpio_put, gpio_set_dir, gpio_pull_up, gpio_set_irq_enabled, gpio_deinit,
  adc_gpio_init, gpio_acknowledge_irq, ncp3901_attached, ncp3901_detached, ncp3901_test_response,
}

-- The numerator is a `uint64_t`, the rest a `uint32_t`, the result a `uint16_t`.
unfoldable pub adc0_counts_to_vina_mv : ℕ → ℕ
adc0_counts_to_vina_mv adc_counts =
    let numerator = adc_counts * 3300 % 2 ^ 64 * (510 + 100) % 2 ^ 64 in
    let denominator = 4096 * 100 in ((numerator + denominator / 2) / denominator) % 2 ^ 16

unfoldable pub adc_counts_to_pin_mv : ℕ → ℕ
adc_counts_to_pin_mv adc_counts =
    let numerator = adc_counts * 3300 % 2 ^ 32 in ((numerator + 4096 / 2) % 2 ^ 32 / 4096) % 2 ^ 16

-- `buf[1]` of `max77857_init`: the fields ILIM, COMP and FREQ over the reset value.
unfoldable pub cont1 : ℕ
cont1 =
    let with_ilm = bit_set_range 0x50 0 2 0x5 in
    let with_comp = bit_set_range with_ilm 5 7 0x2 in bit_set_range with_comp 3 3 0x2

module _ (sdk : PicoSdk) where
  unfoldable pub on_wireless_charger_interrupt : ℕ → ℕ → Io sdk (Unit {0})
  on_wireless_charger_interrupt gpio event_mask = do
    let respond = do
      testing ← get sdk (λ d. d.test_ncp3901_started)
      when sdk testing (call_queue_try_add sdk ncp3901_test_response 1)
    if flagged event_mask gpio_irq_edge_rise
        then (do
          act sdk (sdk.gpio (gpio_acknowledge_irq gpio gpio_irq_edge_rise))
          call_queue_try_add sdk ncp3901_detached 0
          respond)
        else when sdk (flagged event_mask gpio_irq_edge_fall) (do
          act sdk (sdk.gpio (gpio_acknowledge_irq gpio gpio_irq_edge_fall))
          call_queue_try_add sdk ncp3901_attached 0
          respond)

  unfoldable pub on_wireless_charger_attached : Io sdk (Unit {0})
  on_wireless_charger_attached = modify sdk (λ d. record d { wireless_charger_attached = true })

  unfoldable pub on_wireless_charger_detached : Io sdk (Unit {0})
  on_wireless_charger_detached = modify sdk (λ d. record d { wireless_charger_attached = false })

  unfoldable pub wireless_charger_attached : Io sdk Bool
  wireless_charger_attached = get sdk (λ d. d.wireless_charger_attached)

  unfoldable pub ncp3901_adc0 : Io sdk ℕ
  ncp3901_adc0 = do adc_counts ← ask sdk (sdk.adc_read 0); pure (adc0_counts_to_vina_mv adc_counts)

  unfoldable pub stwlc38jrm_adc1 : Io sdk ℕ
  stwlc38jrm_adc1 = do result ← ask sdk (sdk.adc_read 1); pure (adc_counts_to_pin_mv result)

  unfoldable pub ncp3901_init : ℕ → ℕ → Io sdk (Unit {0})
  ncp3901_init gpio_wireless_charger gpio_otg = do
    act sdk (sdk.gpio (gpio_init gpio_wireless_charger))
    act sdk (sdk.gpio (gpio_put gpio_wireless_charger false))
    act sdk (sdk.gpio (gpio_set_dir gpio_wireless_charger false))
    act sdk (sdk.gpio (gpio_pull_up gpio_wireless_charger))
    act sdk (sdk.gpio (gpio_set_irq_enabled gpio_wireless_charger (8 + 4) true))
    act sdk (sdk.gpio (gpio_init gpio_otg))
    act sdk (sdk.gpio (gpio_put gpio_otg false))
    act sdk (sdk.gpio (gpio_set_dir gpio_otg true))
    act sdk (sdk.gpio (adc_gpio_init 26))

  unfoldable pub ncp3901_test_response_handler : Io sdk (Unit {0})
  ncp3901_test_response_handler = modify sdk (λ d. record d { test_ncp3901_completed = true })

  -- `test_ncp3901_interrupt`, on the pin GPIO_WIRELESS_AVAILABLE.
  unfoldable pub test_ncp3901_interrupt : Io sdk (Unit {0}) → Io sdk (Unit {0})
  test_ncp3901_interrupt meanwhile = do
    modify sdk (λ d. record d { test_ncp3901_started = true })
    act sdk (sdk.gpio (gpio_set_dir 4 true))
    expect_level sdk 4 false
        "ERROR: test_ncp3901_interrupt: GPIO%d was not driven low. Current Value:%d\n"
    wait sdk (λ d. d.test_ncp3901_completed)
          "ERROR: test_ncp3901_interrupt wireless connect timed out\n" meanwhile 0
        >>= λ _. pure tt
    modify sdk (λ d. record d { test_ncp3901_started = false; test_ncp3901_completed = false })
    modify sdk (λ d. record d { test_ncp3901_started = true })
    act sdk (sdk.gpio (gpio_set_dir 4 false))
    act sdk (sdk.gpio (gpio_pull_up 4))
    expect_level sdk 4 true
        "ERROR: test_ncp3901_interrupt: GPIO%d was pulled up. Current Value:%d\n"
    wait sdk (λ d. d.test_ncp3901_completed)
          "ERROR: test_ncp3901_interrupt wireless disconnect timed out\n" meanwhile 0
        >>= λ _. pure tt

  unfoldable pub stwlc38jrm_init : ℕ → ℕ → Io sdk (Unit {0})
  stwlc38jrm_init enable_pin vrect_pin = do
    act sdk (sdk.gpio (gpio_init enable_pin))
    act sdk (sdk.gpio (gpio_set_dir enable_pin true))
    act sdk (sdk.gpio (gpio_put enable_pin true))
    act sdk (sdk.sleep_ms 100)
    act sdk (sdk.gpio (gpio_put enable_pin false))
    act sdk (sdk.gpio (adc_gpio_init vrect_pin))

  unfoldable pub stwlc38jrm_shutdown : ℕ → Io sdk (Unit {0})
  stwlc38jrm_shutdown enable_pin = act sdk (sdk.gpio (gpio_put enable_pin false))

  -- The bytes read only go into a message below WARNING.
  unfoldable pub stwlc38_get_ept_reasons : Io sdk (Unit {0})
  stwlc38_get_ept_reasons = do
    i2c_write_error_handling sdk 0 0x61 (0x01 ∷ 0x27 ∷ []) true
    i2c_read_error_handling sdk 0 0x61 3 false >>= λ _. pure tt

  unfoldable pub max77857_init : Io sdk (Unit {0})
  max77857_init = i2c_write_error_handling sdk 1 0x66 (0x12 ∷ cont1 ∷ []) false

  unfoldable pub sn74ahc125rgyr_init : ℕ → Io sdk (Unit {0})
  sn74ahc125rgyr_init gpio = do
    act sdk (sdk.gpio (gpio_init gpio))
    act sdk (sdk.gpio (gpio_set_dir gpio true))
    act sdk (sdk.gpio (gpio_put gpio true))

  unfoldable pub sn74ahc125rgyr_on_end_of_start : ℕ → Io sdk (Unit {0})
  sn74ahc125rgyr_on_end_of_start gpio = act sdk (sdk.gpio (gpio_put gpio false))

  unfoldable pub sn74ahc125rgyr_shutdown : ℕ → Io sdk (Unit {0})
  sn74ahc125rgyr_shutdown gpio = act sdk (sdk.gpio (gpio_deinit gpio))
