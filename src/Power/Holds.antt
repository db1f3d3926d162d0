-- ===== src/Power/Holds.antt =====
-- The programs of the wireless charging and power parts have the properties of programs of `Logic`.
use sr_firmware.Base.{ℕ}
use sr_firmware.Hardware.Logic.{Logic, holds}
use sr_firmware.Hardware.Sdk.{PicoSdk}
use sr_firmware.Hardware.{call_queue_try_add}
use sr_firmware.Hardware.Sdk.{Entry}
use sr_firmware.Power

module _ {sdk : PicoSdk} (logic : Logic sdk) where
  pub on_wireless_charger_attached-Holds : logic.Holds (Power.on_wireless_charger_attached sdk)
  unfolding Power.on_wireless_charger_attached
  on_wireless_charger_attached-Holds = search (holds)

  pub on_wireless_charger_detached-Holds : logic.Holds (Power.on_wireless_charger_detached sdk)
  unfolding Power.on_wireless_charger_detached
  on_wireless_charger_detached-Holds = search (holds)

  pub wireless_charger_attached-Holds : logic.Holds (Power.wireless_charger_attached sdk)
  unfolding Power.wireless_charger_attached
  wireless_charger_attached-Holds = search (holds)

  pub ncp3901_adc0-Holds : logic.Holds (Power.ncp3901_adc0 sdk)
  unfolding Power.ncp3901_adc0
  ncp3901_adc0-Holds = search (holds)

  pub stwlc38jrm_adc1-Holds : logic.Holds (Power.stwlc38jrm_adc1 sdk)
  unfolding Power.stwlc38jrm_adc1
  stwlc38jrm_adc1-Holds = search (holds)

  pub ncp3901_init-Holds :
      (gpio_wireless_charger gpio_otg : ℕ)
      → logic.Holds (Power.ncp3901_init sdk gpio_wireless_charger gpio_otg)
  unfolding Power.ncp3901_init
  ncp3901_init-Holds gpio_wireless_charger gpio_otg = search (holds) depth 20

  pub ncp3901_test_response_handler-Holds : logic.Holds (Power.ncp3901_test_response_handler sdk)
  unfolding Power.ncp3901_test_response_handler
  ncp3901_test_response_handler-Holds = search (holds)

  pub stwlc38jrm_init-Holds :
      (enable_pin vrect_pin : ℕ) → logic.Holds (Power.stwlc38jrm_init sdk enable_pin vrect_pin)
  unfolding Power.stwlc38jrm_init
  stwlc38jrm_init-Holds enable_pin vrect_pin = search (holds) depth 16

  pub sn74ahc125rgyr_init-Holds : (gpio : ℕ) → logic.Holds (Power.sn74ahc125rgyr_init sdk gpio)
  unfolding Power.sn74ahc125rgyr_init
  sn74ahc125rgyr_init-Holds gpio = search (holds) depth 8

  pub sn74ahc125rgyr_on_end_of_start-Holds :
      (gpio : ℕ) → logic.Holds (Power.sn74ahc125rgyr_on_end_of_start sdk gpio)
  unfolding Power.sn74ahc125rgyr_on_end_of_start
  sn74ahc125rgyr_on_end_of_start-Holds gpio = search (holds)

  module _
      (add_call : (func : Entry) (arg : ℕ) → logic.Holds (call_queue_try_add sdk func arg)) where
    pub on_wireless_charger_interrupt-Holds :
        (gpio event_mask : ℕ)
        → logic.Holds (Power.on_wireless_charger_interrupt sdk gpio event_mask)
    unfolding Power.on_wireless_charger_interrupt
    on_wireless_charger_interrupt-Holds gpio event_mask = search (holds, add_call) depth 16
