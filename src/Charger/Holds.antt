-- ===== src/Charger/Holds.antt =====
-- The programs of src/max77976.c have the properties of programs of `Logic`.
use Prim.Native.String.{String}
use sr_firmware.Base.{ℕ, List}
use sr_firmware.Hardware.Logic.{Logic, holds, read_register-Holds}
use sr_firmware.Hardware.Sdk.{PicoSdk}
use sr_firmware.Hardware.{call_queue_try_add}
use sr_firmware.Hardware.Sdk.{Entry}
use sr_firmware.Charger
use sr_firmware.Charger.Details

module _ {sdk : PicoSdk} (logic : Logic sdk) where
  pub get_interrupt_vals-Holds : logic.Holds (Charger.get_interrupt_vals sdk)
  unfolding Charger.get_interrupt_vals
  get_interrupt_vals-Holds = search (holds, read_register-Holds)

  pub report-Holds :
      (buf : List ℕ) (mask : ℕ) (message : String)
      → logic.Holds (Charger.report sdk buf mask message)
  unfolding Charger.report
  report-Holds buf mask message = search (holds) depth 8

  pub parse_interrupt_vals-Holds : logic.Holds (Charger.parse_interrupt_vals sdk)
  unfolding Charger.parse_interrupt_vals
  parse_interrupt_vals-Holds = search (holds, get_interrupt_vals-Holds, report-Holds) depth 20

  pub write_register-Holds : (reg value : ℕ) → logic.Holds (Charger.write_register sdk reg value)
  unfolding Charger.write_register
  write_register-Holds reg value = search (holds)

  pub set_interrupt_masks-Holds : logic.Holds (Charger.set_interrupt_masks sdk)
  unfolding Charger.set_interrupt_masks
  set_interrupt_masks-Holds = search (holds)

  pub set_interrupt_masks_all_masked-Holds :
      logic.Holds (Charger.set_interrupt_masks_all_masked sdk)
  unfolding Charger.set_interrupt_masks_all_masked
  set_interrupt_masks_all_masked-Holds = search (holds)

  pub max77976_init-Holds : logic.Holds (Charger.max77976_init sdk)
  unfolding Charger.max77976_init
  max77976_init-Holds =
      search (holds, set_interrupt_masks-Holds, get_interrupt_vals-Holds, write_register-Holds)
        depth 24

  pub report_chgin-Holds : (dtls : ℕ) → logic.Holds (Details.report_chgin sdk dtls)
  unfolding Details.report_chgin
  report_chgin-Holds dtls = search (holds) depth 12

  pub report_treg-Holds : (treg : ℕ) → logic.Holds (Details.report_treg sdk treg)
  unfolding Details.report_treg
  report_treg-Holds treg = search (holds) depth 12

  pub report_bat-Holds : (dtls : ℕ) → logic.Holds (Details.report_bat sdk dtls)
  unfolding Details.report_bat
  report_bat-Holds dtls = search (holds) depth 12

  pub report_chg-Holds : (dtls : ℕ) → logic.Holds (Details.report_chg sdk dtls)
  unfolding Details.report_chg
  report_chg-Holds dtls = search (holds) depth 12

  pub get_chg_details-Holds : logic.Holds (Details.get_chg_details sdk)
  unfolding Details.get_chg_details
  get_chg_details-Holds =
      search
        (
          holds, read_register-Holds, report_chgin-Holds, report_treg-Holds, report_bat-Holds,
          report_chg-Holds,
        )
        depth 20

  pub test_response-Holds : logic.Holds (Charger.test_response sdk)
  unfolding Charger.test_response
  test_response-Holds = search (holds)

  module _
      (add_call : (func : Entry) (arg : ℕ) → logic.Holds (call_queue_try_add sdk func arg)) where
    pub on_battery_charger_interrupt-Holds :
        (gpio event_mask : ℕ)
        → logic.Holds (Charger.on_battery_charger_interrupt sdk gpio event_mask)
    unfolding Charger.on_battery_charger_interrupt
    on_battery_charger_interrupt-Holds gpio event_mask = search (holds, add_call) depth 16
