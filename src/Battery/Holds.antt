-- ===== src/Battery/Holds.antt =====
-- The programs of src/bq27742_g1.c have the properties of programs of `Logic`.
use Prim.Native.String.{String}
use sr_firmware.Base.{ℕ, Bool, List}
use sr_firmware.Hardware.Logic.{Logic, holds}
use sr_firmware.Hardware.Sdk.{PicoSdk}
use sr_firmware.Hardware.{call_queue_try_add_nonblocking}
use sr_firmware.Battery
use sr_firmware.Battery.Reports
use sr_firmware.Battery.Block.{ByteOrder}

module _ {sdk : PicoSdk} (logic : Logic sdk) where
  pub write_byte-Holds : (command value : ℕ) → logic.Holds (Battery.write_byte sdk command value)
  unfolding Battery.write_byte
  write_byte-Holds command value = search (holds)

  pub read_bytes-Holds : (command len : ℕ) → logic.Holds (Battery.read_bytes sdk command len)
  unfolding Battery.read_bytes
  read_bytes-Holds command len = search (holds)

  pub control-Holds : (subcommand_code : ℕ) → logic.Holds (Battery.control sdk subcommand_code)
  unfolding Battery.control
  control-Holds subcommand_code = search (holds) depth 8

  pub get_voltage-Holds : logic.Holds (Reports.get_voltage sdk)
  unfolding Reports.get_voltage
  get_voltage-Holds = search (holds, read_bytes-Holds)

  pub get_temp-Holds : logic.Holds (Reports.get_temp sdk)
  unfolding Reports.get_temp
  get_temp-Holds = search (holds, read_bytes-Holds)

  pub get_soh-Holds : logic.Holds (Reports.get_soh sdk)
  unfolding Reports.get_soh
  get_soh-Holds = search (holds, read_bytes-Holds)

  pub warn-Holds :
      (word mask : ℕ) (format : String) → logic.Holds (Battery.warn sdk word mask format)
  unfolding Battery.warn
  warn-Holds word mask format = search (holds)

  pub get_safety_stats-Holds : logic.Holds (Reports.get_safety_stats sdk)
  unfolding Reports.get_safety_stats
  get_safety_stats-Holds = search (holds, read_bytes-Holds, warn-Holds) depth 20

  pub get_flags-Holds : logic.Holds (Reports.get_flags sdk)
  unfolding Reports.get_flags
  get_flags-Holds = search (holds, read_bytes-Holds, warn-Holds) depth 24

  pub rearm_assert_irq-Holds : logic.Holds (Battery.rearm_assert_irq sdk)
  unfolding Battery.rearm_assert_irq
  rearm_assert_irq-Holds = search (holds) depth 12

  pub rearm_if_released-Holds : logic.Holds (Battery.rearm_if_released sdk)
  unfolding Battery.rearm_if_released
  rearm_if_released-Holds = search (holds, rearm_assert_irq-Holds) depth 12

  pub queue_parse_interrupt-Holds : logic.Holds (Battery.queue_parse_interrupt sdk)
  unfolding Battery.queue_parse_interrupt call_queue_try_add_nonblocking
  queue_parse_interrupt-Holds = search (holds, rearm_if_released-Holds) depth 16

  pub on_interrupt-Holds :
      (gpio event_mask : ℕ) → logic.Holds (Battery.on_interrupt sdk gpio event_mask)
  unfolding Battery.on_interrupt
  on_interrupt-Holds gpio event_mask =
      search (holds, rearm_if_released-Holds, queue_parse_interrupt-Holds) depth 16

  pub parse_interrupt_vals-Holds : logic.Holds (Battery.parse_interrupt_vals sdk)
  unfolding Battery.parse_interrupt_vals
  parse_interrupt_vals-Holds =
      search (holds, read_bytes-Holds, warn-Holds, control-Holds, rearm_if_released-Holds) depth 28

  pub get_pack_configuration-Holds : logic.Holds (Battery.get_pack_configuration sdk)
  unfolding Battery.get_pack_configuration
  get_pack_configuration-Holds = search (holds, read_bytes-Holds)

  pub select_block-Holds :
      (subclass block : ℕ) → logic.Holds (Battery.select_block sdk subclass block)
  unfolding Battery.select_block
  select_block-Holds subclass block = search (holds, write_byte-Holds) depth 12

  pub read_data_flash_block-Holds :
      (subclass block : ℕ) → logic.Holds (Battery.read_data_flash_block sdk subclass block)
  unfolding Battery.read_data_flash_block
  read_data_flash_block-Holds subclass block =
      search (holds, read_bytes-Holds, select_block-Holds) depth 16

  pub write_data_flash_block-Holds :
      (subclass block : ℕ) (block_data : List ℕ)
      → logic.Holds (Battery.write_data_flash_block sdk subclass block block_data)
  unfolding Battery.write_data_flash_block
  write_data_flash_block-Holds subclass block block_data =
      search (holds, write_byte-Holds, select_block-Holds) depth 16

  pub verify-Holds :
      (new new_c : ℕ) (order : ByteOrder) (got : Bool × List ℕ)
      → logic.Holds (Battery.verify sdk new new_c order got)
  unfolding Battery.verify
  verify-Holds new new_c order got = search (holds) depth 12

  pub configure_block-Holds :
      (pack_config : ℕ) (block : List ℕ)
      → logic.Holds (Battery.configure_block sdk pack_config block)
  unfolding Battery.configure_block
  configure_block-Holds pack_config block =
      search (holds, write_data_flash_block-Holds, read_data_flash_block-Holds, verify-Holds) depth
        20

  pub configure_host_interrupts-Holds : logic.Holds (Battery.configure_host_interrupts sdk)
  unfolding Battery.configure_host_interrupts
  configure_host_interrupts-Holds =
      search
        (holds, get_pack_configuration-Holds, read_data_flash_block-Holds, configure_block-Holds)
        depth 16

  pub init-Holds : logic.Holds (Battery.init sdk)
  unfolding Battery.init
  init-Holds =
      search (holds, control-Holds, configure_host_interrupts-Holds, queue_parse_interrupt-Holds)
        depth 24

  pub shutdown-Holds : logic.Holds (Battery.shutdown sdk)
  unfolding Battery.shutdown
  shutdown-Holds = search (holds, control-Holds) depth 8

  pub fw_version_check-Holds : logic.Holds (Battery.fw_version_check sdk)
  unfolding Battery.fw_version_check
  fw_version_check-Holds = search (holds, control-Holds) depth 8
