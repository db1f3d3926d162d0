-- ===== src/Robot/Configuring.antt =====
-- The parts of src/bq27742_g1.c that leave the interrupt enables of the gauge's pin alone: the accesses
-- to the gauge, and the configuration of its data flash.
use Prim.Native.String.{String}
use sr_firmware.Base.{ℕ, Bool, List}
use sr_firmware.Hardware.Sdk.{PicoSdk}
use sr_firmware.Battery
use sr_firmware.Battery.Block.{ByteOrder}
use sr_firmware.Robot.Edges.{IrqPin, Condition, Keeps, keeps}
use sr_firmware.Robot.Returns.{Answers}

module _ (sdk : PicoSdk) (pin : IrqPin sdk) (P : Condition) (bus : Answers sdk) where
  pub read_bytes-Keeps : (command len : ℕ) → Keeps sdk pin P (Battery.read_bytes sdk command len)
  unfolding Battery.read_bytes
  read_bytes-Keeps command len = search (keeps)

  pub control-Keeps : (subcommand_code : ℕ) → Keeps sdk pin P (Battery.control sdk subcommand_code)
  unfolding Battery.control
  control-Keeps subcommand_code = search (keeps) depth 8

  pub warn-Keeps :
      (word mask : ℕ) (format : String) → Keeps sdk pin P (Battery.warn sdk word mask format)
  unfolding Battery.warn
  warn-Keeps word mask format = search (keeps)

  write_byte-Keeps : (command value : ℕ) → Keeps sdk pin P (Battery.write_byte sdk command value)
  unfolding Battery.write_byte
  write_byte-Keeps command value = search (keeps)

  select_block-Keeps :
      (subclass block : ℕ) → Keeps sdk pin P (Battery.select_block sdk subclass block)
  unfolding Battery.select_block
  select_block-Keeps subclass block = search (keeps, write_byte-Keeps) depth 8

  read_data_flash_block-Keeps :
      (subclass block : ℕ) → Keeps sdk pin P (Battery.read_data_flash_block sdk subclass block)
  unfolding Battery.read_data_flash_block
  read_data_flash_block-Keeps subclass block =
      search (keeps, select_block-Keeps, read_bytes-Keeps) depth 8

  write_data_flash_block-Keeps :
      (subclass block : ℕ) (block_data : List ℕ)
      → Keeps sdk pin P (Battery.write_data_flash_block sdk subclass block block_data)
  unfolding Battery.write_data_flash_block
  write_data_flash_block-Keeps subclass block block_data =
      search (keeps, select_block-Keeps, write_byte-Keeps) depth 8

  get_pack_configuration-Keeps : Keeps sdk pin P (Battery.get_pack_configuration sdk)
  unfolding Battery.get_pack_configuration
  get_pack_configuration-Keeps = search (keeps, read_bytes-Keeps)

  verify-Keeps :
      (new new_c : ℕ) (order : ByteOrder) (got : Bool × List ℕ)
      → Keeps sdk pin P (Battery.verify sdk new new_c order got)
  unfolding Battery.verify
  verify-Keeps new new_c order (ok, block) = search (keeps) depth 8

  configure_block-Keeps :
      (pack_config : ℕ) (block : List ℕ)
      → Keeps sdk pin P (Battery.configure_block sdk pack_config block)
  unfolding Battery.configure_block
  configure_block-Keeps pack_config block =
      search (keeps, read_data_flash_block-Keeps, write_data_flash_block-Keeps, verify-Keeps) depth
        12

  pub configure_host_interrupts-Keeps : Keeps sdk pin P (Battery.configure_host_interrupts sdk)
  unfolding Battery.configure_host_interrupts
  configure_host_interrupts-Keeps =
      search
        (keeps, get_pack_configuration-Keeps, read_data_flash_block-Keeps, configure_block-Keeps)
        depth 8
