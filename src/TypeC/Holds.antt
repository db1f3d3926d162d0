-- ===== src/TypeC/Holds.antt =====
-- The programs of src/max77958.c have the properties of programs of `Logic`; those that put opcodes
-- into their queue, when that has the property.
use Prim.Native.String.{String}
use sr_firmware.Base.{ℕ, List, Option, none, some}
use sr_firmware.Hardware.{Io, call_queue_try_add}
use sr_firmware.Hardware.Logic.{Logic, holds, read_register-Holds}
use sr_firmware.Hardware.Sdk.{PicoSdk, Entry}
use sr_firmware.TypeC.Registers
use sr_firmware.TypeC.Registers.{Constants}
use sr_firmware.TypeC.Opcodes
use sr_firmware.TypeC.Interrupts

module _ {sdk : PicoSdk} (logic : Logic sdk) (const : Constants) where
  pub fetch-Holds : (reg len : ℕ) → logic.Holds (Registers.fetch sdk const reg len)
  unfolding Registers.fetch Registers.set_state
  fetch-Holds reg len = search (holds, read_register-Holds) depth 8

  pub get_interrupt_vals-Holds : logic.Holds (Registers.get_interrupt_vals sdk const)
  unfolding Registers.get_interrupt_vals
  get_interrupt_vals-Holds = search (holds, fetch-Holds)

  pub get_interrupt_masks-Holds : logic.Holds (Registers.get_interrupt_masks sdk const)
  unfolding Registers.get_interrupt_masks
  get_interrupt_masks-Holds = search (holds, fetch-Holds)

  pub set_interrupt_masks_all_masked-Holds :
      logic.Holds (Registers.set_interrupt_masks_all_masked sdk const)
  unfolding Registers.set_interrupt_masks_all_masked
  set_interrupt_masks_all_masked-Holds = search (holds)

  pub set_interrupt_masks-Holds : logic.Holds (Registers.set_interrupt_masks sdk const)
  unfolding Registers.set_interrupt_masks
  set_interrupt_masks-Holds = search (holds)

  pub read_reg-Holds : (reg : ℕ) → logic.Holds (Registers.read_reg sdk const reg)
  unfolding Registers.read_reg
  read_reg-Holds reg = search (holds, fetch-Holds)

  pub read_value-Holds : (reg : ℕ) → logic.Holds (Registers.read_value sdk const reg)
  unfolding Registers.read_value
  read_value-Holds reg = search (holds, fetch-Holds)

  pub opcode_write-Holds : (buf : List ℕ) → logic.Holds (Opcodes.opcode_write sdk const buf)
  unfolding Opcodes.opcode_write
  opcode_write-Holds buf = search (holds) depth 8

  pub command-Holds : (bytes : List ℕ) → logic.Holds (Opcodes.command sdk const bytes)
  unfolding Opcodes.command
  command-Holds bytes = search (holds, opcode_write-Holds)

  pub opcode_read-Holds : logic.Holds (Opcodes.opcode_read sdk const)
  unfolding Opcodes.opcode_read Registers.set_state
  opcode_read-Holds = search (holds, read_register-Holds) depth 8

  pub bc_ctrl1_read-Holds : logic.Holds (Opcodes.bc_ctrl1_read sdk const)
  unfolding Opcodes.bc_ctrl1_read
  bc_ctrl1_read-Holds = search (holds, command-Holds)

  pub bc_ctrl2_read-Holds : logic.Holds (Opcodes.bc_ctrl2_read sdk const)
  unfolding Opcodes.bc_ctrl2_read
  bc_ctrl2_read-Holds = search (holds, command-Holds)

  pub control1_read-Holds : logic.Holds (Opcodes.control1_read sdk const)
  unfolding Opcodes.control1_read
  control1_read-Holds = search (holds, command-Holds)

  pub cc_ctrl1_read-Holds : logic.Holds (Opcodes.cc_ctrl1_read sdk const)
  unfolding Opcodes.cc_ctrl1_read
  cc_ctrl1_read-Holds = search (holds, command-Holds)

  pub cc_ctrl4_read-Holds : logic.Holds (Opcodes.cc_ctrl4_read sdk const)
  unfolding Opcodes.cc_ctrl4_read
  cc_ctrl4_read-Holds = search (holds, command-Holds)

  pub gpio_control_read-Holds : logic.Holds (Opcodes.gpio_control_read sdk const)
  unfolding Opcodes.gpio_control_read
  gpio_control_read-Holds = search (holds, command-Holds)

  pub gpio0_gpio1_adc_read-Holds : logic.Holds (Opcodes.gpio0_gpio1_adc_read sdk const)
  unfolding Opcodes.gpio0_gpio1_adc_read
  gpio0_gpio1_adc_read-Holds = search (holds, command-Holds)

  pub snk_pdo_request-Holds : logic.Holds (Opcodes.snk_pdo_request sdk const)
  unfolding Opcodes.snk_pdo_request
  snk_pdo_request-Holds = search (holds, command-Holds)

  pub customer_config_read-Holds : logic.Holds (Opcodes.customer_config_read sdk const)
  unfolding Opcodes.customer_config_read
  customer_config_read-Holds = search (holds, command-Holds)

  pub customer_config_write-Holds : logic.Holds (Opcodes.customer_config_write sdk const)
  unfolding Opcodes.customer_config_write
  customer_config_write-Holds = search (holds, command-Holds)

  pub set_gpio-Holds : (gpio_val : ℕ) → logic.Holds (Opcodes.set_gpio sdk const gpio_val)
  unfolding Opcodes.set_gpio
  set_gpio-Holds gpio_val = search (holds, command-Holds)

  pub forward-Holds : (entry : Option (Entry × ℕ)) → logic.Holds (Opcodes.forward sdk const entry)
  unfolding Opcodes.forward
  forward-Holds none = search (holds)
  forward-Holds (some (func, arg)) = search (holds)

  pub opcode_queue_pop-Holds : logic.Holds (Opcodes.opcode_queue_pop sdk const)
  unfolding Opcodes.opcode_queue_pop
  opcode_queue_pop-Holds = search (holds, forward-Holds)

  pub opcode_queue_start-Holds : logic.Holds (Opcodes.opcode_queue_start sdk const)
  unfolding Opcodes.opcode_queue_start
  opcode_queue_start-Holds = search (holds, opcode_queue_pop-Holds)

  pub on_opcode_cmd_response-Holds : logic.Holds (Interrupts.on_opcode_cmd_response sdk const)
  unfolding Interrupts.on_opcode_cmd_response Registers.set_state
  on_opcode_cmd_response-Holds = search (holds, opcode_read-Holds, opcode_queue_pop-Holds) depth 12

  pub report_cc_status1-Holds :
      (cc_status1 mask : ℕ) (message : String)
      → logic.Holds (Interrupts.report_cc_status1 sdk const cc_status1 mask message)
  unfolding Interrupts.report_cc_status1
  report_cc_status1-Holds cc_status1 mask message = search (holds)

  pub on_chgtype_change-Holds : logic.Holds (Interrupts.on_chgtype_change sdk const)
  unfolding Interrupts.on_chgtype_change
  on_chgtype_change-Holds = search (holds, fetch-Holds)

  pub pending-Holds : (i mask : ℕ) → logic.Holds (Interrupts.pending sdk const i mask)
  unfolding Interrupts.pending
  pending-Holds i mask = search (holds)

  pub test_response-Holds : logic.Holds (Interrupts.test_response sdk const)
  unfolding Interrupts.test_response Registers.set_state
  test_response-Holds = search (holds)

  pub serve-Holds :
      (i mask : ℕ) (handler : Io sdk (Unit {0}))
      → logic.Holds handler
      → logic.Holds (Interrupts.serve sdk const i mask handler)
  unfolding Interrupts.serve
  serve-Holds i mask handler h = search (holds, pending-Holds, h) depth 8

  module _
      (add_call : (func : Entry) (arg : ℕ) → logic.Holds (call_queue_try_add sdk func arg)) where
    pub on_interrupt-Holds :
        (gpio event_mask : ℕ) → logic.Holds (Interrupts.on_interrupt sdk const gpio event_mask)
    unfolding Interrupts.on_interrupt
    on_interrupt-Holds gpio event_mask = search (holds, add_call) depth 16

    pub on_pd_msg_received-Holds : logic.Holds (Interrupts.on_pd_msg_received sdk const)
    unfolding Interrupts.on_pd_msg_received
    on_pd_msg_received-Holds = search (holds, add_call)

  module _ (add_call : (func : Entry) (arg : ℕ) → logic.Holds (call_queue_try_add sdk func arg))
      (add_opcode : (func : Entry) (arg : ℕ)
        → logic.Holds (Opcodes.opcode_queue_add sdk const func arg)) where
    pub vbus_turn_off-Holds : logic.Holds (Opcodes.vbus_turn_off sdk const)
    unfolding Opcodes.vbus_turn_off
    vbus_turn_off-Holds = search (holds, opcode_queue_start-Holds, add_opcode) depth 8

    pub vbus_turn_on-Holds : logic.Holds (Opcodes.vbus_turn_on sdk const)
    unfolding Opcodes.vbus_turn_on
    vbus_turn_on-Holds = search (holds, opcode_queue_start-Holds, add_opcode) depth 8

    pub on_ccstat_change-Holds : logic.Holds (Interrupts.on_ccstat_change sdk const)
    unfolding Interrupts.on_ccstat_change
    on_ccstat_change-Holds =
        search (holds, fetch-Holds, vbus_turn_off-Holds, report_cc_status1-Holds) depth 20

    pub pd_message-Holds : logic.Holds (Interrupts.pd_message sdk const)
    unfolding Interrupts.pd_message
    pd_message-Holds = search (holds, fetch-Holds, vbus_turn_off-Holds, vbus_turn_on-Holds) depth 12

    pub parse_interrupt_vals-Holds : logic.Holds (Interrupts.parse_interrupt_vals sdk const)
    unfolding Interrupts.parse_interrupt_vals Registers.set_state
    parse_interrupt_vals-Holds =
        search
          (
            holds, get_interrupt_vals-Holds, serve-Holds, on_opcode_cmd_response-Holds,
            on_pd_msg_received-Holds, add_call, on_chgtype_change-Holds, on_ccstat_change-Holds,
          )
          depth 24
