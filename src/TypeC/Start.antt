-- ===== src/TypeC/Start.antt =====
-- `max77958_init` and `max77958_shutdown` of src/max77958.c.
use sr_firmware.Base.{ℕ, true, false}
use sr_firmware.Machine.{◌>>◌}
use sr_firmware.Hardware.{Io, act, gpio_irq_edge_fall}
use sr_firmware.Hardware.Sdk.{
  PicoSdk, gpio_init, gpio_put, gpio_set_dir, gpio_pull_up, gpio_set_irq_enabled, opcode_queue,
  gpio_set, customer_config_write,
}
use sr_firmware.TypeC.Registers.{Constants, gpio_interrupt, set_interrupt_masks, get_interrupt_vals}
use sr_firmware.TypeC.Opcodes.{gpio_bool_to_int32, opcode_queue_add, opcode_queue_start}
use sr_firmware.TypeC.Interrupts.{on_ccstat_change}
use sr_firmware.TypeC.Checks.{test_get_id}
use sr_firmware.TypeC.Waits.{wait_opcodes}

-- `sizeof(queue_entry_t)`: a function pointer and an `int32_t`.
abbrev pub queue_entry_size : ℕ
queue_entry_size = 8

module _ (sdk : PicoSdk) (const : Constants) where
  unfoldable pub max77958_init : Io sdk (Unit {0})
  max77958_init = do
    act sdk (sdk.queue_init opcode_queue queue_entry_size 16)
    test_get_id sdk const
    set_interrupt_masks sdk const
    act sdk (sdk.gpio (gpio_init gpio_interrupt))
    act sdk (sdk.gpio (gpio_put gpio_interrupt false))
    act sdk (sdk.gpio (gpio_set_dir gpio_interrupt false))
    act sdk (sdk.gpio (gpio_pull_up gpio_interrupt))
    act sdk (sdk.gpio (gpio_set_irq_enabled gpio_interrupt gpio_irq_edge_fall true))
    get_interrupt_vals sdk const
    opcode_queue_add sdk const gpio_set (gpio_bool_to_int32 false false)
    opcode_queue_add sdk const gpio_set (gpio_bool_to_int32 false true)
    opcode_queue_add sdk const customer_config_write 0
    opcode_queue_start sdk const
    on_ccstat_change sdk const

  unfoldable pub max77958_shutdown : Io sdk (Unit {0}) → ℕ → Io sdk (Unit {0})
  max77958_shutdown meanwhile fuel = do
    opcode_queue_add sdk const gpio_set (gpio_bool_to_int32 false false)
    opcode_queue_start sdk const
    wait_opcodes sdk "ERROR: Timed out waiting for GPIO to finish\n" meanwhile fuel
