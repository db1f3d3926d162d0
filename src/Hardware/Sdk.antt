-- ===== src/Hardware/Sdk.antt =====
-- The functions of the Pico SDK and of the C library that the firmware calls, over a state of the
-- outside world that the model does not look into.
use Prim.Native.String.{String}
use sr_firmware.Base.{ℕ, Bool, List, Option}
use sr_firmware.Log.Store.{NoNull}

-- An `int`; `negsuc n` is -(n + 1).
pub data ℤ : Type 0 where
  pos : ℕ → ℤ
  negsuc : ℕ → ℤ

-- A call on a GPIO pin that returns nothing.
pub data Gpio : Type 0 where
  gpio_init gpio_pull_up gpio_disable_pulls gpio_deinit : ℕ → Gpio
  gpio_put gpio_set_dir : ℕ → Bool → Gpio
  adc_gpio_init : ℕ → Gpio
  gpio_acknowledge_irq : ℕ → ℕ → Gpio
  gpio_set_irq_enabled : ℕ → ℕ → Bool → Gpio

-- What a pin is used for.
pub data Function : Type 0 where
  gpio_func_i2c gpio_func_sio gpio_func_pwm : Function

-- The queues of src/robot.c and of src/max77958.c.
pub data Queue : Type 0 where
  call_queue results_queue opcode_queue : Queue

-- A function pointer of a queue entry.
pub data Entry : Type 0 where
  drv8830_fault_handler drv8830_test_response drv8830_scope_set_controls : Entry
  bq27742_g1_parse_interrupt_vals : Entry
  max77976_parse_interrupt_vals max77976_test_response : Entry
  max77958_parse_interrupt_vals max77958_test_response pd_msg_response : Entry
  gpio_set customer_config_write customer_config_read snk_pdo_request : Entry
  bc_ctrl1_read bc_ctrl2_read control1_read cc_ctrl1_read cc_ctrl4_read : Entry
  gpio_control_read gpio0_gpio1_adc_read : Entry
  ncp3901_attached ncp3901_detached ncp3901_test_response : Entry
  stop_core1 : Entry

-- A call that sets the board up or shuts it down and returns nothing.
pub data Setup : Type 0 where
  stdio_init_all irq_set_enabled multicore_launch_core1 : Setup
  stdio_set_translate_crlf : Bool → Setup
  gpio_set_irq_callback : Setup
  i2c_init : ℕ → ℕ → Setup
  i2c_deinit : ℕ → Setup
  gpio_set_function : ℕ → Function → Setup
  gpio_pull_down : ℕ → Setup
  adc_init tight_loop_contents : Setup
  -- state machine, offset of the program, pin
  quadrature_encoder_program_init : ℕ → ℕ → ℕ → Setup
  pwm_set_wrap : ℕ → ℕ → Setup
  pwm_set_gpio_level : ℕ → ℕ → Setup
  pwm_set_enabled : ℕ → Bool → Setup

pub record PicoSdk : Type 1 where
  pub World : Type 0
  -- bus, address, bytes, `nostop`
  pub i2c_write_timeout_us : ℕ → ℕ → List ℕ → Bool → World → ℤ × World
  pub i2c_write_blocking : ℕ → ℕ → List ℕ → Bool → World → World
  -- bus, address, number of bytes, `nostop`; what the destination then holds
  pub i2c_read_timeout_us : ℕ → ℕ → ℕ → Bool → World → (ℤ × List ℕ) × World
  pub i2c_read_blocking : ℕ → ℕ → ℕ → Bool → World → (ℤ × List ℕ) × World
  -- size of an element, number of elements
  pub queue_init : Queue → ℕ → ℕ → World → World
  pub queue_free : Queue → World → World
  -- whether there was room, or whether there was an entry
  pub queue_try_add : Queue → Entry → ℕ → World → Bool × World
  pub queue_try_remove : Queue → World → Option (Entry × ℕ) × World
  pub queue_remove_blocking : Queue → World → (Entry × ℕ) × World
  pub queue_is_empty : Queue → World → Bool × World
  pub sleep_ms : ℕ → World → World
  pub gpio : Gpio → World → World
  pub gpio_get : ℕ → World → Bool × World
  pub setup : Setup → World → World
  pub pwm_gpio_to_slice_num : ℕ → World → ℕ × World
  -- the offset at which the encoders' program is loaded
  pub pio_add_program : World → ℕ × World
  pub adc_read : ℕ → World → ℕ × World
  pub quadrature_encoder_get_count : ℕ → World → ℕ × World
  -- The four bytes that lie in memory behind `send_buf` of src/max77976.c, which the source reads.
  pub behind_send_buf : World → List ℕ
  -- The byte at address 0, from which `test_max77976_get_id` writes.
  pub at_null : World → ℕ
  -- What a format prints with its arguments; it holds no null byte.
  pub text : String → List ℕ → List ℕ
  pub text_no_null : (format : String) (args : List ℕ) → NoNull (text format args)
