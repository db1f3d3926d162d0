-- ===== src/Hardware/Samples.antt =====
-- Test data: the static variables as the program starts with them.
use sr_firmware.Base.{Bool, ℕ, true, false, List, [], none}
use sr_firmware.Hardware.Sdk.{
  PicoSdk, Gpio, Queue, Entry, call_queue, results_queue, opcode_queue, stop_core1, pos,
}
use sr_firmware.Log.{init}
use sr_firmware.Machine.{Machine}
use sr_firmware.Hardware.{Devices, Encoder}

abbrev pub still : Encoder
still = record { count_current = 0; count_previous = 0; count_delta = 0 }

abbrev pub at_rest : {W : Type 0} → W → Machine (Devices W)
at_rest w = record {
  log = init;
  world = record {
    outside = w;
    core1_shutdown_requested = false;
    fault_values = (0, 0);
    test_drv8830_started = false;
    test_drv8830_completed = false;
    bq27742_g1_interrupt_pending = false;
    wireless_charger_attached = false;
    test_ncp3901_started = false;
    test_ncp3901_completed = false;
    test_max77976_started = false;
    test_max77976_completed = false;
    test_max77976_interrupt_bool = false;
    type_c = record {
      return_buf = [];
      op_code_return_buf = [];
      opcodes_finished = false;
      use_mtp_access = false;
      interrupt_bool = false;
      test_started = false;
      test_completed = false;
    };
    encoders = (still, still);
  };
}

-- What differs between the boards of the tests: what the devices make of the bytes that they are
-- sent and what they answer, the pins, and the call queue.
pub record Board (W : Type 0) : Type 0 where
  pub write : List ℕ → W → W
  pub read : W → List ℕ
  pub signal : Gpio → W → W
  pub add : Queue → Entry → ℕ → W → Bool × W
  pub remove : W → (Entry × ℕ) × W

-- Every transfer is acknowledged, and all pins are high.
abbrev pub board_of : {W : Type 0} → Board W → PicoSdk
board_of {W} b = record {
  World = W;
  i2c_write_timeout_us = λ i2c addr src nostop w. (pos 1, b.write src w);
  i2c_write_blocking = λ i2c addr src nostop w. w;
  i2c_read_timeout_us = λ i2c addr len nostop w. ((pos len, b.read w), w);
  i2c_read_blocking = λ i2c addr len nostop w. ((pos 1, []), w);
  queue_init = λ queue size n w. w;
  queue_free = λ queue w. w;
  queue_try_add = b.add;
  queue_try_remove = λ queue w. (none, w);
  queue_remove_blocking = λ queue w. elim queue [
    | call_queue ↦ b.remove w
    | results_queue ↦ ((stop_core1, 0), w)
    | opcode_queue ↦ ((stop_core1, 0), w)
  ];
  queue_is_empty = λ queue w. (true, w);
  sleep_ms = λ ms w. w;
  gpio = b.signal;
  gpio_get = λ pin w. (true, w);
  setup = λ call w. w;
  pwm_gpio_to_slice_num = λ pin w. (0, w);
  pio_add_program = λ w. (0, w);
  adc_read = λ input w. (0, w);
  quadrature_encoder_get_count = λ sm w. (0, w);
  behind_send_buf = λ w. [];
  at_null = λ w. 0;
  text = λ format args. [];
  text_no_null = λ format args. tt;
}
