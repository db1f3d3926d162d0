-- ===== src/Hardware/Tests.antt =====
-- Checks of the retries on concrete input.
use sr_firmware.Base.{ℕ, ◌+◌, ◌==◌, if◌then◌else◌, true, false, [], ◌∷◌, none, ◌≡◌, arith}
use sr_firmware.Hardware.{State, i2c_write_error_handling, i2c_read_error_handling}
use sr_firmware.Hardware.Bus.{
  acked, failed, Written, after_failures, i2c_write_error_handling-Written,
  i2c_write_error_handling_halts,
}
use sr_firmware.Hardware.Reads.{Read, i2c_read_error_handling-Read}
use sr_firmware.Hardware.{modify, wait}
use sr_firmware.Hardware.Waits.{Waits, wait-Waits}
use sr_firmware.Hardware.Samples.{at_rest}
use sr_firmware.Hardware.Sdk.{pos, negsuc, PicoSdk, stop_core1}

-- The world counts the transfers; the first one fails.
abbrev stumbling : PicoSdk
stumbling = record {
  World = ℕ;
  i2c_write_timeout_us = λ i2c addr src nostop w. (if w == 0 then negsuc 0 else pos 1, w + 1);
  i2c_write_blocking = λ i2c addr src nostop w. w + 1;
  i2c_read_timeout_us = λ i2c addr len nostop w. ((if w == 0 then negsuc 0 else pos 1, []), w + 1);
  i2c_read_blocking = λ i2c addr len nostop w. ((pos 1, []), w);
  queue_init = λ queue size n w. w;
  queue_free = λ queue w. w;
  queue_try_add = λ queue func arg w. (true, w);
  queue_try_remove = λ queue w. (none, w);
  queue_remove_blocking = λ queue w. ((stop_core1, 0), w);
  queue_is_empty = λ queue w. (true, w);
  sleep_ms = λ ms w. w;
  gpio = λ call w. w;
  gpio_get = λ pin w. (true, w);
  setup = λ call w. w;
  pwm_gpio_to_slice_num = λ pin w. (0, w);
  pio_add_program = λ w. (0, w);
  adc_read = λ input w. (0, w);
  quadrature_encoder_get_count = λ sm w. (0, w);
  behind_send_buf = λ w. [];
  at_null = λ w. 0;
  text = λ format args. [];
  text_no_null = λ format args. tt;
}

-- No transfer is acknowledged.
abbrev dead : PicoSdk
dead = record stumbling {
  i2c_write_timeout_us = λ i2c addr src nostop w. (negsuc 1, w);
  i2c_read_timeout_us = λ i2c addr len nostop w. ((negsuc 1, []), w);
}

abbrev start : State stumbling
start = at_rest 0

abbrev dead_start : State dead
dead_start = start

i2c_write_error_handling-Written_example :
    Written stumbling 0 0x55
      (8 ∷ [])
      true
      1
      start
      (i2c_write_error_handling stumbling 0 0x55 (8 ∷ []) true start)
unfolding after_failures
i2c_write_error_handling-Written_example =
    i2c_write_error_handling-Written stumbling 0 0x55 (8 ∷ []) true 1 start (omega arith) acked

i2c_write_error_handling_halts_example :
    i2c_write_error_handling dead 0 0x55 (8 ∷ []) true dead_start ≡ none
i2c_write_error_handling_halts_example =
    i2c_write_error_handling_halts dead 0 0x55 (8 ∷ []) true dead_start (λ k h. failed)

i2c_read_error_handling-Read_example :
    Read stumbling 0 0x55 2 false 1 start (i2c_read_error_handling stumbling 0 0x55 2 false start)
unfolding after_failures
i2c_read_error_handling-Read_example =
    i2c_read_error_handling-Read stumbling 0 0x55 2 false 1 start (omega arith) acked

-- The response comes in the first round.
wait-Waits_example :
    Waits stumbling
      (λ d. d.test_drv8830_completed)
      "late"
      (modify stumbling (λ d. record d { test_drv8830_completed = true }))
      0
      start
      (wait stumbling
        (λ d. d.test_drv8830_completed)
        "late"
        (modify stumbling (λ d. record d { test_drv8830_completed = true }))
        0
        start)
wait-Waits_example =
    wait-Waits stumbling (λ d. d.test_drv8830_completed) "late"
      (modify stumbling (λ d. record d { test_drv8830_completed = true })) 0 start
