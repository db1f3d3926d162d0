-- ===== src/TypeC/Tests.antt =====
-- Checks of the Type-C controller's queue and configuration on concrete input.
use sr_firmware.Base.{
  ℕ, ◌≤◌, ◌<◌, ltb, Bool, true, false, if◌then◌else◌, Option, none, some, List, [], ◌∷◌, ◌++◌,
  length, ◌≡◌, refl, arith,
}
use sr_firmware.Log.Valid.{init-IsValid}
use sr_firmware.Hardware.{State}
use sr_firmware.Hardware.Sdk.{
  pos, PicoSdk, Queue, call_queue, results_queue, opcode_queue, Entry, gpio_set, bc_ctrl1_read,
  stop_core1,
}
use sr_firmware.TypeC.Config.{build_customer_config_value}
use sr_firmware.TypeC.Fields.{Encodes, build_customer_config_value-Encodes}
use sr_firmware.TypeC.Fifo.{Contents, Fifo, IsPop, opcode_queue_pop-IsPop}
use sr_firmware.TypeC.Opcodes.{opcode_queue_pop, customer_config}
use sr_firmware.Hardware.Samples.{at_rest}
use sr_firmware.TypeC.Samples.{constants}

-- Queues as lists; the call queue holds at most two entries.
added_to : Queue → Entry × ℕ → Contents → Bool × Contents
added_to call_queue entry q =
    if ltb (length q.calls) 2
    then (true, record q { calls = q.calls ++ entry ∷ [] })
    else (false, q)
added_to results_queue entry q = (false, q)
added_to opcode_queue entry q = (true, record q { opcodes = q.opcodes ++ entry ∷ [] })

taken_from : List (Entry × ℕ) → Contents → Option (Entry × ℕ) × Contents
taken_from [] q = (none, q)
taken_from (entry ∷ rest) q = (some entry, record q { opcodes = rest })

removed_from : Queue → Contents → Option (Entry × ℕ) × Contents
removed_from call_queue q = (none, q)
removed_from results_queue q = (none, q)
removed_from opcode_queue q = taken_from q.opcodes q

abbrev queues : PicoSdk
queues = record {
  World = Contents;
  i2c_write_timeout_us = λ i2c addr src nostop q. (pos 1, q);
  i2c_write_blocking = λ i2c addr src nostop q. q;
  i2c_read_timeout_us = λ i2c addr len nostop q. ((pos len, []), q);
  i2c_read_blocking = λ i2c addr len nostop q. ((pos 0, []), q);
  queue_init = λ queue size n w. w;
  queue_free = λ queue w. w;
  queue_try_add = λ queue func arg q. added_to queue (func, arg) q;
  queue_try_remove = removed_from;
  queue_remove_blocking = λ queue q. ((stop_core1, 0), q);
  queue_is_empty = λ queue q. (true, q);
  sleep_ms = λ ms q. q;
  gpio = λ call q. q;
  gpio_get = λ pin q. (true, q);
  setup = λ call q. q;
  pwm_gpio_to_slice_num = λ pin q. (0, q);
  pio_add_program = λ q. (0, q);
  adc_read = λ input q. (0, q);
  quadrature_encoder_get_count = λ sm q. (0, q);
  behind_send_buf = λ q. [];
  at_null = λ q. 0;
  text = λ format args. [];
  text_no_null = λ format args. tt;
}

added_lem :
    (entry : Entry × ℕ) (q : Contents)
    → length q.calls < 2
    → ((added_to call_queue entry q).0 ≡ true)
      × ((added_to call_queue entry q).1 ≡ record q { calls = q.calls ++ entry ∷ [] })
unfolding added_to
added_lem entry q h =
    let room : ltb (length q.calls) 2 ≡ true = ground arith in (rw (room) refl, rw (room) refl)

full_lem :
    (entry : Entry × ℕ) (q : Contents)
    → 2 ≤ length q.calls
    → ((added_to call_queue entry q).0 ≡ false) × ((added_to call_queue entry q).1 ≡ q)
unfolding added_to
full_lem entry q h =
    let no_room : ltb (length q.calls) 2 ≡ false = ground arith in
    (rw (no_room) refl, rw (no_room) refl)

queues-Fifo : Fifo queues
unfolding removed_from taken_from
queues-Fifo = record {
  contents = λ q. q;
  capacity = 2;
  added = λ func arg q h. added_lem (func, arg) q h;
  full = λ func arg q h. full_lem (func, arg) q h;
  removed = λ entry rest q e. (rw (e) refl, rw (e) refl);
  empty = λ q e. (rw (e) refl, rw (e) refl);
}

-- Two opcodes wait, and the call queue is full.
abbrev crowded : Contents
crowded = record {
  opcodes = (gpio_set, 5) ∷ (bc_ctrl1_read, 0) ∷ [];
  calls = (stop_core1, 0) ∷ (stop_core1, 0) ∷ [];
}

abbrev start : State queues
start = at_rest crowded

opcode_queue_pop-IsPop_example :
    IsPop queues queues-Fifo constants crowded start (opcode_queue_pop queues constants start)
unfolding queues-Fifo
opcode_queue_pop-IsPop_example =
    opcode_queue_pop-IsPop queues queues-Fifo constants start init-IsValid.0

build_customer_config_value-Encodes_example :
    Encodes customer_config (build_customer_config_value customer_config)
build_customer_config_value-Encodes_example = build_customer_config_value-Encodes customer_config

-- The byte that the firmware configures the chip with.
customer_config_byte : build_customer_config_value customer_config ≡ 0x20
unfolding build_customer_config_value
customer_config_byte = refl
