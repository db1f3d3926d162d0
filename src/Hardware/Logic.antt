-- ===== src/Hardware/Logic.antt =====
-- What the drivers' programs have in common in proofs: a property of programs that the calls have
-- and that sequences and branches keep. Each program is shown to have every such property once.
use Prim.Native.String.{String}
use sr_firmware.Base.{ℕ, List, Bool, true, false, if◌then◌else◌}
use sr_firmware.Machine.{pure, ◌>>=◌}
use sr_firmware.Hardware.{
  Devices, Io, act, ask, get, modify, rp2040_log_w, rp2040_log_e, read_register,
  i2c_write_error_handling, i2c_read_error_handling,
}
use sr_firmware.Hardware.Sdk.{PicoSdk, Gpio, Setup, Queue, Entry, opcode_queue, results_queue}

-- The calls of the SDK that the drivers' programs make. Taking from the call queue, its setup and its
-- end are not among them.
pub data Step (sdk : PicoSdk) : (sdk.World → sdk.World) → Type 0 where
  idle : Step sdk (λ w. w)
  gpio_step : (call : Gpio) → Step sdk (sdk.gpio call)
  setup_step : (call : Setup) → Step sdk (sdk.setup call)
  sleep_step : (ms : ℕ) → Step sdk (sdk.sleep_ms ms)
  write_step :
      (i2c addr : ℕ) (src : List ℕ) (nostop : Bool)
      → Step sdk (sdk.i2c_write_blocking i2c addr src nostop)
  read_step :
      (i2c addr len : ℕ) (nostop : Bool)
      → Step sdk (λ w. (sdk.i2c_read_blocking i2c addr len nostop w).1)
  opcode_init_step : (size n : ℕ) → Step sdk (sdk.queue_init opcode_queue size n)
  results_init_step : (size n : ℕ) → Step sdk (sdk.queue_init results_queue size n)
  results_free_step : Step sdk (sdk.queue_free results_queue)
  add_step :
      (queue : Queue) (func : Entry) (arg : ℕ)
      → Step sdk (λ w. (sdk.queue_try_add queue func arg w).1)
  opcode_remove_step : Step sdk (λ w. (sdk.queue_try_remove opcode_queue w).1)
  results_remove_step : Step sdk (λ w. (sdk.queue_remove_blocking results_queue w).1)
  is_empty_step : (queue : Queue) → Step sdk (λ w. (sdk.queue_is_empty queue w).1)
  gpio_get_step : (pin : ℕ) → Step sdk (λ w. (sdk.gpio_get pin w).1)
  slice_step : (pin : ℕ) → Step sdk (λ w. (sdk.pwm_gpio_to_slice_num pin w).1)
  program_step : Step sdk (λ w. (sdk.pio_add_program w).1)
  adc_step : (input : ℕ) → Step sdk (λ w. (sdk.adc_read input w).1)
  count_step : (sm : ℕ) → Step sdk (λ w. (sdk.quadrature_encoder_get_count sm w).1)

pub record Logic (sdk : PicoSdk) : Type 1 where
  pub Holds : {A : Type 0} → Io sdk A → Type 0
  pub pure_holds : {A : Type 0} (a : A) → Holds (pure a)
  pub bind_holds :
      {A B : Type 0} (io : Io sdk A) (next : A → Io sdk B)
      → Holds io
      → ((a : A) → Holds (next a))
      → Holds (io >>= next)
  pub act_holds : (f : sdk.World → sdk.World) → Step sdk f → Holds (act sdk f)
  pub ask_holds :
      {A : Type 0} (f : sdk.World → A × sdk.World) → Step sdk (λ w. (f w).1) → Holds (ask sdk f)
  pub get_holds : {A : Type 0} (f : Devices sdk.World → A) → Holds (get sdk f)
  pub modify_holds : (f : Devices sdk.World → Devices sdk.World) → Holds (modify sdk f)
  pub log_w_holds : (format : String) (args : List ℕ) → Holds (rp2040_log_w sdk format args)
  pub log_e_holds : (format : String) (args : List ℕ) → Holds (rp2040_log_e sdk format args)
  pub write_holds :
      (i2c addr : ℕ) (src : List ℕ) (nostop : Bool)
      → Holds (i2c_write_error_handling sdk i2c addr src nostop)
  pub read_holds :
      (i2c addr len : ℕ) (nostop : Bool) → Holds (i2c_read_error_handling sdk i2c addr len nostop)

module _ {sdk : PicoSdk} (logic : Logic sdk) where
  pub if-Holds :
      {A : Type 0} (b : Bool) (x y : Io sdk A)
      → logic.Holds x
      → logic.Holds y
      → logic.Holds (if b then x else y)
  if-Holds true x y p q = p
  if-Holds false x y p q = q

  pub pure-Holds : {A : Type 0} (a : A) → logic.Holds (pure a)
  pure-Holds a = logic.pure_holds a

  pub bind-Holds :
      {A B : Type 0} (io : Io sdk A) (next : A → Io sdk B)
      → logic.Holds io
      → ((a : A) → logic.Holds (next a))
      → logic.Holds (io >>= next)
  bind-Holds io next p q = logic.bind_holds io next p q

  pub gpio-Holds : (call : Gpio) → logic.Holds (act sdk (sdk.gpio call))
  gpio-Holds call = logic.act_holds _ (gpio_step call)

  pub setup-Holds : (call : Setup) → logic.Holds (act sdk (sdk.setup call))
  setup-Holds call = logic.act_holds _ (setup_step call)

  pub sleep-Holds : (ms : ℕ) → logic.Holds (act sdk (sdk.sleep_ms ms))
  sleep-Holds ms = logic.act_holds _ (sleep_step ms)

  pub write_blocking-Holds :
      (i2c addr : ℕ) (src : List ℕ) (nostop : Bool)
      → logic.Holds (act sdk (sdk.i2c_write_blocking i2c addr src nostop))
  write_blocking-Holds i2c addr src nostop = logic.act_holds _ (write_step i2c addr src nostop)

  pub read_blocking-Holds :
      (i2c addr len : ℕ) (nostop : Bool)
      → logic.Holds (ask sdk (sdk.i2c_read_blocking i2c addr len nostop))
  read_blocking-Holds i2c addr len nostop = logic.ask_holds _ (read_step i2c addr len nostop)

  pub opcode_init-Holds : (size n : ℕ) → logic.Holds (act sdk (sdk.queue_init opcode_queue size n))
  opcode_init-Holds size n = logic.act_holds _ (opcode_init_step size n)

  pub results_init-Holds :
      (size n : ℕ) → logic.Holds (act sdk (sdk.queue_init results_queue size n))
  results_init-Holds size n = logic.act_holds _ (results_init_step size n)

  pub results_free-Holds : logic.Holds (act sdk (sdk.queue_free results_queue))
  results_free-Holds = logic.act_holds _ (results_free_step)

  pub add-Holds :
      (queue : Queue) (func : Entry) (arg : ℕ)
      → logic.Holds (ask sdk (sdk.queue_try_add queue func arg))
  add-Holds queue func arg = logic.ask_holds _ (add_step queue func arg)

  pub opcode_remove-Holds : logic.Holds (ask sdk (sdk.queue_try_remove opcode_queue))
  opcode_remove-Holds = logic.ask_holds _ (opcode_remove_step)

  pub results_remove-Holds : logic.Holds (ask sdk (sdk.queue_remove_blocking results_queue))
  results_remove-Holds = logic.ask_holds _ (results_remove_step)

  pub is_empty-Holds : (queue : Queue) → logic.Holds (ask sdk (sdk.queue_is_empty queue))
  is_empty-Holds queue = logic.ask_holds _ (is_empty_step queue)

  pub gpio_get-Holds : (pin : ℕ) → logic.Holds (ask sdk (sdk.gpio_get pin))
  gpio_get-Holds pin = logic.ask_holds _ (gpio_get_step pin)

  pub slice-Holds : (pin : ℕ) → logic.Holds (ask sdk (sdk.pwm_gpio_to_slice_num pin))
  slice-Holds pin = logic.ask_holds _ (slice_step pin)

  pub program-Holds : logic.Holds (ask sdk (sdk.pio_add_program))
  program-Holds = logic.ask_holds _ (program_step)

  pub adc-Holds : (input : ℕ) → logic.Holds (ask sdk (sdk.adc_read input))
  adc-Holds input = logic.ask_holds _ (adc_step input)

  pub count-Holds : (sm : ℕ) → logic.Holds (ask sdk (sdk.quadrature_encoder_get_count sm))
  count-Holds sm = logic.ask_holds _ (count_step sm)

  pub at_null-Holds : logic.Holds (ask sdk (λ w. (sdk.at_null w, w)))
  at_null-Holds = logic.ask_holds _ (idle)

  pub behind_send_buf-Holds : logic.Holds (ask sdk (λ w. (sdk.behind_send_buf w, w)))
  behind_send_buf-Holds = logic.ask_holds _ (idle)

  pub get-Holds : {A : Type 0} (f : Devices sdk.World → A) → logic.Holds (get sdk f)
  get-Holds f = logic.get_holds f

  pub modify-Holds : (f : Devices sdk.World → Devices sdk.World) → logic.Holds (modify sdk f)
  modify-Holds f = logic.modify_holds f

  pub log_w-Holds : (format : String) (args : List ℕ) → logic.Holds (rp2040_log_w sdk format args)
  log_w-Holds format args = logic.log_w_holds format args

  pub log_e-Holds : (format : String) (args : List ℕ) → logic.Holds (rp2040_log_e sdk format args)
  log_e-Holds format args = logic.log_e_holds format args

  pub write-Holds :
      (i2c addr : ℕ) (src : List ℕ) (nostop : Bool)
      → logic.Holds (i2c_write_error_handling sdk i2c addr src nostop)
  write-Holds i2c addr src nostop = logic.write_holds i2c addr src nostop

  pub read-Holds :
      (i2c addr len : ℕ) (nostop : Bool)
      → logic.Holds (i2c_read_error_handling sdk i2c addr len nostop)
  read-Holds i2c addr len nostop = logic.read_holds i2c addr len nostop

  pub ruleset holds = (
    pure-Holds, bind-Holds, gpio-Holds, setup-Holds, sleep-Holds, write_blocking-Holds,
    read_blocking-Holds, opcode_init-Holds, results_init-Holds, results_free-Holds, add-Holds,
    opcode_remove-Holds, results_remove-Holds, is_empty-Holds, gpio_get-Holds, slice-Holds,
    program-Holds, adc-Holds, count-Holds, at_null-Holds, behind_send_buf-Holds, get-Holds,
    modify-Holds, if-Holds, log_w-Holds, log_e-Holds, write-Holds, read-Holds,
  )

  pub read_register-Holds :
      (i2c addr reg len : ℕ) → logic.Holds (read_register sdk i2c addr reg len)
  unfolding read_register
  read_register-Holds i2c addr reg len = search (holds)
