-- ===== src/Robot/StopTests.antt =====
-- A run of `core1_entry` on a call queue in which the entry that stops it is the third.
use sr_firmware.Base.{
  ℕ, Bool, true, false, ltb, length, if◌then◌else◌, List, [], ◌∷◌, ◌++◌, ◌≡◌, refl, arith,
}
use sr_firmware.Hardware.{State}
use sr_firmware.Hardware.Logic.{
  Step, idle, gpio_step, setup_step, sleep_step, write_step, read_step, opcode_init_step,
  results_init_step, results_free_step, add_step, opcode_remove_step, results_remove_step,
  is_empty_step, gpio_get_step, slice_step, program_step, adc_step, count_step,
}
use sr_firmware.Hardware.Samples.{at_rest}
use sr_firmware.Hardware.Sdk.{
  PicoSdk, Gpio, Queue, Entry, call_queue, results_queue, opcode_queue, stop_core1, pd_msg_response,
  drv8830_test_response,
}
use sr_firmware.TypeC.Samples.{constants}
use sr_firmware.Robot.{core1_entry}
use sr_firmware.Robot.Calls.{Grown, Grown-refl, CallQueue}
use sr_firmware.Robot.Samples.{board}
use sr_firmware.Robot.Stop.{Ends, core1_entry-Ends}

abbrev Calls : Type 0
Calls = List (Entry × ℕ)

-- The call queue has 256 places.
abbrev added : Queue → Entry → ℕ → Calls → Bool × Calls
added call_queue func arg calls =
    if ltb (length calls) 256 then (true, calls ++ (func, arg) ∷ []) else (false, calls)
added results_queue func arg calls = (true, calls)
added opcode_queue func arg calls = (true, calls)

abbrev removed : Calls → (Entry × ℕ) × Calls
removed [] = ((stop_core1, 0), [])
removed (entry ∷ calls) = (entry, calls)

abbrev unmoved : Gpio → Calls → Calls
unmoved call calls = calls

abbrev queued : PicoSdk
queued = board unmoved added removed

bounded-Grown :
    (room : Bool) (entry : Entry × ℕ) (w : Calls)
    → Grown w (if◌then◌else◌ {A = Bool × Calls} room (true, w ++ entry ∷ []) (false, w)).1
bounded-Grown true entry w = (entry ∷ [], refl)
bounded-Grown false entry w = Grown-refl w

added-Grown :
    (queue : Queue) (func : Entry) (arg : ℕ) (w : Calls) → Grown w (added queue func arg w).1
added-Grown call_queue func arg w = bounded-Grown (ltb (length w) 256) (func, arg) w
added-Grown results_queue func arg w = Grown-refl w
added-Grown opcode_queue func arg w = Grown-refl w

steps-Grown : (f : Calls → Calls) (w : Calls) → Step queued f → Grown w (f w)
steps-Grown f w idle = Grown-refl w
steps-Grown f w (gpio_step call) = Grown-refl w
steps-Grown f w (setup_step call) = Grown-refl w
steps-Grown f w (sleep_step ms) = Grown-refl w
steps-Grown f w (write_step i2c addr src nostop) = Grown-refl w
steps-Grown f w (read_step i2c addr len nostop) = Grown-refl w
steps-Grown f w (opcode_init_step size n) = Grown-refl w
steps-Grown f w (results_init_step size n) = Grown-refl w
steps-Grown f w results_free_step = Grown-refl w
steps-Grown f w (add_step queue func arg) = added-Grown queue func arg w
steps-Grown f w opcode_remove_step = Grown-refl w
steps-Grown f w results_remove_step = Grown-refl w
steps-Grown f w (is_empty_step queue) = Grown-refl w
steps-Grown f w (gpio_get_step pin) = Grown-refl w
steps-Grown f w (slice_step pin) = Grown-refl w
steps-Grown f w program_step = Grown-refl w
steps-Grown f w (adc_step input) = Grown-refl w
steps-Grown f w (count_step sm) = Grown-refl w

removes_lem :
    (w : Calls) (entry : Entry × ℕ) (rest : Calls)
    → w ≡ entry ∷ rest
    → ((removed w).0 ≡ entry) × Grown rest (removed w).1
removes_lem w entry rest e = rw e (refl, Grown-refl rest)

abbrev queued-CallQueue : CallQueue queued
queued-CallQueue = record {
  calls = λ w. w;
  steps = steps-Grown;
  writes = λ i2c addr src nostop w. Grown-refl w;
  reads = λ i2c addr len nostop w. Grown-refl w;
  removes = removes_lem;
}

-- `pd_msg_response` and a test's response wait before the entry, `pd_msg_response` behind it.
abbrev start : State queued
start = at_rest (
    (pd_msg_response, 0) ∷ (drv8830_test_response, 1) ∷ (stop_core1, 0) ∷ (pd_msg_response, 0) ∷ [])

core1_entry-Ends_example :
    Ends queued constants
      ((pd_msg_response, 0) ∷ (drv8830_test_response, 1) ∷ (stop_core1, 0) ∷ [])
      start
      (core1_entry queued constants 4 start)
core1_entry-Ends_example =
    core1_entry-Ends queued queued-CallQueue constants
      ((pd_msg_response, 0) ∷ (drv8830_test_response, 1) ∷ []) ((pd_msg_response, 0) ∷ []) 0 4 start
      (omega arith) refl
