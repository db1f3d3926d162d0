-- ===== src/Robot/Setup.antt =====
-- The queues and the I2C buses of src/robot.c: their start, their use and their end. `meanwhile` is what
-- core 1 and the interrupts do during a sleep of a wait.
use sr_firmware.Base.{ℕ, zero, suc, ◌+◌, ◌*◌, Bool, true, false, List, [], ◌∷◌, if◌then◌else◌}
use sr_firmware.Machine.{pure, ◌>>=◌, ◌>>◌, halt}
use sr_firmware.Hardware.{Io, act, ask, rp2040_log_e}
use sr_firmware.Hardware.Sdk.{
  ℤ, pos, negsuc, PicoSdk, Entry, call_queue, results_queue, gpio_func_i2c, gpio_func_sio, i2c_init,
  i2c_deinit, gpio_set_function, gpio_pull_up, gpio_pull_down,
}
use sr_firmware.TypeC.Start.{queue_entry_size}

-- A byte that `i2c_scan` reads has come.
abbrev answered : ℤ → Bool
answered (pos zero) = false
answered (pos (suc n)) = true
answered (negsuc n) = false

module _ (sdk : PicoSdk) where
  unfoldable pub init_queues : Io sdk (Unit {0})
  init_queues = do
    act sdk (sdk.queue_init call_queue queue_entry_size 256)
    act sdk (sdk.queue_init results_queue 4 256)

  unfoldable pub results_queue_try_add : Entry → ℕ → Io sdk (Unit {0})
  results_queue_try_add func arg = do
    room ← ask sdk (sdk.queue_try_add results_queue func arg)
    if room then pure tt else (rp2040_log_e sdk "ERROR:results_queue is full" [] >> halt)

  unfoldable pub results_queue_pop : Io sdk (Unit {0})
  results_queue_pop = do
    empty ← ask sdk (sdk.queue_is_empty results_queue)
    if empty then pure tt else (ask sdk (sdk.queue_remove_blocking results_queue) >>= λ _. pure tt)

  -- The two loops of `free_queues` run on fuel; `none` is a loop that still runs when it is out.
  unfoldable pub drain_results : ℕ → Io sdk (Unit {0})
  drain_results zero = halt
  drain_results (suc fuel) = do
    let rest = drain_results fuel
    empty ← ask sdk (sdk.queue_is_empty results_queue)
    if empty then pure tt else (results_queue_pop >> rest)

  unfoldable pub await_calls : Io sdk (Unit {0}) → ℕ → Io sdk (Unit {0})
  await_calls meanwhile zero = halt
  await_calls meanwhile (suc fuel) = do
    let rest = await_calls meanwhile fuel
    empty ← ask sdk (sdk.queue_is_empty call_queue)
    if empty then pure tt else (act sdk (sdk.sleep_ms 500) >> meanwhile >> rest)

  unfoldable pub free_queues : Io sdk (Unit {0}) → ℕ → Io sdk (Unit {0})
  free_queues meanwhile fuel = do
    drain_results fuel
    await_calls meanwhile fuel
    act sdk (sdk.queue_free call_queue)
    act sdk (sdk.queue_free results_queue)

  unfoldable pub i2c_start : Io sdk (Unit {0})
  i2c_start = do
    act sdk (sdk.setup (i2c_init 0 (400 * 1000)))
    act sdk (sdk.setup (gpio_set_function 0 gpio_func_i2c))
    act sdk (sdk.setup (gpio_set_function 1 gpio_func_i2c))
    act sdk (sdk.gpio (gpio_pull_up 0))
    act sdk (sdk.gpio (gpio_pull_up 1))
    act sdk (sdk.setup (i2c_init 1 (400 * 1000)))
    act sdk (sdk.setup (gpio_set_function 2 gpio_func_i2c))
    act sdk (sdk.setup (gpio_set_function 3 gpio_func_i2c))
    act sdk (sdk.gpio (gpio_pull_up 2))
    act sdk (sdk.gpio (gpio_pull_up 3))

  unfoldable pub i2c_stop : Io sdk (Unit {0})
  i2c_stop = do
    act sdk (sdk.setup (gpio_pull_down 0))
    act sdk (sdk.setup (gpio_pull_down 1))
    act sdk (sdk.setup (gpio_pull_down 2))
    act sdk (sdk.setup (gpio_pull_down 3))
    act sdk (sdk.setup (gpio_set_function 0 gpio_func_sio))
    act sdk (sdk.setup (gpio_set_function 1 gpio_func_sio))
    act sdk (sdk.setup (gpio_set_function 2 gpio_func_sio))
    act sdk (sdk.setup (gpio_set_function 3 gpio_func_sio))
    act sdk (sdk.setup (i2c_deinit 0))
    act sdk (sdk.setup (i2c_deinit 1))

  -- The loop of `i2c_scan`, with the addresses left to try and the next one; the addresses that answer.
  unfoldable pub scan_from : ℕ → ℕ → ℕ → Io sdk (List ℕ)
  scan_from i2c zero address = pure []
  scan_from i2c (suc left) address = do
    let rest = scan_from i2c left (address + 1)
    act sdk (sdk.sleep_ms 10)
    answer ← ask sdk (sdk.i2c_read_blocking i2c address 1 false)
    found ← rest
    pure (if answered answer.0 then address ∷ found else found)

  -- The array that is returned, up to its final 0: the addresses 0x08 to 0x77.
  unfoldable pub i2c_scan : ℕ → Io sdk (List ℕ)
  i2c_scan i2c = scan_from i2c 112 0x08
