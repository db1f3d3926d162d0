-- ===== src/Hardware.antt =====
-- The Pico SDK and the C library as the drivers use them, the drivers' access to both, and
-- `i2c_write_error_handling`, `i2c_read_error_handling` and the call queue of src/robot.c.
-- Messages below WARNING are compiled out by the default build and do not stand in the model.
pub mod Sdk
pub mod Bus
pub mod Reads
pub mod Returns
pub mod Logic
pub mod Keeps
pub mod Post
pub mod Runs
pub mod Device
pub mod Waits
pub mod Samples
mod Tests
use Prim.Native.String.{String}
use sr_firmware.Base.{
  ℕ, zero, suc, ◌+◌, ◌-◌, ◌==◌, bit_and, bit_or, get_or, ◌^◌, ◌*◌, ltb, if◌then◌else◌, Bool, true,
  false, not, Option, none, some,
}
use sr_firmware.Base.{List, [], ◌∷◌, ◌++◌, length}
use sr_firmware.Log.{CircularBufferLog, rp2040_log, log_level_warning, log_level_error}
use sr_firmware.Machine.{Machine, M, pure, ◌>>=◌, ◌>>◌, halt}
use sr_firmware.BitOps.{truth}
use Sdk.{ℤ, pos, negsuc, PicoSdk, Entry, call_queue, tight_loop_contents}

abbrev pub max_retries : ℕ
max_retries = 3

abbrev pub retry_delay : ℕ
retry_delay = 10

-- The bits of `event_mask`.
abbrev pub gpio_irq_edge_fall : ℕ
gpio_irq_edge_fall = 4

abbrev pub gpio_irq_edge_rise : ℕ
gpio_irq_edge_rise = 8

-- `if (word & mask)`
abbrev pub flagged : ℕ → ℕ → Bool
flagged word mask = ltb 0 (bit_and word mask)

-- `(buf[1] << 8) | buf[0]`
abbrev pub word16 : List ℕ → ℕ
word16 buf = bit_or (get_or buf 1 0 * 2 ^ 8) (get_or buf 0 0)

-- The bits of an `int`, for `printf`.
abbrev pub int_bits : ℤ → ℕ
int_bits (pos n) = n
int_bits (negsuc n) = 2 ^ 32 - 1 - n

-- The static variables of src/max77958.c that it reads again. Of the buffers, what lies behind the
-- bytes of the list is zero.
pub record TypeCState : Type 0 where
  pub return_buf : List ℕ
  pub op_code_return_buf : List ℕ
  pub opcodes_finished : Bool
  pub use_mtp_access : Bool
  pub interrupt_bool : Bool
  pub test_started : Bool
  pub test_completed : Bool

-- `encoder` of src/quad_encoders.c, without the fields that nothing uses. The numbers are the bits
-- of an `int32_t`.
pub record Encoder : Type 0 where
  pub count_current : ℕ
  pub count_previous : ℕ
  pub count_delta : ℕ

-- The static variables of src/robot.c and of the drivers, over the state `W` of the world outside.
pub record Devices (W : Type 0) : Type 0 where
  pub outside : W
  pub core1_shutdown_requested : Bool
  pub fault_values : ℕ × ℕ
  pub test_drv8830_started : Bool
  pub test_drv8830_completed : Bool
  pub bq27742_g1_interrupt_pending : Bool
  pub wireless_charger_attached : Bool
  pub test_ncp3901_started : Bool
  pub test_ncp3901_completed : Bool
  pub test_max77976_started : Bool
  pub test_max77976_completed : Bool
  pub test_max77976_interrupt_bool : Bool
  pub type_c : TypeCState
  pub encoders : Encoder × Encoder

module _ (sdk : PicoSdk) where
  abbrev pub State : Type 0
  State = Machine (Devices sdk.World)

  abbrev pub Io : Type 0 → Type 0
  Io A = M (Devices sdk.World) A

  -- A call of the SDK that returns nothing.
  unfoldable pub act : (sdk.World → sdk.World) → Io (Unit {0})
  act f m = some (tt, record m { world = record (m.world) { outside = f m.world.outside } })

  -- A call of the SDK that returns a value.
  unfoldable pub ask : {A : Type 0} → (sdk.World → A × sdk.World) → Io A
  ask f m =
      let (a, w) = f m.world.outside in
      some (a, record m { world = record (m.world) { outside = w } })

  -- Reading and writing the static variables; writing them leaves the outside as it is.
  unfoldable pub get : {A : Type 0} → (Devices sdk.World → A) → Io A
  get f m = some (f m.world, m)

  unfoldable pub modify : (Devices sdk.World → Devices sdk.World) → Io (Unit {0})
  modify f m = some (tt, record m { world = record (f m.world) { outside = m.world.outside } })

  unfoldable pub logged : State → Option CircularBufferLog → Option (Unit {0} × State)
  logged m none = none
  logged m (some log') = some (tt, record m { log = log' })

  unfoldable pub log : ℕ → String → List ℕ → Io (Unit {0})
  unfolding logged
  log level format args m = logged m (rp2040_log level (sdk.text format args) m.log)

  abbrev pub rp2040_log_w : String → List ℕ → Io (Unit {0})
  rp2040_log_w format args = log log_level_warning format args

  abbrev pub rp2040_log_e : String → List ℕ → Io (Unit {0})
  rp2040_log_e format args = log log_level_error format args

  abbrev pub when : Bool → Io (Unit {0}) → Io (Unit {0})
  when b io = if b then io else pure tt

  -- The `Catch` of the two functions below, after `Throw(result)`.
  unfoldable pub thrown : {A : Type 0} → String → ℤ → Io A
  thrown format result = rp2040_log_e format (int_bits result ∷ int_bits result ∷ []) >>= λ _. halt

  -- The loop of `i2c_write_error_handling`, with the attempts left and the last `result`.
  unfoldable pub write_attempts : ℕ → ℕ → ℕ → List ℕ → Bool → ℤ → Io (Unit {0})
  unfolding thrown
  write_attempts zero i2c addr src nostop result =
      thrown "ERROR: During i2c_write. Returned value of %i %i \n" result
  write_attempts (suc left) i2c addr src nostop _ = do
    result ← ask (sdk.i2c_write_timeout_us i2c addr src nostop)
    let delay = when (ltb 0 left) (act (sdk.sleep_ms retry_delay))
    let retry = delay >> write_attempts left i2c addr src nostop result
    elim result [ pos n ↦ pure tt | negsuc n ↦ retry ]

  unfoldable pub i2c_write_error_handling : ℕ → ℕ → List ℕ → Bool → Io (Unit {0})
  i2c_write_error_handling i2c addr src nostop =
      write_attempts max_retries i2c addr src nostop (pos 0)

  -- The loop of `i2c_read_error_handling`; it returns what `dst` then holds.
  unfoldable pub read_attempts : ℕ → ℕ → ℕ → ℕ → Bool → ℤ → Io (List ℕ)
  unfolding thrown
  read_attempts zero i2c addr len nostop result =
      thrown "ERROR: During i2c_read. Returned value of %i %i \n" result
  read_attempts (suc left) i2c addr len nostop _ = do
    answer ← ask (sdk.i2c_read_timeout_us i2c addr len nostop)
    let delay = when (ltb 0 left) (act (sdk.sleep_ms retry_delay))
    let retry = delay >> read_attempts left i2c addr len nostop answer.0
    elim answer.0 [ pos n ↦ pure answer.1 | negsuc n ↦ retry ]

  unfoldable pub i2c_read_error_handling : ℕ → ℕ → ℕ → Bool → Io (List ℕ)
  i2c_read_error_handling i2c addr len nostop =
      read_attempts max_retries i2c addr len nostop (pos 0)

  unfoldable pub call_queue_try_add_nonblocking : Entry → ℕ → Io Bool
  call_queue_try_add_nonblocking func arg = ask (sdk.queue_try_add call_queue func arg)

  unfoldable pub call_queue_try_add : Entry → ℕ → Io (Unit {0})
  call_queue_try_add func arg = do
    room ← call_queue_try_add_nonblocking func arg
    if room then pure tt else (rp2040_log_e "ERROR: call_queue is full" [] >> halt)

  -- A register read: its address, then the bytes.
  unfoldable pub read_register : ℕ → ℕ → ℕ → ℕ → Io (List ℕ)
  read_register i2c addr reg len = do
    i2c_write_error_handling i2c addr (reg ∷ []) true
    i2c_read_error_handling i2c addr len false

  -- The loop of the drivers' tests that waits for the response to an interrupt: `meanwhile` is
  -- what core 1 and the interrupts do during a sleep. It returns `i`; a round past 1000 stops the
  -- core, so 1001 rounds are enough.
  unfoldable pub wait_rounds : (Devices sdk.World → Bool) → String → Io (Unit {0}) → ℕ → ℕ → Io ℕ
  wait_rounds completed message meanwhile zero i = halt
  wait_rounds completed message meanwhile (suc left) i = do
    let rest = wait_rounds completed message meanwhile left (i + 1)
    done ← get completed
    let round = do
      act (sdk.sleep_ms 10)
      act (sdk.setup tight_loop_contents)
      meanwhile
      if ltb 1000 (i + 1) then (rp2040_log_e message [] >>= λ _. halt) else rest
    if done then pure i else round

  unfoldable pub wait : (Devices sdk.World → Bool) → String → Io (Unit {0}) → ℕ → Io ℕ
  wait completed message meanwhile i = wait_rounds completed message meanwhile 1001 i

  -- The test that a pin has the level it was given; a failure reads it again for the message.
  unfoldable pub expect_level : ℕ → Bool → String → Io (Unit {0})
  expect_level gpio level message = do
    seen ← ask (sdk.gpio_get gpio)
    let fail = do
      again ← ask (sdk.gpio_get gpio)
      rp2040_log_e message (gpio ∷ (if again then 1 else 0) ∷ [])
      halt
    if (if level then seen else not seen) then pure tt else fail
