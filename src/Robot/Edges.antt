-- ===== src/Robot/Edges.antt =====
-- The interrupt enables of the battery gauge's pin, and the programs of src/bq27742_g1.c that leave them
-- alone: what only uses the bus, the log and the pin's level.
use Prim.Native.String.{String}
use sr_firmware.Base.{
  ℕ, zero, suc, Bool, true, false, if◌then◌else◌, List, ◌≡◌, refl, ◌∙◌, subst, sym, arith,
}
use sr_firmware.Log.{log_level_warning, log_level_error}
use sr_firmware.Log.Valid.{IsValid}
use sr_firmware.Machine.{pure, ◌>>=◌}
use sr_firmware.Hardware.{
  State, Io, act, ask, rp2040_log_w, rp2040_log_e, retry_delay, i2c_write_error_handling,
  i2c_read_error_handling,
}
use sr_firmware.Hardware.Bus.{after_failures, i2c_write_error_handling-Written}
use sr_firmware.Hardware.Reads.{i2c_read_error_handling-Read}
use sr_firmware.Hardware.Returns.{log-Said}
use sr_firmware.Hardware.Runs.{Runs, bind-Runs}
use sr_firmware.Hardware.Sdk.{
  PicoSdk, Entry, Queue, gpio_acknowledge_irq, gpio_set_irq_enabled, gpio_init, gpio_put,
  gpio_set_dir, gpio_disable_pulls,
}
use sr_firmware.Battery.{gpio_interrupt}
use sr_firmware.Robot.Returns.{Answers}

-- For which edges of the gauge's pin the interrupt is enabled.
pub record Edges : Type 0 where
  pub fall : Bool
  pub rise : Bool

-- The enabling of the pin's edges changes by `gpio_set_irq_enabled` only.
pub record IrqPin (sdk : PicoSdk) : Type 0 where
  pub edges : sdk.World → Edges
  pub enables_fall :
      (on : Bool) (w : sdk.World)
      → edges (sdk.gpio (gpio_set_irq_enabled gpio_interrupt 4 on) w)
        ≡ record (edges w) { fall = on }
  pub enables_rise :
      (on : Bool) (w : sdk.World)
      → edges (sdk.gpio (gpio_set_irq_enabled gpio_interrupt 8 on) w)
        ≡ record (edges w) { rise = on }
  pub acknowledges :
      (gpio mask : ℕ) (w : sdk.World)
      → edges (sdk.gpio (gpio_acknowledge_irq gpio mask) w) ≡ edges w
  pub starts : (gpio : ℕ) (w : sdk.World) → edges (sdk.gpio (gpio_init gpio) w) ≡ edges w
  pub puts :
      (gpio : ℕ) (on : Bool) (w : sdk.World) → edges (sdk.gpio (gpio_put gpio on) w) ≡ edges w
  pub directs :
      (gpio : ℕ) (out : Bool) (w : sdk.World) → edges (sdk.gpio (gpio_set_dir gpio out) w) ≡ edges w
  pub unpulls : (gpio : ℕ) (w : sdk.World) → edges (sdk.gpio (gpio_disable_pulls gpio) w) ≡ edges w
  pub looks : (gpio : ℕ) (w : sdk.World) → edges (sdk.gpio_get gpio w).1 ≡ edges w
  pub queues :
      (queue : Queue) (func : Entry) (arg : ℕ) (w : sdk.World)
      → edges (sdk.queue_try_add queue func arg w).1 ≡ edges w
  pub sleeps : (ms : ℕ) (w : sdk.World) → edges (sdk.sleep_ms ms w) ≡ edges w
  pub writes :
      (i2c addr : ℕ) (src : List ℕ) (nostop : Bool) (w : sdk.World)
      → edges (sdk.i2c_write_timeout_us i2c addr src nostop w).1 ≡ edges w
  pub reads :
      (i2c addr len : ℕ) (nostop : Bool) (w : sdk.World)
      → edges (sdk.i2c_read_timeout_us i2c addr len nostop w).1 ≡ edges w

-- A condition on the enables and on whether an interrupt is pending.
abbrev pub Condition : Type 1
Condition = Edges → Bool → Type 0

module _ (sdk : PicoSdk) (pin : IrqPin sdk) (P : Condition) where
  -- The state meets the condition, and its log is valid.
  pub record Meets (m : State sdk) : Type 0 where
    pub holds : P (pin.edges m.world.outside) m.world.bq27742_g1_interrupt_pending
    pub log_valid : IsValid m.log

  -- The program returns, and keeps the condition.
  unfoldable pub Keeps : {A : Type 0} → Io sdk A → Type 0
  Keeps io = (m : State sdk) → Meets m → Runs sdk (λ _ m'. Meets m') (io m)

  pub pure-Keeps : {A : Type 0} (a : A) → Keeps (pure a)
  unfolding Keeps Runs
  pure-Keeps a m v = v

  pub bind-Keeps :
      {A B : Type 0} (io : Io sdk A) (next : A → Io sdk B)
      → Keeps io
      → ((a : A) → Keeps (next a))
      → Keeps (io >>= next)
  unfolding Keeps
  bind-Keeps io next first rest m v =
      bind-Runs sdk (λ _ m'. Meets m') (λ _ m'. Meets m') (io m) next (first m v)
        (λ a m' p. rest a m' p)

  pub if-Keeps :
      {A : Type 0} (b : Bool) (x y : Io sdk A) → Keeps x → Keeps y → Keeps (if b then x else y)
  if-Keeps true x y p q = p
  if-Keeps false x y p q = q

  -- Only the outside has changed, and not the enables.
  pub moved :
      (m : State sdk) (w : sdk.World)
      → pin.edges w ≡ pin.edges m.world.outside
      → Meets m
      → Meets (record m { world = record (m.world) { outside = w } })
  moved m w e v = record {
    holds = subst (λ (g : Edges). P g m.world.bq27742_g1_interrupt_pending) (sym e) v.holds;
    log_valid = v.log_valid;
  }

  -- A call of the SDK that leaves the enables alone.
  act-Keeps :
      (call : sdk.World → sdk.World)
      → ((w : sdk.World) → pin.edges (call w) ≡ pin.edges w)
      → Keeps (act sdk call)
  unfolding Keeps Runs act
  act-Keeps call same m v = moved m _ (same m.world.outside) v

  pub acknowledge-Keeps :
      (gpio mask : ℕ) → Keeps (act sdk (sdk.gpio (gpio_acknowledge_irq gpio mask)))
  acknowledge-Keeps gpio mask = act-Keeps _ (pin.acknowledges gpio mask)

  pub start-Keeps : (gpio : ℕ) → Keeps (act sdk (sdk.gpio (gpio_init gpio)))
  start-Keeps gpio = act-Keeps _ (pin.starts gpio)

  pub put-Keeps : (gpio : ℕ) (on : Bool) → Keeps (act sdk (sdk.gpio (gpio_put gpio on)))
  put-Keeps gpio on = act-Keeps _ (pin.puts gpio on)

  pub direct-Keeps : (gpio : ℕ) (out : Bool) → Keeps (act sdk (sdk.gpio (gpio_set_dir gpio out)))
  direct-Keeps gpio out = act-Keeps _ (pin.directs gpio out)

  pub unpull-Keeps : (gpio : ℕ) → Keeps (act sdk (sdk.gpio (gpio_disable_pulls gpio)))
  unpull-Keeps gpio = act-Keeps _ (pin.unpulls gpio)

  pub look-Keeps : (gpio : ℕ) → Keeps (ask sdk (sdk.gpio_get gpio))
  unfolding Keeps Runs ask
  look-Keeps gpio m v = moved m _ (pin.looks gpio m.world.outside) v

  pub sleep-Keeps : (ms : ℕ) → Keeps (act sdk (sdk.sleep_ms ms))
  sleep-Keeps ms = act-Keeps _ (pin.sleeps ms)

  pub log_w-Keeps : (format : String) (args : List ℕ) → Keeps (rp2040_log_w sdk format args)
  unfolding Keeps Runs
  log_w-Keeps format args m v =
      let d = log-Said sdk log_level_warning format args m (omega arith) v.log_valid in
      rw (d.ran) (record { holds = v.holds; log_valid = d.valid })

  pub log_e-Keeps : (format : String) (args : List ℕ) → Keeps (rp2040_log_e sdk format args)
  unfolding Keeps Runs
  log_e-Keeps format args m v =
      let d = log-Said sdk log_level_error format args m (omega arith) v.log_valid in
      rw (d.ran) (record { holds = v.holds; log_valid = d.valid })

  failures-edges :
      (call : sdk.World → sdk.World)
      → ((w : sdk.World) → pin.edges (call w) ≡ pin.edges w)
      → (k : ℕ) (w : sdk.World) → pin.edges (after_failures sdk call k w) ≡ pin.edges w
  unfolding after_failures
  failures-edges call same zero w = refl
  failures-edges call same (suc k) w =
      failures-edges call same k (sdk.sleep_ms retry_delay (call w))
      ∙ pin.sleeps retry_delay (call w)
      ∙ same w

  module _ (bus : Answers sdk) where
    pub write-Keeps :
        (i2c addr : ℕ) (src : List ℕ) (nostop : Bool)
        → Keeps (i2c_write_error_handling sdk i2c addr src nostop)
    unfolding Keeps Runs
    write-Keeps i2c addr src nostop m v =
        let (k, h, ok) = bus.writes i2c addr src nostop m.world.outside in
        let w = i2c_write_error_handling-Written sdk i2c addr src nostop k m h ok in
        rw (w.returns) (
          moved m _
            (pin.writes i2c addr src nostop _
              ∙ failures-edges (λ o. (sdk.i2c_write_timeout_us i2c addr src nostop o).1)
                  (pin.writes i2c addr src nostop) w.attempt m.world.outside)
            v)

    pub read-Keeps :
        (i2c addr len : ℕ) (nostop : Bool) → Keeps (i2c_read_error_handling sdk i2c addr len nostop)
    unfolding Keeps Runs
    read-Keeps i2c addr len nostop m v =
        let (k, h, ok) = bus.reads i2c addr len nostop m.world.outside in
        let r = i2c_read_error_handling-Read sdk i2c addr len nostop k m h ok in
        rw (r.returns) (
          moved m _
            (pin.reads i2c addr len nostop _
              ∙ failures-edges (λ o. (sdk.i2c_read_timeout_us i2c addr len nostop o).1)
                  (pin.reads i2c addr len nostop) r.attempt m.world.outside)
            v)

    pub ruleset keeps = (
      pure-Keeps, bind-Keeps, if-Keeps, acknowledge-Keeps, start-Keeps, put-Keeps, direct-Keeps,
      unpull-Keeps, look-Keeps, sleep-Keeps, log_w-Keeps, log_e-Keeps, write-Keeps, read-Keeps,
    )
