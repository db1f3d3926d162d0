-- ===== src/Robot/Arming.antt =====
-- The interrupt of the battery gauge, which src/bq27742_g1.c arms for one edge at a time: for the
-- falling edge while no interrupt is pending, for the rising edge while one is.
use sr_firmware.Base.{ℕ, Bool, true, false, not, List, [], ◌∷◌, ◌≡◌, ap, ◌∙◌, sym, arith}
use sr_firmware.Log.Valid.{IsValid}
use sr_firmware.Machine.{pure, ◌>>=◌, ◌>>◌}
use sr_firmware.Hardware.{
  State, Io, act, ask, get, modify, when, gpio_irq_edge_fall, gpio_irq_edge_rise,
  call_queue_try_add_nonblocking,
}
use sr_firmware.Hardware.Runs.{Runs, bind-Runs, if-Runs, Returned, Runs-Returned}
use sr_firmware.Hardware.Sdk.{
  PicoSdk, call_queue, gpio_set_irq_enabled, bq27742_g1_parse_interrupt_vals,
}
use sr_firmware.Battery
use sr_firmware.Battery.{gpio_interrupt}
use sr_firmware.Robot.Configuring.{
  read_bytes-Keeps, control-Keeps, warn-Keeps, configure_host_interrupts-Keeps,
}
use sr_firmware.Robot.Edges.{
  Edges, IrqPin, Meets, Keeps, keeps, pure-Keeps, bind-Keeps, if-Keeps, acknowledge-Keeps, moved,
}
use sr_firmware.Robot.Returns.{Answers}

-- What can happen to the gauge's interrupt.
pub data Event : Type 0 where
  edge : ℕ → ℕ → Event
  parsed : Event

-- The falling edge is enabled just when no interrupt is pending, the rising one just when one is.
pub record Armed (edges : Edges) (pending : Bool) : Type 0 where
  pub falling : edges.fall ≡ not pending
  pub rising : edges.rise ≡ pending

-- No interrupt is pending, and the rising edge is not enabled.
pub record Idle (edges : Edges) (pending : Bool) : Type 0 where
  pub none_pending : pending ≡ false
  pub not_rising : edges.rise ≡ false

module _ (sdk : PicoSdk) (pin : IrqPin sdk) where
  rearm_assert_irq-Keeps :
      (m : State sdk)
      → IsValid m.log
      → Runs sdk (λ _ m'. Meets sdk pin Armed m') (Battery.rearm_assert_irq sdk m)
  unfolding Runs Battery.rearm_assert_irq act modify
  rearm_assert_irq-Keeps m v =
      let w = m.world.outside in
      let r = pin.enables_rise false w in
      let f = pin.enables_fall true (sdk.gpio (gpio_set_irq_enabled gpio_interrupt 8 false) w) in
      record {
        holds = record {
          falling = ap (λ (g : Edges). g.fall) f;
          rising = ap (λ (g : Edges). g.rise) f ∙ ap (λ (g : Edges). g.rise) r;
        };
        log_valid = v;
      }

  rearm_if_released-Keeps : Keeps sdk pin Armed (Battery.rearm_if_released sdk)
  unfolding Keeps Battery.rearm_if_released ask Runs
  rearm_if_released-Keeps m v =
      let w = m.world.outside in
      let v' =
        moved sdk pin Armed m (sdk.gpio_get gpio_interrupt w).1 (pin.looks gpio_interrupt w) v in
      if-Runs sdk (λ _ m'. Meets sdk pin Armed m') (sdk.gpio_get gpio_interrupt w).0 _ _ _
        (λ _. rearm_assert_irq-Keeps _ v'.log_valid) (λ _. v')

  -- An interrupt becomes pending, and its entry is put on the call queue; with no room for it the
  -- pin is looked at.
  claim-Runs :
      (m : State sdk)
      → m.world.bq27742_g1_interrupt_pending ≡ false
      → Meets sdk pin Armed m
      → Runs sdk
          (λ _ m'. Meets sdk pin Armed m')
          ((do
            modify sdk (λ d. record d { bq27742_g1_interrupt_pending = true })
            act sdk (sdk.gpio (gpio_set_irq_enabled gpio_interrupt gpio_irq_edge_fall false))
            act sdk (sdk.gpio (gpio_set_irq_enabled gpio_interrupt gpio_irq_edge_rise true))
            queued ← call_queue_try_add_nonblocking sdk bq27742_g1_parse_interrupt_vals 0
            when sdk (not queued) (Battery.rearm_if_released sdk))
            m)
  unfolding modify act call_queue_try_add_nonblocking ask Runs Keeps
  claim-Runs m free v =
      let w = m.world.outside in
      let w1 = sdk.gpio (gpio_set_irq_enabled gpio_interrupt 4 false) w in
      let w2 = sdk.gpio (gpio_set_irq_enabled gpio_interrupt 8 true) w1 in
      let add = sdk.queue_try_add call_queue bq27742_g1_parse_interrupt_vals 0 w2 in
      let f = pin.enables_fall false w in
      let r = pin.enables_rise true w1 in
      let q = pin.queues call_queue bq27742_g1_parse_interrupt_vals 0 w2 in
      let v' : Meets sdk pin Armed (record m {
        world = record (m.world) { outside = add.1; bq27742_g1_interrupt_pending = true };
      }) =
        record {
          holds = record {
            falling =
                ap (λ (g : Edges). g.fall) q
                ∙ ap (λ (g : Edges). g.fall) r
                ∙ ap (λ (g : Edges). g.fall) f;
            rising = ap (λ (g : Edges). g.rise) q ∙ ap (λ (g : Edges). g.rise) r;
          };
          log_valid = v.log_valid;
        } in
      if-Runs sdk (λ _ m'. Meets sdk pin Armed m') (not add.0) _ _ _
        (λ _. rearm_if_released-Keeps _ v') (λ _. v')

  queue_parse_interrupt-Keeps : Keeps sdk pin Armed (Battery.queue_parse_interrupt sdk)
  unfolding Keeps Battery.queue_parse_interrupt get Runs
  queue_parse_interrupt-Keeps m v =
      if-Runs sdk (λ _ m'. Meets sdk pin Armed m') (not m.world.bq27742_g1_interrupt_pending) _ _ m
        (λ e. claim-Runs m (ground (arith, e)) v) (λ _. v)

  on_interrupt-Keeps :
      (gpio event_mask : ℕ) → Keeps sdk pin Armed (Battery.on_interrupt sdk gpio event_mask)
  unfolding Battery.on_interrupt
  on_interrupt-Keeps gpio event_mask =
      search
        (
          pure-Keeps, bind-Keeps, if-Keeps, acknowledge-Keeps, rearm_if_released-Keeps,
          queue_parse_interrupt-Keeps,
        )
        depth 12

  -- The program returns, and arms an idle pin.
  unfoldable Arms : {A : Type 0} → Io sdk A → Type 0
  Arms io =
      (m : State sdk) → Meets sdk pin Idle m → Runs sdk (λ _ m'. Meets sdk pin Armed m') (io m)

  after-Arms :
      {A B : Type 0} (io : Io sdk A) (next : A → Io sdk B)
      → Keeps sdk pin Idle io
      → ((a : A) → Arms (next a))
      → Arms (io >>= next)
  unfolding Arms Keeps
  after-Arms io next first rest m v =
      bind-Runs sdk _ (λ _ m'. Meets sdk pin Armed m') (io m) next (first m v)
        (λ a m' p. rest a m' p)

  arm-Arms :
      {B : Type 0} (next : Unit {0} → Io sdk B)
      → Keeps sdk pin Armed (next tt)
      → Arms (act sdk (sdk.gpio (gpio_set_irq_enabled gpio_interrupt 4 true)) >>= next)
  unfolding Arms Keeps act
  arm-Arms next rest m v =
      let f = pin.enables_fall true m.world.outside in
      rest _ (record {
        holds = record {
          falling = ap (λ (g : Edges). g.fall) f ∙ ap not (sym v.holds.none_pending);
          rising = ap (λ (g : Edges). g.rise) f ∙ v.holds.not_rising ∙ sym v.holds.none_pending;
        };
        log_valid = v.log_valid;
      })

  module _ (bus : Answers sdk) where
    parse_interrupt_vals-Keeps : Keeps sdk pin Armed (Battery.parse_interrupt_vals sdk)
    unfolding Battery.parse_interrupt_vals
    parse_interrupt_vals-Keeps =
        search (keeps, read_bytes-Keeps, control-Keeps, warn-Keeps, rearm_if_released-Keeps) depth
          32

    -- An interrupt on some pin, or core 1 running the entry that such an interrupt has queued.
    abbrev pub handle : Event → Io sdk (Unit {0})
    handle (edge gpio event_mask) = Battery.on_interrupt sdk gpio event_mask
    handle parsed = Battery.parse_interrupt_vals sdk >>= λ _. pure tt

    abbrev pub handle_all : List Event → Io sdk (Unit {0})
    handle_all [] = pure tt
    handle_all (event ∷ events) = handle event >> handle_all events

    handle-Keeps : (event : Event) → Keeps sdk pin Armed (handle event)
    handle-Keeps (edge gpio event_mask) = on_interrupt-Keeps gpio event_mask
    handle-Keeps parsed = search (keeps, parse_interrupt_vals-Keeps)

    handle_all-Keeps : (events : List Event) → Keeps sdk pin Armed (handle_all events)
    handle_all-Keeps [] = pure-Keeps sdk pin Armed tt
    handle_all-Keeps (event ∷ events) =
        bind-Keeps sdk pin Armed (handle event) (λ _. handle_all events) (handle-Keeps event)
          (λ _. handle_all-Keeps events)

    init-Arms : Arms (Battery.init sdk)
    unfolding Battery.init
    init-Arms =
        search
          (
            after-Arms, arm-Arms, keeps, control-Keeps, configure_host_interrupts-Keeps,
            queue_parse_interrupt-Keeps,
          )
          depth 24

    -- On a bus that acknowledges one of three attempts, and from a state in which no interrupt of
    -- the gauge is pending, the rising edge of its pin is not enabled and the log is valid:
    -- `bq27742_g1_init`, followed by every sequence of interrupts on any pins and of runs of
    -- `bq27742_g1_parse_interrupt_vals`, returns and leaves the pin armed for one edge: for the
    -- falling edge just when no interrupt is pending, for the rising edge just when one is, whether
    -- the call queue has room or not and whatever level the pin has; and the log is left valid.
    pub handle_all-Armed :
        (events : List Event) (m : State sdk)
        → Meets sdk pin Idle m
        → Returned sdk (λ _ m'. Meets sdk pin Armed m') ((Battery.init sdk >> handle_all events) m)
    unfolding Arms Keeps
    handle_all-Armed events m v = Runs-Returned sdk _ _ (
        bind-Runs sdk _ (λ _ m'. Meets sdk pin Armed m') (Battery.init sdk m)
          (λ _. handle_all events) (init-Arms m v) (λ _ m' p. handle_all-Keeps events m' p))
