-- ===== src/Robot/ArmingTests.antt =====
-- The start of the gauge and a run of its interrupt, on a pin that is released.
use sr_firmware.Base.{true, ℕ, Bool, false, [], ◌∷◌, ◌==◌, if◌then◌else◌, refl}
use sr_firmware.Log.Valid.{init-IsValid}
use sr_firmware.Hardware.{State}
use sr_firmware.Hardware.Runs.{Returned}
use sr_firmware.Hardware.Samples.{at_rest}
use sr_firmware.Hardware.Sdk.{PicoSdk, Gpio, stop_core1, gpio_set_irq_enabled}
use sr_firmware.Battery.{gpio_interrupt}
use sr_firmware.Robot.Samples.{board, board-Answers}
use sr_firmware.Robot.Edges.{Edges, IrqPin, Meets}
use sr_firmware.Robot.Arming.{edge, parsed, Armed, Idle, handle_all, handle_all-Armed}
use sr_firmware.Machine.{◌>>◌}
use sr_firmware.Battery

-- `gpio_set_irq_enabled` on the gauge's pin.
abbrev enabled : ℕ → ℕ → Bool → Edges → Edges
enabled pin mask on edges =
    if pin == gpio_interrupt
    then (if mask == 4
        then record edges { fall = on }
        else if mask == 8
        then record edges { rise = on }
        else edges)
    else edges

abbrev signal : Gpio → Edges → Edges
signal (gpio_set_irq_enabled pin mask on) edges = enabled pin mask on edges
signal other edges = edges

abbrev armable : PicoSdk
armable = board {W = Edges} signal (λ queue func arg w. (true, w)) (λ w. ((stop_core1, 0), w))

abbrev pin : IrqPin armable
pin = record {
  edges = λ w. w;
  enables_fall = λ on w. refl;
  enables_rise = λ on w. refl;
  acknowledges = λ gpio mask w. refl;
  starts = λ gpio w. refl;
  puts = λ gpio on w. refl;
  directs = λ gpio out w. refl;
  unpulls = λ gpio w. refl;
  looks = λ gpio w. refl;
  queues = λ queue func arg w. refl;
  sleeps = λ ms w. refl;
  writes = λ i2c addr src nostop w. refl;
  reads = λ i2c addr len nostop w. refl;
}

abbrev start : State armable
start = at_rest (record { fall = false; rise = false })

start-Idle : Meets armable pin Idle start
start-Idle = record {
  holds = record { none_pending = refl; not_rising = refl };
  log_valid = init-IsValid.0;
}

handle_all-Armed_example :
    Returned armable
      (λ _ m'. Meets armable pin Armed m')
      ((Battery.init armable
          >> handle_all armable pin
              (board-Answers _ _ _)
              (edge 20 4 ∷ edge 10 4 ∷ parsed ∷ edge 20 8 ∷ []))
        start)
handle_all-Armed_example =
    handle_all-Armed armable pin (board-Answers _ _ _)
      (edge 20 4 ∷ edge 10 4 ∷ parsed ∷ edge 20 8 ∷ []) start start-Idle
