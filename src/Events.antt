-- ===== src/Events.antt =====
-- src/interupts.c, the names of the GPIO events that are set in a mask.
pub mod Names
mod Tests
use sr_firmware.Base.{
  ℕ, zero, suc, ◌+◌, ◌*◌, ◌%◌, ◌^◌, ◌!=◌, bit_and, if◌then◌else◌, List, [], ◌∷◌, ◌++◌,
}
use sr_firmware.BitOps.{bit_not}

-- `gpio_irq_str`, in ASCII: LEVEL_LOW, LEVEL_HIGH, EDGE_FALL, EDGE_RISE.
pub gpio_irq_str : ℕ → List ℕ
gpio_irq_str zero = 76 ∷ 69 ∷ 86 ∷ 69 ∷ 76 ∷ 95 ∷ 76 ∷ 79 ∷ 87 ∷ []
gpio_irq_str (suc zero) = 76 ∷ 69 ∷ 86 ∷ 69 ∷ 76 ∷ 95 ∷ 72 ∷ 73 ∷ 71 ∷ 72 ∷ []
gpio_irq_str (suc (suc zero)) = 69 ∷ 68 ∷ 71 ∷ 69 ∷ 95 ∷ 70 ∷ 65 ∷ 76 ∷ 76 ∷ []
gpio_irq_str (suc (suc (suc i))) = 69 ∷ 68 ∷ 71 ∷ 69 ∷ 95 ∷ 82 ∷ 73 ∷ 83 ∷ 69 ∷ []

-- `", "`, if more events follow.
abbrev pub separator : ℕ → List ℕ
separator events = if events != 0 then 44 ∷ 32 ∷ [] else []

-- The loop, with the rounds left, and the terminator: what it writes at `buf`.
pub event_loop : ℕ → ℕ → ℕ → List ℕ
event_loop zero i events = 0 ∷ []
event_loop (suc left) i events =
    let mask = 1 * 2 ^ i in
    let events' = bit_and events (bit_not mask) in
    let skipped = event_loop left (i + 1) events in
    let going_on = event_loop left (i + 1) events' in
    if bit_and events mask != 0 then gpio_irq_str i ++ (separator events' ++ going_on) else skipped

unfoldable pub gpio_event_string : ℕ → List ℕ
unfolding event_loop gpio_irq_str
gpio_event_string events = event_loop 4 0 events
