-- ===== src/Events/Names.antt =====
-- The text that `gpio_event_string` writes.
use sr_firmware.Base.{
  ℕ, zero, suc, ◌+◌, ◌*◌, ◌/◌, ◌%◌, ◌^◌, ◌≤◌, ◌<◌, ◌==◌, ◌!=◌, bit_and, if◌then◌else◌, true, List,
  [], ◌∷◌, ◌++◌, length, length-append,
}
use sr_firmware.Base.{
  Bool-cases, inl, inr, ◌≡◌, refl, arith, all_below, all_below_sound, list_eq, list_eq_sound,
}
use sr_firmware.BitOps.{bit_not}
use sr_firmware.Events.{separator, gpio_irq_str, event_loop, gpio_event_string}

name-bound : (i : ℕ) → length (gpio_irq_str i) ≤ 10
unfolding gpio_irq_str
name-bound zero = omega arith
name-bound (suc zero) = omega arith
name-bound (suc (suc zero)) = omega arith
name-bound (suc (suc (suc i))) = omega arith

separator-bound : (events : ℕ) → length (separator events) ≤ 2
separator-bound events = elim (Bool-cases (events != 0)) [
  | inl e ↦ rw e (omega arith)
  | inr e ↦ rw e (omega arith)
]

event_loop-bound : (left i events : ℕ) → length (event_loop left i events) ≤ 12 * left + 1
unfolding event_loop
event_loop-bound zero i events = omega arith
event_loop-bound (suc left) i events =
    let events' = bit_and events (bit_not (1 * 2 ^ i)) in
    let going_on = event_loop left (i + 1) events' in
    elim (Bool-cases (bit_and events (1 * 2 ^ i) != 0)) [
      | inl e ↦ rw e (
          omega (
            arith,
            length-append (gpio_irq_str i) (separator events' ++ going_on),
            length-append (separator events') going_on,
            name-bound i,
            separator-bound events',
            event_loop-bound left (i + 1) events',
          ))
      | inr e ↦ rw e (omega (arith, event_loop-bound left (i + 1) events))
    ]

-- For every mask, `gpio_event_string` writes at most 49 bytes, the terminator included.
gpio_event_string-bound : (events : ℕ) → length (gpio_event_string events) ≤ 49
unfolding gpio_event_string
gpio_event_string-bound events = event_loop-bound 4 0 events

-- The names of the events in a mask, from the lowest bit on.
pub names : ℕ → ℕ → ℕ → List (List ℕ)
names zero i events = []
names (suc left) i events =
    let more = names left (i + 1) (events / 2) in
    if events % 2 == 1 then gpio_irq_str i ∷ more else more

-- Texts with ", " between them.
pub listed : List (List ℕ) → List ℕ
listed [] = []
listed (name ∷ []) = name
listed (name ∷ next ∷ more) = name ++ (44 ∷ 32 ∷ listed (next ∷ more))

names_table :
    all_below 16
      (λ events. list_eq (gpio_event_string events) (listed (names 4 0 events) ++ 0 ∷ []))
    ≡ true
unfolding all_below list_eq gpio_event_string listed names gpio_irq_str
names_table = refl

-- For a mask of the four GPIO events, `gpio_event_string` writes the names of the events that are
-- set, from the lowest bit on, with a comma and a space between two, and a terminator.
pub gpio_event_string-names :
    (events : ℕ) → events < 16 → gpio_event_string events ≡ listed (names 4 0 events) ++ 0 ∷ []
gpio_event_string-names events h = list_eq_sound _ _ (all_below_sound 16 _ events h names_table)
