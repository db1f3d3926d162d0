-- ===== src/Events/Tests.antt =====
-- Checks of the names of GPIO events on concrete input.
use sr_firmware.Base.{◌++◌, ◌≡◌, [], ◌∷◌, arith}
use sr_firmware.Events.{gpio_event_string}
use sr_firmware.Events.Names.{gpio_event_string-names, names, listed}

gpio_event_string-names_example : gpio_event_string 12 ≡ listed (names 4 0 12) ++ 0 ∷ []
gpio_event_string-names_example = gpio_event_string-names 12 (omega arith)
