-- ===== src/Serial/State.antt =====
-- `RP2040_STATE` of include/serial_comm_manager.h: a packed struct, sent as it lies in memory,
-- each field with its low byte first.
use sr_firmware.Base.{ℕ, ◌/◌, ◌%◌, ◌≡◌, refl, List, [], ◌∷◌, ◌++◌, length}

pub record Rp2040State : Type 0 where
  pub control_left : ℕ
  pub control_right : ℕ
  pub faults_left : ℕ
  pub faults_right : ℕ
  pub encoder_left : ℕ
  pub encoder_right : ℕ
  pub voltage : ℕ
  pub safety_status : ℕ
  pub temperature : ℕ
  pub state_of_health : ℕ
  pub flags : ℕ
  pub max77976_chg_details : ℕ
  pub wireless_charger_attached : ℕ
  pub usb_charger_voltage : ℕ
  pub wireless_charger_vrect : ℕ

-- After `memset(&state, 0, sizeof(RP2040_STATE))`.
abbrev pub zero_state : Rp2040State
zero_state = record {
  control_left = 0;
  control_right = 0;
  faults_left = 0;
  faults_right = 0;
  encoder_left = 0;
  encoder_right = 0;
  voltage = 0;
  safety_status = 0;
  temperature = 0;
  state_of_health = 0;
  flags = 0;
  max77976_chg_details = 0;
  wireless_charger_attached = 0;
  usb_charger_voltage = 0;
  wireless_charger_vrect = 0;
}

abbrev pub bytes2 : ℕ → List ℕ
bytes2 x = x % 256 ∷ x / 256 % 256 ∷ []

abbrev pub bytes4 : ℕ → List ℕ
bytes4 x = x % 256 ∷ x / 256 % 256 ∷ x / 65536 % 256 ∷ x / 16777216 % 256 ∷ []

-- The `sizeof(RP2040_STATE)` bytes at the struct's address.
unfoldable pub state_bytes : Rp2040State → List ℕ
state_bytes s =
    s.control_left
    ∷ s.control_right
    ∷ s.faults_left
    ∷ s.faults_right
    ∷ (bytes4 s.encoder_left
        ++ bytes4 s.encoder_right
        ++ bytes2 s.voltage
        ++ s.safety_status
          ∷ (bytes2 s.temperature
              ++ s.state_of_health
                ∷ (bytes2 s.flags
                    ++ bytes4 s.max77976_chg_details
                    ++ s.wireless_charger_attached
                      ∷ (bytes2 s.usb_charger_voltage ++ bytes2 s.wireless_charger_vrect))))

size : (s : Rp2040State) → length (state_bytes s) ≡ 29
unfolding state_bytes
size s = refl
