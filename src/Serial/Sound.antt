-- ===== src/Serial/Sound.antt =====
-- What `get_block` keeps whatever arrives: the log is valid and the receive buffer has its size.
use sr_firmware.Base.{
  ℕ, zero, suc, ◌+◌, if◌then◌else◌, Bool, true, false, Option, none, some, List, [], ◌∷◌, length,
  set, length-set, ◌≡◌, ◌∙◌, refl,
}
use sr_firmware.Log.Valid.{IsValid}
use sr_firmware.Machine.{Machine}
use sr_firmware.Serial.{
  Comm, RobotOps, handle_packet, handle_set_motor_level, handle_get_log, reply_state, u8,
  max_payload_size, set_motor_level,
}
use sr_firmware.Serial.Packets.{send_log_packet-frame}
use sr_firmware.Serial.Receive.{
  Input, Outcome, read_byte, read_payload, dispatch, check_frame, get_body, get_length, get_block,
}
use sr_firmware.Serial.State.{Rp2040State, zero_state}

pub record IsSound {W : Type 0} (c : Comm W) : Type 0 where
  pub log_valid : IsValid c.machine.log
  pub buffer_size : length c.rx_buffer ≡ max_payload_size

-- The log after a call that returns is valid.
unfoldable pub Leaves : {W A : Type 0} → Option (A × Machine W) → Type 0
Leaves none = Unit
Leaves (some (a, m)) = IsValid m.log

unfoldable pub SoundReply : {W A : Type 0} → Option (A × Comm W) → Type 0
SoundReply none = Unit
SoundReply (some (a, c)) = IsSound c

unfoldable pub SoundOutcome : {W : Type 0} → Option (Outcome W) → Type 0
SoundOutcome none = Unit
SoundOutcome (some o) = IsSound o.comm

pub length-read_payload :
    (left i : ℕ) (rx : List ℕ) (input : Input) → length (read_payload left i rx input).1 ≡ length rx
unfolding read_payload
length-read_payload zero i rx input = refl
length-read_payload (suc left) i rx [] = refl
length-read_payload (suc left) i rx (none ∷ input) = refl
length-read_payload (suc left) i rx (some b ∷ input) =
    length-read_payload left (i + 1) (set rx i (u8 b)) input ∙ length-set rx i (u8 b)

-- What src/robot.c does for `handle_packet` leaves a valid log valid, if it returns.
pub record Steady {W : Type 0} (robot : RobotOps W) : Type 0 where
  pub motors_leave :
      (s : Rp2040State) (m : Machine W) → IsValid m.log → Leaves (robot.set_motor_levels s m)
  pub state_leaves :
      (s : Rp2040State) (m : Machine W) → IsValid m.log → Leaves (robot.get_state s m)

module _ {W : Type 0} (robot : RobotOps W) (steady : Steady robot) where
  reply_state-Sound :
      (cmd : ℕ) (c : Comm W) (out : Option (Rp2040State × Machine W))
      → IsSound c
      → Leaves out
      → SoundReply (reply_state robot cmd c out)
  unfolding reply_state Leaves SoundReply
  reply_state-Sound cmd c none sound v = tt
  reply_state-Sound cmd c (some (s, m)) sound v = record {
    log_valid = v;
    buffer_size = sound.buffer_size;
  }

  after_motors :
      (levels : Rp2040State) (c : Comm W) (out : Option (Unit {0} × Machine W))
      → IsSound c
      → Leaves out
      → SoundReply (elim out [
        | none ↦ none
        | some (_, m) ↦ reply_state robot set_motor_level c (robot.get_state levels m)
      ])
  unfolding Leaves SoundReply
  after_motors levels c none sound v = tt
  after_motors levels c (some (_, m)) sound v =
      reply_state-Sound set_motor_level c (robot.get_state levels m) sound
        (steady.state_leaves levels m v)

  handle_get_log-Sound : (c : Comm W) → IsSound c → SoundReply (handle_get_log robot c)
  unfolding handle_get_log SoundReply
  handle_get_log-Sound c sound = record {
    log_valid = (send_log_packet-frame c.machine.log sound.log_valid).1;
    buffer_size = sound.buffer_size;
  }

  if-SoundReply :
      {A : Type 0} (b : Bool) (x y : Option (A × Comm W))
      → SoundReply x
      → SoundReply y
      → SoundReply (if b then x else y)
  if-SoundReply true x y p q = p
  if-SoundReply false x y p q = q

  same : (sent : List ℕ) (c : Comm W) → IsSound c → SoundReply (some (sent, c))
  unfolding SoundReply
  same sent c sound = sound

  handle_set_motor_level-Sound :
      (left right : ℕ) (c : Comm W)
      → IsSound c
      → SoundReply (handle_set_motor_level robot left right c)
  unfolding handle_set_motor_level
  handle_set_motor_level-Sound left right c sound =
      let levels = record zero_state { control_left = left; control_right = right } in
      after_motors levels c (robot.set_motor_levels levels c.machine) sound
        (steady.motors_leave levels c.machine sound.log_valid)

  state-Sound :
      (cmd : ℕ) (c : Comm W)
      → IsSound c
      → SoundReply (reply_state robot cmd c (robot.get_state zero_state c.machine))
  state-Sound cmd c sound =
      reply_state-Sound cmd c (robot.get_state zero_state c.machine) sound
        (steady.state_leaves zero_state c.machine sound.log_valid)

  pub handle_packet-Sound :
      (cmd : ℕ) (payload : List ℕ) (c : Comm W)
      → IsSound c
      → SoundReply (handle_packet robot cmd payload c)
  unfolding handle_packet
  handle_packet-Sound cmd payload c sound =
      search
        (
          if-SoundReply, same, handle_get_log-Sound, handle_set_motor_level-Sound, state-Sound,
          sound,
        )
        depth 12

  sound_of :
      (sent : List ℕ) (rest : Input) (c : Comm W)
      → IsSound c
      → SoundOutcome (some (record { sent = sent; rest = rest; comm = c }))
  unfolding SoundOutcome
  sound_of sent rest c sound = sound

  if-SoundOutcome :
      (b : Bool) (x y : Option (Outcome W))
      → SoundOutcome x
      → SoundOutcome y
      → SoundOutcome (if b then x else y)
  if-SoundOutcome true x y p q = p
  if-SoundOutcome false x y p q = q

  outcome-Sound :
      (rest : Input) (out : Option (List ℕ × Comm W))
      → SoundReply out
      → SoundOutcome (elim out [
        | none ↦ none
        | some (sent, c) ↦ some (record { sent = sent; rest = rest; comm = c })
      ])
  unfolding SoundReply SoundOutcome
  outcome-Sound rest none sound = tt
  outcome-Sound rest (some (sent, c)) sound = sound

  dispatch-Sound :
      (total : ℕ) (input : Input) (c : Comm W)
      → IsSound c
      → SoundOutcome (dispatch robot total input c)
  unfolding dispatch
  dispatch-Sound total input c sound = outcome-Sound input _ (handle_packet-Sound _ _ c sound)

  ruleset sound_rules = (if-SoundOutcome, sound_of, dispatch-Sound)

  check_frame-Sound :
      (l1 l2 total : ℕ) (input : Input) (c : Comm W)
      → IsSound c
      → SoundOutcome (check_frame robot l1 l2 total input c)
  unfolding check_frame read_byte
  check_frame-Sound l1 l2 total [] c sound = search (sound_rules, sound)
  check_frame-Sound l1 l2 total (none ∷ input) c sound = search (sound_rules, sound)
  check_frame-Sound l1 l2 total (some low ∷ []) c sound = search (sound_rules, sound)
  check_frame-Sound l1 l2 total (some low ∷ none ∷ input) c sound = search (sound_rules, sound)
  check_frame-Sound l1 l2 total (some low ∷ some high ∷ input) c sound = search (sound_rules, sound)

  get_body-Sound :
      (l1 l2 total : ℕ) (input : Input) (c : Comm W)
      → IsSound c
      → SoundOutcome (get_body robot l1 l2 total input c)
  unfolding get_body
  get_body-Sound l1 l2 total input c sound =
      let got = read_payload total 0 c.rx_buffer input in
      let c' = record c { rx_buffer = got.1 } in
      let sound' : IsSound c' = record {
        log_valid = sound.log_valid;
        buffer_size = length-read_payload total 0 c.rx_buffer input ∙ sound.buffer_size;
      } in
      search (sound_rules, check_frame-Sound, sound')

  get_length-Sound :
      (input : Input) (c : Comm W) → IsSound c → SoundOutcome (get_length robot input c)
  unfolding get_length read_byte
  get_length-Sound [] c sound = search (sound_rules, sound)
  get_length-Sound (none ∷ input) c sound = search (sound_rules, sound)
  get_length-Sound (some l1 ∷ []) c sound = search (sound_rules, sound)
  get_length-Sound (some l1 ∷ none ∷ input) c sound = search (sound_rules, sound)
  get_length-Sound (some l1 ∷ some l2 ∷ input) c sound = search (sound_rules, get_body-Sound, sound)

  pub get_block-Sound :
      (input : Input) (c : Comm W) → IsSound c → SoundOutcome (get_block robot input c)
  unfolding get_block read_byte
  get_block-Sound [] c sound = search (sound_rules, sound)
  get_block-Sound (none ∷ input) c sound = search (sound_rules, sound)
  get_block-Sound (some b ∷ input) c sound = search (sound_rules, get_length-Sound, sound)
