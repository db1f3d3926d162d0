-- ===== src/Serial.antt =====
-- src/serial_comm_manager.c, the framed protocol with the Android host. A function that transmits
-- returns the bytes that it puts. `Receive` has `get_block` and what it calls.
pub mod State
pub mod Receive
pub mod Packets
pub mod Fill
pub mod Arrival
pub mod Delivery
pub mod Rejection
pub mod Progress
pub mod Sound
mod Tests
use sr_firmware.Base.{
  ℕ, zero, suc, ◌+◌, ◌-◌, ◌*◌, ◌/◌, ◌%◌, ◌^◌, ◌==◌, ◌!=◌, ltb, ◌&&◌, ◌||◌, if◌then◌else◌,
}
use sr_firmware.Base.{
  Bool, true, false, Option, none, some, List, [], ◌∷◌, ◌++◌, length, take, drop, set, get_or,
  bit_and, bit_or,
}
use sr_firmware.Crc.{crc16_ccitt}
use sr_firmware.Log.{CircularBufferLog, get_byte_count, get_crc, flush}
use sr_firmware.Machine.{Machine}
use State.{Rp2040State, zero_state, state_bytes}

-- include/serial_comm_manager.h and include/version.h
abbrev pub start_marker : ℕ
start_marker = 0xfe

abbrev pub get_log : ℕ
get_log = 0x00

abbrev pub set_motor_level : ℕ
set_motor_level = 0x01

abbrev pub reset_state : ℕ
reset_state = 0x02

abbrev pub get_state : ℕ
get_state = 0x03

abbrev pub get_version : ℕ
get_version = 0x06

abbrev pub nack : ℕ
nack = 0xfc

abbrev pub ack : ℕ
ack = 0xfd

abbrev pub max_payload_size : ℕ
max_payload_size = 1024

abbrev pub version_bytes : List ℕ
version_bytes = 0x01 ∷ 0x02 ∷ 0x00 ∷ []

abbrev pub u8 : ℕ → ℕ
u8 n = n % 2 ^ 8

abbrev pub u16 : ℕ → ℕ
u16 n = n % 2 ^ 16

-- The two bytes of a `uint16_t`, the low one first; `x & 0xFF` and `(x >> 8) & 0xFF`.
abbrev pub low_byte : ℕ → ℕ
low_byte x = bit_and x 0xff

abbrev pub high_byte : ℕ → ℕ
high_byte x = bit_and (x / 2 ^ 8) 0xff

-- `(uint16_t)low | ((uint16_t)high << 8)`
abbrev pub joined : ℕ → ℕ → ℕ
joined low high = u16 (bit_or (u16 low) (u16 high * 2 ^ 8))

-- The list is the `len` bytes at `data`; the empty list stands for `len == 0`, with which `data`
-- is not read.
unfoldable pub send_framed_packet : ℕ → List ℕ → List ℕ
send_framed_packet cmd data' =
    let total_payload_len = u16 (length data' + 1) in
    let len_bytes = low_byte total_payload_len ∷ high_byte total_payload_len ∷ [] in
    let header_crc = crc16_ccitt (cmd ∷ []) (crc16_ccitt len_bytes 0xffff) in
    let crc = crc16_ccitt data' header_crc in
    start_marker
    ∷ low_byte total_payload_len
    ∷ high_byte total_payload_len
    ∷ cmd
    ∷ (data' ++ low_byte crc ∷ high_byte crc ∷ [])

unfoldable pub send_log_packet : CircularBufferLog → List ℕ × CircularBufferLog
send_log_packet log =
    let total_payload_len = u16 (get_byte_count log + 1) in
    let len_bytes = low_byte total_payload_len ∷ high_byte total_payload_len ∷ [] in
    let crc = get_crc log (crc16_ccitt (get_log ∷ []) (crc16_ccitt len_bytes 0xffff)) in
    let (printed, log') = flush log in
    (
      start_marker
          ∷ low_byte total_payload_len
          ∷ high_byte total_payload_len
          ∷ get_log
          ∷ (printed ++ low_byte crc ∷ high_byte crc ∷ []),
      log',
    )

-- What the functions of src/robot.c do that `handle_packet` calls.
pub record RobotOps (W : Type 0) : Type 0 where
  pub set_motor_levels : Rp2040State → Machine W → Option (Unit {0} × Machine W)
  pub get_state : Rp2040State → Machine W → Option (Rp2040State × Machine W)

-- The static variables, and what the functions called act on.
pub record Comm (W : Type 0) : Type 0 where
  pub state : Rp2040State
  pub rx_buffer : List ℕ
  pub machine : Machine W

unfoldable pub serial_comm_manager_init : {W : Type 0} → Rp2040State → Comm W → Comm W
serial_comm_manager_init rp2040_state c = record c { state = rp2040_state }

module _ {W : Type 0} (robot : RobotOps W) where
  -- The guard of `handle_packet`.
  abbrev pub malformed : ℕ → ℕ → Bool
  malformed cmd payload_len =
      cmd == set_motor_level && payload_len != 2
      || (cmd == get_log || cmd == get_state || cmd == get_version || cmd == reset_state)
        && payload_len != 0

  pub reply_state : ℕ → Comm W → Option (Rp2040State × Machine W) → Option (List ℕ × Comm W)
  reply_state cmd c none = none
  reply_state cmd c (some (state', machine')) =
      some (
        send_framed_packet cmd (state_bytes state'),
        record c { state = state'; machine = machine' },
      )

  pub handle_set_motor_level : ℕ → ℕ → Comm W → Option (List ℕ × Comm W)
  handle_set_motor_level left right c =
      let state' = record zero_state { control_left = left; control_right = right } in
      elim (robot.set_motor_levels state' c.machine) [
        | none ↦ none
        | some (_, machine') ↦ reply_state set_motor_level c (robot.get_state state' machine')
      ]

  pub handle_get_log : Comm W → Option (List ℕ × Comm W)
  handle_get_log c =
      let (sent, log') = send_log_packet c.machine.log in
      some (sent, record c { machine = record (c.machine) { log = log' } })

  unfoldable pub handle_packet : ℕ → List ℕ → Comm W → Option (List ℕ × Comm W)
  unfolding handle_set_motor_level reply_state handle_get_log
  handle_packet cmd payload c =
      if malformed cmd (length payload)
      then some (send_framed_packet nack [], c)
      else if cmd == get_log
      then handle_get_log c
      else if cmd == set_motor_level
      then handle_set_motor_level (get_or payload 0 0) (get_or payload 1 0) c
      else if cmd == get_state
      then reply_state get_state c (robot.get_state zero_state c.machine)
      else if cmd == get_version
      then some (send_framed_packet get_version version_bytes, c)
      else if cmd == reset_state
      then some (send_framed_packet ack [], c)
      else some (send_framed_packet nack [], c)
