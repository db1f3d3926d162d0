-- ===== src/Serial/Tests.antt =====
-- Checks of the protocol on concrete input.
use sr_firmware.Base.{◌≡◌, ◌≤◌, refl, arith, List, [], ◌∷◌, ℕ, replicate, length, inl, some, none}
use sr_firmware.Crc.{crc16_ccitt}
use sr_firmware.Crc.Detect.{crc16_ccitt-lt}
use sr_firmware.Log.{init}
use sr_firmware.Log.Valid.{contents, IsValid, init-IsValid}
use sr_firmware.Log.Stream.{concat}
use sr_firmware.Serial.{
  send_framed_packet, send_log_packet, ack, nack, get_log, set_motor_level, RobotOps, Comm,
  handle_packet, max_payload_size, start_marker, low_byte, high_byte,
}
use sr_firmware.Serial.State.{zero_state}
use sr_firmware.Serial.Receive.{get_block, refuse}
use sr_firmware.Serial.Fill.{arrive}
use sr_firmware.Serial.Packets.{
  motors, log, state, version, reset, IsReply, AlwaysReturns, handle_packet-IsReply,
  handle_packet_refuses, send_log_packet-frame, joined-bytes,
}
use sr_firmware.Serial.Progress.{Settled, get_block-Settled}
use sr_firmware.Serial.Delivery.{Delivered, get_block-Delivered}
use sr_firmware.Serial.Rejection.{Refused, damage-Refused, size_refused, timeout-Refused, in_body}

-- The ACK frame, checksum included.
ack_frame : send_framed_packet ack [] ≡ 0xfe ∷ 1 ∷ 0 ∷ 0xfd ∷ 30 ∷ 197 ∷ []
unfolding send_framed_packet crc16_ccitt
ack_frame = refl

-- A robot that does nothing.
abbrev idle : RobotOps (Unit {0})
idle = record { set_motor_levels = λ s m. some (tt, m); get_state = λ s m. some (s, m) }

idle-AlwaysReturns : AlwaysReturns idle
idle-AlwaysReturns = record {
  motors_return = λ s m v. (m, refl, v);
  state_returns = λ s m v. (s, m, refl, v);
}

abbrev comm : Comm (Unit {0})
comm = record {
  state = zero_state;
  rx_buffer = replicate 1024 0;
  machine = record { log = init; world = tt };
}

room : max_payload_size ≤ length comm.rx_buffer
room = let full : length {A = ℕ} (replicate 1024 0) ≡ 1024 = refl in omega (arith, full)

abbrev levels : List ℕ
levels = 0x7a ∷ 0x79 ∷ []

get_block-Delivered_example :
    Delivered idle set_motor_level levels [] comm
      (omega arith, (omega arith, (omega arith, tt)))
      (omega arith)
      room
      (get_block idle (arrive (send_framed_packet set_motor_level levels) []) comm)
get_block-Delivered_example =
    get_block-Delivered idle set_motor_level levels [] comm
      (omega arith, (omega arith, (omega arith, tt))) (omega arith) room

handle_packet-IsReply_example :
    IsReply set_motor_level (handle_packet idle set_motor_level levels comm)
handle_packet-IsReply_example =
    handle_packet-IsReply idle idle-AlwaysReturns set_motor_level levels comm (motors refl refl)
      init-IsValid.0

handle_packet_refuses_example :
    handle_packet idle 0x55 [] comm ≡ some (send_framed_packet nack [], comm)
handle_packet_refuses_example = handle_packet_refuses idle 0x55 [] comm (λ request. elim request [
  | motors p q ↦ absurd (omega (arith, p))
  | log p q ↦ absurd (omega (arith, p))
  | state p q ↦ absurd (omega (arith, p))
  | version p q ↦ absurd (omega (arith, p))
  | reset p q ↦ absurd (omega (arith, p))
])

send_log_packet-frame_example :
    ((send_log_packet init).0 ≡ send_framed_packet get_log (concat (contents init)))
    × IsValid (send_log_packet init).1
    × (contents (send_log_packet init).1 ≡ [])
send_log_packet-frame_example = send_log_packet-frame init init-IsValid.0

size_refused_example :
    get_block idle (some start_marker ∷ some 0 ∷ some 0 ∷ arrive (1 ∷ 2 ∷ []) []) comm
    ≡ refuse idle [] comm
size_refused_example = size_refused idle 0 0 (1 ∷ 2 ∷ []) [] comm (inl refl) refl

timeout-Refused_example :
    Refused idle [] comm
      (get_block idle (some start_marker ∷ some 3 ∷ some 0 ∷ arrive (1 ∷ []) (none ∷ [])) comm)
timeout-Refused_example =
    timeout-Refused idle 3 0 [] (arrive (1 ∷ []) (none ∷ [])) comm (omega arith, omega arith) room
      (in_body (1 ∷ []) (omega arith))

-- The checksum of a SET_MOTOR_LEVEL request.
abbrev sum : ℕ
sum = crc16_ccitt (set_motor_level ∷ 1 ∷ 2 ∷ []) (crc16_ccitt (3 ∷ 0 ∷ []) 0xffff)

damage-Refused_example : Refused idle [] comm (
    get_block idle
      (some start_marker
        ∷ some 3
        ∷ some 0
        ∷ arrive (set_motor_level ∷ 3 ∷ 4 ∷ []) (some (low_byte sum) ∷ some (high_byte sum) ∷ []))
      comm)
damage-Refused_example =
    damage-Refused idle 3 0 (set_motor_level ∷ []) [] 1 2 3 4 (low_byte sum) (high_byte sum) [] comm
      (omega arith, (omega arith, (omega arith, (omega arith, (omega arith, tt))))) tt
      (omega arith, omega arith) (omega arith, omega arith) refl (omega arith) room
      (joined-bytes sum (
        crc16_ccitt-lt (set_motor_level ∷ 1 ∷ 2 ∷ []) (crc16_ccitt (3 ∷ 0 ∷ []) 0xffff)
          (crc16_ccitt-lt (3 ∷ 0 ∷ []) 0xffff (omega arith))))
      (λ same. absurd (omega (arith, same.0)))

get_block-Settled_example :
    Settled idle idle-AlwaysReturns
      (get_block idle (some start_marker ∷ some 1 ∷ some 0 ∷ some 3 ∷ none ∷ []) comm)
get_block-Settled_example =
    get_block-Settled idle idle-AlwaysReturns
      (some start_marker ∷ some 1 ∷ some 0 ∷ some 3 ∷ none ∷ []) comm init-IsValid.0
