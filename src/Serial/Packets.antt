-- ===== src/Serial/Packets.antt =====
-- What the packets of the protocol hold, and how `handle_packet` treats each request.
use sr_firmware.Base.{ℕ, ◌+◌, ◌*◌, ◌/◌, ◌%◌, ◌^◌, ◌<◌, ◌==◌, if◌then◌else◌, Option, some, get_or}
use sr_firmware.Base.{◌≡◌, ◌≢◌, refl, ap, ◌∙◌, arith, List, [], length}
use sr_firmware.Base.Bits.Fields.{bit_and_mask, bit_or_fields}
use sr_firmware.Log.{CircularBufferLog}
use sr_firmware.Log.Valid.{contents, IsValid}
use sr_firmware.Log.Stream.{concat, flush-Flushed, get_byte_count-flush, get_crc-flush}
use sr_firmware.Serial.{Comm, RobotOps, handle_packet, send_framed_packet, send_log_packet}
use sr_firmware.Machine.{Machine}
use sr_firmware.Serial.State.{Rp2040State, zero_state, state_bytes}
use sr_firmware.Serial.{
  handle_set_motor_level, reply_state, set_motor_level, get_state, get_version, reset_state, ack,
  version_bytes,
}
use sr_firmware.Serial.{low_byte, high_byte, joined, get_log, nack}

pub low_byte_lem : (x : ℕ) → low_byte x ≡ x % 256
low_byte_lem x = bit_and_mask 8 x

pub high_byte_lem : (x : ℕ) → high_byte x ≡ x / 256 % 256
high_byte_lem x = bit_and_mask 8 (x / 2 ^ 8)

pub joined_lem : (low high : ℕ) → low < 256 → high < 256 → joined low high ≡ low + high * 256
joined_lem low high hl hh =
    let e : low % 2 ^ 16 ≡ low = omega arith in
    let e' : high % 2 ^ 16 ≡ high = omega arith in
    rw (e, e', bit_or_fields 8 low high hl) (omega arith)

-- The receiver puts the two bytes of a `uint16_t` together again.
pub joined-bytes : (x : ℕ) → x < 2 ^ 16 → joined (low_byte x) (high_byte x) ≡ x
joined-bytes x h =
    rw (low_byte_lem x, high_byte_lem x)
      (joined_lem (x % 256) (x / 256 % 256) (omega arith) (omega arith) ∙ omega arith)

-- With a valid log, `send_log_packet` transmits the frame of GET_LOG whose payload is the log's
-- texts, oldest first: the length and the checksum that it computes in advance are those of the
-- bytes that `rp2040_log_flush` then prints. The log is left valid and empty.
pub send_log_packet-frame :
    (log : CircularBufferLog)
    → IsValid log
    → ((send_log_packet log).0 ≡ send_framed_packet get_log (concat (contents log)))
      × IsValid (send_log_packet log).1
      × (contents (send_log_packet log).1 ≡ [])
unfolding send_log_packet send_framed_packet
send_log_packet-frame log v =
    let flushed = flush-Flushed log v in
    (
      rw (get_byte_count-flush log v, get_crc-flush log _ v, flushed.printed) refl,
      flushed.valid,
      flushed.empty,
    )

-- The requests of PROTOCOL.md, with the sizes of their payloads.
pub data IsRequest (cmd payload_len : ℕ) : Type 0 where
  motors : cmd ≡ set_motor_level → payload_len ≡ 2 → IsRequest cmd payload_len
  log : cmd ≡ get_log → payload_len ≡ 0 → IsRequest cmd payload_len
  state : cmd ≡ get_state → payload_len ≡ 0 → IsRequest cmd payload_len
  version : cmd ≡ get_version → payload_len ≡ 0 → IsRequest cmd payload_len
  reset : cmd ≡ reset_state → payload_len ≡ 0 → IsRequest cmd payload_len

-- The command under which a request is answered.
abbrev pub answer : ℕ → ℕ
answer cmd = if cmd == reset_state then ack else cmd

-- The handling returns, with a frame under the command that answers `cmd`, and a valid log.
pub record IsReply {W : Type 0} (cmd : ℕ) (out : Option (List ℕ × Comm W)) : Type 0 where
  pub body : List ℕ
  pub after : Comm W
  pub returns : out ≡ some (send_framed_packet (answer cmd) body, after)
  pub valid : IsValid after.machine.log

-- With a valid log, the calls of src/robot.c return, and leave the log valid.
pub record AlwaysReturns {W : Type 0} (robot : RobotOps W) : Type 0 where
  pub motors_return :
      (s : Rp2040State) (m : Machine W)
      → IsValid m.log
      → (m' : Machine W) × (robot.set_motor_levels s m ≡ some (tt, m')) × IsValid m'.log
  pub state_returns :
      (s : Rp2040State) (m : Machine W)
      → IsValid m.log
      → (s' : Rp2040State) × (m' : Machine W) × (robot.get_state s m ≡ some (s', m'))
        × IsValid m'.log

module _ {W : Type 0} (robot : RobotOps W) where
  -- What is no request of the protocol, by its command or by the size of its payload, is answered
  -- with an empty NACK, and changes nothing.
  pub handle_packet_refuses :
      (cmd : ℕ) (payload : List ℕ) (c : Comm W)
      → ¬ IsRequest cmd (length payload)
      → handle_packet robot cmd payload c ≡ some (send_framed_packet nack [], c)
  unfolding handle_packet
  handle_packet_refuses cmd payload c out = ground (
    arith,
    λ (p : cmd ≡ set_motor_level) (q : length payload ≡ 2). out (motors p q),
    λ (p : cmd ≡ get_log) (q : length payload ≡ 0). out (log p q),
    λ (p : cmd ≡ get_state) (q : length payload ≡ 0). out (state p q),
    λ (p : cmd ≡ get_version) (q : length payload ≡ 0). out (version p q),
    λ (p : cmd ≡ reset_state) (q : length payload ≡ 0). out (reset p q),
  )

  module _ (live : AlwaysReturns robot) where
    reply_state-IsReply :
        (cmd : ℕ) (c : Comm W) (s : Rp2040State) (m : Machine W)
        → cmd ≢ reset_state
        → IsValid m.log
        → IsReply cmd (reply_state robot cmd c (robot.get_state s m))
    unfolding reply_state
    reply_state-IsReply cmd c s m ne v =
        let (s', m', e, v') = live.state_returns s m v in
        let own : answer cmd ≡ cmd = ground arith in
        record {
          body = state_bytes s';
          after = record c { state = s'; machine = m' };
          returns = rw (e, own) refl;
          valid = v';
        }

    motors-IsReply :
        (left right : ℕ) (c : Comm W)
        → IsValid c.machine.log
        → IsReply set_motor_level (handle_set_motor_level robot left right c)
    unfolding handle_set_motor_level
    motors-IsReply left right c v =
        let levels = record zero_state { control_left = left; control_right = right } in
        let (m', e, v') = live.motors_return levels c.machine v in
        rw (e, handle_set_motor_level)
          (reply_state-IsReply set_motor_level c levels m' (omega arith) v')

    -- With a valid log, and robot calls that return, the handling of every request of the protocol
    -- returns, with one frame under the request's own command, or under ACK for RESET_STATE, and
    -- leaves the log valid.
    pub handle_packet-IsReply :
        (cmd : ℕ) (payload : List ℕ) (c : Comm W)
        → IsRequest cmd (length payload)
        → IsValid c.machine.log
        → IsReply cmd (handle_packet robot cmd payload c)
    unfolding handle_packet
    handle_packet-IsReply cmd payload c (motors p q) v =
        rw (p, q) (motors-IsReply (get_or payload 0 0) (get_or payload 1 0) c v)
    handle_packet-IsReply cmd payload c (log p q) v =
        rw (p, q)
          (record {
            body = concat (contents c.machine.log);
            after = record c {
              machine = record (c.machine) { log = (send_log_packet c.machine.log).1 };
            };
            returns =
                ap
                  (λ sent. some (
                    sent,
                    record c {
                      machine = record (c.machine) { log = (send_log_packet c.machine.log).1 };
                    },
                  ))
                  (send_log_packet-frame c.machine.log v).0;
            valid = (send_log_packet-frame c.machine.log v).1;
          })
    handle_packet-IsReply cmd payload c (state p q) v =
        rw (p, q) (reply_state-IsReply get_state c zero_state c.machine (omega arith) v)
    handle_packet-IsReply cmd payload c (version p q) v =
        rw (p, q) (record { body = version_bytes; after = c; returns = refl; valid = v })
    handle_packet-IsReply cmd payload c (reset p q) v =
        rw (p, q) (record { body = []; after = c; returns = refl; valid = v })
