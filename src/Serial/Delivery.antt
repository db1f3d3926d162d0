-- ===== src/Serial/Delivery.antt =====
-- `get_block` on a frame as `send_framed_packet` forms it.
use sr_firmware.Base.{ℕ, suc, ◌+◌, ◌-◌, ◌^◌, ◌≤◌, ◌<◌, ◌!=◌, if◌then◌else◌}
use sr_firmware.Base.{false, Option, none, some, get_or, take, drop}
use sr_firmware.Base.{◌≡◌, ap, ap₂, ◌∙◌, arith, List, [], ◌∷◌, length}
use sr_firmware.Crc.{crc16_ccitt}
use sr_firmware.Crc.Detect.{IsBytes, crc16_ccitt-append, crc16_ccitt-lt}
use sr_firmware.Serial.{Comm, RobotOps, handle_packet, send_framed_packet, u16}
use sr_firmware.Serial.{low_byte, high_byte, joined, start_marker, max_payload_size}
use sr_firmware.Serial.Receive.{Input, Outcome, get_block, dispatch, refuse}
use sr_firmware.Serial.Packets.{low_byte_lem, high_byte_lem, joined-bytes}
use sr_firmware.Serial.Fill.{arrive, arrive-append}
use sr_firmware.Serial.Arrival.{Arrived, get_block-Arrived}

split_buffer :
    (cmd : ℕ) (payload buffer : List ℕ)
    → take (suc (length payload)) buffer ≡ cmd ∷ payload
    → (get_or buffer 0 0 ≡ cmd) × (take (length payload) (drop 1 buffer) ≡ payload)
split_buffer cmd payload [] e = absurd (ground arith)
split_buffer cmd payload (x ∷ xs) e = (cc, cc)

-- The frame of a request, as the host sends it and as `send_framed_packet` would.
module _ {W : Type 0} (robot : RobotOps W) (cmd : ℕ) (payload : List ℕ) (rest : Input) (c : Comm W)
    (bytes : IsBytes (cmd ∷ payload)) (size : length payload < max_payload_size)
    (room : max_payload_size ≤ length c.rx_buffer) where
  total : ℕ
  total = u16 (length payload + 1)

  header : List ℕ
  header = low_byte total ∷ high_byte total ∷ []

  crc : ℕ
  crc = crc16_ccitt payload (crc16_ccitt (cmd ∷ []) (crc16_ccitt header 0xffff))

  total_lem : total ≡ suc (length payload)
  unfolding total
  total_lem = omega arith

  crc-lt : crc < 2 ^ 16
  unfolding crc
  crc-lt =
      crc16_ccitt-lt payload _
        (crc16_ccitt-lt (cmd ∷ []) _ (crc16_ccitt-lt header 0xffff (omega arith)))

  -- The request has been handed to `handle_packet`, the frame's bytes have been read and no more.
  pub record Delivered (out : Option (Outcome W)) : Type 0 where
    pub buffer : List ℕ
    pub same_length : length buffer ≡ length c.rx_buffer
    pub returns : out ≡ elim (handle_packet robot cmd payload (record c { rx_buffer = buffer })) [
      | none ↦ none
      | some (sent, c') ↦ some (record { sent = sent; rest = rest; comm = c' })
    ]

  frame_lem :
      arrive (send_framed_packet cmd payload) rest
      ≡ some start_marker
        ∷ some (low_byte total)
        ∷ some (high_byte total)
        ∷ arrive (cmd ∷ payload) (some (low_byte crc) ∷ some (high_byte crc) ∷ rest)
  unfolding send_framed_packet total crc header
  frame_lem =
      ap (λ t. some start_marker ∷ some (low_byte total) ∷ some (high_byte total) ∷ some cmd ∷ t)
        (arrive-append payload (low_byte crc ∷ high_byte crc ∷ []) rest)

  header-bytes : (low_byte total < 2 ^ 8) × (high_byte total < 2 ^ 8)
  header-bytes = omega (arith, low_byte_lem total, high_byte_lem total)

  arrived :
      Arrived robot
        (low_byte total)
        (high_byte total)
        (cmd ∷ payload)
        (low_byte crc)
        (high_byte crc)
        rest
        c
        (get_block robot
          (some start_marker
            ∷ some (low_byte total)
            ∷ some (high_byte total)
            ∷ arrive (cmd ∷ payload) (some (low_byte crc) ∷ some (high_byte crc) ∷ rest))
          c)
  arrived =
      get_block-Arrived robot (low_byte total) (high_byte total) (cmd ∷ payload) (low_byte crc)
        (high_byte crc) rest c (header-bytes.0, (header-bytes.1, bytes))
        (joined-bytes total (omega (arith, total_lem)) ∙ total_lem) (omega arith) room

  checksum :
      (crc16_ccitt (cmd ∷ payload) (crc16_ccitt header 0xffff)
        != joined (low_byte crc) (high_byte crc))
      ≡ false
  checksum =
      let same = crc16_ccitt-append (cmd ∷ []) payload (crc16_ccitt header 0xffff) in
      let back = joined-bytes crc crc-lt in rw (same, back) (unfold crc in ground arith)

  finish : Option (List ℕ × Comm W) → Option (Outcome W)
  finish out = elim out [
    | none ↦ none
    | some (sent, c') ↦ some (record { sent = sent; rest = rest; comm = c' })
  ]

  dispatch_lem :
      (buffer : List ℕ)
      → take (suc (length payload)) buffer ≡ cmd ∷ payload
      → dispatch robot (suc (length payload)) rest (record c { rx_buffer = buffer })
        ≡ elim (handle_packet robot cmd payload (record c { rx_buffer = buffer })) [
          | none ↦ none
          | some (sent, c') ↦ some (record { sent = sent; rest = rest; comm = c' })
        ]
  unfolding dispatch finish
  dispatch_lem buffer e =
      let parts = split_buffer cmd payload buffer e in
      let pred : suc (length payload) - 1 ≡ length payload = omega arith in
      ap₂ (λ cm pl. finish (handle_packet robot cm pl (record c { rx_buffer = buffer }))) parts.0
        (ap (λ n. take n (drop 1 buffer)) pred ∙ parts.1)

  -- A frame as `send_framed_packet` forms it, of a byte command and at most 1023 byte payload,
  -- that arrives without a pause, in front of a receive buffer of at least 1024 bytes, is
  -- delivered: `handle_packet` is called with exactly its command and its payload, and what
  -- follows the frame is left in the input.
  pub get_block-Delivered :
      Delivered (get_block robot (arrive (send_framed_packet cmd payload) rest) c)
  unfolding header
  get_block-Delivered = record {
    buffer = arrived.buffer;
    same_length = arrived.same_length;
    returns =
        ap (λ input. get_block robot input c) frame_lem
        ∙ arrived.returns
        ∙ ap
            (λ t.
              if t
              then refuse robot rest (record c { rx_buffer = arrived.buffer })
              else dispatch robot (suc (length payload)) rest
                  (record c { rx_buffer = arrived.buffer }))
            checksum
        ∙ dispatch_lem arrived.buffer arrived.holds;
  }
