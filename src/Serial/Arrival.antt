-- ===== src/Serial/Arrival.antt =====
-- `get_block` on a frame of which every byte arrives.
use sr_firmware.Base.{ℕ, ◌+◌, ◌≤◌, ◌<◌, ◌==◌, ◌!=◌, ltb, if◌then◌else◌}
use sr_firmware.Base.{false, Option, some, take}
use sr_firmware.Base.{◌≡◌, refl, ap, ap₂, ◌∙◌, arith, List, [], ◌∷◌, length}
use sr_firmware.Crc.{crc16_ccitt}
use sr_firmware.Crc.Detect.{IsBytes}
use sr_firmware.Serial.{Comm, RobotOps, u8}
use sr_firmware.Serial.{joined, start_marker, max_payload_size}
use sr_firmware.Serial.Receive.{
  Input, Outcome, get_block, get_length, get_body, check_frame, dispatch, refuse, read_payload,
  read_byte,
}
use sr_firmware.Serial.Fill.{arrive, Filled, read_payload-Filled}

module _ {W : Type 0} (robot : RobotOps W) where
  -- The frame's last bytes are compared with the checksum of the length and the body.
  check_frame_lem :
      (l1 l2 total k1 k2 : ℕ) (rest : Input) (c : Comm W)
      → check_frame robot l1 l2 total (some k1 ∷ some k2 ∷ rest) c ≡ (
          if crc16_ccitt (take total c.rx_buffer) (crc16_ccitt (u8 l1 ∷ u8 l2 ∷ []) 0xffff)
            != joined k1 k2
          then refuse robot rest c
          else dispatch robot total rest c)
  unfolding check_frame read_byte
  check_frame_lem l1 l2 total k1 k2 rest c = refl

  -- A frame of which every byte has arrived, whatever its checksum bytes are.
  pub record Arrived (l1 l2 : ℕ) (body : List ℕ) (k1 k2 : ℕ) (rest : Input) (c : Comm W)
      (out : Option (Outcome W)) : Type 0 where
    pub buffer : List ℕ
    pub holds : take (length body) buffer ≡ body
    pub same_length : length buffer ≡ length c.rx_buffer
    pub returns : out ≡ (
        if crc16_ccitt body (crc16_ccitt (l1 ∷ l2 ∷ []) 0xffff) != joined k1 k2
        then refuse robot rest (record c { rx_buffer = buffer })
        else dispatch robot (length body) rest (record c { rx_buffer = buffer }))

  module _ (l1 l2 : ℕ) (body : List ℕ) (k1 k2 : ℕ) (rest : Input) (c : Comm W)
      (bytes : IsBytes (l1 ∷ l2 ∷ body)) (announced : joined l1 l2 ≡ length body)
      (size : (0 < length body) × (length body ≤ max_payload_size))
      (room : max_payload_size ≤ length c.rx_buffer) where
    filled :
        Filled 0 body c.rx_buffer
          (some k1 ∷ some k2 ∷ rest)
          (read_payload (length body) 0 c.rx_buffer (arrive body (some k1 ∷ some k2 ∷ rest)))
    filled = read_payload-Filled body 0 c.rx_buffer _ bytes.1.1 (omega arith)

    held : take (length body) filled.buffer ≡ body
    held =
        ap (λ n. take n filled.buffer) {x = length body} {y = 0 + length body} (omega arith)
        ∙ filled.holds

    body_lem :
        get_body robot l1 l2 (length body) (arrive body (some k1 ∷ some k2 ∷ rest)) c
        ≡ check_frame robot l1 l2
            (length body)
            (some k1 ∷ some k2 ∷ rest)
            (record c { rx_buffer = filled.buffer })
    unfolding get_body
    body_lem = rw (filled.returns, get_body) refl

    length_lem :
        get_length robot (some l1 ∷ some l2 ∷ arrive body (some k1 ∷ some k2 ∷ rest)) c
        ≡ get_body robot l1 l2 (length body) (arrive body (some k1 ∷ some k2 ∷ rest)) c
    unfolding get_length read_byte
    length_lem =
        let positive : (length body == 0) ≡ false = ground arith in
        let bounded : ltb max_payload_size (length body) ≡ false = ground arith in
        rw announced (rw (positive, bounded) refl)

    start_lem :
        get_block robot
          (some start_marker ∷ some l1 ∷ some l2 ∷ arrive body (some k1 ∷ some k2 ∷ rest))
          c
        ≡ get_length robot (some l1 ∷ some l2 ∷ arrive body (some k1 ∷ some k2 ∷ rest)) c
    unfolding get_block
    start_lem = refl

    -- A frame of bytes that arrives whole, with a length that is its body's, is read to its end,
    -- and its body is dispatched exactly when its checksum is the one computed over length and
    -- body; otherwise the answer is NACK.
    pub get_block-Arrived : Arrived l1 l2 body k1 k2 rest c (
        get_block robot
          (some start_marker ∷ some l1 ∷ some l2 ∷ arrive body (some k1 ∷ some k2 ∷ rest))
          c)
    get_block-Arrived = record {
      buffer = filled.buffer;
      holds = held;
      same_length = filled.same_length;
      returns =
          start_lem
          ∙ length_lem
          ∙ body_lem
          ∙ check_frame_lem l1 l2 (length body) k1 k2 rest (record c { rx_buffer = filled.buffer })
          ∙ ap₂
              (λ bytes header.
                if crc16_ccitt bytes (crc16_ccitt header 0xffff) != joined k1 k2
                then refuse robot rest (record c { rx_buffer = filled.buffer })
                else dispatch robot (length body) rest (record c { rx_buffer = filled.buffer }))
              held (ap₂ (λ a b. a ∷ b ∷ []) (omega (arith, bytes.0)) (omega (arith, bytes.1.0)));
    }
