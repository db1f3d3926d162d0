-- ===== src/Serial/Rejection.antt =====
-- Frames that `get_block` refuses: damaged, cut off, or of a size that it cannot hold.
use sr_firmware.Base.{ℕ, zero, suc, ◌+◌, ◌^◌, ◌≤◌, ◌<◌, ◌==◌, ◌!=◌, ltb, ◌||◌}
use sr_firmware.Base.{Bool, true, false, Option, none, some, set, length-set, length-append}
use sr_firmware.Base.{◌≡◌, ◌≢◌, refl, sym, ap, ◌∙◌, subst, arith, List, [], ◌∷◌, ◌++◌, length}
use sr_firmware.Crc.{crc16_ccitt}
use sr_firmware.Crc.Detect.{IsBytes, crc16_ccitt-lt}
use sr_firmware.Serial.{Comm, RobotOps, u8}
use sr_firmware.Serial.{joined, start_marker, max_payload_size}
use sr_firmware.Serial.Receive.{
  Input, Outcome, get_block, get_body, check_frame, refuse, read_payload, read_byte,
}
use sr_firmware.Serial.Receive.{discard_bytes}
use sr_firmware.Crc.Detect.{burst_equal}
use sr_firmware.Base.{◌⊎◌}
use sr_firmware.Serial.Fill.{arrive, read_payload-Filled}
use sr_firmware.Serial.Arrival.{Arrived, get_block-Arrived}

module _ {W : Type 0} (robot : RobotOps W) where
  -- An empty NACK is the answer, nothing is dispatched, and of the variables only the receive
  -- buffer may have changed. What is left of the input is `rest`.
  pub record Refused (rest : Input) (c : Comm W) (out : Option (Outcome W)) : Type 0 where
    pub buffer : List ℕ
    pub same_length : length buffer ≡ length c.rx_buffer
    pub returns : out ≡ refuse robot rest (record c { rx_buffer = buffer })

  Arrived-Refused :
      {l1 l2 k1 k2 : ℕ} {body : List ℕ} {rest : Input} {c : Comm W} {out : Option (Outcome W)}
      → Arrived robot l1 l2 body k1 k2 rest c out
      → crc16_ccitt body (crc16_ccitt (l1 ∷ l2 ∷ []) 0xffff) ≢ joined k1 k2
      → Refused rest c out
  Arrived-Refused {l1} {l2} {k1} {k2} {body} a wrong =
      let differs : (crc16_ccitt body (crc16_ccitt (l1 ∷ l2 ∷ []) 0xffff) != joined k1 k2) ≡ true =
        ground arith in
      record { buffer = a.buffer; same_length = a.same_length; returns = rw differs at a.returns }

  -- A frame of an acceptable size and with a right checksum, of which one or both of two adjacent
  -- bytes of the body, command or payload, were changed to other bytes on the way, is refused when
  -- it arrives whole, with a receive buffer of at least 1024 bytes.
  pub damage-Refused :
      (l1 l2 : ℕ) (before after : List ℕ) (x x' y y' k1 k2 : ℕ) (rest : Input) (c : Comm W)
      → IsBytes (l1 ∷ l2 ∷ (before ++ y ∷ y' ∷ after))
      → IsBytes after
      → (x < 2 ^ 8) × (x' < 2 ^ 8)
      → (y < 2 ^ 8) × (y' < 2 ^ 8)
      → joined l1 l2 ≡ length (before ++ y ∷ y' ∷ after)
      → length (before ++ y ∷ y' ∷ after) ≤ max_payload_size
      → max_payload_size ≤ length c.rx_buffer
      → joined k1 k2 ≡ crc16_ccitt (before ++ x ∷ x' ∷ after) (crc16_ccitt (l1 ∷ l2 ∷ []) 0xffff)
      → ¬ ((x ≡ y) × (x' ≡ y'))
      → Refused rest c (
          get_block robot
            (some start_marker
              ∷ some l1
              ∷ some l2
              ∷ arrive (before ++ y ∷ y' ∷ after) (some k1 ∷ some k2 ∷ rest))
            c)
  damage-Refused l1 l2 before after x x' y y' k1 k2 rest c bs ha hx hy announced size room sum ne =
      Arrived-Refused
        (get_block-Arrived robot l1 l2 (before ++ y ∷ y' ∷ after) k1 k2 rest c bs announced
          (omega (arith, length-append before (y ∷ y' ∷ after)), size) room)
        (λ e. ne (
          burst_equal before after (crc16_ccitt (l1 ∷ l2 ∷ []) 0xffff) x x' y y' ha
            (crc16_ccitt-lt (l1 ∷ l2 ∷ []) 0xffff (omega arith)) hx hy (sym (e ∙ sum))))

  discard-arrive : (bs : List ℕ) (rest : Input) → discard_bytes (length bs) (arrive bs rest) ≡ rest
  unfolding discard_bytes
  discard-arrive [] rest = refl
  discard-arrive (b ∷ bs) rest = discard-arrive bs rest

  -- A frame that announces no body, or one that the buffer cannot hold, is refused, and the body
  -- and the checksum that it announces are skipped, whatever bytes they hold.
  pub size_refused :
      (l1 l2 : ℕ) (skipped : List ℕ) (rest : Input) (c : Comm W)
      → (joined l1 l2 ≡ 0) ⊎ (max_payload_size < joined l1 l2)
      → length skipped ≡ joined l1 l2 + 2
      → get_block robot (some start_marker ∷ some l1 ∷ some l2 ∷ arrive skipped rest) c
        ≡ refuse robot rest c
  unfolding get_block
  size_refused l1 l2 skipped rest c bad all =
      let guard : (joined l1 l2 == 0 || ltb max_payload_size (joined l1 l2)) ≡ true =
        ground arith in
      rw guard (
        ap (λ input. refuse robot input c)
          (ap (λ n. discard_bytes n (arrive skipped rest)) (sym all) ∙ discard-arrive skipped rest))

  -- The loop has met a timeout.
  record Cut (rx : List ℕ) (rest : Input) (out : Bool × List ℕ × Input) : Type 0 where
    buffer : List ℕ
    returns : out ≡ (false, buffer, rest)
    same_length : length buffer ≡ length rx

  read_payload-Cut :
      (part : List ℕ) (n i : ℕ) (rx : List ℕ) (rest : Input)
      → length part < n
      → Cut rx rest (read_payload n i rx (arrive part (none ∷ rest)))
  unfolding read_payload
  read_payload-Cut part zero i rx rest h = absurd (omega arith)
  read_payload-Cut [] (suc n) i rx rest h = record {
    buffer = rx;
    returns = refl;
    same_length = refl;
  }
  read_payload-Cut (b ∷ part) (suc n) i rx rest h =
      let more = read_payload-Cut part n (i + 1) (set rx i (u8 b)) rest (omega arith) in
      record {
        buffer = more.buffer;
        returns = more.returns;
        same_length = more.same_length ∙ length-set rx i (u8 b);
      }

  body_cut :
      (l1 l2 : ℕ) (part : List ℕ) (n : ℕ) (rest : Input) (c : Comm W)
      → length part < n
      → Refused rest c (get_body robot l1 l2 n (arrive part (none ∷ rest)) c)
  unfolding get_body
  body_cut l1 l2 part n rest c h =
      let cut = read_payload-Cut part n 0 c.rx_buffer rest h in
      record {
        buffer = cut.buffer;
        same_length = cut.same_length;
        returns = rw (cut.returns, get_body) refl;
      }

  checksum_cut :
      (l1 l2 : ℕ) (body last : List ℕ) (rest : Input) (c : Comm W)
      → IsBytes body
      → length body ≤ length c.rx_buffer
      → length last < 2
      → Refused rest c
          (get_body robot l1 l2 (length body) (arrive body (arrive last (none ∷ rest))) c)
  unfolding get_body check_frame read_byte
  checksum_cut l1 l2 body [] rest c hs room h =
      let full = read_payload-Filled body 0 c.rx_buffer (none ∷ rest) hs (omega arith) in
      record {
        buffer = full.buffer;
        same_length = full.same_length;
        returns = rw (full.returns, get_body) refl;
      }
  checksum_cut l1 l2 body (k ∷ []) rest c hs room h =
      let full = read_payload-Filled body 0 c.rx_buffer (some k ∷ none ∷ rest) hs (omega arith) in
      record {
        buffer = full.buffer;
        same_length = full.same_length;
        returns = rw (full.returns, get_body) refl;
      }
  checksum_cut l1 l2 body (k ∷ k' ∷ last) rest c hs room h = absurd (omega arith)

  -- Where a frame of an acceptable size stops before its end.
  pub data CutOff (total : ℕ) (rest : Input) : Input → Type 0 where
    in_body : (part : List ℕ) → length part < total → CutOff total rest (arrive part (none ∷ rest))
    in_checksum :
        (body last : List ℕ)
        → IsBytes body
        → length body ≡ total
        → length last < 2
        → CutOff total rest (arrive body (arrive last (none ∷ rest)))

  body-Refused :
      (l1 l2 total : ℕ) (rest input : Input) (c : Comm W)
      → total ≤ length c.rx_buffer
      → CutOff total rest input
      → Refused rest c (get_body robot l1 l2 total input c)
  body-Refused l1 l2 total rest _ c room (in_body part h) = body_cut l1 l2 part total rest c h
  body-Refused l1 l2 total rest _ c room (in_checksum body last hs e h) =
      subst
        (λ n. Refused rest c (get_body robot l1 l2 n (arrive body (arrive last (none ∷ rest))) c)) e
        (checksum_cut l1 l2 body last rest c hs (omega arith) h)

  -- A frame of an acceptable size whose bytes stop before its end, in the body or in the
  -- checksum, is refused at the timeout, and reading goes on behind the timeout,
  -- with a receive buffer of at least 1024 bytes.
  pub timeout-Refused :
      (l1 l2 : ℕ) (rest input : Input) (c : Comm W)
      → (0 < joined l1 l2) × (joined l1 l2 ≤ max_payload_size)
      → max_payload_size ≤ length c.rx_buffer
      → CutOff (joined l1 l2) rest input
      → Refused rest c (get_block robot (some start_marker ∷ some l1 ∷ some l2 ∷ input) c)
  unfolding get_block
  timeout-Refused l1 l2 rest input c size room cut =
      let guard : (joined l1 l2 == 0 || ltb max_payload_size (joined l1 l2)) ≡ false =
        ground arith in
      rw guard (body-Refused l1 l2 (joined l1 l2) rest input c (omega arith) cut)
