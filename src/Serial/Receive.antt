-- ===== src/Serial/Receive.antt =====
-- `get_block` of src/serial_comm_manager.c. `getchar_timeout_us` reads from a list with a byte, or
-- `none` for a timeout, for each call, and times out behind its end.
use sr_firmware.Base.{ℕ, zero, suc, ◌+◌, ◌-◌, ◌==◌, ◌!=◌, ltb, ◌||◌, if◌then◌else◌}
use sr_firmware.Base.{Bool, true, false, Option, none, some, List, [], ◌∷◌, take, drop, set, get_or}
use sr_firmware.Crc.{crc16_ccitt}
use sr_firmware.Serial.{u8, joined, start_marker, max_payload_size, nack, send_framed_packet}
use sr_firmware.Serial.{Comm, RobotOps, handle_packet}

abbrev pub Input : Type 0
Input = List (Option ℕ)

unfoldable pub read_byte : Input → Option ℕ × Input
read_byte [] = (none, [])
read_byte (c ∷ input) = (c, input)

-- `count` is the number of bytes still to be discarded. What `getchar_timeout_us` returns is
-- `PICO_ERROR_TIMEOUT` exactly when it is `none` here.
unfoldable pub discard_bytes : ℕ → Input → Input
discard_bytes zero input = input
discard_bytes (suc count) [] = []
discard_bytes (suc count) (none ∷ input) = input
discard_bytes (suc count) (some c ∷ input) = discard_bytes count input

-- How `get_block` leaves: what it has sent, the input that it has not read, and the variables.
pub record Outcome (W : Type 0) : Type 0 where
  pub sent : List ℕ
  pub rest : Input
  pub comm : Comm W

-- The loop that fills `rx_buffer`, with the bytes left and the index. The flag is false after a
-- timeout.
unfoldable pub read_payload : ℕ → ℕ → List ℕ → Input → Bool × List ℕ × Input
read_payload zero i rx input = (true, rx, input)
read_payload (suc left) i rx [] = (false, rx, [])
read_payload (suc left) i rx (none ∷ input) = (false, rx, input)
read_payload (suc left) i rx (some b ∷ input) = read_payload left (i + 1) (set rx i (u8 b)) input

module _ {W : Type 0} (robot : RobotOps W) where
  -- `send_framed_packet(NACK, NULL, 0); return;`
  abbrev pub refuse : Input → Comm W → Option (Outcome W)
  refuse input c = some (record { sent = send_framed_packet nack []; rest = input; comm = c })

  unfoldable pub dispatch : ℕ → Input → Comm W → Option (Outcome W)
  dispatch total input c =
      elim (handle_packet robot (get_or c.rx_buffer 0 0) (take (total - 1) (drop 1 c.rx_buffer))
        c) [
          | none ↦ none
          | some (sent, c') ↦ some (record { sent = sent; rest = input; comm = c' })
        ]

  -- From the first byte of the checksum on.
  unfoldable pub check_frame : ℕ → ℕ → ℕ → Input → Comm W → Option (Outcome W)
  check_frame l1 l2 total input c =
      let (c1, input1) = read_byte input in
      let (c2, input2) = read_byte input1 in
      elim c1 [
        | none ↦ refuse input1 c
        | some low ↦ elim c2 [
          | none ↦ refuse input2 c
          | some high ↦
              let calculated =
                crc16_ccitt (take total c.rx_buffer) (crc16_ccitt (u8 l1 ∷ u8 l2 ∷ []) 0xffff) in
              if calculated != joined low high then refuse input2 c else dispatch total input2 c
        ]
      ]

  -- From the first byte of the body on.
  unfoldable pub get_body : ℕ → ℕ → ℕ → Input → Comm W → Option (Outcome W)
  get_body l1 l2 total input c =
      let (complete, rx, input') = read_payload total 0 c.rx_buffer input in
      let c' = record c { rx_buffer = rx } in
      if complete then check_frame l1 l2 total input' c' else refuse input' c'

  -- From the first byte of the length on.
  unfoldable pub get_length : Input → Comm W → Option (Outcome W)
  get_length input c =
      let (c1, input1) = read_byte input in
      let (c2, input2) = read_byte input1 in
      elim c1 [
        | none ↦ refuse input1 c
        | some l1 ↦ elim c2 [
          | none ↦ refuse input2 c
          | some l2 ↦
              let total = joined l1 l2 in
              if total == 0 || ltb max_payload_size total
              then refuse (discard_bytes (total + 2) input2) c
              else get_body l1 l2 total input2 c
        ]
      ]

  unfoldable pub get_block : Input → Comm W → Option (Outcome W)
  unfolding get_length get_body check_frame dispatch read_payload read_byte discard_bytes
  get_block input c =
      let (first, input1) = read_byte input in
      elim first [
        | none ↦ some (record { sent = []; rest = input1; comm = c })
        | some b ↦
            if b != start_marker
            then some (record { sent = []; rest = input1; comm = c })
            else get_length input1 c
      ]
