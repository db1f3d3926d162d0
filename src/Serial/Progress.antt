-- ===== src/Serial/Progress.antt =====
-- `get_block` returns, whatever arrives.
use sr_firmware.Base.{
  ℕ, ◌+◌, ◌-◌, ◌==◌, ◌&&◌, if◌then◌else◌, Bool, true, false, Bool-cases, Option, none, some, List,
  [], ◌∷◌, length, take, drop, get_or,
}
use sr_firmware.Base.{◌≡◌, refl, arith, ◌⊎◌, inl, inr}
use sr_firmware.Log.Valid.{IsValid}
use sr_firmware.Serial.{Comm, RobotOps, handle_packet, send_framed_packet, nack, joined}
use sr_firmware.Serial.Receive.{
  Input, Outcome, read_byte, discard_bytes, read_payload, refuse, dispatch, check_frame, get_body,
  get_length, get_block,
}
use sr_firmware.Serial.Packets.{
  IsRequest, motors, log, state, version, reset, AlwaysReturns, answer, handle_packet-IsReply,
  handle_packet_refuses,
}

request? : (cmd n : ℕ) → IsRequest cmd n ⊎ (¬ IsRequest cmd n)
request? cmd n = elim (Bool-cases (cmd == 1 && n == 2)) [
  | inl e ↦ inl (motors (ground arith) (ground arith))
  | inr e1 ↦ elim (Bool-cases (cmd == 0 && n == 0)) [
    | inl e ↦ inl (log (ground arith) (ground arith))
    | inr e2 ↦ elim (Bool-cases (cmd == 3 && n == 0)) [
      | inl e ↦ inl (state (ground arith) (ground arith))
      | inr e3 ↦ elim (Bool-cases (cmd == 6 && n == 0)) [
        | inl e ↦ inl (version (ground arith) (ground arith))
        | inr e4 ↦ elim (Bool-cases (cmd == 2 && n == 0)) [
          | inl e ↦ inl (reset (ground arith) (ground arith))
          | inr e5 ↦ inr (λ request. elim request [
            | motors p q ↦ ground (arith, p, q, e1)
            | log p q ↦ ground (arith, p, q, e2)
            | state p q ↦ ground (arith, p, q, e3)
            | version p q ↦ ground (arith, p, q, e4)
            | reset p q ↦ ground (arith, p, q, e5)
          ])
        ]
      ]
    ]
  ]
]

module _ {W : Type 0} (robot : RobotOps W) (live : AlwaysReturns robot) where
  -- A result has come, and its log is valid.
  record Handled (out : Option (List ℕ × Comm W)) : Type 0 where
    sent : List ℕ
    after : Comm W
    returns : out ≡ some (sent, after)
    valid : IsValid after.machine.log

  handle_packet-Handled :
      (cmd : ℕ) (payload : List ℕ) (c : Comm W)
      → IsValid c.machine.log
      → Handled (handle_packet robot cmd payload c)
  handle_packet-Handled cmd payload c v = elim (request? cmd (length payload)) [
    | inl request ↦
        let reply = handle_packet-IsReply robot live cmd payload c request v in
        record {
          sent = send_framed_packet (answer cmd) reply.body;
          after = reply.after;
          returns = reply.returns;
          valid = reply.valid;
        }
    | inr other ↦ record {
      sent = send_framed_packet nack [];
      after = c;
      returns = handle_packet_refuses robot cmd payload c other;
      valid = v;
    }
  ]

  pub record Settled (out : Option (Outcome W)) : Type 0 where
    pub outcome : Outcome W
    pub returns : out ≡ some outcome
    pub valid : IsValid outcome.comm.machine.log

  refuse-Settled :
      (input : Input) (c : Comm W) → IsValid c.machine.log → Settled (refuse robot input c)
  refuse-Settled input c v = record { outcome = _; returns = refl; valid = v }

  dispatch-Settled :
      (total : ℕ) (input : Input) (c : Comm W)
      → IsValid c.machine.log
      → Settled (dispatch robot total input c)
  unfolding dispatch
  dispatch-Settled total input c v =
      let h =
        handle_packet-Handled (get_or c.rx_buffer 0 0) (take (total - 1) (drop 1 c.rx_buffer)) c
          v in
      record {
        outcome = record { sent = h.sent; rest = input; comm = h.after };
        returns = rw (h.returns, dispatch) refl;
        valid = h.valid;
      }

  if-Settled :
      (b : Bool) (x y : Option (Outcome W)) → Settled x → Settled y → Settled (if b then x else y)
  if-Settled true x y p q = p
  if-Settled false x y p q = q

  check_frame-Settled :
      (l1 l2 total : ℕ) (input : Input) (c : Comm W)
      → IsValid c.machine.log
      → Settled (check_frame robot l1 l2 total input c)
  unfolding check_frame read_byte
  check_frame-Settled l1 l2 total [] c v = refuse-Settled [] c v
  check_frame-Settled l1 l2 total (none ∷ input) c v = refuse-Settled input c v
  check_frame-Settled l1 l2 total (some low ∷ []) c v = refuse-Settled [] c v
  check_frame-Settled l1 l2 total (some low ∷ none ∷ input) c v = refuse-Settled input c v
  check_frame-Settled l1 l2 total (some low ∷ some high ∷ input) c v =
      if-Settled _ _ _ (refuse-Settled input c v) (dispatch-Settled total input c v)

  get_body-Settled :
      (l1 l2 total : ℕ) (input : Input) (c : Comm W)
      → IsValid c.machine.log
      → Settled (get_body robot l1 l2 total input c)
  unfolding get_body
  get_body-Settled l1 l2 total input c v =
      let got = read_payload total 0 c.rx_buffer input in
      let c' = record c { rx_buffer = got.1 } in
      if-Settled got.0 _ _ (check_frame-Settled l1 l2 total got.2 c' v) (refuse-Settled got.2 c' v)

  get_length-Settled :
      (input : Input) (c : Comm W) → IsValid c.machine.log → Settled (get_length robot input c)
  unfolding get_length read_byte
  get_length-Settled [] c v = refuse-Settled [] c v
  get_length-Settled (none ∷ input) c v = refuse-Settled input c v
  get_length-Settled (some l1 ∷ []) c v = refuse-Settled [] c v
  get_length-Settled (some l1 ∷ none ∷ input) c v = refuse-Settled input c v
  get_length-Settled (some l1 ∷ some l2 ∷ input) c v =
      if-Settled _ _ _ (refuse-Settled (discard_bytes (joined l1 l2 + 2) input) c v)
        (get_body-Settled l1 l2 (joined l1 l2) input c v)

  -- With a valid log, and robot calls that return, `get_block` returns on every input, of bytes and
  -- timeouts in any order, and leaves the log valid.
  pub get_block-Settled :
      (input : Input) (c : Comm W) → IsValid c.machine.log → Settled (get_block robot input c)
  unfolding get_block read_byte
  get_block-Settled [] c v = record { outcome = _; returns = refl; valid = v }
  get_block-Settled (none ∷ input) c v = record { outcome = _; returns = refl; valid = v }
  get_block-Settled (some b ∷ input) c v =
      if-Settled _ _ _ (record { outcome = _; returns = refl; valid = v })
        (get_length-Settled input c v)
