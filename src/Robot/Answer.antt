-- ===== src/Robot/Answer.antt =====
-- The firmware as the host sees it: a request is answered.
use sr_firmware.Base.{ℕ, ◌<◌, List, ◌∷◌, length, Option, some, ◌≡◌, refl, ◌∙◌, subst, arith}
use sr_firmware.Crc.Detect.{IsBytes}
use sr_firmware.Hardware.{Devices, Io}
use sr_firmware.Hardware.Keeps.{Keeps}
use sr_firmware.Hardware.Sdk.{PicoSdk}
use sr_firmware.Motors.Voltage.{Floats}
use sr_firmware.Serial.{Comm, send_framed_packet, max_payload_size}
use sr_firmware.Serial.Delivery.{get_block-Delivered}
use sr_firmware.Serial.Fill.{arrive}
use sr_firmware.Serial.Packets.{
  IsRequest, motors, log, state, version, reset, answer, handle_packet-IsReply,
}
use sr_firmware.Serial.Receive.{Input, Outcome, get_block}
use sr_firmware.Serial.Sound.{IsSound, SoundOutcome, get_block-Sound}
use sr_firmware.TypeC.Registers.{Constants}
use sr_firmware.Robot.{robot_ops}
use sr_firmware.Robot.Returns.{Answers, robot_ops-AlwaysReturns}
use sr_firmware.Robot.System.{Reach, Reach-IsSound, robot_ops-Steady}

-- A request fits a frame.
IsRequest-small : (cmd n : ℕ) → IsRequest cmd n → n < max_payload_size
IsRequest-small cmd n (motors p q) = omega arith
IsRequest-small cmd n (log p q) = omega arith
IsRequest-small cmd n (state p q) = omega arith
IsRequest-small cmd n (version p q) = omega arith
IsRequest-small cmd n (reset p q) = omega arith

module _ (sdk : PicoSdk) (bus : Answers sdk) (const : Constants) (meanwhile : Io sdk (Unit {0}))
    (fuel : ℕ) (f : Floats) (during : Keeps sdk meanwhile) where
  -- One frame has been sent, under the command that answers `cmd`; the input behind the request is
  -- left, and the state is sound again.
  pub record IsReplied (cmd : ℕ) (rest : Input) (out : Option (Outcome (Devices sdk.World)))
      : Type 0 where
    pub body : List ℕ
    pub after : Comm (Devices sdk.World)
    pub returns :
        out
        ≡ some (record { sent = send_framed_packet (answer cmd) body; rest = rest; comm = after })
    pub sound : IsSound after

  -- On a bus that acknowledges one of three attempts, with motor faults that can be cleared, in
  -- every state that the firmware reaches after its start, as far as what happens during the waits
  -- of the start keeps the log valid: a request of the protocol in a frame that arrives without a
  -- pause is answered by one frame, under the request's own command or under ACK for RESET_STATE,
  -- what follows it is left in the input, and the state after it has a valid log and a receive
  -- buffer of 1024 bytes again.
  pub request-IsReplied :
      (cmd : ℕ) (payload : List ℕ) (rest : Input) (c : Comm (Devices sdk.World))
      → Reach sdk const meanwhile fuel f c
      → IsBytes (cmd ∷ payload)
      → IsRequest cmd (length payload)
      → IsReplied cmd rest
          (get_block (robot_ops sdk) (arrive (send_framed_packet cmd payload) rest) c)
  unfolding SoundOutcome
  request-IsReplied cmd payload rest c reach bytes request =
      let sound = Reach-IsSound sdk const meanwhile fuel f during c reach in
      let delivered =
        get_block-Delivered (robot_ops sdk) cmd payload rest c bytes
          (IsRequest-small cmd (length payload) request) (omega (arith, sound.buffer_size)) in
      let ready = record c { rx_buffer = delivered.buffer } in
      let reply =
        handle_packet-IsReply (robot_ops sdk) (robot_ops-AlwaysReturns sdk bus) cmd payload ready
          request sound.log_valid in
      let e = delivered.returns ∙ rw (reply.returns) refl in
      record {
        body = reply.body;
        after = reply.after;
        returns = e;
        sound = subst SoundOutcome e (
            get_block-Sound (robot_ops sdk) (robot_ops-Steady sdk const)
              (arrive (send_framed_packet cmd payload) rest) c sound);
      }
