-- ===== src/TypeC/Serve.antt =====
-- The tests of `parse_interrupt_vals` of src/max77958.c: what each finds, and the handlers that
-- leave `return_buf` alone.
use sr_firmware.Base.{ℕ, Bool, true, false, Option, none, some, List, take, get_or, ◌≡◌, refl}
use sr_firmware.Machine.{pure, ◌>>◌}
use sr_firmware.Hardware.{
  Io, State, get, when, flagged, call_queue_try_add, call_queue_try_add_nonblocking,
}
use sr_firmware.Hardware.Post.{
  Post, bind-Post, any-Post, buf, Frames, frames, modify-Frames, read_register-Frames,
}
use sr_firmware.Hardware.Sdk.{PicoSdk, Entry}
use sr_firmware.TypeC.Interrupts.{pending, serve, on_opcode_cmd_response, on_pd_msg_received}
use sr_firmware.TypeC.Opcodes.{opcode_read, opcode_queue_pop, forward}
use sr_firmware.TypeC.Registers.{Constants, set_state}

module _ (sdk : PicoSdk) (const : Constants) where
  forward-Frames : (entry : Option (Entry × ℕ)) → Frames sdk (forward sdk const entry)
  unfolding forward
  forward-Frames none = search (frames)
  forward-Frames (some (func, arg)) = search (frames)

  op_code-Frames :
      (bytes : List ℕ)
      → Frames sdk (set_state sdk (λ s. record s { op_code_return_buf = take 33 bytes }))
  unfolding set_state
  op_code-Frames bytes = modify-Frames sdk _ (λ d. refl)

  finished-Frames : Frames sdk (set_state sdk (λ s. record s { opcodes_finished = true }))
  unfolding set_state
  finished-Frames = modify-Frames sdk _ (λ d. refl)

  pub on_opcode_cmd_response-Frames : Frames sdk (on_opcode_cmd_response sdk const)
  unfolding on_opcode_cmd_response opcode_read opcode_queue_pop
  on_opcode_cmd_response-Frames =
      search (frames, read_register-Frames, op_code-Frames, finished-Frames, forward-Frames) depth
        12

  pub on_pd_msg_received-Frames : Frames sdk (on_pd_msg_received sdk const)
  unfolding on_pd_msg_received call_queue_try_add call_queue_try_add_nonblocking
  on_pd_msg_received-Frames = search (frames) depth 8

  -- A test finds the bit as the buffer has it; when it does not, the buffer stays.
  unfoldable pub Tested : ℕ → ℕ → State sdk → Bool → State sdk → Type 0
  Tested i mask m on m' =
      (on ≡ flagged (get_or (buf sdk m) i 0) mask) × (on ≡ false → buf sdk m' ≡ buf sdk m)

  tested :
      (on : Bool) (handler : Io sdk (Unit {0})) (m : State sdk)
      → Post sdk
          (λ on' m'. (on' ≡ on) × (on' ≡ false → buf sdk m' ≡ buf sdk m))
          ((when sdk on handler >> pure on) m)
  unfolding Post
  tested true handler m =
      bind-Post sdk (λ _ _. Unit) _ (handler m) (λ _. pure true) (any-Post sdk _ _ (λ _ _. tt))
        (λ _ m' _. (refl, λ h. absurd cc))
  tested false handler m = (refl, λ h. refl)

  pub serve-Tested :
      (i mask : ℕ) (handler : Io sdk (Unit {0})) (m : State sdk)
      → Post sdk (Tested i mask m) (serve sdk const i mask handler m)
  unfolding serve pending get Tested
  serve-Tested i mask handler m = tested (flagged (get_or (buf sdk m) i 0) mask) handler m

  -- With a handler that leaves the buffer as it was.
  framed :
      (on : Bool) (handler : Io sdk (Unit {0})) (m : State sdk)
      → Frames sdk handler
      → Post sdk
          (λ on' m'. (on' ≡ on) × (buf sdk m' ≡ buf sdk m))
          ((when sdk on handler >> pure on) m)
  unfolding Post Frames
  framed true handler m fr =
      bind-Post sdk (λ _ m'. buf sdk m' ≡ buf sdk m) _ (handler m) (λ _. pure true) (fr m)
        (λ _ m' e. (refl, e))
  framed false handler m fr = (refl, refl)

  unfoldable pub Framed : ℕ → ℕ → State sdk → Bool → State sdk → Type 0
  Framed i mask m on m' = (on ≡ flagged (get_or (buf sdk m) i 0) mask) × (buf sdk m' ≡ buf sdk m)

  pub serve-Framed :
      (i mask : ℕ) (handler : Io sdk (Unit {0})) (m : State sdk)
      → Frames sdk handler
      → Post sdk (Framed i mask m) (serve sdk const i mask handler m)
  unfolding serve pending get Framed
  serve-Framed i mask handler m fr = framed (flagged (get_or (buf sdk m) i 0) mask) handler m fr
