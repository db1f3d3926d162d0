-- ===== src/Robot/Core1.antt =====
-- The entries of the call queue return, on a bus that answers and with the places free in the queues
-- that they need.
use sr_firmware.Base.{List, ℕ, ◌≤◌, Option, some, subst, ◌≡◌, refl}
use sr_firmware.Log.Valid.{IsValid}
use sr_firmware.Hardware.{State, Io}
use sr_firmware.Hardware.Post.{Post}
use sr_firmware.Hardware.Returns.{Returns, Done}
use sr_firmware.Hardware.Runs.{Runs-Returned}
use sr_firmware.Hardware.Sdk.{PicoSdk, Entry, max77958_parse_interrupt_vals, pd_msg_response}
use sr_firmware.Robot.{run_entry}
use sr_firmware.Robot.Holds.{plain-Holds}
use sr_firmware.Robot.Places.{Places, Free, Spends, pure-Spends, take-Spends}
use sr_firmware.Robot.Returns.{Answers, returns}
use sr_firmware.Robot.Spending.{parse_interrupt_vals-Spends, pd_message-Spends}
use sr_firmware.TypeC.Decode.{parse-Decodes}
use sr_firmware.TypeC.Interrupts
use sr_firmware.TypeC.Marks.{Decodes}
use sr_firmware.TypeC.Registers
use sr_firmware.TypeC.Registers.{Constants}

-- The places that an entry may take in the call queue and in the opcode queue.
abbrev pub calls_needed : Entry → ℕ
calls_needed max77958_parse_interrupt_vals = 3
calls_needed pd_msg_response = 1
calls_needed other = 0

abbrev pub opcodes_needed : Entry → ℕ
opcodes_needed max77958_parse_interrupt_vals = 1
opcodes_needed pd_msg_response = 1
opcodes_needed other = 0

module _ (sdk : PicoSdk) (places : Places sdk) where
  Spends-Done :
      {A : Type 0} (c o c' o' : ℕ) (io : Io sdk A) (m : State sdk)
      → Spends sdk places c o c' o' io
      → Free sdk places c o m
      → Done sdk (io m)
  unfolding Spends
  Spends-Done c o c' o' io m s v =
      let r = Runs-Returned sdk _ (io m) (s m v) in
      record { result = r.result; after = r.after; ran = r.ran; valid = r.holds.log_valid }

  module _ (bus : Answers sdk) (const : Constants) where
    -- On a bus that acknowledges one of three attempts, with a valid log, and with places free in
    -- the bounded queues, which nothing else takes meanwhile, 3 in the call queue and 1 in the
    -- opcode queue for `max77958_parse_interrupt_vals`, 1 and 1 for `pd_msg_response` and none for
    -- all others: every entry of the call queue, with any argument, returns and leaves the log
    -- valid, so that core 1 does not stop in it.
    pub run_entry-Done :
        (func : Entry) (arg : ℕ) (m : State sdk)
        → calls_needed func ≤ places.calls m.world.outside
        → opcodes_needed func ≤ places.opcodes m.world.outside
        → IsValid m.log
        → Done sdk (run_entry sdk const func arg m)
    unfolding Returns run_entry
    run_entry-Done max77958_parse_interrupt_vals arg m c o v =
        Spends-Done 3 1 0 0 _ m
          (take-Spends sdk places 3 1 0 0 _ _ (parse_interrupt_vals-Spends sdk places const bus)
            (λ _. pure-Spends sdk places 0 0 tt))
          (record { calls = c; opcodes = o; log_valid = v })
    run_entry-Done pd_msg_response arg m c o v =
        Spends-Done 1 1 0 0 _ m (pd_message-Spends sdk places const bus)
          (record { calls = c; opcodes = o; log_valid = v })
    run_entry-Done other arg m c o v = plain-Holds (returns sdk bus) const other arg refl m v

    -- `parse_interrupt_vals` has returned, with the bits for these bytes.
    pub record IsDecoded (bytes : List ℕ) (out : Option (ℕ × State sdk)) : Type 0 where
      pub return_val : ℕ
      pub after : State sdk
      pub returns : out ≡ some (return_val, after)
      pub valid : IsValid after.log
      pub decodes : Decodes bytes return_val

    -- On a bus that acknowledges one of three attempts, with 3 places free in the call queue and 1
    -- in the opcode queue, which nothing else takes meanwhile, and a valid log:
    -- `parse_interrupt_vals` returns, and its result has the bits of the interrupts that are
    -- pending in the bytes that it has read into its buffer: those of UIC_INT and PD_INT always;
    -- those of CC_INT only when the charger's type has not changed, and of these the last three
    -- only when CCStat has not changed either. When the charger's type has changed, no interrupt
    -- of CC_INT is served.
    pub parse_interrupt_vals-IsDecoded :
        (m m0 : State sdk)
        → 3 ≤ places.calls m.world.outside
        → 1 ≤ places.opcodes m.world.outside
        → IsValid m.log
        → Registers.get_interrupt_vals sdk const m ≡ some (tt, m0)
        → IsDecoded m0.world.type_c.return_buf (Interrupts.parse_interrupt_vals sdk const m)
    unfolding Post
    parse_interrupt_vals-IsDecoded m m0 c o v read =
        let d =
          Spends-Done 3 1 0 0 _ m (parse_interrupt_vals-Spends sdk places const bus)
            (record { calls = c; opcodes = o; log_valid = v }) in
        record {
          return_val = d.result;
          after = d.after;
          returns = d.ran;
          valid = d.valid;
          decodes =
              subst (Post sdk (λ val _. Decodes m0.world.type_c.return_buf val)) d.ran
                (parse-Decodes sdk const m m0 read);
        }
