-- ===== src/Robot/System.antt =====
-- The firmware as a whole: the start, then interrupts, entries of the call queue on core 1, calls of
-- `get_block` on core 0 and changes of the world outside, in any order. A step is a whole handler.
use sr_firmware.Base.{ℕ, Option, none, some, length, ◌≡◌, subst}
use sr_firmware.Log.{init}
use sr_firmware.Log.Valid.{IsValid, init-IsValid}
use sr_firmware.Machine.{◌>>◌}
use sr_firmware.Hardware.{Devices, Io, State, call_queue_try_add}
use sr_firmware.Hardware.Keeps.{Kept, Keeps, halt-Keeps, bind-Keeps, act-Keeps, ask-Keeps, keeping}
use sr_firmware.Hardware.Sdk.{PicoSdk, Entry, call_queue}
use sr_firmware.Motors
use sr_firmware.Motors.{Motor}
use sr_firmware.Motors.Voltage.{Floats}
use sr_firmware.Serial.{Comm, max_payload_size, serial_comm_manager_init}
use sr_firmware.Serial.Receive.{Input, Outcome, get_block}
use sr_firmware.Serial.Sound.{IsSound, Leaves, Steady, SoundOutcome, get_block-Sound}
use sr_firmware.Serial.State.{Rp2040State}
use sr_firmware.TypeC.Opcodes.{opcode_queue_add}
use sr_firmware.TypeC.Registers.{Constants}
use sr_firmware.Robot.{robot_ops, robot_interrupt_handler, call_queue_pop}
use sr_firmware.Robot.Holds.{
  get_state-Holds, set_motor_levels-Holds, robot_interrupt_handler-Holds, call_queue_pop-Holds,
}
use sr_firmware.Robot.StartHolds.{
  start_board-Holds, start_motors-Holds, robot_unit_tests-Holds, end_start-Holds, pause-Holds,
}
use sr_firmware.Robot.Startup.{
  start_board, start_motors, robot_unit_tests, end_start, on_start, pause,
}
use sr_firmware.Robot.TestHolds

module _ (sdk : PicoSdk) (const : Constants) where
  -- The static variables, with those of the program's other files.
  abbrev pub Firmware : Type 0
  Firmware = Comm (Devices sdk.World)

  -- One thing that happens.
  pub data Step (c : Firmware) : Firmware → Type 0 where
    interrupt :
        (gpio event_mask : ℕ) (m : State sdk)
        → robot_interrupt_handler sdk const gpio event_mask c.machine ≡ some (tt, m)
        → Step c (record c { machine = m })
    core1 :
        (m : State sdk)
        → call_queue_pop sdk const c.machine ≡ some (tt, m)
        → Step c (record c { machine = m })
    receive :
        (input : Input) (o : Outcome (Devices sdk.World))
        → get_block (robot_ops sdk) input c ≡ some o
        → Step c o.comm
    between :
        (m : State sdk) → pause sdk c.machine ≡ some (tt, m) → Step c (record c { machine = m })
    elsewhere :
        (w : sdk.World)
        → Step c (record c {
          machine = record (c.machine) { world = record (c.machine.world) { outside = w } };
        })

  -- What follows a return of `on_start`, which has begun with a receive buffer of 1024 bytes.
  pub data Reach (meanwhile : Io sdk (Unit {0})) (fuel : ℕ) (f : Floats) : Firmware → Type 0 where
    started :
        (rp2040_state : Rp2040State) (boot c : Firmware)
        → length boot.rx_buffer ≡ max_payload_size
        → on_start sdk const meanwhile fuel f rp2040_state boot ≡ some c
        → Reach meanwhile fuel f c
    step : (c c' : Firmware) → Reach meanwhile fuel f c → Step c c' → Reach meanwhile fuel f c'

  add_call : (func : Entry) (arg : ℕ) → Keeps sdk (call_queue_try_add sdk func arg)
  add_call func arg = TestHolds.call_queue_try_add-Holds (keeping sdk) (halt-Keeps sdk) func arg

  add_opcode : (func : Entry) (arg : ℕ) → Keeps sdk (opcode_queue_add sdk const func arg)
  add_opcode func arg =
      TestHolds.opcode_queue_add-Holds (keeping sdk) (halt-Keeps sdk) const func arg

  clear : (motor : Motor) (i : ℕ) → Keeps sdk (Motors.clear_fault sdk motor i)
  clear motor i = TestHolds.clear_fault-Holds (keeping sdk) (halt-Keeps sdk) motor i

  Kept-Leaves : {A : Type 0} (out : Option (A × State sdk)) → Kept sdk out → Leaves out
  unfolding Kept Leaves
  Kept-Leaves none v = tt
  Kept-Leaves (some (a, m)) v = v

  pub robot_ops-Steady : Steady (robot_ops sdk)
  unfolding robot_ops Keeps
  robot_ops-Steady = record {
    motors_leave = λ s m v. Kept-Leaves _ (set_motor_levels-Holds (keeping sdk) s m v);
    state_leaves = λ s m v. Kept-Leaves _ (get_state-Holds (keeping sdk) clear s m v);
  }

  -- What a program that keeps the log valid leaves when it has returned.
  ran :
      (io : Io sdk (Unit {0})) (m m' : State sdk)
      → Keeps sdk io
      → IsValid m.log
      → io m ≡ some (tt, m')
      → IsValid m'.log
  unfolding Keeps Kept
  ran io m m' keeps v e = subst (Kept sdk) e (keeps m v)

  pub call_queue_pop-Keeps : Keeps sdk (call_queue_pop sdk const)
  call_queue_pop-Keeps =
      call_queue_pop-Holds (keeping sdk) const add_call add_opcode (ask-Keeps sdk _)

  Step-IsSound : (c c' : Firmware) → IsSound c → Step c c' → IsSound c'
  unfolding SoundOutcome
  Step-IsSound c c' sound (interrupt gpio event_mask m e) =
      let keeps = robot_interrupt_handler-Holds (keeping sdk) const add_call gpio event_mask in
      record {
        log_valid = ran _ c.machine m keeps sound.log_valid e;
        buffer_size = sound.buffer_size;
      }
  Step-IsSound c c' sound (core1 m e) = record {
    log_valid = ran _ c.machine m call_queue_pop-Keeps sound.log_valid e;
    buffer_size = sound.buffer_size;
  }
  Step-IsSound c c' sound (receive input o e) =
      subst SoundOutcome e (get_block-Sound (robot_ops sdk) robot_ops-Steady input c sound)
  Step-IsSound c c' sound (between m e) = record {
    log_valid = ran _ c.machine m (pause-Holds (keeping sdk)) sound.log_valid e;
    buffer_size = sound.buffer_size;
  }
  Step-IsSound c c' sound (elsewhere w) = record {
    log_valid = sound.log_valid;
    buffer_size = sound.buffer_size;
  }

  SoundStart : Option Firmware → Type 0
  SoundStart none = Unit
  SoundStart (some c) = IsSound c

  ended :
      (c : Firmware) (out : Option (Unit {0} × State sdk))
      → length c.rx_buffer ≡ max_payload_size
      → Kept sdk out
      → SoundStart (elim out [ none ↦ none | some (_, m) ↦ some (record c { machine = m }) ])
  unfolding SoundStart Kept
  ended c none size v = tt
  ended c (some (_, m)) size v = record { log_valid = v; buffer_size = size }

  begun :
      (rp2040_state : Rp2040State) (boot : Firmware) (out : Option (Unit {0} × State sdk))
      → length boot.rx_buffer ≡ max_payload_size
      → Kept sdk out
      → SoundStart (elim out [
        | none ↦ none
        | some (_, m) ↦
            let c = serial_comm_manager_init rp2040_state (record boot { machine = m }) in
            elim (end_start sdk const c.machine) [
              | none ↦ none
              | some (_, m') ↦ some (record c { machine = m' })
            ]
      ])
  unfolding SoundStart Kept Keeps serial_comm_manager_init
  begun rp2040_state boot none size v = tt
  begun rp2040_state boot (some (_, m)) size v =
      ended (record boot { state = rp2040_state; machine = m }) _ size
        (end_start-Holds (keeping sdk) const m v)

  module _ (meanwhile : Io sdk (Unit {0})) (fuel : ℕ) (f : Floats)
      (during : Keeps sdk meanwhile) where
    start-Keeps :
        Keeps sdk
          (start_board sdk const >> start_motors sdk f >> robot_unit_tests sdk const meanwhile fuel)
    start-Keeps = search (
      bind-Keeps,
      start_board-Holds (keeping sdk) (halt-Keeps sdk) meanwhile during const
          (λ size n. act-Keeps sdk (sdk.queue_init call_queue size n)),
      start_motors-Holds (keeping sdk),
      robot_unit_tests-Holds (keeping sdk) (halt-Keeps sdk) meanwhile during const,
    )

    start-Sound :
        (rp2040_state : Rp2040State) (boot : Firmware)
        → length boot.rx_buffer ≡ max_payload_size
        → SoundStart (on_start sdk const meanwhile fuel f rp2040_state boot)
    unfolding on_start Keeps
    start-Sound rp2040_state boot size =
        begun rp2040_state boot _ size
          (start-Keeps (record (boot.machine) { log = init }) init-IsValid.0)

    -- When what happens during the waits of the start keeps the log valid: in every state that the
    -- firmware reaches after its start, by interrupts, entries of the call queue, calls of `get_block`
    -- and changes of the world outside in any order, the log is valid and the receive buffer has
    -- its 1024 bytes.
    pub Reach-IsSound : (c : Firmware) → Reach meanwhile fuel f c → IsSound c
    unfolding SoundStart
    Reach-IsSound _ (started rp2040_state boot c size e) =
        subst SoundStart e (start-Sound rp2040_state boot size)
    Reach-IsSound _ (step before c r s) = Step-IsSound before c (Reach-IsSound before r) s
