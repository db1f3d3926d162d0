-- ===== src/Robot/Tests.antt =====
-- Checks of the robot's functions on a bus that answers.
use sr_firmware.Base.{
  ℕ, zero, suc, ◌+◌, ◌<◌, ◌≤◌, Bool, true, false, arith, [], ◌∷◌, none, some, ◌≡◌, refl,
}
use sr_firmware.Hardware.{
  State, read_register, write_attempts, read_attempts, ask, i2c_read_error_handling,
  i2c_write_error_handling,
}
use sr_firmware.Hardware.Sdk.{
  PicoSdk, Queue, Entry, call_queue, opcode_queue, results_queue, stop_core1, pd_msg_response,
}
use sr_firmware.Serial.Packets.{AlwaysReturns}
use sr_firmware.Hardware.{Devices}
use sr_firmware.Hardware.Samples.{at_rest}
use sr_firmware.Hardware.Returns.{Done}
use sr_firmware.Log.Valid.{init-IsValid}
use sr_firmware.Serial.{Comm}
use sr_firmware.Serial.State.{zero_state}
use sr_firmware.TypeC.Samples.{constants}
use sr_firmware.TypeC.Registers.{get_interrupt_vals, fetch, set_state}
use sr_firmware.Hardware.{modify}
use sr_firmware.TypeC.Interrupts.{parse_interrupt_vals}
use sr_firmware.Robot.Core1.{run_entry-Done, IsDecoded, parse_interrupt_vals-IsDecoded}
use sr_firmware.Robot.Loop.{Running, main_loop-Running}
use sr_firmware.Robot.Places.{Places}
use sr_firmware.Robot.Samples.{board, board-Answers}
use sr_firmware.Robot.Scan.{IsScanned, i2c_scan-IsScanned}
use sr_firmware.Robot.Startup.{main_loop}
use sr_firmware.Robot.Setup.{i2c_scan}
use sr_firmware.Robot.{robot_ops, run_entry}
use sr_firmware.Robot.Returns.{Answers, robot_ops-AlwaysReturns}

-- Of the call queue and the opcode queue the free places are kept.
abbrev spare : Queue → Entry → ℕ → ℕ × ℕ → Bool × (ℕ × ℕ)
spare call_queue func arg (zero, o) = (false, (zero, o))
spare call_queue func arg (suc c, o) = (true, (c, o))
spare opcode_queue func arg (c, zero) = (false, (c, zero))
spare opcode_queue func arg (c, suc o) = (true, (c, o))
spare results_queue func arg w = (true, w)

abbrev calm : PicoSdk
calm = board {W = ℕ × ℕ} (λ call w. w) spare (λ w. ((stop_core1, 0), w))

calm-Answers : Answers calm
calm-Answers = board-Answers _ _ _

spare_call : (func : Entry) (arg : ℕ) (w : ℕ × ℕ) → 0 < w.0 → (spare call_queue func arg w).0 ≡ true
spare_call func arg (zero, o) h = absurd (omega (arith, h))
spare_call func arg (suc c, o) h = refl

spare_opcode :
    (func : Entry) (arg : ℕ) (w : ℕ × ℕ) → 0 < w.1 → (spare opcode_queue func arg w).0 ≡ true
spare_opcode func arg (c, zero) h = absurd (omega (arith, h))
spare_opcode func arg (c, suc o) h = refl

taken_call :
    (func : Entry) (arg : ℕ) (w : ℕ × ℕ)
    → (w.0 ≤ (spare call_queue func arg w).1.0 + 1) × (w.1 ≤ (spare call_queue func arg w).1.1)
taken_call func arg (zero, o) = (omega arith, omega arith)
taken_call func arg (suc c, o) = (omega arith, omega arith)

taken_opcode :
    (func : Entry) (arg : ℕ) (w : ℕ × ℕ)
    → (w.0 ≤ (spare opcode_queue func arg w).1.0) × (w.1 ≤ (spare opcode_queue func arg w).1.1 + 1)
taken_opcode func arg (c, zero) = (omega arith, omega arith)
taken_opcode func arg (c, suc o) = (omega arith, omega arith)

abbrev calm-Places : Places calm
calm-Places = record {
  calls = λ w. w.0;
  opcodes = λ w. w.1;
  adds_call = spare_call;
  takes_call = taken_call;
  adds_opcode = spare_opcode;
  takes_opcode = taken_opcode;
  removes = λ w. (omega arith, omega arith);
  sleeps = λ ms w. (omega arith, omega arith);
  writes = λ i2c addr src nostop w. (omega arith, omega arith);
  reads = λ i2c addr len nostop w. (omega arith, omega arith);
}

robot_ops-AlwaysReturns_example : AlwaysReturns (robot_ops calm)
robot_ops-AlwaysReturns_example = robot_ops-AlwaysReturns calm calm-Answers

abbrev start : State calm
start = at_rest (256, 16)

abbrev comm : Comm (Devices (ℕ × ℕ))
comm = record { state = zero_state; rx_buffer = []; machine = start }

run_entry-Done_example : Done calm (run_entry calm constants pd_msg_response 0 start)
run_entry-Done_example =
    run_entry-Done calm calm-Places calm-Answers constants pd_msg_response 0 start (omega arith)
      (omega arith) init-IsValid.0

-- A change of the charger's type and of CCStat are pending.
abbrev read_start : State calm
read_start = record start {
  world = record (start.world) {
    type_c = record (start.world.type_c) { return_buf = 0x02 ∷ 0x01 ∷ [] };
  };
}

reads : get_interrupt_vals calm constants start ≡ some (tt, read_start)
unfolding get_interrupt_vals fetch set_state modify read_register i2c_read_error_handling
    i2c_write_error_handling write_attempts read_attempts ask
reads = refl

parse_interrupt_vals-IsDecoded_example :
    IsDecoded calm calm-Places calm-Answers constants
      (0x02 ∷ 0x01 ∷ [])
      (parse_interrupt_vals calm constants start)
parse_interrupt_vals-IsDecoded_example =
    parse_interrupt_vals-IsDecoded calm calm-Places calm-Answers constants start read_start
      (omega arith) (omega arith) init-IsValid.0 reads

main_loop-Running_example :
    Running calm calm-Answers (main_loop calm 2 (some 0xfe ∷ none ∷ []) comm)
main_loop-Running_example =
    main_loop-Running calm calm-Answers 2 (some 0xfe ∷ none ∷ []) comm init-IsValid.0

i2c_scan-IsScanned_example : IsScanned calm 0x08 0x78 128 (i2c_scan calm 0 start)
i2c_scan-IsScanned_example = i2c_scan-IsScanned calm 0 start
