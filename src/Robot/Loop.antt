-- ===== src/Robot/Loop.antt =====
-- The main loop goes on, whatever arrives, on a bus that answers.
use sr_firmware.Base.{ℕ, zero, suc, Option, some, List, ◌++◌, ◌≡◌, refl}
use sr_firmware.Log.Valid.{IsValid}
use sr_firmware.Hardware.{Devices}
use sr_firmware.Hardware.Returns.{Returns}
use sr_firmware.Hardware.Sdk.{PicoSdk}
use sr_firmware.Serial.{Comm}
use sr_firmware.Serial.Progress.{get_block-Settled}
use sr_firmware.Serial.Receive.{Input}
use sr_firmware.Robot.{robot_ops}
use sr_firmware.Robot.Returns.{Answers, returns, robot_ops-AlwaysReturns}
use sr_firmware.Robot.StartHolds.{pause-Holds}
use sr_firmware.Robot.Startup.{main_loop}

module _ (sdk : PicoSdk) (bus : Answers sdk) where
  -- The rounds have been run, and the log is valid.
  pub record Running (out : Option (List ℕ × Input × Comm (Devices sdk.World))) : Type 0 where
    pub sent : List ℕ
    pub rest : Input
    pub comm : Comm (Devices sdk.World)
    pub returns : out ≡ some (sent, rest, comm)
    pub valid : IsValid comm.machine.log

  -- On a bus that acknowledges one of three attempts, with motor faults that can be cleared and a
  -- valid log, any number of rounds of the main loop is run, whatever arrives, and the log stays valid.
  pub main_loop-Running :
      (rounds : ℕ) (input : Input) (c : Comm (Devices sdk.World))
      → IsValid c.machine.log
      → Running (main_loop sdk rounds input c)
  unfolding main_loop Returns
  main_loop-Running zero input c v = record {
    sent = _;
    rest = _;
    comm = c;
    returns = refl;
    valid = v;
  }
  main_loop-Running (suc rounds) input c v =
      let got = get_block-Settled (robot_ops sdk) (robot_ops-AlwaysReturns sdk bus) input c v in
      let o = got.outcome in
      let slept = pause-Holds (returns sdk bus) o.comm.machine got.valid in
      let next = record (o.comm) { machine = slept.after } in
      let more = main_loop-Running rounds o.rest next slept.valid in
      record {
        sent = o.sent ++ more.sent;
        rest = more.rest;
        comm = more.comm;
        returns = rw (got.returns, slept.ran, more.returns, main_loop) refl;
        valid = more.valid;
      }
