-- ===== src/Robot/Returns.antt =====
-- The commands return on a bus that answers: the drivers' programs, put together from the calls.
use sr_firmware.Base.{ℕ, ◌^◌, ◌<◌, Bool, false, List, [], ◌∷◌, get_or, ◌≡◌, refl, ◌∙◌, some}
use sr_firmware.Machine.{◌>>=◌, halt}
use sr_firmware.Hardware.{
  State, Io, when, flagged, read_register, i2c_write_error_handling, i2c_read_error_handling,
  rp2040_log_e,
}
use sr_firmware.Hardware.Bus.{Acked, i2c_write_error_handling-Written, after_writes, write}
use sr_firmware.Hardware.Reads.{i2c_read_error_handling-Read, after_reads, read}
use sr_firmware.Hardware.Returns.{
  Returns, pure-Returns, bind-Returns, act-Returns, ask-Returns, get-Returns, modify-Returns,
  log_w-Returns, log_e-Returns, bind-some,
}
use sr_firmware.Hardware.Sdk.{PicoSdk}
use sr_firmware.Serial.Packets.{AlwaysReturns}
use sr_firmware.Motors
use sr_firmware.Motors.{Motor, motor_left, motor_right, address}
use sr_firmware.Robot
use sr_firmware.Robot.Holds.{get_state-Holds, set_motor_levels-Holds}
use sr_firmware.Hardware.Logic.{Logic, read_register-Holds}

-- What the bus has to do: of three attempts at a call, one is acknowledged; and a motor driver that was
-- told to clear its faults shows none.
pub record Answers (sdk : PicoSdk) : Type 0 where
  pub writes :
      (i2c addr : ℕ) (src : List ℕ) (nostop : Bool) (w : sdk.World)
      → (k : ℕ) × (k < 3)
        × Acked (write sdk i2c addr src nostop (after_writes sdk i2c addr src nostop k w)).0
  pub reads :
      (i2c addr len : ℕ) (nostop : Bool) (w : sdk.World)
      → (k : ℕ) × (k < 3)
        × Acked (read sdk i2c addr len nostop (after_reads sdk i2c addr len nostop k w)).0.0
  pub clears :
      (motor : Motor) (m m' m'' : State sdk) (v : List ℕ)
      → i2c_write_error_handling sdk 0 (address motor) (1 ∷ 2 ^ 7 ∷ []) false m ≡ some (tt, m')
      → read_register sdk 0 (address motor) 1 1 m' ≡ some (v, m'')
      → flagged (get_or v 0 0) 1 ≡ false

module _ (sdk : PicoSdk) (bus : Answers sdk) where
  pub write-Returns :
      (i2c addr : ℕ) (src : List ℕ) (nostop : Bool)
      → Returns sdk (i2c_write_error_handling sdk i2c addr src nostop)
  unfolding Returns
  write-Returns i2c addr src nostop m v =
      let (k, h, ok) = bus.writes i2c addr src nostop m.world.outside in
      let w = i2c_write_error_handling-Written sdk i2c addr src nostop k m h ok in
      record { result = tt; after = _; ran = w.returns; valid = v }

  pub read-Returns :
      (i2c addr len : ℕ) (nostop : Bool)
      → Returns sdk (i2c_read_error_handling sdk i2c addr len nostop)
  unfolding Returns
  read-Returns i2c addr len nostop m v =
      let (k, h, ok) = bus.reads i2c addr len nostop m.world.outside in
      let r = i2c_read_error_handling-Read sdk i2c addr len nostop k m h ok in
      record { result = _; after = _; ran = r.returns; valid = v }

  abbrev pub returns : Logic sdk
  returns = record {
    Holds = Returns sdk;
    pure_holds = pure-Returns sdk;
    bind_holds = bind-Returns sdk;
    act_holds = λ f _. act-Returns sdk f;
    ask_holds = λ f _. ask-Returns sdk f;
    get_holds = get-Returns sdk;
    modify_holds = modify-Returns sdk;
    log_w_holds = log_w-Returns sdk;
    log_e_holds = log_e-Returns sdk;
    write_holds = write-Returns;
    read_holds = read-Returns;
  }

  -- The fault that is read after it was cleared is none.
  clear_fault-Returns : (motor : Motor) (i : ℕ) → Returns sdk (Motors.clear_fault sdk motor i)
  unfolding Motors.clear_fault Returns
  clear_fault-Returns motor i m v =
      let w = write-Returns 0 (address motor) (1 ∷ 2 ^ 7 ∷ []) false m v in
      let r = read_register-Holds returns 0 (address motor) 1 1 w.after w.valid in
      let clear = bus.clears motor m w.after r.after r.result w.ran r.ran in
      let check : List ℕ → Io sdk (Unit {0}) = λ fault_value.
        when sdk (flagged (get_or fault_value 0 0) 1) (
          rp2040_log_e sdk "ERROR: Motor %d cannot clear faults. Exiting.\n" (i ∷ []) >>= λ _.
          halt) in
      record {
        result = tt;
        after = r.after;
        ran =
            bind-some sdk (i2c_write_error_handling sdk 0 (address motor) (1 ∷ 2 ^ 7 ∷ []) false)
              (λ _. read_register sdk 0 (address motor) 1 1 >>= check) w.ran
            ∙ bind-some sdk (read_register sdk 0 (address motor) 1 1) check r.ran
            ∙ rw (clear) refl;
        valid = r.valid;
      }

  -- On a bus that acknowledges one of three attempts, and with motor faults that can be cleared,
  -- the functions of src/robot.c that `handle_packet` calls return, and leave a valid log valid.
  pub robot_ops-AlwaysReturns : AlwaysReturns (Robot.robot_ops sdk)
  unfolding Robot.robot_ops Returns
  robot_ops-AlwaysReturns = record {
    motors_return =
        λ s m v. let d = set_motor_levels-Holds returns s m v in (d.after, d.ran, d.valid);
    state_returns = λ s m v.
        let d = get_state-Holds returns clear_fault-Returns s m v in
        (d.result, d.after, d.ran, d.valid);
  }
