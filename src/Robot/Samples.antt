-- ===== src/Robot/Samples.antt =====
-- Test data: a board on which every transfer is acknowledged and reads 0x02 and 0x01, over pins
-- and a call queue that are given.
use sr_firmware.Base.{
  ℕ, Bool, ◌^◌, false, List, [], ◌∷◌, Option, none, some, ◌≡◌, refl, ap, subst, arith, get_or,
}
use sr_firmware.Hardware.{
  State, flagged, read_register, write_attempts, read_attempts, ask, i2c_read_error_handling,
  i2c_write_error_handling,
}
use sr_firmware.Hardware.Bus.{acked}
use sr_firmware.Hardware.Samples.{board_of}
use sr_firmware.Hardware.Sdk.{PicoSdk, Gpio, Entry, Queue}
use sr_firmware.Motors.{Motor, address}
use sr_firmware.Robot.Returns.{Answers}

module _ {W : Type 0} (signal : Gpio → W → W) (add : Queue → Entry → ℕ → W → Bool × W)
    (remove : W → (Entry × ℕ) × W) where
  abbrev pub board : PicoSdk
  board = board_of (record {
    write = λ src w. w;
    read = λ w. 0x02 ∷ 0x01 ∷ [];
    signal = signal;
    add = add;
    remove = remove;
  })

  -- The bytes that a call has returned.
  abbrev bytes_of : Option (List ℕ × State board) → List ℕ
  bytes_of none = []
  bytes_of (some (v, m)) = v

  fault_register_clear :
      (motor : Motor) (m m' m'' : State board) (v : List ℕ)
      → i2c_write_error_handling board 0 (address motor) (1 ∷ 2 ^ 7 ∷ []) false m ≡ some (tt, m')
      → read_register board 0 (address motor) 1 1 m' ≡ some (v, m'')
      → flagged (get_or v 0 0) 1 ≡ false
  unfolding read_register i2c_read_error_handling i2c_write_error_handling write_attempts
      read_attempts ask
  fault_register_clear motor m m' m'' v written e =
      subst (λ bytes. flagged (get_or bytes 0 0) 1 ≡ false) (ap bytes_of e) refl

  pub board-Answers : Answers board
  board-Answers = record {
    writes = λ i2c addr src nostop w. (0, omega arith, acked);
    reads = λ i2c addr len nostop w. (0, omega arith, acked);
    clears = fault_register_clear;
  }
