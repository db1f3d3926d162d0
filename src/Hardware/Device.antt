-- ===== src/Hardware/Device.antt =====
-- A device on an I2C bus, seen through some view of the world: what a call leaves in the log and
-- in the view.
use sr_firmware.Base.{ℕ, Bool, List, ◌≡◌, ◌∙◌}
use sr_firmware.Log.{CircularBufferLog}
use sr_firmware.Hardware.{State, act, i2c_write_error_handling, i2c_read_error_handling}
use sr_firmware.Hardware.Bus.{Acked}
use sr_firmware.Hardware.Runs.{Runs, write_once, read_once}
use sr_firmware.Hardware.Sdk.{PicoSdk}

module _ (sdk : PicoSdk) {X : Type 0} (view : sdk.World → X) (log : CircularBufferLog) where
  -- The log and the view are these.
  pub record Shows (x : X) (m : State sdk) : Type 0 where
    pub same_log : m.log ≡ log
    pub shown : view m.world.outside ≡ x

  pub write-Shows :
      (i2c addr : ℕ) (src : List ℕ) (nostop : Bool) (x x' : X) (m : State sdk)
      → Acked (sdk.i2c_write_timeout_us i2c addr src nostop m.world.outside).0
      → view (sdk.i2c_write_timeout_us i2c addr src nostop m.world.outside).1 ≡ x'
      → Shows x m
      → Runs sdk (λ _ m'. Shows x' m') (i2c_write_error_handling sdk i2c addr src nostop m)
  unfolding Runs
  write-Shows i2c addr src nostop x x' m ok e s =
      rw (write_once sdk i2c addr src nostop m ok) (record { same_log = s.same_log; shown = e })

  pub read-Shows :
      (i2c addr len : ℕ) (nostop : Bool) (x : X) (bytes : List ℕ) (m : State sdk)
      → Acked (sdk.i2c_read_timeout_us i2c addr len nostop m.world.outside).0.0
      → view (sdk.i2c_read_timeout_us i2c addr len nostop m.world.outside).1 ≡ view m.world.outside
      → (sdk.i2c_read_timeout_us i2c addr len nostop m.world.outside).0.1 ≡ bytes
      → Shows x m
      → Runs sdk
          (λ got m'. (got ≡ bytes) × Shows x m')
          (i2c_read_error_handling sdk i2c addr len nostop m)
  unfolding Runs
  read-Shows i2c addr len nostop x bytes m ok keeps e s =
      rw (read_once sdk i2c addr len nostop m ok)
        (e, record { same_log = s.same_log; shown = keeps ∙ s.shown })

  pub act-Shows :
      (f : sdk.World → sdk.World) (x : X) (m : State sdk)
      → view (f m.world.outside) ≡ view m.world.outside
      → Shows x m
      → Runs sdk (λ _ m'. Shows x m') (act sdk f m)
  unfolding Runs act
  act-Shows f x m keeps s = record { same_log = s.same_log; shown = keeps ∙ s.shown }
