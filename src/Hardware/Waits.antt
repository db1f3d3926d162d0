-- ===== src/Hardware/Waits.antt =====
-- The loop of the drivers' tests that waits for the response to an interrupt.
use Prim.Native.String.{String}
use sr_firmware.Base.{
  ℕ, zero, suc, ◌+◌, ◌≤◌, ◌<◌, ltb, ltb→lt, Bool, true, false, if◌then◌else◌, Option, none, some,
  [], ◌≡◌, refl, subst, sym, arith,
}
use sr_firmware.Machine.{pure, ◌>>=◌, halt}
use sr_firmware.Log.{log_level_error}
use sr_firmware.Hardware.{Devices, State, Io, act, get, log, rp2040_log_e, wait, wait_rounds}
use sr_firmware.Hardware.Bus.{with_outside, stopped, stopped-none}
use sr_firmware.Hardware.Sdk.{PicoSdk, tight_loop_contents}

module _ (sdk : PicoSdk) (completed : Devices sdk.World → Bool) (message : String)
    (meanwhile : Io sdk (Unit {0})) where
  -- What a round does: the sleep, with all that happens meanwhile.
  abbrev pub round : Io sdk (Unit {0})
  round m =
      meanwhile
        (with_outside sdk m (sdk.setup tight_loop_contents (sdk.sleep_ms 10 m.world.outside)))

  -- The loop without fuel, from a count of rounds on.
  pub data Waits : ℕ → State sdk → Option (ℕ × State sdk) → Type 0 where
    responded : (i : ℕ) (m : State sdk) → completed m.world ≡ true → Waits i m (some (i, m))
    stuck : (i : ℕ) (m : State sdk) → completed m.world ≡ false → round m ≡ none → Waits i m none
    timed_out :
        (i : ℕ) (m m' : State sdk)
        → completed m.world ≡ false
        → round m ≡ some (tt, m')
        → 1000 ≤ i
        → Waits i m none
    again :
        (i : ℕ) (m m' : State sdk) (out : Option (ℕ × State sdk))
        → completed m.world ≡ false
        → round m ≡ some (tt, m')
        → i < 1000
        → Waits (i + 1) m' out
        → Waits i m out

  -- The end of a round: past the thousandth the core is stopped.
  round_end : (ℕ → Io sdk ℕ) → ℕ → Bool → Io sdk ℕ
  round_end rest i late = if late then (rp2040_log_e sdk message [] >>= λ _. halt) else rest (i + 1)

  round_end-Waits :
      (rest : ℕ → Io sdk ℕ) (i : ℕ) (late : Bool) (m m' : State sdk)
      → ltb 1000 (i + 1) ≡ late
      → completed m.world ≡ false
      → round m ≡ some (tt, m')
      → (i < 1000 → Waits (i + 1) m' (rest (i + 1) m'))
      → Waits i m (round_end rest i late m')
  unfolding round_end stopped
  round_end-Waits rest i true m m' e idle e' next =
      subst (Waits i m) (sym (stopped-none sdk (log sdk log_level_error message [] m')))
        (timed_out i m m' idle e' (omega (arith, ltb→lt 1000 (i + 1) e)))
  round_end-Waits rest i false m m' e idle e' next =
      let early : i < 1000 = ground (arith, e) in again i m m' _ idle e' early (next early)

  continued : (ℕ → Io sdk ℕ) → ℕ → Option (Unit {0} × State sdk) → Option (ℕ × State sdk)
  continued rest i none = none
  continued rest i (some (_, m)) = round_end rest i (ltb 1000 (i + 1)) m

  continued-Waits :
      (rest : ℕ → Io sdk ℕ) (i : ℕ) (m : State sdk) (out : Option (Unit {0} × State sdk))
      → completed m.world ≡ false
      → round m ≡ out
      → ((m' : State sdk) → i < 1000 → Waits (i + 1) m' (rest (i + 1) m'))
      → Waits i m (continued rest i out)
  unfolding continued
  continued-Waits rest i m none idle e next = stuck i m idle e
  continued-Waits rest i m (some (_, m')) idle e next =
      round_end-Waits rest i (ltb 1000 (i + 1)) m m' refl idle e (next m')

  test-Waits :
      (b : Bool) (body : Io sdk ℕ) (i : ℕ) (m : State sdk)
      → completed m.world ≡ b
      → (completed m.world ≡ false → Waits i m (body m))
      → Waits i m ((if b then pure i else body) m)
  test-Waits true body i m e rest = responded i m e
  test-Waits false body i m e rest = rest e

  wait_rounds-Waits :
      (left i : ℕ) (m : State sdk)
      → 0 < left
      → 1000 < left + i
      → Waits i m (wait_rounds sdk completed message meanwhile left i m)
  unfolding wait_rounds get act continued round_end
  wait_rounds-Waits zero i m h h' = absurd (omega (arith, h))
  wait_rounds-Waits (suc left) i m h h' = test-Waits (completed m.world) _ i m refl (λ e.
      continued-Waits (wait_rounds sdk completed message meanwhile left) i m (round m) e refl
        (λ m' early.
          wait_rounds-Waits left (i + 1) m' (omega (arith, h', early)) (omega (arith, h'))))

  -- The wait of the drivers' tests, from any count of rounds on, does what its loop does without
  -- fuel: its 1001 rounds are enough. It returns the count at the first test that finds the
  -- response; it does not return when no response is found before a round from the count 1000 on
  -- has ended, or when what happens meanwhile in a round does not.
  pub wait-Waits : (i : ℕ) (m : State sdk) → Waits i m (wait sdk completed message meanwhile i m)
  unfolding wait
  wait-Waits i m = wait_rounds-Waits 1001 i m (omega arith) (omega arith)
