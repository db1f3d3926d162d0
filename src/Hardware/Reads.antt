-- ===== src/Hardware/Reads.antt =====
-- The retries of `i2c_read_error_handling`.
use sr_firmware.Base.{
  ℕ, zero, suc, ◌<◌, ltb, Bool, true, List, Option, some, none, ◌≡◌, subst, sym, refl, arith, ◌≤◌,
  inl, inr,
}
use sr_firmware.Hardware.{State, ask, act, retry_delay, read_attempts, i2c_read_error_handling}
use sr_firmware.Hardware.Bus.{
  Acked, acked, Failed, negative_not-Acked, sign, failure, after_failures, with_outside,
  thrown-none,
}
use sr_firmware.Hardware.Sdk.{ℤ, pos, negsuc, PicoSdk}

module _ (sdk : PicoSdk) where
  module _ (i2c addr len : ℕ) (nostop : Bool) where
    abbrev pub read : sdk.World → (ℤ × List ℕ) × sdk.World
    read = sdk.i2c_read_timeout_us i2c addr len nostop

    abbrev pub after_reads : ℕ → sdk.World → sdk.World
    after_reads = after_failures sdk (λ w. (read w).1)

    -- The call has returned after the first acknowledged attempt.
    pub record Read (k : ℕ) (m : State sdk) (out : Option (List ℕ × State sdk)) : Type 0 where
      pub attempt : ℕ
      pub early : attempt ≤ k
      pub last : Acked (read (after_reads attempt m.world.outside)).0.0
      pub returns :
          out
          ≡ some (
            (read (after_reads attempt m.world.outside)).0.1,
            with_outside sdk m (read (after_reads attempt m.world.outside)).1,
          )

    at_once :
        (left k : ℕ) (last : ℤ) (m : State sdk) (n : ℕ)
        → (read m.world.outside).0.0 ≡ pos n
        → Read k m (read_attempts sdk (suc left) i2c addr len nostop last m)
    unfolding read_attempts ask after_failures
    at_once left k last m n e = record {
      attempt = 0;
      early = omega arith;
      last = subst Acked (sym e) acked;
      returns = rw (e) refl;
    }

    read_attempts-Read :
        (left k : ℕ) (last : ℤ) (m : State sdk)
        → k < left
        → Acked (read (after_reads k m.world.outside)).0.0
        → Read k m (read_attempts sdk left i2c addr len nostop last m)
    unfolding read_attempts ask act after_failures
    read_attempts-Read zero k last m h ok = absurd (omega arith)
    read_attempts-Read (suc left) zero last m h ok = elim (sign (read m.world.outside).0.0) [
      | inl (n, e) ↦ at_once left zero last m n e
      | inr (n, e) ↦ absurd (negative_not-Acked (subst Acked e ok))
    ]
    read_attempts-Read (suc zero) (suc k) last m h ok = absurd (omega arith)
    read_attempts-Read (suc (suc left)) (suc k) last m h ok =
        elim (sign (read m.world.outside).0.0) [
          | inl (n, e) ↦ at_once (suc left) (suc k) last m n e
          | inr (n, e) ↦
              let next = with_outside sdk m (sdk.sleep_ms retry_delay (read m.world.outside).1) in
              let more : ltb 0 (suc left) ≡ true = ground arith in
              let rest = read_attempts-Read (suc left) k (negsuc n) next (omega arith) ok in
              record {
                attempt = suc rest.attempt;
                early = omega (arith, rest.early);
                last = rest.last;
                returns = rw (e, more) rest.returns;
              }
        ]

    -- When one of the first three attempts of a read is acknowledged, `i2c_read_error_handling`
    -- returns, after the first attempt that is and the pause behind each before; it returns what
    -- that attempt read.
    pub i2c_read_error_handling-Read :
        (k : ℕ) (m : State sdk)
        → k < 3
        → Acked (read (after_reads k m.world.outside)).0.0
        → Read k m (i2c_read_error_handling sdk i2c addr len nostop m)
    unfolding i2c_read_error_handling
    i2c_read_error_handling-Read k m h ok = read_attempts-Read 3 k (pos 0) m h ok

    -- When three attempts of a read, with the pauses between them, fail, `i2c_read_error_handling`
    -- does not return.
    i2c_read_error_handling_halts :
        (m : State sdk)
        → ((k : ℕ) → k < 3 → Failed (read (after_reads k m.world.outside)).0.0)
        → i2c_read_error_handling sdk i2c addr len nostop m ≡ none
    unfolding i2c_read_error_handling read_attempts ask act after_failures
    i2c_read_error_handling_halts m fails =
        let first = failure (fails 0 (omega arith)) in
        let second = failure (fails 1 (omega arith)) in
        let third = failure (fails 2 (omega arith)) in
        let w = after_reads 2 m.world.outside in
        rw (first.1, second.1, third.1)
          (thrown-none sdk _ (read w).0.0 (with_outside sdk m (read w).1))
