-- ===== src/Hardware/Bus.antt =====
-- The retries of `i2c_write_error_handling`.
use sr_firmware.Base.{
  ℕ, zero, suc, ◌<◌, ltb, Bool, true, List, Option, some, none, ◌≡◌, subst, sym, refl,
}
use sr_firmware.Base.{arith, ◌≤◌, [], ◌∷◌, ◌⊎◌, inl, inr}
use Prim.Native.String.{String}
use sr_firmware.Log.{log_level_error}
use sr_firmware.Hardware.{
  State, int_bits, log, thrown, ask, act, retry_delay, write_attempts, i2c_write_error_handling,
}
use sr_firmware.Hardware.Sdk.{ℤ, pos, negsuc, PicoSdk}

-- A result that is not negative.
pub data Acked : ℤ → Type 0 where
  acked : {n : ℕ} → Acked (pos n)

-- A negative result.
pub data Failed : ℤ → Type 0 where
  failed : {n : ℕ} → Failed (negsuc n)

pub negative_not-Acked : {n : ℕ} → ¬ Acked (negsuc n)
negative_not-Acked = elim [ ]

pub sign : (r : ℤ) → ((n : ℕ) × (r ≡ pos n)) ⊎ ((n : ℕ) × (r ≡ negsuc n))
sign (pos n) = inl (n, refl)
sign (negsuc n) = inr (n, refl)

pub failure : {r : ℤ} → Failed r → (n : ℕ) × (r ≡ negsuc n)
failure (failed {n = n}) = (n, refl)

pub acked? : (r : ℤ) → Acked r ⊎ Failed r
acked? (pos n) = inl acked
acked? (negsuc n) = inr failed

module _ (sdk : PicoSdk) where
  -- The machine with another outside.
  abbrev pub with_outside : State sdk → sdk.World → State sdk
  with_outside m w = record m { world = record (m.world) { outside = w } }

  unfoldable pub stopped : {A B : Type 0} → Option (B × State sdk) → Option (A × State sdk)
  stopped none = none
  stopped (some _) = none

  pub stopped-none : {A B : Type 0} (out : Option (B × State sdk)) → stopped {A = A} out ≡ none
  unfolding stopped
  stopped-none none = refl
  stopped-none (some _) = refl

  pub thrown-none :
      {A : Type 0} (format : String) (r : ℤ) (m : State sdk) → thrown sdk {A = A} format r m ≡ none
  unfolding thrown stopped
  thrown-none format r m =
      stopped-none (log sdk log_level_error format (int_bits r ∷ int_bits r ∷ []) m)

  -- What a call leaves outside after that many failed attempts, each with the pause behind it.
  unfoldable pub after_failures : (sdk.World → sdk.World) → ℕ → sdk.World → sdk.World
  after_failures call zero w = w
  after_failures call (suc k) w = after_failures call k (sdk.sleep_ms retry_delay (call w))

  module _ (i2c addr : ℕ) (src : List ℕ) (nostop : Bool) where
    abbrev pub write : sdk.World → ℤ × sdk.World
    write = sdk.i2c_write_timeout_us i2c addr src nostop

    abbrev pub after_writes : ℕ → sdk.World → sdk.World
    after_writes = after_failures (λ w. (write w).1)

    -- The call has returned after the first acknowledged attempt.
    pub record Written (k : ℕ) (m : State sdk) (out : Option (Unit {0} × State sdk)) : Type 0 where
      pub attempt : ℕ
      pub early : attempt ≤ k
      pub last : Acked (write (after_writes attempt m.world.outside)).0
      pub returns : out ≡ some (tt, with_outside m (write (after_writes attempt m.world.outside)).1)

    at_once :
        (left k : ℕ) (last : ℤ) (m : State sdk) (n : ℕ)
        → (write m.world.outside).0 ≡ pos n
        → Written k m (write_attempts sdk (suc left) i2c addr src nostop last m)
    unfolding write_attempts ask after_failures
    at_once left k last m n e = record {
      attempt = 0;
      early = omega arith;
      last = subst Acked (sym e) acked;
      returns = rw (e) refl;
    }

    write_attempts-Written :
        (left k : ℕ) (last : ℤ) (m : State sdk)
        → k < left
        → Acked (write (after_writes k m.world.outside)).0
        → Written k m (write_attempts sdk left i2c addr src nostop last m)
    unfolding write_attempts ask act after_failures
    write_attempts-Written zero k last m h ok = absurd (omega arith)
    write_attempts-Written (suc left) zero last m h ok = elim (sign (write m.world.outside).0) [
      | inl (n, e) ↦ at_once left zero last m n e
      | inr (n, e) ↦ absurd (negative_not-Acked (subst Acked e ok))
    ]
    write_attempts-Written (suc zero) (suc k) last m h ok = absurd (omega arith)
    write_attempts-Written (suc (suc left)) (suc k) last m h ok =
        elim (sign (write m.world.outside).0) [
          | inl (n, e) ↦ at_once (suc left) (suc k) last m n e
          | inr (n, e) ↦
              let next = with_outside m (sdk.sleep_ms retry_delay (write m.world.outside).1) in
              let more : ltb 0 (suc left) ≡ true = ground arith in
              let rest = write_attempts-Written (suc left) k (negsuc n) next (omega arith) ok in
              record {
                attempt = suc rest.attempt;
                early = omega (arith, rest.early);
                last = rest.last;
                returns = rw (e, more) rest.returns;
              }
        ]

    -- When one of the first three attempts of a write is acknowledged, `i2c_write_error_handling`
    -- returns, after the first attempt that is and the pause behind each before; only the outside
    -- changes.
    pub i2c_write_error_handling-Written :
        (k : ℕ) (m : State sdk)
        → k < 3
        → Acked (write (after_writes k m.world.outside)).0
        → Written k m (i2c_write_error_handling sdk i2c addr src nostop m)
    unfolding i2c_write_error_handling
    i2c_write_error_handling-Written k m h ok = write_attempts-Written 3 k (pos 0) m h ok

    -- When three attempts of a write, with the pauses between them, fail,
    -- `i2c_write_error_handling` does not return.
    pub i2c_write_error_handling_halts :
        (m : State sdk)
        → ((k : ℕ) → k < 3 → Failed (write (after_writes k m.world.outside)).0)
        → i2c_write_error_handling sdk i2c addr src nostop m ≡ none
    unfolding i2c_write_error_handling write_attempts ask act after_failures
    i2c_write_error_handling_halts m fails =
        let first = failure (fails 0 (omega arith)) in
        let second = failure (fails 1 (omega arith)) in
        let third = failure (fails 2 (omega arith)) in
        let w = after_writes 2 m.world.outside in
        rw (first.1, second.1, third.1) (thrown-none _ (write w).0 (with_outside m (write w).1))
