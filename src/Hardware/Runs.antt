-- ===== src/Hardware/Runs.antt =====
-- Calls of the drivers that return, with what holds of the result and of the state after them.
use sr_firmware.Base.{
  ℕ, Bool, true, false, if◌then◌else◌, List, Option, none, some, ◌≡◌, refl, subst, inl, inr,
}
use sr_firmware.Hardware.{
  State, Io, ask, write_attempts, i2c_write_error_handling, read_attempts, i2c_read_error_handling,
}
use sr_firmware.Hardware.Bus.{Acked, negative_not-Acked, sign, with_outside}
use sr_firmware.Hardware.Sdk.{PicoSdk}

module _ (sdk : PicoSdk) where
  unfoldable pub Runs : {A : Type 0} → (A → State sdk → Type 0) → Option (A × State sdk) → Type 0
  Runs Q none = ⊥
  Runs Q (some (a, m)) = Q a m

  pub bind-Runs :
      {A B : Type 0} (P : A → State sdk → Type 0) (Q : B → State sdk → Type 0)
      (out : Option (A × State sdk)) (next : A → Io sdk B)
      → Runs P out
      → ((a : A) (m : State sdk) → P a m → Runs Q (next a m))
      → Runs Q (elim out [ none ↦ none | some (a, m') ↦ next a m' ])
  unfolding Runs
  bind-Runs P Q none next p rest = absurd p
  bind-Runs P Q (some (a, m)) next p rest = rest a m p

  pub weaken-Runs :
      {A : Type 0} (P Q : A → State sdk → Type 0) (out : Option (A × State sdk))
      → Runs P out
      → ((a : A) (m : State sdk) → P a m → Q a m)
      → Runs Q out
  unfolding Runs
  weaken-Runs P Q none p all = absurd p
  weaken-Runs P Q (some (a, m)) p all = all a m p

  pub if-Runs :
      {A : Type 0} (Q : A → State sdk → Type 0) (b : Bool) (x y : Io sdk A) (m : State sdk)
      → (b ≡ true → Runs Q (x m))
      → (b ≡ false → Runs Q (y m))
      → Runs Q ((if b then x else y) m)
  if-Runs Q true x y m p q = p refl
  if-Runs Q false x y m p q = q refl

  -- A transfer that is acknowledged is made once.
  pub write_once :
      (i2c addr : ℕ) (src : List ℕ) (nostop : Bool) (m : State sdk)
      → Acked (sdk.i2c_write_timeout_us i2c addr src nostop m.world.outside).0
      → i2c_write_error_handling sdk i2c addr src nostop m
        ≡ some (
          tt,
          with_outside sdk m (sdk.i2c_write_timeout_us i2c addr src nostop m.world.outside).1,
        )
  unfolding i2c_write_error_handling write_attempts ask
  write_once i2c addr src nostop m ok =
      elim (sign (sdk.i2c_write_timeout_us i2c addr src nostop m.world.outside).0) [
        | inl (n, e) ↦ rw (e) refl
        | inr (n, e) ↦ absurd (negative_not-Acked (subst Acked e ok))
      ]

  pub read_once :
      (i2c addr len : ℕ) (nostop : Bool) (m : State sdk)
      → Acked (sdk.i2c_read_timeout_us i2c addr len nostop m.world.outside).0.0
      → i2c_read_error_handling sdk i2c addr len nostop m
        ≡ some (
          (sdk.i2c_read_timeout_us i2c addr len nostop m.world.outside).0.1,
          with_outside sdk m (sdk.i2c_read_timeout_us i2c addr len nostop m.world.outside).1,
        )
  unfolding i2c_read_error_handling read_attempts ask
  read_once i2c addr len nostop m ok =
      elim (sign (sdk.i2c_read_timeout_us i2c addr len nostop m.world.outside).0.0) [
        | inl (n, e) ↦ rw (e) refl
        | inr (n, e) ↦ absurd (negative_not-Acked (subst Acked e ok))
      ]

  -- What has returned.
  pub record Returned {A : Type 0} (Q : A → State sdk → Type 0) (out : Option (A × State sdk))
      : Type 0 where
    pub result : A
    pub after : State sdk
    pub ran : out ≡ some (result, after)
    pub holds : Q result after

  pub Runs-Returned :
      {A : Type 0} (Q : A → State sdk → Type 0) (out : Option (A × State sdk))
      → Runs Q out
      → Returned Q out
  unfolding Runs
  Runs-Returned Q none p = absurd p
  Runs-Returned Q (some (a, m)) p = record { result = a; after = m; ran = refl; holds = p }
