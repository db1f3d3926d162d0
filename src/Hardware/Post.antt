-- ===== src/Hardware/Post.antt =====
-- What holds of the result and of the state when a call has returned, and the calls that leave
-- `return_buf` of src/max77958.c alone.
use Prim.Native.String.{String}
use sr_firmware.Base.{
  ℕ, zero, suc, ltb, if◌then◌else◌, Bool, true, false, List, Option, none, some, ◌≡◌, refl, ◌∙◌,
}
use sr_firmware.Log.{CircularBufferLog}
use sr_firmware.Machine.{pure, ◌>>=◌, halt}
use sr_firmware.Hardware.{
  Devices, State, Io, act, ask, modify, when, log, logged, rp2040_log_e, thrown, read_register,
  write_attempts, read_attempts, i2c_write_error_handling, i2c_read_error_handling, retry_delay,
}
use sr_firmware.Hardware.Sdk.{ℤ, pos, negsuc, PicoSdk}

module _ (sdk : PicoSdk) where
  unfoldable pub Post : {A : Type 0} → (A → State sdk → Type 0) → Option (A × State sdk) → Type 0
  Post Q none = Unit
  Post Q (some (a, m)) = Q a m

  pub bind-Post :
      {A B : Type 0} (P : A → State sdk → Type 0) (Q : B → State sdk → Type 0)
      (out : Option (A × State sdk)) (next : A → Io sdk B)
      → Post P out
      → ((a : A) (m : State sdk) → P a m → Post Q (next a m))
      → Post Q (elim out [ none ↦ none | some (a, m') ↦ next a m' ])
  unfolding Post
  bind-Post P Q none next p rest = tt
  bind-Post P Q (some (a, m)) next p rest = rest a m p

  pub any-Post :
      {A : Type 0} (Q : A → State sdk → Type 0) (out : Option (A × State sdk))
      → ((a : A) (m : State sdk) → Q a m)
      → Post Q out
  unfolding Post
  any-Post Q none all = tt
  any-Post Q (some (a, m)) all = all a m

  pub weaken :
      {A : Type 0} (P Q : A → State sdk → Type 0) (out : Option (A × State sdk))
      → Post P out
      → ((a : A) (m : State sdk) → P a m → Q a m)
      → Post Q out
  unfolding Post
  weaken P Q none p all = tt
  weaken P Q (some (a, m)) p all = all a m p

  pub both-Post :
      {A : Type 0} (P Q : A → State sdk → Type 0) (out : Option (A × State sdk))
      → Post P out
      → Post Q out
      → Post (λ a m. P a m × Q a m) out
  unfolding Post
  both-Post P Q none p q = tt
  both-Post P Q (some (a, m)) p q = (p, q)

  abbrev pub buf : State sdk → List ℕ
  buf m = m.world.type_c.return_buf

  -- The program leaves the buffer as it was.
  unfoldable pub Frames : {A : Type 0} → Io sdk A → Type 0
  Frames io = (m : State sdk) → Post (λ _ m'. buf m' ≡ buf m) (io m)

  pub pure-Frames : {A : Type 0} (a : A) → Frames (pure a)
  unfolding Frames Post
  pure-Frames a m = refl

  pub halt-Frames : (A : Type 0) → Frames {A = A} halt
  unfolding Frames Post
  halt-Frames A m = tt

  pub bind-Frames :
      {A B : Type 0} (io : Io sdk A) (next : A → Io sdk B)
      → Frames io
      → ((a : A) → Frames (next a))
      → Frames (io >>= next)
  unfolding Frames
  bind-Frames io next first rest m =
      bind-Post (λ _ m'. buf m' ≡ buf m) (λ _ m'. buf m' ≡ buf m) (io m) next (first m)
        (λ a m' e.
          weaken (λ _ m''. buf m'' ≡ buf m') _ (next a m') (rest a m') (λ b m'' e'. e' ∙ e))

  pub act-Frames : (f : sdk.World → sdk.World) → Frames (act sdk f)
  unfolding Frames Post act
  act-Frames f m = refl

  pub ask-Frames : {A : Type 0} (f : sdk.World → A × sdk.World) → Frames (ask sdk f)
  unfolding Frames Post ask
  ask-Frames f m = refl

  pub modify-Frames :
      (f : Devices sdk.World → Devices sdk.World)
      → ((d : Devices sdk.World) → (f d).type_c.return_buf ≡ d.type_c.return_buf)
      → Frames (modify sdk f)
  unfolding Frames Post modify
  modify-Frames f same m = same m.world

  logged-Post :
      (m : State sdk) (out : Option CircularBufferLog)
      → Post (λ _ m'. buf m' ≡ buf m) (logged sdk m out)
  unfolding Post logged
  logged-Post m none = tt
  logged-Post m (some log') = refl

  pub log_e-Frames : (format : String) (args : List ℕ) → Frames (rp2040_log_e sdk format args)
  unfolding Frames log
  log_e-Frames format args m = logged-Post m _

  pub if-Frames :
      {A : Type 0} (b : Bool) (x y : Io sdk A) → Frames x → Frames y → Frames (if b then x else y)
  if-Frames true x y p q = p
  if-Frames false x y p q = q

  pub ruleset frames =
      (pure-Frames, halt-Frames, bind-Frames, act-Frames, ask-Frames, log_e-Frames, if-Frames)

  thrown-Frames :
      (A : Type 0) (format : String) (result : ℤ) → Frames {A = A} (thrown sdk format result)
  unfolding thrown
  thrown-Frames A format result = search (frames)

  acked-Frames :
      {A : Type 0} (result : ℤ) (ok retry : Io sdk A)
      → Frames ok
      → Frames retry
      → Frames (elim result [ pos n ↦ ok | negsuc n ↦ retry ])
  acked-Frames (pos n) ok retry p q = p
  acked-Frames (negsuc n) ok retry p q = q

  write_attempts-Frames :
      (left i2c addr : ℕ) (src : List ℕ) (nostop : Bool) (last : ℤ)
      → Frames (write_attempts sdk left i2c addr src nostop last)
  unfolding write_attempts
  write_attempts-Frames zero i2c addr src nostop last = thrown-Frames (Unit {0}) _ last
  write_attempts-Frames (suc left) i2c addr src nostop last =
      bind-Frames (ask sdk (sdk.i2c_write_timeout_us i2c addr src nostop)) _ (ask-Frames _)
        (λ result. acked-Frames result (pure tt) _ (pure-Frames tt) (
          bind-Frames (when sdk (ltb 0 left) (act sdk (sdk.sleep_ms retry_delay))) _
            (if-Frames _ _ _ (act-Frames _) (pure-Frames tt))
            (λ _. write_attempts-Frames left i2c addr src nostop result)))

  read_attempts-Frames :
      (left i2c addr len : ℕ) (nostop : Bool) (last : ℤ)
      → Frames (read_attempts sdk left i2c addr len nostop last)
  unfolding read_attempts
  read_attempts-Frames zero i2c addr len nostop last = thrown-Frames (List ℕ) _ last
  read_attempts-Frames (suc left) i2c addr len nostop last =
      bind-Frames (ask sdk (sdk.i2c_read_timeout_us i2c addr len nostop)) _ (ask-Frames _)
        (λ answer. acked-Frames answer.0 (pure answer.1) _ (pure-Frames answer.1) (
          bind-Frames (when sdk (ltb 0 left) (act sdk (sdk.sleep_ms retry_delay))) _
            (if-Frames _ _ _ (act-Frames _) (pure-Frames tt))
            (λ _. read_attempts-Frames left i2c addr len nostop answer.0)))

  pub read_register-Frames : (i2c addr reg len : ℕ) → Frames (read_register sdk i2c addr reg len)
  unfolding read_register i2c_write_error_handling i2c_read_error_handling
  read_register-Frames i2c addr reg len =
      search (frames, write_attempts-Frames, read_attempts-Frames)
