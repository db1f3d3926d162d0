-- ===== src/Hardware/Keeps.antt =====
-- Programs that keep the log valid whenever they return, on any bus.
use Prim.Native.String.{String}
use sr_firmware.Base.{
  ℕ, zero, suc, ltb, Bool, true, false, List, Option, none, some, ◌≤◌, arith, sym, subst,
}
use sr_firmware.Log.{log_level, log_level_warning, log_level_error}
use sr_firmware.Log.Valid.{IsValid}
use sr_firmware.Machine.{pure, ◌>>=◌, halt}
use sr_firmware.Hardware.{
  Devices, State, Io, act, ask, get, modify, when, log, rp2040_log_w, rp2040_log_e, thrown,
  write_attempts, read_attempts, i2c_write_error_handling, i2c_read_error_handling, retry_delay,
}
use sr_firmware.Hardware.Logic.{Logic}
use sr_firmware.Hardware.Returns.{Done, Returns, log-Returns}
use sr_firmware.Hardware.Sdk.{ℤ, pos, negsuc, PicoSdk}

module _ (sdk : PicoSdk) where
  -- The log of a call that has returned is valid.
  unfoldable pub Kept : {A : Type 0} → Option (A × State sdk) → Type 0
  Kept none = Unit
  Kept (some (a, m)) = IsValid m.log

  unfoldable pub Keeps : {A : Type 0} → Io sdk A → Type 0
  Keeps io = (m : State sdk) → IsValid m.log → Kept (io m)

  pub pure-Keeps : {A : Type 0} (a : A) → Keeps (pure a)
  unfolding Keeps Kept
  pure-Keeps a m v = v

  pub halt-Keeps : (A : Type 0) → Keeps {A = A} halt
  unfolding Keeps Kept
  halt-Keeps A m v = tt

  next-Kept :
      {A B : Type 0} (out : Option (A × State sdk)) (next : A → Io sdk B)
      → Kept out
      → ((a : A) → Keeps (next a))
      → Kept (elim out [ none ↦ none | some (a, m') ↦ next a m' ])
  unfolding Keeps Kept
  next-Kept none next v rest = tt
  next-Kept (some (a, m')) next v rest = rest a m' v

  pub bind-Keeps :
      {A B : Type 0} (io : Io sdk A) (next : A → Io sdk B)
      → Keeps io
      → ((a : A) → Keeps (next a))
      → Keeps (io >>= next)
  unfolding Keeps
  bind-Keeps io next first rest m v = next-Kept (io m) next (first m v) rest

  pub act-Keeps : (f : sdk.World → sdk.World) → Keeps (act sdk f)
  unfolding Keeps Kept act
  act-Keeps f m v = v

  pub ask-Keeps : {A : Type 0} (f : sdk.World → A × sdk.World) → Keeps (ask sdk f)
  unfolding Keeps Kept ask
  ask-Keeps f m v = v

  pub get-Keeps : {A : Type 0} (f : Devices sdk.World → A) → Keeps (get sdk f)
  unfolding Keeps Kept get
  get-Keeps f m v = v

  pub modify-Keeps : (f : Devices sdk.World → Devices sdk.World) → Keeps (modify sdk f)
  unfolding Keeps Kept modify
  modify-Keeps f m v = v

  Done-Kept : {A : Type 0} (out : Option (A × State sdk)) → Done sdk out → Kept out
  unfolding Kept
  Done-Kept out d = subst Kept (sym d.ran) d.valid

  pub log-Keeps :
      (level : ℕ) (format : String) (args : List ℕ)
      → log_level ≤ level
      → Keeps (log sdk level format args)
  unfolding Keeps Returns
  log-Keeps level format args h m v = Done-Kept _ (log-Returns sdk level format args h m v)

  pub log_w-Keeps : (format : String) (args : List ℕ) → Keeps (rp2040_log_w sdk format args)
  log_w-Keeps format args = log-Keeps log_level_warning format args (omega arith)

  pub log_e-Keeps : (format : String) (args : List ℕ) → Keeps (rp2040_log_e sdk format args)
  log_e-Keeps format args = log-Keeps log_level_error format args (omega arith)

  ruleset keeps = (
    pure-Keeps, bind-Keeps, act-Keeps, ask-Keeps, get-Keeps, modify-Keeps, halt-Keeps, log_w-Keeps,
    log_e-Keeps,
  )

  thrown-Keeps :
      (A : Type 0) (format : String) (result : ℤ) → Keeps {A = A} (thrown sdk format result)
  unfolding thrown
  thrown-Keeps A format result = search (keeps)

  acked-Keeps :
      {A : Type 0} (result : ℤ) (ok retry : Io sdk A)
      → Keeps ok
      → Keeps retry
      → Keeps (elim result [ pos n ↦ ok | negsuc n ↦ retry ])
  unfolding Keeps
  acked-Keeps (pos n) ok retry p q = p
  acked-Keeps (negsuc n) ok retry p q = q

  pub when-Keeps : (b : Bool) (io : Io sdk (Unit {0})) → Keeps io → Keeps (when sdk b io)
  when-Keeps true io p = p
  when-Keeps false io p = pure-Keeps tt

  write_attempts-Keeps :
      (left i2c addr : ℕ) (src : List ℕ) (nostop : Bool) (last : ℤ)
      → Keeps (write_attempts sdk left i2c addr src nostop last)
  unfolding write_attempts
  write_attempts-Keeps zero i2c addr src nostop last = thrown-Keeps (Unit {0}) _ last
  write_attempts-Keeps (suc left) i2c addr src nostop last =
      bind-Keeps (ask sdk (sdk.i2c_write_timeout_us i2c addr src nostop)) _ (ask-Keeps _) (λ result.
        acked-Keeps result (pure tt) _ (pure-Keeps tt) (
          bind-Keeps (when sdk (ltb 0 left) (act sdk (sdk.sleep_ms retry_delay))) _
            (when-Keeps _ _ (act-Keeps _))
            (λ _. write_attempts-Keeps left i2c addr src nostop result)))

  read_attempts-Keeps :
      (left i2c addr len : ℕ) (nostop : Bool) (last : ℤ)
      → Keeps (read_attempts sdk left i2c addr len nostop last)
  unfolding read_attempts
  read_attempts-Keeps zero i2c addr len nostop last = thrown-Keeps (List ℕ) _ last
  read_attempts-Keeps (suc left) i2c addr len nostop last =
      bind-Keeps (ask sdk (sdk.i2c_read_timeout_us i2c addr len nostop)) _ (ask-Keeps _) (λ answer.
        acked-Keeps answer.0 (pure answer.1) _ (pure-Keeps answer.1) (
          bind-Keeps (when sdk (ltb 0 left) (act sdk (sdk.sleep_ms retry_delay))) _
            (when-Keeps _ _ (act-Keeps _))
            (λ _. read_attempts-Keeps left i2c addr len nostop answer.0)))

  pub i2c_write-Keeps :
      (i2c addr : ℕ) (src : List ℕ) (nostop : Bool)
      → Keeps (i2c_write_error_handling sdk i2c addr src nostop)
  unfolding i2c_write_error_handling
  i2c_write-Keeps i2c addr src nostop = write_attempts-Keeps 3 i2c addr src nostop (pos 0)

  pub i2c_read-Keeps :
      (i2c addr len : ℕ) (nostop : Bool) → Keeps (i2c_read_error_handling sdk i2c addr len nostop)
  unfolding i2c_read_error_handling
  i2c_read-Keeps i2c addr len nostop = read_attempts-Keeps 3 i2c addr len nostop (pos 0)

  abbrev pub keeping : Logic sdk
  keeping = record {
    Holds = Keeps;
    pure_holds = pure-Keeps;
    bind_holds = bind-Keeps;
    act_holds = λ f _. act-Keeps f;
    ask_holds = λ f _. ask-Keeps f;
    get_holds = get-Keeps;
    modify_holds = modify-Keeps;
    log_w_holds = log_w-Keeps;
    log_e_holds = log_e-Keeps;
    write_holds = i2c_write-Keeps;
    read_holds = i2c_read-Keeps;
  }
