-- ===== src/Hardware/Returns.antt =====
-- Programs that return, and keep the log valid.
use Prim.Native.String.{String}
use sr_firmware.Base.{
  ℕ, ◌≤◌, if◌then◌else◌, Bool, true, false, List, Option, none, some, ◌≡◌, refl, ap, ◌∙◌, arith,
}
use sr_firmware.Log.{CircularBufferLog, log_level, log_level_warning, log_level_error}
use sr_firmware.Log.Valid.{IsValid}
use sr_firmware.Log.Refine.{rp2040_log-Logged}
use sr_firmware.Machine.{pure, ◌>>=◌}
use sr_firmware.Hardware.{
  Devices, State, Io, act, ask, get, modify, log, logged, rp2040_log_w, rp2040_log_e,
}
use sr_firmware.Hardware.Sdk.{PicoSdk}

module _ (sdk : PicoSdk) where
  -- The call has returned, with a valid log.
  pub record Done {A : Type 0} (out : Option (A × State sdk)) : Type 0 where
    pub result : A
    pub after : State sdk
    pub ran : out ≡ some (result, after)
    pub valid : IsValid after.log

  unfoldable pub Returns : {A : Type 0} → Io sdk A → Type 0
  Returns io = (m : State sdk) → IsValid m.log → Done (io m)

  pub pure-Returns : {A : Type 0} (a : A) → Returns (pure a)
  unfolding Returns
  pure-Returns a m v = record { result = a; after = m; ran = refl; valid = v }

  continue : {A B : Type 0} → (A → Io sdk B) → Option (A × State sdk) → Option (B × State sdk)
  continue next none = none
  continue next (some (a, m')) = next a m'

  pub bind-some :
      {A B : Type 0} (io : Io sdk A) (next : A → Io sdk B) {m m' : State sdk} {a : A}
      → io m ≡ some (a, m')
      → (io >>= next) m ≡ next a m'
  unfolding continue
  bind-some io next e = ap (continue next) e

  pub bind-Returns :
      {A B : Type 0} (io : Io sdk A) (next : A → Io sdk B)
      → Returns io
      → ((a : A) → Returns (next a))
      → Returns (io >>= next)
  unfolding Returns
  bind-Returns io next first rest m v =
      let d = first m v in
      let d' = rest d.result d.after d.valid in
      record {
        result = d'.result;
        after = d'.after;
        ran = bind-some io next d.ran ∙ d'.ran;
        valid = d'.valid;
      }

  pub act-Returns : (f : sdk.World → sdk.World) → Returns (act sdk f)
  unfolding Returns act
  act-Returns f m v = record { result = tt; after = _; ran = refl; valid = v }

  pub ask-Returns : {A : Type 0} (f : sdk.World → A × sdk.World) → Returns (ask sdk f)
  unfolding Returns ask
  ask-Returns f m v = record { result = _; after = _; ran = refl; valid = v }

  pub get-Returns : {A : Type 0} (f : Devices sdk.World → A) → Returns (get sdk f)
  unfolding Returns get
  get-Returns f m v = record { result = _; after = _; ran = refl; valid = v }

  pub modify-Returns : (f : Devices sdk.World → Devices sdk.World) → Returns (modify sdk f)
  unfolding Returns modify
  modify-Returns f m v = record { result = _; after = _; ran = refl; valid = v }

  pub if-Returns :
      {A : Type 0} (b : Bool) (x y : Io sdk A)
      → Returns x
      → Returns y
      → Returns (if b then x else y)
  if-Returns true x y p q = p
  if-Returns false x y p q = q

  -- A message has changed the log only.
  pub record Said (m : State sdk) (out : Option (Unit {0} × State sdk)) : Type 0 where
    pub log_after : CircularBufferLog
    pub ran : out ≡ some (tt, record m { log = log_after })
    pub valid : IsValid log_after

  pub log-Said :
      (level : ℕ) (format : String) (args : List ℕ) (m : State sdk)
      → log_level ≤ level
      → IsValid m.log
      → Said m (log sdk level format args m)
  unfolding log logged
  log-Said level format args m h v =
      let text = sdk.text format args in
      let d = rp2040_log-Logged level text m.log h (sdk.text_no_null format args) v in
      record { log_after = d.after; ran = rw (d.returns) refl; valid = d.valid }

  pub log-Returns :
      (level : ℕ) (format : String) (args : List ℕ)
      → log_level ≤ level
      → Returns (log sdk level format args)
  unfolding Returns
  log-Returns level format args h m v =
      let d = log-Said level format args m h v in
      record { result = tt; after = record m { log = d.log_after }; ran = d.ran; valid = d.valid }

  pub log_w-Returns : (format : String) (args : List ℕ) → Returns (rp2040_log_w sdk format args)
  log_w-Returns format args = log-Returns log_level_warning format args (omega arith)

  pub log_e-Returns : (format : String) (args : List ℕ) → Returns (rp2040_log_e sdk format args)
  log_e-Returns format args = log-Returns log_level_error format args (omega arith)
