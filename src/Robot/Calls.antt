-- ===== src/Robot/Calls.antt =====
-- The call queue of src/robot.c as a queue: whatever core 1 calls, and whatever core 0 and the
-- interrupts do meanwhile, entries are added behind those that wait, and only core 1 takes the
-- first.
use Prim.Native.String.{String}
use sr_firmware.Base.{
  ℕ, zero, suc, ltb, Bool, true, false, List, Option, none, some, [], ◌∷◌, ◌++◌, append-nil,
  append_assoc, ◌≡◌, ap, ◌∙◌, sym,
}
use sr_firmware.Log.{CircularBufferLog}
use sr_firmware.Machine.{pure, ◌>>=◌, halt}
use sr_firmware.Hardware.{
  Devices, State, Io, act, ask, get, modify, when, log, logged, rp2040_log_w, rp2040_log_e, thrown,
  retry_delay, write_attempts, read_attempts, i2c_write_error_handling, i2c_read_error_handling,
}
use sr_firmware.Hardware.Logic.{Logic, Step, sleep_step}
use sr_firmware.Hardware.Post.{Post, bind-Post, weaken}
use sr_firmware.Hardware.Sdk.{ℤ, pos, negsuc, PicoSdk, Entry, call_queue}

-- Entries have been added behind.
abbrev pub Grown : List (Entry × ℕ) → List (Entry × ℕ) → Type 0
Grown xs ys = (zs : List (Entry × ℕ)) × (ys ≡ xs ++ zs)

pub Grown-refl : (xs : List (Entry × ℕ)) → Grown xs xs
Grown-refl xs = ([], sym (append-nil xs))

pub Grown-trans : (xs ys zs : List (Entry × ℕ)) → Grown xs ys → Grown ys zs → Grown xs zs
Grown-trans xs ys zs (as', e) (bs, f) =
    (as' ++ bs, f ∙ ap (λ l. l ++ bs) e ∙ append_assoc xs as' bs)

pub record CallQueue (sdk : PicoSdk) : Type 0 where
  pub calls : sdk.World → List (Entry × ℕ)
  pub steps :
      (f : sdk.World → sdk.World) (w : sdk.World) → Step sdk f → Grown (calls w) (calls (f w))
  pub writes :
      (i2c addr : ℕ) (src : List ℕ) (nostop : Bool) (w : sdk.World)
      → Grown (calls w) (calls (sdk.i2c_write_timeout_us i2c addr src nostop w).1)
  pub reads :
      (i2c addr len : ℕ) (nostop : Bool) (w : sdk.World)
      → Grown (calls w) (calls (sdk.i2c_read_timeout_us i2c addr len nostop w).1)
  pub removes :
      (w : sdk.World) (entry : Entry × ℕ) (rest : List (Entry × ℕ))
      → calls w ≡ entry ∷ rest
      → ((sdk.queue_remove_blocking call_queue w).0 ≡ entry)
        × Grown rest (calls (sdk.queue_remove_blocking call_queue w).1)

module _ (sdk : PicoSdk) (queue : CallQueue sdk) where
  abbrev pub waiting : State sdk → List (Entry × ℕ)
  waiting m = queue.calls m.world.outside

  -- When the program returns, it has taken nothing from the call queue.
  unfoldable pub Serves : {A : Type 0} → Io sdk A → Type 0
  Serves io = (m : State sdk) → Post sdk (λ _ m'. Grown (waiting m) (waiting m')) (io m)

  pub pure-Serves : {A : Type 0} (a : A) → Serves (pure a)
  unfolding Serves Post
  pure-Serves a m = Grown-refl (waiting m)

  pub halt-Serves : (A : Type 0) → Serves {A = A} halt
  unfolding Serves Post
  halt-Serves A m = tt

  pub bind-Serves :
      {A B : Type 0} (io : Io sdk A) (next : A → Io sdk B)
      → Serves io
      → ((a : A) → Serves (next a))
      → Serves (io >>= next)
  unfolding Serves
  bind-Serves io next first rest m =
      bind-Post sdk _ (λ _ m'. Grown (waiting m) (waiting m')) (io m) next (first m)
        (λ a m' p.
          weaken sdk _ _ (next a m') (rest a m')
            (λ b m'' q. Grown-trans (waiting m) (waiting m') (waiting m'') p q))

  grow-Serves :
      {A : Type 0} (f : sdk.World → A × sdk.World)
      → ((w : sdk.World) → Grown (queue.calls w) (queue.calls (f w).1))
      → Serves (ask sdk f)
  unfolding Serves Post ask
  grow-Serves f grows m = grows m.world.outside

  pub act-Serves : (f : sdk.World → sdk.World) → Step sdk f → Serves (act sdk f)
  unfolding Serves Post act
  act-Serves f step m = queue.steps f m.world.outside step

  pub ask-Serves :
      {A : Type 0} (f : sdk.World → A × sdk.World) → Step sdk (λ w. (f w).1) → Serves (ask sdk f)
  ask-Serves f step = grow-Serves f (λ w. queue.steps (λ u. (f u).1) w step)

  pub get-Serves : {A : Type 0} (f : Devices sdk.World → A) → Serves (get sdk f)
  unfolding Serves Post get
  get-Serves f m = Grown-refl (waiting m)

  pub modify-Serves : (f : Devices sdk.World → Devices sdk.World) → Serves (modify sdk f)
  unfolding Serves Post modify
  modify-Serves f m = Grown-refl (waiting m)

  logged-Post :
      (m : State sdk) (out : Option CircularBufferLog)
      → Post sdk (λ _ m'. Grown (waiting m) (waiting m')) (logged sdk m out)
  unfolding Post logged
  logged-Post m none = tt
  logged-Post m (some log') = Grown-refl (waiting m)

  pub log_w-Serves : (format : String) (args : List ℕ) → Serves (rp2040_log_w sdk format args)
  unfolding Serves log
  log_w-Serves format args m = logged-Post m _

  pub log_e-Serves : (format : String) (args : List ℕ) → Serves (rp2040_log_e sdk format args)
  unfolding Serves log
  log_e-Serves format args m = logged-Post m _

  thrown-Serves :
      (A : Type 0) (format : String) (result : ℤ) → Serves {A = A} (thrown sdk format result)
  unfolding thrown
  thrown-Serves A format result = search (bind-Serves, log_e-Serves, halt-Serves)

  acked-Serves :
      {A : Type 0} (result : ℤ) (ok retry : Io sdk A)
      → Serves ok
      → Serves retry
      → Serves (elim result [ pos n ↦ ok | negsuc n ↦ retry ])
  acked-Serves (pos n) ok retry p q = p
  acked-Serves (negsuc n) ok retry p q = q

  -- The pause before another attempt.
  pause-Serves : (b : Bool) → Serves (when sdk b (act sdk (sdk.sleep_ms retry_delay)))
  pause-Serves true = act-Serves _ (sleep_step retry_delay)
  pause-Serves false = pure-Serves tt

  write_attempts-Serves :
      (left i2c addr : ℕ) (src : List ℕ) (nostop : Bool) (last : ℤ)
      → Serves (write_attempts sdk left i2c addr src nostop last)
  unfolding write_attempts
  write_attempts-Serves zero i2c addr src nostop last = thrown-Serves (Unit {0}) _ last
  write_attempts-Serves (suc left) i2c addr src nostop last =
      bind-Serves _ _ (grow-Serves _ (queue.writes i2c addr src nostop)) (λ result.
        acked-Serves result (pure tt) _ (pure-Serves tt) (
          bind-Serves (when sdk (ltb 0 left) (act sdk (sdk.sleep_ms retry_delay))) _
            (pause-Serves (ltb 0 left))
            (λ _. write_attempts-Serves left i2c addr src nostop result)))

  read_attempts-Serves :
      (left i2c addr len : ℕ) (nostop : Bool) (last : ℤ)
      → Serves (read_attempts sdk left i2c addr len nostop last)
  unfolding read_attempts
  read_attempts-Serves zero i2c addr len nostop last = thrown-Serves (List ℕ) _ last
  read_attempts-Serves (suc left) i2c addr len nostop last =
      bind-Serves _ _ (grow-Serves _ (queue.reads i2c addr len nostop)) (λ answer.
        acked-Serves answer.0 (pure answer.1) _ (pure-Serves answer.1) (
          bind-Serves (when sdk (ltb 0 left) (act sdk (sdk.sleep_ms retry_delay))) _
            (pause-Serves (ltb 0 left))
            (λ _. read_attempts-Serves left i2c addr len nostop answer.0)))

  pub write-Serves :
      (i2c addr : ℕ) (src : List ℕ) (nostop : Bool)
      → Serves (i2c_write_error_handling sdk i2c addr src nostop)
  unfolding i2c_write_error_handling
  write-Serves i2c addr src nostop = write_attempts-Serves 3 i2c addr src nostop (pos 0)

  pub read-Serves :
      (i2c addr len : ℕ) (nostop : Bool) → Serves (i2c_read_error_handling sdk i2c addr len nostop)
  unfolding i2c_read_error_handling
  read-Serves i2c addr len nostop = read_attempts-Serves 3 i2c addr len nostop (pos 0)

  abbrev pub serving : Logic sdk
  serving = record {
    Holds = Serves;
    pure_holds = pure-Serves;
    bind_holds = bind-Serves;
    act_holds = act-Serves;
    ask_holds = ask-Serves;
    get_holds = get-Serves;
    modify_holds = modify-Serves;
    log_w_holds = log_w-Serves;
    log_e_holds = log_e-Serves;
    write_holds = write-Serves;
    read_holds = read-Serves;
  }
