-- ===== src/Robot/Places.antt =====
-- The free places of the call queue and of the opcode queue of src/robot.c and src/max77958.c, and what
-- it means that a program takes some of them.
use Prim.Native.String.{String}
use sr_firmware.Base.{ℕ, ◌+◌, ◌<◌, ◌≤◌, Bool, true, false, if◌then◌else◌, List, ◌≡◌, arith}
use sr_firmware.Log.{log_level_error}
use sr_firmware.Log.Valid.{IsValid}
use sr_firmware.Machine.{pure, ◌>>=◌}
use sr_firmware.Hardware.{Devices, State, Io, get, modify, rp2040_log_e}
use sr_firmware.Hardware.Returns.{log-Said}
use sr_firmware.Hardware.Runs.{Runs, bind-Runs, weaken-Runs}
use sr_firmware.Hardware.Sdk.{PicoSdk, Entry, call_queue, opcode_queue}

-- The places that are free in each queue, while nothing else adds entries: a queue holds a bounded
-- number of entries; an entry is added when a place is free, and takes one; taking an entry, a
-- sleep and the calls of the bus take none.
pub record Places (sdk : PicoSdk) : Type 0 where
  pub calls : sdk.World → ℕ
  pub opcodes : sdk.World → ℕ
  pub adds_call :
      (func : Entry) (arg : ℕ) (w : sdk.World)
      → 0 < calls w
      → (sdk.queue_try_add call_queue func arg w).0 ≡ true
  pub takes_call :
      (func : Entry) (arg : ℕ) (w : sdk.World)
      → (calls w ≤ calls (sdk.queue_try_add call_queue func arg w).1 + 1)
        × (opcodes w ≤ opcodes (sdk.queue_try_add call_queue func arg w).1)
  pub adds_opcode :
      (func : Entry) (arg : ℕ) (w : sdk.World)
      → 0 < opcodes w
      → (sdk.queue_try_add opcode_queue func arg w).0 ≡ true
  pub takes_opcode :
      (func : Entry) (arg : ℕ) (w : sdk.World)
      → (calls w ≤ calls (sdk.queue_try_add opcode_queue func arg w).1)
        × (opcodes w ≤ opcodes (sdk.queue_try_add opcode_queue func arg w).1 + 1)
  pub removes :
      (w : sdk.World)
      → (calls w ≤ calls (sdk.queue_try_remove opcode_queue w).1)
        × (opcodes w ≤ opcodes (sdk.queue_try_remove opcode_queue w).1)
  pub sleeps :
      (ms : ℕ) (w : sdk.World)
      → (calls w ≤ calls (sdk.sleep_ms ms w)) × (opcodes w ≤ opcodes (sdk.sleep_ms ms w))
  pub writes :
      (i2c addr : ℕ) (src : List ℕ) (nostop : Bool) (w : sdk.World)
      → (calls w ≤ calls (sdk.i2c_write_timeout_us i2c addr src nostop w).1)
        × (opcodes w ≤ opcodes (sdk.i2c_write_timeout_us i2c addr src nostop w).1)
  pub reads :
      (i2c addr len : ℕ) (nostop : Bool) (w : sdk.World)
      → (calls w ≤ calls (sdk.i2c_read_timeout_us i2c addr len nostop w).1)
        × (opcodes w ≤ opcodes (sdk.i2c_read_timeout_us i2c addr len nostop w).1)

module _ (sdk : PicoSdk) (places : Places sdk) where
  -- At least `c` places are free in the call queue and `o` in the opcode queue, and the log is valid.
  pub record Free (c o : ℕ) (m : State sdk) : Type 0 where
    pub calls : c ≤ places.calls m.world.outside
    pub opcodes : o ≤ places.opcodes m.world.outside
    pub log_valid : IsValid m.log

  -- With `c` and `o` places free the program returns, and leaves `c'` and `o'` free.
  unfoldable pub Spends : {A : Type 0} → ℕ → ℕ → ℕ → ℕ → Io sdk A → Type 0
  Spends c o c' o' io = (m : State sdk) → Free c o m → Runs sdk (λ _ m'. Free c' o' m') (io m)

  pub pure-Spends : {A : Type 0} (c o : ℕ) (a : A) → Spends c o c o (pure a)
  unfolding Spends Runs
  pure-Spends c o a m v = v

  pub bind-Spends :
      {A B : Type 0} (c o c1 o1 c2 o2 : ℕ) (io : Io sdk A) (next : A → Io sdk B)
      → Spends c o c1 o1 io
      → ((a : A) → Spends c1 o1 c2 o2 (next a))
      → Spends c o c2 o2 (io >>= next)
  unfolding Spends
  bind-Spends c o c1 o1 c2 o2 io next first rest m v =
      bind-Runs sdk _ (λ _ m'. Free c2 o2 m') (io m) next (first m v) (λ a m' p. rest a m' p)

  -- A first part that takes no place, and a rest that takes none.
  pub keep-Spends :
      {A B : Type 0} (c o c' o' : ℕ) (io : Io sdk A) (next : A → Io sdk B)
      → Spends c o c o io
      → ((a : A) → Spends c o c' o' (next a))
      → Spends c o c' o' (io >>= next)
  keep-Spends c o c' o' io next first rest = bind-Spends c o c o c' o' io next first rest

  pub take-Spends :
      {A B : Type 0} (c o c' o' : ℕ) (io : Io sdk A) (next : A → Io sdk B)
      → Spends c o c' o' io
      → ((a : A) → Spends c' o' c' o' (next a))
      → Spends c o c' o' (io >>= next)
  take-Spends c o c' o' io next first rest = bind-Spends c o c' o' c' o' io next first rest

  fewer-Free : {c o c' o' : ℕ} {m : State sdk} → c' ≤ c → o' ≤ o → Free c o m → Free c' o' m
  fewer-Free h h' v = record {
    calls = omega (arith, h, v.calls);
    opcodes = omega (arith, h', v.opcodes);
    log_valid = v.log_valid;
  }

  -- With places left over, too.
  pub fewer-Spends :
      {A : Type 0} (c o c1 o1 c' o' : ℕ) (io : Io sdk A)
      → c' ≤ c1
      → o' ≤ o1
      → Spends c o c1 o1 io
      → Spends c o c' o' io
  unfolding Spends
  fewer-Spends c o c1 o1 c' o' io h h' s m v =
      weaken-Runs sdk _ _ (io m) (s m v) (λ _ m' p. fewer-Free h h' p)

  pub if-Spends :
      {A : Type 0} (c o c' o' : ℕ) (b : Bool) (x y : Io sdk A)
      → Spends c o c' o' x
      → Spends c o c' o' y
      → Spends c o c' o' (if b then x else y)
  if-Spends c o c' o' true x y p q = p
  if-Spends c o c' o' false x y p q = q

  pub get-Spends : {A : Type 0} (c o : ℕ) (f : Devices sdk.World → A) → Spends c o c o (get sdk f)
  unfolding Spends Runs get
  get-Spends c o f m v = v

  pub modify-Spends :
      (c o : ℕ) (f : Devices sdk.World → Devices sdk.World) → Spends c o c o (modify sdk f)
  unfolding Spends Runs modify
  modify-Spends c o f m v = record { calls = v.calls; opcodes = v.opcodes; log_valid = v.log_valid }

  pub log_e-Spends :
      (c o : ℕ) (format : String) (args : List ℕ) → Spends c o c o (rp2040_log_e sdk format args)
  unfolding Spends Runs
  log_e-Spends c o format args m v =
      let d = log-Said sdk log_level_error format args m (omega arith) v.log_valid in
      rw (d.ran) (record { calls = v.calls; opcodes = v.opcodes; log_valid = d.valid })
