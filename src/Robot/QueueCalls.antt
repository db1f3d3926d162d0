-- ===== src/Robot/QueueCalls.antt =====
-- The places that the calls of the SDK take in the queues: the additions one each, the others none.
use sr_firmware.Base.{ℕ, zero, suc, ◌+◌, ◌≤◌, Bool, true, false, List, arith}
use sr_firmware.Hardware.{
  State, ask, modify, retry_delay, read_register, i2c_write_error_handling, i2c_read_error_handling,
  call_queue_try_add, call_queue_try_add_nonblocking,
}
use sr_firmware.Hardware.Bus.{after_failures, i2c_write_error_handling-Written}
use sr_firmware.Hardware.Reads.{i2c_read_error_handling-Read}
use sr_firmware.Hardware.Runs.{Runs}
use sr_firmware.Hardware.Sdk.{PicoSdk, Entry, call_queue, opcode_queue}
use sr_firmware.TypeC.Opcodes.{opcode_queue_add}
use sr_firmware.TypeC.Registers.{Constants, set_state}
use sr_firmware.Robot.Returns.{Answers}
use sr_firmware.Robot.Places.{
  Places, Free, Spends, pure-Spends, bind-Spends, keep-Spends, take-Spends, if-Spends, get-Spends,
  modify-Spends, log_e-Spends,
}

module _ (sdk : PicoSdk) (places : Places sdk) where
  -- The outside has moved to a world with these places free.
  moved :
      (c o c' o' : ℕ) (m : State sdk) (w : sdk.World)
      → (c ≤ places.calls m.world.outside → c' ≤ places.calls w)
      → (o ≤ places.opcodes m.world.outside → o' ≤ places.opcodes w)
      → Free sdk places c o m
      → Free sdk places c' o' (record m { world = record (m.world) { outside = w } })
  moved c o c' o' m w h h' v = record {
    calls = h v.calls;
    opcodes = h' v.opcodes;
    log_valid = v.log_valid;
  }

  -- No place is taken on the way from one world to another.
  abbrev Keeps : sdk.World → sdk.World → Type 0
  Keeps w w' = (places.calls w ≤ places.calls w') × (places.opcodes w ≤ places.opcodes w')

  Keeps-trans : (a b c : sdk.World) → Keeps a b → Keeps b c → Keeps a c
  Keeps-trans a b c p q = (omega (arith, p.0, q.0), omega (arith, p.1, q.1))

  failures-Keeps :
      (call : sdk.World → sdk.World)
      → ((w : sdk.World) → Keeps w (call w))
      → (k : ℕ) (w : sdk.World) → Keeps w (after_failures sdk call k w)
  unfolding after_failures
  failures-Keeps call same zero w = (omega arith, omega arith)
  failures-Keeps call same (suc k) w = Keeps-trans w (call w) _ (same w) (
      Keeps-trans (call w) (sdk.sleep_ms retry_delay (call w)) _
        (places.sleeps retry_delay (call w))
        (failures-Keeps call same k (sdk.sleep_ms retry_delay (call w))))

  kept :
      (c o : ℕ) (m : State sdk) (w : sdk.World)
      → Keeps m.world.outside w
      → Free sdk places c o m
      → Free sdk places c o (record m { world = record (m.world) { outside = w } })
  kept c o m w k v = moved c o c o m w (λ h. omega (arith, h, k.0)) (λ h. omega (arith, h, k.1)) v

  pub opcode_remove-Spends :
      (c o : ℕ) → Spends sdk places c o c o (ask sdk (sdk.queue_try_remove opcode_queue))
  unfolding Spends Runs ask
  opcode_remove-Spends c o m v = kept c o m _ (places.removes m.world.outside) v

  -- An entry that does not have to fit.
  pub try_add-Spends :
      (c o : ℕ) (func : Entry) (arg : ℕ)
      → Spends sdk places (c + 1) o c o (ask sdk (sdk.queue_try_add call_queue func arg))
  unfolding Spends Runs ask
  try_add-Spends c o func arg m v =
      let t = places.takes_call func arg m.world.outside in
      moved (c + 1) o c o m _ (λ h. omega (arith, h, t.0)) (λ h. omega (arith, h, t.1)) v

  pub call_queue_try_add-Spends :
      (c o : ℕ) (func : Entry) (arg : ℕ)
      → Spends sdk places (c + 1) o c o (call_queue_try_add sdk func arg)
  unfolding Spends Runs call_queue_try_add call_queue_try_add_nonblocking ask
  call_queue_try_add-Spends c o func arg m v =
      let t = places.takes_call func arg m.world.outside in
      let h = v.calls in
      rw (places.adds_call func arg m.world.outside (omega (arith, h)))
        (moved (c + 1) o c o m _ (λ h. omega (arith, h, t.0)) (λ h. omega (arith, h, t.1)) v)

  pub opcode_queue_add-Spends :
      (const : Constants) (c o : ℕ) (func : Entry) (arg : ℕ)
      → Spends sdk places c (o + 1) c o (opcode_queue_add sdk const func arg)
  unfolding Spends Runs opcode_queue_add set_state modify ask
  opcode_queue_add-Spends const c o func arg m v =
      let t = places.takes_opcode func arg m.world.outside in
      let h = v.opcodes in
      rw (places.adds_opcode func arg m.world.outside (omega (arith, h))) (record {
        calls = omega (arith, v.calls, t.0);
        opcodes = omega (arith, h, t.1);
        log_valid = v.log_valid;
      })

  module _ (bus : Answers sdk) where
    pub write-Spends :
        (c o i2c addr : ℕ) (src : List ℕ) (nostop : Bool)
        → Spends sdk places c o c o (i2c_write_error_handling sdk i2c addr src nostop)
    unfolding Spends Runs
    write-Spends c o i2c addr src nostop m v =
        let (k, h, ok) = bus.writes i2c addr src nostop m.world.outside in
        let w = i2c_write_error_handling-Written sdk i2c addr src nostop k m h ok in
        rw (w.returns) (
          kept c o m _
            (Keeps-trans _ _ _
              (failures-Keeps (λ u. (sdk.i2c_write_timeout_us i2c addr src nostop u).1)
                (places.writes i2c addr src nostop) w.attempt m.world.outside)
              (places.writes i2c addr src nostop _))
            v)

    pub read-Spends :
        (c o i2c addr len : ℕ) (nostop : Bool)
        → Spends sdk places c o c o (i2c_read_error_handling sdk i2c addr len nostop)
    unfolding Spends Runs
    read-Spends c o i2c addr len nostop m v =
        let (k, h, ok) = bus.reads i2c addr len nostop m.world.outside in
        let r = i2c_read_error_handling-Read sdk i2c addr len nostop k m h ok in
        rw (r.returns) (
          kept c o m _
            (Keeps-trans _ _ _
              (failures-Keeps (λ u. (sdk.i2c_read_timeout_us i2c addr len nostop u).1)
                (places.reads i2c addr len nostop) r.attempt m.world.outside)
              (places.reads i2c addr len nostop _))
            v)

    pub read_register-Spends :
        (c o i2c addr reg len : ℕ) → Spends sdk places c o c o (read_register sdk i2c addr reg len)
    unfolding read_register
    read_register-Spends c o i2c addr reg len =
        bind-Spends sdk places c o c o c o _ _ (write-Spends c o i2c addr _ true)
          (λ _. read-Spends c o i2c addr len false)

    -- What takes no place.
    pub ruleset spends = (
      pure-Spends, keep-Spends, take-Spends, if-Spends, get-Spends, modify-Spends, log_e-Spends,
      write-Spends, read-Spends, read_register-Spends,
    )
