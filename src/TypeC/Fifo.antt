-- ===== src/TypeC/Fifo.antt =====
-- The opcode queue and the call queue as first-in first-out queues of the Pico SDK, and
-- `opcode_queue_pop` as a step on their contents.
use sr_firmware.Base.{
  ℕ, ◌<◌, ◌≤◌, ltb, Bool, true, false, if◌then◌else◌, Option, none, some, List, [], ◌∷◌, ◌++◌,
  length, ◌≡◌, refl, arith, inl, inr, Bool-cases,
}
use sr_firmware.Log.{log_level_error}
use sr_firmware.Log.Valid.{IsValid}
use sr_firmware.Machine.{pure}
use sr_firmware.Hardware.{State, ask, rp2040_log_e}
use sr_firmware.Hardware.Bus.{with_outside}
use sr_firmware.Hardware.Returns.{bind-some, log-Said}
use sr_firmware.Hardware.Sdk.{PicoSdk, Entry, call_queue, opcode_queue}
use sr_firmware.TypeC.Opcodes.{opcode_queue_pop, forward}
use sr_firmware.TypeC.Registers.{Constants}

-- The contents of both queues.
pub record Contents : Type 0 where
  pub opcodes : List (Entry × ℕ)
  pub calls : List (Entry × ℕ)

-- What pico/util/queue.h documents, of the opcode queue and the call queue.
pub record Fifo (sdk : PicoSdk) : Type 0 where
  pub contents : sdk.World → Contents
  pub capacity : ℕ
  pub added :
      (func : Entry) (arg : ℕ) (w : sdk.World)
      → length (contents w).calls < capacity
      → ((sdk.queue_try_add call_queue func arg w).0 ≡ true)
        × (contents (sdk.queue_try_add call_queue func arg w).1
            ≡ record (contents w) { calls = (contents w).calls ++ (func, arg) ∷ [] })
  pub full :
      (func : Entry) (arg : ℕ) (w : sdk.World)
      → capacity ≤ length (contents w).calls
      → ((sdk.queue_try_add call_queue func arg w).0 ≡ false)
        × (contents (sdk.queue_try_add call_queue func arg w).1 ≡ contents w)
  pub removed :
      (entry : Entry × ℕ) (rest : List (Entry × ℕ)) (w : sdk.World)
      → (contents w).opcodes ≡ entry ∷ rest
      → ((sdk.queue_try_remove opcode_queue w).0 ≡ some entry)
        × (contents (sdk.queue_try_remove opcode_queue w).1
            ≡ record (contents w) { opcodes = rest })
  pub empty :
      (w : sdk.World)
      → (contents w).opcodes ≡ []
      → ((sdk.queue_try_remove opcode_queue w).0 ≡ none)
        × (contents (sdk.queue_try_remove opcode_queue w).1 ≡ contents w)

-- The step on the contents, with the capacity of the call queue: an entry that finds it full is
-- lost.
pub pop : ℕ → Contents → Bool × Contents
pop capacity q = elim q.opcodes [
  | [] ↦ (false, q)
  | entry ∷ rest ↦
      let taken = record q { opcodes = rest } in
      if ltb (length q.calls) capacity
      then (true, record taken { calls = q.calls ++ entry ∷ [] })
      else (false, taken)
]

module _ (sdk : PicoSdk) (fifo : Fifo sdk) (const : Constants) where
  -- The call from the state `m` has returned; the contents `before` have made the step, and besides the
  -- outside only the log has changed, when an opcode is lost.
  pub record IsPop (before : Contents) (m : State sdk) (out : Option (Bool × State sdk))
      : Type 0 where
    pub result : Bool
    pub after : State sdk
    pub returns : out ≡ some (result, after)
    pub steps : (result, fifo.contents after.world.outside) ≡ pop fifo.capacity before
    pub same_world : after.world ≡ record (m.world) { outside = after.world.outside }
    pub moved_log : result ≡ true → after.log ≡ m.log
    pub empty_log : before.opcodes ≡ [] → after.log ≡ m.log
    pub valid : IsValid after.log

  taken : Contents → List (Entry × ℕ) → Contents
  taken q rest = record q { opcodes = rest }

  -- What `forward` does once the entry has been removed from the opcode queue.
  forward-IsPop :
      (func : Entry) (arg : ℕ) (rest : List (Entry × ℕ)) (q : Contents) (m : State sdk)
      → q.opcodes ≡ (func, arg) ∷ rest
      → fifo.contents m.world.outside ≡ record q { opcodes = rest }
      → IsValid m.log
      → IsPop q m (forward sdk const (some (func, arg)) m)
  unfolding forward pop ask
  forward-IsPop func arg rest q m e held v =
      let w = m.world.outside in
      let after = with_outside sdk m (sdk.queue_try_add call_queue func arg w).1 in
      elim (Bool-cases (ltb (length q.calls) fifo.capacity)) [
        | inl room ↦
            let a = fifo.added func arg w (rw (held) (ground arith)) in
            record {
              result = true;
              after = after;
              returns = rw (a.0) refl;
              steps = rw (a.1, held, e, room) refl;
              same_world = refl;
              moved_log = λ _. refl;
              empty_log = λ _. refl;
              valid = v;
            }
        | inr no_room ↦
            let a = fifo.full func arg w (rw (held) (ground arith)) in
            let said =
              log-Said sdk log_level_error "ERROR: opcode_queue_pop: call_queue full\n" [] after
                (omega arith) v in
            record {
              result = false;
              after = record after { log = said.log_after };
              returns = rw (a.0) (
                  bind-some sdk (rp2040_log_e sdk "ERROR: opcode_queue_pop: call_queue full\n" [])
                    (λ _. pure false) said.ran);
              steps = rw (a.1, held, e, no_room) refl;
              same_world = refl;
              moved_log = λ yes. absurd (cc);
              empty_log = λ none'. absurd (cc);
              valid = said.valid;
            }
      ]

  first_case :
      (m : State sdk) (opcodes : List (Entry × ℕ))
      → (fifo.contents m.world.outside).opcodes ≡ opcodes
      → IsValid m.log
      → IsPop (fifo.contents m.world.outside) m (opcode_queue_pop sdk const m)
  unfolding opcode_queue_pop ask forward pop
  first_case m [] e v =
      let w = m.world.outside in
      let a = fifo.empty w e in
      record {
        result = false;
        after = with_outside sdk m (sdk.queue_try_remove opcode_queue w).1;
        returns = rw (a.0) refl;
        steps = rw (a.1, e) refl;
        same_world = refl;
        moved_log = λ _. refl;
        empty_log = λ _. refl;
        valid = v;
      }
  first_case m ((func, arg) ∷ rest) e v =
      let w = m.world.outside in
      let a = fifo.removed (func, arg) rest w e in
      let removed = with_outside sdk m (sdk.queue_try_remove opcode_queue w).1 in
      let f = forward-IsPop func arg rest (fifo.contents w) removed e (a.1) v in
      record {
        result = f.result;
        after = f.after;
        returns = rw (a.0) f.returns;
        steps = f.steps;
        same_world = f.same_world;
        moved_log = f.moved_log;
        empty_log = f.empty_log;
        valid = f.valid;
      }

  -- With queues that are first in, first out, and a valid log, `opcode_queue_pop` returns,
  -- whatever the queues hold: with true when it has moved the first opcode to the end of the call
  -- queue; with false when there is none, and the queues hold what they held; and with false too
  -- when the call queue is full, and the opcode is then in neither queue. The static variables are
  -- as before; so is the log, but for the message of the last case, and it is left valid.
  pub opcode_queue_pop-IsPop :
      (m : State sdk)
      → IsValid m.log
      → IsPop (fifo.contents m.world.outside) m (opcode_queue_pop sdk const m)
  opcode_queue_pop-IsPop m v = first_case m (fifo.contents m.world.outside).opcodes refl v
