-- ===== src/Robot/Stop.antt =====
-- `core1_entry` of src/robot.c runs the entries in the order in which they wait, up to the one that stops
-- it.
use sr_firmware.Base.{
  ℕ, zero, suc, ◌+◌, ◌<◌, Bool, true, false, List, [], ◌∷◌, ◌++◌, append_assoc, length, Option,
  none, some, ◌≡◌, refl, ◌∙◌, ap, sym, subst, arith, if◌then◌else◌,
}
use sr_firmware.Machine.{pure}
use sr_firmware.Hardware.{State, Io, ask, get, modify}
use sr_firmware.Hardware.Bus.{with_outside}
use sr_firmware.Hardware.Post.{Post}
use sr_firmware.Hardware.Sdk.{PicoSdk, Entry, call_queue, stop_core1}
use sr_firmware.TypeC.Registers.{Constants}
use sr_firmware.Robot.{run_entry, call_queue_pop, core1_entry}
use sr_firmware.Robot.Calls.{Grown, Grown-trans, CallQueue, waiting, Serves, serving, halt-Serves}
use sr_firmware.Robot.Holds.{run_entry-Holds}
use sr_firmware.Robot.TestHolds

module _ (sdk : PicoSdk) (const : Constants) where
  -- The state once the first entry has been taken from the call queue.
  abbrev pub taken : State sdk → State sdk
  taken m = with_outside sdk m (sdk.queue_remove_blocking call_queue m.world.outside).1

  -- Core 1 has not been asked to stop, and takes this entry.
  pub record Takes (entry : Entry × ℕ) (m : State sdk) : Type 0 where
    pub asked : m.world.core1_shutdown_requested ≡ false
    pub first : (sdk.queue_remove_blocking call_queue m.world.outside).0 ≡ entry

  -- The entries are taken and run one after the other, and each of them returns.
  pub data Rounds : List (Entry × ℕ) → State sdk → State sdk → Type 0 where
    finished : (m : State sdk) → Rounds [] m m
    round :
        (entry : Entry × ℕ) (entries : List (Entry × ℕ)) (m m1 m' : State sdk)
        → Takes entry m
        → run_entry sdk const entry.0 entry.1 (taken m) ≡ some (tt, m1)
        → Rounds entries m1 m'
        → Rounds (entry ∷ entries) m m'

  -- How `core1_entry` ends, with these entries to be taken: it returns when it has run some of them,
  -- the first ones, and finds the request to stop; or the core stops in one of them, when it has run
  -- those before it.
  pub data Ends (entries : List (Entry × ℕ)) (m : State sdk)
      : Option (Unit {0} × State sdk) → Type 0 where
    returned :
        (run rest : List (Entry × ℕ)) (m' : State sdk)
        → run ++ rest ≡ entries
        → Rounds run m m'
        → m'.world.core1_shutdown_requested ≡ true
        → Ends entries m (some (tt, m'))
    halted :
        (run rest : List (Entry × ℕ)) (entry : Entry × ℕ) (m' : State sdk)
        → run ++ entry ∷ rest ≡ entries
        → Rounds run m m'
        → Takes entry m'
        → run_entry sdk const entry.0 entry.1 (taken m') ≡ none
        → Ends entries m none

  further-Ends :
      (entry : Entry × ℕ) (entries : List (Entry × ℕ)) (m m1 : State sdk)
      (out : Option (Unit {0} × State sdk))
      → Takes entry m
      → run_entry sdk const entry.0 entry.1 (taken m) ≡ some (tt, m1)
      → Ends entries m1 out
      → Ends (entry ∷ entries) m out
  further-Ends entry entries m m1 _ t e (returned run rest m' whole rounds asked) =
      returned (entry ∷ run) rest m' (ap (λ l. entry ∷ l) whole)
        (round entry run m m1 m' t e rounds) asked
  further-Ends entry entries m m1 _ t e (halted run rest last m' whole rounds t' none') =
      halted (entry ∷ run) rest last m' (ap (λ l. entry ∷ l) whole)
        (round entry run m m1 m' t e rounds) t' none'

  -- What follows the run of an entry that has been taken.
  after_entry-Ends :
      (entry : Entry × ℕ) (entries : List (Entry × ℕ)) (fuel : ℕ) (m : State sdk)
      (out : Option (Unit {0} × State sdk))
      → run_entry sdk const entry.0 entry.1 (taken m) ≡ out
      → Takes entry m
      → ((m1 : State sdk)
          → run_entry sdk const entry.0 entry.1 (taken m) ≡ some (tt, m1)
          → Ends entries m1 (core1_entry sdk const fuel m1))
      → Ends
          (entry ∷ entries)
          m
          (elim out [ none ↦ none | some (a, m1) ↦ core1_entry sdk const fuel m1 ])
  after_entry-Ends entry entries fuel m none e t rest =
      halted [] entries entry m refl (finished m) t e
  after_entry-Ends entry entries fuel m (some (tt, m1)) e t rest =
      further-Ends entry entries m m1 _ t e (rest m1 e)

  if-Ends :
      (entries : List (Entry × ℕ)) (b : Bool) (x y : Io sdk (Unit {0})) (m : State sdk)
      → (b ≡ true → Ends entries m (x m))
      → (b ≡ false → Ends entries m (y m))
      → Ends entries m ((if b then x else y) m)
  if-Ends entries true x y m p q = p refl
  if-Ends entries false x y m p q = q refl

  pop_lem :
      (entry : Entry × ℕ) (m : State sdk)
      → (sdk.queue_remove_blocking call_queue m.world.outside).0 ≡ entry
      → call_queue_pop sdk const m ≡ run_entry sdk const entry.0 entry.1 (taken m)
  unfolding call_queue_pop ask
  pop_lem entry m e = ap (λ (x : Entry × ℕ). run_entry sdk const x.0 x.1 (taken m)) e

  -- A round of the loop.
  round-Ends :
      (entry : Entry × ℕ) (entries : List (Entry × ℕ)) (fuel : ℕ) (m : State sdk)
      → (sdk.queue_remove_blocking call_queue m.world.outside).0 ≡ entry
      → ((m1 : State sdk)
          → run_entry sdk const entry.0 entry.1 (taken m) ≡ some (tt, m1)
          → Ends entries m1 (core1_entry sdk const fuel m1))
      → Ends (entry ∷ entries) m (core1_entry sdk const (suc fuel) m)
  unfolding core1_entry get
  round-Ends entry entries fuel m e rest =
      if-Ends (entry ∷ entries) m.world.core1_shutdown_requested (pure tt) _ m
        (λ asked. returned [] (entry ∷ entries) m refl (finished m) asked)
        (λ going.
          after_entry-Ends entry entries fuel m (call_queue_pop sdk const m)
            (sym (pop_lem entry m e)) (record { asked = going; first = e }) rest)

  -- Once asked, `core1_entry` returns at its next test.
  asked-Ends :
      (fuel : ℕ) (m : State sdk)
      → m.world.core1_shutdown_requested ≡ true
      → Ends [] m (core1_entry sdk const (suc fuel) m)
  unfolding core1_entry get
  asked-Ends fuel m asked =
      if-Ends [] m.world.core1_shutdown_requested (pure tt) _ m
        (λ asked'. returned [] [] m refl (finished m) asked') (λ going. absurd (cc))

  stop-asks :
      (arg : ℕ) (m m1 : State sdk)
      → run_entry sdk const stop_core1 arg m ≡ some (tt, m1)
      → m1.world.core1_shutdown_requested ≡ true
  unfolding run_entry modify Post
  stop-asks arg m m1 e = subst (Post sdk (λ _ m'. m'.world.core1_shutdown_requested ≡ true)) e refl

module _ (sdk : PicoSdk) (queue : CallQueue sdk) (const : Constants) where
  run_entry-Serves : (func : Entry) (arg : ℕ) → Serves sdk queue (run_entry sdk const func arg)
  run_entry-Serves func arg =
      run_entry-Holds (serving sdk queue) const
        (TestHolds.call_queue_try_add-Holds (serving sdk queue) (halt-Serves sdk queue))
        (TestHolds.opcode_queue_add-Holds (serving sdk queue) (halt-Serves sdk queue) const) func
        arg

  -- What waits when an entry has been taken and run: the others, and what was added behind them.
  ran-Grown :
      (entry : Entry × ℕ) (rest : List (Entry × ℕ)) (m m1 : State sdk)
      → waiting sdk queue m ≡ entry ∷ rest
      → run_entry sdk const entry.0 entry.1 (taken sdk const m) ≡ some (tt, m1)
      → Grown rest (waiting sdk queue m1)
  unfolding Serves Post
  ran-Grown entry rest m m1 e ran =
      Grown-trans rest _ (waiting sdk queue m1) (queue.removes m.world.outside entry rest e).1 (
        subst
          (Post sdk (λ _ m'. Grown (waiting sdk queue (taken sdk const m)) (waiting sdk queue m')))
          ran (run_entry-Serves entry.0 entry.1 (taken sdk const m)))

  -- On a call queue that is first in, first out, in which the entry of `signal_stop_core1` waits:
  -- `core1_entry` takes the entries before it in their order and runs each of them, whatever they and
  -- the other core add behind, and returns when it finds the request to stop, at the latest when it
  -- has run that entry; or the core stops in one of these entries. As many rounds as entries up to this
  -- one, and one more, are enough.
  pub core1_entry-Ends :
      (before behind : List (Entry × ℕ)) (arg fuel : ℕ) (m : State sdk)
      → length before + 1 < fuel
      → waiting sdk queue m ≡ before ++ (stop_core1, arg) ∷ behind
      → Ends sdk const (before ++ (stop_core1, arg) ∷ []) m (core1_entry sdk const fuel m)
  core1_entry-Ends before behind arg zero m h e = absurd (omega (arith, h))
  core1_entry-Ends before behind arg (suc zero) m h e = absurd (omega (arith, h))
  core1_entry-Ends [] behind arg (suc (suc fuel)) m h e =
      round-Ends sdk const (stop_core1, arg) [] (suc fuel) m
        (queue.removes m.world.outside (stop_core1, arg) behind e).0
        (λ m1 ran. asked-Ends sdk const fuel m1 (stop-asks sdk const arg _ m1 ran))
  core1_entry-Ends (entry ∷ before) behind arg (suc (suc fuel)) m h e =
      round-Ends sdk const entry (before ++ (stop_core1, arg) ∷ []) (suc fuel) m
        (queue.removes m.world.outside entry (before ++ (stop_core1, arg) ∷ behind) e).0
        (λ m1 ran.
          let (added, grown) = ran-Grown entry (before ++ (stop_core1, arg) ∷ behind) m m1 e ran in
          core1_entry-Ends before (behind ++ added) arg (suc fuel) m1 (omega (arith, h))
            (grown ∙ append_assoc before ((stop_core1, arg) ∷ behind) added))
