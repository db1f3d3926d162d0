-- ===== src/Log/Room.antt =====
-- `rp2040_log_make_room`: the loop ends, and evicts what `Spec` evicts.
use sr_firmware.Base.{ℕ, zero, suc, ◌+◌, ◌-◌, ◌≤◌, ◌<◌, ◌==◌, ltb, true, false, ◌||◌}
use sr_firmware.Base.{◌≡◌, sym, ap, ap₂, ◌∙◌, arith}
use sr_firmware.Base.{Option, some, Bool-cases, inl, inr}
use native.Mathlib.Decide.{ℕ_discrete}
use sr_firmware.Log.{CircularBufferLog}
use sr_firmware.Log.{drop_oldest, needs_room, make_room_loop, make_room}
use sr_firmware.Log.Window.{texts, length-texts, total}
use sr_firmware.Log.Valid.{contents, IsValid, IsPop, drop_oldest-IsPop}
use sr_firmware.Log.Spec.{too_full, evict, evict_stop, evict_drop}

needs_room-too_full :
    (b : CircularBufferLog) (payload : ℕ)
    → IsValid b
    → needs_room b payload ≡ too_full payload (contents b)
unfolding needs_room
needs_room-too_full b payload v =
    ap₂ (λ c t. c == 1028 || ltb 65534 (t + payload)) (sym (length-texts _ _ _ _)) v.bytes

-- The loop has ended with a valid ring that has room.
pub record MadeRoom (b : CircularBufferLog) (payload : ℕ) (out : Option CircularBufferLog)
    : Type 0 where
  pub after : CircularBufferLog
  pub returns : out ≡ some after
  pub valid : IsValid after
  pub holds : contents after ≡ evict payload (contents b)
  pub room : needs_room after payload ≡ false

nonempty :
    (b : CircularBufferLog) (payload : ℕ)
    → IsValid b
    → payload ≤ 127
    → needs_room b payload ≡ true
    → b.count ≡ suc (b.count - 1)
unfolding needs_room
nonempty b payload v small full = elim (ℕ_discrete b.count 0) [
  | yes e ↦
      let none_left : total (contents b) ≡ 0 =
        ap (λ n. total (texts b.log_array b.log_array_line_size b.head n)) e in
      absurd (ground (arith, v.bytes))
  | no ne ↦ omega arith
]

loop_stop :
    (fuel : ℕ) (b : CircularBufferLog) (payload : ℕ)
    → needs_room b payload ≡ false
    → make_room_loop (suc fuel) b payload ≡ some b
unfolding make_room_loop
loop_stop fuel b payload h = rw h

loop_go :
    (fuel : ℕ) (b : CircularBufferLog) (payload : ℕ)
    → needs_room b payload ≡ true
    → make_room_loop (suc fuel) b payload ≡ make_room_loop fuel (drop_oldest b) payload
unfolding make_room_loop
loop_go fuel b payload h = rw h

MadeRoom-stop :
    (fuel : ℕ) (b : CircularBufferLog) (payload : ℕ)
    → IsValid b
    → needs_room b payload ≡ false
    → MadeRoom b payload (make_room_loop (suc fuel) b payload)
MadeRoom-stop fuel b payload v room = record {
  after = b;
  returns = loop_stop fuel b payload room;
  valid = v;
  holds = sym (evict_stop payload (contents b) (sym (needs_room-too_full b payload v) ∙ room));
  room = room;
}

MadeRoom-go :
    (fuel : ℕ) (b : CircularBufferLog) (payload : ℕ)
    → IsValid b
    → needs_room b payload ≡ true
    → (p : IsPop b (drop_oldest b))
    → MadeRoom (drop_oldest b) payload (make_room_loop fuel (drop_oldest b) payload)
    → MadeRoom b payload (make_room_loop (suc fuel) b payload)
MadeRoom-go fuel b payload v full p rest = record {
  after = rest.after;
  returns = loop_go fuel b payload full ∙ rest.returns;
  valid = rest.valid;
  holds =
      rest.holds
      ∙ sym (
          evict_drop payload p.oldest (contents (drop_oldest b))
            (ap (too_full payload) (sym p.was) ∙ sym (needs_room-too_full b payload v) ∙ full))
      ∙ ap (evict payload) (sym p.was);
  room = rest.room;
}

-- On a valid ring, and for a payload that a line can hold, a number of rounds above the number
-- of lines ends the loop.
make_room_loop-MadeRoom :
    (fuel : ℕ) (b : CircularBufferLog) (payload : ℕ)
    → IsValid b
    → payload ≤ 127
    → b.count < fuel
    → MadeRoom b payload (make_room_loop fuel b payload)
make_room_loop-MadeRoom zero b payload v small h = absurd (omega arith)
make_room_loop-MadeRoom (suc fuel) b payload v small h = elim (Bool-cases (needs_room b payload)) [
  | inl full ↦
      let pop = drop_oldest-IsPop b (b.count - 1) (nonempty b payload v small full) v in
      MadeRoom-go fuel b payload v full pop (
        make_room_loop-MadeRoom fuel (drop_oldest b) payload pop.valid small
          (omega (arith, pop.fewer)))
  | inr room ↦ MadeRoom-stop fuel b payload v room
]

-- On a valid ring, and for a payload of at most 127 bytes, the loop of `rp2040_log_make_room` ends, and
-- leaves a valid ring that holds the eviction of `Spec` and has room.
pub make_room-MadeRoom :
    (b : CircularBufferLog) (payload : ℕ)
    → IsValid b
    → payload ≤ 127
    → MadeRoom b payload (make_room b payload)
unfolding make_room
make_room-MadeRoom b payload v small =
    make_room_loop-MadeRoom (suc b.count) b payload v small (omega arith)
