-- ===== src/Log/Refine.antt =====
-- `rp2040_log` behaves as `Spec.append` on the list of texts.
use mathlib.Core.Option
use sr_firmware.Base.{ℕ, ◌≤◌, ◌<◌, ltb, true, false, min, ◌≡◌, ap, sym, ◌∙◌, arith}
use sr_firmware.Base.{Option, some, List, [], ◌∷◌, ◌++◌, length, length-take}
use sr_firmware.Log.{CircularBufferLog, log_level, payload_size, line_length, make_room}
use sr_firmware.Log.{append_line, rp2040_log}
use sr_firmware.Log.Valid.{contents, IsValid}
use sr_firmware.Log.Room.{MadeRoom, make_room-MadeRoom}
use sr_firmware.Log.Store.{NoNull, line_length_lem, append_line-IsValid}
use sr_firmware.Log.Spec.{evict, kept, append}

-- What `rp2040_log` returns for a message that is logged.
pub record Logged (b : CircularBufferLog) (text : List ℕ) (out : Option CircularBufferLog)
    : Type 0 where
  pub after : CircularBufferLog
  pub returns : out ≡ some after
  pub valid : IsValid after
  pub holds : contents after ≡ append (contents b) text

enabled_lem :
    (level : ℕ) (text : List ℕ) (b : CircularBufferLog)
    → log_level ≤ level
    → rp2040_log level text b
      ≡ Option.map (append_line text) (make_room b (payload_size (line_length text)))
unfolding rp2040_log
enabled_lem level text b h = let enabled : ltb level log_level ≡ false = ground arith in rw enabled

payload_lem : (text : List ℕ) → payload_size (line_length text) ≡ min 127 (length text)
unfolding payload_size
payload_lem text = rw (line_length_lem text) (ground arith)

Logged-MadeRoom :
    (b : CircularBufferLog) (text : List ℕ)
    → NoNull text
    → {out : Option CircularBufferLog} → MadeRoom b (min 127 (length text)) out
    → Logged b text (Option.map (append_line text) out)
unfolding append
Logged-MadeRoom b text clean made =
    let done = append_line-IsValid made.after text made.valid clean made.room in
    record {
      after = append_line text made.after;
      returns = ap (Option.map (append_line text)) made.returns;
      valid = done.0;
      holds =
          done.1
          ∙ ap (λ ts. ts ++ kept text ∷ []) made.holds
          ∙ ap (λ n. evict n (contents b) ++ kept text ∷ []) (sym (length-take 127 text));
    }

-- On a valid ring, a message of an enabled level and with no null byte in its text, `rp2040_log`
-- returns, with a valid ring that holds what `Spec.append` makes of the texts before.
pub rp2040_log-Logged :
    (level : ℕ) (text : List ℕ) (b : CircularBufferLog)
    → log_level ≤ level
    → NoNull text
    → IsValid b
    → Logged b text (rp2040_log level text b)
rp2040_log-Logged level text b enabled clean v = rw (enabled_lem level text b enabled) (
    Logged-MadeRoom b text clean
      (rw (payload_lem text) (make_room-MadeRoom b (min 127 (length text)) v (omega arith))))

-- A message below the build's level leaves the log as it is.
pub rp2040_log_disabled :
    (level : ℕ) (text : List ℕ) (b : CircularBufferLog)
    → level < log_level
    → rp2040_log level text b ≡ some b
unfolding rp2040_log
rp2040_log_disabled level text b h =
    let disabled : ltb level log_level ≡ true = ground arith in rw disabled
