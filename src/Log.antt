-- ===== src/Log.antt =====
-- src/rp2040_log.c, the ring of log lines. The code between `rp2040_log_acquire_lock` and
-- `rp2040_log_release_lock` is one step: the mutex of the SDK keeps other cores out. A log message
-- is the text that the format and its arguments print. A function that prints returns the bytes.
pub mod Window
pub mod Valid
pub mod Spec
pub mod Room
pub mod Store
pub mod Refine
pub mod Stream
mod Tests
use sr_firmware.Base.{ℕ, zero, suc, ◌+◌, ◌-◌, ◌%◌, ◌^◌, ◌==◌, ltb, if◌then◌else◌, Bool, false, ◌||◌}
use sr_firmware.Base.{Option, none, some, List, [], ◌∷◌, ◌++◌, length, take, drop, replicate}
use mathlib.Core.Option
use sr_firmware.Crc.{crc16_ccitt}

-- include/rp2040_log.h. `log_level` is the default of CMakeLists.txt, WARNING.
abbrev pub log_level_warning : ℕ
log_level_warning = 3

abbrev pub log_level_error : ℕ
log_level_error = 4

abbrev pub log_level : ℕ
log_level = 3

abbrev pub log_buffer_line_count : ℕ
log_buffer_line_count = 1028

abbrev pub log_buffer_char_limit : ℕ
log_buffer_char_limit = 128

abbrev pub uint16_max : ℕ
uint16_max = 65535

-- The arrays are functions of the index; `Valid` shows that every index used is in range.
pub record CircularBufferLog : Type 0 where
  pub log_array : ℕ → List ℕ
  pub log_array_line_size : ℕ → ℕ
  pub count : ℕ
  pub byte_count : ℕ
  pub head : ℕ
  pub tail : ℕ
  pub lock : Bool

-- An array after `f[i] = v`.
abbrev pub update {ℓ} : {A : Type ℓ} → (ℕ → A) → ℕ → A → ℕ → A
update f i v j = if i == j then v else f j

abbrev u16 : ℕ → ℕ
u16 n = n % 2 ^ 16

-- `vsnprintf(dst, len, …)`: at most `len - 1` bytes of the text, and a null behind them.
abbrev pub vsnprintf : List ℕ → ℕ → List ℕ → List ℕ
vsnprintf dst zero text = dst
vsnprintf dst (suc n) text = take n text ++ 0 ∷ drop (suc (length (take n text))) dst

-- `printf("%.*s", n, s)`: the bytes before the first null, at most `n`.
abbrev pub print_string : ℕ → List ℕ → List ℕ
print_string zero s = []
print_string (suc n) [] = []
print_string (suc n) (c ∷ s) = if c == 0 then [] else c ∷ print_string n s

pub is_empty : CircularBufferLog → Bool
is_empty b = b.count == 0

pub payload_size : ℕ → ℕ
payload_size line_size = if ltb 0 line_size then line_size - 1 else 0

pub drop_oldest : CircularBufferLog → CircularBufferLog
unfolding is_empty payload_size
drop_oldest b =
    if is_empty b
    then b
    else let payload = payload_size (b.log_array_line_size b.head) in
      let head' = (b.head + 1) % log_buffer_line_count in
      record b {
        byte_count = if ltb b.byte_count payload then 0 else b.byte_count - payload;
        log_array_line_size = update b.log_array_line_size b.head 0;
        head = head';
        count = b.count - 1;
        tail = if b.count - 1 == 0 then head' else b.tail;
      }

-- The condition of the loop of `rp2040_log_make_room`.
pub needs_room : CircularBufferLog → ℕ → Bool
needs_room b payload =
    b.count == log_buffer_line_count || ltb (uint16_max - 1) (b.byte_count + payload)

-- `none` means that the loop is still running after that many tests of its condition.
pub make_room_loop : ℕ → CircularBufferLog → ℕ → Option CircularBufferLog
make_room_loop zero b payload = none
make_room_loop (suc fuel) b payload =
    let rest = make_room_loop fuel (drop_oldest b) payload in
    if needs_room b payload then rest else some b

-- Each round drops a line, so a round more than there are lines is enough (`Valid`).
pub make_room : CircularBufferLog → ℕ → Option CircularBufferLog
make_room b payload = make_room_loop (suc b.count) b payload

abbrev pub zeroed : CircularBufferLog
zeroed = record {
  log_array = λ _. replicate log_buffer_char_limit 0;
  log_array_line_size = λ _. 0;
  count = 0;
  byte_count = 0;
  head = 0;
  tail = 0;
  lock = false;
}

unfoldable pub init : CircularBufferLog
init = record zeroed { head = 0; tail = 0; count = 0 }

-- `int len = vsnprintf(NULL, 0, format, args) + 1`, cut to the line.
pub line_length : List ℕ → ℕ
line_length text =
    let len = length text + 1 in
    if ltb log_buffer_char_limit len then log_buffer_char_limit else len

-- The part of `rp2040_log` after the loop.
pub append_line : List ℕ → CircularBufferLog → CircularBufferLog
unfolding line_length payload_size
append_line text b =
    let len = line_length text in
    record b {
      log_array = update b.log_array b.tail (vsnprintf (b.log_array b.tail) len text);
      log_array_line_size = update b.log_array_line_size b.tail len;
      byte_count = u16 (b.byte_count + payload_size len);
      count = u16 (b.count + 1);
      tail = (b.tail + 1) % log_buffer_line_count;
    }

unfoldable pub rp2040_log : ℕ → List ℕ → CircularBufferLog → Option CircularBufferLog
unfolding payload_size line_length make_room make_room_loop append_line needs_room drop_oldest
rp2040_log level text b =
    if ltb level log_level
    then some b
    else Option.map (append_line text) (make_room b (payload_size (line_length text)))

unfoldable pub get_byte_count : CircularBufferLog → ℕ
get_byte_count b = b.byte_count

-- The loop of `rp2040_get_crc`, with the rounds left.
pub crc_loop : CircularBufferLog → ℕ → ℕ → ℕ → ℕ
crc_loop b zero current crc = crc
crc_loop b (suc n) current crc =
    let size = b.log_array_line_size current in
    crc_loop b n ((current + 1) % log_buffer_line_count)
      (if ltb 1 size then crc16_ccitt (take (size - 1) (b.log_array current)) crc else crc)

unfoldable pub get_crc : CircularBufferLog → ℕ → ℕ
unfolding crc_loop
get_crc b initial_crc = crc_loop b b.count b.head initial_crc

-- The loop of `rp2040_log_flush`, with the rounds left: what it prints.
pub flush_loop : CircularBufferLog → ℕ → ℕ → List ℕ
flush_loop b zero index = []
flush_loop b (suc n) index =
    let line_size = b.log_array_line_size index in
    (if ltb 0 line_size then print_string line_size (b.log_array index) else [])
    ++ flush_loop b n ((index + 1) % log_buffer_line_count)

unfoldable pub flush : CircularBufferLog → List ℕ × CircularBufferLog
unfolding flush_loop is_empty
flush b =
    if is_empty b
    then ([], b)
    else (flush_loop b b.count b.head, record b { head = 0; tail = 0; count = 0; byte_count = 0 })
