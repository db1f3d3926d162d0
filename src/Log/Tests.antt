-- ===== src/Log/Tests.antt =====
-- Checks of the log on concrete input.
use sr_firmware.Base.{◌≡◌, arith, List, [], ◌∷◌, ℕ, length}
use sr_firmware.Crc.{crc16_ccitt}
use sr_firmware.Log.{
  CircularBufferLog, init, rp2040_log, make_room, flush, get_byte_count, get_crc, log_level_error,
  log_level_warning,
}
use sr_firmware.Log.Valid.{init-IsValid}
use sr_firmware.Log.Spec.{evict, IsEviction, evict-IsEviction}
use sr_firmware.Log.Room.{MadeRoom, make_room-MadeRoom}
use sr_firmware.Log.Refine.{Logged, rp2040_log-Logged}
use sr_firmware.Log.Stream.{Flushed, flush-Flushed, get_byte_count-flush, get_crc-flush}
use sr_firmware.Log.Store.{NoNull}

abbrev hello : List ℕ
hello = 104 ∷ 105 ∷ 10 ∷ []

hello-NoNull : NoNull hello
hello-NoNull = (omega arith, (omega arith, (omega arith, tt)))

-- A ring that holds one line.
first : Logged init hello (rp2040_log log_level_warning hello init)
first = rp2040_log-Logged log_level_warning hello init (omega arith) hello-NoNull init-IsValid.0

abbrev one_line : CircularBufferLog
one_line = first.after

rp2040_log-Logged_example : Logged one_line hello (rp2040_log log_level_error hello one_line)
rp2040_log-Logged_example =
    rp2040_log-Logged log_level_error hello one_line (omega arith) hello-NoNull first.valid

make_room-MadeRoom_example : MadeRoom one_line 127 (make_room one_line 127)
make_room-MadeRoom_example = make_room-MadeRoom one_line 127 first.valid (omega arith)

flush-Flushed_example : Flushed one_line (flush one_line)
flush-Flushed_example = flush-Flushed one_line first.valid

get_byte_count-flush_example : get_byte_count one_line ≡ length (flush one_line).0
get_byte_count-flush_example = get_byte_count-flush one_line first.valid

get_crc-flush_example : get_crc one_line 0xffff ≡ crc16_ccitt (flush one_line).0 0xffff
get_crc-flush_example = get_crc-flush one_line 0xffff first.valid

evict-IsEviction_example : IsEviction 65533 (hello ∷ hello ∷ []) (evict 65533 (hello ∷ hello ∷ []))
evict-IsEviction_example = evict-IsEviction 65533 (hello ∷ hello ∷ []) (omega arith) (omega arith)
