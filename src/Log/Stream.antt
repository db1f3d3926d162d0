-- ===== src/Log/Stream.antt =====
-- What leaves the ring: the bytes that `rp2040_log_flush` prints, their number and their checksum.
use sr_firmware.Base.{ℕ, zero, suc, ◌-◌, ◌<◌, ◌==◌, ltb, if◌then◌else◌, true, false}
use sr_firmware.Base.{
  ◌≡◌, ◌≢◌, refl, sym, ap, ap₂, ◌∙◌, arith, List, [], ◌∷◌, ◌++◌, length, take, drop, All,
}
use sr_firmware.Base.{Bool-cases, inl, inr, length-append}
use sr_firmware.Crc.{crc16_ccitt}
use sr_firmware.Crc.Detect.{crc16_ccitt-append, crc16_ccitt-nil}
use sr_firmware.Log.{CircularBufferLog, print_string, get_byte_count}
use sr_firmware.Log.{get_crc, crc_loop, flush, flush_loop}
use sr_firmware.Log.Window.{texts, AllLines, IsLine, total, next}
use sr_firmware.Log.Valid.{contents, IsValid}

-- The texts one behind the other.
abbrev pub concat : List (List ℕ) → List ℕ
concat [] = []
concat (t ∷ ts) = t ++ concat ts

pub length-concat : (ts : List (List ℕ)) → length (concat ts) ≡ total ts
length-concat [] = refl
length-concat (t ∷ ts) = omega (arith, length-append t (concat ts), length-concat ts)

-- Printing stops at the null.
print_clean :
    (n : ℕ) (xs ys : List ℕ)
    → length xs < n
    → All (λ c. c ≢ 0) xs
    → print_string n (xs ++ 0 ∷ ys) ≡ xs
print_clean zero xs ys h clean = absurd (omega arith)
print_clean (suc n) [] ys h clean = refl
print_clean (suc n) (x ∷ xs) ys h clean =
    let other : (x == 0) ≡ false = ground (arith, clean.0) in
    rw other (ap (λ t. x ∷ t) (print_clean n xs ys (omega arith) clean.1))

print_line :
    (size : ℕ) (line : List ℕ) → IsLine size line → print_string size line ≡ take (size - 1) line
print_line size line l =
    ap (print_string size) l.ends
    ∙ print_clean size (take (size - 1) line) (drop size line)
        (omega (arith, l.some_size, l.text_length)) l.no_null

crc_line :
    (size : ℕ) (line : List ℕ) (crc : ℕ)
    → IsLine size line
    → (if ltb 1 size then crc16_ccitt (take (size - 1) line) crc else crc)
      ≡ crc16_ccitt (take (size - 1) line) crc
crc_line size line crc l = elim (Bool-cases (ltb 1 size)) [
  | inl e ↦ rw e refl
  | inr e ↦
      let empty : size - 1 ≡ 0 = ground (arith, l.some_size) in
      rw (e, empty) (sym (crc16_ccitt-nil crc))
]

module _ (b : CircularBufferLog) where
  flush_loop-concat :
      (n h : ℕ)
      → AllLines b.log_array b.log_array_line_size h n
      → flush_loop b n h ≡ concat (texts b.log_array b.log_array_line_size h n)
  unfolding flush_loop
  flush_loop-concat zero h lines = refl
  flush_loop-concat (suc n) h lines =
      let some_size : ltb 0 (b.log_array_line_size h) ≡ true = ground (arith, lines.0.some_size) in
      rw some_size (
        ap₂ ◌++◌ (print_line (b.log_array_line_size h) (b.log_array h) lines.0)
          (flush_loop-concat n (next h) lines.1))

  crc_loop-concat :
      (n h crc : ℕ)
      → AllLines b.log_array b.log_array_line_size h n
      → crc_loop b n h crc ≡ crc16_ccitt (concat (texts b.log_array b.log_array_line_size h n)) crc
  unfolding crc_loop
  crc_loop-concat zero h crc lines = sym (crc16_ccitt-nil crc)
  crc_loop-concat (suc n) h crc lines =
      ap (crc_loop b n (next h)) (crc_line (b.log_array_line_size h) (b.log_array h) crc lines.0)
      ∙ crc_loop-concat n (next h) _ lines.1
      ∙ sym (
          crc16_ccitt-append (take (b.log_array_line_size h - 1) (b.log_array h))
            (concat (texts b.log_array b.log_array_line_size (next h) n)) crc)

-- What `rp2040_log_flush` leaves behind: it has printed the texts in order, and the ring is
-- valid and empty.
pub record Flushed (b : CircularBufferLog) (out : List ℕ × CircularBufferLog) : Type 0 where
  pub printed : out.0 ≡ concat (contents b)
  pub valid : IsValid out.1
  pub empty : contents out.1 ≡ []

Flushed-empty : (b : CircularBufferLog) → IsValid b → b.count ≡ 0 → Flushed b ([], b)
Flushed-empty b v e =
    let none_left : contents b ≡ [] = ap (texts b.log_array b.log_array_line_size b.head) e in
    record { printed = ap concat (sym none_left); valid = v; empty = none_left }

-- Flushing a valid ring prints its texts one behind the other, and leaves it valid and empty.
pub flush-Flushed : (b : CircularBufferLog) → IsValid b → Flushed b (flush b)
unfolding flush
flush-Flushed b v = elim (Bool-cases (b.count == 0)) [
  | inl e ↦ rw e (Flushed-empty b v (ground arith))
  | inr e ↦ rw e (record {
    printed = flush_loop-concat b b.count b.head v.lines;
    valid = record {
      head_in = omega arith;
      count_in = omega arith;
      tail_at = refl;
      bytes = refl;
      bytes_in = omega arith;
      lines = tt;
    };
    empty = refl;
  })
]

-- On a valid ring, `rp2040_get_byte_count` is the number of bytes that the next flush prints.
pub get_byte_count-flush :
    (b : CircularBufferLog) → IsValid b → get_byte_count b ≡ length (flush b).0
unfolding get_byte_count
get_byte_count-flush b v =
    v.bytes ∙ sym (length-concat (contents b)) ∙ ap length (sym (flush-Flushed b v).printed)

-- On a valid ring, `rp2040_get_crc` continues a checksum over exactly the bytes that the next
-- flush prints.
pub get_crc-flush :
    (b : CircularBufferLog) (crc : ℕ) → IsValid b → get_crc b crc ≡ crc16_ccitt (flush b).0 crc
unfolding get_crc
get_crc-flush b crc v =
    crc_loop-concat b b.count b.head crc v.lines
    ∙ ap (λ bytes. crc16_ccitt bytes crc) (sym (flush-Flushed b v).printed)
