-- ===== src/Log/Valid.antt =====
-- The invariant of the ring, which every operation keeps; under it no index is out of range, no
-- `uint16_t` wraps and the loop of `rp2040_log_make_room` ends.
use sr_firmware.Base.{ℕ, suc, ◌+◌, ◌-◌, ◌%◌, ◌≤◌, ◌<◌}
use sr_firmware.Base.{◌≡◌, ◌≢◌, refl, sym, ap, ◌∙◌, arith, List, [], ◌∷◌, take}
use sr_firmware.Log.{CircularBufferLog, log_buffer_line_count, uint16_max, init}
use sr_firmware.Log.{drop_oldest, update}
use sr_firmware.Log.Window.{texts, AllLines, total, texts-Agree, AllLines-Agree, next}

-- The texts that the ring holds, oldest first.
abbrev pub contents : CircularBufferLog → List (List ℕ)
contents b = texts b.log_array b.log_array_line_size b.head b.count

pub record IsValid (b : CircularBufferLog) : Type 0 where
  pub head_in : b.head < log_buffer_line_count
  pub count_in : b.count ≤ log_buffer_line_count
  pub tail_at : b.tail ≡ (b.head + b.count) % log_buffer_line_count
  pub bytes : b.byte_count ≡ total (contents b)
  pub bytes_in : b.byte_count ≤ uint16_max - 1
  pub lines : AllLines b.log_array b.log_array_line_size b.head b.count

pub init-IsValid : IsValid init × (contents init ≡ [])
unfolding init
init-IsValid = (
  record {
    head_in = omega arith;
    count_in = omega arith;
    tail_at = refl;
    bytes = refl;
    bytes_in = omega arith;
    lines = tt;
  },
  refl,
)

-- `contents` matches on the count, the code tests it for 0.
pub record IsPop (b b' : CircularBufferLog) : Type 0 where
  pub oldest : List ℕ
  pub was : contents b ≡ oldest ∷ contents b'
  pub valid : IsValid b'
  pub fewer : b.count ≡ suc b'.count

module _ (b : CircularBufferLog) (n : ℕ) (e : b.count ≡ suc n) (v : IsValid b) where
  size : ℕ
  size = b.log_array_line_size b.head

  sizes' : ℕ → ℕ
  sizes' = update b.log_array_line_size b.head 0

  live : AllLines b.log_array b.log_array_line_size b.head (suc n)
  live = rw e at v.lines

  was_texts : contents b ≡ texts b.log_array b.log_array_line_size b.head (suc n)
  was_texts = ap (texts b.log_array b.log_array_line_size b.head) e

  count-lt : n < log_buffer_line_count
  count-lt = omega (arith, e, v.count_in)

  -- The line that goes is not among those that stay.
  same :
      (k : ℕ)
      → k < n
      → (b.log_array ((next b.head + k) % log_buffer_line_count)
          ≡ b.log_array ((next b.head + k) % log_buffer_line_count))
        × (sizes' ((next b.head + k) % log_buffer_line_count)
            ≡ b.log_array_line_size ((next b.head + k) % log_buffer_line_count))
  unfolding sizes'
  same k hk =
      let apart : b.head ≢ (next b.head + k) % log_buffer_line_count =
        omega (arith, v.head_in, count-lt) in
      (refl, ground arith)

  rest_texts :
      texts b.log_array sizes' (next b.head) n
      ≡ texts b.log_array b.log_array_line_size (next b.head) n
  rest_texts =
      texts-Agree b.log_array b.log_array b.log_array_line_size sizes' (next b.head) n (omega arith)
        same

  -- What `drop_oldest` makes of a valid ring with a line in it.
  dropped : CircularBufferLog
  dropped = record b {
    byte_count = b.byte_count - (size - 1);
    log_array_line_size = sizes';
    head = next b.head;
    count = n;
  }

  bytes_split :
      b.byte_count ≡ size - 1 + total (texts b.log_array b.log_array_line_size (next b.head) n)
  unfolding size
  bytes_split = omega (arith, v.bytes, ap total was_texts, live.0.text_length)

  drop_oldest-dropped : drop_oldest b ≡ dropped
  unfolding drop_oldest dropped sizes' size
  drop_oldest-dropped = ground (arith, e, bytes_split, live.0.some_size, v.tail_at, v.head_in)

  dropped-IsPop : IsPop b dropped
  unfolding dropped
  dropped-IsPop = record {
    oldest = take (size - 1) (b.log_array b.head);
    was =
        unfold size in
        was_texts
        ∙ ap (λ t. take (b.log_array_line_size b.head - 1) (b.log_array b.head) ∷ t)
            (sym rest_texts);
    valid = record {
      head_in = omega arith;
      count_in = omega (arith, count-lt);
      tail_at = omega (arith, e, v.tail_at, v.head_in);
      bytes = omega (arith, bytes_split, ap total rest_texts);
      bytes_in = omega (arith, v.bytes_in);
      lines =
          AllLines-Agree b.log_array b.log_array b.log_array_line_size sizes' (next b.head) n
            (omega arith) same live.1;
    };
    fewer = e;
  }

  pub drop_oldest-IsPop : IsPop b (drop_oldest b)
  drop_oldest-IsPop = rw drop_oldest-dropped dropped-IsPop
