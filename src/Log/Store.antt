-- ===== src/Log/Store.antt =====
-- What `rp2040_log` stores behind the last line.
use sr_firmware.Base.{ℕ, suc, ◌+◌, ◌-◌, ◌%◌, ◌≤◌, ◌<◌, ◌==◌, true, false, min}
use sr_firmware.Base.{
  ◌≡◌, ◌≢◌, sym, ap, ap₂, ◌∙◌, subst, arith, List, [], ◌∷◌, ◌++◌, length, take, drop, All,
}
use sr_firmware.Base.{length-take, take-append_of_length, take_all, All-take}
use sr_firmware.Base.{drop-suc-append}
use native.Mathlib.Decide.{dec_lt}
use sr_firmware.Log.{CircularBufferLog, log_buffer_line_count, update, vsnprintf}
use sr_firmware.Log.{line_length, needs_room, append_line}
use sr_firmware.Log.Window.{
  texts, AllLines, IsLine, total, total-append, texts-Agree, AllLines-Agree,
}
use sr_firmware.Log.Window.{texts-extend, AllLines-extend}
use sr_firmware.Log.Valid.{contents, IsValid}
use sr_firmware.Log.Spec.{kept}

abbrev pub NoNull : List ℕ → Type 0
NoNull = All (λ c. c ≢ 0)

pub line_length_lem : (text : List ℕ) → line_length text ≡ suc (min 127 (length text))
unfolding line_length
line_length_lem text = ground arith

kept_lem : (text : List ℕ) → take (min 127 (length text)) text ≡ kept text
kept_lem text = elim (dec_lt 127 (length text)) [
  | yes long ↦ ap (λ n. take n text) {x = min 127 (length text)} {y = 127} (omega arith)
  | no short ↦
      ap (λ n. take n text) {x = min 127 (length text)} {y = length text} (omega arith)
      ∙ take_all (length text) text (omega arith)
      ∙ sym (take_all 127 text (omega arith))
]

-- The line that `vsnprintf` leaves.
module _ (old text : List ℕ) where
  m : ℕ
  m = min 127 (length text)

  stored : List ℕ
  stored = vsnprintf old (suc m) text

  text-length : length (take m text) ≡ m
  unfolding m
  text-length = omega (arith, length-take (min 127 (length text)) text)

  stored-take : take m stored ≡ take m text
  unfolding stored
  stored-take = take-append_of_length m (take m text) _ text-length

  stored-IsLine : NoNull text → IsLine (suc m) stored
  unfolding m stored
  stored-IsLine clean = record {
    some_size = omega arith;
    fits = unfold m in omega arith;
    text_length = rw pred_m (ap length stored-take ∙ text-length);
    no_null = rw (pred_m, stored-take) (All-take (λ c. c ≢ 0) m text clean);
    ends = rw pred_m (rw stored-take (ap (λ r. take m text ++ 0 ∷ r) (sym tail_kept)));
  }
    where
      pred_m : suc m - 1 ≡ m
      pred_m = omega arith

      tail_kept : drop (suc m) stored ≡ drop (suc (length (take m text))) old
      tail_kept =
          drop-suc-append m (take m text) (drop (suc (length (take m text))) old) 0 text-length

  stored-text : take (suc m - 1) stored ≡ kept text
  unfolding m
  stored-text = let pred_m : suc m - 1 ≡ m = omega arith in rw pred_m (stored-take ∙ kept_lem text)

-- A line appended to a valid ring with room.
module _ (b : CircularBufferLog) (text : List ℕ) (v : IsValid b) (clean : NoNull text)
    (room : needs_room b (min 127 (length text)) ≡ false) where
  size : ℕ
  size = suc (min 127 (length text))

  array' : ℕ → List ℕ
  array' = update b.log_array b.tail (vsnprintf (b.log_array b.tail) size text)

  sizes' : ℕ → ℕ
  sizes' = update b.log_array_line_size b.tail size

  appended : CircularBufferLog
  appended = record b {
    log_array = array';
    log_array_line_size = sizes';
    byte_count = b.byte_count + min 127 (length text);
    count = b.count + 1;
    tail = (b.tail + 1) % log_buffer_line_count;
  }

  has_room : (b.count < log_buffer_line_count) × (b.byte_count + min 127 (length text) ≤ 65534)
  has_room = unfold needs_room in (ground (arith, v.count_in), ground arith)

  append_line-appended : append_line text b ≡ appended
  unfolding append_line appended size array' sizes'
  append_line-appended = rw (line_length_lem text) (ground (arith, has_room))

  same :
      (k : ℕ)
      → k < b.count
      → (array' ((b.head + k) % log_buffer_line_count)
          ≡ b.log_array ((b.head + k) % log_buffer_line_count))
        × (sizes' ((b.head + k) % log_buffer_line_count)
            ≡ b.log_array_line_size ((b.head + k) % log_buffer_line_count))
  unfolding array' sizes'
  same k hk =
      let apart : b.tail ≢ (b.head + k) % log_buffer_line_count =
        omega (arith, v.head_in, v.tail_at, has_room) in
      (ground arith, ground arith)

  written : IsLine (sizes' b.tail) (array' b.tail)
  unfolding array' sizes' size m stored
  written =
      let self : (b.tail == b.tail) ≡ true = ground arith in
      rw self (stored-IsLine (b.log_array b.tail) text clean)

  written-text : take (sizes' b.tail - 1) (array' b.tail) ≡ kept text
  unfolding array' sizes' size m stored
  written-text =
      let self : (b.tail == b.tail) ≡ true = ground arith in
      rw self (stored-text (b.log_array b.tail) text)

  contents-appended : contents appended ≡ contents b ++ kept text ∷ []
  unfolding appended
  contents-appended =
      ap (texts array' sizes' b.head) {x = b.count + 1} {y = suc b.count} (omega arith)
      ∙ texts-extend array' sizes' b.head b.count b.tail v.head_in v.tail_at
      ∙ ap₂ (λ ts t. ts ++ t ∷ [])
          (texts-Agree b.log_array array' b.log_array_line_size sizes' b.head b.count v.head_in
            same)
          written-text

  appended-IsValid : IsValid appended
  unfolding appended
  appended-IsValid = record {
    head_in = v.head_in;
    count_in = omega (arith, has_room);
    tail_at = omega (arith, v.tail_at, v.head_in);
    bytes = omega (
      arith,
      v.bytes,
      ap total contents-appended,
      total-append (contents b) (kept text ∷ []),
      length-take 127 text,
    );
    bytes_in = omega (arith, has_room);
    lines =
        let more : suc b.count ≡ b.count + 1 = omega arith in
        subst (AllLines array' sizes' b.head) more (
          AllLines-extend array' sizes' b.head b.count b.tail v.head_in v.tail_at
            (AllLines-Agree b.log_array array' b.log_array_line_size sizes' b.head b.count v.head_in
              same v.lines)
            written);
  }

  -- On a valid ring with room, the line is stored behind the others and the ring stays valid.
  pub append_line-IsValid :
      IsValid (append_line text b) × (contents (append_line text b) ≡ contents b ++ kept text ∷ [])
  append_line-IsValid = rw append_line-appended (appended-IsValid, contents-appended)
