-- ===== src/Log/Window.antt =====
-- The live lines of the ring, oldest first.
use sr_firmware.Base.{ℕ, zero, suc, ◌+◌, ◌-◌, ◌%◌, ◌≤◌, ◌<◌}
use sr_firmware.Base.{◌≡◌, ◌≢◌, refl, ap, ap₂, arith, List, [], ◌∷◌, ◌++◌, All, length, take, drop}
use sr_firmware.Log.{log_buffer_line_count, log_buffer_char_limit}

abbrev pub next : ℕ → ℕ
next i = (i + 1) % log_buffer_line_count

-- A line as it is stored: `size - 1` bytes other than null, and a null behind them.
pub record IsLine (size : ℕ) (line : List ℕ) : Type 0 where
  pub some_size : 0 < size
  pub fits : size ≤ log_buffer_char_limit
  pub text_length : length (take (size - 1) line) ≡ size - 1
  pub no_null : All (λ c. c ≢ 0) (take (size - 1) line)
  pub ends : line ≡ take (size - 1) line ++ 0 ∷ drop size line

module _ (array : ℕ → List ℕ) (sizes : ℕ → ℕ) where
  -- The texts of the `n` lines from index `h` on.
  abbrev pub texts : ℕ → ℕ → List (List ℕ)
  texts h zero = []
  texts h (suc n) = take (sizes h - 1) (array h) ∷ texts (next h) n

  abbrev pub AllLines : ℕ → ℕ → Type 0
  AllLines h zero = Unit {0}
  AllLines h (suc n) = IsLine (sizes h) (array h) × AllLines (next h) n

  pub length-texts : (h n : ℕ) → length (texts h n) ≡ n
  length-texts h zero = refl
  length-texts h (suc n) = ap suc (length-texts (next h) n)

-- Two stores that agree on a window show the same lines in it.
module _ (array array' : ℕ → List ℕ) (sizes sizes' : ℕ → ℕ) where
  abbrev pub AgreeAt : ℕ → Type 0
  AgreeAt i = (array' i ≡ array i) × (sizes' i ≡ sizes i)

  abbrev pub Agree : ℕ → ℕ → Type 0
  Agree h n = (k : ℕ) → k < n → AgreeAt ((h + k) % log_buffer_line_count)

  Agree-first : (h n : ℕ) → h < log_buffer_line_count → Agree h (suc n) → AgreeAt h
  Agree-first h n hh same =
      let here : (h + 0) % log_buffer_line_count ≡ h = omega arith in
      rw here at (same 0 (omega arith))

  Agree-rest : (h n : ℕ) → Agree h (suc n) → Agree (next h) n
  Agree-rest h n same k hk =
      let there : (next h + k) % log_buffer_line_count ≡ (h + suc k) % log_buffer_line_count =
        omega arith in
      rw there (same (suc k) (omega arith))

  pub texts-Agree :
      (h n : ℕ)
      → h < log_buffer_line_count
      → Agree h n
      → texts array' sizes' h n ≡ texts array sizes h n
  texts-Agree h zero hh same = refl
  texts-Agree h (suc n) hh same =
      let first = Agree-first h n hh same in
      ap₂ ◌∷◌ (rw (first.0, first.1)) (texts-Agree (next h) n (omega arith) (Agree-rest h n same))

  pub AllLines-Agree :
      (h n : ℕ)
      → h < log_buffer_line_count
      → Agree h n
      → AllLines array sizes h n
      → AllLines array' sizes' h n
  AllLines-Agree h zero hh same lines = tt
  AllLines-Agree h (suc n) hh same lines =
      let first = Agree-first h n hh same in
      (
        rw (first.0, first.1) lines.0,
        AllLines-Agree (next h) n (omega arith) (Agree-rest h n same) lines.1,
      )

-- A window is extended by the line behind it.
module _ (array : ℕ → List ℕ) (sizes : ℕ → ℕ) where
  pub texts-extend :
      (h n i : ℕ)
      → h < log_buffer_line_count
      → i ≡ (h + n) % log_buffer_line_count
      → texts array sizes h (suc n) ≡ texts array sizes h n ++ take (sizes i - 1) (array i) ∷ []
  texts-extend h zero i hh e = let here : i ≡ h = omega arith in rw here refl
  texts-extend h (suc n) i hh e =
      ap (λ t. take (sizes h - 1) (array h) ∷ t)
        (texts-extend (next h) n i (omega arith) (omega arith))

  pub AllLines-extend :
      (h n i : ℕ)
      → h < log_buffer_line_count
      → i ≡ (h + n) % log_buffer_line_count
      → AllLines array sizes h n
      → IsLine (sizes i) (array i)
      → AllLines array sizes h (suc n)
  AllLines-extend h zero i hh e lines line = let here : h ≡ i = omega arith in (rw here line, tt)
  AllLines-extend h (suc n) i hh e lines line =
      (lines.0, AllLines-extend (next h) n i (omega arith) (omega arith) lines.1 line)

abbrev pub total : List (List ℕ) → ℕ
total [] = 0
total (t ∷ ts) = length t + total ts

pub total-append : (xs ys : List (List ℕ)) → total (xs ++ ys) ≡ total xs + total ys
total-append [] ys = omega arith
total-append (x ∷ xs) ys = omega (arith, total-append xs ys)
