-- ===== src/Log/Spec.antt =====
-- What the log promises: a list of texts, oldest first, that holds at most 1028 texts and 65534
-- bytes, and gives up its oldest texts for a new one.
use sr_firmware.Base.{
  ℕ, zero, suc, ◌+◌, ◌≤◌, ◌<◌, ◌==◌, ltb, ◌||◌, if◌then◌else◌, Bool, true, false,
}
use sr_firmware.Base.{
  ◌≡◌, refl, ◌∙◌, arith, List, [], ◌∷◌, ◌++◌, length, take, drop, Bool-cases, inl, inr,
}
use sr_firmware.Log.Window.{total}

abbrev pub Texts : Type 0
Texts = List (List ℕ)

-- There is room for `payload` bytes more, in a line of their own.
pub record Fits (payload : ℕ) (ts : Texts) : Type 0 where
  pub lines : length ts < 1028
  pub bytes : total ts + payload ≤ 65534

abbrev pub too_full : ℕ → Texts → Bool
too_full payload ts = length ts == 1028 || ltb 65534 (total ts + payload)

-- Drop the oldest texts until there is room.
unfoldable pub evict : ℕ → Texts → Texts
evict payload [] = []
evict payload (t ∷ ts) = if too_full payload (t ∷ ts) then evict payload ts else t ∷ ts

-- What is kept of a message.
abbrev pub kept : List ℕ → List ℕ
kept text = take 127 text

unfoldable pub append : Texts → List ℕ → Texts
append ts text = evict (length (kept text)) ts ++ kept text ∷ []

pub evict_stop : (payload : ℕ) (ts : Texts) → too_full payload ts ≡ false → evict payload ts ≡ ts
unfolding evict
evict_stop payload [] h = refl
evict_stop payload (t ∷ ts) h = rw h

pub evict_drop :
    (payload : ℕ) (t : List ℕ) (ts : Texts)
    → too_full payload (t ∷ ts) ≡ true
    → evict payload (t ∷ ts) ≡ evict payload ts
unfolding evict
evict_drop payload t ts h = rw h

-- What is evicted is the shortest run of oldest texts whose going makes room: the rest has room,
-- and with one of them more it has not.
pub record IsEviction (payload : ℕ) (ts kept_ts : Texts) : Type 0 where
  pub gone : ℕ
  pub rest : kept_ts ≡ drop gone ts
  pub fits : Fits payload kept_ts
  pub least : (k : ℕ) → k < gone → ¬ Fits payload (drop k ts)

not-Fits : (payload : ℕ) (ts : Texts) → too_full payload ts ≡ true → ¬ Fits payload ts
not-Fits payload ts h f = ground (arith, f.lines, f.bytes)

-- For a payload of at most 65534 bytes, and at most 1028 texts, `evict` drops the fewest oldest
-- texts that make room for it.
pub evict-IsEviction :
    (payload : ℕ) (ts : Texts)
    → payload ≤ 65534
    → length ts ≤ 1028
    → IsEviction payload ts (evict payload ts)
evict-IsEviction payload [] h hl = record {
  gone = 0;
  rest = evict_stop payload [] (ground arith);
  fits = rw (evict_stop payload [] (ground arith)) (omega arith);
  least = λ k hk. absurd (omega arith);
}
evict-IsEviction payload (t ∷ ts) h hl = elim (Bool-cases (too_full payload (t ∷ ts))) [
  | inl full ↦
      let tail = evict-IsEviction payload ts h (omega arith) in
      record {
        gone = suc tail.gone;
        rest = evict_drop payload t ts full ∙ tail.rest;
        fits = rw (evict_drop payload t ts full) tail.fits;
        least = least_after full tail.gone tail.least;
      }
  | inr room ↦ record {
    gone = 0;
    rest = evict_stop payload (t ∷ ts) room;
    fits =
        rw (evict_stop payload (t ∷ ts) room)
          (record { lines = ground arith; bytes = ground arith });
    least = λ k hk. absurd (omega arith);
  }
]
  where
    least_after :
        too_full payload (t ∷ ts) ≡ true
        → (gone : ℕ) → ((k : ℕ) → k < gone → ¬ Fits payload (drop k ts))
        → (k : ℕ) → k < suc gone
        → ¬ Fits payload (drop k (t ∷ ts))
    least_after full gone before zero hk = not-Fits payload (t ∷ ts) full
    least_after full gone before (suc k) hk = before k (omega arith)
