-- ===== src/Serial/Fill.antt =====
-- Bytes that arrive, and the loop of `get_block` that stores them.
use sr_firmware.Base.{ℕ, zero, suc, ◌+◌, ◌≤◌, ◌<◌}
use sr_firmware.Base.{Bool, true, some, set, take, length-set}
use sr_firmware.Base.{
  ◌≡◌, refl, sym, ap, ◌∙◌, arith, List, [], ◌∷◌, ◌++◌, append-nil, append_assoc, length,
}
use sr_firmware.Crc.Detect.{IsBytes}
use sr_firmware.Serial.{u8}
use sr_firmware.Serial.Receive.{Input, read_payload}

-- Bytes that arrive without a pause.
abbrev pub arrive : List ℕ → Input → Input
arrive [] input = input
arrive (b ∷ bs) input = some b ∷ arrive bs input

pub arrive-append :
    (xs ys : List ℕ) (input : Input) → arrive (xs ++ ys) input ≡ arrive xs (arrive ys input)
arrive-append [] ys input = refl
arrive-append (x ∷ xs) ys input = ap (λ t. some x ∷ t) (arrive-append xs ys input)

-- The loop has filled the buffer from index `i` on.
pub record Filled (i : ℕ) (bs rx : List ℕ) (rest : Input) (out : Bool × List ℕ × Input)
    : Type 0 where
  pub buffer : List ℕ
  pub returns : out ≡ (true, buffer, rest)
  pub same_length : length buffer ≡ length rx
  pub holds : take (i + length bs) buffer ≡ take i rx ++ bs

take-set :
    (i : ℕ) (b : ℕ) (rx : List ℕ) → i < length rx → take (i + 1) (set rx i b) ≡ take i rx ++ b ∷ []
take-set i b [] h = absurd (omega arith)
take-set zero b (x ∷ rx) h = refl
take-set (suc i) b (x ∷ rx) h =
    let e : suc i + 1 ≡ suc (i + 1) = omega arith in
    rw e (ap (λ t. x ∷ t) (take-set i b rx (omega arith)))

pub read_payload-Filled :
    (bs : List ℕ) (i : ℕ) (rx : List ℕ) (rest : Input)
    → IsBytes bs
    → i + length bs ≤ length rx
    → Filled i bs rx rest (read_payload (length bs) i rx (arrive bs rest))
unfolding read_payload
read_payload-Filled [] i rx rest hs h = record {
  buffer = rx;
  returns = refl;
  same_length = refl;
  holds = ap (λ n. take n rx) {x = i + 0} {y = i} (omega arith) ∙ sym (append-nil (take i rx));
}
read_payload-Filled (b ∷ bs) i rx rest hs h =
    let fits : u8 b ≡ b = omega (arith, hs.0) in
    let more =
      read_payload-Filled bs (i + 1) (set rx i b) rest hs.1 (omega (arith, length-set rx i b)) in
    record {
      buffer = more.buffer;
      returns = rw fits more.returns;
      same_length = more.same_length ∙ length-set rx i b;
      holds =
          ap (λ n. take n more.buffer) {x = i + suc (length bs)} {y = i + 1 + length bs}
            (omega arith)
          ∙ more.holds
          ∙ ap (λ t. t ++ bs) (take-set i b rx (omega arith))
          ∙ append_assoc (take i rx) (b ∷ []) bs;
    }
