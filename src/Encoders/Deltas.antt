-- ===== src/Encoders/Deltas.antt =====
-- The deltas of src/quad_encoders.c add up to the movement between the counts that are read.
use sr_firmware.Base.{
  ℕ, zero, suc, ◌+◌, ◌%◌, ◌^◌, ◌<◌, List, [], ◌∷◌, Option, some, ◌≡◌, refl, ◌∙◌, arith,
}
use sr_firmware.Machine.{pure, ◌>>=◌, ◌>>◌}
use sr_firmware.Hardware.{Encoder, State, Io, ask, get, modify}
use sr_firmware.Hardware.Returns.{bind-some}
use sr_firmware.Hardware.Sdk.{PicoSdk}
use sr_firmware.Encoders.{count, quad_encoder_get_count, quad_encoder_update}

-- The sum of the deltas, modulo 2 ^ 32.
pub total : List ℕ → ℕ
total [] = 0
total (d ∷ deltas) = (d + total deltas) % 2 ^ 32

-- The last of the counts; before the first, what is given.
pub last : ℕ → List ℕ → ℕ
last p [] = p
last p (c ∷ counts) = last c counts

pub firsts : List (ℕ × ℕ) → List ℕ
firsts [] = []
firsts ((a, b) ∷ pairs) = a ∷ firsts pairs

pub seconds : List (ℕ × ℕ) → List ℕ
seconds [] = []
seconds ((a, b) ∷ pairs) = b ∷ seconds pairs

count_lem :
    (p c t : ℕ) (e : Encoder)
    → c < 2 ^ 32
    → p ≡ e.count_previous
    → p < 2 ^ 32
    → (p + ((count c e).count_delta + t) % 2 ^ 32) % 2 ^ 32 ≡ (c + t) % 2 ^ 32
unfolding count
count_lem p c t e h same small = omega (arith, h, same, small)

module _ (sdk : PicoSdk) where
  -- The counts of the two encoders that `n` rounds read, one encoder after the other.
  pub readings : ℕ → sdk.World → List (ℕ × ℕ)
  readings zero w = []
  readings (suc n) w =
      let first = sdk.quadrature_encoder_get_count 0 w in
      let second = sdk.quadrature_encoder_get_count 1 first.1 in
      (first.0, second.0) ∷ readings n second.1

  -- `n` calls of `quad_encoder_update`, and the deltas that each has left.
  pub rounds : ℕ → Io sdk (List (ℕ × ℕ))
  rounds zero = pure []
  rounds (suc n) = do
    quad_encoder_update sdk
    deltas ← get sdk (λ d. (d.encoders.0.count_delta, d.encoders.1.count_delta))
    rest ← rounds n
    pure (deltas ∷ rest)

  -- The encoder `now` holds the last count, which is where `before` was and the deltas after it.
  pub record Tracks (before now : Encoder) (counts deltas : List ℕ) : Type 0 where
    pub current : now.count_current ≡ last before.count_current counts
    pub previous : now.count_previous ≡ last before.count_previous counts
    pub moved : (before.count_previous + total deltas) % 2 ^ 32 ≡ now.count_previous

  pub record IsTracked (m : State sdk) (counts : List (ℕ × ℕ))
      (out : Option (List (ℕ × ℕ) × State sdk)) : Type 0 where
    pub deltas : List (ℕ × ℕ)
    pub after : State sdk
    pub returns : out ≡ some (deltas, after)
    pub left : Tracks m.world.encoders.0 after.world.encoders.0 (firsts counts) (firsts deltas)
    pub right : Tracks m.world.encoders.1 after.world.encoders.1 (seconds counts) (seconds deltas)

  none-Tracks : (e : Encoder) → e.count_previous < 2 ^ 32 → Tracks e e [] []
  unfolding last total
  none-Tracks e small = record { current = refl; previous = refl; moved = omega (arith, small) }

  -- One round more.
  step-Tracks :
      (c : ℕ) (e now : Encoder) (counts deltas : List ℕ)
      → c < 2 ^ 32
      → e.count_previous < 2 ^ 32
      → Tracks (count c e) now counts deltas
      → Tracks e now (c ∷ counts) ((count c e).count_delta ∷ deltas)
  unfolding count last total
  step-Tracks c e now counts deltas h small t = record {
    current = t.current;
    previous = t.previous;
    moved = count_lem e.count_previous c (total deltas) e h refl small ∙ t.moved;
  }

  module _
      (words : (sm : ℕ) (w : sdk.World) → (sdk.quadrature_encoder_get_count sm w).0 < 2 ^ 32) where
    -- On counts of 32 bits: `n` calls of `quad_encoder_update` return, and then, for each of the two
    -- encoders, `count_current` and `count_previous` are the last count read from it, and the `count_previous` before the
    -- calls plus the deltas that the calls have left is that count, modulo 2 ^ 32, whatever the
    -- counter's wrap-arounds between.
    pub quad_encoder_update-IsTracked :
        (n : ℕ) (m : State sdk)
        → m.world.encoders.0.count_previous < 2 ^ 32
        → m.world.encoders.1.count_previous < 2 ^ 32
        → IsTracked m (readings n m.world.outside) (rounds n m)
    unfolding quad_encoder_update quad_encoder_get_count ask get modify rounds readings firsts
        seconds
    quad_encoder_update-IsTracked zero m h0 h1 = record {
      deltas = [];
      after = m;
      returns = refl;
      left = none-Tracks m.world.encoders.0 h0;
      right = none-Tracks m.world.encoders.1 h1;
    }
    quad_encoder_update-IsTracked (suc n) m h0 h1 =
        let first = sdk.quadrature_encoder_get_count 0 m.world.outside in
        let second = sdk.quadrature_encoder_get_count 1 first.1 in
        let next : State sdk = record m {
          world = record (m.world) {
            outside = second.1;
            encoders = (count first.0 m.world.encoders.0, count second.0 m.world.encoders.1);
          };
        } in
        let d : ℕ × ℕ = (
          (count first.0 m.world.encoders.0).count_delta,
          (count second.0 m.world.encoders.1).count_delta,
        ) in
        let small0 = words 0 m.world.outside in
        let small1 = words 1 first.1 in
        let rest =
          quad_encoder_update-IsTracked n next (unfold count in small0) (unfold count in small1) in
        record {
          deltas = d ∷ rest.deltas;
          after = rest.after;
          returns = bind-some sdk (rounds n) (λ deltas. pure (d ∷ deltas)) rest.returns;
          left = step-Tracks first.0 _ _ _ _ small0 h0 rest.left;
          right = step-Tracks second.0 _ _ _ _ small1 h1 rest.right;
        }
