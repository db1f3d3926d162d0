-- ===== src/Crc/Detect.antt =====
-- What the checksum detects: bytes of a message that were changed on the way.
use sr_firmware.Base.{◌≢◌, ℕ, ◌*◌, ◌%◌, ◌^◌, ◌<◌, true, ◌||◌, ◌==◌, ◌!=◌, bit_xor}
use sr_firmware.Base.{◌≡◌, refl, sym, ap, ap₂, ◌∙◌, arith, List, [], ◌∷◌, ◌++◌, All}
use sr_firmware.Base.{all_below, all_below_sound}
use sr_firmware.Base.Bits.Word.{
  bit_xor_comm, bit_xor_cancel, bit_xor_swap, bit_xor_self, bit_xor-lt,
}
use sr_firmware.Base.Bits.Word.{bit_xor-zero, bit_xor-shift}
use sr_firmware.Crc.{crc_byte, crc_rounds, crc16_ccitt}
use sr_firmware.Crc.Linear.{crc_rounds-injective, crc_rounds-bit_xor, crc_byte_lem, crc_byte-lt}
use sr_firmware.Crc.Linear.{eq_of_bit_xor-zero}

abbrev pub IsBytes : List ℕ → Type 0
IsBytes = All (λ b. b < 2 ^ 8)

pub crc16_ccitt-nil : (c : ℕ) → crc16_ccitt [] c ≡ c
unfolding crc16_ccitt
crc16_ccitt-nil c = refl

-- A buffer may be summed in pieces, each from the result before.
pub crc16_ccitt-append :
    (xs ys : List ℕ) (c : ℕ) → crc16_ccitt (xs ++ ys) c ≡ crc16_ccitt ys (crc16_ccitt xs c)
unfolding crc16_ccitt
crc16_ccitt-append [] ys c = refl
crc16_ccitt-append (x ∷ xs) ys c = crc16_ccitt-append xs ys (crc_byte c x)

pub crc16_ccitt-lt : (xs : List ℕ) (c : ℕ) → c < 2 ^ 16 → crc16_ccitt xs c < 2 ^ 16
unfolding crc16_ccitt
crc16_ccitt-lt [] c h = h
crc16_ccitt-lt (x ∷ xs) c h = crc16_ccitt-lt xs (crc_byte c x) (crc_byte-lt c x)

crc_byte-cancel :
    (a b x y : ℕ)
    → a < 2 ^ 16
    → b < 2 ^ 16
    → x < 2 ^ 8
    → y < 2 ^ 8
    → crc_byte a x ≡ crc_byte b y
    → bit_xor a (x * 2 ^ 8) ≡ bit_xor b (y * 2 ^ 8)
crc_byte-cancel a b x y ha hb hx hy e =
    crc_rounds-injective 8 (bit_xor a (x * 2 ^ 8)) (bit_xor b (y * 2 ^ 8))
      (bit_xor-lt 16 a (x * 2 ^ 8) ha (omega arith)) (bit_xor-lt 16 b (y * 2 ^ 8) hb (omega arith))
      (sym (crc_byte_lem a x ha hx) ∙ e ∙ crc_byte_lem b y hb hy)

-- From different values the same bytes lead to different values.
pub crc16_ccitt-injective :
    (xs : List ℕ) (a b : ℕ)
    → IsBytes xs
    → a < 2 ^ 16
    → b < 2 ^ 16
    → crc16_ccitt xs a ≡ crc16_ccitt xs b
    → a ≡ b
unfolding crc16_ccitt
crc16_ccitt-injective [] a b hs ha hb e = e
crc16_ccitt-injective (x ∷ xs) a b hs ha hb e = bit_xor_cancel a b (x * 2 ^ 8) (
    crc_byte-cancel a b x x ha hb hs.0 hs.0 (
      crc16_ccitt-injective xs (crc_byte a x) (crc_byte b x) hs.1 (crc_byte-lt a x)
        (crc_byte-lt b x) e))

-- A change of the high byte alone shows in the low byte eight rounds later.
spread_table : all_below 256 (λ d. d == 0 || crc_rounds 8 (d * 2 ^ 8) % 2 ^ 8 != 0) ≡ true
unfolding all_below crc16_ccitt
spread_table = refl

spread : (d : ℕ) → d < 2 ^ 8 → crc_rounds 8 (d * 2 ^ 8) % 2 ^ 8 ≡ 0 → d ≡ 0
spread d h e =
    let row =
      all_below_sound 256 (λ d. d == 0 || crc_rounds 8 (d * 2 ^ 8) % 2 ^ 8 != 0) d h spread_table in
    ground arith

-- The values after two different bytes differ by eight rounds of the bytes' difference.
crc_byte-difference :
    (s x y : ℕ)
    → s < 2 ^ 16
    → x < 2 ^ 8
    → y < 2 ^ 8
    → bit_xor (crc_byte s x) (crc_byte s y) ≡ crc_rounds 8 (bit_xor x y * 2 ^ 8)
crc_byte-difference s x y hs hx hy =
    ap₂ bit_xor (crc_byte_lem s x hs hx) (crc_byte_lem s y hs hy)
    ∙ sym (crc_rounds-bit_xor 8 (bit_xor s (x * 2 ^ 8)) (bit_xor s (y * 2 ^ 8)))
    ∙ ap (crc_rounds 8) (
        bit_xor_swap s (x * 2 ^ 8) s (y * 2 ^ 8)
        ∙ ap₂ bit_xor (bit_xor_self s) (bit_xor-shift 8 x y)
        ∙ bit_xor_comm 0 (bit_xor x y * 2 ^ 8)
        ∙ bit_xor-zero (bit_xor x y * 2 ^ 8))

-- Two words that reach one value by a high byte each agree in their low bytes.
low-agree : (u v x y : ℕ) → bit_xor u (x * 2 ^ 8) ≡ bit_xor v (y * 2 ^ 8) → bit_xor u v % 2 ^ 8 ≡ 0
low-agree u v x y e =
    let whole =
      bit_xor_swap u v (x * 2 ^ 8) (y * 2 ^ 8)
      ∙ ap (λ t. bit_xor t (bit_xor v (y * 2 ^ 8))) e
      ∙ bit_xor_self (bit_xor v (y * 2 ^ 8)) in
    omega (
      arith,
      eq_of_bit_xor-zero (bit_xor u v) (bit_xor (x * 2 ^ 8) (y * 2 ^ 8)) whole,
      bit_xor-shift 8 x y,
    )

crc16_ccitt-pair :
    (before after : List ℕ) (c x x' : ℕ)
    → crc16_ccitt (before ++ x ∷ x' ∷ after) c
      ≡ crc16_ccitt after (crc_byte (crc_byte (crc16_ccitt before c) x) x')
crc16_ccitt-pair before after c x x' =
    crc16_ccitt-append before (x ∷ x' ∷ after) c ∙ unfold crc16_ccitt in refl

module _ (s x x' y y' : ℕ) (hs : s < 2 ^ 16) (hx : x < 2 ^ 8) (hx' : x' < 2 ^ 8) (hy : y < 2 ^ 8)
    (hy' : y' < 2 ^ 8) (e : crc_byte (crc_byte s x) x' ≡ crc_byte (crc_byte s y) y') where
  met : bit_xor (crc_byte s x) (x' * 2 ^ 8) ≡ bit_xor (crc_byte s y) (y' * 2 ^ 8)
  met =
      crc_byte-cancel (crc_byte s x) (crc_byte s y) x' y' (crc_byte-lt s x) (crc_byte-lt s y) hx'
        hy' e

  first-agree : x ≡ y
  first-agree = eq_of_bit_xor-zero x y (
      spread (bit_xor x y) (bit_xor-lt 8 x y hx hy) (
        ap (λ t. t % 2 ^ 8) (sym (crc_byte-difference s x y hs hx hy))
        ∙ low-agree (crc_byte s x) (crc_byte s y) x' y' met))

  second-agree : x' ≡ y'
  second-agree =
      let same = bit_xor_cancel (x' * 2 ^ 8) (y' * 2 ^ 8) (crc_byte s y) (
        bit_xor_comm (x' * 2 ^ 8) (crc_byte s y)
        ∙ ap (λ t. bit_xor (crc_byte s t) (x' * 2 ^ 8)) (sym first-agree)
        ∙ met
        ∙ bit_xor_comm (crc_byte s y) (y' * 2 ^ 8)) in
      omega arith

-- If two messages of bytes differ at most in two adjacent places and have equal checksums, from
-- one 16-bit start value, they are equal there: every such change is detected.
pub burst_equal :
    (before after : List ℕ) (c x x' y y' : ℕ)
    → IsBytes after
    → c < 2 ^ 16
    → (x < 2 ^ 8) × (x' < 2 ^ 8)
    → (y < 2 ^ 8) × (y' < 2 ^ 8)
    → crc16_ccitt (before ++ x ∷ x' ∷ after) c ≡ crc16_ccitt (before ++ y ∷ y' ∷ after) c
    → (x ≡ y) × (x' ≡ y')
burst_equal before after c x x' y y' ha hc hx hy e = (
  first-agree s x x' y y' hs hx.0 hx.1 hy.0 hy.1 same,
  second-agree s x x' y y' hs hx.0 hx.1 hy.0 hy.1 same,
)
  where
    s : ℕ
    s = crc16_ccitt before c

    hs : s < 2 ^ 16
    hs = crc16_ccitt-lt before c hc

    same : crc_byte (crc_byte s x) x' ≡ crc_byte (crc_byte s y) y'
    same =
        crc16_ccitt-injective after (crc_byte (crc_byte s x) x') (crc_byte (crc_byte s y) y') ha
          (crc_byte-lt (crc_byte s x) x') (crc_byte-lt (crc_byte s y) y')
          (sym (crc16_ccitt-pair before after c x x') ∙ e ∙ crc16_ccitt-pair before after c y y')

-- Two messages of bytes that differ only in two adjacent places have different checksums, from one
-- 16-bit start value: a burst of errors that lies within two bytes is detected.
pub burst_detected :
    (before after : List ℕ) (c x x' y y' : ℕ)
    → IsBytes after
    → c < 2 ^ 16
    → (x < 2 ^ 8) × (x' < 2 ^ 8)
    → (y < 2 ^ 8) × (y' < 2 ^ 8)
    → ¬ ((x ≡ y) × (x' ≡ y'))
    → crc16_ccitt (before ++ x ∷ x' ∷ after) c ≢ crc16_ccitt (before ++ y ∷ y' ∷ after) c
burst_detected before after c x x' y y' ha hc hx hy differ e =
    differ (burst_equal before after c x x' y y' ha hc hx hy e)
