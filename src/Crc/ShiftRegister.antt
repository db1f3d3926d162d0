-- ===== src/Crc/ShiftRegister.antt =====
-- CRC-16/CCITT as a shift register fed one message bit at a time, which `crc16_ccitt` computes.
use sr_firmware.Base.{ℕ, zero, suc, ◌+◌, ◌*◌, ◌/◌, ◌%◌, ◌^◌, ◌<◌, bit_xor}
use sr_firmware.Base.{◌≡◌, refl, sym, ap, ap₂, ◌∙◌, arith, List, [], ◌∷◌, ◌++◌}
use sr_firmware.Base.{true, all_below, all_below_sound, list_eq, list_eq_sound}
use sr_firmware.Base.Bits.Digits.{test_bit, test_bit-lt}
use sr_firmware.Base.Bits.Word.{bit_xor_assoc, bit_xor_comm, bit_xor-zero}
use sr_firmware.Crc.{crc_round, crc_rounds, crc_byte, crc16_ccitt}
use sr_firmware.Base.Bits.Word.{bit_xor-lt}
use sr_firmware.Crc.Linear.{
  poly-bit_xor, crc_round_lem, crc_round-bit_xor, crc_byte_lem, crc_byte-lt,
}
use sr_firmware.Crc.Detect.{IsBytes}

-- The bits of a byte, in the order in which they enter the register.
pub byte_bits : ℕ → List ℕ
byte_bits b =
    b / 128 % 2
    ∷ b / 64 % 2
    ∷ b / 32 % 2
    ∷ b / 16 % 2
    ∷ b / 8 % 2
    ∷ b / 4 % 2
    ∷ b / 2 % 2
    ∷ b % 2
    ∷ []

pub message_bits : List ℕ → List ℕ
message_bits [] = []
message_bits (b ∷ bs) = byte_bits b ++ message_bits bs

-- The register moves up by one; where the bit that leaves it differs from the bit that enters,
-- the generator x^16 + x^12 + x^5 + 1 is subtracted.
pub register_step : ℕ → ℕ → ℕ
register_step r bit = bit_xor (r * 2 % 2 ^ 16) ((r / 2 ^ 15 + bit) % 2 * 0x1021)

pub register : List ℕ → ℕ → ℕ
register [] r = r
register (bit ∷ bits) r = register bits (register_step r bit)

-- A round on a register mixed with a word is a step fed the word's top bit, mixed with the rest
-- of the word.
round_feeds :
    (r w : ℕ)
    → r < 2 ^ 16
    → crc_round (bit_xor r w) ≡ bit_xor (register_step r (test_bit w 15)) (w * 2 % 2 ^ 16)
unfolding register_step
round_feeds r w h =
    crc_round-bit_xor r w
    ∙ ap₂ bit_xor (crc_round_lem r) (crc_round_lem w ∙ bit_xor_comm (w * 2 % 2 ^ 16) _)
    ∙ sym (bit_xor_assoc (bit_xor (r * 2 % 2 ^ 16) (test_bit r 15 * 0x1021)) _ (w * 2 % 2 ^ 16))
    ∙ ap (λ t. bit_xor t (w * 2 % 2 ^ 16))
        (bit_xor_assoc (r * 2 % 2 ^ 16) (test_bit r 15 * 0x1021) (test_bit w 15 * 0x1021)
          ∙ ap (bit_xor (r * 2 % 2 ^ 16)) top)
  where
    top :
        bit_xor (test_bit r 15 * 0x1021) (test_bit w 15 * 0x1021)
        ≡ (r / 2 ^ 15 + test_bit w 15) % 2 * 0x1021
    top =
        poly-bit_xor (test_bit r 15) (test_bit w 15) (test_bit-lt r 15) (test_bit-lt w 15)
        ∙ ap (λ t. (t + test_bit w 15) % 2 * 0x1021) (omega arith)

register_step-lt : (r bit : ℕ) → register_step r bit < 2 ^ 16
unfolding register_step
register_step-lt r bit = bit_xor-lt 16 _ _ (omega arith) (omega arith)

top_bits : ℕ → ℕ → List ℕ
top_bits zero w = []
top_bits (suc n) w = test_bit w 15 ∷ top_bits n (w * 2 % 2 ^ 16)

shifted : ℕ → ℕ → ℕ
shifted zero w = w
shifted (suc n) w = shifted n (w * 2 % 2 ^ 16)

rounds_feed :
    (n r w : ℕ)
    → r < 2 ^ 16
    → crc_rounds n (bit_xor r w) ≡ bit_xor (register (top_bits n w) r) (shifted n w)
unfolding register top_bits shifted crc16_ccitt
rounds_feed zero r w h = refl
rounds_feed (suc n) r w h =
    ap (crc_rounds n) (round_feeds r w h)
    ∙ rounds_feed n (register_step r (test_bit w 15)) (w * 2 % 2 ^ 16) (register_step-lt _ _)

register-append : (xs ys : List ℕ) (r : ℕ) → register (xs ++ ys) r ≡ register ys (register xs r)
unfolding register
register-append [] ys r = refl
register-append (x ∷ xs) ys r = register-append xs ys (register_step r x)

enters_table :
    all_below 256 (λ b. list_eq (shifted 8 (b * 2 ^ 8) ∷ top_bits 8 (b * 2 ^ 8)) (0 ∷ byte_bits b))
    ≡ true
unfolding all_below list_eq top_bits byte_bits shifted
enters_table = refl

byte_enters :
    (b : ℕ) → b < 2 ^ 8 → (top_bits 8 (b * 2 ^ 8) ≡ byte_bits b) × (shifted 8 (b * 2 ^ 8) ≡ 0)
byte_enters b h = let row = list_eq_sound _ _ (all_below_sound 256 _ b h enters_table) in (cc, cc)

crc_byte-register : (c b : ℕ) → c < 2 ^ 16 → b < 2 ^ 8 → crc_byte c b ≡ register (byte_bits b) c
crc_byte-register c b hc hb =
    crc_byte_lem c b hc hb
    ∙ rounds_feed 8 c (b * 2 ^ 8) hc
    ∙ ap₂ (λ bits rest. bit_xor (register bits c) rest) (byte_enters b hb).0 (byte_enters b hb).1
    ∙ bit_xor-zero (register (byte_bits b) c)

-- On bytes and a 16-bit start value, `crc16_ccitt` computes what the shift register holds after
-- the message's bits, most significant bit of each byte first.
pub crc16_ccitt-register :
    (xs : List ℕ) (c : ℕ)
    → IsBytes xs
    → c < 2 ^ 16
    → crc16_ccitt xs c ≡ register (message_bits xs) c
unfolding crc16_ccitt message_bits register
crc16_ccitt-register [] c hs hc = refl
crc16_ccitt-register (x ∷ xs) c hs hc =
    crc16_ccitt-register xs (crc_byte c x) hs.1 (crc_byte-lt c x)
    ∙ ap (register (message_bits xs)) (crc_byte-register c x hc hs.0)
    ∙ sym (register-append (byte_bits x) (message_bits xs) c)
