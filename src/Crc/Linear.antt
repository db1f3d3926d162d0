-- ===== src/Crc/Linear.antt =====
-- One round of the checksum is a linear bijection of the 16-bit words, and so are the eight
-- rounds for a byte.
use sr_firmware.Base.{ℕ, zero, suc, ◌+◌, ◌*◌, ◌%◌, ◌^◌, ◌<◌, ◌==◌, Bool-cases, bit_and, bit_xor}
use sr_firmware.Base.{◌≡◌, refl, sym, ap, ap₂, ◌∙◌, inl, inr, arith}
use sr_firmware.Base.Bits.Digits.{test_bit, test_bit-lt, test_bit-bit_xor}
use native.Mathlib.Nat.{mod-eq_of_lt}
use sr_firmware.Base.Bits.Word.{
  bit_xor_comm, bit_and_pow, bit_xor_self, bit_xor-zero, bit_xor_undo, bit_xor_swap,
}
use sr_firmware.Base.Bits.Word.{bit_xor-double, bit_xor-lt, bit_xor-mod}
use sr_firmware.Crc.{crc_round, crc_rounds, crc_byte}

top_bit : (c : ℕ) → bit_and c 0x8000 ≡ test_bit c 15 * 2 ^ 15
top_bit c = bit_and_pow 15 c

-- Both branches of a round in one expression.
pub crc_round_lem : (c : ℕ) → crc_round c ≡ bit_xor (c * 2 % 2 ^ 16) (test_bit c 15 * 0x1021)
unfolding crc_round
crc_round_lem c = elim (Bool-cases (test_bit c 15 == 0)) [
  | inl low ↦ ground (arith, top_bit c, bit_xor-zero (c * 2 % 2 ^ 16))
  | inr high ↦ ground (arith, top_bit c, test_bit-lt c 15, bit_xor-mod 16 (c * 2) 0x1021)
]

pub crc_round-lt : (c : ℕ) → crc_round c < 2 ^ 16
unfolding crc_round
crc_round-lt c = ground arith

pub poly-bit_xor :
    (s t : ℕ) → s < 2 → t < 2 → bit_xor (s * 0x1021) (t * 0x1021) ≡ (s + t) % 2 * 0x1021
poly-bit_xor zero zero p q = refl
poly-bit_xor zero (suc zero) p q = refl
poly-bit_xor (suc zero) zero p q = refl
poly-bit_xor (suc zero) (suc zero) p q = refl
poly-bit_xor zero (suc (suc t)) p q = absurd (omega arith)
poly-bit_xor (suc zero) (suc (suc t)) p q = absurd (omega arith)
poly-bit_xor (suc (suc s)) t p q = absurd (omega arith)

pub poly-bits :
    (a b : ℕ)
    → test_bit (bit_xor a b) 15 * 0x1021 ≡ bit_xor (test_bit a 15 * 0x1021) (test_bit b 15 * 0x1021)
poly-bits a b =
    ap (λ t. t * 0x1021) (test_bit-bit_xor a b 15)
    ∙ sym (poly-bit_xor (test_bit a 15) (test_bit b 15) (test_bit-lt a 15) (test_bit-lt b 15))

shift-bit_xor : (a b : ℕ) → bit_xor a b * 2 % 2 ^ 16 ≡ bit_xor (a * 2 % 2 ^ 16) (b * 2 % 2 ^ 16)
shift-bit_xor a b = ap (λ t. t % 2 ^ 16) (sym (bit_xor-double a b)) ∙ bit_xor-mod 16 (a * 2) (b * 2)

pub crc_round-bit_xor : (a b : ℕ) → crc_round (bit_xor a b) ≡ bit_xor (crc_round a) (crc_round b)
crc_round-bit_xor a b =
    crc_round_lem (bit_xor a b)
    ∙ ap₂ bit_xor (shift-bit_xor a b) (poly-bits a b)
    ∙ bit_xor_swap (a * 2 % 2 ^ 16) (b * 2 % 2 ^ 16) (test_bit a 15 * 0x1021)
        (test_bit b 15 * 0x1021)
    ∙ sym (ap₂ bit_xor (crc_round_lem a) (crc_round_lem b))

pub eq_of_bit_xor-zero : (a b : ℕ) → bit_xor a b ≡ 0 → a ≡ b
eq_of_bit_xor-zero a b h =
    sym (bit_xor_undo a b) ∙ ap (λ t. bit_xor t b) h ∙ bit_xor_comm 0 b ∙ bit_xor-zero b

-- The low bit of the generator is set, so no word but 0 is sent to 0.
round-kernel : (d : ℕ) → d < 2 ^ 16 → crc_round d ≡ 0 → d ≡ 0
round-kernel d h e =
    let same =
      eq_of_bit_xor-zero (d * 2 % 2 ^ 16) (test_bit d 15 * 0x1021) (sym (crc_round_lem d) ∙ e) in
    omega arith

pub crc_round-zero : crc_round 0 ≡ 0
unfolding crc_round
crc_round-zero = refl

pub crc_rounds-lt : (n c : ℕ) → c < 2 ^ 16 → crc_rounds n c < 2 ^ 16
unfolding crc_rounds
crc_rounds-lt zero c h = h
crc_rounds-lt (suc n) c h = crc_rounds-lt n (crc_round c) (crc_round-lt c)

pub crc_rounds-bit_xor :
    (n a b : ℕ) → crc_rounds n (bit_xor a b) ≡ bit_xor (crc_rounds n a) (crc_rounds n b)
unfolding crc_rounds
crc_rounds-bit_xor zero a b = refl
crc_rounds-bit_xor (suc n) a b =
    ap (crc_rounds n) (crc_round-bit_xor a b) ∙ crc_rounds-bit_xor n (crc_round a) (crc_round b)

rounds-kernel : (n d : ℕ) → d < 2 ^ 16 → crc_rounds n d ≡ 0 → d ≡ 0
unfolding crc_rounds
rounds-kernel zero d h e = e
rounds-kernel (suc n) d h e = round-kernel d h (rounds-kernel n (crc_round d) (crc_round-lt d) e)

pub crc_rounds-injective :
    (n a b : ℕ) → a < 2 ^ 16 → b < 2 ^ 16 → crc_rounds n a ≡ crc_rounds n b → a ≡ b
crc_rounds-injective n a b p q e = eq_of_bit_xor-zero a b (
    rounds-kernel n (bit_xor a b) (bit_xor-lt 16 a b p q) (
      crc_rounds-bit_xor n a b
      ∙ ap (λ t. bit_xor t (crc_rounds n b)) e
      ∙ bit_xor_self (crc_rounds n b)))

pub crc_byte_lem :
    (c b : ℕ) → c < 2 ^ 16 → b < 2 ^ 8 → crc_byte c b ≡ crc_rounds 8 (bit_xor c (b * 2 ^ 8))
unfolding crc_byte
crc_byte_lem c b p q =
    let e : b * 2 ^ 8 % 2 ^ 16 ≡ b * 2 ^ 8 = omega arith in
    rw e (ap (crc_rounds 8) (mod-eq_of_lt (bit_xor-lt 16 c (b * 2 ^ 8) p (omega arith))))

pub crc_byte-lt : (c b : ℕ) → crc_byte c b < 2 ^ 16
unfolding crc_byte
crc_byte-lt c b = crc_rounds-lt 8 _ (omega arith)
