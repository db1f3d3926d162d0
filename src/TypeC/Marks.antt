-- ===== src/TypeC/Marks.antt =====
-- What the answer of `parse_interrupt_vals` of src/max77958.c says of the interrupt registers.
use sr_firmware.Base.{
  ℕ, ◌+◌, ◌*◌, ◌/◌, ◌%◌, ◌^◌, ◌<◌, Bool, true, false, List, get_or, ◌≡◌, ap, ◌∙◌, arith,
}
use sr_firmware.Base.Bits.Flags.{bit, bit-lt}
use sr_firmware.Hardware.{flagged}
use sr_firmware.TypeC.Interrupts.{mark}
use sr_firmware.TypeC.Lost.{answer-sum}

-- The bits of `return_val` for the bytes of UIC_INT, CC_INT and PD_INT.
pub record Decodes (bytes : List ℕ) (return_val : ℕ) : Type 0 where
  pub opcode_response : return_val % 2 ≡ bit (flagged (get_or bytes 0 0) (2 ^ 7))
  pub source_ready : return_val / 2 % 2 ≡ bit (flagged (get_or bytes 2 0) (2 ^ 6))
  pub message : return_val / 2 ^ 2 % 2 ≡ bit (flagged (get_or bytes 2 0) (2 ^ 7))
  pub charger : return_val / 2 ^ 3 % 2 ≡ bit (flagged (get_or bytes 0 0) (2 ^ 1))
  pub lost : flagged (get_or bytes 0 0) (2 ^ 1) ≡ true → return_val < 2 ^ 4
  pub cc_stat :
      flagged (get_or bytes 0 0) (2 ^ 1) ≡ false
      → return_val / 2 ^ 4 % 2 ≡ bit (flagged (get_or bytes 1 0) (2 ^ 0))
  pub cc_rest :
      flagged (get_or bytes 0 0) (2 ^ 1) ≡ false
      → flagged (get_or bytes 1 0) (2 ^ 0) ≡ false
      → return_val / 2 ^ 5
        ≡ bit (flagged (get_or bytes 1 0) (2 ^ 1))
          + bit (flagged (get_or bytes 1 0) (2 ^ 2)) * 2
          + bit (flagged (get_or bytes 1 0) (2 ^ 3)) * 4

-- The marks 0 to 7 put together.
abbrev pub marks : Bool → Bool → Bool → Bool → Bool → Bool → Bool → Bool → ℕ
marks a b c d e f g h =
    mark h 7 (mark g 6 (mark f 5 (mark e 4 (mark d 3 (mark c 2 (mark b 1 (mark a 0 0)))))))

pub marks-Decodes :
    (bytes : List ℕ) (a b c d e f g h : Bool)
    → a ≡ flagged (get_or bytes 0 0) (2 ^ 7)
    → b ≡ flagged (get_or bytes 2 0) (2 ^ 6)
    → c ≡ flagged (get_or bytes 2 0) (2 ^ 7)
    → d ≡ flagged (get_or bytes 0 0) (2 ^ 1)
    → (d ≡ true → (e ≡ false) × (f ≡ false) × (g ≡ false) × (h ≡ false))
    → (d ≡ false → e ≡ flagged (get_or bytes 1 0) (2 ^ 0))
    → (d ≡ false
        → e ≡ false
        → (f ≡ flagged (get_or bytes 1 0) (2 ^ 1))
          × (g ≡ flagged (get_or bytes 1 0) (2 ^ 2))
          × (h ≡ flagged (get_or bytes 1 0) (2 ^ 3)))
    → Decodes bytes (marks a b c d e f g h)
marks-Decodes bytes a b c d e f g h pa pb pc pd none' pe rest =
    let sum = answer-sum a b c d e f g h in
    let ba = bit-lt a in
    let bb = bit-lt b in
    let bc = bit-lt c in
    let bd = bit-lt d in
    let be = bit-lt e in
    record {
      opcode_response = omega (arith, sum, ap bit pa, ba);
      source_ready = omega (arith, sum, ap bit pb, ba, bb);
      message = omega (arith, sum, ap bit pc, ba, bb, bc);
      charger = omega (arith, sum, ap bit pd, ba, bb, bc, bd);
      lost = λ t.
          let n = none' (pd ∙ t) in
          omega (arith, sum, ap bit n.0, ap bit n.1, ap bit n.2, ap bit n.3, ba, bb, bc, bd);
      cc_stat = λ t. omega (arith, sum, ap bit (pe (pd ∙ t)), ba, bb, bc, bd, be);
      cc_rest = λ t t'.
          let r = rest (pd ∙ t) (pe (pd ∙ t) ∙ t') in
          omega (arith, sum, ap bit r.0, ap bit r.1, ap bit r.2, ba, bb, bc, bd, be);
    }
