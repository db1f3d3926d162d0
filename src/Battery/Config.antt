-- ===== src/Battery/Config.antt =====
-- The PackConfiguration that `bq27742_g1_configure_host_interrupts` writes.
use sr_firmware.Base.{
  ℕ, ◌-◌, ◌*◌, ◌/◌, ◌%◌, ◌^◌, ◌<◌, ◌==◌, ◌!=◌, ◌&&◌, ◌||◌, ◌⊎◌, inl, inr, if◌then◌else◌, min, max,
  bit_and, bit_or,
}
use sr_firmware.Base.{Bool-cases, ◌≡◌, refl, ap, ap₂, ◌∙◌, arith, List, [], ◌∷◌, length}
use sr_firmware.Base.Bits.Digits.{test_bit, test_bit-lt, test_bit-bit_and, test_bit-bit_or}
use sr_firmware.Base.Bits.Fields.{
  test_bit-mod_low, bit_and_mask, bit_or_fields, bit_or_comm, pow-lt,
}
use sr_firmware.BitOps.{bit_not}
use sr_firmware.BitOps.Laws.{test_bit-one, test_bit-bit_not}
use sr_firmware.Battery.Block.{
  new_pack_config, new_pack_config_c, set_at, configured_block, byte_order, pack_config_at, at,
}

pow_bit : (k j : ℕ) → test_bit (2 ^ k) j ≡ (if k == j then 1 else 0)
pow_bit k j = ap (λ t. test_bit t j) {x = 2 ^ k} {y = 1 * 2 ^ k} (omega arith) ∙ test_bit-one k j

pub clear_lem :
    (w a k j : ℕ)
    → w < 32
    → k < 32
    → j < w
    → test_bit (bit_and a (bit_not (2 ^ k)) % 2 ^ w) j ≡ (if k == j then 0 else test_bit a j)
clear_lem w a k j hw hk hj =
    test_bit-mod_low w _ j hj
    ∙ test_bit-bit_and a (bit_not (2 ^ k)) j
    ∙ ap (min (test_bit a j))
        (test_bit-bit_not (2 ^ k) j (pow-lt k 32 hk) (omega arith) ∙ ap (λ t. 1 - t) (pow_bit k j))
    ∙ ground (arith, test_bit-lt a j)

-- Of the sixteen bits of PackConfiguration, the new value has HOSTIE (12) set and HOSTIPOL (13)
-- and HOSTIPU (14) clear, and all others as they were.
pub test_bit-new_pack_config :
    (old j : ℕ)
    → j < 16
    → test_bit (new_pack_config old) j
      ≡ (if j == 12 then 1 else if j == 13 || j == 14 then 0 else test_bit old j)
unfolding new_pack_config
test_bit-new_pack_config old j h =
    let set = test_bit-mod_low 16 (bit_or old (2 ^ 12)) j h in
    let or = test_bit-bit_or old (2 ^ 12) j in
    let bit = pow_bit 12 j in
    let ipu = clear_lem 16 (bit_or old (2 ^ 12) % 2 ^ 16) 14 j (omega arith) (omega arith) h in
    let last =
      clear_lem 16 (bit_and (bit_or old (2 ^ 12) % 2 ^ 16) (bit_not (2 ^ 14)) % 2 ^ 16) 13 j
        (omega arith) (omega arith) h in
    last
    ∙ ap (λ t. if 13 == j then 0 else t)
        (ipu ∙ ap (λ t. if 14 == j then 0 else t) (set ∙ or ∙ ap (max (test_bit old j)) bit))
    ∙ ground (arith, test_bit-lt old j)

-- Where the command's PackConfiguration is that of the data flash in either byte order, the
-- order chosen is one in which it is.
byte_order-matches :
    (pack_config : ℕ) (block : List ℕ)
    → (pack_config_at block 0 1 ≡ pack_config) ⊎ (pack_config_at block 1 0 ≡ pack_config)
    → (let order = byte_order pack_config block in
        pack_config_at block order.high_index order.low_index)
      ≡ pack_config
unfolding byte_order
byte_order-matches pack_config block h =
    let le = pack_config_at block 1 0 in
    let be = pack_config_at block 0 1 in
    elim (Bool-cases (le == pack_config && be != pack_config)) [
      | inl e ↦ rw e (ground arith)
      | inr e ↦ rw e (ground arith)
    ]

-- The two bytes of a word, joined.
pub word_lem : (n : ℕ) → n < 65536 → bit_or (bit_and (n / 2 ^ 8) 0xff * 2 ^ 8) (bit_and n 0xff) ≡ n
word_lem n h =
    ap₂ (λ high low. bit_or (high * 2 ^ 8) low) (bit_and_mask 8 (n / 2 ^ 8)) (bit_and_mask 8 n)
    ∙ bit_or_comm (n / 2 ^ 8 % 2 ^ 8 * 2 ^ 8) (n % 2 ^ 8)
    ∙ bit_or_fields 8 (n % 2 ^ 8) (n / 2 ^ 8 % 2 ^ 8) (omega arith)
    ∙ omega arith

pub new_pack_config-lt : (old : ℕ) → new_pack_config old < 65536
unfolding new_pack_config
new_pack_config-lt old = omega arith

-- For a block of at least four bytes, the block that is written back is as long and, read in the
-- order in which it was read before, holds exactly what the check after the write expects: the new
-- PackConfiguration and the new PackConfigurationC.
configured_block-holds :
    (pack_config a b c d : ℕ) (rest : List ℕ)
    → (let block = a ∷ b ∷ c ∷ d ∷ rest in
        let order = byte_order pack_config block in
        let written = configured_block order block in
        (pack_config_at written order.high_index order.low_index
          ≡ new_pack_config (pack_config_at block order.high_index order.low_index))
        × (at written 3 ≡ new_pack_config_c d)
        × (length written ≡ length block))
unfolding configured_block byte_order set_at
configured_block-holds pack_config a b c d rest =
    elim (Bool-cases (
      pack_config_at (a ∷ b ∷ []) 1 0 == pack_config
      && pack_config_at (a ∷ b ∷ []) 0 1 != pack_config)) [
        | inl e ↦
            rw e (word_lem _ (new_pack_config-lt (pack_config_at (a ∷ b ∷ []) 1 0)), refl, refl)
        | inr e ↦
            rw e (word_lem _ (new_pack_config-lt (pack_config_at (a ∷ b ∷ []) 0 1)), refl, refl)
      ]
