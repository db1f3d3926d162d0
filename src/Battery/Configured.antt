-- ===== src/Battery/Configured.antt =====
-- The block of the data flash that `bq27742_g1_configure_host_interrupts` of src/bq27742_g1.c makes.
use sr_firmware.Base.{
  ℕ, zero, suc, ◌<◌, ◌==◌, ◌!=◌, ◌&&◌, ◌||◌, not, if◌then◌else◌, false, ◌≡◌, ◌≢◌, refl, ap, ◌∙◌,
  arith, List, [], ◌∷◌, length,
}
use sr_firmware.Base.Bits.Digits.{test_bit}
use sr_firmware.Hardware.{word16}
use sr_firmware.Battery.{block_len}
use sr_firmware.Battery.Block.{
  at, ByteOrder, byte_order, pack_config_at, new_pack_config, new_pack_config_c, set_at,
  configured_block,
}
use sr_firmware.Battery.Config.{clear_lem, word_lem, new_pack_config-lt, test_bit-new_pack_config}

-- The block has the host interrupt on and BTP off, and is otherwise as before.
pub record IsConfigured (old new : List ℕ) : Type 0 where
  pub pack_config :
      (j : ℕ)
      → j < 16
      → test_bit (pack_config_at new 0 1) j ≡ (
          if j == 12
          then 1
          else if j == 13 || j == 14
          then 0
          else test_bit (pack_config_at old 0 1) j)
  pub pack_config_c :
      (j : ℕ) → j < 8 → test_bit (at new 3) j ≡ (if 0 == j then 0 else test_bit (at old 3) j)
  pub others : (i : ℕ) → i ≢ 0 → i ≢ 1 → i ≢ 3 → at new i ≡ at old i
  pub same_length : length new ≡ length old

abbrev pub trm_order : ByteOrder
trm_order = record { high_index = 0; low_index = 1 }

-- The values written are the ones that the configuration has.
values :
    (old new : List ℕ)
    → pack_config_at new 0 1 ≡ new_pack_config (pack_config_at old 0 1)
    → at new 3 ≡ new_pack_config_c (at old 3)
    → ((i : ℕ) → i ≢ 0 → i ≢ 1 → i ≢ 3 → at new i ≡ at old i)
    → length new ≡ length old
    → IsConfigured old new
unfolding new_pack_config_c
values old new e ec others len = record {
  pack_config =
      λ j h. ap (λ n. test_bit n j) e ∙ test_bit-new_pack_config (pack_config_at old 0 1) j h;
  pack_config_c =
      λ j h. ap (λ n. test_bit n j) ec ∙ clear_lem 8 (at old 3) 0 j (omega arith) (omega arith) h;
  others = others;
  same_length = len;
}

others_lem :
    (a b c d x y z : ℕ) (rest : List ℕ) (i : ℕ)
    → i ≢ 0
    → i ≢ 1
    → i ≢ 3
    → at (x ∷ y ∷ c ∷ z ∷ rest) i ≡ at (a ∷ b ∷ c ∷ d ∷ rest) i
others_lem a b c d x y z rest zero n0 n1 n3 = absurd (n0 refl)
others_lem a b c d x y z rest (suc zero) n0 n1 n3 = absurd (n1 refl)
others_lem a b c d x y z rest (suc (suc zero)) n0 n1 n3 = refl
others_lem a b c d x y z rest (suc (suc (suc zero))) n0 n1 n3 = absurd (n3 refl)
others_lem a b c d x y z rest (suc (suc (suc (suc i)))) n0 n1 n3 = refl

pub written-IsConfigured :
    (block : List ℕ)
    → length block ≡ block_len
    → (IsConfigured block (configured_block trm_order block))
      × (pack_config_at (configured_block trm_order block) 0 1
          ≡ new_pack_config (pack_config_at block 0 1))
      × (at (configured_block trm_order block) 3 ≡ new_pack_config_c (at block 3))
      × (length (configured_block trm_order block) ≡ block_len)
unfolding configured_block set_at
written-IsConfigured [] h = absurd (omega (arith, h))
written-IsConfigured (a ∷ []) h = absurd (omega (arith, h))
written-IsConfigured (a ∷ b ∷ []) h = absurd (omega (arith, h))
written-IsConfigured (a ∷ b ∷ c ∷ []) h = absurd (omega (arith, h))
written-IsConfigured (a ∷ b ∷ c ∷ d ∷ rest) h =
    let w = word_lem _ (new_pack_config-lt (pack_config_at (a ∷ b ∷ []) 0 1)) in
    (values (a ∷ b ∷ c ∷ d ∷ rest) _ w refl (others_lem a b c d _ _ _ rest) refl, w, refl, h)

-- A device that shows PackConfiguration as its data flash has it, the high byte first.
pub order_lem :
    (block : List ℕ) → byte_order (word16 (at block 1 ∷ at block 0 ∷ [])) block ≡ trm_order
unfolding byte_order
order_lem block = ground arith

pub quiet_lem :
    (block : List ℕ)
    → (let pack_config = word16 (at block 1 ∷ at block 0 ∷ []) in
        not (pack_config_at block 1 0 == pack_config && pack_config_at block 0 1 != pack_config)
        && pack_config_at block 0 1 != pack_config)
      ≡ false
quiet_lem block = ground arith

pub verified_lem : (a b c d : ℕ) → a ≡ b → c ≡ d → (a != b || c != d) ≡ false
verified_lem a b c d e f = ground (arith, e, f)

pub already-IsConfigured :
    (block : List ℕ)
    → not (
        pack_config_at block 0 1 == new_pack_config (pack_config_at block 0 1)
        && at block 3 == new_pack_config_c (at block 3))
      ≡ false
    → IsConfigured block block
already-IsConfigured block e =
    values block block (ground (arith, e)) (ground (arith, e)) (λ i _ _ _. refl) refl
