-- ===== src/TypeC/Fields.antt =====
-- The fields of the customer configuration's register.
use sr_firmware.Base.{
  ℕ, ◌+◌, ◌*◌, ◌/◌, ◌%◌, ◌^◌, ◌<◌, bit_or, Bool, true, false, not, if◌then◌else◌, ◌≡◌, refl, arith,
}
use sr_firmware.Base.Bits.Fields.{bit_or_fields}
use sr_firmware.Base.Bits.Flags.{bit, bit-lt}
use sr_firmware.TypeC.Config.{
  CustomerConfig, TypecMode, typec_mode_src, typec_mode_snk, typec_mode_drp, other, typec_bits,
  build_customer_config_value,
}

-- TypeC_State of the register.
abbrev pub mode_number : TypecMode → ℕ
mode_number typec_mode_src = 0
mode_number typec_mode_snk = 1
mode_number typec_mode_drp = 2
mode_number other = 0

mode-lt : (mode : TypecMode) → mode_number mode < 4
mode-lt typec_mode_src = omega arith
mode-lt typec_mode_snk = omega arith
mode-lt typec_mode_drp = omega arith
mode-lt other = omega arith

mode_lem : (mode : TypecMode) → typec_bits mode ≡ mode_number mode * 2 ^ 4
mode_lem typec_mode_src = refl
mode_lem typec_mode_snk = refl
mode_lem typec_mode_drp = refl
mode_lem other = refl

setting :
    (k low : ℕ) (on : Bool)
    → low < 2 ^ k
    → bit_or low (if not on then 0 * 2 ^ k else 1 * 2 ^ k) ≡ low + bit on * 2 ^ k
setting k low true h = bit_or_fields k low 1 h
setting k low false h = bit_or_fields k low 0 h

-- The fields as the register has them, bit by bit.
pub record Encodes (config : CustomerConfig) (value : ℕ) : Type 0 where
  pub byte : value < 2 ^ 8
  pub dbg_src : value % 2 ≡ bit config.dbg_src_enable
  pub dbg_snk : value / 2 % 2 ≡ bit config.dbg_snk_enable
  pub audio_acc : value / 2 ^ 2 % 2 ≡ bit config.audio_acc_enable
  pub trysnk : value / 2 ^ 3 % 2 ≡ bit config.trysnk_enable
  pub mode : value / 2 ^ 4 % 2 ^ 2 ≡ mode_number config.typec_mode
  pub mem_update : value / 2 ^ 6 % 2 ≡ bit config.mem_update_customer
  pub moisture : value / 2 ^ 7 ≡ bit config.moisture_enable

value-sum :
    (c : CustomerConfig)
    → build_customer_config_value c
      ≡ bit c.dbg_src_enable
        + bit c.dbg_snk_enable * 2
        + bit c.audio_acc_enable * 4
        + bit c.trysnk_enable * 8
        + mode_number c.typec_mode * 16
        + bit c.mem_update_customer * 64
        + bit c.moisture_enable * 128
unfolding build_customer_config_value
value-sum c =
    let s = 0 + bit c.dbg_src_enable * 2 ^ 0 in
    let n = s + bit c.dbg_snk_enable * 2 ^ 1 in
    let a = n + bit c.audio_acc_enable * 2 ^ 2 in
    let t = a + bit c.trysnk_enable * 2 ^ 3 in
    let m = t + mode_number c.typec_mode * 2 ^ 4 in
    let u = m + bit c.mem_update_customer * 2 ^ 6 in
    let bs = bit-lt c.dbg_src_enable in
    let bn = bit-lt c.dbg_snk_enable in
    let ba = bit-lt c.audio_acc_enable in
    let bt = bit-lt c.trysnk_enable in
    let bm = mode-lt c.typec_mode in
    let bu = bit-lt c.mem_update_customer in
    rw
      (
        setting 0 0 c.dbg_src_enable (omega arith),
        setting 1 s c.dbg_snk_enable (omega arith),
        setting 2 n c.audio_acc_enable (omega arith),
        setting 3 a c.trysnk_enable (omega arith),
        mode_lem c.typec_mode,
        bit_or_fields 4 t (mode_number c.typec_mode) (omega arith),
        setting 6 m c.mem_update_customer (omega arith),
        setting 7 u c.moisture_enable (omega arith),
      )
      (omega arith)

-- The value that `max77958_build_customer_config_value` returns is a byte whose fields are the
-- settings of the configuration, each at its place; a mode that is none of the three is sent as
-- that of a source.
pub build_customer_config_value-Encodes :
    (config : CustomerConfig) → Encodes config (build_customer_config_value config)
build_customer_config_value-Encodes c =
    let sum = value-sum c in
    let bs = bit-lt c.dbg_src_enable in
    let bn = bit-lt c.dbg_snk_enable in
    let ba = bit-lt c.audio_acc_enable in
    let bt = bit-lt c.trysnk_enable in
    let bm = mode-lt c.typec_mode in
    let bu = bit-lt c.mem_update_customer in
    let bo = bit-lt c.moisture_enable in
    record {
      byte = omega arith;
      dbg_src = omega arith;
      dbg_snk = omega arith;
      audio_acc = omega arith;
      trysnk = omega arith;
      mode = omega arith;
      mem_update = omega arith;
      moisture = omega arith;
    }
