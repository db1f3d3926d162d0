-- ===== src/TypeC/Config.antt =====
-- The customer configuration of src/max77958.c and include/max77958.h.
use sr_firmware.Base.{ℕ, ◌*◌, ◌^◌, bit_or, Bool, not, if◌then◌else◌}

abbrev reg_dbg_src_disable : ℕ
reg_dbg_src_disable = 0 * 2 ^ 0

abbrev reg_dbg_src_enable : ℕ
reg_dbg_src_enable = 1 * 2 ^ 0

abbrev reg_dbg_snk_disable : ℕ
reg_dbg_snk_disable = 0 * 2 ^ 1

abbrev reg_dbg_snk_enable : ℕ
reg_dbg_snk_enable = 1 * 2 ^ 1

abbrev reg_audio_acc_disable : ℕ
reg_audio_acc_disable = 0 * 2 ^ 2

abbrev reg_audio_acc_enable : ℕ
reg_audio_acc_enable = 1 * 2 ^ 2

abbrev reg_trysnk_disable : ℕ
reg_trysnk_disable = 0 * 2 ^ 3

abbrev reg_trysnk_enable : ℕ
reg_trysnk_enable = 1 * 2 ^ 3

abbrev reg_typec_src : ℕ
reg_typec_src = 0 * 2 ^ 4

abbrev reg_typec_snk : ℕ
reg_typec_snk = 1 * 2 ^ 4

abbrev reg_typec_drp : ℕ
reg_typec_drp = 2 * 2 ^ 4

abbrev reg_mem_update_ram : ℕ
reg_mem_update_ram = 0 * 2 ^ 6

abbrev reg_mem_update_customer : ℕ
reg_mem_update_customer = 1 * 2 ^ 6

abbrev reg_moisture_disable : ℕ
reg_moisture_disable = 0 * 2 ^ 7

abbrev reg_moisture_enable : ℕ
reg_moisture_enable = 1 * 2 ^ 7

-- `typec_mode_t`; `other` is a value that is none of the three.
pub data TypecMode : Type 0 where
  typec_mode_src typec_mode_snk typec_mode_drp other : TypecMode

-- `max77958_customer_config_t`
pub record CustomerConfig : Type 0 where
  pub dbg_src_enable : Bool
  pub dbg_snk_enable : Bool
  pub audio_acc_enable : Bool
  pub trysnk_enable : Bool
  pub typec_mode : TypecMode
  pub mem_update_customer : Bool
  pub moisture_enable : Bool

abbrev pub typec_bits : TypecMode → ℕ
typec_bits typec_mode_src = reg_typec_src
typec_bits typec_mode_snk = reg_typec_snk
typec_bits typec_mode_drp = reg_typec_drp
typec_bits other = reg_typec_src

-- `max77958_build_customer_config_value`
unfoldable pub build_customer_config_value : CustomerConfig → ℕ
build_customer_config_value config =
    let v1 =
      bit_or 0 (if not config.dbg_src_enable then reg_dbg_src_disable else reg_dbg_src_enable) in
    let v2 =
      bit_or v1 (if not config.dbg_snk_enable then reg_dbg_snk_disable else reg_dbg_snk_enable) in
    let v3 =
      bit_or v2
        (if not config.audio_acc_enable then reg_audio_acc_disable else reg_audio_acc_enable) in
    let v4 =
      bit_or v3 (if not config.trysnk_enable then reg_trysnk_disable else reg_trysnk_enable) in
    let v5 = bit_or v4 (typec_bits config.typec_mode) in
    let v6 =
      bit_or v5
        (if not config.mem_update_customer then reg_mem_update_ram else reg_mem_update_customer) in
    bit_or v6 (if not config.moisture_enable then reg_moisture_disable else reg_moisture_enable)
