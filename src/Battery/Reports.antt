-- ===== src/Battery/Reports.antt =====
-- The functions of src/bq27742_g1.c that read a value of the battery for the report of the state.
use sr_firmware.Base.{ℕ}
use sr_firmware.Battery.Masks.{
  isd_mask, tdd_mask, otc_mask, otd_mask, ovp_mask, uvp_mask, bathi_mask, batlow_mask, chg_inh_mask,
  fc_mask, chg_sus_mask, imax_mask, chg_mask, soc1_mask, socf_mask, dsg_mask,
}
use sr_firmware.Machine.{pure, ◌>>=◌, ◌>>◌}
use sr_firmware.Hardware.{Io, word16}
use sr_firmware.Hardware.Sdk.{PicoSdk}
use sr_firmware.Battery.Block.{at}
use sr_firmware.Battery.{read_bytes, warn, reg_flags, reg_safety_status}

module _ (sdk : PicoSdk) where
  unfoldable pub get_voltage : Io sdk ℕ
  get_voltage = do return_buf ← read_bytes sdk 0x08 2; pure (word16 return_buf)

  -- `temperature = (uint16_t)temperature` assigns the zeroed variable to itself.
  unfoldable pub get_temp : Io sdk ℕ
  get_temp = do return_buf ← read_bytes sdk 0x06 2; pure 0

  unfoldable pub get_soh : Io sdk ℕ
  get_soh = do return_buf ← read_bytes sdk 0x2e 2; pure (at return_buf 0)

  unfoldable pub get_safety_stats : Io sdk ℕ
  get_safety_stats = do
    return_buf ← read_bytes sdk reg_safety_status 2
    let low_byte = at return_buf 0
    warn sdk low_byte isd_mask "Internal Short condition detected, "
    warn sdk low_byte tdd_mask "Tab Disconnect condition detected, "
    warn sdk low_byte otc_mask "Overtemperature in charge condition detected, "
    warn sdk low_byte otd_mask "Overtemperature in discharge condition detected, "
    warn sdk low_byte ovp_mask "Overvoltage condition detected, "
    warn sdk low_byte uvp_mask "Undervoltage condition detected, "
    pure low_byte

  unfoldable pub get_flags : Io sdk ℕ
  get_flags = do
    return_buf ← read_bytes sdk reg_flags 2
    let flags = word16 return_buf
    warn sdk flags bathi_mask "High battery voltage condition BATHI detected, "
    warn sdk flags batlow_mask "Low battery voltage condition BATLOW detected, "
    warn sdk flags chg_inh_mask
        "Temperature is < T1 Temp or > T4 Temp while charging is not active. CHG_INH detected, "
    warn sdk flags fc_mask
        "Charge termination reached and FC Set Percent = -1. Or SOC > FC Percent is not -1. FC detected, "
    warn sdk flags chg_sus_mask
        "Temp < T1 Temp or > T5 Temp while charging active. CHG_SUS detected, "
    warn sdk flags imax_mask "Imax value has changed enough to interrupt. IMAX detected, "
    warn sdk flags chg_mask "Fast charging allowed. CHG detected, "
    warn sdk flags soc1_mask "SOC1 reached."
    warn sdk flags socf_mask "SOCF Set Percent reached. SOCF detected, "
    warn sdk flags dsg_mask "Discharging detected. DSG detected, "
    pure flags
