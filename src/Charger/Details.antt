-- ===== src/Charger/Details.antt =====
-- `max77976_get_chg_details` of src/max77976.c.
use sr_firmware.Base.{ℕ, ◌/◌, ◌*◌, ◌^◌, ◌%◌, ◌==◌, bit_and, bit_or, get_or, if◌then◌else◌, []}
use sr_firmware.Charger.Registers.{addr, cnfg_00_addr}
use sr_firmware.Machine.{pure, ◌>>=◌, ◌>>◌}
use sr_firmware.Hardware.{Io, ask, when, rp2040_log_w, read_register}
use sr_firmware.Hardware.Sdk.{PicoSdk}
use sr_firmware.Charger.{i2c1}

module _ (sdk : PicoSdk) where
  -- The first `switch`, on CHGIN_DTLS.
  unfoldable pub report_chgin : ℕ → Io sdk (Unit {0})
  report_chgin dtls =
      if dtls == 0
      then rp2040_log_w sdk
          "VBUS is invalid. VCHGIN rising: VCHGIN < VCHGIN_UVLO. VCHGIN falling: VCHGIN < VCHGIN_REG (AICL)"
          []
      else if dtls == 1
      then rp2040_log_w sdk "VBUS is invalid. VCHGIN < VBATT + VCHGIN2SYS and VCHGIN > VCHGIN_UVLO"
          []
      else when sdk (dtls == 2) (rp2040_log_w sdk "VBUS is invalid. VCHGIN > VCHGIN_OVLO" [])

  unfoldable pub report_treg : ℕ → Io sdk (Unit {0})
  report_treg treg = when sdk (treg == 1) (
      rp2040_log_w sdk
        "The junction temperature is greater than the threshold set by REGTEMP and the charge current limit may be folding back to reduce power dissipation."
        [])

  unfoldable pub report_bat : ℕ → Io sdk (Unit {0})
  report_bat dtls =
      if dtls == 0
      then rp2040_log_w sdk "Battery Removal" []
      else if dtls == 2
      then rp2040_log_w sdk "Battery Timer Fault" []
      else if dtls == 4
      then rp2040_log_w sdk "Battery Low Voltage" []
      else when sdk (dtls == 5) (rp2040_log_w sdk "Battery Overvoltage" [])

  unfoldable pub report_chg : ℕ → Io sdk (Unit {0})
  report_chg dtls =
      if dtls == 0x6
      then rp2040_log_w sdk "Charger is in timer-fault mode." []
      else if dtls == 0x7
      then rp2040_log_w sdk "Charger is suspended because QBATT is disabled" []
      else if dtls == 0x8
      then rp2040_log_w sdk "Charger is off, charger input invalid and/or charger is disabled." []
      else if dtls == 0xa
      then rp2040_log_w sdk "Charger is off and the junction temperature is > TSHDN." []
      else if dtls == 0xb
      then rp2040_log_w sdk "Charger is off because the watchdog timer expired" []
      else if dtls == 0xc
      then rp2040_log_w sdk
          "Charger is suspended or charge current or voltage is reduced based on JEITA control." []
      else if dtls == 0xd
      then rp2040_log_w sdk "Charger is suspended because battery removal is detected on THM pin."
          []
      else when sdk (dtls == 0xe)
          (rp2040_log_w sdk "Charger is suspended because SUSPEND pin is high." [])

  -- The result is read behind `send_buf`; the values of the third and fourth register only go into
  -- messages below WARNING.
  unfoldable pub get_chg_details : Io sdk ℕ
  get_chg_details = do
    details_00 ← read_register sdk i2c1 addr 0x13 1
    report_chgin (bit_and (get_or details_00 0 0) 0x60 / 2 ^ 5)
    details_01 ← read_register sdk i2c1 addr 0x14 1
    report_treg (bit_and (get_or details_01 0 0) (2 ^ 7) / 2 ^ 7)
    report_bat (bit_and (get_or details_01 0 0) 0x70 / 2 ^ 4)
    report_chg (bit_and (get_or details_01 0 0) 0xf)
    read_register sdk i2c1 addr 0x15 1 >>= λ _. pure tt
    read_register sdk i2c1 addr cnfg_00_addr 1 >>= λ _. pure tt
    stray ← ask sdk (λ w. (sdk.behind_send_buf w, w))
    let high = bit_or (get_or stray 0 0 * 2 ^ 24 % 2 ^ 32) (get_or stray 1 0 * 2 ^ 16)
    pure (bit_or (bit_or high (get_or stray 2 0 * 2 ^ 8)) (get_or stray 3 0))
