-- ===== src/Charger/Settings.antt =====
-- A battery charger that keeps what its registers are sent: what src/max77976.c relies on of the device
-- at the address 0x6B.
use sr_firmware.Base.{ℕ, Bool, true, false, List, [], ◌∷◌, ◌≡◌, refl}
use sr_firmware.BitOps.{bit_assign, bit_set_range}
use sr_firmware.Hardware.Bus.{Acked}
use sr_firmware.Hardware.Sdk.{PicoSdk, Gpio}
use sr_firmware.Charger.{interrupt_masks, cnfg_08, cnfg_09}
use sr_firmware.Charger.Registers.{addr}

-- The registers that `max77976_init` writes: CHG_INT_MASK, the protection CHGPROT in CHG_CNFG_06,
-- the mode, the charge current, the switching frequency and the limit of the input current.
pub record Settings : Type 0 where
  pub int_mask : ℕ
  pub protection : ℕ
  pub mode : ℕ
  pub charge_current : ℕ
  pub frequency : ℕ
  pub input_limit : ℕ

pub record ChargerDevice (sdk : PicoSdk) : Type 0 where
  pub settings : sdk.World → Settings
  pub write_acked :
      (src : List ℕ) (nostop : Bool) (w : sdk.World)
      → Acked (sdk.i2c_write_timeout_us 1 addr src nostop w).0
  pub read_acked :
      (len : ℕ) (nostop : Bool) (w : sdk.World)
      → Acked (sdk.i2c_read_timeout_us 1 addr len nostop w).0.0
  pub pins_keep : (call : Gpio) (w : sdk.World) → settings (sdk.gpio call w) ≡ settings w
  -- One byte sets the register to read, and reading keeps the settings.
  pub choosing_keeps :
      (reg : ℕ) (w : sdk.World)
      → settings (sdk.i2c_write_timeout_us 1 addr (reg ∷ []) true w).1 ≡ settings w
  pub reads_keep :
      (len : ℕ) (nostop : Bool) (w : sdk.World)
      → settings (sdk.i2c_read_timeout_us 1 addr len nostop w).1 ≡ settings w
  -- Behind CHG_INT_MASK lie CHG_INT_OK and CHG_DETAILS_00, which cannot be written.
  pub sets_int_mask :
      (mask : ℕ) (w : sdk.World)
      → settings (sdk.i2c_write_timeout_us 1 addr (0x11 ∷ mask ∷ 0 ∷ 0 ∷ []) false w).1
        ≡ record (settings w) { int_mask = mask }
  pub sets_protection :
      (value : ℕ) (w : sdk.World)
      → settings (sdk.i2c_write_timeout_us 1 addr (0x1c ∷ value ∷ []) false w).1
        ≡ record (settings w) { protection = value }
  -- While CHGPROT is 0b11 the other four can be written.
  pub sets_mode :
      (value : ℕ) (w : sdk.World)
      → (settings w).protection ≡ 0x0c
      → settings (sdk.i2c_write_timeout_us 1 addr (0x16 ∷ value ∷ []) false w).1
        ≡ record (settings w) { mode = value }
  pub sets_charge_current :
      (value : ℕ) (w : sdk.World)
      → (settings w).protection ≡ 0x0c
      → settings (sdk.i2c_write_timeout_us 1 addr (0x18 ∷ value ∷ []) false w).1
        ≡ record (settings w) { charge_current = value }
  pub sets_frequency :
      (value : ℕ) (w : sdk.World)
      → (settings w).protection ≡ 0x0c
      → settings (sdk.i2c_write_timeout_us 1 addr (0x1e ∷ value ∷ []) false w).1
        ≡ record (settings w) { frequency = value }
  pub sets_input_limit :
      (value : ℕ) (w : sdk.World)
      → (settings w).protection ≡ 0x0c
      → settings (sdk.i2c_write_timeout_us 1 addr (0x1f ∷ value ∷ []) false w).1
        ≡ record (settings w) { input_limit = value }

-- CHGIN_M unmasked alone, the registers protected again, buck mode with charging, 1250 mA, 2.6 MHz,
-- and 3000 mA with the reset value of INLIM_CLK.
abbrev pub wanted : Settings
wanted = record {
  int_mask = 0xbf;
  protection = 0;
  mode = 0x5;
  charge_current = 0x19;
  frequency = 0;
  input_limit = 0xbb;
}

pub bytes_lem : (interrupt_masks ≡ 0xbf) × (cnfg_08 ≡ 0) × (cnfg_09 ≡ 0xbb)
unfolding interrupt_masks cnfg_08 cnfg_09 bit_assign bit_set_range
bytes_lem = (refl, refl, refl)
