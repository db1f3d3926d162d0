-- ===== src/Battery/Gauge.antt =====
-- A battery gauge that keeps its data flash: what src/bq27742_g1.c relies on of the device at the
-- address 0x55.
use sr_firmware.Base.{ℕ, ◌-◌, ◌%◌, ◌∷◌, [], List, Bool, ◌≡◌, length}
use sr_firmware.Hardware.Bus.{Acked}
use sr_firmware.Hardware.Sdk.{PicoSdk}
use sr_firmware.Battery.{block_len}
use sr_firmware.Battery.Masks.{addr}
use sr_firmware.Battery.Block.{at}
use sr_firmware.Battery.Flash.{sum}

-- What the device shows: block 0 of the subclass 64 of the data flash, the subclass that is
-- selected, the 32 bytes of BlockData, and the command that the next read begins at.
pub record Registers : Type 0 where
  pub block : List ℕ
  pub subclass : ℕ
  pub block_data : List ℕ
  pub command : ℕ

-- The checksum that the device makes.
abbrev pub checksum_of : List ℕ → ℕ
checksum_of bytes = 0xff - sum bytes % 256

pub record Gauge (sdk : PicoSdk) : Type 0 where
  pub registers : sdk.World → Registers
  pub write_acked :
      (src : List ℕ) (nostop : Bool) (w : sdk.World)
      → Acked (sdk.i2c_write_timeout_us 0 addr src nostop w).0
  pub read_acked :
      (len : ℕ) (nostop : Bool) (w : sdk.World)
      → Acked (sdk.i2c_read_timeout_us 0 addr len nostop w).0.0
  pub waits : (ms : ℕ) (w : sdk.World) → registers (sdk.sleep_ms ms w) ≡ registers w
  -- One byte sets the command.
  pub sets_command :
      (command : ℕ) (nostop : Bool) (w : sdk.World)
      → registers (sdk.i2c_write_timeout_us 0 addr (command ∷ []) nostop w).1
        ≡ record (registers w) { command = command }
  -- BlockDataControl, DataFlashClass and DataFlashBlock.
  pub sets_control :
      (nostop : Bool) (w : sdk.World)
      → registers (sdk.i2c_write_timeout_us 0 addr (0x61 ∷ 0 ∷ []) nostop w).1 ≡ registers w
  pub sets_subclass :
      (subclass : ℕ) (nostop : Bool) (w : sdk.World)
      → registers (sdk.i2c_write_timeout_us 0 addr (0x3e ∷ subclass ∷ []) nostop w).1
        ≡ record (registers w) { subclass = subclass }
  pub loads_block :
      (nostop : Bool) (w : sdk.World)
      → (registers w).subclass ≡ 64
      → registers (sdk.i2c_write_timeout_us 0 addr (0x3f ∷ 0 ∷ []) nostop w).1
        ≡ record (registers w) { block_data = (registers w).block }
  -- BlockData, and BlockDataChecksum, which must be right for the block to be kept.
  pub sets_block_data :
      (bytes : List ℕ) (nostop : Bool) (w : sdk.World)
      → length bytes ≡ block_len
      → registers (sdk.i2c_write_timeout_us 0 addr (0x40 ∷ bytes) nostop w).1
        ≡ record (registers w) { block_data = bytes }
  pub keeps_block :
      (checksum : ℕ) (nostop : Bool) (w : sdk.World)
      → (registers w).subclass ≡ 64
      → checksum ≡ checksum_of (registers w).block_data
      → registers (sdk.i2c_write_timeout_us 0 addr (0x60 ∷ checksum ∷ []) nostop w).1
        ≡ record (registers w) { block = (registers w).block_data }
  -- What is read, and that reading keeps the registers.
  pub reads_keep :
      (len : ℕ) (nostop : Bool) (w : sdk.World)
      → registers (sdk.i2c_read_timeout_us 0 addr len nostop w).1 ≡ registers w
  pub reads_block_data :
      (nostop : Bool) (w : sdk.World)
      → (registers w).command ≡ 0x40
      → (sdk.i2c_read_timeout_us 0 addr block_len nostop w).0.1 ≡ (registers w).block_data
  pub reads_checksum :
      (nostop : Bool) (w : sdk.World)
      → (registers w).command ≡ 0x60
      → (sdk.i2c_read_timeout_us 0 addr 1 nostop w).0.1 ≡ checksum_of (registers w).block_data ∷ []
  -- PackConfiguration, the first two bytes of the block, the high one first; a command gives the
  -- low one first.
  pub reads_pack_configuration :
      (nostop : Bool) (w : sdk.World)
      → (registers w).command ≡ 0x3a
      → (sdk.i2c_read_timeout_us 0 addr 2 nostop w).0.1
        ≡ at (registers w).block 1 ∷ at (registers w).block 0 ∷ []
