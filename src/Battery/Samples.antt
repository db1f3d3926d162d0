-- ===== src/Battery/Samples.antt =====
-- Test data: a board whose only device is a battery gauge with a data flash.
use sr_firmware.Base.{
  true, ℕ, zero, suc, ◌==◌, ◌&&◌, if◌then◌else◌, List, [], ◌∷◌, length, ◌≡◌, refl, arith,
}
use sr_firmware.Hardware.{State}
use sr_firmware.Hardware.Bus.{acked}
use sr_firmware.Hardware.Samples.{at_rest, board_of}
use sr_firmware.Hardware.Sdk.{PicoSdk, stop_core1}
use sr_firmware.Battery.{block_len}
use sr_firmware.Battery.Block.{at}
use sr_firmware.Battery.Gauge.{Registers, Gauge, checksum_of}

-- What the device makes of the bytes that it is sent.
abbrev written : List ℕ → Registers → Registers
written [] r = r
written (command ∷ []) r = record r { command = command }
written (command ∷ value ∷ []) r =
    if command == 0x3e
    then record r { subclass = value }
    else if command == 0x3f && value == 0 && r.subclass == 64
    then record r { block_data = r.block }
    else if command == 0x60 && r.subclass == 64 && value == checksum_of r.block_data
    then record r { block = r.block_data }
    else r
written (command ∷ v ∷ w ∷ bytes) r =
    if command == 0x40 then record r { block_data = v ∷ w ∷ bytes } else r

abbrev read : Registers → List ℕ
read r =
    if r.command == 0x40
    then r.block_data
    else if r.command == 0x60
    then checksum_of r.block_data ∷ []
    else at r.block 1 ∷ at r.block 0 ∷ []

abbrev pub board : PicoSdk
board = board_of (record {
  write = written;
  read = read;
  signal = λ call w. w;
  add = λ queue func arg w. (true, w);
  remove = λ w. ((stop_core1, 0), w);
})

pub sets_block_data_lem :
    (bytes : List ℕ) (r : Registers)
    → length bytes ≡ block_len
    → written (0x40 ∷ bytes) r ≡ record r { block_data = bytes }
sets_block_data_lem [] r h = absurd (omega (arith, h))
sets_block_data_lem (x ∷ []) r h = absurd (omega (arith, h))
sets_block_data_lem (x ∷ y ∷ bytes) r h = refl

pub keeps_block_lem :
    (checksum : ℕ) (r : Registers)
    → r.subclass ≡ 64
    → checksum ≡ checksum_of r.block_data
    → written (0x60 ∷ checksum ∷ []) r ≡ record r { block = r.block_data }
keeps_block_lem checksum r h e = rw (h, e) (ground arith)

abbrev pub gauge : Gauge board
gauge = record {
  registers = λ w. w;
  write_acked = λ src nostop w. acked;
  read_acked = λ len nostop w. acked;
  waits = λ ms w. refl;
  sets_command = λ command nostop w. refl;
  sets_control = λ nostop w. refl;
  sets_subclass = λ subclass nostop w. refl;
  loads_block = λ nostop w h. rw (h) refl;
  sets_block_data = λ bytes nostop w h. sets_block_data_lem bytes w h;
  keeps_block = λ checksum nostop w h e. keeps_block_lem checksum w h e;
  reads_keep = λ len nostop w. refl;
  reads_block_data = λ nostop w h. rw (h) refl;
  reads_checksum = λ nostop w h. rw (h) refl;
  reads_pack_configuration = λ nostop w h. rw (h) refl;
}

-- PackConfiguration 0x6fff and PackConfigurationC 0x01, in front of 28 zeros.
abbrev zeros : ℕ → List ℕ
zeros zero = []
zeros (suc n) = 0 ∷ zeros n

abbrev pub start : State board
start = at_rest (record {
  block = 0x6f ∷ 0xff ∷ 0 ∷ 0x01 ∷ zeros 28;
  subclass = 0;
  block_data = [];
  command = 0;
})
