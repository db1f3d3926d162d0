-- ===== src/Crc.antt =====
-- src/crc.c, the CRC-16/CCITT checksum of a buffer, most significant bit first.
pub mod Linear
pub mod Detect
pub mod ShiftRegister
mod Tests
use sr_firmware.Base.{ℕ, zero, suc, ◌*◌, ◌%◌, ◌^◌, ◌!=◌, if◌then◌else◌, bit_and, bit_xor}
use sr_firmware.Base.{List, [], ◌∷◌}

-- A conversion to `uint16_t`.
abbrev pub u16 : ℕ → ℕ
u16 n = n % 2 ^ 16

-- The body of the inner loop. The shift and the exclusive or are done in `int`, and the
-- assignment to `crc` cuts the result to 16 bits.
pub crc_round : ℕ → ℕ
crc_round crc = if bit_and crc 0x8000 != 0 then u16 (bit_xor (crc * 2) 0x1021) else u16 (crc * 2)

-- The inner loop, with the rounds left.
pub crc_rounds : ℕ → ℕ → ℕ
crc_rounds zero crc = crc
crc_rounds (suc j) crc = crc_rounds j (crc_round crc)

-- The body of the outer loop.
pub crc_byte : ℕ → ℕ → ℕ
crc_byte crc byte = crc_rounds 8 (u16 (bit_xor crc (u16 (byte * 2 ^ 8))))

-- The list is the `length` bytes at `data`.
unfoldable pub crc16_ccitt : List ℕ → ℕ → ℕ
unfolding crc_byte crc_rounds crc_round
crc16_ccitt [] initial = initial
crc16_ccitt (byte ∷ data') initial = crc16_ccitt data' (crc_byte initial byte)
