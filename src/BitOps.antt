-- ===== src/BitOps.antt =====
-- src/bit_ops.c, single bits and bit ranges of a byte. Operands are promoted to a 32-bit `int`,
-- and a result is cut to `uint8_t` when it is returned or stored. A shift by 31 or more is
-- undefined in C; the shift counts of the callers are below 8.
pub mod Laws
mod Tests
use sr_firmware.Base.{
  ℕ, ◌+◌, ◌-◌, ◌*◌, ◌%◌, ◌^◌, ◌==◌, ◌!=◌, if◌then◌else◌, bit_and, bit_or, bit_xor,
}

abbrev pub u8 : ℕ → ℕ
u8 n = n % 2 ^ 8

-- `~m`, as the bit pattern of an `int`.
abbrev pub bit_not : ℕ → ℕ
bit_not m = 2 ^ 32 - 1 - m % 2 ^ 32

-- `!!x`
abbrev pub truth : ℕ → ℕ
truth x = if x == 0 then 0 else 1

unfoldable pub bit_assign : ℕ → ℕ → ℕ → ℕ
bit_assign bitvector new_value idx =
    u8 (bit_or (bit_and bitvector (bit_not (1 * 2 ^ idx))) (truth new_value * 2 ^ idx))

unfoldable pub bit_set : ℕ → ℕ → ℕ
bit_set bitvector idx = u8 (bit_or bitvector (1 * 2 ^ idx))

unfoldable pub bit_clear : ℕ → ℕ → ℕ
bit_clear bitvector idx = u8 (bit_and bitvector (bit_not (1 * 2 ^ idx)))

unfoldable pub bit_flip : ℕ → ℕ → ℕ
bit_flip bitvector idx = u8 (bit_xor bitvector (1 * 2 ^ idx))

unfoldable pub bit_check : ℕ → ℕ → ℕ
bit_check bitvector idx = truth (bit_and bitvector (1 * 2 ^ idx))

-- The shift count `msb - lsb + 1` is not negative where `lsb <= msb + 1`.
unfoldable pub bitmask_from_x_2_y : ℕ → ℕ → ℕ
bitmask_from_x_2_y lsb msb = u8 ((1 * 2 ^ (msb + 1 - lsb) - 1) * 2 ^ lsb)

unfoldable pub bitmask_set : ℕ → ℕ → ℕ
bitmask_set bitvector mask = u8 (bit_or bitvector mask)

unfoldable pub bitmask_clear : ℕ → ℕ → ℕ
bitmask_clear bitvector mask = u8 (bit_and bitvector (bit_not mask))

unfoldable pub bitmask_flip : ℕ → ℕ → ℕ
bitmask_flip bitvector mask = u8 (bit_xor bitvector mask)

unfoldable pub bitmask_check_all : ℕ → ℕ → ℕ
bitmask_check_all bitvector mask = if bit_and (bit_not bitvector) mask == 0 then 1 else 0

unfoldable pub bitmask_check_any : ℕ → ℕ → ℕ
bitmask_check_any bitvector mask = u8 (bit_and bitvector mask)

unfoldable pub bit_set_range : ℕ → ℕ → ℕ → ℕ → ℕ
unfolding bitmask_from_x_2_y bitmask_clear
bit_set_range bitvector lsb msb new_val =
    let mask = bitmask_from_x_2_y lsb msb in
    u8 (bit_or (bitmask_clear bitvector mask) (bit_and (new_val * 2 ^ lsb) mask))
