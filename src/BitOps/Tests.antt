-- ===== src/BitOps/Tests.antt =====
-- Checks of the bit operations on concrete input.
use sr_firmware.Base.{◌≡◌, refl, arith}
use sr_firmware.Base.Bits.Digits.{test_bit}
use sr_firmware.BitOps.{bitmask_from_x_2_y, bit_set_range, bit_assign, bit_check}
use sr_firmware.BitOps.Laws.{test_bit-bit_set_range}

-- The example of the comment in src/bit_ops.c.
mask_example : bitmask_from_x_2_y 2 3 ≡ 0b00001100
unfolding bitmask_from_x_2_y
mask_example = refl

-- The input current limit of the charger, 3000 mA, over its reset value.
limit_example : bit_set_range 0x89 0 5 0x3b ≡ 0xbb
unfolding bit_set_range
limit_example = refl

bit_assign_clears : bit_assign 0x3 0 1 ≡ 0x1
unfolding bit_assign
bit_assign_clears = refl

bit_check_seven : bit_check 0x89 7 ≡ 1
unfolding bit_check
bit_check_seven = refl

test_bit-bit_set_range_example : test_bit (bit_set_range 0x89 0 5 0x3b) 4 ≡ test_bit 0x3b 4
test_bit-bit_set_range_example =
    test_bit-bit_set_range 0 5 4 (omega arith) (omega arith) (omega arith) 0x89 0x3b
