-- ===== src/Crc/Tests.antt =====
-- Checks of `crc16_ccitt` on concrete input.
use sr_firmware.Base.{◌≡◌, ◌≢◌, refl, [], ◌∷◌, arith}
use sr_firmware.Crc.{crc16_ccitt}
use sr_firmware.Crc.Detect.{burst_detected}
use sr_firmware.Crc.ShiftRegister.{crc16_ccitt-register, register, message_bits}

-- The check value of CRC-16 with this generator and start value, of the characters 123456789.
check_value : crc16_ccitt (49 ∷ 50 ∷ 51 ∷ 52 ∷ 53 ∷ 54 ∷ 55 ∷ 56 ∷ 57 ∷ []) 0xffff ≡ 0x29b1
unfolding crc16_ccitt
check_value = refl

burst_detected_example :
    crc16_ccitt (7 ∷ 1 ∷ 2 ∷ 5 ∷ []) 0xffff ≢ crc16_ccitt (7 ∷ 3 ∷ 4 ∷ 5 ∷ []) 0xffff
burst_detected_example =
    burst_detected (7 ∷ []) (5 ∷ []) 0xffff 1 2 3 4 (omega arith, tt) (omega arith)
      (omega arith, omega arith) (omega arith, omega arith) (λ same. absurd (omega (arith, same.0)))

crc16_ccitt-register_example :
    crc16_ccitt (7 ∷ 200 ∷ []) 0xffff ≡ register (message_bits (7 ∷ 200 ∷ [])) 0xffff
crc16_ccitt-register_example =
    crc16_ccitt-register (7 ∷ 200 ∷ []) 0xffff (omega arith, (omega arith, tt)) (omega arith)
