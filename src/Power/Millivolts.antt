-- ===== src/Power/Millivolts.antt =====
-- The conversions of ADC counts to millivolts.
use sr_firmware.Base.{ℕ, ◌+◌, ◌*◌, ◌≤◌, ◌<◌, arith}
use sr_firmware.Power.{adc0_counts_to_vina_mv, adc_counts_to_pin_mv}

-- For a count of the 12-bit converter, no step of the conversion overflows: the result is the
-- quotient counts * 3300 mV * 610 / (4096 * 100) to the nearest millivolt.
pub adc0_counts_to_vina_mv-nearest :
    (adc_counts : ℕ)
    → adc_counts < 4096
    → (2 * (adc0_counts_to_vina_mv adc_counts * 409600) ≤ 2 * (adc_counts * 2013000) + 409600)
      × (2 * (adc_counts * 2013000) < 2 * (adc0_counts_to_vina_mv adc_counts * 409600) + 409600)
unfolding adc0_counts_to_vina_mv
adc0_counts_to_vina_mv-nearest adc_counts h = (omega arith, omega arith)

-- For a count of the 12-bit converter, the voltage of the pin itself is counts * 3300 mV / 4096 to the
-- nearest millivolt.
pub adc_counts_to_pin_mv-nearest :
    (adc_counts : ℕ)
    → adc_counts < 4096
    → (2 * (adc_counts_to_pin_mv adc_counts * 4096) ≤ 2 * (adc_counts * 3300) + 4096)
      × (2 * (adc_counts * 3300) < 2 * (adc_counts_to_pin_mv adc_counts * 4096) + 4096)
unfolding adc_counts_to_pin_mv
adc_counts_to_pin_mv-nearest adc_counts h = (omega arith, omega arith)
