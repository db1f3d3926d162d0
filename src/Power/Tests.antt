-- ===== src/Power/Tests.antt =====
-- Checks of the conversions on concrete input.
use sr_firmware.Base.{◌≡◌, ◌+◌, ◌*◌, ◌≤◌, ◌<◌, refl, arith}
use sr_firmware.Power.{adc0_counts_to_vina_mv, adc_counts_to_pin_mv}
use sr_firmware.Power.Millivolts.{adc0_counts_to_vina_mv-nearest, adc_counts_to_pin_mv-nearest}

full_scale : adc0_counts_to_vina_mv 4095 ≡ 20125
unfolding adc0_counts_to_vina_mv
full_scale = refl

adc0_counts_to_vina_mv-nearest_example :
    (2 * (adc0_counts_to_vina_mv 1000 * 409600) ≤ 2 * (1000 * 2013000) + 409600)
    × (2 * (1000 * 2013000) < 2 * (adc0_counts_to_vina_mv 1000 * 409600) + 409600)
adc0_counts_to_vina_mv-nearest_example = adc0_counts_to_vina_mv-nearest 1000 (omega arith)

adc_counts_to_pin_mv-nearest_example :
    (2 * (adc_counts_to_pin_mv 1000 * 4096) ≤ 2 * (1000 * 3300) + 4096)
    × (2 * (1000 * 3300) < 2 * (adc_counts_to_pin_mv 1000 * 4096) + 4096)
adc_counts_to_pin_mv-nearest_example = adc_counts_to_pin_mv-nearest 1000 (omega arith)
