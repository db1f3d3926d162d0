-- ===== src/Motors/Tests.antt =====
-- Checks of `set_voltage` on concrete input, in millivolts and their multiples in place of floats.
use sr_firmware.Base.{ℕ, ◌+◌, ◌-◌, ◌*◌, ◌/◌, leb, ltb, ◌≡◌, refl}
use sr_firmware.Motors.Voltage.{Floats, control_byte, clamp, dead_band, magnitude}
use sr_firmware.Motors.Scope.{forward_control, reverse_control, packed_controls, scope_set_controls}
use sr_firmware.Motors.ScopeControls.{both_motors, scope_set_controls-drives}
use sr_firmware.Battery.Samples.{board, start}
use sr_firmware.Motors.Drive.{IsDrive, control_byte-IsDrive}

-- A voltage in millivolts, over -10 V.
abbrev millivolts : Floats
millivolts = record {
  Float = ℕ;
  Double = ℕ;
  widen = λ x. x;
  narrow = λ x. x;
  float_of_int = λ n. 10000 + n;
  double_of_int = λ n. n;
  literal = λ n digits. 10000 + n * 10;
  negate = λ x. 20000 - x;
  fabs = λ x. (x - 10000) + (10000 - x);
  times_float = λ n x. (n - 10000) * x;
  times = λ n x. n * 1285;
  div = λ x y. x / y;
  minus = λ x y. x - y;
  less_equal = leb;
  less = ltb;
  less_float = ltb;
  to_int16 = λ x. x;
}

control_byte-IsDrive_example : IsDrive millivolts 7500 (control_byte millivolts 7500)
control_byte-IsDrive_example = control_byte-IsDrive millivolts 7500

-- 2.5 V back: the value 30, and IN1.
control_byte_back : control_byte millivolts 7500 ≡ 30 * 4 + 1
unfolding control_byte magnitude
control_byte_back = refl

control_byte_dead : control_byte millivolts (clamp millivolts (dead_band millivolts 10400)) ≡ 0
unfolding control_byte magnitude clamp dead_band
control_byte_dead = refl

scope_set_controls-drives_example :
    (scope_set_controls board (packed_controls (forward_control 0x7a) (forward_control 0x7a)) start
      ≡ both_motors board 0x7a start)
    × (scope_set_controls board
          (packed_controls (reverse_control 0x7a) (reverse_control 0x7a))
          start
        ≡ both_motors board 0x79 start)
    × (scope_set_controls board (packed_controls 0 0) start ≡ both_motors board 0 start)
scope_set_controls-drives_example = scope_set_controls-drives board 0x7a start
