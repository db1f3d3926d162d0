-- ===== src/Encoders.antt =====
-- src/quad_encoders.c, the quadrature encoders. The counts come from a PIO program.
pub mod Deltas
mod Tests
use sr_firmware.Base.{ℕ, ◌+◌, ◌-◌, ◌^◌, ◌%◌}
use sr_firmware.Machine.{◌>>=◌, ◌>>◌, pure}
use sr_firmware.Hardware.{Encoder, Io, act, ask, modify}
use sr_firmware.Hardware.Sdk.{PicoSdk, quadrature_encoder_program_init}

-- `ENCODER_1_CHANNEL_A` and `ENCODER_2_CHANNEL_A`
abbrev encoder_1_channel_a : ℕ
encoder_1_channel_a = 12

abbrev encoder_2_channel_a : ℕ
encoder_2_channel_a = 14

-- The loop's body once the count is read. The difference wraps; in C the subtraction of two `int32_t`
-- is undefined where it overflows.
unfoldable pub count : ℕ → Encoder → Encoder
count current e = record e {
  count_current = current;
  count_delta = (current + (2 ^ 32 - e.count_previous)) % 2 ^ 32;
  count_previous = current;
}

module _ (sdk : PicoSdk) where
  unfoldable pub encoder_init : Io sdk (Unit {0})
  encoder_init = do
    offset ← ask sdk sdk.pio_add_program
    act sdk (sdk.setup (quadrature_encoder_program_init 0 offset encoder_1_channel_a))
    act sdk (sdk.setup (quadrature_encoder_program_init 1 offset encoder_2_channel_a))

  unfoldable pub quad_encoder_get_count : ℕ → Io sdk ℕ
  quad_encoder_get_count encoder = ask sdk (sdk.quadrature_encoder_get_count encoder)

  unfoldable pub quad_encoder_update : Io sdk (Unit {0})
  quad_encoder_update = do
    first ← quad_encoder_get_count 0
    modify sdk (λ d. record d { encoders = (count first d.encoders.0, d.encoders.1) })
    second ← quad_encoder_get_count 1
    modify sdk (λ d. record d { encoders = (d.encoders.0, count second d.encoders.1) })
