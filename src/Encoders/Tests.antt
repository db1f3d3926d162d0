-- ===== src/Encoders/Tests.antt =====
-- Checks of the encoders on concrete input.
use sr_firmware.Base.{true, ℕ, ◌+◌, ◌*◌, ◌%◌, ◌^◌, [], ◌≡◌, refl, arith}
use sr_firmware.Hardware.{State}
use sr_firmware.Hardware.Samples.{still, at_rest, board_of}
use sr_firmware.Hardware.Sdk.{PicoSdk, stop_core1}
use sr_firmware.Encoders.{count}
use sr_firmware.Encoders.Deltas.{readings, rounds, IsTracked, quad_encoder_update-IsTracked}

-- A counter that goes on by 4 at each reading, and wraps around soon.
abbrev counting : PicoSdk
counting =
    record (board_of {W = ℕ} (record {
      write = λ src w. w;
      read = λ w. [];
      signal = λ call w. w;
      add = λ queue func arg w. (true, w);
      remove = λ w. ((stop_core1, 0), w);
    })) { quadrature_encoder_get_count = λ sm w. ((4294967280 + w * 4) % 2 ^ 32, w + 1) }

abbrev start : State counting
start = at_rest 0

quad_encoder_update-IsTracked_example :
    IsTracked counting start (readings counting 4 0) (rounds counting 4 start)
quad_encoder_update-IsTracked_example =
    quad_encoder_update-IsTracked counting (λ sm w. omega arith) 4 start (omega arith) (omega arith)

-- A step back over zero.
count_back : (count 4294967290 (count 5 still)).count_delta ≡ 4294967285
unfolding count
count_back = refl
