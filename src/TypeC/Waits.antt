-- ===== src/TypeC/Waits.antt =====
-- What the unit tests of src/max77958.c share: the checks of the bytes that an opcode has returned,
-- and the waits.
use Prim.Native.String.{String}
use sr_firmware.Base.{
  ℕ, zero, suc, ◌+◌, ◌*◌, ◌^◌, ◌!=◌, ltb, bit_or, Bool, List, [], get_or, if◌then◌else◌,
}
use sr_firmware.Machine.{pure, ◌>>=◌, ◌>>◌, halt}
use sr_firmware.Hardware.{Devices, Io, act, get, when, rp2040_log_e}
use sr_firmware.Hardware.Sdk.{PicoSdk}

module _ (sdk : PicoSdk) where
  -- `op_code_return_buf[i]`
  unfoldable pub returned : ℕ → Io sdk ℕ
  returned i = get sdk (λ d. get_or d.type_c.op_code_return_buf i 0)

  -- The message when `op_code_return_buf[i]` is not `value`.
  unfoldable pub expect : ℕ → ℕ → String → (ℕ → List ℕ) → Io sdk (Unit {0})
  expect i value message args = do
    byte ← returned i
    when sdk (byte != value) (rp2040_log_e sdk message (args byte))

  -- The message when the bytes `i` and `i + 1` of `op_code_return_buf` are not `value`, the low
  -- one first.
  unfoldable pub expect_word : ℕ → ℕ → String → Io sdk (Unit {0})
  expect_word i value message = do
    low ← returned i
    high ← returned (i + 1)
    when sdk (bit_or low (high * 2 ^ 8) != value) (rp2040_log_e sdk message [])

  -- The waits: a round past `limit` writes the message, and the loop goes on.
  unfoldable pub wait_rounds :
      (Devices sdk.World → Bool)
      → Io sdk (Unit {0})
      → ℕ
      → String
      → Io sdk (Unit {0})
      → ℕ
      → ℕ
      → Io sdk (Unit {0})
  wait_rounds done pause limit message meanwhile zero i = halt
  wait_rounds done pause limit message meanwhile (suc fuel) i = do
    let rest = wait_rounds done pause limit message meanwhile fuel (i + 1)
    over ← get sdk done
    let round = do
      pause
      meanwhile
      when sdk (ltb limit (i + 1)) (rp2040_log_e sdk message [])
      rest
    if over then pure tt else round

  unfoldable pub wait_opcodes : String → Io sdk (Unit {0}) → ℕ → Io sdk (Unit {0})
  wait_opcodes message meanwhile fuel =
      wait_rounds (λ d. d.type_c.opcodes_finished) (act sdk (sdk.sleep_ms 100)) 10 message meanwhile
        fuel 0
