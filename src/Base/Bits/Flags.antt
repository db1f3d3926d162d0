-- ===== src/Base/Bits/Flags.antt =====
-- Words put together from flags, one bit after the other.
use Prim.Native.Nat.{ℕ, ◌+◌, ◌*◌, ◌^◌, ◌<◌, bit_or}
use mathlib.Core.Bool.{Bool, true, false}
use mathlib.Core.Path.{◌≡◌}
use native.Mathlib.Omega.{arith}
use sr_firmware.Base.Bits.Fields.{bit_or_fields}

abbrev pub bit : Bool → ℕ
bit true = 1
bit false = 0

pub bit-lt : (b : Bool) → bit b < 2
bit-lt true = omega arith
bit-lt false = omega arith

-- A flag above the bits of `low`.
pub bit_or_flag :
    (k low : ℕ) (b : Bool) → low < 2 ^ k → bit_or low (bit b * 2 ^ k) ≡ low + bit b * 2 ^ k
bit_or_flag k low b h = bit_or_fields k low (bit b) h
