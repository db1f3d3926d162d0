-- ===== src/Battery/Flash.antt =====
-- The checksum of a data flash block.
use sr_firmware.Base.{ℕ, ◌+◌, ◌-◌, ◌%◌, ◌<◌, ◌≡◌, ◌≢◌, ◌∙◌, arith, List, [], ◌∷◌, ◌++◌}
use sr_firmware.Battery.Block.{byte_sum, data_flash_checksum}

abbrev pub sum : List ℕ → ℕ
sum [] = 0
sum (b ∷ bs) = b + sum bs

byte_sum_lem : (bs : List ℕ) (s : ℕ) → s < 256 → byte_sum bs s ≡ (s + sum bs) % 256
unfolding byte_sum
byte_sum_lem [] s h = omega arith
byte_sum_lem (b ∷ bs) s h = byte_sum_lem bs ((s + b) % 256) (omega arith) ∙ omega arith

pub data_flash_checksum_lem : (block : List ℕ) → data_flash_checksum block ≡ 0xff - sum block % 256
unfolding data_flash_checksum
data_flash_checksum_lem block = let s = byte_sum_lem block 0 (omega arith) in omega (arith, s)

-- The checksum is a byte, and the bytes of the block and the checksum add up to 0xFF modulo 256.
data_flash_checksum-sum :
    (block : List ℕ)
    → ((sum block + data_flash_checksum block) % 256 ≡ 0xff) × (data_flash_checksum block < 256)
unfolding data_flash_checksum
data_flash_checksum-sum block =
    let s = byte_sum_lem block 0 (omega arith) in (omega (arith, s), omega (arith, s))

sum-append : (xs ys : List ℕ) → sum (xs ++ ys) ≡ sum xs + sum ys
sum-append [] ys = omega arith
sum-append (x ∷ xs) ys = omega (arith, sum-append xs ys)

-- A block in which one byte is another byte has another checksum.
pub data_flash_checksum-detects :
    (before after : List ℕ) (x y : ℕ)
    → x < 256
    → y < 256
    → x ≢ y
    → data_flash_checksum (before ++ x ∷ after) ≢ data_flash_checksum (before ++ y ∷ after)
unfolding data_flash_checksum
data_flash_checksum-detects before after x y hx hy ne same = omega (
  arith,
  byte_sum_lem (before ++ x ∷ after) 0 (omega arith),
  byte_sum_lem (before ++ y ∷ after) 0 (omega arith),
  sum-append before (x ∷ after),
  sum-append before (y ∷ after),
)
