-- ===== src/Battery/Block.antt =====
-- The data flash block of src/bq27742_g1.c: its checksum, and the configuration that is written
-- into it.
use sr_firmware.Base.{
  ℕ, zero, suc, ◌+◌, ◌-◌, ◌*◌, ◌/◌, ◌%◌, ◌^◌, ◌==◌, ◌!=◌, bit_and, bit_or, get_or, if◌then◌else◌,
  ◌&&◌, List, [], ◌∷◌,
}
use sr_firmware.BitOps.{bit_not}

-- `bq27742_g1_data_flash_checksum`: the loop over `block_data`, with the bytes that are left.
unfoldable pub byte_sum : List ℕ → ℕ → ℕ
byte_sum [] sum = sum
byte_sum (b ∷ bs) sum = byte_sum bs ((sum + b) % 2 ^ 8)

unfoldable pub data_flash_checksum : List ℕ → ℕ
unfolding byte_sum
data_flash_checksum block_data = 0xff - byte_sum block_data 0

-- Where the two bytes of PackConfiguration lie in the data flash.
pub record ByteOrder : Type 0 where
  pub high_index : ℕ
  pub low_index : ℕ

abbrev pub at : List ℕ → ℕ → ℕ
at block i = get_or block i 0

-- `(block_data[high] << 8) | block_data[low]`
abbrev pub pack_config_at : List ℕ → ℕ → ℕ → ℕ
pack_config_at block high low = bit_or (at block high * 2 ^ 8) (at block low)

unfoldable pub byte_order : ℕ → List ℕ → ByteOrder
byte_order pack_config block =
    let le = pack_config_at block 1 0 in
    let be = pack_config_at block 0 1 in
    if le == pack_config && be != pack_config
    then record { high_index = 1; low_index = 0 }
    else record { high_index = 0; low_index = 1 }

-- HOSTIE set, HOSTIPU and HOSTIPOL cleared.
unfoldable pub new_pack_config : ℕ → ℕ
new_pack_config old =
    let with_ie = bit_or old (2 ^ 12) % 2 ^ 16 in
    let without_ipu = bit_and with_ie (bit_not (2 ^ 14)) % 2 ^ 16 in
    bit_and without_ipu (bit_not (2 ^ 13)) % 2 ^ 16

-- BTP_EN cleared.
unfoldable pub new_pack_config_c : ℕ → ℕ
new_pack_config_c old = bit_and old (bit_not (2 ^ 0)) % 2 ^ 8

-- `a[i] = v`
unfoldable pub set_at : List ℕ → ℕ → ℕ → List ℕ
set_at [] i v = []
set_at (x ∷ xs) zero v = v ∷ xs
set_at (x ∷ xs) (suc i) v = x ∷ set_at xs i v

-- The block that `bq27742_g1_configure_host_interrupts` writes back.
unfoldable pub configured_block : ByteOrder → List ℕ → List ℕ
unfolding set_at new_pack_config new_pack_config_c
configured_block order block =
    let new = new_pack_config (pack_config_at block order.high_index order.low_index) in
    let with_high = set_at block order.high_index (bit_and (new / 2 ^ 8) 0xff) in
    let with_low = set_at with_high order.low_index (bit_and new 0xff) in
    set_at with_low 3 (new_pack_config_c (at block 3))
