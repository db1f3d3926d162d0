-- ===== src/Battery/Tests.antt =====
-- Checks of the battery gauge's configuration on concrete input.
use sr_firmware.Base.{◌≡◌, ◌≢◌, refl, arith, List, ℕ, [], ◌∷◌}
use sr_firmware.Battery.Block.{
  new_pack_config, new_pack_config_c, configured_block, byte_order, data_flash_checksum, byte_sum,
}
use sr_firmware.Battery.Block.{set_at}
use sr_firmware.Battery.Flash.{data_flash_checksum-detects}
use sr_firmware.Battery.{configure_host_interrupts}
use sr_firmware.Battery.Configure.{Configured, configure_host_interrupts-Configured}
use sr_firmware.Battery.Samples.{board, gauge, start}
use sr_firmware.Hardware.Runs.{Returned}

new_value : new_pack_config 0x2fff ≡ 0x1fff
unfolding new_pack_config
new_value = refl

old_value : new_pack_config 0x6fff ≡ 0x1fff
unfolding new_pack_config
old_value = refl

abbrev block : List ℕ
block = 0x12 ∷ 0x34 ∷ 0 ∷ 0xff ∷ []

order_found : byte_order 0x3412 block ≡ record { high_index = 1; low_index = 0 }
unfolding byte_order
order_found = refl

block_written :
    configured_block (record { high_index = 1; low_index = 0 }) block ≡ 0x12 ∷ 0x14 ∷ 0 ∷ 0xfe ∷ []
unfolding configured_block set_at new_pack_config new_pack_config_c
block_written = refl

checksum_value : data_flash_checksum block ≡ 0xba
unfolding data_flash_checksum byte_sum
checksum_value = refl

data_flash_checksum-detects_example :
    data_flash_checksum (0x12 ∷ 0x34 ∷ []) ≢ data_flash_checksum (0x12 ∷ 0x35 ∷ [])
data_flash_checksum-detects_example =
    data_flash_checksum-detects (0x12 ∷ []) [] 0x34 0x35 (omega arith) (omega arith)
      (λ same. absurd (omega (arith, same)))

configure_host_interrupts-Configured_example :
    Returned board
      (λ _ m'. Configured board gauge start.log (gauge.registers start.world.outside).block m')
      (configure_host_interrupts board start)
configure_host_interrupts-Configured_example =
    configure_host_interrupts-Configured board gauge start refl
