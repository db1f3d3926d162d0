-- ===== src/Charger/Registers.antt =====
-- The registers of include/max77976.h that src/max77976.c writes, and their values, under the names of
-- the header without the prefix.
use sr_firmware.Base.{ℕ}

abbrev pub addr : ℕ
addr = 0x6b

abbrev pub reg_chg_int : ℕ
reg_chg_int = 0x10

abbrev pub reg_chg_int_mask : ℕ
reg_chg_int_mask = 0x11

abbrev pub cnfg_00_addr : ℕ
cnfg_00_addr = 0x16

abbrev pub mode_charge_buck : ℕ
mode_charge_buck = 0x5

abbrev pub cnfg_02_addr : ℕ
cnfg_02_addr = 0x18

abbrev pub chg_cc_1250 : ℕ
chg_cc_1250 = 0x19

abbrev pub cnfg_08_addr : ℕ
cnfg_08_addr = 0x1e

abbrev pub cnfg_08_reset : ℕ
cnfg_08_reset = 0x2

abbrev pub fsw_lsb : ℕ
fsw_lsb = 1

abbrev pub fsw_2p6 : ℕ
fsw_2p6 = 0

abbrev pub cnfg_09_addr : ℕ
cnfg_09_addr = 0x1f

abbrev pub cnfg_09_reset : ℕ
cnfg_09_reset = 0x89

abbrev pub chgin_ilim_lsb : ℕ
chgin_ilim_lsb = 0

abbrev pub chgin_ilim_msb : ℕ
chgin_ilim_msb = 5

abbrev pub chgin_ilim_3000 : ℕ
chgin_ilim_3000 = 0x3b

abbrev pub int_buf_len : ℕ
int_buf_len = 3
