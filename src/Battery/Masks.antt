-- ===== src/Battery/Masks.antt =====
-- The masks of include/bq27742_g1.h for the status and the flags, and the address.
use sr_firmware.Base.{ℕ, ◌^◌}

abbrev pub addr : ℕ
addr = 0x55

abbrev pub isd_mask : ℕ
isd_mask = 2 ^ 5

abbrev pub tdd_mask : ℕ
tdd_mask = 2 ^ 4

abbrev pub otc_mask : ℕ
otc_mask = 2 ^ 3

abbrev pub otd_mask : ℕ
otd_mask = 2 ^ 2

abbrev pub ovp_mask : ℕ
ovp_mask = 2 ^ 1

abbrev pub uvp_mask : ℕ
uvp_mask = 1

abbrev pub bathi_mask : ℕ
bathi_mask = 2 ^ 13

abbrev pub batlow_mask : ℕ
batlow_mask = 2 ^ 12

abbrev pub chg_inh_mask : ℕ
chg_inh_mask = 2 ^ 11

abbrev pub fc_mask : ℕ
fc_mask = 2 ^ 9

abbrev pub chg_sus_mask : ℕ
chg_sus_mask = 2 ^ 7

abbrev pub imax_mask : ℕ
imax_mask = 2 ^ 4

abbrev pub chg_mask : ℕ
chg_mask = 2 ^ 3

abbrev pub soc1_mask : ℕ
soc1_mask = 2 ^ 2

abbrev pub socf_mask : ℕ
socf_mask = 2 ^ 1

abbrev pub dsg_mask : ℕ
dsg_mask = 1
