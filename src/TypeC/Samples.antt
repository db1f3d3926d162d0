-- ===== src/TypeC/Samples.antt =====
-- Test data: values for the constants of the Type-C controller.
use sr_firmware.TypeC.Registers.{Constants}

abbrev pub constants : Constants
constants = record {
  slave_p1 = 0x25;
  reg_uic_int = 4;
  reg_uic_int_m = 0x10;
  reg_pd_status0 = 0xe;
  write_register = 0x21;
  opcode_read_command = 0x51;
  opcode_set_gpio = 0x24;
  opcode_set_source_cap = 0x31;
  opcode_snk_pdo_set = 0x3c;
  pdmsg_prswap_swaptosnk = 5;
  pdmsg_prswap_swaptosrc = 6;
}
