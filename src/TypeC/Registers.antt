-- ===== src/TypeC/Registers.antt =====
-- The register access of src/max77958.c. The constants of max77958_driver.h, which the repository
-- does not hold, are a record.
use sr_firmware.Base.{ℕ, false, [], ◌∷◌, take, get_or}
use sr_firmware.Machine.{◌>>=◌, ◌>>◌}
use sr_firmware.Hardware.{TypeCState, Io, get, modify, read_register, i2c_write_error_handling}
use sr_firmware.Hardware.Sdk.{PicoSdk}

pub record Constants : Type 0 where
  pub slave_p1 : ℕ
  pub reg_uic_int : ℕ
  pub reg_uic_int_m : ℕ
  pub reg_pd_status0 : ℕ
  -- `OPCODE_WRITE`
  pub write_register : ℕ
  pub opcode_read_command : ℕ
  pub opcode_set_gpio : ℕ
  pub opcode_set_source_cap : ℕ
  pub opcode_snk_pdo_set : ℕ
  pub pdmsg_prswap_swaptosnk : ℕ
  pub pdmsg_prswap_swaptosrc : ℕ

-- `MAX77958_INTB`, which `max77958_init` is called with.
abbrev pub gpio_interrupt : ℕ
gpio_interrupt = 7

abbrev pub i2c0 : ℕ
i2c0 = 0

module _ (sdk : PicoSdk) where
  -- An assignment to the static variables of the file.
  unfoldable pub set_state : (TypeCState → TypeCState) → Io sdk (Unit {0})
  set_state f = modify sdk (λ d. record d { type_c = f d.type_c })

module _ (sdk : PicoSdk) (const : Constants) where
  -- `send_buf` and `return_buf` are cleared, then `return_buf` takes `len` bytes from register
  -- `reg` on.
  unfoldable pub fetch : ℕ → ℕ → Io sdk (Unit {0})
  fetch reg len = do
    bytes ← read_register sdk i2c0 const.slave_p1 reg len
    set_state sdk (λ s. record s { return_buf = take len bytes })

  unfoldable pub get_interrupt_vals : Io sdk (Unit {0})
  get_interrupt_vals = fetch const.reg_uic_int 4

  unfoldable pub get_interrupt_masks : Io sdk (Unit {0})
  get_interrupt_masks = fetch const.reg_uic_int_m 4

  unfoldable pub set_interrupt_masks_all_masked : Io sdk (Unit {0})
  set_interrupt_masks_all_masked =
      i2c_write_error_handling sdk i2c0 const.slave_p1
        (const.reg_uic_int_m ∷ 0xff ∷ 0xff ∷ 0xff ∷ []) false

  unfoldable pub set_interrupt_masks : Io sdk (Unit {0})
  set_interrupt_masks =
      i2c_write_error_handling sdk i2c0 const.slave_p1
        (const.reg_uic_int_m ∷ 0x04 ∷ 0x00 ∷ 0x3f ∷ []) false

  unfoldable pub read_reg : ℕ → Io sdk (Unit {0})
  read_reg reg = fetch reg 1

  -- `max77958_read_register`
  unfoldable pub read_value : ℕ → Io sdk ℕ
  read_value reg = do fetch reg 1; get sdk (λ d. get_or d.type_c.return_buf 0 0)
