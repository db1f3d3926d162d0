-- ===== src/TypeC/Interrupts.antt =====
-- The interrupts of src/max77958.c. The handlers that only write messages below WARNING are left
-- out.
use Prim.Native.String.{String}
use sr_firmware.Base.{
  ℕ, ◌^◌, ◌==◌, bit_and, bit_or, Bool, true, not, ◌||◌, [], get_or, if◌then◌else◌,
}
use sr_firmware.Machine.{pure, ◌>>=◌, ◌>>◌}
use sr_firmware.Hardware.{
  Io, act, get, when, flagged, rp2040_log_e, call_queue_try_add, gpio_irq_edge_fall,
}
use sr_firmware.Hardware.Sdk.{
  PicoSdk, gpio_acknowledge_irq, max77958_parse_interrupt_vals, max77958_test_response,
  pd_msg_response,
}
use sr_firmware.TypeC.Registers.{Constants, gpio_interrupt, set_state, fetch, get_interrupt_vals}
use sr_firmware.TypeC.Opcodes.{opcode_read, opcode_queue_pop, vbus_turn_off, vbus_turn_on}

-- `return_val` after an interrupt with the bit `i` of the answer.
abbrev pub mark : Bool → ℕ → ℕ → ℕ
mark on i return_val = if on then bit_or return_val (2 ^ i) else return_val

module _ (sdk : PicoSdk) (const : Constants) where
  -- `max77958_on_interrupt`
  unfoldable pub on_interrupt : ℕ → ℕ → Io sdk (Unit {0})
  on_interrupt gpio event_mask = when sdk (flagged event_mask gpio_irq_edge_fall) (do
    act sdk (sdk.gpio (gpio_acknowledge_irq gpio_interrupt gpio_irq_edge_fall))
    call_queue_try_add sdk max77958_parse_interrupt_vals 0
    testing ← get sdk (λ d. d.type_c.test_started)
    when sdk testing (call_queue_try_add sdk max77958_test_response 1))

  unfoldable pub on_pd_msg_received : Io sdk (Unit {0})
  on_pd_msg_received = call_queue_try_add sdk pd_msg_response 0

  unfoldable pub on_opcode_cmd_response : Io sdk (Unit {0})
  on_opcode_cmd_response = do
    opcode_read sdk const
    popped ← opcode_queue_pop sdk const
    when sdk (not popped) (set_state sdk (λ s. record s { opcodes_finished = true }))

  unfoldable pub report_cc_status1 : ℕ → ℕ → String → Io sdk (Unit {0})
  report_cc_status1 cc_status1 mask message =
      when sdk (flagged cc_status1 mask) (rp2040_log_e sdk message [])

  unfoldable pub on_ccstat_change : Io sdk (Unit {0})
  on_ccstat_change = do
    fetch sdk const 0x0c 2
    buf ← get sdk (λ d. d.type_c.return_buf)
    let ccstat = bit_and (get_or buf 0 0) 0x07
    let cc_status1 = get_or buf 1 0
    when sdk (ccstat == 0 || ccstat == 1) (vbus_turn_off sdk const)
    report_cc_status1 cc_status1 0x02 "ERROR: CCStat: Moisture detected on CC (Wtr=1)\n"
    report_cc_status1 cc_status1 0x04 "ERROR: CCStat: Charger detection aborted (DetAbrt=1)\n"
    report_cc_status1 cc_status1 0x08 "ERROR: CCStat: VBUS overvoltage detected (VSafeOV=1)\n"
    report_cc_status1 cc_status1 0x10 "ERROR: CCStat: VCONN short-circuit detected (VCONN_SC=1)\n"
    report_cc_status1 cc_status1 0x20 "ERROR: CCStat: VCONN overcurrent detected (VCONN_OCP=1)\n"

  -- The type read only chooses a message below WARNING.
  unfoldable pub on_chgtype_change : Io sdk (Unit {0})
  on_chgtype_change = fetch sdk const 0x0a 1

  -- `UIC_INT`, `CC_INT` and `PD_INT` are the bytes 0, 1 and 2 of `return_buf`: `i` is the byte,
  -- read anew at each test.
  unfoldable pub pending : ℕ → ℕ → Io sdk Bool
  pending i mask = get sdk (λ d. flagged (get_or d.type_c.return_buf i 0) mask)

  -- One test of `parse_interrupt_vals` with its handler.
  unfoldable pub serve : ℕ → ℕ → Io sdk (Unit {0}) → Io sdk Bool
  serve i mask handler = do on ← pending i mask; when sdk on handler; pure on

  unfoldable pub parse_interrupt_vals : Io sdk ℕ
  parse_interrupt_vals = do
    get_interrupt_vals sdk const
    ap_cmd_res ← serve 0 (2 ^ 7) on_opcode_cmd_response
    ps_rdy ← serve 2 (2 ^ 6) (pure tt)
    pd_msg ← serve 2 (2 ^ 7) on_pd_msg_received
    chg_type ← serve 0 (2 ^ 1) on_chgtype_change
    cc_stat ← serve 1 (2 ^ 0) on_ccstat_change
    cc_vcn_stat ← serve 1 (2 ^ 1) (pure tt)
    cc_i_stat ← serve 1 (2 ^ 2) (pure tt)
    cc_pin_stat ← serve 1 (2 ^ 3) (pure tt)
    let pd = mark pd_msg 2 (mark ps_rdy 1 (mark ap_cmd_res 0 0))
    let cc = mark cc_vcn_stat 5 (mark cc_stat 4 (mark chg_type 3 pd))
    let return_val = mark cc_pin_stat 7 (mark cc_i_stat 6 cc)
    when sdk (return_val == 0) (set_state sdk (λ s. record s { interrupt_bool = true }))
    pure return_val

  unfoldable pub pd_message : Io sdk (Unit {0})
  pd_message = do
    fetch sdk const const.reg_pd_status0 1
    message ← get sdk (λ d. get_or d.type_c.return_buf 0 0)
    if message == const.pdmsg_prswap_swaptosnk
        then vbus_turn_off sdk const
        else when sdk (message == const.pdmsg_prswap_swaptosrc) (vbus_turn_on sdk const)

  -- `max77958_test_response`
  unfoldable pub test_response : Io sdk (Unit {0})
  test_response = set_state sdk (λ s. record s { test_completed = true })
