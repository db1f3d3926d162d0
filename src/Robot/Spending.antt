-- ===== src/Robot/Spending.antt =====
-- The programs of src/max77958.c that add entries to the queues, with the places that they need.
use Prim.Native.String.{String}
use sr_firmware.Base.{Bool, true, ℕ, ◌^◌, ◌+◌, ◌==◌, ◌≤◌, Option, none, some, arith}
use sr_firmware.Hardware.{Io, when}
use sr_firmware.Machine.{◌>>◌, ◌>>=◌, pure}
use sr_firmware.Hardware.Sdk.{PicoSdk, Entry}
use sr_firmware.TypeC.Interrupts
use sr_firmware.TypeC.Interrupts.{mark}
use sr_firmware.TypeC.Opcodes
use sr_firmware.TypeC.Registers
use sr_firmware.TypeC.Registers.{Constants}
use sr_firmware.Robot.Places.{
  Places, Spends, pure-Spends, bind-Spends, keep-Spends, take-Spends, fewer-Spends, get-Spends,
  log_e-Spends, if-Spends,
}
use sr_firmware.Robot.QueueCalls.{
  spends, opcode_remove-Spends, try_add-Spends, call_queue_try_add-Spends, opcode_queue_add-Spends,
}
use sr_firmware.Robot.Returns.{Answers}

module _ (sdk : PicoSdk) (places : Places sdk) (const : Constants) where
  forward-Spends :
      (c o : ℕ) (entry : Option (Entry × ℕ))
      → Spends sdk places (c + 1) o c o (Opcodes.forward sdk const entry)
  unfolding Opcodes.forward
  forward-Spends c o none =
      fewer-Spends sdk places (c + 1) o (c + 1) o c o _ (omega arith) (omega arith)
        (pure-Spends sdk places (c + 1) o _)
  forward-Spends c o (some (func, arg)) =
      search (try_add-Spends, take-Spends, keep-Spends, if-Spends, pure-Spends, log_e-Spends) depth
        8

  pop-Spends : (c o : ℕ) → Spends sdk places (c + 1) o c o (Opcodes.opcode_queue_pop sdk const)
  unfolding Opcodes.opcode_queue_pop
  pop-Spends c o = search (keep-Spends, opcode_remove-Spends, forward-Spends)

  add_and_start-Spends :
      (c o : ℕ) (func : Entry) (arg : ℕ)
      → Spends sdk places
          (c + 1)
          (o + 1)
          c
          o
          (Opcodes.opcode_queue_add sdk const func arg >> Opcodes.opcode_queue_start sdk const)
  unfolding Opcodes.opcode_queue_start
  add_and_start-Spends c o func arg =
      bind-Spends sdk places (c + 1) (o + 1) (c + 1) o c o _ _
        (opcode_queue_add-Spends sdk places const (c + 1) o func arg)
        (λ _.
          take-Spends sdk places (c + 1) o c o _ _ (pop-Spends c o)
            (λ _. pure-Spends sdk places c o tt))

  vbus_turn_off-Spends :
      (c o : ℕ) → Spends sdk places (c + 1) (o + 1) c o (Opcodes.vbus_turn_off sdk const)
  unfolding Opcodes.vbus_turn_off
  vbus_turn_off-Spends c o = add_and_start-Spends c o _ _

  vbus_turn_on-Spends :
      (c o : ℕ) → Spends sdk places (c + 1) (o + 1) c o (Opcodes.vbus_turn_on sdk const)
  unfolding Opcodes.vbus_turn_on
  vbus_turn_on-Spends c o = add_and_start-Spends c o _ _

  -- A part that may be left out.
  when-Spends :
      (c o c' o' : ℕ) (b : Bool) (io : Io sdk (Unit {0}))
      → c' ≤ c
      → o' ≤ o
      → Spends sdk places c o c' o' io
      → Spends sdk places c o c' o' (when sdk b io)
  when-Spends c o c' o' b io h h' s =
      if-Spends sdk places c o c' o' b _ _ s
        (fewer-Spends sdk places c o c o c' o' _ h h' (pure-Spends sdk places c o tt))

  maybe_off-Spends :
      (c o : ℕ) (b : Bool)
      → Spends sdk places (c + 1) (o + 1) c o (when sdk b (Opcodes.vbus_turn_off sdk const))
  maybe_off-Spends c o b =
      when-Spends (c + 1) (o + 1) c o b _ (omega arith) (omega arith) (vbus_turn_off-Spends c o)

  maybe_on-Spends :
      (c o : ℕ) (b : Bool)
      → Spends sdk places (c + 1) (o + 1) c o (when sdk b (Opcodes.vbus_turn_on sdk const))
  maybe_on-Spends c o b =
      when-Spends (c + 1) (o + 1) c o b _ (omega arith) (omega arith) (vbus_turn_on-Spends c o)

  module _ (bus : Answers sdk) where
    fetch-Spends : (c o reg len : ℕ) → Spends sdk places c o c o (Registers.fetch sdk const reg len)
    unfolding Registers.fetch Registers.set_state
    fetch-Spends c o reg len = search (spends) depth 8

    opcode_read-Spends : (c o : ℕ) → Spends sdk places c o c o (Opcodes.opcode_read sdk const)
    unfolding Opcodes.opcode_read Registers.set_state
    opcode_read-Spends c o = search (spends) depth 8

    on_opcode_cmd_response-Spends :
        (c o : ℕ) → Spends sdk places (c + 1) o c o (Interrupts.on_opcode_cmd_response sdk const)
    unfolding Interrupts.on_opcode_cmd_response Registers.set_state
    on_opcode_cmd_response-Spends c o = search (spends, opcode_read-Spends, pop-Spends) depth 12

    on_pd_msg_received-Spends :
        (c o : ℕ) → Spends sdk places (c + 1) o c o (Interrupts.on_pd_msg_received sdk const)
    unfolding Interrupts.on_pd_msg_received
    on_pd_msg_received-Spends c o = call_queue_try_add-Spends sdk places c o _ _

    report_cc_status1-Spends :
        (c o cc_status1 mask : ℕ) (message : String)
        → Spends sdk places c o c o (Interrupts.report_cc_status1 sdk const cc_status1 mask message)
    unfolding Interrupts.report_cc_status1
    report_cc_status1-Spends c o cc_status1 mask message = search (spends)

    on_ccstat_change-Spends :
        (c o : ℕ) → Spends sdk places (c + 1) (o + 1) c o (Interrupts.on_ccstat_change sdk const)
    unfolding Interrupts.on_ccstat_change
    on_ccstat_change-Spends c o =
        search (spends, fetch-Spends, maybe_off-Spends, report_cc_status1-Spends) depth 24

    serve-Spends :
        (c o c' o' i mask : ℕ) (handler : Io sdk (Unit {0}))
        → c' ≤ c
        → o' ≤ o
        → Spends sdk places c o c' o' handler
        → Spends sdk places c o c' o' (Interrupts.serve sdk const i mask handler)
    unfolding Interrupts.serve Interrupts.pending
    serve-Spends c o c' o' i mask handler h h' s =
        bind-Spends sdk places c o c o c' o' _ _ (get-Spends sdk places c o _) (λ on.
          bind-Spends sdk places c o c' o' c' o' _ _ (when-Spends c o c' o' on handler h h' s)
            (λ _. pure-Spends sdk places c' o' on))

    -- A test whose handler takes no place.
    serve_kept-Spends :
        (c o i mask : ℕ) (handler : Io sdk (Unit {0}))
        → Spends sdk places c o c o handler
        → Spends sdk places c o c o (Interrupts.serve sdk const i mask handler)
    serve_kept-Spends c o i mask handler s =
        serve-Spends c o c o i mask handler (omega arith) (omega arith) s

    on_chgtype_change-Spends :
        (c o : ℕ) → Spends sdk places c o c o (Interrupts.on_chgtype_change sdk const)
    unfolding Interrupts.on_chgtype_change
    on_chgtype_change-Spends c o = fetch-Spends c o _ 1

    -- The last three tests, and the answer.
    marks-Spends :
        (cc : ℕ)
        → Spends sdk places 0 0 0 0 (do
          cc_vcn_stat ← Interrupts.serve sdk const 1 (2 ^ 1) (pure tt)
          cc_i_stat ← Interrupts.serve sdk const 1 (2 ^ 2) (pure tt)
          cc_pin_stat ← Interrupts.serve sdk const 1 (2 ^ 3) (pure tt)
          let return_val = mark cc_pin_stat 7 (mark cc_i_stat 6 (mark cc_vcn_stat 5 cc))
          when sdk
              (return_val == 0)
              (Registers.set_state sdk (λ s. record s { interrupt_bool = true }))
          pure return_val)
    unfolding Registers.set_state
    marks-Spends cc = search (spends, serve_kept-Spends) depth 24

    -- The entries of the message, of the opcode that is popped and of the one that CCStat starts.
    pub parse_interrupt_vals-Spends :
        Spends sdk places 3 1 0 0 (Interrupts.parse_interrupt_vals sdk const)
    unfolding Interrupts.parse_interrupt_vals Registers.set_state Registers.get_interrupt_vals
    parse_interrupt_vals-Spends = keep-Spends sdk places 3 1 0 0 _ _ (fetch-Spends 3 1 _ 4) (λ _.
        bind-Spends sdk places 3 1 2 1 0 0 _ _
          (serve-Spends 3 1 2 1 0 (2 ^ 7) _ (omega arith) (omega arith)
            (on_opcode_cmd_response-Spends 2 1))
          (λ ap_cmd_res.
            keep-Spends sdk places 2 1 0 0 _ _
              (serve_kept-Spends 2 1 2 (2 ^ 6) _ (pure-Spends sdk places 2 1 tt))
              (λ ps_rdy.
                bind-Spends sdk places 2 1 1 1 0 0 _ _
                  (serve-Spends 2 1 1 1 2 (2 ^ 7) _ (omega arith) (omega arith)
                    (on_pd_msg_received-Spends 1 1))
                  (λ pd_msg.
                    keep-Spends sdk places 1 1 0 0 _ _
                      (serve_kept-Spends 1 1 0 (2 ^ 1) _ (on_chgtype_change-Spends 1 1))
                      (λ chg_type.
                        take-Spends sdk places 1 1 0 0 _ _
                          (serve-Spends 1 1 0 0 1 (2 ^ 0) _ (omega arith) (omega arith)
                            (on_ccstat_change-Spends 0 0))
                          (λ cc_stat. marks-Spends _))))))

    pub pd_message-Spends : Spends sdk places 1 1 0 0 (Interrupts.pd_message sdk const)
    unfolding Interrupts.pd_message
    pd_message-Spends = keep-Spends sdk places 1 1 0 0 _ _ (fetch-Spends 1 1 _ 1) (λ _.
        keep-Spends sdk places 1 1 0 0 _ _ (get-Spends sdk places 1 1 _) (λ message.
          if-Spends sdk places 1 1 0 0 (message == const.pdmsg_prswap_swaptosnk) _ _
            (vbus_turn_off-Spends 0 0)
            (maybe_on-Spends 0 0 (message == const.pdmsg_prswap_swaptosrc))))
