-- ===== src/Battery/Configure.antt =====
-- What `bq27742_g1_configure_host_interrupts` of src/bq27742_g1.c leaves in the data flash.
use sr_firmware.Base.{ℕ, Bool, true, ◌≡◌, refl, ap, ◌∙◌, sym, subst, List, [], ◌∷◌, length}
use sr_firmware.Machine.{pure, ◌>>=◌, ◌>>◌}
use sr_firmware.Log.{CircularBufferLog}
use sr_firmware.Hardware.{State, word16, act}
use sr_firmware.Hardware.Runs.{Runs, bind-Runs, if-Runs, Returned, Runs-Returned}
use sr_firmware.Hardware.Sdk.{PicoSdk}
use sr_firmware.Battery.{
  block_len, configure_block, configure_host_interrupts, get_pack_configuration, verify,
  read_data_flash_block, write_data_flash_block,
}
use sr_firmware.Battery.Block.{
  at, pack_config_at, new_pack_config, new_pack_config_c, configured_block,
}
use sr_firmware.Battery.Gauge.{Registers, Gauge}
use sr_firmware.Battery.Accesses.{
  Shows, get_pack_configuration-Shows, read_data_flash_block-Shows, write_data_flash_block-Shows,
  sleep-Shows,
}
use sr_firmware.Battery.Configured.{
  trm_order, IsConfigured, written-IsConfigured, order_lem, quiet_lem, verified_lem,
  already-IsConfigured,
}

module _ (sdk : PicoSdk) (gauge : Gauge sdk) (log : CircularBufferLog) where
  -- The data flash is configured, and nothing has been logged.
  pub record Configured (block : List ℕ) (m : State sdk) : Type 0 where
    pub same_log : m.log ≡ log
    pub configured : IsConfigured block (gauge.registers m.world.outside).block

  shown-Configured :
      (block : List ℕ) (r : Registers) (m : State sdk)
      → IsConfigured block r.block
      → Shows sdk gauge log r m
      → Configured block m
  shown-Configured block r m is s = record {
    same_log = s.same_log;
    configured = subst (λ (g : Registers). IsConfigured block g.block) (sym s.shown) is;
  }

  -- The block read back is the one written, and no message is logged.
  verify-Configured :
      (old block : List ℕ) (new new_c : ℕ) (got : Bool × List ℕ) (r : Registers) (m : State sdk)
      → IsConfigured old block
      → pack_config_at block 0 1 ≡ new
      → at block 3 ≡ new_c
      → r.block ≡ block
      → got ≡ (true, r.block)
      → Shows sdk gauge log r m
      → Runs sdk (λ _ m'. Configured old m') (verify sdk new new_c trm_order got m)
  unfolding verify Runs
  verify-Configured old block new new_c got r m is e ec same p s =
      subst (λ v. Runs sdk (λ _ m'. Configured old m') (verify sdk new new_c trm_order v m))
        (sym (p ∙ ap (λ b. (true, b)) same))
        (rw (verified_lem (pack_config_at block 0 1) new (at block 3) new_c e ec)
          (shown-Configured old r m (subst (IsConfigured old) (sym same) is) s))

  write-Configured :
      (r : Registers) (m : State sdk)
      → length r.block ≡ block_len
      → Shows sdk gauge log r m
      → Runs sdk
          (λ _ m'. Configured r.block m')
          ((do
            write_data_flash_block sdk 64 0 (configured_block trm_order r.block)
            act sdk (sdk.sleep_ms 10)
            verified ← read_data_flash_block sdk 64 0
            verify sdk
                (new_pack_config (pack_config_at r.block 0 1))
                (new_pack_config_c (at r.block 3))
                trm_order
                verified)
            m)
  write-Configured r m len s =
      let w = written-IsConfigured r.block len in
      let block = configured_block trm_order r.block in
      let Q : Unit {0} → State sdk → Type 0 = λ _ m'. Configured r.block m' in
      bind-Runs sdk _ Q (write_data_flash_block sdk 64 0 block m) _
        (write_data_flash_block-Shows sdk gauge log r block m w.3 s)
        (λ _ m1 s1.
          bind-Runs sdk _ Q (act sdk (sdk.sleep_ms 10) m1) _ (sleep-Shows sdk gauge log 10 _ m1 s1)
            (λ _ m2 s2.
              bind-Runs sdk _ Q (read_data_flash_block sdk 64 0 m2) _
                (read_data_flash_block-Shows sdk gauge log _ m2 s2)
                (λ verified m3 p.
                  verify-Configured r.block block _ _ verified _ m3 w.0 w.1 w.2 refl p.0 p.1)))

  configure_block-Configured :
      (r : Registers) (m : State sdk)
      → length r.block ≡ block_len
      → Shows sdk gauge log r m
      → Runs sdk
          (λ _ m'. Configured r.block m')
          (configure_block sdk (word16 (at r.block 1 ∷ at r.block 0 ∷ [])) r.block m)
  unfolding configure_block Runs
  configure_block-Configured r m len s =
      let Q : Unit {0} → State sdk → Type 0 = λ _ m'. Configured r.block m' in
      rw (quiet_lem r.block, order_lem r.block)
        (if-Runs sdk Q _ _ (pure tt) m (λ _. write-Configured r m len s)
          (λ e. shown-Configured r.block r m (already-IsConfigured r.block e) s))

  configure-Configured :
      (r : Registers) (m : State sdk)
      → length r.block ≡ block_len
      → Shows sdk gauge log r m
      → Runs sdk (λ _ m'. Configured r.block m') (configure_host_interrupts sdk m)
  unfolding configure_host_interrupts
  configure-Configured r m len s =
      let Q : Unit {0} → State sdk → Type 0 = λ _ m'. Configured r.block m' in
      bind-Runs sdk _ Q (get_pack_configuration sdk m) _
        (get_pack_configuration-Shows sdk gauge log r m s)
        (λ pack_config m1 p1.
          bind-Runs sdk _ Q (read_data_flash_block sdk 64 0 m1) _
            (read_data_flash_block-Shows sdk gauge log _ m1 p1.1)
            (λ first m2 p2. rw (p2.0, p1.0) (configure_block-Configured _ m2 len p2.1)))

module _ (sdk : PicoSdk) (gauge : Gauge sdk) where
  -- On a gauge that keeps what its data flash is sent, `bq27742_g1_configure_host_interrupts`
  -- returns, without a message in the log, from every block of 32 bytes; the block then has HOSTIE
  -- set, HOSTIPU, HOSTIPOL and BTP_EN clear, and all other bits and bytes as they were.
  pub configure_host_interrupts-Configured :
      (m : State sdk)
      → length (gauge.registers m.world.outside).block ≡ block_len
      → Returned sdk
          (λ _ m'. Configured sdk gauge m.log (gauge.registers m.world.outside).block m')
          (configure_host_interrupts sdk m)
  configure_host_interrupts-Configured m len = Runs-Returned sdk _ _ (
      configure-Configured sdk gauge m.log (gauge.registers m.world.outside) m len
        (record { same_log = refl; shown = refl }))
