-- ===== src/Charger/Device.antt =====
-- What `max77976_init` of src/max77976.c leaves in a charger that keeps what its registers are sent.
use sr_firmware.Base.{ℕ, true, false, [], ◌∷◌, ◌≡◌, refl, ap, ap₂, ◌∙◌}
use sr_firmware.Machine.{pure, ◌>>=◌, ◌>>◌}
use sr_firmware.Log.{CircularBufferLog}
use sr_firmware.Hardware.{
  State, Io, act, gpio_irq_edge_fall, read_register, i2c_write_error_handling,
}
use sr_firmware.Hardware.Device
use sr_firmware.Hardware.Runs.{Runs, bind-Runs, weaken-Runs, Returned, Runs-Returned}
use sr_firmware.Hardware.Sdk.{
  PicoSdk, Gpio, gpio_init, gpio_put, gpio_pull_up, gpio_set_dir, gpio_set_irq_enabled,
}
use sr_firmware.Charger.{
  gpio_interrupt, write_register, get_interrupt_vals, set_interrupt_masks, max77976_init, cnfg_08,
  cnfg_09,
}
use sr_firmware.Charger.Registers.{
  addr, cnfg_00_addr, mode_charge_buck, cnfg_02_addr, chg_cc_1250, cnfg_08_addr, cnfg_09_addr,
}
use sr_firmware.Charger.Settings.{Settings, ChargerDevice, wanted, bytes_lem}

module _ (sdk : PicoSdk) (device : ChargerDevice sdk) (log : CircularBufferLog) where
  abbrev pub Set : Settings → State sdk → Type 0
  Set = Device.Shows sdk device.settings log

  gpio-Set :
      (call : Gpio) (s : Settings) (m : State sdk)
      → Set s m
      → Runs sdk (λ _ m'. Set s m') (act sdk (sdk.gpio call) m)
  gpio-Set call s m h =
      Device.act-Shows sdk device.settings log (sdk.gpio call) s m
        (device.pins_keep call m.world.outside) h

  get_interrupt_vals-Set :
      (s : Settings) (m : State sdk)
      → Set s m
      → Runs sdk (λ _ m'. Set s m') (get_interrupt_vals sdk m)
  unfolding get_interrupt_vals read_register
  get_interrupt_vals-Set s m h =
      bind-Runs sdk _ _ (i2c_write_error_handling sdk 1 addr (0x10 ∷ []) true m) _
        (Device.write-Shows sdk device.settings log 1 addr (0x10 ∷ []) true s s m
          (device.write_acked _ true m.world.outside)
          (device.choosing_keeps 0x10 m.world.outside ∙ h.shown) h)
        (λ _ m' h'.
          weaken-Runs sdk _ _ _
            (Device.read-Shows sdk device.settings log 1 addr 3 false s _ m'
              (device.read_acked 3 false m'.world.outside)
              (device.reads_keep 3 false m'.world.outside) refl h')
            (λ _ m'' p. p.1))

  set_interrupt_masks-Set :
      (s : Settings) (m : State sdk)
      → Set s m
      → Runs sdk (λ _ m'. Set (record s { int_mask = 0xbf }) m') (set_interrupt_masks sdk m)
  unfolding set_interrupt_masks
  set_interrupt_masks-Set s m h = rw (bytes_lem.0) (
      Device.write-Shows sdk device.settings log 1 addr (0x11 ∷ 0xbf ∷ 0 ∷ 0 ∷ []) false s _ m
        (device.write_acked _ false m.world.outside)
        (device.sets_int_mask 0xbf m.world.outside
          ∙ ap (λ (g : Settings). record g { int_mask = 0xbf }) h.shown)
        h)

  write_register-Set :
      (reg value : ℕ) (s s' : Settings) (m : State sdk)
      → ((w : sdk.World)
          → device.settings w ≡ s
          → device.settings (sdk.i2c_write_timeout_us 1 addr (reg ∷ value ∷ []) false w).1 ≡ s')
      → Set s m
      → Runs sdk (λ _ m'. Set s' m') (write_register sdk reg value m)
  unfolding write_register
  write_register-Set reg value s s' m law h =
      Device.write-Shows sdk device.settings log 1 addr (reg ∷ value ∷ []) false s s' m
        (device.write_acked _ false m.world.outside) (law m.world.outside h.shown) h

  -- A call, and what follows it.
  then-Set :
      {A : Type 0} (Q : Unit {0} → State sdk → Type 0) (s : Settings) (io : Io sdk A)
      (next : A → Io sdk (Unit {0})) (m : State sdk)
      → Runs sdk (λ _ m'. Set s m') (io m)
      → ((a : A) (m' : State sdk) → Set s m' → Runs sdk Q (next a m'))
      → Runs sdk Q ((io >>= next) m)
  then-Set Q s io next m p rest = bind-Runs sdk (λ _ m'. Set s m') Q (io m) next p rest

  -- The registers are unlocked, written and locked.
  write_all-Set :
      (s : Settings) (m : State sdk)
      → Set (record s { int_mask = 0xbf }) m
      → Runs sdk
          (λ _ m'. Set wanted m')
          ((do
            write_register sdk 0x1c 0x0c
            write_register sdk cnfg_00_addr mode_charge_buck
            write_register sdk cnfg_02_addr chg_cc_1250
            write_register sdk cnfg_08_addr cnfg_08
            write_register sdk cnfg_09_addr cnfg_09
            write_register sdk 0x1c 0x00)
            m)
  write_all-Set s m h =
      let Q : Unit {0} → State sdk → Type 0 = λ _ m'. Set wanted m' in
      let open_at = λ (w : sdk.World) (g : Settings) (e : device.settings w ≡ g).
        ap (λ (x : Settings). x.protection) e in
      let s1 : Settings = record s { int_mask = 0xbf; protection = 0x0c } in
      let s2 : Settings = record s1 { mode = 0x5 } in
      let s3 : Settings = record s2 { charge_current = 0x19 } in
      let s4 : Settings = record s3 { frequency = cnfg_08 } in
      let s5 : Settings = record s4 { input_limit = cnfg_09 } in
      then-Set Q s1 (write_register sdk 0x1c 0x0c) _ m
        (write_register-Set 0x1c 0x0c _ s1 m
          (λ w e.
            device.sets_protection 0x0c w ∙ ap (λ (g : Settings). record g { protection = 0x0c }) e)
          h)
        (λ _ m1 h1.
          then-Set Q s2 (write_register sdk 0x16 0x5) _ m1
            (write_register-Set 0x16 0x5 s1 s2 m1
              (λ w e.
                device.sets_mode 0x5 w (open_at w s1 e)
                ∙ ap (λ (g : Settings). record g { mode = 0x5 }) e)
              h1)
            (λ _ m2 h2.
              then-Set Q s3 (write_register sdk 0x18 0x19) _ m2
                (write_register-Set 0x18 0x19 s2 s3 m2
                  (λ w e.
                    device.sets_charge_current 0x19 w (open_at w s2 e)
                    ∙ ap (λ (g : Settings). record g { charge_current = 0x19 }) e)
                  h2)
                (λ _ m3 h3.
                  then-Set Q s4 (write_register sdk 0x1e cnfg_08) _ m3
                    (write_register-Set 0x1e cnfg_08 s3 s4 m3
                      (λ w e.
                        device.sets_frequency cnfg_08 w (open_at w s3 e)
                        ∙ ap (λ (g : Settings). record g { frequency = cnfg_08 }) e)
                      h3)
                    (λ _ m4 h4.
                      then-Set Q s5 (write_register sdk 0x1f cnfg_09) _ m4
                        (write_register-Set 0x1f cnfg_09 s4 s5 m4
                          (λ w e.
                            device.sets_input_limit cnfg_09 w (open_at w s4 e)
                            ∙ ap (λ (g : Settings). record g { input_limit = cnfg_09 }) e)
                          h4)
                        (λ _ m5 h5.
                          write_register-Set 0x1c 0 s5 wanted m5
                            (λ w e.
                              device.sets_protection 0 w
                              ∙ ap (λ (g : Settings). record g { protection = 0 }) e
                              ∙ ap₂ (λ (f i : ℕ). record wanted { frequency = f; input_limit = i })
                                  bytes_lem.1 bytes_lem.2)
                            h5)))))

  dropped-Set :
      (s : Settings) (m : State sdk)
      → Set s m
      → Runs sdk (λ _ m'. Set s m') ((get_interrupt_vals sdk >>= λ _. pure tt) m)
  unfolding Runs
  dropped-Set s m h =
      then-Set (λ _ m'. Set s m') s (get_interrupt_vals sdk) (λ _. pure tt) m
        (get_interrupt_vals-Set s m h) (λ _ m' h'. h')

  pin-Set :
      (Q : Unit {0} → State sdk → Type 0) (s : Settings) (call : Gpio)
      (next : Unit {0} → Io sdk (Unit {0})) (m : State sdk)
      → Set s m
      → ((m' : State sdk) → Set s m' → Runs sdk Q (next tt m'))
      → Runs sdk Q ((act sdk (sdk.gpio call) >>= next) m)
  pin-Set Q s call next m h rest =
      then-Set Q s (act sdk (sdk.gpio call)) next m (gpio-Set call s m h) (λ _ m' h'. rest m' h')

  init-Set :
      (s : Settings) (m : State sdk)
      → Set s m
      → Runs sdk (λ _ m'. Set wanted m') (max77976_init sdk m)
  unfolding max77976_init
  init-Set s m h =
      let Q : Unit {0} → State sdk → Type 0 = λ _ m'. Set wanted m' in
      pin-Set Q s (gpio_init gpio_interrupt) _ m h (λ m1 h1.
        pin-Set Q s (gpio_put gpio_interrupt false) _ m1 h1 (λ m2 h2.
          pin-Set Q s (gpio_set_dir gpio_interrupt false) _ m2 h2 (λ m3 h3.
            pin-Set Q s (gpio_pull_up gpio_interrupt) _ m3 h3 (λ m4 h4.
              pin-Set Q s (gpio_set_irq_enabled gpio_interrupt gpio_irq_edge_fall true) _ m4 h4
                (λ m5 h5.
                  then-Set Q (record s { int_mask = 0xbf }) (set_interrupt_masks sdk) _ m5
                    (set_interrupt_masks-Set s m5 h5)
                    (λ _ m6 h6.
                      then-Set Q (record s { int_mask = 0xbf })
                        (get_interrupt_vals sdk >>= λ _. pure tt) _ m6 (dropped-Set _ m6 h6)
                        (λ _ m7 h7. write_all-Set s m7 h7)))))))

module _ (sdk : PicoSdk) (device : ChargerDevice sdk) where
  -- On a charger that acknowledges every transfer and can be written while CHGPROT is 0b11,
  -- `max77976_init` returns, without a message in the log, from every state; CHGIN_M alone is then
  -- unmasked, the mode is buck with charging, the charge current 1250 mA, the switching frequency
  -- 2.6 MHz, the limit of the input current 3000 mA, and the registers are protected again.
  pub max77976_init-Set :
      (m : State sdk) → Returned sdk (λ _ m'. Set sdk device m.log wanted m') (max77976_init sdk m)
  max77976_init-Set m = Runs-Returned sdk _ _ (
      init-Set sdk device m.log (device.settings m.world.outside) m
        (record { same_log = refl; shown = refl }))
