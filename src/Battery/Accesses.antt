-- ===== src/Battery/Accesses.antt =====
-- What the accesses of src/bq27742_g1.c to the data flash do on a gauge that keeps it.
use sr_firmware.Base.{ℕ, ◌==◌, ◌∷◌, [], List, Bool, true, false, ◌≡◌, ap, ◌∙◌, sym, arith, length}
use sr_firmware.Log.{CircularBufferLog}
use sr_firmware.Hardware.{State, act, word16, i2c_write_error_handling, i2c_read_error_handling}
use sr_firmware.Hardware.Runs.{Runs, bind-Runs}
use sr_firmware.Hardware.Device
use sr_firmware.Hardware.Sdk.{PicoSdk}
use sr_firmware.Battery.{
  block_len, write_byte, read_bytes, select_block, read_data_flash_block, write_data_flash_block,
  get_pack_configuration,
}
use sr_firmware.Battery.Masks.{addr}
use sr_firmware.Battery.Block.{at, data_flash_checksum}
use sr_firmware.Battery.Flash.{data_flash_checksum_lem}
use sr_firmware.Battery.Gauge.{Registers, Gauge, checksum_of}

module _ (sdk : PicoSdk) (gauge : Gauge sdk) where
  -- The log and the registers are these.
  abbrev pub Shows : CircularBufferLog → Registers → State sdk → Type 0
  Shows log = Device.Shows sdk gauge.registers log

  module _ (log : CircularBufferLog) where
    write-Shows :
        (src : List ℕ) (nostop : Bool) (r r' : Registers) (m : State sdk)
        → gauge.registers (sdk.i2c_write_timeout_us 0 addr src nostop m.world.outside).1 ≡ r'
        → Shows log r m
        → Runs sdk (λ _ m'. Shows log r' m') (i2c_write_error_handling sdk 0 addr src nostop m)
    write-Shows src nostop r r' m e s =
        Device.write-Shows sdk gauge.registers log 0 addr src nostop r r' m
          (gauge.write_acked src nostop m.world.outside) e s

    read-Shows :
        (len : ℕ) (nostop : Bool) (r : Registers) (bytes : List ℕ) (m : State sdk)
        → (sdk.i2c_read_timeout_us 0 addr len nostop m.world.outside).0.1 ≡ bytes
        → Shows log r m
        → Runs sdk
            (λ got m'. (got ≡ bytes) × Shows log r m')
            (i2c_read_error_handling sdk 0 addr len nostop m)
    read-Shows len nostop r bytes m e s =
        Device.read-Shows sdk gauge.registers log 0 addr len nostop r bytes m
          (gauge.read_acked len nostop m.world.outside)
          (gauge.reads_keep len nostop m.world.outside) e s

    pub sleep-Shows :
        (ms : ℕ) (r : Registers) (m : State sdk)
        → Shows log r m
        → Runs sdk (λ _ m'. Shows log r m') (act sdk (sdk.sleep_ms ms) m)
    sleep-Shows ms r m s =
        Device.act-Shows sdk gauge.registers log (sdk.sleep_ms ms) r m
          (gauge.waits ms m.world.outside) s

    -- A read of a command.
    read_bytes-Shows :
        (command len : ℕ) (r : Registers) (bytes : List ℕ) (m : State sdk)
        → ((w : sdk.World)
            → gauge.registers w ≡ record r { command = command }
            → (sdk.i2c_read_timeout_us 0 addr len false w).0.1 ≡ bytes)
        → Shows log r m
        → Runs sdk
            (λ got m'. (got ≡ bytes) × Shows log (record r { command = command }) m')
            (read_bytes sdk command len m)
    unfolding read_bytes
    read_bytes-Shows command len r bytes m law s =
        bind-Runs sdk _ _ (i2c_write_error_handling sdk 0 addr (command ∷ []) true m) _
          (write-Shows (command ∷ []) true r _ m
            (gauge.sets_command command true m.world.outside
              ∙ ap (λ (g : Registers). record g { command = command }) s.shown)
            s)
          (λ _ m' s'. read-Shows len false _ bytes m' (law m'.world.outside s'.shown) s')

    pub get_pack_configuration-Shows :
        (r : Registers) (m : State sdk)
        → Shows log r m
        → Runs sdk
            (λ got m'.
              (got ≡ word16 (at r.block 1 ∷ at r.block 0 ∷ []))
              × Shows log (record r { command = 0x3a }) m')
            (get_pack_configuration sdk m)
    unfolding get_pack_configuration Runs
    get_pack_configuration-Shows r m s =
        bind-Runs sdk _ _ (read_bytes sdk 0x3a 2 m) _
          (read_bytes-Shows 0x3a 2 r (at r.block 1 ∷ at r.block 0 ∷ []) m
            (λ w e.
              gauge.reads_pack_configuration false w (ap (λ (g : Registers). g.command) e)
              ∙ ap (λ (g : Registers). at g.block 1 ∷ at g.block 0 ∷ []) e)
            s)
          (λ buf m' p. (ap word16 p.0, p.1))

    -- A value written to a command of the device.
    write_byte-Shows :
        (command value : ℕ) (r r' : Registers) (m : State sdk)
        → ((w : sdk.World)
            → gauge.registers w ≡ r
            → gauge.registers (sdk.i2c_write_timeout_us 0 addr (command ∷ value ∷ []) false w).1
              ≡ r')
        → Shows log r m
        → Runs sdk (λ _ m'. Shows log r' m') (write_byte sdk command value m)
    unfolding write_byte
    write_byte-Shows command value r r' m law s =
        write-Shows (command ∷ value ∷ []) false r r' m (law m.world.outside s.shown) s

    abbrev pub selected : Registers → Registers
    selected r = record r { subclass = 64; block_data = r.block }

    select_block-Shows :
        (r : Registers) (m : State sdk)
        → Shows log r m
        → Runs sdk (λ _ m'. Shows log (selected r) m') (select_block sdk 64 0 m)
    unfolding select_block
    select_block-Shows r m s =
        bind-Runs sdk _ _ (write_byte sdk 0x61 0x00 m) _
          (write_byte-Shows 0x61 0x00 r r m (λ w e. gauge.sets_control false w ∙ e) s)
          (λ _ m1 s1.
            bind-Runs sdk _ _ (write_byte sdk 0x3e 64 m1) _
              (write_byte-Shows 0x3e 64 r (record r { subclass = 64 }) m1
                (λ w e.
                  gauge.sets_subclass 64 false w
                  ∙ ap (λ (g : Registers). record g { subclass = 64 }) e)
                s1)
              (λ _ m2 s2.
                bind-Runs sdk _ _ (write_byte sdk 0x3f 0 m2) _
                  (write_byte-Shows 0x3f 0 _ (selected r) m2
                    (λ w e.
                      gauge.loads_block false w (ap (λ (g : Registers). g.subclass) e)
                      ∙ ap (λ (g : Registers). record g { block_data = g.block }) e)
                    s2)
                  (λ _ m3 s3. sleep-Shows 1 (selected r) m3 s3)))

    -- The block is read, with its checksum right.
    pub read_data_flash_block-Shows :
        (r : Registers) (m : State sdk)
        → Shows log r m
        → Runs sdk
            (λ got m'.
              (got ≡ (true, r.block)) × Shows log (record (selected r) { command = 0x60 }) m')
            (read_data_flash_block sdk 64 0 m)
    unfolding read_data_flash_block Runs
    read_data_flash_block-Shows r m s =
        let Q : Bool × List ℕ → State sdk → Type 0 = λ got m'.
          (got ≡ (true, r.block)) × Shows log (record (selected r) { command = 0x60 }) m' in
        bind-Runs sdk _ Q (select_block sdk 64 0 m) _ (select_block-Shows r m s) (λ _ m1 s1.
          bind-Runs sdk _ Q (read_bytes sdk 0x40 block_len m1) _
            (read_bytes-Shows 0x40 block_len (selected r) r.block m1
              (λ w e.
                gauge.reads_block_data false w (ap (λ (g : Registers). g.command) e)
                ∙ ap (λ (g : Registers). g.block_data) e)
              s1)
            (λ block_data m2 p2.
              bind-Runs sdk _ Q (read_bytes sdk 0x60 1 m2) _
                (read_bytes-Shows 0x60 1 _ (checksum_of r.block ∷ []) m2
                  (λ w e.
                    gauge.reads_checksum false w (ap (λ (g : Registers). g.command) e)
                    ∙ ap (λ (g : Registers). checksum_of g.block_data ∷ []) e)
                  p2.1)
                (λ checksum m3 p3.
                  let right : (at checksum 0 == data_flash_checksum block_data) ≡ true = ground (
                    arith,
                    ap (λ bytes. at bytes 0) p3.0,
                    ap (λ bytes. data_flash_checksum bytes) p2.0,
                    data_flash_checksum_lem r.block,
                  ) in
                  rw (right) (ap (λ b. (true, b)) p2.0, p3.1))))

    -- The block is written.
    pub write_data_flash_block-Shows :
        (r : Registers) (bytes : List ℕ) (m : State sdk)
        → length bytes ≡ block_len
        → Shows log r m
        → Runs sdk
            (λ _ m'. Shows log (record r { subclass = 64; block_data = bytes; block = bytes }) m')
            (write_data_flash_block sdk 64 0 bytes m)
    unfolding write_data_flash_block
    write_data_flash_block-Shows r bytes m len s =
        bind-Runs sdk _ _ (select_block sdk 64 0 m) _ (select_block-Shows r m s) (λ _ m1 s1.
          bind-Runs sdk _ _ (i2c_write_error_handling sdk 0 addr (0x40 ∷ bytes) false m1) _
            (write-Shows (0x40 ∷ bytes) false (selected r)
              (record (selected r) { block_data = bytes }) m1
              (gauge.sets_block_data bytes false m1.world.outside len
                ∙ ap (λ (g : Registers). record g { block_data = bytes }) s1.shown)
              s1)
            (λ _ m2 s2.
              write_byte-Shows 0x60 (data_flash_checksum bytes) _ _ m2
                (λ w e.
                  gauge.keeps_block (data_flash_checksum bytes) false w
                    (ap (λ (g : Registers). g.subclass) e)
                    (data_flash_checksum_lem bytes
                      ∙ ap (λ (g : Registers). checksum_of g.block_data) (sym e))
                  ∙ ap (λ (g : Registers). record g { block = g.block_data }) e)
                s2))
