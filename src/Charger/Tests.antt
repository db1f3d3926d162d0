-- ===== src/Charger/Tests.antt =====
-- A charger whose registers are written while CHGPROT is 0b11.
use sr_firmware.Base.{true, ℕ, List, [], ◌∷◌, ◌==◌, if◌then◌else◌, refl}
use sr_firmware.Hardware.{State}
use sr_firmware.Hardware.Bus.{acked}
use sr_firmware.Hardware.Runs.{Returned}
use sr_firmware.Hardware.Samples.{at_rest, board_of}
use sr_firmware.Hardware.Sdk.{PicoSdk, stop_core1}
use sr_firmware.Charger.{max77976_init}
use sr_firmware.Charger.Settings.{Settings, ChargerDevice, wanted}
use sr_firmware.Charger.Device.{Set, max77976_init-Set}

abbrev stored : ℕ → ℕ → Settings → Settings
stored reg value s =
    if reg == 0x16
    then record s { mode = value }
    else if reg == 0x18
    then record s { charge_current = value }
    else if reg == 0x1e
    then record s { frequency = value }
    else if reg == 0x1f
    then record s { input_limit = value }
    else s

abbrev written : List ℕ → Settings → Settings
written (reg ∷ value ∷ []) s =
    if reg == 0x1c
    then record s { protection = value }
    else if s.protection == 0x0c
    then stored reg value s
    else s
written (reg ∷ mask ∷ x ∷ y ∷ []) s = if reg == 0x11 then record s { int_mask = mask } else s
written other s = s

abbrev charging : PicoSdk
charging = board_of (record {
  write = written;
  read = λ w. 0 ∷ 0 ∷ 0 ∷ [];
  signal = λ call w. w;
  add = λ queue func arg w. (true, w);
  remove = λ w. ((stop_core1, 0), w);
})

abbrev device : ChargerDevice charging
device = record {
  settings = λ w. w;
  write_acked = λ src nostop w. acked;
  read_acked = λ len nostop w. acked;
  pins_keep = λ call w. refl;
  choosing_keeps = λ reg w. refl;
  reads_keep = λ len nostop w. refl;
  sets_int_mask = λ mask w. refl;
  sets_protection = λ value w. refl;
  sets_mode = λ value w h. rw (h) refl;
  sets_charge_current = λ value w h. rw (h) refl;
  sets_frequency = λ value w h. rw (h) refl;
  sets_input_limit = λ value w h. rw (h) refl;
}

abbrev start : State charging
start = at_rest (record {
  int_mask = 0xff;
  protection = 0;
  mode = 0x4;
  charge_current = 0x9;
  frequency = 0x2;
  input_limit = 0x89;
})

max77976_init-Set_example :
    Returned charging
      (λ _ m'. Set charging device start.log wanted m')
      (max77976_init charging start)
max77976_init-Set_example = max77976_init-Set charging device start
