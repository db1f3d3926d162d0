-- ===== src/Machine.antt =====
-- What the firmware's functions act on besides their arguments: the log and the hardware with the
-- drivers' static variables. `none` is a call that does not return: a failed `assert` has
-- stopped the core, or a loop does not end.
use sr_firmware.Base.{Option, none, some}
use sr_firmware.Log.{CircularBufferLog}

pub record Machine (W : Type 0) : Type 0 where
  pub log : CircularBufferLog
  pub world : W

abbrev pub M : Type 0 → Type 0 → Type 0
M W A = Machine W → Option (A × Machine W)

abbrev pub pure : {W A : Type 0} → A → M W A
pure a m = some (a, m)

infixl 5 ◌>>=◌ ◌>>◌
abbrev pub ◌>>=◌ : {W A B : Type 0} → M W A → (A → M W B) → M W B
◌>>=◌ act next m = elim (act m) [ none ↦ none | some (a, m') ↦ next a m' ]

abbrev pub ◌>>◌ : {W B : Type 0} → M W (Unit {0}) → M W B → M W B
act >> next = act >>= λ _. next

-- `assert(false)`
abbrev pub halt : {W A : Type 0} → M W A
halt m = none
