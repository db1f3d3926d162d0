-- ===== src/Robot/Scan.antt =====
-- The addresses that `i2c_scan` of src/robot.c finds.
use sr_firmware.Base.{
  ℕ, zero, suc, ◌+◌, ◌≤◌, ◌<◌, Bool, true, false, Option, none, some, List, [], ◌∷◌, length,
  if◌then◌else◌, ◌≡◌, refl, arith,
}
use sr_firmware.Hardware.{State, act, ask}
use sr_firmware.Hardware.Sdk.{PicoSdk}
use sr_firmware.Robot.Setup.{scan_from, i2c_scan}

-- Addresses that grow, from `lo` on and below `hi`.
unfoldable pub Ascending : ℕ → ℕ → List ℕ → Type 0
Ascending lo hi [] = lo ≤ hi
Ascending lo hi (address ∷ found) = (lo ≤ address) × Ascending (address + 1) hi found

length-Ascending : (lo hi : ℕ) (found : List ℕ) → Ascending lo hi found → lo + length found ≤ hi
unfolding Ascending
length-Ascending lo hi [] p = omega (arith, p)
length-Ascending lo hi (address ∷ found) (p, rest) =
    omega (arith, p, length-Ascending (address + 1) hi found rest)

-- The next address is kept or left out.
kept :
    (on : Bool) (lo hi : ℕ) (found : List ℕ)
    → Ascending (lo + 1) hi found
    → Ascending lo hi (if on then lo ∷ found else found)
unfolding Ascending
kept true lo hi found p = (omega arith, p)
kept false lo hi [] p = omega (arith, p)
kept false lo hi (address ∷ found) (p, rest) = (omega (arith, p), rest)

module _ (sdk : PicoSdk) where
  Found : ℕ → ℕ → Option (List ℕ × State sdk) → Type 0
  Found lo hi none = ⊥
  Found lo hi (some (found, m)) = Ascending lo hi found

  found_next :
      (on : Bool) (lo hi : ℕ) (out : Option (List ℕ × State sdk))
      → Found (lo + 1) hi out
      → Found lo hi (elim out [
        | none ↦ none
        | some (found, m) ↦ some ((if on then lo ∷ found else found), m)
      ])
  unfolding Found
  found_next on lo hi none p = p
  found_next on lo hi (some (found, m)) p = kept on lo hi found p

  scan_from-Found :
      (i2c left lo hi : ℕ) (m : State sdk)
      → lo + left ≡ hi
      → Found lo hi (scan_from sdk i2c left lo m)
  unfolding scan_from act ask Found Ascending
  scan_from-Found i2c zero lo hi m e = omega (arith, e)
  scan_from-Found i2c (suc left) lo hi m e =
      found_next _ lo hi _ (scan_from-Found i2c left (lo + 1) hi _ (omega (arith, e)))

  -- `i2c_scan` has returned, and the array of `room` bytes holds what it has found and the final 0.
  pub record IsScanned (lo hi room : ℕ) (out : Option (List ℕ × State sdk)) : Type 0 where
    pub found : List ℕ
    pub after : State sdk
    pub returns : out ≡ some (found, after)
    pub ascending : Ascending lo hi found
    pub fits : length found < room

  scanned :
      (lo hi room : ℕ) (out : Option (List ℕ × State sdk))
      → hi < lo + room
      → Found lo hi out
      → IsScanned lo hi room out
  unfolding Found
  scanned lo hi room none h p = absurd p
  scanned lo hi room (some (found, m)) h p = record {
    found = found;
    after = m;
    returns = refl;
    ascending = p;
    fits = omega (arith, h, length-Ascending lo hi found p);
  }

  -- On every bus and in every state `i2c_scan` returns; the addresses that it has found grow, lie
  -- from 0x08 on and below 0x78, and fit with the 0 behind them into the 128 bytes it allocates.
  pub i2c_scan-IsScanned : (i2c : ℕ) (m : State sdk) → IsScanned 0x08 0x78 128 (i2c_scan sdk i2c m)
  unfolding i2c_scan
  i2c_scan-IsScanned i2c m =
      scanned 0x08 0x78 128 _ (omega arith) (scan_from-Found i2c 112 0x08 0x78 m refl)
