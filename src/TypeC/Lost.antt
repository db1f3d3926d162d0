-- ===== src/TypeC/Lost.antt =====
-- `UIC_INT`, `CC_INT` and `PD_INT` of `parse_interrupt_vals` lie in a buffer that a handler
-- overwrites.
use sr_firmware.Base.{
  ℕ, bit_or, ◌+◌, ◌*◌, ◌^◌, ◌<◌, Bool, true, false, Option, List, [], ◌∷◌, take, get_or, ◌≡◌, refl,
  ap, ◌∙◌, arith,
}
use sr_firmware.Base.Bits.Fields.{bit_or_fields}
use sr_firmware.Base.Bits.Flags.{bit, bit-lt}
use sr_firmware.Machine.{pure, ◌>>◌}
use sr_firmware.Hardware.{Io, State, get, modify, when, flagged, read_register}
use sr_firmware.Hardware.Post.{Post, bind-Post, any-Post, weaken}
use sr_firmware.Hardware.Sdk.{PicoSdk}
use sr_firmware.TypeC.Interrupts.{mark, pending, serve, on_chgtype_change}
use sr_firmware.TypeC.Registers.{Constants, set_state, fetch}

mark-sum : (on : Bool) (i v : ℕ) → v < 2 ^ i → mark on i v ≡ v + bit on * 2 ^ i
mark-sum true i v h =
    ap (bit_or v) {x = 2 ^ i} {y = 1 * 2 ^ i} (omega arith) ∙ bit_or_fields i v 1 h
mark-sum false i v h = omega arith

-- `return_val` as a sum, from the marks 0 to 7.
pub answer-sum :
    (a b c d e f g h : Bool)
    → mark h 7 (mark g 6 (mark f 5 (mark e 4 (mark d 3 (mark c 2 (mark b 1 (mark a 0 0)))))))
      ≡ bit a
        + bit b * 2
        + bit c * 4
        + bit d * 8
        + bit e * 16
        + bit f * 32
        + bit g * 64
        + bit h * 128
answer-sum a b c d e f g h =
    let e0 = mark-sum a 0 0 (omega arith) in
    let v0 = mark a 0 0 in
    let e1 = mark-sum b 1 v0 (omega (arith, e0, bit-lt a)) in
    let v1 = mark b 1 v0 in
    let e2 = mark-sum c 2 v1 (omega (arith, e0, e1, bit-lt a, bit-lt b)) in
    let v2 = mark c 2 v1 in
    let s2 : v2 < 8 = omega (arith, e0, e1, e2, bit-lt a, bit-lt b, bit-lt c) in
    let e3 = mark-sum d 3 v2 s2 in
    let v3 = mark d 3 v2 in
    let e4 = mark-sum e 4 v3 (omega (arith, e3, s2, bit-lt d)) in
    let v4 = mark e 4 v3 in
    let s4 : v4 < 32 = omega (arith, e3, e4, s2, bit-lt d, bit-lt e) in
    let e5 = mark-sum f 5 v4 s4 in
    let v5 = mark f 5 v4 in
    let e6 = mark-sum g 6 v5 (omega (arith, e5, s4, bit-lt f)) in
    let v6 = mark g 6 v5 in
    let e7 = mark-sum h 7 v6 (omega (arith, e5, e6, s4, bit-lt f, bit-lt g)) in
    omega (arith, e0, e1, e2, e3, e4, e5, e6, e7)

module _ (sdk : PicoSdk) where
  -- The byte that `CC_INT` points to is zero.
  unfoldable pub Quiet : State sdk → Type 0
  Quiet m = get_or m.world.type_c.return_buf 1 0 ≡ 0

  abbrev pub Always : {A : Type 0} → A → State sdk → Type 0
  Always a m = Unit

  pub always : {A : Type 0} (out : Option (A × State sdk)) → Post sdk Always out
  always out = any-Post sdk Always out (λ a m. tt)

  second_of_one : (bytes : List ℕ) → get_or (take 1 bytes) 1 0 ≡ 0
  second_of_one [] = refl
  second_of_one (x ∷ bytes) = refl

  module _ (const : Constants) where
    on_chgtype_change-Quiet :
        (m : State sdk) → Post sdk (λ _ m'. Quiet m') (on_chgtype_change sdk const m)
    unfolding on_chgtype_change fetch set_state modify Quiet Post
    on_chgtype_change-Quiet m =
        bind-Post sdk Always (λ _ m'. Quiet m') (read_register sdk 0 const.slave_p1 0x0a 1 m)
          (λ bytes. set_state sdk (λ s. record s { return_buf = take 1 bytes })) (always _)
          (λ bytes m' p. second_of_one bytes)

    after_handler :
        (on : Bool) (handler : Io sdk (Unit {0})) (m : State sdk)
        → Post sdk (λ _ m'. Quiet m') (handler m)
        → Post sdk (λ on' m'. on' ≡ true → Quiet m') ((when sdk on handler >> pure on) m)
    unfolding Post
    after_handler true handler m quiet =
        bind-Post sdk (λ _ m'. Quiet m') (λ on' m'. on' ≡ true → Quiet m') (handler m)
          (λ _. pure true) quiet (λ _ m' q h. q)
    after_handler false handler m quiet = λ h. absurd cc

    -- A test of `UIC_INT` for the charger's type that has been served leaves `CC_INT` zero.
    pub served-Quiet :
        (m : State sdk)
        → Post sdk
            (λ on m'. on ≡ true → Quiet m')
            (serve sdk const 0 (2 ^ 1) (on_chgtype_change sdk const) m)
    unfolding serve pending get
    served-Quiet m =
        after_handler (flagged (get_or m.world.type_c.return_buf 0 0) (2 ^ 1))
          (on_chgtype_change sdk const) m (on_chgtype_change-Quiet m)

    skipped :
        (on : Bool) (handler : Io sdk (Unit {0})) (m : State sdk)
        → on ≡ false
        → Quiet m
        → Post sdk (λ on' m'. (on' ≡ false) × Quiet m') ((when sdk on handler >> pure on) m)
    unfolding Post
    skipped true handler m e q = absurd cc
    skipped false handler m e q = (refl, q)

    -- A test of a zero `CC_INT` does not find its bit, and leaves it zero.
    pub quiet-serve :
        (mask : ℕ) (handler : Io sdk (Unit {0})) (chg : Bool) (m : State sdk)
        → flagged 0 mask ≡ false
        → (chg ≡ true → Quiet m)
        → Post sdk
            (λ on m'. chg ≡ true → (on ≡ false) × Quiet m')
            (serve sdk const 1 mask handler m)
    unfolding serve pending get Quiet
    quiet-serve mask handler true m e q =
        let quiet = q refl in
        weaken sdk _ _ _
          (skipped (flagged (get_or m.world.type_c.return_buf 1 0) mask) handler m
            (ap (λ byte. flagged byte mask) quiet ∙ e) quiet)
          (λ on m' r h. r)
    quiet-serve mask handler false m e q = any-Post sdk _ _ (λ on m' h. absurd cc)
