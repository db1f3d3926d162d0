-- ===== src/TypeC/Decode.antt =====
-- What `parse_interrupt_vals` makes of the interrupt registers.
use sr_firmware.Base.{
  ℕ, ◌==◌, ◌^◌, Bool, true, false, some, List, get_or, ◌≡◌, refl, ap, ◌∙◌, sym, subst,
}
use sr_firmware.Machine.{pure, ◌>>=◌, ◌>>◌}
use sr_firmware.Hardware.{Io, State, modify, when, flagged}
use sr_firmware.Hardware.Post.{Post, bind-Post, both-Post, buf, pure-Frames}
use sr_firmware.Hardware.Sdk.{PicoSdk}
use sr_firmware.TypeC.Interrupts.{serve, on_chgtype_change, on_ccstat_change, parse_interrupt_vals}
use sr_firmware.TypeC.Lost.{Quiet, served-Quiet, quiet-serve}
use sr_firmware.TypeC.Marks.{Decodes, marks, marks-Decodes}
use sr_firmware.TypeC.Serve.{
  Tested, Framed, serve-Tested, serve-Framed, on_opcode_cmd_response-Frames,
  on_pd_msg_received-Frames,
}
use sr_firmware.TypeC.Registers.{Constants, set_state, get_interrupt_vals}

module _ (sdk : PicoSdk) (const : Constants) where
  -- The end of `parse_interrupt_vals`.
  answered :
      (bytes : List ℕ) (v : ℕ) (quiet : Bool) (m : State sdk)
      → Decodes bytes v
      → Post sdk
          (λ v' _. Decodes bytes v')
          ((when sdk quiet (set_state sdk (λ s. record s { interrupt_bool = true })) >> pure v) m)
  unfolding Post set_state modify
  answered bytes v true m h = h
  answered bytes v false m h = h

  -- A test finds in the buffer what it finds in bytes that are the same.
  at_bytes :
      (bytes : List ℕ) (i mask : ℕ) (m : State sdk)
      → buf sdk m ≡ bytes
      → flagged (get_or (buf sdk m) i 0) mask ≡ flagged (get_or bytes i 0) mask
  at_bytes bytes i mask m same = ap (λ b. flagged (get_or b i 0) mask) same

  -- `parse_interrupt_vals` from its last three tests on, with the results of the first five.
  last_tests : Bool → Bool → Bool → Bool → Bool → Io sdk ℕ
  last_tests a b c d e = do
    f ← serve sdk const 1 (2 ^ 1) (pure tt)
    g ← serve sdk const 1 (2 ^ 2) (pure tt)
    h ← serve sdk const 1 (2 ^ 3) (pure tt)
    let return_val = marks a b c d e f g h
    when sdk (return_val == 0) (set_state sdk (λ s. record s { interrupt_bool = true }))
    pure return_val

  -- `parse_interrupt_vals` from the test of ChgTyp on, with the results of the first three.
  cc_tests : Bool → Bool → Bool → Io sdk ℕ
  cc_tests a b c = do
    d ← serve sdk const 0 (2 ^ 1) (on_chgtype_change sdk const)
    e ← serve sdk const 1 (2 ^ 0) (on_ccstat_change sdk const)
    last_tests a b c d e

  -- A test of CC_INT without a handler: none when the charger's type has changed, else what the
  -- buffer has.
  CcTested : ℕ → Bool → State sdk → Bool → State sdk → Type 0
  CcTested mask d m on m' =
      (d ≡ true → (on ≡ false) × Quiet sdk m') × Framed sdk const 1 mask m on m'

  serve-CcTested :
      (mask : ℕ) (d : Bool) (m : State sdk)
      → flagged 0 mask ≡ false
      → (d ≡ true → Quiet sdk m)
      → Post sdk (CcTested mask d m) (serve sdk const 1 mask (pure tt) m)
  unfolding CcTested
  serve-CcTested mask d m e quiet =
      both-Post sdk _ _ _ (quiet-serve sdk const mask _ d m e quiet)
        (serve-Framed sdk const 1 mask _ m (pure-Frames sdk tt))

  last_tests-Decodes :
      (bytes : List ℕ) (a b c d e : Bool) (m : State sdk)
      → a ≡ flagged (get_or bytes 0 0) (2 ^ 7)
      → b ≡ flagged (get_or bytes 2 0) (2 ^ 6)
      → c ≡ flagged (get_or bytes 2 0) (2 ^ 7)
      → d ≡ flagged (get_or bytes 0 0) (2 ^ 1)
      → (d ≡ true → (e ≡ false) × Quiet sdk m)
      → (d ≡ false → e ≡ flagged (get_or bytes 1 0) (2 ^ 0))
      → (d ≡ false → e ≡ false → buf sdk m ≡ bytes)
      → Post sdk (λ v _. Decodes bytes v) (last_tests a b c d e m)
  unfolding last_tests CcTested Framed
  last_tests-Decodes bytes a b c d e m pa pb pc pd lost pe same =
      let Q : ℕ → State sdk → Type 0 = λ v _. Decodes bytes v in
      bind-Post sdk _ Q (serve sdk const 1 (2 ^ 1) _ m) _
        (serve-CcTested (2 ^ 1) d m refl (λ t. (lost t).1))
        (λ f n p.
          bind-Post sdk _ Q (serve sdk const 1 (2 ^ 2) _ n) _
            (serve-CcTested (2 ^ 2) d n refl (λ t. (p.0 t).1))
            (λ g n' p'.
              bind-Post sdk _ Q (serve sdk const 1 (2 ^ 3) _ n') _
                (serve-CcTested (2 ^ 3) d n' refl (λ t. (p'.0 t).1))
                (λ h n'' p''. answered bytes (marks a b c d e f g h) _ n'' (
                  marks-Decodes bytes a b c d e f g h pa pb pc pd
                    (λ t. ((lost t).0, (p.0 t).0, (p'.0 t).0, (p''.0 t).0)) pe
                    (λ t u.
                      let s = same t u in
                      let s' = p.1.1 ∙ s in
                      (
                        p.1.0 ∙ at_bytes bytes 1 (2 ^ 1) m s,
                        p'.1.0 ∙ at_bytes bytes 1 (2 ^ 2) n s',
                        p''.1.0 ∙ at_bytes bytes 1 (2 ^ 3) n' (p'.1.1 ∙ s'),
                      ))))))

  cc_tests-Decodes :
      (bytes : List ℕ) (a b c : Bool) (m : State sdk)
      → a ≡ flagged (get_or bytes 0 0) (2 ^ 7)
      → b ≡ flagged (get_or bytes 2 0) (2 ^ 6)
      → c ≡ flagged (get_or bytes 2 0) (2 ^ 7)
      → buf sdk m ≡ bytes
      → Post sdk (λ v _. Decodes bytes v) (cc_tests a b c m)
  unfolding cc_tests Tested
  cc_tests-Decodes bytes a b c m pa pb pc same =
      let Q : ℕ → State sdk → Type 0 = λ v _. Decodes bytes v in
      bind-Post sdk _ Q (serve sdk const 0 (2 ^ 1) _ m) _
        (both-Post sdk _ _ _ (served-Quiet sdk const m) (serve-Tested sdk const 0 (2 ^ 1) _ m))
        (λ d n p.
          bind-Post sdk _ Q (serve sdk const 1 (2 ^ 0) _ n) _
            (both-Post sdk _ _ _ (quiet-serve sdk const (2 ^ 0) _ d n refl p.0)
              (serve-Tested sdk const 1 (2 ^ 0) _ n))
            (λ e n' p'.
              last_tests-Decodes bytes a b c d e n' pa pb pc
                (p.1.0 ∙ at_bytes bytes 0 (2 ^ 1) m same) p'.0
                (λ t. p'.1.0 ∙ at_bytes bytes 1 (2 ^ 0) n (p.1.1 t ∙ same))
                (λ t u. p'.1.1 u ∙ (p.1.1 t ∙ same))))

  pub parse-Decodes :
      (m m0 : State sdk)
      → get_interrupt_vals sdk const m ≡ some (tt, m0)
      → Post sdk (λ v _. Decodes (buf sdk m0) v) (parse_interrupt_vals sdk const m)
  unfolding parse_interrupt_vals Post Framed cc_tests last_tests
  parse-Decodes m m0 read =
      let B = buf sdk m0 in
      let Q : ℕ → State sdk → Type 0 = λ v _. Decodes B v in
      let Start : Unit {0} → State sdk → Type 0 = λ _ m'. buf sdk m' ≡ B in
      bind-Post sdk Start Q (get_interrupt_vals sdk const m) _
        (subst (Post sdk Start) (sym read) refl)
        (λ _ n s.
          bind-Post sdk _ Q (serve sdk const 0 (2 ^ 7) _ n) _
            (serve-Framed sdk const 0 (2 ^ 7) _ n (on_opcode_cmd_response-Frames sdk const))
            (λ a n1 p1.
              bind-Post sdk _ Q (serve sdk const 2 (2 ^ 6) _ n1) _
                (serve-Framed sdk const 2 (2 ^ 6) _ n1 (pure-Frames sdk tt))
                (λ b n2 p2.
                  bind-Post sdk _ Q (serve sdk const 2 (2 ^ 7) _ n2) _
                    (serve-Framed sdk const 2 (2 ^ 7) _ n2 (on_pd_msg_received-Frames sdk const))
                    (λ c n3 p3.
                      cc_tests-Decodes B a b c n3 (p1.0 ∙ at_bytes B 0 (2 ^ 7) n s)
                        (p2.0 ∙ at_bytes B 2 (2 ^ 6) n1 (p1.1 ∙ s))
                        (p3.0 ∙ at_bytes B 2 (2 ^ 7) n2 (p2.1 ∙ (p1.1 ∙ s)))
                        (p3.1 ∙ (p2.1 ∙ (p1.1 ∙ s)))))))
