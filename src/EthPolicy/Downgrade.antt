-- ===== src/EthPolicy/Downgrade.antt =====
-- When the legacy applet is opened, and what was known before.
use nuri_passkey_prf_smartca.Base.{
  true, false, Option, some, subst, ◌≡◌, ◌≢◌, refl, ap, sym, ◌∙◌, Text, Result, ok, err, Action,
  pure, raise, tried, ◌>>=◌, split_bind, Bool-cases, inl, inr, codes,
}
use nuri_passkey_prf_smartca.Pcsc.Driver.{
  disconnect, Exc, card_error, value_error, raised, no_reader, no_card, no_applet, transport,
  Driver, Host, Env,
}
use nuri_passkey_prf_smartca.Pcsc.Ladder.{Applet, open_applet}
use nuri_passkey_prf_smartca.Pcsc.Exchange.{Only}
use nuri_passkey_prf_smartca.Pcsc.Trace.{Since, here}
use nuri_passkey_prf_smartca.EthPolicy.{
  eth2_aid, Kind, eth1, eth2, EthExc, policy, pcsc, eth1_demo_disabled, eth1_demo_allowed,
  require_eth1_demo, open_eth1_demo, eth2_present, downgrade_refused, open_eth1, open_eth,
}
use nuri_passkey_prf_smartca.EthPolicy.Gate.{
  select_eth2, open_eth2-Keeps, require_eth1_demo-refused, eth1_demo_allowed-ne,
}
use nuri_passkey_prf_smartca.EthPolicy.Fallback.{
  Downgraded, OpenedEth1, open_eth1-Opened, joined-Downgraded,
}

module _ {W : Type 0} (d : Driver W) (env : Env) (reader : Option Text) where
  -- What `open_eth` raises, after the search for ETH2 raised `cause`.
  pub record Refused (h : Host W) (x : EthExc) : Type 0 where
    pub cause : Exc
    pub looked : (open_applet d env eth2_aid reader h).0 ≡ err cause
    pub passed_on : cause ≢ card_error no_applet → x ≡ pcsc cause
    pub gated :
        cause ≡ card_error no_applet → eth1_demo_allowed env ≡ false → x ≡ policy eth1_demo_disabled

  -- What `open_eth` comes to, from the state `h`.
  abbrev pub Chosen : Host W → Result EthExc (Applet × Kind) × Host W → Type 0
  Chosen h (ok (a, eth2), h') =
      ((open_applet d env eth2_aid reader h).0 ≡ ok a) × Since (Only select_eth2) h.log h'.log
  Chosen h (ok (a, eth1), h') = Downgraded d env reader h a h'
  Chosen h (err x, h') = Refused h x

  module _ (h : Host W) where
    abbrev after : Result Exc Applet → Action (Host W) EthExc (Applet × Kind)
    after res = elim res [
      | ok a ↦ pure (a, eth2)
      | err (card_error no_applet) ↦
          require_eth1_demo d env >>= λ _. open_eth1 d env reader >>= λ a. pure (a, eth1)
      | err e ↦ raise (pcsc e)
    ]

    require_eth1_demo-allowed :
        (h₁ : Host W) → eth1_demo_allowed env ≡ true → require_eth1_demo d env h₁ ≡ (ok tt, h₁)
    unfolding require_eth1_demo pure
    require_eth1_demo-allowed h₁ e = rw e

    other_cause :
        (q : Exc)
        → (open_applet d env eth2_aid reader h).0 ≡ err q
        → q ≢ card_error no_applet
        → Refused h (pcsc q)
    other_cause q e ne = record {
      cause = q;
      looked = e;
      passed_on = λ _. refl;
      gated = λ same. absurd (ne same);
    }

    no_applet_cause :
        (x : EthExc)
        → (open_applet d env eth2_aid reader h).0 ≡ err (card_error no_applet)
        → (eth1_demo_allowed env ≡ false → x ≡ policy eth1_demo_disabled)
        → Refused h x
    no_applet_cause x e shut = record {
      cause = card_error no_applet;
      looked = e;
      passed_on = λ ne. absurd (ne refl);
      gated = λ _. shut;
    }

    missing_in :
        {q : Exc} {h₁ : Host W}
        → open_applet d env eth2_aid reader h ≡ (err q, h₁)
        → (open_applet d env eth2_aid reader h).0 ≡ err q
    missing_in e = ap (λ (x : Result Exc Applet × Host W). x.0) e

    fallback-Chosen :
        (h₁ : Host W)
        → open_applet d env eth2_aid reader h ≡ (err (card_error no_applet), h₁)
        → eth1_demo_allowed env ≡ true
        → Chosen h (after (err (card_error no_applet)) h₁)
    unfolding pure
    fallback-Chosen h₁ e allowed =
        let failed : (x : EthExc) → Refused h x =
          λ x. no_applet_cause x (missing_in e) (λ shut. absurd (cc)) in
        split_bind (Chosen h) (require_eth1_demo d env) _ h₁
          (λ _ h₂ e₂.
            split_bind (Chosen h) (open_eth1 d env reader) _ h₂
              (λ a h₃ e₃.
                let same : h₂ ≡ h₁ =
                  ap (λ (x : Result EthExc (Unit {0}) × Host W). x.1)
                    (sym e₂ ∙ require_eth1_demo-allowed h₁ allowed) in
                joined-Downgraded d env reader e allowed
                  (rw same at (rw e₃ at (open_eth1-Opened d env reader h₂))))
              (λ x _ _. failed x))
          (λ x _ _. failed x)

    after-Chosen :
        (x : Result Exc Applet × Host W)
        → open_applet d env eth2_aid reader h ≡ x
        → Since (Only select_eth2) h.log x.1.log
        → Chosen h (after x.0 x.1)
    unfolding pure raise
    after-Chosen (ok a, h₁) e s = (rw e, s)
    after-Chosen (err (card_error no_applet), h₁) e s = elim (Bool-cases (eth1_demo_allowed env)) [
      | inl allowed ↦ fallback-Chosen h₁ e allowed
      | inr refused ↦
          unfold ◌>>=◌ in
          rw (require_eth1_demo-refused d env refused h₁)
            (no_applet_cause _ (missing_in e) (λ _. refl))
    ]
    after-Chosen (err (card_error no_reader), h₁) e s = other_cause _ (missing_in e) (λ q. cc)
    after-Chosen (err (card_error no_card), h₁) e s = other_cause _ (missing_in e) (λ q. cc)
    after-Chosen (err (card_error transport), h₁) e s = other_cause _ (missing_in e) (λ q. cc)
    after-Chosen (err value_error, h₁) e s = other_cause _ (missing_in e) (λ q. cc)
    after-Chosen (err (raised x), h₁) e s = other_cause _ (missing_in e) (λ q. cc)

    -- `open_eth` returns the ETH2 applet exactly if that opens, and has then sent nothing but SELECT
    -- ETH2 and GET RESPONSE. It returns the legacy applet only if the demo variable is exactly "1",
    -- the search for ETH2 ended with NO_APPLET, `confirm_eth2_absent` returned from the state that left,
    -- having seen the absence on every reader, and the applet was then opened, with nothing but its
    -- SELECT and GET RESPONSE sent; the last thing is the warning. If the search for ETH2 fails otherwise than by NO_APPLET, it raises that
    -- error; if by NO_APPLET and the demo variable is not "1", it raises ETH1_DEMO_DISABLED.
    pub open_eth-Chosen : Chosen h (open_eth d env reader h)
    unfolding open_eth ◌>>=◌ tried
    open_eth-Chosen =
        after-Chosen (open_applet d env eth2_aid reader h) refl
          ((open_eth2-Keeps d env reader).from h here)

    eth1_only_so :
        {a : Applet} (x : Result EthExc (Applet × Kind) × Host W)
        → x.0 ≡ ok (a, eth1)
        → Chosen h x
        → eth1_demo_allowed env ≡ true
    unfolding eth1_demo_allowed
    eth1_only_so (ok (a', eth1), h') e c = rw (c.allowed) refl
    eth1_only_so (ok (a', eth2), h') e c = cc
    eth1_only_so (err q, h') e c = cc

    after-gate :
        (x : Result Exc Applet × Host W)
        → eth1_demo_allowed env ≡ false
        → Since (Only select_eth2) h.log x.1.log
        → Since (Only select_eth2) h.log (after x.0 x.1).1.log
    unfolding pure raise ◌>>=◌
    after-gate (ok a, h₁) shut s = s
    after-gate (err (card_error no_applet), h₁) shut s =
        rw (require_eth1_demo-refused d env shut h₁) s
    after-gate (err _, h₁) shut s = s

    -- Unless the demo variable is exactly "1", `open_eth` sends nothing but SELECT ETH2 and GET
    -- RESPONSE, whatever the readers and cards answer, and never returns the legacy applet.
    pub open_eth-gate :
        env.nuri_allow_eth1_demo ≢ some (codes "1")
        → Since (Only select_eth2) h.log (open_eth d env reader h).1.log
          × ((a : Applet) → (open_eth d env reader h).0 ≢ ok (a, eth1))
    open_eth-gate ne =
        let refused = eth1_demo_allowed-ne env ne in
        (
          unfold open_eth ◌>>=◌ tried in
              after-gate (open_applet d env eth2_aid reader h) refused
                ((open_eth2-Keeps d env reader).from h here),
          λ a e. cc (eth1_only_so _ e open_eth-Chosen),
        )

    abbrev demo_after : Result Exc Applet → Action (Host W) EthExc Applet
    demo_after res = elim res [
      | ok a ↦ tried {F = EthExc} (disconnect d a.reader) >>= λ _. raise (policy eth2_present)
      | err (card_error no_applet) ↦ open_eth1 d env reader
      | err (card_error _) ↦ raise (policy downgrade_refused)
      | err e ↦ raise (pcsc e)
    ]

    abbrev DemoOpened : Result EthExc Applet × Host W → Type 0
    DemoOpened (ok a, h') = Downgraded d env reader h a h'
    DemoOpened (err _, h') = Unit

    demo_after-DemoOpened :
        (x : Result Exc Applet × Host W)
        → open_applet d env eth2_aid reader h ≡ x
        → eth1_demo_allowed env ≡ true
        → DemoOpened (demo_after x.0 x.1)
    unfolding raise ◌>>=◌ tried disconnect
    demo_after-DemoOpened (ok a, h₁) e allowed = tt
    demo_after-DemoOpened (err (card_error no_applet), h₁) e allowed =
        opened_demo (open_eth1 d env reader h₁) (open_eth1-Opened d env reader h₁)
      where
        opened_demo :
            (y : Result EthExc Applet × Host W) → OpenedEth1 d env reader h₁ y → DemoOpened y
        opened_demo (ok a, h') f = joined-Downgraded d env reader e allowed f
        opened_demo (err q, h') o = tt
    demo_after-DemoOpened (err (card_error no_reader), h₁) e allowed = tt
    demo_after-DemoOpened (err (card_error no_card), h₁) e allowed = tt
    demo_after-DemoOpened (err (card_error transport), h₁) e allowed = tt
    demo_after-DemoOpened (err value_error, h₁) e allowed = tt
    demo_after-DemoOpened (err (raised q), h₁) e allowed = tt

    demo_returned :
        {a : Applet} (x : Result EthExc Applet × Host W)
        → x.0 ≡ ok a
        → DemoOpened x
        → Downgraded d env reader h a x.1
    demo_returned {a} (ok a', h') e o =
        let same : a' ≡ a = cc in subst (λ b. Downgraded d env reader h b h') same o
    demo_returned (err q, h') e o = cc

    -- `open_eth1_demo` returns the legacy applet only if the demo variable is exactly "1", the search for
    -- ETH2 ended with NO_APPLET, `confirm_eth2_absent` returned from the state that left, having seen the
    -- absence on every reader, and the applet was then opened, with nothing but its SELECT and GET
    -- RESPONSE sent; the last thing is the warning.
    pub open_eth1_demo-Downgraded :
        (a : Applet)
        → (open_eth1_demo d env reader h).0 ≡ ok a
        → Downgraded d env reader h a (open_eth1_demo d env reader h).1
    unfolding open_eth1_demo ◌>>=◌ tried
    open_eth1_demo-Downgraded a good = elim (Bool-cases (eth1_demo_allowed env)) [
      | inl allowed ↦ demo_returned _ good (
          rw (require_eth1_demo-allowed h allowed)
            (demo_after-DemoOpened (open_applet d env eth2_aid reader h) refl allowed))
      | inr refused ↦ absurd (cc (rw (require_eth1_demo-refused d env refused h) at good))
    ]
