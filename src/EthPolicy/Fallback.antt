-- ===== src/EthPolicy/Fallback.antt =====
-- What stands between the search for ETH2 and an open legacy applet.
use nuri_passkey_prf_smartca.Base.{
  true, false, Bool, ◌∷◌, Option, none, some, equal, equal_iff, subst, ◌≡◌, ap, sym, ◌∙◌, Text,
  Result, ok, err, Action, pure, raise, tried, ◌>>=◌, split_bind, codes,
}
use nuri_passkey_prf_smartca.Pcsc.Driver.{Exc, card_error, no_applet, warned, Driver, Host, Env}
use nuri_passkey_prf_smartca.Pcsc.Ladder.{Applet, open_applet}
use nuri_passkey_prf_smartca.Pcsc.Exchange.{Only}
use nuri_passkey_prf_smartca.Pcsc.Trace.{Since, here}
use nuri_passkey_prf_smartca.EthPolicy.{
  eth2_aid, eth1_aid, EthExc, pcsc, eth1_demo_allowed, warn_eth1, confirm_eth2_absent, open_with,
  open_eth1,
}
use nuri_passkey_prf_smartca.EthPolicy.Gate.{
  select_eth1, select_eth2, open_eth2-Keeps, open_eth1_applet-Keeps,
}
use nuri_passkey_prf_smartca.EthPolicy.Audit.{AbsenceSeen, confirm-Absence}

module _ {W : Type 0} (d : Driver W) (env : Env) (reader : Option Text) where
  -- The way from `h` to `h'`, at the end of which the legacy applet `a` is open: the demo variable is
  -- "1"; ETH2 was looked for in vain; from there its absence was confirmed; from there `a` was opened;
  -- then came the warning, and nothing else.
  pub record Downgraded (h : Host W) (a : Applet) (h' : Host W) : Type 0 where
    pub allowed : env.nuri_allow_eth1_demo ≡ some (codes "1")
    pub searched : Host W
    pub missing : open_applet d env eth2_aid reader h ≡ (err (card_error no_applet), searched)
    pub search_only : Since (Only select_eth2) h.log searched.log
    pub confirmed : Host W
    pub confirming : confirm_eth2_absent d env reader searched ≡ (ok tt, confirmed)
    pub absence : AbsenceSeen d env reader searched confirmed
    pub opened : Host W
    pub opening : open_applet d env eth1_aid reader confirmed ≡ (ok a, opened)
    pub open_only : Since (Only select_eth1) confirmed.log opened.log
    pub warned_last : h' ≡ record opened { log = warned ∷ opened.log }

  -- The same from where ETH2 was missed.
  pub record Fallen (h : Host W) (a : Applet) (h' : Host W) : Type 0 where
    confirmed : Host W
    confirming : confirm_eth2_absent d env reader h ≡ (ok tt, confirmed)
    absence : AbsenceSeen d env reader h confirmed
    opened : Host W
    opening : open_applet d env eth1_aid reader confirmed ≡ (ok a, opened)
    open_only : Since (Only select_eth1) confirmed.log opened.log
    warned_last : h' ≡ record opened { log = warned ∷ opened.log }

  abbrev pub OpenedEth1 : Host W → Result EthExc Applet × Host W → Type 0
  OpenedEth1 h (ok a, h') = Fallen h a h'
  OpenedEth1 h (err _, h') = Unit

  open_with-back :
      (aid : Text) (h h' : Host W) {a : Applet}
      → open_with d env aid reader h ≡ (ok a, h')
      → open_applet d env aid reader h ≡ (ok a, h')
  unfolding open_with ◌>>=◌ tried pure raise
  open_with-back aid h h' {a} e = go (open_applet d env aid reader h) e
    where
      go :
          (x : Result Exc Applet × Host W)
          → (elim x.0 as (λ _. Action (Host W) EthExc Applet) [
            | ok a ↦ pure a
            | err e ↦ raise (pcsc e)
          ])
              x.1
            ≡ (ok a, h')
          → x ≡ (ok a, h')
      go (ok b, t) e =
          let same : b ≡ a = cc (ap (λ (y : Result EthExc Applet × Host W). y.0) e) in
          ap (λ (c : Applet). (ok c, t)) same
          ∙ ap (λ (u : Host W). (ok a, u)) (ap (λ (y : Result EthExc Applet × Host W). y.1) e)
      go (err q, t) e = cc (ap (λ (y : Result EthExc Applet × Host W). y.0) e)

  pub open_eth1-Opened : (h : Host W) → OpenedEth1 h (open_eth1 d env reader h)
  unfolding open_eth1 pure
  open_eth1-Opened h =
      split_bind (OpenedEth1 h) (confirm_eth2_absent d env reader) _ h
        (λ _ h₁ e₁.
          split_bind (OpenedEth1 h) (open_with d env eth1_aid reader) _ h₁
            (λ a h₂ e₂.
              split_bind (OpenedEth1 h) (warn_eth1 d) _ h₂
                (λ _ h₃ e₃.
                  let opening = open_with-back eth1_aid h₁ h₂ e₂ in
                  record {
                    confirmed = h₁;
                    confirming = e₁;
                    absence = rw e₁ at (confirm-Absence d env reader h);
                    opened = h₂;
                    opening = opening;
                    open_only =
                        subst
                          (λ (x : Result Exc Applet × Host W).
                            Since (Only select_eth1) h₁.log x.1.log)
                          opening ((open_eth1_applet-Keeps d env reader).from h₁ here);
                    warned_last =
                        unfold warn_eth1 in
                        ap (λ (x : Result EthExc (Unit {0}) × Host W). x.1) (sym e₃);
                  })
                (λ _ _ _. tt))
            (λ _ _ _. tt))
        (λ _ _ _. tt)

  eth1_demo_allowed-one : eth1_demo_allowed env ≡ true → env.nuri_allow_eth1_demo ≡ some (codes "1")
  unfolding eth1_demo_allowed
  eth1_demo_allowed-one e = go env.nuri_allow_eth1_demo e
    where
      go :
          (o : Option Text)
          → (elim o as (λ _. Bool) [ none ↦ false | some v ↦ equal v (codes "1") ]) ≡ true
          → o ≡ some (codes "1")
      go none e = cc
      go (some v) e = ap some ((equal_iff v (codes "1")).0 e)

  -- The way to it, put together.
  pub joined-Downgraded :
      {h h₁ h' : Host W} {a : Applet}
      → open_applet d env eth2_aid reader h ≡ (err (card_error no_applet), h₁)
      → eth1_demo_allowed env ≡ true
      → Fallen h₁ a h'
      → Downgraded h a h'
  joined-Downgraded {h} {h₁} e allowed f = record {
    allowed = eth1_demo_allowed-one allowed;
    searched = h₁;
    missing = e;
    search_only =
        subst (λ (x : Result Exc Applet × Host W). Since (Only select_eth2) h.log x.1.log) e
          ((open_eth2-Keeps d env reader).from h here);
    confirmed = f.confirmed;
    confirming = f.confirming;
    absence = f.absence;
    opened = f.opened;
    opening = f.opening;
    open_only = f.open_only;
    warned_last = f.warned_last;
  }
