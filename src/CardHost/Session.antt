-- ===== src/CardHost/Session.antt =====
-- What the methods of `CardSigner` have left in the log when they returned.
use nuri_passkey_prf_smartca.Base.{
  ℕ, Bool, true, false, not, ◌∷◌, Option, none, some, Bytes, Text, if◌then◌else◌, Result, ok, err,
  Action, pure, raise, raise_if, get, modify, tried, ◌≡◌, ◌⊎◌, inl, inr, refl, sym, ap, ◌∙◌, arith,
  bind-split, check-split, pure-back, raise-ne-ok,
}
use nuri_passkey_prf_smartca.Pcsc.Driver.{Exc, card_error}
use nuri_passkey_prf_smartca.Pcsc.Driver
use nuri_passkey_prf_smartca.EthPolicy.{Kind, eth1, eth2, eth1_aid}
use nuri_passkey_prf_smartca.CardHost.Signature.{Curve}
use nuri_passkey_prf_smartca.CardHost.State.{
  Fault, host, unproved, Settings, Link, Signer, Identity, Step, opened, closed, exchanged, Card,
  version_apdu, pubkey_apdu, Purpose, get_version, get_pubkey, sw_error, check_sw,
}
use nuri_passkey_prf_smartca.CardHost.State
use nuri_passkey_prf_smartca.CardHost.Signer.{
  transmit, tx, open_as, as_fault, confirm_absent, open_eth1, open_card,
}

module _ {S : Type 0} where
  check_sw-back :
      (sw : ℕ) (what : Purpose) {u : Unit {0}} {s t : S}
      → check_sw sw what s ≡ (ok u, t)
      → (sw ≡ 0x9000) × (t ≡ s)
  unfolding check_sw sw_error
  check_sw-back sw what {u} {s} {t} e = go (sw_error sw what) refl e
    where
      go :
          (o : Option Fault)
          → sw_error sw what ≡ o
          → (elim o as (λ _. Action S Fault (Unit {0})) [ none ↦ pure tt | some x ↦ raise x ]) s
            ≡ (ok u, t)
          → (sw ≡ 0x9000) × (t ≡ s)
      go none q e = (ground arith, (pure-back e).1)
      go (some x) q e = raise-ne-ok x s e

  pub raise_if-back :
      (b : Bool) (x : Fault) (s : S) {u : Unit {0}} {t : S}
      → raise_if b x s ≡ (ok u, t)
      → (b ≡ false) × (t ≡ s)
  raise_if-back false x s e = unfold raise_if in (refl, cc)
  raise_if-back true x s e = unfold raise_if in cc

  pub get-back : {s a t : S} → get {E = Fault} s ≡ (ok a, t) → (a ≡ s) × (t ≡ s)
  get-back {s} {a} {t} e = unfold get in (cc, cc)

  pub modify-back :
      (f : S → S) {u : Unit {0}} {s t : S} → modify {E = Fault} f s ≡ (ok u, t) → t ≡ f s
  modify-back f e = unfold modify in cc

module _ {H W : Type 0} (curve : Curve H) (link : Link W) (settings : Settings) where
  -- A key is what a PUBKEY answer of this kind of applet stands for.
  unfoldable pub KeyOf : Kind → Bytes → Bytes → Type 0
  KeyOf eth1 bytes key = bytes ≡ key
  KeyOf eth2 bytes key = (k : H) × (curve.from_string bytes ≡ some k) × (curve.compressed k ≡ key)

  -- A command was answered with 9000, and the object is as before.
  abbrev pub Answered : Bytes → Bytes → Card W → Card W → Type 0
  Answered apdu answer s t =
      (t.log ≡ exchanged apdu (some (answer, 0x9000)) ∷ s.log) × (t.self ≡ s.self)

  transmit-back :
      (apdu : Bytes) (s : Card W) {a : Bytes × ℕ} {t : Card W}
      → transmit curve link settings apdu s ≡ (ok a, t)
      → (t.log ≡ exchanged apdu (some a) ∷ s.log) × (t.self ≡ s.self)
  unfolding transmit
  transmit-back apdu s {a} {t} e = go s.is_open (link.transmit apdu s.world).0 e
    where
      sent : Option (Bytes × ℕ) → Card W
      sent r = record s { world = (link.transmit apdu s.world).1; log = exchanged apdu r ∷ s.log }

      go :
          (up : Bool) (r : Option (Bytes × ℕ))
          → (if not up
              then (err State.foreign, s)
              else elim r as (λ _. Result Fault (Bytes × ℕ) × Card W) [
                | none ↦ (err State.foreign, sent r)
                | some answer ↦ (ok answer, sent r)
              ])
            ≡ (ok a, t)
          → (t.log ≡ exchanged apdu (some a) ∷ s.log) × (t.self ≡ s.self)
      go false r e = cc
      go true none e = cc
      go true (some b) e =
          let same : b ≡ a = cc in
          let is : t ≡ sent (some b) = cc in
          (
            ap (λ (x : Card W). x.log) is ∙ ap (λ c. exchanged apdu (some c) ∷ s.log) same,
            ap (λ (x : Card W). x.self) is,
          )

  pub tx-back :
      (apdu : Bytes) (what : Purpose) (s : Card W) {answer : Bytes} {t : Card W}
      → tx curve link settings apdu what s ≡ (ok answer, t)
      → Answered apdu answer s t
  unfolding tx
  tx-back apdu what s {answer} {t} e =
      bind-split (transmit curve link settings apdu) _ e λ a s₁ e₁ k₁.
        bind-split (check_sw a.1 what) _ k₁ λ u s₂ e₂ k₂.
          let (log, self) = transmit-back apdu s e₁ in
          let (good, same) = check_sw-back a.1 what e₂ in
          let (is, still) = pure-back k₂ in
          let on : t ≡ s₁ = still ∙ same in
          let reply : a ≡ (answer, 0x9000) = cc in
          (
            ap (λ (x : Card W). x.log) on ∙ log ∙ ap (λ r. exchanged apdu (some r) ∷ s.log) reply,
            ap (λ (x : Card W). x.self) on ∙ self,
          )

  open_as-back :
      (kind : Kind) (aid : Text) (s : Card W) {r : Result Exc (Unit {0})} {t : Card W}
      → open_as curve link settings kind aid s ≡ (r, t)
      → ((r ≡ ok tt) × (t.log ≡ opened kind ∷ s.log) × (t.self.applet ≡ kind))
        ⊎ ((e : Exc) × (r ≡ err e) × (t.log ≡ s.log))
  unfolding open_as
  open_as-back kind aid s {r} {t} e = go (link.open_applet aid settings.nuri_reader s.world) e
    where
      now : Text → W → Card W
      now name w = record s {
        world = w;
        log = opened kind ∷ s.log;
        is_open = true;
        self = record s.self { applet = kind; reader = name };
      }

      go :
          (x : Result Exc Text × W)
          → (elim x.0 as (λ _. Result Exc (Unit {0}) × Card W) [
            | ok name ↦ (ok tt, now name x.1)
            | err e ↦ (err e, record s { world = x.1 })
          ])
            ≡ (r, t)
          → ((r ≡ ok tt) × (t.log ≡ opened kind ∷ s.log) × (t.self.applet ≡ kind))
            ⊎ ((e : Exc) × (r ≡ err e) × (t.log ≡ s.log))
      go (ok name, w) e =
          let is : t ≡ now name w = ap (λ (y : Result Exc (Unit {0}) × Card W). y.1) (sym e) in
          inl (
            ap (λ (y : Result Exc (Unit {0}) × Card W). y.0) (sym e),
            ap (λ (x : Card W). x.log) is,
            ap (λ (x : Card W). x.self.applet) is,
          )
      go (err x, w) e =
          let is : t ≡ record s { world = w } =
            ap (λ (y : Result Exc (Unit {0}) × Card W). y.1) (sym e) in
          inr (
            x,
            ap (λ (y : Result Exc (Unit {0}) × Card W). y.0) (sym e),
            ap (λ (x : Card W). x.log) is,
          )

  -- An applet was opened, of the kind that the object has.
  abbrev pub Opened : Card W → Card W → Type 0
  Opened s t = t.log ≡ opened t.self.applet ∷ s.log

  tried-back :
      {A : Type 0} (m : Action (Card W) Exc A) (s : Card W) {r : Result Exc A} {t : Card W}
      → tried {F = Fault} m s ≡ (ok r, t)
      → m s ≡ (r, t)
  tried-back {A} m s {r} {t} e =
      unfold tried in (ap (λ (y : Result Fault (Result Exc A) × Card W). (out y.0 r, y.1)) e)
    where
      out : Result Fault (Result Exc A) → Result Exc A → Result Exc A
      out (ok a) d = a
      out (err x) d = d

  confirm_absent-back :
      (s : Card W) {u : Unit {0}} {t : Card W}
      → confirm_absent curve link settings s ≡ (ok u, t)
      → t.log ≡ s.log
  unfolding confirm_absent
  confirm_absent-back s e = ap (λ (y : Result Fault (Unit {0}) × Card W). y.1.log) (sym e)

  -- What is left of an opening that is not repeated.
  open_as-Opened :
      (kind : Kind) (aid : Text) (s₁ s₂ : Card W)
      → open_as curve link settings kind aid s₁ ≡ (ok tt, s₂)
      → Opened s₁ s₂
  open_as-Opened kind aid s₁ s₂ e = elim (open_as-back kind aid s₁ e) [
    | inl (_, log, applet) ↦ log ∙ ap (λ k. opened k ∷ s₁.log) (sym applet)
    | inr (x, q, log) ↦ cc
  ]

  open_eth1-back :
      (s : Card W) {u : Unit {0}} {t : Card W}
      → open_eth1 curve link settings s ≡ (ok u, t)
      → Opened s t
  unfolding open_eth1
  open_eth1-back s {u} {t} e = check-split _ _ _ e λ c k₁.
      bind-split (confirm_absent curve link settings) _ k₁ λ _ s₁ e₁ k₂.
        bind-split (tried (open_as curve link settings eth1 eth1_aid)) _ k₂ λ r s₂ e₂ k₃.
          bind-split
            (elim r as (λ _. Action (Card W) Fault (Unit {0})) [
              | ok _ ↦ pure tt
              | err x ↦ raise (as_fault curve link settings x)
            ])
            _ k₃
            λ _ s₃ e₃ k₄.
              go r s₁ s₂ s₃ (confirm_absent-back s e₁) (tried-back _ s₁ e₂) e₃ (modify-back _ k₄)
    where
      go :
          (r : Result Exc (Unit {0})) (s₁ s₂ s₃ : Card W) {v : Unit {0}}
          → s₁.log ≡ s.log
          → open_as curve link settings eth1 eth1_aid s₁ ≡ (r, s₂)
          → (elim r as (λ _. Action (Card W) Fault (Unit {0})) [
            | ok _ ↦ pure tt
            | err x ↦ raise (as_fault curve link settings x)
          ])
              s₂
            ≡ (ok v, s₃)
          → t ≡ record s₃ { warned = true }
          → Opened s t
      go (ok _) s₁ s₂ s₃ same e₂ e₃ is =
          let on : s₃ ≡ s₂ = (pure-back e₃).1 in
          ap (λ (x : Card W). x.log) is
          ∙ ap (λ (x : Card W). x.log) on
          ∙ open_as-Opened eth1 eth1_aid s₁ s₂ e₂
          ∙ ap (λ l. opened s₂.self.applet ∷ l) same
          ∙ ap (λ (x : Card W). opened x.self.applet ∷ s.log) (sym on)
          ∙ ap (λ (x : Card W). opened x.self.applet ∷ s.log) (sym is)
      go (err x) s₁ s₂ s₃ same e₂ e₃ is = raise-ne-ok _ s₂ e₃

  pub open_card-back :
      (s : Card W) {u : Unit {0}} {t : Card W}
      → open_card curve link settings s ≡ (ok u, t)
      → Opened s t
  unfolding open_card
  open_card-back s {u} {t} e = check-split _ _ _ e λ c k₁.
      bind-split (tried (open_as curve link settings eth2 settings.eth2_aid)) _ k₁
        λ r s₁ e₁ k₂. go r s₁ (tried-back _ s e₁) k₂
    where
      failed : (x : Fault) (s₁ : Card W) → raise {A = Unit {0}} x s₁ ≡ (ok u, t) → Opened s t
      failed x s₁ e = raise-ne-ok x s₁ e

      go :
          (r : Result Exc (Unit {0})) (s₁ : Card W)
          → open_as curve link settings eth2 settings.eth2_aid s ≡ (r, s₁)
          → (elim r as (λ _. Action (Card W) Fault (Unit {0})) [
            | ok _ ↦ pure tt
            | err (card_error Driver.no_applet) ↦ open_eth1 curve link settings
            | err e ↦ raise (as_fault curve link settings e)
          ])
              s₁
            ≡ (ok u, t)
          → Opened s t
      go (ok _) s₁ e₁ k =
          let on : t ≡ s₁ = (pure-back k).1 in
          ap (λ (x : Card W). x.log) on
          ∙ open_as-Opened eth2 settings.eth2_aid s s₁ e₁
          ∙ ap (λ (x : Card W). opened x.self.applet ∷ s.log) (sym on)
      go (err (card_error Driver.no_applet)) s₁ e₁ k =
          elim (open_as-back eth2 settings.eth2_aid s e₁) [
            | inl (q, _, _) ↦ cc
            | inr (x, _, log) ↦ open_eth1-back s₁ k ∙ ap (λ l. opened t.self.applet ∷ l) log
          ]
      go (err (card_error Driver.no_reader)) s₁ e₁ k = failed _ s₁ k
      go (err (card_error Driver.no_card)) s₁ e₁ k = failed _ s₁ k
      go (err (card_error Driver.transport)) s₁ e₁ k = failed _ s₁ k
      go (err Driver.value_error) s₁ e₁ k = failed _ s₁ k
      go (err (Driver.raised x)) s₁ e₁ k = failed _ s₁ k
