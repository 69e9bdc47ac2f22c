-- ===== src/CardHost/Keyed.antt =====
-- What signs has compared the key of the card with the one that `info` reported.
use nuri_passkey_prf_smartca.Base.{
  ℕ, Bool, true, false, not, ◌∷◌, ◌++◌, Option, none, some, Bytes, if◌then◌else◌, Result, ok, err,
  get, ◌>>=◌, ◌≡◌, refl, sym, ap, ◌∙◌, subst, bind-split, Bool-cases, inl, inr, Keeps, Keeps-pure,
  Keeps-raise_if, Keeps-if, Keeps-bind,
}
use nuri_passkey_prf_smartca.CardHost.Signature.{Curve}
use nuri_passkey_prf_smartca.CardHost.State.{
  Fault, foreign, Settings, Link, Identity, exchanged, Card, sign_header, Purpose, signing,
  verifying_pin,
}
use nuri_passkey_prf_smartca.CardHost.Signer.{
  Method, is_eth2, transmit, tx, close, closing, open_card, load_identity, check_identity,
  sign_in_session, sign_digest, verify_apdu, verify_pin_and_sign,
}
use nuri_passkey_prf_smartca.CardHost.Silent.{parse_eth2_signature-Keeps, Keeps-get, check_sw-Keeps}
use nuri_passkey_prf_smartca.CardHost.Identified.{check_identity-back}

module _ {H W : Type 0} (curve : Curve H) (link : Link W) (settings : Settings) (key : Bytes) where
  -- The object has this key.
  abbrev pub HasKey : Card W → Type 0
  HasKey s = s.self.pubkey ≡ key

  transmit-HasKey : (apdu : Bytes) → Keeps HasKey (transmit curve link settings apdu)
  unfolding transmit
  transmit-HasKey apdu = record { from = λ s h. go s.is_open (link.transmit apdu s.world).0 s h }
    where
      sent : Card W → Option (Bytes × ℕ) → Card W
      sent s r = record s { world = (link.transmit apdu s.world).1; log = exchanged apdu r ∷ s.log }

      go :
          (up : Bool) (r : Option (Bytes × ℕ)) (s : Card W)
          → HasKey s
          → HasKey (
              (if not up
                then (err foreign, s)
                else elim r as (λ _. Result Fault (Bytes × ℕ) × Card W) [
                  | none ↦ (err foreign, sent s r)
                  | some answer ↦ (ok answer, sent s r)
                ]).1)
      go false r s h = h
      go true none s h = h
      go true (some a) s h = h

  tx-HasKey : (apdu : Bytes) (what : Purpose) → Keeps HasKey (tx curve link settings apdu what)
  unfolding tx
  tx-HasKey apdu what =
      Keeps-bind _ _ (transmit-HasKey apdu)
        λ a. Keeps-bind _ _ (check_sw-Keeps a.1 what) λ _. Keeps-pure a.0

  sign_in_session-HasKey :
      (digest : Bytes) → Keeps HasKey (sign_in_session curve link settings digest)
  unfolding sign_in_session
  sign_in_session-HasKey digest = Keeps-bind _ _ (tx-HasKey (sign_header ++ digest) signing) λ resp.
      Keeps-bind _ _ Keeps-get λ a.
        Keeps-if (is_eth2 a.self.applet) _ _
          (λ _. parse_eth2_signature-Keeps curve resp (some a.self.pubkey))
          λ _. Keeps-bind _ _ (Keeps-raise_if _ _) λ _. Keeps-pure _

module _ {H W : Type 0} (curve : Curve H) (link : Link W) (settings : Settings) (i : Identity) where
  close_lem : (s : Card W) → (close curve link settings s).1.self.pubkey ≡ s.self.pubkey
  unfolding close
  close_lem s = elim (Bool-cases s.is_open) [ inl up ↦ rw up refl | inr down ↦ rw down refl ]

  -- A session that has passed the check ends with the key that was reported.
  session-HasKey :
      (m : Card W → Method curve link settings (ℕ × ℕ)) (s : Card W) {rs : ℕ × ℕ} {t : Card W}
      → ((a : Card W) → Keeps (HasKey curve link settings i.pubkey) (m a))
      → (open_card curve link settings >>= λ _. closing curve link settings (
            load_identity curve link settings >>= λ _.
            check_identity curve link settings i >>= λ _. get >>= m))
          s
        ≡ (ok rs, t)
      → t.self.pubkey ≡ i.pubkey
  session-HasKey m s {rs} {t} k e = bind-split (open_card curve link settings) _ e λ _ s₁ e₁ k₁.
      let (t₀, whole, same) = inside _ s₁ k₁ in
      same
      ∙ bind-split (load_identity curve link settings) _ whole λ _ s₂ e₂ k₂.
        bind-split (check_identity curve link settings i) _ k₂ λ _ s₃ e₃ k₃.
          let (kind, key, is) = check_identity-back curve link settings i s₂ e₃ in
          subst (λ x. x.1.self.pubkey ≡ i.pubkey) k₃
            ((Keeps-bind {Inv = HasKey curve link settings i.pubkey} _ _ Keeps-get k).from s₃
              (ap (λ (x : Card W). x.self.pubkey) is ∙ key))
    where
      inside :
          {A : Type 0} {a : A} (n : Method curve link settings A) (s₁ : Card W)
          → closing curve link settings n s₁ ≡ (ok a, t)
          → (t₀ : Card W) × (n s₁ ≡ (ok a, t₀)) × (t.self.pubkey ≡ t₀.self.pubkey)
      inside n s₁ e =
          unfold closing in
          (
            (n s₁).1,
            ap (λ (x : Result Fault _ × Card W). (x.0, (n s₁).1)) e,
            ap (λ (x : Result Fault _ × Card W). x.1.self.pubkey) (sym e) ∙ close_lem (n s₁).1,
          )

  pub sign_digest-key :
      (digest : Bytes) (s : Card W) {rs : ℕ × ℕ} {t : Card W}
      → sign_digest curve link settings digest i s ≡ (ok rs, t)
      → t.self.pubkey ≡ i.pubkey
  unfolding sign_digest
  sign_digest-key digest s e =
      session-HasKey _ s
        (λ a.
          Keeps-bind _ _ (Keeps-raise_if _ _)
            λ _. sign_in_session-HasKey curve link settings i.pubkey digest)
        e

  pub verify_pin_and_sign-key :
      (pin digest : Bytes) (s : Card W) {rs : ℕ × ℕ} {t : Card W}
      → verify_pin_and_sign curve link settings pin digest i s ≡ (ok rs, t)
      → t.self.pubkey ≡ i.pubkey
  unfolding verify_pin_and_sign
  verify_pin_and_sign-key pin digest s e =
      session-HasKey _ s
        (λ a. Keeps-bind _ _ (Keeps-raise_if _ _) λ _. Keeps-bind _ _ (Keeps-raise_if _ _) λ _.
          Keeps-bind _ _
            (tx-HasKey curve link settings i.pubkey (verify_apdu curve link settings pin)
              verifying_pin)
            λ _. sign_in_session-HasKey curve link settings i.pubkey digest)
        e
