-- ===== src/CardHost/Signing.antt =====
-- The two ways to sign send a SIGN only behind its checks.
use nuri_passkey_prf_smartca.Base.{
  ℕ, true, false, ◌&&◌, List, ◌∷◌, some, Bytes, get, ◌>>=◌, ◌≡◌, inl, inr, refl, sym, ap, ◌∙◌,
  subst, Bool, after_check, after_bind, Keeps-bind, Keeps-raise_if,
}
use nuri_passkey_prf_smartca.EthPolicy.{Kind, eth1, eth2}
use nuri_passkey_prf_smartca.CardHost.Signature.{Curve}
use nuri_passkey_prf_smartca.CardHost.State.{
  Settings, Link, Identity, Step, opened, exchanged, Card, version_apdu, pubkey_apdu, verifying_pin,
}
use nuri_passkey_prf_smartca.CardHost.Signer.{
  Method, is_eth2, tx, closing, open_card, load_identity, check_identity, sign_digest, verify_apdu,
  verify_pin_and_sign,
}
use nuri_passkey_prf_smartca.CardHost.Silent.{
  Keeps-get, close-Inv, tx-Keeps, open_card-Keeps, load_identity-Keeps,
}
use nuri_passkey_prf_smartca.CardHost.Session.{KeyOf, get-back, tx-back, open_card-back}
use nuri_passkey_prf_smartca.CardHost.Identified.{
  both, Loaded, load_identity-back, check_identity-back,
}
use nuri_passkey_prf_smartca.CardHost.Guarded.{pin_bit, Good, Stable-Good, sign_in_session-Good}

eth2_lem : (k : Kind) → is_eth2 k ≡ true → k ≡ eth2
eth2_lem eth2 e = refl
eth2_lem eth1 e = cc

module _ {H W : Type 0} (curve : Curve H) (link : Link W) (settings : Settings) (i : Identity) where
  abbrev Inv : Card W → Type 0
  Inv s = Good curve link settings (some i) s.log

  -- A session that was opened on this log has read the identity.
  record Ready (log : List Step) (s : Card W) : Type 0 where
    ver : Bytes
    answer : Bytes
    shape :
        s.log
        ≡ exchanged pubkey_apdu (some (answer, 0x9000))
          ∷ exchanged version_apdu (some (ver, 0x9000))
          ∷ opened i.applet
          ∷ log
    key : KeyOf curve link settings i.applet answer i.pubkey
    applet : s.self.applet ≡ i.applet
    pin : is_eth2 i.applet ≡ true → s.self.pin_set ≡ pin_bit ver

  ready :
      (s s₁ s₂ s₃ : Card W)
      → s₁.log ≡ opened s₁.self.applet ∷ s.log
      → Loaded curve link settings s₁ s₂
      → (s₂.self.applet ≡ i.applet) × (s₂.self.pubkey ≡ i.pubkey) × (s₃ ≡ s₂)
      → Ready s.log s₃
  ready s s₁ s₂ s₃ on l (kind, key, is) = record {
    ver = l.ver;
    answer = l.answer;
    shape =
        ap (λ (x : Card W). x.log) is
        ∙ l.log
        ∙ ap
            (λ r.
              exchanged pubkey_apdu (some (l.answer, 0x9000))
              ∷ exchanged version_apdu (some (l.ver, 0x9000))
              ∷ r)
            (on ∙ ap (λ k. opened k ∷ s.log) (sym l.applet ∙ kind));
    key =
        subst (λ a. KeyOf curve link settings a l.answer i.pubkey) kind
          (subst (λ b. KeyOf curve link settings s₂.self.applet l.answer b) key l.key);
    applet = ap (λ (x : Card W). x.self.applet) is ∙ kind;
    pin = λ q. ap (λ (x : Card W). x.self.pin_set) is ∙ l.pin (ap is_eth2 kind ∙ q);
  }

  check_Inv : (s : Card W) → Inv s → Inv (check_identity curve link settings i s).1
  unfolding check_identity
  check_Inv = (Keeps-bind {Inv = Inv} _ _ Keeps-get λ a. Keeps-raise_if _ _).from

  -- The beginning that both ways to sign share.
  in_session :
      (m : Card W → Method curve link settings (ℕ × ℕ)) (s : Card W)
      → Inv s
      → ((t : Card W) → Ready s.log t → Inv t → Inv (m t t).1)
      → Inv
          ((open_card curve link settings >>= λ _. closing curve link settings (
              load_identity curve link settings >>= λ _.
              check_identity curve link settings i >>= λ _. get >>= m))
            s).1
  in_session m s g next =
      after_bind Inv (open_card curve link settings) _ s
        ((open_card-Keeps curve link settings (Stable-Good curve link settings (some i))).from s g)
        λ _ s₁ e₁ g₁.
          unfold closing in
          close-Inv curve link settings (Stable-Good curve link settings (some i)) _ (
            after_bind Inv (load_identity curve link settings) _ s₁
              ((load_identity-Keeps curve link settings
                  (Stable-Good curve link settings (some i))).from
                s₁ g₁)
              λ _ s₂ e₂ g₂.
                after_bind Inv (check_identity curve link settings i) _ s₂ (check_Inv s₂ g₂)
                  λ _ s₃ e₃ g₃.
                    after_bind Inv get _ s₃ ((Keeps-get {Inv = Inv}).from s₃ g₃) λ a s₄ e₄ g₄.
                      let (is_a, is₄) = get-back e₄ in
                      subst (λ x. Inv (m a x).1) (sym is₄)
                        (subst (λ x. Inv (m x s₃).1) (sym is_a)
                          (next s₃
                            (ready s s₁ s₂ s₃ (open_card-back curve link settings s e₁)
                              (load_identity-back curve link settings s₁ e₂)
                              (check_identity-back curve link settings i s₂ e₃))
                            g₃)))

  pub sign_digest-Good :
      (digest : Bytes) (s : Card W) → Inv s → Inv (sign_digest curve link settings digest i s).1
  unfolding sign_digest
  sign_digest-Good digest s g = in_session _ s g λ t r h. after_check Inv _ _ _ t h λ c.
      sign_in_session-Good curve link settings (some i) digest t h (record {
        identity = i;
        digest = digest;
        is_sign = refl;
        ver = r.ver;
        answer = r.answer;
        rest = s.log;
        reported_last = g.1;
        same_key = r.key;
        shape =
            inl (r.shape, λ q. sym (r.pin q) ∙ unlocked t.self.pin_set (ap is_eth2 r.applet ∙ q) c);
      })
    where
      unlocked : {a : Bool} (b : Bool) → a ≡ true → (a && b) ≡ false → b ≡ false
      unlocked b e c = rw e at c

  pub verify_pin_and_sign-Good :
      (pin digest : Bytes) (s : Card W)
      → Inv s
      → Inv (verify_pin_and_sign curve link settings pin digest i s).1
  unfolding verify_pin_and_sign
  verify_pin_and_sign-Good pin digest s g = in_session _ s g λ t r h. after_check Inv _ _ _ t h λ c.
      after_check Inv _ _ _ t h λ c₂.
        after_bind Inv (tx curve link settings (verify_apdu curve link settings pin) verifying_pin)
          _ t
          ((tx-Keeps curve link settings (Stable-Good curve link settings (some i))
              (verify_apdu curve link settings pin) verifying_pin (λ e. cc)).from
            t h)
          λ out t₁ e₁ h₁.
            let (kind, set) = both (is_eth2 t.self.applet) t.self.pin_set c in
            let of_card : is_eth2 i.applet ≡ true = ap is_eth2 (sym r.applet) ∙ kind in
            sign_in_session-Good curve link settings (some i) digest t₁ h₁ (record {
              identity = i;
              digest = digest;
              is_sign = refl;
              ver = r.ver;
              answer = r.answer;
              rest = s.log;
              reported_last = g.1;
              same_key = r.key;
              shape = inr (
                pin,
                out,
                (tx-back curve link settings (verify_apdu curve link settings pin) verifying_pin t
                      e₁).0
                    ∙ ap
                        (λ l.
                          exchanged (verify_apdu curve link settings pin) (some (out, 0x9000)) ∷ l)
                        r.shape,
                eth2_lem i.applet of_card,
                sym (r.pin of_card) ∙ set,
              );
            })
