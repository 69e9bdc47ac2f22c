-- ===== src/CardHost/Identified.antt =====
-- What `load_identity` has read when it returned, and what `check_identity` has compared.
use nuri_passkey_prf_smartca.Base.{
  ◌/◌, ◌%◌, Bool, true, false, ◌||◌, not, ◌∷◌, none, some, Bytes, ◌==◌, equal, equal_iff,
  if◌then◌else◌, get_or, ok, pure, get, modify, ◌≡◌, refl, sym, ap, ◌∙◌, subst, bind-split,
  check-split, if-split, some-split, pure-back,
}
use nuri_passkey_prf_smartca.EthPolicy.{Kind, eth1, eth2}
use nuri_passkey_prf_smartca.CardHost.Signature.{Curve, malformed}
use nuri_passkey_prf_smartca.CardHost.State.{
  unproved, Settings, Link, Signer, Identity, exchanged, Card, version_apdu, pubkey_apdu,
  get_version, get_pubkey,
}
use nuri_passkey_prf_smartca.CardHost.Session.{KeyOf, raise_if-back, get-back, modify-back, tx-back}
use nuri_passkey_prf_smartca.CardHost.Signer.{
  is_eth2, same_kind, compress, tx, read_state, key_of, load_identity, check_identity,
}

same_kind_lem : (a b : Kind) → same_kind a b ≡ true → a ≡ b
same_kind_lem eth1 eth1 e = refl
same_kind_lem eth2 eth2 e = refl
same_kind_lem eth1 eth2 e = cc
same_kind_lem eth2 eth1 e = cc

pub both : (a b : Bool) → (not a || not b) ≡ false → (a ≡ true) × (b ≡ true)
both true true e = (refl, refl)
both true false e = cc
both false b e = cc

module _ {H W : Type 0} (curve : Curve H) (link : Link W) (settings : Settings) where
  compress-back :
      {S : Type 0} (bytes : Bytes) (s : S) {key : Bytes} {t : S}
      → compress curve bytes s ≡ (ok key, t)
      → ((k : H) × (curve.from_string bytes ≡ some k) × (curve.compressed k ≡ key)) × (t ≡ s)
  unfolding compress
  compress-back bytes s e =
      some-split (unproved malformed) (λ k. pure (curve.compressed k)) (curve.from_string bytes) e
        λ k q p. let (same, still) = pure-back p in ((k, q, sym same), still)

  key_of-back :
      {S : Type 0} (kind : Kind) (bytes : Bytes) (s : S) {key : Bytes} {t : S}
      → key_of curve link settings kind bytes s ≡ (ok key, t)
      → KeyOf curve link settings kind bytes key × (t ≡ s)
  unfolding key_of KeyOf
  key_of-back eth1 bytes s e =
      check-split _ _ _ e λ c k. let (same, still) = pure-back k in (sym same, still)
  key_of-back eth2 bytes s e = check-split _ _ _ e λ c k. compress-back bytes s k

  read_state-back :
      (ver : Bytes) (s : Card W) {u : Unit {0}} {t : Card W}
      → read_state curve link settings ver s ≡ (ok u, t)
      → (t.log ≡ s.log)
        × (t.self.applet ≡ s.self.applet)
        × (t.self.pin_set ≡ ((get_or ver 7 0 / 2) % 2 == 1))
  unfolding read_state
  read_state-back ver s {u} {t} e = check-split _ _ _ e λ c k₁.
      bind-split (modify _) _ k₁ λ _ s₁ e₁ k₂.
        let is : t ≡ fill s = (raise_if-back _ _ s₁ k₂).1 ∙ modify-back _ e₁ in
        (
          ap (λ (x : Card W). x.log) is,
          ap (λ (x : Card W). x.self.applet) is,
          ap (λ (x : Card W). x.self.pin_set) is,
        )
    where
      fill : Card W → Card W
      fill s = record s {
        self = record s.self {
          pin_set = (get_or ver 7 0 / 2) % 2 == 1;
          pin_tries_left = if (get_or ver 7 0 / 2) % 2 == 1 then some (get_or ver 8 0) else none;
        };
      }

  -- The state after a first part of `load_identity`: what the VERSION said of the PIN.
  record Versioned (ver : Bytes) (s t : Card W) : Type 0 where
    log : t.log ≡ exchanged version_apdu (some (ver, 0x9000)) ∷ s.log
    applet : t.self.applet ≡ s.self.applet
    pin : is_eth2 t.self.applet ≡ true → t.self.pin_set ≡ ((get_or ver 7 0 / 2) % 2 == 1)

  -- The answers that `load_identity` had, the key that it keeps, and what it says of the PIN.
  pub record Loaded (s t : Card W) : Type 0 where
    pub ver : Bytes
    pub answer : Bytes
    pub log :
        t.log
        ≡ exchanged pubkey_apdu (some (answer, 0x9000))
          ∷ exchanged version_apdu (some (ver, 0x9000))
          ∷ s.log
    pub applet : t.self.applet ≡ s.self.applet
    pub key : KeyOf curve link settings t.self.applet answer t.self.pubkey
    pub pin : is_eth2 t.self.applet ≡ true → t.self.pin_set ≡ ((get_or ver 7 0 / 2) % 2 == 1)

  state-Versioned :
      (ver : Bytes) (s s₁ : Card W) {u : Unit {0}} {t : Card W}
      → (s₁.log ≡ exchanged version_apdu (some (ver, 0x9000)) ∷ s.log)
        × (s₁.self.applet ≡ s.self.applet)
      → (if is_eth2 s₁.self.applet then read_state curve link settings ver else pure tt) s₁
        ≡ (ok u, t)
      → Versioned ver s t
  state-Versioned ver s s₁ (log, applet) e =
      if-split _ _ (is_eth2 s₁.self.applet) e
        (λ q k.
          let (same, kind, bit) = read_state-back ver s₁ k in
          record { log = same ∙ log; applet = kind ∙ applet; pin = λ _. bit })
        (λ q k.
          let still = (pure-back k).1 in
          record {
            log = ap (λ (x : Card W). x.log) still ∙ log;
            applet = ap (λ (x : Card W). x.self.applet) still ∙ applet;
            pin = λ r. let no = ap (λ (x : Card W). is_eth2 x.self.applet) still in cc;
          })

  key-Loaded :
      (ver answer key : Bytes) (s s₁ s₂ t : Card W)
      → Versioned ver s s₁
      → (s₂.log ≡ exchanged pubkey_apdu (some (answer, 0x9000)) ∷ s₁.log) × (s₂.self ≡ s₁.self)
      → KeyOf curve link settings s₁.self.applet answer key
      → t ≡ record s₂ { self = record s₂.self { pubkey = key } }
      → Loaded s t
  key-Loaded ver answer key s s₁ s₂ t v (log, self) k is =
      let kind : t.self.applet ≡ s₁.self.applet =
        ap (λ (x : Card W). x.self.applet) is ∙ ap (λ (x : Signer). x.applet) self in
      let mine : t.self.pubkey ≡ key = ap (λ (x : Card W). x.self.pubkey) is in
      record {
        ver = ver;
        answer = answer;
        log =
            ap (λ (x : Card W). x.log) is
            ∙ log
            ∙ ap (λ l. exchanged pubkey_apdu (some (answer, 0x9000)) ∷ l) v.log;
        applet = kind ∙ v.applet;
        key =
            subst (λ a. KeyOf curve link settings a answer t.self.pubkey) (sym kind)
              (subst (λ b. KeyOf curve link settings s₁.self.applet answer b) (sym mine) k);
        pin = λ q.
            ap (λ (x : Card W). x.self.pin_set) is
            ∙ ap (λ (x : Signer). x.pin_set) self
            ∙ v.pin (sym (ap is_eth2 kind) ∙ q);
      }

  pub load_identity-back :
      (s : Card W) {u : Unit {0}} {t : Card W}
      → load_identity curve link settings s ≡ (ok u, t)
      → Loaded s t
  unfolding load_identity
  load_identity-back s {u} {t} e = bind-split (modify _) _ e λ _ s₁ e₁ k₁.
      bind-split (tx curve link settings version_apdu get_version) _ k₁ λ ver s₂ e₂ k₂.
        bind-split (modify _) _ k₂ λ _ s₃ e₃ k₃. bind-split get _ k₃ λ a s₄ e₄ k₄.
          bind-split (if is_eth2 a.self.applet then read_state curve link settings ver else pure tt)
            _ k₄
            λ _ s₅ e₅ k₅.
              bind-split (tx curve link settings pubkey_apdu get_pubkey) _ k₅ λ answer s₆ e₆ k₆.
                bind-split (key_of curve link settings a.self.applet answer) _ k₆ λ key s₇ e₇ k₇.
                  let self₁ = ap (λ (x : Card W). x.self.applet) (modify-back _ e₁) in
                  let log₁ = ap (λ (x : Card W). x.log) (modify-back _ e₁) in
                  let (log₂, self₂) = tx-back curve link settings version_apdu get_version s₁ e₂ in
                  let is₃ = modify-back _ e₃ in
                  let (is_a, is₄) = get-back e₄ in
                  let kind : s₄.self.applet ≡ s.self.applet =
                    ap (λ (x : Card W). x.self.applet) (is₄ ∙ is₃)
                    ∙ ap (λ (x : Signer). x.applet) self₂
                    ∙ self₁ in
                  let log : s₄.log ≡ exchanged version_apdu (some (ver, 0x9000)) ∷ s.log =
                    ap (λ (x : Card W). x.log) (is₄ ∙ is₃)
                    ∙ log₂
                    ∙ ap (λ l. exchanged version_apdu (some (ver, 0x9000)) ∷ l) log₁ in
                  let v : Versioned ver s s₅ =
                    state-Versioned ver s s₄ (log, kind)
                      (subst
                        (λ (x : Card W).
                          (if is_eth2 x.self.applet
                              then read_state curve link settings ver
                              else pure tt)
                            s₄
                          ≡ (ok tt, s₅))
                        (is_a ∙ sym is₄) e₅) in
                  let (k, is₇) = key_of-back a.self.applet answer s₆ e₇ in
                  let same : a.self.applet ≡ s₅.self.applet =
                    ap (λ (x : Card W). x.self.applet) (is_a ∙ sym is₄) ∙ kind ∙ sym v.applet in
                  key-Loaded ver answer key s s₅ s₆ t v
                    (tx-back curve link settings pubkey_apdu get_pubkey s₅ e₆)
                    (subst (λ x. KeyOf curve link settings x answer key) same k)
                    (modify-back _ k₇
                      ∙ ap (λ (x : Card W). record x { self = record x.self { pubkey = key } }) is₇)

  pub check_identity-back :
      (i : Identity) (s : Card W) {u : Unit {0}} {t : Card W}
      → check_identity curve link settings i s ≡ (ok u, t)
      → (s.self.applet ≡ i.applet) × (s.self.pubkey ≡ i.pubkey) × (t ≡ s)
  unfolding check_identity
  check_identity-back i s e = bind-split get _ e λ a s₁ e₁ k₁.
      let (is_a, is₁) = get-back e₁ in
      let (passed, still) = raise_if-back _ _ s₁ k₁ in
      let (kinds, keys) =
        both (same_kind a.self.applet i.applet) (equal a.self.pubkey i.pubkey) passed in
      (
        ap (λ (x : Card W). x.self.applet) (sym is_a) ∙ same_kind_lem a.self.applet i.applet kinds,
        ap (λ (x : Card W). x.self.pubkey) (sym is_a) ∙ (equal_iff a.self.pubkey i.pubkey).0 keys,
        still ∙ is₁,
      )
