-- ===== src/Attest/Personal.antt =====
-- `personalize`, when it returns: what it did and what the card then says.
use nuri_passkey_prf_smartca.Base.{
  ℕ, ◌≤◌, Bool, true, false, ◌&&◌, not, List, [], ◌∷◌, Bytes, ◌≡◌, refl, sym, ap, ◌∙◌, arith, leb,
  ==_iff, equal, equal_iff, is_nil, length, ok, Action, lift, bind-split, check-split, not-false,
  pure-back,
}
use nuri_passkey_prf_smartca.Attest.Evidence.{
  Failure, refused, Crypto, Info, is_signature, parse_info,
}
use nuri_passkey_prf_smartca.Attest.Format.{info_onto}
use nuri_passkey_prf_smartca.Attest.Parse.{IsInfo}
use nuri_passkey_prf_smartca.Attest.Whole.{parse_info_iff}
use nuri_passkey_prf_smartca.Attest.Exchange.{
  Entry, answered, Session, bool_eq, same_info, command, class_of, send, card_command, read_back,
  seal_card, sealed_or_not, personalize,
}
use nuri_passkey_prf_smartca.Attest.Pages.{lift-back, send-back}

bool_eq-back : (a b : Bool) → bool_eq a b ≡ true → a ≡ b
bool_eq-back true b e = sym e
bool_eq-back false true e = cc e
bool_eq-back false false e = refl

and_left : (a : Bool) {b : Bool} → a && b ≡ true → (a ≡ true) × (b ≡ true)
and_left true e = (refl, e)
and_left false e = cc e

pub same_info-back : (i j : Info) → same_info i j ≡ true → i ≡ j
unfolding same_info
same_info-back i j e =
    let (q, cert) =
      and_left
        (equal i.card_id j.card_id
          && equal i.aid j.aid
          && equal i.attestation_pub j.attestation_pub
          && bool_eq i.sealed j.sealed)
        e in
    let (r, sealed) =
      and_left
        (equal i.card_id j.card_id
          && equal i.aid j.aid
          && equal i.attestation_pub j.attestation_pub)
        q in
    let (s, raw) = and_left (equal i.card_id j.card_id && equal i.aid j.aid) r in
    let (id, aid) = and_left (equal i.card_id j.card_id) s in
    λ k. record {
      card_id = (equal_iff i.card_id j.card_id).0 id k;
      aid = (equal_iff i.aid j.aid).0 aid k;
      attestation_pub = (equal_iff i.attestation_pub j.attestation_pub).0 raw k;
      sealed = bool_eq-back i.sealed j.sealed sealed k;
      cert = (equal_iff i.cert j.cert).0 cert k;
    }

is_nil-back : (xs : Bytes) → is_nil xs ≡ true → xs ≡ []
is_nil-back [] e = refl
is_nil-back (x ∷ xs) e = cc e

not-true : (b : Bool) → not b ≡ true → b ≡ false
not-true true e = cc e
not-true false e = refl

module _ {C : Type 0} (transmit : Bytes → Action C Failure (Bytes × ℕ)) where
  pub card_command-back :
      (cla ins : ℕ) (payload : Bytes) (s : Session C) {t : Session C} {a : Bytes}
      → card_command transmit cla ins payload s ≡ (ok a, t)
      → (t.log ≡ answered (command cla ins payload) a 0x9000 ∷ s.log) × (length payload ≤ 255)
  unfolding card_command
  card_command-back cla ins payload s {t} {a} e = check-split _ refused _ e λ c₁ k₁.
      bind-split (send transmit (command cla ins payload)) _ k₁ λ (response, sw) s₁ e₁ k₂.
        check-split _ refused _ k₂ λ c₂ k₃.
          let (same, still) = pure-back k₃ in
          let code : sw ≡ 0x9000 = (==_iff _ _).0 (not-false _ c₂) in
          (
            rw (still, same) (send-back transmit (command cla ins payload) s e₁ ∙ rw code),
            size (length payload) (not-false _ c₁),
          )
    where
      size : (n : ℕ) → leb n 255 ≡ true → n ≤ 255
      size n h = ground arith

  module _ {K : Type 0} (crypto : Crypto K) where
    -- INFO on the card, as the log shows it.
    abbrev pub shows : ℕ → Info → Entry
    shows cla i = answered (command cla 0x70 []) (info_onto i []) 0x9000

    pub read_back-back :
        (cla : ℕ) (wanted : Info) (s : Session C) {t : Session C} {i : Info}
        → read_back crypto transmit cla wanted s ≡ (ok i, t)
        → (i ≡ wanted) × (t.log ≡ shows cla wanted ∷ s.log) × IsInfo crypto wanted
    unfolding read_back
    read_back-back cla wanted s {t} {i} e =
        bind-split (card_command transmit cla 0x70 []) _ e λ bytes s₁ e₁ k₁.
          bind-split (lift (parse_info crypto bytes)) _ k₁ λ j s₂ e₂ k₂.
            check-split _ refused _ k₂ λ c k₃.
              let (same, still) = pure-back k₃ in
              let (p, u) = lift-back e₂ in
              let is : j ≡ wanted = same_info-back j wanted (not-false _ c) in
              let (w, b) = (parse_info_iff crypto bytes j).0 p in
              (
                same ∙ is,
                ap (λ (x : Session C). x.log) (still ∙ u)
                    ∙ (card_command-back cla 0x70 [] s e₁).0
                    ∙ rw (b, is) refl,
                rw (← is) w,
              )

    -- What a store adds to the log, newest first, and a seal.
    abbrev pub stored : ℕ → Info → Bytes → Bytes → List Entry → List Entry
    stored cla before certificate response log =
        shows cla (record before { cert = certificate })
        ∷ answered (command cla 0x71 certificate) response 0x9000
        ∷ shows cla before
        ∷ log

    abbrev pub sealed_log : Bool → ℕ → Info → Bytes → List Entry → List Entry
    sealed_log false cla wanted response log = log
    sealed_log true cla wanted response log =
        shows cla (record wanted { sealed = true })
        ∷ answered (command cla 0x73 []) response 0x9000
        ∷ log

    sealed_or_not-back :
        (seal : Bool) (cla : ℕ) (wanted after : Info) (s : Session C) {t : Session C} {i : Info}
        → after ≡ wanted
        → wanted.sealed ≡ false
        → sealed_or_not crypto transmit seal cla wanted after s ≡ (ok i, t)
        → (r : Bytes) × (i ≡ record wanted { sealed = seal })
          × (t.log ≡ sealed_log seal cla wanted r s.log)
    unfolding sealed_or_not seal_card
    sealed_or_not-back true cla wanted after s {t} {i} a open_ e =
        bind-split (card_command transmit cla 0x73 []) _ e λ r s₁ e₁ k₁.
          let (same, l, w) = read_back-back cla (record wanted { sealed = true }) s₁ k₁ in
          (r, same, l ∙ rw (card_command-back cla 0x73 [] s e₁).0 refl)
    sealed_or_not-back false cla wanted after s {t} {i} a open_ e =
        let (same, still) = pure-back e in
        let kept : wanted ≡ record wanted { sealed = false } =
          λ k. record wanted { sealed = open_ k } in
        ([], same ∙ a ∙ kept, ap (λ (x : Session C). x.log) still)

    -- When `personalize` returns, the INFO that was signed is a well-formed one, with no certificate and
    -- not sealed; it is what the card showed right before the store; the certificate is strict DER of at
    -- most 255 bytes, and the card then showed the same INFO with just that certificate. Asked to seal, it
    -- sealed after that and the card showed the same INFO as sealed; not asked, it sent nothing more. The
    -- INFO that is returned is the last that the card showed.
    pub personalize-back :
        (expected certificate : Bytes) (seal : Bool) (s : Session C) {t : Session C} {i : Info}
        → personalize crypto transmit expected certificate seal s ≡ (ok i, t)
        → (before : Info) × (a : Bytes) × (b : Bytes) × IsInfo crypto before
          × (expected ≡ info_onto before [])
          × (before.sealed ≡ false)
          × (before.cert ≡ [])
          × (is_signature crypto certificate ≡ true)
          × (length certificate ≤ 255)
          × (i ≡ record before { cert = certificate; sealed = seal })
          × (t.log
              ≡ sealed_log seal
                  (class_of before.aid)
                  (record before { cert = certificate })
                  b
                  (stored (class_of before.aid) before certificate a s.log))
    unfolding personalize
    personalize-back expected certificate seal s {t} {i} e =
        bind-split (lift (parse_info crypto expected)) _ e λ before s₁ e₁ k₁.
          check-split _ refused _ k₁ λ c₁ k₂. check-split _ refused _ k₂ λ c₂ k₃.
            bind-split (card_command transmit (class_of before.aid) 0x70 []) _ k₃ λ live s₂ e₂ k₄.
              check-split _ refused _ k₄ λ c₃ k₅.
                bind-split (card_command transmit (class_of before.aid) 0x71 certificate) _ k₅
                  λ a s₃ e₃ k₆.
                    bind-split
                      (read_back crypto transmit (class_of before.aid)
                        (record before { cert = certificate }))
                      _ k₆
                      λ after s₄ e₄ k₇.
                        let (p, u) = lift-back e₁ in
                        let (w, shape) = (parse_info_iff crypto expected before).0 p in
                        let (not_sealed, no_cert) = and_left (not before.sealed) (not-false _ c₁) in
                        let open_ : before.sealed ≡ false = not-true before.sealed not_sealed in
                        let (l₂, _) = card_command-back (class_of before.aid) 0x70 [] s₁ e₂ in
                        let (l₃, size) =
                          card_command-back (class_of before.aid) 0x71 certificate s₂ e₃ in
                        let (is, l₄, _) =
                          read_back-back (class_of before.aid)
                            (record before { cert = certificate }) s₃ e₄ in
                        let same : live ≡ info_onto before [] =
                          (equal_iff live expected).0 (not-false _ c₃) ∙ shape in
                        let (b, result, l₅) =
                          sealed_or_not-back seal (class_of before.aid)
                            (record before { cert = certificate }) after s₄ is open_ k₇ in
                        (
                          before,
                          a,
                          b,
                          w,
                          shape,
                          open_,
                          is_nil-back before.cert no_cert,
                          not-false _ c₂,
                          size,
                          result,
                          l₅ ∙ rw (l₄, l₃, l₂, same, u) refl,
                        )
