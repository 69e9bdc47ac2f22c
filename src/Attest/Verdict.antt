-- ===== src/Attest/Verdict.antt =====
-- What `verify_response` accepts, both directions, and the messages under signature.
use nuri_passkey_prf_smartca.Base.{
  ℕ, ◌≤◌, true, ◌&&◌, not, [], ◌∷◌, Bytes, ◌≡◌, ◌≢◌, ◌↔◌, refl, sym, ap, ◌∙◌, arith, leb, ==_iff,
  equal_iff, is_nil, length, Result, ok, pure, lift, bind-run, bind-split, check-split, pure-back,
  not-false, check-run, true-not,
}
use nuri_passkey_prf_smartca.Attest.Evidence.{
  Failure, refused, p256, Crypto, Evidence, pub_key, parse_response,
}
use nuri_passkey_prf_smartca.Attest.Format.{pub_key-back}
use nuri_passkey_prf_smartca.Attest.Parse.{IsEvidence}
use nuri_passkey_prf_smartca.Attest.Whole.{evidence_bytes, parse_response_iff}
use nuri_passkey_prf_smartca.Attest.Checks.{
  Pin, ca_message, response_message, binding_message, load_ca_pubkey, signing_key, verify_response,
}
use nuri_passkey_prf_smartca.Attest.Pins.{
  Encodes, Encodes-run, Pinned, load_ca_pubkey-back, load_ca_pubkey-run, SigningKey,
  signing_key-back, signing_key-run,
}

nonempty_iff : (xs : Bytes) → (not (is_nil xs) ≡ true) ↔ (xs ≢ [])
nonempty_iff [] = (λ e. cc, λ f. absurd (f refl))
nonempty_iff (x ∷ xs) = (λ _ q. cc, λ _. refl)

aid_range : (n : ℕ) → (leb 5 n && leb n 16 ≡ true) ↔ ((5 ≤ n) × (n ≤ 16))
aid_range n = ground arith

module _ {K : Type 0} (crypto : Crypto K) (pin : Pin K) (challenge aid signing : Bytes) where
  -- An evidence that speaks for this challenge, this applet and this signing key, under the pinned CA.
  pub record Speaks (e : Evidence) : Type 0 where
    pub challenge_length : length challenge ≡ 32
    pub aid_length : (5 ≤ length aid) × (length aid ≤ 16)
    pub same_aid : e.info.aid ≡ aid
    pub sealed : e.info.sealed ≡ true
    pub certified : e.info.cert ≢ []
    pub expected : signing ≢ []
    pub same_key : e.signing_pub ≡ signing
    pub curve : SigningKey crypto aid e.signing_pub
    pub ca : K
    pub pinned : Pinned crypto pin ca
    pub by_ca : crypto.verify ca e.info.cert (ca_message e.info) ≡ true
    pub attestation : K
    pub decoded : Encodes crypto p256 e.info.attestation_pub attestation
    pub response :
        crypto.verify attestation e.response_sig
          (response_message challenge e.signing_pub e.pin_state)
        ≡ true
    pub bound : e.binding_sig ≢ []
    pub binding : crypto.verify attestation e.binding_sig (binding_message aid e.signing_pub) ≡ true

  module _ {S : Type 0} {s : S} where
    verify_response-back :
        (bytes : Bytes) (e : Evidence) {t : S}
        → verify_response crypto bytes pin challenge aid signing s ≡ (ok e, t)
        → (parse_response crypto bytes ≡ ok e) × Speaks e × (t ≡ s)
    unfolding verify_response lift
    verify_response-back bytes e q = check-split _ refused _ q λ c₁ k₁.
        check-split _ refused _ k₁ λ c₂ k₂.
          bind-split (lift (parse_response crypto bytes)) _ k₂ λ p s₁ e₁ k₃.
            check-split _ refused _ k₃ λ c₃ k₄. check-split _ refused _ k₄ λ c₄ k₅.
              check-split _ refused _ k₅ λ c₅ k₆. check-split _ refused _ k₆ λ c₆ k₇.
                check-split _ refused _ k₇ λ c₇ k₈.
                  bind-split (signing_key crypto aid p.signing_pub) _ k₈ λ sk s₂ e₂ k₉.
                    bind-split (load_ca_pubkey crypto pin) _ k₉ λ ca s₃ e₃ k₁₀.
                      check-split _ refused _ k₁₀ λ c₈ k₁₁.
                        bind-split (pub_key crypto p.info.attestation_pub p256) _ k₁₁
                          λ at s₄ e₄ k₁₂. check-split _ refused _ k₁₂ λ c₉ k₁₃.
                            check-split _ refused _ k₁₃ λ c₁₀ k₁₄.
                              check-split _ refused _ k₁₄ λ c₁₁ k₁₅.
                                let (same, u) = pure-back k₁₅ in
                                let (curve, u₂) = signing_key-back crypto aid p.signing_pub e₂ in
                                let (pinned, u₃) = load_ca_pubkey-back crypto pin e₃ in
                                let (c, d, u₄) =
                                  pub_key-back crypto p.info.attestation_pub p256 e₄ in
                                let u₁ : s₁ ≡ s =
                                  ap (λ (z : Result Failure Evidence × S). z.1) (sym e₁) in
                                rw same (
                                  ap (λ (z : Result Failure Evidence × S). z.0) e₁,
                                  record {
                                    challenge_length = (==_iff _ 32).0 (not-false _ c₁);
                                    aid_length = (aid_range _).0 (not-false _ c₂);
                                    same_aid = (equal_iff _ _).0 (not-false _ c₃);
                                    sealed = not-false _ c₄;
                                    certified = (nonempty_iff _).0 (not-false _ c₅);
                                    expected = (nonempty_iff _).0 (not-false _ c₆);
                                    same_key = (equal_iff _ _).0 (not-false _ c₇);
                                    curve = curve;
                                    ca = ca;
                                    pinned = pinned;
                                    by_ca = not-false _ c₈;
                                    attestation = at;
                                    decoded = (c, d);
                                    response = not-false _ c₉;
                                    bound = (nonempty_iff _).0 (not-false _ c₁₀);
                                    binding = not-false _ c₁₁;
                                  },
                                  u ∙ u₄ ∙ u₃ ∙ u₂ ∙ u₁,
                                )

    verify_response-run :
        (bytes : Bytes) (e : Evidence)
        → parse_response crypto bytes ≡ ok e
        → Speaks e
        → verify_response crypto bytes pin challenge aid signing s ≡ (ok e, s)
    unfolding verify_response lift pure
    verify_response-run bytes e q v =
        let (sk, z) = signing_key-run crypto {s = s} aid e.signing_pub v.curve in
        check-run _ refused _ (true-not ((==_iff _ 32).1 v.challenge_length))
        ∙ check-run _ refused _ (true-not ((aid_range _).1 v.aid_length))
        ∙ bind-run (lift (parse_response crypto bytes)) _ (ap (λ r. (r, s)) q)
        ∙ check-run _ refused _ (true-not ((equal_iff _ _).1 v.same_aid))
        ∙ check-run _ refused _ (true-not v.sealed)
        ∙ check-run _ refused _ (true-not ((nonempty_iff _).1 v.certified))
        ∙ check-run _ refused _ (true-not ((nonempty_iff _).1 v.expected))
        ∙ check-run _ refused _ (true-not ((equal_iff _ _).1 v.same_key))
        ∙ bind-run (signing_key crypto aid e.signing_pub) _ z
        ∙ bind-run (load_ca_pubkey crypto pin) _ (load_ca_pubkey-run crypto pin v.pinned)
        ∙ check-run _ refused _ (true-not v.by_ca)
        ∙ bind-run (pub_key crypto e.info.attestation_pub p256) _
            (Encodes-run crypto p256 _ v.decoded)
        ∙ check-run _ refused _ (true-not v.response)
        ∙ check-run _ refused _ (true-not ((nonempty_iff _).1 v.bound))
        ∙ check-run _ refused _ (true-not v.binding)

    -- `verify_response` returns an evidence exactly when the response is the encoding of a well-formed
    -- one, and that speaks for the given challenge of 32 bytes, the given AID and the given signing key:
    -- it says sealed, it names both, its signing key is a canonical one on the curve of that applet (one
    -- of three), the pinned P256 CA signed card id, AID and attestation key, and the attestation key
    -- signed both the challenge with the signing key and PIN state, and the AID with the signing key. The
    -- state stays.
    pub verify_response_iff :
        (bytes : Bytes) (e : Evidence) (t : S)
        → (verify_response crypto bytes pin challenge aid signing s ≡ (ok e, t))
          ↔ (IsEvidence crypto e × (bytes ≡ evidence_bytes crypto e) × Speaks e × (t ≡ s))
    verify_response_iff bytes e t = (there, back)
      where
        there :
            verify_response crypto bytes pin challenge aid signing s ≡ (ok e, t)
            → IsEvidence crypto e × (bytes ≡ evidence_bytes crypto e) × Speaks e × (t ≡ s)
        there q =
            let (p, v, u) = verify_response-back bytes e q in
            let (w, b) = (parse_response_iff crypto bytes e).0 p in (w, b, v, u)

        back :
            IsEvidence crypto e × (bytes ≡ evidence_bytes crypto e) × Speaks e × (t ≡ s)
            → verify_response crypto bytes pin challenge aid signing s ≡ (ok e, t)
        back (w, b, v, u) =
            rw u (verify_response-run bytes e ((parse_response_iff crypto bytes e).1 (w, b)) v)
