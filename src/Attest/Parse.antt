-- ===== src/Attest/Parse.antt =====
-- What `_parse_info` reads is the bytes of a well-formed INFO, and it reads each of them.
use nuri_passkey_prf_smartca.Base.{
  ℕ, zero, suc, ◌≤◌, ◌<◌, Bool, true, false, ◌&&◌, ◌||◌, not, [], ◌∷◌, ◌++◌, some, Bytes, ◌≡◌, ◌≢◌,
  ◌⊎◌, ◌↔◌, inl, inr, refl, ap, ◌∙◌, arith, leb, ◌==◌, ==_iff, is_nil, length, Result, ok, pure,
  bind-run, bind-split, check-run, check-split, not-false, true-not,
}
use nuri_passkey_prf_smartca.Attest.Evidence.{
  Failure, refused, p256, Crypto, Info, Evidence, take_bytes, take_byte, take_field, is_encoding,
  pub_key, is_signature, read_info,
}
use nuri_passkey_prf_smartca.Attest.Format.{
  flag_byte, info_onto, take_bytes-run, take_bytes-run_of, take_bytes-back, take_byte-back,
  take_field-run, take_field-back, IsKey, pub_key-run, pub_key-back,
}

module _ {K : Type 0} (crypto : Crypto K) where
  -- A well-formed INFO.
  pub record IsInfo (i : Info) : Type 0 where
    pub id_length : length i.card_id ≡ 16
    pub aid_short : length i.aid ≤ 16
    pub aid_long : 5 ≤ length i.aid
    pub pub_length : length i.attestation_pub ≡ 65
    pub key : IsKey crypto p256 i.attestation_pub
    pub cert_signed : (i.cert ≡ []) ⊎ (is_signature crypto i.cert ≡ true)
    pub sealed_cert : i.sealed ≡ true → i.cert ≢ []

  -- A well-formed evidence.
  pub record IsEvidence (e : Evidence) : Type 0 where
    pub info : IsInfo e.info
    pub signing_length :
        (length e.signing_pub ≡ 0) ⊎ (length e.signing_pub ≡ 33) ⊎ (length e.signing_pub ≡ 65)
    pub pin_bits : e.pin_state < 16
    pub signed : is_signature crypto e.response_sig ≡ true
    pub binding : (e.binding_sig ≡ []) ⊎ (is_signature crypto e.binding_sig ≡ true)

  pub nil_or : (xs : Bytes) (b : Bool) → (is_nil xs || b ≡ true) ↔ ((xs ≡ []) ⊎ (b ≡ true))
  nil_or [] b = (λ _. inl refl, λ _. refl)
  nil_or (x ∷ xs) b = (λ e. inr e, elim [ inl e ↦ cc | inr e ↦ e ])

  sealed_or : (s : Bool) (xs : Bytes) → (not s || not (is_nil xs) ≡ true) ↔ (s ≡ true → xs ≢ [])
  sealed_or true [] = (λ e. cc, λ f. absurd (f refl refl))
  sealed_or true (x ∷ xs) = (λ _ _ q. cc, λ _. refl)
  sealed_or false xs = (λ _ q. cc, λ _. refl)

  flag_ok : (b : Bool) → (flag_byte b == 0 || flag_byte b == 1) ≡ true
  flag_ok true = refl
  flag_ok false = refl

  flag_is : (b : Bool) → (flag_byte b == 1) ≡ b
  flag_is true = refl
  flag_is false = refl

  flag_back : (n : ℕ) → (n == 0 || n == 1) ≡ true → flag_byte (n == 1) ≡ n
  flag_back zero e = refl
  flag_back (suc zero) e = refl
  flag_back (suc (suc n)) e = absurd (ground arith)

  aid_range : (n : ℕ) → (leb 5 n && leb n 16 ≡ true) ↔ ((5 ≤ n) × (n ≤ 16))
  aid_range n = ground arith

  abbrev pub Left : Type 0 → Type 0
  Left A = Result Failure A × Bytes

  pub read_info-run :
      (i : Info) (rest : Bytes) → IsInfo i → read_info crypto (info_onto i rest) ≡ (ok i, rest)
  unfolding read_info take_byte
  read_info-run i rest v =
      bind-run take_byte _ {s = info_onto i rest} refl
      ∙ check-run (not (1 == 1)) refused _ refl
      ∙ bind-run (take_bytes 16) _ (take_bytes-run_of 16 i.card_id _ v.id_length)
      ∙ bind-run take_byte _ refl
      ∙ check-run (not (leb 5 (length i.aid) && leb (length i.aid) 16)) refused _
          (true-not ((aid_range (length i.aid)).1 (v.aid_long, v.aid_short)))
      ∙ bind-run (take_bytes (length i.aid)) _ (take_bytes-run i.aid _)
      ∙ bind-run (take_bytes 65) _ (take_bytes-run_of 65 i.attestation_pub _ v.pub_length)
      ∙ bind-run (pub_key crypto i.attestation_pub p256) _
          (pub_key-run crypto i.attestation_pub p256 v.key)
      ∙ bind-run take_byte _ refl
      ∙ check-run (not (flag_byte i.sealed == 0 || flag_byte i.sealed == 1)) refused _
          (true-not (flag_ok i.sealed))
      ∙ bind-run take_field _ (take_field-run i.cert rest)
      ∙ check-run (not (is_nil i.cert || is_signature crypto i.cert)) refused _
          (true-not ((nil_or i.cert (is_signature crypto i.cert)).1 v.cert_signed))
      ∙ check-run (not (not (flag_byte i.sealed == 1) || not (is_nil i.cert))) refused _ (
          true-not
            ((sealed_or (flag_byte i.sealed == 1) i.cert).1 (rw (flag_is i.sealed) v.sealed_cert)))
      ∙ finished (flag_is i.sealed)
    where
      finished :
          {b : Bool}
          → b ≡ i.sealed
          → pure {E = Failure} (record i { sealed = b }) rest ≡ (ok i, rest)
      finished e = unfold pure in rw e refl

  abbrev built : Bytes → Bytes → Bytes → ℕ → Bytes → Info
  built card_id aid raw flag cert = record {
    card_id = card_id;
    aid = aid;
    attestation_pub = raw;
    sealed = flag == 1;
    cert = cert;
  }

  -- What the reads of `read_info` came to, put together.
  module _ {version : ℕ} {card_id : Bytes} {aid_len : ℕ} {aid raw : Bytes} {key : K} {flag : ℕ}
      {cert : Bytes} where
    read_info-built :
        (s s₁ s₂ s₃ s₄ s₅ s₆ s₇ s₈ : Bytes)
        → (s ≡ version ∷ s₁) × (version ≡ 1)
        → (s₁ ≡ card_id ++ s₂) × (length card_id ≡ 16)
        → s₂ ≡ aid_len ∷ s₃
        → (5 ≤ aid_len) × (aid_len ≤ 16)
        → (s₃ ≡ aid ++ s₄) × (length aid ≡ aid_len)
        → (s₄ ≡ raw ++ s₅) × (length raw ≡ 65)
        → (is_encoding p256 raw ≡ true) × (crypto.from_string p256 raw ≡ some key) × (s₆ ≡ s₅)
        → (s₆ ≡ flag ∷ s₇) × ((flag == 0 || flag == 1) ≡ true)
        → s₇ ≡ length cert ∷ (cert ++ s₈)
        → (is_nil cert || is_signature crypto cert) ≡ true
        → (not (flag == 1) || not (is_nil cert)) ≡ true
        → IsInfo (built card_id aid raw flag cert)
          × (s ≡ info_onto (built card_id aid raw flag cert) s₈)
    read_info-built s s₁ s₂ s₃ s₄ s₅ s₆ s₇ s₈ v i a l b r k f c g h = (
      record {
        id_length = i.1;
        aid_short = omega (arith, l.1, b.1);
        aid_long = omega (arith, l.0, b.1);
        pub_length = r.1;
        key = record { key = key; canonical = k.0; decoded = k.1 };
        cert_signed = (nil_or cert (is_signature crypto cert)).0 g;
        sealed_cert = (sealed_or (flag == 1) cert).0 h;
      },
      bytes,
    )
      where
        bytes : s ≡ info_onto (built card_id aid raw flag cert) s₈
        bytes = v.0 ∙ rw (v.1, i.0, a, b.0, r.0, ← k.2, f.0, c) (rw (b.1, flag_back flag f.1) refl)

  pub read_info-back :
      (s : Bytes) (i : Info) (rest : Bytes)
      → read_info crypto s ≡ (ok i, rest)
      → IsInfo i × (s ≡ info_onto i rest)
  unfolding read_info pure
  read_info-back s i rest e = bind-split take_byte _ e λ version s₁ e₁ k₁.
      check-split (not (version == 1)) refused _ k₁ λ v k₂.
        bind-split (take_bytes 16) _ k₂ λ card_id s₂ e₂ k₃.
          bind-split take_byte _ k₃ λ aid_len s₃ e₃ k₄.
            check-split (not (leb 5 aid_len && leb aid_len 16)) refused _ k₄ λ a k₅.
              bind-split (take_bytes aid_len) _ k₅ λ aid s₄ e₄ k₆.
                bind-split (take_bytes 65) _ k₆ λ raw s₅ e₅ k₇.
                  bind-split (pub_key crypto raw p256) _ k₇ λ key s₆ e₆ k₈.
                    bind-split take_byte _ k₈ λ flag s₇ e₇ k₉.
                      check-split (not (flag == 0 || flag == 1)) refused _ k₉ λ f k₁₀.
                        bind-split take_field _ k₁₀ λ cert s₈ e₈ k₁₁.
                          check-split (not (is_nil cert || is_signature crypto cert)) refused _ k₁₁
                            λ c k₁₂.
                              check-split (not (not (flag == 1) || not (is_nil cert))) refused _ k₁₂
                                λ g k₁₃. returned k₁₃ (
                                  read_info-built s s₁ s₂ s₃ s₄ s₅ s₆ s₇ s₈
                                    (take_byte-back s e₁, (==_iff version 1).0 (not-false _ v))
                                    (take_bytes-back 16 s₁ e₂) (take_byte-back s₂ e₃)
                                    ((aid_range aid_len).0 (not-false _ a))
                                    (take_bytes-back aid_len s₃ e₄) (take_bytes-back 65 s₄ e₅)
                                    (pub_key-back crypto raw p256 e₆)
                                    (take_byte-back s₆ e₇, not-false _ f) (take_field-back s₇ e₈)
                                    (not-false _ c) (not-false _ g))
    where
      returned :
          {x : Info} {t : Bytes}
          → pure {E = Failure} x t ≡ (ok i, rest)
          → IsInfo x × (s ≡ info_onto x t)
          → IsInfo i × (s ≡ info_onto i rest)
      returned {x} {t} q h =
          let first : x ≡ i = cc (ap (λ (z : Left Info). z.0) q) in
          let last : t ≡ rest = ap (λ (z : Left Info). z.1) q in rw (← first, ← last) h
