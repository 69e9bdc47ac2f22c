-- ===== src/Attest/Pins.antt =====
-- The pins that `load_ca_pubkey` accepts, and the keys that it makes of them.
use nuri_passkey_prf_smartca.Base.{
  ℕ, Bool, true, false, ◌||◌, not, some, Bytes, ◌≡◌, ◌≢◌, ◌⊎◌, ◌↔◌, inl, inr, refl, ◌∙◌, arith,
  ◌==◌, ==_iff, equal, equal_iff, length, starts_with, strip, from_hex, ok, pure, check-split,
  if-split, if-run, else-run, some-split, some-run, raise-ne-ok, pure-back, not-false, check-run,
  true-not,
}
use nuri_passkey_prf_smartca.Attest.Evidence.{
  refused, Curve, p256, secp256k1, Crypto, is_encoding, pub_key,
}
use nuri_passkey_prf_smartca.Attest.Format.{pub_key-run, pub_key-back}
use nuri_passkey_prf_smartca.Attest.Checks.{
  eth2_aid, musig2_aid, vault_aid, Pin, missing, key, typed, raw, pem_header, is_ascii, on_p256,
  load_bytes, load_ca_pubkey, signing_key,
}

differ : (m n : ℕ) → m ≢ n → (m == n) ≡ false
differ m n h = ground arith

module _ {K : Type 0} (crypto : Crypto K) where
  -- The key `k` has the canonical encoding `bytes`.
  abbrev pub Encodes : Curve → Bytes → K → Type 0
  Encodes curve bytes k =
      (is_encoding curve bytes ≡ true) × (crypto.from_string curve bytes ≡ some k)

  pub Encodes-run :
      {S : Type 0} {s : S} (curve : Curve) (bytes : Bytes) {k : K}
      → Encodes curve bytes k
      → pub_key crypto bytes curve s ≡ (ok k, s)
  Encodes-run curve bytes {k} e =
      pub_key-run crypto bytes curve (record { key = k; canonical = e.0; decoded = e.1 })

  -- The bytes of a pin: PEM, a key's encoding, or that in hexadecimal digits.
  pub data PinnedBytes (bytes : Bytes) (k : K) : Type 0 where
    pem :
        starts_with pem_header bytes ≡ true
        → crypto.from_pem bytes ≡ some (k, true)
        → PinnedBytes bytes k
    sec1 :
        starts_with pem_header bytes ≡ false
        → length bytes ≡ 65
        → Encodes p256 bytes k
        → PinnedBytes bytes k
    hex :
        {decoded : Bytes}
        → starts_with pem_header bytes ≡ false
        → length bytes ≢ 65
        → is_ascii bytes ≡ true
        → from_hex (strip bytes) ≡ some decoded
        → Encodes p256 decoded k
        → PinnedBytes bytes k

  abbrev pub Pinned : Pin K → K → Type 0
  Pinned missing k = ⊥
  Pinned (key j is_p256) k = (is_p256 ≡ true) × (k ≡ j)
  Pinned (typed text) k = (is_ascii text ≡ true) × PinnedBytes text k
  Pinned (raw bytes) k = PinnedBytes bytes k

  module _ {S : Type 0} {s t : S} {k : K} where
    on_p256-back :
        (j : K) (is_p256 : Bool)
        → on_p256 crypto j is_p256 s ≡ (ok k, t)
        → (is_p256 ≡ true) × (k ≡ j) × (t ≡ s)
    unfolding on_p256
    on_p256-back j is_p256 e =
        check-split (not is_p256) refused _ e
          λ q r. (not-false _ q, (pure-back r).0, (pure-back r).1)

    load_bytes-back :
        (bytes : Bytes) → load_bytes crypto bytes s ≡ (ok k, t) → PinnedBytes bytes k × (t ≡ s)
    unfolding load_bytes
    load_bytes-back bytes e =
        if-split _ _ (starts_with pem_header bytes) e
          (λ h q.
            some-split _ _ (crypto.from_pem bytes) q
              λ found f r. let (p, i, u) = on_p256-back found.0 found.1 r in (pem h (f ∙ cc), u))
          (λ h q.
            if-split _ _ (length bytes == 65) q
              (λ l r.
                let (c, d, u) = pub_key-back crypto bytes p256 r in
                (sec1 h ((==_iff _ 65).0 l) (c, d), u))
              (λ l r.
                if-split _ _ (is_ascii bytes) r
                  (λ a w. some-split _ _ (from_hex (strip bytes)) w λ decoded f z.
                    let (c, d, u) = pub_key-back crypto decoded p256 z in
                    (hex h (ground arith) a f (c, d), u))
                  (λ a w. raise-ne-ok _ _ w)))

    pub load_ca_pubkey-back :
        (pin : Pin K) → load_ca_pubkey crypto pin s ≡ (ok k, t) → Pinned pin k × (t ≡ s)
    unfolding load_ca_pubkey
    load_ca_pubkey-back missing e = raise-ne-ok _ _ e
    load_ca_pubkey-back (key j is_p256) e = let (p, q, u) = on_p256-back j is_p256 e in ((p, q), u)
    load_ca_pubkey-back (typed text) e =
        if-split _ _ (is_ascii text) e (λ a q. let (p, u) = load_bytes-back text q in ((a, p), u))
          (λ a q. raise-ne-ok _ _ q)
    load_ca_pubkey-back (raw bytes) e = load_bytes-back bytes e

  module _ {S : Type 0} {s : S} {k : K} where
    on_p256-run : on_p256 crypto k true s ≡ (ok k, s)
    unfolding on_p256 pure
    on_p256-run = check-run false refused _ refl

    load_bytes-run : (bytes : Bytes) → PinnedBytes bytes k → load_bytes crypto bytes s ≡ (ok k, s)
    unfolding load_bytes
    load_bytes-run bytes (pem h f) = if-run _ _ _ h ∙ some-run _ _ f ∙ on_p256-run
    load_bytes-run bytes (sec1 h l e) =
        else-run _ _ _ h
        ∙ if-run _ _ (length bytes == 65) ((==_iff _ 65).1 l)
        ∙ Encodes-run p256 bytes e
    load_bytes-run bytes (hex {decoded} h l a f e) =
        else-run _ _ _ h
        ∙ else-run _ _ (length bytes == 65) (differ (length bytes) 65 l)
        ∙ if-run _ _ _ a
        ∙ some-run _ _ f
        ∙ Encodes-run p256 decoded e

    pub load_ca_pubkey-run : (pin : Pin K) → Pinned pin k → load_ca_pubkey crypto pin s ≡ (ok k, s)
    unfolding load_ca_pubkey
    load_ca_pubkey-run missing p = absurd p
    load_ca_pubkey-run (key j is_p256) p = rw (p.0, ← p.1) on_p256-run
    load_ca_pubkey-run (typed text) p = if-run _ _ _ p.0 ∙ load_bytes-run text p.1
    load_ca_pubkey-run (raw bytes) p = load_bytes-run bytes p

  -- The applet's AID, with a signing key on the curve of that applet.
  pub data SigningKey (aid signing : Bytes) : Type 0 where
    vault : {k : K} → aid ≡ vault_aid → Encodes p256 signing k → SigningKey aid signing
    signer :
        {k : K}
        → (aid ≡ eth2_aid) ⊎ (aid ≡ musig2_aid)
        → Encodes secp256k1 signing k
        → SigningKey aid signing

  known_signer :
      (aid : Bytes)
      → (equal aid eth2_aid || equal aid musig2_aid ≡ true)
        ↔ ((aid ≡ eth2_aid) ⊎ (aid ≡ musig2_aid))
  known_signer aid = ground (arith, equal_iff aid eth2_aid, equal_iff aid musig2_aid)

  module _ {S : Type 0} {s : S} (aid signing : Bytes) where
    pub signing_key-back :
        {t : S} {k : K}
        → signing_key crypto aid signing s ≡ (ok k, t)
        → SigningKey aid signing × (t ≡ s)
    unfolding signing_key
    signing_key-back e =
        if-split _ _ (equal aid vault_aid) e
          (λ h q.
            let (c, d, u) = pub_key-back crypto signing p256 q in
            (vault ((equal_iff aid vault_aid).0 h) (c, d), u))
          (λ h q. check-split _ refused _ q λ a r.
            let (c, d, u) = pub_key-back crypto signing secp256k1 r in
            (signer ((known_signer aid).0 (not-false _ a)) (c, d), u))

    pub signing_key-run :
        SigningKey aid signing → (k : K) × (signing_key crypto aid signing s ≡ (ok k, s))
    unfolding signing_key
    signing_key-run (vault {k} a e) =
        (k, if-run _ _ _ ((equal_iff aid vault_aid).1 a) ∙ Encodes-run p256 signing e)
    signing_key-run (signer {k} a e) = (
      k,
      else-run _ _ (equal aid vault_aid) (other a)
          ∙ check-run _ refused _ (true-not ((known_signer aid).1 a))
          ∙ Encodes-run secp256k1 signing e,
    )
      where
        other : (aid ≡ eth2_aid) ⊎ (aid ≡ musig2_aid) → equal aid vault_aid ≡ false
        other (inl p) = rw p (unfold equal in refl)
        other (inr p) = rw p (unfold equal in refl)
