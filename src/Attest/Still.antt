-- ===== src/Attest/Still.antt =====
-- The verification of a response looks at no state, whether it returns or raises.
use nuri_passkey_prf_smartca.Base.{
  Bool, Option, none, some, Bytes, equal, starts_with, strip, from_hex, length, ◌==◌, Action, raise,
  Keeps, Keeps-raise_if, Keeps-pure, Keeps-raise, Keeps-lift, Keeps-if, Keeps-bind,
}
use nuri_passkey_prf_smartca.Attest.Evidence.{
  Failure, refused, Curve, p256, secp256k1, Crypto, is_encoding, pub_key, parse_response,
}
use nuri_passkey_prf_smartca.Attest.Checks.{
  vault_aid, Pin, missing, key, typed, raw, pem_header, is_ascii, on_p256, load_bytes,
  load_ca_pubkey, signing_key, verify_response,
}

module _ {S : Type 0} {Inv : S → Type 0} where
  Keeps-some :
      {A B : Type 0} {f : A → Action S Failure B} (o : Option A)
      → ((a : A) → Keeps Inv (f a))
      → Keeps Inv (elim o as (λ _. Action S Failure B) [ none ↦ raise refused | some a ↦ f a ])
  Keeps-some none k = Keeps-raise refused
  Keeps-some (some a) k = k a

  module _ {K : Type 0} (crypto : Crypto K) where
    pub_key-Keeps : (bytes : Bytes) (curve : Curve) → Keeps Inv (pub_key crypto bytes curve)
    unfolding pub_key
    pub_key-Keeps bytes curve =
        Keeps-if (is_encoding curve bytes) _ _
          (λ _. Keeps-some (crypto.from_string curve bytes) (λ k. Keeps-pure k))
          (λ _. Keeps-raise refused)

    on_p256-Keeps : (k : K) (is_p256 : Bool) → Keeps Inv (on_p256 crypto k is_p256)
    unfolding on_p256
    on_p256-Keeps k is_p256 = Keeps-bind _ _ (Keeps-raise_if _ _) (λ _. Keeps-pure k)

    load_bytes-Keeps : (value : Bytes) → Keeps Inv (load_bytes crypto value)
    unfolding load_bytes
    load_bytes-Keeps value =
        Keeps-if (starts_with pem_header value) _ _
          (λ _. Keeps-some (crypto.from_pem value) (λ found. on_p256-Keeps found.0 found.1))
          (λ _.
            Keeps-if (length value == 65) _ _ (λ _. pub_key-Keeps value p256)
              (λ _.
                Keeps-if (is_ascii value) _ _
                  (λ _. Keeps-some (from_hex (strip value)) (λ decoded. pub_key-Keeps decoded p256))
                  (λ _. Keeps-raise refused)))

    load_ca_pubkey-Keeps : (pin : Pin K) → Keeps Inv (load_ca_pubkey crypto pin)
    unfolding load_ca_pubkey
    load_ca_pubkey-Keeps missing = Keeps-raise refused
    load_ca_pubkey-Keeps (key k is_p256) = on_p256-Keeps k is_p256
    load_ca_pubkey-Keeps (typed text) =
        Keeps-if (is_ascii text) _ _ (λ _. load_bytes-Keeps text) (λ _. Keeps-raise refused)
    load_ca_pubkey-Keeps (raw bytes) = load_bytes-Keeps bytes

    signing_key-Keeps : (aid signing : Bytes) → Keeps Inv (signing_key crypto aid signing)
    unfolding signing_key
    signing_key-Keeps aid signing =
        Keeps-if (equal aid vault_aid) _ _ (λ _. pub_key-Keeps signing p256)
          (λ _. Keeps-bind _ _ (Keeps-raise_if _ _) (λ _. pub_key-Keeps signing secp256k1))

    pub verify_response-Keeps :
        (bytes : Bytes) (pin : Pin K) (challenge aid signing : Bytes)
        → Keeps Inv (verify_response crypto bytes pin challenge aid signing)
    unfolding verify_response
    verify_response-Keeps bytes pin challenge aid signing = Keeps-bind _ _ (Keeps-raise_if _ _) λ _.
        Keeps-bind _ _ (Keeps-raise_if _ _) λ _.
          Keeps-bind _ _ (Keeps-lift (parse_response crypto bytes)) λ e.
            Keeps-bind _ _ (Keeps-raise_if _ _) λ _. Keeps-bind _ _ (Keeps-raise_if _ _) λ _.
              Keeps-bind _ _ (Keeps-raise_if _ _) λ _. Keeps-bind _ _ (Keeps-raise_if _ _) λ _.
                Keeps-bind _ _ (Keeps-raise_if _ _) λ _.
                  Keeps-bind _ _ (signing_key-Keeps aid e.signing_pub) λ _.
                    Keeps-bind _ _ (load_ca_pubkey-Keeps pin) λ ca.
                      Keeps-bind _ _ (Keeps-raise_if _ _) λ _.
                        Keeps-bind _ _ (pub_key-Keeps e.info.attestation_pub p256) λ k.
                          Keeps-bind _ _ (Keeps-raise_if _ _) λ _.
                            Keeps-bind _ _ (Keeps-raise_if _ _)
                              λ _. Keeps-bind _ _ (Keeps-raise_if _ _) λ _. Keeps-pure e
