-- ===== src/Attest/Certificate.antt =====
-- scripts/nuri_attest.py: `sign_certificate`, by a key file or by OpenSSL's PKCS11 provider.
use nuri_passkey_prf_smartca.Base.{
  ℕ, Bool, true, ◌&&◌, not, [], ◌∷◌, Option, none, some, Bytes, Text, codes, ◌≡◌, ◌≢◌, refl, sym,
  subst, leb, ◌==◌, is_nil, length, lower, starts_with, has_part, if◌then◌else◌, ok, Action, pure,
  raise, ◌>>=◌, ◌>>◌, bind-split, check-split, not-false, pure-back,
}
use nuri_passkey_prf_smartca.Attest.Evidence.{
  Failure, refused, os_error, Crypto, Info, require, is_signature,
}
use nuri_passkey_prf_smartca.Attest.Checks.{Pin, ca_message, load_ca_pubkey, verified}
use nuri_passkey_prf_smartca.Attest.Pins.{Pinned, load_ca_pubkey-back}
use nuri_passkey_prf_smartca.Attest.Exchange.{bool_eq}

-- What signs: the file system (whether a file is regular, of mode 0600 and the user's own, and up to 16385
-- bytes of it), python-ecdsa's private keys with whether they are on P256, `urllib.parse.unquote`, and the
-- run of OpenSSL, by its return code and output.
pub record Signer (J : Type 0) : Type 0 where
  pub open_file : Text → Option (Bool × Bytes)
  pub private_key : Bytes → Option (J × Bool)
  pub sign : J → Bytes → Bytes
  pub unquote : Text → Text
  pub provider : Text → Bytes → Option (ℕ × Bytes)

module _ {J : Type 0} (signer : Signer J) where
  -- A PKCS11 URI without a PIN in it.
  unfoldable pub is_pinless : Text → Bool
  unfolding starts_with has_part
  is_pinless uri =
      starts_with (codes "pkcs11:") (lower (signer.unquote uri))
      && not (has_part (codes "pin-value") (lower (signer.unquote uri)))

  -- Exactly one source is given; a provider's URI has the right scheme and no PIN.
  pub data Source (ca_key_file pkcs11_uri : Text) : Type 0 where
    by_file : ca_key_file ≢ [] → pkcs11_uri ≡ [] → Source ca_key_file pkcs11_uri
    by_uri :
        ca_key_file ≡ []
        → pkcs11_uri ≢ []
        → is_pinless pkcs11_uri ≡ true
        → Source ca_key_file pkcs11_uri

module _ {J : Type 0} (signer : Signer J) {S : Type 0} where
  -- `_private_fd`, read only, and the read.
  unfoldable pub private_bytes : Text → Action S Failure Bytes
  private_bytes path = elim (signer.open_file path) [
    | none ↦ raise os_error
    | some (is_exact, content) ↦ (do require is_exact; pure content)
  ]

  unfoldable pub sign_by_key : J × Bool → Bytes → Action S Failure Bytes
  sign_by_key (k, is_p256) message = do require is_p256; pure (signer.sign k message)

  unfoldable pub sign_by_file : Text → Bytes → Action S Failure Bytes
  unfolding private_bytes sign_by_key
  sign_by_file path message = do
    pem ← private_bytes path
    require (leb (length pem) 16384)
    elim (signer.private_key pem) [ none ↦ raise refused | some found ↦ sign_by_key found message ]

  unfoldable pub sign_by_provider : Text → Bytes → Action S Failure Bytes
  unfolding is_pinless
  sign_by_provider uri message = do
    require (is_pinless signer uri)
    (code, output) ← elim (signer.provider uri message) [
      | none ↦ raise refused
      | some run ↦ pure run
    ]
    require (code == 0)
    pure output

  unfoldable pub sign_certificate :
      {K : Type 0} → Crypto K → Info → Pin K → Text → Text → Action S Failure Bytes
  unfolding ca_message load_ca_pubkey sign_by_file sign_by_provider is_signature
  sign_certificate crypto info pin ca_key_file pkcs11_uri = do
    require (not (bool_eq (is_nil ca_key_file) (is_nil pkcs11_uri)))
    ca ← load_ca_pubkey crypto pin
    signature ←
        (if is_nil ca_key_file
          then sign_by_provider pkcs11_uri (ca_message info)
          else sign_by_file ca_key_file (ca_message info))
    require (is_signature crypto signature)
    verified crypto ca signature (ca_message info)
    pure signature

  sign_by_provider-back :
      (u : Text) (message : Bytes) (s : S) {t : S} {a : Bytes}
      → sign_by_provider u message s ≡ (ok a, t)
      → is_pinless signer u ≡ true
  unfolding sign_by_provider
  sign_by_provider-back u message s e = check-split _ refused _ e λ c k. not-false _ c

  source :
      (f u : Text) (message : Bytes) (s : S) {t : S} {a : Bytes}
      → not (bool_eq (is_nil f) (is_nil u)) ≡ true
      → (if is_nil f then sign_by_provider u message else sign_by_file f message) s ≡ (ok a, t)
      → Source signer f u
  source [] [] message s c e = cc c
  source [] (x ∷ u) message s c e =
      by_uri refl (λ q. cc q) (sign_by_provider-back (x ∷ u) message s e)
  source (x ∷ f) [] message s c e = by_file (λ q. cc q) refl
  source (x ∷ f) (y ∷ u) message s c e = cc c

  -- A certificate that `sign_certificate` returns is a strict DER signature, and the key that was pinned
  -- verifies it for the CA's message of this INFO, whichever source signed; exactly one source was given,
  -- and a provider's URI has the scheme pkcs11 and no PIN value once it is unquoted.
  pub sign_certificate-back :
      {K : Type 0} (crypto : Crypto K) (info : Info) (pin : Pin K) (ca_key_file pkcs11_uri : Text)
      (s : S) {t : S} {signature : Bytes}
      → sign_certificate crypto info pin ca_key_file pkcs11_uri s ≡ (ok signature, t)
      → (ca : K) × Pinned crypto pin ca
        × (is_signature crypto signature ≡ true)
        × (crypto.verify ca signature (ca_message info) ≡ true)
        × Source signer ca_key_file pkcs11_uri
  unfolding sign_certificate
  sign_certificate-back crypto info pin ca_key_file pkcs11_uri s {t} {signature} e =
      check-split _ refused _ e λ c₁ k₁. bind-split (load_ca_pubkey crypto pin) _ k₁ λ ca s₁ e₁ k₂.
        bind-split _ _ k₂ λ sig s₂ e₂ k₃. check-split _ refused _ k₃ λ c₂ k₄.
          check-split _ refused _ k₄ λ c₃ k₅.
            let (same, _) = pure-back k₅ in
            (
              ca,
              (load_ca_pubkey-back crypto pin e₁).0,
              subst (λ x. is_signature crypto x ≡ true) (sym same) (not-false _ c₂),
              subst (λ x. crypto.verify ca x (ca_message info) ≡ true) (sym same) (not-false _ c₃),
              source ca_key_file pkcs11_uri (ca_message info) s₁ (not-false _ c₁) e₂,
            )
