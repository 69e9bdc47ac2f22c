-- ===== src/Attest/Checks.antt =====
-- scripts/nuri_attest.py: the pin of the CA, the messages that are signed, and `verify_response`.
use nuri_passkey_prf_smartca.Base.{
  ℕ, Bool, true, ◌&&◌, ◌||◌, not, [], ◌∷◌, ◌++◌, none, some, Bytes, Text, codes, ltb, leb, ◌==◌,
  equal, if◌then◌else◌, is_nil, length, starts_with, strip, from_hex, Action, pure, raise, lift,
  ◌>>=◌, ◌>>◌,
}
use nuri_passkey_prf_smartca.Attest.Evidence.{
  Failure, refused, p256, secp256k1, Crypto, Info, Evidence, require, pub_key, parse_response,
}

abbrev pub eth2_aid : Bytes
eth2_aid = 0x4e ∷ 0x55 ∷ 0x52 ∷ 0x49 ∷ 0x45 ∷ 0x54 ∷ 0x48 ∷ 0x32 ∷ 0x01 ∷ []

abbrev pub musig2_aid : Bytes
musig2_aid = 0x4e ∷ 0x55 ∷ 0x52 ∷ 0x49 ∷ 0x4d ∷ 0x55 ∷ 0x47 ∷ 0x01 ∷ []

abbrev pub vault_aid : Bytes
vault_aid = 0x4e ∷ 0x55 ∷ 0x52 ∷ 0x49 ∷ 0x56 ∷ 0x4c ∷ 0x54 ∷ 0x01 ∷ []

abbrev pub ca_domain : Bytes
ca_domain = codes "NURI-ATT-V1"

abbrev pub response_domain : Bytes
response_domain = codes "NURI-ATT-RESP-V1"

abbrev pub binding_domain : Bytes
binding_domain = codes "NHWV1"

-- The three messages under signature.
unfoldable pub ca_message : Info → Bytes
ca_message info = ca_domain ++ (info.card_id ++ (info.aid ++ info.attestation_pub))

unfoldable pub response_message : Bytes → Bytes → ℕ → Bytes
response_message challenge signing_pub pin_state =
    response_domain ++ (challenge ++ (signing_pub ++ pin_state ∷ []))

unfoldable pub binding_message : Bytes → Bytes → Bytes
binding_message expected_aid signing_pub = binding_domain ++ (expected_aid ++ signing_pub)

-- What a caller pins the CA by: nothing, a key with whether it is on P256, a text, or bytes.
pub data Pin (K : Type 0) : Type 0 where
  missing : Pin K
  key : K → Bool → Pin K
  typed : Text → Pin K
  raw : Bytes → Pin K

abbrev pub pem_header : Bytes
pem_header = codes "-----BEGIN PUBLIC KEY-----"

unfoldable pub is_ascii : Text → Bool
is_ascii [] = true
is_ascii (c ∷ cs) = ltb c 128 && is_ascii cs

module _ {K : Type 0} (crypto : Crypto K) where
  -- A key, if it is on P256.
  unfoldable pub on_p256 : {S : Type 0} → K → Bool → Action S Failure K
  on_p256 k is_p256 = do require is_p256; pure k

  -- `load_ca_pubkey` on bytes.
  unfoldable pub load_bytes : {S : Type 0} → Bytes → Action S Failure K
  unfolding on_p256 pub_key is_ascii starts_with strip from_hex
  load_bytes value =
      if starts_with pem_header value
      then elim (crypto.from_pem value) [
        | none ↦ raise refused
        | some (k, is_p256) ↦ on_p256 k is_p256
      ]
      else if length value == 65
      then pub_key crypto value p256
      else if is_ascii value
      then elim (from_hex (strip value)) [
        | none ↦ raise refused
        | some decoded ↦ pub_key crypto decoded p256
      ]
      else raise refused

  unfoldable pub load_ca_pubkey : {S : Type 0} → Pin K → Action S Failure K
  unfolding on_p256 load_bytes is_ascii
  load_ca_pubkey missing = raise refused
  load_ca_pubkey (key k is_p256) = on_p256 k is_p256
  load_ca_pubkey (typed text) = if is_ascii text then load_bytes text else raise refused
  load_ca_pubkey (raw bytes) = load_bytes bytes

  -- The curve of the signing key, by the applet.
  unfoldable pub signing_key : {S : Type 0} → Bytes → Bytes → Action S Failure K
  unfolding pub_key equal
  signing_key expected_aid signing_pub =
      if equal expected_aid vault_aid then pub_key crypto signing_pub p256 else do
        require (equal expected_aid eth2_aid || equal expected_aid musig2_aid)
        pub_key crypto signing_pub secp256k1

  -- `_verify`
  abbrev pub verified : {S : Type 0} → K → Bytes → Bytes → Action S Failure (Unit {0})
  verified k signature message = require (crypto.verify k signature message)

  unfoldable pub verify_response :
      {S : Type 0} → Bytes → Pin K → Bytes → Bytes → Bytes → Action S Failure Evidence
  unfolding parse_response equal pub_key signing_key load_ca_pubkey ca_message response_message
      binding_message
  verify_response response ca_pubkey challenge expected_aid expected_signing_pub = do
    require (length challenge == 32)
    require (leb 5 (length expected_aid) && leb (length expected_aid) 16)
    parsed ← lift (parse_response crypto response)
    require (equal parsed.info.aid expected_aid)
    require parsed.info.sealed
    require (not (is_nil parsed.info.cert))
    require (not (is_nil expected_signing_pub))
    require (equal parsed.signing_pub expected_signing_pub)
    signing_key expected_aid parsed.signing_pub
    ca ← load_ca_pubkey ca_pubkey
    verified ca parsed.info.cert (ca_message parsed.info)
    k ← pub_key crypto parsed.info.attestation_pub p256
    verified k parsed.response_sig (response_message challenge parsed.signing_pub parsed.pin_state)
    require (not (is_nil parsed.binding_sig))
    verified k parsed.binding_sig (binding_message expected_aid parsed.signing_pub)
    pure parsed
