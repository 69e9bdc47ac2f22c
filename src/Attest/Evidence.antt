-- ===== src/Attest/Evidence.antt =====
-- scripts/nuri_attest.py: `_Reader`, `parse_info` and `parse_response`. A reader is the bytes that are
-- left. Messages are left out: every check of the module raises the same error.
use nuri_passkey_prf_smartca.Base.{
  ℕ, ◌/◌, Bool, false, ◌&&◌, ◌||◌, not, [], ◌∷◌, Option, none, some, Bytes, ltb, leb, ◌==◌, equal,
  if◌then◌else◌, is_nil, length, take, drop, get_or, Result, ok, err, Action, pure, raise, raise_if,
  ◌>>=◌, ◌>>◌,
}

-- A `VerificationError`; an `AttestationCommandError` with its page and status word; what the
-- transport raised; an `OSError`.
pub data Failure : Type 0 where
  refused transport os_error : Failure
  page_failed : ℕ → ℕ → Failure

pub data Curve : Type 0 where
  p256 secp256k1 : Curve

-- python-ecdsa and hashlib as the module uses them: keys from their canonical encoding, or from PEM with
-- whether they are on P256, the order of P256, DER signatures, and the verification of a SHA-256
-- signature, in which an exception is `false`.
pub record Crypto (K : Type 0) : Type 0 where
  pub from_string : Curve → Bytes → Option K
  pub from_pem : Bytes → Option (K × Bool)
  pub order : ℕ
  pub decode_der : Bytes → Option (ℕ × ℕ)
  pub encode_der : ℕ → ℕ → Bytes
  pub verify : K → Bytes → Bytes → Bool

-- `parse_info`
pub record Info : Type 0 where
  pub card_id : Bytes
  pub aid : Bytes
  pub attestation_pub : Bytes
  pub sealed : Bool
  pub cert : Bytes

-- `parse_response`
pub record Evidence : Type 0 where
  pub info : Info
  pub signing_pub : Bytes
  pub pin_state : ℕ
  pub response_sig : Bytes
  pub binding_sig : Bytes

-- `_require`
abbrev pub require : {S : Type 0} → Bool → Action S Failure (Unit {0})
require b = raise_if (not b) refused

-- `_Reader.take`, `byte` and `end`
unfoldable pub take_bytes : ℕ → Action Bytes Failure Bytes
take_bytes n left =
    if leb n (length left) then (ok (take n left), drop n left) else (err refused, left)

unfoldable pub take_byte : Action Bytes Failure ℕ
take_byte [] = (err refused, [])
take_byte (b ∷ left) = (ok b, left)

unfoldable pub at_end : Action Bytes Failure (Unit {0})
at_end [] = (ok tt, [])
at_end (b ∷ left) = (err refused, b ∷ left)

-- The byte, and then as many bytes as it says.
unfoldable pub take_field : Action Bytes Failure Bytes
unfolding take_byte take_bytes
take_field = take_byte >>= take_bytes

-- The length and the first byte of a canonical encoding.
abbrev pub is_encoding : Curve → Bytes → Bool
is_encoding p256 raw = length raw == 65 && get_or raw 0 0 == 4
is_encoding secp256k1 raw = length raw == 33 && (get_or raw 0 0 == 2 || get_or raw 0 0 == 3)

module _ {K : Type 0} (crypto : Crypto K) where
  -- `_pub`
  unfoldable pub pub_key : {S : Type 0} → Bytes → Curve → Action S Failure K
  pub_key raw curve =
      if is_encoding curve raw
      then elim (crypto.from_string curve raw) [ none ↦ raise refused | some key ↦ pure key ]
      else raise refused

  -- `0 < x < NIST256p.order`
  abbrev pub in_range : ℕ → Bool
  in_range x = ltb 0 x && ltb x crypto.order

  -- The checks of `_signature`.
  unfoldable pub is_signature : Bytes → Bool
  unfolding equal
  is_signature sig = leb 8 (length sig) && leb (length sig) 72 && (elim (crypto.decode_der sig) [
    | none ↦ false
    | some (r, s) ↦ in_range r && in_range s && equal (crypto.encode_der r s) sig
  ])

  -- `_parse_info`
  unfoldable pub read_info : Action Bytes Failure Info
  unfolding take_field take_byte take_bytes pub_key is_signature
  read_info = do
    version ← take_byte
    require (version == 1)
    card_id ← take_bytes 16
    aid_len ← take_byte
    require (leb 5 aid_len && leb aid_len 16)
    aid ← take_bytes aid_len
    attestation_pub ← take_bytes 65
    pub_key attestation_pub p256
    flag ← take_byte
    require (flag == 0 || flag == 1)
    cert ← take_field
    require (is_nil cert || is_signature cert)
    require (not (flag == 1) || not (is_nil cert))
    pure (record {
      card_id = card_id;
      aid = aid;
      attestation_pub = attestation_pub;
      sealed = flag == 1;
      cert = cert;
    })

  -- What `parse_response` reads behind the INFO.
  unfoldable pub read_tail : Info → Action Bytes Failure Evidence
  unfolding take_field take_byte take_bytes is_signature
  read_tail info = do
    pub_len ← take_byte
    require (pub_len == 0 || pub_len == 33 || pub_len == 65)
    signing_pub ← take_bytes pub_len
    pin_state ← take_byte
    require (pin_state / 16 == 0)
    response_sig ← take_field
    require (is_signature response_sig)
    binding_sig ← take_field
    require (is_nil binding_sig || is_signature binding_sig)
    pure (record {
      info = info;
      signing_pub = signing_pub;
      pin_state = pin_state;
      response_sig = response_sig;
      binding_sig = binding_sig;
    })

  -- A whole parse: what a reader makes of all the bytes.
  unfoldable pub parse_info : Bytes → Result Failure Info
  unfolding read_info at_end
  parse_info bytes = ((read_info >>= λ info. at_end >>= λ _. pure info) bytes).0

  unfoldable pub parse_response : Bytes → Result Failure Evidence
  unfolding read_info read_tail at_end
  parse_response bytes =
      ((read_info >>= λ info. read_tail info >>= λ e. at_end >>= λ _. pure e) bytes).0
