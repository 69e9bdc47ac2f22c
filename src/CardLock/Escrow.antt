-- ===== src/CardLock/Escrow.antt =====
-- scripts/card_lock.py: the escrow file, `validate_payload`, `encrypt` and `decrypt`.
use nuri_passkey_prf_smartca.Base.{
  ℕ, zero, suc, ◌+◌, ◌/◌, ◌%◌, Bool, true, false, ◌&&◌, ◌||◌, not, [], ◌∷◌, Option, none, some,
  Bytes, Text, codes, ltb, leb, ◌==◌, equal, if◌then◌else◌, length, take, drop, within, from_hex,
  to_hex,
}

abbrev pub gp_version : Text
gp_version = codes "24.10.15"

abbrev pub default_key : Text
default_key = codes "404142434445464748494A4B4C4D4E4F"

abbrev pub escrow_format : Text
escrow_format = codes "nuri-gp-escrow-v1"

-- Three keys of a keyset.
pub record Keys : Type 0 where
  pub enc : Text
  pub mac : Text
  pub dek : Text

-- The payload of an escrow; `key_type` may be missing.
pub record Payload : Type 0 where
  pub gp : Text
  pub cplc : Text
  pub serial : Text
  pub key_version : ℕ
  pub key_type : Option Text
  pub old_keys : Keys
  pub new_keys : Keys

-- The parameters of scrypt: name, N, r and p.
pub record Kdf : Type 0 where
  pub name : Text
  pub cost : ℕ
  pub block : ℕ
  pub lanes : ℕ

pub record Envelope : Type 0 where
  pub format : Text
  pub kdf : Kdf
  pub salt : Text
  pub nonce : Text
  pub tag : Text
  pub ciphertext : Text

abbrev pub scrypt_params : Kdf
scrypt_params = record { name = codes "scrypt"; cost = 131072; block = 8; lanes = 1 }

-- Whether the `ascii` codec decodes it.
unfoldable pub is_ascii : Bytes → Bool
is_ascii [] = true
is_ascii (c ∷ cs) = ltb c 128 && is_ascii cs

-- `re.fullmatch(r"[0-9A-F]{n}", text)`
unfoldable pub all_upper_hex : Text → Bool
all_upper_hex [] = true
all_upper_hex (c ∷ cs) = (within b'0' b'9' c || within b'A' b'F' c) && all_upper_hex cs

unfoldable pub is_hex : ℕ → Text → Bool
unfolding all_upper_hex
is_hex n text = length text == n && all_upper_hex text

-- `payload.get("key_type", "AES")`
abbrev pub type_or_aes : Option Text → Text
type_or_aes none = codes "AES"
type_or_aes (some t) = t

-- The number of ones among the `n` lowest bits.
unfoldable pub ones : ℕ → ℕ → ℕ
ones zero b = 0
ones (suc n) b = b % 2 + ones n (b / 2)

unfoldable pub all_odd : Bytes → Bool
unfolding ones
all_odd [] = true
all_odd (b ∷ bs) = ones 8 b % 2 == 1 && all_odd bs

unfoldable pub has_parity : Text → Bool
unfolding all_odd from_hex
has_parity key = elim (from_hex key) [ none ↦ false | some bytes ↦ all_odd bytes ]

abbrev pub on_keys : (Text → Bool) → Keys → Bool
on_keys p keys = p keys.enc && p keys.mac && p keys.dek

abbrev pub is_version : ℕ → Bool
is_version v = leb 1 v && leb v 127 && not (leb 0x10 v && leb v 0x2f)

abbrev pub is_type : Text → Bool
is_type t = equal t (codes "AES") || equal t (codes "DES3")

unfoldable pub validate_payload : Payload → Bool
unfolding is_hex has_parity equal
validate_payload p =
    equal p.gp gp_version
    && is_hex 84 p.cplc
    && is_hex 8 p.serial
    && equal p.serial (take 8 (drop 24 p.cplc))
    && is_version p.key_version
    && is_type (type_or_aes p.key_type)
    && on_keys (is_hex 32) p.old_keys
    && on_keys (is_hex 32) p.new_keys
    && (not (equal (type_or_aes p.key_type) (codes "DES3")) || on_keys has_parity p.new_keys)
    && on_keys (λ k. equal k default_key) p.old_keys

-- The json module on the two shapes, scrypt under the parameters above, and AES-GCM with a tag of 16
-- bytes, which opens to nothing where the tag does not fit.
pub record Cipher (K : Type 0) : Type 0 where
  pub dump_payload : Payload → Bytes
  pub load_payload : Bytes → Option Payload
  pub dump_envelope : Envelope → Bytes
  pub load_envelope : Bytes → Option Envelope
  pub scrypt : Bytes → Bytes → K
  pub seal : K → Bytes → Bytes → Bytes → Bytes × Bytes
  pub unseal : K → Bytes → Bytes → Bytes → Bytes → Option Bytes

abbrev pub same_kdf : Kdf → Kdf → Bool
same_kdf a b = equal a.name b.name && a.cost == b.cost && a.block == b.block && a.lanes == b.lanes

module _ {K : Type 0} (cipher : Cipher K) where
  -- What `encrypt` writes, with the random salt and nonce.
  unfoldable pub sealed_envelope : Bytes → Bytes → Payload → Bytes → Envelope
  unfolding to_hex
  sealed_envelope salt nonce payload password =
      let (ciphertext, tag) =
        cipher.seal (cipher.scrypt password salt) nonce escrow_format
          (cipher.dump_payload payload) in
      record {
        format = escrow_format;
        kdf = scrypt_params;
        salt = to_hex salt;
        nonce = to_hex nonce;
        tag = to_hex tag;
        ciphertext = to_hex ciphertext;
      }

  unfoldable pub encrypt : Bytes → Bytes → Payload → Bytes → Bytes
  unfolding sealed_envelope
  encrypt salt nonce payload password =
      cipher.dump_envelope (sealed_envelope salt nonce payload password)

  -- A payload that is valid.
  unfoldable pub validated : Option Payload → Option Payload
  unfolding validate_payload
  validated none = none
  validated (some p) = if validate_payload p then some p else none

  -- What comes of the four fields, decoded.
  unfoldable pub open_envelope :
      Option Bytes → Option Bytes → Option Bytes → Option Bytes → Bytes → Option Payload
  unfolding validated
  open_envelope (some salt) (some iv) (some tag) (some ciphertext) password =
      if length salt == 32 && length iv == 12 && length tag == 16
      then elim (cipher.unseal (cipher.scrypt password salt) iv escrow_format ciphertext tag) [
        | none ↦ none
        | some plain ↦ validated (cipher.load_payload plain)
      ]
      else none
  open_envelope _ _ _ _ password = none

  -- `decrypt`; every error is the one Refusal.
  unfoldable pub decrypt : Bytes → Bytes → Option Payload
  unfolding open_envelope equal from_hex
  decrypt content password = elim (cipher.load_envelope content) [
    | none ↦ none
    | some e ↦
        if equal e.format escrow_format && same_kdf e.kdf scrypt_params
        then open_envelope (from_hex e.salt) (from_hex e.nonce) (from_hex e.tag)
            (from_hex e.ciphertext) password
        else none
  ]
