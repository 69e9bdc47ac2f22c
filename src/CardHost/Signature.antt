-- ===== src/CardHost/Signature.antt =====
-- host/nuri_card_host.py: `normalize_low_s` and `verify_and_recover`. The package ecdsa is a parameter.
use nuri_passkey_prf_smartca.Base.{
  ℕ, suc, ◌+◌, ◌-◌, ◌/◌, ◌^◌, ◌&&◌, not, List, [], ◌∷◌, ◌++◌, Option, none, some, Bytes, Text, ltb,
  leb, equal, if◌then◌else◌, to_hex, to_bytes, codes, Action, pure, raise, raise_if, ◌>>=◌, ◌>>◌,
}

-- `HostError` with the code VERIFY_FAILED, and what the bytes and the package raise.
pub data Failure : Type 0 where
  verify_failed overflow value_error malformed bad_digest : Failure

-- What `verify_digest` does: it returns, or raises one of two errors.
pub data Checked : Type 0 where
  valid bad_signature digest_too_long : Checked

-- The package ecdsa at SECP256k1.
pub record Curve (K : Type 0) : Type 0 where
  pub order : ℕ
  -- `VerifyingKey.from_string`; `none` is its error.
  pub from_string : Bytes → Option K
  pub compressed : K → Bytes
  pub uncompressed : K → Bytes
  pub verify_digest : K → Bytes → Bytes → Checked
  -- `from_public_key_recovery_with_digest`; `none` is any exception.
  pub recover : Bytes → Bytes → Option (List K)
  -- `sigdecode_der`; `none` is any exception.
  pub decode_der : Bytes → Option (ℕ × ℕ)

pub record Recoverable : Type 0 where
  pub r : Text
  pub s : Text
  pub y_parity : ℕ
  pub signature : Text

abbrev pub hex_text : Bytes → Text
hex_text bytes = codes "0x" ++ to_hex bytes

module _ {K : Type 0} (curve : Curve K) where
  unfoldable pub normalize_low_s : ℕ → ℕ → ℕ × ℕ
  normalize_low_s r s = (r, if ltb (curve.order / 2) s then curve.order - s else s)

  -- The index of the first candidate with these compressed bytes.
  unfoldable pub index_of : Bytes → List K → Option ℕ
  index_of expected [] = none
  index_of expected (k ∷ ks) =
      let rest = index_of expected ks in
      if equal (curve.compressed k) expected
      then some 0
      else elim rest [ none ↦ none | some i ↦ some (suc i) ]

  module _ {S : Type 0} where
    -- `VerifyingKey.from_string`
    unfoldable pub read_key : Bytes → Action S Failure K
    read_key bytes = elim (curve.from_string bytes) [ none ↦ raise malformed | some k ↦ pure k ]

    -- `x.to_bytes(32, "big")`
    unfoldable pub word : ℕ → Action S Failure Bytes
    word x = do raise_if (leb (256 ^ 32) x) overflow; pure (to_bytes 32 x)

    unfoldable pub check_digest : K → Bytes → Bytes → Action S Failure (Unit {0})
    check_digest k sig digest = elim (curve.verify_digest k sig digest) [
      | valid ↦ pure tt
      | bad_signature ↦ raise verify_failed
      | digest_too_long ↦ raise bad_digest
    ]

    unfoldable pub candidates_of : Bytes → Bytes → Action S Failure (List K)
    candidates_of sig digest = elim (curve.recover sig digest) [
      | none ↦ raise verify_failed
      | some ks ↦ pure ks
    ]

    unfoldable pub parity_of : Bytes → List K → Action S Failure ℕ
    parity_of expected ks = elim (index_of expected ks) [
      | none ↦ raise verify_failed
      | some i ↦ pure i
    ]

    unfoldable pub verify_and_recover : Bytes → Bytes → ℕ → ℕ → Action S Failure Recoverable
    verify_and_recover pubkey digest r s = do
      raise_if (not ((leb 1 r && ltb r curve.order) && (leb 1 s && ltb s curve.order)))
          verify_failed
      r_bytes ← word (normalize_low_s r s).0
      s_bytes ← word (normalize_low_s r s).1
      vk ← read_key pubkey
      check_digest vk (r_bytes ++ s_bytes) digest
      candidates ← candidates_of (r_bytes ++ s_bytes) digest
      y_parity ← parity_of (curve.compressed vk) candidates
      raise_if (leb 256 (27 + y_parity)) value_error
      pure record {
        r = hex_text r_bytes;
        s = hex_text s_bytes;
        y_parity = y_parity;
        signature = hex_text (r_bytes ++ s_bytes) ++ to_hex ((27 + y_parity) ∷ []);
      }
