-- ===== src/CardHost/Reading.antt =====
-- What reads a parameter, or checks a signature, leaves the state alone.
use nuri_passkey_prf_smartca.Base.{
  ◌++◌, codes, ℕ, ◌&&◌, not, Option, none, some, Bytes, equal, length, leb, drop, Action, pure,
  raise, Keeps, Keeps-pure, Keeps-raise, Keeps-raise_if, Keeps-if, Keeps-bind, from_hex,
}
use nuri_passkey_prf_smartca.CardHost.Signature.{
  Failure, malformed, Checked, valid, bad_signature, digest_too_long, verify_failed, bad_digest,
  Curve, normalize_low_s, word, read_key, check_digest, candidates_of, parity_of,
  verify_and_recover,
}
use nuri_passkey_prf_smartca.CardHost.State.{Fault, unproved, foreign}
use nuri_passkey_prf_smartca.CardHost.Values.{
  Value, null, boolean, number, text, array, object, is_prefixed_hex, utf8, parse_hash_strict,
  pin_buffer, parse_address, pubkey_to_address,
}
use nuri_passkey_prf_smartca.CardHost.Silent.{Keeps-some}

module _ {S : Type 0} {Inv : S → Type 0} where
  pub if_given :
      {A B : Type 0} (e : Fault) (f : A → Action S Fault B) (o : Option A)
      → ((a : A) → Keeps Inv (f a))
      → Keeps Inv (elim o as (λ _. Action S Fault B) [ none ↦ raise e | some a ↦ f a ])
  if_given e f none k = Keeps-raise e
  if_given e f (some a) k = k a

  pub parse_hash_strict-Keeps : (v : Value) → Keeps Inv (parse_hash_strict v)
  unfolding parse_hash_strict
  parse_hash_strict-Keeps (text v) =
      Keeps-if (not (is_prefixed_hex 64 v)) _ _ (λ _. Keeps-raise _)
        λ _. Keeps-some foreign (λ d. d) (from_hex (drop 2 v))
  parse_hash_strict-Keeps null = Keeps-raise _
  parse_hash_strict-Keeps (boolean b) = Keeps-raise _
  parse_hash_strict-Keeps (number n) = Keeps-raise _
  parse_hash_strict-Keeps (array vs) = Keeps-raise _
  parse_hash_strict-Keeps (object fs) = Keeps-raise _

  pub pin_buffer-Keeps : (v : Value) → Keeps Inv (pin_buffer v)
  unfolding pin_buffer
  pin_buffer-Keeps (text v) = if_given foreign _ (utf8 v) λ buf.
      Keeps-if (not (leb 4 (length buf) && leb (length buf) 16)) _ _ (λ _. Keeps-raise _)
        (λ _. Keeps-pure buf)
  pin_buffer-Keeps null = Keeps-raise _
  pin_buffer-Keeps (boolean b) = Keeps-raise _
  pin_buffer-Keeps (number n) = Keeps-raise _
  pin_buffer-Keeps (array vs) = Keeps-raise _
  pin_buffer-Keeps (object fs) = Keeps-raise _

  pub parse_address-Keeps :
      (keccak256 : Bytes → Bytes) (v : Value) → Keeps Inv (parse_address keccak256 v)
  unfolding parse_address
  parse_address-Keeps keccak256 (text v) =
      Keeps-if (not (is_prefixed_hex 40 v)) _ _ (λ _. Keeps-raise _)
        λ _.
          if_given foreign _ _
            λ right. Keeps-if (not (equal v right)) _ _ (λ _. Keeps-raise _) (λ _. Keeps-pure v)
  parse_address-Keeps keccak256 null = Keeps-raise _
  parse_address-Keeps keccak256 (boolean b) = Keeps-raise _
  parse_address-Keeps keccak256 (number n) = Keeps-raise _
  parse_address-Keeps keccak256 (array vs) = Keeps-raise _
  parse_address-Keeps keccak256 (object fs) = Keeps-raise _

  module _ {H : Type 0} (curve : Curve H) where
    pub pubkey_to_address-Keeps :
        (keccak256 : Bytes → Bytes) (key : Bytes)
        → Keeps Inv (pubkey_to_address keccak256 curve key)
    unfolding pubkey_to_address
    pubkey_to_address-Keeps keccak256 key =
        if_given (unproved malformed) _ (curve.from_string key)
          λ k. Keeps-some foreign (λ out. codes "0x" ++ out) _

    word-Keeps : (x : ℕ) → Keeps Inv (word curve x)
    unfolding word
    word-Keeps x = Keeps-bind _ _ (Keeps-raise_if _ _) λ _. Keeps-pure _

    or_raise :
        {A : Type 0} (e : Failure) (o : Option A)
        → Keeps Inv (elim o as (λ _. Action S Failure A) [ none ↦ raise e | some a ↦ pure a ])
    or_raise e none = Keeps-raise e
    or_raise e (some a) = Keeps-pure a

    check_digest-Keeps : (k : H) (sig digest : Bytes) → Keeps Inv (check_digest curve k sig digest)
    unfolding check_digest
    check_digest-Keeps k sig digest = go (curve.verify_digest k sig digest)
      where
        go :
            (c : Checked)
            → Keeps Inv (elim c as (λ _. Action S Failure (Unit {0})) [
              | valid ↦ pure tt
              | bad_signature ↦ raise verify_failed
              | digest_too_long ↦ raise bad_digest
            ])
        go valid = Keeps-pure tt
        go bad_signature = Keeps-raise _
        go digest_too_long = Keeps-raise _

    pub verify_and_recover-Keeps :
        (key digest : Bytes) (r s : ℕ) → Keeps Inv (verify_and_recover curve key digest r s)
    unfolding verify_and_recover read_key candidates_of parity_of
    verify_and_recover-Keeps key digest r s = Keeps-bind _ _ (Keeps-raise_if _ _) λ _.
        Keeps-bind _ _ (word-Keeps (normalize_low_s curve r s).0) λ rb.
          Keeps-bind _ _ (word-Keeps (normalize_low_s curve r s).1) λ sb.
            Keeps-bind _ _ (or_raise malformed (curve.from_string key)) λ k.
              Keeps-bind _ _ (check_digest-Keeps k _ digest) λ _.
                Keeps-bind _ _ (or_raise verify_failed _) λ ks.
                  Keeps-bind _ _ (or_raise verify_failed _)
                    λ i. Keeps-bind _ _ (Keeps-raise_if _ _) λ _. Keeps-pure _
