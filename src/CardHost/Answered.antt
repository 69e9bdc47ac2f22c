-- ===== src/CardHost/Answered.antt =====
-- The signatures that `handle` answers with.
use nuri_passkey_prf_smartca.Base.{
  Option, some, Bytes, Text, codes, Result, ok, ◌≡◌, refl, sym, ap, ◌∙◌, subst, bind-split,
  check-split, raise-ne-ok, not-false, equal_iff,
}
use nuri_passkey_prf_smartca.Attest.Evidence.{Crypto}
use nuri_passkey_prf_smartca.CardHost.Signature.{Curve, Recoverable}
use nuri_passkey_prf_smartca.CardHost.State.{Fault, Settings, Link, Identity}
use nuri_passkey_prf_smartca.CardHost.Values.{
  Value, null, boolean, number, text, array, object, Fields, lookup, parse_hash_strict, pin_buffer,
  parse_address,
}
use nuri_passkey_prf_smartca.CardHost.Process.{Process, signature, Simulator}
use nuri_passkey_prf_smartca.CardHost.Requests.{Handler, signing_signer, sign_hash, verify_pin}
use nuri_passkey_prf_smartca.CardHost.Reading.{
  parse_hash_strict-Keeps, pin_buffer-Keeps, parse_address-Keeps,
}
use nuri_passkey_prf_smartca.CardHost.Handling.{signing_signer-back}
use nuri_passkey_prf_smartca.CardHost.Answers.{
  unmoved, parse_hash_strict-back, Keyed, Signs, sign_by-back, sign_with_pin-back, answered-back,
}

module _ {W H K : Type 0} (link : Link W) (settings : Settings) (curve : Curve H)
    (crypto : Crypto K) (keccak256 : Bytes → Bytes) (simulator : Simulator)
    (other : Text → Value → Option Bytes → Option Identity → W → Result Fault Value × W) where
  abbrev M : Type 0 → Type 0
  M = Handler link settings curve crypto keccak256 simulator other

  abbrev Signed : Fields → Process W → Recoverable → Type 0
  Signed = Signs link settings curve crypto keccak256 simulator other

  -- The address that was given is the one that `info` reported.
  pub Confirmed : Fields → Process W → Type 0
  Confirmed params p =
      (i : Identity) × (p.info ≡ some i)
      × (parse_address keccak256 (lookup (codes "address") params) p ≡ (ok i.address, p))

  pub sign_hash-back :
      (params : Value) (p : Process W) {out : Recoverable} {q : Process W}
      → sign_hash link settings curve crypto keccak256 simulator other params p
        ≡ (ok (signature out), q)
      → (fields : Fields) × (params ≡ object fields) × Signed fields p out
  unfolding sign_hash
  sign_hash-back (object fields) p {out} e =
      bind-split (parse_hash_strict (lookup (codes "hash") fields)) _ e λ digest p₁ e₁ k₁.
        bind-split (signing_signer link settings curve crypto keccak256 simulator other) _ k₁
          λ a p₂ e₂ k₂.
            let is₁ = unmoved _ p (parse_hash_strict-Keeps _) e₁ in
            let (hash, named, well_formed, decoded) = parse_hash_strict-back _ p e₁ in
            let (info, signer, is₂) =
              signing_signer-back link settings curve crypto keccak256 simulator other p₁ e₂ in
            let is = is₂ ∙ is₁ in
            let (key, keyed, r, s, proof) =
              answered-back link settings curve crypto keccak256 simulator other digest _ p₂
                (λ rs q.
                  sign_by-back link settings curve crypto keccak256 simulator other a.0 digest a.1
                    p₂ (ap (λ (y : Process W). y.signer) is₂ ∙ signer)
                    (ap (λ (y : Process W). y.info) is₂ ∙ info))
                k₂ in
            (
              fields,
              refl,
              record {
                hash = hash;
                named = named;
                well_formed = well_formed;
                digest = digest;
                decoded = decoded;
                key = key;
                keyed =
                    subst (λ y. Keyed link settings curve crypto keccak256 simulator other y key) is
                      keyed;
                r = r;
                s = s;
                proof = proof;
              },
            )
  sign_hash-back null p e = raise-ne-ok _ p e
  sign_hash-back (boolean b) p e = raise-ne-ok _ p e
  sign_hash-back (number n) p e = raise-ne-ok _ p e
  sign_hash-back (text v) p e = raise-ne-ok _ p e
  sign_hash-back (array vs) p e = raise-ne-ok _ p e

  pub verify_pin-back :
      (pin params : Value) (p : Process W) {out : Recoverable} {q : Process W}
      → verify_pin link settings curve crypto keccak256 simulator other pin params p
        ≡ (ok (signature out), q)
      → (fields : Fields) × (params ≡ object fields) × Confirmed fields p × Signed fields p out
  unfolding verify_pin Confirmed
  verify_pin-back pin (object fields) p {out} e = bind-split (pin_buffer pin) _ e λ buf p₁ e₁ k₁.
      bind-split (parse_hash_strict (lookup (codes "hash") fields)) _ k₁ λ digest p₂ e₂ k₂.
        bind-split (parse_address keccak256 (lookup (codes "address") fields)) _ k₂
          λ address p₃ e₃ k₃.
            bind-split (signing_signer link settings curve crypto keccak256 simulator other) _ k₃
              λ a p₄ e₄ k₄. check-split _ _ _ k₄ λ c k₅.
                let is₁ = unmoved _ p (pin_buffer-Keeps pin) e₁ in
                let is₂ = unmoved _ p₁ (parse_hash_strict-Keeps _) e₂ ∙ is₁ in
                let is₃ = unmoved _ p₂ (parse_address-Keeps keccak256 _) e₃ ∙ is₂ in
                let (hash, named, well_formed, decoded) = parse_hash_strict-back _ p₁ e₂ in
                let (info, signer, same) =
                  signing_signer-back link settings curve crypto keccak256 simulator other p₃ e₄ in
                let is = same ∙ is₃ in
                let (key, keyed, r, s, proof) =
                  answered-back link settings curve crypto keccak256 simulator other digest _ p₄
                    (λ rs q.
                      sign_with_pin-back link settings curve crypto keccak256 simulator other a.0
                        buf digest a.1 p₄ (ap (λ (y : Process W). y.signer) same ∙ signer)
                        (ap (λ (y : Process W). y.info) same ∙ info))
                    k₅ in
                let here = (equal_iff address a.1.address).0 (not-false _ c) in
                (
                  fields,
                  refl,
                  (
                    a.1,
                    ap (λ (y : Process W). y.info) (sym is₃) ∙ info,
                    ap (parse_address keccak256 (lookup (codes "address") fields)) (sym is₂)
                        ∙ e₃
                        ∙ ap (λ y. (ok y, p₃)) here
                        ∙ ap (λ y. (ok a.1.address, y)) is₃,
                  ),
                  record {
                    hash = hash;
                    named = named;
                    well_formed = well_formed;
                    digest = digest;
                    decoded = decoded;
                    key = key;
                    keyed =
                        subst
                          (λ y. Keyed link settings curve crypto keccak256 simulator other y key) is
                          keyed;
                    r = r;
                    s = s;
                    proof = proof;
                  },
                )
  verify_pin-back pin null p e = raise-ne-ok _ p e
  verify_pin-back pin (boolean b) p e = raise-ne-ok _ p e
  verify_pin-back pin (number n) p e = raise-ne-ok _ p e
  verify_pin-back pin (text v) p e = raise-ne-ok _ p e
  verify_pin-back pin (array vs) p e = raise-ne-ok _ p e
