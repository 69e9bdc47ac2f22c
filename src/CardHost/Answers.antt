-- ===== src/CardHost/Answers.antt =====
-- What `handle` answers with a signature.
use nuri_passkey_prf_smartca.Base.{
  ℕ, true, not, Option, none, some, Bytes, Text, codes, drop, from_hex, Result, ok, err, Action,
  pure, raise, get, ◌>>=◌, ◌≡◌, refl, sym, ap, ◌∙◌, subst, bind-split, if-split, some-split,
  pure-back, raise-ne-ok, not-false, Keeps,
}
use nuri_passkey_prf_smartca.Attest.Evidence.{Crypto}
use nuri_passkey_prf_smartca.CardHost.Signature.{Failure, Curve, Recoverable, verify_and_recover}
use nuri_passkey_prf_smartca.CardHost.Recovered.{IsProof, verify_and_recover-IsProof}
use nuri_passkey_prf_smartca.CardHost.State.{
  Fault, unproved, foreign, Settings, Link, Signer, Identity, Card,
}
use nuri_passkey_prf_smartca.CardHost.Signer.{sign_digest, verify_pin_and_sign}
use nuri_passkey_prf_smartca.CardHost.Values.{
  Value, null, boolean, number, text, array, object, Fields, lookup, is_prefixed_hex,
  parse_hash_strict,
}
use nuri_passkey_prf_smartca.CardHost.Process.{
  Device, simulated, held, Process, signature, Simulator,
}
use nuri_passkey_prf_smartca.CardHost.Requests.{
  Handler, card_of, with_signer, proved, current_key, answer_with, sign_by, sign_with_pin,
}
use nuri_passkey_prf_smartca.CardHost.Session.{get-back}
use nuri_passkey_prf_smartca.CardHost.Keyed.{sign_digest-key, verify_pin_and_sign-key}

module _ {S : Type 0} where
  -- What leaves every property of the state alone leaves the state alone.
  pub unmoved :
      {A : Type 0} (m : Action S Fault A) (s : S) {a : A} {t : S}
      → Keeps (λ x. x ≡ s) m
      → m s ≡ (ok a, t)
      → t ≡ s
  unmoved m s k e = subst (λ x. x.1 ≡ s) e (k.from s refl)

  pub parse_hash_strict-back :
      (v : Value) (s : S) {digest : Bytes} {t : S}
      → parse_hash_strict v s ≡ (ok digest, t)
      → (h : Text) × (v ≡ text h)
        × (is_prefixed_hex 64 h ≡ true)
        × (from_hex (drop 2 h) ≡ some digest)
  unfolding parse_hash_strict
  parse_hash_strict-back (text h) s e =
      if-split _ _ (not (is_prefixed_hex 64 h)) e (λ q k. raise-ne-ok _ s k)
        (λ q k.
          some-split foreign pure (from_hex (drop 2 h)) k
            λ d r p. (h, refl, not-false _ q, r ∙ ap some (sym (pure-back p).0)))
  parse_hash_strict-back null s e = raise-ne-ok _ s e
  parse_hash_strict-back (boolean b) s e = raise-ne-ok _ s e
  parse_hash_strict-back (number n) s e = raise-ne-ok _ s e
  parse_hash_strict-back (array vs) s e = raise-ne-ok _ s e
  parse_hash_strict-back (object fs) s e = raise-ne-ok _ s e

module _ {W H K : Type 0} (link : Link W) (settings : Settings) (curve : Curve H)
    (crypto : Crypto K) (keccak256 : Bytes → Bytes) (simulator : Simulator)
    (other : Text → Value → Option Bytes → Option Identity → W → Result Fault Value × W) where
  abbrev M : Type 0 → Type 0
  M = Handler link settings curve crypto keccak256 simulator other

  -- The key that a signature is checked with: the one that was reported, or the simulator's.
  pub data Keyed (p : Process W) (key : Bytes) : Type 0 where
    by_card :
        (x : Signer) (i : Identity)
        → p.signer ≡ some (held x)
        → p.info ≡ some i
        → key ≡ i.pubkey
        → Keyed p key
    by_sim : p.signer ≡ some simulated → key ≡ simulator.pubkey → Keyed p key

  -- A signature of the hash that these fields name.
  pub record Signs (fields : Fields) (p : Process W) (out : Recoverable) : Type 0 where
    pub hash : Text
    pub named : lookup (codes "hash") fields ≡ text hash
    pub well_formed : is_prefixed_hex 64 hash ≡ true
    pub digest : Bytes
    pub decoded : from_hex (drop 2 hash) ≡ some digest
    pub key : Bytes
    pub keyed : Keyed p key
    pub r : ℕ
    pub s : ℕ
    pub proof : IsProof curve key digest r s out

  -- The key of the signer.
  abbrev key_in : Option Device → Option Bytes
  key_in none = none
  key_in (some simulated) = some simulator.pubkey
  key_in (some (held x)) = some x.pubkey

  current_key-back :
      (p : Process W) {key : Bytes} {q : Process W}
      → current_key link settings curve crypto keccak256 simulator other p ≡ (ok key, q)
      → key_in p.signer ≡ some key
  unfolding current_key
  current_key-back p e = bind-split get _ e λ a p₁ e₁ k₁.
      ap (λ (y : Process W). key_in y.signer) (sym (get-back e₁).0) ∙ chosen p₁ a.signer k₁
    where
      chosen :
          {key : Bytes} {q : Process W} (p₁ : Process W) (d : Option Device)
          → (elim d as (λ _. M Bytes) [
            | some (held x) ↦ pure x.pubkey
            | some simulated ↦ pure simulator.pubkey
            | none ↦ raise foreign
          ])
              p₁
            ≡ (ok key, q)
          → key_in d ≡ some key
      chosen p₁ none e = raise-ne-ok foreign p₁ e
      chosen p₁ (some simulated) e = ap some (sym (pure-back e).0)
      chosen p₁ (some (held x)) e = ap some (sym (pure-back e).0)

  proved-back :
      {A : Type 0} (m : Action (Process W) Failure A) (p : Process W) {a : A} {q : Process W}
      → proved link settings curve crypto keccak256 simulator other m p ≡ (ok a, q)
      → (t : Process W) × (m p ≡ (ok a, t))
  unfolding proved
  proved-back {A} m p {a} e = (
    (m p).1,
    ap (λ r. (r, (m p).1)) (same (m p).0 (ap (λ (x : Result Fault A × Process W). x.0) e)),
  )
    where
      same :
          (r : Result Failure A)
          → (elim r as (λ _. Result Fault A) [ ok b ↦ ok b | err x ↦ err (unproved x) ]) ≡ ok a
          → r ≡ ok a
      same (ok b) e = cc
      same (err x) e = cc

  answer_with-back :
      (digest : Bytes) (rs : ℕ × ℕ) (key : Bytes) (p : Process W) {out : Recoverable}
      {q : Process W}
      → key_in p.signer ≡ some key
      → answer_with link settings curve crypto keccak256 simulator other digest rs p
        ≡ (ok (signature out), q)
      → IsProof curve key digest rs.0 rs.1 out
  unfolding answer_with
  answer_with-back digest (r, s) key p {out} is e =
      bind-split (current_key link settings curve crypto keccak256 simulator other) _ e
        λ k p₁ e₁ k₁.
          bind-split
            (proved link settings curve crypto keccak256 simulator other
              (verify_and_recover curve k digest r s))
            _ k₁
            λ o p₂ e₂ k₂.
              let (t, run) = proved-back _ p₁ e₂ in
              let same : out ≡ o = let f = (pure-back k₂).0 in cc in
              let used : k ≡ key = let g = current_key-back p e₁ in cc in
              subst (λ y. IsProof curve y digest r s out) used
                (subst (IsProof curve k digest r s) (sym same)
                  (verify_and_recover-IsProof curve k digest r s p₁ run))

  with_signer-back :
      {A : Type 0} (x : Signer) (m : Action (Card W) Fault A) (p : Process W) {a : A}
      {q : Process W}
      → with_signer link settings curve crypto keccak256 simulator other x m p ≡ (ok a, q)
      → (t : Card W) × (m (card_of link settings curve crypto keccak256 simulator other p x)
          ≡ (ok a, t))
        × (q.signer ≡ some (held t.self))
  unfolding with_signer
  with_signer-back x m p {a} {q} e =
      let ran = m (card_of link settings curve crypto keccak256 simulator other p x) in
      (
        ran.1,
        ap (λ (y : Result Fault _ × Process W). (y.0, ran.1)) e,
        ap (λ (y : Result Fault _ × Process W). y.1.signer) (sym e),
      )

  -- Whoever signs, the key that is then checked with is one that was reported.
  pub Settled : Process W → Process W → Type 0
  Settled p q = (key : Bytes) × Keyed p key × (key_in q.signer ≡ some key)

  by_signer :
      (x : Signer) (i : Identity) (p q : Process W) (t : Card W)
      → p.signer ≡ some (held x)
      → p.info ≡ some i
      → q.signer ≡ some (held t.self)
      → t.self.pubkey ≡ i.pubkey
      → Settled p q
  unfolding Settled
  by_signer x i p q t signer info now key =
      (i.pubkey, by_card x i signer info refl, ap key_in now ∙ ap some key)

  pub sign_by-back :
      (x : Device) (digest : Bytes) (i : Identity) (p : Process W) {rs : ℕ × ℕ} {q : Process W}
      → p.signer ≡ some x
      → p.info ≡ some i
      → sign_by link settings curve crypto keccak256 simulator other x digest i p ≡ (ok rs, q)
      → Settled p q
  unfolding sign_by Settled
  sign_by-back simulated digest i p signer info e =
      let (_, is) = pure-back e in
      (
        simulator.pubkey,
        by_sim signer refl,
        ap (λ (y : Process W). key_in y.signer) is ∙ ap key_in signer,
      )
  sign_by-back (held x) digest i p {rs} {q} signer info e =
      let (t, run, now) = with_signer-back x (sign_digest curve link settings digest i) p e in
      by_signer x i p q t signer info now (
        sign_digest-key curve link settings i digest
          (card_of link settings curve crypto keccak256 simulator other p x) run)

  pub sign_with_pin-back :
      (x : Device) (pin digest : Bytes) (i : Identity) (p : Process W) {rs : ℕ × ℕ} {q : Process W}
      → p.signer ≡ some x
      → p.info ≡ some i
      → sign_with_pin link settings curve crypto keccak256 simulator other x pin digest i p
        ≡ (ok rs, q)
      → Settled p q
  unfolding sign_with_pin
  sign_with_pin-back simulated pin digest i p signer info e = raise-ne-ok _ p e
  sign_with_pin-back (held x) pin digest i p {rs} {q} signer info e =
      let (t, run, now) =
        with_signer-back x (verify_pin_and_sign curve link settings pin digest i) p e in
      by_signer x i p q t signer info now (
        verify_pin_and_sign-key curve link settings i pin digest
          (card_of link settings curve crypto keccak256 simulator other p x) run)

  -- The answer with a signature that the signer made.
  pub answered-back :
      (digest : Bytes) (m : M (ℕ × ℕ)) (p : Process W) {out : Recoverable} {q : Process W}
      → ((rs : ℕ × ℕ) (q : Process W) → m p ≡ (ok rs, q) → Settled p q)
      → (m >>= λ rs. answer_with link settings curve crypto keccak256 simulator other digest rs) p
        ≡ (ok (signature out), q)
      → (key : Bytes) × Keyed p key × (r : ℕ) × (s : ℕ) × IsProof curve key digest r s out
  unfolding Settled
  answered-back digest m p settles e = bind-split m _ e λ rs p₁ e₁ k₁.
      let (key, keyed, now) = settles rs p₁ e₁ in
      (key, keyed, rs.0, rs.1, answer_with-back digest rs key p₁ now k₁)
