-- ===== src/Attest/Format.antt =====
-- The bytes of an INFO and of a whole evidence, against the parser: both directions.
use nuri_passkey_prf_smartca.Base.{
  ℕ, zero, suc, ◌≤◌, Bool, true, false, [], ◌∷◌, ◌++◌, Option, none, some, Bytes, ◌≡◌, inl, inr,
  refl, sym, ap, ◌∙◌, arith, leb, if◌then◌else◌, length, take, drop, Result, ok, err, Action, pure,
  raise, Bool-cases, bind-run, bind-back,
}
use nuri_passkey_prf_smartca.Attest.Evidence.{
  Failure, refused, Curve, Crypto, Info, Evidence, take_bytes, take_byte, take_field, at_end,
  is_encoding, pub_key,
}

abbrev pub flag_byte : Bool → ℕ
flag_byte true = 1
flag_byte false = 0

-- The INFO in bytes, in front of `rest`.
abbrev pub info_onto : Info → Bytes → Bytes
info_onto i rest =
    1
    ∷ (i.card_id
        ++ (length i.aid
            ∷ (i.aid
                ++ (i.attestation_pub
                    ++ (flag_byte i.sealed ∷ (length i.cert ∷ (i.cert ++ rest)))))))

abbrev pub tail_onto : Evidence → Bytes → Bytes
tail_onto e rest =
    length e.signing_pub
    ∷ (e.signing_pub
        ++ (e.pin_state
            ∷ (length e.response_sig
                ∷ (e.response_sig ++ (length e.binding_sig ∷ (e.binding_sig ++ rest))))))

take-exact : (v s : Bytes) → take (length v) (v ++ s) ≡ v
take-exact [] s = refl
take-exact (x ∷ v) s = ap (◌∷◌ x) (take-exact v s)

drop-exact : (v s : Bytes) → drop (length v) (v ++ s) ≡ s
drop-exact [] s = refl
drop-exact (x ∷ v) s = drop-exact v s

long_enough : (v s : Bytes) → leb (length v) (length (v ++ s)) ≡ true
long_enough [] s = ground arith
long_enough (x ∷ v) s = ground (arith, long_enough v s)

pub take_bytes-run : (v s : Bytes) → take_bytes (length v) (v ++ s) ≡ (ok v, s)
unfolding take_bytes
take_bytes-run v s = rw (long_enough v s) (rw (take-exact v s, drop-exact v s) refl)

pub take_bytes-run_of : (n : ℕ) (v s : Bytes) → length v ≡ n → take_bytes n (v ++ s) ≡ (ok v, s)
take_bytes-run_of n v s e = rw (← e) (take_bytes-run v s)

split_at : (n : ℕ) (s : Bytes) → n ≤ length s → (s ≡ take n s ++ drop n s) × (length (take n s) ≡ n)
split_at zero s h = (refl, refl)
split_at (suc n) [] h = absurd (omega arith)
split_at (suc n) (x ∷ s) h = let (p, q) = split_at n s (omega arith) in (ap (◌∷◌ x) p, ap suc q)

pub take_bytes-back :
    (n : ℕ) (s : Bytes) {v s' : Bytes}
    → take_bytes n s ≡ (ok v, s')
    → (s ≡ v ++ s') × (length v ≡ n)
unfolding take_bytes
take_bytes-back n s {v} {s'} e = elim (Bool-cases (leb n (length s))) [
  | inl enough ↦
      let (p, q) = split_at n s (ground arith) in
      let e' : (ok (take n s), drop n s) ≡ (ok v, s') = rw enough at e in
      let first : take n s ≡ v = cc (ap (λ (x : Result Failure Bytes × Bytes). x.0) e') in
      let rest : drop n s ≡ s' = ap (λ (x : Result Failure Bytes × Bytes). x.1) e' in
      rw (← first, ← rest) (p, q)
  | inr short ↦ absurd (
      let e' : (err refused, s) ≡ (ok v, s') = rw short at e in
      cc (ap (λ (x : Result Failure Bytes × Bytes). x.0) e'))
]

pub take_byte-back : (s : Bytes) {b : ℕ} {s' : Bytes} → take_byte s ≡ (ok b, s') → s ≡ b ∷ s'
unfolding take_byte
take_byte-back [] e = cc (ap (λ (x : Result Failure ℕ × Bytes). x.0) e)
take_byte-back (c ∷ s) {b} {s'} e =
    let first : c ≡ b = cc (ap (λ (x : Result Failure ℕ × Bytes). x.0) e) in
    let rest : s ≡ s' = ap (λ (x : Result Failure ℕ × Bytes). x.1) e in rw (first, rest) refl

pub take_field-run : (v s : Bytes) → take_field (length v ∷ (v ++ s)) ≡ (ok v, s)
unfolding take_field take_byte
take_field-run v s = bind-run take_byte take_bytes refl ∙ take_bytes-run v s

pub take_field-back :
    (s : Bytes) {v s' : Bytes} → take_field s ≡ (ok v, s') → s ≡ length v ∷ (v ++ s')
unfolding take_field
take_field-back s e =
    let (n, s₁, e₁, e₂) = bind-back take_byte take_bytes e in
    let (p, q) = take_bytes-back n s₁ e₂ in rw (q, ← p) (take_byte-back s e₁)

pub at_end-back :
    (s : Bytes) {u : Unit {0}} {s' : Bytes} → at_end s ≡ (ok u, s') → (s ≡ []) × (s' ≡ [])
unfolding at_end
at_end-back [] e = (refl, ap (λ (x : Result Failure (Unit {0}) × Bytes). x.1) (sym e))
at_end-back (c ∷ s) e = cc (ap (λ (x : Result Failure (Unit {0}) × Bytes). x.0) e)

module _ {K : Type 0} (crypto : Crypto K) where
  -- A key that `_pub` accepts.
  pub record IsKey (curve : Curve) (raw : Bytes) : Type 0 where
    pub key : K
    pub canonical : is_encoding curve raw ≡ true
    pub decoded : crypto.from_string curve raw ≡ some key

  pub pub_key-run :
      {S : Type 0} {s : S} (raw : Bytes) (curve : Curve)
      → (k : IsKey curve raw) → pub_key crypto raw curve s ≡ (ok k.key, s)
  unfolding pub_key pure
  pub_key-run raw curve k = rw k.canonical (rw k.decoded refl)

  pub pub_key-back :
      {S : Type 0} {s s' : S} {k : K} (raw : Bytes) (curve : Curve)
      → pub_key crypto raw curve s ≡ (ok k, s')
      → (is_encoding curve raw ≡ true) × (crypto.from_string curve raw ≡ some k) × (s' ≡ s)
  unfolding pub_key pure raise
  pub_key-back {S} {s} {s'} {k} raw curve e =
      go (is_encoding curve raw) refl (crypto.from_string curve raw) refl e
    where
      go :
          (b : Bool)
          → is_encoding curve raw ≡ b
          → (o : Option K) → crypto.from_string curve raw ≡ o
          → (if◌then◌else◌ {A = Action S Failure K} b
                (elim o as (λ _. Action S Failure K) [ none ↦ raise refused | some key ↦ pure key ])
                (raise refused))
              s
            ≡ (ok k, s')
          → (is_encoding curve raw ≡ true) × (crypto.from_string curve raw ≡ some k) × (s' ≡ s)
      go true p none q e = cc (ap (λ (x : Result Failure K × S). x.0) e)
      go true p (some key) q e =
          let same : key ≡ k = cc (ap (λ (x : Result Failure K × S). x.0) e) in
          (p, q ∙ ap some same, ap (λ (x : Result Failure K × S). x.1) (sym e))
      go false p o q e = cc (ap (λ (x : Result Failure K × S). x.0) e)
