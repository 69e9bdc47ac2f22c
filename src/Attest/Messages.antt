-- ===== src/Attest/Messages.antt =====
-- The three messages under signature cannot be taken for one another, nor can their fields.
use nuri_passkey_prf_smartca.Base.{
  ℕ, ◌+◌, ◌≤◌, false, [], ◌∷◌, ◌++◌, Bytes, ◌≡◌, ◌⊎◌, refl, sym, ap, ◌∙◌, arith, get_or, length,
  length-append,
}
use nuri_passkey_prf_smartca.Attest.Checks.{
  ca_domain, response_domain, binding_domain, ca_message, response_message, binding_message,
}

append_split :
    (xs ys : Bytes) {a b : Bytes} → xs ++ a ≡ ys ++ b → length xs ≡ length ys → (xs ≡ ys) × (a ≡ b)
append_split [] [] e l = (refl, e)
append_split [] (y ∷ ys) e l = absurd (omega arith)
append_split (x ∷ xs) [] e l = absurd (omega arith)
append_split (x ∷ xs) (y ∷ ys) {a} {b} e l =
    let tails : xs ++ a ≡ ys ++ b = cc e in
    let heads : x ≡ y = cc e in
    let (p, q) = append_split xs ys tails (omega arith) in (rw (heads, p) refl, q)

-- With the lengths behind them equal, the fronts are of one length too.
append_split_end :
    (xs ys : Bytes) {a b : Bytes} → xs ++ a ≡ ys ++ b → length a ≡ length b → (xs ≡ ys) × (a ≡ b)
append_split_end xs ys {a} {b} e l =
    append_split xs ys e
      (omega (arith, ap length e, length-append {0} xs a, length-append {0} ys b))

-- A message that a key of the scheme signs: the CA's with card id, AID and attestation key, the
-- response's with challenge, signing key and PIN state, the binding's with AID and signing key.
pub data Signed : Type 0 where
  by_ca : Bytes → Bytes → Bytes → Signed
  answer : Bytes → Bytes → ℕ → Signed
  bond : Bytes → Bytes → Signed

pub signed_bytes : Signed → Bytes
unfolding ca_message response_message binding_message
signed_bytes (by_ca card_id aid key) =
    ca_message
      (record { card_id = card_id; aid = aid; attestation_pub = key; sealed = false; cert = [] })
signed_bytes (answer challenge key pin_state) = response_message challenge key pin_state
signed_bytes (bond aid key) = binding_message aid key

-- The lengths that the parser and `verify_response` check.
abbrev pub HasLengths : Signed → Type 0
HasLengths (by_ca card_id aid key) = (length card_id ≡ 16) × (length key ≡ 65)
HasLengths (answer challenge key pin_state) = length challenge ≡ 32
HasLengths (bond aid key) =
    (5 ≤ length aid) × (length aid ≤ 16) × ((length key ≡ 33) ⊎ (length key ≡ 65))

-- The bytes under a signature tell which of the three messages it is, and every field of it.
pub signed_bytes_inj :
    (x y : Signed) → HasLengths x → HasLengths y → signed_bytes x ≡ signed_bytes y → x ≡ y
unfolding signed_bytes
signed_bytes_inj (by_ca i a k) (by_ca j b l) v w e =
    let (_, p) = append_split ca_domain ca_domain e refl in
    let (q, r) = append_split i j p (v.0 ∙ sym w.0) in
    let (s, t) = append_split_end a b r (v.1 ∙ sym w.1) in rw (q, s, t) refl
signed_bytes_inj (answer c k m) (answer d l n) v w e =
    let (_, p) = append_split response_domain response_domain e refl in
    let (q, r) = append_split c d p (v ∙ sym w) in
    let (s, t) = append_split_end k l r refl in let u : m ≡ n = cc t in rw (q, s, u) refl
signed_bytes_inj (bond a k) (bond b l) v w e =
    let (_, p) = append_split binding_domain binding_domain e refl in
    let total : length a + length k ≡ length b + length l =
      omega (arith, ap length p, length-append {0} a k, length-append {0} b l) in
    let same : length a ≡ length b = ground arith in
    let (q, r) = append_split a b p same in rw (q, r) refl
signed_bytes_inj (by_ca i a k) (answer d l n) v w e =
    absurd (omega (arith, ap (λ (s : Bytes). get_or s 9 0) e))
signed_bytes_inj (by_ca i a k) (bond b l) v w e =
    absurd (omega (arith, ap (λ (s : Bytes). get_or s 1 0) e))
signed_bytes_inj (answer c k m) (by_ca j b l) v w e =
    absurd (omega (arith, ap (λ (s : Bytes). get_or s 9 0) e))
signed_bytes_inj (answer c k m) (bond b l) v w e =
    absurd (omega (arith, ap (λ (s : Bytes). get_or s 1 0) e))
signed_bytes_inj (bond a k) (by_ca j b l) v w e =
    absurd (omega (arith, ap (λ (s : Bytes). get_or s 1 0) e))
signed_bytes_inj (bond a k) (answer d l n) v w e =
    absurd (omega (arith, ap (λ (s : Bytes). get_or s 1 0) e))
