-- ===== src/Attest/Fresh.antt =====
-- What `ChallengeVerifier` accepts answers a challenge that it issued, within the maximal age.
use nuri_passkey_prf_smartca.Base.{
  ℕ, ◌+◌, ◌-◌, ◌≤◌, true, List, [], ◌∷◌, Option, none, some, Bytes, ◌≡◌, ◌⊎◌, inl, inr, refl, ap,
  ◌∙◌, arith, leb, equal, equal_iff, ok, Bool-cases, All, check-split, not-false, raise-ne-ok,
}
use nuri_passkey_prf_smartca.Attest.Evidence.{refused, Crypto, Evidence}
use nuri_passkey_prf_smartca.Attest.Checks.{Pin}
use nuri_passkey_prf_smartca.Attest.Parse.{IsEvidence}
use nuri_passkey_prf_smartca.Attest.Verdict.{Speaks, verify_response_iff}
use nuri_passkey_prf_smartca.Attest.Challenges.{
  Pending, find, remove, prune, Limit, Verifier, new_verifier, issue, is_young, judge, verify,
}
use nuri_passkey_prf_smartca.Attest.Once.{
  Call, to_issue, to_verify, after, verify-still, new_verifier-back,
}

module _ (P : Bytes × ℕ → Type 0) where
  All-remove : (c : Bytes) (p : Pending) → All P p → All P (remove c p)
  unfolding remove
  All-remove c [] h = h
  All-remove c ((d, t) ∷ p) h = elim (Bool-cases (equal d c)) [
    | inl e ↦ rw e (All-remove c p h.1)
    | inr e ↦ rw e (h.0, All-remove c p h.1)
  ]

  All-prune : (now age : ℕ) (p : Pending) → All P p → All P (prune now age p)
  unfolding prune
  All-prune now age [] h = h
  All-prune now age ((d, t) ∷ p) h = elim (Bool-cases (leb (now - t) age)) [
    | inl e ↦ rw e (h.0, All-prune now age p h.1)
    | inr e ↦ rw e (All-prune now age p h.1)
  ]

  All-find : (c : Bytes) (p : Pending) {t : ℕ} → All P p → find c p ≡ some t → P (c, t)
  unfolding find
  All-find c [] h e = cc e
  All-find c ((d, u) ∷ p) {t} h e = elim (Bool-cases (equal d c)) [
    | inl q ↦
        let here : some u ≡ some t = rw q at e in
        let same : u ≡ t = cc here in rw (← (equal_iff d c).0 q, ← same) h.0
    | inr q ↦ All-find c p h.1 (rw q at e)
  ]

All-mono :
    {P Q : Bytes × ℕ → Type 0} → ((x : Bytes × ℕ) → P x → Q x) → (p : Pending) → All P p → All Q p
All-mono f [] h = h
All-mono f (x ∷ p) h = (f x h.0, All-mono f p h.1)

module _ {K : Type 0} (crypto : Crypto K) where
  -- The challenge was issued at the time.
  abbrev pub Issued : List (Call crypto) → Bytes × ℕ → Type 0
  Issued [] x = ⊥
  Issued (to_issue now fresh ∷ calls) x = ((fresh ≡ x.0) × (now ≡ x.1)) ⊎ Issued calls x
  Issued (to_verify now response pin challenge aid signing ∷ calls) x = Issued calls x

  module _ (start : Verifier) where
    after-Issued :
        start.pending ≡ []
        → (calls : List (Call crypto)) → All (Issued calls) (after crypto start calls).pending
    unfolding issue verify
    after-Issued new [] = rw new tt
    after-Issued new (to_issue now fresh ∷ calls) = (
      inl (refl, refl),
      All-remove _ fresh _
          (All-prune _ now _ _ (All-mono (λ x h. inr h) _ (after-Issued new calls))),
    )
    after-Issued new (to_verify now response pin challenge aid signing ∷ calls) =
        rw
          (ap (λ (w : Verifier). w.pending)
            (verify-still crypto now response pin challenge aid signing (after crypto start calls)))
          (All-remove _ challenge _ (after-Issued new calls))

    age_kept : (calls : List (Call crypto)) → (after crypto start calls).max_age ≡ start.max_age
    unfolding issue
    age_kept [] = refl
    age_kept (to_issue now fresh ∷ calls) = age_kept calls
    age_kept (to_verify now response pin challenge aid signing ∷ calls) =
        ap (λ (w : Verifier). w.max_age)
          (verify-still crypto now response pin challenge aid signing (after crypto start calls))
        ∙ age_kept calls

  module _ (now : ℕ) (response : Bytes) (pin : Pin K) (challenge aid signing : Bytes) (e : Evidence)
      {w : Verifier} where
    judge-back :
        (age : ℕ) (o : Option ℕ) (u : Verifier)
        → judge crypto age o now response pin challenge aid signing u ≡ (ok e, w)
        → (t : ℕ) × (o ≡ some t)
          × (t ≤ now)
          × (now ≤ t + age)
          × IsEvidence crypto e
          × Speaks crypto pin challenge aid signing e
    unfolding judge
    judge-back age none u q = raise-ne-ok _ _ q
    judge-back age (some t) u q = check-split _ refused _ q λ y r.
        let (i, b, s, z) =
          (verify_response_iff crypto pin challenge aid signing response e w).0 r in
        let young : is_young now t age ≡ true = not-false _ y in
        (t, refl, ground arith, ground arith, i, s)

  -- What `verify` accepts, after any calls of a new verifier, is a well-formed evidence that speaks for
  -- the challenge, AID and signing key that it was given; and the verifier issued that challenge, not
  -- later than now and at most the maximal age ago.
  pub verify-Issued :
      (limit : Limit) {start w : Verifier} (calls : List (Call crypto)) (now : ℕ) (response : Bytes)
      (pin : Pin K) (challenge aid signing : Bytes) (e : Evidence)
      → new_verifier limit ≡ ok start
      → verify crypto now response pin challenge aid signing (after crypto start calls) ≡ (ok e, w)
      → (t : ℕ) × Issued calls (challenge, t)
        × (t ≤ now)
        × (now ≤ t + start.max_age)
        × IsEvidence crypto e
        × Speaks crypto pin challenge aid signing e
  unfolding verify
  verify-Issued limit {start} calls now response pin challenge aid signing e made q =
      let new : start.pending ≡ [] = (new_verifier-back crypto limit made).2 in
      let (t, f, a, b, i, s) = judge-back now response pin challenge aid signing e _ _ _ q in
      (
        t,
        All-find (Issued calls) challenge _ (after-Issued start new calls) f,
        a,
        omega (arith, b, age_kept start calls),
        i,
        s,
      )
