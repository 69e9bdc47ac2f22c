-- ===== src/Attest/Once.antt =====
-- A challenge of `ChallengeVerifier` is accepted at most as often as it was issued, and only while young.
use nuri_passkey_prf_smartca.Base.{
  ℕ, ◌+◌, ◌≤◌, ◌<◌, List, [], ◌∷◌, Option, none, some, Bytes, ◌≡◌, inl, inr, refl, ap, arith, equal,
  equal_iff, if◌then◌else◌, Result, ok, err, Bool-cases, raise, Keeps, Keeps-bind, Keeps-raise,
  Keeps-raise_if,
}
use nuri_passkey_prf_smartca.Attest.Evidence.{Failure, refused, Crypto, Evidence}
use nuri_passkey_prf_smartca.Attest.Checks.{Pin}
use nuri_passkey_prf_smartca.Attest.Still.{verify_response-Keeps}
use nuri_passkey_prf_smartca.Attest.Challenges.{
  Pending, find, remove, prune, Limit, finite, improper, checked_age, Verifier, new_verifier, issue,
  judge, verify,
}

abbrev has_count : Option ℕ → ℕ
has_count none = 0
has_count (some t) = 1

find-remove :
    (c d : Bytes) (p : Pending) → find c (remove d p) ≡ (if equal d c then none else find c p)
unfolding find remove
find-remove c d [] = elim (Bool-cases (equal d c)) [ inl e ↦ rw e | inr e ↦ rw e ]
find-remove c d ((x, t) ∷ p) =
    ground (arith, equal_iff x c, equal_iff x d, equal_iff d c, find-remove c d p)

has-prune :
    (now age : ℕ) (c : Bytes) (p : Pending)
    → has_count (find c (prune now age p)) ≤ has_count (find c p)
unfolding find prune
has-prune now age c [] = omega arith
has-prune now age c ((x, t) ∷ p) = ground (arith, has-prune now age c p)

module _ {K : Type 0} (crypto : Crypto K) where
  -- What a program does with a verifier.
  pub data Call : Type 0 where
    to_issue : ℕ → Bytes → Call
    to_verify : ℕ → Bytes → Pin K → Bytes → Bytes → Bytes → Call

  abbrev pub step : Call → Verifier → Verifier
  step (to_issue now fresh) v = (issue now fresh v).1
  step (to_verify now response pin challenge aid signing) v =
      (verify crypto now response pin challenge aid signing v).1

  abbrev is_ok : Result Failure Evidence → ℕ
  is_ok (ok e) = 1
  is_ok (err x) = 0

  -- How often the call accepts the challenge, and how often it issues it.
  abbrev pub accepts : Bytes → Call → Verifier → ℕ
  accepts c (to_issue now fresh) v = 0
  accepts c (to_verify now response pin challenge aid signing) v =
      if equal challenge c
      then is_ok (verify crypto now response pin challenge aid signing v).0
      else 0

  abbrev pub issues : Bytes → Call → ℕ
  issues c (to_issue now fresh) = if equal fresh c then 1 else 0
  issues c (to_verify now response pin challenge aid signing) = 0

  module _ (start : Verifier) where
    -- The verifier after the calls, of which the newest comes first.
    abbrev pub after : List Call → Verifier
    after [] = start
    after (call ∷ calls) = step call (after calls)

    abbrev pub accepted : Bytes → List Call → ℕ
    accepted c [] = 0
    accepted c (call ∷ calls) = accepts c call (after calls) + accepted c calls

  abbrev pub issued : Bytes → List Call → ℕ
  issued c [] = 0
  issued c (call ∷ calls) = issues c call + issued c calls

  module _ (now : ℕ) (response : Bytes) (pin : Pin K) (challenge aid signing : Bytes) where
    judge-Keeps :
        {Inv : Verifier → Type 0} (age : ℕ) (o : Option ℕ)
        → Keeps Inv (judge crypto age o now response pin challenge aid signing)
    unfolding judge
    judge-Keeps age none = Keeps-raise refused
    judge-Keeps age (some t) =
        Keeps-bind _ _ (Keeps-raise_if _ _)
          (λ _. verify_response-Keeps crypto response pin challenge aid signing)

    judge-still :
        (age : ℕ) (o : Option ℕ) (v : Verifier)
        → (judge crypto age o now response pin challenge aid signing v).1 ≡ v
    judge-still age o v = (judge-Keeps {Inv = λ w. w ≡ v} age o).from v refl

    pub verify-still :
        (v : Verifier)
        → (verify crypto now response pin challenge aid signing v).1
          ≡ record v { pending = remove challenge v.pending }
    unfolding verify
    verify-still v = judge-still v.max_age (find challenge v.pending) _

    is_ok-judge :
        (age : ℕ) (o : Option ℕ) (v : Verifier)
        → is_ok (judge crypto age o now response pin challenge aid signing v).0 ≤ has_count o
    unfolding judge raise
    is_ok-judge age none v = omega arith
    is_ok-judge age (some t) v =
        small (judge crypto age (some t) now response pin challenge aid signing v).0
      where
        small : (r : Result Failure Evidence) → is_ok r ≤ 1
        small (ok e) = omega arith
        small (err x) = omega arith

  accepts-le :
      (c : Bytes) (call : Call) (v : Verifier)
      → accepts c call v + has_count (find c (step call v).pending)
        ≤ issues c call + has_count (find c v.pending)
  unfolding issue verify find
  accepts-le c (to_issue now fresh) v = ground (
    arith,
    find-remove c fresh (prune now v.max_age v.pending),
    has-prune now v.max_age c v.pending,
  )
  accepts-le c (to_verify now response pin challenge aid signing) v = ground (
    arith,
    equal_iff challenge c,
    find-remove c challenge v.pending,
    is_ok-judge now response pin challenge aid signing v.max_age (find challenge v.pending)
        (record v { pending = remove challenge v.pending }),
    ap (λ (w : Verifier). w.pending) (verify-still now response pin challenge aid signing v),
  )

  pub new_verifier-back :
      (limit : Limit) {start : Verifier}
      → new_verifier limit ≡ ok start
      → (limit ≡ finite start.max_age) × (0 < start.max_age) × (start.pending ≡ [])
  unfolding new_verifier checked_age
  new_verifier-back improper made = cc made
  new_verifier-back (finite n) made = ground arith

  module _ (start : Verifier) (new : start.pending ≡ []) (c : Bytes) where
    accepted_within :
        (h : List Call)
        → accepted start c h + has_count (find c (after start h).pending) ≤ issued c h
    unfolding find
    accepted_within [] = rw new (omega arith)
    accepted_within (call ∷ h) = omega (arith, accepted_within h, accepts-le c call (after start h))

  -- In any calls of a new verifier, a challenge is accepted at most as often as it was issued.
  pub accepted-le-issued :
      (limit : Limit) {start : Verifier} (c : Bytes) (calls : List Call)
      → new_verifier limit ≡ ok start
      → accepted start c calls ≤ issued c calls
  accepted-le-issued limit {start} c calls made =
      omega (arith, accepted_within start (new_verifier-back limit made).2 c calls)
