-- ===== src/Attest/Challenges.antt =====
-- scripts/nuri_attest.py: `ChallengeVerifier`. Times are readings of the monotonic clock in a unit in
-- which all of them are whole. The dictionary changes under the lock only, and what follows a `pop`
-- does not look at it, so calls of several threads are calls one after the other.
use nuri_passkey_prf_smartca.Base.{
  ℕ, ◌-◌, Bool, ◌&&◌, List, [], ◌∷◌, Option, none, some, Bytes, ltb, leb, equal, if◌then◌else◌,
  Result, ok, err, Action, raise, ◌>>◌,
}
use nuri_passkey_prf_smartca.Attest.Evidence.{Failure, refused, Crypto, Evidence, require}
use nuri_passkey_prf_smartca.Attest.Checks.{Pin, verify_response}

-- The issued challenges, each with its time; a dictionary, whose order nothing looks at.
abbrev pub Pending : Type 0
Pending = List (Bytes × ℕ)

-- `self._pending.pop(challenge, None)`: the time, and what is left.
unfoldable pub find : Bytes → Pending → Option ℕ
unfolding equal
find c [] = none
find c ((d, t) ∷ rest) = if equal d c then some t else find c rest

unfoldable pub remove : Bytes → Pending → Pending
unfolding equal
remove c [] = []
remove c ((d, t) ∷ rest) = let left = remove c rest in if equal d c then left else (d, t) ∷ left

-- `{c: t for c, t in self._pending.items() if now - t <= self.max_age}`
unfoldable pub prune : ℕ → ℕ → Pending → Pending
prune now max_age [] = []
prune now max_age ((d, t) ∷ rest) =
    let left = prune now max_age rest in if leb (now - t) max_age then (d, t) ∷ left else left

-- A limit on the age: a finite number, or what is none.
pub data Limit : Type 0 where
  finite : ℕ → Limit
  improper : Limit

-- `_max_age`
unfoldable pub checked_age : Limit → Result Failure ℕ
checked_age improper = err refused
checked_age (finite n) = if ltb 0 n then ok n else err refused

pub record Verifier : Type 0 where
  pub max_age : ℕ
  pub pending : Pending

unfoldable pub new_verifier : Limit → Result Failure Verifier
unfolding checked_age
new_verifier limit = elim (checked_age limit) [
  | ok age ↦ ok (record { max_age = age; pending = [] })
  | err e ↦ err e
]

-- `issue` at a time, with the bytes that `secrets.token_bytes` gave.
unfoldable pub issue : ℕ → Bytes → Action Verifier Failure Bytes
unfolding prune remove
issue now fresh v =
    (ok fresh, record v { pending = (fresh, now) ∷ remove fresh (prune now v.max_age v.pending) })

-- `0 <= now - issued <= max_age`
abbrev pub is_young : ℕ → ℕ → ℕ → Bool
is_young now issued max_age = leb issued now && leb (now - issued) max_age

module _ {K : Type 0} (crypto : Crypto K) where
  -- What `verify` does with what it popped.
  unfoldable pub judge :
      ℕ → Option ℕ → ℕ → Bytes → Pin K → Bytes → Bytes → Bytes → Action Verifier Failure Evidence
  unfolding verify_response
  judge max_age none now response pin challenge aid signing = raise refused
  judge max_age (some issued) now response pin challenge aid signing = do
    require (is_young now issued max_age)
    verify_response crypto response pin challenge aid signing

  -- `verify` at a time.
  unfoldable pub verify :
      ℕ → Bytes → Pin K → Bytes → Bytes → Bytes → Action Verifier Failure Evidence
  unfolding find remove judge
  verify now response pin challenge aid signing v =
      judge v.max_age (find challenge v.pending) now response pin challenge aid signing
        (record v { pending = remove challenge v.pending })
