-- ===== src/Attest/Replay.antt =====
-- Calls of `issue_challenge` and `verify_saved_response` on one state file, in any order and number.
use nuri_passkey_prf_smartca.Base.{
  ℕ, ◌+◌, ◌≤◌, List, [], ◌∷◌, none, some, Bytes, ◌≡◌, refl, ap, arith, Result, split_bind,
}
use nuri_passkey_prf_smartca.Attest.Evidence.{Failure, Crypto}
use nuri_passkey_prf_smartca.Attest.Checks.{Pin, verify_response}
use nuri_passkey_prf_smartca.Attest.Still.{verify_response-Keeps}
use nuri_passkey_prf_smartca.Attest.Challenges.{Limit}
use nuri_passkey_prf_smartca.Attest.Saved.{
  Disk, Machine, issue_challenge, claim, verify_saved_response,
}
use nuri_passkey_prf_smartca.Attest.Tombstone.{
  live, live-le, ok_count, ok_count-le, Uses, claim-Uses, issue_challenge-Refuses,
}

module _ {K : Type 0} (crypto : Crypto K) where
  pub data FileCall : Type 0 where
    to_issue : Machine → Bytes → Bytes → Limit → FileCall
    to_verify : Machine → Bytes → Pin K → Limit → FileCall

  abbrev pub step : FileCall → Disk → Disk
  step (to_issue m aid signing limit) d = (issue_challenge m aid signing limit d).1
  step (to_verify m response pin limit) d = (verify_saved_response crypto m response pin limit d).1

  -- Whether the call is a verification that accepts.
  abbrev pub accepts : FileCall → Disk → ℕ
  accepts (to_issue m aid signing limit) d = 0
  accepts (to_verify m response pin limit) d =
      ok_count (verify_saved_response crypto m response pin limit d).0

  module _ (start : Disk) where
    -- The file after the calls, of which the newest comes first.
    abbrev pub after : List FileCall → Disk
    after [] = start
    after (call ∷ calls) = step call (after calls)

    abbrev pub accepted : List FileCall → ℕ
    accepted [] = 0
    accepted (call ∷ calls) = accepts call (after calls) + accepted calls

  live-issue :
      (m : Machine) (aid signing : Bytes) (limit : Limit) (d : Disk)
      → live (issue_challenge m aid signing limit d).1 ≤ live d
  live-issue m aid signing limit none = live-le (issue_challenge m aid signing limit none).1
  live-issue m aid signing limit (some file) =
      omega (arith, ap live (issue_challenge-Refuses m aid signing limit file).1)

  verify-Uses :
      (m : Machine) (response : Bytes) (pin : Pin K) (limit : Limit) (d : Disk)
      → Uses (verify_saved_response crypto m response pin limit) d
  unfolding verify_saved_response
  verify-Uses m response pin limit d =
      split_bind (λ x. ok_count x.0 + live x.1 ≤ live d) (claim m limit) _ d
        (λ (challenge, aid, signing) d' e. omega (
          arith,
          claim-Uses m limit d,
          ap (λ (x : Result Failure (Bytes × Bytes × Bytes) × Disk). ok_count x.0 + live x.1) e,
          ok_count-le (verify_response crypto response pin challenge aid signing d').0,
          (verify_response-Keeps {Inv = λ x. live x ≡ live d'} crypto response pin challenge aid
                signing).from
              d' refl,
        ))
        (λ x d' e. omega (
          arith,
          claim-Uses m limit d,
          ap (λ (x : Result Failure (Bytes × Bytes × Bytes) × Disk). ok_count x.0 + live x.1) e,
        ))

  accepts-le : (call : FileCall) (d : Disk) → accepts call d + live (step call d) ≤ live d
  accepts-le (to_issue m aid signing limit) d = omega (arith, live-issue m aid signing limit d)
  accepts-le (to_verify m response pin limit) d = verify-Uses m response pin limit d

  module _ (start : Disk) where
    accepted_within :
        (calls : List FileCall) → accepted start calls + live (after start calls) ≤ live start
    accepted_within [] = omega arith
    accepted_within (call ∷ calls) =
        omega (arith, accepted_within calls, accepts-le call (after start calls))

    -- In any sequence of issues and verifications on one state file that nothing else writes, at most one
    -- verification accepts; and none, if the file is there and is marked as consumed or unreadable.
    pub accepted-le-live :
        (calls : List FileCall) → (accepted start calls ≤ live start) × (live start ≤ 1)
    accepted-le-live calls = (omega (arith, accepted_within calls), live-le start)
