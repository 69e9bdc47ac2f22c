-- ===== src/Attest/Saved.antt =====
-- scripts/nuri_attest.py: `issue_challenge` and `verify_saved_response`, on the one state file that they
-- share. The file is what JSON makes of it; the lock makes calls of several processes calls one after
-- the other. Clock readings are in a
-- unit in which all of them are whole.
use nuri_passkey_prf_smartca.Base.{
  to_hex, ℕ, Bool, true, false, ◌&&◌, not, Option, none, some, Bytes, Text, leb, ◌==◌, is_nil,
  length, from_hex, if◌then◌else◌, ok, err, Action, pure, raise, lift, ◌>>=◌, ◌>>◌,
}
use nuri_passkey_prf_smartca.Attest.Evidence.{Failure, refused, os_error, Crypto, Evidence, require}
use nuri_passkey_prf_smartca.Attest.Checks.{Pin, verify_response}
use nuri_passkey_prf_smartca.Attest.Challenges.{Limit, finite, checked_age, is_young}

-- The fields behind `version` and `consumed`.
pub record Body : Type 0 where
  pub issued_at : ℕ
  pub max_age : Limit
  pub challenge : Text
  pub aid : Text
  pub signing_pub : Text

-- `unreadable`: no JSON, or without version or `consumed`. No body: a field of it is
-- missing or of another type.
pub data Content : Type 0 where
  unreadable : Content
  saved : ℕ → Bool → Option Body → Content

-- A state file, with whether it is regular, of mode 0600 and the user's own, and its length in bytes.
pub record StateFile : Type 0 where
  pub is_exact : Bool
  pub size : ℕ
  pub content : Content

abbrev pub Disk : Type 0
Disk = Option StateFile

-- What a call meets: the time, the random bytes, whether a file that is created comes out exact,
-- whether the disk takes what is written, and how many bytes `json.dumps` makes of a content.
pub record Machine : Type 0 where
  pub now : ℕ
  pub fresh : Bytes
  pub makes_exact : Bool
  pub writes : Bool
  pub json_size : Content → ℕ

-- `_write_state`: a write that fails has truncated the file.
unfoldable pub write_state : Machine → Bool → Content → Failure → Action Disk Failure (Unit {0})
write_state m is_exact content failure disk =
    if m.writes
    then (
      ok tt,
      some (record { is_exact = is_exact; size = m.json_size content; content = content }),
    )
    else (err failure, some (record { is_exact = is_exact; size = 0; content = unreadable }))

-- `_private_fd` with `create`: the new file stays, also if it did not come out exact.
unfoldable pub create : Machine → Action Disk Failure (Unit {0})
create m (some file) = (err os_error, some file)
create m none = (
  if m.makes_exact then ok tt else err refused,
  some (record { is_exact = m.makes_exact; size = 0; content = unreadable }),
)

unfoldable pub issue_challenge : Machine → Bytes → Bytes → Limit → Action Disk Failure Bytes
unfolding checked_age create write_state to_hex
issue_challenge m expected_aid expected_signing_pub limit = do
  age ← lift (checked_age limit)
  require (leb 5 (length expected_aid) && leb (length expected_aid) 16)
  require (not (is_nil expected_signing_pub))
  create m
  write_state m true
      (saved 1 false (
        some (record {
          issued_at = m.now;
          max_age = finite age;
          challenge = to_hex m.fresh;
          aid = to_hex expected_aid;
          signing_pub = to_hex expected_signing_pub;
        })))
      os_error
  pure m.fresh

-- The longest state file that is read.
abbrev pub max_state : ℕ
max_state = 4096

abbrev pub min_age : ℕ → ℕ → ℕ
min_age a b = if leb a b then a else b

-- `bytes.fromhex`, with its error as the check's.
abbrev pub decoded : Text → Action Disk Failure Bytes
decoded text = elim (from_hex text) [ none ↦ raise refused | some bytes ↦ pure bytes ]

-- What is checked behind the mark: age, challenge, AID and signing key.
unfoldable pub read_body : ℕ → ℕ → Option Body → Action Disk Failure (Bytes × Bytes × Bytes)
unfolding checked_age from_hex
read_body now age none = raise refused
read_body now age (some body) = do
  cap ← lift (checked_age body.max_age)
  require (is_young now body.issued_at (min_age age cap))
  challenge ← decoded body.challenge
  aid ← decoded body.aid
  signing_pub ← decoded body.signing_pub
  pure (challenge, aid, signing_pub)

-- The state file, read and marked as consumed.
unfoldable pub claim_content : Machine → ℕ → Content → Action Disk Failure (Bytes × Bytes × Bytes)
unfolding read_body write_state
claim_content m age unreadable = raise refused
claim_content m age (saved version consumed body) = do
  require (version == 1 && not consumed)
  write_state m true (saved version true body) refused
  read_body m.now age body

unfoldable pub claim_file :
    Machine → ℕ → Option StateFile → Action Disk Failure (Bytes × Bytes × Bytes)
unfolding claim_content
claim_file m age none = raise os_error
claim_file m age (some file) = do
  require file.is_exact
  require (leb file.size max_state)
  claim_content m age file.content

-- All that stands before the response is looked at.
unfoldable pub claim : Machine → Limit → Action Disk Failure (Bytes × Bytes × Bytes)
unfolding claim_file checked_age
claim m limit disk = (lift (checked_age limit) >>= λ age. claim_file m age disk) disk

module _ {K : Type 0} (crypto : Crypto K) where
  unfoldable pub verify_saved_response :
      Machine → Bytes → Pin K → Limit → Action Disk Failure Evidence
  unfolding claim verify_response
  verify_saved_response m response pin limit = claim m limit >>= λ (challenge, aid, signing_pub).
      verify_response crypto response pin challenge aid signing_pub
