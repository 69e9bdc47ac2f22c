-- ===== src/Attest/Tests.antt =====
-- The theorems on NURI-ATT-V1 at one evidence, under a toy signature scheme.
use nuri_passkey_prf_smartca.Base.{
  ℕ, zero, suc, ◌+◌, ◌≤◌, true, false, ◌&&◌, List, [], ◌∷◌, none, some, Bytes, ◌≡◌, ◌↔◌, inl, refl,
  arith, ◌==◌, get_or, length, ok, ◌>>=◌,
}
use nuri_passkey_prf_smartca.Attest.Evidence.{Crypto, Info, Evidence, parse_info, parse_response}
use nuri_passkey_prf_smartca.Attest.Format.{info_onto}
use nuri_passkey_prf_smartca.Attest.Parse.{IsInfo, IsEvidence}
use nuri_passkey_prf_smartca.Attest.Whole.{evidence_bytes, parse_info_iff, parse_response_iff}
use nuri_passkey_prf_smartca.Attest.Checks.{eth2_aid, raw, verify_response}
use nuri_passkey_prf_smartca.Attest.Verdict.{Speaks, verify_response_iff}
use nuri_passkey_prf_smartca.Attest.Messages.{Signed, bond, signed_bytes_inj}
use nuri_passkey_prf_smartca.Attest.Challenges.{finite, Verifier, new_verifier, issue, verify}
use nuri_passkey_prf_smartca.Attest.Once.{Call, accepted, issued, after, accepted-le-issued}
use nuri_passkey_prf_smartca.Attest.Once
use nuri_passkey_prf_smartca.Attest.Fresh.{Issued, verify-Issued}
use nuri_passkey_prf_smartca.Attest.Replay
use nuri_passkey_prf_smartca.Attest.Replay.{FileCall, accepted-le-live}
use nuri_passkey_prf_smartca.Attest.Saved.{Machine, issue_challenge, claim, verify_saved_response}
use nuri_passkey_prf_smartca.Attest.Tombstone.{live}
use nuri_passkey_prf_smartca.Attest.Hex.{issued_file, claim-issue_challenge}

abbrev pub copies : ℕ → ℕ → Bytes
copies zero x = []
copies (suc n) x = x ∷ copies n x

-- A signature has the second byte of the key and the length of the message.
abbrev pub signed_by : Bytes → Bytes → Bytes
signed_by k message = 48 ∷ 6 ∷ 2 ∷ 1 ∷ get_or k 1 0 ∷ 2 ∷ 1 ∷ length message ∷ []

abbrev pub toy : Crypto Bytes
toy = record {
  from_string = λ curve bytes. some bytes;
  from_pem = λ bytes. none;
  order = 1000;
  decode_der = λ sig. some (get_or sig 4 0, get_or sig 7 0);
  encode_der = λ r s. 48 ∷ 6 ∷ 2 ∷ 1 ∷ r ∷ 2 ∷ 1 ∷ s ∷ [];
  verify = λ k sig message. get_or sig 4 0 == get_or k 1 0 && get_or sig 7 0 == length message;
}

abbrev pub ca_key : Bytes
ca_key = 4 ∷ copies 64 5

abbrev pub card_key : Bytes
card_key = 4 ∷ copies 64 9

abbrev pub signer_key : Bytes
signer_key = 2 ∷ copies 32 7

abbrev pub challenge : Bytes
challenge = copies 32 17

abbrev pub info : Info
info = record {
  card_id = copies 16 3;
  aid = eth2_aid;
  attestation_pub = card_key;
  sealed = true;
  cert = signed_by ca_key (copies 101 0);
}

abbrev pub evidence : Evidence
evidence = record {
  info = info;
  signing_pub = signer_key;
  pin_state = 3;
  response_sig = signed_by card_key (copies 82 0);
  binding_sig = signed_by card_key (copies 47 0);
}

parse_info_iff_example :
    (parse_info toy (info_onto info []) ≡ ok info)
    ↔ (IsInfo toy info × (info_onto info [] ≡ info_onto info []))
parse_info_iff_example = parse_info_iff toy (info_onto info []) info

parse_info_run : parse_info toy (info_onto info []) ≡ ok info
unfolding parse_info ◌>>=◌
parse_info_run = refl

parse_response_iff_example :
    (parse_response toy (evidence_bytes toy evidence) ≡ ok evidence)
    ↔ (IsEvidence toy evidence × (evidence_bytes toy evidence ≡ evidence_bytes toy evidence))
parse_response_iff_example = parse_response_iff toy (evidence_bytes toy evidence) evidence

abbrev pub nothing : Unit {0}
nothing = tt

verify_response_iff_example :
    (verify_response toy
        (evidence_bytes toy evidence)
        (raw ca_key)
        challenge
        eth2_aid
        signer_key
        nothing
      ≡ (ok evidence, nothing))
    ↔ (IsEvidence toy evidence
        × (evidence_bytes toy evidence ≡ evidence_bytes toy evidence)
        × Speaks toy (raw ca_key) challenge eth2_aid signer_key evidence
        × (nothing ≡ nothing))
verify_response_iff_example =
    verify_response_iff toy (raw ca_key) challenge eth2_aid signer_key (evidence_bytes toy evidence)
      evidence nothing

verify_response_run :
    verify_response toy
      (evidence_bytes toy evidence)
      (raw ca_key)
      challenge
      eth2_aid
      signer_key
      nothing
    ≡ (ok evidence, nothing)
unfolding verify_response ◌>>=◌
verify_response_run = refl

abbrev bond_message : Signed
bond_message = bond eth2_aid signer_key

signed_bytes_inj_example : bond_message ≡ bond_message
signed_bytes_inj_example =
    signed_bytes_inj bond_message bond_message (omega arith, omega arith, inl refl)
      (omega arith, omega arith, inl refl) refl

abbrev new : Verifier
new = record { max_age = 60; pending = [] }

new_verifier_run : new_verifier (finite 60) ≡ ok new
unfolding new_verifier
new_verifier_run = refl

-- One issue, then the same response twice.
abbrev once : Call toy
once = Once.to_verify 40 (evidence_bytes toy evidence) (raw ca_key) challenge eth2_aid signer_key

abbrev calls : List (Call toy)
calls = once ∷ once ∷ Once.to_issue 10 challenge ∷ []

accepted-le-issued_example : accepted toy new challenge calls ≤ issued toy challenge calls
accepted-le-issued_example = accepted-le-issued toy (finite 60) challenge calls new_verifier_run

verify_run :
    verify toy 40
      (evidence_bytes toy evidence)
      (raw ca_key)
      challenge
      eth2_aid
      signer_key
      (after toy new (Once.to_issue 10 challenge ∷ []))
    ≡ (ok evidence, new)
unfolding verify issue ◌>>=◌
verify_run = refl

verify-Issued_example :
    (t : ℕ) × Issued toy (Once.to_issue 10 challenge ∷ []) (challenge, t)
    × (t ≤ 40)
    × (40 ≤ t + 60)
    × IsEvidence toy evidence
    × Speaks toy (raw ca_key) challenge eth2_aid signer_key evidence
verify-Issued_example =
    verify-Issued toy (finite 60) (Once.to_issue 10 challenge ∷ []) 40 (evidence_bytes toy evidence)
      (raw ca_key) challenge eth2_aid signer_key evidence new_verifier_run verify_run

abbrev machine : ℕ → Machine
machine now = record {
  now = now;
  fresh = challenge;
  makes_exact = true;
  writes = true;
  json_size = λ c. 300;
}

abbrev attempt : FileCall toy
attempt = Replay.to_verify (machine 40) (evidence_bytes toy evidence) (raw ca_key) (finite 60)

-- An issue, and two verifications of the same response, on a file that is not there at first.
abbrev file_calls : List (FileCall toy)
file_calls = attempt ∷ attempt ∷ Replay.to_issue (machine 10) eth2_aid signer_key (finite 90) ∷ []

accepted-le-live_example : (Replay.accepted toy none file_calls ≤ live none) × (live none ≤ 1)
accepted-le-live_example = accepted-le-live toy none file_calls

accepted_once : Replay.accepted toy none file_calls ≡ 1
unfolding verify_saved_response issue_challenge ◌>>=◌
accepted_once = refl

issued_run :
    issue_challenge (machine 10) eth2_aid signer_key (finite 90) none
    ≡ (ok challenge, issued_file (machine 10) (machine 10) eth2_aid signer_key 90 false)
unfolding issue_challenge ◌>>=◌
issued_run = refl

claim-issue_challenge_example :
    claim
      (machine 40)
      (finite 60)
      (issued_file (machine 10) (machine 10) eth2_aid signer_key 90 false)
    ≡ (
      ok (challenge, eth2_aid, signer_key),
      issued_file (machine 40) (machine 10) eth2_aid signer_key 90 true,
    )
claim-issue_challenge_example =
    claim-issue_challenge (machine 10) (machine 40) eth2_aid signer_key (finite 90) 60 90 none
      (omega arith) (omega arith) (omega arith) issued_run refl (omega arith) (omega arith)
      (omega arith) refl (omega arith)
