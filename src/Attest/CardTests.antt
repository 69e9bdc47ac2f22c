-- ===== src/Attest/CardTests.antt =====
-- The theorems on the exchange with the card at a toy card that keeps its INFO.
use nuri_passkey_prf_smartca.Base.{
  ℕ, ◌≤◌, true, false, [], ◌∷◌, none, some, Bytes, codes, ◌≡◌, refl, ◌==◌, get_or, drop, length,
  if◌then◌else◌, ok, Action, ◌>>=◌,
}
use nuri_passkey_prf_smartca.Attest.Evidence.{Failure, Info, Evidence, is_signature}
use nuri_passkey_prf_smartca.Attest.Format.{info_onto, tail_onto}
use nuri_passkey_prf_smartca.Attest.Parse.{IsInfo, IsEvidence}
use nuri_passkey_prf_smartca.Attest.Whole.{evidence_bytes}
use nuri_passkey_prf_smartca.Attest.Checks.{ca_message, raw}
use nuri_passkey_prf_smartca.Attest.Pins.{Pinned}
use nuri_passkey_prf_smartca.Attest.Exchange.{
  answered, Session, page_request, class_of, read_attestation, personalize,
}
use nuri_passkey_prf_smartca.Attest.Pages.{read_attestation-back}
use nuri_passkey_prf_smartca.Attest.Personal.{stored, sealed_log, personalize-back}
use nuri_passkey_prf_smartca.Attest.Guarded.{AllAllowed, personalize-AllAllowed}
use nuri_passkey_prf_smartca.Attest.Certificate.{
  Signer, Source, sign_certificate, sign_certificate-back,
}
use nuri_passkey_prf_smartca.Attest.Tests.{
  toy, ca_key, challenge, info, evidence, signed_by, nothing,
}

abbrev blank : Info
blank = record info { sealed = false; cert = [] }

abbrev certificate : Bytes
certificate = info.cert

-- A card in the state of its INFO.
abbrev card : Bytes → Action Info Failure (Bytes × ℕ)
card apdu i =
    if get_or apdu 1 0 == 0x70
    then (ok (info_onto i [], 0x9000), i)
    else if get_or apdu 1 0 == 0x71
    then (ok ([], 0x9000), record i { cert = drop 5 apdu })
    else if get_or apdu 1 0 == 0x73
    then (ok ([], 0x9000), record i { sealed = true })
    else if get_or apdu 2 0 == 0
    then (ok (info_onto i [], 0x9000), i)
    else (ok (tail_onto evidence [], 0x9000), i)

abbrev session : Info → Session Info
session i = record { card = i; log = [] }

abbrev attested : Session Info
attested = (read_attestation toy card 0x80 challenge (session info)).1

read_run :
    read_attestation toy card 0x80 challenge (session info)
    ≡ (ok (evidence_bytes toy evidence), attested)
unfolding read_attestation ◌>>=◌
read_run = refl

read_attestation-back_example :
    (e : Evidence) × IsEvidence toy e
    × (evidence_bytes toy evidence ≡ evidence_bytes toy e)
    × (attested.log
        ≡ answered (page_request 0x80 1 challenge) (tail_onto e []) 0x9000
          ∷ answered (page_request 0x80 0 challenge) (info_onto e.info []) 0x9000
          ∷ [])
    × (length challenge ≡ 32)
    × (length (info_onto e.info []) ≤ 170)
    × (length (tail_onto e []) ≤ 214)
read_attestation-back_example =
    read_attestation-back toy card 0x80 challenge (session info) read_run

abbrev personalized : Session Info
personalized = (personalize toy card (info_onto blank []) certificate true (session blank)).1

personalize_run :
    personalize toy card (info_onto blank []) certificate true (session blank)
    ≡ (ok info, personalized)
unfolding personalize ◌>>=◌
personalize_run = refl

personalize-back_example :
    (before : Info) × (a : Bytes) × (b : Bytes) × IsInfo toy before
    × (info_onto blank [] ≡ info_onto before [])
    × (before.sealed ≡ false)
    × (before.cert ≡ [])
    × (is_signature toy certificate ≡ true)
    × (length certificate ≤ 255)
    × (info ≡ record before { cert = certificate; sealed = true })
    × (personalized.log
        ≡ sealed_log card toy true
            (class_of before.aid)
            (record before { cert = certificate })
            b
            (stored card toy (class_of before.aid) before certificate a []))
personalize-back_example =
    personalize-back card toy (info_onto blank []) certificate true (session blank) personalize_run

personalize-AllAllowed_example :
    AllAllowed toy card (info_onto blank []) certificate true personalized.log
personalize-AllAllowed_example =
    personalize-AllAllowed toy card (info_onto blank []) certificate true (session blank) tt

abbrev signer : Signer Bytes
signer = record {
  open_file = λ path. some (true, codes "key");
  private_key = λ pem. some (ca_key, true);
  sign = λ k message. signed_by k message;
  unquote = λ text. text;
  provider = λ uri message. none;
}

sign_run :
    sign_certificate signer toy blank (raw ca_key) (codes "ca.pem") [] nothing
    ≡ (ok certificate, nothing)
unfolding sign_certificate ◌>>=◌
sign_run = refl

sign_certificate-back_example :
    (ca : Bytes) × Pinned toy (raw ca_key) ca
    × (is_signature toy certificate ≡ true)
    × (toy.verify ca certificate (ca_message blank) ≡ true)
    × Source signer (codes "ca.pem") []
sign_certificate-back_example =
    sign_certificate-back signer toy blank (raw ca_key) (codes "ca.pem") [] nothing sign_run
