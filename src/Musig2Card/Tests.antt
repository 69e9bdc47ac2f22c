-- ===== src/Musig2Card/Tests.antt =====
-- Runs of scripts/nuri_musig2_card.py's model on concrete input: an applet of version 1.14 with a PIN.
use nuri_passkey_prf_smartca.Base.{
  ℕ, zero, suc, ◌+◌, ◌≤◌, true, false, List, [], ◌∷◌, ◌++◌, Option, none, some, ◌≡◌, refl, Bytes,
  codes, ok, err, pure, raise, raise_if, lift, tried, get, modify, ◌>>=◌,
}
use nuri_passkey_prf_smartca.Musig2Card.State.{
  Link, Session, Point, sec1, fresh, validate_pin, pin_error, point_bytes,
}
use nuri_passkey_prf_smartca.Musig2Card.Access.{
  answer, tx, read_version, read_pin_status, pin_answer, tx_pin, verify_pin, ask_pin, known_status,
  unlock, use_pin, ensure_pin, open_session, restart, connect,
}
use nuri_passkey_prf_smartca.Musig2Card.Signing.{
  nonces, take_nonces, finalize, payload, session_part, points_part, with_token, checked_payload,
  send_finalize,
}
use nuri_passkey_prf_smartca.Musig2Card.Exchange.{finalizes, nonce_pairs, IsUnlocked}
use nuri_passkey_prf_smartca.Musig2Card.Validity.{held}
use nuri_passkey_prf_smartca.Musig2Card.Payload.{Carries, Spent, finalize-Carries}
use nuri_passkey_prf_smartca.Musig2Card.Discipline.{
  Call, calls_connect, calls_nonces, calls_finalize, after_all, finalize-once, verified-IsUnlocked,
}

abbrev Script : Type 0
Script = List (Option (Bytes × ℕ))

abbrev next : Script → Option (Bytes × ℕ) × Script
next [] = (none, [])
next (a ∷ w) = (a, w)

abbrev link : Link Script
link = record {
  open_applet = λ w. (true, w);
  transmit = λ apdu w. next w;
  close = λ w. w;
  pin_reader = λ w. (ok (codes "1234"), w);
}

abbrev repeat : ℕ → Bytes → Bytes
repeat zero bs = bs
repeat (suc n) bs = 1 ∷ repeat n bs

-- GET_VERSION, PIN_STATUS, VERIFY, GET_NONCES, FINALIZE, all answered.
abbrev good_card : Script
good_card =
    some (1 ∷ 14 ∷ 12 ∷ [], 0x9000)
    ∷ some (1 ∷ 1 ∷ 5 ∷ [], 0x9000)
    ∷ some ([], 0x9000)
    ∷ some (repeat 66 (9 ∷ 8 ∷ 7 ∷ 6 ∷ []), 0x9000)
    ∷ some (repeat 32 [], 0x9000)
    ∷ []

abbrev scalar : Bytes
scalar = repeat 32 []

abbrev point : Point
point = sec1 (4 ∷ repeat 64 [])

abbrev signing : List Call
signing =
    calls_connect true
    ∷ calls_nonces
    ∷ calls_finalize scalar scalar 1 scalar (some point) (some point)
    ∷ calls_finalize scalar scalar 1 scalar (some point) (some point)
    ∷ []

-- The second FINALIZE is not sent: the token is spent.
signing-run :
    let s = after_all link signing (fresh false good_card) in
    (finalizes s.log ≡ 1) × (nonce_pairs s.log ≡ 1) × (s.pin_verified ≡ true) × (s.token ≡ none)
unfolding answer tx read_version read_pin_status pin_answer tx_pin verify_pin ask_pin known_status
    unlock use_pin ensure_pin open_session restart connect nonces take_nonces finalize payload
    session_part points_part with_token checked_payload send_finalize point_bytes pure raise
    raise_if lift tried get modify ◌>>=◌
signing-run = (refl, refl, refl, refl)

pin-run :
    (validate_pin (codes "123a") ≡ err pin_error)
    × (validate_pin (codes "1234") ≡ ok (codes "1234"))
unfolding validate_pin
pin-run = (refl, refl)

finalize-once_example :
    let s = after_all link signing (fresh false good_card) in
    finalizes s.log + held s.token ≤ nonce_pairs s.log
finalize-once_example = finalize-once link signing false good_card

verified-IsUnlocked_example : IsUnlocked (after_all link signing (fresh false good_card)).log
verified-IsUnlocked_example = verified-IsUnlocked link signing false good_card signing-run.2

abbrev ready : Session Script
ready = after_all link (calls_connect true ∷ calls_nonces ∷ []) (fresh false good_card)

finalize-run :
    (finalize link scalar scalar 1 scalar (some point) (some point) ready).0 ≡ ok (repeat 32 [])
unfolding answer tx read_version read_pin_status pin_answer tx_pin verify_pin ask_pin known_status
    unlock use_pin ensure_pin open_session restart connect nonces take_nonces finalize payload
    session_part points_part with_token checked_payload send_finalize point_bytes pure raise
    raise_if lift tried get modify ◌>>=◌
finalize-run = refl

finalize-Carries_example :
    (body : Bytes) × Carries link
      (scalar ++ (scalar ++ 1 ∷ scalar))
      1
      (some point)
      (some point)
      ready
      body
    × Spent link body
        (repeat 32 [])
        (finalize link scalar scalar 1 scalar (some point) (some point) ready).1
finalize-Carries_example =
    finalize-Carries link scalar scalar 1 scalar (some point) (some point) ready (repeat 32 [])
      finalize-run
