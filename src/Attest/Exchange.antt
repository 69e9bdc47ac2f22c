-- ===== src/Attest/Exchange.antt =====
-- scripts/nuri_attest.py: what is said to the card, `card_command`, `read_attestation` and `personalize`.
-- The applet is a parameter: an answer and a status word for the bytes sent, or the transport's error.
-- The log, newest entry first, is the model's own.
use nuri_passkey_prf_smartca.Base.{
  ℕ, zero, suc, Bool, true, false, ◌&&◌, ◌||◌, not, List, [], ◌∷◌, ◌++◌, Bytes, leb, ltb, ◌==◌,
  equal, is_nil, length, if◌then◌else◌, Result, ok, err, Action, pure, raise_if, lift, ◌>>=◌, ◌>>◌,
}
use nuri_passkey_prf_smartca.Attest.Evidence.{
  Failure, page_failed, Crypto, Info, require, is_signature, parse_info, parse_response,
}
use nuri_passkey_prf_smartca.Attest.Checks.{musig2_aid}

-- An APDU with its answer and status word, or one whose answer did not come.
pub data Entry : Type 0 where
  answered : Bytes → Bytes → ℕ → Entry
  lost : Bytes → Entry

pub record Session (C : Type 0) : Type 0 where
  pub card : C
  pub log : List Entry

abbrev pub noted : Bytes → Result Failure (Bytes × ℕ) → Entry
noted apdu (ok (response, sw)) = answered apdu response sw
noted apdu (err e) = lost apdu

abbrev pub bool_eq : Bool → Bool → Bool
bool_eq true b = b
bool_eq false b = not b

-- `==` on the dictionaries of `parse_info`.
unfoldable pub same_info : Info → Info → Bool
unfolding equal
same_info i j =
    equal i.card_id j.card_id
    && equal i.aid j.aid
    && equal i.attestation_pub j.attestation_pub
    && bool_eq i.sealed j.sealed
    && equal i.cert j.cert

abbrev pub command : ℕ → ℕ → Bytes → Bytes
command cla ins payload = cla ∷ ins ∷ 0 ∷ 0 ∷ length payload ∷ payload

abbrev pub page_request : ℕ → ℕ → Bytes → Bytes
page_request cla page challenge = cla ∷ 0x72 ∷ page ∷ 0 ∷ 32 ∷ (challenge ++ 0 ∷ [])

-- The class byte of the applet.
unfoldable pub class_of : Bytes → ℕ
unfolding equal
class_of aid = if equal aid musig2_aid then 0 else 0x80

module _ {C : Type 0} (transmit : Bytes → Action C Failure (Bytes × ℕ)) where
  unfoldable pub send : Bytes → Action (Session C) Failure (Bytes × ℕ)
  send apdu s =
      let (r, c) = transmit apdu s.card in (r, record s { card = c; log = noted apdu r ∷ s.log })

  unfoldable pub card_command : ℕ → ℕ → Bytes → Action (Session C) Failure Bytes
  unfolding send
  card_command cla ins payload = do
    require (leb (length payload) 255)
    (response, sw) ← send (command cla ins payload)
    require (sw == 0x9000)
    pure response

module _ {K C : Type 0} (crypto : Crypto K) (transmit : Bytes → Action C Failure (Bytes × ℕ)) where
  -- INFO must end at the page boundary.
  unfoldable pub whole_info : ℕ → Bytes → Action (Session C) Failure (Unit {0})
  unfolding parse_info
  whole_info zero response = lift (parse_info crypto response) >>= λ _. pure tt
  whole_info (suc page) response = pure tt

  -- One round of the loop of `read_attestation`.
  unfoldable pub read_page : ℕ → Bytes → ℕ → ℕ → Action (Session C) Failure Bytes
  unfolding send whole_info
  read_page cla challenge page limit = do
    (response, sw) ← send transmit (page_request cla page challenge)
    raise_if (not (sw == 0x9000)) (page_failed page sw)
    require (ltb 0 (length response) && leb (length response) limit)
    whole_info page response
    pure response

  unfoldable pub read_attestation : ℕ → Bytes → Action (Session C) Failure Bytes
  unfolding read_page parse_response
  read_attestation cla challenge = do
    require (length challenge == 32)
    require (cla == 0 || cla == 0x80)
    first ← read_page cla challenge 0 170
    second ← read_page cla challenge 1 214
    lift (parse_response crypto (first ++ second))
    pure (first ++ second)

  -- INFO read again, which must be what is wanted.
  unfoldable pub read_back : ℕ → Info → Action (Session C) Failure Info
  unfolding card_command parse_info same_info
  read_back cla wanted = do
    bytes ← card_command transmit cla 0x70 []
    after ← lift (parse_info crypto bytes)
    require (same_info after wanted)
    pure after

  unfoldable pub seal_card : ℕ → Info → Action (Session C) Failure Info
  unfolding card_command read_back
  seal_card cla wanted = do
    card_command transmit cla 0x73 []
    read_back cla (record wanted { sealed = true })

  -- `if seal`
  unfoldable pub sealed_or_not : Bool → ℕ → Info → Info → Action (Session C) Failure Info
  unfolding seal_card
  sealed_or_not true cla wanted after = seal_card cla wanted
  sealed_or_not false cla wanted after = pure after

  unfoldable pub personalize : Bytes → Bytes → Bool → Action (Session C) Failure Info
  unfolding parse_info is_signature class_of card_command read_back sealed_or_not equal
  personalize expected_info certificate seal = do
    before ← lift (parse_info crypto expected_info)
    require (not before.sealed && is_nil before.cert)
    require (is_signature crypto certificate)
    live ← card_command transmit (class_of before.aid) 0x70 []
    require (equal live expected_info)
    card_command transmit (class_of before.aid) 0x71 certificate
    after ← read_back (class_of before.aid) (record before { cert = certificate })
    sealed_or_not seal (class_of before.aid) (record before { cert = certificate }) after
