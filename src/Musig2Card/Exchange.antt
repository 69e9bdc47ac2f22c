-- ===== src/Musig2Card/Exchange.antt =====
-- What one command does to the object, and what is asked of the log of commands.
use nuri_passkey_prf_smartca.Base.{
  ℕ, ◌+◌, Bool, true, false, ◌&&◌, not, List, [], ◌∷◌, Option, none, some, Bytes, ◌≡◌, refl, ap,
  arith, ◌==◌, if◌then◌else◌, get_or, Result, ok, err, Bool-cases, inl, inr,
}
use nuri_passkey_prf_smartca.Musig2Card.State.{
  Link, Step, selected, exchanged, Session, Fault, not_connected, transport_failed, failed,
  ins_verify, ins_get_nonces, ins_finalize, pin_finalize_len,
}
use nuri_passkey_prf_smartca.Musig2Card.Access.{answer, burn, tx}

-- One if the command is a FINALIZE of the protocol with sessions, which carries 231 bytes.
abbrev pub cost : Bytes → ℕ
cost apdu = if get_or apdu 1 0 == ins_finalize && get_or apdu 4 0 == pin_finalize_len then 1 else 0

-- Such FINALIZE commands that were sent, whatever came back.
abbrev pub finalizes : List Step → ℕ
finalizes [] = 0
finalizes (selected ∷ l) = finalizes l
finalizes (exchanged apdu o ∷ l) = cost apdu + finalizes l

abbrev pub is_success : Option ℕ → Bool
is_success none = false
is_success (some sw) = sw == 0x9000

-- One if the step is a GET_NONCES that succeeded.
abbrev pub gain : Bytes → Option ℕ → ℕ
gain apdu o = if get_or apdu 1 0 == ins_get_nonces && is_success o then 1 else 0

abbrev pub nonce_pairs : List Step → ℕ
nonce_pairs [] = 0
nonce_pairs (selected ∷ l) = nonce_pairs l
nonce_pairs (exchanged apdu o ∷ l) = gain apdu o + nonce_pairs l

-- A VERIFY succeeded, and since then every command has succeeded on the same selection.
pub data IsUnlocked : List Step → Type 0 where
  verifies :
      {l : List Step} {apdu : Bytes}
      → get_or apdu 1 0 ≡ ins_verify
      → IsUnlocked (exchanged apdu (some 0x9000) ∷ l)
  later :
      {l : List Step} (apdu : Bytes) → IsUnlocked l → IsUnlocked (exchanged apdu (some 0x9000) ∷ l)

module _ {W : Type 0} (link : Link W) (apdu : Bytes) (s : Session W) where
  -- The three ways in which a command ends: answered with 9000; sent, and failed; not sent.
  pub data Sent (x : Result Fault Bytes × Session W) : Type 0 where
    answered :
        (resp : Bytes) (w : W)
        → x ≡ (ok resp, record s { world = w; log = exchanged apdu (some 0x9000) ∷ s.log })
        → Sent x
    refused :
        (e : Fault) (w : W) (o : Option ℕ)
        → is_success o ≡ false
        → x ≡ (err e, burn link (record s { world = w; log = exchanged apdu o ∷ s.log }))
        → Sent x
    unplugged : x ≡ (err not_connected, s) → Sent x

  answer-Sent :
      (w : W) (reply : Option (Bytes × ℕ)) → Sent (answer link apdu reply (record s { world = w }))
  unfolding answer
  answer-Sent w none = refused (transport_failed (get_or apdu 1 0)) w none refl refl
  answer-Sent w (some (resp, sw)) = elim (Bool-cases (sw == 0x9000)) [
    | inl good ↦ answered resp w (ground arith)
    | inr bad ↦ refused (failed (get_or apdu 1 0) sw) w (some sw) bad (rw bad)
  ]

  pub tx-Sent : Sent (tx link apdu s)
  unfolding tx
  tx-Sent = go s.connected
    where
      go :
          (up : Bool)
          → Sent (
              if not up
              then (err not_connected, s)
              else answer link apdu
                  (link.transmit apdu s.world).0
                  (record s { world = (link.transmit apdu s.world).1 }))
      go true = answer-Sent (link.transmit apdu s.world).1 (link.transmit apdu s.world).0
      go false = unplugged refl

  -- A VERIFY that succeeds leaves the log unlocked.
  pub Sent-IsUnlocked :
      {x : Result Fault Bytes × Session W} {resp : Bytes}
      → Sent x
      → x.0 ≡ ok resp
      → get_or apdu 1 0 ≡ ins_verify
      → IsUnlocked x.1.log
  Sent-IsUnlocked (answered resp w e) good v = rw e (verifies v)
  Sent-IsUnlocked (refused f w o bad e) good v =
      cc (ap (λ (x : Result Fault Bytes × Session W). x.0) e)
  Sent-IsUnlocked (unplugged e) good v = cc (ap (λ (x : Result Fault Bytes × Session W). x.0) e)
