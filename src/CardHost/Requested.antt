-- ===== src/CardHost/Requested.antt =====
-- Over any requests, `handle` sends a SIGN only behind its checks.
use nuri_passkey_prf_smartca.Base.{
  false, ◌||◌, List, [], ◌∷◌, Option, none, some, Bytes, Text, equal, codes, Result, ok, err, inl,
  inr, refl, Bool-cases, after_check, Keeps, Keeps-pure, Keeps-raise, Keeps-raise_if, Keeps-lift,
  Keeps-if, Keeps-bind,
}
use nuri_passkey_prf_smartca.Attest.Evidence.{Crypto}
use nuri_passkey_prf_smartca.CardHost.Signature.{Curve}
use nuri_passkey_prf_smartca.CardHost.State.{Fault, Settings, Link, Identity}
use nuri_passkey_prf_smartca.CardHost.Values.{
  Value, null, boolean, number, text, array, object, lookup,
}
use nuri_passkey_prf_smartca.CardHost.Process.{
  Process, Answer, Simulator, or_empty, is_null, resolve_mode,
}
use nuri_passkey_prf_smartca.CardHost.Requests.{
  Handler, sign_by, sign_with_pin, sign_hash, verify_pin, pin_if_given, webauthn, is_plain_bitcoin,
  sign_partial, dispatch, respond, handle, is_changed,
}
use nuri_passkey_prf_smartca.CardHost.Reading.{
  parse_hash_strict-Keeps, pin_buffer-Keeps, parse_address-Keeps,
}
use nuri_passkey_prf_smartca.CardHost.Guarded.{latest, AllGuarded}
use nuri_passkey_prf_smartca.CardHost.Handling.{
  Sound, reset_session-Keeps, do_info-Keeps, ask_other-Keeps, sign_by-Sound, sign_with_pin-Sound,
  held_to, answered,
}

module _ {W H K : Type 0} (link : Link W) (settings : Settings) (curve : Curve H)
    (crypto : Crypto K) (keccak256 : Bytes → Bytes) (simulator : Simulator)
    (other : Text → Value → Option Bytes → Option Identity → W → Result Fault Value × W) where
  abbrev Fine : Process W → Type 0
  Fine = Sound link settings curve crypto keccak256 simulator other

  abbrev M : Type 0 → Type 0
  M = Handler link settings curve crypto keccak256 simulator other

  sign_hash-Keeps :
      (params : Value)
      → Keeps Fine (sign_hash link settings curve crypto keccak256 simulator other params)
  unfolding sign_hash
  sign_hash-Keeps (object fields) =
      Keeps-bind _ _ (parse_hash_strict-Keeps (lookup (codes "hash") fields)) λ digest.
        held_to link settings curve crypto keccak256 simulator other _ λ a p e g.
          answered link settings curve crypto keccak256 simulator other digest
            (sign_by link settings curve crypto keccak256 simulator other a.0 digest a.1) p
            (sign_by-Sound link settings curve crypto keccak256 simulator other a.0 digest a.1 p e
              g)
  sign_hash-Keeps null = Keeps-raise _
  sign_hash-Keeps (boolean b) = Keeps-raise _
  sign_hash-Keeps (number n) = Keeps-raise _
  sign_hash-Keeps (text v) = Keeps-raise _
  sign_hash-Keeps (array vs) = Keeps-raise _

  verify_pin-Keeps :
      (pin params : Value)
      → Keeps Fine (verify_pin link settings curve crypto keccak256 simulator other pin params)
  unfolding verify_pin
  verify_pin-Keeps pin (object fields) = Keeps-bind _ _ (pin_buffer-Keeps pin) λ buf.
      Keeps-bind _ _ (parse_hash_strict-Keeps (lookup (codes "hash") fields)) λ digest.
        Keeps-bind _ _ (parse_address-Keeps keccak256 (lookup (codes "address") fields)) λ address.
          held_to link settings curve crypto keccak256 simulator other _ λ a p e g.
            after_check Fine _ _ _ p g λ c.
              answered link settings curve crypto keccak256 simulator other digest
                (sign_with_pin link settings curve crypto keccak256 simulator other a.0 buf digest
                  a.1)
                p
                (sign_with_pin-Sound link settings curve crypto keccak256 simulator other a.0 buf
                  digest a.1 p e g)
  verify_pin-Keeps pin null = Keeps-raise _
  verify_pin-Keeps pin (boolean b) = Keeps-raise _
  verify_pin-Keeps pin (number n) = Keeps-raise _
  verify_pin-Keeps pin (text v) = Keeps-raise _
  verify_pin-Keeps pin (array vs) = Keeps-raise _

  pin_if_given-Keeps :
      (pin : Value)
      → Keeps Fine (pin_if_given link settings curve crypto keccak256 simulator other pin)
  unfolding pin_if_given
  pin_if_given-Keeps pin =
      Keeps-if (is_null pin) _ _ (λ _. Keeps-pure none)
        λ _. Keeps-bind _ _ (pin_buffer-Keeps pin) λ buf. Keeps-pure (some buf)

  webauthn-Keeps :
      (method : Text) (pin params : Value)
      → Keeps Fine (webauthn link settings curve crypto keccak256 simulator other method pin params)
  unfolding webauthn
  webauthn-Keeps method pin params = Keeps-bind _ _ (Keeps-lift (resolve_mode settings)) λ is_sim.
      Keeps-bind _ _ (Keeps-raise_if _ _) λ _. Keeps-bind _ _ (pin_if_given-Keeps pin) λ buf.
        ask_other-Keeps link settings curve crypto keccak256 simulator other method params buf

  sign_partial-Keeps :
      (pin params : Value)
      → Keeps Fine (sign_partial link settings curve crypto keccak256 simulator other pin params)
  unfolding sign_partial
  sign_partial-Keeps pin (object fields) =
      Keeps-bind _ _ (pin_if_given-Keeps pin)
        λ buf. ask_other-Keeps link settings curve crypto keccak256 simulator other _ _ buf
  sign_partial-Keeps pin null = Keeps-raise _
  sign_partial-Keeps pin (boolean b) = Keeps-raise _
  sign_partial-Keeps pin (number n) = Keeps-raise _
  sign_partial-Keeps pin (text v) = Keeps-raise _
  sign_partial-Keeps pin (array vs) = Keeps-raise _

  dispatch-Keeps :
      (method pin params : Value)
      → Keeps Fine (dispatch link settings curve crypto keccak256 simulator other method pin params)
  unfolding dispatch
  dispatch-Keeps (text method) pin params =
      Keeps-if (equal method (codes "info")) _ _
        (λ _. do_info-Keeps link settings curve crypto keccak256 simulator other)
        λ _.
          Keeps-if (equal method (codes "sign_hash")) _ _ (λ _. sign_hash-Keeps (or_empty params))
            λ _.
              Keeps-if (equal method (codes "verify_pin")) _ _ (λ _. verify_pin-Keeps pin params)
                λ _.
                  Keeps-if
                    (equal method (codes "webauthn_create") || equal method (codes "webauthn_get"))
                    _ _ (λ _. webauthn-Keeps method pin params)
                    λ _.
                      Keeps-if
                        (is_plain_bitcoin link settings curve crypto keccak256 simulator other
                          method)
                        _ _
                        (λ _.
                          ask_other-Keeps link settings curve crypto keccak256 simulator other
                            method params none)
                        λ _.
                          Keeps-if (equal method (codes "bitcoin_sign_partial")) _ _
                            (λ _. sign_partial-Keeps pin params) λ _. Keeps-raise _
  dispatch-Keeps null pin params = Keeps-raise _
  dispatch-Keeps (boolean b) pin params = Keeps-raise _
  dispatch-Keeps (number n) pin params = Keeps-raise _
  dispatch-Keeps (array vs) pin params = Keeps-raise _
  dispatch-Keeps (object fs) pin params = Keeps-raise _

  respond-Fine :
      (id : Value) (r : Result Fault Answer) (p : Process W)
      → Fine p
      → Fine (respond link settings curve crypto keccak256 simulator other id r p).1
  unfolding respond
  respond-Fine id (ok a) p g = g
  respond-Fine id (err e) p g =
      elim (Bool-cases (is_changed link settings curve crypto keccak256 simulator other e)) [
        | inl yes_it_is ↦
            rw yes_it_is
              ((reset_session-Keeps link settings curve crypto keccak256 simulator other).from p g)
        | inr not_so ↦ rw not_so g
      ]

  handle-Fine :
      (request : Value) (p : Process W)
      → Fine p
      → Fine (handle link settings curve crypto keccak256 simulator other request p).1
  unfolding handle
  handle-Fine (object fields) p g = respond-Fine _ _ _ ((dispatch-Keeps _ _ _).from p g)
  handle-Fine null p g = g
  handle-Fine (boolean b) p g = g
  handle-Fine (number n) p g = g
  handle-Fine (text v) p g = g
  handle-Fine (array vs) p g = g

  -- The requests of a process, one after the other.
  unfoldable pub after_all : List Value → Process W → Process W
  after_all [] p = p
  after_all (request ∷ requests) p =
      after_all requests (handle link settings curve crypto keccak256 simulator other request p).1

  after_all-Fine : (requests : List Value) (p : Process W) → Fine p → Fine (after_all requests p)
  unfolding after_all
  after_all-Fine [] p g = g
  after_all-Fine (request ∷ requests) p g = after_all-Fine requests _ (handle-Fine request p g)

  -- The process at its start.
  abbrev pub fresh : W → Process W
  fresh w = record {
    world = w;
    log = [];
    is_open = false;
    warned = false;
    signer = none;
    info = none;
    sim_ack = false;
  }

  -- After any requests to a fresh process, every SIGN in the log stands in a session that was opened on an
  -- applet of the kind that `info` reported last, with nothing in that session before it but a VERSION,
  -- a PUBKEY that gave the very key that was reported, and at most a VERIFY, all answered with 9000; on
  -- an ETH2 applet, the VERIFY is there exactly if VERSION said that a PIN is set. A report that was
  -- forgotten does not count.
  pub after_all-AllGuarded :
      (requests : List Value) (w : W)
      → AllGuarded curve link settings (after_all requests (fresh w)).log
  after_all-AllGuarded requests w =
      (after_all-Fine requests (fresh w) (unfold AllGuarded latest in (tt, refl))).0
