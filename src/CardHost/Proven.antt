-- ===== src/CardHost/Proven.antt =====
-- A signature in a response of `handle` is proved by the key that was reported.
use nuri_passkey_prf_smartca.Base.{
  ◌||◌, Option, none, Bytes, Text, equal, codes, Result, ok, err, pure, lift, modify, ◌≡◌, refl,
  sym, ap, subst, bind-split, check-split, if-split, pure-back, raise-ne-ok, equal_iff,
}
use nuri_passkey_prf_smartca.Attest.Evidence.{Crypto}
use nuri_passkey_prf_smartca.CardHost.Signature.{Curve, Recoverable}
use nuri_passkey_prf_smartca.CardHost.State.{Fault, Settings, Link, Identity}
use nuri_passkey_prf_smartca.CardHost.Values.{
  Value, null, boolean, number, text, array, object, Fields, lookup, pubkey_to_address,
}
use nuri_passkey_prf_smartca.CardHost.Process.{
  Shown, ok_response, error_response, Process, Answer, shown, signature, value, Simulator, or_empty,
  resolve_mode,
}
use nuri_passkey_prf_smartca.CardHost.Requests.{
  Handler, construct, reset_session, remember, show_sim, show_card, do_info, ask_other,
  pin_if_given, webauthn, is_plain_bitcoin, sign_partial, dispatch, respond, handle, pin_of,
  without_pin,
}
use nuri_passkey_prf_smartca.CardHost.Answers.{Signs}
use nuri_passkey_prf_smartca.CardHost.Answered.{Confirmed, sign_hash-back, verify_pin-back}

module _ {W H K : Type 0} (link : Link W) (settings : Settings) (curve : Curve H)
    (crypto : Crypto K) (keccak256 : Bytes → Bytes) (simulator : Simulator)
    (other : Text → Value → Option Bytes → Option Identity → W → Result Fault Value × W) where
  abbrev M : Type 0 → Type 0
  M = Handler link settings curve crypto keccak256 simulator other

  -- A request for a signature that is answered with it, in the process that it finds.
  pub data Served (p : Process W) (out : Recoverable) : Value → Value → Type 0 where
    hashed :
        (given : Value) (params : Fields)
        → or_empty given ≡ object params
        → Signs link settings curve crypto keccak256 simulator other params p out
        → Served p out (text (codes "sign_hash")) given
    confirmed :
        (params : Fields)
        → Confirmed link settings curve crypto keccak256 simulator other params p
        → Signs link settings curve crypto keccak256 simulator other params p out
        → Served p out (text (codes "verify_pin")) (object params)

  pub Proven : Value → Process W → Recoverable → Type 0
  Proven request p out =
      (fields : Fields) × (request ≡ object fields)
      × Served p out (lookup (codes "method") fields) (
          without_pin link settings curve crypto keccak256 simulator other
            (lookup (codes "params") fields))

  -- An answer that is no signature.
  no_signature :
      {R : Type 0} (p : Process W) {q : Process W} {out : Recoverable} (i : Shown)
      → pure {E = Fault} (shown i) p ≡ (ok (signature out), q)
      → R
  no_signature p i e = let f = (pure-back e).0 in cc

  ask_other-ne :
      {R : Type 0} (method : Text) (params : Value) (pin : Option Bytes) (p : Process W)
      {out : Recoverable} {q : Process W}
      → ask_other link settings curve crypto keccak256 simulator other method params pin p
        ≡ (ok (signature out), q)
      → R
  unfolding ask_other
  ask_other-ne {R} method params pin p {out} e =
      go (other method params pin p.info p.world).0
        (ap (λ (x : Result Fault Answer × Process W). x.0) e)
    where
      go :
          (r : Result Fault Value)
          → (elim r as (λ _. Result Fault Answer) [ ok v ↦ ok (value v) | err x ↦ err x ])
            ≡ ok (signature out)
          → R
      go (ok v) e = cc
      go (err x) e = cc

  do_info-ne :
      {R : Type 0} (p : Process W) {out : Recoverable} {q : Process W}
      → do_info link settings curve crypto keccak256 simulator other p ≡ (ok (signature out), q)
      → R
  unfolding do_info show_sim show_card
  do_info-ne p e =
      bind-split (reset_session link settings curve crypto keccak256 simulator other) _ e
        λ _ p₁ _ k₁. bind-split (lift (resolve_mode settings)) _ k₁ λ is_sim p₂ _ k₂.
          if-split _ _ is_sim k₂
            (λ _ k. bind-split (modify _) _ k λ _ p₃ _ k₃.
              bind-split (pubkey_to_address keccak256 curve simulator.pubkey) _ k₃ λ a p₄ _ k₄.
                bind-split (remember link settings curve crypto keccak256 simulator other _) _ k₄
                  λ _ p₅ _ k₅. no_signature p₅ _ k₅)
            (λ _ k.
              bind-split (construct link settings curve crypto keccak256 simulator other) _ k
                λ x p₃ _ k₃.
                  bind-split (pubkey_to_address keccak256 curve x.pubkey) _ k₃ λ a p₄ _ k₄.
                    bind-split (remember link settings curve crypto keccak256 simulator other _) _
                      k₄ λ _ p₅ _ k₅. no_signature p₅ _ k₅)

  webauthn-ne :
      {R : Type 0} (method : Text) (pin params : Value) (p : Process W) {out : Recoverable}
      {q : Process W}
      → webauthn link settings curve crypto keccak256 simulator other method pin params p
        ≡ (ok (signature out), q)
      → R
  unfolding webauthn
  webauthn-ne method pin params p e =
      bind-split (lift (resolve_mode settings)) _ e λ is_sim p₁ _ k₁. check-split _ _ _ k₁ λ _ k₂.
        bind-split (pin_if_given link settings curve crypto keccak256 simulator other pin) _ k₂
          λ buf p₂ _ k₃. ask_other-ne method params buf p₂ k₃

  sign_partial-ne :
      {R : Type 0} (pin params : Value) (p : Process W) {out : Recoverable} {q : Process W}
      → sign_partial link settings curve crypto keccak256 simulator other pin params p
        ≡ (ok (signature out), q)
      → R
  unfolding sign_partial
  sign_partial-ne pin (object fields) p e =
      bind-split (pin_if_given link settings curve crypto keccak256 simulator other pin) _ e
        λ buf p₂ _ k. ask_other-ne _ _ buf p₂ k
  sign_partial-ne pin null p e = raise-ne-ok _ p e
  sign_partial-ne pin (boolean b) p e = raise-ne-ok _ p e
  sign_partial-ne pin (number n) p e = raise-ne-ok _ p e
  sign_partial-ne pin (text v) p e = raise-ne-ok _ p e
  sign_partial-ne pin (array vs) p e = raise-ne-ok _ p e

  dispatch-Served :
      (method pin given : Value) (p : Process W) {out : Recoverable} {q : Process W}
      → dispatch link settings curve crypto keccak256 simulator other method pin given p
        ≡ (ok (signature out), q)
      → Served p out method given
  unfolding dispatch
  dispatch-Served (text method) pin given p {out} e =
      if-split _ _ (equal method (codes "info")) e (λ _ k. do_info-ne p k)
        λ _ k₁.
          if-split _ _ (equal method (codes "sign_hash")) k₁
            (λ t k.
              let (fields, is, signs) =
                sign_hash-back link settings curve crypto keccak256 simulator other _ p k in
              subst (λ m. Served p out (text m) given)
                (sym ((equal_iff method (codes "sign_hash")).0 t)) (hashed given fields is signs))
            λ _ k₂.
              if-split _ _ (equal method (codes "verify_pin")) k₂
                (λ t k.
                  let (fields, is, confirms, signs) =
                    verify_pin-back link settings curve crypto keccak256 simulator other pin given p
                      k in
                  subst (λ m. Served p out (text m) given)
                    (sym ((equal_iff method (codes "verify_pin")).0 t))
                    (subst (Served p out (text (codes "verify_pin"))) (sym is)
                      (confirmed fields confirms signs)))
                λ _ k₃.
                  if-split _ _
                    (equal method (codes "webauthn_create") || equal method (codes "webauthn_get"))
                    k₃ (λ _ k. webauthn-ne method pin given p k)
                    λ _ k₄.
                      if-split _ _
                        (is_plain_bitcoin link settings curve crypto keccak256 simulator other
                          method)
                        k₄ (λ _ k. ask_other-ne method given none p k)
                        λ _ k₅.
                          if-split _ _ (equal method (codes "bitcoin_sign_partial")) k₅
                            (λ _ k. sign_partial-ne pin given p k) λ _ k. raise-ne-ok _ p k
  dispatch-Served null pin given p e = raise-ne-ok _ p e
  dispatch-Served (boolean b) pin given p e = raise-ne-ok _ p e
  dispatch-Served (number n) pin given p e = raise-ne-ok _ p e
  dispatch-Served (array vs) pin given p e = raise-ne-ok _ p e
  dispatch-Served (object fs) pin given p e = raise-ne-ok _ p e

  respond-back :
      (id : Value) (r : Result Fault Answer) (p : Process W) {a : Answer}
      → (respond link settings curve crypto keccak256 simulator other id r p).0.body ≡ ok a
      → r ≡ ok a
  unfolding respond ok_response error_response
  respond-back id (ok b) p e = cc
  respond-back id (err x) p e = cc

  -- When `handle` answers a request with a signature, its method is `sign_hash` or `verify_pin`. The
  -- hash in its params is "0x" and 64 hex digits; for r and s, the signature is what the host proves
  -- of them for that digest and for the key of the identity that `info` reported last, or for the
  -- simulator's key if the signer is the simulator: r and s are in range, the low form of s verifies
  -- with r under that key, and y_parity is the first index at which recovery finds it. For
  -- `verify_pin`, the address in the params is well-formed and that of the identity.
  pub handle-Proven :
      (request : Value) (p : Process W) {out : Recoverable}
      → (handle link settings curve crypto keccak256 simulator other request p).0.body
        ≡ ok (signature out)
      → Proven request p out
  unfolding handle Proven
  handle-Proven (object fields) p e =
      let ran =
        dispatch link settings curve crypto keccak256 simulator other
          (lookup (codes "method") fields)
          (pin_of link settings curve crypto keccak256 simulator other
            (lookup (codes "params") fields))
          (without_pin link settings curve crypto keccak256 simulator other
            (lookup (codes "params") fields))
          p in
      (
        fields,
        refl,
        dispatch-Served _ _ _ p
            (ap (λ r. (r, ran.1)) (respond-back (lookup (codes "id") fields) ran.0 ran.1 e)),
      )
  handle-Proven null p e = unfold error_response in cc
  handle-Proven (boolean b) p e = unfold error_response in cc
  handle-Proven (number n) p e = unfold error_response in cc
  handle-Proven (text v) p e = unfold error_response in cc
  handle-Proven (array vs) p e = unfold error_response in cc
