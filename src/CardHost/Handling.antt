-- ===== src/CardHost/Handling.antt =====
-- Over any requests, a SIGN is sent only behind its checks.
use nuri_passkey_prf_smartca.Base.{
  ℕ, Bool, Option, none, some, Bytes, Text, Result, ok, err, Action, pure, raise, lift, get, ◌>>=◌,
  ◌≡◌, refl, sym, ap, ◌∙◌, subst, after_bind, bind-split, check-split, some-split, pure-back, Keeps,
  Keeps-pure, Keeps-raise, Keeps-raise_if, Keeps-lift, Keeps-if, Keeps-bind,
}
use nuri_passkey_prf_smartca.Attest.Evidence.{Crypto}
use nuri_passkey_prf_smartca.CardHost.Signature.{Curve}
use nuri_passkey_prf_smartca.CardHost.State.{
  Fault, host, foreign, info_required, Settings, Link, Signer, Identity, Card, fail,
}
use nuri_passkey_prf_smartca.CardHost.Signer.{sign_digest, verify_pin_and_sign}
use nuri_passkey_prf_smartca.CardHost.Startup.{blank, new_signer}
use nuri_passkey_prf_smartca.CardHost.Values.{Value}
use nuri_passkey_prf_smartca.CardHost.Process.{
  Device, simulated, held, Process, Answer, Simulator, resolve_mode,
}
use nuri_passkey_prf_smartca.CardHost.Requests.{
  Handler, card_of, after, with_signer, construct, proved, reset_session, remember, show_sim,
  show_card, do_info, signing_signer, current_key, answer_with, sign_by, sign_with_pin, ask_other,
}
use nuri_passkey_prf_smartca.CardHost.Reading.{
  if_given, pubkey_to_address-Keeps, verify_and_recover-Keeps,
}
use nuri_passkey_prf_smartca.CardHost.Silent.{Keeps-get, Keeps-modify}
use nuri_passkey_prf_smartca.CardHost.Starting.{new_signer-Keeps}
use nuri_passkey_prf_smartca.CardHost.Session.{get-back}
use nuri_passkey_prf_smartca.CardHost.Guarded.{latest, AllGuarded, Good, Stable-Good}
use nuri_passkey_prf_smartca.CardHost.Signing.{sign_digest-Good, verify_pin_and_sign-Good}

module _ {W H K : Type 0} (link : Link W) (settings : Settings) (curve : Curve H)
    (crypto : Crypto K) (keccak256 : Bytes → Bytes) (simulator : Simulator)
    (other : Text → Value → Option Bytes → Option Identity → W → Result Fault Value × W) where
  -- The log of the process, and the identity that it holds.
  abbrev pub Sound : Process W → Type 0
  Sound p = Good curve link settings p.info p.log

  abbrev M : Type 0 → Type 0
  M = Handler link settings curve crypto keccak256 simulator other

  pub reset_session-Keeps :
      Keeps Sound (reset_session link settings curve crypto keccak256 simulator other)
  unfolding reset_session
  reset_session-Keeps = Keeps-modify _ (λ p g. unfold AllGuarded latest in (g.0, refl))

  remember-Keeps :
      (i : Identity) → Keeps Sound (remember link settings curve crypto keccak256 simulator other i)
  unfolding remember
  remember-Keeps i = Keeps-modify _ (λ p g. unfold AllGuarded latest in (g.0, refl))

  with_signer-Good :
      {A : Type 0} (x : Signer) (m : Action (Card W) Fault A) (p : Process W)
      → Good curve link settings p.info
          (m (card_of link settings curve crypto keccak256 simulator other p x)).1.log
      → Sound (with_signer link settings curve crypto keccak256 simulator other x m p).1
  unfolding with_signer
  with_signer-Good x m p g = g

  construct-Keeps : Keeps Sound (construct link settings curve crypto keccak256 simulator other)
  unfolding construct
  construct-Keeps = record {
    from = λ p g.
        go p
          (new_signer link curve settings crypto
            (card_of link settings curve crypto keccak256 simulator other p blank))
          ((new_signer-Keeps link (Stable-Good curve link settings p.info) crypto curve
              settings).from
            (card_of link settings curve crypto keccak256 simulator other p blank) g);
  }
    where
      go :
          (p : Process W) (x : Result Fault (Unit {0}) × Card W)
          → Good curve link settings p.info x.1.log
          → Sound (
              (elim x.0 as (λ _. Result Fault Signer × Process W) [
                | ok _ ↦ (
                  ok x.1.self,
                  record (after link settings curve crypto keccak256 simulator other p x.1) {
                    signer = some (held x.1.self);
                  },
                )
                | err e ↦ (err e, after link settings curve crypto keccak256 simulator other p x.1)
              ]).1)
      go p (ok _, c) g = g
      go p (err e, c) g = g

  show_sim-Keeps : Keeps Sound (show_sim link settings curve crypto keccak256 simulator other)
  unfolding show_sim
  show_sim-Keeps = Keeps-bind _ _ (Keeps-modify _ (λ p g. g)) λ _.
      Keeps-bind _ _ (pubkey_to_address-Keeps curve keccak256 simulator.pubkey)
        λ address. Keeps-bind _ _ (remember-Keeps _) λ _. Keeps-pure _

  show_card-Keeps : Keeps Sound (show_card link settings curve crypto keccak256 simulator other)
  unfolding show_card
  show_card-Keeps = Keeps-bind _ _ construct-Keeps λ x.
      Keeps-bind _ _ (pubkey_to_address-Keeps curve keccak256 x.pubkey)
        λ address. Keeps-bind _ _ (remember-Keeps _) λ _. Keeps-pure _

  pub do_info-Keeps : Keeps Sound (do_info link settings curve crypto keccak256 simulator other)
  unfolding do_info
  do_info-Keeps = Keeps-bind _ _ reset_session-Keeps λ _.
      Keeps-bind _ _ (Keeps-lift (resolve_mode settings))
        λ is_sim. Keeps-if is_sim _ _ (λ _. show_sim-Keeps) (λ _. show_card-Keeps)

  signing_signer-Keeps :
      Keeps Sound (signing_signer link settings curve crypto keccak256 simulator other)
  unfolding signing_signer
  signing_signer-Keeps = Keeps-bind _ _ (Keeps-lift (resolve_mode settings)) λ is_sim.
      Keeps-bind _ _ Keeps-get λ p. Keeps-bind _ _ (if_given _ _ p.info Keeps-pure) λ i.
        Keeps-bind _ _ (Keeps-raise_if _ _) λ _.
          Keeps-bind _ _ (if_given _ _ p.signer Keeps-pure) λ x.
            Keeps-bind _ _ (Keeps-raise_if _ _)
              λ _. Keeps-bind _ _ (Keeps-raise_if _ _) λ _. Keeps-pure (x, i)

  -- The identity that signing is held to is the one that is held.
  pub signing_signer-back :
      (p : Process W) {a : Device × Identity} {q : Process W}
      → signing_signer link settings curve crypto keccak256 simulator other p ≡ (ok a, q)
      → (p.info ≡ some a.1) × (p.signer ≡ some a.0) × (q ≡ p)
  unfolding signing_signer lift
  signing_signer-back p {a} {q} e = bind-split (lift (resolve_mode settings)) _ e λ m p₁ e₁ k₁.
      bind-split get _ k₁ λ b p₂ e₂ k₂.
        bind-split
          (elim b.info as (λ _. M Identity) [ none ↦ fail info_required | some i ↦ pure i ]) _ k₂
          λ i p₃ e₃ k₃. check-split _ _ _ k₃ λ c k₄.
            bind-split
              (elim b.signer as (λ _. M Device) [ none ↦ fail info_required | some x ↦ pure x ]) _
              k₄
              λ x p₄ e₄ k₅. check-split _ _ _ k₅ λ c₂ k₆. check-split _ _ _ k₆ λ c₃ k₇.
                let is₁ : p₁ ≡ p = ap (λ (y : Result Fault Bool × Process W). y.1) (sym e₁) in
                let (is_b, is₂) = get-back e₂ in
                some-split (host info_required none) pure b.info e₃ λ i' q₃ r₃.
                  some-split (host info_required none) pure b.signer e₄ λ x' q₄ r₄.
                    let (same_i, is₃) = pure-back r₃ in
                    let (same_x, is₄) = pure-back r₄ in
                    let (same, is₅) = pure-back k₇ in
                    let here : b ≡ p = is_b ∙ is₁ in
                    (
                      ap (λ (y : Process W). y.info) (sym here)
                          ∙ q₃
                          ∙ ap some (sym same_i)
                          ∙ ap (λ (y : Device × Identity). some y.1) (sym same),
                      ap (λ (y : Process W). y.signer) (sym here)
                          ∙ q₄
                          ∙ ap some (sym same_x)
                          ∙ ap (λ (y : Device × Identity). some y.0) (sym same),
                      is₅ ∙ is₄ ∙ is₃ ∙ is₂ ∙ is₁,
                    )

  current_key-Keeps : Keeps Sound (current_key link settings curve crypto keccak256 simulator other)
  unfolding current_key
  current_key-Keeps = Keeps-bind _ _ Keeps-get λ p. key p.signer
    where
      key :
          (d : Option Device)
          → Keeps Sound (elim d as (λ _. M Bytes) [
            | some (held x) ↦ pure x.pubkey
            | some simulated ↦ pure simulator.pubkey
            | none ↦ raise foreign
          ])
      key none = Keeps-raise foreign
      key (some (held x)) = Keeps-pure x.pubkey
      key (some simulated) = Keeps-pure simulator.pubkey

  answer_with-Keeps :
      (digest : Bytes) (rs : ℕ × ℕ)
      → Keeps Sound (answer_with link settings curve crypto keccak256 simulator other digest rs)
  unfolding answer_with proved
  answer_with-Keeps digest (r, s) = Keeps-bind _ _ current_key-Keeps λ key.
      Keeps-bind _ _
        (record {
          from = λ p g. (verify_and_recover-Keeps {Inv = Sound} curve key digest r s).from p g;
        })
        λ out. Keeps-pure _

  pub ask_other-Keeps :
      (method : Text) (params : Value) (pin : Option Bytes)
      → Keeps Sound
          (ask_other link settings curve crypto keccak256 simulator other method params pin)
  unfolding ask_other
  ask_other-Keeps method params pin = record { from = λ p g. g }

  pub sign_by-Sound :
      (x : Device) (digest : Bytes) (i : Identity) (p : Process W)
      → p.info ≡ some i
      → Sound p
      → Sound (sign_by link settings curve crypto keccak256 simulator other x digest i p).1
  unfolding sign_by
  sign_by-Sound simulated digest i p e g =
      (Keeps-pure {Inv = Sound} (simulator.sign digest)).from p g
  sign_by-Sound (held x) digest i p e g =
      with_signer-Good x (sign_digest curve link settings digest i) p (
        subst
          (λ o.
            Good curve link settings o
              (sign_digest curve link settings digest i
                (card_of link settings curve crypto keccak256 simulator other p x)).1.log)
          (sym e)
          (sign_digest-Good curve link settings i digest
            (card_of link settings curve crypto keccak256 simulator other p x)
            (subst (λ o. Good curve link settings o p.log) e g)))

  pub sign_with_pin-Sound :
      (x : Device) (pin digest : Bytes) (i : Identity) (p : Process W)
      → p.info ≡ some i
      → Sound p
      → Sound
          (sign_with_pin link settings curve crypto keccak256 simulator other x pin digest i p).1
  unfolding sign_with_pin
  sign_with_pin-Sound simulated pin digest i p e g = (Keeps-raise {Inv = Sound} _).from p g
  sign_with_pin-Sound (held x) pin digest i p e g =
      with_signer-Good x (verify_pin_and_sign curve link settings pin digest i) p (
        subst
          (λ o.
            Good curve link settings o
              (verify_pin_and_sign curve link settings pin digest i
                (card_of link settings curve crypto keccak256 simulator other p x)).1.log)
          (sym e)
          (verify_pin_and_sign-Good curve link settings i pin digest
            (card_of link settings curve crypto keccak256 simulator other p x)
            (subst (λ o. Good curve link settings o p.log) e g)))

  -- What follows, once it is known who signs.
  pub held_to :
      (next : Device × Identity → M Answer)
      → ((a : Device × Identity) (p : Process W) → p.info ≡ some a.1 → Sound p → Sound (next a p).1)
      → Keeps Sound (signing_signer link settings curve crypto keccak256 simulator other >>= next)
  held_to next signs = record {
    from = λ p g.
        after_bind Sound (signing_signer link settings curve crypto keccak256 simulator other) _ p
          (signing_signer-Keeps.from p g)
          λ a q e h.
            let (info, signer, is) = signing_signer-back p e in
            signs a q (ap (λ (y : Process W). y.info) is ∙ info) h;
  }

  -- A signature, and the answer with it.
  pub answered :
      (digest : Bytes) (m : M (ℕ × ℕ)) (p : Process W)
      → Sound (m p).1
      → Sound
          ((m >>= λ rs. answer_with link settings curve crypto keccak256 simulator other digest rs)
            p).1
  answered digest m p g =
      after_bind Sound m _ p g λ rs q e h. (answer_with-Keeps digest rs).from q h
