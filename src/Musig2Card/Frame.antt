-- ===== src/Musig2Card/Frame.antt =====
-- What a method that returns leaves as it was: the token in hand and the version.
use nuri_passkey_prf_smartca.Base.{
  ℕ, Bool, true, false, Option, none, some, Bytes, ◌≡◌, refl, ap, ◌∙◌, if◌then◌else◌, Result, ok,
  err, Action, pure, raise, raise_if, tried, get, modify, ◌>>=◌, split_bind,
}
use nuri_passkey_prf_smartca.Musig2Card.State.{Link, Session, Fault, PinStatus, with_data}
use nuri_passkey_prf_smartca.Musig2Card.Access.{
  tx, read_pin_status, pin_answer, tx_pin, verify_pin, ask_pin, known_status, unlock, use_pin,
  ensure_pin,
}
use nuri_passkey_prf_smartca.Musig2Card.Exchange.{Sent, answered, refused, unplugged, tx-Sent}

module _ {W : Type 0} where
  abbrev pub SameHand : Session W → Session W → Type 0
  SameHand s t = (t.token ≡ s.token) × (t.version ≡ s.version)

  -- If the method returns, token and version are those before.
  pub record KeepsHand {A : Type 0} (m : Action (Session W) Fault A) : Type 0 where
    pub from : (s : Session W) (a : A) → (m s).0 ≡ ok a → SameHand s (m s).1

  abbrev pub HandOf : {A : Type 0} → Session W → Result Fault A × Session W → Type 0
  HandOf {A} s x = (a : A) → x.0 ≡ ok a → SameHand s x.1

  pub KeepsHand-bind :
      {A B : Type 0} (m : Action (Session W) Fault A) (f : A → Action (Session W) Fault B)
      → KeepsHand m
      → ((a : A) → KeepsHand (f a))
      → KeepsHand (m >>= f)
  KeepsHand-bind m f km kf = record {
    from = λ s.
        split_bind (HandOf s) m f s
          (λ a s' e b good.
            let first : SameHand s s' = rw e at (km.from s a (rw e)) in
            let second = (kf a).from s' b good in (second.0 ∙ first.0, second.1 ∙ first.1))
          (λ e s' q b good. cc);
  }

  pub KeepsHand-pure : {A : Type 0} (a : A) → KeepsHand (pure a)
  unfolding pure
  KeepsHand-pure a = record { from = λ s b e. (refl, refl) }

  pub KeepsHand-raise_if : (b : Bool) (e : Fault) → KeepsHand (raise_if b e)
  unfolding raise_if
  KeepsHand-raise_if true e = record { from = λ s b q. (refl, refl) }
  KeepsHand-raise_if false e = record { from = λ s b q. (refl, refl) }

  pub KeepsHand-get : KeepsHand get
  unfolding get
  KeepsHand-get = record { from = λ s b e. (refl, refl) }

  KeepsHand-if :
      {A : Type 0} (b : Bool) (m n : Action (Session W) Fault A)
      → KeepsHand m
      → KeepsHand n
      → KeepsHand (if b then m else n)
  KeepsHand-if true m n km kn = km
  KeepsHand-if false m n km kn = kn

  module _ (link : Link W) where
    pub tx-KeepsHand : (apdu : Bytes) → KeepsHand (tx link apdu)
    tx-KeepsHand apdu = record { from = λ s. go s (tx-Sent link apdu s) }
      where
        go : (s : Session W) {x : Result Fault Bytes × Session W} → Sent link apdu s x → HandOf s x
        go s (answered resp w e) a good = rw e (refl, refl)
        go s (refused f w o bad e) a good = cc (ap (λ (x : Result Fault Bytes × Session W). x.0) e)
        go s (unplugged e) a good = rw e (refl, refl)

    read_pin_status-KeepsHand : KeepsHand (read_pin_status link)
    unfolding read_pin_status modify
    read_pin_status-KeepsHand = KeepsHand-bind _ _ (tx-KeepsHand _) λ r.
        KeepsHand-bind _ _ (KeepsHand-raise_if _ _)
          λ _. KeepsHand-bind _ _ (record { from = λ s b e. (refl, refl) }) λ _. KeepsHand-pure _

    pin_answer-HandOf :
        (s : Session W) (x : Result Fault Bytes × Session W)
        → HandOf s x
        → HandOf s (pin_answer link x.0 x.1)
    unfolding pin_answer pure raise
    pin_answer-HandOf s (ok r, t) k b good = k r refl
    pin_answer-HandOf s (err e, t) k b good = cc

    tx_pin-KeepsHand : (ins : ℕ) (pin : Bytes) → KeepsHand (tx_pin link ins pin)
    unfolding tx_pin ◌>>=◌ tried
    tx_pin-KeepsHand ins pin = record {
      from = λ s. pin_answer-HandOf s (tx link (with_data ins pin) s) ((tx-KeepsHand _).from s);
    }

    verify_pin-KeepsHand : (pin : Bytes) → KeepsHand (verify_pin link pin)
    unfolding verify_pin modify
    verify_pin-KeepsHand pin = KeepsHand-bind _ _ KeepsHand-get λ s.
        KeepsHand-bind _ _ (KeepsHand-raise_if _ _) λ _.
          KeepsHand-bind _ _ (tx_pin-KeepsHand _ pin) λ _. record { from = λ s b e. (refl, refl) }

    known_status-KeepsHand : KeepsHand (known_status link)
    unfolding known_status
    known_status-KeepsHand = KeepsHand-bind _ _ KeepsHand-get λ s. go s.pin_status
      where
        go :
            (o : Option PinStatus)
            → KeepsHand (elim o as (λ _. Action (Session W) Fault PinStatus) [
              | some status ↦ pure status
              | none ↦ read_pin_status link
            ])
        go none = read_pin_status-KeepsHand
        go (some status) = KeepsHand-pure _

    unlock-KeepsHand : (b missing : Bool) (tries : ℕ) → KeepsHand (unlock link b missing tries)
    unfolding unlock ask_pin
    unlock-KeepsHand true missing tries =
        KeepsHand-bind _ _ (KeepsHand-raise_if _ _)
          λ _. KeepsHand-bind _ _ (record { from = λ s b e. (refl, refl) }) verify_pin-KeepsHand
    unlock-KeepsHand false missing tries = KeepsHand-raise_if _ _

    use_pin-KeepsHand :
        (strict : Bool) (status : PinStatus) → KeepsHand (use_pin link strict status)
    unfolding use_pin
    use_pin-KeepsHand strict status = KeepsHand-bind _ _ KeepsHand-get λ s. unlock-KeepsHand _ _ _

    pub ensure_pin-KeepsHand : (strict : Bool) → KeepsHand (ensure_pin link strict)
    unfolding ensure_pin
    ensure_pin-KeepsHand strict = KeepsHand-bind _ _ KeepsHand-get λ s.
        KeepsHand-if _ _ _ (KeepsHand-pure _)
          (KeepsHand-bind _ _ known_status-KeepsHand (use_pin-KeepsHand strict))
