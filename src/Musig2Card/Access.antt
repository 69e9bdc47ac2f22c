-- ===== src/Musig2Card/Access.antt =====
-- scripts/nuri_musig2_card.py: the commands, the version and the PIN, `connect` and `close`.
use nuri_passkey_prf_smartca.Base.{
  ℕ, Bool, true, false, not, ◌&&◌, ◌||◌, ◌∷◌, Option, none, some, Bytes, ltb, ◌==◌, if◌then◌else◌,
  length, get_or, Result, ok, err, Action, ◌>>=◌, ◌>>◌, pure, raise, raise_if, tried, get, modify,
}
use nuri_passkey_prf_smartca.Musig2Card.State.{
  Fault, Link, PinStatus, Session, bad_length, cap_pin_required, cap_pin_set, command, exchanged,
  failed, ins_get_version, ins_pin_status, ins_set_pin, ins_verify, needs_pin_protocol, no_card,
  not_connected, pin_error, pin_protocol, selected, transport_failed, with_data,
}

module _ {W : Type 0} (link : Link W) where
  abbrev pub Method : Type 0 → Type 0
  Method A = Action (Session W) Fault A

  -- Every error burns the PIN validation and the nonce token.
  abbrev pub burn : Session W → Session W
  burn s = record s { pin_verified = false; token = none }

  -- What `_tx` does with the answer.
  unfoldable pub answer : Bytes → Option (Bytes × ℕ) → Method Bytes
  answer apdu none s = (
    err (transport_failed (get_or apdu 1 0)),
    burn (record s { log = exchanged apdu none ∷ s.log }),
  )
  answer apdu (some (resp, sw)) s =
      let logged : Session W = record s { log = exchanged apdu (some sw) ∷ s.log } in
      if not (sw == 0x9000)
      then (err (failed (get_or apdu 1 0) sw), burn logged)
      else (ok resp, logged)

  unfoldable pub tx : Bytes → Method Bytes
  unfolding answer
  tx apdu s =
      let (reply, w) = link.transmit apdu s.world in
      let sent_it = answer apdu reply (record s { world = w }) in
      if not s.connected then (err not_connected, s) else sent_it

  unfoldable pub read_version : Method (Unit {0})
  read_version = do
    r ← tx (command ins_get_version)
    raise_if (ltb (length r) 3) bad_length
    modify
        (λ s. record s { version = some (get_or r 0 0, get_or r 1 0); capabilities = get_or r 2 0 })

  unfoldable pub read_pin_status : Method PinStatus
  read_pin_status = do
    r ← tx (command ins_pin_status)
    raise_if (ltb (length r) 3) bad_length
    let status : PinStatus = record {
      required = not (get_or r 0 0 == 0);
      is_set = not (get_or r 1 0 == 0);
      tries = get_or r 2 0;
    }
    modify (λ s. record s { pin_status = some status })
    pure status

  -- `try: self._tx(…) except RuntimeError: raise PinError`
  unfoldable pub pin_answer : Result Fault Bytes → Method (Unit {0})
  pin_answer (ok _) = pure tt
  pin_answer (err _) = raise pin_error

  unfoldable pub tx_pin : ℕ → Bytes → Method (Unit {0})
  tx_pin ins pin = tried {F = Fault} (tx (with_data ins pin)) >>= pin_answer

  unfoldable pub verify_pin : Bytes → Method (Unit {0})
  unfolding tx_pin
  verify_pin pin = do
    s ← get
    raise_if (not (pin_protocol s)) needs_pin_protocol
    tx_pin ins_verify pin
    modify (λ s. record s { pin_verified = true })

  unfoldable pub set_pin : Bytes → Method PinStatus
  unfolding tx_pin
  set_pin pin = do
    s ← get
    raise_if (not (pin_protocol s)) needs_pin_protocol
    tx_pin ins_set_pin pin
    read_pin_status

  -- `self._pin_reader()`
  unfoldable pub ask_pin : Method Bytes
  ask_pin s = let (res, w) = link.pin_reader s.world in (res, record s { world = w })

  -- `self.pin_status or self._read_pin_status()`
  unfoldable pub known_status : Method PinStatus
  known_status = do
    s ← get
    elim s.pin_status [ some status ↦ pure status | none ↦ read_pin_status ]

  -- The branches of `ensure_pin`: is a PIN set, is one required and missing, and the tries left.
  unfoldable pub unlock : Bool → Bool → ℕ → Method (Unit {0})
  unlock true missing tries = raise_if (tries == 0) pin_error >> (ask_pin >>= verify_pin)
  unlock false missing tries = raise_if missing pin_error

  -- What `ensure_pin` does once the status is known.
  unfoldable pub use_pin : Bool → PinStatus → Method (Unit {0})
  use_pin strict status = do
    s ← get
    let required = status.required || cap_pin_required s.capabilities
    let pin_set = status.is_set || cap_pin_set s.capabilities
    unlock pin_set (required && strict) status.tries

  unfoldable pub ensure_pin : Bool → Method (Unit {0})
  ensure_pin strict = do
    s ← get
    if not (pin_protocol s) || s.pin_verified then pure tt else (known_status >>= use_pin strict)

  -- `nuri_pcsc.open_applet`
  unfoldable pub open_session : Method (Unit {0})
  open_session s =
      let (found, w) = link.open_applet s.world in
      if found
      then (ok tt, record s { world = w; connected = true; log = selected ∷ s.log })
      else (err no_card, record s { world = w })

  -- The first half of `connect`: an applet is open, and nothing carries over from before.
  unfoldable pub restart : Method (Unit {0})
  unfolding open_session
  restart = do
    s ← get
    if s.connected then pure tt else open_session
    modify (λ s. record s { pin_verified = false; pin_status = none; token = none })

  unfoldable pub connect : Bool → Method (Unit {0})
  connect verify = do
    restart
    read_version
    s' ← get
    if pin_protocol s'
        then (read_pin_status >> (if verify then ensure_pin false else pure tt))
        else pure tt

  unfoldable pub close : Method (Unit {0})
  close s = (
    ok tt,
    record s {
      world = if s.connected then link.close s.world else s.world;
      token = none;
      pin_verified = false;
      connected = false;
    },
  )
