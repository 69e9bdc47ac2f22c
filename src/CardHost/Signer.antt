-- ===== src/CardHost/Signer.antt =====
-- host/nuri_card_host.py: `parse_eth2_signature` and the methods of `CardSigner`. To wipe a buffer
-- changes nothing that is modelled.
use nuri_passkey_prf_smartca.Base.{
  ℕ, ◌/◌, ◌%◌, Bool, true, false, ◌&&◌, ◌||◌, not, ◌∷◌, ◌++◌, Option, none, some, Bytes, Text, ltb,
  ◌==◌, equal, if◌then◌else◌, length, get_or, take, drop, upper, codes, from_bytes, ok, err, Action,
  pure, raise, raise_if, get, modify, tried, ◌>>=◌, ◌>>◌,
}
use nuri_passkey_prf_smartca.Pcsc.Driver.{Exc, CardCode, card_error}
use nuri_passkey_prf_smartca.Pcsc.Driver
use nuri_passkey_prf_smartca.EthPolicy.{Kind, eth1, eth2, eth1_aid}
use nuri_passkey_prf_smartca.CardHost.Signature.{Curve, verify_failed, malformed}
use nuri_passkey_prf_smartca.CardHost.State.{
  Code, config_error, eth1_demo_disabled, downgrade_refused, no_reader, no_card, no_applet,
  pin_required, pin_not_set, card_changed, Fault, host, unproved, foreign, Settings, Link, Attested,
  unverified, unsupported, verification_failed, verified, Signer, Identity, opened, closed,
  exchanged, Card, version_apdu, pubkey_apdu, sign_header, Purpose, get_version, get_pubkey,
  verifying_pin, signing, fail, check_sw,
}
use nuri_passkey_prf_smartca.CardHost.State

abbrev pub same_kind : Kind → Kind → Bool
same_kind eth1 eth1 = true
same_kind eth2 eth2 = true
same_kind _ _ = false

abbrev pub is_eth2 : Kind → Bool
is_eth2 eth2 = true
is_eth2 eth1 = false

-- `code_of`
abbrev pub code_of : CardCode → Code
code_of Driver.no_reader = no_reader
code_of Driver.no_card = no_card
code_of Driver.no_applet = no_applet
code_of Driver.transport = State.card_error

module _ {K : Type 0} (curve : Curve K) where
  module _ {S : Type 0} where
    -- `compress_pubkey`
    unfoldable pub compress : Bytes → Action S Fault Bytes
    compress bytes = elim (curve.from_string bytes) [
      | none ↦ raise (unproved malformed)
      | some k ↦ pure (curve.compressed k)
    ]

    -- The echoed key must be the one that is expected, if one is.
    unfoldable pub check_echo : Bytes → Option Bytes → Action S Fault (Unit {0})
    check_echo echo none = pure tt
    check_echo echo (some expected) = do
      a ← compress echo
      b ← compress expected
      raise_if (not (equal a b)) (unproved verify_failed)

    unfoldable pub parse_eth2_signature : Bytes → Option Bytes → Action S Fault (ℕ × ℕ)
    parse_eth2_signature resp expected =
        if length resp == 129 && get_or resp 64 0 == 0x04
        then check_echo (drop 64 resp) expected
          >> pure (from_bytes 0 (take 32 resp), from_bytes 0 (take 32 (drop 32 resp)))
        else if not (length resp == 0) && get_or resp 0 0 == 0x30
        then elim (curve.decode_der resp) [ none ↦ fail State.card_error | some rs ↦ pure rs ]
        else fail State.card_error

  module _ {W : Type 0} (link : Link W) (settings : Settings) where
    abbrev pub Method : Type 0 → Type 0
    Method A = Action (Card W) Fault A

    abbrev pub with_self : (Signer → Signer) → Method (Unit {0})
    with_self f = modify (λ s. record s { self = f s.self })

    -- `self._applet.transmit`
    unfoldable pub transmit : Bytes → Method (Bytes × ℕ)
    transmit apdu s =
        let (reply, w) = link.transmit apdu s.world in
        let sent : Card W = record s { world = w; log = exchanged apdu reply ∷ s.log } in
        if not s.is_open
        then (err foreign, s)
        else elim reply [ none ↦ (err foreign, sent) | some answer ↦ (ok answer, sent) ]

    -- `_tx`
    unfoldable pub tx : Bytes → Purpose → Method Bytes
    tx apdu what = do (answer, sw) ← transmit apdu; check_sw sw what; pure answer

    unfoldable pub close : Method (Unit {0})
    close s = (
      ok tt,
      if s.is_open
          then record s { world = link.close s.world; log = closed ∷ s.log; is_open = false }
          else s,
    )

    -- `try: m finally: self.close()`
    unfoldable pub closing : {A : Type 0} → Method A → Method A
    closing m s = let (r, s') = m s in (r, (close s').1)

    -- `nuri_pcsc.open_applet`, with the applet that it opens.
    unfoldable pub open_as : Kind → Text → Action (Card W) Exc (Unit {0})
    open_as kind aid s =
        let (r, w) = link.open_applet aid settings.nuri_reader s.world in
        elim r [
          | ok name ↦ (
            ok tt,
            record s {
              world = w;
              log = opened kind ∷ s.log;
              is_open = true;
              self = record s.self { applet = kind; reader = name };
            },
          )
          | err e ↦ (err e, record s { world = w })
        ]

    -- A `CardError` with its code; another exception as it is.
    unfoldable pub as_fault : Exc → Fault
    as_fault (card_error code) = host (code_of code) none
    as_fault _ = foreign

    unfoldable pub confirm_absent : Method (Unit {0})
    confirm_absent s =
        let (absent, w) = link.eth2_absent s.world in
        (if absent then ok tt else err (host downgrade_refused none), record s { world = w })

    abbrev pub demo_allowed : Bool
    demo_allowed = elim settings.allow_eth1_demo [ none ↦ false | some v ↦ equal v (codes "1") ]

    -- `except CardError` of `_open`
    unfoldable pub open_eth1 : Method (Unit {0})
    open_eth1 = do
      raise_if (not demo_allowed) (host eth1_demo_disabled none)
      confirm_absent
      r ← tried {F = Fault} (open_as eth1 eth1_aid)
      elim r [ ok _ ↦ pure tt | err e ↦ raise (as_fault e) ]
      modify (λ s. record s { warned = true })

    -- `_open`
    unfoldable pub open_card : Method (Unit {0})
    open_card = do
      raise_if (equal (upper settings.eth2_aid) eth1_aid) (host config_error none)
      r ← tried {F = Fault} (open_as eth2 settings.eth2_aid)
      elim r [
        | ok _ ↦ pure tt
        | err (card_error Driver.no_applet) ↦ open_eth1
        | err e ↦ raise (as_fault e)
      ]

    -- The state byte and the tries of an ETH2 VERSION.
    unfoldable pub read_state : Bytes → Method (Unit {0})
    read_state ver = do
      raise_if (ltb (length ver) 9) (host State.card_error none)
      let pin_set = (get_or ver 7 0 / 2) % 2 == 1
      with_self (λ x. record x {
        pin_set = pin_set;
        pin_tries_left = if pin_set then some (get_or ver 8 0) else none;
      })
      raise_if (not (get_or ver 7 0 % 2 == 1)) (host State.card_error none)

    -- The key that a PUBKEY answer stands for.
    unfoldable pub key_of : {S : Type 0} → Kind → Bytes → Action S Fault Bytes
    key_of eth2 pub_bytes = do
      raise_if (not (length pub_bytes == 65) || not (get_or pub_bytes 0 0 == 0x04))
          (host State.card_error none)
      compress pub_bytes
    key_of eth1 pub_bytes = do
      raise_if
          (not (length pub_bytes == 33)
            || not (get_or pub_bytes 0 0 == 0x02 || get_or pub_bytes 0 0 == 0x03))
          (host State.card_error none)
      pure pub_bytes

    -- `_load_identity`
    unfoldable pub load_identity : Method (Unit {0})
    load_identity = do
      with_self (λ x. record x { pin_set = false; pin_tries_left = none })
      ver ← tx version_apdu get_version
      with_self (λ x. record x {
        applet_version =
            if ltb (length ver) 3
            then x.applet_version
            else some (get_or ver 0 0, get_or ver 1 0, get_or ver 2 0);
      })
      s ← get
      if is_eth2 s.self.applet then read_state ver else pure tt
      pub_bytes ← tx pubkey_apdu get_pubkey
      key ← key_of s.self.applet pub_bytes
      with_self (λ x. record x { pubkey = key })

    -- `_check_identity`
    unfoldable pub check_identity : Identity → Method (Unit {0})
    check_identity expected = do
      s ← get
      raise_if
          (not (same_kind s.self.applet expected.applet)
            || not (equal s.self.pubkey expected.pubkey))
          (host card_changed none)

    -- `_sign_in_session`
    unfoldable pub sign_in_session : Bytes → Method (ℕ × ℕ)
    sign_in_session digest = do
      resp ← tx (sign_header ++ digest) signing
      s ← get
      if is_eth2 s.self.applet then parse_eth2_signature resp (some s.self.pubkey) else do
        raise_if (not (length resp == 65)) (host State.card_error none)
        pure (from_bytes 0 (take 32 resp), from_bytes 0 (take 32 (drop 32 resp)))

    unfoldable pub sign_digest : Bytes → Identity → Method (ℕ × ℕ)
    sign_digest digest expected = do
      open_card
      closing do
        load_identity
        check_identity expected
        s ← get
        raise_if (is_eth2 s.self.applet && s.self.pin_set) (host pin_required s.self.pin_tries_left)
        sign_in_session digest

    abbrev pub verify_apdu : Bytes → Bytes
    verify_apdu pin = 0x80 ∷ 0x20 ∷ 0x00 ∷ 0x00 ∷ length pin ∷ pin

    unfoldable pub verify_pin_and_sign : Bytes → Bytes → Identity → Method (ℕ × ℕ)
    verify_pin_and_sign pin digest expected = do
      open_card
      closing do
        load_identity
        check_identity expected
        s ← get
        raise_if (not (is_eth2 s.self.applet) || not s.self.pin_set) (host pin_not_set none)
        raise_if (ltb 255 (length pin)) foreign
        tx (verify_apdu pin) verifying_pin
        sign_in_session digest
