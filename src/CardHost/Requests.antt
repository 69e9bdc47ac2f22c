-- ===== src/CardHost/Requests.antt =====
-- host/nuri_card_host.py: `info`, the two ways to sign, and `handle`. What bitcoin_commands.py and
-- webauthn_bridge.py do is the parameter `other`.
use nuri_passkey_prf_smartca.Base.{
  ℕ, Bool, true, false, ◌&&◌, ◌||◌, not, ◌∷◌, Option, none, some, Bytes, Text, equal, if◌then◌else◌,
  codes, Result, ok, err, Action, pure, raise, raise_if, lift, get, modify, ◌>>=◌, ◌>>◌,
}
use nuri_passkey_prf_smartca.EthPolicy.{eth1}
use nuri_passkey_prf_smartca.Attest.Evidence.{Crypto}
use nuri_passkey_prf_smartca.CardHost.Signature.{Failure, Curve, verify_and_recover}
use nuri_passkey_prf_smartca.CardHost.State.{
  config_error, pin_not_set, card_changed, info_required, sim_not_authorized, bad_request,
  address_mismatch, Fault, host, unproved, foreign, Settings, Link, unverified, Signer, Identity,
  reported, forgotten, Card, fail,
}
use nuri_passkey_prf_smartca.CardHost.Signer.{is_eth2, sign_digest, verify_pin_and_sign}
use nuri_passkey_prf_smartca.CardHost.Startup.{blank, new_signer}
use nuri_passkey_prf_smartca.CardHost.Values.{
  Value, null, text, object, lookup, without, parse_hash_strict, pin_buffer, parse_address,
  pubkey_to_address,
}
use nuri_passkey_prf_smartca.CardHost.Process.{
  Answer, Device, Process, Response, Simulator, code_of, error_response, held, is_device, is_null,
  ok_response, or_empty, resolve_mode, same_mode, shown, signature, sim_is_one, simulated, value,
}

module _ {W H K : Type 0} (link : Link W) (settings : Settings) (curve : Curve H)
    (crypto : Crypto K) (keccak256 : Bytes → Bytes) (simulator : Simulator)
    (other : Text → Value → Option Bytes → Option Identity → W → Result Fault Value × W) where
  abbrev pub Handler : Type 0 → Type 0
  Handler A = Action (Process W) Fault A

  abbrev pub card_of : Process W → Signer → Card W
  card_of p x = record {
    world = p.world;
    log = p.log;
    is_open = p.is_open;
    warned = p.warned;
    self = x;
  }

  abbrev pub after : Process W → Card W → Process W
  after p c = record p { world = c.world; log = c.log; is_open = c.is_open; warned = c.warned }

  -- A method of the signer that is held, which stays changed whatever comes.
  unfoldable pub with_signer : {A : Type 0} → Signer → Action (Card W) Fault A → Handler A
  with_signer x m p =
      let (r, c) = m (card_of p x) in (r, record (after p c) { signer = some (held c.self) })

  -- `CardSigner()`, which is assigned if it returns.
  unfoldable pub construct : Handler Signer
  construct p =
      let (r, c) = new_signer link curve settings crypto (card_of p blank) in
      elim r [
        | ok _ ↦ (ok c.self, record (after p c) { signer = some (held c.self) })
        | err e ↦ (err e, after p c)
      ]

  -- What verifies a signature raises errors of its own.
  unfoldable pub proved : {A : Type 0} → Action (Process W) Failure A → Handler A
  proved m p = let (r, p') = m p in (elim r [ ok a ↦ ok a | err e ↦ err (unproved e) ], p')

  unfoldable pub reset_session : Handler (Unit {0})
  reset_session = modify (λ p. record p { info = none; sim_ack = false; log = forgotten ∷ p.log })

  -- `_INFO = …` and `_SIM_ACK = …`
  unfoldable pub remember : Identity → Handler (Unit {0})
  remember i =
      modify (λ p. record p { info = some i; sim_ack = i.is_sim; log = reported i ∷ p.log })

  unfoldable pub show_sim : Handler Answer
  show_sim = do
    modify (λ p. record p { signer = some simulated })
    address ← pubkey_to_address keccak256 curve simulator.pubkey
    let i : Identity = record {
      is_sim = true;
      applet = eth1;
      pubkey = simulator.pubkey;
      address = address;
    }
    remember i
    pure (
        shown record {
          identity = i;
          applet_version = none;
          reader = codes "simulator";
          pin_set = false;
          pin_tries_left = none;
          attestation = unverified;
          warning = false;
        })

  unfoldable pub show_card : Handler Answer
  show_card = do
    x ← construct
    address ← pubkey_to_address keccak256 curve x.pubkey
    let i : Identity = record {
      is_sim = false;
      applet = x.applet;
      pubkey = x.pubkey;
      address = address;
    }
    remember i
    pure (
        shown record {
          identity = i;
          applet_version = x.applet_version;
          reader = x.reader;
          pin_set = x.pin_set;
          pin_tries_left = x.pin_tries_left;
          attestation = x.attestation;
          warning = not (is_eth2 x.applet);
        })

  -- `_do_info`, with `get_signer`.
  unfoldable pub do_info : Handler Answer
  do_info = do
    reset_session
    is_sim ← lift (resolve_mode settings)
    if is_sim then show_sim else show_card

  -- `_signing_signer`, with the identity that signing is held to.
  unfoldable pub signing_signer : Handler (Device × Identity)
  signing_signer = do
    is_sim ← lift (resolve_mode settings)
    p ← get
    i ← elim p.info [ none ↦ fail info_required | some i ↦ pure i ]
    raise_if (not (same_mode i.is_sim is_sim)) (host info_required none)
    x ← elim p.signer [ none ↦ fail info_required | some x ↦ pure x ]
    raise_if (not (is_device is_sim x)) (host info_required none)
    raise_if (is_sim && (not p.sim_ack || not (sim_is_one settings))) (host sim_not_authorized none)
    pure (x, i)

  -- `signer.pubkey`
  unfoldable pub current_key : Handler Bytes
  current_key = do
    p ← get
    elim p.signer [
      | some (held x) ↦ pure x.pubkey
      | some simulated ↦ pure simulator.pubkey
      | none ↦ raise foreign
    ]

  -- `verify_and_recover(signer.pubkey, …)` in a response.
  unfoldable pub answer_with : Bytes → ℕ × ℕ → Handler Answer
  answer_with digest (r, s) = do
    key ← current_key
    out ← proved (verify_and_recover curve key digest r s)
    pure (signature out)

  unfoldable pub sign_by : Device → Bytes → Identity → Handler (ℕ × ℕ)
  sign_by simulated digest i = pure (simulator.sign digest)
  sign_by (held x) digest i = with_signer x (sign_digest curve link settings digest i)

  unfoldable pub sign_with_pin : Device → Bytes → Bytes → Identity → Handler (ℕ × ℕ)
  sign_with_pin simulated pin digest i = fail pin_not_set
  sign_with_pin (held x) pin digest i =
      with_signer x (verify_pin_and_sign curve link settings pin digest i)

  -- The branch of `sign_hash`.
  unfoldable pub sign_hash : Value → Handler Answer
  sign_hash (object fields) = do
    digest ← parse_hash_strict (lookup (codes "hash") fields)
    (x, i) ← signing_signer
    rs ← sign_by x digest i
    answer_with digest rs
  sign_hash _ = fail bad_request

  -- The branch of `verify_pin`.
  unfoldable pub verify_pin : Value → Value → Handler Answer
  verify_pin pin (object fields) = do
    buf ← pin_buffer pin
    digest ← parse_hash_strict (lookup (codes "hash") fields)
    address ← parse_address keccak256 (lookup (codes "address") fields)
    (x, i) ← signing_signer
    raise_if (not (equal address i.address)) (host address_mismatch none)
    rs ← sign_with_pin x buf digest i
    answer_with digest rs
  verify_pin pin _ = fail bad_request

  unfoldable pub ask_other : Text → Value → Option Bytes → Handler Answer
  ask_other method params pin p =
      let (r, w) = other method params pin p.info p.world in
      (elim r [ ok v ↦ ok (value v) | err e ↦ err e ], record p { world = w })

  -- `_pin_buffer(pin) if pin is not None else None`
  unfoldable pub pin_if_given : Value → Handler (Option Bytes)
  pin_if_given pin = if is_null pin then pure none else (pin_buffer pin >>= λ buf. pure (some buf))

  unfoldable pub webauthn : Text → Value → Value → Handler Answer
  webauthn method pin params = do
    is_sim ← lift (resolve_mode settings)
    raise_if is_sim (host config_error none)
    buf ← pin_if_given pin
    ask_other method params buf

  abbrev pub is_plain_bitcoin : Text → Bool
  is_plain_bitcoin method =
      equal method (codes "bitcoin_info")
      || equal method (codes "bitcoin_balance")
      || equal method (codes "bitcoin_invoice")
      || equal method (codes "bitcoin_preview")
      || equal method (codes "bitcoin_cancel")

  unfoldable pub sign_partial : Value → Value → Handler Answer
  sign_partial pin (object fields) = do
    buf ← pin_if_given pin
    ask_other (codes "bitcoin_sign_partial") (object fields) buf
  sign_partial pin _ = fail bad_request

  -- The `try` of `handle`.
  unfoldable pub dispatch : Value → Value → Value → Handler Answer
  dispatch (text method) pin params =
      if equal method (codes "info")
      then do_info
      else if equal method (codes "sign_hash")
      then sign_hash (or_empty params)
      else if equal method (codes "verify_pin")
      then verify_pin pin params
      else if equal method (codes "webauthn_create") || equal method (codes "webauthn_get")
      then webauthn method pin params
      else if is_plain_bitcoin method
      then ask_other method params none
      else if equal method (codes "bitcoin_sign_partial")
      then sign_partial pin params
      else fail bad_request
  dispatch _ pin params = fail bad_request

  abbrev pub pin_of : Value → Value
  pin_of (object fields) = lookup (codes "pin") fields
  pin_of _ = null

  abbrev pub without_pin : Value → Value
  without_pin (object fields) = object (without (codes "pin") fields)
  without_pin v = v

  abbrev pub is_changed : Fault → Bool
  is_changed (host card_changed _) = true
  is_changed _ = false

  -- The `except` clauses.
  unfoldable pub respond : Value → Result Fault Answer → Process W → Response × Process W
  respond id (ok a) p = (ok_response settings id a, p)
  respond id (err e) p =
      let forgot = (reset_session p).1 in
      (error_response settings id (code_of e), if is_changed e then forgot else p)

  unfoldable pub handle : Value → Process W → Response × Process W
  handle (object fields) p =
      let params = lookup (codes "params") fields in
      let (r, p') =
        dispatch (lookup (codes "method") fields) (pin_of params) (without_pin params) p in
      respond (lookup (codes "id") fields) r p'
  handle _ p = (error_response settings null (bad_request, none), p)
