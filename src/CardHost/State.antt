-- ===== src/CardHost/State.antt =====
-- host/nuri_card_host.py: the errors, the environment, the object `CardSigner` and its surroundings.
use nuri_passkey_prf_smartca.Base.{
  ℕ, ◌*◌, ◌/◌, ◌%◌, Bool, true, false, ◌&&◌, List, [], ◌∷◌, Option, none, some, Bytes, Text, ◌==◌,
  if◌then◌else◌, Result, Action, pure, raise,
}
use nuri_passkey_prf_smartca.Pcsc.Driver.{Exc}
use nuri_passkey_prf_smartca.EthPolicy.{Kind}
use nuri_passkey_prf_smartca.CardHost.Signature.{Failure}

-- `HostError.code`
pub data Code : Type 0 where
  config_error eth1_demo_disabled downgrade_refused : Code
  no_reader no_card no_applet card_error verify_failed : Code
  pin_required pin_blocked pin_wrong pin_not_set : Code
  card_changed info_required sim_not_authorized bad_request address_mismatch : Code

-- A `HostError` with its `tries_left`, if it has one; what the check of a signature raises; what another
-- module raises.
pub data Fault : Type 0 where
  host : Code → Option ℕ → Fault
  unproved : Failure → Fault
  foreign : Fault

-- The environment variables that the host reads, and the flag `--sim`.
pub record Settings : Type 0 where
  pub eth2_aid : Text
  pub allow_eth1_demo : Option Text
  pub card_sim : Option Text
  pub ca_file : Option Text
  pub nuri_reader : Option Text
  pub sim_flag : Bool

-- scripts/nuri_pcsc.py as the signer uses it: `open_applet`, which gives the name of the reader, and
-- `transmit` and `close` of what it opened; whether `_confirm_eth2_absent` returns.
pub record Link (W : Type 0) : Type 0 where
  pub open_applet : Text → Option Text → W → Result Exc Text × W
  pub transmit : Bytes → W → Option (Bytes × ℕ) × W
  pub close : W → W
  pub eth2_absent : W → Bool × W
  -- A file, read up to a length; `secrets.token_bytes`; `time.monotonic`.
  pub read_file : Text → ℕ → W → Option Bytes × W
  pub token_bytes : W → Bytes × W
  pub monotonic : W → ℕ × W

pub data Attested : Type 0 where
  unverified unsupported verification_failed verified : Attested

-- `CardSigner`
pub record Signer : Type 0 where
  pub applet : Kind
  pub applet_version : Option (ℕ × ℕ × ℕ)
  pub reader : Text
  pub pin_set : Bool
  pub pin_tries_left : Option ℕ
  pub pubkey : Bytes
  pub attestation : Attested

-- What `info` reports, and what signing is held to.
pub record Identity : Type 0 where
  pub is_sim : Bool
  pub applet : Kind
  pub pubkey : Bytes
  pub address : Text

-- An applet was opened, or closed; a command was sent, with the answer, if one came back; `info` was
-- reported, or forgotten.
pub data Step : Type 0 where
  opened : Kind → Step
  closed : Step
  exchanged : Bytes → Option (Bytes × ℕ) → Step
  reported : Identity → Step
  forgotten : Step

-- The object, the world behind the link, whether an applet is open, whether the warning on ETH1 was
-- given, and what was done, the latest first.
pub record Card (W : Type 0) : Type 0 where
  pub world : W
  pub log : List Step
  pub is_open : Bool
  pub warned : Bool
  pub self : Signer

abbrev pub version_apdu : Bytes
version_apdu = 0x80 ∷ 0x01 ∷ 0x00 ∷ 0x00 ∷ 0x00 ∷ []

abbrev pub pubkey_apdu : Bytes
pubkey_apdu = 0x80 ∷ 0x02 ∷ 0x00 ∷ 0x00 ∷ 0x00 ∷ []

abbrev pub sign_header : Bytes
sign_header = 0x80 ∷ 0x04 ∷ 0x00 ∷ 0x00 ∷ 0x20 ∷ []

-- The text that says what a command is for.
pub data Purpose : Type 0 where
  get_version get_pubkey verifying_pin signing : Purpose

abbrev pub is_verify_pin : Purpose → Bool
is_verify_pin verifying_pin = true
is_verify_pin _ = false

-- What `_check_sw` raises for a status word of two bytes, if anything.
unfoldable pub sw_error : ℕ → Purpose → Option Fault
sw_error sw what =
    if sw == 0x9000
    then none
    else if sw == 0x6982
    then some (host pin_required none)
    else if sw == 0x6983
    then some (host pin_blocked (some 0))
    else if (sw / 16) * 16 == 0x63c0
    then some (host pin_wrong (some (sw % 16)))
    else if sw == 0x6985 && is_verify_pin what
    then some (host pin_not_set none)
    else some (host card_error none)

module _ {S : Type 0} where
  -- `raise HostError(code, …)`
  abbrev pub fail : {A : Type 0} → Code → Action S Fault A
  fail code = raise (host code none)

  -- `_check_sw`
  unfoldable pub check_sw : ℕ → Purpose → Action S Fault (Unit {0})
  unfolding sw_error
  check_sw sw what = elim (sw_error sw what) [ none ↦ pure tt | some e ↦ raise e ]
