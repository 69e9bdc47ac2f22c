-- ===== src/CardHost/Process.antt =====
-- host/nuri_card_host.py: the state of the process, what it answers, and `resolve_mode`.
use nuri_passkey_prf_smartca.Base.{
  ℕ, Bool, true, false, ◌||◌, not, List, [], Option, none, some, Bytes, Text, equal, if◌then◌else◌,
  codes, Result, ok, err,
}
use nuri_passkey_prf_smartca.CardHost.Signature.{Recoverable}
use nuri_passkey_prf_smartca.CardHost.Signature
use nuri_passkey_prf_smartca.CardHost.State.{
  Code, config_error, card_error, verify_failed, Fault, host, unproved, foreign, Settings, Attested,
  Signer, Identity, Step,
}
use nuri_passkey_prf_smartca.CardHost.Values.{Value, null, text, object, nil, bare}

-- `_SIGNER`
pub data Device : Type 0 where
  simulated : Device
  held : Signer → Device

-- The process: what a `Card` has but for the object, and `_SIGNER`, `_INFO`, `_SIM_ACK`.
pub record Process (W : Type 0) : Type 0 where
  pub world : W
  pub log : List Step
  pub is_open : Bool
  pub warned : Bool
  pub signer : Option Device
  pub info : Option Identity
  pub sim_ack : Bool

-- What `info` shows of the signer; `warning` is that of ETH1.
pub record Shown : Type 0 where
  pub identity : Identity
  pub applet_version : Option (ℕ × ℕ × ℕ)
  pub reader : Text
  pub pin_set : Bool
  pub pin_tries_left : Option ℕ
  pub attestation : Attested
  pub warning : Bool

-- A `result`.
pub data Answer : Type 0 where
  shown : Shown → Answer
  signature : Recoverable → Answer
  value : Value → Answer

-- The mode label of a response.
pub data Mode : Type 0 where
  card sim invalid : Mode

-- A response: the answer, or the code with the tries that are left.
pub record Response : Type 0 where
  pub id : Value
  pub mode : Mode
  pub body : Result (Code × Option ℕ) Answer

-- The simulator: its key, and `sign_digest_deterministic` with it.
pub record Simulator : Type 0 where
  pub pubkey : Bytes
  pub sign : Bytes → ℕ × ℕ

module _ (settings : Settings) where
  abbrev pub sim_is_one : Bool
  sim_is_one = elim settings.card_sim [ none ↦ false | some v ↦ equal v (codes "1") ]

  -- `raw in (None, "", "0")`
  abbrev pub sim_is_off : Bool
  sim_is_off = elim settings.card_sim [ none ↦ true | some v ↦ equal v [] || equal v (codes "0") ]

  -- `resolve_mode`: is it sim.
  unfoldable pub resolve_mode : Result Fault Bool
  resolve_mode =
      if sim_is_one
      then ok true
      else if settings.sim_flag
      then err (host config_error none)
      else if sim_is_off
      then ok false
      else err (host config_error none)

  unfoldable pub response_mode : Mode
  unfolding resolve_mode
  response_mode = elim resolve_mode [ err _ ↦ invalid | ok true ↦ sim | ok false ↦ card ]

  unfoldable pub error_response : Value → Code × Option ℕ → Response
  unfolding response_mode
  error_response id e = record { id = id; mode = response_mode; body = err e }

  unfoldable pub ok_response : Value → Answer → Response
  unfolding response_mode
  ok_response id a = record { id = id; mode = response_mode; body = ok a }

-- The code of an error response.
unfoldable pub code_of : Fault → Code × Option ℕ
code_of (host code tries) = (code, tries)
code_of (unproved Signature.verify_failed) = (verify_failed, none)
code_of (unproved _) = (card_error, none)
code_of foreign = (card_error, none)

abbrev pub is_device : Bool → Device → Bool
is_device true simulated = true
is_device true (held _) = false
is_device false simulated = false
is_device false (held _) = true

abbrev pub same_mode : Bool → Bool → Bool
same_mode true b = b
same_mode false b = not b

-- `params or {}`; a number that is zero stays, which is refused like an empty object.
abbrev pub or_empty : Value → Value
or_empty null = object bare
or_empty (Value.boolean false) = object bare
or_empty (text []) = object bare
or_empty (Value.array nil) = object bare
or_empty v = v

abbrev pub is_null : Value → Bool
is_null null = true
is_null _ = false
