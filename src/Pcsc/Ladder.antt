-- ===== src/Pcsc/Ladder.antt =====
-- scripts/nuri_pcsc.py: the protocol ladder, `connect_ladder` and `open_applet`. Messages are left
-- out, so an error is its code. `createConnection` makes an object and touches no reader.
use nuri_passkey_prf_smartca.Base.{
  ℕ, Bool, true, false, ◌||◌, List, [], ◌∷◌, Option, none, some, Bytes, Text, ltb, ◌==◌, equal,
  if◌then◌else◌, codes, strip, lower, upper, has_part, Result, ok, err, Action, ◌>>=◌, ◌>>◌, pure,
  raise, raise_if, tried, is_nil, lift,
}
use nuri_passkey_prf_smartca.Pcsc.Driver.{
  Reader, PyError, CardCode, no_reader, no_card, no_applet, transport, Exc, card_error, value_error,
  raised, Driver, Host, Env, connect_with, disconnect, list_readers,
}
use nuri_passkey_prf_smartca.Pcsc.Apdu.{transmit_raw, select_apdu, select_ok}

pub data Protocol : Type 0 where
  default t0 t1 : Protocol

-- `_PROTOCOL_FLAGS`
abbrev pub protocol_flag : Protocol → Option ℕ
protocol_flag default = none
protocol_flag t0 = some 1
protocol_flag t1 = some 2

abbrev pub full_ladder : List Protocol
full_ladder = default ∷ t0 ∷ t1 ∷ []

-- `env.get(name, fallback)`
abbrev pub or_default : Option Text → Text → Text
or_default none t = t
or_default (some v) t = v

unfoldable pub protocol_ladder : Option Text → Env → Result Exc (List Protocol)
unfolding equal strip
protocol_ladder pin env =
    let value =
      strip (elim pin [ some p ↦ p | none ↦ or_default env.nuri_pcsc_protocol (codes "auto") ]) in
    if equal value [] || equal (lower value) (codes "auto")
    then ok full_ladder
    else if equal (upper value) (codes "T0")
    then ok (t0 ∷ [])
    else if equal (upper value) (codes "T1")
    then ok (t1 ∷ [])
    else if equal (lower value) (codes "default")
    then ok (default ∷ [])
    else err value_error

-- `[r for r in all_readers if wanted in str(r)]`
unfoldable pub matching : Text → List Reader → List Reader
unfolding has_part
matching wanted [] = []
matching wanted (r ∷ rs) =
    let rest = matching wanted rs in if has_part wanted r.name then r ∷ rest else rest

unfoldable pub select_readers : Env → List Reader → Option Text → List Reader
unfolding matching equal
select_readers env all reader =
    let wanted : Text = elim reader [ some w ↦ w | none ↦ or_default env.nuri_reader [] ] in
    if equal wanted [] then all else matching wanted all

-- `_is_no_card`
unfoldable pub is_no_card : PyError → Bool
unfolding equal
is_no_card e =
    equal e.class_name (codes "NoCardException")
    || elim e.hresult [ none ↦ false | some x ↦ x == 0x8010000c || x == 0x80100069 ]

-- What one round of `connect_ladder` comes to.
pub data Outcome : Type 0 where
  slot_empty refused_connect refused_probe worked : Outcome

-- The codes of `CardError` by how bad they are for `open_applet`.
abbrev pub rank : CardCode → ℕ
rank no_card = 0
rank transport = 1
rank no_applet = 2
rank no_reader = 0

abbrev pub worse : Option CardCode → CardCode → CardCode
worse none c = c
worse (some w) c = if ltb (rank w) (rank c) then c else w

pub record Applet : Type 0 where
  pub reader : Reader
  pub protocol : Protocol
  pub aid_hex : Text

module _ {W : Type 0} (d : Driver W) where
  -- The connect of one round, with what its exception says.
  unfoldable pub connect_outcome : Result Exc (Unit {0}) → Outcome
  unfolding is_no_card
  connect_outcome (ok _) = worked
  connect_outcome (err (raised e)) = if is_no_card e then slot_empty else refused_connect
  connect_outcome (err _) = refused_connect

  unfoldable pub connect_round : Reader → Protocol → Action (Host W) Exc Outcome
  unfolding connect_outcome
  connect_round r p = do
    res ← tried {F = Exc} (connect_with d r (protocol_flag p))
    pure (connect_outcome res)

  -- The probe of one round: refused or raised, the connection is closed.
  unfoldable pub probe_outcome : Reader → Result Exc Bool → Action (Host W) Exc Outcome
  probe_outcome r (ok true) = pure worked
  probe_outcome r (ok false) = disconnect d r >> pure refused_probe
  probe_outcome r (err _) = disconnect d r >> pure refused_probe

  unfoldable pub probe_round : Reader → Action (Host W) Exc Bool → Action (Host W) Exc Outcome
  unfolding probe_outcome
  probe_round r probe = tried {F = Exc} probe >>= probe_outcome r

  unfoldable pub attempt :
      Reader → Action (Host W) Exc Bool → Protocol → Action (Host W) Exc Outcome
  attempt r probe p = do
    outcome ← connect_round r p
    elim outcome [
      | worked ↦ probe_round r probe
      | slot_empty ↦ pure slot_empty
      | refused_connect ↦ pure refused_connect
      | refused_probe ↦ pure refused_probe
    ]

  -- The loop over the protocols, with the flags `saw_card` and `probe_failed`.
  unfoldable pub climb :
      Reader → Action (Host W) Exc Bool → List Protocol → Bool → Bool → Action (Host W) Exc Protocol
  climb r probe [] saw_card probe_failed =
      if probe_failed
      then raise (card_error no_applet)
      else if saw_card
      then raise (card_error transport)
      else raise (card_error no_card)
  climb r probe (p ∷ ps) saw_card probe_failed = do
    outcome ← attempt r probe p
    elim outcome [
      | slot_empty ↦ climb r probe ps saw_card probe_failed
      | refused_connect ↦ climb r probe ps true probe_failed
      | refused_probe ↦ climb r probe ps true true
      | worked ↦ pure p
    ]

  unfoldable pub connect_ladder :
      Env → Reader → Action (Host W) Exc Bool → Action (Host W) Exc Protocol
  connect_ladder env r probe = do
    protocols ← lift (protocol_ladder none env)
    climb r probe protocols false false

  -- The probe of `open_applet`.
  unfoldable pub select_probe : Bytes → Reader → Action (Host W) Exc Bool
  select_probe apdu r = do (_, sw) ← transmit_raw d r apdu; pure (select_ok sw)

  -- The loop over the readers, with the worst error so far; any other exception leaves it.
  unfoldable pub try_readers :
      Env → Text → Bytes → List Reader → Option CardCode → Action (Host W) Exc Applet
  try_readers env aid_hex apdu [] none = raise (card_error no_reader)
  try_readers env aid_hex apdu [] (some worst) = raise (card_error worst)
  try_readers env aid_hex apdu (r ∷ rs) worst = do
    res ← tried {F = Exc} (connect_ladder env r (select_probe apdu r))
    elim res [
      | ok p ↦ pure (record { reader = r; protocol = p; aid_hex = upper aid_hex })
      | err (card_error c) ↦ try_readers env aid_hex apdu rs (some (worse worst c))
      | err e ↦ raise e
    ]

  unfoldable pub open_applet : Env → Text → Option Text → Action (Host W) Exc Applet
  open_applet env aid_hex reader = do
    apdu ← lift (select_apdu aid_hex)
    all ← list_readers d
    let candidates = select_readers env all reader
    raise_if (is_nil candidates) (card_error no_reader)
    try_readers env aid_hex apdu candidates none
