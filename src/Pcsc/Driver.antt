-- ===== src/Pcsc/Driver.antt =====
-- What scripts/nuri_pcsc.py uses of pyscard, as a parameter, and the state of the host: the world
-- behind the driver, and the log of what was done to it, the latest event first.
use nuri_passkey_prf_smartca.Base.{
  ℕ, List, ◌∷◌, Option, some, none, Bytes, Text, Result, ok, err, Action,
}

-- A reader as `smartcard.System.readers` lists it; `name` is `str(reader)`.
pub record Reader : Type 0 where
  pub id : ℕ
  pub name : Text

-- An exception of the driver: the name of its class, and its `hresult`, if it has one.
pub record PyError : Type 0 where
  pub class_name : Text
  pub hresult : Option ℕ

pub data CardCode : Type 0 where
  no_reader no_card no_applet transport : CardCode

-- What the module raises: a `CardError`, a `ValueError`, or what the driver raised.
pub data Exc : Type 0 where
  card_error : CardCode → Exc
  value_error : Exc
  raised : PyError → Exc

-- pyscard: `readers()`, `connect`, `transmit` and `disconnect` on the connection of a reader. The
-- protocol flag is absent for the driver's own choice.
pub record Driver (W : Type 0) : Type 0 where
  pub readers : W → Result PyError (List Reader) × W
  pub connect : Reader → Option ℕ → W → Result PyError (Unit {0}) × W
  pub transmit : Reader → Bytes → W → Result PyError (Bytes × ℕ × ℕ) × W
  pub disconnect : Reader → W → W

-- A connection made, a connect that the driver refused with its error, a command sent with the status word that came back (none if the driver
-- raised), a connection closed, the ETH1 warning on stderr.
pub data Event : Type 0 where
  connected : Reader → Event
  not_connected : Reader → Option ℕ → PyError → Event
  sent : Reader → Bytes → Option (ℕ × ℕ) → Event
  disconnected : Reader → Event
  warned : Event

pub record Host (W : Type 0) : Type 0 where
  pub world : W
  pub log : List Event

-- The environment variables that the tools read.
pub record Env : Type 0 where
  pub nuri_reader : Option Text
  pub nuri_pcsc_protocol : Option Text
  pub nuri_allow_eth1_demo : Option Text

module _ {W : Type 0} (d : Driver W) where
  -- `conn.connect()` and `conn.connect(flag)`
  unfoldable pub connect_with : Reader → Option ℕ → Action (Host W) Exc (Unit {0})
  connect_with r flag h =
      let (res, w) = d.connect r flag h.world in
      elim res [
        | ok _ ↦ (ok tt, record { world = w; log = connected r ∷ h.log })
        | err e ↦ (err (raised e), record { world = w; log = not_connected r flag e ∷ h.log })
      ]

  -- `conn.transmit(cmd)`
  unfoldable pub send : Reader → Bytes → Action (Host W) Exc (Bytes × ℕ × ℕ)
  send r cmd h =
      let (res, w) = d.transmit r cmd h.world in
      elim res [
        | ok (more, sw1, sw2) ↦
            (ok (more, sw1, sw2), record { world = w; log = sent r cmd (some (sw1, sw2)) ∷ h.log })
        | err e ↦ (err (raised e), record { world = w; log = sent r cmd none ∷ h.log })
      ]

  -- `_disconnect`: what the driver raises is dropped.
  unfoldable pub disconnect : Reader → Action (Host W) Exc (Unit {0})
  disconnect r h = (ok tt, record { world = d.disconnect r h.world; log = disconnected r ∷ h.log })

  -- `_list_readers`
  unfoldable pub list_readers : Action (Host W) Exc (List Reader)
  list_readers h =
      let (res, w) = d.readers h.world in
      elim res [
        | ok rs ↦ (ok rs, record h { world = w })
        | err e ↦ (err (raised e), record h { world = w })
      ]
