-- ===== src/Pcsc/Trace.antt =====
-- What an action adds to the log of the host.
use nuri_passkey_prf_smartca.Base.{List, ◌∷◌}
use nuri_passkey_prf_smartca.Pcsc.Driver.{Event, Host}

abbrev pub Log : Type 0
Log = List Event

-- The later log extends the earlier one by events that have the property.
pub data Since (P : Event → Type 0) (l : Log) : Log → Type 0 where
  here : Since P l l
  more : {e : Event} {l' : Log} → P e → Since P l l' → Since P l (e ∷ l')

module _ {P : Event → Type 0} where
  pub Since-trans : {k l m : Log} → Since P k l → Since P l m → Since P k m
  Since-trans s here = s
  Since-trans s (more p t) = more p (Since-trans s t)

pub Since-map :
    {P Q : Event → Type 0} {k l : Log} → ((e : Event) → P e → Q e) → Since P k l → Since Q k l
Since-map f here = here
Since-map f (more {e} p s) = more (f e p) (Since-map f s)

-- The host's log extends `l` by such events: what a method that logs nothing else keeps.
abbrev pub LogSince : {W : Type 0} → (Event → Type 0) → Log → Host W → Type 0
LogSince P l h = Since P l h.log
