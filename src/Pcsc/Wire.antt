-- ===== src/Pcsc/Wire.antt =====
-- What `connect_ladder` and `open_applet` put on the wire.
use nuri_passkey_prf_smartca.Base.{
  ℕ, Bool, true, false, List, [], ◌∷◌, Option, none, some, ◌≡◌, Bytes, Text, ok, err, Action, Keeps,
  Keeps-pure, Keeps-raise, Keeps-if, Keeps-bind, Keeps-lift, Keeps-tried, Keeps-bind-lift,
  Keeps-raise_if, Result-cases, inl, inr,
}
use nuri_passkey_prf_smartca.Pcsc.Driver.{
  Reader, Exc, card_error, value_error, raised, CardCode, Driver, Host, Env, connect_with,
  disconnect, list_readers,
}
use nuri_passkey_prf_smartca.Pcsc.Apdu.{select_apdu}
use nuri_passkey_prf_smartca.Pcsc.Ladder.{
  Protocol, slot_empty, refused_connect, refused_probe, worked, connect_round, probe_round, attempt,
  climb, connect_ladder, select_probe, try_readers, open_applet,
}
use nuri_passkey_prf_smartca.Pcsc.Exchange.{
  IsCase3, Only, connects, misses, disconnects, transmit_raw-Keeps,
}
use nuri_passkey_prf_smartca.Pcsc.Trace.{Log, more, LogSince}

module _ {W : Type 0} (d : Driver W) {l : Log} (pre : Bytes) where
  connect_with-Keeps :
      (r : Reader) (f : Option ℕ) → Keeps (LogSince (Only pre) l) (connect_with d r f)
  unfolding connect_with
  connect_with-Keeps r f = record {
    from = λ h s. elim (Result-cases (d.connect r f h.world).0) [
      | inl (_, e) ↦ rw (e, connect_with) (more (connects r) s)
      | inr (x, e) ↦ rw (e, connect_with) (more (misses r f x) s)
    ];
  }

  pub disconnect-Keeps : (r : Reader) → Keeps (LogSince (Only pre) l) (disconnect d r)
  unfolding disconnect
  disconnect-Keeps r = record { from = λ h s. more (disconnects r) s }

  pub list_readers-Keeps : Keeps (LogSince (Only pre) l) (list_readers d)
  unfolding list_readers
  list_readers-Keeps = record {
    from = λ h s. elim (Result-cases (d.readers h.world).0) [
      | inl (_, e) ↦ rw (e, list_readers) s
      | inr (_, e) ↦ rw (e, list_readers) s
    ];
  }

  connect_round-Keeps :
      (r : Reader) (p : Protocol) → Keeps (LogSince (Only pre) l) (connect_round d r p)
  unfolding connect_round
  connect_round-Keeps r p =
      Keeps-bind _ _ (Keeps-tried _ (connect_with-Keeps r _)) λ res. Keeps-pure _

  module _ (r : Reader) (probe : Action (Host W) Exc Bool)
      (k : Keeps (LogSince (Only pre) l) probe) where
    probe_round-Keeps : Keeps (LogSince (Only pre) l) (probe_round d r probe)
    unfolding probe_round
    probe_round-Keeps = Keeps-bind _ _ (Keeps-tried _ k) (elim [
      | ok true ↦ Keeps-pure _
      | ok false ↦ Keeps-bind _ _ (disconnect-Keeps r) (λ _. Keeps-pure _)
      | err _ ↦ Keeps-bind _ _ (disconnect-Keeps r) (λ _. Keeps-pure _)
    ])

    attempt-Keeps : (p : Protocol) → Keeps (LogSince (Only pre) l) (attempt d r probe p)
    unfolding attempt
    attempt-Keeps p = Keeps-bind _ _ (connect_round-Keeps r p) (elim [
      | worked ↦ probe_round-Keeps
      | slot_empty ↦ Keeps-pure _
      | refused_connect ↦ Keeps-pure _
      | refused_probe ↦ Keeps-pure _
    ])

    climb-Keeps :
        (ps : List Protocol) (saw failed : Bool)
        → Keeps (LogSince (Only pre) l) (climb d r probe ps saw failed)
    unfolding climb
    climb-Keeps [] saw failed =
        Keeps-if failed _ _ (λ _. Keeps-raise _)
          (λ _. Keeps-if saw _ _ (λ _. Keeps-raise _) (λ _. Keeps-raise _))
    climb-Keeps (p ∷ ps) saw failed = Keeps-bind _ _ (attempt-Keeps p) (elim [
      | slot_empty ↦ climb-Keeps ps saw failed
      | refused_connect ↦ climb-Keeps ps true failed
      | refused_probe ↦ climb-Keeps ps true true
      | worked ↦ Keeps-pure p
    ])

    pub connect_ladder-Keeps :
        (env : Env) → Keeps (LogSince (Only pre) l) (connect_ladder d env r probe)
    unfolding connect_ladder
    connect_ladder-Keeps env =
        Keeps-bind _ _ (Keeps-lift _) λ protocols. climb-Keeps protocols false false

  module _ (case3 : IsCase3 pre) (env : Env) where
    select_probe-Keeps : (r : Reader) → Keeps (LogSince (Only pre) l) (select_probe d pre r)
    unfolding select_probe
    select_probe-Keeps r = Keeps-bind _ _ (transmit_raw-Keeps d r pre case3) λ t. Keeps-pure _

    pub try_readers-Keeps :
        (aid : Text) (rs : List Reader) (worst : Option CardCode)
        → Keeps (LogSince (Only pre) l) (try_readers d env aid pre rs worst)
    unfolding try_readers
    try_readers-Keeps aid [] none = Keeps-raise _
    try_readers-Keeps aid [] (some w) = Keeps-raise _
    try_readers-Keeps aid (r ∷ rs) worst =
        Keeps-bind _ _
          (Keeps-tried _ (connect_ladder-Keeps r (select_probe d pre r) (select_probe-Keeps r) env))
          (elim [
            | ok p ↦ Keeps-pure _
            | err (card_error c) ↦ try_readers-Keeps aid rs _
            | err value_error ↦ Keeps-raise _
            | err (raised e) ↦ Keeps-raise _
          ])

    -- `open_applet` sends nothing but its SELECT and GET RESPONSE.
    pub open_applet-Keeps :
        (aid : Text) (reader : Option Text)
        → select_apdu aid ≡ ok pre
        → Keeps (LogSince (Only pre) l) (open_applet d env aid reader)
    unfolding open_applet
    open_applet-Keeps aid reader e = Keeps-bind-lift (select_apdu aid) _ λ apdu q.
        let same : pre ≡ apdu = cc in
        rw (← same) (
          Keeps-bind _ _ list_readers-Keeps
            λ all. Keeps-bind _ _ (Keeps-raise_if _ _) λ _. try_readers-Keeps aid _ none)
