-- ===== src/EthPolicy/Absence.antt =====
-- What the ladder of `confirm_eth2_absent` sees of one reader.
use nuri_passkey_prf_smartca.Base.{
  ℕ, ◌+◌, ◌≤◌, Bool, true, false, List, [], ◌∷◌, Option, ◌≡◌, refl, ap, ◌∙◌, arith, Bytes, ◌==◌,
  Result, ok, err, Action, pure, raise, tried, ◌>>=◌, Keeps, split_bind, inl, inr, Bool-cases,
  ==_iff, Result-cases, sym,
}
use nuri_passkey_prf_smartca.Pcsc.Driver.{
  Reader, PyError, Exc, card_error, value_error, raised, no_card, no_reader, no_applet, transport,
  connected, not_connected, Driver, Host, send, connect_with, disconnect,
}
use nuri_passkey_prf_smartca.Pcsc.Apdu.{transmit_raw, get_response}
use nuri_passkey_prf_smartca.Pcsc.Ladder.{
  Protocol, Outcome, slot_empty, refused_connect, refused_probe, worked, protocol_flag, is_no_card,
  connect_outcome, connect_round, probe_round, probe_outcome, attempt, climb,
}
use nuri_passkey_prf_smartca.Pcsc.Exchange.{
  Only, Last, Concluded, transmit_raw-Concluded, transmit_raw-Keeps_any, transmit_raw-Keeps,
}
use nuri_passkey_prf_smartca.Pcsc.Trace.{Log, Since, here, more, Since-trans}
use nuri_passkey_prf_smartca.EthPolicy.{
  sw_file_not_found, Notes, noting, note_fault, note_absent, absence_answer, absence_probe,
}
use nuri_passkey_prf_smartca.EthPolicy.Gate.{select_eth2}
use nuri_passkey_prf_smartca.EthPolicy.Vacancy.{
  SaysNoCard, is_no_card-SaysNoCard, Missed, missed, Vacant, over, round,
}

module _ {W : Type 0} (d : Driver W) (r : Reader) where
  abbrev pub notes : Host (W × Notes) → Notes
  notes h = h.world.1

  -- The exchanges on the wire leave the probe's variables alone.
  send-notes : (n : Notes) (cmd : Bytes) → Keeps (λ h. notes h ≡ n) (send (noting d) r cmd)
  unfolding send noting
  send-notes n cmd = record {
    from = λ h s. elim (Result-cases (d.transmit r cmd h.world.0).0) [
      | inl (_, e) ↦ rw (e, send) s
      | inr (_, e) ↦ rw (e, send) s
    ];
  }

  transmit_raw-notes :
      (h : Host (W × Notes)) → notes (transmit_raw (noting d) r select_eth2 h).1 ≡ notes h
  transmit_raw-notes h =
      (transmit_raw-Keeps_any (noting d) r select_eth2 (omega arith)
          (λ cmd _. send-notes (notes h) cmd) (λ n. send-notes (notes h) (get_response n))).from
        h refl

  -- What the probe comes to, from the variables and the log before it.
  abbrev Probed : Notes → Log → Result Exc Bool × Host (W × Notes) → Type 0
  Probed n l (ok true, h) =
      (notes h ≡ record { faults = n.faults; absent = true })
      × Last r sw_file_not_found h.log
      × Since (Only select_eth2) l h.log
  Probed n l (_, h) = notes h ≡ record { faults = n.faults + 1; absent = n.absent }

  absence_answer-Probed :
      (n : Notes) (l : Log) (x : Result Exc (Bytes × ℕ) × Host (W × Notes))
      → notes x.1 ≡ n
      → Concluded (noting d) r x
      → Since (Only select_eth2) l x.1.log
      → Probed n l (absence_answer d x.0 x.1)
  unfolding absence_answer note_fault note_absent ◌>>=◌
  absence_answer-Probed n l (err e, h) same c s = ground arith
  absence_answer-Probed n l (ok (t, sw), h) same c s = elim (Bool-cases (sw == sw_file_not_found)) [
    | inl found ↦ rw found (ground arith, rw ((==_iff sw sw_file_not_found).0 found) at c, s)
    | inr other ↦ rw other (ground arith)
  ]

  absence_probe-Probed :
      (n : Notes) (l : Log) (h : Host (W × Notes))
      → notes h ≡ n
      → h.log ≡ l
      → Probed n l (absence_probe d select_eth2 r h)
  unfolding absence_probe ◌>>=◌ tried
  absence_probe-Probed n l h same at =
      absence_answer-Probed n l (transmit_raw (noting d) r select_eth2 h)
        (transmit_raw-notes h ∙ same) (transmit_raw-Concluded (noting d) r select_eth2 h)
        (rw (← at) ((transmit_raw-Keeps (noting d) r select_eth2 (omega arith)).from h here))

  -- What the driver's connect comes to.
  abbrev Joined : Option ℕ → Notes → Log → Result Exc (Unit {0}) × Host (W × Notes) → Type 0
  Joined f n l (ok _, h) = (notes h ≡ n) × (h.log ≡ connected r ∷ l)
  Joined f n l (err (raised e), h) = (notes h ≡ n) × (h.log ≡ not_connected r f e ∷ l)
  Joined f n l (err _, h) = ⊥

  connect_with-Joined :
      (f : Option ℕ) (h : Host (W × Notes))
      → Joined f (notes h) h.log (connect_with (noting d) r f h)
  unfolding connect_with noting
  connect_with-Joined f h = elim (Result-cases (d.connect r f h.world.0).0) [
    | inl (_, e) ↦ rw (e, connect_with) (refl, refl)
    | inr (_, e) ↦ rw (e, connect_with) (refl, refl)
  ]

  -- What the connect of one round comes to.
  abbrev Connected : Protocol → Notes → Log → Result Exc Outcome × Host (W × Notes) → Type 0
  Connected p n l (ok worked, h) = (notes h ≡ n) × (h.log ≡ connected r ∷ l)
  Connected p n l (ok slot_empty, h) =
      (e : PyError) × SaysNoCard e
      × (notes h ≡ n)
      × (h.log ≡ not_connected r (protocol_flag p) e ∷ l)
  Connected p n l (ok refused_connect, h) =
      (e : PyError) × (notes h ≡ n) × (h.log ≡ not_connected r (protocol_flag p) e ∷ l)
  Connected p n l (ok refused_probe, h) = ⊥
  Connected p n l (err _, h) = ⊥

  connect_outcome-Connected :
      (p : Protocol) (n : Notes) (l : Log) (x : Result Exc (Unit {0}) × Host (W × Notes))
      → Joined (protocol_flag p) n l x
      → Connected p n l (ok (connect_outcome (noting d) x.0), x.1)
  unfolding connect_outcome
  connect_outcome-Connected p n l (ok _, h) q = q
  connect_outcome-Connected p n l (err (raised e), h) q = elim (Bool-cases (is_no_card e)) [
    | inl empty ↦ rw empty (e, is_no_card-SaysNoCard e empty, q.0, q.1)
    | inr other ↦ rw other (e, q.0, q.1)
  ]
  connect_outcome-Connected p n l (err (card_error c), h) q = absurd q
  connect_outcome-Connected p n l (err value_error, h) q = absurd q

  connect_round-Connected :
      (p : Protocol) (h : Host (W × Notes))
      → Connected p (notes h) h.log (connect_round (noting d) r p h)
  unfolding connect_round ◌>>=◌ tried
  connect_round-Connected p h =
      connect_outcome-Connected p (notes h) h.log (connect_with (noting d) r (protocol_flag p) h)
        (connect_with-Joined (protocol_flag p) h)

  -- What a whole round comes to.
  abbrev Attempted : Protocol → Notes → Log → Result Exc Outcome × Host (W × Notes) → Type 0
  Attempted p n l (ok worked, h) =
      (notes h ≡ record { faults = n.faults; absent = true })
      × Last r sw_file_not_found h.log
      × Since (Only select_eth2) (connected r ∷ l) h.log
  Attempted p n l (ok slot_empty, h) =
      (e : PyError) × SaysNoCard e
      × (notes h ≡ n)
      × (h.log ≡ not_connected r (protocol_flag p) e ∷ l)
  Attempted p n l (ok refused_connect, h) =
      (e : PyError) × (notes h ≡ n) × (h.log ≡ not_connected r (protocol_flag p) e ∷ l)
  Attempted p n l (ok refused_probe, h) = (notes h).faults ≡ n.faults + 1
  Attempted p n l (err _, h) = ⊥

  probe_outcome-Attempted :
      (p : Protocol) (n : Notes) (l : Log) (x : Result Exc Bool × Host (W × Notes))
      → Probed n (connected r ∷ l) x
      → Attempted p n l (probe_outcome (noting d) r x.0 x.1)
  unfolding probe_outcome disconnect noting ◌>>=◌
  probe_outcome-Attempted p n l (ok true, h) q = q
  probe_outcome-Attempted p n l (ok false, h) q = ground arith
  probe_outcome-Attempted p n l (err e, h) q = ground arith

  attempt-Attempted :
      (p : Protocol) (h : Host (W × Notes))
      → Attempted p (notes h) h.log (attempt (noting d) r (absence_probe d select_eth2 r) p h)
  unfolding attempt
  attempt-Attempted p h =
      split_bind (Attempted p (notes h) h.log) (connect_round (noting d) r p) _ h
        (λ o h' e. go o h' (rw e at (connect_round-Connected p h)))
        (λ e h' q. rw q at (connect_round-Connected p h))
    where
      go :
          (o : Outcome) (h' : Host (W × Notes))
          → Connected p (notes h) h.log (ok o, h')
          → Attempted p (notes h) h.log (
              (elim o as (λ _. Action (Host (W × Notes)) Exc Outcome) [
                | worked ↦ probe_round (noting d) r (absence_probe d select_eth2 r)
                | slot_empty ↦ pure slot_empty
                | refused_connect ↦ pure refused_connect
                | refused_probe ↦ pure refused_probe
              ])
                h')
      go worked h' q =
          unfold probe_round ◌>>=◌ tried in
          probe_outcome-Attempted p (notes h) h.log (absence_probe d select_eth2 r h')
            (absence_probe-Probed (notes h) (connected r ∷ h.log) h' q.0 q.1)
      go slot_empty h' q = unfold pure in q
      go refused_connect h' q = unfold pure in q
      go refused_probe h' q = absurd q

  -- What the ladder comes to: a fault at least for each refused probe, and with none of them
  -- either the absence, on the first protocol that connected, or an empty slot.
  abbrev pub Seen :
      List Protocol → Bool → Notes → Log → Result Exc Protocol × Host (W × Notes) → Type 0
  Seen ps saw n l (ok _, h) =
      (k : Log) × Since (Missed r) l k
      × ((notes h).absent ≡ true)
      × Last r sw_file_not_found h.log
      × Since (Only select_eth2) (connected r ∷ k) h.log
  Seen ps saw n l (err (card_error no_card), h) =
      (saw ≡ false) × ((notes h).absent ≡ n.absent) × Vacant r h.log ps l
  Seen ps saw n l (err _, h) = Unit

  pub record Climbed (ps : List Protocol) (saw : Bool) (n : Notes) (l : Log)
      (x : Result Exc Protocol × Host (W × Notes)) : Type 0 where
    pub counted : n.faults ≤ (notes x.1).faults
    pub seen : (notes x.1).faults ≡ n.faults → Seen ps saw n l x

  -- One more refused connect in front.
  one_more :
      (p : Protocol) (ps : List Protocol) (saw now_saw : Bool) (n : Notes) (l : Log) (e : PyError)
      (x : Result Exc Protocol × Host (W × Notes))
      → (now_saw ≡ false → (saw ≡ false) × SaysNoCard e)
      → Seen ps now_saw n (not_connected r (protocol_flag p) e ∷ l) x
      → Seen (p ∷ ps) saw n l x
  one_more p ps saw now_saw n l e (ok _, h) f (k, m, a, b, c) =
      (k, Since-trans (more (missed (protocol_flag p) e) here) m, a, b, c)
  one_more p ps saw now_saw n l e (err (card_error no_card), h) f (w, a, v) =
      ((f w).0, a, round e (f w).1 v)
  one_more p ps saw now_saw n l e (err (card_error no_reader), h) f q = tt
  one_more p ps saw now_saw n l e (err (card_error no_applet), h) f q = tt
  one_more p ps saw now_saw n l e (err (card_error transport), h) f q = tt
  one_more p ps saw now_saw n l e (err value_error, h) f q = tt
  one_more p ps saw now_saw n l e (err (raised x), h) f q = tt

  pub climb-Climbed :
      (ps : List Protocol) (saw failed : Bool) (n : Notes) (l : Log) (h : Host (W × Notes))
      → notes h ≡ n
      → h.log ≡ l
      → Climbed ps saw n l (climb (noting d) r (absence_probe d select_eth2 r) ps saw failed h)
  unfolding climb
  climb-Climbed [] saw true n l h same at =
      unfold raise in record { counted = ground arith; seen = λ _. tt }
  climb-Climbed [] true false n l h same at =
      unfold raise in record { counted = ground arith; seen = λ _. tt }
  climb-Climbed [] false false n l h same at =
      unfold raise in
      record { counted = ground arith; seen = λ _. (refl, ap Notes.absent same, over (sym at)) }
  climb-Climbed (p ∷ ps) saw failed n l h same at =
      split_bind (Climbed (p ∷ ps) saw n l) (attempt (noting d) r probe p) _ h
        (λ o h' e. go (climb-Climbed ps) o h' (rw e at tried_one))
        (λ e h' q. absurd (rw q at tried_one))
    where
      probe : Action (Host (W × Notes)) Exc Bool
      probe = absence_probe d select_eth2 r

      tried_one : Attempted p n l (attempt (noting d) r probe p h)
      tried_one = rw (← same, ← at) (attempt-Attempted p h)

      go :
          ((saw failed : Bool) (n : Notes) (l : Log) (h : Host (W × Notes))
            → notes h ≡ n
            → h.log ≡ l
            → Climbed ps saw n l (climb (noting d) r probe ps saw failed h))
          → (o : Outcome) (h' : Host (W × Notes)) → Attempted p n l (ok o, h')
          → Climbed (p ∷ ps) saw n l (
              (elim o as (λ _. Action (Host (W × Notes)) Exc Protocol) [
                | slot_empty ↦ climb (noting d) r probe ps saw failed
                | refused_connect ↦ climb (noting d) r probe ps true failed
                | refused_probe ↦ climb (noting d) r probe ps true true
                | worked ↦ pure p
              ])
                h')
      go rec slot_empty h' (e, empty, q, s) =
          let later = rec saw failed n _ h' q s in
          record {
            counted = later.counted;
            seen = λ k. one_more p ps saw saw n l e _ (λ w. (w, empty)) (later.seen k);
          }
      go rec refused_connect h' (e, q, s) =
          let later = rec true failed n _ h' q s in
          record {
            counted = later.counted;
            seen = λ k. one_more p ps saw true n l e _ (λ w. cc) (later.seen k);
          }
      go rec refused_probe h' q =
          let later = rec true true (notes h') h'.log h' refl refl in
          record {
            counted = omega (arith, later.counted);
            seen = λ e. absurd (omega (arith, later.counted));
          }
      go rec worked h' q =
          unfold pure in
          record {
            counted = omega (arith, ap Notes.faults q.0);
            seen = λ _. (l, here, ap Notes.absent q.0, q.1, q.2);
          }
