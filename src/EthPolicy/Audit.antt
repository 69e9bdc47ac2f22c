-- ===== src/EthPolicy/Audit.antt =====
-- What a passed `confirm_eth2_absent` has seen of every reader.
use nuri_passkey_prf_smartca.Base.{
  ℕ, ◌+◌, ◌≤◌, false, List, [], ◌∷◌, Option, none, ◌≡◌, refl, ap, arith, Bytes, Text, if◌then◌else◌,
  is_nil, Result, ok, err, pure, raise, tried, ◌>>=◌, split_bind, Bool-cases, Result-cases, inl,
  inr, Bool, true, ◌⊎◌, ◌∙◌,
}
use nuri_passkey_prf_smartca.Pcsc.Driver.{
  Reader, Exc, card_error, value_error, raised, no_card, no_reader, no_applet, transport, connected,
  disconnected, Driver, Host, Env, disconnect, list_readers,
}
use nuri_passkey_prf_smartca.Pcsc.Apdu.{select_apdu}
use nuri_passkey_prf_smartca.Pcsc.Ladder.{
  Protocol, default, t0, t1, full_ladder, protocol_ladder, select_readers, climb, connect_ladder,
}
use nuri_passkey_prf_smartca.Pcsc.Exchange.{Only, Last}
use nuri_passkey_prf_smartca.Pcsc.Trace.{Log, Since}
use nuri_passkey_prf_smartca.EthPolicy.{
  sw_file_not_found, EthExc, policy, downgrade_refused, Notes, Tally, noting, absence_probe,
  probe_reader, count_reader, audit_reader, audit, absence_plan, confirm_eth2_absent, is_clean,
}
use nuri_passkey_prf_smartca.EthPolicy.Gate.{select_eth2}
use nuri_passkey_prf_smartca.EthPolicy.Absence.{notes, Seen, climb-Climbed}
use nuri_passkey_prf_smartca.EthPolicy.Vacancy.{Missed, Vacant}

-- One reader as it was found, between two logs, and how many cards denied ETH2 (one or none): the
-- card in it answered SELECT ETH2 with 6A82 on the first protocol that connected, and was left; or
-- on every protocol of the ladder the driver refused the connect because there is no card.
pub data Slot (env : Env) (r : Reader) (l l' : Log) (n : ℕ) : Type 0 where
  says_absent :
      (k m : Log)
      → Since (Missed r) l k
      → Last r sw_file_not_found m
      → Since (Only select_eth2) (connected r ∷ k) m
      → l' ≡ disconnected r ∷ m
      → n ≡ 1
      → Slot env r l l' n
  no_card_found :
      (ps : List Protocol) (m : Log)
      → protocol_ladder none env ≡ ok ps
      → Vacant r m ps l
      → l' ≡ disconnected r ∷ m
      → n ≡ 0
      → Slot env r l l' n

-- The readers in turn, each as one of these, and how many cards denied ETH2.
pub data Audited (env : Env) (l' : Log) : List Reader → Log → ℕ → Type 0 where
  done : {l : Log} → l ≡ l' → Audited env l' [] l 0
  next :
      {r : Reader} {rs : List Reader} {l m : Log} {a b : ℕ}
      → Slot env r l m a
      → Audited env l' rs m b
      → Audited env l' (r ∷ rs) l (a + b)

-- The ladder is a list of protocols, or the variable that chooses it is not understood.
protocol_ladder-cases :
    (env : Env)
    → ((ps : List Protocol) × (protocol_ladder none env ≡ ok ps))
      ⊎ (protocol_ladder none env ≡ err value_error)
protocol_ladder-cases env = elim (Result-cases (protocol_ladder none env)) [
  | inl (ps, e) ↦ inl (ps, e)
  | inr (x, e) ↦ inr (e ∙ ap err (only x e))
]
  where
    chosen :
        (a b c d : Bool) (x : Exc)
        → (if a
            then ok full_ladder
            else if b
            then ok (t0 ∷ [])
            else if c
            then ok (t1 ∷ [])
            else if d
            then ok (default ∷ [])
            else err value_error)
          ≡ err x
        → x ≡ value_error
    chosen true b c d x e = cc
    chosen false true c d x e = cc
    chosen false false true d x e = cc
    chosen false false false true x e = cc
    chosen false false false false x e = cc

    only : (x : Exc) → protocol_ladder none env ≡ err x → x ≡ value_error
    only x e = unfold protocol_ladder in chosen _ _ _ _ x e

module _ {W : Type 0} (d : Driver W) (env : Env) where
  -- What the ladder comes to, with the protocols that it has.
  abbrev Found : Reader → Notes → Log → Result Exc Protocol × Host (W × Notes) → Type 0
  Found r n l (err (card_error no_card), h) =
      (ps : List Protocol) × (protocol_ladder none env ≡ ok ps)
      × ((notes d r h).absent ≡ n.absent)
      × Vacant r h.log ps l
  Found r n l x = Seen d r [] false n l x

  record Laddered (r : Reader) (n : Notes) (l : Log) (x : Result Exc Protocol × Host (W × Notes))
      : Type 0 where
    counted : n.faults ≤ (notes d r x.1).faults
    seen : (notes d r x.1).faults ≡ n.faults → Found r n l x

  climbed-Found :
      (r : Reader) (n : Notes) (l : Log) (ps : List Protocol)
      (x : Result Exc Protocol × Host (W × Notes))
      → protocol_ladder none env ≡ ok ps
      → Seen d r ps false n l x
      → Found r n l x
  climbed-Found r n l ps (ok _, h) e s = s
  climbed-Found r n l ps (err (card_error no_card), h) e (_, a, v) = (ps, e, a, v)
  climbed-Found r n l ps (err (card_error no_reader), h) e s = tt
  climbed-Found r n l ps (err (card_error no_applet), h) e s = tt
  climbed-Found r n l ps (err (card_error transport), h) e s = tt
  climbed-Found r n l ps (err value_error, h) e s = tt
  climbed-Found r n l ps (err (raised x), h) e s = tt

  connect_ladder-Laddered :
      (r : Reader) (h : Host (W × Notes))
      → Laddered r
          (notes d r h)
          h.log
          (connect_ladder (noting d) env r (absence_probe d select_eth2 r) h)
  unfolding connect_ladder ◌>>=◌
  connect_ladder-Laddered r h = elim (protocol_ladder-cases env) [
    | inl (ps, e) ↦
        let c = climb-Climbed d r ps false false (notes d r h) h.log h refl refl in
        rw e (record {
          counted = c.counted;
          seen = λ q.
              climbed-Found r (notes d r h) h.log ps
                (climb (noting d) r (absence_probe d select_eth2 r) ps false false h) e (c.seen q);
        })
    | inr e ↦ rw e (record { counted = omega arith; seen = λ _. tt })
  ]

  -- No new fault after the loop's body, and then what the body has seen.
  record Counted (r : Reader) (t : Tally) (l : Log) (t' : Tally) (l' : Log) : Type 0 where
    counted : t.faults ≤ t'.faults
    slot : t'.faults ≡ t.faults → (n : ℕ) × (t'.confirmed ≡ t.confirmed + n) × Slot env r l l' n

  abbrev before : Tally → Notes
  before t = record { faults = t.faults; absent = false }

  count_reader-Counted :
      (r : Reader) (t : Tally) (l : Log) (x : Result Exc Protocol × Host (W × Notes))
      → Laddered r (before t) l x
      → Counted r t l (count_reader d x.0 (notes d r x.1) t) (disconnected r ∷ x.1.log)
  unfolding count_reader
  count_reader-Counted r t l (ok p, h) c = record {
    counted = ground arith;
    slot = λ e.
        let s = c.seen (ground arith) in
        (1, ground (arith, s.2), says_absent s.0 h.log s.1 s.3 s.4 refl refl);
  }
  count_reader-Counted r t l (err (card_error no_card), h) c = record {
    counted = ground arith;
    slot = λ e.
        let s = c.seen (ground arith) in
        (0, ground (arith, s.2), no_card_found s.0 h.log s.1 s.3 refl refl);
  }
  count_reader-Counted r t l (err _, h) c = record {
    counted = ground (arith, c.counted);
    slot = λ e. absurd (ground (arith, c.counted));
  }

  audit_reader-Counted :
      (r : Reader) (t : Tally) (h : Host W)
      → let (res, h') = audit_reader d env select_eth2 r t h in
        (t' : Tally) × (res ≡ ok t') × Counted r t h.log t' h'.log
  unfolding audit_reader probe_reader disconnect noting ◌>>=◌ tried
  audit_reader-Counted r t h =
      let start : Host (W × Notes) = record { world = (h.world, before t); log = h.log } in
      let x = connect_ladder (noting d) env r (absence_probe d select_eth2 r) start in
      (
        count_reader d x.0 (notes d r x.1) t,
        refl,
        count_reader-Counted r t h.log x (connect_ladder-Laddered r start),
      )

  -- The loop over the readers never raises, and forgets no fault.
  record Tallied (rs : List Reader) (t : Tally) (l : Log) (t' : Tally) (l' : Log) : Type 0 where
    counted : t.faults ≤ t'.faults
    slots :
        t'.faults ≡ t.faults → (n : ℕ) × (t'.confirmed ≡ t.confirmed + n) × Audited env l' rs l n

  audit-Tallied :
      (rs : List Reader) (t : Tally) (h : Host W)
      → let (res, h') = audit d env select_eth2 rs t h in
        (t' : Tally) × (res ≡ ok t') × Tallied rs t h.log t' h'.log
  unfolding audit ◌>>=◌
  audit-Tallied [] t h =
      (t, refl, record { counted = omega arith; slots = λ _. (0, omega arith, done refl) })
  audit-Tallied (r ∷ rs) t h =
      let (t₁, e₁, c₁) = audit_reader-Counted r t h in
      let h₁ = (audit_reader d env select_eth2 r t h).1 in
      let (t₂, e₂, c₂) = audit-Tallied rs t₁ h₁ in
      rw e₁ (
        t₂,
        e₂,
        record {
          counted = omega (arith, c₁.counted, c₂.counted);
          slots = λ e.
              let (a, p, s) = c₁.slot (omega (arith, c₁.counted, c₂.counted)) in
              let (b, q, ss) = c₂.slots (omega (arith, c₁.counted, c₂.counted)) in
              (a + b, omega arith, next s ss);
        },
      )

  -- What `confirm_eth2_absent` has seen when it returns: the readers that the driver listed and
  -- the hint selects, one after the other, and at least one card that denied ETH2.
  pub record AbsenceSeen (reader : Option Text) (h : Host W) (h' : Host W) : Type 0 where
    pub all : List Reader
    pub listed : (d.readers h.world).0 ≡ ok all
    pub denials : ℕ
    pub denied : 1 ≤ denials
    pub slots : Audited env h'.log (select_readers env all reader) h.log denials

  abbrev pub Absence : Option Text → Host W → Result EthExc (Unit {0}) × Host W → Type 0
  Absence reader h (ok _, h') = AbsenceSeen reader h h'
  Absence reader h (err _, h') = Unit

  abbrev Planned : Option Text → Host W → Result EthExc (List Reader × Bytes) × Host W → Type 0
  Planned reader h (ok (rs, select), h') =
      (all : List Reader) × ((d.readers h.world).0 ≡ ok all)
      × (rs ≡ select_readers env all reader)
      × (select ≡ select_eth2)
      × (h'.log ≡ h.log)
  Planned reader h (err _, h') = Unit

  list_readers-cases :
      (h : Host W)
      → ((list_readers d h).0 ≡ (elim (d.readers h.world).0 as (λ _. Result Exc (List Reader)) [
        | ok all ↦ ok all
        | err e ↦ err (raised e)
      ]))
        × ((list_readers d h).1.log ≡ h.log)
  unfolding list_readers
  list_readers-cases h = (ground arith, ground arith)

  absence_plan-Planned :
      (reader : Option Text) (h : Host W) → Planned reader h (absence_plan d env reader h)
  unfolding absence_plan select_apdu ◌>>=◌ tried
  absence_plan-Planned reader h = elim (Result-cases (d.readers h.world).0) [
    | inl (all, e) ↦
        let listed : (list_readers d h).0 ≡ ok all = rw e at (list_readers-cases h).0 in
        rw (listed, absence_plan) (all, e, refl, refl, (list_readers-cases h).1)
    | inr (q, e) ↦
        let failed : (list_readers d h).0 ≡ err (raised q) = rw e at (list_readers-cases h).0 in
        rw (failed, absence_plan) tt
  ]

  audited-Absence :
      (reader : Option Text) (h h₁ : Host W) (rs : List Reader) (select : Bytes)
      → Planned reader h (ok (rs, select), h₁)
      → Absence reader h (
          (do
            t ← audit d env select rs (record { faults = 0; confirmed = 0 })
            if is_clean d t then pure tt else raise (policy downgrade_refused))
            h₁)
  unfolding ◌>>=◌
  audited-Absence reader h h₁ rs select (all, listed, chosen, command, same) =
      let (t, e, c) = audit-Tallied rs (record { faults = 0; confirmed = 0 }) h₁ in
      rw command (
        rw e (elim (Bool-cases (is_clean d t)) [
          | inl clean ↦
              let none_new : t.faults ≡ 0 = ground arith in
              let (n, p, ss) = c.slots none_new in
              rw clean (record {
                all = all;
                listed = listed;
                denials = n;
                denied = ground arith;
                slots = rw (← chosen, ← same) ss;
              })
          | inr unclean ↦ rw unclean tt
        ]))

  -- If `confirm_eth2_absent` returns, then every reader that it had to ask was found empty or with a card
  -- that answered SELECT ETH2 with 6A82 on the first protocol that connected. It was empty if the driver
  -- refused the connect on each protocol of the ladder with an error that says there is no card. Nothing
  -- but SELECT ETH2 and GET RESPONSE was sent to find that, and at least one card answered so.
  pub confirm-Absence :
      (reader : Option Text) (h : Host W) → Absence reader h (confirm_eth2_absent d env reader h)
  unfolding confirm_eth2_absent
  confirm-Absence reader h =
      split_bind (Absence reader h) (absence_plan d env reader) _ h
        (λ (rs, select) h₁ e₁.
          let p = rw e₁ at (absence_plan-Planned reader h) in
          unfold ◌>>=◌ in
          elim (Bool-cases (is_nil rs)) [
            | inl empty ↦ rw empty tt
            | inr some_reader ↦ rw some_reader (audited-Absence reader h h₁ rs select p)
          ])
        (λ _ _ _. tt)
