-- ===== src/EthPolicy.antt =====
-- scripts/nuri_eth_policy.py: which Ethereum applet may be opened. `faults` is the number of the
-- source's fault messages.
pub mod Gate
pub mod Vacancy
pub mod Absence
pub mod Audit
pub mod Fallback
pub mod Downgrade
mod Tests
use nuri_passkey_prf_smartca.Base.{
  ℕ, suc, ◌+◌, Bool, true, false, ◌&&◌, not, List, [], ◌∷◌, Option, none, some, Bytes, Text, ◌==◌,
  equal, if◌then◌else◌, is_nil, codes, Result, ok, err, Action, ◌>>=◌, ◌>>◌, pure, raise, raise_if,
  tried,
}
use nuri_passkey_prf_smartca.Pcsc.Driver.{
  Reader, CardCode, no_card, no_applet, Exc, card_error, Driver, Host, Env, warned, disconnect,
  list_readers,
}
use nuri_passkey_prf_smartca.Pcsc.Apdu.{transmit_raw, select_apdu}
use nuri_passkey_prf_smartca.Pcsc.Ladder.{
  Protocol, select_readers, Applet, connect_ladder, open_applet,
}

abbrev pub eth2_aid : Text
eth2_aid = codes "4E5552494554483201"

abbrev pub eth1_aid : Text
eth1_aid = codes "4E55524945544801"

abbrev pub sw_file_not_found : ℕ
sw_file_not_found = 0x6a82

pub data PolicyCode : Type 0 where
  eth1_demo_disabled eth2_present downgrade_refused : PolicyCode

-- An `EthPolicyError`, or what nuri_pcsc raised.
pub data EthExc : Type 0 where
  policy : PolicyCode → EthExc
  pcsc : Exc → EthExc

pub data Kind : Type 0 where
  eth1 eth2 : Kind

unfoldable pub eth1_demo_allowed : Env → Bool
unfolding equal
eth1_demo_allowed env = elim env.nuri_allow_eth1_demo [
  | none ↦ false
  | some v ↦ equal v (codes "1")
]

-- What the probe of `confirm_eth2_absent` writes outside itself.
pub record Notes : Type 0 where
  pub faults : ℕ
  pub absent : Bool

-- The counts of the loop over the readers.
pub record Tally : Type 0 where
  pub faults : ℕ
  pub confirmed : ℕ

module _ {W : Type 0} where
  -- The driver, on a world that carries the probe's variables along.
  unfoldable pub noting : Driver W → Driver (W × Notes)
  noting d = record {
    readers = λ (w, n). let (res, w') = d.readers w in (res, (w', n));
    connect = λ r f (w, n). let (res, w') = d.connect r f w in (res, (w', n));
    transmit = λ r c (w, n). let (res, w') = d.transmit r c w in (res, (w', n));
    disconnect = λ r (w, n). (d.disconnect r w, n);
  }

  -- `faults.append(…)`
  unfoldable pub note_fault : Action (Host (W × Notes)) Exc (Unit {0})
  note_fault h =
      let (w, n) = h.world in (ok tt, record h { world = (w, record n { faults = n.faults + 1 }) })

  -- `absent = True`
  unfoldable pub note_absent : Action (Host (W × Notes)) Exc (Unit {0})
  note_absent h =
      let (w, n) = h.world in (ok tt, record h { world = (w, record n { absent = true }) })

  module _ (d : Driver W) where
    unfoldable pub require_eth1_demo : Env → Action (Host W) EthExc (Unit {0})
    unfolding eth1_demo_allowed
    require_eth1_demo env =
        if eth1_demo_allowed env then pure tt else raise (policy eth1_demo_disabled)

    unfoldable pub warn_eth1 : Action (Host W) EthExc (Unit {0})
    warn_eth1 h = (ok tt, record h { log = warned ∷ h.log })

    -- `probe` of `confirm_eth2_absent`.
    unfoldable pub absence_answer : Result Exc (Bytes × ℕ) → Action (Host (W × Notes)) Exc Bool
    absence_answer (err e) = note_fault >> raise e
    absence_answer (ok (_, sw)) =
        if sw == sw_file_not_found then note_absent >> pure true else note_fault >> pure false

    unfoldable pub absence_probe : Bytes → Reader → Action (Host (W × Notes)) Exc Bool
    absence_probe select r = tried {F = Exc} (transmit_raw (noting d) r select) >>= absence_answer

    -- `getattr(error, "code", None) == "NO_CARD" and len(faults) == before`
    abbrev pub is_empty_slot : Exc → Bool
    is_empty_slot (card_error no_card) = true
    is_empty_slot _ = false

    -- The `try` of the loop's body: the ladder, and the disconnect of its `finally`.
    unfoldable pub probe_reader :
        Env → Bytes → Reader → Action (Host (W × Notes)) Exc (Result Exc Protocol)
    probe_reader env select r = do
      res ← tried {F = Exc} (connect_ladder (noting d) env r (absence_probe select r))
      disconnect (noting d) r
      pure res

    -- The counts after the body of the loop, from what `probe_reader` came to.
    unfoldable pub count_reader : Result Exc Protocol → Notes → Tally → Tally
    count_reader res n t =
        let empty : Bool = elim res [
          | ok _ ↦ false
          | err e ↦ is_empty_slot e && n.faults == t.faults
        ] in
        let raised_fault : ℕ = elim res [ ok _ ↦ 0 | err _ ↦ if empty then 0 else 1 ] in
        let unconfirmed = if n.absent then 0 else if empty then 0 else 1 in
        record {
          faults = n.faults + raised_fault + unconfirmed;
          confirmed = t.confirmed + (if n.absent then 1 else 0);
        }

    unfoldable pub audit_reader : Env → Bytes → Reader → Tally → Action (Host W) EthExc Tally
    audit_reader env select r t h =
        let (res, h') = probe_reader env select r (record {
          world = (h.world, record { faults = t.faults; absent = false });
          log = h.log;
        }) in
        let (w, n) = h'.world in
        let after : Host W = record { world = w; log = h'.log } in
        elim res [
          | ok outcome ↦ (ok (count_reader outcome n t), after)
          | err e ↦ (err (pcsc e), after)
        ]

    unfoldable pub audit : Env → Bytes → List Reader → Tally → Action (Host W) EthExc Tally
    audit env select [] t = pure t
    audit env select (r ∷ rs) t = do t' ← audit_reader env select r t; audit env select rs t'

    abbrev pub is_clean : Tally → Bool
    is_clean t = t.faults == 0 && not (t.confirmed == 0)

    -- The readers to ask, and the command; whatever is raised on the way refuses the downgrade.
    unfoldable pub absence_plan : Env → Option Text → Action (Host W) EthExc (List Reader × Bytes)
    absence_plan env reader = do
      res ← tried {F = EthExc} (list_readers d)
      elim res [
        | err _ ↦ raise (policy downgrade_refused)
        | ok all ↦ elim (select_apdu eth2_aid) [
          | err _ ↦ raise (policy downgrade_refused)
          | ok select ↦ pure (select_readers env all reader, select)
        ]
      ]

    unfoldable pub confirm_eth2_absent : Env → Option Text → Action (Host W) EthExc (Unit {0})
    confirm_eth2_absent env reader = do
      (candidates, select) ← absence_plan env reader
      raise_if (is_nil candidates) (policy downgrade_refused)
      t ← audit env select candidates (record { faults = 0; confirmed = 0 })
      if is_clean t then pure tt else raise (policy downgrade_refused)

    -- `pcsc.open_applet`, whose errors pass through.
    unfoldable pub open_with : Env → Text → Option Text → Action (Host W) EthExc Applet
    open_with env aid reader = do
      res ← tried {F = EthExc} (open_applet d env aid reader)
      elim res [ ok a ↦ pure a | err e ↦ raise (pcsc e) ]

    -- `_open_eth1`
    unfoldable pub open_eth1 : Env → Option Text → Action (Host W) EthExc Applet
    open_eth1 env reader = do
      confirm_eth2_absent env reader
      applet ← open_with env eth1_aid reader
      warn_eth1
      pure applet

    unfoldable pub open_eth : Env → Option Text → Action (Host W) EthExc (Applet × Kind)
    open_eth env reader = do
      res ← tried {F = EthExc} (open_applet d env eth2_aid reader)
      elim res [
        | ok a ↦ pure (a, eth2)
        | err (card_error no_applet) ↦
            require_eth1_demo env >> (open_eth1 env reader >>= λ a. pure (a, eth1))
        | err e ↦ raise (pcsc e)
      ]

    unfoldable pub open_eth1_demo : Env → Option Text → Action (Host W) EthExc Applet
    open_eth1_demo env reader = do
      require_eth1_demo env
      res ← tried {F = EthExc} (open_applet d env eth2_aid reader)
      elim res [
        | ok a ↦ tried {F = EthExc} (disconnect d a.reader) >> raise (policy eth2_present)
        | err (card_error no_applet) ↦ open_eth1 env reader
        | err (card_error _) ↦ raise (policy downgrade_refused)
        | err e ↦ raise (pcsc e)
      ]
