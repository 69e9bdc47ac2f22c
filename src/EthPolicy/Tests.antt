-- ===== src/EthPolicy/Tests.antt =====
-- Runs of scripts/nuri_eth_policy.py's model on concrete input: a card with the legacy applet only in
-- the first reader, no card in the second.
use nuri_passkey_prf_smartca.Base.{
  List, [], ◌∷◌, none, ◌≡◌, ◌≢◌, refl, codes, ok, pure, raise, raise_if, lift, tried, ◌>>=◌,
}
use nuri_passkey_prf_smartca.Pcsc.Driver.{Driver, send, connect_with, disconnect, list_readers}
use nuri_passkey_prf_smartca.Pcsc.Apdu.{resend, fetch, transmit_raw, select_apdu}
use nuri_passkey_prf_smartca.Pcsc.Ladder.{
  Applet, default, protocol_ladder, select_readers, is_no_card, connect_outcome, connect_round,
  probe_outcome, probe_round, attempt, climb, connect_ladder, select_probe, try_readers,
  open_applet,
}
use nuri_passkey_prf_smartca.Pcsc.Script.{Answer, front, spare, scripted, host, plain_env, demo_env}
use nuri_passkey_prf_smartca.Pcsc.Exchange.{Only}
use nuri_passkey_prf_smartca.Pcsc.Trace.{Since}
use nuri_passkey_prf_smartca.EthPolicy.{
  eth1, eth1_demo_allowed, noting, note_fault, note_absent, require_eth1_demo, warn_eth1,
  absence_answer, absence_probe, probe_reader, count_reader, audit_reader, audit, absence_plan,
  confirm_eth2_absent, open_with, open_eth1, open_eth, open_eth1_demo,
}
use nuri_passkey_prf_smartca.EthPolicy.Gate.{select_eth2}
use nuri_passkey_prf_smartca.EthPolicy.Audit.{Absence, confirm-Absence}
use nuri_passkey_prf_smartca.EthPolicy.Downgrade.{
  Chosen, open_eth1_demo-Downgraded, open_eth-Chosen, open_eth-gate,
}
use nuri_passkey_prf_smartca.EthPolicy.Fallback.{Downgraded}

abbrev d : Driver (List Answer)
d = scripted (front ∷ spare ∷ [])

abbrev unknown_file : Answer
unknown_file = ok ([], 0x6a, 0x82)

-- ETH2 refused on each protocol, then denied to the audit, then ETH1 selected.
abbrev legacy_card : List Answer
legacy_card = unknown_file ∷ unknown_file ∷ unknown_file ∷ unknown_file ∷ ok ([], 0x90, 0) ∷ []

abbrev legacy_applet : Applet
legacy_applet = record { reader = front; protocol = default; aid_hex = codes "4E55524945544801" }

legacy-run : (open_eth d demo_env none (host legacy_card)).0 ≡ ok (legacy_applet, eth1)
unfolding open_eth open_with open_eth1 confirm_eth2_absent absence_plan audit audit_reader
    count_reader probe_reader absence_probe absence_answer warn_eth1 require_eth1_demo note_absent
    note_fault noting eth1_demo_allowed open_applet try_readers select_probe connect_ladder climb
    attempt probe_round probe_outcome connect_round connect_outcome is_no_card select_readers
    protocol_ladder select_apdu transmit_raw fetch resend send connect_with disconnect list_readers
    pure raise raise_if lift tried ◌>>=◌
legacy-run = refl

open_eth-Chosen_example :
    Chosen d demo_env none (host legacy_card) (open_eth d demo_env none (host legacy_card))
open_eth-Chosen_example = open_eth-Chosen d demo_env none (host legacy_card)

open_eth-gate_example :
    Since (Only select_eth2) [] (open_eth d plain_env none (host legacy_card)).1.log
    × ((a : Applet) → (open_eth d plain_env none (host legacy_card)).0 ≢ ok (a, eth1))
open_eth-gate_example = open_eth-gate d plain_env none (host legacy_card) (λ e. cc)

confirm-Absence_example :
    Absence d demo_env none
      (host (unknown_file ∷ []))
      (confirm_eth2_absent d demo_env none (host (unknown_file ∷ [])))
confirm-Absence_example = confirm-Absence d demo_env none (host (unknown_file ∷ []))

demo-run : (open_eth1_demo d demo_env none (host legacy_card)).0 ≡ ok legacy_applet
unfolding open_eth1_demo open_with open_eth1 confirm_eth2_absent absence_plan audit audit_reader
    count_reader probe_reader absence_probe absence_answer warn_eth1 require_eth1_demo note_absent
    note_fault noting eth1_demo_allowed open_applet try_readers select_probe connect_ladder climb
    attempt probe_round probe_outcome connect_round connect_outcome is_no_card select_readers
    protocol_ladder select_apdu transmit_raw fetch resend send connect_with disconnect list_readers
    pure raise raise_if lift tried ◌>>=◌
demo-run = refl

open_eth1_demo-Downgraded_example :
    Downgraded d demo_env none
      (host legacy_card)
      legacy_applet
      (open_eth1_demo d demo_env none (host legacy_card)).1
open_eth1_demo-Downgraded_example =
    open_eth1_demo-Downgraded d demo_env none (host legacy_card) legacy_applet demo-run
