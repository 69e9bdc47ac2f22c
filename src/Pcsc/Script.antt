-- ===== src/Pcsc/Script.antt =====
-- A driver that answers from a list, for runs of the model on concrete input: a card in the first
-- reader, none in the second.
use nuri_passkey_prf_smartca.Base.{
  ℕ, List, [], ◌∷◌, none, some, Bytes, codes, ◌==◌, if◌then◌else◌, Result, ok, err,
}
use nuri_passkey_prf_smartca.Pcsc.Driver.{Reader, PyError, Driver, Host, Env}

abbrev pub Answer : Type 0
Answer = Result PyError (Bytes × ℕ × ℕ)

abbrev pub no_card_error : PyError
no_card_error = record { class_name = codes "NoCardException"; hresult = none }

abbrev pub removed_error : PyError
removed_error = record { class_name = codes "CardConnectionException"; hresult = some 0x80100069 }

abbrev pub front : Reader
front = record { id = 0; name = codes "Nuri Reader 0" }

abbrev pub spare : Reader
spare = record { id = 1; name = codes "Other Reader 1" }

abbrev pub next_answer : List Answer → Answer × List Answer
next_answer [] = (err removed_error, [])
next_answer (a ∷ w) = (a, w)

abbrev pub scripted : List Reader → Driver (List Answer)
scripted rs = record {
  readers = λ w. (ok rs, w);
  connect = λ r flag w. (if r.id == 0 then ok tt else err no_card_error, w);
  transmit = λ r cmd w. next_answer w;
  disconnect = λ r w. w;
}

abbrev pub host : List Answer → Host (List Answer)
host w = record { world = w; log = [] }

abbrev pub plain_env : Env
plain_env = record { nuri_reader = none; nuri_pcsc_protocol = none; nuri_allow_eth1_demo = none }

abbrev pub demo_env : Env
demo_env = record plain_env { nuri_allow_eth1_demo = some (codes "1") }
