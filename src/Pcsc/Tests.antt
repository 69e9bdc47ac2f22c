-- ===== src/Pcsc/Tests.antt =====
-- Runs of scripts/nuri_pcsc.py's model on concrete input.
use nuri_passkey_prf_smartca.Base.{
  List, [], ◌∷◌, some, ◌≡◌, refl, arith, codes, ok, ◌>>=◌, pure, from_hex,
}
use nuri_passkey_prf_smartca.Pcsc.Driver.{sent, Driver, send}
use nuri_passkey_prf_smartca.Pcsc.Apdu.{
  with_le, get_response, resend, fetch, transmit_raw, select_apdu,
}
use nuri_passkey_prf_smartca.Pcsc.Ladder.{t1, protocol_ladder}
use nuri_passkey_prf_smartca.Pcsc.Script.{Answer, front, spare, scripted, host, plain_env}
use nuri_passkey_prf_smartca.Pcsc.Exchange.{Concluded, transmit_raw-Concluded}
use nuri_passkey_prf_smartca.Pcsc.Commands.{Command, encode, with_le-encode}
use nuri_passkey_prf_smartca.Pcsc.Chain.{settled, pending, transmit_raw-Serves}

-- A command with two bytes of data and Le = 0.
abbrev derive : Command
derive = record { cla = 0x80; ins = 0x10; p1 = 0; p2 = 0; body = 7 ∷ 9 ∷ []; le = some 0 }

-- Three bytes now, and two more in two parts.
abbrev three_parts : List Answer
three_parts = ok (1 ∷ 2 ∷ 3 ∷ [], 0x61, 2) ∷ ok (4 ∷ [], 0x61, 1) ∷ ok (5 ∷ [], 0x90, 0) ∷ []

-- T=0: the wrong Le, the answer after that, and a part more.
abbrev wrong_le : List Answer
wrong_le = ok ([], 0x6c, 2) ∷ ok (8 ∷ [], 0x61, 1) ∷ ok (9 ∷ [], 0x90, 0) ∷ []

abbrev d : Driver (List Answer)
d = scripted (front ∷ spare ∷ [])

parts-run :
    (transmit_raw d front (encode derive) (host three_parts)).0
    ≡ ok (1 ∷ 2 ∷ 3 ∷ 4 ∷ 5 ∷ [], 0x9000)
unfolding transmit_raw resend fetch send with_le pure ◌>>=◌
parts-run = refl

wrong_le-run : transmit_raw d front (encode derive) (host wrong_le) ≡ (
  ok (8 ∷ 9 ∷ [], 0x9000),
  record {
    world = [];
    log =
        sent front (get_response 1) (some (0x90, 0))
        ∷ sent front (encode (record derive { le = some 2 })) (some (0x61, 1))
        ∷ sent front (encode derive) (some (0x6c, 2))
        ∷ [];
  },
)
unfolding transmit_raw resend fetch send with_le pure ◌>>=◌
wrong_le-run = refl

select-run :
    select_apdu (codes "4E5552494554483201")
    ≡ ok (
        0x00 ∷ 0xa4 ∷ 0x04 ∷ 0x00 ∷ 9 ∷ 0x4e ∷ 0x55 ∷ 0x52 ∷ 0x49 ∷ 0x45 ∷ 0x54 ∷ 0x48 ∷ 0x32 ∷ 0x01
        ∷ [])
unfolding select_apdu from_hex
select-run = refl

ladder-run : protocol_ladder (some (codes " t1 ")) plain_env ≡ ok (t1 ∷ [])
unfolding protocol_ladder
ladder-run = refl

transmit_raw-Serves_example :
    let (res, h') = transmit_raw d front (encode derive) (host three_parts) in
    (res ≡ ok (1 ∷ 2 ∷ 3 ∷ 4 ∷ 5 ∷ [], 0x9000)) × (h'.world ≡ [])
transmit_raw-Serves_example =
    transmit_raw-Serves d front (encode derive) (host three_parts) {n = 2} {rest = 4 ∷ 5 ∷ []} refl
      (omega arith) (omega arith)
      (pending {rest = 5 ∷ []} refl refl refl
        (pending {rest = []} refl refl refl (settled (omega arith) refl refl refl)))

with_le-encode_example : with_le (encode derive) 32 ≡ encode (record derive { le = some 32 })
with_le-encode_example = with_le-encode derive 32

transmit_raw-Concluded_example :
    Concluded d front (transmit_raw d front (encode derive) (host wrong_le))
transmit_raw-Concluded_example = transmit_raw-Concluded d front (encode derive) (host wrong_le)
