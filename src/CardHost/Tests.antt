-- ===== src/CardHost/Tests.antt =====
-- The theorems on requests and addresses, at a toy curve.
use nuri_passkey_prf_smartca.Base.{
  ℕ, zero, suc, ◌+◌, true, false, [], ◌∷◌, none, some, Bytes, Text, codes, get_or, err, Option,
  Result, All, IsByte, arith, ◌≡◌, refl, ok, to_bytes, to_hex, pure, ◌++◌, ◌==◌, if◌then◌else◌,
  length,
}
use nuri_passkey_prf_smartca.Attest.Evidence.{Crypto}
use nuri_passkey_prf_smartca.CardHost.Signature.{valid, bad_signature, Curve}
use nuri_passkey_prf_smartca.CardHost.State.{Link, Settings, Identity, Fault, foreign}
use nuri_passkey_prf_smartca.CardHost.Values.{
  Value, text, number, object, bare, field, nibbles, spelled, parse_address, pubkey_to_address,
}
use nuri_passkey_prf_smartca.CardHost.Addresses.{parse_address-pubkey_to_address}
use nuri_passkey_prf_smartca.CardHost.Process.{Simulator}
use nuri_passkey_prf_smartca.CardHost.Guarded.{AllGuarded}
use nuri_passkey_prf_smartca.CardHost.Requested.{after_all, fresh, after_all-AllGuarded}

-- Keys are bytes; a signature is 64 bytes, and recovery gives two keys.
abbrev pub toy : Curve Bytes
toy = record {
  order = 101;
  from_string = λ bytes. some bytes;
  compressed = λ k. k;
  uncompressed = λ k. 4 ∷ k;
  verify_digest = λ k sig digest. if length sig == 64 then valid else bad_signature;
  recover = λ sig digest. some ((2 ∷ []) ∷ (3 ∷ []) ∷ []);
  decode_der = λ bytes. none;
}

abbrev pub copies : ℕ → ℕ → Bytes
copies zero x = []
copies (suc n) x = x ∷ copies n x

-- A hash of 32 bytes.
abbrev pub hash : Bytes → Bytes
hash bs = copies 32 0xab

pubkey_to_address_run :
    pubkey_to_address hash toy (3 ∷ []) tt
    ≡ (ok (codes "0xABABABABABABABABABABABABABABABABABABABAB"), tt)
unfolding pubkey_to_address spelled nibbles to_bytes to_hex pure
pubkey_to_address_run = refl

copies-IsByte : (n : ℕ) → All IsByte (copies n 0xab)
copies-IsByte zero = tt
copies-IsByte (suc n) = (omega arith, copies-IsByte n)

parse_address-pubkey_to_address_example :
    parse_address hash (text (codes "0xABABABABABABABABABABABABABABABABABABABAB")) tt
    ≡ (ok (codes "0xABABABABABABABABABABABABABABABABABABABAB"), tt)
parse_address-pubkey_to_address_example =
    parse_address-pubkey_to_address hash toy (λ bs. (refl, copies-IsByte 32)) (3 ∷ []) tt
      pubkey_to_address_run

-- An ETH2 applet with a PIN, which answers VERSION, PUBKEY and SIGN; the world is the number of commands.
abbrev pub reply_to : ℕ → Bytes
reply_to ins =
    if ins == 1
    then 2 ∷ 0 ∷ 0 ∷ 69 ∷ 84 ∷ 72 ∷ 50 ∷ 3 ∷ 5 ∷ []
    else if ins == 2
    then 4 ∷ copies 64 0
    else if ins == 4
    then to_bytes 32 5 ++ (to_bytes 32 7 ++ 4 ∷ copies 64 0)
    else []

abbrev pub card : Link ℕ
card = record {
  open_applet = λ aid reader w. (ok (codes "reader"), w);
  transmit = λ apdu w. (some (reply_to (get_or apdu 1 0), 0x9000), w + 1);
  close = λ w. w;
  eth2_absent = λ w. (true, w);
  read_file = λ path n w. (none, w);
  token_bytes = λ w. ([], w);
  monotonic = λ w. (0, w);
}

abbrev pub settings : Settings
settings = record {
  eth2_aid = codes "4E5552494554483201";
  allow_eth1_demo = none;
  card_sim = none;
  ca_file = none;
  nuri_reader = none;
  sim_flag = false;
}

abbrev pub request_info : Value
request_info =
    object
      (field (codes "id") (number (codes "1")) (field (codes "method") (text (codes "info")) bare))

abbrev pub request_pin : Value
request_pin = object (
    field (codes "method") (text (codes "verify_pin")) (
      field (codes "params")
        (object (
          field (codes "pin") (text (codes "1234")) (
            field (codes "hash")
              (text (codes "0x0000000000000000000000000000000000000000000000000000000000000001"))
              (field (codes "address") (text (codes "0xABABABABABABABABABABABABABABABABABABABAB"))
                bare))))
        bare))

abbrev pub crypto : Crypto Bytes
crypto = record {
  from_string = λ curve bytes. some bytes;
  from_pem = λ bytes. none;
  order = 1000;
  decode_der = λ sig. none;
  encode_der = λ r s. [];
  verify = λ k sig message. false;
}

abbrev pub simulator : Simulator
simulator = record { pubkey = 3 ∷ []; sign = λ digest. (5, 7) }

abbrev pub nothing_else : Text → Value → Option Bytes → Option Identity → ℕ → Result Fault Value × ℕ
nothing_else method params pin i w = (err foreign, w)

after_all-AllGuarded_example :
    AllGuarded toy card settings
      (after_all card settings toy crypto hash simulator nothing_else
        (request_info ∷ request_pin ∷ [])
        (fresh card settings toy crypto hash simulator nothing_else 0)).log
after_all-AllGuarded_example =
    after_all-AllGuarded card settings toy crypto hash simulator nothing_else
      (request_info ∷ request_pin ∷ []) 0
