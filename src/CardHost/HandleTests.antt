-- ===== src/CardHost/HandleTests.antt =====
-- `handle` at a card with a PIN: after `info`, the right PIN, hash and address are answered with a signature.
use nuri_passkey_prf_smartca.Base.{
  ℕ, ok, [], ◌∷◌, ◌++◌, some, ◌≡◌, refl, Bytes, pure, raise, lift, get, modify, raise_if, ◌>>=◌,
  tried, equal, starts_with, from_hex, to_hex, to_bytes, from_bytes,
}
use nuri_passkey_prf_smartca.CardHost.Signature.{Curve, Recoverable, hex_text}
use nuri_passkey_prf_smartca.CardHost.Process.{
  Process, signature, resolve_mode, response_mode, ok_response,
}
use nuri_passkey_prf_smartca.CardHost.Requests.{
  with_signer, construct, proved, reset_session, remember, show_card, do_info, signing_signer,
  current_key, answer_with, sign_by, sign_with_pin, verify_pin, dispatch, respond, handle,
}
use nuri_passkey_prf_smartca.CardHost.Signature.{
  normalize_low_s, index_of, read_key, word, check_digest, candidates_of, parity_of,
  verify_and_recover,
}
use nuri_passkey_prf_smartca.CardHost.State.{sw_error, check_sw}
use nuri_passkey_prf_smartca.CardHost.Signer.{
  compress, check_echo, parse_eth2_signature, transmit, tx, close, closing, open_as, open_card,
  read_state, key_of, load_identity, check_identity, sign_in_session, verify_pin_and_sign,
}
use nuri_passkey_prf_smartca.CardHost.Startup.{
  conclude, attest, load_attestation_from, load_attestation, new_signer,
}
use nuri_passkey_prf_smartca.CardHost.Values.{
  lookup, without, all_hex, nibbles, spelled, cased, utf8_char, utf8, parse_hash_strict, pin_buffer,
  checksum, parse_address, pubkey_to_address,
}
use nuri_passkey_prf_smartca.CardHost.Requested.{fresh}
use nuri_passkey_prf_smartca.CardHost.Proven.{Proven, handle-Proven}
use nuri_passkey_prf_smartca.CardHost.Tests.{
  toy, copies, hash, card, settings, request_info, request_pin, crypto, simulator, nothing_else,
}

-- The second key that recovery gives is that of the card.
abbrev recovering : Curve Bytes
recovering = record toy { recover = λ sig digest. some ((2 ∷ []) ∷ (4 ∷ copies 64 0) ∷ []) }

abbrev informed : Process ℕ
informed =
    (handle card settings recovering crypto hash simulator nothing_else request_info
      (fresh card settings recovering crypto hash simulator nothing_else 0)).1

-- For r = 5 and s = 7.
abbrev answer : Recoverable
answer = record {
  r = hex_text (to_bytes 32 5);
  s = hex_text (to_bytes 32 7);
  y_parity = 1;
  signature = hex_text (to_bytes 32 5 ++ to_bytes 32 7) ++ to_hex (28 ∷ []);
}

handle_run :
    (handle card settings recovering crypto hash simulator nothing_else request_pin informed).0.body
    ≡ ok (signature answer)
unfolding normalize_low_s index_of read_key word check_digest candidates_of parity_of
    verify_and_recover sw_error check_sw compress check_echo parse_eth2_signature transmit tx close
    closing open_as open_card read_state key_of load_identity check_identity sign_in_session
    verify_pin_and_sign conclude attest load_attestation_from load_attestation new_signer lookup
    without all_hex nibbles spelled cased utf8_char utf8 parse_hash_strict pin_buffer checksum
    parse_address pubkey_to_address resolve_mode response_mode ok_response with_signer construct
    proved reset_session remember show_card do_info signing_signer current_key answer_with sign_by
    sign_with_pin verify_pin dispatch respond handle pure raise lift get modify raise_if ◌>>=◌ tried
    equal starts_with from_hex to_hex to_bytes from_bytes
handle_run = refl

handle-Proven_example :
    Proven card settings recovering crypto hash simulator nothing_else request_pin informed answer
handle-Proven_example =
    handle-Proven card settings recovering crypto hash simulator nothing_else request_pin informed
      handle_run
