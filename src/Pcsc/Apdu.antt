-- ===== src/Pcsc/Apdu.antt =====
-- scripts/nuri_pcsc.py: `transmit_raw` with the T=0 procedure bytes, and `select_apdu`.
use nuri_passkey_prf_smartca.Base.{
  ℕ, zero, suc, ◌+◌, ◌*◌, ◌/◌, Bool, ◌&&◌, ◌||◌, [], ◌∷◌, ◌++◌, none, some, Bytes, Text, leb, ◌==◌,
  if◌then◌else◌, length, take, get_or, drop_last, from_hex, Result, ok, err, Action, ◌>>=◌, pure,
}
use nuri_passkey_prf_smartca.Pcsc.Driver.{Reader, Exc, value_error, Driver, Host, send}

abbrev pub max_chain : ℕ
max_chain = 64

-- The command to send again after 6CXX: with Le = XX.
unfoldable pub with_le : Bytes → ℕ → Bytes
with_le cmd sw2 =
    if leb (length cmd) 5
    then take 4 cmd ++ sw2 ∷ []
    else if length cmd == 5 + get_or cmd 4 0
    then cmd ++ sw2 ∷ []
    else drop_last cmd ++ sw2 ∷ []

abbrev pub get_response : ℕ → Bytes
get_response sw2 = 0x00 ∷ 0xc0 ∷ 0x00 ∷ 0x00 ∷ sw2 ∷ []

-- `(sw1 << 8) | sw2`, on bytes.
abbrev pub status_word : ℕ → ℕ → ℕ
status_word sw1 sw2 = sw1 * 256 + sw2

module _ {W : Type 0} (d : Driver W) (r : Reader) where
  -- The loop on 6CXX: the first argument counts the retries left.
  unfoldable pub resend : ℕ → Bytes → Bytes × ℕ × ℕ → Action (Host W) Exc (Bytes × ℕ × ℕ)
  resend zero cmd reply = pure reply
  resend (suc left) cmd (found, sw1, sw2) =
      let again = (do t ← send d r (with_le cmd sw2); resend left (with_le cmd sw2) t) in
      if sw1 == 0x6c then again else pure (found, sw1, sw2)

  -- The loop on 61XX: GET RESPONSE, and the parts joined.
  unfoldable pub fetch : ℕ → Bytes × ℕ × ℕ → Action (Host W) Exc (Bytes × ℕ × ℕ)
  fetch zero reply = pure reply
  fetch (suc left) (found, sw1, sw2) =
      let next = (do t ← send d r (get_response sw2); fetch left (found ++ t.0, t.1, t.2)) in
      if sw1 == 0x61 then next else pure (found, sw1, sw2)

  unfoldable pub transmit_raw : Bytes → Action (Host W) Exc (Bytes × ℕ)
  transmit_raw apdu = do
    first ← send d r apdu
    settled ← resend max_chain apdu first
    (found, sw1, sw2) ← fetch max_chain settled
    pure (found, status_word sw1 sw2)

unfoldable pub select_apdu : Text → Result Exc Bytes
unfolding from_hex
select_apdu aid_hex = elim (from_hex aid_hex) [
  | none ↦ err value_error
  | some aid ↦
      if leb 5 (length aid) && leb (length aid) 16
      then ok (0x00 ∷ 0xa4 ∷ 0x04 ∷ 0x00 ∷ length aid ∷ aid)
      else err value_error
]

abbrev pub select_ok : ℕ → Bool
select_ok sw = sw == 0x9000 || sw / 256 == 0x61
