-- ===== src/CardTotp/Tests.antt =====
-- Runs of scripts/card-totp.py's model on concrete input.
use nuri_passkey_prf_smartca.Base.{◌≤◌, [], ◌∷◌, some, Bytes, Text, ◌≡◌, refl, arith, codes, length}
use nuri_passkey_prf_smartca.CardTotp.{truncate, counter_bytes, put_apdu, calc_apdu}
use nuri_passkey_prf_smartca.CardTotp.Put.{read_put, put_apdu-read_put}
use nuri_passkey_prf_smartca.CardTotp.Code.{truncate-length}

-- The digest of the example in RFC 4226, 5.4.
abbrev digest : Bytes
digest =
    0x1f ∷ 0x86 ∷ 0x98 ∷ 0x69 ∷ 0x0e ∷ 0x02 ∷ 0xca ∷ 0x16 ∷ 0x61 ∷ 0x85 ∷ 0x50 ∷ 0xef ∷ 0x7f ∷ 0x19
    ∷ 0xda ∷ 0x8e ∷ 0x94 ∷ 0x5b ∷ 0x55 ∷ 0x5a ∷ []

code-run : truncate 6 digest ≡ some (codes "872921")
unfolding truncate
code-run = refl

counter-run : counter_bytes 30 59 ≡ some (0 ∷ 0 ∷ 0 ∷ 0 ∷ 0 ∷ 0 ∷ 0 ∷ 1 ∷ [])
unfolding counter_bytes
counter-run = refl

calc-run : calc_apdu (7 ∷ 9 ∷ []) ≡ 0 ∷ 2 ∷ 0 ∷ 0 ∷ 2 ∷ 7 ∷ 9 ∷ 0 ∷ []
unfolding calc_apdu
calc-run = refl

truncate-length_example : (code : Text) × (truncate 6 digest ≡ some code) × (length code ≡ 6)
truncate-length_example = truncate-length 6 digest (omega arith) refl

put_apdu-read_put_example :
    (apdu : Bytes) × (put_apdu (codes "1234") (9 ∷ 8 ∷ 7 ∷ []) ≡ some apdu)
    × (read_put apdu ≡ some (codes "1234", 9 ∷ 8 ∷ 7 ∷ []))
    × (length apdu ≤ 260)
put_apdu-read_put_example =
    put_apdu-read_put (codes "1234") (9 ∷ 8 ∷ 7 ∷ []) (omega arith) (omega arith) (omega arith)
      (omega arith)
