-- ===== src/Pcsc/Commands.antt =====
-- `transmit_raw` asks again with the right Le: its edit of the bytes against commands by parts.
use nuri_passkey_prf_smartca.Base.{
  ℕ, [], ◌∷◌, ◌++◌, Option, none, some, ◌≡◌, refl, arith, Bytes, length, append-nil,
}
use nuri_passkey_prf_smartca.Pcsc.Apdu.{with_le}
use nuri_passkey_prf_smartca.Pcsc.Exchange.{with_le-case3, with_le-case4}

-- A short APDU by its parts; the data field is empty in the cases 1 and 2.
pub record Command : Type 0 where
  pub cla : ℕ
  pub ins : ℕ
  pub p1 : ℕ
  pub p2 : ℕ
  pub body : Bytes
  pub le : Option ℕ

abbrev pub encode_body : Bytes → Bytes
encode_body [] = []
encode_body (b ∷ bs) = length (b ∷ bs) ∷ b ∷ bs

abbrev pub encode_le : Option ℕ → Bytes
encode_le none = []
encode_le (some n) = n ∷ []

-- The bytes of the APDU, as ISO 7816-4 has them.
abbrev pub encode : Command → Bytes
encode c = (c.cla ∷ c.ins ∷ c.p1 ∷ c.p2 ∷ encode_body c.body) ++ encode_le c.le

encoded_by_parts :
    (cla ins p1 p2 n : ℕ) (body : Bytes) (le : Option ℕ)
    → with_le ((cla ∷ ins ∷ p1 ∷ p2 ∷ encode_body body) ++ encode_le le) n
      ≡ (cla ∷ ins ∷ p1 ∷ p2 ∷ encode_body body) ++ n ∷ []
encoded_by_parts cla ins p1 p2 n [] none = unfold with_le in refl
encoded_by_parts cla ins p1 p2 n [] (some le) = unfold with_le in refl
encoded_by_parts cla ins p1 p2 n (b ∷ bs) none =
    let pre : Bytes = cla ∷ ins ∷ p1 ∷ p2 ∷ length (b ∷ bs) ∷ b ∷ bs in
    rw (append-nil pre) (with_le-case3 pre n (omega arith))
encoded_by_parts cla ins p1 p2 n (b ∷ bs) (some le) =
    with_le-case4 (cla ∷ ins ∷ p1 ∷ p2 ∷ length (b ∷ bs) ∷ b ∷ bs) le n (omega arith)

-- In all four cases of a short APDU, what is sent again after 6CXX is the same command with Le = XX.
pub with_le-encode :
    (c : Command) (n : ℕ) → with_le (encode c) n ≡ encode (record c { le = some n })
with_le-encode c n = encoded_by_parts c.cla c.ins c.p1 c.p2 n c.body c.le
