-- ===== src/EthPolicy/Vacancy.antt =====
-- What the log says of a reader without a card.
use nuri_passkey_prf_smartca.Base.{
  ℕ, Bool, true, false, List, [], ◌∷◌, Option, ◌≡◌, ap, ◌==◌, inl, inr, Bool-cases, ==_iff, equal,
  equal_iff, ◌||◌, none, some, ◌⊎◌, codes,
}
use nuri_passkey_prf_smartca.Pcsc.Driver.{Reader, PyError, Event, not_connected}
use nuri_passkey_prf_smartca.Pcsc.Ladder.{Protocol, protocol_flag, is_no_card}
use nuri_passkey_prf_smartca.Pcsc.Trace.{Log}

-- The driver says that there is no card: by the class of its error, or by one of two codes.
pub SaysNoCard : PyError → Type 0
SaysNoCard e =
    (e.class_name ≡ codes "NoCardException")
    ⊎ ((e.hresult ≡ some 0x8010000c) ⊎ (e.hresult ≡ some 0x80100069))

pub is_no_card-SaysNoCard : (e : PyError) → is_no_card e ≡ true → SaysNoCard e
unfolding is_no_card SaysNoCard
is_no_card-SaysNoCard e h = elim (Bool-cases (equal e.class_name (codes "NoCardException"))) [
  | inl named ↦ inl ((equal_iff e.class_name (codes "NoCardException")).0 named)
  | inr other ↦ inr (coded e.hresult (rw other at h))
]
  where
    coded :
        (o : Option ℕ)
        → (elim o as (λ _. Bool) [ none ↦ false | some x ↦ x == 0x8010000c || x == 0x80100069 ])
          ≡ true
        → (o ≡ some 0x8010000c) ⊎ (o ≡ some 0x80100069)
    coded none q = cc
    coded (some x) q = elim (Bool-cases (x == 0x8010000c)) [
      | inl first ↦ inl (ap some ((==_iff x 0x8010000c).0 first))
      | inr not_first ↦ inr (ap some ((==_iff x 0x80100069).0 (rw not_first at q)))
    ]

-- A refused connect of this reader.
pub data Missed (r : Reader) : Event → Type 0 where
  missed : (f : Option ℕ) (e : PyError) → Missed r (not_connected r f e)

-- On each of the protocols in turn, the driver refused the connect because there is no card.
pub data Vacant (r : Reader) (m : Log) : List Protocol → Log → Type 0 where
  over : {l : Log} → l ≡ m → Vacant r m [] l
  round :
      {p : Protocol} {ps : List Protocol} {l : Log} (e : PyError)
      → SaysNoCard e
      → Vacant r m ps (not_connected r (protocol_flag p) e ∷ l)
      → Vacant r m (p ∷ ps) l
