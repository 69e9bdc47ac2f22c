-- ===== src/Musig2Card/Discipline.antt =====
-- The object over its whole life: any calls of its methods, in any order, whether they return or raise.
use nuri_passkey_prf_smartca.Base.{
  ℕ, ◌+◌, ◌≤◌, Bool, true, List, [], ◌∷◌, Option, Bytes, ◌≡◌, arith,
}
use nuri_passkey_prf_smartca.Musig2Card.State.{Link, Session, Point, fresh}
use nuri_passkey_prf_smartca.Musig2Card.Access.{connect, close, ensure_pin, verify_pin, set_pin}
use nuri_passkey_prf_smartca.Musig2Card.Signing.{pubkey, keygen, nonces, finalize}
use nuri_passkey_prf_smartca.Musig2Card.Exchange.{finalizes, nonce_pairs, IsUnlocked}
use nuri_passkey_prf_smartca.Musig2Card.Validity.{
  IsValid, held, ensure_pin-Keeps, verify_pin-Keeps, set_pin-Keeps,
}
use nuri_passkey_prf_smartca.Musig2Card.Methods.{
  connect-Keeps, close-Keeps, pubkey-Keeps, keygen-Keeps, nonces-Keeps,
}
use nuri_passkey_prf_smartca.Musig2Card.Finalize.{finalize-Keeps}

-- A call of a public method of the object.
pub data Call : Type 0 where
  calls_connect calls_ensure_pin : Bool → Call
  calls_verify_pin calls_set_pin : Bytes → Call
  calls_close calls_pubkey calls_keygen calls_nonces : Call
  calls_finalize : Bytes → Bytes → ℕ → Bytes → Option Point → Option Point → Call

module _ {W : Type 0} (link : Link W) where
  -- The object after a call; what the call returns or raises is left out.
  abbrev pub after : Call → Session W → Session W
  after (calls_connect verify) s = (connect link verify s).1
  after (calls_ensure_pin strict) s = (ensure_pin link strict s).1
  after (calls_verify_pin pin) s = (verify_pin link pin s).1
  after (calls_set_pin pin) s = (set_pin link pin s).1
  after calls_close s = (close link s).1
  after calls_pubkey s = (pubkey link s).1
  after calls_keygen s = (keygen link s).1
  after calls_nonces s = (nonces link s).1
  after (calls_finalize a b parity e r_agg p_agg) s = (finalize link a b parity e r_agg p_agg s).1

  abbrev pub after_all : List Call → Session W → Session W
  after_all [] s = s
  after_all (c ∷ cs) s = after_all cs (after c s)

  after-IsValid : (c : Call) (s : Session W) → IsValid s → IsValid (after c s)
  after-IsValid (calls_connect verify) = (connect-Keeps link verify).from
  after-IsValid (calls_ensure_pin strict) = (ensure_pin-Keeps link strict).from
  after-IsValid (calls_verify_pin pin) = (verify_pin-Keeps link pin).from
  after-IsValid (calls_set_pin pin) = (set_pin-Keeps link pin).from
  after-IsValid calls_close = (close-Keeps link).from
  after-IsValid calls_pubkey = (pubkey-Keeps link).from
  after-IsValid calls_keygen = (keygen-Keeps link).from
  after-IsValid calls_nonces = (nonces-Keeps link).from
  after-IsValid (calls_finalize a b parity e r_agg p_agg) =
      (finalize-Keeps link a b parity e r_agg p_agg).from

  pub after_all-IsValid : (cs : List Call) (s : Session W) → IsValid s → IsValid (after_all cs s)
  after_all-IsValid [] s v = v
  after_all-IsValid (c ∷ cs) s v = after_all-IsValid cs (after c s) (after-IsValid c s v)

  fresh-IsValid : (given : Bool) (w : W) → IsValid (fresh given w)
  fresh-IsValid given w = record { discipline = omega arith; token_length = tt; unlocked = λ h. cc }

  -- Whatever methods are called on a new object, in whatever order, and whatever the card answers:
  -- FINALIZE commands of 231 bytes sent, and one more if a session token is in hand, are at most as
  -- many as the GET_NONCES commands that succeeded, so that no pair of nonces is used twice.
  pub finalize-once :
      (cs : List Call) (given : Bool) (w : W)
      → let s = after_all cs (fresh given w) in finalizes s.log + held s.token ≤ nonce_pairs s.log
  finalize-once cs given w =
      omega (arith, (after_all-IsValid cs (fresh given w) (fresh-IsValid given w)).discipline)

  -- Whatever methods are called on a new object, in whatever order, and whatever the card answers:
  -- if `pin_verified` holds, a VERIFY succeeded, and since then the applet was not selected anew and
  -- every command that was sent succeeded.
  pub verified-IsUnlocked :
      (cs : List Call) (given : Bool) (w : W)
      → let s = after_all cs (fresh given w) in s.pin_verified ≡ true → IsUnlocked s.log
  verified-IsUnlocked cs given w =
      (after_all-IsValid cs (fresh given w) (fresh-IsValid given w)).unlocked
