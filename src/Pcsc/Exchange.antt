-- ===== src/Pcsc/Exchange.antt =====
-- What an exchange with `transmit_raw` puts on the wire.
use nuri_passkey_prf_smartca.Base.{
  ℕ, zero, suc, ◌+◌, ◌≤◌, ◌<◌, [], ◌∷◌, ◌++◌, Option, some, ◌≡◌, refl, ap, sym, arith, Bytes, ◌==◌,
  length, get_or, drop_last, Result, ok, err, pure, Bool-cases, inl, inr, length-append,
  Result-cases, append-nil, Keeps, Keeps-pure, Keeps-if, Keeps-bind, split_bind,
}
use nuri_passkey_prf_smartca.Pcsc.Driver.{
  Reader, PyError, Exc, Event, connected, not_connected, sent, disconnected, Driver, Host, send,
}
use nuri_passkey_prf_smartca.Pcsc.Apdu.{
  with_le, get_response, max_chain, resend, fetch, transmit_raw, status_word,
}
use nuri_passkey_prf_smartca.Pcsc.Trace.{Log, more, LogSince}

-- A command with a data field and no Le yet: header, Lc, and that many bytes.
abbrev pub IsCase3 : Bytes → Type 0
IsCase3 cmd = (6 ≤ length cmd) × (length cmd ≡ 5 + get_or cmd 4 0)

-- The event leaves the readers alone but for connections, made or refused, the command `pre`, as it is or with Le
-- added, and GET RESPONSE.
pub data Only (pre : Bytes) : Event → Type 0 where
  connects : (r : Reader) → Only pre (connected r)
  misses : (r : Reader) (f : Option ℕ) (e : PyError) → Only pre (not_connected r f e)
  disconnects : (r : Reader) → Only pre (disconnected r)
  request :
      {r : Reader} {cmd : Bytes} {o : Option (ℕ × ℕ)} (tail : Bytes)
      → length tail ≤ 1
      → cmd ≡ pre ++ tail
      → Only pre (sent r cmd o)
  response :
      {r : Reader} {cmd : Bytes} {o : Option (ℕ × ℕ)} (n : ℕ)
      → cmd ≡ get_response n
      → Only pre (sent r cmd o)

get_or-append : (xs ys : Bytes) (i d : ℕ) → i < length xs → get_or (xs ++ ys) i d ≡ get_or xs i d
get_or-append [] ys i d h = absurd (omega arith)
get_or-append (x ∷ xs) ys zero d h = refl
get_or-append (x ∷ xs) ys (suc i) d h = get_or-append xs ys i d (omega arith)

drop_last-concat : (xs : Bytes) (y : ℕ) → drop_last (xs ++ y ∷ []) ≡ xs
drop_last-concat [] y = refl
drop_last-concat (x ∷ []) y = refl
drop_last-concat (x ∷ z ∷ xs) y = ap (◌∷◌ x) (drop_last-concat (z ∷ xs) y)

-- Asking again changes nothing but Le.
pub with_le-case3 : (pre : Bytes) (n : ℕ) → IsCase3 pre → with_le pre n ≡ pre ++ n ∷ []
unfolding with_le
with_le-case3 pre n h = ground arith

pub with_le-case4 :
    (pre : Bytes) (le n : ℕ) → IsCase3 pre → with_le (pre ++ le ∷ []) n ≡ pre ++ n ∷ []
unfolding with_le
with_le-case4 pre le n h =
    ground
      (arith, length-append pre (le ∷ []), get_or-append pre (le ∷ []) 4 0, drop_last-concat pre le)

-- The command as sent: with at most a Le behind it.
abbrev IsRequest : Bytes → Bytes → Type 0
IsRequest pre cmd = (tail : Bytes) × (length tail ≤ 1) × (cmd ≡ pre ++ tail)

with_le-IsRequest :
    (pre cmd : Bytes) (n : ℕ) → IsCase3 pre → IsRequest pre cmd → IsRequest pre (with_le cmd n)
with_le-IsRequest pre cmd n case3 ([], h, e) =
    (n ∷ [], omega arith, rw (e, append-nil pre) (with_le-case3 pre n case3))
with_le-IsRequest pre cmd n case3 (le ∷ [], h, e) =
    (n ∷ [], omega arith, rw e (with_le-case4 pre le n case3))
with_le-IsRequest pre cmd n case3 (a ∷ b ∷ t, h, e) = absurd (omega arith)

-- The latest event is an answer of this reader with the status word `sw`.
pub data Last (r : Reader) (sw : ℕ) (m : Log) : Type 0 where
  last :
      (l : Log) (cmd : Bytes) (a b : ℕ)
      → status_word a b ≡ sw
      → m ≡ sent r cmd (some (a, b)) ∷ l
      → Last r sw m

-- An invariant that every command on the wire keeps is kept by the exchange.
module _ {W : Type 0} (d : Driver W) (r : Reader) (pre : Bytes) (case3 : IsCase3 pre)
    {P : Host W → Type 0}
    (keep_request : (cmd : Bytes) → IsRequest pre cmd → Keeps P (send d r cmd))
    (keep_response : (n : ℕ) → Keeps P (send d r (get_response n))) where
  resend-Keeps :
      (left : ℕ) (cmd : Bytes) (reply : Bytes × ℕ × ℕ)
      → IsRequest pre cmd
      → Keeps P (resend d r left cmd reply)
  unfolding resend
  resend-Keeps zero cmd reply q = Keeps-pure reply
  resend-Keeps (suc left) cmd (found, sw1, sw2) q =
      let q' = with_le-IsRequest pre cmd sw2 case3 q in
      Keeps-if (sw1 == 0x6c) _ _
        (λ _. Keeps-bind _ _ (keep_request _ q') (λ t. resend-Keeps left _ t q'))
        (λ _. Keeps-pure _)

  fetch-Keeps : (left : ℕ) (reply : Bytes × ℕ × ℕ) → Keeps P (fetch d r left reply)
  unfolding fetch
  fetch-Keeps zero reply = Keeps-pure reply
  fetch-Keeps (suc left) (found, sw1, sw2) =
      Keeps-if (sw1 == 0x61) _ _
        (λ _. Keeps-bind _ _ (keep_response sw2) (λ t. fetch-Keeps left (found ++ t.0, t.1, t.2)))
        (λ _. Keeps-pure _)

  pub transmit_raw-Keeps_any : Keeps P (transmit_raw d r pre)
  unfolding transmit_raw
  transmit_raw-Keeps_any =
      let whole : IsRequest pre pre = ([], omega arith, sym (append-nil pre)) in
      Keeps-bind _ _ (keep_request pre whole) λ first.
        Keeps-bind _ _ (resend-Keeps max_chain pre first whole)
          λ settled. Keeps-bind _ _ (fetch-Keeps max_chain settled) λ t. Keeps-pure _

module _ {W : Type 0} (d : Driver W) (r : Reader) where
  -- One exchange adds one event.
  pub send-Keeps :
      {l : Log} (P : Event → Type 0) (cmd : Bytes)
      → ((o : Option (ℕ × ℕ)) → P (sent r cmd o))
      → Keeps (LogSince P l) (send d r cmd)
  unfolding send
  send-Keeps P cmd p = record {
    from = λ h s. elim (Result-cases (d.transmit r cmd h.world).0) [
      | inl (reply, e) ↦ rw (e, send) (more (p _) s)
      | inr (e, raised) ↦ rw (raised, send) (more (p _) s)
    ];
  }

  -- On the wire there is nothing but the command and GET RESPONSE.
  pub transmit_raw-Keeps :
      {l : Log} (pre : Bytes) → IsCase3 pre → Keeps (LogSince (Only pre) l) (transmit_raw d r pre)
  transmit_raw-Keeps pre case3 =
      transmit_raw-Keeps_any d r pre case3
        (λ cmd (tail, h, e). send-Keeps (Only pre) cmd (λ o. request tail h e))
        (λ n. send-Keeps (Only pre) _ (λ o. response n refl))

  abbrev Answered : Result Exc (Bytes × ℕ × ℕ) × Host W → Type 0
  Answered (ok (_, a, b), h) = Last r (status_word a b) h.log
  Answered (err _, h) = Unit

  send-Answered : (cmd : Bytes) (h : Host W) → Answered (send d r cmd h)
  unfolding send
  send-Answered cmd h = elim (Result-cases (d.transmit r cmd h.world).0) [
    | inl ((m, a, b), e) ↦ rw (e, send) (last h.log cmd a b refl refl)
    | inr (e, raised) ↦ rw (raised, send) tt
  ]

  resend-Answered :
      (left : ℕ) (cmd : Bytes) (t : Bytes × ℕ × ℕ) (h : Host W)
      → Last r (status_word t.1 t.2) h.log
      → Answered (resend d r left cmd t h)
  unfolding resend pure
  resend-Answered zero cmd t h k = k
  resend-Answered (suc left) cmd (found, a, b) h k = elim (Bool-cases (a == 0x6c)) [
    | inl again ↦ rw again (
        split_bind Answered (send d r (with_le cmd b)) _ h
          (λ t h' e. resend-Answered left _ t h' (rw e at (send-Answered (with_le cmd b) h)))
          (λ e h' q. tt))
    | inr settled ↦ rw settled k
  ]

  fetch-Answered :
      (left : ℕ) (t : Bytes × ℕ × ℕ) (h : Host W)
      → Last r (status_word t.1 t.2) h.log
      → Answered (fetch d r left t h)
  unfolding fetch pure
  fetch-Answered zero t h k = k
  fetch-Answered (suc left) (found, a, b) h k = elim (Bool-cases (a == 0x61)) [
    | inl pending ↦ rw pending (
        split_bind Answered (send d r (get_response b)) _ h
          (λ t h' e. fetch-Answered left _ h' (rw e at (send-Answered (get_response b) h)))
          (λ e h' q. tt))
    | inr settled ↦ rw settled k
  ]

  abbrev pub Concluded : Result Exc (Bytes × ℕ) × Host W → Type 0
  Concluded (ok (_, sw), h) = Last r sw h.log
  Concluded (err _, h) = Unit

  -- A status word that `transmit_raw` returns is that of the last exchange on the wire.
  pub transmit_raw-Concluded : (cmd : Bytes) (h : Host W) → Concluded (transmit_raw d r cmd h)
  unfolding transmit_raw pure
  transmit_raw-Concluded cmd h =
      split_bind Concluded (send d r cmd) _ h
        (λ first h₁ e₁.
          split_bind Concluded (resend d r max_chain cmd first) _ h₁
            (λ settled h₂ e₂.
              split_bind Concluded (fetch d r max_chain settled) _ h₂
                (λ t h₃ e₃. rw e₃ at (
                  fetch-Answered max_chain settled h₂ (
                    rw e₂ at
                      (resend-Answered max_chain cmd first h₁ (rw e₁ at (send-Answered cmd h))))))
                (λ _ _ _. tt))
            (λ _ _ _. tt))
        (λ _ _ _. tt)
