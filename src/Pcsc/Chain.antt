-- ===== src/Pcsc/Chain.antt =====
-- A response in parts is put together.
use mathlib.Core.List.{append_assoc}
use nuri_passkey_prf_smartca.Base.{
  ℕ, zero, suc, ◌≤◌, [], ◌∷◌, ◌++◌, some, ◌≡◌, ◌≢◌, refl, ap, ◌∙◌, arith, Bytes, Bool-cases, inl,
  inr, ◌==◌, append-nil, Result, ok, ◌>>=◌, pure,
}
use nuri_passkey_prf_smartca.Pcsc.Driver.{Reader, Exc, sent, Driver, Host, send}
use nuri_passkey_prf_smartca.Pcsc.Apdu.{get_response, status_word, resend, fetch, transmit_raw}

module _ {W : Type 0} (d : Driver W) (r : Reader) where
  -- In the state `w`, after the status word `(a, b)`, the card still serves the bytes `rest` by `n`
  -- GET RESPONSE commands, and ends with the status word `(c, e)` in the state `w'`.
  pub data Serves (c e : ℕ) (w' : W) : W → ℕ → ℕ → Bytes → ℕ → Type 0 where
    settled : {w : W} {a b : ℕ} → c ≢ 0x61 → w ≡ w' → a ≡ c → b ≡ e → Serves c e w' w a b [] 0
    pending :
        {w w₁ : W} {a b a₁ b₁ n : ℕ} {all part rest : Bytes}
        → a ≡ 0x61
        → d.transmit r (get_response b) w ≡ (ok (part, a₁, b₁), w₁)
        → all ≡ part ++ rest
        → Serves c e w' w₁ a₁ b₁ rest n
        → Serves c e w' w a b all (suc n)

  -- The call returned this, in this state of the world.
  abbrev pub Returned : Bytes → ℕ → ℕ → W → Result Exc (Bytes × ℕ × ℕ) × Host W → Type 0
  Returned out c e w x = (x.0 ≡ ok (out, c, e)) × (x.1.world ≡ w)

  send-eq :
      (cmd : Bytes) (h : Host W) {t : Bytes × ℕ × ℕ} {w : W}
      → d.transmit r cmd h.world ≡ (ok t, w)
      → send d r cmd h ≡ (ok t, record { world = w; log = sent r cmd (some (t.1, t.2)) ∷ h.log })
  unfolding send
  send-eq cmd h e =
      rw (ap (λ (x : Result _ (Bytes × ℕ × ℕ) × W). x.0) e, send)
        (rw (ap (λ (x : Result _ (Bytes × ℕ × ℕ) × W). x.1) e))

  fetch-Serves :
      (left : ℕ) (found : Bytes) (h : Host W) {c e : ℕ} {w' w : W} {a b : ℕ} {rest : Bytes} {n : ℕ}
      → h.world ≡ w
      → n ≤ left
      → Serves c e w' w a b rest n
      → Returned (found ++ rest) c e w' (fetch d r left (found, a, b) h)
  unfolding fetch pure ◌>>=◌
  fetch-Serves zero found h at fits (settled ne same p q) = (rw (append-nil found, p, q), at ∙ same)
  fetch-Serves (suc left) found h {c} at fits (settled ne same p q) =
      elim (Bool-cases (c == 0x61)) [
        | inl pending_still ↦ absurd (ne (ground arith))
        | inr over ↦ rw (p, over, append-nil found, q) (refl, at ∙ same)
      ]
  fetch-Serves zero found h at fits (pending p q al s) = absurd (omega arith)
  fetch-Serves (suc left) found h {c} {e} {w' = w'} {w} {b = b} at fits
        (pending {w₁ = w₁} {a₁ = a₁} {b₁ = b₁} {part = part} {rest = rest} p q al s) =
      let h₁ : Host W = record {
        world = w₁;
        log = sent r (get_response b) (some (a₁, b₁)) ∷ h.log;
      } in
      let step : send d r (get_response b) h ≡ (ok (part, a₁, b₁), h₁) =
        send-eq (get_response b) h (rw at q) in
      rw (p, al)
        (rw step (
          rw (← append_assoc found part rest)
            (fetch-Serves left (found ++ part) h₁ refl (omega arith) s)))

  -- If the card answers the command with `(first, a, b)`, a status word other than 6CXX, and serves
  -- the bytes `rest` by at most 64 GET RESPONSE commands, then `transmit_raw` returns all of the
  -- response in order, with the last status word.
  pub transmit_raw-Serves :
      (apdu : Bytes) (h : Host W) {c e : ℕ} {w w' : W} {a b n : ℕ} {first rest : Bytes}
      → d.transmit r apdu h.world ≡ (ok (first, a, b), w)
      → a ≢ 0x6c
      → n ≤ 64
      → Serves c e w' w a b rest n
      → let (res, h') = transmit_raw d r apdu h in
        (res ≡ ok (first ++ rest, status_word c e)) × (h'.world ≡ w')
  unfolding transmit_raw
  transmit_raw-Serves apdu h {c} {e} {w} {w'} {a} {b} {first = first} {rest = rest} answer ne fits
        s =
      let h₁ : Host W = record { world = w; log = sent r apdu (some (a, b)) ∷ h.log } in
      let step : send d r apdu h ≡ (ok (first, a, b), h₁) = send-eq apdu h answer in
      let no_retry : resend d r 64 apdu (first, a, b) h₁ ≡ (ok (first, a, b), h₁) =
        unfold resend pure in ground arith in
      let all = fetch-Serves 64 first h₁ refl fits s in
      unfold ◌>>=◌ in rw step (rw no_retry (rw all.0 (refl, all.1)))
