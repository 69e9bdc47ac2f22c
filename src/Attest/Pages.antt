-- ===== src/Attest/Pages.antt =====
-- `read_attestation`: the two requests, and the evidence that their answers make.
use nuri_passkey_prf_smartca.Base.{
  ℕ, zero, suc, ◌≤◌, true, ◌&&◌, [], ◌∷◌, ◌++◌, Bytes, ◌≡◌, refl, sym, ap, ◌∙◌, arith, leb, ltb,
  ==_iff, length, Result, ok, Action, lift, bind-split, check-split, not-false, pure-back,
  append_assoc,
}
use nuri_passkey_prf_smartca.Attest.Evidence.{
  Failure, refused, page_failed, Crypto, Info, Evidence, read_info, parse_info, parse_response,
}
use nuri_passkey_prf_smartca.Attest.Format.{info_onto, tail_onto}
use nuri_passkey_prf_smartca.Attest.Parse.{IsEvidence, read_info-run}
use nuri_passkey_prf_smartca.Attest.Whole.{evidence_bytes, parse_info_iff, parse_response_iff}
use nuri_passkey_prf_smartca.Attest.Exchange.{
  answered, Session, noted, page_request, send, whole_info, read_page, read_attestation,
}

pub lift-back :
    {S A : Type 0} {r : Result Failure A} {a : A} {s t : S}
    → lift r s ≡ (ok a, t)
    → (r ≡ ok a) × (t ≡ s)
unfolding lift
lift-back {S} {A} e =
    (ap (λ (x : Result Failure A × S). x.0) e, ap (λ (x : Result Failure A × S). x.1) (sym e))

-- The INFO in front of whatever follows.
info_onto-append :
    (i : Info) (rest more : Bytes) → info_onto i rest ++ more ≡ info_onto i (rest ++ more)
info_onto-append i rest more = simp append_assoc

module _ {C : Type 0} (transmit : Bytes → Action C Failure (Bytes × ℕ)) where
  abbrev Run : Type 0 → Type 0
  Run A = Result Failure A × Session C

  pub send-back :
      (apdu : Bytes) (s : Session C) {t : Session C} {a : Bytes × ℕ}
      → send transmit apdu s ≡ (ok a, t)
      → t.log ≡ answered apdu a.0 a.1 ∷ s.log
  unfolding send
  send-back apdu s {t} {a} e =
      let r : (transmit apdu s.card).0 ≡ ok a = ap (λ (x : Run (Bytes × ℕ)). x.0) e in
      sym (ap (λ (x : Run (Bytes × ℕ)). x.1.log) e) ∙ ap (λ x. noted apdu x ∷ s.log) r

module _ {K C : Type 0} (crypto : Crypto K) (transmit : Bytes → Action C Failure (Bytes × ℕ)) where
  whole_info-back :
      (page : ℕ) (a : Bytes) {s t : Session C} {u : Unit {0}}
      → whole_info crypto transmit page a s ≡ (ok u, t)
      → (t ≡ s) × (page ≡ 0 → (i : Info) × (parse_info crypto a ≡ ok i))
  unfolding whole_info
  whole_info-back zero a e =
      bind-split (lift (parse_info crypto a)) _ e
        λ i s₁ e₁ k₁. ((pure-back k₁).1 ∙ (lift-back e₁).1, λ _. (i, (lift-back e₁).0))
  whole_info-back (suc page) a e = ((pure-back e).1, λ q. absurd (omega arith))

  read_page-back :
      (cla : ℕ) (challenge : Bytes) (page limit : ℕ) (s : Session C) {t : Session C} {a : Bytes}
      → read_page crypto transmit cla challenge page limit s ≡ (ok a, t)
      → (t.log ≡ answered (page_request cla page challenge) a 0x9000 ∷ s.log)
        × (length a ≤ limit)
        × (page ≡ 0 → (i : Info) × (parse_info crypto a ≡ ok i))
  unfolding read_page
  read_page-back cla challenge page limit s {t} {a} e =
      bind-split (send transmit (page_request cla page challenge)) _ e λ (response, sw) s₁ e₁ k₁.
        check-split _ (page_failed page sw) _ k₁ λ c₁ k₂. check-split _ refused _ k₂ λ c₂ k₃.
          bind-split (whole_info crypto transmit page response) _ k₃ λ u s₂ e₂ k₄.
            let (p, q) = whole_info-back page response e₂ in
            let (same, still) = pure-back k₄ in
            let code : sw ≡ 0x9000 = (==_iff _ _).0 (not-false _ c₁) in
            rw (still, p, same)
              (
                send-back transmit (page_request cla page challenge) s e₁ ∙ rw code,
                size (length response) (not-false _ c₂),
                q,
              )
    where
      size : (n : ℕ) → (ltb 0 n && leb n limit) ≡ true → n ≤ limit
      size n h = ground arith

  -- What the two answers come to, read as one evidence.
  joined :
      (first second : Bytes) (i : Info) (e : Evidence)
      → parse_info crypto first ≡ ok i
      → parse_response crypto (first ++ second) ≡ ok e
      → (first ≡ info_onto e.info []) × (second ≡ tail_onto e [])
  joined first second i e p q =
      let (w, b) = (parse_info_iff crypto first i).0 p in
      let (v, c) = (parse_response_iff crypto (first ++ second) e).0 q in
      let front : first ++ second ≡ info_onto i second = rw b (info_onto-append i [] second) in
      let one : read_info crypto (first ++ second) ≡ (ok i, second) =
        rw front (read_info-run crypto i second w) in
      let two : read_info crypto (first ++ second) ≡ (ok e.info, tail_onto e []) =
        rw c (read_info-run crypto e.info (tail_onto e []) v.info) in
      let both : (ok i, second) ≡ (ok e.info, tail_onto e []) = sym one ∙ two in
      let same : i ≡ e.info = cc (ap (λ (x : Result Failure Info × Bytes). x.0) both) in
      (rw (← same) b, ap (λ (x : Result Failure Info × Bytes). x.1) both)

  -- What `read_attestation` returns is the encoding of a well-formed evidence. It is just the answers to
  -- two requests, one for each page, with the given challenge of 32 bytes in both and nothing else sent:
  -- first INFO alone, of at most 170 bytes, and then what follows it, of at most 214.
  pub read_attestation-back :
      (cla : ℕ) (challenge : Bytes) (s : Session C) {t : Session C} {a : Bytes}
      → read_attestation crypto transmit cla challenge s ≡ (ok a, t)
      → (e : Evidence) × IsEvidence crypto e
        × (a ≡ evidence_bytes crypto e)
        × (t.log
            ≡ answered (page_request cla 1 challenge) (tail_onto e []) 0x9000
              ∷ answered (page_request cla 0 challenge) (info_onto e.info []) 0x9000
              ∷ s.log)
        × (length challenge ≡ 32)
        × (length (info_onto e.info []) ≤ 170)
        × (length (tail_onto e []) ≤ 214)
  unfolding read_attestation
  read_attestation-back cla challenge s {t} {a} q = check-split _ refused _ q λ c₁ k₁.
      check-split _ refused _ k₁ λ c₂ k₂.
        bind-split (read_page crypto transmit cla challenge 0 170) _ k₂ λ first s₁ e₁ k₃.
          bind-split (read_page crypto transmit cla challenge 1 214) _ k₃ λ second s₂ e₂ k₄.
            bind-split (lift (parse_response crypto (first ++ second))) _ k₄ λ e s₃ e₃ k₅.
              let (l₁, n₁, i) = read_page-back cla challenge 0 170 _ e₁ in
              let (l₂, n₂, _) = read_page-back cla challenge 1 214 _ e₂ in
              let (p, u) = lift-back e₃ in
              let (same, still) = pure-back k₅ in
              let (f, g) = joined first second (i refl).0 e (i refl).1 p in
              let (v, b) = (parse_response_iff crypto (first ++ second) e).0 p in
              (
                e,
                v,
                same ∙ b,
                ap (λ (x : Session C). x.log) (still ∙ u) ∙ l₂ ∙ rw (l₁, f, g) refl,
                (==_iff _ 32).0 (not-false _ c₁),
                rw f at n₁,
                rw g at n₂,
              )
