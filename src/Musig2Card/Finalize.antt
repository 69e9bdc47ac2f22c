-- ===== src/Musig2Card/Finalize.antt =====
-- `finalize` keeps the invariant: it wants a token, and spends it.
use nuri_passkey_prf_smartca.Base.{
  ℕ, Bool, true, false, [], ◌∷◌, ◌++◌, Option, none, some, Bytes, ◌≡◌, ◌∙◌, refl, ap, arith, ◌==◌,
  if◌then◌else◌, length, Result, ok, err, Action, pure, raise, raise_if, get, ◌>>=◌, Bool-cases,
  inl, inr, split_bind, Keeps, Keeps-raise, Keeps-raise_if, Keeps-lift, Keeps-bind, ==_iff,
}
use nuri_passkey_prf_smartca.Musig2Card.State.{
  Link, no_token, Session, Fault, Point, pin_protocol, pin_finalize_len, legacy_finalize_len,
}
use nuri_passkey_prf_smartca.Musig2Card.Signing.{
  with_token, checked_payload, session_part, payload, finalize,
}
use nuri_passkey_prf_smartca.Musig2Card.Validity.{IsValid, held, ensure_pin-Keeps}
use nuri_passkey_prf_smartca.Musig2Card.Methods.{send_finalize-IsValid}

module _ {W : Type 0} (link : Link W) where
  -- If the method returns, a token is in hand.
  record Arms {A : Type 0} (m : Action (Session W) Fault A) : Type 0 where
    from : (s : Session W) (a : A) → (m s).0 ≡ ok a → held (m s).1.token ≡ 1

  Arms-bind :
      {A B : Type 0} (m : Action (Session W) Fault A) (f : A → Action (Session W) Fault B)
      → ((a : A) → Arms (f a))
      → Arms (m >>= f)
  Arms-bind m f k = record {
    from = λ s.
        split_bind (λ x. (b : _) → x.0 ≡ ok b → held x.1.token ≡ 1) m f s
          (λ a s' e b good. (k a).from s' b good) (λ e s' q b good. cc);
  }

  -- `with_token` changes nothing, and returns only with a token in hand.
  pub with_token-lem :
      (points : Bytes) (s : Session W)
      → let x = with_token link points s in
        (x.1 ≡ s) × ((a : Bytes) → x.0 ≡ ok a → held s.token ≡ 1)
  unfolding with_token
  with_token-lem points s = go s.token
    where
      go :
          (o : Option Bytes)
          → let x = elim o as (λ _. Result Fault Bytes × Session W) [
            | none ↦ (err no_token, s)
            | some t ↦ (ok (t ++ points), s)
          ] in
            (x.1 ≡ s) × ((a : Bytes) → x.0 ≡ ok a → held o ≡ 1)
      go none = (refl, λ a good. cc)
      go (some t) = (refl, λ a good. refl)

  with_token-Arms : (points : Bytes) → Arms (with_token link points)
  with_token-Arms points = record {
    from = λ s a good.
        let (same, has) = with_token-lem points s in
        ap (λ (t : Session W). held t.token) same ∙ has a good;
  }

  with_token-Keeps : (points : Bytes) → Keeps IsValid (with_token link points)
  with_token-Keeps points = record { from = λ s v. rw ((with_token-lem points s).0) v }

  session_part-Keeps :
      (parity : ℕ) (r_agg p_agg : Option Point)
      → Keeps IsValid (session_part link parity r_agg p_agg)
  unfolding session_part
  session_part-Keeps parity none p_agg = Keeps-raise _
  session_part-Keeps parity (some r) none = Keeps-raise _
  session_part-Keeps parity (some r) (some p) = Keeps-bind _ _ (with_token-Keeps []) λ _.
      Keeps-bind _ _ (ensure_pin-Keeps link true)
        λ _. Keeps-bind _ _ (Keeps-lift _) with_token-Keeps

  session_part-Arms :
      (parity : ℕ) (r_agg p_agg : Option Point) → Arms (session_part link parity r_agg p_agg)
  unfolding session_part raise
  session_part-Arms parity none p_agg = record { from = λ s a good. cc }
  session_part-Arms parity (some r) none = record { from = λ s a good. cc }
  session_part-Arms parity (some r) (some p) =
      Arms-bind _ _ λ _. Arms-bind _ _ λ _. Arms-bind _ _ with_token-Arms

  -- What the payload needs to be sent.
  abbrev IsReady : Result Fault Bytes × Session W → Type 0
  IsReady x =
      IsValid x.1
      × ((body : Bytes) → x.0 ≡ ok body → length body ≡ pin_finalize_len → held x.1.token ≡ 1)

  two_lengths :
      (a b : Bytes)
      → length a ≡ legacy_finalize_len
      → Path (Result Fault Bytes) (ok a) (ok b)
      → length b ≡ pin_finalize_len
      → ⊥
  two_lengths a b p same q = let same' : a ≡ b = cc in omega (arith, p, q, ap length same')

  checked_payload-IsReady :
      (pin : Bool) (scalars more : Bytes) (s : Session W)
      → IsValid s
      → (pin ≡ true → held s.token ≡ 1)
      → IsReady (checked_payload link pin scalars more s)
  unfolding checked_payload ◌>>=◌ pure raise_if
  checked_payload-IsReady true scalars more s v has =
      elim (Bool-cases (length (scalars ++ more) == pin_finalize_len)) [
        | inl fits ↦ rw fits (v, λ body good q. has refl)
        | inr misfit ↦ rw misfit (v, λ body good q. cc)
      ]
  checked_payload-IsReady false scalars more s v has =
      elim (Bool-cases (length (scalars ++ more) == legacy_finalize_len)) [
        | inl fits ↦ rw fits (
          v,
          λ body good q. absurd (two_lengths (scalars ++ more) body ((==_iff _ _).0 fits) good q),
        )
        | inr misfit ↦ rw misfit (v, λ body good q. cc)
      ]

  payload-IsReady :
      (scalars : Bytes) (parity : ℕ) (r_agg p_agg : Option Point) (s : Session W)
      → IsValid s
      → IsReady (payload link scalars parity r_agg p_agg s)
  unfolding payload ◌>>=◌ get
  payload-IsReady scalars parity r_agg p_agg s v = go (pin_protocol s)
    where
      go :
          (pin : Bool)
          → IsReady (
              ((if pin then session_part link parity r_agg p_agg else pure [])
                  >>= checked_payload link pin scalars)
                s)
      go true =
          split_bind IsReady (session_part link parity r_agg p_agg) _ s
            (λ more s' e.
              checked_payload-IsReady true scalars more s' (kept s' e) (λ _. armed more s' e))
            (λ e s' q. (kept s' q, λ body good. cc))
        where
          kept :
              (s' : Session W) {r : Result Fault Bytes}
              → session_part link parity r_agg p_agg s ≡ (r, s')
              → IsValid s'
          kept s' e = rw e at ((session_part-Keeps parity r_agg p_agg).from s v)

          armed :
              (more : Bytes) (s' : Session W)
              → session_part link parity r_agg p_agg s ≡ (ok more, s')
              → held s'.token ≡ 1
          armed more s' e = rw e at ((session_part-Arms parity r_agg p_agg).from s more (rw e))
      go false = checked_payload-IsReady false scalars [] s v (λ h. cc)

  pub finalize-Keeps :
      (a b : Bytes) (parity : ℕ) (e : Bytes) (r_agg p_agg : Option Point)
      → Keeps IsValid (finalize link a b parity e r_agg p_agg)
  unfolding finalize
  finalize-Keeps a b parity e r_agg p_agg = Keeps-bind _ _ (Keeps-raise_if _ _) λ _. record {
    from = λ s v.
        let scalars = a ++ (b ++ parity ∷ e) in
        let (kept, armed) = payload-IsReady scalars parity r_agg p_agg s v in
        split_bind (λ x. IsValid x.1) (payload link scalars parity r_agg p_agg) _ s
          (λ body s' q. send_finalize-IsValid link body s' (rw q at kept) (rw q at armed body refl))
          (λ f s' q. rw q at kept);
  }
