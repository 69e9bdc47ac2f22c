-- ===== src/Musig2Card/Payload.antt =====
-- What `finalize` sends.
use nuri_passkey_prf_smartca.Base.{
  ℕ, ◌+◌, ◌*◌, ◌%◌, ◌<◌, ◌&&◌, ◌||◌, not-false, get_or, ltb, arith, to_bytes, Bool, true, false,
  not, List, [], ◌∷◌, ◌++◌, Option, none, some, Bytes, ◌≡◌, refl, sym, ap, subst, ◌∙◌, ◌==◌,
  if◌then◌else◌, length, Result, ok, err, pure, raise, raise_if, lift, get, modify, ◌>>=◌, continue,
  split_bind, ==_iff,
}
use nuri_passkey_prf_smartca.Musig2Card.State.{
  Link, bad_length, assertion_error, value_error, Step, exchanged, Session, Fault, Point, sec1,
  affine, field_prime, point_bytes, uncompressed, is_point, pin_protocol, no_token, ins_finalize,
  with_data, pin_finalize_len, legacy_finalize_len,
}
use nuri_passkey_prf_smartca.Musig2Card.Access.{ensure_pin, tx}
use nuri_passkey_prf_smartca.Musig2Card.Signing.{
  send_finalize, points_part, with_token, checked_payload, session_part, payload, finalize,
}
use nuri_passkey_prf_smartca.Musig2Card.Exchange.{Sent, answered, refused, unplugged, tx-Sent}
use nuri_passkey_prf_smartca.Musig2Card.Frame.{ensure_pin-KeepsHand}
use nuri_passkey_prf_smartca.Musig2Card.Finalize.{with_token-lem}

is_point_lem : (bs : Bytes) → is_point bs ≡ true → (length bs ≡ 65) × (get_or bs 0 0 ≡ 4)
is_point_lem bs h = (ground arith, ground arith)

-- The 65 bytes of a point: they are given, with 4 in front, or spelled from coordinates on the curve.
pub data Encoded : Point → Bytes → Type 0 where
  given : {bs : Bytes} → length bs ≡ 65 → get_or bs 0 0 ≡ 4 → Encoded (sec1 bs) bs
  spelled :
      {x y : ℕ} {bs : Bytes}
      → x < field_prime
      → y < field_prime
      → (y * y) % field_prime ≡ (x * x * x + 7) % field_prime
      → bs ≡ 4 ∷ (to_bytes 32 x ++ to_bytes 32 y)
      → Encoded (affine x y) bs

-- The two points as they are sent: R, whose last byte has the parity, and then P.
pub record Joined (parity : ℕ) (r p : Point) (points : Bytes) : Type 0 where
  pub r65 : Bytes
  pub p65 : Bytes
  pub r_bytes : Encoded r r65
  pub p_bytes : Encoded p p65
  pub same_parity : get_or r65 64 0 % 2 ≡ parity
  pub in_order : points ≡ r65 ++ p65

point_bytes-Encoded :
    (r : Point) (bs : Bytes) → point_bytes r ≡ ok bs → is_point bs ≡ true → Encoded r bs
unfolding point_bytes uncompressed
point_bytes-Encoded (sec1 bs') bs e h =
    let same : bs ≡ bs' = cc in
    let (size, head) = is_point_lem bs h in
    subst (Encoded (sec1 bs')) (sym same)
      (given (ap length (sym same) ∙ size) (ap (λ b. get_or b 0 0) (sym same) ∙ head))
point_bytes-Encoded (affine x y) bs e h =
    go (ltb x field_prime) (ltb y field_prime) _ refl refl refl e
  where
    go :
        (a b c : Bool)
        → ltb x field_prime ≡ a
        → ltb y field_prime ≡ b
        → (y * y) % field_prime == (x * x * x + 7) % field_prime ≡ c
        → (if not (a && b) || not c
            then err value_error
            else ok (4 ∷ (to_bytes 32 x ++ to_bytes 32 y)))
          ≡ ok bs
        → Encoded (affine x y) bs
    go false b c p q r e = cc
    go true false c p q r e = cc
    go true true false p q r e = cc
    go true true true p q r e =
        spelled (ground (arith, p)) (ground (arith, q)) ((==_iff _ _).0 r) cc

points_part-Joined :
    {W : Type 0} (link : Link W) (parity : ℕ) (r p : Point) (points : Bytes)
    → points_part link parity r p ≡ ok points
    → Joined parity r p points
unfolding points_part
points_part-Joined link parity r p points e = go (point_bytes r) (point_bytes p) refl refl e
  where
    checked :
        (bad odd : Bool) (r65 p65 : Bytes)
        → (if bad then err value_error else if odd then err value_error else ok (r65 ++ p65))
          ≡ ok points
        → (bad ≡ false) × (odd ≡ false) × (r65 ++ p65 ≡ points)
    checked true odd r65 p65 q = cc
    checked false true r65 p65 q = cc
    checked false false r65 p65 q = (refl, refl, cc)

    shape_of : {a b : Bool} → (not a || not b) ≡ false → (a ≡ true) × (b ≡ true)
    shape_of {a} {b} q = (ground (arith, q), ground (arith, q))

    go :
        (x y : Result Fault Bytes)
        → point_bytes r ≡ x
        → point_bytes p ≡ y
        → (elim x as (λ _. Result Fault Bytes) [
          | err e ↦ err e
          | ok r65 ↦ elim y [
            | err e ↦ err e
            | ok p65 ↦
                if not (is_point r65) || not (is_point p65)
                then err value_error
                else if not (get_or r65 64 0 % 2 == parity)
                then err value_error
                else ok (r65 ++ p65)
          ]
        ])
          ≡ ok points
        → Joined parity r p points
    go (err f) y a b q = cc
    go (ok r65) (err f) a b q = cc
    go (ok r65) (ok p65) a b q =
        let (shaped, even, joined) = checked _ _ r65 p65 q in
        record {
          r65 = r65;
          p65 = p65;
          r_bytes = point_bytes-Encoded r r65 a (shape_of shaped).0;
          p_bytes = point_bytes-Encoded p p65 b (shape_of shaped).1;
          same_parity = (==_iff _ _).0 (not-false _ even);
          in_order = sym joined;
        }

module _ {W : Type 0} (link : Link W) where
  -- The command as sent, answered with 32 bytes, and no token left.
  pub record Spent (body sig : Bytes) (s' : Session W) : Type 0 where
    pub older : List Step
    pub sent_last :
        s'.log ≡ exchanged (with_data ins_finalize body ++ 0x20 ∷ []) (some 0x9000) ∷ older
    pub no_token_left : s'.token ≡ none
    pub full : length sig ≡ 32

  -- A check and a value: what it comes to if it returns.
  checked_value :
      {A : Type 0} (b : Bool) (f : Fault) (v a : A) (s : Session W)
      → ((raise_if b f >>= λ _. pure v) s).0 ≡ ok a
      → (b ≡ false) × (v ≡ a) × (((raise_if b f >>= λ _. pure v) s).1 ≡ s)
  unfolding ◌>>=◌ pure raise_if
  checked_value true f v a s good = cc
  checked_value false f v a s good = (refl, cc, refl)

  settled-Spent :
      (body : Bytes) (s : Session W) (x : Result Fault Bytes × Session W) (sig : Bytes)
      → Sent link (with_data ins_finalize body ++ 0x20 ∷ []) s x
      → s.token ≡ none
      → let y =
          continue x.0 (λ r. raise_if (not (length r == 32)) bad_length >>= λ _. pure r) x.1 in
        y.0 ≡ ok sig → Spent body sig y.1
  settled-Spent body s x sig (answered r w e) spent = rw e (λ good.
      let t : Session W = record s {
        world = w;
        log = exchanged (with_data ins_finalize body ++ 0x20 ∷ []) (some 0x9000) ∷ s.log;
      } in
      let (fits, same, still) = checked_value (not (length r == 32)) bad_length r sig t good in
      rw still (record {
        older = s.log;
        sent_last = refl;
        no_token_left = spent;
        full = ap length (sym same) ∙ (==_iff _ _).0 (not-false _ fits);
      }))
  settled-Spent body s x sig (refused f w o bad e) spent = rw e (λ good. cc)
  settled-Spent body s x sig (unplugged e) spent = rw e (λ good. cc)

  send_finalize-Spent :
      (body : Bytes) (s : Session W) (sig : Bytes)
      → (send_finalize link body s).0 ≡ ok sig
      → Spent body sig (send_finalize link body s).1
  unfolding send_finalize ◌>>=◌ modify
  send_finalize-Spent body s sig good =
      let apdu : Bytes = with_data ins_finalize body ++ 0x20 ∷ [] in
      let spent : Session W = record s { token = none } in
      settled-Spent body spent (tx link apdu spent) sig (tx-Sent link apdu spent) refl good

  with_token-some :
      (points : Bytes) (s : Session W) (a : Bytes)
      → (with_token link points s).0 ≡ ok a
      → (t : Bytes) × (s.token ≡ some t) × (a ≡ t ++ points)
  unfolding with_token
  with_token-some points s a good = go s.token refl good
    where
      go :
          (o : Option Bytes)
          → s.token ≡ o
          → (elim o as (λ _. Result Fault Bytes × Session W) [
            | none ↦ (err no_token, s)
            | some t ↦ (ok (t ++ points), s)
          ]).0
            ≡ ok a
          → (t : Bytes) × (s.token ≡ some t) × (a ≡ t ++ points)
      go none q e = cc
      go (some t) q e = (t, q, cc)

  module _ (parity : ℕ) (r_agg p_agg : Point) where
    abbrev Carried : Session W → Result Fault Bytes × Session W → Type 0
    Carried s x =
        (more : Bytes)
        → x.0 ≡ ok more
        → (t points : Bytes) × (s.token ≡ some t)
          × (points_part link parity r_agg p_agg ≡ ok points)
          × (more ≡ t ++ points)

    session_part-Carried :
        (s : Session W) → Carried s (session_part link parity (some r_agg) (some p_agg) s)
    unfolding session_part lift
    session_part-Carried s =
        split_bind (Carried s) (with_token link []) _ s
          (λ a s₁ e₁.
            split_bind (Carried s) (ensure_pin link true) _ s₁
              (λ u s₂ e₂.
                split_bind (Carried s) (lift (points_part link parity r_agg p_agg)) _ s₂
                  (λ points s₃ e₃ more good.
                    let (t, held, made) = with_token-some points s₃ more good in
                    let back : s₁ ≡ s = rw e₁ at ((with_token-lem link [] s).0) in
                    let same : s₂.token ≡ s₁.token =
                      (rw e₂ at ((ensure_pin-KeepsHand link true).from s₁ u (rw e₂))).0 in
                    let at_end : s₂ ≡ s₃ = ap (λ (x : Result Fault Bytes × Session W). x.1) e₃ in
                    (
                      t,
                      points,
                      ap (λ (s : Session W). s.token) (sym back)
                          ∙ (sym same ∙ (ap (λ (s : Session W). s.token) at_end ∙ held)),
                      ap (λ (x : Result Fault Bytes × Session W). x.0) e₃,
                      made,
                    ))
                  (λ e s' q more good. cc))
              (λ e s' q more good. cc))
          (λ e s' q more good. cc)

  -- The payload that the protocol of the card's version wants.
  pub data Carries (scalars : Bytes) (parity : ℕ) (r_agg p_agg : Option Point) (s : Session W)
      (body : Bytes) : Type 0 where
    legacy :
        pin_protocol s ≡ false
        → body ≡ scalars ++ []
        → length body ≡ legacy_finalize_len
        → Carries scalars parity r_agg p_agg s body
    session :
        (r p : Point) (t points : Bytes)
        → pin_protocol s ≡ true
        → r_agg ≡ some r
        → p_agg ≡ some p
        → s.token ≡ some t
        → Joined parity r p points
        → body ≡ scalars ++ (t ++ points)
        → length body ≡ pin_finalize_len
        → Carries scalars parity r_agg p_agg s body

  checked_payload-lem :
      (pin : Bool) (scalars more body : Bytes) (s : Session W)
      → (checked_payload link pin scalars more s).0 ≡ ok body
      → (body ≡ scalars ++ more)
        × (length body ≡ (if pin then pin_finalize_len else legacy_finalize_len))
  unfolding checked_payload
  checked_payload-lem pin scalars more body s good =
      let (fits, same, _) = checked_value _ assertion_error (scalars ++ more) body s good in
      (sym same, ap length (sym same) ∙ (==_iff _ _).0 (not-false _ fits))

  abbrev PayloadOf :
      Bytes → ℕ → Option Point → Option Point → Session W → Result Fault Bytes × Session W → Type 0
  PayloadOf scalars parity r_agg p_agg s x =
      (body : Bytes) → x.0 ≡ ok body → Carries scalars parity r_agg p_agg s body

  session_payload :
      (scalars : Bytes) (parity : ℕ) (r_agg p_agg : Option Point) (s : Session W)
      → pin_protocol s ≡ true
      → PayloadOf scalars parity r_agg p_agg s
          ((session_part link parity r_agg p_agg >>= checked_payload link true scalars) s)
  session_payload scalars parity (some r) (some p) s pin =
      split_bind (PayloadOf scalars parity (some r) (some p) s)
        (session_part link parity (some r) (some p)) _ s
        (λ more s' e body good.
          let (t, points, held, made, joined) = session_part-Carried parity r p s more (rw e) in
          let (same, fits) = checked_payload-lem true scalars more body s' good in
          session r p t points pin refl refl held (points_part-Joined link parity r p points made)
            (same ∙ ap (λ m. scalars ++ m) joined) fits)
        (λ e s' q body good. cc)
  session_payload scalars parity none p_agg s pin =
      unfold session_part raise ◌>>=◌ in λ body good. cc
  session_payload scalars parity (some r) none s pin =
      unfold session_part raise ◌>>=◌ in λ body good. cc

  payload-Carries :
      (scalars : Bytes) (parity : ℕ) (r_agg p_agg : Option Point) (s : Session W)
      → PayloadOf scalars parity r_agg p_agg s (payload link scalars parity r_agg p_agg s)
  unfolding payload ◌>>=◌ get pure
  payload-Carries scalars parity r_agg p_agg s = go (pin_protocol s) refl
    where
      go :
          (pin : Bool)
          → pin_protocol s ≡ pin
          → PayloadOf scalars parity r_agg p_agg s (
              ((if pin then session_part link parity r_agg p_agg else pure [])
                  >>= checked_payload link pin scalars)
                s)
      go true pin = session_payload scalars parity r_agg p_agg s pin
      go false pin = λ body good.
          let (same, fits) = checked_payload-lem false scalars [] body s good in
          legacy pin same fits

  raise_if-still :
      (test : Bool) (f : Fault) (s s₁ : Session W) (u : Unit {0})
      → raise_if test f s ≡ (ok u, s₁)
      → s₁ ≡ s
  unfolding raise_if
  raise_if-still true f s s₁ u e = cc (ap (λ (x : Result Fault (Unit {0}) × Session W). x.0) e)
  raise_if-still false f s s₁ u e = ap (λ (x : Result Fault (Unit {0}) × Session W). x.1) (sym e)

  -- If `finalize` returns a signature, that has 32 bytes, the last command sent is FINALIZE with one
  -- payload, answered with 9000, and no token is left. The payload is a, b, the parity and e, 97 bytes,
  -- before version 1.14; from then on follow the token that was in hand, the 65
  -- bytes of the nonce point, whose last byte has the parity, and those of the key point, 231 bytes in all.
  pub finalize-Carries :
      (a b : Bytes) (parity : ℕ) (e : Bytes) (r_agg p_agg : Option Point) (s : Session W)
      (sig : Bytes)
      → (finalize link a b parity e r_agg p_agg s).0 ≡ ok sig
      → (body : Bytes) × Carries (a ++ (b ++ parity ∷ e)) parity r_agg p_agg s body
        × Spent body sig (finalize link a b parity e r_agg p_agg s).1
  unfolding finalize
  finalize-Carries a b parity e r_agg p_agg s sig =
      let scalars : Bytes = a ++ (b ++ parity ∷ e) in
      split_bind (Finished scalars) (raise_if _ value_error) _ s
        (λ u s₁ e₁.
          split_bind (Finished scalars) (payload link scalars parity r_agg p_agg) _ s₁
            (λ body s₂ e₂ good. (
              body,
              subst (λ t. Carries scalars parity r_agg p_agg t body) (raise_if-still _ _ s s₁ u e₁)
                  (payload-Carries scalars parity r_agg p_agg s₁ body (rw e₂)),
              send_finalize-Spent body s₂ sig good,
            ))
            (λ f s' q good. cc))
        (λ f s' q good. cc)
    where
      Finished : Bytes → Result Fault Bytes × Session W → Type 0
      Finished scalars x =
          x.0 ≡ ok sig
          → (body : Bytes) × Carries scalars parity r_agg p_agg s body × Spent body sig x.1
