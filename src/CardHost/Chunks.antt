-- ===== src/CardHost/Chunks.antt =====
-- `read_exact` reads what a parser takes from the bytes, however the pipe cuts them into pieces.
use nuri_passkey_prf_smartca.Base.{
  ℕ, zero, suc, ◌+◌, ◌-◌, ◌≤◌, ◌<◌, true, false, not, [], ◌∷◌, ◌++◌, Option, none, some, Bool,
  Bytes, ltb, leb, is_nil, if◌then◌else◌, length, take, drop, Result, ok, err, ◌≡◌, ◌⊎◌, inl, inr,
  refl, sym, ap, ◌∙◌, subst, arith, append-nil, append_assoc, length-take, length-append,
}
use nuri_passkey_prf_smartca.CardHost.Framing.{
  FramingError, stalled, Pipe, await, read_rounds, read_exact,
}

-- What a pipe does: `Holds w bs` says that bs is what is still to be read. A read takes a part that is
-- not empty unless nothing is left; to ask for the time or to wait takes nothing.
pub record IsPipe {W : Type 0} (pipe : Pipe W) (Holds : W → Bytes → Type 0) : Type 0 where
  pub clock : (w : W) (bs : Bytes) → Holds w bs → Holds (pipe.monotonic w).1 bs
  pub wait : (t : ℕ) (w : W) (bs : Bytes) → Holds w bs → Holds (pipe.ready t w).1 bs
  pub reads :
      (n : ℕ) (w : W) (bs : Bytes)
      → 0 < n
      → Holds w bs
      → (rest : Bytes) × (bs ≡ (pipe.read n w).0 ++ rest)
        × (length (pipe.read n w).0 ≤ n)
        × ((pipe.read n w).0 ≡ [] → bs ≡ [])
        × Holds (pipe.read n w).1 rest

take_across : (k : ℕ) (c r : Bytes) → length c ≤ k → take k (c ++ r) ≡ c ++ take (k - length c) r
take_across k [] r h = let e : k - 0 ≡ k = omega arith in rw e refl
take_across zero (x ∷ c) r h = absurd (omega arith)
take_across (suc k) (x ∷ c) r h =
    let e : suc k - suc (length c) ≡ k - length c = omega arith in
    rw e (ap (λ l. x ∷ l) (take_across k c r (omega arith)))

drop_across : (k : ℕ) (c r : Bytes) → length c ≤ k → drop k (c ++ r) ≡ drop (k - length c) r
drop_across k [] r h = let e : k - 0 ≡ k = omega arith in rw e refl
drop_across zero (x ∷ c) r h = absurd (omega arith)
drop_across (suc k) (x ∷ c) r h =
    let e : suc k - suc (length c) ≡ k - length c = omega arith in
    rw e (drop_across k c r (omega arith))

pub short_take : (n : ℕ) (xs : Bytes) → ltb (length (take n xs)) n ≡ ltb (length xs) n
short_take n xs = rw (length-take n xs) (ground arith)

take_nil : (n : ℕ) → take {A = ℕ} n [] ≡ []
take_nil zero = refl
take_nil (suc n) = refl

drop_nil : (n : ℕ) → drop {A = ℕ} n [] ≡ []
drop_nil zero = refl
drop_nil (suc n) = refl

is_nil_lem : (c : Bytes) → is_nil c ≡ false → 0 < length c
is_nil_lem [] e = cc
is_nil_lem (x ∷ c) e = omega arith

-- What is left to read, counted before and after a chunk.
regroup :
    (n : ℕ) (buf c r : Bytes)
    → length buf ≤ n
    → length c ≤ n - length buf
    → (n - length buf) - length c ≡ n - length (buf ++ c)
regroup n buf c r le fits = omega (arith, length-append buf c)

after_chunk :
    {bs : Bytes} (n : ℕ) (buf c r : Bytes)
    → bs ≡ c ++ r
    → length buf ≤ n
    → length c ≤ n - length buf
    → ((buf ++ c) ++ take (n - length (buf ++ c)) r ≡ buf ++ take (n - length buf) bs)
      × (drop (n - length (buf ++ c)) r ≡ drop (n - length buf) bs)
after_chunk n buf c r e le fits = (
  rw (e, take_across (n - length buf) c r fits, regroup n buf c r le fits)
      (append_assoc buf c (take (n - length (buf ++ c)) r)),
  rw (e, drop_across (n - length buf) c r fits, regroup n buf c r le fits) refl,
)

module _ {W : Type 0} (pipe : Pipe W) (Holds : W → Bytes → Type 0) where
  -- A run stalled, or it came to the same result and has left the same bytes.
  unfoldable pub Agrees :
      {A : Type 0} → Result FramingError A × W → Result FramingError (A × Bytes) → Type 0
  Agrees x (err e) = (x.0 ≡ err stalled) ⊎ (x.0 ≡ err e)
  Agrees x (ok (a, rest)) = (x.0 ≡ err stalled) ⊎ ((w : W) × (x ≡ (ok a, w)) × Holds w rest)

  -- What a round comes to, by what its parts come to.
  round-Agrees :
      (n : ℕ) (buf bs : Bytes) (w w₁ w₂ : W) (is_short : Bool) (r : Result FramingError (Unit {0}))
      (chunk : Bytes) (more : Result FramingError Bytes × W)
      → (is_short ≡ false → n - length buf ≡ 0)
      → Holds w bs
      → (r ≡ err stalled) ⊎ (r ≡ ok tt)
      → (is_short ≡ true → chunk ≡ [] → (bs ≡ []) × Holds w₂ [])
      → (is_short ≡ true
          → is_nil chunk ≡ false
          → Agrees more (ok (buf ++ take (n - length buf) bs, drop (n - length buf) bs)))
      → Agrees
          (if not is_short then (ok buf, w) else elim r [
            | err e ↦ (err e, w₁)
            | ok _ ↦ if is_nil chunk then (ok buf, w₂) else more
          ])
          (ok (buf ++ take (n - length buf) bs, drop (n - length buf) bs))
  unfolding Agrees
  round-Agrees n buf bs w w₁ w₂ false r chunk more full h a last next =
      inr (w, rw (full refl, append-nil) refl, rw (full refl) h)
  round-Agrees n buf bs w w₁ w₂ true (err e) chunk more full h (inl q) last next =
      let same : e ≡ stalled = cc in inl (ap err same)
  round-Agrees n buf bs w w₁ w₂ true (err e) chunk more full h (inr q) last next = cc
  round-Agrees n buf bs w w₁ w₂ true (ok u) [] more full h a last next =
      let (e, h') = last refl refl in
      inr (
        w₂,
        rw (e, take_nil (n - length buf), append-nil) refl,
        rw (e, drop_nil (n - length buf)) h',
      )
  round-Agrees n buf bs w w₁ w₂ true (ok u) (c ∷ cs) more full h a last next = next refl refl

  Agrees-same :
      {A : Type 0} {a b : A} {p q : Bytes}
      → a ≡ b
      → p ≡ q
      → (x : Result FramingError A × W) → Agrees x (ok (a, p))
      → Agrees x (ok (b, q))
  Agrees-same {A} {a} {b} {p} {q} e f x g =
      subst (λ c. Agrees x (ok (c, q))) e (subst (λ r. Agrees x (ok (a, r))) f g)

  module _ (is_pipe : IsPipe pipe Holds) where
    await-Holds :
        (deadline : Option ℕ) (w : W) (bs : Bytes)
        → Holds w bs
        → (((await pipe deadline w).0 ≡ err stalled) ⊎ ((await pipe deadline w).0 ≡ ok tt))
          × Holds (await pipe deadline w).1 bs
    unfolding await
    await-Holds none w bs h = (inr refl, h)
    await-Holds (some d) w bs h =
        split (leb d (pipe.monotonic w).0) (pipe.ready (d - (pipe.monotonic w).0) w₁).0
          (is_pipe.clock w bs h)
          (is_pipe.wait (d - (pipe.monotonic w).0) w₁ bs (is_pipe.clock w bs h))
      where
        w₁ : W
        w₁ = (pipe.monotonic w).1

        late_or_not : Bool → Bool → W → W → Result FramingError (Unit {0}) × W
        late_or_not late is_ready a b =
            if late then (err stalled, a) else if not is_ready then (err stalled, b) else (ok tt, b)

        split :
            (late is_ready : Bool) {a b : W}
            → Holds a bs
            → Holds b bs
            → (((late_or_not late is_ready a b).0 ≡ err stalled)
                ⊎ ((late_or_not late is_ready a b).0 ≡ ok tt))
              × Holds (late_or_not late is_ready a b).1 bs
        split true is_ready p q = (inl refl, p)
        split false false p q = (inl refl, q)
        split false true p q = (inr refl, q)

    -- A read of nothing.
    last_read :
        {k : ℕ} (w : W) (bs : Bytes)
        → 0 < k
        → (pipe.read k w).0 ≡ []
        → Holds w bs
        → (bs ≡ []) × Holds (pipe.read k w).1 []
    last_read {k} w bs pos e h =
        let (rest, q, fits, z, h') = is_pipe.reads k w bs pos h in
        let gone : rest ≡ [] = ap (λ c. c ++ rest) (sym e) ∙ sym q ∙ z e in
        (z e, subst (Holds (pipe.read k w).1) gone h')

    read_rounds-Agrees :
        (fuel n : ℕ) (deadline : Option ℕ) (buf : Bytes) (w : W) (bs : Bytes)
        → length buf ≤ n
        → n ≤ fuel + length buf
        → Holds w bs
        → Agrees
            (read_rounds pipe fuel n deadline buf w)
            (ok (buf ++ take (n - length buf) bs, drop (n - length buf) bs))
    unfolding read_rounds Agrees
    read_rounds-Agrees zero n deadline buf w bs le enough h =
        let e : n - length buf ≡ 0 = omega arith in inr (w, rw (e, append-nil) refl, rw e h)
    read_rounds-Agrees (suc fuel) n deadline buf w bs le enough h =
        round-Agrees n buf bs w w₁ (pipe.read (n - length buf) w₁).1 (ltb (length buf) n)
          (await pipe deadline w).0 (pipe.read (n - length buf) w₁).0
          (read_rounds pipe fuel n deadline (buf ++ (pipe.read (n - length buf) w₁).0)
            (pipe.read (n - length buf) w₁).1)
          (λ q. ground arith) h (await-Holds deadline w bs h).0
          (λ q none_left. last_read w₁ bs (ground arith) none_left (await-Holds deadline w bs h).1)
          (λ q some_read.
            let (rest, e, fits, z, h') =
              is_pipe.reads (n - length buf) w₁ bs (ground arith) (await-Holds deadline w bs h).1 in
            let chunk = (pipe.read (n - length buf) w₁).0 in
            let grown = length-append buf chunk in
            let (same, left) = after_chunk n buf chunk rest e le fits in
            Agrees-same same left
              (read_rounds pipe fuel n deadline (buf ++ chunk) (pipe.read (n - length buf) w₁).1)
              (read_rounds-Agrees fuel n deadline (buf ++ chunk) (pipe.read (n - length buf) w₁).1
                rest (omega (arith, grown, fits, le))
                (omega (arith, grown, is_nil_lem chunk some_read, enough)) h'))
      where
        w₁ : W
        w₁ = (await pipe deadline w).1

    pub read_exact-Agrees :
        (n : ℕ) (deadline : Option ℕ) (w : W) (bs : Bytes)
        → Holds w bs
        → Agrees (read_exact pipe n deadline w) (ok (take n bs, drop n bs))
    unfolding read_exact
    read_exact-Agrees n deadline w bs h =
        let e : n - 0 ≡ n = omega arith in
        subst (λ k. Agrees (read_rounds pipe n n deadline [] w) (ok (take k bs, drop k bs))) e
          (read_rounds-Agrees n n deadline [] w bs (omega arith) (omega arith) h)
