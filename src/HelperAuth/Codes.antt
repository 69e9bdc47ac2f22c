-- ===== src/HelperAuth/Codes.antt =====
-- What `pair` makes of a code, and what stays bounded over all requests.
use nuri_passkey_prf_smartca.Base.{
  ℕ, ◌+◌, ◌≤◌, ◌<◌, true, false, ◌&&◌, not, List, [], ◌∷◌, Option, none, some, ◌≡◌, ◌≢◌, ◌⊎◌, inl,
  inr, refl, ap, arith, Text, leb, equal, equal_iff, length, is_nil, Bool-cases, Bool, ltb, ◌||◌,
  ◌==◌, ==_iff, if◌then◌else◌,
}
use nuri_passkey_prf_smartca.HelperAuth.Cookies.{session_cookie_values}
use nuri_passkey_prf_smartca.HelperAuth.Pairing.{
  Surroundings, Pairing, max_sessions, pair_max_failures, pair_code_ttl, prune, put, look_up, evict,
  max_code_input, without_spaces, given_code, rotate, start, fail, accept, pair, remaining,
}
use nuri_passkey_prf_smartca.HelperAuth.Sessions.{
  length-prune, length-put, length-evict, look_up-put,
}

module _ {W : Type 0} (out : Surroundings W) where
  -- What is left of a text without its spaces and dashes.
  pub data Kept : Text → Text → Type 0 where
    nothing : Kept [] []
    skipped :
        {c : ℕ} {cs ks : Text}
        → (out.matches_space c ≡ true) ⊎ (c ≡ b'-')
        → Kept cs ks
        → Kept (c ∷ cs) ks
    kept :
        {c : ℕ} {cs ks : Text}
        → out.matches_space c ≡ false
        → c ≢ b'-'
        → Kept cs ks
        → Kept (c ∷ cs) (c ∷ ks)

  -- How an input is compared: as nothing if it is no string or longer than 64 characters.
  pub data Given : Option Text → Text → Type 0 where
    no_text : Given none []
    too_long : {code : Text} → 64 < length code → Given (some code) []
    cleaned : {code ks : Text} → length code ≤ 64 → Kept code ks → Given (some code) (out.upper ks)

  without_spaces-Kept : (cs : Text) → Kept cs (without_spaces out cs)
  unfolding without_spaces
  without_spaces-Kept [] = nothing
  without_spaces-Kept (c ∷ cs) =
      go (out.matches_space c) (c == b'-') refl refl (without_spaces-Kept cs)
    where
      go :
          (a b : Bool)
          → out.matches_space c ≡ a
          → c == b'-' ≡ b
          → Kept cs (without_spaces out cs)
          → Kept (c ∷ cs) (if a || b then without_spaces out cs else c ∷ without_spaces out cs)
      go true b p q rest = skipped (inl p) rest
      go false true p q rest = skipped (inr ((==_iff c b'-').0 q)) rest
      go false false p q rest = kept p (λ e. let t = (==_iff c b'-').1 e in cc) rest

  given_code-Given : (code : Option Text) → Given code (given_code out code)
  unfolding given_code
  given_code-Given none = no_text
  given_code-Given (some code) = elim (Bool-cases (ltb max_code_input (length code))) [
    | inl long ↦ rw long (too_long (ground (arith, long)))
    | inr short ↦ rw short (cleaned (ground (arith, short)) (without_spaces-Kept code))
  ]

  -- There is a new code, drawn from the surroundings, valid for its time from then on.
  pub record Burned (p' : Pairing W) : Type 0 where
    pub drawn : W
    pub new_code : p'.code ≡ (out.fresh_code drawn).0
    pub no_failures : p'.failures ≡ 0
    pub valid_for : p'.code_expires ≡ (out.clock (out.fresh_code drawn).1).0 + pair_code_ttl

  -- What a code is exchanged for, by the time `now` at which it was compared.
  pub data Paired (ttl now : ℕ) (given : Text) (p : Pairing W) (x : Option Text × Pairing W)
      : Type 0 where
    expired :
        p.code_expires ≤ now
        → x.0 ≡ none
        → x.1.sessions ≡ p.sessions
        → Burned x.1
        → Paired ttl now given p x
    mistaken :
        now < p.code_expires
        → (given ≡ []) ⊎ (given ≢ p.code)
        → p.failures + 1 < pair_max_failures
        → x.0 ≡ none
        → x.1.sessions ≡ p.sessions
        → x.1.code ≡ p.code
        → x.1.code_expires ≡ p.code_expires
        → x.1.failures ≡ p.failures + 1
        → Paired ttl now given p x
    exhausted :
        now < p.code_expires
        → (given ≡ []) ⊎ (given ≢ p.code)
        → pair_max_failures ≤ p.failures + 1
        → x.0 ≡ none
        → x.1.sessions ≡ p.sessions
        → Burned x.1
        → Paired ttl now given p x
    granted :
        now < p.code_expires
        → given ≢ []
        → given ≡ p.code
        → (session : Text) (w : W) → (session, w) ≡ out.fresh_session (out.clock p.world).1
        → x.0 ≡ some session
        → look_up (out.sid_hash session) x.1.sessions ≡ some ((out.clock w).0 + ttl)
        → Burned x.1
        → Paired ttl now given p x

  rotate-Burned : (p : Pairing W) → Burned (rotate out p)
  unfolding rotate
  rotate-Burned p = record {
    drawn = p.world;
    new_code = refl;
    no_failures = refl;
    valid_for = refl;
  }

  wrong :
      (given code : Text)
      → (not (is_nil given) && equal given code) ≡ false
      → (given ≡ []) ⊎ (given ≢ code)
  wrong [] code e = inl refl
  wrong (c ∷ cs) code e =
      inr (λ same. let t : equal (c ∷ cs) code ≡ true = (equal_iff _ _).1 same in cc)

  right :
      (given code : Text)
      → (not (is_nil given) && equal given code) ≡ true
      → (given ≢ []) × (given ≡ code)
  right [] code e = cc
  right (c ∷ cs) code e = (λ q. cc, (equal_iff (c ∷ cs) code).0 e)

  fail-Paired :
      (ttl now : ℕ) (given : Text) (p q : Pairing W)
      → now < p.code_expires
      → (given ≡ []) ⊎ (given ≢ p.code)
      → q ≡ record p { world = q.world }
      → Paired ttl now given p (none, fail out q)
  unfolding fail rotate
  fail-Paired ttl now given p q in_time bad same =
      elim (Bool-cases (leb pair_max_failures (q.failures + 1))) [
        | inl last ↦ rw last (
            exhausted in_time bad (ground (arith, ap (λ (p : Pairing W). p.failures) same)) refl
              (ap (λ (p : Pairing W). p.sessions) same)
              (rotate-Burned (record q { failures = q.failures + 1 })))
        | inr more ↦ rw more (
            mistaken in_time bad (ground (arith, ap (λ (p : Pairing W). p.failures) same)) refl
              (ap (λ (p : Pairing W). p.sessions) same) (ap (λ (p : Pairing W). p.code) same)
              (ap (λ (p : Pairing W). p.code_expires) same)
              (ap (λ (p : Pairing W). p.failures + 1) same))
      ]

  -- The new session is stored, and the code is burned.
  accept-lem :
      (ttl : ℕ) (p : Pairing W)
      → let (session, p') = accept out ttl p in
        let (fresh, w) = out.fresh_session p.world in
        (session ≡ fresh)
        × (look_up (out.sid_hash fresh) p'.sessions ≡ some ((out.clock w).0 + ttl))
        × Burned p'
  unfolding accept rotate
  accept-lem ttl p =
      let (session, w) = out.fresh_session p.world in
      let (now, w') = out.clock w in
      let alive = prune now p.sessions in
      let stored : Pairing W = record p {
        world = w';
        sessions = put (out.sid_hash session) (now + ttl) (evict (length alive) alive);
      } in
      (
        refl,
        look_up-put (out.sid_hash session) (now + ttl) (evict (length alive) alive),
        rotate-Burned stored,
      )

  pair-given :
      (ttl : ℕ) (code : Option Text) (p : Pairing W)
      → Paired ttl (out.clock p.world).0 (given_code out code) p (pair out ttl code p)
  unfolding pair
  pair-given ttl code p =
      let now = (out.clock p.world).0 in
      let p' : Pairing W = record p { world = (out.clock p.world).1 } in
      elim (Bool-cases (leb p.code_expires now)) [
        | inl over ↦
            rw over (expired (ground arith) refl (unfold rotate in refl) (rotate-Burned p'))
        | inr in_time ↦
            elim (Bool-cases
              (not (is_nil (given_code out code)) && equal (given_code out code) p.code)) [
                | inl same ↦
                    let (some_code, equal_code) = right (given_code out code) p.code same in
                    let (drawn, stored, burned) = accept-lem ttl p' in
                    let before : now < p.code_expires = ground arith in
                    rw (in_time, same)
                      (granted before some_code equal_code _ _ refl (ap some drawn) stored burned)
                | inr other ↦
                    rw (in_time, other)
                      (fail-Paired ttl now _ p p' (ground arith) (wrong _ _ other) refl)
              ]
      ]

  -- `pair` returns a session exactly if the code has not expired and the input, without spaces and
  -- dashes and in upper case, is that code and not empty; an input that is no string, or longer than 64
  -- characters, counts as empty. The session is then the one that was drawn, stored to expire at its
  -- time after the clock is read for it, and the code is burned. Else the sessions are untouched; an
  -- expired code is burned, a wrong input is counted, and the tenth burns the code.
  pub pair-Paired :
      (ttl : ℕ) (code : Option Text) (p : Pairing W)
      → (given : Text) × Given code given
        × Paired ttl (out.clock p.world).0 given p (pair out ttl code p)
  pair-Paired ttl code p = (given_code out code, given_code-Given code, pair-given ttl code p)

  -- A request as far as it reaches this object: a code, or a Cookie header.
  pub data Request : Type 0 where
    brings_code : Option Text → Request
    brings_cookie : Option Text → Request

  abbrev pub serve : ℕ → Request → Pairing W → Pairing W
  serve ttl (brings_code code) p = (pair out ttl code p).1
  serve ttl (brings_cookie cookie) p = (remaining out cookie p).1

  abbrev pub serve_all : ℕ → List Request → Pairing W → Pairing W
  serve_all ttl [] p = p
  serve_all ttl (r ∷ rs) p = serve_all ttl rs (serve ttl r p)

  abbrev IsBounded : Pairing W → Type 0
  IsBounded p = (length p.sessions ≤ max_sessions) × (p.failures < pair_max_failures)

  rotate-IsBounded : (p : Pairing W) → length p.sessions ≤ max_sessions → IsBounded (rotate out p)
  unfolding rotate
  rotate-IsBounded p fits = (fits, omega arith)

  fail-IsBounded : (p : Pairing W) → IsBounded p → IsBounded (fail out p)
  unfolding fail
  fail-IsBounded p (fits, few) = elim (Bool-cases (leb pair_max_failures (p.failures + 1))) [
    | inl last ↦ rw last (rotate-IsBounded (record p { failures = p.failures + 1 }) fits)
    | inr more ↦ rw more (fits, ground arith)
  ]

  accept-IsBounded : (ttl : ℕ) (p : Pairing W) → IsBounded p → IsBounded (accept out ttl p).1
  unfolding accept
  accept-IsBounded ttl p (fits, few) =
      let (session, w) = out.fresh_session p.world in
      let (now, w') = out.clock w in
      let alive = prune now p.sessions in
      let room = evict (length alive) alive in
      rotate-IsBounded
        (record p { world = w'; sessions = put (out.sid_hash session) (now + ttl) room })
        (omega (
          arith,
          length-put (out.sid_hash session) (now + ttl) room,
          length-evict (length alive) alive (omega arith),
        ))

  pair-IsBounded :
      (ttl : ℕ) (code : Option Text) (p : Pairing W)
      → IsBounded p
      → IsBounded (pair out ttl code p).1
  unfolding pair
  pair-IsBounded ttl code p (fits, few) =
      let p' : Pairing W = record p { world = (out.clock p.world).1 } in
      elim (Bool-cases (leb p.code_expires (out.clock p.world).0)) [
        | inl over ↦ rw over (rotate-IsBounded p' fits)
        | inr in_time ↦
            elim (Bool-cases
              (not (is_nil (given_code out code)) && equal (given_code out code) p.code)) [
                | inl same ↦ rw (in_time, same) (accept-IsBounded ttl p' (fits, few))
                | inr other ↦ rw (in_time, other) (fail-IsBounded p' (fits, few))
              ]
      ]

  remaining-IsBounded :
      (cookie : Option Text) (p : Pairing W) → IsBounded p → IsBounded (remaining out cookie p).1
  unfolding remaining
  remaining-IsBounded cookie p (fits, few) =
      elim (Bool-cases (is_nil (session_cookie_values cookie))) [
        | inl none_named ↦ rw none_named (fits, few)
        | inr named ↦
            rw named (omega (arith, fits, length-prune (out.clock p.world).0 p.sessions), few)
      ]

  serve-IsBounded :
      (ttl : ℕ) (r : Request) (p : Pairing W) → IsBounded p → IsBounded (serve ttl r p)
  serve-IsBounded ttl (brings_code code) = pair-IsBounded ttl code
  serve-IsBounded ttl (brings_cookie cookie) = remaining-IsBounded cookie

  all-IsBounded :
      (ttl : ℕ) (rs : List Request) (p : Pairing W) → IsBounded p → IsBounded (serve_all ttl rs p)
  all-IsBounded ttl [] p b = b
  all-IsBounded ttl (r ∷ rs) p b = all-IsBounded ttl rs (serve ttl r p) (serve-IsBounded ttl r p b)

  -- After any requests to a new object there are at most 32 sessions, and fewer than 10 wrong inputs
  -- were counted against the code in force.
  pub serve_all-bounds :
      (ttl : ℕ) (rs : List Request) (w : W)
      → let p = serve_all ttl rs (start out w) in
        (length p.sessions ≤ max_sessions) × (p.failures < pair_max_failures)
  unfolding start
  serve_all-bounds ttl rs w = all-IsBounded ttl rs (start out w) (
      rotate-IsBounded
        (record { world = w; sessions = []; code = []; failures = 0; code_expires = 0 })
        (omega arith))
