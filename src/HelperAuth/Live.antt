-- ===== src/HelperAuth/Live.antt =====
-- Which cookies are valid: those of a session that was stored and has not expired.
use mathlib.Core.List.{Memᴰ}
use mathlib.Core.List.Memᴰ.{head, tail}
use nuri_passkey_prf_smartca.Base.{
  ℕ, ◌≤◌, ◌<◌, List, [], ◌∷◌, Option, none, some, ◌≡◌, ◌↔◌, ◌⊎◌, inl, inr, refl, arith, Text,
  if◌then◌else◌, is_nil,
}
use nuri_passkey_prf_smartca.HelperAuth.Cookies.{session_cookie_values}
use nuri_passkey_prf_smartca.HelperAuth.Pairing.{
  Surroundings, Pairing, Sessions, prune, look_up, expiries, seconds_left, hashes, remaining,
}
use nuri_passkey_prf_smartca.HelperAuth.Sessions.{
  prune-keeps, prune-only, look_up-Memᴰ, Memᴰ-look_up,
}

module _ {W : Type 0} (out : Surroundings W) where
  -- One of the values is the id of a stored session that has not expired at `now`.
  pub record Live (now : ℕ) (ss : Sessions) (values : List Text) : Type 0 where
    pub value : Text
    pub named : Memᴰ value values
    pub expiry : ℕ
    pub stored : Memᴰ (out.sid_hash value, expiry) ss
    pub alive : now < expiry

  Live-later :
      {now : ℕ} {ss : Sessions} {v : Text} {vs : List Text} → Live now ss vs → Live now ss (v ∷ vs)
  Live-later l = record {
    value = l.value;
    named = tail l.named;
    expiry = l.expiry;
    stored = l.stored;
    alive = l.alive;
  }

  seconds_left-some : (now exp : ℕ) (rest : List ℕ) → 1 ≤ seconds_left now (exp ∷ rest)
  unfolding seconds_left
  seconds_left-some now exp rest = ground arith

  found_here :
      (now exp : ℕ) (rest : List ℕ) (o : Option ℕ)
      → o ≡ some exp
      → 1 ≤ seconds_left now (elim o as (λ _. List ℕ) [ none ↦ rest | some exp ↦ exp ∷ rest ])
  found_here now exp rest none e = cc
  found_here now exp rest (some exp') e = seconds_left-some now exp' rest

  found_later :
      (h : ℕ) (rest : List ℕ) (o : Option ℕ)
      → 1 ≤ seconds_left h rest
      → 1 ≤ seconds_left h (elim o as (λ _. List ℕ) [ none ↦ rest | some exp ↦ exp ∷ rest ])
  found_later h rest none some_left = some_left
  found_later h rest (some exp) some_left = seconds_left-some h exp rest

  Live-left :
      (now : ℕ) (ss : Sessions) (vs : List Text) (value : Text) (exp : ℕ)
      → Memᴰ value vs
      → Memᴰ (out.sid_hash value, exp) (prune now ss)
      → 1 ≤ seconds_left now (expiries (hashes out vs) (prune now ss))
  unfolding expiries
  Live-left now ss [] value exp named stored = elim named [ ]
  Live-left now ss (v ∷ vs) value exp (head e) stored =
      let (exp', found) = Memᴰ-look_up (out.sid_hash value) (prune now ss) exp stored in
      rw (← e) (found_here now exp' (expiries (hashes out vs) (prune now ss)) _ found)
  Live-left now ss (v ∷ vs) value exp (tail m) stored =
      found_later now _ (look_up (out.sid_hash v) (prune now ss))
        (Live-left now ss vs value exp m stored)

  left-Live :
      (now : ℕ) (ss : Sessions) (vs : List Text)
      → 1 ≤ seconds_left now (expiries (hashes out vs) (prune now ss))
      → Live now ss vs
  unfolding expiries seconds_left
  left-Live now ss [] some_left = absurd (omega arith)
  left-Live now ss (v ∷ vs) some_left =
      go (look_up (out.sid_hash v) (prune now ss)) refl (left-Live now ss vs) some_left
    where
      go :
          (o : Option ℕ)
          → look_up (out.sid_hash v) (prune now ss) ≡ o
          → (1 ≤ seconds_left now (expiries (hashes out vs) (prune now ss)) → Live now ss vs)
          → 1
            ≤ seconds_left now (elim o as (λ _. List ℕ) [
              | none ↦ expiries (hashes out vs) (prune now ss)
              | some exp ↦ exp ∷ expiries (hashes out vs) (prune now ss)
            ])
          → Live now ss (v ∷ vs)
      go none missing rec some_left = Live-later (rec some_left)
      go (some exp) found rec some_left =
          let (stored, alive) =
            prune-only now (out.sid_hash v) exp ss
              (look_up-Memᴰ (out.sid_hash v) (prune now ss) exp found) in
          record { value = v; named = head refl; expiry = exp; stored = stored; alive = alive }

  -- `remaining` is positive exactly if one of the cookie's values is the id of a stored session whose
  -- expiry is later than the clock.
  pub remaining-Live :
      (cookie : Option Text) (p : Pairing W)
      → (1 ≤ (remaining out cookie p).0)
        ↔ Live (out.clock p.world).0 p.sessions (session_cookie_values cookie)
  unfolding remaining
  remaining-Live cookie p = go (session_cookie_values cookie)
    where
      now : ℕ
      now = (out.clock p.world).0

      none_left : 1 ≤ 0 → ⊥
      none_left h = omega arith

      go :
          (vs : List Text)
          → (1
              ≤ (if◌then◌else◌ {A = ℕ × Pairing W}
                  (is_nil vs)
                  (0, p)
                  (
                    seconds_left now (expiries (hashes out vs) (prune now p.sessions)),
                    record p { world = (out.clock p.world).1; sessions = prune now p.sessions },
                  )).0)
            ↔ Live now p.sessions vs
      go [] = (λ h. absurd (none_left h), λ l. elim l.named [ ])
      go (v ∷ vs) = (
        left-Live now p.sessions (v ∷ vs),
        λ l.
            Live-left now p.sessions (v ∷ vs) l.value l.expiry l.named
              (prune-keeps now (out.sid_hash l.value) l.expiry p.sessions l.alive l.stored),
      )

  -- `remaining` stores no session and moves no expiry. If the header has no value of the session's
  -- cookie, the dictionary stays as it is; else just those sessions stay that have not expired.
  pub remaining-absolute :
      (cookie : Option Text) (p : Pairing W) (k : Text) (exp : ℕ)
      → Memᴰ (k, exp) (remaining out cookie p).1.sessions ↔ (
          Memᴰ (k, exp) p.sessions
          × ((session_cookie_values cookie ≡ []) ⊎ ((out.clock p.world).0 < exp)))
  unfolding remaining
  remaining-absolute cookie p k exp = go (session_cookie_values cookie)
    where
      now : ℕ
      now = (out.clock p.world).0

      go :
          (vs : List Text)
          → Memᴰ
              (k, exp)
              (if◌then◌else◌ {A = ℕ × Pairing W}
                (is_nil vs)
                (0, p)
                (
                  seconds_left now (expiries (hashes out vs) (prune now p.sessions)),
                  record p { world = (out.clock p.world).1; sessions = prune now p.sessions },
                )).1.sessions
            ↔ (Memᴰ (k, exp) p.sessions × ((vs ≡ []) ⊎ (now < exp)))
      go [] = (λ m. (m, inl refl), λ m. m.0)
      go (v ∷ vs) = (
        λ m. let (before, alive) = prune-only now k exp p.sessions m in (before, inr alive),
        λ (m, how). elim how [
          | inl none_named ↦ cc
          | inr alive ↦ prune-keeps now k exp p.sessions alive m
        ],
      )
