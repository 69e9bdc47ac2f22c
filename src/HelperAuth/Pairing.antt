-- ===== src/HelperAuth/Pairing.antt =====
-- scripts/nuri_helper_auth.py: the class `Pairing`. Times are whole microseconds, where the source has
-- floating point seconds. What is printed is left out.
use nuri_passkey_prf_smartca.Base.{
  ℕ, zero, suc, ◌+◌, ◌-◌, ◌*◌, ◌/◌, ◌&&◌, ◌||◌, not, List, [], ◌∷◌, Option, none, some, Text, ltb,
  leb, ◌==◌, equal, if◌then◌else◌, length, is_nil, Bool,
}
use nuri_passkey_prf_smartca.HelperAuth.Cookies.{session_cookie_values}

abbrev pub second : ℕ
second = 1000000

abbrev pub session_ttl : ℕ
session_ttl = 12 * 60 * 60 * second

abbrev pub pair_code_ttl : ℕ
pair_code_ttl = 5 * 60 * second

abbrev pub pair_max_failures : ℕ
pair_max_failures = 10

abbrev pub max_sessions : ℕ
max_sessions = 32

abbrev pub max_code_input : ℕ
max_code_input = 64

-- What the class is given by its surroundings: the clock, `secrets.choice` for a whole code,
-- `secrets.token_urlsafe`, SHA-256 of a session id, and Unicode's tables as `\s` of `re` and `str.upper`
-- read them.
pub record Surroundings (W : Type 0) : Type 0 where
  pub clock : W → ℕ × W
  pub fresh_code : W → Text × W
  pub fresh_session : W → Text × W
  pub sid_hash : Text → Text
  pub matches_space : ℕ → Bool
  pub upper : Text → Text

-- `dict[str, float]`, in the order of insertion.
abbrev pub Sessions : Type 0
Sessions = List (Text × ℕ)

pub record Pairing (W : Type 0) : Type 0 where
  pub world : W
  pub sessions : Sessions
  pub code : Text
  pub failures : ℕ
  pub code_expires : ℕ

-- `_prune`
unfoldable pub prune : ℕ → Sessions → Sessions
prune now [] = []
prune now ((k, exp) ∷ rest) =
    let kept = prune now rest in if leb exp now then kept else (k, exp) ∷ kept

-- `self._sessions[k] = exp`
unfoldable pub put : Text → ℕ → Sessions → Sessions
unfolding equal
put k exp [] = (k, exp) ∷ []
put k exp ((k', exp') ∷ rest) =
    let below = put k exp rest in if equal k k' then (k, exp) ∷ rest else (k', exp') ∷ below

-- `self._sessions[k]`, if it is there.
unfoldable pub look_up : Text → Sessions → Option ℕ
unfolding equal
look_up k [] = none
look_up k ((k', exp) ∷ rest) = let below = look_up k rest in if equal k k' then some exp else below

-- The earliest expiry of a dictionary that is not empty.
unfoldable pub earliest : ℕ → Sessions → ℕ
earliest exp [] = exp
earliest exp ((k, exp') ∷ rest) = earliest (if ltb exp' exp then exp' else exp) rest

-- Without the first session that expires then.
unfoldable pub drop_first : ℕ → Sessions → Sessions
drop_first exp [] = []
drop_first exp ((k, exp') ∷ rest) =
    let below = drop_first exp rest in if exp' == exp then rest else (k, exp') ∷ below

-- `self._sessions.pop(min(self._sessions, key=…))`
unfoldable pub pop_earliest : Sessions → Sessions
unfolding earliest drop_first
pop_earliest [] = []
pop_earliest ((k, exp) ∷ rest) = drop_first (earliest exp rest) ((k, exp) ∷ rest)

-- The loop that makes room; the first argument is fuel, for which the number of sessions is enough.
unfoldable pub evict : ℕ → Sessions → Sessions
unfolding pop_earliest
evict zero ss = ss
evict (suc fuel) ss =
    let fewer = evict fuel (pop_earliest ss) in if leb max_sessions (length ss) then fewer else ss

-- The expiries of the sessions that the cookies name.
unfoldable pub expiries : List Text → Sessions → List ℕ
unfolding look_up
expiries [] ss = []
expiries (h ∷ hs) ss =
    let rest = expiries hs ss in elim (look_up h ss) [ none ↦ rest | some exp ↦ exp ∷ rest ]

abbrev pub later : ℕ → ℕ → ℕ
later x y = if ltb x y then y else x

unfoldable pub latest : ℕ → List ℕ → ℕ
latest exp [] = exp
latest exp (exp' ∷ rest) = latest (later exp exp') rest

-- `max(1, int(max(exps) - now)) if exps else 0`
unfoldable pub seconds_left : ℕ → List ℕ → ℕ
unfolding latest
seconds_left now [] = 0
seconds_left now (exp ∷ rest) = later 1 ((latest exp rest - now) / second)

module _ {W : Type 0} (out : Surroundings W) where
  -- `re.sub(r"[\s-]", "", code)`
  unfoldable pub without_spaces : Text → Text
  without_spaces [] = []
  without_spaces (c ∷ cs) =
      let rest = without_spaces cs in if out.matches_space c || c == b'-' then rest else c ∷ rest

  -- The code as it is compared; `none` is an input that is no string. A surrogate in it, which
  -- `encode` raises on, is left out.
  unfoldable pub given_code : Option Text → Text
  unfolding without_spaces
  given_code none = []
  given_code (some code) =
      if ltb max_code_input (length code) then [] else out.upper (without_spaces code)

  -- `_rotate`
  unfoldable pub rotate : Pairing W → Pairing W
  rotate p =
      let (code, w) = out.fresh_code p.world in
      let (now, w') = out.clock w in
      record p { world = w'; code = code; failures = 0; code_expires = now + pair_code_ttl }

  -- `__init__`
  unfoldable pub start : W → Pairing W
  unfolding rotate
  start w = rotate (record { world = w; sessions = []; code = []; failures = 0; code_expires = 0 })

  -- A wrong code: the attempts are counted, and the code is burned after the last.
  unfoldable pub fail : Pairing W → Pairing W
  unfolding rotate
  fail p =
      let p' : Pairing W = record p { failures = p.failures + 1 } in
      if leb pair_max_failures p'.failures then rotate p' else p'

  -- The right code: room is made for the new session, and the code is burned.
  unfoldable pub accept : ℕ → Pairing W → Text × Pairing W
  unfolding rotate prune put evict
  accept ttl p =
      let (session, w) = out.fresh_session p.world in
      let (now, w') = out.clock w in
      let alive = prune now p.sessions in
      let room = evict (length alive) alive in
      (
        session,
        rotate (record p { world = w'; sessions = put (out.sid_hash session) (now + ttl) room }),
      )

  unfoldable pub pair : ℕ → Option Text → Pairing W → Option Text × Pairing W
  unfolding given_code fail accept
  pair ttl code p =
      let given = given_code code in
      let (now, w) = out.clock p.world in
      let p' : Pairing W = record p { world = w } in
      let (session, accepted) = accept ttl p' in
      if leb p.code_expires now
      then (none, rotate p')
      else if not (not (is_nil given) && equal given p.code)
      then (none, fail p')
      else (some session, accepted)

  abbrev pub hashes : List Text → List Text
  hashes [] = []
  hashes (v ∷ vs) = out.sid_hash v ∷ hashes vs

  unfoldable pub remaining : Option Text → Pairing W → ℕ × Pairing W
  unfolding session_cookie_values prune expiries seconds_left
  remaining cookie p =
      let values = session_cookie_values cookie in
      let (now, w) = out.clock p.world in
      let alive = prune now p.sessions in
      let p' : Pairing W = record p { world = w; sessions = alive } in
      if is_nil values then (0, p) else (seconds_left now (expiries (hashes values) alive), p')
