-- ===== src/HelperAuth/Tests.antt =====
-- Runs of the pairing's model on concrete input: a clock that moves by a microsecond at each reading.
use mathlib.Core.List.{Memᴰ}
use nuri_passkey_prf_smartca.Base.{
  is_space, upper, ◌⊎◌, ℕ, true, false, ok, suc, ◌+◌, ◌≤◌, ◌<◌, [], ◌∷◌, Option, none, some, ◌≡◌,
  ◌↔◌, refl, ◌≢◌, Text, codes, length,
}
use nuri_passkey_prf_smartca.HelperAuth.Cookies.{session_cookie_values}
use nuri_passkey_prf_smartca.HelperAuth.Pairing.{
  Surroundings, Pairing, session_ttl, max_sessions, pair_max_failures, rotate, start, pair,
  remaining,
}
use nuri_passkey_prf_smartca.HelperAuth.Requests.{
  Headers, not_paired, bad_host, default_protected, guard_request, is_own_origin,
}
use nuri_passkey_prf_smartca.HelperAuth.Requests.Guard.{Allowed, guard_request-Allowed}
use nuri_passkey_prf_smartca.HelperAuth.Requests.Framing.{
  Framed, check_framing, validate_token, check_framing-Framed,
}
use nuri_passkey_prf_smartca.HelperAuth.Codes.{
  Given, Paired, pair-Paired, brings_code, brings_cookie, serve_all, serve_all-bounds,
}
use nuri_passkey_prf_smartca.HelperAuth.Live.{Live, remaining-Live, remaining-absolute}

abbrev out : Surroundings ℕ
out = record {
  clock = λ w. (w, suc w);
  fresh_code = λ w. (codes "ABCDEFGH", w);
  fresh_session = λ w. (codes "s3cret", w);
  sid_hash = λ t. 0x23 ∷ t;
  matches_space = is_space;
  upper = upper;
}

abbrev new : Pairing ℕ
new = start out 0

abbrev typed : Option Text
typed = some (codes "abcd-efgh ")

abbrev cookie : Option Text
cookie = some (codes "theme=dark; nuri_dashboard_session=s3cret")

abbrev paired : Pairing ℕ
paired = (pair out session_ttl typed new).1

cookie-run : session_cookie_values cookie ≡ codes "s3cret" ∷ []
unfolding session_cookie_values
cookie-run = refl

pair-run :
    ((pair out session_ttl typed new).0 ≡ some (codes "s3cret"))
    × ((pair out session_ttl (some (codes "ABCDEFGI")) new).0 ≡ none)
    × ((remaining out cookie paired).0 ≡ 43199)
    × ((remaining out cookie new).0 ≡ 0)
unfolding pair remaining start
pair-run = (refl, refl, refl, refl)

pair-Paired_example :
    (given : Text) × Given out typed given
    × Paired out session_ttl 1 given new (pair out session_ttl typed new)
unfolding start rotate
pair-Paired_example = pair-Paired out session_ttl typed new

remaining-Live_example :
    (1 ≤ (remaining out cookie paired).0)
    ↔ Live out (out.clock paired.world).0 paired.sessions (session_cookie_values cookie)
remaining-Live_example = remaining-Live out cookie paired

serve_all-bounds_example :
    let p =
      serve_all out session_ttl
        (brings_code typed ∷ brings_cookie cookie ∷ brings_code none ∷ [])
        new in
    (length p.sessions ≤ max_sessions) × (p.failures < pair_max_failures)
serve_all-bounds_example =
    serve_all-bounds out session_ttl
      (brings_code typed ∷ brings_cookie cookie ∷ brings_code none ∷ []) 0

abbrev stored : Text × ℕ
stored = (0x23 ∷ codes "s3cret", 2 + session_ttl)

stored-run : (remaining out cookie paired).1.sessions ≡ stored ∷ []
unfolding pair remaining start
stored-run = refl

remaining-absolute_example : Memᴰ stored (remaining out cookie paired).1.sessions ↔ (
    Memᴰ stored paired.sessions
    × ((session_cookie_values cookie ≡ []) ⊎ ((out.clock paired.world).0 < 2 + session_ttl)))
remaining-absolute_example =
    remaining-absolute out cookie paired (0x23 ∷ codes "s3cret") (2 + session_ttl)

abbrev headers : Headers
headers = record {
  host = some (codes "localhost:8787");
  origin = some (codes "http://localhost:8787");
  sec_fetch_site = none;
  content_type = some (codes "application/json; charset=utf-8");
  authorization = some (codes "Bearer 0123abcd");
  cookie = none;
  transfer_encoding = none;
  content_lengths = codes " 12 " ∷ [];
}

guard-run :
    ((guard_request out default_protected 8787
        (codes "0123abcd")
        (codes "post")
        (codes "/api/run?x=1")
        headers
        none).0
      ≡ none)
    × ((guard_request out default_protected 8787
          (codes "feed")
          (codes "POST")
          (codes "/api/run")
          headers
          none).0
        ≡ some not_paired)
    × ((guard_request out default_protected 8788
          (codes "0123abcd")
          (codes "POST")
          (codes "/")
          headers
          none).0
        ≡ some bad_host)
unfolding guard_request default_protected
guard-run = (refl, refl, refl)

framing-run : check_framing 100 headers ≡ (none, 12)
unfolding check_framing
framing-run = refl

guard_request-Allowed_example :
    ((guard_request out default_protected 8787
        (codes "0123abcd")
        (codes "POST")
        (codes "/api/run")
        headers
        (some paired)).0
      ≡ none)
    ↔ Allowed out default_protected 8787
        (codes "0123abcd")
        (codes "POST")
        (codes "/api/run")
        headers
        (some paired)
guard_request-Allowed_example =
    guard_request-Allowed out default_protected 8787 (codes "0123abcd") (codes "POST")
      (codes "/api/run") headers (some paired)

check_framing-Framed_example :
    let (res, n) = check_framing 100 headers in
    (res ≡ none → (headers.transfer_encoding ≡ none) × Framed 100 headers.content_lengths n)
    × (res ≢ none → n ≡ 0)
check_framing-Framed_example = check_framing-Framed 100 headers

-- A bare slash, `?` and `#` behind the origin change nothing; another port does.
origin-run :
    (is_own_origin (codes "localhost:8787") (codes "HTTP://localhost:8787/?#") ≡ true)
    × (is_own_origin (codes "localhost:8787") (codes "http://localhost:8788") ≡ false)
    × (is_own_origin (codes "localhost:8787") (codes "null") ≡ false)
unfolding is_own_origin
origin-run = (refl, refl, refl)

token-run :
    validate_token (codes "0123456789abcdef0123456789abcdef0123456789abcdef0123456789abcdef")
    ≡ ok (codes "0123456789abcdef0123456789abcdef0123456789abcdef0123456789abcdef")
unfolding validate_token
token-run = refl
