-- ===== src/HelperAuth/Requests.antt =====
-- scripts/nuri_helper_auth.py: `check_framing`, `validate_token` and `guard_request`. Headers are given
-- by the values that the code asks for; error texts are left out.
pub mod Guard
pub mod Origin
pub mod Hosts
pub mod Framing
use nuri_passkey_prf_smartca.Base.{
  ℕ, suc, ◌+◌, ◌*◌, ◌-◌, Bool, true, false, ◌&&◌, ◌||◌, not, List, [], ◌∷◌, ◌++◌, Option, none,
  some, Text, codes, ltb, leb, ◌==◌, equal, if◌then◌else◌, length, take, drop, is_nil, contains,
  contains_text, starts_with, within, is_space, strip, lower, upper, decimal,
}
use nuri_passkey_prf_smartca.HelperAuth.Cookies.{partition}
use nuri_passkey_prf_smartca.HelperAuth.Pairing.{Surroundings, Pairing, remaining}

-- What `headers.get` and `headers.get_all` find.
pub record Headers : Type 0 where
  pub host : Option Text
  pub origin : Option Text
  pub sec_fetch_site : Option Text
  pub content_type : Option Text
  pub authorization : Option Text
  pub cookie : Option Text
  pub transfer_encoding : Option Text
  pub content_lengths : List Text

-- Why a request is refused.
pub data Denial : Type 0 where
  preflight bad_host bad_origin cross_site pair_by_post not_json no_same_origin not_paired : Denial

-- `str(value or "")`
abbrev pub or_empty : Option Text → Text
or_empty none = []
or_empty (some t) = t

-- `str(value or "").strip().lower()`
abbrev pub lowered : Option Text → Text
lowered o = lower (strip (or_empty o))

unfoldable pub allowed_hosts : ℕ → List Text
unfolding decimal
allowed_hosts port =
    (codes "127.0.0.1:" ++ decimal port)
    ∷ (codes "localhost:" ++ decimal port)
    ∷ (codes "[::1]:" ++ decimal port)
    ∷ []

-- What `urllib.parse.urlsplit` makes of a text in lower case.
pub record Url : Type 0 where
  pub scheme : Text
  pub netloc : Text
  pub path : Text
  pub query : Text
  pub fragment : Text

abbrev pub is_scheme_char : ℕ → Bool
is_scheme_char c =
    within b'a' b'z' c || within b'A' b'Z' c || within b'0' b'9' c || contains c (codes "+-.")

unfoldable pub all_scheme : Text → Bool
all_scheme [] = true
all_scheme (c ∷ cs) = is_scheme_char c && all_scheme cs

abbrev pub is_letter : Text → Bool
is_letter [] = false
is_letter (c ∷ cs) = within b'a' b'z' c || within b'A' b'Z' c

-- Without the tabs and line ends.
unfoldable pub without_breaks : Text → Text
without_breaks [] = []
without_breaks (c ∷ cs) =
    let rest = without_breaks cs in if contains c (9 ∷ 10 ∷ 13 ∷ []) then rest else c ∷ rest

-- Without the control characters and spaces in front.
unfoldable pub drop_controls : Text → Text
drop_controls [] = []
drop_controls (c ∷ cs) = let rest = drop_controls cs in if leb c 32 then rest else c ∷ cs

-- Up to the first of `/?#`, and from there on.
unfoldable pub split_netloc : Text → Text × Text
split_netloc [] = ([], [])
split_netloc (c ∷ cs) =
    let (netloc, rest) = split_netloc cs in
    if contains c (codes "/?#") then ([], c ∷ cs) else (c ∷ netloc, rest)

unfoldable pub split_scheme : Text → Text × Text
unfolding all_scheme partition
split_scheme url =
    let (name, after) = partition b':' url in
    elim after [
      | none ↦ ([], url)
      | some rest ↦ if is_letter name && all_scheme name then (name, rest) else ([], url)
    ]

-- `urlsplit`; `none` is its ValueError for a bracket without its partner. Its other errors are for
-- a netloc in brackets that is no IP address and for characters that change under NFKC: no netloc
-- that is one of the allowed hosts has any.
unfoldable pub urlsplit : Text → Option Url
unfolding split_scheme split_netloc without_breaks drop_controls contains starts_with
urlsplit text =
    let (scheme, rest) = split_scheme (without_breaks (drop_controls text)) in
    let (netloc, below) =
      if starts_with (codes "//") rest then split_netloc (drop 2 rest) else ([], rest) in
    let (before, fragment) = partition b'#' below in
    let (path, query) = partition b'?' before in
    let unpaired : Bool =
      (contains b'[' netloc && not (contains b']' netloc))
      || (contains b']' netloc && not (contains b'[' netloc)) in
    if unpaired
    then none
    else some (record {
      scheme = scheme;
      netloc = netloc;
      path = path;
      query = or_empty query;
      fragment = or_empty fragment;
    })

-- `u.scheme == "http" and u.netloc == host and …`; a ValueError makes it false.
unfoldable pub is_own_origin : Text → Text → Bool
unfolding urlsplit equal contains_text strip
is_own_origin host origin = elim (urlsplit (lower (strip origin))) [
  | none ↦ false
  | some u ↦
      equal u.scheme (codes "http")
      && equal u.netloc host
      && contains_text u.path ([] ∷ codes "/" ∷ [])
      && is_nil u.query
      && is_nil u.fragment
]

-- `Bearer\s+(\S+)\s*`, case ignored: the group.
unfoldable pub has_space : Text → Bool
has_space [] = false
has_space (c ∷ cs) = is_space c || has_space cs

abbrev pub starts_with_space : Text → Bool
starts_with_space [] = false
starts_with_space (c ∷ cs) = is_space c

unfoldable pub bearer : Text → Option Text
unfolding has_space equal strip
bearer header =
    let rest = drop 6 header in
    let given = strip rest in
    if equal (lower (take 6 header)) (codes "bearer")
      && starts_with_space rest
      && not (is_nil given)
      && not (has_space given)
    then some given
    else none

-- `_token_matches`
unfoldable pub token_matches : Option Text → Text → Bool
unfolding bearer equal
token_matches header token = elim (bearer (or_empty header)) [
  | none ↦ false
  | some given ↦ not (is_nil token) && equal given token
]

-- `default_protected`
unfoldable pub default_protected : Text → Bool
unfolding starts_with
default_protected path = starts_with (codes "/api/") path

-- `method`, in upper case; GET if it is empty.
abbrev pub method_name : Text → Text
method_name method = upper (if is_nil method then codes "GET" else method)

-- The media type of a Content-Type header.
abbrev pub media_type : Option Text → Text
media_type ct = lower (strip ((partition b';' (or_empty ct)).0))

module _ {W : Type 0} (out : Surroundings W) where
  -- `pairing is not None and pairing.valid(cookie)`
  unfoldable pub is_paired : Option Text → Option (Pairing W) → Bool × Option (Pairing W)
  is_paired cookie none = (false, none)
  is_paired cookie (some p) = let (left, p') = remaining out cookie p in (leb 1 left, some p')

  -- The end of `guard_request`: the token, or the session.
  unfoldable pub guard_access :
      Headers → Text → Option (Pairing W) → Option Denial × Option (Pairing W)
  unfolding token_matches is_paired
  guard_access h token pairing =
      let (valid, pairing') = is_paired h.cookie pairing in
      let same_origin : Bool = elim h.origin [
        | some _ ↦ true
        | none ↦ equal (lowered h.sec_fetch_site) (codes "same-origin")
      ] in
      if token_matches h.authorization token
      then (none, pairing)
      else if valid
      then ((if same_origin then none else some no_same_origin), pairing')
      else (some not_paired, pairing')

  unfoldable pub guard_request :
      (Text → Bool)
      → ℕ
      → Text
      → Text
      → Text
      → Headers
      → Option (Pairing W)
      → Option Denial × Option (Pairing W)
  unfolding allowed_hosts is_own_origin guard_access contains_text
  guard_request is_protected port token method path h pairing =
      let m = method_name method in
      let host = lowered h.host in
      let own : Bool = elim h.origin [ none ↦ true | some o ↦ is_own_origin host o ] in
      let bare = (partition b'?' path).0 in
      let is_pair = equal bare (codes "/pair") in
      let same_site : Bool = elim h.sec_fetch_site [
        | none ↦ true
        | some s ↦ equal (lower (strip s)) (codes "same-origin")
      ] in
      let is_post = equal m (codes "POST") in
      if equal m (codes "OPTIONS")
      then (some preflight, pairing)
      else if not (contains_text host (allowed_hosts port))
      then (some bad_host, pairing)
      else if not own
      then (some bad_origin, pairing)
      else if not (is_pair || is_protected bare)
      then (none, pairing)
      else if not same_site
      then (some cross_site, pairing)
      else if is_pair && not is_post
      then (some pair_by_post, pairing)
      else if is_post && not (equal (media_type h.content_type) (codes "application/json"))
      then (some not_json, pairing)
      else if is_pair
      then (none, pairing)
      else guard_access h token pairing
