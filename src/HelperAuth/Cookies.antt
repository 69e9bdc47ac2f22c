-- ===== src/HelperAuth/Cookies.antt =====
-- scripts/nuri_helper_auth.py: `session_cookie_values`.
use nuri_passkey_prf_smartca.Base.{
  ℕ, ◌&&◌, not, List, [], ◌∷◌, Option, none, some, Text, codes, leb, ◌==◌, equal, if◌then◌else◌,
  is_nil, length, take, strip,
}

abbrev pub session_cookie : Text
session_cookie = codes "nuri_dashboard_session"

-- `text.split(sep)`: at least one part.
abbrev pub onto_first : ℕ → List Text → List Text
onto_first c [] = (c ∷ []) ∷ []
onto_first c (part ∷ parts) = (c ∷ part) ∷ parts

unfoldable pub split_on : ℕ → Text → List Text
split_on sep [] = [] ∷ []
split_on sep (c ∷ cs) =
    let rest = split_on sep cs in if c == sep then [] ∷ rest else onto_first c rest

-- `text.partition(sep)`: what stands before it, and what behind it, if it is there.
unfoldable pub partition : ℕ → Text → Text × Option Text
partition sep [] = ([], none)
partition sep (c ∷ cs) =
    let (name, value) = partition sep cs in if c == sep then ([], some cs) else (c ∷ name, value)

-- The value of one part of the header, if it is one of the session cookie.
unfoldable pub cookie_value : Text → Option Text
unfolding partition strip equal
cookie_value part =
    let (name, rest) = partition b'=' (strip part) in
    elim rest [
      | none ↦ none
      | some raw ↦
          let value = strip raw in
          if equal (strip name) session_cookie && not (is_nil value) && leb (length value) 128
          then some value
          else none
    ]

unfoldable pub cookie_values : List Text → List Text
unfolding cookie_value
cookie_values [] = []
cookie_values (part ∷ parts) =
    let rest = cookie_values parts in
    elim (cookie_value part) [ none ↦ rest | some value ↦ value ∷ rest ]

unfoldable pub session_cookie_values : Option Text → List Text
unfolding split_on cookie_values
session_cookie_values header =
    let text : Text = elim header [ none ↦ [] | some t ↦ t ] in
    take 8 (cookie_values (take 64 (split_on b';' text)))
