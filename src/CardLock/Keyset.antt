-- ===== src/CardLock/Keyset.antt =====
-- scripts/card_lock.py: `key_version`, the registry of `GP.listing`, the version and the readers of
-- `GP.__init__`, and the deny-list. White space and line ends are those of ASCII.
use nuri_passkey_prf_smartca.Base.{
  ℕ, zero, suc, Bool, true, ◌&&◌, ◌||◌, not, List, [], ◌∷◌, Option, none, some, Text, codes, ◌==◌,
  equal, if◌then◌else◌, is_nil, length, within, strip, upper, contains, contains_text,
}
use nuri_passkey_prf_smartca.CardLock.Escrow.{is_hex, is_version, is_type}
use nuri_passkey_prf_smartca.CardLock.Parsing.{
  is_hex_digit, span_of, skip_space, ends_word, after, decimal_at, byte_at, cuts,
}

-- A row of the key information: version, ID, type and length.
pub record Row : Type 0 where
  pub version : ℕ
  pub id : ℕ
  pub type : Text
  pub size : ℕ

-- Chains of what may fail.
infixl 5 ◌>>=◌
abbrev ◌>>=◌ : {A B : Type 0} → Option A → (A → Option B) → Option B
none >>= f = none
some a >>= f = f a

-- The first way to cut the type that lets the length follow.
unfoldable pub type_and_size : List (Text × Text) → Option (Text × ℕ × Text)
unfolding after decimal_at
type_and_size [] = none
type_and_size ((type, rest) ∷ others) =
    let later = type_and_size others in
    elim (after (codes "length:") (skip_space rest) >>= decimal_at) [
      | none ↦ later
      | some (size, left) ↦ some (type, size, left)
    ]

-- The regular expression of `key_version` at this place, with what is behind the match.
unfoldable pub row_at : Text → Option (Row × Text)
unfolding after decimal_at byte_at type_and_size cuts
row_at s = do
  s₁ ← after (codes "Version:") s
  (shown, s₂) ← decimal_at s₁
  (version, s₃) ← byte_at s₂
  s₄ ← after (codes "ID:") s₃
  (id, s₅) ← decimal_at s₄
  (again, s₆) ← byte_at s₅
  s₇ ← after (codes "type:") s₆
  (type, size, left) ← type_and_size (cuts s₇)
  some (record { version = version; id = id; type = type; size = size }, left)

-- `re.findall`; the fuel is the length of the text, of which each step takes a character or more.
unfoldable pub find_rows : ℕ → Text → List Row
unfolding row_at
find_rows zero s = []
find_rows (suc fuel) [] = []
find_rows (suc fuel) (c ∷ cs) = elim (row_at (c ∷ cs)) [
  | none ↦ find_rows fuel cs
  | some (row, left) ↦ row ∷ find_rows fuel left
]

abbrev pub all_equal : ℕ → ℕ → ℕ → ℕ → Bool
all_equal x a b c = a == x && b == x && c == x

-- The three rows of one replaceable keyset.
unfoldable pub keyset : List Row → Option (ℕ × Text)
unfolding equal contains
keyset (r ∷ s ∷ t ∷ []) =
    if s.version == r.version
      && t.version == r.version
      && is_version r.version
      && (contains 1 (r.id ∷ s.id ∷ t.id ∷ [])
          && contains 2 (r.id ∷ s.id ∷ t.id ∷ [])
          && contains 3 (r.id ∷ s.id ∷ t.id ∷ []))
      && all_equal 16 r.size s.size t.size
      && (equal s.type r.type && equal t.type r.type && is_type r.type)
    then some (r.version, r.type)
    else none
keyset _ = none

-- The version and the type of the card's only keyset; `none` is the Refusal.
unfoldable pub key_version : Text → Option (ℕ × Text)
unfolding find_rows keyset
key_version info = keyset (find_rows (length info) info)

-- `^\s*APP:\s*([0-9A-Fa-f]+)\b` at the start of a line.
unfoldable pub app_at : Text → Option Text
unfolding after span_of
app_at s = after (codes "APP:") (skip_space s) >>= λ rest.
    let (aid, left) = span_of is_hex_digit rest in
    if not (is_nil aid) && ends_word left then some (upper aid) else none

-- The AIDs of all lines, as a list of which only the members count.
unfoldable pub find_apps : Bool → Text → List Text
unfolding app_at
find_apps starts [] = []
find_apps starts (c ∷ cs) =
    let later = find_apps (c == 10) cs in
    if starts then (elim (app_at (c ∷ cs)) [ none ↦ later | some aid ↦ aid ∷ later ]) else later

abbrev pub required_apps : List Text
required_apps =
    codes "A0000006472F0001" ∷ codes "4E5552494554483201" ∷ codes "4E555249564C5401" ∷ []

unfoldable pub has_all : List Text → List Text → Bool
unfolding contains_text
has_all [] found = true
has_all (a ∷ wanted) found = contains_text a found && has_all wanted found

-- What `GP.listing` asks of the registry.
unfoldable pub has_required : Text → Bool
unfolding has_all find_apps
has_required output = has_all required_apps (find_apps true output)

-- The ends of lines for `str.splitlines`.
abbrev pub is_line_end : ℕ → Bool
is_line_end c = within 10 13 c || within 28 30 c

-- The first line, of a text that is not empty, in front of the other lines.
abbrev pub onto_first : ℕ → List Text → List Text
onto_first c [] = (c ∷ []) ∷ []
onto_first c (l ∷ ls) = (c ∷ l) ∷ ls

-- `str.splitlines`; `cr` tells whether the character before was a carriage return that ended a line.
unfoldable pub split_lines : Bool → Text → List Text
split_lines cr [] = []
split_lines cr (c ∷ cs) =
    let rest = split_lines (c == 13) cs in
    if c == 10 && cr then rest else if is_line_end c then [] ∷ rest else onto_first c rest

-- `line.partition("#")[0]`
unfoldable pub before_hash : Text → Text
before_hash [] = []
before_hash (c ∷ cs) = if c == b'#' then [] else c ∷ before_hash cs

-- The entry of a line of the deny-list.
unfoldable pub entry : Text → Text
unfolding before_hash strip
entry line = upper (strip (before_hash line))

-- Whether the lines neither name the card nor are malformed.
unfoldable pub permits : Text → Text → List Text → Bool
unfolding entry is_hex equal
permits cplc serial [] = true
permits cplc serial (line ∷ lines) =
    (is_nil (entry line)
      || ((is_hex 8 (entry line) || is_hex 84 (entry line))
          && not (equal (entry line) serial || equal (entry line) cplc)))
    && permits cplc serial lines
