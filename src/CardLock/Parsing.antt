-- ===== src/CardLock/Parsing.antt =====
-- scripts/card_lock.py: what is read from the output of gp (`identity`, `key_version`, the registry, the
-- reader list) and from the deny-list. A regular expression is a scanner for it: each of them has one
-- way to match at a place, but for the type of a key, whose lengths are tried from the longest.
use nuri_passkey_prf_smartca.Base.{
  ℕ, ◌+◌, ◌-◌, ◌*◌, Bool, true, false, ◌&&◌, ◌||◌, not, List, [], ◌∷◌, ◌++◌, map, Option, none,
  some, Text, codes, ◌==◌, if◌then◌else◌, is_nil, length, drop, within, is_space, starts_with,
  upper,
}

abbrev pub is_digit : ℕ → Bool
is_digit c = within b'0' b'9' c

abbrev pub is_hex_digit : ℕ → Bool
is_hex_digit c = is_digit c || within b'A' b'F' c || within b'a' b'f' c

-- `\w`, on ASCII
abbrev pub is_word : ℕ → Bool
is_word c = is_digit c || within b'A' b'Z' c || within b'a' b'z' c || c == b'_'

-- The longest run of such characters at the front, and what is behind it.
unfoldable pub span_of : (ℕ → Bool) → Text → Text × Text
span_of p [] = ([], [])
span_of p (c ∷ cs) =
    let (front, rest) = span_of p cs in if p c then (c ∷ front, rest) else ([], c ∷ cs)

abbrev pub skip_space : Text → Text
skip_space s = (span_of is_space s).1

-- `\b` behind a word character.
abbrev pub ends_word : Text → Bool
ends_word [] = true
ends_word (c ∷ cs) = not (is_word c)

-- `re.findall(r"\bfield=([0-9A-Fa-f]+)\b", text)`; `inside` tells whether a word character stands before.
unfoldable pub find_values : Text → Bool → Text → List Text
unfolding span_of starts_with
find_values field inside [] = []
find_values field inside (c ∷ cs) =
    let later = find_values field (is_word c) cs in
    let (value, rest) = span_of is_hex_digit (drop (length field) (c ∷ cs)) in
    if not inside && starts_with field (c ∷ cs) && not (is_nil value) && ends_word rest
    then value ∷ later
    else later

-- `CPLC_FIELDS`, each name with its equality sign.
abbrev pub cplc_fields : List (Text × ℕ)
cplc_fields =
    (codes "ICFabricator=", 2)
    ∷ (codes "ICType=", 2)
    ∷ (codes "OperatingSystemID=", 2)
    ∷ (codes "OperatingSystemReleaseDate=", 2)
    ∷ (codes "OperatingSystemReleaseLevel=", 2)
    ∷ (codes "ICFabricationDate=", 2)
    ∷ (codes "ICSerialNumber=", 4)
    ∷ (codes "ICBatchIdentifier=", 2)
    ∷ (codes "ICModuleFabricator=", 2)
    ∷ (codes "ICModulePackagingDate=", 2)
    ∷ (codes "ICCManufacturer=", 2)
    ∷ (codes "ICEmbeddingDate=", 2)
    ∷ (codes "ICPrePersonalizer=", 2)
    ∷ (codes "ICPrePersonalizationEquipmentDate=", 2)
    ∷ (codes "ICPrePersonalizationEquipmentID=", 4)
    ∷ (codes "ICPersonalizer=", 2)
    ∷ (codes "ICPersonalizationDate=", 2)
    ∷ (codes "ICPersonalizationEquipmentID=", 4)
    ∷ []

-- The one value of a field, of its size.
unfoldable pub only_value : ℕ → List Text → Option Text
only_value size (v ∷ []) = if length v == size * 2 then some (upper v) else none
only_value size vs = none

unfoldable pub field_value : Text → ℕ → Text → Option Text
unfolding find_values only_value
field_value field size info = only_value size (find_values field false info)

-- The values of the fields one behind the other.
unfoldable pub joined_values : List (Text × ℕ) → Text → Option Text
unfolding field_value
joined_values [] info = some []
joined_values ((field, size) ∷ fields) info =
    let rest = joined_values fields info in
    elim (field_value field size info) [
      | none ↦ none
      | some v ↦ elim rest [ none ↦ none | some vs ↦ some (v ++ vs) ]
    ]

-- CPLC and serial; `none` is the Refusal.
unfoldable pub identity : Text → Option (Text × Text)
unfolding joined_values field_value
identity info = elim (joined_values cplc_fields info) [
  | none ↦ none
  | some cplc ↦ elim (field_value (codes "ICSerialNumber=") 4 info) [
    | none ↦ none
    | some serial ↦ some (cplc, serial)
  ]
]

-- The text behind a literal and white space, where it is there.
unfoldable pub after : Text → Text → Option Text
unfolding starts_with span_of
after literal s =
    if starts_with literal s then some (skip_space (drop (length literal) s)) else none

abbrev pub digits_value : ℕ → ℕ → Text → ℕ
digits_value base acc [] = acc
digits_value base acc (c ∷ cs) =
    digits_value base
      (acc * base + (if is_digit c then c - 48 else if within b'A' b'F' c then c - 55 else c - 87))
      cs

-- A number of at least one decimal digit, with white space behind it left out.
unfoldable pub decimal_at : Text → Option (ℕ × Text)
unfolding span_of
decimal_at s =
    let (value, rest) = span_of is_digit s in
    if is_nil value then none else some (digits_value 10 0 value, skip_space rest)

-- `\(0x([0-9A-Fa-f]{2})\)`
unfoldable pub byte_at : Text → Option (ℕ × Text)
unfolding starts_with span_of
byte_at s =
    let (value, rest) = span_of is_hex_digit (drop 3 s) in
    if starts_with (codes "(0x") s && length value == 2 && starts_with (codes ")") rest
    then some (digits_value 16 0 value, skip_space (drop 1 rest))
    else none

-- The ways to cut a run of characters that are not white space, the longest first.
unfoldable pub cuts : Text → List (Text × Text)
cuts [] = []
cuts (c ∷ cs) =
    let longer = map (λ (x : Text × Text). (c ∷ x.0, x.1)) (cuts cs) in
    if is_space c then [] else longer ++ (c ∷ [], cs) ∷ []
