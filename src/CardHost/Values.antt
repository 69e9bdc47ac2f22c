-- ===== src/CardHost/Values.antt =====
-- host/nuri_card_host.py: JSON values, and the parameters of a request as `parse_hash_strict`,
-- `parse_address` and `_pin_buffer` read them; `pubkey_to_address` and `_checksum`. The packages ecdsa
-- and pycryptodome are the parameters `curve` and `keccak256`.
use nuri_passkey_prf_smartca.Base.{
  ℕ, ◌+◌, ◌-◌, ◌/◌, ◌%◌, Bool, true, ◌&&◌, ◌||◌, not, List, [], ◌∷◌, ◌++◌, Option, none, some,
  Bytes, Text, ltb, leb, ◌==◌, equal, if◌then◌else◌, within, length, drop, starts_with, lower,
  to_upper, codes, to_hex, from_hex, Action, pure, raise,
}
use nuri_passkey_prf_smartca.CardHost.Signature.{Curve, malformed}
use nuri_passkey_prf_smartca.CardHost.State.{bad_request, Fault, unproved, foreign, fail}

-- What `json.loads` makes; the fields of an object have different names. A number is its text.
mutual
  pub data Value : Type 0 where
    null : Value
    boolean : Bool → Value
    number : Text → Value
    text : Text → Value
    array : Values → Value
    object : Fields → Value

  pub data Values : Type 0 where
    nil : Values
    item : Value → Values → Values

  pub data Fields : Type 0 where
    bare : Fields
    field : Text → Value → Fields → Fields

-- `fields.get(name)`; a name that is missing gives None, which is what null is read as.
unfoldable pub lookup : Text → Fields → Value
lookup name bare = null
lookup name (field key v rest) = let later = lookup name rest in if equal key name then v else later

-- `fields.pop(name, None)`, of which this is what is left.
unfoldable pub without : Text → Fields → Fields
without name bare = bare
without name (field key v rest) =
    let left = without name rest in if equal key name then rest else field key v left

abbrev pub is_hex_digit : ℕ → Bool
is_hex_digit c = within b'0' b'9' c || within b'a' b'f' c || within b'A' b'F' c

unfoldable pub all_hex : Text → Bool
all_hex [] = true
all_hex (c ∷ cs) = is_hex_digit c && all_hex cs

-- `0x[0-9a-fA-F]{n}`, in full.
abbrev pub is_prefixed_hex : ℕ → Text → Bool
is_prefixed_hex n v = starts_with (codes "0x") v && (length (drop 2 v) == n && all_hex (drop 2 v))

-- The digits that `bytes.hex` writes, as `int(digit, 16)` reads them.
unfoldable pub nibbles : Bytes → List ℕ
nibbles [] = []
nibbles (b ∷ bs) = b / 16 ∷ b % 16 ∷ nibbles bs

-- The loop of `pubkey_to_address` over the characters; `none` is an IndexError.
unfoldable pub spelled : Text → List ℕ → Option Text
spelled [] ns = some []
spelled (c ∷ cs) [] =
    let rest = spelled cs [] in
    if within b'0' b'9' c then elim rest [ none ↦ none | some out ↦ some (c ∷ out) ] else none
spelled (c ∷ cs) (n ∷ ns) =
    let rest = spelled cs ns in
    let out : ℕ = if within b'0' b'9' c then c else if leb 8 n then to_upper c else c in
    elim rest [ none ↦ none | some more ↦ some (out ∷ more) ]

-- The characters of `_checksum`: letters whose digit of the hash is at least 8 in upper case; `none` is
-- an IndexError.
unfoldable pub cased : Text → List ℕ → Option Text
cased [] ns = some []
cased (c ∷ cs) [] =
    let rest = cased cs [] in
    if within b'0' b'9' c then elim rest [ none ↦ none | some out ↦ some (c ∷ out) ] else none
cased (c ∷ cs) (n ∷ ns) =
    let rest = cased cs ns in
    elim rest [
      | none ↦ none
      | some out ↦ some ((if not (within b'0' b'9' c) && leb 8 n then to_upper c else c) ∷ out)
    ]

-- `pin.encode("utf-8")`; `none` is the error on a surrogate.
unfoldable pub utf8_char : ℕ → Option Bytes
utf8_char c =
    if ltb c 0x80
    then some (c ∷ [])
    else if ltb c 0x800
    then some ((0xc0 + c / 0x40) ∷ (0x80 + c % 0x40) ∷ [])
    else if within 0xd800 0xdfff c
    then none
    else if ltb c 0x10000
    then some ((0xe0 + c / 0x1000) ∷ (0x80 + (c / 0x40) % 0x40) ∷ (0x80 + c % 0x40) ∷ [])
    else some (
        (0xf0 + c / 0x40000)
        ∷ (0x80 + (c / 0x1000) % 0x40)
        ∷ (0x80 + (c / 0x40) % 0x40)
        ∷ (0x80 + c % 0x40)
        ∷ [])

unfoldable pub utf8 : Text → Option Bytes
unfolding utf8_char
utf8 [] = some []
utf8 (c ∷ cs) =
    let rest = utf8 cs in
    elim (utf8_char c) [
      | none ↦ none
      | some bs ↦ elim rest [ none ↦ none | some out ↦ some (bs ++ out) ]
    ]

module _ {S : Type 0} where
  unfoldable pub parse_hash_strict : Value → Action S Fault Bytes
  unfolding all_hex from_hex
  parse_hash_strict (text v) =
      if not (is_prefixed_hex 64 v)
      then fail bad_request
      else elim (from_hex (drop 2 v)) [ none ↦ raise foreign | some digest ↦ pure digest ]
  parse_hash_strict _ = fail bad_request

  unfoldable pub pin_buffer : Value → Action S Fault Bytes
  unfolding utf8
  pin_buffer (text pin) = elim (utf8 pin) [
    | none ↦ raise foreign
    | some buf ↦
        if not (leb 4 (length buf) && leb (length buf) 16) then fail bad_request else pure buf
  ]
  pin_buffer _ = fail bad_request

module _ (keccak256 : Bytes → Bytes) where
  -- `_checksum`
  unfoldable pub checksum : Text → Option Text
  unfolding cased nibbles
  checksum addr = elim (cased addr (nibbles (keccak256 addr))) [
    | none ↦ none
    | some out ↦ some (codes "0x" ++ out)
  ]

  module _ {S : Type 0} where
    unfoldable pub parse_address : Value → Action S Fault Text
    unfolding all_hex checksum
    parse_address (text v) =
        if not (is_prefixed_hex 40 v)
        then fail bad_request
        else elim (checksum (drop 2 (lower v))) [
          | none ↦ raise foreign
          | some right ↦ if not (equal v right) then fail bad_request else pure v
        ]
    parse_address _ = fail bad_request

    unfoldable pub pubkey_to_address : {K : Type 0} → Curve K → Bytes → Action S Fault Text
    unfolding spelled nibbles
    pubkey_to_address curve pubkey = elim (curve.from_string pubkey) [
      | none ↦ raise (unproved malformed)
      | some k ↦
          let hash = keccak256 (drop 1 (curve.uncompressed k)) in
          let addr = to_hex (drop (length hash - 20) hash) in
          elim (spelled addr (nibbles (keccak256 addr))) [
            | none ↦ raise foreign
            | some out ↦ pure (codes "0x" ++ out)
          ]
    ]
