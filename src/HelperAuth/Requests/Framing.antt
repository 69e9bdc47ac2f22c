-- ===== src/HelperAuth/Requests/Framing.antt =====
-- scripts/nuri_helper_auth.py: `check_framing` and `validate_token`, and what they promise.
use nuri_passkey_prf_smartca.Base.{
  ℕ, suc, ◌+◌, ◌*◌, ◌-◌, ◌≤◌, Bool, true, ◌&&◌, ◌||◌, not, List, [], ◌∷◌, Option, none, some, ◌≡◌,
  ◌≢◌, refl, arith, Text, ltb, leb, ◌==◌, if◌then◌else◌, length, within, strip, contains, Result,
  ok, err, Bool-cases, inl, inr,
}
use nuri_passkey_prf_smartca.HelperAuth.Requests.{Headers}

pub data FramingError : Type 0 where
  unsupported invalid_length too_large : FramingError

unfoldable pub only_digits : Text → Bool
only_digits [] = true
only_digits (c ∷ cs) = within b'0' b'9' c && only_digits cs

-- `int(text)` of digits, onto what stands before them.
unfoldable pub int_onto : ℕ → Text → ℕ
int_onto acc [] = acc
int_onto acc (c ∷ cs) = int_onto (acc * 10 + (c - 48)) cs

-- `[0-9]{1,10}`
unfoldable pub is_length : Text → Bool
unfolding only_digits
is_length t = leb 1 (length t) && leb (length t) 10 && only_digits t

-- One Content-Length.
unfoldable pub one_length : ℕ → Text → Option FramingError × ℕ
unfolding is_length int_onto strip
one_length max_body value =
    let n = int_onto 0 (strip value) in
    if not (is_length (strip value))
    then (some invalid_length, 0)
    else if ltb max_body n
    then (some too_large, 0)
    else (none, n)

unfoldable pub check_framing : ℕ → Headers → Option FramingError × ℕ
unfolding one_length
check_framing max_body h = elim h.transfer_encoding [
  | some _ ↦ (some unsupported, 0)
  | none ↦ elim h.content_lengths [
    | [] ↦ (none, 0)
    | value ∷ more ↦ elim more [ [] ↦ one_length max_body value | _ ∷ _ ↦ (some invalid_length, 0) ]
  ]
]

abbrev pub min_distinct_token_chars : ℕ
min_distinct_token_chars = 8

unfoldable pub all_lower_hex : Text → Bool
all_lower_hex [] = true
all_lower_hex (c ∷ cs) = (within b'0' b'9' c || within b'a' b'f' c) && all_lower_hex cs

-- `len(set(token))`
unfoldable pub distinct : Text → ℕ
unfolding contains
distinct [] = 0
distinct (c ∷ cs) = let rest = distinct cs in if contains c cs then rest else suc rest

-- `validate_token`, on a string.
unfoldable pub validate_token : Text → Result (Unit {0}) Text
unfolding all_lower_hex distinct
validate_token token =
    if not (length token == 64 && all_lower_hex token)
    then err tt
    else if ltb (distinct token) min_distinct_token_chars
    then err tt
    else ok token

-- How a framing that is accepted looks: no Transfer-Encoding, and no Content-Length or one that is at
-- most ten digits and no larger than the limit.
pub data Framed (max_body : ℕ) (lengths : List Text) (n : ℕ) : Type 0 where
  no_body : lengths ≡ [] → n ≡ 0 → Framed max_body lengths n
  has_body :
      (value : Text)
      → lengths ≡ value ∷ []
      → is_length (strip value) ≡ true
      → n ≡ int_onto 0 (strip value)
      → n ≤ max_body
      → Framed max_body lengths n

-- What an outcome says of its headers.
abbrev Sound : ℕ → Option Text → List Text → Option FramingError × ℕ → Type 0
Sound max_body coding lengths (res, n) =
    (res ≡ none → (coding ≡ none) × Framed max_body lengths n) × (res ≢ none → n ≡ 0)

refused-Sound :
    (max_body : ℕ) (coding : Option Text) (lengths : List Text) (e : FramingError)
    → Sound max_body coding lengths (some e, 0)
refused-Sound max_body coding lengths e = (λ q. cc, λ _. refl)

one_length-Sound :
    (max_body : ℕ) (value : Text) → Sound max_body none (value ∷ []) (one_length max_body value)
unfolding one_length
one_length-Sound max_body value = elim (Bool-cases (is_length (strip value))) [
  | inr bad ↦ rw bad (refused-Sound max_body none (value ∷ []) invalid_length)
  | inl good ↦ elim (Bool-cases (ltb max_body (int_onto 0 (strip value)))) [
    | inl large ↦ rw (good, large) (refused-Sound max_body none (value ∷ []) too_large)
    | inr fits ↦
        let small : int_onto 0 (strip value) ≤ max_body = ground arith in
        rw (good, fits) (λ _. (refl, has_body value refl good refl small), λ ne. absurd (ne refl))
  ]
]

-- If `check_framing` accepts, there is no Transfer-Encoding, and the length that it returns is 0 for
-- want of a Content-Length or the value of the only one, of one to ten digits, within the limit. If
-- it does not accept, the length is 0.
pub check_framing-Framed :
    (max_body : ℕ) (h : Headers)
    → let (res, n) = check_framing max_body h in
      (res ≡ none → (h.transfer_encoding ≡ none) × Framed max_body h.content_lengths n)
      × (res ≢ none → n ≡ 0)
unfolding check_framing
check_framing-Framed max_body h = go h.transfer_encoding h.content_lengths
  where
    go :
        (coding : Option Text) (lengths : List Text)
        → Sound max_body coding lengths (elim coding as (λ _. Option FramingError × ℕ) [
          | some _ ↦ (some unsupported, 0)
          | none ↦ elim lengths as (λ _. Option FramingError × ℕ) [
            | [] ↦ (none, 0)
            | value ∷ more ↦ elim more as (λ _. Option FramingError × ℕ) [
              | [] ↦ one_length max_body value
              | _ ∷ _ ↦ (some invalid_length, 0)
            ]
          ]
        ])
    go (some t) lengths = refused-Sound max_body (some t) lengths unsupported
    go none [] = (λ _. (refl, no_body refl refl), λ ne. absurd (ne refl))
    go none (value ∷ []) = one_length-Sound max_body value
    go none (value ∷ v ∷ more) = refused-Sound max_body none (value ∷ v ∷ more) invalid_length
