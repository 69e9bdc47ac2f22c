-- ===== src/CardHost/Addresses.antt =====
-- The address that `info` reports is one that `parse_address` takes.
use nuri_passkey_prf_smartca.Base.{
  ℕ, zero, suc, ◌-◌, ◌*◌, ◌/◌, ◌%◌, ◌<◌, Bool, true, false, ◌&&◌, ◌||◌, not, List, [], ◌∷◌, ◌++◌,
  map, Option, none, some, Bytes, Text, leb, equal_refl, if◌then◌else◌, within, length, drop,
  starts_with, to_lower, to_upper, hex_char, codes, to_hex, ok, pure, ◌≡◌, refl, sym, ap, ◌∙◌,
  subst, arith, All, IsByte, length-drop, some-split, pure-back,
}
use nuri_passkey_prf_smartca.CardHost.Signature.{Curve, malformed}
use nuri_passkey_prf_smartca.CardHost.State.{unproved, foreign}
use nuri_passkey_prf_smartca.CardHost.Values.{
  text, is_hex_digit, all_hex, is_prefixed_hex, nibbles, spelled, cased, checksum, parse_address,
  pubkey_to_address,
}

-- The digits that `bytes.hex` writes.
abbrev IsLowerHex : ℕ → Type 0
IsLowerHex c = (within b'0' b'9' c || within b'a' b'f' c) ≡ true

hex_char-IsLowerHex : (n : ℕ) → n < 16 → IsLowerHex (hex_char n)
hex_char-IsLowerHex n h = ground arith

to_hex-IsLowerHex : (bs : Bytes) → All IsByte bs → All IsLowerHex (to_hex bs)
unfolding to_hex
to_hex-IsLowerHex [] h = tt
to_hex-IsLowerHex (b ∷ bs) h = (
  hex_char-IsLowerHex (b / 16) (omega (arith, h.0)),
  (hex_char-IsLowerHex (b % 16) (omega arith), to_hex-IsLowerHex bs h.1),
)

length-to_hex : (bs : Bytes) → length (to_hex bs) ≡ 2 * length bs
unfolding to_hex
length-to_hex [] = omega arith
length-to_hex (b ∷ bs) = omega (arith, length-to_hex bs)

-- A letter in either case is a digit, and the same in lower case.
recased :
    (c : ℕ) (b : Bool)
    → IsLowerHex c
    → (is_hex_digit (if b then to_upper c else c) ≡ true)
      × (to_lower (if b then to_upper c else c) ≡ c)
recased c true h = (ground arith, ground arith)
recased c false h = (ground arith, ground arith)

-- What `cased` makes of such digits: the length stays, all are digits, and lower case undoes it.
record Recased (cs out : Text) : Type 0 where
  same_length : length out ≡ length cs
  digits : all_hex out ≡ true
  undone : map to_lower out ≡ cs

cons-Recased :
    (c : ℕ) (b : Bool) {cs out : Text}
    → IsLowerHex c
    → Recased cs out
    → Recased (c ∷ cs) ((if b then to_upper c else c) ∷ out)
unfolding all_hex
cons-Recased c b {cs} {out} h r =
    let (digit, back) = recased c b h in
    record {
      same_length = omega (arith, r.same_length);
      digits = rw (digit, r.digits) refl;
      undone = ap (λ x. x ∷ map to_lower out) back ∙ ap (λ l. c ∷ l) r.undone;
    }

-- One more character, whatever its digit of the hash.
step-Recased :
    (c : ℕ) (b : Bool) (cs : Text) {out : Text} (o : Option Text)
    → IsLowerHex c
    → ((out' : Text) → o ≡ some out' → Recased cs out')
    → (elim o as (λ _. Option Text) [
      | none ↦ none
      | some out' ↦ some ((if b then to_upper c else c) ∷ out')
    ])
      ≡ some out
    → Recased (c ∷ cs) out
step-Recased c b cs none h rest e = cc
step-Recased c b cs {out} (some out') h rest e =
    let is : (if b then to_upper c else c) ∷ out' ≡ out = cc in
    subst (Recased (c ∷ cs)) is (cons-Recased c b h (rest out' refl))

cased-Recased :
    (cs : Text) (ns : List ℕ) {out : Text}
    → All IsLowerHex cs
    → cased cs ns ≡ some out
    → Recased cs out
unfolding cased all_hex
cased-Recased [] ns {out} h e =
    let is : [] ≡ out = cc in
    subst (Recased []) is (record { same_length = refl; digits = refl; undone = refl })
cased-Recased (c ∷ cs) [] {out} h e = go (within b'0' b'9' c) e (λ out'. cased-Recased cs [] h.1)
  where
    go :
        (d : Bool)
        → (if d
            then elim (cased cs []) as (λ _. Option Text) [ none ↦ none | some o ↦ some (c ∷ o) ]
            else none)
          ≡ some out
        → ((out' : Text) → cased cs [] ≡ some out' → Recased cs out')
        → Recased (c ∷ cs) out
    go true e rest = step-Recased c false cs (cased cs []) h.0 rest e
    go false e rest = cc
cased-Recased (c ∷ cs) (n ∷ ns) {out} h e =
    step-Recased c (not (within b'0' b'9' c) && leb 8 n) cs (cased cs ns) h.0
      (λ out'. cased-Recased cs ns h.1) e

-- The two loops spell an address alike.
spelled-cased : (cs : Text) (ns : List ℕ) → spelled cs ns ≡ cased cs ns
unfolding spelled cased
spelled-cased [] ns = refl
spelled-cased (c ∷ cs) [] = rw (spelled-cased cs []) refl
spelled-cased (c ∷ cs) (n ∷ ns) = rw (spelled-cased cs ns) (
    ap
      (λ (k : ℕ). elim (cased cs ns) as (λ _. Option Text) [
        | none ↦ none
        | some more ↦ some (k ∷ more)
      ])
      (same_letter (within b'0' b'9' c) (leb 8 n)))
  where
    same_letter :
        (digit big : Bool)
        → (if digit then c else if big then to_upper c else c)
          ≡ (if not digit && big then to_upper c else c)
    same_letter true big = refl
    same_letter false big = refl

prefixed :
    (out : Text)
    → length out ≡ 40
    → all_hex out ≡ true
    → is_prefixed_hex 40 (codes "0x" ++ out) ≡ true
unfolding starts_with
prefixed out l d = rw (l, d) refl

module _ (keccak256 : Bytes → Bytes) {S : Type 0} where
  taken :
      (addr out : Text) (s : S)
      → Recased addr out
      → length addr ≡ 40
      → cased addr (nibbles (keccak256 addr)) ≡ some out
      → parse_address keccak256 (text (codes "0x" ++ out)) s ≡ (ok (codes "0x" ++ out), s)
  unfolding parse_address checksum pure
  taken addr out s r l q =
      rw (prefixed out (r.same_length ∙ l) r.digits, r.undone, q, equal_refl (codes "0x" ++ out))
        refl

  -- For a hash of 32 bytes: whatever address `pubkey_to_address` returns, `parse_address` takes it, as it
  -- is.
  pub parse_address-pubkey_to_address :
      {H : Type 0} (curve : Curve H)
      → ((bs : Bytes) → (length (keccak256 bs) ≡ 32) × All IsByte (keccak256 bs))
      → (key : Bytes) (s : S) {address : Text} {t : S}
      → pubkey_to_address keccak256 curve key s ≡ (ok address, t)
      → parse_address keccak256 (text address) s ≡ (ok address, s)
  unfolding pubkey_to_address
  parse_address-pubkey_to_address curve hashes key s {address} {t} e =
      some-split (unproved malformed) _ (curve.from_string key) e λ k q₁ e₁.
        let hash = keccak256 (drop 1 (curve.uncompressed k)) in
        let addr = to_hex (drop (length hash - 20) hash) in
        some-split foreign (λ out. pure (codes "0x" ++ out))
          (spelled addr (nibbles (keccak256 addr))) e₁
          λ out q₂ e₂.
            let same : codes "0x" ++ out ≡ address = sym (pure-back e₂).0 in
            let as_checked = sym (spelled-cased addr (nibbles (keccak256 addr))) ∙ q₂ in
            let facts = hashes (drop 1 (curve.uncompressed k)) in
            let digits =
              to_hex-IsLowerHex (drop (length hash - 20) hash)
                (All-drop (length hash - 20) hash facts.1) in
            subst (λ x. parse_address keccak256 (text x) s ≡ (ok x, s)) same
              (taken addr out s (cased-Recased addr (nibbles (keccak256 addr)) digits as_checked)
                (twenty hash facts.0) as_checked)
    where
      All-drop : (n : ℕ) (bs : Bytes) → All IsByte bs → All IsByte (drop n bs)
      All-drop zero bs h = h
      All-drop (suc n) [] h = tt
      All-drop (suc n) (b ∷ bs) h = All-drop n bs h.1

      twenty : (bs : Bytes) → length bs ≡ 32 → length (to_hex (drop (length bs - 20) bs)) ≡ 40
      twenty bs l =
          length-to_hex (drop (length bs - 20) bs)
          ∙ omega (arith, length-drop (length bs - 20) bs, l)
