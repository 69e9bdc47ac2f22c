-- ===== src/CardTotp/Code.antt =====
-- The code: found in every SHA-1 digest, and of the width asked for.
use native.Mathlib.Nat.{mod-lt}
use nuri_passkey_prf_smartca.Base.{
  ℕ, zero, suc, ◌+◌, ◌-◌, ◌/◌, ◌≤◌, ◌<◌, ◌%◌, ◌^◌, [], ◌∷◌, some, Bytes, Text, ◌≡◌, ◌∙◌, refl,
  arith, ==_iff, ltb, false, Bool-cases, inl, inr, length, take, drop, length-take, length-drop,
  from_bytes, decimal, decimal_onto,
}
use nuri_passkey_prf_smartca.CardTotp.{last_byte, zeros, word_at, padded, truncate}

length-zeros : (n : ℕ) (t : Text) → length (zeros n t) ≡ n + length t
length-zeros zero t = omega arith
length-zeros (suc n) t = omega (arith, length-zeros n t)

tenth : (n d : ℕ) → n < 10 ^ suc d → n / 10 < 10 ^ d
tenth n d h = omega arith

-- A number below ten to the `d` has at most `d` digits.
length-decimal_onto :
    (fuel d n : ℕ) (acc : Text)
    → n < 10 ^ suc d
    → length (decimal_onto fuel n acc) ≤ suc d + length acc
unfolding decimal_onto
length-decimal_onto zero d n acc small = omega arith
length-decimal_onto (suc fuel) d n acc small = elim (Bool-cases (ltb n 10)) [
  | inl digit ↦ rw digit (omega arith)
  | inr more ↦ rw more (below d small more (length-decimal_onto fuel))
]
  where
    rest : Text
    rest = (48 + n % 10) ∷ acc

    below :
        (d : ℕ)
        → n < 10 ^ suc d
        → ltb n 10 ≡ false
        → ((d n : ℕ) (acc : Text)
            → n < 10 ^ suc d
            → length (decimal_onto fuel n acc) ≤ suc d + length acc)
        → length (decimal_onto fuel (n / 10) rest) ≤ suc d + length acc
    below zero small more rec = absurd (ground arith)
    below (suc d) small more rec = omega (arith, rec d (n / 10) rest (tenth n (suc d) small))

word_at-some :
    (digest : Bytes) (offset : ℕ)
    → length digest ≡ 20
    → offset < 16
    → (w : ℕ) × (word_at digest offset ≡ some w)
unfolding word_at
word_at-some digest offset twenty small =
    let four : length (take 4 (drop offset digest)) ≡ 4 =
      length-take 4 (drop offset digest) ∙ omega (arith, length-drop offset digest) in
    (
      from_bytes 0 (take 4 (drop offset digest)),
      rw ((==_iff (length (take 4 (drop offset digest))) 4).1 four) refl,
    )

last_byte-some : (b : ℕ) (bs : Bytes) → (c : ℕ) × (last_byte (b ∷ bs) ≡ some c)
last_byte-some b [] = (b, refl)
last_byte-some b (c ∷ bs) = last_byte-some c bs

pow_pos : (k : ℕ) → 0 < 10 ^ k
pow_pos zero = omega arith
pow_pos (suc k) = omega (arith, pow_pos k)

length-padded : (k n : ℕ) → n < 10 ^ suc k → length (padded (suc k) n) ≡ suc k
unfolding padded
length-padded k n small = omega (
  arith,
  length-zeros (suc k - length (decimal n)) (decimal n),
  length-decimal_onto (suc n) k n [] small,
)

truncate-eq :
    (digits : ℕ) (digest : Bytes) (b word : ℕ)
    → last_byte digest ≡ some b
    → word_at digest (b % 16) ≡ some word
    → truncate digits digest ≡ some (padded digits (word % 2 ^ 31 % 10 ^ digits))
unfolding truncate
truncate-eq digits digest b word found read = rw (found, truncate) (rw (read, truncate) refl)

-- From every digest of 20 bytes `truncate` makes a code, and it has as many characters as digits were
-- asked for, if that is one at least.
pub truncate-length :
    (digits : ℕ) (digest : Bytes)
    → 1 ≤ digits
    → length digest ≡ 20
    → (code : Text) × (truncate digits digest ≡ some code) × (length code ≡ digits)
truncate-length zero digest some_digits twenty = absurd (omega arith)
truncate-length (suc k) [] some_digits twenty = absurd (omega arith)
truncate-length (suc k) (b ∷ bs) some_digits twenty =
    let (c, found) = last_byte-some b bs in
    let (word, read) = word_at-some (b ∷ bs) (c % 16) twenty (omega arith) in
    let code = padded (suc k) (word % 2 ^ 31 % 10 ^ suc k) in
    (
      code,
      truncate-eq (suc k) (b ∷ bs) c word found read,
      length-padded k _ (mod-lt (word % 2 ^ 31) (pow_pos (suc k))),
    )
