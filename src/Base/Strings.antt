-- ===== src/Base/Strings.antt =====
-- Python's `str` and `bytes` as lists of code points and bytes, with the operations that the
-- tools use of them.
use Prim.Native.Nat.{ℕ, zero, suc, ◌+◌, ◌-◌, ◌*◌, ◌/◌, ◌%◌, ◌^◌}
use Prim.Native.Char.{code}
use Prim.Native.String.{String}
use mathlib.Core.Path.{◌≡◌, refl, ap}
use mathlib.Core.Logic.{◌↔◌}
use mathlib.Core.Bool.{Bool, true, false, ◌&&◌, ◌||◌}
use mathlib.Core.List.{List, [], ◌∷◌, map, reverse}
use mathlib.Core.Option.{Option, none, some}
use native.Mathlib.Omega.{arith}
use nuri_passkey_prf_smartca.Base.Lists.{length}
use nuri_passkey_prf_smartca.Base.Tests.{ltb, leb, ◌==◌, if◌then◌else◌}

abbrev pub Bytes : Type 0
Bytes = List ℕ

abbrev pub Text : Type 0
Text = List ℕ

-- The code points of a literal.
abbrev pub codes : String → Text
codes String.[] = []
codes (String.◌∷◌ c s) = code c ∷ codes s

abbrev pub within : ℕ → ℕ → ℕ → Bool
within lo hi c = leb lo c && leb c hi

-- `a == b` on texts and byte strings.
unfoldable pub equal : List ℕ → List ℕ → Bool
equal [] ys = elim ys [ [] ↦ true | _ ∷ _ ↦ false ]
equal (x ∷ xs) [] = false
equal (x ∷ xs) (y ∷ ys) = x == y && equal xs ys

pub equal_iff : (a b : List ℕ) → (equal a b ≡ true) ↔ (a ≡ b)
unfolding equal
equal_iff [] [] = ground arith
equal_iff [] (y ∷ ys) = ground arith
equal_iff (x ∷ xs) [] = ground arith
equal_iff (x ∷ xs) (y ∷ ys) = ground (arith, equal_iff xs ys)

pub equal_refl : (a : List ℕ) → equal a a ≡ true
equal_refl a = (equal_iff a a).1 refl

-- `x in xs`, on numbers and on texts.
unfoldable pub contains : ℕ → List ℕ → Bool
contains x [] = false
contains x (y ∷ ys) = x == y || contains x ys

unfoldable pub contains_text : Text → List Text → Bool
contains_text x [] = false
contains_text x (y ∷ ys) = equal x y || contains_text x ys

unfoldable pub starts_with : Text → Text → Bool
starts_with [] s = true
starts_with (p ∷ ps) [] = false
starts_with (p ∷ ps) (c ∷ cs) = p == c && starts_with ps cs

-- `wanted in text`, on texts.
unfoldable pub has_part : Text → Text → Bool
unfolding starts_with
has_part p [] = starts_with p []
has_part p (c ∷ cs) = starts_with p (c ∷ cs) || has_part p cs

-- Whitespace, as `str.strip` and `\s` take it, on Latin-1.
abbrev pub is_space : ℕ → Bool
is_space c = c == b' ' || within 9 13 c || within 28 31 c || c == 0x85 || c == 0xa0

unfoldable pub lstrip : Text → Text
lstrip [] = []
lstrip (c ∷ cs) = let rest = lstrip cs in if is_space c then rest else c ∷ cs

unfoldable pub strip : Text → Text
unfolding lstrip
strip s = reverse (lstrip (reverse (lstrip s)))

abbrev pub to_lower : ℕ → ℕ
to_lower c = if within b'A' b'Z' c then c + 32 else c

abbrev pub to_upper : ℕ → ℕ
to_upper c = if within b'a' b'z' c then c - 32 else c

-- `str.lower` and `str.upper`, on ASCII.
abbrev pub lower : Text → Text
lower = map to_lower

abbrev pub upper : Text → Text
upper = map to_upper

-- The value of a hexadecimal digit.
unfoldable pub hex_digit : ℕ → Option ℕ
hex_digit c =
    if within b'0' b'9' c
    then some (c - 48)
    else if within b'a' b'f' c
    then some (c - 87)
    else if within b'A' b'F' c
    then some (c - 55)
    else none

-- `bytes.fromhex`: pairs of digits, whitespace between the bytes; `none` is its ValueError.
unfoldable pub from_hex : Text → Option Bytes
unfolding hex_digit
from_hex [] = some []
from_hex (c ∷ []) = if within 9 13 c || c == b' ' then some [] else none
from_hex (c ∷ d ∷ rest) =
    let shorter = from_hex (d ∷ rest) in
    let later = from_hex rest in
    if within 9 13 c || c == b' ' then shorter else elim (hex_digit c) [
      | none ↦ none
      | some hi ↦ elim (hex_digit d) [
        | none ↦ none
        | some lo ↦ elim later [ none ↦ none | some bs ↦ some ((hi * 16 + lo) ∷ bs) ]
      ]
    ]

-- `bytes.hex`
abbrev pub hex_char : ℕ → ℕ
hex_char n = if ltb n 10 then n + 48 else n + 87

unfoldable pub to_hex : Bytes → Text
to_hex [] = []
to_hex (b ∷ bs) = hex_char (b / 16) ∷ hex_char (b % 16) ∷ to_hex bs

-- A number in decimal digits; the fuel is the number itself, which has no more digits than that.
unfoldable pub decimal_onto : ℕ → ℕ → Text → Text
decimal_onto zero n acc = acc
decimal_onto (suc f) n acc =
    let out = (48 + n % 10) ∷ acc in
    let rest = decimal_onto f (n / 10) out in if ltb n 10 then out else rest

unfoldable pub decimal : ℕ → Text
unfolding decimal_onto
decimal n = decimal_onto (suc n) n []

-- `x.to_bytes(n, "big")`
unfoldable pub to_bytes : ℕ → ℕ → Bytes
to_bytes zero x = []
to_bytes (suc n) x = (x / 256 ^ n) % 256 ∷ to_bytes n x

pub length-to_bytes : (n x : ℕ) → length (to_bytes n x) ≡ n
unfolding to_bytes
length-to_bytes zero x = refl
length-to_bytes (suc n) x = ap suc (length-to_bytes n x)

-- `int.from_bytes(bs, "big")`
unfoldable pub from_bytes : ℕ → Bytes → ℕ
from_bytes acc [] = acc
from_bytes acc (b ∷ bs) = from_bytes (acc * 256 + b) bs
