-- ===== src/CardTotp.antt =====
-- scripts/card-totp.py: the host side of the OATH-TOTP applet. The answers of the card are given; what
-- is printed and read from the terminal is left out.
pub mod Put
pub mod Code
mod Tests
use nuri_passkey_prf_smartca.Base.{
  ℕ, zero, suc, ◌+◌, ◌-◌, ◌*◌, ◌/◌, ◌%◌, ◌^◌, Bool, true, false, ◌&&◌, not, List, [], ◌∷◌, ◌++◌,
  Option, none, some, Bytes, Text, ltb, leb, ◌==◌, if◌then◌else◌, length, take, drop, get_or,
  decimal, to_bytes, from_bytes, Result, ok, err,
}

abbrev pub ins_put : ℕ
ins_put = 0x01

abbrev pub ins_calc : ℕ
ins_calc = 0x02

abbrev pub pin_min : ℕ
pin_min = 4

abbrev pub pin_max : ℕ
pin_max = 16

-- `digest[-1]`
abbrev pub last_byte : Bytes → Option ℕ
last_byte [] = none
last_byte (b ∷ []) = some b
last_byte (b ∷ c ∷ bs) = last_byte (c ∷ bs)

abbrev pub zeros : ℕ → Text → Text
zeros zero t = t
zeros (suc n) t = b'0' ∷ zeros n t

-- `f"{n:0{digits}d}"`
unfoldable pub padded : ℕ → ℕ → Text
unfolding decimal
padded digits n = zeros (digits - length (decimal n)) (decimal n)

-- The number in four bytes from the offset on; `none` is the struct.error of too few.
unfoldable pub word_at : Bytes → ℕ → Option ℕ
unfolding from_bytes
word_at digest offset =
    let four = take 4 (drop offset digest) in
    if length four == 4 then some (from_bytes 0 four) else none

-- `truncate`; `none` is the error of a digest that is too short.
unfoldable pub truncate : ℕ → Bytes → Option Text
unfolding padded word_at
truncate digits digest = elim (last_byte digest) [
  | none ↦ none
  | some b ↦ elim (word_at digest (b % 16)) [
    | none ↦ none
    | some word ↦ some (padded digits (word % 2 ^ 31 % 10 ^ digits))
  ]
]

-- `counter_bytes`, by whole seconds; `none` is the struct.error of a counter of more than 64 bits.
unfoldable pub counter_bytes : ℕ → ℕ → Option Bytes
unfolding to_bytes
counter_bytes step t = if ltb (t / step) (2 ^ 64) then some (to_bytes 8 (t / step)) else none

-- `put_apdu`; `none` is its ValueError.
unfoldable pub put_apdu : Bytes → Bytes → Option Bytes
put_apdu pin secret =
    if not (leb pin_min (length pin) && leb (length pin) pin_max)
    then none
    else if not (leb 1 (length secret) && leb (length secret) 64)
    then none
    else let body = length pin ∷ (pin ++ secret) in
      some (0x00 ∷ ins_put ∷ 0x00 ∷ 0x00 ∷ length body ∷ body)

-- The command of `code`.
unfoldable pub calc_apdu : Bytes → Bytes
calc_apdu ctr = 0x00 ∷ ins_calc ∷ 0x00 ∷ 0x00 ∷ length ctr ∷ (ctr ++ 0x00 ∷ [])
