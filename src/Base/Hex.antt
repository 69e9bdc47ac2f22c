-- ===== src/Base/Hex.antt =====
-- `bytes.fromhex` takes back what `bytes.hex` writes.
use Prim.Native.Nat.{ℕ, ◌/◌, ◌%◌, ◌<◌}
use mathlib.Core.Path.{◌≡◌, refl, ap}
use mathlib.Core.Bool.{false, ◌||◌}
use mathlib.Core.Option.{some}
use mathlib.Core.List.{[], ◌∷◌}
use native.Mathlib.Omega.{arith}
use nuri_passkey_prf_smartca.Base.Tests.{◌==◌}
use nuri_passkey_prf_smartca.Base.Lists.{All}
use nuri_passkey_prf_smartca.Base.Strings.{Bytes, within, hex_char, hex_digit, to_hex, from_hex}

abbrev pub IsByte : ℕ → Type 0
IsByte b = b < 256

hex_digit-hex_char : (n : ℕ) → n < 16 → hex_digit (hex_char n) ≡ some n
unfolding hex_digit
hex_digit-hex_char n h = ground arith

no_space : (n : ℕ) → n < 16 → (within 9 13 (hex_char n) || hex_char n == b' ') ≡ false
no_space n h = ground arith

pub from_hex-to_hex : (bs : Bytes) → All IsByte bs → from_hex (to_hex bs) ≡ some bs
unfolding to_hex from_hex
from_hex-to_hex [] h = refl
from_hex-to_hex (b ∷ bs) h = rw (no_space (b / 16) (omega (arith, h.0))) (
    rw
      (
        hex_digit-hex_char (b / 16) (omega (arith, h.0)),
        hex_digit-hex_char (b % 16) (omega arith),
        from_hex-to_hex bs h.1,
      )
      (ap (λ (n : ℕ). some (n ∷ bs)) (omega arith)))
