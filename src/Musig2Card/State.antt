-- ===== src/Musig2Card/State.antt =====
-- scripts/nuri_musig2_card.py: the constants, the object and its surroundings, and what needs no card.
use nuri_passkey_prf_smartca.Base.{
  ℕ, ◌+◌, ◌*◌, ◌/◌, ◌%◌, Bool, true, false, not, ◌&&◌, ◌||◌, List, [], ◌∷◌, ◌++◌, Option, none,
  some, Bytes, Text, ltb, leb, ◌==◌, if◌then◌else◌, length, get_or, within, to_bytes, Result, ok,
  err,
}

abbrev pub ins_get_version : ℕ
ins_get_version = 0x01

abbrev pub ins_get_pubkey : ℕ
ins_get_pubkey = 0x03

abbrev pub ins_keygen : ℕ
ins_keygen = 0x04

abbrev pub ins_verify : ℕ
ins_verify = 0x20

abbrev pub ins_set_pin : ℕ
ins_set_pin = 0x21

abbrev pub ins_pin_status : ℕ
ins_pin_status = 0x22

abbrev pub ins_get_nonces : ℕ
ins_get_nonces = 0x40

abbrev pub ins_finalize : ℕ
ins_finalize = 0x41

abbrev pub legacy_nonces_len : ℕ
legacy_nonces_len = 66

abbrev pub pin_nonces_len : ℕ
pin_nonces_len = 70

abbrev pub legacy_finalize_len : ℕ
legacy_finalize_len = 97

abbrev pub pin_finalize_len : ℕ
pin_finalize_len = 231

-- `PinError`; the RuntimeErrors with no more than their kind, with the INS byte, or with INS and the
-- status word; ValueError; AssertionError.
pub data Fault : Type 0 where
  pin_error : Fault
  no_card not_connected bad_length needs_pin_protocol missing_aggregate no_token : Fault
  transport_failed : ℕ → Fault
  failed : ℕ → ℕ → Fault
  value_error assertion_error : Fault

-- The applet behind scripts/nuri_pcsc.py as this module uses it: `open_applet`, `Applet.transmit`,
-- `Applet.close`, and the reader of the PIN that the constructor is given.
pub record Link (W : Type 0) : Type 0 where
  pub open_applet : W → Bool × W
  pub transmit : Bytes → W → Option (Bytes × ℕ) × W
  pub close : W → W
  pub pin_reader : W → Result Fault Bytes × W

-- `PIN_STATUS`
pub record PinStatus : Type 0 where
  pub required : Bool
  pub is_set : Bool
  pub tries : ℕ

-- The applet was selected anew, or a command was sent, with the status word that came back, if any.
pub data Step : Type 0 where
  selected : Step
  exchanged : Bytes → Option ℕ → Step

-- The object, the world behind the link, and what was sent, the latest first.
pub record Session (W : Type 0) : Type 0 where
  pub world : W
  pub log : List Step
  pub connected : Bool
  pub version : Option (ℕ × ℕ)
  pub capabilities : ℕ
  pub pin_status : Option PinStatus
  pub pin_verified : Bool
  pub token : Option Bytes

-- `validate_pin`, on ASCII digits.
unfoldable pub all_digits : Text → Bool
all_digits [] = true
all_digits (c ∷ cs) = within b'0' b'9' c && all_digits cs

unfoldable pub validate_pin : Text → Result Fault Bytes
unfolding all_digits
validate_pin pin =
    if not (leb 4 (length pin) && leb (length pin) 12) || not (all_digits pin)
    then err pin_error
    else ok pin

abbrev pub field_prime : ℕ
field_prime = 0xfffffffffffffffffffffffffffffffffffffffffffffffffffffffefffffc2f

-- An aggregate point as `finalize` takes it: 65 bytes, or affine coordinates.
pub data Point : Type 0 where
  sec1 : Bytes → Point
  affine : ℕ → ℕ → Point

unfoldable pub uncompressed : ℕ → ℕ → Result Fault Bytes
uncompressed x y =
    if not (ltb x field_prime && ltb y field_prime)
      || not ((y * y) % field_prime == (x * x * x + 7) % field_prime)
    then err value_error
    else ok (0x04 ∷ (to_bytes 32 x ++ to_bytes 32 y))

unfoldable pub point_bytes : Point → Result Fault Bytes
unfolding uncompressed
point_bytes (sec1 bs) = ok bs
point_bytes (affine x y) = uncompressed x y

-- `len(x) == 32`
abbrev pub is_scalar : Bytes → Bool
is_scalar x = length x == 32

-- `len(p65) == 65 and p65[0] == 4`
abbrev pub is_point : Bytes → Bool
is_point x = length x == 65 && get_or x 0 0 == 4

-- `version_tuple >= (1, 14)`
abbrev pub at_least_1_14 : ℕ × ℕ → Bool
at_least_1_14 (major, minor) = ltb 1 major || (major == 1 && leb 14 minor)

abbrev pub pin_protocol : {W : Type 0} → Session W → Bool
pin_protocol s = elim s.version [ none ↦ false | some v ↦ at_least_1_14 v ]

-- `capabilities & CAP_PIN_REQUIRED`, `capabilities & CAP_PIN_SET`
abbrev pub cap_pin_required : ℕ → Bool
cap_pin_required caps = caps / 4 % 2 == 1

abbrev pub cap_pin_set : ℕ → Bool
cap_pin_set caps = caps / 8 % 2 == 1

abbrev pub command : ℕ → Bytes
command ins = 0x00 ∷ ins ∷ 0x00 ∷ 0x00 ∷ 0x00 ∷ []

abbrev pub with_data : ℕ → Bytes → Bytes
with_data ins body = 0x00 ∷ ins ∷ 0x00 ∷ 0x00 ∷ length body ∷ body

-- `__init__`; the flag says whether the caller passes an open applet.
abbrev pub fresh : {W : Type 0} → Bool → W → Session W
fresh given w = record {
  world = w;
  log = [];
  connected = given;
  version = none;
  capabilities = 0;
  pin_status = none;
  pin_verified = false;
  token = none;
}
