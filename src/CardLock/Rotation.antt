-- ===== src/CardLock/Rotation.antt =====
-- scripts/card_lock.py: the passphrase, the keys, and `main` with `--execute`. What is printed is left
-- out, but for the exit code; every exception that `main` catches is the one failure.
use nuri_passkey_prf_smartca.Base.{
  ℕ, zero, suc, Bool, true, false, ◌&&◌, ◌||◌, [], ◌∷◌, Option, none, some, Bytes, Text, codes, leb,
  ◌==◌, equal, if◌then◌else◌, is_nil, length, upper, to_hex, ok, Action, pure, raise, ◌>>=◌, ◌>>◌,
}
use nuri_passkey_prf_smartca.CardLock.Escrow.{
  default_key, Keys, Payload, type_or_aes, Cipher, decrypt, is_ascii,
}
use nuri_passkey_prf_smartca.CardLock.Parsing.{identity}
use nuri_passkey_prf_smartca.CardLock.Keyset.{split_lines, permits}
use nuri_passkey_prf_smartca.CardLock.Files.{Failure, refused, require, wanted}
use nuri_passkey_prf_smartca.CardLock.Gp.{Outside, Args, Shell, Gp, first_name, run, read_file}

-- `value.rstrip(b"\r\n")`
unfoldable pub strip_end : Bytes → Bytes
strip_end [] = []
strip_end (c ∷ cs) =
    let rest = strip_end cs in if is_nil rest && (c == 10 || c == 13) then [] else c ∷ rest

abbrev pub same_keys : Keys → Keys → Bool
same_keys a b = equal a.enc b.enc && equal a.mac b.mac && equal a.dek b.dek

abbrev pub same_option : Option Text → Option Text → Bool
same_option none none = true
same_option none (some t) = false
same_option (some t) none = false
same_option (some t) (some u) = equal t u

-- `==` on payloads.
unfoldable pub same_payload : Payload → Payload → Bool
unfolding equal
same_payload a b =
    equal a.gp b.gp
    && equal a.cplc b.cplc
    && equal a.serial b.serial
    && a.key_version == b.key_version
    && same_option a.key_type b.key_type
    && same_keys a.old_keys b.old_keys
    && same_keys a.new_keys b.new_keys

-- `dict.fromkeys(("enc", "mac", "dek"), key)`
abbrev pub one_key : Text → Keys
one_key k = record { enc = k; mac = k; dek = k }

-- What is known of the card before it is asked for a confirmation.
pub record Target : Type 0 where
  pub gp : Gp
  pub cplc : Text
  pub serial : Text
  pub version : ℕ
  pub key_type : Text
  pub current : Keys

abbrev pub keys_of : Option Payload → Keys
keys_of none = one_key default_key
keys_of (some p) = p.new_keys

-- The escrow fits the card, if there is one.
unfoldable pub fits : Option Payload → Text → ℕ → Text → Bool
unfolding equal
fits none cplc version key_type = true
fits (some p) cplc version key_type =
    equal p.cplc cplc && p.key_version == version && equal (type_or_aes p.key_type) key_type

module _ {W : Type 0} (outside : Outside W) where
  -- A call of something outside that leaves no entry in the log.
  unfoldable pub outer_call : {A : Type 0} → (W → A × W) → Action (Shell W) Failure A
  outer_call f s = let (a, w) = f s.outer in (ok a, record s { outer = w })

  -- The passphrase of the terminal, typed twice to confirm it.
  unfoldable pub typed_password : Bool → Action (Shell W) Failure Bytes
  unfolding outer_call equal
  typed_password confirm = do
    require outside.is_terminal
    answer ← outer_call outside.ask_secret
    password ← wanted answer
    if confirm
        then (outer_call outside.ask_secret >>= λ a.
            wanted a >>= λ again. require (equal password again))
        else pure tt
    pure password

  unfoldable pub descriptor_password : ℕ → Action (Shell W) Failure Bytes
  unfolding outer_call strip_end
  descriptor_password fd = do
    value ← outer_call (outside.read_descriptor fd)
    require (leb (length value) 4097)
    pure (strip_end value)

  unfoldable pub password_source : Option ℕ → Bool → Action (Shell W) Failure Bytes
  unfolding typed_password descriptor_password
  password_source none confirm = typed_password confirm
  password_source (some fd) confirm = descriptor_password fd

  unfoldable pub password_from : Args → Bool → Action (Shell W) Failure Bytes
  unfolding password_source
  password_from args confirm = do
    password ← password_source args.passphrase_fd confirm
    require (leb 16 (length password))
    pure password

  -- The rounds of `new_key` for DES3.
  unfoldable pub parity_rounds : ℕ → Action (Shell W) Failure Text
  unfolding outer_call
  parity_rounds zero = raise refused
  parity_rounds (suc n) = outer_call (outside.token 16) >>= λ bytes.
      elim (outside.adjust_parity bytes) [
        | none ↦ parity_rounds n
        | some key ↦ pure (upper (to_hex key))
      ]

  unfoldable pub new_key : Text → Action (Shell W) Failure Text
  unfolding outer_call parity_rounds equal
  new_key key_type =
      if equal key_type (codes "AES")
      then (outer_call (outside.token 16) >>= λ bytes. pure (upper (to_hex bytes)))
      else parity_rounds 8

  -- The rounds that look for a key other than the default one.
  unfoldable pub other_key : ℕ → Text → Action (Shell W) Failure Text
  unfolding new_key equal
  other_key zero key_type = raise refused
  other_key (suc n) key_type = new_key key_type >>= λ candidate.
      elim (equal candidate default_key) [ true ↦ other_key n key_type | false ↦ pure candidate ]

  unfoldable pub check_denylist : Text → Text → Action (Shell W) Failure (Unit {0})
  unfolding read_file is_ascii permits split_lines
  check_denylist cplc serial = do
    content ← read_file outside outside.deny_path
    require (is_ascii content && permits cplc serial (split_lines false content))

  unfoldable pub read_identity : Gp → Action (Shell W) Failure (Text × Text)
  unfolding run identity
  read_identity gp = do info ← run outside gp true (codes "-i" ∷ []); wanted (identity info)

module _ {W K : Type 0} (outside : Outside W) (cipher : Cipher K) where
  -- The payload of the escrow of an unlock, before gp is touched.
  unfoldable pub stored_payload : Bool → Args → Action (Shell W) Failure (Option Payload)
  unfolding read_file password_from decrypt
  stored_payload true args = pure none
  stored_payload false args = do
    path ← wanted (first_name args.escrow none)
    content ← read_file outside (outside.resolve path)
    password ← password_from outside args false
    payload ← wanted (decrypt cipher content password)
    pure (some payload)
