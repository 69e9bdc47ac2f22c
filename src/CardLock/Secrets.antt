-- ===== src/CardLock/Secrets.antt =====
-- What asks for a secret or draws a key leaves the log as it is.
use nuri_passkey_prf_smartca.Base.{
  ℕ, zero, suc, Bool, true, false, Option, none, some, Bytes, Text, codes, equal, upper, to_hex,
  Action, pure, Keeps, Keeps-bind, Keeps-raise, Keeps-raise_if, Keeps-pure, Keeps-if,
}
use nuri_passkey_prf_smartca.CardLock.Escrow.{default_key}
use nuri_passkey_prf_smartca.CardLock.Files.{Failure, refused, wanted}
use nuri_passkey_prf_smartca.CardLock.Gp.{Outside, Args, Shell}
use nuri_passkey_prf_smartca.CardLock.Rotation.{
  outer_call, typed_password, descriptor_password, password_source, password_from, parity_rounds,
  new_key, other_key, strip_end,
}

-- A property that does not change when only the world outside does.
pub record Quiet {W : Type 0} (Inv : Shell W → Type 0) : Type 0 where
  pub outer : (s : Shell W) (w : W) → Inv s → Inv (record s { outer = w })

module _ {S A : Type 0} {Inv : S → Type 0} where
  pub wanted-Keeps : (o : Option A) → Keeps Inv (wanted o)
  wanted-Keeps none = Keeps-raise refused
  wanted-Keeps (some a) = Keeps-pure a

module _ {W : Type 0} (outside : Outside W) {Inv : Shell W → Type 0} (quiet : Quiet Inv) where
  pub outer_call-Keeps : {A : Type 0} (f : W → A × W) → Keeps Inv (outer_call outside f)
  unfolding outer_call
  outer_call-Keeps f = record { from = λ s h. quiet.outer s (f s.outer).1 h }

  typed_password-Keeps : (twice : Bool) → Keeps Inv (typed_password outside twice)
  unfolding typed_password
  typed_password-Keeps twice = Keeps-bind _ _ (Keeps-raise_if _ _) λ _.
      Keeps-bind _ _ (outer_call-Keeps outside.ask_secret) λ answer.
        Keeps-bind _ _ (wanted-Keeps answer) λ password.
          Keeps-bind _ _
            (Keeps-if twice _ _
              (λ _.
                Keeps-bind _ _ (outer_call-Keeps outside.ask_secret)
                  λ a. Keeps-bind _ _ (wanted-Keeps a) λ again. Keeps-raise_if _ _)
              (λ _. Keeps-pure tt))
            λ _. Keeps-pure password

  pub password_from-Keeps :
      (args : Args) (twice : Bool) → Keeps Inv (password_from outside args twice)
  unfolding password_from
  password_from-Keeps args twice =
      Keeps-bind _ _ (source args.passphrase_fd)
        λ password. Keeps-bind _ _ (Keeps-raise_if _ _) λ _. Keeps-pure password
    where
      source : (fd : Option ℕ) → Keeps Inv (password_source outside fd twice)
      source none = unfold password_source in typed_password-Keeps twice
      source (some fd) =
          unfold password_source descriptor_password in
          Keeps-bind _ _ (outer_call-Keeps (outside.read_descriptor fd))
            λ value. Keeps-bind _ _ (Keeps-raise_if _ _) λ _. Keeps-pure (strip_end value)

  parity_rounds-Keeps : (n : ℕ) → Keeps Inv (parity_rounds outside n)
  unfolding parity_rounds
  parity_rounds-Keeps zero = Keeps-raise refused
  parity_rounds-Keeps (suc n) =
      Keeps-bind _ _ (outer_call-Keeps (outside.token 16))
        λ bytes. next (parity_rounds-Keeps n) (outside.adjust_parity bytes)
    where
      next :
          Keeps Inv (parity_rounds outside n)
          → (o : Option Bytes)
          → Keeps Inv (elim o as (λ _. Action (Shell W) Failure Text) [
            | none ↦ parity_rounds outside n
            | some key ↦ pure (upper (to_hex key))
          ])
      next later none = later
      next later (some key) = Keeps-pure _

  new_key-Keeps : (key_type : Text) → Keeps Inv (new_key outside key_type)
  unfolding new_key
  new_key-Keeps key_type =
      Keeps-if (equal key_type (codes "AES")) _ _
        (λ _. Keeps-bind _ _ (outer_call-Keeps (outside.token 16)) λ bytes. Keeps-pure _)
        (λ _. parity_rounds-Keeps 8)

  pub other_key-Keeps : (n : ℕ) (key_type : Text) → Keeps Inv (other_key outside n key_type)
  unfolding other_key
  other_key-Keeps zero key_type = Keeps-raise refused
  other_key-Keeps (suc n) key_type =
      Keeps-bind _ _ (new_key-Keeps key_type)
        λ candidate. next (other_key-Keeps n key_type) candidate (equal candidate default_key)
    where
      next :
          Keeps Inv (other_key outside n key_type)
          → (candidate : Text) (b : Bool)
          → Keeps Inv (elim b as (λ _. Action (Shell W) Failure Text) [
            | true ↦ other_key outside n key_type
            | false ↦ pure candidate
          ])
      next later candidate true = later
      next later candidate false = Keeps-pure candidate
