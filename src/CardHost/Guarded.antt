-- ===== src/CardHost/Guarded.antt =====
-- A SIGN is sent only in a session that has read the identity which `info` reported last.
use nuri_passkey_prf_smartca.Base.{
  ℕ, ◌/◌, ◌%◌, Bool, true, false, not, List, [], ◌∷◌, ◌++◌, Option, none, some, Bytes, ◌==◌,
  if◌then◌else◌, get_or, Result, ok, err, ◌≡◌, ◌⊎◌, Keeps-pure, Keeps-raise_if, Keeps-if,
  Keeps-bind, after_bind,
}
use nuri_passkey_prf_smartca.EthPolicy.{eth2}
use nuri_passkey_prf_smartca.CardHost.Signature.{Curve}
use nuri_passkey_prf_smartca.CardHost.State.{
  Fault, foreign, Settings, Link, Identity, Step, opened, closed, exchanged, reported, forgotten,
  Card, version_apdu, pubkey_apdu, sign_header, signing,
}
use nuri_passkey_prf_smartca.CardHost.Signer.{is_eth2, transmit, tx, sign_in_session, verify_apdu}
use nuri_passkey_prf_smartca.CardHost.Silent.{
  parse_eth2_signature-Keeps, IsSilent, Stable, Keeps-get, check_sw-Keeps,
}
use nuri_passkey_prf_smartca.CardHost.Session.{KeyOf}

-- The identity that was reported last and not forgotten since.
unfoldable pub latest : List Step → Option Identity
latest [] = none
latest (reported i ∷ log) = some i
latest (forgotten ∷ log) = none
latest (opened k ∷ log) = latest log
latest (closed ∷ log) = latest log
latest (exchanged a r ∷ log) = latest log

-- The bit of an ETH2 VERSION that says that a PIN is set.
abbrev pub pin_bit : Bytes → Bool
pin_bit ver = (get_or ver 7 0 / 2) % 2 == 1

module _ {H W : Type 0} (curve : Curve H) (link : Link W) (settings : Settings) where
  -- The log in front of a SIGN: an applet of the kind that was reported last was opened; its VERSION and
  -- PUBKEY were read, the latter with the key that was reported; and then, only if a PIN is set, a VERIFY
  -- was answered with 9000.
  pub record Guarded (apdu : Bytes) (log : List Step) : Type 0 where
    pub identity : Identity
    pub digest : Bytes
    pub is_sign : apdu ≡ sign_header ++ digest
    pub ver : Bytes
    pub answer : Bytes
    pub rest : List Step
    pub reported_last : latest rest ≡ some identity
    pub same_key : KeyOf curve link settings identity.applet answer identity.pubkey
    pub shape :
        ((log
            ≡ exchanged pubkey_apdu (some (answer, 0x9000))
              ∷ exchanged version_apdu (some (ver, 0x9000))
              ∷ opened identity.applet
              ∷ rest)
          × (is_eth2 identity.applet ≡ true → pin_bit ver ≡ false))
        ⊎ ((pin : Bytes) × (out : Bytes) × (log
              ≡ exchanged (verify_apdu curve link settings pin) (some (out, 0x9000))
                ∷ exchanged pubkey_apdu (some (answer, 0x9000))
                ∷ exchanged version_apdu (some (ver, 0x9000))
                ∷ opened identity.applet
                ∷ rest)
            × (identity.applet ≡ eth2)
            × (pin_bit ver ≡ true))

  -- Each SIGN of the log is.
  unfoldable pub AllGuarded : List Step → Type 0
  AllGuarded [] = Unit
  AllGuarded (exchanged apdu r ∷ log) = (get_or apdu 1 0 ≡ 4 → Guarded apdu log) × AllGuarded log
  AllGuarded (opened k ∷ log) = AllGuarded log
  AllGuarded (closed ∷ log) = AllGuarded log
  AllGuarded (reported i ∷ log) = AllGuarded log
  AllGuarded (forgotten ∷ log) = AllGuarded log

  -- This, with the identity that was reported last.
  abbrev pub Good : Option Identity → List Step → Type 0
  Good i log = AllGuarded log × (latest log ≡ i)

  pub Stable-Good : (i : Option Identity) → Stable (Good i)
  Stable-Good i = record { push = go }
    where
      go : (x : Step) (log : List Step) → IsSilent x → Good i log → Good i (x ∷ log)
      go (opened k) log s g = unfold AllGuarded latest in g
      go closed log s g = unfold AllGuarded latest in g
      go (exchanged apdu r) log s g = unfold AllGuarded latest in (((λ e. absurd (s e)), g.0), g.1)
      go (reported j) log s g = absurd s
      go forgotten log s g = absurd s

  module _ (i : Option Identity) where
    abbrev Inv : Card W → Type 0
    Inv s = Good i s.log

    -- A command that may be a SIGN.
    transmit-Good :
        (apdu : Bytes) (s : Card W)
        → Good i s.log
        → Guarded apdu s.log
        → Good i (transmit curve link settings apdu s).1.log
    unfolding transmit AllGuarded latest
    transmit-Good apdu s g guard = go s.is_open (link.transmit apdu s.world).0
      where
        sent : Option (Bytes × ℕ) → Card W
        sent r = record s { world = (link.transmit apdu s.world).1; log = exchanged apdu r ∷ s.log }

        go :
            (up : Bool) (r : Option (Bytes × ℕ))
            → Good i (
                (if not up
                  then (err foreign, s)
                  else elim r as (λ _. Result Fault (Bytes × ℕ) × Card W) [
                    | none ↦ (err foreign, sent r)
                    | some answer ↦ (ok answer, sent r)
                  ]).1.log)
        go false r = g
        go true none = (((λ _. guard), g.0), g.1)
        go true (some a) = (((λ _. guard), g.0), g.1)

    pub sign_in_session-Good :
        (digest : Bytes) (s : Card W)
        → Good i s.log
        → Guarded (sign_header ++ digest) s.log
        → Good i (sign_in_session curve link settings digest s).1.log
    unfolding sign_in_session
    sign_in_session-Good digest s g guard =
        after_bind Inv (tx curve link settings (sign_header ++ digest) signing) _ s sent
          λ resp s₁ e₁ g₁.
            (Keeps-bind {Inv = Inv} _ _ Keeps-get λ a.
                Keeps-if (is_eth2 a.self.applet) _ _
                  (λ _. parse_eth2_signature-Keeps curve resp (some a.self.pubkey))
                  λ _. Keeps-bind _ _ (Keeps-raise_if _ _) λ _. Keeps-pure _).from
              s₁ g₁
      where
        sent : Good i (tx curve link settings (sign_header ++ digest) signing s).1.log
        sent =
            unfold tx in
            after_bind Inv (transmit curve link settings (sign_header ++ digest)) _ s
              (transmit-Good (sign_header ++ digest) s g guard)
              λ a s₁ e₁ g₁.
                (Keeps-bind {Inv = Inv} _ _ (check_sw-Keeps a.1 signing) λ _. Keeps-pure a.0).from
                  s₁ g₁
