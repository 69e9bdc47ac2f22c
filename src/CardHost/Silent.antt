-- ===== src/CardHost/Silent.antt =====
-- The methods of `CardSigner` but for the signing: commands of other kinds than SIGN.
use nuri_passkey_prf_smartca.Base.{
  ◌==◌, length, drop, ◌&&◌, ℕ, Bool, true, false, not, List, ◌∷◌, Option, none, some, Bytes, Text,
  if◌then◌else◌, get_or, Result, ok, err, Action, pure, raise, get, modify, ◌≢◌, Bool-cases, inl,
  inr, Keeps, Keeps-pure, Keeps-raise, Keeps-raise_if, Keeps-tried, Keeps-if, Keeps-bind,
}
use nuri_passkey_prf_smartca.Pcsc.Driver.{Exc, card_error}
use nuri_passkey_prf_smartca.Pcsc.Driver
use nuri_passkey_prf_smartca.EthPolicy.{Kind, eth1, eth2, eth1_aid}
use nuri_passkey_prf_smartca.CardHost.Signature.{Curve, malformed}
use nuri_passkey_prf_smartca.CardHost.State.{
  Fault, host, unproved, Settings, Link, Signer, Step, opened, closed, exchanged, reported,
  forgotten, Card, version_apdu, pubkey_apdu, Purpose, get_version, get_pubkey, sw_error, check_sw,
  fail, downgrade_refused,
}
use nuri_passkey_prf_smartca.CardHost.State
use nuri_passkey_prf_smartca.CardHost.Signer.{
  check_echo, parse_eth2_signature, Method, compress, transmit, tx, close, closing, open_as,
  as_fault, confirm_absent, open_eth1, open_card, with_self, read_state, key_of, load_identity,
}

-- What a card does that is not a SIGN.
abbrev pub IsSilent : Step → Type 0
IsSilent (opened kind) = Unit
IsSilent closed = Unit
IsSilent (exchanged apdu reply) = get_or apdu 1 0 ≢ 4
IsSilent (reported i) = ⊥
IsSilent forgotten = ⊥

-- A property of the log that such steps leave.
pub record Stable (G : List Step → Type 0) : Type 0 where
  pub push : (x : Step) (log : List Step) → IsSilent x → G log → G (x ∷ log)

module _ {S A : Type 0} {Inv : S → Type 0} where
  -- A value, or an error if there is none.
  pub Keeps-some :
      {B : Type 0} (e : Fault) (f : B → A) (o : Option B)
      → Keeps {E = Fault} Inv
          (elim o as (λ _. Action S Fault A) [ none ↦ raise e | some b ↦ pure (f b) ])
  Keeps-some e f none = Keeps-raise e
  Keeps-some e f (some b) = Keeps-pure (f b)

module _ {S E : Type 0} {Inv : S → Type 0} where
  pub Keeps-get : Keeps {E = E} Inv get
  Keeps-get = record { from = λ s g. unfold get in g }

  pub Keeps-modify : (f : S → S) → ((s : S) → Inv s → Inv (f s)) → Keeps {E = E} Inv (modify f)
  Keeps-modify f kept = record { from = λ s g. unfold modify in kept s g }

module _ {S : Type 0} {Inv : S → Type 0} where
  pub check_sw-Keeps : (sw : ℕ) (what : Purpose) → Keeps Inv (check_sw {S = S} sw what)
  unfolding check_sw
  check_sw-Keeps sw what = go (sw_error sw what)
    where
      go :
          (o : Option Fault)
          → Keeps Inv
              (elim o as (λ _. Action S Fault (Unit {0})) [ none ↦ pure tt | some e ↦ raise e ])
      go none = Keeps-pure tt
      go (some e) = Keeps-raise e

module _ {S H : Type 0} {Inv : S → Type 0} (curve : Curve H) where
  compress-Keeps : (bytes : Bytes) → Keeps Inv (compress curve bytes)
  unfolding compress
  compress-Keeps bytes = Keeps-some (unproved malformed) curve.compressed (curve.from_string bytes)

  check_echo-Keeps :
      (echo : Bytes) (expected : Option Bytes) → Keeps Inv (check_echo curve echo expected)
  unfolding check_echo
  check_echo-Keeps echo none = Keeps-pure tt
  check_echo-Keeps echo (some expected) =
      Keeps-bind _ _ (compress-Keeps echo)
        λ a. Keeps-bind _ _ (compress-Keeps expected) λ b. Keeps-raise_if _ _

  pub parse_eth2_signature-Keeps :
      (resp : Bytes) (expected : Option Bytes)
      → Keeps Inv (parse_eth2_signature curve resp expected)
  unfolding parse_eth2_signature
  parse_eth2_signature-Keeps resp expected =
      Keeps-if (length resp == 129 && get_or resp 64 0 == 0x04) _ _
        (λ _. Keeps-bind _ _ (check_echo-Keeps (drop 64 resp) expected) λ _. Keeps-pure _)
        λ _.
          Keeps-if (not (length resp == 0) && get_or resp 0 0 == 0x30) _ _
            (λ _. Keeps-some (host State.card_error none) (λ rs. rs) (curve.decode_der resp))
            λ _. Keeps-raise _

module _ {H W : Type 0} (curve : Curve H) (link : Link W) (settings : Settings)
    {G : List Step → Type 0} (stable : Stable G) where
  abbrev Inv : Card W → Type 0
  Inv s = G s.log

  pub transmit-Keeps :
      (apdu : Bytes) → get_or apdu 1 0 ≢ 4 → Keeps Inv (transmit curve link settings apdu)
  unfolding transmit
  transmit-Keeps apdu other = record {
    from = λ s g. go s.is_open (link.transmit apdu s.world).0 s g;
  }
    where
      sent : Card W → Option (Bytes × ℕ) → Card W
      sent s r = record s { world = (link.transmit apdu s.world).1; log = exchanged apdu r ∷ s.log }

      go :
          (up : Bool) (r : Option (Bytes × ℕ)) (s : Card W)
          → Inv s
          → Inv (
              (if not up
                then (err State.foreign, s)
                else elim r as (λ _. Result Fault (Bytes × ℕ) × Card W) [
                  | none ↦ (err State.foreign, sent s r)
                  | some answer ↦ (ok answer, sent s r)
                ]).1)
      go false r s g = g
      go true none s g = stable.push (exchanged apdu none) s.log other g
      go true (some a) s g = stable.push (exchanged apdu (some a)) s.log other g

  pub tx-Keeps :
      (apdu : Bytes) (what : Purpose)
      → get_or apdu 1 0 ≢ 4
      → Keeps Inv (tx curve link settings apdu what)
  unfolding tx
  tx-Keeps apdu what other =
      Keeps-bind _ _ (transmit-Keeps apdu other)
        λ a. Keeps-bind _ _ (check_sw-Keeps a.1 what) λ _. Keeps-pure a.0

  pub close-Inv : (s : Card W) → Inv s → Inv (close curve link settings s).1
  unfolding close
  close-Inv s g = elim (Bool-cases s.is_open) [
    | inl up ↦ rw up (stable.push closed s.log tt g)
    | inr down ↦ rw down g
  ]

  pub closing-Keeps :
      {A : Type 0} (m : Method curve link settings A)
      → Keeps Inv m
      → Keeps Inv (closing curve link settings m)
  unfolding closing
  closing-Keeps m k = record { from = λ s g. close-Inv (m s).1 (k.from s g) }

  with_self-Keeps : (f : Signer → Signer) → Keeps {E = Fault} Inv (with_self curve link settings f)
  with_self-Keeps f = Keeps-modify _ (λ s g. g)

  open_as-Keeps : (kind : Kind) (aid : Text) → Keeps Inv (open_as curve link settings kind aid)
  unfolding open_as
  open_as-Keeps kind aid = record {
    from = λ s g. go s (link.open_applet aid settings.nuri_reader s.world) g;
  }
    where
      go :
          (s : Card W) (x : Result Exc Text × W)
          → Inv s
          → Inv (
              (elim x.0 as (λ _. Result Exc (Unit {0}) × Card W) [
                | ok name ↦ (
                  ok tt,
                  record s {
                    world = x.1;
                    log = opened kind ∷ s.log;
                    is_open = true;
                    self = record s.self { applet = kind; reader = name };
                  },
                )
                | err e ↦ (err e, record s { world = x.1 })
              ]).1)
      go s (ok name, w) g = stable.push (opened kind) s.log tt g
      go s (err e, w) g = g

  confirm_absent-Keeps : Keeps Inv (confirm_absent curve link settings)
  unfolding confirm_absent
  confirm_absent-Keeps = record { from = λ s g. g }

  open_eth1-Keeps : Keeps Inv (open_eth1 curve link settings)
  unfolding open_eth1
  open_eth1-Keeps = Keeps-bind _ _ (Keeps-raise_if _ _) λ _.
      Keeps-bind _ _ confirm_absent-Keeps λ _.
        Keeps-bind _ _ (Keeps-tried _ (open_as-Keeps eth1 eth1_aid))
          λ r. Keeps-bind _ _ (opened_or_not r) λ _. Keeps-modify _ (λ s g. g)
    where
      opened_or_not :
          (r : Result Exc (Unit {0}))
          → Keeps Inv (elim r as (λ _. Action (Card W) Fault (Unit {0})) [
            | ok _ ↦ pure tt
            | err e ↦ raise (as_fault curve link settings e)
          ])
      opened_or_not (ok _) = Keeps-pure tt
      opened_or_not (err e) = Keeps-raise (as_fault curve link settings e)

  pub open_card-Keeps : Keeps Inv (open_card curve link settings)
  unfolding open_card
  open_card-Keeps =
      Keeps-bind _ _ (Keeps-raise_if _ _)
        λ _. Keeps-bind _ _ (Keeps-tried _ (open_as-Keeps eth2 settings.eth2_aid)) fall_back
    where
      fall_back :
          (r : Result Exc (Unit {0}))
          → Keeps Inv (elim r as (λ _. Action (Card W) Fault (Unit {0})) [
            | ok _ ↦ pure tt
            | err (card_error Driver.no_applet) ↦ open_eth1 curve link settings
            | err e ↦ raise (as_fault curve link settings e)
          ])
      fall_back (ok _) = Keeps-pure tt
      fall_back (err (card_error Driver.no_applet)) = open_eth1-Keeps
      fall_back (err (card_error Driver.no_reader)) = Keeps-raise _
      fall_back (err (card_error Driver.no_card)) = Keeps-raise _
      fall_back (err (card_error Driver.transport)) = Keeps-raise _
      fall_back (err Driver.value_error) = Keeps-raise _
      fall_back (err (Driver.raised e)) = Keeps-raise _

  read_state-Keeps : (ver : Bytes) → Keeps Inv (read_state curve link settings ver)
  unfolding read_state
  read_state-Keeps ver =
      Keeps-bind _ _ (Keeps-raise_if _ _)
        λ _. Keeps-bind _ _ (with_self-Keeps _) λ _. Keeps-raise_if _ _

  key_of-Keeps : (kind : Kind) (bytes : Bytes) → Keeps Inv (key_of curve link settings kind bytes)
  unfolding key_of
  key_of-Keeps eth1 bytes = Keeps-bind _ _ (Keeps-raise_if _ _) λ _. Keeps-pure bytes
  key_of-Keeps eth2 bytes = Keeps-bind _ _ (Keeps-raise_if _ _) λ _. compress-Keeps curve bytes

  pub load_identity-Keeps : Keeps Inv (load_identity curve link settings)
  unfolding load_identity
  load_identity-Keeps = Keeps-bind _ _ (with_self-Keeps _) λ _.
      Keeps-bind _ _ (tx-Keeps version_apdu get_version (λ e. cc)) λ ver.
        Keeps-bind _ _ (with_self-Keeps _) λ _. Keeps-bind _ _ Keeps-get λ s.
          Keeps-bind _ _ (Keeps-if _ _ _ (λ _. read_state-Keeps ver) (λ _. Keeps-pure tt)) λ _.
            Keeps-bind _ _ (tx-Keeps pubkey_apdu get_pubkey (λ e. cc))
              λ bytes. Keeps-bind _ _ (key_of-Keeps s.self.applet bytes) λ key. with_self-Keeps _
