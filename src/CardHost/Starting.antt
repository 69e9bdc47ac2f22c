-- ===== src/CardHost/Starting.antt =====
-- The construction of a `CardSigner`, its attestation included, sends no SIGN.
use nuri_passkey_prf_smartca.Base.{
  ℕ, zero, suc, Bool, true, false, ◌||◌, not, List, [], ◌∷◌, ◌++◌, Option, none, some, Bytes, Text,
  ◌==◌, equal, if◌then◌else◌, get_or, Result, ok, err, Action, pure, raise, ◌≢◌, Keeps, Keeps-pure,
  Keeps-raise, Keeps-raise_if, Keeps-lift, Keeps-tried, Keeps-if, Keeps-bind,
}
use nuri_passkey_prf_smartca.Attest.Evidence.{
  Failure, refused, transport, os_error, page_failed, Crypto,
}
use nuri_passkey_prf_smartca.Attest.Checks.{eth2_aid}
use nuri_passkey_prf_smartca.Attest.Challenges.{Verifier, issue}
use nuri_passkey_prf_smartca.Attest.Exchange.{
  Session, page_request, send, whole_info, read_page, read_attestation,
}
use nuri_passkey_prf_smartca.CardHost.Signature.{Curve}
use nuri_passkey_prf_smartca.CardHost.State.{
  Settings, Link, Attested, unsupported, verified, Step, exchanged, Card,
}
use nuri_passkey_prf_smartca.CardHost.Signer.{Method, is_eth2}
use nuri_passkey_prf_smartca.CardHost.Startup.{
  asked, raw_transmit, read_pages, conclude, interview, attest, attested_as, load_attestation_from,
  load_attestation, new_signer,
}
use nuri_passkey_prf_smartca.CardHost.Silent.{
  Stable, Keeps-get, Keeps-modify, closing-Keeps, open_card-Keeps, load_identity-Keeps,
}

module _ {C K : Type 0} (crypto : Crypto K) (sends : Bytes → Action C Failure (Bytes × ℕ))
    {Inv : C → Type 0} (kept : (apdu : Bytes) → get_or apdu 1 0 ≢ 4 → Keeps Inv (sends apdu)) where
  abbrev OnCard : Session C → Type 0
  OnCard s = Inv s.card

  send-Keeps : (apdu : Bytes) → get_or apdu 1 0 ≢ 4 → Keeps OnCard (send sends apdu)
  unfolding send
  send-Keeps apdu other = record { from = λ s g. (kept apdu other).from s.card g }

  whole_info-Keeps : (page : ℕ) (bytes : Bytes) → Keeps OnCard (whole_info crypto sends page bytes)
  unfolding whole_info
  whole_info-Keeps zero bytes = Keeps-bind _ _ (Keeps-lift _) (λ _. Keeps-pure tt)
  whole_info-Keeps (suc page) bytes = Keeps-pure tt

  read_page-Keeps :
      (cla : ℕ) (challenge : Bytes) (page limit : ℕ)
      → Keeps OnCard (read_page crypto sends cla challenge page limit)
  unfolding read_page
  read_page-Keeps cla challenge page limit =
      Keeps-bind _ _ (send-Keeps (page_request cla page challenge) (λ e. cc)) λ a.
        Keeps-bind _ _ (Keeps-raise_if _ _) λ _.
          Keeps-bind _ _ (Keeps-raise_if _ _)
            λ _. Keeps-bind _ _ (whole_info-Keeps page a.0) λ _. Keeps-pure a.0

  read_attestation-Keeps :
      (cla : ℕ) (challenge : Bytes) → Keeps OnCard (read_attestation crypto sends cla challenge)
  unfolding read_attestation
  read_attestation-Keeps cla challenge = Keeps-bind _ _ (Keeps-raise_if _ _) λ _.
      Keeps-bind _ _ (Keeps-raise_if _ _) λ _.
        Keeps-bind _ _ (read_page-Keeps cla challenge 0 170) λ a.
          Keeps-bind _ _ (read_page-Keeps cla challenge 1 214)
            λ b. Keeps-bind _ _ (Keeps-lift _) λ _. Keeps-pure (a ++ b)

module _ {W : Type 0} (link : Link W) {G : List Step → Type 0} (stable : Stable G) where
  abbrev Inv : Card W → Type 0
  Inv s = G s.log

  raw_transmit-Keeps : (apdu : Bytes) → get_or apdu 1 0 ≢ 4 → Keeps Inv (raw_transmit link apdu)
  unfolding raw_transmit
  raw_transmit-Keeps apdu other = record {
    from = λ s g. go s.is_open (link.transmit apdu s.world).0 s g;
  }
    where
      sent : Card W → Option (Bytes × ℕ) → Card W
      sent s r = record s { world = (link.transmit apdu s.world).1; log = exchanged apdu r ∷ s.log }

      go :
          (up : Bool) (r : Option (Bytes × ℕ)) (s : Card W)
          → Inv s
          → Inv (
              (if not up
                then (err transport, s)
                else elim r as (λ _. Result Failure (Bytes × ℕ) × Card W) [
                  | none ↦ (err transport, sent s r)
                  | some answer ↦ (ok answer, sent s r)
                ]).1)
      go false r s g = g
      go true none s g = stable.push (exchanged apdu none) s.log other g
      go true (some a) s g = stable.push (exchanged apdu (some a)) s.log other g

  asked-Keeps : {A : Type 0} (f : W → A × W) → Keeps Inv (asked link f)
  asked-Keeps f = record { from = λ s g. g }

  module _ {K : Type 0} (crypto : Crypto K) where
    read_pages-Keeps : (challenge : Bytes) → Keeps Inv (read_pages link crypto challenge)
    unfolding read_pages
    read_pages-Keeps challenge = record {
      from = λ s g.
          (read_attestation-Keeps crypto (raw_transmit link) raw_transmit-Keeps 0x80 challenge).from
            (record { card = s; log = [] }) g;
    }

    conclude-Keeps :
        (v : Verifier) (ca challenge : Bytes) (r : Result Failure Bytes)
        → Keeps Inv (conclude link crypto v ca challenge r)
    unfolding conclude
    conclude-Keeps v ca challenge (err (page_failed page sw)) =
        Keeps-if (sw == 0x6d00 || sw == 0x6e00) (pure unsupported) (raise (page_failed page sw))
          (λ _. Keeps-pure unsupported) (λ _. Keeps-raise (page_failed page sw))
    conclude-Keeps v ca challenge (err refused) = Keeps-raise _
    conclude-Keeps v ca challenge (err transport) = Keeps-raise _
    conclude-Keeps v ca challenge (err os_error) = Keeps-raise _
    conclude-Keeps v ca challenge (ok response) = Keeps-bind _ _ Keeps-get λ s.
        Keeps-bind _ _ (asked-Keeps link.monotonic)
          λ now. Keeps-bind _ _ (Keeps-lift _) λ _. Keeps-pure verified

    interview-Keeps : (ca : Bytes) → Keeps Inv (interview link crypto ca)
    unfolding interview
    interview-Keeps ca = Keeps-bind _ _ (Keeps-lift _) λ v.
        Keeps-bind _ _ (asked-Keeps link.monotonic) λ now.
          Keeps-bind _ _ (asked-Keeps link.token_bytes) λ challenge.
            Keeps-bind _ _ (Keeps-tried _ (read_pages-Keeps challenge))
              λ r. conclude-Keeps (issue now challenge v).1 ca challenge r

    given :
        {A : Type 0} (e : Failure) (o : Option A)
        → Keeps Inv
            (elim o as (λ _. Action (Card W) Failure A) [ none ↦ raise e | some a ↦ pure a ])
    given e none = Keeps-raise e
    given e (some a) = Keeps-pure a

    attest-Keeps : (aid path : Text) → Keeps Inv (attest link crypto aid path)
    unfolding attest
    attest-Keeps aid path = Keeps-bind _ _ (given refused _) λ a.
        Keeps-if (not (equal a eth2_aid)) _ _ (λ _. Keeps-pure unsupported)
          λ _. Keeps-bind _ _ (asked-Keeps (link.read_file path 16385)) λ content.
            Keeps-bind _ _ (given os_error content)
              λ ca. Keeps-bind _ _ (Keeps-raise_if _ _) λ _. interview-Keeps ca

    module _ {H : Type 0} (curve : Curve H) (settings : Settings) where
      attested_as-Keeps : (a : Attested) → Keeps Inv (attested_as link curve settings crypto a)
      attested_as-Keeps a = Keeps-modify _ (λ s g. g)

      load_attestation_from-Keeps :
          (path : Text) → Keeps Inv (load_attestation_from link curve settings crypto path)
      unfolding load_attestation_from
      load_attestation_from-Keeps path = Keeps-bind _ _ Keeps-get λ s.
          Keeps-if (not (is_eth2 s.self.applet)) _ _ (λ _. attested_as-Keeps unsupported)
            λ _.
              Keeps-bind _ _ (Keeps-tried _ (attest-Keeps settings.eth2_aid path))
                λ r. attested_as-Keeps _

      load_attestation-Keeps : Keeps Inv (load_attestation link curve settings crypto)
      unfolding load_attestation
      load_attestation-Keeps = go settings.ca_file
        where
          go :
              (file : Option Text)
              → Keeps Inv (elim file as (λ _. Method curve link settings (Unit {0})) [
                | none ↦ pure tt
                | some [] ↦ pure tt
                | some (c ∷ path) ↦ load_attestation_from link curve settings crypto (c ∷ path)
              ])
          go none = Keeps-pure tt
          go (some []) = Keeps-pure tt
          go (some (c ∷ path)) = load_attestation_from-Keeps (c ∷ path)

      pub new_signer-Keeps : Keeps Inv (new_signer link curve settings crypto)
      unfolding new_signer
      new_signer-Keeps = Keeps-bind _ _ (Keeps-modify _ (λ s g. g)) λ _.
          Keeps-bind _ _ (open_card-Keeps curve link settings stable) λ _.
            closing-Keeps curve link settings stable _ (
              Keeps-bind _ _ (load_identity-Keeps curve link settings stable)
                λ _. load_attestation-Keeps)
