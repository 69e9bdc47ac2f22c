-- ===== src/CardHost/Startup.antt =====
-- host/nuri_card_host.py: `_load_attestation` and the construction of a `CardSigner`. Times are whole
-- microseconds.
use nuri_passkey_prf_smartca.Base.{
  ℕ, false, ◌||◌, not, [], ◌∷◌, none, some, Bytes, Text, ltb, ◌==◌, equal, if◌then◌else◌, length,
  from_hex, Result, ok, err, Action, pure, raise, lift, get, modify, tried, ◌>>=◌, ◌>>◌,
}
use nuri_passkey_prf_smartca.EthPolicy.{eth1}
use nuri_passkey_prf_smartca.Attest.Evidence.{
  Failure, refused, transport, os_error, page_failed, Crypto, Evidence, require,
}
use nuri_passkey_prf_smartca.Attest.Checks.{eth2_aid, raw}
use nuri_passkey_prf_smartca.Attest.Challenges.{Verifier, finite, new_verifier, issue, verify}
use nuri_passkey_prf_smartca.Attest.Exchange.{read_attestation}
use nuri_passkey_prf_smartca.CardHost.Signature.{Curve}
use nuri_passkey_prf_smartca.CardHost.State.{
  Settings, Link, Attested, unverified, unsupported, verification_failed, verified, Signer,
  exchanged, Card,
}
use nuri_passkey_prf_smartca.CardHost.Signer.{
  is_eth2, Method, with_self, closing, open_card, load_identity,
}

-- The default of `ChallengeVerifier`, 60 seconds.
abbrev pub max_age : ℕ
max_age = 60_000_000

-- The object as the constructor first fills it.
abbrev pub blank : Signer
blank = record {
  applet = eth1;
  applet_version = none;
  reader = [];
  pin_set = false;
  pin_tries_left = none;
  pubkey = [];
  attestation = unverified;
}

module _ {W : Type 0} (link : Link W) where
  -- A question to the world.
  abbrev pub asked : {A : Type 0} → (W → A × W) → Action (Card W) Failure A
  asked f s = let (a, w) = f s.world in (ok a, record s { world = w })

  -- The transport as nuri_attest uses it.
  unfoldable pub raw_transmit : Bytes → Action (Card W) Failure (Bytes × ℕ)
  raw_transmit apdu s =
      let (reply, w) = link.transmit apdu s.world in
      let sent : Card W = record s { world = w; log = exchanged apdu reply ∷ s.log } in
      if not s.is_open
      then (err transport, s)
      else elim reply [ none ↦ (err transport, sent) | some answer ↦ (ok answer, sent) ]

  module _ {K : Type 0} (crypto : Crypto K) where
    unfoldable pub read_pages : Bytes → Action (Card W) Failure Bytes
    read_pages challenge s =
        let (r, t) =
          read_attestation crypto raw_transmit 0x80 challenge (record { card = s; log = [] }) in
        (r, t.card)

    -- `verifier.verify`, on a verifier that nothing uses again.
    unfoldable pub judged : Verifier → ℕ → Bytes → Bytes → Bytes → Bytes → Result Failure Evidence
    judged v now response ca challenge key =
        (verify crypto now response (raw ca) challenge eth2_aid key v).0

    -- The answer to the pages: a card that does not know the command is unsupported.
    unfoldable pub conclude :
        Verifier → Bytes → Bytes → Result Failure Bytes → Action (Card W) Failure Attested
    conclude v ca challenge (err (page_failed page sw)) =
        if sw == 0x6d00 || sw == 0x6e00 then pure unsupported else raise (page_failed page sw)
    conclude v ca challenge (err e) = raise e
    conclude v ca challenge (ok response) = do
      s ← get
      now ← asked link.monotonic
      lift (judged v now response ca challenge s.self.pubkey)
      pure verified

    -- The challenge, its answer, and what the evidence says.
    unfoldable pub interview : Bytes → Action (Card W) Failure Attested
    interview ca = do
      v ← lift (new_verifier (finite max_age))
      now ← asked link.monotonic
      challenge ← asked link.token_bytes
      response ← tried {F = Failure} (read_pages challenge)
      conclude (issue now challenge v).1 ca challenge response

    -- The `try` of `_load_attestation`.
    unfoldable pub attest : Text → Text → Action (Card W) Failure Attested
    attest aid_text path = do
      aid ← elim (from_hex aid_text) [ none ↦ raise refused | some aid ↦ pure aid ]
      if not (equal aid eth2_aid) then pure unsupported else do
        content ← asked (link.read_file path 16385)
        ca ← elim content [ none ↦ raise os_error | some ca ↦ pure ca ]
        require (not (ltb 16384 (length ca)))
        interview ca

  module _ {H K : Type 0} (curve : Curve H) (settings : Settings) (crypto : Crypto K) where
    abbrev pub attested_as : Attested → Method curve link settings (Unit {0})
    attested_as a = with_self curve link settings (λ x. record x { attestation = a })

    unfoldable pub load_attestation_from : Text → Method curve link settings (Unit {0})
    load_attestation_from path = do
      s ← get
      if not (is_eth2 s.self.applet) then attested_as unsupported else do
        r ← tried (attest crypto settings.eth2_aid path)
        attested_as (elim r [ ok a ↦ a | err _ ↦ verification_failed ])

    -- `_load_attestation`; an empty path is none.
    unfoldable pub load_attestation : Method curve link settings (Unit {0})
    load_attestation = elim settings.ca_file [
      | none ↦ pure tt
      | some [] ↦ pure tt
      | some (c ∷ path) ↦ load_attestation_from (c ∷ path)
    ]

    -- `CardSigner()`
    unfoldable pub new_signer : Method curve link settings (Unit {0})
    new_signer = do
      modify (λ s. record s { self = blank; is_open = false })
      open_card curve link settings
      closing curve link settings do load_identity curve link settings; load_attestation
