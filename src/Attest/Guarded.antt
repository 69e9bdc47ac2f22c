-- ===== src/Attest/Guarded.antt =====
-- What `personalize` sends, however it ends: the two writes that cannot be undone stand behind their checks.
use nuri_passkey_prf_smartca.Base.{
  after_check, after_lift, after_bind, ℕ, Bool, true, false, List, [], ◌∷◌, Bytes, ◌≡◌, refl, ◌∙◌,
  arith, equal_iff, get_or, Result, ok, err, Action, not-false, Keeps-bind, Keeps-raise_if,
  Keeps-pure,
}
use nuri_passkey_prf_smartca.Attest.Evidence.{Failure, Crypto, Info, parse_info}
use nuri_passkey_prf_smartca.Attest.Format.{info_onto}
use nuri_passkey_prf_smartca.Attest.Parse.{IsInfo}
use nuri_passkey_prf_smartca.Attest.Whole.{parse_info_iff}
use nuri_passkey_prf_smartca.Attest.Exchange.{
  Entry, answered, lost, Session, noted, command, class_of, send, card_command, read_back,
  seal_card, sealed_or_not, personalize,
}
use nuri_passkey_prf_smartca.Attest.Personal.{card_command-back, read_back-back}

-- The instruction byte of an entry.
abbrev pub ins_of : Entry → ℕ
ins_of (answered apdu response sw) = get_or apdu 1 0
ins_of (lost apdu) = get_or apdu 1 0

module _ {K C : Type 0} (crypto : Crypto K) (transmit : Bytes → Action C Failure (Bytes × ℕ))
    (expected certificate : Bytes) (seal : Bool) where
  -- An entry may stand on the log: a store only on the INFO that was signed, a seal only where it was
  -- asked for and on an INFO that has the certificate, read behind an accepted store of it.
  pub record Allowed (x : Entry) (log : List Entry) : Type 0 where
    pub store :
        ins_of x ≡ 0x71
        → (c : ℕ) × (r : List Entry) × (log ≡ answered (command c 0x70 []) expected 0x9000 ∷ r)
    pub sealing :
        ins_of x ≡ 0x73
        → (seal ≡ true)
          × (c : ℕ) × (a : Bytes) × (b : Bytes) × (i : Info) × (r : List Entry) × (log
              ≡ answered (command c 0x70 []) a 0x9000
                ∷ answered (command c 0x71 certificate) b 0x9000
                ∷ r)
          × (parse_info crypto a ≡ ok i)
          × (i.cert ≡ certificate)

  abbrev pub AllAllowed : List Entry → Type 0
  AllAllowed [] = Unit
  AllAllowed (x ∷ log) = Allowed x log × AllAllowed log

  abbrev Good : Session C → Type 0
  Good s = AllAllowed s.log

  abbrev Permits : ℕ → List Entry → Type 0
  Permits ins log = (x : Entry) → ins_of x ≡ ins → Allowed x log

  reads : (log : List Entry) → Permits 0x70 log
  reads log x e = record {
    store = λ q. absurd (omega (arith, e, q));
    sealing = λ q. absurd (omega (arith, e, q));
  }

  send-Good :
      (cla ins : ℕ) (payload : Bytes) (s : Session C)
      → Good s
      → Permits ins s.log
      → Good (send transmit (command cla ins payload) s).1
  unfolding send
  send-Good cla ins payload s g permit = (permit (noted (command cla ins payload) r) (is r), g)
    where
      r : Result Failure (Bytes × ℕ)
      r = (transmit (command cla ins payload) s.card).0

      is : (x : Result Failure (Bytes × ℕ)) → ins_of (noted (command cla ins payload) x) ≡ ins
      is (ok a) = refl
      is (err e) = refl

  card_command-Good :
      (cla ins : ℕ) (payload : Bytes) (s : Session C)
      → Good s
      → Permits ins s.log
      → Good (card_command transmit cla ins payload s).1
  unfolding card_command
  card_command-Good cla ins payload s g permit = after_check Good _ _ _ s g λ _.
      after_bind Good (send transmit (command cla ins payload)) _ s
        (send-Good cla ins payload s g permit)
        λ a s' e h.
          (Keeps-bind {Inv = Good} _ _ (Keeps-raise_if _ _) (λ _. Keeps-pure a.0)).from s' h

  read_back-Good :
      (cla : ℕ) (wanted : Info) (s : Session C)
      → Good s
      → Good (read_back crypto transmit cla wanted s).1
  unfolding read_back
  read_back-Good cla wanted s g =
      after_bind Good (card_command transmit cla 0x70 []) _ s
        (card_command-Good cla 0x70 [] s g (reads s.log))
        λ a s' e h.
          after_lift Good (parse_info crypto a) _ s' h
            λ i p. after_check Good _ _ _ s' h λ _. (Keeps-pure {Inv = Good} i).from s' h

  stores :
      (cla : ℕ) (s : Session C) (log : List Entry)
      → s.log ≡ answered (command cla 0x70 []) expected 0x9000 ∷ log
      → Permits 0x71 s.log
  stores cla s log l x e = record {
    store = λ _. (cla, log, l);
    sealing = λ q. absurd (omega (arith, e, q));
  }

  -- After a store that was read back, and where it was asked for, a seal may be sent.
  sealed_or_not-Good :
      (cla : ℕ) (wanted after : Info) (b : Bytes) (log : List Entry) (s : Session C)
      → Good s
      → s.log
        ≡ answered (command cla 0x70 []) (info_onto wanted []) 0x9000
          ∷ answered (command cla 0x71 certificate) b 0x9000
          ∷ log
      → IsInfo crypto wanted
      → wanted.cert ≡ certificate
      → Good (sealed_or_not crypto transmit seal cla wanted after s).1
  unfolding sealed_or_not seal_card
  sealed_or_not-Good cla wanted after b log s g l w c = go seal refl
    where
      permit : seal ≡ true → Permits 0x73 s.log
      permit asked x e = record {
        store = λ q. absurd (omega (arith, e, q));
        sealing = λ _. (
          asked,
          cla,
          info_onto wanted [],
          b,
          wanted,
          log,
          l,
          (parse_info_iff crypto _ wanted).1 (w, refl),
          c,
        );
      }

      go :
          (asked : Bool)
          → seal ≡ asked
          → Good (sealed_or_not crypto transmit asked cla wanted after s).1
      go false q = (Keeps-pure {Inv = Good} after).from s g
      go true q =
          after_bind Good (card_command transmit cla 0x73 []) _ s
            (card_command-Good cla 0x73 [] s g (permit q))
            λ a s' e h. read_back-Good cla (record wanted { sealed = true }) s' h

  -- However `personalize` ends, each entry that it adds to the log is allowed where it stands: a store is
  -- sent only right after the card answered with the very INFO that was given, and a seal only if it was
  -- asked for, right after the card answered with an INFO that has just the given certificate, which was
  -- read right after the card accepted a store of that certificate.
  pub personalize-AllAllowed :
      (s : Session C)
      → AllAllowed s.log
      → AllAllowed (personalize crypto transmit expected certificate seal s).1.log
  unfolding personalize
  personalize-AllAllowed s g = after_lift Good (parse_info crypto expected) _ s g λ before p.
      after_check Good _ _ _ s g λ _. after_check Good _ _ _ s g λ _.
        after_bind Good (card_command transmit (class_of before.aid) 0x70 []) _ s
          (card_command-Good (class_of before.aid) 0x70 [] s g (reads s.log))
          λ live s₁ e₁ g₁. after_check Good _ _ _ s₁ g₁ λ c₁.
            let is : live ≡ expected = (equal_iff live expected).0 (not-false _ c₁) in
            let (l₁, _) = card_command-back transmit (class_of before.aid) 0x70 [] s e₁ in
            let shown : s₁.log
                ≡ answered (command (class_of before.aid) 0x70 []) expected 0x9000 ∷ s.log =
              l₁ ∙ rw is in
            after_bind Good (card_command transmit (class_of before.aid) 0x71 certificate) _ s₁
              (card_command-Good (class_of before.aid) 0x71 certificate s₁ g₁
                (stores (class_of before.aid) s₁ s.log shown))
              λ b s₂ e₂ g₂.
                let (l₂, _) =
                  card_command-back transmit (class_of before.aid) 0x71 certificate s₁ e₂ in
                after_bind Good
                  (read_back crypto transmit (class_of before.aid)
                    (record before { cert = certificate }))
                  _ s₂
                  (read_back-Good (class_of before.aid) (record before { cert = certificate }) s₂
                    g₂)
                  λ after s₃ e₃ g₃.
                    let (_, l₃, w) =
                      read_back-back transmit crypto (class_of before.aid)
                        (record before { cert = certificate }) s₂ e₃ in
                    sealed_or_not-Good (class_of before.aid) (record before { cert = certificate })
                      after b s₁.log s₃ g₃ (l₃ ∙ rw l₂) w refl
