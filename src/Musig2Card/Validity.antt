-- ===== src/Musig2Card/Validity.antt =====
-- The invariant of the object: one FINALIZE for each pair of nonces, and no PIN validation without a
-- VERIFY that still holds.
use nuri_passkey_prf_smartca.Base.{
  ℕ, ◌+◌, ◌≤◌, Bool, true, false, List, Option, none, some, Bytes, ◌≡◌, refl, arith, ◌==◌, length,
  Result, ok, err, Action, pure, raise, tried, get, modify, ◌>>=◌, split_bind, Keeps, Keeps-pure,
  Keeps-raise_if, Keeps-if, Keeps-bind,
}
use nuri_passkey_prf_smartca.Musig2Card.State.{
  Link, Step, Session, Fault, PinStatus, with_data, ins_verify, ins_finalize, ins_set_pin,
}
use nuri_passkey_prf_smartca.Musig2Card.Access.{
  tx, read_version, read_pin_status, pin_answer, tx_pin, verify_pin, set_pin, ask_pin, known_status,
  unlock, use_pin, ensure_pin,
}
use nuri_passkey_prf_smartca.Musig2Card.Exchange.{
  cost, finalizes, nonce_pairs, IsUnlocked, later, Sent, answered, refused, unplugged, tx-Sent,
  Sent-IsUnlocked,
}

abbrev pub held : Option Bytes → ℕ
held none = 0
held (some _) = 1

abbrev pub HasFour : Option Bytes → Type 0
HasFour none = Unit
HasFour (some t) = length t ≡ 4

-- With `spare` FINALIZE commands more to send than the token in hand allows.
pub record IsValidWith (spare : ℕ) {W : Type 0} (s : Session W) : Type 0 where
  pub discipline : finalizes s.log + spare + held s.token ≤ nonce_pairs s.log
  pub token_length : HasFour s.token
  pub unlocked : s.pin_verified ≡ true → IsUnlocked s.log

-- As many FINALIZE commands with a session token as pairs of nonces at most, one of them left if a
-- token is in hand; a token has four bytes; the flag `pin_verified` stands for a VERIFY that still
-- holds.
abbrev pub IsValid : {W : Type 0} → Session W → Type 0
IsValid = IsValidWith 0

module _ {W : Type 0} (link : Link W) where
  -- A command keeps the invariant, if it may be sent; on success the log shows that.
  pub Sent-IsValid :
      (apdu : Bytes) (s : Session W) (x : Result Fault Bytes × Session W)
      → Sent link apdu s x
      → IsValidWith (cost apdu) s
      → IsValid x.1
  Sent-IsValid apdu s x (answered resp w e) v = rw e (record {
    discipline = ground (arith, v.discipline);
    token_length = v.token_length;
    unlocked = λ h. later apdu (v.unlocked h);
  })
  Sent-IsValid apdu s x (refused f w o bad e) v =
      rw e (record {
        discipline = ground (arith, v.discipline);
        token_length = tt;
        unlocked = λ h. cc;
      })
  Sent-IsValid apdu s x (unplugged e) v = rw e (record {
    discipline = omega (arith, v.discipline);
    token_length = v.token_length;
    unlocked = v.unlocked;
  })

  pub tx-Keeps : (apdu : Bytes) → cost apdu ≡ 0 → Keeps IsValid (tx link apdu)
  tx-Keeps apdu free = record {
    from = λ s v. Sent-IsValid apdu s _ (tx-Sent link apdu s) (rw free v);
  }

  -- Writing other fields keeps it.
  pub note-Keeps :
      (f : Session W → Session W)
      → ((s : Session W) → IsValid s → IsValid (f s))
      → Keeps {E = Fault} IsValid (modify f)
  unfolding modify
  note-Keeps f k = record { from = k }

  pub get-Keeps : Keeps {E = Fault} IsValid (get {S = Session W})
  unfolding get
  get-Keeps = record { from = λ s v. v }

  pub same-IsValid :
      (s t : Session W)
      → s.log ≡ t.log
      → s.token ≡ t.token
      → s.pin_verified ≡ t.pin_verified
      → IsValid s
      → IsValid t
  same-IsValid s t p q r v = record {
    discipline = rw (← p, ← q) v.discipline;
    token_length = rw (← q) v.token_length;
    unlocked = rw (← p, ← r) v.unlocked;
  }

  pub read_version-Keeps : Keeps IsValid (read_version link)
  unfolding read_version
  read_version-Keeps = Keeps-bind _ _ (tx-Keeps _ refl) λ r.
      Keeps-bind _ _ (Keeps-raise_if _ _)
        λ _. note-Keeps _ (λ s v. same-IsValid s _ refl refl refl v)

  pub read_pin_status-Keeps : Keeps IsValid (read_pin_status link)
  unfolding read_pin_status
  read_pin_status-Keeps = Keeps-bind _ _ (tx-Keeps _ refl) λ r.
      Keeps-bind _ _ (Keeps-raise_if _ _) λ _.
        Keeps-bind _ _ (note-Keeps _ (λ s v. same-IsValid s _ refl refl refl v)) λ _. Keeps-pure _

  ask_pin-Keeps : Keeps IsValid (ask_pin link)
  unfolding ask_pin
  ask_pin-Keeps = record { from = λ s v. same-IsValid s _ refl refl refl v }

  cost-with_data :
      (ins : ℕ) (pin : Bytes) → (ins == ins_finalize) ≡ false → cost (with_data ins pin) ≡ 0
  cost-with_data ins pin other = rw other

  pin_answer-IsValid :
      (x : Result Fault Bytes × Session W) (U : List Step → Type 0)
      → IsValid x.1
      → ((resp : Bytes) → x.0 ≡ ok resp → U x.1.log)
      → let y = pin_answer link x.0 x.1 in IsValid y.1 × (y.0 ≡ ok tt → U y.1.log)
  unfolding pin_answer pure raise
  pin_answer-IsValid (ok resp, s) U v u = (v, λ _. u resp refl)
  pin_answer-IsValid (err e, s) U v u = (v, λ h. cc)

  tx_pin-IsValid :
      (ins : ℕ) (pin : Bytes) (s : Session W)
      → (ins == ins_finalize) ≡ false
      → IsValid s
      → let x = tx_pin link ins pin s in
        IsValid x.1 × (x.0 ≡ ok tt → ins ≡ ins_verify → IsUnlocked x.1.log)
  unfolding tx_pin ◌>>=◌ tried
  tx_pin-IsValid ins pin s other v =
      let q = tx-Sent link (with_data ins pin) s in
      pin_answer-IsValid (tx link (with_data ins pin) s) (λ l. ins ≡ ins_verify → IsUnlocked l)
        (Sent-IsValid (with_data ins pin) s _ q (rw (cost-with_data ins pin other) v))
        (λ resp good verify. Sent-IsUnlocked link (with_data ins pin) s q good verify)

  pub verify_pin-Keeps : (pin : Bytes) → Keeps IsValid (verify_pin link pin)
  unfolding verify_pin modify
  verify_pin-Keeps pin = Keeps-bind _ _ get-Keeps λ s. Keeps-bind _ _ (Keeps-raise_if _ _) λ _.
      record {
        from = λ s v.
            let (kept, unlocked) = tx_pin-IsValid ins_verify pin s refl v in
            split_bind (λ x. IsValid x.1) (tx_pin link ins_verify pin) _ s
              (λ _ s' e.
                let v' : IsValid s' = rw e at kept in
                record {
                  discipline = v'.discipline;
                  token_length = v'.token_length;
                  unlocked = λ _. rw e at unlocked refl refl;
                })
              (λ _ s' e. rw e at kept);
      }

  pub set_pin-Keeps : (pin : Bytes) → Keeps IsValid (set_pin link pin)
  unfolding set_pin
  set_pin-Keeps pin = Keeps-bind _ _ get-Keeps λ s. Keeps-bind _ _ (Keeps-raise_if _ _) λ _.
      Keeps-bind _ _ (record { from = λ s v. (tx_pin-IsValid ins_set_pin pin s refl v).0 })
        λ _. read_pin_status-Keeps

  known_status-Keeps : Keeps IsValid (known_status link)
  unfolding known_status
  known_status-Keeps = Keeps-bind _ _ get-Keeps λ s. go s.pin_status
    where
      go :
          (o : Option PinStatus)
          → Keeps IsValid (elim o as (λ _. Action (Session W) Fault PinStatus) [
            | some status ↦ pure status
            | none ↦ read_pin_status link
          ])
      go none = read_pin_status-Keeps
      go (some status) = Keeps-pure _

  unlock-Keeps : (b missing : Bool) (tries : ℕ) → Keeps IsValid (unlock link b missing tries)
  unfolding unlock
  unlock-Keeps true missing tries =
      Keeps-bind _ _ (Keeps-raise_if _ _) λ _. Keeps-bind _ _ ask_pin-Keeps verify_pin-Keeps
  unlock-Keeps false missing tries = Keeps-raise_if _ _

  use_pin-Keeps : (strict : Bool) (status : PinStatus) → Keeps IsValid (use_pin link strict status)
  unfolding use_pin
  use_pin-Keeps strict status = Keeps-bind _ _ get-Keeps λ s. unlock-Keeps _ _ _

  pub ensure_pin-Keeps : (strict : Bool) → Keeps IsValid (ensure_pin link strict)
  unfolding ensure_pin
  ensure_pin-Keeps strict = Keeps-bind _ _ get-Keeps λ s.
      Keeps-if _ _ _ (λ _. Keeps-pure _)
        (λ _. Keeps-bind _ _ known_status-Keeps (use_pin-Keeps strict))
