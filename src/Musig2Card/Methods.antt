-- ===== src/Musig2Card/Methods.antt =====
-- Every method keeps the invariant of the object.
use nuri_passkey_prf_smartca.Base.{
  ℕ, ◌+◌, ◌≤◌, Bool, true, false, ◌&&◌, not, [], ◌∷◌, ◌++◌, none, Bytes, ◌≡◌, refl, ap, arith, ◌==◌,
  if◌then◌else◌, take, drop, length, length-take, length-drop, Result, ok, err, Action, pure, raise,
  raise_if, get, modify, ◌>>=◌, ◌>>◌, continue, Bool-cases, inl, inr, split_bind, Keeps, Keeps-pure,
  Keeps-raise, Keeps-raise_if, Keeps-if, Keeps-bind, Keeps-tried, ==_iff,
}
use nuri_passkey_prf_smartca.Musig2Card.State.{
  Link, selected, Session, Fault, command, with_data, pin_protocol, no_card, ins_get_nonces,
  ins_finalize, pin_finalize_len, pin_nonces_len, legacy_nonces_len, ins_get_pubkey, bad_length,
}
use nuri_passkey_prf_smartca.Musig2Card.Access.{
  tx, open_session, restart, connect, close, ensure_pin,
}
use nuri_passkey_prf_smartca.Musig2Card.Signing.{
  pubkey, keygen, nonces, take_nonces, send_finalize, is_6982,
}
use nuri_passkey_prf_smartca.Musig2Card.Exchange.{
  cost, finalizes, nonce_pairs, Sent, answered, refused, unplugged, tx-Sent,
}
use nuri_passkey_prf_smartca.Musig2Card.Validity.{
  IsValid, IsValidWith, held, Sent-IsValid, tx-Keeps, get-Keeps, same-IsValid, read_version-Keeps,
  read_pin_status-Keeps, ensure_pin-Keeps,
}

module _ {W : Type 0} (link : Link W) where
  forget-IsValid :
      (s t : Session W)
      → (finalizes t.log ≡ finalizes s.log) × (nonce_pairs t.log ≡ nonce_pairs s.log)
      → t.token ≡ none
      → t.pin_verified ≡ false
      → IsValid s
      → IsValid t
  forget-IsValid s t (p, p') q r v = record {
    discipline = rw (p, p', q) (omega (arith, v.discipline));
    token_length = rw q tt;
    unlocked = λ h. cc;
  }

  abbrev reset : Session W → Session W
  reset s = record s { pin_verified = false; pin_status = none; token = none }

  restart-Keeps : Keeps IsValid (restart link)
  unfolding restart ◌>>=◌
  restart-Keeps = record { from = λ s v. by_connected s v s.connected }
    where
      by_found :
          (s : Session W) (w : W)
          → IsValid s
          → (found : Bool)
          → IsValid
              (((λ (_ : Session W).
                    (if found
                      then (ok tt, record s { world = w; connected = true; log = selected ∷ s.log })
                      else (err no_card, record s { world = w })))
                  >>= λ _. modify {E = Fault} reset)
                s).1
      by_found s w v true = forget-IsValid s _ (refl, refl) refl refl v
      by_found s w v false = same-IsValid link s _ refl refl refl v

      by_connected :
          (s : Session W)
          → IsValid s
          → (up : Bool)
          → IsValid (((if up then pure tt else open_session link) >>= λ _. modify reset) s).1
      by_connected s v true = forget-IsValid s _ (refl, refl) refl refl v
      by_connected s v false =
          by_found s (link.open_applet s.world).1 v (link.open_applet s.world).0

  pub connect-Keeps : (verify : Bool) → Keeps IsValid (connect link verify)
  unfolding connect
  connect-Keeps verify = Keeps-bind _ _ restart-Keeps λ _.
      Keeps-bind _ _ (read_version-Keeps link) λ _. Keeps-bind _ _ (get-Keeps link) λ s.
        Keeps-if (pin_protocol s) _ _
          (λ _.
            Keeps-bind _ _ (read_pin_status-Keeps link)
              λ _. Keeps-if verify _ _ (λ _. ensure_pin-Keeps link false) (λ _. Keeps-pure _))
          (λ _. Keeps-pure _)

  pub close-Keeps : Keeps IsValid (close link)
  unfolding close
  close-Keeps = record { from = λ s v. forget-IsValid s _ (refl, refl) refl refl v }

  pub pubkey-Keeps : Keeps IsValid (pubkey link)
  unfolding pubkey
  pubkey-Keeps =
      Keeps-bind _ _ (Keeps-tried _ (tx-Keeps link _ refl))
        λ res. Keeps-bind _ _ (get-Keeps link) λ s. go res s
    where
      go :
          (res : Result Fault Bytes) (s : Session W)
          → Keeps IsValid (elim res as (λ _. Action (Session W) Fault Bytes) [
            | ok r ↦ pure r
            | err e ↦
                if pin_protocol s && not s.pin_verified && is_6982 link e
                then ensure_pin link false >> tx link (command ins_get_pubkey)
                else raise e
          ])
      go (ok r) s = Keeps-pure r
      go (err e) s =
          Keeps-if (pin_protocol s && not s.pin_verified && is_6982 link e) _ _
            (λ _. Keeps-bind _ _ (ensure_pin-Keeps link false) λ _. tx-Keeps link _ refl)
            (λ _. Keeps-raise e)

  pub keygen-Keeps : Keeps IsValid (keygen link)
  unfolding keygen
  keygen-Keeps = Keeps-bind _ _ (ensure_pin-Keeps link false) λ _.
      Keeps-bind _ _ (tx-Keeps link _ refl)
        λ r. Keeps-bind _ _ (Keeps-raise_if _ _) λ _. Keeps-pure r

  -- GET_NONCES that succeeds leaves room for one FINALIZE more.
  abbrev HasRoom : Session W → Type 0
  HasRoom s = IsValid s × (finalizes s.log + 1 ≤ nonce_pairs s.log)

  four_bytes : (r : Bytes) → length r ≡ 70 → length (take 4 (drop 66 r)) ≡ 4
  four_bytes r q = rw (length-take 4 (drop 66 r), length-drop 66 r, q) refl

  take_nonces-IsValid :
      (pin : Bool) (r : Bytes) (s : Session W) → HasRoom s → IsValid (take_nonces link pin r s).1
  unfolding take_nonces modify pure ◌>>=◌
  take_nonces-IsValid true r s (v, room) = elim (Bool-cases (length r == pin_nonces_len)) [
    | inl fits ↦ rw fits (record {
      discipline = omega (arith, room);
      token_length = four_bytes r ((==_iff _ _).0 fits);
      unlocked = v.unlocked;
    })
    | inr misfit ↦ rw misfit v
  ]
  take_nonces-IsValid false r s (v, room) = elim (Bool-cases (length r == legacy_nonces_len)) [
    | inl fits ↦
        rw fits
          (record { discipline = omega (arith, room); token_length = tt; unlocked = v.unlocked })
    | inr misfit ↦ rw misfit v
  ]

  Sent-HasRoom :
      (s : Session W) (x : Result Fault Bytes × Session W) (r : Bytes)
      → Sent link (command ins_get_nonces) s x
      → x.0 ≡ ok r
      → IsValid s
      → HasRoom x.1
  Sent-HasRoom s x r q good v = (Sent-IsValid link (command ins_get_nonces) s x q v, room q)
    where
      room : Sent link (command ins_get_nonces) s x → finalizes x.1.log + 1 ≤ nonce_pairs x.1.log
      room (answered resp w e) = rw e (omega (arith, v.discipline))
      room (refused f w o bad e) = absurd (cc (ap (λ (x : Result Fault Bytes × Session W). x.0) e))
      room (unplugged e) = absurd (cc (ap (λ (x : Result Fault Bytes × Session W). x.0) e))

  after_nonces :
      (r : Bytes) (s : Session W)
      → HasRoom s
      → IsValid ((get >>= λ s'. take_nonces link (pin_protocol s') r) s).1
  unfolding ◌>>=◌ get
  after_nonces r s room = take_nonces-IsValid (pin_protocol s) r s room

  pub nonces-Keeps : Keeps IsValid (nonces link)
  unfolding nonces
  nonces-Keeps = Keeps-bind _ _ (ensure_pin-Keeps link true) λ _. record {
    from = λ s v.
        let q = tx-Sent link (command ins_get_nonces) s in
        split_bind (λ x. IsValid x.1) (tx link (command ins_get_nonces)) _ s
          (λ r s' e.
            let room : HasRoom s' = rw e at (Sent-HasRoom s _ r q (rw e) v) in
            after_nonces r s' room)
          (λ e s' f. rw f at ((tx-Keeps link (command ins_get_nonces) refl).from s v));
  }

  -- Sending FINALIZE with a payload of 231 bytes wants a token in hand, and spends it.
  settle :
      (x : Result Fault Bytes × Session W) (f : Bytes → Bool)
      → IsValid x.1
      → IsValid (continue x.0 (λ r. raise_if (f r) bad_length >>= λ _. pure r) x.1).1
  unfolding ◌>>=◌ pure
  settle (ok r, s) f v =
      (Keeps-bind {Inv = IsValid} _ _ (Keeps-raise_if (f r) bad_length) (λ _. Keeps-pure r)).from s
        v
  settle (err e, s) f v = v

  cost-held :
      (t n : ℕ) → (n ≡ pin_finalize_len → t ≡ 1) → (if n == pin_finalize_len then 1 else 0) ≤ t
  cost-held t n has = elim (Bool-cases (n == pin_finalize_len)) [
    | inl fits ↦ rw (fits, has ((==_iff _ _).0 fits)) (omega arith)
    | inr misfit ↦ rw misfit (omega arith)
  ]

  pub send_finalize-IsValid :
      (body : Bytes) (s : Session W)
      → IsValid s
      → (length body ≡ pin_finalize_len → held s.token ≡ 1)
      → IsValid (send_finalize link body s).1
  unfolding send_finalize ◌>>=◌ modify
  send_finalize-IsValid body s v has =
      let apdu : Bytes = with_data ins_finalize body ++ 0x20 ∷ [] in
      let spent : Session W = record s { token = none } in
      let ready : IsValidWith (cost apdu) spent = record {
        discipline = omega (arith, v.discipline, cost-held (held s.token) (length body) has);
        token_length = tt;
        unlocked = v.unlocked;
      } in
      settle (tx link apdu spent) _ (Sent-IsValid link apdu spent _ (tx-Sent link apdu spent) ready)
