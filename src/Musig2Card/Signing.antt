-- ===== src/Musig2Card/Signing.antt =====
-- scripts/nuri_musig2_card.py: keys, nonces and the partial signature.
use nuri_passkey_prf_smartca.Base.{
  ℕ, ◌%◌, Bool, true, false, not, ◌&&◌, ◌||◌, [], ◌∷◌, ◌++◌, Option, none, some, Bytes, leb, ◌==◌,
  if◌then◌else◌, length, take, drop, get_or, Result, ok, err, ◌>>=◌, ◌>>◌, pure, raise, raise_if,
  lift, tried, get, modify,
}
use nuri_passkey_prf_smartca.Musig2Card.State.{
  Fault, Link, Point, assertion_error, bad_length, command, failed, ins_finalize, ins_get_nonces,
  ins_get_pubkey, ins_keygen, is_point, is_scalar, legacy_finalize_len, legacy_nonces_len,
  missing_aggregate, no_token, pin_finalize_len, pin_nonces_len, pin_protocol, point_bytes,
  value_error, with_data,
}
use nuri_passkey_prf_smartca.Musig2Card.Access.{Method, ensure_pin, tx}

module _ {W : Type 0} (link : Link W) where
  -- `"SW=6982" in str(error)`
  abbrev pub is_6982 : Fault → Bool
  is_6982 (failed _ sw) = sw == 0x6982
  is_6982 _ = false

  unfoldable pub pubkey : Method link Bytes
  pubkey = do
    res ← tried {F = Fault} (tx link (command ins_get_pubkey))
    s ← get
    elim res [
      | ok r ↦ pure r
      | err e ↦
          if pin_protocol s && not s.pin_verified && is_6982 e
          then ensure_pin link false >> tx link (command ins_get_pubkey)
          else raise e
    ]

  unfoldable pub keygen : Method link Bytes
  keygen = do
    ensure_pin link false
    r ← tx link (command ins_keygen)
    raise_if (not (length r == 33)) bad_length
    pure r

  -- What `nonces` makes of the response; the flag is `pin_protocol`.
  unfoldable pub take_nonces : Bool → Bytes → Method link (Bytes × Bytes)
  take_nonces pin r = do
    raise_if (not (length r == (if pin then pin_nonces_len else legacy_nonces_len))) bad_length
    modify (λ s. record s { token = if pin then some (take 4 (drop 66 r)) else none })
    pure (take 33 r, take 33 (drop 33 r))

  unfoldable pub nonces : Method link (Bytes × Bytes)
  unfolding take_nonces
  nonces = do
    ensure_pin link true
    r ← tx link (command ins_get_nonces)
    s ← get
    take_nonces (pin_protocol s) r

  -- The points of the payload, checked against the parity byte.
  unfoldable pub points_part : ℕ → Point → Point → Result Fault Bytes
  points_part parity r_agg p_agg = elim (point_bytes r_agg) [
    | err e ↦ err e
    | ok r65 ↦ elim (point_bytes p_agg) [
      | err e ↦ err e
      | ok p65 ↦
          if not (is_point r65) || not (is_point p65)
          then err value_error
          else if not (get_or r65 64 0 % 2 == parity)
          then err value_error
          else ok (r65 ++ p65)
    ]
  ]

  -- `self._token + bytes(r65) + bytes(p65)`
  unfoldable pub with_token : Bytes → Method link Bytes
  with_token points s = elim s.token [ none ↦ (err no_token, s) | some t ↦ (ok (t ++ points), s) ]

  unfoldable pub session_part : ℕ → Option Point → Option Point → Method link Bytes
  session_part parity (some r_agg) (some p_agg) = do
    with_token []
    ensure_pin link true
    points ← lift (points_part parity r_agg p_agg)
    with_token points
  session_part parity _ _ = raise missing_aggregate

  -- The payload, whose length the source asserts; the flag is `pin_protocol`.
  unfoldable pub checked_payload : Bool → Bytes → Bytes → Method link Bytes
  checked_payload pin scalars more = do
    let want : ℕ = if pin then pin_finalize_len else legacy_finalize_len
    raise_if (not (length (scalars ++ more) == want)) assertion_error
    pure (scalars ++ more)

  unfoldable pub payload : Bytes → ℕ → Option Point → Option Point → Method link Bytes
  unfolding checked_payload
  payload scalars parity r_agg p_agg = do
    s ← get
    more ← (if pin_protocol s then session_part parity r_agg p_agg else pure [])
    checked_payload (pin_protocol s) scalars more

  -- The part of `finalize` that touches the card.
  unfoldable pub send_finalize : Bytes → Method link Bytes
  send_finalize body = do
    modify (λ s. record s { token = none })
    r ← tx link (with_data ins_finalize body ++ 0x20 ∷ [])
    raise_if (not (length r == 32)) bad_length
    pure r

  unfoldable pub finalize :
      Bytes → Bytes → ℕ → Bytes → Option Point → Option Point → Method link Bytes
  finalize a b parity e r_agg p_agg = do
    raise_if (not (is_scalar a && is_scalar b && is_scalar e && leb parity 1)) value_error
    body ← payload (a ++ (b ++ parity ∷ e)) parity r_agg p_agg
    send_finalize body
