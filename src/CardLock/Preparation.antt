-- ===== src/CardLock/Preparation.antt =====
-- The same for the parts that stand before the rotation as wholes.
use nuri_passkey_prf_smartca.Base.{
  Bool, true, false, [], ◌∷◌, Option, none, some, Text, codes, arith, Keeps, Keeps-bind,
  Keeps-raise_if, Keeps-pure,
}
use nuri_passkey_prf_smartca.CardLock.Escrow.{Payload, Cipher, decrypt}
use nuri_passkey_prf_smartca.CardLock.Parsing.{identity}
use nuri_passkey_prf_smartca.CardLock.Keyset.{key_version}
use nuri_passkey_prf_smartca.CardLock.Gp.{Outside, Args, typed, Shell, first_name}
use nuri_passkey_prf_smartca.CardLock.Rotation.{Target, keys_of, stored_payload}
use nuri_passkey_prf_smartca.CardLock.Lock.{
  inspect, ask, confirm, new_payload, make_escrow, escrow_of,
}
use nuri_passkey_prf_smartca.CardLock.Secrets.{
  wanted-Keeps, outer_call-Keeps, password_from-Keeps, other_key-Keeps,
}
use nuri_passkey_prf_smartca.CardLock.Quiet.{
  Stable, run-Keeps, new_gp-Keeps, listing-Keeps, read_file-Keeps, publish-Keeps,
  check_denylist-Keeps,
}

module _ {W : Type 0} (outside : Outside W) {Inv : Shell W → Type 0} (stable : Stable Inv) where
  pub inspect-Keeps :
      (args : Args) (payload : Option Payload) → Keeps Inv (inspect outside args payload)
  unfolding inspect
  inspect-Keeps args payload = Keeps-bind _ _ (new_gp-Keeps outside stable args) λ gp.
      Keeps-bind _ _ (run-Keeps outside stable gp true (codes "-i" ∷ []) (omega arith)) λ info.
        Keeps-bind _ _ (wanted-Keeps (identity info)) λ (cplc, serial).
          Keeps-bind _ _ (check_denylist-Keeps outside stable cplc serial) λ _.
            Keeps-bind _ _ (wanted-Keeps (key_version info)) λ (version, key_type).
              Keeps-bind _ _ (Keeps-raise_if _ _) λ _.
                Keeps-bind _ _ (listing-Keeps outside stable gp (keys_of payload) version)
                  λ _. Keeps-pure _

  pub confirm-Keeps : (serial : Text) → Keeps Inv (confirm outside serial)
  unfolding confirm ask
  confirm-Keeps serial =
      Keeps-bind _ _
        (record {
          from = λ s h.
              stable.push (typed (outside.ask s.outer).0) s (outside.ask s.outer).1 (omega arith) h;
        })
        λ answer. Keeps-bind _ _ (wanted-Keeps answer) λ line. Keeps-raise_if _ _

  module _ {K : Type 0} (cipher : Cipher K) where
    pub stored_payload-Keeps :
        (locks : Bool) (args : Args) → Keeps Inv (stored_payload outside cipher locks args)
    unfolding stored_payload
    stored_payload-Keeps true args = Keeps-pure none
    stored_payload-Keeps false args =
        Keeps-bind _ _ (wanted-Keeps (first_name args.escrow none)) λ path.
          Keeps-bind _ _ (read_file-Keeps outside stable (outside.resolve path)) λ content.
            Keeps-bind _ _ (password_from-Keeps outside stable.quiet args false) λ password.
              Keeps-bind _ _ (wanted-Keeps (decrypt cipher content password))
                λ payload. Keeps-pure (some payload)

    make_escrow-Keeps : (args : Args) (t : Target) → Keeps Inv (make_escrow outside cipher args t)
    unfolding make_escrow
    make_escrow-Keeps args t =
        Keeps-bind _ _ (password_from-Keeps outside stable.quiet args true) λ password.
          Keeps-bind _ _ (other_key-Keeps outside stable.quiet 8 t.key_type) λ key.
            Keeps-bind _ _ (outer_call-Keeps outside stable.quiet (outside.token 32)) λ salt.
              Keeps-bind _ _ (outer_call-Keeps outside stable.quiet (outside.token 12)) λ iv.
                Keeps-bind _ _ (publish-Keeps outside stable _ _) λ _.
                  Keeps-bind _ _ (read_file-Keeps outside stable _) λ content.
                    Keeps-bind _ _ (wanted-Keeps (decrypt cipher content password)) λ back.
                      Keeps-bind _ _ (Keeps-raise_if _ _) λ _. Keeps-pure (new_payload t key)

    pub escrow_of-Keeps :
        (locks : Bool) (args : Args) (payload : Option Payload) (t : Target)
        → Keeps Inv (escrow_of outside cipher locks args payload t)
    unfolding escrow_of
    escrow_of-Keeps true args payload t = make_escrow-Keeps args t
    escrow_of-Keeps false args payload t = wanted-Keeps payload
