-- ===== src/CardLock/Lock.antt =====
-- scripts/card_lock.py: `main`, part by part.
use nuri_passkey_prf_smartca.Base.{
  ℕ, Bool, true, false, ◌&&◌, [], ◌∷◌, Option, none, some, Text, codes, equal, strip, Result, ok,
  err, Action, pure, modify, ◌>>=◌, ◌>>◌,
}
use nuri_passkey_prf_smartca.CardLock.Escrow.{
  gp_version, default_key, Keys, Payload, Cipher, encrypt, decrypt,
}
use nuri_passkey_prf_smartca.CardLock.Parsing.{identity}
use nuri_passkey_prf_smartca.CardLock.Keyset.{key_version}
use nuri_passkey_prf_smartca.CardLock.Files.{Failure, require, wanted, FilePath}
use nuri_passkey_prf_smartca.CardLock.Gp.{
  Outside, Args, typed, Shell, first_name, run, new_gp, listing, rotate, read_file, publish,
}
use nuri_passkey_prf_smartca.CardLock.Rotation.{
  same_payload, one_key, Target, keys_of, fits, outer_call, password_from, other_key,
  check_denylist, read_identity, stored_payload,
}

abbrev pub path_of : Option Text → FilePath → (Text → FilePath) → FilePath
path_of none default_path resolve = default_path
path_of (some p) default_path resolve = resolve p

abbrev pub chosen : Bool → Payload → Keys
chosen true p = p.new_keys
chosen false p = p.old_keys

abbrev pub new_payload : Target → Text → Payload
new_payload t key = record {
  gp = gp_version;
  cplc = t.cplc;
  serial = t.serial;
  key_version = t.version;
  key_type = some t.key_type;
  old_keys = one_key default_key;
  new_keys = one_key key;
}

module _ {W : Type 0} (outside : Outside W) where
  -- What is done before the question: the card, its identity, the deny-list, the keyset, the registry.
  unfoldable pub inspect : Args → Option Payload → Action (Shell W) Failure Target
  unfolding new_gp run identity check_denylist key_version fits listing
  inspect args payload = do
    gp ← new_gp outside args
    info ← run outside gp true (codes "-i" ∷ [])
    (cplc, serial) ← wanted (identity info)
    check_denylist outside cplc serial
    (version, key_type) ← wanted (key_version info)
    require (fits payload cplc version key_type)
    listing outside gp (keys_of payload) version
    pure (record {
      gp = gp;
      cplc = cplc;
      serial = serial;
      version = version;
      key_type = key_type;
      current = keys_of payload;
    })

  -- The question for the serial, with its answer in the log.
  unfoldable pub ask : Action (Shell W) Failure (Option Text)
  ask s = let (r, w) = outside.ask s.outer in (ok r, record s { outer = w; log = typed r ∷ s.log })

  unfoldable pub confirm : Text → Action (Shell W) Failure (Unit {0})
  unfolding ask equal strip
  confirm serial = do answer ← ask; line ← wanted answer; require (equal (strip line) serial)

  -- The card is still the one that was confirmed.
  unfoldable pub same_card : Target → Action (Shell W) Failure (Unit {0})
  unfolding read_identity equal
  same_card t = do
    (cplc, serial) ← read_identity outside t.gp
    require (equal cplc t.cplc && equal serial t.serial)

  unfoldable pub commit : Target → Keys → Action (Shell W) Failure (Unit {0})
  unfolding same_card check_denylist rotate listing
  commit t new = do
    same_card t
    check_denylist outside t.cplc t.serial
    modify (λ s. record s { attempted = true })
    rotate outside t.gp t.current new t.version
    listing outside t.gp new t.version
    same_card t

abbrev pub exit_code : Result Failure (Unit {0}) → ℕ
exit_code (ok u) = 0
exit_code (err e) = 1

module _ {W K : Type 0} (outside : Outside W) (cipher : Cipher K) where
  -- The escrow of a lock, published and read back.
  unfoldable pub make_escrow : Args → Target → Action (Shell W) Failure Payload
  unfolding password_from other_key outer_call publish read_file encrypt decrypt same_payload
  make_escrow args t = do
    password ← password_from outside args true
    key ← other_key outside 8 t.key_type
    salt ← outer_call outside (outside.token 32)
    nonce ← outer_call outside (outside.token 12)
    publish outside
        (path_of (first_name args.escrow none) (outside.default_escrow t.cplc) outside.resolve)
        (encrypt cipher salt nonce (new_payload t key) password)
    content ←
        read_file outside
          (path_of (first_name args.escrow none) (outside.default_escrow t.cplc) outside.resolve)
    back ← wanted (decrypt cipher content password)
    require (same_payload back (new_payload t key))
    pure (new_payload t key)

  unfoldable pub escrow_of :
      Bool → Args → Option Payload → Target → Action (Shell W) Failure Payload
  unfolding make_escrow
  escrow_of true args payload t = make_escrow args t
  escrow_of false args payload t = wanted payload

  unfoldable pub perform : Bool → Args → Action (Shell W) Failure (Unit {0})
  unfolding stored_payload inspect confirm escrow_of commit
  perform locks args = do
    payload ← stored_payload outside cipher locks args
    t ← inspect outside args payload
    confirm outside t.serial
    p ← escrow_of locks args payload t
    commit outside t (chosen locks p)

  -- `main`, by whether it executes and whether it locks.
  unfoldable pub main : Bool → Bool → Args → Shell W → ℕ × Shell W
  unfolding perform
  main false locks args s = (0, s)
  main true locks args s = let (r, s') = perform locks args s in (exit_code r, s')
