-- ===== src/CardLock/Quiet.antt =====
-- What the parts of `main` but for `rotate` add to the log: commands of other lengths than a rotation's.
use nuri_passkey_prf_smartca.Base.{
  ℕ, Bool, true, false, List, [], ◌∷◌, Option, none, Bytes, Text, codes, ◌≢◌, arith, length, Keeps,
  Keeps-bind, Keeps-raise_if, Keeps-pure,
}
use nuri_passkey_prf_smartca.CardLock.Escrow.{Keys}
use nuri_passkey_prf_smartca.CardLock.Parsing.{identity}
use nuri_passkey_prf_smartca.CardLock.Files.{FilePath, read_private, atomic_escrow}
use nuri_passkey_prf_smartca.CardLock.Gp.{
  Outside, Args, Event, ran, read, published, typed, Shell, maybe, Gp, or_default, first_name,
  listed_readers, success, spawn, command_of, run, new_gp, listing, read_file, publish,
}
use nuri_passkey_prf_smartca.CardLock.Rotation.{Target, check_denylist, read_identity}
use nuri_passkey_prf_smartca.CardLock.Secrets.{Quiet, wanted-Keeps}
use nuri_passkey_prf_smartca.CardLock.Lock.{same_card}

-- The words of a command. That of a rotation has 15, and no other has.
abbrev pub words : Event → ℕ
words (ran command r) = length command
words (read path content) = 0
words (published path content) = 0
words (typed answer) = 0

-- A property that no entry but a rotation takes away.
pub record Stable {W : Type 0} (Inv : Shell W → Type 0) : Type 0 where
  pub push :
      (e : Event) (s : Shell W) (w : W)
      → words e ≢ 15
      → Inv s
      → Inv (record s { outer = w; log = e ∷ s.log })
  pub quiet : Quiet Inv

module _ {W : Type 0} (outside : Outside W) {Inv : Shell W → Type 0} (stable : Stable Inv) where
  spawn-Keeps :
      (command : List Text) (ignored : Option Text)
      → length command ≢ 15
      → Keeps Inv (spawn outside command ignored)
  unfolding spawn
  spawn-Keeps command ignored short = record {
    from = λ s h.
        stable.push (ran command (outside.spawn command ignored s.outer).0) s
          (outside.spawn command ignored s.outer).1 short h;
  }

  pub run-Keeps :
      (gp : Gp) (with_reader : Bool) (args : List Text)
      → length (command_of gp with_reader args) ≢ 15
      → Keeps Inv (run outside gp with_reader args)
  unfolding run
  run-Keeps gp with_reader args short =
      Keeps-bind _ _ (spawn-Keeps (command_of gp with_reader args) gp.ignored short)
        λ r. wanted-Keeps (success r)

  pub new_gp-Keeps : (args : Args) → Keeps Inv (new_gp outside args)
  unfolding new_gp
  new_gp-Keeps args =
      Keeps-bind _ _ (wanted-Keeps (first_name args.reader (outside.environ (codes "GP_READER"))))
        λ reader. Keeps-bind _ _ (Keeps-raise_if _ _) λ _.
          Keeps-bind _ _
            (run-Keeps
              (record {
                binary = or_default (outside.environ (codes "GP_BIN")) (codes "gp");
                reader = reader;
                ignored = none;
              })
              false (codes "--version" ∷ []) (omega arith))
            λ version. Keeps-bind _ _ (Keeps-raise_if _ _) λ _.
              Keeps-bind _ _
                (spawn-Keeps
                  (or_default (outside.environ (codes "GP_BIN")) (codes "gp")
                    ∷ codes "--reader"
                    ∷ [])
                  none (omega arith))
                λ r. Keeps-bind _ _ (wanted-Keeps r) λ (code, out, errors).
                  Keeps-bind _ _ (Keeps-raise_if _ _) λ _.
                    Keeps-bind _ _ (wanted-Keeps (listed_readers out)) λ names.
                      Keeps-bind _ _ (Keeps-raise_if _ _) λ _.
                        Keeps-bind _ _ (Keeps-raise_if _ _)
                          λ _. Keeps-bind _ _ (Keeps-raise_if _ _) λ _. Keeps-pure _

  pub listing-Keeps :
      (gp : Gp) (keys : Keys) (version : ℕ) → Keeps Inv (listing outside gp keys version)
  unfolding listing
  listing-Keeps gp keys version =
      Keeps-bind _ _ (run-Keeps gp true _ (omega arith)) λ output. Keeps-raise_if _ _

  pub read_file-Keeps : (path : FilePath) → Keeps Inv (read_file outside path)
  unfolding read_file
  read_file-Keeps path = record {
    from = λ s h.
        stable.push (read path (maybe (read_private outside.files path s.outer).0)) s
          (read_private outside.files path s.outer).1 (omega arith) h;
  }

  pub publish-Keeps : (path : FilePath) (content : Bytes) → Keeps Inv (publish outside path content)
  unfolding publish
  publish-Keeps path content = record {
    from = λ s h.
        stable.push (published path content) s (atomic_escrow outside.files path content s.outer).1
          (omega arith) h;
  }

  pub check_denylist-Keeps : (cplc serial : Text) → Keeps Inv (check_denylist outside cplc serial)
  unfolding check_denylist
  check_denylist-Keeps cplc serial =
      Keeps-bind _ _ (read_file-Keeps outside.deny_path) λ content. Keeps-raise_if _ _

  pub same_card-Keeps : (t : Target) → Keeps Inv (same_card outside t)
  unfolding same_card read_identity
  same_card-Keeps t =
      Keeps-bind _ _
        (Keeps-bind _ _ (run-Keeps t.gp true (codes "-i" ∷ []) (omega arith))
          λ info. wanted-Keeps (identity info))
        λ (cplc, serial). Keeps-raise_if _ _
