-- ===== src/CardLock/Backwards.antt =====
-- What a part of `main` that returned has left in the log.
use nuri_passkey_prf_smartca.Base.{
  Bool, true, false, ◌&&◌, List, [], ◌∷◌, Option, none, some, Bytes, Text, codes, equal, equal_iff,
  ◌==◌, ==_iff, ◌≡◌, inl, inr, refl, sym, ap, ◌∙◌, strip, Result, ok, raise_if, Bool-cases,
  bind-split, raise-ne-ok, pure-back,
}
use nuri_passkey_prf_smartca.CardLock.Escrow.{is_ascii}
use nuri_passkey_prf_smartca.CardLock.Parsing.{identity}
use nuri_passkey_prf_smartca.CardLock.Keyset.{split_lines, permits}
use nuri_passkey_prf_smartca.CardLock.Files.{Failure, require, wanted, FilePath, read_private}
use nuri_passkey_prf_smartca.CardLock.Gp.{
  Ran, Outside, ran, read, published, typed, Shell, maybe, Gp, success, output_of, spawn,
  command_of, run, read_file, publish,
}
use nuri_passkey_prf_smartca.CardLock.Rotation.{Target, check_denylist, read_identity}
use nuri_passkey_prf_smartca.CardLock.Lock.{ask, confirm, same_card}

pub and_parts : (a : Bool) {b : Bool} → a && b ≡ true → (a ≡ true) × (b ≡ true)
and_parts true e = (refl, e)
and_parts false e = cc e

pub wanted-back :
    {S A : Type 0} {s t : S} {a : A} (o : Option A)
    → wanted o s ≡ (ok a, t)
    → (o ≡ some a) × (t ≡ s)
wanted-back none e = raise-ne-ok _ _ e
wanted-back (some b) e = let (p, q) = pure-back e in (ap some (sym p), q)

pub require-back :
    {S : Type 0} {s t : S} {u : Unit {0}} (b : Bool)
    → require b s ≡ (ok u, t)
    → (b ≡ true) × (t ≡ s)
unfolding raise_if
require-back {S} true e = (refl, ap (λ (x : Result Failure (Unit {0}) × S). x.1) (sym e))
require-back {S} false e = cc (ap (λ (x : Result Failure (Unit {0}) × S). x.0) e)

success-back :
    (r : Ran) {text : Text}
    → success r ≡ some text
    → (out : Text) × (errors : Text) × (r ≡ some (0, out, errors)) × (text ≡ output_of out errors)
success-back none e = cc e
success-back (some (code, out, errors)) {text} e = elim (Bool-cases (code == 0)) [
  | inl z ↦
      let q : some (output_of out errors) ≡ some text = rw z at e in
      let zero_code : code ≡ 0 = (==_iff code 0).0 z in (out, errors, rw zero_code refl, cc q)
  | inr z ↦ let q : none ≡ some text = rw z at e in cc q
]

module _ {W : Type 0} (outside : Outside W) where
  abbrev State : Type 0 → Type 0
  State A = Result Failure A × Shell W

  pub run-back :
      (gp : Gp) (with_reader : Bool) (args : List Text) (s : Shell W) {t : Shell W} {text : Text}
      → run outside gp with_reader args s ≡ (ok text, t)
      → (out : Text) × (errors : Text) × (text ≡ output_of out errors)
        × (t.log ≡ ran (command_of gp with_reader args) (some (0, out, errors)) ∷ s.log)
  unfolding run
  run-back gp with_reader args s {t} e =
      bind-split (spawn outside (command_of gp with_reader args) gp.ignored) _ e λ r s₁ e₁ k₁.
        let (p, still) = wanted-back (success r) k₁ in
        let (out, errors, q, same) = success-back r p in
        (out, errors, same, rw still (spawned e₁ ∙ rw q refl))
    where
      spawned :
          {r : Ran} {u : Shell W}
          → spawn outside (command_of gp with_reader args) gp.ignored s ≡ (ok r, u)
          → u.log ≡ ran (command_of gp with_reader args) r ∷ s.log
      spawned {r} {u} e =
          unfold spawn in
          let same : (outside.spawn (command_of gp with_reader args) gp.ignored s.outer).0 ≡ r =
            cc (ap (λ (x : State Ran). x.0) e) in
          sym (ap (λ (x : State Ran). x.1.log) e) ∙ rw same refl

  pub read_file-back :
      (path : FilePath) (s : Shell W) {t : Shell W} {content : Bytes}
      → read_file outside path s ≡ (ok content, t)
      → t.log ≡ read path (some content) ∷ s.log
  unfolding read_file
  read_file-back path s {t} {content} e =
      let same : (read_private outside.files path s.outer).0 ≡ ok content =
        ap (λ (x : State Bytes). x.0) e in
      sym (ap (λ (x : State Bytes). x.1.log) e) ∙ ap (λ r. read path (maybe r) ∷ s.log) same

  pub publish-back :
      (path : FilePath) (content : Bytes) (s : Shell W) {t : Shell W} {u : Unit {0}}
      → publish outside path content s ≡ (ok u, t)
      → t.log ≡ published path content ∷ s.log
  unfolding publish
  publish-back path content s e = sym (ap (λ (x : State (Unit {0})). x.1.log) e)

  pub check_denylist-back :
      (cplc serial : Text) (s : Shell W) {t : Shell W} {u : Unit {0}}
      → check_denylist outside cplc serial s ≡ (ok u, t)
      → (listed : Bytes) × (t.log ≡ read outside.deny_path (some listed) ∷ s.log)
        × (permits cplc serial (split_lines false listed) ≡ true)
  unfolding check_denylist
  check_denylist-back cplc serial s {t} {u} e =
      bind-split (read_file outside outside.deny_path) _ e λ listed s₁ e₁ k₁.
        let (c, still) =
          require-back (is_ascii listed && permits cplc serial (split_lines false listed)) k₁ in
        (
          listed,
          rw still (read_file-back outside.deny_path s e₁),
          (and_parts (is_ascii listed) c).1,
        )

  pub same_card-back :
      (t : Target) (s : Shell W) {s' : Shell W} {u : Unit {0}}
      → same_card outside t s ≡ (ok u, s')
      → (out : Text) × (errors : Text) × (s'.log
          ≡ ran (command_of t.gp true (codes "-i" ∷ [])) (some (0, out, errors)) ∷ s.log)
        × (identity (output_of out errors) ≡ some (t.cplc, t.serial))
  unfolding same_card read_identity
  same_card-back t s {s'} e = bind-split (read_identity outside t.gp) _ e λ (cplc, serial) s₁ e₁ k₁.
      bind-split (run outside t.gp true (codes "-i" ∷ [])) _ e₁ λ info s₂ e₂ k₂.
        let (c, still) = require-back (equal cplc t.cplc && equal serial t.serial) k₁ in
        let (p, q) = and_parts (equal cplc t.cplc) c in
        let (i, u) = wanted-back (identity info) k₂ in
        let (out, errors, text, l) = run-back t.gp true (codes "-i" ∷ []) s e₂ in
        (
          out,
          errors,
          rw (still, u) l,
          rw text at i ∙ λ k.
              some ((equal_iff cplc t.cplc).0 p k, (equal_iff serial t.serial).0 q k),
        )

  pub confirm-back :
      (serial : Text) (s : Shell W) {t : Shell W} {u : Unit {0}}
      → confirm outside serial s ≡ (ok u, t)
      → (line : Text) × (t.log ≡ typed (some line) ∷ s.log) × (strip line ≡ serial)
  unfolding confirm ask
  confirm-back serial s {t} e = bind-split (ask outside) _ e λ answer s₁ e₁ k₁.
      bind-split (wanted answer) _ k₁ λ line s₂ e₂ k₂.
        let (c, still) = require-back (equal (strip line) serial) k₂ in
        let (p, u) = wanted-back answer e₂ in
        let same : (outside.ask s.outer).0 ≡ answer =
          cc (ap (λ (x : State (Option Text)). x.0) e₁) in
        (
          line,
          rw (still, u) (sym (ap (λ (x : State (Option Text)). x.1.log) e₁) ∙ rw (same, p) refl),
          (equal_iff (strip line) serial).0 c,
        )
