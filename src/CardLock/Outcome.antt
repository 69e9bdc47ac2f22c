-- ===== src/CardLock/Outcome.antt =====
-- What the exit code and the two messages of `main` say of the rotation.
use nuri_passkey_prf_smartca.Base.{
  ℕ, Bool, true, false, List, [], ◌∷◌, ◌++◌, some, Text, codes, ◌≡◌, ◌≢◌, refl, sym, ap, ◌∙◌, arith,
  Result, ok, err, Action, modify, ◌>>=◌, Keeps, Keeps-bind, Keeps-pure, Keeps-raise_if, bind-split,
  check-split, pure-back,
}
use nuri_passkey_prf_smartca.CardLock.Escrow.{Keys, Cipher}
use nuri_passkey_prf_smartca.CardLock.Parsing.{identity}
use nuri_passkey_prf_smartca.CardLock.Keyset.{has_required}
use nuri_passkey_prf_smartca.CardLock.Files.{Failure, refused}
use nuri_passkey_prf_smartca.CardLock.Gp.{
  Outside, Args, Event, ran, Shell, Gp, success, output_of, auth, spawn, command_of, rotation_args,
  run, listing, rotate,
}
use nuri_passkey_prf_smartca.CardLock.Rotation.{Target, check_denylist, stored_payload}
use nuri_passkey_prf_smartca.CardLock.Lock.{
  chosen, inspect, confirm, escrow_of, same_card, commit, exit_code, perform, main,
}
use nuri_passkey_prf_smartca.CardLock.Secrets.{wanted-Keeps}
use nuri_passkey_prf_smartca.CardLock.Quiet.{
  words, Stable, listing-Keeps, check_denylist-Keeps, same_card-Keeps,
}
use nuri_passkey_prf_smartca.CardLock.Preparation.{
  inspect-Keeps, confirm-Keeps, stored_payload-Keeps, escrow_of-Keeps,
}
use nuri_passkey_prf_smartca.CardLock.Backwards.{require-back, run-back, same_card-back}

-- No entry of the log is a rotation.
abbrev pub NoRotation : List Event → Type 0
NoRotation [] = Unit
NoRotation (e ∷ log) = (words e ≢ 15) × NoRotation log

chain : {a b c : List Event} {x : Event} → a ≡ x ∷ b → b ≡ c → a ≡ x ∷ c
chain {x = x} p q = p ∙ ap (◌∷◌ x) q

module _ {W K : Type 0} (outside : Outside W) (cipher : Cipher K) where
  abbrev Untouched : Shell W → Type 0
  Untouched s = s.attempted ≡ false → NoRotation s.log

  Stable-Untouched : Stable Untouched
  Stable-Untouched = record {
    push = λ e s w short h a. (short, h a);
    quiet = record { outer = λ s w h. h };
  }

  abbrev Tried : Shell W → Type 0
  Tried s = s.attempted ≡ true

  Stable-Tried : Stable Tried
  Stable-Tried = record { push = λ e s w short h. h; quiet = record { outer = λ s w h. h } }

  rotate-Tried :
      (gp : Gp) (old new : Keys) (version : ℕ) → Keeps Tried (rotate outside gp old new version)
  unfolding rotate run
  rotate-Tried gp old new version =
      Keeps-bind _ _ (Keeps-raise_if _ _) λ _.
        Keeps-bind _ _ (Keeps-bind _ _ sent λ r. wanted-Keeps (success r)) λ text. Keeps-pure tt
    where
      sent :
          Keeps Tried
            (spawn outside (command_of gp true (rotation_args old new version)) gp.ignored)
      sent = unfold spawn in record { from = λ s h. h }

  -- What follows the mark.
  abbrev marked_on : Target → Keys → Action (Shell W) Failure (Unit {0})
  marked_on t new = rotate outside t.gp t.current new t.version >>= λ _.
      listing outside t.gp new t.version >>= λ _. same_card outside t

  marked-Tried : (t : Target) (new : Keys) → Keeps Tried (marked_on t new)
  marked-Tried t new = Keeps-bind _ _ (rotate-Tried t.gp t.current new t.version) λ _.
      Keeps-bind _ _ (listing-Keeps outside Stable-Tried t.gp new t.version)
        λ _. same_card-Keeps outside Stable-Tried t

  marked-Untouched :
      (t : Target) (new : Keys)
      → Keeps Untouched
          (modify (λ (x : Shell W). record x { attempted = true }) >>= λ _. marked_on t new)
  unfolding ◌>>=◌ modify
  marked-Untouched t new = record {
    from = λ s h a.
        let tried = (marked-Tried t new).from (record s { attempted = true }) refl in
        let clash : true ≡ false = sym tried ∙ a in absurd (cc clash);
  }

  commit-Untouched : (t : Target) (new : Keys) → Keeps Untouched (commit outside t new)
  unfolding commit
  commit-Untouched t new = Keeps-bind _ _ (same_card-Keeps outside Stable-Untouched t) λ _.
      Keeps-bind _ _ (check_denylist-Keeps outside Stable-Untouched t.cplc t.serial)
        λ _. marked-Untouched t new

  -- Where `main` ends without the mark of an attempt, which is when it says that no rotation was sent,
  -- the log has no rotation, if it had none and the mark stood for that before.
  pub main-NoRotation :
      (executes locks : Bool) (args : Args) (s : Shell W)
      → (s.attempted ≡ false → NoRotation s.log)
      → (main outside cipher executes locks args s).1.attempted ≡ false
      → NoRotation (main outside cipher executes locks args s).1.log
  unfolding main perform
  main-NoRotation false locks args s h = h
  main-NoRotation true locks args s h =
      (Keeps-bind {Inv = Untouched} _ _
          (stored_payload-Keeps outside Stable-Untouched cipher locks args)
          λ payload. Keeps-bind _ _ (inspect-Keeps outside Stable-Untouched args payload) λ t.
            Keeps-bind _ _ (confirm-Keeps outside Stable-Untouched t.serial) λ _.
              Keeps-bind _ _ (escrow_of-Keeps outside Stable-Untouched cipher locks args payload t)
                λ p. commit-Untouched t (chosen locks p)).from
        s h

  module _ (gp : Gp) (version : ℕ) (s : Shell W) {t : Shell W} {u : Unit {0}} where
    listing-back :
        (keys : Keys)
        → listing outside gp keys version s ≡ (ok u, t)
        → (out : Text) × (errors : Text) × (t.log
            ≡ ran
                (command_of gp true (auth keys version ++ codes "-l" ∷ []))
                (some (0, out, errors))
              ∷ s.log)
          × (has_required (output_of out errors) ≡ true)
    unfolding listing
    listing-back keys e = bind-split (run outside gp true _) _ e λ text s₁ e₁ k₁.
        let (c, still) = require-back (has_required text) k₁ in
        let (out, errors, is, l) = run-back outside gp true _ s e₁ in
        (out, errors, rw still l, rw is at c)

    rotate-back :
        (old new : Keys)
        → rotate outside gp old new version s ≡ (ok u, t)
        → (out : Text) × (errors : Text) × (t.log
            ≡ ran (command_of gp true (rotation_args old new version)) (some (0, out, errors))
              ∷ s.log)
    unfolding rotate
    rotate-back old new e = check-split _ refused _ e λ c k₁.
        bind-split (run outside gp true (rotation_args old new version)) _ k₁ λ text s₁ e₁ k₂.
          let (out, errors, is, l) =
            run-back outside gp true (rotation_args old new version) s e₁ in
          let (_, still) = pure-back k₂ in (out, errors, rw still l)

  -- The last three commands of a rotation that was verified.
  pub record Verified (log : List Event) : Type 0 where
    pub gp : Gp
    pub old : Keys
    pub new : Keys
    pub version : ℕ
    pub cplc : Text
    pub serial : Text
    pub sent : Text × Text
    pub listed : Text × Text
    pub shown : Text × Text
    pub rest : List Event
    pub shape :
        log
        ≡ ran (command_of gp true (codes "-i" ∷ [])) (some (0, shown.0, shown.1))
          ∷ ran
              (command_of gp true (auth new version ++ codes "-l" ∷ []))
              (some (0, listed.0, listed.1))
          ∷ ran (command_of gp true (rotation_args old new version)) (some (0, sent.0, sent.1))
          ∷ rest
    pub registry : has_required (output_of listed.0 listed.1) ≡ true
    pub identified : identity (output_of shown.0 shown.1) ≡ some (cplc, serial)

  commit-Verified :
      (t : Target) (new : Keys) (s : Shell W) {s' : Shell W} {u : Unit {0}}
      → commit outside t new s ≡ (ok u, s')
      → Verified s'.log
  unfolding commit
  commit-Verified t new s e = bind-split (same_card outside t) _ e λ _ s₁ e₁ k₁.
      bind-split (check_denylist outside t.cplc t.serial) _ k₁ λ _ s₂ e₂ k₂.
        bind-split (modify (λ (x : Shell W). record x { attempted = true })) _ k₂ λ _ s₃ e₃ k₃.
          bind-split (rotate outside t.gp t.current new t.version) _ k₃ λ _ s₄ e₄ k₄.
            bind-split (listing outside t.gp new t.version) _ k₄ λ _ s₅ e₅ k₅.
              let (out₁, errors₁, l₁) = rotate-back t.gp t.version s₃ t.current new e₄ in
              let (out₂, errors₂, l₂, r) = listing-back t.gp t.version s₄ new e₅ in
              let (out₃, errors₃, l₃, i) = same_card-back outside t s₅ k₅ in
              record {
                gp = t.gp;
                old = t.current;
                new = new;
                version = t.version;
                cplc = t.cplc;
                serial = t.serial;
                sent = (out₁, errors₁);
                listed = (out₂, errors₂);
                shown = (out₃, errors₃);
                rest = s₃.log;
                shape = chain l₃ (chain l₂ l₁);
                registry = r;
                identified = i;
              }

  -- Where an executing `main` exits with 0, the last three commands were the rotation, an authentication
  -- under the new keys, which listed the required applets, and a reading of the identity; gp ended each
  -- of them with 0.
  pub main-Verified :
      (locks : Bool) (args : Args) (s : Shell W)
      → (main outside cipher true locks args s).0 ≡ 0
      → Verified (main outside cipher true locks args s).1.log
  unfolding main perform
  main-Verified locks args s e = go (perform outside cipher locks args s) refl e
    where
      go :
          (x : Result Failure (Unit {0}) × Shell W)
          → perform outside cipher locks args s ≡ x
          → exit_code x.0 ≡ 0
          → Verified x.1.log
      go (err refused, s') q z = absurd (omega (arith, z))
      go (ok u, s') q z =
          bind-split (stored_payload outside cipher locks args) _ q λ payload s₁ e₁ k₁.
            bind-split (inspect outside args payload) _ k₁ λ t s₂ e₂ k₂.
              bind-split (confirm outside t.serial) _ k₂ λ _ s₃ e₃ k₃.
                bind-split (escrow_of outside cipher locks args payload t) _ k₃
                  λ p s₄ e₄ k₄. commit-Verified t (chosen locks p) s₄ k₄
