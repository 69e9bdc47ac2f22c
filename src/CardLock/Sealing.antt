-- ===== src/CardLock/Sealing.antt =====
-- `main` sends a rotation only behind its checks.
use nuri_passkey_prf_smartca.Base.{
  ℕ, Bool, true, false, List, [], ◌∷◌, Option, some, Bytes, Text, codes, ◌≡◌, ◌≢◌, ◌⊎◌, inl, inr,
  refl, sym, ap, subst, ◌∙◌, strip, Result, ok, modify, Keeps-pure, after_check, after_bind,
}
use nuri_passkey_prf_smartca.CardLock.Escrow.{default_key, Keys, Payload, Cipher, decrypt}
use nuri_passkey_prf_smartca.CardLock.Parsing.{identity}
use nuri_passkey_prf_smartca.CardLock.Keyset.{split_lines, permits}
use nuri_passkey_prf_smartca.CardLock.Files.{Failure, FilePath}
use nuri_passkey_prf_smartca.CardLock.Gp.{
  Ran, Outside, Args, Event, ran, read, published, typed, Shell, Gp, success, output_of, spawn,
  command_of, rotation_args, run, listing, rotate,
}
use nuri_passkey_prf_smartca.CardLock.Rotation.{one_key, Target, check_denylist, stored_payload}
use nuri_passkey_prf_smartca.CardLock.Lock.{
  chosen, inspect, confirm, escrow_of, same_card, commit, perform, main,
}
use nuri_passkey_prf_smartca.CardLock.Secrets.{wanted-Keeps}
use nuri_passkey_prf_smartca.CardLock.Quiet.{
  words, Stable, listing-Keeps, check_denylist-Keeps, same_card-Keeps,
}
use nuri_passkey_prf_smartca.CardLock.Preparation.{
  inspect-Keeps, confirm-Keeps, stored_payload-Keeps, escrow_of-Keeps,
}
use nuri_passkey_prf_smartca.CardLock.Backwards.{
  wanted-back, check_denylist-back, same_card-back, confirm-back,
}
use nuri_passkey_prf_smartca.CardLock.Sources.{make_escrow-back, stored_payload-back, inspect-back}

-- The log has the entry.
abbrev pub Has : Event → List Event → Type 0
Has x [] = ⊥
Has x (e ∷ log) = (e ≡ x) ⊎ Has x log

module _ {W K : Type 0} (outside : Outside W) (cipher : Cipher K) (locks : Bool) where
  -- The escrow that the new keys come from. For a lock it was published and then read back right before,
  -- behind the confirmation, and goes from the default key to another; for an unlock it was read, and the
  -- confirmation came right before.
  pub data Backed (cplc serial : Text) (new : Keys) (log : List Event) : Type 0 where
    by_lock :
        (path : FilePath) (content sealed password : Bytes) {line : Text} {rest : List Event}
        {payload : Payload}
        → locks ≡ true
        → log ≡ read path (some content) ∷ published path sealed ∷ typed (some line) ∷ rest
        → strip line ≡ serial
        → decrypt cipher content password ≡ some payload
        → payload.cplc ≡ cplc
        → payload.old_keys ≡ one_key default_key
        → payload.new_keys ≡ new
        → new.enc ≢ default_key
        → Backed cplc serial new log
    by_unlock :
        (path : FilePath) (content password : Bytes) {line : Text} {rest : List Event}
        {payload : Payload}
        → locks ≡ false
        → log ≡ typed (some line) ∷ rest
        → strip line ≡ serial
        → Has (read path (some content)) rest
        → decrypt cipher content password ≡ some payload
        → payload.cplc ≡ cplc
        → payload.old_keys ≡ new
        → Backed cplc serial new log

  -- A rotation stands right on a reading of the deny-list that does not name the card and, before that, on
  -- a reading of the card's identity.
  pub record Guarded (x : Event) (log : List Event) : Type 0 where
    pub gp : Gp
    pub cplc : Text
    pub serial : Text
    pub old : Keys
    pub new : Keys
    pub version : ℕ
    pub result : Ran
    pub listed : Bytes
    pub out : Text
    pub errors : Text
    pub rest : List Event
    pub is : x ≡ ran (command_of gp true (rotation_args old new version)) result
    pub shape :
        log
        ≡ read outside.deny_path (some listed)
          ∷ ran (command_of gp true (codes "-i" ∷ [])) (some (0, out, errors))
          ∷ rest
    pub permitted : permits cplc serial (split_lines false listed) ≡ true
    pub identified : identity (output_of out errors) ≡ some (cplc, serial)
    pub backed : Backed cplc serial new rest

  abbrev pub AllGuarded : List Event → Type 0
  AllGuarded [] = Unit
  AllGuarded (x ∷ log) = (words x ≡ 15 → Guarded x log) × AllGuarded log

  abbrev Good : Shell W → Type 0
  Good s = AllGuarded s.log

  Stable-Good : Stable Good
  Stable-Good = record {
    push = λ e s w short g. ((λ q. absurd (short q)), g);
    quiet = record { outer = λ s w g. g };
  }

  Stable-Has : (x : Event) → Stable {W = W} (λ s. Has x s.log)
  Stable-Has x = record { push = λ e s w short h. inr h; quiet = record { outer = λ s w h. h } }

  rotate-Good :
      (gp : Gp) (old new : Keys) (version : ℕ) (s : Shell W)
      → Good s
      → ((r : Ran) → Guarded (ran (command_of gp true (rotation_args old new version)) r) s.log)
      → Good (rotate outside gp old new version s).1
  unfolding rotate run
  rotate-Good gp old new version s g allowed = after_check Good _ _ _ s g λ _.
      after_bind Good (run outside gp true (rotation_args old new version)) _ s
        (after_bind Good (spawn outside command gp.ignored) _ s sent
          λ r s' e h. (wanted-Keeps {Inv = Good} (success r)).from s' h)
        λ text s' e h. (Keeps-pure {Inv = Good} tt).from s' h
    where
      command : List Text
      command = command_of gp true (rotation_args old new version)

      sent :
          Good (spawn outside (command_of gp true (rotation_args old new version)) gp.ignored s).1
      sent = unfold spawn in ((λ _. allowed (outside.spawn command gp.ignored s.outer).0), g)

  commit-Good :
      (t : Target) (new : Keys) (s : Shell W)
      → Good s
      → Backed t.cplc t.serial new s.log
      → Good (commit outside t new s).1
  unfolding commit modify
  commit-Good t new s g b =
      after_bind Good (same_card outside t) _ s ((same_card-Keeps outside Stable-Good t).from s g)
        λ _ s₁ e₁ g₁.
          after_bind Good (check_denylist outside t.cplc t.serial) _ s₁
            ((check_denylist-Keeps outside Stable-Good t.cplc t.serial).from s₁ g₁)
            λ _ s₂ e₂ g₂.
              after_bind Good (modify (λ x. record x { attempted = true })) _ s₂ g₂ λ _ s₃ e₃ g₃.
                after_bind Good (rotate outside t.gp t.current new t.version) _ s₃
                  (rotate-Good t.gp t.current new t.version s₃ g₃ (guarded s₁ s₂ s₃ e₁ e₂ e₃))
                  λ _ s₄ e₄ g₄.
                    after_bind Good (listing outside t.gp new t.version) _ s₄
                      ((listing-Keeps outside Stable-Good t.gp new t.version).from s₄ g₄)
                      λ _ s₅ e₅ g₅. (same_card-Keeps outside Stable-Good t).from s₅ g₅
    where
      guarded :
          (s₁ s₂ s₃ : Shell W) {u v w : Unit {0}}
          → same_card outside t s ≡ (ok u, s₁)
          → check_denylist outside t.cplc t.serial s₁ ≡ (ok v, s₂)
          → modify {E = Failure} (λ (x : Shell W). record x { attempted = true }) s₂ ≡ (ok w, s₃)
          → (r : Ran)
          → Guarded (ran (command_of t.gp true (rotation_args t.current new t.version)) r) s₃.log
      guarded s₁ s₂ s₃ e₁ e₂ e₃ r =
          let (out, errors, l₁, i) = same_card-back outside t s e₁ in
          let (listed, l₂, p) = check_denylist-back outside t.cplc t.serial s₁ e₂ in
          let l₃ : s₃.log ≡ s₂.log =
            sym (ap (λ (x : Result Failure (Unit {0}) × Shell W). x.1.log) e₃) in
          record {
            gp = t.gp;
            cplc = t.cplc;
            serial = t.serial;
            old = t.current;
            new = new;
            version = t.version;
            result = r;
            listed = listed;
            out = out;
            errors = errors;
            rest = s.log;
            is = refl;
            shape = l₃ ∙ l₂ ∙ ap (λ l. read outside.deny_path (some listed) ∷ l) l₁;
            permitted = p;
            identified = i;
            backed = b;
          }

  backing :
      (b : Bool) (args : Args) (s : Shell W) {s₁ s₂ s₃ s₄ : Shell W} {payload : Option Payload}
      {t : Target} {u : Unit {0}} {p : Payload}
      → locks ≡ b
      → stored_payload outside cipher b args s ≡ (ok payload, s₁)
      → inspect outside args payload s₁ ≡ (ok t, s₂)
      → confirm outside t.serial s₂ ≡ (ok u, s₃)
      → escrow_of outside cipher b args payload t s₃ ≡ (ok p, s₄)
      → Backed t.cplc t.serial (chosen b p) s₄.log
  unfolding escrow_of
  backing true args s {s₁} {s₂} {s₃} {s₄} {payload} {t} {u} {p} q e₁ e₂ e₃ e₄ =
      let (line, l₃, c) = confirm-back outside t.serial s₂ e₃ in
      let (path, content, sealed, password, key, l₄, d, is, other) =
        make_escrow-back outside cipher args t s₃ e₄ in
      by_lock path content sealed password q
        (l₄ ∙ ap (λ l. read path (some content) ∷ published path sealed ∷ l) l₃) c d
        (ap (λ (x : Payload). x.cplc) is) (ap (λ (x : Payload). x.old_keys) is) refl
        (λ z. other (sym (ap (λ (x : Payload). x.new_keys.enc) is) ∙ z))
  backing false args s {s₁} {s₂} {s₃} {s₄} {payload} {t} {u} {p} q e₁ e₂ e₃ e₄ =
      let (line, l₃, c) = confirm-back outside t.serial s₂ e₃ in
      let (path, content, password, p', o, d, l₁) = stored_payload-back outside cipher args s e₁ in
      let (o', still) = wanted-back payload e₄ in
      let same : p' ≡ p = cc (sym o ∙ o') in
      let there : Has (read path (some content)) s₁.log =
        subst (Has (read path (some content))) (sym l₁) (inl refl) in
      let later : Has (read path (some content)) s₂.log =
        subst (λ (x : Result Failure Target × Shell W). Has (read path (some content)) x.1.log) e₂
          ((inspect-Keeps outside (Stable-Has (read path (some content))) args payload).from s₁
            there) in
      by_unlock path content password q (ap (λ (x : Shell W). x.log) still ∙ l₃) c later
        (d ∙ ap some same)
        (inspect-back outside args p s₁ (subst (λ x. inspect outside args x s₁ ≡ (ok t, s₂)) o' e₂))
        refl

  -- However `main` ends, and whatever the card, gp and the user answer, each rotation that it adds to the
  -- log stands right on a reading of the deny-list that is well-formed and does not name the card and,
  -- right before that, on a reading of the identity that was confirmed. For a lock, right before that the
  -- escrow was read back behind its publication and the typed serial: it decrypts to a payload of this
  -- card with the default keys and with just the keys that the rotation sets, which are not the default.
  -- For an unlock, the serial was typed right before, and an escrow had been read before that, which
  -- decrypts to a payload of this card with just the old keys that the rotation sets.
  pub main-AllGuarded :
      (executes : Bool) (args : Args) (s : Shell W)
      → AllGuarded s.log
      → AllGuarded (main outside cipher executes locks args s).1.log
  unfolding main perform
  main-AllGuarded false args s g = g
  main-AllGuarded true args s g =
      after_bind Good (stored_payload outside cipher locks args) _ s
        ((stored_payload-Keeps outside Stable-Good cipher locks args).from s g)
        λ payload s₁ e₁ g₁.
          after_bind Good (inspect outside args payload) _ s₁
            ((inspect-Keeps outside Stable-Good args payload).from s₁ g₁)
            λ t s₂ e₂ g₂.
              after_bind Good (confirm outside t.serial) _ s₂
                ((confirm-Keeps outside Stable-Good t.serial).from s₂ g₂)
                λ u s₃ e₃ g₃.
                  after_bind Good (escrow_of outside cipher locks args payload t) _ s₃
                    ((escrow_of-Keeps outside Stable-Good cipher locks args payload t).from s₃ g₃)
                    λ p s₄ e₄ g₄.
                      commit-Good t (chosen locks p) s₄ g₄ (backing locks args s refl e₁ e₂ e₃ e₄)
