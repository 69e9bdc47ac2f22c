-- ===== src/CardLock/Sources.antt =====
-- Where the new keys come from: what `make_escrow`, `stored_payload` and `inspect` leave when they return.
use nuri_passkey_prf_smartca.Base.{
  ℕ, zero, suc, Bool, true, false, ◌&&◌, List, [], ◌∷◌, Option, none, some, Bytes, Text, codes,
  equal, equal_iff, ◌==◌, ==_iff, ◌≡◌, ◌≢◌, refl, sym, ap, ◌∙◌, Result, ok, Action, pure, Keeps,
  bind-split, raise-ne-ok, pure-back,
}
use nuri_passkey_prf_smartca.CardLock.Escrow.{default_key, Keys, Payload, Cipher, encrypt, decrypt}
use nuri_passkey_prf_smartca.CardLock.Parsing.{identity}
use nuri_passkey_prf_smartca.CardLock.Keyset.{key_version}
use nuri_passkey_prf_smartca.CardLock.Files.{Failure, require, wanted, FilePath}
use nuri_passkey_prf_smartca.CardLock.Gp.{
  Outside, Args, Event, read, published, Shell, first_name, new_gp, listing, run, read_file,
  publish,
}
use nuri_passkey_prf_smartca.CardLock.Rotation.{
  same_keys, same_option, same_payload, Target, keys_of, fits, outer_call, password_from, new_key,
  other_key, check_denylist, stored_payload,
}
use nuri_passkey_prf_smartca.CardLock.Lock.{path_of, inspect, new_payload, make_escrow}
use nuri_passkey_prf_smartca.CardLock.Secrets.{
  Quiet, outer_call-Keeps, password_from-Keeps, other_key-Keeps,
}
use nuri_passkey_prf_smartca.CardLock.Backwards.{
  and_parts, wanted-back, require-back, read_file-back, publish-back,
}

same_keys-back : (a b : Keys) → same_keys a b ≡ true → a ≡ b
same_keys-back a b e =
    let (q, dek) = and_parts (equal a.enc b.enc && equal a.mac b.mac) e in
    let (enc, mac) = and_parts (equal a.enc b.enc) q in
    λ k. record {
      enc = (equal_iff a.enc b.enc).0 enc k;
      mac = (equal_iff a.mac b.mac).0 mac k;
      dek = (equal_iff a.dek b.dek).0 dek k;
    }

same_option-back : (a b : Option Text) → same_option a b ≡ true → a ≡ b
same_option-back none none e = refl
same_option-back none (some t) e = cc e
same_option-back (some t) none e = cc e
same_option-back (some t) (some u) e = ap some ((equal_iff t u).0 e)

same_payload-back : (a b : Payload) → same_payload a b ≡ true → a ≡ b
unfolding same_payload
same_payload-back a b e =
    let (q₁, news) =
      and_parts
        (equal a.gp b.gp
          && equal a.cplc b.cplc
          && equal a.serial b.serial
          && a.key_version == b.key_version
          && same_option a.key_type b.key_type
          && same_keys a.old_keys b.old_keys)
        e in
    let (q₂, olds) =
      and_parts
        (equal a.gp b.gp
          && equal a.cplc b.cplc
          && equal a.serial b.serial
          && a.key_version == b.key_version
          && same_option a.key_type b.key_type)
        q₁ in
    let (q₃, type) =
      and_parts
        (equal a.gp b.gp
          && equal a.cplc b.cplc
          && equal a.serial b.serial
          && a.key_version == b.key_version)
        q₂ in
    let (q₄, version) =
      and_parts (equal a.gp b.gp && equal a.cplc b.cplc && equal a.serial b.serial) q₃ in
    let (q₅, serial) = and_parts (equal a.gp b.gp && equal a.cplc b.cplc) q₄ in
    let (gp, cplc) = and_parts (equal a.gp b.gp) q₅ in
    λ k. record {
      gp = (equal_iff a.gp b.gp).0 gp k;
      cplc = (equal_iff a.cplc b.cplc).0 cplc k;
      serial = (equal_iff a.serial b.serial).0 serial k;
      key_version = (==_iff a.key_version b.key_version).0 version k;
      key_type = same_option-back a.key_type b.key_type type k;
      old_keys = same_keys-back a.old_keys b.old_keys olds k;
      new_keys = same_keys-back a.new_keys b.new_keys news k;
    }

module _ {W : Type 0} (outside : Outside W) where
  other_key-back :
      (n : ℕ) (key_type : Text) (s : Shell W) {t : Shell W} {key : Text}
      → other_key outside n key_type s ≡ (ok key, t)
      → key ≢ default_key
  unfolding other_key
  other_key-back zero key_type s e = raise-ne-ok _ _ e
  other_key-back (suc n) key_type s {t} {key} e =
      bind-split (new_key outside key_type) _ e λ candidate s₁ e₁ k₁.
        next candidate s₁ (other_key-back n key_type s₁) (equal candidate default_key) refl k₁
    where
      next :
          (candidate : Text) (s₁ : Shell W)
          → (other_key outside n key_type s₁ ≡ (ok key, t) → key ≢ default_key)
          → (b : Bool) → equal candidate default_key ≡ b
          → (elim b as (λ _. Action (Shell W) Failure Text) [
            | true ↦ other_key outside n key_type
            | false ↦ pure candidate
          ])
              s₁
            ≡ (ok key, t)
          → key ≢ default_key
      next candidate s₁ later true q e = later e
      next candidate s₁ later false q e = λ same.
          let is : candidate ≡ default_key = sym (pure-back e).0 ∙ same in
          let yes_ : equal candidate default_key ≡ true = (equal_iff candidate default_key).1 is in
          absurd (cc (sym yes_ ∙ q))

  -- What leaves the log alone, leaves the log as it was.
  Quiet-Same : (log : List Event) → Quiet (λ (s : Shell W). s.log ≡ log)
  Quiet-Same log = record { outer = λ s w h. h }

  same_log :
      {A : Type 0} (m : Action (Shell W) Failure A) (s : Shell W) {t : Shell W} {a : A}
      → Keeps (λ (x : Shell W). x.log ≡ s.log) m
      → m s ≡ (ok a, t)
      → t.log ≡ s.log
  same_log {A} m s k e = ap (λ (x : Result Failure A × Shell W). x.1.log) (sym e) ∙ k.from s refl

  module _ {K : Type 0} (cipher : Cipher K) where
    pub make_escrow-back :
        (args : Args) (t : Target) (s : Shell W) {s' : Shell W} {p : Payload}
        → make_escrow outside cipher args t s ≡ (ok p, s')
        → (path : FilePath) × (content : Bytes) × (sealed : Bytes) × (password : Bytes)
          × (key : Text) × (s'.log ≡ read path (some content) ∷ published path sealed ∷ s.log)
          × (decrypt cipher content password ≡ some p)
          × (p ≡ new_payload t key)
          × (key ≢ default_key)
    unfolding make_escrow
    make_escrow-back args t s {s'} {p} e =
        bind-split (password_from outside args true) _ e λ password s₁ e₁ k₁.
          bind-split (other_key outside 8 t.key_type) _ k₁ λ key s₂ e₂ k₂.
            bind-split (outer_call outside (outside.token 32)) _ k₂ λ salt s₃ e₃ k₃.
              bind-split (outer_call outside (outside.token 12)) _ k₃ λ iv s₄ e₄ k₄.
                bind-split (publish outside _ _) _ k₄ λ u s₅ e₅ k₅.
                  bind-split (read_file outside _) _ k₅ λ content s₆ e₆ k₆.
                    bind-split (wanted (decrypt cipher content password)) _ k₆ λ back s₇ e₇ k₇.
                      bind-split (require (same_payload back (new_payload t key))) _ k₇
                        λ v s₈ e₈ k₈.
                          let (q, u₇) = wanted-back (decrypt cipher content password) e₇ in
                          let (c, u₈) = require-back (same_payload back (new_payload t key)) e₈ in
                          let (same, u₉) = pure-back k₈ in
                          let is : back ≡ p =
                            same_payload-back back (new_payload t key) c ∙ sym same in
                          let l₁ : s₁.log ≡ s.log =
                            same_log _ s (password_from-Keeps outside (Quiet-Same s.log) args true)
                              e₁ in
                          let l₂ : s₂.log ≡ s₁.log =
                            same_log _ s₁ (other_key-Keeps outside (Quiet-Same s₁.log) 8 t.key_type)
                              e₂ in
                          let l₃ : s₃.log ≡ s₂.log =
                            same_log _ s₂
                              (outer_call-Keeps outside (Quiet-Same s₂.log) (outside.token 32))
                              e₃ in
                          let l₄ : s₄.log ≡ s₃.log =
                            same_log _ s₃
                              (outer_call-Keeps outside (Quiet-Same s₃.log) (outside.token 12))
                              e₄ in
                          (
                            path_of (first_name args.escrow none) (outside.default_escrow t.cplc)
                                outside.resolve,
                            content,
                            encrypt cipher salt iv (new_payload t key) password,
                            password,
                            key,
                            ap (λ (x : Shell W). x.log) (u₉ ∙ u₈ ∙ u₇)
                                ∙ read_file-back outside _ s₅ e₆
                                ∙ ap
                                    (λ l.
                                      read
                                        (path_of (first_name args.escrow none)
                                          (outside.default_escrow t.cplc) outside.resolve)
                                        (some content)
                                      ∷ l)
                                    (publish-back outside _ _ s₄ e₅
                                      ∙ ap
                                          (λ l.
                                            published
                                              (path_of (first_name args.escrow none)
                                                (outside.default_escrow t.cplc) outside.resolve)
                                              (encrypt cipher salt iv (new_payload t key) password)
                                            ∷ l)
                                          (l₄ ∙ l₃ ∙ l₂ ∙ l₁)),
                            q ∙ ap some is,
                            same,
                            other_key-back 8 t.key_type s₁ e₂,
                          )

    -- The escrow of an unlock was read and opens.
    pub stored_payload-back :
        (args : Args) (s : Shell W) {s' : Shell W} {o : Option Payload}
        → stored_payload outside cipher false args s ≡ (ok o, s')
        → (path : FilePath) × (content : Bytes) × (password : Bytes) × (p : Payload) × (o ≡ some p)
          × (decrypt cipher content password ≡ some p)
          × (s'.log ≡ read path (some content) ∷ s.log)
    unfolding stored_payload
    stored_payload-back args s {s'} e =
        bind-split (wanted (first_name args.escrow none)) _ e λ name s₁ e₁ k₁.
          bind-split (read_file outside (outside.resolve name)) _ k₁ λ content s₂ e₂ k₂.
            bind-split (password_from outside args false) _ k₂ λ password s₃ e₃ k₃.
              bind-split (wanted (decrypt cipher content password)) _ k₃ λ p s₄ e₄ k₄.
                let (_, u₁) = wanted-back (first_name args.escrow none) e₁ in
                let (q, u₄) = wanted-back (decrypt cipher content password) e₄ in
                let (same, u₅) = pure-back k₄ in
                let l₃ : s₃.log ≡ s₂.log =
                  same_log _ s₂ (password_from-Keeps outside (Quiet-Same s₂.log) args false) e₃ in
                (
                  outside.resolve name,
                  content,
                  password,
                  p,
                  same,
                  q,
                  ap (λ (x : Shell W). x.log) (u₅ ∙ u₄)
                      ∙ l₃
                      ∙ read_file-back outside _ s₁ e₂
                      ∙ ap (λ (x : Shell W). read (outside.resolve name) (some content) ∷ x.log) u₁,
                )

  -- The card that was inspected is the escrow's.
  pub inspect-back :
      (args : Args) (p : Payload) (s : Shell W) {s' : Shell W} {t : Target}
      → inspect outside args (some p) s ≡ (ok t, s')
      → p.cplc ≡ t.cplc
  unfolding inspect
  inspect-back args p s {s'} {t} e = bind-split (new_gp outside args) _ e λ gp s₁ e₁ k₁.
      bind-split (run outside gp true (codes "-i" ∷ [])) _ k₁ λ info s₂ e₂ k₂.
        bind-split (wanted (identity info)) _ k₂ λ (cplc, serial) s₃ e₃ k₃.
          bind-split (check_denylist outside cplc serial) _ k₃ λ u s₄ e₄ k₄.
            bind-split (wanted (key_version info)) _ k₄ λ (version, type) s₅ e₅ k₅.
              bind-split (require (fits (some p) cplc version type)) _ k₅ λ v s₆ e₆ k₆.
                bind-split (listing outside gp (keys_of (some p)) version) _ k₆ λ w s₇ e₇ k₇.
                  let (c, _) = require-back (fits (some p) cplc version type) e₆ in
                  let (same, _) = pure-back k₇ in
                  of_card cplc version type c ∙ ap (λ (x : Target). x.cplc) (sym same)
    where
      of_card :
          (cplc : Text) (version : ℕ) (type : Text)
          → fits (some p) cplc version type ≡ true
          → p.cplc ≡ cplc
      of_card cplc version type c =
          unfold fits in
          let (q, _) = and_parts (equal p.cplc cplc && p.key_version == version) c in
          (equal_iff p.cplc cplc).0 (and_parts (equal p.cplc cplc) q).0
