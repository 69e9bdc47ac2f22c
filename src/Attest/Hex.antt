-- ===== src/Attest/Hex.antt =====
-- What `issue_challenge` wrote is what `verify_saved_response` reads.
use nuri_passkey_prf_smartca.Base.{
  to_hex, IsByte, from_hex-to_hex, ℕ, ◌+◌, ◌≤◌, ◌<◌, Bool, leb, true, false, none, some, Bytes, ◌≡◌,
  inl, inr, refl, sym, ap, ◌∙◌, arith, Result, ok, pure, lift, Bool-cases, All, bind-run,
  bind-split, check-split, check-run, pure-back, true-not, some-run,
}
use nuri_passkey_prf_smartca.Attest.Evidence.{Failure, refused, os_error}
use nuri_passkey_prf_smartca.Attest.Challenges.{Limit, finite, improper, checked_age, is_young}
use nuri_passkey_prf_smartca.Attest.Saved.{
  Content, saved, Disk, Machine, create, write_state, issue_challenge, min_age, decoded, read_body,
  claim_content, claim_file, claim, max_state,
}

checked_age-back : (l : Limit) {a : ℕ} → checked_age l ≡ ok a → (l ≡ finite a) × (0 < a)
unfolding checked_age
checked_age-back improper e = cc e
checked_age-back (finite n) e = ground arith

checked_age-run : (a : ℕ) → 0 < a → checked_age (finite a) ≡ ok a
unfolding checked_age
checked_age-run a h = ground arith

-- The content that an issue leaves, with the mark that is given.
abbrev pub issued : Machine → Bytes → Bytes → ℕ → Bool → Content
issued m aid signing age mark = saved 1 mark (
    some (record {
      issued_at = m.now;
      max_age = finite age;
      challenge = to_hex m.fresh;
      aid = to_hex aid;
      signing_pub = to_hex signing;
    }))

-- Written by `n`.
abbrev pub issued_file : Machine → Machine → Bytes → Bytes → ℕ → Bool → Disk
issued_file n m aid signing age mark = some (record {
  is_exact = true;
  size = n.json_size (issued m aid signing age mark);
  content = issued m aid signing age mark;
})

create-back :
    (m : Machine) (d : Disk) {d' : Disk} {u : Unit {0}} → create m d ≡ (ok u, d') → d ≡ none
unfolding create
create-back m none e = refl
create-back m (some file) e = cc (ap (λ (x : Result Failure (Unit {0}) × Disk). x.0) e)

write_state-back :
    (m : Machine) (c : Content) (d : Disk) {d' : Disk} {u : Unit {0}}
    → write_state m true c os_error d ≡ (ok u, d')
    → d' ≡ some (record { is_exact = true; size = m.json_size c; content = c })
unfolding write_state
write_state-back m c d {d'} e = elim (Bool-cases m.writes) [
  | inl w ↦ sym (ap (λ (x : Result Failure (Unit {0}) × Disk). x.1) (rw w at e))
  | inr w ↦ cc (ap (λ (x : Result Failure (Unit {0}) × Disk). x.0) (rw w at e))
]

-- What an issue that returned has done.
pub issue_challenge-back :
    (m : Machine) (aid signing : Bytes) (limit : Limit) {d d' : Disk} {c : Bytes}
    → issue_challenge m aid signing limit d ≡ (ok c, d')
    → (age : ℕ) × (limit ≡ finite age)
      × (0 < age)
      × (d ≡ none)
      × (c ≡ m.fresh)
      × (d' ≡ issued_file m m aid signing age false)
unfolding issue_challenge lift
issue_challenge-back m aid signing limit {d} {d'} {c} e =
    bind-split (lift (checked_age limit)) _ e λ age s₁ e₁ k₁. check-split _ refused _ k₁ λ c₁ k₂.
      check-split _ refused _ k₂ λ c₂ k₃. bind-split (create m) _ k₃ λ u s₂ e₂ k₄.
        bind-split (write_state m true _ os_error) _ k₄ λ w s₃ e₃ k₅.
          let (l, pos) = checked_age-back limit (ap (λ (x : Result Failure ℕ × Disk). x.0) e₁) in
          let same : s₁ ≡ d = sym (ap (λ (x : Result Failure ℕ × Disk). x.1) e₁) in
          let (p, q) = pure-back k₅ in
          (age, l, pos, sym same ∙ create-back m s₁ e₂, p, q ∙ write_state-back m _ s₂ e₃)

young : (now issued cap : ℕ) → issued ≤ now → now ≤ issued + cap → is_young now issued cap ≡ true
young now issued cap lo hi = ground arith

decoded-to_hex : (bs : Bytes) {s : Disk} → All IsByte bs → decoded (to_hex bs) s ≡ (ok bs, s)
unfolding pure
decoded-to_hex bs h = some-run refused pure (from_hex-to_hex bs h)

read_body-issued :
    (m : Machine) (aid signing : Bytes) (now later age : ℕ) {s : Disk}
    → All IsByte m.fresh
    → All IsByte aid
    → All IsByte signing
    → 0 < age
    → m.now ≤ now
    → now ≤ m.now + min_age later age
    → read_body now later
        (some (record {
          issued_at = m.now;
          max_age = finite age;
          challenge = to_hex m.fresh;
          aid = to_hex aid;
          signing_pub = to_hex signing;
        }))
        s
      ≡ (ok (m.fresh, aid, signing), s)
unfolding read_body lift
read_body-issued m aid signing now later age {s} fb ab sb pos lo hi =
    bind-run (lift (checked_age (finite age))) _ (ap (λ r. (r, s)) (checked_age-run age pos))
    ∙ check-run _ refused _ (true-not (young now m.now (min_age later age) lo hi))
    ∙ bind-run (decoded (to_hex m.fresh)) _ (decoded-to_hex m.fresh fb)
    ∙ bind-run (decoded (to_hex aid)) _ (decoded-to_hex aid ab)
    ∙ bind-run (decoded (to_hex signing)) _ (decoded-to_hex signing sb)
    ∙ unfold pure in refl

fits : (n : ℕ) → n ≤ 4096 → leb n max_state ≡ true
fits n h = ground arith

-- A verification that comes after an issue on the same file, with the clock between the issue and the
-- end of the smaller of the two ages, a disk that takes the mark, and a state of at most 4096 bytes,
-- claims just the challenge, AID and signing key of the issue, and leaves the file marked as consumed.
pub claim-issue_challenge :
    (m n : Machine) (aid signing : Bytes) (limit : Limit) (later age : ℕ) (d : Disk) {d' : Disk}
    {c : Bytes}
    → All IsByte m.fresh
    → All IsByte aid
    → All IsByte signing
    → issue_challenge m aid signing limit d ≡ (ok c, d')
    → limit ≡ finite age
    → 0 < later
    → m.now ≤ n.now
    → n.now ≤ m.now + min_age later age
    → n.writes ≡ true
    → m.json_size (issued m aid signing age false) ≤ 4096
    → claim n (finite later) d' ≡ (ok (c, aid, signing), issued_file n m aid signing age true)
unfolding claim lift claim_file claim_content write_state
claim-issue_challenge m n aid signing limit later age d {d'} {c} fb ab sb e l pos lo hi w short =
    let (a, l', pos', _, cf, df) = issue_challenge-back m aid signing limit e in
    let same : a ≡ age = cc (sym l' ∙ l) in
    rw (df, cf, same)
      (bind-run (lift (checked_age (finite later))) _
          (ap (λ r. (r, issued_file m m aid signing age false)) (checked_age-run later pos))
        ∙ check-run false refused _ refl
        ∙ check-run _ refused _ (true-not (fits _ short))
        ∙ check-run false refused _ refl
        ∙ bind-run (write_state n true _ refused) _ {s' = issued_file n m aid signing age true}
            (rw w refl)
        ∙ read_body-issued m aid signing n.now later age fb ab sb (rw same at pos') lo hi)
