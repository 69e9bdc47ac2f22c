-- ===== src/Attest/Tombstone.antt =====
-- One state file gives one accepted response: calls on it, in any order and number.
use nuri_passkey_prf_smartca.Base.{
  ℕ, ◌+◌, ◌≤◌, Bool, true, false, ◌&&◌, not, Option, none, some, Bytes, ◌≡◌, refl, ap, arith,
  Result, ok, err, Action, pure, raise, raise_if, lift, ◌>>=◌, continue, Bool-cases, Text, from_hex,
  inl, inr, ltb, ◌==◌, ◌≢◌, sym, ◌∙◌, split_bind, Keeps, Keeps-bind, Keeps-raise, Keeps-raise_if,
  Keeps-lift, Keeps-pure,
}
use nuri_passkey_prf_smartca.Attest.Evidence.{Failure, refused}
use nuri_passkey_prf_smartca.Attest.Challenges.{Limit, finite, improper, checked_age}
use nuri_passkey_prf_smartca.Attest.Saved.{
  Body, Content, unreadable, saved, StateFile, Disk, Machine, create, write_state, issue_challenge,
  decoded, read_body, claim_content, claim_file, claim,
}

-- Whether the file can still lead to an accepted response; a file that is not there can be made.
abbrev pub live_content : Content → ℕ
live_content unreadable = 0
live_content (saved version true body) = 0
live_content (saved version false body) = 1

abbrev pub live : Disk → ℕ
live none = 1
live (some file) = live_content file.content

abbrev pub ok_count : {A : Type 0} → Result Failure A → ℕ
ok_count (ok a) = 1
ok_count (err e) = 0

pub ok_count-le : {A : Type 0} (r : Result Failure A) → ok_count r ≤ 1
ok_count-le (ok a) = omega arith
ok_count-le (err e) = omega arith

module _ {Inv : Disk → Type 0} where
  decoded-Keeps : (text : Text) → Keeps Inv (decoded text)
  decoded-Keeps text = go (from_hex text)
    where
      go :
          (o : Option Bytes)
          → Keeps Inv (elim o as (λ _. Action Disk Failure Bytes) [
            | none ↦ raise refused
            | some bytes ↦ pure bytes
          ])
      go none = Keeps-raise refused
      go (some bytes) = Keeps-pure bytes

  read_body-Keeps : (now age : ℕ) (body : Option Body) → Keeps Inv (read_body now age body)
  unfolding read_body
  read_body-Keeps now age none = Keeps-raise refused
  read_body-Keeps now age (some body) =
      Keeps-bind _ _ (Keeps-lift (checked_age body.max_age)) λ cap.
        Keeps-bind _ _ (Keeps-raise_if _ _) λ _. Keeps-bind _ _ (decoded-Keeps body.challenge) λ c.
          Keeps-bind _ _ (decoded-Keeps body.aid)
            λ a. Keeps-bind _ _ (decoded-Keeps body.signing_pub) λ p. Keeps-pure (c, a, p)

-- A method that uses up what it returns by.
abbrev pub Uses : {A : Type 0} → Action Disk Failure A → Disk → Type 0
Uses m d = ok_count (m d).0 + live (m d).1 ≤ live d

-- A method that leaves the state alone, from a file that is used up, returns at most once.
spent :
    {A : Type 0} (m : Action Disk Failure A) (d : Disk)
    → Keeps (λ x. live x ≡ 0) m
    → live d ≡ 0
    → ok_count (m d).0 + live (m d).1 ≤ 1
spent m d k z = omega (arith, ok_count-le (m d).0, k.from d z)

live-write_state :
    (m : Machine) (version : ℕ) (body : Option Body) (d : Disk)
    → live (write_state m true (saved version true body) refused d).1 ≡ 0
unfolding write_state
live-write_state m version body d = elim (Bool-cases m.writes) [ inl e ↦ rw e | inr e ↦ rw e ]

-- The mark is on the file before anything of the body is looked at.
marked_first :
    (m : Machine) (age version : ℕ) (body : Option Body) (d : Disk)
    → let r =
        (write_state m true (saved version true body) refused >>= λ _. read_body m.now age body)
          d in
      ok_count r.0 + live r.1 ≤ 1
marked_first m age version body d =
    split_bind (λ x. ok_count x.0 + live x.1 ≤ 1) write (λ _. read_body m.now age body) d
      (λ _ d' e. spent (read_body m.now age body) d' (read_body-Keeps m.now age body) (
        ap (λ (x : Result Failure (Unit {0}) × Disk). live x.1) (sym e)
        ∙ live-write_state m version body d))
      (λ _ d' e. omega (
        arith,
        ap (λ (x : Result Failure (Unit {0}) × Disk). live x.1) (sym e)
            ∙ live-write_state m version body d,
      ))
  where
    write : Action Disk Failure (Unit {0})
    write = write_state m true (saved version true body) refused

-- A check that fails leaves the file as it is.
Uses-check :
    {A : Type 0} (test : Bool) (f : Unit {0} → Action Disk Failure A) (d : Disk)
    → (test ≡ false → Uses (f tt) d)
    → Uses (raise_if test refused >>= f) d
unfolding ◌>>=◌
Uses-check true f d k = omega arith
Uses-check false f d k = k refl

claim_content-Uses :
    (m : Machine) (age : ℕ) (c : Content) (d : Disk)
    → live d ≡ live_content c
    → Uses (claim_content m age c) d
unfolding claim_content raise
claim_content-Uses m age unreadable d l = omega arith
claim_content-Uses m age (saved version true body) d l =
    Uses-check _ _ d λ e. cc (never (version == 1) e)
  where
    never : (b : Bool) → not (b && false) ≡ false → true ≡ false
    never true e = e
    never false e = e
claim_content-Uses m age (saved version false body) d l =
    Uses-check _ _ d λ e. omega (arith, l, marked_first m age version body d)

claim_file-Uses : (m : Machine) (age : ℕ) (d : Disk) → Uses (claim_file m age d) d
unfolding claim_file raise
claim_file-Uses m age none = omega arith
claim_file-Uses m age (some file) =
    Uses-check _ _ (some file)
      λ _. Uses-check _ _ (some file) λ _. claim_content-Uses m age file.content (some file) refl

pub claim-Uses : (m : Machine) (limit : Limit) (d : Disk) → Uses (claim m limit) d
unfolding claim checked_age ◌>>=◌
claim-Uses m improper d = omega arith
claim-Uses m (finite n) d = elim (Bool-cases (ltb 0 n)) [
  | inl e ↦ rw e (claim_file-Uses m n d)
  | inr e ↦ rw e (omega arith)
]

pub live-le : (d : Disk) → live d ≤ 1
live-le none = omega arith
live-le (some file) = go file.content
  where
    go : (c : Content) → live_content c ≤ 1
    go unreadable = omega arith
    go (saved version true body) = omega arith
    go (saved version false body) = omega arith

-- The method raises, and the disk stays as it was.
abbrev pub Refuses : {A : Type 0} → Disk → Action Disk Failure A → Type 0
Refuses {A} d m = ((a : A) → (m d).0 ≢ ok a) × ((m d).1 ≡ d)

Refuses-check :
    {B : Type 0} {d : Disk} (test : Bool) (f : Unit {0} → Action Disk Failure B)
    → Refuses d (f tt)
    → Refuses d (raise_if test refused >>= f)
unfolding ◌>>=◌
Refuses-check true f r = (λ a e. cc e, refl)
Refuses-check false f r = r

module _ {A B : Type 0} {d : Disk} where
  Refuses-lift :
      (r : Result Failure A) (f : A → Action Disk Failure B)
      → ((a : A) → Refuses d (f a))
      → Refuses d (lift r >>= f)
  unfolding ◌>>=◌
  Refuses-lift (ok a) f k = k a
  Refuses-lift (err e) f k = (λ a q. cc q, refl)

  Refuses-first :
      (m : Action Disk Failure A) (f : A → Action Disk Failure B)
      → Refuses d m
      → Refuses d (m >>= f)
  unfolding ◌>>=◌
  Refuses-first m f r = go (m d) r
    where
      go :
          (x : Result Failure A × Disk)
          → ((a : A) → x.0 ≢ ok a) × (x.1 ≡ d)
          → ((b : B) → (continue x.0 f x.1).0 ≢ ok b) × ((continue x.0 f x.1).1 ≡ d)
      go (ok a, s) h = absurd (h.0 a refl)
      go (err e, s) h = (λ b q. cc q, h.1)

-- A state file that is there is never written over: another issue raises, and it stays as it was.
pub issue_challenge-Refuses :
    (m : Machine) (aid signing : Bytes) (limit : Limit) (file : StateFile)
    → Refuses (some file) (issue_challenge m aid signing limit)
unfolding issue_challenge create
issue_challenge-Refuses m aid signing limit file =
    Refuses-lift (checked_age limit) _
      λ age. Refuses-check _ _ (Refuses-check _ _ (Refuses-first (create m) _ (λ a e. cc e, refl)))
