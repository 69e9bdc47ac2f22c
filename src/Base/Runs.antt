-- ===== src/Base/Runs.antt =====
-- Runs of methods that return: through `◌>>=◌` and `raise_if`, forwards and backwards.
use mathlib.Core.Bool.{Bool, true, false, not}
use mathlib.Core.Path.{◌≡◌, refl, sym, ap}
use mathlib.Core.Option.{Option, none, some}
use nuri_passkey_prf_smartca.Base.Tests.{if◌then◌else◌}
use nuri_passkey_prf_smartca.Base.Methods.{
  Result, ok, err, Action, raise, raise_if, pure, ◌>>=◌, continue,
}

module _ {S E A B : Type 0} (m : Action S E A) (f : A → Action S E B) where
  -- A first step that returned is passed by.
  pub bind-run : {s s' : S} {a : A} → m s ≡ (ok a, s') → (m >>= f) s ≡ f a s'
  unfolding ◌>>=◌
  bind-run e = ap (λ (x : Result E A × S). continue x.0 f x.1) e

  -- If the whole returned, the first step had returned.
  pub bind-back :
      {s t : S} {b : B}
      → (m >>= f) s ≡ (ok b, t)
      → (a : A) × (s' : S) × (m s ≡ (ok a, s')) × (f a s' ≡ (ok b, t))
  unfolding ◌>>=◌
  bind-back {s} {t} {b} e = go (m s) refl e
    where
      go :
          (x : Result E A × S)
          → m s ≡ x
          → continue x.0 f x.1 ≡ (ok b, t)
          → (a : A) × (s' : S) × (m s ≡ (ok a, s')) × (f a s' ≡ (ok b, t))
      go (ok a, s') q e = (a, s', q, e)
      go (err x, s') q e = cc (ap (λ (x : Result E B × S). x.0) e)

  -- The same, for a conclusion: the parts are variables there, which keeps what follows small.
  pub bind-split :
      {R : Type 0} {s t : S} {b : B}
      → (m >>= f) s ≡ (ok b, t)
      → ((a : A) (s' : S) → m s ≡ (ok a, s') → f a s' ≡ (ok b, t) → R)
      → R
  bind-split e next = let (a, s', p, q) = bind-back e in next a s' p q

module _ {S E B : Type 0} (test : Bool) (x : E) (f : Unit {0} → Action S E B) where
  -- A check that is passed.
  pub check-run : {s : S} → test ≡ false → (raise_if test x >>= f) s ≡ f tt s
  unfolding ◌>>=◌
  check-run e = rw e refl

  pub check-back :
      {s t : S} {b : B}
      → (raise_if test x >>= f) s ≡ (ok b, t)
      → (test ≡ false) × (f tt s ≡ (ok b, t))
  unfolding ◌>>=◌
  check-back {s} {t} {b} e = go test refl e
    where
      go :
          (c : Bool)
          → test ≡ c
          → continue (raise_if c x s).0 f (raise_if c x s).1 ≡ (ok b, t)
          → (test ≡ false) × (f tt s ≡ (ok b, t))
      go false q e = (q, e)
      go true q e = cc (ap (λ (x : Result E B × S). x.0) e)

  pub check-split :
      {R : Type 0} {s t : S} {b : B}
      → (raise_if test x >>= f) s ≡ (ok b, t)
      → (test ≡ false → f tt s ≡ (ok b, t) → R)
      → R
  check-split e next = let (p, q) = check-back e in next p q

module _ {S E B : Type 0} (m n : Action S E B) where
  -- A run of a conditional is a run of one of its branches.
  pub if-split :
      {R : Type 0} {s t : S} {b : B} (test : Bool)
      → (if test then m else n) s ≡ (ok b, t)
      → (test ≡ true → m s ≡ (ok b, t) → R)
      → (test ≡ false → n s ≡ (ok b, t) → R)
      → R
  if-split true e here there = here refl e
  if-split false e here there = there refl e

  pub if-run : (test : Bool) {s : S} → test ≡ true → (if test then m else n) s ≡ m s
  if-run test {s} e = ap (λ c. (if c then m else n) s) e

  pub else-run : (test : Bool) {s : S} → test ≡ false → (if test then m else n) s ≡ n s
  else-run test {s} e = ap (λ c. (if c then m else n) s) e

pub some-run :
    {S E A B : Type 0} {s : S} (x : E) (f : A → Action S E B) {o : Option A} {a : A}
    → o ≡ some a
    → (elim o as (λ _. Action S E B) [ none ↦ raise x | some a ↦ f a ]) s ≡ f a s
some-run {S} {E} {A} {B} {s} x f e =
    ap (λ (o : Option A). (elim o as (λ _. Action S E B) [ none ↦ raise x | some a ↦ f a ]) s) e

-- A run of a lookup that must succeed.
pub some-split :
    {S E A B : Type 0} {R : Type 0} {s t : S} {b : B} (x : E) (f : A → Action S E B) (o : Option A)
    → (elim o as (λ _. Action S E B) [ none ↦ raise x | some a ↦ f a ]) s ≡ (ok b, t)
    → ((a : A) → o ≡ some a → f a s ≡ (ok b, t) → R)
    → R
unfolding raise
some-split {S} {E} {A} {B} x f none e next = cc (ap (λ (y : Result E B × S). y.0) e)
some-split x f (some a) e next = next a refl e

pub raise-ne-ok :
    {S E B R : Type 0} {t : S} {b : B} (x : E) (s : S) → raise {A = B} x s ≡ (ok b, t) → R
unfolding raise
raise-ne-ok {S} {E} {B} x s e = cc (ap (λ (y : Result E B × S). y.0) e)

pub pure-back :
    {S E B : Type 0} {a b : B} {s t : S} → pure {E = E} a s ≡ (ok b, t) → (b ≡ a) × (t ≡ s)
unfolding pure
pure-back {S} {E} {B} e =
    (cc (ap (λ (x : Result E B × S). x.0) e), ap (λ (x : Result E B × S). x.1) (sym e))

pub not-false : (b : Bool) → not b ≡ false → b ≡ true
not-false true e = refl
not-false false e = cc

pub true-not : {b : Bool} → b ≡ true → not b ≡ false
true-not e = rw e refl
