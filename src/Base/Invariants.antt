-- ===== src/Base/Invariants.antt =====
-- Invariants of methods, with one rule for each way to build a method.
use mathlib.Core.Bool.{Bool, true, false}
use mathlib.Core.Path.{◌≡◌, refl}
use nuri_passkey_prf_smartca.Base.Tests.{if◌then◌else◌}
use nuri_passkey_prf_smartca.Base.Methods.{
  Result, ok, err, Action, continue, pure, raise, lift, raise_if, ◌>>=◌, tried,
}

-- To split on what the first step of a method came to.
module _ {S E A B : Type 0} (Q : Result E B × S → Type 0) where
  split_result :
      (f : A → Action S E B) (x : Result E A × S)
      → ((a : A) (s' : S) → x ≡ (ok a, s') → Q (f a s'))
      → ((e : E) (s' : S) → x ≡ (err e, s') → Q (err e, s'))
      → Q (continue x.0 f x.1)
  split_result f (ok a, s') good bad = good a s' refl
  split_result f (err e, s') good bad = bad e s' refl

  pub split_bind :
      (m : Action S E A) (f : A → Action S E B) (s : S)
      → ((a : A) (s' : S) → m s ≡ (ok a, s') → Q (f a s'))
      → ((e : E) (s' : S) → m s ≡ (err e, s') → Q (err e, s'))
      → Q ((m >>= f) s)
  unfolding ◌>>=◌
  split_bind m f s good bad = split_result f (m s) good bad

-- Whether the method returns or raises, the state has the property after it that it had before.
pub record Keeps {S E A : Type 0} (Inv : S → Type 0) (method : Action S E A) : Type 0 where
  pub from : (before : S) → Inv before → Inv (method before).1

-- A method that leaves the state alone keeps every property of it.
still-Keeps :
    {S E A : Type 0} {Inv : S → Type 0} (method : Action S E A)
    → ((before : S) → (method before).1 ≡ before)
    → Keeps Inv method
still-Keeps method still = record { from = λ before holds. rw (still before) holds }

module _ {S E : Type 0} {Inv : S → Type 0} where
  pub Keeps-raise_if : (test : Bool) (e : E) → Keeps Inv (raise_if {S = S} test e)
  Keeps-raise_if test e = still-Keeps _ (λ before. still test before)
    where
      still : (b : Bool) (before : S) → (raise_if {S = S} b e before).1 ≡ before
      still true before = unfold raise_if in refl
      still false before = unfold raise_if in refl

module _ {S E A : Type 0} {Inv : S → Type 0} where
  pub Keeps-pure : (value : A) → Keeps Inv (pure {E = E} value)
  Keeps-pure value = still-Keeps _ (λ before. unfold pure in refl)

  pub Keeps-raise : (exception : E) → Keeps Inv (raise {A = A} exception)
  Keeps-raise exception = still-Keeps _ (λ before. unfold raise in refl)

  pub Keeps-lift : (result : Result E A) → Keeps Inv (lift result)
  Keeps-lift result = still-Keeps _ (λ before. unfold lift in refl)

  pub Keeps-tried : {F : Type 0} (m : Action S E A) → Keeps Inv m → Keeps Inv (tried {F = F} m)
  unfolding tried
  Keeps-tried m kept = record { from = kept.from }

  -- Either branch may use what the test came to.
  pub Keeps-if :
      (test : Bool) (here there : Action S E A)
      → (test ≡ true → Keeps Inv here)
      → (test ≡ false → Keeps Inv there)
      → Keeps Inv (if test then here else there)
  Keeps-if false here there _ otherwise = otherwise refl
  Keeps-if true here there so _ = so refl

module _ {S E A B : Type 0} {Inv : S → Type 0} where
  pub Keeps-bind :
      (m : Action S E A) (next : A → Action S E B)
      → Keeps Inv m
      → ((value : A) → Keeps Inv (next value))
      → Keeps Inv (m >>= next)
  Keeps-bind m next first rest = record {
    from = λ before holds.
        let after : Inv (m before).1 = first.from before holds in
        split_bind (λ x. Inv x.1) m next before
          (λ value mid e. (rest value).from mid (rw e at after)) (λ e mid q. rw q at after);
  }

  -- What follows a computed result may use which value that was.
  pub Keeps-bind-lift :
      (result : Result E A) (next : A → Action S E B)
      → ((value : A) → result ≡ ok value → Keeps Inv (next value))
      → Keeps Inv (lift result >>= next)
  unfolding ◌>>=◌
  Keeps-bind-lift (err e) next rest = still-Keeps _ (λ before. refl)
  Keeps-bind-lift (ok value) next rest = rest value refl
