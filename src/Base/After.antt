-- ===== src/Base/After.antt =====
-- A property of the state that a method leaves, step by step, whether it returns or raises.
use mathlib.Core.Bool.{Bool, true, false}
use mathlib.Core.Path.{◌≡◌, refl, ap, subst}
use nuri_passkey_prf_smartca.Base.Methods.{Result, ok, err, Action, raise_if, lift, ◌>>=◌}
use nuri_passkey_prf_smartca.Base.Invariants.{split_bind}

module _ {S E B : Type 0} (Q : S → Type 0) where
  -- A property of the state behind a check, and behind a computed result.
  pub after_check :
      (test : Bool) (x : E) (f : Unit {0} → Action S E B) (s : S)
      → Q s
      → (test ≡ false → Q (f tt s).1)
      → Q ((raise_if test x >>= f) s).1
  unfolding ◌>>=◌
  after_check true x f s q k = q
  after_check false x f s q k = k refl

  pub after_lift :
      {A : Type 0} (r : Result E A) (f : A → Action S E B) (s : S)
      → Q s
      → ((a : A) → r ≡ ok a → Q (f a s).1)
      → Q ((lift r >>= f) s).1
  unfolding ◌>>=◌
  after_lift (ok a) f s q k = k a refl
  after_lift (err e) f s q k = q

  pub after_bind :
      {A : Type 0} (m : Action S E A) (f : A → Action S E B) (s : S)
      → Q (m s).1
      → ((a : A) (s' : S) → m s ≡ (ok a, s') → Q s' → Q (f a s').1)
      → Q ((m >>= f) s).1
  after_bind {A} m f s q k =
      let moved = λ (r : Result E A) (s' : S) (e : m s ≡ (r, s')).
        subst Q (ap (λ (x : Result E A × S). x.1) e) q in
      split_bind (λ x. Q x.1) m f s (λ a s' e. k a s' e (moved (ok a) s' e))
        (λ x s' e. moved (err x) s' e)
