-- ===== src/HelperAuth/Sessions.antt =====
-- The dictionary of sessions: how many there are, and which.
use mathlib.Core.List.{Memᴰ}
use mathlib.Core.List.Memᴰ.{head, tail}
use nuri_passkey_prf_smartca.Base.{
  ℕ, zero, suc, ◌+◌, ◌≤◌, ◌<◌, false, [], ◌∷◌, some, ◌≡◌, ◌⊎◌, inl, inr, refl, sym, ap, ◌∙◌, arith,
  Text, ltb, leb, equal, equal_iff, equal_refl, length, Bool-cases, ==_iff,
}
use nuri_passkey_prf_smartca.HelperAuth.Pairing.{
  max_sessions, Sessions, prune, put, look_up, earliest, drop_first, pop_earliest, evict,
}

pub length-prune : (now : ℕ) (ss : Sessions) → length (prune now ss) ≤ length ss
unfolding prune
length-prune now [] = omega arith
length-prune now ((k, exp) ∷ rest) = ground (arith, length-prune now rest)

pub length-put : (k : Text) (exp : ℕ) (ss : Sessions) → length (put k exp ss) ≤ length ss + 1
unfolding put
length-put k exp [] = omega arith
length-put k exp ((k', exp') ∷ rest) = elim (Bool-cases (equal k k')) [
  | inl same ↦ rw same (omega arith)
  | inr other ↦ rw other (omega (arith, length-put k exp rest))
]

-- Dropping one session of the list takes one away.
length-drop_first-cons :
    (e exp : ℕ) (k : Text) (rest : Sessions)
    → length (drop_first e rest) + 1 ≡ length rest
    → length (drop_first e ((k, exp) ∷ rest)) + 1 ≡ length ((k, exp) ∷ rest)
unfolding drop_first
length-drop_first-cons e exp k rest h = ground arith

drop_first-here : (e : ℕ) (k : Text) (rest : Sessions) → drop_first e ((k, e) ∷ rest) ≡ rest
unfolding drop_first
drop_first-here e k rest = rw ((==_iff e e).1 refl) refl

-- The earliest expiry is the first one, or one of the others'.
length-earliest :
    (m : ℕ) (rest : Sessions)
    → (earliest m rest ≡ m) ⊎ (length (drop_first (earliest m rest) rest) + 1 ≡ length rest)
length-earliest m [] = inl (unfold earliest in refl)
length-earliest m ((k, e) ∷ rest) = elim (Bool-cases (ltb e m)) [
  | inl before ↦ elim (length-earliest e rest) [
    | inl first ↦
        inr (unfold earliest in rw before (rw first (rw (drop_first-here e k rest) (omega arith))))
    | inr found ↦ inr (unfold earliest in rw before (length-drop_first-cons _ e k rest found))
  ]
  | inr after ↦ elim (length-earliest m rest) [
    | inl first ↦ inl (unfold earliest in rw after first)
    | inr found ↦ inr (unfold earliest in rw after (length-drop_first-cons _ e k rest found))
  ]
]

length-pop_earliest :
    (s : Text × ℕ) (rest : Sessions) → length (pop_earliest (s ∷ rest)) ≡ length rest
unfolding pop_earliest
length-pop_earliest (k, exp) rest = elim (length-earliest exp rest) [
  | inl first ↦
      ap length (ap (λ e. drop_first e ((k, exp) ∷ rest)) first ∙ drop_first-here exp k rest)
  | inr found ↦ omega (arith, length-drop_first-cons (earliest exp rest) exp k rest found)
]

-- With the number of sessions as fuel, the loop ends with room for one more.
pub length-evict :
    (fuel : ℕ) (ss : Sessions) → length ss ≤ fuel → length (evict fuel ss) < max_sessions
unfolding evict
length-evict zero ss enough = omega arith
length-evict (suc fuel) [] enough = omega arith
length-evict (suc fuel) (s ∷ rest) enough =
    elim (Bool-cases (leb max_sessions (length (s ∷ rest)))) [
      | inl full ↦
          rw full (
            length-evict fuel (pop_earliest (s ∷ rest)) (omega (arith, length-pop_earliest s rest)))
      | inr room ↦ rw room (ground arith)
    ]

module _ (now : ℕ) (k : Text) (exp : ℕ) where
  -- Exactly the sessions that have not expired are left.
  pub prune-keeps : (ss : Sessions) → now < exp → Memᴰ (k, exp) ss → Memᴰ (k, exp) (prune now ss)
  unfolding prune
  prune-keeps [] alive m = elim m [ ]
  prune-keeps ((k', exp') ∷ rest) alive (head e) = elim (Bool-cases (leb exp' now)) [
    | inl over ↦ absurd (ground (arith, ap (λ (s : Text × ℕ). s.1) e))
    | inr still ↦ rw still (head e)
  ]
  prune-keeps ((k', exp') ∷ rest) alive (tail m) = elim (Bool-cases (leb exp' now)) [
    | inl over ↦ rw over (prune-keeps rest alive m)
    | inr still ↦ rw still (tail (prune-keeps rest alive m))
  ]

  pub prune-only : (ss : Sessions) → Memᴰ (k, exp) (prune now ss) → Memᴰ (k, exp) ss × (now < exp)
  unfolding prune
  prune-only [] m = elim m [ ]
  prune-only ((k', exp') ∷ rest) m = elim (Bool-cases (leb exp' now)) [
    | inl over ↦ let (below, alive) = prune-only rest (rw over at m) in (tail below, alive)
    | inr still ↦ first still (prune-only rest) (rw still at m)
  ]
    where
      first :
          leb exp' now ≡ false
          → (Memᴰ (k, exp) (prune now rest) → Memᴰ (k, exp) rest × (now < exp))
          → Memᴰ (k, exp) ((k', exp') ∷ prune now rest)
          → Memᴰ (k, exp) ((k', exp') ∷ rest) × (now < exp)
      first still rec (head e) = (head e, ground (arith, ap (λ (s : Text × ℕ). s.1) e))
      first still rec (tail below) = let (m', alive) = rec below in (tail m', alive)

-- What is looked up stands in the dictionary, and what stands there is found.
pub look_up-Memᴰ : (k : Text) (ss : Sessions) (exp : ℕ) → look_up k ss ≡ some exp → Memᴰ (k, exp) ss
unfolding look_up
look_up-Memᴰ k [] exp e = cc
look_up-Memᴰ k ((k', exp') ∷ rest) exp e = elim (Bool-cases (equal k k')) [
  | inl same ↦
      let e' : some exp' ≡ some exp = rw same at e in
      let v : exp' ≡ exp = cc in head (rw (v, (equal_iff k k').0 same) refl)
  | inr other ↦ tail (look_up-Memᴰ k rest exp (rw other at e))
]

pub Memᴰ-look_up :
    (k : Text) (ss : Sessions) (exp : ℕ)
    → Memᴰ (k, exp) ss
    → (exp' : ℕ) × (look_up k ss ≡ some exp')
unfolding look_up
Memᴰ-look_up k [] exp m = elim m [ ]
Memᴰ-look_up k ((k', e) ∷ rest) exp (head p) =
    (e, rw (ap (λ (s : Text × ℕ). s.0) (sym p)) (rw (equal_refl k) refl))
Memᴰ-look_up k ((k', e) ∷ rest) exp (tail m) = elim (Bool-cases (equal k k')) [
  | inl same ↦ (e, rw same refl)
  | inr other ↦ let (exp', found) = Memᴰ-look_up k rest exp m in (exp', rw other found)
]

pub look_up-put : (k : Text) (exp : ℕ) (ss : Sessions) → look_up k (put k exp ss) ≡ some exp
unfolding put look_up
look_up-put k exp [] = rw (equal_refl k) refl
look_up-put k exp ((k', e) ∷ rest) = elim (Bool-cases (equal k k')) [
  | inl same ↦ rw same (rw (equal_refl k) refl)
  | inr other ↦ rw other (rw other (look_up-put k exp rest))
]
