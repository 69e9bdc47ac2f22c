-- ===== src/HelperAuth/Requests/Hosts.antt =====
-- The allowed hosts, and the origins that `is_own_origin` takes for them.
use nuri_passkey_prf_smartca.Base.{
  ℕ, zero, suc, ◌+◌, ◌%◌, ◌/◌, ◌≤◌, Bool, true, false, ◌||◌, [], ◌∷◌, ◌++◌, ◌≡◌, ◌⊎◌, ◌↔◌, inl, inr,
  refl, sym, ap, ◌∙◌, subst, arith, Text, codes, ltb, equal_iff, ◌<◌, contains, contains_text,
  decimal, decimal_onto, Bool-cases, All,
}
use nuri_passkey_prf_smartca.HelperAuth.Requests.{is_own_origin, allowed_hosts}
use nuri_passkey_prf_smartca.HelperAuth.Requests.Origin.{
  cleaned, Origin, IsPlain, IsHost, is_own, is_own_lem, origin-taken, taken-origin,
}

-- The digits of a port.
abbrev IsDigit : ℕ → Type 0
IsDigit c = (48 ≤ c) × (c ≤ 57)

decimal_onto-IsDigit : (f n : ℕ) (acc : Text) → All IsDigit acc → All IsDigit (decimal_onto f n acc)
unfolding decimal_onto
decimal_onto-IsDigit zero n acc h = h
decimal_onto-IsDigit (suc f) n acc h =
    let digit : IsDigit (48 + n % 10) = (omega arith, omega arith) in
    elim (Bool-cases (ltb n 10)) [
      | inl last ↦ rw last (digit, h)
      | inr more ↦ rw more (decimal_onto-IsDigit f (n / 10) ((48 + n % 10) ∷ acc) (digit, h))
    ]

digits-IsPlain : (ds : Text) → All IsDigit ds → All IsPlain ds
unfolding contains
digits-IsPlain [] h = tt
digits-IsPlain (d ∷ ds) h = (ground (arith, h.0), digits-IsPlain ds h.1)

digits-lack : (x : ℕ) (ds : Text) → 57 < x → All IsDigit ds → contains x ds ≡ false
unfolding contains
digits-lack x [] big h = refl
digits-lack x (d ∷ ds) big h = ground (arith, h.0, digits-lack x ds big h.1)

All-append : (P : ℕ → Type 0) (xs ys : Text) → All P xs → All P ys → All P (xs ++ ys)
All-append P [] ys h k = k
All-append P (x ∷ xs) ys h k = (h.0, All-append P xs ys h.1 k)

-- One of the names of this machine, and the port.
pub HostNames : ℕ → Text → Type 0
HostNames port host =
    (host ≡ codes "127.0.0.1:" ++ decimal port)
    ⊎ ((host ≡ codes "localhost:" ++ decimal port) ⊎ (host ≡ codes "[::1]:" ++ decimal port))

pub allowed_hosts_iff :
    (port : ℕ) (host : Text)
    → (contains_text host (allowed_hosts port) ≡ true) ↔ HostNames port host
unfolding allowed_hosts contains_text HostNames
allowed_hosts_iff port host =
    go _ _ _ (equal_iff host (codes "127.0.0.1:" ++ decimal port))
      (equal_iff host (codes "localhost:" ++ decimal port))
      (equal_iff host (codes "[::1]:" ++ decimal port))
  where
    go :
        (a b c : Bool) {P Q R : Type 0}
        → (a ≡ true) ↔ P
        → (b ≡ true) ↔ Q
        → (c ≡ true) ↔ R
        → (a || (b || (c || false)) ≡ true) ↔ (P ⊎ (Q ⊎ R))
    go true b c p q r = (λ _. inl (p.0 refl), λ _. refl)
    go false true c p q r = (λ _. inr (inl (q.0 refl)), λ _. refl)
    go false false true p q r = (λ _. inr (inr (r.0 refl)), λ _. refl)
    go false false false p q r =
        (λ e. cc, elim [ inl x ↦ p.1 x | inr y ↦ elim y [ inl x ↦ q.1 x | inr x ↦ r.1 x ] ])

decimal-IsDigit : (n : ℕ) → All IsDigit (decimal n)
unfolding decimal
decimal-IsDigit n = decimal_onto-IsDigit (suc n) n [] tt

names-IsHost : (port : ℕ) (host : Text) → HostNames port host → IsHost host
unfolding contains HostNames
names-IsHost port host h =
    let ds = decimal port in
    let digits = decimal-IsDigit port in
    let plain = digits-IsPlain ds digits in
    let no_open = digits-lack b'[' ds (omega arith) digits in
    let no_close = digits-lack b']' ds (omega arith) digits in
    elim h [
      | inl e ↦ subst IsHost (sym e) (record {
        plain =
            All-append IsPlain (codes "127.0.0.1:") ds
              (refl, (refl, (refl, (refl, (refl, (refl, (refl, (refl, (refl, (refl, tt))))))))))
              plain;
        some_text = λ q. cc;
        paired = rw (no_open, no_close) refl;
      })
      | inr f ↦ elim f [
        | inl e ↦ subst IsHost (sym e) (record {
          plain =
              All-append IsPlain (codes "localhost:") ds
                (refl, (refl, (refl, (refl, (refl, (refl, (refl, (refl, (refl, (refl, tt))))))))))
                plain;
          some_text = λ q. cc;
          paired = rw (no_open, no_close) refl;
        })
        | inr e ↦ subst IsHost (sym e) (record {
          plain =
              All-append IsPlain (codes "[::1]:") ds
                (refl, (refl, (refl, (refl, (refl, (refl, tt)))))) plain;
          some_text = λ q. cc;
          paired = refl;
        })
      ]
    ]

-- For such a host, the conditions on the origin are just this.
pub is_own_origin_iff :
    (port : ℕ) (host o : Text) → HostNames port host → (is_own_origin host o ≡ true) ↔ Origin host o
unfolding Origin
is_own_origin_iff port host o h =
    let is_host = names-IsHost port host h in
    (
      λ e. taken-origin host (cleaned o) is_host.some_text (sym (is_own_lem host o) ∙ e),
      λ (tail, t, e). is_own_lem host o ∙ ap (is_own host) e ∙ origin-taken host tail is_host t,
    )
