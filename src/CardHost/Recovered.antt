-- ===== src/CardHost/Recovered.antt =====
-- What `verify_and_recover` returns.
use nuri_passkey_prf_smartca.Base.{
  ℕ, zero, suc, ◌+◌, ◌≤◌, ◌<◌, ◌^◌, Bool, true, false, ◌&&◌, not, List, [], ◌∷◌, ◌++◌, none, some,
  Bytes, ◌≡◌, ◌≢◌, ◌⊎◌, refl, sym, ap, arith, equal, equal_iff, leb, ltb, to_bytes, to_hex, ok,
  Option, Action, pure, raise, ◌∙◌, subst, if◌then◌else◌, bind-split, check-split, some-split,
  pure-back, raise-ne-ok,
}
use nuri_passkey_prf_smartca.CardHost.Signature.{
  Failure, verify_failed, malformed, bad_digest, Checked, valid, bad_signature, digest_too_long,
  Curve, Recoverable, hex_text, normalize_low_s, index_of, word, read_key, check_digest,
  candidates_of, parity_of, verify_and_recover,
}

within_order :
    (r s n : ℕ)
    → not ((leb 1 r && ltb r n) && (leb 1 s && ltb s n)) ≡ false
    → ((1 ≤ r) × (r < n)) × ((1 ≤ s) × (s < n))
within_order r s n h = ground arith

module _ {K : Type 0} (curve : Curve K) where
  -- The low form of s: it or its negative, in the lower half.
  pub LowForm : ℕ → ℕ → Type 0
  LowForm s low = (1 ≤ low) × (low + low ≤ curve.order) × ((low ≡ s) ⊎ (low + s ≡ curve.order))

  low_form : (r s : ℕ) → 1 ≤ s → s < curve.order → LowForm s (normalize_low_s curve r s).1
  unfolding LowForm normalize_low_s
  low_form r s h g = ground arith

  -- The key at this index, and none before it, has these compressed bytes.
  pub FirstAt : Bytes → List K → ℕ → Type 0
  FirstAt expected [] i = ⊥
  FirstAt expected (k ∷ ks) zero = curve.compressed k ≡ expected
  FirstAt expected (k ∷ ks) (suc i) = (curve.compressed k ≢ expected) × FirstAt expected ks i

  step :
      (expected : Bytes) (k : K) (ks : List K) {i : ℕ} (b : Bool) (o : Option ℕ)
      → equal (curve.compressed k) expected ≡ b
      → ((j : ℕ) → o ≡ some j → FirstAt expected ks j)
      → (if b then some 0 else elim o [ none ↦ none | some j ↦ some (suc j) ]) ≡ some i
      → FirstAt expected (k ∷ ks) i
  unfolding FirstAt
  step expected k ks {i} true o p ih e =
      let same : 0 ≡ i = cc in
      subst (FirstAt expected (k ∷ ks)) same ((equal_iff (curve.compressed k) expected).0 p)
  step expected k ks false none p ih e = cc
  step expected k ks {i} false (some j) p ih e =
      let same : suc j ≡ i = cc in
      let other : curve.compressed k ≢ expected =
        λ q. let r = (equal_iff (curve.compressed k) expected).1 q in cc in
      subst (FirstAt expected (k ∷ ks)) same (other, ih j refl)

  index_of-FirstAt :
      (expected : Bytes) (ks : List K) (i : ℕ)
      → index_of curve expected ks ≡ some i
      → FirstAt expected ks i
  unfolding index_of FirstAt
  index_of-FirstAt expected [] i e = cc
  index_of-FirstAt expected (k ∷ ks) i e =
      step expected k ks _ (index_of curve expected ks) refl (index_of-FirstAt expected ks) e

  module _ (pubkey digest : Bytes) (r s : ℕ) where
    -- An answer of the host: a signature by the card's key, in its low form, with the index at
    -- which recovery finds that key.
    pub record IsProof (out : Recoverable) : Type 0 where
      pub r_range : (1 ≤ r) × (r < curve.order)
      pub s_range : (1 ≤ s) × (s < curve.order)
      pub low : ℕ
      pub is_low : LowForm s low
      pub fits : (r < 256 ^ 32) × (low < 256 ^ 32)
      pub key : K
      pub decoded : curve.from_string pubkey ≡ some key
      pub verified : curve.verify_digest key (to_bytes 32 r ++ to_bytes 32 low) digest ≡ valid
      pub candidates : List K
      pub recovered : curve.recover (to_bytes 32 r ++ to_bytes 32 low) digest ≡ some candidates
      pub first : FirstAt (curve.compressed key) candidates out.y_parity
      pub r_text : out.r ≡ hex_text (to_bytes 32 r)
      pub s_text : out.s ≡ hex_text (to_bytes 32 low)
      pub whole :
          out.signature
          ≡ hex_text (to_bytes 32 r ++ to_bytes 32 low) ++ to_hex ((27 + out.y_parity) ∷ [])

module _ {S : Type 0} where
  found :
      {A : Type 0} {a : A} {s t : S} (x : Failure) (o : Option A)
      → (elim o as (λ _. Action S Failure A) [ none ↦ raise x | some a ↦ pure a ]) s ≡ (ok a, t)
      → (o ≡ some a) × (t ≡ s)
  found x o e =
      some-split x pure o e
        λ b q k. let (same, still) = pure-back k in (q ∙ ap some (sym same), still)

  module _ {K : Type 0} (curve : Curve K) where
    word-back :
        (x : ℕ) {bs : Bytes} {s t : S}
        → word curve x s ≡ (ok bs, t)
        → (x < 256 ^ 32) × (bs ≡ to_bytes 32 x) × (t ≡ s)
    unfolding word
    word-back x e =
        check-split _ _ _ e λ c k. let (same, still) = pure-back k in (ground arith, same, still)

    read_key-back :
        (bytes : Bytes) {k : K} {s t : S}
        → read_key curve bytes s ≡ (ok k, t)
        → (curve.from_string bytes ≡ some k) × (t ≡ s)
    unfolding read_key
    read_key-back bytes e = found malformed (curve.from_string bytes) e

    candidates_of-back :
        (sig digest : Bytes) {ks : List K} {s t : S}
        → candidates_of curve sig digest s ≡ (ok ks, t)
        → (curve.recover sig digest ≡ some ks) × (t ≡ s)
    unfolding candidates_of
    candidates_of-back sig digest e = found verify_failed (curve.recover sig digest) e

    parity_of-back :
        (expected : Bytes) (ks : List K) {i : ℕ} {s t : S}
        → parity_of curve expected ks s ≡ (ok i, t)
        → (index_of curve expected ks ≡ some i) × (t ≡ s)
    unfolding parity_of
    parity_of-back expected ks e = found verify_failed (index_of curve expected ks) e

    check_digest-back :
        (k : K) (sig digest : Bytes) {u : Unit {0}} {s t : S}
        → check_digest curve k sig digest s ≡ (ok u, t)
        → (curve.verify_digest k sig digest ≡ valid) × (t ≡ s)
    unfolding check_digest
    check_digest-back k sig digest {u} {s} {t} e = go (curve.verify_digest k sig digest) e
      where
        go :
            (c : Checked)
            → (elim c as (λ _. Action S Failure (Unit {0})) [
              | valid ↦ pure tt
              | bad_signature ↦ raise verify_failed
              | digest_too_long ↦ raise bad_digest
            ])
                s
              ≡ (ok u, t)
            → (c ≡ valid) × (t ≡ s)
        go valid e = (refl, (pure-back e).1)
        go bad_signature e = raise-ne-ok _ _ e
        go digest_too_long e = raise-ne-ok _ _ e

    module _ (pubkey digest : Bytes) (r s : ℕ) where
      assembled :
          {out : Recoverable} {s₀ s₁ s₂ s₃ s₄ s₅ s₆ t : S}
          → not ((leb 1 r && ltb r curve.order) && (leb 1 s && ltb s curve.order)) ≡ false
          → (rb sb : Bytes) (vk : K) (ks : List K) (i : ℕ)
          → (r < 256 ^ 32) × (rb ≡ to_bytes 32 r) × (s₁ ≡ s₀)
          → ((normalize_low_s curve r s).1 < 256 ^ 32)
            × (sb ≡ to_bytes 32 (normalize_low_s curve r s).1)
            × (s₂ ≡ s₁)
          → (curve.from_string pubkey ≡ some vk) × (s₃ ≡ s₂)
          → (curve.verify_digest vk (rb ++ sb) digest ≡ valid) × (s₄ ≡ s₃)
          → (curve.recover (rb ++ sb) digest ≡ some ks) × (s₅ ≡ s₄)
          → (index_of curve (curve.compressed vk) ks ≡ some i) × (s₆ ≡ s₅)
          → (out ≡ record {
            r = hex_text rb;
            s = hex_text sb;
            y_parity = i;
            signature = hex_text (rb ++ sb) ++ to_hex ((27 + i) ∷ []);
          })
            × (t ≡ s₆)
          → IsProof curve pubkey digest r s out
      assembled {out} c rb sb vk ks i a b d f g h q =
          let ranges = within_order r s curve.order c in
          let whole = ap (λ bs. bs ++ sb) a.1 ∙ ap (λ bs. to_bytes 32 r ++ bs) b.1 in
          let index : out.y_parity ≡ i = ap (λ (o : Recoverable). o.y_parity) q.0 in
          record {
            r_range = ranges.0;
            s_range = ranges.1;
            low = (normalize_low_s curve r s).1;
            is_low = low_form curve r s ranges.1.0 ranges.1.1;
            fits = (a.0, b.0);
            key = vk;
            decoded = d.0;
            verified = sym (ap (λ bs. curve.verify_digest vk bs digest) whole) ∙ f.0;
            candidates = ks;
            recovered = sym (ap (λ bs. curve.recover bs digest) whole) ∙ g.0;
            first =
                subst (FirstAt curve (curve.compressed vk) ks) (sym index)
                  (index_of-FirstAt curve (curve.compressed vk) ks i h.0);
            r_text = ap (λ (o : Recoverable). o.r) q.0 ∙ ap hex_text a.1;
            s_text = ap (λ (o : Recoverable). o.s) q.0 ∙ ap hex_text b.1;
            whole =
                ap (λ (o : Recoverable). o.signature) q.0
                ∙ ap (λ bs. hex_text bs ++ to_hex ((27 + i) ∷ [])) whole
                ∙ sym (
                    ap
                      (λ n.
                        hex_text (to_bytes 32 r ++ to_bytes 32 (normalize_low_s curve r s).1)
                        ++ to_hex ((27 + n) ∷ []))
                      index);
          }

      -- What `verify_and_recover` returns for r and s, both from 1 below the order, stands for the low
      -- form of s: s or its negative, in the lower half of the order. The signature of r and that number,
      -- in 32 bytes each, verifies under the key of the card; y_parity is the index of the first key that
      -- recovery gives with the same compressed bytes; the texts are "0x" and the hex digits of these
      -- bytes, the whole one with 27 + y_parity as its last byte.
      pub verify_and_recover-IsProof :
          {out : Recoverable} (u : S) {t : S}
          → verify_and_recover curve pubkey digest r s u ≡ (ok out, t)
          → IsProof curve pubkey digest r s out
      unfolding verify_and_recover normalize_low_s
      verify_and_recover-IsProof u e = check-split _ verify_failed _ e λ c k₁.
          bind-split (word curve (normalize_low_s curve r s).0) _ k₁ λ rb s₁ e₁ k₂.
            bind-split (word curve (normalize_low_s curve r s).1) _ k₂ λ sb s₂ e₂ k₃.
              bind-split (read_key curve pubkey) _ k₃ λ vk s₃ e₃ k₄.
                bind-split (check_digest curve vk (rb ++ sb) digest) _ k₄ λ d s₄ e₄ k₅.
                  bind-split (candidates_of curve (rb ++ sb) digest) _ k₅ λ ks s₅ e₅ k₆.
                    bind-split (parity_of curve (curve.compressed vk) ks) _ k₆ λ i s₆ e₆ k₇.
                      check-split _ _ _ k₇ λ c₂ k₈.
                        assembled c rb sb vk ks i (word-back (normalize_low_s curve r s).0 e₁)
                          (word-back (normalize_low_s curve r s).1 e₂) (read_key-back pubkey e₃)
                          (check_digest-back vk (rb ++ sb) digest e₄)
                          (candidates_of-back (rb ++ sb) digest e₅)
                          (parity_of-back (curve.compressed vk) ks e₆) (pure-back k₈)
