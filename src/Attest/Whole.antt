-- ===== src/Attest/Whole.antt =====
-- `parse_info` and `parse_response` against the format: both directions, and nothing behind it.
use nuri_passkey_prf_smartca.Base.{
  ℕ, ◌/◌, ◌<◌, true, ◌||◌, not, [], Bytes, ◌≡◌, ◌⊎◌, ◌↔◌, refl, ap, ◌∙◌, arith, ◌==◌, is_nil,
  length, Result, ok, pure, bind-run, bind-split, check-run, check-split, not-false, true-not,
}
use nuri_passkey_prf_smartca.Attest.Evidence.{
  Failure, refused, Crypto, Info, Evidence, take_bytes, take_byte, take_field, at_end, is_signature,
  read_info, read_tail, parse_info, parse_response,
}
use nuri_passkey_prf_smartca.Attest.Format.{
  info_onto, tail_onto, take_bytes-run, take_bytes-back, take_byte-back, take_field-run,
  take_field-back, at_end-back,
}
use nuri_passkey_prf_smartca.Attest.Parse.{
  IsInfo, IsEvidence, nil_or, read_info-run, read_info-back,
}

abbrev AnyLength : ℕ → Type 0
AnyLength n = (n ≡ 0) ⊎ (n ≡ 33) ⊎ (n ≡ 65)

any_length : (n : ℕ) → (n == 0 || n == 33 || n == 65 ≡ true) ↔ AnyLength n
any_length n = ground arith

low_nibble : (n : ℕ) → (n / 16 == 0 ≡ true) ↔ (n < 16)
low_nibble n = ground arith

module _ {K : Type 0} (crypto : Crypto K) where
  read_tail-run :
      (e : Evidence) (rest : Bytes)
      → IsEvidence crypto e
      → read_tail crypto e.info (tail_onto e rest) ≡ (ok e, rest)
  unfolding read_tail take_byte pure
  read_tail-run e rest v =
      bind-run take_byte _ {s = tail_onto e rest} refl
      ∙ check-run
          (not
            (length e.signing_pub == 0 || length e.signing_pub == 33 || length e.signing_pub == 65))
          refused _ (true-not ((any_length (length e.signing_pub)).1 v.signing_length))
      ∙ bind-run (take_bytes (length e.signing_pub)) _ (take_bytes-run e.signing_pub _)
      ∙ bind-run take_byte _ refl
      ∙ check-run (not (e.pin_state / 16 == 0)) refused _
          (true-not ((low_nibble e.pin_state).1 v.pin_bits))
      ∙ bind-run take_field _ (take_field-run e.response_sig _)
      ∙ check-run (not (is_signature crypto e.response_sig)) refused _ (true-not v.signed)
      ∙ bind-run take_field _ (take_field-run e.binding_sig rest)
      ∙ check-run (not (is_nil e.binding_sig || is_signature crypto e.binding_sig)) refused _
          (true-not ((nil_or crypto e.binding_sig (is_signature crypto e.binding_sig)).1 v.binding))

  read_tail-back :
      (info : Info) (s : Bytes) (e : Evidence) (rest : Bytes)
      → IsInfo crypto info
      → read_tail crypto info s ≡ (ok e, rest)
      → IsEvidence crypto e × (e.info ≡ info) × (s ≡ tail_onto e rest)
  unfolding read_tail pure
  read_tail-back info s e rest w q = bind-split take_byte _ q λ n s₁ e₁ k₁.
      check-split (not (n == 0 || n == 33 || n == 65)) refused _ k₁ λ l k₂.
        bind-split (take_bytes n) _ k₂ λ signing s₂ e₂ k₃. bind-split take_byte _ k₃ λ pin s₃ e₃ k₄.
          check-split (not (pin / 16 == 0)) refused _ k₄ λ p k₅.
            bind-split take_field _ k₅ λ response s₄ e₄ k₆.
              check-split (not (is_signature crypto response)) refused _ k₆ λ r k₇.
                bind-split take_field _ k₇ λ binding s₅ e₅ k₈.
                  check-split (not (is_nil binding || is_signature crypto binding)) refused _ k₈
                    λ b k₉. returned k₉ (
                      record {
                        info = w;
                        signing_length =
                            rw (take_bytes-back n s₁ e₂).1 ((any_length n).0 (not-false _ l));
                        pin_bits = (low_nibble pin).0 (not-false _ p);
                        signed = not-false _ r;
                        binding =
                            (nil_or crypto binding (is_signature crypto binding)).0 (not-false _ b);
                      },
                      refl,
                      take_byte-back s e₁
                          ∙ rw ((take_bytes-back n s₁ e₂).0, (take_bytes-back n s₁ e₂).1)
                              (rw
                                (take_byte-back s₂ e₃, take_field-back s₃ e₄, take_field-back s₄ e₅)
                                refl),
                    )
    where
      returned :
          {x : Evidence} {t : Bytes}
          → pure {E = Failure} x t ≡ (ok e, rest)
          → IsEvidence crypto x × (x.info ≡ info) × (s ≡ tail_onto x t)
          → IsEvidence crypto e × (e.info ≡ info) × (s ≡ tail_onto e rest)
      returned {x} {t} q h =
          let first : x ≡ e = cc (ap (λ (z : Result Failure Evidence × Bytes). z.0) q) in
          let last : t ≡ rest = ap (λ (z : Result Failure Evidence × Bytes). z.1) q in
          rw (← first, ← last) h

  -- A result with the state behind it.
  whole : {A : Type 0} (x : Result Failure A × Bytes) {a : A} → x.0 ≡ ok a → x ≡ (ok a, x.1)
  whole x e = ap (λ r. (r, x.1)) e

  -- `parse_info` returns an INFO exactly when that is well-formed (a card id of 16 bytes, an AID of 5
  -- to 16, an uncompressed P256 key that decodes, a certificate that is a strict DER signature or
  -- missing, and not missing where the flag says sealed) and the bytes are its encoding and nothing else.
  pub parse_info_iff :
      (bytes : Bytes) (i : Info)
      → (parse_info crypto bytes ≡ ok i) ↔ (IsInfo crypto i × (bytes ≡ info_onto i []))
  unfolding parse_info at_end pure
  parse_info_iff bytes i = (there, back)
    where
      there : parse_info crypto bytes ≡ ok i → IsInfo crypto i × (bytes ≡ info_onto i [])
      there e = bind-split (read_info crypto) _ (whole _ e) λ j s₁ e₁ k₁.
          bind-split at_end _ k₁ λ u s₂ e₂ k₂.
            let same : j ≡ i = cc (ap (λ (z : Result Failure Info × Bytes). z.0) k₂) in
            let (w, q) = read_info-back crypto bytes j s₁ e₁ in
            rw (← same) (w, q ∙ ap (info_onto j) (at_end-back s₁ e₂).0)

      back : IsInfo crypto i × (bytes ≡ info_onto i []) → parse_info crypto bytes ≡ ok i
      back (w, q) = rw q (
          ap (λ (z : Result Failure Info × Bytes). z.0)
            (bind-run (read_info crypto) _ (read_info-run crypto i [] w) ∙ bind-run at_end _ refl))

  -- The bytes of a whole evidence.
  abbrev pub evidence_bytes : Evidence → Bytes
  evidence_bytes e = info_onto e.info (tail_onto e [])

  -- `parse_response` returns an evidence exactly when that is well-formed (its INFO is, the signing key
  -- has 0, 33 or 65 bytes, no reserved bit of the PIN state is set, the response signature is strict DER
  -- and the binding is too or is missing) and the bytes are its encoding and nothing else.
  pub parse_response_iff :
      (bytes : Bytes) (e : Evidence)
      → (parse_response crypto bytes ≡ ok e) ↔ (IsEvidence crypto e × (bytes ≡ evidence_bytes e))
  unfolding parse_response at_end pure
  parse_response_iff bytes e = (there, back)
    where
      there : parse_response crypto bytes ≡ ok e → IsEvidence crypto e × (bytes ≡ evidence_bytes e)
      there q = bind-split (read_info crypto) _ (whole _ q) λ j s₁ e₁ k₁.
          bind-split (read_tail crypto j) _ k₁ λ x s₂ e₂ k₂. bind-split at_end _ k₂ λ u s₃ e₃ k₃.
            let same : x ≡ e = cc (ap (λ (z : Result Failure Evidence × Bytes). z.0) k₃) in
            let (w, p) = read_info-back crypto bytes j s₁ e₁ in
            let (v, i, t) = read_tail-back j s₁ x s₂ w e₂ in
            rw (← same) (v, p ∙ rw (← i, t, (at_end-back s₂ e₃).0) refl)

      back : IsEvidence crypto e × (bytes ≡ evidence_bytes e) → parse_response crypto bytes ≡ ok e
      back (v, q) = rw q (
          ap (λ (z : Result Failure Evidence × Bytes). z.0)
            (bind-run (read_info crypto) _ (read_info-run crypto e.info (tail_onto e []) v.info)
              ∙ bind-run (read_tail crypto e.info) _ (read_tail-run e [] v)
              ∙ bind-run at_end _ refl))
