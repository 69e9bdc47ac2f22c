-- ===== src/CardHost/Pipes.antt =====
-- However the pipe cuts the bytes into pieces, `read_message` reads what a parser of the bytes reads.
use nuri_passkey_prf_smartca.Base.{
  ℕ, ◌+◌, true, false, [], ◌∷◌, Option, none, some, Bool, Bytes, ltb, ◌==◌, if◌then◌else◌, length,
  take, drop, Result, ok, err, Action, pure, raise, raise_if, ◌>>=◌, ◌≡◌, inl, inr, refl, sym,
  subst, Bool-cases, bind-run,
}
use nuri_passkey_prf_smartca.CardHost.Framing.{
  max_message_bytes, FramingError, stalled, truncated_header, empty_message, too_large,
  truncated_body, not_utf8, too_deep, invalid_json, Pipe, Loaded, loaded, unicode_error,
  recursion_error, value_error, Message, end_of_stream, message, read_exact, little_endian,
  deadline_of, decode, read_frame, read_message,
}
use nuri_passkey_prf_smartca.CardHost.Chunks.{IsPipe, Agrees, short_take, read_exact-Agrees}

-- The same on the bytes alone: the first frame of them, and what is behind it.
unfoldable pub parse_frame :
    {V : Type 0} → (Bytes → Loaded V) → Bytes → Result FramingError (Message V × Bytes)
parse_frame loads [] = ok (end_of_stream, [])
parse_frame loads (b ∷ bs) =
    let n = little_endian (b ∷ take 3 bs) in
    if ltb (length bs) 3
    then err truncated_header
    else if n == 0
    then err empty_message
    else if ltb max_message_bytes n
    then err too_large
    else if ltb (length (drop 3 bs)) n
    then err truncated_body
    else elim (loads (take n (drop 3 bs))) [
      | loaded v ↦ ok (message v, drop n (drop 3 bs))
      | unicode_error ↦ err not_utf8
      | recursion_error ↦ err too_deep
      | value_error ↦ err invalid_json
    ]

module _ {W : Type 0} (pipe : Pipe W) (Holds : W → Bytes → Type 0) where
  stalls :
      {A : Type 0} (x : Result FramingError A × W) (y : Result FramingError (A × Bytes))
      → x.0 ≡ err stalled
      → Agrees pipe Holds x y
  unfolding Agrees
  stalls x (ok (a, rest)) e = inl e
  stalls x (err e') e = inl e

  Agrees-bind :
      {A B : Type 0} (m : Action W FramingError A) (f : A → Action W FramingError B) (w : W) (a : A)
      (rest : Bytes) (y : Result FramingError (B × Bytes))
      → Agrees pipe Holds (m w) (ok (a, rest))
      → ((w' : W) → Holds w' rest → Agrees pipe Holds (f a w') y)
      → Agrees pipe Holds ((m >>= f) w) y
  unfolding Agrees
  Agrees-bind m f w a rest y (inl e) next = stalls ((m >>= f) w) y (unfold ◌>>=◌ in rw e refl)
  Agrees-bind m f w a rest y (inr (w', e, h)) next =
      subst (λ x. Agrees pipe Holds x y) (sym (bind-run m f e)) (next w' h)

  Agrees-check :
      {B : Type 0} (test : Bool) (e : FramingError) (f : Unit {0} → Action W FramingError B) (w : W)
      (y : Result FramingError (B × Bytes))
      → (test ≡ false → Agrees pipe Holds (f tt w) y)
      → Agrees pipe Holds ((raise_if test e >>= f) w) (if test then err e else y)
  unfolding Agrees ◌>>=◌
  Agrees-check true e f w y next = inr refl
  Agrees-check false e f w y next = next refl

  module _ (is_pipe : IsPipe pipe Holds) {V : Type 0} (loads : Bytes → Loaded V) (timeout : ℕ) where
    deadline-Agrees :
        (w : W) (bs : Bytes)
        → Holds w bs
        → (d : Option ℕ) × Agrees pipe Holds (deadline_of pipe timeout w) (ok (d, bs))
    unfolding deadline_of Agrees
    deadline-Agrees w bs h = elim (Bool-cases (timeout == 0)) [
      | inl e ↦ (none, inr (w, rw e refl, h))
      | inr e ↦ (
        some ((pipe.monotonic w).0 + timeout),
        inr ((pipe.monotonic w).1, rw e refl, is_pipe.clock w bs h),
      )
    ]

    decode-Agrees :
        (body rest : Bytes) (w : W)
        → Holds w rest
        → Agrees pipe Holds (decode pipe loads body w) (elim (loads body) [
          | loaded v ↦ ok (message v, rest)
          | unicode_error ↦ err not_utf8
          | recursion_error ↦ err too_deep
          | value_error ↦ err invalid_json
        ])
    unfolding decode Agrees pure raise
    decode-Agrees body rest w h = go (loads body)
      where
        go :
            (l : Loaded V)
            → Agrees pipe Holds
                ((elim l as (λ _. Action W FramingError (Message V)) [
                  | loaded v ↦ pure (message v)
                  | unicode_error ↦ raise not_utf8
                  | recursion_error ↦ raise too_deep
                  | value_error ↦ raise invalid_json
                ])
                  w)
                (elim l [
                  | loaded v ↦ ok (message v, rest)
                  | unicode_error ↦ err not_utf8
                  | recursion_error ↦ err too_deep
                  | value_error ↦ err invalid_json
                ])
        go (loaded v) = inr (w, refl, h)
        go unicode_error = inr refl
        go recursion_error = inr refl
        go value_error = inr refl

    read_frame-Agrees :
        (b : ℕ) (bs : Bytes) (w : W)
        → Holds w bs
        → Agrees pipe Holds (read_frame pipe loads timeout (b ∷ []) w) (parse_frame loads (b ∷ bs))
    unfolding read_frame parse_frame
    read_frame-Agrees b bs w h =
        let (d, got) = deadline-Agrees w bs h in
        let n = little_endian (b ∷ take 3 bs) in
        Agrees-bind (deadline_of pipe timeout) _ w d bs _ got λ w₁ h₁.
          Agrees-bind (read_exact pipe 3 d) _ w₁ (take 3 bs) (drop 3 bs) _
            (read_exact-Agrees pipe Holds is_pipe 3 d w₁ bs h₁)
            λ w₂ h₂. rw (sym (short_take 3 bs)) (
              Agrees-check (ltb (length (take 3 bs)) 3) truncated_header _ w₂ _ λ c₁.
                Agrees-check (n == 0) empty_message _ w₂ _ λ c₂.
                  Agrees-check (ltb max_message_bytes n) too_large _ w₂ _ λ c₃.
                    Agrees-bind (read_exact pipe n d) _ w₂ (take n (drop 3 bs)) (drop n (drop 3 bs))
                      _ (read_exact-Agrees pipe Holds is_pipe n d w₂ (drop 3 bs) h₂)
                      λ w₃ h₃. rw (sym (short_take n (drop 3 bs))) (
                        Agrees-check (ltb (length (take n (drop 3 bs))) n) truncated_body _ w₃ _
                          λ c₄. decode-Agrees (take n (drop 3 bs)) (drop n (drop 3 bs)) w₃ h₃))

    -- On a pipe that still holds some bytes, `read_message` stalls; or it raises what the parser of the
    -- bytes raises; or it returns what the parser returns, and the pipe then holds what the parser left.
    pub read_message-Agrees :
        (w : W) (bs : Bytes)
        → Holds w bs
        → Agrees pipe Holds (read_message pipe loads timeout w) (parse_frame loads bs)
    unfolding read_message parse_frame
    read_message-Agrees w [] h =
        Agrees-bind (read_exact pipe 1 none) _ w [] [] _
          (read_exact-Agrees pipe Holds is_pipe 1 none w [] h)
          λ w' h'. unfold Agrees pure in inr (w', refl, h')
    read_message-Agrees w (b ∷ bs) h =
        Agrees-bind (read_exact pipe 1 none) _ w (b ∷ []) bs _
          (read_exact-Agrees pipe Holds is_pipe 1 none w (b ∷ bs) h)
          λ w' h'. read_frame-Agrees b bs w' h'
