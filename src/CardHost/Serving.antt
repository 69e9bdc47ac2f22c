-- ===== src/CardHost/Serving.antt =====
-- What `serve` answers to a stream of frames, and how it ends.
use nuri_passkey_prf_smartca.Base.{
  ℕ, zero, suc, ◌/◌, ◌%◌, ◌^◌, ◌≤◌, ◌<◌, true, false, List, [], ◌∷◌, ◌++◌, Option, none, some,
  Bytes, ltb, ◌==◌, length, take, drop, Result, ok, err, ◌≡◌, inl, inr, refl, sym, ap, ◌∙◌, subst,
  arith, Option-cases, length-append,
}
use nuri_passkey_prf_smartca.CardHost.Framing.{
  max_message_bytes, FramingError, stalled, Pipe, Loaded, loaded, Message, message, read_message,
  little_endian, pack_length, frame, Ended, code, crashed, Server, write_message, turn, serve,
}
use nuri_passkey_prf_smartca.CardHost.Chunks.{IsPipe, Agrees}
use nuri_passkey_prf_smartca.CardHost.Pipes.{parse_frame, read_message-Agrees}

take_all : (b r : Bytes) → take (length b) (b ++ r) ≡ b
take_all [] r = refl
take_all (x ∷ b) r = ap (λ l. x ∷ l) (take_all b r)

drop_all : (b r : Bytes) → drop (length b) (b ++ r) ≡ r
drop_all [] r = refl
drop_all (x ∷ b) r = drop_all b r

unpack_pack : (n : ℕ) → n < 256 ^ 4 → little_endian (pack_length n) ≡ n
unpack_pack n h = omega arith

module _ {V : Type 0} (loads : Bytes → Loaded V) where
  accepted :
      (b : ℕ) (bs : Bytes) (n : ℕ) (v : V)
      → little_endian (b ∷ take 3 bs) ≡ n
      → ltb (length bs) 3 ≡ false
      → (n == 0) ≡ false
      → ltb max_message_bytes n ≡ false
      → ltb (length (drop 3 bs)) n ≡ false
      → loads (take n (drop 3 bs)) ≡ loaded v
      → parse_frame loads (b ∷ bs) ≡ ok (message v, drop n (drop 3 bs))
  unfolding parse_frame
  accepted b bs n v e c₁ c₂ c₃ c₄ l =
      rw (c₁, e, c₂, c₃, c₄, l) (ap (λ k. ok (message v, drop k (drop 3 bs))) e)

  -- A frame is read back, with what stands behind it.
  parse_frame-frame :
      (body rest : Bytes) (v : V) {bytes : Bytes}
      → frame body ≡ some bytes
      → 0 < length body
      → length body ≤ max_message_bytes
      → loads body ≡ loaded v
      → parse_frame loads (bytes ++ rest) ≡ ok (message v, rest)
  unfolding parse_frame frame
  parse_frame-frame body rest v {bytes} e pos small l =
      subst (λ b. parse_frame loads (b ++ rest) ≡ ok (message v, rest)) is parsed
    where
      n : ℕ
      n = length body

      is : pack_length n ++ body ≡ bytes
      is = let fits : ltb n (256 ^ 4) ≡ true = ground arith in cc

      back : little_endian (pack_length n) ≡ n
      back = unpack_pack n (omega arith)

      whole :
          ltb
            (length ((n / 256) % 256 ∷ (n / 65536) % 256 ∷ (n / 16777216) % 256 ∷ (body ++ rest)))
            3
          ≡ false
      whole = ground arith

      some_bytes : (n == 0) ≡ false
      some_bytes = ground arith

      bounded : ltb max_message_bytes n ≡ false
      bounded = ground arith

      complete : ltb (length (body ++ rest)) n ≡ false
      complete = rw (length-append body rest) (ground arith)

      parsed : parse_frame loads ((pack_length n ++ body) ++ rest) ≡ ok (message v, rest)
      parsed =
          accepted (n % 256)
            ((n / 256) % 256 ∷ (n / 65536) % 256 ∷ (n / 16777216) % 256 ∷ (body ++ rest)) n v back
            whole some_bytes bounded complete (ap loads (take_all body rest) ∙ l)
          ∙ ap (λ r. ok (message v, r)) (drop_all body rest)

  -- Bytes that are the frames of these requests, one after the other, and then nothing, or something that
  -- is refused.
  pub data Stream : Bytes → List V → Option FramingError → Type 0 where
    ended : Stream [] [] none
    broken : {bs : Bytes} (e : FramingError) → parse_frame loads bs ≡ err e → Stream bs [] (some e)
    next :
        (body rest : Bytes) {bs bytes : Bytes} {v : V} {vs : List V} {end : Option FramingError}
        → frame body ≡ some bytes
        → 0 < length body
        → length body ≤ max_message_bytes
        → loads body ≡ loaded v
        → bs ≡ bytes ++ rest
        → Stream rest vs end
        → Stream bs (v ∷ vs) end

module _ {W V P R : Type 0} (pipe : Pipe W) (loads : Bytes → Loaded V) (dumps : R → Bytes)
    (handle : V → P → R × P) (refusal : FramingError → R) (timeout : ℕ) where
  -- The conversation on the requests themselves: each is answered, in order; then the end, or the answer to
  -- what is refused and the exit with 1. An answer that fits no frame is an exception.
  unfoldable pub converse : List V → Option FramingError → P → Bytes → Ended × P × Bytes
  converse [] none p out = (code 0, p, out)
  converse [] (some e) p out = elim (frame (dumps (refusal e))) [
    | none ↦ (crashed, p, out)
    | some bytes ↦ (code 1, p, out ++ bytes)
  ]
  converse (v ∷ vs) end p out =
      let (r, p') = handle v p in
      let later : Bytes → Ended × P × Bytes = λ bytes. converse vs end p' (out ++ bytes) in
      elim (frame (dumps r)) [ none ↦ (crashed, p', out) | some bytes ↦ later bytes ]

  -- The conversation, or one that stalled after some of the requests.
  pub data Cut (vs : List V) (end : Option FramingError) (p : P) (out : Bytes)
      (x : Ended × P × Bytes) : Type 0 where
    uncut : x ≡ converse vs end p out → Cut vs end p out x
    cut :
        (us later : List V)
        → vs ≡ us ++ later
        → x ≡ converse us (some stalled) p out
        → Cut vs end p out x

  abbrev pub seen : Ended × Server pipe loads dumps handle refusal timeout → Ended × P × Bytes
  seen (e, s) = (e, s.process, s.written)

  abbrev Loop : Type 0
  Loop =
      Server pipe loads dumps handle refusal timeout
      → Ended × Server pipe loads dumps handle refusal timeout

  abbrev turned : Loop → P → Bytes → Result FramingError (Message V) × W → Ended × P × Bytes
  turned later p out x = seen (turn pipe loads dumps handle refusal timeout later p out x)

  turn_err :
      (later : Loop) (p : P) (out : Bytes) (e : FramingError) (w : W)
      → turned later p out (err e, w) ≡ converse [] (some e) p out
  unfolding turn write_message converse
  turn_err later p out e w = elim (Option-cases (frame (dumps (refusal e)))) [
    | inl q ↦ rw (q, converse, turn, write_message) refl
    | inr (bytes, q) ↦ rw (q, converse, turn, write_message) refl
  ]

  -- What a round adds in front of what the later rounds come to.
  prepend :
      (v : V) (vs : List V) (end : Option FramingError) (p : P) (out : Bytes) (later : Loop) (w : W)
      → ((out' : Bytes)
          → Cut vs end
              (handle v p).1
              out'
              (seen (later (record { pipe_world = w; process = (handle v p).1; written = out' }))))
      → Cut (v ∷ vs) end p out (turned later p out (ok (message v), w))
  unfolding turn write_message converse
  prepend v vs end p out later w rest = elim (Option-cases (frame (dumps (handle v p).0))) [
    | inl q ↦ uncut (rw (q, converse, turn, write_message) refl)
    | inr (bytes, q) ↦ elim (rest (out ++ bytes)) [
      | uncut e ↦ uncut (rw (q, converse, turn, write_message) e)
      | cut us more e e' ↦
          cut (v ∷ us) more (ap (λ l. v ∷ l) e) (rw (q, converse, turn, write_message) e')
    ]
  ]

  module _ (Holds : W → Bytes → Type 0) (is_pipe : IsPipe pipe Holds) where
    module _ (later : Loop) (fuel : ℕ) (p : P) (out : Bytes)
        (x : Result FramingError (Message V) × W) where
      -- What the later rounds come to.
      abbrev Later : Type 0
      Later =
          (w : W) (bs : Bytes) (vs : List V) (end : Option FramingError) (p' : P) (out' : Bytes)
          → length vs < fuel
          → Stream loads bs vs end
          → Holds w bs
          → Cut vs end p' out'
              (seen (later (record { pipe_world = w; process = p'; written = out' })))

      stall :
          (ws : List V) (end' : Option FramingError)
          → x.0 ≡ err stalled
          → Cut ws end' p out (turned later p out x)
      stall ws end' e =
          cut [] ws refl
            (ap (λ r. turned later p out (r, x.1)) e ∙ turn_err later p out stalled x.1)

      at :
          {ws : List V} {end' : Option FramingError} {y : Result FramingError (Message V) × W}
          → x ≡ y
          → Cut ws end' p out (turned later p out y)
          → Cut ws end' p out (turned later p out x)
      at {ws} {end'} e c = subst (λ z. Cut ws end' p out (turned later p out z)) (sym e) c

      over : (e : FramingError) → x.0 ≡ err e → Cut [] (some e) p out (turned later p out x)
      over e q = at (ap (λ r. (r, x.1)) q) (uncut (turn_err later p out e x.1))

      round-Cut :
          (bs' : Bytes) (ws : List V) (end' : Option FramingError)
          → length ws < suc fuel
          → Later
          → Stream loads bs' ws end'
          → Agrees pipe Holds x (parse_frame loads bs')
          → Cut ws end' p out (turned later p out x)
      unfolding Agrees parse_frame
      round-Cut bs' ws end' few again ended a = elim a [
        | inl e ↦ stall [] none e
        | inr (w', e, h') ↦ at e (uncut (unfold turn converse in refl))
      ]
      round-Cut bs' ws end' few again (broken e q) a = elim (subst (Agrees pipe Holds x) q a) [
        | inl e₁ ↦ stall [] (some e) e₁
        | inr e₂ ↦ over e e₂
      ]
      round-Cut bs' ws end' few again
            (next body rest {bytes = bytes} {v = v} {vs = us} f pos small l is s) a =
          let read =
            ap (parse_frame loads) is ∙ parse_frame-frame loads body rest v f pos small l in
          elim (subst (Agrees pipe Holds x) read a) [
            | inl e ↦ stall (v ∷ us) end' e
            | inr (w', e, h') ↦ at e (
                prepend v us end' p out later w'
                  (λ out'. again w' rest us end' (handle v p).1 out' (omega (arith, few)) s h'))
          ]

    -- On a pipe that holds the frames of some requests and then nothing or something that is refused,
    -- `serve` ends in as many rounds as there are requests and one more. It has then had the conversation
    -- on these requests: each was answered in order, and the exit is 0 at the end of the stream, or 1 behind
    -- the answer to what is refused; or it has had that on the first few of them and then exits with 1
    -- behind the answer to a stalled frame. An answer that fits no frame ends it with an exception.
    pub serve-Cut :
        (fuel : ℕ) (w : W) (bs : Bytes) (vs : List V) (end : Option FramingError) (p : P)
        (out : Bytes)
        → length vs < fuel
        → Stream loads bs vs end
        → Holds w bs
        → Cut vs end p out (
            seen (
              serve pipe loads dumps handle refusal timeout fuel
                (record { pipe_world = w; process = p; written = out })))
    unfolding serve
    serve-Cut zero w bs vs end p out enough stream h = absurd (omega arith)
    serve-Cut (suc fuel) w bs vs end p out enough stream h =
        round-Cut (serve pipe loads dumps handle refusal timeout fuel) fuel p out
          (read_message pipe loads timeout w) bs vs end enough (serve-Cut fuel) stream
          (read_message-Agrees pipe Holds is_pipe loads timeout w bs h)
