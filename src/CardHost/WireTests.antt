-- ===== src/CardHost/WireTests.antt =====
-- The theorems on frames at a pipe that holds its bytes, and gives at most three of them at a time.
use nuri_passkey_prf_smartca.Base.{
  ℕ, zero, suc, ◌+◌, ◌≤◌, ◌<◌, true, [], ◌∷◌, ◌++◌, some, Bytes, take, drop, err, length-take, ◌≡◌,
  refl, sym, ap, ◌∙◌, arith,
}
use nuri_passkey_prf_smartca.CardHost.Framing.{
  Pipe, loaded, frame, read_message, truncated_header, serve,
}
use nuri_passkey_prf_smartca.CardHost.Chunks.{IsPipe, Agrees}
use nuri_passkey_prf_smartca.CardHost.Pipes.{parse_frame, read_message-Agrees}
use nuri_passkey_prf_smartca.CardHost.Serving.{Stream, broken, next, Cut, seen, serve-Cut}

abbrev pub capped : ℕ → ℕ
capped zero = 0
capped (suc zero) = 1
capped (suc (suc zero)) = 2
capped (suc (suc (suc n))) = 3

abbrev pub toy : Pipe Bytes
toy = record {
  monotonic = λ w. (0, w);
  ready = λ t w. (true, w);
  read = λ n w. (take (capped n) w, drop (capped n) w);
}

rejoin : (n : ℕ) (w : Bytes) → w ≡ take n w ++ drop n w
rejoin zero w = refl
rejoin (suc n) [] = refl
rejoin (suc n) (x ∷ w) = ap (λ l. x ∷ l) (rejoin n w)

none_taken : (n : ℕ) (w : Bytes) → 0 < n → take (capped n) w ≡ [] → w ≡ []
none_taken zero w h e = absurd (omega (arith, h))
none_taken (suc n) [] h e = refl
none_taken (suc zero) (x ∷ w) h e = cc
none_taken (suc (suc zero)) (x ∷ w) h e = cc
none_taken (suc (suc (suc n))) (x ∷ w) h e = cc

capped-le : (n : ℕ) → capped n ≤ n
capped-le zero = omega arith
capped-le (suc zero) = omega arith
capped-le (suc (suc zero)) = omega arith
capped-le (suc (suc (suc n))) = omega arith

toy-IsPipe : IsPipe toy (λ w bs. w ≡ bs)
toy-IsPipe = record {
  clock = λ w bs h. h;
  wait = λ t w bs h. h;
  reads = λ n w bs pos h. (
    drop (capped n) w,
    sym h ∙ rejoin (capped n) w,
    omega (arith, length-take (capped n) w, capped-le n),
    (λ e. sym h ∙ none_taken n w pos e),
    refl,
  );
}

abbrev pub body : Bytes
body = 7 ∷ 8 ∷ 9 ∷ 10 ∷ []

abbrev pub framed : Bytes
framed = 4 ∷ 0 ∷ 0 ∷ 0 ∷ 7 ∷ 8 ∷ 9 ∷ 10 ∷ []

read_message-Agrees_example :
    Agrees toy
      (λ w bs. w ≡ bs)
      (read_message toy loaded 5 (framed ++ framed))
      (parse_frame loaded (framed ++ framed))
read_message-Agrees_example =
    read_message-Agrees toy (λ w bs. w ≡ bs) toy-IsPipe loaded 5 (framed ++ framed)
      (framed ++ framed) refl

frame_run : frame body ≡ some framed
unfolding frame
frame_run = refl

broken_run : parse_frame loaded (9 ∷ []) ≡ err truncated_header
unfolding parse_frame
broken_run = refl

-- Two requests, and a byte that begins no frame.
stream : Stream loaded (framed ++ (framed ++ 9 ∷ [])) (body ∷ body ∷ []) (some truncated_header)
stream = next body (framed ++ 9 ∷ []) frame_run (omega arith) (omega arith) refl refl (
    next body (9 ∷ []) frame_run (omega arith) (omega arith) refl refl
      (broken truncated_header broken_run))

serve-Cut_example :
    Cut toy loaded
      (λ (r : Bytes). r)
      (λ v (p : ℕ). (v, p + 1))
      (λ e. 1 ∷ [])
      5
      (body ∷ body ∷ [])
      (some truncated_header)
      0
      []
      (seen toy loaded
        (λ (r : Bytes). r)
        (λ v (p : ℕ). (v, p + 1))
        (λ e. 1 ∷ [])
        5
        (serve toy loaded
          (λ (r : Bytes). r)
          (λ v (p : ℕ). (v, p + 1))
          (λ e. 1 ∷ [])
          5
          3
          (record { pipe_world = framed ++ (framed ++ 9 ∷ []); process = 0; written = [] })))
serve-Cut_example =
    serve-Cut toy loaded (λ (r : Bytes). r) (λ v (p : ℕ). (v, p + 1)) (λ e. 1 ∷ []) 5
      (λ w bs. w ≡ bs) toy-IsPipe 3 (framed ++ (framed ++ 9 ∷ [])) (framed ++ (framed ++ 9 ∷ []))
      (body ∷ body ∷ []) (some truncated_header) 0 [] (omega arith) stream refl
