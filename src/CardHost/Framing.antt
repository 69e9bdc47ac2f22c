-- ===== src/CardHost/Framing.antt =====
-- host/nuri_card_host.py: the frames, `_read_exact`, `read_message` and `write_message`, and the loop
-- `serve`. The pipe and the clock are the parameter `Pipe`, times are whole microseconds. JSON is a
-- parameter too, `loads` with its errors and `dumps`; the log file is left out.
use nuri_passkey_prf_smartca.Base.{
  ℕ, zero, suc, ◌+◌, ◌-◌, ◌*◌, ◌/◌, ◌%◌, ◌^◌, Bool, not, [], ◌∷◌, ◌++◌, Option, none, some, Bytes,
  ltb, leb, ◌==◌, is_nil, if◌then◌else◌, length, get_or, Result, ok, err, Action, pure, raise,
  raise_if, ◌>>=◌, ◌>>◌,
}

abbrev pub max_message_bytes : ℕ
max_message_bytes = 1024 * 1024

-- `FramingError`, by its message.
pub data FramingError : Type 0 where
  stalled : FramingError
  truncated_header empty_message too_large truncated_body : FramingError
  not_utf8 too_deep invalid_json : FramingError

-- A pipe with a descriptor: `time.monotonic`, `select` with a limit, and `os.read` of at most so many
-- bytes.
pub record Pipe (W : Type 0) : Type 0 where
  pub monotonic : W → ℕ × W
  pub ready : ℕ → W → Bool × W
  pub read : ℕ → W → Bytes × W

-- `json.loads` on the decoded bytes: a value, or one of its errors.
pub data Loaded (V : Type 0) : Type 0 where
  loaded : V → Loaded V
  unicode_error recursion_error value_error : Loaded V

-- What `read_message` returns.
pub data Message (V : Type 0) : Type 0 where
  end_of_stream : Message V
  message : V → Message V

-- `struct.unpack("<I", …)`
abbrev pub little_endian : Bytes → ℕ
little_endian bs =
    get_or bs 0 0 + get_or bs 1 0 * 256 + get_or bs 2 0 * 65536 + get_or bs 3 0 * 16777216

module _ {W : Type 0} (pipe : Pipe W) where
  -- The wait in front of a read: it ends with the deadline, if there is one.
  unfoldable pub await : Option ℕ → Action W FramingError (Unit {0})
  await none w = (ok tt, w)
  await (some deadline) w =
      let (now, w₁) = pipe.monotonic w in
      let (is_ready, w₂) = pipe.ready (deadline - now) w₁ in
      if leb deadline now
      then (err stalled, w₁)
      else if not is_ready
      then (err stalled, w₂)
      else (ok tt, w₂)

  -- `_read_exact`, of `n` bytes with `buf` already read. Each round but the last adds a byte, so that
  -- as many rounds as bytes are missing are enough.
  unfoldable pub read_rounds : ℕ → ℕ → Option ℕ → Bytes → Action W FramingError Bytes
  unfolding await
  read_rounds zero n deadline buf w = (ok buf, w)
  read_rounds (suc fuel) n deadline buf w =
      let (r, w₁) = await deadline w in
      let (chunk, w₂) = pipe.read (n - length buf) w₁ in
      let more = read_rounds fuel n deadline (buf ++ chunk) w₂ in
      if not (ltb (length buf) n)
      then (ok buf, w)
      else elim r [ err e ↦ (err e, w₁) | ok _ ↦ if is_nil chunk then (ok buf, w₂) else more ]

  unfoldable pub read_exact : ℕ → Option ℕ → Action W FramingError Bytes
  read_exact n deadline = read_rounds n n deadline []

  -- `frame_timeout and …`: no limit if it is zero.
  unfoldable pub deadline_of : ℕ → Action W FramingError (Option ℕ)
  deadline_of timeout w =
      let (now, w₁) = pipe.monotonic w in
      if timeout == 0 then (ok none, w) else (ok (some (now + timeout)), w₁)

  module _ {V : Type 0} (loads : Bytes → Loaded V) where
    unfoldable pub decode : Bytes → Action W FramingError (Message V)
    decode body = elim (loads body) [
      | loaded v ↦ pure (message v)
      | unicode_error ↦ raise not_utf8
      | recursion_error ↦ raise too_deep
      | value_error ↦ raise invalid_json
    ]

    -- What follows the first byte of a frame.
    unfoldable pub read_frame : ℕ → Bytes → Action W FramingError (Message V)
    unfolding read_exact deadline_of decode
    read_frame timeout first = do
      deadline ← deadline_of timeout
      rest ← read_exact 3 deadline
      raise_if (ltb (length rest) 3) truncated_header
      raise_if (little_endian (first ++ rest) == 0) empty_message
      raise_if (ltb max_message_bytes (little_endian (first ++ rest))) too_large
      body ← read_exact (little_endian (first ++ rest)) deadline
      raise_if (ltb (length body) (little_endian (first ++ rest))) truncated_body
      decode body

    unfoldable pub read_message : ℕ → Action W FramingError (Message V)
    unfolding read_frame read_exact
    read_message timeout = do
      first ← read_exact 1 none
      if is_nil first then pure end_of_stream else read_frame timeout first

-- `struct.pack("<I", n)`
abbrev pub pack_length : ℕ → Bytes
pack_length n = n % 256 ∷ (n / 256) % 256 ∷ (n / 65536) % 256 ∷ (n / 16777216) % 256 ∷ []

-- What `write_message` writes; `none` is the error of `struct.pack`.
unfoldable pub frame : Bytes → Option Bytes
frame body = if ltb (length body) (256 ^ 4) then some (pack_length (length body) ++ body) else none

-- The end of `serve`: its code, an exception, or out of fuel, with what was written.
pub data Ended : Type 0 where
  code : ℕ → Ended
  crashed : Ended
  running : Ended

module _ {W V P R : Type 0} (pipe : Pipe W) (loads : Bytes → Loaded V) (dumps : R → Bytes)
    (handle : V → P → R × P) (refusal : FramingError → R) (timeout : ℕ) where
  -- The server: the pipe, the process behind `handle`, and what was written to the other pipe.
  pub record Server : Type 0 where
    pub pipe_world : W
    pub process : P
    pub written : Bytes

  unfoldable pub write_message : R → Server → Option Server
  write_message r s = elim (frame (dumps r)) [
    | none ↦ none
    | some bytes ↦ some (record s { written = s.written ++ bytes })
  ]

  -- A round of the loop, from what was read, with what the later rounds do.
  unfoldable pub turn :
      (Server → Ended × Server) → P → Bytes → Result FramingError (Message V) × W → Ended × Server
  unfolding write_message frame
  turn later p out (err e, w) =
      let s : Server = record { pipe_world = w; process = p; written = out } in
      elim (write_message (refusal e) s) [ none ↦ (crashed, s) | some s' ↦ (code 1, s') ]
  turn later p out (ok end_of_stream, w) =
      (code 0, record { pipe_world = w; process = p; written = out })
  turn later p out (ok (message v), w) =
      let (response, p') = handle v p in
      let s : Server = record { pipe_world = w; process = p'; written = out } in
      elim (write_message response s) [ none ↦ (crashed, s) | some s' ↦ later s' ]

  -- `serve`, for a number of requests.
  unfoldable pub serve : ℕ → Server → Ended × Server
  unfolding turn read_message
  serve zero s = (running, s)
  serve (suc fuel) s =
      turn (serve fuel) s.process s.written (read_message pipe loads timeout s.pipe_world)
