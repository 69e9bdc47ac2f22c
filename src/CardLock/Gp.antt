-- ===== src/CardLock/Gp.antt =====
-- scripts/card_lock.py: the class `GP`, the passphrase and the questions of `main`. Processes, random
-- numbers, the terminal and the environment are the parameter `Outside`; the log, newest entry first, is
-- the model's own.
use nuri_passkey_prf_smartca.Base.{
  ℕ, Bool, true, false, ◌&&◌, ◌||◌, not, List, [], ◌∷◌, ◌++◌, map, Option, none, some, Bytes, Text,
  codes, leb, ◌==◌, equal, if◌then◌else◌, is_nil, drop, starts_with, contains, contains_text, upper,
  to_hex, Result, ok, err, Action, pure, ◌>>=◌, ◌>>◌,
}
use nuri_passkey_prf_smartca.CardLock.Escrow.{Keys}
use nuri_passkey_prf_smartca.CardLock.Keyset.{has_required, onto_first, split_lines}
use nuri_passkey_prf_smartca.CardLock.Files.{
  Failure, require, wanted, FilePath, Files, read_private, atomic_escrow,
}

-- The return code of a process, its output and its errors; nothing, if it did not run or timed out.
abbrev pub Ran : Type 0
Ran = Option (ℕ × Text × Text)

pub record Outside (W : Type 0) : Type 0 where
  pub files : Files W
  pub deny_path : FilePath
  pub resolve : Text → FilePath
  pub default_escrow : Text → FilePath
  pub environ : Text → Option Text
  -- The command, and GP_READER_IGNORE; no other variable of GP or SCP is passed on.
  pub spawn : List Text → Option Text → W → Ran × W
  pub token : ℕ → W → Bytes × W
  pub adjust_parity : Bytes → Option Bytes
  pub is_terminal : Bool
  pub ask_secret : W → Option Bytes × W
  pub read_descriptor : ℕ → W → Bytes × W
  pub ask : W → Option Text × W

pub record Args : Type 0 where
  pub reader : Option Text
  pub escrow : Option Text
  pub passphrase_fd : Option ℕ

pub data Event : Type 0 where
  ran : List Text → Ran → Event
  read : FilePath → Option Bytes → Event
  published : FilePath → Bytes → Event
  typed : Option Text → Event

pub record Shell (W : Type 0) : Type 0 where
  pub outer : W
  pub log : List Event
  pub attempted : Bool

-- `raise Refusal` unless there is a result.
abbrev pub maybe : {A : Type 0} → Result Failure A → Option A
maybe (ok a) = some a
maybe (err e) = none

pub record Gp : Type 0 where
  pub binary : Text
  pub reader : Text
  pub ignored : Option Text

abbrev pub or_default : Option Text → Text → Text
or_default none d = d
or_default (some t) d = t

-- `args.reader or os.environ.get("GP_READER")`, where an empty name counts as none.
abbrev pub first_name : Option Text → Option Text → Option Text
first_name none b = b
first_name (some []) b = b
first_name (some (c ∷ cs)) b = some (c ∷ cs)

-- The lines between newlines.
unfoldable pub newline_lines : Text → List Text
newline_lines [] = [] ∷ []
newline_lines (c ∷ cs) =
    let rest = newline_lines cs in if c == 10 then [] ∷ rest else onto_first c rest

abbrev pub version_lines : List Text
version_lines =
    codes "# GlobalPlatformPro 24.10.15"
    ∷ codes "# GlobalPlatformPro v24.10.15"
    ∷ codes "# GlobalPlatformPro f2af9ef"
    ∷ []

unfoldable pub has_version : List Text → Bool
unfolding contains_text
has_version [] = false
has_version (line ∷ lines) =
    contains_text line version_lines
    || contains_text line (map (λ (v : Text). v ++ 13 ∷ []) version_lines)
    || has_version lines

-- The names in the list of readers.
unfoldable pub reader_names : List Text → List Text
unfolding starts_with
reader_names [] = []
reader_names (line ∷ lines) =
    let rest = reader_names lines in
    if starts_with (codes "- ") line then drop 2 line ∷ rest else rest

unfoldable pub listed_readers : Text → Option (List Text)
unfolding reader_names split_lines equal
listed_readers output = elim (split_lines false output) [
  | [] ↦ none
  | first ∷ lines ↦
      if equal first (codes "Available readers:") then some (reader_names lines) else none
]

abbrev pub is_plain_name : Text → Bool
is_plain_name name = not (is_nil name) && not (contains b';' name)

unfoldable pub all_plain : List Text → Bool
unfolding contains
all_plain [] = true
all_plain (n ∷ ns) = is_plain_name n && all_plain ns

unfoldable pub without : Text → List Text → List Text
unfolding equal
without r [] = []
without r (n ∷ ns) = let rest = without r ns in if equal n r then rest else n ∷ rest

unfoldable pub join_names : List Text → Text
join_names [] = []
join_names (n ∷ []) = n
join_names (n ∷ m ∷ ns) = n ++ (b';' ∷ join_names (m ∷ ns))

abbrev pub ignore_list : List Text → Option Text
ignore_list [] = none
ignore_list (n ∷ ns) = some (join_names (n ∷ ns))

-- `f"0x{version:02X}"`
abbrev pub version_text : ℕ → Text
version_text v = codes "0x" ++ upper (to_hex (v ∷ []))

-- `GP.auth`
abbrev pub auth : Keys → ℕ → List Text
auth keys version =
    codes "--key-ver"
    ∷ version_text version
    ∷ codes "--key-enc"
    ∷ keys.enc
    ∷ codes "--key-mac"
    ∷ keys.mac
    ∷ codes "--key-dek"
    ∷ keys.dek
    ∷ []

abbrev pub output_of : Text → Text → Text
output_of out errors = out ++ (10 ∷ errors)

abbrev pub reader_args : Bool → Gp → List Text
reader_args true gp = codes "--reader" ∷ gp.reader ∷ []
reader_args false gp = []

abbrev pub success : Ran → Option Text
success none = none
success (some (code, out, errors)) = if code == 0 then some (output_of out errors) else none

abbrev pub command_of : Gp → Bool → List Text → List Text
command_of gp with_reader args = (gp.binary ∷ []) ++ (reader_args with_reader gp ++ args)

abbrev pub rotation_args : Keys → Keys → ℕ → List Text
rotation_args old new version =
    auth old version ++ codes "--new-keyver" ∷ version_text version ∷ codes "--lock" ∷ new.enc ∷ []

module _ {W : Type 0} (outside : Outside W) where
  -- A process, with its entry in the log.
  unfoldable pub spawn : List Text → Option Text → Action (Shell W) Failure Ran
  spawn command ignored s =
      let (r, w) = outside.spawn command ignored s.outer in
      (ok r, record s { outer = w; log = ran command r ∷ s.log })

  -- `GP.run`
  unfoldable pub run : Gp → Bool → List Text → Action (Shell W) Failure Text
  unfolding spawn
  run gp with_reader args = do
    r ← spawn (command_of gp with_reader args) gp.ignored
    wanted (success r)

  -- `GP.__init__`
  unfoldable pub new_gp : Args → Action (Shell W) Failure Gp
  unfolding run spawn has_version newline_lines listed_readers all_plain without join_names
      starts_with contains_text
  new_gp args = do
    let binary = or_default (outside.environ (codes "GP_BIN")) (codes "gp")
    reader ← wanted (first_name args.reader (outside.environ (codes "GP_READER")))
    require (not (is_nil reader) && not (starts_with (codes "-") reader))
    version ←
        run (record { binary = binary; reader = reader; ignored = none }) false
          (codes "--version" ∷ [])
    require (has_version (newline_lines version))
    r ← spawn (binary ∷ codes "--reader" ∷ []) none
    (code, out, errors) ← wanted r
    require (leb code 1)
    names ← wanted (listed_readers out)
    require (not (is_nil names))
    require (all_plain names)
    require (contains_text reader names)
    pure (record { binary = binary; reader = reader; ignored = ignore_list (without reader names) })

  unfoldable pub listing : Gp → Keys → ℕ → Action (Shell W) Failure (Unit {0})
  unfolding run has_required
  listing gp keys version = do
    output ← run gp true (auth keys version ++ codes "-l" ∷ [])
    require (has_required output)

  -- `GP.rotate`
  unfoldable pub rotate : Gp → Keys → Keys → ℕ → Action (Shell W) Failure (Unit {0})
  unfolding run equal
  rotate gp old new version = do
    require (equal new.enc new.mac && equal new.mac new.dek)
    run gp true (rotation_args old new version)
    pure tt

  -- A private file, with its entry in the log.
  unfoldable pub read_file : FilePath → Action (Shell W) Failure Bytes
  unfolding read_private
  read_file path s =
      let (r, w) = read_private outside.files path s.outer in
      (r, record s { outer = w; log = read path (maybe r) ∷ s.log })

  unfoldable pub publish : FilePath → Bytes → Action (Shell W) Failure (Unit {0})
  unfolding atomic_escrow
  publish path content s =
      let (r, w) = atomic_escrow outside.files path content s.outer in
      (r, record s { outer = w; log = published path content ∷ s.log })
