-- ===== src/CardLock/Files.antt =====
-- scripts/card_lock.py: the private files. The file system is a parameter: `enter` opens a directory
-- below those that are open, without following a link, and gives its status; `open_file` opens a file in
-- the same way and gives up to 65537 bytes of it; `write` makes one step of a publication.
use nuri_passkey_prf_smartca.Base.{
  ℕ, ◌/◌, ◌%◌, Bool, true, false, ◌&&◌, not, List, [], ◌∷◌, ◌++◌, Option, none, some, Bytes, Text,
  leb, ◌==◌, if◌then◌else◌, length, ok, err, Action, pure, raise, raise_if, ◌>>=◌, ◌>>◌,
}

-- Every exception that `main` catches.
pub data Failure : Type 0 where
  refused : Failure

abbrev pub require : {S : Type 0} → Bool → Action S Failure (Unit {0})
require b = raise_if (not b) refused

-- What came, or the refusal.
abbrev pub wanted : {S A : Type 0} → Option A → Action S Failure A
wanted none = raise refused
wanted (some a) = pure a

pub record Status : Type 0 where
  pub is_directory : Bool
  pub is_regular : Bool
  pub is_own : Bool
  pub mode : ℕ

pub record FilePath : Type 0 where
  pub parents : List Text
  pub name : Text

pub data Publication : Type 0 where
  make_temporary link unlink_temporary sync_directory : Publication
  fill : Bytes → Publication

pub record Files (W : Type 0) : Type 0 where
  pub enter : Bool → List Text → W → Option Status × W
  pub open_file : FilePath → W → Option (Status × Bytes) × W
  pub write : FilePath → Publication → W → Bool × W

-- `private_stat`
unfoldable pub private_stat : Bool → Status → Bool
private_stat true st = st.is_directory && st.is_own && st.mode == 448
private_stat false st = st.is_regular && st.is_own && st.mode == 384

-- `not st_mode & 0o022`
abbrev pub unshared : ℕ → Bool
unshared mode = (mode / 16) % 2 == 0 && (mode / 2) % 2 == 0

-- An operation that may come to nothing, as a method that refuses then.
unfoldable pub attempt : {W A : Type 0} → (W → Option A × W) → Action W Failure A
attempt op w = let (r, w') = op w in ((elim r [ none ↦ err refused | some a ↦ ok a ]), w')

module _ {W : Type 0} (files : Files W) where
  -- The walk of `parent_fd` from a directory that is open, with the path to it and its status.
  unfoldable pub walk : Bool → List Text → Status → List Text → Action W Failure Status
  unfolding attempt
  walk create path st [] = pure st
  walk create path st (part ∷ parts) = attempt (files.enter create (path ++ part ∷ [])) >>= λ next.
      require (unshared next.mode) >>= λ _. walk create (path ++ part ∷ []) next parts

  unfoldable pub parent_fd : Bool → FilePath → Action W Failure (Unit {0})
  unfolding walk attempt private_stat
  parent_fd create path = do
    root ← attempt (files.enter false [])
    last ← walk create [] root path.parents
    require (private_stat true last)

  unfoldable pub read_private : FilePath → Action W Failure Bytes
  unfolding parent_fd attempt private_stat
  read_private path = do
    parent_fd false path
    (st, content) ← attempt (files.open_file path)
    require (private_stat false st)
    require (leb (length content) 65536)
    pure content

  -- One step of the publication; `false` is an OSError.
  unfoldable pub step : FilePath → Publication → Action W Failure (Unit {0})
  step path p w =
      let (good, w') = files.write path p w in ((if good then ok tt else err refused), w')

  -- `finally`: the temporary name is unlinked again. An error of that, other than that it is gone, is left
  -- out.
  unfoldable pub cleaned : FilePath → Action W Failure (Unit {0}) → Action W Failure (Unit {0})
  cleaned path m w =
      let (r, w') = m w in let (_, w'') = files.write path unlink_temporary w' in (r, w'')

  unfoldable pub atomic_escrow : FilePath → Bytes → Action W Failure (Unit {0})
  unfolding parent_fd step cleaned
  atomic_escrow path content = do
    parent_fd true path
    cleaned path (do
      step path make_temporary
      step path (fill content)
      step path link
      step path unlink_temporary
      step path sync_directory)
