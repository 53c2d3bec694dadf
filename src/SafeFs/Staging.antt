-- ===== src/SafeFs/Staging.antt =====
-- `SafeRoot` of safe_fs.rs as a whole: the staging directory is made beside the destination, filled, and
-- renamed to it; an error after it was opened drops it.
use cipher_fs.Errors
use cipher_fs.Operation.World.{◌>>=◌, ◌>>◌}
use cipher_fs.Operation.{committed, warning}
use cipher_fs.WindowsNames.{hex_encode}
use cipher_fs.Operation.World.{lift, report, Op, World}
use cipher_fs.Base.Paths.{path_text, same_parent, PathBuf}
use cipher_fs.Base.Words.{bytes_eq, codes, Bytes}
use cipher_fs.SafeFs.{join, system_call, dir_node, sync_open_directories, Tree, SafeRoot}
use cipher_fs.Errors.{context, ok, bail, err, bail_if, Result}
use cipher_fs.Base.{
  ◌&&◌, not, if◌then◌else◌, true, some, ◌++◌, ◌||◌, take, [], ◌∷◌, List, false, Bool, none, Option,
}

-- The parts of an absolute path: its directory, and its name if it has one.
pub record AbsolutePath : Type 0 where
  pub parent : Option PathBuf
  pub file_name : Option Bytes

abbrev pub same_name : Option Bytes → Option Bytes → Bool
same_name none none = true
same_name (some p) (some q) = bytes_eq p q
same_name p q = false

-- What stands at the destination and at the staging path. Other processes may create the destination at any
-- time: `target` is what they have put there when the extraction ends.
pub record ExtractDir : Type 0 where
  pub target : Option Tree
  pub staging : Option Tree

-- What the system shows: the destination as an absolute path, whether something stands there at the
-- first and at the second look, and which names are in use beside it; and what it refuses.
pub record ExtractSystem : Type 0 where
  pub absolute : Result AbsolutePath
  pub seen_first : Bool
  pub seen_second : Bool
  pub is_used : Bytes → Bool
  pub refuses_rename : Bool
  pub refuses_sync : Bool
  -- What a filling that fails has made in the staging directory.
  pub partial_tree : Tree

abbrev pub is_standing : Option Tree → Bool
is_standing none = false
is_standing (some tree) = true

-- `allocate_staging_name`, with the random bytes of each of at most 32 rounds.
unfoldable pub staging_candidate : Bytes → Bytes → Bytes
unfolding hex_encode
staging_candidate prefix random =
    codes "." ++ (prefix ++ (codes ".cipherfs-stage-" ++ hex_encode random))

unfoldable pub first_unused : (Bytes → Bool) → Bytes → List Bytes → Result Bytes
unfolding staging_candidate
first_unused is_used prefix [] = bail "Unable to allocate an extraction staging directory"
first_unused is_used prefix (random ∷ draws) =
    let rest = first_unused is_used prefix draws in
    if is_used (staging_candidate prefix random) then rest else ok (staging_candidate prefix random)

unfoldable pub allocate_staging_name : (Bytes → Bool) → Bytes → List Bytes → Result Bytes
unfolding first_unused
allocate_staging_name is_used target_name draws = first_unused is_used target_name (take 32 draws)

-- A staging path that the caller asks for.
unfoldable pub check_requested : (Bytes → Bool) → AbsolutePath → AbsolutePath → Result Bytes
check_requested is_used absolute requested =
    Errors.◌>>◌
      (bail_if (not (same_parent requested.parent absolute.parent))
        "Extraction staging directory must be a sibling of the destination")
      (Errors.◌>>◌
        (bail_if
          (same_parent requested.parent absolute.parent
            && same_name requested.file_name absolute.file_name)
          "Extraction staging directory must differ from the destination")
        (Errors.◌>>=◌ (context requested.file_name "Extraction staging path must name a directory")
          λ name.
            Errors.◌>>◌ (bail_if (is_used name) "Extraction staging directory already exists")
              (ok name)))

unfoldable pub staging_name :
    (Bytes → Bool) → AbsolutePath → Bytes → Option (Result AbsolutePath) → List Bytes → Result Bytes
unfolding check_requested allocate_staging_name
staging_name is_used absolute target_name none draws =
    allocate_staging_name is_used target_name draws
staging_name is_used absolute target_name (some requested) draws =
    Errors.◌>>=◌ requested (check_requested is_used absolute)

-- `open_new_at` up to the name of the staging directory; the result is its whole path.
unfoldable pub choose_staging : ExtractSystem → Option (Result AbsolutePath) → List Bytes → Op Bytes
unfolding path_text
choose_staging system requested draws = do
  lift (
      bail_if system.seen_first
        "Extraction destination already exists; choose a path that does not exist")
  absolute ← lift system.absolute
  parent ← lift (context absolute.parent "Extraction destination must have a parent directory")
  target_name ← lift (context absolute.file_name "Extraction destination must name a directory")
  system_call "Unable to safely open output parent"
  lift (bail_if system.seen_second "Extraction destination was created concurrently")
  name ← lift (staging_name system.is_used absolute target_name requested draws)
  lift (ok (path_text (join parent name)))

-- The staging directory alone, under the id that the root of the index has.
abbrev pub new_root : SafeRoot
new_root = record { directories = (1, []) ∷ []; tree = ([], dir_node) ∷ [] }

-- What an extraction returns and leaves.
abbrev pub ExtractOutcome : Type 0
ExtractOutcome = Result (Unit {0}) × ExtractDir × World

-- `SafeRoot::drop`, unless the tree has been committed.
abbrev pub drop_staging : ExtractDir → ExtractDir
drop_staging dir = record dir { staging = none }

abbrev pub warn_parent_sync : Bool → Op (Unit {0})
warn_parent_sync true = report (warning (codes "Unable to sync extraction parent after commit"))
warn_parent_sync false = lift (ok tt)

-- `rename_directory_no_replace`
unfoldable pub rename_directory_no_replace : ExtractSystem → ExtractDir → Result (Unit {0})
rename_directory_no_replace system dir =
    bail_if (system.refuses_rename || is_standing dir.target) "Unable to install"

unfoldable pub after_install :
    ExtractSystem → ExtractDir → Tree → World → Result (Unit {0}) → ExtractOutcome
after_install system dir tree w (err e) =
    (err e, drop_staging (record dir { staging = some tree }), w)
after_install system dir tree w (ok unit) =
    let (_, w') = (do warn_parent_sync system.refuses_sync; report committed) w in
    (ok tt, record dir { target = some tree; staging = none }, w')

unfoldable pub after_sync :
    ExtractSystem → ExtractDir → Tree → World → Result (Unit {0}) → ExtractOutcome
after_sync system dir tree w (err e) = (err e, drop_staging (record dir { staging = some tree }), w)
after_sync system dir tree w (ok unit) =
    after_install system dir tree w (rename_directory_no_replace system dir)

-- `SafeRoot::commit`
unfoldable pub commit_root : ExtractSystem → ExtractDir → SafeRoot → World → ExtractOutcome
commit_root system dir root w =
    let synced = sync_open_directories root.directories w in
    after_sync system dir root.tree synced.1 synced.0

unfoldable pub after_filling : ExtractSystem → ExtractDir → World → Result SafeRoot → ExtractOutcome
after_filling system dir w (err e) =
    (err e, drop_staging (record dir { staging = some system.partial_tree }), w)
after_filling system dir w (ok root) = commit_root system dir root w

-- No `SafeRoot` exists yet when the new directory cannot be opened, so the directory stays.
unfoldable pub after_open_dir :
    Op SafeRoot → ExtractSystem → ExtractDir → World → Result (Unit {0}) → ExtractOutcome
after_open_dir filling system dir w (err e) = (err e, dir, w)
after_open_dir filling system dir w (ok unit) = after_filling system dir (filling w).1 (filling w).0

unfoldable pub after_create_dir :
    Op SafeRoot → ExtractSystem → ExtractDir → World → Result (Unit {0}) → ExtractOutcome
after_create_dir filling system dir w (err e) = (err e, dir, w)
after_create_dir filling system dir w (ok unit) =
    let opening = system_call "Unable to open extraction staging directory" w in
    after_open_dir filling system (record dir { staging = some new_root.tree }) opening.1 opening.0

-- `create_dir` of the staging directory.
unfoldable pub create_staging : ExtractDir → Op (Unit {0})
create_staging dir = do
  system_call "Unable to create extraction staging directory"
  lift (bail_if (is_standing dir.staging) "Unable to create extraction staging directory")

-- `filling` makes the tree, from the path of the staging directory.
unfoldable pub build_tree :
    (Bytes → Op SafeRoot) → ExtractSystem → ExtractDir → World → Result Bytes → ExtractOutcome
build_tree filling system dir w (err e) = (err e, dir, w)
build_tree filling system dir w (ok path) =
    let made = create_staging dir w in after_create_dir (filling path) system dir made.1 made.0
