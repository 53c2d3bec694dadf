-- ===== src/Pack/Build/Output.antt =====
-- The output of `pack_inner`: the path of the temporary file, its guard, and the commit.
use cipher_fs.V2.Types.{SlotRandom}
use cipher_fs.Pack.Scan.{Walked}
use cipher_fs.WindowsNames.{hex_encode}
use cipher_fs.Pack.Build.{fill, prepare, PackRun, Prepared, PackRandom, PackRequest}
use cipher_fs.V2.Container.{Codec}
use cipher_fs.V2.Crypto.{Crypto}
use cipher_fs.Errors.{ok, err, bail_if, bail, Result}
use cipher_fs.Base.Words.{codes, Bytes}
use cipher_fs.Base.{
  if◌then◌else◌, [], ◌||◌, ◌++◌, none, not, ◌∷◌, true, some, take, false, List, Option, Bool,
}
use cipher_fs.Base.Paths.{
  path_text, path_eq, same_parent, file_name_of, parent_of, path_discrete, PathBuf,
}
use cipher_fs.Base.Map.{Map}
use cipher_fs.Base.Map
use cipher_fs.Errors
use cipher_fs.Operation.{commit_started, OperationPhase, phase_started, committed, warning}
use cipher_fs.Operation.World.{lift, report, World, Op, ◌>>=◌, ◌>>◌}

-- The files that the function can see, by their absolute paths.
abbrev pub OutputDir : Type 0
OutputDir = Map PathBuf Bytes

unfoldable pub content_at : PathBuf → OutputDir → Option Bytes
content_at = Map.get path_discrete

unfoldable pub put_file : PathBuf → Bytes → OutputDir → OutputDir
put_file = Map.insert path_discrete

unfoldable pub remove_file : PathBuf → OutputDir → OutputDir
remove_file = Map.remove path_discrete

-- What the system answers: whether it refuses to create the temporary file, to rename it, and to sync
-- the directory after that.
pub record OutputSystem : Type 0 where
  pub refuses_create : Bool
  pub refuses_rename : Bool
  pub refuses_sync : Bool

-- The output path and whether its name is text; the temporary path that the caller asks for, if any, as
-- `std::path::absolute` gives it; and the random bytes of the names that the function draws.
pub record OutputRequest : Type 0 where
  pub output : PathBuf
  pub is_text : Bool
  pub requested : Option (Result PathBuf)
  pub draws : List Bytes

abbrev pub is_taken : Option Bytes → Bool
is_taken none = false
is_taken (some content) = true

abbrev pub or_here : Option PathBuf → PathBuf
or_here none = codes "." ∷ []
or_here (some parent) = parent

abbrev pub name_or_vault : Bool → Option Bytes → Bytes
name_or_vault true (some name) = name
name_or_vault is_text name = codes "vault.cfs"

unfoldable pub temporary_candidate : OutputRequest → Bytes → PathBuf
temporary_candidate request random =
    or_here (parent_of request.output)
    ++ ((codes "."
          ++ (name_or_vault request.is_text (file_name_of request.output)
              ++ (codes "." ++ (hex_encode random ++ codes ".tmp"))))
        ∷ [])

-- `temporary_path`: the first of 32 random names that no file has.
unfoldable pub first_free : OutputRequest → OutputDir → List Bytes → Result PathBuf
first_free request dir [] = bail "Unable to allocate a temporary output name"
first_free request dir (random ∷ draws) =
    let rest = first_free request dir draws in
    if is_taken (content_at (temporary_candidate request random) dir)
    then rest
    else ok (temporary_candidate request random)

unfoldable pub temporary_path : OutputRequest → OutputDir → Result PathBuf
temporary_path request dir = first_free request dir (take 32 request.draws)

abbrev pub has_name : Option Bytes → Bool
has_name none = false
has_name (some name) = true

unfoldable pub validate_requested_temporary_path : PathBuf → PathBuf → OutputDir → Result PathBuf
validate_requested_temporary_path output requested dir =
    Errors.◌>>◌
      (bail_if (not (same_parent (parent_of requested) (parent_of output)))
        "Temporary container must be a sibling of the final output")
      (Errors.◌>>◌
        (bail_if (path_eq requested output) "Temporary container must differ from the final output")
        (Errors.◌>>◌
          (bail_if (not (has_name (file_name_of requested))) "Temporary container must name a file")
          (Errors.◌>>◌
            (bail_if (is_taken (content_at requested dir)) "Temporary container already exists")
            (ok requested))))

abbrev pub check_temporary : OutputRequest → OutputDir → Option (Result PathBuf) → Result PathBuf
check_temporary request dir none = temporary_path request dir
check_temporary request dir (some requested) =
    Errors.◌>>=◌ requested λ path. validate_requested_temporary_path request.output path dir

-- The `match` on the requested path.
unfoldable pub choose_temporary : OutputRequest → OutputDir → Result PathBuf
choose_temporary request dir = check_temporary request dir request.requested

-- `TempOutput::drop`, unless the output has been kept.
abbrev pub drop_temp : PathBuf → OutputDir → OutputDir
drop_temp temp dir = remove_file temp dir

-- `create_new`
unfoldable pub create_new : OutputSystem → PathBuf → OutputDir → Result (Unit {0})
create_new system temp dir =
    bail_if (system.refuses_create || is_taken (content_at temp dir))
      "Unable to create temporary container"

-- `rename_file_no_replace`
unfoldable pub rename_no_replace : OutputSystem → PathBuf → OutputDir → Result (Unit {0})
rename_no_replace system target dir =
    bail_if (system.refuses_rename || is_taken (content_at target dir)) "Unable to install"

abbrev pub warn_sync : Bool → Op (Unit {0})
warn_sync true = report (warning (codes "Unable to sync output parent after commit"))
warn_sync false = lift (ok tt)

-- What `pack_inner` returns and leaves.
abbrev pub PackOutcome : Type 0
PackOutcome = Result (Unit {0}) × OutputDir × World

module _ (system : OutputSystem) (target temp : PathBuf) where
  -- The end of the commit, after the rename.
  unfoldable pub after_rename : OutputDir → Bytes → World → Result (Unit {0}) → PackOutcome
  after_rename dir content w (err e) = (err e, drop_temp temp dir, w)
  after_rename dir content w (ok unit) =
      let (_, w') = (do warn_sync system.refuses_sync; report committed) w in
      (ok tt, put_file target content (remove_file temp dir), w')

  -- The commit: the file moves from the temporary path to the output path.
  unfoldable pub commit_output : OutputDir → World → PackOutcome
  commit_output dir w =
      let filled = put_file temp w.file dir in
      let (_, w') = (do report (phase_started OperationPhase.commit); report commit_started) w in
      after_rename filled w.file w' (rename_no_replace system target filled)

  -- An error while the file is filled removes it.
  unfoldable pub after_fill : OutputDir → World → Result (Unit {0}) → PackOutcome
  after_fill dir w (err e) = (err e, drop_temp temp (put_file temp w.file dir), w)
  after_fill dir w (ok unit) = commit_output dir w

  -- The guard stands before the file is created, so a failure to create it drops the guard as well.
  unfoldable pub after_create : Op (Unit {0}) → OutputDir → World → Result (Unit {0}) → PackOutcome
  after_create filling dir w (err e) = (err e, drop_temp temp dir, w)
  after_create filling dir w (ok unit) =
      let start = record w { file = [] } in after_fill dir (filling start).1 (filling start).0

  unfoldable pub install_output : Op (Unit {0}) → OutputDir → World → PackOutcome
  install_output filling dir w = after_create filling dir w (create_new system temp dir)

module _ (c : Crypto) (codec : Codec) (request : PackRequest) (place : OutputRequest)
    (r : PackRandom) where
  abbrev pub with_path : Prepared → PathBuf → Prepared × PathBuf
  with_path p path = (p, path)

  unfoldable pub prepare_at : List Walked → OutputDir → Op (Prepared × PathBuf)
  prepare_at walk dir = do
    p ← prepare c codec request r walk
    path ← lift (choose_temporary place dir)
    lift (ok (with_path p path))

  unfoldable pub after_prepare :
      PackRun
      → SlotRandom
      → SlotRandom
      → OutputSystem
      → OutputDir
      → World
      → Result (Prepared × PathBuf)
      → PackOutcome
  after_prepare run r_0 r_1 system dir w (err e) = (err e, dir, w)
  after_prepare run r_0 r_1 system dir w (ok (p, path)) =
      install_output system place.output path
        (fill c codec request.password r (path_text path) run r_0 r_1 p) dir w

  unfoldable pub pack_inner :
      List Walked
      → PackRun
      → SlotRandom
      → SlotRandom
      → OutputSystem
      → OutputDir
      → World
      → PackOutcome
  pack_inner walk run r_0 r_1 system dir w =
      let start = prepare_at walk dir w in after_prepare run r_0 r_1 system dir start.1 start.0
