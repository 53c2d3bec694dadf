-- ===== src/SafeFs.antt =====
-- crates/cipherfs-core/src/safe_fs.rs on Unix: the tree that an extraction builds below its staging
-- directory, and the files that wait in it under temporary names. A handle of a directory is its path
-- below the staging directory.
pub mod Staging
pub mod Changes
use cipher_fs.Base.Map
use cipher_fs.Errors
use cipher_fs.Operation.World.{◌>>=◌, ◌>>◌}
use cipher_fs.WindowsNames.{hex_encode, decimal_onto, hex_digit}
use cipher_fs.V2.Names.{slash, validate_name}
use cipher_fs.Errors.{bail_if, io_error, message, err, context, ok, Result}
use cipher_fs.Operation.World.{lift, Op}
use cipher_fs.Base.{
  ◌==◌, any, not, ◌%◌, ◌/◌, none, true, some, if◌then◌else◌, ◌++◌, [], ◌∷◌, ℕ_discrete, Bool, false,
  ℕ, String, Option,
}
use cipher_fs.Base.Paths.{path_discrete, PathBuf}
use cipher_fs.Base.Map.{Map}
use cipher_fs.Base.Words.{codes, Bytes}

-- What stands at a path of the tree.
pub data FsNode : Type 0 where
  dir_node : FsNode
  data_node : Bytes → FsNode

abbrev pub Tree : Type 0
Tree = Map PathBuf FsNode

-- The part of `SafeRoot` that the operations below the staging directory use, with what they have made
-- there.
pub record SafeRoot : Type 0 where
  pub directories : Map ℕ PathBuf
  pub tree : Tree

pub record PendingFile : Type 0 where
  pub parent : PathBuf
  pub temp_name : Bytes
  pub final_name : Bytes
  -- Whether the file is still open for writing.
  pub is_open : Bool

-- The path of a name in a directory.
abbrev pub join : PathBuf → Bytes → PathBuf
join parent name = parent ++ (name ∷ [])

abbrev pub temp_path : PendingFile → PathBuf
temp_path pending = join pending.parent pending.temp_name

abbrev pub final_path : PendingFile → PathBuf
final_path pending = join pending.parent pending.final_name

unfoldable pub node_at : PathBuf → Tree → Option FsNode
node_at = Map.get path_discrete

unfoldable pub set_node : PathBuf → FsNode → Tree → Tree
set_node = Map.insert path_discrete

abbrev pub is_present : Option FsNode → Bool
is_present none = false
is_present (some node) = true

abbrev pub is_dir_node : Option FsNode → Bool
is_dir_node (some dir_node) = true
is_dir_node _ = false

-- A call of the system that it may refuse.
unfoldable pub system_call : String → Op (Unit {0})
system_call text w = elim w.refusals [
  | [] ↦ (ok tt, w)
  | r ∷ rest ↦ (
    if r then err (message text ∷ io_error "system call failed" ∷ []) else ok tt,
    record w { refusals = rest },
  )
]

unfoldable pub validate_output_name : Bytes → Result (Unit {0})
validate_output_name name = validate_name name

abbrev pub directory_at : ℕ → SafeRoot → Result PathBuf
directory_at id root =
    context (Map.get ℕ_discrete id root.directories) "Parent directory has not been created"

abbrev pub with_directory : ℕ → PathBuf → SafeRoot → SafeRoot
with_directory id path root = record root {
  directories = Map.insert ℕ_discrete id path root.directories;
}

abbrev pub with_node : PathBuf → FsNode → SafeRoot → SafeRoot
with_node path node root = record root { tree = set_node path node root.tree }

unfoldable pub install_root_id : ℕ → SafeRoot → Op SafeRoot
install_root_id id root = do
  top ← lift (context (Map.get ℕ_discrete 1 root.directories) "Output root is not open")
  system_call "try_clone"
  lift (ok (with_directory id top root))

unfoldable pub create_directory : ℕ → ℕ → Bytes → SafeRoot → Op SafeRoot
create_directory id parent_id name root = do
  lift (validate_output_name name)
  parent ← lift (directory_at parent_id root)
  system_call "Unable to create output directory"
  lift (
      bail_if (is_present (node_at (join parent name) root.tree))
        "Unable to create output directory")
  let made = with_node (join parent name) dir_node root
  system_call "symlink_metadata"
  lift (
      bail_if (not (is_dir_node (node_at (join parent name) made.tree)))
        "Output directory is not a safe real directory")
  system_call "Unable to open output directory without escaping output root"
  lift (ok (with_directory id (join parent name) made))

unfoldable pub temp_name_for : ℕ → Bytes → Bytes
unfolding hex_encode
temp_name_for entry_id random =
    codes ".cipherfs-"
    ++ (decimal_onto 19 entry_id [] ++ (codes "-" ++ (hex_encode random ++ codes ".tmp")))

-- `random` is what the generator gives.
unfoldable pub begin_file : ℕ → Bytes → ℕ → Bytes → SafeRoot → Op (PendingFile × SafeRoot)
begin_file parent_id final_name entry_id random root = do
  lift (validate_output_name final_name)
  parent ← lift (directory_at parent_id root)
  lift (bail_if (is_present (node_at (join parent final_name) root.tree)) "Duplicate output entry")
  let temp_name = temp_name_for entry_id random
  system_call "Unable to create temporary output file"
  lift (
      bail_if (is_present (node_at (join parent temp_name) root.tree))
        "Unable to create temporary output file")
  system_call "try_clone"
  let pending : PendingFile = record {
    parent = parent;
    temp_name = temp_name;
    final_name = final_name;
    is_open = true;
  }
  lift (ok (pending, with_node (join parent temp_name) (data_node []) root))

abbrev pub appended : Option FsNode → Bytes → FsNode
appended (some (data_node content)) bytes = data_node (content ++ bytes)
appended _ bytes = data_node bytes

-- `writer()?.write_all(bytes)`: the bytes go behind those written before. After a failed write the
-- tree is dropped.
unfoldable pub write_all : PendingFile → Bytes → SafeRoot → Op SafeRoot
write_all pending bytes root = do
  lift (bail_if (not pending.is_open) "Temporary file is already closed")
  system_call "write failed"
  lift (
      ok (
        with_node (temp_path pending) (appended (node_at (temp_path pending) root.tree) bytes)
          root))

abbrev pub close : PendingFile → PendingFile
close pending = record pending { is_open = false }

unfoldable pub finish_writing : PendingFile → Op PendingFile
finish_writing pending =
    if pending.is_open
    then (do system_call "flush"; system_call "sync_all"; lift (ok (close pending)))
    else lift (ok pending)

-- `rename` within the tree: a file may be replaced, a folder may not, and a file gets no name with a slash
-- behind it.
unfoldable pub rename : PathBuf → PathBuf → Tree → Result Tree
rename source target tree =
    Errors.◌>>=◌ (context (node_at source tree) "Unable to install staged extracted file") λ node.
      Errors.◌>>◌
        (bail_if (is_dir_node (node_at target tree)) "Unable to install staged extracted file")
        (ok (set_node target node (Map.remove path_discrete source tree)))

-- `PendingFile::commit`
unfoldable pub commit_file : PendingFile → SafeRoot → Op SafeRoot
commit_file pending root = do
  closed ← finish_writing pending
  system_call "Unable to install staged extracted file"
  lift (bail_if (any (λ b. b == slash) closed.final_name) "Unable to install staged extracted file")
  tree ← lift (rename (temp_path closed) (final_path closed) root.tree)
  lift (ok (record root { tree = tree }))

-- `sync_open_directories`
unfoldable pub sync_open_directories : Map ℕ PathBuf → Op (Unit {0})
sync_open_directories [] = lift (ok tt)
sync_open_directories (directory ∷ directories) = do
  system_call "open"
  system_call "sync_all"
  sync_open_directories directories
