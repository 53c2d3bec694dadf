-- ===== src/SafeFs/Changes.antt =====
-- What each operation of safe_fs.rs changes when it succeeds.
use cipher_fs.V2.Names.{slash}
use mathlib.Core.Path.{ap₂, subst}
use mathlib.Core.Bool.{false≢true}
use cipher_fs.Base.Paths.{path_discrete, PathBuf}
use cipher_fs.Errors.{bail_if-eq-ok, context-eq-ok, context, bail_if, ok-inj, ok}
use cipher_fs.Base.Words.{Bytes}
use cipher_fs.SafeFs.{
  data_node, dir_node, is_dir_node, temp_name_for, with_directory, set_node, join, final_path,
  appended, directory_at, temp_path, close, with_node, validate_output_name, node_at, is_present,
  rename, SafeRoot, system_call, FsNode, commit_file, finish_writing, PendingFile, write_all,
  begin_file, create_directory,
}
use cipher_fs.Base.{
  ◌==◌, any, ◌⊎◌, if◌then◌else◌, ◌∙◌, Bool, [], true, refl, inr, not, sym, inl, some, ap, none,
  ℕ_discrete, false, ◌≡◌, ℕ, Option,
}
use cipher_fs.Base.Map
use cipher_fs.Errors
use cipher_fs.Operation.World
use cipher_fs.Operation.World.{lift, World, ◌>>=◌, ◌>>◌}

is_present-eq-false : (node : Option FsNode) → is_present node ≡ false → node ≡ none
is_present-eq-false none h = refl
is_present-eq-false (some node) h = absurd (false≢true (sym h))

lifted : {A : Type 0} {a b : A} {w w' : World} → lift (ok a) w ≡ (ok b, w') → a ≡ b
lifted h = ok-inj (ap (λ r. r.0) h)

-- A path that was free is a directory now, under the given id.
pub record IsDirectoryMade (id parent_id : ℕ) (name : Bytes) (root root' : SafeRoot) : Type 0 where
  pub parent : PathBuf
  pub found : Map.get ℕ_discrete parent_id root.directories ≡ some parent
  pub fresh : node_at (join parent name) root.tree ≡ none
  pub made :
      with_directory id (join parent name) (with_node (join parent name) dir_node root) ≡ root'

pub create_directory-IsDirectoryMade :
    (id parent_id : ℕ) (name : Bytes) (root root' : SafeRoot) (w w' : World)
    → create_directory id parent_id name root w ≡ (ok root', w')
    → IsDirectoryMade id parent_id name root root'
unfolding create_directory
create_directory-IsDirectoryMade id parent_id name root root' w w' h =
    let (_, h1, g1) = World.>>=-eq-ok (lift (validate_output_name name)) _ w h in
    let (parent, h2, g2) = World.>>=-eq-ok (lift (directory_at parent_id root)) _ _ g1 in
    let (_, h3, g3) = World.>>=-eq-ok (system_call "Unable to create output directory") _ _ g2 in
    let path = join parent name in
    let (_, h4, g4) =
      World.>>=-eq-ok
        (lift (bail_if (is_present (node_at path root.tree)) "Unable to create output directory")) _
        _ g3 in
    let (_, h5, g5) = World.>>=-eq-ok (system_call "symlink_metadata") _ _ g4 in
    let (_, h6, g6) =
      World.>>=-eq-ok
        (lift (
          bail_if (not (is_dir_node (node_at path (with_node path dir_node root).tree)))
            "Output directory is not a safe real directory"))
        _ _ g5 in
    let (_, h7, g7) =
      World.>>=-eq-ok (system_call "Unable to open output directory without escaping output root") _
        _ g6 in
    record {
      parent = parent;
      found = context-eq-ok _ _ (ap (λ r. r.0) h2);
      fresh = is_present-eq-false (node_at path root.tree) (bail_if-eq-ok _ _ (ap (λ r. r.0) h4));
      made = lifted g7;
    }

-- A file without bytes stands under a temporary name that was free.
pub record IsFileBegun (parent_id : ℕ) (final_name : Bytes) (entry_id : ℕ) (random : Bytes)
    (root : SafeRoot) (pending : PendingFile) (root' : SafeRoot) : Type 0 where
  pub parent : PathBuf
  pub found : Map.get ℕ_discrete parent_id root.directories ≡ some parent
  pub fresh : node_at (join parent (temp_name_for entry_id random)) root.tree ≡ none
  pub is_pending : pending ≡ record {
    parent = parent;
    temp_name = temp_name_for entry_id random;
    final_name = final_name;
    is_open = true;
  }
  pub made : with_node (join parent (temp_name_for entry_id random)) (data_node []) root ≡ root'

pub begin_file-IsFileBegun :
    (parent_id : ℕ) (final_name : Bytes) (entry_id : ℕ) (random : Bytes) (root : SafeRoot)
    (pending : PendingFile) (root' : SafeRoot) (w w' : World)
    → begin_file parent_id final_name entry_id random root w ≡ (ok (pending, root'), w')
    → IsFileBegun parent_id final_name entry_id random root pending root'
unfolding begin_file
begin_file-IsFileBegun parent_id final_name entry_id random root pending root' w w' h =
    let (_, h1, g1) = World.>>=-eq-ok (lift (validate_output_name final_name)) _ w h in
    let (parent, h2, g2) = World.>>=-eq-ok (lift (directory_at parent_id root)) _ _ g1 in
    let (_, h3, g3) =
      World.>>=-eq-ok
        (lift (
          bail_if (is_present (node_at (join parent final_name) root.tree))
            "Duplicate output entry"))
        _ _ g2 in
    let (_, h4, g4) =
      World.>>=-eq-ok (system_call "Unable to create temporary output file") _ _ g3 in
    let path = join parent (temp_name_for entry_id random) in
    let (_, h5, g5) =
      World.>>=-eq-ok
        (lift
          (bail_if (is_present (node_at path root.tree)) "Unable to create temporary output file"))
        _ _ g4 in
    let (_, h6, g6) = World.>>=-eq-ok (system_call "try_clone") _ _ g5 in
    let same = lifted g6 in
    record {
      parent = parent;
      found = context-eq-ok _ _ (ap (λ r. r.0) h2);
      fresh = is_present-eq-false (node_at path root.tree) (bail_if-eq-ok _ _ (ap (λ r. r.0) h5));
      is_pending = sym (ap (λ p. p.0) same);
      made = ap (λ p. p.1) same;
    }

pub write_all-eq-ok :
    (pending : PendingFile) (bytes : Bytes) (root root' : SafeRoot) (w w' : World)
    → write_all pending bytes root w ≡ (ok root', w')
    → with_node (temp_path pending) (appended (node_at (temp_path pending) root.tree) bytes) root
      ≡ root'
unfolding write_all
write_all-eq-ok pending bytes root root' w w' h =
    let (_, h1, g1) =
      World.>>=-eq-ok (lift (bail_if (not pending.is_open) "Temporary file is already closed")) _ w
        h in
    let (_, h2, g2) = World.>>=-eq-ok (system_call "write failed") _ _ g1 in lifted g2

-- The same file, open or closed.
pub record IsSameFile (pending closed : PendingFile) : Type 0 where
  pub same_parent : closed.parent ≡ pending.parent
  pub same_temp : closed.temp_name ≡ pending.temp_name
  pub same_final : closed.final_name ≡ pending.final_name

closing :
    (pending closed : PendingFile) (w w' : World) (b : Bool)
    → (if b
          then (do system_call "flush"; system_call "sync_all"; lift (ok (close pending)))
          else lift (ok pending))
        w
      ≡ (ok closed, w')
    → (close pending ≡ closed) ⊎ (pending ≡ closed)
closing pending closed w w' true h =
    let (_, h1, g1) = World.>>=-eq-ok (system_call "flush") _ w h in
    let (_, h2, g2) = World.>>=-eq-ok (system_call "sync_all") _ _ g1 in inl (lifted g2)
closing pending closed w w' false h = inr (lifted h)

pub finish_writing-IsSameFile :
    (pending closed : PendingFile) (w w' : World)
    → finish_writing pending w ≡ (ok closed, w')
    → IsSameFile pending closed
unfolding finish_writing
finish_writing-IsSameFile pending closed w w' h =
    elim (closing pending closed w w' pending.is_open h) [
      | inl same ↦ record {
        same_parent = sym (ap (λ (p : PendingFile). p.parent) same);
        same_temp = sym (ap (λ (p : PendingFile). p.temp_name) same);
        same_final = sym (ap (λ (p : PendingFile). p.final_name) same);
      }
      | inr same ↦ record {
        same_parent = sym (ap (λ (p : PendingFile). p.parent) same);
        same_temp = sym (ap (λ (p : PendingFile). p.temp_name) same);
        same_final = sym (ap (λ (p : PendingFile). p.final_name) same);
      }
    ]

-- The node has moved from the temporary path to the final path.
pub record IsFileMoved (pending : PendingFile) (root root' : SafeRoot) : Type 0 where
  pub node : FsNode
  pub found : node_at (temp_path pending) root.tree ≡ some node
  pub moved :
      set_node (final_path pending) node (Map.remove path_discrete (temp_path pending) root.tree)
      ≡ root'.tree

pub commit_file-IsFileMoved :
    (pending : PendingFile) (root root' : SafeRoot) (w w' : World)
    → commit_file pending root w ≡ (ok root', w')
    → IsFileMoved pending root root'
unfolding commit_file rename
commit_file-IsFileMoved pending root root' w w' h =
    let (closed, h1, g1) = World.>>=-eq-ok (finish_writing pending) _ w h in
    let (_, h2, g2) =
      World.>>=-eq-ok (system_call "Unable to install staged extracted file") _ _ g1 in
    let (_, hs, gs) =
      World.>>=-eq-ok
        (lift (
          bail_if (any (λ b. b == slash) closed.final_name)
            "Unable to install staged extracted file"))
        _ _ g2 in
    let (tree, h3, g3) =
      World.>>=-eq-ok (lift (rename (temp_path closed) (final_path closed) root.tree)) _ _ gs in
    let (node, found, h4) =
      Errors.>>=-eq-ok
        (context (node_at (temp_path closed) root.tree) "Unable to install staged extracted file") _
        (ap (λ r. r.0) h3) in
    let (_, made) =
      Errors.>>-eq-ok
        (bail_if (is_dir_node (node_at (final_path closed) root.tree))
          "Unable to install staged extracted file")
        _ h4 in
    let same = finish_writing-IsSameFile pending closed w _ h1 in
    let temp = ap₂ join same.same_parent same.same_temp in
    let final = ap₂ join same.same_parent same.same_final in
    let here : tree ≡ root'.tree = ap (λ (r : SafeRoot). r.tree) (lifted g3) in
    record {
      node = node;
      found = subst (λ p. node_at p root.tree ≡ some node) temp (context-eq-ok _ _ found);
      moved =
          ap₂ (λ f t. set_node f node (Map.remove path_discrete t root.tree)) (sym final) (sym temp)
          ∙ ok-inj made
          ∙ here;
    }

-- The new file is empty.
pub begun :
    {parent_id : ℕ} {final_name : Bytes} {entry_id : ℕ} {random : Bytes} {root : SafeRoot}
    {pending : PendingFile} {root' : SafeRoot}
    → IsFileBegun parent_id final_name entry_id random root pending root'
    → node_at (temp_path pending) root'.tree ≡ some (data_node [])
unfolding node_at set_node
begun {entry_id = entry_id} {random = random} {root = root} {pending = pending} {root' = root'} f =
    let p = join f.parent (temp_name_for entry_id random) in
    let same : temp_path pending ≡ p = ap (λ (q : PendingFile). temp_path q) f.is_pending in
    ap (λ q. node_at q root'.tree) same
    ∙ ap (λ (r : SafeRoot). node_at p r.tree) (sym f.made)
    ∙ Map.get-insert_self path_discrete p (data_node []) root.tree
