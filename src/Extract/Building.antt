-- ===== src/Extract/Building.antt =====
-- The loop over the entries in extract.rs: what stands in the staging tree and waits in it.
use cipher_fs.Errors.{ok}
use mathlib.Core.Path.{subst}
use cipher_fs.Extract.Contents.{file_plaintext, IsWritten}
use cipher_fs.Extract.Paths.{PathOf}
use cipher_fs.V2.Index.{is_directory}
use cipher_fs.Extract.{Extraction}
use cipher_fs.V2.Types.{Entry}
use cipher_fs.Base.Map.{Map}
use cipher_fs.Base.{
  ap, ◌∙◌, All-snoc, false, sym, inr, ◌++◌, ◌⊎◌, some_ne_none, inl, ◌≢◌, [], true, Member, All, ◌∷◌,
  ℕ_discrete, none, some, ◌≡◌, List, ℕ,
}
use cipher_fs.V2.Chunk.{OpenedContainer}
use cipher_fs.Base.Words.{Bytes}
use cipher_fs.Base.Paths.{path_discrete, PathBuf}
use cipher_fs.V2.Crypto.{Crypto}
use cipher_fs.SafeFs.{
  temp_name_for, data_node, dir_node, final_path, with_node, temp_path, SafeRoot, FsNode, set_node,
  PendingFile, node_at, Tree,
}
use cipher_fs.Base.Map

-- What stood in the tree still stands in it.
abbrev pub Grows : Tree → Tree → Type 0
Grows tree tree' =
    (p : PathBuf) (node : FsNode) → node_at p tree ≡ some node → node_at p tree' ≡ some node

pub set_node-Grows :
    (p : PathBuf) (node : FsNode) (tree : Tree)
    → node_at p tree ≡ none
    → Grows tree (set_node p node tree)
unfolding node_at set_node
set_node-Grows p node tree fresh = λ q n held.
    Map.get-insert_ne path_discrete p q node tree
      (λ same. some_ne_none (sym held ∙ subst (λ r. node_at r tree ≡ none) same fresh))
    ∙ held

pub IsWritten-Grows :
    (pending : PendingFile) (content : Bytes) (root middle root' : SafeRoot)
    → node_at (temp_path pending) root.tree ≡ none
    → with_node (temp_path pending) (data_node []) root ≡ middle
    → IsWritten pending content middle root'
    → Grows root.tree root'.tree
IsWritten-Grows pending content root middle root' fresh made written = λ q n held.
    let p = temp_path pending in
    let ne : p ≢ q =
      λ same. some_ne_none (sym held ∙ subst (λ r. node_at r root.tree ≡ none) same fresh) in
    written.others q ne
    ∙ ap (λ (r : SafeRoot). node_at q r.tree) (sym made)
    ∙ set_node-Grows p (data_node []) root.tree fresh q n held

module _ (c : Crypto) (opened : OpenedContainer) where
  -- The node that an entry describes: for a file, all its chunks in order.
  abbrev pub Holds : Entry → FsNode → Type 0
  Holds e node =
      ((is_directory e.kind ≡ true) × (node ≡ dir_node))
      ⊎ ((is_directory e.kind ≡ false)
          × (content : Bytes) × (file_plaintext c opened e 0 e.chunk_count ≡ ok content)
          × (node ≡ data_node content))

  -- The node of an entry stands in the tree.
  abbrev pub IsExtracted : Tree → Entry → PathBuf → Type 0
  IsExtracted tree e p = (node : FsNode) × (node_at p tree ≡ some node) × Holds e node

module _ (c : Crypto) (opened : OpenedContainer) (random : ℕ → Bytes) where
  -- A file that waits under its temporary name with all its content.
  pub record IsStaged (tree : Tree) (q : PendingFile) : Type 0 where
    pub entry : Entry
    pub known : Map.get ℕ_discrete entry.id opened.index.entries ≡ some entry
    pub path : PathOf opened.index.entries entry (final_path q)
    pub named : q.temp_name ≡ temp_name_for entry.id (random entry.id)
    pub node : FsNode
    pub held : node_at (temp_path q) tree ≡ some node
    pub whole : Holds c opened entry node

  pub IsStaged-Grows :
      (tree tree' : Tree) (q : PendingFile) → Grows tree tree' → IsStaged tree q → IsStaged tree' q
  IsStaged-Grows tree tree' q grows s = record {
    entry = s.entry;
    known = s.known;
    path = s.path;
    named = s.named;
    node = s.node;
    held = grows (temp_path q) s.node s.held;
    whole = s.whole;
  }

  abbrev pub HaveOwnTemps : List PendingFile → Type 0
  HaveOwnTemps [] = Unit
  HaveOwnTemps (q ∷ qs) = All (λ (r : PendingFile). temp_path q ≢ temp_path r) qs × HaveOwnTemps qs

  pub HaveOwnTemps-snoc :
      (qs : List PendingFile) (q : PendingFile)
      → HaveOwnTemps qs
      → All (λ (r : PendingFile). temp_path r ≢ temp_path q) qs
      → HaveOwnTemps (qs ++ (q ∷ []))
  HaveOwnTemps-snoc [] q apart new = (tt, tt)
  HaveOwnTemps-snoc (r ∷ qs) q apart new = (
    All-snoc (λ (s : PendingFile). temp_path r ≢ temp_path s) qs q apart.0 new.0,
    HaveOwnTemps-snoc qs q apart.1 new.1,
  )

  -- An entry whose directory stands, or whose file waits.
  abbrev pub IsPlaced : Extraction → Entry → Type 0
  IsPlaced x e =
      ((path : PathBuf) × PathOf opened.index.entries e path
        × (node_at path x.root.tree ≡ some dir_node)
        × (is_directory e.kind ≡ true))
      ⊎ ((q : PendingFile) × Member q x.pending_files
          × PathOf opened.index.entries e (final_path q))

  pub IsPlaced-Grows :
      (x y : Extraction) (e : Entry)
      → Grows x.root.tree y.root.tree
      → ((q : PendingFile) → Member q x.pending_files → Member q y.pending_files)
      → IsPlaced x e
      → IsPlaced y e
  IsPlaced-Grows x y e grows more (inl (p, path, held, kind)) =
      inl (p, path, grows p dir_node held, kind)
  IsPlaced-Grows x y e grows more (inr (q, m, path)) = inr (q, more q m, path)

  -- The state of the loop after the entries of `done`.
  pub record IsBuilding (done : List Entry) (x : Extraction) : Type 0 where
    pub directories :
        (i : ℕ) (p : PathBuf)
        → Map.get ℕ_discrete i x.root.directories ≡ some p
        → (d : Entry) × (Map.get ℕ_discrete i opened.index.entries ≡ some d)
          × PathOf opened.index.entries d p
    pub top : node_at [] x.root.tree ≡ some dir_node
    pub staged : All (IsStaged x.root.tree) x.pending_files
    pub apart : HaveOwnTemps x.pending_files
    pub placed : All (IsPlaced x) done
