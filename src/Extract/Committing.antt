-- ===== src/Extract/Committing.antt =====
-- The end of extract.rs: the files that wait get their names.
use mathlib.Core.Path.{subst}
use cipher_fs.Errors.{ok-inj, ok}
use cipher_fs.Operation.World.{World}
use cipher_fs.SafeFs.Changes.{commit_file-IsFileMoved, IsFileMoved}
use cipher_fs.Extract.Building.{IsExtracted, HaveOwnTemps, Holds, IsStaged}
use cipher_fs.Base.Paths.{path_discrete, PathBuf}
use cipher_fs.Extract.{commit_files}
use cipher_fs.SafeFs.{
  commit_file, temp_path, final_path, SafeRoot, set_node, PendingFile, node_at, Tree, temp_name_for,
}
use cipher_fs.V2.Types.{Entry}
use cipher_fs.Extract.Paths.{PathOf-inj, PathOf-apart, PathOf, IsNamed}
use cipher_fs.Base.Words.{Bytes}
use cipher_fs.Base.{
  inl, [], some-inj, inr, ◌∙◌, Member, ◌∷◌, sym, ap, All, List, ◌≢◌, some, ◌≡◌, ℕ_discrete, ℕ,
}
use cipher_fs.V2.Chunk.{OpenedContainer}
use cipher_fs.V2.Crypto.{Crypto}
use cipher_fs.Base.Map
use cipher_fs.Operation.World

module _ (c : Crypto) (opened : OpenedContainer) (random : ℕ → Bytes)
    (named : IsNamed opened.index.entries)
    (private_names : (j k : ℕ) (e f : Entry)
      → Map.get ℕ_discrete j opened.index.entries ≡ some e
      → Map.get ℕ_discrete k opened.index.entries ≡ some f
      → e.name ≢ temp_name_for f.id (random f.id)) where
  -- A temporary path is no entry's path.
  temp_apart :
      (tree : Tree) (q : PendingFile) (e : Entry) (p : PathBuf)
      → IsStaged c opened random tree q
      → Map.get ℕ_discrete e.id opened.index.entries ≡ some e
      → PathOf opened.index.entries e p
      → temp_path q ≢ p
  temp_apart tree q e p s known path =
      PathOf-apart opened.index.entries named e p q.parent q.temp_name
        (λ same. private_names e.id s.entry.id e s.entry known s.known (same ∙ s.named)) path

  -- A file is moved away from under no other entry.
  moved_elsewhere :
      (q : PendingFile) (root root' : SafeRoot) (p : PathBuf)
      → IsFileMoved q root root'
      → final_path q ≢ p
      → temp_path q ≢ p
      → node_at p root'.tree ≡ node_at p root.tree
  unfolding node_at set_node
  moved_elsewhere q root root' p m final temp =
      ap (λ t. node_at p t) (sym m.moved)
      ∙ Map.get-insert_ne path_discrete (final_path q) p m.node
          (Map.remove path_discrete (temp_path q) root.tree) final
      ∙ Map.get-remove_ne path_discrete (temp_path q) p root.tree temp

  moved_here :
      (q : PendingFile) (root root' : SafeRoot)
      → (s : IsStaged c opened random root.tree q) → IsFileMoved q root root'
      → node_at (final_path q) root'.tree ≡ some s.node
  unfolding node_at set_node
  moved_here q root root' s m =
      ap (λ t. node_at (final_path q) t) (sym m.moved)
      ∙ Map.get-insert_self path_discrete (final_path q) m.node
          (Map.remove path_discrete (temp_path q) root.tree)
      ∙ sym m.found
      ∙ s.held

  IsStaged-still :
      (q : PendingFile) (root root' : SafeRoot) (qs : List PendingFile)
      → IsStaged c opened random root.tree q
      → IsFileMoved q root root'
      → All (λ (r : PendingFile). temp_path q ≢ temp_path r) qs
      → All (IsStaged c opened random root.tree) qs
      → All (IsStaged c opened random root'.tree) qs
  IsStaged-still q root root' [] s m apart all = tt
  IsStaged-still q root root' (r ∷ qs) s m apart all =
      let t = all.0 in
      let final : final_path q ≢ temp_path r =
        λ same. temp_apart root.tree r s.entry (final_path q) t s.known s.path (sym same) in
      (
        record {
          entry = t.entry;
          known = t.known;
          path = t.path;
          named = t.named;
          node = t.node;
          held = moved_elsewhere q root root' (temp_path r) m final apart.0 ∙ t.held;
          whole = t.whole;
        },
        IsStaged-still q root root' qs s m apart.1 all.1,
      )

  moved_keeps :
      (q : PendingFile) (root root' : SafeRoot) (e : Entry) (p : PathBuf)
      → IsStaged c opened random root.tree q
      → IsFileMoved q root root'
      → Map.get ℕ_discrete e.id opened.index.entries ≡ some e
      → PathOf opened.index.entries e p
      → IsExtracted c opened root.tree e p
      → IsExtracted c opened root'.tree e p
  moved_keeps q root root' e p s m known path (node, held, holds) =
      elim (path_discrete (final_path q) p) [
        | yes same ↦
            let ids =
              PathOf-inj opened.index.entries named s.entry e p s.known known
                (subst (PathOf opened.index.entries s.entry) same s.path) path in
            let entries : s.entry ≡ e =
              some-inj
                (sym s.known ∙ ap (λ k. Map.get ℕ_discrete k opened.index.entries) ids ∙ known) in
            (
              s.node,
              ap (λ r. node_at r root'.tree) (sym same) ∙ moved_here q root root' s m,
              subst (λ x. Holds c opened x s.node) entries s.whole,
            )
        | no ne ↦ (
          node,
          moved_elsewhere q root root' p m ne (temp_apart root.tree q e p s known path) ∙ held,
          holds,
        )
      ]

  pub commit_files-IsExtracted :
      (qs : List PendingFile) (root root' : SafeRoot) (w w' : World) (e : Entry) (p : PathBuf)
      → All (IsStaged c opened random root.tree) qs
      → HaveOwnTemps c opened random qs
      → Map.get ℕ_discrete e.id opened.index.entries ≡ some e
      → PathOf opened.index.entries e p
      → IsExtracted c opened root.tree e p
      → commit_files qs root w ≡ (ok root', w')
      → IsExtracted c opened root'.tree e p
  unfolding commit_files
  commit_files-IsExtracted [] root root' w w' e p staged apart known path x h =
      subst (λ (r : SafeRoot). IsExtracted c opened r.tree e p) (ok-inj (ap (λ r. r.0) h)) x
  commit_files-IsExtracted (q ∷ qs) root root' w w' e p staged apart known path x h =
      let (next, h1, g1) = World.>>=-eq-ok (commit_file q root) _ w h in
      let m = commit_file-IsFileMoved q root next w _ h1 in
      commit_files-IsExtracted qs next root' _ w' e p
        (IsStaged-still q root next qs staged.0 m apart.0 staged.1) apart.1 known path
        (moved_keeps q root next e p staged.0 m known path x) g1

  pub commit_files-places :
      (qs : List PendingFile) (root root' : SafeRoot) (w w' : World) (q : PendingFile) (e : Entry)
      → All (IsStaged c opened random root.tree) qs
      → HaveOwnTemps c opened random qs
      → Member q qs
      → Map.get ℕ_discrete e.id opened.index.entries ≡ some e
      → PathOf opened.index.entries e (final_path q)
      → commit_files qs root w ≡ (ok root', w')
      → IsExtracted c opened root'.tree e (final_path q)
  unfolding commit_files
  commit_files-places [] root root' w w' q e staged apart m known path h = elim m [ ]
  commit_files-places (r ∷ qs) root root' w w' q e staged apart (inr m) known path h =
      let (next, h1, g1) = World.>>=-eq-ok (commit_file r root) _ w h in
      let moved = commit_file-IsFileMoved r root next w _ h1 in
      commit_files-places qs next root' _ w' q e
        (IsStaged-still r root next qs staged.0 moved apart.0 staged.1) apart.1 m known path g1
  commit_files-places (r ∷ qs) root root' w w' q e staged apart (inl same) known path h =
      let (next, h1, g1) = World.>>=-eq-ok (commit_file r root) _ w h in
      let moved = commit_file-IsFileMoved r root next w _ h1 in
      let s = staged.0 in
      let finals : final_path q ≡ final_path r = ap (λ (x : PendingFile). final_path x) same in
      let ids =
        PathOf-inj opened.index.entries named s.entry e (final_path r) s.known known s.path
          (subst (PathOf opened.index.entries e) finals path) in
      let entries : s.entry ≡ e =
        some-inj (sym s.known ∙ ap (λ k. Map.get ℕ_discrete k opened.index.entries) ids ∙ known) in
      commit_files-IsExtracted qs next root' _ w' e (final_path q)
        (IsStaged-still r root next qs s moved apart.0 staged.1) apart.1 known path
        (
          s.node,
          ap (λ p. node_at p next.tree) finals ∙ moved_here r root next s moved,
          subst (λ x. Holds c opened x s.node) entries s.whole,
        )
        g1
