-- ===== src/Extract/Rounds.antt =====
-- Each round of the loop over the entries in extract.rs keeps what the loop has built.
use mathlib.Core.Path.{ap₂, subst}
use cipher_fs.Extract.Contents.{IsWritten, file_plaintext}
use cipher_fs.Errors.{ok}
use cipher_fs.SafeFs.Changes.{IsSameFile, IsFileBegun, IsDirectoryMade}
use cipher_fs.V2.Index.{is_directory}
use cipher_fs.Operation.Progress.{ProgressTracker}
use cipher_fs.Base.Paths.{path_discrete, PathBuf}
use cipher_fs.Extract.Building.{
  HaveOwnTemps-snoc, IsWritten-Grows, set_node-Grows, IsPlaced-Grows, IsStaged-Grows, IsBuilding,
  IsPlaced, IsStaged, Grows,
}
use cipher_fs.V2.Types.{Entry}
use cipher_fs.Extract.{Extraction}
use cipher_fs.SafeFs.{
  final_path, data_node, temp_name_for, dir_node, with_node, with_directory, join, temp_path,
  set_node, SafeRoot, node_at, PendingFile, Tree,
}
use cipher_fs.Extract.Paths.{root_path, below_path, PathOf, IsNamed}
use cipher_fs.Base.Words.{Bytes}
use cipher_fs.Base.{
  Member-append_right, Member-append_left, inr, some-inj, ap, refl, ◌∙◌, inl, sym, All-snoc, false,
  some_ne_none, true, [], ◌++◌, ◌≢◌, none, ◌∷◌, some, ◌≡◌, Member, All, ℕ_discrete, List, ℕ,
}
use cipher_fs.V2.Chunk.{OpenedContainer}
use cipher_fs.V2.Crypto.{Crypto}
use cipher_fs.Base.Map

module _ (c : Crypto) (opened : OpenedContainer) (random : ℕ → Bytes)
    (named : IsNamed opened.index.entries) where
  All-IsStaged-Grows :
      (tree tree' : Tree) (qs : List PendingFile)
      → Grows tree tree'
      → All (IsStaged c opened random tree) qs
      → All (IsStaged c opened random tree') qs
  All-IsStaged-Grows tree tree' [] grows all = tt
  All-IsStaged-Grows tree tree' (q ∷ qs) grows all = (
    IsStaged-Grows c opened random tree tree' q grows all.0,
    All-IsStaged-Grows tree tree' qs grows all.1,
  )

  All-IsPlaced-Grows :
      (x y : Extraction) (es : List Entry)
      → Grows x.root.tree y.root.tree
      → ((q : PendingFile) → Member q x.pending_files → Member q y.pending_files)
      → All (IsPlaced c opened random x) es
      → All (IsPlaced c opened random y) es
  All-IsPlaced-Grows x y [] grows more all = tt
  All-IsPlaced-Grows x y (e ∷ es) grows more all = (
    IsPlaced-Grows c opened random x y e grows more all.0,
    All-IsPlaced-Grows x y es grows more all.1,
  )

  module _ (done : List Entry) (e : Entry)
      (known : Map.get ℕ_discrete e.id opened.index.entries ≡ some e) where
    -- The path of an entry whose parent's directory is open.
    path_below :
        (x : Extraction) (parent : PathBuf)
        → IsBuilding c opened random done x
        → e.id ≢ 1
        → Map.get ℕ_discrete e.parent_id x.root.directories ≡ some parent
        → PathOf opened.index.entries e (join parent e.name)
    path_below x parent b below found =
        let (d, known_d, path_d) = b.directories e.parent_id parent found in
        below_path below known_d path_d refl

    pub directory_round :
        (x : Extraction) (root' : SafeRoot)
        → IsBuilding c opened random done x
        → e.id ≢ 1
        → is_directory e.kind ≡ true
        → IsDirectoryMade e.id e.parent_id e.name x.root root'
        → IsBuilding c opened random (done ++ (e ∷ [])) (record x { root = root' })
    unfolding node_at set_node
    directory_round x root' b below kind m =
        let path = join m.parent e.name in
        let root1 = with_directory e.id path (with_node path dir_node x.root) in
        let path_e = path_below x m.parent b below m.found in
        let grows = set_node-Grows path dir_node x.root.tree m.fresh in
        let y : Extraction = record x { root = root1 } in
        let here : node_at path y.root.tree ≡ some dir_node =
          Map.get-insert_self path_discrete path dir_node x.root.tree in
        let built : IsBuilding c opened random (done ++ (e ∷ [])) y = record {
          directories = λ i p found. elim (ℕ_discrete e.id i) [
            | yes same ↦ (
              e,
              subst (λ k. Map.get ℕ_discrete k opened.index.entries ≡ some e) same known,
              subst (PathOf opened.index.entries e)
                  (some-inj (
                    sym (Map.get-insert_self ℕ_discrete e.id path x.root.directories)
                    ∙ subst
                        (λ k.
                          Map.get ℕ_discrete k (Map.insert ℕ_discrete e.id path x.root.directories)
                          ≡ some p)
                        (sym same) found))
                  path_e,
            )
            | no ne ↦
                b.directories i p
                  (sym (Map.get-insert_ne ℕ_discrete e.id i path x.root.directories ne) ∙ found)
          ];
          top = grows [] dir_node b.top;
          staged = All-IsStaged-Grows x.root.tree y.root.tree x.pending_files grows b.staged;
          apart = b.apart;
          placed =
              All-snoc (IsPlaced c opened random y) done e
                (All-IsPlaced-Grows x y done grows (λ q m. m) b.placed)
                (inl (path, path_e, here, kind));
        } in
        subst
          (λ (r : SafeRoot). IsBuilding c opened random (done ++ (e ∷ [])) (record x { root = r }))
          m.made built

    All-fresh :
        (tree : Tree) (p : PathBuf) (qs : List PendingFile)
        → node_at p tree ≡ none
        → All (IsStaged c opened random tree) qs
        → All (λ (r : PendingFile). temp_path r ≢ p) qs
    All-fresh tree p [] fresh all = tt
    All-fresh tree p (q ∷ qs) fresh all = (
      λ same. some_ne_none (sym all.0.held ∙ ap (λ r. node_at r tree) same ∙ fresh),
      All-fresh tree p qs fresh all.1,
    )

    pub file_round :
        (x : Extraction) (pending closed : PendingFile) (middle root' : SafeRoot)
        (t : ProgressTracker) (content : Bytes)
        → IsBuilding c opened random done x
        → e.id ≢ 1
        → is_directory e.kind ≡ false
        → IsFileBegun e.parent_id e.name e.id (random e.id) x.root pending middle
        → file_plaintext c opened e 0 e.chunk_count ≡ ok content
        → IsWritten pending content middle root'
        → IsSameFile pending closed
        → IsBuilding c opened random
            (done ++ (e ∷ []))
            (record { pending_files = x.pending_files ++ (closed ∷ []); root = root'; tracker = t })
    file_round x pending closed middle root' t content b below kind f plain written same =
        let temp = temp_name_for e.id (random e.id) in
        let at_parent : pending.parent ≡ f.parent =
          ap (λ (p : PendingFile). p.parent) f.is_pending in
        let at_temp : pending.temp_name ≡ temp =
          ap (λ (p : PendingFile). p.temp_name) f.is_pending in
        let at_final : pending.final_name ≡ e.name =
          ap (λ (p : PendingFile). p.final_name) f.is_pending in
        let p_temp : temp_path pending ≡ join f.parent temp = ap₂ join at_parent at_temp in
        let fresh : node_at (temp_path pending) x.root.tree ≡ none =
          ap (λ p. node_at p x.root.tree) p_temp ∙ f.fresh in
        let made : with_node (temp_path pending) (data_node []) x.root ≡ middle =
          ap (λ p. with_node p (data_node []) x.root) p_temp ∙ f.made in
        let grows = IsWritten-Grows pending content x.root middle root' fresh made written in
        let y : Extraction = record {
          pending_files = x.pending_files ++ (closed ∷ []);
          root = root';
          tracker = t;
        } in
        let closed_temp : temp_path closed ≡ temp_path pending =
          ap₂ join same.same_parent same.same_temp in
        let closed_final : join f.parent e.name ≡ final_path closed =
          sym (ap₂ join (same.same_parent ∙ at_parent) (same.same_final ∙ at_final)) in
        let path =
          subst (PathOf opened.index.entries e) closed_final
            (path_below x f.parent b below f.found) in
        let directories : root'.directories ≡ x.root.directories =
          written.same_directories ∙ ap (λ (r : SafeRoot). r.directories) (sym made) in
        let staged : IsStaged c opened random root'.tree closed = record {
          entry = e;
          known = known;
          path = path;
          named = same.same_temp ∙ at_temp;
          node = data_node content;
          held = ap (λ p. node_at p root'.tree) closed_temp ∙ written.held;
          whole = inr (kind, content, plain, refl);
        } in
        record {
          directories = λ i p found.
              b.directories i p (sym (ap (λ m. Map.get ℕ_discrete i m) directories) ∙ found);
          top = grows [] dir_node b.top;
          staged =
              All-snoc (IsStaged c opened random root'.tree) x.pending_files closed
                (All-IsStaged-Grows x.root.tree root'.tree x.pending_files grows b.staged) staged;
          apart = HaveOwnTemps-snoc c opened random x.pending_files closed b.apart (
              All-fresh x.root.tree (temp_path closed) x.pending_files
                (ap (λ p. node_at p x.root.tree) closed_temp ∙ fresh) b.staged);
          placed =
              All-snoc (IsPlaced c opened random y) done e
                (All-IsPlaced-Grows x y done grows
                  (λ q m. Member-append_left q x.pending_files (closed ∷ []) m) b.placed)
                (inr (
                  closed,
                  Member-append_right closed x.pending_files (closed ∷ []) (inl refl),
                  path,
                ));
        }

    -- The root of the index, which the loop passes over.
    pub root_round :
        (x : Extraction)
        → IsBuilding c opened random done x
        → e.id ≡ 1
        → IsBuilding c opened random (done ++ (e ∷ [])) x
    root_round x b is_root = record {
      directories = b.directories;
      top = b.top;
      staged = b.staged;
      apart = b.apart;
      placed =
          All-snoc (IsPlaced c opened random x) done e b.placed
            (inl ([], root_path is_root refl, b.top, named.root_directory e.id e known is_root));
    }
