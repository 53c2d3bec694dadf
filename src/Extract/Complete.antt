-- ===== src/Extract/Complete.antt =====
-- From `extract_v2_inner` of extract.rs to the tree that stands at the destination.
use cipher_fs.Extract.Entries.{started, extract_entries-IsBuilding}
use cipher_fs.V2.Chunk.Reopening.{open_container_again}
use cipher_fs.V2.Index.Values.{validate_index_values}
use cipher_fs.V2.Index.Tree.{Member-values}
use cipher_fs.Extract.Outcome.{extract_v2_inner-eq-ok}
use cipher_fs.Pack.Build.{start_phase}
use cipher_fs.V2.Chunk.Verify.{only_files}
use cipher_fs.Base.Sort.{Member-sort_by_key, sort_by_key, All-sort_by_key}
use cipher_fs.Operation.{
  commit_started, key_derivation, OperationPhase, phase_started, extraction_tree,
  temporary_artifact,
}
use cipher_fs.V2.Chunk.Opening.{open_container_lem, open_container}
use cipher_fs.V2.Container.{Codec}
use cipher_fs.Extract.Committing.{commit_files-places, commit_files-IsExtracted}
use mathlib.Core.Path.{subst}
use cipher_fs.Extract.Building.{IsExtracted, IsPlaced, IsBuilding}
use cipher_fs.SafeFs.Staging.{AbsolutePath, ExtractDir, ExtractSystem, new_root}
use cipher_fs.Base.Paths.{PathBuf}
use cipher_fs.V2.Index.Soundness.{validate_index_names, validate_index_tree, accepted}
use cipher_fs.Operation.Progress.{ProgressTracker}
use cipher_fs.Errors.{Result, ok-inj, ok}
use cipher_fs.Extract.{
  total_extraction, extract_v2_inner, open_to_extract, sort_by_depth_id, fill_tree, commit_files,
  Extraction, extract_entries,
}
use cipher_fs.V2.Index.{values, validate_index}
use cipher_fs.Extract.Paths.{PathOf, IsNamed}
use cipher_fs.Operation.World.{file-check, file-report, check, reader, report, lift, World}
use cipher_fs.Base.Words.{Bytes}
use cipher_fs.Base.{
  All-Member, none, Option, inr, refl, inl, ◌∙◌, ap, All, [], sym, ◌≤◌, ◌≢◌, List, some, ◌≡◌,
  ℕ_discrete, ℕ,
}
use cipher_fs.V2.Types.{SlotRandom, Entry, ValidatedIndex, Index, Header}
use cipher_fs.V2.Crypto.{Crypto}
use cipher_fs.V2.Chunk.{OpenedContainer}
use cipher_fs.SafeFs.{Tree, final_path, dir_node, temp_name_for, SafeRoot, install_root_id}
use cipher_fs.V2.Index.Scanning.{IsChecked}
use cipher_fs.Base.Map
use cipher_fs.Operation.World

-- An accepted index has the names and ids that extraction relies on.
validate_index-IsNamed :
    (header : Header) (index : Index) (v : ValidatedIndex)
    → validate_index header index ≡ ok v
    → IsNamed v.entries
unfolding IsChecked
validate_index-IsNamed header index v h =
    let a = accepted header index v h in
    let kept : a.scan.entries ≡ v.entries = sym (ap (λ (w : ValidatedIndex). w.entries) a.kept) in
    record {
      filed = λ k e found. (validate_index_tree header index v k e h found).0;
      rooted = (a.rooted.0, ap (λ m. Map.get ℕ_discrete 1 m) (sym kept) ∙ a.rooted.1);
      root_directory =
          λ k e found is_root. ((validate_index_tree header index v k e h found).1.2 is_root).2;
      names = λ j k e f. validate_index_names header index v j k e f h;
    }

-- No entry has a name that the extraction draws for a temporary file.
abbrev pub HasPrivateNames : OpenedContainer → (ℕ → Bytes) → Type 0
HasPrivateNames opened random =
    (j k : ℕ) (e f : Entry)
    → Map.get ℕ_discrete j opened.index.entries ≡ some e
    → Map.get ℕ_discrete k opened.index.entries ≡ some f
    → e.name ≢ temp_name_for f.id (random f.id)

module _ (c : Crypto) (opened : OpenedContainer) (random : ℕ → Bytes)
    (named : IsNamed opened.index.entries) where
  module _ (private_names : HasPrivateNames opened random) where
    placed-IsExtracted :
        (x : Extraction) (root : SafeRoot) (w w' : World) (done : List Entry) (e : Entry)
        → IsBuilding c opened random done x
        → Map.get ℕ_discrete e.id opened.index.entries ≡ some e
        → IsPlaced c opened random x e
        → commit_files x.pending_files x.root w ≡ (ok root, w')
        → (p : PathBuf) × PathOf opened.index.entries e p × IsExtracted c opened root.tree e p
    placed-IsExtracted x root w w' done e b known (inl (p, path, held, kind)) h = (
      p,
      path,
      commit_files-IsExtracted c opened random named private_names x.pending_files x.root root w w'
          e p b.staged b.apart known path (dir_node, held, inl (kind, refl)) h,
    )
    placed-IsExtracted x root w w' done e b known (inr (q, m, path)) h = (
      final_path q,
      path,
      commit_files-places c opened random named private_names x.pending_files x.root root w w' q e
          b.staged b.apart m known path h,
    )

    fill_tree-IsExtracted :
        (codec : Codec) (batch_size : ℕ) (t : ProgressTracker) (path : Bytes) (root : SafeRoot)
        (w w' : World)
        → 1 ≤ batch_size
        → All
            (λ (e : Entry). Map.get ℕ_discrete e.id opened.index.entries ≡ some e)
            (values opened.index.entries)
        → fill_tree c codec batch_size random opened t path w ≡ (ok root, w')
        → (e : Entry) → Map.get ℕ_discrete e.id opened.index.entries ≡ some e
        → (p : PathBuf) × PathOf opened.index.entries e p × IsExtracted c opened root.tree e p
    unfolding fill_tree sort_by_depth_id
    fill_tree-IsExtracted codec batch_size t path root w w' pos known h e known_e =
        let es = sort_by_depth_id (values opened.index.entries) in
        let (_, h1, g1) =
          World.>>=-eq-ok (report (temporary_artifact extraction_tree path)) _ w h in
        let (root1, h2, g2) = World.>>=-eq-ok (install_root_id 1 new_root) _ _ g1 in
        let x : Extraction = record { pending_files = []; root = root1; tracker = t } in
        let (x', h3, g3) =
          World.>>=-eq-ok (extract_entries c opened batch_size random es x) _ _ g2 in
        let (_, h4, g4) = World.>>=-eq-ok check _ _ g3 in
        let (root2, h5, g5) = World.>>=-eq-ok (commit_files x'.pending_files x'.root) _ _ g4 in
        let (_, h6, g6) = World.>>=-eq-ok check _ _ g5 in
        let (_, h7, g7) = World.>>=-eq-ok (report (phase_started OperationPhase.commit)) _ _ g6 in
        let (_, h8, g8) = World.>>=-eq-ok (report commit_started) _ _ g7 in
        let Known : Entry → Type 0 =
          λ (f : Entry). Map.get ℕ_discrete f.id opened.index.entries ≡ some f in
        let known' =
          All-sort_by_key (λ (f : Entry). f.depth) Known
            (sort_by_key (λ (f : Entry). f.id) (values opened.index.entries))
            (All-sort_by_key (λ (f : Entry). f.id) Known (values opened.index.entries) known) in
        let b =
          extract_entries-IsBuilding c opened random named batch_size es [] x x' _ _ pos known'
            (started c opened random named t root1 _ _ h2) h3 in
        let m =
          Member-sort_by_key (λ (f : Entry). f.depth) e
            (sort_by_key (λ (f : Entry). f.id) (values opened.index.entries))
            (Member-sort_by_key (λ (f : Entry). f.id) e (values opened.index.entries)
              (Member-values e.id e opened.index.entries known_e)) in
        subst
          (λ (r : SafeRoot).
            (p : PathBuf) × PathOf opened.index.entries e p × IsExtracted c opened r.tree e p)
          (ok-inj (ap (λ r. r.0) g8))
          (placed-IsExtracted x' root2 _ _ es e b known_e
            (All-Member (IsPlaced c opened random x') e es b.placed m) h5)

module _ (c : Crypto) (codec : Codec) (password : Bytes) (r_0 r_1 : SlotRandom) where
  open_to_extract-eq-ok :
      (w w' : World) (opened : OpenedContainer) (t : ProgressTracker)
      → open_to_extract c codec password r_0 r_1 w ≡ (ok (opened, t), w')
      → open_container c codec password r_0 r_1 (reader w.file) ≡ (ok opened, reader w.file)
  unfolding open_to_extract
  open_to_extract-eq-ok w w' opened t h =
      let (_, h1, g1) = World.>>=-eq-ok check _ w h in
      let w1 = (check w).1 in
      let (_, h2, g2) = World.>>=-eq-ok (report (phase_started key_derivation)) _ w1 g1 in
      let w2 = (report (phase_started key_derivation) w1).1 in
      let (o, h3, g3) = World.>>=-eq-ok (open_container c codec password r_0 r_1) _ w2 g2 in
      let w3 = (open_container c codec password r_0 r_1 w2).1 in
      let (_, h4, g4) = World.>>=-eq-ok check _ w3 g3 in
      let w4 = (check w3).1 in
      let total = total_extraction (only_files (values o.index.entries)) 0 in
      let (n, h5, g5) = World.>>=-eq-ok (lift total) _ w4 g4 in
      let (t', h6, g6) =
        World.>>=-eq-ok (start_phase OperationPhase.extract n)
          (λ (u : ProgressTracker). lift {A = OpenedContainer × ProgressTracker} (ok (o, u))) _
          g5 in
      let same : o ≡ opened = ap (λ p. p.0) (ok-inj (ap (λ r. r.0) g6)) in
      let file : w2.file ≡ w.file = file-report (phase_started key_derivation) w1 ∙ file-check w in
      subst
        (λ (x : OpenedContainer).
          open_container c codec password r_0 r_1 (reader w.file) ≡ (ok x, reader w.file))
        same
        (open_container_again c codec password r_0 r_1 w2 w3 o h3 r_0 r_1 (reader w.file)
          (sym file))

  -- Let the password open the container, let the batches have room for a chunk, and let no entry have a
  -- name that is drawn for a temporary file. When an extraction succeeds, nothing stood at the destination
  -- before; no staging directory is left; and in the tree at the destination each entry of the index
  -- stands at its path: a directory as a directory, and a file with all its chunks in their order.
  pub extract_v2_inner_complete :
      (opened : OpenedContainer) (random : ℕ → Bytes) (requested : Option (Result AbsolutePath))
      (draws : List Bytes) (batch_size : ℕ) (system : ExtractSystem) (dir dir' : ExtractDir)
      (w w' : World)
      → open_container c codec password r_0 r_1 (reader w.file) ≡ (ok opened, reader w.file)
      → HasPrivateNames opened random
      → 1 ≤ batch_size
      → extract_v2_inner c codec password r_0 r_1 requested draws batch_size random system dir w
        ≡ (ok tt, dir', w')
      → (dir.target ≡ none)
        × (dir'.staging ≡ none)
        × (tree : Tree) × (dir'.target ≡ some tree)
        × ((k : ℕ) (e : Entry)
            → Map.get ℕ_discrete k opened.index.entries ≡ some e
            → (p : PathBuf) × PathOf opened.index.entries e p × IsExtracted c opened tree e p)
  extract_v2_inner_complete opened random requested draws batch_size system dir dir' w w' open_ok
        private_names pos h =
      let (o, t, w1, start, path, root, w0, w2, filled, (free_target, made)) =
        extract_v2_inner-eq-ok c codec requested draws batch_size random system dir password r_0 r_1
          w w' dir' h in
      let same : o ≡ opened =
        ok-inj (ap (λ r. r.0) (sym (open_to_extract-eq-ok w w1 o t start) ∙ open_ok)) in
      let filled' =
        subst
          (λ (x : OpenedContainer). fill_tree c codec batch_size random x t path w0 ≡ (ok root, w2))
          same filled in
      let (_, _, (index, valid), _, _, _) =
        open_container_lem c codec password r_0 r_1 (reader w.file) (reader w.file) opened
          open_ok in
      let named = validate_index-IsNamed opened.header index opened.index valid in
      (
        free_target,
        ap (λ (d : ExtractDir). d.staging) made,
        root.tree,
        ap (λ (d : ExtractDir). d.target) made,
        λ k e found.
            fill_tree-IsExtracted c opened random named private_names codec batch_size t path root
              w0 w2 pos (validate_index_values opened.header index opened.index valid) filled' e
              (subst (λ j. Map.get ℕ_discrete j opened.index.entries ≡ some e)
                (sym (named.filed k e found)) found),
      )
