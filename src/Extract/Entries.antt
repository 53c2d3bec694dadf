-- ===== src/Extract/Entries.antt =====
-- The loop over the entries in extract.rs: its start, and the rounds as the code runs them.
use mathlib.Core.Bool.{false≢true}
use cipher_fs.Extract.Contents.{file_plaintext, extract_batches-IsWritten}
use cipher_fs.SafeFs.Changes.{
  finish_writing-IsSameFile, begun, begin_file-IsFileBegun, create_directory-IsDirectoryMade,
}
use cipher_fs.Extract.Rounds.{file_round, root_round, directory_round}
use mathlib.Core.Path.{subst}
use cipher_fs.V2.Index.{is_directory}
use cipher_fs.Extract.Building.{IsBuilding}
use cipher_fs.SafeFs.Staging.{new_root}
use cipher_fs.Operation.Progress.{ProgressTracker}
use cipher_fs.Base.Paths.{path_discrete, PathBuf}
use cipher_fs.Errors.{ok-inj, context-eq-ok, context, ok}
use cipher_fs.V2.Types.{Entry}
use cipher_fs.Extract.{
  extract_batches, extract_entry, extract_file, extract_directory, Extraction, extract_entries,
}
use cipher_fs.Operation.World.{check, lift, World}
use cipher_fs.Extract.Paths.{root_path, IsNamed}
use cipher_fs.Base.Words.{Bytes}
use cipher_fs.Base.{
  ◌-◌, inr, ==_iff, refl, inl, arith, ◌==◌, ◌∙◌, sym, Bool-cases, ap, false, true, ◌∷◌, some-inj,
  ◌++◌, ◌≢◌, [], All, ◌≤◌, some, ℕ_discrete, ◌≡◌, List, ℕ,
}
use cipher_fs.V2.Chunk.{OpenedContainer}
use cipher_fs.SafeFs.{
  finish_writing, begin_file, create_directory, system_call, set_node, with_directory, node_at,
  SafeRoot, install_root_id,
}
use cipher_fs.V2.Crypto.{Crypto}
use cipher_fs.Base.Map
use cipher_fs.Operation.World
use mathlib.Core.List.{append-nil, append_assoc}

module _ (c : Crypto) (opened : OpenedContainer) (random : ℕ → Bytes)
    (named : IsNamed opened.index.entries) (done : List Entry) (e : Entry)
    (known : Map.get ℕ_discrete e.id opened.index.entries ≡ some e) where
  module _ (batch_size : ℕ) (pos : 1 ≤ batch_size) where
    extract_directory-IsBuilding :
        (x x' : Extraction) (w w' : World)
        → IsBuilding c opened random done x
        → e.id ≢ 1
        → is_directory e.kind ≡ true
        → extract_directory c opened e x w ≡ (ok x', w')
        → IsBuilding c opened random (done ++ (e ∷ [])) x'
    unfolding extract_directory
    extract_directory-IsBuilding x x' w w' b below kind h =
        let (root, h1, g1) =
          World.>>=-eq-ok (create_directory e.id e.parent_id e.name x.root) _ w h in
        subst (IsBuilding c opened random (done ++ (e ∷ []))) (ok-inj (ap (λ r. r.0) g1)) (
          directory_round c opened random named done e known x root b below kind
            (create_directory-IsDirectoryMade e.id e.parent_id e.name x.root root w _ h1))

    extract_file-IsBuilding :
        (x x' : Extraction) (w w' : World)
        → IsBuilding c opened random done x
        → e.id ≢ 1
        → is_directory e.kind ≡ false
        → extract_file c opened batch_size random e x w ≡ (ok x', w')
        → IsBuilding c opened random (done ++ (e ∷ [])) x'
    unfolding extract_file node_at set_node
    extract_file-IsBuilding x x' w w' b below kind h =
        let (out, h1, g1) =
          World.>>=-eq-ok (begin_file e.parent_id e.name e.id (random e.id) x.root) _ w h in
        let pending = out.0 in
        let middle = out.1 in
        let (out', h2, g2) =
          World.>>=-eq-ok
            (extract_batches c opened e.chunk_count e batch_size 0 pending middle x.tracker) _ _
            g1 in
        let (closed, h3, g3) = World.>>=-eq-ok (finish_writing pending) _ _ g2 in
        let f =
          begin_file-IsFileBegun e.parent_id e.name e.id (random e.id) x.root pending middle w _
            h1 in
        let held = begun f in
        let (content, plain, written) =
          extract_batches-IsWritten c opened e.chunk_count e batch_size 0 pending [] middle out'.0
            x.tracker out'.1 _ _ pos (omega arith) (omega arith) held h2 in
        let all : e.chunk_count - 0 ≡ e.chunk_count = omega arith in
        subst (IsBuilding c opened random (done ++ (e ∷ []))) (ok-inj (ap (λ r. r.0) g3)) (
          file_round c opened random named done e known x pending closed middle out'.0 out'.1
            content b below kind f
            (subst (λ n. file_plaintext c opened e 0 n ≡ ok content) all plain) written
            (finish_writing-IsSameFile pending closed _ _ h3))

    -- A round that succeeds keeps what the loop has built, and adds its entry.
    extract_entry-IsBuilding :
        (x x' : Extraction) (w w' : World)
        → IsBuilding c opened random done x
        → extract_entry c opened batch_size random e x w ≡ (ok x', w')
        → IsBuilding c opened random (done ++ (e ∷ [])) x'
    unfolding extract_entry
    extract_entry-IsBuilding x x' w w' b h =
        let (_, h1, g1) = World.>>=-eq-ok check _ w h in
        let w1 = (check w).1 in
        elim (Bool-cases (e.id == 1)) [
          | inl r ↦
              let k : lift {A = Extraction} (ok x) w1 ≡ (ok x', w') = rw r at g1 in
              subst (IsBuilding c opened random (done ++ (e ∷ []))) (ok-inj (ap (λ r. r.0) k))
                (root_round c opened random named done e known x b ((==_iff e.id 1).0 r))
          | inr r ↦
              let below : e.id ≢ 1 = λ same. false≢true (sym r ∙ (==_iff e.id 1).1 same) in
              elim (Bool-cases (is_directory e.kind)) [
                | inl d ↦
                    let k : extract_directory c opened e x w1 ≡ (ok x', w') = rw (r, d) at g1 in
                    extract_directory-IsBuilding x x' w1 w' b below d k
                | inr d ↦
                    let k : extract_file c opened batch_size random e x w1 ≡ (ok x', w') =
                      rw (r, d) at g1 in
                    extract_file-IsBuilding x x' w1 w' b below d k
              ]
        ]

install_root_id-eq-ok :
    (id : ℕ) (root root' : SafeRoot) (w w' : World)
    → install_root_id id root w ≡ (ok root', w')
    → (top : PathBuf) × (Map.get ℕ_discrete 1 root.directories ≡ some top)
      × (with_directory id top root ≡ root')
unfolding install_root_id
install_root_id-eq-ok id root root' w w' h =
    let (top, h1, g1) =
      World.>>=-eq-ok
        (lift (context (Map.get ℕ_discrete 1 root.directories) "Output root is not open")) _ w h in
    let (_, h2, g2) = World.>>=-eq-ok (system_call "try_clone") _ _ g1 in
    (top, context-eq-ok _ _ (ap (λ r. r.0) h1), ok-inj (ap (λ r. r.0) g2))

module _ (c : Crypto) (opened : OpenedContainer) (random : ℕ → Bytes)
    (named : IsNamed opened.index.entries) where
  pub started :
      (t : ProgressTracker) (root : SafeRoot) (w w' : World)
      → install_root_id 1 new_root w ≡ (ok root, w')
      → IsBuilding c opened random [] (record { pending_files = []; root = root; tracker = t })
  unfolding Map.get Map.insert node_at ℕ_discrete path_discrete
  started t root w w' h =
      let (top, found, made) = install_root_id-eq-ok 1 new_root root w w' h in
      let (d, known) = named.rooted in
      let at_top : [] ≡ top = some-inj found in
      let made' : with_directory 1 [] new_root ≡ root =
        ap (λ p. with_directory 1 p new_root) at_top ∙ made in
      let built : IsBuilding c opened random []
          (record { pending_files = []; root = with_directory 1 [] new_root; tracker = t }) =
        record {
          directories = λ i p at_i. elim (ℕ_discrete 1 i) [
            | yes same ↦ (
              d,
              subst (λ k. Map.get ℕ_discrete k opened.index.entries ≡ some d) same known,
              root_path (named.filed 1 d known) (ground (arith, at_i)),
            )
            | no ne ↦ absurd (ground (arith, at_i))
          ];
          top = refl;
          staged = tt;
          apart = tt;
          placed = tt;
        } in
      subst
        (λ (r : SafeRoot).
          IsBuilding c opened random [] (record { pending_files = []; root = r; tracker = t }))
        made' built

  pub extract_entries-IsBuilding :
      (batch_size : ℕ) (es done : List Entry) (x x' : Extraction) (w w' : World)
      → 1 ≤ batch_size
      → All (λ (e : Entry). Map.get ℕ_discrete e.id opened.index.entries ≡ some e) es
      → IsBuilding c opened random done x
      → extract_entries c opened batch_size random es x w ≡ (ok x', w')
      → IsBuilding c opened random (done ++ es) x'
  unfolding extract_entries
  extract_entries-IsBuilding batch_size [] done x x' w w' pos known b h =
      subst (IsBuilding c opened random (done ++ [])) (ok-inj (ap (λ r. r.0) h))
        (subst (λ es. IsBuilding c opened random es x) (sym (append-nil done)) b)
  extract_entries-IsBuilding batch_size (e ∷ es) done x x' w w' pos known b h =
      let (y, h1, g1) = World.>>=-eq-ok (extract_entry c opened batch_size random e x) _ w h in
      let b' =
        extract_entry-IsBuilding c opened random named done e known.0 batch_size pos x y w _ b h1 in
      subst (λ done. IsBuilding c opened random done x') (append_assoc done (e ∷ []) es)
        (extract_entries-IsBuilding batch_size es (done ++ (e ∷ [])) y x' _ w' pos known.1 b' g1)
