-- ===== src/Extract/Outcome.antt =====
-- What an extraction leaves: `SafeRoot` of safe_fs.rs around the loops of extract.rs.
use cipher_fs.Operation.Progress.{ProgressTracker}
use cipher_fs.V2.Chunk.{OpenedContainer}
use cipher_fs.V2.Types.{SlotRandom}
use cipher_fs.Extract.{fill_tree, open_to_extract, extract_v2_inner, after_opening}
use cipher_fs.Base.Words.{Bytes}
use cipher_fs.Operation.World.{Op, World}
use cipher_fs.Base.{ℕ, refl, List, inr, inl, sym, ap, ◌⊎◌, some, arith, Option, none, ◌≡◌, ◌≢◌}
use cipher_fs.V2.Container.{Codec}
use cipher_fs.SafeFs.{system_call, sync_open_directories, SafeRoot, Tree}
use cipher_fs.V2.Crypto.{Crypto}
use cipher_fs.SafeFs.Staging.{
  AbsolutePath, choose_staging, create_staging, drop_staging, new_root, commit_root, build_tree,
  after_create_dir, after_open_dir, after_filling, after_sync, after_install, ExtractSystem,
  ExtractDir, rename_directory_no_replace,
}
use cipher_fs.Errors.{Result, ok, err}
use cipher_fs.Errors

err_ne_ok : {A : Type 0} {e : Errors.Error} {a : A} → err e ≢ ok a
err_ne_ok = λ h. cc

free :
    (system : ExtractSystem) (dir : ExtractDir) {u : Unit {0}}
    → rename_directory_no_replace system dir ≡ ok u
    → dir.target ≡ none
unfolding rename_directory_no_replace
free system dir h = ground arith

-- Another process has not been overwritten, and the staging path holds what it held before, nothing, or
-- the new directory that could not be opened.
abbrev pub IsRefused : ExtractDir → ExtractDir → Type 0
IsRefused dir dir' =
    (dir'.target ≡ dir.target)
    × ((dir'.staging ≡ none) ⊎ (dir'.staging ≡ dir.staging) ⊎ (dir'.staging ≡ some new_root.tree))

-- The destination was free, and has the tree now.
abbrev pub IsInstalled : ExtractDir → Tree → ExtractDir → Type 0
IsInstalled dir tree dir' =
    (dir.target ≡ none) × (dir' ≡ record { target = some tree; staging = none })

module _ (system : ExtractSystem) (dir : ExtractDir) where
  after_install-eq-ok :
      (tree : Tree) (w w' : World) (dir' : ExtractDir) (r : Result (Unit {0}))
      → rename_directory_no_replace system dir ≡ r
      → after_install system dir tree w r ≡ (ok tt, dir', w')
      → IsInstalled dir tree dir'
  unfolding after_install
  after_install-eq-ok tree w w' dir' (err e) p h = absurd (err_ne_ok (ap (λ r. r.0) h))
  after_install-eq-ok tree w w' dir' (ok u) p h = (free system dir p, sym (ap (λ r. r.1) h))

  after_install-eq-err :
      (tree : Tree) (w w' : World) (dir' : ExtractDir) (r : Result (Unit {0})) (e : Errors.Error)
      → after_install system dir tree w r ≡ (err e, dir', w')
      → dir' ≡ drop_staging dir
  unfolding after_install
  after_install-eq-err tree w w' dir' (err _) e h = sym (ap (λ r. r.1) h)
  after_install-eq-err tree w w' dir' (ok u) e h = absurd (err_ne_ok (sym (ap (λ r. r.0) h)))

  after_sync-eq-ok :
      (tree : Tree) (w w' : World) (dir' : ExtractDir) (r : Result (Unit {0}))
      → after_sync system dir tree w r ≡ (ok tt, dir', w')
      → IsInstalled dir tree dir'
  unfolding after_sync
  after_sync-eq-ok tree w w' dir' (err e) h = absurd (err_ne_ok (ap (λ r. r.0) h))
  after_sync-eq-ok tree w w' dir' (ok u) h =
      after_install-eq-ok tree w w' dir' (rename_directory_no_replace system dir) refl h

  after_sync-eq-err :
      (tree : Tree) (w w' : World) (dir' : ExtractDir) (r : Result (Unit {0})) (e : Errors.Error)
      → after_sync system dir tree w r ≡ (err e, dir', w')
      → dir' ≡ drop_staging dir
  unfolding after_sync
  after_sync-eq-err tree w w' dir' (err _) e h = sym (ap (λ r. r.1) h)
  after_sync-eq-err tree w w' dir' (ok u) e h =
      after_install-eq-err tree w w' dir' (rename_directory_no_replace system dir) e h

  after_filling-eq-ok :
      (w w' : World) (dir' : ExtractDir) (r : Result SafeRoot)
      → after_filling system dir w r ≡ (ok tt, dir', w')
      → (root : SafeRoot) × (r ≡ ok root) × IsInstalled dir root.tree dir'
  unfolding after_filling commit_root
  after_filling-eq-ok w w' dir' (err e) h = absurd (err_ne_ok (ap (λ r. r.0) h))
  after_filling-eq-ok w w' dir' (ok root) h =
      let synced = sync_open_directories root.directories w in
      (root, refl, after_sync-eq-ok root.tree synced.1 w' dir' synced.0 h)

  after_filling-eq-err :
      (w w' : World) (dir' : ExtractDir) (r : Result SafeRoot) (e : Errors.Error)
      → after_filling system dir w r ≡ (err e, dir', w')
      → dir' ≡ drop_staging dir
  unfolding after_filling commit_root
  after_filling-eq-err w w' dir' (err _) e h = sym (ap (λ r. r.1) h)
  after_filling-eq-err w w' dir' (ok root) e h =
      let synced = sync_open_directories root.directories w in
      after_sync-eq-err root.tree synced.1 w' dir' synced.0 e h

  after_open_dir-eq-ok :
      (filling : Op SafeRoot) (w w' : World) (dir' : ExtractDir) (r : Result (Unit {0}))
      → after_open_dir filling system dir w r ≡ (ok tt, dir', w')
      → (root : SafeRoot) × (w2 : World) × (filling w ≡ (ok root, w2))
        × IsInstalled dir root.tree dir'
  unfolding after_open_dir
  after_open_dir-eq-ok filling w w' dir' (err e) h = absurd (err_ne_ok (ap (λ r. r.0) h))
  after_open_dir-eq-ok filling w w' dir' (ok u) h =
      let (root, q, made) = after_filling-eq-ok (filling w).1 w' dir' (filling w).0 h in
      (root, (filling w).1, ap (λ r. (r, (filling w).1)) q, made)

  after_open_dir-eq-err :
      (filling : Op SafeRoot) (w w' : World) (dir' : ExtractDir) (r : Result (Unit {0}))
      (e : Errors.Error)
      → after_open_dir filling system dir w r ≡ (err e, dir', w')
      → (dir' ≡ dir) ⊎ (dir' ≡ drop_staging dir)
  unfolding after_open_dir
  after_open_dir-eq-err filling w w' dir' (err _) e h = inl (sym (ap (λ r. r.1) h))
  after_open_dir-eq-err filling w w' dir' (ok u) e h =
      inr (after_filling-eq-err (filling w).1 w' dir' (filling w).0 e h)

module _ (system : ExtractSystem) (dir : ExtractDir) where
  after_create_dir-eq-ok :
      (filling : Op SafeRoot) (w w' : World) (dir' : ExtractDir) (r : Result (Unit {0}))
      → after_create_dir filling system dir w r ≡ (ok tt, dir', w')
      → (root : SafeRoot) × (w0 : World) × (w2 : World) × (filling w0 ≡ (ok root, w2))
        × IsInstalled dir root.tree dir'
  unfolding after_create_dir
  after_create_dir-eq-ok filling w w' dir' (err e) h = absurd (err_ne_ok (ap (λ r. r.0) h))
  after_create_dir-eq-ok filling w w' dir' (ok u) h =
      let opening = system_call "Unable to open extraction staging directory" w in
      let (root, w2, filled, (free_target, made)) =
        after_open_dir-eq-ok system (record dir { staging = some new_root.tree }) filling opening.1
          w' dir' opening.0 h in
      (root, opening.1, w2, filled, (free_target, made))

  after_create_dir-eq-err :
      (filling : Op SafeRoot) (w w' : World) (dir' : ExtractDir) (r : Result (Unit {0}))
      (e : Errors.Error)
      → after_create_dir filling system dir w r ≡ (err e, dir', w')
      → IsRefused dir dir'
  unfolding after_create_dir
  after_create_dir-eq-err filling w w' dir' (err _) e h =
      let same = sym (ap (λ r. r.1) h) in
      (ap (λ (d : ExtractDir). d.target) same, inr (inl (ap (λ (d : ExtractDir). d.staging) same)))
  after_create_dir-eq-err filling w w' dir' (ok u) e h =
      let opening = system_call "Unable to open extraction staging directory" w in
      elim (after_open_dir-eq-err system (record dir { staging = some new_root.tree }) filling
        opening.1 w' dir' opening.0 e h) [
          | inl same ↦ (
            ap (λ (d : ExtractDir). d.target) same,
            inr (inr (ap (λ (d : ExtractDir). d.staging) same)),
          )
          | inr same ↦ (
            ap (λ (d : ExtractDir). d.target) same,
            inl (ap (λ (d : ExtractDir). d.staging) same),
          )
        ]

  build_tree-eq-ok :
      (filling : Bytes → Op SafeRoot) (w w' : World) (dir' : ExtractDir) (r : Result Bytes)
      → build_tree filling system dir w r ≡ (ok tt, dir', w')
      → (path : Bytes) × (root : SafeRoot) × (w0 : World) × (w2 : World) × (filling path w0
          ≡ (ok root, w2))
        × IsInstalled dir root.tree dir'
  unfolding build_tree
  build_tree-eq-ok filling w w' dir' (err e) h = absurd (err_ne_ok (ap (λ r. r.0) h))
  build_tree-eq-ok filling w w' dir' (ok path) h =
      let made = create_staging dir w in
      let (root, w0, w2, filled, installed) =
        after_create_dir-eq-ok (filling path) made.1 w' dir' made.0 h in
      (path, root, w0, w2, filled, installed)

  build_tree-eq-err :
      (filling : Bytes → Op SafeRoot) (w w' : World) (dir' : ExtractDir) (r : Result Bytes)
      (e : Errors.Error)
      → build_tree filling system dir w r ≡ (err e, dir', w')
      → IsRefused dir dir'
  unfolding build_tree
  build_tree-eq-err filling w w' dir' (err _) e h =
      let same = sym (ap (λ r. r.1) h) in
      (ap (λ (d : ExtractDir). d.target) same, inr (inl (ap (λ (d : ExtractDir). d.staging) same)))
  build_tree-eq-err filling w w' dir' (ok path) e h =
      let made = create_staging dir w in
      after_create_dir-eq-err (filling path) made.1 w' dir' made.0 e h

module _ (c : Crypto) (codec : Codec) (requested : Option (Result AbsolutePath))
    (draws : List Bytes) (batch_size : ℕ) (random : ℕ → Bytes) (system : ExtractSystem)
    (dir : ExtractDir) where
  after_opening-eq-ok :
      (w w' : World) (dir' : ExtractDir) (r : Result (OpenedContainer × ProgressTracker))
      → after_opening c codec requested draws batch_size random system dir w r ≡ (ok tt, dir', w')
      → (opened : OpenedContainer) × (t : ProgressTracker) × (r ≡ ok (opened, t))
        × (path : Bytes) × (root : SafeRoot) × (w0 : World) × (w2 : World) × (fill_tree c codec
              batch_size random opened t path w0
            ≡ (ok root, w2))
        × IsInstalled dir root.tree dir'
  unfolding after_opening
  after_opening-eq-ok w w' dir' (err e) h = absurd (err_ne_ok (ap (λ r. r.0) h))
  after_opening-eq-ok w w' dir' (ok (opened, t)) h =
      let chosen = choose_staging system requested draws w in
      let (path, root, w0, w2, filled, installed) =
        build_tree-eq-ok system dir (fill_tree c codec batch_size random opened t) chosen.1 w' dir'
          chosen.0 h in
      (opened, t, refl, path, root, w0, w2, filled, installed)

  after_opening-eq-err :
      (w w' : World) (dir' : ExtractDir) (r : Result (OpenedContainer × ProgressTracker))
      (e : Errors.Error)
      → after_opening c codec requested draws batch_size random system dir w r ≡ (err e, dir', w')
      → IsRefused dir dir'
  unfolding after_opening
  after_opening-eq-err w w' dir' (err _) e h =
      let same = sym (ap (λ r. r.1) h) in
      (ap (λ (d : ExtractDir). d.target) same, inr (inl (ap (λ (d : ExtractDir). d.staging) same)))
  after_opening-eq-err w w' dir' (ok (opened, t)) e h =
      let chosen = choose_staging system requested draws w in
      build_tree-eq-err system dir (fill_tree c codec batch_size random opened t) chosen.1 w' dir'
        chosen.0 e h

  module _ (password : Bytes) (r_0 r_1 : SlotRandom) where
    pub extract_v2_inner-eq-ok :
        (w w' : World) (dir' : ExtractDir)
        → extract_v2_inner c codec password r_0 r_1 requested draws batch_size random system dir w
          ≡ (ok tt, dir', w')
        → (opened : OpenedContainer) × (t : ProgressTracker) × (w1 : World) × (open_to_extract c
              codec password r_0 r_1 w
            ≡ (ok (opened, t), w1))
          × (path : Bytes) × (root : SafeRoot) × (w0 : World) × (w2 : World) × (fill_tree c codec
                batch_size random opened t path w0
              ≡ (ok root, w2))
          × IsInstalled dir root.tree dir'
    unfolding extract_v2_inner
    extract_v2_inner-eq-ok w w' dir' h =
        let start = open_to_extract c codec password r_0 r_1 w in
        let (opened, t, q, path, root, w0, w2, filled, installed) =
          after_opening-eq-ok start.1 w' dir' start.0 h in
        (opened, t, start.1, ap (λ r. (r, start.1)) q, path, root, w0, w2, filled, installed)

    -- When an extraction fails at any point, the destination holds what other processes put there, and the
    -- staging path holds nothing, what it held before, or an empty directory: no part of the extracted
    -- tree stays.
    pub extract_v2_inner-IsRefused :
        (w w' : World) (dir' : ExtractDir) (e : Errors.Error)
        → extract_v2_inner c codec password r_0 r_1 requested draws batch_size random system dir w
          ≡ (err e, dir', w')
        → IsRefused dir dir'
    unfolding extract_v2_inner
    extract_v2_inner-IsRefused w w' dir' e h =
        let start = open_to_extract c codec password r_0 r_1 w in
        after_opening-eq-err start.1 w' dir' start.0 e h
