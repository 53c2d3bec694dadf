-- ===== src/Extract.antt =====
-- crates/cipherfs-core/src/extract.rs: a container's files are decrypted in batches into a staging tree,
-- which is then installed at the destination.
pub mod Outcome
pub mod Contents
pub mod Fuel
pub mod Paths
pub mod Building
pub mod Rounds
pub mod Entries
pub mod Committing
pub mod Complete
use cipher_fs.Base.Orders.{range}
use cipher_fs.V2.Chunk.Verify.{only_files}
use cipher_fs.V2.Chunk.Opening.{open_container}
use cipher_fs.V2.Index.{values, is_directory}
use cipher_fs.Operation.{
  commit_started, OperationPhase, extraction_tree, key_derivation, temporary_artifact,
  phase_started,
}
use cipher_fs.Errors
use cipher_fs.Operation.World.{report, check, ◌>>=◌, ◌>>◌}
use cipher_fs.SafeFs.Staging.{
  new_root, build_tree, choose_staging, ExtractOutcome, ExtractDir, ExtractSystem,
}
use cipher_fs.SafeFs.Staging.{AbsolutePath}
use cipher_fs.Pack.Build.{start_phase}
use cipher_fs.Operation.World.{World, lift, Op}
use cipher_fs.Operation.Progress.{advance, ProgressTracker}
use cipher_fs.Base.Sort.{sort_by_key}
use cipher_fs.Errors.{with_context, context, err, ok, Result}
use cipher_fs.V2.Container.{Codec}
use cipher_fs.V2.Chunk.{decrypt_chunk, OpenedContainer}
use cipher_fs.V2.Types.{SlotRandom, Entry}
use cipher_fs.V2.Crypto.{Crypto}
use cipher_fs.Base.Words.{checked_add, Bytes}
use cipher_fs.SafeFs.{
  install_root_id, finish_writing, commit_file, create_directory, begin_file, write_all, SafeRoot,
  PendingFile,
}
use cipher_fs.Base.{
  ◌++◌, length, ◌==◌, ◌-◌, ◌+◌, min, ltb, if◌then◌else◌, zero, suc, Option, ◌∷◌, [], ℕ, List,
}

-- `try_fold` of the sizes.
unfoldable pub total_extraction : List Entry → ℕ → Result ℕ
total_extraction [] sum = ok sum
total_extraction (e ∷ es) sum =
    Errors.◌>>=◌ (context (checked_add sum e.size) "Total extraction size overflow")
      (total_extraction es)

-- `sort_by_key` on `(depth, id)`, as two stable sorts.
unfoldable pub sort_by_depth_id : List Entry → List Entry
sort_by_depth_id es = sort_by_key (λ (e : Entry). e.depth) (sort_by_key (λ (e : Entry). e.id) es)

-- The files that wait under temporary names, the tree and the progress.
pub record Extraction : Type 0 where
  pub pending_files : List PendingFile
  pub root : SafeRoot
  pub tracker : ProgressTracker

-- The chunks of one batch are written one behind the other.
unfoldable pub write_chunks :
    PendingFile → List Bytes → SafeRoot → ProgressTracker → Op (SafeRoot × ProgressTracker)
write_chunks pending [] root t = lift (ok (root, t))
write_chunks pending (plaintext ∷ chunks) root t = do
  root' ← write_all pending plaintext root
  report (advance (length plaintext) t).1
  write_chunks pending chunks root' (advance (length plaintext) t).0

abbrev pub cons_chunk : Bytes → List Bytes → List Bytes
cons_chunk chunk chunks = chunk ∷ chunks

module _ (c : Crypto) (opened : OpenedContainer) where
  -- The calls of the parallel loop for the chunks of one batch.
  unfoldable pub decrypt_batch : Entry → List ℕ → Op (List Bytes)
  decrypt_batch entry [] = lift (ok [])
  decrypt_batch entry (chunk_index ∷ rest) = do
    check
    chunk ←
        lift (with_context (decrypt_chunk c opened entry chunk_index) "Chunk failed authentication")
    chunks ← decrypt_batch entry rest
    lift (ok (cons_chunk chunk chunks))

  -- One round of the loop over the batches.
  unfoldable pub extract_batch :
      Entry → ℕ → ℕ → PendingFile → SafeRoot → ProgressTracker → Op (SafeRoot × ProgressTracker)
  unfolding decrypt_batch write_chunks
  extract_batch entry batch_start batch_end pending root t = do
    check
    chunks ← decrypt_batch entry (range batch_start (batch_end - batch_start))
    write_chunks pending chunks root t

  -- `while batch_start < entry.chunk_count`, on fuel; each round that is not the last advances.
  unfoldable pub extract_batches :
      ℕ → Entry → ℕ → ℕ → PendingFile → SafeRoot → ProgressTracker → Op (SafeRoot × ProgressTracker)
  unfolding extract_batch
  extract_batches zero entry batch_size batch_start pending root t = lift (ok (root, t))
  extract_batches (suc fuel) entry batch_size batch_start pending root t =
      if ltb batch_start entry.chunk_count
      then (do
        let batch_end = min entry.chunk_count (batch_start + batch_size)
        (root', t') ← extract_batch entry batch_start batch_end pending root t
        extract_batches fuel entry batch_size batch_end pending root' t')
      else lift (ok (root, t))

  -- `batch_size` is `ordered_batch_size`, and `random` gives the bytes drawn for an entry's temporary name.
  unfoldable pub extract_file : ℕ → (ℕ → Bytes) → Entry → Extraction → Op Extraction
  unfolding extract_batches
  extract_file batch_size random entry x = do
    (pending, root) ← begin_file entry.parent_id entry.name entry.id (random entry.id) x.root
    (root', t) ← extract_batches entry.chunk_count entry batch_size 0 pending root x.tracker
    closed ← finish_writing pending
    lift (
        ok (record { pending_files = x.pending_files ++ (closed ∷ []); root = root'; tracker = t }))

  unfoldable pub extract_directory : Entry → Extraction → Op Extraction
  extract_directory entry x = do
    root ← create_directory entry.id entry.parent_id entry.name x.root
    lift (ok (record x { root = root }))

  -- One round of the loop over the entries.
  unfoldable pub extract_entry : ℕ → (ℕ → Bytes) → Entry → Extraction → Op Extraction
  unfolding extract_file extract_directory
  extract_entry batch_size random entry x = do
    check
    if entry.id == 1
        then lift (ok x)
        else if is_directory entry.kind
        then extract_directory entry x
        else extract_file batch_size random entry x

  unfoldable pub extract_entries : ℕ → (ℕ → Bytes) → List Entry → Extraction → Op Extraction
  unfolding extract_entry
  extract_entries batch_size random [] x = lift (ok x)
  extract_entries batch_size random (entry ∷ entries) x = do
    x' ← extract_entry batch_size random entry x
    extract_entries batch_size random entries x'

unfoldable pub commit_files : List PendingFile → SafeRoot → Op SafeRoot
commit_files [] root = lift (ok root)
commit_files (pending ∷ pending_files) root = do
  root' ← commit_file pending root
  commit_files pending_files root'

module _ (c : Crypto) (codec : Codec) where
  -- Up to `open_new_at`.
  unfoldable pub open_to_extract :
      Bytes → SlotRandom → SlotRandom → Op (OpenedContainer × ProgressTracker)
  unfolding total_extraction start_phase
  open_to_extract password r_0 r_1 = do
    check
    report (phase_started key_derivation)
    opened ← open_container c codec password r_0 r_1
    check
    total ← lift (total_extraction (only_files (values opened.index.entries)) 0)
    t ← start_phase OperationPhase.extract total
    lift (ok (opened, t))

  -- From the empty staging directory to the finished tree in it.
  unfoldable pub fill_tree :
      ℕ → (ℕ → Bytes) → OpenedContainer → ProgressTracker → Bytes → Op SafeRoot
  unfolding sort_by_depth_id extract_entries commit_files
  fill_tree batch_size random opened t path = do
    report (temporary_artifact extraction_tree path)
    root ← install_root_id 1 new_root
    let x : Extraction = record { pending_files = []; root = root; tracker = t }
    x' ←
        extract_entries c opened batch_size random (sort_by_depth_id (values opened.index.entries))
          x
    check
    root' ← commit_files x'.pending_files x'.root
    check
    report (phase_started OperationPhase.commit)
    report commit_started
    lift (ok root')

  unfoldable pub after_opening :
      Option (Result AbsolutePath)
      → List Bytes
      → ℕ
      → (ℕ → Bytes)
      → ExtractSystem
      → ExtractDir
      → World
      → Result (OpenedContainer × ProgressTracker)
      → ExtractOutcome
  after_opening requested draws batch_size random system dir w (err e) = (err e, dir, w)
  after_opening requested draws batch_size random system dir w (ok (opened, t)) =
      let chosen = choose_staging system requested draws w in
      build_tree (fill_tree batch_size random opened t) system dir chosen.1 chosen.0

  unfoldable pub extract_v2_inner :
      Bytes
      → SlotRandom
      → SlotRandom
      → Option (Result AbsolutePath)
      → List Bytes
      → ℕ
      → (ℕ → Bytes)
      → ExtractSystem
      → ExtractDir
      → World
      → ExtractOutcome
  extract_v2_inner password r_0 r_1 requested draws batch_size random system dir w =
      let start = open_to_extract password r_0 r_1 w in
      after_opening requested draws batch_size random system dir start.1 start.0
