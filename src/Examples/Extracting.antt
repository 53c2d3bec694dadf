-- ===== src/Examples/Extracting.antt =====
-- An extraction of the container of one file, and one whose destination appears while it runs.
use cipher_fs.Operation.{OperationPhase}
use cipher_fs.Extract.Fuel.{extract_batches_fuel}
use cipher_fs.WindowsNames.{hex_encode, decimal_onto}
use cipher_fs.Extract.Building.{IsExtracted}
use cipher_fs.Extract.Paths.{PathOf}
use cipher_fs.Examples.Containers.{hello_opens, hello_container, numbered, hello_file}
use cipher_fs.Operation.Progress.{ProgressTracker, advance}
use cipher_fs.V2.Chunk.{chunk_offset, decrypt_chunk}
use cipher_fs.Base.Paths.{path_text, PathBuf, path_discrete}
use cipher_fs.Pack.Build.{start_phase}
use cipher_fs.V2.Chunk.Verify.{only_files}
use cipher_fs.Base.Sort.{sort_by_key}
use cipher_fs.V2.Names.{validate_name}
use cipher_fs.V2.Index.{validate_index}
use cipher_fs.V2.Crypto.{derive_file_key, derive_index_key, decrypt_aead, derive_kek}
use cipher_fs.V2.Keys.{unlock}
use cipher_fs.V2.Limits.{encrypted_file_size, validate_argon2, validate_header_basic}
use cipher_fs.V2.Container.{read_header}
use cipher_fs.Examples.Chunks.{hello_entry, hello}
use cipher_fs.V2.Chunk.Opening.{open_container}
use cipher_fs.Examples.Slots.{noise, old_password}
use cipher_fs.V2.Types.{Entry}
use cipher_fs.Examples.{toy}
use cipher_fs.Base.Words.{bytes_eq, codes, Bytes}
use cipher_fs.Extract.Outcome.{extract_v2_inner-IsRefused, IsRefused}
use cipher_fs.Errors.{Result, err, message, ok, Error}
use cipher_fs.Extract.Complete.{extract_v2_inner_complete, HasPrivateNames}
use cipher_fs.Extract.{
  commit_files, write_chunks, decrypt_batch, extract_batches, extract_directory, extract_file,
  extract_entry, extract_entries, sort_by_depth_id, fill_tree, after_opening, total_extraction,
  open_to_extract, extract_v2_inner,
}
use cipher_fs.SafeFs.{
  PendingFile, rename, commit_file, finish_writing, write_all, set_node, node_at,
  validate_output_name, begin_file, install_root_id, sync_open_directories, system_call, data_node,
  dir_node, temp_name_for, Tree,
}
use cipher_fs.Base.{
  arith, ◌≢◌, ap, ◌∙◌, true, refl, false, ◌∷◌, ℕ_discrete, replicate, Option, take, some, [], none,
  ◌≡◌, ℕ,
}
use cipher_fs.SafeFs.Staging.{
  new_root, ExtractOutcome, rename_directory_no_replace, after_install, after_sync, commit_root,
  after_filling, after_open_dir, after_create_dir, create_staging, build_tree, staging_name,
  choose_staging, ExtractDir, ExtractSystem,
}
use cipher_fs.Operation.World.{read_exact_at, report, check, reader, World}
use cipher_fs.Base.Map

abbrev quiet_world : World
quiet_world = reader hello_file

abbrev open_system : ExtractSystem
open_system = record {
  absolute = ok (record { parent = some (codes "home" ∷ []); file_name = some (codes "out") });
  seen_first = false;
  seen_second = false;
  is_used = λ name. false;
  refuses_rename = false;
  refuses_sync = true;
  partial_tree = [];
}

abbrev drawn : ℕ → Bytes
drawn id = replicate 8 id

abbrev free_place : ExtractDir
free_place = record { target = none; staging = none }

-- What another process has made at the destination.
abbrev winner : Tree
winner = ([], dir_node) ∷ (codes "winner.txt" ∷ [], data_node (codes "mine")) ∷ []

abbrev taken_place : ExtractDir
taken_place = record { target = some winner; staging = none }

extracting : ExtractDir → ExtractOutcome
unfolding extract_v2_inner open_to_extract check report open_container read_header read_exact_at
    validate_header_basic bytes_eq validate_argon2 unlock derive_kek decrypt_aead derive_index_key
    validate_index validate_name encrypted_file_size Map.get Map.insert ℕ_discrete sort_by_key
    total_extraction only_files start_phase after_opening choose_staging system_call staging_name
    path_text build_tree create_staging after_create_dir after_open_dir after_filling commit_root
    sync_open_directories after_sync after_install rename_directory_no_replace fill_tree
    install_root_id sort_by_depth_id extract_entries extract_entry extract_file extract_directory
    begin_file validate_output_name node_at set_node path_discrete temp_name_for hex_encode
    extract_batches decrypt_batch decrypt_chunk chunk_offset derive_file_key write_chunks write_all
    advance finish_writing commit_files commit_file rename Map.remove decimal_onto
extracting dir =
    extract_v2_inner toy numbered old_password noise noise none (replicate 8 7 ∷ []) 2 drawn
      open_system dir quiet_world

extracting_lem :
    (dir : ExtractDir)
    → extract_v2_inner toy numbered old_password noise noise none
        (replicate 8 7 ∷ [])
        2
        drawn
        open_system
        dir
        quiet_world
      ≡ extracting dir
unfolding extracting
extracting_lem dir = refl

abbrev extracted_place : ExtractDir
extracted_place = (extracting free_place).1

extracts_ok : (extracting free_place).0 ≡ ok tt
unfolding extracting
extracts_ok = refl

-- The directory and the file in it.
extracted_tree :
    extracted_place.target ≡ some (([], dir_node) ∷ (codes "a.txt" ∷ [], data_node hello) ∷ [])
unfolding extracting
extracted_tree = refl

temp_dot : (id : ℕ) → take 1 (temp_name_for id (drawn id)) ≡ codes "."
unfolding temp_name_for
temp_dot id = refl

no_dot :
    (j : ℕ) (e : Entry)
    → Map.get ℕ_discrete j hello_container.index.entries ≡ some e
    → take 1 e.name ≢ codes "."
unfolding Map.get
no_dot j e found = elim (ℕ_discrete 1 j) [
  | yes p ↦ ground (arith, found)
  | no n ↦ elim (ℕ_discrete 2 j) [
    | yes p ↦ ground (arith, found)
    | no m ↦ absurd (ground (arith, found))
  ]
]

private_names : HasPrivateNames hello_container drawn
private_names j k e f found found' = λ same. no_dot j e found (ap (take 1) same ∙ temp_dot f.id)

extract_v2_inner_complete_example :
    (◌≡◌ {A = Option Tree} none none)
    × (extracted_place.staging ≡ none)
    × (tree : Tree) × (extracted_place.target ≡ some tree)
    × ((k : ℕ) (e : Entry)
        → Map.get ℕ_discrete k hello_container.index.entries ≡ some e
        → (p : PathBuf) × PathOf hello_container.index.entries e p
          × IsExtracted toy hello_container tree e p)
extract_v2_inner_complete_example =
    extract_v2_inner_complete toy numbered old_password noise noise hello_container drawn none
      (replicate 8 7 ∷ []) 2 open_system free_place extracted_place quiet_world
      (extracting free_place).2 hello_opens private_names (omega arith)
      (extracting_lem free_place
        ∙ ap (λ (r : Result (Unit {0})). (r, extracted_place, (extracting free_place).2))
            extracts_ok)

abbrev taken_error : Error
taken_error = message "Unable to install" ∷ []

taken_refused : (extracting taken_place).0 ≡ err taken_error
unfolding extracting
taken_refused = refl

extract_v2_inner-IsRefused_example : IsRefused taken_place (extracting taken_place).1
extract_v2_inner-IsRefused_example =
    extract_v2_inner-IsRefused toy numbered none (replicate 8 7 ∷ []) 2 drawn open_system
      taken_place old_password noise noise quiet_world (extracting taken_place).2
      (extracting taken_place).1 taken_error
      (extracting_lem taken_place
        ∙ ap
            (λ (r : Result (Unit {0})). (r, (extracting taken_place).1, (extracting taken_place).2))
            taken_refused)

abbrev hello_pending : PendingFile
hello_pending = record {
  parent = [];
  temp_name = codes ".tmp";
  final_name = codes "a.txt";
  is_open = true;
}

abbrev hello_tracker : ProgressTracker
hello_tracker = record { phase = OperationPhase.extract; total = 5; completed = 0 }

extract_batches_fuel_example :
    extract_batches toy hello_container 1 hello_entry 2 0 hello_pending new_root hello_tracker
      quiet_world
    ≡ extract_batches toy hello_container 9 hello_entry 2 0 hello_pending new_root hello_tracker
        quiet_world
extract_batches_fuel_example =
    extract_batches_fuel toy hello_container hello_entry 2 (omega arith) 1 9 0 hello_pending
      new_root hello_tracker quiet_world (omega arith) (omega arith)
