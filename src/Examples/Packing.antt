-- ===== src/Examples/Packing.antt =====
-- A directory with one file and one empty directory is packed.
use cipher_fs.Base.Orders.{IsOrderOf-refl}
use cipher_fs.Pack.Build.Jobs.{IsFair}
use cipher_fs.Base.Paths.{file_name_of, last_part, parent_of, path_text, path_discrete}
use cipher_fs.V2.Limits.ChunkLayout.{plain_len}
use cipher_fs.V2.Chunk.Verify.{
  file_chunks, verify_chunks, start_tracker, only_files, files_by_offset, total_size,
  verify_all_with_control,
}
use cipher_fs.Base.Sort.{sort_by_key}
use cipher_fs.Pack.Build.RoundTrip.{pack_inner_readable, pack_inner_refused}
use cipher_fs.V2.Chunk.Opening.{open_container}
use cipher_fs.Operation.Progress.{advance}
use cipher_fs.V2.Chunk.{decrypt_chunk, OpenedContainer, chunk_offset}
use cipher_fs.Pack.Encrypt.{seal_chunk, encrypt_chunk, encrypt_chunks, encrypt_source_file}
use cipher_fs.V2.Crypto.{decrypt_aead, derive_file_key, derive_index_key, encrypt_aead, derive_kek}
use cipher_fs.V2.Keys.{unlock, make_key_slot, configure_duress}
use cipher_fs.Pack.Scan.Growing.{Place}
use cipher_fs.V2.Limits.{validate_header_basic, validate_argon2, encrypted_file_size}
use cipher_fs.V2.Names.{validate_name}
use cipher_fs.Errors.{err, message, Error, Result, ok}
use cipher_fs.Examples.{toy-IsAead, tag, toy}
use cipher_fs.Examples.Slots.{noise, data_key, old_password}
use cipher_fs.Examples.Indexes.{directory_entry, plain_header}
use cipher_fs.Base.Words.{Bytes, bytes_eq, codes}
use cipher_fs.Examples.Chunks.{hello_entry, hello_source}
use cipher_fs.Examples.Encoding.{single-IsCodec, single}
use cipher_fs.V2.Index.{is_directory, values, validate_index}
use cipher_fs.Pack.Build.Output.{
  content_at, remove_file, put_file, validate_requested_temporary_path, choose_temporary,
  OutputRequest, rename_no_replace, after_rename, commit_output, after_fill, create_new,
  after_create, install_output, prepare_at, after_prepare, PackOutcome, pack_inner, OutputDir,
  OutputSystem,
}
use cipher_fs.V2.Container.{read_header, serialize_header, Codec}
use cipher_fs.Pack.Build.{
  source_jobs, PackRun, with_self_verify_reporter, op_context, self_verification, encrypt_sources,
  set_len, start_phase, write_start, fill, encrypt_index, seal_header, index_bytes, check_request,
  prepare, collect_by_id, draft_header, PackRandom, PackRequest,
}
use cipher_fs.V2.Types.{
  chunk_bytes, default_params, zero_file_id, KeySlot_random_disabled, Entry, Header, ValidatedIndex,
}
use cipher_fs.Operation.World.{
  sync_all, reader, written_at, read_exact_at, write_all_at, report, check, World,
}
use cipher_fs.Pack.Scan.Complete.{validate_index-scan_source, AreNew}
use cipher_fs.Base.{
  ◌<◌, ◌*◌, drop, take, ap, inr, ℕ_discrete, arith, ◌++◌, ◌∙◌, inl, ℕ, true, Member, ◌∷◌, ◌≡◌, none,
  false, replicate, some, [], List, refl,
}
use cipher_fs.Base.Map
use cipher_fs.Pack.Scan.{
  SourceSnapshot, first_scan, push_file, push_directory, push_item, scan_item, scan_walked,
  scan_walk, root_entry, Walked, scan_items, scan_source, SourceScan, Item, regular, folder,
  source_dir, below,
}

abbrev text_item : Item
text_item = record {
  parent = [];
  name = codes "a.txt";
  is_utf8 = true;
  metadata = some regular;
  size = some 5;
  fingerprint = some (record { len = 5; modified = 100; identity = some (1, 2) });
  draws = zero_file_id ∷ replicate 16 2 ∷ [];
}

abbrev folder_item : Item
folder_item = record {
  parent = [];
  name = codes "sub";
  is_utf8 = true;
  metadata = some folder;
  size = none;
  fingerprint = none;
  draws = [];
}

abbrev walk : List Walked
walk = source_dir ∷ below text_item ∷ below folder_item ∷ []

-- The walk shows two places.
walk_new : AreNew walk []
walk_new = (λ m. m, (λ m. different m, tt))
  where
    different : Member {A = Place} ([], codes "sub") (([], codes "a.txt") ∷ []) → ⊥
    different (inl e) = ground arith
    different (inr m) = m

abbrev scanned : SourceScan
scanned = record {
  entries = root_entry ∷ hello_entry ∷ directory_entry 3 1 (codes "sub") 1 ∷ [];
  path_ids = ([], 1) ∷ (codes "sub" ∷ [], 3) ∷ [];
  file_ids = replicate 16 2 ∷ [];
  sources =
      (
        2,
        record {
          path = codes "a.txt" ∷ [];
          fingerprint = record { len = 5; modified = 100; identity = some (1, 2) };
        },
      )
      ∷ [];
  next_id = 4;
  total_plaintext = 5;
  data_offset = 21;
}

abbrev quiet : World
quiet = record { file = []; refusals = []; cancels = []; events = [] }

scan_runs : scan_source walk quiet ≡ (ok scanned, quiet)
unfolding scan_source scan_walk scan_walked scan_item push_item push_directory push_file check
    validate_name encrypted_file_size bytes_eq path_discrete Map.get Map.insert
scan_runs = refl

validate_index-scan_source_example :
    (index : ValidatedIndex) × (validate_index
        (plain_header 21 3)
        (record { entries = scanned.entries })
      ≡ ok index)
    × (values index.entries ≡ scanned.entries)
validate_index-scan_source_example =
    validate_index-scan_source walk quiet quiet scanned (plain_header 21 3) walk_new scan_runs refl
      refl

abbrev request : PackRequest
request = record {
  source = some folder;
  password = old_password;
  duress_password = none;
  params = default_params;
  max_index_size = 1000;
}

abbrev random : PackRandom
random = record {
  container_id = replicate 16 1;
  index_nonce = replicate 12 2;
  dek = data_key;
  slot_0 = noise;
  slot_1 = noise;
  duress = noise;
  new_duress = noise;
  new_slot = noise;
}

abbrev packed_header : Header
packed_header = record (draft_header random 17 21 3) {
  slot_0 = record (KeySlot_random_disabled noise) {
    generation = 1;
    encrypted_dek = data_key ++ tag old_password;
  };
}

abbrev encoding : Codec
encoding = single packed_header (record { entries = scanned.entries })

-- The sources and their chunks in their order.
abbrev run : PackRun
run = record {
  view = λ snapshot. hello_source;
  source_order = λ sources. sources;
  chunk_order = λ id chunks. chunks;
  verify_order = λ chunks. chunks;
}

run-IsFair : IsFair run
run-IsFair = (IsOrderOf-refl, λ id. IsOrderOf-refl)

abbrev system : OutputSystem
system = record { refuses_create = false; refuses_rename = false; refuses_sync = true }

-- The caller asks for a temporary path.
abbrev place : OutputRequest
place = record {
  output = codes "v" ∷ [];
  is_text = true;
  requested = some (ok (codes "t" ∷ []));
  draws = [];
}

abbrev empty_dir : OutputDir
empty_dir = []

packing : OutputDir → PackOutcome
unfolding pack_inner after_prepare prepare_at prepare scan_source scan_walk scan_walked scan_item
    push_item push_directory push_file validate_name encrypted_file_size bytes_eq path_discrete
    Map.get Map.insert ℕ_discrete check check_request report index_bytes seal_header
    configure_duress make_key_slot derive_kek validate_argon2 encrypt_aead encrypt_index
    derive_index_key install_output after_create create_new after_fill commit_output after_rename
    rename_no_replace fill write_start start_phase set_len serialize_header write_all_at
    encrypt_sources collect_by_id encrypt_source_file derive_file_key encrypt_chunks encrypt_chunk
    seal_chunk read_exact_at chunk_offset advance sync_all self_verification op_context
    open_container read_header validate_header_basic unlock decrypt_aead validate_index sort_by_key
    choose_temporary validate_requested_temporary_path path_text parent_of last_part file_name_of
    content_at put_file remove_file source_jobs file_chunks Map.remove with_self_verify_reporter
    verify_all_with_control total_size files_by_offset only_files start_tracker verify_chunks
    decrypt_chunk written_at
packing dir = pack_inner toy encoding request place random walk run noise noise system dir quiet

packing_lem :
    (dir : OutputDir)
    → pack_inner toy encoding request place random walk run noise noise system dir quiet
      ≡ packing dir
unfolding packing
packing_lem dir = refl

abbrev packed_dir : OutputDir
packed_dir = (packing empty_dir).1

abbrev packed_world : World
packed_world = (packing empty_dir).2

packs_ok : (packing empty_dir).0 ≡ ok tt
unfolding packing
packs_ok = refl

packs : packing empty_dir ≡ (ok tt, packed_dir, packed_world)
packs = ap (λ (r : Result (Unit {0})). (r, packed_dir, packed_world)) packs_ok

-- A file already stands at the output path.
abbrev taken_dir : OutputDir
taken_dir = (codes "v" ∷ [], codes "mine") ∷ []

pack_inner_readable_example :
    (content_at place.output empty_dir ≡ none)
    × (content : Bytes) × (content_at place.output packed_dir ≡ some content)
    × (opened : OpenedContainer) × (open_container toy encoding old_password noise noise
          (reader content)
        ≡ (ok opened, reader content))
    × (scan : SourceScan) × (scan_items walk first_scan ≡ ok scan)
    × (values opened.index.entries ≡ scan.entries)
    × ((k : ℕ) (e : Entry)
        → Map.get ℕ_discrete k opened.index.entries ≡ some e
        → is_directory e.kind ≡ false
        → (snapshot : SourceSnapshot) × Member (k, snapshot) scan.sources
          × (x : Bytes) × ((run.view snapshot).content ≡ some x)
          × ((i : ℕ)
              → i < e.chunk_count
              → decrypt_chunk toy opened e i
                ≡ ok (take (plain_len e.size i) (drop (i * chunk_bytes) x))))
pack_inner_readable_example =
    pack_inner_readable toy encoding request place random walk run noise noise system empty_dir
      toy-IsAead (single-IsCodec packed_header (record { entries = scanned.entries })) quiet
      packed_world packed_dir walk_new refl run-IsFair (packing_lem empty_dir ∙ packs) noise noise

abbrev refused_error : Error
refused_error = message "Unable to install" ∷ []

refused : (packing taken_dir).0 ≡ err refused_error
unfolding packing
refused = refl

pack_inner_refused_example :
    content_at (codes "v" ∷ []) (packing taken_dir).1 ≡ content_at (codes "v" ∷ []) taken_dir
pack_inner_refused_example =
    pack_inner_refused toy encoding request place random walk run noise noise system taken_dir quiet
      (packing taken_dir).2 (packing taken_dir).1 refused_error
      (packing_lem taken_dir
        ∙ ap (λ (r : Result (Unit {0})). (r, (packing taken_dir).1, (packing taken_dir).2)) refused)
      (codes "v" ∷ [])
