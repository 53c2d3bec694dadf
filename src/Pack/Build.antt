-- ===== src/Pack/Build.antt =====
-- `pack_inner` of pack.rs: a scanned source becomes a container in a temporary file, which is verified and
-- then installed at the output path.
pub mod Output
pub mod Commit
pub mod Readable
pub mod Writes
pub mod Filling
pub mod Started
pub mod Sealing
pub mod Packed
pub mod Jobs
pub mod RoundTrip
use cipher_fs.V2.Chunk.Opening.{open_container}
use cipher_fs.V2.Keys.{make_key_slot, configure_duress}
use cipher_fs.V2.Aad.{index_aad}
use cipher_fs.V2.Chunk.Verify.{verify_all_with_control}
use cipher_fs.Base.Map.{Map}
use cipher_fs.V2.Limits.{validate_argon2}
use cipher_fs.V2.Container.{serialize_header, coded, Codec}
use cipher_fs.Operation.Progress.{ProgressTracker_new, ProgressTracker}
use cipher_fs.Pack.Encrypt.{encrypt_source_file, SourceFile}
use cipher_fs.V2.Types.{
  max_index_size, DuressSlot_random_disabled, tag_bytes, KeySlot_random_disabled, chunk_bytes,
  header_bytes, version_number, magic_bytes, Argon2Params, Header, Entry, SlotRandom,
}
use cipher_fs.Pack.Scan.{SourceSnapshot, folder, Walked, scan_source, ItemKind}
use cipher_fs.V2.Crypto.{encrypt_aead, derive_index_key, Crypto}
use cipher_fs.Operation.{
  pack_container, scan_completed, key_derivation, progress, temporary_artifact, phase_started,
  encrypt, OperationEvent, self_verify, OperationPhase,
}
use cipher_fs.Errors.{io_error, err, context, with_context, ok, bail, bail_if, Result}
use cipher_fs.Base.Words.{checked_add, bytes_eq, Bytes}
use cipher_fs.Base.{
  map, min, ltb, ◌==◌, if◌then◌else◌, ◌-◌, not, length, none, replicate, some, take, ℕ_discrete,
  ◌++◌, ◌∷◌, false, String, [], Bool, List, ℕ, Option,
}
use cipher_fs.Base.Map
use cipher_fs.Operation.World
use cipher_fs.Errors
use cipher_fs.Operation.World.{sync_all, write_all_at, lift, check, report, Op, ◌>>=◌, ◌>>◌}

pub record PackRequest : Type 0 where
  -- What `symlink_metadata` says of the source directory.
  pub source : Option ItemKind
  pub password : Bytes
  pub duress_password : Option Bytes
  pub params : Argon2Params
  pub max_index_size : ℕ

-- What the random number generator gives, in the order in which it is asked.
pub record PackRandom : Type 0 where
  pub container_id : Bytes
  pub index_nonce : Bytes
  pub dek : Bytes
  pub slot_0 : SlotRandom
  pub slot_1 : SlotRandom
  pub duress : SlotRandom
  pub new_duress : SlotRandom
  pub new_slot : SlotRandom

-- One call of the parallel loop over the sources: the id of its entry, what the system shows of the file,
-- and the order in which the workers take its chunks.
pub record SourceJob : Type 0 where
  pub entry_id : ℕ
  pub source : SourceFile
  pub order : List ℕ → List ℕ

-- What the system shows of the source files, and the orders in which the workers take the sources, the chunks
-- of each source, and the chunks of the self verification.
pub record PackRun : Type 0 where
  pub view : SourceSnapshot → SourceFile
  pub source_order : List (ℕ × SourceSnapshot) → List (ℕ × SourceSnapshot)
  pub chunk_order : ℕ → List ℕ → List ℕ
  pub verify_order : List (Entry × ℕ) → List (Entry × ℕ)

abbrev pub source_job : PackRun → ℕ × SourceSnapshot → SourceJob
source_job run (id, snapshot) = record {
  entry_id = id;
  source = run.view snapshot;
  order = run.chunk_order id;
}

-- The calls of the loop over the sources.
unfoldable pub source_jobs : PackRun → List (ℕ × SourceSnapshot) → List SourceJob
source_jobs run sources = map (source_job run) (run.source_order sources)

abbrev pub is_folder : Option ItemKind → Result (Unit {0})
is_folder none = bail "Unable to inspect"
is_folder (some folder) = ok tt
is_folder (some other) = bail "Pack source must be a real directory, not a link or reparse point"

abbrev pub same_password : Option Bytes → Bytes → Bool
same_password none password = false
same_password (some duress) password = bytes_eq duress password

-- The checks of the request.
unfoldable pub check_request : PackRequest → Result (Unit {0})
check_request request = Errors.◌>>◌ (is_folder request.source) (
    Errors.◌>>◌
      (bail_if (same_password request.duress_password request.password)
        "Duress password must differ from the master password")
      (validate_argon2 request.params))

-- `HashMap` of the entries by their ids.
unfoldable pub collect_by_id : List Entry → Map ℕ Entry → Map ℕ Entry
collect_by_id [] m = m
collect_by_id (e ∷ es) m = collect_by_id es (Map.insert ℕ_discrete e.id e m)

abbrev pub draft_header : PackRandom → ℕ → ℕ → ℕ → Header
draft_header r index_size data_size entry_count = record {
  magic = magic_bytes;
  version = version_number;
  header_size = header_bytes;
  container_id = r.container_id;
  chunk_size = chunk_bytes;
  index_size = index_size;
  data_size = data_size;
  entry_count = entry_count;
  index_nonce = r.index_nonce;
  slot_0 = KeySlot_random_disabled r.slot_0;
  slot_1 = KeySlot_random_disabled r.slot_1;
  duress = DuressSlot_random_disabled r.duress;
}

-- `set_len` on the new file.
unfoldable pub set_len : ℕ → Op (Unit {0})
set_len n w = elim w.refusals [
  | [] ↦ (ok tt, record w { file = take n (w.file ++ replicate (n - length w.file) 0) })
  | r ∷ rest ↦ if r then (err (io_error "set_len failed" ∷ []), record w { refusals = rest }) else (
    ok tt,
    record w { file = take n (w.file ++ replicate (n - length w.file) 0); refusals = rest },
  )
]

-- `SelfVerifyReporter`: progress goes on under the name of the self verification, and the default
-- `event` drops what is not progress.
abbrev pub self_verify_phase : OperationPhase → OperationPhase
self_verify_phase OperationPhase.verify = self_verify
self_verify_phase other = other

unfoldable pub self_verify_events : List OperationEvent → List OperationEvent
self_verify_events [] = []
self_verify_events (progress p ∷ events) =
    progress (record p { phase = self_verify_phase p.phase }) ∷ self_verify_events events
self_verify_events (other ∷ events) = self_verify_events events

unfoldable pub with_self_verify_reporter : {A : Type 0} → Op A → Op A
unfolding self_verify_events
with_self_verify_reporter m w =
    let (r, w') = m (record w { events = [] }) in
    (r, record w' { events = w.events ++ self_verify_events w'.events })

unfoldable pub op_context : {A : Type 0} → Op A → String → Op A
op_context m text w = (with_context (m w).0 text, (m w).1)

-- What the first half of the function hands to the second.
pub record Prepared : Type 0 where
  pub entries : List Entry
  pub sources : List (ℕ × SourceSnapshot)
  pub total_plaintext : ℕ
  pub header : Header
  pub encrypted_index : Bytes

-- `ProgressTracker::new` and its two events.
unfoldable pub start_phase : OperationPhase → ℕ → Op ProgressTracker
start_phase phase total w =
    let (t, started) = ProgressTracker_new phase total in
    (ok t, record w { events = w.events ++ started })

module _ (c : Crypto) where
  -- The calls of the loop over the sources, in the order in which the workers make them.
  unfoldable pub encrypt_sources :
      Header → Bytes → ℕ → Map ℕ Entry → List SourceJob → ProgressTracker → Op ProgressTracker
  encrypt_sources header dek data_start entries [] t = lift (ok t)
  encrypt_sources header dek data_start entries (job ∷ jobs) t = do
    check
    entry ←
        lift (context (Map.get ℕ_discrete job.entry_id entries) "Internal source entry mismatch")
    t' ← encrypt_source_file c header entry data_start dek job.source job.order t
    encrypt_sources header dek data_start entries jobs t'

module _ (c : Crypto) (codec : Codec) where
  -- The index as bytes, and its size when it is encrypted.
  unfoldable pub index_bytes : ℕ → List Entry → Result (Bytes × ℕ)
  index_bytes max_size entries =
      Errors.◌>>=◌ (coded (codec.encode_index (record { entries = entries }))) λ serialized.
        Errors.◌>>=◌ (context (checked_add (length serialized) tag_bytes) "Index size overflow")
          λ index_size.
            Errors.◌>>◌
              (bail_if (ltb (min max_size max_index_size) index_size)
                "Encrypted index exceeds the configured/local limit")
              (ok (serialized, index_size))

  -- The slots of the header.
  unfoldable pub seal_header : PackRequest → PackRandom → Header → Op Header
  seal_header request r draft = do
    report (phase_started key_derivation)
    header ← lift (configure_duress c draft request.duress_password request.params r.new_duress)
    check
    slot ← lift (make_key_slot c header request.password r.dek 1 request.params r.new_slot)
    check
    lift (ok (record header { slot_0 = slot }))

  unfoldable pub encrypt_index : PackRandom → Header → Bytes → Result Bytes
  encrypt_index r header serialized =
      Errors.◌>>=◌ (derive_index_key c r.dek header.container_id) λ index_key.
        Errors.◌>>=◌ (encrypt_aead c index_key header.index_nonce (index_aad c header) serialized)
          λ encrypted.
            Errors.◌>>◌
              (bail_if (not (length encrypted == header.index_size)) "Internal index size mismatch")
              (ok encrypted)

  -- Up to the encrypted index: nothing has been written yet.
  unfoldable pub prepare : PackRequest → PackRandom → List Walked → Op Prepared
  unfolding scan_source index_bytes seal_header encrypt_index check_request
  prepare request r walk = do
    check
    lift (check_request request)
    check
    report (phase_started OperationPhase.scan)
    report (progress (record { phase = OperationPhase.scan; completed = 0; total = 0 }))
    s ← scan_source walk
    report (scan_completed (length s.entries - 1) s.total_plaintext)
    (serialized, index_size) ← lift (index_bytes request.max_index_size s.entries)
    header ← seal_header request r (draft_header r index_size s.data_offset (length s.entries))
    encrypted ← lift (encrypt_index r header serialized)
    lift (
        ok (record {
          entries = s.entries;
          sources = s.sources;
          total_plaintext = s.total_plaintext;
          header = header;
          encrypted_index = encrypted;
        }))

  -- Header and index go to the start of the new file.
  unfoldable pub write_start : Bytes → Prepared → Op ℕ
  unfolding set_len
  write_start temp_path p = do
    report (temporary_artifact pack_container temp_path)
    data_start ←
        lift
          (context (checked_add header_bytes p.header.index_size) "Container data offset overflow")
    container_size ←
        lift (context (checked_add data_start p.header.data_size) "Container size overflow")
    set_len container_size
    bytes ← lift (serialize_header codec p.header)
    write_all_at 0 bytes
    write_all_at header_bytes p.encrypted_index
    lift (ok data_start)

  -- The container is opened with the password and read through, before it is installed.
  unfoldable pub self_verification :
      (List (Entry × ℕ) → List (Entry × ℕ)) → Bytes → SlotRandom → SlotRandom → ℕ → Op (Unit {0})
  unfolding with_self_verify_reporter op_context
  self_verification schedule password r_0 r_1 total = do
    check
    report (phase_started key_derivation)
    opened ←
        op_context (open_container c codec password r_0 r_1)
          "Self-verification could not reopen v2 container"
    check
    report (phase_started self_verify)
    report (progress (record { phase = self_verify; completed = 0; total = total }))
    op_context (with_self_verify_reporter (verify_all_with_control c schedule opened))
        "Self-verification of packed container failed"
    check
    check

  -- From the new temporary file to the verified container in it.
  unfoldable pub fill :
      Bytes → PackRandom → Bytes → PackRun → SlotRandom → SlotRandom → Prepared → Op (Unit {0})
  unfolding write_start encrypt_sources sync_all self_verification
  fill password r temp_path run r_0 r_1 p = do
    data_start ← write_start temp_path p
    t ← start_phase encrypt p.total_plaintext
    _ ←
        encrypt_sources c p.header r.dek data_start (collect_by_id p.entries [])
          (source_jobs run p.sources) t
    sync_all
    self_verification run.verify_order password r_0 r_1 p.total_plaintext
