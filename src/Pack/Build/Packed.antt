-- ===== src/Pack/Build/Packed.antt =====
-- What `pack_inner` has installed when it succeeds.
use cipher_fs.Base.Orders.{Member-range, Member-IsOrderOf, range, IsSchedule}
use cipher_fs.Base.Map
use cipher_fs.Pack.Encrypt.RoundTrip.{opened_at, plain_range, decrypt_sealed}
use cipher_fs.V2.Chunk.Reopening.{open_index_exact, open_container-open_index}
use cipher_fs.V2.Keys.{unlock}
use cipher_fs.V2.Limits.ChunkLayout.{plain_len}
use cipher_fs.V2.Limits.{validate_header_basic}
use cipher_fs.V2.Container.Storage.{read_header-eq-ok, read_header_exact}
use cipher_fs.V2.Limits.HeaderChecks.{safe_without_length, validate_header_basic_iff}
use cipher_fs.Pack.Build.Filling.{self_verification_lem}
use cipher_fs.Pack.Build.Started.{IsStarted, write_start-IsStarted}
use cipher_fs.V2.Chunk.Opening.{open_index, open_container_lem, open_container}
use cipher_fs.V2.Chunk.{decrypt_chunk, OpenedContainer}
use cipher_fs.V2.Keys.Unlocking.{unlock_newest, Opens, NewestOpens}
use cipher_fs.Base.Words.{Bytes}
use cipher_fs.Base.Map.{Map}
use cipher_fs.Pack.Scan.Complete.{validate_index-scan_source, scan_walk-scan_items, AreNew}
use cipher_fs.Pack.Build.Sealing.{IsPrepared}
use cipher_fs.V2.Index.Soundness.{validate_index_disjoint, filed, accepted}
use cipher_fs.Pack.Build.Writes.{
  encrypt_sources-IsStored, encrypt_sources-keeps, IsStored, AreApart, IsFileJob, AreLaidOut,
}
use cipher_fs.Errors.{ok-inj, ok}
use cipher_fs.V2.Container.{serialize_header, IsCodec, Codec}
use cipher_fs.Pack.Scan.{scan_source, first_scan, scan_items, SourceScan, Walked}
use cipher_fs.Operation.World.{sync_all, read_exact_at, World}
use cipher_fs.Operation.{encrypt, OperationPhase}
use cipher_fs.V2.Crypto.{IsAead, Crypto}
use cipher_fs.Pack.Build.{
  source_jobs, PackRun, encrypt_sources, write_start, fill, Prepared, PackRandom, PackRequest,
  SourceJob, collect_by_id, start_phase,
}
use cipher_fs.V2.Index.Scanning.{check_entry_lem, IsChecked}
use cipher_fs.V2.Index.{values, start, check_entry, validate_index, Scan, scan_entries}
use cipher_fs.Base.{
  ◌≤◌, some-inj, ◌<◌, All-Member, ◌*◌, drop, take, none, ℕ_discrete, some, length, ◌+◌, Member, inl,
  ◌∙◌, All, ◌∷◌, [], arith, ◌≡◌, ℕ, List, refl, sym, ap,
}
use cipher_fs.Errors
use cipher_fs.Operation.World
use mathlib.Core.Path.{subst}
use cipher_fs.V2.Types.{
  max_entries, chunk_bytes, unlocked, header_bytes, KeySlot, SlotRandom, ValidatedIndex, Entry,
  Index, Header,
}

-- The first loop of `validate_index` and the map of the packer file the same entries.
scan_entries-collect_by_id :
    (es : List Entry) (s s' : Scan)
    → scan_entries es s ≡ ok s'
    → s'.entries ≡ collect_by_id es s.entries
unfolding scan_entries collect_by_id
scan_entries-collect_by_id [] s s' h = ap (λ (x : Scan). x.entries) (sym (ok-inj h))
scan_entries-collect_by_id (e ∷ es) s s' h =
    let (t, h1, h2) = Errors.>>=-eq-ok (check_entry e s) _ h in
    let (_, filed, _, _) = check_entry_lem e s t h1 in
    scan_entries-collect_by_id es t s' h2 ∙ ap (collect_by_id es) filed

pub validate_index-collect_by_id :
    (header : Header) (index : Index) (v : ValidatedIndex)
    → validate_index header index ≡ ok v
    → v.entries ≡ collect_by_id index.entries []
validate_index-collect_by_id header index v h =
    let a = accepted header index v h in
    ap (λ (x : ValidatedIndex). x.entries) a.kept
    ∙ scan_entries-collect_by_id index.entries start a.scan a.scanned

laid_out :
    (header : Header) (index : Index) (v : ValidatedIndex)
    → validate_index header index ≡ ok v
    → AreLaidOut (collect_by_id index.entries [])
unfolding IsChecked
laid_out header index v h =
    subst AreLaidOut (validate_index-collect_by_id header index v h) (record {
      sizes = λ k e found is_file.
          (filed header index v (accepted header index v h) k e found).1.4 is_file;
      apart =
          λ j k e f he hf ef ff ne. validate_index_disjoint header index v j k e f h he hf ef ff ne;
    })

file-start_phase :
    (phase : OperationPhase) (total : ℕ) (w : World) → (start_phase phase total w).1.file ≡ w.file
unfolding start_phase
file-start_phase phase total w = refl

file-sync_all : (w : World) → (sync_all w).1.file ≡ w.file
unfolding sync_all
file-sync_all w = ground arith

unlocked-inj : {a b : Bytes} → unlocked a ≡ unlocked b → a ≡ b
unlocked-inj h = cc

-- The jobs serve the sources of the walk: each is about a file and names only its chunks.
abbrev pub ServeWalk : List Walked → List SourceJob → Type 0
ServeWalk walk jobs =
    (s : SourceScan)
    → scan_items walk first_scan ≡ ok s
    → All (IsFileJob (collect_by_id s.entries [])) jobs

module _ {c : Crypto} {codec : Codec} (law : IsAead c) (codes_law : IsCodec codec)
    (request : PackRequest) (r : PackRandom) (walk : List Walked) (p : Prepared)
    (prep : IsPrepared c codec request r walk p) (new : AreNew walk []) (jobs : List SourceJob)
    (serve : ServeWalk walk jobs) (apart : AreApart jobs) where
  abbrev pub index_of : Index
  index_of = record { entries = prep.scan.entries }

  pub items : scan_items walk first_scan ≡ ok prep.scan
  unfolding scan_source
  items = scan_walk-scan_items walk first_scan prep.scan prep.before prep.after prep.scanned

  pub accepted_index :
      (v : ValidatedIndex) × (validate_index p.header index_of ≡ ok v)
      × (values v.entries ≡ prep.scan.entries)
  accepted_index =
      validate_index-scan_source walk prep.before prep.after prep.scan p.header new prep.scanned
        (ap (λ (h : Header). h.entry_count) prep.sealed.header)
        (ap (λ (h : Header). h.data_size) prep.sealed.header)

  abbrev pub map_of : Map ℕ Entry
  map_of = collect_by_id prep.scan.entries []

  laid : AreLaidOut map_of
  laid = let (v, valid, _) = accepted_index in laid_out p.header index_of v valid

  -- The temporary file before the self verification.
  pub record IsFilled (file : Bytes) : Type 0 where
    pub bytes : Bytes
    pub serialized : serialize_header codec p.header ≡ ok bytes
    pub header_there : read_exact_at header_bytes 0 file ≡ ok bytes
    pub index_there : read_exact_at p.header.index_size header_bytes file ≡ ok p.encrypted_index
    pub stored :
        (job : SourceJob)
        → Member job jobs
        → IsStored law p.header (header_bytes + p.header.index_size) r.dek map_of job file

  pub fill-IsFilled :
      (run : PackRun)
      → source_jobs run p.sources ≡ jobs
      → (temp_path : Bytes) (r_0 r_1 : SlotRandom) (w w' : World)
      → fill c codec request.password r temp_path run r_0 r_1 p w ≡ (ok tt, w')
      → IsFilled w'.file
        × (opened : OpenedContainer) × (u : World) × (u' : World) × (open_container c codec
              request.password r_0 r_1 u
            ≡ (ok opened, u'))
        × (u.file ≡ w'.file)
  unfolding fill
  fill-IsFilled run same_jobs temp_path r_0 r_1 w w' h =
      let (ds, h1, g1) = World.>>=-eq-ok (write_start c codec temp_path p) _ w h in
      let w1 = (write_start c codec temp_path p w).1 in
      let (t, _, g2) = World.>>=-eq-ok (start_phase encrypt p.total_plaintext) _ w1 g1 in
      let w2 = (start_phase encrypt p.total_plaintext w1).1 in
      let started =
        subst (IsStarted c codec codes_law p ds)
          (sym (file-start_phase encrypt p.total_plaintext w1))
          (write_start-IsStarted c codec codes_law temp_path p ds w w1 h1) in
      let sealing =
        encrypt_sources c p.header r.dek ds (collect_by_id p.entries []) (source_jobs run p.sources)
          t in
      let (t', h3, g3) = World.>>=-eq-ok sealing _ w2 g2 in
      let w3 = (sealing w2).1 in
      let (_, _, g4) = World.>>=-eq-ok sync_all _ w3 g3 in
      let w4 = (sync_all w3).1 in
      let (opened, u, u', open_ok, same_u, same_end) =
        self_verification_lem c codec run.verify_order request.password r_0 r_1 p.total_plaintext w4
          w' g4 in
      let same3 : w3.file ≡ w'.file = sym (file-sync_all w3) ∙ sym same_end in
      let h3' : encrypt_sources c p.header r.dek ds map_of jobs t w2 ≡ (ok t', w3) =
        subst
          (λ (es : List Entry).
            encrypt_sources c p.header r.dek ds (collect_by_id es []) jobs t w2 ≡ (ok t', w3))
          prep.entries
          (subst
            (λ (js : List SourceJob).
              encrypt_sources c p.header r.dek ds (collect_by_id p.entries []) js t w2
              ≡ (ok t', w3))
            same_jobs h3) in
      let files = serve prep.scan items in
      let keeps =
        encrypt_sources-keeps law p.header ds r.dek map_of laid jobs t t' w2 w3 h3' files in
      let size : length p.encrypted_index ≡ p.header.index_size = prep.sized in
      let start = started.start in
      (
        record {
          bytes = started.bytes;
          serialized = started.serialized;
          header_there =
              ap (read_exact_at header_bytes 0) (sym same3)
              ∙ keeps header_bytes 0 started.bytes (omega arith) started.header_there;
          index_there =
              ap (λ n. read_exact_at n header_bytes w'.file) (sym size)
              ∙ ap (read_exact_at (length p.encrypted_index) header_bytes) (sym same3)
              ∙ keeps (length p.encrypted_index) header_bytes p.encrypted_index (omega arith)
                  started.index_there;
          stored = λ job m.
              let done =
                encrypt_sources-IsStored law p.header ds r.dek map_of laid jobs t t' w2 w3 h3' files
                  apart job (inl m) in
              subst (λ n. IsStored law p.header n r.dek map_of job w'.file) start
                (subst (IsStored law p.header ds r.dek map_of job) same3 done);
        },
        opened,
        u,
        u',
        open_ok,
        same_u ∙ sym same_end,
      )

  newest : NewestOpens c p.header request.password r.dek
  newest =
      let s = prep.sealed in
      let slot : p.header.slot_0 ≡ s.slot = ap (λ (h : Header). h.slot_0) s.header in
      let older : p.header.slot_1.generation ≡ 0 =
        ap (λ (h : Header). h.slot_1.generation) s.header in
      inl (
        subst (λ (x : KeySlot). Opens c p.header request.password x r.dek) (sym slot) s.opens,
        omega arith,
      )

  -- The file is opened by the password, with the header, the key and the index that were packed.
  pub record IsOpened (file : Bytes) (opened : OpenedContainer) : Type 0 where
    pub header : opened.header ≡ p.header
    pub dek : opened.dek ≡ r.dek
    pub valid : validate_index p.header index_of ≡ ok opened.index
    pub start : opened.data_start ≡ header_bytes + p.header.index_size
    pub file_kept : opened.file ≡ file

  pub open-IsOpened :
      (r_0 r_1 : SlotRandom) (u u' : World) (opened : OpenedContainer)
      → open_container c codec request.password r_0 r_1 u ≡ (ok opened, u')
      → IsFilled u.file
      → IsOpened u.file opened
  open-IsOpened r_0 r_1 u u' opened h f =
      let (read, key, _, same_file, start, _) =
        open_container_lem c codec request.password r_0 r_1 u u' opened h in
      let header : opened.header ≡ p.header =
        read_header_exact codec codes_law p.header opened.header f.bytes u.file f.serialized
          f.header_there read in
      let safe =
        (validate_header_basic_iff opened.header (some (length u.file))).0
          (read_header-eq-ok codec u.file opened.header read).1 in
      let valid : validate_header_basic p.header none ≡ ok tt =
        subst (λ (x : Header). validate_header_basic x none ≡ ok tt) header
          ((validate_header_basic_iff opened.header none).1 (safe_without_length safe)) in
      let few : length prep.scan.entries ≤ max_entries =
        let counted = ap (λ (h : Header). h.entry_count) prep.sealed.header in
        let limit = safe.entries in
        let same = ap (λ (h : Header). h.entry_count) header in omega arith in
      let unlocks = unlock_newest c p.header request.password r.dek valid newest in
      let key' : unlock c p.header request.password ≡ ok (unlocked opened.dek) =
        subst (λ (x : Header). unlock c x request.password ≡ ok (unlocked opened.dek)) header key in
      let dek : opened.dek ≡ r.dek = unlocked-inj (ok-inj (sym key' ∙ unlocks)) in
      let index = open_container-open_index c codec request.password r_0 r_1 u u' opened h in
      let index' : open_index c codec p.header r.dek u.file ≡ ok opened =
        subst (λ (x : Header). open_index c codec x r.dek u.file ≡ ok opened) header
          (subst (λ (d : Bytes). open_index c codec opened.header d u.file ≡ ok opened) dek
            index) in
      record {
        header = header;
        dek = dek;
        valid =
            open_index_exact c codec law codes_law p.header r.dek u.file opened index_of prep.key
              prep.serialized p.encrypted_index index' f.index_there prep.derived prep.encrypted
              prep.encoded few;
        start = start ∙ ap (λ (x : Header). header_bytes + x.index_size) header;
        file_kept = same_file;
      }

  decrypt_one :
      (file : Bytes) (opened : OpenedContainer)
      → IsOpened file opened
      → (job : SourceJob) → Member job jobs
      → IsSchedule job.order
      → (s : IsStored law p.header (header_bytes + p.header.index_size) r.dek map_of job file)
        (i : ℕ)
      → i < s.entry.chunk_count
      → decrypt_chunk c opened s.entry i
        ≡ ok (take (plain_len s.entry.size i) (drop (i * chunk_bytes) s.content))
  decrypt_one file opened o job m fair s i lt =
      let (is_file, _) =
        All-Member (IsFileJob map_of) job jobs (serve prep.scan items) m s.entry s.found in
      let chunks = range 0 s.entry.chunk_count in
      let at_ = s.chunks i (
        Member-IsOrderOf chunks (job.order chunks) i (fair chunks)
          (Member-range i 0 s.entry.chunk_count (omega arith) (omega arith))) in
      let start = header_bytes + p.header.index_size in
      let sizes = laid.sizes job.entry_id s.entry s.found is_file in
      let plain =
        decrypt_sealed law p.header opened.index s.entry r.dek s.key s.content file start i
          s.derived is_file lt at_ in
      let range_of =
        plain_range law p.header s.entry s.key s.content start i at_.chunk at_.how sizes lt in
      let whole : opened ≡ opened_at file p.header opened.index r.dek start = λ k. record {
        file = o.file_kept k;
        header = o.header k;
        index = opened.index;
        dek = o.dek k;
        data_start = o.start k;
      } in
      ap (λ (q : OpenedContainer). decrypt_chunk c q s.entry i) whole ∙ plain ∙ ap ok range_of

  -- The chunks of a job's file, read from the opened container, are the ranges of the source.
  pub decrypt_stored :
      (file : Bytes) (opened : OpenedContainer)
      → IsFilled file
      → IsOpened file opened
      → (job : SourceJob) → Member job jobs
      → IsSchedule job.order
      → (e : Entry) → Map.get ℕ_discrete job.entry_id opened.index.entries ≡ some e
      → (x : Bytes) × (job.source.content ≡ some x)
        × ((i : ℕ)
            → i < e.chunk_count
            → decrypt_chunk c opened e i
              ≡ ok (take (plain_len e.size i) (drop (i * chunk_bytes) x)))
  decrypt_stored file opened f o job m fair e at_e =
      let s = f.stored job m in
      let same_map = validate_index-collect_by_id p.header index_of opened.index o.valid in
      let entry : s.entry ≡ e =
        some-inj (sym s.found ∙ sym (ap (Map.get ℕ_discrete job.entry_id) same_map) ∙ at_e) in
      subst
        (λ (y : Entry).
          (x : Bytes) × (job.source.content ≡ some x)
          × ((i : ℕ)
              → i < y.chunk_count
              → decrypt_chunk c opened y i
                ≡ ok (take (plain_len y.size i) (drop (i * chunk_bytes) x))))
        entry (s.content, s.has, λ i lt. decrypt_one file opened o job m fair s i lt)
