-- ===== src/Pack/Build/Readable.antt =====
-- What `pack_inner` has written in its temporary file, for the reader of it: the loop over the sources of
-- the scan serves each file of the index.
use cipher_fs.V2.Index.Soundness.{validate_index_tree}
use cipher_fs.V2.Chunk.Reopening.{open_container_again}
use cipher_fs.V2.Limits.ChunkLayout.{plain_len}
use cipher_fs.V2.Chunk.Opening.{open_container}
use cipher_fs.V2.Chunk.{decrypt_chunk, OpenedContainer}
use cipher_fs.V2.Index.Values.{validate_index_values, validate_index_ids}
use cipher_fs.Errors.{ok-inj, ok}
use cipher_fs.Operation.World.{reader, World}
use cipher_fs.V2.Index.{is_directory, values, validate_index}
use cipher_fs.Base.Words.{Bytes}
use cipher_fs.Pack.Build.Packed.{
  validate_index-collect_by_id, decrypt_stored, open-IsOpened, IsFilled, fill-IsFilled, ServeWalk,
}
use cipher_fs.Pack.Build.Writes.{IsFileJob, AreApart}
use cipher_fs.Base.Orders.{AreApartBy}
use cipher_fs.Pack.Scan.Sources.{first_scan-HasSources, scan_items-HasSources, HasSources}
use cipher_fs.V2.Types.{chunk_bytes, Header, SlotRandom, Entry, ValidatedIndex}
use cipher_fs.Pack.Build.Jobs.{source_of_file, source_jobs-IsFileJob, source_jobs-AreApart, IsFair}
use cipher_fs.Pack.Scan.Complete.{scan_walk-scan_items, validate_index-scan_source, AreNew}
use cipher_fs.Pack.Build.Sealing.{IsPrepared}
use cipher_fs.Pack.Scan.{scan_items, scan_source, SourceSnapshot, SourceScan, first_scan, Walked}
use cipher_fs.Base.{
  ◌*◌, drop, take, ◌<◌, Member, false, ℕ, ◌∙◌, sym, some, ◌≡◌, ℕ_discrete, ap, All, [], List,
}
use cipher_fs.Pack.Build.{
  source_job, collect_by_id, fill, source_jobs, SourceJob, PackRun, Prepared, PackRandom,
  PackRequest,
}
use cipher_fs.V2.Container.{IsCodec, Codec}
use cipher_fs.V2.Crypto.{IsAead, Crypto}
use cipher_fs.Base.Map
use mathlib.Core.Path.{subst}

module _ {c : Crypto} {codec : Codec} (law : IsAead c) (codes_law : IsCodec codec)
    (request : PackRequest) (r : PackRandom) (walk : List Walked) (p : Prepared)
    (prep : IsPrepared c codec request r walk p) (new : AreNew walk []) (run : PackRun)
    (fair : IsFair run) where
  -- The index that the packer has made, as the packer's own check of it shows.
  record IsListed : Type 0 where
    pub index : ValidatedIndex
    pub valid : validate_index p.header (record { entries = prep.scan.entries }) ≡ ok index
    pub entries : values index.entries ≡ prep.scan.entries
    pub map : index.entries ≡ collect_by_id prep.scan.entries []

  listed : IsListed
  listed =
      let (v, valid, entries) =
        validate_index-scan_source walk prep.before prep.after prep.scan p.header new prep.scanned
          (ap (λ (h : Header). h.entry_count) prep.sealed.header)
          (ap (λ (h : Header). h.data_size) prep.sealed.header) in
      record {
        index = v;
        valid = valid;
        entries = entries;
        map =
            validate_index-collect_by_id p.header (record { entries = prep.scan.entries }) v valid;
      }

  scanned : scan_items walk first_scan ≡ ok prep.scan
  unfolding scan_source
  scanned = scan_walk-scan_items walk first_scan prep.scan prep.before prep.after prep.scanned

  has : HasSources prep.scan
  has = scan_items-HasSources walk first_scan prep.scan first_scan-HasSources scanned

  abbrev calls : List SourceJob
  calls = source_jobs run prep.scan.sources

  stands :
      All
        (λ (e : Entry). Map.get ℕ_discrete e.id listed.index.entries ≡ some e)
        (values listed.index.entries)
  stands =
      validate_index_values p.header (record { entries = prep.scan.entries }) listed.index
        listed.valid

  own_ids : AreApartBy (λ (e : Entry). e.id) (values listed.index.entries)
  own_ids =
      validate_index_ids p.header (record { entries = prep.scan.entries }) listed.index listed.valid

  apart : AreApart calls
  apart = source_jobs-AreApart run fair prep.scan listed.index has listed.entries stands own_ids

  serve : ServeWalk walk calls
  serve s again =
      let jobs =
        subst (λ m. All (IsFileJob m) calls) listed.map
          (source_jobs-IsFileJob run fair prep.scan listed.index has listed.entries stands
            own_ids) in
      let same : prep.scan ≡ s = ok-inj (sym scanned ∙ again) in
      subst (λ (t : SourceScan). All (IsFileJob (collect_by_id t.entries [])) calls) same jobs

  pub fill_readable :
      (temp_path : Bytes) (r_0 r_1 : SlotRandom) (w w' : World)
      → fill c codec request.password r temp_path run r_0 r_1 p w ≡ (ok tt, w')
      → (s_0 s_1 : SlotRandom)
      → (opened : OpenedContainer) × (open_container c codec request.password s_0 s_1
            (reader w'.file)
          ≡ (ok opened, reader w'.file))
        × (scan_items walk first_scan ≡ ok prep.scan)
        × (values opened.index.entries ≡ prep.scan.entries)
        × ((k : ℕ) (e : Entry)
            → Map.get ℕ_discrete k opened.index.entries ≡ some e
            → is_directory e.kind ≡ false
            → (snapshot : SourceSnapshot) × Member (k, snapshot) prep.scan.sources
              × (x : Bytes) × ((run.view snapshot).content ≡ some x)
              × ((i : ℕ)
                  → i < e.chunk_count
                  → decrypt_chunk c opened e i
                    ≡ ok (take (plain_len e.size i) (drop (i * chunk_bytes) x))))
  fill_readable temp_path r_0 r_1 w w' h s_0 s_1 =
      let (f, opened, u, u', open_ok, same) =
        fill-IsFilled law codes_law request r walk p prep new calls serve apart run
          (ap (source_jobs run) prep.sources) temp_path r_0 r_1 w w' h in
      let f' =
        subst (IsFilled law codes_law request r walk p prep new calls serve apart) (sym same) f in
      let o =
        open-IsOpened law codes_law request r walk p prep new calls serve apart r_0 r_1 u u' opened
          open_ok f' in
      let index : listed.index ≡ opened.index = ok-inj (sym listed.valid ∙ o.valid) in
      (
        opened,
        open_container_again c codec request.password r_0 r_1 u u' opened open_ok s_0 s_1
            (reader w'.file) (sym same),
        scanned,
        subst (λ (y : ValidatedIndex). values y.entries ≡ prep.scan.entries) index listed.entries,
        λ k e found is_file.
            let found' : Map.get ℕ_discrete k listed.index.entries ≡ some e =
              subst (λ (y : ValidatedIndex). Map.get ℕ_discrete k y.entries ≡ some e) (sym index)
                found in
            let (own, _, _) =
              validate_index_tree p.header (record { entries = prep.scan.entries }) listed.index k e
                listed.valid found' in
            let (snapshot, m, call) =
              source_of_file run fair prep.scan listed.index has listed.entries stands own_ids k e
                found' own is_file in
            let (x, read, plain) =
              decrypt_stored law codes_law request r walk p prep new calls serve apart u.file opened
                f' o (source_job run (k, snapshot)) call (fair.1 k) e found in
            (snapshot, m, x, read, plain),
      )
