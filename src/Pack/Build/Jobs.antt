-- ===== src/Pack/Build/Jobs.antt =====
-- The calls of the loop over the sources in `pack_inner` serve the files of the index, each once.
use cipher_fs.V2.Index.Tree.{Member-values}
use mathlib.Core.Path.{subst}
use cipher_fs.Pack.Build.Writes.{IsFileJob, AreApart}
use cipher_fs.Pack.Scan.Sources.{HasSources}
use cipher_fs.V2.Index.{values, is_directory}
use cipher_fs.Pack.Scan.{SourceSnapshot, SourceScan}
use cipher_fs.V2.Types.{ValidatedIndex, Entry}
use cipher_fs.Base.Orders.{
  range-below, range, Member-IsOrderOf, All-IsOrderOf, Member-of_map, Member-map,
  AreApartBy-IsOrderOf, AreApartBy-of_map, All-of_map, AreApartBy-map, All-map_of, AreApartBy,
  IsSchedule,
}
use cipher_fs.V2.Chunk.Verify.{Member-only_files, only_files}
use cipher_fs.Pack.Build.{SourceJob, source_jobs, source_job, PackRun}
use cipher_fs.Base.Map
use cipher_fs.Base.{
  arith, ◌<◌, ap, ◌∙◌, some-inj, sym, ◌≢◌, Member, [], All-map, inr, some, inl, ℕ_discrete, map,
  false, ◌≡◌, Bool-cases, ◌∷◌, All, ℕ, List,
}

-- The workers take every source and every chunk once, in some order.
abbrev pub IsFair : PackRun → Type 0
IsFair run = IsSchedule run.source_order × ((id : ℕ) → IsSchedule (run.chunk_order id))

All-only_files :
    (P : Entry → Type 0) (es : List Entry)
    → All P es
    → All (λ (e : Entry). (is_directory e.kind ≡ false) × P e) (only_files es)
unfolding only_files
All-only_files P [] all = tt
All-only_files P (e ∷ es) all = elim (Bool-cases (is_directory e.kind)) [
  | inl d ↦ rw d (All-only_files P es all.1)
  | inr d ↦ rw d ((d, all.0), All-only_files P es all.1)
]

files_apart :
    (es : List Entry)
    → AreApartBy (λ (e : Entry). e.id) es
    → AreApartBy (λ (e : Entry). e.id) (only_files es)
unfolding only_files
files_apart [] apart = tt
files_apart (e ∷ es) apart = elim (Bool-cases (is_directory e.kind)) [
  | inl d ↦ rw d (files_apart es apart.1)
  | inr d ↦ rw d (
    All-map (only_files es) (λ f h. h.1) (All-only_files (λ (f : Entry). e.id ≢ f.id) es apart.0),
    files_apart es apart.1,
  )
]

jobs_apart :
    (run : PackRun) (sources : List (ℕ × SourceSnapshot))
    → AreApartBy (λ (p : ℕ × SourceSnapshot). p.0) sources
    → AreApart (map (source_job run) sources)
jobs_apart run [] apart = tt
jobs_apart run ((id, snapshot) ∷ sources) apart = (
  All-map_of (source_job run) (λ (job : SourceJob). id ≢ job.entry_id) sources apart.0,
  jobs_apart run sources apart.1,
)

module _ (run : PackRun) (fair : IsFair run) (s : SourceScan) (v : ValidatedIndex)
    (has : HasSources s) (entries : values v.entries ≡ s.entries)
    (stands : All (λ (e : Entry). Map.get ℕ_discrete e.id v.entries ≡ some e) (values v.entries))
    (own_ids : AreApartBy (λ (e : Entry). e.id) (values v.entries)) where
  pub source_jobs-AreApart : AreApart (source_jobs run s.sources)
  unfolding source_jobs
  source_jobs-AreApart =
      let files =
        files_apart s.entries (subst (AreApartBy (λ (e : Entry). e.id)) entries own_ids) in
      let ids = AreApartBy-map (λ (e : Entry). e.id) (only_files s.entries) files in
      let sources =
        AreApartBy-of_map (λ (p : ℕ × SourceSnapshot). p.0) s.sources
          (subst (AreApartBy (λ n. n)) (sym has) ids) in
      jobs_apart run (run.source_order s.sources) (
        AreApartBy-IsOrderOf (λ (p : ℕ × SourceSnapshot). p.0) s.sources
          (run.source_order s.sources) (fair.0 s.sources) sources)

  -- An id of a file.
  IsFileId : ℕ → Type 0
  IsFileId n =
      (e : Entry) × (is_directory e.kind ≡ false) × (Map.get ℕ_discrete n v.entries ≡ some e)

  pub source_jobs-IsFileJob : All (IsFileJob v.entries) (source_jobs run s.sources)
  unfolding source_jobs IsFileId
  source_jobs-IsFileJob =
      let known =
        All-only_files (λ (e : Entry). Map.get ℕ_discrete e.id v.entries ≡ some e) s.entries
          (subst (All (λ (e : Entry). Map.get ℕ_discrete e.id v.entries ≡ some e)) entries
            stands) in
      let ids =
        All-map_of (λ (e : Entry). e.id) IsFileId (only_files s.entries)
          (All-map (only_files s.entries) (λ e h. (e, h.0, h.1)) known) in
      let sources =
        All-of_map (λ (p : ℕ × SourceSnapshot). p.0) IsFileId s.sources
          (subst (All IsFileId) (sym has) ids) in
      All-map_of (source_job run) (IsFileJob v.entries) (run.source_order s.sources) (
        All-map (run.source_order s.sources)
          (λ p found. λ e at_e.
            let same : found.0 ≡ e = some-inj (sym found.2 ∙ at_e) in
            (
              ap (λ (x : Entry). is_directory x.kind) (sym same) ∙ found.1,
              All-IsOrderOf (λ i. i < e.chunk_count) (range 0 e.chunk_count)
                  (run.chunk_order p.0 (range 0 e.chunk_count)) (fair.1 p.0 (range 0 e.chunk_count))
                  (range-below 0 e.chunk_count e.chunk_count (omega arith)),
            ))
          (All-IsOrderOf (λ (p : ℕ × SourceSnapshot). IsFileId p.0) s.sources
            (run.source_order s.sources) (fair.0 s.sources) sources))

  -- Each file of the index has its source, and the source its call.
  pub source_of_file :
      (k : ℕ) (e : Entry)
      → Map.get ℕ_discrete k v.entries ≡ some e
      → e.id ≡ k
      → is_directory e.kind ≡ false
      → (snapshot : SourceSnapshot) × Member (k, snapshot) s.sources
        × Member (source_job run (k, snapshot)) (source_jobs run s.sources)
  unfolding source_jobs
  source_of_file k e found at_k is_file =
      let m = subst (Member e) entries (Member-values k e v.entries found) in
      let at_ids = subst (Member e.id) (sym has) (
        Member-map (λ (x : Entry). x.id) e (only_files s.entries)
          (Member-only_files s.entries e m is_file)) in
      let (p, mp, same) = Member-of_map (λ (p : ℕ × SourceSnapshot). p.0) e.id s.sources at_ids in
      let here : p ≡ (k, p.1) = ap (λ n. (n, p.1)) (same ∙ at_k) in
      let mp' = subst (λ (x : ℕ × SourceSnapshot). Member x s.sources) here mp in
      (
        p.1,
        mp',
        Member-map (source_job run) (k, p.1) (run.source_order s.sources)
            (Member-IsOrderOf s.sources (run.source_order s.sources) (k, p.1) (fair.0 s.sources)
              mp'),
      )
