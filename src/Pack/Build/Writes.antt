-- ===== src/Pack/Build/Writes.antt =====
-- Where the loop over the sources writes, and what it leaves alone.
use cipher_fs.Base.Orders.{range}
use cipher_fs.V2.Aad.{chunk_aad, chunk_nonce}
use cipher_fs.Operation.Positional.{read_exact_at_elsewhere}
use cipher_fs.V2.Index.Scanning.{extent_of}
use cipher_fs.V2.Index.Layout.{AreDisjoint}
use cipher_fs.V2.Limits.ChunkLayout.{plain_len, chunk_tiling, encrypted_file_size_lem}
use cipher_fs.Pack.Encrypt.RoundTrip.{encrypt_source_file_lem}
use cipher_fs.V2.Index.{is_directory}
use cipher_fs.Errors.{context-eq-ok, context, ok}
use cipher_fs.V2.Limits.{encrypted_file_size}
use cipher_fs.Operation.World.{file-check, lift-eq-ok, lift, check, read_exact_at, World}
use cipher_fs.Pack.Encrypt.Sealed.{
  length-read_exact_at, sealing, encrypt_chunk_lem, encrypt_chunks-SealedAt, SealedAt, extent_lem,
  Sealing,
}
use cipher_fs.Pack.Build.{encrypt_sources, SourceJob}
use cipher_fs.Operation.Progress.{ProgressTracker}
use cipher_fs.Base.Map.{Map}
use cipher_fs.Base.Words.{wrapping_sub, checked_mul-eq-some, Bytes}
use cipher_fs.Pack.Encrypt.{encrypt_chunk, encrypt_source_file, SealedChunk, encrypt_chunks}
use cipher_fs.V2.Types.{chunk_bytes, Entry, Header}
use cipher_fs.V2.Crypto.{length-encrypt_aead, derive_file_key, IsAead, Crypto}
use cipher_fs.Base.{
  ◌∙◌, sym, ◌-◌, true, leb, [], inr, arith, inl, All-Member, false, Member, ap, length, ◌≢◌, some,
  ◌≡◌, ◌∷◌, ℕ_discrete, ◌<◌, ◌⊎◌, ◌≤◌, All, ◌+◌, List, ℕ,
}
use cipher_fs.Operation.World
use cipher_fs.Base.Map
use cipher_fs.Base.{refl}
use mathlib.Core.Path.{subst}

-- A range of the file that ends before another starts, or starts behind its end.
abbrev pub IsOutside : ℕ → ℕ → ℕ → ℕ → Type 0
IsOutside position n from to = (position + n ≤ from) ⊎ (to ≤ position)

-- The order of a job contains only chunks of its file.
abbrev pub AreBelow : ℕ → List ℕ → Type 0
AreBelow count order = All (λ i. i < count) order

-- The entries are laid out apart, as an accepted index has them.
pub record AreLaidOut (entries : Map ℕ Entry) : Type 0 where
  pub sizes :
      (k : ℕ) (e : Entry)
      → Map.get ℕ_discrete k entries ≡ some e
      → is_directory e.kind ≡ false
      → encrypted_file_size e.size ≡ ok (e.chunk_count, e.encrypted_size)
  pub apart :
      (j k : ℕ) (e f : Entry)
      → Map.get ℕ_discrete j entries ≡ some e
      → Map.get ℕ_discrete k entries ≡ some f
      → is_directory e.kind ≡ false
      → is_directory f.kind ≡ false
      → j ≢ k
      → AreDisjoint (extent_of e) (extent_of f)

-- The job is about a file, and its order names only chunks of that file.
abbrev pub IsFileJob : Map ℕ Entry → SourceJob → Type 0
IsFileJob entries job =
    (e : Entry)
    → Map.get ℕ_discrete job.entry_id entries ≡ some e
    → (is_directory e.kind ≡ false) × AreBelow e.chunk_count (job.order (range 0 e.chunk_count))

-- No source has two jobs.
abbrev pub AreApart : List SourceJob → Type 0
AreApart [] = Unit {0}
AreApart (job ∷ jobs) =
    All (λ (other : SourceJob). job.entry_id ≢ other.entry_id) jobs × AreApart jobs

module _ {c : Crypto} (law : IsAead c) (header : Header) (data_start : ℕ) where
  -- A sealed chunk lies within the data of its file.
  sealed_range :
      (entry : Entry) (key content : Bytes) (i : ℕ) (s : SealedChunk)
      → Sealing c header entry data_start key content i s
      → encrypted_file_size entry.size ≡ ok (entry.chunk_count, entry.encrypted_size)
      → i < entry.chunk_count
      → (data_start + entry.data_offset ≤ s.destination)
        × (s.destination + length s.bytes ≤ data_start + entry.data_offset + entry.encrypted_size)
  sealed_range entry key content i s how sizes below =
      let (place, _) = extent_lem c header entry data_start key content law i s how in
      let (enough, tight, _) =
        encrypted_file_size_lem entry.size entry.chunk_count entry.encrypted_size sizes in
      let (_, within, _, _) =
        chunk_tiling entry.size entry.chunk_count entry.encrypted_size i sizes below in
      let (start, _) = checked_mul-eq-some i chunk_bytes how.start how.offset in
      let inside : leb how.start entry.size ≡ true = ground arith in
      let amount = how.amount in
      let sub : wrapping_sub entry.size how.start ≡ entry.size - how.start = rw inside refl in
      let len : s.amount ≡ plain_len entry.size i = omega arith in
      let sealed =
        length-encrypt_aead law key (chunk_nonce i) (chunk_aad header entry i s.amount) how.plain
          s.bytes how.encrypted in
      let plain = length-read_exact_at s.amount how.start content how.plain how.read in
      (omega arith, omega arith)

  -- The chunks of one file leave what lies outside its data.
  encrypt_chunks-keeps :
      (entry : Entry) (key content : Bytes) (order : List ℕ) (t t' : ProgressTracker) (w w' : World)
      → encrypt_chunks c header entry data_start key content order t w ≡ (ok t', w')
      → encrypted_file_size entry.size ≡ ok (entry.chunk_count, entry.encrypted_size)
      → AreBelow entry.chunk_count order
      → (n p : ℕ) (x : Bytes)
      → IsOutside p n
          (data_start + entry.data_offset)
          (data_start + entry.data_offset + entry.encrypted_size)
      → read_exact_at n p w.file ≡ ok x
      → read_exact_at n p w'.file ≡ ok x
  unfolding encrypt_chunks
  encrypt_chunks-keeps entry key content [] t t' w w' h sizes below n p x out old =
      let same : w ≡ w' = ap (λ r. r.1) h in
      subst (λ (u : World). read_exact_at n p u.file ≡ ok x) same old
  encrypt_chunks-keeps entry key content (i ∷ order) t t' w w' h sizes below n p x out old =
      let (t1, h1, h2) =
        World.>>=-eq-ok (encrypt_chunk c header entry data_start key content i t) _ w h in
      let u = (encrypt_chunk c header entry data_start key content i t w).1 in
      let (s, made, wrote) =
        encrypt_chunk_lem c header entry data_start key content i t t1 w u h1 in
      let how = sealing c header entry data_start key content i s made in
      let (low, high) = sealed_range entry key content i s how sizes below.0 in
      let apart : (p + n ≤ s.destination) ⊎ (s.destination + length s.bytes ≤ p) = elim out [
        | inl a ↦ inl (omega arith)
        | inr a ↦ inr (omega arith)
      ] in
      let kept : read_exact_at n p u.file ≡ ok x =
        rw wrote (read_exact_at_elsewhere n p s.destination s.bytes w.file apart old) in
      encrypt_chunks-keeps entry key content order t1 t' u w' h2 sizes below.1 n p x out kept

  -- What the container holds of one source file after its job: the job's chunks, sealed.
  pub record IsStored (dek : Bytes) (entries : Map ℕ Entry) (job : SourceJob) (file : Bytes)
      : Type 0 where
    pub entry : Entry
    pub found : Map.get ℕ_discrete job.entry_id entries ≡ some entry
    pub content : Bytes
    pub has : job.source.content ≡ some content
    pub key : Bytes
    pub derived : derive_file_key c dek header.container_id entry.file_id ≡ ok key
    pub chunks :
        (i : ℕ)
        → Member i (job.order (range 0 entry.chunk_count))
        → SealedAt c header entry data_start key content file i

  module _ (dek : Bytes) (entries : Map ℕ Entry) (laid : AreLaidOut entries) where
    -- The job of another file leaves the stored chunks.
    encrypt_source_file-IsStored :
        (other : SourceJob) (f : Entry) (t t' : ProgressTracker) (w w' : World)
        → encrypt_source_file c header f data_start dek other.source other.order t w ≡ (ok t', w')
        → Map.get ℕ_discrete other.entry_id entries ≡ some f
        → IsFileJob entries other
        → (job : SourceJob) → IsFileJob entries job
        → job.entry_id ≢ other.entry_id
        → IsStored dek entries job w.file
        → IsStored dek entries job w'.file
    encrypt_source_file-IsStored other f t t' w w' h at_f is_other job is_job ne s =
        let (content, _, key, _, t1, w2, run, last) =
          encrypt_source_file_lem law header f dek other.source data_start other.order t t' w w'
            h in
        let (f_file, f_below) = is_other f at_f in
        let (e_file, e_below) = is_job s.entry s.found in
        let f_sizes = laid.sizes other.entry_id f at_f f_file in
        let e_sizes = laid.sizes job.entry_id s.entry s.found e_file in
        let far = laid.apart job.entry_id other.entry_id s.entry f s.found at_f e_file f_file ne in
        record {
          entry = s.entry;
          found = s.found;
          content = s.content;
          has = s.has;
          key = s.key;
          derived = s.derived;
          chunks = λ i m.
              let old = s.chunks i m in
              let below =
                All-Member (λ i. i < s.entry.chunk_count) i
                  (job.order (range 0 s.entry.chunk_count)) e_below m in
              let (low, high) =
                sealed_range s.entry s.key s.content i old.chunk old.how e_sizes below in
              let out : IsOutside old.chunk.destination (length old.chunk.bytes)
                  (data_start + f.data_offset) (data_start + f.data_offset + f.encrypted_size) =
                elim far [ inl a ↦ inl (omega arith) | inr a ↦ inr (omega arith) ] in
              let kept =
                encrypt_chunks-keeps f key content (other.order (range 0 f.chunk_count)) t t1 w w2
                  run f_sizes f_below (length old.chunk.bytes) old.chunk.destination old.chunk.bytes
                  out old.stored in
              record { chunk = old.chunk; how = old.how; stored = rw (← last) kept };
        }

    stores :
        (job : SourceJob) (e : Entry) (t t' : ProgressTracker) (w w' : World)
        → encrypt_source_file c header e data_start dek job.source job.order t w ≡ (ok t', w')
        → Map.get ℕ_discrete job.entry_id entries ≡ some e
        → IsStored dek entries job w'.file
    stores job e t t' w w' h at_e =
        let (content, has, key, derived, t1, w2, run, last) =
          encrypt_source_file_lem law header e dek job.source data_start job.order t t' w w' h in
        record {
          entry = e;
          found = at_e;
          content = content;
          has = has;
          key = key;
          derived = derived;
          chunks = λ i m.
              subst (λ (x : Bytes). SealedAt c header e data_start key content x i) last
                (encrypt_chunks-SealedAt c header e data_start key content law
                  (job.order (range 0 e.chunk_count)) t t1 w w2 run i (inr m));
        }

    -- After the loop every job is stored, whatever the order of the jobs and of their chunks.
    pub encrypt_sources-IsStored :
        (jobs : List SourceJob) (t t' : ProgressTracker) (w w' : World)
        → encrypt_sources c header dek data_start entries jobs t w ≡ (ok t', w')
        → All (IsFileJob entries) jobs
        → AreApart jobs
        → (job : SourceJob)
        → Member job jobs
          ⊎ (IsFileJob entries job
              × All (λ (other : SourceJob). job.entry_id ≢ other.entry_id) jobs
              × IsStored dek entries job w.file)
        → IsStored dek entries job w'.file
    unfolding encrypt_sources
    encrypt_sources-IsStored [] t t' w w' h files apart job (inl m) = elim m [ ]
    encrypt_sources-IsStored [] t t' w w' h files apart job (inr (_, _, s)) =
        let same : w ≡ w' = ap (λ r. r.1) h in
        subst (λ (u : World). IsStored dek entries job u.file) same s
    encrypt_sources-IsStored (j ∷ jobs) t t' w w' h files apart job start =
        let (_, h1, g1) = World.>>=-eq-ok check _ w h in
        let u = (check w).1 in
        let (e, h2, g2) =
          World.>>=-eq-ok
            (lift
              (context (Map.get ℕ_discrete j.entry_id entries) "Internal source entry mismatch"))
            _ u g1 in
        let (found, _) = lift-eq-ok _ u h2 in
        let at_e = context-eq-ok _ _ found in
        let (t1, h3, g3) =
          World.>>=-eq-ok (encrypt_source_file c header e data_start dek j.source j.order t) _ u
            g2 in
        let v = (encrypt_source_file c header e data_start dek j.source j.order t u).1 in
        let done = stores j e t t1 u v h3 at_e in
        encrypt_sources-IsStored jobs t1 t' v w' g3 files.1 apart.1 job (elim start [
          | inl (inl p) ↦ inr (
            subst (IsFileJob entries) (sym p) files.0,
            subst (λ (x : SourceJob). All (λ (other : SourceJob). x.entry_id ≢ other.entry_id) jobs)
                (sym p) apart.0,
            subst (λ (x : SourceJob). IsStored dek entries x v.file) (sym p) done,
          )
          | inl (inr m) ↦ inl m
          | inr (is_job, ne, s) ↦ inr (
            is_job,
            ne.1,
            encrypt_source_file-IsStored j e t t1 u v h3 at_e files.0 job is_job ne.0
                (subst (IsStored dek entries job) (sym (file-check w)) s),
          )
        ])

    -- The loop leaves what stands before the data.
    pub encrypt_sources-keeps :
        (jobs : List SourceJob) (t t' : ProgressTracker) (w w' : World)
        → encrypt_sources c header dek data_start entries jobs t w ≡ (ok t', w')
        → All (IsFileJob entries) jobs
        → (n p : ℕ) (x : Bytes) → p + n ≤ data_start
        → read_exact_at n p w.file ≡ ok x
        → read_exact_at n p w'.file ≡ ok x
    unfolding encrypt_sources
    encrypt_sources-keeps [] t t' w w' h files n p x le old =
        let same : w ≡ w' = ap (λ r. r.1) h in
        subst (λ (u : World). read_exact_at n p u.file ≡ ok x) same old
    encrypt_sources-keeps (j ∷ jobs) t t' w w' h files n p x le old =
        let (_, h1, g1) = World.>>=-eq-ok check _ w h in
        let u = (check w).1 in
        let (e, h2, g2) =
          World.>>=-eq-ok
            (lift
              (context (Map.get ℕ_discrete j.entry_id entries) "Internal source entry mismatch"))
            _ u g1 in
        let (found, _) = lift-eq-ok _ u h2 in
        let at_e = context-eq-ok _ _ found in
        let (t1, h3, g3) =
          World.>>=-eq-ok (encrypt_source_file c header e data_start dek j.source j.order t) _ u
            g2 in
        let v = (encrypt_source_file c header e data_start dek j.source j.order t u).1 in
        let (content, _, key, _, t2, w2, run, last) =
          encrypt_source_file_lem law header e dek j.source data_start j.order t t1 u v h3 in
        let (is_file, below) = files.0 e at_e in
        let sizes = laid.sizes j.entry_id e at_e is_file in
        let old' : read_exact_at n p u.file ≡ ok x = ap (read_exact_at n p) (file-check w) ∙ old in
        let kept =
          encrypt_chunks-keeps e key content (j.order (range 0 e.chunk_count)) t t2 u w2 run sizes
            below n p x (inl (omega arith)) old' in
        encrypt_sources-keeps jobs t1 t' v w' g3 files.1 n p x le
          (ap (read_exact_at n p) (sym last) ∙ kept)
