-- ===== src/Pack/Encrypt/RoundTrip.antt =====
-- What `encrypt_source_file` writes, `decrypt_chunk` reads.
use cipher_fs.Base.Orders.{Member-range, Member-IsOrderOf, IsSchedule, range}
use cipher_fs.V2.Limits.ChunkLayout.{encrypted_file_size_lem, plain_len}
use cipher_fs.V2.Limits.{encrypted_file_size}
use cipher_fs.V2.Index.{is_directory}
use cipher_fs.Base.{
  some-inj, ◌-◌, true, ◌==◌, leb, false, ℕ, ◌*◌, ◌<◌, ◌≡◌, inr, refl, sym, ◌∙◌, ap, some, List,
  length, take, drop, arith,
}
use cipher_fs.Base.Words.{wrapping_sub, Bytes, checked_add, checked_mul-eq-some}
use cipher_fs.Errors.{ok, context, context-eq-ok}
use cipher_fs.Operation.World
use cipher_fs.Operation.World.{
  World, Op, lift, check, report, read_exact_at, write_all_at, written_at, lift-eq-ok, file-check,
  write_all_at-eq-ok,
}
use cipher_fs.Operation.Progress.{ProgressTracker}
use cipher_fs.V2.Types.{ValidatedIndex, Header, Entry, chunk_bytes, tag_bytes}
use cipher_fs.V2.Crypto.{
  decrypt_aead-encrypt_aead, derive_file_key, Crypto, IsAead, length-encrypt_aead,
}
use cipher_fs.V2.Aad.{chunk_nonce, chunk_aad}
use cipher_fs.V2.Chunk.{OpenedContainer, decrypt_chunk}
use cipher_fs.Pack.Encrypt.{
  ensure_unchanged, encrypt_source_file, SourceFile, SealedChunk, encrypt_chunks,
}
use mathlib.Core.Path.{subst}
use cipher_fs.Pack.Encrypt.Sealed.{Sealing, SealedAt, encrypt_chunks-SealedAt, length-read_exact_at}

-- The container that a reader has opened.
abbrev pub opened_at : Bytes → Header → ValidatedIndex → Bytes → ℕ → OpenedContainer
opened_at file header index dek data_start = record {
  file = file;
  header = header;
  index = index;
  dek = dek;
  data_start = data_start;
}

module _ {c : Crypto} (law : IsAead c) where
  -- A sealed chunk decrypts to its plaintext.
  pub decrypt_sealed :
      (header : Header) (index : ValidatedIndex) (entry : Entry) (dek key content file : Bytes)
      (data_start i : ℕ)
      → derive_file_key c dek header.container_id entry.file_id ≡ ok key
      → is_directory entry.kind ≡ false
      → i < entry.chunk_count
      → (at_ : SealedAt c header entry data_start key content file i)
      → decrypt_chunk c (opened_at file header index dek data_start) entry i ≡ ok at_.how.plain
  unfolding decrypt_chunk
  decrypt_sealed header index entry dek key content file data_start i derived is_file below at_ =
      let s = at_.chunk in
      let how = at_.how in
      let len = length-read_exact_at s.amount how.start content how.plain how.read in
      let sealed_len =
        length-encrypt_aead law key (chunk_nonce i) (chunk_aad header entry i s.amount) how.plain
          s.bytes how.encrypted in
      let opens =
        decrypt_aead-encrypt_aead law key (chunk_nonce i) (chunk_aad header entry i s.amount)
          how.plain s.bytes how.encrypted in
      let inside : leb entry.chunk_count i ≡ false = ground arith in
      let amount = how.amount in
      let fits : checked_add s.amount tag_bytes ≡ some (length s.bytes) = ground arith in
      let whole : (length how.plain == s.amount) ≡ true = ground arith in
      rw (
        is_file,
        inside,
        how.offset,
        ← amount,
        fits,
        how.relative,
        how.destination,
        at_.stored,
        derived,
        opens,
        whole,
      )

  -- The plaintext of a chunk is its range of the source.
  pub plain_range :
      (header : Header) (entry : Entry) (key content : Bytes) (data_start i : ℕ) (s : SealedChunk)
      → (how : Sealing c header entry data_start key content i s)
      → encrypted_file_size entry.size ≡ ok (entry.chunk_count, entry.encrypted_size)
      → i < entry.chunk_count
      → how.plain ≡ take (plain_len entry.size i) (drop (i * chunk_bytes) content)
  unfolding read_exact_at
  plain_range header entry key content data_start i s how sizes below =
      let (enough, tight, _) =
        encrypted_file_size_lem entry.size entry.chunk_count entry.encrypted_size sizes in
      let (start, _) = checked_mul-eq-some i chunk_bytes how.start how.offset in
      let within : leb how.start entry.size ≡ true = ground arith in
      let amount = how.amount in
      let sub : wrapping_sub entry.size how.start ≡ entry.size - how.start = rw within refl in
      let len : s.amount ≡ plain_len entry.size i = omega arith in
      let read = how.read in
      let range : take s.amount (drop how.start content) ≡ how.plain = ground arith in
      sym range
      ∙ ap (λ n. take n (drop how.start content)) len
      ∙ ap (λ n. take (plain_len entry.size i) (drop n content)) start

  -- What a successful run has found and done.
  pub encrypt_source_file_lem :
      (header : Header) (entry : Entry) (dek : Bytes) (source : SourceFile) (data_start : ℕ)
      (order : List ℕ → List ℕ) (t t' : ProgressTracker) (w w' : World)
      → encrypt_source_file c header entry data_start dek source order t w ≡ (ok t', w')
      → (content : Bytes) × (source.content ≡ some content)
        × (key : Bytes) × (derive_file_key c dek header.container_id entry.file_id ≡ ok key)
        × (t1 : ProgressTracker) × (w2 : World) × (encrypt_chunks c header entry data_start key
              content
              (order (range 0 entry.chunk_count))
              t
              w
            ≡ (ok t1, w2))
        × (w2.file ≡ w'.file)
  unfolding encrypt_source_file
  encrypt_source_file_lem header entry dek source data_start order t t' w w' h =
      let (content, h1, g1) =
        World.>>=-eq-ok (lift (context source.content "Unable to open source file")) _ w h in
      let (found, _) = lift-eq-ok (context source.content "Unable to open source file") w h1 in
      let found' = context-eq-ok source.content _ found in
      let (_, h2, g2) = World.>>=-eq-ok (lift (ensure_unchanged source.changed_before)) _ _ g1 in
      let (key, h3, g3) =
        World.>>=-eq-ok (lift (derive_file_key c dek header.container_id entry.file_id)) _ _ g2 in
      let (t1, h4, g4) =
        World.>>=-eq-ok
          (encrypt_chunks c header entry data_start key content (order (range 0 entry.chunk_count))
            t)
          _ _ g3 in
      let (_, h5, g5) = World.>>=-eq-ok (lift (ensure_unchanged source.changed_after)) _ _ g4 in
      let (derived, _) =
        lift-eq-ok (derive_file_key c dek header.container_id entry.file_id) _ h3 in
      let w2 =
        (encrypt_chunks c header entry data_start key content (order (range 0 entry.chunk_count)) t
          w).1 in
      (content, found', key, derived, t1, w2, h4, ap (λ r. r.1.file) g5)

  -- When the source file was encrypted without an error, by workers that take its chunks in any order,
  -- each chunk decrypts from the output to the same range of the source file.
  pub decrypt_chunk-encrypt_source_file :
      (header : Header) (index : ValidatedIndex) (entry : Entry) (dek content : Bytes)
      (source : SourceFile) (data_start i : ℕ) (order : List ℕ → List ℕ) (t t' : ProgressTracker)
      (w w' : World)
      → encrypt_source_file c header entry data_start dek source order t w ≡ (ok t', w')
      → source.content ≡ some content
      → is_directory entry.kind ≡ false
      → encrypted_file_size entry.size ≡ ok (entry.chunk_count, entry.encrypted_size)
      → i < entry.chunk_count
      → IsSchedule order
      → decrypt_chunk c (opened_at w'.file header index dek data_start) entry i
        ≡ ok (take (plain_len entry.size i) (drop (i * chunk_bytes) content))
  decrypt_chunk-encrypt_source_file header index entry dek content source data_start i order t t' w
        w' h has is_file sizes below all =
      let m =
        Member-IsOrderOf (range 0 entry.chunk_count) (order (range 0 entry.chunk_count)) i
          (all (range 0 entry.chunk_count))
          (Member-range i 0 entry.chunk_count (omega arith) (omega arith)) in
      let (content', has', key, derived, t1, w2, run', last) =
        encrypt_source_file_lem header entry dek source data_start order t t' w w' h in
      let same : content' ≡ content = some-inj (sym has' ∙ has) in
      let run : encrypt_chunks c header entry data_start key content
            (order (range 0 entry.chunk_count)) t w
          ≡ (ok t1, w2) =
        subst
          (λ x.
            encrypt_chunks c header entry data_start key x (order (range 0 entry.chunk_count)) t w
            ≡ (ok t1, w2))
          same run' in
      let at_ : SealedAt c header entry data_start key content w2.file i =
        encrypt_chunks-SealedAt c header entry data_start key content law
          (order (range 0 entry.chunk_count)) t t1 w w2 run i (inr m) in
      let at' : SealedAt c header entry data_start key content w'.file i =
        subst (λ (f : Bytes). SealedAt c header entry data_start key content f i) last at_ in
      decrypt_sealed header index entry dek key content w'.file data_start i derived is_file below
        at'
      ∙ ap ok (plain_range header entry key content data_start i at'.chunk at'.how sizes below)
