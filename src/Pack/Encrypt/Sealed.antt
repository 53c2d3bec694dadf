-- ===== src/Pack/Encrypt/Sealed.antt =====
-- The chunks that `encrypt_source_file` has sealed into the output: lemmas for the round trip.
use cipher_fs.Base.{
  ℕ, ◌+◌, ◌*◌, ◌≤◌, ◌<◌, ◌≡◌, ◌≢◌, ◌⊎◌, inl, inr, refl, sym, ◌∙◌, ap, some, List, [], ◌∷◌, length,
  take, drop, Member, ℕ_discrete, arith, length-take, length-drop,
}
use cipher_fs.Base.Words.{Bytes, checked_add, checked_mul, checked_add-eq-some, checked_mul-eq-some}
use cipher_fs.Errors
use cipher_fs.Errors.{
  Result, ok, err, bail_if, context, with_context, context-eq-ok, with_context-eq-ok, bail_if-eq-ok,
}
use cipher_fs.Operation.World
use cipher_fs.Operation.World.{
  World, Op, lift, check, report, read_exact_at, write_all_at, written_at, lift-eq-ok, file-check,
  write_all_at-eq-ok,
}
use cipher_fs.Operation.Positional.{read_exact_at-written_at, read_exact_at_elsewhere}
use cipher_fs.Operation.Progress.{ProgressTracker}
use cipher_fs.V2.Types.{Header, Entry, chunk_bytes, tag_bytes}
use cipher_fs.V2.Crypto.{Crypto, IsAead, encrypt_aead, length-encrypt_aead}
use cipher_fs.V2.Aad.{chunk_nonce, chunk_aad}
use cipher_fs.V2.Chunk.{chunk_len, chunk_offset}
use cipher_fs.Pack.Encrypt.{SealedChunk, seal_chunk, encrypt_chunk, encrypt_chunks}
use mathlib.Core.Path.{subst}

chunk_offset-eq-ok :
    (data_start : ℕ) (entry : Entry) (relative destination : ℕ)
    → chunk_offset data_start entry relative ≡ ok destination
    → destination ≡ data_start + entry.data_offset + relative
unfolding chunk_offset
chunk_offset-eq-ok data_start entry relative destination h =
    let (base, a, b) =
      Errors.>>=-eq-ok
        (context (checked_add data_start entry.data_offset) "Chunk file position overflow") _ h in
    let (p, _) = checked_add-eq-some data_start entry.data_offset base (context-eq-ok _ _ a) in
    let (q, _) = checked_add-eq-some base relative destination (context-eq-ok _ _ b) in omega arith

pub length-read_exact_at :
    (n p : ℕ) (file bytes : Bytes) → read_exact_at n p file ≡ ok bytes → length bytes ≡ n
unfolding read_exact_at
length-read_exact_at n p file bytes h =
    let fits : p + n ≤ length file = ground arith in
    let a = length-take n (drop p file) in
    let b = length-drop p file in
    let q : take n (drop p file) ≡ bytes = ground arith in
    let r : length (take n (drop p file)) ≡ n = omega arith in sym (ap length q) ∙ r

-- One of two different numbers is smaller.
smaller : (i j : ℕ) → i ≢ j → (i < j) ⊎ (j < i)
smaller i j n = ground arith

module _ (c : Crypto) (header : Header) (entry : Entry) (data_start : ℕ) (key content : Bytes) where
  -- How a chunk was sealed.
  pub record Sealing (i : ℕ) (s : SealedChunk) : Type 0 where
    pub plain : Bytes
    pub start : ℕ
    pub shift : ℕ
    pub offset : checked_mul i chunk_bytes ≡ some start
    pub amount : s.amount ≡ chunk_len entry start
    pub read : read_exact_at s.amount start content ≡ ok plain
    pub encrypted :
        encrypt_aead c key (chunk_nonce i) (chunk_aad header entry i s.amount) plain ≡ ok s.bytes
    pub relative : checked_mul i (chunk_bytes + tag_bytes) ≡ some shift
    pub destination : chunk_offset data_start entry shift ≡ ok s.destination

  pub sealing :
      (i : ℕ) (s : SealedChunk)
      → seal_chunk c header entry data_start key content i ≡ ok s
      → Sealing i s
  unfolding seal_chunk
  sealing i s h =
      let (offset, h1, g1) =
        Errors.>>=-eq-ok (context (checked_mul i chunk_bytes) "Source chunk offset overflow") _ h in
      let (plain, h2, g2) =
        Errors.>>=-eq-ok
          (with_context (read_exact_at (chunk_len entry offset) offset content)
            "Unable to read source chunk")
          _ g1 in
      let (encrypted, h3, g3) =
        Errors.>>=-eq-ok
          (encrypt_aead c key (chunk_nonce i) (chunk_aad header entry i (chunk_len entry offset))
            plain)
          _ g2 in
      let (relative, h4, g4) =
        Errors.>>=-eq-ok
          (context (checked_mul i (chunk_bytes + tag_bytes)) "Encrypted chunk offset overflow") _
          g3 in
      let (destination, h5, g5) = Errors.>>=-eq-ok (chunk_offset data_start entry relative) _ g4 in
      let e : s ≡ record {
        amount = chunk_len entry offset;
        bytes = encrypted;
        destination = destination;
      } =
        cc in
      subst (Sealing i) (sym e) (record {
        plain = plain;
        start = offset;
        shift = relative;
        offset = context-eq-ok _ _ h1;
        amount = refl;
        read = with_context-eq-ok _ _ h2;
        encrypted = h3;
        relative = context-eq-ok _ _ h4;
        destination = h5;
      })

  -- What one call writes.
  pub encrypt_chunk_lem :
      (i : ℕ) (t t' : ProgressTracker) (w w' : World)
      → encrypt_chunk c header entry data_start key content i t w ≡ (ok t', w')
      → (s : SealedChunk) × (seal_chunk c header entry data_start key content i ≡ ok s)
        × (w'.file ≡ written_at s.destination s.bytes w.file)
  unfolding encrypt_chunk report
  encrypt_chunk_lem i t t' w w' h =
      let (_, h1, g1) = World.>>=-eq-ok check _ w h in
      let (s, h2, g2) =
        World.>>=-eq-ok (lift (seal_chunk c header entry data_start key content i)) _ _ g1 in
      let (made, _) = lift-eq-ok (seal_chunk c header entry data_start key content i) _ h2 in
      let (_, h3, g3) = World.>>=-eq-ok (write_all_at s.destination s.bytes) _ _ g2 in
      let wrote = write_all_at-eq-ok s.destination s.bytes _ h3 in
      let same = file-check w in
      let end : w'.file ≡ _ = sym (ap (λ r. r.1.file) g3) in
      (s, made, end ∙ wrote ∙ ap (written_at s.destination s.bytes) same)

  -- The chunk `i` stands sealed in the file.
  pub record SealedAt (file : Bytes) (i : ℕ) : Type 0 where
    pub chunk : SealedChunk
    pub how : Sealing i chunk
    pub stored : read_exact_at (length chunk.bytes) chunk.destination file ≡ ok chunk.bytes

  module _ (law : IsAead c) where
    -- Where a sealed chunk lies, and how long it is.
    pub extent_lem :
        (i : ℕ) (s : SealedChunk)
        → Sealing i s
        → (s.destination ≡ data_start + entry.data_offset + i * (chunk_bytes + tag_bytes))
          × (length s.bytes ≤ chunk_bytes + tag_bytes)
    extent_lem i s how =
        let (p, _) = checked_mul-eq-some i (chunk_bytes + tag_bytes) how.shift how.relative in
        let q = chunk_offset-eq-ok data_start entry how.shift s.destination how.destination in
        let r =
          length-encrypt_aead law key (chunk_nonce i) (chunk_aad header entry i s.amount) how.plain
            s.bytes how.encrypted in
        let l = length-read_exact_at s.amount how.start content how.plain how.read in
        let a = how.amount in (omega arith, omega arith)

    kept :
        (i j : ℕ) (s : SealedChunk) (file : Bytes)
        → Sealing i s
        → i ≢ j
        → SealedAt file j
        → SealedAt (written_at s.destination s.bytes file) j
    kept i j s file how n old =
        let (p, l) = extent_lem i s how in
        let (q, m) = extent_lem j old.chunk old.how in
        let apart : (old.chunk.destination + length old.chunk.bytes ≤ s.destination)
            ⊎ (s.destination + length s.bytes ≤ old.chunk.destination) =
          elim (smaller i j n) [ inl a ↦ inr (omega arith) | inr a ↦ inl (omega arith) ] in
        record {
          chunk = old.chunk;
          how = old.how;
          stored =
              read_exact_at_elsewhere (length old.chunk.bytes) old.chunk.destination s.destination
                s.bytes file apart old.stored;
        }

    -- One call seals its chunk, and keeps the others.
    encrypt_chunk-SealedAt :
        (i : ℕ) (t t' : ProgressTracker) (w w' : World)
        → encrypt_chunk c header entry data_start key content i t w ≡ (ok t', w')
        → SealedAt w'.file i × ((j : ℕ) → SealedAt w.file j → SealedAt w'.file j)
    encrypt_chunk-SealedAt i t t' w w' h =
        let (s, made, wrote) = encrypt_chunk_lem i t t' w w' h in
        let how = sealing i s made in
        let here : SealedAt (written_at s.destination s.bytes w.file) i = record {
          chunk = s;
          how = how;
          stored = read_exact_at-written_at s.destination s.bytes w.file;
        } in
        let others : (j : ℕ)
            → SealedAt w.file j
            → SealedAt (written_at s.destination s.bytes w.file) j =
          λ j old. elim (ℕ_discrete i j) [
            | yes p ↦ subst (SealedAt (written_at s.destination s.bytes w.file)) p here
            | no n ↦ kept i j s w.file how n old
          ] in
        rw wrote (here, others)

    pub encrypt_chunks-SealedAt :
        (order : List ℕ) (t t' : ProgressTracker) (w w' : World)
        → encrypt_chunks c header entry data_start key content order t w ≡ (ok t', w')
        → (i : ℕ) → SealedAt w.file i ⊎ Member i order
        → SealedAt w'.file i
    unfolding encrypt_chunks
    encrypt_chunks-SealedAt [] t t' w w' h i (inl old) =
        let p : w ≡ w' = ap (λ r. r.1) h in subst (λ (u : World). SealedAt u.file i) p old
    encrypt_chunks-SealedAt [] t t' w w' h i (inr m) = elim m [ ]
    encrypt_chunks-SealedAt (j ∷ order) t t' w w' h i start =
        let (t1, h1, h2) =
          World.>>=-eq-ok (encrypt_chunk c header entry data_start key content j t) _ w h in
        let (here, others) = encrypt_chunk-SealedAt j t t1 w _ h1 in
        encrypt_chunks-SealedAt order t1 t' _ w' h2 i (elim start [
          | inl old ↦ inl (others i old)
          | inr (inl p) ↦ inl (subst (SealedAt _) (sym p) here)
          | inr (inr m) ↦ inr m
        ])
