-- ===== src/Pack/Encrypt.antt =====
-- `encrypt_source_file` of pack.rs: the chunks of one source file go to their places in the output.
pub mod Sealed
pub mod RoundTrip
use cipher_fs.Base.Orders.{range}
use cipher_fs.Base.{ℕ, ◌+◌, ◌*◌, ◌≡◌, Bool, true, false, Option, none, some, List, [], ◌∷◌, length}
use cipher_fs.Base.Words.{Bytes, checked_add, checked_mul}
use cipher_fs.Errors
use cipher_fs.Errors.{Result, ok, err, bail_if, context, with_context}
use cipher_fs.Operation.World.{Op, ◌>>=◌, ◌>>◌, lift, check, report, read_exact_at, write_all_at}
use cipher_fs.Operation.Progress.{ProgressTracker, advance}
use cipher_fs.V2.Types.{Header, Entry, chunk_bytes, tag_bytes}
use cipher_fs.V2.Crypto.{Crypto, derive_file_key, encrypt_aead}
use cipher_fs.V2.Aad.{chunk_nonce, chunk_aad}
use cipher_fs.V2.Chunk.{chunk_len, chunk_offset}

-- What the system shows of a source file: its bytes, when it can be opened, and whether its fingerprint
-- differs from the snapshot's at the first and at the second look.
pub record SourceFile : Type 0 where
  pub content : Option Bytes
  pub changed_before : Bool
  pub changed_after : Bool

-- One encrypted chunk, with the amount of plaintext in it and its place in the output.
pub record SealedChunk : Type 0 where
  pub amount : ℕ
  pub bytes : Bytes
  pub destination : ℕ

abbrev pub ensure_unchanged : Bool → Result (Unit {0})
ensure_unchanged changed = bail_if changed "Source file changed while packing"

-- `progress.advance`
abbrev pub advance_progress : ℕ → ProgressTracker → Op ProgressTracker
advance_progress amount t = do report (advance amount t).1; lift (ok (advance amount t).0)

module _ (c : Crypto) where
  unfoldable pub seal_chunk : Header → Entry → ℕ → Bytes → Bytes → ℕ → Result SealedChunk
  seal_chunk header entry data_start key content chunk_index =
      Errors.◌>>=◌ (context (checked_mul chunk_index chunk_bytes) "Source chunk offset overflow")
        λ plain_offset.
          let expected = chunk_len entry plain_offset in
          Errors.◌>>=◌
            (with_context (read_exact_at expected plain_offset content)
              "Unable to read source chunk")
            λ buffer.
              Errors.◌>>=◌
                (encrypt_aead c key (chunk_nonce chunk_index)
                  (chunk_aad header entry chunk_index expected) buffer)
                λ encrypted.
                  Errors.◌>>=◌
                    (context (checked_mul chunk_index (chunk_bytes + tag_bytes))
                      "Encrypted chunk offset overflow")
                    λ relative. Errors.◌>>=◌ (chunk_offset data_start entry relative) λ destination.
                      ok
                        (record { amount = expected; bytes = encrypted; destination = destination })

  -- One call of the loop's closure.
  unfoldable pub encrypt_chunk :
      Header → Entry → ℕ → Bytes → Bytes → ℕ → ProgressTracker → Op ProgressTracker
  encrypt_chunk header entry data_start key content chunk_index t = do
    check
    sealed ← lift (seal_chunk header entry data_start key content chunk_index)
    write_all_at sealed.destination sealed.bytes
    advance_progress sealed.amount t

  -- The calls in the order in which the workers make them.
  unfoldable pub encrypt_chunks :
      Header → Entry → ℕ → Bytes → Bytes → List ℕ → ProgressTracker → Op ProgressTracker
  encrypt_chunks header entry data_start key content [] t = lift (ok t)
  encrypt_chunks header entry data_start key content (i ∷ order) t = do
    t' ← encrypt_chunk header entry data_start key content i t
    encrypt_chunks header entry data_start key content order t'

  -- `order` is the order in which the workers take the chunks.
  unfoldable pub encrypt_source_file :
      Header
      → Entry
      → ℕ
      → Bytes
      → SourceFile
      → (List ℕ → List ℕ)
      → ProgressTracker
      → Op ProgressTracker
  encrypt_source_file header entry data_start dek source order t = do
    content ← lift (context source.content "Unable to open source file")
    lift (ensure_unchanged source.changed_before)
    key ← lift (derive_file_key c dek header.container_id entry.file_id)
    t' ← encrypt_chunks header entry data_start key content (order (range 0 entry.chunk_count)) t
    lift (ensure_unchanged source.changed_after)
    lift (ok t')
