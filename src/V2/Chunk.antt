-- ===== src/V2/Chunk.antt =====
-- The opened container of v2.rs: opening it, and decrypting one chunk of a file.
pub mod Opening
pub mod Verify
pub mod Reopening
use cipher_fs.Base.{
  ℕ, ◌+◌, ◌≡◌, Bool, true, false, ◌||◌, not, Option, some, leb, ltb, ◌==◌, if◌then◌else◌, length,
  min,
}
use cipher_fs.Base.Words.{Bytes, checked_add, checked_mul, wrapping_sub}
use cipher_fs.Errors
use cipher_fs.Errors.{Result, ok, err, bail, bail_if, context, with_context, ◌>>=◌, ◌>>◌}
use cipher_fs.Operation.World.{read_exact_at}
use cipher_fs.V2.Types.{
  Header, Entry, EntryKind, file, directory, Index, ValidatedIndex, header_bytes, chunk_bytes,
  tag_bytes,
}
use cipher_fs.V2.Crypto.{Crypto, derive_file_key, decrypt_aead}
use cipher_fs.V2.Aad.{chunk_nonce, chunk_aad}
use cipher_fs.V2.Index.{is_directory}

pub record OpenedContainer : Type 0 where
  pub file : Bytes
  pub header : Header
  pub index : ValidatedIndex
  pub dek : Bytes
  pub data_start : ℕ

-- `position`: the container's offset of a chunk.
unfoldable pub chunk_offset : ℕ → Entry → ℕ → Result ℕ
chunk_offset data_start entry relative = do
  base ← context (checked_add data_start entry.data_offset) "Chunk file position overflow"
  context (checked_add base relative) "Chunk file position overflow"

-- `min(CHUNK_SIZE, entry.size - start)`
abbrev pub chunk_len : Entry → ℕ → ℕ
chunk_len entry start = min chunk_bytes (wrapping_sub entry.size start)

module _ (c : Crypto) where
  unfoldable pub decrypt_chunk : OpenedContainer → Entry → ℕ → Result Bytes
  unfolding chunk_offset
  decrypt_chunk opened entry chunk_index = do
    bail_if (is_directory entry.kind || leb entry.chunk_count chunk_index) "Invalid chunk request"
    plain_start ← context (checked_mul chunk_index chunk_bytes) "Chunk offset overflow"
    let plain_len = chunk_len entry plain_start
    cipher_len ← context (checked_add plain_len tag_bytes) "Ciphertext length overflow"
    relative ← context (checked_mul chunk_index (chunk_bytes + tag_bytes)) "Chunk position overflow"
    position ← chunk_offset opened.data_start entry relative
    encrypted ← read_exact_at cipher_len position opened.file
    key ← derive_file_key c opened.dek opened.header.container_id entry.file_id
    plaintext ←
        decrypt_aead c key (chunk_nonce chunk_index)
          (chunk_aad opened.header entry chunk_index plain_len) encrypted
    bail_if (not (length plaintext == plain_len)) "Chunk plaintext length mismatch"
    ok plaintext
