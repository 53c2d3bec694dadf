-- ===== src/V2/Limits/ChunkLayout.antt =====
-- The layout of an encrypted file: `encrypted_file_size`, and where each chunk lies.
use cipher_fs.Base.{suc, min, ℕ, ◌+◌, ◌-◌, ◌*◌, ◌/◌, ◌≤◌, ◌<◌, ◌≡◌, arith}
use cipher_fs.Errors.{ok}
use cipher_fs.V2.Types.{chunk_bytes, tag_bytes}
use cipher_fs.V2.Limits.{encrypted_file_size}

-- When `encrypted_file_size` succeeds, the chunks are just enough for the file, and each adds one tag.
pub encrypted_file_size_lem :
    (size chunks encrypted : ℕ)
    → encrypted_file_size size ≡ ok (chunks, encrypted)
    → (size ≤ chunks * chunk_bytes)
      × (chunks * chunk_bytes < size + chunk_bytes)
      × (encrypted ≡ size + chunks * tag_bytes)
unfolding encrypted_file_size
encrypted_file_size_lem size chunks encrypted h = ground arith

-- `encrypted_file_size` succeeds on every size below 2^63, with that count and that sum.
pub encrypted_file_size_total :
    (size : ℕ)
    → size < 9223372036854775808
    → encrypted_file_size size
      ≡ ok (
        (size + (chunk_bytes - 1)) / chunk_bytes,
        size + (size + (chunk_bytes - 1)) / chunk_bytes * tag_bytes,
      )
unfolding encrypted_file_size
encrypted_file_size_total size h = ground arith

-- The plaintext bytes of one chunk.
abbrev pub plain_len : ℕ → ℕ → ℕ
plain_len size i = min chunk_bytes (size - i * chunk_bytes)

-- Where a chunk's ciphertext starts within its file's data.
abbrev pub chunk_position : ℕ → ℕ
chunk_position i = i * (chunk_bytes + tag_bytes)

-- Each chunk below the count is not empty, lies within the file's encrypted bytes, and ends where the
-- next one starts, or, if it is the last, where the file's data ends.
pub chunk_tiling :
    (size chunks encrypted i : ℕ)
    → encrypted_file_size size ≡ ok (chunks, encrypted)
    → i < chunks
    → (0 < plain_len size i)
      × (chunk_position i + plain_len size i + tag_bytes ≤ encrypted)
      × (suc i < chunks → chunk_position i + plain_len size i + tag_bytes ≡ chunk_position (suc i))
      × (suc i ≡ chunks → chunk_position i + plain_len size i + tag_bytes ≡ encrypted)
chunk_tiling size chunks encrypted i h lt =
    let (enough, tight, total) = encrypted_file_size_lem size chunks encrypted h in
    (omega arith, omega arith, λ more. omega arith, λ last. omega arith)
