-- ===== src/V2/Limits.antt =====
-- The limits that v2.rs checks before it trusts a header: the costs of Argon2, the header's fields,
-- and the sizes of encrypted files.
pub mod HeaderChecks
pub mod ChunkLayout
use cipher_fs.Base.{
  ℕ, zero, suc, ◌+◌, ◌-◌, ◌*◌, ◌/◌, ◌≤◌, ◌<◌, ◌≡◌, refl, Bool, true, false, ◌&&◌, ◌||◌, not, Option,
  none, some, ltb, leb, ◌==◌, if◌then◌else◌, arith, min, ◌↔◌,
}
use cipher_fs.Base.Words.{checked_add, checked_mul, bytes_eq, bytes_eq_iff, u64_mod, IsU64}
use cipher_fs.Errors.{Result, ok, err, message, ◌>>=◌, ◌>>◌, bail, bail_if, context}
use cipher_fs.V2.Types.{
  Argon2Params, KeySlot, Header, magic_bytes, version_number, header_bytes, chunk_bytes, tag_bytes,
  max_index_size, max_entries, min_argon_memory_kib, max_argon_memory_kib, max_argon_time,
  max_argon_lanes,
}

-- `(lo..=hi).contains(&x)`
abbrev pub in_range : ℕ → ℕ → ℕ → Bool
in_range lo hi x = leb lo x && leb x hi

unfoldable pub validate_argon2 : Argon2Params → Result (Unit {0})
validate_argon2 params =
    bail_if
      (not (in_range min_argon_memory_kib max_argon_memory_kib params.m_cost)
        || not (in_range 1 max_argon_time params.t_cost)
        || not (in_range 1 max_argon_lanes params.p_cost))
      "Argon2 parameters exceed local safety limits"

abbrev pub header_mismatch : Header → Bool
header_mismatch header =
    not (bytes_eq header.magic magic_bytes)
    || not (header.version == version_number)
    || not (header.header_size == header_bytes)
    || not (header.chunk_size == chunk_bytes)

-- One round of the loop over the slots.
unfoldable pub validate_slot : KeySlot → Result (Unit {0})
validate_slot slot = if ltb 0 slot.generation then validate_argon2 slot.params else ok tt

-- The test of the container's length, made when the length is given.
unfoldable pub validate_length : Header → Option ℕ → Result (Unit {0})
validate_length header none = ok tt
validate_length header (some file_len) = do
  before ← context (checked_add header_bytes header.index_size) "Container length overflow"
  expected ← context (checked_add before header.data_size) "Container length overflow"
  bail_if (not (expected == file_len)) "Container length does not match authenticated layout"

unfoldable pub validate_header_basic : Header → Option ℕ → Result (Unit {0})
unfolding validate_slot validate_length
validate_header_basic header file_len = do
  bail_if (header_mismatch header) "Unsupported or invalid CipherFS v2 header"
  bail_if (ltb header.index_size tag_bytes || ltb max_index_size header.index_size)
      "Index size exceeds local safety limits"
  bail_if (ltb max_entries header.entry_count) "Entry count exceeds local safety limits"
  validate_slot header.slot_0
  validate_slot header.slot_1
  if header.duress.enabled then validate_argon2 header.duress.params else ok tt
  validate_length header file_len

unfoldable pub encrypted_file_size : ℕ → Result (ℕ × ℕ)
encrypted_file_size size = if size == 0 then ok (0, 0) else do
  padded ← context (checked_add size (chunk_bytes - 1)) "File size overflow"
  let chunks = padded / chunk_bytes
  overhead ← context (checked_mul chunks tag_bytes) "Chunk overhead overflow"
  encrypted ← context (checked_add size overhead) "Encrypted file size overflow"
  ok (chunks, encrypted)
