-- ===== src/V2/Container.antt =====
-- The container file of v2.rs: its header on disk. The MessagePack encoding (the rmp-serde crate) is a
-- parameter.
pub mod Storage
use cipher_fs.Base.{
  ◌≤◌, [], ◌∷◌, ℕ, ◌-◌, ◌+◌, ◌≡◌, Option, none, some, ltb, length, replicate, ◌++◌,
}
use cipher_fs.Base.Words.{Bytes}
use cipher_fs.Errors.{◌>>=◌, ◌>>◌, Result, ok, err, library_error, message, with_context, bail_if}
use cipher_fs.Operation.World
use cipher_fs.Operation.World.{sync_all, Op, lift, read_exact_at, write_prefix}
use cipher_fs.V2.Types.{max_entries, Header, Index, header_bytes}
use cipher_fs.V2.Limits.{validate_header_basic}

pub record Codec : Type 0 where
  pub encode_header : Header → Option Bytes
  pub decode_header : Bytes → Option Header
  pub encode_index : Index → Option Bytes
  pub decode_index : Bytes → Option Index

-- `rmp_serde::from_read` reads back what `to_vec` wrote and leaves what follows it. An index is read with
-- `Index::deserialize`, which refuses more than `max_entries` entries.
pub record IsCodec (codec : Codec) : Type 0 where
  pub header :
      (h : Header) (bytes rest : Bytes)
      → codec.encode_header h ≡ some bytes
      → codec.decode_header (bytes ++ rest) ≡ some h
  pub index :
      (i : Index) (bytes : Bytes)
      → codec.encode_index i ≡ some bytes
      → length i.entries ≤ max_entries
      → codec.decode_index bytes ≡ some i

-- The `?` on an error of the encoding.
abbrev pub coded {ℓ} : {A : Type ℓ} → Option A → Result A
coded (some a) = ok a
coded none = err (library_error "MessagePack" ∷ [])

module _ (codec : Codec) where
  unfoldable pub serialize_header : Header → Result Bytes
  serialize_header header = do
    bytes ← coded (codec.encode_header header)
    bail_if (ltb header_bytes (length bytes)) "v2 header exceeds fixed header size"
    ok (bytes ++ replicate (header_bytes - length bytes) 0)

  unfoldable pub read_header : Bytes → Result Header
  read_header file = do
    bytes ← with_context (read_exact_at header_bytes 0 file) "Unable to read v2 header"
    header ← with_context (coded (codec.decode_header bytes)) "Invalid v2 header encoding"
    validate_header_basic header (some (length file))
    ok header

  unfoldable pub write_header : Header → Op (Unit {0})
  unfolding serialize_header
  write_header header =
      World.◌>>=◌ (lift (serialize_header header)) λ bytes. World.◌>>◌ (write_prefix bytes) sync_all
