-- ===== src/Format.antt =====
-- Telling the container formats apart (crates/cipherfs-core/src/format.rs). The legacy header's decoding
-- is a parameter, which gives its magic bytes.
pub mod Detecting
use cipher_fs.Base.{
  ℕ, Bool, true, false, Option, none, some, List, [], ◌∷◌, leb, if◌then◌else◌, length,
}
use cipher_fs.Base.Words.{Bytes, bytes_eq}
use cipher_fs.Errors.{Result, ok, bail, with_context, ◌>>=◌}
use cipher_fs.Operation.World.{read_exact_at}
use cipher_fs.V2.Types.{Header, magic_bytes, header_bytes}
use cipher_fs.V2.Container.{Codec}

pub data Format : Type 0 where
  v1 v2 : Format

-- `MAGIC_BYTES` and `HEADER_SIZE` of layout.rs.
abbrev pub legacy_magic : Bytes
legacy_magic = 67 ∷ 70 ∷ 83 ∷ 1 ∷ []

abbrev pub legacy_header_bytes : ℕ
legacy_header_bytes = 512

abbrev pub has_magic : Option Header → Bool
has_magic none = false
has_magic (some header) = bytes_eq header.magic magic_bytes

abbrev pub is_legacy : Option Bytes → Bool
is_legacy none = false
is_legacy (some magic) = bytes_eq magic legacy_magic

module _ (decode_legacy : Bytes → Option Bytes) where
  -- The second test, and the error behind it.
  unfoldable pub detect_legacy : Bytes → Result Format
  detect_legacy file =
      if leb legacy_header_bytes (length file)
      then (do
        encoded ←
            with_context (read_exact_at legacy_header_bytes 0 file)
              "Unable to read legacy container header"
        if is_legacy (decode_legacy encoded)
            then ok v1
            else bail "Not a supported CipherFS container")
      else bail "Not a supported CipherFS container"

  module _ (codec : Codec) where
    unfoldable pub detect : Bytes → Result Format
    unfolding detect_legacy
    detect file =
        if leb header_bytes (length file)
        then (do
          encoded ←
              with_context (read_exact_at header_bytes 0 file) "Unable to read container header"
          if has_magic (codec.decode_header encoded) then ok v2 else detect_legacy file)
        else detect_legacy file

    abbrev pub only_v2 : Format → Result (Unit {0})
    only_v2 v2 = ok tt
    only_v2 v1 =
        bail
          "CipherFS v1 is not supported by v3.0.0. Use v2.2.0-beta.1 or earlier to extract a trusted v1 container, then pack the extracted directory as v2. See README.md#legacy-v1-migration"

    unfoldable pub require_v2 : Bytes → Result (Unit {0})
    unfolding detect
    require_v2 file = detect file >>= only_v2
