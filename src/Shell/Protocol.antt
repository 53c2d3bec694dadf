-- ===== src/Shell/Protocol.antt =====
-- The frames between the shell and its worker (apps/cipherfs-windows-shell/src/protocol.rs).
pub mod Frames
use cipher_fs.Base.{
  ℕ, zero, suc, ◌+◌, ◌-◌, ◌≡◌, Bool, true, false, Option, none, some, List, [], ◌∷◌, ◌++◌, ltb, leb,
  if◌then◌else◌, length, take, drop,
}
use cipher_fs.Base.Words.{Bytes, le_bytes, from_le_bytes, u32_mod}
use cipher_fs.Errors.{
  Result, ok, err, io_error, library_error, message, bail_if, context, with_context, ◌>>=◌, ◌>>◌,
}
use cipher_fs.V2.Container.{coded}

abbrev pub max_frame_size : ℕ
max_frame_size = 8388608

-- The encoding of one type of message (the rmp-serde crate).
pub record MessageCodec (T : Type 0) : Type 0 where
  pub encode : T → Option Bytes
  pub decode : Bytes → Option T

-- `from_slice` reads back what `to_vec_named` wrote, which is never empty.
pub record IsMessageCodec {T : Type 0} (codec : MessageCodec T) : Type 0 where
  pub decode-encode :
      (v : T) (bytes : Bytes) → codec.encode v ≡ some bytes → codec.decode bytes ≡ some v
  pub nonempty : (v : T) (bytes : Bytes) → codec.encode v ≡ some bytes → leb 1 (length bytes) ≡ true

-- `read_exact` on a stream of the bytes to come.
unfoldable pub read_exact : ℕ → Bytes → Result (Bytes × Bytes)
read_exact n stream =
    if leb n (length stream)
    then ok (take n stream, drop n stream)
    else err (io_error "failed to fill whole buffer" ∷ [])

-- `u32::try_from`
abbrev pub u32_of : ℕ → Option ℕ
u32_of n = if ltb n u32_mod then some n else none

module _ {T : Type 0} (codec : MessageCodec T) where
  -- What `write_frame` appends to the stream.
  unfoldable pub write_frame : T → Result Bytes
  write_frame value = do
    payload ← coded (codec.encode value)
    bail_if (ltb max_frame_size (length payload)) "Worker protocol frame exceeds the size limit"
    len ← context (u32_of (length payload)) "Worker frame length overflow"
    ok (le_bytes 4 len ++ payload)

  -- `read_frame` behind the first byte of the length.
  unfoldable pub read_rest : ℕ → Bytes → Result (Option T × Bytes)
  unfolding read_exact
  read_rest first stream = do
    (others, stream_1) ← with_context (read_exact 3 stream) "Truncated worker frame length"
    let len = from_le_bytes (first ∷ others)
    bail_if (ltb max_frame_size len) "Worker protocol frame is too large"
    bail_if (leb len 0) "Worker protocol frame is empty"
    (payload, stream_2) ← with_context (read_exact len stream_1) "Truncated worker protocol frame"
    decoded ← with_context (coded (codec.decode payload)) "Malformed worker protocol frame"
    ok (some decoded, stream_2)

  -- The first read may be interrupted some times before it gets a byte or meets the end.
  unfoldable pub read_frame : ℕ → Bytes → Result (Option T × Bytes)
  unfolding read_rest
  read_frame (suc interrupts) stream = read_frame interrupts stream
  read_frame zero [] = ok (none, [])
  read_frame zero (first ∷ stream) = read_rest first stream

  -- Frames written one after the other, and the reading of all frames to the end of the stream.
  unfoldable pub write_frames : List T → Result Bytes
  unfolding write_frame
  write_frames [] = ok []
  write_frames (v ∷ vs) = do frame ← write_frame v; rest ← write_frames vs; ok (frame ++ rest)
