-- ===== src/Examples/Frames.antt =====
-- The worker's frames at concrete messages: a message is one byte.
use cipher_fs.Base.{ℕ, ◌≡◌, refl, [], ◌∷◌, ◌++◌, Option, some, none, leb, true, length}
use cipher_fs.Base.Words.{Bytes, le_bytes}
use cipher_fs.Errors.{ok}
use cipher_fs.Shell.Protocol.{MessageCodec, IsMessageCodec, write_frame, write_frames, read_frame}
use cipher_fs.Shell.Protocol.Frames.{read_frame-write_frame, write_frames-ReadsAll, ReadsAll}

abbrev first_byte : Bytes → Option ℕ
first_byte [] = none
first_byte (b ∷ bs) = some b

abbrev byte_codec : MessageCodec ℕ
byte_codec = record { encode = λ b. some (b ∷ []); decode = first_byte }

byte_codec_law : IsMessageCodec byte_codec
byte_codec_law = record {
  decode-encode = λ v bytes h. decoded v bytes h;
  nonempty = λ v bytes h. full v bytes h;
}
  where
    decoded : (v : ℕ) (bytes : Bytes) → some (v ∷ []) ≡ some bytes → first_byte bytes ≡ some v
    decoded v bytes h = let e : v ∷ [] ≡ bytes = cc in rw⁻¹ e refl

    full : (v : ℕ) (bytes : Bytes) → some (v ∷ []) ≡ some bytes → leb 1 (length bytes) ≡ true
    full v bytes h = let e : v ∷ [] ≡ bytes = cc in rw⁻¹ e refl

abbrev cancel_frame : Bytes
cancel_frame = 1 ∷ 0 ∷ 0 ∷ 0 ∷ 65 ∷ []

written : write_frame byte_codec 65 ≡ ok cancel_frame
unfolding write_frame le_bytes
written = refl

read_frame-write_frame_example :
    read_frame byte_codec 2 (cancel_frame ++ (9 ∷ [])) ≡ ok (some 65, 9 ∷ [])
read_frame-write_frame_example =
    read_frame-write_frame byte_codec byte_codec_law 65 cancel_frame (9 ∷ []) 2 written

both_written :
    write_frames byte_codec (65 ∷ 66 ∷ []) ≡ ok (cancel_frame ++ (1 ∷ 0 ∷ 0 ∷ 0 ∷ 66 ∷ []))
unfolding write_frames le_bytes
both_written = refl

write_frames-ReadsAll_example :
    ReadsAll byte_codec (65 ∷ 66 ∷ []) (cancel_frame ++ (1 ∷ 0 ∷ 0 ∷ 0 ∷ 66 ∷ []))
write_frames-ReadsAll_example =
    write_frames-ReadsAll byte_codec byte_codec_law (65 ∷ 66 ∷ [])
      (cancel_frame ++ (1 ∷ 0 ∷ 0 ∷ 0 ∷ 66 ∷ [])) both_written
