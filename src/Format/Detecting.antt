-- ===== src/Format/Detecting.antt =====
-- What `require_v2` lets through.
use cipher_fs.Base.{◌∙◌, ap, ◌≡◌, refl, true, Option, some, leb, length, arith}
use cipher_fs.Base.Words.{Bytes, bytes_eq, bytes_eq_iff}
use cipher_fs.Errors.{>>-eq-ok, ok, with_context, >>=-eq-ok, with_context-eq-ok}
use cipher_fs.Operation.World.{read_exact_at}
use cipher_fs.V2.Types.{Header, magic_bytes, header_bytes}
use cipher_fs.V2.Container.Storage.{read_header-eq-ok, coded-eq-ok}
use cipher_fs.V2.Limits.HeaderChecks.{validate_header_basic_iff}
use cipher_fs.V2.Limits.{validate_header_basic}
use cipher_fs.V2.Container.{Codec, coded, read_header}
use cipher_fs.Format.{detect, require_v2}

module _ (decode_legacy : Bytes → Option Bytes) (codec : Codec) where
  header_decoded :
      (file : Bytes) (h : Header)
      → read_header codec file ≡ ok h
      → (bytes : Bytes) × (read_exact_at header_bytes 0 file ≡ ok bytes)
        × (codec.decode_header bytes ≡ some h)
  unfolding read_header
  header_decoded file h e =
      let (bytes, got, e1) =
        >>=-eq-ok (with_context (read_exact_at header_bytes 0 file) "Unable to read v2 header") _
          e in
      let (h', decoded, e2) =
        >>=-eq-ok (with_context (coded (codec.decode_header bytes)) "Invalid v2 header encoding") _
          e1 in
      let (_, e3) = >>-eq-ok (validate_header_basic h' (some (length file))) (ok h') e2 in
      let p : h' ≡ h = cc e3 in
      (
        bytes,
        with_context-eq-ok (read_exact_at header_bytes 0 file) _ got,
        coded-eq-ok (codec.decode_header bytes) (with_context-eq-ok _ _ decoded) ∙ ap some p,
      )

  -- Every container whose header `read_header` accepts passes `require_v2`, whatever the legacy decoding
  -- makes of it.
  pub require_v2-read_header :
      (file : Bytes) (h : Header)
      → read_header codec file ≡ ok h
      → require_v2 decode_legacy codec file ≡ ok tt
  unfolding require_v2 detect
  require_v2-read_header file h e =
      let (bytes, read, decoded) = header_decoded file h e in
      let (long, valid) = read_header-eq-ok codec file h e in
      let safe = (validate_header_basic_iff h (some (length file))).0 valid in
      let magic : bytes_eq h.magic magic_bytes ≡ true =
        (bytes_eq_iff h.magic magic_bytes).1 safe.magic in
      let fits : leb header_bytes (length file) ≡ true = ground arith in
      rw (fits, read, decoded, magic) refl
