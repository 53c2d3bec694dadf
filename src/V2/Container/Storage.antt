-- ===== src/V2/Container/Storage.antt =====
-- A header that was written is read back, and the write leaves the rest of the container alone.
use cipher_fs.Base.{
  sym, ℕ, ◌-◌, ◌+◌, ◌≤◌, ◌≡◌, refl, ◌∙◌, Bool, true, false, Option, none, some, List, [], ◌∷◌, ◌++◌,
  ltb, leb, length, replicate, drop, length-append, length-replicate, length-drop, take-append_left,
  arith,
}
use cipher_fs.Base.Words.{Bytes}
use cipher_fs.Errors.{
  ok-inj, Error, io_error, Result, ok, err, bail_if, bail_if-eq-ok, >>=-eq-ok, >>-eq-ok,
  with_context-eq-ok, with_context,
}
use cipher_fs.Operation.World
use cipher_fs.Operation.World.{sync_all, World, read_exact_at, write_prefix}
use cipher_fs.V2.Types.{Header, header_bytes}
use cipher_fs.V2.Limits.{validate_header_basic}
use cipher_fs.V2.Container.{Codec, IsCodec, coded, serialize_header, read_header, write_header}

pub coded-eq-ok {ℓ} : {A : Type ℓ} (o : Option A) {a : A} → coded o ≡ ok a → o ≡ some a
coded-eq-ok none h = cc
coded-eq-ok (some a) h = cc

read_prefix :
    (n : ℕ) (bytes rest : Bytes) → length bytes ≡ n → read_exact_at n 0 (bytes ++ rest) ≡ ok bytes
unfolding read_exact_at
read_prefix n bytes rest e =
    let fits : leb (0 + n) (length (bytes ++ rest)) ≡ true = rw length-append (ground (arith, e)) in
    rw (fits, ← e, take-append_left)

read_exact_at_fits :
    (n : ℕ) (file bytes : Bytes) → read_exact_at n 0 file ≡ ok bytes → n ≤ length file
unfolding read_exact_at
read_exact_at_fits n file bytes e = ground arith

module _ (codec : Codec) (law : IsCodec codec) where
  pub length-serialize_header :
      (h : Header) (bytes : Bytes)
      → serialize_header codec h ≡ ok bytes
      → length bytes ≡ header_bytes
  unfolding serialize_header
  length-serialize_header h bytes e =
      let (raw, _, e1) = >>=-eq-ok (coded (codec.encode_header h)) _ e in
      let (fits, e2) = >>-eq-ok (bail_if (ltb header_bytes (length raw)) _) _ e1 in
      let p : raw ++ replicate (header_bytes - length raw) 0 ≡ bytes = cc e2 in
      rw (← p, length-append, length-replicate) (ground (arith, bail_if-eq-ok _ _ fits))

  pub decode-serialize_header :
      (h : Header) (bytes : Bytes)
      → serialize_header codec h ≡ ok bytes
      → codec.decode_header bytes ≡ some h
  unfolding serialize_header
  decode-serialize_header h bytes e =
      let (raw, encoded, e1) = >>=-eq-ok (coded (codec.encode_header h)) _ e in
      let (fits, e2) = >>-eq-ok (bail_if (ltb header_bytes (length raw)) _) _ e1 in
      let p : raw ++ replicate (header_bytes - length raw) 0 ≡ bytes = cc e2 in
      rw (← p) (law.header h raw _ (coded-eq-ok _ encoded))

  -- The header that is read is the one whose bytes stand at the start of the file.
  pub read_header_exact :
      (h h' : Header) (bytes file : Bytes)
      → serialize_header codec h ≡ ok bytes
      → read_exact_at header_bytes 0 file ≡ ok bytes
      → read_header codec file ≡ ok h'
      → h' ≡ h
  unfolding read_header
  read_header_exact h h' bytes file e read r =
      let r' = rw (read, decode-serialize_header h bytes e) at r in
      let (_, last) = >>-eq-ok (validate_header_basic h (some (length file))) (ok h) r' in
      sym (ok-inj last)

  -- A header that is valid for the length of a container is read back when it was written over the old
  -- one.
  pub read_header-serialize_header :
      (h : Header) (bytes file : Bytes)
      → serialize_header codec h ≡ ok bytes
      → header_bytes ≤ length file
      → validate_header_basic h (some (length file)) ≡ ok tt
      → read_header codec (bytes ++ drop header_bytes file) ≡ ok h
  unfolding read_header
  read_header-serialize_header h bytes file e big valid =
      let len = length-serialize_header h bytes e in
      let same : length (bytes ++ drop header_bytes file) ≡ length file =
        length-append bytes (drop header_bytes file)
        ∙ omega (arith, length-drop header_bytes file) in
      rw (read_prefix header_bytes bytes _ len, decode-serialize_header h bytes e, same, valid)

module _ (codec : Codec) where
  -- A header that was read has passed the checks, and its file is not shorter than a header.
  pub read_header-eq-ok :
      (file : Bytes) (h : Header)
      → read_header codec file ≡ ok h
      → (header_bytes ≤ length file) × (validate_header_basic h (some (length file)) ≡ ok tt)
  unfolding read_header
  read_header-eq-ok file h e =
      let (bytes, got, e1) =
        >>=-eq-ok (with_context (read_exact_at header_bytes 0 file) "Unable to read v2 header") _
          e in
      let (h', _, e2) =
        >>=-eq-ok (with_context (coded (codec.decode_header bytes)) "Invalid v2 header encoding") _
          e1 in
      let (valid, e3) = >>-eq-ok (validate_header_basic h' (some (length file))) (ok h') e2 in
      let p : h' ≡ h = cc e3 in
      (read_exact_at_fits header_bytes file bytes (with_context-eq-ok _ _ got), rw p at valid)

  -- A write of a header puts it in front of the container's other bytes, even when the sync behind it
  -- fails, or fails and changes nothing.
  pub data Written (h : Header) (w : World) (out : Result (Unit {0}) × World) : Type 0 where
    written :
        (bytes : Bytes)
        → serialize_header codec h ≡ ok bytes
        → out.0 ≡ ok tt
        → out.1.file ≡ bytes ++ drop (length bytes) w.file
        → Written h w out
    unsynced :
        (bytes : Bytes)
        → serialize_header codec h ≡ ok bytes
        → (e : Error) → out.0 ≡ err e
        → out.1.file ≡ bytes ++ drop (length bytes) w.file
        → Written h w out
    refused : (e : Error) → out.0 ≡ err e → out.1.file ≡ w.file → Written h w out

  write_prefix_cases :
      (h : Header) (bytes : Bytes) (w : World)
      → serialize_header codec h ≡ ok bytes
      → Written h w (World.◌>>◌ (write_prefix bytes) sync_all w)
  unfolding write_prefix sync_all
  write_prefix_cases h bytes w e = go w.refusals refl
    where
      go :
          (l : List Bool)
          → w.refusals ≡ l
          → Written h w (World.◌>>◌ (write_prefix bytes) sync_all w)
      go [] p = written bytes e (ground arith) (ground arith)
      go (false ∷ []) p = written bytes e (ground arith) (ground arith)
      go (false ∷ false ∷ l) p = written bytes e (ground arith) (ground arith)
      go (false ∷ true ∷ l) p =
          unsynced bytes e (io_error "sync failed" ∷ []) (ground arith) (ground arith)
      go (true ∷ l) p = refused (io_error "write failed" ∷ []) (ground arith) (ground arith)

  pub write_header_cases : (h : Header) (w : World) → Written h w (write_header codec h w)
  unfolding write_header
  write_header_cases h w = go (serialize_header codec h) refl
    where
      go : (r : Result Bytes) → serialize_header codec h ≡ r → Written h w (write_header codec h w)
      go (ok bytes) p = rw p (write_prefix_cases h bytes w p)
      go (err e) p = rw p (refused e refl refl)

  pub events-write_header : (h : Header) (w : World) → (write_header codec h w).1.events ≡ w.events
  unfolding write_header write_prefix sync_all
  events-write_header h w = ground arith
