-- ===== src/Shell/Protocol/Frames.antt =====
-- Reading the frames that were written.
use cipher_fs.Base.{
  ℕ, zero, suc, ◌≤◌, ◌≡◌, refl, sym, ◌∙◌, ap, none, some, List, [], ◌∷◌, ◌++◌, length, arith,
  length-append, take-append_left, drop-append_left, leb, ltb, true, false,
}
use cipher_fs.Base.Words.{Bytes, le_bytes, from_le_bytes, from_le_bytes-le_bytes, length-le_bytes}
use cipher_fs.Errors.{ok, bail_if, context, >>=-eq-ok, >>-eq-ok, bail_if-eq-ok, context-eq-ok}
use cipher_fs.V2.Container.Storage.{coded-eq-ok}
use cipher_fs.V2.Container.{coded}
use cipher_fs.Shell.Protocol.{
  MessageCodec, IsMessageCodec, max_frame_size, read_exact, u32_of, write_frame, read_rest,
  read_frame, write_frames,
}
use mathlib.Core.Path.{subst}

read_exact-append : (xs ys : Bytes) → read_exact (length xs) (xs ++ ys) ≡ ok (xs, ys)
unfolding read_exact
read_exact-append xs ys =
    let l = length-append xs ys in
    let fits : leb (length xs) (length (xs ++ ys)) ≡ true = ground arith in
    rw (fits, take-append_left xs ys, drop-append_left xs ys) refl

module _ {T : Type 0} (codec : MessageCodec T) where
  -- Reading the stream gives the messages, one after the other, and then its end.
  abbrev pub ReadsAll : List T → Bytes → Type 0
  ReadsAll [] stream = read_frame codec 0 stream ≡ ok (none, [])
  ReadsAll (v ∷ vs) stream =
      (rest : Bytes) × (read_frame codec 0 stream ≡ ok (some v, rest)) × ReadsAll vs rest

module _ {T : Type 0} (codec : MessageCodec T) (law : IsMessageCodec codec) where
  -- The parts of a written frame.
  write_frame_lem :
      (v : T) (frame : Bytes)
      → write_frame codec v ≡ ok frame
      → (payload : Bytes) × (codec.encode v ≡ some payload)
        × (length payload ≤ max_frame_size)
        × (frame ≡ le_bytes 4 (length payload) ++ payload)
  unfolding write_frame
  write_frame_lem v frame h =
      let (payload, h1, g1) = >>=-eq-ok (coded (codec.encode v)) _ h in
      let (h2, g2) =
        >>-eq-ok
          (bail_if (ltb max_frame_size (length payload))
            "Worker protocol frame exceeds the size limit")
          _ g1 in
      let (len, h3, g3) =
        >>=-eq-ok (context (u32_of (length payload)) "Worker frame length overflow") _ g2 in
      let small = bail_if-eq-ok _ _ h2 in
      let num = context-eq-ok (u32_of (length payload)) _ h3 in
      let same : len ≡ length payload = ground arith in
      let e : le_bytes 4 len ++ payload ≡ frame = cc in
      (
        payload,
        coded-eq-ok (codec.encode v) h1,
        ground arith,
        sym e ∙ ap (λ n. le_bytes 4 n ++ payload) same,
      )

  read_rest_lem :
      (v : T) (payload rest others : Bytes) (first : ℕ)
      → codec.encode v ≡ some payload
      → length payload ≤ max_frame_size
      → le_bytes 4 (length payload) ≡ first ∷ others
      → read_rest codec first (others ++ (payload ++ rest)) ≡ ok (some v, rest)
  unfolding read_rest
  read_rest_lem v payload rest others first enc small bytes =
      let four = length-le_bytes 4 (length payload) in
      let whole : length (first ∷ others) ≡ 4 = ap length (sym bytes) ∙ four in
      let three : length others ≡ 3 = omega arith in
      let len : from_le_bytes (first ∷ others) ≡ length payload =
        ap from_le_bytes (sym bytes) ∙ from_le_bytes-le_bytes 4 (length payload) (omega arith) in
      let positive = law.nonempty v payload enc in
      let not_large : ltb max_frame_size (length payload) ≡ false = ground arith in
      let not_empty : leb (length payload) 0 ≡ false = ground arith in
      let head : read_exact 3 (others ++ (payload ++ rest)) ≡ ok (others, payload ++ rest) =
        subst (λ n. read_exact n (others ++ (payload ++ rest)) ≡ ok (others, payload ++ rest)) three
          (read_exact-append others (payload ++ rest)) in
      rw
        (
          head,
          len,
          not_large,
          not_empty,
          read_exact-append payload rest,
          law.decode-encode v payload enc,
        )
        refl

  -- After any number of interruptions, reading a stream that begins with a written frame gives its
  -- message and leaves what follows it.
  pub read_frame-write_frame :
      (v : T) (frame rest : Bytes) (interrupts : ℕ)
      → write_frame codec v ≡ ok frame
      → read_frame codec interrupts (frame ++ rest) ≡ ok (some v, rest)
  unfolding read_frame le_bytes
  read_frame-write_frame v frame rest (suc interrupts) h =
      read_frame-write_frame v frame rest interrupts h
  read_frame-write_frame v frame rest zero h =
      let (payload, enc, small, parts) = write_frame_lem v frame h in
      subst (λ f. read_frame codec zero (f ++ rest) ≡ ok (some v, rest)) (sym parts)
        (read_rest_lem v payload rest _ _ enc small refl)

  -- A stream of written frames reads as its messages in order, and then ends.
  pub write_frames-ReadsAll :
      (vs : List T) (stream : Bytes) → write_frames codec vs ≡ ok stream → ReadsAll codec vs stream
  unfolding write_frames read_frame
  write_frames-ReadsAll [] stream h = let e : [] ≡ stream = cc in rw⁻¹ e refl
  write_frames-ReadsAll (v ∷ vs) stream h =
      let (frame, h1, g1) = >>=-eq-ok (write_frame codec v) _ h in
      let (rest, h2, g2) = >>=-eq-ok (write_frames codec vs) _ g1 in
      let e : frame ++ rest ≡ stream = cc in
      (
        rest,
        subst (λ s. read_frame codec 0 s ≡ ok (some v, rest)) e
            (read_frame-write_frame v frame rest 0 h1),
        write_frames-ReadsAll vs rest h2,
      )
