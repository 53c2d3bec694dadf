-- ===== src/ReadOnly/Ranges.antt =====
-- `read` returns the requested range of the file.
use cipher_fs.V2.Limits.{encrypted_file_size}
use cipher_fs.ReadOnly.ChunkCache.{Cache}
use cipher_fs.ReadOnly.Coherence.{load_chunk_lem, IsCoherent, IsFileOf, HasUniqueFiles}
use cipher_fs.V2.Chunk.{decrypt_chunk, OpenedContainer}
use cipher_fs.V2.Crypto.{Crypto}
use mathlib.Core.Path.{subst}
use cipher_fs.Base.{
  ◌/◌, drop_of_length-le, some, take_of_length-le, [], inl, inr, leb, Bool-cases, zero, true, ◌==◌,
  ℕ, suc, ◌+◌, ◌-◌, ◌*◌, ◌≤◌, ◌<◌, ◌≡◌, refl, sym, ◌∙◌, ap, false, ◌++◌, length, take, drop, min,
  max, ltb, arith, length-take, length-drop, drop-drop, take-take_le, drop-take_lem,
  take-drop_split,
}
use cipher_fs.Base.Words.{checked_add_fits, u64_mod, Bytes}
use cipher_fs.V2.Types.{Entry, chunk_bytes}
use cipher_fs.V2.Limits.ChunkLayout.{encrypted_file_size_lem, plain_len}
use cipher_fs.ReadOnly.{
  last_byte, read_to, metadata, read, then_fs, load_chunk, read_chunks, ok, done, chunk_range,
}

-- The range of a file's bytes that a chunk holds.
abbrev pub chunk_of : Bytes → ℕ → Bytes
chunk_of content i = take (plain_len (length content) i) (drop (i * chunk_bytes) content)

-- Before the round for chunk `i`, the output's length.
abbrev produced : ℕ → ℕ → ℕ → ℕ
produced offset read_len i = min (offset + read_len) (max offset (i * chunk_bytes)) - offset

module _ (content : Bytes) (offset read_len : ℕ) (within : offset + read_len ≤ length content) where
  range : ℕ → Bytes
  range n = take n (drop offset content)

  length-range : (n : ℕ) → n ≤ read_len → length (range n) ≡ n
  unfolding range
  length-range n h =
      let a = length-take n (drop offset content) in
      let b = length-drop offset content in omega arith

  whole : (n : ℕ) → n ≡ read_len → range n ≡ take read_len (drop offset content)
  unfolding range
  whole n e = ap (λ k. take k (drop offset content)) e

  whole_at : (n : ℕ) → n ≡ 0 → range n ≡ []
  unfolding range
  whole_at n e = ap (λ k. take k (drop offset content)) e

  length-chunk_of : (i : ℕ) → length (chunk_of content i) ≡ plain_len (length content) i
  length-chunk_of i =
      let a = length-take (plain_len (length content) i) (drop (i * chunk_bytes) content) in
      let b = length-drop (i * chunk_bytes) content in omega arith

  -- A part of a chunk is a part of the file.
  part_of_chunk :
      (i skip t n : ℕ)
      → skip + t ≤ plain_len (length content) i
      → offset + n ≡ i * chunk_bytes + skip
      → take t (drop skip (chunk_of content i)) ≡ take t (drop n (drop offset content))
  part_of_chunk i skip t n fits at_ =
      let p = plain_len (length content) i in
      let xs = drop (i * chunk_bytes) content in
      ap (take t) (drop-take_lem p (p - skip) skip xs (omega arith))
      ∙ take-take_le (p - skip) t (drop skip xs) (omega arith)
      ∙ ap (take t) (drop-drop (i * chunk_bytes) skip (offset + n) content at_)
      ∙ ap (take t) (sym (drop-drop offset n (offset + n) content refl))

  -- One round of the loop.
  chunk_range_lem :
      (i : ℕ)
      → i * chunk_bytes < offset + read_len
      → offset < suc i * chunk_bytes
      → offset < length content
      → chunk_range offset read_len i (range (produced offset read_len i)) (chunk_of content i)
        ≡ done (range (produced offset read_len (suc i)))
  unfolding chunk_range range
  chunk_range_lem i below above inside =
      let n = produced offset read_len i in
      let skip = offset - i * chunk_bytes in
      let l = length-range n (omega arith) in
      let m = length-chunk_of i in
      let t = min (length (chunk_of content i) - skip) (read_len - length (range n)) in
      let test : ltb (length (chunk_of content i)) skip ≡ false = ground arith in
      let grow : produced offset read_len (suc i) ≡ n + t = omega arith in
      let part = part_of_chunk i skip t n (omega arith) (omega arith) in
      let split =
        take-drop_split n t (produced offset read_len (suc i)) (drop offset content) grow in
      rw test (ap (λ x. done (range n ++ x)) part ∙ ap done (sym split))

size_bound :
    (size chunks encrypted : ℕ)
    → encrypted_file_size size ≡ ok (chunks, encrypted)
    → 0 < size
    → size < u64_mod
unfolding encrypted_file_size
size_bound size chunks encrypted h positive = ground arith

last_byte_lem :
    (offset read_len : ℕ)
    → 0 < offset + read_len
    → offset + read_len < u64_mod
    → last_byte offset read_len ≡ some (offset + read_len - 1)
last_byte_lem offset read_len positive fits =
    let sum = checked_add_fits offset read_len fits in
    let one : leb 1 (offset + read_len) ≡ true = ground arith in rw (sum, one) refl

take-min : (n k : ℕ) (xs : Bytes) → k ≡ min n (length xs) → take k xs ≡ take n xs
take-min n k xs e = elim (Bool-cases (leb n (length xs))) [
  | inl a ↦ let p : k ≡ n = ground arith in ap (λ j. take j xs) p
  | inr a ↦
      let p : length xs ≤ k = ground arith in
      let q : length xs ≤ n = ground arith in
      take_of_length-le k xs p ∙ sym (take_of_length-le n xs q)
]

module _ (c : Crypto) (opened : OpenedContainer) (unique : HasUniqueFiles opened.index) where
  -- Each chunk of the file decrypts to its range of `content`.
  abbrev pub Serves : Entry → Bytes → Type 0
  Serves e content =
      (i : ℕ) → i < e.chunk_count → decrypt_chunk c opened e i ≡ ok (chunk_of content i)

  module _ (id : ℕ) (e : Entry) (content : Bytes) (is : IsFileOf opened.index id e)
      (serves : Serves e content) where
    read_chunks_lem :
        (offset read_len : ℕ) (within : offset + read_len ≤ length content)
        → offset < length content
        → length content ≤ e.chunk_count * chunk_bytes
        → (count i : ℕ) (cache : Cache) → offset < suc i * chunk_bytes
        → offset + read_len ≤ i * chunk_bytes + count * chunk_bytes
        → (0 < count → i * chunk_bytes + count * chunk_bytes < offset + read_len + chunk_bytes)
        → IsCoherent c opened cache
        → ((read_chunks c opened e offset read_len i count
              (range content offset read_len within (produced offset read_len i))
              cache).0
            ≡ done (take read_len (drop offset content)))
          × IsCoherent c opened
              (read_chunks c opened e offset read_len i count
                (range content offset read_len within (produced offset read_len i))
                cache).1
    unfolding read_chunks
    read_chunks_lem offset read_len within inside enough zero i cache above covers ends coherent =
        let n = produced offset read_len i in
        let all : n ≡ read_len = omega arith in
        let l = length-range content offset read_len within n (omega arith) in
        let test : (length (range content offset read_len within n) == read_len) ≡ true =
          ground arith in
        let rest : range content offset read_len within n ≡ take read_len (drop offset content) =
          whole content offset read_len within n all in
        rw test (ap done rest, coherent)
    read_chunks_lem offset read_len within inside enough (suc count) i cache above covers ends
          coherent =
        let below : i * chunk_bytes < offset + read_len = omega arith in
        let exists : i < e.chunk_count = omega arith in
        let (loaded, coherent') =
          load_chunk_lem c opened unique id e i (chunk_of content i) cache is coherent
            (serves i exists) in
        let round = chunk_range_lem content offset read_len within i below above inside in
        let ih =
          read_chunks_lem offset read_len within inside enough count (suc i)
            (load_chunk c opened e i cache).1 (omega arith) (omega arith) (λ p. omega arith)
            coherent' in
        rw (loaded, then_fs, round, then_fs) ih

    -- The loop from its first chunk on.
    started :
        (offset size : ℕ) (cache : Cache)
        → length content ≡ e.size
        → e.size ≤ e.chunk_count * chunk_bytes
        → 0 < offset + size
        → offset < length content
        → IsCoherent c opened cache
        → ((read_to c opened e offset
              (min size (e.size - offset))
              (some (offset + min size (e.size - offset) - 1))
              cache).0
            ≡ done (take size (drop offset content)))
          × IsCoherent c opened
              (read_to c opened e offset
                (min size (e.size - offset))
                (some (offset + min size (e.size - offset) - 1))
                cache).1
    started offset size cache len enough some_range inside coherent =
        let read_len = min size (e.size - offset) in
        let start = offset / chunk_bytes in
        let count = suc ((offset + read_len - 1) / chunk_bytes) - start in
        let within : offset + read_len ≤ length content = omega arith in
        let none_yet : produced offset read_len start ≡ 0 = omega arith in
        let empty : range content offset read_len within (produced offset read_len start) ≡ [] =
          whole_at content offset read_len within _ none_yet in
        let run =
          read_chunks_lem offset read_len within inside (omega arith) count start cache
            (omega arith) (omega arith) (λ p. omega arith) coherent in
        let cut : take read_len (drop offset content) ≡ take size (drop offset content) =
          take-min size read_len (drop offset content)
            (let l = length-drop offset content in omega arith) in
        subst
          (λ out.
            ((read_chunks c opened e offset read_len start count out cache).0
              ≡ done (take size (drop offset content)))
            × IsCoherent c opened (read_chunks c opened e offset read_len start count out cache).1)
          empty (run.0 ∙ ap done cut, run.1)

    -- Reading a range of a file of the index, where each chunk decrypts to its range of `content`, with a
    -- coherent cache and an offset or a size other than zero: the result is that range of `content`, cut
    -- at its end, whatever is cached, and the cache stays coherent.
    pub read_lem :
        (offset size : ℕ) (cache : Cache)
        → length content ≡ e.size
        → encrypted_file_size e.size ≡ ok (e.chunk_count, e.encrypted_size)
        → 0 < offset + size
        → IsCoherent c opened cache
        → ((read c opened id offset size cache).0 ≡ done (take size (drop offset content)))
          × IsCoherent c opened (read c opened id offset size cache).1
    unfolding read metadata
    read_lem offset size cache len sizes some_range coherent =
        let (enough, tight, _) =
          encrypted_file_size_lem e.size e.chunk_count e.encrypted_size sizes in
        let at_ = is.0 in
        let is_file = is.1 in
        elim (Bool-cases (leb e.size offset)) [
          | inl past ↦
              let beyond : length content ≤ offset = ground arith in
              let nothing : take size (drop offset content) ≡ [] =
                ap (take size) (drop_of_length-le offset content beyond)
                ∙ take_of_length-le size [] (omega arith) in
              rw (at_, is_file, past) (ap done (sym nothing), coherent)
          | inr before ↦
              let inside : offset < length content = ground arith in
              let read_len = min size (e.size - offset) in
              let bound = size_bound e.size e.chunk_count e.encrypted_size sizes (omega arith) in
              let last = last_byte_lem offset read_len (omega arith) (omega arith) in
              rw (at_, is_file, before, last)
                (started offset size cache len enough some_range inside coherent)
        ]
