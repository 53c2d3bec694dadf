-- ===== src/V2/Chunk/Verify.antt =====
-- `verify` of v2.rs: the chunks of all files are decrypted. The workers' order is a parameter.
use cipher_fs.V2.Index.Tree.{Member-values}
use mathlib.Core.Path.{subst}
use cipher_fs.Base.Orders.{Member-range, Member-IsOrderOf, Member-map, IsSchedule, range}
use cipher_fs.Base.Map
use cipher_fs.Base.{
  refl, Member-append_right, arith, Bool-cases, ◌∙◌, some, ℕ_discrete, Member-append_left, sym, ◌<◌,
  false, map, if◌then◌else◌, ◌++◌, ℕ, ◌≡◌, ap, inl, inr, List, [], ◌∷◌, Member,
}
use cipher_fs.Base.Words.{Bytes, checked_add, checked_mul}
use cipher_fs.Base.Sort.{Member-sort_by_key, sort_by_key}
use cipher_fs.Errors
use cipher_fs.Errors.{Result, ok, err, context, with_context, with_context-eq-ok}
use cipher_fs.Operation.{phase_started, key_derivation, verify as verify_phase, map_typed}
use cipher_fs.Operation.World
use cipher_fs.Operation.World.{World, Op, ◌>>=◌, ◌>>◌, lift, check, report, lift-eq-ok}
use cipher_fs.Operation.Progress.{ProgressTracker, ProgressTracker_new, advance}
use cipher_fs.V2.Types.{Entry, SlotRandom, chunk_bytes}
use cipher_fs.V2.Crypto.{Crypto}
use cipher_fs.V2.Container.{Codec}
use cipher_fs.V2.Index.{is_directory, values}
use cipher_fs.V2.Chunk.{OpenedContainer, chunk_len, decrypt_chunk}
use cipher_fs.V2.Chunk.Opening.{open_container}

-- `try_fold` of the sizes.
unfoldable pub total_size : List Entry → ℕ → Result ℕ
total_size [] sum = ok sum
total_size (e ∷ es) sum =
    Errors.◌>>=◌ (context (checked_add sum e.size) "Total verification size overflow")
      (total_size es)

unfoldable pub only_files : List Entry → List Entry
only_files [] = []
only_files (e ∷ es) = if is_directory e.kind then only_files es else e ∷ only_files es

-- The files of the index, in the order of their data.
unfoldable pub files_by_offset : OpenedContainer → List Entry
files_by_offset opened =
    sort_by_key (λ (e : Entry). e.data_offset) (only_files (values opened.index.entries))

-- `(0..entry.chunk_count)`
abbrev pub chunk_indexes : Entry → List ℕ
chunk_indexes e = range 0 e.chunk_count

-- The calls of the two parallel loops: each chunk of each file.
unfoldable pub file_chunks : List Entry → List (Entry × ℕ)
file_chunks [] = []
file_chunks (e ∷ es) = map (λ i. (e, i)) (chunk_indexes e) ++ file_chunks es

pub Member-only_files :
    (es : List Entry) (e : Entry)
    → Member e es
    → is_directory e.kind ≡ false
    → Member e (only_files es)
unfolding only_files
Member-only_files [] e m f = elim m [ ]
Member-only_files (x ∷ es) e (inl p) f =
    rw (p, ap (λ (y : Entry). is_directory y.kind) (sym p) ∙ f) (inl refl)
Member-only_files (x ∷ es) e (inr m) f = elim (Bool-cases (is_directory x.kind)) [
  | inl d ↦ rw d (Member-only_files es e m f)
  | inr d ↦ rw d (inr (Member-only_files es e m f))
]

Member-file_chunks :
    (es : List Entry) (e : Entry) (i : ℕ)
    → Member e es
    → i < e.chunk_count
    → Member (e, i) (file_chunks es)
unfolding file_chunks
Member-file_chunks [] e i m lt = elim m [ ]
Member-file_chunks (x ∷ es) e i (inl p) lt =
    Member-append_left (e, i) (map (λ j. (x, j)) (chunk_indexes x)) (file_chunks es)
      (subst (λ y. Member {A = Entry × ℕ} (e, i) (map (λ j. (y, j)) (chunk_indexes y))) p
        (Member-map (λ (j : ℕ). (e, j)) i (chunk_indexes e)
          (Member-range i 0 e.chunk_count (omega arith) (omega arith))))
Member-file_chunks (x ∷ es) e i (inr m) lt =
    Member-append_right (e, i) (map (λ j. (x, j)) (chunk_indexes x)) (file_chunks es)
      (Member-file_chunks es e i m lt)

module _ (c : Crypto) where
  -- One call of the loop's closure.
  unfoldable pub verify_chunk : OpenedContainer → Entry → ℕ → ProgressTracker → Op ProgressTracker
  verify_chunk opened entry chunk_index t = do
    check
    _ ← lift (with_context (decrypt_chunk c opened entry chunk_index) "File entry chunk failed")
    plain_offset ←
        lift (context (checked_mul chunk_index chunk_bytes) "Verification chunk offset overflow")
    report (advance (chunk_len entry plain_offset) t).1
    lift (ok (advance (chunk_len entry plain_offset) t).0)

  -- The calls in the order in which the workers make them.
  unfoldable pub verify_chunks :
      OpenedContainer → List (Entry × ℕ) → ProgressTracker → Op ProgressTracker
  unfolding verify_chunk
  verify_chunks opened [] t = lift (ok t)
  verify_chunks opened ((entry, chunk_index) ∷ order) t = do
    t' ← verify_chunk opened entry chunk_index t
    verify_chunks opened order t'

  -- `ProgressTracker::new` and its two events.
  unfoldable pub start_tracker : ℕ → Op ProgressTracker
  start_tracker total w =
      let (t, started) = ProgressTracker_new verify_phase total in
      (ok t, record w { events = w.events ++ started })

  -- `schedule` is the order in which the workers make the calls.
  unfoldable pub verify_all_with_control :
      (List (Entry × ℕ) → List (Entry × ℕ)) → OpenedContainer → Op (Unit {0})
  verify_all_with_control schedule opened = do
    total ← lift (total_size (files_by_offset opened) 0)
    t ← start_tracker total
    _ ← verify_chunks opened (schedule (file_chunks (files_by_offset opened))) t
    lift (ok tt)

  module _ (codec : Codec) where
    unfoldable pub verify_inner :
        (List (Entry × ℕ) → List (Entry × ℕ)) → Bytes → SlotRandom → SlotRandom → Op (Unit {0})
    unfolding verify_all_with_control
    verify_inner schedule password r_0 r_1 = do
      check
      report (phase_started key_derivation)
      opened ← open_container c codec password r_0 r_1
      check
      verify_all_with_control schedule opened

    unfoldable pub verify :
        (List (Entry × ℕ) → List (Entry × ℕ)) → Bytes → SlotRandom → SlotRandom → Op (Unit {0})
    unfolding verify_inner
    verify schedule password r_0 r_1 w =
        let (result, w') = verify_inner schedule password r_0 r_1 w in (map_typed result, w')

  verify_chunk_lem :
      (opened : OpenedContainer) (entry : Entry) (i : ℕ) (t t' : ProgressTracker) (w w' : World)
      → verify_chunk opened entry i t w ≡ (ok t', w')
      → (plain : Bytes) × (decrypt_chunk c opened entry i ≡ ok plain)
  unfolding verify_chunk
  verify_chunk_lem opened entry i t t' w w' h =
      let (_, h1, g1) = World.>>=-eq-ok check _ w h in
      let (plain, h2, g2) =
        World.>>=-eq-ok
          (lift (with_context (decrypt_chunk c opened entry i) "File entry chunk failed")) _ _ g1 in
      let (made, _) =
        lift-eq-ok (with_context (decrypt_chunk c opened entry i) "File entry chunk failed") _ h2 in
      (plain, with_context-eq-ok (decrypt_chunk c opened entry i) _ made)

  verify_chunks_lem :
      (opened : OpenedContainer) (order : List (Entry × ℕ)) (t t' : ProgressTracker) (w w' : World)
      → verify_chunks opened order t w ≡ (ok t', w')
      → (entry : Entry) (i : ℕ) → Member (entry, i) order
      → (plain : Bytes) × (decrypt_chunk c opened entry i ≡ ok plain)
  unfolding verify_chunks
  verify_chunks_lem opened [] t t' w w' h entry i m = elim m [ ]
  verify_chunks_lem opened ((f, j) ∷ order) t t' w w' h entry i m =
      let (t1, h1, g1) = World.>>=-eq-ok (verify_chunk opened f j t) _ w h in
      let here = verify_chunk_lem opened f j t t1 w _ h1 in
      elim m [
        | inl p ↦
            let q : entry ≡ f = ap (λ (x : Entry × ℕ). x.0) p in
            let r : i ≡ j = ap (λ (x : Entry × ℕ). x.1) p in rw (q, r) here
        | inr n ↦ verify_chunks_lem opened order t1 t' _ w' g1 entry i n
      ]

  -- When the workers make every call in some order and the verification of an opened container succeeds,
  -- every chunk of every file of the index decrypts.
  pub verify_all_with_control_lem :
      (schedule : List (Entry × ℕ) → List (Entry × ℕ)) (opened : OpenedContainer) (w w' : World)
      → IsSchedule schedule
      → verify_all_with_control schedule opened w ≡ (ok tt, w')
      → (k : ℕ) (entry : Entry) (i : ℕ) → Map.get ℕ_discrete k opened.index.entries ≡ some entry
      → is_directory entry.kind ≡ false
      → i < entry.chunk_count
      → (plain : Bytes) × (decrypt_chunk c opened entry i ≡ ok plain)
  unfolding verify_all_with_control files_by_offset
  verify_all_with_control_lem schedule opened w w' all h k entry i found is_file lt =
      let files = files_by_offset opened in
      let m =
        Member-IsOrderOf (file_chunks files) (schedule (file_chunks files)) (entry, i)
          (all (file_chunks files))
          (Member-file_chunks files entry i
            (Member-sort_by_key (λ (e : Entry). e.data_offset) entry
              (only_files (values opened.index.entries))
              (Member-only_files (values opened.index.entries) entry
                (Member-values k entry opened.index.entries found) is_file))
            lt) in
      let (total, h1, g1) = World.>>=-eq-ok (lift (total_size files 0)) _ w h in
      let (t, h2, g2) = World.>>=-eq-ok (start_tracker total) _ _ g1 in
      let (t', h3, g3) =
        World.>>=-eq-ok (verify_chunks opened (schedule (file_chunks files)) t) _ _ g2 in
      verify_chunks_lem opened (schedule (file_chunks files)) t t' _ _ h3 entry i m
