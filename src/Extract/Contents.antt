-- ===== src/Extract/Contents.antt =====
-- What the batches of extract.rs write to one file.
use cipher_fs.Base.Orders.{range}
use cipher_fs.SafeFs.Changes.{write_all-eq-ok}
use mathlib.Core.Path.{subst}
use cipher_fs.Base.Paths.{path_discrete, PathBuf}
use cipher_fs.Errors.{with_context-eq-ok, with_context, ok-inj, ok, Result}
use cipher_fs.Operation.Progress.{advance, ProgressTracker}
use cipher_fs.V2.Types.{Entry}
use cipher_fs.V2.Chunk.{decrypt_chunk, OpenedContainer}
use cipher_fs.Base.Words.{Bytes}
use cipher_fs.V2.Crypto.{Crypto}
use cipher_fs.Extract.{extract_batches, extract_batch, decrypt_batch, write_chunks}
use cipher_fs.Base.{
  inr, inl, Bool-cases, ltb, length, refl, min, Option, ◌≢◌, ◌-◌, sym, zero, ap, arith, ◌+◌, suc,
  some, ◌≤◌, [], ◌++◌, ◌∙◌, ◌≡◌, ℕ, ◌∷◌, List,
}
use cipher_fs.SafeFs.{
  appended, FsNode, with_node, write_all, data_node, temp_path, SafeRoot, set_node, node_at,
  PendingFile,
}
use cipher_fs.Base.Map
use mathlib.Core.List.{append-nil, append_assoc}
use cipher_fs.Errors
use cipher_fs.Operation.World
use cipher_fs.Operation.World.{report, lift, check, World, ◌>>=◌, ◌>>◌}

-- The node at a file's temporary path has the given content, and nothing else has changed.
pub record IsWritten (pending : PendingFile) (content : Bytes) (root root' : SafeRoot)
    : Type 0 where
  pub same_directories : root'.directories ≡ root.directories
  pub held : node_at (temp_path pending) root'.tree ≡ some (data_node content)
  pub others : (q : PathBuf) → temp_path pending ≢ q → node_at q root'.tree ≡ node_at q root.tree

IsWritten-same :
    (pending : PendingFile) (content : Bytes) (root : SafeRoot)
    → node_at (temp_path pending) root.tree ≡ some (data_node content)
    → IsWritten pending content root root
IsWritten-same pending content root held = record {
  same_directories = refl;
  held = held;
  others = λ q ne. refl;
}

IsWritten-trans :
    {pending : PendingFile} {content content' : Bytes} {r0 r1 r2 : SafeRoot}
    → IsWritten pending content r0 r1
    → IsWritten pending content' r1 r2
    → IsWritten pending content' r0 r2
IsWritten-trans a b = record {
  same_directories = b.same_directories ∙ a.same_directories;
  held = b.held;
  others = λ q ne. b.others q ne ∙ a.others q ne;
}

write_all-IsWritten :
    (pending : PendingFile) (old bytes : Bytes) (root root' : SafeRoot) (w w' : World)
    → node_at (temp_path pending) root.tree ≡ some (data_node old)
    → write_all pending bytes root w ≡ (ok root', w')
    → IsWritten pending (old ++ bytes) root root'
unfolding node_at set_node
write_all-IsWritten pending old bytes root root' w w' held h =
    let p = temp_path pending in
    let made = write_all-eq-ok pending bytes root root' w w' h in
    let made' : with_node p (data_node (old ++ bytes)) root ≡ root' =
      ap (λ (n : Option FsNode). with_node p (appended n bytes) root) (sym held) ∙ made in
    record {
      same_directories = ap (λ (r : SafeRoot). r.directories) (sym made');
      held =
          ap (λ (r : SafeRoot). node_at p r.tree) (sym made')
          ∙ Map.get-insert_self path_discrete p (data_node (old ++ bytes)) root.tree;
      others = λ q ne.
          ap (λ (r : SafeRoot). node_at q r.tree) (sym made')
          ∙ Map.get-insert_ne path_discrete p q (data_node (old ++ bytes)) root.tree ne;
    }

unfoldable pub concat : List Bytes → Bytes
concat [] = []
concat (chunk ∷ chunks) = chunk ++ concat chunks

write_chunks-IsWritten :
    (pending : PendingFile) (chunks : List Bytes) (old : Bytes) (root root' : SafeRoot)
    (t t' : ProgressTracker) (w w' : World)
    → node_at (temp_path pending) root.tree ≡ some (data_node old)
    → write_chunks pending chunks root t w ≡ (ok (root', t'), w')
    → IsWritten pending (old ++ concat chunks) root root'
unfolding write_chunks concat
write_chunks-IsWritten pending [] old root root' t t' w w' held h =
    subst (IsWritten pending (old ++ []) root) (ap (λ p. p.0) (ok-inj (ap (λ r. r.0) h))) (
      IsWritten-same pending (old ++ []) root
        (held ∙ ap (λ x. some (data_node x)) (sym (append-nil old))))
write_chunks-IsWritten pending (chunk ∷ chunks) old root root' t t' w w' held h =
    let (next, h1, g1) = World.>>=-eq-ok (write_all pending chunk root) _ w h in
    let (_, h2, g2) = World.>>=-eq-ok (report (advance (length chunk) t).1) _ _ g1 in
    let first = write_all-IsWritten pending old chunk root next w _ held h1 in
    let rest =
      write_chunks-IsWritten pending chunks (old ++ chunk) next root' _ t' _ w' first.held g2 in
    subst (λ x. IsWritten pending x root root') (append_assoc old chunk (concat chunks))
      (IsWritten-trans first rest)

module _ (c : Crypto) (opened : OpenedContainer) where
  -- `count` chunks of a file from `i` on, decrypted one after the other.
  unfoldable pub file_plaintext : Entry → ℕ → ℕ → Result Bytes
  file_plaintext e i zero = ok []
  file_plaintext e i (suc count) =
      Errors.◌>>=◌ (decrypt_chunk c opened e i)
        λ chunk. Errors.◌>>=◌ (file_plaintext e (suc i) count) λ rest. ok (chunk ++ rest)

  file_plaintext-cons :
      (e : Entry) (i count : ℕ) (x y : Bytes)
      → decrypt_chunk c opened e i ≡ ok x
      → file_plaintext e (suc i) count ≡ ok y
      → file_plaintext e i (suc count) ≡ ok (x ++ y)
  unfolding file_plaintext
  file_plaintext-cons e i count x y h k = rw (h, k)

  file_plaintext-append :
      (e : Entry) (i m n : ℕ) (x y : Bytes)
      → file_plaintext e i m ≡ ok x
      → file_plaintext e (i + m) n ≡ ok y
      → file_plaintext e i (m + n) ≡ ok (x ++ y)
  unfolding file_plaintext
  file_plaintext-append e i zero n x y h k =
      let empty : [] ≡ x = ok-inj h in
      let here : i + 0 ≡ i = omega arith in
      let zero_n : 0 + n ≡ n = omega arith in
      subst (λ j. file_plaintext e i j ≡ ok (x ++ y)) (sym zero_n)
        (subst (λ j. file_plaintext e j n ≡ ok y) here k ∙ ap (λ z. ok (z ++ y)) empty)
  file_plaintext-append e i (suc m) n x y h k =
      let (chunk, h1, g1) = Errors.>>=-eq-ok (decrypt_chunk c opened e i) _ h in
      let (rest, h2, g2) = Errors.>>=-eq-ok (file_plaintext e (suc i) m) _ g1 in
      let there : i + suc m ≡ suc i + m = omega arith in
      let ih =
        file_plaintext-append e (suc i) m n rest y h2
          (subst (λ j. file_plaintext e j n ≡ ok y) there k) in
      let joined = file_plaintext-cons e i (m + n) chunk (rest ++ y) h1 ih in
      let front : chunk ++ rest ≡ x = ok-inj g2 in
      let longer : suc (m + n) ≡ suc m + n = omega arith in
      subst (λ k. file_plaintext e i k ≡ ok (x ++ y)) longer
        (joined ∙ ap (λ z. ok z) (sym (append_assoc chunk rest y)) ∙ ap (λ z. ok (z ++ y)) front)

  decrypt_batch-eq-ok :
      (e : Entry) (i n : ℕ) (chunks : List Bytes) (w w' : World)
      → decrypt_batch c opened e (range i n) w ≡ (ok chunks, w')
      → file_plaintext e i n ≡ ok (concat chunks)
  unfolding decrypt_batch file_plaintext concat
  decrypt_batch-eq-ok e i zero chunks w w' h =
      let empty : [] ≡ chunks = ok-inj (ap (λ r. r.0) h) in ap (λ x. ok (concat x)) empty
  decrypt_batch-eq-ok e i (suc n) chunks w w' h =
      let (_, h1, g1) = World.>>=-eq-ok check _ w h in
      let (chunk, h2, g2) =
        World.>>=-eq-ok
          (lift (with_context (decrypt_chunk c opened e i) "Chunk failed authentication")) _ _ g1 in
      let (rest, h3, g3) = World.>>=-eq-ok (decrypt_batch c opened e (range (suc i) n)) _ _ g2 in
      let whole : chunk ∷ rest ≡ chunks = ok-inj (ap (λ r. r.0) g3) in
      file_plaintext-cons e i n chunk (concat rest) (with_context-eq-ok _ _ (ap (λ r. r.0) h2))
        (decrypt_batch-eq-ok e (suc i) n rest _ _ h3)
      ∙ ap (λ x. ok (concat x)) whole

  extract_batch-IsWritten :
      (e : Entry) (i j : ℕ) (pending : PendingFile) (old : Bytes) (root root' : SafeRoot)
      (t t' : ProgressTracker) (w w' : World)
      → node_at (temp_path pending) root.tree ≡ some (data_node old)
      → extract_batch c opened e i j pending root t w ≡ (ok (root', t'), w')
      → (x : Bytes) × (file_plaintext e i (j - i) ≡ ok x) × IsWritten pending (old ++ x) root root'
  unfolding extract_batch
  extract_batch-IsWritten e i j pending old root root' t t' w w' held h =
      let (_, h1, g1) = World.>>=-eq-ok check _ w h in
      let (chunks, h2, g2) = World.>>=-eq-ok (decrypt_batch c opened e (range i (j - i))) _ _ g1 in
      (
        concat chunks,
        decrypt_batch-eq-ok e i (j - i) chunks _ _ h2,
        write_chunks-IsWritten pending chunks old root root' t t' _ w' held g2,
      )

  batches_done :
      (e : Entry) (i : ℕ) (pending : PendingFile) (old : Bytes) (root root' : SafeRoot)
      (t t' : ProgressTracker) (w w' : World)
      → e.chunk_count ≤ i
      → node_at (temp_path pending) root.tree ≡ some (data_node old)
      → lift {A = SafeRoot × ProgressTracker} (ok (root, t)) w ≡ (ok (root', t'), w')
      → (x : Bytes) × (file_plaintext e i (e.chunk_count - i) ≡ ok x)
        × IsWritten pending (old ++ x) root root'
  unfolding file_plaintext
  batches_done e i pending old root root' t t' w w' le held h =
      let none_left : 0 ≡ e.chunk_count - i = omega arith in
      let same : root ≡ root' = ap (λ p. p.0) (ok-inj (ap (λ r. r.0) h)) in
      (
        [],
        subst (λ n. file_plaintext e i n ≡ ok []) none_left refl,
        subst (IsWritten pending (old ++ []) root) same (
            IsWritten-same pending (old ++ []) root
              (held ∙ ap (λ x. some (data_node x)) (sym (append-nil old)))),
      )

  -- With fuel for one round per chunk, the rounds that succeed write every chunk, once and in order.
  pub extract_batches-IsWritten :
      (fuel : ℕ) (e : Entry) (batch_size i : ℕ) (pending : PendingFile) (old : Bytes)
      (root root' : SafeRoot) (t t' : ProgressTracker) (w w' : World)
      → 1 ≤ batch_size
      → i ≤ e.chunk_count
      → e.chunk_count ≤ i + fuel
      → node_at (temp_path pending) root.tree ≡ some (data_node old)
      → extract_batches c opened fuel e batch_size i pending root t w ≡ (ok (root', t'), w')
      → (x : Bytes) × (file_plaintext e i (e.chunk_count - i) ≡ ok x)
        × IsWritten pending (old ++ x) root root'
  unfolding extract_batches
  extract_batches-IsWritten zero e batch_size i pending old root root' t t' w w' pos le fuel held
        h =
      batches_done e i pending old root root' t t' w w' (omega arith) held h
  extract_batches-IsWritten (suc fuel) e batch_size i pending old root root' t t' w w' pos le enough
        held h =
      elim (Bool-cases (ltb i e.chunk_count)) [
        | inl b ↦
            let j = min e.chunk_count (i + batch_size) in
            let k : (extract_batch c opened e i j pending root t >>= λ out.
            extract_batches c opened fuel e batch_size j pending out.0 out.1)
                  w
                ≡ (ok (root', t'), w') =
              rw b at h in
            let (out, h1, g1) =
              World.>>=-eq-ok (extract_batch c opened e i j pending root t) _ w k in
            let (x, plain_x, first) =
              extract_batch-IsWritten e i j pending old root out.0 t out.1 w _ held h1 in
            let (y, plain_y, rest) =
              extract_batches-IsWritten fuel e batch_size j pending (old ++ x) out.0 root' out.1 t'
                _ w' pos (ground arith) (ground (arith, b)) first.held g1 in
            let up : i + (j - i) ≡ j = ground (arith, b) in
            let all : (j - i) + (e.chunk_count - j) ≡ e.chunk_count - i = ground (arith, b) in
            (
              x ++ y,
              subst (λ n. file_plaintext e i n ≡ ok (x ++ y)) all
                  (file_plaintext-append e i (j - i) (e.chunk_count - j) x y plain_x
                    (subst (λ m. file_plaintext e m (e.chunk_count - j) ≡ ok y) (sym up) plain_y)),
              subst (λ z. IsWritten pending z root root') (append_assoc old x y)
                  (IsWritten-trans first rest),
            )
        | inr b ↦
            let k : lift {A = SafeRoot × ProgressTracker} (ok (root, t)) w ≡ (ok (root', t'), w') =
              rw b at h in
            batches_done e i pending old root root' t t' w w' (ground (arith, b)) held k
      ]
