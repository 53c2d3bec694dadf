-- ===== src/Pack/Scan/Sources.antt =====
-- The sources that `scan_source` lists are the files of its index.
use mathlib.Core.List.{append-nil}
use cipher_fs.V2.Index.{is_directory}
use mathlib.Core.Path.{subst}
use cipher_fs.Pack.Scan.Steps.{depth_of, scan_item_lem}
use cipher_fs.Errors.{ok-inj, ok}
use cipher_fs.V2.Types.{Entry}
use cipher_fs.V2.Chunk.Verify.{only_files}
use cipher_fs.Pack.Scan.{
  SourceSnapshot, new_file, source_dir, unreadable, below, new_directory, scan_item, Item,
  first_scan, Walked, push_directory, scan_items, scan_walked, SourceScan,
}
use cipher_fs.Errors
use cipher_fs.Base.{ℕ, ◌∙◌, sym, inr, inl, [], ap, Bool-cases, ◌∷◌, ◌++◌, ◌≡◌, map, List, refl}

-- The ids of the sources are those of the files among the entries, in their order.
abbrev pub HasSources : SourceScan → Type 0
HasSources s = map (λ p. p.0) s.sources ≡ map (λ (e : Entry). e.id) (only_files s.entries)

only_files-append : (es fs : List Entry) → only_files (es ++ fs) ≡ only_files es ++ only_files fs
unfolding only_files
only_files-append [] fs = refl
only_files-append (e ∷ es) fs = elim (Bool-cases (is_directory e.kind)) [
  | inl d ↦ rw d (only_files-append es fs)
  | inr d ↦ rw d (ap (◌∷◌ e) (only_files-append es fs))
]

map-append {ℓ ℓ'} :
    {A : Type ℓ} {B : Type ℓ'} (f : A → B) (xs ys : List A)
    → map f (xs ++ ys) ≡ map f xs ++ map f ys
map-append f [] ys = refl
map-append f (x ∷ xs) ys = ap (◌∷◌ (f x)) (map-append f xs ys)

scan_item-HasSources :
    (item : Item) (s s' : SourceScan) → HasSources s → scan_item item s ≡ ok s' → HasSources s'
unfolding only_files push_directory
scan_item-HasSources item s s' has h =
    let (parent_id, placed, branch) = scan_item_lem item s s' h in
    elim branch [
      | inl p ↦
          let dir = new_directory s.next_id parent_id (depth_of item) item in
          subst HasSources (sym p) (
            has
            ∙ ap (map (λ (e : Entry). e.id)) (
                sym (append-nil (only_files s.entries))
                ∙ sym (only_files-append s.entries (dir ∷ []))))
      | inr f ↦
          let e =
            new_file s.next_id parent_id (depth_of item) item f.size f.file_id s.data_offset
              f.encrypted_size f.chunk_count in
          subst HasSources (sym f.next) (
            map-append (λ (p : ℕ × SourceSnapshot). p.0) s.sources ((e.id, f.snapshot) ∷ [])
            ∙ ap (λ ids. ids ++ (e.id ∷ [])) has
            ∙ sym (map-append (λ (e : Entry). e.id) (only_files s.entries) (e ∷ []))
            ∙ ap (map (λ (e : Entry). e.id)) (sym (only_files-append s.entries (e ∷ []))))
    ]

scan_walked-HasSources :
    (x : Walked) (s s' : SourceScan) → HasSources s → scan_walked x s ≡ ok s' → HasSources s'
unfolding scan_walked
scan_walked-HasSources unreadable s s' has h = cc
scan_walked-HasSources source_dir s s' has h = subst HasSources (ok-inj h) has
scan_walked-HasSources (below item) s s' has h = scan_item-HasSources item s s' has h

pub scan_items-HasSources :
    (walk : List Walked) (s s' : SourceScan)
    → HasSources s
    → scan_items walk s ≡ ok s'
    → HasSources s'
unfolding scan_items
scan_items-HasSources [] s s' has h = subst HasSources (ok-inj h) has
scan_items-HasSources (x ∷ walk) s s' has h =
    let (t, h1, h2) = Errors.>>=-eq-ok (scan_walked x s) _ h in
    scan_items-HasSources walk t s' (scan_walked-HasSources x s t has h1) h2

pub first_scan-HasSources : HasSources first_scan
unfolding only_files
first_scan-HasSources = refl
