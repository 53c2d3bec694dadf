-- ===== src/V2/Index/Soundness.antt =====
-- What an index that `validate_index` accepts promises to its readers.
use cipher_fs.V2.Index.FileIds.{start-HasDistinctIds, scan_entries-HasDistinctIds}
use cipher_fs.Base.{
  ℕ, ◌+◌, ◌≤◌, ◌≡◌, ◌≢◌, sym, ◌∙◌, ap, false, ◌||◌, not, some, List, [], ltb, ◌==◌, ℕ_discrete,
  arith, Member, All-Member, length,
}
use cipher_fs.Base.Map
use cipher_fs.Base.Map.{Map}
use cipher_fs.Base.Sort.{sort_by_key, Member-sort_by_key}
use cipher_fs.Errors.{ok, bail_if, context, >>=-eq-ok, >>-eq-ok, bail_if-eq-ok, context-eq-ok}
use cipher_fs.V2.Types.{Header, Entry, Index, ValidatedIndex, max_entries}
use cipher_fs.V2.Index.{
  Scan, Extent, is_directory, check_parents, check_layout, scan_entries, start, values,
  validate_index,
}
use cipher_fs.V2.Index.Scanning.{
  IsChecked, IsSound, IsListed, extent_of, scan_entries-IsSound, start-IsSound,
}
use cipher_fs.V2.Index.Layout.{check_layout_bounds, check_layout_disjoint, AreDisjoint}
use cipher_fs.V2.Index.Tree.{
  Descends, HasParent, descends, check_parents-HasParent, check_parents-names, Member-values,
}
use mathlib.Core.Path.{subst}

-- The loops' results behind an accepted index.
pub record Accepted (header : Header) (index : Index) (v : ValidatedIndex) : Type 0 where
  pub scan : Scan
  pub names : Map ℕ (List (List ℕ))
  pub scanned : scan_entries index.entries start ≡ ok scan
  pub kept : v ≡ record { entries = scan.entries; children = scan.children }
  pub counted : length index.entries ≡ header.entry_count
  pub rooted : (root : Entry) × (Map.get ℕ_discrete 1 scan.entries ≡ some root)
  pub parents : check_parents scan.entries (values scan.entries) [] ≡ ok names
  pub laid :
      check_layout (sort_by_key (λ (x : Extent). x.offset) scan.files) 0 ≡ ok header.data_size

pub accepted :
    (header : Header) (index : Index) (v : ValidatedIndex)
    → validate_index header index ≡ ok v
    → Accepted header index v
unfolding validate_index
accepted header index v h =
    let (count, h1) =
      >>-eq-ok
        (bail_if
          (not (length index.entries == header.entry_count)
            || ltb max_entries (length index.entries))
          "Index entry count mismatch")
        _ h in
    let (s, scanned, h2) = >>=-eq-ok (scan_entries index.entries start) _ h1 in
    let (root, found, h3) =
      >>=-eq-ok (context (Map.get ℕ_discrete 1 s.entries) "Index has no root entry") _ h2 in
    let (_, h4) =
      >>-eq-ok (bail_if (not (is_directory root.kind)) "Root is not a directory") _ h3 in
    let (names, parents, h5) = >>=-eq-ok (check_parents s.entries (values s.entries) []) _ h4 in
    let (total, laid, h6) =
      >>=-eq-ok (check_layout (sort_by_key (λ (x : Extent). x.offset) s.files) 0) _ h5 in
    let (sum, h7) =
      >>-eq-ok (bail_if (not (total == header.data_size)) "Data size does not match index") _ h6 in
    let p = bail_if-eq-ok _ _ sum in
    let q = bail_if-eq-ok _ _ count in
    let e : total ≡ header.data_size = ground arith in
    record {
      scan = s;
      names = names;
      scanned = scanned;
      kept = cc;
      counted = ground arith;
      rooted = (root, context-eq-ok _ _ found);
      parents = parents;
      laid =
          subst (λ n. check_layout (sort_by_key (λ (x : Extent). x.offset) s.files) 0 ≡ ok n) e
            laid;
    }

module _ (header : Header) (index : Index) (v : ValidatedIndex) (a : Accepted header index v) where
  entries_kept : v.entries ≡ a.scan.entries
  entries_kept = ap (λ (w : ValidatedIndex). w.entries) a.kept

  pub filed :
      (k : ℕ) (e : Entry)
      → Map.get ℕ_discrete k v.entries ≡ some e
      → (e.id ≡ k) × IsChecked e × IsListed a.scan.files e
  unfolding IsSound
  filed k e h =
      scan_entries-IsSound index.entries start a.scan a.scanned start-IsSound k e
        (subst (λ m. Map.get ℕ_discrete k m ≡ some e) entries_kept h)

  value_found :
      (k : ℕ) (e : Entry)
      → Map.get ℕ_discrete k v.entries ≡ some e
      → Member e (values a.scan.entries)
  value_found k e h =
      Member-values k e a.scan.entries (subst (λ m. Map.get ℕ_discrete k m ≡ some e) entries_kept h)

  has_parent : (k : ℕ) (e : Entry) → Map.get ℕ_discrete k v.entries ≡ some e → HasParent v.entries e
  has_parent k e h =
      subst (λ m. HasParent m e) (sym entries_kept)
        (All-Member (HasParent a.scan.entries) e (values a.scan.entries)
          (check_parents-HasParent a.scan.entries (values a.scan.entries) [] a.names a.parents)
          (value_found k e h))

  pub all_descend :
      (k : ℕ) (e : Entry) → Map.get ℕ_discrete k v.entries ≡ some e → Descends v.entries e
  all_descend k e h =
      descends v.entries (λ j f found. ((filed j f found).0, has_parent j f found)) e.depth k e h
        (omega arith)

  pub listed :
      (k : ℕ) (e : Entry)
      → Map.get ℕ_discrete k v.entries ≡ some e
      → is_directory e.kind ≡ false
      → Member (extent_of e) (sort_by_key (λ (x : Extent). x.offset) a.scan.files)
  listed k e h is_file =
      Member-sort_by_key (λ (x : Extent). x.offset) (extent_of e) a.scan.files
        ((filed k e h).2 is_file)

  pub distinct_names :
      (j k : ℕ) (e f : Entry)
      → Map.get ℕ_discrete j v.entries ≡ some e
      → Map.get ℕ_discrete k v.entries ≡ some f
      → j ≢ 1
      → k ≢ 1
      → j ≢ k
      → e.parent_id ≡ f.parent_id
      → e.name ≢ f.name
  distinct_names j k e f he hf jb kb ne same =
      let p = (filed j e he).0 in
      let q = (filed k f hf).0 in
      check_parents-names a.scan.entries (values a.scan.entries) [] a.names e f a.parents
        (value_found j e he) (value_found k f hf) (λ r. jb (sym p ∙ r)) (λ r. kb (sym q ∙ r))
        (λ r. ne (sym p ∙ r ∙ q)) same

-- In an accepted index, each entry stands under its own id, passes the checks of a single entry, and
-- descends from the root through directories.
pub validate_index_tree :
    (header : Header) (index : Index) (v : ValidatedIndex) (k : ℕ) (e : Entry)
    → validate_index header index ≡ ok v
    → Map.get ℕ_discrete k v.entries ≡ some e
    → (e.id ≡ k) × IsChecked e × Descends v.entries e
validate_index_tree header index v k e h found =
    let a = accepted header index v h in
    let (same, checked, _) = filed header index v a k e found in
    (same, checked, all_descend header index v a k e found)

-- In an accepted index, the encrypted bytes of each file lie within the container's data.
pub validate_index_bounds :
    (header : Header) (index : Index) (v : ValidatedIndex) (k : ℕ) (e : Entry)
    → validate_index header index ≡ ok v
    → Map.get ℕ_discrete k v.entries ≡ some e
    → is_directory e.kind ≡ false
    → e.data_offset + e.encrypted_size ≤ header.data_size
validate_index_bounds header index v k e h found is_file =
    let a = accepted header index v h in
    (check_layout_bounds (extent_of e) (sort_by_key (λ (x : Extent). x.offset) a.scan.files) 0
      header.data_size a.laid (listed header index v a k e found is_file)).1

-- In an accepted index, the encrypted bytes of two files with different ids do not overlap.
pub validate_index_disjoint :
    (header : Header) (index : Index) (v : ValidatedIndex) (j k : ℕ) (e f : Entry)
    → validate_index header index ≡ ok v
    → Map.get ℕ_discrete j v.entries ≡ some e
    → Map.get ℕ_discrete k v.entries ≡ some f
    → is_directory e.kind ≡ false
    → is_directory f.kind ≡ false
    → j ≢ k
    → AreDisjoint (extent_of e) (extent_of f)
validate_index_disjoint header index v j k e f h he hf ef ff ne =
    let a = accepted header index v h in
    let p = (filed header index v a j e he).0 in
    let q = (filed header index v a k f hf).0 in
    check_layout_disjoint (extent_of e) (extent_of f)
      (sort_by_key (λ (x : Extent). x.offset) a.scan.files) 0 header.data_size a.laid
      (listed header index v a j e he ef) (listed header index v a k f hf ff)
      (λ r. ne (sym p ∙ ap (λ (x : Extent). x.id) r ∙ q))

-- In an accepted index, two entries below the root that share a parent have different names.
pub validate_index_names :
    (header : Header) (index : Index) (v : ValidatedIndex) (j k : ℕ) (e f : Entry)
    → validate_index header index ≡ ok v
    → Map.get ℕ_discrete j v.entries ≡ some e
    → Map.get ℕ_discrete k v.entries ≡ some f
    → j ≢ 1
    → k ≢ 1
    → j ≢ k
    → e.parent_id ≡ f.parent_id
    → e.name ≢ f.name
validate_index_names header index v j k e f h =
    distinct_names header index v (accepted header index v h) j k e f

-- In an accepted index, two files with one file id are the same entry.
pub validate_index_file_ids :
    (header : Header) (index : Index) (v : ValidatedIndex)
    → validate_index header index ≡ ok v
    → (j k : ℕ) (e f : Entry) → Map.get ℕ_discrete j v.entries ≡ some e
    → Map.get ℕ_discrete k v.entries ≡ some f
    → is_directory e.kind ≡ false
    → is_directory f.kind ≡ false
    → e.file_id ≡ f.file_id
    → j ≡ k
validate_index_file_ids header index v h j k e f he hf =
    let a = accepted header index v h in
    let same = entries_kept header index v a in
    let d = scan_entries-HasDistinctIds index.entries start a.scan a.scanned start-HasDistinctIds in
    d.unique j k e f (subst (λ m. Map.get ℕ_discrete j m ≡ some e) same he)
      (subst (λ m. Map.get ℕ_discrete k m ≡ some f) same hf)
