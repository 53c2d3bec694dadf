-- ===== src/V2/Index/Accepting.antt =====
-- When the loops of `validate_index` accept one more entry at the end.
use cipher_fs.V2.Names.{validate_name}
use cipher_fs.V2.Limits.{encrypted_file_size}
use cipher_fs.V2.Index.Scanning.{extent_of}
use cipher_fs.Base.Words.{checked_add, u32_mod, checked_add_fits, u64_mod, Bytes, bytes_eq}
use cipher_fs.Base.Map.{Map}
use cipher_fs.V2.Index.{
  push_at, or_default, is_directory, Extent, has_file_data, file_entry, check_below, check_place,
  Scan, check_layout, check_parents, check_parent, scan_entries, check_kind, check_entry,
}
use cipher_fs.V2.Types.{max_depth, zero_file_id, Entry, file, directory}
use cipher_fs.Base.{
  some_ne_none, inr, inl, not, Bool-cases, ==_iff, some, none, true, ltb, ◌<◌, ◌∙◌, ◌≤◌, ℕ_discrete,
  [], arith, ◌+◌, ◌==◌, ◌++◌, false, any, ◌∷◌, ◌≢◌, ℕ, List, refl, sym, ◌≡◌,
}
use cipher_fs.Base.Map
use cipher_fs.Errors.{
  context-eq-ok, bail_if-eq-ok, context, bail_if, >>-eq-ok, >>=-eq-ok, ok-inj, ok, ◌>>=◌,
}

-- An entry below the root that the first loop has not met.
pub record IsNew (e : Entry) (v : Scan) : Type 0 where
  pub nonzero : e.id ≢ 0
  pub below_root : e.id ≢ 1
  pub unused : any (λ i. i == e.id) v.ids ≡ false
  pub shallow : e.depth ≤ max_depth
  pub named : validate_name e.name ≡ ok tt

abbrev pub after_directory : Entry → Scan → Scan
after_directory e v = file_entry e (record v { ids = e.id ∷ v.ids })

abbrev pub after_file : Entry → Scan → Scan
after_file e v = file_entry e (record v {
  ids = e.id ∷ v.ids;
  file_ids = e.file_id ∷ v.file_ids;
  files = v.files ++ (extent_of e ∷ []);
})

-- The checks ahead of the match on the kind.
check_entry_new :
    (e : Entry) (v : Scan)
    → IsNew e v
    → check_entry e v
      ≡ (check_kind e.kind e (record v { ids = e.id ∷ v.ids }) >>= λ v'. ok (file_entry e v'))
unfolding check_entry check_place
check_entry_new e v n =
    let zero_test : (e.id == 0) ≡ false = ground (arith, n.nonzero) in
    let root_test : (e.id == 1) ≡ false = ground (arith, n.below_root) in
    let depth_test : ltb max_depth e.depth ≡ false = ground (arith, n.shallow) in
    rw (zero_test, n.unused, depth_test, root_test, n.named) refl

pub check_entry_directory :
    (e : Entry) (v : Scan)
    → IsNew e v
    → e.kind ≡ directory
    → has_file_data e ≡ false
    → check_entry e v ≡ ok (after_directory e v)
unfolding check_kind
check_entry_directory e v n p q = check_entry_new e v n ∙ rw p (rw q refl)

pub check_entry_file :
    (e : Entry) (v : Scan)
    → IsNew e v
    → e.kind ≡ file
    → bytes_eq e.file_id zero_file_id ≡ false
    → any (bytes_eq e.file_id) v.file_ids ≡ false
    → encrypted_file_size e.size ≡ ok (e.chunk_count, e.encrypted_size)
    → check_entry e v ≡ ok (after_file e v)
unfolding check_kind
check_entry_file e v n p z f s =
    let chunks : (e.chunk_count == e.chunk_count) ≡ true = (==_iff _ _).1 refl in
    let sizes : (e.encrypted_size == e.encrypted_size) ≡ true = (==_iff _ _).1 refl in
    check_entry_new e v n ∙ rw p (rw (z, f, s, chunks, sizes) refl)

pub scan_entries-append :
    (es : List Entry) (e : Entry) (v v' v'' : Scan)
    → scan_entries es v ≡ ok v'
    → check_entry e v' ≡ ok v''
    → scan_entries (es ++ (e ∷ [])) v ≡ ok v''
unfolding scan_entries
scan_entries-append [] e v v' v'' h k = let p : v ≡ v' = ok-inj h in rw p (rw k refl)
scan_entries-append (f ∷ es) e v v' v'' h k =
    let (w, first, rest) = >>=-eq-ok (check_entry f v) _ h in
    rw first (scan_entries-append es e w v' v'' rest k)

-- A round that found a parent finds it in a map with one more key.
check_parent-insert :
    (m : Map ℕ Entry) (k : ℕ) (x e : Entry) (names names' : Map ℕ (List Bytes))
    → Map.get ℕ_discrete k m ≡ none
    → check_parent m e names ≡ ok names'
    → check_parent (Map.insert ℕ_discrete k x m) e names ≡ ok names'
unfolding check_parent check_below
check_parent-insert m k x e names names' fresh h = elim (Bool-cases (e.id == 1)) [
  | inl t ↦ rw t (rw t at h)
  | inr t ↦
      let h' : check_below m e names ≡ ok names' = rw t at h in
      let (parent, found, _) =
        >>=-eq-ok (context (Map.get ℕ_discrete e.parent_id m) "Entry references a missing parent") _
          h' in
      let was = context-eq-ok _ _ found in
      let apart : k ≢ e.parent_id = λ p. some_ne_none (sym was ∙ (rw p at fresh)) in
      let same = Map.get-insert_ne ℕ_discrete k e.parent_id x m apart in rw (t, same) h'
]

pub check_parents-insert :
    (m : Map ℕ Entry) (k : ℕ) (x : Entry) (es : List Entry) (names names' : Map ℕ (List Bytes))
    → Map.get ℕ_discrete k m ≡ none
    → check_parents m es names ≡ ok names'
    → check_parents (Map.insert ℕ_discrete k x m) es names ≡ ok names'
unfolding check_parents
check_parents-insert m k x [] names names' fresh h = h
check_parents-insert m k x (e ∷ es) names names' fresh h =
    let (t, first, rest) = >>=-eq-ok (check_parent m e names) _ h in
    rw (check_parent-insert m k x e names t fresh first)
      (check_parents-insert m k x es t names' fresh rest)

pub check_parents-append :
    (m : Map ℕ Entry) (es : List Entry) (e : Entry) (names names' names'' : Map ℕ (List Bytes))
    → check_parents m es names ≡ ok names'
    → check_parent m e names' ≡ ok names''
    → check_parents m (es ++ (e ∷ [])) names ≡ ok names''
unfolding check_parents
check_parents-append m [] e names names' names'' h k =
    let p : names ≡ names' = ok-inj h in rw p (rw k refl)
check_parents-append m (f ∷ es) e names names' names'' h k =
    let (t, first, rest) = >>=-eq-ok (check_parent m f names) _ h in
    rw first (check_parents-append m es e t names' names'' rest k)

-- An entry below a directory, under a name that the directory does not hold yet.
pub check_parent_new :
    (m : Map ℕ Entry) (parent e : Entry) (names : Map ℕ (List Bytes))
    → e.id ≢ 1
    → Map.get ℕ_discrete e.parent_id m ≡ some parent
    → is_directory parent.kind ≡ true
    → e.depth ≡ parent.depth + 1
    → e.depth ≤ max_depth
    → any (bytes_eq e.name) (or_default (Map.get ℕ_discrete e.parent_id names)) ≡ false
    → check_parent m e names ≡ ok (push_at e.parent_id e.name names)
unfolding check_parent check_below
check_parent_new m parent e names below found dir deep shallow new =
    let root_test : (e.id == 1) ≡ false = ground arith in
    let small : ltb (parent.depth + 1) u32_mod ≡ true = ground arith in
    let same : (parent.depth + 1 == e.depth) ≡ true = (==_iff _ _).1 (sym deep) in
    rw (root_test, found) (rw (dir, small, same, new) refl)

pub check_layout-append :
    (xs : List Extent) (x : Extent) (n total : ℕ)
    → check_layout xs n ≡ ok total
    → x.offset ≡ total
    → total + x.encrypted < u64_mod
    → check_layout (xs ++ (x ∷ [])) n ≡ ok (total + x.encrypted)
unfolding check_layout
check_layout-append [] x n total h p fits =
    let q : n ≡ total = ok-inj h in
    let same : (x.offset == total) ≡ true = (==_iff _ _).1 p in
    rw q (rw (same, checked_add_fits total x.encrypted fits) refl)
check_layout-append (y ∷ xs) x n total h p fits =
    let (a, h1) =
      >>-eq-ok (bail_if (not (y.offset == n)) "File data must be contiguous and non-overlapping") _
        h in
    let (next, b, h2) =
      >>=-eq-ok (context (checked_add n y.encrypted) "Data layout overflow") _ h1 in
    let a' = bail_if-eq-ok _ _ a in
    rw (a', context-eq-ok _ _ b) (check_layout-append xs x next total h2 p fits)
