-- ===== src/V2/Index/Scanning.antt =====
-- What the first loop of `validate_index` has checked of every entry that it filed.
use cipher_fs.Base.{
  ◌∙◌, ℕ, ◌≤◌, ◌≡◌, ◌≢◌, refl, sym, inl, true, false, ◌||◌, not, some, List, [], ◌∷◌, ◌++◌, any,
  ltb, ◌==◌, length, ℕ_discrete, arith, Member, Member-append_left, Member-append_right,
}
use cipher_fs.Base.Words.{bytes_eq}
use cipher_fs.Base.Map
use cipher_fs.Errors.{ok, bail_if, >>=-eq-ok, >>-eq-ok, bail_if-eq-ok}
use cipher_fs.V2.Types.{Entry, EntryKind, file, directory, max_depth, zero_file_id}
use cipher_fs.V2.Limits.{encrypted_file_size}
use cipher_fs.V2.Names.{validate_name}
use cipher_fs.V2.Index.{
  Scan, Extent, is_directory, check_place, check_kind, file_entry, check_entry, scan_entries, start,
  has_file_data,
}
use mathlib.Core.Path.{subst}

-- What holds of an entry in itself.
unfoldable pub IsChecked : Entry → Type 0
IsChecked e =
    (e.id ≢ 0)
    × (e.depth ≤ max_depth)
    × (e.id ≡ 1
        → (e.parent_id ≡ 1) × (e.depth ≡ 0) × (is_directory e.kind ≡ true) × (length e.name ≡ 0))
    × (e.id ≢ 1 → validate_name e.name ≡ ok tt)
    × (is_directory e.kind ≡ false
        → encrypted_file_size e.size ≡ ok (e.chunk_count, e.encrypted_size))

abbrev pub extent_of : Entry → Extent
extent_of e = record { offset = e.data_offset; encrypted = e.encrypted_size; id = e.id }

-- A file's data stand among the extents.
abbrev pub IsListed : List Extent → Entry → Type 0
IsListed xs e = is_directory e.kind ≡ false → Member (extent_of e) xs

-- The map's entries stand under their own ids, are checked, and have their data listed.
unfoldable pub IsSound : Scan → Type 0
IsSound s =
    (k : ℕ) (e : Entry)
    → Map.get ℕ_discrete k s.entries ≡ some e
    → (e.id ≡ k) × IsChecked e × IsListed s.files e

check_place_lem :
    (e : Entry)
    → check_place e ≡ ok tt
    → (e.id ≡ 1
        → (e.parent_id ≡ 1) × (e.depth ≡ 0) × (is_directory e.kind ≡ true) × (length e.name ≡ 0))
      × (e.id ≢ 1 → validate_name e.name ≡ ok tt)
unfolding check_place
check_place_lem e h = (λ p. ground arith, λ n. ground arith)

-- What the match on the kind leaves.
KindLeaves : Entry → Scan → Scan → Type 0
KindLeaves e s s' =
    (s'.entries ≡ s.entries)
    × (is_directory e.kind ≡ false
        → encrypted_file_size e.size ≡ ok (e.chunk_count, e.encrypted_size))
    × IsListed s'.files e
    × ((x : Extent) → Member x s.files → Member x s'.files)

file_leaves : (e : Entry) (s s' : Scan) → check_kind file e s ≡ ok s' → KindLeaves e s s'
unfolding check_kind KindLeaves
file_leaves e s s' h =
    let (_, _, h1) =
      >>=-eq-ok
        (bail_if (bytes_eq e.file_id zero_file_id || any (bytes_eq e.file_id) s.file_ids)
          "Invalid or duplicate file id")
        _ h in
    let ((chunks, encrypted), sizes, h2) = >>=-eq-ok (encrypted_file_size e.size) _ h1 in
    let (_, same, h3) =
      >>=-eq-ok
        (bail_if (not (chunks == e.chunk_count) || not (encrypted == e.encrypted_size))
          "File chunk layout mismatch")
        _ h2 in
    let p : chunks ≡ e.chunk_count = ground arith in
    let q : encrypted ≡ e.encrypted_size = ground arith in
    let r : s'
        ≡ record s { file_ids = e.file_id ∷ s.file_ids; files = s.files ++ (extent_of e ∷ []) } =
      cc in
    subst (KindLeaves e s) (sym r) (
      refl,
      λ _. cc,
      λ _. Member-append_right _ s.files _ (inl refl),
      λ x m. Member-append_left x s.files _ m,
    )

directory_leaves :
    (e : Entry) (s s' : Scan)
    → e.kind ≡ directory
    → check_kind directory e s ≡ ok s'
    → KindLeaves e s s'
unfolding check_kind KindLeaves
directory_leaves e s s' p h =
    let (_, h1) = >>-eq-ok (bail_if (has_file_data e) "Directory entry contains file data") _ h in
    let r : s' ≡ s = cc in
    let no : is_directory e.kind ≢ false = rw p (λ q. cc) in
    subst (KindLeaves e s) (sym r) (refl, λ q. absurd (no q), λ q. absurd (no q), λ x m. m)

check_kind_lem : (e : Entry) (s s' : Scan) → check_kind e.kind e s ≡ ok s' → KindLeaves e s s'
check_kind_lem e s s' h = go e.kind refl
  where
    go : (k : EntryKind) → e.kind ≡ k → KindLeaves e s s'
    go file p = file_leaves e s s' (subst (λ k. check_kind k e s ≡ ok s') p h)
    go directory p = directory_leaves e s s' p (subst (λ k. check_kind k e s ≡ ok s') p h)

-- What one round of the loop leaves.
pub check_entry_lem :
    (e : Entry) (s s' : Scan)
    → check_entry e s ≡ ok s'
    → IsChecked e
      × (s'.entries ≡ Map.insert ℕ_discrete e.id e s.entries)
      × IsListed s'.files e
      × ((x : Extent) → Member x s.files → Member x s'.files)
unfolding check_entry IsChecked KindLeaves file_entry
check_entry_lem e s s' h =
    let (z, h1) = >>-eq-ok (bail_if (e.id == 0) "Entry id zero is reserved") _ h in
    let (_, h2) = >>-eq-ok (bail_if (any (λ i. i == e.id) s.ids) "Duplicate entry id") _ h1 in
    let (deep, h3) =
      >>-eq-ok (bail_if (ltb max_depth e.depth) "Directory depth exceeds local safety limits") _
        h2 in
    let (placed, h4) = >>-eq-ok (check_place e) _ h3 in
    let (t, kinds, h5) = >>=-eq-ok (check_kind e.kind e (record s { ids = e.id ∷ s.ids })) _ h4 in
    let (same, sizes, listed, kept) = check_kind_lem e (record s { ids = e.id ∷ s.ids }) t kinds in
    let (root, named) = check_place_lem e placed in
    let z' = bail_if-eq-ok _ _ z in
    let deep' = bail_if-eq-ok _ _ deep in
    let nonzero : e.id ≢ 0 = λ q. ground arith in
    let shallow : e.depth ≤ max_depth = ground arith in
    let r : s' ≡ file_entry e t = cc in
    let out : IsChecked e
        × ((file_entry e t).entries ≡ Map.insert ℕ_discrete e.id e s.entries)
        × IsListed (file_entry e t).files e
        × ((x : Extent) → Member x s.files → Member x (file_entry e t).files) =
      ((nonzero, shallow, root, named, sizes), rw same refl, listed, kept) in
    subst
      (λ (u : Scan).
        IsChecked e
        × (u.entries ≡ Map.insert ℕ_discrete e.id e s.entries)
        × IsListed u.files e
        × ((x : Extent) → Member x s.files → Member x u.files))
      (sym r) out

check_entry-IsSound : (e : Entry) (s s' : Scan) → check_entry e s ≡ ok s' → IsSound s → IsSound s'
unfolding IsSound
check_entry-IsSound e s s' h sound k f found =
    let (checked, filed, listed, kept) = check_entry_lem e s s' h in
    let found' : Map.get ℕ_discrete k (Map.insert ℕ_discrete e.id e s.entries) ≡ some f = cc in
    elim (ℕ_discrete e.id k) [
      | yes p ↦
          let self = Map.get-insert_self ℕ_discrete e.id e s.entries in
          let q : e ≡ f = cc in
          subst (λ (g : Entry). (g.id ≡ k) × IsChecked g × IsListed s'.files g) q
            (p, checked, listed)
      | no n ↦
          let (same, c, l) =
            sound k f (sym (Map.get-insert_ne ℕ_discrete e.id k e s.entries n) ∙ found') in
          (same, c, λ d. kept _ (l d))
    ]

pub scan_entries-IsSound :
    (es : List Entry) (s s' : Scan) → scan_entries es s ≡ ok s' → IsSound s → IsSound s'
unfolding scan_entries
scan_entries-IsSound [] s s' h sound = subst IsSound (cc) sound
scan_entries-IsSound (e ∷ es) s s' h sound =
    let (t, h1, h2) = >>=-eq-ok (check_entry e s) _ h in
    scan_entries-IsSound es t s' h2 (check_entry-IsSound e s t h1 sound)

pub start-IsSound : IsSound start
unfolding IsSound Map.get
start-IsSound k e h = cc
