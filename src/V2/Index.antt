-- ===== src/V2/Index.antt =====
-- The decrypted index of v2.rs: `validate_index` and what it keeps.
pub mod Scanning
pub mod Layout
pub mod Tree
pub mod FileIds
pub mod Soundness
pub mod Accepting
pub mod Values
use cipher_fs.Base.{
  ℕ, ◌+◌, Bool, true, false, ◌||◌, ◌&&◌, not, Option, none, some, List, [], ◌∷◌, ◌++◌, any, ltb,
  ◌==◌, if◌then◌else◌, length, ℕ_discrete, map,
}
use cipher_fs.Base.Words.{Bytes, bytes_eq, checked_add, u32_mod}
use cipher_fs.Base.Map
use cipher_fs.Base.Map.{Map}
use cipher_fs.Base.Sort.{sort_by_key}
use cipher_fs.Errors.{Result, ok, ◌>>=◌, ◌>>◌, bail_if, context}
use cipher_fs.V2.Types.{
  Header, Entry, EntryKind, file, directory, Index, ValidatedIndex, max_entries, max_depth,
  zero_file_id,
}
use cipher_fs.V2.Limits.{encrypted_file_size}
use cipher_fs.V2.Names.{validate_name}

abbrev pub is_directory : EntryKind → Bool
is_directory directory = true
is_directory file = false

-- A file's data in the container: `(data_offset, encrypted_size, id)`.
pub record Extent : Type 0 where
  pub offset : ℕ
  pub encrypted : ℕ
  pub id : ℕ

-- The collections that the first loop fills.
pub record Scan : Type 0 where
  pub ids : List ℕ
  pub file_ids : List Bytes
  pub entries : Map ℕ Entry
  pub children : Map ℕ (List ℕ)
  pub files : List Extent

abbrev pub start : Scan
start = record { ids = []; file_ids = []; entries = []; children = []; files = [] }

abbrev pub or_default : {A : Type 0} → Option (List A) → List A
or_default none = []
or_default (some xs) = xs

-- `map.entry(key).or_default().push(value)`
abbrev pub push_at : {A : Type 0} → ℕ → A → Map ℕ (List A) → Map ℕ (List A)
push_at key value m =
    Map.insert ℕ_discrete key (or_default (Map.get ℕ_discrete key m) ++ (value ∷ [])) m

abbrev pub is_bad_root : Entry → Bool
is_bad_root e =
    not (e.parent_id == 1)
    || not (e.depth == 0)
    || not (is_directory e.kind)
    || not (length e.name == 0)

unfoldable pub check_place : Entry → Result (Unit {0})
check_place e =
    if e.id == 1 then bail_if (is_bad_root e) "Invalid root entry" else validate_name e.name

abbrev pub has_file_data : Entry → Bool
has_file_data e =
    not (e.size == 0)
    || not (e.data_offset == 0)
    || not (e.encrypted_size == 0)
    || not (e.chunk_count == 0)
    || not (bytes_eq e.file_id zero_file_id)

-- The `match` on the kind.
unfoldable pub check_kind : EntryKind → Entry → Scan → Result Scan
check_kind directory e s = do bail_if (has_file_data e) "Directory entry contains file data"; ok s
check_kind file e s = do
  bail_if (bytes_eq e.file_id zero_file_id || any (bytes_eq e.file_id) s.file_ids)
      "Invalid or duplicate file id"
  (chunks, encrypted) ← encrypted_file_size e.size
  bail_if (not (chunks == e.chunk_count) || not (encrypted == e.encrypted_size))
      "File chunk layout mismatch"
  let extent : Extent = record { offset = e.data_offset; encrypted = e.encrypted_size; id = e.id }
  ok (record s { file_ids = e.file_id ∷ s.file_ids; files = s.files ++ (extent ∷ []) })

-- The end of a round: the entry is filed under its parent and its id.
unfoldable pub file_entry : Entry → Scan → Scan
file_entry e s = record s {
  children = if e.id == 1 then s.children else push_at e.parent_id e.id s.children;
  entries = Map.insert ℕ_discrete e.id e s.entries;
}

unfoldable pub check_entry : Entry → Scan → Result Scan
unfolding check_place check_kind file_entry
check_entry e s = do
  bail_if (e.id == 0) "Entry id zero is reserved"
  bail_if (any (λ i. i == e.id) s.ids) "Duplicate entry id"
  bail_if (ltb max_depth e.depth) "Directory depth exceeds local safety limits"
  check_place e
  s' ← check_kind e.kind e (record s { ids = e.id ∷ s.ids })
  ok (file_entry e s')

unfoldable pub scan_entries : List Entry → Scan → Result Scan
unfolding check_entry
scan_entries [] s = ok s
scan_entries (e ∷ es) s = do s' ← check_entry e s; scan_entries es s'

-- One round of the second loop for an entry below the root; it keeps the names seen in each directory.
unfoldable pub check_below : Map ℕ Entry → Entry → Map ℕ (List Bytes) → Result (Map ℕ (List Bytes))
check_below entries e names = do
  parent ← context (Map.get ℕ_discrete e.parent_id entries) "Entry references a missing parent"
  bail_if
      (not (is_directory parent.kind)
        || not (ltb (parent.depth + 1) u32_mod && (parent.depth + 1 == e.depth)))
      "Invalid parent or depth"
  bail_if (any (bytes_eq e.name) (or_default (Map.get ℕ_discrete e.parent_id names)))
      "Duplicate name within directory"
  ok (push_at e.parent_id e.name names)

-- One round, over the map's values.
unfoldable pub check_parent : Map ℕ Entry → Entry → Map ℕ (List Bytes) → Result (Map ℕ (List Bytes))
unfolding check_below
check_parent entries e names = if e.id == 1 then ok names else check_below entries e names

unfoldable pub check_parents :
    Map ℕ Entry → List Entry → Map ℕ (List Bytes) → Result (Map ℕ (List Bytes))
unfolding check_parent
check_parents entries [] names = ok names
check_parents entries (e ∷ es) names = do
  names' ← check_parent entries e names
  check_parents entries es names'

-- The third loop: each file's data start where the data before end.
unfoldable pub check_layout : List Extent → ℕ → Result ℕ
check_layout [] expected = ok expected
check_layout (x ∷ xs) expected = do
  bail_if (not (x.offset == expected)) "File data must be contiguous and non-overlapping"
  next ← context (checked_add expected x.encrypted) "Data layout overflow"
  check_layout xs next

abbrev pub values : Map ℕ Entry → List Entry
values = map (λ p. p.1)

unfoldable pub validate_index : Header → Index → Result ValidatedIndex
unfolding scan_entries check_parents check_layout
validate_index header index = do
  bail_if
      (not (length index.entries == header.entry_count) || ltb max_entries (length index.entries))
      "Index entry count mismatch"
  s ← scan_entries index.entries start
  root ← context (Map.get ℕ_discrete 1 s.entries) "Index has no root entry"
  bail_if (not (is_directory root.kind)) "Root is not a directory"
  _ ← check_parents s.entries (values s.entries) []
  total ← check_layout (sort_by_key (λ (x : Extent). x.offset) s.files) 0
  bail_if (not (total == header.data_size)) "Data size does not match index"
  ok (record { entries = s.entries; children = s.children })
