-- ===== src/Pack/Scan.antt =====
-- `scan_source` of pack.rs: the walk over the source directory that makes the entries of the index.
pub mod Steps
pub mod Growing
pub mod Accepted
pub mod Complete
pub mod Sources
use cipher_fs.Base.Paths.{path_discrete, PathBuf}
use cipher_fs.V2.Names.{validate_name}
use cipher_fs.V2.Limits.{encrypted_file_size}
use cipher_fs.Operation.World.{check, lift, Op}
use cipher_fs.Base.Map.{Map}
use cipher_fs.V2.Types.{max_entries, max_depth, file, zero_file_id, directory, Entry}
use cipher_fs.Base.Words.{bytes_eq_iff, u32_mod, checked_add, bytes_eq, Bytes}
use cipher_fs.Base.{
  refl, arith, ◌&&◌, ◌↔◌, false, ◌≡◌, dec_of_test, true, leb, ltb, ◌%◌, ◌+◌, some, length, any,
  ◌||◌, not, if◌then◌else◌, none, [], Bool, ◌++◌, ◌∷◌, Option, ℕ_discrete, List, ℕ,
}
use cipher_fs.Operation.World
use cipher_fs.Base.Map
use cipher_fs.Errors.{io_error, library_error, bail_if, ok, err, bail, context, Result, ◌>>=◌, ◌>>◌}

-- FileFingerprint of platform_metadata.rs.
pub record FileFingerprint : Type 0 where
  pub len : ℕ
  pub modified : ℕ
  pub identity : Option (ℕ × ℕ)

-- What `symlink_metadata` says of an item.
pub data ItemKind : Type 0 where
  reparse_point folder regular special : ItemKind

-- What the system shows of one item of the walk: its path, whether its name is UTF-8, what it is, its size
-- and its fingerprint when it is opened; `none` is an I/O error. `draws` are the ids that the random
-- number generator gives while the code looks for a new file id.
pub record Item : Type 0 where
  pub parent : PathBuf
  pub name : Bytes
  pub is_utf8 : Bool
  pub metadata : Option ItemKind
  pub size : Option ℕ
  pub fingerprint : Option FileFingerprint
  pub draws : List Bytes

-- One step of `WalkDir`: an error, the source directory itself, or an item below it.
pub data Walked : Type 0 where
  unreadable source_dir : Walked
  below : Item → Walked

pub record SourceSnapshot : Type 0 where
  pub path : PathBuf
  pub fingerprint : FileFingerprint

-- The variables of the loop.
pub record SourceScan : Type 0 where
  pub entries : List Entry
  pub path_ids : Map PathBuf ℕ
  pub file_ids : List Bytes
  pub sources : List (ℕ × SourceSnapshot)
  pub next_id : ℕ
  pub total_plaintext : ℕ
  pub data_offset : ℕ

abbrev pub root_entry : Entry
root_entry = record {
  id = 1;
  parent_id = 1;
  name = [];
  depth = 0;
  kind = directory;
  file_id = zero_file_id;
  size = 0;
  data_offset = 0;
  encrypted_size = 0;
  chunk_count = 0;
}

abbrev pub first_scan : SourceScan
first_scan = record {
  entries = root_entry ∷ [];
  path_ids = ([], 1) ∷ [];
  file_ids = [];
  sources = [];
  next_id = 2;
  total_plaintext = 0;
  data_offset = 0;
}

-- The `?` on an I/O result.
abbrev pub io {ℓ} : {A : Type ℓ} → Option A → Result A
io (some a) = ok a
io none = err (io_error "I/O error" ∷ [])

-- The loop that draws until an id is new and not zero. `none` means that the draws given are used up,
-- where the code would draw again.
unfoldable pub draw_file_id : List Bytes → List Bytes → Option Bytes
draw_file_id [] seen = none
draw_file_id (d ∷ draws) seen =
    let rest = draw_file_id draws seen in
    if bytes_eq d zero_file_id || any (bytes_eq d) seen then rest else some d

abbrev pub full_path : Item → PathBuf
full_path item = item.parent ++ (item.name ∷ [])

abbrev pub new_directory : ℕ → ℕ → ℕ → Item → Entry
new_directory id parent_id depth item = record {
  id = id;
  parent_id = parent_id;
  name = item.name;
  depth = depth;
  kind = directory;
  file_id = zero_file_id;
  size = 0;
  data_offset = 0;
  encrypted_size = 0;
  chunk_count = 0;
}

-- The branch `metadata.is_dir()`.
unfoldable pub push_directory : ℕ → ℕ → ℕ → Item → SourceScan → SourceScan
push_directory id parent_id depth item s = record s {
  entries = s.entries ++ (new_directory id parent_id depth item ∷ []);
  path_ids = Map.insert path_discrete (full_path item) id s.path_ids;
}

abbrev pub new_file : ℕ → ℕ → ℕ → Item → ℕ → Bytes → ℕ → ℕ → ℕ → Entry
new_file id parent_id depth item size file_id data_offset encrypted_size chunk_count = record {
  id = id;
  parent_id = parent_id;
  name = item.name;
  depth = depth;
  kind = file;
  file_id = file_id;
  size = size;
  data_offset = data_offset;
  encrypted_size = encrypted_size;
  chunk_count = chunk_count;
}

-- The variables after a file has been added.
abbrev pub with_file : Entry → SourceSnapshot → SourceScan → SourceScan
with_file entry snapshot s = record s {
  entries = s.entries ++ (entry ∷ []);
  file_ids = entry.file_id ∷ s.file_ids;
  sources = s.sources ++ ((entry.id, snapshot) ∷ []);
  total_plaintext = s.total_plaintext + entry.size;
  data_offset = s.data_offset + entry.encrypted_size;
}

-- The branch `metadata.is_file()`.
unfoldable pub push_file : ℕ → ℕ → ℕ → Item → SourceScan → Result SourceScan
unfolding draw_file_id
push_file id parent_id depth item s = do
  size ← io item.size
  file_id ← context (draw_file_id item.draws s.file_ids) "No new file id among the draws"
  (chunk_count, encrypted_size) ← encrypted_file_size size
  let entry = new_file id parent_id depth item size file_id s.data_offset encrypted_size chunk_count
  fingerprint ← io item.fingerprint
  total ← context (checked_add s.total_plaintext size) "Total source size overflow"
  offset ← context (checked_add s.data_offset encrypted_size) "Encrypted data size overflow"
  let snapshot : SourceSnapshot = record { path = full_path item; fingerprint = fingerprint }
  ok (record (with_file entry snapshot s) { total_plaintext = total; data_offset = offset })

unfoldable pub push_item : ItemKind → ℕ → ℕ → ℕ → Item → SourceScan → Result SourceScan
push_item reparse_point id parent_id depth item s =
    bail "Refusing to pack a link or Windows reparse point"
push_item folder id parent_id depth item s = ok (push_directory id parent_id depth item s)
push_item regular id parent_id depth item s = push_file id parent_id depth item s
push_item special id parent_id depth item s = bail "Unsupported special file in source"

-- One round for an item below the source directory.
unfoldable pub scan_item : Item → SourceScan → Result SourceScan
scan_item item s = do
  parent_id ←
      context (Map.get path_discrete item.parent s.path_ids)
        "Directory traversal did not visit parent first"
  bail_if (not item.is_utf8) "CipherFS v2 requires UTF-8 filenames"
  validate_name item.name
  let depth = (length item.parent + 1) % u32_mod
  bail_if (ltb max_depth depth) "Source directory is too deeply nested"
  bail_if (leb max_entries (length s.entries)) "Source exceeds the maximum entry count"
  kind ← io item.metadata
  next_id ← context (checked_add s.next_id 1) "Entry id overflow"
  push_item kind s.next_id parent_id depth item (record s { next_id = next_id })

unfoldable pub scan_walked : Walked → SourceScan → Result SourceScan
scan_walked unreadable s = err (library_error "walk error" ∷ [])
scan_walked source_dir s = ok s
scan_walked (below item) s = scan_item item s

unfoldable pub scan_walk : List Walked → SourceScan → Op SourceScan
scan_walk [] s = lift (ok s)
scan_walk (x ∷ walk) s =
    World.◌>>◌ check (World.◌>>=◌ (lift (scan_walked x s)) λ s'. scan_walk walk s')

unfoldable pub scan_source : List Walked → Op SourceScan
scan_source walk = scan_walk walk first_scan

-- The walk without the token: what `scan_source` makes of the items, if it is not cancelled.
unfoldable pub scan_items : List Walked → SourceScan → Result SourceScan
scan_items [] s = ok s
scan_items (x ∷ walk) s = do s' ← scan_walked x s; scan_items walk s'
