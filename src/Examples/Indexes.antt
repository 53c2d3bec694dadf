-- ===== src/Examples/Indexes.antt =====
-- An index with the root, a directory and two files.
use cipher_fs.V2.Limits.{encrypted_file_size}
use cipher_fs.V2.Names.{validate_name}
use cipher_fs.Base.Sort.{sort_by_key}
use cipher_fs.Base.{ℕ, ◌≡◌, ◌≢◌, ◌≤◌, ◌+◌, refl, [], ◌∷◌, replicate, some, arith, false, ℕ_discrete}
use cipher_fs.Base.Words.{bytes_eq, Bytes, codes}
use cipher_fs.Base.Map
use cipher_fs.Errors.{ok}
use cipher_fs.V2.Types.{
  Header, KeySlot, DuressSlot, Entry, file, directory, Index, ValidatedIndex, magic_bytes,
  version_number, header_bytes, chunk_bytes, default_params, zero_file_id,
}
use cipher_fs.V2.Index.{validate_index}
use cipher_fs.V2.Index.Scanning.{IsChecked, extent_of}
use cipher_fs.V2.Index.Layout.{AreDisjoint}
use cipher_fs.V2.Index.Tree.{Descends}
use cipher_fs.V2.Index.Soundness.{
  validate_index_tree, validate_index_bounds, validate_index_disjoint, validate_index_names,
}

abbrev pub closed_slot : KeySlot
closed_slot = record {
  generation = 0;
  salt = replicate 16 3;
  params = default_params;
  nonce = replicate 12 4;
  encrypted_dek = replicate 48 5;
}

abbrev pub no_duress : DuressSlot
no_duress = record {
  enabled = false;
  salt = replicate 16 6;
  params = default_params;
  nonce = replicate 12 7;
  encrypted_marker = replicate 48 8;
}

abbrev pub plain_header : ℕ → ℕ → Header
plain_header data_size entry_count = record {
  magic = magic_bytes;
  version = version_number;
  header_size = header_bytes;
  container_id = replicate 16 1;
  chunk_size = chunk_bytes;
  index_size = 16;
  data_size = data_size;
  entry_count = entry_count;
  index_nonce = replicate 12 2;
  slot_0 = closed_slot;
  slot_1 = closed_slot;
  duress = no_duress;
}

abbrev pub directory_entry : ℕ → ℕ → Bytes → ℕ → Entry
directory_entry id parent_id name depth = record {
  id = id;
  parent_id = parent_id;
  name = name;
  depth = depth;
  kind = directory;
  file_id = zero_file_id;
  size = 0;
  data_offset = 0;
  encrypted_size = 0;
  chunk_count = 0;
}

abbrev pub file_at : ℕ → ℕ → Bytes → ℕ → ℕ → ℕ → Entry
file_at id parent_id name depth size offset = record {
  id = id;
  parent_id = parent_id;
  name = name;
  depth = depth;
  kind = file;
  file_id = replicate 16 id;
  size = size;
  data_offset = offset;
  encrypted_size = size + 16;
  chunk_count = 1;
}

abbrev pub root : Entry
root = directory_entry 1 1 [] 0

abbrev docs : Entry
docs = directory_entry 2 1 (codes "docs") 1

-- The second file's data come first.
abbrev pub notes : Entry
notes = file_at 3 2 (codes "notes") 2 5 26

abbrev photo : Entry
photo = file_at 4 2 (codes "photo") 2 10 0

abbrev small_index : Index
small_index = record { entries = root ∷ docs ∷ notes ∷ photo ∷ [] }

abbrev small_header : Header
small_header = plain_header 47 4

abbrev small_valid : ValidatedIndex
small_valid = record {
  entries = (1, root) ∷ (2, docs) ∷ (3, notes) ∷ (4, photo) ∷ [];
  children = (1, 2 ∷ []) ∷ (2, 3 ∷ 4 ∷ []) ∷ [];
}

small_accepted : validate_index small_header small_index ≡ ok small_valid
unfolding validate_index bytes_eq validate_name encrypted_file_size Map.get Map.insert ℕ_discrete
    sort_by_key
small_accepted = refl

has_notes : Map.get ℕ_discrete 3 small_valid.entries ≡ some notes
unfolding Map.get ℕ_discrete
has_notes = refl

has_photo : Map.get ℕ_discrete 4 small_valid.entries ≡ some photo
unfolding Map.get ℕ_discrete
has_photo = refl

validate_index_tree_example : (notes.id ≡ 3) × IsChecked notes × Descends small_valid.entries notes
validate_index_tree_example =
    validate_index_tree small_header small_index small_valid 3 notes small_accepted has_notes

validate_index_bounds_example : 26 + 21 ≤ 47
validate_index_bounds_example =
    validate_index_bounds small_header small_index small_valid 3 notes small_accepted has_notes refl

validate_index_disjoint_example : AreDisjoint (extent_of notes) (extent_of photo)
validate_index_disjoint_example =
    validate_index_disjoint small_header small_index small_valid 3 4 notes photo small_accepted
      has_notes has_photo refl refl (λ e. omega arith)

validate_index_names_example : codes "notes" ≢ codes "photo"
validate_index_names_example =
    validate_index_names small_header small_index small_valid 3 4 notes photo small_accepted
      has_notes has_photo (λ e. omega arith) (λ e. omega arith) (λ e. omega arith) refl
