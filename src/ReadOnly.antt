-- ===== src/ReadOnly.antt =====
-- Reading an opened container (readonly_fs.rs): nodes, directories and ranges of files.
pub mod ChunkCache
pub mod Ranges
pub mod Coherence
pub mod Nodes
pub mod ZeroRead
pub mod Mounting
use cipher_fs.Base.{
  ℕ, zero, suc, ◌+◌, ◌-◌, ◌*◌, ◌/◌, Bool, true, false, Option, none, some, List, [], ◌∷◌, ◌++◌, ltb,
  leb, ◌==◌, if◌then◌else◌, length, take, drop, min, ℕ_discrete, map, String, ◌&&◌, ◌||◌, not,
}
use cipher_fs.Base.Words.{Bytes, bytes_eq, checked_add, checked_sub, checked_mul, u64_mod}
use cipher_fs.Base.Map
use cipher_fs.Errors.{Error, Result, ok, err, with_context, message}
use cipher_fs.V2.Types.{Entry, EntryKind, file, directory, chunk_bytes, ValidatedIndex}
use cipher_fs.V2.Crypto.{Crypto}
use cipher_fs.V2.Index.{is_directory, or_default}
use cipher_fs.V2.Chunk.{OpenedContainer, decrypt_chunk}
use cipher_fs.ReadOnly.ChunkCache.{Cache, find_cached, store}

pub data NodeKind : Type 0 where
  file_node directory_node : NodeKind

pub record Node : Type 0 where
  pub id : ℕ
  pub parent_id : ℕ
  pub name : Bytes
  pub kind : NodeKind
  pub size : ℕ

pub data FsErrorKind : Type 0 where
  not_found not_directory is_a_directory integrity : FsErrorKind

pub record FsError : Type 0 where
  pub kind : FsErrorKind
  pub source : Option Error

pub data FsResult (A : Type 0) : Type 0 where
  done : A → FsResult A
  failed : FsError → FsResult A

-- `FsError::semantic` and `FsError::integrity`
abbrev pub semantic : {A : Type 0} → FsErrorKind → FsResult A
semantic kind = failed (record { kind = kind; source = none })

abbrev pub integrity_failure : {A : Type 0} → Error → FsResult A
integrity_failure e = failed (record { kind = integrity; source = some e })

abbrev pub map_done : {A B : Type 0} → (A → B) → FsResult A → FsResult B
map_done f (done a) = done (f a)
map_done f (failed e) = failed e

abbrev pub node_kind : EntryKind → NodeKind
node_kind file = file_node
node_kind directory = directory_node

-- `From<&Entry> for Node`
unfoldable pub node_of : Entry → Node
node_of e = record {
  id = e.id;
  parent_id = e.parent_id;
  name = e.name;
  kind = node_kind e.kind;
  size = e.size;
}

-- `ok_or_else(|| FsError::semantic(NotFound))`
abbrev pub or_not_found : {A : Type 0} → Option A → FsResult A
or_not_found (some a) = done a
or_not_found none = semantic not_found

unfoldable pub metadata : ValidatedIndex → ℕ → FsResult Entry
metadata index id = or_not_found (Map.get ℕ_discrete id index.entries)

-- The `filter` on the name.
abbrev pub named : Bytes → Option Entry → Option Entry
named name none = none
named name (some e) = if bytes_eq e.name name then some e else none

abbrev pub or_later : Option Entry → Option Entry → Option Entry
or_later (some e) later = some e
or_later none later = later

-- `find_map` over the children.
unfoldable pub find_child : ValidatedIndex → Bytes → List ℕ → Option Entry
find_child index name [] = none
find_child index name (id ∷ ids) =
    or_later (named name (Map.get ℕ_discrete id index.entries)) (find_child index name ids)

unfoldable pub lookup : ValidatedIndex → ℕ → Bytes → FsResult Entry
unfolding find_child
lookup index parent name =
    or_not_found (find_child index name (or_default (Map.get ℕ_discrete parent index.children)))

-- `filter_map` over the children.
unfoldable pub child_entries : ValidatedIndex → List ℕ → List Entry
child_entries index [] = []
child_entries index (id ∷ ids) =
    kept (Map.get ℕ_discrete id index.entries) (child_entries index ids)
  where
    kept : Option Entry → List Entry → List Entry
    kept none rest = rest
    kept (some e) rest = e ∷ rest

abbrev pub list_directory : ValidatedIndex → ℕ → FsResult Entry → FsResult (List Entry)
list_directory index id (failed e) = failed e
list_directory index id (done entry) =
    if is_directory entry.kind
    then done (child_entries index (or_default (Map.get ℕ_discrete id index.children)))
    else semantic not_directory

unfoldable pub read_dir : ValidatedIndex → ℕ → FsResult (List Entry)
unfolding metadata child_entries
read_dir index id = list_directory index id (metadata index id)

-- An operation on the file system's cache.
abbrev pub Fs : Type 0 → Type 0
Fs A = Cache → FsResult A × Cache

abbrev pub then_fs : {A B : Type 0} → FsResult A × Cache → (A → Fs B) → FsResult B × Cache
then_fs (done a, cache) f = f a cache
then_fs (failed e, cache) f = (failed e, cache)

abbrev pub saturating_sub : ℕ → ℕ → ℕ
saturating_sub a b = a - b

-- What one round of the loop adds to the output.
unfoldable pub chunk_range : ℕ → ℕ → ℕ → Bytes → Bytes → FsResult Bytes
chunk_range offset read_len chunk_index output chunk =
    let skip = saturating_sub offset (chunk_index * chunk_bytes) in
    if ltb (length chunk) skip
    then integrity_failure (message "Chunk range is outside decrypted data" ∷ [])
    else let remaining = saturating_sub read_len (length output) in
      done (output ++ take (min (length chunk - skip) remaining) (drop skip chunk))

-- `offset.checked_add(read_len).and_then(|value| value.checked_sub(1))`
abbrev pub last_byte : ℕ → ℕ → Option ℕ
last_byte offset read_len = before_end (checked_add offset read_len)
  where
    before_end : Option ℕ → Option ℕ
    before_end none = none
    before_end (some end) = checked_sub end 1

module _ (c : Crypto) (opened : OpenedContainer) where
  -- The second part of `load_chunk`, on what was decrypted.
  abbrev pub keep_chunk : Entry → ℕ → Result Bytes → Fs Bytes
  keep_chunk entry chunk_index (ok value) cache =
      (done value, store (entry.file_id, chunk_index) value cache)
  keep_chunk entry chunk_index (err e) cache =
      (integrity_failure (message "entry chunk failed" ∷ e), cache)

  abbrev pub or_decrypt : Entry → ℕ → Option Bytes × Cache → FsResult Bytes × Cache
  or_decrypt entry chunk_index (some value, cache) = (done value, cache)
  or_decrypt entry chunk_index (none, cache) =
      keep_chunk entry chunk_index (decrypt_chunk c opened entry chunk_index) cache

  unfoldable pub load_chunk : Entry → ℕ → Fs Bytes
  load_chunk entry chunk_index cache =
      or_decrypt entry chunk_index (find_cached (entry.file_id, chunk_index) cache)

  -- The loop, from `chunk_index` on for `count` rounds, and the test behind it.
  unfoldable pub read_chunks : Entry → ℕ → ℕ → ℕ → ℕ → Bytes → Fs Bytes
  unfolding load_chunk chunk_range
  read_chunks entry offset read_len chunk_index zero output cache =
      if length output == read_len
      then (done output, cache)
      else (integrity_failure (message "Read returned an incomplete plaintext range" ∷ []), cache)
  read_chunks entry offset read_len chunk_index (suc count) output cache =
      then_fs (load_chunk entry chunk_index cache) λ chunk cache'.
        then_fs (chunk_range offset read_len chunk_index output chunk, cache')
          λ output'. read_chunks entry offset read_len (suc chunk_index) count output'

  abbrev pub read_to : Entry → ℕ → ℕ → Option ℕ → Fs Bytes
  read_to entry offset read_len none cache =
      (integrity_failure (message "Read range overflow" ∷ []), cache)
  read_to entry offset read_len (some last) cache =
      let start_chunk = offset / chunk_bytes in
      let end_chunk = last / chunk_bytes in
      read_chunks entry offset read_len start_chunk (suc end_chunk - start_chunk) [] cache

  abbrev pub read_entry : FsResult Entry → ℕ → ℕ → Fs Bytes
  read_entry (failed e) offset size cache = (failed e, cache)
  read_entry (done entry) offset size cache =
      if is_directory entry.kind
      then (semantic is_a_directory, cache)
      else if leb entry.size offset
      then (done [], cache)
      else let read_len = min size (entry.size - offset) in
        read_to entry offset read_len (last_byte offset read_len) cache

  unfoldable pub read : ℕ → ℕ → ℕ → Fs Bytes
  unfolding metadata read_chunks
  read id offset size cache = read_entry (metadata opened.index id) offset size cache
