-- ===== src/Fuse.antt =====
-- The FUSE adapter (crates/cipherfs-fuse/src/lib.rs): what it replies to the kernel.
pub mod Paging
use cipher_fs.Base.{
  ℕ, zero, suc, ◌+◌, ◌/◌, Bool, true, false, Option, none, some, List, [], ◌∷◌, ◌++◌, take, drop,
  map,
}
use cipher_fs.Base.Words.{Bytes, codes}
use cipher_fs.V2.Types.{ValidatedIndex}
use cipher_fs.V2.Crypto.{Crypto}
use cipher_fs.V2.Chunk.{OpenedContainer}
use cipher_fs.ReadOnly.ChunkCache.{Cache}
use cipher_fs.ReadOnly.{
  NodeKind, file_node, directory_node, Node, FsErrorKind, not_found, not_directory, is_a_directory,
  integrity, FsError, FsResult, done, failed, read,
}
use cipher_fs.ReadOnly.Nodes.{metadata_node, lookup_node, read_dir_nodes}

pub data FileType : Type 0 where
  regular_file directory_file : FileType

-- The error numbers of libc that are replied.
pub data Errno : Type 0 where
  enoent enotdir eisdir eio : Errno

unfoldable pub fuse_error : FsErrorKind → Errno
fuse_error not_found = enoent
fuse_error not_directory = enotdir
fuse_error is_a_directory = eisdir
fuse_error integrity = eio

-- The attributes that depend on the node; permissions as they are written in octal, and the owner is
-- the process's.
pub record FileAttr : Type 0 where
  pub ino : ℕ
  pub size : ℕ
  pub blocks : ℕ
  pub kind : FileType
  pub perm : ℕ
  pub nlink : ℕ

abbrev pub file_type : NodeKind → FileType
file_type file_node = regular_file
file_type directory_node = directory_file

-- `0o444` and `0o555`
abbrev pub permissions : NodeKind → ℕ
permissions file_node = 292
permissions directory_node = 365

abbrev pub links : NodeKind → ℕ
links file_node = 1
links directory_node = 2

unfoldable pub node_attr : Node → FileAttr
node_attr n = record {
  ino = n.id;
  size = n.size;
  blocks = (n.size + 511) / 512;
  kind = file_type n.kind;
  perm = permissions n.kind;
  nlink = links n.kind;
}

pub data Reply (A : Type 0) : Type 0 where
  replied : A → Reply A
  refused : Errno → Reply A

abbrev pub reply_with : {A B : Type 0} → (A → B) → FsResult A → Reply B
reply_with f (done a) = replied (f a)
reply_with f (failed e) = refused (fuse_error e.kind)

-- The name is absent when it is not UTF-8.
unfoldable pub fuse_lookup : ValidatedIndex → ℕ → Option Bytes → Reply FileAttr
unfolding node_attr fuse_error
fuse_lookup index parent none = refused enoent
fuse_lookup index parent (some name) = reply_with node_attr (lookup_node index parent name)

unfoldable pub getattr : ValidatedIndex → ℕ → Reply FileAttr
unfolding node_attr fuse_error
getattr index ino = reply_with node_attr (metadata_node index ino)

pub record Row : Type 0 where
  pub ino : ℕ
  pub name : Bytes
  pub kind : FileType

abbrev pub child_row : Node → Row
child_row n = record { ino = n.id; name = n.name; kind = file_type n.kind }

unfoldable pub listing : Node → List Node → List Row
listing node children =
    record { ino = node.id; name = codes "."; kind = directory_file }
    ∷ record { ino = node.parent_id; name = codes ".."; kind = directory_file }
    ∷ map child_row children

-- The rows with the positions behind them, from `position` on, until the buffer refuses one: it has
-- room for `room` rows.
unfoldable pub add_rows : ℕ → ℕ → List Row → List (ℕ × Row)
add_rows position zero rows = []
add_rows position (suc room) [] = []
add_rows position (suc room) (r ∷ rows) = (position + 1, r) ∷ add_rows (position + 1) room rows

abbrev pub list_children : ℕ → ℕ → FsResult Node → FsResult (List Node) → Reply (List (ℕ × Row))
list_children offset room (failed e) children = refused (fuse_error e.kind)
list_children offset room (done node) (failed e) = refused (fuse_error e.kind)
list_children offset room (done node) (done children) =
    replied (add_rows offset room (drop offset (listing node children)))

unfoldable pub readdir : ValidatedIndex → ℕ → ℕ → ℕ → Reply (List (ℕ × Row))
unfolding listing add_rows fuse_error
readdir index ino offset room =
    list_children offset room (metadata_node index ino) (read_dir_nodes index ino)

abbrev pub reply_data : FsResult Bytes × Cache → Reply Bytes × Cache
reply_data (result, cache) = (reply_with (λ output. output) result, cache)

unfoldable pub fuse_read : Crypto → OpenedContainer → ℕ → ℕ → ℕ → Cache → Reply Bytes × Cache
unfolding fuse_error
fuse_read c opened ino offset size cache = reply_data (read c opened ino offset size cache)
