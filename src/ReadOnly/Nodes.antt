-- ===== src/ReadOnly/Nodes.antt =====
-- The nodes that `ReadOnlyFs` gives to the mounts: entries as nodes, directories sorted by name.
use cipher_fs.Base.{
  ℕ, Bool, true, false, List, [], ◌∷◌, ltb, leb, ◌==◌, ◌||◌, ◌&&◌, if◌then◌else◌, map,
}
use cipher_fs.Base.Words.{Bytes, bytes_eq}
use cipher_fs.V2.Types.{ValidatedIndex}
use cipher_fs.ReadOnly.{Node, FsResult, map_done, node_of, metadata, lookup, read_dir}

-- `String::cmp`: the bytes in order.
unfoldable pub name_le : Bytes → Bytes → Bool
name_le [] ys = true
name_le (x ∷ xs) [] = false
name_le (x ∷ xs) (y ∷ ys) = ltb x y || (x == y) && name_le xs ys

-- `left.name.cmp(&right.name).then(left.id.cmp(&right.id))`
abbrev pub node_le : Node → Node → Bool
node_le m n = if bytes_eq m.name n.name then leb m.id n.id else name_le m.name n.name

unfoldable pub insert_node : Node → List Node → List Node
unfolding name_le
insert_node n [] = n ∷ []
insert_node n (m ∷ ms) = if node_le n m then n ∷ m ∷ ms else m ∷ insert_node n ms

unfoldable pub sort_nodes : List Node → List Node
unfolding insert_node
sort_nodes [] = []
sort_nodes (n ∷ ns) = insert_node n (sort_nodes ns)

-- The methods of `ReadOnlyFs`, which give nodes.

unfoldable pub metadata_node : ValidatedIndex → ℕ → FsResult Node
metadata_node index id = map_done node_of (metadata index id)

unfoldable pub lookup_node : ValidatedIndex → ℕ → Bytes → FsResult Node
lookup_node index parent name = map_done node_of (lookup index parent name)

unfoldable pub read_dir_nodes : ValidatedIndex → ℕ → FsResult (List Node)
unfolding sort_nodes
read_dir_nodes index id = map_done (λ entries. sort_nodes (map node_of entries)) (read_dir index id)
