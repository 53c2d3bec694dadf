-- ===== src/V2/Names.antt =====
-- File names: `validate_name` of v2.rs over the components that `std::path` finds on Unix.
pub mod Components
use cipher_fs.Base.{
  ℕ, Bool, true, false, ◌||◌, ◌≡◌, List, [], ◌∷◌, ltb, ◌==◌, if◌then◌else◌, length,
}
use cipher_fs.Base.Words.{Bytes, codes, bytes_eq}
use cipher_fs.Errors.{Result, ok, ◌>>◌, bail, bail_if}
use cipher_fs.V2.Types.{max_name_bytes}

-- `std::path::Component` on Unix.
pub data Component : Type 0 where
  root_dir cur_dir parent_dir : Component
  normal : Bytes → Component

abbrev pub slash : ℕ
slash = b'/'

abbrev pub push_front : ℕ → List Bytes → List Bytes
push_front b [] = (b ∷ []) ∷ []
push_front b (part ∷ parts) = (b ∷ part) ∷ parts

-- The parts between slashes; there is always one.
unfoldable pub split_slash : Bytes → List Bytes
split_slash [] = [] ∷ []
split_slash (b ∷ bytes) =
    let rest = split_slash bytes in if b == slash then [] ∷ rest else push_front b rest

-- A part behind the first: empty parts and `.` are no components.
unfoldable pub later_components : List Bytes → List Component
later_components [] = []
later_components (part ∷ parts) =
    let rest = later_components parts in
    if bytes_eq part [] || bytes_eq part (codes ".")
    then rest
    else if bytes_eq part (codes "..")
    then parent_dir ∷ rest
    else normal part ∷ rest

abbrev pub first_component : List Bytes → List Component
first_component [] = []
first_component (part ∷ parts) =
    if bytes_eq part (codes ".")
    then cur_dir ∷ later_components parts
    else later_components (part ∷ parts)

abbrev pub starts_at_root : Bytes → Bool
starts_at_root [] = false
starts_at_root (b ∷ bytes) = b == slash

-- `Path::new(name).components()`
unfoldable pub components : Bytes → List Component
unfolding split_slash later_components
components name =
    if starts_at_root name
    then root_dir ∷ later_components (split_slash name)
    else first_component (split_slash name)

abbrev pub is_single_normal : List Component → Bool
is_single_normal (normal part ∷ []) = true
is_single_normal _ = false

unfoldable pub validate_name : Bytes → Result (Unit {0})
unfolding components
validate_name name = do
  bail_if (length name == 0 || ltb max_name_bytes (length name)) "Invalid filename length"
  if is_single_normal (components name) then ok tt else bail "Unsafe filename component"
