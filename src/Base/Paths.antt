-- ===== src/Base/Paths.antt =====
-- `PathBuf`: a path below some directory, as its parts, and equality of paths.
use cipher_fs.Base.Words.{codes, bytes_eq_iff, bytes_eq, Bytes}
use cipher_fs.Base.{
  if◌then◌else◌, some, none, ◌++◌, Option, ◌&&◌, arith, ◌↔◌, dec_of_test, true, false, [], ◌∷◌,
  Bool, List, ◌≡◌, refl,
}

-- The parts of a path, outermost first.
abbrev pub PathBuf : Type 0
PathBuf = List Bytes

abbrev pub path_eq : PathBuf → PathBuf → Bool
path_eq [] [] = true
path_eq [] (q ∷ qs) = false
path_eq (p ∷ ps) [] = false
path_eq (p ∷ ps) (q ∷ qs) = bytes_eq p q && path_eq ps qs

pub path_eq_iff : (p q : PathBuf) → (path_eq p q ≡ true) ↔ (p ≡ q)
path_eq_iff [] [] = (λ h. refl, λ h. refl)
path_eq_iff [] (q ∷ qs) = (λ h. cc, λ h. cc)
path_eq_iff (p ∷ ps) [] = (λ h. cc, λ h. cc)
path_eq_iff (p ∷ ps) (q ∷ qs) = (
  λ h. ground (arith, bytes_eq_iff p q, path_eq_iff ps qs),
  λ h. ground (arith, bytes_eq_iff p q, path_eq_iff ps qs),
)

-- Paths are equal when their parts are.
unfoldable pub path_discrete : Discrete PathBuf
path_discrete p q = dec_of_test (path_eq p q) (path_eq_iff p q)

-- A path as text.
unfoldable pub path_text : PathBuf → Bytes
path_text [] = []
path_text (part ∷ parts) = b'/' ∷ part ++ path_text parts

-- `Path::parent`; the root has none.
unfoldable pub parent_of : PathBuf → Option PathBuf
parent_of [] = none
parent_of (part ∷ []) = some []
parent_of (part ∷ more ∷ parts) = elim (parent_of (more ∷ parts)) [
  | none ↦ none
  | some path ↦ some (part ∷ path)
]

-- The last part.
unfoldable pub last_part : PathBuf → Option Bytes
last_part [] = none
last_part (part ∷ []) = some part
last_part (part ∷ more ∷ parts) = last_part (more ∷ parts)

-- `Path::file_name`: `..` names no file.
unfoldable pub file_name_of : PathBuf → Option Bytes
unfolding last_part
file_name_of path = elim (last_part path) [
  | none ↦ none
  | some name ↦ if bytes_eq name (codes "..") then none else some name
]

abbrev pub same_parent : Option PathBuf → Option PathBuf → Bool
same_parent none none = true
same_parent (some p) (some q) = path_eq p q
same_parent p q = false
