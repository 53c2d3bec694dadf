-- ===== src/V2/Names/Components.antt =====
-- What `validate_name` lets through.
use cipher_fs.Base.{suc, ◌≤◌, ◌≡◌, refl, ◌≢◌, [], ◌∷◌, ◌++◌, length, length-append, All, arith}
use cipher_fs.Base.Words.{Bytes, codes, bytes_eq_iff}
use cipher_fs.Errors.{ok}
use cipher_fs.V2.Types.{max_name_bytes}
use cipher_fs.V2.Names.{slash, split_slash, later_components, components, validate_name}

abbrev pub NoSlash : Bytes → Type 0
NoSlash = All (λ b. b ≢ slash)

-- A name without a slash is one part.
split_one : (name : Bytes) → NoSlash name → split_slash name ≡ name ∷ []
unfolding split_slash
split_one [] h = refl
split_one (b ∷ name) h = ground (arith, h.0, split_one name h.1)

-- With a slash behind it an empty part follows.
split_trailing : (name : Bytes) → NoSlash name → split_slash (name ++ (slash ∷ [])) ≡ name ∷ [] ∷ []
unfolding split_slash
split_trailing [] h = refl
split_trailing (b ∷ name) h = ground (arith, h.0, split_trailing name h.1)

-- A name of one ordinary component: short, not empty, no slash, and neither `.` nor `..`.
pub record IsPlain (name : Bytes) : Type 0 where
  pub nonempty : 1 ≤ length name
  pub no_slash : NoSlash name
  pub not_dot : name ≢ codes "."
  pub not_dots : name ≢ codes ".."

-- `validate_name` accepts every name of at most 255 bytes that is not empty, has no slash, and is neither
-- `.` nor `..`.
pub validate_name_plain :
    (name : Bytes) → IsPlain name → length name ≤ max_name_bytes → validate_name name ≡ ok tt
unfolding validate_name components later_components
validate_name_plain [] h fits = absurd (omega (arith, h.nonempty))
validate_name_plain (b ∷ name) h fits = rw (split_one (b ∷ name) h.no_slash) (
    ground (
      arith,
      h.no_slash.0,
      h.not_dot,
      h.not_dots,
      bytes_eq_iff (b ∷ name) (codes "."),
      bytes_eq_iff (b ∷ name) (codes ".."),
      bytes_eq_iff (b ∷ name) [],
    ))

-- `validate_name` accepts a name that ends in a slash, when what stands before the slash is
-- not empty, has no slash, is neither `.` nor `..`, and has at most 254 bytes.
pub validate_name_trailing_slash :
    (name : Bytes)
    → IsPlain name
    → suc (length name) ≤ max_name_bytes
    → validate_name (name ++ (slash ∷ [])) ≡ ok tt
unfolding validate_name components later_components
validate_name_trailing_slash [] h fits = absurd (omega (arith, h.nonempty))
validate_name_trailing_slash (b ∷ name) h fits = rw (split_trailing (b ∷ name) h.no_slash) (
    ground (
      arith,
      h.no_slash.0,
      h.not_dot,
      h.not_dots,
      bytes_eq_iff (b ∷ name) (codes "."),
      bytes_eq_iff (b ∷ name) (codes ".."),
      bytes_eq_iff (b ∷ name) [],
      bytes_eq_iff [] [],
      length-append name (slash ∷ []),
    ))
