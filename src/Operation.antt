-- ===== src/Operation.antt =====
-- crates/cipherfs-core/src/operation.rs: phases, events, error kinds and progress.
pub mod Kinds
pub mod Progress
pub mod World
pub mod Positional
use cipher_fs.Base.{
  ℕ, suc, zero, ◌+◌, ◌≡◌, refl, Bool, true, false, ◌&&◌, ◌||◌, not, Option, none, some, List, [],
  ◌∷◌, ◌++◌, ◌==◌, leb, if◌then◌else◌, map, any, arith, min, String,
}
use cipher_fs.Base.Words.{Bytes, codes, saturating_add}
use cipher_fs.Errors.{
  CoreErrorKind, cancelled, authentication, integrity, invalid_format, unsafe_path,
  destination_exists, source_changed, io, internal, Cause, message, io_error, library_error,
  operation_cancelled, core_error, Error, Result, ok, err,
}

pub data OperationPhase : Type 0 where
  scan key_derivation encrypt self_verify extract verify commit : OperationPhase

pub record OperationProgress : Type 0 where
  pub phase : OperationPhase
  pub completed : ℕ
  pub total : ℕ

pub data TemporaryArtifactKind : Type 0 where
  pack_container extraction_tree : TemporaryArtifactKind

pub data OperationEvent : Type 0 where
  phase_started : OperationPhase → OperationEvent
  scan_completed : ℕ → ℕ → OperationEvent
  progress : OperationProgress → OperationEvent
  warning : Bytes → OperationEvent
  temporary_artifact : TemporaryArtifactKind → Bytes → OperationEvent
  commit_started committed mutation_started : OperationEvent

-- The text of one layer, and `format!("{error:#}")`: the layers joined by `: `.
abbrev pub cause_text : Cause → Bytes
cause_text (message text) = codes text
cause_text (io_error text) = codes text
cause_text (library_error text) = codes text
cause_text operation_cancelled = codes "CipherFS operation cancelled"
cause_text (core_error kind text) = text

unfoldable pub render : Error → Bytes
render [] = []
render (c ∷ []) = cause_text c
render (c ∷ d ∷ rest) = cause_text c ++ (codes ": " ++ render (d ∷ rest))

-- `to_ascii_lowercase` and `str::contains`.
abbrev pub ascii_lower : ℕ → ℕ
ascii_lower b = if leb b'A' b && leb b b'Z' then b + 32 else b

unfoldable pub starts_with : Bytes → Bytes → Bool
starts_with [] text = true
starts_with (n ∷ needle) [] = false
starts_with (n ∷ needle) (b ∷ text) = n == b && starts_with needle text

unfoldable pub contains : Bytes → Bytes → Bool
unfolding starts_with
contains needle [] = starts_with needle []
contains needle (b ∷ text) = starts_with needle (b ∷ text) || contains needle text

abbrev pub is_io : Cause → Bool
is_io (io_error text) = true
is_io c = false

-- `downcast_ref::<CoreError>()`, which sees every layer, and `downcast_ref::<OperationCancelled>()`.
unfoldable pub core_kind : Error → Option CoreErrorKind
core_kind [] = none
core_kind (core_error kind text ∷ rest) = some kind
core_kind (c ∷ rest) = core_kind rest

abbrev pub is_cancelled : Cause → Bool
is_cancelled operation_cancelled = true
is_cancelled c = false

unfoldable pub error_kind : Error → CoreErrorKind
error_kind e = elim (core_kind e) [
  | some kind ↦ kind
  | none ↦ if any is_cancelled e then cancelled else if any is_io e then io else internal
]

-- The kind that the text of an error suggests.
unfoldable pub kind_of_text : Bytes → Bool → CoreErrorKind
unfolding contains
kind_of_text text has_io =
    if contains (codes "password") text || contains (codes "key slot") text
    then authentication
    else if contains (codes "authentication") text || contains (codes "integrity") text
    then integrity
    else if contains (codes "destination") text && contains (codes "exist") text
    then destination_exists
    else if contains (codes "source file changed") text
    then source_changed
    else if contains (codes "unsafe") text
        || contains (codes "link") text
        || contains (codes "reparse") text
        || contains (codes "escape") text
    then unsafe_path
    else if contains (codes "format") text
        || contains (codes "header") text
        || contains (codes "container version") text
    then invalid_format
    else if has_io
    then io
    else internal

unfoldable pub infer_kind : Error → CoreErrorKind
infer_kind e =
    if any is_cancelled e
    then cancelled
    else kind_of_text (map ascii_lower (render e)) (any is_io e)

unfoldable pub typed : Error → Error
typed e = elim (core_kind e) [ some kind ↦ e | none ↦ core_error (infer_kind e) (render e) ∷ [] ]

-- `.map_err(typed)`
abbrev pub map_typed {ℓ} : {A : Type ℓ} → Result A → Result A
map_typed (ok a) = ok a
map_typed (err e) = err (typed e)
