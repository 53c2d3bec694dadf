-- ===== src/Examples/Plain.antt =====
-- Theorems on numbers, names, errors and progress at concrete inputs.
use cipher_fs.Base.{◌<◌, ◌≤◌, ◌+◌, ◌*◌, false, true, ℕ, ◌≡◌, refl, [], ◌∷◌, ◌++◌, arith, All}
use cipher_fs.Base.Words.{bytes_eq_iff, bytes_eq, codes}
use cipher_fs.Errors.{Error, ok, message, operation_cancelled, cancelled}
use cipher_fs.Operation.{encrypt, typed, error_kind, core_kind, infer_kind}
use cipher_fs.Operation.Progress.{ProgressTracker}
use cipher_fs.Operation.Kinds.{error_kind-typed, typed_cancelled}
use cipher_fs.WindowsNames.{utf16_len, mapped_name}
use cipher_fs.WindowsNames.Fitting.{mapped_name_fits}
use cipher_fs.V2.Types.{chunk_bytes, tag_bytes}
use cipher_fs.V2.Limits.{encrypted_file_size}
use cipher_fs.V2.Limits.ChunkLayout.{
  chunk_position, plain_len, encrypted_file_size_lem, chunk_tiling,
}
use cipher_fs.V2.Aad.Binding.{chunk_nonce-inj}
use cipher_fs.V2.Names.{validate_name, slash}
use cipher_fs.V2.Names.Components.{IsPlain, validate_name_plain, validate_name_trailing_slash}
use cipher_fs.ReadOnly.ChunkCache.{cache_run, finds, stores, empty_cache}
use cipher_fs.ReadOnly.ChunkCache.Bound.{cache_run-IsBounded, held, IsBounded}
use cipher_fs.ReadOnly.ChunkCache.Races.{raced_misses, raced}
use cipher_fs.Shell.Controller.{AppState, AppState_new, help_route, cancel_pressed, transitions}
use cipher_fs.Shell.Controller.Runs.{IsQuiet, transitions-requests, transitions-protected, requests}

five_mib : encrypted_file_size 5242880 ≡ ok (2, 5242912)
unfolding encrypted_file_size
five_mib = refl

encrypted_file_size_lem_example :
    (5242880 ≤ 2 * chunk_bytes)
    × (2 * chunk_bytes < 5242880 + chunk_bytes)
    × (5242912 ≡ 5242880 + 2 * tag_bytes)
encrypted_file_size_lem_example = encrypted_file_size_lem 5242880 2 5242912 five_mib

name_a : IsPlain (codes "a")
unfolding bytes_eq
name_a = record {
  nonempty = omega arith;
  no_slash = (λ e. omega arith, tt);
  not_dot = λ e. let q : false ≡ true = (bytes_eq_iff (codes "a") (codes ".")).1 e in cc;
  not_dots = λ e. cc;
}

validate_name_plain_example : validate_name (codes "a") ≡ ok tt
validate_name_plain_example = validate_name_plain (codes "a") name_a (omega arith)

validate_name_trailing_slash_example : validate_name (codes "a" ++ (slash ∷ [])) ≡ ok tt
validate_name_trailing_slash_example = validate_name_trailing_slash (codes "a") name_a (omega arith)

abbrev stopped : Error
stopped = message "Unable to pack" ∷ operation_cancelled ∷ []

typed_cancelled_example : error_kind (typed stopped) ≡ cancelled
unfolding core_kind
typed_cancelled_example = typed_cancelled stopped refl refl

error_kind-typed_example : error_kind (typed stopped) ≡ infer_kind stopped
unfolding core_kind
error_kind-typed_example = (error_kind-typed stopped).1 refl

abbrev seven : ℕ
seven = 7

chunk_nonce-inj_example : seven ≡ seven
chunk_nonce-inj_example = chunk_nonce-inj seven seven (omega arith) (omega arith) refl

abbrev tracker : ProgressTracker
tracker = record { phase = encrypt; total = 10; completed = 0 }

chunk_tiling_example :
    (0 < plain_len 5242880 1)
    × (chunk_position 1 + plain_len 5242880 1 + tag_bytes ≤ 5242912)
    × (2 < 2 → chunk_position 1 + plain_len 5242880 1 + tag_bytes ≡ chunk_position 2)
    × (◌≡◌ {A = ℕ} 2 2 → chunk_position 1 + plain_len 5242880 1 + tag_bytes ≡ 5242912)
chunk_tiling_example = chunk_tiling 5242880 2 5242912 1 five_mib (omega arith)

cache_run-IsBounded_example :
    IsBounded (cache_run (finds (1 ∷ [], 0) ∷ stores (1 ∷ [], 0) (8 ∷ 9 ∷ []) ∷ []) (empty_cache 3))
    × ((cache_run
          (finds (1 ∷ [], 0) ∷ stores (1 ∷ [], 0) (8 ∷ 9 ∷ []) ∷ [])
          (empty_cache 3)).max_bytes
        ≡ 3)
cache_run-IsBounded_example =
    cache_run-IsBounded 3 (finds (1 ∷ [], 0) ∷ stores (1 ∷ [], 0) (8 ∷ 9 ∷ []) ∷ [])

raced_misses_example :
    ((raced 4 (1 ∷ [], 0) (8 ∷ 9 ∷ [])).bytes ≡ 4)
    × (held (raced 4 (1 ∷ [], 0) (8 ∷ 9 ∷ [])).values ≡ 2)
raced_misses_example = raced_misses 4 (1 ∷ [], 0) (8 ∷ 9 ∷ []) (omega arith) (omega arith)

abbrev fresh : AppState
fresh = record (AppState_new help_route) { protected = false }

transitions-requests_example :
    requests (transitions (cancel_pressed ∷ cancel_pressed ∷ []) fresh).1 ≤ 1
unfolding AppState_new
transitions-requests_example =
    transitions-requests (cancel_pressed ∷ cancel_pressed ∷ []) fresh (tt, (tt, tt))

transitions-protected_example :
    All IsQuiet
      (transitions (cancel_pressed ∷ cancel_pressed ∷ []) (record fresh { protected = true })).1
unfolding AppState_new
transitions-protected_example =
    transitions-protected (cancel_pressed ∷ cancel_pressed ∷ []) (record fresh { protected = true })
      (tt, (tt, tt)) refl

mapped_name_fits_example : utf16_len (mapped_name (codes "a:b") 7 0) ≤ 255
mapped_name_fits_example = mapped_name_fits (codes "a:b") 7 0
