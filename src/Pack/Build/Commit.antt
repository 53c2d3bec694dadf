-- ===== src/Pack/Build/Commit.antt =====
-- The guard and the commit of `pack_inner`: which files stand where when the function ends.
use mathlib.Core.Path.{subst}
use cipher_fs.Operation.World.{Op, World}
use cipher_fs.Base.Words.{Bytes}
use cipher_fs.Base.Paths.{file_name_of, path_eq, parent_of, same_parent, path_discrete, PathBuf}
use cipher_fs.Base.{
  not, ◌||◌, inr, if◌then◌else◌, inl, ◌∙◌, some_ne_none, Bool-cases, refl, [], ap, or_false, take,
  ◌∷◌, sym, some, none, false, ◌≡◌, ◌≢◌, List, Option,
}
use cipher_fs.Errors.{bail_if, ok-inj, ok, Result, err}
use cipher_fs.Base.Map
use cipher_fs.Errors
use cipher_fs.Errors.{◌>>◌}
use cipher_fs.Pack.Build.Output.{
  has_name, after_create, after_fill, after_rename, create_new, install_output, commit_output,
  OutputDir, OutputSystem, OutputRequest, rename_no_replace, content_at, put_file, remove_file,
  is_taken, choose_temporary, check_temporary, temporary_path, first_free, temporary_candidate,
  validate_requested_temporary_path,
}

err_ne_ok : {A : Type 0} {e : Errors.Error} {a : A} → err e ≢ ok a
err_ne_ok = λ h. cc

not_taken : (content : Option Bytes) → is_taken content ≡ false → content ≡ none
not_taken none h = refl
not_taken (some content) h = cc

-- The name that is drawn is free.
first_free-free :
    (request : OutputRequest) (dir : OutputDir) (draws : List Bytes) (path : PathBuf)
    → first_free request dir draws ≡ ok path
    → content_at path dir ≡ none
unfolding first_free
first_free-free request dir [] path h = cc
first_free-free request dir (random ∷ draws) path h =
    let candidate = temporary_candidate request random in
    elim (Bool-cases (is_taken (content_at candidate dir))) [
      | inl taken ↦ first_free-free request dir draws path (
          subst (λ b. (if b then first_free request dir draws else ok candidate) ≡ ok path) taken h)
      | inr free ↦
          let same : candidate ≡ path = ok-inj (
            subst (λ b. (if b then first_free request dir draws else ok candidate) ≡ ok path) free
              h) in
          subst (λ p. content_at p dir ≡ none) same (not_taken (content_at candidate dir) free)
    ]

-- The path that the caller asks for is free.
validate_requested_temporary_path-free :
    (output requested path : PathBuf) (dir : OutputDir)
    → validate_requested_temporary_path output requested dir ≡ ok path
    → content_at path dir ≡ none
unfolding validate_requested_temporary_path
validate_requested_temporary_path-free output requested path dir h =
    let apart =
      bail_if (not (same_parent (parent_of requested) (parent_of output)))
        "Temporary container must be a sibling of the final output" in
    let differs =
      bail_if (path_eq requested output) "Temporary container must differ from the final output" in
    let named =
      bail_if (not (has_name (file_name_of requested))) "Temporary container must name a file" in
    let absent =
      bail_if (is_taken (content_at requested dir)) "Temporary container already exists" in
    let end = ok requested in
    let (_, g1) = Errors.>>-eq-ok apart (differs >> (named >> (absent >> end))) h in
    let (_, g2) = Errors.>>-eq-ok differs (named >> (absent >> end)) g1 in
    let (_, g3) = Errors.>>-eq-ok named (absent >> end) g2 in
    let (free, g4) = Errors.>>-eq-ok absent end g3 in
    subst (λ p. content_at p dir ≡ none) (ok-inj g4)
      (not_taken (content_at requested dir) (
        Errors.bail_if-eq-ok (is_taken (content_at requested dir))
          "Temporary container already exists" free))

check_temporary-free :
    (request : OutputRequest) (dir : OutputDir) (asked : Option (Result PathBuf)) (path : PathBuf)
    → check_temporary request dir asked ≡ ok path
    → content_at path dir ≡ none
unfolding temporary_path
check_temporary-free request dir none path h =
    first_free-free request dir (take 32 request.draws) path h
check_temporary-free request dir (some requested) path h =
    let (p, _, g) = Errors.>>=-eq-ok requested _ h in
    validate_requested_temporary_path-free request.output p path dir g

pub choose_temporary-free :
    (request : OutputRequest) (dir : OutputDir) (path : PathBuf)
    → choose_temporary request dir ≡ ok path
    → content_at path dir ≡ none
unfolding choose_temporary
choose_temporary-free request dir path h = check_temporary-free request dir request.requested path h

-- Every path holds what it held before.
abbrev pub IsKept : OutputDir → OutputDir → Type 0
IsKept dir dir' = (path : PathBuf) → content_at path dir' ≡ content_at path dir

remove_file-free :
    (temp : PathBuf) (dir : OutputDir)
    → content_at temp dir ≡ none
    → IsKept dir (remove_file temp dir)
unfolding content_at remove_file
remove_file-free temp dir free path = elim (path_discrete temp path) [
  | yes same ↦
      subst
        (λ p.
          Map.get path_discrete p (Map.remove path_discrete temp dir) ≡ Map.get path_discrete p dir)
        same (Map.get-remove_self path_discrete temp dir ∙ sym free)
  | no ne ↦ Map.get-remove_ne path_discrete temp path dir ne
]

remove_file-put_file :
    (temp : PathBuf) (content : Bytes) (dir : OutputDir)
    → content_at temp dir ≡ none
    → IsKept dir (remove_file temp (put_file temp content dir))
unfolding content_at remove_file put_file
remove_file-put_file temp content dir free path =
    let filled = Map.insert path_discrete temp content dir in
    elim (path_discrete temp path) [
      | yes same ↦
          subst
            (λ p.
              Map.get path_discrete p (Map.remove path_discrete temp filled)
              ≡ Map.get path_discrete p dir)
            same (Map.get-remove_self path_discrete temp filled ∙ sym free)
      | no ne ↦
          Map.get-remove_ne path_discrete temp path filled ne
          ∙ Map.get-insert_ne path_discrete temp path content dir ne
    ]

free_below :
    (temp target : PathBuf) (content : Bytes) (dir : OutputDir)
    → content_at target (put_file temp content dir) ≡ none
    → content_at target dir ≡ none
unfolding content_at put_file
free_below temp target content dir h = elim (path_discrete temp target) [
  | yes same ↦ absurd (
      some_ne_none (
        sym (Map.get-insert_self path_discrete temp content dir)
        ∙ ap (λ p. Map.get path_discrete p (Map.insert path_discrete temp content dir)) same
        ∙ h))
  | no ne ↦ sym (Map.get-insert_ne path_discrete temp target content dir ne) ∙ h
]

put_file-there :
    (target : PathBuf) (content : Bytes) (dir : OutputDir)
    → content_at target (put_file target content dir) ≡ some content
unfolding content_at put_file
put_file-there target content dir = Map.get-insert_self path_discrete target content dir

rename_free :
    (system : OutputSystem) (target : PathBuf) (dir : OutputDir) {u : Unit {0}}
    → rename_no_replace system target dir ≡ ok u
    → content_at target dir ≡ none
unfolding rename_no_replace
rename_free system target dir h =
    not_taken (content_at target dir)
      (or_false system.refuses_rename (is_taken (content_at target dir)) (
        Errors.bail_if-eq-ok (system.refuses_rename || is_taken (content_at target dir))
          "Unable to install" h)).1

module _ (system : OutputSystem) (target temp : PathBuf) where
  after_rename-eq-ok :
      (dir dir' : OutputDir) (content : Bytes) (w w' : World) (r : Result (Unit {0}))
      → rename_no_replace system target dir ≡ r
      → after_rename system target temp dir content w r ≡ (ok tt, dir', w')
      → (content_at target dir ≡ none) × (content_at target dir' ≡ some content)
  unfolding after_rename
  after_rename-eq-ok dir dir' content w w' (err e) p h = absurd (err_ne_ok (ap (λ r. r.0) h))
  after_rename-eq-ok dir dir' content w w' (ok u) p h = (
    rename_free system target dir p,
    ap (content_at target) (sym (ap (λ r. r.1) h))
        ∙ put_file-there target content (remove_file temp dir),
  )

  after_rename-eq-err :
      (dir dir' : OutputDir) (content : Bytes) (w w' : World) (r : Result (Unit {0}))
      (e : Errors.Error)
      → after_rename system target temp dir content w r ≡ (err e, dir', w')
      → dir' ≡ remove_file temp dir
  unfolding after_rename
  after_rename-eq-err dir dir' content w w' (err _) e h = sym (ap (λ r. r.1) h)
  after_rename-eq-err dir dir' content w w' (ok u) e h = absurd (err_ne_ok (sym (ap (λ r. r.0) h)))

  after_fill-eq-ok :
      (dir dir' : OutputDir) (w w' : World) (r : Result (Unit {0}))
      → after_fill system target temp dir w r ≡ (ok tt, dir', w')
      → (r ≡ ok tt) × (content_at target dir ≡ none) × (content_at target dir' ≡ some w.file)
  unfolding after_fill commit_output
  after_fill-eq-ok dir dir' w w' (err e) h = absurd (err_ne_ok (ap (λ r. r.0) h))
  after_fill-eq-ok dir dir' w w' (ok u) h =
      let filled = put_file temp w.file dir in
      let (free, made) =
        after_rename-eq-ok filled dir' w.file _ w' (rename_no_replace system target filled) refl
          h in
      (refl, free_below temp target w.file dir free, made)

  after_fill-eq-err :
      (dir dir' : OutputDir) (w w' : World) (r : Result (Unit {0})) (e : Errors.Error)
      → after_fill system target temp dir w r ≡ (err e, dir', w')
      → dir' ≡ remove_file temp (put_file temp w.file dir)
  unfolding after_fill commit_output
  after_fill-eq-err dir dir' w w' (err _) e h = sym (ap (λ r. r.1) h)
  after_fill-eq-err dir dir' w w' (ok u) e h =
      let filled = put_file temp w.file dir in
      after_rename-eq-err filled dir' w.file _ w' (rename_no_replace system target filled) e h

  after_create-eq-ok :
      (filling : Op (Unit {0})) (dir dir' : OutputDir) (w w' : World) (r : Result (Unit {0}))
      → after_create system target temp filling dir w r ≡ (ok tt, dir', w')
      → (w2 : World) × (filling (record w { file = [] }) ≡ (ok tt, w2))
        × (content_at target dir ≡ none)
        × (content_at target dir' ≡ some w2.file)
  unfolding after_create
  after_create-eq-ok filling dir dir' w w' (err e) h = absurd (err_ne_ok (ap (λ r. r.0) h))
  after_create-eq-ok filling dir dir' w w' (ok u) h =
      let out = filling (record w { file = [] }) in
      let (q, free, made) = after_fill-eq-ok dir dir' out.1 w' out.0 h in
      (out.1, ap (λ r. (r, out.1)) q, free, made)

  after_create-IsKept :
      (filling : Op (Unit {0})) (dir dir' : OutputDir) (w w' : World) (r : Result (Unit {0}))
      (e : Errors.Error)
      → content_at temp dir ≡ none
      → after_create system target temp filling dir w r ≡ (err e, dir', w')
      → IsKept dir dir'
  unfolding after_create
  after_create-IsKept filling dir dir' w w' (err _) e free h =
      subst (IsKept dir) (ap (λ r. r.1) h) (remove_file-free temp dir free)
  after_create-IsKept filling dir dir' w w' (ok u) e free h =
      let out = filling (record w { file = [] }) in
      subst (IsKept dir) (sym (after_fill-eq-err dir dir' out.1 w' out.0 e h))
        (remove_file-put_file temp out.1.file dir free)

  pub install_output-eq-ok :
      (filling : Op (Unit {0})) (dir dir' : OutputDir) (w w' : World)
      → install_output system target temp filling dir w ≡ (ok tt, dir', w')
      → (w2 : World) × (filling (record w { file = [] }) ≡ (ok tt, w2))
        × (content_at target dir ≡ none)
        × (content_at target dir' ≡ some w2.file)
  unfolding install_output
  install_output-eq-ok filling dir dir' w w' h =
      after_create-eq-ok filling dir dir' w w' (create_new system temp dir) h

  pub install_output-IsKept :
      (filling : Op (Unit {0})) (dir dir' : OutputDir) (w w' : World) (e : Errors.Error)
      → content_at temp dir ≡ none
      → install_output system target temp filling dir w ≡ (err e, dir', w')
      → IsKept dir dir'
  unfolding install_output
  install_output-IsKept filling dir dir' w w' e free h =
      after_create-IsKept filling dir dir' w w' (create_new system temp dir) e free h
