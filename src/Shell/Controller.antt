-- ===== src/Shell/Controller.antt =====
-- The page controller of apps/cipherfs-windows-shell/src/controller.rs: `AppState` and `transition`.
pub mod Runs
use cipher_fs.Base.{Bool, true, false, Option, none, some, List, [], ◌∷◌, ◌++◌, if◌then◌else◌}
use cipher_fs.Base.Words.{Bytes, bytes_eq, codes}

-- Paths and messages are byte strings.
pub data FormKind : Type 0 where
  mount_form : Bytes → FormKind
  extract_form : Bytes → Bytes → FormKind
  verify_form change_password_form : Bytes → FormKind
  pack_form : Bytes → Bytes → FormKind

pub data Route : Type 0 where
  help_route : Route
  container_route : Bytes → Route
  pack_route : Bytes → Bytes → Route
  form_route : FormKind → Route

pub data AppErrorKind : Type 0 where
  native_dialog operation_error mount_error : AppErrorKind

pub data Recovery : Type 0 where
  close back : Recovery
  open_url : Bytes → Recovery

pub record AppError : Type 0 where
  pub kind : AppErrorKind
  pub message : Bytes
  pub recovery : Recovery

pub data AppPage : Type 0 where
  help_page actions_page form_page progress_page mounted_page result_page error_page : AppPage

-- The outcome of an operation or of an unmount: nothing, or a message.
pub data Outcome : Type 0 where
  success : Outcome
  failure : Bytes → Outcome

pub data AppAction : Type 0 where
  show_route : Route → AppAction
  dialog_cancelled : AppAction
  dialog_failed : Bytes → AppAction
  operation_started operation_protected : AppAction
  operation_finished : Outcome → AppAction
  cancel_pressed mounted : AppAction
  mount_failed : Bytes → AppAction
  unmounted : Outcome → AppAction

pub data AppEffect : Type 0 where
  render_page request_cooperative_cancel show_force_close : AppEffect

pub record AppState : Type 0 where
  pub page : AppPage
  pub error : Option AppError
  pub force_close_overlay : Bool
  pub cancel_requested : Bool
  pub protected : Bool

abbrev pub first_page : Route → AppPage
first_page help_route = help_page
first_page (container_route path) = actions_page
first_page (pack_route source output) = form_page
first_page (form_route form) = form_page

unfoldable pub AppState_new : Route → AppState
AppState_new route = record {
  page = first_page route;
  error = none;
  force_close_overlay = false;
  cancel_requested = false;
  protected = false;
}

-- `self.page = Error` and `self.error = Some(…)`
abbrev pub fail : AppErrorKind → Bytes → Recovery → AppState → AppState
fail kind message recovery s = record s {
  page = error_page;
  error = some (record { kind = kind; message = message; recovery = recovery });
}

abbrev pub finish : Outcome → AppState → AppState
finish success s = record s { page = result_page }
finish (failure message) s =
    if bytes_eq message (codes "Operation cancelled")
    then record s { page = result_page }
    else fail operation_error message close s

abbrev pub finish_mount : Outcome → AppState → AppState
finish_mount success s = record s { page = result_page }
finish_mount (failure message) s = fail mount_error message close s

-- `CancelPressed`, by the guards of its three arms.
abbrev pub press : Bool → Bool → AppState → AppState × List AppEffect
press true requested s = (s, render_page ∷ [])
press false true s = (record s { force_close_overlay = true }, show_force_close ∷ [])
press false false s = (record s { cancel_requested = true }, request_cooperative_cancel ∷ [])

unfoldable pub transition : AppAction → AppState → AppState × List AppEffect
unfolding AppState_new
transition (show_route route) s = (AppState_new route, render_page ∷ [])
transition dialog_cancelled s = (s, render_page ∷ [])
transition (dialog_failed message) s = (fail native_dialog message back s, render_page ∷ [])
transition operation_started s = (
  record s { page = progress_page; cancel_requested = false; protected = false },
  render_page ∷ [],
)
transition operation_protected s = (record s { protected = true }, render_page ∷ [])
transition (operation_finished outcome) s = (finish outcome s, render_page ∷ [])
transition cancel_pressed s = press s.protected s.cancel_requested s
transition mounted s = (record s { page = mounted_page }, render_page ∷ [])
transition (mount_failed message) s =
    (fail mount_error message (open_url (codes "https://winfsp.dev/rel/")) s, render_page ∷ [])
transition (unmounted outcome) s = (finish_mount outcome s, render_page ∷ [])

-- A run, with its effects in order.
unfoldable pub transitions : List AppAction → AppState → AppState × List AppEffect
unfolding transition
transitions [] s = (s, [])
transitions (a ∷ actions) s =
    let first = transition a s in
    let rest = transitions actions first.0 in (rest.0, first.1 ++ rest.1)
