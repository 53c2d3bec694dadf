-- ===== src/Shell/Controller/Runs.antt =====
-- Runs of the page controller: how often cancellation is asked for.
use cipher_fs.Base.{◌∙◌, ℕ, ◌+◌, ◌≤◌, ◌≡◌, refl, Bool, true, false, List, [], ◌∷◌, ◌++◌, All, arith}
use cipher_fs.Shell.Controller.{
  AppAction, show_route, dialog_cancelled, dialog_failed, operation_started, operation_protected,
  operation_finished, cancel_pressed, mounted, mount_failed, unmounted, AppEffect, render_page,
  request_cooperative_cancel, show_force_close, AppState, Outcome, success, failure, finish, press,
  transition, transitions,
}

-- The actions of one operation: not a start, and not a new route.
abbrev pub IsWithin : AppAction → Type 0
IsWithin (show_route route) = ⊥
IsWithin operation_started = ⊥
IsWithin _ = Unit

-- How often the effects ask the worker to cancel.
abbrev pub requests : List AppEffect → ℕ
requests [] = 0
requests (request_cooperative_cancel ∷ es) = 1 + requests es
requests (render_page ∷ es) = requests es
requests (show_force_close ∷ es) = requests es

requests-append : (xs ys : List AppEffect) → requests (xs ++ ys) ≡ requests xs + requests ys
requests-append [] ys = omega arith
requests-append (request_cooperative_cancel ∷ xs) ys = omega (arith, requests-append xs ys)
requests-append (render_page ∷ xs) ys = requests-append xs ys
requests-append (show_force_close ∷ xs) ys = requests-append xs ys

abbrev pub allowance : Bool → ℕ
allowance true = 0
allowance false = 1

requested-finish : (o : Outcome) (s : AppState) → (finish o s).cancel_requested ≡ s.cancel_requested
requested-finish success s = refl
requested-finish (failure message) s = ground arith

press-requests :
    (shielded requested : Bool) (s : AppState)
    → s.cancel_requested ≡ requested
    → requests (press shielded requested s).1
        + allowance (press shielded requested s).0.cancel_requested
      ≤ allowance requested
press-requests true requested s p = rw p (omega arith)
press-requests false true s p = rw p (omega arith)
press-requests false false s p = omega arith

-- One action spends the allowance it uses.
transition-requests :
    (a : AppAction) (s : AppState)
    → IsWithin a
    → requests (transition a s).1 + allowance (transition a s).0.cancel_requested
      ≤ allowance s.cancel_requested
unfolding transition
transition-requests (show_route route) s w = elim w [ ]
transition-requests dialog_cancelled s w = omega arith
transition-requests (dialog_failed message) s w = omega arith
transition-requests operation_started s w = elim w [ ]
transition-requests operation_protected s w = omega arith
transition-requests (operation_finished outcome) s w = rw (requested-finish outcome s) (omega arith)
transition-requests cancel_pressed s w = press-requests s.protected s.cancel_requested s refl
transition-requests mounted s w = omega arith
transition-requests (mount_failed message) s w = omega arith
transition-requests (unmounted success) s w = omega arith
transition-requests (unmounted (failure message)) s w = omega arith

-- In a run of actions with no start of an operation and no change of the route, the worker is asked to
-- cancel at most once, and not at all when it had been asked before the run.
pub transitions-requests :
    (actions : List AppAction) (s : AppState)
    → All IsWithin actions
    → requests (transitions actions s).1 ≤ allowance s.cancel_requested
unfolding transitions
transitions-requests [] s w = omega arith
transitions-requests (a ∷ actions) s w =
    let first = transition-requests a s w.0 in
    let rest = transitions-requests actions (transition a s).0 w.1 in
    let both = requests-append (transition a s).1 (transitions actions (transition a s).0).1 in
    omega arith

-- No effect of a cancellation.
abbrev pub IsQuiet : AppEffect → Type 0
IsQuiet render_page = Unit
IsQuiet request_cooperative_cancel = ⊥
IsQuiet show_force_close = ⊥

All-append : (xs ys : List AppEffect) → All IsQuiet xs → All IsQuiet ys → All IsQuiet (xs ++ ys)
All-append [] ys h k = k
All-append (x ∷ xs) ys h k = (h.0, All-append xs ys h.1 k)

protected-finish : (o : Outcome) (s : AppState) → (finish o s).protected ≡ s.protected
protected-finish success s = refl
protected-finish (failure message) s = ground arith

transition-protected :
    (a : AppAction) (s : AppState)
    → IsWithin a
    → s.protected ≡ true
    → All IsQuiet (transition a s).1 × ((transition a s).0.protected ≡ true)
unfolding transition
transition-protected (show_route route) s w p = elim w [ ]
transition-protected dialog_cancelled s w p = ((tt, tt), p)
transition-protected (dialog_failed message) s w p = ((tt, tt), p)
transition-protected operation_started s w p = elim w [ ]
transition-protected operation_protected s w p = ((tt, tt), refl)
transition-protected (operation_finished outcome) s w p = ((tt, tt), protected-finish outcome s ∙ p)
transition-protected cancel_pressed s w p = rw p ((tt, tt), refl)
transition-protected mounted s w p = ((tt, tt), p)
transition-protected (mount_failed message) s w p = ((tt, tt), p)
transition-protected (unmounted success) s w p = ((tt, tt), p)
transition-protected (unmounted (failure message)) s w p = ((tt, tt), p)

-- Once an operation is protected, no press of the cancel button asks the worker to cancel or offers to
-- close by force, until the next start or route.
pub transitions-protected :
    (actions : List AppAction) (s : AppState)
    → All IsWithin actions
    → s.protected ≡ true
    → All IsQuiet (transitions actions s).1
unfolding transitions
transitions-protected [] s w p = tt
transitions-protected (a ∷ actions) s w p =
    let (quiet, still) = transition-protected a s w.0 p in
    All-append (transition a s).1 (transitions actions (transition a s).0).1 quiet
      (transitions-protected actions (transition a s).0 w.1 still)
