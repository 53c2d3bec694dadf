-- ===== src/Operation/Progress.antt =====
-- `ProgressTracker`: the bytes done within one phase. `advance` holds the tracker's lock, so calls
-- from parallel workers are a sequence of steps.
use cipher_fs.Base.{ℕ, ◌+◌, ◌≤◌, List, [], ◌∷◌, min}
use cipher_fs.Base.Words.{saturating_add}
use cipher_fs.Operation.{OperationPhase, OperationEvent, phase_started, progress}

pub record ProgressTracker : Type 0 where
  pub phase : OperationPhase
  pub total : ℕ
  pub completed : ℕ

abbrev pub progress_event : ProgressTracker → OperationEvent
progress_event t = progress (record { phase = t.phase; completed = t.completed; total = t.total })

-- The tracker, and the events that the reporter has received.
unfoldable pub ProgressTracker_new : OperationPhase → ℕ → ProgressTracker × List OperationEvent
ProgressTracker_new phase total =
    let t : ProgressTracker = record { phase = phase; total = total; completed = 0 } in
    (t, phase_started phase ∷ progress_event t ∷ [])

unfoldable pub advance : ℕ → ProgressTracker → ProgressTracker × OperationEvent
advance amount t =
    let t' = record t { completed = min (saturating_add t.completed amount) t.total } in
    (t', progress_event t')

abbrev pub position : ProgressTracker → ℕ
position t = t.completed

-- A run of steps by any workers, with the positions they report.
unfoldable pub advance_all : List ℕ → ProgressTracker → ProgressTracker × List ℕ
unfolding advance
advance_all [] t = (t, [])
advance_all (a ∷ amounts) t =
    let next = (advance a t).0 in
    let (last, seen) = advance_all amounts next in (last, next.completed ∷ seen)

abbrev pub sum : List ℕ → ℕ
sum [] = 0
sum (a ∷ as_) = a + sum as_

-- From `n` on, no number falls and none passes `bound`.
abbrev pub Climbs : ℕ → ℕ → List ℕ → Type 0
Climbs n bound [] = Unit
Climbs n bound (x ∷ xs) = (n ≤ x) × (x ≤ bound) × Climbs x bound xs
