-- ===== src/Workflow/TaskStatus.antt =====
-- modules/workflow/task-state-machine.ts: the statuses of a task and the transitions it allows.
use geeta_backend.Common.{Bool, true, false, ◌==◌, ◌||◌, List, [], ◌∷◌, ℕ, not, if◌then◌else◌}
use geeta_backend.Common.{elem, map}
use geeta_backend.Common.Result.{Result, ok, conflict, throw_if, ◌>>◌}

-- enum WorkflowTaskStatus
pub data TaskStatus : Type 0 where
  pending waiting ready assigned in_progress on_hold paused blocked completed rejected rework
        cancelled skipped :
      TaskStatus

-- A number for each status, by which `===` compares.
abbrev pub code : TaskStatus → ℕ
code pending = 0
code waiting = 1
code ready = 2
code assigned = 3
code in_progress = 4
code on_hold = 5
code paused = 6
code blocked = 7
code completed = 8
code rejected = 9
code rework = 10
code cancelled = 11
code skipped = 12

infix 50 ◌===◌
abbrev pub ◌===◌ : TaskStatus → TaskStatus → Bool
a === b = code a == code b

-- The set `TERMINAL`, `isTaskTerminal`.
abbrev pub is_task_terminal : TaskStatus → Bool
is_task_terminal completed = true
is_task_terminal cancelled = true
is_task_terminal skipped = true
is_task_terminal _ = false

-- The table `TRANSITIONS`.
unfoldable pub transitions : TaskStatus → List TaskStatus
transitions pending = blocked ∷ ready ∷ cancelled ∷ []
transitions waiting = blocked ∷ ready ∷ cancelled ∷ []
transitions blocked = ready ∷ cancelled ∷ skipped ∷ []
transitions ready = assigned ∷ in_progress ∷ completed ∷ blocked ∷ cancelled ∷ skipped ∷ []
transitions assigned = in_progress ∷ completed ∷ ready ∷ blocked ∷ cancelled ∷ []
transitions in_progress =
    completed ∷ paused ∷ on_hold ∷ rejected ∷ rework ∷ blocked ∷ cancelled ∷ []
transitions paused = in_progress ∷ cancelled ∷ blocked ∷ []
transitions on_hold = in_progress ∷ ready ∷ cancelled ∷ blocked ∷ []
transitions rejected = rework ∷ ready ∷ cancelled ∷ []
transitions rework = ready ∷ in_progress ∷ cancelled ∷ []
transitions completed = []
transitions cancelled = []
transitions skipped = []

unfoldable pub assert_task_transition : TaskStatus → TaskStatus → Result (Unit {0})
unfolding transitions
assert_task_transition from to = if from === to then ok tt else do
  throw_if (is_task_terminal from) conflict
  throw_if (not (elem (code to) (map code (transitions from)))) conflict

-- enum WorkflowStepDependencyType
pub data DependencyType : Type 0 where
  finish_to_start start_to_start : DependencyType

abbrev pub is_task_dependency_satisfied : DependencyType → TaskStatus → Bool
is_task_dependency_satisfied start_to_start s =
    s === in_progress || s === completed || s === skipped
is_task_dependency_satisfied finish_to_start s = s === completed || s === skipped
