-- ===== src/Workflow/InstanceStatus.antt =====
-- modules/workflow/workflow-instance-state-machine.ts: the statuses of a workflow instance.
use geeta_backend.Common.{Bool, true, false, ◌==◌, List, [], ◌∷◌, ℕ, not, if◌then◌else◌, elem, map}
use geeta_backend.Common.Result.{Result, ok, conflict, throw_if, ◌>>◌}

-- enum WorkflowInstanceStatus; the last three are its legacy aliases
pub data InstanceStatus : Type 0 where
  draft initialized running paused completed cancelled failed ready in_progress on_hold :
      InstanceStatus

abbrev pub code : InstanceStatus → ℕ
code draft = 0
code initialized = 1
code running = 2
code paused = 3
code completed = 4
code cancelled = 5
code failed = 6
code ready = 7
code in_progress = 8
code on_hold = 9

infix 50 ◌===◌
abbrev pub ◌===◌ : InstanceStatus → InstanceStatus → Bool
a === b = code a == code b

-- The set `TERMINAL`, `isWorkflowTerminal`.
abbrev pub is_workflow_terminal : InstanceStatus → Bool
is_workflow_terminal completed = true
is_workflow_terminal cancelled = true
is_workflow_terminal failed = true
is_workflow_terminal _ = false

-- The table `TRANSITIONS`.
unfoldable pub transitions : InstanceStatus → List InstanceStatus
transitions draft = initialized ∷ cancelled ∷ []
transitions initialized = running ∷ cancelled ∷ failed ∷ []
transitions running = paused ∷ completed ∷ cancelled ∷ failed ∷ []
transitions paused = running ∷ cancelled ∷ failed ∷ []
transitions completed = []
transitions cancelled = []
transitions failed = []
transitions ready = initialized ∷ running ∷ cancelled ∷ []
transitions in_progress = running ∷ paused ∷ completed ∷ cancelled ∷ failed ∷ []
transitions on_hold = paused ∷ running ∷ cancelled ∷ []

unfoldable pub assert_workflow_instance_transition :
    InstanceStatus → InstanceStatus → Result (Unit {0})
unfolding transitions
assert_workflow_instance_transition from to = if from === to then ok tt else do
  throw_if (is_workflow_terminal from) conflict
  throw_if (not (elem (code to) (map code (transitions from)))) conflict

unfoldable pub normalize_workflow_status : InstanceStatus → InstanceStatus
normalize_workflow_status ready = initialized
normalize_workflow_status in_progress = running
normalize_workflow_status on_hold = paused
normalize_workflow_status s = s
