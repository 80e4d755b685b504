-- ===== src/Workflow/Tests.antt =====
-- Runs of the workflow engine on a workflow of two tasks, and its theorems at them.
mod SendBack
use geeta_backend.Common.{
  ℕ, true, false, none, some, List, [], ◌∷◌, map, ◌≡◌, ◌↔◌, ◌⊎◌, ◌&&◌, refl, elem, all,
}
use geeta_backend.Common.Result.{Result, ok, err}
use geeta_backend.Workflow.TaskStatus.{TaskStatus, DependencyType, assert_task_transition}
use geeta_backend.Workflow.InstanceStatus.{InstanceStatus}
use geeta_backend.Workflow.Skip.{SkipWhen}
use geeta_backend.Workflow.Store.{
  find_task, update_task, Store, Task, TemplateStep, Instance, StepType, TaskDependencyEdge,
  find_instance, tasks_of, update_task_statuses,
}
use geeta_backend.Workflow.Store.Updates.{UniqueIds}
use geeta_backend.Workflow.Store.Keys.{row}
use geeta_backend.Workflow.Dependency.{
  IdMap, TaskRef, are_task_dependencies_met, resolve_ready_task_ids, becomes_ready, from_entries,
}
use geeta_backend.Workflow.Dependency.Ready.{MayStart, resolve_ready_task_ids_iff}
use geeta_backend.Workflow.Engine.Types.{Action, AdvanceInput, AdvanceResult, Effect}
use geeta_backend.Workflow.Engine.Advance.{
  advance_tx, settle_instance, status_by_task_id, all_complete,
}
use geeta_backend.Workflow.Engine.Advance.TaskEffect.{advanced, advance_tx-tasks}
use geeta_backend.Workflow.Engine.Advance.Completion.{is_closed, advance_tx-completed}
use geeta_backend.Workflow.Engine.Advance.Final.{advance_tx-keeps_final}
use geeta_backend.Workflow.Engine.Advance.Stuck.{all_skipped-stuck}
use geeta_backend.Workflow.Engine.Advance.Progress.{advance_tx-returns}
use geeta_backend.Workflow.Engine.Cancel.{CancelInput, cancel_instance, cancel_open_instance}
use geeta_backend.Workflow.Engine.Cancel.Settled.{
  cancelled, stamped, is_final, cancel_instance-settles,
}
use geeta_backend.Workflow.Engine.Rework.{
  block_downstream_and_rework_target, resolve_rework_target_task_id,
}
use geeta_backend.Workflow.Engine.Rework.Blocked.{
  reworked, block_downstream_and_rework_target-reworked,
}
use geeta_backend.Workflow.Engine.Qc.{
  QcInput, QcResult, Rework, apply_qc_rework, RejectInput, Rejection, reject_vendor_approval,
}
use geeta_backend.Workflow.Engine.Qc.SentBack.{
  SentBack, apply_qc_rework-SentBack, GateSentBack, reject_vendor_approval-GateSentBack,
}
use geeta_backend.Workflow.Engine.Correction.{
  CorrectionResult, is_verification, flag_task_for_correction, resolve_task_correction,
}
use geeta_backend.Workflow.Engine.Correction.RoundTrip.{
  given_back, resolve_task_correction-flag_task_for_correction,
}
use geeta_backend.Workflow.Engine.Trace.{Run, Step, KeptIn, Run-keeps_final}

abbrev step : ℕ → TemplateStep
step i = record {
  id = i;
  department_id = 1;
  step_name = "Printing";
  step_code = "PRINTING";
  step_type = StepType.printing;
  step_order = i;
  expected_minutes = 30;
  allow_skip = false;
  allow_rework = true;
  is_mandatory = true;
  skip_when = SkipWhen.absent;
  instructions = none;
  rework_target_step_code = none;
  dependencies = [];
}

abbrev task : ℕ → TaskStatus → Task
task i status = record {
  id = i;
  workflow_instance_id = 1;
  workflow_step = step i;
  department_id = 1;
  step_order = i;
  estimated_minutes = 30;
  instructions = none;
  status = status;
  queued_at = none;
  completed_at = none;
  remarks = none;
}

abbrev instance_in : InstanceStatus → Instance
instance_in status = record {
  id = 1;
  order_id = 7;
  production_order_item_id = 8;
  workflow_template_id = 9;
  status = status;
  current_step_order = 1;
  started_at = none;
  completed_at = none;
  created_by_id = none;
}

abbrev second_after_first : List TaskDependencyEdge
second_after_first =
    record {
      task_id = 11;
      depends_on_task_id = 10;
      dependency_type = DependencyType.finish_to_start;
    }
    ∷ []

-- One workflow with the tasks 10 and 11.
abbrev store_of : InstanceStatus → TaskStatus → TaskStatus → Store
store_of status first second = record {
  templates = [];
  bindings = [];
  instances = instance_in status ∷ [];
  tasks = task 10 first ∷ task 11 second ∷ [];
  dependencies = second_after_first;
  history = [];
  sessions = [];
  rework_requests = [];
  timeline = [];
  order_events = [];
}

abbrev running_store : Store
running_store = store_of InstanceStatus.running TaskStatus.ready TaskStatus.blocked

abbrev last_store : Store
last_store = store_of InstanceStatus.running TaskStatus.completed TaskStatus.ready

abbrev skipped_store : Store
skipped_store = store_of InstanceStatus.initialized TaskStatus.skipped TaskStatus.skipped

abbrev finish : ℕ → AdvanceInput
finish i = record {
  workflow_instance_id = 1;
  task_id = i;
  action = Action.complete;
  actor_id = some 3;
  remarks = none;
}

unique_tasks : UniqueIds running_store.tasks
unique_tasks = (refl, (refl, tt))

may_complete : assert_task_transition TaskStatus.ready TaskStatus.completed ≡ ok tt
unfolding assert_task_transition
may_complete = refl

-- What the store holds of a run that returned.
abbrev statuses_after : Result (AdvanceResult × Store) → List TaskStatus
statuses_after (ok (_, s)) = map (λ (t : Task). t.status) s.tasks
statuses_after (err _) = []

-- Finishing the first task sets the second free.
first_then_second :
    statuses_after (advance_tx 5 (finish 10) running_store)
    ≡ TaskStatus.completed ∷ TaskStatus.ready ∷ []
unfolding advance_tx update_task_statuses settle_instance resolve_ready_task_ids
    are_task_dependencies_met status_by_task_id all_complete
first_then_second = refl

advance_tx-returns_example :
    (r : AdvanceResult × Store) × (advance_tx 5 (finish 10) running_store ≡ ok r)
advance_tx-returns_example =
    advance_tx-returns 5 (finish 10) running_store (instance_in InstanceStatus.running)
      (task 10 TaskStatus.ready) refl refl refl may_complete

first_run : (r : AdvanceResult × Store) × (advance_tx 5 (finish 10) running_store ≡ ok r)
first_run =
    advance_tx-returns 5 (finish 10) running_store (instance_in InstanceStatus.running)
      (task 10 TaskStatus.ready) refl refl refl may_complete

last_run : (r : AdvanceResult × Store) × (advance_tx 5 (finish 11) last_store ≡ ok r)
last_run =
    advance_tx-returns 5 (finish 11) last_store (instance_in InstanceStatus.running)
      (task 11 TaskStatus.ready) refl refl refl may_complete

advance_tx-tasks_example :
    first_run.0.1.tasks ≡ map (advanced 5 (finish 10) running_store) running_store.tasks
advance_tx-tasks_example = advance_tx-tasks 5 (finish 10) running_store unique_tasks first_run.1

advance_tx-completed_example :
    (last_run.0.0.workflow_completed ≡ all is_closed (tasks_of 1 last_run.0.1.tasks))
    × ((last_run.0.0.workflow_completed ≡ false)
        ⊎ (last_run.0.0.workflow_status ≡ InstanceStatus.completed))
advance_tx-completed_example =
    advance_tx-completed 5 (finish 11) last_store (refl, (refl, tt)) last_run.1

Run-keeps_final_example : KeptIn 10 TaskStatus.completed last_run.0.1 × UniqueIds last_run.0.1.tasks
Run-keeps_final_example =
    Run-keeps_final (Run.then (Step.advances 5 (finish 11) last_run.1) Run.done) (refl, (refl, tt))
      10 TaskStatus.completed refl (task 10 TaskStatus.completed, refl, refl)

all_skipped-stuck_example :
    ¬ ((r : AdvanceResult × Store) × (advance_tx 5 (finish 10) skipped_store ≡ ok r))
all_skipped-stuck_example = all_skipped-stuck 5 (finish 10) skipped_store refl refl refl

abbrev first_done : IdMap TaskStatus
first_done = from_entries ((10, TaskStatus.completed) ∷ (11, TaskStatus.blocked) ∷ []) (λ _. none)

abbrev refs : List TaskRef
refs = record { id = 10; template_step_id = 10 } ∷ record { id = 11; template_step_id = 11 } ∷ []

second_ready : elem 11 (resolve_ready_task_ids refs second_after_first first_done true) ≡ true
unfolding resolve_ready_task_ids are_task_dependencies_met
second_ready = refl

resolve_ready_task_ids_iff_example :
    (elem 11 (resolve_ready_task_ids refs second_after_first first_done true) ≡ true) ↔ (
      (elem 11 (map (λ (r : TaskRef). r.id) refs) ≡ true)
      × MayStart second_after_first first_done true 11)
resolve_ready_task_ids_iff_example =
    resolve_ready_task_ids_iff refs second_after_first first_done true 11

abbrev stop : CancelInput
stop = record { workflow_instance_id = 1; actor_id = some 3; reason = none }

abbrev stopped : Store
stopped = (cancel_open_instance 6 stop (instance_in InstanceStatus.running) running_store).1

cancel_instance-settles_example :
    (cancel_instance 6 stop running_store
      ≡ ok (cancel_open_instance 6 stop (instance_in InstanceStatus.running) running_store))
    × (find_instance 1 stopped ≡ some (stamped 6 (instance_in InstanceStatus.running)))
    × (stopped.tasks ≡ map (cancelled 6 1) running_store.tasks)
    × (all is_final (tasks_of 1 stopped.tasks) ≡ true)
    × (cancel_instance 7 stop stopped
        ≡ ok (record { workflow_instance_id = 1; cancelled_task_ids = [] }, stopped))
cancel_instance-settles_example =
    cancel_instance-settles 6 stop running_store refl 7 unique_tasks refl
