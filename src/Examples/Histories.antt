-- ===== src/Examples/Histories.antt =====
-- Histories of an execution whose machine has one task.
use workflow_manager.Common.{
  ℕ, Text, ℤ, pos, true, false, List, [], ◌∷◌, Option, none, some, Result, ok, ◌≡◌, refl, map, All,
}
use workflow_manager.Common.Strings.{codes}
use workflow_manager.Models.{
  zero_time, zero_job, Job, StateMachine, States, Workflow, WorkflowDefinition, WorkflowStatus,
  JobStatus, StateResourceType,
}
use workflow_manager.WfUpdater.Events.{
  EventType, HistoryEvent, Entered, Exited, Failure, Group, group,
}
use workflow_manager.WfUpdater.Process.{
  Progress, no_progress, process_events, process_from, process_pages, read_jobs,
}
use workflow_manager.WfUpdater.Process.States.{entered_names, process_events-states}
use workflow_manager.WfUpdater.Process.Defined.{process_events-returns}
use workflow_manager.WfUpdater.Process.Pages.{
  StartsLate, process_pages-flatten, process_events-lost,
}
use mathlib.Core.List.{flatten}

abbrev one_task : StateMachine
one_task = StateMachine.machine [] (codes "work") States.nil (pos 0) []

abbrev pub a_definition : WorkflowDefinition
a_definition = record {
  created_at = pos 1;
  default_tags = [];
  id = codes "d";
  manager = codes "step-functions";
  name = codes "def";
  state_machine = one_task;
  version = pos 0;
}

abbrev pub a_workflow : Text → WorkflowStatus → Workflow
a_workflow id status = record {
  created_at = pos 1;
  id = id;
  input = codes "{}";
  last_job = none;
  last_updated = pos 1;
  namespace = codes "ns";
  queue = codes "default";
  resolved_by_user = false;
  retries = [];
  retry_for = [];
  status = status;
  stopped_at = zero_time;
  tags = [];
  workflow_definition = a_definition;
  jobs = none;
  output = [];
  status_reason = [];
}

abbrev running_workflow : Workflow
running_workflow = a_workflow (codes "w") WorkflowStatus.running

abbrev an_event : ℕ → ℕ → EventType → HistoryEvent
an_event id parent type = record {
  id = id;
  previous_event_id = parent;
  type = type;
  timestamp = pos 7;
  entered = none;
  exited = none;
  failure = none;
  worker_name = none;
}

abbrev entered_work : HistoryEvent
entered_work = record (an_event 2 0 EventType.task_state_entered) {
  entered = some (record { name = codes "work"; input = codes "in" });
}

abbrev exited_work : HistoryEvent
exited_work = record (an_event 3 2 EventType.task_state_exited) {
  exited = some (record { output = some (codes "out") });
}

abbrev aborted : HistoryEvent
aborted = an_event 4 3 EventType.execution_aborted

-- The job of the task, after both events.
abbrev worked : Job
worked = record zero_job {
  created_at = pos 7;
  id = codes "2";
  input = codes "in";
  output = codes "out";
  state = codes "work";
  state_resource = some (record {
    last_updated = pos 7;
    name = [];
    namespace = codes "ns";
    type = StateResourceType.other [];
    uri = [];
  });
  status = JobStatus.created;
  stopped_at = pos 7;
}

abbrev one_job : Progress
one_job = record { heap = worked ∷ []; ids = (2, 0) ∷ (3, 0) ∷ []; jobs = 0 ∷ [] }

abbrev history : List HistoryEvent
history = entered_work ∷ exited_work ∷ []

history-one_job : process_events running_workflow history no_progress ≡ ok one_job
unfolding process_events workflow_manager.WfUpdater.Process.process_event group
    workflow_manager.WfUpdater.Events.is_supported_state_entered_event
    workflow_manager.WfUpdater.Update.update_job workflow_manager.WfUpdater.Update.update_at
    workflow_manager.Common.Maps.get workflow_manager.Common.Maps.put
    workflow_manager.Common.ℕ_discrete workflow_manager.WfUpdater.Update.exit
    workflow_manager.WfUpdater.Update.enter workflow_manager.Common.Strings.decimal
    workflow_manager.WfUpdater.Update.resource_of workflow_manager.Resources.Graph.flat
history-one_job = refl

process_events-states_example :
    map (λ job. job.state) (read_jobs one_job.heap one_job.jobs) ≡ entered_names history
process_events-states_example =
    process_events-states running_workflow history no_progress one_job history-one_job

process_events-returns_example :
    (p : Progress) × (process_events running_workflow history no_progress ≡ ok p)
    × (map (λ job. job.state) (read_jobs p.heap p.jobs) ≡ entered_names history)
process_events-returns_example = process_events-returns running_workflow history (refl, (refl, tt))

pages-StartsLate : All StartsLate (history ∷ (exited_work ∷ []) ∷ [])
unfolding StartsLate group
pages-StartsLate = (tt, (tt, tt))

process_pages-flatten_example :
    process_pages running_workflow (history ∷ (exited_work ∷ []) ∷ []) no_progress
    ≡ process_from running_workflow (flatten (history ∷ (exited_work ∷ []) ∷ [])) no_progress
process_pages-flatten_example =
    process_pages-flatten running_workflow (history ∷ (exited_work ∷ []) ∷ []) no_progress
      pages-StartsLate

aborted-group : group EventType.execution_aborted ≡ Group.execution_level
unfolding group
aborted-group = refl

process_events-lost_example :
    process_events running_workflow (aborted ∷ history) one_job
    ≡ process_events running_workflow history one_job
process_events-lost_example =
    process_events-lost running_workflow aborted history one_job aborted-group
