-- ===== src/WfUpdater/Update.antt =====
-- wfupdater/processevents.go: the `switch` of `ProcessEvents`, which brings the job of an event up
-- to date. A nil pointer that the code dereferences is a panic.
use workflow_manager.Common.{
  Text, Text-discrete, Bool, true, false, [], ◌∷◌, ◌++◌, Option, none, some, Result, ok, panic,
  ◌>>=◌, if◌then◌else◌, pos, ite,
}
use workflow_manager.Common.Maps.{get}
use workflow_manager.Common.Strings.{codes, decimal, has_prefix, trim_prefix}
use workflow_manager.Models.{
  Job, zero_job, JobAttempt, JobStatus, JobStatus-discrete, StateMachine, StateResource,
  StateResourceType, States, Workflow, Error, Fields,
}
use workflow_manager.Resources.Graph.{flat}
use workflow_manager.WfUpdater.Events.{EventType, Entered, Failure, HistoryEvent}
use workflow_manager.WfUpdater.Reason.{
  cause_and_error_name, failure_reason, timeout_reason, is_activity_doesnt_exist_failure,
  is_activity_timed_out_failure, status_reason_job_timed_out, status_reason_workflow_timed_out,
  state_resource_does_not_exist,
}

abbrev pub states_of : StateMachine → States
states_of (StateMachine.machine comment start_at states timeout version) = states

abbrev pub lambda_prefix : Text
lambda_prefix = codes "lambda:"

abbrev pub glue_prefix : Text
glue_prefix = codes "glue:"

-- The name and the type of the resource of a state definition; both empty if there is none.
unfoldable pub resource_of : Option Fields → Text × StateResourceType
resource_of none = ([], StateResourceType.other [])
resource_of (some def) =
    if has_prefix def.resource lambda_prefix
    then (trim_prefix def.resource lambda_prefix, StateResourceType.lambda_function_arn)
    else if has_prefix def.resource glue_prefix
    then (trim_prefix def.resource glue_prefix, StateResourceType.task_arn)
    else (def.resource, StateResourceType.activity_arn)

unfoldable pub enter_details : Workflow → HistoryEvent → Option Entered → Job → Job
enter_details wf evt none job = job
enter_details wf evt (some d) job =
    let (resource_name, resource_type) =
      resource_of
        (get Text-discrete d.name (flat (states_of wf.workflow_definition.state_machine))) in
    record job {
      input = d.input;
      state = d.name;
      state_resource = some (record {
        last_updated = evt.timestamp;
        name = resource_name;
        namespace = wf.namespace;
        type = resource_type;
        uri = [];
      });
    }

-- A state is entered. A state that is no task starts at once.
unfoldable pub enter : Workflow → HistoryEvent → Bool → Job → Job
unfolding enter_details
enter wf evt is_task job = enter_details wf evt evt.entered (record job {
  id = decimal (pos evt.id);
  attempts = [];
  created_at = evt.timestamp;
  started_at = if is_task then job.started_at else evt.timestamp;
  status = JobStatus.created;
})

unfoldable pub attempt_of : Job → JobAttempt
attempt_of old = record {
  reason = old.status_reason;
  created_at = old.created_at;
  started_at = old.started_at;
  stopped_at = old.stopped_at;
  task_arn = old.container;
}

-- The job's data moves to a new attempt.
unfoldable pub retry : HistoryEvent → Option StateResource → Job → Result Error Job
unfolding attempt_of
retry evt none old = panic
retry evt (some resource) old = ok (record zero_job {
  id = decimal (pos evt.id);
  attempts = old.attempts ++ attempt_of old ∷ [];
  created_at = evt.timestamp;
  input = old.input;
  state = old.state;
  state_resource = some (record {
    last_updated = evt.timestamp;
    name = resource.name;
    namespace = resource.namespace;
    type = resource.type;
    uri = [];
  });
  status = JobStatus.queued;
})

unfoldable pub schedule : HistoryEvent → Job → Result Error Job
unfolding retry
schedule evt job =
    ite (JobStatus-discrete job.status JobStatus.failed) (retry evt job.state_resource job)
      (ok (record job { status = JobStatus.queued }))

unfoldable pub worker_of : Option Text → Text → Text
worker_of none container = container
worker_of (some worker) container = worker

unfoldable pub start : HistoryEvent → Job → Job
unfolding worker_of
start evt job = record job {
  status = JobStatus.running;
  started_at = evt.timestamp;
  container = worker_of evt.worker_name job.container;
}

unfoldable pub fail : HistoryEvent → Text → Job → Job
fail evt reason job = record job {
  status = JobStatus.failed;
  stopped_at = evt.timestamp;
  status_reason = reason;
}

unfoldable pub succeed : Job → Job
succeed job = record job { status = JobStatus.succeeded }

abbrev pub cause_of : Option Failure → Text → Text
cause_of none reason = reason
cause_of (some d) reason = d.cause

unfoldable pub abort : HistoryEvent → Job → Job
abort evt job = record job {
  status = JobStatus.aborted_by_user;
  stopped_at = evt.timestamp;
  status_reason = cause_of evt.failure job.status_reason;
}

-- The reason that an `ExecutionFailed` event gives; after a timeout the job has its reason.
unfoldable pub execution_reason : Option Failure → Text → Text
execution_reason none reason = reason
execution_reason (some d) reason =
    if is_activity_doesnt_exist_failure d
    then state_resource_does_not_exist
    else if is_activity_timed_out_failure d
    then reason
    else failure_reason d

unfoldable pub execution_timeout_reason : Option Failure → Text
execution_timeout_reason none = status_reason_workflow_timed_out
execution_timeout_reason (some d) = timeout_reason status_reason_workflow_timed_out d

abbrev pub output_of : Option Text → Text → Text
output_of none output = output
output_of (some new) output = new

unfoldable pub exit : HistoryEvent → Job → Result Error Job
exit evt job = elim evt.exited [
  | none ↦ panic
  | some d ↦ ok (record job { stopped_at = evt.timestamp; output = output_of d.output job.output })
]

-- The failures, the reason of which comes from the event's own details.
unfoldable pub fail_with : (Failure → Text) → HistoryEvent → Job → Result Error Job
fail_with reason evt job = cause_and_error_name evt >>= λ d. ok (fail evt (reason d) job)

unfoldable pub update_at : EventType → Workflow → HistoryEvent → Job → Result Error Job
update_at EventType.task_state_entered wf evt job = ok (enter wf evt true job)
update_at EventType.choice_state_entered wf evt job = ok (enter wf evt false job)
update_at EventType.succeed_state_entered wf evt job = ok (enter wf evt false job)
update_at EventType.task_scheduled wf evt job = schedule evt job
update_at EventType.activity_scheduled wf evt job = schedule evt job
update_at EventType.lambda_function_scheduled wf evt job = schedule evt job
update_at EventType.task_started wf evt job = ok (start evt job)
update_at EventType.activity_started wf evt job = ok (start evt job)
update_at EventType.lambda_function_started wf evt job = ok (start evt job)
update_at EventType.activity_failed wf evt job = fail_with failure_reason evt job
update_at EventType.lambda_function_failed wf evt job = fail_with failure_reason evt job
update_at EventType.lambda_function_schedule_failed wf evt job = fail_with failure_reason evt job
update_at EventType.lambda_function_start_failed wf evt job = fail_with failure_reason evt job
update_at EventType.task_submit_failed wf evt job = fail_with failure_reason evt job
update_at EventType.activity_timed_out wf evt job =
    fail_with (timeout_reason status_reason_job_timed_out) evt job
update_at EventType.lambda_function_timed_out wf evt job =
    fail_with (timeout_reason status_reason_job_timed_out) evt job
update_at EventType.task_timed_out wf evt job =
    fail_with (timeout_reason status_reason_job_timed_out) evt job
update_at EventType.task_succeeded wf evt job = ok (succeed job)
update_at EventType.activity_succeeded wf evt job = ok (succeed job)
update_at EventType.execution_succeeded wf evt job = ok (succeed job)
update_at EventType.lambda_function_succeeded wf evt job = ok (succeed job)
update_at EventType.execution_aborted wf evt job = ok (abort evt job)
update_at EventType.execution_failed wf evt job =
    ok (fail evt (execution_reason evt.failure job.status_reason) job)
update_at EventType.execution_timed_out wf evt job =
    ok (fail evt (execution_timeout_reason evt.failure) job)
update_at EventType.task_state_exited wf evt job = exit evt job
update_at EventType.choice_state_exited wf evt job = exit evt (succeed job)
update_at EventType.succeed_state_exited wf evt job = exit evt (succeed job)
update_at _ wf evt job = ok job

unfoldable pub update_job : Workflow → HistoryEvent → Job → Result Error Job
update_job wf evt job = update_at evt.type wf evt job
