-- ===== src/Resources/Create.antt =====
-- resources/: the constructors. The identifier of `uuid.NewV4` and the clock are arguments. A deep
-- copy of a value, as `CopyWorkflowDefinition` and `CopyWorkflow` make, is the value.
use workflow_manager.Common.{Text, ℤ, pos, false, [], Option, none, some, ◌++◌, ◌∷◌}
use workflow_manager.Common.Maps.{Map}
use workflow_manager.Models.{
  Value, StateMachine, Time, zero_time, Job, zero_job, StateResource, WorkflowDefinition, Workflow,
  JobStatus, WorkflowStatus, StateResourceType,
}
use workflow_manager.Resources.Status.{slice}

unfoldable pub new_job : Text → Text → Text → Option StateResource → Text → Job
new_job id name state state_resource input = record zero_job {
  id = id;
  name = name;
  state = state;
  state_resource = state_resource;
  input = input;
  status = JobStatus.created;
}

unfoldable pub new_state_resource : Time → Text → Text → Text → StateResource
new_state_resource now name namespace arn = record {
  last_updated = now;
  name = name;
  namespace = namespace;
  type = StateResourceType.activity_arn;
  uri = arn;
}

unfoldable pub new_workflow_definition :
    Text → Time → Text → Text → StateMachine → Map Text Value → WorkflowDefinition
new_workflow_definition uuid now name manager state_machine default_tags = record {
  created_at = now;
  default_tags = default_tags;
  id = uuid;
  manager = manager;
  name = name;
  state_machine = state_machine;
  version = pos 0;
}

unfoldable pub new_workflow_definition_version :
    Text → Time → WorkflowDefinition → ℤ → WorkflowDefinition
new_workflow_definition_version uuid now def version = record {
  created_at = now;
  default_tags = def.default_tags;
  id = uuid;
  manager = def.manager;
  name = def.name;
  state_machine = def.state_machine;
  version = version;
}

unfoldable pub new_workflow :
    Text → Time → WorkflowDefinition → Text → Text → Text → Map Text Value → Workflow
new_workflow uuid now def input namespace queue tags = record {
  created_at = now;
  id = uuid;
  input = input;
  last_job = none;
  last_updated = now;
  namespace = namespace;
  queue = queue;
  resolved_by_user = false;
  retries = [];
  retry_for = [];
  status = WorkflowStatus.queued;
  stopped_at = zero_time;
  tags = tags;
  workflow_definition = def;
  jobs = some [];
  output = [];
  status_reason = [];
}

unfoldable pub add_job : Workflow → Job → Workflow
add_job wf j = record wf { jobs = some (slice wf.jobs ++ j ∷ []) }
