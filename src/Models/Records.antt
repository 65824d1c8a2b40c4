-- ===== src/Models/Records.antt =====
-- Jobs, workflows and their definitions: job.go, job_attempt.go, workflow.go, workflow_summary.go,
-- workflow_definition.go and state_resource.go; and the errors that the modelled functions return.
use workflow_manager.Common.{Text, ℤ, pos, negsuc, Bool, false, Option, none, List, []}
use workflow_manager.Common.Maps.{Map}
use workflow_manager.Models.Status.{JobStatus, WorkflowStatus, StateResourceType, StateType}
use workflow_manager.Models.Machine.{Value, StateMachine, States}

-- An instant, in nanoseconds since the Unix epoch. Go's zero time is the start of the year 1.
abbrev pub Time : Type 0
Time = ℤ

abbrev pub zero_time : Time
zero_time = negsuc 62_135_596_799_999_999_999

pub record StateResource : Type 0 where
  pub last_updated : Time
  pub name : Text
  pub namespace : Text
  pub type : StateResourceType
  pub uri : Text

-- The container instance and the exit code, which no modelled function sets, are left out.
pub record JobAttempt : Type 0 where
  pub reason : Text
  pub created_at : Time
  pub started_at : Time
  pub stopped_at : Time
  pub task_arn : Text

pub record Job : Type 0 where
  pub attempts : List JobAttempt
  pub container : Text
  pub created_at : Time
  pub id : Text
  pub input : Text
  pub name : Text
  pub output : Text
  pub queue : Text
  pub started_at : Time
  pub state : Text
  pub state_resource : Option StateResource
  pub status : JobStatus
  pub status_reason : Text
  pub stopped_at : Time

-- `models.Job{}`
abbrev pub zero_job : Job
zero_job = record {
  attempts = [];
  container = [];
  created_at = zero_time;
  id = [];
  input = [];
  name = [];
  output = [];
  queue = [];
  started_at = zero_time;
  state = [];
  state_resource = none;
  status = JobStatus.other [];
  status_reason = [];
  stopped_at = zero_time;
}

-- A definition whose state machine is not nil.
pub record WorkflowDefinition : Type 0 where
  pub created_at : Time
  pub default_tags : Map Text Value
  pub id : Text
  pub manager : Text
  pub name : Text
  pub state_machine : StateMachine
  pub version : ℤ

-- The definition in a summary, `models.WorkflowDefinition{}` but for its name and version: its machine
-- is nil, which is written as a machine without states, and which no function of the model is given.
abbrev pub zero_definition : WorkflowDefinition
zero_definition = record {
  created_at = zero_time;
  default_tags = [];
  id = [];
  manager = [];
  name = [];
  state_machine = StateMachine.machine [] [] States.nil (pos 0) [];
  version = pos 0;
}

-- The embedded `WorkflowSummary` and the fields of `Workflow`; `jobs` is `none` for a nil slice. These
-- are the workflows whose `WorkflowDefinition` is not nil and has a state machine; on one without,
-- the code that reads the definition or the machine panics, and the model does not speak of it.
pub record Workflow : Type 0 where
  pub created_at : Time
  pub id : Text
  pub input : Text
  pub last_job : Option Job
  pub last_updated : Time
  pub namespace : Text
  pub queue : Text
  pub resolved_by_user : Bool
  pub retries : List Text
  pub retry_for : Text
  pub status : WorkflowStatus
  pub stopped_at : Time
  pub tags : Map Text Value
  pub workflow_definition : WorkflowDefinition
  pub jobs : Option (List Job)
  pub output : Text
  pub status_reason : Text

-- Errors carry what the program branches on, and of a message its arguments.
pub data Error : Type 0 where
  not_found : Text → Error
  already_exists : Text → Error
  conflict : Text → Error
  bad_request : Text → Error
  terminal_to_non_terminal : WorkflowStatus → WorkflowStatus → Error
  start_at_not_found : Text → Error
  invalid_transition : Text → Text → Error
  end_with_next : Error
  no_next : Error
  unsupported_type : StateType → Error
  invalid_state : Text → Error
  invalid_page_token : Text → Error
  several : List Text → Error
  external : Text → Error

-- `models.Workflow{WorkflowDefinition: &def}`
abbrev pub workflow_of : WorkflowDefinition → Workflow
workflow_of def = record {
  created_at = zero_time;
  id = [];
  input = [];
  last_job = none;
  last_updated = zero_time;
  namespace = [];
  queue = [];
  resolved_by_user = false;
  retries = [];
  retry_for = [];
  status = WorkflowStatus.other [];
  stopped_at = zero_time;
  tags = [];
  workflow_definition = def;
  jobs = none;
  output = [];
  status_reason = [];
}

-- workflow_query.go and resolved_by_user_wrapper.go. The limit is an `int64`.
pub record ResolvedByUserWrapper : Type 0 where
  pub is_set : Bool
  pub value : Bool

pub record WorkflowQuery : Type 0 where
  pub limit : ℤ
  pub oldest_first : Bool
  pub page_token : Text
  pub resolved_by_user_wrapper : Option ResolvedByUserWrapper
  pub status : WorkflowStatus
  pub summary_only : Option Bool
  pub workflow_definition_name : Option Text
