-- ===== src/WfUpdater/Events.antt =====
-- The events of an execution's history, as wfupdater/ reads them from the SDK, and
-- wfupdater/sfn_events.go. The SDK has a field of details for each type of failure, and an event
-- has the one of its own type: `failure` is that field. A field `Option` is a pointer; `id` and
-- `previous_event_id` are what `aws.Int64Value` gives for theirs, and the type is required.
use workflow_manager.Common.{ℕ, Text, Bool, true, false, Option, List, [], ◌∷◌, ◌++◌}
use workflow_manager.Models.{Time}

pub data EventType : Type 0 where
  execution_started execution_succeeded execution_aborted execution_failed : EventType
  execution_timed_out : EventType
  pass_state_entered pass_state_exited parallel_state_entered parallel_state_exited : EventType
  wait_state_entered wait_state_exited fail_state_entered : EventType
  task_state_entered choice_state_entered succeed_state_entered : EventType
  task_state_exited choice_state_exited succeed_state_exited : EventType
  task_scheduled activity_scheduled lambda_function_scheduled : EventType
  task_started activity_started lambda_function_started : EventType
  task_submit_failed activity_failed lambda_function_failed : EventType
  lambda_function_schedule_failed lambda_function_start_failed : EventType
  task_timed_out activity_timed_out lambda_function_timed_out : EventType
  task_succeeded activity_succeeded lambda_function_succeeded : EventType
  other : Text → EventType

-- `StateEnteredEventDetails`
pub record Entered : Type 0 where
  pub name : Text
  pub input : Text

-- The `Cause` and the `Error` of a failure, an abortion or a timeout.
pub record Failure : Type 0 where
  pub cause : Text
  pub error : Text

-- `StateExitedEventDetails`
pub record Exited : Type 0 where
  pub output : Option Text

pub record HistoryEvent : Type 0 where
  pub id : ℕ
  pub previous_event_id : ℕ
  pub type : EventType
  pub timestamp : Time
  pub entered : Option Entered
  pub exited : Option Exited
  pub failure : Option Failure
  pub worker_name : Option Text

-- What `ProcessEvents` and `eventToJob` distinguish.
pub data Group : Type 0 where
  ignored entering execution_level following : Group

unfoldable pub group : EventType → Group
group EventType.execution_started = Group.ignored
group EventType.pass_state_entered = Group.ignored
group EventType.pass_state_exited = Group.ignored
group EventType.parallel_state_entered = Group.ignored
group EventType.parallel_state_exited = Group.ignored
group EventType.wait_state_entered = Group.ignored
group EventType.wait_state_exited = Group.ignored
group EventType.fail_state_entered = Group.ignored
group EventType.task_state_entered = Group.entering
group EventType.choice_state_entered = Group.entering
group EventType.succeed_state_entered = Group.entering
group EventType.execution_aborted = Group.execution_level
group EventType.execution_failed = Group.execution_level
group EventType.execution_timed_out = Group.execution_level
group _ = Group.following

unfoldable pub is_supported_state_entered_event : HistoryEvent → Bool
is_supported_state_entered_event evt = elim evt.type [
  | EventType.task_state_entered ↦ true
  | EventType.choice_state_entered ↦ true
  | EventType.succeed_state_entered ↦ true
  | _ ↦ false
]

-- The loop of `ReverseHistory`: slot `i` of the new slice is event `numEvents - 1 - i`.
unfoldable pub reverse_history : List HistoryEvent → List HistoryEvent
reverse_history [] = []
reverse_history (evt ∷ events) = reverse_history events ++ evt ∷ []
