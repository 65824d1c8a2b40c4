-- ===== src/Executor/Service.antt =====
-- What the program calls of AWS Step Functions and of CloudWatch Logs: the requests and the answers
-- as the API documents them. The services are parameters: operations on a state of any kind, which
-- they may change also when they fail.
use workflow_manager.Common.{Text, ℤ, Bool, List, [], ◌∷◌, Option}
use workflow_manager.Common.Maps.{Map}
use workflow_manager.Common.Run.{Run}
use workflow_manager.Models.{Value, Time, Error}
use workflow_manager.Resources.Status.{ExecutionStatus}

-- util.go: `ToTagMap` keeps the tags that are strings.
unfoldable pub to_tag_map : Map Text Value → Map Text Text
to_tag_map [] = []
to_tag_map ((k, Value.string v) ∷ tags) = (k, v) ∷ to_tag_map tags
to_tag_map ((k, Value.json v) ∷ tags) = to_tag_map tags

-- `sfn.LoggingConfiguration`, with the ARNs of its log groups; a level that is nil is empty.
pub record LoggingConfiguration : Type 0 where
  pub destinations : List Text
  pub level : Text
  pub include_execution_data : Bool

-- `DescribeStateMachineOutput`
pub record StateMachineOutput : Type 0 where
  pub state_machine_arn : Text
  pub definition : Text
  pub logging_configuration : Option LoggingConfiguration

-- `DescribeExecutionOutput`; an item of `ListExecutionsOutput` has no input and no output.
pub record ExecutionOutput : Type 0 where
  pub name : Text
  pub status : ExecutionStatus
  pub start_date : Option Time
  pub stop_date : Option Time
  pub input : Option Text
  pub output : Option Text

-- An answer of AWS: what was asked for, the error code that it does not exist (or, of a request that
-- makes something, that it exists already), or any other error.
pub data Answer (A : Type 0) : Type 0 where
  found : A → Answer A
  other_state : Answer A
  failed : Error → Answer A

pub record CreateStateMachineInput : Type 0 where
  pub name : Text
  pub definition : Text
  pub role_arn : Text
  pub logging_configuration : Option LoggingConfiguration
  pub tags : Map Text Text

-- A field that is not set is not changed.
pub record UpdateStateMachineInput : Type 0 where
  pub state_machine_arn : Text
  pub definition : Option Text
  pub role_arn : Option Text
  pub logging_configuration : Option LoggingConfiguration

pub record StartExecutionInput : Type 0 where
  pub state_machine_arn : Text
  pub input : Text
  pub name : Text

pub record SubscriptionFilterInput : Type 0 where
  pub destination_arn : Text
  pub filter_name : Text
  pub filter_pattern : Text
  pub log_group_name : Text
  pub role_arn : Text

pub record StepFunctions (World : Type 0) : Type 0 where
  pub describe_state_machine : Text → World → Answer StateMachineOutput
  pub create_state_machine : CreateStateMachineInput → Run World Error (Unit {0})
  pub update_state_machine : UpdateStateMachineInput → Run World Error (Unit {0})
  pub tag_resource : Text → Map Text Text → Run World Error (Unit {0})
  pub start_execution : StartExecutionInput → Run World Error (Unit {0})
  -- Of an execution, for a cause.
  pub stop_execution : Text → Text → Run World Error (Unit {0})
  pub describe_execution : Text → World → Answer ExecutionOutput
  pub list_executions : Text → World → Answer (List ExecutionOutput)

pub record CloudWatchLogs (World : Type 0) : Type 0 where
  pub create_log_group : Text → Map Text Text → World → Answer (Unit {0}) × World
  -- Of a log group, in days.
  pub put_retention_policy : Text → ℤ → Run World Error (Unit {0})
  pub put_subscription_filter : SubscriptionFilterInput → Run World Error (Unit {0})
