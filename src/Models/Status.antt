-- ===== src/Models/Status.antt =====
-- The string enumerations of gen-go/models. A Go value of such a type may hold any string, so each
-- has a constructor `other`; the zero value is `other []`.
use workflow_manager.Common.{Text, ℕ_discrete}

-- s_l_state_type.go
pub data StateType : Type 0 where
  pass task choice wait succeed fail parallel map_state : StateType
  other : Text → StateType

-- job_status.go
pub data JobStatus : Type 0 where
  created queued waiting_for_deps running succeeded failed : JobStatus
  aborted_deps_failed aborted_by_user : JobStatus
  other : Text → JobStatus

-- workflow_status.go
pub data WorkflowStatus : Type 0 where
  queued running failed succeeded cancelled : WorkflowStatus
  other : Text → WorkflowStatus

-- state_resource_type.go
pub data StateResourceType : Type 0 where
  job_definition_arn activity_arn lambda_function_arn task_arn : StateResourceType
  other : Text → StateResourceType

unfoldable pub StateType-discrete : Discrete StateType
unfolding ℕ_discrete
StateType-discrete = hlevel ℕ_discrete

unfoldable pub JobStatus-discrete : Discrete JobStatus
unfolding ℕ_discrete
JobStatus-discrete = hlevel ℕ_discrete

unfoldable pub WorkflowStatus-discrete : Discrete WorkflowStatus
unfolding ℕ_discrete
WorkflowStatus-discrete = hlevel ℕ_discrete
