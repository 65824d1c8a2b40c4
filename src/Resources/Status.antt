-- ===== src/Resources/Status.antt =====
-- resources/jobs.go and resources/workflows.go: what a status says.
use workflow_manager.Common.{
  Text, ℤ, pos, negsuc, Bool, true, false, ◌&&◌, List, [], ◌∷◌, Option, none, some,
}
use workflow_manager.Models.{JobStatus, WorkflowStatus, Job, Workflow}

unfoldable pub job_is_done : JobStatus → Bool
job_is_done JobStatus.failed = true
job_is_done JobStatus.succeeded = true
job_is_done JobStatus.aborted_deps_failed = true
job_is_done JobStatus.aborted_by_user = true
job_is_done JobStatus.created = false
job_is_done JobStatus.queued = false
job_is_done JobStatus.waiting_for_deps = false
job_is_done JobStatus.running = false
job_is_done (JobStatus.other s) = false

unfoldable pub job_status_to_int : JobStatus → ℤ
job_status_to_int JobStatus.failed = pos 1
job_status_to_int JobStatus.aborted_by_user = negsuc 0
job_status_to_int JobStatus.aborted_deps_failed = negsuc 1
job_status_to_int _ = pos 0

unfoldable pub workflow_status_to_int : WorkflowStatus → ℤ
workflow_status_to_int WorkflowStatus.cancelled = negsuc 0
workflow_status_to_int WorkflowStatus.failed = pos 1
workflow_status_to_int WorkflowStatus.queued = pos 0
workflow_status_to_int WorkflowStatus.running = pos 0
workflow_status_to_int WorkflowStatus.succeeded = pos 0
workflow_status_to_int (WorkflowStatus.other s) = pos 0

-- A workflow's status is final; a cancelled one only once it is resolved by the user.
unfoldable pub final_status : WorkflowStatus → Bool → Bool
final_status WorkflowStatus.cancelled resolved = resolved
final_status WorkflowStatus.failed resolved = true
final_status WorkflowStatus.succeeded resolved = true
final_status WorkflowStatus.queued resolved = false
final_status WorkflowStatus.running resolved = false
final_status (WorkflowStatus.other s) resolved = false

unfoldable pub workflow_status_is_done : Workflow → Bool
unfolding final_status
workflow_status_is_done wf = final_status wf.status wf.resolved_by_user

unfoldable pub jobs_are_done : List Job → Bool
jobs_are_done [] = true
jobs_are_done (job ∷ jobs) = job_is_done job.status && jobs_are_done jobs

-- `range` over a nil slice makes no round.
abbrev pub slice {ℓ} : {A : Type ℓ} → Option (List A) → List A
slice none = []
slice (some xs) = xs

unfoldable pub workflow_is_done : Workflow → Bool
workflow_is_done wf = jobs_are_done (slice wf.jobs) && workflow_status_is_done wf

-- The statuses that Step Functions gives an execution; the code compares strings.
pub data ExecutionStatus : Type 0 where
  running succeeded failed timed_out aborted : ExecutionStatus
  other : Text → ExecutionStatus

unfoldable pub sfn_status_to_workflow_status : ExecutionStatus → WorkflowStatus
sfn_status_to_workflow_status ExecutionStatus.running = WorkflowStatus.running
sfn_status_to_workflow_status ExecutionStatus.succeeded = WorkflowStatus.succeeded
sfn_status_to_workflow_status ExecutionStatus.failed = WorkflowStatus.failed
sfn_status_to_workflow_status ExecutionStatus.timed_out = WorkflowStatus.failed
sfn_status_to_workflow_status ExecutionStatus.aborted = WorkflowStatus.cancelled
sfn_status_to_workflow_status (ExecutionStatus.other s) = WorkflowStatus.queued
