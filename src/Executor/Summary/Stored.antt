-- ===== src/Executor/Summary/Stored.antt =====
-- executor/workflow_manager_sfn.go: what `UpdateWorkflowSummary` makes of a workflow, and what it
-- leaves in the store in memory.
use workflow_manager.Common.{Bool, pos, ◌≢◌, Text, true, false, List, Result, ok, ◌≡◌, ◌⊎◌}
use workflow_manager.Models.{Time, Workflow, WorkflowStatus, Error}
use workflow_manager.Common.Int.{◌+ℤ◌, ltb_ℤ}
use workflow_manager.Resources.Status.{ExecutionStatus, workflow_is_done}
use workflow_manager.WfUpdater.Events.{HistoryEvent}
use workflow_manager.Store.Memory.{MemoryStore, update_workflow, get_workflow_by_id}
use workflow_manager.Executor.Service.{ExecutionOutput, Answer}
use workflow_manager.Executor.Workflows.{execution_arn_of}

-- A workflow that succeeded or was cancelled is resolved.
abbrev pub IsResolved : Workflow → Type 0
IsResolved wf =
    (wf.resolved_by_user ≡ true)
    ⊎ ((wf.status ≢ WorkflowStatus.succeeded) × (wf.status ≢ WorkflowStatus.cancelled))

-- What the workflow's status is to be for an execution of a status.
pub data StatusOf : ExecutionStatus → WorkflowStatus → Type 0 where
  runs : StatusOf ExecutionStatus.running WorkflowStatus.running
  succeeds : StatusOf ExecutionStatus.succeeded WorkflowStatus.succeeded
  fails : StatusOf ExecutionStatus.failed WorkflowStatus.failed
  times_out : StatusOf ExecutionStatus.timed_out WorkflowStatus.failed
  is_cancelled : StatusOf ExecutionStatus.aborted WorkflowStatus.cancelled
  is_unknown : (s : Text) → StatusOf (ExecutionStatus.other s) WorkflowStatus.queued

-- The last update was more than five minutes ago, in nanoseconds.
abbrev pub is_late : Time → Workflow → Bool
is_late now wf = ltb_ℤ (wf.last_updated +ℤ pos 300_000_000_000) now

-- The status is that of the execution, or failed where the execution is missing for long.
abbrev pub Reported : Time → Workflow → Answer ExecutionOutput → WorkflowStatus → Type 0
Reported now wf (Answer.found out) new = StatusOf out.status new
Reported now wf Answer.other_state new = (is_late now wf ≡ true) × (new ≡ WorkflowStatus.failed)
Reported now wf (Answer.failed e) new = ⊥

-- What the last job has nothing to do with.
abbrev Keeps : Workflow → Workflow → Type 0
Keeps wf wf' = (wf'.status ≡ wf.status) × (wf'.resolved_by_user ≡ wf.resolved_by_user)

module _ (region account_id : Text) (now : Time) (describe : Text → Answer ExecutionOutput)
    (history : Text → Result Error (List HistoryEvent)) where
  abbrev arn_of : Workflow → Text
  arn_of wf = execution_arn_of MemoryStore region account_id (update_workflow now) wf

  -- Nothing is to be done: the workflow is done, or its execution may yet appear.
  abbrev pub Idle : Workflow → Type 0
  Idle wf =
      (workflow_is_done wf ≡ true)
      ⊎ ((describe (arn_of wf) ≡ Answer.other_state) × (is_late now wf ≡ false))

  -- What the update may come to, for the workflow and the store that it returns.
  abbrev Outcome : Workflow → MemoryStore → Workflow × MemoryStore → Type 0
  Outcome wf s r =
      IsResolved r.0
      × ((Idle wf × (r.0 ≡ wf) × (r.1 ≡ s))
          ⊎ ((workflow_is_done wf ≡ false)
              × Reported now wf (describe (arn_of wf)) r.0.status
              × (get_workflow_by_id r.0.id r.1 ≡ ok (record r.0 { last_updated = now }))))
