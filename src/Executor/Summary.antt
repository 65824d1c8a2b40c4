-- ===== src/Executor/Summary.antt =====
-- executor/workflow_manager_sfn.go: `UpdateWorkflowSummary`. The service's answers, of the execution
-- and of its history, latest first, and the store's `UpdateWorkflow` are parameters. The workflow
-- that the code changes through its pointer is returned beside the store.
pub mod Stored
use workflow_manager.Common.{
  Text, ◌=?◌, Text-discrete, ℤ, pos, negsuc, Bool, true, false, ◌||◌, List, [], ◌∷◌, Option, none,
  some, Option-cases, Result, ok, err, ◌>>=◌, if◌then◌else◌, ◌≡◌, refl, sym, ap, ◌∙◌, arith,
  >>=-eq-ok, ite, subst, ok-injective, Bool-cases, inl, inr, ◌⊎◌,
}
use workflow_manager.Common.Int.{◌+ℤ◌, ltb_ℤ}
use workflow_manager.Models.{Time, zero_time, Workflow, WorkflowStatus, Error}
use workflow_manager.Resources.Status.{
  ExecutionStatus, workflow_is_done, sfn_status_to_workflow_status,
}
use workflow_manager.WfUpdater.Events.{HistoryEvent}
use workflow_manager.WfUpdater.Process.{update_workflow_last_job}
use workflow_manager.WfUpdater.Reason.{status_reason_workflow_timed_out}
use workflow_manager.Executor.Service.{ExecutionOutput, Answer}
use workflow_manager.Executor.Workflows.{execution_arn_of}

-- Five minutes, in nanoseconds.
abbrev pub duration_to_retry : ℤ
duration_to_retry = pos 300_000_000_000

-- The workflow was not updated in the last five minutes.
unfoldable pub is_zombie : Time → Workflow → Bool
is_zombie now wf = ltb_ℤ (wf.last_updated +ℤ duration_to_retry) now

abbrev pub is_timed_out : ExecutionStatus → Bool
is_timed_out ExecutionStatus.timed_out = true
is_timed_out _ = false

abbrev pub is_failed : WorkflowStatus → Bool
is_failed WorkflowStatus.failed = true
is_failed _ = false

-- The statuses that need nobody to look at the workflow.
abbrev pub needs_nobody : WorkflowStatus → Bool
needs_nobody WorkflowStatus.succeeded = true
needs_nobody WorkflowStatus.cancelled = true
needs_nobody _ = false

abbrev pub instant_or : Time → Option Time → Time
instant_or old none = old
instant_or old (some t) = t

abbrev pub output_text : Option Text → Text
output_text none = []
output_text (some s) = s

-- The assignments between the answer and the last job.
unfoldable pub with_execution : Time → ExecutionOutput → Workflow → Workflow
with_execution now out wf =
    let new = sfn_status_to_workflow_status out.status in
    record wf {
      last_updated = now;
      status = new;
      status_reason =
          if is_timed_out out.status then status_reason_workflow_timed_out else wf.status_reason;
      stopped_at = instant_or wf.stopped_at out.stop_date;
      resolved_by_user = if needs_nobody new then true else wf.resolved_by_user;
    }

module _ (now : Time) (history : Text → Result Error (List HistoryEvent)) where
  -- A failed workflow has its last job.
  unfoldable pub with_last_job : Text → Workflow → Result Error Workflow
  with_last_job arn wf =
      if is_failed wf.status
      then (history arn >>= λ events. update_workflow_last_job wf events)
      else ok wf

  -- The workflow as the answer makes it; `none` where nothing is to be saved.
  unfoldable pub summarized :
      Text → Workflow → Answer ExecutionOutput → Result Error (Option Workflow)
  unfolding with_execution with_last_job is_zombie
  summarized arn wf (Answer.failed e) = err e
  summarized arn wf Answer.other_state =
      if is_zombie now wf
      then ok (some (record wf { last_updated = now; status = WorkflowStatus.failed }))
      else ok none
  summarized arn wf (Answer.found out) =
      with_last_job arn (with_execution now out wf) >>= λ with_job.
      ok (some (record with_job { output = output_text out.output }))

-- The workflow is saved where it was changed.
abbrev pub saved :
    {Store : Type 0}
    → (Workflow → Store → Result Error Store)
    → Workflow
    → Store
    → Option Workflow
    → Result Error (Workflow × Store)
saved update wf s none = ok (wf, s)
saved update wf s (some wf') = update wf' s >>= λ s'. ok (wf', s')

module _ (Store : Type 0) (region account_id : Text) (now : Time)
    (update_workflow : Workflow → Store → Result Error Store)
    (describe : Text → Answer ExecutionOutput)
    (history : Text → Result Error (List HistoryEvent)) where
  unfoldable pub update_workflow_summary : Workflow → Store → Result Error (Workflow × Store)
  unfolding summarized
  update_workflow_summary wf s =
      let arn = execution_arn_of Store region account_id update_workflow wf in
      if workflow_is_done wf
      then ok (wf, s)
      else (summarized now history arn wf (describe arn) >>= λ changed.
          saved update_workflow wf s changed)
