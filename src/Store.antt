-- ===== src/Store.antt =====
-- store/store.go: the update of a workflow's attributes, the terminal states, and what a client
-- may rely on when it updates workflows through the interface `Store`.
pub mod Memory
pub mod Dynamo
use workflow_manager.Common.{
  Text, Bool, true, false, List, [], ◌∷◌, Option, none, some, Result, ok, ◌≡◌, ◌≢◌, ◌&&◌, is_some,
  not,
}
use workflow_manager.Models.{Time, Job, Workflow, WorkflowStatus, Error}

-- `UpdateWorkflowAttributesInput`: a field that is not `none` is an attribute to update.
pub record Attributes : Type 0 where
  pub last_updated : Option Time
  pub status : Option WorkflowStatus
  pub status_reason : Option Text
  pub stopped_at : Option Time
  pub resolved_by_user : Option Bool
  pub output : Option Text
  pub last_job : Option Job

abbrev pub no_attributes : Attributes
no_attributes = record {
  last_updated = none;
  status = none;
  status_reason = none;
  stopped_at = none;
  resolved_by_user = none;
  output = none;
  last_job = none;
}

-- The last job is not looked at.
unfoldable pub zero_value : Attributes → Bool
zero_value u =
    not (is_some u.last_updated)
    && not (is_some u.status)
    && not (is_some u.status_reason)
    && not (is_some u.stopped_at)
    && not (is_some u.resolved_by_user)
    && not (is_some u.output)

-- `TerminalStates`
unfoldable pub terminal_states : List WorkflowStatus
terminal_states = WorkflowStatus.succeeded ∷ WorkflowStatus.failed ∷ WorkflowStatus.cancelled ∷ []

unfoldable pub terminal_state : WorkflowStatus → Bool
terminal_state WorkflowStatus.succeeded = true
terminal_state WorkflowStatus.failed = true
terminal_state WorkflowStatus.cancelled = true
terminal_state WorkflowStatus.queued = false
terminal_state WorkflowStatus.running = false
terminal_state (WorkflowStatus.other s) = false

-- The new value of an attribute.
abbrev pub updated {ℓ} : {A : Type ℓ} → Option A → A → A
updated none old = old
updated (some new) old = new

abbrev pub updated_last_job : Option Job → Option Job → Option Job
updated_last_job none old = old
updated_last_job (some new) old = some new

-- The workflow with the attributes of the update.
unfoldable pub apply_attributes : Attributes → Workflow → Workflow
apply_attributes u wf = record wf {
  last_updated = updated u.last_updated wf.last_updated;
  status = updated u.status wf.status;
  status_reason = updated u.status_reason wf.status_reason;
  stopped_at = updated u.stopped_at wf.stopped_at;
  resolved_by_user = updated u.resolved_by_user wf.resolved_by_user;
  output = updated u.output wf.output;
  last_job = updated_last_job u.last_job wf.last_job;
}

-- An update that would take a workflow from a terminal status to one that is not.
unfoldable pub leaves_terminal : Option WorkflowStatus → WorkflowStatus → Bool
leaves_terminal none old = false
leaves_terminal (some new) old = terminal_state old && not (terminal_state new)

-- The part of the interface `Store` that updates workflows one at a time, over a type of states.
pub record WorkflowStore : Type 1 where
  pub State : Type 0
  pub get_workflow_by_id : Text → State → Result Error Workflow
  pub update_workflow_attributes : Text → Attributes → State → Result Error State
  -- An update that succeeds was of a workflow that is there, and did what it says.
  pub get-update :
      (id : Text) (u : Attributes) (s s' : State)
      → update_workflow_attributes id u s ≡ ok s'
      → (wf : Workflow) × (get_workflow_by_id id s ≡ ok wf)
        × (leaves_terminal u.status wf.status ≡ false)
        × (get_workflow_by_id id s' ≡ ok (apply_attributes u wf))
  pub get-update_ne :
      (id other : Text) (u : Attributes) (s s' : State)
      → update_workflow_attributes id u s ≡ ok s'
      → id ≢ other
      → get_workflow_by_id other s' ≡ get_workflow_by_id other s

-- A store whose updates do not fail, such as the one in memory: an update of a workflow that is there succeeds, unless it is empty
-- or would leave a terminal status, and then the error says so; it need not know the old status.
pub record AcceptsUpdates (S : WorkflowStore) : Type 0 where
  pub update_defined :
      (id : Text) (u : Attributes) (s : S.State) (wf : Workflow)
      → zero_value u ≡ false
      → S.get_workflow_by_id id s ≡ ok wf
      → leaves_terminal u.status wf.status ≡ false
      → (s' : S.State) × (S.update_workflow_attributes id u s ≡ ok s')
  pub update_refused :
      (id : Text) (u : Attributes) (s : S.State) (wf : Workflow) (new : WorkflowStatus)
      → S.get_workflow_by_id id s ≡ ok wf
      → u.status ≡ some new
      → leaves_terminal u.status wf.status ≡ true
      → (old : WorkflowStatus) × (S.update_workflow_attributes id u s
          ≡ Result.err (Error.terminal_to_non_terminal old new))
