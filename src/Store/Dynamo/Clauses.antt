-- ===== src/Store/Dynamo/Clauses.antt =====
-- store/dynamodb/dynamodb_store.go: what the update and the condition of `UpdateWorkflowAttributes`
-- do to a workflow, on a service that evaluates its expressions as documented.
use workflow_manager.Common.{
  Text, Bool, true, false, not, List, [], ◌∷◌, Option, none, some, ok, ◌≡◌, ◌≢◌, refl, arith, ite,
  ◌&&◌,
}
use workflow_manager.Models.{Time, Job, Workflow, WorkflowStatus, WorkflowStatus-discrete}
use workflow_manager.Store.{
  Attributes, terminal_state, apply_attributes, leaves_terminal, updated, updated_last_job,
}
use workflow_manager.Store.Dynamo.{
  WorkflowItem, Condition, SetClause, Written, Workflows, set_if, update_clauses, update_condition,
  not_terminal_state_condition,
}

-- What a clause makes of the workflow of an item.
abbrev pub apply_clause : SetClause → Workflow → Workflow
apply_clause (SetClause.last_updated t) wf = record wf { last_updated = t }
apply_clause (SetClause.stopped_at t) wf = record wf { stopped_at = t }
apply_clause (SetClause.status s) wf = record wf { status = s }
apply_clause (SetClause.status_reason r) wf = record wf { status_reason = r }
apply_clause (SetClause.output o) wf = record wf { output = o }
apply_clause (SetClause.resolved_by_user b) wf = record wf { resolved_by_user = b }
apply_clause (SetClause.last_job j) wf = record wf { last_job = some j }

abbrev pub apply_clauses : List SetClause → Workflow → Workflow
apply_clauses [] wf = wf
apply_clauses (c ∷ cs) wf = apply_clauses cs (apply_clause c wf)

-- A condition on an item that is there.
abbrev pub holds : Condition → Workflow → Bool
holds Condition.always wf = true
holds Condition.present wf = true
holds Condition.absent wf = false
holds (Condition.status_not_equal status) wf =
    not (ite (WorkflowStatus-discrete wf.status status) true false)
holds (Condition.both c d) wf = holds c wf && holds d wf

-- A service of which an update that succeeds was of an item that is there and that met the condition,
-- changed it as the clauses say, and changed no other item. An update may also fail, for any reason.
pub record UpdatesItems {World : Type 0} (workflows : Workflows World) : Type 0 where
  pub updates :
      (id : Text) (cs : List SetClause) (c : Condition) (w w' : World)
      → workflows.update_item id cs c w ≡ (Written.done, w')
      → (item : WorkflowItem) × (workflows.table.get_item id w ≡ ok (some item))
        × (holds c item.workflow ≡ true)
        × (workflows.table.get_item id w'
            ≡ ok (some (record item { workflow = apply_clauses cs item.workflow })))
  pub others :
      (id other : Text) (cs : List SetClause) (c : Condition) (w w' : World)
      → workflows.update_item id cs c w ≡ (Written.done, w')
      → id ≢ other
      → workflows.table.get_item other w' ≡ workflows.table.get_item other w

abbrev pub apply_if {ℓ} : {A : Type ℓ} → (A → SetClause) → Option A → Workflow → Workflow
apply_if set none wf = wf
apply_if set (some a) wf = apply_clause (set a) wf

pub apply-set_if {ℓ} :
    {A : Type ℓ} (set : A → SetClause) (o : Option A) (rest : List SetClause) (wf : Workflow)
    → apply_clauses (set_if set o rest) wf ≡ apply_clauses rest (apply_if set o wf)
apply-set_if set none rest wf = refl
apply-set_if set (some a) rest wf = refl

pub apply_if-last_updated :
    (o : Option Time) (wf : Workflow)
    → apply_if SetClause.last_updated o wf ≡ record wf { last_updated = updated o wf.last_updated }
apply_if-last_updated none wf = refl
apply_if-last_updated (some a) wf = refl

pub apply_if-status :
    (o : Option WorkflowStatus) (wf : Workflow)
    → apply_if SetClause.status o wf ≡ record wf { status = updated o wf.status }
apply_if-status none wf = refl
apply_if-status (some a) wf = refl

pub apply_if-status_reason :
    (o : Option Text) (wf : Workflow)
    → apply_if SetClause.status_reason o wf
      ≡ record wf { status_reason = updated o wf.status_reason }
apply_if-status_reason none wf = refl
apply_if-status_reason (some a) wf = refl

pub apply_if-stopped_at :
    (o : Option Time) (wf : Workflow)
    → apply_if SetClause.stopped_at o wf ≡ record wf { stopped_at = updated o wf.stopped_at }
apply_if-stopped_at none wf = refl
apply_if-stopped_at (some a) wf = refl

pub apply_if-resolved_by_user :
    (o : Option Bool) (wf : Workflow)
    → apply_if SetClause.resolved_by_user o wf
      ≡ record wf { resolved_by_user = updated o wf.resolved_by_user }
apply_if-resolved_by_user none wf = refl
apply_if-resolved_by_user (some a) wf = refl

pub apply_if-output :
    (o : Option Text) (wf : Workflow)
    → apply_if SetClause.output o wf ≡ record wf { output = updated o wf.output }
apply_if-output none wf = refl
apply_if-output (some a) wf = refl

pub apply_if-last_job :
    (o : Option Job) (wf : Workflow)
    → apply_if SetClause.last_job o wf ≡ record wf { last_job = updated_last_job o wf.last_job }
apply_if-last_job none wf = refl
apply_if-last_job (some a) wf = refl

-- The clauses of an update do to a workflow what the update says.
pub apply-update_clauses :
    (u : Attributes) (wf : Workflow) → apply_clauses (update_clauses u) wf ≡ apply_attributes u wf
unfolding update_clauses apply_attributes
apply-update_clauses u wf =
    rw
      (
        apply-set_if, apply-set_if, apply-set_if, apply-set_if, apply-set_if, apply-set_if,
        apply-set_if,
      )
      rw
      (
        apply_if-last_updated, apply_if-status, apply_if-status_reason, apply_if-stopped_at,
        apply_if-resolved_by_user, apply_if-output, apply_if-last_job,
      )
      refl

-- The condition that the code builds holds of the workflows whose status is not terminal.
not_terminal-holds :
    (wf : Workflow) → holds not_terminal_state_condition wf ≡ not (terminal_state wf.status)
unfolding not_terminal_state_condition terminal_state
not_terminal-holds wf = ground arith

pub condition-leaves :
    (new : Option WorkflowStatus) (wf : Workflow)
    → holds (update_condition new) wf ≡ not (leaves_terminal new wf.status)
unfolding update_condition leaves_terminal
condition-leaves new wf = ground (arith, not_terminal-holds wf)
