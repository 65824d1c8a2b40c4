-- ===== src/Store/Dynamo/Refines.antt =====
-- store/dynamodb/dynamodb_store.go: the store in DynamoDB keeps what the interface promises of an
-- update of a workflow's attributes, on a service that evaluates its expressions as documented.
use workflow_manager.Common.{
  Text, true, false, List, [], ◌∷◌, Option, none, some, Option-cases, inl, inr, Result, ok, err,
  panic, out_of_fuel, ◌≡◌, ◌≢◌, refl, sym, ap, ◌∙◌, arith, >>=-eq-ok, ok-injective,
}
use workflow_manager.Models.{Workflow, WorkflowStatus, Error}
use workflow_manager.Store.{Attributes, WorkflowStore, apply_attributes, leaves_terminal}
use workflow_manager.Store.Dynamo.{
  WorkflowItem, SetClause, Written, Workflows, update_clauses, update_condition, update_outcome,
  send_update, get_workflow_by_id, update_workflow_attributes,
}
use workflow_manager.Store.Dynamo.Clauses.{
  holds, UpdatesItems, apply-update_clauses, condition-leaves,
}

module _ {World : Type 0} (workflows : Workflows World) (service : UpdatesItems workflows) where
  -- A run as the interface sees it: an error has no state.
  abbrev pub as_result : Result Error (Unit {0}) × World → Result Error World
  as_result (ok u, w) = ok w
  as_result (err e, w) = err e
  as_result (panic, w) = panic
  as_result (out_of_fuel, w) = out_of_fuel

  abbrev pub update_ : Text → Attributes → World → Result Error World
  update_ id u w = as_result (update_workflow_attributes workflows id u w)

  abbrev answer : Text → Option WorkflowItem → Result Error Workflow
  answer id found = elim found [ none ↦ err (Error.not_found id) | some item ↦ ok item.workflow ]

  found-item :
      (id : Text) (w : World) (wf : Workflow)
      → get_workflow_by_id workflows id w ≡ ok wf
      → (item : WorkflowItem) × (workflows.table.get_item id w ≡ ok (some item))
        × (item.workflow ≡ wf)
  unfolding get_workflow_by_id
  found-item id w wf h =
      let (found, got, last) = >>=-eq-ok (workflows.table.get_item id w) _ h in
      elim (Option-cases found) [
        | inl gone ↦ cc
        | inr (item, there) ↦
            (item, got ∙ ap ok there, ok-injective (ap (answer id) (sym there) ∙ last))
      ]

  item-found :
      (id : Text) (w : World) (item : WorkflowItem)
      → workflows.table.get_item id w ≡ ok (some item)
      → get_workflow_by_id workflows id w ≡ ok item.workflow
  unfolding get_workflow_by_id
  item-found id w item h = rw h refl

  sent-ok :
      (new : Option WorkflowStatus) (r : Written × World) (w' : World)
      → as_result (update_outcome new r) ≡ ok w'
      → r ≡ (Written.done, w')
  sent-ok new (Written.done, w) w' h = ap (λ x. (Written.done, x)) (ok-injective h)
  sent-ok none (Written.condition_failed, w) w' h = cc
  sent-ok (some new) (Written.condition_failed, w) w' h = cc
  sent-ok new (Written.too_large, w) w' h = cc
  sent-ok new (Written.failed e, w) w' h = cc

  clauses-ok :
      (id : Text) (new : Option WorkflowStatus) (cs : List SetClause) (w w' : World)
      → as_result (send_update workflows id new cs w) ≡ ok w'
      → workflows.update_item id cs (update_condition new) w ≡ (Written.done, w')
  unfolding send_update
  clauses-ok id new [] w w' h = cc
  clauses-ok id new (c ∷ cs) w w' h =
      sent-ok new (workflows.update_item id (c ∷ cs) (update_condition new) w) w' h

  stays :
      (new : Option WorkflowStatus) (wf : Workflow)
      → holds (update_condition new) wf ≡ true
      → leaves_terminal new wf.status ≡ false
  stays new wf h = ground (arith, condition-leaves new wf)

  -- The laws of the interface hold of the store in DynamoDB.
  pub get-update :
      (id : Text) (u : Attributes) (w w' : World)
      → update_ id u w ≡ ok w'
      → (wf : Workflow) × (get_workflow_by_id workflows id w ≡ ok wf)
        × (leaves_terminal u.status wf.status ≡ false)
        × (get_workflow_by_id workflows id w' ≡ ok (apply_attributes u wf))
  unfolding update_workflow_attributes
  get-update id u w w' h =
      let sent = clauses-ok id u.status (update_clauses u) w w' h in
      let (item, before, held, after) =
        service.updates id (update_clauses u) (update_condition u.status) w w' sent in
      (
        item.workflow,
        item-found id w item before,
        stays u.status item.workflow held,
        item-found id w' _ after ∙ ap ok (apply-update_clauses u item.workflow),
      )

  pub get-update_ne :
      (id other : Text) (u : Attributes) (w w' : World)
      → update_ id u w ≡ ok w'
      → id ≢ other
      → get_workflow_by_id workflows other w' ≡ get_workflow_by_id workflows other w
  unfolding update_workflow_attributes get_workflow_by_id
  get-update_ne id other u w w' h ne =
      let sent = clauses-ok id u.status (update_clauses u) w w' h in
      rw (service.others id other (update_clauses u) (update_condition u.status) w w' sent ne) refl

  abbrev pub dynamo_workflow_store : WorkflowStore
  dynamo_workflow_store = record {
    State = World;
    get_workflow_by_id = get_workflow_by_id workflows;
    update_workflow_attributes = update_;
    get-update = get-update;
    get-update_ne = get-update_ne;
  }

  -- An update of attributes in DynamoDB that succeeds was of a workflow that is there, did not take it
  -- out of a terminal status, and did what it says; and every other workflow is as before.
  pub get-update_workflow_attributes_dynamo :
      (id other : Text) (u : Attributes) (w w' : World)
      → as_result (update_workflow_attributes workflows id u w) ≡ ok w'
      → id ≢ other
      → (wf : Workflow) × (get_workflow_by_id workflows id w ≡ ok wf)
        × (leaves_terminal u.status wf.status ≡ false)
        × (get_workflow_by_id workflows id w' ≡ ok (apply_attributes u wf))
        × (get_workflow_by_id workflows other w' ≡ get_workflow_by_id workflows other w)
  get-update_workflow_attributes_dynamo id other u w w' h ne =
      let (wf, there, going, after) = get-update id u w w' h in
      (wf, there, going, after, get-update_ne id other u w w' h ne)
