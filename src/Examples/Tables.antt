-- ===== src/Examples/Tables.antt =====
-- A table of workflows that evaluates updates and conditions, and the consumer on it; the service of
-- executions answers with an empty history.
use workflow_manager.Common.{
  Text, Text-discrete, pos, true, false, List, [], ◌∷◌, Option, none, some, Bool-cases, inl, inr,
  Result, ok, if◌then◌else◌, if_pos, if_neg, ◌≡◌, ◌≢◌, refl, sym, ap, ◌∙◌, arith,
}
use workflow_manager.Common.Maps.{Map, get, put, get-put, delete}
use workflow_manager.Common.Strings.{codes}
use workflow_manager.Models.{Workflow, WorkflowStatus, Error}
use workflow_manager.Examples.Histories.{a_workflow}
use workflow_manager.Store.{Attributes, no_attributes, apply_attributes, leaves_terminal}
use workflow_manager.Store.Dynamo.{
  WorkflowItem, Condition, SetClause, Written, Workflows, get_workflow_by_id,
  update_workflow_attributes,
}
use workflow_manager.Store.Dynamo.Clauses.{apply_clauses, holds, UpdatesItems}
use workflow_manager.Store.Dynamo.Refines.{as_result, get-update_workflow_attributes_dynamo}
use workflow_manager.WfUpdater.Events
use workflow_manager.Consumer.{LoggedEvent}
use workflow_manager.Consumer.Records.{LogsData}

abbrev Items : Type 0
Items = Map Text WorkflowItem

abbrev failure : Error
failure = Error.external (codes "ValidationException")

abbrev changed : Text → List SetClause → Condition → Items → Option WorkflowItem → Written × Items
changed id cs c w none = (Written.failed failure, w)
changed id cs c w (some item) =
    if holds c item.workflow
    then (
      Written.done,
      put Text-discrete id (record item { workflow = apply_clauses cs item.workflow }) w,
    )
    else (Written.condition_failed, w)

abbrev items : Workflows Items
items = record {
  table = record {
    get_item = λ id w. ok (get Text-discrete id w);
    put_item = λ item c w. (Written.done, put Text-discrete item.id item w);
    delete_item = λ id c w. (Written.done, delete Text-discrete id w);
  };
  update_item = λ id cs c w. changed id cs c w (get Text-discrete id w);
}

changed-done :
    (id : Text) (cs : List SetClause) (c : Condition) (w w' : Items) (found : Option WorkflowItem)
    → changed id cs c w found ≡ (Written.done, w')
    → (item : WorkflowItem) × (found ≡ some item)
      × (holds c item.workflow ≡ true)
      × (put Text-discrete id (record item { workflow = apply_clauses cs item.workflow }) w ≡ w')
changed-done id cs c w w' none h = let other = ap (λ r. r.0) h in cc
changed-done id cs c w w' (some item) h = elim (Bool-cases (holds c item.workflow)) [
  | inl held ↦ (item, refl, held, ap (λ r. r.1) (rw held at h))
  | inr not_ ↦ let other = ap (λ r. r.0) (rw not_ at h) in cc
]

items-UpdatesItems : UpdatesItems items
items-UpdatesItems = record {
  updates = λ id cs c w w' h.
      let (item, found, held, after) = changed-done id cs c w w' (get Text-discrete id w) h in
      (
        item,
        ap ok found,
        held,
        ap (λ v. ok (get Text-discrete id v)) (sym after)
            ∙ ap ok (get-put Text-discrete id id _ w ∙ if_pos (Text-discrete id id) refl _ _),
      );
  others = λ id other cs c w w' h ne.
      let (item, found, held, after) = changed-done id cs c w w' (get Text-discrete id w) h in
      ap (λ v. ok (get Text-discrete other v)) (sym after)
      ∙ ap ok (get-put Text-discrete id other _ w ∙ if_neg (Text-discrete id other) ne _ _);
}

abbrev item_of : Workflow → WorkflowItem
item_of wf = record {
  id = wf.id;
  workflow_definition_name = codes "def";
  created_at = wf.created_at;
  ttl = pos 0;
  workflow = wf;
}

abbrev failed_workflow : Workflow
failed_workflow = a_workflow (codes "w") WorkflowStatus.failed

abbrev one_item : Items
one_item = (codes "w", item_of failed_workflow) ∷ []

abbrev with_output : Attributes
with_output = record no_attributes { output = some (codes "out") }

abbrev one_changed : Items
one_changed = (codes "w", item_of (record failed_workflow { output = codes "out" })) ∷ []

was_changed :
    as_result items items-UpdatesItems
      (update_workflow_attributes items (codes "w") with_output one_item)
    ≡ ok one_changed
unfolding update_workflow_attributes get Text-discrete put
was_changed = refl

w-ne-x : ◌≢◌ {A = Text} (codes "w") (codes "x")
w-ne-x e = ground arith

get-update_workflow_attributes_dynamo_example :
    (wf : Workflow) × (get_workflow_by_id items (codes "w") one_item ≡ ok wf)
    × (leaves_terminal with_output.status wf.status ≡ false)
    × (get_workflow_by_id items (codes "w") one_changed ≡ ok (apply_attributes with_output wf))
    × (get_workflow_by_id items (codes "x") one_changed
        ≡ get_workflow_by_id items (codes "x") one_item)
get-update_workflow_attributes_dynamo_example =
    get-update_workflow_attributes_dynamo items items-UpdatesItems (codes "w") (codes "x")
      with_output one_item one_changed was_changed w-ne-x

abbrev no_history : Text → Result Error (List Events.HistoryEvent)
no_history arn = ok []

abbrev unzip : Text → Option Text
unzip data_ = some data_

abbrev decode_logs : Text → Option LogsData
decode_logs data_ =
    some (record { log_stream = codes "states/machine"; messages = data_ ∷ data_ ∷ [] })

-- The second event of the execution.
abbrev decode_event : Text → Option LoggedEvent
decode_event message = some (record {
  execution_arn = codes "execution:machine:w";
  id = codes "2";
  type = codes "TaskStateEntered";
  output = none;
  timestamp = codes "12";
})

abbrev zipped : Text
zipped = 0x1f ∷ 0x8b ∷ []
