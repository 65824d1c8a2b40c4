-- ===== src/Store/Dynamo.antt =====
-- store/dynamodb/: the store in DynamoDB. The service is a parameter: its operations on a state of any
-- kind, on tables of typed items. An item is the struct that is written; that the encoding of
-- `dynamodbattribute` gives it back is taken for granted. The clock and fresh identifiers are
-- arguments.
pub mod Definitions
pub mod Clauses
pub mod Refines
use workflow_manager.Common.{
  ℕ, Text, ℤ, pos, Bool, true, false, ◌&&◌, not, List, [], ◌∷◌, ◌++◌, Option, none, some, Result,
  ok, err, panic, out_of_fuel, if◌then◌else◌, is_some, ◌>>=◌ as ◌>>>◌,
}
use workflow_manager.Common.Run.{Run, pure, fail, lift, ◌>>=◌}
use workflow_manager.Common.Int.{◌+ℤ◌}
use workflow_manager.Common.Strings.{codes}
use workflow_manager.Models.{Time, Job, Workflow, WorkflowStatus, StateResource, Error}
use workflow_manager.Store.{Attributes, terminal_state, terminal_states}

-- 30 days, in nanoseconds.
abbrev pub workflow_ttl : ℤ
workflow_ttl = pos 2_592_000_000_000_000

-- `ddbWorkflow`: the key, the keys of the index, the time to live, and the workflow.
pub record WorkflowItem : Type 0 where
  pub id : Text
  pub workflow_definition_name : Text
  pub created_at : Time
  pub ttl : Time
  pub workflow : Workflow

unfoldable pub encode_workflow : Workflow → WorkflowItem
encode_workflow wf = record {
  id = wf.id;
  workflow_definition_name = wf.workflow_definition.name;
  created_at = wf.created_at;
  ttl = wf.created_at +ℤ workflow_ttl;
  workflow = wf;
}

-- The condition expressions of the store: none, on the key, and on `Workflow.status`.
pub data Condition : Type 0 where
  always absent present : Condition
  status_not_equal : WorkflowStatus → Condition
  both : Condition → Condition → Condition

-- The clauses of an update expression.
pub data SetClause : Type 0 where
  last_updated stopped_at : Time → SetClause
  status : WorkflowStatus → SetClause
  status_reason output : Text → SetClause
  resolved_by_user : Bool → SetClause
  last_job : Job → SetClause

-- The error codes that the store tells apart; `too_large` is a `ValidationException` with the message
-- that the item is too large.
pub data Written : Type 0 where
  done condition_failed too_large : Written
  failed : Error → Written

pub record Table (World Key Item : Type 0) : Type 0 where
  pub get_item : Key → World → Result Error (Option Item)
  pub put_item : Item → Condition → World → Written × World
  pub delete_item : Key → Condition → World → Written × World

pub record Workflows (World : Type 0) : Type 0 where
  pub table : Table World Text WorkflowItem
  pub update_item : Text → List SetClause → Condition → World → Written × World

-- What a method returns of a write: nothing, or the error of a condition that failed.
abbrev pub outcome : {World : Type 0} → Error → Written × World → Result Error (Unit {0}) × World
outcome on_condition (Written.done, w) = (ok tt, w)
outcome on_condition (Written.condition_failed, w) = (err on_condition, w)
outcome on_condition (Written.too_large, w) =
    (err (Error.external (codes "ValidationException")), w)
outcome on_condition (Written.failed e, w) = (err e, w)

abbrev pub set_if {ℓ} : {A : Type ℓ} → (A → SetClause) → Option A → List SetClause → List SetClause
set_if set none rest = rest
set_if set (some a) rest = set a ∷ rest

-- The clauses, in the order in which the code adds them.
unfoldable pub update_clauses : Attributes → List SetClause
update_clauses u = set_if SetClause.last_updated u.last_updated (
    set_if SetClause.status u.status (
      set_if SetClause.status_reason u.status_reason (
        set_if SetClause.stopped_at u.stopped_at (
          set_if SetClause.resolved_by_user u.resolved_by_user
            (set_if SetClause.output u.output (set_if SetClause.last_job u.last_job []))))))

-- The condition, and that the status is none of the list.
unfoldable pub and_others : Condition → List WorkflowStatus → Condition
and_others condition [] = condition
and_others condition (state ∷ states) =
    and_others (Condition.both condition (Condition.status_not_equal state)) states

-- A list that is empty has no first state, and the code panics; the list of terminal states is not.
unfoldable pub none_of : List WorkflowStatus → Option Condition
unfolding and_others
none_of [] = none
none_of (state ∷ states) = some (and_others (Condition.status_not_equal state) states)

unfoldable pub not_terminal_state_condition : Condition
unfolding none_of terminal_states
not_terminal_state_condition = elim (none_of terminal_states) [
  | none ↦ Condition.always
  | some condition ↦ condition
]

-- An update to a status that is not terminal must not meet a terminal one.
unfoldable pub update_condition : Option WorkflowStatus → Condition
unfolding not_terminal_state_condition
update_condition none = Condition.always
update_condition (some new) =
    if terminal_state new then Condition.always else not_terminal_state_condition

-- Only the new status stands in the error.
abbrev pub refused : Option WorkflowStatus → Result Error (Unit {0})
refused none = panic
refused (some new) = err (Error.terminal_to_non_terminal (WorkflowStatus.other []) new)

abbrev pub update_outcome :
    {World : Type 0} → Option WorkflowStatus → Written × World → Result Error (Unit {0}) × World
update_outcome new (Written.done, w) = (ok tt, w)
update_outcome new (Written.condition_failed, w) = (refused new, w)
update_outcome new (Written.too_large, w) = (err (Error.external (codes "ValidationException")), w)
update_outcome new (Written.failed e, w) = (err e, w)

module _ {World : Type 0} (workflows : Workflows World) where
  unfoldable pub save_workflow : Time → Workflow → Run World Error (Unit {0})
  unfolding encode_workflow
  save_workflow now wf w = outcome (Error.already_exists wf.id) (
      workflows.table.put_item
        (encode_workflow (record wf { created_at = now; last_updated = now })) Condition.absent w)

  -- An item that is too large is written once more without its jobs, if it had any.
  abbrev pub without_jobs :
      Time → Workflow → Option (List Job) → Written × World → Result Error (Unit {0}) × World
  without_jobs later wf (some jobs) (Written.too_large, w) = outcome (Error.not_found wf.id) (
      workflows.table.put_item (encode_workflow (record wf { jobs = none; last_updated = later }))
        Condition.present w)
  without_jobs later wf jobs r = outcome (Error.not_found wf.id) r

  -- The instants are those of the first and of the second attempt.
  unfoldable pub update_workflow : Time → Time → Workflow → Run World Error (Unit {0})
  unfolding encode_workflow
  update_workflow now later wf w = without_jobs later wf wf.jobs (
      workflows.table.put_item (encode_workflow (record wf { last_updated = now }))
        Condition.present w)

  unfoldable pub delete_workflow_by_id : Text → Run World Error (Unit {0})
  delete_workflow_by_id id w =
      outcome (Error.not_found id) (workflows.table.delete_item id Condition.present w)

  unfoldable pub get_workflow_by_id : Text → World → Result Error Workflow
  get_workflow_by_id id w = workflows.table.get_item id w >>> λ found. elim found [
    | none ↦ err (Error.not_found id)
    | some item ↦ ok item.workflow
  ]

  -- An expression without a clause cannot be built.
  unfoldable pub send_update :
      Text → Option WorkflowStatus → List SetClause → Run World Error (Unit {0})
  send_update id new [] w =
      (err (Error.external (codes "no updates provided to UpdateWorkflowAttributes")), w)
  send_update id new (clause ∷ clauses) w =
      update_outcome new (workflows.update_item id (clause ∷ clauses) (update_condition new) w)

  unfoldable pub update_workflow_attributes : Text → Attributes → Run World Error (Unit {0})
  unfolding update_clauses update_condition send_update
  update_workflow_attributes id u = send_update id u.status (update_clauses u)

-- state_resource.go: the key of a state resource.
pub record StateResourceKey : Type 0 where
  pub name : Text
  pub namespace : Text

module _ {World : Type 0} (resources : Table World StateResourceKey StateResource) where
  unfoldable pub save_state_resource : StateResource → Run World Error (Unit {0})
  save_state_resource res w =
      outcome (Error.external (codes "ConditionalCheckFailedException"))
        (resources.put_item res Condition.always w)

  unfoldable pub get_state_resource : Text → Text → World → Result Error StateResource
  get_state_resource name namespace w =
      resources.get_item (record { name = name; namespace = namespace }) w >>> λ found. elim found [
        | none ↦ err (Error.not_found (namespace ++ codes "--" ++ name))
        | some res ↦ ok res
      ]

  unfoldable pub delete_state_resource : Text → Text → Run World Error (Unit {0})
  delete_state_resource name namespace w =
      outcome (Error.not_found (codes "name: " ++ name ++ codes ", namespace: " ++ namespace))
        (resources.delete_item (record { name = name; namespace = namespace }) Condition.present w)
