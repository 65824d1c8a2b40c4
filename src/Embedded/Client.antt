-- ===== src/Embedded/Client.antt =====
-- embedded/embedded.go: the operations of the client on workflows. `json.MarshalIndent` of a state
-- machine and the tests that a text is the JSON of a state machine, or of any value, are parameters,
-- and so are the clock and fresh identifiers. The pause after an update of a state machine is left
-- out.
pub mod Started
use workflow_manager.Common.{
  ℕ, suc, Text, ◌=?◌, ℤ, pos, negsuc, Bool, true, false, not, List, [], ◌∷◌, ◌++◌, Option, none,
  some, Result, ok, err, panic, if◌then◌else◌, is_some, map, set, zero, ◌>>=◌ as ◌>>>◌,
}
use workflow_manager.Common.Run.{Run, pure, fail, lift, ◌>>=◌, ◌>>◌}
use workflow_manager.Common.Int.{ltb_ℤ}
use workflow_manager.Common.Maps.{Map}
use workflow_manager.Common.Strings.{codes}
use workflow_manager.Models.{
  Value, Time, zero_time, Workflow, workflow_of, WorkflowDefinition, WorkflowStatus, StateMachine,
  MachinePtr, Error,
}
use workflow_manager.Resources.Status.{sfn_status_to_workflow_status}
use workflow_manager.Executor.Conventions.{
  state_machine_name, state_machine_name_parts, state_machine_arn, state_machine_tags,
  execution_arn,
}
use workflow_manager.Executor.Workflows.{start_of}
use workflow_manager.Executor.Service.{
  StepFunctions, StateMachineOutput, ExecutionOutput, StartExecutionInput, Answer, to_tag_map,
}
use workflow_manager.Embedded.Validation.{
  named, validate_workflow_definition, set_state_machine_resources,
}
use workflow_manager.Embedded.Ids.{WorkflowIdParts, workflow_id, parse_workflow_id}

-- The functions of `resources` are called by the poller only; here their names count.
pub record Embedded : Type 0 where
  pub environment : Text
  pub app : Text
  pub sfn_account_id : Text
  pub sfn_region : Text
  pub sfn_role_arn : Text
  pub known_resource : Text → Bool
  pub workflow_definitions : List WorkflowDefinition

-- `StartWorkflowRequest`, with the name of the definition it refers to; `none` is a nil pointer.
pub record StartRequest : Type 0 where
  pub id_suffix : Text
  pub input : Text
  pub namespace : Text
  pub queue : Text
  pub tags : Option (Map Text Value)
  pub definition_name : Option Text

-- `GetWorkflowsInput`; `none` is a nil pointer.
pub record GetWorkflowsInput : Type 0 where
  pub limit : Option ℤ
  pub oldest_first : Option Bool
  pub page_token : Option Text
  pub status : Option Text
  pub resolved_by_user : Option Bool
  pub summary_only : Option Bool
  pub workflow_definition_name : Text

-- `GetWorkflowDefinitionByNameAndVersion`: the first definition of the name, whatever the version.
unfoldable pub find_definition : Text → List WorkflowDefinition → Option WorkflowDefinition
find_definition name [] = none
find_definition name (def ∷ defs) = if def.name =? name then some def else find_definition name defs

unfoldable pub definition_by_name : Embedded → Text → Result Error WorkflowDefinition
unfolding find_definition
definition_by_name e name = elim (find_definition name e.workflow_definitions) [
  | none ↦ err (Error.not_found [])
  | some def ↦ ok def
]

-- A nil reference is dereferenced.
abbrev pub requested_definition : Embedded → StartRequest → Result Error WorkflowDefinition
requested_definition e i = elim i.definition_name [
  | none ↦ panic
  | some name ↦ definition_by_name e name
]

-- The complaints that `multierror` collects.
abbrev pub complaint : Bool → Text → List Text → List Text
complaint true message rest = message ∷ rest
complaint false message rest = rest

unfoldable pub not_supported : GetWorkflowsInput → List Text
not_supported i = complaint (is_some i.limit) (codes "Limit not supported") (
    complaint (is_some i.oldest_first) (codes "OldestFirst not supported") (
      complaint (is_some i.page_token) (codes "PageToken not supported") (
        complaint (is_some i.status) (codes "Status not supported") (
          complaint (is_some i.resolved_by_user) (codes "ResolvedByUser not supported")
            (complaint (is_some i.summary_only) (codes "SummaryOnly not supported") [])))))

abbrev pub no_complaint : List Text → Result Error (Unit {0})
no_complaint [] = ok tt
no_complaint (message ∷ rest) = err (Error.several (message ∷ rest))

abbrev pub time_value : Option Time → Time
time_value none = zero_time
time_value (some t) = t

abbrev pub string_value : Option Text → Text
string_value none = []
string_value (some s) = s

-- The answer of a service that was only read.
abbrev pub answered : {W A : Type 0} → Error → Answer A → Run W Error A
answered missing (Answer.found a) = pure a
answered missing Answer.other_state = fail missing
answered missing (Answer.failed e) = fail e

abbrev pub listed : WorkflowDefinition → ExecutionOutput → Workflow
listed def e = record (workflow_of def) {
  id = e.name;
  created_at = time_value e.start_date;
  status = sfn_status_to_workflow_status e.status;
  stopped_at = time_value e.stop_date;
}

-- The namespace that a workflow is started in.
abbrev pub namespace_of : Embedded → StartRequest → Text
namespace_of e i = if i.namespace =? [] then e.environment else i.namespace

unfoldable pub start_complaints : Embedded → StartRequest → List Text
start_complaints e i =
    complaint (not (namespace_of e i =? e.environment)) (codes "namespace must match environment") (
      complaint (not (i.queue =? [])) (codes "queue not supported")
        (complaint (is_some i.tags) (codes "tags not supported") []))

-- The name of the state machine that a workflow of a definition runs on.
abbrev pub machine_of : Embedded → StartRequest → WorkflowDefinition → Text
machine_of e i def =
    state_machine_name def.name def.version (namespace_of e i) (start_of def.state_machine)

unfoldable pub queued_workflow :
    Text → Time → Embedded → StartRequest → WorkflowDefinition → Workflow
queued_workflow short_uuid now e i def = record (workflow_of def) {
  id = workflow_id short_uuid (machine_of e i def) i.id_suffix;
  created_at = now;
  last_updated = now;
  status = WorkflowStatus.queued;
  namespace = namespace_of e i;
  input = i.input;
}

abbrev pub execution_input :
    Embedded → StartRequest → WorkflowDefinition → Text → StartExecutionInput
execution_input e i def id = record {
  state_machine_arn =
      state_machine_arn e.sfn_region e.sfn_account_id def.name def.version (namespace_of e i)
        (start_of def.state_machine);
  input = i.input;
  name = id;
}

-- A definition of version -1 may change.
abbrev pub mutable : ℤ → Bool
mutable (negsuc zero) = true
mutable (negsuc (suc n)) = false
mutable (pos n) = false

module _ {World : Type 0} (sfn : StepFunctions World) where
  unfoldable pub get_workflows : Embedded → GetWorkflowsInput → Run World Error (List Workflow)
  get_workflows e i w =
      (lift (no_complaint (not_supported i)) >>= λ _.
      lift (definition_by_name e i.workflow_definition_name) >>= λ def.
      answered (Error.external (codes "StateMachineDoesNotExist")) (
        sfn.list_executions
          (state_machine_arn e.sfn_region e.sfn_account_id def.name def.version e.environment
            (start_of def.state_machine))
          w)
      >>= λ executions. pure (map (listed def) executions))
        w

  unfoldable pub cancel_workflow : Embedded → Text → Text → Run World Error (Unit {0})
  cancel_workflow e wid reason = lift (parse_workflow_id wid) >>= λ parts.
      sfn.stop_execution (execution_arn e.sfn_region e.sfn_account_id parts.sm_name wid) reason

  unfoldable pub get_workflow_by_id : Time → Embedded → Text → Run World Error Workflow
  get_workflow_by_id now e wid w =
      (lift (parse_workflow_id wid) >>= λ parts.
      lift (state_machine_name_parts parts.sm_name) >>= λ names.
      lift (definition_by_name e names.wd_name) >>= λ def.
      answered (Error.external (codes "ExecutionDoesNotExist"))
        (sfn.describe_execution (execution_arn e.sfn_region e.sfn_account_id parts.sm_name wid) w)
      >>= λ out. pure (record (workflow_of def) {
        output = string_value out.output;
        id = wid;
        created_at = time_value out.start_date;
        last_updated = now;
        status = sfn_status_to_workflow_status out.status;
        namespace = names.namespace;
        input = string_value out.input;
      }))
        w

  module _ (marshal : StateMachine → Text) (is_machine is_json : Text → Bool) where
    -- The state machine is made, changed where its definition is mutable, or else must be the same.
    unfoldable pub find_or_change :
        Embedded
        → WorkflowDefinition
        → Text
        → Text
        → Answer StateMachineOutput
        → Run World Error (Unit {0})
    find_or_change e def namespace definition Answer.other_state =
        sfn.create_state_machine (record {
          name = state_machine_name def.name def.version namespace (start_of def.state_machine);
          definition = definition;
          role_arn = e.sfn_role_arn;
          logging_configuration = none;
          tags =
              state_machine_tags namespace def.name def.version (start_of def.state_machine)
                (to_tag_map def.default_tags);
        })
    find_or_change e def namespace definition (Answer.failed error) = fail error
    find_or_change e def namespace definition (Answer.found out) =
        if mutable def.version
        then (sfn.update_state_machine (record {
          state_machine_arn = out.state_machine_arn;
          definition = some definition;
          role_arn = some e.sfn_role_arn;
          logging_configuration = none;
        })
            >> sfn.tag_resource out.state_machine_arn (
                state_machine_tags namespace def.name def.version (start_of def.state_machine)
                  (to_tag_map def.default_tags)))
        else if not (is_machine out.definition)
        then fail (Error.external (codes "json unmarshal"))
        else if out.definition =? definition
        then pure tt
        else fail (Error.external (codes "existing state machine differs from new state machine"))

    unfoldable pub submit :
        Text → Time → Embedded → StartRequest → WorkflowDefinition → Run World Error Workflow
    unfolding queued_workflow
    submit short_uuid now e i def =
        if not (is_json i.input)
        then fail (Error.bad_request i.input)
        else (sfn.start_execution
              (execution_input e i def (queued_workflow short_uuid now e i def).id)
            >> pure (queued_workflow short_uuid now e i def))

    unfoldable pub start_workflow : Text → Time → Embedded → StartRequest → Run World Error Workflow
    start_workflow short_uuid now e i w =
        let namespace = namespace_of e i in
        (lift (no_complaint (start_complaints e i)) >>= λ _.
        lift (requested_definition e i) >>= λ def.
        lift (
          set_state_machine_resources e.sfn_region e.sfn_account_id namespace e.app
            def.state_machine)
        >>= λ machine.
            find_or_change e def namespace (marshal machine) (
              sfn.describe_state_machine
                (state_machine_arn e.sfn_region e.sfn_account_id def.name def.version namespace
                  (start_of def.state_machine))
                w)
            >> submit short_uuid now e i def)
          w
