-- ===== src/Examples/Requests.antt =====
-- Requests that store a definition, and what the executor makes of machines.
use workflow_manager.Common.{
  Text, ℤ, pos, true, false, List, [], ◌∷◌, Option, none, some, Result, ok, ◌≡◌, refl, All,
}
use workflow_manager.Common.Strings.{codes}
use workflow_manager.Models.{
  Value, StateType, Fields, StateMachine, States, MachinePtr, WorkflowDefinition,
}
use workflow_manager.Examples.Machines.{a_state, leaf, second, inner_left}
use workflow_manager.Examples.Histories.{a_definition}
use workflow_manager.Examples.Stores.{a_store, a_store-IsVersioned}
use workflow_manager.Resources.Graph.{Flat, flat}
use workflow_manager.Resources.Prune.{prune}
use workflow_manager.Resources.Prune.Total.{AllKnown}
use workflow_manager.Resources.Prune.Closed.{IsClosed}
use workflow_manager.Consumer.{exec_id_from_execution_arn, state_machine_from_execution_arn}
use workflow_manager.Store.Memory.{
  MemoryStore, save_workflow_definition, update_workflow_definition,
}
use workflow_manager.Store.Memory.Versions.{IsVersioned}
use workflow_manager.Handler.{
  DefinitionRequest, validate_state_machine, state_count, new_workflow_definition_from_request,
  create_definition, update_definition,
}
use workflow_manager.Handler.Validate.{validate_state_machine-prune}
use workflow_manager.Handler.Definitions.{
  IsString, new_workflow_definition_from_request-IsClosed, create_definition-IsVersioned,
}
use workflow_manager.Executor.Conventions.{state_machine_name, execution_arn}
use workflow_manager.Executor.Arns.{HasNoColon, execution_arn-parts}

abbrev one_state : States
one_state = States.cons (codes "second") (leaf second) States.nil

one_state-valid :
    validate_state_machine (StateMachine.machine [] (codes "second") one_state (pos 0) []) ≡ ok tt
unfolding validate_state_machine workflow_manager.Handler.validate_end_state
    workflow_manager.Common.Text-discrete
one_state-valid = refl

validate_state_machine-prune_example :
    (left : Flat) × AllKnown left × (prune (codes "second") (flat one_state) ≡ ok left)
validate_state_machine-prune_example =
    validate_state_machine-prune [] (codes "second") one_state (pos 0) [] one_state-valid

abbrev request : Text → DefinitionRequest
request name = record {
  name = name;
  manager = codes "step-functions";
  state_machine = MachinePtr.ref inner_left;
  default_tags = (codes "team", Value.string (codes "infra")) ∷ [];
}

abbrev made_definition : Text → ℤ → Text → WorkflowDefinition
made_definition uuid version name = record {
  created_at = pos 3;
  default_tags = (codes "team", Value.string (codes "infra")) ∷ [];
  id = uuid;
  manager = codes "step-functions";
  name = name;
  state_machine = inner_left;
  version = version;
}

abbrev first_definition : WorkflowDefinition
first_definition = made_definition (codes "u") (pos 0) (codes "new")

request_made :
    new_workflow_definition_from_request (codes "u") (pos 3) (request (codes "new"))
    ≡ ok first_definition
unfolding new_workflow_definition_from_request workflow_manager.Common.Text-discrete state_count
    workflow_manager.Resources.Prune.remove_inactive_states
    workflow_manager.Resources.Graph.state_exists workflow_manager.Common.Maps.get flat prune
    workflow_manager.Resources.Prune.prune_loop workflow_manager.Resources.Prune.prune_pass
    workflow_manager.Resources.Graph.reachable
    workflow_manager.Resources.Prune.all_valid_transitions
    workflow_manager.Resources.Graph.has_valid_transitions
    workflow_manager.Handler.validate_tags_map
    workflow_manager.Resources.Create.new_workflow_definition
request_made = refl

new_workflow_definition_from_request-IsClosed_example :
    (m : StateMachine) × (MachinePtr.ref inner_left ≡ MachinePtr.ref m)
    × IsClosed inner_left
    × (state_count inner_left ≡ state_count m)
    × All IsString first_definition.default_tags
    × (first_definition.version ≡ pos 0)
    × (first_definition.name ≡ codes "new")
new_workflow_definition_from_request-IsClosed_example =
    new_workflow_definition_from_request-IsClosed (codes "u") (pos 3) (request (codes "new"))
      first_definition request_made

abbrev created_store : MemoryStore
created_store = record a_store {
  workflow_definitions =
      (codes "def", a_definition ∷ []) ∷ (codes "new", first_definition ∷ []) ∷ [];
}

was_created :
    create_definition MemoryStore
      (save_workflow_definition (pos 3))
      (codes "u")
      (pos 3)
      (request (codes "new"))
      a_store
    ≡ ok (created_store, first_definition)
unfolding create_definition workflow_manager.Common.Text-discrete
    workflow_manager.Handler.validate_branch workflow_manager.Handler.validate_end_state
    new_workflow_definition_from_request state_count
    workflow_manager.Resources.Prune.remove_inactive_states
    workflow_manager.Resources.Graph.state_exists workflow_manager.Common.Maps.get flat prune
    workflow_manager.Resources.Prune.prune_loop workflow_manager.Resources.Prune.prune_pass
    workflow_manager.Resources.Graph.reachable
    workflow_manager.Resources.Prune.all_valid_transitions
    workflow_manager.Resources.Graph.has_valid_transitions
    workflow_manager.Handler.validate_tags_map workflow_manager.Common.Maps.put
    workflow_manager.Resources.Create.new_workflow_definition save_workflow_definition
was_created = refl

create_definition-IsVersioned_example : IsVersioned created_store
create_definition-IsVersioned_example =
    create_definition-IsVersioned (codes "u") (pos 3) (request (codes "new")) first_definition
      a_store created_store a_store-IsVersioned was_created

abbrev next_version : WorkflowDefinition
next_version = made_definition (codes "v") (pos 1) (codes "def")

abbrev next_store : MemoryStore
next_store = record a_store {
  workflow_definitions = (codes "def", a_definition ∷ next_version ∷ []) ∷ [];
}

was_updated_by_request :
    update_definition MemoryStore
      (update_workflow_definition (codes "v") (pos 3))
      (codes "u")
      (pos 3)
      (codes "def")
      (some (request (codes "def")))
      a_store
    ≡ ok (next_store, next_version)
unfolding update_definition workflow_manager.Common.Text-discrete
    workflow_manager.Handler.validate_branch workflow_manager.Handler.validate_end_state
    new_workflow_definition_from_request state_count
    workflow_manager.Resources.Prune.remove_inactive_states
    workflow_manager.Resources.Graph.state_exists workflow_manager.Common.Maps.get flat prune
    workflow_manager.Resources.Prune.prune_loop workflow_manager.Resources.Prune.prune_pass
    workflow_manager.Resources.Graph.reachable
    workflow_manager.Resources.Prune.all_valid_transitions
    workflow_manager.Resources.Graph.has_valid_transitions
    workflow_manager.Handler.validate_tags_map workflow_manager.Common.Maps.put
    workflow_manager.Resources.Create.new_workflow_definition update_workflow_definition
    workflow_manager.Store.Memory.latest_workflow_definition
    workflow_manager.Store.Memory.get_workflow_definition
    workflow_manager.Resources.Create.new_workflow_definition_version
    workflow_manager.Common.Int.◌+ℤ◌
was_updated_by_request = refl

no_colon : HasNoColon (codes "w1")
no_colon = (refl, (refl, tt))

abbrev a_name : Text
a_name = state_machine_name (codes "def:x") (pos 2) (codes "ns") (codes "start")

execution_arn-parts_example :
    (exec_id_from_execution_arn
        (execution_arn (codes "us-west-2") (codes "589") a_name (codes "w1"))
      ≡ ok (codes "w1"))
    × (state_machine_from_execution_arn
          (execution_arn (codes "us-west-2") (codes "589") a_name (codes "w1"))
        ≡ ok a_name)
execution_arn-parts_example =
    execution_arn-parts (codes "us-west-2") (codes "589") (codes "def:x") (pos 2) (codes "ns")
      (codes "start") (codes "w1") no_colon

abbrev working : Fields
working = record (a_state StateType.task []) { resource = codes "glue:job" }

abbrev working_machine : StateMachine
working_machine =
    StateMachine.machine [] (codes "work") (States.cons (codes "work") (leaf working) States.nil)
      (pos 0) []
