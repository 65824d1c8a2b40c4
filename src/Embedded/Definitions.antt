-- ===== src/Embedded/Definitions.antt =====
-- embedded/embedded.go: `NewWorkflowDefinition`. The clock is a parameter.
pub mod Accepted
use workflow_manager.Common.{
  ℕ, suc, Text, ◌=?◌, ℤ, pos, negsuc, Bool, true, false, not, List, [], ◌∷◌, ◌++◌, Option, none,
  some, Result, ok, err, panic, if◌then◌else◌, is_some, map, set, zero, ◌>>=◌ as ◌>>>◌,
}
use workflow_manager.Common.Run.{Run, pure, fail, lift, ◌>>=◌, ◌>>◌}
use workflow_manager.Common.Int.{ltb_ℤ}
use workflow_manager.Common.Maps.{Map}
use workflow_manager.Common.Strings.{codes}
use workflow_manager.Models.{
  Value, Time, zero_time, Workflow, WorkflowDefinition, WorkflowStatus, StateMachine, MachinePtr,
  Error,
}
use workflow_manager.Resources.Status.{sfn_status_to_workflow_status}
use workflow_manager.Executor.Conventions.{
  state_machine_name, state_machine_name_parts, state_machine_arn, state_machine_tags,
  execution_arn,
}
use workflow_manager.Executor.Workflows.{start_of}
use workflow_manager.Executor.Service.{
  StepFunctions, StateMachineOutput, ExecutionOutput, StartExecutionInput, Answer, to_tag_map,
}
use workflow_manager.Embedded.Validation.{
  named, validate_workflow_definition, set_state_machine_resources,
}
use workflow_manager.Embedded.Ids.{WorkflowIdParts, workflow_id, parse_workflow_id}
use workflow_manager.Embedded.Client.{Embedded, mutable}

-- `NewWorkflowDefinitionRequest`
pub record NewDefinition : Type 0 where
  pub name : Text
  pub manager : Text
  pub state_machine : MachinePtr
  pub default_tags : Map Text Value
  pub version : ℤ

-- The loop: the index of the first definition of the name, which must be mutable; `i` is the index of
-- the first of the list.
unfoldable pub find_slot : Text → ℕ → List WorkflowDefinition → Result Error (Option ℕ)
find_slot name i [] = ok none
find_slot name i (def ∷ defs) =
    let later = find_slot name (suc i) defs in
    if def.name =? name
    then (if mutable def.version
        then ok (some i)
        else err (Error.external (codes "workflow definition already exists")))
    else later

abbrev pub place_at :
    Option ℕ → WorkflowDefinition → List WorkflowDefinition → List WorkflowDefinition
place_at none def defs = defs ++ def ∷ []
place_at (some i) def defs = set defs i def

abbrev pub validate_ptr : (Text → Bool) → Text → MachinePtr → Result Error StateMachine
validate_ptr known name MachinePtr.null = named name >>> λ _. panic
validate_ptr known name (MachinePtr.ref m) = validate_workflow_definition known name m >>> λ _. ok m

-- The definition is kept in the place of a mutable one of its name, or else at the end. A nil machine
-- is dereferenced.
unfoldable pub new_workflow_definition :
    Time → NewDefinition → Embedded → Result Error (Embedded × WorkflowDefinition)
unfolding find_slot
new_workflow_definition now i e = find_slot i.name 0 e.workflow_definitions >>> λ slot.
    validate_ptr e.known_resource i.name i.state_machine >>> λ m.
    let def : WorkflowDefinition = record {
      created_at = now;
      default_tags = i.default_tags;
      id = [];
      manager = i.manager;
      name = i.name;
      state_machine = m;
      version = i.version;
    } in
    ok (record e { workflow_definitions = place_at slot def e.workflow_definitions }, def)
