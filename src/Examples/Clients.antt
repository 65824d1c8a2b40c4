-- ===== src/Examples/Clients.antt =====
-- A client with one definition, of a version that may change, on the service of Examples/Managers.
use workflow_manager.Common.{
  Text, Text-discrete, ◌=?◌, ℤ, pos, negsuc, Bool, true, false, List, [], ◌∷◌, ◌++◌, Option, none,
  some, Result, ok, err, length, ◌+◌, ◌≤◌, ◌≡◌, refl, arith, Returns,
}
use workflow_manager.Common.Strings.{codes}
use workflow_manager.Models.{
  StateType, Fields, StateMachine, States, State, Branches, MachinePtr, Workflow,
  WorkflowDefinition, Error,
}
use workflow_manager.Examples.Machines.{a_state}
use workflow_manager.Examples.Managers.{Machines, states}
use workflow_manager.Executor.Conventions.{execution_arn}
use workflow_manager.Embedded.Validation.{validate_workflow_definition, set_state_machine_resources}
use workflow_manager.Embedded.Resources.{
  MachineTasks, IsKnownArn, set_state_machine_resources-IsKnownArn,
}
use workflow_manager.Embedded.Ids.{
  EndsClean, HasNoDashes, workflow_id, parse_workflow_id, parse-workflow_id, chosen_suffix,
}
use workflow_manager.Embedded.Client.{
  Embedded, StartRequest, start_workflow, cancel_workflow, machine_of, execution_input,
  queued_workflow,
}
use workflow_manager.Embedded.Client.Started.{start-cancel_workflow}
use workflow_manager.Embedded.Definitions.{NewDefinition, new_workflow_definition}
use workflow_manager.Embedded.Definitions.Accepted.{
  AllAccepted, new_workflow_definition-AllAccepted,
}

abbrev knows : Text → Bool
knows resource = resource =? codes "fn"

abbrev last_task : Fields
last_task = record (a_state StateType.task []) { resource = codes "fn"; is_end = true }

abbrev of_one_state : Fields → Branches → StateMachine
of_one_state f bs =
    StateMachine.machine [] (codes "S")
      (States.cons (codes "S") (State.state f bs MachinePtr.null) States.nil) (pos 0) []

abbrev one_call : StateMachine
one_call = of_one_state last_task Branches.none_left

-- A parallel state, the task inside its branch.
abbrev nested_call : StateMachine
nested_call =
    of_one_state (record (a_state StateType.parallel []) { is_end = true })
      (Branches.branch (MachinePtr.ref one_call) Branches.none_left)

nested_call-accepted : validate_workflow_definition knows (codes "d") nested_call ≡ ok tt
unfolding validate_workflow_definition Text-discrete workflow_manager.Embedded.Validation.check_task
    workflow_manager.Embedded.Validation.check_next
nested_call-accepted = refl

set_state_machine_resources-IsKnownArn_example :
    Returns
      (MachineTasks (IsKnownArn knows (codes "r") (codes "a") (codes "ns") (codes "app")))
      (set_state_machine_resources (codes "r") (codes "a") (codes "ns") (codes "app") nested_call)
set_state_machine_resources-IsKnownArn_example =
    set_state_machine_resources-IsKnownArn knows (codes "r") (codes "a") (codes "ns") (codes "app")
      (codes "d") nested_call nested_call-accepted

clean : EndsClean (codes "ns--def--0--S")
clean = refl

no_dashes : HasNoDashes (codes "run-1")
no_dashes = (refl, (refl, (refl, (refl, tt))))

-- The suffix is cleaned of the characters that an ID may not have.
parse-workflow_id_example :
    parse_workflow_id (workflow_id (codes "u") (codes "ns--def--0--S") (codes "run-1"))
    ≡ ok (record { sm_name = codes "ns--def--0--S"; suffix = codes "run-1" })
unfolding Text-discrete
parse-workflow_id_example =
    parse-workflow_id (codes "u") (codes "ns--def--0--S") (codes "run-1") clean no_dashes
      (omega arith)

abbrev a_client : Embedded
a_client = record {
  environment = codes "ns";
  app = codes "app";
  sfn_account_id = codes "a";
  sfn_region = codes "r";
  sfn_role_arn = codes "role";
  known_resource = knows;
  workflow_definitions = [];
}

abbrev addition : NewDefinition
addition = record {
  name = codes "def";
  manager = [];
  state_machine = MachinePtr.ref one_call;
  default_tags = [];
  version = negsuc 0;
}

abbrev the_definition : WorkflowDefinition
the_definition = record {
  created_at = pos 3;
  default_tags = [];
  id = [];
  manager = [];
  name = codes "def";
  state_machine = one_call;
  version = negsuc 0;
}

abbrev with_definition : Embedded
with_definition = record a_client { workflow_definitions = the_definition ∷ [] }

was_added : new_workflow_definition (pos 3) addition a_client ≡ ok (with_definition, the_definition)
unfolding new_workflow_definition validate_workflow_definition Text-discrete
    workflow_manager.Embedded.Validation.check_task workflow_manager.Embedded.Validation.check_next
was_added = refl

new_workflow_definition-AllAccepted_example : AllAccepted with_definition
new_workflow_definition-AllAccepted_example =
    new_workflow_definition-AllAccepted (pos 3) addition a_client with_definition the_definition tt
      was_added

abbrev a_start : StartRequest
a_start = record {
  id_suffix = codes "run-1";
  input = codes "{}";
  namespace = [];
  queue = [];
  tags = none;
  definition_name = some (codes "def");
}

abbrev started : Result Error Workflow × Machines
started =
    start_workflow (states (ok tt)) (λ m. codes "{}") (λ t. true) (λ t. true) (codes "u") (pos 4)
      with_definition a_start []

abbrev the_workflow : Workflow
the_workflow = queued_workflow (codes "u") (pos 4) with_definition a_start the_definition

was_started : started ≡ (ok the_workflow, started.1)
unfolding start_workflow workflow_manager.Embedded.Client.start_complaints Text-discrete
    workflow_manager.Embedded.Client.definition_by_name set_state_machine_resources
    workflow_manager.Embedded.Client.find_or_change workflow_manager.Common.Maps.get
    workflow_manager.Embedded.Client.submit
was_started = refl

machine_clean : EndsClean (machine_of with_definition a_start the_definition)
unfolding workflow_manager.Executor.Conventions.state_machine_name
    workflow_manager.Executor.Conventions.replace_chars Text-discrete
    workflow_manager.Common.Strings.decimal
machine_clean = refl

id_short :
    length (machine_of with_definition a_start the_definition)
      + (2 + length (chosen_suffix (codes "u") (codes "run-1")))
    ≤ 80
unfolding workflow_manager.Executor.Conventions.state_machine_name
    workflow_manager.Executor.Conventions.replace_chars Text-discrete
    workflow_manager.Common.Strings.decimal
id_short = omega arith

suffix_no_dashes : HasNoDashes (chosen_suffix (codes "u") (codes "run-1"))
unfolding Text-discrete
suffix_no_dashes = no_dashes

start-cancel_workflow_example :
    (before : Machines) × ((states (ok tt)).start_execution
        (execution_input with_definition a_start the_definition the_workflow.id)
        before
      ≡ (ok tt, started.1))
    × (cancel_workflow (states (ok tt)) with_definition the_workflow.id (codes "why") []
        ≡ (states (ok tt)).stop_execution
            (execution_arn
              (codes "r")
              (codes "a")
              (machine_of with_definition a_start the_definition)
              the_workflow.id)
            (codes "why")
            [])
unfolding queued_workflow
start-cancel_workflow_example =
    start-cancel_workflow (states (ok tt)) (λ m. codes "{}") (λ t. true) (λ t. true) (codes "u")
      (pos 4) with_definition a_start [] started.1 the_workflow (codes "why") [] was_started
      machine_clean suffix_no_dashes id_short
