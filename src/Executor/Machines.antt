-- ===== src/Executor/Machines.antt =====
-- executor/workflow_manager_sfn.go: `stateMachineWithFullActivityARNsAndParameters`.
use workflow_manager.Common.{
  Text, Text-discrete, true, [], none, some, Result, ok, err, ◌>>=◌, if◌then◌else◌, is_some, ◌≡◌,
  arith,
}
use workflow_manager.Common.Maps.{Map, get, put}
use workflow_manager.Common.Strings.{codes, has_prefix}
use workflow_manager.Models.{
  Value, Parameters, StateType, Fields, StateMachine, States, State, Branches, MachinePtr, Error,
}
use workflow_manager.Executor.Conventions.{
  lambda_resource, glue_resource_and_job_name, sfncli_resource,
}

abbrev pub execution_name_field : Text
execution_name_field = codes "_EXECUTION_NAME.$"

abbrev pub job_name_field : Text
job_name_field = codes "JobName"

-- A nil map becomes an empty one.
abbrev pub made : Parameters → Map Text Value
made none = []
made (some ps) = ps

unfoldable pub with_execution_name : Parameters → Map Text Value
with_execution_name parameters =
    let ps = made parameters in
    if is_some (get Text-discrete execution_name_field ps)
    then ps
    else put Text-discrete execution_name_field (Value.string (codes "$._EXECUTION_NAME")) ps

module _ (region account_id namespace : Text) where
  unfoldable pub with_full_resource : Fields → Fields
  with_full_resource f =
      if has_prefix f.resource (codes "lambda:")
      then record f { resource = lambda_resource f.resource region account_id namespace }
      else if has_prefix f.resource (codes "glue:")
      then (let (resource, job_name) = glue_resource_and_job_name f.resource namespace in
          record f {
            resource = resource;
            parameters =
                some (put Text-discrete job_name_field (Value.string job_name) (made f.parameters));
          })
      else record f { resource = sfncli_resource f.resource region account_id namespace }

  unfoldable mutual
    pub with_full_arns : StateMachine → Result Error StateMachine
    with_full_arns (StateMachine.machine comment start_at states timeout version) =
        full_states states >>= λ states'.
        ok (StateMachine.machine comment start_at states' timeout version)

    pub full_states : States → Result Error States
    full_states States.nil = ok States.nil
    full_states (States.cons name s rest) =
        full_state s >>= λ s'. full_states rest >>= λ rest'. ok (States.cons name s' rest')

    pub full_state : State → Result Error State
    full_state (State.state f branches iterator) = elim f.type [
      | StateType.parallel ↦
          full_branches branches >>= λ branches'. ok (State.state f branches' iterator)
      | StateType.map_state ↦
          full_ptr (codes "Nil iterator found in map state") iterator >>= λ iterator'. ok (
            State.state (record f { parameters = some (with_execution_name f.parameters) }) branches
              iterator')
      | StateType.task ↦ ok (State.state (with_full_resource f) branches iterator)
      | _ ↦ ok (State.state f branches iterator)
    ]

    pub full_branches : Branches → Result Error Branches
    full_branches Branches.none_left = ok Branches.none_left
    full_branches (Branches.branch m rest) =
        full_ptr (codes "Nil branch found in parallel state") m >>= λ m'.
        full_branches rest >>= λ rest'. ok (Branches.branch m' rest')

    -- A nil machine is an error.
    pub full_ptr : Text → MachinePtr → Result Error MachinePtr
    full_ptr message MachinePtr.null = err (Error.invalid_state message)
    full_ptr message (MachinePtr.ref m) = with_full_arns m >>= λ m'. ok (MachinePtr.ref m')

-- A task's resource is an ARN.
abbrev pub IsArn : Text → Type 0
IsArn resource = has_prefix resource (codes "arn:aws:") ≡ true

-- Whatever short-hand a task has, its full resource is an ARN of AWS.
pub with_full_resource-IsArn :
    (region account_id namespace : Text) (f : Fields)
    → IsArn (with_full_resource region account_id namespace f).resource
unfolding with_full_resource has_prefix lambda_resource glue_resource_and_job_name sfncli_resource
with_full_resource-IsArn region account_id namespace f = ground arith
