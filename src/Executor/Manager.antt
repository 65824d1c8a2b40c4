-- ===== src/Executor/Manager.antt =====
-- executor/workflow_manager_sfn.go: the state machines and the executions that the manager makes in
-- AWS, and the workflows that it keeps for them. Fresh identifiers, the clock and the JSON of
-- encoding/json are parameters. The pause after a change of the logging is left out, and so are logs.
pub mod Machine
pub mod Creation
pub mod Lag
pub mod Settled
pub mod Created
use workflow_manager.Common.{
  ℕ, zero, suc, Text, Text-discrete, ◌=?◌, ℤ, pos, Bool, true, false, ◌&&◌, ◌||◌, not, List, [],
  ◌∷◌, ◌++◌, Option, none, some, Result, ok, err, panic, out_of_fuel, if◌then◌else◌, length,
  get_elem?, ◌==◌, ◌>>=◌ as ◌>>>◌, is_some,
}
use workflow_manager.Common.Run.{Run, pure, fail, lift, ◌>>=◌, ◌>>◌}
use workflow_manager.Common.Int.{ltb_ℤ}
use workflow_manager.Common.Maps.{Map, put}
use workflow_manager.Common.Strings.{codes, split, contains}
use workflow_manager.Models.{
  Value, Time, Workflow, WorkflowDefinition, WorkflowStatus, StateMachine, Error,
}
use workflow_manager.Resources.Create.{new_workflow}
use workflow_manager.Resources.Status.{
  ExecutionStatus, workflow_is_done, sfn_status_to_workflow_status,
}
use workflow_manager.Resources.Prune.{remove_inactive_states}
use workflow_manager.WfUpdater.Events.{HistoryEvent}
use workflow_manager.WfUpdater.Process.{update_workflow_last_job}
use workflow_manager.WfUpdater.Reason.{status_reason_workflow_timed_out}
use workflow_manager.Executor.Conventions.{
  state_machine_name, state_machine_arn, state_machine_tags, log_group_arn, execution_arn,
}
use workflow_manager.Executor.Machines.{with_full_arns}
use workflow_manager.Executor.Retriers.{state_machine_with_default_retriers}
use workflow_manager.Executor.Workflows.{start_of, merge_tags}
use workflow_manager.Executor.Service.{
  StepFunctions, CloudWatchLogs, LoggingConfiguration, CreateStateMachineInput,
  UpdateStateMachineInput, StateMachineOutput, ExecutionOutput, Answer, to_tag_map,
}

-- What a manager works on: the store, AWS, and `updatedLoggingConfig`, the ARNs of the state machines
-- whose logging it has changed; and the goroutines that have not run yet, each by the ID of the workflow
-- that it deletes.
pub record Kept (Store World : Type 0) : Type 0 where
  pub store : Store
  pub world : World
  pub updated_logging : List Text
  pub goroutines : List Text

-- The manager's settings and the libraries' parts.
pub record Settings : Type 0 where
  pub region : Text
  pub role_arn : Text
  pub account_id : Text
  pub execution_events_stream_arn : Text
  pub cw_logs_to_kinesis_role_arn : Text
  -- json.MarshalIndent of a state machine.
  pub marshal_machine : StateMachine → Text
  -- json.Unmarshal into a map: `none` for an error, `some none` for `null`, which leaves the map nil.
  pub unmarshal_object : Text → Option (Option (Map Text Value))
  pub marshal_object : Map Text Value → Text

abbrev pub vended_logs : Text
vended_logs = codes "log-group:/aws/vendedlogs/states/"

unfoldable pub logging_configuration : Text → LoggingConfiguration
logging_configuration log_group = record {
  destinations = log_group ∷ [];
  level = codes "ALL";
  include_execution_data = true;
}

-- The first destination, if there is one, is no group of vended logs.
abbrev pub logs_elsewhere : List Text → Bool
logs_elsewhere [] = false
logs_elsewhere (arn ∷ arns) = not (contains arn vended_logs)

unfoldable pub lacks_logging : Option LoggingConfiguration → Bool
lacks_logging none = true
lacks_logging (some lc) = not (lc.level =? codes "ALL") || logs_elsewhere lc.destinations

unfoldable pub is_among : Text → List Text → Bool
is_among a [] = false
is_among a (b ∷ bs) = a =? b || is_among a bs

unfoldable pub log_group_name : Text → Result Error Text
unfolding split
log_group_name arn =
    let parts = split arn (codes ":") in
    if not (length parts == 8)
    then err (Error.external arn)
    else elim (get_elem? parts 6) [ none ↦ panic | some name ↦ ok name ]

-- Only the logging is changed.
abbrev pub logging_update : Text → LoggingConfiguration → UpdateStateMachineInput
logging_update arn lc = record {
  state_machine_arn = arn;
  definition = none;
  role_arn = none;
  logging_configuration = some lc;
}

-- The executions' names are the workflows' IDs.
abbrev pub execution_name : Text
execution_name = codes "_EXECUTION_NAME"

abbrev pub Manage : Type 0 → Type 0 → Type 0 → Type 0
Manage Store World A = Run (Kept Store World) Error A

module _ {Store World : Type 0} where
  abbrev pub on_world : {A : Type 0} → Run World Error A → Manage Store World A
  on_world m s = let r = m s.world in (r.0, record s { world = r.1 })

  -- A method of the store; an error leaves the store as it was.
  abbrev pub stored : Result Error Store → Manage Store World (Unit {0})
  stored (ok store) s = (ok tt, record s { store = store })
  stored (err e) s = (err e, s)
  stored panic s = (panic, s)
  stored out_of_fuel s = (out_of_fuel, s)

  abbrev pub on_store : (Store → Result Error Store) → Manage Store World (Unit {0})
  on_store m s = stored (m s.store) s

  abbrev pub mark_updated : Text → Manage Store World (Unit {0})
  mark_updated arn s = (ok tt, record s { updated_logging = arn ∷ s.updated_logging })

  -- When the execution did not start, a goroutine is left to delete the workflow, and the error is
  -- returned.
  abbrev pub or_delete :
      Workflow
      → Result Error (Unit {0}) × Kept Store World
      → Result Error Workflow × Kept Store World
  or_delete wf (ok u, s) = (ok wf, s)
  or_delete wf (err e, s) = (err e, record s { goroutines = wf.id ∷ s.goroutines })
  or_delete wf (panic, s) = (panic, s)
  or_delete wf (out_of_fuel, s) = (out_of_fuel, s)

-- An error of the deletion is only logged.
abbrev pub deleted : {Store : Type 0} → Store → Result Error Store → Store
deleted old (ok store) = store
deleted old (err e) = old
deleted old panic = old
deleted old out_of_fuel = old

-- The goroutine, on the store that it finds.
unfoldable pub delete_stray_workflow :
    {Store : Type 0} → (Text → Store → Result Error Store) → Text → Store → Store
delete_stray_workflow delete id store = deleted store (delete id store)

-- That the group exists already is no error.
abbrev pub made_group :
    {World : Type 0} → Answer (Unit {0}) × World → Result Error (Unit {0}) × World
made_group (Answer.found u, w) = (ok tt, w)
made_group (Answer.other_state, w) = (ok tt, w)
made_group (Answer.failed e, w) = (err e, w)

abbrev pub restarted : Text → StateMachine → StateMachine
restarted start_at (StateMachine.machine comment old states timeout version) =
    StateMachine.machine comment start_at states timeout version

abbrev pub machine_tags : WorkflowDefinition → Text → Map Text Text
machine_tags def namespace =
    state_machine_tags namespace def.name def.version (start_of def.state_machine)
      (to_tag_map def.default_tags)

module _ (settings : Settings) where
  abbrev pub machine_arn : WorkflowDefinition → Text → Text
  machine_arn def namespace =
      state_machine_arn settings.region settings.account_id def.name def.version namespace
        (start_of def.state_machine)

  abbrev pub machine_logging : WorkflowDefinition → Text → LoggingConfiguration
  machine_logging def namespace = logging_configuration (
      log_group_arn settings.region settings.account_id
        (state_machine_name def.name def.version namespace (start_of def.state_machine)))

  abbrev pub create_input : WorkflowDefinition → Text → StateMachine → CreateStateMachineInput
  create_input def namespace full = record {
    name = state_machine_name def.name def.version namespace (start_of def.state_machine);
    definition = settings.marshal_machine (state_machine_with_default_retriers full);
    role_arn = settings.role_arn;
    logging_configuration = some (machine_logging def namespace);
    tags = machine_tags def namespace;
  }

  -- A nil map cannot be written to.
  unfoldable pub execution_input : Text → Text → Result Error Text
  execution_input id input = elim (settings.unmarshal_object input) [
    | none ↦ err (Error.bad_request input)
    | some decoded ↦ elim decoded [
      | none ↦ panic
      | some object ↦
          ok (settings.marshal_object (put Text-discrete execution_name (Value.string id) object))
    ]
  ]
