-- ===== src/Executor/Manager/Machine.antt =====
-- executor/workflow_manager_sfn.go: `describeOrCreateStateMachine`, and the log groups and the state
-- machine that it makes.
use workflow_manager.Common.{
  ℕ, zero, suc, Text, pos, ◌&&◌, not, List, [], ◌∷◌, ok, err, out_of_fuel, if◌then◌else◌,
}
use workflow_manager.Common.Run.{Run, pure, lift, ◌>>=◌}
use workflow_manager.Common.Maps.{Map}
use workflow_manager.Common.Strings.{codes}
use workflow_manager.Models.{WorkflowDefinition, Error}
use workflow_manager.Executor.Machines.{with_full_arns}
use workflow_manager.Executor.Service.{
  StepFunctions, CloudWatchLogs, LoggingConfiguration, StateMachineOutput, Answer,
}
use workflow_manager.Executor.Manager.{
  Settings, logging_configuration, lacks_logging, is_among, log_group_name, logging_update, Manage,
  on_world, mark_updated, made_group, machine_tags, machine_arn, machine_logging, create_input,
}

module _ {World : Type 0} (settings : Settings) (sfn : StepFunctions World)
    (logs : CloudWatchLogs World) where
  unfoldable pub create_log_groups : Map Text Text → List Text → Run World Error (Unit {0})
  unfolding log_group_name
  create_log_groups tags [] = pure tt
  create_log_groups tags (arn ∷ arns) = lift (log_group_name arn) >>= λ name.
      (λ w. made_group (logs.create_log_group name tags w)) >>= λ _.
      logs.put_retention_policy name (pos 7) >>= λ _.
      logs.put_subscription_filter (record {
        destination_arn = settings.execution_events_stream_arn;
        filter_name = codes "to-kinesis";
        filter_pattern = [];
        log_group_name = name;
        role_arn = settings.cw_logs_to_kinesis_role_arn;
      })
      >>= λ _. create_log_groups tags arns

  unfoldable pub update_logging_configuration :
      Text → Map Text Text → LoggingConfiguration → Run World Error (Unit {0})
  unfolding create_log_groups
  update_logging_configuration arn tags lc = create_log_groups tags lc.destinations >>= λ _.
      sfn.update_state_machine (logging_update arn lc)

  -- The machine of a definition, as it is made in AWS.
  unfoldable pub create_machine : WorkflowDefinition → Text → Run World Error (Unit {0})
  unfolding create_log_groups logging_configuration
  create_machine def namespace =
      lift (with_full_arns settings.region settings.account_id namespace def.state_machine)
      >>= λ machine.
          create_log_groups (machine_tags def namespace)
            (machine_logging settings def namespace).destinations
          >>= λ _. sfn.create_state_machine (create_input settings def namespace machine)

  unfoldable pub change_logging : WorkflowDefinition → Text → Text → Run World Error (Unit {0})
  unfolding update_logging_configuration
  change_logging def namespace arn =
      update_logging_configuration arn (machine_tags def namespace)
        (machine_logging settings def namespace)

  -- What follows an answer; `again` is the call of the function by itself.
  unfoldable pub settle :
      {Store : Type 0}
      → WorkflowDefinition
      → Text
      → Manage Store World StateMachineOutput
      → Answer StateMachineOutput
      → Manage Store World StateMachineOutput
  unfolding change_logging create_machine is_among lacks_logging
  settle def namespace again (Answer.failed e) s = (err e, s)
  settle def namespace again Answer.other_state s =
      (on_world (create_machine def namespace) >>= λ _. again) s
  settle def namespace again (Answer.found out) s =
      if not (is_among out.state_machine_arn s.updated_logging)
        && lacks_logging out.logging_configuration
      then (on_world (change_logging def namespace out.state_machine_arn) >>= λ _.
            mark_updated out.state_machine_arn >>= λ _. again)
          s
      else (ok out, s)

  -- On fuel, of which each round takes one.
  unfoldable pub describe_or_create :
      {Store : Type 0} → ℕ → WorkflowDefinition → Text → Manage Store World StateMachineOutput
  unfolding settle
  describe_or_create zero def namespace s = (out_of_fuel, s)
  describe_or_create (suc fuel) def namespace s =
      settle def namespace (describe_or_create fuel def namespace)
        (sfn.describe_state_machine (machine_arn settings def namespace) s.world) s
