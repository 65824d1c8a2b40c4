-- ===== src/Executor/Manager/Creation.antt =====
-- executor/workflow_manager_sfn.go: `CreateWorkflow` and `RetryWorkflow`, on any store.
use workflow_manager.Common.{ℕ, Text, not, [], ◌∷◌, ◌++◌, Result, if◌then◌else◌}
use workflow_manager.Common.Run.{Run, pure, fail, lift, ◌>>=◌}
use workflow_manager.Common.Maps.{Map}
use workflow_manager.Models.{Value, Time, Workflow, WorkflowDefinition, Error}
use workflow_manager.Resources.Create.{new_workflow}
use workflow_manager.Resources.Status.{workflow_is_done}
use workflow_manager.Resources.Prune.{remove_inactive_states}
use workflow_manager.Executor.Workflows.{merge_tags}
use workflow_manager.Executor.Service.{StepFunctions, CloudWatchLogs}
use workflow_manager.Executor.Manager.{
  Settings, Manage, on_world, on_store, or_delete, restarted, execution_input,
}
use workflow_manager.Executor.Manager.Machine.{describe_or_create}

module _ {World : Type 0} (settings : Settings) (sfn : StepFunctions World)
    (logs : CloudWatchLogs World) where
  unfoldable pub start_execution : Text → Text → Text → Run World Error (Unit {0})
  unfolding execution_input
  start_execution arn id input = lift (execution_input settings id input) >>= λ with_name.
      sfn.start_execution (record { state_machine_arn = arn; input = with_name; name = id })

  module _ {Store : Type 0} (save update : Workflow → Store → Result Error Store) where
    unfoldable pub create_workflow :
        ℕ
        → Text
        → Time
        → WorkflowDefinition
        → Text
        → Text
        → Text
        → Map Text Value
        → Manage Store World Workflow
    unfolding start_execution
    create_workflow fuel uuid now def input namespace queue tags =
        describe_or_create settings sfn logs fuel def namespace >>= λ out.
        let wf =
          new_workflow uuid now def input namespace queue (merge_tags def.default_tags tags) in
        on_store (save wf) >>= λ _ s.
        or_delete wf (on_world (start_execution out.state_machine_arn uuid input) s)

    unfoldable pub retry_workflow :
        ℕ → Text → Time → Workflow → Text → Text → Manage Store World Workflow
    unfolding start_execution
    retry_workflow fuel uuid now og start_at input =
        if not (workflow_is_done og)
        then fail (Error.external og.id)
        else (lift
              (remove_inactive_states (restarted start_at og.workflow_definition.state_machine))
            >>= λ machine.
                let def : WorkflowDefinition = record og.workflow_definition {
                  state_machine = machine;
                } in
                describe_or_create settings sfn logs fuel def og.namespace >>= λ out.
                let wf : Workflow =
                  record (new_workflow uuid now def input og.namespace og.queue og.tags) {
                    retry_for = og.id;
                  } in
                on_store (save wf) >>= λ _.
                on_store (update (record og { retries = og.retries ++ uuid ∷ [] })) >>= λ _.
                on_world (start_execution out.state_machine_arn uuid input) >>= λ _. pure wf)
