-- ===== src/Consumer/Outcomes.antt =====
-- What the handler of one event makes of the workflow, branch by branch.
use workflow_manager.Common.{
  ℤ, Text, Text-discrete, true, false, List, some, Result, ok, ◌≡◌, ◌∙◌, ap, arith, refl, sym,
  ok-injective,
}
use workflow_manager.Common.Strings.{codes}
use workflow_manager.Models.{Time, Workflow, WorkflowStatus, Error}
use workflow_manager.Store.{
  WorkflowStore, AcceptsUpdates, Attributes, terminal_state, leaves_terminal, apply_attributes,
  no_attributes, zero_value,
}
use workflow_manager.WfUpdater.Events
use workflow_manager.Consumer.{
  LoggedEvent, exec_id_from_execution_arn, state_machine_from_execution_arn, parse_int, unix_milli,
  is_final, status_update, resolve_update, last_job_update, finish_update, update_state,
  swallow_out_of_order_state_error, handle_history_event, running_update,
}

-- The event is the second of the execution `id`, and does not end it.
pub record IsSecond (id : Text) (evt : LoggedEvent) : Type 0 where
  pub execution : exec_id_from_execution_arn evt.execution_arn ≡ ok id
  pub machine : (name : Text) × (state_machine_from_execution_arn evt.execution_arn ≡ ok name)
  pub second : evt.id ≡ codes "2"
  pub goes_on : is_final evt.type ≡ false

-- The event ends the execution `id` at an instant.
pub record IsLast (id : Text) (stopped_at : Time) (evt : LoggedEvent) : Type 0 where
  pub execution : exec_id_from_execution_arn evt.execution_arn ≡ ok id
  pub machine : (name : Text) × (state_machine_from_execution_arn evt.execution_arn ≡ ok name)
  pub stopped : (msec : ℤ) × (parse_int evt.timestamp ≡ some msec) × (stopped_at ≡ unix_milli msec)

module _ (S : WorkflowStore) (accepts : AcceptsUpdates S)
    (get_execution_history : Text → Result Error (List Events.HistoryEvent)) where
  get-updated :
      (id : Text) (u : Attributes) (s s' : S.State) (wf : Workflow)
      → S.get_workflow_by_id id s ≡ ok wf
      → S.update_workflow_attributes id u s ≡ ok s'
      → S.get_workflow_by_id id s' ≡ ok (apply_attributes u wf)
  get-updated id u s s' wf there done =
      let (old, found, l, now) = S.get-update id u s s' done in
      now ∙ ap (λ w. ok (apply_attributes u w)) (ok-injective (sym found ∙ there))

  -- On a store whose updates do not fail: for a workflow that has ended, the second event of its
  -- execution comes too late: it is dropped, without an error.
  pub second_event-late :
      (id : Text) (evt : LoggedEvent) (s : S.State) (wf : Workflow)
      → IsSecond id evt
      → S.get_workflow_by_id id s ≡ ok wf
      → terminal_state wf.status ≡ true
      → handle_history_event S get_execution_history evt s ≡ ok s
  unfolding handle_history_event swallow_out_of_order_state_error leaves_terminal terminal_state
      Text-discrete
  second_event-late id evt s wf second there ended =
      let (name, named) = second.machine in
      let (old, refused) =
        accepts.update_refused id running_update s wf WorkflowStatus.running there refl
          (ground (arith, ended)) in
      rw (second.execution, named, second.goes_on, second.second, refused) refl

  -- On a store whose updates do not fail, the second event of an execution makes a workflow that has
  -- not ended run, and changes nothing else of it.
  pub second_event-running :
      (id : Text) (evt : LoggedEvent) (s : S.State) (wf : Workflow)
      → IsSecond id evt
      → S.get_workflow_by_id id s ≡ ok wf
      → terminal_state wf.status ≡ false
      → (s' : S.State) × (handle_history_event S get_execution_history evt s ≡ ok s')
        × (S.get_workflow_by_id id s' ≡ ok (record wf { status = WorkflowStatus.running }))
  unfolding handle_history_event swallow_out_of_order_state_error leaves_terminal apply_attributes
      zero_value Text-discrete
  second_event-running id evt s wf second there going =
      let (name, named) = second.machine in
      let (s', done) =
        accepts.update_defined id running_update s wf refl there (ground (arith, going)) in
      (
        s',
        rw (second.execution, named, second.goes_on, second.second, done) refl,
        get-updated id running_update s s' wf there done,
      )

  -- What the two switches and the rest of the handler make of an execution that succeeded.
  abbrev success : Time → Text → Attributes
  success stopped_at out = record no_attributes {
    stopped_at = some stopped_at;
    status = some WorkflowStatus.succeeded;
    output = some out;
    resolved_by_user = some true;
  }

  status_update-succeeded :
      (evt : LoggedEvent) (u : Attributes) (out : Text)
      → evt.type ≡ codes "ExecutionSucceeded"
      → evt.output ≡ some out
      → status_update evt u
        ≡ ok (record u { status = some WorkflowStatus.succeeded; output = some out })
  unfolding status_update Text-discrete
  status_update-succeeded evt u out type output = rw (type, output) refl

  is_final-succeeded : (type : Text) → type ≡ codes "ExecutionSucceeded" → is_final type ≡ true
  unfolding is_final Text-discrete
  is_final-succeeded type e = rw e refl

  succeeded_event-update :
      (id : Text) (out : Text) (msec : ℤ) (evt : LoggedEvent) (s : S.State) (name : Text)
      → exec_id_from_execution_arn evt.execution_arn ≡ ok id
      → state_machine_from_execution_arn evt.execution_arn ≡ ok name
      → parse_int evt.timestamp ≡ some msec
      → evt.type ≡ codes "ExecutionSucceeded"
      → evt.output ≡ some out
      → handle_history_event S get_execution_history evt s
        ≡ update_state S get_execution_history id (success (unix_milli msec) out) s
  unfolding handle_history_event finish_update resolve_update last_job_update zero_value
  succeeded_event-update id out msec evt s name execution named parsed type output =
      rw
        (
          execution,
          named,
          is_final-succeeded evt.type type,
          parsed,
          status_update-succeeded evt (record no_attributes { stopped_at = some (unix_milli msec) })
              out type output,
        )
        refl

  update_state-ok :
      (id : Text) (u : Attributes) (s s' : S.State)
      → S.update_workflow_attributes id u s ≡ ok s'
      → update_state S get_execution_history id u s ≡ ok s'
  unfolding swallow_out_of_order_state_error
  update_state-ok id u s s' done = rw done refl

  -- An execution that succeeded with an output, on a store whose updates do not fail: the workflow,
  -- whatever its status was, takes the status, the instant and the output of the event and counts as
  -- resolved, and keeps the rest.
  pub succeeded_event-stored :
      (id : Text) (stopped_at : Time) (out : Text) (evt : LoggedEvent) (s : S.State) (wf : Workflow)
      → IsLast id stopped_at evt
      → evt.type ≡ codes "ExecutionSucceeded"
      → evt.output ≡ some out
      → S.get_workflow_by_id id s ≡ ok wf
      → (s' : S.State) × (handle_history_event S get_execution_history evt s ≡ ok s')
        × (S.get_workflow_by_id id s'
            ≡ ok (record wf {
              status = WorkflowStatus.succeeded;
              stopped_at = stopped_at;
              output = out;
              resolved_by_user = true;
            }))
  unfolding leaves_terminal terminal_state apply_attributes zero_value
  succeeded_event-stored id stopped_at out evt s wf last type output there =
      let (name, named) = last.machine in
      let (msec, parsed, at) = last.stopped in
      let u = success (unix_milli msec) out in
      let (s', done) = accepts.update_defined id u s wf refl there (ground arith) in
      (
        s',
        succeeded_event-update id out msec evt s name last.execution named parsed type output
            ∙ update_state-ok id u s s' done,
        get-updated id u s s' wf there done
            ∙ ap (λ t. ok (apply_attributes (success t out) wf)) (sym at),
      )
