-- ===== src/Embedded/Client/Started.antt =====
-- embedded/embedded.go: a workflow that a client starts, and its cancellation.
use workflow_manager.Common.{
  ◌+◌, ◌≤◌, Text, Bool, Result, ok, err, length, ◌≡◌, ◌≢◌, refl, sym, ap, ◌∙◌, subst, ok-injective,
  Bool-cases, inl, inr,
}
use workflow_manager.Common.Run.{continue-eq-ok}
use workflow_manager.Models.{Time, Workflow, WorkflowDefinition, StateMachine, Error}
use workflow_manager.Executor.Conventions.{state_machine_arn, execution_arn}
use workflow_manager.Executor.Workflows.{start_of}
use workflow_manager.Executor.Service.{StepFunctions}
use workflow_manager.Embedded.Validation.{set_state_machine_resources}
use workflow_manager.Embedded.Ids.{EndsClean, HasNoDashes, chosen_suffix, parse-workflow_id}
use workflow_manager.Embedded.Client.{
  Embedded, StartRequest, no_complaint, start_complaints, requested_definition, find_or_change,
  queued_workflow, execution_input, machine_of, namespace_of, submit, start_workflow,
  cancel_workflow,
}

module _ {World : Type 0} (sfn : StepFunctions World) (marshal : StateMachine → Text)
    (is_machine is_json : Text → Bool) (short_uuid : Text) (now : Time) (e : Embedded)
    (i : StartRequest) where
  submit-inversion :
      (def : WorkflowDefinition) (w w' : World) (wf : Workflow)
      → submit sfn marshal is_machine is_json short_uuid now e i def w ≡ (ok wf, w')
      → (queued_workflow short_uuid now e i def ≡ wf)
        × (sfn.start_execution
              (execution_input e i def (queued_workflow short_uuid now e i def).id)
              w
            ≡ (ok tt, w'))
  unfolding submit
  submit-inversion def w w' wf h = elim (Bool-cases (is_json i.input)) [
    | inl json ↦
        let (_, s, first, last) =
          continue-eq-ok
            (sfn.start_execution
              (execution_input e i def (queued_workflow short_uuid now e i def).id) w)
            (λ _ s. (ok (queued_workflow short_uuid now e i def), s)) (rw json at h) in
        (ok-injective (ap (λ r. r.0) last), first ∙ ap (λ x. (ok tt, x)) (ap (λ r. r.1) last))
    | inr other ↦ absurd (not-ok _ wf w w' (rw other at h))
  ]
    where
      not-ok :
          (error : Error) (wf : Workflow) (w w' : World)
          → ◌≢◌ {A = Result Error Workflow × World} (err error, w) (ok wf, w')
      not-ok error wf w w' p = cc (ap (λ r. r.0) p)

  -- The definition that a start that succeeds was of, and its last step.
  start_workflow-inversion :
      (w w' : World) (wf : Workflow)
      → start_workflow sfn marshal is_machine is_json short_uuid now e i w ≡ (ok wf, w')
      → (def : WorkflowDefinition) × (requested_definition e i ≡ ok def)
        × (machine : StateMachine) × (set_state_machine_resources e.sfn_region e.sfn_account_id
              (namespace_of e i)
              e.app
              def.state_machine
            ≡ ok machine)
        × (before : World) × (submit sfn marshal is_machine is_json short_uuid now e i def before
            ≡ (ok wf, w'))
  unfolding start_workflow
  start_workflow-inversion w w' wf h =
      let (_, _, _, h1) = continue-eq-ok (no_complaint (start_complaints e i), w) _ h in
      let (def, w1, found, h2) = continue-eq-ok (requested_definition e i, _) _ h1 in
      let (machine, w2, set_, h3) =
        continue-eq-ok
          (
            set_state_machine_resources e.sfn_region e.sfn_account_id (namespace_of e i) e.app
                def.state_machine,
            w1,
          )
          _ h2 in
      let (_, before, _, h4) =
        continue-eq-ok
          (find_or_change sfn marshal is_machine is_json e def (namespace_of e i) (marshal machine)
            (sfn.describe_state_machine
              (state_machine_arn e.sfn_region e.sfn_account_id def.name def.version
                (namespace_of e i) (start_of def.state_machine))
              w)
            w2)
          _ h3 in
      (def, ap (λ r. r.0) found, machine, ap (λ r. r.0) set_, before, h4)

  -- What the cancellation of a workflow comes to, on the machine that its definition has.
  abbrev Cancels : World → Text → World → Workflow → Type 0
  Cancels w' reason later wf =
      (before : World) × (sfn.start_execution (execution_input e i wf.workflow_definition wf.id)
          before
        ≡ (ok tt, w'))
      × (cancel_workflow sfn e wf.id reason later
          ≡ sfn.stop_execution
              (execution_arn e.sfn_region e.sfn_account_id (machine_of e i wf.workflow_definition)
                wf.id)
              reason later)

  queued-Cancels :
      (def : WorkflowDefinition) (before w' : World) (reason : Text) (later : World)
      → sfn.start_execution
          (execution_input e i def (queued_workflow short_uuid now e i def).id)
          before
        ≡ (ok tt, w')
      → EndsClean (machine_of e i def)
      → HasNoDashes (chosen_suffix short_uuid i.id_suffix)
      → length (machine_of e i def) + (2 + length (chosen_suffix short_uuid i.id_suffix)) ≤ 80
      → Cancels w' reason later (queued_workflow short_uuid now e i def)
  unfolding queued_workflow cancel_workflow
  queued-Cancels def before w' reason later started clean no_dashes short = (
    before,
    started,
    rw (parse-workflow_id short_uuid (machine_of e i def) i.id_suffix clean no_dashes short) refl,
  )

  -- A workflow that is started is submitted under its ID to the state machine of its definition. If the
  -- name of that machine does not end with a dash, the suffix has no two dashes in a row and the ID
  -- needs no trimming, then a cancellation by the ID asks the service, in any state of it, to stop the
  -- execution of that machine and that name.
  pub start-cancel_workflow :
      (w w' : World) (wf : Workflow) (reason : Text) (later : World)
      → start_workflow sfn marshal is_machine is_json short_uuid now e i w ≡ (ok wf, w')
      → EndsClean (machine_of e i wf.workflow_definition)
      → HasNoDashes (chosen_suffix short_uuid i.id_suffix)
      → length (machine_of e i wf.workflow_definition)
          + (2 + length (chosen_suffix short_uuid i.id_suffix))
        ≤ 80
      → (before : World) × (sfn.start_execution
            (execution_input e i wf.workflow_definition wf.id)
            before
          ≡ (ok tt, w'))
        × (cancel_workflow sfn e wf.id reason later
            ≡ sfn.stop_execution
                (execution_arn e.sfn_region e.sfn_account_id
                  (machine_of e i wf.workflow_definition)
                  wf.id)
                reason
                later)
  unfolding queued_workflow
  start-cancel_workflow w w' wf reason later h clean no_dashes short =
      let (def, _, _, _, before, submitted) = start_workflow-inversion w w' wf h in
      let (same, started) = submit-inversion def before w' wf submitted in
      let same_def : def ≡ wf.workflow_definition =
        ap (λ (v : Workflow). v.workflow_definition) same in
      subst (Cancels w' reason later) same (
        queued-Cancels def before w' reason later started
          (subst (λ d. EndsClean (machine_of e i d)) (sym same_def) clean) no_dashes
          (subst
            (λ d.
              length (machine_of e i d) + (2 + length (chosen_suffix short_uuid i.id_suffix)) ≤ 80)
            (sym same_def) short))
