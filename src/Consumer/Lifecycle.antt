-- ===== src/Consumer/Lifecycle.antt =====
-- The life of a workflow as the consumer may change it: what it keeps of the events of an
-- execution, in whatever order they come, is the status of a small machine.
use workflow_manager.Common.{
  Text, Text-discrete, Bool, true, false, List, Option, none, some, Result, ok, err, panic,
  out_of_fuel, ◌≡◌, refl, sym, ap, subst, ◌∙◌, ◌⊎◌, inl, inr, arith, Bool-cases, Option-cases,
  >>=-eq-ok, ok-injective,
}
use workflow_manager.Common.Strings.{codes}
use workflow_manager.Models.{Job, Workflow, WorkflowStatus, Error}
use workflow_manager.Store.{
  WorkflowStore, Attributes, zero_value, terminal_state, leaves_terminal, updated, apply_attributes,
  no_attributes,
}
use workflow_manager.WfUpdater.Events
use workflow_manager.WfUpdater.Process.{update_workflow_last_job}
use workflow_manager.Consumer.{
  LoggedEvent, exec_id_from_execution_arn, state_machine_from_execution_arn, parse_int, unix_milli,
  is_final, status_update, resolve_update, last_job_update, with_last_job, is_failed, finish_update,
  update_state, running_update, swallow_out_of_order_state_error, handle_history_event,
}

-- A workflow that has not ended may run, and any workflow may end, again too.
pub data Advance : WorkflowStatus → WorkflowStatus → Type 0 where
  stay : {a : WorkflowStatus} → Advance a a
  start : {a : WorkflowStatus} → terminal_state a ≡ false → Advance a WorkflowStatus.running
  finish : {a b : WorkflowStatus} → terminal_state b ≡ true → Advance a b

-- The statuses that the consumer sets.
abbrev pub allowed : Option WorkflowStatus → Bool
allowed none = true
allowed (some WorkflowStatus.running) = true
allowed (some WorkflowStatus.succeeded) = true
allowed (some WorkflowStatus.failed) = true
allowed (some WorkflowStatus.cancelled) = true
allowed (some WorkflowStatus.queued) = false
allowed (some (WorkflowStatus.other s)) = false

pub updated-Advance :
    (new : Option WorkflowStatus) (old : WorkflowStatus)
    → allowed new ≡ true
    → leaves_terminal new old ≡ false
    → Advance old (updated new old)
unfolding leaves_terminal terminal_state
updated-Advance none old h l = stay
updated-Advance (some WorkflowStatus.running) old h l = start (ground arith)
updated-Advance (some WorkflowStatus.succeeded) old h l = finish refl
updated-Advance (some WorkflowStatus.failed) old h l = finish refl
updated-Advance (some WorkflowStatus.cancelled) old h l = finish refl
updated-Advance (some WorkflowStatus.queued) old h l = cc
updated-Advance (some (WorkflowStatus.other s)) old h l = cc

pub terminal-Advance :
    (a b : WorkflowStatus) → Advance a b → terminal_state a ≡ true → terminal_state b ≡ true
terminal-Advance a b stay t = t
terminal-Advance a b (start f) t = cc
terminal-Advance a b (finish e) t = e

status_update-allowed :
    (evt : LoggedEvent) (u u1 : Attributes)
    → allowed u.status ≡ true
    → status_update evt u ≡ ok u1
    → allowed u1.status ≡ true
unfolding status_update
status_update-allowed evt u u1 a h = ground arith

resolve_update-status : (u : Attributes) → (resolve_update u).status ≡ u.status
unfolding resolve_update
resolve_update-status u = ground arith

with_last_job-status : (u : Attributes) (job : Option Job) → (with_last_job u job).status ≡ u.status
with_last_job-status u none = refl
with_last_job-status u (some job) = refl

module _ (S : WorkflowStore)
    (get_execution_history : Text → Result Error (List Events.HistoryEvent)) where
  -- What becomes of a workflow.
  abbrev pub Follows :
      (WorkflowStatus → WorkflowStatus → Type 0) → Text → S.State → S.State → Type 0
  Follows R id s s' =
      (wf : Workflow)
      → S.get_workflow_by_id id s ≡ ok wf
      → (wf' : Workflow) × (S.get_workflow_by_id id s' ≡ ok wf') × R wf.status wf'.status

  swallow-cases :
      (s s' : S.State) (r : Result Error S.State)
      → swallow_out_of_order_state_error S get_execution_history s r ≡ ok s'
      → (s ≡ s') ⊎ (r ≡ ok s')
  unfolding swallow_out_of_order_state_error
  swallow-cases s s' (ok r) h = inr h
  swallow-cases s s' (err (Error.terminal_to_non_terminal old new)) h = inl (ok-injective h)
  swallow-cases s s' (err (Error.not_found x)) h = cc
  swallow-cases s s' (err (Error.already_exists x)) h = cc
  swallow-cases s s' (err (Error.conflict x)) h = cc
  swallow-cases s s' (err (Error.bad_request x)) h = cc
  swallow-cases s s' (err (Error.start_at_not_found x)) h = cc
  swallow-cases s s' (err (Error.invalid_transition x y)) h = cc
  swallow-cases s s' (err Error.end_with_next) h = cc
  swallow-cases s s' (err Error.no_next) h = cc
  swallow-cases s s' (err (Error.unsupported_type x)) h = cc
  swallow-cases s s' (err (Error.invalid_state x)) h = cc
  swallow-cases s s' (err (Error.invalid_page_token x)) h = cc
  swallow-cases s s' (err (Error.several xs)) h = cc
  swallow-cases s s' (err (Error.external x)) h = cc
  swallow-cases s s' panic h = cc
  swallow-cases s s' out_of_fuel h = cc

  Follows-same : (id : Text) (s s' : S.State) → s ≡ s' → Follows Advance id s s'
  Follows-same id s s' e = subst (Follows Advance id s) e (λ wf h. (wf, h, stay))

  Follows-update :
      (exec_id id : Text) (u : Attributes) (s s' : S.State)
      → allowed u.status ≡ true
      → S.update_workflow_attributes exec_id u s ≡ ok s'
      → Follows Advance id s s'
  unfolding apply_attributes
  Follows-update exec_id id u s s' a h wf there =
      let (old, found, l, now) = S.get-update exec_id u s s' h in
      elim (Text-discrete exec_id id) [
        | yes e ↦
            let same : old ≡ wf =
              ok-injective (sym found ∙ ap (λ x. S.get_workflow_by_id x s) e ∙ there) in
            (
              apply_attributes u old,
              ap (λ x. S.get_workflow_by_id x s') (sym e) ∙ now,
              subst (λ w. Advance w.status (updated u.status old.status)) same
                  (updated-Advance u.status old.status a l),
            )
        | no ne ↦ (wf, S.get-update_ne exec_id id u s s' h ne ∙ there, stay)
      ]

  update_state-Follows :
      (exec_id id : Text) (u : Attributes) (s s' : S.State)
      → allowed u.status ≡ true
      → update_state S get_execution_history exec_id u s ≡ ok s'
      → Follows Advance id s s'
  update_state-Follows exec_id id u s s' a h =
      elim (swallow-cases s s' (S.update_workflow_attributes exec_id u s) h) [
        | inl e ↦ Follows-same id s s' e
        | inr e ↦ Follows-update exec_id id u s s' a e
      ]

  last_job_update-status :
      (exec_id arn : Text) (u u' : Attributes) (s : S.State)
      → last_job_update S get_execution_history exec_id arn u s ≡ ok u'
      → u'.status ≡ u.status
  unfolding last_job_update
  last_job_update-status exec_id arn u u' s h = elim (Bool-cases (is_failed u.status)) [
    | inr not_failed ↦ ground arith
    | inl failed ↦
        let (wf, e, h1) = >>=-eq-ok (S.get_workflow_by_id exec_id s) _ (rw failed at h) in
        let (events, e1, h2) = >>=-eq-ok (get_execution_history arn) _ h1 in
        let (wf', e2, h3) = >>=-eq-ok (update_workflow_last_job wf events) _ h2 in
        ap (λ x. x.status) (sym (ok-injective h3)) ∙ with_last_job-status u wf'.last_job
  ]

  finish_update-Follows :
      (exec_id id : Text) (evt : LoggedEvent) (u : Attributes) (s s' : S.State)
      → allowed u.status ≡ true
      → finish_update S get_execution_history exec_id evt u s ≡ ok s'
      → Follows Advance id s s'
  unfolding finish_update
  finish_update-Follows exec_id id evt u s s' a h =
      let (u1, e1, h1) = >>=-eq-ok (status_update evt u) _ h in
      let (u2, e2, h2) =
        >>=-eq-ok
          (last_job_update S get_execution_history exec_id evt.execution_arn (resolve_update u1) s)
          _ h1 in
      let status : u2.status ≡ u1.status =
        last_job_update-status exec_id evt.execution_arn (resolve_update u1) u2 s e2
        ∙ resolve_update-status u1 in
      elim (Bool-cases (zero_value u2)) [
        | inl zero ↦ Follows-same id s s' (ok-injective (rw zero at h2))
        | inr some_update ↦
            update_state-Follows exec_id id u2 s s'
              (ap allowed status ∙ status_update-allowed evt u u1 a e1) (rw some_update at h2)
      ]

  handled-Follows :
      (evt : LoggedEvent) (s s' : S.State) (id : Text)
      → handle_history_event S get_execution_history evt s ≡ ok s'
      → Follows Advance id s s'
  unfolding handle_history_event
  handled-Follows evt s s' id h =
      let (exec_id, e1, h1) = >>=-eq-ok (exec_id_from_execution_arn evt.execution_arn) _ h in
      let (name, e2, h2) = >>=-eq-ok (state_machine_from_execution_arn evt.execution_arn) _ h1 in
      elim (Bool-cases (is_final evt.type)) [
        | inl final ↦ elim (Option-cases (parse_int evt.timestamp)) [
          | inl bad ↦ cc
          | inr (msec, good) ↦
              finish_update-Follows exec_id id evt
                (record no_attributes { stopped_at = some (unix_milli msec) }) s s' refl
                (rw (final, good) at h2)
        ]
        | inr other ↦ elim (Text-discrete evt.id (codes "2")) [
          | yes e ↦ update_state-Follows exec_id id running_update s s' refl (ground arith)
          | no ne ↦ finish_update-Follows exec_id id evt no_attributes s s' refl (ground arith)
        ]
      ]

  -- An event that is handled takes every workflow of the store by one step of the machine: it
  -- stays, it starts to run if it had not ended, or it ends.
  pub handle_history_event-Advance :
      (evt : LoggedEvent) (s s' : S.State) (id : Text) (wf : Workflow)
      → handle_history_event S get_execution_history evt s ≡ ok s'
      → S.get_workflow_by_id id s ≡ ok wf
      → (wf' : Workflow) × (S.get_workflow_by_id id s' ≡ ok wf') × Advance wf.status wf'.status
  handle_history_event-Advance evt s s' id wf h there = handled-Follows evt s s' id h wf there
