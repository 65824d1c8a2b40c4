-- ===== src/Executor/Workflows.antt =====
-- executor/workflow_manager_sfn.go: `CancelWorkflow`, `UpdateWorkflowHistory`, and the tags of a
-- workflow that `CreateWorkflow` makes. The service's answers and the store's `UpdateWorkflow` are
-- parameters.
use workflow_manager.Common.{
  ◌⊎◌, panic, out_of_fuel, ◌≢◌, Text, Text-discrete, Bool, true, false, List, [], ◌∷◌, Option, none,
  some, Result, ok, err, ◌>>=◌, if◌then◌else◌, ◌≡◌, refl, ◌∙◌, arith, ite, subst,
}
use workflow_manager.Common.Run.{Run, fail, ◌>>=◌ as ◌>>>=◌}
use workflow_manager.Common.Maps.{Map, get, put, get-put}
use workflow_manager.Models.{Value, Time, Workflow, StateMachine, WorkflowStatus, Error}
use workflow_manager.WfUpdater.Events.{HistoryEvent}
use workflow_manager.WfUpdater.Process.{process_pages, no_progress, read_jobs}
use workflow_manager.Store.Memory.{MemoryStore, update_workflow, get_workflow_by_id}
use workflow_manager.Executor.Conventions.{state_machine_name, execution_arn}

abbrev pub is_over : WorkflowStatus → Bool
is_over WorkflowStatus.succeeded = true
is_over WorkflowStatus.failed = true
is_over _ = false

abbrev pub start_of : StateMachine → Text
start_of (StateMachine.machine comment start_at states timeout version) = start_at

-- What the manager works on here: AWS, and the store, whose methods leave it as it was on an error.
abbrev pub in_world : {World Store A : Type 0} → Run World Error A → Run (World × Store) Error A
in_world m (w, s) = let r = m w in (r.0, (r.1, s))

abbrev pub kept_in_store :
    {World Store : Type 0}
    → Result Error Store
    → World × Store
    → Result Error (Unit {0}) × (World × Store)
kept_in_store (ok s') (w, s) = (ok tt, (w, s'))
kept_in_store (err e) (w, s) = (err e, (w, s))
kept_in_store panic (w, s) = (panic, (w, s))
kept_in_store out_of_fuel (w, s) = (out_of_fuel, (w, s))

abbrev pub in_store :
    {World Store : Type 0} → (Store → Result Error Store) → Run (World × Store) Error (Unit {0})
in_store m (w, s) = kept_in_store (m s) (w, s)

module _ (Store : Type 0) (region account_id : Text)
    (update_workflow : Workflow → Store → Result Error Store) where
  unfoldable pub execution_arn_of : Workflow → Text
  execution_arn_of wf =
      execution_arn region account_id
        (state_machine_name wf.workflow_definition.name wf.workflow_definition.version wf.namespace
          (start_of wf.workflow_definition.state_machine))
        wf.id

  -- `stop` is `StopExecution`, of an execution and for a cause.
  unfoldable pub cancel_workflow :
      {World : Type 0}
      → (Text → Text → Run World Error (Unit {0}))
      → Workflow
      → Text
      → Run (World × Store) Error (Unit {0})
  cancel_workflow stop wf reason =
      if is_over wf.status
      then fail (Error.bad_request wf.id)
      else (in_world (stop (execution_arn_of wf) reason) >>>= λ _.
          in_store
            (update_workflow (record wf { status_reason = reason; resolved_by_user = true })))

  -- `pages` are those of `GetExecutionHistoryPages`; `none` is an execution that does not exist.
  unfoldable pub update_workflow_history :
      (Text → Result Error (Option (List (List HistoryEvent))))
      → Workflow
      → Store
      → Result Error Store
  update_workflow_history pages wf s = pages (execution_arn_of wf) >>= λ found. elim found [
    | none ↦ ok s
    | some history ↦ process_pages wf history no_progress >>= λ p.
        update_workflow (record wf { jobs = some (read_jobs p.heap p.jobs) }) s
  ]

-- The definition's tags, overwritten by those of the request.
unfoldable pub merge_tags : Map Text Value → Map Text Value → Map Text Value
merge_tags defaults [] = defaults
merge_tags defaults ((k, v) ∷ tags) = merge_tags (put Text-discrete k v defaults) tags

merge_tags-none :
    (k : Text) (defaults tags : Map Text Value)
    → get Text-discrete k tags ≡ none
    → get Text-discrete k (merge_tags defaults tags) ≡ get Text-discrete k defaults
unfolding merge_tags get
merge_tags-none k defaults [] h = refl
merge_tags-none k defaults ((j, v) ∷ tags) h =
    merge_tags-none k (put Text-discrete j v defaults) tags (ground arith)
    ∙ ground (arith, get-put Text-discrete j k v defaults)

-- Each key is there once, as in a Go map.
abbrev pub IsDistinct : Map Text Value → Type 0
IsDistinct [] = Unit
IsDistinct ((k, v) ∷ tags) = (get Text-discrete k tags ≡ none) × IsDistinct tags

abbrev pub first_of : Option Value → Option Value → Option Value
first_of none default = default
first_of (some v) default = some v

-- A merged tag is the request's, or else the definition's.
pub get-merge_tags :
    (k : Text) (defaults tags : Map Text Value)
    → IsDistinct tags
    → get Text-discrete k (merge_tags defaults tags)
      ≡ first_of (get Text-discrete k tags) (get Text-discrete k defaults)
unfolding merge_tags get
get-merge_tags k defaults [] d = refl
get-merge_tags k defaults ((j, v) ∷ tags) d = elim (Text-discrete j k) [
  | yes e ↦
      merge_tags-none k (put Text-discrete j v defaults) tags
        (subst (λ x. get Text-discrete x tags ≡ none) e d.0)
      ∙ ground (arith, get-put Text-discrete j k v defaults)
  | no ne ↦
      get-merge_tags k (put Text-discrete j v defaults) tags d.1
      ∙ ground (arith, get-put Text-discrete j k v defaults)
]

module _ {World : Type 0} (region account_id : Text) (now : Time)
    (stop : Text → Text → Run World Error (Unit {0})) (wf : Workflow) (reason : Text) where
  abbrev cancelled : Workflow
  cancelled = record wf { status_reason = reason; resolved_by_user = true }

  abbrev arn_of : Text
  arn_of = execution_arn_of MemoryStore region account_id (update_workflow now) wf

  -- What a cancellation may come to: the states before, the result and the states after.
  abbrev pub Cancels :
      World × MemoryStore → Result Error (Unit {0}) × (World × MemoryStore) → Type 0
  Cancels (w, s) (ok u, (w', s')) =
      (wf.status ≢ WorkflowStatus.succeeded)
      × (wf.status ≢ WorkflowStatus.failed)
      × (stop arn_of reason w ≡ (ok tt, w'))
      × ((id : Text)
          → get_workflow_by_id id s'
            ≡ ite (Text-discrete wf.id id) (ok (record cancelled { last_updated = now }))
                (get_workflow_by_id id s))
  Cancels (w, s) (r, (w', s')) =
      (s' ≡ s)
      × (((w' ≡ w) × ((wf.status ≡ WorkflowStatus.succeeded) ⊎ (wf.status ≡ WorkflowStatus.failed)))
          ⊎ ((stop arn_of reason w).1 ≡ w'))
