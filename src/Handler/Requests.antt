-- ===== src/Handler/Requests.antt =====
-- handler.go: the requests for definitions, state resources and workflows, on any store and manager.
-- executor/workflow_manager.go: the manager's interface.
pub mod Resume
use workflow_manager.Common.{
  ℕ, Text, ◌=?◌, ℤ, pos, Bool, true, false, not, List, [], ◌∷◌, Option, none, some, Result, ok, err,
  if◌then◌else◌, is_some,
}
use workflow_manager.Common.Run.{Run, pure, fail, lift, ◌>>=◌, ◌>>◌}
use workflow_manager.Common.Int.{ltb_ℤ}
use workflow_manager.Common.Maps.{Map}
use workflow_manager.Common.Strings.{codes}
use workflow_manager.Models.{
  Value, Time, Job, Workflow, WorkflowDefinition, StateMachine, StateResource, Error,
}
use workflow_manager.Resources.Create.{new_state_resource}
use workflow_manager.Resources.Graph.{flat, state_exists}
use workflow_manager.Resources.Status.{workflow_is_done, slice}
use workflow_manager.Handler.{has_job_started, validate_tags_map}
use workflow_manager.Handler.Descendants.{are_descendant_workflows_done}

-- What the handler calls of the store; reading changes nothing.
pub record Reads (World : Type 0) : Type 0 where
  pub get_workflow_definitions : World → Result Error (List WorkflowDefinition)
  pub get_workflow_definition : Text → ℤ → World → Result Error WorkflowDefinition
  pub latest_workflow_definition : Text → World → Result Error WorkflowDefinition
  pub get_workflow_definition_versions : Text → World → Result Error (List WorkflowDefinition)
  pub get_state_resource : Text → Text → World → Result Error StateResource
  pub save_state_resource : StateResource → Run World Error (Unit {0})
  pub delete_state_resource : Text → Text → Run World Error (Unit {0})
  pub get_workflow_by_id : Text → World → Result Error Workflow

-- `WorkflowManager`; the two updates change the workflow that they are given, and return it.
pub record WorkflowManager (World : Type 0) : Type 0 where
  pub create_workflow :
      WorkflowDefinition → Text → Text → Text → Map Text Value → Run World Error Workflow
  pub retry_workflow : Workflow → Text → Text → Run World Error Workflow
  pub cancel_workflow : Workflow → Text → Run World Error (Unit {0})
  pub update_workflow_summary : Workflow → Run World Error Workflow
  pub update_workflow_history : Workflow → Run World Error Workflow

-- `models.NewStateResource`
pub record NewStateResource : Type 0 where
  pub name : Text
  pub namespace : Text
  pub uri : Text

-- `StartWorkflowRequest`
pub record StartRequest : Type 0 where
  pub definition_name : Text
  pub definition_version : ℤ
  pub input : Text
  pub namespace : Text
  pub queue : Text
  pub tags : Map Text Value

abbrev pub or_default : Text → Text → Text
or_default text default = if text =? [] then default else text

unfoldable pub find_job : Text → List Job → Option Job
find_job start_at [] = none
find_job start_at (job ∷ jobs) = if job.state =? start_at then some job else find_job start_at jobs

abbrev pub has_state : Text → StateMachine → Bool
has_state name (StateMachine.machine comment start_at states timeout version) =
    state_exists name (flat states)

-- The last job, if it ran the state.
abbrev pub last_job_at : Text → Option Job → Option Job
last_job_at start_at none = none
last_job_at start_at (some job) = if start_at =? job.state then some job else none

-- A job must have been found, and must have started.
unfoldable pub started_job : Text → Option Job → Result Error Job
started_job start_at none = err (Error.external start_at)
started_job start_at (some job) =
    if not (has_job_started job.status) then err (Error.external job.id) else ok job

module _ {World : Type 0} (store : Reads World) where
  abbrev pub read : {A : Type 0} → (World → Result Error A) → Run World Error A
  read m w = (m w, w)

  unfoldable pub get_definition_versions_by_name :
      Bool → Text → World → Result Error (List WorkflowDefinition)
  get_definition_versions_by_name true name w = elim (store.latest_workflow_definition name w) [
    | ok def ↦ ok (def ∷ [])
    | err e ↦ err e
    | Result.panic ↦ Result.panic
    | Result.out_of_fuel ↦ Result.out_of_fuel
  ]
  get_definition_versions_by_name false name w = store.get_workflow_definition_versions name w

  unfoldable pub post_state_resource : Time → NewStateResource → Run World Error StateResource
  post_state_resource now i =
      let res = new_state_resource now i.name i.namespace i.uri in
      store.save_state_resource res >>= λ _. pure res

  -- The name and the namespace are those of the path.
  unfoldable pub put_state_resource :
      Time → Text → Text → NewStateResource → Run World Error StateResource
  put_state_resource now name namespace i =
      if not (name =? i.name)
      then fail (Error.bad_request (codes "StateResource.Name does not match name in path"))
      else if not (namespace =? i.namespace)
      then fail
          (Error.bad_request (codes "StateResource.Namespace does not match namespace in path"))
      else (let res = new_state_resource now i.name i.namespace i.uri in
          store.save_state_resource res >>= λ _. pure res)

  -- A version below 0 asks for the latest.
  abbrev pub requested : StartRequest → World → Result Error WorkflowDefinition
  requested req w =
      if ltb_ℤ req.definition_version (pos 0)
      then store.latest_workflow_definition req.definition_name w
      else store.get_workflow_definition req.definition_name req.definition_version w

  module _ (manager : WorkflowManager World) where
    unfoldable pub start_workflow : StartRequest → Run World Error Workflow
    start_workflow req = read (requested req) >>= λ def. lift (validate_tags_map req.tags) >>= λ _.
        manager.create_workflow def (or_default req.input (codes "{}")) req.namespace
          (or_default req.queue (codes "default")) req.tags

    unfoldable pub get_workflow_by_id : Text → Bool → Run World Error Workflow
    get_workflow_by_id id fetch_history = read (store.get_workflow_by_id id) >>= λ wf.
        (if fetch_history then manager.update_workflow_history wf else pure wf) >>= λ wf'.
        manager.update_workflow_summary wf'

    unfoldable pub cancel_workflow : Text → Text → Run World Error (Unit {0})
    cancel_workflow id reason =
        read (store.get_workflow_by_id id) >>= λ wf. manager.cancel_workflow wf reason

    -- The workflow with its jobs, which are loaded where they are nil.
    unfoldable pub with_jobs : Text → Workflow → Run World Error Workflow
    with_jobs id wf =
        if is_some wf.jobs
        then pure wf
        else (manager.update_workflow_history wf >>= λ _. read (store.get_workflow_by_id id))

    -- The workflow, and the job that ran the state.
    unfoldable pub find_original_job :
        Text → Text → Workflow → Option Job → Run World Error (Workflow × Option Job)
    unfolding with_jobs find_job
    find_original_job id start_at wf (some job) = pure (wf, some job)
    find_original_job id start_at wf none =
        with_jobs id wf >>= λ loaded. pure (loaded, find_job start_at (slice loaded.jobs))

    unfoldable pub resume_workflow_by_id : ℕ → Text → Text → Run World Error Workflow
    unfolding find_original_job started_job
    resume_workflow_by_id depth id start_at = read (store.get_workflow_by_id id) >>= λ wf.
        (if not (workflow_is_done wf) then fail (Error.external wf.id) else pure tt) >>= λ _.
        read (λ w. are_descendant_workflows_done (λ i. store.get_workflow_by_id i w) depth wf)
        >>= λ done. (if not done then fail (Error.external wf.id) else pure tt) >>= λ _.
            (if not (has_state start_at wf.workflow_definition.state_machine)
              then fail (Error.external start_at)
              else pure tt)
            >>= λ _.
                find_original_job id start_at wf (last_job_at start_at wf.last_job) >>= λ found.
                lift (started_job start_at found.1) >>= λ job.
                manager.retry_workflow found.0 start_at job.input
