-- ===== src/Examples/Resumptions.antt =====
-- A failed workflow with one retry that is done, and its resumption.
use workflow_manager.Common.{
  ℕ, Text, Text-discrete, pos, Bool, true, false, List, [], ◌∷◌, Option, none, some, Result, ok,
  err, ◌≡◌, refl, ite, ◌↔◌,
}
use workflow_manager.Common.Strings.{codes}
use workflow_manager.Models.{
  Job, zero_job, JobStatus, Workflow, WorkflowStatus, StateMachine, States, State, Branches,
  MachinePtr, Error,
}
use workflow_manager.Examples.Histories.{a_workflow, a_definition}
use workflow_manager.Examples.Machines.{second}
use workflow_manager.Resources.Status.{workflow_is_done}
use workflow_manager.Handler.{has_job_started}
use workflow_manager.Handler.Descendants.{
  Descendant, IsTree, are_descendant_workflows_done, are_descendant_workflows_done_iff,
}
use workflow_manager.Handler.Requests.{Reads, WorkflowManager, has_state, resume_workflow_by_id}
use workflow_manager.Handler.Requests.Resume.{Original, HasStarted, resume_workflow_by_id_sound}

abbrev retry_of : Workflow
retry_of = a_workflow (codes "r") WorkflowStatus.failed

abbrev ran : Job
ran = record zero_job { state = codes "second"; status = JobStatus.failed; input = codes "in" }

abbrev machine_of_one : StateMachine
machine_of_one =
    StateMachine.machine [] (codes "second")
      (States.cons (codes "second") (State.state second Branches.none_left MachinePtr.null)
        States.nil)
      (pos 0) []

abbrev original : Workflow
original = record (a_workflow (codes "w") WorkflowStatus.failed) {
  retries = codes "r" ∷ [];
  last_job = some ran;
  workflow_definition = record a_definition { state_machine = machine_of_one };
}

abbrev look_up : Text → Result Error Workflow
look_up id =
    ite (Text-discrete id (codes "w")) (ok original)
      (ite (Text-discrete id (codes "r")) (ok retry_of) (err (Error.not_found id)))

two_deep : IsTree look_up 2 original.retries
unfolding Text-discrete
two_deep = ((retry_of, refl, tt), tt)

are_descendant_workflows_done_iff_example :
    (b : Bool) × (are_descendant_workflows_done look_up 2 original ≡ ok b)
    × ((b ≡ true) ↔ ((d : Workflow) → Descendant look_up original d → workflow_is_done d ≡ true))
are_descendant_workflows_done_iff_example =
    are_descendant_workflows_done_iff look_up 2 original two_deep

abbrev World : Type 0
World = List Text

abbrev reads : Reads World
reads = record {
  get_workflow_definitions = λ w. ok [];
  get_workflow_definition = λ name version w. err (Error.not_found name);
  latest_workflow_definition = λ name w. err (Error.not_found name);
  get_workflow_definition_versions = λ name w. err (Error.not_found name);
  get_state_resource = λ name namespace w. err (Error.not_found name);
  save_state_resource = λ res w. (ok tt, w);
  delete_state_resource = λ name namespace w. (ok tt, w);
  get_workflow_by_id = λ id w. look_up id;
}

-- The manager keeps the inputs that it is given.
abbrev manager : WorkflowManager World
manager = record {
  create_workflow = λ def input namespace queue tags w. (ok retry_of, input ∷ w);
  retry_workflow = λ wf start_at input w. (ok retry_of, input ∷ w);
  cancel_workflow = λ wf reason w. (ok tt, w);
  update_workflow_summary = λ wf w. (ok wf, w);
  update_workflow_history = λ wf w. (ok wf, w);
}

resumed :
    resume_workflow_by_id reads manager 2 (codes "w") (codes "second") []
    ≡ (ok retry_of, codes "in" ∷ [])
unfolding resume_workflow_by_id Text-discrete workflow_is_done
    workflow_manager.Resources.Status.jobs_are_done
    workflow_manager.Resources.Status.workflow_status_is_done
    workflow_manager.Handler.Descendants.descendants_done
    workflow_manager.Resources.Graph.state_exists workflow_manager.Common.Maps.get
    workflow_manager.Resources.Graph.flat has_job_started
resumed = refl

resume_workflow_by_id_sound_example :
    (wf : Workflow) × (reads.get_workflow_by_id (codes "w") [] ≡ ok wf)
    × (workflow_is_done wf ≡ true)
    × ((d : Workflow)
        → Descendant (λ i. reads.get_workflow_by_id i []) wf d
        → workflow_is_done d ≡ true)
    × (has_state (codes "second") wf.workflow_definition.state_machine ≡ true)
    × ((from : Workflow) × (job : Job) × (before : World) × Original reads manager
          (codes "w")
          (codes "second")
          wf
          []
          from
          job
          before
        × HasStarted job
        × (manager.retry_workflow from (codes "second") job.input before
            ≡ (ok retry_of, codes "in" ∷ [])))
resume_workflow_by_id_sound_example =
    resume_workflow_by_id_sound reads manager 2 (codes "w") (codes "second") [] (codes "in" ∷ [])
      retry_of resumed
