-- ===== src/Handler/Requests/Resume.antt =====
-- handler.go: what holds when `ResumeWorkflowByID` hands a workflow to the manager.
use workflow_manager.Common.{
  ◌≢◌, ◌⊎◌, inl, inr, sym, subst, Bool-cases, is_some, ℕ, Text, Text-discrete, Bool, true, false,
  not, List, [], ◌∷◌, Option, none, some, ok, ◌≡◌, ap, ◌∙◌, arith, ok-injective,
}
use workflow_manager.Common.Run.{continue-eq-ok, continue-guard}
use workflow_manager.Models.{Job, JobStatus, Workflow}
use workflow_manager.Resources.Status.{workflow_is_done, slice}
use workflow_manager.Handler.{has_job_started}
use workflow_manager.Handler.Descendants.{
  Descendant, are_descendant_workflows_done, descendants-true,
}
use workflow_manager.Handler.Requests.{
  Reads, WorkflowManager, find_job, has_state, last_job_at, started_job, with_jobs,
  find_original_job, resume_workflow_by_id,
}

-- The first job of a list that ran a state.
pub data IsFirstAt (start_at : Text) (job : Job) : List Job → Type 0 where
  first : {jobs : List Job} → job.state ≡ start_at → IsFirstAt start_at job (job ∷ jobs)
  later :
      {j : Job} {jobs : List Job}
      → j.state ≢ start_at
      → IsFirstAt start_at job jobs
      → IsFirstAt start_at job (j ∷ jobs)

-- A job that has started: none of the four statuses of a job that has not.
abbrev pub HasStarted : Job → Type 0
HasStarted job =
    (job.status ≢ JobStatus.created)
    × (job.status ≢ JobStatus.queued)
    × (job.status ≢ JobStatus.waiting_for_deps)
    × (job.status ≢ JobStatus.aborted_deps_failed)

has_job_started-HasStarted : (job : Job) → has_job_started job.status ≡ true → HasStarted job
unfolding has_job_started
has_job_started-HasStarted job h = (
  λ e. cc (ap has_job_started (sym e) ∙ h),
  λ e. cc (ap has_job_started (sym e) ∙ h),
  λ e. cc (ap has_job_started (sym e) ∙ h),
  λ e. cc (ap has_job_started (sym e) ∙ h),
)

-- The job is one of the list, and the first that ran the state: none of those in front of it did.
find_job-split :
    (start_at : Text) (jobs : List Job) (job : Job)
    → find_job start_at jobs ≡ some job
    → IsFirstAt start_at job jobs
unfolding find_job
find_job-split start_at [] job h = cc
find_job-split start_at (j ∷ jobs) job h = elim (Text-discrete j.state start_at) [
  | yes e ↦
      let same : j ≡ job = ground arith in
      subst (λ x. IsFirstAt start_at x (j ∷ jobs)) same (IsFirstAt.first e)
  | no ne ↦ IsFirstAt.later ne (find_job-split start_at jobs job (ground arith))
]

last_job_at-last :
    (start_at : Text) (last : Option Job) (job : Job)
    → last_job_at start_at last ≡ some job
    → (last ≡ some job) × (job.state ≡ start_at)
last_job_at-last start_at none job h = cc
last_job_at-last start_at (some j) job h = elim (Text-discrete start_at j.state) [
  | yes e ↦ (ground arith, ground arith)
  | no ne ↦ ground arith
]

started_job-ok :
    (start_at : Text) (found : Option Job) (job : Job)
    → started_job start_at found ≡ ok job
    → (found ≡ some job) × (has_job_started job.status ≡ true)
unfolding started_job
started_job-ok start_at none job h = cc
started_job-ok start_at (some j) job h = (ground arith, ground arith)

is_some-false : (o : Option (List Job)) → is_some o ≡ false → o ≡ none
is_some-false o h = ground arith

module _ {World : Type 0} (store : Reads World) (manager : WorkflowManager World) where
  -- Where the workflow that is handed on comes from, and the state it is handed on in: it is the one that
  -- was found, or, if that has no jobs, the one that the store has after the history was stored.
  abbrev pub Loaded : Text → Workflow → World → Workflow → World → Type 0
  Loaded id wf w from before =
      ((from ≡ wf) × (before ≡ w))
      ⊎ ((wf.jobs ≡ none)
          × ((x : Workflow) × (manager.update_workflow_history wf w ≡ (ok x, before)))
          × (store.get_workflow_by_id id before ≡ ok from))

  -- The job is the last job of the workflow that was found, or else the first that ran the state among
  -- the jobs of the workflow that is handed on.
  abbrev pub Original : Text → Text → Workflow → World → Workflow → Job → World → Type 0
  Original id start_at wf w from job before =
      ((from ≡ wf) × (before ≡ w) × (wf.last_job ≡ some job) × (job.state ≡ start_at))
      ⊎ (IsFirstAt start_at job (slice from.jobs) × Loaded id wf w from before)

  with_jobs-Loaded :
      (id : Text) (wf : Workflow) (w : World) (from : Workflow) (before : World)
      → with_jobs store manager id wf w ≡ (ok from, before)
      → Loaded id wf w from before
  unfolding with_jobs
  with_jobs-Loaded id wf w from before h = elim (Bool-cases (is_some wf.jobs)) [
    | inl there ↦
        let r = rw there at h in inl (sym (ok-injective (ap (λ r. r.0) r)), sym (ap (λ r. r.1) r))
    | inr gone ↦
        let (x, w1, stored, h1) =
          continue-eq-ok (manager.update_workflow_history wf w) _ (rw gone at h) in
        let same : w1 ≡ before = ap (λ r. r.1) h1 in
        inr (
          is_some-false wf.jobs gone,
          (x, subst (λ v. manager.update_workflow_history wf w ≡ (ok x, v)) same stored),
          subst (λ v. store.get_workflow_by_id id v ≡ ok from) same (ap (λ r. r.0) h1),
        )
  ]

  find_original_job-Original :
      (id start_at : Text) (wf : Workflow) (last : Option Job) (w w' : World)
      (found : Workflow × Option Job) (job : Job)
      → ((j : Job) → last ≡ some j → (wf.last_job ≡ some j) × (j.state ≡ start_at))
      → find_original_job store manager id start_at wf last w ≡ (ok found, w')
      → found.1 ≡ some job
      → Original id start_at wf w found.0 job w'
  unfolding find_original_job
  find_original_job-Original id start_at wf (some j) w w' found job last h e =
      let same : (wf, some j) ≡ found = ok-injective (ap (λ r. r.0) h) in
      let (is_last, at) = last job (ap (λ p. p.1) same ∙ e) in
      inl (sym (ap (λ p. p.0) same), sym (ap (λ r. r.1) h), is_last, at)
  find_original_job-Original id start_at wf none w w' found job last h e =
      let (loaded, w1, made, h1) = continue-eq-ok (with_jobs store manager id wf w) _ h in
      let same : (loaded, find_job start_at (slice loaded.jobs)) ≡ found =
        ok-injective (ap (λ r. r.0) h1) in
      let same_world : w1 ≡ w' = ap (λ r. r.1) h1 in
      inr (
        subst (λ (v : Workflow). IsFirstAt start_at job (slice v.jobs)) (ap (λ p. p.0) same)
            (find_job-split start_at (slice loaded.jobs) job (ap (λ p. p.1) same ∙ e)),
        subst (λ v. Loaded id wf w v w') (ap (λ p. p.0) same)
            (subst (Loaded id wf w loaded) same_world (with_jobs-Loaded id wf w loaded w1 made)),
      )

  -- A workflow is handed to the manager to be run again only if it was found and is done, every workflow
  -- that is a retry of it, or a retry of a retry, and so on, is done, and the state to start at is one
  -- of its machine. The input is then that of a job that ran this state and that had started: the last
  -- job of the workflow, or else the first that ran it among the jobs of the workflow that is handed on,
  -- which is the one found, or, if that had no jobs, the one in the store after its history was stored.
  pub resume_workflow_by_id_sound :
      (depth : ℕ) (id start_at : Text) (w w' : World) (new : Workflow)
      → resume_workflow_by_id store manager depth id start_at w ≡ (ok new, w')
      → (wf : Workflow) × (store.get_workflow_by_id id w ≡ ok wf)
        × (workflow_is_done wf ≡ true)
        × ((d : Workflow)
            → Descendant (λ i. store.get_workflow_by_id i w) wf d
            → workflow_is_done d ≡ true)
        × (has_state start_at wf.workflow_definition.state_machine ≡ true)
        × ((from : Workflow) × (job : Job) × (before : World) × Original id start_at wf w from job
              before
            × HasStarted job
            × (manager.retry_workflow from start_at job.input before ≡ (ok new, w')))
  unfolding resume_workflow_by_id
  resume_workflow_by_id_sound depth id start_at w w' new h =
      let (wf, w1, found, h1) = continue-eq-ok (store.get_workflow_by_id id w, w) _ h in
      let (done, h2) = continue-guard (not (workflow_is_done wf)) _ w1 _ h1 in
      let (below, w2, searched, h3) =
        continue-eq-ok
          (are_descendant_workflows_done (λ i. store.get_workflow_by_id i w1) depth wf, w1) _ h2 in
      let (all, h4) = continue-guard (not below) _ w2 _ h3 in
      let (there, h5) =
        continue-guard (not (has_state start_at wf.workflow_definition.state_machine)) _ w2 _ h4 in
      let (original, w3, looked, h6) =
        continue-eq-ok
          (find_original_job store manager id start_at wf (last_job_at start_at wf.last_job) w2) _
          h5 in
      let (job, w4, started, h7) = continue-eq-ok (started_job start_at original.1, w3) _ h6 in
      let (is_job, has_started) = started_job-ok start_at original.1 job (ap (λ r. r.0) started) in
      let same_world : w ≡ w1 = ap (λ r. r.1) found in
      let same_searched : w ≡ w2 = same_world ∙ ap (λ r. r.1) searched in
      let same_before : w3 ≡ w4 = ap (λ r. r.1) started in
      let original_job : Original id start_at wf w original.0 job w3 =
        find_original_job-Original id start_at wf (last_job_at start_at wf.last_job) w w3 original
          job (λ j. last_job_at-last start_at wf.last_job j)
          (ap (find_original_job store manager id start_at wf (last_job_at start_at wf.last_job))
              same_searched
            ∙ looked)
          is_job in
      let searched_all : are_descendant_workflows_done (λ i. store.get_workflow_by_id i w) depth wf
          ≡ ok true =
        ap (λ v. are_descendant_workflows_done (λ i. store.get_workflow_by_id i v) depth wf)
          same_world
        ∙ ap (λ r. r.0) searched
        ∙ ap ok (holds below all) in
      (
        wf,
        ap (λ r. r.0) found,
        holds (workflow_is_done wf) done,
        λ d r. descendants-true (λ i. store.get_workflow_by_id i w) depth wf d searched_all r,
        holds (has_state start_at wf.workflow_definition.state_machine) there,
        (
          original.0,
          job,
          w4,
          subst (λ v. Original id start_at wf w original.0 job v) same_before original_job,
          has_job_started-HasStarted job has_started,
          h7,
        ),
      )
    where
      holds : (b : Bool) → not b ≡ false → b ≡ true
      holds b h = ground arith
