-- ===== src/WfUpdater/Process/Defined.antt =====
-- `ProcessEvents` does not panic on a history whose events carry the details of their types.
use workflow_manager.Common.{
  ℕ, ◌<◌, zero, suc, ℕ_discrete, Bool, true, false, List, [], ◌∷◌, ◌++◌, Option, none, some, ok,
  ◌≡◌, refl, arith, All, subst, length, get_elem?, set, Option-cases, is_some, Returns, Returns->>=,
  Returns-ok, inl, inr, get_last?, length-append, map,
}
use workflow_manager.Common.Maps.{get, put, All-put, All-get}
use workflow_manager.Models.{Job, zero_job, Workflow}
use workflow_manager.WfUpdater.Events.{EventType, Group, group, HistoryEvent}
use workflow_manager.WfUpdater.Reason.{cause_and_error_name}
use workflow_manager.WfUpdater.Update.{
  update_at, update_job, enter, enter_details, schedule, retry, start, fail, fail_with, succeed,
  abort, exit,
}
use workflow_manager.WfUpdater.Process.{
  Progress, follow, event_at, append_job, store_job, process_event, process_from, process_events,
  read_jobs, no_progress,
}
use workflow_manager.WfUpdater.Process.Rounds.{round_at, process_event-round_at, get_elem?-fresh}
use workflow_manager.WfUpdater.Process.States.{
  entered_names, process_events-states, length-set, All-append, All-map, get_elem?-in_range,
}

-- The details that the code dereferences, or that it takes the job's resource from.
abbrev pub detailed_at : EventType → HistoryEvent → Bool
detailed_at EventType.task_state_entered evt = is_some evt.entered
detailed_at EventType.choice_state_entered evt = is_some evt.entered
detailed_at EventType.succeed_state_entered evt = is_some evt.entered
detailed_at EventType.task_state_exited evt = is_some evt.exited
detailed_at EventType.choice_state_exited evt = is_some evt.exited
detailed_at EventType.succeed_state_exited evt = is_some evt.exited
detailed_at EventType.task_submit_failed evt = is_some evt.failure
detailed_at EventType.activity_failed evt = is_some evt.failure
detailed_at EventType.lambda_function_failed evt = is_some evt.failure
detailed_at EventType.lambda_function_schedule_failed evt = is_some evt.failure
detailed_at EventType.lambda_function_start_failed evt = is_some evt.failure
detailed_at EventType.task_timed_out evt = is_some evt.failure
detailed_at EventType.activity_timed_out evt = is_some evt.failure
detailed_at EventType.lambda_function_timed_out evt = is_some evt.failure
detailed_at _ evt = true

abbrev pub IsDetailed : HistoryEvent → Type 0
IsDetailed evt = detailed_at evt.type evt ≡ true

abbrev HasResource : Job → Type 0
HasResource job = is_some job.state_resource ≡ true

update_at-Returns :
    (t : EventType) (wf : Workflow) (evt : HistoryEvent) (old : Job)
    → detailed_at t evt ≡ true
    → HasResource old
    → Returns HasResource (update_at t wf evt old)
unfolding update_at cause_and_error_name schedule retry start fail fail_with succeed abort exit
    enter enter_details
update_at-Returns EventType.task_scheduled wf evt old d r = ground arith
update_at-Returns _ wf evt old d r = ground arith

update_at-entering_Returns :
    (t : EventType) (wf : Workflow) (evt : HistoryEvent) (old : Job)
    → group t ≡ Group.entering
    → detailed_at t evt ≡ true
    → Returns HasResource (update_at t wf evt old)
unfolding update_at group enter enter_details
update_at-entering_Returns EventType.task_state_entered wf evt old g d = ground arith
update_at-entering_Returns EventType.choice_state_entered wf evt old g d = ground arith
update_at-entering_Returns EventType.succeed_state_entered wf evt old g d = ground arith
update_at-entering_Returns _ wf evt old g d = cc

-- Every job has a resource, and every pointer leads to a job.
record IsGood (p : Progress) : Type 0 where
  resources : All HasResource p.heap
  in_jobs : All (λ a. a < length p.heap) p.jobs
  in_ids : All (λ e. e.1 < length p.heap) p.ids

All-get_elem? :
    (P : Job → Type 0) (heap : List Job) (a : ℕ) (job : Job)
    → All P heap
    → get_elem? heap a ≡ some job
    → P job
All-get_elem? P [] a job h found = cc
All-get_elem? P (x ∷ heap) zero job h found = subst P (ground arith) h.0
All-get_elem? P (x ∷ heap) (suc a) job h found = All-get_elem? P heap a job h.1 found

All-set :
    (P : Job → Type 0) (heap : List Job) (a : ℕ) (new : Job)
    → All P heap
    → P new
    → All P (set heap a new)
All-set P [] a new h p = tt
All-set P (x ∷ heap) zero new h p = (p, h.1)
All-set P (x ∷ heap) (suc a) new h p = (h.0, All-set P heap a new h.1 p)

All-set_fresh :
    (P : Job → Type 0) (heap : List Job) (new : Job)
    → All P heap
    → P new
    → All P (set (heap ++ zero_job ∷ []) (length heap) new)
All-set_fresh P [] new h p = (p, tt)
All-set_fresh P (x ∷ heap) new h p = (h.0, All-set_fresh P heap new h.1 p)

All-get_last? : (P : ℕ → Type 0) (xs : List ℕ) (a : ℕ) → All P xs → get_last? xs ≡ some a → P a
All-get_last? P [] a h last = cc
All-get_last? P (x ∷ []) a h last = subst P (ground arith) h.0
All-get_last? P (x ∷ y ∷ xs) a h last = All-get_last? P (y ∷ xs) a h.1 last

below_suc : (a n : ℕ) → a < n → a < suc n
below_suc a n h = omega arith

abbrev with_fresh_job : HistoryEvent → Job → Progress → Progress
with_fresh_job evt new p = record {
  heap = set (p.heap ++ zero_job ∷ []) (length p.heap) new;
  ids = put ℕ_discrete evt.id (length p.heap) p.ids;
  jobs = p.jobs ++ length p.heap ∷ [];
}

module _ (wf : Workflow) (evt : HistoryEvent) (d : IsDetailed evt) where
  fresh_job-IsGood :
      (new : Job) (p : Progress) → IsGood p → HasResource new → IsGood (with_fresh_job evt new p)
  fresh_job-IsGood new p g r =
      let fresh = length p.heap in
      let longer : length (set (p.heap ++ zero_job ∷ []) fresh new) ≡ suc fresh = omega (
        arith,
        length-set (p.heap ++ zero_job ∷ []) fresh new,
        length-append p.heap (zero_job ∷ []),
      ) in
      let wider = λ (a : ℕ) (lt : a < fresh). below_suc a fresh lt in
      record {
        resources = All-set_fresh HasResource p.heap new g.resources r;
        in_jobs = rw longer (
            All-append (λ a. a < suc fresh) p.jobs (fresh ∷ [])
              (All-map (λ a. a < fresh) (λ a. a < suc fresh) p.jobs wider g.in_jobs)
              (omega arith, tt));
        in_ids = rw longer (
            All-put ℕ_discrete (λ e. e.1 < suc fresh) evt.id fresh p.ids (omega arith)
              (All-map (λ e. e.1 < fresh) (λ e. e.1 < suc fresh) p.ids (λ e lt. wider e.1 lt)
                g.in_ids));
      }

  -- The job at a pointer into the store is brought up to date.
  store_job-IsGood :
      (a : ℕ) (p : Progress)
      → a < length p.heap
      → IsGood p
      → Returns IsGood (store_job wf evt (some a) p)
  unfolding store_job update_job
  store_job-IsGood a p lt g = elim (Option-cases (get_elem? p.heap a)) [
    | inl gone ↦ absurd (get_elem?-in_range p.heap a lt gone)
    | inr (old, found) ↦
        rw (found, store_job)
          (Returns->>= HasResource IsGood (update_at evt.type wf evt old)
            (λ new. ok (record p { heap = set p.heap a new }))
            (update_at-Returns evt.type wf evt old d
              (All-get_elem? HasResource p.heap a old g.resources found))
            (λ new r. record {
              resources = All-set HasResource p.heap a new g.resources r;
              in_jobs = rw (length-set p.heap a new) g.in_jobs;
              in_ids = rw (length-set p.heap a new) g.in_ids;
            }))
  ]

  follow-IsGood :
      (parent : Option ℕ) (p : Progress)
      → IsGood p
      → ((a : ℕ) → parent ≡ some a → a < length p.heap)
      → Returns IsGood
          (let (job, p') = follow parent evt p in store_job wf evt job (append_job false job p'))
  unfolding follow append_job store_job
  follow-IsGood none p g inside = g
  follow-IsGood (some a) p g inside =
      let lt = inside a refl in
      store_job-IsGood a (record p { ids = put ℕ_discrete evt.id a p.ids }) lt
        (record {
          resources = g.resources;
          in_jobs = g.in_jobs;
          in_ids = All-put ℕ_discrete (λ e. e.1 < length p.heap) evt.id a p.ids lt g.in_ids;
        })

  last-IsGood :
      (job : Option ℕ) (p : Progress)
      → IsGood p
      → ((a : ℕ) → job ≡ some a → a < length p.heap)
      → Returns IsGood (store_job wf evt job (append_job false job p))
  unfolding append_job store_job
  last-IsGood none p g inside = g
  last-IsGood (some a) p g inside = store_job-IsGood a p (inside a refl) g

  enter-IsGood :
      (p : Progress)
      → group evt.type ≡ Group.entering
      → IsGood p
      → Returns IsGood (round_at wf evt p Group.entering)
  unfolding event_at append_job store_job update_job
  enter-IsGood p e g =
      rw (get_elem?-fresh p.heap zero_job, store_job)
        (Returns->>= HasResource IsGood (update_at evt.type wf evt zero_job) _
          (update_at-entering_Returns evt.type wf evt zero_job e d)
          (λ new r. fresh_job-IsGood new p g r))

  round_at-IsGood :
      (k : Group) (p : Progress)
      → group evt.type ≡ k
      → IsGood p
      → Returns IsGood (round_at wf evt p k)
  unfolding event_at append_job store_job
  round_at-IsGood Group.ignored p e g = g
  round_at-IsGood Group.execution_level p e g =
      last-IsGood (get_last? p.jobs) p g
        (λ a last. All-get_last? (λ x. x < length p.heap) p.jobs a g.in_jobs last)
  round_at-IsGood Group.following p e g =
      follow-IsGood (get ℕ_discrete evt.previous_event_id p.ids) p g (λ a found.
        All-get ℕ_discrete (λ x. x < length p.heap) evt.previous_event_id a p.ids g.in_ids found)
  round_at-IsGood Group.entering p e g = enter-IsGood p e g

process_from-IsGood :
    (wf : Workflow) (events : List HistoryEvent) (p : Progress)
    → All IsDetailed events
    → IsGood p
    → Returns IsGood (process_from wf events p)
unfolding process_from
process_from-IsGood wf [] p d g = g
process_from-IsGood wf (evt ∷ events) p d g =
    Returns->>= IsGood IsGood (process_event wf evt p) (λ p'. process_from wf events p')
      (rw (process_event-round_at wf evt p) (round_at-IsGood wf evt d.0 (group evt.type) p refl g))
      (λ p' g'. process_from-IsGood wf events p' d.1 g')

-- On a history whose events carry the details of their types, for a workflow whose definition and
-- state machine are not nil, `ProcessEvents` returns. The jobs that it returns are one for each task, choice or succeed
-- state entered, in the order of the events, each with the name of its state.
pub process_events-returns :
    (wf : Workflow) (events : List HistoryEvent)
    → All IsDetailed events
    → (p : Progress) × (process_events wf events no_progress ≡ ok p)
      × (map (λ job. job.state) (read_jobs p.heap p.jobs) ≡ entered_names events)
unfolding process_events
process_events-returns wf events d =
    let (p, e, _) = Returns-ok IsGood (process_from wf events no_progress) (
      process_from-IsGood wf events no_progress d
        (record { resources = tt; in_jobs = tt; in_ids = tt })) in
    (p, e, process_events-states wf events no_progress p e)
