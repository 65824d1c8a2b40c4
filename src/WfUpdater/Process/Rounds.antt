-- ===== src/WfUpdater/Process/Rounds.antt =====
-- What one round of `ProcessEvents` does to the store of jobs and to the slice that it returns.
use workflow_manager.Common.{
  ℕ, ℕ_discrete, Bool, true, false, List, [], ◌∷◌, ◌++◌, Option, none, some, ok, ◌≡◌, ◌≢◌, refl,
  arith, sym, ap, ◌∙◌, subst, length, get_elem?, set, Option-cases, >>=-eq-ok, ok-injective, Result,
  ◌>>=◌, inl, inr, get_last?,
}
use workflow_manager.Common.Maps.{Map, get, put}
use workflow_manager.Models.{Job, zero_job, Workflow, Error}
use workflow_manager.WfUpdater.Events.{Group, group, HistoryEvent, is_supported_state_entered_event}
use workflow_manager.WfUpdater.Update.{update_job}
use workflow_manager.WfUpdater.Process.{
  Progress, follow, event_at, append_job, store_job, process_event,
}

abbrev pub is_entering : Group → Bool
is_entering Group.entering = true
is_entering Group.ignored = false
is_entering Group.execution_level = false
is_entering Group.following = false

pub supported-group :
    (evt : HistoryEvent) → is_supported_state_entered_event evt ≡ is_entering (group evt.type)
unfolding is_supported_state_entered_event group
supported-group evt = ground arith

-- What a round that succeeds did: it made a job, or brought one up to date, or changed no job.
pub data Round (wf : Workflow) (evt : HistoryEvent) (p q : Progress) : Type 0 where
  made :
      (new : Job)
      → group evt.type ≡ Group.entering
      → update_job wf evt zero_job ≡ ok new
      → q.heap ≡ set (p.heap ++ zero_job ∷ []) (length p.heap) new
      → q.jobs ≡ p.jobs ++ length p.heap ∷ []
      → Round wf evt p q
  updated :
      (a : ℕ) (old new : Job)
      → group evt.type ≢ Group.entering
      → get_elem? p.heap a ≡ some old
      → update_job wf evt old ≡ ok new
      → q.heap ≡ set p.heap a new
      → q.jobs ≡ p.jobs
      → Round wf evt p q
  unchanged : group evt.type ≢ Group.entering → q.heap ≡ p.heap → q.jobs ≡ p.jobs → Round wf evt p q

pub get_elem?-fresh :
    (heap : List Job) (x : Job) → get_elem? (heap ++ x ∷ []) (length heap) ≡ some x
get_elem?-fresh [] x = refl
get_elem?-fresh (y ∷ heap) x = get_elem?-fresh heap x

-- The round of `process_event`, with the group of the event as an argument.
abbrev pub round_at : Workflow → HistoryEvent → Progress → Group → Result Error Progress
round_at wf evt p g =
    let (job, p') = event_at g evt p in store_job wf evt job (append_job (is_entering g) job p')

pub process_event-round_at :
    (wf : Workflow) (evt : HistoryEvent) (p : Progress)
    → process_event wf evt p ≡ round_at wf evt p (group evt.type)
unfolding process_event
process_event-round_at wf evt p =
    let (job, p') = event_at (group evt.type) evt p in
    ap (λ b. store_job wf evt job (append_job b job p')) (supported-group evt)

pub store_job-some :
    (wf : Workflow) (evt : HistoryEvent) (a : ℕ) (p q : Progress)
    → store_job wf evt (some a) p ≡ ok q
    → (old : Job) × (new : Job) × (get_elem? p.heap a ≡ some old)
      × (update_job wf evt old ≡ ok new)
      × (q ≡ record p { heap = set p.heap a new })
unfolding store_job
store_job-some wf evt a p q h = elim (Option-cases (get_elem? p.heap a)) [
  | inl gone ↦ absurd (ground arith)
  | inr (old, found) ↦
      let rest : (update_job wf evt old >>= λ new. ok (record p { heap = set p.heap a new }))
          ≡ ok q =
        ground arith in
      let (new, e, last) = >>=-eq-ok (update_job wf evt old) _ rest in
      (old, new, found, e, sym (ok-injective last))
]

module _ (wf : Workflow) (evt : HistoryEvent) (p q : Progress) where
  Round-following :
      (job : Option ℕ) (ids : Map ℕ ℕ)
      → group evt.type ≢ Group.entering
      → store_job wf evt job (append_job false job (record p { ids = ids })) ≡ ok q
      → Round wf evt p q
  unfolding append_job store_job
  Round-following none ids g h = unchanged g (ground arith) (ground arith)
  Round-following (some a) ids g h =
      let (old, new, found, e, same) = store_job-some wf evt a (record p { ids = ids }) q h in
      updated a old new g found e (ap (λ r. r.heap) same) (ap (λ r. r.jobs) same)

  Round-follow :
      (parent : Option ℕ)
      → group evt.type ≢ Group.entering
      → (let (job, p') = follow parent evt p in
          store_job wf evt job (append_job false job p') ≡ ok q)
      → Round wf evt p q
  unfolding follow
  Round-follow none g h = Round-following none p.ids g h
  Round-follow (some a) g h = Round-following (some a) (put ℕ_discrete evt.id a p.ids) g h

  round_at-Round : (g : Group) → group evt.type ≡ g → round_at wf evt p g ≡ ok q → Round wf evt p q
  unfolding event_at append_job
  round_at-Round Group.ignored e h = Round-following none p.ids (λ e'. cc) h
  round_at-Round Group.execution_level e h = Round-following (get_last? p.jobs) p.ids (λ e'. cc) h
  round_at-Round Group.following e h =
      Round-follow (get ℕ_discrete evt.previous_event_id p.ids) (λ e'. cc) h
  round_at-Round Group.entering e h =
      let fresh = length p.heap in
      let grown : Progress = record {
        heap = p.heap ++ zero_job ∷ [];
        ids = put ℕ_discrete evt.id fresh p.ids;
        jobs = p.jobs ++ fresh ∷ [];
      } in
      let (old, new, found, u, same) = store_job-some wf evt fresh grown q h in
      let blank : old ≡ zero_job = cc (sym found ∙ get_elem?-fresh p.heap zero_job) in
      made new e (subst (λ job. update_job wf evt job ≡ ok new) blank u) (ap (λ r. r.heap) same)
        (ap (λ r. r.jobs) same)

  pub process_event-Round : process_event wf evt p ≡ ok q → Round wf evt p q
  process_event-Round h =
      round_at-Round (group evt.type) refl (sym (process_event-round_at wf evt p) ∙ h)
