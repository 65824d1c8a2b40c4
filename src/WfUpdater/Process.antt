-- ===== src/WfUpdater/Process.antt =====
-- wfupdater/processevents.go and wfupdater/lastjob.go: `ProcessEvents` and its callers' loops. The
-- code shares jobs between the result and the map from event IDs by pointers, so the model keeps
-- the jobs in a store, `heap`, and a pointer is an index into it.
pub mod Rounds
pub mod States
pub mod Defined
pub mod Pages
use workflow_manager.Common.{
  ℕ, ℕ_discrete, Bool, true, false, List, [], ◌∷◌, ◌++◌, Option, none, some, Result, ok, panic,
  ◌>>=◌, if◌then◌else◌, length, get_elem?, set, get_last?,
}
use workflow_manager.Common.Maps.{Map, get, put}
use workflow_manager.Models.{Job, zero_job, Workflow, Error}
use workflow_manager.WfUpdater.Events.{
  EventType, Group, group, HistoryEvent, is_supported_state_entered_event, reverse_history,
}
use workflow_manager.WfUpdater.Update.{update_job}

-- `heap` holds every job that was made, `ids` is `eventIDToJob`, and `jobs` the slice that
-- `ProcessEvents` builds.
pub record Progress : Type 0 where
  pub heap : List Job
  pub ids : Map ℕ ℕ
  pub jobs : List ℕ

-- The job of the parent event, under which the event is filed.
unfoldable pub follow : Option ℕ → HistoryEvent → Progress → Option ℕ × Progress
follow none evt p = (none, p)
follow (some job) evt p = (some job, record p { ids = put ℕ_discrete evt.id job p.ids })

unfoldable pub event_at : Group → HistoryEvent → Progress → Option ℕ × Progress
unfolding follow
event_at Group.ignored evt p = (none, p)
event_at Group.entering evt p = (
  some (length p.heap),
  record p { heap = p.heap ++ zero_job ∷ []; ids = put ℕ_discrete evt.id (length p.heap) p.ids },
)
event_at Group.execution_level evt p = (get_last? p.jobs, p)
event_at Group.following evt p = follow (get ℕ_discrete evt.previous_event_id p.ids) evt p

-- The job of an event, if it has one. Entering a supported state makes a job.
unfoldable pub event_to_job : HistoryEvent → Progress → Option ℕ × Progress
unfolding event_at
event_to_job evt p = event_at (group evt.type) evt p

unfoldable pub append_job : Bool → Option ℕ → Progress → Progress
append_job supported none p = p
append_job supported (some job) p = if supported then record p { jobs = p.jobs ++ job ∷ [] } else p

-- `*job` is read, brought up to date and written back.
unfoldable pub store_job : Workflow → HistoryEvent → Option ℕ → Progress → Result Error Progress
store_job wf evt none p = ok p
store_job wf evt (some job) p = elim (get_elem? p.heap job) [
  | none ↦ panic
  | some old ↦ update_job wf evt old >>= λ new. ok (record p { heap = set p.heap job new })
]

-- One round of the loop of `ProcessEvents`.
unfoldable pub process_event : Workflow → HistoryEvent → Progress → Result Error Progress
unfolding event_to_job append_job store_job
process_event wf evt p =
    let (job, p') = event_to_job evt p in
    store_job wf evt job (append_job (is_supported_state_entered_event evt) job p')

unfoldable pub process_from : Workflow → List HistoryEvent → Progress → Result Error Progress
process_from wf [] p = ok p
process_from wf (evt ∷ events) p = process_event wf evt p >>= λ p'. process_from wf events p'

-- `ProcessEvents` starts with no jobs, in the map and the store that it is given.
unfoldable pub process_events : Workflow → List HistoryEvent → Progress → Result Error Progress
unfolding process_from
process_events wf events p = process_from wf events (record p { jobs = [] })

abbrev pub no_progress : Progress
no_progress = record { heap = []; ids = []; jobs = [] }

-- The jobs that the pointers of a slice lead to.
unfoldable pub read_jobs : List Job → List ℕ → List Job
read_jobs heap [] = []
read_jobs heap (a ∷ addrs) = elim (get_elem? heap a) [
  | none ↦ read_jobs heap addrs
  | some job ↦ job ∷ read_jobs heap addrs
]

-- `UpdateWorkflowLastJob`, on the events that the service returns, latest first.
unfoldable pub update_workflow_last_job : Workflow → List HistoryEvent → Result Error Workflow
update_workflow_last_job wf latest_first =
    process_events wf (reverse_history latest_first) no_progress >>= λ p.
    elim (get_last? (read_jobs p.heap p.jobs)) [
      | none ↦ ok wf
      | some job ↦ ok (record wf { last_job = some job })
    ]

-- The callback of `UpdateWorkflowHistory`, page by page: the map is shared, and the jobs of each
-- page are added to those of the pages before.
unfoldable pub process_pages :
    Workflow → List (List HistoryEvent) → Progress → Result Error Progress
process_pages wf [] p = ok p
process_pages wf (page ∷ pages) p =
    process_events wf page p >>= λ q. process_pages wf pages (record q { jobs = p.jobs ++ q.jobs })
