-- ===== src/WfUpdater/Process/States.antt =====
-- The jobs that `ProcessEvents` makes: one for each supported state that the history enters, in
-- that order, each with the name of its state.
use workflow_manager.Common.{
  ℕ, ◌<◌, zero, suc, Text, List, [], ◌∷◌, ◌++◌, Option, none, some, ok, ◌≡◌, ◌≢◌, refl, arith, All,
  sym, ap, ◌∙◌, subst, length, get_elem?, set, map, Option-cases, >>=-eq-ok, ok-injective, inl, inr,
  length-append,
}
use mathlib.Core.List.{append-nil, append_assoc, map-append}
use mathlib.Core.Path.{ap₂}
use workflow_manager.Models.{Job, zero_job, Workflow}
use workflow_manager.WfUpdater.Events.{EventType, Entered, Group, group, HistoryEvent}
use workflow_manager.WfUpdater.Update.{
  update_at, update_job, enter, enter_details, schedule, retry, start, fail, fail_with, succeed,
  abort, exit,
}
use workflow_manager.WfUpdater.Process.Rounds.{Round, made, updated, unchanged, process_event-Round}
use workflow_manager.WfUpdater.Process.{
  Progress, process_event, process_from, process_events, read_jobs,
}

abbrev pub name_of : Option Entered → Text
name_of none = []
name_of (some d) = d.name

-- The names of the supported states that the events enter.
abbrev pub entered_at : Group → HistoryEvent → List Text
entered_at Group.entering evt = name_of evt.entered ∷ []
entered_at Group.ignored evt = []
entered_at Group.execution_level evt = []
entered_at Group.following evt = []

unfoldable pub entered_names : List HistoryEvent → List Text
entered_names [] = []
entered_names (evt ∷ events) = entered_at (group evt.type) evt ++ entered_names events

update_at-state :
    (t : EventType) (wf : Workflow) (evt : HistoryEvent) (old new : Job)
    → group t ≢ Group.entering
    → update_at t wf evt old ≡ ok new
    → new.state ≡ old.state
unfolding update_at group schedule retry start fail fail_with succeed abort exit
update_at-state EventType.task_scheduled wf evt old new g h = ground arith
update_at-state EventType.task_state_entered wf evt old new g h = absurd (g refl)
update_at-state EventType.choice_state_entered wf evt old new g h = absurd (g refl)
update_at-state EventType.succeed_state_entered wf evt old new g h = absurd (g refl)
update_at-state _ wf evt old new g h = ground arith

update_at-entering :
    (t : EventType) (wf : Workflow) (evt : HistoryEvent) (new : Job)
    → group t ≡ Group.entering
    → update_at t wf evt zero_job ≡ ok new
    → new.state ≡ name_of evt.entered
unfolding update_at group enter enter_details
update_at-entering EventType.task_state_entered wf evt new g h = ground arith
update_at-entering EventType.choice_state_entered wf evt new g h = ground arith
update_at-entering EventType.succeed_state_entered wf evt new g h = ground arith
update_at-entering _ wf evt new g h = cc

abbrev state_at : List Job → ℕ → Text
state_at heap a = elim (get_elem? heap a) [ none ↦ [] | some job ↦ job.state ]

state_at-set :
    (heap : List Job) (a b : ℕ) (old new : Job)
    → get_elem? heap a ≡ some old
    → new.state ≡ old.state
    → state_at (set heap a new) b ≡ state_at heap b
state_at-set [] a b old new found same = refl
state_at-set (x ∷ heap) zero zero old new found same = ground arith
state_at-set (x ∷ heap) zero (suc b) old new found same = refl
state_at-set (x ∷ heap) (suc a) zero old new found same = refl
state_at-set (x ∷ heap) (suc a) (suc b) old new found same =
    state_at-set heap a b old new found same

pub length-set : (heap : List Job) (a : ℕ) (new : Job) → length (set heap a new) ≡ length heap
length-set [] a new = refl
length-set (x ∷ heap) zero new = refl
length-set (x ∷ heap) (suc a) new = ap suc (length-set heap a new)

states_of_jobs : Progress → List Text
states_of_jobs p = map (state_at p.heap) p.jobs

abbrev pub InHeap : Progress → Type 0
InHeap p = All (λ a. a < length p.heap) p.jobs

pub All-append {ℓ κ} :
    {A : Type ℓ} (P : A → Type κ) (xs ys : List A) → All P xs → All P ys → All P (xs ++ ys)
All-append P [] ys hx hy = hy
All-append P (x ∷ xs) ys hx hy = (hx.0, All-append P xs ys hx.1 hy)

pub All-map {ℓ κ κ'} :
    {A : Type ℓ} (P : A → Type κ) (Q : A → Type κ') (xs : List A)
    → ((x : A) → P x → Q x)
    → All P xs
    → All Q xs
All-map P Q [] f h = tt
All-map P Q (x ∷ xs) f h = (f x h.0, All-map P Q xs f h.1)

map-state_at :
    (heap heap' : List Job) (jobs : List ℕ)
    → ((a : ℕ) → a < length heap → state_at heap' a ≡ state_at heap a)
    → All (λ a. a < length heap) jobs
    → map (state_at heap') jobs ≡ map (state_at heap) jobs
map-state_at heap heap' [] same h = refl
map-state_at heap heap' (a ∷ jobs) same h = rw (same a h.0, map-state_at heap heap' jobs same h.1)

state_at-grown :
    (heap : List Job) (new : Job) (a : ℕ)
    → a < length heap
    → state_at (set (heap ++ zero_job ∷ []) (length heap) new) a ≡ state_at heap a
state_at-grown [] new a h = absurd (omega arith)
state_at-grown (x ∷ heap) new zero h = refl
state_at-grown (x ∷ heap) new (suc a) h = state_at-grown heap new a (omega arith)

state_at-set_fresh :
    (heap : List Job) (new : Job)
    → state_at (set (heap ++ zero_job ∷ []) (length heap) new) (length heap) ≡ new.state
state_at-set_fresh [] new = refl
state_at-set_fresh (x ∷ heap) new = state_at-set_fresh heap new

made-states :
    (heap : List Job) (jobs : List ℕ) (new : Job)
    → All (λ a. a < length heap) jobs
    → let heap' = set (heap ++ zero_job ∷ []) (length heap) new in
      let jobs' = jobs ++ length heap ∷ [] in
      All (λ a. a < length heap') jobs'
      × (map (state_at heap') jobs' ≡ map (state_at heap) jobs ++ new.state ∷ [])
made-states heap jobs new v =
    let heap' = set (heap ++ zero_job ∷ []) (length heap) new in
    let longer : length heap' ≡ suc (length heap) = omega (
      arith,
      length-set (heap ++ zero_job ∷ []) (length heap) new,
      length-append heap (zero_job ∷ []),
    ) in
    let same = λ (a : ℕ) (lt : a < length heap). state_at-grown heap new a lt in
    (
      All-append (λ a. a < length heap') jobs (length heap ∷ [])
          (All-map (λ a. a < length heap) (λ a. a < length heap') jobs (λ a lt. omega arith) v)
          (omega arith, tt),
      map-append (state_at heap') jobs (length heap ∷ [])
          ∙ ap₂ ◌++◌ (map-state_at heap heap' jobs same v)
              (ap (λ t. t ∷ []) (state_at-set_fresh heap new)),
    )

entered_nothing : (evt : HistoryEvent) (g : Group) → g ≢ Group.entering → entered_at g evt ≡ []
entered_nothing evt Group.entering ne = absurd (ne refl)
entered_nothing evt _ ne = refl

pub get_elem?-in_range : (heap : List Job) (a : ℕ) → a < length heap → get_elem? heap a ≢ none
get_elem?-in_range [] a h = absurd (omega arith)
get_elem?-in_range (x ∷ heap) zero h = λ e. cc
get_elem?-in_range (x ∷ heap) (suc a) h = get_elem?-in_range heap a (omega arith)

Round-states :
    (wf : Workflow) (evt : HistoryEvent) (p q : Progress)
    → Round wf evt p q
    → InHeap p
    → InHeap q × (states_of_jobs q ≡ states_of_jobs p ++ entered_at (group evt.type) evt)
unfolding states_of_jobs update_job
Round-states wf evt p q (made new g u eh ej) v =
    let named = update_at-entering evt.type wf evt new g u in
    let (inside, names) = made-states p.heap p.jobs new v in
    rw (eh, ej, g) (inside, names ∙ ap (λ n. map (state_at p.heap) p.jobs ++ n ∷ []) named)
Round-states wf evt p q (updated a old new g found u eh ej) v =
    let same = update_at-state evt.type wf evt old new g u in
    rw (eh, ej, entered_nothing evt (group evt.type) g, append-nil, length-set p.heap a new)
      (
        v,
        map-state_at p.heap (set p.heap a new) p.jobs
            (λ b lt. state_at-set p.heap a b old new found same) v,
      )
Round-states wf evt p q (unchanged g eh ej) v =
    rw (eh, ej, entered_nothing evt (group evt.type) g, append-nil) (v, refl)

process_from-states :
    (wf : Workflow) (events : List HistoryEvent) (p q : Progress)
    → process_from wf events p ≡ ok q
    → InHeap p
    → InHeap q × (states_of_jobs q ≡ states_of_jobs p ++ entered_names events)
unfolding process_from entered_names
process_from-states wf [] p q h v =
    subst (λ r. InHeap r × (states_of_jobs r ≡ states_of_jobs p ++ [])) (ok-injective h)
      (v, sym (append-nil _))
process_from-states wf (evt ∷ events) p q h v =
    let (mid, first, rest) = >>=-eq-ok (process_event wf evt p) _ h in
    let (v', e) = Round-states wf evt p mid (process_event-Round wf evt p mid first) v in
    let (v'', e') = process_from-states wf events mid q rest v' in
    (
      v'',
      e'
          ∙ ap (λ names. names ++ entered_names events) e
          ∙ append_assoc (states_of_jobs p) (entered_at (group evt.type) evt)
              (entered_names events),
    )

map-read_jobs :
    (heap : List Job) (jobs : List ℕ)
    → All (λ a. a < length heap) jobs
    → map (λ job. job.state) (read_jobs heap jobs) ≡ map (state_at heap) jobs
unfolding read_jobs
map-read_jobs heap [] v = refl
map-read_jobs heap (a ∷ jobs) v = elim (Option-cases (get_elem? heap a)) [
  | inl gone ↦ absurd (get_elem?-in_range heap a v.0 gone)
  | inr (job, found) ↦ ground (arith, map-read_jobs heap jobs v.1)
]

-- If `ProcessEvents` returns, the jobs that it returns are one for each task, choice or succeed
-- state that the events enter, in the order of the events, and each has the name of its state,
-- whatever happened to it later: also after it was retried.
pub process_events-states :
    (wf : Workflow) (events : List HistoryEvent) (p q : Progress)
    → process_events wf events p ≡ ok q
    → map (λ job. job.state) (read_jobs q.heap q.jobs) ≡ entered_names events
unfolding process_events states_of_jobs
process_events-states wf events p q h =
    let (v, e) = process_from-states wf events (record p { jobs = [] }) q h tt in
    map-read_jobs q.heap q.jobs v ∙ e
