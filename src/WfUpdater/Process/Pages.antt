-- ===== src/WfUpdater/Process/Pages.antt =====
-- `UpdateWorkflowHistory` feeds the history to `ProcessEvents` page by page. `ProcessEvents` starts
-- each page with an empty slice of jobs, from which it takes the job of an event of the execution.
use mathlib.Core.List.{append-nil, append_assoc, flatten}
use workflow_manager.Common.{
  ℕ, ℕ_discrete, Bool, true, false, List, [], ◌∷◌, ◌++◌, Option, none, some, ok, err, panic,
  out_of_fuel, ◌>>=◌, ◌≡◌, ◌≢◌, ◌⊎◌, inl, inr, refl, arith, All, sym, ap, fun_ext, ◌∙◌, subst,
  Result, get_last?, get_elem?, Option-cases,
}
use workflow_manager.Common.Maps.{get, put}
use workflow_manager.Models.{Workflow, Error}
use workflow_manager.WfUpdater.Events.{Group, group, HistoryEvent}
use workflow_manager.WfUpdater.Process.{
  Progress, follow, event_at, append_job, store_job, process_event, process_from, process_events,
  process_pages,
}
use workflow_manager.WfUpdater.Process.Rounds.{
  round_at, process_event-round_at, Round, made, updated, unchanged, process_event-Round,
}

-- No event of the execution as a whole comes before the first job of the page.
abbrev EarlyAt : Group → Type 0 → Type 0
EarlyAt Group.entering rest = Unit
EarlyAt Group.execution_level rest = ⊥
EarlyAt Group.ignored rest = rest
EarlyAt Group.following rest = rest

unfoldable pub StartsLate : List HistoryEvent → Type 0
StartsLate [] = Unit
StartsLate (evt ∷ events) = EarlyAt (group evt.type) (StartsLate events)

-- The progress with earlier jobs in front of its own.
abbrev pub with_jobs : List ℕ → Progress → Progress
with_jobs earlier p = record p { jobs = earlier ++ p.jobs }

abbrev lift : List ℕ → Result Error Progress → Result Error Progress
lift earlier m = m >>= λ q. ok (with_jobs earlier q)

module _ (wf : Workflow) (earlier : List ℕ) where
  store_job-with_jobs :
      (evt : HistoryEvent) (job : Option ℕ) (p : Progress)
      → store_job wf evt job (with_jobs earlier p) ≡ lift earlier (store_job wf evt job p)
  unfolding store_job
  store_job-with_jobs evt none p = refl
  store_job-with_jobs evt (some a) p = elim (Option-cases (get_elem? p.heap a)) [
    | inl gone ↦ rw (gone, store_job)
    | inr (old, found) ↦ rw (found, store_job) (ground arith)
  ]

  append_job-with_jobs :
      (b : Bool) (job : Option ℕ) (p : Progress)
      → append_job b job (with_jobs earlier p) ≡ with_jobs earlier (append_job b job p)
  unfolding append_job
  append_job-with_jobs b none p = refl
  append_job-with_jobs false (some a) p = refl
  append_job-with_jobs true (some a) p =
      ap (λ jobs. record p { jobs = jobs }) (append_assoc earlier p.jobs (a ∷ []))

get_last?-append :
    (earlier jobs : List ℕ) → jobs ≢ [] → get_last? (earlier ++ jobs) ≡ get_last? jobs
get_last?-append [] jobs ne = refl
get_last?-append (x ∷ []) [] ne = absurd (ne refl)
get_last?-append (x ∷ []) (y ∷ jobs) ne = refl
get_last?-append (x ∷ y ∷ earlier) jobs ne = get_last?-append (y ∷ earlier) jobs ne

module _ (wf : Workflow) (earlier : List ℕ) where
  round_at-plain :
      (evt : HistoryEvent) (b : Bool) (job : Option ℕ) (p : Progress)
      → store_job wf evt job (append_job b job (with_jobs earlier p))
        ≡ lift earlier (store_job wf evt job (append_job b job p))
  round_at-plain evt b job p =
      ap (store_job wf evt job) (append_job-with_jobs wf earlier b job p)
      ∙ store_job-with_jobs wf earlier evt job (append_job b job p)

  follow-plain :
      (parent : Option ℕ) (evt : HistoryEvent) (p : Progress)
      → (let (job, p') = follow parent evt (with_jobs earlier p) in
          store_job wf evt job (append_job false job p'))
        ≡ lift earlier
            (let (job, p') = follow parent evt p in store_job wf evt job (append_job false job p'))
  unfolding follow
  follow-plain none evt p = round_at-plain evt false none p
  follow-plain (some a) evt p =
      round_at-plain evt false (some a) (record p { ids = put ℕ_discrete evt.id a p.ids })

  -- The rounds agree if the job of an event of the execution is among the page's own jobs.
  round_at-with_jobs :
      (g : Group) (evt : HistoryEvent) (p : Progress)
      → (g ≢ Group.execution_level) ⊎ (p.jobs ≢ [])
      → round_at wf evt (with_jobs earlier p) g ≡ lift earlier (round_at wf evt p g)
  unfolding event_at
  round_at-with_jobs Group.ignored evt p h = round_at-plain evt false none p
  round_at-with_jobs Group.following evt p h =
      follow-plain (get ℕ_discrete evt.previous_event_id p.ids) evt p
  round_at-with_jobs Group.entering evt p h = round_at-plain evt true _ _
  round_at-with_jobs Group.execution_level evt p (inl h) = absurd (h refl)
  round_at-with_jobs Group.execution_level evt p (inr h) =
      ap (λ job. store_job wf evt job (append_job false job (with_jobs earlier p)))
        (get_last?-append earlier p.jobs h)
      ∙ round_at-plain evt false (get_last? p.jobs) p

  process_event-with_jobs :
      (evt : HistoryEvent) (p : Progress)
      → (group evt.type ≢ Group.execution_level) ⊎ (p.jobs ≢ [])
      → process_event wf evt (with_jobs earlier p) ≡ lift earlier (process_event wf evt p)
  process_event-with_jobs evt p h =
      process_event-round_at wf evt (with_jobs earlier p)
      ∙ round_at-with_jobs (group evt.type) evt p h
      ∙ ap (lift earlier) (sym (process_event-round_at wf evt p))

early-rest : (g : Group) (R : Type 0) → g ≢ Group.entering → EarlyAt g R → R
early-rest Group.entering R ne e = absurd (ne refl)
early-rest Group.execution_level R ne e = elim e [ ]
early-rest Group.ignored R ne e = e
early-rest Group.following R ne e = e

early-group : (g : Group) (R : Type 0) → EarlyAt g R → g ≢ Group.execution_level
early-group Group.execution_level R e = elim e [ ]
early-group Group.entering R e = λ e'. cc
early-group Group.ignored R e = λ e'. cc
early-group Group.following R e = λ e'. cc

append-ne-nil : (xs : List ℕ) (x : ℕ) → xs ++ x ∷ [] ≢ []
append-ne-nil [] x = λ e. cc
append-ne-nil (y ∷ xs) x = λ e. cc

abbrev Anchored : List HistoryEvent → Progress → Type 0
Anchored events p = StartsLate events ⊎ (p.jobs ≢ [])

Anchored-Round :
    (wf : Workflow) (evt : HistoryEvent) (events : List HistoryEvent) (p q : Progress)
    → Anchored (evt ∷ events) p
    → Round wf evt p q
    → Anchored events q
unfolding StartsLate
Anchored-Round wf evt events p q a (made new g u eh ej) =
    inr (subst (λ jobs. jobs ≢ []) (sym ej) (append-ne-nil p.jobs _))
Anchored-Round wf evt events p q (inl late) (updated a old new g f u eh ej) =
    inl (early-rest (group evt.type) (StartsLate events) g late)
Anchored-Round wf evt events p q (inr some_job) (updated a old new g f u eh ej) =
    inr (subst (λ jobs. jobs ≢ []) (sym ej) some_job)
Anchored-Round wf evt events p q (inl late) (unchanged g eh ej) =
    inl (early-rest (group evt.type) (StartsLate events) g late)
Anchored-Round wf evt events p q (inr some_job) (unchanged g eh ej) =
    inr (subst (λ jobs. jobs ≢ []) (sym ej) some_job)

>>=-lift :
    (earlier : List ℕ) (m : Result Error Progress) (k : Progress → Result Error Progress)
    → ((q : Progress) → m ≡ ok q → k (with_jobs earlier q) ≡ lift earlier (k q))
    → (lift earlier m >>= k) ≡ lift earlier (m >>= k)
>>=-lift earlier (ok q) k h = h q refl
>>=-lift earlier (err e) k h = refl
>>=-lift earlier panic k h = refl
>>=-lift earlier out_of_fuel k h = refl

anchor :
    (evt : HistoryEvent) (events : List HistoryEvent) (p : Progress)
    → Anchored (evt ∷ events) p
    → (group evt.type ≢ Group.execution_level) ⊎ (p.jobs ≢ [])
unfolding StartsLate
anchor evt events p (inl late) = inl (early-group (group evt.type) (StartsLate events) late)
anchor evt events p (inr some_job) = inr some_job

process_from-with_jobs :
    (wf : Workflow) (earlier : List ℕ) (events : List HistoryEvent) (p : Progress)
    → Anchored events p
    → process_from wf events (with_jobs earlier p) ≡ lift earlier (process_from wf events p)
unfolding process_from
process_from-with_jobs wf earlier [] p a = refl
process_from-with_jobs wf earlier (evt ∷ events) p a =
    ap (λ m. m >>= process_from wf events)
      (process_event-with_jobs wf earlier evt p (anchor evt events p a))
    ∙ >>=-lift earlier (process_event wf evt p) (process_from wf events) (λ q e.
      process_from-with_jobs wf earlier events q
        (Anchored-Round wf evt events p q a (process_event-Round wf evt p q e)))

>>=_assoc :
    (m : Result Error Progress) (f g : Progress → Result Error Progress)
    → ((m >>= f) >>= g) ≡ (m >>= λ q. f q >>= g)
>>=_assoc (ok q) f g = refl
>>=_assoc (err e) f g = refl
>>=_assoc panic f g = refl
>>=_assoc out_of_fuel f g = refl

process_from-append :
    (wf : Workflow) (xs ys : List HistoryEvent) (p : Progress)
    → process_from wf (xs ++ ys) p ≡ (process_from wf xs p >>= process_from wf ys)
unfolding process_from
process_from-append wf [] ys p = refl
process_from-append wf (evt ∷ xs) ys p =
    ap (λ k. process_event wf evt p >>= k) (fun_ext (λ q. process_from-append wf xs ys q))
    ∙ sym (>>=_assoc (process_event wf evt p) (process_from wf xs) (process_from wf ys))

-- If on no page an event of the execution as a whole (aborted, failed, timed out) comes before
-- the first task, choice or succeed state that the page enters, the history that is processed
-- page by page gives the jobs, the map and the store of the history processed in one piece.
pub process_pages-flatten :
    (wf : Workflow) (pages : List (List HistoryEvent)) (p : Progress)
    → All StartsLate pages
    → process_pages wf pages p ≡ process_from wf (flatten pages) p
unfolding process_pages process_events process_from flatten
process_pages-flatten wf [] p late = refl
process_pages-flatten wf (page ∷ pages) p late =
    let empty : Progress = record p { jobs = [] } in
    let whole : process_from wf page p ≡ lift p.jobs (process_from wf page empty) =
      ap (λ jobs. process_from wf page (record p { jobs = jobs })) (sym (append-nil p.jobs))
      ∙ process_from-with_jobs wf p.jobs page empty (inl late.0) in
    ap (λ k. process_from wf page empty >>= k)
      (fun_ext (λ q. process_pages-flatten wf pages (with_jobs p.jobs q) late.1))
    ∙ sym (
        >>=_assoc (process_from wf page empty) (λ q. ok (with_jobs p.jobs q))
          (process_from wf (flatten pages)))
    ∙ ap (λ m. m >>= process_from wf (flatten pages)) (sym whole)
    ∙ sym (process_from-append wf page (flatten pages) p)

-- An event of the execution as a whole that comes first on a page is lost: the page is processed
-- as if it were not there, whatever the pages before it held.
pub process_events-lost :
    (wf : Workflow) (evt : HistoryEvent) (events : List HistoryEvent) (p : Progress)
    → group evt.type ≡ Group.execution_level
    → process_events wf (evt ∷ events) p ≡ process_events wf events p
unfolding process_events process_from event_at append_job store_job
process_events-lost wf evt events p e =
    let empty : Progress = record p { jobs = [] } in
    ap (λ m. m >>= process_from wf events)
      (process_event-round_at wf evt empty ∙ ap (round_at wf evt empty) e)
