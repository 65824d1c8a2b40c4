-- ===== src/Consumer/Records.antt =====
-- cmd/sfn-execution-events-consumer/main.go: a batch of records, each a compressed list of messages
-- of a log. An error of a message or of a record does not stop the batch; a panic does, and the
-- store keeps what was done before it.
use workflow_manager.Common.{
  Text, Bool, true, false, ◌&&◌, List, [], ◌∷◌, ◌++◌, Option, none, some, Result, ok, err, panic,
  out_of_fuel, if◌then◌else◌, ◌==◌, ◌≡◌, refl, sym, subst, inl, Option-cases, inr, Bool-cases,
}
use workflow_manager.Common.Strings.{codes, has_prefix}
use workflow_manager.Models.{Workflow, WorkflowStatus, Error}
use workflow_manager.Store.{WorkflowStore, terminal_state}
use workflow_manager.WfUpdater.Events
use workflow_manager.Consumer.{LoggedEvent, handle_history_event}
use workflow_manager.Consumer.Lifecycle.{Follows, handle_history_event-Advance, terminal-Advance}

pub record LogsData : Type 0 where
  pub log_stream : Text
  pub messages : List Text

-- How a batch ends: with the errors that were met, or in a panic.
pub data Ended (A : Type 0) : Type 0 where
  finished : A → List Error → Ended A
  stopped : A → Ended A

abbrev pub state_of : {A : Type 0} → Ended A → A
state_of (finished s errs) = s
state_of (stopped s) = s

-- The rest of a loop, unless it has stopped.
abbrev pub and_then : {A : Type 0} → Ended A → (A → List Error → Ended A) → Ended A
and_then (finished s more) k = k s more
and_then (stopped s) k = stopped s

-- A loop that goes on after an error; `errs` are the errors met so far.
unfoldable pub run_each : {A : Type 0} → (Text → A → Ended A) → List Text → A → List Error → Ended A
run_each step [] s errs = finished s errs
run_each step (item ∷ items) s errs =
    and_then (step item s) (λ s' more. run_each step items s' (errs ++ more))

-- An event that is handled, or not, leaves the store as the handler does.
abbrev pub ended : {A : Type 0} → A → Result Error A → Ended A
ended s (ok s') = finished s' []
ended s (err e) = finished s (e ∷ [])
ended s panic = stopped s
ended s out_of_fuel = stopped s

unfoldable pub is_gzipped : Text → Result Error Bool
is_gzipped [] = panic
is_gzipped (c ∷ []) = if c == 0x1f then panic else ok false
is_gzipped (c ∷ d ∷ data_) = ok (c == 0x1f && d == 0x8b)

module _ (S : WorkflowStore)
    (get_execution_history : Text → Result Error (List Events.HistoryEvent))
    (gunzip : Text → Option Text) (unmarshal_logs : Text → Option LogsData)
    (unmarshal_event : Text → Option LoggedEvent) where
  unfoldable pub handle_message : Text → S.State → Ended S.State
  handle_message m s = elim (unmarshal_event m) [
    | none ↦ finished s (Error.external m ∷ [])
    | some evt ↦ ended s (handle_history_event S get_execution_history evt s)
  ]

  unfoldable pub handle_unpacked : Text → S.State → Ended S.State
  handle_unpacked unpacked s = elim (unmarshal_logs unpacked) [
    | none ↦ finished s (Error.external unpacked ∷ [])
    | some d ↦
        if has_prefix d.log_stream (codes "states/")
        then run_each handle_message d.messages s []
        else finished s []
  ]

  -- What `isGzipped` says of the data decides.
  unfoldable pub handle_format : Text → Result Error Bool → S.State → Ended S.State
  handle_format data_ (ok true) s = elim (gunzip data_) [
    | none ↦ finished s (Error.external data_ ∷ [])
    | some unpacked ↦ handle_unpacked unpacked s
  ]
  handle_format data_ (ok false) s = finished s (Error.external data_ ∷ [])
  handle_format data_ (err e) s = finished s (e ∷ [])
  handle_format data_ panic s = stopped s
  handle_format data_ out_of_fuel s = stopped s

  unfoldable pub handle_record : Text → S.State → Ended S.State
  unfolding handle_format is_gzipped
  handle_record data_ s = handle_format data_ (is_gzipped data_) s

  unfoldable pub handle : List Text → S.State → Ended S.State
  handle records s = run_each handle_record records s []

  -- Each workflow that is there stays, with the order of statuses that the events keep.
  abbrev Ends : WorkflowStatus → WorkflowStatus → Type 0
  Ends a b = terminal_state a ≡ true → terminal_state b ≡ true

  abbrev Kept : Text → S.State → S.State → Type 0
  Kept = Follows S get_execution_history Ends

  Kept-refl : (id : Text) (s : S.State) → Kept id s s
  Kept-refl id s wf there = (wf, there, λ t. t)

  Kept-trans : (id : Text) (s s' s2 : S.State) → Kept id s s' → Kept id s' s2 → Kept id s s2
  Kept-trans id s s' s2 h k wf there =
      let (wf', there', e) = h wf there in
      let (wf2, there2, e') = k wf' there' in (wf2, there2, λ t. e' (e t))

  Kept-event :
      (evt : LoggedEvent) (s s' : S.State) (id : Text)
      → handle_history_event S get_execution_history evt s ≡ ok s'
      → Kept id s s'
  Kept-event evt s s' id h wf there =
      let (wf', there', step) =
        handle_history_event-Advance S get_execution_history evt s s' id wf h there in
      (wf', there', terminal-Advance wf.status wf'.status step)

  module _ (id : Text) where
    and_then-Kept :
        (s : S.State) (e : Ended S.State) (k : S.State → List Error → Ended S.State)
        → Kept id s (state_of e)
        → ((s' : S.State) (more : List Error) → Kept id s' (state_of (k s' more)))
        → Kept id s (state_of (and_then e k))
    and_then-Kept s (finished s' more) k h next =
        Kept-trans id s s' (state_of (k s' more)) h (next s' more)
    and_then-Kept s (stopped s') k h next = h

    run_each-Kept :
        (step : Text → S.State → Ended S.State)
        → ((item : Text) (s : S.State) → Kept id s (state_of (step item s)))
        → (items : List Text) (s : S.State) (errs : List Error)
        → Kept id s (state_of (run_each step items s errs))
    unfolding run_each
    run_each-Kept step each [] s errs = Kept-refl id s
    run_each-Kept step each (item ∷ items) s errs =
        and_then-Kept s (step item s) (λ s' more. run_each step items s' (errs ++ more))
          (each item s) (λ s' more. run_each-Kept step each items s' (errs ++ more))

    ended-Kept :
        (s : S.State) (r : Result Error S.State)
        → ((s' : S.State) → r ≡ ok s' → Kept id s s')
        → Kept id s (state_of (ended s r))
    ended-Kept s (ok s') h = h s' refl
    ended-Kept s (err e) h = Kept-refl id s
    ended-Kept s panic h = Kept-refl id s
    ended-Kept s out_of_fuel h = Kept-refl id s

    Kept-eq :
        (s : S.State) (e e' : Ended S.State)
        → e ≡ e'
        → Kept id s (state_of e')
        → Kept id s (state_of e)
    Kept-eq s e e' p h = subst (λ x. Kept id s (state_of x)) (sym p) h

    handle_message-Kept : (m : Text) (s : S.State) → Kept id s (state_of (handle_message m s))
    unfolding handle_message
    handle_message-Kept m s = elim (Option-cases (unmarshal_event m)) [
      | inl bad ↦
          Kept-eq s (handle_message m s) (finished s (Error.external m ∷ []))
            (rw (bad, handle_message) refl) (Kept-refl id s)
      | inr (evt, good) ↦
          let handled = handle_history_event S get_execution_history evt s in
          Kept-eq s (handle_message m s) (ended s handled) (rw (good, handle_message) refl)
            (ended-Kept s handled (λ s' h. Kept-event evt s s' id h))
    ]

    handle_unpacked-Kept :
        (unpacked : Text) (s : S.State) → Kept id s (state_of (handle_unpacked unpacked s))
    unfolding handle_unpacked
    handle_unpacked-Kept unpacked s = elim (Option-cases (unmarshal_logs unpacked)) [
      | inl bad ↦
          Kept-eq s (handle_unpacked unpacked s) (finished s (Error.external unpacked ∷ []))
            (rw (bad, handle_unpacked) refl) (Kept-refl id s)
      | inr (d, good) ↦ elim (Bool-cases (has_prefix d.log_stream (codes "states/"))) [
        | inl states ↦
            Kept-eq s (handle_unpacked unpacked s) (run_each handle_message d.messages s [])
              (rw (good, states, handle_unpacked) refl)
              (run_each-Kept handle_message handle_message-Kept d.messages s [])
        | inr other ↦
            Kept-eq s (handle_unpacked unpacked s) (finished s [])
              (rw (good, other, handle_unpacked) refl) (Kept-refl id s)
      ]
    ]

    handle_format-Kept :
        (data_ : Text) (format : Result Error Bool) (s : S.State)
        → Kept id s (state_of (handle_format data_ format s))
    unfolding handle_format
    handle_format-Kept data_ (ok true) s = elim (Option-cases (gunzip data_)) [
      | inl bad ↦
          Kept-eq s (handle_format data_ (ok true) s) (finished s (Error.external data_ ∷ []))
            (rw (bad, handle_format) refl) (Kept-refl id s)
      | inr (unpacked, good) ↦
          Kept-eq s (handle_format data_ (ok true) s) (handle_unpacked unpacked s)
            (rw (good, handle_format) refl) (handle_unpacked-Kept unpacked s)
    ]
    handle_format-Kept data_ (ok false) s = Kept-refl id s
    handle_format-Kept data_ (err e) s = Kept-refl id s
    handle_format-Kept data_ panic s = Kept-refl id s
    handle_format-Kept data_ out_of_fuel s = Kept-refl id s

    handle_record-Kept : (data_ : Text) (s : S.State) → Kept id s (state_of (handle_record data_ s))
    unfolding handle_record
    handle_record-Kept data_ s = handle_format-Kept data_ (is_gzipped data_) s

    -- Whatever a batch holds, in whatever order, and however it ends: a workflow that had a terminal
    -- status before it has one after it.
    pub handle-terminal :
        (records : List Text) (s : S.State) (wf : Workflow)
        → S.get_workflow_by_id id s ≡ ok wf
        → terminal_state wf.status ≡ true
        → (wf' : Workflow) × (S.get_workflow_by_id id (state_of (handle records s)) ≡ ok wf')
          × (terminal_state wf'.status ≡ true)
    unfolding handle
    handle-terminal records s wf there ended_before =
        let (wf', there', keeps) =
          run_each-Kept handle_record handle_record-Kept records s [] wf there in
        (wf', there', keeps ended_before)
