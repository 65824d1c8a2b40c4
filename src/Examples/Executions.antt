-- ===== src/Examples/Executions.antt =====
-- The consumer on the store in memory; the service answers with an empty history.
use workflow_manager.Common.{
  Text, ℤ, pos, true, false, List, [], ◌∷◌, Option, none, some, Result, ok, err, ◌≡◌, refl,
}
use workflow_manager.Common.Strings.{codes}
use workflow_manager.Models.{Workflow, WorkflowStatus, Error}
use workflow_manager.Examples.Histories.{a_workflow}
use workflow_manager.Examples.Stores.{store_of}
use workflow_manager.Store.{terminal_state}
use workflow_manager.Store.Memory.{MemoryStore, get_workflow_by_id}
use workflow_manager.Store.Memory.Workflows.{memory_workflow_store, memory-AcceptsUpdates}
use workflow_manager.WfUpdater.Events
use workflow_manager.Consumer.{
  LoggedEvent, exec_id_from_execution_arn, state_machine_from_execution_arn, parse_int, is_final,
  handle_history_event, unix_milli,
}
use workflow_manager.Consumer.Lifecycle.{Advance, handle_history_event-Advance}
use workflow_manager.Consumer.Records.{LogsData, handle, state_of, handle-terminal}
use workflow_manager.Consumer.Outcomes.{
  IsSecond, IsLast, second_event-late, second_event-running, succeeded_event-stored,
}

abbrev no_history : Text → Result Error (List Events.HistoryEvent)
no_history arn = ok []

abbrev an_event : Text → Text → LoggedEvent
an_event id type = record {
  execution_arn = codes "execution:machine:w";
  id = id;
  type = type;
  output = some (codes "out");
  timestamp = codes "12";
}

abbrev second_event : LoggedEvent
second_event = an_event (codes "2") (codes "TaskStateEntered")

abbrev last_event : LoggedEvent
last_event = an_event (codes "9") (codes "ExecutionSucceeded")

second_event-IsSecond : IsSecond (codes "w") second_event
unfolding exec_id_from_execution_arn state_machine_from_execution_arn is_final
    workflow_manager.Common.Strings.split workflow_manager.Common.Text-discrete
second_event-IsSecond = record {
  execution = refl;
  machine = (codes "machine", refl);
  second = refl;
  goes_on = refl;
}

last_event-IsLast : IsLast (codes "w") (pos 12_000_000) last_event
unfolding exec_id_from_execution_arn state_machine_from_execution_arn parse_int unix_milli
    workflow_manager.Common.Strings.split
last_event-IsLast = record {
  execution = refl;
  machine = (codes "machine", refl);
  stopped = (pos 12, refl, refl);
}

there :
    (status : WorkflowStatus)
    → get_workflow_by_id (codes "w") (store_of status) ≡ ok (a_workflow (codes "w") status)
unfolding get_workflow_by_id workflow_manager.Common.Maps.get workflow_manager.Common.Text-discrete
there status = refl

failed_is_terminal : terminal_state WorkflowStatus.failed ≡ true
unfolding terminal_state
failed_is_terminal = refl

queued_is_not_terminal : terminal_state WorkflowStatus.queued ≡ false
unfolding terminal_state
queued_is_not_terminal = refl

second_event-late_example :
    handle_history_event memory_workflow_store no_history second_event
      (store_of WorkflowStatus.failed)
    ≡ ok (store_of WorkflowStatus.failed)
second_event-late_example =
    second_event-late memory_workflow_store memory-AcceptsUpdates no_history (codes "w")
      second_event (store_of WorkflowStatus.failed) (a_workflow (codes "w") WorkflowStatus.failed)
      second_event-IsSecond (there WorkflowStatus.failed) failed_is_terminal

second_event-running_example :
    (s' : MemoryStore) × (handle_history_event memory_workflow_store no_history second_event
        (store_of WorkflowStatus.queued)
      ≡ ok s')
    × (get_workflow_by_id (codes "w") s' ≡ ok (a_workflow (codes "w") WorkflowStatus.running))
second_event-running_example =
    second_event-running memory_workflow_store memory-AcceptsUpdates no_history (codes "w")
      second_event (store_of WorkflowStatus.queued) (a_workflow (codes "w") WorkflowStatus.queued)
      second_event-IsSecond (there WorkflowStatus.queued) queued_is_not_terminal

succeeded_event-stored_example :
    (s' : MemoryStore) × (handle_history_event memory_workflow_store no_history last_event
        (store_of WorkflowStatus.failed)
      ≡ ok s')
    × (get_workflow_by_id (codes "w") s'
        ≡ ok (record (a_workflow (codes "w") WorkflowStatus.failed) {
          status = WorkflowStatus.succeeded;
          stopped_at = pos 12_000_000;
          output = codes "out";
          resolved_by_user = true;
        }))
succeeded_event-stored_example =
    succeeded_event-stored memory_workflow_store memory-AcceptsUpdates no_history (codes "w")
      (pos 12_000_000) (codes "out") last_event (store_of WorkflowStatus.failed)
      (a_workflow (codes "w") WorkflowStatus.failed) last_event-IsLast refl refl
      (there WorkflowStatus.failed)

made_running :
    handle_history_event memory_workflow_store no_history second_event
      (store_of WorkflowStatus.queued)
    ≡ ok (store_of WorkflowStatus.running)
unfolding handle_history_event exec_id_from_execution_arn workflow_manager.Common.Strings.split
    state_machine_from_execution_arn is_final workflow_manager.Common.Text-discrete
    workflow_manager.Consumer.swallow_out_of_order_state_error
    workflow_manager.Store.Memory.update_workflow_attributes workflow_manager.Common.Maps.get
    workflow_manager.Store.leaves_terminal terminal_state workflow_manager.Common.Maps.put
    workflow_manager.Store.apply_attributes
made_running = refl

handle_history_event-Advance_example :
    (wf' : Workflow) × (get_workflow_by_id (codes "w") (store_of WorkflowStatus.running) ≡ ok wf')
    × Advance WorkflowStatus.queued wf'.status
handle_history_event-Advance_example =
    handle_history_event-Advance memory_workflow_store no_history second_event
      (store_of WorkflowStatus.queued) (store_of WorkflowStatus.running) (codes "w")
      (a_workflow (codes "w") WorkflowStatus.queued) made_running (there WorkflowStatus.queued)

-- The libraries' parts: data is its own contents behind the two bytes, and every record is one
-- message of one stream, which is the second event.
abbrev unzip : Text → Option Text
unzip data_ = some data_

abbrev decode_logs : Text → Option LogsData
decode_logs data_ =
    some (record { log_stream = codes "states/machine"; messages = data_ ∷ data_ ∷ [] })

abbrev decode_event : Text → Option LoggedEvent
decode_event message = some second_event

abbrev zipped : Text
zipped = 0x1f ∷ 0x8b ∷ []

handle-terminal_example :
    (wf' : Workflow) × (get_workflow_by_id (codes "w") (
        state_of (
          handle memory_workflow_store no_history unzip decode_logs decode_event
            (zipped ∷ zipped ∷ [])
            (store_of WorkflowStatus.failed)))
      ≡ ok wf')
    × (terminal_state wf'.status ≡ true)
handle-terminal_example =
    handle-terminal memory_workflow_store no_history unzip decode_logs decode_event (codes "w")
      (zipped ∷ zipped ∷ []) (store_of WorkflowStatus.failed)
      (a_workflow (codes "w") WorkflowStatus.failed) (there WorkflowStatus.failed)
      failed_is_terminal
