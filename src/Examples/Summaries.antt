-- ===== src/Examples/Summaries.antt =====
-- A workflow whose execution was aborted, and its summary.
use workflow_manager.Common.{Text, pos, true, List, [], ◌∷◌, none, some, Result, ok}
use workflow_manager.Common.Strings.{codes}
use workflow_manager.Models.{Workflow, WorkflowStatus, Error}
use workflow_manager.Resources.Status.{ExecutionStatus}
use workflow_manager.WfUpdater.Events.{HistoryEvent}
use workflow_manager.Examples.Histories.{a_workflow}
use workflow_manager.Examples.Stores.{store_of}
use workflow_manager.Store.Memory.{MemoryStore}
use workflow_manager.Executor.Service.{ExecutionOutput, Answer}

abbrev going : Workflow
going = a_workflow (codes "w") WorkflowStatus.running

abbrev aborted_execution : Text → Answer ExecutionOutput
aborted_execution arn = Answer.found (record {
  name = codes "w";
  status = ExecutionStatus.aborted;
  start_date = none;
  stop_date = some (pos 6);
  input = none;
  output = none;
})

abbrev no_history : Text → Result Error (List HistoryEvent)
no_history arn = ok []

abbrev summary : Workflow
summary = record going {
  last_updated = pos 8;
  status = WorkflowStatus.cancelled;
  stopped_at = pos 6;
  resolved_by_user = true;
  output = [];
}

abbrev summary_store : MemoryStore
summary_store = record (store_of WorkflowStatus.running) { workflows = (codes "w", summary) ∷ [] }
