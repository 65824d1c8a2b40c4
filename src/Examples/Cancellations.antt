-- ===== src/Examples/Cancellations.antt =====
-- A workflow that is cancelled, and tags that are merged.
use workflow_manager.Common.{
  Text, Text-discrete, ℤ, pos, true, false, List, [], ◌∷◌, Option, none, some, Result, ok, ◌≡◌,
  refl, ite,
}
use workflow_manager.Common.Maps.{Map, get}
use workflow_manager.Common.Strings.{codes}
use workflow_manager.Models.{Value, Workflow, WorkflowStatus, Error}
use workflow_manager.Examples.Histories.{a_workflow}
use workflow_manager.Examples.Stores.{store_of}
use workflow_manager.Store.Memory.{MemoryStore, update_workflow}
use workflow_manager.Executor.Workflows.{cancel_workflow, IsDistinct}

-- The service keeps the executions that it has stopped.
abbrev stop_execution : Text → Text → List Text → Result Error (Unit {0}) × List Text
stop_execution arn cause stopped = (ok tt, arn ∷ stopped)

abbrev going_workflow : Workflow
going_workflow = a_workflow (codes "w") WorkflowStatus.running

abbrev cancelled_workflow : Workflow
cancelled_workflow = record going_workflow {
  status_reason = codes "wrong input";
  resolved_by_user = true;
  last_updated = pos 8;
}

abbrev cancelled_store : MemoryStore
cancelled_store = record (store_of WorkflowStatus.running) {
  workflows = (codes "w", cancelled_workflow) ∷ [];
}

was_cancelled :
    (cancel_workflow MemoryStore
      (codes "r")
      (codes "a")
      (update_workflow (pos 8))
      stop_execution
      going_workflow
      (codes "wrong input")
      ([], store_of WorkflowStatus.running)).1.1
    ≡ cancelled_store
unfolding cancel_workflow update_workflow get Text-discrete workflow_manager.Common.Maps.put
was_cancelled = refl

abbrev request_tags : Map Text Value
request_tags = (codes "team", Value.string (codes "x")) ∷ []

abbrev default_tags : Map Text Value
default_tags =
    (codes "team", Value.string (codes "infra")) ∷ (codes "k", Value.string (codes "v")) ∷ []

request_tags-IsDistinct : IsDistinct request_tags
unfolding get
request_tags-IsDistinct = (refl, tt)
