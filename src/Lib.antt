-- ===== src/Lib.antt =====
-- workflow-manager: a service that stores definitions of workflows (state machines of AWS Step
-- Functions), starts executions of them, and keeps a record of each workflow up to date from the
-- history and the events of its execution. This library models the parts that decide what those
-- records are.
--
-- The parts, and the files that model them:
--   Common      text as lists of bytes, integers, lists, maps, and the results of Go functions.
--   Models      gen-go/models: the records and enumerations, with the errors of the program.
--   Resources   resources/: constructors and status functions (Resources/Create, Resources/Status),
--               the transitions of a state machine (Resources/Graph: `stateExists`, `reachable`,
--               `hasValidTransitions`) and `RemoveInactiveStates` (Resources/Prune).
--   WfUpdater   wfupdater/: `ProcessEvents`, which turns an execution's history into jobs, with
--               `eventToJob` (WfUpdater/Events, WfUpdater/Reason, WfUpdater/Update,
--               WfUpdater/Process), `UpdateWorkflowLastJob`, and the loop over pages of
--               `UpdateWorkflowHistory` in executor/workflow_manager_sfn.go.
--   Store       store/store.go: the update of a workflow's attributes, and the interface that
--               clients use, a record of operations and laws. Store/Memory is the store in memory
--               of store/memory/memory_store.go, with `GetWorkflows` in Store/Memory/Query, and
--               Store/Dynamo the store of store/dynamodb/dynamodb_store.go, on tables that are
--               parameters; both fill the interface (Store/Memory/Workflows, Store/Dynamo/Refines).
--   Consumer    cmd/sfn-execution-events-consumer/main.go: the handler of the events that an
--               execution logs, on any store that keeps the laws; Consumer/Dynamo has it on
--               DynamoDB.
--   Handler     handler.go: validation of state machines, the requests that create and update a
--               definition, resolving a workflow; Handler/Requests has the other requests,
--               `ResumeWorkflowByID` among them, on a store and a manager that are parameters,
--               Handler/Descendants the search that it makes, and Handler/Search the query that
--               `GetWorkflows` sends.
--   Executor    executor/: the names and ARNs of executor/sfnconventions (Executor/Conventions,
--               Executor/Arns), and the state machines that
--               executor/workflow_manager_sfn.go makes of the definitions' (Executor/Machines,
--               Executor/Retriers). Executor/Workflows has the cancellation of a workflow, the
--               storing of a history and the merging of tags; Executor/Manager has
--               `describeOrCreateStateMachine`, `CreateWorkflow` and `RetryWorkflow`, with what they
--               call (Executor/Manager/Machine, Executor/Manager/Creation), and Executor/Summary
--               `UpdateWorkflowSummary`. Executor/Cache is the cache of executor/sfncache.
--   Embedded    embedded/embedded.go: the client that runs workflows in a program's own process:
--               its construction (Embedded/New), the validation of definitions
--               (Embedded/Validation), the IDs of workflows (Embedded/Ids), its operations
--               (Embedded/Client, Embedded/Definitions) and the loop that polls for tasks
--               (Embedded/Poll), whose goroutines are steps in any order.
--   Examples    concrete inputs.
--
-- How the state and the operations correspond to the code. A method that changes a shared object
-- is a function from the state before to the state after. `Result` has an error as a value, a
-- panic, and `out_of_fuel`. A Go map is an association list, and `range` visits it in the order of
-- the list, the same each time (Go may change it from one `range` to the next); the theorems hold
-- for lists in any order. `ProcessEvents` shares jobs by
-- pointers between its result and a map from event IDs: the model keeps the jobs in a list,
-- `heap`, and a pointer is an index into it. The clock, the identifiers of `uuid.NewV4`, the
-- answers of the Step Functions API, decompression and the decoding of JSON are parameters.
--
-- A function that calls a service is a function from the state of the service to a result and the
-- state after (Common/Run); the methods of the services, StepFunctions and CloudWatchLogs of
-- Executor/Service and the tables of Store/Dynamo, are parameters.
--
-- Bounds and fuel. Integers of the code are unbounded here, but for the end of a page of `GetWorkflows`
-- in memory, which wraps around, and the parsed timestamps, which are checked against the range of
-- int64 as `strconv.ParseInt` does. The rounds of `RemoveInactiveStates` take
-- as fuel one more than the number of states, which is enough since each round but the last deletes
-- a state. `describeOrCreateStateMachine` calls itself: its fuel is the number of rounds, of which
-- two more are enough than the service may still answer that the state machine does not exist. The
-- fuel of
-- `areDescendantWorkflowsDone` is the depth of the tree of retries, which the code does not bound
-- either; that of the scan of a table is the number of its pages. The second attempt of the
-- DynamoDB store's `UpdateWorkflow` has no jobs, so there is no third. Everything else is structural
-- recursion.
--
-- The workflows of the model are those whose definition is not nil and has a state machine. The
-- goroutine that `CreateWorkflow` leaves when an execution does not start is kept by the ID of the
-- workflow that it deletes, and runs as a step of its own; the conditions of DynamoDB are built as
-- terms and evaluated by the service; Go's order of visiting a map is a parameter of each call.
--
-- Not modelled: the generated server and client; the calls of the search service and the decoding
-- of its answers; making the tables of DynamoDB, their encodings and page keys; the heartbeats
-- and reports of one task and the reflection on functions in embedded/; logging; and the start of
-- the programs.
pub mod Common
pub mod Consumer
pub mod Embedded
pub mod Examples
pub mod Executor
pub mod Handler
pub mod Models
pub mod Resources
pub mod Store
pub mod WfUpdater
