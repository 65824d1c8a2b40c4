-- ===== src/Models.antt =====
-- gen-go/models: the data that the program's parts exchange.
mod Status
mod Machine
mod Records
pub use Status.{StateType, JobStatus, WorkflowStatus, StateResourceType}
unfoldable pub use Status.{StateType-discrete, JobStatus-discrete, WorkflowStatus-discrete}
pub use Machine.{Value, Catcher, Choice, Retrier, Fields, Parameters}
pub use Machine.{StateMachine, States, State, Branches, MachinePtr}
pub use Records.{
  Time, zero_time, StateResource, JobAttempt, Job, zero_job, WorkflowDefinition, zero_definition,
  Workflow, workflow_of, WorkflowQuery, ResolvedByUserWrapper, Error,
}
