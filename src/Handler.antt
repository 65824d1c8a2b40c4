-- ===== src/Handler.antt =====
-- handler.go: the requests that store a workflow definition, the validation that they start with,
-- and the resolution of a workflow.
pub mod Validate
pub mod Definitions
pub mod Descendants
pub mod Requests
pub mod Search
use workflow_manager.Common.{
  ℕ, ◌+◌, Text, ◌=?◌, ℤ, pos, Bool, true, false, ◌&&◌, ◌||◌, not, List, [], ◌∷◌, Option, none, some,
  Result, ok, err, panic, ◌>>=◌, if◌then◌else◌, length, ltb, ◌==◌,
}
use workflow_manager.Common.Int.{ltb_ℤ}
use workflow_manager.Common.Maps.{Map}
use workflow_manager.Common.Strings.{codes}
use workflow_manager.Models.{
  Value, Time, JobStatus, Workflow, WorkflowDefinition, StateType, Choice, Fields, StateMachine,
  States, State, Branches, MachinePtr, Error,
}
use workflow_manager.Resources.Create.{new_workflow_definition}
use workflow_manager.Resources.Prune.{remove_inactive_states}

-- `NewWorkflowDefinitionRequest`
pub record DefinitionRequest : Type 0 where
  pub name : Text
  pub manager : Text
  pub state_machine : MachinePtr
  pub default_tags : Map Text Value

unfoldable pub validate_end_state : Fields → Result Error (Unit {0})
validate_end_state s =
    if s.next =? [] then ok tt else err (Error.invalid_state (codes "end state with a Next value"))

abbrev pub one_if : Bool → ℕ
one_if true = 1
one_if false = 0

unfoldable pub validate_wait_state : Fields → Result Error (Unit {0})
validate_wait_state s =
    let wait_time_fields =
      one_if (ltb_ℤ (pos 0) s.seconds)
      + one_if (not (s.seconds_path =? []))
      + one_if (not (s.timestamp =? []))
      + one_if (not (s.timestamp_path =? [])) in
    if wait_time_fields == 1
    then ok tt
    else err (Error.invalid_state (codes "one and only one field to specify wait time"))

unfoldable pub validate_choices : List Choice → Result Error (Unit {0})
validate_choices [] = ok tt
validate_choices (c ∷ cs) =
    if c.next =? []
    then err (Error.invalid_state (codes "choice without Next"))
    else validate_choices cs

unfoldable pub validate_choice_state : Fields → Result Error (Unit {0})
unfolding validate_choices
validate_choice_state s = elim s.choices [
  | [] ↦ err (Error.invalid_state (codes "no choice"))
  | c ∷ cs ↦ validate_choices (c ∷ cs)
]

unfoldable pub validate_task_state : Fields → Result Error (Unit {0})
validate_task_state s =
    if s.resource =? [] then err (Error.invalid_state (codes "task without resource")) else ok tt

unfoldable mutual
  pub validate_state_machine : StateMachine → Result Error (Unit {0})
  validate_state_machine (StateMachine.machine comment start_at States.nil timeout version) =
      err (Error.invalid_state (codes "no state"))
  validate_state_machine
        (StateMachine.machine comment start_at (States.cons name s rest) timeout version) =
      validate_states (States.cons name s rest)

  pub validate_states : States → Result Error (Unit {0})
  validate_states States.nil = ok tt
  validate_states (States.cons name s rest) = validate_state s >>= λ _. validate_states rest

  pub validate_state : State → Result Error (Unit {0})
  validate_state (State.state f branches iterator) = elim f.type [
    | StateType.map_state ↦ validate_map_state iterator
    | StateType.parallel ↦ validate_parallel_state branches
    | StateType.task ↦ validate_task_state f
    | StateType.choice ↦ validate_choice_state f
    | StateType.pass ↦ ok tt
    | StateType.wait ↦ validate_wait_state f
    | StateType.fail ↦ validate_end_state f
    | StateType.succeed ↦ validate_end_state f
    | StateType.other t ↦ err (Error.unsupported_type (StateType.other t))
  ]

  pub validate_parallel_state : Branches → Result Error (Unit {0})
  validate_parallel_state Branches.none_left = err (Error.invalid_state (codes "no branch"))
  validate_parallel_state (Branches.branch m rest) =
      validate_branch m >>= λ _. validate_branches rest

  pub validate_branches : Branches → Result Error (Unit {0})
  validate_branches Branches.none_left = ok tt
  validate_branches (Branches.branch m rest) = validate_branch m >>= λ _. validate_branches rest

  -- A nil machine is dereferenced.
  pub validate_branch : MachinePtr → Result Error (Unit {0})
  validate_branch MachinePtr.null = panic
  validate_branch (MachinePtr.ref m) = validate_state_machine m

  pub validate_map_state : MachinePtr → Result Error (Unit {0})
  validate_map_state MachinePtr.null = err (Error.invalid_state (codes "no iterator"))
  validate_map_state (MachinePtr.ref m) = validate_state_machine m

abbrev pub add_counts : Result Error ℕ → Result Error ℕ → Result Error ℕ
add_counts m n = m >>= λ a. n >>= λ b. ok (a + b)

unfoldable mutual
  pub state_count : StateMachine → Result Error ℕ
  state_count (StateMachine.machine comment start_at states timeout version) = count_states states

  pub count_states : States → Result Error ℕ
  count_states States.nil = ok 0
  count_states (States.cons name s rest) = add_counts (count_state s) (count_states rest)

  pub count_state : State → Result Error ℕ
  count_state (State.state f branches iterator) = elim f.type [
    | StateType.parallel ↦ count_branches branches
    | StateType.map_state ↦ count_ptr iterator
    | _ ↦ ok 1
  ]

  pub count_branches : Branches → Result Error ℕ
  count_branches Branches.none_left = ok 0
  count_branches (Branches.branch m rest) = add_counts (count_ptr m) (count_branches rest)

  pub count_ptr : MachinePtr → Result Error ℕ
  count_ptr MachinePtr.null = panic
  count_ptr (MachinePtr.ref m) = state_count m

unfoldable pub validate_tags_map : Map Text Value → Result Error (Unit {0})
validate_tags_map [] = ok tt
validate_tags_map ((k, Value.string v) ∷ tags) = validate_tags_map tags
validate_tags_map ((k, Value.json v) ∷ tags) = err (Error.invalid_state v)

-- The identifier and the instant are those of `NewWorkflowDefinition`.
unfoldable pub definition_of_machine :
    Text → Time → DefinitionRequest → StateMachine → Result Error WorkflowDefinition
definition_of_machine uuid now req (StateMachine.machine comment start_at states timeout version) =
    if start_at =? []
    then err (Error.invalid_state (codes "StartAt is a required field"))
    else state_count (StateMachine.machine comment start_at states timeout version) >>= λ before.
        remove_inactive_states (StateMachine.machine comment start_at states timeout version)
        >>= λ m. state_count m >>= λ after.
            if not (after == before)
            then err (Error.invalid_state (codes "states have no transition path"))
            else (validate_tags_map req.default_tags >>= λ _.
                ok (new_workflow_definition uuid now req.name req.manager m req.default_tags))

unfoldable pub new_workflow_definition_from_request :
    Text → Time → DefinitionRequest → Result Error WorkflowDefinition
unfolding definition_of_machine
new_workflow_definition_from_request uuid now req = elim req.state_machine [
  | MachinePtr.null ↦ panic
  | MachinePtr.ref m ↦ definition_of_machine uuid now req m
]

unfoldable pub has_job_started : JobStatus → Bool
has_job_started JobStatus.aborted_deps_failed = false
has_job_started JobStatus.queued = false
has_job_started JobStatus.waiting_for_deps = false
has_job_started JobStatus.created = false
has_job_started _ = true

-- The store's operations on a state of any kind.
module _ (Store : Type 0) where
  -- The handler `NewWorkflowDefinition`.
  unfoldable pub create_definition :
      (WorkflowDefinition → Store → Result Error Store)
      → Text
      → Time
      → DefinitionRequest
      → Store
      → Result Error (Store × WorkflowDefinition)
  create_definition save uuid now req s =
      if req.name =? []
      then err (Error.invalid_state (codes "name is required"))
      else validate_branch req.state_machine >>= λ _.
          new_workflow_definition_from_request uuid now req >>= λ def.
          save def s >>= λ s'. ok (s', def)

  -- The handler `UpdateWorkflowDefinition`; `name` is the one in the path.
  unfoldable pub update_definition :
      (WorkflowDefinition → Store → Result Error (Store × WorkflowDefinition))
      → Text
      → Time
      → Text
      → Option DefinitionRequest
      → Store
      → Result Error (Store × WorkflowDefinition)
  update_definition update uuid now name none s =
      err (Error.invalid_state (codes "Name in path must match WorkflowDefinition object"))
  update_definition update uuid now name (some req) s =
      if not (req.name =? name)
      then err (Error.invalid_state (codes "Name in path must match WorkflowDefinition object"))
      else (validate_branch req.state_machine >>= λ _.
          new_workflow_definition_from_request uuid now req >>= λ def. update def s)

  unfoldable pub resolve_workflow_by_id :
      (Text → Store → Result Error Workflow)
      → (Workflow → Store → Result Error Store)
      → Text
      → Store
      → Result Error Store
  resolve_workflow_by_id get update id s = get id s >>= λ wf.
      if wf.resolved_by_user
      then err (Error.conflict wf.id)
      else update (record wf { resolved_by_user = true }) s
