-- ===== src/Embedded/Validation.antt =====
-- embedded/embedded.go: the validation of a workflow definition, and the resources that its tasks
-- are given when a workflow starts.
use workflow_manager.Common.{
  ℕ, suc, Text, ◌=?◌, pos, Bool, true, false, ◌&&◌, ◌||◌, not, [], ◌∷◌, ◌++◌, Result, ok, err,
  panic, ◌>>=◌, if◌then◌else◌,
}
use workflow_manager.Common.Int.{ltb_ℤ}
use workflow_manager.Common.Strings.{codes, decimal_ℕ}
use workflow_manager.Models.{
  StateType, Fields, StateMachine, States, State, Branches, MachinePtr, Error,
}
use workflow_manager.Executor.Conventions.{embedded_resource_arn}

-- `a.b`, where an error is.
abbrev pub place : Text → Text → Text
place name state_name = name ++ codes "." ++ state_name

abbrev pub required : Bool → Text → Result Error (Unit {0})
required holds message = if holds then ok tt else err (Error.invalid_state message)

-- The resource of a task must be one of the program's functions.
unfoldable pub check_task : (Text → Bool) → Text → Fields → Result Error (Unit {0})
check_task known at f =
    if f.resource =? []
    then err (Error.invalid_state (codes "must specify resource for task in " ++ at))
    else required (known f.resource) (codes "unknown resource in " ++ at)

-- What follows the switch: an end, or, where the switch asks for one, a next state.
unfoldable pub check_next : Text → Fields → Bool → Result Error (Unit {0})
check_next at f check_next_state =
    if f.is_end
    then ok tt
    else required (not (check_next_state && f.next =? []))
        (codes "must specify next state in " ++ at)

abbrev pub named : Text → Result Error (Unit {0})
named name = required (not (name =? [])) (codes "workflow definition name is required")

abbrev pub no_choices : Fields → Bool
no_choices f = elim f.choices [ [] ↦ true | c ∷ cs ↦ false ]

module _ (known : Text → Bool) where
  unfoldable mutual
    pub validate_workflow_definition : Text → StateMachine → Result Error (Unit {0})
    validate_workflow_definition name
          (StateMachine.machine comment start_at States.nil timeout version) =
        named name >>= λ _.
        err (Error.invalid_state (codes "must define at least one state in " ++ name))
    validate_workflow_definition name
          (StateMachine.machine comment start_at (States.cons sn s rest) timeout version) =
        named name >>= λ _. check_states name false (States.cons sn s rest)

    -- The states from some round of the loop on; the flag is `endFound`.
    pub check_states : Text → Bool → States → Result Error (Unit {0})
    check_states name end_found States.nil =
        required end_found (codes "must specify an end state in " ++ name)
    check_states name end_found (States.cons state_name s rest) =
        check_state name state_name s >>= λ end. check_states name (end_found || end) rest

    -- One round; its value is whether the state is an end.
    pub check_state : Text → Text → State → Result Error Bool
    check_state name state_name (State.state f branches iterator) =
        let at = place name state_name in
        (elim f.type [
          | StateType.task ↦ check_task known at f >>= λ _. ok true
          | StateType.pass ↦
              required (not (f.result =? [] && f.result_path =? []))
                (codes "must specify results in " ++ at)
              >>= λ _. ok true
          | StateType.choice ↦
              required (not (no_choices f)) (codes "must specify at one choice in " ++ at) >>= λ _.
              ok false
          | StateType.wait ↦
              required (ltb_ℤ (pos 0) f.seconds) (codes "invalid seconds parameter in wait " ++ at)
              >>= λ _. ok true
          | StateType.map_state ↦ check_iterator at state_name f iterator >>= λ _. ok true
          | StateType.parallel ↦ check_branches state_name 0 branches >>= λ _. ok false
          | StateType.succeed ↦ ok false
          | StateType.fail ↦ ok false
          | StateType.other t ↦ err (Error.invalid_state (codes "invalid state type in " ++ at))
        ])
        >>= λ check_next_state. check_next at f check_next_state >>= λ _. ok f.is_end

    pub check_iterator : Text → Text → Fields → MachinePtr → Result Error (Unit {0})
    check_iterator at state_name f MachinePtr.null =
        err (Error.invalid_state (codes "required parameter Iterator not given in state " ++ at))
    check_iterator at state_name f (MachinePtr.ref m) =
        required (not (ltb_ℤ f.max_concurrency (pos 0))) (codes "invalid MaxConcurrency in " ++ at)
        >>= λ _. validate_workflow_definition (state_name ++ codes "__Iterator") m

    -- A nil branch is dereferenced. The text that the code puts around an error of a branch or of an
    -- iterator is left out.
    pub check_branches : Text → ℕ → Branches → Result Error (Unit {0})
    check_branches state_name i Branches.none_left = ok tt
    check_branches state_name i (Branches.branch MachinePtr.null rest) = panic
    check_branches state_name i (Branches.branch (MachinePtr.ref m) rest) =
        validate_workflow_definition (state_name ++ codes "__Branch[" ++ decimal_ℕ i ++ codes "]") m
        >>= λ _. check_branches state_name (suc i) rest

module _ (region account_id namespace app : Text) where
  unfoldable pub with_embedded_resource : Fields → Fields
  with_embedded_resource f = record f {
    resource = embedded_resource_arn f.resource region account_id namespace app;
  }

  -- A nil machine is dereferenced.
  unfoldable mutual
    pub set_state_machine_resources : StateMachine → Result Error StateMachine
    set_state_machine_resources (StateMachine.machine comment start_at states timeout version) =
        set_states states >>= λ states'.
        ok (StateMachine.machine comment start_at states' timeout version)

    pub set_states : States → Result Error States
    set_states States.nil = ok States.nil
    set_states (States.cons name s rest) =
        set_state s >>= λ s'. set_states rest >>= λ rest'. ok (States.cons name s' rest')

    pub set_state : State → Result Error State
    set_state (State.state f branches iterator) = elim f.type [
      | StateType.task ↦ ok (State.state (with_embedded_resource f) branches iterator)
      | StateType.parallel ↦
          set_branches branches >>= λ branches'. ok (State.state f branches' iterator)
      | StateType.map_state ↦
          set_ptr iterator >>= λ iterator'. ok (State.state f branches iterator')
      | _ ↦ ok (State.state f branches iterator)
    ]

    pub set_branches : Branches → Result Error Branches
    set_branches Branches.none_left = ok Branches.none_left
    set_branches (Branches.branch m rest) =
        set_ptr m >>= λ m'. set_branches rest >>= λ rest'. ok (Branches.branch m' rest')

    pub set_ptr : MachinePtr → Result Error MachinePtr
    set_ptr MachinePtr.null = panic
    set_ptr (MachinePtr.ref m) = set_state_machine_resources m >>= λ m'. ok (MachinePtr.ref m')
