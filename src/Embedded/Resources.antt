-- ===== src/Embedded/Resources.antt =====
-- embedded/embedded.go: what the tasks of a validated definition are given as resources.
use workflow_manager.Common.{
  ℕ, suc, pos, not, Text, Bool, true, false, ◌||◌, ok, ◌>>=◌, ◌≡◌, refl, arith, >>=-eq-ok, Returns,
  Returns->>=, Returns-ok, ◌++◌,
}
use workflow_manager.Common.Int.{ltb_ℤ}
use workflow_manager.Common.Strings.{codes}
use workflow_manager.Models.{StateType, Fields, StateMachine, States, State, Branches, MachinePtr}
use workflow_manager.Executor.Conventions.{embedded_resource_arn}
use workflow_manager.Embedded.Validation.{
  validate_workflow_definition, check_states, check_state, check_iterator, check_branches,
  check_task, required, place, named, set_state_machine_resources, set_states, set_state,
  set_branches, set_ptr, with_embedded_resource,
}

-- Each task of a machine, at any depth, has a resource that satisfies the predicate.
module _ (Good : Text → Type 0) where
  unfoldable mutual
    pub MachineTasks : StateMachine → Type 0
    MachineTasks (StateMachine.machine comment start_at states timeout version) = StatesTasks states

    pub StatesTasks : States → Type 0
    StatesTasks States.nil = Unit
    StatesTasks (States.cons name s rest) = StateTasks s × StatesTasks rest

    pub StateTasks : State → Type 0
    StateTasks (State.state f branches iterator) = elim f.type [
      | StateType.task ↦ Good f.resource
      | StateType.parallel ↦ BranchesTasks branches
      | StateType.map_state ↦ PtrTasks iterator
      | _ ↦ Unit
    ]

    pub BranchesTasks : Branches → Type 0
    BranchesTasks Branches.none_left = Unit
    BranchesTasks (Branches.branch m rest) = PtrTasks m × BranchesTasks rest

    pub PtrTasks : MachinePtr → Type 0
    PtrTasks MachinePtr.null = Unit
    PtrTasks (MachinePtr.ref m) = MachineTasks m

module _ (known : Text → Bool) (region account_id namespace app : Text) where
  -- The ARN of a resource that the program knows.
  abbrev pub IsKnownArn : Text → Type 0
  IsKnownArn arn =
      (resource : Text) × (known resource ≡ true)
      × (arn ≡ embedded_resource_arn resource region account_id namespace app)

  -- What a state's type leaves of its check and its setting.
  data Kind (f : Fields) : Type 0 where
    is_task :
        ((bs : Branches) (it : MachinePtr) (name sn : Text) (e : Bool)
          → check_state known name sn (State.state f bs it) ≡ ok e
          → Returns
              (StateTasks IsKnownArn)
              (set_state region account_id namespace app (State.state f bs it)))
        → Kind f
    is_parallel : f.type ≡ StateType.parallel → Kind f
    is_map : f.type ≡ StateType.map_state → Kind f

  check_task-known :
      (at : Text) (f : Fields) → check_task known at f ≡ ok tt → known f.resource ≡ true
  unfolding check_task
  check_task-known at f h = ground arith

  kind : (f : Fields) → Kind f
  unfolding set_state StateTasks check_state with_embedded_resource
  kind f = go f.type refl
    where
      go : (t : StateType) → f.type ≡ t → Kind f
      go StateType.parallel e = is_parallel e
      go StateType.map_state e = is_map e
      go StateType.task e = is_task (λ bs it name sn end h.
          let (_, checked, _) = >>=-eq-ok _ _ (rw e at h) in
          let (_, checked', _) = >>=-eq-ok (check_task known _ f) _ checked in
          rw (e, set_state) (f.resource, check_task-known _ f checked', refl))
      go t e = is_task (λ bs it name sn end h. rw (e, set_state) tt)

  parallel-set :
      (f : Fields) (bs : Branches) (it : MachinePtr)
      → f.type ≡ StateType.parallel
      → Returns (BranchesTasks IsKnownArn) (set_branches region account_id namespace app bs)
      → Returns
          (StateTasks IsKnownArn)
          (set_state region account_id namespace app (State.state f bs it))
  unfolding set_state StateTasks
  parallel-set f bs it e h =
      let (bs', same, good) =
        Returns-ok (BranchesTasks IsKnownArn) (set_branches region account_id namespace app bs) h in
      rw (e, same) good

  map-set :
      (f : Fields) (bs : Branches) (it : MachinePtr)
      → f.type ≡ StateType.map_state
      → Returns (PtrTasks IsKnownArn) (set_ptr region account_id namespace app it)
      → Returns
          (StateTasks IsKnownArn)
          (set_state region account_id namespace app (State.state f bs it))
  unfolding set_state StateTasks
  map-set f bs it e h =
      let (it', same, good) =
        Returns-ok (PtrTasks IsKnownArn) (set_ptr region account_id namespace app it) h in
      rw (e, same) good

  checked-branches :
      (f : Fields) (bs : Branches) (it : MachinePtr) (name sn : Text) (end : Bool)
      → f.type ≡ StateType.parallel
      → check_state known name sn (State.state f bs it) ≡ ok end
      → check_branches known sn 0 bs ≡ ok tt
  unfolding check_state
  checked-branches f bs it name sn end e h =
      let (_, checked, _) = >>=-eq-ok _ _ (rw e at h) in
      let (_, inner, _) = >>=-eq-ok (check_branches known sn 0 bs) _ checked in inner

  checked-iterator :
      (f : Fields) (bs : Branches) (it : MachinePtr) (name sn : Text) (end : Bool)
      → f.type ≡ StateType.map_state
      → check_state known name sn (State.state f bs it) ≡ ok end
      → check_iterator known (place name sn) sn f it ≡ ok tt
  unfolding check_state
  checked-iterator f bs it name sn end e h =
      let (_, checked, _) = >>=-eq-ok _ _ (rw e at h) in
      let (_, inner, _) = >>=-eq-ok (check_iterator known (place name sn) sn f it) _ checked in
      inner

  ptr-set :
      (m : StateMachine)
      → Returns
          (MachineTasks IsKnownArn)
          (set_state_machine_resources region account_id namespace app m)
      → Returns (PtrTasks IsKnownArn) (set_ptr region account_id namespace app (MachinePtr.ref m))
  unfolding set_ptr PtrTasks
  ptr-set m h =
      Returns->>= (MachineTasks IsKnownArn) (PtrTasks IsKnownArn)
        (set_state_machine_resources region account_id namespace app m)
        (λ m'. ok (MachinePtr.ref m')) h (λ m' good. good)

  cons-set :
      (sn : Text) (s : State) (rest : States)
      → Returns (StateTasks IsKnownArn) (set_state region account_id namespace app s)
      → Returns (StatesTasks IsKnownArn) (set_states region account_id namespace app rest)
      → Returns
          (StatesTasks IsKnownArn)
          (set_states region account_id namespace app (States.cons sn s rest))
  unfolding set_states StatesTasks
  cons-set sn s rest h k =
      Returns->>= (StateTasks IsKnownArn) (StatesTasks IsKnownArn)
        (set_state region account_id namespace app s)
        (λ s'.
          set_states region account_id namespace app rest >>= λ rest'. ok (States.cons sn s' rest'))
        h
        (λ s' good.
          Returns->>= (StatesTasks IsKnownArn) (StatesTasks IsKnownArn)
            (set_states region account_id namespace app rest)
            (λ rest'. ok (States.cons sn s' rest')) k (λ rest' goods. (good, goods)))

  branch-set :
      (m : StateMachine) (rest : Branches)
      → Returns
          (MachineTasks IsKnownArn)
          (set_state_machine_resources region account_id namespace app m)
      → Returns (BranchesTasks IsKnownArn) (set_branches region account_id namespace app rest)
      → Returns
          (BranchesTasks IsKnownArn)
          (set_branches region account_id namespace app (Branches.branch (MachinePtr.ref m) rest))
  unfolding set_branches BranchesTasks
  branch-set m rest h k =
      Returns->>= (PtrTasks IsKnownArn) (BranchesTasks IsKnownArn)
        (set_ptr region account_id namespace app (MachinePtr.ref m))
        (λ m'. set_branches region account_id namespace app rest >>= λ rest'.
          ok (Branches.branch m' rest'))
        (ptr-set m h)
        (λ m' good.
          Returns->>= (BranchesTasks IsKnownArn) (BranchesTasks IsKnownArn)
            (set_branches region account_id namespace app rest)
            (λ rest'. ok (Branches.branch m' rest')) k (λ rest' goods. (good, goods)))

  mutual
    unfolding validate_workflow_definition set_state_machine_resources MachineTasks

    machine-set :
        (name : Text) (m : StateMachine)
        → validate_workflow_definition known name m ≡ ok tt
        → Returns
            (MachineTasks IsKnownArn)
            (set_state_machine_resources region account_id namespace app m)
    machine-set name (StateMachine.machine c start States.nil t v) h = tt
    machine-set name (StateMachine.machine c start (States.cons sn s rest) t v) h =
        let (_, _, inner) = >>=-eq-ok (named name) _ h in
        Returns->>= (StatesTasks IsKnownArn) (MachineTasks IsKnownArn)
          (set_states region account_id namespace app (States.cons sn s rest))
          (λ states'. ok (StateMachine.machine c start states' t v))
          (states-set name false (States.cons sn s rest) inner) (λ states' good. good)

    states-set :
        (name : Text) (end : Bool) (states : States)
        → check_states known name end states ≡ ok tt
        → Returns (StatesTasks IsKnownArn) (set_states region account_id namespace app states)
    states-set name end States.nil h = tt
    states-set name end (States.cons sn s rest) h =
        let (here, e, later) = >>=-eq-ok (check_state known name sn s) _ h in
        cons-set sn s rest (state-set name sn s here e) (states-set name (end || here) rest later)

    state-set :
        (name sn : Text) (s : State) (end : Bool)
        → check_state known name sn s ≡ ok end
        → Returns (StateTasks IsKnownArn) (set_state region account_id namespace app s)
    state-set name sn (State.state f bs it) end h = elim (kind f) [
      | is_task good ↦ good bs it name sn end h
      | is_parallel e ↦
          parallel-set f bs it e (branches-set sn 0 bs (checked-branches f bs it name sn end e h))
      | is_map e ↦
          map-set f bs it e
            (iterator-set (place name sn) sn f it (checked-iterator f bs it name sn end e h))
    ]

    branches-set :
        (sn : Text) (i : ℕ) (bs : Branches)
        → check_branches known sn i bs ≡ ok tt
        → Returns (BranchesTasks IsKnownArn) (set_branches region account_id namespace app bs)
    branches-set sn i Branches.none_left h = tt
    branches-set sn i (Branches.branch MachinePtr.null rest) h = cc
    branches-set sn i (Branches.branch (MachinePtr.ref m) rest) h =
        let (_, here, later) = >>=-eq-ok (validate_workflow_definition known _ m) _ h in
        branch-set m rest (machine-set _ m here) (branches-set sn (suc i) rest later)

    iterator-set :
        (at sn : Text) (f : Fields) (it : MachinePtr)
        → check_iterator known at sn f it ≡ ok tt
        → Returns (PtrTasks IsKnownArn) (set_ptr region account_id namespace app it)
    iterator-set at sn f MachinePtr.null h = cc
    iterator-set at sn f (MachinePtr.ref m) h =
        let (_, _, inner) =
          >>=-eq-ok
            (required (not (ltb_ℤ f.max_concurrency (pos 0)))
              (codes "invalid MaxConcurrency in " ++ at))
            _ h in
        ptr-set m (machine-set (sn ++ codes "__Iterator") m inner)

  -- A machine that the validation accepts is given its resources without a fault, and then each of its
  -- tasks, at any depth, has the ARN of a resource that the program knows.
  pub set_state_machine_resources-IsKnownArn :
      (name : Text) (m : StateMachine)
      → validate_workflow_definition known name m ≡ ok tt
      → Returns
          (MachineTasks IsKnownArn)
          (set_state_machine_resources region account_id namespace app m)
  set_state_machine_resources-IsKnownArn name m h = machine-set name m h
