-- ===== src/Resources/Prune/Closed.antt =====
-- A machine that `RemoveInactiveStates` accepts is closed: its start exists, and every transition
-- that a state demands leads to a state of the same machine, in the nested machines too. The
-- targets of `Catch` are not among the transitions that the code demands.
use workflow_manager.Common.{
  ◌>>=◌, Text, ok, true, false, List, [], ◌∷◌, ◌≡◌, refl, arith, All, sym, subst, ◌∙◌, inl, inr,
  ◌⊎◌, Bool-cases, >>=-eq-ok, ok-injective, ℤ,
}
use workflow_manager.Models.{
  StateType, Choice, Fields, StateMachine, States, State, Branches, MachinePtr,
}
use workflow_manager.Resources.Graph.{
  Flat, flat, state_exists, has_valid_transitions, targets_exist, choices_exist,
}
use workflow_manager.Resources.Prune.{
  all_valid_transitions, remove_inactive_states, remove_nested, remove_in_state, remove_in_branches,
  remove_in_ptr,
}
use workflow_manager.Resources.Prune.Greatest.{prune-SelfSupporting}
use workflow_manager.Resources.Prune.Nested.{remove-prune, nested-keep, nested-drop}

abbrev pub Exists : Flat → Text → Type 0
Exists states name = state_exists name states ≡ true

abbrev pub TargetsExist : Flat → StateType → Fields → Type 0
TargetsExist states StateType.choice s =
    All (λ c. Exists states c.next) s.choices × ((s.default ≡ []) ⊎ Exists states s.default)
TargetsExist states StateType.succeed s = Unit
TargetsExist states StateType.fail s = Unit
TargetsExist states (StateType.other t) s = ⊥
TargetsExist states StateType.pass s = Exists states s.next
TargetsExist states StateType.task s = Exists states s.next
TargetsExist states StateType.wait s = Exists states s.next
TargetsExist states StateType.parallel s = Exists states s.next
TargetsExist states StateType.map_state s = Exists states s.next

-- An end state has no `Next`; every other state has the targets that its type demands.
abbrev pub HasTargets : Flat → Fields → Type 0
HasTargets states s =
    ((s.is_end ≡ true) × (s.next ≡ [])) ⊎ ((s.is_end ≡ false) × TargetsExist states s.type s)

unfoldable mutual
  pub IsClosed : StateMachine → Type 0
  IsClosed (StateMachine.machine comment start_at states timeout version) =
      Exists (flat states) start_at
      × All (λ e. HasTargets (flat states) e.1) (flat states)
      × AllClosed states

  pub AllClosed : States → Type 0
  AllClosed States.nil = Unit
  AllClosed (States.cons name s rest) = IsClosedInside s × AllClosed rest

  pub IsClosedInside : State → Type 0
  IsClosedInside (State.state f branches iterator) = elim f.type [
    | StateType.parallel ↦ AllBranchesClosed branches
    | StateType.map_state ↦ IsClosedPtr iterator
    | _ ↦ Unit
  ]

  pub AllBranchesClosed : Branches → Type 0
  AllBranchesClosed Branches.none_left = Unit
  AllBranchesClosed (Branches.branch m rest) = IsClosedPtr m × AllBranchesClosed rest

  pub IsClosedPtr : MachinePtr → Type 0
  IsClosedPtr MachinePtr.null = ⊥
  IsClosedPtr (MachinePtr.ref m) = IsClosed m

choices-Exists :
    (name : Text) (cs : List Choice) (states : Flat)
    → choices_exist name cs states ≡ ok tt
    → All (λ c. Exists states c.next) cs
unfolding choices_exist
choices-Exists name [] states h = tt
choices-Exists name (c ∷ cs) states h = elim (Bool-cases (state_exists c.next states)) [
  | inl there ↦ (there, choices-Exists name cs states (ground arith))
  | inr gone ↦ absurd (ground arith)
]

targets-TargetsExist :
    (t : StateType) (name : Text) (s : Fields) (states : Flat)
    → targets_exist t name s states ≡ ok tt
    → TargetsExist states t s
unfolding targets_exist
targets-TargetsExist StateType.choice name s states h =
    let (_, h1, h2) = >>=-eq-ok (choices_exist name s.choices states) _ h in
    (choices-Exists name s.choices states h1, ground arith)
targets-TargetsExist StateType.succeed name s states h = tt
targets-TargetsExist StateType.fail name s states h = tt
targets-TargetsExist (StateType.other t) name s states h = absurd (ground arith)
targets-TargetsExist StateType.pass name s states h = ground arith
targets-TargetsExist StateType.task name s states h = ground arith
targets-TargetsExist StateType.wait name s states h = ground arith
targets-TargetsExist StateType.parallel name s states h = ground arith
targets-TargetsExist StateType.map_state name s states h = ground arith

-- A state with valid transitions has its targets.
pub has_valid_transitions-HasTargets :
    (name : Text) (s : Fields) (states : Flat)
    → has_valid_transitions name s states ≡ ok tt
    → HasTargets states s
unfolding has_valid_transitions
has_valid_transitions-HasTargets name s states h = elim (Bool-cases s.is_end) [
  | inl end ↦ inl (end, ground arith)
  | inr more ↦ inr (more, targets-TargetsExist s.type name s states (ground arith))
]

All-HasTargets :
    (entries states : Flat)
    → all_valid_transitions entries states ≡ ok tt
    → All (λ e. HasTargets states e.1) entries
unfolding all_valid_transitions
All-HasTargets [] states h = tt
All-HasTargets ((name, s) ∷ rest) states h =
    let (_, h1, h2) = >>=-eq-ok (has_valid_transitions name s states) _ h in
    (has_valid_transitions-HasTargets name s states h1, All-HasTargets rest states h2)

-- The three cases of `remove_in_state`, and of what it has to establish.
data Kind (f : Fields) : Type 0 where
  is_parallel : f.type ≡ StateType.parallel → Kind f
  is_map : f.type ≡ StateType.map_state → Kind f
  is_plain :
      ((bs : Branches) (it : MachinePtr)
        → (remove_in_state (State.state f bs it) ≡ ok (State.state f bs it))
          × IsClosedInside (State.state f bs it))
      → Kind f

kind : (f : Fields) → Kind f
unfolding remove_in_state IsClosedInside
kind f = go f.type refl
  where
    go : (t : StateType) → f.type ≡ t → Kind f
    go StateType.parallel e = is_parallel e
    go StateType.map_state e = is_map e
    go t e = is_plain (λ bs it. (rw (e, remove_in_state), rw (e, IsClosedInside) tt))

parallel-step :
    (f : Fields) (bs : Branches) (it : MachinePtr)
    → f.type ≡ StateType.parallel
    → remove_in_state (State.state f bs it)
      ≡ (remove_in_branches bs >>= λ bs'. ok (State.state f bs' it))
unfolding remove_in_state
parallel-step f bs it e = ground arith

map-step :
    (f : Fields) (bs : Branches) (it : MachinePtr)
    → f.type ≡ StateType.map_state
    → remove_in_state (State.state f bs it)
      ≡ (remove_in_ptr it >>= λ it'. ok (State.state f bs it'))
unfolding remove_in_state
map-step f bs it e = ground arith

parallel-closed :
    (f : Fields) (bs : Branches) (it : MachinePtr)
    → f.type ≡ StateType.parallel
    → AllBranchesClosed bs
    → IsClosedInside (State.state f bs it)
unfolding IsClosedInside
parallel-closed f bs it e h = rw (e, IsClosedInside) h

map-closed :
    (f : Fields) (bs : Branches) (it : MachinePtr)
    → f.type ≡ StateType.map_state
    → IsClosedPtr it
    → IsClosedInside (State.state f bs it)
unfolding IsClosedInside
map-closed f bs it e h = rw (e, IsClosedInside) h

machine-IsClosed :
    (comment start_at : Text) (states : States) (timeout : ℤ) (version : Text) (m : StateMachine)
    → remove_inactive_states (StateMachine.machine comment start_at states timeout version) ≡ ok m
    → ((left : States) → remove_nested (flat left) states ≡ ok left → AllClosed left)
    → IsClosed m
unfolding IsClosed
machine-IsClosed comment start_at states timeout version m h inner =
    let (left, e, nested, there, pruned, valid) =
      remove-prune comment start_at states timeout version m h in
    let start_kept =
      prune-SelfSupporting start_at (λ n. n ≡ start_at) (flat states) (flat left) pruned
        (λ n same. (subst (Exists (flat states)) (sym same) there, inl (sym same))) in
    rw e (
      (start_kept start_at refl).0,
      All-HasTargets (flat left) (flat left) valid,
      inner left nested,
    )

mutual
  unfolding IsClosed remove_inactive_states

  IsClosed-machine : (given m : StateMachine) → remove_inactive_states given ≡ ok m → IsClosed m
  IsClosed-machine (StateMachine.machine comment start_at states timeout version) m h =
      machine-IsClosed comment start_at states timeout version m h
        (λ left. closed_states states (flat left) left)

  closed_states :
      (states : States) (kept : Flat) (left : States)
      → remove_nested kept states ≡ ok left
      → AllClosed left
  closed_states States.nil kept left h = subst AllClosed (ok-injective h) tt
  closed_states (States.cons name s rest) kept left h = elim (Bool-cases (state_exists name kept)) [
    | inr gone ↦ closed_states rest kept left (sym (nested-drop kept name s rest gone) ∙ h)
    | inl there ↦
        let (s', inner, h') =
          >>=-eq-ok (remove_in_state s) _ (sym (nested-keep kept name s rest there) ∙ h) in
        let (rest', outer, last) = >>=-eq-ok (remove_nested kept rest) _ h' in
        subst AllClosed (ok-injective last)
          (closed_inside s s' inner, closed_states rest kept rest' outer)
  ]

  closed_inside : (s s' : State) → remove_in_state s ≡ ok s' → IsClosedInside s'
  closed_inside (State.state f bs it) s' h = elim (kind f) [
    | is_parallel e ↦
        let (bs', inner, last) =
          >>=-eq-ok (remove_in_branches bs) _ (sym (parallel-step f bs it e) ∙ h) in
        subst IsClosedInside (ok-injective last)
          (parallel-closed f bs' it e (closed_branches bs bs' inner))
    | is_map e ↦
        let (it', inner, last) = >>=-eq-ok (remove_in_ptr it) _ (sym (map-step f bs it e) ∙ h) in
        subst IsClosedInside (ok-injective last) (map-closed f bs it' e (closed_ptr it it' inner))
    | is_plain p ↦
        let (same, closed) = p bs it in
        let last = sym same ∙ h in subst IsClosedInside (ok-injective last) closed
  ]

  closed_branches : (bs left : Branches) → remove_in_branches bs ≡ ok left → AllBranchesClosed left
  closed_branches Branches.none_left left h = subst AllBranchesClosed (ok-injective h) tt
  closed_branches (Branches.branch m rest) left h =
      let (m', inner, h') = >>=-eq-ok (remove_in_ptr m) _ h in
      let (rest', outer, last) = >>=-eq-ok (remove_in_branches rest) _ h' in
      subst AllBranchesClosed (ok-injective last)
        (closed_ptr m m' inner, closed_branches rest rest' outer)

  closed_ptr : (p p' : MachinePtr) → remove_in_ptr p ≡ ok p' → IsClosedPtr p'
  closed_ptr MachinePtr.null p' h = absurd (ground arith)
  closed_ptr (MachinePtr.ref m) p' h =
      let (m', inner, last) = >>=-eq-ok (remove_inactive_states m) _ h in
      subst IsClosedPtr (ok-injective last) (IsClosed-machine m m' inner)

-- A machine that `RemoveInactiveStates` returns without an error is closed: its start is one of
-- its states; an end state has no `Next`; every other state is of a known type and has the states
-- that its type demands among the machine's: `Next` for pass, task, wait, parallel and map states,
-- the targets of all choices and a default that is not empty for choice states; and the same holds
-- of the machines nested in parallel and map states, none of which is nil.
pub remove_inactive_states-IsClosed :
    (given m : StateMachine) → remove_inactive_states given ≡ ok m → IsClosed m
remove_inactive_states-IsClosed given m h = IsClosed-machine given m h
