-- ===== src/Examples/Machines.antt =====
-- State machines: the start leads to one other state; one state leads only to itself, and one,
-- to which nothing leads, to the second.
use workflow_manager.Common.{
  Text, Text-discrete, ◌=?◌, ℤ, pos, true, false, List, [], ◌∷◌, Option, none, some, Result, ok,
  out_of_fuel, ◌≡◌, ◌≢◌, ◌⊎◌, refl, sym, subst, inl, inr, Memᴰ,
}
use workflow_manager.Common.Strings.{codes}
use workflow_manager.Models.{StateType, Fields, StateMachine, States, State, Branches, MachinePtr}
use workflow_manager.Resources.Graph.{Flat, flat, refers, state_exists}
use workflow_manager.Resources.Prune.{
  prune, remove_inactive_states, remove_nested, all_valid_transitions,
}
use workflow_manager.Resources.Prune.Total.{AllKnown, prune-ne-out_of_fuel}
use workflow_manager.Resources.Prune.Greatest.{Referred, SelfSupporting}
use workflow_manager.Resources.Prune.Walks.{
  Reach, here, step, prune-Reach, prune-supported, prune-greatest, self_loop-kept,
}
use workflow_manager.Resources.Prune.Closed.{IsClosed, remove_inactive_states-IsClosed}

abbrev pub a_state : StateType → Text → Fields
a_state type next = record {
  type = type;
  catch = [];
  cause = [];
  choices = [];
  comment = [];
  default = [];
  is_end = false;
  error = [];
  heartbeat_seconds = pos 0;
  input_path = [];
  items_path = [];
  max_concurrency = pos 0;
  next = next;
  output_path = [];
  parameters = none;
  resource = [];
  result = [];
  result_path = [];
  result_selector = [];
  retry = none;
  seconds = pos 0;
  seconds_path = [];
  timeout_seconds = pos 0;
  timestamp = [];
  timestamp_path = [];
}

abbrev first : Fields
first = a_state StateType.pass (codes "second")

abbrev pub second : Fields
second = a_state StateType.succeed []

abbrev spinning : Fields
spinning = a_state StateType.pass (codes "spin")

abbrev four_states : Flat
four_states =
    (codes "first", first)
    ∷ (codes "second", second)
    ∷ (codes "spin", spinning)
    ∷ (codes "lost", first)
    ∷ []

abbrev three_states : Flat
three_states = (codes "first", first) ∷ (codes "second", second) ∷ (codes "spin", spinning) ∷ []

four_states-AllKnown : AllKnown four_states
four_states-AllKnown = ((λ x e. cc), ((λ x e. cc), ((λ x e. cc), ((λ x e. cc), tt))))

prune-four_states : prune (codes "first") four_states ≡ ok three_states
unfolding prune workflow_manager.Resources.Prune.prune_loop
    workflow_manager.Resources.Prune.prune_pass workflow_manager.Resources.Graph.reachable
    state_exists workflow_manager.Common.Maps.get Text-discrete
    workflow_manager.Resources.Graph.scan refers workflow_manager.Resources.Graph.any_catch
    workflow_manager.Common.Maps.delete
prune-four_states = refl

prune-ne-out_of_fuel_example : prune (codes "first") four_states ≢ out_of_fuel
prune-ne-out_of_fuel_example = prune-ne-out_of_fuel (codes "first") four_states

second-Reach : Reach (codes "first") four_states (codes "second")
unfolding state_exists refers workflow_manager.Common.Maps.get Text-discrete
second-Reach = step first (here refl) (Memᴰ.head refl) refl refl

prune-Reach_example : state_exists (codes "second") three_states ≡ true
prune-Reach_example =
    prune-Reach (codes "first") four_states three_states (codes "second") prune-four_states
      second-Reach

abbrev spin_entry : Text × Fields
spin_entry = (codes "spin", spinning)

prune-supported_example :
    Memᴰ spin_entry four_states
    × ((codes "first" ≡ codes "spin") ⊎ Referred three_states (codes "spin"))
prune-supported_example =
    prune-supported (codes "first") four_states three_states spin_entry prune-four_states
      (Memᴰ.tail (Memᴰ.tail (Memᴰ.head refl)))

abbrev IsSpin : Text → Type 0
IsSpin name = name ≡ codes "spin"

IsSpin-SelfSupporting : SelfSupporting (codes "first") IsSpin four_states
unfolding state_exists refers workflow_manager.Common.Maps.get Text-discrete
IsSpin-SelfSupporting name e = (
  subst (λ n. state_exists n four_states ≡ true) (sym e) refl,
  inr (
    codes "spin",
    spinning,
    refl,
    Memᴰ.tail (Memᴰ.tail (Memᴰ.head refl)),
    subst (λ n. refers n spinning ≡ some true) (sym e) refl,
  ),
)

prune-greatest_example : state_exists (codes "spin") three_states ≡ true
prune-greatest_example =
    prune-greatest (codes "first") four_states three_states IsSpin (codes "spin") prune-four_states
      IsSpin-SelfSupporting refl

spinning-refers : refers (codes "spin") spinning ≡ some true
unfolding refers Text-discrete
spinning-refers = refl

self_loop-kept_example : state_exists (codes "spin") three_states ≡ true
self_loop-kept_example =
    self_loop-kept (codes "first") four_states (codes "spin") spinning three_states
      (Memᴰ.tail (Memᴰ.tail (Memᴰ.head refl))) spinning-refers prune-four_states

-- A parallel state with one branch, which has a state that nothing leads to.
abbrev pub leaf : Fields → State
leaf f = State.state f Branches.none_left MachinePtr.null

abbrev pub inner_left : StateMachine
inner_left =
    StateMachine.machine [] (codes "second") (States.cons (codes "second") (leaf second) States.nil)
      (pos 0) []

abbrev inner_given : StateMachine
inner_given =
    StateMachine.machine [] (codes "second")
      (States.cons (codes "lost") (leaf first)
        (States.cons (codes "second") (leaf second) States.nil))
      (pos 0) []

abbrev fork : Fields
fork = record (a_state StateType.parallel []) { is_end = true }

abbrev outer_states : StateMachine → States
outer_states inner =
    States.cons (codes "fork")
      (State.state fork (Branches.branch (MachinePtr.ref inner) Branches.none_left) MachinePtr.null)
      States.nil

abbrev outer_machine : StateMachine → StateMachine
outer_machine inner = StateMachine.machine [] (codes "fork") (outer_states inner) (pos 0) []

remove-outer : remove_inactive_states (outer_machine inner_given) ≡ ok (outer_machine inner_left)
unfolding remove_inactive_states state_exists workflow_manager.Common.Maps.get flat Text-discrete
    prune workflow_manager.Resources.Prune.prune_loop workflow_manager.Resources.Prune.prune_pass
    workflow_manager.Resources.Graph.reachable all_valid_transitions
    workflow_manager.Resources.Graph.has_valid_transitions workflow_manager.Resources.Graph.scan
    refers workflow_manager.Resources.Graph.any_catch workflow_manager.Common.Maps.delete
remove-outer = refl

remove_inactive_states-IsClosed_example : IsClosed (outer_machine inner_left)
remove_inactive_states-IsClosed_example =
    remove_inactive_states-IsClosed (outer_machine inner_given) (outer_machine inner_left)
      remove-outer
