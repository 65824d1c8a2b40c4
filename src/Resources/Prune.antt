-- ===== src/Resources/Prune.antt =====
-- resources/workflow_definitions.go: `RemoveInactiveStates`. Its loop runs on fuel, one more than
-- the number of states, and `Total` shows that this is enough. A state that is removed takes its
-- nested machines along, so the recursion over the nested machines of the states that are left
-- follows the given machine and skips the names that are gone.
pub mod Total
pub mod Greatest
pub mod Walks
pub mod Nested
pub mod Closed
use workflow_manager.Common.{
  ℕ, zero, suc, Text, Text-discrete, Result, ok, err, panic, out_of_fuel, ◌>>=◌, if◌then◌else◌,
  Bool, true, false, not, ◌&&◌, List, [], ◌∷◌, length,
}
use workflow_manager.Common.Maps.{Map, keys, get, delete}
use workflow_manager.Models.{
  StateType, Fields, StateMachine, States, State, Branches, MachinePtr, Error,
}
use workflow_manager.Resources.Graph.{Flat, flat, state_exists, reachable, has_valid_transitions}

-- One round: each name is visited once, and its state deleted if it is not reachable in what is
-- left by then. The flag is `everyStateReachable`.
unfoldable pub prune_pass : Text → List Text → Flat → Bool → Result Error (Flat × Bool)
prune_pass start_at [] states every = ok (states, every)
prune_pass start_at (name ∷ names) states every = reachable name start_at states >>= λ can_reach.
    prune_pass start_at names (if can_reach then states else delete Text-discrete name states)
      (can_reach && every)

-- The rounds, until one deletes nothing.
unfoldable pub prune_loop : ℕ → Text → Flat → Result Error Flat
prune_loop zero start_at states = out_of_fuel
prune_loop (suc fuel) start_at states = prune_pass start_at (keys states) states true >>= λ round.
    let again = prune_loop fuel start_at round.0 in if round.1 then ok round.0 else again

unfoldable pub prune : Text → Flat → Result Error Flat
prune start_at states = prune_loop (suc (length states)) start_at states

unfoldable pub all_valid_transitions : Flat → Flat → Result Error (Unit {0})
all_valid_transitions [] states = ok tt
all_valid_transitions ((name, s) ∷ rest) states =
    has_valid_transitions name s states >>= λ _. all_valid_transitions rest states

unfoldable mutual
  pub remove_inactive_states : StateMachine → Result Error StateMachine
  remove_inactive_states (StateMachine.machine comment start_at states timeout version) =
      if not (state_exists start_at (flat states))
      then err (Error.start_at_not_found start_at)
      else (prune start_at (flat states) >>= λ kept. all_valid_transitions kept kept >>= λ _.
          remove_nested kept states >>= λ left.
          ok (StateMachine.machine comment start_at left timeout version))

  pub remove_nested : Flat → States → Result Error States
  remove_nested kept States.nil = ok States.nil
  remove_nested kept (States.cons name s rest) = elim (state_exists name kept) [
    | true ↦ remove_in_state s >>= λ s'.
        remove_nested kept rest >>= λ rest'. ok (States.cons name s' rest')
    | false ↦ remove_nested kept rest
  ]

  pub remove_in_state : State → Result Error State
  remove_in_state (State.state f branches iterator) = elim f.type [
    | StateType.parallel ↦
        remove_in_branches branches >>= λ branches'. ok (State.state f branches' iterator)
    | StateType.map_state ↦
        remove_in_ptr iterator >>= λ iterator'. ok (State.state f branches iterator')
    | _ ↦ ok (State.state f branches iterator)
  ]

  pub remove_in_branches : Branches → Result Error Branches
  remove_in_branches Branches.none_left = ok Branches.none_left
  remove_in_branches (Branches.branch m rest) =
      remove_in_ptr m >>= λ m'. remove_in_branches rest >>= λ rest'. ok (Branches.branch m' rest')

  -- A nil machine is dereferenced.
  pub remove_in_ptr : MachinePtr → Result Error MachinePtr
  remove_in_ptr MachinePtr.null = panic
  remove_in_ptr (MachinePtr.ref m) = remove_inactive_states m >>= λ m'. ok (MachinePtr.ref m')
