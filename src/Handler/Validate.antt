-- ===== src/Handler/Validate.antt =====
-- What the validation of a request gives: the loop of `RemoveInactiveStates` meets no unknown type
-- of state.
use workflow_manager.Common.{Text, ℤ, ok, ◌≡◌, >>=-eq-ok, arith}
use workflow_manager.Models.{Fields, StateMachine, States, State, Branches, MachinePtr}
use workflow_manager.Resources.Graph.{Flat, flat}
use workflow_manager.Resources.Prune.{prune}
use workflow_manager.Resources.Prune.Total.{IsKnown, AllKnown, prune-known}
use workflow_manager.Handler.{validate_state_machine, validate_states, validate_state}

validate_state-IsKnown :
    (f : Fields) (branches : Branches) (iterator : MachinePtr)
    → validate_state (State.state f branches iterator) ≡ ok tt
    → IsKnown f.type
unfolding validate_state
validate_state-IsKnown f branches iterator h x p = ground arith

validate_states-AllKnown :
    (states : States) → validate_states states ≡ ok tt → AllKnown (flat states)
unfolding validate_states flat
validate_states-AllKnown States.nil h = tt
validate_states-AllKnown (States.cons name (State.state f branches iterator) rest) h =
    let (_, here, later) = >>=-eq-ok (validate_state (State.state f branches iterator)) _ h in
    (validate_state-IsKnown f branches iterator here, validate_states-AllKnown rest later)

-- On the states of a validated machine the rounds of `RemoveInactiveStates` return, whatever the
-- start is.
pub validate_state_machine-prune :
    (comment start_at : Text) (states : States) (timeout : ℤ) (version : Text)
    → validate_state_machine (StateMachine.machine comment start_at states timeout version) ≡ ok tt
    → (left : Flat) × AllKnown left × (prune start_at (flat states) ≡ ok left)
unfolding validate_state_machine
validate_state_machine-prune comment start_at States.nil timeout version h = cc
validate_state_machine-prune comment start_at (States.cons name s rest) timeout version h =
    prune-known start_at (flat (States.cons name s rest))
      (validate_states-AllKnown (States.cons name s rest) h)
