-- ===== src/Resources/Graph.antt =====
-- resources/workflow_definitions.go: `stateExists`, `reachable` and `hasValidTransitions`.
-- They read the names and the fields of a machine's states and no nested machine, so they stand
-- over the flat view of the map `States`.
use workflow_manager.Common.{
  Text, Text-discrete, ◌=?◌, Result, ok, err, ◌>>=◌, if◌then◌else◌, Bool, true, false, ◌&&◌, ◌||◌,
  not, Option, none, some, List, [], ◌∷◌, is_some,
}
use workflow_manager.Common.Maps.{Map, get}
use workflow_manager.Models.{StateType, Catcher, Choice, Fields, States, State, Error}

abbrev pub Flat : Type 0
Flat = Map Text Fields

abbrev pub fields_of : State → Fields
fields_of (State.state f bs it) = f

unfoldable pub flat : States → Flat
flat States.nil = []
flat (States.cons name s rest) = (name, fields_of s) ∷ flat rest

unfoldable pub state_exists : Text → Flat → Bool
state_exists name states = is_some (get Text-discrete name states)

unfoldable pub any_catch : Text → List Catcher → Bool
any_catch name [] = false
any_catch name (c ∷ cs) = c.next =? name || any_catch name cs

unfoldable pub any_choice : Text → List Choice → Bool
any_choice name [] = false
any_choice name (c ∷ cs) = c.next =? name || any_choice name cs

-- The two groups of cases of the `switch` in `reachable`, the default being `none`.
unfoldable pub refers_step : Text → Fields → Option Bool
refers_step name s = some (s.next =? name || any_catch name s.catch)

unfoldable pub refers_type : StateType → Text → Fields → Option Bool
unfolding refers_step
refers_type StateType.pass name s = refers_step name s
refers_type StateType.task name s = refers_step name s
refers_type StateType.wait name s = refers_step name s
refers_type StateType.parallel name s = refers_step name s
refers_type StateType.map_state name s = refers_step name s
refers_type StateType.choice name s = some (any_choice name s.choices || s.default =? name)
refers_type StateType.succeed name s = some false
refers_type StateType.fail name s = some false
refers_type (StateType.other t) name s = none

-- Whether a state contains a transition into `name`; `none` if its type is not supported.
unfoldable pub refers : Text → Fields → Option Bool
unfolding refers_type
refers name s = refers_type s.type name s

-- The loop of `reachable` over the states.
unfoldable pub scan : Text → Flat → Result Error Bool
scan name [] = ok false
scan name ((_, s) ∷ rest) = elim (refers name s) [
  | none ↦ err (Error.unsupported_type s.type)
  | some true ↦ ok true
  | some false ↦ scan name rest
]

unfoldable pub reachable : Text → Text → Flat → Result Error Bool
reachable name start_at states =
    if not (state_exists name states)
    then ok false
    else if start_at =? name
    then ok true
    else scan name states

-- The transitions that `hasValidTransitions` demands a target for.
unfoldable pub choices_exist : Text → List Choice → Flat → Result Error (Unit {0})
choices_exist name [] states = ok tt
choices_exist name (c ∷ cs) states =
    if not (state_exists c.next states)
    then err (Error.invalid_transition name c.next)
    else choices_exist name cs states

unfoldable pub next_exists : Text → Fields → Flat → Result Error (Unit {0})
next_exists name s states =
    if not (state_exists s.next states) then err (Error.invalid_transition name s.next) else ok tt

unfoldable pub default_exists : Text → Fields → Flat → Result Error (Unit {0})
default_exists name s states =
    if not (s.default =? []) && not (state_exists s.default states)
    then err (Error.invalid_transition name s.default)
    else ok tt

unfoldable pub targets_exist : StateType → Text → Fields → Flat → Result Error (Unit {0})
unfolding choices_exist next_exists default_exists
targets_exist StateType.pass name s states = next_exists name s states
targets_exist StateType.task name s states = next_exists name s states
targets_exist StateType.wait name s states = next_exists name s states
targets_exist StateType.parallel name s states = next_exists name s states
targets_exist StateType.map_state name s states = next_exists name s states
targets_exist StateType.choice name s states =
    choices_exist name s.choices states >>= λ _. default_exists name s states
targets_exist StateType.succeed name s states = ok tt
targets_exist StateType.fail name s states = ok tt
targets_exist (StateType.other t) name s states = err (Error.unsupported_type (StateType.other t))

-- The types of state that need no `Next`.
unfoldable pub may_stop : StateType → Bool
may_stop StateType.fail = true
may_stop StateType.succeed = true
may_stop StateType.choice = true
may_stop StateType.pass = false
may_stop StateType.task = false
may_stop StateType.wait = false
may_stop StateType.parallel = false
may_stop StateType.map_state = false
may_stop (StateType.other t) = false

unfoldable pub has_valid_transitions : Text → Fields → Flat → Result Error (Unit {0})
unfolding targets_exist may_stop
has_valid_transitions name s states =
    if s.is_end && not (s.next =? [])
    then err Error.end_with_next
    else if not s.is_end && s.next =? [] && not (may_stop s.type)
    then err Error.no_next
    else if s.is_end
    then ok tt
    else targets_exist s.type name s states
