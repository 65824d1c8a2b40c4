-- ===== src/Executor/Retriers.antt =====
-- executor/workflow_manager_sfn.go: `stateMachineWithDefaultRetriers`. The machines nested in
-- parallel and map states are left as they are.
use workflow_manager.Common.{
  Text, Text-discrete, ◌=?◌, pos, Bool, true, false, ◌&&◌, ◌||◌, not, List, [], ◌∷◌, some,
  if◌then◌else◌, ◌≡◌, refl, ap, arith,
}
use workflow_manager.Common.Strings.{codes}
use workflow_manager.Models.{StateType, Retrier, Fields, StateMachine, States, State}
use workflow_manager.Resources.Status.{slice}

abbrev pub sfncli_command_terminated : Text
sfncli_command_terminated = codes "sfncli.CommandTerminated"

abbrev pub default_retrier : Retrier
default_retrier = record {
  backoff_rate = pos 100;
  error_equals = sfncli_command_terminated ∷ [];
  interval_seconds = pos 10;
  max_attempts = some (pos 10);
}

unfoldable pub has_error : List Text → Bool
has_error [] = false
has_error (e ∷ es) = e =? sfncli_command_terminated || has_error es

-- Some retrier is for the error, so that none is injected.
unfoldable pub has_retrier : List Retrier → Bool
unfolding has_error
has_retrier [] = false
has_retrier (r ∷ rs) = has_error r.error_equals || has_retrier rs

abbrev pub is_task : StateType → Bool
is_task StateType.task = true
is_task _ = false

-- The default retrier goes in front of those of a task that has none for the error.
unfoldable pub inject_retry : Bool → List Retrier → List Retrier
unfolding has_retrier
inject_retry task rs = if not (has_retrier rs) && task then default_retrier ∷ rs else rs

unfoldable pub with_default_retry : Fields → Fields
unfolding inject_retry
with_default_retry f = record f { retry = some (inject_retry (is_task f.type) (slice f.retry)) }

unfoldable pub default_retry_states : States → States
unfolding with_default_retry
default_retry_states States.nil = States.nil
default_retry_states (States.cons name (State.state f branches iterator) rest) =
    States.cons name (State.state (with_default_retry f) branches iterator)
      (default_retry_states rest)

unfoldable pub state_machine_with_default_retriers : StateMachine → StateMachine
unfolding default_retry_states
state_machine_with_default_retriers (StateMachine.machine comment start_at states timeout version) =
    StateMachine.machine comment start_at (default_retry_states states) timeout version

has_retrier-default : (rs : List Retrier) → has_retrier (default_retrier ∷ rs) ≡ true
unfolding has_retrier has_error Text-discrete
has_retrier-default rs = refl

inject_retry-twice :
    (task : Bool) (rs : List Retrier)
    → inject_retry task (inject_retry task rs) ≡ inject_retry task rs
unfolding inject_retry
inject_retry-twice task rs = ground (arith, has_retrier-default rs)

with_default_retry-twice :
    (f : Fields) → with_default_retry (with_default_retry f) ≡ with_default_retry f
unfolding with_default_retry
with_default_retry-twice f =
    ap (λ rs. record f { retry = some rs }) (inject_retry-twice (is_task f.type) (slice f.retry))

-- After the default retriers are added, a task has a retrier for the end of its command.
pub with_default_retry-has_retrier :
    (f : Fields) → is_task f.type ≡ true → has_retrier (slice (with_default_retry f).retry) ≡ true
unfolding with_default_retry inject_retry
with_default_retry-has_retrier f task = ground (arith, has_retrier-default (slice f.retry))

default_retry_states-twice :
    (states : States)
    → default_retry_states (default_retry_states states) ≡ default_retry_states states
unfolding default_retry_states
default_retry_states-twice States.nil = refl
default_retry_states-twice (States.cons name (State.state f branches iterator) rest) =
    rw (with_default_retry-twice f, default_retry_states-twice rest) refl

-- Adding the default retriers to a machine that has them changes nothing.
pub state_machine_with_default_retriers-idempotent :
    (m : StateMachine)
    → state_machine_with_default_retriers (state_machine_with_default_retriers m)
      ≡ state_machine_with_default_retriers m
unfolding state_machine_with_default_retriers
state_machine_with_default_retriers-idempotent
      (StateMachine.machine comment start_at states timeout version) =
    ap (λ s. StateMachine.machine comment start_at s timeout version)
      (default_retry_states-twice states)
