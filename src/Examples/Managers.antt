-- ===== src/Examples/Managers.antt =====
-- A service of state machines that keeps them by their ARNs, and the manager on it.
use workflow_manager.Common.{
  ℕ, suc, Text, Text-discrete, pos, Bool, true, false, List, [], ◌∷◌, ◌++◌, Option, none, some,
  Option-cases, inl, inr, Result, ok, err, panic, ◌≡◌, ◌≢◌, refl, sym, ap, ◌∙◌, if_pos, if_neg,
  arith, ◌≤◌, ◌<◌, ◌+◌, subst,
}
use workflow_manager.Common.Maps.{Map, get, put, get-put}
use workflow_manager.Common.Strings.{codes}
use workflow_manager.Models.{Workflow, Error}
use workflow_manager.Examples.Histories.{a_definition}
use workflow_manager.Examples.Stores.{a_store}
use workflow_manager.Store.Memory.{MemoryStore, save_workflow, update_workflow}
use workflow_manager.Executor.Service.{
  StepFunctions, CloudWatchLogs, LoggingConfiguration, StateMachineOutput, Answer,
}
use workflow_manager.Executor.Manager.{Kept, Settings, machine_arn}
use workflow_manager.Executor.Manager.Machine.{describe_or_create}
use workflow_manager.Executor.Manager.Creation.{create_workflow}
use workflow_manager.Executor.Manager.Lag.{IsEventual}
use workflow_manager.Executor.Manager.Settled.{rounds, describe_or_create-settles}
use workflow_manager.Executor.Manager.Created.{Left, parts, create_workflow-failed}

-- Of each machine, its definition and its logging.
abbrev pub Machines : Type 0
Machines = Map Text (Text × Option LoggingConfiguration)

abbrev pub settings : Settings
settings = record {
  region = codes "r";
  role_arn = codes "role";
  account_id = codes "a";
  execution_events_stream_arn = codes "stream";
  cw_logs_to_kinesis_role_arn = codes "role";
  marshal_machine = λ m. codes "{}";
  unmarshal_object = λ t. some (some []);
  marshal_object = λ m. codes "{}";
}

abbrev machine_key : Text → Text
machine_key name =
    codes "arn:aws:states:" ++ codes "r" ++ codes ":" ++ codes "a" ++ codes ":stateMachine:" ++ name

abbrev described : Text → Option (Text × Option LoggingConfiguration) → Answer StateMachineOutput
described arn none = Answer.other_state
described arn (some (definition, logging)) =
    Answer.found
      (record { state_machine_arn = arn; definition = definition; logging_configuration = logging })

abbrev replaced : Option Text → Text → Text
replaced none old = old
replaced (some new) old = new

abbrev kept_logging :
    Option LoggingConfiguration → Option LoggingConfiguration → Option LoggingConfiguration
kept_logging none old = old
kept_logging (some new) old = some new

abbrev no_such_machine : Error
no_such_machine = Error.external (codes "StateMachineDoesNotExist")

abbrev changed :
    Text
    → Option Text
    → Option LoggingConfiguration
    → Option (Text × Option LoggingConfiguration)
    → Machines
    → Result Error (Unit {0}) × Machines
changed arn definition logging none w = (err no_such_machine, w)
changed arn definition logging (some (old, old_logging)) w =
    (ok tt, put Text-discrete arn (replaced definition old, kept_logging logging old_logging) w)

-- Executions are started, unless the service is told to refuse them.
abbrev pub states : Result Error (Unit {0}) → StepFunctions Machines
states starts = record {
  describe_state_machine = λ arn w. described arn (get Text-discrete arn w);
  create_state_machine = λ input w. (
    ok tt,
    put Text-discrete (machine_key input.name) (input.definition, input.logging_configuration) w,
  );
  update_state_machine = λ input w.
      changed input.state_machine_arn input.definition input.logging_configuration
        (get Text-discrete input.state_machine_arn w) w;
  tag_resource = λ arn tags w. (ok tt, w);
  start_execution = λ input w. (starts, w);
  stop_execution = λ arn cause w. (ok tt, w);
  describe_execution = λ arn w. Answer.other_state;
  list_executions = λ arn w. Answer.other_state;
}

abbrev pub no_logs : CloudWatchLogs Machines
no_logs = record {
  create_log_group = λ name tags w. (Answer.other_state, w);
  put_retention_policy = λ name days w. (ok tt, w);
  put_subscription_filter = λ input w. (ok tt, w);
}

abbrev missing_of : Option (Text × Option LoggingConfiguration) → ℕ
missing_of none = 1
missing_of (some v) = 0

abbrev missing : Text → Machines → ℕ
missing arn w = missing_of (get Text-discrete arn w)

missing-put :
    (arn : Text) (v : Text × Option LoggingConfiguration) (w : Machines)
    → missing arn (put Text-discrete arn v w) ≡ 0
missing-put arn v w =
    ap missing_of (get-put Text-discrete arn arn v w ∙ if_pos (Text-discrete arn arn) refl _ _)

missing-put_le :
    (other arn : Text) (v : Text × Option LoggingConfiguration) (w : Machines)
    → missing arn (put Text-discrete other v w) ≤ missing arn w
missing-put_le other arn v w = elim (Text-discrete other arn) [
  | yes e ↦
      let none_left : missing arn (put Text-discrete other v w) ≡ 0 =
        subst (λ a. missing a (put Text-discrete other v w) ≡ 0) e (missing-put other v w) in
      omega (arith, none_left)
  | no ne ↦
      let same : missing arn (put Text-discrete other v w) ≡ missing arn w =
        ap missing_of
          (get-put Text-discrete other arn v w ∙ if_neg (Text-discrete other arn) ne _ _) in
      omega (arith, same)
]

missing-changed :
    (arn other : Text) (definition : Option Text) (logging : Option LoggingConfiguration)
    (o : Option (Text × Option LoggingConfiguration)) (w : Machines)
    → missing other (changed arn definition logging o w).1 ≤ missing other w
missing-changed arn other definition logging none w = omega arith
missing-changed arn other definition logging (some (old, old_logging)) w =
    missing-put_le arn other _ w

missing-described :
    (arn : Text) (o : Option (Text × Option LoggingConfiguration))
    → described arn o ≡ Answer.other_state
    → 0 < missing_of o
missing-described arn none h = omega arith
missing-described arn (some v) h = cc

described-arn :
    (arn : Text) (o : Option (Text × Option LoggingConfiguration)) (out : StateMachineOutput)
    → described arn o ≡ Answer.found out
    → out.state_machine_arn ≡ arn
described-arn arn none out h = cc
described-arn arn (some (definition, logging)) out h = ground arith

states-IsEventual : (starts : Result Error (Unit {0})) → IsEventual settings (states starts) no_logs
states-IsEventual starts = record {
  lag = missing;
  described = λ arn w out h. described-arn arn (get Text-discrete arn w) out h;
  missing = λ arn w h. missing-described arn (get Text-discrete arn w) h;
  created = λ input w w' h.
      let none_left : missing (machine_key input.name) w' ≡ 0 =
        ap (missing (machine_key input.name)) (sym (ap (λ r. r.1) h))
        ∙ missing-put (machine_key input.name) _ w in
      omega (arith, none_left);
  updated = λ arn input w.
      missing-changed input.state_machine_arn arn input.definition input.logging_configuration
        (get Text-discrete input.state_machine_arn w) w;
  grouped = λ arn name tags w. omega arith;
  retained = λ arn name days w. omega arith;
  filtered = λ arn input w. omega arith;
}

abbrev nothing_made : Kept MemoryStore Machines
nothing_made = record { store = a_store; world = []; updated_logging = []; goroutines = [] }

-- In place of a sixth round.
abbrev never :
    Kept MemoryStore Machines → Result Error StateMachineOutput × Kept MemoryStore Machines
never s = (panic, s)

one_missing : missing (machine_arn settings a_definition (codes "ns")) nothing_made.world + 2 ≤ 5
unfolding get
one_missing = omega arith

describe_or_create-settles_example :
    describe_or_create settings (states (ok tt)) no_logs 5 a_definition (codes "ns") nothing_made
    ≡ rounds settings
        (states (ok tt))
        no_logs
        (states-IsEventual (ok tt))
        a_definition
        (codes "ns")
        5
        never
        nothing_made
unfolding states-IsEventual get
describe_or_create-settles_example =
    describe_or_create-settles settings (states (ok tt)) no_logs (states-IsEventual (ok tt))
      a_definition (codes "ns") 5 never nothing_made one_missing

abbrev refusal : Error
refusal = Error.external (codes "ExecutionLimitExceeded")

abbrev creating : Result Error Workflow × Kept MemoryStore Machines
creating =
    create_workflow settings (states (err refusal)) no_logs (save_workflow (pos 5))
      (update_workflow (pos 5)) 3 (codes "new") (pos 5) a_definition (codes "{}") (codes "ns")
      (codes "default") [] nothing_made

refused : creating ≡ (err refusal, creating.1)
unfolding create_workflow describe_or_create get workflow_manager.Executor.Machines.with_full_arns
    workflow_manager.Executor.Conventions.log_group_arn
    workflow_manager.Executor.Conventions.state_machine_name
    workflow_manager.Executor.Conventions.replace_chars workflow_manager.Common.Strings.decimal put
    Text-discrete workflow_manager.Executor.Conventions.state_machine_arn
    workflow_manager.Common.Strings.contains save_workflow
    workflow_manager.Resources.Create.new_workflow
refused = refl

new-ne-w : ◌≢◌ {A = Text} (codes "new") (codes "w")
new-ne-w e = ground arith

create_workflow-failed_example :
    Left (codes "new") (codes "new") (codes "w") (parts nothing_made) (parts creating.1)
create_workflow-failed_example =
    create_workflow-failed settings (states (err refusal)) no_logs (pos 5) (codes "new") (codes "w")
      3 (codes "new") a_definition (codes "{}") (codes "ns") (codes "default") [] nothing_made
      creating.1 refusal new-ne-w refused
