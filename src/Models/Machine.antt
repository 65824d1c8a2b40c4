-- ===== src/Models/Machine.antt =====
-- State machines: s_l_state_machine.go, s_l_state.go, s_l_choice.go, s_l_catcher.go and
-- s_l_retrier.go. A map state and a parallel state hold machines, so the machines, their states
-- and the lists of branches are one block; the fields of a state that hold no machine are a record.
-- The comparison operators of a choice, which no modelled function reads, are left out.
use workflow_manager.Common.{Text, ℤ, Bool, Option, List}
use workflow_manager.Common.Maps.{Map}
use workflow_manager.Models.Status.{StateType}

-- A value of type `interface{}` decoded from JSON: a string, or any other value by its JSON text.
pub data Value : Type 0 where
  string : Text → Value
  json : Text → Value

pub record Catcher : Type 0 where
  pub error_equals : List Text
  pub next : Text
  pub result_path : Text

pub record Choice : Type 0 where
  pub next : Text
  pub variable : Text

-- `backoff_rate` is a number of hundredths.
pub record Retrier : Type 0 where
  pub backoff_rate : ℤ
  pub error_equals : List Text
  pub interval_seconds : ℤ
  pub max_attempts : Option ℤ

-- `none` is a nil map.
abbrev pub Parameters : Type 0
Parameters = Option (Map Text Value)

pub record Fields : Type 0 where
  pub type : StateType
  pub catch : List Catcher
  pub cause : Text
  pub choices : List Choice
  pub comment : Text
  pub default : Text
  pub is_end : Bool
  pub error : Text
  pub heartbeat_seconds : ℤ
  pub input_path : Text
  pub items_path : Text
  pub max_concurrency : ℤ
  pub next : Text
  pub output_path : Text
  pub parameters : Parameters
  pub resource : Text
  pub result : Text
  pub result_path : Text
  pub result_selector : Map Text Text
  pub retry : Option (List Retrier)
  pub seconds : ℤ
  pub seconds_path : Text
  pub timeout_seconds : ℤ
  pub timestamp : Text
  pub timestamp_path : Text

mutual
  pub data StateMachine : Type 0 where
    machine : Text → Text → States → ℤ → Text → StateMachine

  -- The map `States`, in the order in which it is visited.
  pub data States : Type 0 where
    nil : States
    cons : Text → State → States → States

  pub data State : Type 0 where
    state : Fields → Branches → MachinePtr → State

  pub data Branches : Type 0 where
    none_left : Branches
    branch : MachinePtr → Branches → Branches

  -- A pointer to a machine, which may be nil.
  pub data MachinePtr : Type 0 where
    null : MachinePtr
    ref : StateMachine → MachinePtr
