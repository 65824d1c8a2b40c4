-- ===== src/Consumer.antt =====
-- cmd/sfn-execution-events-consumer/main.go: the Lambda function that takes the events which an
-- execution writes to its log, in whatever order they come, and brings the workflow up to date in
-- the store. Of the store it uses the interface. The history of an execution comes from the
-- service, and unpacking and decoding a record from libraries: they are parameters.
pub mod Lifecycle
pub mod Outcomes
pub mod Records
pub mod Dynamo
use workflow_manager.Common.{
  ℕ, zero, suc, ◌+◌, ◌-◌, ◌*◌, Text, ◌=?◌, ℤ, pos, negsuc, Bool, true, false, ◌&&◌, ◌||◌, not, List,
  [], ◌∷◌, ◌++◌, Option, none, some, Result, ok, err, panic, out_of_fuel, ◌>>=◌, if◌then◌else◌,
  get_last?, get_elem?, length, ltb, leb, ◌==◌, is_some,
}
use workflow_manager.Common.Strings.{codes, split, has_prefix}
use workflow_manager.Models.{Time, Job, Workflow, WorkflowStatus, WorkflowStatus-discrete, Error}
use workflow_manager.Store.{WorkflowStore, Attributes, no_attributes, zero_value}
use workflow_manager.WfUpdater.Events
use workflow_manager.WfUpdater.Process.{update_workflow_last_job}
use workflow_manager.WfUpdater.Reason.{status_reason_workflow_timed_out}

-- The data that the service delivers to the log; `output` is `Details.Output`.
pub record LoggedEvent : Type 0 where
  pub execution_arn : Text
  pub id : Text
  pub type : Text
  pub output : Option Text
  pub timestamp : Text

unfoldable pub exec_id_from_execution_arn : Text → Result Error Text
exec_id_from_execution_arn arn = elim (get_last? (split arn (codes ":"))) [
  | none ↦ panic
  | some part ↦ ok part
]

unfoldable pub state_machine_from_execution_arn : Text → Result Error Text
state_machine_from_execution_arn arn =
    let parts = split arn (codes ":") in
    if ltb (length parts) 2
    then panic
    else elim (get_elem? parts (length parts - 2)) [ none ↦ panic | some part ↦ ok part ]

-- The number that a run of digits stands for, read after the digits that gave `n`.
unfoldable pub read_digits : ℕ → Text → Option ℕ
read_digits n [] = some n
read_digits n (c ∷ s) =
    let rest = read_digits (10 * n + (c - b'0')) s in
    if leb b'0' c && leb c b'9' then rest else none

unfoldable pub read_magnitude : Text → Option ℕ
unfolding read_digits
read_magnitude [] = none
read_magnitude (c ∷ s) = read_digits 0 (c ∷ s)

abbrev pub minus : ℕ → ℤ
minus zero = pos 0
minus (suc n) = negsuc n

abbrev pub two_63 : ℕ
two_63 = 9_223_372_036_854_775_808

abbrev pub in_range : Option ℕ → ℕ → (ℕ → ℤ) → Option ℤ
in_range none bound sign = none
in_range (some n) bound sign = if ltb n bound then some (sign n) else none

-- `strconv.ParseInt(s, 10, 64)`, with `none` for its errors.
unfoldable pub parse_int : Text → Option ℤ
unfolding read_magnitude
parse_int [] = none
parse_int (c ∷ s) =
    if c == b'-'
    then in_range (read_magnitude s) (two_63 + 1) minus
    else if c == b'+'
    then in_range (read_magnitude s) two_63 pos
    else in_range (read_magnitude (c ∷ s)) two_63 pos

-- The seconds and nanoseconds that the code passes to `time.Unix` add up to this.
unfoldable pub unix_milli : ℤ → Time
unix_milli (pos n) = pos (n * 1_000_000)
unix_milli (negsuc n) = negsuc (suc n * 1_000_000 - 1)

-- The first switch: the types that end an execution.
unfoldable pub is_final : Text → Bool
is_final type =
    type =? codes "ExecutionAborted"
    || type =? codes "ExecutionFailed"
    || type =? codes "ExecutionTimedOut"
    || type =? codes "ExecutionSucceeded"

abbrev pub running_update : Attributes
running_update = record no_attributes { status = some WorkflowStatus.running }

-- The second switch, on the update with `StoppedAt`.
unfoldable pub status_update : LoggedEvent → Attributes → Result Error Attributes
status_update evt u =
    if evt.type =? codes "ExecutionAborted"
    then ok (record u { status = some WorkflowStatus.cancelled })
    else if evt.type =? codes "ExecutionFailed"
    then ok (record u { status = some WorkflowStatus.failed })
    else if evt.type =? codes "ExecutionTimedOut"
    then ok (record u {
      status = some WorkflowStatus.failed;
      status_reason = some status_reason_workflow_timed_out;
    })
    else if evt.type =? codes "ExecutionSucceeded"
    then elim evt.output [
      | none ↦ err (Error.external evt.execution_arn)
      | some out ↦ ok (record u { status = some WorkflowStatus.succeeded; output = some out })
    ]
    else ok u

abbrev pub is_resolved : Option WorkflowStatus → Bool
is_resolved (some WorkflowStatus.succeeded) = true
is_resolved (some WorkflowStatus.cancelled) = true
is_resolved _ = false

abbrev pub is_failed : Option WorkflowStatus → Bool
is_failed (some WorkflowStatus.failed) = true
is_failed _ = false

unfoldable pub resolve_update : Attributes → Attributes
resolve_update u = if is_resolved u.status then record u { resolved_by_user = some true } else u

abbrev pub with_last_job : Attributes → Option Job → Attributes
with_last_job u none = u
with_last_job u (some job) = record u { last_job = some job }

-- A store, and the answer of the service: the events of an execution, latest first.
module _ (S : WorkflowStore)
    (get_execution_history : Text → Result Error (List Events.HistoryEvent)) where
  -- A refused update is no error if the workflow had ended before.
  unfoldable pub swallow_out_of_order_state_error :
      S.State → Result Error S.State → Result Error S.State
  swallow_out_of_order_state_error s (err (Error.terminal_to_non_terminal old new)) = ok s
  swallow_out_of_order_state_error s r = r

  abbrev pub update_state : Text → Attributes → S.State → Result Error S.State
  update_state exec_id u s =
      swallow_out_of_order_state_error s (S.update_workflow_attributes exec_id u s)

  -- The last job of a workflow that failed.
  unfoldable pub last_job_update : Text → Text → Attributes → S.State → Result Error Attributes
  last_job_update exec_id arn u s =
      if not (is_failed u.status)
      then ok u
      else S.get_workflow_by_id exec_id s >>= λ wf. get_execution_history arn >>= λ events.
          update_workflow_last_job wf events >>= λ wf'. ok (with_last_job u wf'.last_job)

  unfoldable pub finish_update : Text → LoggedEvent → Attributes → S.State → Result Error S.State
  finish_update exec_id evt u s = status_update evt u >>= λ u1.
      last_job_update exec_id evt.execution_arn (resolve_update u1) s >>= λ u2.
      if zero_value u2 then ok s else update_state exec_id u2 s

  unfoldable pub handle_history_event : LoggedEvent → S.State → Result Error S.State
  handle_history_event evt s = exec_id_from_execution_arn evt.execution_arn >>= λ exec_id.
      state_machine_from_execution_arn evt.execution_arn >>= λ name.
      if is_final evt.type
      then (elim (parse_int evt.timestamp) [
        | none ↦ err (Error.external evt.timestamp)
        | some msec ↦
            finish_update exec_id evt (record no_attributes { stopped_at = some (unix_milli msec) })
              s
      ])
      else if evt.id =? codes "2"
      then update_state exec_id running_update s
      else finish_update exec_id evt no_attributes s
