-- ===== src/WfUpdater/Reason.antt =====
-- wfupdater/processevents.go: the texts of a job's `StatusReason`. `strings.TrimSpace` is modelled
-- on ASCII text.
use workflow_manager.Common.{
  ℕ, ◌-◌, Text, ◌=?◌, Bool, ◌&&◌, List, [], ◌∷◌, ◌++◌, none, some, Result, ok, panic, ltb,
  if◌then◌else◌, length, drop,
}
use workflow_manager.Common.Strings.{codes, split, join, trim_space, contains}
use workflow_manager.Models.{Error}
use workflow_manager.WfUpdater.Events.{Failure, HistoryEvent}

abbrev pub max_failure_reason_lines : ℕ
max_failure_reason_lines = 3

abbrev pub newline : Text
newline = 10 ∷ []

-- `lines[len(lines)-max:]` if there are more than `max`.
unfoldable pub last_few : List Text → List Text
last_few lines =
    if ltb max_failure_reason_lines (length lines)
    then drop (length lines - max_failure_reason_lines) lines
    else lines

unfoldable pub get_last_few_lines : Text → Text
unfolding last_few split join trim_space
get_last_few_lines raw = join (last_few (split (trim_space raw) newline)) newline

-- The details of the event's own failure type, dereferenced.
unfoldable pub cause_and_error_name : HistoryEvent → Result Error Failure
cause_and_error_name evt = elim evt.failure [ none ↦ panic | some d ↦ ok d ]

unfoldable pub is_activity_doesnt_exist_failure : Failure → Bool
unfolding contains
is_activity_doesnt_exist_failure d =
    d.error =? codes "States.Runtime" && contains d.cause (codes "Internal Error")

unfoldable pub is_activity_timed_out_failure : Failure → Bool
is_activity_timed_out_failure d = d.error =? codes "States.Timeout"

abbrev pub status_reason_job_timed_out : Text
status_reason_job_timed_out = codes "Job timed out"

abbrev pub status_reason_workflow_timed_out : Text
status_reason_workflow_timed_out = codes "Workflow timed out"

abbrev pub state_resource_does_not_exist : Text
state_resource_does_not_exist = codes "State resource does not exist"

-- "%s\n%s" of the cause's last lines and the error's name, trimmed.
unfoldable pub failure_reason : Failure → Text
failure_reason d = trim_space (get_last_few_lines d.cause ++ newline ++ d.error)

-- "%s\n%s\n%s" of a headline, the error's name and the cause's last lines, trimmed.
unfoldable pub timeout_reason : Text → Failure → Text
timeout_reason headline d =
    trim_space (headline ++ newline ++ d.error ++ newline ++ get_last_few_lines d.cause)
