-- ===== src/Embedded/Poll.antt =====
-- embedded/poll.go: the loop that polls for the tasks of one resource, and the counter that its
-- goroutines share. The handling of a task is one step from the counter's increment to its decrement;
-- the steps of the loop and of the goroutines may come in any order.
pub mod Bounded
use workflow_manager.Common.{
  ℕ, suc, ◌+◌, ℤ, pos, negsuc, Bool, true, false, ◌&&◌, if◌then◌else◌, ◌≡◌,
}
use workflow_manager.Common.Int.{◌+ℤ◌, ltb_ℤ}

-- The limit of the resource, `concurrentExecutions`, and how many goroutines have been started that have
-- not yet counted themselves, and have counted themselves and not yet ended.
pub record Polling : Type 0 where
  pub limit : ℤ
  pub concurrent_executions : ℤ
  pub waiting : ℕ
  pub handling : ℕ

unfoldable pub start_polling : ℤ → Polling
start_polling limit = record {
  limit = limit;
  concurrent_executions = pos 0;
  waiting = 0;
  handling = 0;
}

-- One round of the loop; whether the service has a task is given.
unfoldable pub poll_get_activity_task : Bool → Polling → Polling
poll_get_activity_task has_task p =
    if ltb_ℤ p.concurrent_executions p.limit && has_task
    then record p { waiting = suc p.waiting }
    else p

-- A goroutine counts itself; `n` others wait.
unfoldable pub begin_task : ℕ → Polling → Polling
begin_task n p = record p {
  concurrent_executions = p.concurrent_executions +ℤ pos 1;
  waiting = n;
  handling = suc p.handling;
}

-- A goroutine ends, also by a panic; `n` others handle tasks.
unfoldable pub end_task : ℕ → Polling → Polling
end_task n p = record p {
  concurrent_executions = p.concurrent_executions +ℤ negsuc 0;
  handling = n;
}

-- A step, if the loop asks for a task only in some states.
pub data Step (AtPoll : Polling → Type 0) : Polling → Polling → Type 0 where
  polls :
      {p : Polling} (has_task : Bool) → AtPoll p → Step AtPoll p (poll_get_activity_task has_task p)
  begins : {p : Polling} (n : ℕ) → p.waiting ≡ suc n → Step AtPoll p (begin_task n p)
  ends : {p : Polling} (n : ℕ) → p.handling ≡ suc n → Step AtPoll p (end_task n p)

pub data Reachable (AtPoll : Polling → Type 0) (limit : ℤ) : Polling → Type 0 where
  started : Reachable AtPoll limit (start_polling limit)
  stepped : {p q : Polling} → Reachable AtPoll limit p → Step AtPoll p q → Reachable AtPoll limit q
