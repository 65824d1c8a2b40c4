-- ===== src/Examples/Polls.antt =====
-- A loop whose resource has the limit 1: what it reaches when the goroutines count themselves at once,
-- and what it may reach when they do not.
use workflow_manager.Common.{◌+◌, ◌≤◌, pos, true, ◌≡◌, refl}
use workflow_manager.Common.Int.{pos_part}
use workflow_manager.Embedded.Poll.{
  Polling, start_polling, poll_get_activity_task, begin_task, Step, Reachable,
}
use workflow_manager.Embedded.Poll.Bounded.{AllCounted, polling-bounded}

abbrev one_task : Polling
one_task = begin_task 0 (poll_get_activity_task true (start_polling (pos 1)))

one_task-Reachable : Reachable AllCounted (pos 1) one_task
unfolding start_polling poll_get_activity_task
one_task-Reachable =
    Reachable.stepped (Reachable.stepped Reachable.started (Step.polls true refl))
      (Step.begins 0 refl)

polling-bounded_example :
    (one_task.concurrent_executions ≡ pos one_task.handling)
    × (one_task.waiting + one_task.handling ≤ pos_part (pos 1))
polling-bounded_example = polling-bounded (pos 1) one_task one_task-Reachable

-- A poll at any time.
abbrev AnyTime : Polling → Type 0
AnyTime p = Unit

abbrev two_tasks : Polling
two_tasks = begin_task 0 (
    begin_task 1
      (poll_get_activity_task true (poll_get_activity_task true (start_polling (pos 1)))))

over_limit : Reachable AnyTime (pos 1) two_tasks × (two_tasks.handling ≡ 2)
unfolding poll_get_activity_task start_polling begin_task
over_limit = (
  Reachable.stepped
      (Reachable.stepped
        (Reachable.stepped (Reachable.stepped Reachable.started (Step.polls true tt))
          (Step.polls true tt))
        (Step.begins 1 refl))
      (Step.begins 0 refl),
  refl,
)
