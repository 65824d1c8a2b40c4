-- ===== src/Embedded/Poll/Bounded.antt =====
-- embedded/poll.go: how many tasks of a resource are handled at a time.
use workflow_manager.Common.{◌+◌, ◌≤◌, ℤ, pos, ◌≡◌, refl, subst, arith}
use workflow_manager.Common.Int.{◌+ℤ◌, pos_part}
use workflow_manager.Embedded.Poll.{
  Polling, start_polling, poll_get_activity_task, begin_task, end_task, Step, Reachable,
}

-- The counter is the number of tasks that are handled.
abbrev IsCounted : Polling → Type 0
IsCounted p = p.concurrent_executions ≡ pos p.handling

-- The loop asks for a task when every goroutine has counted itself.
abbrev pub AllCounted : Polling → Type 0
AllCounted p = p.waiting ≡ 0

module _ (AtPoll : Polling → Type 0) where
  Step-IsCounted : (p q : Polling) → Step AtPoll p q → IsCounted p → IsCounted q
  unfolding poll_get_activity_task begin_task end_task ◌+ℤ◌
  Step-IsCounted p q (Step.polls has_task at) h = ground arith
  Step-IsCounted p q (Step.begins n e) h = ground arith
  Step-IsCounted p q (Step.ends n e) h = ground arith

  Reachable-IsCounted : (limit : ℤ) (p : Polling) → Reachable AtPoll limit p → IsCounted p
  unfolding start_polling
  Reachable-IsCounted limit p Reachable.started = refl
  Reachable-IsCounted limit p (Reachable.stepped r s) =
      Step-IsCounted _ p s (Reachable-IsCounted limit _ r)

  Reachable-limit : (limit : ℤ) (p : Polling) → Reachable AtPoll limit p → p.limit ≡ limit
  unfolding start_polling poll_get_activity_task begin_task end_task
  Reachable-limit limit p Reachable.started = refl
  Reachable-limit limit p (Reachable.stepped r (Step.polls has_task at)) =
      let before = Reachable-limit limit _ r in ground arith
  Reachable-limit limit p (Reachable.stepped r (Step.begins n e)) = Reachable-limit limit _ r
  Reachable-limit limit p (Reachable.stepped r (Step.ends n e)) = Reachable-limit limit _ r

abbrev IsBounded : Polling → Type 0
IsBounded p = p.waiting + p.handling ≤ pos_part p.limit

Step-IsBounded : (p q : Polling) → Step AllCounted p q → IsCounted p → IsBounded p → IsBounded q
unfolding poll_get_activity_task begin_task end_task
Step-IsBounded p q (Step.polls has_task at) c h = ground arith
Step-IsBounded p q (Step.begins n e) c h = ground arith
Step-IsBounded p q (Step.ends n e) c h = ground arith

Reachable-IsBounded : (limit : ℤ) (p : Polling) → Reachable AllCounted limit p → IsBounded p
unfolding start_polling
Reachable-IsBounded limit p Reachable.started = omega arith
Reachable-IsBounded limit p (Reachable.stepped r s) =
    Step-IsBounded _ p s (Reachable-IsCounted AllCounted limit _ r) (Reachable-IsBounded limit _ r)

-- If the loop asks for a task only when every goroutine that it started has counted itself, then the
-- counter is the number of tasks that are handled, and the tasks that were started and have not ended
-- are at most the limit, none if it is negative.
pub polling-bounded :
    (limit : ℤ) (p : Polling)
    → Reachable AllCounted limit p
    → (p.concurrent_executions ≡ pos p.handling) × (p.waiting + p.handling ≤ pos_part limit)
polling-bounded limit p r = (
  Reachable-IsCounted AllCounted limit p r,
  subst (λ l. p.waiting + p.handling ≤ pos_part l) (Reachable-limit AllCounted limit p r)
      (Reachable-IsBounded limit p r),
)
