-- ===== src/Executor/Manager/Settled.antt =====
-- executor/workflow_manager_sfn.go: the rounds of `describeOrCreateStateMachine`, against services
-- whose descriptions may lag behind what was made.
use workflow_manager.Common.{
  ℕ, zero, suc, Text, true, false, ◌&&◌, not, List, ◌∷◌, out_of_fuel, if◌then◌else◌, ◌≡◌, refl, sym,
  ap, ◌∙◌, subst, arith, Bool-cases, inl, inr, ◌≤◌, ◌<◌, ◌+◌,
}
use workflow_manager.Common.Run.{Run, continue-cong}
use workflow_manager.Models.{WorkflowDefinition, Error}
use workflow_manager.Executor.Service.{StepFunctions, CloudWatchLogs, StateMachineOutput, Answer}
use workflow_manager.Executor.Manager.{
  Kept, Settings, on_world, machine_arn, is_among, lacks_logging,
}
use workflow_manager.Executor.Manager.Machine.{
  create_machine, change_logging, settle, describe_or_create,
}
use workflow_manager.Executor.Manager.Lag.{IsEventual, create_machine-lag, change_logging-lag}

is_among-head : (a : Text) (bs : List Text) → is_among a (a ∷ bs) ≡ true
unfolding is_among
is_among-head a bs = ground arith

module _ {World : Type 0} (settings : Settings) (sfn : StepFunctions World)
    (logs : CloudWatchLogs World) (eventual : IsEventual settings sfn logs)
    (def : WorkflowDefinition) (namespace : Text) where
  abbrev pub arn_ : Text
  arn_ = machine_arn settings def namespace

  module _ {Store : Type 0} where
    -- So many rounds of the function, with `again` in place of the call by the last of them.
    abbrev pub rounds :
        ℕ
        → Run (Kept Store World) Error StateMachineOutput
        → Run (Kept Store World) Error StateMachineOutput
    rounds zero again = again
    rounds (suc n) again = λ s.
        settle settings sfn logs def namespace (rounds n again)
          (sfn.describe_state_machine arn_ s.world) s

    -- How many rounds may still be followed by another: for a machine that is not found yet, and for
    -- one whose logging was not changed.
    abbrev to_come : Kept Store World → ℕ
    to_come s = eventual.lag arn_ s.world + (if is_among arn_ s.updated_logging then 0 else 1)

    settle-same :
        (t u : Run (Kept Store World) Error StateMachineOutput) (s : Kept Store World)
        → ((s' : Kept Store World) → to_come s' < to_come s → t s' ≡ u s')
        → (a : Answer StateMachineOutput) → sfn.describe_state_machine arn_ s.world ≡ a
        → settle settings sfn logs def namespace t a s
          ≡ settle settings sfn logs def namespace u a s
    unfolding settle
    settle-same t u s same (Answer.failed e) answered = refl
    settle-same t u s same Answer.other_state answered =
        continue-cong (on_world (create_machine settings sfn logs def namespace) s) _ _ (λ _ s' h.
          same s' (
            let kept : s'.updated_logging ≡ s.updated_logging =
              sym (ap (λ r. r.1.updated_logging) h) in
            let less =
              create_machine-lag settings sfn logs eventual def namespace s.world s'.world
                (ap (λ r. (r.0, r.1.world)) h) in
            let some_left = eventual.missing arn_ s.world answered in
            rw kept (omega (arith, less, some_left))))
    settle-same t u s same (Answer.found out) answered =
        let arn : out.state_machine_arn ≡ arn_ = eventual.described arn_ s.world out answered in
        elim (Bool-cases (
          not (is_among out.state_machine_arn s.updated_logging)
          && lacks_logging out.logging_configuration)) [
            | inl lacks ↦ rw lacks (
                continue-cong
                  (on_world (change_logging settings sfn logs def namespace out.state_machine_arn)
                    s)
                  _ _
                  (λ _ s' h. same _ (
                    marked s s' out.state_machine_arn arn (ground arith) (
                      subst (λ v. eventual.lag arn_ v ≤ eventual.lag arn_ s.world)
                        (ap (λ r. r.1.world) h)
                        (change_logging-lag settings sfn logs eventual def namespace
                          out.state_machine_arn s.world)))))
            | inr has ↦ rw has refl
          ]
      where
        marked :
            (s s' : Kept Store World) (arn : Text)
            → arn ≡ arn_
            → is_among arn s.updated_logging ≡ false
            → eventual.lag arn_ s'.world ≤ eventual.lag arn_ s.world
            → eventual.lag arn_ s'.world
                + (if is_among arn_ (arn ∷ s'.updated_logging) then 0 else 1)
              < to_come s
        marked s s' arn same not_yet le =
            let now : is_among arn_ (arn ∷ s'.updated_logging) ≡ true =
              subst (λ a. is_among arn_ (a ∷ s'.updated_logging) ≡ true) (sym same)
                (is_among-head arn_ s'.updated_logging) in
            let before : is_among arn_ s.updated_logging ≡ false =
              subst (λ a. is_among a s.updated_logging ≡ false) same not_yet in
            rw (now, before) (omega (arith, le))

    rounds-same :
        (n : ℕ) (t u : Run (Kept Store World) Error StateMachineOutput) (s : Kept Store World)
        → to_come s < n
        → rounds n t s ≡ rounds n u s
    rounds-same zero t u s lt = absurd (omega (arith, lt))
    rounds-same (suc n) t u s lt =
        settle-same (rounds n t) (rounds n u) s
          (λ s' less. rounds-same n t u s' (omega (arith, less, lt)))
          (sfn.describe_state_machine arn_ s.world) refl

    describe_or_create-rounds :
        (n : ℕ)
        → describe_or_create settings sfn logs n def namespace ≡ rounds n (λ s. (out_of_fuel, s))
    unfolding describe_or_create
    describe_or_create-rounds zero = refl
    describe_or_create-rounds (suc n) =
        ap
          (λ again. λ s.
            settle settings sfn logs def namespace again (sfn.describe_state_machine arn_ s.world)
              s)
          (describe_or_create-rounds n)

    -- Against services whose descriptions may lag behind, the function ends: on fuel for two rounds more
    -- than the machine may still be answered not to exist, it gives what so many rounds give with
    -- anything at all in place of a call by the last of them.
    pub describe_or_create-settles :
        (n : ℕ) (again : Run (Kept Store World) Error StateMachineOutput) (s : Kept Store World)
        → eventual.lag arn_ s.world + 2 ≤ n
        → describe_or_create settings sfn logs n def namespace s ≡ rounds n again s
    describe_or_create-settles n again s enough =
        ap (λ f. f s) (describe_or_create-rounds n)
        ∙ rounds-same n (λ s. (out_of_fuel, s)) again s (below s n enough)
      where
        below : (s : Kept Store World) (n : ℕ) → eventual.lag arn_ s.world + 2 ≤ n → to_come s < n
        below s n enough = elim (Bool-cases (is_among arn_ s.updated_logging)) [
          | inl done ↦ rw done (omega (arith, enough))
          | inr not_yet ↦ rw not_yet (omega (arith, enough))
        ]
