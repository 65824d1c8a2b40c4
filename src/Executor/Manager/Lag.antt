-- ===== src/Executor/Manager/Lag.antt =====
-- executor/workflow_manager_sfn.go: how long a service may still answer that a state machine does not
-- exist, and what making the machine and changing its logging do to that.
use workflow_manager.Common.{
  ℕ, Text, ℤ, pos, List, [], ◌∷◌, ◌++◌, Result, ok, err, panic, out_of_fuel, ◌≡◌, sym, ap, subst,
  arith, ◌≤◌, ◌<◌, ◌-◌,
}
use workflow_manager.Common.Run.{Run, continue, continue-eq-ok}
use workflow_manager.Common.Maps.{Map}
use workflow_manager.Common.Strings.{codes}
use workflow_manager.Models.{WorkflowDefinition, Error}
use workflow_manager.Executor.Conventions.{state_machine_arn}
use workflow_manager.Executor.Machines.{with_full_arns}
use workflow_manager.Executor.Service.{
  StepFunctions, CloudWatchLogs, StateMachineOutput, CreateStateMachineInput,
  UpdateStateMachineInput, SubscriptionFilterInput, Answer,
}
use workflow_manager.Executor.Manager.{
  Settings, machine_tags, machine_logging, create_input, logging_update, made_group, machine_arn,
  log_group_name,
}
use workflow_manager.Executor.Manager.Machine.{
  create_log_groups, create_machine, change_logging, update_logging_configuration,
}

-- Services of which a description may lag behind: `lag` bounds how often a state machine that the
-- manager makes is still answered not to exist. Each time that the machine is made again takes one
-- from it, and no other request raises it. What is found has the ARN that was asked for.
pub record IsEventual {World : Type 0} (settings : Settings) (sfn : StepFunctions World)
    (logs : CloudWatchLogs World) : Type 0 where
  pub lag : Text → World → ℕ
  pub described :
      (arn : Text) (w : World) (out : StateMachineOutput)
      → sfn.describe_state_machine arn w ≡ Answer.found out
      → out.state_machine_arn ≡ arn
  pub missing :
      (arn : Text) (w : World)
      → sfn.describe_state_machine arn w ≡ Answer.other_state
      → 0 < lag arn w
  pub created :
      (input : CreateStateMachineInput) (w w' : World)
      → sfn.create_state_machine input w ≡ (ok tt, w')
      → let arn =
          codes "arn:aws:states:"
          ++ settings.region
          ++ codes ":"
          ++ settings.account_id
          ++ codes ":stateMachine:"
          ++ input.name in
        lag arn w' ≤ lag arn w - 1
  pub updated :
      (arn : Text) (input : UpdateStateMachineInput) (w : World)
      → lag arn (sfn.update_state_machine input w).1 ≤ lag arn w
  pub grouped :
      (arn name : Text) (tags : Map Text Text) (w : World)
      → lag arn (logs.create_log_group name tags w).1 ≤ lag arn w
  pub retained :
      (arn name : Text) (days : ℤ) (w : World)
      → lag arn (logs.put_retention_policy name days w).1 ≤ lag arn w
  pub filtered :
      (arn : Text) (input : SubscriptionFilterInput) (w : World)
      → lag arn (logs.put_subscription_filter input w).1 ≤ lag arn w

module _ {World : Type 0} (settings : Settings) (sfn : StepFunctions World)
    (logs : CloudWatchLogs World) (eventual : IsEventual settings sfn logs) where
  continue-lag :
      {A B : Type 0} (arn : Text) (k : ℕ) (first : Result Error A × World)
      (next : A → Run World Error B)
      → eventual.lag arn first.1 ≤ k
      → ((a : A) (w : World) → eventual.lag arn w ≤ k → eventual.lag arn (next a w).1 ≤ k)
      → eventual.lag arn (continue first next).1 ≤ k
  continue-lag arn k (ok a, w) next le then_ = then_ a w le
  continue-lag arn k (err e, w) next le then_ = le
  continue-lag arn k (panic, w) next le then_ = le
  continue-lag arn k (out_of_fuel, w) next le then_ = le

  made_group-lag :
      (arn : Text) (k : ℕ) (made : Answer (Unit {0}) × World)
      → eventual.lag arn made.1 ≤ k
      → eventual.lag arn (made_group made).1 ≤ k
  made_group-lag arn k (Answer.found u, w) le = le
  made_group-lag arn k (Answer.other_state, w) le = le
  made_group-lag arn k (Answer.failed e, w) le = le

  create_log_groups-lag :
      (arn : Text) (k : ℕ) (tags : Map Text Text) (groups : List Text) (w : World)
      → eventual.lag arn w ≤ k
      → eventual.lag arn (create_log_groups settings sfn logs tags groups w).1 ≤ k
  unfolding create_log_groups
  create_log_groups-lag arn k tags [] w le = le
  create_log_groups-lag arn k tags (group ∷ groups) w le =
      continue-lag arn k (log_group_name group, w) _ le
        (λ name w1 le1.
          continue-lag arn k (made_group (logs.create_log_group name tags w1)) _
            (made_group-lag arn k (logs.create_log_group name tags w1)
              (trans_le (eventual.grouped arn name tags w1) le1))
            (λ _ w2 le2.
              continue-lag arn k (logs.put_retention_policy name (pos 7) w2) _
                (trans_le (eventual.retained arn name (pos 7) w2) le2)
                (λ _ w3 le3.
                  continue-lag arn k (logs.put_subscription_filter _ w3) _
                    (trans_le (eventual.filtered arn _ w3) le3)
                    (λ _ w4 le4. create_log_groups-lag arn k tags groups w4 le4))))
    where
      trans_le : {a b c : ℕ} → a ≤ b → b ≤ c → a ≤ c
      trans_le h1 h2 = omega arith

  module _ (def : WorkflowDefinition) (namespace : Text) where
    abbrev pub arn_ : Text
    arn_ = machine_arn settings def namespace

    pub create_machine-lag :
        (w w' : World)
        → create_machine settings sfn logs def namespace w ≡ (ok tt, w')
        → eventual.lag arn_ w' ≤ eventual.lag arn_ w - 1
    unfolding create_machine state_machine_arn
    create_machine-lag w w' h =
        let (machine, w1, full, h1) =
          continue-eq-ok
            (with_full_arns settings.region settings.account_id namespace def.state_machine, w) _
            h in
        let (_, w2, grouped, h2) =
          continue-eq-ok
            (create_log_groups settings sfn logs (machine_tags def namespace)
              (machine_logging settings def namespace).destinations w1)
            _ h1 in
        let same : w ≡ w1 = ap (λ r. r.1) full in
        let le : eventual.lag arn_ w2 ≤ eventual.lag arn_ w1 =
          subst (λ v. eventual.lag arn_ v ≤ eventual.lag arn_ w1) (ap (λ r. r.1) grouped)
            (create_log_groups-lag arn_ (eventual.lag arn_ w1) (machine_tags def namespace)
              (machine_logging settings def namespace).destinations w1 (omega arith)) in
        let less : eventual.lag arn_ w' ≤ eventual.lag arn_ w2 - 1 =
          eventual.created (create_input settings def namespace machine) w2 w' h2 in
        subst (λ v. eventual.lag arn_ w' ≤ eventual.lag arn_ v - 1) (sym same)
          (omega (arith, less, le))

    pub change_logging-lag :
        (arn : Text) (w : World)
        → eventual.lag arn_ (change_logging settings sfn logs def namespace arn w).1
          ≤ eventual.lag arn_ w
    unfolding change_logging update_logging_configuration
    change_logging-lag arn w =
        let k = eventual.lag arn_ w in
        continue-lag arn_ k
          (create_log_groups settings sfn logs (machine_tags def namespace)
            (machine_logging settings def namespace).destinations w)
          _
          (create_log_groups-lag arn_ k (machine_tags def namespace)
            (machine_logging settings def namespace).destinations w (omega arith))
          (λ _ w1 le.
            let step =
              eventual.updated arn_ (logging_update arn (machine_logging settings def namespace))
                w1 in
            omega (arith, step, le))
