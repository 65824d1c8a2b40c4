-- ===== src/Examples/Caches.antt =====
-- The cache as a map that drops nothing; a state machine that is changed after it was described.
use workflow_manager.Common.{
  Text, Text-discrete, [], ◌∷◌, Memᴰ, none, some, ok, inl, inr, ◌⊎◌, ◌≡◌, refl, sym, ◌∙◌, if_pos,
  if_neg,
}
use workflow_manager.Common.Maps.{Map, get, put, get-put}
use workflow_manager.Common.Strings.{codes}
use workflow_manager.Examples.Managers.{Machines, states}
use workflow_manager.Executor.Service.{StateMachineOutput, Answer}
use workflow_manager.Executor.Cache.{Lru, describe_state_machine, Past}
use workflow_manager.Executor.Cache.Answers.{IsLru, describe_state_machine-Told}

abbrev Entries : Type 0
Entries = Map Text StateMachineOutput

abbrev unbounded : Lru Entries
unbounded = record {
  empty = [];
  get = λ k c. (get Text-discrete k c, c);
  add = λ k out c. put Text-discrete k out c;
}

added :
    (j k : Text) (c : Entries) (new out : StateMachineOutput)
    → get Text-discrete k (put Text-discrete j new c) ≡ some out
    → ((j ≡ k) × (new ≡ out)) ⊎ (get Text-discrete k c ≡ some out)
added j k c new out h = elim (Text-discrete j k) [
  | yes e ↦
      let same : some new ≡ some out =
        sym (get-put Text-discrete j k new c ∙ if_pos (Text-discrete j k) e _ _) ∙ h in
      inl (e, cc)
  | no ne ↦ inr (sym (get-put Text-discrete j k new c ∙ if_neg (Text-discrete j k) ne _ _) ∙ h)
]

unbounded-IsLru : IsLru unbounded
unfolding get
unbounded-IsLru = record {
  empty_get = λ k. refl;
  get_keeps = λ j k c out h. h;
  add_only = λ j k c new out h. added j k c new out h;
}

abbrev the_arn : Text
the_arn = codes "m"

abbrev one_machine : Machines
one_machine = (codes "m", (codes "{}", none)) ∷ []

abbrev changed_machine : Machines
changed_machine = (codes "m", (codes "{1}", none)) ∷ []

abbrev first_answer : StateMachineOutput
first_answer = record {
  state_machine_arn = the_arn;
  definition = codes "{}";
  logging_configuration = none;
}

abbrev after_first : Entries
after_first = (describe_state_machine (states (ok tt)) unbounded (λ t. t) the_arn one_machine []).1

a_past :
    Past
      (states (ok tt))
      unbounded
      (λ t. t)
      changed_machine
      after_first
      (changed_machine ∷ one_machine ∷ [])
a_past = Past.changes changed_machine (Past.asks the_arn (Past.started one_machine))

still_answered :
    (describe_state_machine
      (states (ok tt))
      unbounded
      (λ t. t)
      the_arn
      changed_machine
      after_first).0
    ≡ Answer.found first_answer
unfolding describe_state_machine get Text-discrete put
still_answered = refl

describe_state_machine-Told_example :
    (v : Machines) × Memᴰ v (changed_machine ∷ one_machine ∷ [])
    × ((states (ok tt)).describe_state_machine the_arn v ≡ Answer.found first_answer)
describe_state_machine-Told_example =
    describe_state_machine-Told (states (ok tt)) unbounded (λ t. t) unbounded-IsLru (λ a b e. e)
      changed_machine after_first (changed_machine ∷ one_machine ∷ []) the_arn first_answer a_past
      still_answered
