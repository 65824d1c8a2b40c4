-- ===== src/Executor/Cache/Answers.antt =====
-- executor/sfncache/sfn.go: what the cache answers.
use workflow_manager.Common.{
  Text, List, Memᴰ, Option, none, some, inl, inr, ◌⊎◌, ◌≡◌, refl, sym, ap, ◌∙◌,
}
use workflow_manager.Executor.Service.{StepFunctions, StateMachineOutput, Answer}
use workflow_manager.Executor.Cache.{Lru, kept, looked_up, describe_state_machine, Past}

-- A cache that gives back only what was added, the last under a key.
pub record IsLru {Cache : Type 0} (lru : Lru Cache) : Type 0 where
  pub empty_get : (k : Text) → (lru.get k lru.empty).0 ≡ none
  pub get_keeps :
      (j k : Text) (c : Cache) (out : StateMachineOutput)
      → (lru.get k (lru.get j c).1).0 ≡ some out
      → (lru.get k c).0 ≡ some out
  pub add_only :
      (j k : Text) (c : Cache) (new out : StateMachineOutput)
      → (lru.get k (lru.add j new c)).0 ≡ some out
      → ((j ≡ k) × (new ≡ out)) ⊎ ((lru.get k c).0 ≡ some out)

module _ {World Cache : Type 0} (sfn : StepFunctions World) (lru : Lru Cache) (key_of : Text → Text)
    (is_lru : IsLru lru) (injective : (a b : Text) → key_of a ≡ key_of b → a ≡ b) where
  -- The service gave this description in one of the states.
  abbrev pub Told : List World → Text → StateMachineOutput → Type 0
  Told ws arn out = (v : World) × Memᴰ v ws × (sfn.describe_state_machine arn v ≡ Answer.found out)

  current : (w : World) (c : Cache) (ws : List World) → Past sfn lru key_of w c ws → Memᴰ w ws
  current w c ws (Past.started w0) = Memᴰ.head refl
  current w c ws (Past.changes w' p) = Memᴰ.head refl
  current w c ws (Past.asks arn p) = current w _ ws p

  -- An entry after an answer was there before, or is what the service tells now.
  after-kept :
      (arn asked : Text) (w : World) (ws : List World) (c : Cache)
      (answer : Answer StateMachineOutput) (out : StateMachineOutput)
      → Memᴰ w ws
      → sfn.describe_state_machine asked w ≡ answer
      → (lru.get (key_of arn) (kept sfn lru key_of asked answer c).1).0 ≡ some out
      → Told ws arn out ⊎ ((lru.get (key_of arn) c).0 ≡ some out)
  after-kept arn asked w ws c Answer.other_state out now told h = inr h
  after-kept arn asked w ws c (Answer.failed e) out now told h = inr h
  after-kept arn asked w ws c (Answer.found new) out now told h =
      elim (is_lru.add_only (key_of asked) (key_of arn) c new out h) [
        | inr before ↦ inr before
        | inl (same, same_out) ↦ inl (
          w,
          now,
          ap (λ a. sfn.describe_state_machine a w) (sym (injective asked arn same))
              ∙ told
              ∙ ap Answer.found same_out,
        )
      ]

  after-looked_up :
      (arn asked : Text) (w : World) (ws : List World) (c : Cache)
      (found : Option StateMachineOutput) (out : StateMachineOutput)
      → Memᴰ w ws
      → (lru.get (key_of arn) (looked_up sfn lru key_of asked w (found, c)).1).0 ≡ some out
      → Told ws arn out ⊎ ((lru.get (key_of arn) c).0 ≡ some out)
  after-looked_up arn asked w ws c (some old) out now h = inr h
  after-looked_up arn asked w ws c none out now h =
      after-kept arn asked w ws c (sfn.describe_state_machine asked w) out now refl h

  entries-Told :
      (w : World) (c : Cache) (ws : List World) (arn : Text) (out : StateMachineOutput)
      → Past sfn lru key_of w c ws
      → (lru.get (key_of arn) c).0 ≡ some out
      → Told ws arn out
  unfolding describe_state_machine
  entries-Told w c ws arn out (Past.started w0) h =
      let none_there = is_lru.empty_get (key_of arn) in cc
  entries-Told w c ws arn out (Past.changes w' p) h =
      let (v, past, told) = entries-Told _ c _ arn out p h in (v, Memᴰ.tail past, told)
  entries-Told w c ws arn out (Past.asks {c = c0} asked p) h =
      elim (after-looked_up arn asked w ws (lru.get (key_of asked) c0).1
        (lru.get (key_of asked) c0).0 out (current w c0 ws p) h) [
          | inl told ↦ told
          | inr there ↦
              entries-Told w c0 ws arn out p
                (is_lru.get_keeps (key_of asked) (key_of arn) c0 out there)
        ]

  answered-Told :
      (w : World) (c : Cache) (ws : List World) (arn : Text) (out : StateMachineOutput)
      (found : Option StateMachineOutput) (after : Cache)
      → Memᴰ w ws
      → (found ≡ some out → Told ws arn out)
      → (looked_up sfn lru key_of arn w (found, after)).0 ≡ Answer.found out
      → Told ws arn out
  answered-Told w c ws arn out (some old) after now there h = there (found-some old out h)
    where
      found-some :
          (old out : StateMachineOutput)
          → Answer.found old ≡ Answer.found out
          → ◌≡◌ {A = Option StateMachineOutput} (some old) (some out)
      found-some old out h = cc
  answered-Told w c ws arn out none after now there h =
      (w, now, kept-same (sfn.describe_state_machine arn w) h)
    where
      kept-same :
          (answer : Answer StateMachineOutput)
          → (kept sfn lru key_of arn answer after).0 ≡ Answer.found out
          → answer ≡ Answer.found out
      kept-same (Answer.found new) h = h
      kept-same Answer.other_state h = h
      kept-same (Answer.failed e) h = h

  -- Whatever was asked and however the service changed before: a description that the cached call
  -- answers is one that the service itself gave of this state machine, in a state that it has been in.
  -- The cache gives back only what was added under the key, and different requests have different keys.
  pub describe_state_machine-Told :
      (w : World) (c : Cache) (ws : List World) (arn : Text) (out : StateMachineOutput)
      → Past sfn lru key_of w c ws
      → (describe_state_machine sfn lru key_of arn w c).0 ≡ Answer.found out
      → (v : World) × Memᴰ v ws × (sfn.describe_state_machine arn v ≡ Answer.found out)
  unfolding describe_state_machine
  describe_state_machine-Told w c ws arn out p h =
      answered-Told w c ws arn out (lru.get (key_of arn) c).0 (lru.get (key_of arn) c).1
        (current w c ws p) (entries-Told w c ws arn out p) h
