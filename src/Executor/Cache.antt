-- ===== src/Executor/Cache.antt =====
-- executor/sfncache/sfn.go: the cache of the descriptions of state machines. The cache of
-- golang-lru is a parameter, and so is the text of a request, its key.
pub mod Answers
use workflow_manager.Common.{Text, List, [], ◌∷◌, Option, none, some}
use workflow_manager.Executor.Service.{StepFunctions, StateMachineOutput, Answer}

-- A lookup may change the order of the entries, and an addition may drop some.
pub record Lru (Cache : Type 0) : Type 0 where
  pub empty : Cache
  pub get : Text → Cache → Option StateMachineOutput × Cache
  pub add : Text → StateMachineOutput → Cache → Cache

module _ {World Cache : Type 0} (sfn : StepFunctions World) (lru : Lru Cache)
    (key_of : Text → Text) where
  -- Only a description is kept, no error.
  abbrev pub kept : Text → Answer StateMachineOutput → Cache → Answer StateMachineOutput × Cache
  kept arn (Answer.found out) c = (Answer.found out, lru.add (key_of arn) out c)
  kept arn Answer.other_state c = (Answer.other_state, c)
  kept arn (Answer.failed e) c = (Answer.failed e, c)

  abbrev pub looked_up :
      Text → World → Option StateMachineOutput × Cache → Answer StateMachineOutput × Cache
  looked_up arn w (some out, c) = (Answer.found out, c)
  looked_up arn w (none, c) = kept arn (sfn.describe_state_machine arn w) c

  unfoldable pub describe_state_machine : Text → World → Cache → Answer StateMachineOutput × Cache
  describe_state_machine arn w c = looked_up arn w (lru.get (key_of arn) c)

  -- A run: the state of the service now, the cache, and the states that the service has been in, latest
  -- first. The service may change in any way between two calls.
  pub data Past : World → Cache → List World → Type 0 where
    started : (w : World) → Past w lru.empty (w ∷ [])
    changes :
        {w : World} {c : Cache} {ws : List World} (w' : World) → Past w c ws → Past w' c (w' ∷ ws)
    asks :
        {w : World} {c : Cache} {ws : List World} (arn : Text)
        → Past w c ws
        → Past w (describe_state_machine arn w c).1 ws
