-- ===== src/Resources/Prune/Walks.antt =====
-- `RemoveInactiveStates` against the graph: what a walk from the start reaches is kept, and what
-- is kept need not be reachable.
use mathlib.Core.List.Memᴰ
use workflow_manager.Common.{
  Text, Text-discrete, ok, true, some, ◌≡◌, refl, Memᴰ, sym, subst, inl, inr, ◌⊎◌,
}
use workflow_manager.Common.Maps.{get-of-Memᴰ}
use workflow_manager.Models.{Fields}
use workflow_manager.Resources.Graph.{Flat, refers, state_exists}
use workflow_manager.Resources.Prune.{prune}
use workflow_manager.Resources.Prune.Greatest.{
  Referred, SelfSupporting, prune-SelfSupporting, prune-Referred, prune-Memᴰ,
}

module _ (start_at : Text) (states : Flat) where
  -- The states that a walk along transitions between states leads to.
  pub data Reach : Text → Type 0 where
    here : state_exists start_at states ≡ true → Reach start_at
    step :
        {m name : Text} (s : Fields)
        → Reach m
        → Memᴰ (m, s) states
        → refers name s ≡ some true
        → state_exists name states ≡ true
        → Reach name

  Reach-SelfSupporting : SelfSupporting start_at Reach states
  Reach-SelfSupporting name (here there) = (there, inl refl)
  Reach-SelfSupporting name (step {m} s walk i r there) = (there, inr (m, s, walk, i, r))

  -- Every state that a walk from the start leads to is left by `RemoveInactiveStates`.
  pub prune-Reach :
      (left : Flat) (name : Text)
      → prune start_at states ≡ ok left
      → Reach name
      → state_exists name left ≡ true
  prune-Reach left name h walk =
      (prune-SelfSupporting start_at Reach states left h Reach-SelfSupporting name walk).0

  -- Each state that is left is one of the given states, unchanged, and is the start or has a
  -- transition into it from a state that is left.
  pub prune-supported :
      (left : Flat) (e : Text × Fields)
      → prune start_at states ≡ ok left
      → Memᴰ e left
      → Memᴰ e states × ((start_at ≡ e.0) ⊎ Referred left e.0)
  prune-supported left e h i = (
    prune-Memᴰ start_at states left e h i,
    (prune-Referred start_at states left e.0 h (Memᴰ.map (λ x. x.0) i)).1,
  )

  -- Of all sets of states in which each is the start or has a transition into it from the set, what
  -- is left is the greatest: it contains each of them.
  pub prune-greatest :
      (left : Flat) (S : Text → Type 0) (name : Text)
      → prune start_at states ≡ ok left
      → SelfSupporting start_at S states
      → S name
      → state_exists name left ≡ true
  prune-greatest left S name h p in_S =
      (prune-SelfSupporting start_at S states left h p name in_S).0

  -- A state with a transition into itself is kept, whether or not the start leads to it.
  pub self_loop-kept :
      (name : Text) (s : Fields) (left : Flat)
      → Memᴰ (name, s) states
      → refers name s ≡ some true
      → prune start_at states ≡ ok left
      → state_exists name left ≡ true
  unfolding state_exists
  self_loop-kept name s left i r h =
      (prune-SelfSupporting start_at (λ n. n ≡ name) states left h
        (λ n e. (
          subst (λ x. state_exists x states ≡ true) (sym e)
              (get-of-Memᴰ Text-discrete name s states i),
          inr (name, s, refl, i, subst (λ x. refers x s ≡ some true) (sym e) r),
        ))
        name refl).0
