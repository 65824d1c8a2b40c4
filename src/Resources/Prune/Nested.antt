-- ===== src/Resources/Prune/Nested.antt =====
-- `RemoveInactiveStates` on a whole machine: the states of the result are those that the rounds
-- leave, and every machine in it, also one nested in a state, is closed under its transitions.
use workflow_manager.Common.{
  suc, Text, Text-discrete, ok, err, Bool, true, false, List, [], ◌∷◌, length, ◌≡◌, refl, arith,
  All, sym, ap, subst, ◌∙◌, inl, inr, Bool-cases, >>=-eq-ok, if◌then◌else◌, Result, ◌>>=◌, ℤ, panic,
  out_of_fuel,
}
use workflow_manager.Common.Maps.{keys, delete, get-delete, All-keys}
use workflow_manager.Models.{StateMachine, States, State, Error}
use workflow_manager.Resources.Graph.{Flat, flat, fields_of, state_exists}
use workflow_manager.Resources.Prune.{
  prune_pass, prune, all_valid_transitions, remove_inactive_states, remove_nested, remove_in_state,
}
use workflow_manager.Resources.Prune.Total.{pass-step}
use workflow_manager.Resources.Prune.Greatest.{loop_rule}

-- The entries whose names are in `kept`.
abbrev restrict : Flat → Flat → Flat
restrict kept [] = []
restrict kept ((name, s) ∷ rest) =
    if state_exists name kept then (name, s) ∷ restrict kept rest else restrict kept rest

restrict-delete :
    (gone : Text) (kept states : Flat)
    → restrict (delete Text-discrete gone kept) states
      ≡ delete Text-discrete gone (restrict kept states)
unfolding state_exists delete
restrict-delete gone kept [] = refl
restrict-delete gone kept ((name, s) ∷ rest) =
    ground (arith, restrict-delete gone kept rest, get-delete Text-discrete gone name kept)

restrict-All :
    (kept states : Flat)
    → All (λ name. state_exists name kept ≡ true) (keys states)
    → restrict kept states ≡ states
restrict-All kept [] all = refl
restrict-All kept ((name, s) ∷ rest) all = rw (all.0, restrict-All kept rest all.1)

pass-restrict :
    (start_at : Text) (states : Flat) (names : List Text) (mid : Flat) (every b : Bool)
    (next : Flat)
    → prune_pass start_at names mid every ≡ ok (next, b)
    → restrict mid states ≡ mid
    → restrict next states ≡ next
unfolding prune_pass
pass-restrict start_at states [] mid every b next h e =
    subst (λ m. restrict m states ≡ m) (ground arith) e
pass-restrict start_at states (name ∷ names) mid every b next h e =
    elim (pass-step start_at name names mid every h) [
      | inl (_, rest) ↦ pass-restrict start_at states names mid every b next rest e
      | inr (_, rest) ↦
          pass-restrict start_at states names (delete Text-discrete name mid) false b next rest
            (restrict-delete name mid states ∙ ap (delete Text-discrete name) e)
    ]

-- The rounds only filter: what they leave is the given list less the names that are gone.
prune-restrict :
    (start_at : Text) (states left : Flat)
    → prune start_at states ≡ ok left
    → restrict left states ≡ left
unfolding prune state_exists
prune-restrict start_at states left h =
    (loop_rule start_at (λ m. restrict m states ≡ m) (pass-restrict start_at states)
      (suc (length states)) states left h
      (restrict-All states states (All-keys Text-discrete states))).0

remove_in_state-fields : (s s' : State) → remove_in_state s ≡ ok s' → fields_of s' ≡ fields_of s
unfolding remove_in_state
remove_in_state-fields (State.state f bs it) s' h = ground arith

pub nested-keep :
    (kept : Flat) (name : Text) (s : State) (rest : States)
    → state_exists name kept ≡ true
    → remove_nested kept (States.cons name s rest) ≡ (
        remove_in_state s >>= λ s'.
        remove_nested kept rest >>= λ rest'. ok (States.cons name s' rest'))
unfolding remove_nested
nested-keep kept name s rest there = ground arith

pub nested-drop :
    (kept : Flat) (name : Text) (s : State) (rest : States)
    → state_exists name kept ≡ false
    → remove_nested kept (States.cons name s rest) ≡ remove_nested kept rest
unfolding remove_nested
nested-drop kept name s rest gone = ground arith

flat-remove_nested :
    (kept : Flat) (states left : States)
    → remove_nested kept states ≡ ok left
    → flat left ≡ restrict kept (flat states)
unfolding remove_nested flat
flat-remove_nested kept States.nil left h = ground arith
flat-remove_nested kept (States.cons name s rest) left h =
    elim (Bool-cases (state_exists name kept)) [
      | inr gone ↦
          rw gone (flat-remove_nested kept rest left (sym (nested-drop kept name s rest gone) ∙ h))
      | inl there ↦
          let (s', inner, h') =
            >>=-eq-ok (remove_in_state s) _ (sym (nested-keep kept name s rest there) ∙ h) in
          let (rest', outer, last) = >>=-eq-ok (remove_nested kept rest) _ h' in
          let same = remove_in_state-fields s s' inner in
          let ih = flat-remove_nested kept rest rest' outer in
          rw (there, ← ih, ← same) (sym (ap flat_of last))
    ]
  where
    flat_of : Result Error States → Flat
    flat_of (ok m) = flat m
    flat_of (err e) = []
    flat_of panic = []
    flat_of out_of_fuel = []

-- A machine that `RemoveInactiveStates` returns has the states that the rounds leave, in their
-- order, and the given start.
pub remove-prune :
    (comment start_at : Text) (states : States) (timeout : ℤ) (version : Text) (m : StateMachine)
    → remove_inactive_states (StateMachine.machine comment start_at states timeout version) ≡ ok m
    → (left : States) × (m ≡ StateMachine.machine comment start_at left timeout version)
      × (remove_nested (flat left) states ≡ ok left)
      × (state_exists start_at (flat states) ≡ true)
      × (prune start_at (flat states) ≡ ok (flat left))
      × (all_valid_transitions (flat left) (flat left) ≡ ok tt)
unfolding remove_inactive_states
remove-prune comment start_at states timeout version m h =
    elim (Bool-cases (state_exists start_at (flat states))) [
      | inr gone ↦ absurd (ground arith)
      | inl there ↦
          let (kept, pruned, h1) = >>=-eq-ok (prune start_at (flat states)) _ (rw there at h) in
          let (_, valid, h2) = >>=-eq-ok (all_valid_transitions kept kept) _ h1 in
          let (left, nested, last) = >>=-eq-ok (remove_nested kept states) _ h2 in
          let same : flat left ≡ kept =
            flat-remove_nested kept states left nested
            ∙ prune-restrict start_at (flat states) kept pruned in
          (
            left,
            ground arith,
            subst (λ k. remove_nested k states ≡ ok left) (sym same) nested,
            there,
            rw same pruned,
            subst (λ k. all_valid_transitions k k ≡ ok tt) (sym same) valid,
          )
    ]
