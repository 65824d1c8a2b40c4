-- ===== src/Resources/Prune/Total.antt =====
-- The rounds of `RemoveInactiveStates` end: each one but the last deletes a state, so as many
-- rounds as there are states, and one more, are enough.
use workflow_manager.Common.{
  ℕ, zero, suc, ◌≤◌, ◌<◌, Text, Text-discrete, ok, out_of_fuel, Bool, true, false, List, [], ◌∷◌,
  length, ◌≡◌, ◌≢◌, refl, arith, All, some, ap, ◌∙◌, ◌=?◌, ◌⊎◌, >>=-eq-ok, >>=-eq-out_of_fuel, inl,
  inr, Bool-cases,
}
use workflow_manager.Common.Maps.{
  keys, delete, length-delete-le, length-delete-lt, All-delete, All-keys,
}
use workflow_manager.Models.{StateType, Fields}
use workflow_manager.Resources.Graph.{
  Flat, refers_step, refers_type, refers, state_exists, scan, reachable,
}
use workflow_manager.Resources.Prune.{prune_pass, prune_loop, prune}

-- A state type that the program knows.
abbrev pub IsKnown : StateType → Type 0
IsKnown t = (x : Text) → t ≢ StateType.other x

abbrev pub AllKnown : Flat → Type 0
AllKnown = All (λ e. IsKnown e.1.type)

refers_type-known :
    (t : StateType) (name : Text) (s : Fields)
    → IsKnown t
    → (b : Bool) × (refers_type t name s ≡ some b)
unfolding refers_type refers_step
refers_type-known StateType.pass name s h = (_, refl)
refers_type-known StateType.task name s h = (_, refl)
refers_type-known StateType.choice name s h = (_, refl)
refers_type-known StateType.wait name s h = (_, refl)
refers_type-known StateType.succeed name s h = (_, refl)
refers_type-known StateType.fail name s h = (_, refl)
refers_type-known StateType.parallel name s h = (_, refl)
refers_type-known StateType.map_state name s h = (_, refl)
refers_type-known (StateType.other x) name s h = absurd (h x refl)

pub refers-known :
    (name : Text) (s : Fields) → IsKnown s.type → (b : Bool) × (refers name s ≡ some b)
unfolding refers
refers-known name s h = refers_type-known s.type name s h

pub scan-known :
    (name : Text) (states : Flat) → AllKnown states → (b : Bool) × (scan name states ≡ ok b)
unfolding scan
scan-known name [] h = (false, refl)
scan-known name ((n, s) ∷ rest) h =
    let (here, e) = refers-known name s h.0 in
    let (later, ih) = scan-known name rest h.1 in
    elim (Bool-cases here) [
      | inl yes_here ↦ (true, ground arith)
      | inr not_here ↦ (later, ground arith)
    ]

pub reachable-known :
    (name start_at : Text) (states : Flat)
    → AllKnown states
    → (b : Bool) × (reachable name start_at states ≡ ok b)
unfolding reachable
reachable-known name start_at states h =
    let (found, e) = scan-known name states h in
    elim (Bool-cases (state_exists name states)) [
      | inr gone ↦ (false, rw gone)
      | inl there ↦ elim (Bool-cases (start_at =? name)) [
        | inl start ↦ (true, ground arith)
        | inr other ↦ (found, ground arith)
      ]
    ]

module _ (start_at : Text) where
  -- What a round that succeeds did first.
  pub pass-step :
      (name : Text) (names : List Text) (states : Flat) (every : Bool) {r : Flat × Bool}
      → prune_pass start_at (name ∷ names) states every ≡ ok r
      → ((reachable name start_at states ≡ ok true)
          × (prune_pass start_at names states every ≡ ok r))
        ⊎ ((reachable name start_at states ≡ ok false)
            × (prune_pass start_at names (delete Text-discrete name states) false ≡ ok r))
  unfolding prune_pass
  pass-step name names states every h =
      let (b, found, rest) = >>=-eq-ok (reachable name start_at states) _ h in
      elim (Bool-cases b) [
        | inl e ↦ inl (found ∙ ap ok e, rw e at rest)
        | inr e ↦ inr (found ∙ ap ok e, rw e at rest)
      ]

  pass-le :
      (names : List Text) (states : Flat) (every b : Bool) (left : Flat)
      → prune_pass start_at names states every ≡ ok (left, b)
      → length left ≤ length states
  unfolding prune_pass
  pass-le [] states every b left h = ground arith
  pass-le (name ∷ names) states every b left h = elim (pass-step name names states every h) [
    | inl (_, rest) ↦ pass-le names states every b left rest
    | inr (_, rest) ↦ omega (
      arith,
      pass-le names (delete Text-discrete name states) false b left rest,
      length-delete-le Text-discrete name states,
    )
  ]

  abbrev AllExist : Flat → List Text → Type 0
  AllExist states = All (λ name. state_exists name states ≡ true)

  pass-lt :
      (names : List Text) (states left : Flat)
      → AllExist states names
      → prune_pass start_at names states true ≡ ok (left, false)
      → length left < length states
  unfolding prune_pass state_exists
  pass-lt [] states left a h = cc
  pass-lt (name ∷ names) states left a h = elim (pass-step name names states true h) [
    | inl (_, rest) ↦ pass-lt names states left a.1 rest
    | inr (_, rest) ↦ omega (
      arith,
      pass-le names (delete Text-discrete name states) false false left rest,
      length-delete-lt Text-discrete name states (λ gone. cc),
    )
  ]

  keys-AllExist : (states : Flat) → AllExist states (keys states)
  unfolding state_exists
  keys-AllExist states = All-keys Text-discrete states

  pass-known :
      (names : List Text) (states : Flat) (every : Bool)
      → AllKnown states
      → (left : Flat) × (b : Bool) × AllKnown left
        × (prune_pass start_at names states every ≡ ok (left, b))
  unfolding prune_pass
  pass-known [] states every k = (states, every, k, refl)
  pass-known (name ∷ names) states every k =
      let (b, e) = reachable-known name start_at states k in
      elim (Bool-cases b) [
        | inl b_true ↦ rw (e, b_true) (pass-known names states every k)
        | inr b_false ↦
            rw (e, b_false)
              (pass-known names (delete Text-discrete name states) false
                (All-delete Text-discrete (λ entry. IsKnown entry.1.type) name states k))
      ]

  -- If every type is known, the rounds end within the fuel and return the states that are left.
  pub loop-known :
      (fuel : ℕ) (states : Flat)
      → length states < fuel
      → AllKnown states
      → (left : Flat) × AllKnown left × (prune_loop fuel start_at states ≡ ok left)
  unfolding prune_loop
  loop-known zero states lt k = absurd (omega arith)
  loop-known (suc fuel) states lt k =
      let (left, every, k', e) = pass-known (keys states) states true k in
      elim (Bool-cases every) [
        | inl finished ↦ (left, k', ground arith)
        | inr again ↦
            let e' : prune_pass start_at (keys states) states true ≡ ok (left, false) =
              e ∙ ap (λ b. ok (left, b)) again in
            let shorter = pass-lt (keys states) states left (keys-AllExist states) e' in
            let (left', k'', ends) = loop-known fuel left (omega arith) k' in
            (left', k'', ground arith)
      ]

  scan-fuel : (name : Text) (states : Flat) → scan name states ≢ out_of_fuel
  unfolding scan
  scan-fuel name [] = λ e. cc
  scan-fuel name ((n, s) ∷ rest) = ground (arith, scan-fuel name rest)

  pass-fuel :
      (names : List Text) (states : Flat) (every : Bool)
      → prune_pass start_at names states every ≢ out_of_fuel
  unfolding prune_pass reachable
  pass-fuel [] states every = λ e. cc
  pass-fuel (name ∷ names) states every = ground (
    arith,
    scan-fuel name states,
    pass-fuel names states every,
    pass-fuel names (delete Text-discrete name states) false,
  )

  loop-fuel :
      (fuel : ℕ) (states : Flat)
      → length states < fuel
      → prune_loop fuel start_at states ≢ out_of_fuel
  unfolding prune_loop
  loop-fuel zero states lt stuck = absurd (omega arith)
  loop-fuel (suc fuel) states lt stuck =
      elim (>>=-eq-out_of_fuel (prune_pass start_at (keys states) states true) _ stuck) [
        | inl first ↦ pass-fuel (keys states) states true first
        | inr (round, e, rest) ↦ elim (Bool-cases round.1) [
          | inl finished ↦ ground arith
          | inr again ↦
              let left = round.0 in
              let e' : prune_pass start_at (keys states) states true ≡ ok (left, false) =
                e ∙ ap (λ b. ok (left, b)) again in
              loop-fuel fuel left
                (omega (arith, pass-lt (keys states) states left (keys-AllExist states) e'))
                (ground arith)
        ]
      ]

-- `RemoveInactiveStates` ends its rounds, whatever the machine and the order of its states: the
-- fuel of the model never runs out.
pub prune-ne-out_of_fuel : (start_at : Text) (states : Flat) → prune start_at states ≢ out_of_fuel
unfolding prune
prune-ne-out_of_fuel start_at states = loop-fuel start_at (suc (length states)) states (omega arith)

-- If every state type is known, the rounds of `RemoveInactiveStates` return a set of states.
pub prune-known :
    (start_at : Text) (states : Flat)
    → AllKnown states
    → (left : Flat) × AllKnown left × (prune start_at states ≡ ok left)
unfolding prune
prune-known start_at states k = loop-known start_at (suc (length states)) states (omega arith) k
