-- ===== src/Resources/Prune/Greatest.antt =====
-- What the rounds of `RemoveInactiveStates` leave: the largest set of states in which each one is
-- the start or has a transition into it from a state of the set.
use mathlib.Core.List.Memᴰ
use workflow_manager.Common.{
  ℕ, zero, suc, Text, Text-discrete, ok, Bool, true, false, List, [], ◌∷◌, length, some, ◌≡◌, ◌≢◌,
  refl, arith, All, All-Memᴰ, Memᴰ, sym, ap, subst, if_neg, ◌∙◌, Option-cases, inl, inr, ◌⊎◌,
  Bool-cases, >>=-eq-ok,
}
use workflow_manager.Common.Maps.{keys, delete, get-delete, Memᴰ-delete, Memᴰ_of_delete}
use workflow_manager.Models.{Fields}
use workflow_manager.Resources.Graph.{Flat, refers, state_exists, scan, reachable}
use workflow_manager.Resources.Prune.{prune_pass, prune_loop, prune}
use workflow_manager.Resources.Prune.Total.{pass-step}

-- Some state among `states` has a transition into `name`.
abbrev pub Referred : Flat → Text → Type 0
Referred states name = (m : Text) × (s : Fields) × Memᴰ (m, s) states × (refers name s ≡ some true)

scan-Referred : (name : Text) (states : Flat) → scan name states ≡ ok true → Referred states name
unfolding scan
scan-Referred name [] h = cc
scan-Referred name ((n, s) ∷ rest) h = elim (Option-cases (refers name s)) [
  | inl unknown ↦ ground arith
  | inr (here, e) ↦ elim (Bool-cases here) [
    | inl b ↦ (n, s, Memᴰ.head refl, ground arith)
    | inr b ↦ let (m, t, i, r) = scan-Referred name rest (ground arith) in (m, t, Memᴰ.tail i, r)
  ]
]

-- A transition that is there is found, unless a state of an unknown type comes first.
scan-not-false : (name : Text) (states : Flat) → Referred states name → scan name states ≢ ok false
unfolding scan
scan-not-false name [] (m, s, i, r) = absurd (Memᴰ.not-nil i)
scan-not-false name ((n, t) ∷ rest) (m, s, i, r) = elim (Memᴰ.cases_cons i) [
  | inl e ↦
      let r' : refers name t ≡ some true = sym (ap (λ p. refers name p.1) e) ∙ r in ground arith
  | inr later ↦ ground (arith, scan-not-false name rest (m, s, later, r))
]

module _ (start_at : Text) where
  -- A set of names that keeps itself alive: each is a state, and it is the start or a state of
  -- the set has a transition into it.
  abbrev pub SelfSupporting : (Text → Type 0) → Flat → Type 0
  SelfSupporting S states =
      (name : Text)
      → S name
      → (state_exists name states ≡ true)
        × ((start_at ≡ name)
            ⊎ ((m : Text) × (s : Fields) × S m × Memᴰ (m, s) states × (refers name s ≡ some true)))

  module _ (S : Text → Type 0) where
    reachable_of_supported :
        (states : Flat) (name : Text)
        → SelfSupporting S states
        → S name
        → reachable name start_at states ≢ ok false
    unfolding reachable
    reachable_of_supported states name support in_S =
        let (there, from) = support name in_S in
        elim from [
          | inl start ↦ ground arith
          | inr (m, s, _, i, r) ↦ ground (arith, scan-not-false name states (m, s, i, r))
        ]

    delete-SelfSupporting :
        (states : Flat) (gone : Text)
        → reachable gone start_at states ≡ ok false
        → SelfSupporting S states
        → SelfSupporting S (delete Text-discrete gone states)
    unfolding state_exists
    delete-SelfSupporting states gone h support name in_S =
        let ne = λ (m : Text) (in_m : S m) (e : gone ≡ m).
          reachable_of_supported states m support in_m
            (subst (λ x. reachable x start_at states ≡ ok false) e h) in
        let (there, from) = support name in_S in
        (
          rw (get-delete Text-discrete gone name states, if_neg _ (ne name in_S)) there,
          elim from [
            | inl start ↦ inl start
            | inr (m, s, in_m, i, r) ↦
                inr (m, s, in_m, Memᴰ-delete Text-discrete gone m s states (ne m in_m) i, r)
          ],
        )

    pass-SelfSupporting :
        (names : List Text) (states : Flat) (every b : Bool) (left : Flat)
        → prune_pass start_at names states every ≡ ok (left, b)
        → SelfSupporting S states
        → SelfSupporting S left
    unfolding prune_pass
    pass-SelfSupporting [] states every b left h support =
        subst (SelfSupporting S) (ground arith) support
    pass-SelfSupporting (name ∷ names) states every b left h support =
        elim (pass-step start_at name names states every h) [
          | inl (_, rest) ↦ pass-SelfSupporting names states every b left rest support
          | inr (unreachable, rest) ↦
              pass-SelfSupporting names (delete Text-discrete name states) false b left rest
                (delete-SelfSupporting states name unreachable support)
        ]

  -- A round that reports every state reachable has deleted nothing.
  pass-true :
      (names : List Text) (states : Flat) (every : Bool) (left : Flat)
      → prune_pass start_at names states every ≡ ok (left, true)
      → (left ≡ states)
        × (every ≡ true)
        × All (λ name. reachable name start_at states ≡ ok true) names
  unfolding prune_pass
  pass-true [] states every left h = (ground arith, ground arith, tt)
  pass-true (name ∷ names) states every left h =
      elim (pass-step start_at name names states every h) [
        | inl (found, rest) ↦
            let (same, e, all) = pass-true names states every left rest in (same, e, (found, all))
        | inr (_, rest) ↦
            let (_, e, _) = pass-true names (delete Text-discrete name states) false left rest in cc
      ]

  -- What every round keeps holds of the states that are left, and for each of them the last round
  -- found the start or a transition into it.
  pub loop_rule {ℓ} :
      (P : Flat → Type ℓ)
      → ((names : List Text) (mid : Flat) (every b : Bool) (next : Flat)
          → prune_pass start_at names mid every ≡ ok (next, b)
          → P mid
          → P next)
      → (fuel : ℕ) (states left : Flat) → prune_loop fuel start_at states ≡ ok left
      → P states
      → P left × All (λ name. reachable name start_at left ≡ ok true) (keys left)
  unfolding prune_loop
  loop_rule P keep zero states left h p = cc
  loop_rule P keep (suc fuel) states left h p =
      let (round, first, rest) = >>=-eq-ok (prune_pass start_at (keys states) states true) _ h in
      let p' = keep (keys states) states true round.1 round.0 first p in
      elim (Bool-cases round.1) [
        | inl finished ↦
            let here : round.0 ≡ left = ground arith in
            let whole : prune_pass start_at (keys states) states true ≡ ok (round.0, true) =
              first ∙ ap (λ b. ok (round.0, b)) finished in
            let (same, _, all) = pass-true (keys states) states true round.0 whole in
            let found : All (λ name. reachable name start_at round.0 ≡ ok true) (keys round.0) =
              subst (λ m. All (λ name. reachable name start_at m ≡ ok true) (keys m)) (sym same)
                all in
            (
              subst P here p',
              subst (λ m. All (λ name. reachable name start_at m ≡ ok true) (keys m)) here found,
            )
        | inr again ↦ loop_rule P keep fuel round.0 left (rw again at rest) p'
      ]

  pass-Memᴰ :
      (names : List Text) (states : Flat) (every b : Bool) (left : Flat) (e : Text × Fields)
      → prune_pass start_at names states every ≡ ok (left, b)
      → Memᴰ e left
      → Memᴰ e states
  unfolding prune_pass
  pass-Memᴰ [] states every b left e h i = subst (Memᴰ e) (ground arith) i
  pass-Memᴰ (name ∷ names) states every b left e h i =
      elim (pass-step start_at name names states every h) [
        | inl (_, rest) ↦ pass-Memᴰ names states every b left e rest i
        | inr (_, rest) ↦
            Memᴰ_of_delete Text-discrete name e states
              (pass-Memᴰ names (delete Text-discrete name states) false b left e rest i)
      ]

  reachable-true :
      (name : Text) (states : Flat)
      → reachable name start_at states ≡ ok true
      → (state_exists name states ≡ true) × ((start_at ≡ name) ⊎ Referred states name)
  unfolding reachable
  reachable-true name states h = (
    ground arith,
    elim (Text-discrete start_at name) [
      | yes e ↦ inl e
      | no ne ↦ inr (scan-Referred name states (ground arith))
    ],
  )

  -- Every state that `prune` leaves is one of the given states, with its fields.
  pub prune-Memᴰ :
      (states left : Flat) (e : Text × Fields)
      → prune start_at states ≡ ok left
      → Memᴰ e left
      → Memᴰ e states
  unfolding prune
  prune-Memᴰ states left e h =
      (loop_rule (λ m. Memᴰ e m → Memᴰ e states)
        (λ names mid every b next p keep i. keep (pass-Memᴰ names mid every b next e p i))
        (suc (length states)) states left h (λ i. i)).0

  pub prune-SelfSupporting :
      (S : Text → Type 0) (states left : Flat)
      → prune start_at states ≡ ok left
      → SelfSupporting S states
      → SelfSupporting S left
  unfolding prune
  prune-SelfSupporting S states left h support =
      (loop_rule (SelfSupporting S) (pass-SelfSupporting S) (suc (length states)) states left h
        support).0

  -- Every name that is left is the start or has a transition into it from a state that is left.
  pub prune-Referred :
      (states left : Flat) (name : Text)
      → prune start_at states ≡ ok left
      → Memᴰ name (keys left)
      → (state_exists name left ≡ true) × ((start_at ≡ name) ⊎ Referred left name)
  unfolding prune
  prune-Referred states left name h i =
      let (_, all) =
        loop_rule (λ _. Unit {0}) (λ _ _ _ _ _ _ _. tt) (suc (length states)) states left h tt in
      reachable-true name left
        (All-Memᴰ (λ n. reachable n start_at left ≡ ok true) (keys left) all i)
