-- ===== src/Handler/Descendants.antt =====
-- handler.go: `areDescendantWorkflowsDone`, the search through the retries of a workflow.
use mathlib.Core.List.Memᴰ
use workflow_manager.Common.{
  ℕ, zero, suc, Text, Bool, true, false, not, List, [], ◌∷◌, Result, ok, out_of_fuel, ◌>>=◌,
  if◌then◌else◌, ◌≡◌, refl, sym, ap, ◌∙◌, subst, All, Memᴰ, Bool-cases, inl, inr, ◌⊎◌, ◌↔◌,
  >>=-eq-ok, ok-injective,
}
use workflow_manager.Models.{Workflow, Error}
use workflow_manager.Resources.Status.{workflow_is_done}

module _ (get : Text → Result Error Workflow) where
  -- The loop over the retries; `recur` is the search below one of them.
  unfoldable pub all_children : (List Text → Result Error Bool) → List Text → Result Error Bool
  all_children recur [] = ok true
  all_children recur (id ∷ ids) = get id >>= λ child.
      if not (workflow_is_done child)
      then ok false
      else (recur child.retries >>= λ below. if not below then ok false else all_children recur ids)

  -- The fuel bounds the depth of the search.
  unfoldable pub descendants_done : ℕ → List Text → Result Error Bool
  unfolding all_children
  descendants_done zero ids = out_of_fuel
  descendants_done (suc fuel) ids = all_children (descendants_done fuel) ids

  abbrev pub are_descendant_workflows_done : ℕ → Workflow → Result Error Bool
  are_descendant_workflows_done fuel wf = descendants_done fuel wf.retries

  -- A retry, or a retry of a retry, and so on.
  pub data Descendant : Workflow → Workflow → Type 0 where
    child : {wf c : Workflow} (id : Text) → Memᴰ id wf.retries → get id ≡ ok c → Descendant wf c
    below :
        {wf c d : Workflow} (id : Text)
        → Memᴰ id wf.retries
        → get id ≡ ok c
        → Descendant c d
        → Descendant wf d

  -- Every retry is found, and so are theirs, down to a depth below `n`.
  abbrev pub IsTree : ℕ → List Text → Type 0
  IsTree zero ids = ⊥
  IsTree (suc n) ids = All (λ id. (c : Workflow) × (get id ≡ ok c) × IsTree n c.retries) ids

  first-true :
      (recur : List Text → Result Error Bool) (x : Text) (ids : List Text)
      → all_children recur (x ∷ ids) ≡ ok true
      → (c : Workflow) × (get x ≡ ok c)
        × (workflow_is_done c ≡ true)
        × (recur c.retries ≡ ok true)
        × (all_children recur ids ≡ ok true)
  unfolding all_children
  first-true recur x ids h =
      let (c, found, h1) = >>=-eq-ok (get x) _ h in
      elim (Bool-cases (workflow_is_done c)) [
        | inr active ↦ let no_ = rw active at h1 in cc
        | inl done ↦
            let (b, deep, h2) = >>=-eq-ok (recur c.retries) _ (rw done at h1) in
            elim (Bool-cases b) [
              | inr no_ ↦ let impossible = rw no_ at h2 in cc
              | inl yes_ ↦ (c, found, done, deep ∙ ap ok yes_, rw yes_ at h2)
            ]
      ]

  children-true :
      (recur : List Text → Result Error Bool) (ids : List Text) (id : Text) (c : Workflow)
      → all_children recur ids ≡ ok true
      → Memᴰ id ids
      → get id ≡ ok c
      → (workflow_is_done c ≡ true) × (recur c.retries ≡ ok true)
  unfolding all_children
  children-true recur [] id c h i found = absurd (Memᴰ.not-nil i)
  children-true recur (x ∷ ids) id c h i found =
      let (c', found', done, deep, rest) = first-true recur x ids h in
      elim (Memᴰ.cases_cons i) [
        | inl here ↦
            let same : c' ≡ c = ok-injective (sym found' ∙ ap get (sym here) ∙ found) in
            subst (λ v. (workflow_is_done v ≡ true) × (recur v.retries ≡ ok true)) same (done, deep)
        | inr later ↦ children-true recur ids id c rest later found
      ]

  children-false :
      (recur : List Text → Result Error Bool) (ids : List Text)
      → all_children recur ids ≡ ok false
      → (id : Text) × (c : Workflow) × Memᴰ id ids
        × (get id ≡ ok c)
        × ((workflow_is_done c ≡ false) ⊎ (recur c.retries ≡ ok false))
  unfolding all_children
  children-false recur [] h = cc
  children-false recur (x ∷ ids) h =
      let (c, found, h1) = >>=-eq-ok (get x) _ h in
      elim (Bool-cases (workflow_is_done c)) [
        | inr active ↦ (x, c, Memᴰ.head refl, found, inl active)
        | inl done ↦
            let (b, deep, h2) = >>=-eq-ok (recur c.retries) _ (rw done at h1) in
            elim (Bool-cases b) [
              | inr no_ ↦ (x, c, Memᴰ.head refl, found, inr (deep ∙ ap ok no_))
              | inl yes_ ↦
                  let (id, c', i, found', why) = children-false recur ids (rw yes_ at h2) in
                  (id, c', Memᴰ.tail i, found', why)
            ]
      ]

  pub descendants-true :
      (fuel : ℕ) (wf d : Workflow)
      → descendants_done fuel wf.retries ≡ ok true
      → Descendant wf d
      → workflow_is_done d ≡ true
  unfolding descendants_done
  descendants-true zero wf d h r = cc
  descendants-true (suc fuel) wf d h (Descendant.child id i found) =
      (children-true (descendants_done fuel) wf.retries id d h i found).0
  descendants-true (suc fuel) wf d h (Descendant.below {c = c} id i found r) =
      descendants-true fuel c d (children-true (descendants_done fuel) wf.retries id c h i found).1
        r

  descendants-false :
      (fuel : ℕ) (wf : Workflow)
      → descendants_done fuel wf.retries ≡ ok false
      → (d : Workflow) × Descendant wf d × (workflow_is_done d ≡ false)
  unfolding descendants_done
  descendants-false zero wf h = cc
  descendants-false (suc fuel) wf h =
      let (id, c, i, found, why) = children-false (descendants_done fuel) wf.retries h in
      elim why [
        | inl active ↦ (c, Descendant.child id i found, active)
        | inr deep ↦
            let (d, r, active) = descendants-false fuel c deep in
            (d, Descendant.below id i found r, active)
      ]

  children-return :
      (recur : List Text → Result Error Bool) (ids : List Text)
      → All (λ id. (c : Workflow) × (get id ≡ ok c) × ((b : Bool) × (recur c.retries ≡ ok b))) ids
      → (b : Bool) × (all_children recur ids ≡ ok b)
  unfolding all_children
  children-return recur [] h = (true, refl)
  children-return recur (x ∷ ids) h =
      let (c, found, (b, deep)) = h.0 in
      let (rest, later) = children-return recur ids h.1 in
      elim (Bool-cases (workflow_is_done c)) [
        | inr active ↦ (false, rw (found, active) refl)
        | inl done ↦ elim (Bool-cases b) [
          | inr no_ ↦ (false, rw (found, done, deep, no_) refl)
          | inl yes_ ↦ (rest, rw (found, done, deep, yes_) later)
        ]
      ]

  All-trees :
      (n : ℕ)
      → ((ids : List Text) → IsTree n ids → (b : Bool) × (descendants_done n ids ≡ ok b))
      → (ids : List Text) → All (λ id. (c : Workflow) × (get id ≡ ok c) × IsTree n c.retries) ids
      → All
          (λ id.
            (c : Workflow) × (get id ≡ ok c) × ((b : Bool) × (descendants_done n c.retries ≡ ok b)))
          ids
  All-trees n each [] h = tt
  All-trees n each (x ∷ ids) h =
      ((h.0.0, h.0.1, each h.0.0.retries h.0.2), All-trees n each ids h.1)

  descendants-return :
      (n : ℕ) (ids : List Text) → IsTree n ids → (b : Bool) × (descendants_done n ids ≡ ok b)
  unfolding descendants_done
  descendants-return zero ids h = elim h [ ]
  descendants-return (suc n) ids h =
      children-return (descendants_done n) ids (All-trees n (descendants-return n) ids h)

  -- Where every retry of a workflow is found, down to some depth, the search to that depth returns. It
  -- returns true exactly if each workflow that is a retry of it, or a retry of a retry, and so on, is
  -- done.
  pub are_descendant_workflows_done_iff :
      (n : ℕ) (wf : Workflow)
      → IsTree n wf.retries
      → (b : Bool) × (are_descendant_workflows_done n wf ≡ ok b)
        × ((b ≡ true) ↔ ((d : Workflow) → Descendant wf d → workflow_is_done d ≡ true))
  are_descendant_workflows_done_iff n wf tree =
      let (b, found) = descendants-return n wf.retries tree in
      (
        b,
        found,
        (
          λ e d r. descendants-true n wf d (found ∙ ap ok e) r,
          λ all. elim (Bool-cases b) [
            | inl e ↦ e
            | inr e ↦ let (d, r, active) = descendants-false n wf (found ∙ ap ok e) in cc (all d r)
          ],
        ),
      )
