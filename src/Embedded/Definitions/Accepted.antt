-- ===== src/Embedded/Definitions/Accepted.antt =====
-- embedded/embedded.go: the definitions that a client keeps were accepted by its validation.
use workflow_manager.Common.{
  ℕ, zero, suc, Text, Bool, List, [], ◌∷◌, ◌++◌, Option, none, some, ok, set, ◌≡◌, subst, All,
  >>=-eq-ok, ok-injective,
}
use workflow_manager.Models.{Time, WorkflowDefinition, StateMachine, MachinePtr}
use workflow_manager.Embedded.Validation.{named, validate_workflow_definition}
use workflow_manager.Embedded.Client.{Embedded}
use workflow_manager.Embedded.Definitions.{
  NewDefinition, find_slot, place_at, validate_ptr, new_workflow_definition,
}

-- The validation accepts a definition.
abbrev pub IsAccepted : (Text → Bool) → WorkflowDefinition → Type 0
IsAccepted known def = validate_workflow_definition known def.name def.state_machine ≡ ok tt

abbrev pub AllAccepted : Embedded → Type 0
AllAccepted e = All (IsAccepted e.known_resource) e.workflow_definitions

All-append :
    (P : WorkflowDefinition → Type 0) (xs : List WorkflowDefinition) (x : WorkflowDefinition)
    → All P xs
    → P x
    → All P (xs ++ x ∷ [])
All-append P [] x all p = (p, tt)
All-append P (y ∷ xs) x all p = (all.0, All-append P xs x all.1 p)

All-set :
    (P : WorkflowDefinition → Type 0) (xs : List WorkflowDefinition) (i : ℕ)
    (x : WorkflowDefinition)
    → All P xs
    → P x
    → All P (set xs i x)
All-set P [] i x all p = tt
All-set P (y ∷ xs) zero x all p = (p, all.1)
All-set P (y ∷ xs) (suc i) x all p = (all.0, All-set P xs i x all.1 p)

place_at-All :
    (P : WorkflowDefinition → Type 0) (slot : Option ℕ) (def : WorkflowDefinition)
    (defs : List WorkflowDefinition)
    → All P defs
    → P def
    → All P (place_at slot def defs)
place_at-All P none def defs all p = All-append P defs def all p
place_at-All P (some i) def defs all p = All-set P defs i def all p

validate_ptr-ok :
    (known : Text → Bool) (name : Text) (p : MachinePtr) (m : StateMachine)
    → validate_ptr known name p ≡ ok m
    → validate_workflow_definition known name m ≡ ok tt
validate_ptr-ok known name MachinePtr.null m h =
    let (_, _, fault) = >>=-eq-ok (named name) _ h in cc
validate_ptr-ok known name (MachinePtr.ref m0) m h =
    let (_, checked, last) = >>=-eq-ok (validate_workflow_definition known name m0) _ h in
    subst (λ x. validate_workflow_definition known name x ≡ ok tt) (ok-injective last) checked

-- A client whose definitions were all accepted by the validation keeps it so when a definition is
-- added.
pub new_workflow_definition-AllAccepted :
    (now : Time) (i : NewDefinition) (e e' : Embedded) (def : WorkflowDefinition)
    → AllAccepted e
    → new_workflow_definition now i e ≡ ok (e', def)
    → AllAccepted e'
unfolding new_workflow_definition
new_workflow_definition-AllAccepted now i e e' def all h =
    let (slot, _, h1) = >>=-eq-ok (find_slot i.name 0 e.workflow_definitions) _ h in
    let (m, checked, last) =
      >>=-eq-ok (validate_ptr e.known_resource i.name i.state_machine) _ h1 in
    subst (λ (r : Embedded × WorkflowDefinition). AllAccepted r.0) (ok-injective last)
      (place_at-All (IsAccepted e.known_resource) slot _ e.workflow_definitions all
        (validate_ptr-ok e.known_resource i.name i.state_machine m checked))
