-- ===== src/Store/Memory/Versions/Lookup.antt =====
-- Lists of versions of a definition that are numbered by their indices, and what a lookup by name
-- and version finds in them.
use workflow_manager.Common.{
  ℕ, zero, suc, ◌+◌, ◌<◌, ℤ, pos, negsuc, Text, Text-discrete, List, [], ◌∷◌, ◌++◌, some, Result,
  ok, ◌≡◌, ◌≢◌, refl, arith, All, length, get_elem?, Option-cases, inl, inr, ap, sym, ◌∙◌,
  length-append,
}
use workflow_manager.Common.Maps.{get}
use workflow_manager.Common.Int.{◌+ℤ◌, sub_ℕ}
use workflow_manager.Models.{WorkflowDefinition, Error}
use workflow_manager.Store.Memory.{
  MemoryStore, get_workflow_definition, latest_workflow_definition, index,
}

unfoldable pub VersionsFrom : Text → ℕ → List WorkflowDefinition → Type 0
VersionsFrom name n [] = Unit
VersionsFrom name n (def ∷ defs) =
    (def.version ≡ pos n) × (def.name ≡ name) × VersionsFrom name (suc n) defs

unfoldable pub AreVersions : Text × List WorkflowDefinition → Type 0
unfolding VersionsFrom
AreVersions (name, versions) = (versions ≢ []) × VersionsFrom name 0 versions

unfoldable pub IsVersioned : MemoryStore → Type 0
unfolding AreVersions
IsVersioned s = All AreVersions s.workflow_definitions

pub get_elem?-VersionsFrom :
    (name : Text) (n i : ℕ) (defs : List WorkflowDefinition) (def : WorkflowDefinition)
    → VersionsFrom name n defs
    → get_elem? defs i ≡ some def
    → (def.version ≡ pos (i + n)) × (def.name ≡ name)
unfolding VersionsFrom
get_elem?-VersionsFrom name n i [] def h found = ground arith
get_elem?-VersionsFrom name n zero (d ∷ defs) def h found = (ground arith, ground arith)
get_elem?-VersionsFrom name n (suc i) (d ∷ defs) def h found = (
  ground (arith, get_elem?-VersionsFrom name (suc n) i defs def h.2 found),
  (get_elem?-VersionsFrom name (suc n) i defs def h.2 found).1,
)

pub append-VersionsFrom :
    (name : Text) (n : ℕ) (defs : List WorkflowDefinition) (def : WorkflowDefinition)
    → VersionsFrom name n defs
    → def.version ≡ pos (length defs + n)
    → def.name ≡ name
    → VersionsFrom name n (defs ++ def ∷ [])
unfolding VersionsFrom
append-VersionsFrom name n [] def h v e = (ground (arith, v), e, tt)
append-VersionsFrom name n (d ∷ defs) def h v e =
    (h.0, h.1, append-VersionsFrom name (suc n) defs def h.2 (ground (arith, v)) e)

pub index-eq :
    (xs ys : List WorkflowDefinition) (i : ℕ)
    → get_elem? xs i ≡ get_elem? ys i
    → ◌≡◌ {A = Result Error WorkflowDefinition} (index xs (pos i)) (index ys (pos i))
index-eq xs ys i e = ground arith

pub plus_zero : (i : ℕ) → pos (i + 0) ≡ pos i
plus_zero i = ground arith

pub index-inversion :
    (defs : List WorkflowDefinition) (version : ℤ) (def : WorkflowDefinition)
    → ◌≡◌ {A = Result Error WorkflowDefinition} (index defs version) (ok def)
    → (i : ℕ) × (version ≡ pos i) × (get_elem? defs i ≡ some def)
index-inversion defs (pos i) def h = elim (Option-cases (get_elem? defs i)) [
  | inl gone ↦ ground arith
  | inr (x, found) ↦ (i, refl, ground arith)
]
index-inversion defs (negsuc i) def h = cc

pub last-index :
    (defs : List WorkflowDefinition)
    → defs ≢ []
    → sub_ℕ (length defs) 1 +ℤ pos 1 ≡ pos (length defs)
unfolding ◌+ℤ◌
last-index [] ne = absurd (ne refl)
last-index (d ∷ defs) ne = ground arith

module _ (s : MemoryStore) (name : Text) (versions : List WorkflowDefinition)
    (there : get Text-discrete name s.workflow_definitions ≡ some versions) where
  pub get-index :
      (version : ℤ) (def : WorkflowDefinition)
      → get_workflow_definition name version s ≡ ok def
      → ◌≡◌ {A = Result Error WorkflowDefinition} (index versions version) (ok def)
  unfolding get_workflow_definition
  get-index version def h = ground arith

  pub latest-index :
      (def : WorkflowDefinition)
      → latest_workflow_definition name s ≡ ok def
      → get_workflow_definition name (sub_ℕ (length versions) 1) s ≡ ok def
  unfolding latest_workflow_definition
  latest-index def h = ground arith

  pub found-version :
      (version : ℤ) (def : WorkflowDefinition)
      → AreVersions (name, versions)
      → get_workflow_definition name version s ≡ ok def
      → (def.version ≡ version) × (def.name ≡ name)
  unfolding AreVersions
  found-version version def (ne, numbered) h =
      let (i, e, found) = index-inversion versions version def (get-index version def h) in
      let (ev, en) = get_elem?-VersionsFrom name 0 i versions def numbered found in
      (ev ∙ plus_zero i ∙ sym e, en)

  pub get-found :
      (i : ℕ) (def : WorkflowDefinition)
      → i < length versions
      → get_elem? versions i ≡ some def
      → get_workflow_definition name (pos i) s ≡ ok def
  unfolding get_workflow_definition
  get-found i def lt found = ground arith

  pub get-at :
      (i : ℕ)
      → i < length versions
      → get_workflow_definition name (pos i) s ≡ index versions (pos i)
  unfolding get_workflow_definition
  get-at i lt = ground arith

  pub latest-found :
      latest_workflow_definition name s ≡ get_workflow_definition name (sub_ℕ (length versions) 1) s
  unfolding latest_workflow_definition
  latest-found = ground arith

pub get_elem?-append_last :
    (defs : List WorkflowDefinition) (def : WorkflowDefinition)
    → get_elem? (defs ++ def ∷ []) (length defs) ≡ some def
get_elem?-append_last [] def = refl
get_elem?-append_last (d ∷ defs) def = get_elem?-append_last defs def

pub get_elem?-append_ne :
    (defs : List WorkflowDefinition) (def : WorkflowDefinition) (i : ℕ)
    → i ≢ length defs
    → get_elem? (defs ++ def ∷ []) i ≡ get_elem? defs i
get_elem?-append_ne [] def zero ne = absurd (ne refl)
get_elem?-append_ne [] def (suc i) ne = refl
get_elem?-append_ne (d ∷ defs) def zero ne = refl
get_elem?-append_ne (d ∷ defs) def (suc i) ne = get_elem?-append_ne defs def i (λ e. ne (ap suc e))

pub last-before :
    (defs : List WorkflowDefinition) (def : WorkflowDefinition)
    → sub_ℕ (length (defs ++ def ∷ [])) 1 ≡ pos (length defs)
last-before defs def = ground (arith, length-append defs (def ∷ []))

pub append-ne-nil :
    (defs : List WorkflowDefinition) (def : WorkflowDefinition) → defs ++ def ∷ [] ≢ []
append-ne-nil [] def = λ e. cc
append-ne-nil (d ∷ defs) def = λ e. cc
