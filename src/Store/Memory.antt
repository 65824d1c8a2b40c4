-- ===== src/Store/Memory.antt =====
-- store/memory/memory_store.go: the store in memory. The clock and the identifiers of
-- `uuid.NewV4` are arguments. A method returns the store after it, or an error, which leaves the
-- store as it was. The field `workflowsLocked`, which no method uses, is left out.
pub mod Versions
pub mod Workflows
pub mod Query
use workflow_manager.Common.{
  ℕ, ℤ, pos, negsuc, ◌-◌, Text, Text-discrete, ◌=?◌, Bool, true, false, List, [], ◌∷◌, ◌++◌, Option,
  none, some, Result, ok, err, panic, ◌>>=◌, if◌then◌else◌, length, get_elem?, ite,
}
use workflow_manager.Common.Int.{◌+ℤ◌, ltb_ℤ, sub_ℕ}
use workflow_manager.Common.Maps.{Map, get, put, delete}
use workflow_manager.Common.Strings.{codes, decimal}
use workflow_manager.Models.{Time, WorkflowDefinition, Workflow, StateResource, Error}
use workflow_manager.Resources.Create.{new_workflow_definition_version}
use workflow_manager.Store.{Attributes, updated, apply_attributes, leaves_terminal}

pub record MemoryStore : Type 0 where
  pub workflow_definitions : Map Text (List WorkflowDefinition)
  pub workflows : Map Text Workflow
  pub state_resources : Map Text StateResource

abbrev pub new : MemoryStore
new = record { workflow_definitions = []; workflows = []; state_resources = [] }

unfoldable pub save_workflow_definition :
    Time → WorkflowDefinition → MemoryStore → Result Error MemoryStore
save_workflow_definition now def s = elim (get Text-discrete def.name s.workflow_definitions) [
  | some versions ↦ err (Error.already_exists def.name)
  | none ↦ ok (record s {
    workflow_definitions =
        put Text-discrete def.name (record def { created_at = now } ∷ []) s.workflow_definitions;
  })
]

abbrev pub at_version : Text → ℤ → Text
at_version name version = name ++ codes "@" ++ decimal version

-- An index into a Go slice: a panic out of range.
abbrev pub index {ℓ} : {E A : Type ℓ} → List A → ℤ → Result E A
index xs (negsuc n) = panic
index xs (pos n) = elim (get_elem? xs n) [ none ↦ panic | some x ↦ ok x ]

unfoldable pub get_workflow_definition : Text → ℤ → MemoryStore → Result Error WorkflowDefinition
get_workflow_definition name version s = elim (get Text-discrete name s.workflow_definitions) [
  | none ↦ err (Error.not_found (at_version name version))
  | some versions ↦
      if ltb_ℤ (pos (length versions)) version
      then err (Error.not_found (at_version name version))
      else index versions version
]

unfoldable pub latest_workflow_definition : Text → MemoryStore → Result Error WorkflowDefinition
unfolding get_workflow_definition
latest_workflow_definition name s = elim (get Text-discrete name s.workflow_definitions) [
  | none ↦ err (Error.not_found name)
  | some versions ↦ get_workflow_definition name (sub_ℕ (length versions) 1) s
]

-- The versions of a name, as a lookup that gives a nil slice for a name that is not there.
abbrev pub versions_of : Text → MemoryStore → List WorkflowDefinition
versions_of name s = elim (get Text-discrete name s.workflow_definitions) [
  | none ↦ []
  | some versions ↦ versions
]

unfoldable pub update_workflow_definition :
    Text → Time → WorkflowDefinition → MemoryStore → Result Error (MemoryStore × WorkflowDefinition)
update_workflow_definition uuid now def s = latest_workflow_definition def.name s >>= λ last.
    let new_version = new_workflow_definition_version uuid now def (last.version +ℤ pos 1) in
    ok (
      record s {
        workflow_definitions =
            put Text-discrete def.name (versions_of def.name s ++ new_version ∷ [])
              s.workflow_definitions;
      },
      new_version,
    )

-- Every version of every definition.
unfoldable pub all_versions : Map Text (List WorkflowDefinition) → List WorkflowDefinition
all_versions [] = []
all_versions ((name, versions) ∷ rest) = versions ++ all_versions rest

unfoldable pub get_workflow_definitions : MemoryStore → Result Error (List WorkflowDefinition)
unfolding all_versions
get_workflow_definitions s = ok (all_versions s.workflow_definitions)

unfoldable pub get_workflow_definition_versions :
    Text → MemoryStore → Result Error (List WorkflowDefinition)
get_workflow_definition_versions name s = elim (get Text-discrete name s.workflow_definitions) [
  | none ↦ err (Error.not_found name)
  | some versions ↦ ok versions
]

-- The key of a state resource.
unfoldable pub resource_name : Text → Text → Text
resource_name name namespace = if namespace =? [] then name else namespace ++ codes "--" ++ name

unfoldable pub save_state_resource : StateResource → MemoryStore → Result Error MemoryStore
save_state_resource res s = ok (record s {
  state_resources = put Text-discrete (resource_name res.name res.namespace) res s.state_resources;
})

unfoldable pub get_state_resource : Text → Text → MemoryStore → Result Error StateResource
get_state_resource name namespace s =
    elim (get Text-discrete (resource_name name namespace) s.state_resources) [
      | none ↦ err (Error.not_found (resource_name name namespace))
      | some res ↦ ok res
    ]

unfoldable pub delete_state_resource : Text → Text → MemoryStore → Result Error MemoryStore
delete_state_resource name namespace s =
    elim (get Text-discrete (resource_name name namespace) s.state_resources) [
      | none ↦ err (Error.not_found (resource_name name namespace))
      | some res ↦ ok (record s {
        state_resources = delete Text-discrete (resource_name name namespace) s.state_resources;
      })
    ]

unfoldable pub save_workflow : Time → Workflow → MemoryStore → Result Error MemoryStore
save_workflow now wf s = elim (get Text-discrete wf.id s.workflows) [
  | some old ↦ err (Error.already_exists wf.id)
  | none ↦ ok (record s {
    workflows =
        put Text-discrete wf.id (record wf { created_at = now; last_updated = now }) s.workflows;
  })
]

unfoldable pub update_workflow : Time → Workflow → MemoryStore → Result Error MemoryStore
update_workflow now wf s = elim (get Text-discrete wf.id s.workflows) [
  | none ↦ err (Error.not_found wf.id)
  | some old ↦ ok (record s {
    workflows = put Text-discrete wf.id (record wf { last_updated = now }) s.workflows;
  })
]

unfoldable pub delete_workflow_by_id : Text → MemoryStore → Result Error MemoryStore
delete_workflow_by_id id s = elim (get Text-discrete id s.workflows) [
  | none ↦ err (Error.not_found id)
  | some old ↦ ok (record s { workflows = delete Text-discrete id s.workflows })
]

unfoldable pub get_workflow_by_id : Text → MemoryStore → Result Error Workflow
get_workflow_by_id id s = elim (get Text-discrete id s.workflows) [
  | none ↦ err (Error.not_found id)
  | some wf ↦ ok wf
]

unfoldable pub update_workflow_attributes :
    Text → Attributes → MemoryStore → Result Error MemoryStore
update_workflow_attributes id u s = elim (get Text-discrete id s.workflows) [
  | none ↦ err (Error.not_found id)
  | some wf ↦
      if leaves_terminal u.status wf.status
      then err (Error.terminal_to_non_terminal wf.status (updated u.status wf.status))
      else ok (record s { workflows = put Text-discrete id (apply_attributes u wf) s.workflows })
]
