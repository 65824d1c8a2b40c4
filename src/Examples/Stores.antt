-- ===== src/Examples/Stores.antt =====
-- A store in memory with one workflow and one definition.
use workflow_manager.Common.{
  ℕ, zero, suc, ◌<◌, Text, Text-discrete, ℤ, pos, true, false, List, [], ◌∷◌, ◌++◌, Option, none,
  some, Result, ok, err, ◌≡◌, ◌≢◌, refl, ite, length, arith,
}
use workflow_manager.Common.Strings.{codes}
use workflow_manager.Models.{Workflow, WorkflowDefinition, WorkflowStatus, Error}
use workflow_manager.Examples.Histories.{a_workflow, a_definition}
use workflow_manager.Store.Memory
use workflow_manager.Store.Memory.{MemoryStore}
use workflow_manager.Store.Memory.Versions
use workflow_manager.Store.Memory.Workflows

abbrev pub store_of : WorkflowStatus → MemoryStore
store_of status = record {
  workflow_definitions = (codes "def", a_definition ∷ []) ∷ [];
  workflows = (codes "w", a_workflow (codes "w") status) ∷ [];
  state_resources = [];
}

abbrev pub a_store : MemoryStore
a_store = store_of WorkflowStatus.running

abbrev other_workflow : Workflow
other_workflow = a_workflow (codes "x") WorkflowStatus.queued

abbrev with_other : MemoryStore
with_other = record a_store {
  workflows =
      (codes "w", a_workflow (codes "w") WorkflowStatus.running)
      ∷ (codes "x", record other_workflow { created_at = pos 5; last_updated = pos 5 })
      ∷ [];
}

saved : Memory.save_workflow (pos 5) other_workflow a_store ≡ ok with_other
unfolding Memory.save_workflow workflow_manager.Common.Maps.get Text-discrete
    workflow_manager.Common.Maps.put
saved = refl

get-save_workflow_example :
    (Memory.get_workflow_by_id (codes "x") a_store ≡ err (Error.not_found (codes "x")))
    × (Memory.get_workflow_by_id (codes "w") with_other
        ≡ ite
            (Text-discrete (codes "x") (codes "w"))
            (ok (Workflows.stamped (pos 5) other_workflow))
            (Memory.get_workflow_by_id (codes "w") a_store))
    × (with_other.workflow_definitions ≡ a_store.workflow_definitions)
    × (with_other.state_resources ≡ a_store.state_resources)
get-save_workflow_example =
    Workflows.get-save_workflow (pos 5) other_workflow (codes "w") a_store with_other saved

abbrev updated_store : MemoryStore
updated_store = record a_store {
  workflows =
      (codes "w", record (a_workflow (codes "w") WorkflowStatus.failed) { last_updated = pos 6 })
      ∷ [];
}

was_updated :
    Memory.update_workflow (pos 6) (a_workflow (codes "w") WorkflowStatus.failed) a_store
    ≡ ok updated_store
unfolding Memory.update_workflow workflow_manager.Common.Maps.get Text-discrete
    workflow_manager.Common.Maps.put
was_updated = refl

abbrev without_workflows : MemoryStore
without_workflows = record a_store { workflows = [] }

was_deleted : Memory.delete_workflow_by_id (codes "w") a_store ≡ ok without_workflows
unfolding Memory.delete_workflow_by_id workflow_manager.Common.Maps.get Text-discrete
    workflow_manager.Common.Maps.delete
was_deleted = refl

pub a_store-IsVersioned : Versions.IsVersioned a_store
unfolding Versions.IsVersioned
a_store-IsVersioned = (((λ e. cc), (refl, refl, tt)), tt)

abbrev other_definition : WorkflowDefinition
other_definition = record a_definition { name = codes "other" }

abbrev two_definitions : MemoryStore
two_definitions = record a_store {
  workflow_definitions =
      (codes "def", a_definition ∷ [])
      ∷ (codes "other", record other_definition { created_at = pos 9 } ∷ [])
      ∷ [];
}

saved_definition :
    Memory.save_workflow_definition (pos 9) other_definition a_store ≡ ok two_definitions
unfolding Memory.save_workflow_definition workflow_manager.Common.Maps.get Text-discrete
    workflow_manager.Common.Maps.put
saved_definition = refl

save-IsVersioned_example : Versions.IsVersioned two_definitions
save-IsVersioned_example =
    Versions.save-IsVersioned a_store a_store-IsVersioned (pos 9) other_definition two_definitions
      refl saved_definition

abbrev next_definition : WorkflowDefinition
next_definition = record a_definition { id = codes "e"; created_at = pos 9; version = pos 1 }

abbrev two_versions : MemoryStore
two_versions = record a_store {
  workflow_definitions = (codes "def", a_definition ∷ next_definition ∷ []) ∷ [];
}

updated_definition :
    Memory.update_workflow_definition (codes "e") (pos 9) a_definition a_store
    ≡ ok (two_versions, next_definition)
unfolding Memory.update_workflow_definition Memory.latest_workflow_definition
    workflow_manager.Common.Maps.get Text-discrete workflow_manager.Common.Maps.put
    workflow_manager.Resources.Create.new_workflow_definition_version
    workflow_manager.Common.Int.◌+ℤ◌
updated_definition = refl

update-IsVersioned_example :
    Versions.IsVersioned two_versions
    × (Memory.versions_of (codes "def") two_versions
        ≡ Memory.versions_of (codes "def") a_store ++ next_definition ∷ [])
    × (next_definition.version ≡ pos (length (Memory.versions_of (codes "def") a_store)))
    × (next_definition.name ≡ codes "def")
update-IsVersioned_example =
    Versions.update-IsVersioned a_store a_store-IsVersioned (codes "e") (pos 9) a_definition
      two_versions next_definition updated_definition

latest-update_workflow_definition_example :
    (Memory.latest_workflow_definition (codes "def") two_versions ≡ ok next_definition)
    × (next_definition.version ≡ pos (length (Memory.versions_of (codes "def") a_store)))
latest-update_workflow_definition_example =
    Versions.latest-update_workflow_definition a_store a_store-IsVersioned (codes "e") (pos 9)
      a_definition two_versions next_definition updated_definition

one_version : 0 < length (Memory.versions_of (codes "def") a_store)
unfolding Text-discrete workflow_manager.Common.Maps.get
one_version = omega arith

found_zeroth : Memory.get_workflow_definition (codes "def") (pos 0) a_store ≡ ok a_definition
unfolding Memory.get_workflow_definition workflow_manager.Common.Maps.get Text-discrete
found_zeroth = refl
