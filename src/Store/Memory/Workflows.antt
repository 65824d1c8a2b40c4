-- ===== src/Store/Memory/Workflows.antt =====
-- The workflows of the store in memory: what a lookup finds after each operation, and the laws of
-- the interface.
use workflow_manager.Common.{
  true, Text, Text-discrete, false, Option, none, some, Result, ok, err, ◌≡◌, ◌≢◌, arith, ite,
  Option-cases, inl, inr, Bool-cases,
}
use workflow_manager.Common.Maps.{get, put, get-put, get-delete}
use workflow_manager.Models.{Time, Workflow, WorkflowStatus, Error}
use workflow_manager.Store.{
  Attributes, WorkflowStore, AcceptsUpdates, apply_attributes, leaves_terminal,
}
use workflow_manager.Store.Memory.{
  MemoryStore, save_workflow, update_workflow, delete_workflow_by_id, get_workflow_by_id,
  update_workflow_attributes,
}

-- A lookup as the store's answer.
abbrev answer : Text → Option Workflow → Result Error Workflow
answer id none = err (Error.not_found id)
answer id (some wf) = ok wf

abbrev pub stamped : Time → Workflow → Workflow
stamped now wf = record wf { created_at = now; last_updated = now }

-- A workflow is saved only under an ID that was not there. It is then found under it with the times of
-- the save, every other ID leads to what it led to, and the definitions and the state resources are
-- as before.
pub get-save_workflow :
    (now : Time) (wf : Workflow) (id : Text) (s s' : MemoryStore)
    → save_workflow now wf s ≡ ok s'
    → (get_workflow_by_id wf.id s ≡ err (Error.not_found wf.id))
      × (get_workflow_by_id id s'
          ≡ ite (Text-discrete wf.id id) (ok (stamped now wf)) (get_workflow_by_id id s))
      × (s'.workflow_definitions ≡ s.workflow_definitions)
      × (s'.state_resources ≡ s.state_resources)
unfolding save_workflow get_workflow_by_id
get-save_workflow now wf id s s' h = (
  ground arith,
  ground (arith, get-put Text-discrete wf.id id (stamped now wf) s.workflows),
  ground arith,
  ground arith,
)

-- A workflow is updated only if its ID is there. It is then found with the time of the update, and
-- every other ID leads to what it led to.
pub get-update_workflow :
    (now : Time) (wf : Workflow) (id : Text) (s s' : MemoryStore)
    → update_workflow now wf s ≡ ok s'
    → (get_workflow_by_id wf.id s ≢ err (Error.not_found wf.id))
      × (get_workflow_by_id id s'
          ≡ ite
              (Text-discrete wf.id id)
              (ok (record wf { last_updated = now }))
              (get_workflow_by_id id s))
unfolding update_workflow get_workflow_by_id
get-update_workflow now wf id s s' h = (
  ground arith,
  ground (arith, get-put Text-discrete wf.id id (record wf { last_updated = now }) s.workflows),
)

-- A workflow is deleted only if its ID is there. The ID is then not found, and every other ID leads
-- to what it led to.
pub get-delete_workflow_by_id :
    (gone id : Text) (s s' : MemoryStore)
    → delete_workflow_by_id gone s ≡ ok s'
    → (get_workflow_by_id gone s ≢ err (Error.not_found gone))
      × (get_workflow_by_id id s'
          ≡ ite (Text-discrete gone id) (err (Error.not_found id)) (get_workflow_by_id id s))
unfolding delete_workflow_by_id get_workflow_by_id
get-delete_workflow_by_id gone id s s' h =
    (ground arith, ground (arith, get-delete Text-discrete gone id s.workflows))

module _ (id : Text) (u : Attributes) (s : MemoryStore) where
  get-workflows :
      (wf : Workflow) → get_workflow_by_id id s ≡ ok wf → get Text-discrete id s.workflows ≡ some wf
  unfolding get_workflow_by_id
  get-workflows wf h = ground arith

  -- An update that succeeds was of a workflow that is there, and puts the new attributes.
  update-inversion :
      (s' : MemoryStore)
      → update_workflow_attributes id u s ≡ ok s'
      → (wf : Workflow) × (get Text-discrete id s.workflows ≡ some wf)
        × (leaves_terminal u.status wf.status ≡ false)
        × (s'.workflows ≡ put Text-discrete id (apply_attributes u wf) s.workflows)
  unfolding update_workflow_attributes
  update-inversion s' h = elim (Option-cases (get Text-discrete id s.workflows)) [
    | inl gone ↦ cc
    | inr (wf, there) ↦ elim (Bool-cases (leaves_terminal u.status wf.status)) [
      | inl leaves ↦ cc
      | inr stays ↦ (wf, there, stays, ground arith)
    ]
  ]

-- The laws of the interface hold of the store in memory.
pub get-update_workflow_attributes :
    (id : Text) (u : Attributes) (s s' : MemoryStore)
    → update_workflow_attributes id u s ≡ ok s'
    → (wf : Workflow) × (get_workflow_by_id id s ≡ ok wf)
      × (leaves_terminal u.status wf.status ≡ false)
      × (get_workflow_by_id id s' ≡ ok (apply_attributes u wf))
unfolding get_workflow_by_id
get-update_workflow_attributes id u s s' h =
    let (wf, there, stays, put_there) = update-inversion id u s s' h in
    (
      wf,
      ground arith,
      stays,
      ground (arith, get-put Text-discrete id id (apply_attributes u wf) s.workflows),
    )

pub get-update_workflow_attributes_ne :
    (id other : Text) (u : Attributes) (s s' : MemoryStore)
    → update_workflow_attributes id u s ≡ ok s'
    → id ≢ other
    → get_workflow_by_id other s' ≡ get_workflow_by_id other s
unfolding get_workflow_by_id
get-update_workflow_attributes_ne id other u s s' h ne =
    let (wf, there, stays, put_there) = update-inversion id u s s' h in
    ground (arith, get-put Text-discrete id other (apply_attributes u wf) s.workflows)

pub update_workflow_attributes-ok :
    (id : Text) (u : Attributes) (s : MemoryStore) (wf : Workflow)
    → get_workflow_by_id id s ≡ ok wf
    → leaves_terminal u.status wf.status ≡ false
    → (s' : MemoryStore) × (update_workflow_attributes id u s ≡ ok s')
unfolding update_workflow_attributes
update_workflow_attributes-ok id u s wf h stays = (
  record s { workflows = put Text-discrete id (apply_attributes u wf) s.workflows },
  ground (arith, get-workflows id u s wf h),
)

pub update_workflow_attributes-refused :
    (id : Text) (u : Attributes) (s : MemoryStore) (wf : Workflow) (new : WorkflowStatus)
    → get_workflow_by_id id s ≡ ok wf
    → u.status ≡ some new
    → leaves_terminal u.status wf.status ≡ true
    → update_workflow_attributes id u s ≡ err (Error.terminal_to_non_terminal wf.status new)
unfolding update_workflow_attributes
update_workflow_attributes-refused id u s wf new h to leaves =
    ground (arith, get-workflows id u s wf h)

abbrev pub memory_workflow_store : WorkflowStore
memory_workflow_store = record {
  State = MemoryStore;
  get_workflow_by_id = get_workflow_by_id;
  update_workflow_attributes = update_workflow_attributes;
  get-update = get-update_workflow_attributes;
  get-update_ne = get-update_workflow_attributes_ne;
}

abbrev pub memory-AcceptsUpdates : AcceptsUpdates memory_workflow_store
memory-AcceptsUpdates = record {
  update_defined = λ id u s wf some_update. update_workflow_attributes-ok id u s wf;
  update_refused = λ id u s wf new there to leaves.
      (wf.status, update_workflow_attributes-refused id u s wf new there to leaves);
}
