-- ===== src/Store/Memory/Versions.antt =====
-- The definitions of the store in memory: the list that a name leads to holds version `i` of the
-- definition of that name at index `i`.
mod Lookup
unfoldable pub use Lookup.{VersionsFrom, AreVersions, IsVersioned}
use workflow_manager.Store.Memory.Versions.Lookup.{
  get_elem?-VersionsFrom, append-VersionsFrom, index-eq, plus_zero, index-inversion, last-index,
  get-index, latest-index, found-version, get-found, get-at, latest-found, get_elem?-append_last,
  get_elem?-append_ne, last-before, append-ne-nil,
}
use workflow_manager.Common.{
  ℕ, zero, suc, ◌+◌, ◌<◌, ℤ, pos, negsuc, Text, Text-discrete, List, [], ◌∷◌, ◌++◌, some, Result,
  ok, ◌≡◌, ◌≢◌, refl, arith, All, length, get_elem?, Option-cases, inl, inr, ap, sym, subst, ◌∙◌,
  >>=-eq-ok, length-append,
}
use workflow_manager.Common.Maps.{get, put, get-put, All-put, All-get-entry}
use workflow_manager.Common.Int.{◌+ℤ◌, sub_ℕ}
use workflow_manager.Models.{Time, WorkflowDefinition, Error}
use workflow_manager.Resources.Create.{new_workflow_definition_version}
use workflow_manager.Store.Memory.{
  MemoryStore, save_workflow_definition, get_workflow_definition, latest_workflow_definition,
  versions_of, update_workflow_definition, index,
}

module _ (s : MemoryStore) (v : IsVersioned s) where
  versions_of-VersionsFrom :
      (name : Text) (versions : List WorkflowDefinition)
      → get Text-discrete name s.workflow_definitions ≡ some versions
      → AreVersions (name, versions)
  unfolding IsVersioned
  versions_of-VersionsFrom name versions found =
      All-get-entry Text-discrete AreVersions name versions s.workflow_definitions v found

  -- A save of a definition of version 0 that succeeds keeps every name's list of versions numbered by
  -- its indices.
  pub save-IsVersioned :
      (now : Time) (def : WorkflowDefinition) (s' : MemoryStore)
      → def.version ≡ pos 0
      → save_workflow_definition now def s ≡ ok s'
      → IsVersioned s'
  unfolding save_workflow_definition IsVersioned VersionsFrom
  save-IsVersioned now def s' zeroth h =
      elim (Option-cases (get Text-discrete def.name s.workflow_definitions)) [
        | inr (old, there) ↦ cc
        | inl free ↦
            let e : s'.workflow_definitions
                ≡ put Text-discrete def.name (record def { created_at = now } ∷ [])
                    s.workflow_definitions =
              ground arith in
            subst (All AreVersions) (sym e) (
              All-put Text-discrete AreVersions def.name (record def { created_at = now } ∷ [])
                s.workflow_definitions ((λ e'. cc), (zeroth, refl, tt)) v)
      ]

  -- A definition that is found by name and version has them.
  pub get_workflow_definition-name_version :
      (name : Text) (version : ℤ) (def : WorkflowDefinition)
      → get_workflow_definition name version s ≡ ok def
      → (def.version ≡ version) × (def.name ≡ name)
  unfolding get_workflow_definition
  get_workflow_definition-name_version name version def h =
      elim (Option-cases (get Text-discrete name s.workflow_definitions)) [
        | inl gone ↦ cc
        | inr (versions, there) ↦
            found-version s name versions there version def
              (versions_of-VersionsFrom name versions there) h
      ]

  latest-inversion :
      (name : Text) (def : WorkflowDefinition)
      → latest_workflow_definition name s ≡ ok def
      → (versions : List WorkflowDefinition) × (get Text-discrete name s.workflow_definitions
          ≡ some versions)
        × (def.version +ℤ pos 1 ≡ pos (length versions))
  unfolding latest_workflow_definition AreVersions
  latest-inversion name def h =
      elim (Option-cases (get Text-discrete name s.workflow_definitions)) [
        | inl gone ↦ cc
        | inr (versions, there) ↦
            let good = versions_of-VersionsFrom name versions there in
            (
              versions,
              there,
              ap (λ z. z +ℤ pos 1)
                    (found-version s name versions there (sub_ℕ (length versions) 1) def good
                      (latest-index s name versions there def h)).0
                  ∙ last-index versions good.0,
            )
      ]

  numbered-update :
      (uuid : Text) (now : Time) (def : WorkflowDefinition) (s' : MemoryStore)
      (new : WorkflowDefinition)
      → update_workflow_definition uuid now def s ≡ ok (s', new)
      → IsVersioned s'
  unfolding update_workflow_definition IsVersioned AreVersions new_workflow_definition_version
  numbered-update uuid now def s' new h =
      let (last, e, e') = >>=-eq-ok (latest_workflow_definition def.name s) _ h in
      let (versions, there, next) = latest-inversion def.name last e in
      let new_version = new_workflow_definition_version uuid now def (last.version +ℤ pos 1) in
      let same : s'.workflow_definitions
          ≡ put Text-discrete def.name (versions ++ new_version ∷ []) s.workflow_definitions =
        ground arith in
      let good = versions_of-VersionsFrom def.name versions there in
      subst (All AreVersions) (sym same) (
        All-put Text-discrete AreVersions def.name (versions ++ new_version ∷ [])
          s.workflow_definitions
          (
            append-ne-nil versions new_version,
            append-VersionsFrom def.name 0 versions new_version good.1
                (next ∙ sym (plus_zero (length versions))) refl,
          )
          v)

  -- What an update that succeeds did.
  update-inversion :
      (uuid : Text) (now : Time) (def : WorkflowDefinition) (s' : MemoryStore)
      (new : WorkflowDefinition)
      → update_workflow_definition uuid now def s ≡ ok (s', new)
      → (versions : List WorkflowDefinition) × (get Text-discrete def.name s.workflow_definitions
          ≡ some versions)
        × (get Text-discrete def.name s'.workflow_definitions ≡ some (versions ++ new ∷ []))
        × (new.version ≡ pos (length versions))
  unfolding update_workflow_definition new_workflow_definition_version
  update-inversion uuid now def s' new h =
      let (last, e, e') = >>=-eq-ok (latest_workflow_definition def.name s) _ h in
      let (versions, there, next) = latest-inversion def.name last e in
      (
        versions,
        there,
        ground (
          arith,
          get-put Text-discrete def.name def.name (versions ++ new ∷ []) s.workflow_definitions,
        ),
        ground arith,
      )

  named-update :
      (uuid : Text) (now : Time) (def : WorkflowDefinition) (s' : MemoryStore)
      (new : WorkflowDefinition)
      → update_workflow_definition uuid now def s ≡ ok (s', new)
      → new.name ≡ def.name
  unfolding update_workflow_definition new_workflow_definition_version
  named-update uuid now def s' new h =
      let (last, e, e') = >>=-eq-ok (latest_workflow_definition def.name s) _ h in ground arith

  -- In a store whose versions are numbered, an update that succeeds adds its result behind the versions
  -- of the name, under the same name and with the next number, and keeps the numbering.
  pub update-IsVersioned :
      (uuid : Text) (now : Time) (def : WorkflowDefinition) (s' : MemoryStore)
      (new : WorkflowDefinition)
      → update_workflow_definition uuid now def s ≡ ok (s', new)
      → IsVersioned s'
        × (versions_of def.name s' ≡ versions_of def.name s ++ new ∷ [])
        × (new.version ≡ pos (length (versions_of def.name s)))
        × (new.name ≡ def.name)
  update-IsVersioned uuid now def s' new h =
      let (versions, there, now_there, numbered) = update-inversion uuid now def s' new h in
      (
        numbered-update uuid now def s' new h,
        ground arith,
        ground arith,
        named-update uuid now def s' new h,
      )

  -- In a store whose versions are numbered, an update makes its result the latest version, and
  -- numbers it by how many there were.
  pub latest-update_workflow_definition :
      (uuid : Text) (now : Time) (def : WorkflowDefinition) (s' : MemoryStore)
      (new : WorkflowDefinition)
      → update_workflow_definition uuid now def s ≡ ok (s', new)
      → (latest_workflow_definition def.name s' ≡ ok new)
        × (new.version ≡ pos (length (versions_of def.name s)))
  latest-update_workflow_definition uuid now def s' new h =
      let (versions, there, now_there, numbered) = update-inversion uuid now def s' new h in
      (
        latest-found s' def.name (versions ++ new ∷ []) now_there
            ∙ ap (λ z. get_workflow_definition def.name z s') (last-before versions new)
            ∙ get-found s' def.name (versions ++ new ∷ []) now_there (length versions) new
                (omega (arith, length-append versions (new ∷ [])))
                (get_elem?-append_last versions new),
        ground arith,
      )

  -- In such a store an earlier version of the name is found after an update as before it.
  pub get-update_workflow_definition :
      (uuid : Text) (now : Time) (def : WorkflowDefinition) (s' : MemoryStore)
      (new : WorkflowDefinition) (i : ℕ)
      → update_workflow_definition uuid now def s ≡ ok (s', new)
      → i < length (versions_of def.name s)
      → get_workflow_definition def.name (pos i) s' ≡ get_workflow_definition def.name (pos i) s
  get-update_workflow_definition uuid now def s' new i h lt =
      let (versions, there, now_there, numbered) = update-inversion uuid now def s' new h in
      let was : versions_of def.name s ≡ versions = ground arith in
      get-at s' def.name (versions ++ new ∷ []) now_there i
        (ground (arith, length-append versions (new ∷ [])))
      ∙ index-eq (versions ++ new ∷ []) versions i
          (get_elem?-append_ne versions new i (λ e. ground arith))
      ∙ sym (get-at s def.name versions there i (ground arith))
