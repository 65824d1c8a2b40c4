-- ===== src/Handler/Definitions.antt =====
-- What the handlers that store a definition guarantee of it.
use workflow_manager.Common.{
  ℕ, Text, ◌=?◌, pos, false, not, [], ◌∷◌, some, Result, ok, ◌==◌, ◌≡◌, refl, sym, subst, ap, ◌∙◌,
  arith, >>=-eq-ok, ok-injective, guard-eq-ok, All,
}
use workflow_manager.Common.Maps.{Map}
use workflow_manager.Models.{Value, Time, WorkflowDefinition, StateMachine, MachinePtr, Error}
use workflow_manager.Resources.Create.{new_workflow_definition}
use workflow_manager.Resources.Prune.{remove_inactive_states}
use workflow_manager.Resources.Prune.Closed.{IsClosed, remove_inactive_states-IsClosed}
use workflow_manager.Handler.{
  DefinitionRequest, state_count, validate_tags_map, definition_of_machine,
  new_workflow_definition_from_request, create_definition, validate_branch, update_definition,
}
use workflow_manager.Store.Memory.{
  MemoryStore, save_workflow_definition, update_workflow_definition,
}
use workflow_manager.Store.Memory.Versions.{IsVersioned, save-IsVersioned, update-IsVersioned}

abbrev pub IsString : Text × Value → Type 0
IsString (k, v) = (s : Text) × (v ≡ Value.string s)

validate_tags_map-IsString :
    (tags : Map Text Value) → validate_tags_map tags ≡ ok tt → All IsString tags
unfolding validate_tags_map
validate_tags_map-IsString [] h = tt
validate_tags_map-IsString ((k, Value.string v) ∷ tags) h =
    ((v, refl), validate_tags_map-IsString tags h)
validate_tags_map-IsString ((k, Value.json v) ∷ tags) h = cc

equal : (a b : ℕ) → not (a == b) ≡ false → a ≡ b
equal a b h = ground arith

-- The parts of a definition that is made from a machine.
definition_of_machine-inversion :
    (uuid : Text) (now : Time) (req : DefinitionRequest) (m : StateMachine)
    (def : WorkflowDefinition)
    → definition_of_machine uuid now req m ≡ ok def
    → (pruned : StateMachine) × (remove_inactive_states m ≡ ok pruned)
      × (state_count pruned ≡ state_count m)
      × (validate_tags_map req.default_tags ≡ ok tt)
      × (def ≡ new_workflow_definition uuid now req.name req.manager pruned req.default_tags)
unfolding definition_of_machine
definition_of_machine-inversion uuid now req
      (StateMachine.machine comment start_at states timeout version) def h =
    let given = StateMachine.machine comment start_at states timeout version in
    let (_, h0) = guard-eq-ok (start_at =? []) _ _ h in
    let (before, e1, h1) = >>=-eq-ok (state_count given) _ h0 in
    let (pruned, e2, h2) = >>=-eq-ok (remove_inactive_states given) _ h1 in
    let (after, e3, h3) = >>=-eq-ok (state_count pruned) _ h2 in
    let (same, h4) = guard-eq-ok (not (after == before)) _ _ h3 in
    let (_, e4, h5) = >>=-eq-ok (validate_tags_map req.default_tags) _ h4 in
    (pruned, e2, e3 ∙ ap ok (equal after before same) ∙ sym e1, e4, sym (ok-injective h5))

request-inversion :
    (uuid : Text) (now : Time) (req : DefinitionRequest) (given : MachinePtr)
    (def : WorkflowDefinition)
    → req.state_machine ≡ given
    → new_workflow_definition_from_request uuid now req ≡ ok def
    → (m : StateMachine) × (req.state_machine ≡ MachinePtr.ref m)
      × (definition_of_machine uuid now req m ≡ ok def)
unfolding new_workflow_definition_from_request
request-inversion uuid now req MachinePtr.null def e h = ground arith
request-inversion uuid now req (MachinePtr.ref m) def e h = (m, e, ground arith)

module _ (uuid : Text) (now : Time) (req : DefinitionRequest) (def : WorkflowDefinition) where
  -- A definition that is made from a request has a closed machine, which counts as many states as
  -- the machine of the request, and tags that are strings; it has version 0 and the name of the
  -- request.
  pub new_workflow_definition_from_request-IsClosed :
      new_workflow_definition_from_request uuid now req ≡ ok def
      → (m : StateMachine) × (req.state_machine ≡ MachinePtr.ref m)
        × IsClosed def.state_machine
        × (state_count def.state_machine ≡ state_count m)
        × All IsString def.default_tags
        × (def.version ≡ pos 0)
        × (def.name ≡ req.name)
  unfolding new_workflow_definition
  new_workflow_definition_from_request-IsClosed h =
      let (m, given, made) = request-inversion uuid now req req.state_machine def refl h in
      let (pruned, e, count, tags, parts) =
        definition_of_machine-inversion uuid now req m def made in
      (
        m,
        given,
        subst IsClosed (ap (λ d. d.state_machine) (sym parts))
            (remove_inactive_states-IsClosed m pruned e),
        ap (λ d. state_count d.state_machine) parts ∙ count,
        subst (All IsString) (ap (λ d. d.default_tags) (sym parts))
            (validate_tags_map-IsString req.default_tags tags),
        ap (λ d. d.version) parts,
        ap (λ d. d.name) parts,
      )

  made-version : new_workflow_definition_from_request uuid now req ≡ ok def → def.version ≡ pos 0
  made-version h = (new_workflow_definition_from_request-IsClosed h).5

  create-inversion :
      {Store : Type 0} (save : WorkflowDefinition → Store → Result Error Store) (s s' : Store)
      → create_definition Store save uuid now req s ≡ ok (s', def)
      → (new_workflow_definition_from_request uuid now req ≡ ok def) × (save def s ≡ ok s')
  unfolding create_definition
  create-inversion save s s' h =
      let (_, h0) = guard-eq-ok (req.name =? []) _ _ h in
      let (_, e1, h1) = >>=-eq-ok (validate_branch req.state_machine) _ h0 in
      let (made, e2, h2) = >>=-eq-ok (new_workflow_definition_from_request uuid now req) _ h1 in
      let (saved, e3, h3) = >>=-eq-ok (save made s) _ h2 in (cc, cc)

  -- The handler that creates a definition keeps the store in memory numbered.
  pub create_definition-IsVersioned :
      (s s' : MemoryStore)
      → IsVersioned s
      → create_definition MemoryStore (save_workflow_definition now) uuid now req s ≡ ok (s', def)
      → IsVersioned s'
  create_definition-IsVersioned s s' v h =
      let (made, saved) = create-inversion (save_workflow_definition now) s s' h in
      save-IsVersioned s v now def s' (made-version made) saved

  -- The handler that updates a definition keeps the store in memory numbered.
  pub update_definition-IsVersioned :
      (next name : Text) (s s' : MemoryStore)
      → IsVersioned s
      → update_definition MemoryStore
          (update_workflow_definition next now)
          uuid
          now
          name
          (some req)
          s
        ≡ ok (s', def)
      → IsVersioned s'
  unfolding update_definition
  update_definition-IsVersioned next name s s' v h =
      let (_, h0) = guard-eq-ok (not (req.name =? name)) _ _ h in
      let (_, e1, h1) = >>=-eq-ok (validate_branch req.state_machine) _ h0 in
      let (made, e2, h2) = >>=-eq-ok (new_workflow_definition_from_request uuid now req) _ h1 in
      (update-IsVersioned s v next now made s' def h2).0
