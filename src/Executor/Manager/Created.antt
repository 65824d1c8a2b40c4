-- ===== src/Executor/Manager/Created.antt =====
-- executor/workflow_manager_sfn.go: what `CreateWorkflow` leaves in the store in memory.
use workflow_manager.Common.{
  List, ◌∷◌, ℕ, zero, suc, Text, Text-discrete, ◌&&◌, not, Bool-cases, ◌⊎◌, inl, inr, Result, ok,
  err, panic, out_of_fuel, ◌≡◌, ◌≢◌, refl, ap, ◌∙◌, subst, arith, if_neg,
}
use workflow_manager.Common.Run.{Run, ◌>>=◌, continue}
use workflow_manager.Common.Maps.{Map, get-put, get-delete}
use workflow_manager.Models.{Value, Time, Workflow, WorkflowDefinition, Error}
use workflow_manager.Resources.Create.{new_workflow}
use workflow_manager.Store.Memory.{
  MemoryStore, save_workflow, update_workflow, delete_workflow_by_id, get_workflow_by_id,
}
use workflow_manager.Store.Memory.Workflows.{stamped, get-save_workflow}
use workflow_manager.Executor.Service.{StepFunctions, CloudWatchLogs, StateMachineOutput, Answer}
use workflow_manager.Executor.Workflows.{merge_tags}
use workflow_manager.Executor.Manager.{
  Kept, Settings, on_world, on_store, stored, or_delete, delete_stray_workflow, is_among,
  lacks_logging,
}
use workflow_manager.Executor.Manager.Machine.{
  create_machine, change_logging, settle, describe_or_create,
}
use workflow_manager.Executor.Manager.Creation.{start_execution, create_workflow}

-- What a manager keeps besides AWS and the logging: its store, and the goroutines that have not run.
abbrev pub parts : {Store World : Type 0} → Kept Store World → Store × List Text
parts s = (s.store, s.goroutines)

-- What a failed creation leaves: all as it was for every ID, or a goroutine more. Until that has run,
-- only the ID of the new workflow leads to something else, and when it has run, none does.
abbrev pub Left : Text → Text → Text → MemoryStore × List Text → MemoryStore × List Text → Type 0
Left new id other before after =
    ((after.1 ≡ before.1) × (get_workflow_by_id id after.0 ≡ get_workflow_by_id id before.0))
    ⊎ ((after.1 ≡ new ∷ before.1)
        × (get_workflow_by_id other after.0 ≡ get_workflow_by_id other before.0)
        × (get_workflow_by_id id (delete_stray_workflow delete_workflow_by_id new after.0)
            ≡ get_workflow_by_id id before.0))

-- A workflow that was saved can be deleted, and then every ID leads to what it led to before.
delete-save :
    (now : Time) (wf : Workflow) (s s2 : MemoryStore) (id : Text)
    → save_workflow now wf s ≡ ok s2
    → get_workflow_by_id id (delete_stray_workflow delete_workflow_by_id wf.id s2)
      ≡ get_workflow_by_id id s
unfolding delete_stray_workflow delete_workflow_by_id get_workflow_by_id save_workflow
delete-save now wf s s2 id h = ground (
  arith,
  get-put Text-discrete wf.id wf.id (stamped now wf) s.workflows,
  get-put Text-discrete wf.id id (stamped now wf) s.workflows,
  get-delete Text-discrete wf.id id s2.workflows,
)

module _ {Store World : Type 0} where
  continue-parts :
      {A B : Type 0} (first : Result Error A × Kept Store World)
      (next : A → Run (Kept Store World) Error B)
      → ((a : A) (s : Kept Store World) → parts (next a s).1 ≡ parts s)
      → parts (continue first next).1 ≡ parts first.1
  continue-parts (ok a, s) next h = h a s
  continue-parts (err e, s) next h = refl
  continue-parts (panic, s) next h = refl
  continue-parts (out_of_fuel, s) next h = refl

module _ {World : Type 0} (settings : Settings) (sfn : StepFunctions World)
    (logs : CloudWatchLogs World) where
  module _ {Store : Type 0} (def : WorkflowDefinition) (namespace : Text) where
    settle-parts :
        (again : Run (Kept Store World) Error StateMachineOutput)
        → ((s : Kept Store World) → parts (again s).1 ≡ parts s)
        → (a : Answer StateMachineOutput) (s : Kept Store World)
        → parts (settle settings sfn logs def namespace again a s).1 ≡ parts s
    unfolding settle
    settle-parts again keeps (Answer.failed e) s = refl
    settle-parts again keeps Answer.other_state s =
        continue-parts (on_world (create_machine settings sfn logs def namespace) s) _ (λ _. keeps)
    settle-parts again keeps (Answer.found out) s =
        elim (Bool-cases (
          not (is_among out.state_machine_arn s.updated_logging)
          && lacks_logging out.logging_configuration)) [
            | inl lacks ↦ rw lacks (
                continue-parts
                  (on_world (change_logging settings sfn logs def namespace out.state_machine_arn)
                    s)
                  _ (λ _ s'. keeps _))
            | inr has ↦ rw has refl
          ]

    -- The store is not touched, and no goroutine is left.
    describe-parts :
        (n : ℕ) (s : Kept Store World)
        → parts (describe_or_create settings sfn logs n def namespace s).1 ≡ parts s
    unfolding describe_or_create
    describe-parts zero s = refl
    describe-parts (suc n) s =
        settle-parts (describe_or_create settings sfn logs n def namespace) (describe-parts n) _ s

  module _ (now : Time) (id other : Text) where
    -- The end of a creation: the workflow is saved, its execution is started, and a goroutine is left to
    -- delete it if that fails.
    abbrev finish :
        Workflow → Run World Error (Unit {0}) → Run (Kept MemoryStore World) Error Workflow
    finish wf start s =
        (on_store (save_workflow now wf) >>= λ _ s1. or_delete wf (on_world start s1)) s

    or_delete-failed :
        (wf : Workflow) (s s1 s' : Kept MemoryStore World) (started : Result Error (Unit {0}))
        (e : Error)
        → wf.id ≢ other
        → save_workflow now wf s.store ≡ ok s1.store
        → s1.goroutines ≡ s.goroutines
        → or_delete wf (started, s1) ≡ (err e, s')
        → Left wf.id id other (parts s) (parts s')
    or_delete-failed wf s s1 s' (ok u) e ne saved same h = cc (ap (λ r. r.0) h)
    or_delete-failed wf s s1 s' panic e ne saved same h = cc (ap (λ r. r.0) h)
    or_delete-failed wf s s1 s' out_of_fuel e ne saved same h = cc (ap (λ r. r.0) h)
    or_delete-failed wf s s1 s' (err e0) e ne saved same h =
        let (absent, there, _, _) = get-save_workflow now wf other s.store s1.store saved in
        subst (λ x. Left wf.id id other (parts s) (parts x)) (ap (λ r. r.1) h)
          (inr (
            ap (λ ids. wf.id ∷ ids) same,
            there ∙ if_neg (Text-discrete wf.id other) ne _ _,
            delete-save now wf s.store s1.store id saved,
          ))

    finish-failed :
        (wf : Workflow) (start : Run World Error (Unit {0})) (s s' : Kept MemoryStore World)
        (e : Error) (saved : Result Error MemoryStore)
        → wf.id ≢ other
        → save_workflow now wf s.store ≡ saved
        → continue (stored saved s) (λ _ s1. or_delete wf (on_world start s1)) ≡ (err e, s')
        → Left wf.id id other (parts s) (parts s')
    finish-failed wf start s s' e (ok s2) ne same h =
        let started = start s.world in
        or_delete-failed wf s (record s { store = s2; world = started.1 }) s' started.0 e ne same
          refl h
    finish-failed wf start s s' e (err e0) ne same h =
        subst (λ x. Left wf.id id other (parts s) (parts x)) (ap (λ r. r.1) h) (inl (refl, refl))
    finish-failed wf start s s' e panic ne same h = cc (ap (λ r. r.0) h)
    finish-failed wf start s s' e out_of_fuel ne same h = cc (ap (λ r. r.0) h)

    described-failed :
        (new : Text) (make : StateMachineOutput → Run (Kept MemoryStore World) Error Workflow)
        (described : Result Error StateMachineOutput × Kept MemoryStore World)
        (s' : Kept MemoryStore World) (e : Error)
        → ((out : StateMachineOutput) (s1 : Kept MemoryStore World)
            → make out s1 ≡ (err e, s')
            → Left new id other (parts s1) (parts s'))
        → continue described make ≡ (err e, s')
        → Left new id other (parts described.1) (parts s')
    described-failed new make (ok out, s1) s' e each h = each out s1 h
    described-failed new make (err e0, s1) s' e each h =
        subst (λ x. Left new id other (parts s1) (parts x)) (ap (λ r. r.1) h) (inl (refl, refl))
    described-failed new make (panic, s1) s' e each h = cc (ap (λ r. r.0) h)
    described-failed new make (out_of_fuel, s1) s' e each h = cc (ap (λ r. r.0) h)

    -- When the creation of a workflow fails with an error, at whatever step, then in the store in memory
    -- every ID leads to what it led to before and no goroutine is left; or one is left, which deletes the
    -- new workflow: until it has run, every other ID leads to what it led to, and once it has run on
    -- that store, every ID does.
    pub create_workflow-failed :
        (fuel : ℕ) (uuid : Text) (def : WorkflowDefinition) (input namespace queue : Text)
        (tags : Map Text Value) (s s' : Kept MemoryStore World) (e : Error)
        → uuid ≢ other
        → create_workflow settings sfn logs
            (save_workflow now)
            (update_workflow now)
            fuel
            uuid
            now
            def
            input
            namespace
            queue
            tags
            s
          ≡ (err e, s')
        → Left uuid id other (parts s) (parts s')
    unfolding create_workflow new_workflow
    create_workflow-failed fuel uuid def input namespace queue tags s s' e ne h =
        let wf =
          new_workflow uuid now def input namespace queue (merge_tags def.default_tags tags) in
        subst (λ x. Left uuid id other x (parts s')) (describe-parts def namespace fuel s)
          (described-failed uuid
            (λ out. finish wf (start_execution settings sfn logs out.state_machine_arn uuid input))
            (describe_or_create settings sfn logs fuel def namespace s) s' e
            (λ out s1 h1.
              finish-failed wf (start_execution settings sfn logs out.state_machine_arn uuid input)
                s1 s' e (save_workflow now wf s1.store) ne refl h1)
            h)
