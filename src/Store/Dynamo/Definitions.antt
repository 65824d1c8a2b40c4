-- ===== src/Store/Dynamo/Definitions.antt =====
-- store/dynamodb/: the tables of workflow definitions, one of every version and one of the latest.
use workflow_manager.Common.{
  ℕ, zero, suc, Text, ℤ, pos, List, [], ◌∷◌, ◌++◌, Option, none, some, Result, ok, err, out_of_fuel,
  map, ◌>>=◌ as ◌>>>◌,
}
use workflow_manager.Common.Run.{Run, ◌>>=◌}
use workflow_manager.Common.Int.{◌+ℤ◌}
use workflow_manager.Common.Strings.{codes}
use workflow_manager.Models.{Time, WorkflowDefinition, Error}
use workflow_manager.Resources.Create.{new_workflow_definition_version}
use workflow_manager.Store.Memory.{at_version}
use workflow_manager.Store.Dynamo.{Condition, Table, outcome}

-- workflow_definition.go: the key and the definition.
pub record DefinitionKey : Type 0 where
  pub name : Text
  pub version : ℤ

pub record DefinitionItem : Type 0 where
  pub key : DefinitionKey
  pub definition : WorkflowDefinition

unfoldable pub encode_workflow_definition : WorkflowDefinition → DefinitionItem
encode_workflow_definition def = record {
  key = record { name = def.name; version = def.version };
  definition = def;
}

-- The two tables. A page of a scan has the key from which the next goes on.
pub record DefinitionTables (World : Type 0) : Type 0 where
  pub versions : Table World DefinitionKey DefinitionItem
  pub latest : Table World Text DefinitionItem
  pub query_versions : Text → World → Result Error (List DefinitionItem)
  pub query_latest : Text → World → Result Error (List DefinitionItem)
  pub scan_latest : Option Text → World → Result Error (List DefinitionItem × Option Text)

abbrev pub definitions_of : List DefinitionItem → List WorkflowDefinition
definitions_of = map (λ item. item.definition)

module _ {World : Type 0} (tables : DefinitionTables World) where
  -- The latest version is written after the version.
  unfoldable pub save_workflow_definition : Time → WorkflowDefinition → Run World Error (Unit {0})
  unfolding encode_workflow_definition
  save_workflow_definition now def =
      let item = encode_workflow_definition (record def { created_at = now }) in
      (λ w.
        outcome (Error.already_exists def.name) (tables.versions.put_item item Condition.absent w))
      >>= λ _ w.
          outcome (Error.external (codes "ConditionalCheckFailedException"))
            (tables.latest.put_item item Condition.always w)

  unfoldable pub get_workflow_definition : Text → ℤ → World → Result Error WorkflowDefinition
  get_workflow_definition name version w =
      tables.versions.get_item (record { name = name; version = version }) w >>> λ found.
      elim found [
        | none ↦ err (Error.not_found (at_version name version))
        | some item ↦ ok item.definition
      ]

  -- Anything but one item is none.
  unfoldable pub latest_workflow_definition : Text → World → Result Error WorkflowDefinition
  latest_workflow_definition name w = tables.query_latest name w >>> λ items. elim items [
    | [] ↦ err (Error.not_found name)
    | item ∷ rest ↦ elim rest [
      | [] ↦ ok item.definition
      | other ∷ others ↦ err (Error.not_found name)
    ]
  ]

  unfoldable pub get_workflow_definition_versions :
      Text → World → Result Error (List WorkflowDefinition)
  get_workflow_definition_versions name w = tables.query_versions name w >>> λ items. elim items [
    | [] ↦ err (Error.not_found name)
    | item ∷ rest ↦ ok (definitions_of (item ∷ rest))
  ]

  -- What was saved is read back, with the changes of the save.
  unfoldable pub update_workflow_definition :
      Text → Time → Time → WorkflowDefinition → Run World Error WorkflowDefinition
  unfolding save_workflow_definition get_workflow_definition latest_workflow_definition
  update_workflow_definition uuid now later def w =
      ((λ w. (latest_workflow_definition def.name w, w)) >>= λ last.
      let new_version = new_workflow_definition_version uuid now def (last.version +ℤ pos 1) in
      save_workflow_definition later new_version >>= λ _ w.
      (get_workflow_definition new_version.name new_version.version w, w))
        w

  -- The pages of the scan from a key on; the fuel is the number of pages.
  unfoldable pub scan_from : ℕ → Option Text → World → Result Error (List DefinitionItem)
  scan_from zero start w = out_of_fuel
  scan_from (suc fuel) start w = tables.scan_latest start w >>> λ page. elim page.1 [
    | none ↦ ok page.0
    | some key ↦ scan_from fuel (some key) w >>> λ rest. ok (page.0 ++ rest)
  ]

  unfoldable pub get_workflow_definitions : ℕ → World → Result Error (List WorkflowDefinition)
  unfolding scan_from
  get_workflow_definitions pages w = scan_from pages none w >>> λ items. ok (definitions_of items)
