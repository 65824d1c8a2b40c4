-- ===== src/Executor/Conventions.antt =====
-- executor/sfnconventions/sfnconventions.go: names and ARNs.
use workflow_manager.Common.{
  ℕ, Text, Text-discrete, ℤ, List, [], ◌∷◌, ◌++◌, none, some, Result, ok, err, if◌then◌else◌, ◌==◌,
}
use workflow_manager.Common.Maps.{Map, put}
use workflow_manager.Common.Strings.{codes, decimal, split, trim_prefix}
use workflow_manager.Models.{Error}
use workflow_manager.Consumer.{parse_int}

-- space < > { } [ ] ? * " # % \ ^ | ~ ` $ & , ; : /
abbrev pub state_machine_name_bad_chars : List ℕ
state_machine_name_bad_chars =
    32 ∷ 60 ∷ 62 ∷ 123 ∷ 125 ∷ 91 ∷ 93 ∷ 63 ∷ 42 ∷ 34 ∷ 35 ∷ 37 ∷ 92 ∷ 94 ∷ 124 ∷ 126 ∷ 96 ∷ 36 ∷ 38
    ∷ 44 ∷ 59 ∷ 58 ∷ 47 ∷ []

-- `strings.Replace(name, string(bad), "-", -1)` of one byte.
unfoldable pub replace_char : ℕ → Text → Text
replace_char bad [] = []
replace_char bad (c ∷ name) = (if c == bad then 45 else c) ∷ replace_char bad name

unfoldable pub replace_chars : List ℕ → Text → Text
unfolding replace_char
replace_chars [] name = name
replace_chars (bad ∷ bads) name = replace_chars bads (replace_char bad name)

unfoldable pub state_machine_name : Text → ℤ → Text → Text → Text
state_machine_name wd_name wd_version namespace start_at =
    replace_chars state_machine_name_bad_chars (
      namespace
      ++ codes "--"
      ++ wd_name
      ++ codes "--"
      ++ decimal wd_version
      ++ codes "--"
      ++ start_at)

-- `SMParts`
pub record SmParts : Type 0 where
  pub wd_name : Text
  pub wd_version : ℤ
  pub namespace : Text
  pub start_at : Text

-- `strconv.Atoi` is `ParseInt` on a 64-bit machine.
unfoldable pub state_machine_name_parts : Text → Result Error SmParts
unfolding split
state_machine_name_parts name = elim (split name (codes "--")) [
  | namespace ∷ wd_name ∷ version ∷ start_at ∷ [] ↦ elim (parse_int version) [
    | none ↦ err (Error.external version)
    | some wd_version ↦ ok (record {
      wd_name = wd_name;
      wd_version = wd_version;
      namespace = namespace;
      start_at = start_at;
    })
  ]
  | _ ↦ err (Error.external name)
]

abbrev pub put_all : Map Text Text → Map Text Text → Map Text Text
put_all [] tags = tags
put_all ((k, v) ∷ more) tags = put_all more (put Text-discrete k v tags)

-- The last tag is the code's: the start is not used.
unfoldable pub state_machine_tags : Text → Text → ℤ → Text → Map Text Text → Map Text Text
state_machine_tags namespace wd_name wd_version start_at default_tags = put_all default_tags (
    (codes "application", wd_name)
    ∷ (codes "environment", namespace)
    ∷ (codes "workflow-definition-name", wd_name)
    ∷ (codes "workflow-definition-version", decimal wd_version)
    ∷ (codes "workflow-definition-start-at", wd_name)
    ∷ [])

unfoldable pub state_machine_arn : Text → Text → Text → ℤ → Text → Text → Text
state_machine_arn region account_id wd_name wd_version namespace start_at =
    codes "arn:aws:states:"
    ++ region
    ++ codes ":"
    ++ account_id
    ++ codes ":stateMachine:"
    ++ state_machine_name wd_name wd_version namespace start_at

unfoldable pub log_group_arn : Text → Text → Text → Text
log_group_arn region account_id name =
    codes "arn:aws:logs:"
    ++ region
    ++ codes ":"
    ++ account_id
    ++ codes ":log-group:/aws/vendedlogs/states/"
    ++ name
    ++ codes ":*"

unfoldable pub sfncli_resource : Text → Text → Text → Text → Text
sfncli_resource wd_resource region account_id namespace =
    codes "arn:aws:states:"
    ++ region
    ++ codes ":"
    ++ account_id
    ++ codes ":activity:"
    ++ namespace
    ++ codes "--"
    ++ wd_resource

unfoldable pub lambda_resource : Text → Text → Text → Text → Text
lambda_resource wd_resource region account_id namespace =
    codes "arn:aws:lambda:"
    ++ region
    ++ codes ":"
    ++ account_id
    ++ codes ":function:"
    ++ namespace
    ++ codes "--"
    ++ trim_prefix wd_resource (codes "lambda:")

unfoldable pub glue_resource_and_job_name : Text → Text → Text × Text
glue_resource_and_job_name wd_resource namespace = (
  codes "arn:aws:states:::glue:startJobRun.sync",
  namespace ++ codes "--" ++ trim_prefix wd_resource (codes "glue:"),
)

unfoldable pub embedded_resource_arn : Text → Text → Text → Text → Text → Text
embedded_resource_arn wd_resource region account_id namespace app =
    codes "arn:aws:states:"
    ++ region
    ++ codes ":"
    ++ account_id
    ++ codes ":activity:"
    ++ namespace
    ++ codes "--"
    ++ app
    ++ codes "-"
    ++ wd_resource

unfoldable pub execution_arn : Text → Text → Text → Text → Text
execution_arn region account_id name execution_name =
    codes "arn:aws:states:"
    ++ region
    ++ codes ":"
    ++ account_id
    ++ codes ":execution:"
    ++ name
    ++ codes ":"
    ++ execution_name
