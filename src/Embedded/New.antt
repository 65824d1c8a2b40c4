-- ===== src/Embedded/New.antt =====
-- embedded/embedded.go: `New`. `yaml.Unmarshal` and the reflection of `sfnfunction.New` are parameters,
-- and so is the name that a worker has by default.
use workflow_manager.Common.{
  Text, Text-discrete, ◌=?◌, ℤ, pos, Bool, not, List, [], ◌∷◌, Option, none, some, Result, ok, err,
  ◌>>=◌, if◌then◌else◌, is_some,
}
use workflow_manager.Common.Maps.{Map, get, put}
use workflow_manager.Common.Strings.{codes}
use workflow_manager.Models.{WorkflowDefinition, Error}
use workflow_manager.Embedded.Validation.{required, validate_workflow_definition}
use workflow_manager.Embedded.Client.{Embedded}

-- A function of `Resources` may have any type.
pub record Config (Function : Type 0) : Type 0 where
  pub environment : Text
  pub app : Text
  pub sfn_account_id : Text
  pub sfn_region : Text
  pub sfn_role_arn : Text
  pub has_sfn_api : Bool
  pub resources : Option (Map Text Function)
  pub per_resource_concurrency_limits : Map Text ℤ
  pub all_resource_concurrency_limit : Option ℤ
  pub workflow_definitions : Text
  pub worker_name : Text

abbrev pub default_resource_concurrency : ℤ
default_resource_concurrency = pos 1

unfoldable pub validate : {Function : Type 0} → Config Function → Result Error (Unit {0})
validate c = required (not (c.environment =? [])) (codes "must configure Environment") >>= λ _.
    required (not (c.app =? [])) (codes "must configure App") >>= λ _.
    required (not (c.sfn_account_id =? [])) (codes "must configure SFNAccountID") >>= λ _.
    required (not (c.sfn_region =? [])) (codes "must configure SFNRegion") >>= λ _.
    required c.has_sfn_api (codes "must configure SFN client") >>= λ _.
    required (is_some c.resources) (codes "must configure resources")

-- The names in `uniqName`, to which nothing is added, are an argument.
unfoldable pub check_unique :
    Map Text (Unit {0}) → List WorkflowDefinition → Result Error (Unit {0})
check_unique names [] = ok tt
check_unique names (def ∷ defs) =
    if is_some (get Text-discrete def.name names)
    then err (Error.external (codes "duplicate workflow definition found"))
    else check_unique names defs

unfoldable pub parse_workflow_definitions :
    (Text → Result Error (List WorkflowDefinition)) → Text → Result Error (List WorkflowDefinition)
unfolding check_unique
parse_workflow_definitions unmarshal bytes =
    unmarshal bytes >>= λ defs. check_unique [] defs >>= λ _. ok defs

abbrev pub entries : {A : Type 0} → Option (Map Text A) → Map Text A
entries none = []
entries (some m) = m

abbrev pub limit_of : Option ℤ → ℤ
limit_of none = default_resource_concurrency
limit_of (some limit) = limit

-- The loop over the functions: each must have a signature that the library knows.
unfoldable pub make_resources :
    {Function Resource : Type 0}
    → (Text → Function → Result Error Resource)
    → ℤ
    → Map Text Function
    → Map Text Resource × Map Text ℤ
    → Result Error (Map Text Resource × Map Text ℤ)
make_resources new_resource limit [] made = ok made
make_resources new_resource limit ((name, f) ∷ rest) made = new_resource name f >>= λ r.
    make_resources new_resource limit rest
      (put Text-discrete name r made.0, put Text-discrete name limit made.1)

unfoldable pub put_limits : Map Text ℤ → Map Text ℤ → Map Text ℤ
put_limits [] limits = limits
put_limits ((name, limit) ∷ rest) limits = put_limits rest (put Text-discrete name limit limits)

unfoldable pub validate_all : (Text → Bool) → List WorkflowDefinition → Result Error (Unit {0})
validate_all known [] = ok tt
validate_all known (def ∷ defs) =
    validate_workflow_definition known def.name def.state_machine >>= λ _. validate_all known defs

-- The client, its resources, the limits on their concurrency and the worker's name.
pub record Made (Resource : Type 0) : Type 0 where
  pub client : Embedded
  pub resources : Map Text Resource
  pub concurrency_limits : Map Text ℤ
  pub worker_name : Text

unfoldable pub new :
    {Function Resource : Type 0}
    → (Text → Result Error (List WorkflowDefinition))
    → (Text → Function → Result Error Resource)
    → Text
    → Config Function
    → Result Error (Made Resource)
unfolding validate parse_workflow_definitions make_resources put_limits validate_all
new unmarshal new_resource default_name c = validate c >>= λ _.
    parse_workflow_definitions unmarshal c.workflow_definitions >>= λ defs.
    make_resources new_resource (limit_of c.all_resource_concurrency_limit) (entries c.resources)
      ([], [])
    >>= λ made.
        let known : Text → Bool = λ name. is_some (get Text-discrete name made.0) in
        validate_all known defs >>= λ _. ok (record {
          client = record {
            environment = c.environment;
            app = c.app;
            sfn_account_id = c.sfn_account_id;
            sfn_region = c.sfn_region;
            sfn_role_arn = c.sfn_role_arn;
            known_resource = known;
            workflow_definitions = defs;
          };
          resources = made.0;
          concurrency_limits = put_limits c.per_resource_concurrency_limits made.1;
          worker_name = if c.worker_name =? [] then default_name else c.worker_name;
        })
