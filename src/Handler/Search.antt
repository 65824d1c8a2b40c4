-- ===== src/Handler/Search.antt =====
-- handler.go: the query that `GetWorkflows` sends to Elasticsearch, and the token of the next page.
use workflow_manager.Common.{
  ℕ, zero, suc, ◌/◌, Text, ◌=?◌, ℤ, pos, negsuc, Bool, true, false, List, [], ◌∷◌, ◌++◌, Option,
  none, some, if◌then◌else◌, get_last?,
}
use workflow_manager.Common.Strings.{codes, decimal, join}
use workflow_manager.Models.{Time, Workflow}

-- `models.GetWorkflowsInput`; `none` is a nil pointer.
pub record GetWorkflowsInput : Type 0 where
  pub limit : Option ℤ
  pub oldest_first : Option Bool
  pub page_token : Option Text
  pub status : Option Text
  pub resolved_by_user : Option Bool
  pub workflow_definition_name : Text

abbrev pub default_limit : ℤ
default_limit = pos 10

unfoldable pub size_part : Option ℤ → Text
size_part none = codes "\"size\": " ++ decimal default_limit ++ codes ","
size_part (some (pos zero)) = []
size_part (some (pos (suc n))) = codes "\"size\": " ++ decimal (pos (suc n)) ++ codes ","
size_part (some (negsuc n)) = codes "\"size\": " ++ decimal (negsuc n) ++ codes ","

unfoldable pub sort_part : Option Bool → Text
sort_part (some true) = codes "\"sort\": [{\"Workflow.createdAt\": \"asc\"}],"
sort_part _ = codes "\"sort\": [{\"Workflow.createdAt\": \"desc\"}],"

unfoldable pub token_part : Option Text → Text
token_part none = []
token_part (some token) =
    if token =? [] then [] else codes "\"search_after\": [" ++ token ++ codes "],"

abbrev pub resolved_term : Text
resolved_term = codes "{\"term\":{\"Workflow.resolvedByUser\": true}}"

abbrev pub term : Text → Text → Text
term field value = codes "{\"term\":{\"" ++ field ++ codes "\": \"" ++ value ++ codes "\"}}"

abbrev pub term_if : Text → Text → List Text → List Text
term_if field value rest = if value =? [] then rest else term field value ∷ rest

abbrev pub string_value : Option Text → Text
string_value none = []
string_value (some s) = s

unfoldable pub filters : GetWorkflowsInput → List Text
filters i =
    let name_filter =
      term_if (codes "Workflow.workflowDefinition.name.keyword") i.workflow_definition_name [] in
    term_if (codes "Workflow.status") (string_value i.status) (elim i.resolved_by_user [
      | some resolved ↦ if resolved then resolved_term ∷ name_filter else name_filter
      | none ↦ name_filter
    ])

unfoldable pub must_nots : Option Bool → List Text
must_nots (some false) = resolved_term ∷ []
must_nots _ = []

unfoldable pub get_workflows_input_to_es_query : GetWorkflowsInput → Text
unfolding size_part sort_part token_part filters must_nots
get_workflows_input_to_es_query i =
    codes "{"
    ++ size_part i.limit
    ++ sort_part i.oldest_first
    ++ token_part i.page_token
    ++ codes "\"query\" : { \"bool\": {\"filter\": ["
    ++ join (filters i) (codes ",")
    ++ codes "], \"must_not\": ["
    ++ join (must_nots i.resolved_by_user) (codes ",")
    ++ codes "]}}"
    ++ codes "}"

-- The division of Go rounds towards 0.
unfoldable pub epoch_millis : Time → ℤ
epoch_millis (pos n) = pos (n / 1_000_000)
epoch_millis (negsuc n) = minus (suc n / 1_000_000)
  where
    minus : ℕ → ℤ
    minus zero = pos 0
    minus (suc m) = negsuc m

-- The token is the creation time of the last workflow of the page.
unfoldable pub next_page_token : List Workflow → Text
unfolding epoch_millis
next_page_token wfs = elim (get_last? wfs) [
  | none ↦ []
  | some last ↦ decimal (epoch_millis last.created_at)
]
