-- ===== src/Store/Memory/Query.antt =====
-- store/memory/memory_store.go: `GetWorkflows`. `sort.Sort` and `uuid.FromString`, from other
-- libraries, are parameters: the first takes the order and a list, the second gives the canonical
-- text of an identifier, or nothing for a text that is none. So is the order in which a call visits
-- the map, which Go leaves open.
pub mod Sorted
pub mod Pages
pub mod Whole
use workflow_manager.Common.{
  ℕ, zero, suc, ◌+◌, ◌-◌, ◌%◌, Text, ◌=?◌, ℤ, pos, negsuc, Bool, true, false, ◌&&◌, not, List, [],
  ◌∷◌, Option, none, some, Result, ok, err, panic, ◌>>=◌, if◌then◌else◌, length, drop, take, ltb,
  ite,
}
use workflow_manager.Common.Int.{◌+ℤ◌, ltb_ℤ}
use workflow_manager.Common.Maps.{Map}
use workflow_manager.Models.{
  Workflow, WorkflowStatus, WorkflowStatus-discrete, WorkflowQuery, ResolvedByUserWrapper,
  zero_definition, Error,
}
use workflow_manager.Store.Memory.{MemoryStore, index}

abbrev pub two_63 : ℕ
two_63 = 9_223_372_036_854_775_808

abbrev pub two_64 : ℕ
two_64 = 18_446_744_073_709_551_616

-- `aws.StringValue` and `aws.BoolValue`
abbrev pub string_value : Option Text → Text
string_value none = []
string_value (some s) = s

abbrev pub bool_value : Option Bool → Bool
bool_value none = false
bool_value (some b) = b

-- The comparison `a == b` of two statuses.
abbrev pub same_status : WorkflowStatus → WorkflowStatus → Bool
same_status a b = ite (WorkflowStatus-discrete a b) true false

abbrev pub same_flag : Bool → Bool → Bool
same_flag true b = b
same_flag false b = not b

-- The filter by `resolvedByUser`, where it is sent.
abbrev pub resolved_differs : Option ResolvedByUserWrapper → Bool → Bool
resolved_differs none resolved = false
resolved_differs (some wrapper) resolved = wrapper.is_set && not (same_flag resolved wrapper.value)

unfoldable pub matches_query : Workflow → WorkflowQuery → Bool
matches_query wf query =
    if not (wf.workflow_definition.name =? string_value query.workflow_definition_name)
    then false
    else if not (same_status query.status (WorkflowStatus.other []))
        && not (same_status wf.status query.status)
    then false
    else if resolved_differs query.resolved_by_user_wrapper wf.resolved_by_user
    then false
    else true

-- Everything but the summary is dropped, and of its definition all but the name and the version: its
-- machine is nil.
unfoldable pub summary_of : Workflow → Workflow
summary_of wf = record wf {
  workflow_definition = record zero_definition {
    name = wf.workflow_definition.name;
    version = wf.workflow_definition.version;
  };
  jobs = none;
  output = [];
  status_reason = [];
}

-- The workflows that match, in the order in which the map is visited.
unfoldable pub selected : WorkflowQuery → Map Text Workflow → List Workflow
selected query [] = []
selected query ((id, wf) ∷ rest) =
    let more = selected query rest in
    if matches_query wf query
    then (if bool_value query.summary_only then summary_of wf else wf) ∷ more
    else more

-- `ByCreatedAt.Less`
unfoldable pub less : Workflow → Workflow → Bool
less a b = ltb_ℤ a.created_at b.created_at

-- `sort.Reverse` swaps the arguments.
abbrev pub order_of : Bool → Workflow → Workflow → Bool
order_of true a b = less a b
order_of false a b = less b a

-- One past the last index whose ID is the token, or `start`; `i` is the index of the first.
unfoldable pub after_token : Text → ℕ → ℕ → List Workflow → ℕ
after_token token i start [] = start
after_token token i start (wf ∷ wfs) =
    after_token token (suc i) (if wf.id =? token then suc i else start) wfs

-- The slice `workflows[start:end]`, of which `end` is at most the length: a panic out of range.
abbrev pub sub_slice {ℓ} : {E A : Type ℓ} → List A → ℕ → ℤ → Result E (List A)
sub_slice xs start (negsuc n) = panic
sub_slice xs start (pos n) = if ltb n start then panic else ok (take (n - start) (drop start xs))

-- `end`, or the length where it is past it.
unfoldable pub clip : ℕ → ℤ → ℤ
clip len range_end = if ltb_ℤ (pos len) range_end then pos len else range_end

-- The ID in front of `end`, unless nothing is left there.
unfoldable pub next_token : List Workflow → ℤ → Result Error Text
next_token workflows range_end =
    if ltb_ℤ range_end (pos (length workflows))
    then (index workflows (range_end +ℤ negsuc 0) >>= λ last. ok last.id)
    else ok []

-- An `int64` in which a sum has wrapped around.
unfoldable pub wrap_int64 : ℤ → ℤ
wrap_int64 (pos n) =
    if ltb (n % two_64) two_63 then pos (n % two_64) else negsuc (two_64 - 1 - n % two_64)
wrap_int64 (negsuc n) =
    if ltb (n % two_64) two_63 then negsuc (n % two_64) else pos (two_64 - 1 - n % two_64)

-- The workflows from `start` on, at most `limit`, and the token of the next page.
unfoldable pub page_from : List Workflow → ℕ → ℤ → Result Error (List Workflow × Text)
unfolding wrap_int64 clip next_token
page_from workflows start limit =
    let range_end = clip (length workflows) (wrap_int64 (pos start +ℤ limit)) in
    next_token workflows range_end >>= λ next.
    sub_slice workflows start range_end >>= λ page. ok (page, next)

module _ (sort : (Workflow → Workflow → Bool) → List Workflow → List Workflow)
    (visited : Map Text Workflow → Map Text Workflow) (from_string : Text → Option Text) where
  unfoldable pub matching : WorkflowQuery → MemoryStore → List Workflow
  matching query s = sort (order_of query.oldest_first) (selected query (visited s.workflows))

  unfoldable pub range_start : Text → List Workflow → Result Error ℕ
  range_start token workflows = if token =? [] then ok 0 else elim (from_string token) [
    | none ↦ err (Error.invalid_page_token token)
    | some id ↦ ok (after_token id 0 0 workflows)
  ]

  unfoldable pub get_workflows : WorkflowQuery → MemoryStore → Result Error (List Workflow × Text)
  unfolding matching range_start page_from
  get_workflows query s =
      let workflows = matching query s in
      range_start query.page_token workflows >>= λ start. page_from workflows start query.limit
