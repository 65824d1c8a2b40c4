-- ===== src/Examples/Queries.antt =====
-- Pages of a store in memory with two workflows, which the call for the first page visits in the order
-- of their times and the other calls in the opposite order. Each text that is not empty is an
-- identifier.
use mathlib.Core.List.{Mem, Memᴰ, Permᴰ, Nodup, Nodup-cons, Nodup-nil}
use mathlib.Core.List.Memᴰ
use mathlib.Core.List.Permᴰ
use mathlib.Core.Logic.{∥∥₁_elim}
use mathlib.Core.HLevel.{⊥_prop}
use workflow_manager.Common.{
  ℕ, suc, Text, Bool, true, pos, List, [], ◌∷◌, Option, none, some, Result, ok, panic, ◌≡◌, ◌≢◌,
  refl, length, arith, inl, inr, ◌+◌, ◌<◌, ap,
}
use workflow_manager.Common.Maps.{Map, keys}
use workflow_manager.Common.Int.{pos_part}
use workflow_manager.Common.Strings.{codes}
use workflow_manager.Models.{Workflow, WorkflowStatus, WorkflowQuery, Error}
use workflow_manager.Examples.Histories.{a_workflow}
use workflow_manager.Store.Memory.{MemoryStore}
use workflow_manager.Store.Memory.Query.{get_workflows, matching, selected, less, order_of, two_63}
use workflow_manager.Store.Memory.Query.Sorted.{IsSorted, instants}
use workflow_manager.Store.Memory.Query.Pages.{follow}
use workflow_manager.Store.Memory.Query.Whole.{
  IsCalled, IsKeyed, IsPage, get_workflows-follow, get_workflows-IsPage,
}

abbrev keep : (Workflow → Workflow → Bool) → List Workflow → List Workflow
keep less wfs = wfs

abbrev visit : Map Text Workflow → Map Text Workflow
visit m = m

abbrev at_instant : ℕ → Workflow → Workflow
at_instant t wf = record wf { created_at = pos t }

abbrev swapped : {A : Type 0} → List A → List A
swapped [] = []
swapped (a ∷ []) = a ∷ []
swapped (a ∷ b ∷ []) = b ∷ a ∷ []
swapped (a ∷ b ∷ c ∷ xs) = a ∷ b ∷ c ∷ xs

-- The first page's call is made with an empty token.
abbrev visited_for : Text → Map Text Workflow → Map Text Workflow
visited_for [] m = m
visited_for (c ∷ token) m = swapped m

abbrev sort_for : Text → (Workflow → Workflow → Bool) → List Workflow → List Workflow
sort_for [] less wfs = wfs
sort_for (c ∷ token) less wfs = swapped wfs

abbrev as_uuid : Text → Option Text
as_uuid id = some id

abbrev two : MemoryStore
two = record {
  workflow_definitions = [];
  workflows =
      (codes "w", at_instant 1 (a_workflow (codes "w") WorkflowStatus.running))
      ∷ (codes "x", at_instant 2 (a_workflow (codes "x") WorkflowStatus.queued))
      ∷ [];
  state_resources = [];
}

abbrev one_by_one : WorkflowQuery
one_by_one = record {
  limit = pos 1;
  oldest_first = true;
  page_token = [];
  resolved_by_user_wrapper = none;
  status = WorkflowStatus.other [];
  summary_only = none;
  workflow_definition_name = some (codes "def");
}

not-w : ¬ Mem (codes "w") (codes "x" ∷ [])
not-w m = ∥∥₁_elim m ⊥_prop (λ d. let e = Memᴰ.eq_of_singleton d in ground arith)

two-IsKeyed : IsKeyed two
two-IsKeyed = record {
  under_id = (refl, (refl, tt));
  once = Nodup-cons.1 (not-w, Nodup-cons.1 ((λ m. ∥∥₁_elim m ⊥_prop Memᴰ.not-nil), Nodup-nil));
}

first_page :
    get_workflows keep visit as_uuid one_by_one two
    ≡ ok (at_instant 1 (a_workflow (codes "w") WorkflowStatus.running) ∷ [], codes "w")
unfolding get_workflows workflow_manager.Common.Text-discrete
    workflow_manager.Store.Memory.Query.selected workflow_manager.Store.Memory.Query.matches_query
    workflow_manager.Models.WorkflowStatus-discrete workflow_manager.Common.Int.◌+ℤ◌
first_page = refl

second_page :
    get_workflows keep visit as_uuid (record one_by_one { page_token = codes "w" }) two
    ≡ ok (at_instant 2 (a_workflow (codes "x") WorkflowStatus.queued) ∷ [], [])
unfolding get_workflows workflow_manager.Common.Text-discrete
    workflow_manager.Store.Memory.Query.selected workflow_manager.Store.Memory.Query.matches_query
    workflow_manager.Models.WorkflowStatus-discrete workflow_manager.Common.Int.◌+ℤ◌
    workflow_manager.Store.Memory.Query.after_token
second_page = refl

-- A limit of 0 with a workflow that matches is an index of -1.
limit_of_zero : get_workflows keep visit as_uuid (record one_by_one { limit = pos 0 }) two ≡ panic
unfolding get_workflows workflow_manager.Common.Text-discrete
    workflow_manager.Store.Memory.Query.selected workflow_manager.Store.Memory.Query.matches_query
    workflow_manager.Models.WorkflowStatus-discrete workflow_manager.Common.Int.◌+ℤ◌
limit_of_zero = refl

no_empty : Memᴰ [] (keys two.workflows) → ⊥
no_empty d = elim (Memᴰ.cases_cons d) [
  | inl e ↦ ground arith
  | inr later ↦ let e = Memᴰ.eq_of_singleton later in ground arith
]

never_empty : (id : Text) → Mem id (keys two.workflows) → (as_uuid id ≡ some id) × (id ≢ [])
never_empty [] m = (refl, λ e. ∥∥₁_elim m ⊥_prop no_empty)
never_empty (c ∷ id) m = (refl, λ e. cc)

abbrev found : List Workflow
found = selected one_by_one two.workflows

two-IsCalled : IsCalled sort_for visited_for as_uuid one_by_one two
unfolding workflow_manager.Store.Memory.Query.selected
    workflow_manager.Store.Memory.Query.matches_query workflow_manager.Common.Text-discrete
    workflow_manager.Models.WorkflowStatus-discrete less
two-IsCalled = record { visits = visits; rearranges = rearranges; sorts = sorts }
  where
    visits : (token : Text) → Permᴰ (visited_for token two.workflows) two.workflows
    visits [] = Permᴰ.refl two.workflows
    visits (c ∷ token) = Permᴰ.swap refl refl

    rearranges :
        (token : Text)
        → Permᴰ
            (sort_for token (order_of true) (selected one_by_one (visited_for token two.workflows)))
            (selected one_by_one (visited_for token two.workflows))
    rearranges [] = Permᴰ.refl found
    rearranges (c ∷ token) = Permᴰ.swap refl refl

    sorts :
        (token : Text)
        → IsSorted true
            (sort_for token (order_of true) (selected one_by_one (visited_for token two.workflows)))
    sorts [] = ((refl, tt), (tt, tt))
    sorts (c ∷ token) = ((refl, tt), (tt, tt))

one-not-two : ¬ Mem (pos 1) (pos 2 ∷ [])
one-not-two m =
    ∥∥₁_elim m ⊥_prop (λ d. let e = ap pos_part (Memᴰ.eq_of_singleton d) in omega (arith, e))

found-instants : Nodup (instants found)
unfolding workflow_manager.Store.Memory.Query.selected
    workflow_manager.Store.Memory.Query.matches_query workflow_manager.Common.Text-discrete
    workflow_manager.Models.WorkflowStatus-discrete
found-instants =
    Nodup-cons.1 (one-not-two, Nodup-cons.1 ((λ m. ∥∥₁_elim m ⊥_prop Memᴰ.not-nil), Nodup-nil))

abbrev listed_first : List Workflow
listed_first = matching (sort_for []) (visited_for []) as_uuid one_by_one two

fits : length listed_first + 1 < two_63
unfolding matching workflow_manager.Store.Memory.Query.selected
    workflow_manager.Store.Memory.Query.matches_query workflow_manager.Common.Text-discrete
    workflow_manager.Models.WorkflowStatus-discrete
fits = omega arith

get_workflows-follow_example :
    follow
      (suc (length listed_first))
      (λ token.
        get_workflows
          (sort_for token)
          (visited_for token)
          as_uuid
          (record one_by_one { page_token = token })
          two)
      []
    ≡ ok listed_first
get_workflows-follow_example =
    get_workflows-follow sort_for visited_for as_uuid one_by_one two 0 refl fits two-IsCalled
      found-instants two-IsKeyed never_empty

fits_once : length (matching keep visit as_uuid one_by_one two) + 1 < two_63
unfolding matching workflow_manager.Store.Memory.Query.selected
    workflow_manager.Store.Memory.Query.matches_query workflow_manager.Common.Text-discrete
    workflow_manager.Models.WorkflowStatus-discrete
fits_once = omega arith

get_workflows-IsPage_example : IsPage 1 [] (get_workflows keep visit as_uuid one_by_one two)
get_workflows-IsPage_example =
    get_workflows-IsPage keep visit as_uuid one_by_one two 0 refl fits_once
