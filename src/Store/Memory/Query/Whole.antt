-- ===== src/Store/Memory/Query/Whole.antt =====
-- store/memory/memory_store.go: the pages of `GetWorkflows` put together, and what one call gives.
use mathlib.Core.List.{Mem, Memᴰ, Nodup, Permᴰ, Sublistᴰ, mem-map_of_mem}
use mathlib.Core.List.Perm
use mathlib.Core.List.Permᴰ
use mathlib.Core.List.Nodup
use mathlib.Core.List.Sublist
use workflow_manager.Common.{
  ℕ, zero, suc, ◌+◌, ◌≤◌, ◌<◌, Text, ◌=?◌, pos, Bool, List, [], ◌∷◌, Option, some, Result, ok, err,
  panic, out_of_fuel, ◌>>=◌, if◌then◌else◌, length, drop, get_elem?, ◌≡◌, ◌≢◌, refl, sym, ◌∙◌, ap,
  arith, All, Text-discrete, inl, inr, Bool-cases, Option-cases, dec_lt, length-take, length-drop,
  get_elem?-some,
}
use workflow_manager.Common.Maps.{Map, keys}
use workflow_manager.Models.{Workflow, WorkflowQuery, Error}
use workflow_manager.Store.Memory.{MemoryStore}
use workflow_manager.Store.Memory.Query.{
  matches_query, summary_of, bool_value, selected, matching, order_of, range_start, page_from,
  get_workflows, after_token, two_63,
}
use workflow_manager.Store.Memory.Query.Sorted.{
  IsSorted, instants, sorted_unique, Memᴰ-Permᴰ, selected-Permᴰ,
}
use workflow_manager.Store.Memory.Query.Pages.{
  after_token-le, page_from-full, page_from-last, ids, follow, follow-drop, at-after_token,
  not_empty,
}

-- Each workflow is under its ID, and each ID is there once.
pub record IsKeyed (s : MemoryStore) : Type 0 where
  pub under_id : All (λ e. e.0 ≡ e.1.id) s.workflows
  pub once : Nodup (keys s.workflows)

get_elem?-Memᴰ :
    (xs : List Workflow) (k : ℕ) (wf : Workflow) → get_elem? xs k ≡ some wf → Memᴰ wf xs
get_elem?-Memᴰ [] k wf h = cc
get_elem?-Memᴰ (x ∷ xs) zero wf h = Memᴰ.head cc
get_elem?-Memᴰ (x ∷ xs) (suc k) wf h = Memᴰ.tail (get_elem?-Memᴰ xs k wf h)

chosen-id : (b : Bool) (wf : Workflow) → (if b then summary_of wf else wf).id ≡ wf.id
unfolding summary_of
chosen-id b wf = ground arith

ids-selected :
    (query : WorkflowQuery) (m : Map Text Workflow)
    → All (λ e. e.0 ≡ e.1.id) m
    → Sublistᴰ (ids (selected query m)) (keys m)
unfolding selected
ids-selected query [] under = Sublistᴰ.slnil
ids-selected query ((k, wf) ∷ m) under = elim (Bool-cases (matches_query wf query)) [
  | inl yes_ ↦ rw yes_ (
      Sublistᴰ.cons-cons (chosen-id (bool_value query.summary_only) wf ∙ sym under.0)
        (ids-selected query m under.1))
  | inr no_ ↦ rw no_ (Sublistᴰ.cons (ids-selected query m under.1))
]

-- The token of a query plays no part in what matches.
selected-token :
    (query : WorkflowQuery) (token : Text) (m : Map Text Workflow)
    → selected (record query { page_token = token }) m ≡ selected query m
unfolding selected matches_query
selected-token query token [] = refl
selected-token query token ((k, wf) ∷ m) = rw (selected-token query token m) refl

-- A page of at most `n` workflows, or the error of a token that is no identifier.
abbrev pub IsPage : ℕ → Text → Result Error (List Workflow × Text) → Type 0
IsPage n token (ok (page, next)) = length page ≤ n
IsPage n token (err e) = e ≡ Error.invalid_page_token token
IsPage n token panic = ⊥
IsPage n token out_of_fuel = ⊥

page_from-IsPage :
    (n start : ℕ) (token : Text) (wfs : List Workflow)
    → length wfs + suc n < two_63
    → start ≤ length wfs
    → IsPage (suc n) token (page_from wfs start (pos (suc n)))
page_from-IsPage n start token wfs fits inside = elim (dec_lt (start + suc n) (length wfs)) [
  | yes short ↦
      let (last, there) = get_elem?-some wfs (start + n) (omega arith) in
      rw (page_from-full wfs start n last (omega (arith, fits)) short there)
        (omega (arith, length-take (suc n) (drop start wfs) (omega (arith, length-drop start wfs))))
  | no long ↦
      rw (page_from-last wfs start (suc n) (omega (arith, fits)) inside (omega arith))
        (omega (arith, length-drop start wfs))
]

module _ (sort : Text → (Workflow → Workflow → Bool) → List Workflow → List Workflow)
    (visited : Text → Map Text Workflow → Map Text Workflow) (from_string : Text → Option Text)
    (query : WorkflowQuery) (s : MemoryStore) where
  -- The call for each token visits the map in an order of its own and has a sort of its own, which may
  -- put workflows that were created at the same instant in any order.
  pub record IsCalled : Type 0 where
    pub visits : (token : Text) → Permᴰ (visited token s.workflows) s.workflows
    pub rearranges :
        (token : Text)
        → let found = selected query (visited token s.workflows) in
          Permᴰ (sort token (order_of query.oldest_first) found) found
    pub sorts :
        (token : Text)
        → let found = selected query (visited token s.workflows) in
          IsSorted query.oldest_first (sort token (order_of query.oldest_first) found)

  abbrev listed : Text → List Workflow
  listed token = matching (sort token) (visited token) from_string query s

  abbrev all : List Workflow
  all = listed []

  abbrev ask : Text → Result Error (List Workflow × Text)
  ask token =
      get_workflows (sort token) (visited token) from_string (record query { page_token = token }) s

  listed-Permᴰ : IsCalled → (token : Text) → Permᴰ (listed token) (selected query s.workflows)
  unfolding matching
  listed-Permᴰ called token =
      Permᴰ.trans (called.rearranges token) (selected-Permᴰ query (called.visits token))

  listed-instants :
      IsCalled
      → Nodup (instants (selected query s.workflows))
      → (token : Text) → Nodup (instants (listed token))
  listed-instants called once token =
      Perm.nodup
        (Perm.symm (Perm.map (λ (wf : Workflow). wf.created_at) ∣ listed-Permᴰ called token ∣₁))
        once

  -- Every call has the same list, if no two workflows that match were created at the same instant.
  listed-same :
      IsCalled → Nodup (instants (selected query s.workflows)) → (token : Text) → listed token ≡ all
  unfolding matching
  listed-same called once token =
      let there = listed-Permᴰ called token in
      let here = listed-Permᴰ called [] in
      sorted_unique query.oldest_first (listed token) all
        (λ a m. Memᴰ-Permᴰ a (Permᴰ.symm here) (Memᴰ-Permᴰ a there m))
        (λ a m. Memᴰ-Permᴰ a (Permᴰ.symm there) (Memᴰ-Permᴰ a here m)) (called.sorts token)
        (called.sorts []) (listed-instants called once token) (listed-instants called once [])

  ids-all : IsCalled → IsKeyed s → Nodup (ids all)
  ids-all called keyed =
      Perm.nodup (Perm.symm (Perm.map (λ wf. wf.id) ∣ listed-Permᴰ called [] ∣₁))
        (Nodup.sublist ∣ ids-selected query s.workflows keyed.under_id ∣₁ keyed.once)

  id-stored :
      IsCalled
      → IsKeyed s
      → (k : ℕ) (wf : Workflow) → get_elem? all k ≡ some wf
      → Mem wf.id (keys s.workflows)
  id-stored called keyed k wf at =
      let chosen : Mem wf.id (ids (selected query s.workflows)) =
        (Perm.mem_iff (Perm.map (λ (w : Workflow). w.id) ∣ listed-Permᴰ called [] ∣₁)).0
          (mem-map_of_mem (λ (w : Workflow). w.id) ∣ get_elem?-Memᴰ all k wf at ∣₁) in
      Sublist.subset ∣ ids-selected query s.workflows keyed.under_id ∣₁ wf.id chosen

  ask-eq :
      IsCalled
      → Nodup (instants (selected query s.workflows))
      → (token : Text)
      → ask token ≡ (
          range_start (sort token) (visited token) from_string token all >>= λ start.
          page_from all start query.limit)
  unfolding get_workflows matching
  ask-eq called once token =
      ap
        (λ xs.
          range_start (sort token) (visited token) from_string token
            (sort token (order_of query.oldest_first) xs)
          >>= λ start. page_from (sort token (order_of query.oldest_first) xs) start query.limit)
        (selected-token query token (visited token s.workflows))
      ∙ ap
          (λ wfs. range_start (sort token) (visited token) from_string token wfs >>= λ start.
            page_from wfs start query.limit)
          (listed-same called once token)

  -- The pages of a positive size, put together from the first on, are the workflows that match, in
  -- order, although each call visits the map and sorts in its own way: if no two workflows that match
  -- were created at the same instant, every workflow is under its ID, once, each ID is the canonical text
  -- of an identifier, and the number of workflows that match and the limit add up to an `int64`.
  pub get_workflows-follow :
      (n : ℕ)
      → query.limit ≡ pos (suc n)
      → length all + suc n < two_63
      → IsCalled
      → Nodup (instants (selected query s.workflows))
      → IsKeyed s
      → ((id : Text) → Mem id (keys s.workflows) → (from_string id ≡ some id) × (id ≢ []))
      → follow (suc (length all)) ask [] ≡ ok all
  unfolding range_start Text-discrete
  get_workflows-follow n size fits called once keyed canonical =
      follow-drop all n ask
        (λ k wf at.
          let behind : 0 + suc k ≡ suc k = omega arith in
          let (canon, some_id) = canonical wf.id (id-stored called keyed k wf at) in
          (
            ask-eq called once wf.id
                ∙ rw
                    (
                      not_empty wf.id some_id,
                      canon,
                      at-after_token 0 0 k all wf (ids-all called keyed) at,
                      behind,
                      size,
                    )
                    refl,
            some_id,
          ))
        (suc (length all)) 0 [] fits (ask-eq called once [] ∙ rw size refl) (omega arith)
        (omega arith)

module _ (sort : (Workflow → Workflow → Bool) → List Workflow → List Workflow)
    (visited : Map Text Workflow → Map Text Workflow) (from_string : Text → Option Text)
    (query : WorkflowQuery) (s : MemoryStore) where
  abbrev matched : List Workflow
  matched = matching sort visited from_string query s

  -- With a positive limit that, with the number of workflows that match, is an `int64`, a call gives at
  -- most that many workflows, or the error of a page token that is no identifier; it does not panic.
  -- The workflows in the store have a definition each.
  pub get_workflows-IsPage :
      (n : ℕ)
      → query.limit ≡ pos (suc n)
      → length matched + suc n < two_63
      → IsPage (suc n) query.page_token (get_workflows sort visited from_string query s)
  unfolding get_workflows range_start selected matches_query
  get_workflows-IsPage n size fits = rw size (elim (Bool-cases (query.page_token =? [])) [
    | inl first ↦ rw first (page_from-IsPage n 0 query.page_token matched fits (omega arith))
    | inr later ↦ elim (Option-cases (from_string query.page_token)) [
      | inl unknown ↦ rw (later, unknown) refl
      | inr (id, known) ↦
          rw (later, known)
            (page_from-IsPage n (after_token id 0 0 matched) query.page_token matched fits
              (omega (arith, after_token-le id 0 0 matched (omega arith))))
    ]
  ])
