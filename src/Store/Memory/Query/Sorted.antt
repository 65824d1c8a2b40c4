-- ===== src/Store/Memory/Query/Sorted.antt =====
-- store/memory/memory_store.go: workflows of which no two were created at the same instant have one
-- sorted order, whatever the order in which the map is visited and whatever the sort.
use mathlib.Core.List.{Mem, Memᴰ, Permᴰ, Nodup, Nodup-cons, mem-map_of_mem}
use mathlib.Core.List.Permᴰ
use mathlib.Core.List.Memᴰ
use workflow_manager.Common.{
  Text, Bool, true, false, List, [], ◌∷◌, map, ◌≡◌, ◌∙◌, refl, sym, subst, ap, arith, All,
  Bool-cases, inl, inr,
}
use workflow_manager.Common.Int.{ℤ, pos, negsuc, ltb_ℤ}
use workflow_manager.Common.Maps.{Map}
use workflow_manager.Models.{Workflow, WorkflowQuery}
use workflow_manager.Store.Memory.Query.{matches_query, selected, less, order_of}

-- No workflow of the list belongs in front of one that stands before it.
abbrev pub IsSorted : Bool → List Workflow → Type 0
IsSorted oldest_first [] = Unit
IsSorted oldest_first (wf ∷ wfs) =
    All (λ later. order_of oldest_first later wf ≡ false) wfs × IsSorted oldest_first wfs

abbrev pub instants : List Workflow → List ℤ
instants = map (λ wf. wf.created_at)

antisym_ℤ : (a b : ℤ) → ltb_ℤ a b ≡ false → ltb_ℤ b a ≡ false → a ≡ b
antisym_ℤ (pos m) (pos n) h k = ap pos (ground arith)
antisym_ℤ (pos m) (negsuc n) h k = ground arith
antisym_ℤ (negsuc m) (pos n) h k = ground arith
antisym_ℤ (negsuc m) (negsuc n) h k = ap negsuc (ground arith)

order-antisym :
    (oldest_first : Bool) (a b : Workflow)
    → order_of oldest_first a b ≡ false
    → order_of oldest_first b a ≡ false
    → a.created_at ≡ b.created_at
unfolding less
order-antisym true a b h k = antisym_ℤ a.created_at b.created_at h k
order-antisym false a b h k = antisym_ℤ a.created_at b.created_at k h

order_irrefl : (oldest_first : Bool) (a : Workflow) → order_of oldest_first a a ≡ false
unfolding less
order_irrefl true a = ground arith
order_irrefl false a = ground arith

All-Memᴰ : (P : Workflow → Type 0) (a : Workflow) (xs : List Workflow) → All P xs → Memᴰ a xs → P a
All-Memᴰ P a [] all m = absurd (Memᴰ.not-nil m)
All-Memᴰ P a (x ∷ xs) all m = elim (Memᴰ.cases_cons m) [
  | inl e ↦ subst P (sym e) all.0
  | inr later ↦ All-Memᴰ P a xs all.1 later
]

head-first :
    (oldest_first : Bool) (a x : Workflow) (xs : List Workflow)
    → IsSorted oldest_first (x ∷ xs)
    → Memᴰ a (x ∷ xs)
    → order_of oldest_first a x ≡ false
head-first oldest_first a x xs sorted m =
    All-Memᴰ (λ b. order_of oldest_first b x ≡ false) a (x ∷ xs)
      (order_irrefl oldest_first x, sorted.0) m

instant-Memᴰ : (a : Workflow) (xs : List Workflow) → Memᴰ a xs → Mem a.created_at (instants xs)
instant-Memᴰ a xs m = mem-map_of_mem (λ (wf : Workflow). wf.created_at) ∣ m ∣₁

tail-Memᴰ :
    (x a : Workflow) (xs ys : List Workflow)
    → Nodup (instants (x ∷ xs))
    → (Memᴰ a (x ∷ xs) → Memᴰ a (x ∷ ys))
    → Memᴰ a xs
    → Memᴰ a ys
tail-Memᴰ x a xs ys once there m = elim (Memᴰ.cases_cons (there (Memᴰ.tail m))) [
  | inl e ↦ absurd (
      (Nodup-cons.0 once).0
        (subst (λ (v : Workflow). Mem v.created_at (instants xs)) e (instant-Memᴰ a xs m)))
  | inr later ↦ later
]

-- Two sorted lists of the same workflows, no two of the same instant, are the same list.
pub sorted_unique :
    (oldest_first : Bool) (xs ys : List Workflow)
    → ((a : Workflow) → Memᴰ a xs → Memᴰ a ys)
    → ((a : Workflow) → Memᴰ a ys → Memᴰ a xs)
    → IsSorted oldest_first xs
    → IsSorted oldest_first ys
    → Nodup (instants xs)
    → Nodup (instants ys)
    → xs ≡ ys
sorted_unique oldest_first [] [] to from sx sy nx ny = refl
sorted_unique oldest_first [] (y ∷ ys) to from sx sy nx ny =
    absurd (Memᴰ.not-nil (from y (Memᴰ.head refl)))
sorted_unique oldest_first (x ∷ xs) [] to from sx sy nx ny =
    absurd (Memᴰ.not-nil (to x (Memᴰ.head refl)))
sorted_unique oldest_first (x ∷ xs) (y ∷ ys) to from sx sy nx ny =
    let same : x ≡ y = elim (Memᴰ.cases_cons (from y (Memᴰ.head refl))) [
      | inl e ↦ sym e
      | inr later ↦
          let instant =
            order-antisym oldest_first x y
              (head-first oldest_first x y ys sy (to x (Memᴰ.head refl)))
              (head-first oldest_first y x xs sx (Memᴰ.tail later)) in
          absurd (
            (Nodup-cons.0 nx).0
              (subst (λ t. Mem t (instants xs)) (sym instant) (instant-Memᴰ y xs later)))
    ] in
    let to_same =
      λ (a : Workflow). subst (λ v. Memᴰ a (x ∷ xs) → Memᴰ a (v ∷ ys)) (sym same) (to a) in
    let from_same =
      λ (a : Workflow). subst (λ v. Memᴰ a (y ∷ ys) → Memᴰ a (v ∷ xs)) same (from a) in
    let tails : xs ≡ ys =
      sorted_unique oldest_first xs ys (λ a. tail-Memᴰ x a xs ys nx (to_same a))
        (λ a. tail-Memᴰ y a ys xs ny (from_same a)) sx.1 sy.1 (Nodup-cons.0 nx).1
        (Nodup-cons.0 ny).1 in
    cc (same, tails)

pub Memᴰ-Permᴰ : {xs ys : List Workflow} (a : Workflow) → Permᴰ xs ys → Memᴰ a xs → Memᴰ a ys
Memᴰ-Permᴰ a Permᴰ.nil m = m
Memᴰ-Permᴰ a (Permᴰ.cons e d) m = elim (Memᴰ.cases_cons m) [
  | inl same ↦ Memᴰ.head (same ∙ e)
  | inr later ↦ Memᴰ.tail (Memᴰ-Permᴰ a d later)
]
Memᴰ-Permᴰ a (Permᴰ.swap e f) m = elim (Memᴰ.cases_cons m) [
  | inl same ↦ Memᴰ.tail (Memᴰ.head (same ∙ e))
  | inr later ↦ elim (Memᴰ.cases_cons later) [
    | inl same ↦ Memᴰ.head (same ∙ f)
    | inr rest ↦ Memᴰ.tail (Memᴰ.tail rest)
  ]
]
Memᴰ-Permᴰ a (Permᴰ.trans d e) m = Memᴰ-Permᴰ a e (Memᴰ-Permᴰ a d m)

-- The workflows that match are the same, in whatever order the map is visited.
pub selected-Permᴰ :
    (query : WorkflowQuery) {m m' : Map Text Workflow}
    → Permᴰ m m'
    → Permᴰ (selected query m) (selected query m')
unfolding selected
selected-Permᴰ query Permᴰ.nil = Permᴰ.nil
selected-Permᴰ query (Permᴰ.cons {a = a} {l₁ = m} {l₂ = m'} e d) =
    subst (λ c. Permᴰ (selected query (a ∷ m)) (selected query (c ∷ m'))) e
      (elim (Bool-cases (matches_query a.1 query)) [
        | inl yes_ ↦ rw yes_ (Permᴰ.cons refl (selected-Permᴰ query d))
        | inr no_ ↦ rw no_ (selected-Permᴰ query d)
      ])
selected-Permᴰ query (Permᴰ.swap {a = a} {b = b} {a' = c} {l = m} e f) =
    subst (λ v. Permᴰ (selected query (a ∷ b ∷ m)) (selected query (c ∷ v ∷ m))) e
      (subst (λ v. Permᴰ (selected query (a ∷ b ∷ m)) (selected query (v ∷ a ∷ m))) f
        (elim (Bool-cases (matches_query a.1 query)) [
          | inl yes_ ↦ elim (Bool-cases (matches_query b.1 query)) [
            | inl also ↦ rw (yes_, also) (Permᴰ.swap refl refl)
            | inr not_ ↦ rw (yes_, not_) (Permᴰ.refl _)
          ]
          | inr no_ ↦ rw no_ (Permᴰ.refl _)
        ]))
selected-Permᴰ query (Permᴰ.trans d e) =
    Permᴰ.trans (selected-Permᴰ query d) (selected-Permᴰ query e)
