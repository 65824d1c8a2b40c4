-- ===== src/Store/Memory/Query/Pages.antt =====
-- store/memory/memory_store.go: the pages that `GetWorkflows` gives.
use mathlib.Core.List.{Mem, Nodup, Nodup-cons, mem-cons_self, mem-cons_of_mem}
use workflow_manager.Common.{
  ℕ, zero, suc, ◌+◌, ◌-◌, ◌≤◌, ◌<◌, Text, Text-discrete, ◌=?◌, pos, negsuc, true, false, List, [],
  ◌∷◌, ◌++◌, map, some, Result, ok, out_of_fuel, ◌>>=◌, if◌then◌else◌, length, drop, take,
  get_elem?, ◌≡◌, ◌≢◌, refl, sym, subst, ◌∙◌, arith, dec_lt, length-drop, take-append-drop,
  drop-add, take-all, get_elem?-some,
}
use workflow_manager.Common.Int.{◌+ℤ◌, ltb_ℤ}
use workflow_manager.Models.{Workflow, Error}
use workflow_manager.Store.Memory.{index}
use workflow_manager.Store.Memory.Query.{
  after_token, clip, next_token, sub_slice, page_from, wrap_int64, two_63,
}

abbrev pub ids : List Workflow → List Text
ids = map (λ wf. wf.id)

absent-after_token :
    (token : Text) (i start : ℕ) (wfs : List Workflow)
    → ¬ Mem token (ids wfs)
    → after_token token i start wfs ≡ start
unfolding after_token
absent-after_token token i start [] h = refl
absent-after_token token i start (wf ∷ wfs) h = elim (Text-discrete wf.id token) [
  | yes e ↦ absurd (h (subst (λ t. Mem t (ids (wf ∷ wfs))) e (mem-cons_self)))
  | no ne ↦ absent-after_token token (suc i) _ wfs (λ m. h (mem-cons_of_mem _ m)) ∙ ground arith
]

-- The ID at an index of a list without repetition starts the next page behind it.
pub at-after_token :
    (i start k : ℕ) (wfs : List Workflow) (wf : Workflow)
    → Nodup (ids wfs)
    → get_elem? wfs k ≡ some wf
    → after_token wf.id i start wfs ≡ i + suc k
unfolding after_token
at-after_token i start k [] wf d h = cc
at-after_token i start zero (x ∷ wfs) wf d h =
    let (fresh, rest) = Nodup-cons.0 d in
    let same : x ≡ wf = cc in
    subst (λ w. after_token w.id i start (x ∷ wfs) ≡ i + 1) same
      (absent-after_token x.id (suc i) _ wfs fresh ∙ ground arith)
at-after_token i start (suc k) (x ∷ wfs) wf d h =
    let (fresh, rest) = Nodup-cons.0 d in at-after_token (suc i) _ k wfs wf rest h ∙ omega arith

pub after_token-le :
    (token : Text) (i start : ℕ) (wfs : List Workflow)
    → start ≤ i + length wfs
    → after_token token i start wfs ≤ i + length wfs
unfolding after_token
after_token-le token i start [] h = h
after_token-le token i start (wf ∷ wfs) h =
    ground (arith, after_token-le token (suc i) (if wf.id =? token then suc i else start) wfs)

sum-pos : (a b : ℕ) → pos a +ℤ pos b ≡ pos (a + b)
unfolding ◌+ℤ◌
sum-pos a b = ground arith

wrap_int64-same : (n : ℕ) → n < two_63 → wrap_int64 (pos n) ≡ pos n
unfolding wrap_int64
wrap_int64-same n h = ground arith

clip-inside : (len e : ℕ) → e ≤ len → clip len (pos e) ≡ pos e
unfolding clip
clip-inside len e h = ground arith

clip-outside : (len e : ℕ) → len ≤ e → clip len (pos e) ≡ pos len
unfolding clip
clip-outside len e h = ground arith

before : (e : ℕ) → pos (suc e) +ℤ negsuc 0 ≡ pos e
unfolding ◌+ℤ◌
before e = ground arith

next_token-more :
    (wfs : List Workflow) (e : ℕ) (last : Workflow)
    → suc e < length wfs
    → get_elem? wfs e ≡ some last
    → next_token wfs (pos (suc e)) ≡ ok last.id
unfolding next_token
next_token-more wfs e last h at =
    let more : ltb_ℤ (pos (suc e)) (pos (length wfs)) ≡ true = ground arith in
    rw (more, before e, index, at) refl

next_token-end : (wfs : List Workflow) → next_token wfs (pos (length wfs)) ≡ ok []
unfolding next_token
next_token-end wfs = ground arith

sub_slice-inside :
    {E A : Type 0} (xs : List A) (start e : ℕ)
    → start ≤ e
    → sub_slice {E = E} xs start (pos e) ≡ ok (take (e - start) (drop start xs))
sub_slice-inside xs start e h = ground arith

-- A page that does not reach the end has the length of the limit, and its last ID is the token.
pub page_from-full :
    (wfs : List Workflow) (start n : ℕ) (last : Workflow)
    → length wfs < two_63
    → start + suc n < length wfs
    → get_elem? wfs (start + n) ≡ some last
    → page_from wfs start (pos (suc n)) ≡ ok (take (suc n) (drop start wfs), last.id)
unfolding page_from
page_from-full wfs start n last fits short at =
    let same : start + suc n ≡ suc (start + n) = omega arith in
    let inside : suc (start + n) ≤ length wfs = omega arith in
    let size : suc (start + n) - start ≡ suc n = omega arith in
    let slice = sub_slice-inside {E = Error} wfs start (suc (start + n)) (omega arith) in
    rw
      (
        sum-pos,
        same,
        wrap_int64-same (suc (start + n)) (omega (arith, fits, inside)),
        clip-inside (length wfs) (suc (start + n)) inside,
        next_token-more wfs (start + n) last (omega arith) at,
        slice,
        size,
      )
      refl

-- A page that reaches the end has no token.
pub page_from-last :
    (wfs : List Workflow) (start n : ℕ)
    → start + n < two_63
    → start ≤ length wfs
    → length wfs ≤ start + n
    → page_from wfs start (pos n) ≡ ok (drop start wfs, [])
unfolding page_from
page_from-last wfs start n fits inside short =
    let slice = sub_slice-inside {E = Error} wfs start (length wfs) inside in
    let all =
      take-all (length wfs - start) (drop start wfs) (omega (arith, length-drop start wfs)) in
    rw
      (
        sum-pos,
        wrap_int64-same (start + n) fits,
        clip-outside (length wfs) (start + n) short,
        next_token-end wfs,
        slice,
        all,
      )
      refl

-- A client that asks for pages from a token on until no token comes back.
pub follow : ℕ → (Text → Result Error (List Workflow × Text)) → Text → Result Error (List Workflow)
follow zero get token = out_of_fuel
follow (suc fuel) get token = get token >>= λ p.
    if p.1 =? [] then ok p.0 else (follow fuel get p.1 >>= λ rest. ok (p.0 ++ rest))

pub not_empty : (a : Text) → a ≢ [] → (a =? []) ≡ false
not_empty a ne = ground (arith, ne)

-- Where the ID of each workflow leads to the page behind it, the pages are the list.
pub follow-drop :
    (wfs : List Workflow) (n : ℕ) (get : Text → Result Error (List Workflow × Text))
    (leads : (k : ℕ) (wf : Workflow)
      → get_elem? wfs k ≡ some wf
      → (get wf.id ≡ page_from wfs (suc k) (pos (suc n))) × (wf.id ≢ []))
    (fuel start : ℕ) (token : Text)
    → length wfs + suc n < two_63
    → get token ≡ page_from wfs start (pos (suc n))
    → start ≤ length wfs
    → length wfs - start < fuel
    → follow fuel get token ≡ ok (drop start wfs)
unfolding follow Text-discrete
follow-drop wfs n get leads zero start token fits at inside enough = absurd (omega arith)
follow-drop wfs n get leads (suc fuel) start token fits at inside enough =
    elim (dec_lt (start + suc n) (length wfs)) [
      | yes short ↦
          let (last, there) = get_elem?-some wfs (start + n) (omega arith) in
          let (next, some_id) = leads (start + n) last there in
          let rest =
            follow-drop wfs n get leads fuel (suc (start + n)) last.id fits next (omega arith)
              (omega arith) in
          let same : suc (start + n) ≡ start + suc n = omega arith in
          rw
            (
              at,
              page_from-full wfs start n last (omega (arith, fits)) short there,
              not_empty last.id some_id,
              rest,
              same,
              sym (drop-add start (suc n) wfs),
              take-append-drop (suc n) (drop start wfs),
            )
            refl
      | no long ↦
          rw (at, page_from-last wfs start (suc n) (omega (arith, fits)) inside (omega arith)) refl
    ]
