-- ===== src/Common/Maps.antt =====
-- A Go map as an association list. A lookup takes the first entry of a key, a write replaces that
-- entry or adds one at the end, and `delete` drops every entry of its key. `range` visits the map
-- in the order of the list, the same each time; Go leaves the order open, and may change it from
-- one `range` to the next.
use Prim.Native.Nat.{◌≤◌, ◌<◌}
use mathlib.Core.Path.{◌≡◌, refl, subst, sym, ap, ◌∙◌}
use mathlib.Core.Logic.{◌≢◌, inl, inr, ite, if_pos, if_neg}
use mathlib.Core.List.{List, [], ◌∷◌, map, Memᴰ}
use mathlib.Core.List.Memᴰ
use mathlib.Core.Option.{Option, none, some}
use native.Mathlib.Omega.{arith}
use mathlib.Core.Bool.{true}
use workflow_manager.Common.Lists.{length, All}
use workflow_manager.Common.Tests.{is_some}

abbrev pub Map {ℓ} : Type ℓ → Type ℓ → Type ℓ
Map K V = List (K × V)

module _ {ℓ} {K V : Type ℓ} where
  abbrev pub keys : Map K V → List K
  keys = map (λ e. e.0)

module _ {ℓ} {K V : Type ℓ} (dec : Discrete K) where
  unfoldable pub get : K → Map K V → Option V
  get k [] = none
  get k ((j, v) ∷ m) = ite (dec j k) (some v) (get k m)

  unfoldable pub put : K → V → Map K V → Map K V
  put k v [] = (k, v) ∷ []
  put k v ((j, w) ∷ m) = ite (dec j k) ((k, v) ∷ m) ((j, w) ∷ put k v m)

  unfoldable pub delete : K → Map K V → Map K V
  delete k [] = []
  delete k ((j, w) ∷ m) = let rest = delete k m in ite (dec j k) rest ((j, w) ∷ rest)

  pub get-put :
      (k q : K) (v : V) (m : Map K V) → get q (put k v m) ≡ ite (dec k q) (some v) (get q m)
  unfolding get put
  get-put k q v [] = refl
  get-put k q v ((j, w) ∷ m) = ground (arith, get-put k q v m)

  pub get-delete : (k q : K) (m : Map K V) → get q (delete k m) ≡ ite (dec k q) none (get q m)
  unfolding get delete
  get-delete k q [] = ground arith
  get-delete k q ((j, w) ∷ m) = ground (arith, get-delete k q m)

  pub length-delete-le : (k : K) (m : Map K V) → length (delete k m) ≤ length m
  unfolding delete
  length-delete-le k [] = omega arith
  length-delete-le k ((j, w) ∷ m) = ground (arith, length-delete-le k m)

  -- A key that is there makes the map shorter when it goes.
  pub length-delete-lt : (k : K) (m : Map K V) → get k m ≢ none → length (delete k m) < length m
  unfolding get delete
  length-delete-lt k [] h = absurd (h refl)
  length-delete-lt k ((j, w) ∷ m) h = ground (arith, length-delete-le k m, length-delete-lt k m)

  pub All-delete {κ} : (P : K × V → Type κ) (k : K) (m : Map K V) → All P m → All P (delete k m)
  unfolding delete
  All-delete P k [] h = tt
  All-delete P k ((j, w) ∷ m) h = elim (dec j k) [
    | yes p ↦ rw (if_pos _ p) (All-delete P k m h.1)
    | no p ↦ rw (if_neg _ p) (h.0, All-delete P k m h.1)
  ]

  keys_in :
      (states m : Map K V)
      → ((k : K) → is_some (get k m) ≡ true → is_some (get k states) ≡ true)
      → All (λ k. is_some (get k states) ≡ true) (keys m)
  unfolding get
  keys_in states [] h = tt
  keys_in states ((j, w) ∷ m) h =
      (h j (ground arith), keys_in states m (λ k there. h k (ground arith)))

  -- Each key of a map is found in it.
  pub All-keys : (m : Map K V) → All (λ k. is_some (get k m) ≡ true) (keys m)
  All-keys m = keys_in m m (λ k there. there)

  -- An entry of another key stays.
  pub Memᴰ-delete :
      (gone k : K) (v : V) (m : Map K V) → gone ≢ k → Memᴰ (k, v) m → Memᴰ (k, v) (delete gone m)
  unfolding delete
  Memᴰ-delete gone k v [] ne i = i
  Memᴰ-delete gone k v ((j, w) ∷ m) ne i = elim (Memᴰ.cases_cons i) [
    | inl e ↦ rw (if_neg (dec j gone) (λ p. ne (sym p ∙ sym (ap (λ x. x.0) e)))) (Memᴰ.head e)
    | inr later ↦ elim (dec j gone) [
      | yes p ↦ rw (if_pos _ p) (Memᴰ-delete gone k v m ne later)
      | no p ↦ rw (if_neg _ p) (Memᴰ.tail (Memᴰ-delete gone k v m ne later))
    ]
  ]

  pub Memᴰ_of_delete : (gone : K) (e : K × V) (m : Map K V) → Memᴰ e (delete gone m) → Memᴰ e m
  unfolding delete
  Memᴰ_of_delete gone e [] i = i
  Memᴰ_of_delete gone e ((j, w) ∷ m) i = elim (dec j gone) [
    | yes p ↦ Memᴰ.tail (Memᴰ_of_delete gone e m (rw (if_pos _ p) at i))
    | no p ↦ elim (Memᴰ.cases_cons (rw (if_neg _ p) at i)) [
      | inl here ↦ Memᴰ.head here
      | inr later ↦ Memᴰ.tail (Memᴰ_of_delete gone e m later)
    ]
  ]

  pub get-of-Memᴰ : (k : K) (v : V) (m : Map K V) → Memᴰ (k, v) m → is_some (get k m) ≡ true
  unfolding get
  get-of-Memᴰ k v [] i = absurd (Memᴰ.not-nil i)
  get-of-Memᴰ k v ((j, w) ∷ m) i = elim (Memᴰ.cases_cons i) [
    | inl e ↦ rw (if_pos (dec j k) (sym (ap (λ x. x.0) e)))
    | inr later ↦ ground (arith, get-of-Memᴰ k v m later)
  ]

  pub All-put {κ} :
      (P : K × V → Type κ) (k : K) (v : V) (m : Map K V) → P (k, v) → All P m → All P (put k v m)
  unfolding put
  All-put P k v [] p h = (p, tt)
  All-put P k v ((j, w) ∷ m) p h = elim (dec j k) [
    | yes e ↦ rw (if_pos _ e) (p, h.1)
    | no ne ↦ rw (if_neg _ ne) (h.0, All-put P k v m p h.1)
  ]

  -- What a lookup finds satisfies a predicate of the values.
  pub All-get {κ} :
      (P : V → Type κ) (k : K) (v : V) (m : Map K V) → All (λ e. P e.1) m → get k m ≡ some v → P v
  unfolding get
  All-get P k v [] h found = cc
  All-get P k v ((j, w) ∷ m) h found = elim (dec j k) [
    | yes e ↦ subst P (ground arith) h.0
    | no ne ↦ All-get P k v m h.1 (ground arith)
  ]

  -- What a lookup finds is an entry of the map.
  pub All-get-entry {κ} :
      (P : K × V → Type κ) (k : K) (v : V) (m : Map K V) → All P m → get k m ≡ some v → P (k, v)
  unfolding get
  All-get-entry P k v [] h found = cc
  All-get-entry P k v ((j, w) ∷ m) h found = elim (dec j k) [
    | yes e ↦ subst P (ground arith) h.0
    | no ne ↦ All-get-entry P k v m h.1 (ground arith)
  ]
