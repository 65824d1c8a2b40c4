-- ===== src/Embedded/Ids.antt =====
-- embedded/embedded.go: the ID of a workflow, which holds the name of its state machine. The first
-- eight characters of a fresh identifier, that `shortUUID` makes, are an argument.
use mathlib.Core.List.{append_assoc}
use workflow_manager.Common.{
  ℕ, ◌+◌, ◌≤◌, Text, ◌=?◌, true, false, List, [], ◌∷◌, ◌++◌, Result, ok, err, ◌≡◌, ◌≢◌, refl, ap,
  ◌∙◌, arith, if◌then◌else◌, length, length-append, take, length-take, ltb, ◌==◌, Bool-cases, inl,
  inr, ◌&&◌,
}
use workflow_manager.Common.Strings.{codes, split, split_from, has_prefix, push, join}
use workflow_manager.Models.{Error}

-- `id[:limit]` of an ID that is longer.
unfoldable pub trim : ℕ → Text → Text
trim limit id = if ltb limit (length id) then take limit id else id

abbrev pub chosen_suffix : Text → Text → Text
chosen_suffix short_uuid suffix = if suffix =? [] then short_uuid else suffix

unfoldable pub workflow_id : Text → Text → Text → Text
unfolding trim
workflow_id short_uuid sm_name suffix =
    trim 80 (sm_name ++ codes "--" ++ chosen_suffix short_uuid suffix)

pub record WorkflowIdParts : Type 0 where
  pub sm_name : Text
  pub suffix : Text

-- The parts in front of the last, and the last; the list is not empty.
abbrev pub init_last : Text → List Text → List Text × Text
init_last last [] = ([], last)
init_last last (next ∷ rest) = let r = init_last next rest in (last ∷ r.0, r.1)

abbrev pub id_parts : Text → List Text → Result Error WorkflowIdParts
id_parts wid (first ∷ second ∷ rest) =
    let r = init_last first (second ∷ rest) in
    ok (record { sm_name = join r.0 (codes "--"); suffix = r.1 })
id_parts wid _ = err (Error.invalid_state wid)

unfoldable pub parse_workflow_id : Text → Result Error WorkflowIdParts
unfolding split
parse_workflow_id wid = id_parts wid (split wid (codes "--"))

length-trim : (limit : ℕ) (id : Text) → length (trim limit id) ≤ limit
unfolding trim
length-trim limit id = ground (arith, length-take limit id)

-- Every ID has at most the 80 characters that Step Functions allows the name of an execution.
pub length-workflow_id :
    (short_uuid sm_name suffix : Text) → length (workflow_id short_uuid sm_name suffix) ≤ 80
unfolding workflow_id
length-workflow_id short_uuid sm_name suffix =
    length-trim 80 (sm_name ++ codes "--" ++ chosen_suffix short_uuid suffix)

-- What is between the double dashes, from the left.
abbrev dash_parts : Text → List Text
dash_parts [] = [] ∷ []
dash_parts (c ∷ []) = (c ∷ []) ∷ []
dash_parts (c ∷ d ∷ s) =
    let after = dash_parts s in
    let next = dash_parts (d ∷ s) in if c == 45 && d == 45 then [] ∷ after else push c next

split-dash : (s : Text) → split s (codes "--") ≡ dash_parts s
unfolding split split_from has_prefix
split-dash [] = refl
split-dash (c ∷ []) = ground arith
split-dash (c ∷ d ∷ s) = ground (arith, split-dash s, split-dash (d ∷ s))

-- No two dashes in a row.
abbrev pub HasNoDashes : Text → Type 0
HasNoDashes [] = Unit
HasNoDashes (c ∷ []) = Unit
HasNoDashes (c ∷ d ∷ s) = ((c == 45 && d == 45) ≡ false) × HasNoDashes (d ∷ s)

-- The last character is no dash.
abbrev pub EndsClean : Text → Type 0
EndsClean [] = Unit
EndsClean (c ∷ []) = c == 45 ≡ false
EndsClean (c ∷ d ∷ s) = EndsClean (d ∷ s)

EndsClean-tail : (d : ℕ) (s : Text) → EndsClean (d ∷ s) → EndsClean s
EndsClean-tail d [] h = tt
EndsClean-tail d (c ∷ s) h = h

dash_parts-one : (s : Text) → HasNoDashes s → dash_parts s ≡ s ∷ []
dash_parts-one [] h = refl
dash_parts-one (c ∷ []) h = refl
dash_parts-one (c ∷ d ∷ s) h = rw (h.0, dash_parts-one (d ∷ s) h.1) refl

push-ne-nil : (c : ℕ) (xs : List Text) → push c xs ≢ []
push-ne-nil c [] = λ e. cc
push-ne-nil c (x ∷ xs) = λ e. cc

dash_parts-ne-nil : (s : Text) → dash_parts s ≢ []
dash_parts-ne-nil [] = λ e. cc
dash_parts-ne-nil (c ∷ []) = λ e. cc
dash_parts-ne-nil (c ∷ d ∷ s) = elim (Bool-cases (c == 45 && d == 45)) [
  | inl both ↦ rw both (λ e. cc)
  | inr other ↦ rw other (push-ne-nil c (dash_parts (d ∷ s)))
]

push-append : (c : ℕ) (xs ys : List Text) → xs ≢ [] → push c (xs ++ ys) ≡ push c xs ++ ys
push-append c [] ys ne = absurd (ne refl)
push-append c (x ∷ xs) ys ne = refl

dash_parts-append :
    (p q : Text) → EndsClean p → dash_parts (p ++ 45 ∷ 45 ∷ q) ≡ dash_parts p ++ dash_parts q
dash_parts-append [] q h = refl
dash_parts-append (c ∷ []) q h = rw h refl
dash_parts-append (c ∷ d ∷ s) q h = elim (Bool-cases (c == 45 && d == 45)) [
  | inl both ↦ rw both (ap (λ r. [] ∷ r) (dash_parts-append s q (EndsClean-tail d s h)))
  | inr other ↦ rw other (
      ap (push c) (dash_parts-append (d ∷ s) q h)
      ∙ push-append c (dash_parts (d ∷ s)) (dash_parts q) (dash_parts-ne-nil (d ∷ s)))
]

join-push :
    (c : ℕ) (xs : List Text) → xs ≢ [] → join (push c xs) (codes "--") ≡ c ∷ join xs (codes "--")
unfolding join
join-push c [] ne = absurd (ne refl)
join-push c (x ∷ []) ne = refl
join-push c (x ∷ y ∷ xs) ne = refl

join-empty :
    (xs : List Text) → xs ≢ [] → join ([] ∷ xs) (codes "--") ≡ 45 ∷ 45 ∷ join xs (codes "--")
unfolding join
join-empty [] ne = absurd (ne refl)
join-empty (x ∷ xs) ne = refl

-- Joining what is between the double dashes gives the text back.
join-dash_parts : (s : Text) → join (dash_parts s) (codes "--") ≡ s
unfolding join
join-dash_parts [] = refl
join-dash_parts (c ∷ []) = refl
join-dash_parts (c ∷ d ∷ s) = elim (Bool-cases (c == 45 && d == 45)) [
  | inl both ↦
      let (is_c, is_d) = both-dashes c d both in
      rw (both, join-empty (dash_parts s) (dash_parts-ne-nil s), join-dash_parts s, is_c, is_d) refl
  | inr other ↦
      rw
        (
          other,
          join-push c (dash_parts (d ∷ s)) (dash_parts-ne-nil (d ∷ s)),
          join-dash_parts (d ∷ s),
        )
        refl
]
  where
    both-dashes : (c d : ℕ) → (c == 45 && d == 45) ≡ true → (c ≡ 45) × (d ≡ 45)
    both-dashes c d h = ground arith

init_last-append :
    (first : Text) (xs : List Text) (last : Text)
    → init_last first (xs ++ last ∷ []) ≡ (first ∷ xs, last)
init_last-append first [] last = refl
init_last-append first (x ∷ xs) last = rw (init_last-append x xs last) refl

id_parts-append :
    (wid : Text) (xs : List Text) (last : Text)
    → xs ≢ []
    → id_parts wid (xs ++ last ∷ []) ≡ ok (record { sm_name = join xs (codes "--"); suffix = last })
id_parts-append wid [] last ne = absurd (ne refl)
id_parts-append wid (x ∷ []) last ne = refl
id_parts-append wid (x ∷ y ∷ xs) last ne = rw (init_last-append y xs last) refl

short-trim : (limit : ℕ) (id : Text) → length id ≤ limit → trim limit id ≡ id
unfolding trim
short-trim limit id h = ground arith

parse-made :
    (sm_name s : Text)
    → EndsClean sm_name
    → HasNoDashes s
    → parse_workflow_id (sm_name ++ 45 ∷ 45 ∷ s) ≡ ok (record { sm_name = sm_name; suffix = s })
unfolding parse_workflow_id
parse-made sm_name s clean no_dashes =
    let wid = sm_name ++ 45 ∷ 45 ∷ s in
    let parts : split wid (codes "--") ≡ dash_parts sm_name ++ s ∷ [] =
      split-dash wid
      ∙ dash_parts-append sm_name s clean
      ∙ ap (λ r. dash_parts sm_name ++ r) (dash_parts-one s no_dashes) in
    ap (id_parts wid) parts
    ∙ id_parts-append wid (dash_parts sm_name) s (dash_parts-ne-nil sm_name)
    ∙ ap (λ n. ok (record { sm_name = n; suffix = s })) (join-dash_parts sm_name)

-- What is read from an ID is what it was made of, where nothing was trimmed: the name of the state
-- machine, which must not end with a dash, and the suffix, which must not have two dashes in a row.
pub parse-workflow_id :
    (short_uuid sm_name suffix : Text)
    → EndsClean sm_name
    → HasNoDashes (chosen_suffix short_uuid suffix)
    → length sm_name + (2 + length (chosen_suffix short_uuid suffix)) ≤ 80
    → parse_workflow_id (workflow_id short_uuid sm_name suffix)
      ≡ ok (record { sm_name = sm_name; suffix = chosen_suffix short_uuid suffix })
unfolding workflow_id parse_workflow_id
parse-workflow_id short_uuid sm_name suffix clean no_dashes short =
    let s = chosen_suffix short_uuid suffix in
    let fits : length (sm_name ++ 45 ∷ 45 ∷ s) ≤ 80 =
      omega (arith, length-append sm_name (45 ∷ 45 ∷ s)) in
    let whole : workflow_id short_uuid sm_name suffix ≡ sm_name ++ 45 ∷ 45 ∷ s =
      ap (trim 80) (append_assoc sm_name (codes "--") s)
      ∙ short-trim 80 (sm_name ++ 45 ∷ 45 ∷ s) fits in
    ap parse_workflow_id whole ∙ parse-made sm_name s clean no_dashes
