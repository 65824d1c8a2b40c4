-- ===== src/Executor/Arns.antt =====
-- The ARN of an execution, which the executor makes and the consumer takes apart.
use mathlib.Core.List.{append_assoc}
use workflow_manager.Common.{
  ℕ, ◌+◌, ◌-◌, Text, ℤ, false, List, [], ◌∷◌, ◌++◌, some, ok, ◌≡◌, ◌≢◌, refl, sym, ap, ◌∙◌, arith,
  All, length, length-append, get_elem?, get_last?, ltb, ◌==◌, if◌then◌else◌, Bool-cases, inl, inr,
}
use workflow_manager.Common.Strings.{codes, split, split_from, has_prefix, push}
use workflow_manager.Consumer.{exec_id_from_execution_arn, state_machine_from_execution_arn}
use workflow_manager.Executor.Conventions.{
  replace_char, replace_chars, state_machine_name, execution_arn,
}

abbrev pub colon : ℕ
colon = 58

-- The text has no colon.
abbrev pub HasNoColon : Text → Type 0
HasNoColon = All (λ c. c == colon ≡ false)

abbrev Avoids : ℕ → Text → Type 0
Avoids bad = All (λ c. c == bad ≡ false)

-- What is between the colons.
abbrev colon_parts : Text → List Text
colon_parts [] = [] ∷ []
colon_parts (c ∷ s) = let rest = colon_parts s in if c == colon then [] ∷ rest else push c rest

split-colon : (s : Text) → split s (codes ":") ≡ colon_parts s
unfolding split split_from has_prefix
split-colon [] = refl
split-colon (c ∷ s) = ground (arith, split-colon s)

push-ne-nil : (c : ℕ) (xs : List Text) → push c xs ≢ []
push-ne-nil c [] = λ e. cc
push-ne-nil c (x ∷ xs) = λ e. cc

colon_parts-ne-nil : (s : Text) → colon_parts s ≢ []
colon_parts-ne-nil [] = λ e. cc
colon_parts-ne-nil (c ∷ s) = elim (Bool-cases (c == colon)) [
  | inl here ↦ rw here (λ e. cc)
  | inr other ↦ rw other (push-ne-nil c (colon_parts s))
]

push-append : (c : ℕ) (xs ys : List Text) → xs ≢ [] → push c (xs ++ ys) ≡ push c xs ++ ys
push-append c [] ys ne = absurd (ne refl)
push-append c (x ∷ xs) ys ne = refl

colon_parts-append : (p q : Text) → colon_parts (p ++ colon ∷ q) ≡ colon_parts p ++ colon_parts q
colon_parts-append [] q = refl
colon_parts-append (c ∷ p) q = elim (Bool-cases (c == colon)) [
  | inl here ↦ rw here (ap (λ r. [] ∷ r) (colon_parts-append p q))
  | inr other ↦ rw other (
      ap (push c) (colon_parts-append p q)
      ∙ push-append c (colon_parts p) (colon_parts q) (colon_parts-ne-nil p))
]

colon_parts-one : (s : Text) → HasNoColon s → colon_parts s ≡ s ∷ []
colon_parts-one [] h = refl
colon_parts-one (c ∷ s) h = rw (h.0, colon_parts-one s h.1) refl

replace_char-Avoids-same :
    (bad : ℕ) (s : Text) → (bad == 45 ≡ false) → Avoids bad (replace_char bad s)
unfolding replace_char
replace_char-Avoids-same bad [] h = tt
replace_char-Avoids-same bad (c ∷ s) h = (ground arith, replace_char-Avoids-same bad s h)

replace_char-Avoids :
    (bad other : ℕ) (s : Text)
    → (other == 45 ≡ false)
    → Avoids other s
    → Avoids other (replace_char bad s)
unfolding replace_char
replace_char-Avoids bad other [] h a = tt
replace_char-Avoids bad other (c ∷ s) h a =
    (ground (arith, a.0), replace_char-Avoids bad other s h a.1)

-- The executor's names of state machines have no colon, whatever they are made of.
state_machine_name-HasNoColon :
    (wd_name : Text) (wd_version : ℤ) (namespace start_at : Text)
    → HasNoColon (state_machine_name wd_name wd_version namespace start_at)
unfolding state_machine_name replace_chars
state_machine_name-HasNoColon wd_name wd_version namespace start_at =
    replace_char-Avoids 47 58 _ refl (replace_char-Avoids-same 58 _ refl)

get_last?-two : (xs : List Text) (a b : Text) → get_last? (xs ++ a ∷ b ∷ []) ≡ some b
get_last?-two [] a b = refl
get_last?-two (x ∷ []) a b = refl
get_last?-two (x ∷ y ∷ xs) a b = get_last?-two (y ∷ xs) a b

get_elem?-append_two :
    (xs : List Text) (a b : Text) → get_elem? (xs ++ a ∷ b ∷ []) (length xs) ≡ some a
get_elem?-append_two [] a b = refl
get_elem?-append_two (x ∷ xs) a b = get_elem?-append_two xs a b

length-two : (xs : List Text) (a b : Text) → length (xs ++ a ∷ b ∷ []) ≡ length xs + 2
length-two xs a b = ground (arith, length-append xs (a ∷ b ∷ []))

-- What the consumer makes of a text whose last two parts are known.
last_parts :
    (arn : Text) (xs : List Text) (name id : Text)
    → split arn (codes ":") ≡ xs ++ name ∷ id ∷ []
    → (exec_id_from_execution_arn arn ≡ ok id) × (state_machine_from_execution_arn arn ≡ ok name)
unfolding exec_id_from_execution_arn state_machine_from_execution_arn
last_parts arn xs name id e =
    let at : length (xs ++ name ∷ id ∷ []) - 2 ≡ length xs = omega (arith, length-two xs name id) in
    let long : ltb (length (xs ++ name ∷ id ∷ [])) 2 ≡ false =
      ground (arith, length-two xs name id) in
    (
      rw (e, get_last?-two xs name id, exec_id_from_execution_arn) refl,
      rw (e, long, at, get_elem?-append_two xs name id, state_machine_from_execution_arn) refl,
    )

split-execution_arn :
    (region account_id name id : Text)
    → HasNoColon name
    → HasNoColon id
    → (xs : List Text) × (split (execution_arn region account_id name id) (codes ":")
        ≡ xs ++ name ∷ id ∷ [])
unfolding execution_arn
split-execution_arn region account_id name id clean_name clean_id =
    let before = codes "arn:aws:states:" ++ region ++ codes ":" ++ account_id in
    let front = before ++ codes ":execution" in
    let rest = name ++ colon ∷ id in
    let same : execution_arn region account_id name id ≡ front ++ colon ∷ rest =
      append_assoc (before ++ codes ":execution:" ++ name) (colon ∷ []) id
      ∙ append_assoc (before ++ codes ":execution:") name (colon ∷ id)
      ∙ append_assoc before (codes ":execution:") rest
      ∙ sym (append_assoc before (codes ":execution") (colon ∷ rest)) in
    (
      colon_parts front,
      split-colon (execution_arn region account_id name id)
          ∙ ap colon_parts same
          ∙ colon_parts-append front rest
          ∙ ap (λ ps. colon_parts front ++ ps)
              (colon_parts-append name id
                ∙ rw (colon_parts-one name clean_name, colon_parts-one id clean_id) refl),
    )

-- What the consumer reads from the ARN that the executor makes of an execution: its name, that is
-- the workflow's ID, and the name of its state machine. The ID must have no colon; the names that
-- the state machine's name is made of may be any.
pub execution_arn-parts :
    (region account_id wd_name : Text) (wd_version : ℤ) (namespace start_at id : Text)
    → HasNoColon id
    → (exec_id_from_execution_arn (
          execution_arn region account_id
            (state_machine_name wd_name wd_version namespace start_at)
            id)
        ≡ ok id)
      × (state_machine_from_execution_arn (
            execution_arn region account_id
              (state_machine_name wd_name wd_version namespace start_at)
              id)
          ≡ ok (state_machine_name wd_name wd_version namespace start_at))
execution_arn-parts region account_id wd_name wd_version namespace start_at id clean =
    let name = state_machine_name wd_name wd_version namespace start_at in
    let (xs, e) =
      split-execution_arn region account_id name id
        (state_machine_name-HasNoColon wd_name wd_version namespace start_at) clean in
    last_parts (execution_arn region account_id name id) xs name id e
