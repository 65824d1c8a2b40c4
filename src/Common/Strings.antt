-- ===== src/Common/Strings.antt =====
-- Go strings as lists of bytes. A literal of the source is ASCII, and `codes` gives its bytes.
use Prim.Native.Nat.{ℕ, zero, suc, ◌+◌, ◌-◌, ◌/◌, ◌%◌}
use Prim.Native.Char.{code}
use Prim.Native.String.{String}
use mathlib.Core.Bool.{Bool, true, false, ◌&&◌, ◌||◌}
use mathlib.Core.List.{List, [], ◌∷◌, ◌++◌, reverse}
use mathlib.Core.Logic.{ite}
use mathlib.Core.Path.{◌≡◌, refl}
use native.Mathlib.Decide.{ℕ_discrete}
use workflow_manager.Common.Int.{ℤ, pos, negsuc}
use workflow_manager.Common.Lists.{length, drop}
use workflow_manager.Common.Tests.{ltb, leb, ◌==◌, if◌then◌else◌}

abbrev pub Text : Type 0
Text = List ℕ

abbrev pub codes : String → Text
codes String.[] = []
codes (String.◌∷◌ c s) = code c ∷ codes s

unfoldable pub Text-discrete : Discrete Text
unfolding ℕ_discrete
Text-discrete = hlevel ℕ_discrete

-- The comparison `a == b` of two strings.
infix 50 ◌=?◌
abbrev pub ◌=?◌ : Text → Text → Bool
a =? b = ite (Text-discrete a b) true false

-- strings.HasPrefix
unfoldable pub has_prefix : Text → Text → Bool
has_prefix s [] = true
has_prefix [] (p ∷ ps) = false
has_prefix (c ∷ s) (p ∷ ps) = c == p && has_prefix s ps

-- strings.TrimPrefix
unfoldable pub trim_prefix : Text → Text → Text
unfolding has_prefix
trim_prefix s p = if has_prefix s p then drop (length p) s else s

-- strings.Contains
unfoldable pub contains : Text → Text → Bool
unfolding has_prefix
contains [] sub = has_prefix [] sub
contains (c ∷ s) sub = has_prefix (c ∷ s) sub || contains s sub

-- Puts a byte in front of the first part.
abbrev pub push : ℕ → List Text → List Text
push c [] = (c ∷ []) ∷ []
push c (part ∷ parts) = (c ∷ part) ∷ parts

-- `skip` counts the bytes of a separator that are still to be passed over.
unfoldable pub split_from : Text → ℕ → Text → List Text
split_from sep skip [] = [] ∷ []
split_from sep (suc skip) (c ∷ s) = split_from sep skip s
split_from sep zero (c ∷ s) =
    let found = has_prefix (c ∷ s) sep in
    let rest = split_from sep (if found then length sep - 1 else 0) s in
    if found then [] ∷ rest else push c rest

-- strings.Split with a separator that is not empty.
unfoldable pub split : Text → Text → List Text
unfolding split_from has_prefix
split s sep = split_from sep 0 s

-- strings.Join
unfoldable pub join : List Text → Text → Text
join [] sep = []
join (part ∷ []) sep = part
join (part ∷ next ∷ parts) sep = part ++ sep ++ join (next ∷ parts) sep

-- The ASCII characters that unicode.IsSpace accepts.
unfoldable pub is_space : ℕ → Bool
is_space c = c == 32 || leb 9 c && leb c 13

unfoldable pub trim_left : Text → Text
trim_left [] = []
trim_left (c ∷ s) = if is_space c then trim_left s else c ∷ s

-- strings.TrimSpace, on ASCII text.
unfoldable pub trim_space : Text → Text
unfolding trim_left is_space
trim_space s = reverse (trim_left (reverse (trim_left s)))

-- The digits of `n` in front of `out`, on fuel; `n + 1` rounds are more than enough.
unfoldable pub emit : ℕ → ℕ → Text → Text
emit zero n out = out
emit (suc fuel) n out =
    let more = emit fuel (n / 10) ((b'0' + n % 10) ∷ out) in
    if ltb n 10 then (b'0' + n) ∷ out else more

unfoldable pub decimal_ℕ : ℕ → Text
unfolding emit
decimal_ℕ n = emit (suc n) n []

-- `fmt.Sprintf("%d", n)`
unfoldable pub decimal : ℤ → Text
unfolding decimal_ℕ
decimal (pos n) = decimal_ℕ n
decimal (negsuc n) = b'-' ∷ decimal_ℕ (suc n)

decimal_runs : decimal (negsuc 1204) ≡ codes "-1205"
unfolding decimal
decimal_runs = refl

split_runs : split (codes "a--b----c") (codes "--") ≡ codes "a" ∷ codes "b" ∷ [] ∷ codes "c" ∷ []
unfolding split
split_runs = refl

join_runs : join (codes "a" ∷ codes "b" ∷ []) (codes "--") ≡ codes "a--b"
unfolding join
join_runs = refl

trim_runs : trim_space (codes " a b\n") ≡ codes "a b"
unfolding trim_space
trim_runs = refl
