-- ===== src/Base/Text.antt =====
-- Texts as the program compares them: `==`, `<` by code point, sets of texts and the
-- normal form `tuple(sorted(set(value)))` of a tuple of texts.
use Prim.Native.Nat.{ℕ, compare, Ordering}
use Prim.Native.Char.{code}
use Prim.Native.String.{String}
use mathlib.Core.Path.{◌≡◌, refl}
use mathlib.Core.Bool.{Bool, true, false, not, ◌&&◌, ◌||◌}
use mathlib.Core.List.{List, [], ◌∷◌, ◌++◌}
use mathlib.Core.Option.{Option, none, some}
use desk_pilot_agent.Base.Tests.{ltb, ◌==◌, if◌then◌else◌}
use desk_pilot_agent.Base.Lists.{any_of, all_of}
pub mod Sets
pub mod Order
pub mod Unique
pub use text.Mathlib.Text.{◌==◌ as str_eq}
pub use text.Mathlib.TextEquality.{eq_iff}
pub use text.Mathlib.TextPositions.{eq_refl}

-- `a < b` for Python texts: by code points, a proper prefix is the smaller.
unfoldable pub str_lt : String → String → Bool
str_lt String.[] String.[] = false
str_lt String.[] (String.◌∷◌ d t) = true
str_lt (String.◌∷◌ c s) String.[] = false
str_lt (String.◌∷◌ c s) (String.◌∷◌ d t) =
    let rest = str_lt s t in
    if ltb (code c) (code d) then true else if code c == code d then rest else false

-- `x in xs`
unfoldable pub mem : String → List String → Bool
mem x [] = false
mem x (y ∷ ys) = str_eq x y || mem x ys

-- `frozenset(xs).issubset(ys)`
unfoldable pub subset : List String → List String → Bool
subset [] ys = true
subset (x ∷ xs) ys = mem x ys && subset xs ys

-- `frozenset(xs) == frozenset(ys)`
unfoldable pub same_set : List String → List String → Bool
same_set xs ys = subset xs ys && subset ys xs

-- `xs == ys` for tuples of texts
unfoldable pub texts_eq : List String → List String → Bool
texts_eq [] [] = true
texts_eq (x ∷ xs) (y ∷ ys) = str_eq x y && texts_eq xs ys
texts_eq _ _ = false

-- `a == b` for optional texts
unfoldable pub opt_eq : Option String → Option String → Bool
opt_eq none none = true
opt_eq (some a) (some b) = str_eq a b
opt_eq _ _ = false

unfoldable pub insert_text : String → List String → List String
insert_text x [] = x ∷ []
insert_text x (y ∷ ys) =
    let rest = insert_text x ys in
    if str_lt x y then x ∷ y ∷ ys else if str_eq x y then y ∷ ys else y ∷ rest

-- `tuple(sorted(set(value)))`: in ascending order, each text once
unfoldable pub sorted_set : List String → List String
unfolding insert_text str_lt
sorted_set [] = []
sorted_set (x ∷ xs) = insert_text x (sorted_set xs)

sorted_set_run : sorted_set ("b" ∷ "a" ∷ "b" ∷ "ab" ∷ []) ≡ "a" ∷ "ab" ∷ "b" ∷ []
unfolding sorted_set
sorted_set_run = refl
