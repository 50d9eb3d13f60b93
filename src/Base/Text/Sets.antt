-- ===== src/Base/Text/Sets.antt =====
-- What the tests on sets of texts decide.
use Prim.Native.String.{String}
use mathlib.Core.Path.{◌≡◌, refl, sym, ◌∙◌}
use mathlib.Core.Logic.{◌↔◌}
use mathlib.Core.Bool.{true}
use mathlib.Core.List.{List, [], ◌∷◌}
use native.Mathlib.Omega.{arith}
use desk_pilot_agent.Base.Text.{str_eq, eq_iff, eq_refl, mem, subset, same_set, texts_eq}

pub eq_of_str_eq : (a b : String) → str_eq a b ≡ true → a ≡ b
eq_of_str_eq a b h = (eq_iff a b).0 h

pub mem-subset :
    (xs ys : List String) (c : String) → subset xs ys ≡ true → mem c xs ≡ true → mem c ys ≡ true
unfolding mem subset
mem-subset [] ys c h m = cc
mem-subset (x ∷ xs) ys c h m = ground (arith, eq_iff c x, mem-subset xs ys c)

subset_of :
    (xs ys : List String) → ((c : String) → mem c xs ≡ true → mem c ys ≡ true) → subset xs ys ≡ true
unfolding mem subset
subset_of [] ys h = refl
subset_of (x ∷ xs) ys h =
    ground (arith, h x, eq_refl x, subset_of xs ys (λ c m. h c (ground arith)))

-- `issubset` holds exactly when every member of the one is a member of the other.
pub subset_iff :
    (xs ys : List String)
    → (subset xs ys ≡ true) ↔ ((c : String) → mem c xs ≡ true → mem c ys ≡ true)
subset_iff xs ys = (λ h c. mem-subset xs ys c h, subset_of xs ys)

same_members : (xs ys : List String) → same_set xs ys ≡ true → (c : String) → mem c xs ≡ mem c ys
unfolding same_set
same_members xs ys h c = ground (arith, mem-subset xs ys c, mem-subset ys xs c)

same_of_members :
    (xs ys : List String) → ((c : String) → mem c xs ≡ mem c ys) → same_set xs ys ≡ true
unfolding same_set
same_of_members xs ys h =
    ground (arith, subset_of xs ys (λ c m. sym (h c) ∙ m), subset_of ys xs (λ c m. h c ∙ m))

-- Two sets are equal exactly when they have the same members.
pub same_set_iff :
    (xs ys : List String) → (same_set xs ys ≡ true) ↔ ((c : String) → mem c xs ≡ mem c ys)
same_set_iff xs ys = (same_members xs ys, same_of_members xs ys)

pub eq_of_texts_eq : (xs ys : List String) → texts_eq xs ys ≡ true → xs ≡ ys
unfolding texts_eq
eq_of_texts_eq [] [] h = refl
eq_of_texts_eq [] (y ∷ ys) h = cc
eq_of_texts_eq (x ∷ xs) [] h = cc
eq_of_texts_eq (x ∷ xs) (y ∷ ys) h = ground (arith, eq_iff x y, eq_of_texts_eq xs ys)
