-- ===== src/Base/Text/Unique.antt =====
-- Lists of texts without repetition: `len(xs) == len(set(xs))`, and how they are counted.
use Prim.Native.Nat.{◌≤◌, suc}
use Prim.Native.String.{String}
use mathlib.Core.Path.{◌≡◌, refl}
use mathlib.Core.Logic.{inl, inr}
use mathlib.Core.Bool.{Bool, true, false, not, ◌&&◌, ◌||◌}
use mathlib.Core.List.{List, [], ◌∷◌, ◌++◌, reverse, reverse-append}
use native.Mathlib.Omega.{arith}
use desk_pilot_agent.Base.Tests.{if◌then◌else◌, Bool-cases}
use desk_pilot_agent.Base.Lists.{length, keep}
use desk_pilot_agent.Base.Text.{str_eq, eq_iff, eq_refl, mem}

-- No text occurs twice.
unfoldable pub unique : List String → Bool
unique [] = true
unique (x ∷ xs) = not (mem x xs) && unique xs

-- Each member of the one is a member of the other.
abbrev pub Within : List String → List String → Type 0
Within xs ys = (c : String) → mem c xs ≡ true → mem c ys ≡ true

pub mem-append : (c : String) (xs ys : List String) → mem c (xs ++ ys) ≡ (mem c xs || mem c ys)
unfolding mem
mem-append c [] ys = refl
mem-append c (x ∷ xs) ys = ground (arith, mem-append c xs ys)

-- One occurrence less.
without : String → List String → List String
without x [] = []
without x (y ∷ ys) = let rest = without x ys in if str_eq x y then ys else y ∷ rest

length-without :
    (x : String) (ys : List String) → mem x ys ≡ true → suc (length (without x ys)) ≡ length ys
unfolding without mem
length-without x [] h = cc
length-without x (y ∷ ys) h = ground (arith, length-without x ys)

mem-without :
    (x c : String) (ys : List String)
    → mem c ys ≡ true
    → str_eq x c ≡ false
    → mem c (without x ys) ≡ true
unfolding without mem
mem-without x c [] h n = cc
mem-without x c (y ∷ ys) h n =
    ground (arith, mem-without x c ys, eq_iff x y, eq_iff c y, eq_iff x c, eq_refl x)

-- A list without repetition is no longer than one that has all of its members.
pub length-le_of_Within :
    (xs ys : List String) → unique xs ≡ true → Within xs ys → length xs ≤ length ys
unfolding unique mem
length-le_of_Within [] ys u w = omega arith
length-le_of_Within (x ∷ xs) ys u w =
    let smaller : length xs ≤ length (without x ys) =
      length-le_of_Within xs (without x ys) (ground arith)
        (λ c m. mem-without x c ys (w c (ground arith)) (ground (arith, eq_iff x c))) in
    omega (arith, smaller, length-without x ys (w x (ground (arith, eq_refl x))))

-- And it has all members of a list that is no longer than it.
pub Within-of_length :
    (xs ys : List String) → unique xs ≡ true → Within xs ys → length ys ≤ length xs → Within ys xs
Within-of_length xs ys u w h c m = elim (Bool-cases (mem c xs)) [
  | inl found ↦ found
  | inr missing ↦
      let kept : Within xs (without c ys) =
        λ d n. mem-without c d ys (w d n) (ground (arith, eq_iff c d)) in
      absurd (omega (arith, length-without c ys m, length-le_of_Within xs (without c ys) u kept))
]

pub unique-append :
    (xs ys : List String)
    → unique xs ≡ true
    → unique ys ≡ true
    → ((c : String) → mem c xs ≡ true → mem c ys ≡ false)
    → unique (xs ++ ys) ≡ true
unfolding unique mem
unique-append [] ys u w h = w
unique-append (x ∷ xs) ys u w h = ground (
  arith,
  unique-append xs ys (ground arith) w (λ c m. h c (ground arith)),
  mem-append x xs ys,
  h x,
  eq_refl x,
)

pub mem-keep :
    (p : String → Bool) (c : String) (xs : List String) → mem c (keep p xs) ≡ (mem c xs && p c)
unfolding mem keep
mem-keep p c [] = refl
mem-keep p c (x ∷ xs) = ground (arith, mem-keep p c xs, eq_iff c x)

pub unique-keep :
    (p : String → Bool) (xs : List String) → unique xs ≡ true → unique (keep p xs) ≡ true
unfolding unique keep
unique-keep p [] u = refl
unique-keep p (x ∷ xs) u = ground (arith, unique-keep p xs, mem-keep p x xs)

pub mem-reverse : (c : String) (xs : List String) → mem c (reverse xs) ≡ mem c xs
unfolding mem
mem-reverse c [] = refl
mem-reverse c (x ∷ xs) =
    rw (reverse-append (x ∷ []) xs, mem-append c (reverse xs) (x ∷ []))
      (ground (arith, mem-reverse c xs))

pub unique-reverse : (xs : List String) → unique xs ≡ true → unique (reverse xs) ≡ true
unfolding unique mem
unique-reverse [] u = refl
unique-reverse (x ∷ xs) u = rw (reverse-append (x ∷ []) xs) (
    unique-append (reverse xs) (x ∷ []) (unique-reverse xs (ground arith)) refl
      (λ c m. ground (arith, mem-reverse c xs, eq_iff c x)))
