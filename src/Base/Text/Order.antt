-- ===== src/Base/Text/Order.antt =====
-- `str_lt` is a strict total order, and `sorted_set` returns its argument where that is ascending
-- already: normal forms are stable.
use Prim.Native.String.{String}
use mathlib.Core.Path.{◌≡◌, refl}
use mathlib.Core.Logic.{◌⊎◌, inl, inr}
use mathlib.Core.Bool.{true, false}
use mathlib.Core.List.{List, [], ◌∷◌}
use native.Mathlib.Omega.{arith}
use text.Mathlib.TextEquality.{Char-path}
use desk_pilot_agent.Base.Tests.{Bool-cases}
use desk_pilot_agent.Base.Text.{str_eq, eq_iff, str_lt, insert_text, sorted_set}

pub str_lt_trichotomy : (s t : String) → (str_lt s t ≡ true) ⊎ (s ≡ t) ⊎ (str_lt t s ≡ true)
unfolding str_lt
str_lt_trichotomy String.[] String.[] = inr (inl refl)
str_lt_trichotomy String.[] (String.◌∷◌ d t) = inl refl
str_lt_trichotomy (String.◌∷◌ c s) String.[] = inr (inr refl)
str_lt_trichotomy (String.◌∷◌ c s) (String.◌∷◌ d t) =
    ground (arith, str_lt_trichotomy s t, Char-path c d)

pub str_lt_irrefl : (s : String) → str_lt s s ≡ false
unfolding str_lt
str_lt_irrefl String.[] = refl
str_lt_irrefl (String.◌∷◌ c s) = ground (arith, str_lt_irrefl s)

-- Ascending, each text once.
abbrev pub Ascending : List String → Type 0
Ascending [] = Unit
Ascending (x ∷ []) = Unit
Ascending (x ∷ y ∷ ys) = (str_lt x y ≡ true) × Ascending (y ∷ ys)

insert_below :
    (x y : String) (ys : List String)
    → str_lt y x ≡ true
    → Ascending (y ∷ ys)
    → Ascending (insert_text x ys)
    → Ascending (y ∷ insert_text x ys)
unfolding insert_text
insert_below x y [] h a b = ground arith
insert_below x y (z ∷ zs) h a b = ground arith

Ascending-tail : (y : String) (ys : List String) → Ascending (y ∷ ys) → Ascending ys
Ascending-tail y [] a = tt
Ascending-tail y (z ∷ zs) a = a.1

above : (x y : String) → str_lt x y ≡ false → str_eq x y ≡ false → str_lt y x ≡ true
above x y p q = ground (arith, str_lt_trichotomy x y, eq_iff x y)

insert-Ascending : (x : String) (ys : List String) → Ascending ys → Ascending (insert_text x ys)
unfolding insert_text
insert-Ascending x [] a = tt
insert-Ascending x (y ∷ ys) a =
    let rest = insert_below x y ys in
    let ih = insert-Ascending x ys (Ascending-tail y ys a) in
    elim (Bool-cases (str_lt x y)) [
      | inl p ↦ rw p (p, a)
      | inr p ↦ rw p (elim (Bool-cases (str_eq x y)) [
        | inl q ↦ rw q a
        | inr q ↦ rw q (rest (above x y p q) a ih)
      ])
    ]

-- The result is ascending.
pub sorted_set-Ascending : (xs : List String) → Ascending (sorted_set xs)
unfolding sorted_set
sorted_set-Ascending [] = tt
sorted_set-Ascending (x ∷ xs) = insert-Ascending x (sorted_set xs) (sorted_set-Ascending xs)

-- What is ascending is its own normal form.
pub sorted_set_of_Ascending : (xs : List String) → Ascending xs → sorted_set xs ≡ xs
unfolding sorted_set
sorted_set_of_Ascending [] a = refl
sorted_set_of_Ascending (x ∷ []) a = refl
sorted_set_of_Ascending (x ∷ y ∷ ys) a =
    let ih : sorted_set (y ∷ ys) ≡ y ∷ ys = sorted_set_of_Ascending (y ∷ ys) a.1 in
    rw ih (rw a.0 refl)

pub sorted_set_idem : (xs : List String) → sorted_set (sorted_set xs) ≡ sorted_set xs
sorted_set_idem xs = sorted_set_of_Ascending (sorted_set xs) (sorted_set-Ascending xs)
