-- ===== src/Base/Result.antt =====
-- Results of code that raises: a value, or the exception.
use mathlib.Core.Path.{◌≡◌, refl, subst, ap, ◌∙◌}
use mathlib.Core.Bool.{Bool, true, false}
use mathlib.Core.Logic.{◌⊎◌, inl, inr}
use mathlib.Core.List.{List, [], ◌∷◌, map}
use desk_pilot_agent.Base.Lists.{All}

pub data Result {ℓ κ} (E : Type κ) (A : Type ℓ) : Type (ℓ ⊔ κ) where
  ok : A → Result E A
  err : E → Result E A

infixl 5 ◌>>=◌ ◌>>◌
abbrev pub ◌>>=◌ {ℓ κ ι} :
    {E : Type ι} {A : Type ℓ} {B : Type κ} → Result E A → (A → Result E B) → Result E B
ok a >>= f = f a
err e >>= f = err e

abbrev pub ◌>>◌ {κ ι} : {E : Type ι} {B : Type κ} → Result E (Unit {0}) → Result E B → Result E B
m >> k = m >>= λ _. k

-- `if bad: raise e`
abbrev pub raise_if {ι} : {E : Type ι} → Bool → E → Result E (Unit {0})
raise_if true e = err e
raise_if false e = ok tt

abbrev pub map_result {ℓ κ ι} :
    {E : Type ι} {A : Type ℓ} {B : Type κ} → (A → B) → Result E A → Result E B
map_result f (ok a) = ok (f a)
map_result f (err e) = err e

-- A loop that makes a row of each row, where no row raises.
unfoldable pub traverse {ℓ κ ι} :
    {E : Type ι} {A : Type ℓ} {B : Type κ} → (A → Result E B) → List A → Result E (List B)
traverse f [] = ok []
traverse f (x ∷ xs) = let rest = traverse f xs in f x >>= λ y. map_result (◌∷◌ y) rest

-- Inversion of a bind that succeeds, and of a check that passes.
pub bind_ok {ℓ κ ι} :
    {E : Type ι} {A : Type ℓ} {B : Type κ} (m : Result E A) (f : A → Result E B) {b : B}
    → (m >>= f) ≡ ok b
    → (a : A) × (m ≡ ok a) × (f a ≡ ok b)
bind_ok (ok a) f h = (a, refl, h)
bind_ok (err e) f h = cc

pub raise_if_ok {ι κ} :
    {E : Type ι} {B : Type κ} (bad : Bool) (e : E) (m : Result E B) {b : B}
    → (raise_if bad e >> m) ≡ ok b
    → (bad ≡ false) × (m ≡ ok b)
raise_if_ok true e m h = cc
raise_if_ok false e m h = (refl, h)

pub Result-cases {ℓ κ} :
    {E : Type κ} {A : Type ℓ} (r : Result E A) → ((a : A) × (r ≡ ok a)) ⊎ ((e : E) × (r ≡ err e))
Result-cases (ok a) = inl (a, refl)
Result-cases (err e) = inr (e, refl)

pub ok_injective {ℓ κ} :
    {E : Type κ} {A : Type ℓ} {a b : A} → (let r : Result E A = ok a in r ≡ ok b) → a ≡ b
ok_injective h = cc

pub map_result_ok {ℓ κ ι} :
    {E : Type ι} {A : Type ℓ} {B : Type κ} (f : A → B) (r : Result E A) {b : B}
    → map_result f r ≡ ok b
    → (a : A) × (r ≡ ok a) × (f a ≡ b)
map_result_ok f (ok a) h = (a, refl, ok_injective h)
map_result_ok f (err e) h = cc

-- A loop that ends, row by row.
pub traverse-All {ℓ κ ι m n} :
    {E : Type ι} {A : Type ℓ} {B : Type κ} (P : A → Type m) (Q : B → Type n) (f : A → Result E B)
    → ((a : A) (b : B) → P a → f a ≡ ok b → Q b)
    → (xs : List A) (ys : List B) → All P xs
    → traverse f xs ≡ ok ys
    → All Q ys
unfolding traverse
traverse-All P Q f step [] ys all h = subst (All Q) (ok_injective h) tt
traverse-All P Q f step (x ∷ xs) ys all h =
    let (y, made, h1) = bind_ok (f x) _ h in
    let (rest, looped, same) = map_result_ok (◌∷◌ y) (traverse f xs) h1 in
    subst (All Q) same (step x y all.0 made, traverse-All P Q f step xs rest all.1 looped)

-- A loop that keeps the names of the rows.
pub traverse-map {ℓ κ ι m} :
    {E : Type ι} {A : Type ℓ} {B : Type κ} {N : Type m} (name : A → N) (name' : B → N)
    (f : A → Result E B)
    → ((a : A) (b : B) → f a ≡ ok b → name' b ≡ name a)
    → (xs : List A) (ys : List B) → traverse f xs ≡ ok ys
    → map name' ys ≡ map name xs
unfolding traverse
traverse-map name name' f step [] ys h = subst (λ zs. map name' zs ≡ []) (ok_injective h) refl
traverse-map name name' f step (x ∷ xs) ys h =
    let (y, made, h1) = bind_ok (f x) _ h in
    let (rest, looped, same) = map_result_ok (◌∷◌ y) (traverse f xs) h1 in
    subst (λ zs. map name' zs ≡ map name (x ∷ xs)) same
      (ap (λ n. n ∷ map name' rest) (step x y made)
        ∙ ap (λ ns. name x ∷ ns) (traverse-map name name' f step xs rest looped))

-- A loop over rows that do not raise.
pub traverse_total {ℓ κ ι} :
    {E : Type ι} {A : Type ℓ} {B : Type κ} (f : A → Result E B) (xs : List A)
    → All (λ (a : A). (b : B) × (f a ≡ ok b)) xs
    → (ys : List B) × (traverse f xs ≡ ok ys)
unfolding traverse
traverse_total f [] all = ([], refl)
traverse_total f (x ∷ xs) ((y, made), all) =
    let (ys, rest) = traverse_total f xs all in (y ∷ ys, rw (made, rest) refl)
