-- ===== src/Policy/Normal.antt =====
-- The normal forms of fact sets and resources are stable: a value that a validator returned passes
-- it again unchanged.
use desk_pilot_agent.Base.{
  String, ◌≡◌, refl, ◌≢◌, inl, inr, Bool, true, false, ◌||◌, List, [], ◌∷◌, arith, Bool-cases,
  any_of, ◌∙◌,
}
use desk_pilot_agent.Base.Text.{eq_iff, insert_text, sorted_set}
use desk_pilot_agent.Base.Text.Order.{str_lt_trichotomy, sorted_set_idem}
use desk_pilot_agent.Base.Result.{ok}
use desk_pilot_agent.Policy.Resource.{
  PolicyResource, bad_text, normalize_fact_sets, normalize_resources, scope_key, same_scope_key,
  unique_keys, key_lt, insert_resource, sort_resources,
}

any_of-insert_text :
    (p : String → Bool) (x : String) (ys : List String)
    → p x ≡ false
    → any_of p ys ≡ false
    → any_of p (insert_text x ys) ≡ false
unfolding any_of insert_text
any_of-insert_text p x [] h k = ground arith
any_of-insert_text p x (y ∷ ys) h k = ground (arith, any_of-insert_text p x ys)

any_of-sorted_set :
    (p : String → Bool) (xs : List String) → any_of p xs ≡ false → any_of p (sorted_set xs) ≡ false
unfolding any_of sorted_set
any_of-sorted_set p [] h = refl
any_of-sorted_set p (x ∷ xs) h =
    any_of-insert_text p x (sorted_set xs) (ground arith) (any_of-sorted_set p xs (ground arith))

fact_sets_result :
    (xs : List String) {ys : List String}
    → normalize_fact_sets xs ≡ ok ys
    → (any_of bad_text xs ≡ false) × (ys ≡ sorted_set xs)
unfolding normalize_fact_sets
fact_sets_result xs h = ground arith

-- A fact set that the validator returned is returned by it unchanged.
pub normalize_fact_sets_stable :
    (xs : List String) {ys : List String}
    → normalize_fact_sets xs ≡ ok ys
    → normalize_fact_sets ys ≡ ok ys
unfolding normalize_fact_sets
normalize_fact_sets_stable xs h =
    let (clean, same) = fact_sets_result xs h in
    rw same (rw (any_of-sorted_set bad_text xs clean) (rw sorted_set_idem refl))

same_key_comm : (a b : String × String) → same_scope_key a b ≡ same_scope_key b a
unfolding same_scope_key
same_key_comm (k, i) (l, j) = ground (arith, eq_iff k l, eq_iff l k, eq_iff i j, eq_iff j i)

-- Whether some resource of a list has the key of `r`.
abbrev taken : PolicyResource → List PolicyResource → Bool
taken r = any_of (λ q. same_scope_key (scope_key r) (scope_key q))

taken-insert :
    (r q : PolicyResource) (qs : List PolicyResource)
    → taken q (insert_resource r qs) ≡ (same_scope_key (scope_key q) (scope_key r) || taken q qs)
unfolding any_of insert_resource
taken-insert r q [] = refl
taken-insert r q (p ∷ ps) = ground (arith, taken-insert r q ps)

taken-sort :
    (q : PolicyResource) (rs : List PolicyResource) → taken q (sort_resources rs) ≡ taken q rs
unfolding any_of sort_resources
taken-sort q [] = refl
taken-sort q (r ∷ rs) = rw (taken-insert r q (sort_resources rs), taken-sort q rs) refl

unique-insert :
    (r : PolicyResource) (qs : List PolicyResource)
    → taken r qs ≡ false
    → unique_keys qs ≡ true
    → unique_keys (insert_resource r qs) ≡ true
unfolding any_of insert_resource unique_keys
unique-insert r [] h u = refl
unique-insert r (q ∷ qs) h u =
    ground
      (arith, unique-insert r qs, taken-insert r q qs, same_key_comm (scope_key r) (scope_key q))

unique-sort :
    (rs : List PolicyResource) → unique_keys rs ≡ true → unique_keys (sort_resources rs) ≡ true
unfolding sort_resources unique_keys
unique-sort [] h = refl
unique-sort (r ∷ rs) h =
    unique-insert r (sort_resources rs) (taken-sort r rs ∙ ground arith)
      (unique-sort rs (ground arith))

-- Ascending by key.
abbrev KeyAscending : List PolicyResource → Type 0
KeyAscending [] = Unit
KeyAscending (x ∷ []) = Unit
KeyAscending (x ∷ y ∷ ys) = (key_lt x y ≡ true) × KeyAscending (y ∷ ys)

key_above :
    (a b : PolicyResource)
    → key_lt a b ≡ false
    → same_scope_key (scope_key a) (scope_key b) ≡ false
    → key_lt b a ≡ true
unfolding key_lt same_scope_key
key_above a b h d = ground (
  arith,
  str_lt_trichotomy a.kind b.kind,
  str_lt_trichotomy a.identifier b.identifier,
  eq_iff a.kind b.kind,
  eq_iff b.kind a.kind,
  eq_iff a.identifier b.identifier,
)

insert_after :
    (r q : PolicyResource) (qs : List PolicyResource)
    → key_lt q r ≡ true
    → KeyAscending (q ∷ qs)
    → KeyAscending (insert_resource r qs)
    → KeyAscending (q ∷ insert_resource r qs)
unfolding insert_resource
insert_after r q [] h a b = (h, tt)
insert_after r q (p ∷ ps) h a b = ground arith

KeyAscending-tail :
    (q : PolicyResource) (qs : List PolicyResource) → KeyAscending (q ∷ qs) → KeyAscending qs
KeyAscending-tail q [] a = tt
KeyAscending-tail q (p ∷ ps) a = a.1

insert-KeyAscending :
    (r : PolicyResource) (qs : List PolicyResource)
    → taken r qs ≡ false
    → KeyAscending qs
    → KeyAscending (insert_resource r qs)
unfolding insert_resource any_of
insert-KeyAscending r [] h a = tt
insert-KeyAscending r (q ∷ qs) h a =
    let ih = insert-KeyAscending r qs (ground arith) (KeyAscending-tail q qs a) in
    elim (Bool-cases (key_lt r q)) [
      | inl p ↦ rw p (p, a)
      | inr p ↦ rw p (insert_after r q qs (key_above r q p (ground arith)) a ih)
    ]

sort-KeyAscending :
    (rs : List PolicyResource) → unique_keys rs ≡ true → KeyAscending (sort_resources rs)
unfolding sort_resources unique_keys
sort-KeyAscending [] h = tt
sort-KeyAscending (r ∷ rs) h =
    insert-KeyAscending r (sort_resources rs) (taken-sort r rs ∙ ground arith)
      (sort-KeyAscending rs (ground arith))

sort_of_KeyAscending : (rs : List PolicyResource) → KeyAscending rs → sort_resources rs ≡ rs
unfolding sort_resources insert_resource
sort_of_KeyAscending [] a = refl
sort_of_KeyAscending (r ∷ []) a = refl
sort_of_KeyAscending (r ∷ q ∷ qs) a =
    let ih : sort_resources (q ∷ qs) ≡ q ∷ qs = sort_of_KeyAscending (q ∷ qs) a.1 in
    rw ih (rw a.0 refl)

sort_cons : (r : PolicyResource) (rs : List PolicyResource) → sort_resources (r ∷ rs) ≢ []
unfolding sort_resources insert_resource
sort_cons r rs h = insert_cons r (sort_resources rs) h
  where
    insert_cons : (r : PolicyResource) (qs : List PolicyResource) → insert_resource r qs ≢ []
    insert_cons r [] h = cc
    insert_cons r (q ∷ qs) h = ground arith

normal_form :
    (rs : List PolicyResource)
    → rs ≢ []
    → unique_keys rs ≡ true
    → KeyAscending rs
    → normalize_resources rs ≡ ok rs
unfolding normalize_resources
normal_form [] n u a = absurd (n refl)
normal_form (r ∷ rs) n u a = rw (u, sort_of_KeyAscending (r ∷ rs) a) refl

resources_result :
    (r : PolicyResource) (rs : List PolicyResource) {ys : List PolicyResource}
    → normalize_resources (r ∷ rs) ≡ ok ys
    → (unique_keys (r ∷ rs) ≡ true) × (ys ≡ sort_resources (r ∷ rs))
unfolding normalize_resources
resources_result r rs h = ground arith

-- A resource list that the validator returned is returned by it unchanged.
pub normalize_resources_stable :
    (xs : List PolicyResource) {ys : List PolicyResource}
    → normalize_resources xs ≡ ok ys
    → normalize_resources ys ≡ ok ys
unfolding normalize_resources
normalize_resources_stable [] h = cc
normalize_resources_stable (r ∷ rs) h =
    let (unique, same) = resources_result r rs h in
    rw same (
      normal_form (sort_resources (r ∷ rs)) (sort_cons r rs) (unique-sort (r ∷ rs) unique)
        (sort-KeyAscending (r ∷ rs) unique))
