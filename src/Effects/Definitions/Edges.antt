-- ===== src/Effects/Definitions/Edges.antt =====
-- The dependencies of an effect DAG as a list of edges, each from a node to one that depends on it.
use desk_pilot_agent.Base.{
  ℕ, suc, ◌+◌, String, ◌≡◌, refl, Bool, true, false, not, ◌&&◌, ◌||◌, List, [], ◌∷◌, arith,
  if◌then◌else◌,
}
use desk_pilot_agent.Base.Text.{str_eq, eq_iff, eq_refl, mem}

abbrev pub Edges : Type 0
Edges = List (String × String)

-- There is an edge from `d` to `v`.
unfoldable pub linked : Edges → String → String → Bool
linked [] d v = false
linked ((a, b) ∷ es) d v = (str_eq a d && str_eq b v) || linked es d v

-- How many edges lead to `v` from nodes outside `visited`.
unfoldable pub degree : Edges → List String → String → ℕ
degree [] visited v = 0
degree ((a, b) ∷ es) visited v =
    let rest = degree es visited v in if str_eq b v && not (mem a visited) then suc rest else rest

-- Where the edges from `d` lead, in order.
unfoldable pub targets : Edges → String → List String
targets [] d = []
targets ((a, b) ∷ es) d = let rest = targets es d in if str_eq a d then b ∷ rest else rest

unfoldable pub count : String → List String → ℕ
count v [] = 0
count v (x ∷ xs) = let rest = count v xs in if str_eq x v then suc rest else rest

pub mem-targets : (es : Edges) (d v : String) → mem v (targets es d) ≡ linked es d v
unfolding linked targets mem
mem-targets [] d v = refl
mem-targets ((a, b) ∷ es) d v = ground (arith, mem-targets es d v, eq_iff v b, eq_iff b v)

-- A visit of `c` takes away the edges from `c`.
pub degree-visit :
    (es : Edges) (visited : List String) (c v : String)
    → mem c visited ≡ false
    → degree es visited v ≡ degree es (c ∷ visited) v + count v (targets es c)
unfolding degree targets count mem
degree-visit [] visited c v h = omega arith
degree-visit ((a, b) ∷ es) visited c v h = ground (arith, degree-visit es visited c v, eq_iff a c)

pub visited_of_degree :
    (es : Edges) (visited : List String) (d v : String)
    → degree es visited v ≡ 0
    → linked es d v ≡ true
    → mem d visited ≡ true
unfolding degree linked
visited_of_degree [] visited d v z l = cc
visited_of_degree ((a, b) ∷ es) visited d v z l =
    ground (arith, visited_of_degree es visited d v, eq_iff a d)

pub degree_of_visited :
    (es : Edges) (visited : List String) (v : String)
    → ((d : String) → linked es d v ≡ true → mem d visited ≡ true)
    → degree es visited v ≡ 0
unfolding degree linked
degree_of_visited [] visited v h = refl
degree_of_visited ((a, b) ∷ es) visited v h =
    ground (arith, degree_of_visited es visited v (λ d l. h d (ground arith)), h a, eq_refl a)
