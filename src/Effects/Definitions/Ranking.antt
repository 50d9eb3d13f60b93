-- ===== src/Effects/Definitions/Ranking.antt =====
-- The definitions of an effect DAG, and rankings of its nodes.
use desk_pilot_agent.Base.{
  ℕ, ◌≤◌, ◌<◌, String, ◌≡◌, refl, sym, subst, true, false, ◌||◌, ◌&&◌, List, [], ◌∷◌, ◌++◌, length,
  All, arith, if◌then◌else◌, Bool-cases, inl, inr,
}
use desk_pilot_agent.Base.Text.{str_eq, eq_iff, eq_refl, mem}
use desk_pilot_agent.Base.Text.Unique.{unique}
use desk_pilot_agent.Effects.Definitions.{
  NodeDefinition, node_keys, step_ids, all_predecessors, max_nodes, max_dependencies,
}
use desk_pilot_agent.Effects.Definitions.Edges.{Edges, linked}
use desk_pilot_agent.Effects.Definitions.Search.{Ordered}
use desk_pilot_agent.Effects.Definitions.Accumulation.{
  IsNode, edges_to, edges_of, total_dependencies,
}

-- Each node stands higher than those that it depends on.
abbrev pub Ranked : List NodeDefinition → (String → ℕ) → Type 0
Ranked ds rank =
    All
      (λ (d : NodeDefinition). All (λ (p : String). rank p < rank d.node_key) (all_predecessors d))
      ds

-- The definitions of an effect DAG.
pub record IsDag (ds : List NodeDefinition) : Type 0 where
  pub some_nodes : 1 ≤ length ds
  pub few_nodes : length ds ≤ max_nodes
  pub keys : unique (node_keys ds) ≡ true
  pub steps : unique (step_ids ds) ≡ true
  pub nodes : All (IsNode (node_keys ds)) ds
  pub few_dependencies : total_dependencies ds ≤ max_dependencies
  pub rank : String → ℕ
  pub ranked : Ranked ds rank

-- Positions in the order of visits.
pub position : String → List String → ℕ
position v [] = 0
position v (x ∷ xs) = let rest = position v xs in if str_eq x v then length xs else rest

position-lt : (v : String) (xs : List String) → mem v xs ≡ true → position v xs < length xs
unfolding position mem
position-lt v [] m = cc
position-lt v (x ∷ xs) m = ground (arith, position-lt v xs, eq_iff x v, eq_iff v x)

mem-linked :
    (es : Edges) (xs : List String) (d v : String)
    → Ordered es xs
    → mem v xs ≡ true
    → linked es d v ≡ true
    → mem d xs ≡ true
unfolding mem
mem-linked es [] d v o m l = cc
mem-linked es (x ∷ xs) d v o m l = elim (Bool-cases (str_eq v x)) [
  | inl same ↦
      let e : v ≡ x = (eq_iff v x).0 same in
      ground (arith, o.0 d (subst (λ (y : String). linked es d y ≡ true) e l))
  | inr other ↦ ground (arith, mem-linked es xs d v o.1 (ground arith) l)
]

-- Along an edge the position grows.
pub position-linked :
    (es : Edges) (xs : List String) (d v : String)
    → unique xs ≡ true
    → Ordered es xs
    → mem v xs ≡ true
    → linked es d v ≡ true
    → position d xs < position v xs
unfolding position unique mem
position-linked es [] d v u o m l = cc
position-linked es (x ∷ xs) d v u o m l = elim (Bool-cases (str_eq v x)) [
  | inl same ↦
      let e : v ≡ x = (eq_iff v x).0 same in
      let earlier : mem d xs ≡ true = o.0 d (subst (λ (y : String). linked es d y ≡ true) e l) in
      ground (arith, position-lt d xs earlier, eq_iff x v, eq_iff x d)
  | inr other ↦
      let later : mem v xs ≡ true = ground arith in
      ground (
        arith,
        position-linked es xs d v (ground arith) o.1 later l,
        mem-linked es xs d v o.1 later l,
        eq_iff x v,
        eq_iff v x,
        eq_iff x d,
      )
]

linked-append :
    (es fs : Edges) (d v : String) → linked (es ++ fs) d v ≡ (linked es d v || linked fs d v)
unfolding linked
linked-append [] fs d v = refl
linked-append ((a, b) ∷ es) fs d v = ground (arith, linked-append es fs d v)

linked-edges_to :
    (key : String) (ps : List String) (d v : String)
    → linked (edges_to key ps) d v ≡ (mem d ps && str_eq key v)
unfolding linked edges_to mem
linked-edges_to key [] d v = refl
linked-edges_to key (p ∷ ps) d v =
    ground (arith, linked-edges_to key ps d v, eq_iff p d, eq_iff d p)

pub linked_node :
    (n : NodeDefinition) (ns : List NodeDefinition) (d v : String)
    → linked (edges_of (n ∷ ns)) d v
      ≡ (mem d (all_predecessors n) && str_eq n.node_key v || linked (edges_of ns) d v)
unfolding edges_of
linked_node n ns d v =
    rw
      (
        linked-append (edges_to n.node_key (all_predecessors n)) (edges_of ns) d v,
        linked-edges_to n.node_key (all_predecessors n) d v,
      )
      refl

All-of_mem :
    (P : String → Type 0) (xs : List String) → ((c : String) → mem c xs ≡ true → P c) → All P xs
unfolding mem
All-of_mem P [] h = tt
All-of_mem P (x ∷ xs) h =
    (h x (ground (arith, eq_refl x)), All-of_mem P xs (λ c m. h c (ground arith)))

pub mem_of_All :
    (P : String → Type 0) (xs : List String) (c : String) → All P xs → mem c xs ≡ true → P c
unfolding mem
mem_of_All P [] c h m = cc
mem_of_All P (x ∷ xs) c (h, hs) m = elim (Bool-cases (str_eq c x)) [
  | inl same ↦ subst P (sym ((eq_iff c x).0 same)) h
  | inr other ↦ mem_of_All P xs c hs (ground arith)
]

-- A ranking of the nodes is one of the edges.
pub Ranked-of_linked :
    (ds : List NodeDefinition) (rank : String → ℕ)
    → ((p v : String)
        → linked (edges_of ds) p v ≡ true
        → mem v (node_keys ds) ≡ true
        → rank p < rank v)
    → Ranked ds rank
unfolding node_keys mem
Ranked-of_linked [] rank h = tt
Ranked-of_linked (d ∷ ds) rank h = (
  All-of_mem (λ (p : String). rank p < rank d.node_key) (all_predecessors d)
      (λ p m.
        h p d.node_key (ground (arith, linked_node d ds p d.node_key, eq_refl d.node_key))
          (ground (arith, eq_refl d.node_key))),
  Ranked-of_linked ds rank (λ p v l m. h p v (ground (arith, linked_node d ds p v)) (ground arith)),
)

pub linked_of_Ranked :
    (ds : List NodeDefinition) (rank : String → ℕ) (p v : String)
    → Ranked ds rank
    → linked (edges_of ds) p v ≡ true
    → rank p < rank v
unfolding linked edges_of
linked_of_Ranked [] rank p v r l = cc
linked_of_Ranked (d ∷ ds) rank p v (r, rs) l = elim (Bool-cases (linked (edges_of ds) p v)) [
  | inl later ↦ linked_of_Ranked ds rank p v rs later
  | inr here ↦
      let e : (mem p (all_predecessors d) ≡ true) × (str_eq d.node_key v ≡ true) =
        ground (arith, linked_node d ds p v) in
      subst (λ (k : String). rank p < rank k) ((eq_iff d.node_key v).0 e.1)
        (mem_of_All (λ (q : String). rank q < rank d.node_key) (all_predecessors d) p r e.0)
]

-- The ends of an edge are nodes.
pub known_ends :
    (keys : List String) (ds : List NodeDefinition) (p v : String)
    → All (IsNode keys) ds
    → linked (edges_of ds) p v ≡ true
    → (mem p keys ≡ true) × (mem v (node_keys ds) ≡ true)
unfolding linked edges_of node_keys mem
known_ends keys [] p v r l = cc
known_ends keys (d ∷ ds) p v (r, rs) l = elim (Bool-cases (linked (edges_of ds) p v)) [
  | inl later ↦ let (a, b) = known_ends keys ds p v rs later in (a, ground arith)
  | inr here ↦
      let e : (mem p (all_predecessors d) ≡ true) × (str_eq d.node_key v ≡ true) =
        ground (arith, linked_node d ds p v) in
      (
        (mem_of_All (λ (q : String). (mem q keys ≡ true) × (str_eq q d.node_key ≡ false))
            (all_predecessors d) p r.known e.0).0,
        ground (arith, eq_iff d.node_key v, eq_iff v d.node_key),
      )
]
