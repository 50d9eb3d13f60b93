-- ===== src/Effects/Definitions/Search.antt =====
-- The search of `_validate_effect_dag`: what holds in each of its rounds.
use desk_pilot_agent.Base.{
  ℕ, zero, suc, ◌+◌, ◌-◌, ◌≤◌, String, ◌≡◌, sym, subst, true, false, ◌||◌, ◌==◌, List, [], ◌∷◌,
  ◌++◌, length, length-append, arith, if◌then◌else◌, Bool-cases, inl, inr,
}
use desk_pilot_agent.Base.Text.{eq_iff, eq_refl, mem}
use desk_pilot_agent.Base.Text.Unique.{
  unique, Within, length-le_of_Within, mem-append, unique-append,
}
use desk_pilot_agent.Effects.Definitions.{updated, release_successors, visit_all}
use desk_pilot_agent.Effects.Definitions.Edges.{
  Edges, linked, degree, targets, count, mem-targets, degree-visit, visited_of_degree,
}

-- The predecessors of a visited node were visited before it; the last visit comes first.
abbrev pub Ordered : Edges → List String → Type 0
Ordered es [] = Unit
Ordered es (x ∷ xs) = ((d : String) → linked es d x ≡ true → mem d xs ≡ true) × Ordered es xs

-- What holds when `visited` were visited, `ready` wait, and the degrees of `rest` are still to be
-- reduced.
pub record IsSearch (keys : List String) (es : Edges) (visited ready : List String)
    (indegree : String → ℕ) (rest : List String) : Type 0 where
  pub counted : (v : String) → indegree v ≡ degree es visited v + count v rest
  pub found :
      (v : String) → mem v keys ≡ true → indegree v ≡ 0 → (mem v visited || mem v ready) ≡ true
  pub settled :
      (v : String) → (mem v visited || mem v ready) ≡ true → (mem v keys ≡ true) × (indegree v ≡ 0)
  pub once : unique visited ≡ true
  pub queued_once : unique ready ≡ true
  pub apart : (v : String) → mem v visited ≡ true → mem v ready ≡ false
  pub ordered : Ordered es visited
  pub targets_known : Within rest keys

module _ (keys : List String) (es : Edges) where
  IsSearch-release :
      (visited ready : List String) (indegree : String → ℕ) (s : String) (rest : List String)
      → IsSearch keys es visited ready indegree (s ∷ rest)
      → IsSearch keys es visited
          (if (indegree s - 1) == 0 then s ∷ ready else ready)
          (updated indegree s (indegree s - 1))
          rest
  unfolding updated count mem unique
  IsSearch-release visited ready indegree s rest h = record {
    counted = λ v. ground (arith, h.counted v, h.counted s, eq_iff s v);
    found = λ v k z. ground (arith, h.found v, h.counted s, eq_iff s v, eq_refl v);
    settled = λ v m. ground (
      arith,
      h.settled v,
      h.settled s,
      h.counted s,
      eq_iff s v,
      eq_iff v s,
      eq_refl s,
      h.targets_known s,
    );
    once = h.once;
    queued_once = ground (arith, h.settled s, h.counted s, eq_refl s, h.queued_once);
    apart = λ v m. ground (arith, h.apart v, h.settled s, h.counted s, eq_refl s, eq_iff v s);
    ordered = h.ordered;
    targets_known = λ v m. h.targets_known v (ground arith);
  }

  IsSearch-release_all :
      (visited ready : List String) (indegree : String → ℕ) (rest : List String)
      → IsSearch keys es visited ready indegree rest
      → IsSearch keys es visited
          (release_successors rest ready indegree).0
          (release_successors rest ready indegree).1
          []
  unfolding release_successors
  IsSearch-release_all visited ready indegree [] h = h
  IsSearch-release_all visited ready indegree (s ∷ rest) h =
      IsSearch-release_all visited (if (indegree s - 1) == 0 then s ∷ ready else ready)
        (updated indegree s (indegree s - 1)) rest
        (IsSearch-release visited ready indegree s rest h)

  module _ (known : (d v : String) → linked es d v ≡ true → mem v keys ≡ true) where
    -- The node at the end of `ready` is visited.
    IsSearch-visit :
        (visited ready : List String) (indegree : String → ℕ) (c : String)
        → IsSearch keys es visited (c ∷ ready) indegree []
        → IsSearch keys es (c ∷ visited) ready indegree (targets es c)
    unfolding mem unique count
    IsSearch-visit visited ready indegree c h =
        let fresh : mem c visited ≡ false = elim (Bool-cases (mem c visited)) [
          | inl old ↦ ground (arith, h.apart c old, eq_refl c)
          | inr new ↦ new
        ] in
        record {
          counted = λ v. ground (arith, h.counted v, degree-visit es visited c v fresh);
          found = λ v k z. ground (arith, h.found v k z);
          settled = λ v m. h.settled v (ground arith);
          once = ground (arith, h.once);
          queued_once = ground (arith, h.queued_once);
          apart = λ v m. ground (arith, h.apart v, h.queued_once, eq_iff v c);
          ordered = (
            λ d l.
                visited_of_degree es visited d c
                  (ground (arith, h.settled c, h.counted c, eq_refl c)) l,
            h.ordered,
          );
          targets_known = λ v m. known c v (ground (arith, mem-targets es c v));
        }

    -- No more nodes are visited and ready than there are.
    room :
        (visited ready : List String) (indegree : String → ℕ)
        → IsSearch keys es visited ready indegree []
        → length visited + length ready ≤ length keys
    room visited ready indegree h =
        let all_known : Within (visited ++ ready) keys =
          λ c m. (h.settled c (ground (arith, mem-append c visited ready))).0 in
        omega (
          arith,
          length-append visited ready,
          length-le_of_Within (visited ++ ready) keys
              (unique-append visited ready h.once h.queued_once h.apart) all_known,
        )

    -- The loop ends with nothing ready, and has counted its visits.
    pub visit_all-IsSearch :
        (fuel : ℕ) (successors : String → List String) (visited ready : List String)
        (indegree : String → ℕ) (n : ℕ)
        → ((c : String) → successors c ≡ targets es c)
        → n ≡ length visited
        → length keys ≤ fuel + n
        → IsSearch keys es visited ready indegree []
        → (all : List String) × (left : String → ℕ) × IsSearch keys es all [] left []
          × (visit_all fuel successors ready indegree n ≡ length all)
    unfolding visit_all
    visit_all-IsSearch zero successors visited [] indegree n same e enough h =
        (visited, indegree, h, e)
    visit_all-IsSearch zero successors visited (c ∷ ready) indegree n same e enough h =
        absurd (omega (arith, room visited (c ∷ ready) indegree h))
    visit_all-IsSearch (suc fuel) successors visited [] indegree n same e enough h =
        (visited, indegree, h, e)
    visit_all-IsSearch (suc fuel) successors visited (c ∷ ready) indegree n same e enough h =
        let next = release_successors (successors c) ready indegree in
        visit_all-IsSearch fuel successors (c ∷ visited) next.0 next.1 (n + 1) same (omega arith)
          (omega arith)
          (IsSearch-release_all (c ∷ visited) ready indegree (successors c) (
            subst (IsSearch keys es (c ∷ visited) ready indegree) (sym (same c))
              (IsSearch-visit visited ready indegree c h)))
