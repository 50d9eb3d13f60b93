-- ===== src/Admission/Limits.antt =====
-- The admission never exceeds its limits.
use desk_pilot_agent.Base.{
  ℕ, zero, suc, ◌+◌, ◌≤◌, ◌<◌, String, ◌≡◌, refl, subst, some, List, [], ◌∷◌, ◌++◌, ltb, leb, arith,
  Bool-cases, Option-cases, inl, inr, ◌⊎◌,
}
use desk_pilot_agent.Base.Text.{str_eq}
use desk_pilot_agent.Base.Text.Sets.{eq_of_str_eq}
use desk_pilot_agent.Base.Result.{Result}
use desk_pilot_agent.Admission.State.{
  Limits, tool_limit, AdmissionRequest, Waiter, Counts, set_count, Controller, get_queue,
}
use desk_pilot_agent.Admission.Controller.{
  first_grantable, skipping, grant, Turn, passed, granted_to, offer_request, offer, turned, turn,
  resume, scan,
}

-- The work that is running is within the three limits.
abbrev pub IsWithin : Limits → Controller → Type 0
IsWithin l c =
    (c.active_total ≤ l.global_limit)
    × ((g : String) → c.active_by_graph g ≤ l.per_graph_limit)
    × ((t : String) → c.active_by_tool t ≤ tool_limit l t)

set_count_le :
    (bound counts : Counts) (key : String) (n : ℕ)
    → ((k : String) → counts k ≤ bound k)
    → n ≤ bound key
    → (k : String) → set_count key n counts k ≤ bound k
unfolding set_count
set_count_le bound counts key n h low k = elim (Bool-cases (str_eq k key)) [
  | inl same ↦ rw (same, eq_of_str_eq k key same) low
  | inr other ↦ rw other (h k)
]

first_grantable_free :
    (l : Limits) (by_tool : Counts) (rs : List AdmissionRequest) {r : AdmissionRequest}
    {rest : List AdmissionRequest}
    → first_grantable l by_tool rs ≡ some (r, rest)
    → by_tool r.tool_name < tool_limit l r.tool_name
unfolding first_grantable skipping
first_grantable_free l by_tool [] h = cc
first_grantable_free l by_tool (s ∷ rs) {r} {rest} h =
    elim (Bool-cases (ltb (by_tool s.tool_name) (tool_limit l s.tool_name))) [
      | inl free ↦
          let same : s ≡ r = ground arith in
          subst (λ (q : AdmissionRequest). by_tool q.tool_name < tool_limit l q.tool_name) same
            (ground arith)
      | inr full ↦ elim (Option-cases (first_grantable l by_tool rs)) [
        | inl nothing ↦ absurd (ground arith)
        | inr ((q, others), found) ↦
            let same : q ≡ r = ground arith in
            subst (λ (q : AdmissionRequest). by_tool q.tool_name < tool_limit l q.tool_name) same
              (first_grantable_free l by_tool rs {r = q} {rest = others} found)
      ]
    ]

grant-IsWithin :
    (l : Limits) (c : Controller) (graph : String) (w : Waiter) (ws : List Waiter)
    (r : AdmissionRequest)
    → (remaining : List AdmissionRequest) → c.active_total < l.global_limit
    → c.active_by_graph graph < l.per_graph_limit
    → c.active_by_tool r.tool_name < tool_limit l r.tool_name
    → IsWithin l c
    → IsWithin l (grant c graph w ws r remaining)
unfolding grant
grant-IsWithin l c graph w ws r remaining total by_graph by_tool h = (
  omega (arith, total),
  set_count_le (λ _. l.per_graph_limit) c.active_by_graph graph _ h.1 (omega (arith, by_graph)),
  set_count_le (tool_limit l) c.active_by_tool r.tool_name _ h.2 (omega (arith, by_tool)),
)

-- A turn keeps the limits, and its total grows by one exactly if it grants.
abbrev pub Counted : ℕ → Turn × Controller → Type 0
Counted n (passed, c) = c.active_total ≡ n
Counted n (granted_to g id, c) = c.active_total ≡ n + 1

offer-IsWithin :
    (l : Limits) (c : Controller) (graph : String) (queue : List Waiter)
    → c.active_total < l.global_limit
    → IsWithin l c
    → IsWithin l (offer l c graph queue).1 × Counted c.active_total (offer l c graph queue)
unfolding offer offer_request grant
offer-IsWithin l c graph [] total h = (h, refl)
offer-IsWithin l c graph (w ∷ ws) total h =
    elim (Bool-cases (leb l.per_graph_limit (c.active_by_graph graph))) [
      | inl full ↦ rw full (h, refl)
      | inr free ↦ elim (Option-cases (first_grantable l c.active_by_tool w.remaining)) [
        | inl nothing ↦ rw (free, nothing) (h, refl)
        | inr ((r, rest), found) ↦
            rw (free, found)
              (
                grant-IsWithin l c graph w ws r rest total (ground arith)
                    (first_grantable_free l c.active_by_tool w.remaining found) h,
                refl,
              )
      ]
    ]

offer-turned :
    (l : Limits) (c : Controller) (graph : String) (rest : List String) (queue : List Waiter)
    → c.active_total < l.global_limit
    → IsWithin l c
    → IsWithin l (offer l (turned c graph rest queue) graph queue).1
      × Counted c.active_total (offer l (turned c graph rest queue) graph queue)
unfolding turned
offer-turned l c graph rest [] total h =
    offer-IsWithin l (record c { graph_ring = rest }) graph [] total h
offer-turned l c graph rest (w ∷ ws) total h =
    offer-IsWithin l (record c { graph_ring = rest ++ graph ∷ [] }) graph (w ∷ ws) total h

turn-IsWithin :
    (l : Limits) (c : Controller) (ring : List String)
    → c.active_total < l.global_limit
    → IsWithin l c
    → IsWithin l (turn l c ring).1 × Counted c.active_total (turn l c ring)
unfolding turn
turn-IsWithin l c [] total h = (h, refl)
turn-IsWithin l c (graph ∷ rest) total h =
    offer-turned l c graph rest (get_queue graph c.queues) total h

resumed :
    (l : Limits) (k : ℕ) (t rest : Turn × Controller)
    → IsWithin l t.1 × Counted k t
    → (t.1.active_total ≡ k → IsWithin l rest.1 × Counted k rest)
    → IsWithin l (resume t rest).1 × Counted k (resume t rest)
unfolding resume
resumed l k (passed, c) rest (w, counted) f = f counted
resumed l k (granted_to g id, c) rest h f = h

pub scan-IsWithin :
    (n : ℕ) (l : Limits) (c : Controller)
    → c.active_total < l.global_limit
    → IsWithin l c
    → IsWithin l (scan n l c).1 × Counted c.active_total (scan n l c)
unfolding scan
scan-IsWithin zero l c total h = (h, refl)
scan-IsWithin (suc n) l c total h =
    let t : Turn × Controller = turn l c c.graph_ring in
    let first = turn-IsWithin l c c.graph_ring total h in
    resumed l c.active_total t (scan n l t.1) first (λ e.
      let (within, counted) = scan-IsWithin n l t.1 (rw e total) first.0 in
      (within, subst (λ k. Counted k (scan n l t.1)) e counted))

pub Turn-cases : (t : Turn) → (t ≡ passed) ⊎ ((g : String) × (id : ℕ) × (t ≡ granted_to g id))
Turn-cases passed = inl refl
Turn-cases (granted_to g id) = inr (g, id, refl)
