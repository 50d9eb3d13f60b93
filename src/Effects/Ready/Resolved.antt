-- ===== src/Effects/Ready/Resolved.antt =====
-- How the open branches of a node are counted, before and after a decision.
use desk_pilot_agent.Base.{
  ℕ, suc, ◌+◌, String, ◌≡◌, refl, sym, ◌∙◌, Bool, true, not, ◌&&◌, ◌||◌, Option, none, some, List,
  [], ◌∷◌, ◌++◌, keep, any_of, is_some, length, if◌then◌else◌, arith, Option-cases, Bool-cases, inl,
  inr,
}
use desk_pilot_agent.Base.Text.{str_eq, eq_iff, opt_eq}
use desk_pilot_agent.Base.Result.{ok, map_result_ok}
use desk_pilot_agent.Effects.Dag.{EffectEdge, BranchDecision}
use desk_pilot_agent.Effects.Decisions.{decided}
use desk_pilot_agent.Effects.Ready.{count_branch, branches_of}

-- The decision on an edge, of one decision more.
decided-append :
    (ds : List BranchDecision) (r : BranchDecision) (id key : String)
    → decided (ds ++ r ∷ []) id key ≡ (
        if str_eq r.source_node_id id && str_eq r.decision_key key
        then some r.outcome
        else decided ds id key)
unfolding decided
decided-append [] r id key = ground arith
decided-append (d ∷ ds) r id key = ground (arith, decided-append ds r id key)

-- An edge is governed by a decision.
unfoldable pub governs : BranchDecision → EffectEdge → Bool
governs r e = str_eq e.from_node_id r.source_node_id && opt_eq e.decision_key (some r.decision_key)

-- An edge waits for another outcome.
unfoldable pub turns_down : BranchDecision → EffectEdge → Bool
turns_down r e = not (opt_eq e.expected_outcome (some r.outcome))

unfoldable pub governed_count : BranchDecision → List EffectEdge → ℕ
governed_count r es = length (keep (governs r) es)

unfoldable pub turned_down : BranchDecision → List EffectEdge → Bool
turned_down r es = any_of (turns_down r) (keep (governs r) es)

opt_eq_sym : (a b : Option String) → opt_eq a b ≡ opt_eq b a
unfolding opt_eq
opt_eq_sym none none = refl
opt_eq_sym none (some b) = refl
opt_eq_sym (some a) none = refl
opt_eq_sym (some a) (some b) = ground (arith, eq_iff a b, eq_iff b a)

-- One edge of the count, both ways.
pub branch_step :
    (ds : List BranchDecision) (e : EffectEdge) (es : List EffectEdge) (x : ℕ × Bool)
    → branches_of ds (e ∷ es) ≡ ok x
    → (key : String) × (rest : ℕ × Bool) × (e.decision_key ≡ some key)
      × (is_some e.expected_outcome ≡ true)
      × (branches_of ds es ≡ ok rest)
      × (count_branch (decided ds e.from_node_id key) e.expected_outcome rest ≡ x)
unfolding branches_of
branch_step ds e es x h = elim (Option-cases e.decision_key) [
  | inl missing ↦ absurd (ground arith)
  | inr (key, found) ↦ elim (Bool-cases (is_some e.expected_outcome)) [
    | inl there ↦
        let (rest, counted, same) =
          map_result_ok (count_branch (decided ds e.from_node_id key) e.expected_outcome)
            (branches_of ds es) (rw (branches_of, found, there) at h) in
        (key, rest, found, there, counted, same)
    | inr missing ↦ absurd (ground arith)
  ]
]

step_branch :
    (ds : List BranchDecision) (e : EffectEdge) (es : List EffectEdge) (key : String)
    (rest : ℕ × Bool)
    → e.decision_key ≡ some key
    → is_some e.expected_outcome ≡ true
    → branches_of ds es ≡ ok rest
    → branches_of ds (e ∷ es)
      ≡ ok (count_branch (decided ds e.from_node_id key) e.expected_outcome rest)
unfolding branches_of
step_branch ds e es key rest found there counted = rw (branches_of, found, there, counted) refl

governed_step :
    (r : BranchDecision) (e : EffectEdge) (es : List EffectEdge)
    → (governed_count r (e ∷ es)
        ≡ (if governs r e then suc (governed_count r es) else governed_count r es))
      × (turned_down r (e ∷ es)
          ≡ (if governs r e then turns_down r e || turned_down r es else turned_down r es))
unfolding governed_count turned_down keep any_of
governed_step r e es = elim (Bool-cases (governs r e)) [
  | inl own ↦ (rw own refl, rw own refl)
  | inr other ↦ (rw other refl, rw other refl)
]

-- What a decision changes at an edge with a key.
governs_key :
    (r : BranchDecision) (e : EffectEdge) (key : String)
    → e.decision_key ≡ some key
    → governs r e ≡ (str_eq r.source_node_id e.from_node_id && str_eq r.decision_key key)
unfolding governs opt_eq
governs_key r e key found = rw found (
    ground (
      arith,
      eq_iff e.from_node_id r.source_node_id,
      eq_iff r.source_node_id e.from_node_id,
      eq_iff key r.decision_key,
      eq_iff r.decision_key key,
    ))

was_fresh :
    (ds : List BranchDecision) (r : BranchDecision) (id key : String)
    → decided ds r.source_node_id r.decision_key ≡ none
    → (str_eq r.source_node_id id && str_eq r.decision_key key) ≡ true
    → decided ds id key ≡ none
was_fresh ds r id key fresh same =
    let source : r.source_node_id ≡ id = (eq_iff r.source_node_id id).0 (ground arith) in
    let name : r.decision_key ≡ key = (eq_iff r.decision_key key).0 (ground arith) in
    rw (← source, ← name) fresh

-- An edge that the decision governs, and one that it does not.
own_branch :
    (r : BranchDecision) (e : EffectEdge) (u left c unresolved : ℕ) (b rejected down : Bool)
    → count_branch none e.expected_outcome (u, b) ≡ (unresolved, rejected)
    → left + c ≡ u
    → (count_branch (some r.outcome) e.expected_outcome (left, down || b)
        ≡ (left, (turns_down r e || down) || rejected))
      × (left + suc c ≡ unresolved)
unfolding turns_down
own_branch r e u left c unresolved b rejected down h balance =
    rw (opt_eq_sym e.expected_outcome (some r.outcome)) (ground arith, ground arith)

other_branch :
    (o expected : Option String) (u left c unresolved : ℕ) (b rejected down : Bool)
    → count_branch o expected (u, b) ≡ (unresolved, rejected)
    → left + c ≡ u
    → (l : ℕ) × (count_branch o expected (left, down || b) ≡ (l, down || rejected))
      × (l + c ≡ unresolved)
other_branch none expected u left c unresolved b rejected down h balance =
    (suc left, ground arith, ground arith)
other_branch (some a) expected u left c unresolved b rejected down h balance =
    (left, ground arith, ground arith)

-- The edges that a new decision governs are no more unresolved, and may reject the node.
pub settled_count :
    (ds : List BranchDecision) (r : BranchDecision)
    → decided ds r.source_node_id r.decision_key ≡ none
    → (es : List EffectEdge) (unresolved : ℕ) (rejected : Bool)
    → branches_of ds es ≡ ok (unresolved, rejected)
    → (left : ℕ) × (branches_of (ds ++ r ∷ []) es ≡ ok (left, turned_down r es || rejected))
      × (left + governed_count r es ≡ unresolved)
unfolding branches_of governed_count turned_down keep any_of
settled_count ds r fresh [] unresolved rejected h = (0, ground arith, ground arith)
settled_count ds r fresh (e ∷ es) unresolved rejected h =
    let (key, (u, b), found, there, counted, same) = branch_step ds e es (unresolved, rejected) h in
    let (left, settled, balance) = settled_count ds r fresh es u b counted in
    let down = turned_down r es in
    let step = step_branch (ds ++ r ∷ []) e es key (left, down || b) found there settled in
    let grown = decided-append ds r e.from_node_id key in
    let (count, turned) = governed_step r e es in
    elim (Bool-cases (governs r e)) [
      | inl own ↦
          let o : decided ds e.from_node_id key ≡ none =
            was_fresh ds r e.from_node_id key fresh (sym (governs_key r e key found) ∙ own) in
          let o' : decided (ds ++ r ∷ []) e.from_node_id key ≡ some r.outcome =
            grown ∙ rw (sym (governs_key r e key found) ∙ own) refl in
          let (now, left_now) =
            own_branch r e u left (governed_count r es) unresolved b rejected down (rw o at same)
              balance in
          (left, step ∙ rw (o', now, turned, own) refl, rw (count, own) left_now)
      | inr other ↦
          let o' : decided (ds ++ r ∷ []) e.from_node_id key ≡ decided ds e.from_node_id key =
            grown ∙ rw (sym (governs_key r e key found) ∙ other) refl in
          let (l, now, left_now) =
            other_branch (decided ds e.from_node_id key) e.expected_outcome u left
              (governed_count r es) unresolved b rejected down same balance in
          (l, step ∙ rw (o', now, turned, other) refl, rw (count, other) left_now)
    ]
