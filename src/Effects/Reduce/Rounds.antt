-- ===== src/Effects/Reduce/Rounds.antt =====
-- The rounds of `reduce_effect_dag` end, at nodes whose states are those of the rule.
use desk_pilot_agent.Base.{
  ℕ, zero, suc, ◌≤◌, ◌<◌, String, ◌≡◌, refl, sym, subst, ap, ◌∙◌, Bool, true, false, ◌||◌, Option,
  none, some, List, [], ◌∷◌, length, is_some, if◌then◌else◌, arith, Bool-cases, inl, inr,
}
use desk_pilot_agent.Base.Text.{str_eq, eq_iff, eq_refl, mem}
use desk_pilot_agent.Base.Result.{ok, bind_ok, ok_injective}
use desk_pilot_agent.Tasks.Events.{Source}
use desk_pilot_agent.Effects.NodeStatus.{EffectNodeStatus, pending, is_pending}
use desk_pilot_agent.Effects.Dag.{EffectNode, EffectEdge, BranchDecision, EffectDag}
use desk_pilot_agent.Effects.Reduce.{reduce_node, reduce_nodes, reduce_rounds, node_ids}
use desk_pilot_agent.Effects.Reduce.Closure.{state, final_state, Reduces, Reduces-trans}
use desk_pilot_agent.Effects.Reduce.Turns.{
  SameFrame, SameFrame-refl, SameFrame-trans, Ends, Ends-Reduces, rule_state, ReducesIn, Turn,
  rests, ends, reduce_node-Turn,
}

-- The IDs at which a node is pending: each round but the last makes them fewer.
abbrev waits : Option EffectNodeStatus → Bool
waits none = false
waits (some s) = is_pending s

waiting : List String → List EffectNode → ℕ
waiting [] ns = 0
waiting (id ∷ ids) ns = let rest = waiting ids ns in if waits (state ns id) then suc rest else rest

waiting-le : (ids : List String) (ns : List EffectNode) → waiting ids ns ≤ length ids
unfolding waiting
waiting-le [] ns = omega arith
waiting-le (id ∷ ids) ns = ground (arith, waiting-le ids ns)

Turn-SameFrame : {d e : EffectDag} {id : String} {b : Bool} → Turn d id e b → SameFrame d e
Turn-SameFrame {d} (rests h) = SameFrame-refl d
Turn-SameFrame (ends s was rule np t) = t.frame

-- What the rule depends on besides the nodes.
abbrev Rule : Type 0
Rule = List EffectEdge × List BranchDecision × Bool

same_rule :
    {d e : EffectDag}
    → SameFrame d e
    → (let r : Rule = (e.edges, e.decisions, is_some e.graph.cancel_requested_at) in
        r ≡ (d.edges, d.decisions, is_some d.graph.cancel_requested_at))
same_rule frame = ground (arith, frame.edges, frame.decisions, frame.cancel)

pub rule-SameFrame :
    (d e : EffectDag) (ns : List EffectNode) (id : String)
    → SameFrame d e
    → rule_state e ns id ≡ rule_state d ns id
rule-SameFrame d e ns id frame = ap (λ (r : Rule). final_state r.0 r.1 r.2 ns id) (same_rule frame)

ReducesIn-refl : (d : EffectDag) → ReducesIn d d
ReducesIn-refl d id = inl refl

Turn-ReducesIn : {d e : EffectDag} {id : String} {b : Bool} → Turn d id e b → ReducesIn d e
Turn-ReducesIn {d} (rests h) = ReducesIn-refl d
Turn-ReducesIn {d} {e} {id} (ends s was rule np t) =
    Ends-Reduces d e id was (ground arith)
      (subst (λ (r : EffectNodeStatus). Ends d id r e) (sym rule) t)

ReducesIn-trans :
    (d e f : EffectDag) → SameFrame d e → ReducesIn d e → ReducesIn e f → ReducesIn d f
ReducesIn-trans d e f frame r q =
    Reduces-trans d.edges d.decisions (is_some d.graph.cancel_requested_at) d.nodes e.nodes f.nodes
      r (subst (λ (rule : Rule). Reduces rule.0 rule.1 rule.2 e.nodes f.nodes) (same_rule frame) q)

-- Every node of a list whose state is pending is to stay so.
abbrev pub Quiet : EffectDag → List String → Type 0
Quiet d ids =
    (id : String)
    → mem id ids ≡ true
    → state d.nodes id ≡ some pending
    → rule_state d d.nodes id ≡ pending

-- A turn leaves no more nodes pending, and fewer if it changes one of the list.
waiting-Ends :
    (d e : EffectDag) (id : String) (s : EffectNodeStatus) (ids : List String)
    → state d.nodes id ≡ some pending
    → is_pending s ≡ false
    → Ends d id s e
    → (waiting ids e.nodes ≤ waiting ids d.nodes)
      × (mem id ids ≡ true → waiting ids e.nodes < waiting ids d.nodes)
unfolding waiting mem
waiting-Ends d e id s [] was np t = (omega arith, λ m. absurd (ground arith))
waiting-Ends d e id s (j ∷ js) was np t =
    let (le, lt) = waiting-Ends d e id s js was np t in
    elim (Bool-cases (str_eq id j)) [
      | inl here ↦
          let same : id ≡ j = (eq_iff id j).0 here in
          let was_j : state d.nodes j ≡ some pending =
            subst (λ (i : String). state d.nodes i ≡ some pending) same was in
          let now : state e.nodes j ≡ some s = t.states j ∙ rw here refl in
          (ground arith, λ m. ground arith)
      | inr other ↦
          let now : state e.nodes j ≡ state d.nodes j = t.states j ∙ rw other refl in
          (ground arith, λ m. ground (arith, lt))
    ]

-- What a round leads to: it changes nothing and there is nothing to change, or fewer nodes wait.
record RoundEnds (all ids : List String) (d e : EffectDag) (before after : Bool) : Type 0 where
  frame : SameFrame d e
  reduces : ReducesIn d e
  fewer_or_same : waiting all e.nodes ≤ waiting all d.nodes
  quiet : after ≡ false → (e ≡ d) × Quiet d ids
  progress : before ≡ false → after ≡ true → waiting all e.nodes < waiting all d.nodes
  keeps : before ≡ true → after ≡ true

round_step :
    (all : List String) (id : String) (ids : List String) (d m e : EffectDag)
    (before changed after : Bool)
    → mem id all ≡ true
    → Turn d id m changed
    → RoundEnds all ids m e (before || changed) after
    → RoundEnds all (id ∷ ids) d e before after
unfolding mem
round_step all id ids d m e before changed after known (rests h) next = record {
  frame = next.frame;
  reduces = next.reduces;
  fewer_or_same = next.fewer_or_same;
  quiet = λ f.
      let (same, q) = next.quiet f in
      (
        same,
        λ j k p. elim (Bool-cases (str_eq j id)) [
          | inl here ↦
              subst
                (λ (i : String). state d.nodes i ≡ some pending → rule_state d d.nodes i ≡ pending)
                (sym ((eq_iff j id).0 here)) h p
          | inr other ↦ q j (ground arith) p
        ],
      );
  progress = λ f. next.progress (ground arith);
  keeps = λ t. next.keeps (ground arith);
}
round_step all id ids d m e before changed after known (ends s was rule np t) next =
    let (le, lt) = waiting-Ends d m id s all was np t in
    record {
      frame = SameFrame-trans t.frame next.frame;
      reduces = ReducesIn-trans d m e t.frame (Turn-ReducesIn (ends s was rule np t)) next.reduces;
      fewer_or_same = omega (arith, next.fewer_or_same);
      quiet = λ f. absurd (ground (arith, next.keeps));
      progress = λ f g. omega (arith, next.fewer_or_same, lt known);
      keeps = λ b. next.keeps (ground arith);
    }

module _ (source : Source) (owner : String) (token at : ℕ) where
  round_ends :
      (all ids : List String) (d e : EffectDag) (before after : Bool)
      → ((j : String) → mem j ids ≡ true → mem j all ≡ true)
      → reduce_nodes source owner token at ids d before ≡ ok (e, after)
      → RoundEnds all ids d e before after
  unfolding reduce_nodes mem
  round_ends all [] d e before after sub h =
      subst (λ (r : EffectDag × Bool). RoundEnds all [] d r.0 before r.1) (ok_injective h)
        (record {
          frame = SameFrame-refl d;
          reduces = ReducesIn-refl d;
          fewer_or_same = omega arith;
          quiet = λ _. (refl, λ j m. cc);
          progress = λ f t. cc;
          keeps = λ t. t;
        })
  round_ends all (id ∷ ids) d e before after sub h =
      let ((m, changed), turned, rest) = bind_ok (reduce_node source owner token at d id) _ h in
      let turn = reduce_node-Turn source owner token at d m id changed turned in
      let next =
        round_ends all ids m e (before || changed) after (λ j k. sub j (ground arith)) rest in
      round_step all id ids d m e before changed after (sub id (ground (arith, eq_refl id))) turn
        next

  -- With a round more than nodes that wait, the loop ends by itself, and leaves nothing to change.
  rounds_end :
      (fuel : ℕ) (ids : List String) (d e : EffectDag)
      → waiting ids d.nodes < fuel
      → reduce_rounds source owner token at fuel ids d ≡ ok e
      → SameFrame d e × ReducesIn d e × Quiet e ids
  unfolding reduce_rounds
  rounds_end zero ids d e lt h = absurd (omega (arith, lt))
  rounds_end (suc fuel) ids d e lt h =
      let ((m, changed), round, rest) =
        bind_ok (reduce_nodes source owner token at ids d false) _ h in
      let once = round_ends ids ids d m false changed (λ j k. k) round in
      elim (Bool-cases changed) [
        | inl more ↦
            let fewer : waiting ids m.nodes < fuel = omega (arith, once.progress refl more) in
            let (frame, reduces, quiet) = rounds_end fuel ids m e fewer (rw more at rest) in
            (
              SameFrame-trans once.frame frame,
              ReducesIn-trans d m e once.frame once.reduces reduces,
              quiet,
            )
        | inr last ↦
            let (same, quiet) = once.quiet last in
            let kept : m ≡ e = ok_injective (rw last at rest) in
            subst (λ (x : EffectDag). SameFrame d x × ReducesIn d x × Quiet x ids) kept
              (once.frame, once.reduces, subst (λ (x : EffectDag). Quiet x ids) (sym same) quiet)
      ]

  length-node_ids : (ns : List EffectNode) → length (node_ids ns) ≡ length ns
  length-node_ids [] = refl
  length-node_ids (n ∷ ns) = omega (arith, length-node_ids ns)

  -- The rounds that a reduction is given are enough.
  pub enough_rounds :
      (d e : EffectDag)
      → reduce_rounds source owner token at (suc (length d.nodes)) (node_ids d.nodes) d ≡ ok e
      → SameFrame d e × ReducesIn d e × Quiet e (node_ids d.nodes)
  enough_rounds d e h =
      rounds_end (suc (length d.nodes)) (node_ids d.nodes) d e
        (omega (arith, waiting-le (node_ids d.nodes) d.nodes, length-node_ids d.nodes)) h
