-- ===== src/Effects/Compensation/Waves.antt =====
-- The waves of a compensation plan: they hold each node once, in the reverse of the order of
-- dependencies, and they exist exactly where there is such an order.
use desk_pilot_agent.Base.{
  ℕ, zero, suc, ◌≤◌, ◌<◌, String, ◌≡◌, refl, subst, ◌∙◌, Bool, true, false, not, ◌&&◌, List, [],
  ◌∷◌, ◌++◌, length, length-keep-le, keep, ltb, any_of, if◌then◌else◌, arith, All, Bool-cases, ◌⊎◌,
  inl, inr,
}
use desk_pilot_agent.Base.Text.{str_eq, eq_iff, eq_refl, mem}
use desk_pilot_agent.Base.Text.Unique.{unique, mem-append, mem-keep, unique-keep, unique-append}
use desk_pilot_agent.Base.Result.{ok, ok_injective, map_result_ok}
use desk_pilot_agent.Effects.Dag.{EffectDag, EffectEdge, compensation_order}
use desk_pilot_agent.Effects.Reduce.{node_ids, is_forward}
use desk_pilot_agent.Effects.Compensation.{
  wave, is_empty, plan_waves, selected_nodes, follows, waves_of,
}

-- The nodes of the waves, in order, and the number of a node's wave.
unfoldable pub flatten : List (List String) → List String
flatten [] = []
flatten (w ∷ ws) = w ++ flatten ws

unfoldable pub wave_number : String → List (List String) → ℕ
wave_number id [] = 0
wave_number id (w ∷ ws) = let rest = wave_number id ws in if mem id w then 0 else suc rest

pub nonempty : (c : String) (xs : List String) → mem c xs ≡ true → is_empty xs ≡ false
unfolding mem
nonempty c [] m = cc
nonempty c (x ∷ xs) m = refl

module _ (follows : String → String → Bool) where
  any_follows :
      (a b : String) (xs : List String)
      → mem b xs ≡ true
      → follows a b ≡ true
      → any_of (follows a) xs ≡ true
  unfolding any_of mem
  any_follows a b [] m f = cc
  any_follows a b (x ∷ xs) m f = ground (arith, any_follows a b xs, eq_iff b x)

  -- The nodes that are left after a wave.
  abbrev left : List String → List String
  left xs = keep (λ id. not (mem id (wave follows xs))) xs

  mem-wave :
      (id : String) (xs : List String)
      → mem id (wave follows xs) ≡ (mem id xs && not (any_of (follows id) xs))
  unfolding wave
  mem-wave id xs = mem-keep (λ j. not (any_of (follows j) xs)) id xs

  mem-left :
      (id : String) (xs : List String)
      → mem id (left xs) ≡ (mem id xs && not (mem id (wave follows xs)))
  mem-left id xs = mem-keep (λ j. not (mem j (wave follows xs))) id xs

  -- The waves hold each of the nodes once.
  abbrev pub Planned : List String → List (List String) → Type 0
  Planned xs ws =
      ((id : String) → mem id (flatten ws) ≡ mem id xs)
      × (unique xs ≡ true → unique (flatten ws) ≡ true)
      × ((a b : String)
          → mem a xs ≡ true
          → mem b xs ≡ true
          → follows a b ≡ true
          → wave_number b ws < wave_number a ws)

  wave-unique : (xs : List String) → unique xs ≡ true → unique (wave follows xs) ≡ true
  unfolding wave
  wave-unique xs u = unique-keep (λ j. not (any_of (follows j) xs)) xs u

  Planned-wave :
      (xs : List String) (ws : List (List String))
      → Planned (left xs) ws
      → Planned xs (wave follows xs ∷ ws)
  unfolding flatten wave_number
  Planned-wave xs ws (members, once, order) = (
    λ id.
        mem-append id (wave follows xs) (flatten ws)
        ∙ ground (arith, members id, mem-left id xs, mem-wave id xs),
    λ u.
        unique-append (wave follows xs) (flatten ws) (wave-unique xs u)
          (once (unique-keep (λ j. not (mem j (wave follows xs))) xs u))
          (λ c m. ground (arith, members c, mem-left c xs)),
    λ a b ma mb f.
        ground
          (arith, any_follows a b xs mb f, mem-wave a xs, mem-left a xs, mem-left b xs, order a b),
  )

  Planned-nil : Planned [] []
  unfolding flatten unique mem
  Planned-nil = (λ id. refl, λ u. refl, λ a b ma mb f. cc)

  pub plan_waves-Planned :
      (fuel : ℕ) (xs : List String) (ws : List (List String))
      → plan_waves fuel follows xs ≡ ok ws
      → Planned xs ws
  unfolding plan_waves
  plan_waves-Planned fuel [] ws h = subst (Planned []) (ok_injective h) Planned-nil
  plan_waves-Planned zero (x ∷ xs) ws h = absurd (ground arith)
  plan_waves-Planned (suc fuel) (x ∷ xs) ws h =
      elim (Bool-cases (is_empty (wave follows (x ∷ xs)))) [
        | inl stuck ↦ absurd (ground arith)
        | inr some_ready ↦
            let (rest, planned, made) =
              map_result_ok (◌∷◌ (wave follows (x ∷ xs))) (plan_waves fuel follows (left (x ∷ xs)))
                (rw some_ready at h) in
            subst (Planned (x ∷ xs)) made
              (Planned-wave (x ∷ xs) rest (plan_waves-Planned fuel (left (x ∷ xs)) rest planned))
      ]

  -- A test that a member fails leaves fewer.
  length-keep-lt :
      (p : String → Bool) (c : String) (xs : List String)
      → mem c xs ≡ true
      → p c ≡ false
      → length (keep p xs) < length xs
  unfolding keep mem
  length-keep-lt p c [] m f = cc
  length-keep-lt p c (x ∷ xs) m f =
      ground (arith, length-keep-lt p c xs, length-keep-le p xs, eq_iff c x)

  -- Among some nodes one stands highest.
  highest :
      (rank : String → ℕ) (x : String) (xs : List String)
      → (t : String) × (mem t (x ∷ xs) ≡ true)
        × ((y : String) → mem y (x ∷ xs) ≡ true → rank y ≤ rank t)
  unfolding mem
  highest rank x [] = (x, ground (arith, eq_refl x), λ y m. ground (arith, eq_iff y x))
  highest rank x (z ∷ zs) =
      let (t, known, top) = highest rank z zs in
      elim (Bool-cases (ltb (rank t) (rank x))) [
        | inl above ↦ (x, ground (arith, eq_refl x), λ y m. ground (arith, top y, eq_iff y x))
        | inr below ↦ (t, ground (arith, known), λ y m. ground (arith, top y, eq_iff y x))
      ]

  -- Nothing follows a node that stands highest.
  none_follow :
      (rank : String → ℕ) (t : String) (xs : List String)
      → ((a b : String) → mem a xs ≡ true → follows a b ≡ true → rank a < rank b)
      → mem t xs ≡ true
      → ((y : String) → mem y xs ≡ true → rank y ≤ rank t)
      → any_of (follows t) xs ≡ false
  unfolding any_of mem
  none_follow rank t xs ranked known top = none_of xs (λ y m. m)
    where
      none_of :
          (ys : List String)
          → ((y : String) → mem y ys ≡ true → mem y xs ≡ true)
          → any_of (follows t) ys ≡ false
      none_of [] sub = refl
      none_of (y ∷ ys) sub = ground (
        arith,
        ranked t y known,
        top y (sub y (ground (arith, eq_refl y))),
        none_of ys (λ z m. sub z (ground arith)),
      )

  pub plan_exists :
      (rank : String → ℕ) (fuel : ℕ) (xs : List String)
      → ((a b : String) → mem a xs ≡ true → follows a b ≡ true → rank a < rank b)
      → length xs ≤ fuel
      → (ws : List (List String)) × (plan_waves fuel follows xs ≡ ok ws)
  unfolding plan_waves
  plan_exists rank fuel [] ranked le = ([], refl)
  plan_exists rank zero (x ∷ xs) ranked le = absurd (omega (arith, le))
  plan_exists rank (suc fuel) (x ∷ xs) ranked le =
      let (t, known, top) = highest rank x xs in
      let ready : mem t (wave follows (x ∷ xs)) ≡ true =
        ground (arith, mem-wave t (x ∷ xs), none_follow rank t (x ∷ xs) ranked known top) in
      let fewer =
        length-keep-lt (λ id. not (mem id (wave follows (x ∷ xs)))) t (x ∷ xs) known
          (ground arith) in
      let (ws, planned) =
        plan_exists rank fuel (left (x ∷ xs))
          (λ a b m f. ranked a b (ground (arith, mem-left a (x ∷ xs))) f)
          (omega (arith, le, fewer)) in
      (wave follows (x ∷ xs) ∷ ws, rw (nonempty t (wave follows (x ∷ xs)) ready, planned) refl)

-- An edge that leads forward from one of the nodes to another has its target in an earlier wave.
abbrev pub Undone : List String → List (List String) → EffectEdge → Type 0
Undone ids ws e =
    (e.kind ≡ compensation_order)
    ⊎ (mem e.from_node_id ids ≡ false)
    ⊎ (mem e.to_node_id ids ≡ false)
    ⊎ (wave_number e.to_node_id ws < wave_number e.from_node_id ws)

abbrev leads : String → String → EffectEdge → Bool
leads a b e = is_forward e.kind && str_eq e.from_node_id a && str_eq e.to_node_id b

own_edge :
    (e : EffectEdge) (l : List EffectEdge)
    → (e.kind ≡ compensation_order) ⊎ (any_of (leads e.from_node_id e.to_node_id) (e ∷ l) ≡ true)
unfolding any_of
own_edge e l = ground (arith, eq_refl e.from_node_id, eq_refl e.to_node_id)

edges-Undone :
    (edges : List EffectEdge) (ids : List String) (ws : List (List String)) (l : List EffectEdge)
    → ((a b : String) → follows edges ids a b ≡ true → wave_number b ws < wave_number a ws)
    → ((a b : String) → any_of (leads a b) l ≡ true → any_of (leads a b) edges ≡ true)
    → All (Undone ids ws) l
unfolding follows any_of
edges-Undone edges ids ws [] order sub = tt
edges-Undone edges ids ws (e ∷ l) order sub = (
  elim (own_edge e l) [
    | inl back ↦ inl back
    | inr leading ↦
        inr (
          ground
            (arith, sub e.from_node_id e.to_node_id leading, order e.from_node_id e.to_node_id))
  ],
  edges-Undone edges ids ws l order (λ a b m. sub a b (ground (arith, m))),
)

-- Where the IDs of the selected nodes are distinct, the waves of a plan hold exactly the selected
-- nodes, each once, and of every edge that leads forward between two of them, the node it leads to
-- stands in an earlier wave than the node it comes from.
pub waves_of-order :
    (d : EffectDag) (ws : List (List String))
    → waves_of d ≡ ok ws
    → unique (node_ids (selected_nodes d.nodes)) ≡ true
    → ((id : String) → mem id (flatten ws) ≡ mem id (node_ids (selected_nodes d.nodes)))
      × (unique (flatten ws) ≡ true)
      × All (Undone (node_ids (selected_nodes d.nodes)) ws) d.edges
unfolding waves_of follows
waves_of-order d ws h u =
    let ids = node_ids (selected_nodes d.nodes) in
    let (members, once, order) = plan_waves-Planned (follows d.edges ids) (length ids) ids ws h in
    (
      members,
      once u,
      edges-Undone d.edges ids ws d.edges (λ a b f. order a b (ground arith) (ground arith) f)
          (λ a b m. m),
    )
