-- ===== src/Admission/Fuel.antt =====
-- The outer loop of `_drain_locked` ends, and the rounds that it is given are enough.
use desk_pilot_agent.Base.{
  ℕ, zero, suc, ◌+◌, ◌≤◌, String, ◌≡◌, refl, false, not, ◌||◌, List, ltb, length, arith, Bool-cases,
  inl, inr,
}
use desk_pilot_agent.Admission.State.{Limits, Controller}
use desk_pilot_agent.Admission.Controller.{
  Turn, passed, granted_to, scan, add_waiter, is_empty_ring, grant_all,
}
use desk_pilot_agent.Admission.Limits.{IsWithin, Counted, scan-IsWithin, Turn-cases}

granted_total :
    (k : ℕ) (t : Turn × Controller) {g : String} {id : ℕ}
    → t.0 ≡ granted_to g id
    → Counted k t
    → t.1.active_total ≡ k + 1
granted_total k (passed, c) h e = cc
granted_total k (granted_to g id, c) h e = e

-- More rounds than there are free slots change nothing: for a controller within its limits, the
-- loop has ended by itself when the rounds that `_drain_locked` is modelled with are used up.
pub grant_all_enough :
    (n m : ℕ) (l : Limits) (c : Controller) (ws : List (String × ℕ))
    → l.global_limit ≤ c.active_total + n
    → n ≤ m
    → IsWithin l c
    → grant_all m l c ws ≡ grant_all n l c ws
unfolding grant_all
grant_all_enough zero zero l c ws h le w = refl
grant_all_enough zero (suc m) l c ws h le w =
    let full : ltb c.active_total l.global_limit ≡ false = ground arith in rw full refl
grant_all_enough (suc n) zero l c ws h le w = absurd (omega (arith, le))
grant_all_enough (suc n) (suc m) l c ws h le w =
    elim (Bool-cases (not (ltb c.active_total l.global_limit) || is_empty_ring c.graph_ring)) [
      | inl stop ↦ rw stop refl
      | inr more ↦
          let t : Turn × Controller = scan (length c.graph_ring) l c in
          let (within, counted) = scan-IsWithin (length c.graph_ring) l c (ground arith) w in
          elim (Turn-cases t.0) [
            | inl nothing ↦ rw (more, nothing) refl
            | inr (g, id, granted) ↦
                let grown : t.1.active_total ≡ c.active_total + 1 =
                  granted_total c.active_total t granted counted in
                rw (more, granted)
                  (grant_all_enough n m l t.1 (add_waiter g id ws) (omega (arith, h, grown))
                    (omega (arith, le)) within)
          ]
    ]
