-- ===== src/Effects/Admissions.antt =====
-- backend/src/deskpilot/application/task_service.py: the proofs of admission that a claim of nodes
-- carries, `EffectDagAdmissionProof`, and `_fence_effect_dag_admission_proofs`.
use desk_pilot_agent.Base.{
  ℕ, ◌+◌, String, Bool, not, ◌&&◌, ◌==◌, Option, none, some, List, [], ◌∷◌, map, ltb, any_of,
  if◌then◌else◌,
}
use desk_pilot_agent.Base.Text.{str_eq, same_set}
use desk_pilot_agent.Base.Result.{Result, ok, err, ◌>>=◌, ◌>>◌, raise_if}
use desk_pilot_agent.Effects.Dag.{AdmissionRow, EffectError, key_error, admission_rejected}

pub record AdmissionProof : Type 0 where
  pub admission_id : String
  pub owner_id : String
  pub fencing_token : ℕ

-- A mapping from node IDs to proofs.
abbrev pub Proofs : Type 0
Proofs = List (String × AdmissionProof)

find_proof : String → Proofs → Option AdmissionProof
find_proof id [] = none
find_proof id ((k, p) ∷ ps) = if str_eq k id then some p else find_proof id ps

-- The row is the live grant of the proof.
unfoldable pub grants : AdmissionRow → String → String → AdmissionProof → ℕ → Bool
grants r graph_id node_id p at =
    str_eq r.admission_id p.admission_id
    && str_eq r.graph_id graph_id
    && str_eq r.node_id node_id
    && str_eq r.owner_id p.owner_id
    && r.granted
    && r.fencing_token == p.fencing_token
    && ltb at r.expires_at

renewed_admission : ℕ → AdmissionRow → AdmissionRow
renewed_admission at r = record r { revision = r.revision + 1; heartbeat_at = at }

unfoldable pub fence_admission :
    String
    → String
    → AdmissionProof
    → ℕ
    → List AdmissionRow
    → Result EffectError (List AdmissionRow)
unfolding renewed_admission
fence_admission graph_id node_id p at rows = do
  raise_if (not (any_of (λ (r : AdmissionRow). grants r graph_id node_id p at) rows))
      admission_rejected
  ok (
      map
        (λ (r : AdmissionRow). if grants r graph_id node_id p at then renewed_admission at r else r)
        rows)

-- The loop over the nodes.
unfoldable pub fence_admissions :
    String
    → List String
    → String
    → Proofs
    → ℕ
    → List AdmissionRow
    → Result EffectError (List AdmissionRow)
unfolding find_proof fence_admission
fence_admissions graph_id [] owner proofs at rows = ok rows
fence_admissions graph_id (id ∷ ids) owner proofs at rows =
    elim (find_proof id proofs) [
      | none ↦ err key_error
      | some p ↦
          raise_if (not (str_eq p.owner_id owner)) admission_rejected
          >> fence_admission graph_id id p at rows
    ]
    >>= fence_admissions graph_id ids owner proofs at

-- `_fence_effect_dag_admission_proofs`, with the rows it leaves.
unfoldable pub fence_admission_proofs :
    String
    → List String
    → String
    → Option Proofs
    → ℕ
    → List AdmissionRow
    → Result EffectError (List AdmissionRow)
unfolding fence_admissions
fence_admission_proofs graph_id ids owner none at rows = ok rows
fence_admission_proofs graph_id ids owner (some proofs) at rows = do
  raise_if (not (same_set (map (λ (p : String × AdmissionProof). p.0) proofs) ids))
      admission_rejected
  fence_admissions graph_id ids owner proofs at rows
